-- ===== src/Store/Behind.antt =====
-- What a new element at the end of the tree's list leaves of the elements before it.
use mqttfs.Base.{ℕ, List, [], ◌∷◌, Option, some, ◌≡◌, arith}
use mqttfs.Str.{Str}
use mqttfs.Node.{Node}
use mqttfs.Store.{Item, search, item_at, without}
use mqttfs.Store.Edit.{with_new}

pub search-before :
    (nodes : ℕ → Option Node) (key : Str) (root : List (ℕ × Item)) (slot s : ℕ) (item : Item)
    → search nodes key root ≡ some (some slot)
    → search nodes key (with_new root s item) ≡ some (some slot)
unfolding search
search-before nodes key [] slot s item e = cc
search-before nodes key ((t, i) ∷ rest) slot s item e =
    ground (arith, e, search-before nodes key rest slot s item)

pub item_at-before :
    (slot : ℕ) (root : List (ℕ × Item)) (i : Item) (s : ℕ) (item : Item)
    → item_at slot root ≡ some i
    → item_at slot (with_new root s item) ≡ some i
unfolding item_at
item_at-before slot [] i s item e = cc
item_at-before slot ((t, j) ∷ rest) i s item e =
    ground (arith, e, item_at-before slot rest i s item)

pub without-before :
    (slot : ℕ) (root : List (ℕ × Item)) (i : Item) (s : ℕ) (item : Item)
    → item_at slot root ≡ some i
    → without slot (with_new root s item) ≡ with_new (without slot root) s item
unfolding item_at without
without-before slot [] i s item e = cc
without-before slot ((t, j) ∷ rest) i s item e =
    ground (arith, e, without-before slot rest i s item)
