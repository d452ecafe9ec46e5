-- ===== src/Store/Edit.antt =====
-- How the map changes when an element is added, filled or taken out, and when the memory changes.
use mqttfs.Base.{
  ℕ, suc, ◌≤◌, List, [], ◌∷◌, ◌++◌, true, Option, none, some, ◌≡◌, ◌≢◌, refl, sym, ap, ◌∙◌, arith,
  if◌then◌else◌, All,
}
use mqttfs.Str.{Str, text, IsStr}
use mqttfs.Str.Compare.{str_compare_lem}
use mqttfs.Node.{Node, node_compare}
use mqttfs.Queue.{is_equal}
use mqttfs.Store.{Item, view, node, search, item_at, put_at, without}
use mqttfs.Store.Search.{
  same, eq→same, Found, find, IsEntry, entry, text_at, text_at-node, Distinct, Ascending,
}

abbrev pub with_new : List (ℕ × Item) → ℕ → Item → List (ℕ × Item)
with_new root slot item = root ++ (slot, item) ∷ []

Ascending-le : (next from : ℕ) (root : List (ℕ × Item)) → Ascending next from root → from ≤ next
Ascending-le next from [] o = o
Ascending-le next from ((slot, item) ∷ rest) (o, os) =
    omega (arith, Ascending-le next (suc slot) rest os)

pub Ascending-from :
    (next a b : ℕ) (root : List (ℕ × Item)) → a ≤ b → Ascending next b root → Ascending next a root
Ascending-from next a b [] h o = omega arith
Ascending-from next a b ((slot, item) ∷ rest) h (o, os) = (omega arith, os)

-- A new element stands behind the others, in the first slot that none of them has.
pub item_at-new :
    (next from : ℕ) (root : List (ℕ × Item)) (item : Item)
    → Ascending next from root
    → item_at next (with_new root next item) ≡ some item
unfolding item_at
item_at-new next from [] item o = ground arith
item_at-new next from ((slot, i) ∷ rest) item (o, os) =
    ground (arith, Ascending-le next (suc slot) rest os, item_at-new next (suc slot) rest item os)

pub put_at-new :
    (next from : ℕ) (root : List (ℕ × Item)) (item new : Item)
    → Ascending next from root
    → put_at next new (with_new root next item) ≡ with_new root next new
unfolding put_at
put_at-new next from [] item new o = ground arith
put_at-new next from ((slot, i) ∷ rest) item new (o, os) =
    ground
      (arith, Ascending-le next (suc slot) rest os, put_at-new next (suc slot) rest item new os)

pub without-new :
    (next from : ℕ) (root : List (ℕ × Item)) (item : Item)
    → Ascending next from root
    → without next (with_new root next item) ≡ root
unfolding without
without-new next from [] item o = ground arith
without-new next from ((slot, i) ∷ rest) item (o, os) =
    ground (arith, Ascending-le next (suc slot) rest os, without-new next (suc slot) rest item os)

pub Ascending-new :
    (next from : ℕ) (root : List (ℕ × Item)) (item : Item)
    → Ascending next from root
    → Ascending (suc next) from (with_new root next item)
Ascending-new next from [] item o = (o, omega arith)
Ascending-new next from ((slot, i) ∷ rest) item (o, os) =
    (o, Ascending-new next (suc slot) rest item os)

key_itself : (key : Str) → IsStr key → is_equal (node_compare key key) ≡ true
unfolding node_compare
key_itself key h = ap is_equal ((str_compare_lem key key h h).0.1 refl)

-- The key that has just been added is found in its slot.
pub search-new :
    (nodes : ℕ → Option Node) (key : Str) (root : List (ℕ × Item)) (next : ℕ)
    → IsStr key
    → search nodes key root ≡ some none
    → search nodes key (with_new root next (view key)) ≡ some (some next)
unfolding search
search-new nodes key [] next h e = rw (key_itself key h)
search-new nodes key ((slot, item) ∷ rest) next h e =
    ground (arith, search-new nodes key rest next h)

pub All-new :
    (P : ℕ × Item → Type 0) (root : List (ℕ × Item)) (x : ℕ × Item)
    → All P root
    → P x
    → All P (root ++ x ∷ [])
All-new P [] x h p = (p, tt)
All-new P (y ∷ ys) x (hy, h) p = (hy, All-new P ys x h p)

pub All-map :
    (P Q : ℕ × Item → Type 0) (root : List (ℕ × Item))
    → ((e : ℕ × Item) → P e → Q e)
    → All P root
    → All Q root
All-map P Q [] f h = tt
All-map P Q (y ∷ ys) f (hy, h) = (f y hy, All-map P Q ys f h)

-- A text that is not found is that of no element.
pub find-none :
    (nodes : ℕ → Option Node) (key : List ℕ) (root : List (ℕ × Item))
    → All (IsEntry nodes) root
    → find nodes key root ≡ none
    → All (λ e. text_at nodes e.1 ≢ key) root
unfolding find
find-none nodes key [] es h = tt
find-none nodes key ((slot, item) ∷ rest) (entry _ a n e g, es) h = (
  λ t. differs (sym (text_at-node nodes a n e) ∙ t),
  find-none nodes key rest es (ground (arith, e)),
)
  where
    differs : text n.path ≡ key → ⊥
    differs t = ground (arith, e, eq→same (text n.path) key t)

pub Distinct-new :
    (nodes : ℕ → Option Node) (root : List (ℕ × Item)) (slot : ℕ) (item : Item)
    → All (λ e. text_at nodes e.1 ≢ text_at nodes item) root
    → Distinct nodes root
    → Distinct nodes (with_new root slot item)
Distinct-new nodes [] slot item h d = (tt, tt)
Distinct-new nodes ((s, i) ∷ rest) slot item (hi, h) (di, d) = (
  All-new (λ e. text_at nodes e.1 ≢ text_at nodes i) rest (slot, item) di (λ t. hi (sym t)),
  Distinct-new nodes rest slot item h d,
)

abbrev pub or_else : Option Found → Option Found → Option Found
or_else none g = g
or_else (some f) g = some f

pub find-new :
    (nodes : ℕ → Option Node) (key : List ℕ) (root : List (ℕ × Item)) (slot : ℕ) (item : Item)
    → find nodes key (with_new root slot item)
      ≡ or_else (find nodes key root) (find nodes key ((slot, item) ∷ []))
unfolding find
find-new nodes key [] slot item = refl
find-new nodes key ((s, view v) ∷ rest) slot item = find-new nodes key rest slot item
find-new nodes key ((s, node a) ∷ rest) slot item =
    ground (arith, find-new nodes key rest slot item)

pub find_one :
    (nodes : ℕ → Option Node) (key : List ℕ) (slot a : ℕ) (n : Node)
    → nodes a ≡ some n
    → find nodes key ((slot, node a) ∷ []) ≡ (
        if same (text n.path) key then some (record { slot = slot; addr = a; found = n }) else none)
unfolding find
find_one nodes key slot a n e = ground (arith, e)
