-- ===== src/Store/Search.antt =====
-- The tree as a map from texts to nodes, and what keeps it one.
use mathlib.Core.Path.{subst}
use mqttfs.Base.{
  ℕ, suc, ◌≤◌, List, [], ◌∷◌, Bool, true, false, ◌&&◌, Option, none, some, Ordering, ◌≡◌, ◌≢◌, ◌⊎◌,
  inl, inr, refl, sym, ap, arith, ◌==◌, if◌then◌else◌, All, Bool-cases,
}
use mqttfs.Str.{Str, text, IsStr, str_compare}
use mqttfs.Str.Compare.{str_compare_lem}
use mqttfs.Node.{Node, node_compare}
use mqttfs.Node.Update.{IsNode}
use mqttfs.Queue.{is_equal}
use mqttfs.Store.{Context, Item, view, node, search, item_at}

-- Equality of texts as a test.
abbrev pub same : List ℕ → List ℕ → Bool
same [] [] = true
same [] (y ∷ ys) = false
same (x ∷ xs) [] = false
same (x ∷ xs) (y ∷ ys) = x == y && same xs ys

pub same→eq : (xs ys : List ℕ) → same xs ys ≡ true → xs ≡ ys
same→eq [] [] h = refl
same→eq [] (y ∷ ys) h = cc
same→eq (x ∷ xs) [] h = cc
same→eq (x ∷ xs) (y ∷ ys) h = ground (arith, same→eq xs ys)

pub same_refl : (xs : List ℕ) → same xs xs ≡ true
same_refl [] = refl
same_refl (x ∷ xs) = ground (arith, same_refl xs)

pub eq→same : (xs ys : List ℕ) → xs ≡ ys → same xs ys ≡ true
eq→same xs ys e = rw e (same_refl ys)

-- An element that was found: its slot, its node's address, and the node.
pub record Found : Type 0 where
  pub slot : ℕ
  pub addr : ℕ
  pub found : Node

abbrev pub found_at : ℕ → ℕ → Option Node → Option Found
found_at slot a none = none
found_at slot a (some n) = some (record { slot = slot; addr = a; found = n })

-- The first node with the text for its path. A bare path stands for no node.
unfoldable pub find : (ℕ → Option Node) → List ℕ → List (ℕ × Item) → Option Found
find nodes key [] = none
find nodes key ((slot, view s) ∷ rest) = find nodes key rest
find nodes key ((slot, node a) ∷ rest) =
    let further = find nodes key rest in
    elim (nodes a) [
      | none ↦ further
      | some n ↦
          if same (text n.path) key
          then some (record { slot = slot; addr = a; found = n })
          else further
    ]

unfoldable pub lookup : Context → List ℕ → Option Found
lookup c key = find c.nodes key c.root

-- An element holds a node that is there.
pub data IsEntry (nodes : ℕ → Option Node) : ℕ × Item → Type 0 where
  entry : (slot a : ℕ) (n : Node) → nodes a ≡ some n → IsNode n → IsEntry nodes (slot, node a)

abbrev pub text_at : (ℕ → Option Node) → Item → List ℕ
text_at nodes (view s) = text s
text_at nodes (node a) = elim (nodes a) [ none ↦ [] | some n ↦ text n.path ]

pub text_at-node :
    (nodes : ℕ → Option Node) (a : ℕ) (n : Node)
    → nodes a ≡ some n
    → text_at nodes (node a) ≡ text n.path
text_at-node nodes a n e = rw (e, text_at)

-- No two elements have one text.
abbrev pub Distinct : (ℕ → Option Node) → List (ℕ × Item) → Type 0
Distinct nodes [] = Unit
Distinct nodes ((slot, item) ∷ rest) =
    All (λ e. text_at nodes e.1 ≢ text_at nodes item) rest × Distinct nodes rest

-- Slots ascend along the list, from `from` on and below `next`.
abbrev pub Ascending : ℕ → ℕ → List (ℕ × Item) → Type 0
Ascending next from [] = from ≤ next
Ascending next from ((slot, item) ∷ rest) = (from ≤ slot) × Ascending next (suc slot) rest

pub record IsValid (c : Context) : Type 0 where
  pub entries : All (IsEntry c.nodes) c.root
  pub distinct : Distinct c.nodes c.root
  pub slots : Ascending c.next 0 c.root
  pub unused : (a : ℕ) → c.next ≤ a → c.nodes a ≡ none

abbrev pub slot_of : Option Found → Option ℕ
slot_of none = none
slot_of (some f) = some f.slot

is_equal→eq : (o : Ordering) → is_equal o ≡ true → o ≡ Ordering.eq
is_equal→eq Ordering.lt h = cc
is_equal→eq Ordering.eq h = refl
is_equal→eq Ordering.gt h = cc

compares_as_same :
    (key : Str) (n : Node)
    → IsStr key
    → IsNode n
    → is_equal (node_compare key n.path) ≡ same (text n.path) (text key)
unfolding node_compare
compares_as_same key n h g = elim (Bool-cases (same (text n.path) (text key))) [
  | inl e ↦
      rw e (ap is_equal ((str_compare_lem key n.path h g.path_there).0.1 (sym (same→eq _ _ e))))
  | inr e ↦ rw e (differ e (Bool-cases (is_equal (str_compare key n.path))))
]
  where
    differ :
        same (text n.path) (text key) ≡ false
        → (is_equal (str_compare key n.path) ≡ true) ⊎ (is_equal (str_compare key n.path) ≡ false)
        → is_equal (str_compare key n.path) ≡ false
    differ e (inr f) = f
    differ e (inl t) = cc (
      e,
      eq→same (text n.path) (text key)
          (sym ((str_compare_lem key n.path h g.path_there).0.0 (is_equal→eq _ t))),
    )

-- The search of the program finds what the map has.
pub search-find :
    (nodes : ℕ → Option Node) (key : Str) (root : List (ℕ × Item))
    → IsStr key
    → All (IsEntry nodes) root
    → search nodes key root ≡ some (slot_of (find nodes (text key) root))
unfolding search find
search-find nodes key [] h es = refl
search-find nodes key ((slot, item) ∷ rest) h (entry _ a n e g, es) =
    ground (arith, e, compares_as_same key n h g, search-find nodes key rest h es)

-- What was found is there, under its text.
pub record IsFound (nodes : ℕ → Option Node) (key : List ℕ) (f : Found) : Type 0 where
  pub stored : nodes f.addr ≡ some f.found
  pub keyed : text f.found.path ≡ key
  pub good : IsNode f.found

pub find-IsFound :
    (nodes : ℕ → Option Node) (key : List ℕ) (root : List (ℕ × Item)) (f : Found)
    → All (IsEntry nodes) root
    → find nodes key root ≡ some f
    → IsFound nodes key f
unfolding find
find-IsFound nodes key [] f es h = cc
find-IsFound nodes key ((slot, item) ∷ rest) f (entry _ a n e g, es) h =
    elim (Bool-cases (same (text n.path) key)) [
      | inl s ↦
          subst (IsFound nodes key) (first s)
            (record { stored = e; keyed = same→eq (text n.path) key s; good = g })
      | inr s ↦ find-IsFound nodes key rest f es (ground (arith, e, s))
    ]
  where
    first : same (text n.path) key ≡ true → record { slot = slot; addr = a; found = n } ≡ f
    first s = ground (arith, e, s)

pub find-from :
    (nodes : ℕ → Option Node) (key : List ℕ) (root : List (ℕ × Item)) (f : Found) (next from : ℕ)
    → Ascending next from root
    → find nodes key root ≡ some f
    → All (IsEntry nodes) root
    → from ≤ f.slot
unfolding find
find-from nodes key [] f next from o h es = cc
find-from nodes key ((slot, item) ∷ rest) f next from (o, os) h (entry _ a n e g, es) =
    ground (arith, e, find-from nodes key rest f next (suc slot) os)

-- The slot that was found holds the node.
pub item_at-found :
    (nodes : ℕ → Option Node) (key : List ℕ) (root : List (ℕ × Item)) (f : Found) (next from : ℕ)
    → Ascending next from root
    → find nodes key root ≡ some f
    → All (IsEntry nodes) root
    → item_at f.slot root ≡ some (node f.addr)
unfolding find item_at
item_at-found nodes key [] f next from o h es = cc
item_at-found nodes key ((slot, item) ∷ rest) f next from (o, os) h (entry _ a n e g, es) = ground (
  arith,
  e,
  find-from nodes key rest f next (suc slot) os,
  item_at-found nodes key rest f next (suc slot) os,
)
