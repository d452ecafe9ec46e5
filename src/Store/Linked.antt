-- ===== src/Store/Linked.antt =====
-- The slot and the address of an entry belong to each other; a write to a slot as a map of the list.
use mqttfs.Base.{
  ℕ, suc, ◌≤◌, List, [], ◌∷◌, map, true, false, Option, some, ◌≡◌, ◌≢◌, inl, inr, refl, sym, ap,
  ◌∙◌, arith, if◌then◌else◌, ◌==◌, All, Bool-cases,
}
use mathlib.Core.Path.{subst}
use mqttfs.Str.{text}
use mqttfs.Node.{Node}
use mqttfs.Store.{Item, view, node, item_at, put_at}
use mqttfs.Store.Search.{
  Found, find, same, eq→same, IsEntry, entry, text_at, text_at-node, Distinct, Ascending, IsFound,
  find-IsFound, find-from,
}

-- The element stands in the slot of the entry if and only if it points to the entry's node.
abbrev pub IsLinked : Found → ℕ × Item → Type 0
IsLinked f (slot, view s) = Unit
IsLinked f (slot, node a) = (slot == f.slot) ≡ (a == f.addr)

IsLinked-later :
    (nodes : ℕ → Option Node) (a : ℕ) (n : Node) (f : Found) (next : ℕ) (root : List (ℕ × Item))
    → f.addr ≡ a
    → Ascending next (suc f.slot) root
    → All (IsEntry nodes) root
    → All (λ x. text_at nodes x.1 ≢ text_at nodes (node a)) root
    → All (IsLinked f) root
IsLinked-later nodes a n f next root p o es d = from_slot (suc f.slot) (omega arith) root o es d
  where
    differs : (b : ℕ) → text_at nodes (node b) ≢ text_at nodes (node a) → b ≢ f.addr
    differs b dx q = dx (ap (λ x. text_at nodes (node x)) (q ∙ p))

    from_slot :
        (from : ℕ)
        → suc f.slot ≤ from
        → (root : List (ℕ × Item)) → Ascending next from root
        → All (IsEntry nodes) root
        → All (λ x. text_at nodes x.1 ≢ text_at nodes (node a)) root
        → All (IsLinked f) root
    from_slot from l [] o es d = tt
    from_slot from l (x ∷ rest) (o, os) (entry slot b k e g, es) (dx, d) =
        (ground (arith, differs b dx), from_slot (suc slot) (omega arith) rest os es d)

pub find-Linked :
    (nodes : ℕ → Option Node) (key : List ℕ) (root : List (ℕ × Item)) (f : Found) (next from : ℕ)
    → Ascending next from root
    → All (IsEntry nodes) root
    → Distinct nodes root
    → find nodes key root ≡ some f
    → All (IsLinked f) root
unfolding find
find-Linked nodes key [] f next from o es d h = tt
find-Linked nodes key (x ∷ rest) f next from (o, os) (entry slot a n e g, es) (dx, d) h =
    elim (Bool-cases (same (text n.path) key)) [
      | inl s ↦
          subst (λ f. All (IsLinked f) ((slot, node a) ∷ rest)) (hit s)
            (
              ground arith,
              IsLinked-later nodes a n (record { slot = slot; addr = a; found = n }) next rest refl
                  os es dx,
            )
      | inr s ↦ (
        ground (arith, find-from nodes key rest f next (suc slot) os (miss s) es, other_node s),
        find-Linked nodes key rest f next (suc slot) os es d (miss s),
      )
    ]
  where
    hit : same (text n.path) key ≡ true → record { slot = slot; addr = a; found = n } ≡ f
    hit s = ground (arith, e)

    miss : same (text n.path) key ≡ false → find nodes key rest ≡ some f
    miss s = ground (arith, e)

    other_node : same (text n.path) key ≡ false → a ≢ f.addr
    other_node s p =
        let here : IsFound nodes key f = find-IsFound nodes key rest f es (miss s) in
        cc (
          s,
          eq→same (text n.path) key (
              sym (text_at-node nodes a n e)
              ∙ ap (λ b. text_at nodes (node b)) p
              ∙ text_at-node nodes f.addr f.found here.stored
              ∙ here.keyed),
        )

abbrev pub put_in : ℕ → Item → ℕ × Item → ℕ × Item
put_in slot new (s, item) = (s, if s == slot then new else item)

map_above :
    (slot : ℕ) (new : Item) (next from : ℕ) (root : List (ℕ × Item))
    → suc slot ≤ from
    → Ascending next from root
    → map (put_in slot new) root ≡ root
map_above slot new next from [] l o = refl
map_above slot new next from ((s, i) ∷ rest) l (o, os) =
    ground (arith, map_above slot new next (suc s) rest (omega arith) os)

pub put_at-map :
    (slot : ℕ) (new : Item) (next from : ℕ) (root : List (ℕ × Item))
    → Ascending next from root
    → put_at slot new root ≡ map (put_in slot new) root
unfolding put_at
put_at-map slot new next from [] o = refl
put_at-map slot new next from ((s, i) ∷ rest) (o, os) = elim (Bool-cases (s == slot)) [
  | inl e ↦
      rw e (
        ap (λ xs. (s, new) ∷ xs)
          (sym (map_above slot new next (suc s) rest (ground (arith, e)) os)))
  | inr e ↦ rw e (ap (λ xs. (s, i) ∷ xs) (put_at-map slot new next (suc s) rest os))
]

pub Ascending-put :
    (slot : ℕ) (new : Item) (next from : ℕ) (root : List (ℕ × Item))
    → Ascending next from root
    → Ascending next from (map (put_in slot new) root)
Ascending-put slot new next from [] o = o
Ascending-put slot new next from ((s, i) ∷ rest) (o, os) =
    (o, Ascending-put slot new next (suc s) rest os)

pub item_at-put_at :
    (s slot : ℕ) (new : Item) (root : List (ℕ × Item))
    → (s == slot) ≡ false
    → item_at s (put_at slot new root) ≡ item_at s root
unfolding item_at put_at
item_at-put_at s slot new [] d = refl
item_at-put_at s slot new ((t, i) ∷ rest) d = ground (arith, d, item_at-put_at s slot new rest d)
