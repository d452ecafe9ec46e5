-- ===== src/Store/Frame.antt =====
-- Removal of an element, and a change of the memory under the elements that stay.
use mqttfs.Base.{
  ℕ, suc, List, [], ◌∷◌, true, false, Option, none, some, ◌≡◌, ◌≢◌, inl, inr, refl, sym, ap, ◌∙◌,
  arith, ◌==◌, All, Bool-cases,
}
use mqttfs.Str.{text}
use mqttfs.Node.{Node}
use mqttfs.Node.Update.{IsNode}
use mqttfs.Store.{Item, node, without, update}
use mqttfs.Store.Search.{
  same, same→eq, eq→same, Found, find, find-from, IsEntry, entry, text_at, text_at-node, Distinct,
  Ascending,
}
use mqttfs.Store.Edit.{Ascending-from, All-map}

pub All-without :
    (P : ℕ × Item → Type 0) (slot : ℕ) (root : List (ℕ × Item))
    → All P root
    → All P (without slot root)
unfolding without
All-without P slot [] h = tt
All-without P slot ((s, i) ∷ rest) (hi, h) = elim (Bool-cases (s == slot)) [
  | inl e ↦ rw e h
  | inr e ↦ rw e (hi, All-without P slot rest h)
]

pub Distinct-without :
    (nodes : ℕ → Option Node) (slot : ℕ) (root : List (ℕ × Item))
    → Distinct nodes root
    → Distinct nodes (without slot root)
unfolding without
Distinct-without nodes slot [] d = tt
Distinct-without nodes slot ((s, i) ∷ rest) (di, d) = elim (Bool-cases (s == slot)) [
  | inl e ↦ rw e d
  | inr e ↦ rw e (
    All-without (λ x. text_at nodes x.1 ≢ text_at nodes i) slot rest di,
    Distinct-without nodes slot rest d,
  )
]

pub Ascending-without :
    (next from slot : ℕ) (root : List (ℕ × Item))
    → Ascending next from root
    → Ascending next from (without slot root)
unfolding without
Ascending-without next from slot [] o = o
Ascending-without next from slot ((s, i) ∷ rest) (o, os) = elim (Bool-cases (s == slot)) [
  | inl e ↦ rw e (Ascending-from next from (suc s) rest (omega arith) os)
  | inr e ↦ rw e (o, Ascending-without next (suc s) slot rest os)
]

-- No element has the text.
abbrev pub Lacks : (ℕ → Option Node) → List ℕ → List (ℕ × Item) → Type 0
Lacks nodes key = All (λ e. text_at nodes e.1 ≢ key)

pub find-Lacks :
    (nodes : ℕ → Option Node) (key : List ℕ) (root : List (ℕ × Item))
    → All (IsEntry nodes) root
    → Lacks nodes key root
    → find nodes key root ≡ none
unfolding find
find-Lacks nodes key [] es h = refl
find-Lacks nodes key ((slot, item) ∷ rest) (entry _ a n e g, es) (hi, h) =
    elim (Bool-cases (same (text n.path) key)) [
      | inl s ↦ absurd (hi (text_at-node nodes a n e ∙ same→eq (text n.path) key s))
      | inr s ↦ ground (arith, e, s, find-Lacks nodes key rest es h)
    ]

-- Taking out what was found under a text leaves no element of that text.
pub Lacks-without :
    (nodes : ℕ → Option Node) (key : List ℕ) (root : List (ℕ × Item)) (f : Found) (next from : ℕ)
    → Ascending next from root
    → All (IsEntry nodes) root
    → Distinct nodes root
    → find nodes key root ≡ some f
    → Lacks nodes key (without f.slot root)
unfolding find without
Lacks-without nodes key [] f next from o es d h = cc
Lacks-without nodes key ((slot, item) ∷ rest) f next from (o, os) (entry _ a n e g, es) (di, d) h =
    elim (Bool-cases (same (text n.path) key)) [
      | inl s ↦ rw (here s) (all_differ s)
      | inr s ↦ rw (later s) (
        λ t. not_this s (sym (text_at-node nodes a n e) ∙ t),
        Lacks-without nodes key rest f next (suc slot) os es d (in_rest s),
      )
    ]
  where
    here : same (text n.path) key ≡ true → without f.slot ((slot, node a) ∷ rest) ≡ rest
    here s = ground (arith, e)

    all_differ : same (text n.path) key ≡ true → Lacks nodes key rest
    all_differ s =
        All-map (λ x. text_at nodes x.1 ≢ text_at nodes (node a)) (λ x. text_at nodes x.1 ≢ key)
          rest (λ x p t. p (t ∙ sym (text_at-node nodes a n e ∙ same→eq (text n.path) key s))) di

    in_rest : same (text n.path) key ≡ false → find nodes key rest ≡ some f
    in_rest s = ground (arith, e)

    later :
        same (text n.path) key ≡ false
        → without f.slot ((slot, node a) ∷ rest) ≡ (slot, node a) ∷ without f.slot rest
    later s = ground (arith, find-from nodes key rest f next (suc slot) os (in_rest s) es)

    not_this : same (text n.path) key ≡ false → text n.path ≡ key → ⊥
    not_this s t = cc (eq→same (text n.path) key t, s)

-- What is found under another text is found as before.
pub find-without :
    (nodes : ℕ → Option Node) (key other : List ℕ) (root : List (ℕ × Item)) (f : Found)
    (next from : ℕ)
    → Ascending next from root
    → All (IsEntry nodes) root
    → find nodes key root ≡ some f
    → key ≢ other
    → find nodes other (without f.slot root) ≡ find nodes other root
unfolding find without
find-without nodes key other [] f next from o es h ne = cc
find-without nodes key other ((slot, item) ∷ rest) f next from (o, os) (entry _ a n e g, es) h ne =
    elim (Bool-cases (same (text n.path) key)) [
      | inl s ↦ ground (arith, e, s, same→eq (text n.path) key s, other_text)
      | inr s ↦ ground (
        arith,
        e,
        s,
        find-from nodes key rest f next (suc slot) os (in_rest s) es,
        find-without nodes key other rest f next (suc slot) os es (in_rest s) ne,
      )
    ]
  where
    in_rest : same (text n.path) key ≡ false → find nodes key rest ≡ some f
    in_rest s = ground (arith, e)

    other_text : text n.path ≡ key → same (text n.path) other ≡ false
    other_text t = elim (Bool-cases (same (text n.path) other)) [
      | inl y ↦ absurd (ne (sym t ∙ same→eq (text n.path) other y))
      | inr y ↦ y
    ]

-- Under the elements of the tree the memory changes no path and breaks no node.
pub data IsKept (nodes nodes' : ℕ → Option Node) : ℕ × Item → Type 0 where
  kept :
      (slot a : ℕ) (n n' : Node)
      → nodes a ≡ some n
      → nodes' a ≡ some n'
      → n'.path ≡ n.path
      → IsNode n'
      → IsKept nodes nodes' (slot, node a)

pub entries-kept :
    (nodes nodes' : ℕ → Option Node) (root : List (ℕ × Item))
    → All (IsKept nodes nodes') root
    → All (IsEntry nodes') root
entries-kept nodes nodes' [] k = tt
entries-kept nodes nodes' (x ∷ rest) (kept slot a n n' e e' p g, k) =
    (entry slot a n' e' g, entries-kept nodes nodes' rest k)

text_at-kept :
    (nodes nodes' : ℕ → Option Node) (x : ℕ × Item)
    → IsKept nodes nodes' x
    → text_at nodes' x.1 ≡ text_at nodes x.1
text_at-kept nodes nodes' x (kept slot a n n' e e' p g) =
    text_at-node nodes' a n' e' ∙ ap text p ∙ sym (text_at-node nodes a n e)

pub Distinct-one :
    (nodes nodes' : ℕ → Option Node) (root : List (ℕ × Item)) (t t' : List ℕ)
    → t' ≡ t
    → All (IsKept nodes nodes') root
    → All (λ x. text_at nodes x.1 ≢ t) root
    → All (λ x. text_at nodes' x.1 ≢ t') root
Distinct-one nodes nodes' [] t t' e k h = tt
Distinct-one nodes nodes' (x ∷ rest) t t' e (kx, k) (hx, h) = (
  λ q. hx (sym (text_at-kept nodes nodes' x kx) ∙ q ∙ e),
  Distinct-one nodes nodes' rest t t' e k h,
)

pub Distinct-kept :
    (nodes nodes' : ℕ → Option Node) (root : List (ℕ × Item))
    → All (IsKept nodes nodes') root
    → Distinct nodes root
    → Distinct nodes' root
Distinct-kept nodes nodes' [] k d = tt
Distinct-kept nodes nodes' ((slot, item) ∷ rest) (kx, k) (dx, d) = (
  Distinct-one nodes nodes' rest (text_at nodes item) (text_at nodes' item)
      (text_at-kept nodes nodes' (slot, item) kx) k dx,
  Distinct-kept nodes nodes' rest k d,
)

-- The node as the new memory has it.
abbrev pub refresh : (ℕ → Option Node) → Option Found → Option Found
refresh nodes' none = none
refresh nodes' (some f) = elim (nodes' f.addr) [
  | none ↦ none
  | some n ↦ some (record { slot = f.slot; addr = f.addr; found = n })
]

pub find-kept :
    (nodes nodes' : ℕ → Option Node) (key : List ℕ) (root : List (ℕ × Item))
    → All (IsKept nodes nodes') root
    → find nodes' key root ≡ refresh nodes' (find nodes key root)
unfolding find
find-kept nodes nodes' key [] k = refl
find-kept nodes nodes' key (x ∷ rest) (kept slot a n n' e e' p g, k) =
    ground (arith, e, e', same_path, find-kept nodes nodes' key rest k)
  where
    same_path : same (text n'.path) key ≡ same (text n.path) key
    same_path = ap (λ s. same (text s) key) p

-- A write to memory that was unused is seen by no element.
pub fresh-IsKept :
    (nodes : ℕ → Option Node) (a : ℕ) (o : Option Node) (root : List (ℕ × Item))
    → nodes a ≡ none
    → All (IsEntry nodes) root
    → All (IsKept nodes (update nodes a o)) root
fresh-IsKept nodes a o [] u es = tt
fresh-IsKept nodes a o (x ∷ rest) u (entry slot b n e g, es) = (
  kept slot b n n e (ground (arith, e, u, other_address)) refl g,
  fresh-IsKept nodes a o rest u es,
)
  where
    other_address : a ≡ b → nodes a ≡ nodes b
    other_address p = ap nodes p

pub find-fresh :
    (nodes : ℕ → Option Node) (a : ℕ) (o : Option Node) (key : List ℕ) (root : List (ℕ × Item))
    → nodes a ≡ none
    → All (IsEntry nodes) root
    → find (update nodes a o) key root ≡ find nodes key root
unfolding find
find-fresh nodes a o key [] u es = refl
find-fresh nodes a o key (x ∷ rest) u (entry slot b n e g, es) =
    ground (arith, e, kept_here, find-fresh nodes a o key rest u es)
  where
    other_address : a ≡ b → nodes a ≡ nodes b
    other_address p = ap nodes p

    kept_here : update nodes a o b ≡ some n
    kept_here = ground (arith, e, u, other_address)

pub Ascending-next :
    (next from : ℕ) (root : List (ℕ × Item))
    → Ascending next from root
    → Ascending (suc next) from root
Ascending-next next from [] o = omega arith
Ascending-next next from ((slot, item) ∷ rest) (o, os) = (o, Ascending-next next (suc slot) rest os)
