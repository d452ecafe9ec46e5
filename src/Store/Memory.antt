-- ===== src/Store/Memory.antt =====
-- A write to the memory of a node that no element of the tree points to, or that one element does.
use mqttfs.Base.{
  ℕ, List, [], ◌∷◌, Option, none, some, ◌≡◌, ◌≢◌, inl, inr, refl, sym, ap, ◌∙◌, arith,
  if◌then◌else◌, All, Bool-cases,
}
use mathlib.Core.Path.{subst}
use mqttfs.Str.{text}
use mqttfs.Node.{Node}
use mqttfs.Store.{Context, Item, view, node, update, without}
use mqttfs.Store.Search.{
  Found, find, IsEntry, entry, text_at-node, IsFound, IsValid, lookup, same, same→eq, eq→same,
  find-IsFound,
}
use mqttfs.Store.Frame.{
  IsKept, kept, Lacks, Lacks-without, find-Lacks, find-without, entries-kept, Distinct-kept,
  All-without, Distinct-without, Ascending-without,
}

-- The element points elsewhere.
abbrev pub Avoids : ℕ → ℕ × Item → Type 0
Avoids a (slot, view s) = Unit
Avoids a (slot, node b) = a ≢ b

pub Avoids-IsKept :
    (nodes : ℕ → Option Node) (a : ℕ) (o : Option Node) (root : List (ℕ × Item))
    → All (IsEntry nodes) root
    → All (Avoids a) root
    → All (IsKept nodes (update nodes a o)) root
Avoids-IsKept nodes a o [] es h = tt
Avoids-IsKept nodes a o (x ∷ rest) (entry slot b n e g, es) (hx, h) =
    (kept slot b n n e (ground (arith, e, hx)) refl g, Avoids-IsKept nodes a o rest es h)

find-Avoids :
    (nodes : ℕ → Option Node) (a : ℕ) (o : Option Node) (key : List ℕ) (root : List (ℕ × Item))
    → All (IsEntry nodes) root
    → All (Avoids a) root
    → find (update nodes a o) key root ≡ find nodes key root
unfolding find
find-Avoids nodes a o key [] es h = refl
find-Avoids nodes a o key (x ∷ rest) (entry slot b n e g, es) (hx, h) =
    ground (arith, e, hx, find-Avoids nodes a o key rest es h)

-- Where no element has the text of a node, none points to it.
pub Avoids-of_Lacks :
    (nodes : ℕ → Option Node) (a : ℕ) (n : Node) (root : List (ℕ × Item))
    → nodes a ≡ some n
    → All (IsEntry nodes) root
    → Lacks nodes (text n.path) root
    → All (Avoids a) root
Avoids-of_Lacks nodes a n [] e es h = tt
Avoids-of_Lacks nodes a n (x ∷ rest) e (entry slot b m f g, es) (hx, h) =
    (λ p. hx (text_at-node nodes b n (sym (ap nodes p) ∙ e)), Avoids-of_Lacks nodes a n rest e es h)

-- The state without an element and its node.
abbrev pub removed : Context → Found → Context
removed c f = record c { nodes = update c.nodes f.addr none; root = without f.slot c.root }

module _ (c : Context) (v : IsValid c) (key : List ℕ) (f : Found)
    (here : lookup c key ≡ some f) where
  found_here : find c.nodes key c.root ≡ some f
  unfolding lookup
  found_here = here

  is_found : IsFound c.nodes key f
  is_found = find-IsFound c.nodes key c.root f v.entries found_here

  lacks : Lacks c.nodes key (without f.slot c.root)
  lacks = Lacks-without c.nodes key c.root f c.next 0 v.slots v.entries v.distinct found_here

  left : All (IsEntry c.nodes) (without f.slot c.root)
  left = All-without (IsEntry c.nodes) f.slot c.root v.entries

  avoids : All (Avoids f.addr) (without f.slot c.root)
  avoids =
      Avoids-of_Lacks c.nodes f.addr f.found (without f.slot c.root) is_found.stored left
        (subst (λ k. Lacks c.nodes k (without f.slot c.root)) (sym is_found.keyed) lacks)

  pub IsValid-removed : IsValid (removed c f)
  IsValid-removed =
      let k = Avoids-IsKept c.nodes f.addr none (without f.slot c.root) left avoids in
      record {
        entries = entries-kept c.nodes _ (without f.slot c.root) k;
        distinct =
            Distinct-kept c.nodes _ (without f.slot c.root) k
              (Distinct-without c.nodes f.slot c.root v.distinct);
        slots = Ascending-without c.next 0 f.slot c.root v.slots;
        unused = λ b h. ground (arith, v.unused b h);
      }

  -- The text leads nowhere, and every other leads where it did.
  pub lookup-removed :
      (other : List ℕ)
      → lookup (removed c f) other ≡ (if same key other then none else lookup c other)
  unfolding lookup
  lookup-removed other =
      find-Avoids c.nodes f.addr none other (without f.slot c.root) left avoids ∙ by_text
    where
      none_left : key ≡ other → find c.nodes other (without f.slot c.root) ≡ none
      none_left p =
          find-Lacks c.nodes other _ left
            (subst (λ k. Lacks c.nodes k (without f.slot c.root)) p lacks)

      by_text :
          find c.nodes other (without f.slot c.root)
          ≡ (if same key other then none else find c.nodes other c.root)
      by_text = elim (Bool-cases (same key other)) [
        | inl s ↦ rw s (none_left (same→eq key other s))
        | inr s ↦ rw s (
            find-without c.nodes key other c.root f c.next 0 v.slots v.entries found_here
              (λ p. cc (eq→same key other p, s)))
      ]
