-- ===== src/Store/Replace.antt =====
-- A write to a node of the tree that leaves its path.
use mqttfs.Base.{
  ℕ, List, [], ◌∷◌, Option, some, ◌≡◌, inl, inr, refl, ap, ◌∙◌, arith, ◌==◌, All, Bool-cases,
}
use mqttfs.Node.{Node, FuseCall}
use mqttfs.Queue.{Mqtt}
use mqttfs.Node.Update.{IsNode}
use mqttfs.Store.{Context, Item, update}
use mqttfs.Store.Search.{IsEntry, entry, IsValid, lookup}
use mqttfs.Store.Frame.{IsKept, kept, entries-kept, Distinct-kept}

abbrev pub replaced : Context → ℕ → Node → Context
replaced c a n = record c { nodes = update c.nodes a (some n) }

module _ (nodes : ℕ → Option Node) (a : ℕ) (n n' : Node) (e : nodes a ≡ some n)
    (p : n'.path ≡ n.path) (g' : IsNode n') where
  pub replaced-IsKept :
      (root : List (ℕ × Item))
      → All (IsEntry nodes) root
      → All (IsKept nodes (update nodes a (some n'))) root
  replaced-IsKept [] es = tt
  replaced-IsKept (x ∷ rest) (entry slot b k f g, es) = (
    elim (Bool-cases (a == b)) [
      | inl q ↦ kept slot b k n' f (ground (arith, q)) (p ∙ here (ground (arith, q))) g'
      | inr q ↦ kept slot b k k f (ground (arith, q, f)) refl g
    ],
    replaced-IsKept rest es,
  )
    where
      here : a ≡ b → n.path ≡ k.path
      here q = cc (ap nodes q, e, f)

pub IsValid-replaced :
    (c : Context) (a : ℕ) (n n' : Node)
    → IsValid c
    → c.nodes a ≡ some n
    → n'.path ≡ n.path
    → IsNode n'
    → IsValid (replaced c a n')
IsValid-replaced c a n n' v e p g = record {
  entries = entries-kept c.nodes _ c.root k;
  distinct = Distinct-kept c.nodes _ c.root k v.distinct;
  slots = v.slots;
  unused = λ b h. ground (arith, e, v.unused b h, other b);
}
  where
    k : All (IsKept c.nodes (update c.nodes a (some n'))) c.root
    k = replaced-IsKept c.nodes a n n' e p g c.root v.entries

    other : (b : ℕ) → a ≡ b → c.nodes a ≡ c.nodes b
    other b q = ap c.nodes q

-- The client and the calls on poll handles have no part in the tree.
pub IsValid-mqtt : (c : Context) (o : Option Mqtt) → IsValid c → IsValid (record c { mqtt = o })
IsValid-mqtt c o v = record {
  entries = v.entries;
  distinct = v.distinct;
  slots = v.slots;
  unused = v.unused;
}

pub IsValid-calls :
    (c : Context) (calls : List FuseCall) → IsValid c → IsValid (record c { calls = calls })
IsValid-calls c calls v = record {
  entries = v.entries;
  distinct = v.distinct;
  slots = v.slots;
  unused = v.unused;
}

pub lookup-mqtt :
    (x : Context) (o : Option Mqtt) (k : List ℕ) → lookup (record x { mqtt = o }) k ≡ lookup x k
unfolding lookup
lookup-mqtt x o k = refl
