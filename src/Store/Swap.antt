-- ===== src/Store/Swap.antt =====
-- Two elements of the tree's list change the nodes that they point to, and the nodes their names.
use mqttfs.Base.{
  ℕ, List, [], ◌∷◌, map, Option, some, ◌≡◌, ◌≢◌, refl, sym, ap, ◌∙◌, arith, if◌then◌else◌, ◌==◌,
  All,
}
use mathlib.Core.Path.{subst}
use mathlib.Core.Option
use mqttfs.Str.{Str, text}
use mqttfs.Node.{Node}
use mqttfs.Node.Update.{IsNode}
use mqttfs.Store.{Item, node}
use mqttfs.Store.Search.{Found, find, same, IsEntry, entry, text_at, text_at-node, Distinct}
use mqttfs.Store.Linked.{put_in}

abbrev pub with_path : Node → Str → Node
with_path n path = record n { path = path }

-- What a lookup finds now where it found an entry before.
abbrev pub in_exchange : Found → Found → Found → Found
in_exchange f g h =
    if h.slot == g.slot
    then record { slot = g.slot; addr = f.addr; found = with_path f.found g.found.path }
    else if h.slot == f.slot
    then record { slot = f.slot; addr = g.addr; found = with_path g.found f.found.path }
    else h

module _ (f g : Found) where
  abbrev pub swap : ℕ × Item → ℕ × Item
  swap x = put_in g.slot (node f.addr) (put_in f.slot (node g.addr) x)

  -- The element points to a node of the same path as before.
  pub data Swaps (nodes nodes' : ℕ → Option Node) : ℕ × Item → Type 0 where
    swaps :
        (slot a b : ℕ) (n n' : Node)
        → nodes a ≡ some n
        → nodes' b ≡ some n'
        → text n'.path ≡ text n.path
        → IsNode n'
        → swap (slot, node a) ≡ (slot, node b)
        → in_exchange f g (record { slot = slot; addr = a; found = n })
          ≡ record { slot = slot; addr = b; found = n' }
        → Swaps nodes nodes' (slot, node a)

  module _ (nodes nodes' : ℕ → Option Node) where
    pub entries-swapped :
        (root : List (ℕ × Item))
        → All (Swaps nodes nodes') root
        → All (IsEntry nodes') (map swap root)
    entries-swapped [] k = tt
    entries-swapped (x ∷ rest) (swaps slot a b n n' e e' t q s r, k) =
        (subst (IsEntry nodes') (sym s) (entry slot b n' e' q), entries-swapped rest k)

    pub text_at-swapped :
        (x : ℕ × Item) → Swaps nodes nodes' x → text_at nodes' (swap x).1 ≡ text_at nodes x.1
    text_at-swapped x (swaps slot a b n n' e e' t q s r) =
        ap (λ (y : ℕ × Item). text_at nodes' y.1) s
        ∙ text_at-node nodes' b n' e'
        ∙ t
        ∙ sym (text_at-node nodes a n e)

    Distinct-one_swapped :
        (root : List (ℕ × Item)) (t t' : List ℕ)
        → t' ≡ t
        → All (Swaps nodes nodes') root
        → All (λ x. text_at nodes x.1 ≢ t) root
        → All (λ x. text_at nodes' x.1 ≢ t') (map swap root)
    Distinct-one_swapped [] t t' e k h = tt
    Distinct-one_swapped (x ∷ rest) t t' e (kx, k) (hx, h) =
        (λ q. hx (sym (text_at-swapped x kx) ∙ q ∙ e), Distinct-one_swapped rest t t' e k h)

    pub Distinct-swapped :
        (root : List (ℕ × Item))
        → All (Swaps nodes nodes') root
        → Distinct nodes root
        → Distinct nodes' (map swap root)
    Distinct-swapped [] k d = tt
    Distinct-swapped ((slot, item) ∷ rest) (kx, k) (dx, d) = (
      Distinct-one_swapped rest (text_at nodes item) (text_at nodes' (swap (slot, item)).1)
          (text_at-swapped (slot, item) kx) k dx,
      Distinct-swapped rest k d,
    )

    pub find-swapped :
        (key : List ℕ) (root : List (ℕ × Item))
        → All (Swaps nodes nodes') root
        → find nodes' key (map swap root) ≡ Option.map (in_exchange f g) (find nodes key root)
    unfolding find
    find-swapped key [] k = refl
    find-swapped key (x ∷ rest) (swaps slot a b n n' e e' t q s r, k) =
        ground (arith, e, e', s, r, ap (λ u. same u key) t, find-swapped key rest k)
