-- ===== src/Store/Insert.antt =====
-- A new element with its node: what `tsearch` of a missing key comes to once the node stands there.
use mqttfs.Base.{ℕ, ◌<◌, suc, List, Option, none, some, ◌≡◌, sym, ap, ◌∙◌, arith, if◌then◌else◌}
use mqttfs.Str.{Str, text}
use mqttfs.Node.{Node}
use mqttfs.Node.Update.{IsNode}
use mqttfs.Store.{Context, node, update}
use mqttfs.Store.Search.{
  find, lookup, same, IsEntry, entry, Ascending, IsValid, text_at, text_at-node, same→eq,
}
use mqttfs.Store.Edit.{
  with_new, All-new, Distinct-new, Ascending-new, find-new, find-none, find_one,
}
use mqttfs.Store.Frame.{
  entries-kept, Distinct-kept, Distinct-one, fresh-IsKept, find-fresh, Ascending-next,
}

-- The address and the bound that follows are given: the node may have been in the memory before.
unfoldable pub placed : Context → ℕ → ℕ → Node → Context
placed c a next n = record c {
  nodes = update c.nodes a (some n);
  next = next;
  root = with_new c.root c.next (node a);
}

unfoldable pub inserted : Context → Node → Context
unfolding placed
inserted c n = placed c (suc c.next) (suc (suc c.next)) n

pub IsValid-next : (c : Context) → IsValid c → IsValid (record c { next = suc c.next })
IsValid-next c v = record {
  entries = v.entries;
  distinct = v.distinct;
  slots = Ascending-next c.next 0 c.root v.slots;
  unused = λ b h. v.unused b (omega arith);
}

module _ (key : List ℕ) (c : Context) (v : IsValid c) (a next : ℕ) (free : c.nodes a ≡ none)
    (n : Node) (e : find c.nodes key c.root ≡ none) (t : text n.path ≡ key) where
  -- The node is in the tree, and nothing else has changed there.
  pub IsValid-placed :
      a < next
      → Ascending next 0 (with_new c.root c.next (node a))
      → c.next < next
      → IsNode n
      → IsValid (placed c a next n)
  unfolding placed
  IsValid-placed l o m g =
      let nodes' : ℕ → Option Node = update c.nodes a (some n) in
      let k = fresh-IsKept c.nodes a (some n) c.root free v.entries in
      let here : nodes' a ≡ some n = ground arith in
      record {
        entries =
            All-new (IsEntry nodes') c.root _ (entries-kept c.nodes nodes' c.root k)
              (entry c.next a n here g);
        distinct =
            Distinct-new nodes' c.root c.next (node a)
              (Distinct-one c.nodes nodes' c.root key (text_at nodes' (node a))
                (text_at-node nodes' a n here ∙ t) k (find-none c.nodes key c.root v.entries e))
              (Distinct-kept c.nodes nodes' c.root k v.distinct);
        slots = o;
        unused = λ b h. ground (arith, v.unused b (omega arith));
      }

  pub lookup-placed :
      (other : List ℕ)
      → lookup (placed c a next n) other ≡ (
          if same key other
          then some (record { slot = c.next; addr = a; found = n })
          else lookup c other)
  unfolding lookup placed
  lookup-placed other = ground (
    arith,
    find-new nodes' other c.root c.next (node a),
    find-fresh c.nodes a (some n) other c.root free v.entries,
    find_one nodes' other c.next a n (ground arith),
    ap (λ s. same s other) t,
    same→eq key other,
    missing,
  )
    where
      nodes' : ℕ → Option Node
      nodes' = update c.nodes a (some n)

      missing : key ≡ other → find c.nodes other c.root ≡ none
      missing p = ap (λ k. find c.nodes k c.root) (sym p) ∙ e

module _ (key : Str) (c : Context) (v : IsValid c) where
  pub IsValid-inserted :
      (n : Node)
      → find c.nodes (text key) c.root ≡ none
      → text n.path ≡ text key
      → IsNode n
      → IsValid (inserted c n)
  unfolding inserted
  IsValid-inserted n e t g =
      IsValid-placed (text key) c v (suc c.next) (suc (suc c.next))
        (v.unused (suc c.next) (omega arith)) n e t (omega arith)
        (Ascending-next _ 0 _ (Ascending-new c.next 0 c.root (node (suc c.next)) v.slots))
        (omega arith) g

  pub lookup-inserted :
      (n : Node) (other : List ℕ)
      → find c.nodes (text key) c.root ≡ none
      → text n.path ≡ text key
      → lookup (inserted c n) other ≡ (
          if same (text key) other
          then some (record { slot = c.next; addr = suc c.next; found = n })
          else lookup c other)
  unfolding inserted
  lookup-inserted n other e t =
      lookup-placed (text key) c v (suc c.next) (suc (suc c.next))
        (v.unused (suc c.next) (omega arith)) n e t other
