-- ===== src/Store.antt =====
-- The state that the FUSE operations share: the `struct Context` of mqttfs.h, the memory of the
-- nodes, and the tree of <search.h> that `root_node` points to.
pub mod Search
pub mod Edit
pub mod Frame
pub mod Memory
pub mod Replace
pub mod Insert
pub mod Behind
pub mod Linked
pub mod Swap
pub mod Exchange
use mqttfs.Base.{
  ℕ, zero, suc, ◌+◌, List, [], ◌∷◌, ◌++◌, Bool, true, false, Option, none, some, ◌==◌,
  if◌then◌else◌,
}
use mqttfs.Str.{Str}
use mqttfs.Node.{Node, FuseCall, node_compare}
use mqttfs.Queue.{Mqtt, is_equal}
use mathlib.Core.Option

-- What an element of the tree points to: a node, or the bare path of a caller, which stands there
-- from `tsearch` until the caller puts a node in its place.
pub data Item : Type 0 where
  view : Str → Item
  node : ℕ → Item

-- `nodes` is the memory by addresses; `next` is unused so far, as an address and as a slot. `root`
-- lists the elements of the tree with the slots that hold them; the shape of the tree is left open,
-- as POSIX leaves it. `calls` are the calls on poll handles, the latest last.
pub record Context : Type 0 where
  pub nodes : ℕ → Option Node
  pub next : ℕ
  pub root : List (ℕ × Item)
  pub mqtt : Option Mqtt
  pub calls : List FuseCall

-- An operation on the state. `none` is a fault: a null pointer or freed memory was used.
abbrev pub Fs : Type 0 → Type 0
Fs A = Context → Option (A × Context)

abbrev pub pure : {A : Type 0} → A → Fs A
pure a c = some (a, c)

infixl 5 ◌>>=◌ ◌>>◌
abbrev pub ◌>>=◌ : {A B : Type 0} → Fs A → (A → Fs B) → Fs B
◌>>=◌ m f c = elim (m c) [ none ↦ none | some (a, c') ↦ f a c' ]

abbrev pub ◌>>◌ : {B : Type 0} → Fs (Unit {0}) → Fs B → Fs B
m >> k = m >>= λ _. k

abbrev pub fault : {A : Type 0} → Fs A
fault c = none

abbrev pub or_fault : {A : Type 0} → Option A → Fs A
or_fault none c = none
or_fault (some a) c = some (a, c)

abbrev pub update : (ℕ → Option Node) → ℕ → Option Node → ℕ → Option Node
update nodes a o b = if a == b then o else nodes b

unfoldable pub load : ℕ → Fs Node
load a c = or_fault (c.nodes a) c

-- A write through a pointer to a node.
unfoldable pub store : ℕ → Node → Fs Unit
store a n c = Option.map (λ _. (tt, record c { nodes = update c.nodes a (some n) })) (c.nodes a)

-- `calloc` for a node that is filled in.
unfoldable pub allocate : Node → Fs ℕ
allocate n c = some (c.next, record c { nodes = update c.nodes c.next (some n); next = suc c.next })

-- `NodeDestroy`: a second call on one node is a fault.
unfoldable pub node_destroy : ℕ → Fs Unit
node_destroy a c = Option.map (λ _. (tt, record c { nodes = update c.nodes a none })) (c.nodes a)

-- The path that `NodeCompare` reads through an element of the tree.
unfoldable pub path_of : (ℕ → Option Node) → Item → Option Str
path_of nodes (view s) = some s
path_of nodes (node a) = Option.map (λ n. n.path) (nodes a)

-- The slot of the element that compares equal to the key; the outer `none` is a fault.
unfoldable pub search : (ℕ → Option Node) → Str → List (ℕ × Item) → Option (Option ℕ)
unfolding path_of
search nodes key [] = some none
search nodes key ((slot, item) ∷ rest) =
    let further = search nodes key rest in
    elim (path_of nodes item) [
      | none ↦ none
      | some path ↦ if is_equal (node_compare key path) then some (some slot) else further
    ]

unfoldable pub tfind : Str → Fs (Option ℕ)
tfind key c = or_fault (search c.nodes key c.root) c

-- Adds the key where it is missing, in a slot of its own; `allocated` is the answer of `malloc`.
unfoldable pub tsearch : Bool → Str → Fs (Option ℕ)
tsearch allocated key c = elim (search c.nodes key c.root) [
  | none ↦ none
  | some (some slot) ↦ some (some slot, c)
  | some none ↦
      if allocated
      then some
          (some c.next, record c { next = suc c.next; root = c.root ++ (c.next, view key) ∷ [] })
      else some (none, c)
]

unfoldable pub without : ℕ → List (ℕ × Item) → List (ℕ × Item)
without slot [] = []
without slot ((s, item) ∷ rest) = if s == slot then rest else (s, item) ∷ without slot rest

-- A key that is not in the tree is no fault.
abbrev pub remove_slot : Option ℕ → Fs Unit
remove_slot none c = some (tt, c)
remove_slot (some slot) c = some (tt, record c { root = without slot c.root })

unfoldable pub tdelete : Str → Fs Unit
unfolding tfind without
tdelete key = do slot ← tfind key; remove_slot slot

unfoldable pub item_at : ℕ → List (ℕ × Item) → Option Item
item_at slot [] = none
item_at slot ((s, item) ∷ rest) = if s == slot then some item else item_at slot rest

unfoldable pub put_at : ℕ → Item → List (ℕ × Item) → List (ℕ × Item)
put_at slot new [] = []
put_at slot new ((s, item) ∷ rest) =
    if s == slot then (s, new) ∷ rest else (s, item) ∷ put_at slot new rest

-- `*nodep` as a value, and `*nodep = …`. An element that is gone cannot be written either.
unfoldable pub load_slot : ℕ → Fs Item
unfolding item_at
load_slot slot c = or_fault (item_at slot c.root) c

unfoldable pub store_slot : ℕ → Item → Fs Unit
unfolding put_at item_at
store_slot slot new c =
    Option.map (λ _. (tt, record c { root = put_at slot new c.root })) (item_at slot c.root)

-- `*nodep` as a pointer to a node.
unfoldable pub load_node : Item → Fs ℕ
load_node (node a) = pure a
load_node (view s) = fault

-- `*nodep == &path_view`: the key was not in the tree before.
abbrev pub is_view : Item → Bool
is_view (view s) = true
is_view (node a) = false

-- What the operations return: a count, 0 for a plain success, or an error.
pub data Errno : Type 0 where
  eio enoent eexist eisdir enotdir einval : Errno

-- `negative` is for a count that the conversion to `int` makes negative.
pub data Ret : Type 0 where
  ok : ℕ → Ret
  err : Errno → Ret
  negative : ℕ → Ret
