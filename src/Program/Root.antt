-- ===== src/Program/Root.antt =====
-- `CreateRootNode` of main.c, and the cleaning up at the end of `main`.
pub mod Laws
use mqttfs.Base.{
  ℕ, zero, suc, List, [], ◌∷◌, ◌++◌, Bool, true, false, Option, none, some, not, if◌then◌else◌,
}
use mqttfs.Str.{str_view}
use mqttfs.Node.{Node, CreateAnswers, node_create}
use mqttfs.Store.{Context, Item, view, node, Fs, pure, fault, ◌>>=◌, ◌>>◌, allocate, node_destroy}

-- `main` starts with no tree, no node and no client.
abbrev pub no_context : Context
no_context = record { nodes = λ a. none; next = 0; root = []; mqtt = none; calls = [] }

-- `tsearch` of a node in an empty tree: the node itself is the element.
unfoldable pub plant : Bool → ℕ → Fs Bool
plant allocated addr c =
    if allocated
    then some (true, record c { next = suc c.next; root = (c.next, node addr) ∷ [] })
    else some (false, c)

unfoldable pub plant_root : Bool → Option Node → Fs Bool
unfolding plant
plant_root allocated none = pure false
plant_root allocated (some n) = do
  addr ← allocate n
  grown ← plant allocated addr
  if grown then pure true else do node_destroy addr; pure false

-- The result says whether there is a root.
unfoldable pub create_root_node : CreateAnswers → Bool → Fs Bool
unfolding plant_root
create_root_node created allocated = plant_root allocated (node_create created (str_view []) true)

-- `tdestroy(root, NodeDestroyWrapper)`: each element's node is freed.
unfoldable pub destroy_nodes : List (ℕ × Item) → Fs (Unit {0})
destroy_nodes [] = pure tt
destroy_nodes ((slot, view s) ∷ rest) = fault
destroy_nodes ((slot, node a) ∷ rest) = do node_destroy a; destroy_nodes rest

unfoldable pub tdestroy : Fs (Unit {0})
tdestroy c = (do destroy_nodes c.root; λ c'. some (tt, record c' { root = [] })) c
