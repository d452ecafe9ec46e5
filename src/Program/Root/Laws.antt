-- ===== src/Program/Root/Laws.antt =====
-- `CreateRootNode` of main.c.
use mqttfs.Base.{
  ℕ, List, [], ◌∷◌, Bool, true, false, Option, none, some, if◌then◌else◌, ◌≡◌, refl, sym, ap, ◌∙◌,
  arith, ◌||◌, ◌==◌, All,
}
use mathlib.Core.Path.{subst}
use mqttfs.Str.{text, str_view, copied}
use mqttfs.Str.Copy.{str_view-IsStr, text-copied}
use mqttfs.Node.{Node, CreateAnswers, node_create}
use mqttfs.Node.Update.{IsNode, node_create_lem, fresh_node-IsNode}
use mqttfs.Store.{Context, Item, view, node, allocate, node_destroy, update}
use mqttfs.Store.Memory.{Avoids-IsKept, Avoids-of_Lacks}
use mqttfs.Store.Frame.{IsKept, Lacks, entries-kept, Distinct-kept}
use mqttfs.Store.Search.{IsEntry, Distinct, text_at-node, lookup, find, same, IsValid, entry}
use mqttfs.Program.Root.{no_context, plant_root, create_root_node, tdestroy, destroy_nodes}

abbrev pub rooted : Node → Context
rooted n = record no_context {
  nodes = update no_context.nodes 0 (some n);
  next = 2;
  root = (1, node 0) ∷ [];
}

rooted-IsValid : (n : Node) → IsNode n → IsValid (rooted n)
rooted-IsValid n g = record {
  entries = (entry 1 0 n refl g, tt);
  distinct = (tt, tt);
  slots = omega arith;
  unused = λ a h. ground arith;
}

-- By what `NodeCreate` and `tsearch` gave.
abbrev pub RootOutcome : CreateAnswers → Bool → Option Node → Bool → Context → Type 0
RootOutcome created allocated none r c = (r ≡ false) × ((a : ℕ) → c.nodes a ≡ none)
RootOutcome created false (some n) r c = (r ≡ false) × ((a : ℕ) → c.nodes a ≡ none)
RootOutcome created true (some n) r c =
    (r ≡ true)
    × IsValid c
    × (n.is_dir ≡ true)
    × ((key : List ℕ)
        → lookup c key
          ≡ (if same [] key then some (record { slot = 1; addr = 0; found = n }) else none))

root_lookup :
    (n : Node) (key : List ℕ)
    → text n.path ≡ []
    → lookup (rooted n) key
      ≡ (if same [] key then some (record { slot = 1; addr = 0; found = n }) else none)
unfolding lookup find
root_lookup n key e = ground (arith, ap (λ t. same t key) e)

no_text : text (str_view []) ≡ []
unfolding str_view
no_text = refl

planted :
    (created : CreateAnswers) (allocated : Bool) (o : Option Node)
    → node_create created (str_view []) true ≡ o
    → (r : Bool) × (c : Context) × (plant_root allocated o no_context ≡ some (r, c))
      × RootOutcome created allocated o r c
unfolding plant_root allocate node_destroy
planted created allocated none e = (false, no_context, refl, (refl, λ a. refl))
planted created false (some n) e = (
  false,
  record no_context { nodes = update (update no_context.nodes 0 (some n)) 0 none; next = 1 },
  refl,
  (refl, λ a. ground arith),
)
planted created true (some n) e =
    let (now, clock, same_node) = node_create_lem created (str_view []) true n e in
    let good : IsNode n =
      subst IsNode (sym same_node) (fresh_node-IsNode now true (str_view []) (str_view-IsStr [])) in
    (
      true,
      rooted n,
      refl,
      (
        refl,
        rooted-IsValid n good,
        ap (λ x. x.is_dir) same_node,
        λ key. root_lookup n key (ap (λ x. text x.path) same_node ∙ empty_path),
      ),
    )
  where
    empty_path : text (copied (str_view [])) ≡ []
    empty_path = text-copied (str_view []) (str_view-IsStr []) ∙ no_text

-- A root is created exactly if the system grants what is asked of it. Then the store is valid and the
-- empty path, and no other, leads to a directory; otherwise no node is left.
pub create_root_node_lem :
    (created : CreateAnswers) (allocated : Bool)
    → (r : Bool) × (c : Context) × (create_root_node created allocated no_context ≡ some (r, c))
      × RootOutcome created allocated (node_create created (str_view []) true) r c
unfolding create_root_node
create_root_node_lem created allocated = planted created allocated _ refl

-- Some element points to the node.
abbrev pub points_to : ℕ → List (ℕ × Item) → Bool
points_to a [] = false
points_to a ((slot, view s) ∷ rest) = points_to a rest
points_to a ((slot, node b) ∷ rest) = b == a || points_to a rest

abbrev freed : (ℕ → Option Node) → List (ℕ × Item) → ℕ → Option Node
freed nodes [] = nodes
freed nodes ((slot, view s) ∷ rest) = freed nodes rest
freed nodes ((slot, node a) ∷ rest) = freed (update nodes a none) rest

freed-points_to :
    (nodes : ℕ → Option Node) (root : List (ℕ × Item)) (a : ℕ)
    → freed nodes root a ≡ (if points_to a root then none else nodes a)
freed-points_to nodes [] a = refl
freed-points_to nodes ((slot, view s) ∷ rest) a = freed-points_to nodes rest a
freed-points_to nodes ((slot, node b) ∷ rest) a =
    ground (arith, freed-points_to (update nodes b none) rest a)

destroy_run :
    (root : List (ℕ × Item)) (c : Context)
    → All (IsEntry c.nodes) root
    → Distinct c.nodes root
    → destroy_nodes root c ≡ some (tt, record c { nodes = freed c.nodes root })
unfolding destroy_nodes node_destroy
destroy_run [] c es d = refl
destroy_run (x ∷ rest) c (entry slot a n e g, es) (dx, d) = ground (
  arith,
  e,
  destroy_run rest (record c { nodes = update c.nodes a none }) (entries-kept c.nodes _ rest k)
      (Distinct-kept c.nodes _ rest k d),
)
  where
    k : All (IsKept c.nodes (update c.nodes a none)) rest
    k = Avoids-IsKept c.nodes a none rest es (
        Avoids-of_Lacks c.nodes a n rest e es
          (subst (λ t. Lacks c.nodes t rest) (text_at-node c.nodes a n e) dx))

-- The cleaning up at the end of `main`, on a valid store, frees every node of the tree once, no node
-- that it does not hold, and leaves no tree.
pub tdestroy_lem :
    (c : Context)
    → IsValid c
    → (c' : Context) × (tdestroy c ≡ some (tt, c'))
      × (c'.root ≡ [])
      × ((a : ℕ) → c'.nodes a ≡ (if points_to a c.root then none else c.nodes a))
unfolding tdestroy
tdestroy_lem c v = (
  record c { nodes = freed c.nodes c.root; root = [] },
  ground (arith, destroy_run c.root c v.entries v.distinct),
  refl,
  freed-points_to c.nodes c.root,
)
