-- ===== src/Program/Message.antt =====
-- `OnMqttMessage` of main.c: what a message from the broker does to the tree.
pub mod Keeping
pub mod Loop
pub mod Chain
pub mod Laws
pub mod Outcome
pub mod Crash
use mqttfs.Base.{
  ℕ, zero, suc, List, [], ◌∷◌, ◌++◌, Bool, true, false, Option, none, some, not, if◌then◌else◌,
  ◌==◌,
}
use mqttfs.Str.{Str, str_base_path}
use mqttfs.Node.{Node, CreateAnswers, UpdateAnswers, node_create, node_update}
use mqttfs.Store.{
  Item, node, Fs, pure, fault, or_fault, ◌>>=◌, ◌>>◌, load, store, allocate, node_destroy, tfind,
  tsearch, tdelete, load_slot, store_slot, load_node, is_view,
}
use mqttfs.Fs.Open.{node_in}

-- The answers to one call: 0 stands for the topic, the numbers after it for its parents, from the
-- longest on.
pub record MessageAnswers : Type 0 where
  pub locked : Bool
  pub tree_grown : ℕ → Bool
  pub created : ℕ → CreateAnswers
  pub updated : UpdateAnswers

-- `NodeUpdate` in place, with its result.
unfoldable pub update_node : MessageAnswers → ℕ → List ℕ → ℕ → Fs Bool
update_node a addr payload payload_len = do
  n ← load addr
  let (done, n', calls) = node_update a.updated n payload payload_len
  store addr n'
  λ c. some (done, record c { calls = c.calls ++ calls })

unfoldable pub update_existing : MessageAnswers → Item → List ℕ → ℕ → Fs (Unit {0})
unfolding update_node
update_existing a item payload payload_len = do
  addr ← load_node item
  n ← load addr
  if n.is_dir then pure tt else do done ← update_node a addr payload payload_len; pure tt

-- How the loop over the parents ends: the full base path is there, or it must be undone down to, and
-- without, a path. `stuck` is no outcome of the source: the fuel ran out.
pub data Parents : Type 0 where
  complete : Parents
  undo : Str → Parents
  stuck : Parents

-- `tdelete` with a null pointer for the comparison function, which is called for any element.
unfoldable pub tdelete_null : Fs (Unit {0})
tdelete_null c = elim c.root [ [] ↦ some (tt, c) | e ∷ rest ↦ none ]

-- The first existing parent ends the loop, if it is a directory.
unfoldable pub check_parent : Str → Item → Fs Parents
check_parent base_path item = do
  addr ← load_node item
  parent ← load addr
  if not parent.is_dir then pure (undo base_path) else pure complete

unfoldable pub ensure_parents : MessageAnswers → ℕ → ℕ → Str → Fs Parents
unfolding check_parent
ensure_parents a zero i base_path = pure stuck
ensure_parents a (suc fuel) i base_path = if base_path.size == 0 then pure complete else do
  found ← tsearch (a.tree_grown i) base_path
  elim found [
    | none ↦ pure (undo base_path)
    | some slot ↦ do
      item ← load_slot slot
      if not (is_view item)
          then check_parent base_path item
          else elim (node_create (a.created i) base_path true) [
            | none ↦ do tdelete base_path; pure (undo base_path)
            | some parent ↦ do
              addr ← allocate parent
              store_slot slot (node addr)
              ensure_parents a fuel (suc i) (str_base_path base_path)
          ]
  ]

-- Each node is freed before its element is deleted.
unfoldable pub undo_parents : ℕ → Str → Str → Fs (Unit {0})
unfolding node_in
undo_parents zero rollback_path base_path = fault
undo_parents (suc fuel) rollback_path base_path =
    if rollback_path.size == base_path.size then pure tt else do
      found ← tfind rollback_path
      slot ← or_fault found
      addr ← node_in slot
      node_destroy addr
      tdelete rollback_path
      undo_parents fuel (str_base_path rollback_path) base_path

unfoldable pub finish_parents : ℕ → Str → Parents → Fs (Unit {0})
unfolding undo_parents tdelete_null
finish_parents addr topic complete = pure tt
finish_parents addr topic (undo base_path) = do
  undo_parents (suc topic.size) (str_base_path topic) base_path
  node_destroy addr
  tdelete_null
finish_parents addr topic stuck = fault

unfoldable pub add_node : MessageAnswers → Str → List ℕ → ℕ → ℕ → Option Node → Fs (Unit {0})
unfolding update_node ensure_parents finish_parents tdelete_null
add_node a topic payload payload_len slot none = tdelete_null
add_node a topic payload payload_len slot (some n) = do
  addr ← allocate n
  done ← update_node a addr payload payload_len
  if not done then (do node_destroy addr; tdelete_null) else do
    store_slot slot (node addr)
    ended ← ensure_parents a (suc topic.size) 1 (str_base_path topic)
    finish_parents addr topic ended

unfoldable pub on_topic : MessageAnswers → Str → List ℕ → ℕ → Option ℕ → Fs (Unit {0})
unfolding update_existing add_node
on_topic a topic payload payload_len none = pure tt
on_topic a topic payload payload_len (some slot) = do
  item ← load_slot slot
  if not (is_view item)
      then update_existing a item payload payload_len
      else add_node a topic payload payload_len slot (node_create (a.created 0) topic false)

unfoldable pub on_mqtt_message : MessageAnswers → Str → List ℕ → ℕ → Fs (Unit {0})
unfolding on_topic
on_mqtt_message a topic payload payload_len =
    if not a.locked
    then pure tt
    else do slot ← tsearch (a.tree_grown 0) topic; on_topic a topic payload payload_len slot
