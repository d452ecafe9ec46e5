-- ===== src/Fs/Rename.antt =====
-- mqttfs_rename.c.
pub mod Announce
pub mod Move
pub mod Laws
pub mod Swap
pub mod Exchange
pub mod Replace
use mqttfs.Base.{ℕ, List, Bool, true, false, Option, none, some, not, if◌then◌else◌, drop, ◌==◌}
use mqttfs.Str.{Str, str_view, str_copy}
use mqttfs.Node.{Node}
use mqttfs.Queue.{PublishAnswers}
use mqttfs.Store.{
  Item, node, Fs, pure, fault, ◌>>=◌, ◌>>◌, load, store, node_destroy, tfind, tsearch, tdelete,
  load_slot, store_slot, is_view, Ret, negative, ok, err, eio, enoent, eexist, eisdir, enotdir,
  einval,
}
use mqttfs.Fs.Open.{node_in}
use mqttfs.Fs.Data.{publish}
use mqttfs.Fs.Remove.{cancel}

-- The answers to one call. `relocate` is what `tdelete` does with the places of the elements that
-- stay: no document promises that a pointer to one of them still leads to it.
pub record RenameAnswers : Type 0 where
  pub locked : Bool
  pub tree_grown : Bool
  pub path_copied : Bool
  pub published : PublishAnswers
  pub queue_locked : Bool
  pub queue_locked_again : Bool
  pub relocate : List (ℕ × Item) → List (ℕ × Item)

-- The payload is published under the new topic, and what is queued for the old one is cancelled. A
-- directory has no payload.
unfoldable pub announce : RenameAnswers → Node → Str → Fs Bool
unfolding publish cancel
announce a from_node topic = if from_node.is_dir then pure true else do
  done ← publish a.published topic from_node.content from_node.size
  if not done then pure false else do cancel a.queue_locked from_node.path; pure true

-- Names are exchanged first, the nodes afterwards.
unfoldable pub exchange_names : ℕ → ℕ → ℕ → ℕ → Node → Node → Fs (Unit {0})
exchange_names from_slot to_slot from_addr to_addr from_node to_node = do
  store from_addr (record from_node { path = to_node.path })
  store to_addr (record to_node { path = from_node.path })
  store_slot from_slot (node to_addr)
  store_slot to_slot (node from_addr)

-- A null `to_nodep` is used as it is.
unfoldable pub rename_exchange : RenameAnswers → ℕ → Option ℕ → Fs Ret
unfolding node_in announce exchange_names
rename_exchange a from_slot none = fault
rename_exchange a from_slot (some to_slot) = do
  from_addr ← node_in from_slot
  to_addr ← node_in to_slot
  from_node ← load from_addr
  to_node ← load to_addr
  if from_node.is_dir
      then (if to_node.is_dir
          then (do
            exchange_names from_slot to_slot from_addr to_addr from_node to_node
            pure (ok 0))
          else pure (err enotdir))
      else (if to_node.is_dir then pure (err eisdir) else do
        done ← announce a from_node to_node.path
        if not done then pure (err eio) else do
          exchange_names from_slot to_slot from_addr to_addr from_node to_node
          pure (ok 0))

-- `tdelete`, with what it does to the places of the others.
unfoldable pub tdelete_moving : (List (ℕ × Item) → List (ℕ × Item)) → Str → Fs (Unit {0})
unfolding tdelete
tdelete_moving relocate key = do tdelete key; λ c. some (tt, record c { root = relocate c.root })

-- The node is removed, gets its new path, and is put back.
unfoldable pub put_back : RenameAnswers → ℕ → Str → ℕ → Node → Fs Ret
unfolding tdelete_moving
put_back a to_slot to_copy from_addr from_node = do
  tdelete_moving a.relocate from_node.path
  store from_addr (record from_node { path = to_copy })
  store_slot to_slot (node from_addr)
  pure (ok 0)

unfoldable pub move_node : RenameAnswers → ℕ → ℕ → Str → Option Str → Fs Ret
unfolding node_in announce put_back
move_node a from_slot to_slot to_view none = do tdelete to_view; pure (err eio)
move_node a from_slot to_slot to_view (some to_copy) = do
  from_addr ← node_in from_slot
  from_node ← load from_addr
  done ← announce a from_node to_view
  if not done
      then (do tdelete to_view; pure (err eio))
      else put_back a to_slot to_copy from_addr from_node

unfoldable pub rename_noreplace : RenameAnswers → ℕ → Option ℕ → Str → Fs Ret
unfolding move_node
rename_noreplace a from_slot none to_view = pure (err eio)
rename_noreplace a from_slot (some to_slot) to_view = do
  item ← load_slot to_slot
  if not (is_view item)
      then pure (err eexist)
      else move_node a from_slot to_slot to_view (str_copy a.path_copied to_view)

-- What is left of the target, which stands in the place of the source now, is cleaned up.
unfoldable pub drop_target : RenameAnswers → ℕ → Ret → Fs Ret
unfolding node_in cancel
drop_target a from_slot (err e) = pure (err e)
drop_target a from_slot (negative n) = pure (negative n)
drop_target a from_slot (ok n) = do
  from_addr ← node_in from_slot
  from_node ← load from_addr
  tdelete from_node.path
  cancel a.queue_locked_again from_node.path
  node_destroy from_addr
  pure (ok 0)

unfoldable pub rename_normal : RenameAnswers → ℕ → Option ℕ → Str → Fs Ret
unfolding rename_noreplace rename_exchange drop_target
rename_normal a from_slot none to_view = pure (err eio)
rename_normal a from_slot (some to_slot) to_view = do
  item ← load_slot to_slot
  if is_view item
      then rename_noreplace a from_slot (some to_slot) to_view
      else (do result ← rename_exchange a from_slot (some to_slot); drop_target a from_slot result)

abbrev pub noreplace_flag : ℕ
noreplace_flag = 1

abbrev pub exchange_flag : ℕ
exchange_flag = 2

unfoldable pub rename_found : RenameAnswers → Str → ℕ → Option ℕ → Fs Ret
unfolding rename_normal rename_exchange rename_noreplace
rename_found a to_view flags none = pure (err enoent)
rename_found a to_view flags (some from_slot) =
    if flags == 0
    then (do to_slot ← tsearch a.tree_grown to_view; rename_normal a from_slot to_slot to_view)
    else if flags == exchange_flag
    then (do to_slot ← tfind to_view; rename_exchange a from_slot to_slot)
    else if flags == noreplace_flag
    then (do to_slot ← tsearch a.tree_grown to_view; rename_noreplace a from_slot to_slot to_view)
    else pure (err einval)

unfoldable pub mqttfs_rename : RenameAnswers → List ℕ → List ℕ → ℕ → Fs Ret
unfolding rename_found
mqttfs_rename a from to flags = if not a.locked then pure (err eio) else do
  from_slot ← tfind (str_view (drop 1 from))
  rename_found a (str_view (drop 1 to)) flags from_slot
