-- ===== src/Fs/Remove.antt =====
-- mqttfs_unlink.c, which also removes directories, and mqttfs_readdir.c.
pub mod Laws
use mqttfs.Base.{
  ℕ, List, [], ◌∷◌, ◌++◌, Bool, Option, none, some, not, if◌then◌else◌, drop, take, ◌==◌,
}
use mqttfs.Str.{Str, str_view, str_base_path, str_file_name, str_compare, strlen}
use mqttfs.Node.{Timespec, Node}
use mqttfs.Queue.{mqtt_cancel, is_equal}
use mqttfs.Store.{
  Item, view, node, Fs, pure, ◌>>=◌, ◌>>◌, or_fault, load, store, node_destroy, tfind, tdelete, Ret,
  ok, err, eio, enoent,
}
use mqttfs.Fs.Open.{node_in}

-- `MqttCancel` through `context->mqtt`, which faults if the client was never created.
unfoldable pub cancel : Bool → Str → Fs Unit
cancel locked topic c = elim c.mqtt [
  | none ↦ none
  | some m ↦ elim (mqtt_cancel locked topic m) [
    | none ↦ none
    | some m' ↦ some (tt, record c { mqtt = some m' })
  ]
]

unfoldable pub unlink_found : Bool → Str → Option ℕ → Fs Ret
unfolding node_in cancel
unlink_found queue_locked key none = pure (err enoent)
unlink_found queue_locked key (some slot) = do
  a ← node_in slot
  tdelete key
  n ← load a
  cancel queue_locked n.path
  node_destroy a
  pure (ok 0)

-- The second answer is that of the mutex of the message queue.
unfoldable pub mqttfs_unlink : Bool → Bool → List ℕ → Fs Ret
unfolding unlink_found
mqttfs_unlink locked queue_locked path =
    if not locked
    then pure (err eio)
    else do let key = str_view (drop 1 path); slot ← tfind key; unlink_found queue_locked key slot

-- The C string at a pointer.
abbrev pub c_string : List ℕ → List ℕ
c_string s = take (strlen s) s

-- `OnReaddir`: the names that it gives to the filler for one element.
unfoldable pub on_readdir : Str → Node → List (List ℕ)
on_readdir parent n =
    if n.path.size == 0
    then []
    else if is_equal (str_compare parent (str_base_path n.path))
    then c_string (str_file_name n.path) ∷ []
    else []

-- `twalk`, which passes every element once. POSIX leaves the order open; here it is that of `root`.
unfoldable pub walk : (ℕ → Option Node) → Str → List (ℕ × Item) → Option (List (List ℕ))
unfolding on_readdir
walk nodes parent [] = some []
walk nodes parent ((slot, view s) ∷ rest) = none
walk nodes parent ((slot, node a) ∷ rest) =
    let further = walk nodes parent rest in
    elim (nodes a) [
      | none ↦ none
      | some n ↦ elim further [ none ↦ none | some names ↦ some (on_readdir parent n ++ names) ]
    ]

unfoldable pub readdir_node : Timespec → ℕ → Fs (Ret × List (List ℕ))
unfolding walk
readdir_node now fh c =
    (do
      n ← load fh
      names ← or_fault (walk c.nodes n.path c.root)
      store fh (record n { atime = now })
      pure (ok 0, (b'.' ∷ []) ∷ (b'.' ∷ b'.' ∷ []) ∷ names))
      c

-- The second result is what the filler was given.
unfoldable pub mqttfs_readdir : Option Timespec → Bool → ℕ → Fs (Ret × List (List ℕ))
unfolding readdir_node
mqttfs_readdir clock locked fh = elim clock [
  | none ↦ pure (err eio, [])
  | some now ↦ if not locked then pure (err eio, []) else readdir_node now fh
]
