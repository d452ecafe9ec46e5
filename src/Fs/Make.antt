-- ===== src/Fs/Make.antt =====
-- mqttfs_mkdir.c and mqttfs_create.c.
pub mod Laws
pub mod Outcome
use mqttfs.Base.{ℕ, List, Bool, true, false, Option, none, some, not, if◌then◌else◌, drop}
use mqttfs.Str.{Str, str_view}
use mqttfs.Node.{Node, CreateAnswers, node_create}
use mqttfs.Store.{
  Item, node, Fs, pure, ◌>>=◌, ◌>>◌, allocate, tsearch, tdelete, load_slot, store_slot, is_view,
  Ret, ok, err, eio, eexist,
}

pub record MakeAnswers : Type 0 where
  pub locked : Bool
  pub tree_grown : Bool
  pub created : CreateAnswers

-- The key's place is given to the node, or the key is taken out again.
unfoldable pub fill_slot : Str → ℕ → Option Node → Fs (Ret × Option ℕ)
fill_slot key slot none = do tdelete key; pure (err eio, none)
fill_slot key slot (some n) = do a ← allocate n; store_slot slot (node a); pure (ok 0, some a)

unfoldable pub make_at : MakeAnswers → Bool → Str → Option ℕ → Fs (Ret × Option ℕ)
unfolding fill_slot
make_at a is_dir key none = pure (err eio, none)
make_at a is_dir key (some slot) = do
  item ← load_slot slot
  if not (is_view item)
      then pure (err eexist, none)
      else fill_slot key slot (node_create a.created key is_dir)

-- The common text of `MqttfsMkdir` and `MqttfsCreate`: the result, and the node that was made.
unfoldable pub make : MakeAnswers → Bool → List ℕ → Fs (Ret × Option ℕ)
unfolding make_at
make a is_dir path = if not a.locked then pure (err eio, none) else do
  let key = str_view (drop 1 path)
  slot ← tsearch a.tree_grown key
  make_at a is_dir key slot

unfoldable pub mqttfs_mkdir : MakeAnswers → List ℕ → Fs Ret
mqttfs_mkdir a path = do (result, n) ← make a true path; pure result

-- The second result is what `fi->fh` is set to.
unfoldable pub mqttfs_create : MakeAnswers → List ℕ → Fs (Ret × Option ℕ)
mqttfs_create a path = make a false path
