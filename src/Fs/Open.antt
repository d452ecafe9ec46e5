-- ===== src/Fs/Open.antt =====
-- mqttfs_open.c, mqttfs_opendir.c and mqttfs_getattr.c.
pub mod Laws
use mqttfs.Base.{ℕ, List, Bool, true, false, Option, none, some, not, if◌then◌else◌, drop}
use mqttfs.Str.{str_view}
use mqttfs.Node.{Timespec, Node}
use mqttfs.Store.{
  Fs, pure, ◌>>=◌, load, tfind, load_slot, load_node, Ret, ok, err, eio, enoent, eisdir, enotdir,
}

-- `*nodep`, a pointer to a node.
unfoldable pub node_in : ℕ → Fs ℕ
node_in slot = do item ← load_slot slot; load_node item

unfoldable pub open_found : Bool → Option ℕ → Fs (Ret × Option ℕ)
unfolding node_in
open_found want_dir none = pure (err enoent, none)
open_found want_dir (some slot) = do
  a ← node_in slot
  n ← load a
  if want_dir
      then (if not n.is_dir then pure (err enotdir, none) else pure (ok 0, some a))
      else (if n.is_dir then pure (err eisdir, none) else pure (ok 0, some a))

unfoldable pub mqttfs_open : Bool → List ℕ → Fs (Ret × Option ℕ)
unfolding open_found
mqttfs_open locked path =
    if not locked
    then pure (err eio, none)
    else do slot ← tfind (str_view (drop 1 path)); open_found false slot

unfoldable pub mqttfs_opendir : Bool → List ℕ → Fs (Ret × Option ℕ)
unfolding open_found
mqttfs_opendir locked path =
    if not locked
    then pure (err eio, none)
    else do slot ← tfind (str_view (drop 1 path)); open_found true slot

-- The fields of `struct stat` that are set; `S_IFDIR` and `S_IFREG` with the permissions.
pub record Stat : Type 0 where
  pub st_mode : ℕ
  pub st_nlink : ℕ
  pub st_size : ℕ
  pub st_atim : Timespec
  pub st_mtim : Timespec

abbrev pub dir_mode : ℕ
dir_mode = 0o40755

abbrev pub file_mode : ℕ
file_mode = 0o100644

abbrev pub stat_of : Node → Stat
stat_of n =
    if n.is_dir
    then record {
      st_mode = dir_mode;
      st_nlink = 2;
      st_size = 0;
      st_atim = n.atime;
      st_mtim = n.mtime;
    }
    else record {
      st_mode = file_mode;
      st_nlink = 1;
      st_size = n.size;
      st_atim = n.atime;
      st_mtim = n.mtime;
    }

-- The node of a handle, or that of the path where there is no handle.
unfoldable pub target : List ℕ → Option ℕ → Fs (Option ℕ)
unfolding node_in
target path (some fh) = pure (some fh)
target path none = do
  found ← tfind (str_view (drop 1 path))
  elim found [ none ↦ pure none | some slot ↦ do a ← node_in slot; pure (some a) ]

unfoldable pub stat_target : Option ℕ → Fs (Ret × Option Stat)
stat_target none = pure (err enoent, none)
stat_target (some a) = do n ← load a; pure (ok 0, some (stat_of n))

unfoldable pub mqttfs_getattr : Bool → List ℕ → Option ℕ → Fs (Ret × Option Stat)
unfolding target stat_target
mqttfs_getattr locked path fi =
    if not locked then pure (err eio, none) else do found ← target path fi; stat_target found
