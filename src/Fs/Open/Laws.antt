-- ===== src/Fs/Open/Laws.antt =====
-- `MqttfsOpen`, `MqttfsOpendir` and `MqttfsGetattr` against the map of the tree.
use mqttfs.Base.{
  ℕ, List, Bool, true, false, Option, none, some, ◌≡◌, refl, arith, if◌then◌else◌, drop, length,
  ◌+◌,
}
use mqttfs.Str.{str_view}
use mqttfs.Str.Copy.{str_view-IsStr}
use mqttfs.Store.{
  Context, node, search, item_at, tfind, load_slot, load_node, load, Ret, ok, err, enoent, eisdir,
  enotdir,
}
use mqttfs.Store.Search.{
  Found, lookup, IsValid, IsFound, slot_of, search-find, find-IsFound, item_at-found,
}
use mqttfs.Fs.Make.Outcome.{path_text}
use mqttfs.Fs.Open.{Stat, mqttfs_open, mqttfs_opendir, mqttfs_getattr}

-- What is answered by what the tree has under the path: a handle to the node, if it is a directory
-- exactly where one is wanted.
abbrev pub open_answer : Bool → Option Found → Ret × Option ℕ
open_answer want_dir none = (err enoent, none)
open_answer true (some f) = if f.found.is_dir then (ok 0, some f.addr) else (err enotdir, none)
open_answer false (some f) = if f.found.is_dir then (err eisdir, none) else (ok 0, some f.addr)

abbrev pub stat_answer : Option Found → Ret × Option Stat
stat_answer none = (err enoent, none)
stat_answer (some f) = (
  ok 0,
  some (record {
    st_mode = if f.found.is_dir then 0o040000 + 0o755 else 0o100000 + 0o644;
    st_nlink = if f.found.is_dir then 2 else 1;
    st_size = if f.found.is_dir then 0 else length f.found.content;
    st_atim = f.found.atime;
    st_mtim = f.found.mtime;
  }),
)

module _ (path : List ℕ) (c : Context) (v : IsValid c) where
  searched :
      search c.nodes (str_view (drop 1 path)) c.root ≡ some (slot_of (lookup c (path_text path)))
  unfolding lookup
  searched =
      search-find c.nodes (str_view (drop 1 path)) c.root (str_view-IsStr (drop 1 path)) v.entries

  here : (f : Found) → lookup c (path_text path) ≡ some f → IsFound c.nodes (path_text path) f
  unfolding lookup
  here f e = find-IsFound c.nodes (path_text path) c.root f v.entries e

  holds :
      (f : Found) → lookup c (path_text path) ≡ some f → item_at f.slot c.root ≡ some (node f.addr)
  unfolding lookup
  holds f e = item_at-found c.nodes (path_text path) c.root f c.next 0 v.slots e v.entries

  open_by :
      (found : Option Found)
      → lookup c (path_text path) ≡ found
      → (mqttfs_open true path c ≡ some (open_answer false found, c))
        × (mqttfs_opendir true path c ≡ some (open_answer true found, c))
        × (mqttfs_getattr true path none c ≡ some (stat_answer found, c))
  unfolding mqttfs_open mqttfs_opendir mqttfs_getattr tfind load_slot load_node load
  open_by none e =
      (ground (arith, searched, e), ground (arith, searched, e), ground (arith, searched, e))
  open_by (some f) e = (
    ground (arith, searched, e, holds f e, (here f e).stored),
    ground (arith, searched, e, holds f e, (here f e).stored),
    ground (arith, searched, e, holds f e, (here f e).stored, (here f e).good.content_size),
  )

-- On a valid store, with the lock, a path without a handle is answered by what the tree has under
-- it: open gives a handle to a file and refuses a directory, opendir the other way round, getattr
-- gives type, permissions, links (two for a directory, one for a file), size (a file's count of
-- bytes, 0 for a directory), and the times of access and of modification, all three answer -ENOENT
-- where there is nothing, and none of them changes anything or uses freed memory.
pub open-lookup :
    (path : List ℕ) (c : Context)
    → IsValid c
    → (mqttfs_open true path c ≡ some (open_answer false (lookup c (path_text path)), c))
      × (mqttfs_opendir true path c ≡ some (open_answer true (lookup c (path_text path)), c))
      × (mqttfs_getattr true path none c ≡ some (stat_answer (lookup c (path_text path)), c))
open-lookup path c v = open_by path c v (lookup c (path_text path)) refl
