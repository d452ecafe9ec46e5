-- ===== src/Node.antt =====
-- node.c, node.h: one entry of the file tree. The answers of the clock, of `malloc` and of FUSE are
-- arguments.
pub mod Update
use mqttfs.Base.{
  ℕ, zero, suc, List, [], ◌∷◌, ◌++◌, Bool, true, false, Option, none, some, Ordering, ◌==◌,
  if◌then◌else◌, take,
}
use mqttfs.Str.{Str, str_copy, str_compare}
use mathlib.Core.Option

pub record Timespec : Type 0 where
  pub tv_sec : ℕ
  pub tv_nsec : ℕ

-- `content` is the block that the pointer `data` owns; a null pointer is the empty block.
pub record Node : Type 0 where
  pub path : Str
  pub atime : Timespec
  pub mtime : Timespec
  pub content : List ℕ
  pub size : ℕ
  pub is_dir : Bool
  pub was_updated : Bool
  pub ph : Option ℕ

-- The calls of the FUSE library that act on a poll handle.
pub data FuseCall : Type 0 where
  notify_poll pollhandle_destroy : ℕ → FuseCall

-- The answers to one call of `NodeCreate`.
pub record CreateAnswers : Type 0 where
  pub clock : Option Timespec
  pub allocated : Bool
  pub path_copied : Bool

abbrev pub fresh_node : Timespec → Bool → Str → Node
fresh_node now is_dir path = record {
  path = path;
  atime = now;
  mtime = now;
  content = [];
  size = 0;
  is_dir = is_dir;
  was_updated = false;
  ph = none;
}

unfoldable pub node_create : CreateAnswers → Str → Bool → Option Node
node_create a path is_dir = elim a.clock [
  | none ↦ none
  | some now ↦
      if a.allocated then Option.map (fresh_node now is_dir) (str_copy a.path_copied path) else none
]

-- The answers to one call of `NodeUpdate`; `notified` is 0 if `fuse_notify_poll` succeeds.
pub record UpdateAnswers : Type 0 where
  pub clock : Option Timespec
  pub allocated : Bool
  pub notified : ℕ

abbrev pub with_data : Timespec → List ℕ → ℕ → Node → Node
with_data now bytes size node = record node { mtime = now; content = take size bytes; size = size }

-- The blocked poll, if there is one, is woken first; if that fails nothing is changed.
unfoldable pub update_polled :
    UpdateAnswers → Timespec → List ℕ → ℕ → Node → Option ℕ → Bool × Node × List FuseCall
update_polled a now bytes size node none = (true, with_data now bytes size node, [])
update_polled a now bytes size node (some ph) =
    if a.notified == 0
    then (
      true,
      with_data now bytes size (record node { was_updated = true; ph = none }),
      notify_poll ph ∷ pollhandle_destroy ph ∷ [],
    )
    else (false, node, notify_poll ph ∷ [])

-- The result, the node, and the calls that were made.
unfoldable pub node_update : UpdateAnswers → Node → List ℕ → ℕ → Bool × Node × List FuseCall
node_update a node bytes size = elim a.clock [
  | none ↦ (false, node, [])
  | some now ↦
      if a.allocated then update_polled a now bytes size node node.ph else (false, node, [])
]

-- Nodes are compared by their paths, which stand first in the struct; a bare path can stand for one.
unfoldable pub node_compare : Str → Str → Ordering
node_compare a b = str_compare a b
