-- ===== src/Tests/Store.antt =====
-- Runs of node.c and of the FUSE operations.
use mqttfs.Base.{
  ℕ, zero, suc, List, [], ◌∷◌, true, false, Option, none, some, ◌≡◌, refl, arith, drop,
}
use mqttfs.Str.{str_view, str_compare, copied}
use mqttfs.Node.{Timespec, Node, UpdateAnswers, fresh_node, node_compare, node_update}
use mqttfs.Node.Update.{AfterUpdate, node_update_lem}
use mqttfs.Store.{Context, node, Ret, ok, err, eexist, tsearch, load_slot, search}
use mqttfs.Store.Search.{lookup, IsValid, entry}
use mqttfs.Fs.Make.{MakeAnswers, make, mqttfs_mkdir, mqttfs_create}
use mqttfs.Fs.Make.Outcome.{MakeOutcome, path_text, mqttfs_mkdir_lem, mqttfs_create_lem}
use mqttfs.Fs.Remove.{mqttfs_unlink}
use mathlib.Core.Option
use mqttfs.Fs.Open.{mqttfs_open, mqttfs_opendir, mqttfs_getattr}
use mqttfs.Fs.Open.Laws.{open_answer, stat_answer, open-lookup}
use mqttfs.Fs.Data.Poll.{mqttfs_poll-twice}
use mqttfs.Fs.Data.{mqttfs_poll, WriteAnswers, mqttfs_read, mqttfs_write}
use mqttfs.Fs.Data.Laws.{WriteOutcome, mqttfs_write_lem, mqttfs_write-read}
use mqttfs.Fs.Remove.Laws.{UnlinkOutcome, mqttfs_unlink_lem}
use mqttfs.Queue.{Mqtt}
use mqttfs.Tests.Queue.{granted, empty_queue, empty_queue-IsValid}

abbrev pub noon : Timespec
noon = record { tv_sec = 43200; tv_nsec = 0 }

abbrev pub grant : MakeAnswers
grant = record {
  locked = true;
  tree_grown = true;
  created = record { clock = some noon; allocated = true; path_copied = true };
}

-- What `CreateRootNode` leaves: the directory with the empty path.
abbrev pub root_only : Context
root_only = record {
  nodes = λ a. elim a [ zero ↦ some (fresh_node noon true (copied (str_view []))) | suc _ ↦ none ];
  next = 1;
  root = (0, node 0) ∷ [];
  mqtt = some empty_queue;
  calls = [];
}

pub root_only-IsValid : IsValid root_only
unfolding str_view
root_only-IsValid = record {
  entries = (
    entry 0 0 (fresh_node noon true (copied (str_view []))) refl
        (record { path_there = omega arith; content_size = refl }),
    tt,
  );
  distinct = (tt, tt);
  slots = omega arith;
  unused = elim [ zero ↦ λ h. absurd (omega arith) | suc a ↦ λ h. refl ];
}

-- "/home"
abbrev pub home : List ℕ
home = b'/' ∷ b'h' ∷ b'o' ∷ b'm' ∷ b'e' ∷ []

mkdir_root_exists : mqttfs_mkdir grant (b'/' ∷ []) root_only ≡ some (err eexist, root_only)
unfolding mqttfs_mkdir make tsearch load_slot search node_compare str_compare str_view
mkdir_root_exists = refl

mqttfs_mkdir_lem_example :
    (r : Ret × Option ℕ) × (c' : Context) × (mqttfs_mkdir grant home root_only ≡ some (r.0, c'))
    × IsValid c'
    × MakeOutcome grant true home root_only r c' true (lookup root_only (path_text home)) true
mqttfs_mkdir_lem_example = mqttfs_mkdir_lem grant home root_only root_only-IsValid

mqttfs_create_lem_example :
    (r : Ret × Option ℕ) × (c' : Context) × (mqttfs_create grant home root_only ≡ some (r, c'))
    × IsValid c'
    × MakeOutcome grant false home root_only r c' true (lookup root_only (path_text home)) true
mqttfs_create_lem_example = mqttfs_create_lem grant home root_only root_only-IsValid

-- A node on which a poll is blocked.
abbrev polled : Node
polled = record (fresh_node noon false (copied (str_view []))) { ph = some 9 }

abbrev pub answers : UpdateAnswers
answers = record { clock = some noon; allocated = true; notified = 0 }

node_update_lem_example :
    AfterUpdate answers polled (1 ∷ 2 ∷ []) 2 (node_update answers polled (1 ∷ 2 ∷ []) 2)
node_update_lem_example = node_update_lem answers polled (1 ∷ 2 ∷ []) 2

-- "/home" with the queue of a client in front of it.
abbrev pub file_node : Node
file_node = fresh_node noon false (copied (str_view (drop 1 home)))

abbrev pub one_file : Context
one_file = record {
  nodes = λ a. elim a [ zero ↦ some file_node | suc _ ↦ none ];
  next = 1;
  root = (0, node 0) ∷ [];
  mqtt = some empty_queue;
  calls = [];
}

pub one_file-IsValid : IsValid one_file
unfolding str_view
one_file-IsValid = record {
  entries =
      (entry 0 0 file_node refl (record { path_there = omega arith; content_size = refl }), tt);
  distinct = (tt, tt);
  slots = omega arith;
  unused = elim [ zero ↦ λ h. absurd (omega arith) | suc a ↦ λ h. refl ];
}

mqttfs_unlink_lem_example :
    (r : Ret) × (c' : Context) × (mqttfs_unlink true true home one_file ≡ some (r, c'))
    × IsValid c'
    × UnlinkOutcome true home one_file empty_queue r c' true (lookup one_file (path_text home))
mqttfs_unlink_lem_example =
    mqttfs_unlink_lem true true home one_file empty_queue one_file-IsValid refl empty_queue-IsValid

abbrev pub written : WriteAnswers
written = record { clock = some noon; locked = true; allocated = true; published = granted }

mqttfs_write_lem_example :
    (c' : Context) × (m' : Mqtt) × (mqttfs_write written 0 (7 ∷ 8 ∷ []) 2 0 one_file
      ≡ some (ok 2, c'))
    × IsValid c'
    × WriteOutcome written 0 (7 ∷ 8 ∷ []) 2 one_file file_node empty_queue m' c' true
unfolding str_view
mqttfs_write_lem_example =
    mqttfs_write_lem written 0 (7 ∷ 8 ∷ []) 2 0 one_file file_node empty_queue one_file-IsValid refl
      refl (record { path_there = omega arith; content_size = refl }) (omega arith)

mqttfs_write-read_example :
    (c' : Context) × (mqttfs_write written 0 (7 ∷ 8 ∷ []) 2 0 one_file ≡ some (ok 2, c'))
    × (Option.map (λ x. x.0) (mqttfs_read (some noon) true 0 5 0 c') ≡ some (ok 2, 7 ∷ 8 ∷ []))
unfolding str_view
mqttfs_write-read_example =
    mqttfs_write-read written 0 (7 ∷ 8 ∷ []) 2 0 5 noon one_file file_node empty_queue refl refl
      refl

open-lookup_example :
    (mqttfs_open true home one_file
      ≡ some (open_answer false (lookup one_file (path_text home)), one_file))
    × (mqttfs_opendir true home one_file
        ≡ some (open_answer true (lookup one_file (path_text home)), one_file))
    × (mqttfs_getattr true home none one_file
        ≡ some (stat_answer (lookup one_file (path_text home)), one_file))
open-lookup_example = open-lookup home one_file one_file-IsValid

mqttfs_poll-twice_example :
    (c' : Context) × (mqttfs_poll true 0 (some 3) 0 one_file ≡ some ((ok 0, 4), c'))
    × (c'.nodes 0 ≡ some (record file_node { ph = some 3; was_updated = false }))
    × (c'.calls ≡ [])
    × ((c'' : Context) × (mqttfs_poll true 0 none 0 c' ≡ some ((ok 0, 4), c''))
        × (c''.nodes 0 ≡ some (record file_node { ph = some 3; was_updated = false }))
        × (c''.calls ≡ c'.calls))
mqttfs_poll-twice_example = mqttfs_poll-twice 0 3 0 one_file file_node refl
