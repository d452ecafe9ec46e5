-- ===== src/Tests/Rename.antt =====
-- Runs of mqttfs_rename.c.
use mqttfs.Base.{
  ℕ, ◌≤◌, zero, suc, List, [], ◌∷◌, true, false, none, some, ◌≡◌, ◌≢◌, refl, sym, ◌∙◌, arith, drop,
}
use mathlib.Core.Path.{subst}
use mqttfs.Str.{str_view, copied}
use mqttfs.Node.{Node, fresh_node}
use mqttfs.Store.{Context, node, Ret}
use mqttfs.Store.Search.{Found, find, same, eq→same, lookup, IsValid, entry}
use mqttfs.Fs.Make.Outcome.{path_text}
use mqttfs.Fs.Rename.{RenameAnswers, mqttfs_rename, noreplace_flag}
use mqttfs.Fs.Rename.Announce.{CanPublish}
use mqttfs.Fs.Rename.Laws.{NoreplaceOutcome, is_granted, mqttfs_rename-noreplace}
use mqttfs.Fs.Rename.Exchange.{Exchanges, is_taken, mqttfs_rename-exchange}
use mqttfs.Fs.Rename.Replace.{ReplaceOutcome, mqttfs_rename-replaces}
use mqttfs.Tests.Queue.{granted, empty_queue, empty_queue-IsValid}
use mqttfs.Tests.Store.{noon, home, one_file, one_file-IsValid, file_node}

-- "/work"
abbrev work : List ℕ
work = b'/' ∷ b'w' ∷ b'o' ∷ b'r' ∷ b'k' ∷ []

abbrev all_granted : RenameAnswers
all_granted = record {
  locked = true;
  tree_grown = true;
  path_copied = true;
  published = granted;
  queue_locked = true;
  queue_locked_again = true;
  relocate = λ root. root;
}

abbrev home_found : Found
home_found = record { slot = 0; addr = 0; found = file_node }

home_there : lookup one_file (path_text home) ≡ some home_found
unfolding lookup find str_view
home_there = refl

mqttfs_rename-noreplace_example :
    (r : Ret) × (c' : Context) × (mqttfs_rename all_granted home work noreplace_flag one_file
      ≡ some (r, c'))
    × IsValid c'
    × NoreplaceOutcome all_granted home work one_file empty_queue home_found r c'
        (lookup one_file (path_text work))
        (is_granted all_granted work home_found empty_queue)
unfolding str_view
mqttfs_rename-noreplace_example =
    mqttfs_rename-noreplace all_granted home work one_file empty_queue home_found one_file-IsValid
      refl refl home_there (λ root. refl)
      (record { valid = empty_queue-IsValid; fits = omega arith; in_time = tt })

abbrev work_node : Node
work_node = fresh_node noon false (copied (str_view (drop 1 work)))

-- "/home" and "/work".
abbrev two_files : Context
two_files = record one_file {
  nodes = λ a. elim a [
    | zero ↦ some file_node
    | suc b ↦ elim b [ zero ↦ some work_node | suc _ ↦ none ]
  ];
  next = 2;
  root = (0, node 0) ∷ (1, node 1) ∷ [];
}

not_same : same (path_text home) (path_text work) ≡ false
unfolding str_view
not_same = refl

other_path : path_text home ≢ path_text work
other_path e = cc (eq→same (path_text home) (path_text work) e, not_same)

two_files-IsValid : IsValid two_files
unfolding str_view
two_files-IsValid = record {
  entries = (
    entry 0 0 file_node refl (record { path_there = omega arith; content_size = refl }),
    (entry 1 1 work_node refl (record { path_there = omega arith; content_size = refl }), tt),
  );
  distinct = ((λ e. other_path (sym e), tt), (tt, tt));
  slots = omega arith;
  unused = beyond;
}
  where
    beyond : (a : ℕ) → 2 ≤ a → two_files.nodes a ≡ none
    beyond zero h = absurd (omega arith)
    beyond (suc zero) h = absurd (omega arith)
    beyond (suc (suc a)) h = refl

both_home : lookup two_files (path_text home) ≡ some home_found
unfolding lookup find str_view
both_home = refl

abbrev work_found : Found
work_found = record { slot = 1; addr = 1; found = work_node }

both_work : lookup two_files (path_text work) ≡ some work_found
unfolding lookup find str_view
both_work = refl

home_to_work : CanPublish granted work_node.path file_node empty_queue
unfolding str_view
home_to_work = record { valid = empty_queue-IsValid; fits = omega arith; in_time = tt }

mqttfs_rename-replaces_example :
    (r : Ret) × (c' : Context) × (mqttfs_rename all_granted home work 0 two_files ≡ some (r, c'))
    × IsValid c'
    × ReplaceOutcome all_granted home work two_files empty_queue home_found work_found r c' false
        false
        (is_taken all_granted home_found work_found empty_queue)
mqttfs_rename-replaces_example =
    mqttfs_rename-replaces all_granted home work two_files empty_queue home_found work_found
      two_files-IsValid refl refl both_home both_work other_path home_to_work

taken_at_work :
    (g : Found)
    → lookup two_files (path_text work) ≡ some g
    → CanPublish granted g.found.path file_node empty_queue
taken_at_work g e =
    subst (λ (g : Found). CanPublish granted g.found.path file_node empty_queue)
      (same_found (sym both_work ∙ e)) home_to_work
  where
    same_found : some work_found ≡ some g → work_found ≡ g
    same_found e = cc e

mqttfs_rename-exchange_example :
    Exchanges all_granted home work two_files empty_queue home_found
      (lookup two_files (path_text work))
mqttfs_rename-exchange_example =
    mqttfs_rename-exchange all_granted home work two_files empty_queue home_found two_files-IsValid
      refl refl both_home other_path taken_at_work
