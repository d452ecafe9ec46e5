-- ===== src/System.antt =====
-- The operations of mqttfs_*.c and the messages of main.c as steps on the tree, and what they promise of the files: a
-- map from paths to kinds and contents that knows neither nodes nor slots.
pub mod Allowed
pub mod Written
pub mod Clients
pub mod Steps
pub mod Renames
pub mod Contents
pub mod Messages
pub mod Runs
use mqttfs.Base.{
  ℕ, ◌≤◌, ◌<◌, List, [], ◌∷◌, Bool, true, false, ◌&&◌, ◌||◌, Option, none, some, ◌≡◌, ◌≢◌, ◌⊎◌,
  if◌then◌else◌, length, suc, take, drop,
}
use mathlib.Core.Option
use mqttfs.Str.{Str, IsStr, text, str_view, str_base_path}
use mqttfs.Node.{Timespec, Node, UpdateAnswers}
use mqttfs.Node.Update.{is_update_granted}
use mqttfs.Queue
use mqttfs.Queue.{Mqtt}
use mqttfs.Store.{Context, Item, Fs, pure, ◌>>=◌, Ret}
use mqttfs.Store.Search.{Found, lookup, same}
use mqttfs.Fs.Make.{MakeAnswers, mqttfs_mkdir, mqttfs_create}
use mqttfs.Fs.Make.Outcome.{path_text, is_granted}
use mqttfs.Fs.Open.{mqttfs_open}
use mqttfs.Fs.Data.{WriteAnswers, mqttfs_write}
use mqttfs.Fs.Data.Laws.{is_written}
use mqttfs.Fs.Remove.{mqttfs_unlink}
use mqttfs.Fs.Rename
use mqttfs.Fs.Rename.{RenameAnswers, mqttfs_rename, noreplace_flag, exchange_flag}
use mqttfs.Fs.Rename.Announce.{CanPublish}
use mqttfs.Program.Message.{MessageAnswers, on_mqtt_message}
use mqttfs.Program.Message.Keeping.{NoFile}
use mqttfs.Program.Message.Chain.{GrantsParents}

-- The kind and the bytes of an entry.
abbrev pub Entry : Type 0
Entry = Bool × List ℕ

abbrev pub Tree : Type 0
Tree = List ℕ → Option Entry

abbrev pub entry_of : Found → Entry
entry_of f = (f.found.is_dir, f.found.content)

abbrev pub view : Context → Tree
view c key = Option.map entry_of (lookup c key)

-- The flags of a rename: none over an entry that is there, RENAME_NOREPLACE or RENAME_EXCHANGE.
pub data Mode : Type 0 where
  replace noreplace exchange : Mode

abbrev pub flags_of : Mode → ℕ
flags_of Mode.replace = 0
flags_of Mode.noreplace = noreplace_flag
flags_of Mode.exchange = exchange_flag

-- What a client of the file system or of the broker does, with the answers of the system to it. A
-- file is opened before it is written.
pub data Op : Type 0 where
  mkdir create : MakeAnswers → List ℕ → Op
  unlink : Bool → Bool → List ℕ → Op
  rename : RenameAnswers → List ℕ → List ℕ → Mode → Op
  write : WriteAnswers → List ℕ → List ℕ → ℕ → ℕ → Op
  message : MessageAnswers → Str → List ℕ → ℕ → Op

abbrev pub write_opened : WriteAnswers → List ℕ → ℕ → ℕ → Ret × Option ℕ → Fs Ret
write_opened a bytes size offset (r, none) = pure r
write_opened a bytes size offset (r, some fh) = mqttfs_write a fh bytes size offset

unfoldable pub open_and_write : WriteAnswers → List ℕ → List ℕ → ℕ → ℕ → Fs Ret
open_and_write a path bytes size offset = do
  opened ← mqttfs_open true path
  write_opened a bytes size offset opened

-- The answer, and the state after it; a message has no answer.
abbrev pub answered : Option (Ret × Context) → Option (Option Ret × Context)
answered none = none
answered (some (r, c)) = some (some r, c)

unfoldable pub run : Op → Context → Option (Option Ret × Context)
run (mkdir a path) c = answered (mqttfs_mkdir a path c)
run (create a path) c = answered ((do (r, fh) ← mqttfs_create a path; pure r) c)
run (unlink locked queue_locked path) c = answered (mqttfs_unlink locked queue_locked path c)
run (rename a from to mode) c = answered (mqttfs_rename a from to (flags_of mode) c)
run (write a path bytes size offset) c = answered (open_and_write a path bytes size offset c)
run (message a topic payload payload_len) c = elim (on_mqtt_message a topic payload payload_len c) [
  | none ↦ none
  | some (x, c') ↦ some (none, c')
]

-- Every answer with the state behind it, and the last state.
unfoldable pub runs : List Op → Context → Option (List (Option Ret × Context) × Context)
runs [] c = some ([], c)
runs (o ∷ later) c = elim (run o c) [
  | none ↦ none
  | some (r, c') ↦ Option.map (λ x. ((r, c') ∷ x.0, x.1)) (runs later c')
]

-- A file with the bytes stands under the path.
abbrev pub Puts : List ℕ → Entry → Tree → Tree → Type 0
Puts path e t t' = (key : List ℕ) → t' key ≡ (if same path key then some e else t key)

-- What was there stays, and what is new is an empty directory.
abbrev pub Stays : Option Entry → Option Entry → Type 0
Stays (some e) o = o ≡ some e
Stays none none = Unit
Stays none (some e) = e ≡ (true, [])

abbrev pub Renamed : List ℕ → List ℕ → Tree → Tree → Mode → Type 0
Renamed from to t t' Mode.replace =
    (e : Entry) × (t from ≡ some e)
    × ((key : List ℕ)
        → t' key ≡ (if same from key then none else if same to key then some e else t key))
Renamed from to t t' Mode.noreplace =
    (e : Entry) × (t from ≡ some e)
    × (t to ≡ none)
    × ((key : List ℕ)
        → t' key ≡ (if same to key then some e else if same from key then none else t key))
Renamed from to t t' Mode.exchange =
    (e : Entry) × (e' : Entry) × (t from ≡ some e)
    × (t to ≡ some e')
    × ((key : List ℕ)
        → t' key ≡ (if same to key then some e else if same from key then some e' else t key))

-- What an operation that is done does to the map.
abbrev pub Effect : Op → Tree → Tree → Type 0
Effect (mkdir a path) t t' = (t (path_text path) ≡ none) × Puts (path_text path) (true, []) t t'
Effect (create a path) t t' = (t (path_text path) ≡ none) × Puts (path_text path) (false, []) t t'
Effect (unlink locked queue_locked path) t t' =
    (e : Entry) × (t (path_text path) ≡ some e)
    × ((key : List ℕ) → t' key ≡ (if same (path_text path) key then none else t key))
Effect (rename a from to mode) t t' = Renamed (path_text from) (path_text to) t t' mode
Effect (write a path bytes size offset) t t' =
    (old : List ℕ) × (t (path_text path) ≡ some (false, old))
    × Puts (path_text path) (false, take size bytes) t t'
Effect (message a topic payload payload_len) t t' =
    (t' (text topic) ≡ some (false, take payload_len payload))
    × ((key : List ℕ) → text topic ≢ key → Stays (t key) (t' key))

abbrev pub Unchanged : Tree → Tree → Type 0
Unchanged t t' = (key : List ℕ) → t' key ≡ t key

-- What a message does to a file, by whether the system grants the update also where a poll is
-- blocked on the file, and whether it does so where none is.
abbrev pub FileOutcome : Op → Tree → Tree → Bool → Bool → Type 0
FileOutcome o t t' true granted = Effect o t t'
FileOutcome o t t' false true = Unchanged t t' ⊎ Effect o t t'
FileOutcome o t t' false false = Unchanged t t'

-- By what stands under the topic.
abbrev pub MessageOutcome : Op → UpdateAnswers → Tree → Tree → Option Entry → Type 0
MessageOutcome o a t t' none = Effect o t t'
MessageOutcome o a t t' (some (true, bytes)) = Unchanged t t'
MessageOutcome o a t t' (some (false, bytes)) =
    FileOutcome o t t' (is_update_granted a (some 0)) (is_update_granted a none)

-- A message has no answer, and the other operations have one.
abbrev pub NoAnswer : Op → Tree → Tree → Type 0
NoAnswer (message a topic payload payload_len) t t' =
    MessageOutcome (message a topic payload payload_len) a.updated t t' (t (text topic))
NoAnswer _ t t' = ⊥

-- An answer of success is one for the effect, also where `int` has made its count negative, and an
-- error leaves the map.
abbrev pub Refines : Op → Tree → Tree → Option Ret → Type 0
Refines o t t' (some (Ret.ok n)) = Effect o t t'
Refines o t t' (some (Ret.negative n)) = Effect o t t'
Refines o t t' (some (Ret.err e)) = Unchanged t t'
Refines o t t' none = NoAnswer o t t'
