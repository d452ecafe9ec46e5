-- ===== src/System/Allowed.antt =====
-- What an operation needs of its surroundings: a client with a well-formed queue, times that do not go back, and the
-- cases of a rename and of a message that the program means to carry out.
use mqttfs.Base.{ℕ, ◌≤◌, ◌<◌, List, [], ◌∷◌, true, Option, some, ◌≡◌, ◌≢◌, length, suc, drop}
use mqttfs.Str.{Str, IsStr, text, str_view, str_base_path}
use mqttfs.Node.{Timespec}
use mqttfs.Queue
use mqttfs.Queue.{Mqtt}
use mqttfs.Store.{Context, Item, Ret}
use mqttfs.Store.Search.{Found, lookup}
use mqttfs.Fs.Make.Outcome.{path_text}
use mqttfs.Fs.Rename.{RenameAnswers}
use mqttfs.Fs.Rename.Announce.{CanPublish}
use mqttfs.Program.Message.{MessageAnswers}
use mqttfs.Program.Message.Keeping.{NoFile, ByEntry}
use mqttfs.Program.Message.Chain.{GrantsParents}
use mqttfs.System.{Mode, Op, mkdir, create, unlink, rename, write, message, run}

abbrev pub Target : RenameAnswers → List ℕ → List ℕ → Context → Mqtt → Found → Mode → Type 0
Target a from to c m f Mode.noreplace = CanPublish a.published (str_view (drop 1 to)) f.found m
Target a from to c m f Mode.exchange =
    (g : Found) × (lookup c (path_text to) ≡ some g)
    × (path_text from ≢ path_text to)
    × CanPublish a.published g.found.path f.found m
Target a from to c m f Mode.replace =
    (g : Found) × (lookup c (path_text to) ≡ some g)
    × (path_text from ≢ path_text to)
    × CanPublish a.published g.found.path f.found m

-- For a new topic everything is granted, and no file is above it.
abbrev pub IsNew : MessageAnswers → Str → Context → Type 0
IsNew a topic c =
    (0 < topic.size)
    × NoFile (suc topic.size) c (str_base_path topic)
    × GrantsParents a
    × ((now : Timespec) × (a.updated.clock ≡ some now))
    × (a.updated.allocated ≡ true)

abbrev pub Allows : Op → Context → Type 0
Allows (mkdir a path) c = Unit
Allows (create a path) c = Unit
Allows (unlink locked queue_locked path) c =
    (m : Mqtt) × (c.mqtt ≡ some m) × Queue.Publish.IsValid m
Allows (rename a from to mode) c =
    (m : Mqtt) × (f : Found) × (c.mqtt ≡ some m)
    × (a.locked ≡ true)
    × (lookup c (path_text from) ≡ some f)
    × ((root : List (ℕ × Item)) → a.relocate root ≡ root)
    × Target a from to c m f mode
Allows (write a path bytes size offset) c = (m : Mqtt) × (c.mqtt ≡ some m) × (size ≤ length bytes)
Allows (message a topic payload payload_len) c =
    (payload_len ≤ length payload)
    × IsStr topic
    × (a.locked ≡ true)
    × ByEntry (lookup c (text topic)) (IsNew a topic c) (λ f. Unit)

-- Each operation is allowed where the ones before it have led.
abbrev pub AllAllowed : List Op → Context → Type 0
AllAllowed [] c = Unit
AllAllowed (o ∷ later) c =
    Allows o c × ((r : Option Ret) (c' : Context) → run o c ≡ some (r, c') → AllAllowed later c')
