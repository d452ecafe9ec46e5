-- ===== src/System/Clients.antt =====
-- No operation gives the program a client, or takes it away.
use mqttfs.Base.{ℕ, ◌≤◌, List, Bool, true, false, Option, none, some, ◌≡◌, sym, ap, ◌∙◌, length}
use mqttfs.Queue.{Mqtt}
use mqttfs.Store.{Context, Ret}
use mqttfs.Store.Search.{Found}
use mqttfs.Fs.Make.{MakeAnswers}
use mqttfs.Fs.Make.Outcome.{MakeOutcome}
use mqttfs.Fs.Remove.Laws.{UnlinkOutcome}
use mqttfs.Fs.Rename.{RenameAnswers}
use mqttfs.Fs.Rename.Laws.{NoreplaceOutcome}
use mqttfs.Fs.Rename.Exchange.{ExchangeOutcome}
use mqttfs.Fs.Rename.Replace.{ReplaceOutcome}
use mqttfs.Fs.Data.{WriteAnswers}
use mqttfs.Fs.Data.Laws.{WriteOutcome}
use mqttfs.Node.{Node}
use mqttfs.Program.Message.{MessageAnswers}
use mqttfs.Program.Message.Outcome.{ExistingOutcome}

abbrev pub has_client : Context → Bool
has_client c = elim c.mqtt [ none ↦ false | some m ↦ true ]

pub client_same : (c c' : Context) → c'.mqtt ≡ c.mqtt → has_client c' ≡ has_client c
client_same c c' e = ap (λ (o : Option Mqtt). elim o [ none ↦ false | some m ↦ true ]) e

pub client_kept : (c c' : Context) → c' ≡ c → has_client c' ≡ has_client c
client_kept c c' e = ap has_client e

pub make_client :
    (a : MakeAnswers) (is_dir : Bool) (path : List ℕ) (c c' : Context) (r : Ret × Option ℕ)
    (locked granted : Bool) (found : Option Found)
    → MakeOutcome a is_dir path c r c' locked found granted
    → has_client c' ≡ has_client c
make_client a is_dir path c c' r false granted found (p, s) = client_same c c' s.same_mqtt
make_client a is_dir path c c' r true granted (some f) (p, s) = client_kept c c' s
make_client a is_dir path c c' r true false none (p, s) = client_same c c' s.same_mqtt
make_client a is_dir path c c' r true true none x = client_same c c' x.same_mqtt

module _ (c c' : Context) (m : Mqtt) (q : c.mqtt ≡ some m) where
  client_there : (m' : Mqtt) → c'.mqtt ≡ some m' → has_client c' ≡ has_client c
  client_there m' e =
      ap (λ (o : Option Mqtt). elim o [ none ↦ false | some m ↦ true ]) e
      ∙ sym (ap (λ (o : Option Mqtt). elim o [ none ↦ false | some m ↦ true ]) q)

  pub unlink_client :
      (queue_locked : Bool) (path : List ℕ) (r : Ret) (locked : Bool) (found : Option Found)
      → UnlinkOutcome queue_locked path c m r c' locked found
      → has_client c' ≡ has_client c
  unlink_client queue_locked path r false found (p, s) = client_kept c c' s
  unlink_client queue_locked path r true none (p, s) = client_kept c c' s
  unlink_client queue_locked path r true (some f) u = client_there u.queue_after u.queue_is

  pub write_client :
      (a : WriteAnswers) (fh : ℕ) (bytes : List ℕ) (size : ℕ) (n : Node) (m' : Mqtt) (b : Bool)
      → WriteOutcome a fh bytes size c n m m' c' b
      → has_client c' ≡ has_client c
  write_client a fh bytes size n m' true (x, now, k, p) =
      client_there m' (ap (λ (c : Context). c.mqtt) p)
  write_client a fh bytes size n m' false (x, p) = client_there m' (ap (λ (c : Context). c.mqtt) p)

  module _ (a : RenameAnswers) (from to : List ℕ) (f : Found) (r : Ret) where
    pub noreplace_client :
        (found : Option Found) (granted : Bool)
        → NoreplaceOutcome a from to c m f r c' found granted
        → has_client c' ≡ has_client c
    noreplace_client (some g) granted (p, s) = client_kept c c' s
    noreplace_client none false (p, n, t, m', e, x) = client_there m' e
    noreplace_client none true (p, n, m', e, x) = client_there m' e

    pub exchange_client :
        (g : Found) (m' : Mqtt) (d d' taken : Bool)
        → ExchangeOutcome a from to c m f g r c' m' d d' taken
        → has_client c' ≡ has_client c
    exchange_client g m' true false taken (p, s) = client_kept c c' s
    exchange_client g m' false true taken (p, s) = client_kept c c' s
    exchange_client g m' true true taken (p, (n, e, x)) = client_there m' e
    exchange_client g m' false false false (p, (n, t, m1, e, x)) = client_there m1 e
    exchange_client g m' false false true (p, (n, e, x)) = client_there m' e

    pub replace_client :
        (g : Found) (d d' taken : Bool)
        → ReplaceOutcome a from to c m f g r c' d d' taken
        → has_client c' ≡ has_client c
    replace_client g true false taken (p, s) = client_kept c c' s
    replace_client g false true taken (p, s) = client_kept c c' s
    replace_client g true true taken (p, (n, z, m1, m2, e, x, y)) = client_there m2 e
    replace_client g false false false (p, (n, t, m1, e, x)) = client_there m1 e
    replace_client g false false true (p, (n, z, m1, m2, e, x, y)) = client_there m2 e

pub existing_client :
    (a : MessageAnswers) (payload : List ℕ) (payload_len : ℕ) (b : payload_len ≤ length payload)
    (f : Found) (c c' : Context) (is_dir : Bool)
    → ExistingOutcome a payload payload_len b f c c' is_dir
    → has_client c' ≡ has_client c
existing_client a payload payload_len b f c c' true e = client_kept c c' e
existing_client a payload payload_len b f c c' false (n, calls, s, others, r, q, mqtt, x) =
    client_same c c' mqtt
