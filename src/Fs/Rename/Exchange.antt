-- ===== src/Fs/Rename/Exchange.antt =====
-- A rename that exchanges two entries, against the map of the tree and the message queue.
use mqttfs.Base.{
  ℕ, List, Bool, true, false, Option, none, some, ◌≡◌, ◌≢◌, refl, sym, ◌∙◌, if◌then◌else◌,
}
use mathlib.Core.Path.{subst}
use mqttfs.Queue
use mqttfs.Queue.{Mqtt}
use mqttfs.Queue.Publish.{is_accepted}
use mqttfs.Store.{Context, Ret, ok, err, eio, eisdir, enotdir}
use mqttfs.Store.Search.{Found, lookup, same, IsValid}
use mqttfs.Store.Replace.{IsValid-mqtt, lookup-mqtt}
use mqttfs.Store.Swap.{with_path}
use mqttfs.Store.Exchange.{exchanged, IsValid-exchanged, lookup-exchanged_texts}
use mqttfs.Fs.Make.Outcome.{path_text}
use mqttfs.Fs.Rename.{RenameAnswers, announce, rename_exchange, mqttfs_rename, exchange_flag}
use mqttfs.Fs.Rename.Announce.{CanPublish, AnnounceOutcome, Announced, announce-Announced}
use mqttfs.Fs.Rename.Swap.{
  swap_missing, exchange_starts, exchange_dir_with_file, exchange_file_with_dir, exchange_dirs,
  exchange_refused, exchange_files, from_there, to_there,
}

-- The new path of a node is its own string, which the other node had.
abbrev pub Exchanged :
    RenameAnswers → List ℕ → List ℕ → Context → Mqtt → Found → Found → Context → Mqtt → Type 0
Exchanged a from to c m f g c' m' =
    ((key : List ℕ)
      → lookup c' key ≡ (
          if same (path_text to) key
          then some
              (record { slot = g.slot; addr = f.addr; found = with_path f.found g.found.path })
          else if same (path_text from) key
          then some
              (record { slot = f.slot; addr = g.addr; found = with_path g.found f.found.path })
          else lookup c key))
    × (c'.mqtt ≡ some m')
    × AnnounceOutcome a f.found g.found.path m m' f.found.is_dir true

abbrev pub Unchanged : Context → Mqtt → Context → Type 0
Unchanged c m c' =
    (c'.nodes ≡ c.nodes)
    × (c'.root ≡ c.root)
    × (m' : Mqtt) × (c'.mqtt ≡ some m')
    × (m'.messages ≡ m.messages)

-- By which of the two is a directory, and whether the client takes the message of the first.
abbrev pub ExchangeOutcome :
    RenameAnswers
    → List ℕ
    → List ℕ
    → Context
    → Mqtt
    → Found
    → Found
    → Ret
    → Context
    → Mqtt
    → Bool
    → Bool
    → Bool
    → Type 0
ExchangeOutcome a from to c m f g r c' m' true false taken = (r ≡ err enotdir) × (c' ≡ c)
ExchangeOutcome a from to c m f g r c' m' false true taken = (r ≡ err eisdir) × (c' ≡ c)
ExchangeOutcome a from to c m f g r c' m' true true taken =
    (r ≡ ok 0) × Exchanged a from to c m f g c' m'
ExchangeOutcome a from to c m f g r c' m' false false false = (r ≡ err eio) × Unchanged c m c'
ExchangeOutcome a from to c m f g r c' m' false false true =
    (r ≡ ok 0) × Exchanged a from to c m f g c' m'

abbrev pub is_taken : RenameAnswers → Found → Found → Mqtt → Bool
is_taken a f g m = is_accepted a.published g.found.path f.found.size m

pub record Exchanging (a : RenameAnswers) (from to : List ℕ) (c : Context) (m : Mqtt) (f g : Found)
    (d d' taken : Bool) : Type 0 where
  pub result : Ret
  pub after : Context
  pub queue : Mqtt
  pub returns : rename_exchange a f.slot (some g.slot) c ≡ some (result, after)
  pub valid : IsValid after
  pub queue_valid : Queue.Publish.IsValid queue
  pub outcome : ExchangeOutcome a from to c m f g result after queue d d' taken

module _ (a : RenameAnswers) (from to : List ℕ) (c : Context) (m : Mqtt) (f g : Found)
    (v : IsValid c) (q : c.mqtt ≡ some m) (l : a.locked ≡ true)
    (e : lookup c (path_text from) ≡ some f) (k : lookup c (path_text to) ≡ some g)
    (ne : path_text from ≢ path_text to) (w : CanPublish a.published g.found.path f.found m) where
  announced : Announced a f.found g.found.path c m
  announced =
      announce-Announced a f.found g.found.path c m q (from_there a from to c v l f e g k).good
        (to_there a from to c v l f e g k).good.path_there w

  looked_up :
      (o : Option Mqtt) (key : List ℕ)
      → lookup (record (exchanged c f g) { mqtt = o }) key ≡ (
          if same (path_text to) key
          then some
              (record { slot = g.slot; addr = f.addr; found = with_path f.found g.found.path })
          else if same (path_text from) key
          then some
              (record { slot = f.slot; addr = g.addr; found = with_path g.found f.found.path })
          else lookup c key)
  looked_up o key =
      lookup-mqtt (exchanged c f g) o key
      ∙ lookup-exchanged_texts c v (path_text from) (path_text to) f g e k ne key

  both-IsValid : IsValid (exchanged c f g)
  both-IsValid = IsValid-exchanged c v (path_text from) (path_text to) f g e k ne

  both_files :
      f.found.is_dir ≡ false
      → g.found.is_dir ≡ false
      → (done : Bool) (m' : Mqtt)
      → announce a f.found g.found.path c ≡ some (done, record c { mqtt = some m' })
      → AnnounceOutcome a f.found g.found.path m m' f.found.is_dir done
      → Queue.Publish.IsValid m'
      → Exchanging a from to c m f g false false (is_taken a f g m)
  both_files d d' true m' r x y =
      subst (Exchanging a from to c m f g false false)
        (sym (subst (λ b. AnnounceOutcome a f.found g.found.path m m' b true) d x).0)
        (record {
          result = ok 0;
          after = record (exchanged c f g) { mqtt = some m' };
          queue = m';
          returns = exchange_files a from to c v l f e g k (d ∙ sym d') ne (some m') d r;
          valid = IsValid-mqtt (exchanged c f g) (some m') both-IsValid;
          queue_valid = y;
          outcome = (refl, (looked_up (some m'), refl, x));
        })
  both_files d d' false m' r x y =
      let (refused, same_messages) =
        subst (λ b. AnnounceOutcome a f.found g.found.path m m' b false) d x in
      subst (Exchanging a from to c m f g false false) (sym refused) (record {
        result = err eio;
        after = record c { mqtt = some m' };
        queue = m';
        returns = exchange_refused a from to c v l f e g k (d ∙ sym d') ne (some m') d r;
        valid = IsValid-mqtt c (some m') v;
        queue_valid = y;
        outcome = (refl, (refl, refl, m', refl, same_messages));
      })

  pub exchange-Exchanging :
      Exchanging a from to c m f g f.found.is_dir g.found.is_dir (is_taken a f g m)
  exchange-Exchanging = by_kind f.found.is_dir g.found.is_dir refl refl
    where
      by_kind :
          (d d' : Bool)
          → f.found.is_dir ≡ d
          → g.found.is_dir ≡ d'
          → Exchanging a from to c m f g d d' (is_taken a f g m)
      by_kind true false d d' = record {
        result = err enotdir;
        after = c;
        queue = m;
        returns = exchange_dir_with_file a from to c v l f e g k d d';
        valid = v;
        queue_valid = w.valid;
        outcome = (refl, refl);
      }
      by_kind false true d d' = record {
        result = err eisdir;
        after = c;
        queue = m;
        returns = exchange_file_with_dir a from to c v l f e g k d d';
        valid = v;
        queue_valid = w.valid;
        outcome = (refl, refl);
      }
      by_kind true true d d' = record {
        result = ok 0;
        after = exchanged c f g;
        queue = m;
        returns = exchange_dirs a from to c v l f e g k (d ∙ sym d') ne d;
        valid = both-IsValid;
        queue_valid = w.valid;
        outcome = (
          refl,
          (
            looked_up c.mqtt,
            q,
            subst (λ b. AnnounceOutcome a f.found g.found.path m m b true) (sym d) (refl, refl),
          ),
        );
      }
      by_kind false false d d' =
          both_files d d' announced.done announced.queue announced.returns announced.outcome
            announced.valid

-- By what the tree has under the second path.
abbrev pub Exchanges :
    RenameAnswers → List ℕ → List ℕ → Context → Mqtt → Found → Option Found → Type 0
Exchanges a from to c m f none = mqttfs_rename a from to exchange_flag c ≡ none
Exchanges a from to c m f (some g) =
    (r : Ret) × (c' : Context) × (m' : Mqtt) × (mqttfs_rename a from to exchange_flag c
      ≡ some (r, c'))
    × IsValid c'
    × ExchangeOutcome a from to c m f g r c' m' f.found.is_dir g.found.is_dir (is_taken a f g m)

-- `MqttfsRename` with RENAME_EXCHANGE, on a valid store, with the lock, a client whose queue is
-- well formed and has no later time than a new message gets, sizes of topic and payload whose sum
-- does not wrap round, and two different paths of which the first is there, uses a null pointer if
-- the second is not. Otherwise the store stays valid. A directory and a file give -ENOTDIR or
-- -EISDIR with nothing changed. Where the client refuses the message, the answer is -EIO, and tree,
-- nodes and messages are what they were. Else the answer is 0, each of the two paths leads to the
-- other's node, every other path leads where it did, and the first file's payload is queued under
-- its new path; what was queued under the old one is cancelled if `MqttCancel` gets the lock of the
-- queue, and else left. Other messages stay.
pub mqttfs_rename-exchange :
    (a : RenameAnswers) (from to : List ℕ) (c : Context) (m : Mqtt) (f : Found)
    → IsValid c
    → c.mqtt ≡ some m
    → a.locked ≡ true
    → lookup c (path_text from) ≡ some f
    → path_text from ≢ path_text to
    → ((g : Found)
        → lookup c (path_text to) ≡ some g
        → CanPublish a.published g.found.path f.found m)
    → Exchanges a from to c m f (lookup c (path_text to))
mqttfs_rename-exchange a from to c m f v q l e ne w = by_target (lookup c (path_text to)) refl
  where
    by_target : (o : Option Found) → lookup c (path_text to) ≡ o → Exchanges a from to c m f o
    by_target none k = swap_missing a from to c v l f e k
    by_target (some g) k =
        let o = exchange-Exchanging a from to c m f g v q l e k ne (w g k) in
        (
          o.result,
          o.after,
          o.queue,
          exchange_starts a from to c v l f e g k ∙ o.returns,
          o.valid,
          o.outcome,
        )
