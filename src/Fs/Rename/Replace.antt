-- ===== src/Fs/Rename/Replace.antt =====
-- A rename over an entry that is there: the two are exchanged, and what stands under the old path is removed.
use mqttfs.Base.{
  ℕ, List, Bool, true, false, Option, none, some, ◌≡◌, ◌≢◌, inl, inr, refl, sym, ap, ◌∙◌, arith,
  if◌then◌else◌, Bool-cases,
}
use mqttfs.Queue
use mqttfs.Queue.{Mqtt, mqtt_cancel}
use mqttfs.Queue.Cancel.{Cancelled, mqtt_cancel_lem}
use mqttfs.Store.{
  Context, node, search, item_at, tdelete, load_slot, load_node, load, node_destroy, Errno, Ret, ok,
  err, eio, eisdir, enotdir,
}
use mqttfs.Store.Search.{
  Found, lookup, same, same→eq, same_refl, IsValid, IsFound, slot_of, search-find, find-IsFound,
  item_at-found,
}
use mqttfs.Store.Replace.{IsValid-mqtt, lookup-mqtt}
use mqttfs.Store.Swap.{with_path}
use mqttfs.Store.Memory.{removed, IsValid-removed, lookup-removed}
use mqttfs.Fs.Make.Outcome.{path_text}
use mqttfs.Fs.Rename.{RenameAnswers, rename_exchange, drop_target, mqttfs_rename}
use mqttfs.Fs.Rename.Announce.{CanPublish, AnnounceOutcome}
use mqttfs.Fs.Rename.Swap.{replace_starts, from_there}
use mqttfs.Fs.Rename.Exchange.{
  Exchanged, Unchanged, ExchangeOutcome, is_taken, Exchanging, exchange-Exchanging,
}

module _ (a : RenameAnswers) (x : Context) (v : IsValid x) (key : List ℕ) (h : Found)
    (e : lookup x key ≡ some h) where
  stands : IsFound x.nodes key h
  unfolding lookup
  stands = find-IsFound x.nodes key x.root h v.entries e

  holds : item_at h.slot x.root ≡ some (node h.addr)
  unfolding lookup
  holds = item_at-found x.nodes key x.root h x.next 0 v.slots e v.entries

  own_key : search x.nodes h.found.path x.root ≡ some (some h.slot)
  unfolding lookup
  own_key =
      search-find x.nodes h.found.path x.root stands.good.path_there v.entries
      ∙ ap (λ k. some (slot_of (lookup x k))) stands.keyed
      ∙ ap (λ o. some (slot_of o)) e

  drop_target_lem :
      (m m' : Mqtt) (n : ℕ)
      → x.mqtt ≡ some m
      → mqtt_cancel a.queue_locked_again h.found.path m ≡ some m'
      → drop_target a h.slot (ok n) x ≡ some (ok 0, record (removed x h) { mqtt = some m' })
  unfolding drop_target load_slot load_node load tdelete node_destroy
  drop_target_lem m m' n q k = ground (arith, stands.stored, holds, own_key, q, k)

abbrev pub Replaced :
    RenameAnswers → List ℕ → List ℕ → Context → Mqtt → Found → Found → Context → Type 0
Replaced a from to c m f g c' =
    ((key : List ℕ)
      → lookup c' key ≡ (
          if same (path_text from) key
          then none
          else if same (path_text to) key
          then some
              (record { slot = g.slot; addr = f.addr; found = with_path f.found g.found.path })
          else lookup c key))
    × (c'.nodes g.addr ≡ none)
    × (m1 : Mqtt) × (m2 : Mqtt) × (c'.mqtt ≡ some m2)
    × AnnounceOutcome a f.found g.found.path m m1 f.found.is_dir true
    × (if a.queue_locked_again then Cancelled f.found.path m1 m2 else m2 ≡ m1)

-- By which of the two is a directory, and whether the client takes the message.
abbrev pub ReplaceOutcome :
    RenameAnswers
    → List ℕ
    → List ℕ
    → Context
    → Mqtt
    → Found
    → Found
    → Ret
    → Context
    → Bool
    → Bool
    → Bool
    → Type 0
ReplaceOutcome a from to c m f g r c' true false taken = (r ≡ err enotdir) × (c' ≡ c)
ReplaceOutcome a from to c m f g r c' false true taken = (r ≡ err eisdir) × (c' ≡ c)
ReplaceOutcome a from to c m f g r c' true true taken = (r ≡ ok 0) × Replaced a from to c m f g c'
ReplaceOutcome a from to c m f g r c' false false false = (r ≡ err eio) × Unchanged c m c'
ReplaceOutcome a from to c m f g r c' false false true = (r ≡ ok 0) × Replaced a from to c m f g c'

record Result (a : RenameAnswers) (from to : List ℕ) (c : Context) (m : Mqtt) (f g : Found)
    (d d' taken : Bool) : Type 0 where
  result : Ret
  after : Context
  returns : mqttfs_rename a from to 0 c ≡ some (result, after)
  valid : IsValid after
  outcome : ReplaceOutcome a from to c m f g result after d d' taken

without_first :
    (b b' : Bool) (x y z : Option Found)
    → (if b then none else if b' then x else if b then y else z)
      ≡ (if b then none else if b' then x else z)
without_first true b' x y z = refl
without_first false b' x y z = refl

module _ (a : RenameAnswers) (from to : List ℕ) (c : Context) (m : Mqtt) (f g : Found)
    (v : IsValid c) (q : c.mqtt ≡ some m) (l : a.locked ≡ true)
    (e : lookup c (path_text from) ≡ some f) (k : lookup c (path_text to) ≡ some g)
    (ne : path_text from ≢ path_text to) (w : CanPublish a.published g.found.path f.found m) where
  run :
      (o : Option (Ret × Context))
      → rename_exchange a f.slot (some g.slot) c ≡ o
      → mqttfs_rename a from to 0 c
        ≡ elim o [ none ↦ none | some (r, c') ↦ drop_target a f.slot r c' ]
  run o s =
      replace_starts a from to c v l f e g k
      ∙ ap (λ o. elim o [ none ↦ none | some (r, c') ↦ drop_target a f.slot r c' ]) s

  abbrev leftover : Found
  leftover = record { slot = f.slot; addr = g.addr; found = with_path g.found f.found.path }

  refused : (er : Errno) (x : Context) → drop_target a f.slot (err er) x ≡ some (err er, x)
  unfolding drop_target
  refused er x = refl

  unlike : same (path_text to) (path_text from) ≡ false
  unlike = elim (Bool-cases (same (path_text to) (path_text from))) [
    | inl s ↦ absurd (ne (sym (same→eq (path_text to) (path_text from) s)))
    | inr s ↦ s
  ]

  Replaced-by :
      (x : Context) (m1 : Mqtt)
      → rename_exchange a f.slot (some g.slot) c ≡ some (ok 0, x)
      → IsValid x
      → Queue.Publish.IsValid m1
      → Exchanged a from to c m f g x m1
      → (c' : Context) × (mqttfs_rename a from to 0 c ≡ some (ok 0, c'))
        × IsValid c'
        × Replaced a from to c m f g c'
  Replaced-by x m1 s y z (looked_up, q1, announced) =
      let there : lookup x (path_text from) ≡ some leftover =
        looked_up (path_text from) ∙ ground (arith, unlike, same_refl (path_text from)) in
      let (m2, t, cancelled) =
        mqtt_cancel_lem a.queue_locked_again f.found.path m1
          (from_there a from to c v l f e g k).good.path_there z in
      (
        record (removed x leftover) { mqtt = some m2 },
        run (some (ok 0, x)) s ∙ drop_target_lem a x y (path_text from) leftover there m1 m2 0 q1 t,
        IsValid-mqtt (removed x leftover) (some m2)
            (IsValid-removed x y (path_text from) leftover there),
        (
          (λ key.
              lookup-mqtt (removed x leftover) (some m2) key
              ∙ lookup-removed x y (path_text from) leftover there key
              ∙ ap (λ o. if same (path_text from) key then none else o) (looked_up key)
              ∙ without_first (same (path_text from) key) (same (path_text to) key)
                  (some (record {
                    slot = g.slot;
                    addr = f.addr;
                    found = with_path f.found g.found.path;
                  }))
                  (some leftover) (lookup c key)),
          ground arith,
          m1,
          m2,
          refl,
          announced,
          cancelled,
        ),
      )

  replace-Result :
      Exchanging a from to c m f g f.found.is_dir g.found.is_dir (is_taken a f g m)
      → Result a from to c m f g f.found.is_dir g.found.is_dir (is_taken a f g m)
  replace-Result o =
      by_kind f.found.is_dir g.found.is_dir (is_taken a f g m) o.result o.after o.queue o.returns
        o.valid o.queue_valid o.outcome
    where
      replaces :
          (d d' taken : Bool)
          → ((c' : Context) × (mqttfs_rename a from to 0 c ≡ some (ok 0, c'))
              × IsValid c'
              × Replaced a from to c m f g c')
          → ((c' : Context)
              → Replaced a from to c m f g c'
              → ReplaceOutcome a from to c m f g (ok 0) c' d d' taken)
          → Result a from to c m f g d d' taken
      replaces d d' taken (c', r, y, x) h = record {
        result = ok 0;
        after = c';
        returns = r;
        valid = y;
        outcome = h c' x;
      }

      stays :
          (d d' taken : Bool) (er : Errno) (x : Context)
          → rename_exchange a f.slot (some g.slot) c ≡ some (err er, x)
          → IsValid x
          → ReplaceOutcome a from to c m f g (err er) x d d' taken
          → Result a from to c m f g d d' taken
      stays d d' taken er x s y o = record {
        result = err er;
        after = x;
        returns = run (some (err er, x)) s ∙ refused er x;
        valid = y;
        outcome = o;
      }

      by_kind :
          (d d' taken : Bool) (r : Ret) (x : Context) (m1 : Mqtt)
          → rename_exchange a f.slot (some g.slot) c ≡ some (r, x)
          → IsValid x
          → Queue.Publish.IsValid m1
          → ExchangeOutcome a from to c m f g r x m1 d d' taken
          → Result a from to c m f g d d' taken
      by_kind true false taken r x m1 s y z (er, o) =
          stays true false taken enotdir x (s ∙ ap (λ r. some (r, x)) er) y (refl, o)
      by_kind false true taken r x m1 s y z (er, o) =
          stays false true taken eisdir x (s ∙ ap (λ r. some (r, x)) er) y (refl, o)
      by_kind false false false r x m1 s y z (er, o) =
          stays false false false eio x (s ∙ ap (λ r. some (r, x)) er) y (refl, o)
      by_kind true true taken r x m1 s y z (er, o) =
          replaces true true taken (Replaced-by x m1 (s ∙ ap (λ r. some (r, x)) er) y z o)
            (λ c' p. (refl, p))
      by_kind false false true r x m1 s y z (er, o) =
          replaces false false true (Replaced-by x m1 (s ∙ ap (λ r. some (r, x)) er) y z o)
            (λ c' p. (refl, p))

-- `MqttfsRename` without flags, on a valid store, with the lock, a client whose queue is well
-- formed and has no later time than a new message gets, sizes of topic and payload whose sum does
-- not wrap round, and two different paths that are there, keeps the store valid. A directory and a
-- file give -ENOTDIR or -EISDIR with nothing changed. Where the client refuses the message of the
-- first file, the answer is -EIO, and tree, nodes and messages are what they were. Else the answer
-- is 0: the second path leads to the first's node, the first path nowhere and every other path
-- where it did; the node that was replaced is freed, a file's payload is queued under the new path.
-- Each call of `MqttCancel` that gets the lock of the queue cancels what is queued under the old
-- path; one is made for a file, and one in each case. Other messages stay.
pub mqttfs_rename-replaces :
    (a : RenameAnswers) (from to : List ℕ) (c : Context) (m : Mqtt) (f g : Found)
    → IsValid c
    → c.mqtt ≡ some m
    → a.locked ≡ true
    → lookup c (path_text from) ≡ some f
    → lookup c (path_text to) ≡ some g
    → path_text from ≢ path_text to
    → CanPublish a.published g.found.path f.found m
    → (r : Ret) × (c' : Context) × (mqttfs_rename a from to 0 c ≡ some (r, c'))
      × IsValid c'
      × ReplaceOutcome a from to c m f g r c' f.found.is_dir g.found.is_dir (is_taken a f g m)
mqttfs_rename-replaces a from to c m f g v q l e k ne w =
    let o =
      replace-Result a from to c m f g v q l e k ne w
        (exchange-Exchanging a from to c m f g v q l e k ne w) in
    (o.result, o.after, o.returns, o.valid, o.outcome)
