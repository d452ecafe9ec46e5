-- ===== src/Fs/Data/Laws.antt =====
-- `MqttfsWrite` against the node and the message queue, and what `MqttfsRead` finds afterwards.
use mqttfs.Base.{
  ℕ, ◌≤◌, List, [], ◌∷◌, ◌++◌, Bool, true, false, ◌&&◌, Option, none, some, ◌≡◌, inl, inr, refl, ap,
  ◌∙◌, arith, if◌then◌else◌, take, min, ltb, ◌^◌, length, length-take, take-take, Bool-cases,
  Option-cases,
}
use mqttfs.Node.{Timespec, Node, with_data}
use mqttfs.Node.Update.{IsNode}
use mqttfs.Queue.{Mqtt, mqtt_publish}
use mqttfs.Queue.Publish.{is_accepted, message_for, mqtt_publish_lem}
use mqttfs.Store.{Context, Ret, load, store, ok, err, eio}
use mqttfs.Store.Search.{IsValid}
use mqttfs.Store.Replace.{replaced, IsValid-replaced, IsValid-mqtt}
use mathlib.Core.Option
use mqttfs.Fs.Data.{WriteAnswers, int_of, mqttfs_read, mqttfs_write}

abbrev pub is_some : Option Timespec → Bool
is_some none = false
is_some (some now) = true

abbrev is_reached : WriteAnswers → Bool
is_reached a = is_some a.clock && a.locked && a.allocated

-- The system grants what a write asks for, and the client takes the message.
abbrev pub is_written : WriteAnswers → Node → ℕ → Mqtt → Bool
is_written a n size m =
    is_some a.clock && a.locked && a.allocated && is_accepted a.published n.path size m

-- The answer that tells a count of bytes: the count, if an `int` holds it.
abbrev pub told : ℕ → Ret
told size = if ltb size (2 ^ 31) then ok size else int_of size

int_of-told : (size : ℕ) → int_of size ≡ told size
int_of-told size = ground arith

module _ (a : WriteAnswers) (fh : ℕ) (bytes : List ℕ) (size offset : ℕ) (c : Context) (n : Node)
    (m : Mqtt) (e : c.nodes fh ≡ some n) (q : c.mqtt ≡ some m) where
  abbrev published : Mqtt
  published = (mqtt_publish a.published n.path bytes size m).1

  write_done :
      (now : Timespec)
      → a.clock ≡ some now
      → is_written a n size m ≡ true
      → mqttfs_write a fh bytes size offset c
        ≡ some (
          told size,
          record (replaced c fh (with_data now bytes size n)) { mqtt = some published },
        )
  unfolding mqttfs_write load store
  write_done now k w =
      ground
        (arith, e, q, k, w, (mqtt_publish_lem a.published n.path bytes size m).0, int_of-told size)

  write_unreached : is_reached a ≡ false → mqttfs_write a fh bytes size offset c ≡ some (err eio, c)
  unfolding mqttfs_write load store
  write_unreached w = ground (arith, w)

  write_refused :
      is_reached a ≡ true
      → is_written a n size m ≡ false
      → mqttfs_write a fh bytes size offset c ≡ some (err eio, record c { mqtt = some published })
  unfolding mqttfs_write load store
  write_refused k w =
      ground (arith, e, q, k, w, (mqtt_publish_lem a.published n.path bytes size m).0)

-- Either the node has the new bytes and the queue the message, or both are what they were.
abbrev pub WriteOutcome :
    WriteAnswers → ℕ → List ℕ → ℕ → Context → Node → Mqtt → Mqtt → Context → Bool → Type 0
WriteOutcome a fh bytes size c n m m' c' true =
    (m'.messages ≡ m.messages ++ message_for a.published n.path bytes size m ∷ [])
    × (now : Timespec) × (a.clock ≡ some now)
    × (c' ≡ record (replaced c fh (with_data now bytes size n)) { mqtt = some m' })
WriteOutcome a fh bytes size c n m m' c' false =
    (m'.messages ≡ m.messages) × (c' ≡ record c { mqtt = some m' })

record Outcome (a : WriteAnswers) (fh : ℕ) (bytes : List ℕ) (size offset : ℕ) (c : Context)
    (n : Node) (m : Mqtt) (written : Bool) : Type 0 where
  after : Context
  queue : Mqtt
  returns :
      mqttfs_write a fh bytes size offset c ≡ some (if written then told size else err eio, after)
  valid : IsValid after
  outcome : WriteOutcome a fh bytes size c n m queue after written

module _ (a : WriteAnswers) (fh : ℕ) (bytes : List ℕ) (size offset : ℕ) (c : Context) (n : Node)
    (m : Mqtt) (v : IsValid c) (e : c.nodes fh ≡ some n) (q : c.mqtt ≡ some m) (g : IsNode n)
    (h : size ≤ length bytes) where
  write_true : is_written a n size m ≡ true → Outcome a fh bytes size offset c n m true
  write_true w = elim (Option-cases a.clock) [
    | inl k ↦ absurd (ground (arith, k, w))
    | inr (now, k) ↦ record {
      after = record (replaced c fh (with_data now bytes size n)) {
        mqtt = some (published a fh bytes size offset c n m e q);
      };
      queue = published a fh bytes size offset c n m e q;
      returns = write_done a fh bytes size offset c n m e q now k w;
      valid = IsValid-mqtt _ _ (
          IsValid-replaced c fh n (with_data now bytes size n) v e refl (record {
            path_there = g.path_there;
            content_size = omega (arith, length-take size bytes);
          }));
      outcome =
          (ground (arith, w, (mqtt_publish_lem a.published n.path bytes size m).1), now, k, refl);
    }
  ]

  write_false : is_written a n size m ≡ false → Outcome a fh bytes size offset c n m false
  write_false w = elim (Bool-cases (is_reached a)) [
    | inl k ↦ record {
      after = record c { mqtt = some (published a fh bytes size offset c n m e q) };
      queue = published a fh bytes size offset c n m e q;
      returns = write_refused a fh bytes size offset c n m e q k w;
      valid = IsValid-mqtt c _ v;
      outcome = (ground (arith, w, k, (mqtt_publish_lem a.published n.path bytes size m).1), refl);
    }
    | inr k ↦ record {
      after = c;
      queue = m;
      returns = write_unreached a fh bytes size offset c n m e q k;
      valid = v;
      outcome = (refl, ap (λ o. record c { mqtt = o }) q);
    }
  ]

  write_by :
      (written : Bool)
      → is_written a n size m ≡ written
      → Outcome a fh bytes size offset c n m written
  write_by true w = write_true w
  write_by false w = write_false w

-- A write through a handle to a node of the memory, with a client, on a valid store: it answers the
-- count of bytes, or what `int` makes of it from 2^31 on, exactly if the system grants what it asks
-- for and the client takes the message, and else -EIO. Then the node has the new bytes and the
-- current time and the queue has the message with the node's path at its end; otherwise the nodes
-- and the messages are what they were. The store stays valid in each case. The offset plays no
-- part.
pub mqttfs_write_lem :
    (a : WriteAnswers) (fh : ℕ) (bytes : List ℕ) (size offset : ℕ) (c : Context) (n : Node)
    (m : Mqtt)
    → IsValid c
    → c.nodes fh ≡ some n
    → c.mqtt ≡ some m
    → IsNode n
    → size ≤ length bytes
    → (c' : Context) × (m' : Mqtt) × (mqttfs_write a fh bytes size offset c
        ≡ some (if is_written a n size m then told size else err eio, c'))
      × IsValid c'
      × WriteOutcome a fh bytes size c n m m' c' (is_written a n size m)
mqttfs_write_lem a fh bytes size offset c n m v e q g h =
    let o = write_by a fh bytes size offset c n m v e q g h (is_written a n size m) refl in
    (o.after, o.queue, o.returns, o.valid, o.outcome)

read_run :
    (later : Timespec) (fh want : ℕ) (c : Context) (n : Node)
    → c.nodes fh ≡ some n
    → Option.map (λ x. x.0) (mqttfs_read (some later) true fh want 0 c)
      ≡ some (told (min want n.size), take (min want n.size) n.content)
unfolding mqttfs_read load store
read_run later fh want c n e = ground (arith, e, int_of-told (min want n.size))

-- After a write through a handle to a node of the memory, with a client, that the system grants and
-- the client takes, a read through the handle at the start gives the bytes that were written, as
-- many as are asked for and there; both answer their counts of bytes, or what `int` makes of them
-- from 2^31 on.
pub mqttfs_write-read :
    (a : WriteAnswers) (fh : ℕ) (bytes : List ℕ) (size offset want : ℕ) (later : Timespec)
    (c : Context) (n : Node) (m : Mqtt)
    → c.nodes fh ≡ some n
    → c.mqtt ≡ some m
    → is_written a n size m ≡ true
    → (c' : Context) × (mqttfs_write a fh bytes size offset c ≡ some (told size, c'))
      × (Option.map (λ x. x.0) (mqttfs_read (some later) true fh want 0 c')
          ≡ some (told (min want size), take (min want size) bytes))
mqttfs_write-read a fh bytes size offset want later c n m e q w = elim (Option-cases a.clock) [
  | inl k ↦ absurd (ground (arith, k, w))
  | inr (now, k) ↦ (
    record (replaced c fh (with_data now bytes size n)) {
      mqtt = some (published a fh bytes size offset c n m e q);
    },
    write_done a fh bytes size offset c n m e q now k w,
    read_run later fh want _ (with_data now bytes size n) (ground (arith, e))
        ∙ ap (λ t. some (told (min want size), t))
            (take-take (min want size) size bytes (omega arith)),
  )
]
