-- ===== src/Io/Delay.antt =====
-- How long a round of `IoThread` lets `poll` wait.
use mqttfs.Base.{
  ℕ, ◌+◌, ◌-◌, ◌%◌, ◌^◌, ◌≤◌, ◌<◌, ◌⊎◌, map, List, [], ◌∷◌, Bool, true, false, Option, none, some,
  not, if◌then◌else◌, ◌==◌, ltb, min, length, ◌≡◌, inl, inr, refl, sym, arith, Bool-cases,
}
use mqttfs.Wire.{Socket}
use mqttfs.Queue.{MqttMessage, Mqtt}
use mqttfs.Queue.Publish.{IsValid}
use mqttfs.Queue.Drain.{Torn, Drained, wait, drain_messages, next_of}
use mqttfs.Queue.Drain.Sent.{message_of, due, TakesAll}
use mqttfs.Queue.Drain.Whole.{drain_early, drain_messages-delivered}
use mqttfs.Stream.Chunks.{stream_of}
use mathlib.Core.List.{append-nil}
use mathlib.Core.Path.{subst}
use mqttfs.Io.{
  Timeout, millis, forever, timeout_until, Io, IoAnswers, Round, with_timeout, on_pinged,
  on_drained, is_ping_due, next_ping, wait_for, ping, io_round, leave, on_polled,
}

-- The comment in the source says: the delay is neither negative nor zero, and fits into 32 bits.
abbrev pub max_timeout : ℕ
max_timeout = 65535000

-- What a round lets `poll` wait for, if it calls it, is positive and at most the maximum.
abbrev IsDelay : Option Timeout → Type 0
IsDelay none = Unit
IsDelay (some (millis t)) = (0 < t) × (t ≤ max_timeout)
IsDelay (some forever) = ⊥

abbrev pub Waits : Option Round → Type 0
Waits none = Unit
Waits (some r) = IsDelay r.timeout

with_timeout-Waits :
    (t now : ℕ) (o : Option Round)
    → now < t
    → t ≤ now + max_timeout
    → Waits (with_timeout (timeout_until t now) o)
with_timeout-Waits t now none h k = tt
with_timeout-Waits t now (some r) h k = rw (exact, in_range) (omega arith, omega arith)
  where
    exact : (t + 2 ^ 64 - now) % 2 ^ 32 ≡ t - now
    exact = omega arith

    in_range : ltb (t - now) (2 ^ 31) ≡ true
    in_range = ground arith

module _ (a : IoAnswers) (next : ℕ) (later : a.now < next) where
  wait_for-Waits :
      (io : Io)
      → a.now < next_ping io.client
      → next_ping io.client ≤ a.now + max_timeout
      → Waits (wait_for a next io)
  unfolding wait_for
  wait_for-Waits io h k =
      with_timeout-Waits (min (next_ping io.client) next) a.now (on_polled a io a.polled)
        (omega arith) (omega arith)

  on_pinged-Waits :
      (io : Io) (sent : Bool) (s : Socket)
      → 1 ≤ io.client.keepalive
      → io.client.keepalive ≤ 65535
      → Waits (on_pinged a next io (sent, s))
  on_pinged-Waits io false s h k = tt
  on_pinged-Waits io true s h k = wait_for-Waits _ (omega arith) (omega arith)

  ping-Waits :
      (io : Io)
      → 1 ≤ io.client.keepalive
      → io.client.keepalive ≤ 65535
      → io.client.last_timestamp ≤ a.now
      → Waits (ping a next io)
  unfolding ping
  ping-Waits io h k l = elim (Bool-cases (is_ping_due a.now io.client)) [
    | inr d ↦ rw d (wait_for-Waits io (ground arith) (omega arith))
    | inl d ↦ rw d (on_pinged-Waits io _ _ h k)
  ]

-- A drain that ends well leaves the keepalive, sets no time later than now, and the thread waits for
-- a time that has not come.
abbrev Times : Mqtt → ℕ → Option (Drained × Mqtt × Socket) → Type 0
Times m now none = Unit
Times m now (some (Drained.failed, m', s)) = Unit
Times m now (some (wait next, m', s)) =
    (m'.keepalive ≡ m.keepalive) × (m'.last_timestamp ≤ now) × (now < next)

on_drained-Waits :
    (a : IoAnswers) (io : Io) (o : Option (Drained × Mqtt × Socket))
    → 1 ≤ io.client.keepalive
    → io.client.keepalive ≤ 65535
    → Times io.client a.now o
    → Waits (on_drained a io o)
on_drained-Waits a io none h k t = tt
on_drained-Waits a io (some (Drained.failed, m, s)) h k t = tt
on_drained-Waits a io (some (wait next, m, s)) h k (same, past, later) =
    ping-Waits a next later (record io { client = m; socket = s }) (omega arith) (omega arith) past

not_due : (now : ℕ) (ms : List MqttMessage) → due now ms ≡ [] → now < 2 ^ 63 - 1 → now < next_of ms
not_due now [] e h = h
not_due now (q ∷ qs) e h = ground arith

-- Where nothing of the queue is due, or all of it.
abbrev pub IsClearCut : ℕ → List MqttMessage → Type 0
IsClearCut now ms = (due now ms ≡ []) ⊎ ((0 < length ms) × (due now ms ≡ ms))

drain_messages-Times :
    (torn : Torn) (locked : Bool) (writev : ℕ → Option ℕ) (now : ℕ) (m : Mqtt) (s : Socket)
    → TakesAll writev
    → IsValid m
    → now < 2 ^ 63 - 1
    → m.last_timestamp ≤ now
    → IsClearCut now m.messages
    → Times m now (drain_messages torn locked writev now m s)
drain_messages-Times torn false writev now m s t v u l h = unfold drain_messages in tt
drain_messages-Times torn true writev now m s t v u l (inl h) =
    subst (Times m now) (sym (drain_early torn writev now m s h))
      (refl, l, not_due now m.messages h u)
drain_messages-Times torn true writev now m s t v u l (inr (n, h)) =
    subst (Times m now)
      (sym
        (drain_messages-delivered torn writev now m s (stream_of (map message_of m.messages) ∷ []) t
          v n h (append-nil (stream_of (map message_of m.messages)))).0)
      (refl, omega arith, u)

guarded-Waits :
    (b : Bool) (io : Io) (o : Option Round)
    → Waits o
    → Waits (if not b then some (leave io []) else o)
guarded-Waits true io o w = w
guarded-Waits false io o w = tt

clock-Waits :
    (b : Bool) (io : Io) (o : Option Round) → Waits o → Waits (if b then some (leave io []) else o)
clock-Waits true io o w = tt
clock-Waits false io o w = w

-- As the comment in `IoThread` says, the delay that `poll` is given is neither negative nor zero and
-- fits into 32 bits: it is at most 65535000. That is so for a keepalive of an option, if the clock has
-- not gone back behind the last packet nor reached the largest `int64_t`, the queue is well formed, all
-- or nothing of it is due, and the system takes every packet.
pub io_round-Waits :
    (torn : Torn) (a : IoAnswers) (io : Io)
    → 1 ≤ io.client.keepalive
    → io.client.keepalive ≤ 65535
    → io.client.last_timestamp ≤ a.now
    → a.now < 2 ^ 63 - 1
    → IsValid io.client
    → IsClearCut a.now io.client.messages
    → TakesAll a.writev
    → Waits (io_round torn a io)
unfolding io_round
io_round-Waits torn a io h k l u v c t = guarded-Waits io.client.is_running io _ (
    clock-Waits (a.now == 0) io _ (
      on_drained-Waits a io _ h k
        (drain_messages-Times torn a.queue_locked a.writev a.now io.client io.socket t v u l c)))
