-- ===== src/Queue/Drain/Whole.antt =====
-- `DrainMessages` where the whole queue is due, or nothing of it, and what the reader of the socket
-- makes of what is sent.
use mqttfs.Base.{
  ℕ, ◌-◌, ◌^◌, ◌<◌, List, [], ◌∷◌, ◌++◌, true, false, Option, some, length, length-take, drop, take,
  All, map, Bool, if◌then◌else◌, ◌≡◌, refl, sym, ap, ◌∙◌, arith,
}
use mqttfs.Wire.{Socket}
use mqttfs.Stream.{receive_all, running}
use mqttfs.Stream.Chunks.{stream_of, IsSendable, observe, joined, chunks_delivered}
use mqttfs.Queue.{MqttMessage, Mqtt}
use mqttfs.Queue.Publish.{IsQueued, IsValid}
use mqttfs.Queue.Drain.{
  Sending, send_due, free_sent, move_bytes, shift, remove_sent, next_of, wait, failed, Torn,
  drain_messages,
}
use mqttfs.Queue.Drain.Sent.{message_of, due, TakesAll, send_due-zero}

free_all :
    (ms : List MqttMessage)
    → All IsQueued ms
    → (l : List MqttMessage) × (free_sent (length ms) ms ≡ some l) × (length l ≡ length ms)
unfolding free_sent
free_all [] w = ([], refl, refl)
free_all (q ∷ qs) (wq, ws) =
    let (l, e, k) = free_all qs ws in
    (record q { is_owned = false } ∷ l, ground (arith, e, wq.owned), omega (arith, k))

shift_all : (torn : Torn) (l : List MqttMessage) (n : ℕ) → length l ≡ n → shift torn n l ≡ []
unfolding shift
shift_all torn l n e = ap (λ k. take k (move_bytes torn (length l - n) (drop n l) l)) none_left
  where
    none_left : length l - n ≡ 0
    none_left = omega (arith, e)

Sendable-all : (ms : List MqttMessage) → All IsQueued ms → All IsSendable (map message_of ms)
Sendable-all [] w = tt
Sendable-all (q ∷ qs) (wq, ws) = (
  (
    omega (arith, wq.topic_fits, wq.topic_there, length-take q.topic.size q.topic.chars),
    omega
        (arith, wq.fits, wq.payload_there, wq.topic_there, length-take q.topic.size q.topic.chars),
  ),
  Sendable-all qs ws,
)

drain_run :
    (torn : Torn) (writev : ℕ → Option ℕ) (now : ℕ) (m : Mqtt) (s s' : Socket) (n : ℕ)
    (l : List MqttMessage)
    → send_due writev now 0 m.messages s
      ≡ some (record { counter = n; complete = true; socket = s' })
    → free_sent n m.messages ≡ some l
    → 0 < n
    → shift torn n l ≡ []
    → drain_messages torn true writev now m s
      ≡ some (wait (2 ^ 63 - 1), record m { messages = []; last_timestamp = now }, s')
unfolding drain_messages remove_sent
drain_run torn writev now m s s' n l e f h z = ground (arith, e, f, z)

drain_nothing :
    (torn : Torn) (writev : ℕ → Option ℕ) (now : ℕ) (m : Mqtt) (s s' : Socket)
    → send_due writev now 0 m.messages s
      ≡ some (record { counter = 0; complete = true; socket = s' })
    → drain_messages torn true writev now m s ≡ some (wait (next_of m.messages), m, s')
unfolding drain_messages remove_sent
drain_nothing torn writev now m s s' e = ground (arith, e)

abbrev all_sent : ℕ → List ℕ → Socket → Option Sending
all_sent n bytes s =
    some (record { counter = n; complete = true; socket = record s { sent = bytes } })

abbrev sent_of : Socket → List MqttMessage → Option Sending
sent_of s ms = all_sent (length ms) (s.sent ++ stream_of (map message_of ms)) s

send_early :
    (writev : ℕ → Option ℕ) (now : ℕ) (ms : List MqttMessage) (s : Socket)
    → due now ms ≡ []
    → send_due writev now 0 ms s ≡ some (record { counter = 0; complete = true; socket = s })
unfolding send_due
send_early writev now [] s e = refl
send_early writev now (q ∷ qs) s e = ground (arith, e)

pub drain_early :
    (torn : Torn) (writev : ℕ → Option ℕ) (now : ℕ) (m : Mqtt) (s : Socket)
    → due now m.messages ≡ []
    → drain_messages torn true writev now m s ≡ some (wait (next_of m.messages), m, s)
drain_early torn writev now m s e =
    drain_nothing torn writev now m s s (send_early writev now m.messages s e)

-- The time of the first message, or the largest `int64_t`.
abbrev pub first_time : List MqttMessage → ℕ
first_time [] = 2 ^ 63 - 1
first_time (q ∷ qs) = q.timestamp

next_of-first_time : (ms : List MqttMessage) → next_of ms ≡ first_time ms
next_of-first_time [] = refl
next_of-first_time (q ∷ qs) = refl

-- Where no message at the front of the queue is due, nothing is sent or changed, whatever the
-- system answers. With the lock the thread is told the time of the first message, or the latest
-- time there is where there is none; without it, the answer is -1.
pub drain_messages-early :
    (torn : Torn) (locked : Bool) (writev : ℕ → Option ℕ) (now : ℕ) (m : Mqtt) (s : Socket)
    → due now m.messages ≡ []
    → drain_messages torn locked writev now m s
      ≡ some (if locked then wait (first_time m.messages) else failed, m, s)
unfolding drain_messages
drain_messages-early torn true writev now m s e =
    drain_early torn writev now m s e
    ∙ ap (λ t. some (wait t, m, s)) (next_of-first_time m.messages)
drain_messages-early torn false writev now m s e = refl

-- With the lock, where all of a well-formed queue that is not empty is due and the system takes
-- every packet, `DrainMessages` answers the latest time there is, empties the queue and sends it,
-- and however the bytes are cut into reads, a client that reads them from its start gives its
-- callback exactly the messages of the queue, in their order.
pub drain_messages-delivered :
    (torn : Torn) (writev : ℕ → Option ℕ) (now : ℕ) (m : Mqtt) (s : Socket) (chunks : List (List ℕ))
    → TakesAll writev
    → IsValid m
    → 0 < length m.messages
    → due now m.messages ≡ m.messages
    → joined chunks ≡ stream_of (map message_of m.messages)
    → (drain_messages torn true writev now m s
        ≡ some (
          wait (2 ^ 63 - 1),
          record m { messages = []; last_timestamp = now },
          record s { sent = s.sent ++ joined chunks },
        ))
      × (map observe (receive_all (running []) chunks).1 ≡ map message_of m.messages)
drain_messages-delivered torn writev now m s chunks t v h e j =
    let (l, f, same) = free_all m.messages v.queued in
    (
      drain_run torn writev now m s (record s { sent = s.sent ++ joined chunks })
          (length m.messages) l
          (send_due-zero writev now m.messages s t v.queued
            ∙ ap (sent_of s) e
            ∙ ap (λ b. all_sent (length m.messages) (s.sent ++ b) s) (sym j))
          f h (shift_all torn l (length m.messages) same),
      (chunks_delivered (map message_of m.messages) chunks (Sendable-all m.messages v.queued) j).1,
    )
