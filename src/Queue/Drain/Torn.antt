-- ===== src/Queue/Drain/Torn.antt =====
-- `DrainMessages` where a part of the queue is due: what the missing factor in its `memmove` does.
use mqttfs.Base.{
  ℕ, zero, suc, ◌+◌, ◌-◌, ◌≤◌, ◌<◌, List, [], ◌∷◌, true, false, Option, none, some, length,
  length-drop, drop, take, All, ◌≡◌, refl, ◌∙◌, sym, ap, arith,
}
use mqttfs.Str.{Str}
use mqttfs.Wire.{Socket}
use mqttfs.Queue.{MqttMessage, Mqtt, mqtt_cancel, cancel_loop}
use mqttfs.Queue.Publish.{IsQueued, IsValid}
use mqttfs.Queue.Drain.{
  send_due, free_sent, move_bytes, shift, remove_sent, next_of, wait, Torn, drain_messages,
}
use mqttfs.Queue.Drain.Sent.{due, TakesAll, sent_due, send_due-zero}

-- The fields behind the timestamp are not reached by the first eight bytes.
abbrev pub KeepsOthers : Torn → Type 0
KeepsOthers torn =
    (n : ℕ) (s d : MqttMessage)
    → n ≤ 8
    → ((torn n s d).is_owned ≡ d.is_owned) × ((torn n s d).topic ≡ d.topic)

-- A message with the topic is the first, and its memory is freed.
abbrev pub HeadFreed : Str → List MqttMessage → Type 0
HeadFreed topic [] = ⊥
HeadFreed topic (q ∷ qs) = (q.is_owned ≡ false) × (q.topic ≡ topic)

-- Some are freed, so the first is.
free_sent_lem :
    (n : ℕ) (ms : List MqttMessage)
    → n ≤ length ms
    → All IsQueued ms
    → (l : List MqttMessage) × (free_sent n ms ≡ some l) × (length l ≡ length ms)
unfolding free_sent
free_sent_lem zero ms h w = (ms, refl, refl)
free_sent_lem (suc n) [] h w = absurd (omega arith)
free_sent_lem (suc n) (q ∷ qs) h (wq, ws) =
    let (l, e, k) = free_sent_lem n qs (omega arith) ws in
    (record q { is_owned = false } ∷ l, ground (arith, e, wq.owned), omega (arith, k))

first_freed :
    (n : ℕ) (q : MqttMessage) (qs l : List MqttMessage)
    → 0 < n
    → free_sent n (q ∷ qs) ≡ some l
    → HeadFreed q.topic l
unfolding free_sent
first_freed zero q qs l h e = absurd (omega arith)
first_freed (suc n) q qs [] h e = ground (arith, e)
first_freed (suc n) q qs (x ∷ l) h e = (ground (arith, e), ground (arith, e))

move_small :
    (torn : Torn) (b : ℕ) (s d : MqttMessage) (from to : List MqttMessage)
    → b < 8
    → move_bytes torn (suc b) (s ∷ from) (d ∷ to) ≡ torn (suc b) s d ∷ to
unfolding move_bytes
move_small torn b s d from to h = ground arith

moved-head :
    (topic : Str) (torn : Torn) (bytes : ℕ) (from l : List MqttMessage)
    → KeepsOthers torn
    → HeadFreed topic l
    → 0 < length from
    → 0 < bytes
    → bytes ≤ 8
    → HeadFreed topic (take bytes (move_bytes torn bytes from l))
moved-head topic torn bytes [] l k f a b c = absurd (omega arith)
moved-head topic torn bytes (s ∷ from) [] k f a b c = absurd f
moved-head topic torn zero (s ∷ from) (d ∷ to) k f a b c = absurd (omega arith)
moved-head topic torn (suc n) (s ∷ from) (d ∷ to) k f a b c =
    rw (move_small torn n s d from to (omega arith))
      ((k (suc n) s d c).0 ∙ f.0, (k (suc n) s d c).1 ∙ f.1)

shift-head :
    (topic : Str) (torn : Torn) (n : ℕ) (l : List MqttMessage)
    → KeepsOthers torn
    → HeadFreed topic l
    → n < length l
    → length l ≤ n + 8
    → HeadFreed topic (shift torn n l)
unfolding shift
shift-head topic torn n l k f a b =
    moved-head topic torn (length l - n) (drop n l) l k f (omega (arith, length-drop n l))
      (omega arith) (omega arith)

cancel_loop-freed :
    (topic other : Str) (l : List MqttMessage)
    → HeadFreed topic l
    → other.size ≡ topic.size
    → cancel_loop other l ≡ none
unfolding cancel_loop
cancel_loop-freed topic other [] f e = absurd f
cancel_loop-freed topic other (q ∷ qs) (f, g) e =
    ground (arith, f, ap (λ (s : Str). s.size) g ∙ sym e)

cancel_freed :
    (topic other : Str) (m : Mqtt)
    → HeadFreed topic m.messages
    → other.size ≡ topic.size
    → mqtt_cancel true other m ≡ none
unfolding mqtt_cancel
cancel_freed topic other m f e = rw (cancel_loop-freed topic other m.messages f e)

drain_run :
    (torn : Torn) (writev : ℕ → Option ℕ) (now : ℕ) (m : Mqtt) (s s' : Socket) (n : ℕ)
    (l : List MqttMessage)
    → send_due writev now 0 m.messages s
      ≡ some (record { counter = n; complete = true; socket = s' })
    → 0 < n
    → free_sent n m.messages ≡ some l
    → (next : ℕ) × (drain_messages torn true writev now m s
        ≡ some (wait next, record m { messages = shift torn n l; last_timestamp = now }, s'))
unfolding drain_messages remove_sent
drain_run torn writev now m s s' n l e h f = (next_of (shift torn n l), ground (arith, e, f))

-- Where a part of the queue is due and at most eight messages stay, `DrainMessages` frees the topic
-- of its first message and leaves a message with that topic at the front of the queue. So every
-- `MqttCancel` right behind it, of a topic of the same size and with the lock, reads freed memory.
-- The queue was well formed and locked, the system took every packet, and the fields behind a
-- timestamp are not changed by eight bytes laid over the message.
pub drain_messages-tears :
    (torn : Torn) (writev : ℕ → Option ℕ) (now : ℕ) (m : Mqtt) (s : Socket) (first : MqttMessage)
    (later : List MqttMessage)
    → KeepsOthers torn
    → TakesAll writev
    → IsValid m
    → m.messages ≡ first ∷ later
    → 0 < length (due now m.messages)
    → length (due now m.messages) < length m.messages
    → length m.messages ≤ length (due now m.messages) + 8
    → (next : ℕ) × (m' : Mqtt) × (s' : Socket) × (drain_messages torn true writev now m s
        ≡ some (wait next, m', s'))
      × HeadFreed first.topic m'.messages
      × ((topic : Str) → topic.size ≡ first.topic.size → mqtt_cancel true topic m' ≡ none)
drain_messages-tears torn writev now m s first later k t v x a b c =
    let n : ℕ = length (due now m.messages) in
    let (l, f, same) = free_sent_lem n m.messages (omega arith) v.queued in
    let (next, e) =
      drain_run torn writev now m s (sent_due now m.messages s) n l
        (send_due-zero writev now m.messages s t v.queued) a f in
    let left : Mqtt = record m { messages = shift torn n l; last_timestamp = now } in
    let freed : HeadFreed first.topic left.messages =
      shift-head first.topic torn n l k
        (first_freed n first later l a (ap (free_sent n) (sym x) ∙ f)) (omega (arith, same))
        (omega (arith, same)) in
    (
      next,
      left,
      sent_due now m.messages s,
      e,
      freed,
      λ topic size. cancel_freed first.topic topic left freed size,
    )
