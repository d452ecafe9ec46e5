-- ===== src/Queue.antt =====
-- The message queue of mqtt.c: `MqttPublish` and `MqttCancel`. The answers of the system are
-- arguments. Times are in milliseconds; `CLOCK_MONOTONIC` and the holdback are not negative.
pub mod Publish
pub mod Cancel
pub mod Drain
use mqttfs.Base.{
  ℕ, zero, suc, ◌+◌, ◌%◌, ◌^◌, List, [], ◌∷◌, ◌++◌, Bool, true, false, not, ◌&&◌, Option, none,
  some, Ordering, ◌==◌, ltb, if◌then◌else◌, length, take,
}
use mqttfs.Str.{Str, str_copy, str_compare}
use mathlib.Core.Option

-- `is_owned` says that the memory behind `topic` and `payload` has not been freed.
pub record MqttMessage : Type 0 where
  pub timestamp : ℕ
  pub topic : Str
  pub payload : List ℕ
  pub payload_len : ℕ
  pub is_owned : Bool

-- `messages` holds the first `messages_size` elements of the array, `wakeups` counts the tokens that
-- were written to the pipe.
pub record Mqtt : Type 0 where
  pub keepalive : ℕ
  pub holdback : ℕ
  pub last_timestamp : ℕ
  pub messages : List MqttMessage
  pub messages_alloc : ℕ
  pub is_running : Bool
  pub wakeups : ℕ

-- What the system answers to one call of `MqttPublish`: the clock (0 if it failed), and whether the
-- mutex was locked, the array was grown, the topic and the payload were copied, the pipe was written.
pub record PublishAnswers : Type 0 where
  pub now : ℕ
  pub locked : Bool
  pub grown : Bool
  pub topic_copied : Bool
  pub payload_allocated : Bool
  pub woken : Bool

abbrev pub size_max : ℕ
size_max = 2 ^ 64

abbrev pub max_topic : ℕ
max_topic = 65535

abbrev pub max_message : ℕ
max_message = 268435455

unfoldable pub wake_io_thread : Bool → Mqtt → Mqtt
wake_io_thread woken m = if woken then record m { wakeups = m.wakeups + 1 } else m

-- Grows the array by one element if it is full; the answer says whether there is room now.
unfoldable pub make_room : Bool → Mqtt → Bool × Mqtt
make_room grown m =
    if length m.messages == m.messages_alloc
    then (if grown then (true, record m { messages_alloc = m.messages_alloc + 1 }) else (false, m))
    else (true, m)

-- The two copies, and the message put behind the others.
unfoldable pub append_message : PublishAnswers → Option Str → List ℕ → ℕ → Mqtt → Bool × Mqtt
unfolding wake_io_thread
append_message a none payload payload_len m = (false, m)
append_message a (some topic) payload payload_len m =
    if a.payload_allocated
    then (
      true,
      wake_io_thread a.woken (record m {
        messages =
            m.messages
            ++ record {
              timestamp = a.now + m.holdback;
              topic = topic;
              payload = take payload_len payload;
              payload_len = payload_len;
              is_owned = true;
            }
              ∷ [];
      }),
    )
    else (false, m)

unfoldable pub append_in_room : PublishAnswers → Str → List ℕ → ℕ → Bool × Mqtt → Bool × Mqtt
unfolding append_message
append_in_room a topic payload payload_len (false, m) = (false, m)
append_in_room a topic payload payload_len (true, m) =
    append_message a (str_copy a.topic_copied topic) payload payload_len m

-- The sum of sizes is a `size_t`, which wraps round.
unfoldable pub mqtt_publish : PublishAnswers → Str → List ℕ → ℕ → Mqtt → Bool × Mqtt
unfolding make_room append_in_room
mqtt_publish a topic payload payload_len m =
    if ltb max_topic topic.size
    then (false, m)
    else if ltb max_message ((2 + topic.size + payload_len) % size_max)
    then (false, m)
    else if not m.is_running
    then (false, m)
    else if a.now == 0
    then (false, m)
    else if not a.locked
    then (false, m)
    else append_in_room a topic payload payload_len (make_room a.grown m)

abbrev pub is_equal : Ordering → Bool
is_equal Ordering.eq = true
is_equal _ = false

-- The loop of `MqttCancel`: what it leaves of the messages from `index` on. `none` is a read of
-- freed memory: topics of different sizes are told apart without their bytes.
unfoldable pub cancel_loop : Str → List MqttMessage → Option (List MqttMessage)
cancel_loop topic [] = some []
cancel_loop topic (iter ∷ later) =
    let rest = cancel_loop topic later in
    if not iter.is_owned && iter.topic.size == topic.size
    then none
    else if is_equal (str_compare iter.topic topic)
    then rest
    else Option.map (λ l. iter ∷ l) rest

unfoldable pub mqtt_cancel : Bool → Str → Mqtt → Option Mqtt
unfolding cancel_loop
mqtt_cancel locked topic m =
    if locked
    then Option.map (λ l. record m { messages = l }) (cancel_loop topic m.messages)
    else some m
