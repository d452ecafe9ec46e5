-- ===== src/Queue/Drain.antt =====
-- `DrainMessages` of mqtt.c. An element of the array takes 40 bytes, as on a 64-bit machine.
pub mod Sent
pub mod Whole
pub mod Torn
use mqttfs.Base.{
  ℕ, zero, suc, ◌+◌, ◌-◌, ◌%◌, ◌^◌, List, [], ◌∷◌, Bool, true, false, not, Option, none, some, ltb,
  ◌==◌, if◌then◌else◌, length, drop, take,
}
use mqttfs.Wire.{Socket, send_publish_message}
use mqttfs.Queue.{MqttMessage, Mqtt}
use mathlib.Core.Option

-- How the loop that sends ended: `counter` messages were sent, and whether no sending failed.
pub record Sending : Type 0 where
  pub counter : ℕ
  pub complete : Bool
  pub socket : Socket

-- The sizes are cut to a `uint16_t` and a `uint32_t`. `none` is a read of freed memory.
unfoldable pub send_message : Option ℕ → MqttMessage → Socket → Option (Bool × Socket)
send_message k iter s =
    if not iter.is_owned
    then none
    else send_publish_message k iter.topic.chars (iter.topic.size % 2 ^ 16) iter.payload
        (iter.payload_len % 2 ^ 32) s

abbrev pub on_sent : ℕ → (Socket → Option Sending) → Option (Bool × Socket) → Option Sending
on_sent counter again none = none
on_sent counter again (some (false, s)) =
    some (record { counter = counter; complete = false; socket = s })
on_sent counter again (some (true, s)) = again s

-- `writev` has the system's answers by the count of messages that were sent before.
unfoldable pub send_due : (ℕ → Option ℕ) → ℕ → ℕ → List MqttMessage → Socket → Option Sending
unfolding send_message
send_due writev now counter [] s = some (record { counter = counter; complete = true; socket = s })
send_due writev now counter (iter ∷ later) s =
    if ltb now iter.timestamp
    then some (record { counter = counter; complete = true; socket = s })
    else on_sent counter (λ s'. send_due writev now (suc counter) later s')
        (send_message (writev counter) iter s)

-- The loop that frees the messages that were sent; a second free is a fault.
unfoldable pub free_sent : ℕ → List MqttMessage → Option (List MqttMessage)
free_sent zero messages = some messages
free_sent (suc counter) [] = none
free_sent (suc counter) (iter ∷ later) =
    let rest = free_sent counter later in
    if not iter.is_owned then none else Option.map (λ l. record iter { is_owned = false } ∷ l) rest

abbrev pub element_size : ℕ
element_size = 40

-- What an element is after the given number of bytes of another, fewer than all, were laid over it:
-- the sources do not say how its fields stand in memory.
abbrev pub Torn : Type 0
Torn = ℕ → MqttMessage → MqttMessage → MqttMessage

-- `memmove(to, from, bytes)`, with both as lists of elements.
unfoldable pub move_bytes : Torn → ℕ → List MqttMessage → List MqttMessage → List MqttMessage
move_bytes torn bytes [] to = to
move_bytes torn bytes (s ∷ from) [] = []
move_bytes torn bytes (s ∷ from) (d ∷ to) =
    let rest = move_bytes torn (bytes - element_size) from to in
    if bytes == 0 then d ∷ to else if ltb bytes element_size then torn bytes s d ∷ to else s ∷ rest

-- The array behind the first `counter` elements is to come to its front.
unfoldable pub shift : Torn → ℕ → List MqttMessage → List MqttMessage
unfolding move_bytes
shift torn counter messages =
    take (length messages - counter)
      (move_bytes torn (length messages - counter) (drop counter messages) messages)

-- The timestamp to wait for: `INT64_MAX` where nothing is left.
abbrev pub next_of : List MqttMessage → ℕ
next_of [] = 2 ^ 63 - 1
next_of (iter ∷ later) = iter.timestamp

unfoldable pub remove_sent : Torn → ℕ → ℕ → Mqtt → Option Mqtt
unfolding free_sent shift
remove_sent torn now counter m =
    if counter == 0
    then some m
    else Option.map (λ l. record m { messages = shift torn counter l; last_timestamp = now })
        (free_sent counter m.messages)

-- The answer: -1, or the timestamp to wait for.
pub data Drained : Type 0 where
  failed : Drained
  wait : ℕ → Drained

abbrev pub after_sending : Torn → ℕ → Mqtt → Sending → Option (Drained × Mqtt × Socket)
after_sending torn now m r =
    if not r.complete
    then some (failed, m, r.socket)
    else Option.map (λ m'. (wait (next_of m'.messages), m', r.socket))
        (remove_sent torn now r.counter m)

unfoldable pub drain_messages :
    Torn → Bool → (ℕ → Option ℕ) → ℕ → Mqtt → Socket → Option (Drained × Mqtt × Socket)
unfolding send_due remove_sent
drain_messages torn locked writev now m s =
    if not locked then some (failed, m, s) else elim (send_due writev now 0 m.messages s) [
      | none ↦ none
      | some r ↦ after_sending torn now m r
    ]
