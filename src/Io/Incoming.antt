-- ===== src/Io/Incoming.antt =====
-- What `IoThread` sends takes nothing from the bytes that it is to read.
use mqttfs.Base.{
  ℕ, suc, ◌+◌, ◌%◌, ◌^◌, List, [], ◌∷◌, Bool, true, false, Option, none, some, ltb, ◌≡◌, inl, inr,
  refl, ◌∙◌, Bool-cases,
}
use mathlib.Core.Option
use mqttfs.Wire.{
  encode_length, send_iov, Socket, send_ping_message, send_publish_message, write_all, write,
}
use mqttfs.Queue.{MqttMessage, Mqtt}
use mqttfs.Queue.Drain.{
  Torn, Drained, wait, drain_messages, send_due, send_message, on_sent, after_sending, remove_sent,
  next_of, Sending,
}

-- Sending takes nothing from the other direction.
pub write_all-incoming :
    (k : Option ℕ) (bytes : List ℕ) (s : Socket) → (write_all k bytes s).1.incoming ≡ s.incoming
unfolding write_all write
write_all-incoming none bytes s = refl
write_all-incoming (some k) bytes s = refl

pub ping_incoming : (k : Option ℕ) (s : Socket) → (send_ping_message k s).1.incoming ≡ s.incoming
unfolding send_ping_message
ping_incoming k s = write_all-incoming k _ s

abbrev KeepsIncoming {ℓ} : {A : Type ℓ} → Socket → Option (A × Socket) → Type 0
KeepsIncoming s none = Unit
KeepsIncoming s (some (x, s')) = s'.incoming ≡ s.incoming

send_iov-Keeps :
    (k : Option ℕ) (digits : Option (List ℕ)) (packet : List ℕ → List ℕ) (s : Socket)
    → KeepsIncoming s (send_iov k digits packet s)
send_iov-Keeps k none packet s = tt
send_iov-Keeps k (some []) packet s = refl
send_iov-Keeps k (some (d ∷ ds)) packet s = write_all-incoming k (packet (d ∷ ds)) s

send_message-Keeps :
    (k : Option ℕ) (q : MqttMessage) (s : Socket) → KeepsIncoming s (send_message k q s)
unfolding send_message send_publish_message
send_message-Keeps k q s = elim (Bool-cases q.is_owned) [
  | inl o ↦ rw o (
      send_iov-Keeps k
        (encode_length ((2 + q.topic.size % 2 ^ 16 + q.payload_len % 2 ^ 32) % 2 ^ 32)) _ s)
  | inr o ↦ rw o tt
]

abbrev SendingKeeps : Socket → Option Sending → Type 0
SendingKeeps s none = Unit
SendingKeeps s (some r) = r.socket.incoming ≡ s.incoming

on_sent-Keeps :
    (counter : ℕ) (again : Socket → Option Sending) (s : Socket) (o : Option (Bool × Socket))
    → KeepsIncoming s o
    → ((s' : Socket) → SendingKeeps s' (again s'))
    → SendingKeeps s (on_sent counter again o)
on_sent-Keeps counter again s none k f = tt
on_sent-Keeps counter again s (some (false, s')) k f = k
on_sent-Keeps counter again s (some (true, s')) k f = through (again s') (f s')
  where
    through : (o : Option Sending) → SendingKeeps s' o → SendingKeeps s o
    through none h = tt
    through (some r) h = h ∙ k

send_due-Keeps :
    (writev : ℕ → Option ℕ) (now counter : ℕ) (ms : List MqttMessage) (s : Socket)
    → SendingKeeps s (send_due writev now counter ms s)
unfolding send_due
send_due-Keeps writev now counter [] s = refl
send_due-Keeps writev now counter (q ∷ qs) s = elim (Bool-cases (ltb now q.timestamp)) [
  | inl t ↦ rw t refl
  | inr t ↦ rw t (
      on_sent-Keeps counter (λ s'. send_due writev now (suc counter) qs s') s
        (send_message (writev counter) q s) (send_message-Keeps (writev counter) q s)
        (send_due-Keeps writev now (suc counter) qs))
]

abbrev pub DrainKeeps : Socket → Option (Drained × Mqtt × Socket) → Type 0
DrainKeeps s none = Unit
DrainKeeps s (some (d, m, s')) = s'.incoming ≡ s.incoming

after_sending-Keeps :
    (torn : Torn) (now : ℕ) (m : Mqtt) (r : Sending) (s : Socket)
    → r.socket.incoming ≡ s.incoming
    → DrainKeeps s (after_sending torn now m r)
after_sending-Keeps torn now m r s e = elim (Bool-cases r.complete) [
  | inr c ↦ rw c e
  | inl c ↦ rw c (removed_by (remove_sent torn now r.counter m))
]
  where
    removed_by :
        (o : Option Mqtt)
        → DrainKeeps s (Option.map (λ m'. (wait (next_of m'.messages), m', r.socket)) o)
    removed_by none = tt
    removed_by (some m') = e

pub drain_messages-Keeps :
    (torn : Torn) (locked : Bool) (writev : ℕ → Option ℕ) (now : ℕ) (m : Mqtt) (s : Socket)
    → DrainKeeps s (drain_messages torn locked writev now m s)
unfolding drain_messages
drain_messages-Keeps torn false writev now m s = refl
drain_messages-Keeps torn true writev now m s =
    sent_by (send_due writev now 0 m.messages s) (send_due-Keeps writev now 0 m.messages s)
  where
    sent_by :
        (o : Option Sending)
        → SendingKeeps s o
        → DrainKeeps s (elim o [ none ↦ none | some r ↦ after_sending torn now m r ])
    sent_by none h = tt
    sent_by (some r) h = after_sending-Keeps torn now m r s h
