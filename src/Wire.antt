-- ===== src/Wire.antt =====
-- mqtt_impl.c: the packets that the client writes, and the acknowledgements that it reads. A byte is
-- a number below 256. The kernel's answer to `write`, `writev` or `read` is an argument: `none` for
-- -1, or the count of bytes that it is ready to take or give.
pub mod Length
use Prim.Native.Nat.{min}
use mqttfs.Base.{
  ℕ, zero, suc, ◌+◌, ◌-◌, ◌*◌, ◌/◌, ◌%◌, ◌^◌, List, [], ◌∷◌, ◌++◌, Bool, true, false, ◌&&◌, Option,
  none, some, bit_and, bit_or, ◌==◌, ltb, if◌then◌else◌, length, take, drop,
}
use mathlib.Core.Option

-- A connected socket: what the peer has been sent, and what it sent that is not read yet.
pub record Socket : Type 0 where
  pub sent : List ℕ
  pub incoming : List ℕ

-- The system calls take at most as many bytes as there are.
unfoldable pub write : Option ℕ → List ℕ → Socket → Option ℕ × Socket
write none bytes s = (none, s)
write (some k) bytes s =
    (some (min k (length bytes)), record s { sent = s.sent ++ take (min k (length bytes)) bytes })

unfoldable pub read : Option ℕ → ℕ → Socket → Option (List ℕ) × Socket
read none size s = (none, s)
read (some k) size s =
    (some (take (min k size) s.incoming), record s { incoming = drop (min k size) s.incoming })

-- `== sizeof(…)` on the result of a system call
abbrev pub is_count : Option ℕ → ℕ → Bool
is_count none n = false
is_count (some k) n = k == n

unfoldable pub write_all : Option ℕ → List ℕ → Socket → Bool × Socket
unfolding write
write_all k bytes s = let (n, s') = write k bytes s in (is_count n (length bytes), s')

abbrev pub max_length : ℕ
max_length = 268435455

-- The loop of `EncodeLength`. The first argument is the room left in `digits[4]`; `none` is a write
-- past its end. The list holds the digits, so its length is the count that the source returns.
unfoldable pub encode_digits : ℕ → ℕ → Option (List ℕ)
encode_digits zero length = none
encode_digits (suc room) length =
    let digit = bit_and length 0x7f in
    let more = encode_digits room (length / 2 ^ 7) in
    if length / 2 ^ 7 == 0
    then some (digit ∷ [])
    else Option.map (λ ds. bit_or digit 0x80 ∷ ds) more

unfoldable pub encode_length : ℕ → Option (List ℕ)
unfolding encode_digits
encode_length length = if ltb max_length length then some [] else encode_digits 4 length

-- A 16-bit number in network order.
abbrev pub htons : ℕ → List ℕ
htons x = x / 256 % 256 ∷ x % 256 ∷ []

unfoldable pub connect_message : ℕ → List ℕ
connect_message keepalive =
    0x10 ∷ 12 ∷ htons 4 ++ (b'M' ∷ b'Q' ∷ b'T' ∷ b'T' ∷ 4 ∷ 0x02 ∷ []) ++ htons keepalive ++ htons 0

abbrev pub subscribe_message : List ℕ
subscribe_message = 0x82 ∷ 8 ∷ htons 1 ++ htons 3 ++ b'+' ∷ b'/' ∷ b'#' ∷ 0x00 ∷ []

abbrev pub ping_message : List ℕ
ping_message = 0xd0 ∷ 0 ∷ []

abbrev pub disconnect_message : List ℕ
disconnect_message = 0xe0 ∷ 0 ∷ []

unfoldable pub send_connect_message : Option ℕ → ℕ → Socket → Bool × Socket
unfolding write_all connect_message
send_connect_message k keepalive = write_all k (connect_message keepalive)

unfoldable pub send_subscribe_message : Option ℕ → Socket → Bool × Socket
unfolding write_all
send_subscribe_message k = write_all k subscribe_message

unfoldable pub send_ping_message : Option ℕ → Socket → Bool × Socket
unfolding write_all
send_ping_message k = write_all k ping_message

unfoldable pub send_disconnect_message : Option ℕ → Socket → Bool × Socket
unfolding write_all
send_disconnect_message k = write_all k disconnect_message

unfoldable pub is_connect_ack : List ℕ → Bool
is_connect_ack (packet_type ∷ message_length ∷ connack_flags ∷ return_code ∷ []) =
    packet_type == 0x20 && message_length == 2 && connack_flags == 0x00 && return_code == 0
is_connect_ack _ = false

-- The packet identifier is compared as it stands in memory, in network order.
unfoldable pub is_subscribe_ack : List ℕ → Bool
is_subscribe_ack (packet_type ∷ message_length ∷ id_high ∷ id_low ∷ return_code ∷ []) =
    packet_type == 0x90 && message_length == 3 && id_high == 0 && id_low == 1 && return_code == 0
is_subscribe_ack _ = false

abbrev accepts : (List ℕ → Bool) → Option (List ℕ) × Socket → Bool × Socket
accepts test (none, s) = (false, s)
accepts test (some bytes, s) = (test bytes, s)

unfoldable pub receive_connect_ack : Option ℕ → Socket → Bool × Socket
unfolding read is_connect_ack
receive_connect_ack k s = accepts is_connect_ack (read k 4 s)

unfoldable pub receive_subscribe_ack : Option ℕ → Socket → Bool × Socket
unfolding read is_subscribe_ack
receive_subscribe_ack k s = accepts is_subscribe_ack (read k 5 s)

-- What `SendPublishMessage` gathers in `iov`, with the digits of the length.
unfoldable pub publish_packet : List ℕ → List ℕ → ℕ → List ℕ → ℕ → List ℕ
publish_packet digits topic topic_size payload payload_size =
    0x30 ∷ digits ++ htons topic_size ++ take topic_size topic ++ take payload_size payload

abbrev pub send_iov :
    Option ℕ → Option (List ℕ) → (List ℕ → List ℕ) → Socket → Option (Bool × Socket)
send_iov k none packet s = none
send_iov k (some []) packet s = some (false, s)
send_iov k (some (d ∷ ds)) packet s = some (write_all k (packet (d ∷ ds)) s)

-- The sum is passed as a `uint32_t`. `none` would be a write past `length_digits`.
unfoldable pub send_publish_message :
    Option ℕ → List ℕ → ℕ → List ℕ → ℕ → Socket → Option (Bool × Socket)
send_publish_message k topic topic_size payload payload_size s =
    send_iov k (encode_length ((2 + topic_size + payload_size) % 2 ^ 32))
      (λ digits. publish_packet digits topic topic_size payload payload_size) s
