-- ===== src/Parser.antt =====
-- mqtt_parser.c. A buffer is the list of the bytes from the pointer on, as many as its size says.
pub mod Growth
pub mod Progress
pub mod RoundTrip
pub mod Bounds
pub mod Delivery
use mqttfs.Base.{
  ℕ, zero, suc, ◌+◌, ◌-◌, ◌*◌, ◌%◌, ◌^◌, List, [], ◌∷◌, Option, none, some, bit_and, bit_or, ◌==◌,
  ltb, if◌then◌else◌, length, take, drop,
}
use mqttfs.Str.{Str}

pub data MqttParseStatus : Type 0 where
  success skipped read_more error : MqttParseStatus

-- A step of the parser: a value with the bytes left, or a `longjmp` with a status.
pub data Jump {ℓ} (A : Type ℓ) : Type ℓ where
  ok : A → List ℕ → Jump A
  jump : MqttParseStatus → Jump A

infixl 5 ◌>>=◌
abbrev pub ◌>>=◌ {ℓ κ} : {A : Type ℓ} {B : Type κ} → Jump A → (A × List ℕ → Jump B) → Jump B
ok a buffer >>= f = f (a, buffer)
jump status >>= f = jump status

unfoldable pub read_byte : List ℕ → Jump ℕ
read_byte [] = jump read_more
read_byte (b ∷ buffer) = ok b buffer

-- The first argument is 4 less `counter`: the rounds that the loop has left.
unfoldable pub read_length : ℕ → ℕ → ℕ → List ℕ → Jump ℕ
unfolding read_byte
read_length zero counter result buffer = jump error
read_length (suc rounds) counter result buffer = do
  (byte, buffer') ← read_byte buffer
  let result' = bit_or result (bit_and byte 0x7f * 2 ^ (7 * counter))
  let again = read_length rounds (counter + 1) result' buffer'
  if bit_and (255 - byte) 0x80 == 0 then again else ok result' buffer'

unfoldable pub read_remaining_length : List ℕ → Jump ℕ
read_remaining_length = read_length 4 0 0

-- What `*topic_view`, `*payload` and `*payload_len` are set to. `payload` is the memory from that
-- pointer to the end of the buffer.
pub record View : Type 0 where
  pub topic : Str
  pub payload : List ℕ
  pub payload_len : ℕ

pub record Parsed : Type 0 where
  pub status : MqttParseStatus
  pub buffer : List ℕ
  pub view : Option View

abbrev pub topic_length : ℕ → ℕ → ℕ
topic_length high low = bit_and (bit_or (high * 2 ^ 8) low) 0xffff

-- `remaining_length - sizeof(uint16_t) - topic_len` on `size_t`, which wraps round.
abbrev pub payload_length : ℕ → ℕ → ℕ
payload_length remaining topic_len = (remaining + 2 ^ 64 - 2 - topic_len) % 2 ^ 64

-- A PUBLISH packet. `none` is a read of `buffer_copy[0]` or `buffer_copy[1]` past the end.
unfoldable pub parse_publish : List ℕ → ℕ → List ℕ → Option Parsed
parse_publish start remaining (high ∷ low ∷ body) =
    let topic_len = topic_length high low in
    if ltb remaining topic_len
    then some (record { status = error; buffer = start; view = none })
    else some (record {
      status = success;
      buffer = drop remaining (high ∷ low ∷ body);
      view = some (record {
        topic = record { size = topic_len; chars = body };
        payload = drop topic_len body;
        payload_len = payload_length remaining topic_len;
      });
    })
parse_publish start remaining _ = none

unfoldable pub parse_body : List ℕ → ℕ → ℕ → List ℕ → Option Parsed
unfolding parse_publish
parse_body start packet_type remaining buffer =
    if ltb (length buffer) remaining
    then some (record { status = read_more; buffer = start; view = none })
    else if bit_and packet_type 0xf0 == 0x30
    then parse_publish start remaining buffer
    else some (record { status = skipped; buffer = drop remaining buffer; view = none })

-- The fixed header: the packet type and the remaining length.
unfoldable pub read_header : List ℕ → Jump (ℕ × ℕ)
unfolding read_byte
read_header buffer = do
  (packet_type, rest) ← read_byte buffer
  (remaining, body) ← read_remaining_length rest
  ok (packet_type, remaining) body

abbrev pub finish : List ℕ → Jump (ℕ × ℕ) → Option Parsed
finish start (ok (packet_type, remaining) body) = parse_body start packet_type remaining body
finish start (jump status) = some (record { status = status; buffer = start; view = none })

-- The result carries the buffer that is left behind `*buffer` and `*size`.
unfoldable pub mqtt_parse_message : List ℕ → Option Parsed
mqtt_parse_message buffer = finish buffer (read_header buffer)
