-- ===== src/Parser/Progress.antt =====
-- What `MqttParseMessage` takes from the buffer, for each status.
use mqttfs.Base.{
  ℕ, zero, suc, ◌+◌, ◌*◌, ◌^◌, ◌≤◌, ◌<◌, List, [], ◌∷◌, Option, none, some, ◌≡◌, refl, arith,
  bit_and, bit_or, length, length-drop,
}
use mqttfs.Parser.{
  MqttParseStatus, success, skipped, read_more, error, Jump, ok, jump, read_length,
  read_remaining_length, View, Parsed, parse_body, read_header, finish, mqtt_parse_message,
}
use mqttfs.Parser.Growth.{read_header-Grows}

read_length-shorter :
    (rounds counter result : ℕ) (buffer : List ℕ) (n : ℕ) (left : List ℕ)
    → read_length rounds counter result buffer ≡ ok n left
    → length left < length buffer
unfolding read_length
read_length-shorter zero counter result buffer n left h = cc
read_length-shorter (suc rounds) counter result [] n left h = cc
read_length-shorter (suc rounds) counter result (b ∷ buffer) n left h = ground (
  arith,
  read_length-shorter rounds (counter + 1) (bit_or result (bit_and b 0x7f * 2 ^ (7 * counter)))
      buffer n left,
)

pub read_header-shorter :
    (buffer : List ℕ) (h : ℕ × ℕ) (body : List ℕ)
    → read_header buffer ≡ ok h body
    → length body + 2 ≤ length buffer
unfolding read_header read_remaining_length
read_header-shorter [] h body e = cc
read_header-shorter (b ∷ buffer) (t, n) body e =
    ground (arith, read_length-shorter 4 0 0 buffer n body)

-- A packet that is taken or skipped has two bytes at least; otherwise the buffer stays.
abbrev pub Advances : List ℕ → MqttParseStatus → List ℕ → Option View → Type 0
Advances start success buffer none = ⊥
Advances start success buffer (some v) = length buffer + 2 ≤ length start
Advances start skipped buffer view = (length buffer + 2 ≤ length start) × (view ≡ none)
Advances start _ buffer view = (buffer ≡ start) × (view ≡ none)

parse_body-Advances :
    (start body : List ℕ) (t n : ℕ) (p : Parsed)
    → length body + 2 ≤ length start
    → parse_body start t n body ≡ some p
    → Advances start p.status p.buffer p.view
unfolding parse_body
parse_body-Advances start [] t n p h e = ground (arith, length-drop {A = ℕ} n [])
parse_body-Advances start (x ∷ []) t n p h e = ground (arith, length-drop n (x ∷ []))
parse_body-Advances start (x ∷ y ∷ body) t n p h e = ground (arith, length-drop n (x ∷ y ∷ body))

finish-Advances :
    (start : List ℕ) (p : Parsed) (j : Jump (ℕ × ℕ))
    → read_header start ≡ j
    → finish start j ≡ some p
    → Advances start p.status p.buffer p.view
finish-Advances start p (ok (t, n) body) r e =
    parse_body-Advances start body t n p (read_header-shorter start (t, n) body r) e
finish-Advances start p (jump error) r e = ground arith
finish-Advances start p (jump read_more) r e = ground arith
finish-Advances start p (jump success) r e = absurd (no_jump r)
  where
    no_jump : read_header start ≡ jump success → ⊥
    no_jump q = rw q at (read_header-Grows start [])
finish-Advances start p (jump skipped) r e = absurd (no_jump r)
  where
    no_jump : read_header start ≡ jump skipped → ⊥
    no_jump q = rw q at (read_header-Grows start [])

-- On success a view is given and the buffer moves on by two bytes at least; on a skipped packet it
-- moves on so too, with no view; on the other statuses nothing changes.
pub mqtt_parse_message-Advances :
    (buffer : List ℕ) (p : Parsed)
    → mqtt_parse_message buffer ≡ some p
    → Advances buffer p.status p.buffer p.view
unfolding mqtt_parse_message
mqtt_parse_message-Advances buffer p e = finish-Advances buffer p (read_header buffer) refl e
