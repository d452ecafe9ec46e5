-- ===== src/Parser/Growth.antt =====
-- `MqttParseMessage` on a buffer that grows: a decision that it made stands, and what it took from
-- the buffer is the same.
use mqttfs.Base.{
  ℕ, zero, suc, ◌+◌, ◌-◌, ◌≤◌, List, [], ◌∷◌, ◌++◌, some, ◌≡◌, ◌≢◌, inl, inr, refl, bit_and, arith,
  ◌==◌, Bool-cases, length, length-append, drop-append_le, drop,
}
use mqttfs.Parser.{
  success, skipped, read_more, error, Jump, ok, jump, ◌>>=◌, read_length, read_remaining_length,
  View, Parsed, parse_publish, parse_body, read_header, finish, mqtt_parse_message,
}
use mathlib.Core.Option

-- The topic starts where it did, and the payload right behind it.
abbrev pub extend_view : List ℕ → View → View
extend_view more v = record {
  topic = record { size = v.topic.size; chars = v.topic.chars ++ more };
  payload = drop v.topic.size (v.topic.chars ++ more);
  payload_len = v.payload_len;
}

abbrev pub extend : List ℕ → Parsed → Parsed
extend more p = record {
  status = p.status;
  buffer = p.buffer ++ more;
  view = Option.map (extend_view more) p.view;
}

parse_publish-append :
    (start buffer more : List ℕ) (remaining : ℕ) (p : Parsed)
    → remaining ≤ length buffer
    → parse_publish start remaining buffer ≡ some p
    → parse_publish (start ++ more) remaining (buffer ++ more) ≡ some (extend more p)
unfolding parse_publish
parse_publish-append start [] more remaining p h e = cc
parse_publish-append start (high ∷ []) more remaining p h e = cc
parse_publish-append start (high ∷ low ∷ body) more remaining p h e =
    ground (arith, drop-append_le remaining (high ∷ low ∷ body) more h)

parse_body-append :
    (start buffer more : List ℕ) (t remaining : ℕ) (p : Parsed)
    → p.status ≢ read_more
    → parse_body start t remaining buffer ≡ some p
    → parse_body (start ++ more) t remaining (buffer ++ more) ≡ some (extend more p)
unfolding parse_body
parse_body-append start buffer more t remaining p h e = ground (
  arith,
  length-append buffer more,
  drop-append_le remaining buffer more,
  λ (r : remaining ≤ length buffer). parse_publish-append start buffer more remaining p r,
)

-- What the header of a longer buffer is, by what it was. `read_more` says nothing.
abbrev pub Grows : List ℕ → Jump (ℕ × ℕ) → Jump (ℕ × ℕ) → Type 0
Grows more (ok h body) j = j ≡ ok h (body ++ more)
Grows more (jump error) j = j ≡ jump error
Grows more (jump read_more) j = Unit
Grows more (jump _) j = ⊥

read_length-Grows :
    (rounds counter result : ℕ) (buffer more : List ℕ) (t : ℕ)
    → Grows more
        (read_length rounds counter result buffer >>= λ (n, body). ok (t, n) body)
        (read_length rounds counter result (buffer ++ more) >>= λ (n, body). ok (t, n) body)
unfolding read_length
read_length-Grows zero counter result buffer more t = refl
read_length-Grows (suc rounds) counter result [] more t = tt
read_length-Grows (suc rounds) counter result (b ∷ buffer) more t =
    elim (Bool-cases (bit_and (255 - b) 0x80 == 0)) [
      | inl e ↦ rw e (read_length-Grows rounds (counter + 1) _ buffer more t)
      | inr e ↦ rw e refl
    ]

pub read_header-Grows :
    (buffer more : List ℕ) → Grows more (read_header buffer) (read_header (buffer ++ more))
unfolding read_header read_remaining_length
read_header-Grows [] more = tt
read_header-Grows (t ∷ buffer) more = read_length-Grows 4 0 0 buffer more t

parse_header-append :
    (buffer more : List ℕ) (p : Parsed)
    → p.status ≢ read_more
    → (j : Jump (ℕ × ℕ)) (j' : Jump (ℕ × ℕ)) → Grows more j j'
    → finish buffer j ≡ some p
    → finish (buffer ++ more) j' ≡ some (extend more p)
parse_header-append buffer more p h (ok (t, n) body) j' g e =
    rw g (parse_body-append buffer body more t n p h e)
parse_header-append buffer more p h (jump error) j' g e = rw g (ground arith)
parse_header-append buffer more p h (jump read_more) j' g e = absurd (h (ground arith))
parse_header-append buffer more p h (jump success) j' g e = absurd g
parse_header-append buffer more p h (jump skipped) j' g e = absurd g

-- A packet that was taken, skipped or refused is taken, skipped or refused just so when more bytes
-- have arrived behind it: with the same status, the topic and the payload at the same places and
-- with the same lengths, also where those are beyond the buffer, and with the new bytes behind the
-- ones that are left in the buffer.
pub mqtt_parse_message-append :
    (buffer more : List ℕ) (p : Parsed)
    → p.status ≢ read_more
    → mqtt_parse_message buffer ≡ some p
    → mqtt_parse_message (buffer ++ more) ≡ some (extend more p)
unfolding mqtt_parse_message
mqtt_parse_message-append buffer more p h e =
    parse_header-append buffer more p h (read_header buffer) (read_header (buffer ++ more))
      (read_header-Grows buffer more) e
