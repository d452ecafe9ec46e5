-- ===== src/Parser/Bounds.antt =====
-- Where the pointers and lengths that `MqttParseMessage` gives lie.
use mqttfs.Base.{
  ℕ, ◌+◌, ◌-◌, ◌^◌, ◌≤◌, ◌<◌, List, [], ◌∷◌, none, some, ◌≡◌, ◌↔◌, ◌⊎◌, inl, inr, refl, ◌++◌, arith,
  bit_and, length, length-drop, drop,
}
use mqttfs.Str.{IsStr}
use mqttfs.Parser.{
  success, Jump, ok, jump, View, Parsed, topic_length, payload_length, parse_publish, parse_body,
  read_header, finish, mqtt_parse_message,
}
use native.Mathlib.Decide.{dec_lt}
use mqttfs.Parser.RoundTrip.{read_header-digits, topic_length-htons}
use mqttfs.Wire.{htons}
use mqttfs.Wire.Length.{Encodes}

-- The topic and the payload lie inside the buffer; or the payload's length has wrapped round.
abbrev pub InBuffer : View → Type 0
InBuffer v = IsStr v.topic × (v.payload_len ≤ length v.payload) ⊎ (2 ^ 64 - 2 ≤ v.payload_len)

payload_length-fits :
    (remaining t : ℕ) → t + 2 ≤ remaining → payload_length remaining t ≤ remaining - 2 - t
payload_length-fits remaining t h = omega arith

payload_length-wraps :
    (remaining t : ℕ) → t ≤ remaining → remaining < t + 2 → 2 ^ 64 - 2 ≤ payload_length remaining t
payload_length-wraps remaining t h k = omega arith

parse_publish-InBuffer :
    (start buffer : List ℕ) (remaining : ℕ) (p : Parsed) (v : View)
    → remaining ≤ length buffer
    → parse_publish start remaining buffer ≡ some p
    → p.view ≡ some v
    → InBuffer v
unfolding parse_publish
parse_publish-InBuffer start [] remaining p v h e w = cc
parse_publish-InBuffer start (x ∷ []) remaining p v h e w = cc
parse_publish-InBuffer start (high ∷ low ∷ body) remaining p v h e w =
    elim (dec_lt remaining (topic_length high low + 2)) [
      | yes k ↦ inr (ground (arith, payload_length-wraps remaining (topic_length high low)))
      | no k ↦ inl (
          ground (
            arith,
            payload_length-fits remaining (topic_length high low),
            length-drop (topic_length high low) body,
          ))
    ]

finish-InBuffer :
    (start : List ℕ) (p : Parsed) (v : View) (j : Jump (ℕ × ℕ))
    → finish start j ≡ some p
    → p.view ≡ some v
    → InBuffer v
unfolding parse_body
finish-InBuffer start p v (ok (t, n) body) e w =
    ground (arith, λ (h : n ≤ length body). parse_publish-InBuffer start body n p v h)
finish-InBuffer start p v (jump s) e w = cc

-- A view on success lies inside the buffer, except where the subtraction that gives the payload's
-- length has wrapped round; then that length is one of the two largest of its type.
pub mqtt_parse_message-InBuffer :
    (buffer : List ℕ) (p : Parsed) (v : View)
    → mqtt_parse_message buffer ≡ some p
    → p.view ≡ some v
    → InBuffer v
unfolding mqtt_parse_message
mqtt_parse_message-InBuffer buffer p v e w = finish-InBuffer buffer p v (read_header buffer) e w

parse_body_wraps :
    (start : List ℕ) (packet_type n t : ℕ) (body : List ℕ)
    → bit_and packet_type 0xf0 ≡ 0x30
    → t < 65536
    → t ≤ n
    → n < t + 2
    → n ≤ length body + 2
    → parse_body start packet_type n (htons t ++ body)
      ≡ some (record {
        status = success;
        buffer = drop n (htons t ++ body);
        view = some (record {
          topic = record { size = t; chars = body };
          payload = drop t body;
          payload_len = 2 ^ 64 - (2 + t - n);
        });
      })
unfolding parse_body
parse_body_wraps start packet_type n t body p h k l m =
    ground (arith, p, topic_length-htons t h, lengths)
  where
    lengths : payload_length n t ≡ 2 ^ 64 - (2 + t - n)
    lengths = omega arith

-- A PUBLISH packet that is there as a whole, with any flags and with its remaining length in any of
-- the encodings, whose topic is no longer than the remaining length but leaves less than two bytes
-- of it, so that the topic goes beyond the packet: it is accepted, with a payload of 2 ^ 64 - 2 or
-- 2 ^ 64 - 1 bytes.
pub payload_wraps :
    (packet_type n t : ℕ) (ds body : List ℕ)
    → bit_and packet_type 0xf0 ≡ 0x30
    → t < 65536
    → t ≤ n
    → n < t + 2
    → Encodes n 4 ds
    → n ≤ length body + 2
    → mqtt_parse_message (packet_type ∷ ds ++ (htons t ++ body))
      ≡ some (record {
        status = success;
        buffer = drop n (htons t ++ body);
        view = some (record {
          topic = record { size = t; chars = body };
          payload = drop t body;
          payload_len = 2 ^ 64 - (2 + t - n);
        });
      })
unfolding mqtt_parse_message
payload_wraps packet_type n t ds body p h k l e m =
    rw (read_header-digits packet_type ds (htons t ++ body) n e)
      (parse_body_wraps _ packet_type n t body p h k l m)

-- A PUBLISH packet, in a buffer with no room for the topic's length behind its fixed header.
abbrev pub IsShort : List ℕ → Type 0
IsShort buffer =
    (t : ℕ) × (n : ℕ) × (body : List ℕ) × (read_header buffer ≡ ok (t, n) body)
    × (bit_and t 0xf0 ≡ 0x30)
    × (n ≤ length body)
    × (length body < 2)

parse_publish-none :
    (start body : List ℕ) (n : ℕ) → parse_publish start n body ≡ none → length body < 2
unfolding parse_publish
parse_publish-none start [] n e = omega arith
parse_publish-none start (x ∷ []) n e = omega arith
parse_publish-none start (x ∷ y ∷ body) n e = ground arith

none-parse_publish :
    (start body : List ℕ) (n : ℕ) → length body < 2 → parse_publish start n body ≡ none
unfolding parse_publish
none-parse_publish start [] n h = refl
none-parse_publish start (x ∷ []) n h = refl
none-parse_publish start (x ∷ y ∷ body) n h = absurd (omega arith)

IsShort-of_none :
    (buffer : List ℕ) (j : Jump (ℕ × ℕ))
    → read_header buffer ≡ j
    → finish buffer j ≡ none
    → IsShort buffer
unfolding parse_body
IsShort-of_none buffer (ok (t, n) body) r e =
    (t, n, body, r, ground arith, ground arith, ground (arith, parse_publish-none buffer body n))
IsShort-of_none buffer (jump s) r e = cc

none-of_IsShort : (buffer : List ℕ) → IsShort buffer → mqtt_parse_message buffer ≡ none
unfolding mqtt_parse_message parse_body
none-of_IsShort buffer (t, n, body, r, e, h, k) =
    rw r (ground (arith, none-parse_publish buffer body n))

-- The parser reads past the end of the buffer exactly if the buffer has a PUBLISH packet at its
-- front, as a whole by its remaining length, and fewer than two bytes behind the fixed header.
pub mqtt_parse_message-faults :
    (buffer : List ℕ) → (mqtt_parse_message buffer ≡ none) ↔ IsShort buffer
unfolding mqtt_parse_message
mqtt_parse_message-faults buffer =
    (IsShort-of_none buffer (read_header buffer) refl, none-of_IsShort buffer)
