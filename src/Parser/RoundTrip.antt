-- ===== src/Parser/RoundTrip.antt =====
-- `MqttParseMessage` reads what `SendPublishMessage` writes.
use mqttfs.Base.{
  ℕ, zero, suc, ◌+◌, ◌*◌, ◌/◌, ◌%◌, ◌^◌, ◌≤◌, ◌<◌, List, [], ◌∷◌, ◌++◌, some, ◌≡◌, refl, sym, ap,
  ◌∙◌, arith, bit_and, bit_or, length, length-append, drop, drop-append, take_all,
}
use mqttfs.Base.Bits.{low_bits, top_bit_clear, bit_or-shift, shift-bit_or, low_word}
use mqttfs.Wire.{max_length, publish_packet, htons}
use mqttfs.Wire.Length.{value, Continued, Encodes}
use mqttfs.Parser.{
  success, ok, read_length, read_remaining_length, Parsed, topic_length, parse_publish, parse_body,
  read_header, mqtt_parse_message,
}
use mathlib.Core.List.{append_assoc, append-nil}
use native.Mathlib.Numerals.{towards_suc}

seven_more : (c : ℕ) → 2 ^ (7 * (c + 1)) ≡ 128 * 2 ^ (7 * c)
seven_more c = ap (λ k. 2 ^ k) regroup ∙ simp towards_suc (omega arith)
  where
    regroup : 7 * (c + 1) ≡ 7 * c + 7
    regroup = omega arith

digit_added :
    (c result b : ℕ)
    → result < 2 ^ (7 * c)
    → bit_or result (bit_and b 0x7f * 2 ^ (7 * c)) ≡ result + b % 128 * 2 ^ (7 * c)
digit_added c result b h = rw (low_bits b) (bit_or-shift (7 * c) result (b % 128) h)

digit_below :
    (c result b : ℕ) → result < 2 ^ (7 * c) → result + b % 128 * 2 ^ (7 * c) < 2 ^ (7 * (c + 1))
digit_below c result b h = rw seven_more (grind arith)

-- One round on a digit with the continuation bit, and on the last digit.
inner_round :
    (rounds c result b : ℕ) (rest : List ℕ)
    → 128 ≤ b
    → b < 256
    → result < 2 ^ (7 * c)
    → read_length (suc rounds) c result (b ∷ rest)
      ≡ read_length rounds (c + 1) (result + b % 128 * 2 ^ (7 * c)) rest
unfolding read_length
inner_round rounds c result b rest lo hi h =
    ground (arith, top_bit_clear b, digit_added c result b h)

last_round :
    (rounds c result b : ℕ) (rest : List ℕ)
    → b < 128
    → result < 2 ^ (7 * c)
    → read_length (suc rounds) c result (b ∷ rest) ≡ ok (result + b % 128 * 2 ^ (7 * c)) rest
unfolding read_length
last_round rounds c result b rest hi h = ground (arith, top_bit_clear b, digit_added c result b h)

read_length-value :
    (ds : List ℕ) (rounds c result : ℕ) (rest : List ℕ)
    → Continued ds
    → length ds ≤ rounds
    → result < 2 ^ (7 * c)
    → read_length rounds c result (ds ++ rest) ≡ ok (result + value ds * 2 ^ (7 * c)) rest
read_length-value [] rounds c result rest k l h = absurd k
read_length-value (d ∷ ds) zero c result rest k l h = absurd (omega arith)
read_length-value (d ∷ []) (suc rounds) c result rest k l h =
    last_round rounds c result d rest k h ∙ ap (λ n. ok n rest) (omega arith)
read_length-value (d ∷ e ∷ ds) (suc rounds) c result rest (lo, hi, k) l h =
    inner_round rounds c result d (e ∷ ds ++ rest) lo hi h
    ∙ read_length-value (e ∷ ds) rounds (c + 1) (result + d % 128 * 2 ^ (7 * c)) rest k
        (omega arith) (digit_below c result d h)
    ∙ ap (λ n. ok n rest) regroup
  where
    v : ℕ
    v = value (e ∷ ds)

    regroup :
        result + d % 128 * 2 ^ (7 * c) + value (e ∷ ds) * 2 ^ (7 * (c + 1))
        ≡ result + value (d ∷ e ∷ ds) * 2 ^ (7 * c)
    regroup = rw seven_more (omega arith)

read_remaining_length_lem :
    (ds rest : List ℕ) (n : ℕ) → Encodes n 4 ds → read_remaining_length (ds ++ rest) ≡ ok n rest
unfolding read_remaining_length
read_remaining_length_lem ds rest n e =
    read_length-value ds 4 0 0 rest e.continued e.fits (omega arith)
    ∙ ap (λ k. ok k rest) (omega (arith, e.valued))

pub read_header-digits :
    (packet_type : ℕ) (ds rest : List ℕ) (n : ℕ)
    → Encodes n 4 ds
    → read_header (packet_type ∷ ds ++ rest) ≡ ok (packet_type, n) rest
unfolding read_header
read_header-digits packet_type ds rest n e = rw (read_remaining_length_lem ds rest n e)

pub read_header-publish :
    (ds rest : List ℕ) (n : ℕ)
    → Encodes n 4 ds
    → read_header (0x30 ∷ ds ++ rest) ≡ ok (0x30, n) rest
read_header-publish ds rest n e = read_header-digits 0x30 ds rest n e

-- The two bytes of `htons` are read back as the topic's length.
pub topic_length-htons : (n : ℕ) → n < 65536 → topic_length (n / 256 % 256) (n % 256) ≡ n
topic_length-htons n h =
    ap (λ k. bit_and k 0xffff) (shift-bit_or 8 (n % 256) (n / 256 % 256) (omega arith) ∙ whole)
    ∙ low_word n h
  where
    whole : n / 256 % 256 * 2 ^ 8 + n % 256 ≡ n
    whole = omega arith

-- What a reader of the packet is given, with `rest` behind the packet.
abbrev pub taken : List ℕ → List ℕ → List ℕ → Parsed
taken topic payload rest = record {
  status = success;
  buffer = rest;
  view = some (record {
    topic = record { size = length topic; chars = topic ++ (payload ++ rest) };
    payload = payload ++ rest;
    payload_len = length payload;
  });
}

parse_publish_lem :
    (start topic payload rest : List ℕ)
    → length topic < 65536
    → 2 + length topic + length payload ≤ max_length
    → parse_publish start
        (2 + length topic + length payload)
        (htons (length topic) ++ (topic ++ (payload ++ rest)))
      ≡ some (taken topic payload rest)
unfolding parse_publish
parse_publish_lem start topic payload rest ht hp = ground (
  arith,
  topic_length-htons (length topic) ht,
  drop-append (length topic) topic (payload ++ rest) refl,
  after_payload,
)
  where
    after_payload :
        drop
          (2 + length topic + length payload)
          (length topic / 256 % 256 ∷ length topic % 256 ∷ (topic ++ (payload ++ rest)))
        ≡ rest
    after_payload =
        ap
          (λ n.
            drop n (length topic / 256 % 256 ∷ length topic % 256 ∷ (topic ++ (payload ++ rest))))
          two_more
        ∙ rw (← append_assoc) (
            drop-append (length topic + length payload) (topic ++ payload) rest
              (omega (arith, length-append topic payload)))
      where
        two_more : 2 + length topic + length payload ≡ suc (suc (length topic + length payload))
        two_more = omega arith

publish_packet-append :
    (ds topic payload rest : List ℕ)
    → publish_packet ds topic (length topic) payload (length payload) ++ rest
      ≡ 0x30 ∷ ds ++ (htons (length topic) ++ (topic ++ (payload ++ rest)))
unfolding publish_packet
publish_packet-append ds topic payload rest = simp (append_assoc, take_all)

parse_body_lem :
    (start topic payload rest : List ℕ)
    → length topic < 65536
    → 2 + length topic + length payload ≤ max_length
    → parse_body start 0x30
        (2 + length topic + length payload)
        (htons (length topic) ++ (topic ++ (payload ++ rest)))
      ≡ some (taken topic payload rest)
unfolding parse_body
parse_body_lem start topic payload rest ht hp = ground (
  arith,
  length-append topic (payload ++ rest),
  length-append payload rest,
  parse_publish_lem start topic payload rest ht hp,
)

-- The packet with the digits of its length, whatever follows it, is read back.
pub parse_packet :
    (ds topic payload rest : List ℕ)
    → length topic < 65536
    → 2 + length topic + length payload ≤ max_length
    → Encodes (2 + length topic + length payload) 4 ds
    → mqtt_parse_message (publish_packet ds topic (length topic) payload (length payload) ++ rest)
      ≡ some (taken topic payload rest)
unfolding mqtt_parse_message
parse_packet ds topic payload rest ht hp c =
    rw (publish_packet-append, read_header-publish ds _ _ c)
      (parse_body_lem _ topic payload rest ht hp)

pub packet_nonempty :
    (ds topic payload : List ℕ)
    → 0 < length (publish_packet ds topic (length topic) payload (length payload))
unfolding publish_packet
packet_nonempty ds topic payload = omega arith

-- The fixed header of a packet, and as many bytes behind it as the header says.
pub packet_header :
    (ds topic payload : List ℕ) (n : ℕ)
    → n ≡ 2 + length topic + length payload
    → Encodes n 4 ds
    → (body : List ℕ) × (length body ≡ n)
      × (read_header (publish_packet ds topic (length topic) payload (length payload))
          ≡ ok (0x30, n) body)
packet_header ds topic payload n h c =
    let body : List ℕ = htons (length topic) ++ (topic ++ (payload ++ [])) in
    (
      body,
      omega (arith, length-append topic (payload ++ []), length-append payload []),
      ap read_header (sym (append-nil _) ∙ publish_packet-append ds topic payload [])
          ∙ read_header-publish ds body n c,
    )
