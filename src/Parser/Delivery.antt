-- ===== src/Parser/Delivery.antt =====
-- Both ends of a published packet: what `SendPublishMessage` puts on the socket, and what
-- `MqttParseMessage` makes of it, whole or in part.
use mqttfs.Base.{
  ℕ, ◌+◌, ◌%◌, ◌^◌, ◌≤◌, ◌<◌, List, [], ◌∷◌, ◌++◌, Option, none, some, ◌≡◌, refl, ap, ◌∙◌, arith,
  min, length, length-append, take, ◌==◌,
}
use mathlib.Core.List.{append-nil}
use mqttfs.Wire.{Socket, write_all, max_length, encode_length, publish_packet, send_publish_message}
use mqttfs.Wire.Length.{Continued, encode_length_lem, encode_length-Encodes}
use mqttfs.Parser.{
  success, skipped, read_more, error, Jump, ok, jump, parse_body, read_header, finish,
  mqtt_parse_message,
}
use mqttfs.Parser.Growth.{Grows, read_header-Grows}
use mqttfs.Parser.RoundTrip.{taken, parse_packet, packet_nonempty, packet_header}

-- A write of at least one byte puts out the first `n` of them, and succeeds if that is all.
write_all_lem :
    (k : Option ℕ) (bytes : List ℕ) (s : Socket)
    → 0 < length bytes
    → (n : ℕ) × (n ≤ length bytes)
      × (write_all k bytes s ≡ (n == length bytes, record s { sent = s.sent ++ take n bytes }))
unfolding write_all
write_all_lem none bytes s h = (0, omega arith, ground (arith, append-nil s.sent))
write_all_lem (some k) bytes s h = (min k (length bytes), omega arith, refl)

-- `SendPublishMessage` cannot fail but by its system call: it writes the packet of some digits.
send_publish_lem :
    (k : Option ℕ) (topic payload : List ℕ) (s : Socket) (ds : List ℕ)
    → 2 + length topic + length payload ≤ max_length
    → Continued ds
    → encode_length (2 + length topic + length payload) ≡ some ds
    → send_publish_message k topic (length topic) payload (length payload) s
      ≡ some (write_all k (publish_packet ds topic (length topic) payload (length payload)) s)
unfolding send_publish_message
send_publish_lem k topic payload s [] h c e = absurd c
send_publish_lem k topic payload s (d ∷ ds) h c e = rw (in_word, e)
  where
    in_word : (2 + length topic + length payload) % 2 ^ 32 ≡ 2 + length topic + length payload
    in_word = omega arith

-- A proper prefix of a packet makes the reader wait for more.
prefix_waits :
    (front back : List ℕ) (x : ℕ) (n : ℕ) (body : List ℕ)
    → length body ≤ n
    → (j : Jump (ℕ × ℕ)) → Grows (x ∷ back) j (ok (0x30, n) body)
    → finish front j ≡ some (record { status = read_more; buffer = front; view = none })
unfolding parse_body
prefix_waits front back x n body h (ok (t, m) left) g =
    ground (arith, length-append left (x ∷ back))
prefix_waits front back x n body h (jump error) g = cc
prefix_waits front back x n body h (jump read_more) g = refl
prefix_waits front back x n body h (jump success) g = absurd g
prefix_waits front back x n body h (jump skipped) g = absurd g

-- What `SendPublishMessage` puts on the socket, for a topic that a 16-bit length can tell and a
-- payload within the limit, is the first `n` bytes of one packet; it succeeds if those are all. The
-- packet, whatever follows it, is read back as the topic and the payload that were sent.
pub publish_delivered :
    (k : Option ℕ) (topic payload rest : List ℕ) (s : Socket)
    → length topic < 65536
    → 2 + length topic + length payload ≤ max_length
    → (packet : List ℕ) × (n : ℕ) × (n ≤ length packet)
      × (send_publish_message k topic (length topic) payload (length payload) s
          ≡ some (n == length packet, record s { sent = s.sent ++ take n packet }))
      × (mqtt_parse_message (packet ++ rest) ≡ some (taken topic payload rest))
publish_delivered k topic payload rest s ht hp =
    let (ds, e, c) = encode_length_lem (2 + length topic + length payload) hp in
    let packet : List ℕ = publish_packet ds topic (length topic) payload (length payload) in
    let (n, le, w) = write_all_lem k packet s (packet_nonempty ds topic payload) in
    (
      packet,
      n,
      le,
      send_publish_lem k topic payload s ds hp c.continued e ∙ ap some w,
      parse_packet ds topic payload rest ht hp c,
    )

-- The reader of a packet that `SendPublishMessage` writes for a topic and payload within the
-- limits, of which a proper prefix has arrived, waits for more, and leaves the buffer as it is.
pub publish_partial :
    (topic payload front back : List ℕ) (x : ℕ) (ds : List ℕ)
    → length topic < 65536
    → 2 + length topic + length payload ≤ max_length
    → encode_length (2 + length topic + length payload) ≡ some ds
    → publish_packet ds topic (length topic) payload (length payload) ≡ front ++ x ∷ back
    → mqtt_parse_message front ≡ some (record { status = read_more; buffer = front; view = none })
unfolding mqtt_parse_message
publish_partial topic payload front back x ds ht hp e cut =
    let c = encode_length-Encodes (2 + length topic + length payload) ds hp e in
    let (body, size, header) = packet_header ds topic payload _ refl c in
    prefix_waits front back x (2 + length topic + length payload) body (omega (arith, size))
      (read_header front) (rw (rw cut at header) at (read_header-Grows front (x ∷ back)))
