-- ===== src/Queue/Drain/Sent.antt =====
-- The loop of `DrainMessages` that sends.
use mqttfs.Base.{
  ℕ, suc, ◌+◌, ◌%◌, ◌^◌, ◌≤◌, List, [], ◌∷◌, ◌++◌, true, Option, some, ltb, if◌then◌else◌, length,
  length-append, length-take, take_all, take, min, All, map, ◌≡◌, sym, ap, ◌∙◌, arith, Bool-cases,
  inl, inr,
}
use mqttfs.Str.{text}
use mathlib.Core.Path.{ap₂}
use mathlib.Core.List.{append-nil, append_assoc}
use mqttfs.Wire.{
  htons, Socket, send_publish_message, encode_length, publish_packet, write_all, write,
}
use mqttfs.Wire.Length.{encode_length_lem, Encodes}
use mqttfs.Stream.Chunks.{Message, packet_of, stream_of}
use mqttfs.Queue.{MqttMessage}
use mqttfs.Queue.Publish.{IsQueued}
use mqttfs.Queue.Drain.{Sending, send_message, send_due}

-- What a queued message says.
abbrev pub message_of : MqttMessage → Message
message_of q = (text q.topic, q.payload)

abbrev pub max_packet : ℕ
max_packet = 268435460

take_exact : (n : ℕ) (xs : List ℕ) → length xs ≡ n → take n xs ≡ xs
take_exact n xs e = ap (λ k. take k xs) (sym e) ∙ take_all xs

send_packet :
    (k : ℕ) (topic : List ℕ) (topic_size : ℕ) (payload : List ℕ) (payload_size d : ℕ) (ds : List ℕ)
    (s : Socket)
    → encode_length ((2 + topic_size + payload_size) % 2 ^ 32) ≡ some (d ∷ ds)
    → length (publish_packet (d ∷ ds) topic topic_size payload payload_size) ≤ k
    → send_publish_message (some k) topic topic_size payload payload_size s
      ≡ some (
        true,
        record s { sent = s.sent ++ publish_packet (d ∷ ds) topic topic_size payload payload_size },
      )
unfolding send_publish_message write_all write
send_packet k topic topic_size payload payload_size d ds s e h =
    rw e (ground (arith, all_bytes, exact))
  where
    packet : List ℕ
    packet = publish_packet (d ∷ ds) topic topic_size payload payload_size

    all_bytes : min k (length packet) ≡ length packet
    all_bytes = omega arith

    exact : take (length packet) packet ≡ packet
    exact = take_all packet

-- A packet by its parts.
abbrev parts : List ℕ → List ℕ → List ℕ → List ℕ
parts ds topic payload = 0x30 ∷ ds ++ htons (length topic) ++ topic ++ payload

packet_of-parts :
    (topic payload ds : List ℕ)
    → encode_length (2 + length topic + length payload) ≡ some ds
    → packet_of (topic, payload) ≡ parts ds topic payload
unfolding packet_of publish_packet
packet_of-parts topic payload ds e =
    rw e
      (ap₂ (λ t p. 0x30 ∷ ds ++ htons (length topic) ++ t ++ p) (take_all topic) (take_all payload))

packet-parts :
    (q : MqttMessage) (ds : List ℕ)
    → IsQueued q
    → publish_packet ds q.topic.chars q.topic.size q.payload q.payload_len
      ≡ parts ds (text q.topic) q.payload
unfolding publish_packet
packet-parts q ds h =
    ap₂ (λ n p. 0x30 ∷ ds ++ htons n ++ text q.topic ++ p) size_here
      (take_exact q.payload_len q.payload h.payload_there)
  where
    size_here : q.topic.size ≡ length (text q.topic)
    size_here = omega (arith, h.topic_there, length-take q.topic.size q.topic.chars)

module _ (q : MqttMessage) (k : ℕ) (s : Socket) (h : IsQueued q) (big : max_packet ≤ k) where
  text_size : length (text q.topic) ≡ q.topic.size
  text_size = omega (arith, h.topic_there, length-take q.topic.size q.topic.chars)

  sent_as : (ds : List ℕ) → length ds ≤ 4 → length (parts ds (text q.topic) q.payload) ≤ max_packet
  sent_as ds f = omega (
    arith,
    text_size,
    h.payload_there,
    h.fits,
    length-append ds (htons (length (text q.topic))),
    length-append (ds ++ htons (length (text q.topic))) (text q.topic),
    length-append (ds ++ htons (length (text q.topic)) ++ text q.topic) q.payload,
  )

  send_digits :
      (d : ℕ) (ds : List ℕ)
      → length (d ∷ ds) ≤ 4
      → encode_length (2 + q.topic.size + q.payload_len) ≡ some (d ∷ ds)
      → send_message (some k) q s
        ≡ some (true, record s { sent = s.sent ++ packet_of (message_of q) })
  unfolding send_message
  send_digits d ds f e = ground (arith, h.owned, cut_topic, cut_payload, packet_is, sent_packet)
    where
      cut_topic : q.topic.size % 2 ^ 16 ≡ q.topic.size
      cut_topic = omega (arith, h.topic_fits)

      cut_payload : q.payload_len % 2 ^ 32 ≡ q.payload_len
      cut_payload = omega (arith, h.fits)

      same_length : 2 + length (text q.topic) + length q.payload ≡ 2 + q.topic.size + q.payload_len
      same_length = omega (arith, text_size, h.payload_there)

      in_word : (2 + q.topic.size + q.payload_len) % 2 ^ 32 ≡ 2 + q.topic.size + q.payload_len
      in_word = omega (arith, h.fits)

      packet_is :
          publish_packet (d ∷ ds) q.topic.chars q.topic.size q.payload q.payload_len
          ≡ packet_of (message_of q)
      packet_is =
          packet-parts q (d ∷ ds) h
          ∙ sym
              (packet_of-parts (text q.topic) q.payload (d ∷ ds) (ap encode_length same_length ∙ e))

      sent_packet :
          send_publish_message (some k) q.topic.chars q.topic.size q.payload q.payload_len s
          ≡ some (
            true,
            record s {
              sent =
                  s.sent
                  ++ publish_packet (d ∷ ds) q.topic.chars q.topic.size q.payload q.payload_len;
            },
          )
      sent_packet =
          send_packet k q.topic.chars q.topic.size q.payload q.payload_len d ds s
            (ap encode_length in_word ∙ e)
            (omega (arith, sent_as (d ∷ ds) f, ap (length {A = ℕ}) (packet-parts q (d ∷ ds) h)))

  send_encoded :
      (ds : List ℕ)
      → Encodes (2 + q.topic.size + q.payload_len) 4 ds
      → encode_length (2 + q.topic.size + q.payload_len) ≡ some ds
      → send_message (some k) q s
        ≡ some (true, record s { sent = s.sent ++ packet_of (message_of q) })
  send_encoded [] c e = absurd c.continued
  send_encoded (d ∷ ds) c e = send_digits d ds c.fits e

  send_message_lem :
      send_message (some k) q s
      ≡ some (true, record s { sent = s.sent ++ packet_of (message_of q) })
  send_message_lem =
      let (ds, e, c) = encode_length_lem (2 + q.topic.size + q.payload_len) h.fits in
      send_encoded ds c e

-- The messages at the front of the queue whose time has come.
abbrev pub due : ℕ → List MqttMessage → List MqttMessage
due now [] = []
due now (q ∷ qs) = if ltb now q.timestamp then [] else q ∷ due now qs

-- The system takes any packet whole.
abbrev pub TakesAll : (ℕ → Option ℕ) → Type 0
TakesAll writev = (i : ℕ) → (k : ℕ) × (writev i ≡ some k) × (max_packet ≤ k)

abbrev all_sent : ℕ → List ℕ → Socket → Option Sending
all_sent n bytes s =
    some (record { counter = n; complete = true; socket = record s { sent = bytes } })

stopped :
    (counter : ℕ) (s : Socket) → all_sent counter s.sent s ≡ all_sent (counter + 0) (s.sent ++ []) s
stopped counter s = ap₂ (λ n l. all_sent n l s) no_more (sym (append-nil s.sent))
  where
    no_more : counter ≡ counter + 0
    no_more = omega arith

one_more :
    (counter n : ℕ) (s : Socket) (p ps : List ℕ)
    → all_sent (suc counter + n) (s.sent ++ p ++ ps) s
      ≡ all_sent (counter + suc n) (s.sent ++ (p ++ ps)) s
one_more counter n s p ps = ap₂ (λ n l. all_sent n l s) counted (append_assoc s.sent p ps)
  where
    counted : suc counter + n ≡ counter + suc n
    counted = omega arith

send_due_lem :
    (writev : ℕ → Option ℕ) (now counter : ℕ) (ms : List MqttMessage) (s : Socket)
    → TakesAll writev
    → All IsQueued ms
    → send_due writev now counter ms s
      ≡ some (record {
        counter = counter + length (due now ms);
        complete = true;
        socket = record s { sent = s.sent ++ stream_of (map message_of (due now ms)) };
      })
unfolding send_due
send_due_lem writev now counter [] s t h = stopped counter s
send_due_lem writev now counter (q ∷ qs) s t (h, hs) = elim (Bool-cases (ltb now q.timestamp)) [
  | inl b ↦ rw b (stopped counter s)
  | inr b ↦
      let (k, w, big) = t counter in
      let after : Socket = record s { sent = s.sent ++ packet_of (message_of q) } in
      rw (b, w, send_message_lem q k s h big, send_due_lem writev now (suc counter) qs after t hs)
        (one_more counter (length (due now qs)) s (packet_of (message_of q))
          (stream_of (map message_of (due now qs))))
]

abbrev pub sent_due : ℕ → List MqttMessage → Socket → Socket
sent_due now ms s = record s { sent = s.sent ++ stream_of (map message_of (due now ms)) }

pub send_due-zero :
    (writev : ℕ → Option ℕ) (now : ℕ) (ms : List MqttMessage) (s : Socket)
    → TakesAll writev
    → All IsQueued ms
    → send_due writev now 0 ms s
      ≡ some (record { counter = length (due now ms); complete = true; socket = sent_due now ms s })
send_due-zero writev now ms s t h =
    send_due_lem writev now 0 ms s t h
    ∙ ap (λ n. all_sent n (s.sent ++ stream_of (map message_of (due now ms))) s) none_before
  where
    none_before : 0 + length (due now ms) ≡ length (due now ms)
    none_before = omega arith
