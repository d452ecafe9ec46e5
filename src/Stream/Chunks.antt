-- ===== src/Stream/Chunks.antt =====
-- Published packets arrive whole and in order, however the stream is cut into reads.
use mqttfs.Base.{
  ℕ, zero, suc, ◌+◌, ◌≤◌, ◌<◌, List, [], ◌∷◌, ◌++◌, Option, none, some, ◌≡◌, ◌⊎◌, inl, inr, refl,
  sym, ap, ◌∙◌, arith, length, length-append, take, take-append, All, map,
}
use mqttfs.Str.{text}
use mqttfs.Wire.{max_length, encode_length, publish_packet}
use mqttfs.Wire.Length.{encode_length_lem}
use mqttfs.Parser.{read_more, View, Parsed, read_header, mqtt_parse_message}
use mqttfs.Parser.RoundTrip.{taken, parse_packet, packet_nonempty}
use mqttfs.Parser.Delivery.{publish_partial}
use mqttfs.Stream.{keep, Received, parse_loop, parse_buffer, running, receive, receive_all}
use mathlib.Core.Path.{ap₂, subst}
use mathlib.Core.List.{append-nil, append_assoc, map-append}

-- A topic and a payload.
abbrev pub Message : Type 0
Message = List ℕ × List ℕ

abbrev pub IsSendable : Message → Type 0
IsSendable (topic, payload) =
    (length topic < 65536) × (2 + length topic + length payload ≤ max_length)

abbrev with_digits : Message → Option (List ℕ) → List ℕ
with_digits m none = []
with_digits (topic, payload) (some ds) =
    publish_packet ds topic (length topic) payload (length payload)

-- What `SendPublishMessage` writes for a message, and for one after the other.
unfoldable pub packet_of : Message → List ℕ
packet_of (topic, payload) =
    with_digits (topic, payload) (encode_length (2 + length topic + length payload))

abbrev pub stream_of : List Message → List ℕ
stream_of [] = []
stream_of (m ∷ ms) = packet_of m ++ stream_of ms

-- What the callback can read of a view.
abbrev pub observe : View → Message
observe v = (text v.topic, take v.payload_len v.payload)

abbrev waiting : List ℕ → Option Parsed
waiting b = some (record { status = read_more; buffer = b; view = none })

append-cut :
    (b r p s : List ℕ)
    → b ++ r ≡ p ++ s
    → ((b' : List ℕ) × (b ≡ p ++ b') × (b' ++ r ≡ s))
      ⊎ ((x : ℕ) × (back : List ℕ) × (p ≡ b ++ x ∷ back))
append-cut b r [] s e = inl (b, refl, e)
append-cut [] r (x ∷ p) s e = inr (x, p, refl)
append-cut (y ∷ b) r (x ∷ p) s e = elim (append-cut b r p s (cc)) [
  | inl (b', f, g) ↦ inl (b', cc, g)
  | inr (z, back, f) ↦ inr (z, back, cc)
]

packet_of-taken :
    (m : Message) (rest : List ℕ)
    → IsSendable m
    → mqtt_parse_message (packet_of m ++ rest) ≡ some (taken m.0 m.1 rest)
unfolding packet_of
packet_of-taken (topic, payload) rest (ht, hp) =
    let (ds, e, c) = encode_length_lem (2 + length topic + length payload) hp in
    rw e (parse_packet ds topic payload rest ht hp c)

packet_of_partial :
    (m : Message) (front back : List ℕ) (x : ℕ)
    → IsSendable m
    → packet_of m ≡ front ++ x ∷ back
    → mqtt_parse_message front ≡ waiting front
unfolding packet_of
packet_of_partial (topic, payload) front back x (ht, hp) cut =
    let (ds, e, c) = encode_length_lem (2 + length topic + length payload) hp in
    publish_partial topic payload front back x ds ht hp e (rw e at cut)

packet_of_nonempty : (m : Message) → IsSendable m → 0 < length (packet_of m)
unfolding packet_of
packet_of_nonempty (topic, payload) (ht, hp) =
    let (ds, e, c) = encode_length_lem (2 + length topic + length payload) hp in
    rw e (packet_nonempty ds topic payload)

observe_taken :
    (m : Message) (rest : List ℕ)
    → observe (record {
      topic = record { size = length m.0; chars = m.0 ++ (m.1 ++ rest) };
      payload = m.1 ++ rest;
      payload_len = length m.1;
    })
      ≡ m
observe_taken (topic, payload) rest =
    ap₂ (λ t p. (t, p)) (take-append (length topic) topic (payload ++ rest) refl)
      (take-append (length payload) payload rest refl)

-- What the loop makes of a front `b` of the stream of `ms`: some of the messages are delivered, and
-- what is kept is the beginning of the others, with no whole packet in it.
record Split (ms : List Message) (r : List ℕ) (got : Received) : Type 0 where
  delivered : List Message
  pending : List Message
  kept : List ℕ
  together : ms ≡ delivered ++ pending
  seen : map observe got.messages ≡ delivered
  stays : got.end ≡ keep kept
  ahead : kept ++ r ≡ stream_of pending
  waits : mqtt_parse_message kept ≡ waiting kept

Split-waiting :
    (ms : List Message) (b r : List ℕ) (fuel : ℕ)
    → b ++ r ≡ stream_of ms
    → mqtt_parse_message b ≡ waiting b
    → Split ms r (parse_loop (suc fuel) b)
unfolding parse_loop
Split-waiting ms b r fuel e w = record {
  delivered = [];
  pending = ms;
  kept = b;
  together = refl;
  seen = rw w;
  stays = rw w;
  ahead = e;
  waits = w;
}

Split-taken :
    (m : Message) (ms : List Message) (b r : List ℕ) (fuel : ℕ)
    → IsSendable m
    → Split ms r (parse_loop fuel b)
    → Split (m ∷ ms) r (parse_loop (suc fuel) (packet_of m ++ b))
unfolding parse_loop
Split-taken m ms b r fuel h s = record {
  delivered = m ∷ s.delivered;
  pending = s.pending;
  kept = s.kept;
  together = ap (λ t. m ∷ t) s.together;
  seen = rw (packet_of-taken m b h) (ap₂ (λ x xs. x ∷ xs) (observe_taken m b) s.seen);
  stays = rw (packet_of-taken m b h) s.stays;
  ahead = s.ahead;
  waits = s.waits;
}

nothing_yet : mqtt_parse_message [] ≡ waiting []
unfolding mqtt_parse_message read_header
nothing_yet = refl

parse_loop-Split :
    (ms : List Message) (b r : List ℕ) (fuel : ℕ)
    → All IsSendable ms
    → b ++ r ≡ stream_of ms
    → length b < fuel
    → Split ms r (parse_loop fuel b)
parse_loop-Split ms b r zero h e k = absurd (omega arith)
parse_loop-Split [] [] r (suc fuel) h e k = Split-waiting [] [] r fuel e nothing_yet
parse_loop-Split [] (x ∷ b) r (suc fuel) h e k = cc
parse_loop-Split (m ∷ ms) b r (suc fuel) (hm, hs) e k =
    elim (append-cut b r (packet_of m) (stream_of ms) e) [
      | inl (b', f, g) ↦ rw f (
          Split-taken m ms b' r fuel hm
            (parse_loop-Split ms b' r fuel hs g (omega (arith, shorter b' f))))
      | inr (x, back, f) ↦ Split-waiting (m ∷ ms) b r fuel e (packet_of_partial m b back x hm f)
    ]
  where
    shorter : (b' : List ℕ) → b ≡ packet_of m ++ b' → length b' < length b
    shorter b' f =
        omega
          (arith, ap (length {A = ℕ}) f, length-append (packet_of m) b', packet_of_nonempty m hm)

parse_buffer-Split :
    (ms : List Message) (b r : List ℕ)
    → All IsSendable ms
    → b ++ r ≡ stream_of ms
    → Split ms r (parse_buffer b)
unfolding parse_buffer
parse_buffer-Split ms b r h e = parse_loop-Split ms b r (suc (length b)) h e (omega arith)

abbrev pub joined : List (List ℕ) → List ℕ
joined [] = []
joined (c ∷ cs) = c ++ joined cs

-- Nothing is kept and nothing pends where all has been read.
none_pending :
    (pending : List Message) (kept : List ℕ)
    → All IsSendable pending
    → kept ≡ stream_of pending
    → mqtt_parse_message kept ≡ waiting kept
    → (pending ≡ []) × (kept ≡ [])
none_pending [] kept h e w = (refl, e)
none_pending (m ∷ ms) kept (hm, hs) e w = cc (rw e at w, packet_of-taken m (stream_of ms) hm)

All_after : (xs ys ms : List Message) → ms ≡ xs ++ ys → All IsSendable ms → All IsSendable ys
All_after [] ys ms e h = subst (All IsSendable) e h
All_after (x ∷ xs) ys [] e h = cc
All_after (x ∷ xs) ys (m ∷ ms) e h = All_after xs ys ms (cc) h.1

receive_all_step :
    (b chunk : List ℕ) (chunks : List (List ℕ)) (kept : List ℕ)
    → (parse_buffer (b ++ chunk)).end ≡ keep kept
    → receive_all (running b) (chunk ∷ chunks) ≡ (
      (receive_all (running kept) chunks).0,
      (parse_buffer (b ++ chunk)).messages ++ (receive_all (running kept) chunks).1,
    )
unfolding receive_all receive
receive_all_step b chunk chunks kept e = rw e

-- From a kept beginning of the stream, any further reads that complete the stream deliver all the
-- messages that pend, in order, and keep nothing.
receive_all-stream :
    (chunks : List (List ℕ)) (ms : List Message) (b : List ℕ)
    → All IsSendable ms
    → b ++ joined chunks ≡ stream_of ms
    → mqtt_parse_message b ≡ waiting b
    → ((receive_all (running b) chunks).0 ≡ running [])
      × (map observe (receive_all (running b) chunks).1 ≡ ms)
receive_all-stream [] ms b h e w =
    let (p, k) = none_pending ms b h (sym (append-nil b) ∙ e) w in
    unfold receive_all in (ap running k, sym p)
receive_all-stream (chunk ∷ chunks) ms b h e w =
    let s : Split ms (joined chunks) (parse_buffer (b ++ chunk)) =
      parse_buffer-Split ms (b ++ chunk) (joined chunks) h
        (append_assoc b chunk (joined chunks) ∙ e) in
    let (done, seen) =
      receive_all-stream chunks s.pending s.kept (All_after s.delivered s.pending ms s.together h)
        s.ahead s.waits in
    rw (receive_all_step b chunk chunks s.kept s.stays) (
      done,
      map-append observe (parse_buffer (b ++ chunk)).messages
            (receive_all (running s.kept) chunks).1
          ∙ ap₂ (λ xs ys. xs ++ ys) s.seen seen
          ∙ sym s.together,
    )

-- For messages whose topics a 16-bit length can tell and whose sizes are within the limit: however
-- their packets, one behind the other, are cut into reads, the callback gets exactly these messages
-- in their order, and nothing is left in the buffer.
pub chunks_delivered :
    (ms : List Message) (chunks : List (List ℕ))
    → All IsSendable ms
    → joined chunks ≡ stream_of ms
    → ((receive_all (running []) chunks).0 ≡ running [])
      × (map observe (receive_all (running []) chunks).1 ≡ ms)
chunks_delivered ms chunks h e = receive_all-stream chunks ms [] h e nothing_yet
