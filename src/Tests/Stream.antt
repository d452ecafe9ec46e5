-- ===== src/Tests/Stream.antt =====
-- Runs of the receive loop of mqtt.c.
use mqttfs.Base.{ℕ, List, [], ◌∷◌, ◌≡◌, ◌≢◌, refl, arith, map}
use mqttfs.Wire.{encode_length, publish_packet}
use mqttfs.Parser.{mqtt_parse_message, read_header, read_remaining_length, read_length, parse_body}
use mqttfs.Stream.{stuck, failed, ended, running, parse_loop, parse_buffer, receive, receive_all}
use mqttfs.Stream.Loop.{parse_buffer-ne-stuck}
use mqttfs.Stream.Chunks.{Message, packet_of, stream_of, joined, observe, chunks_delivered}

abbrev messages : List Message
messages = (b'a' ∷ [], b'1' ∷ b'2' ∷ []) ∷ (b'b' ∷ [], []) ∷ []

-- The two packets, cut inside each.
abbrev chunks : List (List ℕ)
chunks = (0x30 ∷ 5 ∷ 0 ∷ []) ∷ (1 ∷ b'a' ∷ b'1' ∷ b'2' ∷ 0x30 ∷ []) ∷ (3 ∷ 0 ∷ 1 ∷ b'b' ∷ []) ∷ []

chunks_stream : joined chunks ≡ stream_of messages
unfolding packet_of encode_length publish_packet
chunks_stream = refl

receive_run : map observe (receive_all (running []) chunks).1 ≡ messages
unfolding receive_all receive parse_buffer parse_loop mqtt_parse_message read_header
    read_remaining_length read_length parse_body
receive_run = refl

-- Five continuation bytes are no length.
bad_length : parse_buffer (0x30 ∷ 0xff ∷ 0xff ∷ 0xff ∷ 0xff ∷ []) ≡ ended failed
unfolding parse_buffer parse_loop mqtt_parse_message read_header read_remaining_length read_length
bad_length = refl

parse_buffer-ne-stuck_example : (parse_buffer (0x30 ∷ 5 ∷ 0 ∷ [])).end ≢ stuck
parse_buffer-ne-stuck_example = parse_buffer-ne-stuck (0x30 ∷ 5 ∷ 0 ∷ [])

chunks_delivered_example :
    ((receive_all (running []) chunks).0 ≡ running [])
    × (map observe (receive_all (running []) chunks).1 ≡ messages)
chunks_delivered_example = chunks_delivered messages chunks (omega arith) chunks_stream
