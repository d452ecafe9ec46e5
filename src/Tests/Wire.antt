-- ===== src/Tests/Wire.antt =====
-- Runs of str.c, mqtt_impl.c and mqtt_parser.c.
use mqttfs.Base.{
  ℕ, ◌+◌, ◌-◌, ◌^◌, ◌≤◌, List, [], ◌∷◌, ◌++◌, true, none, some, Ordering, ◌≡◌, ◌↔◌, refl, arith,
  length, take, ◌==◌,
}
use mqttfs.Str.{text, str_view, str_compare, str_base_path}
use mqttfs.Str.Compare.{flip, str_compare_lem}
use mqttfs.Wire.{Socket, encode_length, publish_packet, write_all, send_publish_message}
use mqttfs.Wire.Length.{Encodes, encode_length_lem}
use mqttfs.Parser.{
  success, skipped, read_more, mqtt_parse_message, read_header, read_remaining_length, read_length,
  parse_body,
}
use mqttfs.Parser.Growth.{extend, mqtt_parse_message-append}
use mqttfs.Parser.Progress.{mqtt_parse_message-Advances}
use mqttfs.Parser.RoundTrip.{taken}
use mqttfs.Parser.Delivery.{publish_delivered, publish_partial}
use mqttfs.Parser.Bounds.{
  InBuffer, IsShort, mqtt_parse_message-InBuffer, payload_wraps, mqtt_parse_message-faults,
}

-- "a/b" and "17"
abbrev topic : List ℕ
topic = b'a' ∷ b'/' ∷ b'b' ∷ []

abbrev payload : List ℕ
payload = b'1' ∷ b'7' ∷ []

abbrev longer : List ℕ
longer = b'a' ∷ b'b' ∷ b'c' ∷ b'd' ∷ []

abbrev packet : List ℕ
packet = 0x30 ∷ 7 ∷ 0 ∷ 3 ∷ b'a' ∷ b'/' ∷ b'b' ∷ b'1' ∷ b'7' ∷ []

abbrev idle : Socket
idle = record { sent = []; incoming = [] }

encode_321 : encode_length 321 ≡ some (0xc1 ∷ 0x02 ∷ [])
unfolding encode_length
encode_321 = refl

publish_bytes :
    send_publish_message (some 100) topic 3 payload 2 idle
    ≡ some (true, record { sent = packet; incoming = [] })
unfolding send_publish_message encode_length write_all publish_packet
publish_bytes = refl

parse_packet_bytes :
    mqtt_parse_message (packet ++ 0xd0 ∷ []) ≡ some (taken topic payload (0xd0 ∷ []))
unfolding mqtt_parse_message read_header read_remaining_length read_length parse_body
parse_packet_bytes = refl

parse_ping :
    mqtt_parse_message (0xd0 ∷ 0 ∷ 5 ∷ [])
    ≡ some (record { status = skipped; buffer = 5 ∷ []; view = none })
unfolding mqtt_parse_message read_header read_remaining_length read_length parse_body
parse_ping = refl

base_path_text : text (str_base_path (str_view topic)) ≡ b'a' ∷ []
unfolding str_base_path str_view
base_path_text = refl

str_compare_lem_example :
    ((str_compare (str_view topic) (str_view payload) ≡ Ordering.eq) ↔ (topic ≡ payload))
    × (str_compare (str_view payload) (str_view topic)
        ≡ flip (str_compare (str_view topic) (str_view payload)))
unfolding str_view
str_compare_lem_example =
    str_compare_lem (str_view topic) (str_view payload) (omega arith) (omega arith)

encode_length_lem_example : (ds : List ℕ) × (encode_length 321 ≡ some ds) × Encodes 321 4 ds
encode_length_lem_example = encode_length_lem 321 (omega arith)

mqtt_parse_message-append_example :
    mqtt_parse_message (packet ++ 0xd0 ∷ 0 ∷ [])
    ≡ some (extend (0 ∷ []) (taken topic payload (0xd0 ∷ [])))
mqtt_parse_message-append_example =
    mqtt_parse_message-append (packet ++ 0xd0 ∷ []) (0 ∷ []) (taken topic payload (0xd0 ∷ []))
      (λ e. cc) parse_packet_bytes

mqtt_parse_message-Advances_example : 1 + 2 ≤ 10
mqtt_parse_message-Advances_example =
    mqtt_parse_message-Advances (packet ++ 0xd0 ∷ []) (taken topic payload (0xd0 ∷ []))
      parse_packet_bytes

publish_delivered_example :
    (packet : List ℕ) × (n : ℕ) × (n ≤ length packet)
    × (send_publish_message (some 4) topic 3 payload 2 idle
        ≡ some (n == length packet, record idle { sent = take n packet }))
    × (mqtt_parse_message (packet ++ 0xd0 ∷ []) ≡ some (taken topic payload (0xd0 ∷ [])))
publish_delivered_example =
    publish_delivered (some 4) topic payload (0xd0 ∷ []) idle (omega arith) (omega arith)

publish_partial_example :
    mqtt_parse_message (0x30 ∷ 7 ∷ 0 ∷ 3 ∷ [])
    ≡ some (record { status = read_more; buffer = 0x30 ∷ 7 ∷ 0 ∷ 3 ∷ []; view = none })
unfolding encode_length publish_packet
publish_partial_example =
    publish_partial topic payload (0x30 ∷ 7 ∷ 0 ∷ 3 ∷ []) (b'/' ∷ b'b' ∷ b'1' ∷ b'7' ∷ []) b'a'
      (7 ∷ []) (omega arith) (omega arith) refl refl

mqtt_parse_message-InBuffer_example : InBuffer (record {
  topic = record { size = 3; chars = topic ++ (payload ++ 0xd0 ∷ []) };
  payload = payload ++ 0xd0 ∷ [];
  payload_len = 2;
})
mqtt_parse_message-InBuffer_example =
    mqtt_parse_message-InBuffer (packet ++ 0xd0 ∷ []) (taken topic payload (0xd0 ∷ []))
      (record {
        topic = record { size = 3; chars = topic ++ (payload ++ 0xd0 ∷ []) };
        payload = payload ++ 0xd0 ∷ [];
        payload_len = 2;
      })
      parse_packet_bytes refl

payload_wraps_example :
    mqtt_parse_message (0x31 ∷ 4 ∷ 0 ∷ 4 ∷ b'a' ∷ b'b' ∷ [])
    ≡ some (record {
      status = success;
      buffer = [];
      view = some (record {
        topic = record { size = 4; chars = b'a' ∷ b'b' ∷ [] };
        payload = [];
        payload_len = 2 ^ 64 - 2;
      });
    })
payload_wraps_example =
    payload_wraps 0x31 4 4 (4 ∷ []) (b'a' ∷ b'b' ∷ []) refl (omega arith) (omega arith)
      (omega arith) (record { valued = omega arith; continued = omega arith; fits = omega arith })
      (omega arith)

mqtt_parse_message-faults_example :
    (mqtt_parse_message (0x30 ∷ 0 ∷ []) ≡ none) ↔ IsShort (0x30 ∷ 0 ∷ [])
mqtt_parse_message-faults_example = mqtt_parse_message-faults (0x30 ∷ 0 ∷ [])
