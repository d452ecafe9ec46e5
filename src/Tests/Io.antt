-- ===== src/Tests/Io.antt =====
-- Runs of the thread of the client.
use mqttfs.Base.{List, [], ◌∷◌, true, false, none, some, inr, ◌≡◌, refl, arith, map}
use mqttfs.Wire.{read, send_publish_message, encode_length, publish_packet}
use mqttfs.Parser.{mqtt_parse_message, read_header, read_remaining_length, read_length, parse_body}
use mqttfs.Stream.{parse_buffer, parse_loop}
use mqttfs.Queue.Drain.{drain_messages}
use mqttfs.Stream.Chunks.{Message, packet_of, stream_of, observe}
use mqttfs.Io.{Io, IoAnswers, Round, ready, took, io_round, io_rounds}
use mqttfs.Io.Rounds.{io_rounds-delivered}
use mqttfs.Io.Delay.{Waits, io_round-Waits}
use mqttfs.Tests.Queue.{one_message, one_message-IsValid, idle, takes, torn_times}

abbrev sent : List Message
sent = (b'a' ∷ [], 7 ∷ 8 ∷ []) ∷ []

-- One round that reads all that waits.
abbrev one_read : IoAnswers
one_read = record {
  now = 5000;
  queue_locked = true;
  writev = takes;
  ping_sent = some 2;
  polled = ready false true;
  token_read = true;
  fionread = some 100;
  allocated = true;
  reading = took 100;
}

abbrev waiting : Io
waiting = record {
  client = one_message;
  socket = record idle { incoming = stream_of sent };
  buffer = [];
  buffer_alloc = 0;
}

io_round-Waits_example : Waits (io_round torn_times one_read waiting)
io_round-Waits_example =
    io_round-Waits torn_times one_read waiting (omega arith) (omega arith) (omega arith)
      (omega arith) one_message-IsValid (inr (omega arith, refl))
      (λ i. (300000000, refl, omega arith))

abbrev after_round : Round
after_round = record {
  io = record {
    client = record one_message { last_timestamp = 5000; messages = [] };
    socket = record idle { sent = 48 ∷ 5 ∷ 0 ∷ 1 ∷ b'a' ∷ 7 ∷ 8 ∷ [] };
    buffer = [];
    buffer_alloc = 100;
  };
  is_left = false;
  received =
      record {
        topic = record { size = 1; chars = b'a' ∷ 7 ∷ 8 ∷ [] };
        payload = 7 ∷ 8 ∷ [];
        payload_len = 2;
      }
      ∷ [];
  timeout = none;
}

round_run : io_rounds torn_times (one_read ∷ []) waiting ≡ some after_round
unfolding io_rounds io_round drain_messages send_publish_message encode_length publish_packet read
    parse_buffer parse_loop mqtt_parse_message read_header read_remaining_length read_length
    parse_body packet_of
round_run = refl

io_rounds-delivered_example :
    (map observe after_round.received ≡ sent) × (after_round.io.buffer ≡ [])
io_rounds-delivered_example =
    io_rounds-delivered torn_times (one_read ∷ []) waiting after_round sent round_run refl refl refl
      refl (omega arith)
