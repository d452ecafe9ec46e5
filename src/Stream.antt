-- ===== src/Stream.antt =====
-- The receive buffer of `IoThread` in mqtt.c: what `read` adds to it, and the loop that takes the
-- packets from it and hands the messages to the callback.
pub mod Loop
pub mod Chunks
use mqttfs.Base.{ℕ, zero, suc, ◌+◌, List, [], ◌∷◌, ◌++◌, Option, none, some, length}
use mqttfs.Parser.{
  MqttParseStatus, success, skipped, read_more, error, View, Parsed, mqtt_parse_message,
}

-- How the loop ends: with the bytes to keep, on a parse error, or by a read past the buffer.
-- `stuck` is no outcome of the source: the fuel ran out.
pub data LoopEnd : Type 0 where
  keep : List ℕ → LoopEnd
  failed faulted stuck : LoopEnd

-- The messages that the callback gets, in order, and the end.
pub record Received : Type 0 where
  pub messages : List View
  pub end : LoopEnd

abbrev pub ended : LoopEnd → Received
ended e = record { messages = []; end = e }

abbrev pub deliver : Option View → Received → Received
deliver none r = r
deliver (some v) r = record { messages = v ∷ r.messages; end = r.end }

-- One round; `again` is the rest of the loop.
unfoldable pub on_parsed : Option Parsed → (List ℕ → Received) → Received
on_parsed none again = ended faulted
on_parsed (some p) again = elim p.status [
  | success ↦ deliver p.view (again p.buffer)
  | skipped ↦ again p.buffer
  | read_more ↦ ended (keep p.buffer)
  | error ↦ ended failed
]

unfoldable pub parse_loop : ℕ → List ℕ → Received
unfolding on_parsed
parse_loop zero tail = ended stuck
parse_loop (suc fuel) tail = on_parsed (mqtt_parse_message tail) (λ rest. parse_loop fuel rest)

-- Each round but the last takes a byte at least, so the size of the buffer and one are enough.
unfoldable pub parse_buffer : List ℕ → Received
parse_buffer buffer = parse_loop (suc (length buffer)) buffer

-- The buffer between two reads: it is lost once the thread has left its loop.
pub data Thread : Type 0 where
  running : List ℕ → Thread
  left : Thread

abbrev pub after : LoopEnd → Thread
after (keep tail) = running tail
after _ = left

-- `read` appended `chunk` behind what was kept.
unfoldable pub receive : Thread → List ℕ → Thread × List View
receive left chunk = (left, [])
receive (running buffer) chunk = let r = parse_buffer (buffer ++ chunk) in (after r.end, r.messages)

unfoldable pub receive_all : Thread → List (List ℕ) → Thread × List View
receive_all t [] = (t, [])
receive_all t (chunk ∷ chunks) =
    let (t', now) = receive t chunk in
    let (t'', later) = receive_all t' chunks in (t'', now ++ later)
