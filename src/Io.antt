-- ===== src/Io.antt =====
-- `IoThread` of mqtt.c: one round of its loop. Times are in milliseconds.
pub mod Incoming
pub mod Consume
pub mod Rounds
pub mod Delay
use mqttfs.Base.{
  ℕ, ◌+◌, ◌-◌, ◌*◌, ◌%◌, ◌^◌, List, [], ◌∷◌, ◌++◌, Bool, true, false, Option, none, some, not,
  if◌then◌else◌, ◌==◌, ltb, leb, min, length,
}
use mqttfs.Wire.{Socket, read, send_ping_message}
use mqttfs.Parser.{View}
use mqttfs.Stream.{LoopEnd, keep, failed, faulted, stuck, parse_buffer}
use mqttfs.Queue.{Mqtt}
use mqttfs.Queue.Drain.{Torn, Drained, wait, drain_messages}

-- What the thread works on: the client, the connection and the buffer, of which `buffer` is the part
-- in use.
pub record Io : Type 0 where
  pub client : Mqtt
  pub socket : Socket
  pub buffer : List ℕ
  pub buffer_alloc : ℕ

-- `poll` fails, times out, or tells of the pipe and of the socket whether they can be read.
pub data Poll : Type 0 where
  idle : Poll
  ready : Bool → Bool → Poll

pub data Reading : Type 0 where
  interrupted broken : Reading
  took : ℕ → Reading

-- The answers to one round; `now` is 0 if the clock failed.
pub record IoAnswers : Type 0 where
  pub now : ℕ
  pub queue_locked : Bool
  pub writev : ℕ → Option ℕ
  pub ping_sent : Option ℕ
  pub polled : Poll
  pub token_read : Bool
  pub fionread : Option ℕ
  pub allocated : Bool
  pub reading : Reading

-- What `poll` is told to wait for: a number of milliseconds, or, by a negative number, for ever.
pub data Timeout : Type 0 where
  millis : ℕ → Timeout
  forever : Timeout

-- A round that ends with another, or with the thread's end; what the callback got; and the timeout
-- that `poll` was given, if it was called.
pub record Round : Type 0 where
  pub io : Io
  pub is_left : Bool
  pub received : List View
  pub timeout : Option Timeout

abbrev pub again : Io → Round
again io = record { io = io; is_left = false; received = []; timeout = none }

-- `leave`: the loop is not to be entered again, and the buffer is freed.
abbrev pub leave : Io → List View → Round
leave io received = record {
  io = record io {
    client = record io.client { is_running = false };
    buffer = [];
    buffer_alloc = 0;
  };
  is_left = true;
  received = received;
  timeout = none;
}

-- The buffer is parsed; `none` is a read past its end.
abbrev pub on_end : Io → List View → LoopEnd → Option Round
on_end io received (keep tail) =
    some (record (again (record io { buffer = tail })) { received = received })
on_end io received failed = some (leave io received)
on_end io received faulted = none
on_end io received stuck = none

unfoldable pub take_chunk : Io → List ℕ → Option Round
take_chunk io chunk = let r = parse_buffer (io.buffer ++ chunk) in on_end io r.messages r.end

-- A read that gives nothing is a connection that was closed.
abbrev pub on_read : Io → Option (List ℕ) × Socket → Option Round
on_read io (none, s) = some (leave io [])
on_read io (some [], s) = some (leave (record io { socket = s }) [])
on_read io (some (b ∷ bytes), s) = take_chunk (record io { socket = s }) (b ∷ bytes)

unfoldable pub read_socket : IoAnswers → ℕ → Io → Option Round
unfolding read take_chunk
read_socket a size io = elim a.reading [
  | interrupted ↦ some (again io)
  | broken ↦ some (leave io [])
  | took k ↦ on_read io (read (some k) size io.socket)
]

-- The buffer is grown where the bytes that wait have no room in it.
unfoldable pub grow_buffer : IoAnswers → ℕ → Io → Option Round
unfolding read_socket
grow_buffer a size io =
    if ltb (io.buffer_alloc - length io.buffer) size
    then (if not a.allocated
        then some (again io)
        else read_socket a size (record io { buffer_alloc = length io.buffer + size }))
    else read_socket a size io

unfoldable pub on_polled : IoAnswers → Io → Poll → Option Round
unfolding grow_buffer
on_polled a io idle = some (again io)
on_polled a io (ready true socket_in) = some (
    again (
      if a.token_read
      then record io { client = record io.client { wakeups = io.client.wakeups - 1 } }
      else io))
on_polled a io (ready false false) = some (again io)
on_polled a io (ready false true) = elim a.fionread [
  | none ↦ some (again io)
  | some size ↦ grow_buffer a size io
]

abbrev pub ping_threshold : ℕ
ping_threshold = 100

abbrev pub next_ping : Mqtt → ℕ
next_ping m = m.last_timestamp + m.keepalive * 1000 - ping_threshold

-- `next_ping <= now`. The keepalive is 1 at least, so the time of the next ping is no negative one.
abbrev pub is_ping_due : ℕ → Mqtt → Bool
is_ping_due now m = leb (next_ping m) now

abbrev with_timeout : Timeout → Option Round → Option Round
with_timeout timeout none = none
with_timeout timeout (some r) = some (record r { timeout = some timeout })

-- The difference of two `int64_t`, converted to `int`; `poll` waits forever where that is negative.
abbrev pub timeout_until : ℕ → ℕ → Timeout
timeout_until time now =
    let timeout = (time + 2 ^ 64 - now) % 2 ^ 32 in
    if ltb timeout (2 ^ 31) then millis timeout else forever

unfoldable pub wait_for : IoAnswers → ℕ → Io → Option Round
unfolding on_polled
wait_for a next_timestamp io =
    with_timeout (timeout_until (min (next_ping io.client) next_timestamp) a.now)
      (on_polled a io a.polled)

abbrev on_pinged : IoAnswers → ℕ → Io → Bool × Socket → Option Round
on_pinged a next_timestamp io (false, s) = some (leave (record io { socket = s }) [])
on_pinged a next_timestamp io (true, s) =
    wait_for a next_timestamp
      (record io { socket = s; client = record io.client { last_timestamp = a.now } })

unfoldable pub ping : IoAnswers → ℕ → Io → Option Round
unfolding wait_for send_ping_message
ping a next_timestamp io =
    if is_ping_due a.now io.client
    then on_pinged a next_timestamp io (send_ping_message a.ping_sent io.socket)
    else wait_for a next_timestamp io

abbrev on_drained : IoAnswers → Io → Option (Drained × Mqtt × Socket) → Option Round
on_drained a io none = none
on_drained a io (some (Drained.failed, m, s)) =
    some (leave (record io { client = m; socket = s }) [])
on_drained a io (some (wait next_timestamp, m, s)) =
    ping a next_timestamp (record io { client = m; socket = s })

unfoldable pub io_round : Torn → IoAnswers → Io → Option Round
unfolding ping
io_round torn a io =
    if not io.client.is_running
    then some (leave io [])
    else if a.now == 0
    then some (leave io [])
    else on_drained a io (drain_messages torn a.queue_locked a.writev a.now io.client io.socket)

abbrev behind : List View → Option Round → Option Round
behind received none = none
behind received (some r) = some (record r { received = received ++ r.received })

-- Rounds until the thread leaves its loop, or for as long as answers are given.
unfoldable pub io_rounds : Torn → List IoAnswers → Io → Option Round
io_rounds torn [] io = some (again io)
io_rounds torn (a ∷ later) io = elim (io_round torn a io) [
  | none ↦ none
  | some r ↦ elim r.is_left [
    | true ↦ some r
    | false ↦ behind r.received (io_rounds torn later r.io)
  ]
]
