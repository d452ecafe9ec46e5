-- ===== src/Io/Consume.antt =====
-- What rounds of `IoThread` take from the connection, they put through the receive loop.
use mqttfs.Base.{
  ℕ, zero, suc, ◌+◌, ◌-◌, List, [], ◌∷◌, ◌++◌, Bool, true, false, Option, none, some, not,
  if◌then◌else◌, ◌==◌, ltb, min, length, take, drop, ◌≡◌, inl, inr, refl, sym, ap, ◌∙◌, Bool-cases,
  Option-cases,
}
use mathlib.Core.List.{append-nil}
use mathlib.Core.Path.{ap₂}
use mqttfs.Wire.{Socket, read, send_ping_message}
use mqttfs.Stream.{
  LoopEnd, keep, failed, faulted, stuck, parse_buffer, running, receive, receive_all, after,
}
use mqttfs.Stream.Chunks.{joined}
use mqttfs.Queue.{Mqtt}
use mqttfs.Queue.Drain.{Torn, Drained, wait}
use mqttfs.Io.{
  Timeout, Io, Poll, Reading, on_end, on_read, idle, ready, interrupted, broken, took, IoAnswers,
  Round, take_chunk, read_socket, grow_buffer, on_polled, wait_for, with_timeout, on_pinged,
  on_drained, is_ping_due, ping, io_round, leave,
}
use mqttfs.Io.Incoming.{ping_incoming, DrainKeeps, drain_messages-Keeps}

pub record Consumed (io : Io) (r : Round) : Type 0 where
  pub chunks : List (List ℕ)
  pub taken : io.socket.incoming ≡ joined chunks ++ r.io.socket.incoming
  pub passed : receive_all (running io.buffer) chunks ≡ (running r.io.buffer, r.received)

-- A round that goes on has put what it took through the loop.
abbrev pub Passes : Io → Option Round → Type 0
Passes io none = Unit
Passes io (some r) = if r.is_left then Unit else Consumed io r

pub nothing-Consumed :
    (io io' : Io) (t : Option Timeout)
    → io'.socket.incoming ≡ io.socket.incoming
    → io'.buffer ≡ io.buffer
    → Consumed io (record { io = io'; is_left = false; received = []; timeout = t })
unfolding receive_all
nothing-Consumed io io' t e f = record {
  chunks = [];
  taken = sym e;
  passed = ap (λ b. (running b, [])) (sym f);
}

module _ (io : Io) (chunk : List ℕ) (s : Socket)
    (i : io.socket.incoming ≡ chunk ++ s.incoming) where
  on_end-Passes :
      (end : LoopEnd)
      → (parse_buffer (io.buffer ++ chunk)).end ≡ end
      → Passes io
          (on_end (record io { socket = s }) (parse_buffer (io.buffer ++ chunk)).messages end)
  unfolding receive_all receive
  on_end-Passes (keep tail) q = record {
    chunks = chunk ∷ [];
    taken = i ∙ ap (λ l. l ++ s.incoming) (sym (append-nil chunk));
    passed = ap₂ (λ e m. (after e, m)) q (append-nil (parse_buffer (io.buffer ++ chunk)).messages);
  }
  on_end-Passes failed q = tt
  on_end-Passes faulted q = tt
  on_end-Passes stuck q = tt

  take_chunk-Passes : Passes io (take_chunk (record io { socket = s }) chunk)
  unfolding take_chunk
  take_chunk-Passes = on_end-Passes (parse_buffer (io.buffer ++ chunk)).end refl

take-drop : (n : ℕ) (xs : List ℕ) → xs ≡ take n xs ++ drop n xs
take-drop zero xs = refl
take-drop (suc n) [] = refl
take-drop (suc n) (x ∷ xs) = ap (λ l. x ∷ l) (take-drop n xs)

module _ (io : Io) where
  on_read-Passes :
      (bytes : List ℕ) (s : Socket)
      → io.socket.incoming ≡ bytes ++ s.incoming
      → Passes io (on_read io (some bytes, s))
  on_read-Passes [] s i = tt
  on_read-Passes (b ∷ bytes) s i = take_chunk-Passes io (b ∷ bytes) s i

  read_socket-Passes :
      (a : IoAnswers) (size : ℕ) (reading : Reading)
      → a.reading ≡ reading
      → Passes io (read_socket a size io)
  unfolding read_socket read
  read_socket-Passes a size interrupted e = rw e (nothing-Consumed io io none refl refl)
  read_socket-Passes a size broken e = rw e tt
  read_socket-Passes a size (took k) e = rw e (
      on_read-Passes (take (min k size) io.socket.incoming) _
        (take-drop (min k size) io.socket.incoming))

pub unless_left :
    {A B : Type 0} (b : Bool) → (A → B) → (if b then Unit {0} else A) → (if b then Unit {0} else B)
unless_left true f x = tt
unless_left false f x = f x

Consumed-frame :
    (io io' : Io) (r : Round)
    → io'.socket.incoming ≡ io.socket.incoming
    → io'.buffer ≡ io.buffer
    → Consumed io' r
    → Consumed io r
Consumed-frame io io' r e f c = record {
  chunks = c.chunks;
  taken = sym e ∙ c.taken;
  passed = ap (λ b. receive_all (running b) c.chunks) (sym f) ∙ c.passed;
}

-- Only the buffer and what is to be read matter.
Passes-frame :
    (io io' : Io) (o : Option Round)
    → io'.socket.incoming ≡ io.socket.incoming
    → io'.buffer ≡ io.buffer
    → Passes io' o
    → Passes io o
Passes-frame io io' none e f p = tt
Passes-frame io io' (some r) e f p = unless_left r.is_left (Consumed-frame io io' r e f) p

Passes-timeout :
    (io : Io) (t : Timeout) (o : Option Round) → Passes io o → Passes io (with_timeout t o)
Passes-timeout io t none p = tt
Passes-timeout io t (some r) p =
    unless_left r.is_left (λ c. record { chunks = c.chunks; taken = c.taken; passed = c.passed }) p

module _ (a : IoAnswers) where
  grow_buffer-Passes : (size : ℕ) (io : Io) → Passes io (grow_buffer a size io)
  unfolding grow_buffer
  grow_buffer-Passes size io = elim (Bool-cases (ltb (io.buffer_alloc - length io.buffer) size)) [
    | inr t ↦ rw t (read_socket-Passes io a size a.reading refl)
    | inl t ↦ elim (Bool-cases a.allocated) [
      | inr g ↦ rw (t, g) (nothing-Consumed io io none refl refl)
      | inl g ↦
          rw (t, g)
            (Passes-frame io grown _ refl refl (read_socket-Passes grown a size a.reading refl))
    ]
  ]
    where
      grown : Io
      grown = record io { buffer_alloc = length io.buffer + size }

  on_polled-Passes : (io : Io) (polled : Poll) → Passes io (on_polled a io polled)
  unfolding on_polled
  on_polled-Passes io idle = nothing-Consumed io io none refl refl
  on_polled-Passes io (ready true b) = elim (Bool-cases a.token_read) [
    | inl t ↦ rw t (nothing-Consumed io _ none refl refl)
    | inr t ↦ rw t (nothing-Consumed io io none refl refl)
  ]
  on_polled-Passes io (ready false false) = nothing-Consumed io io none refl refl
  on_polled-Passes io (ready false true) = elim (Option-cases a.fionread) [
    | inl f ↦ rw f (nothing-Consumed io io none refl refl)
    | inr (size, f) ↦ rw f (grow_buffer-Passes size io)
  ]

  wait_for-Passes : (next : ℕ) (io : Io) → Passes io (wait_for a next io)
  unfolding wait_for
  wait_for-Passes next io = Passes-timeout io _ _ (on_polled-Passes io a.polled)

  on_pinged-Passes :
      (next : ℕ) (io : Io) (sent : Bool) (s : Socket)
      → s.incoming ≡ io.socket.incoming
      → Passes io (on_pinged a next io (sent, s))
  on_pinged-Passes next io false s e = tt
  on_pinged-Passes next io true s e = Passes-frame io _ _ e refl (wait_for-Passes next _)

  ping-Passes : (next : ℕ) (io : Io) → Passes io (ping a next io)
  unfolding ping
  ping-Passes next io = elim (Bool-cases (is_ping_due a.now io.client)) [
    | inr d ↦ rw d (wait_for-Passes next io)
    | inl d ↦ rw d (
        on_pinged-Passes next io (send_ping_message a.ping_sent io.socket).0
          (send_ping_message a.ping_sent io.socket).1 (ping_incoming a.ping_sent io.socket))
  ]

on_drained-Passes :
    (a : IoAnswers) (io : Io) (o : Option (Drained × Mqtt × Socket))
    → DrainKeeps io.socket o
    → Passes io (on_drained a io o)
on_drained-Passes a io none h = tt
on_drained-Passes a io (some (Drained.failed, m, s)) h = tt
on_drained-Passes a io (some (wait next, m, s)) h =
    Passes-frame io _ _ h refl (ping-Passes a next (record io { client = m; socket = s }))

guarded-Passes :
    (io : Io) (b : Bool) (o : Option Round)
    → Passes io o
    → Passes io (if not b then some (leave io []) else o)
guarded-Passes io true o p = p
guarded-Passes io false o p = tt

clock-Passes :
    (io : Io) (b : Bool) (o : Option Round)
    → Passes io o
    → Passes io (if b then some (leave io []) else o)
clock-Passes io true o p = tt
clock-Passes io false o p = p

pub io_round-Passes : (torn : Torn) (a : IoAnswers) (io : Io) → Passes io (io_round torn a io)
unfolding io_round
io_round-Passes torn a io = guarded-Passes io io.client.is_running _ (
    clock-Passes io (a.now == 0) _ (
      on_drained-Passes a io _
        (drain_messages-Keeps torn a.queue_locked a.writev a.now io.client io.socket)))
