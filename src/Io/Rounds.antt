-- ===== src/Io/Rounds.antt =====
-- Many rounds of `IoThread`: what the callback gets of what the broker sends.
use mqttfs.Base.{
  ℕ, List, [], ◌∷◌, ◌++◌, Bool, true, false, Option, none, some, if◌then◌else◌, ◌≡◌, refl, sym, ap,
  ◌∙◌, All, map,
}
use mathlib.Core.List.{append-nil, append_assoc}
use mathlib.Core.Path.{subst}
use mqttfs.Stream.{Thread, running, receive, receive_all}
use mqttfs.Stream.Chunks.{Message, IsSendable, stream_of, observe, joined, chunks_delivered}
use mqttfs.Queue.Drain.{Torn}
use mqttfs.Io.{Io, IoAnswers, Round, io_round, io_rounds, behind}
use mqttfs.Io.Consume.{Consumed, Passes, nothing-Consumed, unless_left, io_round-Passes}

receive_all-append :
    (t : Thread) (xs ys : List (List ℕ))
    → receive_all t (xs ++ ys) ≡ (
      (receive_all (receive_all t xs).0 ys).0,
      (receive_all t xs).1 ++ (receive_all (receive_all t xs).0 ys).1,
    )
unfolding receive_all
receive_all-append t [] ys = refl
receive_all-append t (x ∷ xs) ys =
    let (t', now) = receive t x in
    ap (λ p. (p.0, now ++ p.1)) (receive_all-append t' xs ys)
    ∙ ap (λ l. ((receive_all (receive_all t' xs).0 ys).0, l))
        (sym (append_assoc now (receive_all t' xs).1 (receive_all (receive_all t' xs).0 ys).1))

joined-append : (xs ys : List (List ℕ)) → joined (xs ++ ys) ≡ joined xs ++ joined ys
joined-append [] ys = refl
joined-append (x ∷ xs) ys =
    ap (λ l. x ++ l) (joined-append xs ys) ∙ sym (append_assoc x (joined xs) (joined ys))

-- Two rounds, one after the other.
Consumed-later :
    (io : Io) (r r' : Round)
    → Consumed io r
    → Consumed r.io r'
    → Consumed io (record r' { received = r.received ++ r'.received })
Consumed-later io r r' c d = record {
  chunks = c.chunks ++ d.chunks;
  taken =
      c.taken
      ∙ ap (λ l. joined c.chunks ++ l) d.taken
      ∙ sym (append_assoc (joined c.chunks) (joined d.chunks) r'.io.socket.incoming)
      ∙ ap (λ l. l ++ r'.io.socket.incoming) (sym (joined-append c.chunks d.chunks));
  passed =
      receive_all-append (running io.buffer) c.chunks d.chunks
      ∙ ap (λ p. ((receive_all p.0 d.chunks).0, p.1 ++ (receive_all p.0 d.chunks).1)) c.passed
      ∙ ap (λ p. (p.0, r.received ++ p.1)) d.passed;
}

behind-Passes :
    (io : Io) (r : Round) (o : Option Round)
    → Consumed io r
    → Passes r.io o
    → Passes io (behind r.received o)
behind-Passes io r none c p = tt
behind-Passes io r (some r') c p = unless_left r'.is_left (Consumed-later io r r' c) p

io_rounds-Passes :
    (torn : Torn) (answers : List IoAnswers) (io : Io) → Passes io (io_rounds torn answers io)
unfolding io_rounds
io_rounds-Passes torn [] io = nothing-Consumed io io none refl refl
io_rounds-Passes torn (a ∷ later) io =
    by_round (io_round torn a io) (io_round-Passes torn a io)
      (λ io'. io_rounds-Passes torn later io')
  where
    goes_on :
        (r : Round) (l : Bool)
        → (if l then Unit {0} else Consumed io r)
        → Passes r.io (io_rounds torn later r.io)
        → Passes io (some r)
        → Passes io
            (elim l [ true ↦ some r | false ↦ behind r.received (io_rounds torn later r.io) ])
    goes_on r true c p h = h
    goes_on r false c p h = behind-Passes io r (io_rounds torn later r.io) c p

    by_round :
        (o : Option Round)
        → Passes io o
        → ((io' : Io) → Passes io' (io_rounds torn later io'))
        → Passes io (elim o [
          | none ↦ none
          | some r ↦ elim r.is_left [
            | true ↦ some r
            | false ↦ behind r.received (io_rounds torn later r.io)
          ]
        ])
    by_round none h f = tt
    by_round (some r) h f = goes_on r r.is_left h (f r.io) h

still_running :
    (io : Io) (r : Round) (l : Bool)
    → r.is_left ≡ l
    → l ≡ false
    → (if r.is_left then Unit {0} else Consumed io r)
    → Consumed io r
still_running io r true e f p = cc
still_running io r false e f p = subst (λ b. if b then Unit {0} else Consumed io r) e p

rounds-Consumed :
    (torn : Torn) (answers : List IoAnswers) (io : Io) (r : Round)
    → io_rounds torn answers io ≡ some r
    → r.is_left ≡ false
    → Consumed io r
rounds-Consumed torn answers io r e l =
    still_running io r r.is_left refl l (subst (Passes io) e (io_rounds-Passes torn answers io))

running_inj : (x y : List ℕ) → running x ≡ running y → x ≡ y
running_inj x y e = cc

-- Whatever the rounds of `IoThread` do besides (send what is due, ping, find nothing to read, fail to
-- grow the buffer): if the thread goes on, it started with an empty buffer, and it has read all that
-- the broker sent, which was the packets of some messages within the limits, then the callback got
-- exactly these messages in their order, and the buffer is empty.
pub io_rounds-delivered :
    (torn : Torn) (answers : List IoAnswers) (io : Io) (r : Round) (ms : List Message)
    → io_rounds torn answers io ≡ some r
    → r.is_left ≡ false
    → io.buffer ≡ []
    → io.socket.incoming ≡ stream_of ms
    → r.io.socket.incoming ≡ []
    → All IsSendable ms
    → (map observe r.received ≡ ms) × (r.io.buffer ≡ [])
io_rounds-delivered torn answers io r ms e l b sent all h =
    let c = rounds-Consumed torn answers io r e l in
    let bytes : joined c.chunks ≡ stream_of ms =
      sym (append-nil (joined c.chunks))
      ∙ ap (λ x. joined c.chunks ++ x) (sym all)
      ∙ sym c.taken
      ∙ sent in
    let whole = chunks_delivered ms c.chunks h bytes in
    let passed : receive_all (running []) c.chunks ≡ (running r.io.buffer, r.received) =
      ap (λ x. receive_all (running x) c.chunks) (sym b) ∙ c.passed in
    (
      ap (λ p. map observe p.1) (sym passed) ∙ whole.1,
      running_inj r.io.buffer [] (ap (λ p. p.0) (sym passed) ∙ whole.0),
    )
