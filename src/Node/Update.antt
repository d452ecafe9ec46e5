-- ===== src/Node/Update.antt =====
-- `NodeCreate` and `NodeUpdate` of node.c.
use mqttfs.Base.{
  ℕ, List, [], ◌∷◌, Bool, true, false, Option, none, some, ◌≡◌, inl, inr, refl, sym, arith, ◌==◌,
  length, take, ◌||◌, ◌&&◌, All, Bool-cases, Option-cases,
}
use mathlib.Core.Path.{subst}
use mqttfs.Str.{Str, IsStr, copied, str_copy}
use mqttfs.Str.Copy.{copied-IsStr}
use mqttfs.Node.{
  Timespec, Node, FuseCall, notify_poll, pollhandle_destroy, CreateAnswers, UpdateAnswers,
  fresh_node, node_create, update_polled, node_update,
}

-- The node's own path and the size that it states are right.
pub record IsNode (n : Node) : Type 0 where
  pub path_there : IsStr n.path
  pub content_size : length n.content ≡ n.size

pub node_create_lem :
    (a : CreateAnswers) (path : Str) (is_dir : Bool) (n : Node)
    → node_create a path is_dir ≡ some n
    → (now : Timespec) × (a.clock ≡ some now) × (n ≡ fresh_node now is_dir (copied path))
unfolding node_create str_copy
node_create_lem a path is_dir n e = elim (Option-cases a.clock) [
  | inl c ↦ cc (rw c at e)
  | inr (now, c) ↦ (now, c, ground arith)
]

pub fresh_node-IsNode :
    (now : Timespec) (is_dir : Bool) (path : Str)
    → IsStr path
    → IsNode (fresh_node now is_dir (copied path))
fresh_node-IsNode now is_dir path h = record {
  path_there = copied-IsStr path h;
  content_size = refl;
}

-- The calls that an update makes for a poll that is blocked on the node, if there is one.
abbrev pub woken : Option ℕ → List FuseCall
woken none = []
woken (some ph) = notify_poll ph ∷ pollhandle_destroy ph ∷ []

abbrev pub is_blocked : Option ℕ → Bool
is_blocked none = false
is_blocked (some ph) = true

abbrev pub has_time : Option Timespec → Bool
has_time none = false
has_time (some now) = true

abbrev IsDestroy : FuseCall → Type 0
IsDestroy (notify_poll ph) = ⊥
IsDestroy (pollhandle_destroy ph) = Unit

-- The node after an update, and the calls that it made, by its result.
abbrev pub AfterUpdate : UpdateAnswers → Node → List ℕ → ℕ → Bool × Node × List FuseCall → Type 0
AfterUpdate a n bytes size (true, n', calls) =
    (now : Timespec) × (a.clock ≡ some now)
    × (n' ≡ record n {
      mtime = now;
      content = take size bytes;
      size = size;
      was_updated = n.was_updated || is_blocked n.ph;
      ph = none;
    })
    × (calls ≡ woken n.ph)
AfterUpdate a n bytes size (false, n', calls) = (n' ≡ n) × All (λ c. ¬ IsDestroy c) calls

-- Whether the system grants an update: the clock, the memory for the bytes, and the notification of a
-- poll, if one is blocked on the node.
abbrev pub is_update_granted : UpdateAnswers → Option ℕ → Bool
is_update_granted a none = has_time a.clock && a.allocated
is_update_granted a (some ph) = has_time a.clock && (a.allocated && a.notified == 0)

pub node_update-result :
    (a : UpdateAnswers) (n : Node) (bytes : List ℕ) (size : ℕ)
    → (node_update a n bytes size).0 ≡ is_update_granted a n.ph
unfolding node_update update_polled
node_update-result a n bytes size = elim (Option-cases n.ph) [
  | inl h ↦ elim (Option-cases a.clock) [
    | inl c ↦ ground (arith, h, c)
    | inr (now, c) ↦ ground (arith, h, c)
  ]
  | inr (ph, h) ↦ elim (Option-cases a.clock) [
    | inl c ↦ ground (arith, h, c)
    | inr (now, c) ↦ ground (arith, h, c)
  ]
]

update_now :
    (a : UpdateAnswers) (n : Node) (bytes : List ℕ) (size : ℕ) (now : Timespec) (ph : Option ℕ)
    → a.clock ≡ some now
    → n.ph ≡ ph
    → AfterUpdate a n bytes size (update_polled a now bytes size n ph)
unfolding update_polled
update_now a n bytes size now none c e = (now, c, ground arith, ground arith)
update_now a n bytes size now (some ph) c e = elim (Bool-cases (a.notified == 0)) [
  | inl z ↦ rw z (now, c, ground arith, ground arith)
  | inr z ↦ rw z (refl, (λ x. x, tt))
]

-- A successful `NodeUpdate` leaves the node with the bytes, no poll blocked on it and the update
-- marked if one was; that one has been notified and its handle destroyed. A failed one leaves the
-- node as it was, and has destroyed no handle.
pub node_update_lem :
    (a : UpdateAnswers) (n : Node) (bytes : List ℕ) (size : ℕ)
    → AfterUpdate a n bytes size (node_update a n bytes size)
unfolding node_update
node_update_lem a n bytes size = elim (Option-cases a.clock) [
  | inl c ↦ by_result (false, n, []) (ground arith) (refl, tt)
  | inr (now, c) ↦ elim (Bool-cases a.allocated) [
    | inl y ↦
        by_result (update_polled a now bytes size n n.ph) (ground arith)
          (update_now a n bytes size now n.ph c refl)
    | inr f ↦ by_result (false, n, []) (ground arith) (refl, tt)
  ]
]
  where
    by_result :
        (r : Bool × Node × List FuseCall)
        → node_update a n bytes size ≡ r
        → AfterUpdate a n bytes size r
        → AfterUpdate a n bytes size (node_update a n bytes size)
    by_result r e h = subst (AfterUpdate a n bytes size) (sym e) h
