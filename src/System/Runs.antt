-- ===== src/System/Runs.antt =====
-- Operations, one after the other in any order: no fault, a valid store, and each does what it promises of the map.
use mqttfs.Base.{ℕ, List, [], ◌∷◌, Option, none, some, ◌≡◌, inl, inr, refl, ap, ◌∙◌, Option-cases}
use mathlib.Core.Path.{subst}
use mathlib.Core.Option
use mqttfs.Str.{Str, text}
use mqttfs.Store.{Context, Ret}
use mqttfs.Store.Search.{lookup, IsValid}
use mqttfs.Program.Message.{MessageAnswers}
use mqttfs.Program.Message.Keeping.{ByEntry}
use mqttfs.System.{
  Tree, view, Op, mkdir, create, unlink, rename, write, message, runs, Refines, Unchanged,
}
use mqttfs.System.Allowed.{Allows, AllAllowed, IsNew}
use mqttfs.System.Clients.{has_client}
use mqttfs.System.Steps.{Step, mkdir-Step, create-Step, unlink-Step}
use mqttfs.System.Renames.{rename-Step}
use mqttfs.System.Contents.{write-Step}
use mqttfs.System.Messages.{existing-Step, new-Step}

message-Step :
    (a : MessageAnswers) (topic : Str) (payload : List ℕ) (payload_len : ℕ) (c : Context)
    → IsValid c
    → Allows (message a topic payload payload_len) c
    → Step (message a topic payload payload_len) c
message-Step a topic payload payload_len c v (b, h, l, x) =
    elim (Option-cases (lookup c (text topic))) [
      | inl e ↦
          new-Step a topic payload payload_len c v b h l e
            (subst (λ o. ByEntry o (IsNew a topic c) (λ f. Unit)) e x)
      | inr (f, e) ↦ existing-Step a topic payload payload_len c v b h l f e
    ]

pub run-Step : (o : Op) (c : Context) → IsValid c → Allows o c → Step o c
run-Step (mkdir a path) c v x = mkdir-Step a path c v
run-Step (create a path) c v x = create-Step a path c v
run-Step (unlink locked queue_locked path) c v (m, q, w) =
    unlink-Step locked queue_locked path c m v q w
run-Step (rename a from to mode) c v (m, f, q, l, e, w, y) =
    rename-Step a from to c m f e v q l w mode y
run-Step (write a path bytes size offset) c v (m, q, h) =
    write-Step a path bytes size offset c m v q h
run-Step (message a topic payload payload_len) c v x =
    message-Step a topic payload payload_len c v x

-- The maps between the operations.
abbrev pub Follows : List Op → Tree → List (Option Ret × Context) → Tree → Type 0
Follows [] t [] t' = Unchanged t t'
Follows (o ∷ later) t ((answer, c) ∷ events) t' =
    Refines o t (view c) answer × Follows later (view c) events t'
Follows _ t _ t' = ⊥

pub runs-Follows :
    (ops : List Op) (c : Context)
    → IsValid c
    → AllAllowed ops c
    → (events : List (Option Ret × Context)) × (c' : Context) × (runs ops c ≡ some (events, c'))
      × IsValid c'
      × (has_client c' ≡ has_client c)
      × Follows ops (view c) events (view c')
unfolding runs
runs-Follows [] c v x = ([], c, refl, v, refl, λ key. refl)
runs-Follows (o ∷ later) c v (x, xs) =
    let s = run-Step o c v x in
    let (events, c', e, w, k, y) =
      runs-Follows later s.after s.valid (xs s.answer s.after s.returns) in
    (
      (s.answer, s.after) ∷ events,
      c',
      ap
            (λ r. elim r [
              | none ↦ none
              | some (r, c') ↦ Option.map (λ x. ((r, c') ∷ x.0, x.1)) (runs later c')
            ])
            s.returns
          ∙ ap (Option.map (λ x. ((s.answer, s.after) ∷ x.0, x.1))) e,
      w,
      k ∙ s.client,
      (s.refines, y),
    )
