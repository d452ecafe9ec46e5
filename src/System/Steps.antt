-- ===== src/System/Steps.antt =====
-- The operations that make, remove and rename entries do what they promise of the map.
use mqttfs.Base.{
  ℕ, List, [], Bool, true, false, Option, none, some, ◌≡◌, refl, sym, ap, ◌∙◌, if◌then◌else◌,
}
use mathlib.Core.Option
use mathlib.Core.Path.{subst}
use mqttfs.Queue
use mqttfs.Queue.{Mqtt}
use mqttfs.Store.{Context, Ret, ok, err, negative}
use mqttfs.Store.Search.{Found, lookup, same, IsValid}
use mqttfs.Fs.Make.{MakeAnswers}
use mqttfs.Fs.Make.Outcome.{MakeOutcome, path_text, is_granted, mqttfs_mkdir_lem, mqttfs_create_lem}
use mqttfs.Fs.Remove.Laws.{UnlinkOutcome, mqttfs_unlink_lem}
use mqttfs.System.{
  Tree, entry_of, view, Op, mkdir, create, unlink, answered, run, Puts, Unchanged, Refines,
}
use mqttfs.System.Clients.{has_client, make_client, unlink_client}

pub record Step (o : Op) (c : Context) : Type 0 where
  pub answer : Option Ret
  pub after : Context
  pub returns : run o c ≡ some (answer, after)
  pub valid : IsValid after
  pub refines : Refines o (view c) (view after) answer
  pub client : has_client after ≡ has_client c

pub view_same :
    (c c' : Context) → c'.nodes ≡ c.nodes → c'.root ≡ c.root → Unchanged (view c) (view c')
unfolding lookup
view_same c c' n r key = rw (n, r)

pub view_kept : (c c' : Context) → c' ≡ c → Unchanged (view c) (view c')
view_kept c c' e key = ap (λ c. view c key) e

pub map_if :
    (b : Bool) (x y : Option Found)
    → Option.map entry_of (if b then x else y)
      ≡ (if b then Option.map entry_of x else Option.map entry_of y)
map_if true x y = refl
map_if false x y = refl

pub view_at :
    (c : Context) (key : List ℕ) (o : Option Found)
    → lookup c key ≡ o
    → view c key ≡ Option.map entry_of o
view_at c key o e = ap (Option.map entry_of) e

-- What is said of an answer, at the answer that was given.
pub given :
    (o : Op) (t t' : Tree) (r r' : Ret)
    → r ≡ r'
    → Refines o t t' (some r')
    → Refines o t t' (some r)
given o t t' r r' e p = subst (λ x. Refines o t t' (some x)) (sym e) p

abbrev pub Makes : Bool → List ℕ → Tree → Tree → Ret → Type 0
Makes is_dir path t t' (ok n) =
    (t (path_text path) ≡ none) × Puts (path_text path) (is_dir, []) t t'
Makes is_dir path t t' (negative n) = ⊥
Makes is_dir path t t' (err e) = Unchanged t t'

make-Makes :
    (a : MakeAnswers) (is_dir : Bool) (path : List ℕ) (c c' : Context) (r : Ret × Option ℕ)
    (locked granted : Bool) (found : Option Found)
    → lookup c (path_text path) ≡ found
    → MakeOutcome a is_dir path c r c' locked found granted
    → Makes is_dir path (view c) (view c') r.0
make-Makes a is_dir path c c' r false granted found e (p, s) =
    subst (Makes is_dir path (view c) (view c')) (sym (ap (λ (r : Ret × Option ℕ). r.0) p))
      (view_same c c' s.same_nodes s.same_root)
make-Makes a is_dir path c c' r true granted (some f) e (p, s) =
    subst (Makes is_dir path (view c) (view c')) (sym (ap (λ (r : Ret × Option ℕ). r.0) p))
      (view_kept c c' s)
make-Makes a is_dir path c c' r true false none e (p, s) =
    subst (Makes is_dir path (view c) (view c')) (sym (ap (λ (r : Ret × Option ℕ). r.0) p))
      (view_same c c' s.same_nodes s.same_root)
make-Makes a is_dir path c c' r true true none e m =
    subst (Makes is_dir path (view c) (view c')) (sym (ap (λ (r : Ret × Option ℕ). r.0) m.result)) (
      view_at c (path_text path) none e,
      λ key.
          ap (Option.map entry_of) (m.looked_up key)
          ∙ map_if (same (path_text path) key) _ (lookup c key),
    )

pub mkdir-Step : (a : MakeAnswers) (path : List ℕ) (c : Context) → IsValid c → Step (mkdir a path) c
unfolding run
mkdir-Step a path c v =
    let (r, c', e, w, x) = mqttfs_mkdir_lem a path c v in
    record {
      answer = some r.0;
      after = c';
      returns = ap answered e;
      valid = w;
      refines = by_answer r.0 c' (make-Makes a true path c c' r a.locked (is_granted a) _ refl x);
      client = make_client a true path c c' r a.locked (is_granted a) _ x;
    }
  where
    by_answer :
        (r : Ret) (c' : Context)
        → Makes true path (view c) (view c') r
        → Refines (mkdir a path) (view c) (view c') (some r)
    by_answer (ok n) c' m = m
    by_answer (negative n) c' m = absurd m
    by_answer (err e) c' m = m

pub create-Step :
    (a : MakeAnswers) (path : List ℕ) (c : Context) → IsValid c → Step (create a path) c
unfolding run
create-Step a path c v =
    let (r, c', e, w, x) = mqttfs_create_lem a path c v in
    record {
      answer = some r.0;
      after = c';
      returns = ap (λ o. answered (elim o [ none ↦ none | some (x, c') ↦ some (x.0, c') ])) e;
      valid = w;
      refines = by_answer r.0 c' (make-Makes a false path c c' r a.locked (is_granted a) _ refl x);
      client = make_client a false path c c' r a.locked (is_granted a) _ x;
    }
  where
    by_answer :
        (r : Ret) (c' : Context)
        → Makes false path (view c) (view c') r
        → Refines (create a path) (view c) (view c') (some r)
    by_answer (ok n) c' m = m
    by_answer (negative n) c' m = absurd m
    by_answer (err e) c' m = m

unlink-Refines :
    (locked queue_locked : Bool) (path : List ℕ) (c c' : Context) (m : Mqtt) (r : Ret) (b : Bool)
    (found : Option Found)
    → lookup c (path_text path) ≡ found
    → UnlinkOutcome queue_locked path c m r c' b found
    → Refines (unlink locked queue_locked path) (view c) (view c') (some r)
unlink-Refines locked queue_locked path c c' m r false found e (p, s) =
    given (unlink locked queue_locked path) (view c) (view c') r _ p (view_kept c c' s)
unlink-Refines locked queue_locked path c c' m r true none e (p, s) =
    given (unlink locked queue_locked path) (view c) (view c') r _ p (view_kept c c' s)
unlink-Refines locked queue_locked path c c' m r true (some f) e u =
    given (unlink locked queue_locked path) (view c) (view c') r _ u.result (
      entry_of f,
      view_at c (path_text path) (some f) e,
      λ key.
          ap (Option.map entry_of) (u.looked_up key)
          ∙ map_if (same (path_text path) key) none (lookup c key),
    )

pub unlink-Step :
    (locked queue_locked : Bool) (path : List ℕ) (c : Context) (m : Mqtt)
    → IsValid c
    → c.mqtt ≡ some m
    → Queue.Publish.IsValid m
    → Step (unlink locked queue_locked path) c
unfolding run
unlink-Step locked queue_locked path c m v q w =
    let (r, c', e, valid, x) = mqttfs_unlink_lem locked queue_locked path c m v q w in
    record {
      answer = some r;
      after = c';
      returns = ap answered e;
      valid = valid;
      refines = unlink-Refines locked queue_locked path c c' m r locked _ refl x;
      client = unlink_client c c' m q queue_locked path r locked _ x;
    }
