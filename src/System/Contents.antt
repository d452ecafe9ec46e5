-- ===== src/System/Contents.antt =====
-- A write and a message do what they promise of the map.
use mqttfs.Base.{
  ℕ, ◌≤◌, ◌-◌, ◌%◌, ◌^◌, ltb, List, Bool, true, false, Option, none, some, ◌≡◌, inl, inr, refl, ap,
  ◌∙◌, arith, if◌then◌else◌, take, length, length-take, Bool-cases, Option-cases,
}
use mathlib.Core.Option
use mqttfs.Node.{with_data}
use mqttfs.Node.Update.{IsNode}
use mqttfs.Queue.{Mqtt}
use mqttfs.Store.{Context, Errno, negative, ok, err, eio, eisdir, enoent}
use mqttfs.Store.Search.{Found, lookup, same, IsValid}
use mqttfs.Store.Replace.{replaced, lookup-mqtt}
use mqttfs.Fs.Make.Outcome.{path_text}
use mqttfs.Fs.Open.{mqttfs_open}
use mqttfs.Fs.Open.Laws.{open_answer, open-lookup}
use mqttfs.Fs.Data.{WriteAnswers}
use mqttfs.Fs.Data.Laws.{told, is_written, WriteOutcome, mqttfs_write_lem}
use mqttfs.System.{
  entry_of, view, write, answered, open_and_write, write_opened, run, Refines, Effect, Puts,
}
use mqttfs.System.Written.{found_in, lookup-replaced}
use mqttfs.System.Clients.{write_client}
use mqttfs.System.Steps.{Step, view_at, map_if}

module _ (a : WriteAnswers) (path bytes : List ℕ) (size offset : ℕ) (c : Context) (m : Mqtt)
    (v : IsValid c) (q : c.mqtt ≡ some m) (h : size ≤ length bytes) where
  opens :
      (o : Option Found)
      → lookup c (path_text path) ≡ o
      → mqttfs_open true path c ≡ some (open_answer false o, c)
  opens o e = (open-lookup path c v).0 ∙ ap (λ o. some (open_answer false o, c)) e

  not_opened :
      (o : Option Found) (er : Errno)
      → lookup c (path_text path) ≡ o
      → open_answer false o ≡ (err er, none)
      → Step (write a path bytes size offset) c
  unfolding run open_and_write
  not_opened o er e p = record {
    answer = some (err er);
    after = c;
    returns =
        ap
          (λ x.
            answered
              (elim x [ none ↦ none | some (r, c') ↦ write_opened a bytes size offset r c' ]))
          (opens o e ∙ ap (λ x. some (x, c)) p);
    valid = v;
    refines = λ key. refl;
    client = refl;
  }

  module _ (f : Found) (e : lookup c (path_text path) ≡ some f) (d : f.found.is_dir ≡ false) where
    file_opens : mqttfs_open true path c ≡ some ((ok 0, some f.addr), c)
    file_opens =
        opens (some f) e
        ∙ ap (λ (b : Bool). some ((if b then (err eisdir, none) else (ok 0, some f.addr)), c)) d

    write_view :
        (c' : Context) (m' : Mqtt)
        → WriteOutcome a f.addr bytes size c f.found m m' c' true
        → Puts (path_text path) (false, take size bytes) (view c) (view c')
    write_view c' m' (x, now, k, p) key =
        ap (λ c. view c key) p
        ∙ ap (Option.map entry_of) (
            lookup-mqtt (replaced c f.addr (with_data now bytes size f.found)) (some m') key
            ∙ lookup-replaced c v (path_text path) f e (with_data now bytes size f.found) refl good
                key)
        ∙ map_if (same (path_text path) key) _ (lookup c key)
        ∙ ap (λ b. if same (path_text path) key then some (b, take size bytes) else view c key) d
      where
        good : IsNode (with_data now bytes size f.found)
        good = record {
          path_there = (found_in c (path_text path) f v e).good.path_there;
          content_size = omega (arith, length-take size bytes);
        }

    write-Refines :
        (c' : Context) (m' : Mqtt) (b : Bool)
        → WriteOutcome a f.addr bytes size c f.found m m' c' b
        → Refines
            (write a path bytes size offset)
            (view c)
            (view c')
            (some (if b then told size else err eio))
    write-Refines c' m' true x = told-Refines (ltb size (2 ^ 31)) (ltb (size % 2 ^ 32) (2 ^ 31))
      where
        effect : Effect (write a path bytes size offset) (view c) (view c')
        effect = (
          f.found.content,
          view_at c (path_text path) (some f) e ∙ ap (λ b. some (b, f.found.content)) d,
          write_view c' m' x,
        )

        told-Refines :
            (b b' : Bool)
            → Refines (write a path bytes size offset) (view c) (view c') (
                some (
                  if b
                  then ok size
                  else if b'
                  then ok (size % 2 ^ 32)
                  else negative (2 ^ 32 - size % 2 ^ 32)))
        told-Refines true b' = effect
        told-Refines false true = effect
        told-Refines false false = effect
    write-Refines c' m' false (x, p) =
        λ key. ap (λ c. view c key) p ∙ ap (Option.map entry_of) (lookup-mqtt c (some m') key)

    file_written : Step (write a path bytes size offset) c
    unfolding run open_and_write
    file_written =
        let here = found_in c (path_text path) f v e in
        let (c', m', returns, valid, x) =
          mqttfs_write_lem a f.addr bytes size offset c f.found m v here.stored q here.good h in
        record {
          answer = some (if is_written a f.found size m then told size else err eio);
          after = c';
          returns =
              ap
                (λ x.
                  answered
                    (elim x [ none ↦ none | some (r, c') ↦ write_opened a bytes size offset r c' ]))
                file_opens
              ∙ ap answered returns;
          valid = valid;
          refines = write-Refines c' m' (is_written a f.found size m) x;
          client =
              write_client c c' m q a f.addr bytes size f.found m' (is_written a f.found size m) x;
        }

  pub write-Step : Step (write a path bytes size offset) c
  write-Step = elim (Option-cases (lookup c (path_text path))) [
    | inl e ↦ not_opened none enoent e refl
    | inr (f, e) ↦ elim (Bool-cases f.found.is_dir) [
      | inl d ↦
          not_opened (some f) eisdir e
            (ap (λ (b : Bool). if b then (err eisdir, none) else (ok 0, some f.addr)) d)
      | inr d ↦ file_written f e d
    ]
  ]
