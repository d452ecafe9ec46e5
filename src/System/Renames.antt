-- ===== src/System/Renames.antt =====
-- A rename does what it promises of the map, in each mode.
use mqttfs.Base.{
  ℕ, List, Bool, true, false, Option, none, some, ◌≡◌, ◌≢◌, refl, sym, ap, ◌∙◌, if◌then◌else◌,
}
use mathlib.Core.Option
use mathlib.Core.Path.{subst}
use mqttfs.Queue.{Mqtt}
use mqttfs.Store.{Context, Item, Ret}
use mqttfs.Store.Search.{Found, lookup, same, IsValid}
use mqttfs.Fs.Make.Outcome.{path_text}
use mqttfs.Fs.Rename.{RenameAnswers}
use mqttfs.Fs.Rename.Announce.{CanPublish}
use mqttfs.Fs.Rename.Laws.{NoreplaceOutcome, is_granted, mqttfs_rename-noreplace}
use mqttfs.Fs.Rename.Exchange.{
  ExchangeOutcome, Exchanged, Exchanges, is_taken, mqttfs_rename-exchange,
}
use mqttfs.Fs.Rename.Replace.{ReplaceOutcome, Replaced, mqttfs_rename-replaces}
use mqttfs.System.{entry_of, view, Mode, rename, answered, run, Renamed, Refines}
use mqttfs.System.Allowed.{Target}
use mqttfs.System.Clients.{noreplace_client, exchange_client, replace_client}
use mqttfs.System.Steps.{Step, view_same, view_kept, view_at, map_if, given}

module _ (a : RenameAnswers) (from to : List ℕ) (c : Context) (m : Mqtt) (f : Found)
    (e : lookup c (path_text from) ≡ some f) where
  noreplace-Refines :
      (c' : Context) (r : Ret) (found : Option Found) (granted : Bool)
      → lookup c (path_text to) ≡ found
      → NoreplaceOutcome a from to c m f r c' found granted
      → Refines (rename a from to Mode.noreplace) (view c) (view c') (some r)
  noreplace-Refines c' r (some g) granted k (p, s) =
      given (rename a from to Mode.noreplace) (view c) (view c') r _ p (view_kept c c' s)
  noreplace-Refines c' r none false k (p, n, t, m', q, x) =
      given (rename a from to Mode.noreplace) (view c) (view c') r _ p (view_same c c' n t)
  noreplace-Refines c' r none true k (p, looked_up, m', q, x) =
      given (rename a from to Mode.noreplace) (view c) (view c') r _ p (
        entry_of f,
        view_at c (path_text from) (some f) e,
        view_at c (path_text to) none k,
        λ key.
            ap (Option.map entry_of) (looked_up key)
            ∙ map_if (same (path_text to) key) _ _
            ∙ ap (λ o. if same (path_text to) key then some (entry_of f) else o)
                (map_if (same (path_text from) key) none (lookup c key)),
      )

  module _ (g : Found) (k : lookup c (path_text to) ≡ some g) where
    Exchanged-view :
        (c' : Context) (m' : Mqtt)
        → Exchanged a from to c m f g c' m'
        → Renamed (path_text from) (path_text to) (view c) (view c') Mode.exchange
    Exchanged-view c' m' (looked_up, q, x) = (
      entry_of f,
      entry_of g,
      view_at c (path_text from) (some f) e,
      view_at c (path_text to) (some g) k,
      λ key.
          ap (Option.map entry_of) (looked_up key)
          ∙ map_if (same (path_text to) key) _ _
          ∙ ap (λ o. if same (path_text to) key then some (entry_of f) else o)
              (map_if (same (path_text from) key) _ (lookup c key)),
    )

    exchange-Refines :
        (c' : Context) (m' : Mqtt) (r : Ret) (d d' taken : Bool)
        → ExchangeOutcome a from to c m f g r c' m' d d' taken
        → Refines (rename a from to Mode.exchange) (view c) (view c') (some r)
    exchange-Refines c' m' r true false taken (p, s) =
        given (rename a from to Mode.exchange) (view c) (view c') r _ p (view_kept c c' s)
    exchange-Refines c' m' r false true taken (p, s) =
        given (rename a from to Mode.exchange) (view c) (view c') r _ p (view_kept c c' s)
    exchange-Refines c' m' r true true taken (p, x) =
        given (rename a from to Mode.exchange) (view c) (view c') r _ p (Exchanged-view c' m' x)
    exchange-Refines c' m' r false false false (p, (n, t, m1, q, x)) =
        given (rename a from to Mode.exchange) (view c) (view c') r _ p (view_same c c' n t)
    exchange-Refines c' m' r false false true (p, x) =
        given (rename a from to Mode.exchange) (view c) (view c') r _ p (Exchanged-view c' m' x)

    Replaced-view :
        (c' : Context)
        → Replaced a from to c m f g c'
        → Renamed (path_text from) (path_text to) (view c) (view c') Mode.replace
    Replaced-view c' (looked_up, freed, m1, m2, q, x, y) = (
      entry_of f,
      view_at c (path_text from) (some f) e,
      λ key.
          ap (Option.map entry_of) (looked_up key)
          ∙ map_if (same (path_text from) key) none _
          ∙ ap (λ o. if same (path_text from) key then none else o)
              (map_if (same (path_text to) key) _ (lookup c key)),
    )

    replace-Refines :
        (c' : Context) (r : Ret) (d d' taken : Bool)
        → ReplaceOutcome a from to c m f g r c' d d' taken
        → Refines (rename a from to Mode.replace) (view c) (view c') (some r)
    replace-Refines c' r true false taken (p, s) =
        given (rename a from to Mode.replace) (view c) (view c') r _ p (view_kept c c' s)
    replace-Refines c' r false true taken (p, s) =
        given (rename a from to Mode.replace) (view c) (view c') r _ p (view_kept c c' s)
    replace-Refines c' r true true taken (p, x) =
        given (rename a from to Mode.replace) (view c) (view c') r _ p (Replaced-view c' x)
    replace-Refines c' r false false false (p, (n, t, m1, q, x)) =
        given (rename a from to Mode.replace) (view c) (view c') r _ p (view_same c c' n t)
    replace-Refines c' r false false true (p, x) =
        given (rename a from to Mode.replace) (view c) (view c') r _ p (Replaced-view c' x)

  module _ (v : IsValid c) (q : c.mqtt ≡ some m) (l : a.locked ≡ true)
      (w : (root : List (ℕ × Item)) → a.relocate root ≡ root) where
    pub rename-Step : (mode : Mode) → Target a from to c m f mode → Step (rename a from to mode) c
    unfolding run
    rename-Step Mode.noreplace y =
        let (r, c', returns, valid, x) = mqttfs_rename-noreplace a from to c m f v q l e w y in
        record {
          answer = some r;
          after = c';
          returns = ap answered returns;
          valid = valid;
          refines = noreplace-Refines c' r _ (is_granted a to f m) refl x;
          client = noreplace_client c c' m q a from to f r _ (is_granted a to f m) x;
        }
    rename-Step Mode.exchange (g, k, ne, y) =
        let (r, c', m', returns, valid, x) = exchanges g k ne y in
        record {
          answer = some r;
          after = c';
          returns = ap answered returns;
          valid = valid;
          refines = exchange-Refines g k c' m' r f.found.is_dir g.found.is_dir (is_taken a f g m) x;
          client =
              exchange_client c c' m q a from to f r g m' f.found.is_dir g.found.is_dir
                (is_taken a f g m) x;
        }
      where
        same_found : (g h : Found) → some g ≡ some h → g ≡ h
        same_found g h p = cc p

        exchanges :
            (g : Found)
            → lookup c (path_text to) ≡ some g
            → path_text from ≢ path_text to
            → CanPublish a.published g.found.path f.found m
            → Exchanges a from to c m f (some g)
        exchanges g k ne y = subst (Exchanges a from to c m f) k (
            mqttfs_rename-exchange a from to c m f v q l e ne (λ h t.
              subst (λ (g : Found). CanPublish a.published g.found.path f.found m)
                (same_found g h (sym k ∙ t)) y))
    rename-Step Mode.replace (g, k, ne, y) =
        let (r, c', returns, valid, x) = mqttfs_rename-replaces a from to c m f g v q l e k ne y in
        record {
          answer = some r;
          after = c';
          returns = ap answered returns;
          valid = valid;
          refines = replace-Refines g k c' r f.found.is_dir g.found.is_dir (is_taken a f g m) x;
          client =
              replace_client c c' m q a from to f r g f.found.is_dir g.found.is_dir
                (is_taken a f g m) x;
        }
