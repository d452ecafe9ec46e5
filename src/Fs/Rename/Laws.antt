-- ===== src/Fs/Rename/Laws.antt =====
-- A rename that replaces nothing, against the map of the tree and the message queue.
use mqttfs.Base.{
  ℕ, suc, ◌<◌, List, Bool, true, false, ◌&&◌, ◌||◌, Option, none, some, ◌≡◌, inl, inr, ltb, refl,
  sym, ap, ◌∙◌, arith, if◌then◌else◌, drop, Bool-cases,
}
use mathlib.Core.Path.{subst, fun_ext}
use mqttfs.Str.{text, copied, str_view}
use mqttfs.Str.Copy.{str_view-IsStr, text-copied, copied-IsStr}
use mqttfs.Node.{Node}
use mqttfs.Node.Update.{IsNode}
use mqttfs.Queue.{Mqtt}
use mqttfs.Queue.Publish.{is_accepted}
use mqttfs.Store.{Item, Context, node, without, Ret, ok, err, eio, eexist}
use mqttfs.Store.Search.{Found, lookup, same, IsValid, IsFound}
use mqttfs.Store.Edit.{Ascending-new}
use mqttfs.Store.Frame.{Ascending-without}
use mqttfs.Store.Insert.{placed, IsValid-placed, lookup-placed, IsValid-next}
use mqttfs.Store.Replace.{IsValid-mqtt, lookup-mqtt}
use mqttfs.Store.Memory.{removed, IsValid-removed, lookup-removed}
use mqttfs.Fs.Make.Outcome.{path_text}
use mqttfs.Fs.Rename.{RenameAnswers, announce, mqttfs_rename, noreplace_flag}
use mqttfs.Fs.Rename.Announce.{CanPublish, AnnounceOutcome, announce-Announced}
use mqttfs.Fs.Rename.Move.{
  found_there, move_exists, move_no_room, move_no_copy, move_refused, move_done, grown,
}

-- The node of an entry under its new name.
abbrev pub renamed : Found → List ℕ → Node
renamed f to = record f.found { path = copied (str_view (drop 1 to)) }

-- Whether the system grants what the rename asks for, and the client takes the message of a file.
abbrev pub is_granted : RenameAnswers → List ℕ → Found → Mqtt → Bool
is_granted a to f m =
    a.tree_grown
    && a.path_copied
    && (f.found.is_dir || is_accepted a.published (str_view (drop 1 to)) f.found.size m)

-- By what the tree has under the new path, and by the answers.
abbrev pub NoreplaceOutcome :
    RenameAnswers
    → List ℕ
    → List ℕ
    → Context
    → Mqtt
    → Found
    → Ret
    → Context
    → Option Found
    → Bool
    → Type 0
NoreplaceOutcome a from to c m f r c' (some g) granted = (r ≡ err eexist) × (c' ≡ c)
NoreplaceOutcome a from to c m f r c' none false =
    (r ≡ err eio)
    × (c'.nodes ≡ c.nodes)
    × (c'.root ≡ c.root)
    × (m' : Mqtt) × (c'.mqtt ≡ some m')
    × (m'.messages ≡ m.messages)
NoreplaceOutcome a from to c m f r c' none true =
    (r ≡ ok 0)
    × ((key : List ℕ)
        → lookup c' key ≡ (
            if same (path_text to) key
            then some (record { slot = c.next; addr = f.addr; found = renamed f to })
            else if same (path_text from) key
            then none
            else lookup c key))
    × (m' : Mqtt) × (c'.mqtt ≡ some m')
    × AnnounceOutcome a f.found (str_view (drop 1 to)) m m' f.found.is_dir true

announced_done :
    (a : RenameAnswers) (n : Node) (to : List ℕ) (m m' : Mqtt) (is_dir done : Bool)
    → AnnounceOutcome a n (str_view (drop 1 to)) m m' is_dir done
    → (is_dir || is_accepted a.published (str_view (drop 1 to)) n.size m) ≡ done
announced_done a n to m m' true done (e, x) = sym e
announced_done a n to m m' false false (e, x) = e
announced_done a n to m m' false true (e, x, y) = e

announced_refused :
    (a : RenameAnswers) (n : Node) (to : List ℕ) (m m' : Mqtt) (is_dir : Bool)
    → AnnounceOutcome a n (str_view (drop 1 to)) m m' is_dir false
    → m'.messages ≡ m.messages
announced_refused a n to m m' true (e, x) = cc
announced_refused a n to m m' false (e, x) = x

record Outcome (a : RenameAnswers) (from to : List ℕ) (c : Context) (m : Mqtt) (f : Found)
    (there : Option Found) (granted : Bool) : Type 0 where
  result : Ret
  after : Context
  returns : mqttfs_rename a from to noreplace_flag c ≡ some (result, after)
  valid : IsValid after
  outcome : NoreplaceOutcome a from to c m f result after there granted

module _ (a : RenameAnswers) (from to : List ℕ) (c : Context) (m : Mqtt) (f : Found) (v : IsValid c)
    (q : c.mqtt ≡ some m) (l : a.locked ≡ true) (e : lookup c (path_text from) ≡ some f) where
  existing :
      (g : Found) (granted : Bool)
      → lookup c (path_text to) ≡ some g
      → Outcome a from to c m f (some g) granted
  existing g granted k = record {
    result = err eexist;
    after = c;
    returns = move_exists a from to c v l f e g k;
    valid = v;
    outcome = (refl, refl);
  }

  module _ (k : lookup c (path_text to) ≡ none) where
    no_room : a.tree_grown ≡ false → Outcome a from to c m f none false
    no_room g = record {
      result = err eio;
      after = c;
      returns = move_no_room a from to c v l f e k g;
      valid = v;
      outcome = (refl, refl, refl, m, q, refl);
    }

    no_copy : a.tree_grown ≡ true → a.path_copied ≡ false → Outcome a from to c m f none false
    no_copy g p = record {
      result = err eio;
      after = record c { next = suc c.next };
      returns = move_no_copy a from to c v l f e k g p;
      valid = IsValid-next c v;
      outcome = (refl, refl, refl, m, q, refl);
    }

    refused :
        (g : a.tree_grown ≡ true) (p : a.path_copied ≡ true) (m' : Mqtt)
        → announce a f.found (str_view (drop 1 to)) (grown a from to c v l f e k g)
          ≡ some (false, record (grown a from to c v l f e k g) { mqtt = some m' })
        → m'.messages ≡ m.messages
        → Outcome a from to c m f none false
    refused g p m' r s = record {
      result = err eio;
      after = record c { next = suc c.next; mqtt = some m' };
      returns = move_refused a from to c v l f e k g (some m') p r;
      valid = IsValid-mqtt (record c { next = suc c.next }) (some m') (IsValid-next c v);
      outcome = (refl, refl, refl, m', refl, s);
    }

    gone : lookup (removed c f) (path_text to) ≡ none
    gone =
        lookup-removed c v (path_text from) f e (path_text to)
        ∙ either (same (path_text from) (path_text to))
      where
        either : (b : Bool) → (if b then none else lookup c (path_text to)) ≡ none
        either true = refl
        either false = k

    here : IsFound c.nodes (path_text from) f
    here = found_there a from to c v (path_text from) f e

    below_next : f.addr < c.next
    below_next = elim (Bool-cases (ltb f.addr c.next)) [
      | inl y ↦ ground (arith, y)
      | inr y ↦ cc (here.stored, v.unused f.addr (ground (arith, y)))
    ]

    text_moved : text (renamed f to).path ≡ path_text to
    text_moved = text-copied (str_view (drop 1 to)) (str_view-IsStr (drop 1 to))

    moved_IsNode : IsNode (renamed f to)
    moved_IsNode = record {
      path_there = copied-IsStr (str_view (drop 1 to)) (str_view-IsStr (drop 1 to));
      content_size = here.good.content_size;
    }

    freed : (removed c f).nodes f.addr ≡ none
    freed = ground arith

    abbrev after_move : Context
    after_move = placed (removed c f) f.addr (suc c.next) (renamed f to)

    move_IsValid : IsValid after_move
    unfolding lookup
    move_IsValid =
        IsValid-placed (path_text to) (removed c f) (IsValid-removed c v (path_text from) f e)
          f.addr (suc c.next) freed (renamed f to) gone text_moved (omega (arith, below_next))
          (Ascending-new c.next 0 (without f.slot c.root) (node f.addr)
            (Ascending-without c.next 0 f.slot c.root v.slots))
          (omega arith) moved_IsNode

    move_lookup :
        (key : List ℕ)
        → lookup after_move key ≡ (
            if same (path_text to) key
            then some (record { slot = c.next; addr = f.addr; found = renamed f to })
            else if same (path_text from) key
            then none
            else lookup c key)
    unfolding lookup
    move_lookup key =
        lookup-placed (path_text to) (removed c f) (IsValid-removed c v (path_text from) f e) f.addr
          (suc c.next) freed (renamed f to) gone text_moved key
        ∙ ap
            (λ o.
              if same (path_text to) key
              then some (record { slot = c.next; addr = f.addr; found = renamed f to })
              else o)
            (lookup-removed c v (path_text from) f e key)

    done :
        (g : a.tree_grown ≡ true)
        → a.path_copied ≡ true
        → ((root : List (ℕ × Item)) → a.relocate root ≡ root)
        → (m' : Mqtt)
        → announce a f.found (str_view (drop 1 to)) (grown a from to c v l f e k g)
          ≡ some (true, record (grown a from to c v l f e k g) { mqtt = some m' })
        → AnnounceOutcome a f.found (str_view (drop 1 to)) m m' f.found.is_dir true
        → Outcome a from to c m f none true
    unfolding placed
    done g p w m' r x = record {
      result = ok 0;
      after = record after_move { mqtt = some m' };
      returns =
          move_done a from to c v l f e k g (some m') p w r
          ∙ ap (λ nodes. some (ok 0, record after_move { nodes = nodes; mqtt = some m' }))
              (fun_ext (λ b. ground arith));
      valid = IsValid-mqtt after_move (some m') move_IsValid;
      outcome =
          (refl, (λ key. lookup-mqtt after_move (some m') key ∙ move_lookup key), m', refl, x);
    }

    absent :
        ((root : List (ℕ × Item)) → a.relocate root ≡ root)
        → CanPublish a.published (str_view (drop 1 to)) f.found m
        → Outcome a from to c m f none (is_granted a to f m)
    absent w y = elim (Bool-cases a.tree_grown) [
      | inr g ↦ subst (Outcome a from to c m f none) (ground (arith, g)) (no_room g)
      | inl g ↦ elim (Bool-cases a.path_copied) [
        | inr p ↦ subst (Outcome a from to c m f none) (ground (arith, g, p)) (no_copy g p)
        | inl p ↦
            let x =
              announce-Announced a f.found (str_view (drop 1 to)) (grown a from to c v l f e k g) m
                q here.good (str_view-IsStr (drop 1 to)) y in
            by_result g p w x.done x.queue x.returns x.outcome
      ]
    ]
      where
        by_result :
            (g : a.tree_grown ≡ true)
            → a.path_copied ≡ true
            → ((root : List (ℕ × Item)) → a.relocate root ≡ root)
            → (b : Bool) (m' : Mqtt)
            → announce a f.found (str_view (drop 1 to)) (grown a from to c v l f e k g)
              ≡ some (b, record (grown a from to c v l f e k g) { mqtt = some m' })
            → AnnounceOutcome a f.found (str_view (drop 1 to)) m m' f.found.is_dir b
            → Outcome a from to c m f none (is_granted a to f m)
        by_result g p w true m' r x =
            subst (Outcome a from to c m f none)
              (ground (arith, g, p, announced_done a f.found to m m' f.found.is_dir true x))
              (done g p w m' r x)
        by_result g p w false m' r x =
            subst (Outcome a from to c m f none)
              (ground (arith, g, p, announced_done a f.found to m m' f.found.is_dir false x))
              (refused g p m' r (announced_refused a f.found to m m' f.found.is_dir x))

-- On a valid store, with the lock, a path that is there and a client whose queue is well formed and
-- has no later time than a new message gets, and if `tdelete` leaves the other elements of the tree
-- in their places, `MqttfsRename` with RENAME_NOREPLACE keeps the store valid. A new path that is
-- there gives -EEXIST with nothing changed. Where the system or the client refuses, the answer is
-- -EIO, and the tree, the nodes and the queue's messages are what they were. Otherwise the answer
-- is 0, the same node stands under the new path, the old one leads nowhere and every other path
-- leads where it did; a file's payload is queued under the new path, and what was queued under the
-- old one is cancelled, if the queue could be locked.
pub mqttfs_rename-noreplace :
    (a : RenameAnswers) (from to : List ℕ) (c : Context) (m : Mqtt) (f : Found)
    → IsValid c
    → c.mqtt ≡ some m
    → a.locked ≡ true
    → lookup c (path_text from) ≡ some f
    → ((root : List (ℕ × Item)) → a.relocate root ≡ root)
    → CanPublish a.published (str_view (drop 1 to)) f.found m
    → (r : Ret) × (c' : Context) × (mqttfs_rename a from to noreplace_flag c ≡ some (r, c'))
      × IsValid c'
      × NoreplaceOutcome a from to c m f r c' (lookup c (path_text to)) (is_granted a to f m)
mqttfs_rename-noreplace a from to c m f v q l e w y =
    let o = by_target (lookup c (path_text to)) refl in
    (o.result, o.after, o.returns, o.valid, o.outcome)
  where
    by_target :
        (o : Option Found)
        → lookup c (path_text to) ≡ o
        → Outcome a from to c m f o (is_granted a to f m)
    by_target none k = absent a from to c m f v q l e k w y
    by_target (some g) k = existing a from to c m f v q l e g (is_granted a to f m) k
