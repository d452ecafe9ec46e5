-- ===== src/Fs/Make/Outcome.antt =====
-- The outcome of `MqttfsMkdir` and `MqttfsCreate` on every branch.
use mathlib.Core.Path.{subst}
use mqttfs.Base.{
  ℕ, suc, List, Bool, true, false, ◌&&◌, Option, none, some, ◌≡◌, inl, inr, refl, sym, ap, ◌∙◌,
  arith, if◌then◌else◌, Bool-cases, Option-cases, drop,
}
use mqttfs.Str.{Str, text, IsStr, copied, str_copy, str_view}
use mqttfs.Str.Copy.{str_view-IsStr, text-copied}
use mqttfs.Node.{Timespec, Node, node_create, fresh_node}
use mqttfs.Node.Update.{IsNode, node_create_lem, fresh_node-IsNode}
use mqttfs.Store.{Context, Ret, ok, err, eio, eexist}
use mqttfs.Store.Search.{Found, lookup, same, IsValid}
use mqttfs.Store.Insert.{inserted, IsValid-inserted, lookup-inserted, IsValid-next}
use mqttfs.Fs.Make.{MakeAnswers, make, mqttfs_mkdir, mqttfs_create}
use mqttfs.Fs.Make.Laws.{make_unlocked, make_found, make_no_room, make_no_node, make_new}

abbrev pub path_text : List ℕ → List ℕ
path_text path = text (str_view (drop 1 path))

-- The tree, the nodes, the queue and the poll handles are as before.
pub record SameStore (c c' : Context) : Type 0 where
  pub same_nodes : c'.nodes ≡ c.nodes
  pub same_root : c'.root ≡ c.root
  pub same_mqtt : c'.mqtt ≡ c.mqtt
  pub same_calls : c'.calls ≡ c.calls

-- One entry more: an empty one with the path, whose times are those of the clock.
pub record Made (a : MakeAnswers) (is_dir : Bool) (path : List ℕ) (c : Context) (r : Ret × Option ℕ)
    (c' : Context) : Type 0 where
  pub addr : ℕ
  pub now : Timespec
  pub result : r ≡ (ok 0, some addr)
  pub clock : a.created.clock ≡ some now
  pub looked_up :
      (other : List ℕ)
      → lookup c' other ≡ (
          if same (path_text path) other
          then some (record {
            slot = c.next;
            addr = addr;
            found = fresh_node now is_dir (copied (str_view (drop 1 path)));
          })
          else lookup c other)
  pub same_mqtt : c'.mqtt ≡ c.mqtt
  pub same_calls : c'.calls ≡ c.calls

-- The system granted all that the operation asked for.
abbrev pub is_granted : MakeAnswers → Bool
is_granted a = a.tree_grown && elim a.created.clock [
  | none ↦ false
  | some now ↦ a.created.allocated && a.created.path_copied
]

-- By the lock, what the tree has under the path, and what the system granted.
abbrev pub MakeOutcome :
    MakeAnswers
    → Bool
    → List ℕ
    → Context
    → Ret × Option ℕ
    → Context
    → Bool
    → Option Found
    → Bool
    → Type 0
MakeOutcome a is_dir path c r c' false found granted = (r ≡ (err eio, none)) × SameStore c c'
MakeOutcome a is_dir path c r c' true (some f) granted = (r ≡ (err eexist, none)) × (c' ≡ c)
MakeOutcome a is_dir path c r c' true none true = Made a is_dir path c r c'
MakeOutcome a is_dir path c r c' true none false = (r ≡ (err eio, none)) × SameStore c c'

record Outcome (a : MakeAnswers) (is_dir : Bool) (path : List ℕ) (c : Context) (locked : Bool)
    (found : Option Found) (granted : Bool) : Type 0 where
  result : Ret × Option ℕ
  after : Context
  returns : make a is_dir path c ≡ some (result, after)
  valid : IsValid after
  outcome : MakeOutcome a is_dir path c result after locked found granted

is_granted-create :
    (a : MakeAnswers) (key : Str) (is_dir : Bool)
    → a.tree_grown ≡ true
    → is_granted a ≡ true
    → (n : Node) × (node_create a.created key is_dir ≡ some n)
unfolding node_create str_copy
is_granted-create a key is_dir g h = elim (Option-cases a.created.clock) [
  | inl e ↦ absurd (ground (arith, e))
  | inr (now, e) ↦ (fresh_node now is_dir (copied key), ground (arith, e))
]

not_granted-create :
    (a : MakeAnswers) (key : Str) (is_dir : Bool)
    → a.tree_grown ≡ true
    → is_granted a ≡ false
    → node_create a.created key is_dir ≡ none
unfolding node_create str_copy
not_granted-create a key is_dir g h = ground arith

module _ (a : MakeAnswers) (is_dir : Bool) (path : List ℕ) (c : Context) (v : IsValid c) where
  made-Outcome :
      (n : Node)
      → a.locked ≡ true
      → lookup c (path_text path) ≡ none
      → a.tree_grown ≡ true
      → node_create a.created (str_view (drop 1 path)) is_dir ≡ some n
      → Outcome a is_dir path c true none true
  unfolding lookup
  made-Outcome n l e g m =
      let (now, clock, same_node) = node_create_lem a.created key is_dir n m in
      let good : IsNode n = subst IsNode (sym same_node) (fresh_node-IsNode now is_dir key there) in
      let keyed : text n.path ≡ text key =
        ap (λ x. text x.path) same_node ∙ text-copied key there in
      record {
        result = (ok 0, some (suc c.next));
        after = inserted c n;
        returns = make_new a is_dir path c v n l e g m;
        valid = IsValid-inserted key c v n e keyed good;
        outcome = record {
          addr = suc c.next;
          now = now;
          result = refl;
          clock = clock;
          looked_up = λ other.
              subst
                (λ x. lookup (inserted c n) other ≡ (
                  if same (text key) other
                  then some (record { slot = c.next; addr = suc c.next; found = x })
                  else lookup c other))
                same_node (lookup-inserted key c v n other e keyed);
          same_mqtt = unfold inserted in refl;
          same_calls = unfold inserted in refl;
        };
      }
    where
      key : Str
      key = str_view (drop 1 path)

      there : IsStr key
      there = str_view-IsStr (drop 1 path)

  make_by :
      (locked granted : Bool) (found : Option Found)
      → a.locked ≡ locked
      → is_granted a ≡ granted
      → lookup c (path_text path) ≡ found
      → Outcome a is_dir path c locked found granted
  unfolding lookup
  make_by false granted found l g e = record {
    result = (err eio, none);
    after = c;
    returns = make_unlocked a is_dir path c v l;
    valid = v;
    outcome =
        (refl, record { same_nodes = refl; same_root = refl; same_mqtt = refl; same_calls = refl });
  }
  make_by true granted (some f) l g e = record {
    result = (err eexist, none);
    after = c;
    returns = make_found a is_dir path c v f l e;
    valid = v;
    outcome = (refl, refl);
  }
  make_by true true none l g e =
      let (n, m) = is_granted-create a (str_view (drop 1 path)) is_dir (ground arith) g in
      made-Outcome n l e (ground arith) m
  make_by true false none l g e = elim (Bool-cases a.tree_grown) [
    | inl t ↦ record {
      result = (err eio, none);
      after = record c { next = suc c.next };
      returns = make_no_node a is_dir path c v l e t (not_granted-create a _ is_dir t g);
      valid = IsValid-next c v;
      outcome = (
        refl,
        record { same_nodes = refl; same_root = refl; same_mqtt = refl; same_calls = refl },
      );
    }
    | inr t ↦ record {
      result = (err eio, none);
      after = c;
      returns = make_no_room a is_dir path c v l e t;
      valid = v;
      outcome = (
        refl,
        record { same_nodes = refl; same_root = refl; same_mqtt = refl; same_calls = refl },
      );
    }
  ]

make_lem :
    (a : MakeAnswers) (is_dir : Bool) (path : List ℕ) (c : Context)
    → IsValid c
    → Outcome a is_dir path c a.locked (lookup c (path_text path)) (is_granted a)
make_lem a is_dir path c v = make_by a is_dir path c v a.locked (is_granted a) _ refl refl refl

mkdir-make :
    (a : MakeAnswers) (path : List ℕ) (c c' : Context) (r : Ret × Option ℕ)
    → make a true path c ≡ some (r, c')
    → mqttfs_mkdir a path c ≡ some (r.0, c')
unfolding mqttfs_mkdir
mkdir-make a path c c' r e = ground (arith, e)

-- On a valid store `MqttfsMkdir` does not fault and leaves a valid store. Without the lock, or if
-- the path is new and the system refuses anything that is asked of it, it answers -EIO and the store
-- is as it was; if the path is there, -EEXIST and nothing has changed; otherwise 0, and the path
-- leads to a new empty directory while every other path leads where it did.
pub mqttfs_mkdir_lem :
    (a : MakeAnswers) (path : List ℕ) (c : Context)
    → IsValid c
    → (r : Ret × Option ℕ) × (c' : Context) × (mqttfs_mkdir a path c ≡ some (r.0, c'))
      × IsValid c'
      × MakeOutcome a true path c r c' a.locked (lookup c (path_text path)) (is_granted a)
mqttfs_mkdir_lem a path c v =
    let o = make_lem a true path c v in
    (o.result, o.after, mkdir-make a path c o.after o.result o.returns, o.valid, o.outcome)

-- On a valid store `MqttfsCreate` does not fault and leaves a valid store. Without the lock, or if
-- the path is new and the system refuses anything that is asked of it, it answers -EIO and the
-- store is as it was; if the path is there, -EEXIST and nothing has changed; otherwise 0, the path
-- leads to a new empty file while every other path leads where it did, and `fi->fh` is set to the
-- new node. On a failure `fi->fh` is not set.
pub mqttfs_create_lem :
    (a : MakeAnswers) (path : List ℕ) (c : Context)
    → IsValid c
    → (r : Ret × Option ℕ) × (c' : Context) × (mqttfs_create a path c ≡ some (r, c'))
      × IsValid c'
      × MakeOutcome a false path c r c' a.locked (lookup c (path_text path)) (is_granted a)
unfolding mqttfs_create
mqttfs_create_lem a path c v =
    let o = make_lem a false path c v in (o.result, o.after, o.returns, o.valid, o.outcome)
