-- ===== src/Fs/Remove/Laws.antt =====
-- `MqttfsUnlink` against the map of the tree and the message queue.
use mqttfs.Base.{
  ℕ, List, Bool, true, false, Option, none, some, ◌≡◌, refl, ◌∙◌, arith, if◌then◌else◌, drop,
}
use mqttfs.Str.{Str, text, str_view}
use mqttfs.Str.Copy.{str_view-IsStr}
use mqttfs.Queue
use mqttfs.Queue.{Mqtt, mqtt_cancel}
use mqttfs.Queue.Cancel.{Cancelled, mqtt_cancel_lem}
use mqttfs.Store.{
  item_at, Context, node, search, tfind, tdelete, load_slot, load_node, load, node_destroy, Ret, ok,
  err, eio, enoent,
}
use mqttfs.Store.Search.{
  Found, lookup, same, IsValid, IsFound, slot_of, search-find, find-IsFound, item_at-found,
}
use mqttfs.Store.Replace.{lookup-mqtt}
use mqttfs.Store.Memory.{removed, IsValid-removed, lookup-removed}
use mqttfs.Fs.Make.Outcome.{path_text}
use mqttfs.Fs.Remove.{mqttfs_unlink}

module _ (path : List ℕ) (c : Context) (v : IsValid c) where
  abbrev key : Str
  key = str_view (drop 1 path)

  searched : search c.nodes key c.root ≡ some (slot_of (lookup c (text key)))
  unfolding lookup
  searched = search-find c.nodes key c.root (str_view-IsStr (drop 1 path)) v.entries

  unlink_missing :
      (queue_locked : Bool)
      → lookup c (text key) ≡ none
      → mqttfs_unlink true queue_locked path c ≡ some (err enoent, c)
  unfolding mqttfs_unlink tfind
  unlink_missing queue_locked e = ground (arith, searched)

  here : (f : Found) → lookup c (text key) ≡ some f → IsFound c.nodes (text key) f
  unfolding lookup
  here f e = find-IsFound c.nodes (text key) c.root f v.entries e

  holds : (f : Found) → lookup c (text key) ≡ some f → item_at f.slot c.root ≡ some (node f.addr)
  unfolding lookup
  holds f e = item_at-found c.nodes (text key) c.root f c.next 0 v.slots e v.entries

  unlink_run :
      (queue_locked : Bool) (f : Found) (m m' : Mqtt)
      → lookup c (text key) ≡ some f
      → c.mqtt ≡ some m
      → mqtt_cancel queue_locked f.found.path m ≡ some m'
      → mqttfs_unlink true queue_locked path c
        ≡ some (ok 0, record (removed c f) { mqtt = some m' })
  unfolding mqttfs_unlink tfind tdelete load_slot load_node load node_destroy
  unlink_run queue_locked f m m' e q k = ground (arith, searched, holds f e, (here f e).stored, k)

  -- Without a client, whose creation may have failed, the operation uses a null pointer.
  unlink_no_client :
      (queue_locked : Bool) (f : Found)
      → lookup c (text key) ≡ some f
      → c.mqtt ≡ none
      → mqttfs_unlink true queue_locked path c ≡ none
  unfolding mqttfs_unlink tfind tdelete load_slot load_node load node_destroy
  unlink_no_client queue_locked f e q = ground (arith, searched, holds f e, (here f e).stored)

-- The entry is gone with its node, every other path leads where it did, and the messages that the
-- entry had in the queue are cancelled, if the queue could be locked.
pub record Unlinked (queue_locked : Bool) (path : List ℕ) (c : Context) (m : Mqtt) (f : Found)
    (r : Ret) (c' : Context) : Type 0 where
  pub result : r ≡ ok 0
  pub freed : c'.nodes f.addr ≡ none
  pub looked_up :
      (other : List ℕ)
      → lookup c' other ≡ (if same (path_text path) other then none else lookup c other)
  pub queue_after : Mqtt
  pub queue_is : c'.mqtt ≡ some queue_after
  pub cancelled : if queue_locked then Cancelled f.found.path m queue_after else queue_after ≡ m

-- By the lock and what the tree has under the path.
abbrev pub UnlinkOutcome :
    Bool → List ℕ → Context → Mqtt → Ret → Context → Bool → Option Found → Type 0
UnlinkOutcome queue_locked path c m r c' false found = (r ≡ err eio) × (c' ≡ c)
UnlinkOutcome queue_locked path c m r c' true none = (r ≡ err enoent) × (c' ≡ c)
UnlinkOutcome queue_locked path c m r c' true (some f) = Unlinked queue_locked path c m f r c'

record Outcome (queue_locked : Bool) (path : List ℕ) (c : Context) (m : Mqtt) (locked : Bool)
    (found : Option Found) : Type 0 where
  result : Ret
  after : Context
  returns : mqttfs_unlink locked queue_locked path c ≡ some (result, after)
  valid : IsValid after
  outcome : UnlinkOutcome queue_locked path c m result after locked found

unlink_unlocked :
    (queue_locked : Bool) (path : List ℕ) (c : Context)
    → mqttfs_unlink false queue_locked path c ≡ some (err eio, c)
unfolding mqttfs_unlink
unlink_unlocked queue_locked path c = refl

module _ (queue_locked : Bool) (path : List ℕ) (c : Context) (m : Mqtt) (v : IsValid c)
    (q : c.mqtt ≡ some m) (w : Queue.Publish.IsValid m) where
  unlinked :
      (f : Found) → lookup c (path_text path) ≡ some f → Outcome queue_locked path c m true (some f)
  unlinked f e =
      let (m', k, after) =
        mqtt_cancel_lem queue_locked f.found.path m (here path c v f e).good.path_there w in
      let gone = IsValid-removed c v (path_text path) f e in
      record {
        result = ok 0;
        after = record (removed c f) { mqtt = some m' };
        returns = unlink_run path c v queue_locked f m m' e q k;
        valid = record {
          entries = gone.entries;
          distinct = gone.distinct;
          slots = gone.slots;
          unused = gone.unused;
        };
        outcome = record {
          result = refl;
          freed = ground arith;
          looked_up = λ other.
              lookup-mqtt (removed c f) (some m') other
              ∙ lookup-removed c v (path_text path) f e other;
          queue_after = m';
          queue_is = refl;
          cancelled = after;
        };
      }

  unlink_by :
      (locked : Bool) (found : Option Found)
      → lookup c (path_text path) ≡ found
      → Outcome queue_locked path c m locked found
  unlink_by false found e = record {
    result = err eio;
    after = c;
    returns = unlink_unlocked queue_locked path c;
    valid = v;
    outcome = (refl, refl);
  }
  unlink_by true none e = record {
    result = err enoent;
    after = c;
    returns = unlink_missing path c v queue_locked e;
    valid = v;
    outcome = (refl, refl);
  }
  unlink_by true (some f) e = unlinked f e

-- On a valid store with a client whose queue is well formed, `MqttfsUnlink` uses no freed memory and
-- leaves a valid store. Without the lock it answers -EIO and for a missing path -ENOENT, with nothing
-- changed. Otherwise it answers 0; the node is freed and the path leads nowhere, every other path
-- leads where it did, and the queue keeps exactly the messages of other topics, if it was locked.
pub mqttfs_unlink_lem :
    (locked queue_locked : Bool) (path : List ℕ) (c : Context) (m : Mqtt)
    → IsValid c
    → c.mqtt ≡ some m
    → Queue.Publish.IsValid m
    → (r : Ret) × (c' : Context) × (mqttfs_unlink locked queue_locked path c ≡ some (r, c'))
      × IsValid c'
      × UnlinkOutcome queue_locked path c m r c' locked (lookup c (path_text path))
mqttfs_unlink_lem locked queue_locked path c m v q w =
    let o = unlink_by queue_locked path c m v q w locked (lookup c (path_text path)) refl in
    (o.result, o.after, o.returns, o.valid, o.outcome)
