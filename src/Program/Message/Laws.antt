-- ===== src/Program/Message/Laws.antt =====
-- `OnMqttMessage` on every branch: a message for an entry that is there, and one for a new topic.
use mqttfs.Base.{ℕ, suc, List, [], ◌∷◌, ◌++◌, Bool, true, false, none, some, ◌≡◌, ◌≢◌, arith}
use mqttfs.Str.{Str, IsStr, text, str_base_path}
use mqttfs.Node.{Node, FuseCall, node_create, node_update}
use mqttfs.Store.{
  Context, Item, view, node, update, ◌>>=◌, search, item_at, tsearch, load_slot, store_slot,
  load_node, load, store, allocate, node_destroy,
}
use mqttfs.Store.Search.{
  Found, lookup, IsValid, IsFound, slot_of, search-find, find-IsFound, item_at-found,
}
use mqttfs.Store.Edit.{with_new, item_at-new, put_at-new}
use mqttfs.Store.Replace.{replaced}
use mqttfs.Program.Message.{
  MessageAnswers, ensure_parents, on_mqtt_message, finish_parents, tdelete_null,
}

pub not_empty : (root : List (ℕ × Item)) (x : ℕ × Item) → root ++ x ∷ [] ≢ []
not_empty [] x e = cc
not_empty (y ∷ ys) x e = cc

module _ (a : MessageAnswers) (topic : Str) (payload : List ℕ) (payload_len : ℕ) (c : Context)
    (v : IsValid c) (h : IsStr topic) where
  searched : search c.nodes topic c.root ≡ some (slot_of (lookup c (text topic)))
  unfolding lookup
  searched = search-find c.nodes topic c.root h v.entries

  abbrev pub updated : Node → Bool × Node × List FuseCall
  updated n = node_update a.updated n payload payload_len

  pub message_unlocked :
      a.locked ≡ false → on_mqtt_message a topic payload payload_len c ≡ some (tt, c)
  unfolding on_mqtt_message
  message_unlocked l = ground (arith, l)

  pub message_no_room :
      a.locked ≡ true
      → lookup c (text topic) ≡ none
      → a.tree_grown 0 ≡ false
      → on_mqtt_message a topic payload payload_len c ≡ some (tt, c)
  unfolding on_mqtt_message tsearch
  message_no_room l e g = ground (arith, searched, l, e, g)

  module _ (f : Found) (l : a.locked ≡ true) (e : lookup c (text topic) ≡ some f) where
    pub here : IsFound c.nodes (text topic) f
    unfolding lookup
    here = find-IsFound c.nodes (text topic) c.root f v.entries e

    holds : item_at f.slot c.root ≡ some (node f.addr)
    unfolding lookup
    holds = item_at-found c.nodes (text topic) c.root f c.next 0 v.slots e v.entries

    pub message_directory :
        f.found.is_dir ≡ true → on_mqtt_message a topic payload payload_len c ≡ some (tt, c)
    unfolding on_mqtt_message tsearch load_slot load_node load
    message_directory d = ground (arith, searched, l, e, holds, here.stored, d)

    pub message_file :
        f.found.is_dir ≡ false
        → on_mqtt_message a topic payload payload_len c
          ≡ some (
            tt,
            record (replaced c f.addr (updated f.found).1) {
              calls = c.calls ++ (updated f.found).2;
            },
          )
    unfolding on_mqtt_message tsearch load_slot load_node load store
    message_file d = ground (arith, searched, l, e, holds, here.stored, d)

  module _ (l : a.locked ≡ true) (e : lookup c (text topic) ≡ none)
      (g : a.tree_grown 0 ≡ true) where
    pub crash_no_node :
        node_create (a.created 0) topic false ≡ none
        → on_mqtt_message a topic payload payload_len c ≡ none
    unfolding on_mqtt_message tsearch load_slot tdelete_null
    crash_no_node m = ground (
      arith,
      searched,
      l,
      e,
      g,
      m,
      item_at-new c.next 0 c.root (view topic) v.slots,
      not_empty c.root (c.next, view topic),
    )

    pub crash_no_update :
        (n : Node)
        → node_create (a.created 0) topic false ≡ some n
        → (updated n).0 ≡ false
        → on_mqtt_message a topic payload payload_len c ≡ none
    unfolding on_mqtt_message tsearch load_slot tdelete_null allocate load store node_destroy
    crash_no_update n m u = ground (
      arith,
      searched,
      l,
      e,
      g,
      m,
      u,
      item_at-new c.next 0 c.root (view topic) v.slots,
      not_empty c.root (c.next, view topic),
    )

    -- The state after the node has been put into the tree.
    abbrev pub with_topic : Node → Context
    with_topic n = record c {
      nodes = update (update c.nodes (suc c.next) (some n)) (suc c.next) (some (updated n).1);
      next = suc (suc c.next);
      root = with_new c.root c.next (node (suc c.next));
      calls = c.calls ++ (updated n).2;
    }

    pub message_added :
        (n : Node)
        → node_create (a.created 0) topic false ≡ some n
        → (updated n).0 ≡ true
        → on_mqtt_message a topic payload payload_len c
          ≡ (ensure_parents a (suc topic.size) 1 (str_base_path topic)
                >>= finish_parents (suc c.next) topic)
              (with_topic n)
    unfolding on_mqtt_message tsearch load_slot store_slot allocate load store
    message_added n m u = ground (
      arith,
      searched,
      l,
      e,
      g,
      m,
      u,
      item_at-new c.next 0 c.root (view topic) v.slots,
      put_at-new c.next 0 c.root (view topic) (node (suc c.next)) v.slots,
    )
