-- ===== src/Program/Message/Crash.antt =====
-- The ways in which `OnMqttMessage` gives up on a new topic: each ends in `tdelete` with a null pointer.
use mqttfs.Base.{
  ℕ, suc, ◌≤◌, ◌<◌, List, Bool, true, false, none, some, if◌then◌else◌, ◌==◌, ◌≡◌, sym, ap, ◌∙◌,
  arith, length,
}
use mqttfs.Str.{Str, IsStr, text, copied, str_base_path}
use mqttfs.Str.Paths.{base_path-shrinks, base_path-IsStr}
use mqttfs.Node.{Node, fresh_node, node_create, node_update}
use mqttfs.Node.Update.{node_create_lem}
use mqttfs.Store.{Context, node, ◌>>=◌, node_destroy}
use mqttfs.Store.Search.{Found, lookup, IsValid}
use mqttfs.Store.Insert.{inserted}
use mqttfs.Program.Message.{
  MessageAnswers, Parents, undo, ensure_parents, on_mqtt_message, finish_parents, undo_parents,
  tdelete_null,
}
use mqttfs.Program.Message.Loop.{parents_found}
use mqttfs.Program.Message.Laws.{message_added, crash_no_node, crash_no_update, not_empty}
use mqttfs.Program.Message.Outcome.{update_of, with_topic-inserted, inserted_good, shorter}

-- What stops a message for a new topic: there is no memory for its node, or none for the payload, or a file stands
-- where the directory of the topic should be.
pub data Stops (a : MessageAnswers) (topic : Str) (payload : List ℕ) (payload_len : ℕ) (c : Context)
    : Type 0 where
  no_node : node_create (a.created 0) topic false ≡ none → Stops a topic payload payload_len c
  no_update :
      (n : Node)
      → node_create (a.created 0) topic false ≡ some n
      → (node_update a.updated n payload payload_len).0 ≡ false
      → Stops a topic payload payload_len c
  file_above :
      (n : Node) (f : Found)
      → node_create (a.created 0) topic false ≡ some n
      → (node_update a.updated n payload payload_len).0 ≡ true
      → ((str_base_path topic).size == 0) ≡ false
      → lookup c (text (str_base_path topic)) ≡ some f
      → f.found.is_dir ≡ false
      → Stops a topic payload payload_len c

finish_crashes :
    (topic : Str) (c : Context) (n : Node)
    → finish_parents (suc c.next) topic (undo (str_base_path topic)) (inserted c n) ≡ none
unfolding finish_parents undo_parents node_destroy tdelete_null inserted
finish_crashes topic c n = ground (arith, not_empty c.root (c.next, node (suc c.next)))

-- A message, on a valid store and with the lock, for a new topic for which the tree has room: where
-- there is no memory for its node, none for its payload, or a file stands in the place of its
-- directory, the rollback calls a null pointer as the comparison function, so the program crashes.
pub on_mqtt_message-crashes :
    (a : MessageAnswers) (topic : Str) (payload : List ℕ) (payload_len : ℕ) (c : Context)
    → IsValid c
    → IsStr topic
    → payload_len ≤ length payload
    → a.locked ≡ true
    → lookup c (text topic) ≡ none
    → a.tree_grown 0 ≡ true
    → Stops a topic payload payload_len c
    → on_mqtt_message a topic payload payload_len c ≡ none
on_mqtt_message-crashes a topic payload len c v h b l e g (no_node m) =
    crash_no_node a topic payload len c v h l e g m
on_mqtt_message-crashes a topic payload len c v h b l e g (no_update n m u) =
    crash_no_update a topic payload len c v h l e g n m u
on_mqtt_message-crashes a topic payload len c v h b l e g (file_above n f m u z k d) =
    let (now, clock, same) = node_create_lem (a.created 0) topic false n m in
    let made = fresh_node now false (copied topic) in
    let m' = m ∙ ap some same in
    let u' : (node_update a.updated made payload len).0 ≡ true =
      ap (λ n. (node_update a.updated n payload len).0) (sym same) ∙ u in
    let c1 = inserted c (update_of a payload len b made).1 in
    let less : (str_base_path topic).size < topic.size =
      ground (arith, z, base_path-shrinks topic) in
    message_added a topic payload len c v h l e g made m' u'
    ∙ ap
        (ensure_parents a (suc topic.size) 1 (str_base_path topic)
          >>= finish_parents (suc c.next) topic)
        (with_topic-inserted a payload len b topic c v h l e now g u')
    ∙ ap (λ o. elim o [ none ↦ none | some (x, c') ↦ finish_parents (suc c.next) topic x c' ])
        (parents_found a topic.size 1 (str_base_path topic) c1
          (inserted_good a payload len b topic c v h l e now) (base_path-IsStr topic h) f z
          (shorter a payload len b topic c v h l e now (str_base_path topic)
              (base_path-IsStr topic h) less
            ∙ k))
    ∙ ap
        (λ (x : Bool).
          finish_parents (suc c.next) topic
            (if x then Parents.complete else undo (str_base_path topic)) c1)
        d
    ∙ finish_crashes topic c (update_of a payload len b made).1
