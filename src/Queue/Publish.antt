-- ===== src/Queue/Publish.antt =====
-- `MqttPublish` of mqtt.c: what it appends, and what the queue keeps.
use mqttfs.Base.{
  ℕ, ◌+◌, ◌%◌, ◌≤◌, ◌<◌, List, [], ◌∷◌, ◌++◌, Bool, true, not, ◌&&◌, ◌||◌, ltb, ◌==◌, if◌then◌else◌,
  ◌≡◌, inl, inr, refl, arith, length, length-append, length-take, take, All, Bool-cases,
}
use mqttfs.Str.{Str, IsStr, copied, str_copy}
use mqttfs.Str.Copy.{copied-IsStr}
use mqttfs.Queue.{MqttMessage, Mqtt, PublishAnswers, size_max, max_topic, max_message, mqtt_publish}

-- A message that the wire format can carry, with its own copies of the topic and the payload.
pub record IsQueued (q : MqttMessage) : Type 0 where
  pub owned : q.is_owned ≡ true
  pub topic_there : IsStr q.topic
  pub topic_fits : q.topic.size ≤ max_topic
  pub payload_there : length q.payload ≡ q.payload_len
  pub fits : 2 + q.topic.size + q.payload_len ≤ max_message

-- Times do not fall along the queue.
abbrev pub IsOrdered : ℕ → List MqttMessage → Type 0
IsOrdered from [] = Unit
IsOrdered from (q ∷ qs) = (from ≤ q.timestamp) × IsOrdered q.timestamp qs

-- The array has room for the queue, every element is well formed, and they stand by their times.
pub record IsValid (m : Mqtt) : Type 0 where
  pub in_array : length m.messages ≤ m.messages_alloc
  pub queued : All IsQueued m.messages
  pub ordered : IsOrdered 0 m.messages

-- What `MqttPublish` puts behind the others.
abbrev pub message_for : PublishAnswers → Str → List ℕ → ℕ → Mqtt → MqttMessage
message_for a topic payload payload_len m = record {
  timestamp = a.now + m.holdback;
  topic = copied topic;
  payload = take payload_len payload;
  payload_len = payload_len;
  is_owned = true;
}

-- The tests that all must pass, the guards and the answers of the system.
abbrev pub is_accepted : PublishAnswers → Str → ℕ → Mqtt → Bool
is_accepted a topic payload_len m =
    not (ltb max_topic topic.size)
    && not (ltb max_message ((2 + topic.size + payload_len) % size_max))
    && m.is_running
    && not (a.now == 0)
    && a.locked
    && (a.grown || not (length m.messages == m.messages_alloc))
    && a.topic_copied
    && a.payload_allocated

-- `MqttPublish` succeeds exactly if every test passes and the system grants all it asks for; then
-- one message, with copies of its own, is behind the others, and otherwise the messages and the
-- count of wake tokens are what they were.
pub mqtt_publish_lem :
    (a : PublishAnswers) (topic : Str) (payload : List ℕ) (payload_len : ℕ) (m : Mqtt)
    → ((mqtt_publish a topic payload payload_len m).0 ≡ is_accepted a topic payload_len m)
      × ((mqtt_publish a topic payload payload_len m).1.messages ≡ (
          if is_accepted a topic payload_len m
          then m.messages ++ message_for a topic payload payload_len m ∷ []
          else m.messages))
      × ((mqtt_publish a topic payload payload_len m).1.wakeups
          ≡ (if is_accepted a topic payload_len m && a.woken then m.wakeups + 1 else m.wakeups))
unfolding mqtt_publish str_copy
mqtt_publish_lem a topic payload payload_len m = (ground arith, ground arith, ground arith)

-- The rest of the message's bounds come from the guards, where the sum does not wrap.
message_for-IsQueued :
    (a : PublishAnswers) (topic : Str) (payload : List ℕ) (payload_len : ℕ) (m : Mqtt)
    → IsStr topic
    → payload_len ≤ length payload
    → 2 + topic.size + payload_len < size_max
    → is_accepted a topic payload_len m ≡ true
    → IsQueued (message_for a topic payload payload_len m)
message_for-IsQueued a topic payload payload_len m h k w e = record {
  owned = refl;
  topic_there = copied-IsStr topic h;
  topic_fits = ground arith;
  payload_there = omega (arith, length-take payload_len payload);
  fits = ground (arith, small);
}
  where
    small : (2 + topic.size + payload_len) % size_max ≡ 2 + topic.size + payload_len
    small = omega arith

IsOrdered-append :
    (from : ℕ) (qs : List MqttMessage) (q : MqttMessage)
    → from ≤ q.timestamp
    → All (λ x. x.timestamp ≤ q.timestamp) qs
    → IsOrdered from qs
    → IsOrdered from (qs ++ q ∷ [])
IsOrdered-append from [] q h b o = (h, tt)
IsOrdered-append from (x ∷ qs) q h (hx, b) (o, os) = (o, IsOrdered-append x.timestamp qs q hx b os)

All-append_one :
    {A : Type 0} (P : A → Type 0) (xs : List A) (x : A) → All P xs → P x → All P (xs ++ x ∷ [])
All-append_one P [] x h p = (p, tt)
All-append_one P (y ∷ xs) x (hy, h) p = (hy, All-append_one P xs x h p)

-- The array is grown before it is written.
mqtt_publish-in_array :
    (a : PublishAnswers) (topic : Str) (payload : List ℕ) (payload_len : ℕ) (m : Mqtt)
    → length m.messages ≤ m.messages_alloc
    → length (mqtt_publish a topic payload payload_len m).1.messages
      ≤ (mqtt_publish a topic payload payload_len m).1.messages_alloc
unfolding mqtt_publish str_copy
mqtt_publish-in_array a topic payload payload_len m h =
    ground (arith, length-append m.messages (message_for a topic payload payload_len m ∷ []))

-- `MqttPublish` of a topic and a payload that are there keeps the queue well formed and in the
-- order of its times, if no message has a later time than the new one gets and the sum of the sizes
-- does not wrap round.
pub mqtt_publish-IsValid :
    (a : PublishAnswers) (topic : Str) (payload : List ℕ) (payload_len : ℕ) (m : Mqtt)
    → IsStr topic
    → payload_len ≤ length payload
    → 2 + topic.size + payload_len < size_max
    → All (λ q. q.timestamp ≤ a.now + m.holdback) m.messages
    → IsValid m
    → IsValid (mqtt_publish a topic payload payload_len m).1
mqtt_publish-IsValid a topic payload payload_len m h k w b v =
    elim (Bool-cases (is_accepted a topic payload_len m)) [
      | inl e ↦
          let after : (mqtt_publish a topic payload payload_len m).1.messages
              ≡ m.messages ++ message_for a topic payload payload_len m ∷ [] =
            ground (arith, mqtt_publish_lem a topic payload payload_len m) in
          record {
            in_array = mqtt_publish-in_array a topic payload payload_len m v.in_array;
            queued = rw after (
                All-append_one IsQueued m.messages _ v.queued
                  (message_for-IsQueued a topic payload payload_len m h k w e));
            ordered = rw after (IsOrdered-append 0 m.messages _ (omega arith) b v.ordered);
          }
      | inr e ↦
          let after : (mqtt_publish a topic payload payload_len m).1.messages ≡ m.messages =
            ground (arith, mqtt_publish_lem a topic payload payload_len m) in
          record {
            in_array = mqtt_publish-in_array a topic payload payload_len m v.in_array;
            queued = rw after v.queued;
            ordered = rw after v.ordered;
          }
    ]
