-- ===== src/Queue/Cancel.antt =====
-- `MqttCancel` of mqtt.c removes the messages of one topic, and no others.
use mqttfs.Base.{
  ℕ, ◌≤◌, List, [], ◌∷◌, Bool, true, false, if◌then◌else◌, some, ◌≡◌, ◌≢◌, inl, inr, refl, ap,
  arith, length, All, Bool-cases,
}
use mqttfs.Str.{Str, text, IsStr, str_compare}
use mqttfs.Str.Compare.{str_compare_lem}
use mqttfs.Queue.{MqttMessage, Mqtt, is_equal, cancel_loop, mqtt_cancel}
use mqttfs.Queue.Publish.{IsQueued, IsOrdered, IsValid}

-- The messages of other topics, in their order.
abbrev pub others : Str → List MqttMessage → List MqttMessage
others topic [] = []
others topic (q ∷ qs) =
    if is_equal (str_compare q.topic topic) then others topic qs else q ∷ others topic qs

cancel_loop_lem :
    (topic : Str) (qs : List MqttMessage)
    → All IsQueued qs
    → cancel_loop topic qs ≡ some (others topic qs)
unfolding cancel_loop
cancel_loop_lem topic [] h = refl
cancel_loop_lem topic (q ∷ qs) (hq, h) = ground (arith, hq.owned, cancel_loop_lem topic qs h)

length-others : (topic : Str) (qs : List MqttMessage) → length (others topic qs) ≤ length qs
length-others topic [] = omega arith
length-others topic (q ∷ qs) = ground (arith, length-others topic qs)

All-others :
    (P : MqttMessage → Type 0) (topic : Str) (qs : List MqttMessage)
    → All P qs
    → All P (others topic qs)
All-others P topic [] h = tt
All-others P topic (q ∷ qs) (hq, h) = elim (Bool-cases (is_equal (str_compare q.topic topic))) [
  | inl e ↦ rw e (All-others P topic qs h)
  | inr e ↦ rw e (hq, All-others P topic qs h)
]

others-ne :
    (topic : Str) (qs : List MqttMessage)
    → IsStr topic
    → All IsQueued qs
    → All (λ q. text q.topic ≢ text topic) (others topic qs)
others-ne topic [] ht h = tt
others-ne topic (q ∷ qs) ht (hq, h) = elim (Bool-cases (is_equal (str_compare q.topic topic))) [
  | inl e ↦ rw e (others-ne topic qs ht h)
  | inr e ↦ rw e (differs e, others-ne topic qs ht h)
]
  where
    differs : is_equal (str_compare q.topic topic) ≡ false → text q.topic ≢ text topic
    differs e same =
        cc (e, ap is_equal ((str_compare_lem q.topic topic hq.topic_there ht).0.1 same))

IsOrdered-from : (a b : ℕ) (qs : List MqttMessage) → a ≤ b → IsOrdered b qs → IsOrdered a qs
IsOrdered-from a b [] h o = tt
IsOrdered-from a b (q ∷ qs) h (o, os) = (omega arith, os)

IsOrdered-others :
    (from : ℕ) (topic : Str) (qs : List MqttMessage)
    → IsOrdered from qs
    → IsOrdered from (others topic qs)
IsOrdered-others from topic [] o = tt
IsOrdered-others from topic (q ∷ qs) (o, os) =
    elim (Bool-cases (is_equal (str_compare q.topic topic))) [
      | inl e ↦ rw e (
          IsOrdered-from from q.timestamp (others topic qs) o
            (IsOrdered-others q.timestamp topic qs os))
      | inr e ↦ rw e (o, IsOrdered-others q.timestamp topic qs os)
    ]

-- What a cancellation with the lock leaves: the messages of other topics, each as it was and in its
-- place among them, and none of the topic.
pub record Cancelled (topic : Str) (m m' : Mqtt) : Type 0 where
  pub left : m' ≡ record m { messages = others topic m.messages }
  pub none_left : All (λ q. text q.topic ≢ text topic) m'.messages
  pub valid : IsValid m'

-- On a well formed queue `MqttCancel` reads no freed memory. With the lock it removes exactly the
-- messages of the topic and keeps the queue well formed; without, it changes nothing.
pub mqtt_cancel_lem :
    (locked : Bool) (topic : Str) (m : Mqtt)
    → IsStr topic
    → IsValid m
    → (m' : Mqtt) × (mqtt_cancel locked topic m ≡ some m')
      × (if locked then Cancelled topic m m' else m' ≡ m)
unfolding mqtt_cancel
mqtt_cancel_lem false topic m ht v = (m, refl, refl)
mqtt_cancel_lem true topic m ht v = (
  record m { messages = others topic m.messages },
  rw (cancel_loop_lem topic m.messages v.queued),
  record {
    left = refl;
    none_left = others-ne topic m.messages ht v.queued;
    valid = record {
      in_array = omega (arith, length-others topic m.messages, v.in_array);
      queued = All-others IsQueued topic m.messages v.queued;
      ordered = IsOrdered-others 0 topic m.messages v.ordered;
    };
  },
)
