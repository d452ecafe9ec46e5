-- ===== src/Fs/Rename/Announce.antt =====
-- What a rename does to the message queue: the payload under the new topic, nothing under the old one.
use mqttfs.Base.{
  ◌+◌, ◌≤◌, ◌<◌, [], ◌∷◌, ◌++◌, Bool, true, false, some, ◌≡◌, inl, inr, refl, sym, ap, ◌∙◌, arith,
  if◌then◌else◌, All, Bool-cases,
}
use mathlib.Core.Path.{subst}
use mqttfs.Str.{Str, IsStr}
use mqttfs.Node.{Node}
use mqttfs.Node.Update.{IsNode}
use mqttfs.Queue
use mqttfs.Queue.{MqttMessage, Mqtt, PublishAnswers, size_max, mqtt_publish, mqtt_cancel}
use mqttfs.Queue.Publish.{is_accepted, message_for, mqtt_publish_lem, mqtt_publish-IsValid}
use mqttfs.Queue.Cancel.{Cancelled, mqtt_cancel_lem}
use mqttfs.Store.{Context}
use mqttfs.Fs.Rename.{RenameAnswers, announce}

-- The queue takes messages in the order of their times, and no size wraps round.
pub record CanPublish (a : PublishAnswers) (topic : Str) (n : Node) (m : Mqtt) : Type 0 where
  pub valid : Queue.Publish.IsValid m
  pub fits : 2 + topic.size + n.size < size_max
  pub in_time : All (λ q. q.timestamp ≤ a.now + m.holdback) m.messages

abbrev pub published : RenameAnswers → Node → Str → Mqtt → Bool × Mqtt
published a n topic m = mqtt_publish a.published topic n.content n.size m

-- By whether the entry is a directory, and by the result.
abbrev pub AnnounceOutcome : RenameAnswers → Node → Str → Mqtt → Mqtt → Bool → Bool → Type 0
AnnounceOutcome a n topic m m' true done = (done ≡ true) × (m' ≡ m)
AnnounceOutcome a n topic m m' false false =
    (is_accepted a.published topic n.size m ≡ false) × (m'.messages ≡ m.messages)
AnnounceOutcome a n topic m m' false true =
    (is_accepted a.published topic n.size m ≡ true)
    × ((published a n topic m).1.messages
        ≡ m.messages ++ message_for a.published topic n.content n.size m ∷ [])
    × (if a.queue_locked
        then Cancelled n.path (published a n topic m).1 m'
        else m' ≡ (published a n topic m).1)

pub record Announced (a : RenameAnswers) (n : Node) (topic : Str) (c : Context) (m : Mqtt)
    : Type 0 where
  pub done : Bool
  pub queue : Mqtt
  pub returns : announce a n topic c ≡ some (done, record c { mqtt = some queue })
  pub outcome : AnnounceOutcome a n topic m queue n.is_dir done
  pub valid : Queue.Publish.IsValid queue

module _ (a : RenameAnswers) (n : Node) (topic : Str) (c : Context) (m : Mqtt) (q : c.mqtt ≡ some m)
    (g : IsNode n) (h : IsStr topic) (w : CanPublish a.published topic n m) where
  announce_dir : n.is_dir ≡ true → announce a n topic c ≡ some (true, c)
  unfolding announce
  announce_dir d = ground (arith, d)

  announce_refused :
      n.is_dir ≡ false
      → is_accepted a.published topic n.size m ≡ false
      → announce a n topic c ≡ some (false, record c { mqtt = some (published a n topic m).1 })
  unfolding announce
  announce_refused d r =
      ground (arith, d, q, r, (mqtt_publish_lem a.published topic n.content n.size m).0)

  announce_done :
      (m' : Mqtt)
      → n.is_dir ≡ false
      → is_accepted a.published topic n.size m ≡ true
      → mqtt_cancel a.queue_locked n.path (published a n topic m).1 ≡ some m'
      → announce a n topic c ≡ some (true, record c { mqtt = some m' })
  unfolding announce
  announce_done m' d r k =
      ground (arith, d, q, r, k, (mqtt_publish_lem a.published topic n.content n.size m).0)

  pub announce-Announced : Announced a n topic c m
  announce-Announced = elim (Bool-cases n.is_dir) [
    | inl d ↦ record {
      done = true;
      queue = m;
      returns = announce_dir d ∙ ap (λ o. some (true, record c { mqtt = o })) q;
      outcome = subst (λ b. AnnounceOutcome a n topic m m b true) (sym d) (refl, refl);
      valid = w.valid;
    }
    | inr d ↦ elim (Bool-cases (is_accepted a.published topic n.size m)) [
      | inr r ↦ record {
        done = false;
        queue = (published a n topic m).1;
        returns = announce_refused d r;
        outcome =
            subst (λ b. AnnounceOutcome a n topic m (published a n topic m).1 b false) (sym d)
              (r, ground (arith, r, (mqtt_publish_lem a.published topic n.content n.size m).1));
        valid = valid_after;
      }
      | inl r ↦
          let (m', k, after) =
            mqtt_cancel_lem a.queue_locked n.path (published a n topic m).1 g.path_there
              valid_after in
          record {
            done = true;
            queue = m';
            returns = announce_done m' d r k;
            outcome =
                subst (λ b. AnnounceOutcome a n topic m m' b true) (sym d)
                  (
                    r,
                    ground (arith, r, (mqtt_publish_lem a.published topic n.content n.size m).1),
                    after,
                  );
            valid = valid_cancelled m' a.queue_locked after;
          }
    ]
  ]
    where
      valid_after : Queue.Publish.IsValid (published a n topic m).1
      valid_after =
          mqtt_publish-IsValid a.published topic n.content n.size m h
            (omega (arith, g.content_size)) w.fits w.in_time w.valid

      valid_cancelled :
          (m' : Mqtt) (locked : Bool)
          → (if locked
              then Cancelled n.path (published a n topic m).1 m'
              else m' ≡ (published a n topic m).1)
          → Queue.Publish.IsValid m'
      valid_cancelled m' true x = x.valid
      valid_cancelled m' false x = subst Queue.Publish.IsValid (sym x) valid_after
