-- ===== src/Tests/Queue.antt =====
-- Runs of the message queue of mqtt.c.
use mqttfs.Base.{ℕ, ◌^◌, ◌-◌, none, Option, map, [], ◌∷◌, ◌++◌, true, some, ◌≡◌, refl, arith}
use mqttfs.Str.{Str, str_compare, str_copy}
use mqttfs.Queue.{Mqtt, PublishAnswers, mqtt_publish, mqtt_cancel}
use mqttfs.Queue.Publish.{IsValid, message_for, mqtt_publish_lem, mqtt_publish-IsValid}
use mqttfs.Queue.Cancel.{Cancelled, mqtt_cancel_lem}
use mqttfs.Wire.{Socket}
use mqttfs.Stream.{receive_all, running}
use mqttfs.Stream.Chunks.{stream_of, observe, joined}
use mqttfs.Queue.Drain.{Torn, wait, drain_messages}
use mqttfs.Queue.Drain.Sent.{message_of}
use mqttfs.Queue.Drain.Whole.{drain_messages-early, drain_messages-delivered}
use mqttfs.Queue.Drain.Torn.{HeadFreed, drain_messages-tears}
use mathlib.Core.List.{append-nil}

abbrev pub topic : Str
topic = record { size = 1; chars = b'a' ∷ 0 ∷ [] }

abbrev pub other : Str
other = record { size = 1; chars = b'b' ∷ 0 ∷ [] }

abbrev pub empty_queue : Mqtt
empty_queue = record {
  keepalive = 60;
  holdback = 5;
  last_timestamp = 1;
  messages = [];
  messages_alloc = 0;
  is_running = true;
  wakeups = 0;
}

abbrev pub granted : PublishAnswers
granted = record {
  now = 10;
  locked = true;
  grown = true;
  topic_copied = true;
  payload_allocated = true;
  woken = true;
}

abbrev pub one_message : Mqtt
one_message = record empty_queue {
  messages = message_for granted topic (7 ∷ 8 ∷ []) 2 empty_queue ∷ [];
  messages_alloc = 1;
}

publish_run :
    mqtt_publish granted topic (7 ∷ 8 ∷ []) 2 empty_queue
    ≡ (true, record one_message { wakeups = 1 })
unfolding mqtt_publish str_copy
publish_run = refl

cancel_run : mqtt_cancel true topic one_message ≡ some (record one_message { messages = [] })
unfolding mqtt_cancel str_compare
cancel_run = refl

cancel_other : mqtt_cancel true other one_message ≡ some one_message
unfolding mqtt_cancel str_compare
cancel_other = refl

pub one_message-IsValid : IsValid one_message
one_message-IsValid = record {
  in_array = omega arith;
  queued = (
    record {
      owned = refl;
      topic_there = omega arith;
      topic_fits = omega arith;
      payload_there = refl;
      fits = omega arith;
    },
    tt,
  );
  ordered = omega arith;
}

pub empty_queue-IsValid : IsValid empty_queue
empty_queue-IsValid = record { in_array = omega arith; queued = tt; ordered = tt }

mqtt_publish_lem_example :
    ((mqtt_publish granted other (9 ∷ []) 1 one_message).0 ≡ true)
    × ((mqtt_publish granted other (9 ∷ []) 1 one_message).1.messages
        ≡ one_message.messages ++ message_for granted other (9 ∷ []) 1 one_message ∷ [])
    × ((mqtt_publish granted other (9 ∷ []) 1 one_message).1.wakeups ≡ 1)
mqtt_publish_lem_example = mqtt_publish_lem granted other (9 ∷ []) 1 one_message

mqtt_publish-IsValid_example : IsValid (mqtt_publish granted other (9 ∷ []) 1 one_message).1
mqtt_publish-IsValid_example =
    mqtt_publish-IsValid granted other (9 ∷ []) 1 one_message (omega arith) (omega arith)
      (omega arith) (omega arith) one_message-IsValid

mqtt_cancel_lem_example :
    (m' : Mqtt) × (mqtt_cancel true topic one_message ≡ some m') × Cancelled topic one_message m'
mqtt_cancel_lem_example = mqtt_cancel_lem true topic one_message (omega arith) one_message-IsValid

-- A machine where a time is eight bytes, of which few are laid over another as a whole.
abbrev pub torn_times : Torn
torn_times n s d = record d { timestamp = s.timestamp }

abbrev pub idle : Socket
idle = record { sent = []; incoming = [] }

abbrev pub takes : ℕ → Option ℕ
takes i = some 300000000

-- The message and one that is due a second later.
abbrev two_messages : Mqtt
two_messages = record one_message {
  messages =
      message_for granted topic (7 ∷ 8 ∷ []) 2 empty_queue
      ∷ message_for (record granted { now = 1010 }) other (9 ∷ []) 1 empty_queue
      ∷ [];
  messages_alloc = 2;
}

two_messages-IsValid : IsValid two_messages
two_messages-IsValid = record {
  in_array = omega arith;
  queued = (
    record {
      owned = refl;
      topic_there = omega arith;
      topic_fits = omega arith;
      payload_there = refl;
      fits = omega arith;
    },
    (
      record {
        owned = refl;
        topic_there = omega arith;
        topic_fits = omega arith;
        payload_there = refl;
        fits = omega arith;
      },
      tt,
    ),
  );
  ordered = (omega arith, (omega arith, tt));
}

drain_messages-early_example :
    drain_messages torn_times true takes 5 two_messages idle ≡ some (wait 15, two_messages, idle)
drain_messages-early_example = drain_messages-early torn_times true takes 5 two_messages idle refl

drain_messages-delivered_example :
    (drain_messages torn_times true takes 5000 two_messages idle
      ≡ some (
        wait (2 ^ 63 - 1),
        record two_messages { messages = []; last_timestamp = 5000 },
        record {
          sent = joined (stream_of (map message_of two_messages.messages) ∷ []);
          incoming = [];
        },
      ))
    × (map observe
          (receive_all (running []) (stream_of (map message_of two_messages.messages) ∷ [])).1
        ≡ map message_of two_messages.messages)
drain_messages-delivered_example =
    drain_messages-delivered torn_times takes 5000 two_messages idle
      (stream_of (map message_of two_messages.messages) ∷ []) (λ i. (300000000, refl, omega arith))
      two_messages-IsValid (omega arith) refl
      (append-nil (stream_of (map message_of two_messages.messages)))

drain_messages-tears_example :
    (next : ℕ) × (m' : Mqtt) × (s' : Socket) × (drain_messages torn_times true takes 1000
        two_messages idle
      ≡ some (wait next, m', s'))
    × HeadFreed topic m'.messages
    × ((other : Str) → other.size ≡ 1 → mqtt_cancel true other m' ≡ none)
drain_messages-tears_example =
    drain_messages-tears torn_times takes 1000 two_messages idle
      (message_for granted topic (7 ∷ 8 ∷ []) 2 empty_queue)
      (message_for (record granted { now = 1010 }) other (9 ∷ []) 1 empty_queue ∷ [])
      (λ n s d h. (refl, refl)) (λ i. (300000000, refl, omega arith)) two_messages-IsValid refl
      (omega arith) (omega arith) (omega arith)
