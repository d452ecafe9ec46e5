-- ===== src/Tests/Client.antt =====
-- Runs of the start and the end of a client.
use mqttfs.Base.{[], ◌∷◌, true, Option, none, some, ◌≡◌}
use mqttfs.Queue.{Mqtt}
use mqttfs.Queue.Publish.{IsValid}
use mqttfs.Client.{Os, ConnectAnswers, DestroyAnswers, new_client, mqtt_create}
use mqttfs.Client.Laws.{CreateOutcome, mqtt_create_lem}
use mqttfs.Tests.Queue.{idle}

-- The system grants everything, but the broker does not take the subscription.
abbrev not_subscribed : ConnectAnswers
not_subscribed = record {
  allocated = true;
  now = 10;
  mutex_made = true;
  socket_made = true;
  pipe_made = true;
  connected = true;
  connect_sent = some 26;
  connect_acked = some 4;
  subscribe_sent = none;
  subscribe_acked = none;
  thread_made = true;
  disconnect_sent = some 2;
}

abbrev nothing_held : Os
nothing_held = record {
  held = [];
  queue_memory = [];
  socket = record idle { incoming = 32 ∷ 2 ∷ 0 ∷ 0 ∷ [] };
}

mqtt_create_lem_example :
    (o : Option Mqtt) × (s' : Os) × (mqtt_create not_subscribed 60 5 nothing_held ≡ some (o, s'))
    × CreateOutcome (new_client not_subscribed 60 5) [] o s'.held
    × (s'.queue_memory ≡ [])
    × IsValid (new_client not_subscribed 60 5)
mqtt_create_lem_example = mqtt_create_lem not_subscribed 60 5 nothing_held

abbrev ends : DestroyAnswers
ends = record { woken = true; disconnect_sent = some 2 }
