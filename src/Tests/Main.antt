-- ===== src/Tests/Main.antt =====
-- A run of the program from its start to its end.
use mqttfs.Base.{
  ℕ, if◌then◌else◌, List, [], ◌∷◌, true, Option, none, some, ◌≡◌, refl, sym, ap, ◌∙◌, arith,
}
use mathlib.Core.Path.{subst}
use mqttfs.Str.{copied, str_view, str_compare, str_copy}
use mqttfs.Node.{fresh_node, node_create, node_compare}
use mqttfs.Wire.{
  send_connect_message, receive_connect_ack, send_subscribe_message, receive_subscribe_ack,
}
use mqttfs.Queue.{Mqtt}
use mqttfs.Store.{Context, Ret, search, tsearch, load_slot, store_slot, allocate}
use mqttfs.Fs.Make.{make, mqttfs_create}
use mqttfs.Client.{Os, Resource, ConnectAnswers, new_client, mqtt_create}
use mqttfs.Program.Root.{no_context, create_root_node}
use mqttfs.Program.Root.Laws.{rooted, points_to}
use mqttfs.Program.Main.{MainAnswers, main, fuse_result}
use mqttfs.Program.Main.Laws.{IsSound, main_lem}
use mqttfs.System.{Op, create, run, runs}
use mqttfs.Tests.Queue.{idle}
use mqttfs.Tests.Store.{noon, grant, home}
use mqttfs.Tests.Program.{accepts, nothing_set, defaults, defaults_read}

abbrev connects : ConnectAnswers
connects = record {
  allocated = true;
  now = 10;
  mutex_made = true;
  socket_made = true;
  pipe_made = true;
  connected = true;
  connect_sent = some 14;
  connect_acked = some 4;
  subscribe_sent = some 10;
  subscribe_acked = some 5;
  thread_made = true;
  disconnect_sent = some 2;
}

abbrev starts : MainAnswers
starts = record {
  created = grant.created;
  tree_grown = true;
  mutex_made = true;
  connect = connects;
  destroyed = record { woken = true; disconnect_sent = some 2 };
}

-- The broker takes the connection and the subscription.
abbrev outside : Os
outside = record {
  held = [];
  queue_memory = [];
  socket = record idle { incoming = 32 ∷ 2 ∷ 0 ∷ 0 ∷ 144 ∷ 3 ∷ 0 ∷ 1 ∷ 0 ∷ [] };
}

abbrev client : Mqtt
client = new_client connects 60 0

abbrev connected : Os
connected = record {
  held =
      Resource.thread ∷ Resource.pipe_writer ∷ Resource.pipe_reader ∷ Resource.descriptor
      ∷ Resource.mutex ∷ Resource.block ∷ Resource.root_mutex ∷ [];
  queue_memory = [];
  socket = record {
    sent =
        16 ∷ 12 ∷ 0 ∷ 4 ∷ 77 ∷ 81 ∷ 84 ∷ 84 ∷ 4 ∷ 2 ∷ 0 ∷ 60 ∷ 0 ∷ 0 ∷ 130 ∷ 8 ∷ 0 ∷ 1 ∷ 0 ∷ 3 ∷ 43
        ∷ 47 ∷ 35 ∷ 0 ∷ [];
    incoming = [];
  };
}

abbrev root : Context
root = rooted (fresh_node noon true (copied (str_view [])))

root_made : create_root_node starts.created starts.tree_grown no_context ≡ some (true, root)
unfolding create_root_node allocate node_create str_copy
root_made = refl

client_made :
    mqtt_create connects 60 0 (record outside { held = Resource.root_mutex ∷ [] })
    ≡ some (some client, connected)
unfolding mqtt_create send_connect_message receive_connect_ack send_subscribe_message
    receive_subscribe_ack
client_made = refl

-- A file is made while the program runs.
abbrev session : List Op
session = create grant home ∷ []

abbrev client_of : Option (List (Option Ret × Context) × Context) → Option Mqtt
client_of none = none
client_of (some (events, c)) = c.mqtt

client_kept : client_of (runs session (record root { mqtt = some client })) ≡ some client
unfolding runs run mqttfs_create make tsearch search load_slot store_slot allocate node_create
    node_compare str_compare str_copy str_view
client_kept = refl

queue-IsSound :
    (events : List (Option Ret × Context)) (c' : Context)
    → runs session (record root { mqtt = some client }) ≡ some (events, c')
    → IsSound c'.mqtt
queue-IsSound events c' e =
    subst IsSound (sym (ap client_of (sym e) ∙ client_kept))
      (record { in_array = omega arith; queued = tt; ordered = tt })

main_lem_example :
    (events : List (Option Ret × Context)) × (c1 : Context) × (c' : Context) × (s'' : Os) × (runs
        session
        (record root { mqtt = some client })
      ≡ some (events, c1))
    × (main accepts nothing_set starts session outside ≡ some (fuse_result, (c', s'')))
    × (c'.root ≡ [])
    × ((addr : ℕ) → c'.nodes addr ≡ (if points_to addr c1.root then none else c1.nodes addr))
    × (s''.held ≡ Resource.mutex ∷ [])
    × (s''.queue_memory ≡ [])
main_lem_example =
    main_lem accepts nothing_set starts session outside connected defaults root (some client)
      defaults_read root_made refl client_made (tt, λ r c' e. tt) queue-IsSound
