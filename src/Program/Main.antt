-- ===== src/Program/Main.antt =====
-- `MqttfsInit` and `main` of main.c: how a run of the program starts and ends.
pub mod Laws
use mqttfs.Base.{ℕ, List, [], ◌∷◌, Bool, true, false, Option, none, some, not, if◌then◌else◌}
use mqttfs.Node.{CreateAnswers}
use mqttfs.Queue.{Mqtt}
use mqttfs.Store.{Context}
use mqttfs.Client.{
  Os, Resource, ConnectAnswers, DestroyAnswers, mqtt_create, mqtt_destroy, memory_of_queue, acquire,
  release,
}
use mqttfs.Program.Options.{Options, Environment, ok, exit_einval, undefined, parse_options}
use mqttfs.Program.Root.{no_context, create_root_node, tdestroy}
use mqttfs.System.{Op, runs}

-- The answers to one run. What the thread of the client does to the queue meanwhile is not part of it.
pub record MainAnswers : Type 0 where
  pub created : CreateAnswers
  pub tree_grown : Bool
  pub mutex_made : Bool
  pub connect : ConnectAnswers
  pub destroyed : DestroyAnswers

-- How the program ends: with an error before FUSE is started, or with FUSE's own result.
pub data Exit : Type 0 where
  einval eio no_mutex fuse_result : Exit

-- `none` is a fault.
abbrev pub World : Type 0
World = Context × Os

-- `context->mqtt` is what `MqttCreate` gives, also where that is a null pointer.
unfoldable pub mqttfs_init : ConnectAnswers → Options → World → Option World
mqttfs_init a options (c, s) = elim (mqtt_create a options.keepalive options.holdback s) [
  | none ↦ none
  | some (client, s') ↦ some (record c { mqtt = client }, s')
]

abbrev pub memory_of_client : Option Mqtt → List Resource → List Resource
memory_of_client none memory = memory
memory_of_client (some m) memory = memory_of_queue m memory

-- What `fuse_main` calls: `MqttfsInit`, and then the operations that it is asked for. Each message
-- comes and goes with its memory, so what the session leaves allocated is what the queue then holds.
unfoldable pub fuse_session : ConnectAnswers → Options → List Op → World → Option World
unfolding mqttfs_init
fuse_session a options session w = elim (mqttfs_init a options w) [
  | none ↦ none
  | some (c, s) ↦ elim (runs session c) [
    | none ↦ none
    | some (events, c') ↦
        some (c', record s { queue_memory = memory_of_client c'.mqtt s.queue_memory })
  ]
]

unfoldable pub destroy_client : DestroyAnswers → Option Mqtt → Os → Option Os
destroy_client a none s = some s
destroy_client a (some m) s = elim (mqtt_destroy a m s) [ none ↦ none | some (x, s') ↦ some s' ]

unfoldable pub clean_up : DestroyAnswers → World → Option World
unfolding destroy_client
clean_up a (c, s) = elim (destroy_client a c.mqtt s) [
  | none ↦ none
  | some s' ↦ elim (tdestroy c) [
    | none ↦ none
    | some (x, c') ↦ elim (release Resource.root_mutex s') [
      | none ↦ none
      | some (y, s'') ↦ some (c', s'')
    ]
  ]
]

unfoldable pub with_mutex : MainAnswers → Options → List Op → World → Option (Exit × World)
unfolding fuse_session clean_up acquire
with_mutex a options session (c, s) = elim (acquire Resource.root_mutex s) [
  | none ↦ none
  | some (x, s') ↦ elim (fuse_session a.connect options session (c, s')) [
    | none ↦ none
    | some w ↦ elim (clean_up a.destroyed w) [ none ↦ none | some w' ↦ some (fuse_result, w') ]
  ]
]

unfoldable pub with_root : MainAnswers → Options → List Op → World → Option (Exit × World)
unfolding with_mutex
with_root a options session (c, s) =
    if not a.mutex_made
    then elim (tdestroy c) [ none ↦ none | some (x, c') ↦ some (no_mutex, (c', s)) ]
    else with_mutex a options session (c, s)

unfoldable pub with_options : MainAnswers → List Op → Os → Options → Option (Exit × World)
unfolding with_root
with_options a session s options = elim (create_root_node a.created a.tree_grown no_context) [
  | none ↦ none
  | some (false, c) ↦ some (eio, (c, s))
  | some (true, c) ↦ with_root a options session (c, s)
]

-- What `atoi` leaves undefined may end in a fault too.
unfoldable pub main :
    (List ℕ → Bool) → Environment → MainAnswers → List Op → Os → Option (Exit × World)
unfolding with_options
main is_address e a session s = elim (parse_options is_address e) [
  | ok options ↦ with_options a session s options
  | exit_einval ↦ some (einval, (no_context, s))
  | undefined ↦ none
]
