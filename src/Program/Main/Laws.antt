-- ===== src/Program/Main/Laws.antt =====
-- How `main` ends: before FUSE is started, and after it has returned.
use mqttfs.Base.{
  ℕ, List, [], ◌∷◌, Bool, true, false, Option, none, some, ◌≡◌, refl, sym, ap, ◌∙◌, arith,
  if◌then◌else◌,
}
use mathlib.Core.Path.{subst}
use mathlib.Core.Option
use mqttfs.Str.{str_view}
use mqttfs.Node.{Node, CreateAnswers, node_create}
use mqttfs.Wire.{send_disconnect_message}
use mqttfs.Queue
use mqttfs.Queue.{Mqtt}
use mqttfs.Store.{Context, Ret}
use mqttfs.Store.Search.{IsValid}
use mqttfs.Client.{
  Os, Resource, drop_first, release, ConnectAnswers, DestroyAnswers, mqtt_create, new_client,
  memory_of_queue,
}
use mqttfs.Client.Laws.{held_by_client, CreateOutcome, mqtt_create_lem, mqtt_destroy_lem}
use mqttfs.Program.Options.{Options, Environment, ok, parse_options}
use mqttfs.System.{Op, runs}
use mqttfs.System.Allowed.{AllAllowed}
use mqttfs.System.Runs.{runs-Follows}
use mqttfs.Store.Replace.{IsValid-mqtt}
use mqttfs.Program.Root.{tdestroy, no_context, create_root_node}
use mqttfs.Program.Root.Laws.{RootOutcome, create_root_node_lem, tdestroy_lem, points_to}
use mqttfs.Program.Main.{MainAnswers, fuse_result, main, destroy_client, clean_up, memory_of_client}

-- What is held when FUSE has returned: the mutex of the tree, and what the client holds, if there is one.
abbrev pub held_with : Option Mqtt → List Resource → List Resource
held_with none before = Resource.root_mutex ∷ before
held_with (some m) before = held_by_client (Resource.root_mutex ∷ before)

abbrev pub held_after : Option Mqtt → List Resource → List Resource
held_after none before = before
held_after (some m) before = Resource.mutex ∷ before

abbrev pub IsSound : Option Mqtt → Type 0
IsSound none = Unit
IsSound (some m) = Queue.Publish.IsValid m

created-IsValid :
    (created : CreateAnswers) (grown : Bool) (c : Context)
    → create_root_node created grown no_context ≡ some (true, c)
    → IsValid c
created-IsValid created grown c e =
    let (r, c', e', x) = create_root_node_lem created grown in
    by_outcome r c' grown (node_create created (str_view []) true) (sym e' ∙ e) x
  where
    by_outcome :
        (r : Bool) (c' : Context) (grown : Bool) (o : Option Node)
        → ◌≡◌ {A = Option (Bool × Context)} (some (r, c')) (some (true, c))
        → RootOutcome created grown o r c'
        → IsValid c
    by_outcome r c' grown none p (q, n) = cc
    by_outcome r c' false (some n) p (q, z) = cc
    by_outcome r c' true (some n) p (q, v, d, z) = subst IsValid (cc p) v

-- What `MqttCreate` has acquired.
acquired :
    (a : ConnectAnswers) (keepalive holdback : ℕ) (s s' : Os) (client : Option Mqtt)
    → mqtt_create a keepalive holdback s ≡ some (client, s')
    → (s'.held ≡ (elim client [ none ↦ s.held | some m ↦ held_by_client s.held ]))
      × (s'.queue_memory ≡ s.queue_memory)
acquired a keepalive holdback s s' client e =
    let (o, s1, e', x, n, v) = mqtt_create_lem a keepalive holdback s in
    by_outcome o s1 client (sym e' ∙ e) x n
  where
    same_state :
        {o client : Option Mqtt} (s1 : Os)
        → ◌≡◌ {A = Option (Option Mqtt × Os)} (some (o, s1)) (some (client, s'))
        → s' ≡ s1
    same_state s1 p = cc p

    by_outcome :
        (o : Option Mqtt) (s1 : Os) (client : Option Mqtt)
        → ◌≡◌ {A = Option (Option Mqtt × Os)} (some (o, s1)) (some (client, s'))
        → CreateOutcome (new_client a keepalive holdback) s.held o s1.held
        → s1.queue_memory ≡ s.queue_memory
        → (s'.held ≡ (elim client [ none ↦ s.held | some m ↦ held_by_client s.held ]))
          × (s'.queue_memory ≡ s.queue_memory)
    by_outcome none s1 none p x n = (
      ap (λ (s : Os). s.held) (same_state s1 p) ∙ x,
      ap (λ (s : Os). s.queue_memory) (same_state s1 p) ∙ n,
    )
    by_outcome none s1 (some m) p x n = cc
    by_outcome (some m) s1 none p x n = cc
    by_outcome (some m) s1 (some m') p (q, x) n = (
      ap (λ (s : Os). s.held) (same_state s1 p) ∙ x,
      ap (λ (s : Os). s.queue_memory) (same_state s1 p) ∙ n,
    )

finished :
    (a : DestroyAnswers) (c c' : Context) (s s' s'' : Os)
    → destroy_client a c.mqtt s ≡ some s'
    → tdestroy c ≡ some (tt, c')
    → release Resource.root_mutex s' ≡ some (tt, s'')
    → clean_up a (c, s) ≡ some (c', s'')
unfolding clean_up
finished k c c' s s' s'' d e r = ground (arith, d, e, r)

abbrev is_there : Option Mqtt → Bool
is_there o = elim o [ none ↦ false | some m ↦ true ]

-- The client, if there is one, and the mutex of the tree.
given_back :
    (a : DestroyAnswers) (o client : Option Mqtt) (before memory : List Resource) (s : Os)
    → is_there o ≡ is_there client
    → s.held ≡ held_with client before
    → s.queue_memory ≡ memory
    → IsSound o
    → (s' : Os) × (destroy_client a o
          (record s { queue_memory = memory_of_client o s.queue_memory })
        ≡ some s')
      × (release Resource.root_mutex s' ≡ some (tt, record s' { held = held_after client before }))
      × (s'.queue_memory ≡ memory)
unfolding destroy_client release
given_back k none none before memory s q h n w = (
  s,
  refl,
  ap (λ l. Option.map (λ l. (tt, record s { held = l })) (drop_first Resource.root_mutex l)) h,
  n,
)
given_back k none (some m) before memory s q h n w = cc
given_back k (some m) none before memory s q h n w = cc
given_back k (some m) (some m') before memory s q h n w = (
  record {
    held = Resource.mutex ∷ Resource.root_mutex ∷ before;
    queue_memory = s.queue_memory;
    socket = (send_disconnect_message k.disconnect_sent s.socket).1;
  },
  ap
        (λ l.
          destroy_client k (some m) (record {
            held = l;
            queue_memory = memory_of_queue m s.queue_memory;
            socket = s.socket;
          }))
        h
      ∙ ap (λ o. elim o [ none ↦ none | some (x, s') ↦ some s' ])
          (mqtt_destroy_lem k m (Resource.root_mutex ∷ before) s.queue_memory s.socket w),
  refl,
  n,
)

-- A run of `main` that gets as far as FUSE, on settings that are accepted and operations that are
-- allowed after `MqttfsInit`: if the queue of the client is well formed in the end, the run ends
-- with FUSE's result and nothing is released or freed twice. Every node that the tree points to
-- after the operations is freed, no other node is, and no tree is left. All that was acquired is
-- given back, the memory of the queue included, but the mutex of a client's queue.
pub main_lem :
    (is_address : List ℕ → Bool) (e : Environment) (a : MainAnswers) (session : List Op) (s s' : Os)
    (options : Options) (c : Context) (client : Option Mqtt)
    → parse_options is_address e ≡ ok options
    → create_root_node a.created a.tree_grown no_context ≡ some (true, c)
    → a.mutex_made ≡ true
    → mqtt_create a.connect options.keepalive options.holdback
        (record s { held = Resource.root_mutex ∷ s.held })
      ≡ some (client, s')
    → AllAllowed session (record c { mqtt = client })
    → ((events : List (Option Ret × Context)) (c' : Context)
        → runs session (record c { mqtt = client }) ≡ some (events, c')
        → IsSound c'.mqtt)
    → (events : List (Option Ret × Context)) × (c1 : Context) × (c' : Context) × (s'' : Os) × (runs
          session
          (record c { mqtt = client })
        ≡ some (events, c1))
      × (main is_address e a session s ≡ some (fuse_result, (c', s'')))
      × (c'.root ≡ [])
      × ((addr : ℕ) → c'.nodes addr ≡ (if points_to addr c1.root then none else c1.nodes addr))
      × (s''.held ≡ held_after client s.held)
      × (s''.queue_memory ≡ s.queue_memory)
unfolding main
main_lem is_address e a session s s' options c client p r m k x w =
    let started = IsValid-mqtt c client (created-IsValid a.created a.tree_grown c r) in
    let (events, c1, run, v, there, y) =
      runs-Follows session (record c { mqtt = client }) started x in
    let (c2, t, empty, n) = tdestroy_lem c1 v in
    let (held, memory) =
      acquired a.connect options.keepalive options.holdback
        (record s { held = Resource.root_mutex ∷ s.held }) s' client k in
    let (s2, d, g, q) =
      given_back a.destroyed c1.mqtt client s.held s.queue_memory s' there (held ∙ same client)
        memory (w events c1 run) in
    (
      events,
      c1,
      c2,
      record s2 { held = held_after client s.held },
      run,
      ground (arith, p, r, m, k, run, finished a.destroyed c1 c2 _ s2 _ d t g),
      empty,
      n,
      refl,
      q,
    )
  where
    same :
        (o : Option Mqtt)
        → (elim o [
          | none ↦ Resource.root_mutex ∷ s.held
          | some m ↦ held_by_client (Resource.root_mutex ∷ s.held)
        ])
          ≡ held_with o s.held
    same none = refl
    same (some m) = refl
