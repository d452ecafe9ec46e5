-- ===== src/Client/Laws.antt =====
-- The resources of a client: nothing is lost where `MqttCreate` fails, and what `MqttDestroy` gives
-- back.
use mqttfs.Base.{
  ℕ, zero, suc, List, [], ◌∷◌, Option, none, some, ◌==◌, ◌≡◌, inl, inr, refl, arith, Bool-cases,
  All, Bool, true, false,
}
use mqttfs.Wire.{
  Socket, send_connect_message, receive_connect_ack, send_subscribe_message, receive_subscribe_ack,
  send_disconnect_message,
}
use mqttfs.Queue.{MqttMessage, Mqtt, wake_io_thread}
use mqttfs.Queue.Publish.{IsQueued, IsValid}
use mqttfs.Client.{
  Resource, block, mutex, descriptor, pipe_reader, pipe_writer, thread, free_array,
  memory_of_messages, memory_of_array, memory_of_queue, ◌>>=◌, Os, ConnectAnswers, new_client,
  rollback_pipe, rollback_send_connect_message, subscribe, greet, mqtt_create, DestroyAnswers,
  mqtt_destroy, free_messages, acquire, rollback_malloc, rollback_mtx_init, rollback_socket,
}

-- What a client that runs holds beyond what was held before.
abbrev pub held_by_client : List Resource → List Resource
held_by_client before = thread ∷ pipe_writer ∷ pipe_reader ∷ descriptor ∷ mutex ∷ block ∷ before

abbrev pub CreateOutcome : Mqtt → List Resource → Option Mqtt → List Resource → Type 0
CreateOutcome client before none held = held ≡ before
CreateOutcome client before (some m) held = (m ≡ client) × (held ≡ held_by_client before)

record Ends (run : Option (Option Mqtt × Os)) (client : Mqtt) (before memory : List Resource)
    : Type 0 where
  result : Option Mqtt
  after : Os
  returns : run ≡ some (result, after)
  outcome : CreateOutcome client before result after.held
  same_memory : after.queue_memory ≡ memory

abbrev open_held : List Resource → List Resource
open_held before = pipe_writer ∷ pipe_reader ∷ descriptor ∷ mutex ∷ block ∷ before

module _ (a : ConnectAnswers) (keepalive holdback : ℕ) (before memory : List Resource) where
  abbrev client : Mqtt
  client = new_client a keepalive holdback

  abbrev at : Socket → Os
  at s = record { held = open_held before; queue_memory = memory; socket = s }

  undone :
      (s : Socket)
      → rollback_pipe (at s)
        ≡ some (none, record { held = before; queue_memory = memory; socket = s })
  unfolding rollback_pipe
  undone s = refl

  disconnected : (s : Socket) → Ends (rollback_send_connect_message a (at s)) client before memory
  unfolding rollback_send_connect_message
  disconnected s = record {
    result = none;
    after = record {
      held = before;
      queue_memory = memory;
      socket = (send_disconnect_message a.disconnect_sent s).1;
    };
    returns = refl;
    outcome = refl;
    same_memory = refl;
  }

  running :
      (s : Socket)
      → Ends
          (some (
            some client,
            record { held = thread ∷ open_held before; queue_memory = memory; socket = s },
          ))
          client
          before
          memory
  running s = record {
    result = some client;
    after = _;
    returns = refl;
    outcome = (refl, refl);
    same_memory = refl;
  }

  subscribe-Ends : (s : Socket) → Ends (subscribe a keepalive holdback (at s)) client before memory
  unfolding subscribe
  subscribe-Ends s = elim (Bool-cases (send_subscribe_message a.subscribe_sent s).0) [
    | inr e ↦ rw e (disconnected s')
    | inl e ↦ elim (Bool-cases (receive_subscribe_ack a.subscribe_acked s').0) [
      | inr f ↦ rw (e, f) (disconnected s'')
      | inl f ↦ elim (Bool-cases a.thread_made) [
        | inr g ↦ rw (e, f, g) (disconnected s'')
        | inl g ↦ rw (e, f, g) (unfold acquire in running s'')
      ]
    ]
  ]
    where
      s' : Socket
      s' = (send_subscribe_message a.subscribe_sent s).1

      s'' : Socket
      s'' = (receive_subscribe_ack a.subscribe_acked s').1

  ended :
      (s : Socket)
      → Ends
          (some (none, record { held = before; queue_memory = memory; socket = s }))
          client
          before
          memory
  ended s = record { result = none; after = _; returns = refl; outcome = refl; same_memory = refl }

  greet-Ends : (s : Socket) → Ends (greet a keepalive holdback (at s)) client before memory
  unfolding greet
  greet-Ends s = elim (Bool-cases a.connected) [
    | inr c ↦ rw (c, undone s) (ended s)
    | inl c ↦ elim (Bool-cases (send_connect_message a.connect_sent keepalive s).0) [
      | inr e ↦ rw (c, e, undone s') (ended s')
      | inl e ↦ elim (Bool-cases (receive_connect_ack a.connect_acked s').0) [
        | inr f ↦ rw (c, e, f, undone s'') (ended s'')
        | inl f ↦ rw (c, e, f) (subscribe-Ends s'')
      ]
    ]
  ]
    where
      s' : Socket
      s' = (send_connect_message a.connect_sent keepalive s).1

      s'' : Socket
      s'' = (receive_connect_ack a.connect_acked s').1

  create-Ends :
      (s : Socket)
      → Ends
          (mqtt_create a keepalive holdback
            (record { held = before; queue_memory = memory; socket = s }))
          client
          before
          memory
  unfolding mqtt_create rollback_malloc rollback_mtx_init rollback_socket
  create-Ends s = elim (Bool-cases a.allocated) [
    | inr c ↦ rw c (ended s)
    | inl c ↦ elim (Bool-cases (a.now == 0)) [
      | inl n ↦ rw (c, n) (ended s)
      | inr n ↦ elim (Bool-cases a.mutex_made) [
        | inr m ↦ rw (c, n, m) (ended s)
        | inl m ↦ elim (Bool-cases a.socket_made) [
          | inr f ↦ rw (c, n, m, f) (ended s)
          | inl f ↦ elim (Bool-cases a.pipe_made) [
            | inr p ↦ rw (c, n, m, f, p) (ended s)
            | inl p ↦ rw (c, n, m, f, p) (greet-Ends s)
          ]
        ]
      ]
    ]
  ]

module _ (held : List Resource) (s : Socket) where
  abbrev with_memory : List Resource → Os
  with_memory memory = record { held = held; queue_memory = memory; socket = s }

  free_messages_lem :
      (ms : List MqttMessage) (memory : List Resource)
      → All IsQueued ms
      → free_messages ms (with_memory (memory_of_messages ms memory))
        ≡ some (tt, with_memory memory)
  unfolding free_messages
  free_messages_lem [] memory w = refl
  free_messages_lem (q ∷ qs) memory (h, hs) = rw h.owned (free_messages_lem qs memory hs)

  free_array_lem :
      (messages_alloc : ℕ) (memory : List Resource)
      → free_array messages_alloc (with_memory (memory_of_array messages_alloc memory))
        ≡ some (tt, with_memory memory)
  unfolding free_array
  free_array_lem zero memory = refl
  free_array_lem (suc messages_alloc) memory = refl

  free_woken :
      (woken : Bool) (m : Mqtt) (memory : List Resource)
      → All IsQueued m.messages
      → free_messages
          (wake_io_thread woken (record m { is_running = false })).messages
          (with_memory (memory_of_queue m memory))
        ≡ some (tt, with_memory (memory_of_array m.messages_alloc memory))
  unfolding wake_io_thread
  free_woken true m memory w = free_messages_lem m.messages _ w
  free_woken false m memory w = free_messages_lem m.messages _ w

  free_woken_array :
      (woken : Bool) (m : Mqtt) (memory : List Resource)
      → free_array
          (wake_io_thread woken (record m { is_running = false })).messages_alloc
          (with_memory (memory_of_array m.messages_alloc memory))
        ≡ some (tt, with_memory memory)
  unfolding wake_io_thread
  free_woken_array true m memory = free_array_lem m.messages_alloc memory
  free_woken_array false m memory = free_array_lem m.messages_alloc memory

destroy_run :
    (a : DestroyAnswers) (m : Mqtt) (before memory : List Resource) (s s' : Socket)
    → (send_disconnect_message a.disconnect_sent s).1 ≡ s'
    → free_messages
        (wake_io_thread a.woken (record m { is_running = false })).messages
        (with_memory (mutex ∷ block ∷ before) s' (memory_of_queue m memory))
      ≡ some (tt, with_memory (mutex ∷ block ∷ before) s' (memory_of_array m.messages_alloc memory))
    → free_array
        (wake_io_thread a.woken (record m { is_running = false })).messages_alloc
        (with_memory (mutex ∷ block ∷ before) s' (memory_of_array m.messages_alloc memory))
      ≡ some (tt, with_memory (mutex ∷ block ∷ before) s' memory)
    → mqtt_destroy a m (with_memory (held_by_client before) s (memory_of_queue m memory))
      ≡ some (tt, with_memory (mutex ∷ before) s' memory)
unfolding mqtt_destroy
destroy_run a m before memory s s' d e g = rw (d, ◌>>=◌, e, g)

empty-IsValid :
    (a : ConnectAnswers) (keepalive holdback : ℕ) → IsValid (new_client a keepalive holdback)
empty-IsValid a keepalive holdback = record { in_array = omega arith; queued = tt; ordered = tt }

-- `MqttCreate` releases nothing that it does not hold. If it fails, all that it acquired is
-- released; if it succeeds, the client is new, its queue is empty, and the block, the mutex, the
-- descriptors and the thread are held. The memory for queues is what it was.
pub mqtt_create_lem :
    (a : ConnectAnswers) (keepalive holdback : ℕ) (s : Os)
    → (o : Option Mqtt) × (s' : Os) × (mqtt_create a keepalive holdback s ≡ some (o, s'))
      × CreateOutcome (new_client a keepalive holdback) s.held o s'.held
      × (s'.queue_memory ≡ s.queue_memory)
      × IsValid (new_client a keepalive holdback)
mqtt_create_lem a keepalive holdback s =
    let e = create-Ends a keepalive holdback s.held s.queue_memory s.socket in
    (e.result, e.after, e.returns, e.outcome, e.same_memory, empty-IsValid a keepalive holdback)

pub mqtt_destroy_lem :
    (a : DestroyAnswers) (m : Mqtt) (before memory : List Resource) (s : Socket)
    → IsValid m
    → mqtt_destroy a m (record {
      held = held_by_client before;
      queue_memory = memory_of_queue m memory;
      socket = s;
    })
      ≡ some (
        tt,
        record {
          held = mutex ∷ before;
          queue_memory = memory;
          socket = (send_disconnect_message a.disconnect_sent s).1;
        },
      )
mqtt_destroy_lem a m before memory s v =
    let s' = (send_disconnect_message a.disconnect_sent s).1 in
    destroy_run a m before memory s s' refl
      (free_woken (mutex ∷ block ∷ before) s' a.woken m memory v.queued)
      (free_woken_array (mutex ∷ block ∷ before) s' a.woken m memory)
