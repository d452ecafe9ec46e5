-- ===== src/Client.antt =====
-- `MqttCreate` and `MqttDestroy` of mqtt.c: the resources of a client and the talk at its start and end.
pub mod Laws
use mqttfs.Base.{
  ℕ, zero, suc, List, [], ◌∷◌, ◌++◌, Bool, true, false, Option, none, some, not, if◌then◌else◌,
  ◌==◌,
}
use mqttfs.Wire.{
  Socket, send_connect_message, receive_connect_ack, send_subscribe_message, receive_subscribe_ack,
  send_disconnect_message,
}
use mqttfs.Queue.{MqttMessage, Mqtt, wake_io_thread}
use mathlib.Core.Option

-- What a client holds of the system's: its block, its mutex, its descriptors and its
-- thread; the memory of its queue, for each message that of the topic and that of the payload, and the
-- array; and the mutex of the tree, which `main` holds.
pub data Resource : Type 0 where
  block mutex descriptor pipe_reader pipe_writer thread root_mutex : Resource
  message_array message_topic message_payload : Resource

abbrev pub is_same : Resource → Resource → Bool
is_same Resource.block Resource.block = true
is_same Resource.mutex Resource.mutex = true
is_same Resource.descriptor Resource.descriptor = true
is_same Resource.pipe_reader Resource.pipe_reader = true
is_same Resource.pipe_writer Resource.pipe_writer = true
is_same Resource.thread Resource.thread = true
is_same Resource.root_mutex Resource.root_mutex = true
is_same Resource.message_array Resource.message_array = true
is_same Resource.message_topic Resource.message_topic = true
is_same Resource.message_payload Resource.message_payload = true
is_same _ _ = false

-- What is held, the latest first; the memory of the queue apart, as the queue grows and shrinks while
-- the rest stays; and the connection to the broker.
pub record Os : Type 0 where
  pub held : List Resource
  pub queue_memory : List Resource
  pub socket : Socket

-- `none` is a fault: something was released that was not held.
abbrev pub Sys : Type 0 → Type 0
Sys A = Os → Option (A × Os)

abbrev pub pure : {A : Type 0} → A → Sys A
pure a s = some (a, s)

abbrev pub fault : {A : Type 0} → Sys A
fault s = none

infixl 5 ◌>>=◌ ◌>>◌
abbrev pub ◌>>=◌ : {A B : Type 0} → Sys A → (A → Sys B) → Sys B
◌>>=◌ m f s = elim (m s) [ none ↦ none | some (a, s') ↦ f a s' ]

abbrev pub ◌>>◌ : {B : Type 0} → Sys (Unit {0}) → Sys B → Sys B
m >> k = m >>= λ _. k

unfoldable pub acquire : Resource → Sys (Unit {0})
acquire r s = some (tt, record s { held = r ∷ s.held })

unfoldable pub drop_first : Resource → List Resource → Option (List Resource)
drop_first r [] = none
drop_first r (x ∷ held) =
    let further = drop_first r held in
    if is_same r x then some held else Option.map (λ l. x ∷ l) further

unfoldable pub release : Resource → Sys (Unit {0})
unfolding drop_first
release r s = Option.map (λ l. (tt, record s { held = l })) (drop_first r s.held)

-- `free`, of the memory of the queue.
unfoldable pub free : Resource → Sys (Unit {0})
unfolding drop_first
free r s = Option.map (λ l. (tt, record s { queue_memory = l })) (drop_first r s.queue_memory)

-- A call on the connection.
abbrev pub on_socket : (Socket → Bool × Socket) → Sys Bool
on_socket f s = some ((f s.socket).0, record s { socket = (f s.socket).1 })

-- The answers to one call of `MqttCreate`; `now` is 0 if the clock failed.
pub record ConnectAnswers : Type 0 where
  pub allocated : Bool
  pub now : ℕ
  pub mutex_made : Bool
  pub socket_made : Bool
  pub pipe_made : Bool
  pub connected : Bool
  pub connect_sent : Option ℕ
  pub connect_acked : Option ℕ
  pub subscribe_sent : Option ℕ
  pub subscribe_acked : Option ℕ
  pub thread_made : Bool
  pub disconnect_sent : Option ℕ

-- The labels at the end of the function, each of which falls through to the one below.
unfoldable pub rollback_malloc : Sys (Option Mqtt)
unfolding release
rollback_malloc = do release Resource.block; pure none

unfoldable pub rollback_mtx_init : Sys (Option Mqtt)
unfolding rollback_malloc
rollback_mtx_init = do release Resource.mutex; rollback_malloc

unfoldable pub rollback_socket : Sys (Option Mqtt)
unfolding rollback_mtx_init
rollback_socket = do release Resource.descriptor; rollback_mtx_init

unfoldable pub rollback_pipe : Sys (Option Mqtt)
unfolding rollback_socket
rollback_pipe = do release Resource.pipe_writer; release Resource.pipe_reader; rollback_socket

unfoldable pub rollback_send_connect_message : ConnectAnswers → Sys (Option Mqtt)
unfolding rollback_pipe
rollback_send_connect_message a = do
  sent ← on_socket (send_disconnect_message a.disconnect_sent)
  rollback_pipe

abbrev pub new_client : ConnectAnswers → ℕ → ℕ → Mqtt
new_client a keepalive holdback = record {
  keepalive = keepalive;
  holdback = holdback;
  last_timestamp = a.now;
  messages = [];
  messages_alloc = 0;
  is_running = true;
  wakeups = 0;
}

unfoldable pub subscribe : ConnectAnswers → ℕ → ℕ → Sys (Option Mqtt)
unfolding rollback_send_connect_message
subscribe a keepalive holdback = do
  sent ← on_socket (send_subscribe_message a.subscribe_sent)
  if not sent then rollback_send_connect_message a else do
    acked ← on_socket (receive_subscribe_ack a.subscribe_acked)
    if not acked
        then rollback_send_connect_message a
        else if not a.thread_made
        then rollback_send_connect_message a
        else do acquire Resource.thread; pure (some (new_client a keepalive holdback))

unfoldable pub greet : ConnectAnswers → ℕ → ℕ → Sys (Option Mqtt)
unfolding rollback_pipe subscribe
greet a keepalive holdback = if not a.connected then rollback_pipe else do
  sent ← on_socket (send_connect_message a.connect_sent keepalive)
  if not sent then rollback_pipe else do
    acked ← on_socket (receive_connect_ack a.connect_acked)
    if not acked then rollback_pipe else subscribe a keepalive holdback

unfoldable pub open_descriptors : ConnectAnswers → ℕ → ℕ → Sys (Option Mqtt)
unfolding greet acquire
open_descriptors a keepalive holdback = if not a.socket_made then rollback_mtx_init else do
  acquire Resource.descriptor
  if not a.pipe_made
      then rollback_socket
      else do acquire Resource.pipe_reader; acquire Resource.pipe_writer; greet a keepalive holdback

unfoldable pub mqtt_create : ConnectAnswers → ℕ → ℕ → Sys (Option Mqtt)
unfolding open_descriptors
mqtt_create a keepalive holdback = if not a.allocated then pure none else do
  acquire Resource.block
  if a.now == 0
      then rollback_malloc
      else if not a.mutex_made
      then rollback_malloc
      else do acquire Resource.mutex; open_descriptors a keepalive holdback

-- The memory of a queue, above other memory.
abbrev pub memory_of_messages : List MqttMessage → List Resource → List Resource
memory_of_messages [] memory = memory
memory_of_messages (q ∷ qs) memory =
    Resource.message_topic ∷ Resource.message_payload ∷ memory_of_messages qs memory

abbrev pub memory_of_array : ℕ → List Resource → List Resource
memory_of_array zero memory = memory
memory_of_array (suc messages_alloc) memory = Resource.message_array ∷ memory

abbrev pub memory_of_queue : Mqtt → List Resource → List Resource
memory_of_queue m memory = memory_of_messages m.messages (memory_of_array m.messages_alloc memory)

-- The loop that frees the messages; a second free is a fault.
unfoldable pub free_messages : List MqttMessage → Sys (Unit {0})
unfolding free
free_messages [] = pure tt
free_messages (iter ∷ later) =
    if not iter.is_owned
    then fault
    else do free Resource.message_topic; free Resource.message_payload; free_messages later

-- `free(mqtt->messages)`: the array is a null pointer until it has grown.
unfoldable pub free_array : ℕ → Sys (Unit {0})
unfolding free
free_array zero = pure tt
free_array (suc messages_alloc) = free Resource.message_array

-- The answers to one call of `MqttDestroy`.
pub record DestroyAnswers : Type 0 where
  pub woken : Bool
  pub disconnect_sent : Option ℕ

-- `thrd_join` returns once the thread has left its loop, which `running` and the token make it do.
unfoldable pub mqtt_destroy : DestroyAnswers → Mqtt → Sys (Unit {0})
unfolding release
mqtt_destroy a client = do
  let m = wake_io_thread a.woken (record client { is_running = false })
  release Resource.thread
  sent ← on_socket (send_disconnect_message a.disconnect_sent)
  release Resource.pipe_writer
  release Resource.pipe_reader
  release Resource.descriptor
  free_messages m.messages
  free_array m.messages_alloc
  release Resource.block
