-- ===== src/Fs/Data.antt =====
-- mqttfs_read.c, mqttfs_write.c, mqttfs_utimens.c and mqttfs_poll.c.
pub mod Laws
pub mod Poll
use mqttfs.Base.{
  ℕ, ◌+◌, ◌-◌, ◌%◌, ◌^◌, List, [], ◌∷◌, ◌++◌, Bool, false, Option, none, some, not, ◌||◌, bit_or,
  min, if◌then◌else◌, ltb, ◌==◌, take,
}
use mqttfs.Str.{Str}
use mqttfs.Node.{Timespec, FuseCall, pollhandle_destroy}
use mqttfs.Queue.{PublishAnswers, max_topic, max_message, size_max, mqtt_publish}
use mqttfs.Store.{Fs, pure, ◌>>=◌, ◌>>◌, load, store, Ret, negative, ok, err, eio, enoent}
use mqttfs.Fs.Open.{target}

-- `(int)size`.
abbrev pub int_of : ℕ → Ret
int_of size =
    if ltb (size % 2 ^ 32) (2 ^ 31) then ok (size % 2 ^ 32) else negative (2 ^ 32 - size % 2 ^ 32)

-- The result, and the bytes that were put into `buf`.
unfoldable pub read_node : Timespec → ℕ → ℕ → Fs (Ret × List ℕ)
read_node now fh size = do
  n ← load fh
  store fh (record n { atime = now })
  pure (int_of (min size n.size), take (min size n.size) n.content)

unfoldable pub mqttfs_read : Option Timespec → Bool → ℕ → ℕ → ℕ → Fs (Ret × List ℕ)
unfolding read_node
mqttfs_read clock locked fh size offset =
    if not (offset == 0) then pure (ok 0, []) else elim clock [
      | none ↦ pure (err eio, [])
      | some now ↦ if not locked then pure (err eio, []) else read_node now fh size
    ]

-- `MqttPublish` through `context->mqtt`. The guards on the sizes stand before the first use of the
-- pointer, which faults if the client was never created.
unfoldable pub publish : PublishAnswers → Str → List ℕ → ℕ → Fs Bool
publish a topic payload payload_len c = elim c.mqtt [
  | some m ↦
      let (done, m') = mqtt_publish a topic payload payload_len m in
      some (done, record c { mqtt = some m' })
  | none ↦
      if ltb max_topic topic.size || ltb max_message ((2 + topic.size + payload_len) % size_max)
      then some (false, c)
      else none
]

pub record WriteAnswers : Type 0 where
  pub clock : Option Timespec
  pub locked : Bool
  pub allocated : Bool
  pub published : PublishAnswers

unfoldable pub write_node : WriteAnswers → Timespec → ℕ → List ℕ → ℕ → Fs Ret
unfolding publish
write_node a now fh bytes size = if not a.allocated then pure (err eio) else do
  n ← load fh
  done ← publish a.published n.path bytes size
  if not done then pure (err eio) else do
    store fh (record n { mtime = now; content = take size bytes; size = size })
    pure (int_of size)

-- The offset is ignored.
unfoldable pub mqttfs_write : WriteAnswers → ℕ → List ℕ → ℕ → ℕ → Fs Ret
unfolding write_node
mqttfs_write a fh bytes size offset = elim a.clock [
  | none ↦ pure (err eio)
  | some now ↦ if not a.locked then pure (err eio) else write_node a now fh bytes size
]

abbrev pub utime_now : ℕ
utime_now = 2 ^ 30 - 1

abbrev pub utime_omit : ℕ
utime_omit = 2 ^ 30 - 2

-- One of the two times: left as it is, the current time, or the given one.
abbrev pub new_time : Timespec → Timespec → Timespec → Timespec
new_time now tv old =
    if tv.tv_nsec == utime_omit then old else if tv.tv_nsec == utime_now then now else tv

-- The clock is read only where one of the times asks for it.
unfoldable pub clock_for : Option Timespec → Timespec → Timespec → Option Timespec
clock_for clock tv0 tv1 =
    if tv0.tv_nsec == utime_now || tv1.tv_nsec == utime_now
    then clock
    else some (record { tv_sec = 0; tv_nsec = 0 })

unfoldable pub set_times : Option Timespec → Timespec → Timespec → Option ℕ → Fs Ret
set_times now tv0 tv1 none = pure (err enoent)
set_times none tv0 tv1 (some a) = pure (err eio)
set_times (some now) tv0 tv1 (some a) = do
  n ← load a
  store a (record n { atime = new_time now tv0 n.atime; mtime = new_time now tv1 n.mtime })
  pure (ok 0)

unfoldable pub mqttfs_utimens :
    Option Timespec → Bool → List ℕ → Timespec → Timespec → Option ℕ → Fs Ret
unfolding target clock_for set_times
mqttfs_utimens clock locked path tv0 tv1 fi =
    if not locked
    then pure (err eio)
    else do found ← target path fi; set_times (clock_for clock tv0 tv1) tv0 tv1 found

abbrev pub pollin : ℕ
pollin = 1

abbrev pub pollout : ℕ
pollout = 4

abbrev pub log_call : FuseCall → Fs Unit
log_call call c = some (tt, record c { calls = c.calls ++ call ∷ [] })

abbrev pub destroy_handle : Option ℕ → Fs Unit
destroy_handle none c = some (tt, c)
destroy_handle (some ph) c = log_call (pollhandle_destroy ph) c

-- A new handle takes the place of the one that is kept, which is destroyed.
unfoldable pub keep_handle : ℕ → Option ℕ → Fs Unit
keep_handle fh none = pure tt
keep_handle fh (some ph) = do n ← load fh; destroy_handle n.ph; store fh (record n { ph = some ph })

-- The second result is `*reventsp`, which held `revents`.
unfoldable pub mqttfs_poll : Bool → ℕ → Option ℕ → ℕ → Fs (Ret × ℕ)
unfolding keep_handle
mqttfs_poll locked fh ph revents = if not locked then pure (err eio, revents) else do
  keep_handle fh ph
  n ← load fh
  store fh (record n { was_updated = false })
  pure (
    ok 0,
    if n.was_updated then bit_or (bit_or revents pollout) pollin else bit_or revents pollout,
  )
