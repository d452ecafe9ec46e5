-- ===== src/Tests/System.antt =====
-- Operations, one after the other.
use mqttfs.Base.{List, [], ◌∷◌, Option, none, some}
use mqttfs.Queue.{Mqtt}
use mqttfs.Store.{Context, Ret}
use mqttfs.System.{Op, create, write}
use mqttfs.Tests.Store.{grant, home, written}

-- A file is made and written.
abbrev made_and_written : List Op
made_and_written = create grant home ∷ write written home (7 ∷ 8 ∷ []) 2 0 ∷ []

abbrev client_of : Option (Option Ret × Context) → Option Mqtt
client_of none = none
client_of (some (r, c)) = c.mqtt
