-- ===== src/Tests/Program.antt =====
-- Runs of main.c.
use mqttfs.Base.{
  ℕ, ◌≤◌, ◌<◌, ◌^◌, ◌⊎◌, List, [], ◌∷◌, ◌++◌, Bool, true, false, none, some, ◌≡◌, refl, arith, drop,
}
use mqttfs.Str.{Str, text, copied, str_view, str_base_path, str_copy}
use mqttfs.Str.Copy.{str_view-IsStr}
use mqttfs.Node.{fresh_node, node_create, node_update, update_polled}
use mqttfs.Store.{Context}
use mqttfs.Store.Search.{Found, find, lookup}
use mqttfs.Program.Options.{
  Options, Environment, ok, read_host, read_uint16, read_holdback, localhost, uint16_max,
  parse_options,
}
use mqttfs.Program.Options.Laws.{settings, parse_options-settings, parse_options-bounds}
use mqttfs.Program.Root.{no_context, create_root_node}
use mqttfs.Program.Root.Laws.{RootOutcome, create_root_node_lem}
use mqttfs.Program.Message.{MessageAnswers, on_mqtt_message}
use mqttfs.Program.Message.Outcome.{
  Existing, Added, on_mqtt_message-Existing, on_mqtt_message-Added,
}
use mqttfs.Program.Message.Crash.{file_above, on_mqtt_message-crashes}
use mqttfs.Tests.Store.{
  noon, grant, root_only, root_only-IsValid, home, one_file, one_file-IsValid, file_node, answers,
}

-- In place of `inet_addr`.
abbrev pub accepts : List ℕ → Bool
accepts [] = false
accepts (c ∷ cs) = true

-- "1883", "60" and "05"
parse_options-settings_example :
    parse_options accepts (settings localhost (4, 1883) (2, 60) (2, 5))
    ≡ ok (record { host = localhost; port = 1883; keepalive = 60; holdback = 5 })
parse_options-settings_example =
    parse_options-settings accepts localhost (4, 1883) (2, 60) (2, 5) (omega arith, omega arith)
      (omega arith, omega arith) (omega arith, omega arith) (omega arith) (omega arith)
      (omega arith)

abbrev pub nothing_set : Environment
nothing_set = record {
  mqtt_host = none;
  mqtt_port = none;
  mqtt_keepalive = none;
  mqtt_holdback = none;
}

abbrev pub defaults : Options
defaults = record { host = localhost; port = 1883; keepalive = 60; holdback = 0 }

pub defaults_read : parse_options accepts nothing_set ≡ ok defaults
unfolding parse_options read_host read_uint16 read_holdback
defaults_read = refl

parse_options-bounds_example :
    (1 ≤ defaults.port)
    × (defaults.port ≤ uint16_max)
    × (1 ≤ defaults.keepalive)
    × (defaults.keepalive ≤ uint16_max)
    × (defaults.holdback < 2 ^ 31)
    × ((accepts defaults.host ≡ true) ⊎ (defaults.host ≡ localhost))
parse_options-bounds_example = parse_options-bounds accepts nothing_set defaults defaults_read

create_root_node_lem_example :
    (r : Bool) × (c : Context) × (create_root_node grant.created true no_context ≡ some (r, c))
    × RootOutcome grant.created true (node_create grant.created (str_view []) true) r c
create_root_node_lem_example = create_root_node_lem grant.created true

abbrev all_granted : MessageAnswers
all_granted = record {
  locked = true;
  tree_grown = λ i. true;
  created = λ i. grant.created;
  updated = answers;
}

-- "home"
abbrev home_topic : Str
home_topic = str_view (drop 1 home)

abbrev home_found : Found
home_found = record { slot = 0; addr = 0; found = file_node }

home_there : lookup one_file (text home_topic) ≡ some home_found
unfolding lookup find str_view
home_there = refl

on_mqtt_message-Existing_example :
    Existing all_granted (7 ∷ 8 ∷ []) 2 (omega arith) home_topic one_file home_found
on_mqtt_message-Existing_example =
    on_mqtt_message-Existing all_granted (7 ∷ 8 ∷ []) 2 (omega arith) home_topic one_file home_found
      one_file-IsValid (str_view-IsStr (drop 1 home)) refl home_there

-- "a/b"
abbrev deep_topic : Str
deep_topic = str_view (b'a' ∷ b'/' ∷ b'b' ∷ [])

not_there : lookup root_only (text deep_topic) ≡ none
unfolding lookup find str_view
not_there = refl

on_mqtt_message-Added_example : Added all_granted (7 ∷ 8 ∷ []) 2 (omega arith) deep_topic root_only
unfolding str_view str_base_path lookup find
on_mqtt_message-Added_example =
    on_mqtt_message-Added all_granted (7 ∷ 8 ∷ []) 2 (omega arith) deep_topic root_only noon
      root_only-IsValid (str_view-IsStr (b'a' ∷ b'/' ∷ b'b' ∷ [])) (omega arith) refl not_there tt
      (λ i. (refl, (noon, refl), refl, refl)) refl refl

-- "home/x", below a file
abbrev below_file : Str
below_file = str_view (drop 1 home ++ b'/' ∷ b'x' ∷ [])

on_mqtt_message-crashes_example : on_mqtt_message all_granted below_file (7 ∷ []) 1 one_file ≡ none
unfolding str_view str_base_path lookup find node_create str_copy node_update update_polled
on_mqtt_message-crashes_example =
    on_mqtt_message-crashes all_granted below_file (7 ∷ []) 1 one_file one_file-IsValid
      (omega arith) (omega arith) refl refl refl
      (file_above (fresh_node noon false (copied below_file)) home_found refl refl refl refl refl)
