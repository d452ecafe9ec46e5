-- ===== src/Stream/Loop.antt =====
-- The loop of `IoThread` over its buffer ends, and takes a stream of published packets apart.
use mqttfs.Base.{ℕ, zero, suc, ◌<◌, List, Option, none, some, ◌≡◌, ◌≢◌, refl, arith, length}
use mqttfs.Parser.{Parsed, mqtt_parse_message}
use mqttfs.Parser.Progress.{Advances, mqtt_parse_message-Advances}
use mqttfs.Stream.{stuck, Received, on_parsed, parse_loop, parse_buffer}

on_parsed-ne-stuck :
    (tail : List ℕ) (o : Option Parsed) (again : List ℕ → Received)
    → ((p : Parsed) → o ≡ some p → Advances tail p.status p.buffer p.view)
    → ((rest : List ℕ) → length rest < length tail → (again rest).end ≢ stuck)
    → (on_parsed o again).end ≢ stuck
unfolding on_parsed
on_parsed-ne-stuck tail none again adv ih = ground arith
on_parsed-ne-stuck tail (some p) again adv ih = ground (arith, adv p refl, ih p.buffer)

parse_loop-ne-stuck :
    (fuel : ℕ) (tail : List ℕ) → length tail < fuel → (parse_loop fuel tail).end ≢ stuck
unfolding parse_loop
parse_loop-ne-stuck zero tail h = absurd (omega arith)
parse_loop-ne-stuck (suc fuel) tail h =
    on_parsed-ne-stuck tail (mqtt_parse_message tail) (λ rest. parse_loop fuel rest)
      (mqtt_parse_message-Advances tail) (λ rest k. parse_loop-ne-stuck fuel rest (omega arith))

-- On every buffer the loop of `IoThread` ends within one round more than the buffer has bytes.
pub parse_buffer-ne-stuck : (buffer : List ℕ) → (parse_buffer buffer).end ≢ stuck
unfolding parse_buffer
parse_buffer-ne-stuck buffer = parse_loop-ne-stuck (suc (length buffer)) buffer (omega arith)
