-- ===== src/Program/Options.antt =====
-- `ParseOptions` of main.c. A string is the list of its bytes without the terminating zero. What
-- `inet_addr` accepts is a parameter; `atoi` is that of the C standard, which leaves a number that no
-- `int` holds undefined.
pub mod Laws
use mqttfs.Base.{
  ℕ, zero, suc, ◌+◌, ◌-◌, ◌*◌, ◌^◌, List, [], ◌∷◌, Bool, true, false, ◌&&◌, ◌||◌, not, Option, none,
  some, if◌then◌else◌, ltb, leb, ◌==◌,
}

pub record Options : Type 0 where
  pub host : List ℕ
  pub port : ℕ
  pub keepalive : ℕ
  pub holdback : ℕ

-- The environment: each variable's value, if it is set.
pub record Environment : Type 0 where
  pub mqtt_host : Option (List ℕ)
  pub mqtt_port : Option (List ℕ)
  pub mqtt_keepalive : Option (List ℕ)
  pub mqtt_holdback : Option (List ℕ)

-- An `int`: `negsuc n` is -(n + 1).
pub data ℤ : Type 0 where
  pos : ℕ → ℤ
  negsuc : ℕ → ℤ

abbrev negated : ℕ → ℤ
negated zero = pos 0
negated (suc n) = negsuc n

abbrev pub is_space : ℕ → Bool
is_space c = c == 32 || (leb 9 c && leb c 13)

abbrev pub is_digit : ℕ → Bool
is_digit c = leb b'0' c && leb c b'9'

-- The number of the digits at the front.
unfoldable pub digits_value : ℕ → List ℕ → ℕ
digits_value acc [] = acc
digits_value acc (c ∷ cs) =
    let further = digits_value (acc * 10 + (c - b'0')) cs in if is_digit c then further else acc

unfoldable pub signed_value : List ℕ → ℤ
unfolding digits_value
signed_value [] = pos 0
signed_value (c ∷ cs) =
    if c == b'-'
    then negated (digits_value 0 cs)
    else if c == b'+'
    then pos (digits_value 0 cs)
    else pos (digits_value 0 (c ∷ cs))

unfoldable pub after_space : List ℕ → List ℕ
after_space [] = []
after_space (c ∷ cs) = let further = after_space cs in if is_space c then further else c ∷ cs

abbrev pub is_int : ℤ → Bool
is_int (pos n) = ltb n (2 ^ 31)
is_int (negsuc n) = ltb n (2 ^ 31)

-- `none` where the behaviour is undefined.
unfoldable pub atoi : List ℕ → Option ℤ
unfolding after_space signed_value
atoi s = let n = signed_value (after_space s) in if is_int n then some n else none

-- `ParseOptions` exits with EINVAL, or it goes on.
pub data Parsing (A : Type 0) : Type 0 where
  ok : A → Parsing A
  exit_einval undefined : Parsing A

-- A setting that does not parse ends the function before the next one is read.
infixl 5 ◌>>=◌
abbrev pub ◌>>=◌ : {A B : Type 0} → Parsing A → (A → Parsing B) → Parsing B
exit_einval >>= next = exit_einval
undefined >>= next = undefined
ok setting >>= next = next setting

abbrev pub uint16_max : ℕ
uint16_max = 65535

abbrev port_of : Option ℤ → Parsing ℕ
port_of none = undefined
port_of (some (negsuc n)) = exit_einval
port_of (some (pos n)) = if n == 0 || ltb uint16_max n then exit_einval else ok n

-- `MQTT_PORT` and `MQTT_KEEPALIVE` are read alike.
unfoldable pub read_uint16 : ℕ → Option (List ℕ) → Parsing ℕ
read_uint16 default none = ok default
read_uint16 default (some s) = port_of (atoi s)

abbrev holdback_of : Option ℤ → Parsing ℕ
holdback_of none = undefined
holdback_of (some (negsuc n)) = exit_einval
holdback_of (some (pos n)) = ok n

unfoldable pub read_holdback : ℕ → Option (List ℕ) → Parsing ℕ
read_holdback default none = ok default
read_holdback default (some s) = holdback_of (atoi s)

unfoldable pub read_host : (List ℕ → Bool) → List ℕ → Option (List ℕ) → Parsing (List ℕ)
read_host is_address default none = ok default
read_host is_address default (some s) = if is_address s then ok s else exit_einval

-- "127.0.0.1"
abbrev pub localhost : List ℕ
localhost = b'1' ∷ b'2' ∷ b'7' ∷ b'.' ∷ b'0' ∷ b'.' ∷ b'0' ∷ b'.' ∷ b'1' ∷ []

unfoldable pub parse_options : (List ℕ → Bool) → Environment → Parsing Options
parse_options is_address e = do
  host ← read_host is_address localhost e.mqtt_host
  port ← read_uint16 1883 e.mqtt_port
  keepalive ← read_uint16 60 e.mqtt_keepalive
  holdback ← read_holdback 0 e.mqtt_holdback
  ok (record { host = host; port = port; keepalive = keepalive; holdback = holdback })
