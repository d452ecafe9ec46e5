-- ===== src/Program/Options/Laws.antt =====
-- What `ParseOptions` of main.c lets through.
use mqttfs.Base.{
  ℕ, zero, suc, ◌+◌, ◌-◌, ◌*◌, ◌/◌, ◌%◌, ◌^◌, ◌≤◌, ◌<◌, List, [], ◌∷◌, ◌++◌, Bool, true, ◌&&◌, not,
  Option, none, some, if◌then◌else◌, leb, ◌==◌, ◌≡◌, ◌⊎◌, inl, inr, refl, ap, ◌∙◌, arith, length,
  length-append,
}
use native.Mathlib.Nat.{pow-suc}
use mathlib.Core.Path.{subst}
use mqttfs.Program.Options.{
  Options, Environment, ℤ, pos, negsuc, digits_value, signed_value, after_space, atoi, Parsing, ok,
  exit_einval, undefined, is_int, ◌>>=◌, port_of, read_uint16, holdback_of, read_holdback,
  read_host, parse_options, localhost, uint16_max,
}

-- The decimal digits of a number of at most `places` digits.
abbrev pub decimal : ℕ → ℕ → List ℕ
decimal zero n = []
decimal (suc places) n = decimal places (n / 10) ++ (b'0' + n % 10) ∷ []

abbrev IsDigits : List ℕ → Type 0
IsDigits [] = Unit
IsDigits (c ∷ cs) = (b'0' ≤ c) × (c ≤ b'9') × IsDigits cs

digits_value-append :
    (acc : ℕ) (xs : List ℕ) (c : ℕ)
    → IsDigits xs
    → b'0' ≤ c
    → c ≤ b'9'
    → digits_value acc (xs ++ c ∷ []) ≡ digits_value acc xs * 10 + (c - b'0')
unfolding digits_value
digits_value-append acc [] c d h k = ground arith
digits_value-append acc (x ∷ xs) c (p, q, d) h k =
    ground (arith, digits_value-append (acc * 10 + (x - b'0')) xs c d h k)

IsDigits-append :
    (xs : List ℕ) (c : ℕ) → IsDigits xs → b'0' ≤ c → c ≤ b'9' → IsDigits (xs ++ c ∷ [])
IsDigits-append [] c d h k = (h, k, tt)
IsDigits-append (x ∷ xs) c (p, q, d) h k = (p, q, IsDigits-append xs c d h k)

decimal-IsDigits : (places n : ℕ) → IsDigits (decimal places n)
decimal-IsDigits zero n = tt
decimal-IsDigits (suc places) n =
    IsDigits-append (decimal places (n / 10)) _ (decimal-IsDigits places (n / 10)) (omega arith)
      (omega arith)

digits_value-decimal : (places n : ℕ) → n < 10 ^ places → digits_value 0 (decimal places n) ≡ n
unfolding digits_value
digits_value-decimal zero n h = omega arith
digits_value-decimal (suc places) n h = omega (
  arith,
  pow-suc 10 places,
  digits_value-append 0 (decimal places (n / 10)) (b'0' + n % 10) (decimal-IsDigits places (n / 10))
      (omega arith) (omega arith),
  digits_value-decimal places (n / 10) (omega (arith, pow-suc 10 places)),
)

atoi-digits :
    (c : ℕ) (cs : List ℕ)
    → IsDigits (c ∷ cs)
    → digits_value 0 (c ∷ cs) < 2 ^ 31
    → atoi (c ∷ cs) ≡ some (pos (digits_value 0 (c ∷ cs)))
unfolding atoi
atoi-digits c cs (p, q, d) h = ground arith

nonempty_digits :
    (s : List ℕ) (n : ℕ)
    → 0 < length s
    → IsDigits s
    → digits_value 0 s ≡ n
    → n < 2 ^ 31
    → atoi s ≡ some (pos n)
nonempty_digits [] n l d e h = absurd (omega arith)
nonempty_digits (c ∷ cs) n l d e h =
    atoi-digits c cs d (omega (arith, e)) ∙ ap (λ k. some (pos k)) e

atoi-decimal :
    (places n : ℕ) → n < 10 ^ suc places → n < 2 ^ 31 → atoi (decimal (suc places) n) ≡ some (pos n)
atoi-decimal places n h k =
    nonempty_digits (decimal (suc places) n) n
      (omega (arith, length-append (decimal places (n / 10)) ((b'0' + n % 10) ∷ [])))
      (decimal-IsDigits (suc places) n) (digits_value-decimal (suc places) n h) k

abbrev is_port : ℕ → Bool
is_port n = not (n == 0) && leb n uint16_max

-- An environment with every variable set, the numbers in digits, as many as are said.
abbrev pub settings : List ℕ → ℕ × ℕ → ℕ × ℕ → ℕ × ℕ → Environment
settings host (port_places, port) (keepalive_places, keepalive) (holdback_places, holdback) =
    record {
      mqtt_host = some host;
      mqtt_port = some (decimal port_places port);
      mqtt_keepalive = some (decimal keepalive_places keepalive);
      mqtt_holdback = some (decimal holdback_places holdback);
    }

-- A count of digits, at least one, in which the number can be written.
abbrev pub HasPlaces : ℕ × ℕ → Type 0
HasPlaces (places, n) = (1 ≤ places) × (n < 10 ^ places)

atoi-places :
    (places n : ℕ) → HasPlaces (places, n) → n < 2 ^ 31 → atoi (decimal places n) ≡ some (pos n)
atoi-places zero n (p, h) k = absurd (omega arith)
atoi-places (suc places) n (p, h) k = atoi-decimal places n h k

-- Settings in decimal digits, each in as many digits as it needs or with zeros in front, are read
-- back as the options that they say, if `inet_addr` takes the host and the port and the keepalive
-- lie between 1 and 65535; otherwise the program exits with EINVAL. No number is beyond an `int`.
pub parse_options-settings :
    (is_address : List ℕ → Bool) (host : List ℕ) (port keepalive holdback : ℕ × ℕ)
    → HasPlaces port
    → HasPlaces keepalive
    → HasPlaces holdback
    → port.1 < 2 ^ 31
    → keepalive.1 < 2 ^ 31
    → holdback.1 < 2 ^ 31
    → parse_options is_address (settings host port keepalive holdback) ≡ (
        if is_address host && is_port port.1 && is_port keepalive.1
        then ok
            (record { host = host; port = port.1; keepalive = keepalive.1; holdback = holdback.1 })
        else exit_einval)
unfolding parse_options read_host read_uint16 read_holdback
parse_options-settings is_address host (pp, port) (kp, keepalive) (hp, holdback) x y z p k h =
    ground
      (arith, atoi-places pp port x p, atoi-places kp keepalive y k, atoi-places hp holdback z h)

host-bound :
    (is_address : List ℕ → Bool) (o : Option (List ℕ)) (host : List ℕ)
    → read_host is_address localhost o ≡ ok host
    → (is_address host ≡ true) ⊎ (host ≡ localhost)
unfolding read_host
host-bound is_address none host e = inr (cc)
host-bound is_address (some s) host e = inl (ground arith)

uint16-bound :
    (default : ℕ) (o : Option (List ℕ)) (n : ℕ)
    → 1 ≤ default
    → default ≤ uint16_max
    → read_uint16 default o ≡ ok n
    → (1 ≤ n) × (n ≤ uint16_max)
unfolding read_uint16
uint16-bound default none n h k e = ground arith
uint16-bound default (some s) n h k e = by_value (atoi s) e
  where
    by_value : (v : Option ℤ) → port_of v ≡ ok n → (1 ≤ n) × (n ≤ uint16_max)
    by_value none q = cc
    by_value (some (pos v)) q = ground arith
    by_value (some (negsuc v)) q = cc

holdback-bound : (o : Option (List ℕ)) (n : ℕ) → read_holdback 0 o ≡ ok n → n < 2 ^ 31
unfolding read_holdback atoi
holdback-bound none n e = ground arith
holdback-bound (some s) n e = by_value (signed_value (after_space s)) e
  where
    by_value : (v : ℤ) → holdback_of (if is_int v then some v else none) ≡ ok n → n < 2 ^ 31
    by_value (pos v) q = ground arith
    by_value (negsuc v) q = ground arith

same_options : (o o' : Options) → ok o ≡ ok o' → o ≡ o'
same_options o o' e = cc

read_before :
    {A B : Type 0} (setting : Parsing A) (next : A → Parsing B) {options : B}
    → (setting >>= next) ≡ ok options
    → (a : A) × (setting ≡ ok a) × (next a ≡ ok options)
read_before exit_einval next h = cc
read_before undefined next h = cc
read_before (ok a) next h = (a, refl, h)

-- Whatever the environment: options that `ParseOptions` returns have a port and a keepalive that a
-- `uint16_t` holds and that are not 0, a holdback that an `int` holds, and a host that `inet_addr`
-- takes, unless it is the default.
pub parse_options-bounds :
    (is_address : List ℕ → Bool) (e : Environment) (o : Options)
    → parse_options is_address e ≡ ok o
    → (1 ≤ o.port)
      × (o.port ≤ uint16_max)
      × (1 ≤ o.keepalive)
      × (o.keepalive ≤ uint16_max)
      × (o.holdback < 2 ^ 31)
      × ((is_address o.host ≡ true) ⊎ (o.host ≡ localhost))
unfolding parse_options
parse_options-bounds is_address e o h =
    let (host, eh, h1) = read_before (read_host is_address localhost e.mqtt_host) _ h in
    let (port, ep, h2) = read_before (read_uint16 1883 e.mqtt_port) _ h1 in
    let (keepalive, ek, h3) = read_before (read_uint16 60 e.mqtt_keepalive) _ h2 in
    let (holdback, eb, h4) = read_before (read_holdback 0 e.mqtt_holdback) _ h3 in
    let bp = uint16-bound 1883 e.mqtt_port port (omega arith) (omega arith) ep in
    let bk = uint16-bound 60 e.mqtt_keepalive keepalive (omega arith) (omega arith) ek in
    let bb = holdback-bound e.mqtt_holdback holdback eb in
    let bh = host-bound is_address e.mqtt_host host eh in
    subst
      (λ (o : Options).
        (1 ≤ o.port)
        × (o.port ≤ uint16_max)
        × (1 ≤ o.keepalive)
        × (o.keepalive ≤ uint16_max)
        × (o.holdback < 2 ^ 31)
        × ((is_address o.host ≡ true) ⊎ (o.host ≡ localhost)))
      (same_options
        (record { host = host; port = port; keepalive = keepalive; holdback = holdback }) o h4)
      (bp.0, bp.1, bk.0, bk.1, bb, bh)
