-- ===== src/Wire/Length.antt =====
-- `EncodeLength` of mqtt_impl.c.
use mqttfs.Base.{
  ℕ, zero, suc, ◌+◌, ◌*◌, ◌/◌, ◌%◌, ◌^◌, ◌≤◌, ◌<◌, List, [], ◌∷◌, some, ◌≡◌, arith, length,
}
use mqttfs.Base.Bits.{low_bits, set_top_bit}
use mathlib.Core.Path.{subst}
use native.Mathlib.Decide.{dec_lt}
use native.Mathlib.Nat.{pow-suc}
use mqttfs.Wire.{encode_digits, encode_length, max_length}

-- The value of digits of seven bits, lowest first.
abbrev pub value : List ℕ → ℕ
value [] = 0
value (d ∷ ds) = d % 128 + 128 * value ds

-- Every digit but the last has the top bit.
abbrev pub Continued : List ℕ → Type 0
Continued [] = ⊥
Continued (d ∷ []) = d < 128
Continued (d ∷ e ∷ ds) = (128 ≤ d) × (d < 256) × Continued (e ∷ ds)

pub record Encodes (n room : ℕ) (ds : List ℕ) : Type 0 where
  pub valued : value ds ≡ n
  pub continued : Continued ds
  pub fits : length ds ≤ room

Continued-cons : (d : ℕ) (ds : List ℕ) → 128 ≤ d → d < 256 → Continued ds → Continued (d ∷ ds)
Continued-cons d [] p q c = absurd c
Continued-cons d (e ∷ ds) p q c = (p, q, c)

last_digit : (room n : ℕ) → n < 128 → encode_digits (suc room) n ≡ some (n ∷ [])
unfolding encode_digits
last_digit room n h = ground (arith, low_bits n)

inner_digit :
    (room n : ℕ) {ds : List ℕ}
    → 128 ≤ n
    → encode_digits room (n / 128) ≡ some ds
    → encode_digits (suc room) n ≡ some ((n % 128 + 128) ∷ ds)
unfolding encode_digits
inner_digit room n h e = ground (arith, low_bits n, set_top_bit (n % 128))

encode_digits_total :
    (room n : ℕ)
    → n < 128 ^ suc room
    → (ds : List ℕ) × (encode_digits (suc room) n ≡ some ds) × Encodes n (suc room) ds
encode_digits_total zero n h = (
  n ∷ [],
  last_digit 0 n (omega arith),
  record { valued = omega arith; continued = omega arith; fits = omega arith },
)
encode_digits_total (suc room) n h = elim (dec_lt n 128) [
  | yes p ↦ (
    n ∷ [],
    last_digit (suc room) n p,
    record { valued = omega arith; continued = p; fits = omega arith },
  )
  | no p ↦
      let (ds, e, c) = encode_digits_total room (n / 128) (omega (arith, pow-suc 128 (suc room))) in
      (
        (n % 128 + 128) ∷ ds,
        inner_digit (suc room) n (omega arith) e,
        record {
          valued = omega (arith, c.valued);
          continued = Continued-cons _ ds (omega arith) (omega arith) c.continued;
          fits = omega (arith, c.fits);
        },
      )
]

-- Up to 268435455, `EncodeLength` stays inside `digits[4]` and writes one to four digits whose value
-- is the length, with the continuation bit on all but the last.
pub encode_length_lem :
    (n : ℕ) → n ≤ max_length → (ds : List ℕ) × (encode_length n ≡ some ds) × Encodes n 4 ds
unfolding encode_length
encode_length_lem n h =
    let (ds, e, c) = encode_digits_total 3 n (omega arith) in (ds, ground (arith, e), c)

pub encode_length-too_long : (n : ℕ) → max_length < n → encode_length n ≡ some []
unfolding encode_length
encode_length-too_long n h = ground arith

pub encode_length-Encodes :
    (n : ℕ) (ds : List ℕ) → n ≤ max_length → encode_length n ≡ some ds → Encodes n 4 ds
encode_length-Encodes n ds h e =
    let (es, f, c) = encode_length_lem n h in
    let same : es ≡ ds = cc in subst (λ t. Encodes n 4 t) same c
