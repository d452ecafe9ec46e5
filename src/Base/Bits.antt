-- ===== src/Base/Bits.antt =====
-- The masks and shifts of the sources as arithmetic, from the recursion on binary digits.
use Prim.Native.Nat.{
  ℕ, zero, suc, ◌+◌, ◌-◌, ◌*◌, ◌/◌, ◌%◌, ◌^◌, ◌≤◌, ◌<◌, min, max, bit_and, bit_or, digits,
  bit_and-bitwise, bit_or-bitwise,
}
use mathlib.Core.Path.{◌≡◌, refl, ap, ap₂, ◌∙◌}
use native.Mathlib.Omega.{arith}
use native.Mathlib.Nat.{pow-suc}

-- The recursion on binary digits needs no more fuel than the first number.
module _ (z : ℕ → ℕ) (f : ℕ → ℕ → ℕ) where
  digits-suc : (a b fuel : ℕ) → a ≤ fuel → digits z f (suc fuel) a b ≡ digits z f fuel a b
  digits-suc zero b zero h = refl
  digits-suc zero b (suc fuel) h = refl
  digits-suc (suc a) b zero h = absurd (omega arith)
  digits-suc (suc a) b (suc fuel) h =
      omega (arith, digits-suc (suc a / 2) (b / 2) fuel (omega arith))

  digits-add : (more a b : ℕ) → digits z f (more + a) a b ≡ digits z f a a b
  digits-add zero a b = ap (λ n. digits z f n a b) none_more
    where
      none_more : 0 + a ≡ a
      none_more = omega arith
  digits-add (suc more) a b =
      ap (λ n. digits z f n a b) one_more
      ∙ digits-suc a b (more + a) (omega arith)
      ∙ digits-add more a b
    where
      one_more : suc more + a ≡ suc (more + a)
      one_more = omega arith

  -- An operation on the digits is one on the halves and one on the lowest digits.
  module _ (op : ℕ → ℕ → ℕ) (bitwise : (a b : ℕ) → op a b ≡ digits z f a a b)
      (start : (b : ℕ) → z b ≡ z (b / 2) * 2 + f 0 (b % 2)) where
    halves : (a b : ℕ) → op a b ≡ op (a / 2) (b / 2) * 2 + f (a % 2) (b % 2)
    halves zero b = omega (arith, bitwise 0 b, bitwise 0 (b / 2), start b)
    halves (suc a) b = omega (
      arith,
      bitwise (suc a) b,
      bitwise (suc a / 2) (b / 2),
      ap (λ n. digits z f n (suc a / 2) (b / 2)) spare,
      digits-add (a - suc a / 2) (suc a / 2) (b / 2),
    )
      where
        spare : a ≡ (a - suc a / 2) + suc a / 2
        spare = omega arith

bit_and-halves : (a b : ℕ) → bit_and a b ≡ bit_and (a / 2) (b / 2) * 2 + min (a % 2) (b % 2)
bit_and-halves = halves (λ _. zero) min bit_and bit_and-bitwise (λ b. omega arith)

bit_or-halves : (a b : ℕ) → bit_or a b ≡ bit_or (a / 2) (b / 2) * 2 + max (a % 2) (b % 2)
bit_or-halves = halves (λ b. b) max bit_or bit_or-bitwise (λ b. omega arith)

no_mask : (bound a : ℕ) → a < bound → bit_and a 0 ≡ 0
no_mask zero a h = absurd (omega arith)
no_mask (suc bound) zero h = bit_and-bitwise 0 0
no_mask (suc bound) (suc a) h =
    omega (arith, no_mask bound (suc a / 2) (omega arith), bit_and-halves (suc a) 0)

low_1 : (a : ℕ) → bit_and a 1 ≡ a % 2
low_1 a = omega (arith, bit_and-halves a 1, no_mask (suc (a / 2)) (a / 2) (omega arith))

low_2 : (a : ℕ) → bit_and a 3 ≡ a % 4
low_2 a = omega (arith, bit_and-halves a 3, low_1 (a / 2))

low_3 : (a : ℕ) → bit_and a 7 ≡ a % 8
low_3 a = omega (arith, bit_and-halves a 7, low_2 (a / 2))

low_4 : (a : ℕ) → bit_and a 15 ≡ a % 16
low_4 a = omega (arith, bit_and-halves a 15, low_3 (a / 2))

low_5 : (a : ℕ) → bit_and a 31 ≡ a % 32
low_5 a = omega (arith, bit_and-halves a 31, low_4 (a / 2))

low_6 : (a : ℕ) → bit_and a 63 ≡ a % 64
low_6 a = omega (arith, bit_and-halves a 63, low_5 (a / 2))

-- `x & 0x7f` of a word of any width
pub low_bits : (a : ℕ) → bit_and a 0x7f ≡ a % 128
low_bits a = omega (arith, bit_and-halves a 0x7f, low_6 (a / 2))

-- A mask of `k` ones keeps a number of at most `k` digits.
bit_and_mask : (k a : ℕ) → a < 2 ^ k → bit_and a (2 ^ k - 1) ≡ a
bit_and_mask zero a h = omega (arith, no_mask (suc a) a (omega arith))
bit_and_mask (suc k) a h = omega (
  arith,
  pow-suc 2 k,
  bit_and-halves a (2 ^ suc k - 1),
  same_half,
  bit_and_mask k (a / 2) (omega (arith, pow-suc 2 k)),
)
  where
    half_mask : (2 ^ suc k - 1) / 2 ≡ 2 ^ k - 1
    half_mask = omega (arith, pow-suc 2 k)

    same_half : bit_and (a / 2) ((2 ^ suc k - 1) / 2) ≡ bit_and (a / 2) (2 ^ k - 1)
    same_half = ap (bit_and (a / 2)) half_mask

-- `x & 0xffff`
pub low_word : (a : ℕ) → a < 65536 → bit_and a 0xffff ≡ a
low_word a h = bit_and_mask 16 a h

-- `r | y << s` where `r` has no bit at `s` or above
pub bit_or-shift : (s r y : ℕ) → r < 2 ^ s → bit_or r (y * 2 ^ s) ≡ r + y * 2 ^ s
bit_or-shift zero zero y h = omega (arith, bit_or-bitwise 0 (y * 1))
bit_or-shift zero (suc r) y h = absurd (omega arith)
bit_or-shift (suc s) r y h = omega (
  arith,
  shifted,
  bit_or-halves r (y * 2 ^ suc s),
  same_half,
  bit_or-shift s (r / 2) y (omega (arith, pow-suc 2 s)),
)
  where
    shifted : y * 2 ^ suc s ≡ y * 2 ^ s * 2
    shifted = rw (pow-suc 2 s) (omega arith)

    half_shifted : y * 2 ^ suc s / 2 ≡ y * 2 ^ s
    half_shifted = omega (arith, shifted)

    same_half : bit_or (r / 2) (y * 2 ^ suc s / 2) ≡ bit_or (r / 2) (y * 2 ^ s)
    same_half = ap (bit_or (r / 2)) half_shifted

-- Setting the top bit of a byte that has it clear.
pub set_top_bit : (b : ℕ) → b < 128 → bit_or b 0x80 ≡ b + 128
set_top_bit b h = bit_or-shift 7 b 1 h

bit_and-double : (a m : ℕ) → bit_and a (m * 2) ≡ bit_and (a / 2) m * 2
bit_and-double a m = omega (arith, bit_and-halves a (m * 2), ap (bit_and (a / 2)) halved)
  where
    halved : m * 2 / 2 ≡ m
    halved = omega arith

bit_1 : (a : ℕ) → bit_and a 2 ≡ a / 2 % 2 * 2
bit_1 a = omega (arith, bit_and-double a 1, low_1 (a / 2))

bit_2 : (a : ℕ) → bit_and a 4 ≡ a / 4 % 2 * 4
bit_2 a = omega (arith, bit_and-double a 2, bit_1 (a / 2))

bit_3 : (a : ℕ) → bit_and a 8 ≡ a / 8 % 2 * 8
bit_3 a = omega (arith, bit_and-double a 4, bit_2 (a / 2))

bit_4 : (a : ℕ) → bit_and a 16 ≡ a / 16 % 2 * 16
bit_4 a = omega (arith, bit_and-double a 8, bit_3 (a / 2))

bit_5 : (a : ℕ) → bit_and a 32 ≡ a / 32 % 2 * 32
bit_5 a = omega (arith, bit_and-double a 16, bit_4 (a / 2))

bit_6 : (a : ℕ) → bit_and a 64 ≡ a / 64 % 2 * 64
bit_6 a = omega (arith, bit_and-double a 32, bit_5 (a / 2))

bit_7 : (a : ℕ) → bit_and a 128 ≡ a / 128 % 2 * 128
bit_7 a = omega (arith, bit_and-double a 64, bit_6 (a / 2))

-- `~byte & 0x80`, the complement taken in a byte
pub top_bit_clear : (b : ℕ) → b < 256 → bit_and (255 - b) 0x80 ≡ (1 - b / 128) * 128
top_bit_clear b h = omega (arith, bit_7 (255 - b))

bit_or_comm_within : (n a b : ℕ) → a ≤ n → b ≤ n → bit_or a b ≡ bit_or b a
bit_or_comm_within zero a b p q =
    omega (arith, ap₂ bit_or (nil a p) (nil b q), ap₂ bit_or (nil b q) (nil a p))
  where
    nil : (x : ℕ) → x ≤ 0 → x ≡ 0
    nil x h = omega arith
bit_or_comm_within (suc n) a b p q = omega (
  arith,
  bit_or-halves a b,
  bit_or-halves b a,
  bit_or_comm_within n (a / 2) (b / 2) (omega arith) (omega arith),
)

-- `y << s | r` where `r` has no bit at `s` or above
pub shift-bit_or : (s r y : ℕ) → r < 2 ^ s → bit_or (y * 2 ^ s) r ≡ y * 2 ^ s + r
shift-bit_or s r y h = omega (
  arith,
  bit_or_comm_within (r + y * 2 ^ s) (y * 2 ^ s) r (omega arith) (omega arith),
  bit_or-shift s r y h,
)
