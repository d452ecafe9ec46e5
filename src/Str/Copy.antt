-- ===== src/Str/Copy.antt =====
-- `StrView` and `StrCopy` of str.c.
use mqttfs.Base.{
  ℕ, ◌≤◌, List, [], ◌∷◌, ◌≡◌, arith, length, length-append, length-take, take, take-append,
}
use mqttfs.Str.{Str, text, IsStr, copied, strlen, str_view}

-- A copy has the text of the original.
pub text-copied : (s : Str) → IsStr s → text (copied s) ≡ text s
text-copied s h =
    take-append s.size (take s.size s.chars) (0 ∷ []) (omega (arith, length-take s.size s.chars))

pub copied-IsStr : (s : Str) → IsStr s → IsStr (copied s)
copied-IsStr s h =
    omega (arith, length-append (take s.size s.chars) (0 ∷ []), length-take s.size s.chars)

strlen-le : (s : List ℕ) → strlen s ≤ length s
unfolding strlen
strlen-le [] = omega arith
strlen-le (c ∷ s) = ground (arith, strlen-le s)

pub str_view-IsStr : (s : List ℕ) → IsStr (str_view s)
unfolding str_view
str_view-IsStr s = strlen-le s
