-- ===== src/Str/Compare.antt =====
-- `StrCompare` of str.c is a total order on the texts, as `tsearch` needs it.
use mqttfs.Base.{
  ℕ, zero, suc, ◌≤◌, List, [], ◌∷◌, true, false, Ordering, ◌≡◌, ◌≢◌, refl, ap, sym, ◌∙◌, ◌↔◌, arith,
  length, take, length-take,
}
use mqttfs.Str.{Str, text, IsStr, rest, memcmp, str_compare_at, str_compare}

memcmp_refl : (a : List ℕ) (n : ℕ) → memcmp a a n ≡ Ordering.eq
unfolding memcmp
memcmp_refl a zero = refl
memcmp_refl a (suc n) = ground (arith, memcmp_refl (rest a) n)

memcmp-eq :
    (n : ℕ) (a b : List ℕ)
    → n ≤ length a
    → n ≤ length b
    → memcmp a b n ≡ Ordering.eq
    → take n a ≡ take n b
unfolding memcmp
memcmp-eq zero a b p q h = refl
memcmp-eq (suc n) [] b p q h = absurd (omega arith)
memcmp-eq (suc n) (x ∷ a) [] p q h = absurd (omega arith)
memcmp-eq (suc n) (x ∷ a) (y ∷ b) p q h = ground (arith, memcmp-eq n a b)

memcmp_of_take :
    (n : ℕ) (a b : List ℕ)
    → n ≤ length a
    → n ≤ length b
    → take n a ≡ take n b
    → memcmp a b n ≡ Ordering.eq
unfolding memcmp
memcmp_of_take zero a b p q h = refl
memcmp_of_take (suc n) [] b p q h = absurd (omega arith)
memcmp_of_take (suc n) (x ∷ a) [] p q h = absurd (omega arith)
memcmp_of_take (suc n) (x ∷ a) (y ∷ b) p q h = ground (arith, memcmp_of_take n a b)

-- Equal pointers see equal bytes, so the shortcut on them changes no result.
pub str_compare-same :
    (a b : Str) → a.chars ≡ b.chars → str_compare_at true a b ≡ str_compare_at false a b
unfolding str_compare_at
str_compare-same a b h = ground (arith, memcmp_refl a.chars a.size, same_memory)
  where
    same_memory : memcmp a.chars b.chars a.size ≡ memcmp a.chars a.chars a.size
    same_memory = ap (λ t. memcmp a.chars t a.size) (sym h)

abbrev pub flip : Ordering → Ordering
flip Ordering.lt = Ordering.gt
flip Ordering.eq = Ordering.eq
flip Ordering.gt = Ordering.lt

memcmp-flip : (n : ℕ) (a b : List ℕ) → memcmp b a n ≡ flip (memcmp a b n)
unfolding memcmp
memcmp-flip zero a b = refl
memcmp-flip (suc n) a b = ground (arith, memcmp-flip n (rest a) (rest b))

memcmp_trans :
    (n : ℕ) (a b c : List ℕ)
    → memcmp a b n ≢ Ordering.gt
    → memcmp b c n ≢ Ordering.gt
    → memcmp a c n ≢ Ordering.gt
unfolding memcmp
memcmp_trans zero a b c p q = p
memcmp_trans (suc n) a b c p q = ground (arith, memcmp_trans n (rest a) (rest b) (rest c))

text-size : (a b : Str) → IsStr a → IsStr b → text a ≡ text b → a.size ≡ b.size
text-size a b p q h =
    omega (arith, length-take a.size a.chars, length-take b.size b.chars, ap (length {A = ℕ}) h)

str_compare_eq-text :
    (a b : Str) → IsStr a → IsStr b → str_compare a b ≡ Ordering.eq → text a ≡ text b
unfolding str_compare
str_compare_eq-text a b p q h =
    memcmp-eq a.size a.chars b.chars p (omega (arith, sizes)) compared
    ∙ ap (λ n. take n b.chars) sizes
  where
    sizes : a.size ≡ b.size
    sizes = ground arith

    compared : memcmp a.chars b.chars a.size ≡ Ordering.eq
    compared = ground arith

str_compare-text : (a b : Str) → IsStr a → IsStr b → text a ≡ text b → str_compare a b ≡ Ordering.eq
unfolding str_compare
str_compare-text a b p q h = ground (arith, sizes, compared)
  where
    sizes : a.size ≡ b.size
    sizes = text-size a b p q h

    compared : memcmp a.chars b.chars a.size ≡ Ordering.eq
    compared =
        memcmp_of_take a.size a.chars b.chars p (omega (arith, sizes))
          (h ∙ ap (λ n. take n b.chars) (sym sizes))

-- "Not greater" in the sense of `StrCompare` is transitive.
pub str_compare_trans :
    (a b c : Str)
    → str_compare a b ≢ Ordering.gt
    → str_compare b c ≢ Ordering.gt
    → str_compare a c ≢ Ordering.gt
unfolding str_compare
str_compare_trans a b c h k = ground (
  arith,
  memcmp_trans a.size a.chars b.chars c.chars,
  λ (e : a.size ≡ b.size). ap (memcmp b.chars c.chars) e,
)

-- On strings whose bytes are all there `StrCompare` answers "equal" exactly for equal texts, and
-- its sign turns round with its arguments.
pub str_compare_lem :
    (a b : Str)
    → IsStr a
    → IsStr b
    → ((str_compare a b ≡ Ordering.eq) ↔ (text a ≡ text b))
      × (str_compare b a ≡ flip (str_compare a b))
unfolding str_compare
str_compare_lem a b p q = (
  (str_compare_eq-text a b p q, str_compare-text a b p q),
  ground (arith, memcmp-flip a.size a.chars b.chars, ap (memcmp b.chars a.chars)),
)
