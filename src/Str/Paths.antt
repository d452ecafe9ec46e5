-- ===== src/Str/Paths.antt =====
-- `StrBasePath` and `StrFileName` of str.c cut a path at its last separator.
use mqttfs.Base.{
  ℕ, zero, suc, ◌+◌, ◌-◌, ◌≤◌, ◌<◌, List, [], ◌∷◌, ◌++◌, none, some, ◌≡◌, ◌≢◌, ◌⊎◌, inl, inr, refl,
  ap, arith, take, drop, All, Option-cases,
}
use native.Mathlib.Numerals.{add-one}
use mqttfs.Str.{Str, text, IsStr, memrchr, str_base_path, str_file_name}

abbrev pub separator : ℕ
separator = b'/'

abbrev pub HasNo : ℕ → List ℕ → Type 0
HasNo c s = All (λ x. x ≢ c) s

memrchr-none : (c n : ℕ) (s : List ℕ) → memrchr c n s ≡ none → HasNo c (take n s)
unfolding memrchr
memrchr-none c zero s h = tt
memrchr-none c (suc n) [] h = tt
memrchr-none c (suc n) (x ∷ s) h = ground (arith, memrchr-none c n s)

-- `n` bytes of `s` are cut at the last `c`, which stands at `i`; `m` bytes follow it.
record IsLast (c n : ℕ) (s : List ℕ) (i m : ℕ) : Type 0 where
  counted : n ≡ i + suc m
  cut : take n s ≡ take i s ++ c ∷ take m (drop (suc i) s)
  none_after : HasNo c (take m (drop (suc i) s))

memrchr-some : (c n : ℕ) (s : List ℕ) (i : ℕ) → memrchr c n s ≡ some i → (m : ℕ) × IsLast c n s i m
unfolding memrchr
memrchr-some c zero s i h = cc
memrchr-some c (suc n) [] i h = cc
memrchr-some c (suc n) (x ∷ s) zero h = (
  n,
  record {
    counted = omega arith;
    cut = ground arith;
    none_after = ground (arith, memrchr-none c n s);
  },
)
memrchr-some c (suc n) (x ∷ s) (suc i) h =
    let (m, l) = memrchr-some c n s i (ground arith) in
    (
      m,
      record {
        counted = omega (arith, l.counted);
        cut = ap (λ t. x ∷ t) l.cut;
        none_after = l.none_after;
      },
    )

-- The name that the base path leaves: what follows the separator, up to the end of the path.
abbrev pub name_of : Str → List ℕ
name_of p = take (p.size - (str_base_path p).size - 1) (str_file_name p)

-- A path is its base path, a separator and a name with none; or it has no separator, its base path
-- is empty, and the file name is the whole.
pub record IsCut (p : Str) : Type 0 where
  pub rejoined : text p ≡ text (str_base_path p) ++ separator ∷ name_of p
  pub plain_name : HasNo separator (name_of p)
  pub shorter : (str_base_path p).size < p.size

pub record IsPlain (p : Str) : Type 0 where
  pub no_base : (str_base_path p).size ≡ 0
  pub whole_name : str_file_name p ≡ p.chars
  pub plain : HasNo separator (text p)

module _ (p : Str) (i : ℕ) (found : memrchr separator p.size p.chars ≡ some i) where
  base_path_found : str_base_path p ≡ record { size = i; chars = p.chars }
  unfolding str_base_path
  base_path_found = rw (found, str_base_path)

  file_name_found : str_file_name p ≡ drop (suc i) p.chars
  unfolding str_file_name
  file_name_found = rw (found, str_file_name) (rw add-one refl)

  name_found : (m : ℕ) → p.size ≡ i + suc m → name_of p ≡ take m (drop (suc i) p.chars)
  name_found m e =
      rw (base_path_found, file_name_found) (ap (λ k. take k (drop (suc i) p.chars)) (omega arith))

  IsCut-found : IsCut p
  IsCut-found =
      let (m, l) = memrchr-some separator p.size p.chars i found in
      let name : name_of p ≡ take m (drop (suc i) p.chars) = name_found m l.counted in
      record {
        rejoined = rw (name, base_path_found) l.cut;
        plain_name = rw name l.none_after;
        shorter = rw base_path_found (omega (arith, l.counted));
      }

module _ (p : Str) (missing : memrchr separator p.size p.chars ≡ none) where
  IsPlain-missing : IsPlain p
  unfolding str_base_path str_file_name
  IsPlain-missing = record {
    no_base = rw (missing, str_base_path);
    whole_name = rw (missing, str_file_name);
    plain = memrchr-none separator p.size p.chars missing;
  }

-- Every path is cut at its last separator, or has none.
pub base_path-IsCut : (p : Str) → IsCut p ⊎ IsPlain p
base_path-IsCut p = elim (Option-cases (memrchr separator p.size p.chars)) [
  | inl e ↦ inr (IsPlain-missing p e)
  | inr (i, e) ↦ inl (IsCut-found p i e)
]

pub base_path-shrinks : (p : Str) → (str_base_path p).size ≤ p.size - 1
base_path-shrinks p = elim (base_path-IsCut p) [
  | inl c ↦ omega (arith, c.shorter)
  | inr c ↦ omega (arith, c.no_base)
]

base_path-chars : (p : Str) → (str_base_path p).chars ≡ p.chars
unfolding str_base_path
base_path-chars p = ground arith

pub base_path-IsStr : (p : Str) → IsStr p → IsStr (str_base_path p)
base_path-IsStr p h = rw (base_path-chars p) (omega (arith, base_path-shrinks p))
