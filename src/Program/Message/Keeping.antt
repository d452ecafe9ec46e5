-- ===== src/Program/Message/Keeping.antt =====
-- What the entries of two states have to do with each other when a message has added some.
use mqttfs.Base.{
  ℕ, zero, suc, ◌<◌, List, true, Option, none, some, if◌then◌else◌, ◌==◌, ◌≡◌, inl, inr, refl, sym,
  arith, Bool-cases,
}
use mathlib.Core.Path.{subst}
use mqttfs.Str.{Str, IsStr, text, str_base_path}
use mqttfs.Str.Paths.{base_path-shrinks, base_path-IsStr}
use mqttfs.Store.{Context}
use mqttfs.Store.Search.{Found, lookup}

-- What was there stays, and what is new is an empty directory.
abbrev pub Kept : Option Found → Option Found → Type 0
Kept (some f) o = o ≡ some f
Kept none none = Unit
Kept none (some f) = (f.found.is_dir ≡ true) × (f.found.size ≡ 0)

abbrev pub Keeps : Context → Context → Type 0
Keeps c c' = (key : List ℕ) → Kept (lookup c key) (lookup c' key)

pub Kept_same : (o : Option Found) → Kept o o
Kept_same none = tt
Kept_same (some f) = refl

pub Kept_trans : (x y z : Option Found) → Kept x y → Kept y z → Kept x z
Kept_trans (some f) y z h k = subst (λ o. Kept o z) h k
Kept_trans none none z h k = k
Kept_trans none (some f) z h k = subst (Kept none) (sym k) h

abbrev pub IsDirectory : Option Found → Type 0
IsDirectory none = ⊥
IsDirectory (some f) = f.found.is_dir ≡ true

abbrev pub ByEntry : Option Found → Type 0 → (Found → Type 0) → Type 0
ByEntry none P Q = P
ByEntry (some f) P Q = Q f

-- From the path up to the first one that was there before, every path leads to a directory.
abbrev pub HasParents : ℕ → Context → Context → Str → Type 0
HasParents zero c c' base = ⊥
HasParents (suc fuel) c c' base =
    if base.size == 0
    then Unit
    else (IsDirectory (lookup c' (text base))
        × ByEntry (lookup c (text base)) (HasParents fuel c c' (str_base_path base)) (λ f. Unit))

-- The first path that is there is a directory.
abbrev pub NoFile : ℕ → Context → Str → Type 0
NoFile zero c base = ⊥
NoFile (suc fuel) c base =
    if base.size == 0
    then Unit
    else ByEntry (lookup c (text base)) (NoFile fuel c (str_base_path base))
        (λ f. f.found.is_dir ≡ true)

pub NoFile-Keeps :
    (fuel : ℕ) (c c' : Context) (base : Str) → Keeps c c' → NoFile fuel c base → NoFile fuel c' base
NoFile-Keeps zero c c' base k h = h
NoFile-Keeps (suc fuel) c c' base k h = elim (Bool-cases (base.size == 0)) [
  | inl z ↦ rw z tt
  | inr z ↦ rw z (
      by_entry (lookup c (text base)) (lookup c' (text base)) (k (text base)) (rw z at h)
        (NoFile-Keeps fuel c c' (str_base_path base) k))
]
  where
    by_entry :
        (o o' : Option Found)
        → Kept o o'
        → ByEntry o (NoFile fuel c (str_base_path base)) (λ f. f.found.is_dir ≡ true)
        → (NoFile fuel c (str_base_path base) → NoFile fuel c' (str_base_path base))
        → ByEntry o' (NoFile fuel c' (str_base_path base)) (λ f. f.found.is_dir ≡ true)
    by_entry none none q x y = y x
    by_entry none (some f) q x y = q.0
    by_entry (some f) o' q x y =
        subst (λ o. ByEntry o (NoFile fuel c' (str_base_path base)) (λ f. f.found.is_dir ≡ true))
          (sym q) x

-- An entry whose text is longer is not seen under the paths below.
pub HasParents-shorter :
    (fuel n : ℕ) (c c1 c' : Context) (base : Str)
    → ((b : Str) → IsStr b → b.size < n → lookup c1 (text b) ≡ lookup c (text b))
    → IsStr base
    → base.size < n
    → HasParents fuel c1 c' base
    → HasParents fuel c c' base
HasParents-shorter zero n c c1 c' base l h k p = p
HasParents-shorter (suc fuel) n c c1 c' base l h k p = elim (Bool-cases (base.size == 0)) [
  | inl z ↦ rw z tt
  | inr z ↦ rw z (
    (rw z at p).0,
    by_entry (lookup c1 (text base)) (lookup c (text base)) (l base h k) (rw z at p).1 (
        HasParents-shorter fuel n c c1 c' (str_base_path base) l (base_path-IsStr base h)
          (omega (arith, base_path-shrinks base))),
  )
]
  where
    by_entry :
        (o o' : Option Found)
        → o ≡ o'
        → ByEntry o (HasParents fuel c1 c' (str_base_path base)) (λ f. Unit {0})
        → (HasParents fuel c1 c' (str_base_path base) → HasParents fuel c c' (str_base_path base))
        → ByEntry o' (HasParents fuel c c' (str_base_path base)) (λ f. Unit {0})
    by_entry none none q x y = y x
    by_entry (some f) none q x y = cc
    by_entry o (some f) q x y = tt

pub NoFile-shorter :
    (fuel n : ℕ) (c c1 : Context) (base : Str)
    → ((b : Str) → IsStr b → b.size < n → lookup c1 (text b) ≡ lookup c (text b))
    → IsStr base
    → base.size < n
    → NoFile fuel c base
    → NoFile fuel c1 base
NoFile-shorter zero n c c1 base l h k p = p
NoFile-shorter (suc fuel) n c c1 base l h k p = elim (Bool-cases (base.size == 0)) [
  | inl z ↦ rw z tt
  | inr z ↦
      let further : NoFile fuel c (str_base_path base) → NoFile fuel c1 (str_base_path base) =
        NoFile-shorter fuel n c c1 (str_base_path base) l (base_path-IsStr base h)
          (omega (arith, base_path-shrinks base)) in
      rw z (
        subst (λ o. ByEntry o (NoFile fuel c1 (str_base_path base)) (λ f. f.found.is_dir ≡ true))
          (sym (l base h k)) (by_entry (lookup c (text base)) further (rw z at p)))
]
  where
    by_entry :
        (o : Option Found)
        → (NoFile fuel c (str_base_path base) → NoFile fuel c1 (str_base_path base))
        → ByEntry o (NoFile fuel c (str_base_path base)) (λ f. f.found.is_dir ≡ true)
        → ByEntry o (NoFile fuel c1 (str_base_path base)) (λ f. f.found.is_dir ≡ true)
    by_entry none y x = y x
    by_entry (some f) y x = x
