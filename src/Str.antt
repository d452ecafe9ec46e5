-- ===== src/Str.antt =====
-- str.c, str.h: sized strings. `chars` is what the pointer `data` points to, up to the end of the
-- memory object, so a view may see fewer bytes than there are.
pub mod Compare
pub mod Copy
pub mod Paths
use mqttfs.Base.{
  ℕ, zero, suc, ◌+◌, ◌≤◌, List, [], ◌∷◌, ◌++◌, Bool, true, false, Option, none, some, Ordering,
  compare, ◌==◌, ltb, if◌then◌else◌, length, take, drop,
}

pub record Str : Type 0 where
  pub size : ℕ
  pub chars : List ℕ

-- The bytes that the string stands for, and the condition that they are there.
abbrev pub text : Str → List ℕ
text s = take s.size s.chars

abbrev pub IsStr : Str → Type 0
IsStr s = s.size ≤ length s.chars

-- The C library's `strlen`. A C string is a list of bytes; the end of the list is a terminator too.
unfoldable pub strlen : List ℕ → ℕ
strlen [] = 0
strlen (c ∷ s) = if c == 0 then 0 else suc (strlen s)

unfoldable pub str_view : List ℕ → Str
unfolding strlen
str_view str = record { size = strlen str; chars = str }

-- The copied bytes with a terminating zero.
abbrev pub copied : Str → Str
copied from = record { size = from.size; chars = take from.size from.chars ++ 0 ∷ [] }

-- The Boolean is the answer of `malloc`.
unfoldable pub str_copy : Bool → Str → Option Str
str_copy true from = some (copied from)
str_copy false from = none

front : List ℕ → ℕ
front [] = 0
front (c ∷ s) = c

rest : List ℕ → List ℕ
rest [] = []
rest (c ∷ s) = s

-- The sign of the C library's `memcmp`, which compares unsigned bytes.
unfoldable pub memcmp : List ℕ → List ℕ → ℕ → Ordering
unfolding front rest
memcmp a b zero = Ordering.eq
memcmp a b (suc n) =
    let later = memcmp (rest a) (rest b) n in
    elim (compare (front a) (front b)) [
      | Ordering.lt ↦ Ordering.lt
      | Ordering.eq ↦ later
      | Ordering.gt ↦ Ordering.gt
    ]

-- `same` is the test `a->data == b->data` of the two pointers.
unfoldable pub str_compare_at : Bool → Str → Str → Ordering
unfolding memcmp
str_compare_at same a b =
    if a.size == b.size
    then (if same then Ordering.eq else memcmp a.chars b.chars a.size)
    else if ltb a.size b.size
    then Ordering.lt
    else Ordering.gt

-- On distinct pointers. `str_compare-same` shows that equal pointers do not matter.
unfoldable pub str_compare : Str → Str → Ordering
unfolding str_compare_at
str_compare a b = str_compare_at false a b

-- The C library's `memrchr`: the last `c` among the first `n` bytes.
unfoldable pub memrchr : ℕ → ℕ → List ℕ → Option ℕ
memrchr c zero s = none
memrchr c (suc n) [] = none
memrchr c (suc n) (x ∷ s) = elim (memrchr c n s) [
  | some i ↦ some (suc i)
  | none ↦ if x == c then some 0 else none
]

-- A path with no separator has the empty base path.
unfoldable pub str_base_path : Str → Str
unfolding memrchr
str_base_path path = elim (memrchr b'/' path.size path.chars) [
  | some separator ↦ record { size = separator; chars = path.chars }
  | none ↦ record { size = 0; chars = path.chars }
]

-- A pointer into the path's memory: what follows the last separator.
unfoldable pub str_file_name : Str → List ℕ
unfolding memrchr
str_file_name path = elim (memrchr b'/' path.size path.chars) [
  | some separator ↦ drop (separator + 1) path.chars
  | none ↦ path.chars
]
