-- ===== src/Program/Message/Chain.antt =====
-- The loop of `OnMqttMessage` that makes the missing parents of a topic.
use mqttfs.Base.{
  ℕ, zero, suc, ◌<◌, List, Bool, true, false, none, some, if◌then◌else◌, ◌==◌, ◌≡◌, inl, inr, refl,
  sym, ap, ◌∙◌, arith, Bool-cases, Option-cases, length, length-take,
}
use mathlib.Core.Path.{subst}
use mqttfs.Str.{Str, IsStr, text, copied, str_base_path, str_copy}
use mqttfs.Str.Copy.{text-copied}
use mqttfs.Str.Paths.{base_path-shrinks, base_path-IsStr}
use mqttfs.Node.{Timespec, Node, fresh_node, node_create}
use mqttfs.Node.Update.{fresh_node-IsNode}
use mqttfs.Store.{Context}
use mqttfs.Store.Search.{Found, lookup, same, same→eq, eq→same, IsValid}
use mqttfs.Store.Insert.{inserted, IsValid-inserted, lookup-inserted}
use mqttfs.Program.Message.{MessageAnswers, complete, undo, ensure_parents}
use mqttfs.Program.Message.Keeping.{
  Kept, Keeps, Kept_same, Kept_trans, IsDirectory, HasParents, NoFile, NoFile-Keeps,
  HasParents-shorter,
}
use mqttfs.Program.Message.Loop.{parents_end, parents_found, parents_new}

pub record Chained (a : MessageAnswers) (fuel i : ℕ) (base : Str) (c : Context) : Type 0 where
  pub after : Context
  pub returns : ensure_parents a fuel i base c ≡ some (complete, after)
  pub valid : IsValid after
  pub keeps : Keeps c after
  pub parents : HasParents fuel c after base
  pub same_mqtt : after.mqtt ≡ c.mqtt
  pub same_calls : after.calls ≡ c.calls

-- The system grants whatever is asked of it for the parents.
abbrev pub GrantsParents : MessageAnswers → Type 0
GrantsParents a =
    (i : ℕ)
    → (a.tree_grown i ≡ true)
      × ((now : Timespec) × ((a.created i).clock ≡ some now))
      × ((a.created i).allocated ≡ true)
      × ((a.created i).path_copied ≡ true)

pub granted_node :
    (a : MessageAnswers) (i : ℕ) (base : Str) (is_dir : Bool)
    → GrantsParents a
    → (now : Timespec) × (node_create (a.created i) base is_dir
        ≡ some (fresh_node now is_dir (copied base)))
unfolding node_create str_copy
granted_node a i base is_dir g =
    let (grown, clock, allocated, path_copied) = g i in
    (clock.0, ground (arith, clock.1, allocated, path_copied))

pub differs_in_length :
    (b base : Str) → IsStr b → IsStr base → b.size < base.size → same (text base) (text b) ≡ false
differs_in_length b base h k l = elim (Bool-cases (same (text base) (text b))) [
  | inr e ↦ e
  | inl e ↦ absurd (
      omega (
        arith,
        ap (length {A = ℕ}) (same→eq (text base) (text b) e),
        length-take b.size b.chars,
        length-take base.size base.chars,
      ))
]

module _ (base : Str) (c : Context) (v : IsValid c) (h : IsStr base) (now : Timespec)
    (e : lookup c (text base) ≡ none) where
  abbrev parent : Node
  parent = fresh_node now true (copied base)

  looked_up :
      (other : List ℕ)
      → lookup (inserted c parent) other ≡ (
          if same (text base) other
          then some (record { slot = c.next; addr = suc c.next; found = parent })
          else lookup c other)
  unfolding lookup
  looked_up other = lookup-inserted base c v parent other e (text-copied base h)

  inserted-IsValid : IsValid (inserted c parent)
  unfolding lookup
  inserted-IsValid =
      IsValid-inserted base c v parent e (text-copied base h) (fresh_node-IsNode now true base h)

  abbrev entry_made : Found
  entry_made = record { slot = c.next; addr = suc c.next; found = parent }

  by_text :
      (key : List ℕ) (b : Bool)
      → same (text base) key ≡ b
      → lookup (inserted c parent) key ≡ (if b then some entry_made else lookup c key)
  by_text key b s = looked_up key ∙ ap (λ x. if x then some entry_made else lookup c key) s

  inserted-Keeps : Keeps c (inserted c parent)
  inserted-Keeps key = elim (Bool-cases (same (text base) key)) [
    | inr s ↦ subst (Kept (lookup c key)) (sym (by_text key false s)) (Kept_same (lookup c key))
    | inl s ↦
        let missing : lookup c key ≡ none = ap (lookup c) (sym (same→eq (text base) key s)) ∙ e in
        subst (λ o. Kept o (lookup (inserted c parent) key)) (sym missing)
          (subst (Kept none) (sym (by_text key true s)) (refl, refl))
  ]

  inserted_there : lookup (inserted c parent) (text base) ≡ some entry_made
  inserted_there = by_text (text base) true (eq→same (text base) (text base) refl)

  inserted_shorter :
      (b : Str)
      → IsStr b
      → b.size < base.size
      → lookup (inserted c parent) (text b) ≡ lookup c (text b)
  inserted_shorter b k l = by_text (text b) false (differs_in_length b base k h l)

end_Chained :
    (a : MessageAnswers) (fuel i : ℕ) (base : Str) (c : Context)
    → IsValid c
    → IsStr base
    → (base.size == 0) ≡ true
    → Chained a (suc fuel) i base c
end_Chained a fuel i base c v h z = record {
  after = c;
  returns = parents_end a fuel i base c v h z;
  valid = v;
  keeps = λ key. Kept_same (lookup c key);
  parents = rw z tt;
  same_mqtt = refl;
  same_calls = refl;
}

found_Chained :
    (a : MessageAnswers) (fuel i : ℕ) (base : Str) (c : Context) (f : Found)
    → IsValid c
    → IsStr base
    → (base.size == 0) ≡ false
    → lookup c (text base) ≡ some f
    → f.found.is_dir ≡ true
    → Chained a (suc fuel) i base c
found_Chained a fuel i base c f v h z e d = record {
  after = c;
  returns =
      parents_found a fuel i base c v h f z e
      ∙ ap (λ b. some (if b then complete else undo base, c)) d;
  valid = v;
  keeps = λ key. Kept_same (lookup c key);
  parents = rw (z, e) (d, tt);
  same_mqtt = refl;
  same_calls = refl;
}

new_Chained :
    (a : MessageAnswers) (fuel i : ℕ) (base : Str) (c : Context) (now : Timespec)
    → (v : IsValid c) → (h : IsStr base) → (z : (base.size == 0) ≡ false)
    → (e : lookup c (text base) ≡ none) → a.tree_grown i ≡ true
    → node_create (a.created i) base true ≡ some (fresh_node now true (copied base))
    → Chained a fuel (suc i) (str_base_path base) (inserted c (fresh_node now true (copied base)))
    → Chained a (suc fuel) i base c
unfolding inserted
new_Chained a fuel i base c now v h z e g m r = record {
  after = r.after;
  returns = parents_new a fuel i base c v h (fresh_node now true (copied base)) z e g m ∙ r.returns;
  valid = r.valid;
  keeps = λ key.
      Kept_trans (lookup c key) _ (lookup r.after key) (inserted-Keeps base c v h now e key)
        (r.keeps key);
  parents =
      rw (z, e)
        (
          subst IsDirectory (sym kept_entry) refl,
          HasParents-shorter fuel base.size c (inserted c (fresh_node now true (copied base)))
              r.after (str_base_path base) (inserted_shorter base c v h now e)
              (base_path-IsStr base h) (ground (arith, base_path-shrinks base)) r.parents,
        );
  same_mqtt = r.same_mqtt;
  same_calls = r.same_calls;
}
  where
    kept_entry : lookup r.after (text base) ≡ some (entry_made base c v h now e)
    kept_entry =
        subst (λ o. Kept o (lookup r.after (text base))) (inserted_there base c v h now e)
          (r.keeps (text base))

-- With all grants, and no file in the way, the full base path is made.
pub ensure_parents-Chained :
    (a : MessageAnswers) (fuel i : ℕ) (base : Str) (c : Context)
    → GrantsParents a
    → IsValid c
    → IsStr base
    → base.size < fuel
    → NoFile fuel c base
    → Chained a fuel i base c
ensure_parents-Chained a zero i base c g v h l n = absurd n
ensure_parents-Chained a (suc fuel) i base c g v h l n = elim (Bool-cases (base.size == 0)) [
  | inl z ↦ end_Chained a fuel i base c v h z
  | inr z ↦ elim (Option-cases (lookup c (text base))) [
    | inr (f, e) ↦ found_Chained a fuel i base c f v h z e (rw (z, e) at n)
    | inl e ↦
        let (now, m) = granted_node a i base true g in
        let shorter : (str_base_path base).size < fuel = ground (arith, base_path-shrinks base) in
        let none_in_the_way : NoFile fuel (inserted c (fresh_node now true (copied base)))
            (str_base_path base) =
          NoFile-Keeps fuel c _ (str_base_path base) (inserted-Keeps base c v h now e)
            (rw (z, e) at n) in
        new_Chained a fuel i base c now v h z e (g i).0 m (
          ensure_parents-Chained a fuel (suc i) (str_base_path base)
            (inserted c (fresh_node now true (copied base))) g (inserted-IsValid base c v h now e)
            (base_path-IsStr base h) shorter none_in_the_way)
  ]
]
