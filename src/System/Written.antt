-- ===== src/System/Written.antt =====
-- A write to the node of an entry, as the map from paths sees it.
use mqttfs.Base.{
  ℕ, List, [], ◌∷◌, Option, none, some, ◌≡◌, ◌≢◌, inl, inr, refl, sym, ap, ◌∙◌, arith,
  if◌then◌else◌, Bool-cases, length,
}
use mqttfs.Node.{Node}
use mqttfs.Node.Update.{IsNode}
use mqttfs.Store.{Context, node}
use mqttfs.Store.Search.{
  Found, lookup, same, same→eq, eq→same, IsValid, IsFound, find-IsFound, text_at, text_at-node,
}
use mqttfs.Store.Frame.{refresh, find-kept}
use mqttfs.Store.Replace.{replaced, replaced-IsKept}

pub found_in :
    (c : Context) (key : List ℕ) (f : Found)
    → IsValid c
    → lookup c key ≡ some f
    → IsFound c.nodes key f
unfolding lookup
found_in c key f v e = find-IsFound c.nodes key c.root f v.entries e

module _ (c : Context) (v : IsValid c) (path : List ℕ) (f : Found) (e : lookup c path ≡ some f)
    (n : Node) (p : n.path ≡ f.found.path) (g : IsNode n) where
  refreshed :
      (key : List ℕ)
      → lookup (replaced c f.addr n) key ≡ refresh (replaced c f.addr n).nodes (lookup c key)
  unfolding lookup
  refreshed key =
      find-kept c.nodes (replaced c f.addr n).nodes key c.root (
        replaced-IsKept c.nodes f.addr f.found n (found_in c path f v e).stored p g c.root
          v.entries)

  -- An entry with another path has another node.
  apart : (key : List ℕ) (h : Found) → lookup c key ≡ some h → path ≢ key → f.addr ≢ h.addr
  apart key h k ne q =
      let x = found_in c path f v e in
      let y = found_in c key h v k in
      ne (
        sym x.keyed
        ∙ sym (text_at-node c.nodes f.addr f.found x.stored)
        ∙ ap (λ a. text_at c.nodes (node a)) q
        ∙ text_at-node c.nodes h.addr h.found y.stored
        ∙ y.keyed)

  pub lookup-replaced :
      (key : List ℕ)
      → lookup (replaced c f.addr n) key
        ≡ (if same path key then some (record f { found = n }) else lookup c key)
  lookup-replaced key = refreshed key ∙ elim (Bool-cases (same path key)) [
    | inl s ↦ rw s (
        ap (λ k. refresh (replaced c f.addr n).nodes (lookup c k)) (sym (same→eq path key s))
        ∙ ap (refresh (replaced c f.addr n).nodes) e
        ∙ ground arith)
    | inr s ↦ rw s (by_found (lookup c key) refl (λ q. cc (s, eq→same path key q)))
  ]
    where
      by_found :
          (o : Option Found)
          → lookup c key ≡ o
          → path ≢ key
          → refresh (replaced c f.addr n).nodes o ≡ o
      by_found none k ne = refl
      by_found (some h) k ne = ground (arith, (found_in c key h v k).stored, apart key h k ne)

no_bytes : (bytes : List ℕ) → length bytes ≡ 0 → bytes ≡ []
no_bytes [] e = refl
no_bytes (b ∷ bytes) e = absurd (ground (arith, e))

-- An entry of size 0 has no bytes.
pub empty_content :
    (c : Context) (key : List ℕ) (f : Found)
    → IsValid c
    → lookup c key ≡ some f
    → f.found.size ≡ 0
    → f.found.content ≡ []
empty_content c key f v e z =
    no_bytes f.found.content ((found_in c key f v e).good.content_size ∙ z)
