-- ===== src/Store/Exchange.antt =====
-- Two entries of the tree change places and names: each path leads to the other node.
use mqttfs.Base.{
  ℕ, suc, List, [], ◌∷◌, map, true, false, Option, none, some, ◌≡◌, ◌≢◌, inl, inr, refl, sym, ap,
  ◌∙◌, arith, if◌then◌else◌, ◌==◌, All, Bool-cases,
}
use mathlib.Core.Path.{subst}
use mathlib.Core.Option
use mqttfs.Str.{Str, IsStr, text}
use mqttfs.Node.{Node}
use mqttfs.Node.Update.{IsNode}
use mqttfs.Store.{Context, Item, node, update, put_at, item_at}
use mqttfs.Store.Search.{
  Found, find, lookup, same, same→eq, eq→same, IsValid, IsEntry, entry, text_at, text_at-node,
  Distinct, Ascending, IsFound, find-IsFound, item_at-found,
}
use mqttfs.Store.Linked.{IsLinked, find-Linked, put_in, put_at-map, Ascending-put}
use mqttfs.Store.Swap.{
  with_path, in_exchange, swap, Swaps, swaps, entries-swapped, Distinct-swapped, find-swapped,
}

abbrev pub exchanged : Context → Found → Found → Context
exchanged c f g = record c {
  nodes =
      update (update c.nodes f.addr (some (with_path f.found g.found.path))) g.addr
        (some (with_path g.found f.found.path));
  root = put_at g.slot (node f.addr) (put_at f.slot (node g.addr) c.root);
}

module _ (c : Context) (v : IsValid c) (kf kg : List ℕ) (f g : Found) (ef : lookup c kf ≡ some f)
    (eg : lookup c kg ≡ some g) (ne : kf ≢ kg) where
  is_here : (key : List ℕ) (h : Found) → lookup c key ≡ some h → IsFound c.nodes key h
  unfolding lookup
  is_here key h e = find-IsFound c.nodes key c.root h v.entries e

  is_linked : (key : List ℕ) (h : Found) → lookup c key ≡ some h → All (IsLinked h) c.root
  unfolding lookup
  is_linked key h e = find-Linked c.nodes key c.root h c.next 0 v.slots v.entries v.distinct e

  holds :
      (key : List ℕ) (h : Found)
      → lookup c key ≡ some h
      → item_at h.slot c.root ≡ some (node h.addr)
  unfolding lookup
  holds key h e = item_at-found c.nodes key c.root h c.next 0 v.slots e v.entries

  pub apart_in_memory : f.addr ≢ g.addr
  apart_in_memory p =
      let x = is_here kf f ef in
      let y = is_here kg g eg in
      ne (
        sym x.keyed
        ∙ sym (text_at-node c.nodes f.addr f.found x.stored)
        ∙ ap (λ a. text_at c.nodes (node a)) p
        ∙ text_at-node c.nodes g.addr g.found y.stored
        ∙ y.keyed)

  pub apart_in_tree : f.slot ≢ g.slot
  apart_in_tree p =
      apart_in_memory
        (same_address (sym (holds kf f ef) ∙ ap (λ s. item_at s c.root) p ∙ holds kg g eg))
    where
      same_address : some (node f.addr) ≡ some (node g.addr) → f.addr ≡ g.addr
      same_address q = ground (arith, q)

  root_swapped : (exchanged c f g).root ≡ map (swap f g) c.root
  root_swapped =
      ap (put_at g.slot (node f.addr)) (put_at-map f.slot (node g.addr) c.next 0 c.root v.slots)
      ∙ put_at-map g.slot (node f.addr) c.next 0 (map (put_in f.slot (node g.addr)) c.root)
          (Ascending-put f.slot (node g.addr) c.next 0 c.root v.slots)
      ∙ map_twice c.root
    where
      map_twice :
          (root : List (ℕ × Item))
          → map (put_in g.slot (node f.addr)) (map (put_in f.slot (node g.addr)) root)
            ≡ map (swap f g) root
      map_twice [] = refl
      map_twice (x ∷ xs) = ap (λ ys. swap f g x ∷ ys) (map_twice xs)

  -- The entry's own element is the one in its slot.
  is_own :
      (key : List ℕ) (h : Found) (slot a : ℕ) (n : Node)
      → lookup c key ≡ some h
      → (slot == h.slot) ≡ (a == h.addr)
      → (slot == h.slot) ≡ true
      → c.nodes a ≡ some n
      → n ≡ h.found
  is_own key h slot a n e l s k =
      same_node (sym k ∙ ap c.nodes (ground (arith, l, s)) ∙ (is_here key h e).stored)
    where
      same_node : some n ≡ some h.found → n ≡ h.found
      same_node q = cc q

  with_path-IsNode : (n : Node) (path : Str) → IsNode n → IsStr path → IsNode (with_path n path)
  with_path-IsNode n path q p = record { path_there = p; content_size = q.content_size }

  element-Swaps :
      (x : ℕ × Item)
      → IsEntry c.nodes x
      → IsLinked f x
      → IsLinked g x
      → Swaps f g c.nodes (exchanged c f g).nodes x
  element-Swaps x (entry slot a n e q) lf lg = elim (Bool-cases (slot == g.slot)) [
    | inl s ↦
        swaps slot a f.addr n (with_path f.found g.found.path) e (ground (arith, apart_in_memory))
          (ap (λ k. text k.path) (sym (is_own kg g slot a n eg lg s e)))
          (with_path-IsNode f.found g.found.path (is_here kf f ef).good
            (is_here kg g eg).good.path_there)
          (ground (arith, s)) (ground (arith, s))
    | inr s ↦ elim (Bool-cases (slot == f.slot)) [
      | inl t ↦
          swaps slot a g.addr n (with_path g.found f.found.path) e (ground arith)
            (ap (λ k. text k.path) (sym (is_own kf f slot a n ef lf t e)))
            (with_path-IsNode g.found f.found.path (is_here kg g eg).good
              (is_here kf f ef).good.path_there)
            (ground (arith, s, t)) (ground (arith, s, t))
      | inr t ↦
          swaps slot a a n n e (ground (arith, e, s, t, lf, lg)) refl q (ground (arith, s, t))
            (ground (arith, s, t))
    ]
  ]

  elements-Swap : All (Swaps f g c.nodes (exchanged c f g).nodes) c.root
  elements-Swap = go c.root v.entries (is_linked kf f ef) (is_linked kg g eg)
    where
      go :
          (root : List (ℕ × Item))
          → All (IsEntry c.nodes) root
          → All (IsLinked f) root
          → All (IsLinked g) root
          → All (Swaps f g c.nodes (exchanged c f g).nodes) root
      go [] es lf lg = tt
      go (x ∷ xs) (ex, es) (lfx, lf) (lgx, lg) = (element-Swaps x ex lfx lgx, go xs es lf lg)

  pub IsValid-exchanged : IsValid (exchanged c f g)
  IsValid-exchanged = record {
    entries =
        subst (All (IsEntry (exchanged c f g).nodes)) (sym root_swapped)
          (entries-swapped f g c.nodes (exchanged c f g).nodes c.root elements-Swap);
    distinct =
        subst (Distinct (exchanged c f g).nodes) (sym root_swapped)
          (Distinct-swapped f g c.nodes (exchanged c f g).nodes c.root elements-Swap v.distinct);
    slots = subst (Ascending c.next 0) (sym root_swapped) (ascending 0 c.root v.slots);
    unused = λ b h. ground (
      arith,
      v.unused b h,
      (is_here kf f ef).stored,
      (is_here kg g eg).stored,
      other f.addr b,
      other g.addr b,
    );
  }
    where
      ascending :
          (from : ℕ) (root : List (ℕ × Item))
          → Ascending c.next from root
          → Ascending c.next from (map (swap f g) root)
      ascending from [] o = o
      ascending from ((s, i) ∷ rest) (o, os) = (o, ascending (suc s) rest os)

      other : (a b : ℕ) → a ≡ b → c.nodes a ≡ c.nodes b
      other a b q = ap c.nodes q

  pub lookup-exchanged :
      (key : List ℕ) → lookup (exchanged c f g) key ≡ Option.map (in_exchange f g) (lookup c key)
  unfolding lookup
  lookup-exchanged key =
      ap (find (exchanged c f g).nodes key) root_swapped
      ∙ find-swapped f g c.nodes (exchanged c f g).nodes key c.root elements-Swap

module _ (c : Context) (v : IsValid c) (kf kg : List ℕ) (f g : Found) (ef : lookup c kf ≡ some f)
    (eg : lookup c kg ≡ some g) (ne : kf ≢ kg) where
  -- The two paths lead to each other's nodes, every other path leads where it did.
  pub lookup-exchanged_texts :
      (key : List ℕ)
      → lookup (exchanged c f g) key ≡ (
          if same kg key
          then some
              (record { slot = g.slot; addr = f.addr; found = with_path f.found g.found.path })
          else if same kf key
          then some
              (record { slot = f.slot; addr = g.addr; found = with_path g.found f.found.path })
          else lookup c key)
  lookup-exchanged_texts key =
      lookup-exchanged c v kf kg f g ef eg ne key ∙ elim (Bool-cases (same kg key)) [
        | inl s ↦ rw s (
            ap (λ k. Option.map (in_exchange f g) (lookup c k)) (sym (same→eq kg key s))
            ∙ ap (Option.map (in_exchange f g)) eg
            ∙ ground arith)
        | inr s ↦ elim (Bool-cases (same kf key)) [
          | inl t ↦
              rw (s, t)
                (ap (λ k. Option.map (in_exchange f g) (lookup c k)) (sym (same→eq kf key t))
                  ∙ ap (Option.map (in_exchange f g)) ef
                  ∙ ground (arith, apart_in_tree c v kf kg f g ef eg ne))
          | inr t ↦ rw (s, t) (by_found (lookup c key) refl (differ kg s) (differ kf t))
        ]
      ]
    where
      differ : (k : List ℕ) → same k key ≡ false → key ≢ k
      differ k s q = cc (eq→same k key (sym q), s)

      by_found :
          (o : Option Found)
          → lookup c key ≡ o
          → key ≢ kg
          → key ≢ kf
          → Option.map (in_exchange f g) o ≡ o
      by_found none e p q = refl
      by_found (some h) e p q =
          ground (arith, apart_in_tree c v key kg h g e eg p, apart_in_tree c v key kf h f e ef q)
