-- ===== src/Fs/Rename/Move.antt =====
-- `RenameNoreplace` of mqttfs_rename.c, on each of its branches.
use mqttfs.Base.{ℕ, suc, List, true, false, Option, none, some, ◌≡◌, ap, ◌∙◌, arith, drop}
use mqttfs.Str.{Str, IsStr, text, copied, str_view, str_copy}
use mqttfs.Str.Copy.{str_view-IsStr}
use mqttfs.Node.{Node}
use mqttfs.Queue.{Mqtt}
use mqttfs.Store.{
  Item, Context, view, node, update, without, search, item_at, tfind, tsearch, tdelete, load_slot,
  store_slot, load_node, load, store, ok, err, eio, eexist,
}
use mqttfs.Store.Search.{
  Found, lookup, IsValid, IsFound, slot_of, search-find, find-IsFound, item_at-found,
}
use mqttfs.Store.Edit.{with_new, item_at-new, put_at-new, without-new, search-new}
use mqttfs.Store.Frame.{Ascending-without}
use mqttfs.Store.Behind.{search-before, item_at-before, without-before}
use mqttfs.Fs.Rename.{RenameAnswers, announce, mqttfs_rename, noreplace_flag}

module _ (a : RenameAnswers) (from to : List ℕ) (c : Context) (v : IsValid c) where
  abbrev pub from_key : Str
  from_key = str_view (drop 1 from)

  abbrev pub to_key : Str
  to_key = str_view (drop 1 to)

  searched :
      (key : Str) → IsStr key → search c.nodes key c.root ≡ some (slot_of (lookup c (text key)))
  unfolding lookup
  searched key h = search-find c.nodes key c.root h v.entries

  pub holds :
      (key : List ℕ) (f : Found)
      → lookup c key ≡ some f
      → item_at f.slot c.root ≡ some (node f.addr)
  unfolding lookup
  holds key f e = item_at-found c.nodes key c.root f c.next 0 v.slots e v.entries

  pub found_there : (key : List ℕ) (f : Found) → lookup c key ≡ some f → IsFound c.nodes key f
  unfolding lookup
  found_there key f e = find-IsFound c.nodes key c.root f v.entries e

  pub searched_from : search c.nodes from_key c.root ≡ some (slot_of (lookup c (text from_key)))
  searched_from = searched from_key (str_view-IsStr (drop 1 from))

  pub searched_to : search c.nodes to_key c.root ≡ some (slot_of (lookup c (text to_key)))
  searched_to = searched to_key (str_view-IsStr (drop 1 to))

  module _ (l : a.locked ≡ true) (f : Found) (e : lookup c (text from_key) ≡ some f) where
    pub move_exists :
        (g : Found)
        → lookup c (text to_key) ≡ some g
        → mqttfs_rename a from to noreplace_flag c ≡ some (err eexist, c)
    unfolding mqttfs_rename tfind tsearch load_slot
    move_exists g k = ground (arith, l, e, k, searched_from, searched_to, holds (text to_key) g k)

    module _ (k : lookup c (text to_key) ≡ none) where
      pub move_no_room :
          a.tree_grown ≡ false → mqttfs_rename a from to noreplace_flag c ≡ some (err eio, c)
      unfolding mqttfs_rename tfind tsearch
      move_no_room g = ground (arith, l, e, k, g, searched_from, searched_to)

      module _ (g : a.tree_grown ≡ true) where
        abbrev pub grown : Context
        grown = record c { next = suc c.next; root = with_new c.root c.next (view to_key) }

        pub move_no_copy :
            a.path_copied ≡ false
            → mqttfs_rename a from to noreplace_flag c
              ≡ some (err eio, record c { next = suc c.next })
        unfolding mqttfs_rename tfind tsearch load_slot str_copy tdelete
        move_no_copy p = ground (
          arith,
          l,
          e,
          k,
          g,
          p,
          searched_from,
          searched_to,
          item_at-new c.next 0 c.root (view to_key) v.slots,
          search-new c.nodes to_key c.root c.next (str_view-IsStr (drop 1 to)),
          without-new c.next 0 c.root (view to_key) v.slots,
        )

        pub there : IsFound c.nodes (text from_key) f
        there = found_there (text from_key) f e

        in_place : item_at f.slot grown.root ≡ some (node f.addr)
        in_place =
            item_at-before f.slot c.root (node f.addr) c.next (view to_key)
              (holds (text from_key) f e)

        pub move_refused :
            (o : Option Mqtt)
            → a.path_copied ≡ true
            → announce a f.found to_key grown ≡ some (false, record grown { mqtt = o })
            → mqttfs_rename a from to noreplace_flag c
              ≡ some (err eio, record c { next = suc c.next; mqtt = o })
        unfolding mqttfs_rename tfind tsearch load_slot load_node load str_copy tdelete
        move_refused o p r = ground (
          arith,
          l,
          e,
          k,
          g,
          p,
          r,
          searched_from,
          searched_to,
          in_place,
          there.stored,
          item_at-new c.next 0 c.root (view to_key) v.slots,
          search-new c.nodes to_key c.root c.next (str_view-IsStr (drop 1 to)),
          without-new c.next 0 c.root (view to_key) v.slots,
        )

        pub own_key : search c.nodes f.found.path c.root ≡ some (some f.slot)
        own_key =
            searched f.found.path there.good.path_there
            ∙ ap (λ x. some (slot_of (lookup c x))) there.keyed
            ∙ ap (λ o. some (slot_of o)) e

        abbrev pub moved : Node
        moved = record f.found { path = copied to_key }

        pub move_done :
            (o : Option Mqtt)
            → a.path_copied ≡ true
            → ((root : List (ℕ × Item)) → a.relocate root ≡ root)
            → announce a f.found to_key grown ≡ some (true, record grown { mqtt = o })
            → mqttfs_rename a from to noreplace_flag c
              ≡ some (
                ok 0,
                record c {
                  nodes = update c.nodes f.addr (some moved);
                  next = suc c.next;
                  root = with_new (without f.slot c.root) c.next (node f.addr);
                  mqtt = o;
                },
              )
        unfolding mqttfs_rename tfind tsearch load_slot store_slot load_node load store str_copy
            tdelete
        move_done o p w r = ground (
          arith,
          l,
          e,
          k,
          g,
          p,
          r,
          searched_from,
          searched_to,
          in_place,
          there.stored,
          item_at-new c.next 0 c.root (view to_key) v.slots,
          search-before c.nodes f.found.path c.root f.slot c.next (view to_key) own_key,
          without-before f.slot c.root (node f.addr) c.next (view to_key)
              (holds (text from_key) f e),
          w (with_new (without f.slot c.root) c.next (view to_key)),
          item_at-new c.next 0 (without f.slot c.root) (view to_key)
              (Ascending-without c.next 0 f.slot c.root v.slots),
          put_at-new c.next 0 (without f.slot c.root) (view to_key) (node f.addr)
              (Ascending-without c.next 0 f.slot c.root v.slots),
        )
