-- ===== src/Fs/Rename/Swap.antt =====
-- `RenameExchange` of mqttfs_rename.c on each of its branches, and `RenameNormal` over an entry that is there.
use mqttfs.Base.{ℕ, List, true, false, Option, none, some, ◌≡◌, ◌≢◌, ◌==◌, ◌∙◌, arith, drop}
use mqttfs.Str.{text, str_view}
use mqttfs.Queue.{Mqtt}
use mqttfs.Store.{
  Context, node, item_at, put_at, tfind, tsearch, load_slot, store_slot, load_node, load, store, ok,
  err, eio, eisdir, enotdir, ◌>>=◌,
}
use mqttfs.Store.Search.{Found, lookup, IsValid, IsFound}
use mqttfs.Store.Linked.{item_at-put_at}
use mqttfs.Store.Exchange.{exchanged, apart_in_tree}
use mqttfs.Fs.Rename.{
  RenameAnswers, announce, rename_exchange, drop_target, mqttfs_rename, exchange_flag,
}
use mqttfs.Fs.Rename.Move.{searched_from, searched_to, holds, found_there}

module _ (a : RenameAnswers) (from to : List ℕ) (c : Context) (v : IsValid c) (l : a.locked ≡ true)
    (f : Found) (e : lookup c (text (str_view (drop 1 from))) ≡ some f) where
  pub swap_missing :
      lookup c (text (str_view (drop 1 to))) ≡ none → mqttfs_rename a from to exchange_flag c ≡ none
  unfolding mqttfs_rename tfind
  swap_missing k = ground (arith, l, e, k, searched_from a from to c v, searched_to a from to c v)

  module _ (g : Found) (k : lookup c (text (str_view (drop 1 to))) ≡ some g) where
    pub exchange_starts :
        mqttfs_rename a from to exchange_flag c ≡ rename_exchange a f.slot (some g.slot) c
    unfolding mqttfs_rename tfind
    exchange_starts =
        ground (arith, l, e, k, searched_from a from to c v, searched_to a from to c v)

    pub replace_starts :
        mqttfs_rename a from to 0 c
        ≡ (rename_exchange a f.slot (some g.slot) >>= drop_target a f.slot) c
    unfolding mqttfs_rename tfind tsearch load_slot
    replace_starts = ground (
      arith,
      l,
      e,
      k,
      searched_from a from to c v,
      searched_to a from to c v,
      holds a from to c v (text (str_view (drop 1 to))) g k,
    )

    pub from_there : IsFound c.nodes (text (str_view (drop 1 from))) f
    from_there = found_there a from to c v (text (str_view (drop 1 from))) f e

    pub to_there : IsFound c.nodes (text (str_view (drop 1 to))) g
    to_there = found_there a from to c v (text (str_view (drop 1 to))) g k

    from_holds : item_at f.slot c.root ≡ some (node f.addr)
    from_holds = holds a from to c v (text (str_view (drop 1 from))) f e

    to_holds : item_at g.slot c.root ≡ some (node g.addr)
    to_holds = holds a from to c v (text (str_view (drop 1 to))) g k

    pub exchange_dir_with_file :
        f.found.is_dir ≡ true
        → g.found.is_dir ≡ false
        → rename_exchange a f.slot (some g.slot) c ≡ some (err enotdir, c)
    unfolding rename_exchange load_slot load_node load
    exchange_dir_with_file d d' =
        ground (arith, from_holds, to_holds, from_there.stored, to_there.stored, d, d')

    pub exchange_file_with_dir :
        f.found.is_dir ≡ false
        → g.found.is_dir ≡ true
        → rename_exchange a f.slot (some g.slot) c ≡ some (err eisdir, c)
    unfolding rename_exchange load_slot load_node load
    exchange_file_with_dir d d' =
        ground (arith, from_holds, to_holds, from_there.stored, to_there.stored, d, d')

    module _ (d : f.found.is_dir ≡ g.found.is_dir)
        (ne : text (str_view (drop 1 from)) ≢ text (str_view (drop 1 to))) where
      other_slot : (g.slot == f.slot) ≡ false
      other_slot = ground (
        arith,
        apart_in_tree c v (text (str_view (drop 1 from))) (text (str_view (drop 1 to))) f g e k ne,
      )

      still_there : item_at g.slot (put_at f.slot (node g.addr) c.root) ≡ some (node g.addr)
      still_there = item_at-put_at g.slot f.slot (node g.addr) c.root other_slot ∙ to_holds

      pub exchange_dirs :
          f.found.is_dir ≡ true
          → rename_exchange a f.slot (some g.slot) c ≡ some (ok 0, exchanged c f g)
      unfolding rename_exchange load_slot load_node load store store_slot
      exchange_dirs b =
          ground
            (arith, from_holds, to_holds, from_there.stored, to_there.stored, d, b, still_there)

      pub exchange_refused :
          (o : Option Mqtt)
          → f.found.is_dir ≡ false
          → announce a f.found g.found.path c ≡ some (false, record c { mqtt = o })
          → rename_exchange a f.slot (some g.slot) c ≡ some (err eio, record c { mqtt = o })
      unfolding rename_exchange load_slot load_node load
      exchange_refused o b r =
          ground (arith, from_holds, to_holds, from_there.stored, to_there.stored, d, b, r)

      pub exchange_files :
          (o : Option Mqtt)
          → f.found.is_dir ≡ false
          → announce a f.found g.found.path c ≡ some (true, record c { mqtt = o })
          → rename_exchange a f.slot (some g.slot) c
            ≡ some (ok 0, record (exchanged c f g) { mqtt = o })
      unfolding rename_exchange load_slot load_node load store store_slot
      exchange_files o b r =
          ground
            (arith, from_holds, to_holds, from_there.stored, to_there.stored, d, b, r, still_there)
