-- ===== src/Fs/Make/Laws.antt =====
-- `MqttfsMkdir` and `MqttfsCreate` against the map of the tree.
use mqttfs.Base.{ℕ, suc, List, Bool, true, false, none, some, ◌≡◌, arith, drop}
use mqttfs.Str.{Str, text, str_view}
use mqttfs.Str.Copy.{str_view-IsStr}
use mqttfs.Node.{Node, node_create}
use mqttfs.Store.{
  Context, view, node, search, tsearch, tdelete, load_slot, store_slot, allocate, ok, err, eio,
  eexist,
}
use mqttfs.Store.Search.{Found, find, IsValid, slot_of, search-find, item_at-found}
use mqttfs.Store.Edit.{item_at-new, put_at-new, without-new, search-new}
use mqttfs.Store.Insert.{inserted}
use mqttfs.Fs.Make.{MakeAnswers, make}

module _ (a : MakeAnswers) (is_dir : Bool) (path : List ℕ) (c : Context) (v : IsValid c) where
  abbrev pub key : Str
  key = str_view (drop 1 path)

  searched : search c.nodes key c.root ≡ some (slot_of (find c.nodes (text key) c.root))
  searched = search-find c.nodes key c.root (str_view-IsStr (drop 1 path)) v.entries

  pub make_unlocked : a.locked ≡ false → make a is_dir path c ≡ some ((err eio, none), c)
  unfolding make
  make_unlocked l = ground arith

  pub make_found :
      (f : Found)
      → a.locked ≡ true
      → find c.nodes (text key) c.root ≡ some f
      → make a is_dir path c ≡ some ((err eexist, none), c)
  unfolding make tsearch load_slot
  make_found f l e =
      ground
        (arith, searched, item_at-found c.nodes (text key) c.root f c.next 0 v.slots e v.entries)

  pub make_no_room :
      a.locked ≡ true
      → find c.nodes (text key) c.root ≡ none
      → a.tree_grown ≡ false
      → make a is_dir path c ≡ some ((err eio, none), c)
  unfolding make tsearch
  make_no_room l e g = ground (arith, searched)

  pub make_no_node :
      a.locked ≡ true
      → find c.nodes (text key) c.root ≡ none
      → a.tree_grown ≡ true
      → node_create a.created key is_dir ≡ none
      → make a is_dir path c ≡ some ((err eio, none), record c { next = suc c.next })
  unfolding make tsearch load_slot tdelete
  make_no_node l e g m = ground (
    arith,
    searched,
    m,
    item_at-new c.next 0 c.root (view key) v.slots,
    without-new c.next 0 c.root (view key) v.slots,
    search-new c.nodes key c.root c.next (str_view-IsStr (drop 1 path)),
  )

  pub make_new :
      (n : Node)
      → a.locked ≡ true
      → find c.nodes (text key) c.root ≡ none
      → a.tree_grown ≡ true
      → node_create a.created key is_dir ≡ some n
      → make a is_dir path c ≡ some ((ok 0, some (suc c.next)), inserted c n)
  unfolding make tsearch load_slot store_slot allocate inserted
  make_new n l e g m = ground (
    arith,
    searched,
    m,
    item_at-new c.next 0 c.root (view key) v.slots,
    put_at-new c.next 0 c.root (view key) (node (suc c.next)) v.slots,
  )
