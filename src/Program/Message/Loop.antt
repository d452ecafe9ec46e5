-- ===== src/Program/Message/Loop.antt =====
-- One round of the loop of `OnMqttMessage` over the parents of a topic.
use mqttfs.Base.{ℕ, suc, true, false, none, some, if◌then◌else◌, ◌==◌, ◌≡◌, arith}
use mqttfs.Str.{Str, IsStr, text, str_base_path}
use mqttfs.Node.{Node, node_create}
use mqttfs.Store.{
  Context, view, node, search, tsearch, load_slot, store_slot, load_node, load, allocate,
}
use mqttfs.Store.Search.{Found, lookup, IsValid, slot_of, search-find, find-IsFound, item_at-found}
use mqttfs.Store.Edit.{item_at-new, put_at-new}
use mqttfs.Store.Insert.{inserted}
use mqttfs.Program.Message.{MessageAnswers, complete, undo, ensure_parents}

module _ (a : MessageAnswers) (fuel i : ℕ) (base : Str) (c : Context) (v : IsValid c)
    (h : IsStr base) where
  searched : search c.nodes base c.root ≡ some (slot_of (lookup c (text base)))
  unfolding lookup
  searched = search-find c.nodes base c.root h v.entries

  pub parents_end :
      (base.size == 0) ≡ true → ensure_parents a (suc fuel) i base c ≡ some (complete, c)
  unfolding ensure_parents
  parents_end z = rw z

  pub parents_found :
      (f : Found)
      → (base.size == 0) ≡ false
      → lookup c (text base) ≡ some f
      → ensure_parents a (suc fuel) i base c
        ≡ some (if f.found.is_dir then complete else undo base, c)
  unfolding ensure_parents tsearch load_slot load_node load lookup
  parents_found f z e = ground (
    arith,
    searched,
    z,
    e,
    item_at-found c.nodes (text base) c.root f c.next 0 v.slots e v.entries,
    (find-IsFound c.nodes (text base) c.root f v.entries e).stored,
  )

  pub parents_new :
      (p : Node)
      → (base.size == 0) ≡ false
      → lookup c (text base) ≡ none
      → a.tree_grown i ≡ true
      → node_create (a.created i) base true ≡ some p
      → ensure_parents a (suc fuel) i base c
        ≡ ensure_parents a fuel (suc i) (str_base_path base) (inserted c p)
  unfolding ensure_parents tsearch load_slot store_slot allocate inserted
  parents_new p z e g m = ground (
    arith,
    searched,
    z,
    e,
    g,
    m,
    item_at-new c.next 0 c.root (view base) v.slots,
    put_at-new c.next 0 c.root (view base) (node (suc c.next)) v.slots,
  )
