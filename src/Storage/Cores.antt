-- ===== src/Storage/Cores.antt =====
-- The parts of the nodes that the indexes do not touch: all but `hot_indexed_` and `edges_`.
use mathlib.Core.Option
use sparse_branch_machine.Base.{
  ℕ, ◌≡◌, refl, sym, ap, ap₂, arith, ◌∙◌, false, Option-cases, inl, inr, Option, none, some, List,
  [], map, get_elem?, length, length-map,
}
use sparse_branch_machine.Base.Elements.{get_elem?-map}
use sparse_branch_machine.Storage.{Node, Storage, slot_of, slot_entry, checked_slot, contains}
use sparse_branch_machine.Storage.Buckets.{node_of, node_at}
use sparse_branch_machine.Storage.Table.{IsIndexed}

module _ {float : Type 0} where
  abbrev pub core : Node float → Node float
  core node = record node { hot_indexed = false; edges = [] }

  -- Two storages with the same table and, but for the indexes, the same nodes.
  pub record SameCores (old new : Storage float) : Type 0 where
    pub nodes : map core new.nodes ≡ map core old.nodes
    pub table : new.id_to_slot ≡ old.id_to_slot
    pub counter : new.next_id ≡ old.next_id

  pub SameCores-trans : (a b c : Storage float) → SameCores a b → SameCores b c → SameCores a c
  SameCores-trans a b c p q = record {
    nodes = q.nodes ∙ p.nodes;
    table = q.table ∙ p.table;
    counter = q.counter ∙ p.counter;
  }

  core_storage : Storage float → Storage float
  core_storage storage = record storage { nodes = map core storage.nodes }

  slot_of-core_storage :
      (storage : Storage float) (id : ℕ) → slot_of (core_storage storage) id ≡ slot_of storage id
  unfolding slot_of core_storage
  slot_of-core_storage storage id = entry (get_elem? storage.id_to_slot id)
    where
      checked :
          (slot : ℕ) (o : Option (Node float))
          → checked_slot id slot (Option.map core o) ≡ checked_slot id slot o
      checked slot none = refl
      checked slot (some n) = refl

      entry :
          (o : Option ℕ) → slot_entry (map core storage.nodes) id o ≡ slot_entry storage.nodes id o
      entry none = refl
      entry (some slot) =
          rw (get_elem?-map core storage.nodes slot) (checked slot (get_elem? storage.nodes slot))

  node_of-core_storage :
      (storage : Storage float) (id : ℕ)
      → node_of (core_storage storage) id ≡ Option.map core (node_of storage id)
  unfolding node_of core_storage
  node_of-core_storage storage id =
      rw (slot_of-core_storage storage id) (place (slot_of storage id))
    where
      place :
          (o : Option ℕ)
          → node_at (map core storage.nodes) o ≡ Option.map core (node_at storage.nodes o)
      place none = refl
      place (some slot) = get_elem?-map core storage.nodes slot

  module _ (old new : Storage float) (c : SameCores old new) where
    slot_of-cores : (id : ℕ) → slot_of (core_storage new) id ≡ slot_of (core_storage old) id
    unfolding slot_of core_storage
    slot_of-cores id =
        ap₂
          (λ (nodes : List (Node float)) (table : List ℕ). slot_entry nodes id (get_elem? table id))
          c.nodes c.table

    pub slot_of-SameCores : (id : ℕ) → slot_of new id ≡ slot_of old id
    slot_of-SameCores id =
        sym (slot_of-core_storage new id) ∙ slot_of-cores id ∙ slot_of-core_storage old id

    pub contains-SameCores : (id : ℕ) → contains new id ≡ contains old id
    unfolding contains
    contains-SameCores id = rw (slot_of-SameCores id, contains) refl

    node_of-cores : (id : ℕ) → node_of (core_storage new) id ≡ node_of (core_storage old) id
    unfolding node_of core_storage
    node_of-cores id =
        ap₂ (λ (nodes : List (Node float)) (o : Option ℕ). node_at nodes o) c.nodes
          (slot_of-cores id)

    pub node_of-SameCores :
        (id : ℕ) → Option.map core (node_of new id) ≡ Option.map core (node_of old id)
    node_of-SameCores id =
        sym (node_of-core_storage new id) ∙ node_of-cores id ∙ node_of-core_storage old id

    pub length-SameCores : length new.nodes ≡ length old.nodes
    length-SameCores =
        sym (length-map core new.nodes) ∙ ap length c.nodes ∙ length-map core old.nodes

    -- A node of the new storage has the core of the node in its slot before.
    core_before :
        (i : ℕ) (n : Node float)
        → get_elem? new.nodes i ≡ some n
        → (m : Node float) × (get_elem? old.nodes i ≡ some m) × (m.id ≡ n.id)
    core_before i n e = elim (Option-cases (get_elem? old.nodes i)) [
      | inl gone ↦ let h : some (core n) ≡ none = rw (e, gone) at both in absurd (cc)
      | inr (m, here) ↦
          let h : some (core n) ≡ some (core m) = rw (e, here) at both in (m, here, ground arith)
    ]
      where
        both : Option.map core (get_elem? new.nodes i) ≡ Option.map core (get_elem? old.nodes i)
        both =
            sym (get_elem?-map core new.nodes i)
            ∙ ap (λ (nodes : List (Node float)). get_elem? nodes i) c.nodes
            ∙ get_elem?-map core old.nodes i

    pub IsIndexed-SameCores : IsIndexed old → IsIndexed new
    IsIndexed-SameCores v = record {
      fresh = λ i n e.
          let (m, at, named) = core_before i n e in omega (arith, v.fresh i m at, named, c.counter);
      few = omega (arith, length-SameCores, c.counter, v.few);
      bounded = omega (arith, c.counter, v.bounded);
      sound =
          λ i n e. let (m, at, named) = core_before i n e in rw (c.table, ← named) (v.sound i m at);
    }
