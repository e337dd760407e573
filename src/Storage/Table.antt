-- ===== src/Storage/Table.antt =====
-- The table from ids to slots and the nodes agree, and the nodes are a finite map.
use sparse_branch_machine.Base.{
  ℕ, ◌≤◌, ◌<◌, ◌≡◌, ◌∙◌, refl, sym, arith, ◌||◌, not, ◌==◌, Bool-cases, inl, inr, Option, none,
  some, get_elem?, length,
}
use sparse_branch_machine.Base.Elements.{get_elem?-lt}
use sparse_branch_machine.Storage.{Node, Storage, slot_of, slot_entry, checked_slot, invalid_node}
use sparse_branch_machine.Storage.Buckets.{node_of, node_at}

module _ {float : Type 0} where
  -- Ids are below the next one, which is a 32-bit number, and the table has each node's slot.
  pub record IsIndexed (storage : Storage float) : Type 0 where
    pub fresh :
        (i : ℕ) (node : Node float)
        → get_elem? storage.nodes i ≡ some node
        → node.id < storage.next_id
    pub few : length storage.nodes ≤ storage.next_id
    pub bounded : storage.next_id ≤ invalid_node
    pub sound :
        (i : ℕ) (node : Node float)
        → get_elem? storage.nodes i ≡ some node
        → get_elem? storage.id_to_slot node.id ≡ some i

  -- A node of the storage under its id.
  abbrev pub Holds : Storage float → ℕ → Node float → Type 0
  Holds storage id node = (i : ℕ) × (get_elem? storage.nodes i ≡ some node) × (node.id ≡ id)

  module _ (storage : Storage float) where
    pub slot_of-eq-some :
        IsIndexed storage
        → (i : ℕ) (node : Node float) → get_elem? storage.nodes i ≡ some node
        → slot_of storage node.id ≡ some i
    unfolding slot_of
    slot_of-eq-some v i node e =
        let small : i < invalid_node =
          omega (arith, get_elem?-lt storage.nodes i e, v.few, v.bounded) in
        rw (v.sound i node e, slot_entry, e) (ground arith)

    -- What the checks on the table's entry give, without any invariant.
    pub node_of-Holds :
        (id : ℕ) (node : Node float) → node_of storage id ≡ some node → Holds storage id node
    unfolding node_of slot_of
    node_of-Holds id node = table (get_elem? storage.id_to_slot id)
      where
        entry :
            (slot : ℕ) (o : Option (Node float))
            → get_elem? storage.nodes slot ≡ o
            → node_at storage.nodes (checked_slot id slot o) ≡ some node
            → Holds storage id node
        entry slot none f e = absurd (cc)
        entry slot (some n) f e = elim (Bool-cases (slot == invalid_node || not (n.id == id))) [
          | inl bad ↦ let gone : none ≡ some node = rw bad at e in absurd (cc)
          | inr good ↦
              let kept : get_elem? storage.nodes slot ≡ some node = rw good at e in
              (slot, kept, ground arith)
        ]

        table :
            (o : Option ℕ)
            → node_at storage.nodes (slot_entry storage.nodes id o) ≡ some node
            → Holds storage id node
        table none e = absurd (cc)
        table (some slot) e = entry slot (get_elem? storage.nodes slot) refl e

    pub node_of-eq-some :
        IsIndexed storage
        → (id : ℕ) (node : Node float) → Holds storage id node
        → node_of storage id ≡ some node
    unfolding node_of
    node_of-eq-some v id node (i, e, same) =
        rw (← same) (rw (slot_of-eq-some v i node e, node_at) e)

    -- No two slots have nodes of one id.
    pub ids_injective :
        IsIndexed storage
        → (i j : ℕ) (a b : Node float) → get_elem? storage.nodes i ≡ some a
        → get_elem? storage.nodes j ≡ some b
        → a.id ≡ b.id
        → i ≡ j
    ids_injective v i j a b ea eb same =
        let h : some i ≡ some j = sym (v.sound i a ea) ∙ rw same (v.sound j b eb) in cc
