-- ===== src/Maintenance/Filter.antt =====
-- modules/machine_maintenance.cpp: erasing the slots whose nodes pass a test, from the last slot
-- down, filters the map from ids to nodes.
use sparse_branch_machine.Base.{
  ℕ, suc, ◌+◌, ◌≤◌, ◌≡◌, refl, arith, ◌∙◌, Bool, true, false, ◌==◌, ==_iff, Bool-cases,
  Option-cases, inl, inr, if◌then◌else◌, Option, none, some, get_elem?, length,
}
use sparse_branch_machine.Base.Elements.{get_elem?-lt}
use sparse_branch_machine.Maintenance.{erase_slot}
use sparse_branch_machine.Maintenance.Erase.{
  node_of-erase_slot, erased_cases, length-erase_slot, last, final, at_last,
}
use sparse_branch_machine.Storage.{Node, Storage}
use sparse_branch_machine.Storage.Buckets.{node_of}
use sparse_branch_machine.Storage.Table.{IsIndexed, node_of-Holds, node_of-eq-some}

module _ {float : Type 0} (test : Node float → Bool) where
  -- What is left of a node.
  abbrev pub spared : Option (Node float) → Option (Node float)
  spared none = none
  spared (some node) = if test node then none else some node

  -- No node from a slot on passes.
  abbrev pub IsClean : ℕ → Storage float → Type 0
  IsClean k storage =
      (i : ℕ) (node : Node float)
      → k ≤ i
      → get_elem? storage.nodes i ≡ some node
      → test node ≡ false

  -- The storage after the erasures, as a filtered map, and the number of nodes taken.
  pub record IsFiltered (storage new : Storage float) (pruned total : ℕ) : Type 0 where
    pub indexed : IsIndexed new
    pub filtered : (id : ℕ) → node_of new id ≡ spared (node_of storage id)
    pub counted : total + length new.nodes ≡ pruned + length storage.nodes

  pub clean-IsFiltered :
      (storage : Storage float) (pruned : ℕ)
      → IsIndexed storage
      → IsClean 0 storage
      → IsFiltered storage storage pruned pruned
  clean-IsFiltered storage pruned v clean = record {
    indexed = v;
    filtered = λ id. elim (Option-cases (node_of storage id)) [
      | inl gone ↦ rw gone refl
      | inr (node, here) ↦
          let (i, at, named) = node_of-Holds storage id node here in
          rw (here, clean i node (omega arith) at) refl
    ];
    counted = refl;
  }

  module _ (storage : Storage float) (v : IsIndexed storage) (slot : ℕ) (victim : Node float)
      (at_slot : get_elem? storage.nodes slot ≡ some victim) (weak : test victim ≡ true) where
    pub IsClean-erase_slot : IsClean (suc slot) storage → IsClean slot (erase_slot storage slot)
    IsClean-erase_slot clean j n above e =
        let (below, place) = erased_cases storage v slot victim at_slot j n e in
        elim place [
          | inl (here, moved) ↦ rw moved (
              clean (last storage v slot victim at_slot) (final storage v slot victim at_slot)
                (omega arith) (at_last storage v slot victim at_slot))
          | inr (there, old) ↦ clean j n (omega arith) old
        ]

    pub spared-erase_slot :
        (id : ℕ) → spared (node_of (erase_slot storage slot) id) ≡ spared (node_of storage id)
    spared-erase_slot id =
        rw (node_of-erase_slot storage v slot victim at_slot id)
          (elim (Bool-cases (id == victim.id)) [
            | inl gone ↦
                let at : node_of storage id ≡ some victim =
                  node_of-eq-some storage v id victim (slot, at_slot, ground arith) in
                rw (gone, at, weak) refl
            | inr other ↦ rw other refl
          ])

    -- One erasure before a filtering is part of it.
    pub erased-IsFiltered :
        (new : Storage float) (pruned total : ℕ)
        → IsFiltered (erase_slot storage slot) new (pruned + 1) total
        → IsFiltered storage new pruned total
    erased-IsFiltered new pruned total rest = record {
      indexed = rest.indexed;
      filtered = λ id. rest.filtered id ∙ spared-erase_slot id;
      counted = omega (arith, rest.counted, length-erase_slot storage v slot victim at_slot);
    }

  -- The slot below is clean too, if its node does not pass.
  pub IsClean-missed :
      (storage : Storage float) (slot : ℕ)
      → ((node : Node float) → get_elem? storage.nodes slot ≡ some node → test node ≡ false)
      → IsClean (suc slot) storage
      → IsClean slot storage
  IsClean-missed storage slot miss clean i node above at = elim (Bool-cases (i == slot)) [
    | inl same ↦ miss node (rw (← (==_iff i slot).0 same) at)
    | inr other ↦ clean i node (ground arith) at
  ]

  pub IsClean-end : (storage : Storage float) → IsClean (length storage.nodes) storage
  IsClean-end storage i node above at = absurd (omega (arith, get_elem?-lt storage.nodes i at))
