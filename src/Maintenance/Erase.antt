-- ===== src/Maintenance/Erase.antt =====
-- modules/machine_maintenance.cpp: `erase_slot` takes one node out of the map, though it moves
-- another one to the slot.
use sparse_branch_machine.Base.{
  ℕ, ◌+◌, ◌-◌, ◌%◌, ◌^◌, ◌<◌, ◌≡◌, ◌≢◌, refl, sym, ap, arith, false, ◌&&◌, ltb, ◌==◌, not, ◌∙◌,
  ==_iff, Bool-cases, inl, inr, ◌⊎◌, if◌then◌else◌, none, some, get_elem?, get_or, set, length,
  length-set,
}
use sparse_branch_machine.Base.Elements.{
  Option-ext, get_elem?-lt, get_elem?-set, get_elem?-pop_back, length-pop_back, get_elem?-get_or,
}
use sparse_branch_machine.Maintenance.{erase_slot, erase_node}
use sparse_branch_machine.Storage.{Node, Storage, invalid_node}
use sparse_branch_machine.Storage.Buckets.{node_of}
use sparse_branch_machine.Storage.Table.{
  IsIndexed, Holds, node_of-Holds, node_of-eq-some, ids_injective,
}

module _ {float : Type 0} (storage : Storage float) (v : IsIndexed storage) (slot : ℕ)
    (victim : Node float) (at_slot : get_elem? storage.nodes slot ≡ some victim) where
  abbrev pub last : ℕ
  last = length storage.nodes - 1

  abbrev pub final : Node float
  final = get_or storage.nodes (length storage.nodes - 1) victim

  pub erase_slot-eq : erase_slot storage slot ≡ erase_node storage slot victim final
  unfolding erase_slot
  erase_slot-eq = rw (at_slot, erase_slot) refl

  in_range : slot < length storage.nodes
  in_range = get_elem?-lt storage.nodes slot at_slot

  pub at_last : get_elem? storage.nodes last ≡ some final
  at_last =
      get_elem?-get_or storage.nodes (length storage.nodes - 1) victim (omega (arith, in_range))

  -- The nodes after the erasure, in both of its cases.
  pub nodes-erase_slot :
      (j : ℕ)
      → get_elem? (erase_slot storage slot).nodes j ≡ (
          if ltb (j + 1) (length storage.nodes)
          then (if j == slot then some final else get_elem? storage.nodes j)
          else none)
  nodes-erase_slot j = rw erase_slot-eq (elim (Bool-cases (slot == length storage.nodes - 1)) [
    | inl stays ↦ rw (stays, get_elem?-pop_back storage.nodes j) (ground arith)
    | inr moves ↦
        rw
          (
            moves,
            get_elem?-pop_back (set storage.nodes slot final) j,
            length-set storage.nodes slot final,
            get_elem?-set storage.nodes slot j final,
          )
          (ground (arith, in_range))
  ])

  pub length-erase_slot : length (erase_slot storage slot).nodes + 1 ≡ length storage.nodes
  length-erase_slot = rw erase_slot-eq (elim (Bool-cases (slot == length storage.nodes - 1)) [
    | inl stays ↦ rw stays (omega (arith, length-pop_back storage.nodes, in_range))
    | inr moves ↦ rw moves (
        omega (
          arith,
          length-pop_back (set storage.nodes slot final),
          length-set storage.nodes slot final,
          in_range,
        ))
  ])

  -- A node after the erasure, with its place before.
  pub erased_cases :
      (j : ℕ) (n : Node float)
      → get_elem? (erase_slot storage slot).nodes j ≡ some n
      → (j + 1 < length storage.nodes)
        × (((j ≡ slot) × (n ≡ final)) ⊎ ((j ≢ slot) × (get_elem? storage.nodes j ≡ some n)))
  erased_cases j n e = elim (Bool-cases (ltb (j + 1) (length storage.nodes))) [
    | inl below ↦ elim (Bool-cases (j == slot)) [
      | inl here ↦
          let h : some final ≡ some n = rw (nodes-erase_slot j, below, here) at e in
          (ground arith, inl (ground arith, cc))
      | inr there ↦ (ground arith, inr (ground arith, rw (nodes-erase_slot j, below, there) at e))
    ]
    | inr above ↦ let h : none ≡ some n = rw (nodes-erase_slot j, above) at e in absurd (cc)
  ]

  table-erase_slot :
      (k : ℕ)
      → k ≢ victim.id
      → get_elem? (erase_slot storage slot).id_to_slot k ≡ (
          if k == final.id && not (slot == last) then some slot else get_elem? storage.id_to_slot k)
  table-erase_slot k other = rw erase_slot-eq (elim (Bool-cases (slot == last)) [
    | inl stays ↦
        rw (stays, get_elem?-set storage.id_to_slot victim.id k invalid_node) (ground arith)
    | inr moves ↦
        let small : slot % 2 ^ 32 ≡ slot = omega (arith, in_range, v.few, v.bounded) in
        let wide : final.id < length storage.id_to_slot =
          get_elem?-lt storage.id_to_slot final.id (v.sound last final at_last) in
        rw
          (
            moves,
            small,
            get_elem?-set (set storage.id_to_slot final.id slot) victim.id k invalid_node,
            get_elem?-set storage.id_to_slot final.id k slot,
          )
          (ground arith)
  ])

  sound-erase_slot :
      (j : ℕ) (n : Node float)
      → get_elem? (erase_slot storage slot).nodes j ≡ some n
      → (n.id ≢ victim.id) × (get_elem? (erase_slot storage slot).id_to_slot n.id ≡ some j)
  sound-erase_slot j n e =
      let (below, place) = erased_cases j n e in
      elim place [
        | inl (here, moved) ↦
            let other : n.id ≢ victim.id = λ same. absurd (
              omega (
                arith,
                ids_injective storage v last slot final victim at_last at_slot
                    (sym (ap (λ (m : Node float). m.id) moved) ∙ same),
              )) in
            let named : n.id ≡ final.id = ap (λ (m : Node float). m.id) moved in
            let moves : slot ≢ last = omega (arith, here) in
            (other, rw (table-erase_slot n.id other) (ground arith))
        | inr (there, old) ↦
            let other : n.id ≢ victim.id =
              λ same. there (ids_injective storage v j slot n victim old at_slot same) in
            let not_last : n.id ≢ final.id = λ same.
              absurd (omega (arith, ids_injective storage v j last n final old at_last same)) in
            (other, rw (table-erase_slot n.id other) (ground (arith, v.sound j n old)))
      ]

  -- The nodes that are left were nodes before.
  pub erased_old :
      (j : ℕ) (n : Node float)
      → get_elem? (erase_slot storage slot).nodes j ≡ some n
      → Holds storage n.id n
  erased_old j n e = elim (erased_cases j n e).1 [
    | inl (here, moved) ↦ rw moved (last, at_last, refl)
    | inr (there, old) ↦ (j, old, refl)
  ]

  next_id-erase_slot : (erase_slot storage slot).next_id ≡ storage.next_id
  next_id-erase_slot = rw erase_slot-eq refl

  pub erase_slot-IsIndexed : IsIndexed (erase_slot storage slot)
  erase_slot-IsIndexed = record {
    fresh = λ j n e.
        let (i, at, named) = erased_old j n e in omega (arith, next_id-erase_slot, v.fresh i n at);
    few = omega (arith, next_id-erase_slot, length-erase_slot, v.few);
    bounded = omega (arith, next_id-erase_slot, v.bounded);
    sound = λ j n e. (sound-erase_slot j n e).1;
  }

  -- Every node but the victim keeps a place.
  kept_place :
      (i : ℕ) (n : Node float)
      → get_elem? storage.nodes i ≡ some n
      → n.id ≢ victim.id
      → Holds (erase_slot storage slot) n.id n
  kept_place i n e other =
      let there : i ≢ slot = λ same. other (named (rw (← same) e)) in
      elim (Bool-cases (i == last)) [
        | inl tail ↦
            let at : i ≡ last = (==_iff i last).0 tail in
            let same : n ≡ final =
              (let both : some n ≡ some final =
                  sym e ∙ ap (λ (k : ℕ). get_elem? storage.nodes k) at ∙ at_last in
                cc) in
            (slot, rw (nodes-erase_slot slot, same) (ground (arith, in_range)), refl)
        | inr body ↦
            (i, rw (nodes-erase_slot i) (ground (arith, get_elem?-lt storage.nodes i e)), refl)
      ]
    where
      named : get_elem? storage.nodes slot ≡ some n → n.id ≡ victim.id
      named h = let same : some n ≡ some victim = sym h ∙ at_slot in cc

  -- As a map from ids to nodes, the storage after the erasure lacks the victim and nothing else.
  pub node_of-erase_slot :
      (id : ℕ)
      → node_of (erase_slot storage slot) id
        ≡ (if id == victim.id then none else node_of storage id)
  node_of-erase_slot id = Option-ext _ _ forth back
    where
      forth :
          (a : Node float)
          → node_of (erase_slot storage slot) id ≡ some a
          → (if id == victim.id then none else node_of storage id) ≡ some a
      forth a e =
          let (j, at, named) = node_of-Holds (erase_slot storage slot) id a e in
          let other : (id == victim.id) ≡ false = ground (arith, (sound-erase_slot j a at).0) in
          let (i, before, same) = erased_old j a at in
          rw other (node_of-eq-some storage v id a (i, before, named))

      back :
          (a : Node float)
          → (if id == victim.id then none else node_of storage id) ≡ some a
          → node_of (erase_slot storage slot) id ≡ some a
      back a e = elim (Bool-cases (id == victim.id)) [
        | inl gone ↦ let h : none ≡ some a = rw gone at e in absurd (cc)
        | inr other ↦
            let h : node_of storage id ≡ some a = rw other at e in
            let (i, at, named) = node_of-Holds storage id a h in
            let (j, place, same) = kept_place i a at (ground arith) in
            node_of-eq-some (erase_slot storage slot) erase_slot-IsIndexed id a (j, place, named)
      ]
