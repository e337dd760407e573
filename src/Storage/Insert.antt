-- ===== src/Storage/Insert.antt =====
-- modules/machine_storage.cpp: `new_node` adds one node to the map under an id that was not in it.
use sparse_branch_machine.Base.{
  ℕ, ◌+◌, ◌-◌, ◌%◌, ◌^◌, ◌≤◌, ◌<◌, ◌≡◌, ◌≢◌, ◌⊎◌, refl, arith, true, false, ◌&&◌, ◌||◌, not, ltb,
  leb, ◌==◌, Bool-cases, Option-cases, ◌↔◌, inl, inr, if◌then◌else◌, none, some, List, [], ◌∷◌,
  get_elem?, replicate, length, length-append, length-replicate, ok, throw, overflow_error,
  out_of_range,
}
use sparse_branch_machine.Base.Elements.{
  Option-ext, get_elem?-lt, get_elem?-set, get_elem?-snoc, get_elem?-append,
}
use sparse_branch_machine.Storage.{
  FloatTests, Node, StorageConfig, Storage, invalid_node, insert_node, grown, new_node, fresh_node,
}
use sparse_branch_machine.Storage.Buckets.{node_of}
use sparse_branch_machine.Storage.Table.{IsIndexed, node_of-Holds, node_of-eq-some}
use sparse_branch_machine.Topology.{ChannelState, channel_enabled}

get_elem?-grown :
    (id : ℕ) (table : List ℕ) (k slot : ℕ)
    → get_elem? table k ≡ some slot
    → get_elem? (grown id table) k ≡ some slot
get_elem?-grown id table k slot e = elim (Bool-cases (leb (length table) id)) [
  | inl short ↦ rw short (get_elem?-append table _ k e)
  | inr long ↦ rw long e
]

length-grown : (id : ℕ) (table : List ℕ) → id < length (grown id table)
length-grown id table = elim (Bool-cases (leb (length table) id)) [
  | inl short ↦
      let le : length table ≤ id = ground arith in
      let fill : List ℕ = replicate (id + 1 - length table) invalid_node in
      rw short (
        omega
          (arith, length-append table fill, length-replicate (id + 1 - length table) invalid_node))
  | inr long ↦ rw long (ground arith)
]

module _ {float : Type 0} (config : StorageConfig) (storage : Storage float) (v : IsIndexed storage)
    (node : Node float) (same : node.id ≡ storage.next_id)
    (left : storage.next_id ≢ invalid_node) where
  next_small : storage.next_id < invalid_node
  next_small = omega (arith, v.bounded)

  next_id-insert_node : (insert_node config storage node).next_id ≡ storage.next_id + 1
  unfolding insert_node
  next_id-insert_node = omega (arith, next_small)

  slot_small : length storage.nodes % 2 ^ 32 ≡ length storage.nodes
  slot_small = omega (arith, v.few, next_small)

  nodes-insert_node :
      (j : ℕ)
      → get_elem? (insert_node config storage node).nodes j
        ≡ (if j == length storage.nodes then some node else get_elem? storage.nodes j)
  unfolding insert_node
  nodes-insert_node j = get_elem?-snoc storage.nodes node j

  table-insert_node :
      (k : ℕ)
      → get_elem? (insert_node config storage node).id_to_slot k ≡ (
          if node.id == k && ltb k (length (grown node.id storage.id_to_slot))
          then some (length storage.nodes)
          else get_elem? (grown node.id storage.id_to_slot) k)
  unfolding insert_node
  table-insert_node k =
      rw slot_small
        (get_elem?-set (grown node.id storage.id_to_slot) node.id k (length storage.nodes))

  -- Both the index and the node that a new list has come from the old one, or are the new ones.
  inserted_cases :
      (j : ℕ) (n : Node float)
      → get_elem? (insert_node config storage node).nodes j ≡ some n
      → ((j ≡ length storage.nodes) × (n ≡ node)) ⊎ (get_elem? storage.nodes j ≡ some n)
  inserted_cases j n e = elim (Bool-cases (j == length storage.nodes)) [
    | inl new ↦
        let h : some node ≡ some n = rw (nodes-insert_node j, new) at e in inl (ground arith, cc)
    | inr old ↦ inr (rw (nodes-insert_node j, old) at e)
  ]

  sound-insert_node :
      (j : ℕ) (n : Node float)
      → get_elem? (insert_node config storage node).nodes j ≡ some n
      → get_elem? (insert_node config storage node).id_to_slot n.id ≡ some j
  sound-insert_node j n e = elim (inserted_cases j n e) [
    | inl (at, new) ↦
        rw (table-insert_node n.id, new, at)
          (ground (arith, length-grown node.id storage.id_to_slot))
    | inr old ↦
        let lt : n.id < storage.next_id = v.fresh j n old in
        let other : (node.id == n.id) ≡ false = ground arith in
        rw (table-insert_node n.id, other)
          (get_elem?-grown node.id storage.id_to_slot n.id j (v.sound j n old))
  ]

  length-insert_node : length (insert_node config storage node).nodes ≡ length storage.nodes + 1
  unfolding insert_node
  length-insert_node = length-append storage.nodes (node ∷ [])

  pub insert_node-IsIndexed : IsIndexed (insert_node config storage node)
  insert_node-IsIndexed = record {
    fresh = λ j n e. elim (inserted_cases j n e) [
      | inl (at, new) ↦ rw (next_id-insert_node, new) (omega arith)
      | inr old ↦ omega (arith, next_id-insert_node, v.fresh j n old)
    ];
    few = omega (arith, next_id-insert_node, length-insert_node, v.few);
    bounded = omega (arith, next_id-insert_node, next_small);
    sound = sound-insert_node;
  }

  pub node_of-insert_node :
      (id : ℕ)
      → node_of (insert_node config storage node) id
        ≡ (if id == storage.next_id then some node else node_of storage id)
  node_of-insert_node id = Option-ext _ _ forth back
    where
      forth :
          (a : Node float)
          → node_of (insert_node config storage node) id ≡ some a
          → (if id == storage.next_id then some node else node_of storage id) ≡ some a
      forth a e =
          let (j, at, named) = node_of-Holds (insert_node config storage node) id a e in
          elim (inserted_cases j a at) [
            | inl (place, new) ↦ ground arith
            | inr old ↦
                let lt : a.id < storage.next_id = v.fresh j a old in
                let other : (id == storage.next_id) ≡ false = ground arith in
                rw other (node_of-eq-some storage v id a (j, old, named))
          ]

      back :
          (a : Node float)
          → (if id == storage.next_id then some node else node_of storage id) ≡ some a
          → node_of (insert_node config storage node) id ≡ some a
      back a e = elim (Bool-cases (id == storage.next_id)) [
        | inl new ↦
            let h : some node ≡ some a = rw new at e in
            node_of-eq-some (insert_node config storage node) insert_node-IsIndexed id a (
              length storage.nodes,
              rw (nodes-insert_node (length storage.nodes)) (ground arith),
              ground arith,
            )
        | inr other ↦
            let h : node_of storage id ≡ some a = rw other at e in
            let (j, at, named) = node_of-Holds storage id a h in
            let below : j < length storage.nodes = get_elem?-lt storage.nodes j at in
            node_of-eq-some (insert_node config storage node) insert_node-IsIndexed id a
              (j, rw (nodes-insert_node j) (ground arith), named)
      ]

module _ {float double : Type 0} (topology : List (ChannelState float double)) (channel : ℕ) where
  enabled_in_range : channel_enabled topology channel ≡ true → channel < length topology
  unfolding channel_enabled
  enabled_in_range h = elim (Option-cases (get_elem? topology channel)) [
    | inl gone ↦ let no : false ≡ true = rw (gone, channel_enabled) at h in absurd (cc)
    | inr (state, e) ↦ get_elem?-lt topology channel e
  ]

  enabled_test :
      (leb (length topology) channel || not (channel_enabled topology channel))
      ≡ not (channel_enabled topology channel)
  enabled_test = elim (Bool-cases (channel_enabled topology channel)) [
    | inl on ↦ let lt : channel < length topology = enabled_in_range on in ground arith
    | inr off ↦ ground arith
  ]

  module _ (floats : FloatTests float) (config : StorageConfig) (storage : Storage float)
      (signature : ℕ) (initial : List float) (parent : ℕ) where
    -- While an id is left and the channel is enabled, `new_node` returns the next id, which no node
    -- had before; the new storage is well formed, and as a map from ids to nodes it is the old map
    -- with the fresh node under that id.
    pub new_node-inserts :
        IsIndexed storage
        → storage.next_id ≢ invalid_node
        → channel_enabled topology channel ≡ true
        → (next : Storage float) × (new_node floats config topology storage signature initial parent
              channel
            ≡ ok (next, storage.next_id))
          × IsIndexed next
          × (node_of storage storage.next_id ≡ none)
          × ((id : ℕ)
              → node_of next id ≡ (
                  if id == storage.next_id
                  then some
                      (fresh_node floats config storage.next_id signature initial parent channel)
                  else node_of storage id))
    unfolding new_node
    new_node-inserts v left on = (
      insert_node config storage node,
      rw (unused, enabled_test, on) refl,
      insert_node-IsIndexed config storage v node refl left,
      Option-ext _ _ forth (λ a e. absurd (cc)),
      node_of-insert_node config storage v node refl left,
    )
      where
        node : Node float
        node = fresh_node floats config storage.next_id signature initial parent channel

        unused : (storage.next_id == invalid_node) ≡ false
        unused = ground arith

        forth : (a : Node float) → node_of storage storage.next_id ≡ some a → none ≡ some a
        forth a e =
            let (j, at, named) = node_of-Holds storage storage.next_id a e in
            absurd (omega (arith, v.fresh j a at))

    -- `new_node` throws `overflow_error` exactly when the ids are used up, and `out_of_range`
    -- exactly when an id is left and the channel is not enabled.
    pub new_node-refuses :
        ((new_node floats config topology storage signature initial parent channel
            ≡ throw overflow_error)
          ↔ (storage.next_id ≡ invalid_node))
        × ((new_node floats config topology storage signature initial parent channel
              ≡ throw out_of_range)
            ↔ ((storage.next_id ≢ invalid_node) × (channel_enabled topology channel ≡ false)))
    unfolding new_node
    new_node-refuses = rw enabled_test (elim (Bool-cases (storage.next_id == invalid_node)) [
      | inl used ↦ rw used (ground arith)
      | inr unused ↦ elim (Bool-cases (channel_enabled topology channel)) [
        | inl on ↦ rw (unused, on) (ground arith)
        | inr off ↦ rw (unused, off) (ground arith)
      ]
    ])
