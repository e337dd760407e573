-- ===== src/Maintenance/Prune.antt =====
-- modules/machine_maintenance.cpp: `prune` is a filter on the map from ids to nodes.
use mathlib.Core.Option
use sparse_branch_machine.Base.{
  ℕ, zero, suc, ◌+◌, ◌%◌, ◌^◌, ◌≡◌, refl, ap, arith, ◌∙◌, Bool, true, false, ◌==◌, Bool-cases,
  Option-cases, inl, inr, some, get_elem?, length,
}
use sparse_branch_machine.Maintenance.{
  erase_slot, is_prunable, prunable_at, prune_loop, prune, rebuild_indexes,
}
use sparse_branch_machine.Maintenance.Erase.{erase_slot-IsIndexed}
use sparse_branch_machine.Maintenance.Rebuild.{rebuild_indexes-SameCores}
use sparse_branch_machine.Storage.{FloatTests, Node, StorageConfig, Storage}
use sparse_branch_machine.Storage.Buckets.{node_of}
use sparse_branch_machine.Storage.Cores.{
  core, SameCores, SameCores-trans, node_of-SameCores, length-SameCores, IsIndexed-SameCores,
}
use sparse_branch_machine.Storage.Table.{IsIndexed}
use sparse_branch_machine.Maintenance.Filter.{
  spared, IsClean, IsFiltered, clean-IsFiltered, IsClean-erase_slot, erased-IsFiltered,
  IsClean-missed, IsClean-end,
}

module _ {float : Type 0} (floats : FloatTests float) (min_visits : ℕ)
    (utility_threshold : float) where
  abbrev pub prunable : Node float → Bool
  prunable node = is_prunable floats min_visits utility_threshold node

  hit_node :
      (storage : Storage float) (slot : ℕ)
      → prunable_at floats min_visits utility_threshold storage slot ≡ true
      → (victim : Node float) × (get_elem? storage.nodes slot ≡ some victim)
        × (is_prunable floats min_visits utility_threshold victim ≡ true)
  unfolding prunable_at
  hit_node storage slot e = elim (Option-cases (get_elem? storage.nodes slot)) [
    | inl gone ↦ let no : false ≡ true = rw (gone, prunable_at) at e in absurd (cc)
    | inr (victim, here) ↦ (victim, here, rw (here, prunable_at) at e)
  ]

  miss_node :
      (storage : Storage float) (slot : ℕ)
      → prunable_at floats min_visits utility_threshold storage slot ≡ false
      → (node : Node float) → get_elem? storage.nodes slot ≡ some node
      → prunable node ≡ false
  unfolding prunable_at
  miss_node storage slot e node here = rw (here, prunable_at) at e

  pub prune_loop-IsFiltered :
      (k : ℕ) (storage : Storage float) (pruned : ℕ)
      → IsIndexed storage
      → IsClean prunable k storage
      → let after = prune_loop floats min_visits utility_threshold k storage pruned in
        IsFiltered prunable storage after.0 pruned after.1
  unfolding prune_loop
  prune_loop-IsFiltered zero storage pruned v clean =
      clean-IsFiltered prunable storage pruned v clean
  prune_loop-IsFiltered (suc slot) storage pruned v clean =
      elim (Bool-cases (prunable_at floats min_visits utility_threshold storage slot)) [
        | inr miss ↦
            rw (miss, prune_loop)
              (prune_loop-IsFiltered slot storage pruned v
                (IsClean-missed prunable storage slot (miss_node storage slot miss) clean))
        | inl hit ↦
            let (node, here, weak) = hit_node storage slot hit in
            rw (hit, prune_loop)
              (erased-IsFiltered prunable storage v slot node here weak _ pruned _ (
                prune_loop-IsFiltered slot (erase_slot storage slot) (pruned + 1)
                  (erase_slot-IsIndexed storage v slot node here)
                  (IsClean-erase_slot prunable storage v slot node here weak clean)))
      ]

  -- Pruning a well-formed storage leaves a well-formed one that, as a map from ids to nodes, is the
  -- old map without the nodes of few visits and low utility; the hot marks and the edges apart,
  -- every other node is unchanged. The number returned is the number of nodes that went.
  pub prune-filters :
      (config : StorageConfig) (storage : Storage float)
      → IsIndexed storage
      → let after = prune floats config min_visits utility_threshold storage in
        IsIndexed after.0
        × ((id : ℕ)
            → Option.map core (node_of after.0 id)
              ≡ Option.map core (spared prunable (node_of storage id)))
        × (after.1 + length after.0.nodes ≡ length storage.nodes)
  unfolding prune
  prune-filters config storage v = elim (Bool-cases (rest.1 == 0)) [
    | inl none_gone ↦
        rw none_gone (finish counted (record { nodes = refl; table = refl; counter = refl }))
    | inr some_gone ↦ rw some_gone (
        finish (rebuild_indexes floats config counted) (
          SameCores-trans rest.0 counted _ (record { nodes = refl; table = refl; counter = refl })
            (rebuild_indexes-SameCores floats config counted)))
  ]
    where
      rest : Storage float × ℕ
      rest = prune_loop floats min_visits utility_threshold (length storage.nodes) storage 0

      counted : Storage float
      counted = record rest.0 { total_pruned = (rest.0.total_pruned + rest.1) % 2 ^ 64 }

      done : IsFiltered prunable storage rest.0 0 rest.1
      done = prune_loop-IsFiltered (length storage.nodes) storage 0 v (IsClean-end prunable storage)

      finish :
          (new : Storage float)
          → SameCores rest.0 new
          → IsIndexed new
            × ((id : ℕ)
                → Option.map core (node_of new id)
                  ≡ Option.map core (spared prunable (node_of storage id)))
            × (rest.1 + length new.nodes ≡ length storage.nodes)
      finish new c = (
        IsIndexed-SameCores rest.0 new c done.indexed,
        λ id. node_of-SameCores rest.0 new c id ∙ ap (Option.map core) (done.filtered id),
        omega (arith, length-SameCores rest.0 new c, done.counted),
      )
