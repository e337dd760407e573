-- ===== src/Maintenance.antt =====
-- modules/machine_maintenance.cpp: `erase_slot`, `prune`, `rebuild_indexes` and
-- `prefill_distractors`.
pub mod Erase
pub mod Rebuild
pub mod Filter
pub mod Prune
use sparse_branch_machine.Base.{
  ℕ, zero, suc, ◌+◌, ◌-◌, ◌%◌, ◌^◌, Bool, true, false, ◌&&◌, not, ltb, leb, ◌==◌, if◌then◌else◌,
  Option, none, some, List, [], ◌∷◌, ◌++◌, map, get_elem?, get_or, set, length, Result, ok, ◌>>=◌,
  and_then,
}
use sparse_branch_machine.Base.Elements.{pop_back}
use sparse_branch_machine.Mix.{next_random}
use sparse_branch_machine.Storage.{
  FloatTests, Edge, Node, BucketState, StorageConfig, Storage, contains, bucket_index,
  ensure_bucket, put_bucket, add_resident, invalid_node, new_node, uses_sparse_token_output,
  bucket_or_empty,
}
use sparse_branch_machine.Storage.Buckets.{mark_hot}
use sparse_branch_machine.Topology.{ChannelState, channel_enabled}

-- A bucket without residents takes the split step that it had in the previous directory.
abbrev pub dated_bucket : Option BucketState → BucketState → List ℕ → BucketState
dated_bucket none state residents = state
dated_bucket (some found) state [] = record state { last_split_step = found.last_split_step }
dated_bucket (some found) state (id ∷ ids) = state

module _ {float : Type 0} where
  -- With the node of the slot and the last node: the last one moves into the slot.
  abbrev pub erase_node : Storage float → ℕ → Node float → Node float → Storage float
  erase_node storage slot victim final =
      let last = length storage.nodes - 1 in
      let stays = slot == last in
      let table =
        if stays then storage.id_to_slot else set storage.id_to_slot final.id (slot % 2 ^ 32) in
      record storage {
        nodes = pop_back (if stays then storage.nodes else set storage.nodes slot final);
        id_to_slot = set table victim.id invalid_node;
      }

  -- The source never calls this with a slot out of range; there the model changes nothing.
  unfoldable pub erase_slot : Storage float → ℕ → Storage float
  erase_slot storage slot = elim (get_elem? storage.nodes slot) [
    | none ↦ storage
    | some victim ↦
        erase_node storage slot victim (get_or storage.nodes (length storage.nodes - 1) victim)
  ]

  -- `visits_[slot] < min_visits && utility_ema_[slot] < utility_threshold`
  abbrev pub is_prunable : FloatTests float → ℕ → float → Node float → Bool
  is_prunable floats min_visits utility_threshold node =
      ltb node.visits min_visits && floats.less node.utility_ema utility_threshold

  unfoldable pub prunable_at : FloatTests float → ℕ → float → Storage float → ℕ → Bool
  prunable_at floats min_visits utility_threshold storage slot =
      elim (get_elem? storage.nodes slot) [
        | none ↦ false
        | some node ↦ is_prunable floats min_visits utility_threshold node
      ]

  -- The slots below the counter are left; with the number of nodes erased.
  unfoldable pub prune_loop :
      FloatTests float → ℕ → float → ℕ → Storage float → ℕ → Storage float × ℕ
  unfolding erase_slot prunable_at
  prune_loop floats min_visits utility_threshold zero storage pruned = (storage, pruned)
  prune_loop floats min_visits utility_threshold (suc slot) storage pruned =
      let hit = prunable_at floats min_visits utility_threshold storage slot in
      prune_loop floats min_visits utility_threshold slot
        (if hit then erase_slot storage slot else storage) (if hit then pruned + 1 else pruned)

  -- The first loop of `rebuild_indexes`: the nodes left, and the directory so far.
  unfoldable pub index_loop :
      StorageConfig
      → (ℕ → Option BucketState)
      → List (Node float)
      → (ℕ → Option BucketState)
      → ℕ
      → Option BucketState
  unfolding bucket_index ensure_bucket
  index_loop config previous [] directory = directory
  index_loop config previous (node ∷ nodes) directory =
      let index = bucket_index config node.channel node.prototype in
      let state = ensure_bucket directory index in
      let dated = dated_bucket (previous index) state state.residents in
      index_loop config previous nodes
        (put_bucket directory index (add_resident config node.id dated))

  abbrev pub cool_node : Storage float → ℕ → Node float → Storage float
  cool_node storage slot node = record storage {
    nodes = set storage.nodes slot (record node { hot_indexed = false });
  }

  abbrev pub reheat :
      FloatTests float → StorageConfig → Storage float → ℕ → Option (Node float) → Storage float
  reheat floats config storage slot none = storage
  reheat floats config storage slot (some node) =
      if node.hot_indexed
      then mark_hot floats config (cool_node storage slot node) node.id
      else cool_node storage slot node

  -- The second loop: `rounds` slots are left from `slot` on.
  unfoldable pub reheat_loop :
      FloatTests float → StorageConfig → ℕ → ℕ → Storage float → Storage float
  unfolding mark_hot
  reheat_loop floats config zero slot storage = storage
  reheat_loop floats config (suc rounds) slot storage =
      reheat_loop floats config rounds (slot + 1)
        (reheat floats config storage slot (get_elem? storage.nodes slot))

  -- `std::remove_if` on the edges of one node.
  unfoldable pub live_edges : Storage float → List (Edge float) → List (Edge float)
  unfolding contains
  live_edges storage [] = []
  live_edges storage (edge ∷ edges) =
      let rest = live_edges storage edges in
      if not (contains storage edge.dst) then rest else edge ∷ rest

  abbrev pub trim_edges : Storage float → Node float → Node float
  trim_edges storage node = record node { edges = live_edges storage node.edges }

  unfoldable pub rebuild_indexes : FloatTests float → StorageConfig → Storage float → Storage float
  unfolding index_loop reheat_loop live_edges
  rebuild_indexes floats config storage =
      let indexed = record storage {
        bucket_directory =
            index_loop config storage.bucket_directory storage.nodes (λ (index : ℕ). none);
      } in
      let heated = reheat_loop floats config (length storage.nodes) 0 indexed in
      record heated { nodes = map (λ (node : Node float). trim_edges heated node) heated.nodes }

  abbrev pub pruned_storage : FloatTests float → StorageConfig → Storage float → ℕ → Storage float
  pruned_storage floats config storage pruned =
      let counted = record storage { total_pruned = (storage.total_pruned + pruned) % 2 ^ 64 } in
      if not (pruned == 0) then rebuild_indexes floats config counted else counted

  -- The storage after the pruning, and the number of nodes pruned.
  unfoldable pub prune :
      FloatTests float → StorageConfig → ℕ → float → Storage float → Storage float × ℕ
  unfolding prune_loop rebuild_indexes
  prune floats config min_visits utility_threshold storage =
      let (rest, pruned) =
        prune_loop floats min_visits utility_threshold (length storage.nodes) storage 0 in
      (pruned_storage floats config rest pruned, pruned)

  -- The enabled channels: `rounds` channels are left from `channel` on.
  unfoldable pub enabled_loop :
      {double : Type 0} → List (ChannelState float double) → ℕ → ℕ → List ℕ
  unfolding channel_enabled
  enabled_loop topology zero channel = []
  enabled_loop topology (suc rounds) channel =
      let rest = enabled_loop topology rounds (channel + 1) in
      if channel_enabled topology channel then channel ∷ rest else rest

  -- The components of one random vector, and the random state after them.
  unfoldable pub sample_loop : (ℕ → float) → ℕ → ℕ → ℕ × List float
  unfolding next_random
  sample_loop to_float zero random = (random, [])
  sample_loop to_float (suc components) random =
      let (value, random') = next_random random in
      let (last, rest) = sample_loop to_float components random' in
      (last, to_float (value % 2001) ∷ rest)

  -- With the enabled channels: a round of `prefill_distractors` after its samples.
  abbrev pub prefill_node :
      {double : Type 0}
      → FloatTests float
      → StorageConfig
      → List (ChannelState float double)
      → List ℕ
      → List float
      → Storage float
      → ℕ
      → Result (Storage float × ℕ)
  prefill_node floats config topology enabled value storage random =
      let (choice, random') = next_random random in
      let channel = get_or enabled (choice % length enabled) 0 in
      let (signature, random'') = next_random random' in
      new_node floats config topology storage signature value invalid_node channel >>= λ created.
      ok (created.0, random'')

  -- The storage and the random state after the rounds. No enabled channel ends the loop.
  unfoldable pub prefill_loop :
      {double : Type 0}
      → FloatTests float
      → StorageConfig
      → (ℕ → float)
      → ℕ
      → List (ChannelState float double)
      → ℕ
      → Storage float
      → ℕ
      → Result (Storage float × ℕ)
  unfolding enabled_loop sample_loop next_random new_node
  prefill_loop floats config to_float components topology zero storage random = ok (storage, random)
  prefill_loop floats config to_float components topology (suc rounds) storage random =
      let (random', value) = sample_loop to_float components random in
      elim (enabled_loop topology (length topology) 0) [
        | [] ↦ ok (storage, random')
        | first ∷ others ↦
            prefill_node floats config topology (first ∷ others) value storage random' >>= λ next.
            prefill_loop floats config to_float components topology rounds next.0 next.1
      ]

  unfoldable pub prefill_distractors :
      {double : Type 0}
      → FloatTests float
      → StorageConfig
      → (ℕ → float)
      → ℕ
      → List (ChannelState float double)
      → ℕ
      → Storage float
      → ℕ
      → Result (Storage float × ℕ)
  unfolding prefill_loop
  prefill_distractors floats config to_float vector_dim topology count storage random =
      prefill_loop floats config to_float
        (if uses_sparse_token_output config then 0 else vector_dim) topology count storage random
