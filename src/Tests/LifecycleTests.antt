-- ===== src/Tests/LifecycleTests.antt =====
-- The theorems on the life cycle of channels and the constructor, at a seed and one channel.
use mathlib.Core.Option
use sparse_branch_machine.Base.{
  ℕ, zero, suc, ◌+◌, ◌*◌, ◌-◌, ◌/◌, ◌≡◌, refl, arith, true, false, ltb, leb, ◌==◌, if◌then◌else◌,
  some, [], ◌∷◌, get_elem?, length, All, ok,
}
use sparse_branch_machine.Address.{singleton_address_program, invalid_channel, no_edge}
use sparse_branch_machine.Address.Proposals.Listing.{proposals, pairs, follows}
use sparse_branch_machine.Construct.{ConfigTests, MachineConfig, Constructed, construct}
use sparse_branch_machine.Construct.Sound.{construct-IsTopology}
use sparse_branch_machine.Lifecycle.{
  ValueOps, Machine, LifecycleConfig, quarantine, recoverable_retire,
}
use sparse_branch_machine.Lifecycle.Begin.{maybe_begin_topology_probe}
use sparse_branch_machine.Lifecycle.Closure.{restore_dependency_closure}
use sparse_branch_machine.Lifecycle.Closure.Ends.{restore_dependency_closure_total}
use sparse_branch_machine.Lifecycle.Closure.Restores.{OnlyRestores, IsSettled}
use sparse_branch_machine.Lifecycle.Erase.{physically_erase_channel}
use sparse_branch_machine.Lifecycle.Erased.{of_channel, Stays, physically_erase_channel-erases}
use sparse_branch_machine.Lifecycle.Invariant.{IsTopology}
use sparse_branch_machine.Lifecycle.Invariant.Frozen.{freeze_topology-no_probe}
use sparse_branch_machine.Lifecycle.Invariant.Phases.{IsSound}
use sparse_branch_machine.Lifecycle.Invariant.Kept.{
  lifecycle-IsSound, maybe_begin_topology_probe-IsSound,
}
use sparse_branch_machine.Lifecycle.Probes.{maybe_finalize_topology_probe, freeze_topology}
use sparse_branch_machine.Lifecycle.Retire.{retire_channel, restore_channel}
use sparse_branch_machine.Maintenance.Filter.{spared}
use sparse_branch_machine.Storage.Buckets.{node_of}
use sparse_branch_machine.Storage.Cores.{core}
use sparse_branch_machine.Storage.Table.{IsIndexed}
use sparse_branch_machine.Tests.StorageTests.{
  number_tests, settings, two_nodes, two_nodes-IsIndexed,
}
use sparse_branch_machine.Topology.{
  ChannelState, seed_phase, active_phase, quarantined_phase, retired_phase, is_probe,
}

abbrev number_ops : ValueOps ℕ ℕ
number_ops = record {
  tests = number_tests;
  add_float = λ a b. a + b;
  sub_float = λ a b. a - b;
  mul_float = λ a b. a * b;
  at_least = λ a b. leb b a;
  nought = 0;
  double_of = λ n. n;
  widen = λ x. x;
  narrow = λ x. x;
  add = λ a b. a + b;
  sub = λ a b. a - b;
  mul = λ a b. a * b;
  div = λ a b. a / b;
  log1p = λ x. x;
  reaches = λ a b. leb b a;
}

abbrev settings_of_topology : LifecycleConfig ℕ
settings_of_topology = record {
  storage_config = settings;
  adaptive_topology = true;
  max_address_channels = 4;
  topology_max_lag = 2;
  topology_max_arity = 2;
  topology_enable_delta = true;
  topology_enable_content_match = true;
  topology_enable_content_follow_multi = false;
  topology_probe_interval = 8;
  topology_probe_warmup = 2;
  topology_probe_steps = 8;
  topology_validation_steps = 4;
  topology_min_observations = 2;
  topology_accept_credit = 1;
  topology_credit_decay = 0;
  topology_prune_patience = 100;
  topology_prune_credit = 0;
  accepted_channel_retirement = quarantine;
  structural_description_cost_weight = 1;
  structural_execution_cost_weight = 0;
  binding_reuse_value_weight = 0;
  topology_accept_uses_structural_value = false;
}

abbrev seed : ChannelState ℕ ℕ
seed = record {
  program = singleton_address_program 1;
  phase = seed_phase;
  credit_ema = 0;
  credit_sum = 0;
  observations = 0;
  born_step = 0;
  generation = 1;
  parent_channel = invalid_channel;
  dependency_channel = invalid_channel;
  parent_edge_kind = no_edge;
  dependency_edge_kind = no_edge;
}

abbrev resting : ChannelState ℕ ℕ
resting = record seed { phase = quarantined_phase; generation = 2; dependency_channel = 0 }

abbrev two_channels : Machine ℕ ℕ
two_channels = record {
  topology = seed ∷ resting ∷ [];
  reuse = record { channels = [] ∷ [] ∷ []; reuse_observations = 0; reuse_events = 0 };
  storage = two_nodes;
  previous_route = 0 ∷ 1 ∷ [];
  previous_responsibilities = 1 ∷ [];
  trace = [];
  events = [];
  generation_counter = 2;
  proposal_cursor = 0;
  proposed_program_keys = [];
  next_probe_step = 0;
  topology_proposals = 0;
  topology_accepted = 0;
  topology_rejected = 0;
  topology_pruned = 0;
  structural_call_blocked = 0;
  total_steps = 20;
}

two_channels-IsSound : IsSound 4 two_channels
two_channels-IsSound = record {
  few = omega arith;
  some_channel = omega arith;
  seeded = λ state e. ground arith;
  single = λ i j a b ea eb pa pb. absurd (quiet i a ea pa);
}
  where
    quiet :
        (i : ℕ) (a : ChannelState ℕ ℕ)
        → get_elem? (seed ∷ resting ∷ []) i ≡ some a
        → is_probe a.phase ≡ true
        → ⊥
    quiet zero a e p = ground arith
    quiet (suc zero) a e p = ground arith
    quiet (suc (suc i)) a e p = cc

physically_erase_channel-erases_example :
    let after = physically_erase_channel number_ops settings_of_topology two_channels 1 in
    (get_elem? after.topology 1 ≡ some (record resting { phase = retired_phase }))
    × IsIndexed after.storage
    × ((id : ℕ)
        → Option.map core (node_of after.storage id)
          ≡ Option.map core (spared (of_channel 1) (node_of two_nodes id)))
    × All (Stays 1 after.storage) after.previous_route
    × (length after.previous_responsibilities ≡ length after.previous_route)
physically_erase_channel-erases_example =
    physically_erase_channel-erases number_ops settings_of_topology two_channels 1 resting refl
      (omega arith) two_nodes-IsIndexed

restore_dependency_closure_total_example :
    (after : Machine ℕ ℕ) × (count : ℕ) × (restore_dependency_closure number_ops
        settings_of_topology two_channels 1
      ≡ ok (after, count))
    × OnlyRestores two_channels after
    × IsSettled 1 after
restore_dependency_closure_total_example =
    restore_dependency_closure_total number_ops settings_of_topology two_channels 1 (omega arith)
      (omega arith)

lifecycle-IsSound_example :
    IsSound 4 (retire_channel number_ops settings_of_topology two_channels 1 recoverable_retire).0
    × IsSound 4 (restore_channel number_ops settings_of_topology two_channels 1).0
    × IsSound 4 (maybe_finalize_topology_probe number_ops settings_of_topology two_channels)
    × IsSound 4 (freeze_topology number_ops settings_of_topology two_channels)
lifecycle-IsSound_example =
    lifecycle-IsSound 4 number_ops settings_of_topology two_channels 1 recoverable_retire
      two_channels-IsSound

maybe_begin_topology_probe-IsSound_example :
    (after : Machine ℕ ℕ) × (maybe_begin_topology_probe number_ops settings_of_topology 100
        two_channels true
      ≡ ok after)
    × IsSound 4 after
unfolding proposals pairs follows
maybe_begin_topology_probe-IsSound_example =
    maybe_begin_topology_probe-IsSound 4 number_ops settings_of_topology 100 two_channels true refl
      (omega arith) (omega arith) (omega arith) two_channels-IsSound

freeze_topology-no_probe_example : is_probe quarantined_phase ≡ false
unfolding freeze_topology
freeze_topology-no_probe_example =
    freeze_topology-no_probe number_ops settings_of_topology 4 two_channels two_channels-IsSound 1
      resting refl

abbrev limits : ConfigTests ℕ
limits = record { nought = 0; one = 1; below = ltb; at_most = leb; at_least = λ a b. leb b a }

abbrev whole : MachineConfig ℕ
whole = record {
  token_cross_entropy = true;
  sparse_token_output = true;
  token_alphabet = 16;
  vector_dim = 16;
  bucket_bits = 4;
  beam_width = 4;
  bucket_scan_limit = 2;
  max_edges_per_node = 2;
  max_specializations_per_bucket = 1;
  address_lags = 1 ∷ 3 ∷ [];
  adaptive_topology = true;
  max_address_channels = 4;
  topology_max_lag = 4;
  topology_max_arity = 2;
  topology_probe_interval = 8;
  topology_probe_steps = 8;
  topology_validation_steps = 4;
  topology_min_observations = 2;
  topology_credit_decay = 0;
  exact_region_mass = 1;
  residual_channel_gain = 1;
  residual_recency_pseudocount = 0;
  softmax_temperature = 1;
  label_smoothing = 0;
  classification_learning_rate = 1;
  classification_mature_learning_rate = 1;
  logit_decay = 0;
  max_sparse_decisions_per_node = 16;
}

construct-IsTopology_example :
    (made : Constructed ℕ ℕ) × (construct number_ops limits whole ≡ ok made)
    × IsTopology 4 made.topology
    × ((i : ℕ) (state : ChannelState ℕ ℕ)
        → get_elem? made.topology i ≡ some state
        → state.phase ≡ (if i == 0 then seed_phase else active_phase))
unfolding construct
construct-IsTopology_example =
    construct-IsTopology number_ops limits whole
      (refl, (refl, (refl, (refl, (refl, (refl, (refl, (refl, (refl, (refl, tt))))))))))
