-- ===== src/Lifecycle.antt =====
-- modules/machine_topology.cpp: the part of the machine that the life cycle of channels reads and
-- writes. Arithmetic on `float` and `double` is a parameter.
pub mod Erase
pub mod Erased
pub mod Retire
pub mod Closure
pub mod Probes
pub mod Begin
pub mod Invariant
pub mod Proposing
use sparse_branch_machine.Base.{
  ℕ, zero, suc, ◌+◌, ◌-◌, ◌%◌, ◌^◌, Bool, true, false, ◌||◌, ◌&&◌, not, ltb, leb, ◌==◌,
  if◌then◌else◌, Option, none, some, List, [], ◌∷◌, ◌++◌, get_elem?, get_or, set, replicate, length,
}
use sparse_branch_machine.Address.{
  AddressOp, AddressProgram, AddressGraphEdgeKind, content_match, is_content_follow_op,
  content_follow_hop_count,
}
use sparse_branch_machine.Maintenance.{erase_slot, rebuild_indexes}
use sparse_branch_machine.Storage.{FloatTests, Node, Storage, StorageConfig}
use sparse_branch_machine.Storage.Buckets.{node_of}
use sparse_branch_machine.Topology.{
  ChannelState, ChannelPhase, seed_phase, probe_phase, active_phase, retired_phase,
  quarantined_phase, recoverable_phase, is_live, channel_enabled,
}
use sparse_branch_machine.Topology.Lookup.{is_content_match}
use sparse_branch_machine.Topology.Reuse.{
  BindingReuse, BindingReuseSummary, binding_reuse_summary, next_u64,
}
use sparse_branch_machine.Topology.Slots.{is_active}

-- The floating-point operations of the life cycle.
pub record ValueOps (float double : Type 0) : Type 0 where
  pub tests : FloatTests float
  pub add_float : float → float → float
  pub sub_float : float → float → float
  pub mul_float : float → float → float
  pub at_least : float → float → Bool
  pub nought : double
  pub double_of : ℕ → double
  pub widen : float → double
  pub narrow : double → float
  pub add : double → double → double
  pub sub : double → double → double
  pub mul : double → double → double
  pub div : double → double → double
  pub log1p : double → double
  pub reaches : double → double → Bool

pub data TopologyDecision : Type 0 where
  proposed accepted rejected pruned restored : TopologyDecision

pub data AcceptedChannelRetirement : Type 0 where
  preserve quarantine physical_erase recoverable_retire : AcceptedChannelRetirement

pub record TopologyEvent (float : Type 0) : Type 0 where
  pub step : ℕ
  pub channel_generation : ℕ
  pub program : AddressProgram
  pub decision : TopologyDecision
  pub credit : float
  pub structural_value_without_reuse : float
  pub reuse_bonus : float
  pub reuse_observations : ℕ
  pub reuse_unique_keys : ℕ
  pub reuse_events : ℕ
  pub channel : ℕ
  pub parent_channel : ℕ
  pub dependency_channel : ℕ
  pub parent_edge_kind : AddressGraphEdgeKind
  pub dependency_edge_kind : AddressGraphEdgeKind

pub record TraceFrame (float : Type 0) : Type 0 where
  pub route : List ℕ
  pub contribution : List float
  pub loss : float

-- The members of the machine that the life cycle of channels reads and writes.
pub record Machine (float double : Type 0) : Type 0 where
  pub topology : List (ChannelState float double)
  pub reuse : BindingReuse
  pub storage : Storage float
  pub previous_route : List ℕ
  pub previous_responsibilities : List float
  pub trace : List (TraceFrame float)
  pub events : List (TopologyEvent float)
  pub generation_counter : ℕ
  pub proposal_cursor : ℕ
  pub proposed_program_keys : List ℕ
  pub next_probe_step : ℕ
  pub topology_proposals : ℕ
  pub topology_accepted : ℕ
  pub topology_rejected : ℕ
  pub topology_pruned : ℕ
  pub structural_call_blocked : ℕ
  pub total_steps : ℕ

-- The fields of `Config` that the life cycle reads.
pub record LifecycleConfig (float : Type 0) : Type 0 where
  pub storage_config : StorageConfig
  pub adaptive_topology : Bool
  pub max_address_channels : ℕ
  pub topology_max_lag : ℕ
  pub topology_max_arity : ℕ
  pub topology_enable_delta : Bool
  pub topology_enable_content_match : Bool
  pub topology_enable_content_follow_multi : Bool
  pub topology_probe_interval : ℕ
  pub topology_probe_warmup : ℕ
  pub topology_probe_steps : ℕ
  pub topology_validation_steps : ℕ
  pub topology_min_observations : ℕ
  pub topology_accept_credit : float
  pub topology_credit_decay : float
  pub topology_prune_patience : ℕ
  pub topology_prune_credit : float
  pub accepted_channel_retirement : AcceptedChannelRetirement
  pub structural_description_cost_weight : float
  pub structural_execution_cost_weight : float
  pub binding_reuse_value_weight : float
  pub topology_accept_uses_structural_value : Bool
