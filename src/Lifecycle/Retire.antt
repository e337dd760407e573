-- ===== src/Lifecycle/Retire.antt =====
-- modules/machine_topology.cpp: how one channel is retired and restored.
use sparse_branch_machine.Base.{
  ℕ, ◌+◌, ◌%◌, ◌^◌, Bool, true, false, ◌||◌, ◌&&◌, not, ◌==◌, if◌then◌else◌, Option, none, some,
  List, [], ◌∷◌, ◌++◌, get_elem?, set,
}
use sparse_branch_machine.Topology.{
  ChannelState, ChannelPhase, seed_phase, probe_phase, active_phase, retired_phase,
  quarantined_phase, recoverable_phase, is_live,
}
use sparse_branch_machine.Topology.Reuse.{BindingReuseSummary, binding_reuse_summary, next_u64}
use sparse_branch_machine.Topology.Slots.{is_active}
use sparse_branch_machine.Lifecycle.{
  ValueOps, TopologyDecision, pruned, restored, AcceptedChannelRetirement, preserve, quarantine,
  physical_erase, recoverable_retire, TopologyEvent, Machine, LifecycleConfig,
}
use sparse_branch_machine.Lifecycle.Erase.{guarded_phase, physically_erase_channel}

abbrev pub is_preserve : AcceptedChannelRetirement → Bool
is_preserve preserve = true
is_preserve quarantine = false
is_preserve physical_erase = false
is_preserve recoverable_retire = false

abbrev pub is_restorable : ChannelPhase → Bool
is_restorable recoverable_phase = true
is_restorable quarantined_phase = true
is_restorable seed_phase = false
is_restorable probe_phase = false
is_restorable active_phase = false
is_restorable retired_phase = false

module _ {float double : Type 0} where
  unfoldable pub binding_reuse_bonus :
      ValueOps float double → LifecycleConfig float → BindingReuseSummary → double
  binding_reuse_bonus ops config summary =
      if ops.at_least ops.tests.nought config.binding_reuse_value_weight
        || summary.total == 0
        || summary.events == 0
      then ops.nought
      else ops.mul
          (ops.mul (ops.widen config.binding_reuse_value_weight)
            (ops.log1p (ops.double_of summary.events)))
          (ops.div (ops.double_of summary.events) (ops.double_of summary.total))

  unfoldable pub quarantine_channel : Machine float double → ℕ → Machine float double
  quarantine_channel machine channel = record machine {
    topology = guarded_phase machine.topology channel quarantined_phase;
  }

  unfoldable pub recoverably_retire_channel : Machine float double → ℕ → Machine float double
  recoverably_retire_channel machine channel = record machine {
    topology = guarded_phase machine.topology channel recoverable_phase;
  }

  -- The event that is pushed for a channel, with a credit and its reuse.
  abbrev pub channel_event :
      ValueOps float double
      → ℕ
      → ChannelState float double
      → TopologyDecision
      → float
      → float
      → double
      → BindingReuseSummary
      → ℕ
      → TopologyEvent float
  channel_event ops step state decision credit plain bonus summary channel = record {
    step = step;
    channel_generation = state.generation;
    program = state.program;
    decision = decision;
    credit = credit;
    structural_value_without_reuse = plain;
    reuse_bonus = ops.narrow bonus;
    reuse_observations = summary.total;
    reuse_unique_keys = summary.unique_keys;
    reuse_events = summary.events;
    channel = channel % 2 ^ 8;
    parent_channel = state.parent_channel;
    dependency_channel = state.dependency_channel;
    parent_edge_kind = state.parent_edge_kind;
    dependency_edge_kind = state.dependency_edge_kind;
  }

  -- The event of a pruned or a restored channel, by its credit average.
  unfoldable pub credit_event :
      ValueOps float double
      → LifecycleConfig float
      → Machine float double
      → ChannelState float double
      → TopologyDecision
      → ℕ
      → TopologyEvent float
  unfolding binding_reuse_bonus
  credit_event ops config machine state decision channel =
      let summary = binding_reuse_summary machine.reuse channel in
      let bonus = binding_reuse_bonus ops config summary in
      channel_event ops machine.total_steps state decision
        (ops.add_float state.credit_ema (ops.narrow bonus)) state.credit_ema bonus summary channel

  abbrev pub push_event : Machine float double → TopologyEvent float → Machine float double
  push_event machine event = record machine { events = machine.events ++ (event ∷ []) }

  -- `Preserve` is excluded by the callers' guards.
  abbrev pub apply_policy :
      ValueOps float double
      → LifecycleConfig float
      → AcceptedChannelRetirement
      → Machine float double
      → ℕ
      → Machine float double
  apply_policy ops config quarantine machine channel = quarantine_channel machine channel
  apply_policy ops config recoverable_retire machine channel =
      recoverably_retire_channel machine channel
  apply_policy ops config physical_erase machine channel =
      physically_erase_channel ops config machine channel
  apply_policy ops config preserve machine channel =
      physically_erase_channel ops config machine channel

  -- The active channels, other than the channel, that depend on it; `dependent` is the next one.
  unfoldable pub blocked_loop : ℕ → ℕ → List (ChannelState float double) → ℕ
  blocked_loop channel dependent [] = 0
  blocked_loop channel dependent (state ∷ topology) =
      let rest = blocked_loop channel (dependent + 1) topology in
      if not (dependent == channel) && is_active state.phase && state.dependency_channel == channel
      then rest + 1
      else rest

  abbrev pub retire_live :
      ValueOps float double
      → LifecycleConfig float
      → Machine float double
      → ℕ
      → AcceptedChannelRetirement
      → ChannelState float double
      → Machine float double
  retire_live ops config machine channel policy state =
      let event = credit_event ops config machine state pruned channel in
      let retired = apply_policy ops config policy (push_event machine event) channel in
      record retired {
        structural_call_blocked =
            (retired.structural_call_blocked + blocked_loop channel 0 retired.topology) % 2 ^ 64;
        topology_pruned = next_u64 retired.topology_pruned;
      }

  abbrev pub retire_state :
      ValueOps float double
      → LifecycleConfig float
      → Machine float double
      → ℕ
      → AcceptedChannelRetirement
      → Option (ChannelState float double)
      → Machine float double × Bool
  retire_state ops config machine channel policy none = (machine, false)
  retire_state ops config machine channel policy (some state) =
      if channel == 0 || is_preserve policy || not (is_live state.phase)
      then (machine, false)
      else (retire_live ops config machine channel policy state, true)

  unfoldable pub retire_channel :
      ValueOps float double
      → LifecycleConfig float
      → Machine float double
      → ℕ
      → AcceptedChannelRetirement
      → Machine float double × Bool
  unfolding credit_event quarantine_channel recoverably_retire_channel physically_erase_channel
      blocked_loop
  retire_channel ops config machine channel policy =
      retire_state ops config machine channel policy (get_elem? machine.topology channel)

  -- The channel that a restoration writes.
  abbrev pub revived : ℕ → ChannelState float double → ChannelState float double
  revived total_steps state = record state {
    phase = active_phase;
    born_step = total_steps;
    observations = 0;
  }

  abbrev pub restore_state :
      ValueOps float double
      → LifecycleConfig float
      → Machine float double
      → ℕ
      → Option (ChannelState float double)
      → Machine float double × Bool
  restore_state ops config machine channel none = (machine, false)
  restore_state ops config machine channel (some state) =
      if channel == 0 || not (is_restorable state.phase) then (machine, false) else (
        record (push_event machine (credit_event ops config machine state restored channel)) {
          topology = set machine.topology channel (revived machine.total_steps state);
        },
        true,
      )

  unfoldable pub restore_channel :
      ValueOps float double
      → LifecycleConfig float
      → Machine float double
      → ℕ
      → Machine float double × Bool
  unfolding credit_event
  restore_channel ops config machine channel =
      restore_state ops config machine channel (get_elem? machine.topology channel)
