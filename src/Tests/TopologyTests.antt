-- ===== src/Tests/TopologyTests.antt =====
-- The theorems on the topology, at three channels.
use sparse_branch_machine.Base.{ℕ, ◌≡◌, arith, false, List, [], ◌∷◌, map, get_or, All}
use sparse_branch_machine.Address.{
  AddressProgram, singleton_address_program, content_match, content_follow, no_edge,
  content_match_dependency, content_follow_call, invalid_channel,
}
use sparse_branch_machine.Topology.{
  ChannelState, TopologyConfig, seed_phase, active_phase, probe_phase,
}
use sparse_branch_machine.Topology.Lookup.{resolve_channel_lineage}
use sparse_branch_machine.Topology.Lookup.Enabled.{IsLineage, resolve_channel_lineage-IsLineage}
use sparse_branch_machine.Topology.Reuse.{BindingReuse, observe_binding_reuse}
use sparse_branch_machine.Topology.Reuse.Bounded.{
  IsTable, Recorded, observe_binding_reuse-IsTable, observe_binding_reuse-Recorded,
}
use sparse_branch_machine.Topology.Slots.{
  GpafSlots, slot_active, slot_probe, slot_quarantined, is_active_slot, is_retirable_slot,
  is_restorable_slot, quarantine_gpaf_slots, recoverably_retire_gpaf_slots, restore_gpaf_slots,
}
use sparse_branch_machine.Topology.Slots.Phases.{
  on_phase, quarantined, retired, restored, counted, gpaf_slots-phases,
}

abbrev match_one : AddressProgram
match_one = record (singleton_address_program 2) { op = content_match }

abbrev follow_one : AddressProgram
follow_one = record { lags = 1 ∷ 2 ∷ []; arity = 2; op = content_follow }

abbrev following : ChannelState ℕ ℕ
following = record {
  program = follow_one;
  phase = probe_phase;
  credit_ema = 0;
  credit_sum = 0;
  observations = 0;
  born_step = 5;
  generation = 3;
  parent_channel = 1;
  dependency_channel = 1;
  parent_edge_kind = content_follow_call;
  dependency_edge_kind = content_follow_call;
}

abbrev pub three_channels : List (ChannelState ℕ ℕ)
three_channels =
    record {
      program = singleton_address_program 1;
      phase = seed_phase;
      credit_ema = 0;
      credit_sum = 0;
      observations = 0;
      born_step = 0;
      generation = 1;
      parent_channel = invalid_channel;
      dependency_channel = invalid_channel;
      parent_edge_kind = no_edge;
      dependency_edge_kind = no_edge;
    }
    ∷ record {
      program = match_one;
      phase = active_phase;
      credit_ema = 0;
      credit_sum = 0;
      observations = 0;
      born_step = 0;
      generation = 2;
      parent_channel = 0;
      dependency_channel = 0;
      parent_edge_kind = content_match_dependency;
      dependency_edge_kind = content_match_dependency;
    }
    ∷ following
    ∷ []

resolve_channel_lineage-IsLineage_example :
    let (parent, dependency) = resolve_channel_lineage three_channels follow_one in
    (parent ≡ dependency) × IsLineage three_channels parent
resolve_channel_lineage-IsLineage_example =
    resolve_channel_lineage-IsLineage three_channels (omega arith) follow_one

abbrev reuse : BindingReuse
reuse = record {
  channels = (record { key = 8; observations = 2; last_seen_step = 1 } ∷ []) ∷ [];
  reuse_observations = 2;
  reuse_events = 1;
}

reuse-tables : All (IsTable 1) reuse.channels
reuse-tables = (record { few = omega arith; different = (tt, tt) }, tt)

observe_binding_reuse-IsTable_example :
    All (IsTable 1) (observe_binding_reuse 3 1 6 reuse 0 9).channels
observe_binding_reuse-IsTable_example = observe_binding_reuse-IsTable 3 1 6 reuse 0 9 reuse-tables

observe_binding_reuse-Recorded_example :
    Recorded 9 6 (get_or (observe_binding_reuse 3 1 6 reuse 0 9).channels 0 [])
observe_binding_reuse-Recorded_example =
    observe_binding_reuse-Recorded 3 1 6 reuse 0 9 (omega arith) (λ e. absurd (omega arith))
      (omega arith)

abbrev slots : GpafSlots
slots = record {
  phases = (1, slot_active) ∷ (2, slot_probe) ∷ (3, slot_quarantined) ∷ [];
  quarantines = 1;
  recoverable_retires = 0;
  restores = 0;
}

gpaf_slots-phases_example :
    (((quarantine_gpaf_slots slots).0.phases ≡ map (on_phase quarantined) slots.phases)
      × ((quarantine_gpaf_slots slots).1 ≡ counted is_active_slot slots.phases))
    × (((recoverably_retire_gpaf_slots slots).0.phases ≡ map (on_phase retired) slots.phases)
        × ((recoverably_retire_gpaf_slots slots).1 ≡ counted is_retirable_slot slots.phases))
    × (((restore_gpaf_slots slots).0.phases ≡ map (on_phase restored) slots.phases)
        × ((restore_gpaf_slots slots).1 ≡ counted is_restorable_slot slots.phases))
gpaf_slots-phases_example = gpaf_slots-phases slots

abbrev lookup_config : TopologyConfig
lookup_config = record {
  topology_validation_steps = 2;
  topology_probe_steps = 4;
  max_binding_reuse_records_per_channel = 4;
  gpaf_slots = 16;
  gpaf_use_shape_keys = false;
}
