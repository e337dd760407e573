-- ===== src/Topology/Slots.antt =====
-- modules/machine_topology.cpp: the phases of the GPAF slots, and the keys that name a slot.
pub mod Phases
pub mod Keys
use sparse_branch_machine.Base.{
  ℕ, zero, suc, ◌+◌, ◌-◌, ◌*◌, ◌/◌, ◌%◌, ◌^◌, max, min, bit_xor, Bool, true, false, ◌||◌, ◌&&◌, not,
  ltb, leb, ◌==◌, if◌then◌else◌, Option, none, some, List, [], ◌∷◌, get_elem?, get_or, length,
}
use sparse_branch_machine.Mix.{mix64, bit_width_loop}
use sparse_branch_machine.Address.{
  AddressProgram, op_value, edge_value, state_value, no_edge, invalid_channel, is_content_follow_op,
  content_follow_hop_count, address_program_key, address_program_output_state, AddressGraphEdgeKind,
  prefix, positional_dependency, content_match_dependency, content_follow_call,
}
use sparse_branch_machine.Topology.{
  ChannelState, ChannelPhase, TopologyConfig, channel_enabled, seed_phase, probe_phase,
  active_phase, retired_phase, quarantined_phase, recoverable_phase,
}
use sparse_branch_machine.Topology.Reuse.{BindingReuse, binding_reuse_summary}

pub data GpafSlotPhase : Type 0 where
  slot_probe slot_active slot_quarantined slot_recoverable slot_erased : GpafSlotPhase

-- `gpaf_slot_phases_` as pairs of a key and its phase, with the counters of the transitions.
pub record GpafSlots : Type 0 where
  pub phases : List (ℕ × GpafSlotPhase)
  pub quarantines : ℕ
  pub recoverable_retires : ℕ
  pub restores : ℕ

abbrev pub is_active_slot : GpafSlotPhase → Bool
is_active_slot slot_erased = false
is_active_slot slot_active = true
is_active_slot slot_probe = false
is_active_slot slot_quarantined = false
is_active_slot slot_recoverable = false

abbrev pub is_retirable_slot : GpafSlotPhase → Bool
is_retirable_slot slot_erased = false
is_retirable_slot slot_active = true
is_retirable_slot slot_quarantined = true
is_retirable_slot slot_probe = false
is_retirable_slot slot_recoverable = false

abbrev pub is_restorable_slot : GpafSlotPhase → Bool
is_restorable_slot slot_erased = false
is_restorable_slot slot_quarantined = true
is_restorable_slot slot_recoverable = true
is_restorable_slot slot_probe = false
is_restorable_slot slot_active = false

-- The loop that the three operations share: the slots that pass go to a phase, and are counted.
unfoldable pub change_loop :
    (GpafSlotPhase → Bool) → GpafSlotPhase → List (ℕ × GpafSlotPhase) → List (ℕ × GpafSlotPhase) × ℕ
change_loop test target [] = ([], 0)
change_loop test target ((key, phase) ∷ rest) =
    let changed = change_loop test target rest in
    if test phase
    then ((key, target) ∷ changed.0, changed.1 + 1)
    else ((key, phase) ∷ changed.0, changed.1)

unfoldable pub quarantine_gpaf_slots : GpafSlots → GpafSlots × ℕ
unfolding change_loop
quarantine_gpaf_slots s =
    let changed = change_loop is_active_slot slot_quarantined s.phases in
    (record s { phases = changed.0; quarantines = (s.quarantines + changed.1) % 2 ^ 64 }, changed.1)

unfoldable pub recoverably_retire_gpaf_slots : GpafSlots → GpafSlots × ℕ
unfolding change_loop
recoverably_retire_gpaf_slots s =
    let changed = change_loop is_retirable_slot slot_recoverable s.phases in
    (
      record s {
        phases = changed.0;
        recoverable_retires = (s.recoverable_retires + changed.1) % 2 ^ 64;
      },
      changed.1,
    )

unfoldable pub restore_gpaf_slots : GpafSlots → GpafSlots × ℕ
unfolding change_loop
restore_gpaf_slots s =
    let changed = change_loop is_restorable_slot slot_active s.phases in
    (record s { phases = changed.0; restores = (s.restores + changed.1) % 2 ^ 64 }, changed.1)

-- A key that is computed from an entry, and 0 where there is no entry.
unfoldable pub entry_key {ℓ} : {A : Type ℓ} → Option A → (A → ℕ) → ℕ
entry_key none f = 0
entry_key (some a) f = f a

-- `x << bits` on `uint64_t`.
abbrev pub shl64 : ℕ → ℕ → ℕ
shl64 x bits = (x * 2 ^ bits) % 2 ^ 64

abbrev pub is_active : ChannelPhase → Bool
is_active active_phase = true
is_active seed_phase = false
is_active probe_phase = false
is_active retired_phase = false
is_active quarantined_phase = false
is_active recoverable_phase = false

module _ {float double : Type 0} where
  unfoldable pub gpaf_role_key_for_channel :
      TopologyConfig → List (ChannelState float double) → ℕ → ℕ
  unfolding entry_key
  gpaf_role_key_for_channel config topology channel_index =
      entry_key (get_elem? topology channel_index) (λ channel.
        let k1 =
          bit_xor (shl64 (op_value channel.program.op) 56) (shl64 channel.program.arity 48) in
        let k2 = bit_xor k1 (shl64 channel_index 40) in
        let k3 = bit_xor k2 (shl64 (edge_value channel.dependency_edge_kind) 32) in
        let k4 = bit_xor k3 (shl64 (edge_value channel.parent_edge_kind) 24) in
        let k5 = bit_xor k4 (mix64 ((channel.generation + 0xD1B54A32D192ED03) % 2 ^ 64)) in
        if config.gpaf_slots == 0 then 0 else mix64 k5 % max 1 config.gpaf_slots)

  unfoldable pub gpaf_binding_key_for_channel :
      TopologyConfig → List (ChannelState float double) → ℕ → ℕ → ℕ → ℕ → ℕ
  unfolding entry_key
  gpaf_binding_key_for_channel config topology channel_index binding_key distance span =
      entry_key (get_elem? topology channel_index) (λ channel.
        let shape = bit_xor (shl64 (min 15 distance) 24) (shl64 (min 15 span) 16) in
        let k1 =
          bit_xor (shl64 (op_value channel.program.op) 56) (shl64 channel.program.arity 48) in
        let k2 = bit_xor k1 (shl64 (edge_value channel.dependency_edge_kind) 40) in
        let k3 = bit_xor k2 (shl64 (edge_value channel.parent_edge_kind) 32) in
        let k4 = bit_xor k3 (if config.gpaf_use_shape_keys then shape else binding_key) in
        let k5 = bit_xor k4 (mix64 ((channel.generation + 0xD1B54A32D192ED03) % 2 ^ 64)) in
        if config.gpaf_slots == 0 || binding_key == 0
        then 0
        else mix64 k5 % max 1 config.gpaf_slots)

  unfoldable pub gpaf_structural_call_key_for_channel :
      TopologyConfig → List (ChannelState float double) → BindingReuse → ℕ → ℕ
  unfolding bit_width_loop entry_key
  gpaf_structural_call_key_for_channel config topology reuse channel_index =
      entry_key (get_elem? topology channel_index) (λ channel.
        entry_key (get_elem? topology channel.dependency_channel) (λ dependency.
          let summary = binding_reuse_summary reuse channel_index in
          let reuse_bucket = min 15 (bit_width_loop 64 summary.events) in
          let execution_bucket =
            if is_content_follow_op channel.program.op
            then content_follow_hop_count channel.program.op
            else 1 in
          let k1 = bit_xor 0xC4115A1C5A1E0000 (mix64 (address_program_key channel.program)) in
          let k2 =
            bit_xor k1 (shl64 (state_value (address_program_output_state channel.program)) 48) in
          let k3 = bit_xor k2 (shl64 (edge_value channel.dependency_edge_kind) 40) in
          let k4 = bit_xor k3 (shl64 (edge_value dependency.dependency_edge_kind) 32) in
          let k5 = bit_xor k4 (shl64 reuse_bucket 24) in
          let k6 = bit_xor k5 (shl64 execution_bucket 16) in
          let k7 = bit_xor k6 (mix64 ((channel.generation + dependency.generation) % 2 ^ 64)) in
          if config.gpaf_slots == 0
            || not (is_active channel.phase)
            || channel.dependency_channel == invalid_channel
            || edge_value channel.dependency_edge_kind == 0
            || not (channel_enabled topology channel_index)
          then 0
          else mix64 k7 % max 1 config.gpaf_slots))

abbrev pub gpaf_transition_key : ℕ → ℕ → ℕ → ℕ
gpaf_transition_key role_key region_prefix gpaf_slots =
    if role_key == 0
    then 0
    else mix64 (bit_xor role_key (mix64 ((region_prefix + 0xC4115A1C5A1E0000) % 2 ^ 64)))
      % max 1 gpaf_slots
