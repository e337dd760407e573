-- ===== src/Topology.antt =====
-- modules/machine_topology.cpp: the channels of the machine, and which of them take part.
pub mod Lookup
pub mod Reuse
pub mod Slots
use sparse_branch_machine.Base.{
  ℕ, zero, suc, ◌+◌, ◌-◌, ◌%◌, ◌^◌, min, Bool, true, false, ◌||◌, ◌&&◌, not, ltb, leb, ◌==◌,
  if◌then◌else◌, Option, none, some, List, [], ◌∷◌, get_elem?, get_or, length, map, bit_xor, ◌*◌,
  ◌++◌,
}
use sparse_branch_machine.Address.{
  AddressProgram, AddressGraphEdgeKind, invalid_channel, edge_value, is_content_follow_op,
}

pub data ChannelPhase : Type 0 where
  seed_phase probe_phase active_phase retired_phase quarantined_phase recoverable_phase :
      ChannelPhase

-- A channel. Its floating-point fields are values of types that stand for `float` and `double`.
pub record ChannelState (float double : Type 0) : Type 0 where
  pub program : AddressProgram
  pub phase : ChannelPhase
  pub credit_ema : float
  pub credit_sum : double
  pub observations : ℕ
  pub born_step : ℕ
  pub generation : ℕ
  pub parent_channel : ℕ
  pub dependency_channel : ℕ
  pub parent_edge_kind : AddressGraphEdgeKind
  pub dependency_edge_kind : AddressGraphEdgeKind

-- Seed, probe or active.
abbrev pub is_live : ChannelPhase → Bool
is_live seed_phase = true
is_live probe_phase = true
is_live active_phase = true
is_live retired_phase = false
is_live quarantined_phase = false
is_live recoverable_phase = false

abbrev pub is_probe : ChannelPhase → Bool
is_probe probe_phase = true
is_probe seed_phase = false
is_probe active_phase = false
is_probe retired_phase = false
is_probe quarantined_phase = false
is_probe recoverable_phase = false

-- The fields of `Config` that the topology's lookups read.
pub record TopologyConfig : Type 0 where
  pub topology_validation_steps : ℕ
  pub topology_probe_steps : ℕ
  pub max_binding_reuse_records_per_channel : ℕ
  pub gpaf_slots : ℕ
  pub gpaf_use_shape_keys : Bool

abbrev pub phase_value : ChannelPhase → ℕ
phase_value seed_phase = 0
phase_value probe_phase = 1
phase_value active_phase = 2
phase_value retired_phase = 3
phase_value quarantined_phase = 4
phase_value recoverable_phase = 5

module _ {float double : Type 0} where
  -- A channel's phase, where there is such a channel.
  abbrev pub live_at : List (ChannelState float double) → ℕ → Bool
  live_at topology channel = elim (get_elem? topology channel) [
    | none ↦ false
    | some state ↦ is_live state.phase
  ]

  abbrev pub dependency_live :
      List (ChannelState float double) → ℕ → ChannelState float double → Bool
  dependency_live topology channel state =
      if leb (length topology) state.dependency_channel || state.dependency_channel == channel
      then false
      else live_at topology state.dependency_channel

  abbrev pub state_enabled : List (ChannelState float double) → ℕ → ChannelState float double → Bool
  state_enabled topology channel state =
      if not (is_live state.phase)
      then false
      else (if not (is_content_follow_op state.program.op)
          then true
          else dependency_live topology channel state)

  unfoldable pub channel_enabled : List (ChannelState float double) → ℕ → Bool
  channel_enabled topology channel = elim (get_elem? topology channel) [
    | none ↦ false
    | some state ↦ state_enabled topology channel state
  ]

  -- The age and its sum with the validation steps are `uint64_t`.
  unfoldable pub channel_learning_enabled :
      TopologyConfig → List (ChannelState float double) → ℕ → ℕ → Bool
  unfolding channel_enabled
  channel_learning_enabled config topology total_steps channel =
      if not (channel_enabled topology channel) then false else (elim (get_elem? topology channel) [
        | none ↦ false
        | some state ↦
            if not (is_probe state.phase)
            then true
            else ltb
                ((total_steps
                    + 2 ^ 64
                    - state.born_step
                    + min config.topology_validation_steps config.topology_probe_steps)
                  % 2 ^ 64)
                config.topology_probe_steps
      ])

  -- `learned_address_lags`, `learned_address_programs` and the lists of one field to a channel.
  unfoldable pub learned_address_lags : List (ChannelState float double) → List ℕ
  learned_address_lags [] = []
  learned_address_lags (state ∷ rest) =
      if is_live state.phase && state.program.arity == 1
      then get_or state.program.lags 0 0 ∷ learned_address_lags rest
      else learned_address_lags rest

  unfoldable pub learned_address_programs : List (ChannelState float double) → List AddressProgram
  learned_address_programs [] = []
  learned_address_programs (state ∷ rest) =
      if is_live state.phase
      then state.program ∷ learned_address_programs rest
      else learned_address_programs rest

  abbrev pub learned_channel_credit : List (ChannelState float double) → List float
  learned_channel_credit topology =
      map (λ (state : ChannelState float double). state.credit_ema) topology

  abbrev pub learned_channel_phase : List (ChannelState float double) → List ℕ
  learned_channel_phase topology =
      map (λ (state : ChannelState float double). phase_value state.phase) topology

  abbrev pub learned_channel_parent : List (ChannelState float double) → List ℕ
  learned_channel_parent topology =
      map (λ (state : ChannelState float double). state.parent_channel) topology

  abbrev pub learned_channel_dependency : List (ChannelState float double) → List ℕ
  learned_channel_dependency topology =
      map (λ (state : ChannelState float double). state.dependency_channel) topology

  abbrev pub learned_channel_generation : List (ChannelState float double) → List ℕ
  learned_channel_generation topology =
      map (λ (state : ChannelState float double). state.generation) topology

  abbrev pub learned_channel_parent_edge_kind : List (ChannelState float double) → List ℕ
  learned_channel_parent_edge_kind topology =
      map (λ (state : ChannelState float double). edge_value state.parent_edge_kind) topology

  abbrev pub learned_channel_dependency_edge_kind : List (ChannelState float double) → List ℕ
  learned_channel_dependency_edge_kind topology =
      map (λ (state : ChannelState float double). edge_value state.dependency_edge_kind) topology

  -- The loop of `learned_channel_effective_enabled`: `rounds` channels are left.
  unfoldable pub effective_loop : ℕ → ℕ → List (ChannelState float double) → List ℕ
  unfolding channel_enabled
  effective_loop zero channel topology = []
  effective_loop (suc rounds) channel topology =
      (if channel_enabled topology channel then 1 else 0)
      ∷ effective_loop rounds (channel + 1) topology

  abbrev pub learned_channel_effective_enabled : List (ChannelState float double) → List ℕ
  learned_channel_effective_enabled topology = effective_loop (length topology) 0 topology
