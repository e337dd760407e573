-- ===== src/Lifecycle/Probes.antt =====
-- modules/machine_topology.cpp: the probes: credit, acceptance, pruning, freezing and new proposals.
use sparse_branch_machine.Base.{
  ℕ, zero, suc, ◌+◌, ◌-◌, ◌%◌, ◌^◌, max, Bool, true, false, ◌||◌, ◌&&◌, not, ltb, ◌==◌,
  if◌then◌else◌, Option, none, some, List, [], ◌∷◌, ◌++◌, get_elem?, get_or, set, length, Result,
  ok, diverge,
}
use sparse_branch_machine.Address.{
  AddressProgram, is_content_follow_op, content_follow_hop_count, address_program_key,
}
use sparse_branch_machine.Address.Proposals.{proposal_at}
use sparse_branch_machine.Lifecycle.{ValueOps, accepted, rejected, pruned, Machine, LifecycleConfig}
use sparse_branch_machine.Lifecycle.Erase.{physically_erase_channel}
use sparse_branch_machine.Lifecycle.Retire.{
  binding_reuse_bonus, channel_event, credit_event, push_event, apply_policy, is_preserve,
}
use sparse_branch_machine.Storage.Buckets.{has_id}
use sparse_branch_machine.Topology.{
  ChannelState, ChannelPhase, probe_phase, active_phase, retired_phase, seed_phase,
  quarantined_phase, recoverable_phase, is_probe,
}
use sparse_branch_machine.Topology.Lookup.{is_content_match}
use sparse_branch_machine.Topology.Reuse.{binding_reuse_summary, next_u64}
use sparse_branch_machine.Topology.Slots.{is_active}

abbrev pub is_retired : ChannelPhase → Bool
is_retired retired_phase = true
is_retired seed_phase = false
is_retired probe_phase = false
is_retired active_phase = false
is_retired quarantined_phase = false
is_retired recoverable_phase = false

-- `total_steps_ - state.born_step` on `uint64_t`.
abbrev pub age_of : ℕ → ℕ → ℕ
age_of total_steps born_step = (total_steps + 2 ^ 64 - born_step) % 2 ^ 64

module _ {float double : Type 0} where
  -- The first channel from `channel` on that passes, with its state.
  unfoldable pub first_channel :
      (ChannelState float double → Bool)
      → ℕ
      → List (ChannelState float double)
      → Option (ℕ × ChannelState float double)
  first_channel test channel [] = none
  first_channel test channel (state ∷ topology) =
      if test state then some (channel, state) else first_channel test (channel + 1) topology

  abbrev pub after_seed : List (ChannelState float double) → List (ChannelState float double)
  after_seed [] = []
  after_seed (state ∷ topology) = topology

  unfoldable pub program_description_cost : ValueOps float double → AddressProgram → double
  program_description_cost ops program = ops.add (ops.double_of 1) (ops.double_of program.arity)

  unfoldable pub program_execution_cost : ValueOps float double → AddressProgram → double
  program_execution_cost ops program =
      let last = ops.double_of (get_or program.lags (program.arity - 1) 0) in
      let hops = ops.double_of (content_follow_hop_count program.op) in
      if is_content_match program.op
      then (if program.arity == 0 then ops.double_of 1 else ops.add (ops.double_of 1) last)
      else (if is_content_follow_op program.op
          then (if program.arity == 0
              then ops.double_of 1
              else ops.add (ops.double_of 1) (ops.mul hops last))
          else ops.add (ops.double_of 1) (ops.double_of program.arity))

  module _ (ops : ValueOps float double) (config : LifecycleConfig float) where
    -- The mean credit of a probe less its two penalties.
    unfoldable pub structural_value : ChannelState float double → double → double
    unfolding program_description_cost program_execution_cost
    structural_value state mean_credit =
        let count = ops.double_of (max 1 state.observations) in
        let description =
          ops.div
            (ops.mul (ops.widen config.structural_description_cost_weight)
              (program_description_cost ops state.program))
            count in
        let execution =
          ops.mul (ops.widen config.structural_execution_cost_weight)
            (program_execution_cost ops state.program) in
        ops.sub (ops.sub mean_credit description) execution

    -- The probe becomes an active channel.
    abbrev pub accept_probe :
        Machine float double → ℕ → ChannelState float double → Machine float double
    accept_probe machine channel state = record machine {
      topology = set machine.topology channel (record state {
        phase = active_phase;
        born_step = machine.total_steps;
        observations = 0;
        credit_sum = ops.nought;
      });
      topology_accepted = next_u64 machine.topology_accepted;
    }

    abbrev pub reject_probe : Machine float double → ℕ → Machine float double
    reject_probe machine channel =
        let erased = physically_erase_channel ops config machine channel in
        record erased { topology_rejected = next_u64 erased.topology_rejected }

    unfoldable pub decide_probe :
        Machine float double → ℕ → ChannelState float double → Machine float double
    unfolding structural_value binding_reuse_bonus physically_erase_channel
    decide_probe machine channel state =
        let mean_credit = ops.div state.credit_sum (ops.double_of (max 1 state.observations)) in
        let plain = structural_value state mean_credit in
        let summary = binding_reuse_summary machine.reuse channel in
        let bonus = binding_reuse_bonus ops config summary in
        let aware = ops.add plain bonus in
        let value = if config.topology_accept_uses_structural_value then aware else mean_credit in
        let accept = ops.reaches value (ops.widen config.topology_accept_credit) in
        let told = push_event machine (
          channel_event ops machine.total_steps state (if accept then accepted else rejected)
            (ops.narrow aware) (ops.narrow plain) bonus summary channel) in
        record (if accept then accept_probe told channel state else reject_probe told channel) {
          next_probe_step = (machine.total_steps + config.topology_probe_interval) % 2 ^ 64;
        }

    -- A probe that is too young, or seen too little, is left as it is.
    unfoldable pub finalize_probe :
        Machine float double → ℕ → ChannelState float double → Machine float double
    unfolding decide_probe
    finalize_probe machine channel state =
        if ltb (age_of machine.total_steps state.born_step) config.topology_probe_steps
          || ltb state.observations config.topology_min_observations
        then machine
        else decide_probe machine channel state

    -- The conditions on an active channel that is pruned.
    abbrev pub is_spent : ℕ → ChannelState float double → Bool
    is_spent total_steps state =
        is_active state.phase
        && not (ltb (age_of total_steps state.born_step) config.topology_prune_patience)
        && not (ltb state.observations config.topology_prune_patience)
        && not (ops.at_least state.credit_ema config.topology_prune_credit)
        && not (is_preserve config.accepted_channel_retirement)

    unfoldable pub prune_channel :
        Machine float double → ℕ → ChannelState float double → Machine float double
    unfolding credit_event
    prune_channel machine channel state =
        let told = push_event machine (credit_event ops config machine state pruned channel) in
        let gone = apply_policy ops config config.accepted_channel_retirement told channel in
        record gone {
          topology_pruned = next_u64 gone.topology_pruned;
          next_probe_step = (machine.total_steps + config.topology_probe_interval) % 2 ^ 64;
        }

    abbrev pub prune_first :
        Machine float double → Option (ℕ × ChannelState float double) → Machine float double
    prune_first machine none = machine
    prune_first machine (some (channel, state)) = prune_channel machine channel state

    -- The first probe is finalized; without a probe, the first spent channel is pruned.
    abbrev pub finalize_first :
        Machine float double → Option (ℕ × ChannelState float double) → Machine float double
    finalize_first machine none =
        prune_first machine
          (first_channel (is_spent machine.total_steps) 1 (after_seed machine.topology))
    finalize_first machine (some (channel, state)) = finalize_probe machine channel state

    unfoldable pub maybe_finalize_topology_probe : Machine float double → Machine float double
    unfolding first_channel finalize_probe prune_channel
    maybe_finalize_topology_probe machine =
        if not config.adaptive_topology
        then machine
        else finalize_first machine (
            first_channel (λ (state : ChannelState float double). is_probe state.phase) 0
              machine.topology)

    abbrev pub freeze_probe :
        Machine float double → ℕ → ChannelState float double → Machine float double
    freeze_probe machine channel state =
        let mean_credit =
          if state.observations == 0
          then ops.nought
          else ops.div state.credit_sum (ops.double_of state.observations) in
        let summary = binding_reuse_summary machine.reuse channel in
        let bonus = binding_reuse_bonus ops config summary in
        reject_probe
          (push_event machine (
            channel_event ops machine.total_steps state rejected
              (ops.narrow (ops.add mean_credit bonus)) (ops.narrow mean_credit) bonus summary
              channel))
          channel

    abbrev pub freeze_state :
        Machine float double → ℕ → Option (ChannelState float double) → Machine float double
    freeze_state machine channel none = machine
    freeze_state machine channel (some state) =
        if not (is_probe state.phase) then machine else freeze_probe machine channel state

    -- `rounds` channels are left from `channel` on.
    unfoldable pub freeze_loop : ℕ → ℕ → Machine float double → Machine float double
    unfolding binding_reuse_bonus physically_erase_channel
    freeze_loop zero channel machine = machine
    freeze_loop (suc rounds) channel machine =
        freeze_loop rounds (channel + 1)
          (freeze_state machine channel (get_elem? machine.topology channel))

    unfoldable pub freeze_topology : Machine float double → Machine float double
    unfolding freeze_loop
    freeze_topology machine = freeze_loop (length machine.topology - 1) 1 machine

    -- The cursor, the keys and the proposal after the search for a program that is new.
    unfoldable pub propose_loop : ℕ → ℕ → List ℕ → Result (ℕ × List ℕ × Option AddressProgram)
    unfolding proposal_at has_id
    propose_loop zero cursor keys = diverge
    propose_loop (suc fuel) cursor keys =
        elim (proposal_at cursor config.topology_max_lag config.topology_max_arity
          config.topology_enable_delta config.topology_enable_content_match
          config.topology_enable_content_follow_multi) [
            | none ↦ ok ((cursor + 1) % 2 ^ 64, keys, none)
            | some program ↦ elim (has_id (address_program_key program) keys) [
              | true ↦ propose_loop fuel ((cursor + 1) % 2 ^ 64) keys
              | false ↦
                  ok (
                    (cursor + 1) % 2 ^ 64,
                    keys ++ (address_program_key program ∷ []),
                    some program,
                  )
            ]
          ]
