-- ===== src/Lifecycle/Begin.antt =====
-- modules/machine_topology.cpp: `maybe_begin_topology_probe` and `observe_topology_credit`.
use sparse_branch_machine.Base.{
  ℕ, zero, suc, ◌+◌, ◌-◌, ◌%◌, ◌^◌, min, Bool, true, false, ◌||◌, ◌&&◌, not, ltb, leb, ◌==◌,
  if◌then◌else◌, Option, none, some, List, [], ◌∷◌, ◌++◌, get_elem?, set, length, Result, ok, ◌>>=◌,
}
use sparse_branch_machine.Address.{
  AddressProgram, AddressGraphEdgeKind, tuple, no_edge, invalid_channel, address_parent_edge_kind,
  address_dependency_edge_kind,
}
use sparse_branch_machine.Lifecycle.{ValueOps, proposed, TopologyEvent, Machine, LifecycleConfig}
use sparse_branch_machine.Lifecycle.Probes.{
  first_channel, after_seed, is_retired, age_of, maybe_finalize_topology_probe, propose_loop,
}
use sparse_branch_machine.Lifecycle.Retire.{push_event}
use sparse_branch_machine.Topology.{
  ChannelState, probe_phase, retired_phase, is_live, is_probe, channel_enabled,
}
use sparse_branch_machine.Topology.Lookup.{resolve_channel_lineage}
use sparse_branch_machine.Topology.Reuse.{resized, next_u64}
use sparse_branch_machine.Topology.Slots.{is_active}

module _ {float double : Type 0} where
  -- The channels in one of the three live phases.
  unfoldable pub count_live : List (ChannelState float double) → ℕ
  count_live [] = 0
  count_live (state ∷ topology) =
      let rest = count_live topology in if is_live state.phase then rest + 1 else rest

  abbrev pub has_probe : Option (ℕ × ChannelState float double) → Bool
  has_probe none = false
  has_probe (some found) = true

  module _ (ops : ValueOps float double) (config : LifecycleConfig float) where
    -- `AddressChannelState{}`
    abbrev pub blank_channel : ChannelState float double
    blank_channel = record {
      program = record { lags = 0 ∷ 0 ∷ []; arity = 1; op = tuple };
      phase = retired_phase;
      credit_ema = ops.tests.nought;
      credit_sum = ops.nought;
      observations = 0;
      born_step = 0;
      generation = 0;
      parent_channel = invalid_channel;
      dependency_channel = invalid_channel;
      parent_edge_kind = no_edge;
      dependency_edge_kind = no_edge;
    }

    abbrev pub edge_or_none : ℕ → AddressGraphEdgeKind → AddressGraphEdgeKind
    edge_or_none channel kind = if channel == invalid_channel then no_edge else kind

    -- The probe of a program, with the channels it descends from.
    abbrev pub probe_of : Machine float double → AddressProgram → ChannelState float double
    probe_of machine program =
        let (parent, dependency) = resolve_channel_lineage machine.topology program in
        record {
          program = program;
          phase = probe_phase;
          credit_ema = ops.tests.nought;
          credit_sum = ops.nought;
          observations = 0;
          born_step = machine.total_steps;
          generation = next_u64 machine.generation_counter;
          parent_channel = parent;
          dependency_channel = dependency;
          parent_edge_kind = edge_or_none parent (address_parent_edge_kind program);
          dependency_edge_kind = edge_or_none dependency (address_dependency_edge_kind program);
        }

    abbrev pub proposed_event :
        Machine float double → ℕ → ChannelState float double → TopologyEvent float
    proposed_event machine slot state = record {
      step = machine.total_steps;
      channel_generation = state.generation;
      program = state.program;
      decision = proposed;
      credit = ops.tests.nought;
      structural_value_without_reuse = ops.tests.nought;
      reuse_bonus = ops.tests.nought;
      reuse_observations = 0;
      reuse_unique_keys = 0;
      reuse_events = 0;
      channel = slot % 2 ^ 8;
      parent_channel = state.parent_channel;
      dependency_channel = state.dependency_channel;
      parent_edge_kind = state.parent_edge_kind;
      dependency_edge_kind = state.dependency_edge_kind;
    }

    -- The probe is written to a slot that is there.
    unfoldable pub place_probe : Machine float double → ℕ → AddressProgram → Machine float double
    unfolding resolve_channel_lineage
    place_probe machine slot program =
        let state = probe_of machine program in
        let told = push_event machine (proposed_event machine slot state) in
        record told {
          topology = set machine.topology slot state;
          generation_counter = next_u64 machine.generation_counter;
          reuse = record machine.reuse {
            channels = set (resized (slot + 1) machine.reuse.channels) slot [];
          };
          topology_proposals = next_u64 machine.topology_proposals;
          next_probe_step = (machine.total_steps + config.topology_probe_steps) % 2 ^ 64;
        }

    abbrev pub with_blank : Machine float double → Machine float double
    with_blank machine = record machine {
      topology = machine.topology ++ (blank_channel ∷ []);
      reuse = record machine.reuse { channels = machine.reuse.channels ++ ([] ∷ []) };
    }

    -- The slot of the first retired channel, or a new one while there is room.
    abbrev pub place_in :
        Machine float double
        → AddressProgram
        → Option (ℕ × ChannelState float double)
        → Machine float double
    place_in machine program (some (slot, state)) = place_probe machine slot program
    place_in machine program none =
        if leb config.max_address_channels (length machine.topology)
        then machine
        else place_probe (with_blank machine) (length machine.topology) program

    abbrev pub with_proposal :
        Machine float double → ℕ × List ℕ × Option AddressProgram → Machine float double
    with_proposal machine (cursor, keys, none) = record machine {
      proposal_cursor = cursor;
      proposed_program_keys = keys;
    }
    with_proposal machine (cursor, keys, some program) =
        place_in (record machine { proposal_cursor = cursor; proposed_program_keys = keys }) program
          (first_channel (λ (state : ChannelState float double). is_retired state.phase) 1
            (after_seed machine.topology))

    -- `fuel` bounds the rounds of the search for a proposal.
    unfoldable pub begin_probe : ℕ → Machine float double → Result (Machine float double)
    unfolding propose_loop first_channel place_probe count_live
    begin_probe fuel machine =
        if not config.adaptive_topology
          || ltb machine.total_steps machine.next_probe_step
          || has_probe (
              first_channel (λ (state : ChannelState float double). is_probe state.phase) 0
                machine.topology)
          || leb config.max_address_channels (count_live machine.topology)
        then ok machine
        else propose_loop ops config fuel machine.proposal_cursor machine.proposed_program_keys
          >>= λ found. ok (with_proposal machine found)

    unfoldable pub maybe_begin_topology_probe :
        ℕ → Machine float double → Bool → Result (Machine float double)
    unfolding begin_probe maybe_finalize_topology_probe
    maybe_begin_topology_probe fuel machine learn =
        if not learn
        then ok machine
        else begin_probe fuel (maybe_finalize_topology_probe ops config machine)

    -- The credit of one channel: a probe counts it only in its validation steps.
    abbrev pub credited : ℕ → float → ChannelState float double → ChannelState float double
    credited total_steps credit state =
        let age = age_of total_steps state.born_step in
        let validation = min config.topology_validation_steps config.topology_probe_steps in
        let ema =
          ops.add_float (ops.mul_float config.topology_credit_decay state.credit_ema)
            (ops.mul_float (ops.sub_float ops.tests.one config.topology_credit_decay) credit) in
        let counts =
          is_probe state.phase
          && leb (config.topology_probe_steps - validation) age
          && leb config.topology_probe_warmup age in
        record state {
          credit_ema = ema;
          credit_sum =
              if counts then ops.add state.credit_sum (ops.widen credit) else state.credit_sum;
          observations =
              if is_active state.phase || counts
              then next_u64 state.observations
              else state.observations;
        }

    abbrev pub credit_state :
        ℕ
        → List (ChannelState float double)
        → ℕ
        → Option (ChannelState float double)
        → Option float
        → List (ChannelState float double)
    credit_state total_steps topology channel (some state) (some credit) =
        if not (channel_enabled topology channel)
        then topology
        else set topology channel (credited total_steps credit state)
    credit_state total_steps topology channel (some state) none = topology
    credit_state total_steps topology channel none credit = topology

    -- `rounds` channels are left from `channel` on.
    unfoldable pub credit_loop :
        ℕ → List float → ℕ → ℕ → List (ChannelState float double) → List (ChannelState float double)
    unfolding channel_enabled
    credit_loop total_steps credits zero channel topology = topology
    credit_loop total_steps credits (suc rounds) channel topology =
        credit_loop total_steps credits rounds (channel + 1) (
          credit_state total_steps topology channel (get_elem? topology channel)
            (get_elem? credits channel))

    unfoldable pub observe_topology_credit :
        Machine float double → List float → Machine float double
    unfolding credit_loop
    observe_topology_credit machine credits =
        if not config.adaptive_topology then machine else record machine {
          topology =
              credit_loop machine.total_steps credits (length machine.topology) 0 machine.topology;
        }
