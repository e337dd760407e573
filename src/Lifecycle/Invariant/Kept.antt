-- ===== src/Lifecycle/Invariant/Kept.antt =====
-- modules/machine_topology.cpp: every operation of the life cycle keeps the topology well formed.
use sparse_branch_machine.Base.{
  ℕ, ◌-◌, ◌^◌, ◌<◌, ◌≡◌, ◌≢◌, refl, arith, Bool, true, false, ◌||◌, not, ltb, leb, ◌==◌, Bool-cases,
  inl, inr, Option, none, some, List, [], ◌∷◌, ◌++◌, get_elem?, length, ok,
}
use sparse_branch_machine.Address.{AddressProgram}
use sparse_branch_machine.Base.Elements.{get_elem?-snoc}
use sparse_branch_machine.Lifecycle.{ValueOps, Machine, LifecycleConfig, AcceptedChannelRetirement}
use sparse_branch_machine.Lifecycle.Begin.{
  blank_channel, probe_of, place_probe, place_in, with_blank, with_proposal, begin_probe,
  maybe_begin_topology_probe, has_probe, count_live,
}
use sparse_branch_machine.Lifecycle.Invariant.{
  set-IsTopology, snoc-IsTopology, first_channel-found, first_channel-none,
}
use sparse_branch_machine.Lifecycle.Probes.{
  first_channel, after_seed, is_retired, maybe_finalize_topology_probe, freeze_topology,
}
use sparse_branch_machine.Lifecycle.Proposing.{all_proposals, propose_loop_total}
use sparse_branch_machine.Lifecycle.Retire.{retire_channel, restore_channel}
use sparse_branch_machine.Topology.{ChannelState, is_probe}
use sparse_branch_machine.Lifecycle.Invariant.Phases.{
  IsSound, retire_channel-IsSound, restore_channel-IsSound, maybe_finalize-IsSound,
  freeze_topology-IsSound,
}

module _ {float double : Type 0} (limit : ℕ) where
  module _ (ops : ValueOps float double) (config : LifecycleConfig float) where
    -- No channel is a probe.
    abbrev NoProbe : List (ChannelState float double) → Type 0
    NoProbe topology =
        (i : ℕ) (a : ChannelState float double)
        → get_elem? topology i ≡ some a
        → is_probe a.phase ≡ false

    place_probe-IsSound :
        (machine : Machine float double) (slot : ℕ) (program : AddressProgram)
        → IsSound limit machine
        → NoProbe machine.topology
        → slot ≢ 0
        → IsSound limit (place_probe ops config machine slot program)
    unfolding place_probe
    place_probe-IsSound machine slot program t quiet n =
        set-IsTopology limit machine.topology slot (probe_of ops config machine program) t
          (λ e. absurd (n e))
          (λ p i a there probe. absurd (let no : is_probe a.phase ≡ false = quiet i a there in cc))

    place_in-IsSound :
        (machine : Machine float double) (program : AddressProgram)
        (o : Option (ℕ × ChannelState float double))
        → config.max_address_channels ≡ limit
        → IsSound limit machine
        → NoProbe machine.topology
        → ((slot : ℕ) (state : ChannelState float double) → o ≡ some (slot, state) → slot ≢ 0)
        → IsSound limit (place_in ops config machine program o)
    place_in-IsSound machine program (some (slot, state)) room t quiet n =
        place_probe-IsSound machine slot program t quiet (n slot state refl)
    place_in-IsSound machine program none room t quiet n =
        elim (Bool-cases (leb config.max_address_channels (length machine.topology))) [
          | inl full ↦ rw full t
          | inr free ↦
              let below : length machine.topology < limit = ground arith in
              rw free (
                place_probe-IsSound (with_blank ops config machine) (length machine.topology)
                  program
                  (snoc-IsTopology limit machine.topology (blank_channel ops config) t below refl)
                  (snoc_quiet machine.topology quiet)
                  (λ e. absurd (omega (arith, e, t.some_channel))))
        ]
      where
        snoc_quiet :
            (topology : List (ChannelState float double))
            → NoProbe topology
            → NoProbe (topology ++ (blank_channel ops config ∷ []))
        snoc_quiet topology calm i a there = elim (Bool-cases (i == length topology)) [
          | inl last ↦
              let h : some (blank_channel ops config) ≡ some a =
                rw (get_elem?-snoc topology (blank_channel ops config) i, last) at there in
              ground arith
          | inr inside ↦
              calm i a (rw (get_elem?-snoc topology (blank_channel ops config) i, inside) at there)
        ]

    with_proposal-IsSound :
        (machine : Machine float double) (cursor : ℕ) (keys : List ℕ) (o : Option AddressProgram)
        → config.max_address_channels ≡ limit
        → IsSound limit machine
        → NoProbe machine.topology
        → IsSound limit (with_proposal ops config machine (cursor, keys, o))
    with_proposal-IsSound machine cursor keys none room t quiet = t
    with_proposal-IsSound machine cursor keys (some program) room t quiet =
        place_in-IsSound (record machine { proposal_cursor = cursor; proposed_program_keys = keys })
          program _ room t quiet
          (λ slot state e.
            let (i, at, there, passes) =
              first_channel-found (λ (s : ChannelState float double). is_retired s.phase) 1
                (after_seed machine.topology) slot state e in
            omega (arith, at))

    begin_probe-IsSound :
        (fuel : ℕ) (machine : Machine float double)
        → config.max_address_channels ≡ limit
        → config.topology_max_lag < 2 ^ 32 - 1
        → length (all_proposals ops config) < 2 ^ 64
        → length (all_proposals ops config) < fuel
        → IsSound limit machine
        → (after : Machine float double) × (begin_probe ops config fuel machine ≡ ok after)
          × IsSound limit after
    unfolding begin_probe
    begin_probe-IsSound fuel machine room small bounded enough t = elim (Bool-cases busy) [
      | inl stays ↦ (machine, rw stays refl, t)
      | inr goes ↦
          let (cursor, keys, found, eq, fresh) =
            propose_loop_total ops config fuel machine.proposal_cursor machine.proposed_program_keys
              small bounded (omega arith) (omega arith) in
          (
            with_proposal ops config machine (cursor, keys, found),
            rw (goes, eq) refl,
            with_proposal-IsSound machine cursor keys found room t (quiet goes),
          )
    ]
      where
        first : Option (ℕ × ChannelState float double)
        first =
            first_channel (λ (state : ChannelState float double). is_probe state.phase) 0
              machine.topology

        busy : Bool
        busy =
            not config.adaptive_topology
            || ltb machine.total_steps machine.next_probe_step
            || has_probe first
            || leb config.max_address_channels (count_live machine.topology)

        no_first : (o : Option (ℕ × ChannelState float double)) → has_probe o ≡ false → o ≡ none
        no_first none e = refl
        no_first (some found) e = absurd (cc)

        quiet : busy ≡ false → NoProbe machine.topology
        quiet goes =
            first_channel-none (λ (state : ChannelState float double). is_probe state.phase) 0
              machine.topology (no_first first (ground arith))

    -- With a largest lag below 2^32 - 1, fewer than 2^64 proposals in all, and more rounds of the
    -- search than there are proposals, `maybe_begin_topology_probe` returns, and it keeps the topology
    -- well formed: at most the configured number of channels, the seed first, and at most one probe.
    pub maybe_begin_topology_probe-IsSound :
        (fuel : ℕ) (machine : Machine float double) (learn : Bool)
        → config.max_address_channels ≡ limit
        → config.topology_max_lag < 2 ^ 32 - 1
        → length (all_proposals ops config) < 2 ^ 64
        → length (all_proposals ops config) < fuel
        → IsSound limit machine
        → (after : Machine float double) × (maybe_begin_topology_probe ops config fuel machine learn
            ≡ ok after)
          × IsSound limit after
    unfolding maybe_begin_topology_probe
    maybe_begin_topology_probe-IsSound fuel machine false room small bounded enough t =
        (machine, refl, t)
    maybe_begin_topology_probe-IsSound fuel machine true room small bounded enough t =
        begin_probe-IsSound fuel (maybe_finalize_topology_probe ops config machine) room small
          bounded enough (maybe_finalize-IsSound limit ops config machine t)

    -- Retiring, restoring, finalizing and freezing keep the topology well formed: at most the
    -- configured number of channels, the seed first, and at most one probe.
    pub lifecycle-IsSound :
        (machine : Machine float double) (channel : ℕ) (policy : AcceptedChannelRetirement)
        → IsSound limit machine
        → IsSound limit (retire_channel ops config machine channel policy).0
          × IsSound limit (restore_channel ops config machine channel).0
          × IsSound limit (maybe_finalize_topology_probe ops config machine)
          × IsSound limit (freeze_topology ops config machine)
    lifecycle-IsSound machine channel policy t = (
      retire_channel-IsSound limit ops config machine channel policy t,
      restore_channel-IsSound limit ops config machine channel t,
      maybe_finalize-IsSound limit ops config machine t,
      freeze_topology-IsSound limit ops config machine t,
    )
