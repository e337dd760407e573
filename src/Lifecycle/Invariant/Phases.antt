-- ===== src/Lifecycle/Invariant/Phases.antt =====
-- modules/machine_topology.cpp: retiring, restoring, finalizing and freezing keep the topology well
-- formed.
use sparse_branch_machine.Base.{
  ℕ, zero, suc, ◌+◌, ◌-◌, ◌≡◌, ◌≢◌, refl, arith, Bool, true, false, ◌||◌, not, leb, ◌==◌,
  Bool-cases, Option-cases, inl, inr, if◌then◌else◌, Option, none, some, List, get_elem?, set,
  length,
}
use sparse_branch_machine.Lifecycle.{
  ValueOps, Machine, LifecycleConfig, AcceptedChannelRetirement, preserve, quarantine,
  physical_erase, recoverable_retire, pruned,
}
use sparse_branch_machine.Lifecycle.Erase.{set_phase, guarded_phase, physically_erase_channel}
use sparse_branch_machine.Lifecycle.Invariant.{IsTopology, set-IsTopology, first_channel-found}
use sparse_branch_machine.Lifecycle.Probes.{
  first_channel, decide_probe, finalize_probe, prune_channel, prune_first, finalize_first,
  maybe_finalize_topology_probe, freeze_state, freeze_loop, freeze_topology,
}
use sparse_branch_machine.Lifecycle.Retire.{
  quarantine_channel, recoverably_retire_channel, apply_policy, retire_state, retire_channel,
  restore_state, restore_channel, revived, push_event, credit_event, is_preserve, is_restorable,
}
use sparse_branch_machine.Topology.{
  ChannelState, ChannelPhase, seed_phase, retired_phase, quarantined_phase, recoverable_phase,
  is_probe, is_live,
}

either {ℓ κ} :
    {A : Type ℓ} (P : A → Type κ) (b : Bool) (x y : A) → P x → P y → P (if b then x else y)
either P true x y p q = p
either P false x y p q = q

module _ {float double : Type 0} (limit : ℕ) where
  -- A machine with a well-formed topology.
  abbrev pub IsSound : Machine float double → Type 0
  IsSound machine = IsTopology limit machine.topology

  quiet-IsTopology :
      (topology : List (ChannelState float double)) (channel : ℕ) (v : ChannelState float double)
      → IsTopology limit topology
      → channel ≢ 0
      → is_probe v.phase ≡ false
      → IsTopology limit (set topology channel v)
  quiet-IsTopology topology channel v t n quiet =
      set-IsTopology limit topology channel v t (λ e. absurd (n e)) (λ p. absurd (cc))

  set_phase-IsTopology :
      (topology : List (ChannelState float double)) (channel : ℕ) (phase : ChannelPhase)
      → IsTopology limit topology
      → channel ≢ 0
      → is_probe phase ≡ false
      → IsTopology limit (set_phase topology channel phase)
  set_phase-IsTopology topology channel phase t n quiet =
      elim (Option-cases (get_elem? topology channel)) [
        | inl gone ↦ rw (gone, set_phase) t
        | inr (state, here) ↦
            rw (here, set_phase)
              (quiet-IsTopology topology channel (record state { phase = phase }) t n quiet)
      ]

  guarded_phase-IsTopology :
      (topology : List (ChannelState float double)) (channel : ℕ) (phase : ChannelPhase)
      → IsTopology limit topology
      → is_probe phase ≡ false
      → IsTopology limit (guarded_phase topology channel phase)
  guarded_phase-IsTopology topology channel phase t quiet =
      elim (Bool-cases (leb (length topology) channel || channel == 0)) [
        | inl refused ↦ rw refused t
        | inr taken ↦ rw taken (set_phase-IsTopology topology channel phase t (ground arith) quiet)
      ]

  module _ (ops : ValueOps float double) (config : LifecycleConfig float) where
    pub physically_erase_channel-IsSound :
        (machine : Machine float double) (channel : ℕ)
        → IsSound machine
        → IsSound (physically_erase_channel ops config machine channel)
    unfolding physically_erase_channel
    physically_erase_channel-IsSound machine channel t =
        elim (Bool-cases (leb (length machine.topology) channel || channel == 0)) [
          | inl refused ↦ rw refused t
          | inr taken ↦
              rw taken
                (set_phase-IsTopology machine.topology channel retired_phase t (ground arith) refl)
        ]

    apply_policy-IsSound :
        (policy : AcceptedChannelRetirement) (machine : Machine float double) (channel : ℕ)
        → IsSound machine
        → IsSound (apply_policy ops config policy machine channel)
    unfolding quarantine_channel recoverably_retire_channel
    apply_policy-IsSound quarantine machine channel t =
        guarded_phase-IsTopology machine.topology channel quarantined_phase t refl
    apply_policy-IsSound recoverable_retire machine channel t =
        guarded_phase-IsTopology machine.topology channel recoverable_phase t refl
    apply_policy-IsSound physical_erase machine channel t =
        physically_erase_channel-IsSound machine channel t
    apply_policy-IsSound preserve machine channel t =
        physically_erase_channel-IsSound machine channel t

    pub retire_channel-IsSound :
        (machine : Machine float double) (channel : ℕ) (policy : AcceptedChannelRetirement)
        → IsSound machine
        → IsSound (retire_channel ops config machine channel policy).0
    unfolding retire_channel
    retire_channel-IsSound machine channel policy t = after (get_elem? machine.topology channel)
      where
        after :
            (o : Option (ChannelState float double))
            → IsSound (retire_state ops config machine channel policy o).0
        after none = t
        after (some state) =
            elim (Bool-cases (channel == 0 || is_preserve policy || not (is_live state.phase))) [
              | inl refused ↦ rw refused t
              | inr taken ↦ rw taken (
                  apply_policy-IsSound policy
                    (push_event machine (credit_event ops config machine state pruned channel))
                    channel t)
            ]

    pub restore_channel-IsSound :
        (machine : Machine float double) (channel : ℕ)
        → IsSound machine
        → IsSound (restore_channel ops config machine channel).0
    unfolding restore_channel
    restore_channel-IsSound machine channel t = after (get_elem? machine.topology channel)
      where
        after :
            (o : Option (ChannelState float double))
            → IsSound (restore_state ops config machine channel o).0
        after none = t
        after (some state) = elim (Bool-cases (channel == 0 || not (is_restorable state.phase))) [
          | inl refused ↦ rw refused t
          | inr taken ↦ rw taken (
              quiet-IsTopology machine.topology channel (revived machine.total_steps state) t
                (ground arith) refl)
        ]

    decide_probe-IsSound :
        (machine : Machine float double) (channel : ℕ) (state : ChannelState float double)
        → IsSound machine
        → channel ≢ 0
        → IsSound (decide_probe ops config machine channel state)
    unfolding decide_probe
    decide_probe-IsSound machine channel state t n =
        either IsSound _ _ _ (quiet-IsTopology machine.topology channel _ t n refl)
          (physically_erase_channel-IsSound _ channel t)

    finalize_probe-IsSound :
        (machine : Machine float double) (channel : ℕ) (state : ChannelState float double)
        → IsSound machine
        → channel ≢ 0
        → IsSound (finalize_probe ops config machine channel state)
    unfolding finalize_probe
    finalize_probe-IsSound machine channel state t n =
        either IsSound _ _ _ t (decide_probe-IsSound machine channel state t n)

    prune_first-IsSound :
        (machine : Machine float double) (o : Option (ℕ × ChannelState float double))
        → IsSound machine
        → IsSound (prune_first ops config machine o)
    unfolding prune_channel
    prune_first-IsSound machine none t = t
    prune_first-IsSound machine (some (channel, state)) t =
        apply_policy-IsSound config.accepted_channel_retirement
          (push_event machine (credit_event ops config machine state pruned channel)) channel t

    probe_not_seed :
        (topology : List (ChannelState float double))
        → IsTopology limit topology
        → (i : ℕ) (state : ChannelState float double) → get_elem? topology i ≡ some state
        → is_probe state.phase ≡ true
        → i ≢ 0
    probe_not_seed topology t zero state there probe e =
        let seed : state.phase ≡ seed_phase = t.seeded state there in
        let no : false ≡ true = rw seed at probe in absurd (cc)
    probe_not_seed topology t (suc i) state there probe e = absurd (omega arith)

    pub maybe_finalize-IsSound :
        (machine : Machine float double)
        → IsSound machine
        → IsSound (maybe_finalize_topology_probe ops config machine)
    unfolding maybe_finalize_topology_probe
    maybe_finalize-IsSound machine t = either IsSound (not config.adaptive_topology) _ _ t (
        after
          (first_channel (λ (state : ChannelState float double). is_probe state.phase) 0
            machine.topology)
          refl)
      where
        after :
            (o : Option (ℕ × ChannelState float double))
            → first_channel
                (λ (state : ChannelState float double). is_probe state.phase)
                0
                machine.topology
              ≡ o
            → IsSound (finalize_first ops config machine o)
        after none e = prune_first-IsSound machine _ t
        after (some (channel, state)) e =
            let (i, at, there, probe) =
              first_channel-found (λ (s : ChannelState float double). is_probe s.phase) 0
                machine.topology channel state e in
            finalize_probe-IsSound machine channel state t (λ none_left.
              probe_not_seed machine.topology t i state there probe (omega (arith, at, none_left)))

    freeze_loop-IsSound :
        (rounds channel : ℕ) (machine : Machine float double)
        → IsSound machine
        → IsSound (freeze_loop ops config rounds channel machine)
    unfolding freeze_loop
    freeze_loop-IsSound zero channel machine t = t
    freeze_loop-IsSound (suc rounds) channel machine t =
        freeze_loop-IsSound rounds (channel + 1) _ (after (get_elem? machine.topology channel))
      where
        after :
            (o : Option (ChannelState float double))
            → IsSound (freeze_state ops config machine channel o)
        after none = t
        after (some state) =
            either IsSound (not (is_probe state.phase)) _ _ t
              (physically_erase_channel-IsSound _ channel t)

    pub freeze_topology-IsSound :
        (machine : Machine float double)
        → IsSound machine
        → IsSound (freeze_topology ops config machine)
    unfolding freeze_topology
    freeze_topology-IsSound machine t =
        freeze_loop-IsSound (length machine.topology - 1) 1 machine t
