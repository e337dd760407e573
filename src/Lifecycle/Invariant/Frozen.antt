-- ===== src/Lifecycle/Invariant/Frozen.antt =====
-- modules/machine_topology.cpp: `freeze_topology` leaves no probe, and makes none.
use sparse_branch_machine.Base.{
  ℕ, zero, suc, ◌+◌, ◌-◌, ◌≤◌, ◌<◌, ◌≡◌, ◌≢◌, refl, sym, arith, ◌∙◌, true, false, ◌||◌, ◌&&◌, ltb,
  leb, ◌==◌, ==_iff, Bool-cases, Option-cases, inl, inr, ◌⊎◌, Option, none, some, List, get_elem?,
  set, length,
}
use sparse_branch_machine.Base.Elements.{get_elem?-set, get_elem?-lt}
use sparse_branch_machine.Lifecycle.{ValueOps, Machine, LifecycleConfig}
use sparse_branch_machine.Lifecycle.Erase.{set_phase, physically_erase_channel}
use sparse_branch_machine.Lifecycle.Invariant.{IsTopology}
use sparse_branch_machine.Lifecycle.Probes.{freeze_state, freeze_loop, freeze_topology}
use sparse_branch_machine.Topology.{ChannelState, retired_phase, is_probe, seed_phase}

module _ {float double : Type 0} where
  -- Every channel after is a channel before, or no probe.
  abbrev pub OldOrQuiet :
      List (ChannelState float double) → List (ChannelState float double) → Type 0
  OldOrQuiet old new =
      (i : ℕ) (a : ChannelState float double)
      → get_elem? new i ≡ some a
      → (get_elem? old i ≡ some a) ⊎ (is_probe a.phase ≡ false)

  abbrev pub IsQuiet : ℕ → List (ChannelState float double) → Type 0
  IsQuiet channel topology =
      (a : ChannelState float double)
      → get_elem? topology channel ≡ some a
      → is_probe a.phase ≡ false

  retired_old :
      (topology : List (ChannelState float double)) (channel : ℕ)
      → OldOrQuiet topology (set_phase topology channel retired_phase)
        × IsQuiet channel (set_phase topology channel retired_phase)
  retired_old topology channel = elim (Option-cases (get_elem? topology channel)) [
    | inl gone ↦ rw (gone, set_phase) (λ i a e. inl e, λ a e. absurd (cc))
    | inr (state, here) ↦
        rw (here, set_phase) (λ i a e. old state i a e, λ a e. quiet state here a e)
  ]
    where
      old :
          (state : ChannelState float double) (i : ℕ) (a : ChannelState float double)
          → get_elem? (set topology channel (record state { phase = retired_phase })) i ≡ some a
          → (get_elem? topology i ≡ some a) ⊎ (is_probe a.phase ≡ false)
      old state i a e = elim (Bool-cases (channel == i && ltb i (length topology))) [
        | inl hit ↦
            let h : some (record state { phase = retired_phase }) ≡ some a =
              rw (get_elem?-set topology channel i (record state { phase = retired_phase }), hit) at
                e in
            inr (ground arith)
        | inr miss ↦ inl (
            rw (get_elem?-set topology channel i (record state { phase = retired_phase }), miss) at
              e)
      ]

      quiet :
          (state : ChannelState float double)
          → get_elem? topology channel ≡ some state
          → (a : ChannelState float double)
          → get_elem? (set topology channel (record state { phase = retired_phase })) channel
            ≡ some a
          → is_probe a.phase ≡ false
      quiet state here a e =
          let hit : (channel == channel && ltb channel (length topology)) ≡ true =
            ground (arith, get_elem?-lt topology channel here) in
          let h : some (record state { phase = retired_phase }) ≡ some a =
            rw
              (get_elem?-set topology channel channel (record state { phase = retired_phase }), hit)
              at e in
          ground arith

  module _ (ops : ValueOps float double) (config : LifecycleConfig float) where
    erase-OldOrQuiet :
        (machine : Machine float double) (channel : ℕ)
        → channel ≢ 0
        → channel < length machine.topology
        → let after = physically_erase_channel ops config machine channel in
          OldOrQuiet machine.topology after.topology × IsQuiet channel after.topology
    unfolding physically_erase_channel
    erase-OldOrQuiet machine channel n inside =
        let taken : (leb (length machine.topology) channel || channel == 0) ≡ false =
          ground arith in
        rw taken (retired_old machine.topology channel)

    freeze_state-OldOrQuiet :
        (machine : Machine float double) (channel : ℕ) (o : Option (ChannelState float double))
        → get_elem? machine.topology channel ≡ o
        → channel ≢ 0
        → let after = freeze_state ops config machine channel o in
          OldOrQuiet machine.topology after.topology × IsQuiet channel after.topology
    freeze_state-OldOrQuiet machine channel none e n = (λ i a h. inl h, λ a h. absurd (cc))
    freeze_state-OldOrQuiet machine channel (some state) e n =
        elim (Bool-cases (is_probe state.phase)) [
          | inl probe ↦
              rw probe (erase-OldOrQuiet _ channel n (get_elem?-lt machine.topology channel e))
          | inr other ↦
              rw other
                (λ i a h. inl h, λ a h. let same : some state ≡ some a = sym e ∙ h in ground arith)
        ]

    freeze_loop-old :
        (rounds channel : ℕ) (machine : Machine float double)
        → channel ≢ 0
        → (i : ℕ) (a : ChannelState float double)
        → get_elem? (freeze_loop ops config rounds channel machine).topology i ≡ some a
        → is_probe a.phase ≡ true
        → (get_elem? machine.topology i ≡ some a) × ((i < channel) ⊎ (channel + rounds ≤ i))
    unfolding freeze_loop
    freeze_loop-old zero channel machine n i a e probe = (e, omega arith)
    freeze_loop-old (suc rounds) channel machine n i a e probe =
        let (old, quiet) =
          freeze_state-OldOrQuiet machine channel (get_elem? machine.topology channel) refl n in
        let (mid, far) =
          freeze_loop-old rounds (channel + 1)
            (freeze_state ops config machine channel (get_elem? machine.topology channel))
            (omega arith) i a e probe in
        elim (Bool-cases (i == channel)) [
          | inl same ↦
              let no : is_probe a.phase ≡ false = quiet a (rw ((==_iff i channel).0 same) at mid) in
              absurd (cc)
          | inr other ↦ elim (old i a mid) [
            | inl before ↦ (before, ground arith)
            | inr calm ↦ absurd (cc)
          ]
        ]

    -- Freezing a well-formed topology leaves no channel that is a probe.
    pub freeze_topology-no_probe :
        (limit : ℕ) (machine : Machine float double)
        → IsTopology limit machine.topology
        → (i : ℕ) (a : ChannelState float double)
        → get_elem? (freeze_topology ops config machine).topology i ≡ some a
        → is_probe a.phase ≡ false
    unfolding freeze_topology
    freeze_topology-no_probe limit machine t i a e = elim (Bool-cases (is_probe a.phase)) [
      | inr quiet ↦ quiet
      | inl probe ↦
          let (before, far) =
            freeze_loop-old (length machine.topology - 1) 1 machine (omega arith) i a e probe in
          let inside : i < length machine.topology = get_elem?-lt machine.topology i before in
          let first : i ≡ 0 = omega arith in
          let seed : a.phase ≡ seed_phase = t.seeded a (rw first at before) in rw seed refl
    ]
