-- ===== src/Construct/Sound.antt =====
-- modules/machine_storage.cpp: what the constructor accepts, and the topology it begins with.
use sparse_branch_machine.Base.{
  ℕ, zero, suc, ◌+◌, ◌≤◌, ◌<◌, ◌≡◌, ◌↔◌, refl, ap, subst, arith, Bool, true, false, ◌==◌, inl, inr,
  ◌⊎◌, if◌then◌else◌, some, List, [], ◌∷◌, get_elem?, length, All, ok, throw, invalid_argument,
}
use sparse_branch_machine.Construct.{
  ConfigTests, MachineConfig, Constructed, refuse_any, refusals, seed_channel, seed_loop, construct,
  refuses_routing, constructed, is_empty,
}
use sparse_branch_machine.Lifecycle.{ValueOps}
use sparse_branch_machine.Lifecycle.Invariant.{IsTopology}
use sparse_branch_machine.Topology.{ChannelState, seed_phase, active_phase, is_probe}

-- No test of the list holds.
abbrev pub NoneHolds : List Bool → Type 0
NoneHolds tests = All (λ (test : Bool). test ≡ false) tests

nonempty : (lags : List ℕ) → is_empty lags ≡ false → 0 < length lags
nonempty [] h = absurd (cc)
nonempty (lag ∷ lags) h = omega arith

refuse_any_cases :
    (tests : List Bool)
    → ((refuse_any tests ≡ ok tt) ↔ NoneHolds tests)
      × ((refuse_any tests ≡ ok tt) ⊎ (refuse_any tests ≡ throw invalid_argument))
unfolding refuse_any
refuse_any_cases [] = ((λ e. tt, λ h. refl), inl refl)
refuse_any_cases (true ∷ tests) = ((λ e. absurd (cc), λ h. absurd (cc)), inr refl)
refuse_any_cases (false ∷ tests) =
    let (both, result) = refuse_any_cases tests in
    ((λ e. (refl, both.0 e), λ h. both.1 h.1), result)

module _ {float double : Type 0} (ops : ValueOps float double) where
  length-seed_loop : (index : ℕ) (lags : List ℕ) → length (seed_loop ops index lags) ≡ length lags
  unfolding seed_loop
  length-seed_loop index [] = refl
  length-seed_loop index (lag ∷ lags) = ap suc (length-seed_loop (index + 1) lags)

  -- The channels that the constructor makes: a seed, and active ones.
  seed_loop-phase :
      (index : ℕ) (lags : List ℕ) (i : ℕ) (state : ChannelState float double)
      → get_elem? (seed_loop ops index lags) i ≡ some state
      → state.phase ≡ (if index + i == 0 then seed_phase else active_phase)
  unfolding seed_loop
  seed_loop-phase index [] i state e = absurd (cc)
  seed_loop-phase index (lag ∷ lags) zero state e =
      let same : some (seed_channel ops index lag) ≡ some state = e in
      let at : index + 0 ≡ index = omega arith in rw at (ground arith)
  seed_loop-phase index (lag ∷ lags) (suc i) state e =
      let at : index + suc i ≡ index + 1 + i = omega arith in
      rw at (seed_loop-phase (index + 1) lags i state e)

  no_probe :
      (index : ℕ) (lags : List ℕ) (i : ℕ) (state : ChannelState float double)
      → get_elem? (seed_loop ops index lags) i ≡ some state
      → is_probe state.phase ≡ false
  no_probe index lags i state e = rw (seed_loop-phase index lags i state e) (ground arith)

  seed_loop-IsTopology :
      (limit : ℕ) (lags : List ℕ)
      → 0 < length lags
      → length lags ≤ limit
      → IsTopology limit (seed_loop ops 0 lags)
  seed_loop-IsTopology limit lags nonempty few = record {
    few = omega (arith, length-seed_loop 0 lags, few);
    some_channel = omega (arith, length-seed_loop 0 lags, nonempty);
    seeded = λ state e. seed_loop-phase 0 lags 0 state e;
    single = λ i j a b ea eb pa pb.
        let quiet : is_probe a.phase ≡ false = no_probe 0 lags i a ea in absurd (cc);
  }

  module _ (tests : ConfigTests float) (config : MachineConfig float) where
    routing_bounds :
        refuses_routing tests config ≡ false
        → (0 < length config.address_lags)
          × (length config.address_lags ≤ config.max_address_channels)
    routing_bounds h = ground (arith, nonempty config.address_lags)

    -- When no test of the configuration holds, the constructor succeeds, and the topology that it
    -- makes is well formed: at least one channel, no more than configured, the first one the seed, and
    -- every other one active, so that there is no probe.
    pub construct-IsTopology :
        NoneHolds (refusals tests config)
        → (made : Constructed float double) × (construct ops tests config ≡ ok made)
          × IsTopology config.max_address_channels made.topology
          × ((i : ℕ) (state : ChannelState float double)
              → get_elem? made.topology i ≡ some state
              → state.phase ≡ (if i == 0 then seed_phase else active_phase))
    unfolding construct
    construct-IsTopology none_holds =
        let passed : refuse_any (refusals tests config) ≡ ok tt =
          (refuse_any_cases (refusals tests config)).0.1 none_holds in
        let (some_lag, few) = routing_bounds none_holds.1.1.0 in
        (
          constructed ops config,
          rw passed refl,
          seed_loop-IsTopology config.max_address_channels config.address_lags some_lag few,
          λ i state e.
              let at : 0 + i ≡ i = omega arith in
              subst (λ (k : ℕ). state.phase ≡ (if k == 0 then seed_phase else active_phase)) at
                (seed_loop-phase 0 config.address_lags i state e),
        )

    -- The constructor throws `invalid_argument` when some test of the configuration holds.
    pub construct-refuses :
        ¬ NoneHolds (refusals tests config) → construct ops tests config ≡ throw invalid_argument
    unfolding construct
    construct-refuses bad = elim (refuse_any_cases (refusals tests config)).1 [
      | inl passed ↦ absurd (bad ((refuse_any_cases (refusals tests config)).0.0 passed))
      | inr threw ↦ rw threw refl
    ]
