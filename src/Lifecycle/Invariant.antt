-- ===== src/Lifecycle/Invariant.antt =====
-- modules/machine_topology.cpp: what every operation of the life cycle keeps of the topology.
pub mod Phases
pub mod Kept
pub mod Frozen
use sparse_branch_machine.Base.{
  ℕ, zero, suc, ◌+◌, ◌-◌, ◌≤◌, ◌<◌, ◌≡◌, ◌≢◌, refl, sym, ap, arith, ◌∙◌, Bool, true, false, ◌&&◌,
  ltb, ◌==◌, ==_iff, Bool-cases, inl, inr, ◌⊎◌, if◌then◌else◌, Option, none, some, List, [], ◌∷◌,
  ◌++◌, get_elem?, set, length, length-set, length-append,
}
use sparse_branch_machine.Base.Elements.{get_elem?-set, get_elem?-snoc, get_elem?-lt}
use sparse_branch_machine.Lifecycle.Probes.{first_channel}
use sparse_branch_machine.Topology.{ChannelState, ChannelPhase, seed_phase, is_probe}

module _ {float double : Type 0} where
  -- At most as many channels as configured, the first one the seed, and at most one a probe.
  pub record IsTopology (limit : ℕ) (topology : List (ChannelState float double)) : Type 0 where
    pub few : length topology ≤ limit
    pub some_channel : 0 < length topology
    pub seeded :
        (state : ChannelState float double)
        → get_elem? topology 0 ≡ some state
        → state.phase ≡ seed_phase
    pub single :
        (i j : ℕ) (a b : ChannelState float double)
        → get_elem? topology i ≡ some a
        → get_elem? topology j ≡ some b
        → is_probe a.phase ≡ true
        → is_probe b.phase ≡ true
        → i ≡ j

  -- The only channel that may be a probe.
  abbrev pub OnlyProbe : ℕ → List (ChannelState float double) → Type 0
  OnlyProbe channel topology =
      (i : ℕ) (a : ChannelState float double)
      → get_elem? topology i ≡ some a
      → is_probe a.phase ≡ true
      → i ≡ channel

  set_cases :
      (topology : List (ChannelState float double)) (channel : ℕ) (v : ChannelState float double)
      (i : ℕ) (a : ChannelState float double)
      → get_elem? (set topology channel v) i ≡ some a
      → ((i ≡ channel) × (a ≡ v)) ⊎ (get_elem? topology i ≡ some a)
  set_cases topology channel v i a e = elim (Bool-cases (channel == i && ltb i (length topology))) [
    | inl here ↦
        let h : some v ≡ some a = rw (get_elem?-set topology channel i v, here) at e in
        inl (ground arith, cc)
    | inr there ↦ inr (rw (get_elem?-set topology channel i v, there) at e)
  ]

  pub set-IsTopology :
      (limit : ℕ) (topology : List (ChannelState float double)) (channel : ℕ)
      (v : ChannelState float double)
      → IsTopology limit topology
      → (channel ≡ 0 → v.phase ≡ seed_phase)
      → (is_probe v.phase ≡ true → OnlyProbe channel topology)
      → IsTopology limit (set topology channel v)
  set-IsTopology limit topology channel v t first only = record {
    few = omega (arith, length-set topology channel v, t.few);
    some_channel = omega (arith, length-set topology channel v, t.some_channel);
    seeded = λ state e. elim (set_cases topology channel v 0 state e) [
      | inl (here, same) ↦ rw same (first (sym here))
      | inr old ↦ t.seeded state old
    ];
    single = λ i j a b ea eb pa pb. elim (set_cases topology channel v i a ea) [
      | inl (at_i, same_a) ↦ elim (set_cases topology channel v j b eb) [
        | inl (at_j, same_b) ↦ at_i ∙ sym at_j
        | inr old_b ↦ at_i ∙ sym (only (rw same_a at pa) j b old_b pb)
      ]
      | inr old_a ↦ elim (set_cases topology channel v j b eb) [
        | inl (at_j, same_b) ↦ only (rw same_b at pb) i a old_a pa ∙ sym at_j
        | inr old_b ↦ t.single i j a b old_a old_b pa pb
      ]
    ];
  }

  snoc_cases :
      (topology : List (ChannelState float double)) (v : ChannelState float double) (i : ℕ)
      (a : ChannelState float double)
      → get_elem? (topology ++ (v ∷ [])) i ≡ some a
      → is_probe v.phase ≡ false
      → is_probe a.phase ≡ true
      → get_elem? topology i ≡ some a
  snoc_cases topology v i a e quiet p = elim (Bool-cases (i == length topology)) [
    | inl last ↦
        let h : some v ≡ some a = rw (get_elem?-snoc topology v i, last) at e in
        absurd (ground arith)
    | inr inside ↦ rw (get_elem?-snoc topology v i, inside) at e
  ]

  pub snoc-IsTopology :
      (limit : ℕ) (topology : List (ChannelState float double)) (v : ChannelState float double)
      → IsTopology limit topology
      → length topology < limit
      → is_probe v.phase ≡ false
      → IsTopology limit (topology ++ (v ∷ []))
  snoc-IsTopology limit topology v t room quiet = record {
    few = omega (arith, length-append topology (v ∷ []), room);
    some_channel = omega (arith, length-append topology (v ∷ []), t.some_channel);
    seeded = λ state e.
        let inside : (0 == length topology) ≡ false = ground (arith, t.some_channel) in
        t.seeded state (rw (get_elem?-snoc topology v 0, inside) at e);
    single = λ i j a b ea eb pa pb.
        t.single i j a b (snoc_cases topology v i a ea quiet pa)
          (snoc_cases topology v j b eb quiet pb) pa pb;
  }

  -- A channel that `first_channel` returns is there, and passes; without one, no channel passes.
  pub first_channel-found :
      (test : ChannelState float double → Bool) (k : ℕ)
      (topology : List (ChannelState float double)) (channel : ℕ)
      (state : ChannelState float double)
      → first_channel test k topology ≡ some (channel, state)
      → (i : ℕ) × (channel ≡ k + i) × (get_elem? topology i ≡ some state) × (test state ≡ true)
  unfolding first_channel
  first_channel-found test k [] channel state e = absurd (cc)
  first_channel-found test k (first ∷ rest) channel state e = elim (Bool-cases (test first)) [
    | inl passes ↦
        let h : ◌≡◌ {A = Option (ℕ × ChannelState float double)} (some (k, first))
            (some (channel, state)) =
          rw passes at e in
        let same : first ≡ state = ground arith in
        (0, ground arith, ap some same, rw (← same) passes)
    | inr fails ↦
        let h : first_channel test (k + 1) rest ≡ some (channel, state) = rw fails at e in
        let (i, at, there, passes) = first_channel-found test (k + 1) rest channel state h in
        (suc i, omega (arith, at), there, passes)
  ]

  pub first_channel-none :
      (test : ChannelState float double → Bool) (k : ℕ)
      (topology : List (ChannelState float double))
      → first_channel test k topology ≡ none
      → (i : ℕ) (state : ChannelState float double) → get_elem? topology i ≡ some state
      → test state ≡ false
  unfolding first_channel
  first_channel-none test k [] e i state there = absurd (cc)
  first_channel-none test k (first ∷ rest) e zero state there = elim (Bool-cases (test first)) [
    | inl passes ↦
        let h : ◌≡◌ {A = Option (ℕ × ChannelState float double)} (some (k, first)) none =
          rw passes at e in
        absurd (cc)
    | inr fails ↦ let same : some first ≡ some state = there in ground arith
  ]
  first_channel-none test k (first ∷ rest) e (suc i) state there = elim (Bool-cases (test first)) [
    | inl passes ↦
        let h : ◌≡◌ {A = Option (ℕ × ChannelState float double)} (some (k, first)) none =
          rw passes at e in
        absurd (cc)
    | inr fails ↦ first_channel-none test (k + 1) rest (rw fails at e) i state there
  ]
