-- ===== src/Lifecycle/Closure/Restores.antt =====
-- modules/machine_topology.cpp: `restore_channel` as a relation of the machines before and after it.
use sparse_branch_machine.Base.{
  ℕ, ◌<◌, ◌≡◌, ◌≢◌, refl, sym, ap, arith, ◌∙◌, true, false, ◌||◌, ◌&&◌, not, ltb, ◌==◌, ==_iff,
  subst, Bool-cases, ◌⊎◌, inl, inr, Option, none, some, get_elem?, set, length, length-set,
}
use sparse_branch_machine.Base.Elements.{get_elem?-set, get_elem?-lt}
use sparse_branch_machine.Lifecycle.{ValueOps, Machine, LifecycleConfig}
use sparse_branch_machine.Lifecycle.Retire.{restore_channel, restore_state, revived, is_restorable}
use sparse_branch_machine.Topology.{ChannelState}

module _ {float double : Type 0} where
  -- A channel before and after: unchanged, or restored.
  abbrev pub KeptOrRevived :
      ℕ → ℕ → Option (ChannelState float double) → Option (ChannelState float double) → Type 0
  KeptOrRevived steps i none none = Unit
  KeptOrRevived steps i none (some b) = ⊥
  KeptOrRevived steps i (some a) none = ⊥
  KeptOrRevived steps i (some a) (some b) =
      (b ≡ a) ⊎ ((i ≢ 0) × (is_restorable a.phase ≡ true) × (b ≡ revived steps a))

  kept_refl : (steps i : ℕ) (o : Option (ChannelState float double)) → KeptOrRevived steps i o o
  kept_refl steps i none = tt
  kept_refl steps i (some a) = inl refl

  kept_trans :
      (steps i : ℕ) (x y z : Option (ChannelState float double))
      → KeptOrRevived steps i x y
      → KeptOrRevived steps i y z
      → KeptOrRevived steps i x z
  kept_trans steps i none none none p q = tt
  kept_trans steps i none none (some c) p q = elim q [ ]
  kept_trans steps i none (some b) z p q = elim p [ ]
  kept_trans steps i (some a) none z p q = elim p [ ]
  kept_trans steps i (some a) (some b) none p q = elim q [ ]
  kept_trans steps i (some a) (some b) (some c) (inl same) (inl same') = inl (same' ∙ same)
  kept_trans steps i (some a) (some b) (some c) (inl same) (inr (n, r, e)) = inr (
    n,
    subst (λ (x : ChannelState float double). is_restorable x.phase ≡ true) same r,
    e ∙ ap (revived steps) same,
  )
  kept_trans steps i (some a) (some b) (some c) (inr (n, r, e)) (inl same) = inr (n, r, same ∙ e)
  kept_trans steps i (some a) (some b) (some c) (inr (n, r, e)) (inr (n', r', e')) =
      let no : false ≡ true =
        subst (λ (x : ChannelState float double). is_restorable x.phase ≡ true) e r' in
      absurd (cc)

  -- A machine before and after some restorations.
  pub record OnlyRestores (old new : Machine float double) : Type 0 where
    pub steps : new.total_steps ≡ old.total_steps
    pub size : length new.topology ≡ length old.topology
    pub kept :
        (i : ℕ)
        → KeptOrRevived old.total_steps i (get_elem? old.topology i) (get_elem? new.topology i)

  pub OnlyRestores-refl : (machine : Machine float double) → OnlyRestores machine machine
  OnlyRestores-refl machine = record {
    steps = refl;
    size = refl;
    kept = λ i. kept_refl machine.total_steps i (get_elem? machine.topology i);
  }

  pub OnlyRestores-trans :
      (a b c : Machine float double) → OnlyRestores a b → OnlyRestores b c → OnlyRestores a c
  OnlyRestores-trans a b c p q = record {
    steps = q.steps ∙ p.steps;
    size = q.size ∙ p.size;
    kept = λ i. kept_trans a.total_steps i _ (get_elem? b.topology i) _ (p.kept i) (
        subst
          (λ (steps : ℕ). KeptOrRevived steps i (get_elem? b.topology i) (get_elem? c.topology i))
          p.steps (q.kept i));
  }

  -- A channel that a further restoration would not change.
  abbrev pub IsSettled : ℕ → Machine float double → Type 0
  IsSettled channel machine =
      (state : ChannelState float double)
      → get_elem? machine.topology channel ≡ some state
      → is_restorable state.phase ≡ false

  pub IsSettled-on :
      (channel : ℕ) (a b : Machine float double)
      → OnlyRestores a b
      → IsSettled channel a
      → IsSettled channel b
  IsSettled-on channel a b p settled state e =
      after (get_elem? a.topology channel) refl (rw e at (p.kept channel))
    where
      after :
          (o : Option (ChannelState float double))
          → get_elem? a.topology channel ≡ o
          → KeptOrRevived a.total_steps channel o (some state)
          → is_restorable state.phase ≡ false
      after none f k = elim k [ ]
      after (some before) f (inl same) = rw same (settled before f)
      after (some before) f (inr (n, r, e)) = rw e refl

  module _ (ops : ValueOps float double) (config : LifecycleConfig float)
      (machine : Machine float double) (channel : ℕ) where
    restored_kept :
        (state : ChannelState float double)
        → get_elem? machine.topology channel ≡ some state
        → channel ≢ 0
        → is_restorable state.phase ≡ true
        → (i : ℕ)
        → KeptOrRevived machine.total_steps i
            (get_elem? machine.topology i)
            (get_elem? (set machine.topology channel (revived machine.total_steps state)) i)
    restored_kept state here n r i = elim (Bool-cases (channel == i)) [
      | inl same ↦
          let at : channel ≡ i = (==_iff channel i).0 same in
          rw
            (
              ← at,
              get_elem?-set machine.topology channel channel (revived machine.total_steps state),
              here,
              both channel (get_elem?-lt machine.topology channel here),
            )
            (inr (n, r, refl))
      | inr other ↦
          rw (get_elem?-set machine.topology channel i (revived machine.total_steps state), other)
            (kept_refl machine.total_steps i (get_elem? machine.topology i))
    ]
      where
        both :
            (k : ℕ)
            → k < length machine.topology
            → (k == k && ltb k (length machine.topology)) ≡ true
        both k h = ground arith

    pub restore_channel-OnlyRestores :
        OnlyRestores machine (restore_channel ops config machine channel).0
    unfolding restore_channel
    restore_channel-OnlyRestores = after (get_elem? machine.topology channel) refl
      where
        after :
            (o : Option (ChannelState float double))
            → get_elem? machine.topology channel ≡ o
            → OnlyRestores machine (restore_state ops config machine channel o).0
        after none e = OnlyRestores-refl machine
        after (some state) e = elim (Bool-cases (channel == 0 || not (is_restorable state.phase))) [
          | inl refused ↦ rw refused (OnlyRestores-refl machine)
          | inr taken ↦ rw taken (record {
            steps = refl;
            size = length-set machine.topology channel (revived machine.total_steps state);
            kept = restored_kept state e (ground arith) (ground arith);
          })
        ]

    pub restore_channel-IsSettled :
        channel ≢ 0 → IsSettled channel (restore_channel ops config machine channel).0
    unfolding restore_channel
    restore_channel-IsSettled n = after (get_elem? machine.topology channel) refl
      where
        after :
            (o : Option (ChannelState float double))
            → get_elem? machine.topology channel ≡ o
            → IsSettled channel (restore_state ops config machine channel o).0
        after none e = λ state h. absurd (cc)
        after (some state) e = elim (Bool-cases (channel == 0 || not (is_restorable state.phase))) [
          | inl refused ↦ rw refused (λ st h. ground arith)
          | inr taken ↦ rw taken (λ st h.
              let at : get_elem? (set machine.topology channel (revived machine.total_steps state))
                    channel
                  ≡ some (revived machine.total_steps state) =
                rw
                  (get_elem?-set machine.topology channel channel
                    (revived machine.total_steps state))
                  (ground (arith, get_elem?-lt machine.topology channel e)) in
              let same : some (revived machine.total_steps state) ≡ some st = sym at ∙ h in
              ground arith)
        ]
