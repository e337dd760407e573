-- ===== src/Prior/Counts.antt =====
-- modules/token_sparse_output.cpp: what `observe_global_output_path` counts.
use sparse_branch_machine.Base.{
  ℕ, zero, suc, ◌+◌, ◌≤◌, ◌<◌, ◌≡◌, ◌≢◌, refl, sym, ap, arith, ◌∙◌, false, ◌||◌, ◌&&◌, ◌==◌, ==_iff,
  Bool-cases, subst, ◌⊎◌, inl, inr, if◌then◌else◌, Option, none, some, List, [], ◌∷◌, get_elem?,
  get_or, length, length-set, Error, get_or-set_self, get_or-set_ne,
}
use sparse_branch_machine.Base.Elements.{get_elem?-lt, get_elem?-get_or}
use sparse_branch_machine.Output.Tree.{ImplicitDecision}
use sparse_branch_machine.Prior.{
  PriorOps, Prior, count_limit, branch_logit, count_branch, observe_counts, observe_step,
  observe_loop, count_update, after_step, observe_global_output_path,
}

-- The steps of a path at a decision, and those to the right.
unfoldable pub steps_at : ℕ → List ImplicitDecision → ℕ
steps_at decision [] = 0
steps_at decision (step ∷ path) =
    let rest = steps_at decision path in if step.id == decision then rest + 1 else rest

unfoldable pub right_at : ℕ → List ImplicitDecision → ℕ
right_at decision [] = 0
right_at decision (step ∷ path) =
    let rest = right_at decision path in
    if step.id == decision && step.right then rest + 1 else rest

unfoldable pub AllBelow : ℕ → List ImplicitDecision → Type 0
AllBelow size [] = Unit
AllBelow size (step ∷ path) = (step.id < size) × AllBelow size path

get_or-get_elem? {ℓ} :
    {A : Type ℓ} (xs : List A) (i : ℕ) (a d : A) → get_elem? xs i ≡ some a → a ≡ get_or xs i d
get_or-get_elem? [] i a d e = absurd (cc)
get_or-get_elem? (x ∷ xs) zero a d e = cc
get_or-get_elem? (x ∷ xs) (suc i) a d e = get_or-get_elem? xs i a d e

module _ {float double : Type 0} (ops : PriorOps float double) where
  -- No more steps went right than there were, and the logit of a counted decision is that of its
  -- counts.
  abbrev pub HoldsAt : ℕ → Prior float → Type 0
  HoldsAt i prior =
      (get_or prior.right i 0 ≤ get_or prior.total i 0)
      × (get_or prior.total i 0 ≢ 0
          → get_or prior.cache i ops.nought
            ≡ branch_logit ops (get_or prior.total i 0) (get_or prior.right i 0))

  -- The three tables have one size, and agree at every decision.
  pub record IsPrior (prior : Prior float) : Type 0 where
    pub rights : length prior.right ≡ length prior.total
    pub caches : length prior.cache ≡ length prior.total
    pub holds : (i : ℕ) → HoldsAt i prior

  module _ (step : ImplicitDecision) (prior : Prior float) where
    abbrev counted : Prior float
    counted =
        count_branch ops step prior (get_or prior.total step.id 0) (get_or prior.right step.id 0)

    -- The counts of the step's decision, and of another one.
    counted_self :
        IsPrior prior
        → step.id < length prior.total
        → (get_or counted.total step.id 0 ≡ get_or prior.total step.id 0 + 1)
          × (get_or counted.right step.id 0 ≡ (
              if step.right
              then get_or prior.right step.id 0 + 1
              else get_or prior.right step.id 0))
          × (get_or counted.cache step.id ops.nought
              ≡ branch_logit ops (get_or counted.total step.id 0) (get_or counted.right step.id 0))
    unfolding count_branch
    counted_self v inside =
        let total =
          get_or-set_self prior.total step.id (get_or prior.total step.id 0 + 1) 0 inside in
        let right =
          get_or-set_self prior.right step.id
            (if step.right then get_or prior.right step.id 0 + 1 else get_or prior.right step.id 0)
            0 (rw v.rights inside) in
        (
          total,
          right,
          rw total (rw right (get_or-set_self prior.cache step.id _ _ (rw v.caches inside))),
        )

    counted_ne :
        (i : ℕ)
        → step.id ≢ i
        → (get_or counted.total i 0 ≡ get_or prior.total i 0)
          × (get_or counted.right i 0 ≡ get_or prior.right i 0)
          × (get_or counted.cache i ops.nought ≡ get_or prior.cache i ops.nought)
    unfolding count_branch
    counted_ne i n = (
      get_or-set_ne prior.total step.id i _ 0 n,
      get_or-set_ne prior.right step.id i _ 0 n,
      get_or-set_ne prior.cache step.id i _ _ n,
    )

    counted-HoldsAt : IsPrior prior → step.id < length prior.total → (i : ℕ) → HoldsAt i counted
    counted-HoldsAt v inside i = elim (Bool-cases (step.id == i)) [
      | inl same ↦
          subst (λ (k : ℕ). HoldsAt k counted) ((==_iff step.id i).0 same)
            (let (total, right, cache) = counted_self v inside in
              let before = (v.holds step.id).0 in (rw total (rw right (ground arith)), λ n. cache))
      | inr other ↦
          let (total, right, cache) = counted_ne i (ground arith) in
          rw total (rw right (rw cache (v.holds i)))
    ]

    counted-IsPrior : IsPrior prior → step.id < length prior.total → IsPrior counted
    unfolding count_branch
    counted-IsPrior v inside = record {
      rights = length-set prior.right step.id _ ∙ v.rights ∙ sym (length-set prior.total step.id _);
      caches = length-set prior.cache step.id _ ∙ v.caches ∙ sym (length-set prior.total step.id _);
      holds = counted-HoldsAt v inside;
    }

    -- A step either leaves the prior, with an error, or counts.
    observe_step_cases :
        IsPrior prior
        → ((observe_step ops step prior).0 ≡ prior)
          ⊎ ((step.id < length prior.total) × (observe_step ops step prior ≡ (counted, none)))
    unfolding observe_step
    observe_step_cases v =
        after (get_elem? prior.total step.id) (get_elem? prior.right step.id) refl refl
      where
        after :
            (t r : Option ℕ)
            → get_elem? prior.total step.id ≡ t
            → get_elem? prior.right step.id ≡ r
            → ((observe_counts ops step prior t r).0 ≡ prior)
              ⊎ ((step.id < length prior.total)
                  × (observe_counts ops step prior t r ≡ (counted, none)))
        after none r e f = inl refl
        after (some t) none e f = inl refl
        after (some t) (some r) e f =
            elim (Bool-cases (t == count_limit || step.right && r == count_limit)) [
              | inl full ↦ inl (rw full refl)
              | inr free ↦
                  let inside = get_elem?-lt prior.total step.id e in
                  let same : t ≡ get_or prior.total step.id 0 =
                    get_or-get_elem? prior.total step.id t 0 e in
                  let same' : r ≡ get_or prior.right step.id 0 =
                    get_or-get_elem? prior.right step.id r 0 f in
                  inr (inside, rw free (rw same (rw same' refl)))
            ]

    observe_step-IsPrior : IsPrior prior → IsPrior (observe_step ops step prior).0
    observe_step-IsPrior v = elim (observe_step_cases v) [
      | inl same ↦ subst IsPrior (sym same) v
      | inr (inside, e) ↦ rw e (counted-IsPrior v inside)
    ]

    observe_step_room :
        IsPrior prior
        → step.id < length prior.total
        → get_or prior.total step.id 0 < count_limit
        → observe_step ops step prior ≡ (counted, none)
    unfolding observe_step
    observe_step_room v inside room =
        let below = (v.holds step.id).0 in
        let free : get_or prior.total step.id 0 == count_limit
              || step.right && get_or prior.right step.id 0 == count_limit
            ≡ false =
          ground arith in
        rw (get_elem?-get_or prior.total step.id 0 inside)
          (rw (get_elem?-get_or prior.right step.id 0 (rw v.rights inside)) (rw free refl))

    counted_total :
        IsPrior prior
        → step.id < length prior.total
        → (i : ℕ)
        → (get_or counted.total i 0
            ≡ (if step.id == i then get_or prior.total i 0 + 1 else get_or prior.total i 0))
          × (get_or counted.right i 0 ≡ (
              if step.id == i && step.right
              then get_or prior.right i 0 + 1
              else get_or prior.right i 0))
    counted_total v inside i = elim (Bool-cases (step.id == i)) [
      | inl same ↦
          let at : step.id ≡ i = (==_iff step.id i).0 same in
          let (total, right, cache) = counted_self v inside in
          rw same (
            subst
              (λ (k : ℕ).
                (get_or counted.total k 0 ≡ get_or prior.total k 0 + 1)
                × (get_or counted.right k 0
                    ≡ (if step.right then get_or prior.right k 0 + 1 else get_or prior.right k 0)))
              at (total, right))
      | inr other ↦
          let (total, right, cache) = counted_ne i (ground arith) in rw other (total, right)
    ]

  observe_loop-IsPrior :
      (path : List ImplicitDecision) (prior : Prior float)
      → IsPrior prior
      → IsPrior (observe_loop ops path prior).0
  unfolding observe_loop
  observe_loop-IsPrior [] prior v = v
  observe_loop-IsPrior (step ∷ path) prior v =
      after (observe_step ops step prior) (observe_loop ops path (observe_step ops step prior).0)
        (observe_step-IsPrior step prior v)
        (observe_loop-IsPrior path (observe_step ops step prior).0
          (observe_step-IsPrior step prior v))
    where
      after :
          (p q : Prior float × Option Error)
          → IsPrior p.0
          → IsPrior q.0
          → IsPrior (after_step ops p q).0
      after (next, none) q w u = u
      after (next, some e) q w u = w

  observe_loop_next :
      (step : ImplicitDecision) (path : List ImplicitDecision) (prior next : Prior float)
      → observe_step ops step prior ≡ (next, none)
      → observe_loop ops (step ∷ path) prior ≡ observe_loop ops path next
  unfolding observe_loop
  observe_loop_next step path prior next e =
      ap (λ (p : Prior float × Option Error). after_step ops p (observe_loop ops path p.0)) e

  -- The prior after a path that counted.
  pub record Counts (path : List ImplicitDecision) (old new : Prior float) : Type 0 where
    pub totals : (i : ℕ) → get_or new.total i 0 ≡ get_or old.total i 0 + steps_at i path
    pub rights : (i : ℕ) → get_or new.right i 0 ≡ get_or old.right i 0 + right_at i path

  observe_loop-Counts :
      (path : List ImplicitDecision) (prior : Prior float)
      → IsPrior prior
      → AllBelow (length prior.total) path
      → ((i : ℕ) → get_or prior.total i 0 + steps_at i path ≤ count_limit)
      → (new : Prior float) × (observe_loop ops path prior ≡ (new, none))
        × (new.updates ≡ prior.updates)
        × Counts path prior new
  unfolding observe_loop AllBelow steps_at right_at count_branch
  observe_loop-Counts [] prior v inside room =
      (prior, refl, refl, record { totals = λ i. omega arith; rights = λ i. omega arith })
  observe_loop-Counts (step ∷ path) prior v (here, later) room =
      let next : Prior float = counted step prior in
      let step_room = room step.id in
      let e = observe_step_room step prior v here (ground arith) in
      let moved = counted_total step prior v here in
      let (new, f, same, counts) =
        observe_loop-Counts path next (counted-IsPrior step prior v here)
          (rw (length-set prior.total step.id (get_or prior.total step.id 0 + 1)) later)
          (λ i. ground (arith, room i, (moved i).0)) in
      (
        new,
        observe_loop_next step path prior next e ∙ f,
        same,
        record {
          totals = λ i. ground (arith, counts.totals i, (moved i).0);
          rights = λ i. ground (arith, counts.rights i, (moved i).1);
        },
      )

  -- Whatever the path and the outcome, an exception included, `observe_global_output_path` keeps the
  -- three tables at one size, with no more steps to the right than there were steps, and with the
  -- logit of a counted decision the one that its counts give.
  pub observe_global_output_path-IsPrior :
      (path : List ImplicitDecision) (prior : Prior float)
      → IsPrior prior
      → IsPrior (observe_global_output_path ops path prior).0
  unfolding observe_global_output_path
  observe_global_output_path-IsPrior path prior v =
      elim (Bool-cases (prior.updates == count_limit)) [
        | inl full ↦ rw full v
        | inr free ↦
            rw free (after (observe_loop ops path prior) (observe_loop-IsPrior path prior v))
      ]
    where
      after : (p : Prior float × Option Error) → IsPrior p.0 → IsPrior (count_update ops p).0
      after (new, none) w = record { rights = w.rights; caches = w.caches; holds = w.holds }
      after (new, some e) w = w

  -- When the three tables have one size and agree at every decision (`IsPrior`), every decision of the
  -- path is inside them, no decision's count plus its steps in the path is above 2^64 - 1, and fewer
  -- than 2^64 - 1 updates were counted, then `observe_global_output_path` throws nothing, counts one
  -- update, and adds to every decision's counts its steps in the path and those of them to the right.
  pub observe_global_output_path-Counts :
      (path : List ImplicitDecision) (prior : Prior float)
      → IsPrior prior
      → AllBelow (length prior.total) path
      → ((i : ℕ) → get_or prior.total i 0 + steps_at i path ≤ count_limit)
      → prior.updates < count_limit
      → (new : Prior float) × (observe_global_output_path ops path prior ≡ (new, none))
        × (new.updates ≡ prior.updates + 1)
        × Counts path prior new
  unfolding observe_global_output_path
  observe_global_output_path-Counts path prior v inside room few =
      let free : prior.updates == count_limit ≡ false = ground arith in
      let (new, e, same, counts) = observe_loop-Counts path prior v inside room in
      (
        record new { updates = new.updates + 1 },
        rw free (rw e refl),
        ap (λ (n : ℕ). n + 1) same,
        record { totals = counts.totals; rights = counts.rights },
      )
