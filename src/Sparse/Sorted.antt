-- ===== src/Sparse/Sorted.antt =====
-- modules/token_sparse_output.cpp: entries sorted by decision, and the searches in them.
use sparse_branch_machine.Base.{
  ℕ, zero, suc, ◌+◌, ◌≤◌, ◌<◌, ◌≡◌, ◌≢◌, refl, sym, arith, false, ltb, ◌==◌, Bool-cases, inl, inr,
  if◌then◌else◌, some, List, [], ◌∷◌, get_elem?, length, All, All-map,
}
use sparse_branch_machine.Base.Elements.{erase_at, insert_at}
use sparse_branch_machine.Sparse.{lower_bound, is_decision, sparse_logit, slot_logit, logit_or}
use sparse_branch_machine.Storage.{Node, SparseOutputEntry}

module _ {ℓ} {A : Type ℓ} where
  pub All-erase_at {κ} : (P : A → Type κ) (xs : List A) (i : ℕ) → All P xs → All P (erase_at xs i)
  All-erase_at P [] i h = tt
  All-erase_at P (x ∷ xs) zero h = h.1
  All-erase_at P (x ∷ xs) (suc i) h = (h.0, All-erase_at P xs i h.1)

  All-insert_at {κ} :
      (P : A → Type κ) (xs : List A) (i : ℕ) (v : A) → P v → All P xs → All P (insert_at xs i v)
  All-insert_at P xs zero v p h = (p, h)
  All-insert_at P [] (suc i) v p h = (p, tt)
  All-insert_at P (x ∷ xs) (suc i) v p h = (h.0, All-insert_at P xs i v p h.1)

  pub length-erase_at :
      (xs : List A) (i : ℕ) → i < length xs → length (erase_at xs i) + 1 ≡ length xs
  length-erase_at [] i h = absurd (omega arith)
  length-erase_at (x ∷ xs) zero h = omega arith
  length-erase_at (x ∷ xs) (suc i) h = omega (arith, length-erase_at xs i (omega arith))

  pub length-erase_at_le : (xs : List A) (i : ℕ) → length (erase_at xs i) ≤ length xs
  length-erase_at_le [] i = omega arith
  length-erase_at_le (x ∷ xs) zero = omega arith
  length-erase_at_le (x ∷ xs) (suc i) = omega (arith, length-erase_at_le xs i)

  pub length-insert_at : (xs : List A) (i : ℕ) (v : A) → length (insert_at xs i v) ≡ length xs + 1
  length-insert_at xs zero v = omega arith
  length-insert_at [] (suc i) v = omega arith
  length-insert_at (x ∷ xs) (suc i) v = omega (arith, length-insert_at xs i v)

  get_elem?-insert_at :
      (xs : List A) (i : ℕ) (v : A) → i ≤ length xs → get_elem? (insert_at xs i v) i ≡ some v
  get_elem?-insert_at xs zero v h = refl
  get_elem?-insert_at [] (suc i) v h = absurd (omega arith)
  get_elem?-insert_at (x ∷ xs) (suc i) v h = get_elem?-insert_at xs i v (omega arith)

module _ {float : Type 0} where
  -- Decisions rise strictly.
  abbrev pub IsSorted : List (SparseOutputEntry float) → Type 0
  IsSorted [] = Unit
  IsSorted (e ∷ es) =
      All (λ (x : SparseOutputEntry float). e.decision < x.decision) es × IsSorted es

  abbrev pub Lacks : ℕ → List (SparseOutputEntry float) → Type 0
  Lacks decision entries = All (λ (x : SparseOutputEntry float). x.decision ≢ decision) entries

  lower_bound-le :
      (decision : ℕ) (es : List (SparseOutputEntry float)) → lower_bound decision es ≤ length es
  unfolding lower_bound
  lower_bound-le decision [] = omega arith
  lower_bound-le decision (e ∷ es) = ground (arith, lower_bound-le decision es)

  pub Lacks-missing :
      (decision : ℕ) (es : List (SparseOutputEntry float))
      → IsSorted es
      → is_decision decision (get_elem? es (lower_bound decision es)) ≡ false
      → Lacks decision es
  unfolding lower_bound
  Lacks-missing decision [] s h = tt
  Lacks-missing decision (e ∷ es) s h = elim (Bool-cases (ltb e.decision decision)) [
    | inl less ↦ (ground arith, Lacks-missing decision es s.1 (rw less at h))
    | inr stop ↦
        let other : (e.decision == decision) ≡ false = rw stop at h in
        let above : decision < e.decision = ground arith in
        (ground arith, All-map (λ x less. ground arith) es s.0)
  ]

  pub insert-IsSorted :
      (decision : ℕ) (es : List (SparseOutputEntry float)) (v : SparseOutputEntry float)
      → v.decision ≡ decision
      → IsSorted es
      → Lacks decision es
      → IsSorted (insert_at es (lower_bound decision es) v)
  unfolding lower_bound
  insert-IsSorted decision [] v e s lacks = (tt, tt)
  insert-IsSorted decision (x ∷ xs) v e s lacks = elim (Bool-cases (ltb x.decision decision)) [
    | inl less ↦ rw less (
      All-insert_at (λ (y : SparseOutputEntry float). x.decision < y.decision) xs
          (lower_bound decision xs) v (ground arith) s.0,
      insert-IsSorted decision xs v e s.1 lacks.1,
    )
    | inr stop ↦
        let above : v.decision < x.decision = ground (arith, lacks.0) in
        rw stop ((above, All-map (λ y less. omega arith) xs s.0), s)
  ]

  pub erase-IsSorted :
      (es : List (SparseOutputEntry float)) (i : ℕ) → IsSorted es → IsSorted (erase_at es i)
  erase-IsSorted [] i s = tt
  erase-IsSorted (x ∷ xs) zero s = s.1
  erase-IsSorted (x ∷ xs) (suc i) s = (
    All-erase_at (λ (y : SparseOutputEntry float). x.decision < y.decision) xs i s.0,
    erase-IsSorted xs i s.1,
  )

  pub inserted :
      (decision : ℕ) (es : List (SparseOutputEntry float)) (v : SparseOutputEntry float)
      → get_elem? (insert_at es (lower_bound decision es) v) (lower_bound decision es) ≡ some v
  inserted decision es v =
      get_elem?-insert_at es (lower_bound decision es) v (lower_bound-le decision es)

  -- The logit of the entry with the decision, wherever it stands, and 0 without one.
  unfoldable pub logit_in : float → ℕ → List (SparseOutputEntry float) → float
  logit_in nought decision [] = nought
  logit_in nought decision (e ∷ es) =
      let rest = logit_in nought decision es in if e.decision == decision then e.logit else rest

  logit_in-above :
      (nought : float) (decision : ℕ) (es : List (SparseOutputEntry float))
      → All (λ (x : SparseOutputEntry float). decision < x.decision) es
      → logit_in nought decision es ≡ nought
  unfolding logit_in
  logit_in-above nought decision [] h = refl
  logit_in-above nought decision (e ∷ es) h =
      let other : (e.decision == decision) ≡ false = ground arith in
      rw other (logit_in-above nought decision es h.1)

  searched :
      (nought : float) (decision : ℕ) (es : List (SparseOutputEntry float))
      → IsSorted es
      → logit_or nought decision (get_elem? es (lower_bound decision es))
        ≡ logit_in nought decision es
  unfolding lower_bound logit_in
  searched nought decision [] s = refl
  searched nought decision (e ∷ es) s = elim (Bool-cases (ltb e.decision decision)) [
    | inl less ↦
        let other : (e.decision == decision) ≡ false = ground arith in
        rw (less, other) (searched nought decision es s.1)
    | inr stop ↦ elim (Bool-cases (e.decision == decision)) [
      | inl here ↦ rw (stop, here) refl
      | inr above ↦
          let less : decision < e.decision = ground arith in
          rw (stop, above)
            (sym (logit_in-above nought decision es (All-map (λ x after. omega arith) es s.0)))
    ]
  ]

  -- Where a node's entries are sorted, the binary search of `sparse_logit` gives what a search
  -- through all entries gives: the logit of the entry with the decision, and 0 without one.
  pub sparse_logit-logit_in :
      (nought : float) (nodes : List (Node float)) (slot decision : ℕ) (node : Node float)
      → get_elem? nodes slot ≡ some node
      → IsSorted node.sparse_outputs
      → sparse_logit nought nodes slot decision ≡ logit_in nought decision node.sparse_outputs
  unfolding sparse_logit
  sparse_logit-logit_in nought nodes slot decision node here sorted =
      rw (here, slot_logit) (searched nought decision node.sparse_outputs sorted)
