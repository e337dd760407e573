-- ===== src/Sparse/Policy.antt =====
-- modules/sparse_output_policy.cpp: the victim of an eviction is an entry, and one out of probation
-- where there is one.
use sparse_branch_machine.Base.{
  ℕ, suc, ◌+◌, ◌<◌, ◌≡◌, refl, sym, arith, ◌∙◌, Bool, true, false, ◌&&◌, ◌==◌, Bool-cases, inl, inr,
  ◌⊎◌, ==_iff, Option, none, some, List, [], ◌∷◌, get_elem?, length, All, ok,
}
use mathlib.Core.Option.{some-injective}
use native.Mathlib.Nat.{add-zero, zero-add}
use sparse_branch_machine.Base.Elements.{get_elem?-lt}
use sparse_branch_machine.Sparse.{
  ScoreOps, in_probation, has_non_probation, choose, victim_loop, victim_index, is_better_victim,
  select_sparse_output_victim,
}
use sparse_branch_machine.Storage.{SparseOutputEntry}

module _ {float double : Type 0} (ops : ScoreOps float double) (step : ℕ)
    (all : List (SparseOutputEntry float)) where
  -- An index of the list, and an entry there that is out of probation where that is asked.
  abbrev IsChosen : Bool → ℕ → SparseOutputEntry float → Type 0
  IsChosen spare i entry =
      (get_elem? all i ≡ some entry) × ((spare && in_probation step entry) ≡ false)

  -- Nothing is chosen yet, and no entry before was eligible; or an entry is.
  abbrev Chosen : Bool → ℕ → Option (ℕ × SparseOutputEntry float) → Type 0
  Chosen spare index none =
      (i : ℕ) (entry : SparseOutputEntry float)
      → i < index
      → get_elem? all i ≡ some entry
      → (spare && in_probation step entry) ≡ true
  Chosen spare index (some (i, entry)) = IsChosen spare i entry

  choose-IsChosen :
      (spare : Bool) (index : ℕ) (entry : SparseOutputEntry float)
      (chosen : Option (ℕ × SparseOutputEntry float)) (bound : ℕ)
      → IsChosen spare index entry
      → Chosen spare bound chosen
      → (after : ℕ) → Chosen spare after (choose ops index entry chosen)
  choose-IsChosen spare index entry none bound new old after = new
  choose-IsChosen spare index entry (some (victim, current)) bound new old after =
      elim (Bool-cases (is_better_victim ops entry current)) [
        | inl better ↦ rw better new
        | inr worse ↦ rw worse old
      ]

  -- Passing over an entry in probation.
  skip-Chosen :
      (spare : Bool) (index : ℕ) (entry : SparseOutputEntry float)
      (chosen : Option (ℕ × SparseOutputEntry float))
      → get_elem? all index ≡ some entry
      → (spare && in_probation step entry) ≡ true
      → Chosen spare index chosen
      → Chosen spare (index + 1) chosen
  skip-Chosen spare index entry (some (victim, current)) here passed old = old
  skip-Chosen spare index entry none here passed old = λ i other below at.
      elim (Bool-cases (i == index)) [
        | inl same ↦
            let there : get_elem? all index ≡ some other = rw (← (==_iff i index).0 same) at in
            let both : some entry ≡ some other = sym here ∙ there in
            let e : entry ≡ other = some-injective _ _ both in rw (← e) passed
        | inr before ↦ old i other (ground arith) at
      ]

  victim_loop-Chosen :
      (spare : Bool) (entries : List (SparseOutputEntry float)) (index : ℕ)
      (chosen : Option (ℕ × SparseOutputEntry float))
      → ((k : ℕ) → get_elem? all (index + k) ≡ get_elem? entries k)
      → Chosen spare index chosen
      → Chosen spare (index + length entries) (victim_loop ops spare step entries index chosen)
  unfolding victim_loop
  victim_loop-Chosen spare [] index chosen rest old = rw add-zero old
  victim_loop-Chosen spare (entry ∷ entries) index chosen rest old =
      let here : get_elem? all index ≡ some entry = rw add-zero at (rest 0) in
      let tail : (k : ℕ) → get_elem? all (index + 1 + k) ≡ get_elem? entries k =
        λ k. (let e : index + 1 + k ≡ index + suc k = omega arith in rw e (rest (suc k))) in
      let length_eq : index + length (entry ∷ entries) ≡ index + 1 + length entries = omega arith in
      rw length_eq (elim (Bool-cases (spare && in_probation step entry)) [
        | inl passed ↦ rw passed (
            victim_loop-Chosen spare entries (index + 1) chosen tail
              (skip-Chosen spare index entry chosen here passed old))
        | inr eligible ↦ rw eligible (
            victim_loop-Chosen spare entries (index + 1) (choose ops index entry chosen) tail
              (choose-IsChosen spare index entry chosen index (here, eligible) old (index + 1)))
      ])

module _ {float : Type 0} (step : ℕ) where
  has_non_probation-All :
      (entries : List (SparseOutputEntry float))
      → has_non_probation step entries ≡ false
      → All (λ (entry : SparseOutputEntry float). in_probation step entry ≡ true) entries
  unfolding has_non_probation
  has_non_probation-All [] e = tt
  has_non_probation-All (first ∷ rest) e = (ground arith, has_non_probation-All rest (ground arith))

  has_non_probation-witness :
      (entries : List (SparseOutputEntry float))
      → has_non_probation step entries ≡ true
      → (k : ℕ) × (entry : SparseOutputEntry float) × (get_elem? entries k ≡ some entry)
        × (in_probation step entry ≡ false)
  unfolding has_non_probation
  has_non_probation-witness [] e = absurd (cc)
  has_non_probation-witness (first ∷ rest) e = elim (Bool-cases (in_probation step first)) [
    | inl inside ↦
        let (k, entry, at, out) = has_non_probation-witness rest (rw inside at e) in
        (suc k, entry, at, out)
    | inr outside ↦ (0, first, refl, outside)
  ]

module _ {float double : Type 0} (ops : ScoreOps float double) where
  -- Of entries that are not empty, the victim is the index of one; and it is out of probation, unless
  -- all of them are in probation.
  pub select_sparse_output_victim-IsEntry :
      (step : ℕ) (first : SparseOutputEntry float) (rest : List (SparseOutputEntry float))
      → (i : ℕ) × (victim : SparseOutputEntry float) × (select_sparse_output_victim ops
            (first ∷ rest)
            step
          ≡ ok i)
        × (get_elem? (first ∷ rest) i ≡ some victim)
        × ((in_probation step victim ≡ false)
            ⊎ All
                (λ (entry : SparseOutputEntry float). in_probation step entry ≡ true)
                (first ∷ rest))
  unfolding select_sparse_output_victim
  select_sparse_output_victim-IsEntry step first rest =
      let (i, victim, eq, (at, eligible)) = found (victim_loop ops spare step entries 0 none) (
        victim_loop-Chosen ops step entries spare entries 0 none (λ k. rw zero-add refl)
          (λ j entry below at. absurd (omega arith))) in
      (
        i,
        victim,
        rw (eq, victim_index) refl,
        at,
        elim (Bool-cases spare) [
          | inl asked ↦ inl (ground arith)
          | inr unasked ↦ inr (has_non_probation-All step entries unasked)
        ],
      )
    where
      entries : List (SparseOutputEntry float)
      entries = first ∷ rest

      spare : Bool
      spare = has_non_probation step entries

      found :
          (o : Option (ℕ × SparseOutputEntry float))
          → Chosen ops step entries spare (0 + length entries) o
          → (i : ℕ) × (victim : SparseOutputEntry float) × (o ≡ some (i, victim))
            × IsChosen ops step entries spare i victim
      found (some (i, victim)) c = (i, victim, refl, c)
      found none c =
          let first_passed : (spare && in_probation step first) ≡ true =
            c 0 first (omega arith) refl in
          let asked : spare ≡ true = ground arith in
          let (k, entry, there, out) = has_non_probation-witness step entries asked in
          let passed : (spare && in_probation step entry) ≡ true =
            c k entry (omega (arith, get_elem?-lt entries k there)) there in
          absurd (ground arith)
