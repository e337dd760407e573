-- ===== src/Address/Proposals/Listing.antt =====
-- The proposals as one list, and what each of them looks like.
use sparse_branch_machine.Base.{
  ℕ, zero, suc, ◌+◌, ◌-◌, ◌%◌, ◌^◌, ◌≤◌, ◌<◌, ◌≡◌, refl, sym, ap, ◌∙◌, arith, Bool, true, false,
  ltb, leb, ◌==◌, if◌then◌else◌, List, [], ◌∷◌, ◌++◌, get_elem?, ap₂, Bool-cases, inl, inr,
}
use sparse_branch_machine.Address.{
  AddressOp, AddressProgram, tuple, delta_mod, content_match, content_follow, content_follow_multi2,
  content_follow_multi3,
}
use sparse_branch_machine.Address.Proposals.{
  Scan, hit, miss, and_then, probe, pair_program, single_program, visit_loop, visit, follow_loop,
  visit_content, visit_lag, outer_loop, found_program, proposal_at,
}

-- The programs of one operation with a last lag, one for each inner lag from a first one on.
unfoldable pub pairs : ℕ → ℕ → ℕ → AddressOp → List AddressProgram
pairs zero inner outer op = []
pairs (suc rounds) inner outer op = pair_program op inner outer ∷ pairs rounds (inner + 1) outer op

unfoldable pub follows : Bool → ℕ → ℕ → ℕ → List AddressProgram
follows multi zero inner outer = []
follows multi (suc rounds) inner outer =
    pair_program content_follow inner outer
    ∷ ((if multi
          then pair_program content_follow_multi2 inner outer
            ∷ pair_program content_follow_multi3 inner outer
            ∷ []
          else [])
        ++ follows multi rounds (inner + 1) outer)

abbrev pub positional_block : ℕ → ℕ → AddressOp → List AddressProgram
positional_block max_arity outer op =
    single_program op outer ∷ (if ltb max_arity 2 then [] else pairs (outer - 1) 1 outer op)

abbrev pub content_block : ℕ → Bool → ℕ → List AddressProgram
content_block max_arity multi outer =
    single_program content_match outer
    ∷ (if leb 2 max_arity then follows multi (outer - 1) 1 outer else [])

abbrev pub lag_block : ℕ → Bool → Bool → Bool → ℕ → List AddressProgram
lag_block max_arity delta content multi outer =
    positional_block max_arity outer tuple
    ++ ((if delta then positional_block max_arity outer delta_mod else [])
        ++ (if content then content_block max_arity multi outer else []))

-- One block to each last lag.
unfoldable pub proposals : ℕ → Bool → Bool → Bool → ℕ → ℕ → List AddressProgram
proposals max_arity delta content multi zero outer = []
proposals max_arity delta content multi (suc rounds) outer =
    lag_block max_arity delta content multi outer
    ++ proposals max_arity delta content multi rounds (outer + 1)

scan : List AddressProgram → ℕ → Scan
scan [] ordinal = miss ordinal
scan (p ∷ ps) ordinal = and_then (probe p ordinal) (scan ps)

and_then_assoc :
    (s : Scan) (f g : ℕ → Scan) → and_then (and_then s f) g ≡ and_then s (λ o. and_then (f o) g)
and_then_assoc (hit p) f g = refl
and_then_assoc (miss o) f g = refl

and_then-ext : (s : Scan) (f g : ℕ → Scan) → ((o : ℕ) → f o ≡ g o) → and_then s f ≡ and_then s g
and_then-ext (hit p) f g h = refl
and_then-ext (miss o) f g h = h o

scan-append :
    (ps qs : List AddressProgram) (o : ℕ) → scan (ps ++ qs) o ≡ and_then (scan ps o) (scan qs)
unfolding scan
scan-append [] qs o = refl
scan-append (p ∷ ps) qs o =
    and_then-ext (probe p o) (scan (ps ++ qs)) (λ x. and_then (scan ps x) (scan qs))
      (scan-append ps qs)
    ∙ sym (and_then_assoc (probe p o) (scan ps) (scan qs))

probe-suc : (p : AddressProgram) (o : ℕ) → probe p (suc o) ≡ miss o
probe-suc p o =
    let e : suc o - 1 ≡ o = omega arith in let z : (suc o == 0) ≡ false = ground arith in rw (z, e)

found_program-scan : (ps : List AddressProgram) (o : ℕ) → found_program (scan ps o) ≡ get_elem? ps o
unfolding scan
found_program-scan [] o = refl
found_program-scan (p ∷ ps) zero = refl
found_program-scan (p ∷ ps) (suc o) = rw (probe-suc p o) (found_program-scan ps o)

visit_loop-scan :
    (rounds inner outer : ℕ) (op : AddressOp) (o : ℕ)
    → visit_loop rounds inner outer op o ≡ scan (pairs rounds inner outer op) o
unfolding visit_loop pairs scan
visit_loop-scan zero inner outer op o = refl
visit_loop-scan (suc rounds) inner outer op o =
    and_then-ext (probe (pair_program op inner outer) o) _ _
      (visit_loop-scan rounds (inner + 1) outer op)

optional_scan :
    (b : Bool) (f : ℕ → Scan) (ps : List AddressProgram)
    → ((o : ℕ) → f o ≡ scan ps o)
    → (o : ℕ) → (if b then f o else miss o) ≡ scan (if b then ps else []) o
unfolding scan
optional_scan true f ps h o = h o
optional_scan false f ps h o = refl

optional_scan_not :
    (b : Bool) (f : ℕ → Scan) (ps : List AddressProgram)
    → ((o : ℕ) → f o ≡ scan ps o)
    → (o : ℕ) → (if b then miss o else f o) ≡ scan (if b then [] else ps) o
unfolding scan
optional_scan_not false f ps h o = h o
optional_scan_not true f ps h o = refl

visit-scan :
    (max_arity outer : ℕ) (op : AddressOp) (o : ℕ)
    → visit max_arity outer op o ≡ scan (positional_block max_arity outer op) o
unfolding visit scan
visit-scan max_arity outer op o =
    and_then-ext (probe (single_program op outer) o) _ _
      (optional_scan_not (ltb max_arity 2) _ _ (visit_loop-scan (outer - 1) 1 outer op))

follow_loop-scan :
    (multi : Bool) (rounds inner outer o : ℕ)
    → follow_loop multi rounds inner outer o ≡ scan (follows multi rounds inner outer) o
unfolding follow_loop follows scan
follow_loop-scan multi zero inner outer o = refl
follow_loop-scan false (suc rounds) inner outer o =
    let p = probe (pair_program content_follow inner outer) o in
    and_then_assoc p miss (follow_loop false rounds (inner + 1) outer)
    ∙ and_then-ext p _ _ (follow_loop-scan false rounds (inner + 1) outer)
follow_loop-scan true (suc rounds) inner outer o =
    let p = probe (pair_program content_follow inner outer) o in
    let second = probe (pair_program content_follow_multi2 inner outer) in
    let third = probe (pair_program content_follow_multi3 inner outer) in
    let rest = follow_loop true rounds (inner + 1) outer in
    and_then_assoc p (λ x. and_then (second x) third) rest
    ∙ and_then-ext p _ _ (λ x.
      and_then_assoc (second x) third rest
      ∙ and_then-ext (second x) _ _
          (λ y. and_then-ext (third y) _ _ (follow_loop-scan true rounds (inner + 1) outer)))

visit_content-scan :
    (max_arity : ℕ) (multi : Bool) (outer o : ℕ)
    → visit_content max_arity multi outer o ≡ scan (content_block max_arity multi outer) o
unfolding visit_content scan
visit_content-scan max_arity multi outer o =
    and_then-ext (probe (single_program content_match outer) o) _ _
      (optional_scan (leb 2 max_arity) _ _ (follow_loop-scan multi (outer - 1) 1 outer))

-- The ordinal that a search leaves is below a bound.
abbrev Below : ℕ → Scan → Type 0
Below bound (hit p) = Unit
Below bound (miss ordinal) = ordinal < bound

and_then-ext-Below :
    (s : Scan) (f g : ℕ → Scan) (bound : ℕ)
    → Below bound s
    → ((o : ℕ) → o < bound → f o ≡ g o)
    → and_then s f ≡ and_then s g
and_then-ext-Below (hit p) f g bound b h = refl
and_then-ext-Below (miss o) f g bound b h = h o b

Below-weaken : (s : Scan) (m n : ℕ) → m ≤ n → Below m s → Below n s
Below-weaken (hit p) m n h b = tt
Below-weaken (miss o) m n h b = omega arith

scan-Below : (ps : List AddressProgram) (o : ℕ) → Below (o + 1) (scan ps o)
unfolding scan
scan-Below [] o = omega arith
scan-Below (p ∷ ps) zero = tt
scan-Below (p ∷ ps) (suc o) =
    rw (probe-suc p o)
      (Below-weaken (scan ps o) (o + 1) (suc o + 1) (omega arith) (scan-Below ps o))

scan-Below_cons :
    (p : AddressProgram) (ps : List AddressProgram) (o : ℕ) → Below o (scan (p ∷ ps) o)
unfolding scan
scan-Below_cons p ps zero = tt
scan-Below_cons p ps (suc o) =
    rw (probe-suc p o) (Below-weaken (scan ps o) (o + 1) (suc o) (omega arith) (scan-Below ps o))

module _ (max_lag max_arity : ℕ) (delta content multi : Bool) where
  visit_lag-scan :
      (outer o : ℕ)
      → visit_lag max_arity delta content multi outer o
        ≡ scan (lag_block max_arity delta content multi outer) o
  unfolding visit_lag
  visit_lag-scan outer o =
      let first = positional_block max_arity outer tuple in
      let second = if delta then positional_block max_arity outer delta_mod else [] in
      let third = if content then content_block max_arity multi outer else [] in
      let second_scan : (x : ℕ)
          → (if delta then visit max_arity outer delta_mod x else miss x) ≡ scan second x =
        optional_scan delta _ _ (visit-scan max_arity outer delta_mod) in
      let third_scan : (x : ℕ)
          → (if content then visit_content max_arity multi outer x else miss x) ≡ scan third x =
        optional_scan content _ _ (visit_content-scan max_arity multi outer) in
      ap₂ and_then (visit-scan max_arity outer tuple o) refl
      ∙ and_then-ext (scan first o) _ _ (λ x.
        ap₂ and_then (second_scan x) refl
        ∙ and_then-ext (scan second x) _ _ third_scan
        ∙ sym (scan-append second third x))
      ∙ sym (scan-append first (second ++ third) o)

  lag_block-Below : (outer o : ℕ) → Below o (scan (lag_block max_arity delta content multi outer) o)
  lag_block-Below outer o = scan-Below_cons (single_program tuple outer) _ o

  -- A round of the loop, past the largest lag and inside.
  outer_loop_past :
      (rounds outer o : ℕ)
      → leb outer max_lag ≡ false
      → outer_loop max_lag max_arity delta content multi (suc rounds) outer o ≡ miss o
  unfolding outer_loop
  outer_loop_past rounds outer o past =
      ap
        (λ (inside : Bool). elim inside as (λ b. Scan) [
          | true ↦
              and_then (visit_lag max_arity delta content multi outer o)
                (outer_loop max_lag max_arity delta content multi rounds ((outer + 1) % 2 ^ 32))
          | false ↦ miss o
        ])
        past

  outer_loop_inside :
      (rounds outer o : ℕ)
      → leb outer max_lag ≡ true
      → outer_loop max_lag max_arity delta content multi (suc rounds) outer o
        ≡ and_then
            (scan (lag_block max_arity delta content multi outer) o)
            (outer_loop max_lag max_arity delta content multi rounds ((outer + 1) % 2 ^ 32))
  unfolding outer_loop
  outer_loop_inside rounds outer o inside =
      let next = outer_loop max_lag max_arity delta content multi rounds ((outer + 1) % 2 ^ 32) in
      ap
        (λ (b : Bool). elim b as (λ b. Scan) [
          | true ↦ and_then (visit_lag max_arity delta content multi outer o) next
          | false ↦ miss o
        ])
        inside
      ∙ ap (λ (s : Scan). and_then s next) (visit_lag-scan outer o)

  -- More rounds than the ordinal make no difference, whatever the largest lag.
  outer_loop_rounds :
      (rounds more outer o : ℕ)
      → o < rounds
      → o < more
      → outer_loop max_lag max_arity delta content multi rounds outer o
        ≡ outer_loop max_lag max_arity delta content multi more outer o
  outer_loop_rounds zero more outer o h g = absurd (omega arith)
  outer_loop_rounds (suc rounds) zero outer o h g = absurd (omega arith)
  outer_loop_rounds (suc rounds) (suc more) outer o h g = elim (Bool-cases (leb outer max_lag)) [
    | inr past ↦ outer_loop_past rounds outer o past ∙ sym (outer_loop_past more outer o past)
    | inl inside ↦
        outer_loop_inside rounds outer o inside
        ∙ and_then-ext-Below (scan (lag_block max_arity delta content multi outer) o) _ _ o
            (lag_block-Below outer o)
            (λ x below.
              outer_loop_rounds rounds more ((outer + 1) % 2 ^ 32) x (omega arith) (omega arith))
        ∙ sym (outer_loop_inside more outer o inside)
  ]

  -- Below the largest 32-bit lag the counter does not wrap.
  outer_loop-scan :
      (rounds count outer o : ℕ)
      → max_lag < 2 ^ 32 - 1
      → o < rounds
      → count ≡ max_lag + 1 - outer
      → outer_loop max_lag max_arity delta content multi rounds outer o
        ≡ scan (proposals max_arity delta content multi count outer) o
  unfolding proposals scan
  outer_loop-scan zero count outer o small h c = absurd (omega arith)
  outer_loop-scan (suc rounds) zero outer o small h c =
      outer_loop_past rounds outer o (ground arith)
  outer_loop-scan (suc rounds) (suc count) outer o small h c =
      let next : (outer + 1) % 2 ^ 32 ≡ outer + 1 = omega arith in
      let block = lag_block max_arity delta content multi outer in
      outer_loop_inside rounds outer o (ground arith)
      ∙ rw next (
          and_then-ext-Below (scan block o) _ _ o (lag_block-Below outer o) (λ x below.
            outer_loop-scan rounds count (outer + 1) x small (omega arith) (omega arith)))
      ∙ sym (scan-append block (proposals max_arity delta content multi count (outer + 1)) o)

-- With a largest lag below 2^32 - 1, the proposal at an ordinal is the entry of the list of proposals
-- at that index, and none past its end.
pub proposal_at-proposals :
    (ordinal max_lag max_arity : ℕ) (delta content multi : Bool)
    → max_lag < 2 ^ 32 - 1
    → proposal_at ordinal max_lag max_arity delta content multi
      ≡ get_elem? (proposals max_arity delta content multi (max_lag - 1) 2) ordinal
unfolding proposal_at
proposal_at-proposals ordinal max_lag max_arity delta content multi small =
    ap found_program (
      outer_loop-scan max_lag max_arity delta content multi (ordinal + 1) (max_lag - 1) 2 ordinal
        small (omega arith) (omega arith))
    ∙ found_program-scan (proposals max_arity delta content multi (max_lag - 1) 2) ordinal
