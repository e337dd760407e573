-- ===== src/Address/Match.antt =====
-- modules/signature.cpp: `safe_history_index` and `find_content_match`, and what the latter finds.
-- A window's indices are below 2 ^ 32, so the cast of the result to `uint32_t` is written out.
use sparse_branch_machine.Base.{
  ℕ, zero, suc, ◌+◌, ◌-◌, ◌%◌, ◌^◌, ◌≤◌, ◌<◌, ◌≡◌, ◌↔◌, inl, inr, refl, arith, Bool, true, false,
  Bool-cases, not, ◌||◌, ◌&&◌, ltb, ◌==◌, if◌then◌else◌, min, Option, none, some, List, get_or,
  length, compare_cases, subst,
}

unfoldable pub safe_history_index : List ℕ → ℕ → ℕ
safe_history_index window lag =
    if length window == 0
    then 0
    else (if ltb lag (length window) then (length window - 1 - lag) % 2 ^ 32 else 0)

pub record ContentMatchResult : Type 0 where
  pub index : ℕ
  pub distance : ℕ

-- The inner loop: `rounds` pattern terms are left, from `index` on.
unfoldable pub pattern_loop : ℕ → ℕ → List ℕ → List ℕ → ℕ → ℕ → Bool
pattern_loop zero index lags window current candidate = true
pattern_loop (suc rounds) index lags window current candidate =
    let lag = get_or lags index 0 in
    not (
      ltb current lag
      || ltb candidate lag
      || not (get_or window (current - lag) 0 == get_or window (candidate - lag) 0))
    && pattern_loop rounds (index + 1) lags window current candidate

-- The outer loop: `rounds` distances are left, from `distance` on.
unfoldable pub distance_loop : ℕ → ℕ → List ℕ → ℕ → List ℕ → ℕ → Option ContentMatchResult
unfolding pattern_loop
distance_loop zero distance window current lags pattern_count = none
distance_loop (suc rounds) distance window current lags pattern_count =
    let candidate = current - distance in
    let rest = distance_loop rounds (distance + 1) window current lags pattern_count in
    if not (get_or window candidate 0 == get_or window current 0)
    then rest
    else (if pattern_loop pattern_count 0 lags window current candidate
        then some (record { index = candidate % 2 ^ 32; distance = distance % 2 ^ 32 })
        else rest)

unfoldable pub find_content_match : List ℕ → ℕ → ℕ → List ℕ → ℕ → Option ContentMatchResult
unfolding distance_loop
find_content_match window current max_lag lags pattern_count =
    if current == 0 || length window == 0
    then none
    else distance_loop (min max_lag current) 1 window current lags pattern_count

-- The token `distance` back is the current one, and so are the pattern's tokens before both.
pub record IsMatch (window : List ℕ) (current : ℕ) (lags : List ℕ) (pattern_count distance : ℕ)
    : Type 0 where
  pub same_token : get_or window (current - distance) 0 ≡ get_or window current 0
  pub same_pattern :
      (i : ℕ)
      → i < pattern_count
      → (get_or lags i 0 ≤ current - distance)
        × (get_or window (current - get_or lags i 0) 0
            ≡ get_or window (current - distance - get_or lags i 0) 0)

abbrev SameAt : List ℕ → List ℕ → ℕ → ℕ → ℕ → Type 0
SameAt lags window current candidate i =
    (get_or lags i 0 ≤ candidate)
    × (get_or window (current - get_or lags i 0) 0 ≡ get_or window (candidate - get_or lags i 0) 0)

module _ (lags window : List ℕ) (current candidate : ℕ) (h : candidate ≤ current) where
  pattern_loop_iff :
      (rounds index : ℕ)
      → (pattern_loop rounds index lags window current candidate ≡ true)
        ↔ ((i : ℕ) → index ≤ i → i < index + rounds → SameAt lags window current candidate i)
  unfolding pattern_loop
  pattern_loop_iff zero index = (λ e i p q. absurd (omega arith), λ f. refl)
  pattern_loop_iff (suc rounds) index =
      let (to, from) = pattern_loop_iff rounds (index + 1) in
      (
        λ e i p q.
            let here : SameAt lags window current candidate index = (ground arith, ground arith) in
            let later : pattern_loop rounds (index + 1) lags window current candidate ≡ true =
              ground arith in
            elim (compare_cases index i) [
              | inl less ↦ to later i (omega arith) (omega arith)
              | inr (inl same) ↦ subst (SameAt lags window current candidate) same here
              | inr (inr more) ↦ absurd (omega arith)
            ],
        λ f.
            let now = f index (omega arith) (omega arith) in
            ground (arith, now.0, now.1, from (λ i p q. f i (omega arith) (omega arith))),
      )

module _ (window : List ℕ) (current : ℕ) (lags : List ℕ) (pattern_count : ℕ) where
  -- What a search of the distances from `first` up to `bound`, exclusively, reports.
  abbrev pub Nearest : ℕ → ℕ → Option ContentMatchResult → Type 0
  Nearest first bound none =
      (d : ℕ) → first ≤ d → d < bound → ¬ IsMatch window current lags pattern_count d
  Nearest first bound (some m) =
      (first ≤ m.distance)
      × (m.distance < bound)
      × (m.index ≡ current - m.distance)
      × IsMatch window current lags pattern_count m.distance
      × ((d : ℕ) → first ≤ d → d < m.distance → ¬ IsMatch window current lags pattern_count d)

  abbrev match_test : ℕ → Bool
  match_test d =
      get_or window (current - d) 0 == get_or window current 0
      && pattern_loop pattern_count 0 lags window current (current - d)

  match_test_iff : (d : ℕ) → (match_test d ≡ true) ↔ IsMatch window current lags pattern_count d
  match_test_iff d =
      let (to, from) =
        pattern_loop_iff lags window current (current - d) (omega arith) pattern_count 0 in
      (
        λ e.
            let p : pattern_loop pattern_count 0 lags window current (current - d) ≡ true =
              ground arith in
            record {
              same_token = ground arith;
              same_pattern = λ i h. to p i (omega arith) (omega arith);
            },
        λ m.
            let p : pattern_loop pattern_count 0 lags window current (current - d) ≡ true =
              from (λ i _ h. m.same_pattern i (omega arith)) in
            ground (arith, m.same_token),
      )

  distance_loop-step :
      (rounds d : ℕ)
      → distance_loop (suc rounds) d window current lags pattern_count ≡ (
          if match_test d
          then some (record { index = (current - d) % 2 ^ 32; distance = d % 2 ^ 32 })
          else distance_loop rounds (d + 1) window current lags pattern_count)
  unfolding distance_loop
  distance_loop-step rounds d = ground arith

  extended :
      (d bound : ℕ) (o : Option ContentMatchResult)
      → ¬ IsMatch window current lags pattern_count d
      → Nearest (d + 1) bound o
      → Nearest d bound o
  extended d bound none n f = λ e p q. elim (compare_cases d e) [
    | inl less ↦ f e (omega arith) q
    | inr (inl same) ↦ subst (λ x. ¬ IsMatch window current lags pattern_count x) same n
    | inr (inr more) ↦ absurd (omega arith)
  ]
  extended d bound (some m) n (a, b, c, i, f) = (
    omega arith,
    b,
    c,
    i,
    λ e p q. elim (compare_cases d e) [
      | inl less ↦ f e (omega arith) q
      | inr (inl same) ↦ subst (λ x. ¬ IsMatch window current lags pattern_count x) same n
      | inr (inr more) ↦ absurd (omega arith)
    ],
  )

  distance_loop-Nearest :
      (rounds d : ℕ)
      → current < 2 ^ 32
      → d + rounds ≤ 2 ^ 32
      → Nearest d (d + rounds) (distance_loop rounds d window current lags pattern_count)
  unfolding distance_loop
  distance_loop-Nearest zero d h g = λ e p q. absurd (omega arith)
  distance_loop-Nearest (suc rounds) d h g =
      let (to, from) = match_test_iff d in
      let bound : d + suc rounds ≡ d + 1 + rounds = omega arith in
      elim (Bool-cases (match_test d)) [
        | inl yes_here ↦
            let a : (current - d) % 2 ^ 32 ≡ current - d = omega arith in
            let b : d % 2 ^ 32 ≡ d = omega arith in
            rw (distance_loop-step rounds d, yes_here, a, b)
              (omega arith, omega arith, refl, to yes_here, λ e p q. absurd (omega arith))
        | inr not_here ↦
            let no_match : ¬ IsMatch window current lags pattern_count d =
              λ m. ground (arith, from m) in
            rw (distance_loop-step rounds d, not_here, bound)
              (extended d (d + 1 + rounds) _ no_match
                (distance_loop-Nearest rounds (d + 1) h (omega arith)))
      ]

  -- From an index inside a window of at most 2 ^ 32 tokens, the match that is found is the nearest one
  -- within the lag bound; when none is found, no distance from 1 to the bound matches.
  pub find_content_match-Nearest :
      (max_lag : ℕ)
      → current < length window
      → length window ≤ 2 ^ 32
      → Nearest 1
          (1 + min max_lag current)
          (find_content_match window current max_lag lags pattern_count)
  unfolding find_content_match
  find_content_match-Nearest max_lag h g = elim (compare_cases current 0) [
    | inl less ↦ absurd (omega arith)
    | inr (inl same) ↦
        let t : (current == 0) ≡ true = ground arith in rw t (λ e p q. absurd (omega arith))
    | inr (inr more) ↦
        let t : (current == 0) ≡ false = ground arith in
        let s : (length window == 0) ≡ false = ground arith in
        rw (t, s) (distance_loop-Nearest (min max_lag current) 1 (omega arith) (omega arith))
  ]
