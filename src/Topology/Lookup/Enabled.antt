-- ===== src/Topology/Lookup/Enabled.antt =====
-- What the searches return: an enabled channel, or none.
use sparse_branch_machine.Base.{
  ℕ, zero, suc, ◌+◌, ◌-◌, ◌%◌, ◌^◌, ◌≤◌, ◌<◌, ◌≡◌, ◌≢◌, ◌⊎◌, ◌↔◌, inl, inr, refl, sym, arith, Bool,
  true, false, Bool-cases, ◌||◌, ◌&&◌, not, ltb, leb, ◌==◌, if◌then◌else◌, none, some, Option-cases,
  List, [], ◌∷◌, get_elem?, get_or, length, subst,
}
use sparse_branch_machine.Address.{
  AddressProgram, invalid_channel, is_content_follow_op, same_program, singleton_address_program,
  content_match,
}
use sparse_branch_machine.Topology.{
  ChannelState, is_live, live_at, dependency_live, channel_enabled,
}
use sparse_branch_machine.Topology.Lookup.{
  channel_test, search_loop, find_channel_for_program, find_positional_channel_for_lag,
  find_prefix_channel, resolve_channel_lineage, prefix_lags, is_content_match,
}

module _ {float double : Type 0} (topology : List (ChannelState float double)) where
  -- No channel, or one that is enabled.
  abbrev pub IsLineage : ℕ → Type 0
  IsLineage channel = (channel ≡ invalid_channel) ⊎ (channel_enabled topology channel ≡ true)

  -- The first channel from `first` on that is enabled and whose program passes, or none.
  abbrev pub IsFirst : (AddressProgram → Bool) → ℕ → ℕ → ℕ → Type 0
  IsFirst test first bound channel =
      ((channel ≡ invalid_channel)
        × ((c : ℕ) → first ≤ c → c < bound → channel_test topology test c ≡ false))
      ⊎ ((first ≤ channel)
          × (channel < bound)
          × (channel_test topology test channel ≡ true)
          × ((c : ℕ) → first ≤ c → c < channel → channel_test topology test c ≡ false))

  search_loop-IsFirst :
      (test : AddressProgram → Bool) (rounds channel : ℕ)
      → channel + rounds ≤ 255
      → IsFirst test channel (channel + rounds) (search_loop rounds channel topology test)
  unfolding search_loop
  search_loop-IsFirst test zero channel h = inl (refl, λ c p q. absurd (omega arith))
  search_loop-IsFirst test (suc rounds) channel h =
      elim (Bool-cases (channel_test topology test channel)) [
        | inl passes ↦
            let small : channel % 2 ^ 8 ≡ channel = omega arith in
            rw (passes, small)
              (inr (omega arith, omega arith, passes, λ c p q. absurd (omega arith)))
        | inr fails ↦ rw fails (elim (search_loop-IsFirst test rounds (channel + 1) (omega arith)) [
          | inl (e, f) ↦ inl (e, λ c p q. before fails c p (λ r. f c r (omega arith)))
          | inr (a, b, t, f) ↦
              inr (omega arith, omega arith, t, λ c p q. before fails c p (λ r. f c r q))
        ])
      ]
    where
      decide : (c : ℕ) → channel ≤ c → (channel ≡ c) ⊎ (channel + 1 ≤ c)
      decide c p = omega arith

      before :
          channel_test topology test channel ≡ false
          → (c : ℕ) → channel ≤ c
          → (channel + 1 ≤ c → channel_test topology test c ≡ false)
          → channel_test topology test c ≡ false
      before fails c p f = elim (decide c p) [
        | inl same ↦ subst (λ x. channel_test topology test x ≡ false) same fails
        | inr later ↦ f later
      ]

  test-enabled :
      (test : AddressProgram → Bool) (c : ℕ)
      → channel_test topology test c ≡ true
      → channel_enabled topology c ≡ true
  test-enabled test c h = elim (Option-cases (get_elem? topology c)) [
    | inl nothing ↦ absurd (refuted nothing)
    | inr (state, e) ↦ both (channel_enabled topology c) (test state.program) (opened state e)
  ]
    where
      both : (a b : Bool) → (a && b) ≡ true → a ≡ true
      both true b e = refl
      both false b e = e

      opened :
          (state : ChannelState float double)
          → get_elem? topology c ≡ some state
          → (channel_enabled topology c && test state.program) ≡ true
      opened state e = rw (e, channel_test) at h

      refuted : get_elem? topology c ≡ none → ⊥
      refuted e = let x : false ≡ true = rw (e, channel_test) at h in cc

  search_loop-IsLineage :
      (test : AddressProgram → Bool) (rounds channel : ℕ)
      → channel + rounds ≤ 255
      → IsLineage (search_loop rounds channel topology test)
  search_loop-IsLineage test rounds channel h = elim (search_loop-IsFirst test rounds channel h) [
    | inl (e, f) ↦ inl e
    | inr (a, b, t, f) ↦ inr (test-enabled test _ t)
  ]

  choose : (b : Bool) (x y : ℕ) → IsLineage x → IsLineage y → IsLineage (if b then x else y)
  choose true x y h g = h
  choose false x y h g = g

  choose_both :
      (b : Bool) (x y : ℕ × ℕ)
      → (x.0 ≡ x.1) × IsLineage x.0
      → (y.0 ≡ y.1) × IsLineage y.0
      → let r = if b then x else y in (r.0 ≡ r.1) × IsLineage r.0
  choose_both true x y h g = h
  choose_both false x y h g = g

  module _ (few : length topology ≤ 255) where
    for_program : (p : AddressProgram) → IsLineage (find_channel_for_program topology p)
    unfolding find_channel_for_program
    for_program p = search_loop-IsLineage (λ q. same_program q p) (length topology) 0 (omega arith)

    for_lag : (lag : ℕ) → IsLineage (find_positional_channel_for_lag topology lag)
    unfolding find_positional_channel_for_lag
    for_lag lag =
        choose _ _ _ (search_loop-IsLineage _ (length topology) 0 (omega arith))
          (search_loop-IsLineage _ (length topology) 0 (omega arith))

    for_prefix : (p : AddressProgram) → IsLineage (find_prefix_channel topology p)
    unfolding find_prefix_channel
    for_prefix p =
        let q : AddressProgram = record {
          lags = prefix_lags (p.arity - 1) p.lags;
          arity = (p.arity - 1) % 2 ^ 8;
          op = p.op;
        } in
        let exact =
          if ltb 1 p.arity then find_channel_for_program topology q else invalid_channel in
        let at_lag = find_positional_channel_for_lag topology (get_or p.lags (p.arity - 1) 0) in
        choose (p.arity == 0) _ _ (inl refl) (
          choose (not (exact == invalid_channel)) _ _
            (choose (ltb 1 p.arity) _ _ (for_program q) (inl refl))
            (choose (not (at_lag == invalid_channel)) _ _ (for_lag (get_or p.lags (p.arity - 1) 0))
              (first (Bool-cases (length topology == 0 || not (channel_enabled topology 0))))))
      where
        last_false : (a b : Bool) → (a || not b) ≡ false → b ≡ true
        last_false false true e = refl
        last_false false false e = sym e
        last_false true b e = absurd (cc)

        first :
            (((length topology == 0 || not (channel_enabled topology 0)) ≡ true)
              ⊎ ((length topology == 0 || not (channel_enabled topology 0)) ≡ false))
            → IsLineage (
                if length topology == 0 || not (channel_enabled topology 0)
                then invalid_channel
                else 0)
        first (inl e) = rw e (inl refl)
        first (inr e) =
            rw e (inr (last_false (length topology == 0) (channel_enabled topology 0) e))

    -- With at most 255 channels, the parent and the dependency that a proposal gets are one and the
    -- same channel, which is enabled, or they are both the invalid channel.
    pub resolve_channel_lineage-IsLineage :
        (p : AddressProgram)
        → let (parent, dependency) = resolve_channel_lineage topology p in
          (parent ≡ dependency) × IsLineage parent
    unfolding resolve_channel_lineage
    resolve_channel_lineage-IsLineage p =
        let max_lag = get_or p.lags (p.arity - 1) 0 in
        let q : AddressProgram = record (singleton_address_program max_lag) {
          op = content_match;
        } in
        let matching = find_channel_for_program topology q in
        choose_both (p.arity == 0) _ _ (refl, inl refl)
          (choose_both (is_content_match p.op) _ _ (refl, for_lag max_lag)
            (choose_both (is_content_follow_op p.op) _ _
              (refl, choose (matching == invalid_channel) _ _ (for_lag max_lag) (for_program q))
              (refl, for_prefix p)))

    -- With at most 255 channels, the search for a program returns the first enabled channel that runs
    -- it, or the invalid channel if no enabled channel runs it.
    find_channel_for_program-IsFirst :
        (p : AddressProgram)
        → IsFirst
            (λ q. same_program q p)
            0
            (0 + length topology)
            (find_channel_for_program topology p)
    unfolding find_channel_for_program
    find_channel_for_program-IsFirst p =
        search_loop-IsFirst (λ q. same_program q p) (length topology) 0 (omega arith)

get_elem?-inside {ℓ} :
    {A : Type ℓ} (xs : List A) (i : ℕ) (a : A) → get_elem? xs i ≡ some a → i < length xs
get_elem?-inside [] i a e = absurd (cc)
get_elem?-inside (x ∷ xs) zero a e = omega arith
get_elem?-inside (x ∷ xs) (suc i) a e = omega (arith, get_elem?-inside xs i a e)

live-inside :
    {float double : Type 0} (topology : List (ChannelState float double)) (c : ℕ)
    → live_at topology c ≡ true
    → c < length topology
live-inside topology c h = elim (Option-cases (get_elem? topology c)) [
  | inl nothing ↦ let x : false ≡ true = rw (nothing, live_at) at h in absurd (cc)
  | inr (state, e) ↦ get_elem?-inside topology c state e
]

unless : (b l : Bool) → (if b then false else l) ≡ true → (b ≡ false) × (l ≡ true)
unless true l h = absurd (cc)
unless false l h = (refl, h)

-- A channel takes part exactly when it is seed, probe or active and, if it follows content, the
-- channel that it depends on is another one and is seed, probe or active too.
channel_enabled_iff :
    {float double : Type 0} (topology : List (ChannelState float double)) (channel : ℕ)
    (state : ChannelState float double)
    → get_elem? topology channel ≡ some state
    → (channel_enabled topology channel ≡ true) ↔ (
        (is_live state.phase ≡ true)
        × ((is_content_follow_op state.program.op ≡ false)
            ⊎ ((state.dependency_channel ≢ channel)
                × (live_at topology state.dependency_channel ≡ true))))
unfolding channel_enabled
channel_enabled_iff {float} {double} topology channel state e =
    rw (channel_enabled, e) (cases (is_live state.phase) (is_content_follow_op state.program.op))
  where
    dependent : (dependency_live topology channel state ≡ true) ↔ (
        (state.dependency_channel ≢ channel) × (live_at topology state.dependency_channel ≡ true))
    dependent = (
      λ h.
          let (b, l) =
            unless
              (leb (length topology) state.dependency_channel
                || state.dependency_channel == channel)
              _ h in
          (λ same. ground arith, l),
      λ h.
          let inside = live-inside topology state.dependency_channel h.1 in
          let apart = h.0 in
          let b : (leb (length topology) state.dependency_channel
                || state.dependency_channel == channel)
              ≡ false =
            ground arith in
          rw b h.1,
    )

    cases :
        (live follow : Bool)
        → ((if not live
              then false
              else (if not follow then true else dependency_live topology channel state))
            ≡ true)
          ↔ ((live ≡ true)
              × ((follow ≡ false)
                  ⊎ ((state.dependency_channel ≢ channel)
                      × (live_at topology state.dependency_channel ≡ true))))
    cases false follow = (λ h. absurd (cc), λ h. absurd (cc))
    cases true false = (λ h. (refl, inl refl), λ h. refl)
    cases true true = (
      λ h. (refl, inr (dependent.0 h)),
      λ h. elim h.1 [ inl f ↦ absurd (cc) | inr g ↦ dependent.1 g ],
    )
