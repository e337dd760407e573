-- ===== src/Address/Binding/Resolve.antt =====
-- The binding state that `resolve_address_binding_state` returns.
use sparse_branch_machine.Base.{
  ℕ, zero, suc, ◌+◌, ◌-◌, ◌^◌, ◌≤◌, ◌<◌, ◌≡◌, ◌≢◌, inl, inr, refl, ap, arith, true, false,
  Bool-cases, ◌||◌, ◌==◌, min, Option, none, some, List, get_or, length,
}
use sparse_branch_machine.Address.{
  AddressOp, AddressProgram, AddressBindingState, content_follow_hop_count, tuple, delta_mod,
  content_match, content_follow, content_follow_multi2, content_follow_multi3,
}
use sparse_branch_machine.Address.Match.{
  ContentMatchResult, safe_history_index, find_content_match, find_content_match-Nearest, Nearest,
}
use sparse_branch_machine.Address.Binding.{
  binding_state_key, hop_loop, is_positional_op, last_lag, pattern_terms_of, initial_binding,
  content_binding_at, resolve_address_binding_state,
}

binding_state_key-positive :
    (s : AddressBindingState) (p : AddressProgram) → s.matched ≡ true → binding_state_key s p ≢ 0
unfolding binding_state_key
binding_state_key-positive s p h e = ground arith

-- A match with a token behind it inside the window, within the lag bound.
pub record IsHop (window : List ℕ) (max_lag : ℕ) (m : ContentMatchResult) : Type 0 where
  pub successor_inside : m.index + 1 < length window
  pub positive : 0 < m.distance
  pub bounded : m.distance ≤ max_lag

abbrev IsHops : List ℕ → ℕ → Option ContentMatchResult → Type 0
IsHops window max_lag none = Unit
IsHops window max_lag (some m) = IsHop window max_lag m

module _ (window : List ℕ) (max_lag : ℕ) (lags : List ℕ) (pattern_count : ℕ)
    (g : length window ≤ 2 ^ 32) where
  found :
      (current : ℕ)
      → current < length window
      → (o : Option ContentMatchResult)
      → Nearest window current lags pattern_count 1 (1 + min max_lag current) o
      → IsHops window max_lag o
  found current h none n = tt
  found current h (some m) (a, b, c, d, e) = record {
    successor_inside = omega arith;
    positive = omega arith;
    bounded = omega arith;
  }

  hop_loop-IsHops :
      (rounds current : ℕ) (final : ContentMatchResult)
      → current < length window
      → (rounds ≡ 0 → IsHop window max_lag final)
      → IsHops window max_lag (hop_loop rounds window max_lag lags pattern_count current final)
  unfolding hop_loop
  hop_loop-IsHops zero current final h f = f refl
  hop_loop-IsHops (suc rounds) current final h f =
      after (find_content_match window current max_lag lags pattern_count)
        (found current h _
          (find_content_match-Nearest window current lags pattern_count max_lag h g))
        (hop_loop-IsHops rounds)
    where
      after :
          (o : Option ContentMatchResult)
          → IsHops window max_lag o
          → ((current : ℕ) (final : ContentMatchResult)
              → current < length window
              → (rounds ≡ 0 → IsHop window max_lag final)
              → IsHops window max_lag
                  (hop_loop rounds window max_lag lags pattern_count current final))
          → IsHops window max_lag (elim o [
            | none ↦ none
            | some m ↦ hop_loop rounds window max_lag lags pattern_count (m.index + 1) m
          ])
      after none p ih = tt
      after (some m) p ih = ih (m.index + 1) m p.successor_inside (λ _. p)

-- A matched state names a token of the window and has a positive key; one that followed content also
-- names the token behind it, at a distance from 1 to the lag bound.
pub record IsBound (window : List ℕ) (p : AddressProgram) (s : AddressBindingState) : Type 0 where
  pub index_inside : s.matched_index < length window
  pub token : s.matched_token ≡ get_or window s.matched_index 0
  pub current : s.current_token ≡ get_or window (length window - 1) 0
  pub key : s.binding_key ≢ 0
  pub content :
      is_positional_op p.op ≡ false
      → (s.matched_index + 1 < length window)
        × (s.matched_successor ≡ get_or window (s.matched_index + 1) 0)
        × (0 < s.matched_distance)
        × (s.matched_distance ≤ last_lag p)

content_at :
    (window : List ℕ) (p : AddressProgram) (terms : ℕ) (o : Option ContentMatchResult)
    → IsHops window (last_lag p) o
    → let s =
        content_binding_at window p
          (initial_binding terms (get_or window (length window - 1) 0))
          o in
      (s.matched ≡ true → IsBound window p s) × (s.matched ≡ false → s.binding_key ≡ 0)
content_at window p terms none h = (λ e. absurd (cc), λ _. refl)
content_at window p terms (some m) h =
    let s =
      content_binding_at window p (initial_binding terms (get_or window (length window - 1) 0))
        (some m) in
    let inside : min (m.index + 1) (length window - 1) ≡ m.index + 1 =
      omega (arith, h.successor_inside) in
    (
      λ e. record {
        index_inside = omega (arith, h.successor_inside);
        token = refl;
        current = refl;
        key = binding_state_key-positive _ p refl;
        content = λ _.
            (h.successor_inside, ap (λ (i : ℕ). get_or window i 0) inside, h.positive, h.bounded);
      },
      λ e. absurd (cc),
    )

-- In a window of at most 2 ^ 32 tokens, a matched state gives the index and the value of a token of
-- the window, the current token, and a key other than 0; where it followed content, also the token
-- behind the match, at a distance from 1 to the last lag. A state without a match has the key 0.
pub resolve_address_binding_state-IsBound :
    (window : List ℕ) (p : AddressProgram)
    → length window ≤ 2 ^ 32
    → let s = resolve_address_binding_state window p in
      (s.matched ≡ true → IsBound window p s) × (s.matched ≡ false → s.binding_key ≡ 0)
unfolding resolve_address_binding_state safe_history_index
resolve_address_binding_state-IsBound window p g =
    elim (Bool-cases (length window == 0 || p.arity == 0)) [
      | inl nothing ↦ rw nothing (λ e. absurd (cc), λ _. refl)
      | inr something ↦
          let filled : 0 < length window = ground arith in
          elim (Bool-cases (is_positional_op p.op)) [
            | inl at_lag ↦
                let inside : safe_history_index window (last_lag p) < length window =
                  ground arith in
                rw (something, at_lag)
                  (
                    λ e. record {
                      index_inside = inside;
                      token = refl;
                      current = refl;
                      key = binding_state_key-positive _ p refl;
                      content = λ no. absurd (cc);
                    },
                    λ e. absurd (cc),
                  )
            | inr by_content ↦
                rw (something, by_content)
                  (content_at window p (pattern_terms_of p) _ (
                    hop_loop-IsHops window (last_lag p) p.lags (pattern_terms_of p) g
                      (content_follow_hop_count p.op) (length window - 1)
                      (record { index = 0; distance = 0 }) (omega arith)
                      (λ e. absurd (hops p.op e))))
          ]
    ]
  where
    hops : (o : AddressOp) → content_follow_hop_count o ≢ 0
    hops tuple e = cc
    hops delta_mod e = cc
    hops content_match e = cc
    hops content_follow e = cc
    hops content_follow_multi2 e = cc
    hops content_follow_multi3 e = cc
