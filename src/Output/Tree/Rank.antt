-- ===== src/Output/Tree/Rank.antt =====
-- Tokens and ranks: `rank_from_token` and `token_from_rank`.
use native.Mathlib.Nat.{mul-le-mul}
use sparse_branch_machine.Base.{
  ℕ, ◌+◌, ◌-◌, ◌*◌, ◌%◌, ◌^◌, ◌≤◌, ◌<◌, ◌≡◌, arith, leb, ok, throw, out_of_range, ap, ◌∙◌, false,
}
use sparse_branch_machine.Base.Congruence.{
  Cong, Cong-refl, Cong-sym, Cong-trans, Cong-add, Cong-scale, Cong-mod, Cong-eq-mod,
}
use sparse_branch_machine.Output.Tree.{
  ImplicitOutputTree, IsPermutation, rank_from_token, token_from_rank,
}

-- A product of two residues of a 32-bit modulus, plus a third, fits 64 bits.
product_fits : (m a b c : ℕ) → m < 2 ^ 32 → a < m → b < m → c < m → (a * b + c) % 2 ^ 64 ≡ a * b + c
product_fits m a b c w ha hb hc =
    let bound : a * b ≤ 4294967294 * 4294967294 =
      mul-le-mul {n₂ = 4294967294} {m₂ = 4294967294} (omega arith) (omega arith) in
    omega arith

module _ (t : ImplicitOutputTree) (p : IsPermutation t) where
  abbrev pub rank_of : ℕ → ℕ
  rank_of token = (t.multiplier * token + t.offset) % t.vocabulary

  abbrev pub shifted : ℕ → ℕ
  shifted rank = (rank + (t.vocabulary - t.offset)) % t.vocabulary

  abbrev pub token_of : ℕ → ℕ
  token_of rank = (t.inverse * shifted rank) % t.vocabulary

  -- With every number below the vocabulary, nothing wraps at 64 bits.
  pub rank_from_token-ok :
      (token : ℕ) → token < t.vocabulary → rank_from_token t token ≡ ok (rank_of token)
  unfolding rank_from_token
  rank_from_token-ok token h =
      let inside : leb t.vocabulary token ≡ false = ground arith in
      rw (
        inside,
        product_fits t.vocabulary t.multiplier token t.offset p.word p.multiplier_lt h p.offset_lt,
      )

  shift_fits :
      (rank : ℕ)
      → rank < t.vocabulary
      → (rank + t.vocabulary + 2 ^ 64 - t.offset) % 2 ^ 64 ≡ rank + (t.vocabulary - t.offset)
  shift_fits rank h = omega (arith, p.word, p.offset_lt)

  pub token_from_rank-ok :
      (rank : ℕ) → rank < t.vocabulary → token_from_rank t rank ≡ ok (token_of rank)
  unfolding token_from_rank
  token_from_rank-ok rank h =
      let inside : leb t.vocabulary rank ≡ false = ground arith in
      let several = p.several in
      let fits : (t.inverse * shifted rank) % 2 ^ 64 ≡ t.inverse * shifted rank = omega (
        arith,
        product_fits t.vocabulary t.inverse (shifted rank) 0 p.word p.inverse_lt (omega arith)
            (omega arith),
      ) in
      rw (inside, shift_fits rank h, fits)

  inverts-Cong : (a : ℕ) → Cong t.vocabulary (t.inverse * (t.multiplier * a)) a
  inverts-Cong a =
      let one =
        rw p.inverts at
          (Cong-sym t.vocabulary (Cong-mod t.vocabulary (t.inverse * t.multiplier))) in
      let scaled = Cong-scale t.vocabulary a one in
      record { left = scaled.left; right = scaled.right; balance = omega (arith, scaled.balance) }

  shifted-Cong : (rank : ℕ) → Cong t.vocabulary (shifted rank + t.offset) rank
  shifted-Cong rank =
      let off = p.offset_lt in
      let c = Cong-mod t.vocabulary (rank + (t.vocabulary - t.offset)) in
      record { left = c.left; right = c.right + 1; balance = omega (arith, c.balance) }

  token_of-rank_of : (token : ℕ) → token < t.vocabulary → token_of (rank_of token) ≡ token
  token_of-rank_of token h =
      Cong-eq-mod v h (Cong-trans v (Cong-scale v t.inverse drop) (inverts-Cong token))
    where
      v : ℕ
      v = t.vocabulary

      drop : Cong v (shifted (rank_of token)) (t.multiplier * token)
      drop =
          let c =
            Cong-trans v (shifted-Cong (rank_of token))
              (Cong-mod v (t.multiplier * token + t.offset)) in
          record { left = c.left; right = c.right; balance = omega (arith, c.balance) }

  rank_of-token_of : (rank : ℕ) → rank < t.vocabulary → rank_of (token_of rank) ≡ rank
  rank_of-token_of rank h = Cong-eq-mod v h (
      Cong-trans v
        (Cong-add v (Cong-trans v (Cong-scale v t.multiplier (Cong-mod v _)) around)
          (Cong-refl v t.offset))
        (shifted-Cong rank))
    where
      v : ℕ
      v = t.vocabulary

      around : Cong v (t.multiplier * (t.inverse * shifted rank)) (shifted rank)
      around =
          let c = inverts-Cong (shifted rank) in
          record { left = c.left; right = c.right; balance = omega (arith, c.balance) }

-- Every token of the vocabulary has a rank below the vocabulary, and the token is read back from
-- the rank; so for every rank and its token.
pub token_from_rank-rank_from_token :
    (t : ImplicitOutputTree) (x : ℕ)
    → IsPermutation t
    → x < t.vocabulary
    → ((rank : ℕ) × (rank_from_token t x ≡ ok rank)
        × (rank < t.vocabulary)
        × (token_from_rank t rank ≡ ok x))
      × ((token : ℕ) × (token_from_rank t x ≡ ok token)
          × (token < t.vocabulary)
          × (rank_from_token t token ≡ ok x))
token_from_rank-rank_from_token t x p h =
    let several = p.several in
    let r_lt : rank_of t p x < t.vocabulary = omega arith in
    let t_lt : token_of t p x < t.vocabulary = omega arith in
    (
      (
        _,
        rank_from_token-ok t p x h,
        r_lt,
        token_from_rank-ok t p _ r_lt ∙ ap ok (token_of-rank_of t p x h),
      ),
      (
        _,
        token_from_rank-ok t p x h,
        t_lt,
        rank_from_token-ok t p _ t_lt ∙ ap ok (rank_of-token_of t p x h),
      ),
    )

-- For a token or a rank outside the vocabulary, both methods throw `out_of_range`.
pub rank_from_token-out_of_range :
    (t : ImplicitOutputTree) (x : ℕ)
    → t.vocabulary ≤ x
    → (rank_from_token t x ≡ throw out_of_range) × (token_from_rank t x ≡ throw out_of_range)
unfolding rank_from_token token_from_rank
rank_from_token-out_of_range t x h = ground arith
