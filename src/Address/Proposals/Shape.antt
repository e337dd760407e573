-- ===== src/Address/Proposals/Shape.antt =====
-- The lags and the operation of a proposal.
use sparse_branch_machine.Base.{
  ℕ, zero, suc, ◌+◌, ◌-◌, ◌^◌, ◌≤◌, ◌<◌, ◌≡◌, ◌⊎◌, inl, inr, refl, sym, ◌∙◌, arith, Bool, true,
  false, Bool-cases, ltb, leb, if◌then◌else◌, some, List, [], ◌∷◌, All, All-append, All-get_elem?,
}
use sparse_branch_machine.Address.{
  AddressOp, AddressProgram, address_program_key, tuple, delta_mod, content_match, content_follow,
  content_follow_multi2, content_follow_multi3,
}
use sparse_branch_machine.Address.Key.{IsKeyed, address_program_key_injective}
use sparse_branch_machine.Address.Proposals.{pair_program, single_program, proposal_at}
use sparse_branch_machine.Address.Proposals.Listing.{
  pairs, follows, positional_block, content_block, lag_block, proposals, proposal_at-proposals,
}

-- One lag, from 2 to the largest; or, where two are allowed, a positive one before it that is smaller.
pub record IsProposal (max_lag max_arity : ℕ) (p : AddressProgram) : Type 0 where
  pub last : ℕ
  pub at_least : 2 ≤ last
  pub at_most : last ≤ max_lag
  pub shape :
      ((p.arity ≡ 1) × (p.lags ≡ last ∷ 0 ∷ []))
      ⊎ ((inner : ℕ) × (2 ≤ max_arity)
          × (p.arity ≡ 2)
          × (p.lags ≡ inner ∷ last ∷ [])
          × (0 < inner)
          × (inner < last))

module _ (max_lag max_arity : ℕ) (outer : ℕ) (least : 2 ≤ outer) (most : outer ≤ max_lag) where
  single-IsProposal : (op : AddressOp) → IsProposal max_lag max_arity (single_program op outer)
  single-IsProposal op = record {
    last = outer;
    at_least = least;
    at_most = most;
    shape = inl (refl, refl);
  }

  pair-IsProposal :
      (op : AddressOp) (inner : ℕ)
      → 2 ≤ max_arity
      → 0 < inner
      → inner < outer
      → IsProposal max_lag max_arity (pair_program op inner outer)
  pair-IsProposal op inner a p q = record {
    last = outer;
    at_least = least;
    at_most = most;
    shape = inr (inner, a, refl, refl, p, q);
  }

  pairs-IsProposal :
      (op : AddressOp) (rounds inner : ℕ)
      → 2 ≤ max_arity
      → 0 < inner
      → rounds + inner ≤ outer
      → All (IsProposal max_lag max_arity) (pairs rounds inner outer op)
  unfolding pairs
  pairs-IsProposal op zero inner a p q = tt
  pairs-IsProposal op (suc rounds) inner a p q = (
    pair-IsProposal op inner a p (omega arith),
    pairs-IsProposal op rounds (inner + 1) a (omega arith) (omega arith),
  )

  follows-IsProposal :
      (multi : Bool) (rounds inner : ℕ)
      → 2 ≤ max_arity
      → 0 < inner
      → rounds + inner ≤ outer
      → All (IsProposal max_lag max_arity) (follows multi rounds inner outer)
  unfolding follows
  follows-IsProposal multi zero inner a p q = tt
  follows-IsProposal false (suc rounds) inner a p q = (
    pair-IsProposal content_follow inner a p (omega arith),
    follows-IsProposal false rounds (inner + 1) a (omega arith) (omega arith),
  )
  follows-IsProposal true (suc rounds) inner a p q =
      let one = λ (op : AddressOp). pair-IsProposal op inner a p (omega arith) in
      (
        one content_follow,
        (
          one content_follow_multi2,
          (
            one content_follow_multi3,
            follows-IsProposal true rounds (inner + 1) a (omega arith) (omega arith),
          ),
        ),
      )

  block-IsProposal :
      (op : AddressOp) → All (IsProposal max_lag max_arity) (positional_block max_arity outer op)
  block-IsProposal op = elim (Bool-cases (ltb max_arity 2)) [
    | inl low ↦ rw low (single-IsProposal op, tt)
    | inr high ↦ rw high (
      single-IsProposal op,
      pairs-IsProposal op (outer - 1) 1 (ground arith) (omega arith) (omega arith),
    )
  ]

  content-IsProposal :
      (multi : Bool) → All (IsProposal max_lag max_arity) (content_block max_arity multi outer)
  content-IsProposal multi = elim (Bool-cases (leb 2 max_arity)) [
    | inr low ↦ rw low (single-IsProposal content_match, tt)
    | inl high ↦ rw high (
      single-IsProposal content_match,
      follows-IsProposal multi (outer - 1) 1 (ground arith) (omega arith) (omega arith),
    )
  ]

optional-All {ℓ κ} :
    {A : Type ℓ} (P : A → Type κ) (b : Bool) (xs : List A) → All P xs → All P (if b then xs else [])
optional-All P true xs h = h
optional-All P false xs h = tt

module _ (max_lag max_arity : ℕ) (delta content multi : Bool) where
  proposals-IsProposal :
      (rounds outer : ℕ)
      → 2 ≤ outer
      → rounds + outer ≤ max_lag + 1
      → All (IsProposal max_lag max_arity) (proposals max_arity delta content multi rounds outer)
  unfolding proposals
  proposals-IsProposal zero outer p q = tt
  proposals-IsProposal (suc rounds) outer p q =
      let most : outer ≤ max_lag = omega arith in
      let block = block-IsProposal max_lag max_arity outer p most in
      let second = optional-All (IsProposal max_lag max_arity) delta _ (block delta_mod) in
      let third =
        optional-All (IsProposal max_lag max_arity) content _
          (content-IsProposal max_lag max_arity outer p most multi) in
      All-append (IsProposal max_lag max_arity) (lag_block max_arity delta content multi outer) _
        (All-append (IsProposal max_lag max_arity) (positional_block max_arity outer tuple) _
          (block tuple) (All-append (IsProposal max_lag max_arity) _ _ second third))
        (proposals-IsProposal rounds (outer + 1) (omega arith) (omega arith))

  -- With a largest lag below 2^32 - 1, every proposal has one lag from 2 to the largest, or, where two
  -- lags are allowed, a positive smaller one before it.
  pub proposal_at-IsProposal :
      (ordinal : ℕ) (p : AddressProgram)
      → max_lag < 2 ^ 32 - 1
      → proposal_at ordinal max_lag max_arity delta content multi ≡ some p
      → IsProposal max_lag max_arity p
  unfolding proposals
  proposal_at-IsProposal ordinal p small e =
      All-get_elem? (IsProposal max_lag max_arity)
        (proposals max_arity delta content multi (max_lag - 1) 2) ordinal p inside
        (sym (proposal_at-proposals ordinal max_lag max_arity delta content multi small) ∙ e)
    where
      rounds_inside : (l : ℕ) → (l ≤ 1) ⊎ (l - 1 + 2 ≤ l + 1)
      rounds_inside l = omega arith

      nothing :
          (l : ℕ)
          → l ≤ 1
          → All (IsProposal max_lag max_arity) (proposals max_arity delta content multi (l - 1) 2)
      nothing l h = let z : l - 1 ≡ 0 = omega arith in rw z tt

      inside :
          All
            (IsProposal max_lag max_arity)
            (proposals max_arity delta content multi (max_lag - 1) 2)
      inside = elim (rounds_inside max_lag) [
        | inl few ↦ nothing max_lag few
        | inr more ↦ proposals-IsProposal (max_lag - 1) 2 (omega arith) more
      ]

-- Proposals are told apart by their keys as long as the largest lag is below 2 ^ 20.
pub proposal_at-key_injective :
    (max_lag max_arity : ℕ) (delta content multi : Bool) (i j : ℕ) (p q : AddressProgram)
    → max_lag < 2 ^ 20
    → proposal_at i max_lag max_arity delta content multi ≡ some p
    → proposal_at j max_lag max_arity delta content multi ≡ some q
    → address_program_key p ≡ address_program_key q
    → p ≡ q
proposal_at-key_injective max_lag max_arity delta content multi i j p q small ep eq same =
    address_program_key_injective p q
      (keyed p (proposal_at-IsProposal max_lag max_arity delta content multi i p (omega arith) ep))
      (keyed q (proposal_at-IsProposal max_lag max_arity delta content multi j q (omega arith) eq))
      same
  where
    keyed : (p : AddressProgram) → IsProposal max_lag max_arity p → IsKeyed p
    keyed p h = elim h.shape [
      | inl (a, l) ↦ record {
        lag0 = h.last;
        lag1 = 0;
        lags = l;
        small0 = omega (arith, h.at_most);
        small1 = omega arith;
        shape = inl (a, refl);
      }
      | inr (inner, m, a, l, p, q) ↦ record {
        lag0 = inner;
        lag1 = h.last;
        lags = l;
        small0 = omega (arith, h.at_most);
        small1 = omega (arith, h.at_most);
        shape = inr a;
      }
    ]
