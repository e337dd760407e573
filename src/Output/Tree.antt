-- ===== src/Output/Tree.antt =====
-- modules/implicit_output.cpp and detail/implicit_output.hpp: the class `ImplicitOutputTree`.
-- A vocabulary is a `uint32_t`; the 64-bit products and sums keep their wrap-around.
pub mod Build
pub mod Rank
pub mod Path
pub mod Bounds
pub mod Prefix
use sparse_branch_machine.Base.{
  ℕ, zero, suc, ◌+◌, ◌-◌, ◌*◌, ◌/◌, ◌%◌, ◌^◌, ◌≤◌, ◌<◌, ◌≡◌, Bool, ◌||◌, ltb, leb, ◌==◌,
  if◌then◌else◌, bit_or, bit_xor, Result, ok, throw, diverge, ◌>>=◌, ◌>>◌, throw_if,
  invalid_argument, out_of_range, List, [], ◌∷◌,
}
use sparse_branch_machine.Mix.{mix64}
use sparse_branch_machine.Output.Inverse.{gcd, modular_inverse}

pub record ImplicitDecision : Type 0 where
  pub id : ℕ
  pub right : Bool

pub record ImplicitSplit : Type 0 where
  pub middle : ℕ
  pub decision_id : ℕ

pub record ImplicitOutputTree : Type 0 where
  pub vocabulary : ℕ
  pub multiplier : ℕ
  pub offset : ℕ
  pub inverse : ℕ

-- `++multiplier_; if (multiplier_ == vocabulary_) multiplier_ = 1;`
unfoldable pub next_multiplier : ℕ → ℕ → ℕ
next_multiplier v m = if m + 1 == v then 1 else m + 1

-- `while (std::gcd(multiplier_, vocabulary_) != 1U)`
unfoldable pub coprime_loop : ℕ → ℕ → ℕ → Result ℕ
coprime_loop zero v m = diverge
coprime_loop (suc fuel) v m =
    let rest = coprime_loop fuel v (next_multiplier v m) in if gcd m v == 1 then ok m else rest

-- The constructor. The search meets 1 after at most `vocabulary` steps, so the fuel is enough.
unfoldable pub new : ℕ → ℕ → Result ImplicitOutputTree
unfolding coprime_loop next_multiplier
new vocabulary seed = do
  throw_if (ltb vocabulary 2) invalid_argument
  let first = mix64 (bit_xor seed 0xA0761D6478BD642F) % vocabulary
  multiplier ← coprime_loop vocabulary vocabulary (if first == 0 then 1 else first)
  inverse ← modular_inverse multiplier vocabulary
  ok (record {
    vocabulary = vocabulary;
    multiplier = multiplier;
    offset = mix64 (bit_xor seed 0xE7037ED1A0B428DB) % vocabulary;
    inverse = inverse;
  })

unfoldable pub rank_from_token : ImplicitOutputTree → ℕ → Result ℕ
rank_from_token t token = do
  throw_if (leb t.vocabulary token) out_of_range
  ok (((t.multiplier * token + t.offset) % 2 ^ 64) % t.vocabulary)

unfoldable pub token_from_rank : ImplicitOutputTree → ℕ → Result ℕ
token_from_rank t rank = do
  throw_if (leb t.vocabulary rank) out_of_range
  let shifted = ((rank + t.vocabulary + 2 ^ 64 - t.offset) % 2 ^ 64) % t.vocabulary
  ok (((t.inverse * shifted) % 2 ^ 64) % t.vocabulary)

unfoldable pub split : ImplicitOutputTree → ℕ → ℕ → Result ImplicitSplit
split t lo hi = do
  throw_if (leb hi lo || ltb t.vocabulary hi || ltb (hi - lo) 2) out_of_range
  let middle = lo + (hi - lo) / 2
  ok (record { middle = middle; decision_id = middle - 1 })

-- The loop of `target_path`, with the decisions in the order in which they are pushed.
unfoldable pub target_path_loop :
    ℕ → ImplicitOutputTree → ℕ → ℕ → ℕ → Result (List ImplicitDecision)
target_path_loop zero t rank lo hi = diverge
target_path_loop (suc fuel) t rank lo hi =
    let descend : Result (List ImplicitDecision) = do
      branch ← split t lo hi
      let right = leb branch.middle rank
      rest ←
          target_path_loop fuel t rank (if right then branch.middle else lo)
            (if right then hi else branch.middle)
      ok (record { id = branch.decision_id; right = right } ∷ rest)
    in if ltb 1 (hi - lo) then descend else ok []

-- The interval shrinks in each round, so this fuel is enough.
unfoldable pub target_path : ImplicitOutputTree → ℕ → Result (List ImplicitDecision)
unfolding target_path_loop split rank_from_token
target_path t token = do
  rank ← rank_from_token t token
  target_path_loop (suc t.vocabulary) t rank 0 t.vocabulary

-- The loop of `region_prefix`: `rounds` is `depth - i`.
unfoldable pub region_prefix_loop : ℕ → ImplicitOutputTree → ℕ → ℕ → ℕ → ℕ → ℕ → Result ℕ
region_prefix_loop zero t rank i prefix lo hi = ok prefix
region_prefix_loop (suc rounds) t rank i prefix lo hi =
    let descend : Result ℕ = do
      branch ← split t lo hi
      let right = leb branch.middle rank
      region_prefix_loop rounds t rank (i + 1) (if right then bit_or prefix (2 ^ i) else prefix)
          (if right then branch.middle else lo) (if right then hi else branch.middle)
    in if ltb 1 (hi - lo) then descend else ok prefix

unfoldable pub region_prefix : ImplicitOutputTree → ℕ → ℕ → Result ℕ
unfolding region_prefix_loop split rank_from_token
region_prefix t token depth = do
  rank ← rank_from_token t token
  region_prefix_loop depth t rank 0 0 0 t.vocabulary

-- The permutation of the ranks: what the constructor establishes and the methods rely on.
pub record IsPermutation (t : ImplicitOutputTree) : Type 0 where
  pub several : 2 ≤ t.vocabulary
  pub word : t.vocabulary < 2 ^ 32
  pub multiplier_lt : t.multiplier < t.vocabulary
  pub offset_lt : t.offset < t.vocabulary
  pub inverse_lt : t.inverse < t.vocabulary
  pub inverts : (t.inverse * t.multiplier) % t.vocabulary ≡ 1
