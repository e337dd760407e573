-- ===== src/Tests/OutputTests.antt =====
-- The theorems on the output tree, at a tree of five tokens.
use sparse_branch_machine.Base.{ℕ, ◌*◌, ◌%◌, ◌<◌, ◌≤◌, ◌≡◌, refl, arith, List, length, All, ok, ◌-◌}
use sparse_branch_machine.Output.Inverse.{gcd, modular_inverse}
use sparse_branch_machine.Output.Inverse.Correct.{modular_inverse_inverts}
use sparse_branch_machine.Output.Tree.{
  ImplicitOutputTree, ImplicitDecision, IsPermutation, new, rank_from_token, token_from_rank,
  target_path, region_prefix,
}
use sparse_branch_machine.Output.Tree.Build.{new-IsPermutation}
use sparse_branch_machine.Output.Tree.Rank.{token_from_rank-rank_from_token}
use sparse_branch_machine.Output.Tree.Path.{Descent, target_path-Descent}
use sparse_branch_machine.Output.Tree.Bounds.{Distinct, target_path_bounds}
use sparse_branch_machine.Output.Tree.Prefix.{bits_of, region_prefix-bits_of}

abbrev five : ImplicitOutputTree
five = record { vocabulary = 5; multiplier = 2; offset = 3; inverse = 3 }

five-IsPermutation : IsPermutation five
five-IsPermutation = record {
  several = omega arith;
  word = omega arith;
  multiplier_lt = omega arith;
  offset_lt = omega arith;
  inverse_lt = omega arith;
  inverts = refl;
}

modular_inverse_inverts_example :
    (i : ℕ) × (modular_inverse 3 10 ≡ ok i) × (i < 10) × ((i * 3) % 10 ≡ 1)
unfolding gcd
modular_inverse_inverts_example = modular_inverse_inverts 3 10 (omega arith) refl

new-IsPermutation_example :
    (t : ImplicitOutputTree) × (new 10 7 ≡ ok t) × (t.vocabulary ≡ 10) × IsPermutation t
new-IsPermutation_example = new-IsPermutation 10 7 (omega arith) (omega arith)

token_from_rank-rank_from_token_example :
    ((rank : ℕ) × (rank_from_token five 4 ≡ ok rank)
      × (rank < five.vocabulary)
      × (token_from_rank five rank ≡ ok 4))
    × ((token : ℕ) × (token_from_rank five 4 ≡ ok token)
        × (token < five.vocabulary)
        × (rank_from_token five token ≡ ok 4))
token_from_rank-rank_from_token_example =
    token_from_rank-rank_from_token five 4 five-IsPermutation (omega arith)

target_path-Descent_example :
    (rank : ℕ) × (path : List ImplicitDecision) × (rank_from_token five 3 ≡ ok rank)
    × (target_path five 3 ≡ ok path)
    × Descent rank 0 five.vocabulary path
target_path-Descent_example = target_path-Descent five 3 five-IsPermutation (omega arith)

target_path_bounds_example :
    (path : List ImplicitDecision) × (target_path five 4 ≡ ok path)
    × (length path ≤ 3)
    × All (λ d. d.id < five.vocabulary - 1) path
    × Distinct path
target_path_bounds_example =
    target_path_bounds five 4 3 five-IsPermutation (omega arith) (omega arith)

region_prefix-bits_of_example :
    (path : List ImplicitDecision) × (target_path five 4 ≡ ok path)
    × (region_prefix five 4 2 ≡ ok (bits_of 2 path))
region_prefix-bits_of_example = region_prefix-bits_of five 4 2 five-IsPermutation (omega arith)
