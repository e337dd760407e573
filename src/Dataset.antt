-- ===== src/Dataset.antt =====
-- modules/dataset.cpp and dataset.hpp: token datasets, their validation and their hash. The
-- generators and the stream files of these modules are not modelled.
pub mod Valid
use sparse_branch_machine.Base.{
  ℕ, zero, suc, ◌+◌, ◌-◌, ◌*◌, ◌%◌, ◌^◌, Bool, true, false, ◌||◌, ◌&&◌, not, ltb, leb, ◌==◌,
  if◌then◌else◌, List, [], ◌∷◌, length, get_or, bit_xor, Result, ok, ◌>>=◌, ◌>>◌, throw_if,
  invalid_argument,
}
use sparse_branch_machine.Mix.{mix64, rotl}

-- `oracle_nll` holds the bit patterns of its floats, which are all that the hash reads.
pub record TokenDataset : Type 0 where
  pub vocab_size : ℕ
  pub tokens : List ℕ
  pub sequence_offsets : List ℕ
  pub oracle_nll : List ℕ

-- `sequence_offsets.front()` and `.back()`, after a test that there are two or more.
unfoldable pub front : List ℕ → ℕ
front offsets = get_or offsets 0 0

unfoldable pub back : List ℕ → ℕ
back offsets = get_or offsets (length offsets - 1) 0

-- The loop that compares each offset with the one before it.
unfoldable pub has_empty_sequence : List ℕ → Bool
has_empty_sequence [] = false
has_empty_sequence (a ∷ []) = false
has_empty_sequence (a ∷ b ∷ rest) = leb b a || has_empty_sequence (b ∷ rest)

-- The loop that compares each token with the vocabulary.
unfoldable pub has_foreign_token : ℕ → List ℕ → Bool
has_foreign_token vocab [] = false
has_foreign_token vocab (x ∷ xs) = leb vocab x || has_foreign_token vocab xs

unfoldable pub is_empty : List ℕ → Bool
is_empty xs = length xs == 0

unfoldable pub validate_token_dataset : TokenDataset → Result (Unit {0})
unfolding front back is_empty
validate_token_dataset d = do
  throw_if (d.vocab_size == 0) invalid_argument
  throw_if
      (ltb (length d.sequence_offsets) 2
        || not (front d.sequence_offsets == 0)
        || not (back d.sequence_offsets == length d.tokens))
      invalid_argument
  throw_if (has_empty_sequence d.sequence_offsets) invalid_argument
  throw_if (has_foreign_token d.vocab_size d.tokens) invalid_argument
  throw_if (not (is_empty d.oracle_nll) && not (length d.oracle_nll == length d.tokens))
      invalid_argument

unfoldable pub make_token_dataset : List ℕ → ℕ → List ℕ → Result TokenDataset
unfolding validate_token_dataset is_empty
make_token_dataset tokens vocab_size sequence_offsets = do
  let offsets = if is_empty sequence_offsets then 0 ∷ length tokens ∷ [] else sequence_offsets
  let dataset : TokenDataset = record {
    vocab_size = vocab_size;
    tokens = tokens;
    sequence_offsets = offsets;
    oracle_nll = [];
  }
  validate_token_dataset dataset
  ok dataset

-- `sequence_count` and `example_count`.
unfoldable pub sequence_count : TokenDataset → ℕ
unfolding is_empty
sequence_count d = if is_empty d.sequence_offsets then 0 else length d.sequence_offsets - 1

unfoldable pub example_count : TokenDataset → ℕ
unfolding sequence_count
example_count d =
    if leb (sequence_count d) (length d.tokens) then length d.tokens - sequence_count d else 0

-- One loop of the hash: `hash ^= mix64(value + index * step); hash = rotl(hash, turn)`.
unfoldable pub hash_loop : ℕ → ℕ → ℕ → List ℕ → ℕ → ℕ
hash_loop step turn index [] hash = hash
hash_loop step turn index (x ∷ xs) hash =
    hash_loop step turn (index + 1) xs
      (rotl (bit_xor hash (mix64 ((x + index * step) % 2 ^ 64))) turn)

unfoldable pub hash_dataset : TokenDataset → ℕ
unfolding hash_loop
hash_dataset d =
    let start = bit_xor (mix64 d.vocab_size) 0x544F4B454E in
    let tokens_hash = hash_loop 0x9E3779B97F4A7C15 11 0 d.tokens start in
    let offsets_hash = hash_loop 0xC2B2AE3D27D4EB4F 5 0 d.sequence_offsets tokens_hash in
    mix64 (hash_loop 0x165667B1 13 0 d.oracle_nll offsets_hash)

-- `targets` holds the bit patterns of its floats.
pub record VectorDataset : Type 0 where
  pub token_alphabet : ℕ
  pub vector_dim : ℕ
  pub vector_tokens : List ℕ
  pub targets : List ℕ

-- `hash_dataset` of a vector dataset.
unfoldable pub hash_vector_dataset : VectorDataset → ℕ
unfolding hash_loop
hash_vector_dataset d =
    let start = bit_xor (mix64 d.token_alphabet) (rotl (mix64 d.vector_dim) 13) in
    mix64 (hash_loop 0x85EB 9 0 d.targets (hash_loop 0x9E37 7 0 d.vector_tokens start))
