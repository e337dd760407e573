-- ===== src/Shard/Hash.antt =====
-- modules/token_shard.cpp, `hash_mapped_dataset`: the hash of a mapped payload.
pub mod Agreement
use sparse_branch_machine.Base.{
  ℕ, zero, suc, ◌+◌, ◌*◌, ◌%◌, ◌^◌, leb, if◌then◌else◌, bit_xor, List, [], ◌∷◌, Result, ok, throw,
  ◌>>=◌, runtime_error,
}
use sparse_branch_machine.Mix.{mix64, rotl}
use sparse_branch_machine.Dataset.{hash_loop}

-- The loop over the tokens, which refuses one outside the vocabulary.
unfoldable pub mapped_tokens_loop : ℕ → ℕ → List ℕ → ℕ → Result ℕ
mapped_tokens_loop vocab index [] hash = ok hash
mapped_tokens_loop vocab index (x ∷ xs) hash =
    let rest =
      mapped_tokens_loop vocab (index + 1) xs
        (rotl (bit_xor hash (mix64 ((x + index * 0x9E3779B97F4A7C15) % 2 ^ 64))) 11) in
    if leb vocab x then throw runtime_error else rest

-- The loop over the offsets is written as in `hash_dataset`.
unfoldable pub hash_mapped_dataset : ℕ → List ℕ → List ℕ → Result ℕ
unfolding mapped_tokens_loop
hash_mapped_dataset vocab tokens offsets = do
  hash ← mapped_tokens_loop vocab 0 tokens (bit_xor (mix64 vocab) 0x544F4B454E)
  ok (mix64 (hash_loop 0xC2B2AE3D27D4EB4F 5 0 offsets hash))
