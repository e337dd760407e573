-- ===== src/Shard/Hash/Agreement.antt =====
-- The two hashes of a dataset: `hash_dataset` before writing, `hash_mapped_dataset` after mapping.
use sparse_branch_machine.Base.{
  ℕ, ◌+◌, ◌<◌, ◌≡◌, refl, arith, List, [], ◌∷◌, All, ok, leb, false, bit_xor,
}
use sparse_branch_machine.Mix.{mix64}
use sparse_branch_machine.Dataset.{TokenDataset, hash_loop, hash_dataset}
use sparse_branch_machine.Shard.Hash.{mapped_tokens_loop, hash_mapped_dataset}

mapped_tokens_loop-hash_loop :
    (vocab index : ℕ) (xs : List ℕ) (hash : ℕ)
    → All (λ x. x < vocab) xs
    → mapped_tokens_loop vocab index xs hash ≡ ok (hash_loop 0x9E3779B97F4A7C15 11 index xs hash)
unfolding mapped_tokens_loop hash_loop
mapped_tokens_loop-hash_loop vocab index [] hash h = refl
mapped_tokens_loop-hash_loop vocab index (x ∷ xs) hash h =
    let inside : leb vocab x ≡ false = ground arith in
    rw inside (mapped_tokens_loop-hash_loop vocab (index + 1) xs _ h.1)

-- For a dataset without an oracle whose tokens belong to its vocabulary, hashing the mapped payload
-- gives the hash that `hash_dataset` gave.
pub hash_mapped_dataset-hash_dataset :
    (d : TokenDataset)
    → All (λ x. x < d.vocab_size) d.tokens
    → d.oracle_nll ≡ []
    → hash_mapped_dataset d.vocab_size d.tokens d.sequence_offsets ≡ ok (hash_dataset d)
unfolding hash_mapped_dataset hash_dataset
hash_mapped_dataset-hash_dataset d known none_stored = rw (
  none_stored,
  mapped_tokens_loop-hash_loop d.vocab_size 0 d.tokens (bit_xor (mix64 d.vocab_size) 0x544F4B454E)
      known,
)
