-- ===== src/Tests/ShardTests.antt =====
-- The theorems on datasets and shards, at two sequences of five tokens.
use sparse_branch_machine.Base.{
  ℕ, zero, suc, ◌≡◌, ◌≢◌, ◌↔◌, inl, refl, arith, true, Option, some, List, [], ◌∷◌, length, ok,
  throw, invalid_argument,
}
use sparse_branch_machine.Dataset.{TokenDataset, validate_token_dataset}
use sparse_branch_machine.Dataset.Valid.{IsValid, validate_token_dataset_iff}
use sparse_branch_machine.Shard.Bytes.{get_loop}
use sparse_branch_machine.Shard.Layout.{
  MappedTokenShard, write_token_shard, mapped_tokens, mapped_offsets, offset_at,
}
use sparse_branch_machine.Shard.Layout.Written.{ready}
use sparse_branch_machine.Shard.Open.{open_shard}
use sparse_branch_machine.Shard.Open.RoundTrip.{open_shard-write_token_shard}
use sparse_branch_machine.Shard.Cursor.{TokenShardCursor, TokenExample, next, drain}
use sparse_branch_machine.Shard.Cursor.Order.{
  HasSequences, IsPosition, Yields, remaining, sequences_from, examples_from, next-Yields,
  drain-remaining,
}

abbrev five_tokens : List ℕ
five_tokens = 1 ∷ 2 ∷ 3 ∷ 4 ∷ 5 ∷ []

abbrev two_offsets : List ℕ
two_offsets = 0 ∷ 2 ∷ 5 ∷ []

abbrev two_sequences : TokenDataset
two_sequences = record {
  vocab_size = 10;
  tokens = five_tokens;
  sequence_offsets = two_offsets;
  oracle_nll = [];
}

two_sequences-IsValid : IsValid two_sequences
two_sequences-IsValid = record {
  vocabulary = omega arith;
  several = omega arith;
  first = refl;
  last = refl;
  rising = (omega arith, (omega arith, tt));
  known = (omega arith, (omega arith, (omega arith, (omega arith, (omega arith, tt)))));
  oracle = inl refl;
}

open_shard-write_token_shard_example :
    (bytes : List ℕ) × (s : MappedTokenShard) × (write_token_shard ready two_sequences ≡ ok bytes)
    × (open_shard (some bytes) 3 true ≡ ok s)
    × (s.shard_index ≡ 3)
    × (s.vocab_size ≡ two_sequences.vocab_size)
    × (mapped_tokens s ≡ two_sequences.tokens)
    × (mapped_offsets s ≡ two_sequences.sequence_offsets)
open_shard-write_token_shard_example = open_shard-write_token_shard two_sequences 3 true (record {
  valid = two_sequences-IsValid;
  no_oracle = refl;
  vocab_word = omega arith;
  bounded = omega arith;
})

validate_token_dataset_iff_example :
    ((validate_token_dataset two_sequences ≡ ok tt) ↔ IsValid two_sequences)
    × (validate_token_dataset two_sequences ≢ ok tt
        → validate_token_dataset two_sequences ≡ throw invalid_argument)
validate_token_dataset_iff_example = validate_token_dataset_iff two_sequences

-- The offsets 0, 2 and 5 in eight bytes each, and the tokens 1 to 5 in four bytes each.
abbrev small_shard : MappedTokenShard
small_shard = record {
  bytes =
      0 ∷ 0 ∷ 0 ∷ 0 ∷ 0 ∷ 0 ∷ 0 ∷ 0 ∷ 2 ∷ 0 ∷ 0 ∷ 0 ∷ 0 ∷ 0 ∷ 0 ∷ 0 ∷ 5 ∷ 0 ∷ 0 ∷ 0 ∷ 0 ∷ 0 ∷ 0 ∷ 0
      ∷ 1 ∷ 0 ∷ 0 ∷ 0 ∷ 2 ∷ 0 ∷ 0 ∷ 0 ∷ 3 ∷ 0 ∷ 0 ∷ 0 ∷ 4 ∷ 0 ∷ 0 ∷ 0 ∷ 5 ∷ 0 ∷ 0 ∷ 0 ∷ [];
  shard_index = 3;
  vocab_size = 10;
  token_count = 5;
  sequence_count = 2;
  dataset_hash = 0;
  offsets = 0;
  tokens = 24;
}

small_offsets :
    (offset_at small_shard 0 ≡ 0) × (offset_at small_shard 1 ≡ 2) × (offset_at small_shard 2 ≡ 5)
unfolding offset_at get_loop
small_offsets = (refl, refl, refl)

small-HasSequences : HasSequences small_shard
small-HasSequences zero h = omega (arith, small_offsets)
small-HasSequences (suc zero) h = omega (arith, small_offsets)
small-HasSequences (suc (suc i)) h = absurd (omega arith)

abbrev start : TokenShardCursor
start = record { shard_index = 3; sequence_index = 0; token_offset = 0 }

start-IsPosition : IsPosition small_shard start
start-IsPosition = record {
  same_shard = refl;
  in_shard = omega arith;
  end_offset = λ e. refl;
  in_sequence = λ h. omega (arith, small_offsets);
}

next-Yields_example :
    (IsPosition small_shard start
      → (r : TokenShardCursor × Option TokenExample) × (next small_shard start ≡ ok r)
        × Yields small_shard start r)
    × (¬ IsPosition small_shard start → next small_shard start ≡ throw invalid_argument)
next-Yields_example = next-Yields small_shard small-HasSequences start

three_remain : length (remaining small_shard start) ≡ 3
unfolding sequences_from examples_from offset_at get_loop
three_remain = refl

drain-remaining_example : drain 4 small_shard start ≡ ok (remaining small_shard start)
drain-remaining_example =
    drain-remaining small_shard small-HasSequences 4 start start-IsPosition
      (omega (arith, three_remain))
