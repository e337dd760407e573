-- ===== src/Shard/Open.antt =====
-- modules/token_shard.cpp: the constructor of `MappedTokenShard`.
pub mod RoundTrip
use sparse_branch_machine.Base.{
  ℕ, suc, ◌+◌, ◌-◌, ◌*◌, ◌/◌, ◌%◌, ◌^◌, Bool, ◌||◌, not, ltb, leb, ◌==◌, Option, none, some, List,
  length, Result, ok, throw, ◌>>=◌, ◌>>◌, throw_if, runtime_error, if◌then◌else◌,
}
use sparse_branch_machine.Shard.Bytes.{get_u32, get_u64}
use sparse_branch_machine.Shard.Hash.{hash_mapped_dataset}
use sparse_branch_machine.Shard.Layout.{
  MappedTokenShard, magic, version, header_size, endian_marker, shard_alignment, u64_max, align_up,
  has_prefix, offset_at, has_empty_mapped, mapped_tokens, mapped_offsets,
}

-- The tests on the magic, the version, the header's size and the endian marker.
unfoldable pub has_bad_header : List ℕ → Bool
has_bad_header bytes =
    ltb (length bytes) header_size
    || not (has_prefix magic bytes)
    || not (get_u32 bytes 8 == version)
    || not (get_u32 bytes 12 == header_size)
    || not (get_u32 bytes 16 == endian_marker)

-- The fields and the pointers that the header gives.
unfoldable pub read_header : List ℕ → ℕ → MappedTokenShard
read_header bytes shard_index = record {
  bytes = bytes;
  shard_index = shard_index;
  vocab_size = get_u32 bytes 20;
  token_count = get_u64 bytes 24;
  sequence_count = get_u64 bytes 32;
  dataset_hash = get_u64 bytes 56;
  offsets = get_u64 bytes 40;
  tokens = get_u64 bytes 48;
}

-- The tests on the sizes, once none of them overflows.
unfoldable pub has_bad_layout : MappedTokenShard → ℕ → ℕ → ℕ → Bool
has_bad_layout s declared_size expected_tokens_offset expected_size =
    let size = length s.bytes in
    s.vocab_size == 0
    || s.sequence_count == 0
    || s.token_count == 0
    || not (declared_size == size)
    || not (s.offsets == header_size)
    || not (s.tokens == expected_tokens_offset)
    || not (declared_size == expected_size)
    || ltb ((size - s.offsets) / 8) (s.sequence_count + 1)
    || ltb size s.tokens
    || ltb ((size - s.tokens) / 4) s.token_count

-- The tests on the offsets of the sequences.
unfoldable pub check_offsets : MappedTokenShard → Result (Unit {0})
check_offsets s = do
  throw_if (not (offset_at s 0 == 0) || not (offset_at s s.sequence_count == s.token_count))
      runtime_error
  throw_if (has_empty_mapped s.sequence_count 1 s) runtime_error

unfoldable pub check_payload : MappedTokenShard → Bool → Result (Unit {0})
check_payload s verify_payload =
    let verified : Result (Unit {0}) = do
      hash ← hash_mapped_dataset s.vocab_size (mapped_tokens s) (mapped_offsets s)
      throw_if (not (hash == s.dataset_hash)) runtime_error
    in if verify_payload then verified else ok tt

-- `view` is none where `open`, `fstat` or `mmap` fails or the file is empty.
unfoldable pub open_shard : Option (List ℕ) → ℕ → Bool → Result MappedTokenShard
open_shard none shard_index verify_payload = throw runtime_error
open_shard (some bytes) shard_index verify_payload = do
  throw_if (has_bad_header bytes) runtime_error
  let s = read_header bytes shard_index
  throw_if (s.sequence_count == u64_max) runtime_error
  let offset_count = s.sequence_count + 1
  throw_if (ltb ((u64_max - header_size) / 8) offset_count || ltb (u64_max / 4) s.token_count)
      runtime_error
  expected_tokens_offset ← align_up (header_size + offset_count * 8) shard_alignment
  let token_bytes = s.token_count * 4
  throw_if (ltb (u64_max - expected_tokens_offset) token_bytes) runtime_error
  throw_if
      (has_bad_layout s (get_u64 bytes 64) expected_tokens_offset
        (expected_tokens_offset + token_bytes))
      runtime_error
  check_offsets s
  check_payload s verify_payload
  ok s
