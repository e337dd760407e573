-- ===== src/Shard/Layout.antt =====
-- modules/token_shard.cpp: `align_up`, `write_token_shard` and the constructor of
-- `MappedTokenShard`.
pub mod Align
pub mod Header
pub mod Payload
pub mod Written
use sparse_branch_machine.Base.{
  ℕ, zero, suc, ◌+◌, ◌-◌, ◌*◌, ◌/◌, ◌%◌, ◌^◌, ◌≤◌, ◌<◌, ◌≡◌, Bool, true, false, ◌||◌, ◌&&◌, not,
  bit_and, if◌then◌else◌, ltb, leb, ◌==◌, List, [], ◌∷◌, ◌++◌, length, replicate, get_or, Result,
  ok, throw, diverge, ◌>>=◌, ◌>>◌, throw_if, invalid_argument, runtime_error, overflow_error,
}
use sparse_branch_machine.Dataset.{
  TokenDataset, front, back, has_empty_sequence, has_foreign_token, is_empty, hash_dataset,
}
use sparse_branch_machine.Shard.Bytes.{
  put_u32, put_u64, get_u32, get_u64, write_little_endian, write_zeros,
}
use sparse_branch_machine.Shard.Hash.{hash_mapped_dataset}

-- `kMagic`, `kVersion`, `kHeaderSize`, `kEndianMarker` and `kAlignment`.
abbrev pub magic : List ℕ
magic = b'S' ∷ b'B' ∷ b'M' ∷ b'S' ∷ b'H' ∷ b'R' ∷ b'0' ∷ b'1' ∷ []

abbrev pub version : ℕ
version = 1

abbrev pub header_size : ℕ
header_size = 128

abbrev pub endian_marker : ℕ
endian_marker = 0x01020304

abbrev pub shard_alignment : ℕ
shard_alignment = 64

abbrev pub u64_max : ℕ
u64_max = 2 ^ 64 - 1

-- `~(alignment - 1)` is `u64_max - (alignment - 1)`.
unfoldable pub align_up : ℕ → ℕ → Result ℕ
align_up value alignment = do
  throw_if (ltb (u64_max - (alignment - 1)) value) overflow_error
  ok (bit_and ((value + alignment - 1) % 2 ^ 64) (u64_max - (alignment - 1)))

unfoldable pub validate_for_write : TokenDataset → Result (Unit {0})
unfolding front back is_empty
validate_for_write d = do
  throw_if
      (d.vocab_size == 0
        || ltb (length d.sequence_offsets) 2
        || not (front d.sequence_offsets == 0)
        || not (back d.sequence_offsets == length d.tokens))
      invalid_argument
  throw_if (has_empty_sequence d.sequence_offsets) invalid_argument
  throw_if (has_foreign_token d.vocab_size d.tokens) invalid_argument
  throw_if (not (is_empty d.oracle_nll)) invalid_argument

-- The outcomes of the calls on the file system, in the order of the calls.
pub record FileSystem : Type 0 where
  pub exists : Bool
  pub opens : Bool
  pub writes : Bool
  pub renames : Bool

-- `std::copy(kMagic.begin(), kMagic.end(), header.begin())` on a header of zeros.
abbrev pub blank_header : List ℕ
blank_header = magic ++ replicate 120 0

unfoldable pub make_header : TokenDataset → ℕ → ℕ → ℕ → ℕ → List ℕ
make_header d offset_count token_count tokens_offset file_size =
    let h1 = put_u32 blank_header 8 version in
    let h2 = put_u32 h1 12 header_size in
    let h3 = put_u32 h2 16 endian_marker in
    let h4 = put_u32 h3 20 d.vocab_size in
    let h5 = put_u64 h4 24 token_count in
    let h6 = put_u64 h5 32 ((offset_count + 2 ^ 64 - 1) % 2 ^ 64) in
    let h7 = put_u64 h6 40 header_size in
    let h8 = put_u64 h7 48 tokens_offset in
    let h9 = put_u64 h8 56 (hash_dataset d) in put_u64 h9 64 file_size

-- The bytes of the file that is committed under the path. A failed commit throws.
unfoldable pub write_token_shard : FileSystem → TokenDataset → Result (List ℕ)
write_token_shard fs d = do
  validate_for_write d
  let offset_count = length d.sequence_offsets
  let token_count = length d.tokens
  let offsets_bytes = (offset_count * 8) % 2 ^ 64
  let tokens_bytes = (token_count * 4) % 2 ^ 64
  tokens_offset ← align_up ((header_size + offsets_bytes) % 2 ^ 64) shard_alignment
  throw_if (ltb (u64_max - tokens_offset) tokens_bytes) overflow_error
  let file_size = (tokens_offset + tokens_bytes) % 2 ^ 64
  throw_if fs.exists runtime_error
  throw_if (not fs.opens) runtime_error
  with_offsets ←
      write_little_endian 8 d.sequence_offsets
        (make_header d offset_count token_count tokens_offset file_size)
  padded ← write_zeros (tokens_offset - header_size - offsets_bytes) with_offsets
  bytes ← write_little_endian 4 d.tokens padded
  throw_if (not fs.writes) runtime_error
  throw_if (not fs.renames) runtime_error
  ok bytes

-- `MappedTokenShard::Impl`: the mapped bytes, the fields of the header and the two pointers as
-- positions in the bytes.
pub record MappedTokenShard : Type 0 where
  pub bytes : List ℕ
  pub shard_index : ℕ
  pub vocab_size : ℕ
  pub token_count : ℕ
  pub sequence_count : ℕ
  pub dataset_hash : ℕ
  pub offsets : ℕ
  pub tokens : ℕ

-- `impl_->offsets[index]` and `impl_->tokens[index]`, on a little-endian host.
unfoldable pub offset_at : MappedTokenShard → ℕ → ℕ
offset_at s index = get_u64 s.bytes (s.offsets + 8 * index)

unfoldable pub token_at : MappedTokenShard → ℕ → ℕ
token_at s index = get_u32 s.bytes (s.tokens + 4 * index)

-- `std::equal(kMagic.begin(), kMagic.end(), impl_->data)`
unfoldable pub has_prefix : List ℕ → List ℕ → Bool
has_prefix [] bytes = true
has_prefix (m ∷ ms) [] = false
has_prefix (m ∷ ms) (b ∷ bytes) = m == b && has_prefix ms bytes

-- The loop over the sequences: `rounds` of them are left, from `index` on.
unfoldable pub has_empty_mapped : ℕ → ℕ → MappedTokenShard → Bool
has_empty_mapped zero index s = false
has_empty_mapped (suc rounds) index s =
    leb (offset_at s index) (offset_at s (index - 1)) || has_empty_mapped rounds (index + 1) s

-- The first `count` values of a mapped array.
unfoldable pub values_from : (ℕ → ℕ) → ℕ → ℕ → List ℕ
values_from at index zero = []
values_from at index (suc count) = at index ∷ values_from at (index + 1) count

abbrev pub mapped_tokens : MappedTokenShard → List ℕ
mapped_tokens s = values_from (token_at s) 0 s.token_count

abbrev pub mapped_offsets : MappedTokenShard → List ℕ
mapped_offsets s = values_from (offset_at s) 0 (s.sequence_count + 1)
