-- ===== src/Shard/Open/RoundTrip.antt =====
-- What `write_token_shard` commits, the constructor of `MappedTokenShard` opens.
use mathlib.Core.List.{append_assoc, append-nil}
use sparse_branch_machine.Base.{
  ℕ, ◌+◌, ◌-◌, ◌*◌, ◌/◌, ◌^◌, ◌≤◌, ◌<◌, ◌≡◌, refl, sym, ap, ◌∙◌, arith, List, [], ◌++◌, length,
  get_or, Bool, true, false, ltb, ◌==◌, ok, some, length-append, length-replicate,
}
use sparse_branch_machine.Dataset.{TokenDataset, hash_dataset}
use sparse_branch_machine.Shard.Bytes.{buffer_of, get_loop}
use sparse_branch_machine.Shard.Bytes.Codec.{length-buffer_of}
use sparse_branch_machine.Shard.Hash.Agreement.{hash_mapped_dataset-hash_dataset}
use sparse_branch_machine.Shard.Layout.{
  MappedTokenShard, header_size, u64_max, write_token_shard, offset_at, token_at, mapped_tokens,
  mapped_offsets, values_from,
}
use sparse_branch_machine.Shard.Layout.Align.{align_up-rounded}
use sparse_branch_machine.Shard.Layout.Header.{HasHeader, make_header-HasHeader, length-make_header}
use sparse_branch_machine.Shard.Layout.Payload.{
  All-get_or, get_loop-buffer_of, values_from-list, has_empty_mapped-Rising,
}
use sparse_branch_machine.Shard.Layout.Written.{
  IsWritable, ready, offs, tokens_at, size, header, padding, file, few_offsets,
  write_token_shard-file, hash_dataset-lt, Rising-le-back,
}
use sparse_branch_machine.Shard.Open.{
  has_bad_header, read_header, has_bad_layout, check_offsets, check_payload, open_shard,
}

module _ (d : TokenDataset) (v : IsWritable d) (shard_index : ℕ) where
  abbrev bytes : List ℕ
  bytes = file d v

  bounds : (length (offs d v) ≤ length d.tokens + 1) × (length d.tokens < 2 ^ 60)
  bounds = (few_offsets d v, v.bounded)

  length-file : length bytes ≡ size d v
  length-file =
      let (few, b) = bounds in
      omega (
        arith,
        length-append ((header d v ++ buffer_of 8 (offs d v)) ++ padding d v)
            (buffer_of 4 d.tokens),
        length-append (header d v ++ buffer_of 8 (offs d v)) (padding d v),
        length-append (header d v) (buffer_of 8 (offs d v)),
        length-make_header d (length (offs d v)) (length d.tokens) (tokens_at d v) (size d v),
        length-buffer_of 8 (offs d v),
        length-buffer_of 4 d.tokens,
        length-replicate (tokens_at d v - 128 - length (offs d v) * 8) (let z : ℕ = 0 in z),
      )

  grouped : bytes ≡ header d v ++ (buffer_of 8 (offs d v) ++ (padding d v ++ buffer_of 4 d.tokens))
  grouped =
      append_assoc (header d v ++ buffer_of 8 (offs d v)) (padding d v) (buffer_of 4 d.tokens)
      ∙ append_assoc (header d v) (buffer_of 8 (offs d v)) _

  has_header : HasHeader d (length (offs d v)) (length d.tokens) (tokens_at d v) (size d v) bytes
  has_header =
      let (few, b) = bounds in
      let w = v.valid in
      rw grouped (
        make_header-HasHeader d (length (offs d v)) (length d.tokens) (tokens_at d v) (size d v) _
          v.vocab_word (omega (arith, w.several)) (omega arith) (omega arith) (omega arith)
          (omega arith) (hash_dataset-lt d))

  -- What the header says.
  abbrev opened : MappedTokenShard
  opened = record {
    bytes = bytes;
    shard_index = shard_index;
    vocab_size = d.vocab_size;
    token_count = length d.tokens;
    sequence_count = length (offs d v) - 1;
    dataset_hash = hash_dataset d;
    offsets = 128;
    tokens = tokens_at d v;
  }

  read_header-opened : read_header bytes shard_index ≡ opened
  unfolding read_header
  read_header-opened =
      let h = has_header in
      rw (
        h.vocab_there, h.token_count_there, h.sequence_count_there, h.offsets_there, h.tokens_there,
        h.hash_there,
      )

  good_header : has_bad_header bytes ≡ false
  unfolding has_bad_header
  good_header =
      let h = has_header in
      let long : ltb (length bytes) header_size ≡ false = ground (arith, length-file) in
      rw (long, h.magic_there, h.version_there, h.header_size_there, h.endian_there)

  last_offset : get_or (offs d v) (length (offs d v) - 1) 0 ≡ length d.tokens
  last_offset = let w = v.valid in w.last

  small_offset : (i : ℕ) → i < length (offs d v) → get_or (offs d v) i 0 < 2 ^ 64
  small_offset i h =
      let w = v.valid in
      let (few, b) = bounds in omega (arith, Rising-le-back (offs d v) i w.rising h, last_offset)

  offset_at-opened : (i : ℕ) → i < length (offs d v) → offset_at opened i ≡ get_or (offs d v) i 0
  unfolding offset_at
  offset_at-opened i h = rw grouped (
      get_loop-buffer_of 8 (header d v) (offs d v) _ i (128 + 8 * i)
        (omega (
          arith,
          length-make_header d (length (offs d v)) (length d.tokens) (tokens_at d v) (size d v),
        ))
        h (small_offset i h))

  token_at-opened : (i : ℕ) → i < length d.tokens → token_at opened i ≡ get_or d.tokens i 0
  unfolding token_at
  token_at-opened i h =
      let w = v.valid in
      let pre = (header d v ++ buffer_of 8 (offs d v)) ++ padding d v in
      let ended : bytes ≡ pre ++ (buffer_of 4 d.tokens ++ []) =
        ap (◌++◌ pre) (sym (append-nil _)) in
      let here : length pre ≡ tokens_at d v = omega (
        arith,
        length-append (header d v ++ buffer_of 8 (offs d v)) (padding d v),
        length-append (header d v) (buffer_of 8 (offs d v)),
        length-make_header d (length (offs d v)) (length d.tokens) (tokens_at d v) (size d v),
        length-buffer_of 8 (offs d v),
        length-replicate (tokens_at d v - 128 - length (offs d v) * 8) (let z : ℕ = 0 in z),
      ) in
      ap (λ (t : List ℕ). get_loop 4 0 t (tokens_at d v + 4 * i) 0) ended
      ∙ get_loop-buffer_of 4 pre d.tokens [] i (tokens_at d v + 4 * i) (omega (arith, here)) h
          (omega (arith, All-get_or d.vocab_size d.tokens i w.known h, v.vocab_word))

  mapped_tokens-opened : mapped_tokens opened ≡ d.tokens
  mapped_tokens-opened =
      values_from-list (token_at opened) d.tokens 0
        (λ i h. ap (token_at opened) (omega arith) ∙ token_at-opened i h)

  whole_count : length (offs d v) - 1 + 1 ≡ length (offs d v)
  whole_count = let w = v.valid in omega (arith, w.several)

  mapped_offsets-opened : mapped_offsets opened ≡ offs d v
  mapped_offsets-opened =
      ap (values_from (offset_at opened) 0) whole_count
      ∙ values_from-list (offset_at opened) (offs d v) 0
          (λ i h. ap (offset_at opened) (omega arith) ∙ offset_at-opened i h)

  good_layout : has_bad_layout opened (size d v) (tokens_at d v) (size d v) ≡ false
  unfolding has_bad_layout
  good_layout =
      let w = v.valid in
      let (few, b) = bounds in ground (arith, length-file, w.vocabulary, w.several, few, b, w.last)

  check_offsets-opened : check_offsets opened ≡ ok tt
  unfolding check_offsets
  check_offsets-opened =
      let w = v.valid in
      let first : offset_at opened 0 ≡ 0 =
        offset_at-opened 0 (omega (arith, w.several)) ∙ w.first in
      let last : offset_at opened (length (offs d v) - 1) ≡ length d.tokens =
        offset_at-opened (length (offs d v) - 1) (omega (arith, w.several)) ∙ w.last in
      rw
        (first, last, has_empty_mapped-Rising opened (offs d v) w.rising w.several offset_at-opened)
        (ground arith)

  check_payload-opened : (verify : Bool) → check_payload opened verify ≡ ok tt
  unfolding check_payload
  check_payload-opened false = refl
  check_payload-opened true =
      let w = v.valid in
      rw
        (
          mapped_tokens-opened,
          mapped_offsets-opened,
          hash_mapped_dataset-hash_dataset d w.known v.no_oracle,
        )
        (ground arith)

  open_shard-file : (verify : Bool) → open_shard (some bytes) shard_index verify ≡ ok opened
  unfolding open_shard
  open_shard-file verify =
      let w = v.valid in
      let several = w.several in
      let (few, b) = bounds in
      let h = has_header in
      let counted : (length (offs d v) - 1 == u64_max) ≡ false = ground arith in
      let fits1 : ltb ((u64_max - header_size) / 8) (length (offs d v)) ≡ false = ground arith in
      let fits2 : ltb (u64_max / 4) (length d.tokens) ≡ false = ground arith in
      let fits3 : ltb (u64_max - tokens_at d v) (length d.tokens * 4) ≡ false = ground arith in
      rw (
        good_header,
        read_header-opened,
        counted,
        whole_count,
        fits1,
        fits2,
        (align_up-rounded (128 + length (offs d v) * 8)).0 (omega arith),
        fits3,
        h.file_size_there,
        good_layout,
        check_offsets-opened,
        check_payload-opened verify,
      )

-- A valid dataset without an oracle, with a 32-bit vocabulary and fewer than 2^60 tokens, is
-- written where the path is free and no call fails, and the file opens, with or without the check
-- of the payload, as a shard of the same vocabulary, tokens and offsets.
pub open_shard-write_token_shard :
    (d : TokenDataset) (shard_index : ℕ) (verify_payload : Bool)
    → IsWritable d
    → (bytes : List ℕ) × (s : MappedTokenShard) × (write_token_shard ready d ≡ ok bytes)
      × (open_shard (some bytes) shard_index verify_payload ≡ ok s)
      × (s.shard_index ≡ shard_index)
      × (s.vocab_size ≡ d.vocab_size)
      × (mapped_tokens s ≡ d.tokens)
      × (mapped_offsets s ≡ d.sequence_offsets)
open_shard-write_token_shard d shard_index verify_payload v = (
  file d v,
  opened d v shard_index,
  write_token_shard-file d v,
  open_shard-file d v shard_index verify_payload,
  refl,
  refl,
  mapped_tokens-opened d v shard_index,
  mapped_offsets-opened d v shard_index,
)
