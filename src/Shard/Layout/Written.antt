-- ===== src/Shard/Layout/Written.antt =====
-- The bytes that `write_token_shard` commits.
use sparse_branch_machine.Base.{
  ℕ, zero, suc, ◌+◌, ◌-◌, ◌*◌, ◌%◌, ◌^◌, ◌≤◌, ◌<◌, ◌≡◌, arith, List, [], ◌∷◌, ◌++◌, length, get_or,
  true, false, ltb, ok, replicate,
}
use sparse_branch_machine.Mix.Range.{mix64-lt}
use sparse_branch_machine.Dataset.{TokenDataset, hash_dataset}
use sparse_branch_machine.Dataset.Valid.{
  IsValid, Rising, has_empty_sequence_iff, has_foreign_token_iff, offsets_steps,
}
use sparse_branch_machine.Shard.Bytes.{buffer_of}
use sparse_branch_machine.Shard.Bytes.Streams.{write_little_endian-buffer_of, write_zeros-replicate}
use sparse_branch_machine.Shard.Layout.{
  FileSystem, u64_max, make_header, validate_for_write, write_token_shard,
}
use sparse_branch_machine.Shard.Layout.Align.{rounded, align_up-rounded}

-- The path is free and no call fails.
abbrev pub ready : FileSystem
ready = record { exists = false; opens = true; writes = true; renames = true }

-- A valid dataset that a shard can hold.
pub record IsWritable (d : TokenDataset) : Type 0 where
  pub valid : IsValid d
  pub no_oracle : d.oracle_nll ≡ []
  pub vocab_word : d.vocab_size < 2 ^ 32
  pub bounded : length d.tokens < 2 ^ 60

pub hash_dataset-lt : (d : TokenDataset) → hash_dataset d < 2 ^ 64
unfolding hash_dataset
hash_dataset-lt d = mix64-lt _

pub Rising-le-last :
    (a : ℕ) (xs : List ℕ) (i : ℕ)
    → Rising (a ∷ xs)
    → i ≤ length xs
    → get_or (a ∷ xs) i 0 ≤ get_or (a ∷ xs) (length xs) 0
Rising-le-last a [] zero r h = omega arith
Rising-le-last a [] (suc i) r h = absurd (omega arith)
Rising-le-last a (b ∷ rest) zero r h = omega (arith, Rising-le-last b rest 0 r.1 (omega arith))
Rising-le-last a (b ∷ rest) (suc i) r h = Rising-le-last b rest i r.1 (omega arith)

pub Rising-le-back :
    (xs : List ℕ) (i : ℕ) → Rising xs → i < length xs → get_or xs i 0 ≤ get_or xs (length xs - 1) 0
Rising-le-back [] i r h = absurd (omega arith)
Rising-le-back (a ∷ xs) i r h =
    let e : suc (length xs) - 1 ≡ length xs = omega arith in
    rw e (Rising-le-last a xs i r (omega arith))

module _ (d : TokenDataset) (v : IsWritable d) where
  abbrev pub offs : List ℕ
  offs = d.sequence_offsets

  abbrev pub tokens_at : ℕ
  tokens_at = rounded (128 + length offs * 8)

  abbrev pub size : ℕ
  size = tokens_at + length d.tokens * 4

  abbrev pub header : List ℕ
  header = make_header d (length offs) (length d.tokens) tokens_at size

  abbrev pub padding : List ℕ
  padding = replicate (tokens_at - 128 - length offs * 8) 0

  abbrev pub file : List ℕ
  file = ((header ++ buffer_of 8 offs) ++ padding) ++ buffer_of 4 d.tokens

  pub few_offsets : length offs ≤ length d.tokens + 1
  few_offsets =
      let w = v.valid in omega (arith, offsets_steps offs w.rising w.several w.first, w.last)

  validate_for_write-ok : validate_for_write d ≡ ok tt
  unfolding validate_for_write
  validate_for_write-ok =
      let w = v.valid in
      let none_stored = v.no_oracle in
      rw none_stored (
        ground (
          arith,
          (has_empty_sequence_iff offs).1 w.rising,
          (has_foreign_token_iff d.vocab_size d.tokens).1 w.known,
        ))

  pub write_token_shard-file : write_token_shard ready d ≡ ok file
  unfolding write_token_shard
  write_token_shard-file =
      let few = few_offsets in
      let b = v.bounded in
      let e1 : (length offs * 8) % 2 ^ 64 ≡ length offs * 8 = omega arith in
      let e2 : (length d.tokens * 4) % 2 ^ 64 ≡ length d.tokens * 4 = omega arith in
      let e3 : (128 + length offs * 8) % 2 ^ 64 ≡ 128 + length offs * 8 = omega arith in
      let e4 : ltb (u64_max - tokens_at) (length d.tokens * 4) ≡ false = ground arith in
      let e5 : (tokens_at + length d.tokens * 4) % 2 ^ 64 ≡ size = omega arith in
      rw (
        validate_for_write-ok,
        e1,
        e2,
        e3,
        (align_up-rounded (128 + length offs * 8)).0 (omega arith),
        e4,
        e5,
        write_little_endian-buffer_of 8 offs header (omega arith) (omega arith),
        write_zeros-replicate (tokens_at - 128 - length offs * 8) (header ++ buffer_of 8 offs),
        write_little_endian-buffer_of 4 d.tokens ((header ++ buffer_of 8 offs) ++ padding)
            (omega arith) (omega arith),
      )
