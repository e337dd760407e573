-- ===== src/Shard/Layout/Header.antt =====
-- The header that `write_token_shard` lays out, read back field by field.
use sparse_branch_machine.Base.{
  ℕ, suc, length-append, ◌+◌, ◌-◌, ◌*◌, ◌%◌, ◌^◌, ◌≤◌, ◌<◌, ◌≡◌, refl, ap, ◌∙◌, arith, ◌⊎◌, inl,
  inr, List, [], ◌∷◌, ◌++◌, length, All, get_or, true, get_or-append_left, replicate,
}
use sparse_branch_machine.Dataset.{TokenDataset, hash_dataset}
use sparse_branch_machine.Shard.Bytes.{put_loop, get_loop, get_u32, get_u64}
use sparse_branch_machine.Shard.Bytes.Codec.{
  length-put_loop, put_loop-outside, get_loop-cong, get_loop-put_loop, get_loop-put_loop_apart,
}
use sparse_branch_machine.Shard.Layout.{
  make_header, blank_header, magic, version, header_size, endian_marker, has_prefix,
}

record Field : Type 0 where
  width : ℕ
  at : ℕ
  value : ℕ

abbrev field : ℕ → ℕ → ℕ → Field
field width at value = record { width = width; at = at; value = value }

abbrev put_one : List ℕ → Field → List ℕ
put_one h f = put_loop f.width 0 h f.at f.value

put_all : List ℕ → List Field → List ℕ
put_all h [] = h
put_all h (f ∷ fs) = put_all (put_one h f) fs

-- A field that is written, and not touched by the later ones.
abbrev Writes : ℕ → ℕ → ℕ → List Field → Type 0
Writes n at v [] = ⊥
Writes n at v (f ∷ fs) =
    ((f.width ≡ n)
      × (f.at ≡ at)
      × (f.value ≡ v)
      × All (λ g. (at + n ≤ g.at) ⊎ (g.at + g.width ≤ at)) fs)
    ⊎ Writes n at v fs

length-put_all : (h : List ℕ) (fs : List Field) → length (put_all h fs) ≡ length h
unfolding put_all
length-put_all h [] = refl
length-put_all h (f ∷ fs) =
    length-put_all (put_one h f) fs ∙ length-put_loop f.width 0 h f.at f.value

put_all-apart :
    (n at : ℕ) (h : List ℕ) (fs : List Field)
    → All (λ g. (at + n ≤ g.at) ⊎ (g.at + g.width ≤ at)) fs
    → get_loop n 0 (put_all h fs) at 0 ≡ get_loop n 0 h at 0
unfolding put_all
put_all-apart n at h [] a = refl
put_all-apart n at h (f ∷ fs) a =
    put_all-apart n at (put_one h f) fs a.1
    ∙ get_loop-put_loop_apart n f.width h at f.at f.value a.0

put_all-reads :
    (n at v : ℕ) (h : List ℕ) (fs : List Field)
    → Writes n at v fs
    → at + n ≤ length h
    → v < 2 ^ (n * 8)
    → get_loop n 0 (put_all h fs) at 0 ≡ v
unfolding put_all
put_all-reads n at v h [] w room small = absurd w
put_all-reads n at v h (f ∷ fs) (inl (e, a, x, apart)) room small =
    put_all-apart n at (put_one h f) fs apart ∙ rw (e, a, x) (get_loop-put_loop n h at v room small)
put_all-reads n at v h (f ∷ fs) (inr w) room small =
    put_all-reads n at v (put_one h f) fs w
      (omega (arith, length-put_loop f.width 0 h f.at f.value)) small

put_all-below :
    (k : ℕ) (h : List ℕ) (fs : List Field)
    → All (λ g. k < g.at) fs
    → get_or (put_all h fs) k 0 ≡ get_or h k 0
unfolding put_all
put_all-below k h [] a = refl
put_all-below k h (f ∷ fs) a =
    put_all-below k (put_one h f) fs a.1
    ∙ put_loop-outside f.width 0 h f.at f.value k (inl (omega (arith, a.0)))

module _ (d : TokenDataset) (offset_count token_count tokens_offset file_size : ℕ) where
  abbrev fields : List Field
  fields =
      field 4 8 version
      ∷ field 4 12 header_size
      ∷ field 4 16 endian_marker
      ∷ field 4 20 d.vocab_size
      ∷ field 8 24 token_count
      ∷ field 8 32 ((offset_count + 2 ^ 64 - 1) % 2 ^ 64)
      ∷ field 8 40 header_size
      ∷ field 8 48 tokens_offset
      ∷ field 8 56 (hash_dataset d)
      ∷ field 8 64 file_size
      ∷ []

  abbrev header : List ℕ
  header = make_header d offset_count token_count tokens_offset file_size

  header-put_all : header ≡ put_all blank_header fields
  unfolding make_header put_all
  header-put_all = refl

  pub length-make_header : length header ≡ 128
  length-make_header = ap length header-put_all ∙ length-put_all blank_header fields

  -- Where the file begins with the header, each field holds what was put.
  read_back :
      (n at v : ℕ) (rest : List ℕ)
      → Writes n at v fields
      → at + n ≤ 128
      → v < 2 ^ (n * 8)
      → get_loop n 0 (header ++ rest) at 0 ≡ v
  read_back n at v rest w room small =
      get_loop-cong n 0 (header ++ rest) header at 0
        (λ k a b. get_or-append_left header rest (at + k) 0 (omega (arith, length-make_header)))
      ∙ ap (λ (t : List ℕ). get_loop n 0 t at 0) header-put_all
      ∙ put_all-reads n at v blank_header fields w room small

  -- And the magic stands before them.
  magic_kept : (k : ℕ) (rest : List ℕ) → k < 8 → get_or (header ++ rest) k 0 ≡ get_or magic k 0
  magic_kept k rest h =
      get_or-append_left header rest k 0 (omega (arith, length-make_header))
      ∙ ap (λ (t : List ℕ). get_or t k 0) header-put_all
      ∙ put_all-below k blank_header fields (omega arith)
      ∙ get_or-append_left magic (replicate 120 0) k 0 h

has_prefix-true :
    (ms bytes : List ℕ)
    → length ms ≤ length bytes
    → ((k : ℕ) → k < length ms → get_or bytes k 0 ≡ get_or ms k 0)
    → has_prefix ms bytes ≡ true
unfolding has_prefix
has_prefix-true [] bytes h e = refl
has_prefix-true (m ∷ ms) [] h e = absurd (omega arith)
has_prefix-true (m ∷ ms) (b ∷ bytes) h e =
    ground (arith, e 0, has_prefix-true ms bytes (omega arith) (λ k l. e (suc k) (omega arith)))

-- The facts about a file that begins with such a header.
pub record HasHeader (d : TokenDataset) (offset_count token_count tokens_offset file_size : ℕ)
    (bytes : List ℕ) : Type 0 where
  pub magic_there : has_prefix magic bytes ≡ true
  pub version_there : get_u32 bytes 8 ≡ version
  pub header_size_there : get_u32 bytes 12 ≡ header_size
  pub endian_there : get_u32 bytes 16 ≡ endian_marker
  pub vocab_there : get_u32 bytes 20 ≡ d.vocab_size
  pub token_count_there : get_u64 bytes 24 ≡ token_count
  pub sequence_count_there : get_u64 bytes 32 ≡ offset_count - 1
  pub offsets_there : get_u64 bytes 40 ≡ header_size
  pub tokens_there : get_u64 bytes 48 ≡ tokens_offset
  pub hash_there : get_u64 bytes 56 ≡ hash_dataset d
  pub file_size_there : get_u64 bytes 64 ≡ file_size

pub make_header-HasHeader :
    (d : TokenDataset) (offset_count token_count tokens_offset file_size : ℕ) (rest : List ℕ)
    → d.vocab_size < 2 ^ 32
    → 0 < offset_count
    → offset_count < 2 ^ 64
    → token_count < 2 ^ 64
    → tokens_offset < 2 ^ 64
    → file_size < 2 ^ 64
    → hash_dataset d < 2 ^ 64
    → HasHeader d offset_count token_count tokens_offset file_size
        (make_header d offset_count token_count tokens_offset file_size ++ rest)
make_header-HasHeader d oc tc to fs rest vs op os ts os' fss hs =
    let read = read_back d oc tc to fs in
    record {
      magic_there =
          has_prefix-true magic _
            (omega (
              arith,
              length-append (make_header d oc tc to fs) rest,
              length-make_header d oc tc to fs,
            ))
            (λ k h. magic_kept d oc tc to fs k rest (omega arith));
      version_there =
          read 4 8 version rest (inl (refl, refl, refl, omega arith)) (omega arith) (omega arith);
      header_size_there =
          read 4 12 header_size rest (inr (inl (refl, refl, refl, omega arith))) (omega arith)
            (omega arith);
      endian_there =
          read 4 16 endian_marker rest (inr (inr (inl (refl, refl, refl, omega arith))))
            (omega arith) (omega arith);
      vocab_there =
          read 4 20 d.vocab_size rest (inr (inr (inr (inl (refl, refl, refl, omega arith)))))
            (omega arith) (omega arith);
      token_count_there =
          read 8 24 tc rest (inr (inr (inr (inr (inl (refl, refl, refl, omega arith))))))
            (omega arith) (omega arith);
      sequence_count_there =
          read 8 32 ((oc + 2 ^ 64 - 1) % 2 ^ 64) rest
            (inr (inr (inr (inr (inr (inl (refl, refl, refl, omega arith))))))) (omega arith)
            (omega arith)
          ∙ omega arith;
      offsets_there =
          read 8 40 header_size rest
            (inr (inr (inr (inr (inr (inr (inl (refl, refl, refl, omega arith)))))))) (omega arith)
            (omega arith);
      tokens_there =
          read 8 48 to rest
            (inr (inr (inr (inr (inr (inr (inr (inl (refl, refl, refl, omega arith)))))))))
            (omega arith) (omega arith);
      hash_there =
          read 8 56 (hash_dataset d) rest
            (inr (inr (inr (inr (inr (inr (inr (inr (inl (refl, refl, refl, omega arith))))))))))
            (omega arith) (omega arith);
      file_size_there =
          read 8 64 fs rest
            (inr (inr (inr (inr (inr (inr (inr (inr (inr (inl (refl, refl, refl, tt)))))))))))
            (omega arith) (omega arith);
    }
