-- ===== src/Shard/Cursor/Order.antt =====
-- The order in which `next` meets the examples, and the cursors that it refuses.
use sparse_branch_machine.Base.{
  ℕ, zero, suc, ◌+◌, ◌-◌, ◌≤◌, ◌<◌, ◌≡◌, ◌≢◌, ◌⊎◌, inl, inr, refl, ap, ◌∙◌, arith, true, false, ltb,
  ◌==◌, Bool-cases, compare_cases, Option, none, some, List, [], ◌∷◌, ◌++◌, length, Result, ok,
  throw, diverge, invalid_argument, out_of_range, overflow_error, runtime_error,
}
use sparse_branch_machine.Shard.Layout.{MappedTokenShard, offset_at}
use sparse_branch_machine.Shard.Cursor.{
  TokenShardCursor, TokenExample, sequence_length, example_at, next_loop, next, drain,
}

-- `count` examples from a position on.
unfoldable pub examples_from : MappedTokenShard → ℕ → ℕ → List TokenExample
examples_from s position zero = []
examples_from s position (suc count) = example_at s position ∷ examples_from s (position + 1) count

-- The examples of `rounds` sequences, the first one from an offset on.
unfoldable pub sequences_from : ℕ → MappedTokenShard → ℕ → ℕ → List TokenExample
sequences_from zero s i offset = []
sequences_from (suc rounds) s i offset =
    examples_from s (offset_at s i + offset) (sequence_length s i - 1 - offset)
    ++ sequences_from rounds s (i + 1) 0

-- What a cursor has before it: every pair of neighbours that lie in one sequence.
abbrev pub remaining : MappedTokenShard → TokenShardCursor → List TokenExample
remaining s c =
    sequences_from (s.sequence_count - c.sequence_index) s c.sequence_index c.token_offset

-- The constructor's test: no sequence is empty.
abbrev pub HasSequences : MappedTokenShard → Type 0
HasSequences s = (i : ℕ) → i < s.sequence_count → offset_at s i < offset_at s (i + 1)

pub record IsPosition (s : MappedTokenShard) (c : TokenShardCursor) : Type 0 where
  pub same_shard : c.shard_index ≡ s.shard_index
  pub in_shard : c.sequence_index ≤ s.sequence_count
  pub end_offset : c.sequence_index ≡ s.sequence_count → c.token_offset ≡ 0
  pub in_sequence :
      c.sequence_index < s.sequence_count → c.token_offset < sequence_length s c.sequence_index

-- An example is the first of those that remain, and the cursor moves behind it; without one
-- nothing remained, and the cursor is at the end.
abbrev pub Yields :
    MappedTokenShard → TokenShardCursor → TokenShardCursor × Option TokenExample → Type 0
Yields s c (c', none) =
    (remaining s c ≡ []) × (c'.sequence_index ≡ s.sequence_count) × (c'.token_offset ≡ 0)
Yields s c (c', some e) = (remaining s c ≡ e ∷ remaining s c') × IsPosition s c'

Yields-past :
    (s : MappedTokenShard) (c moved : TokenShardCursor)
    → remaining s c ≡ remaining s moved
    → (r : TokenShardCursor × Option TokenExample) → Yields s moved r
    → Yields s c r
Yields-past s c moved e (c', none) y = (e ∙ y.0, y.1, y.2)
Yields-past s c moved e (c', some x) y = (e ∙ y.0, y.1)

-- One sequence is unrolled.
remaining-unroll :
    (s : MappedTokenShard) (c : TokenShardCursor)
    → c.sequence_index < s.sequence_count
    → remaining s c
      ≡ examples_from s
          (offset_at s c.sequence_index + c.token_offset)
          (sequence_length s c.sequence_index - 1 - c.token_offset)
        ++ sequences_from (s.sequence_count - (c.sequence_index + 1)) s (c.sequence_index + 1) 0
unfolding sequences_from
remaining-unroll s c h =
    let e : s.sequence_count - c.sequence_index ≡ suc (s.sequence_count - (c.sequence_index + 1)) =
      omega arith in
    rw e

remaining-inside :
    (s : MappedTokenShard) (c : TokenShardCursor)
    → c.sequence_index < s.sequence_count
    → c.token_offset < sequence_length s c.sequence_index - 1
    → remaining s c
      ≡ example_at s (offset_at s c.sequence_index + c.token_offset)
        ∷ remaining s (record c { token_offset = c.token_offset + 1 })
unfolding examples_from
remaining-inside s c h g =
    let l = sequence_length s c.sequence_index in
    let moved : TokenShardCursor = record c { token_offset = c.token_offset + 1 } in
    let e : l - 1 - c.token_offset ≡ suc (l - 1 - (c.token_offset + 1)) = omega arith in
    let a : offset_at s c.sequence_index + (c.token_offset + 1)
        ≡ offset_at s c.sequence_index + c.token_offset + 1 =
      omega arith in
    rw (remaining-unroll s c h, remaining-unroll s moved h, e, a)

remaining-past :
    (s : MappedTokenShard) (c : TokenShardCursor)
    → c.sequence_index < s.sequence_count
    → sequence_length s c.sequence_index - 1 ≤ c.token_offset
    → remaining s c
      ≡ remaining s (record c { sequence_index = c.sequence_index + 1; token_offset = 0 })
unfolding examples_from
remaining-past s c h g =
    let e : sequence_length s c.sequence_index - 1 - c.token_offset ≡ 0 = omega arith in
    rw (remaining-unroll s c h, e)

refusal_cases {ℓ} :
    {A : Type ℓ} (r : Result A) → (r ≡ throw invalid_argument) ⊎ (r ≢ throw invalid_argument)
refusal_cases (ok a) = inr (λ e. cc)
refusal_cases (throw invalid_argument) = inl refl
refusal_cases (throw out_of_range) = inr (λ e. cc)
refusal_cases (throw overflow_error) = inr (λ e. cc)
refusal_cases (throw runtime_error) = inr (λ e. cc)
refusal_cases diverge = inr (λ e. cc)

module _ (s : MappedTokenShard) (h : HasSequences s) where
  next_loop-Yields :
      (fuel : ℕ) (c : TokenShardCursor)
      → IsPosition s c
      → s.sequence_count - c.sequence_index < fuel
      → (r : TokenShardCursor × Option TokenExample) × (next_loop fuel s c ≡ ok r) × Yields s c r
  unfolding next_loop sequences_from
  next_loop-Yields zero c p f = absurd (omega arith)
  next_loop-Yields (suc fuel) c p f = elim (Bool-cases (ltb c.sequence_index s.sequence_count)) [
    | inr past ↦
        let e : c.sequence_index ≡ s.sequence_count = ground (arith, p.in_shard) in
        let z : s.sequence_count - c.sequence_index ≡ 0 = omega arith in
        ((c, none), rw (past), (rw (z), e, p.end_offset e))
    | inl more ↦
        let i = c.sequence_index in
        let inside : i < s.sequence_count = ground arith in
        elim (Bool-cases (ltb c.token_offset (sequence_length s i - 1))) [
          | inl within ↦
              let below : c.token_offset < sequence_length s i - 1 = ground arith in
              let moved : TokenShardCursor = record c { token_offset = c.token_offset + 1 } in
              let moved-IsPosition : IsPosition s moved = record {
                same_shard = p.same_shard;
                in_shard = p.in_shard;
                end_offset = λ e. absurd (omega arith);
                in_sequence = λ _. omega arith;
              } in
              (
                (moved, some (example_at s (offset_at s i + c.token_offset))),
                rw (more, within),
                (remaining-inside s c inside below, moved-IsPosition),
              )
          | inr last ↦
              let above : sequence_length s i - 1 ≤ c.token_offset = ground arith in
              let moved : TokenShardCursor = record c {
                sequence_index = i + 1;
                token_offset = 0;
              } in
              let moved-IsPosition : IsPosition s moved = record {
                same_shard = p.same_shard;
                in_shard = omega arith;
                end_offset = λ _. refl;
                in_sequence = λ g. omega (arith, h (i + 1) g);
              } in
              let (r, computed, yields) =
                next_loop-Yields fuel moved moved-IsPosition (omega arith) in
              (
                r,
                rw (more, last, computed),
                Yields-past s c moved (remaining-past s c inside above) r yields,
              )
        ]
  ]

  -- A position is what the tests of `next` let through.
  next-IsPosition : (c : TokenShardCursor) → (next s c ≢ throw invalid_argument) → IsPosition s c
  unfolding next
  next-IsPosition c g = record {
    same_shard = ground arith;
    in_shard = ground arith;
    end_offset = λ e. ground arith;
    in_sequence = λ e. ground (arith, h c.sequence_index e);
  }

  next-next_loop :
      (c : TokenShardCursor)
      → IsPosition s c
      → next s c ≡ next_loop (suc (s.sequence_count - c.sequence_index)) s c
  unfolding next next_loop
  next-next_loop c p = elim (compare_cases c.sequence_index s.sequence_count) [
    | inl less ↦
        let inside = p.in_sequence less in
        let t1 : (c.shard_index == s.shard_index) ≡ true = ground (arith, p.same_shard) in
        let t2 : ltb s.sequence_count c.sequence_index ≡ false = ground arith in
        let t3 : (c.sequence_index == s.sequence_count) ≡ false = ground arith in
        let t4 : ltb (sequence_length s c.sequence_index - 1) c.token_offset ≡ false =
          ground arith in
        rw (t1, t2, t3, t4)
    | inr (inl same) ↦
        let z = p.end_offset same in
        let t1 : (c.shard_index == s.shard_index) ≡ true = ground (arith, p.same_shard) in
        let t2 : ltb s.sequence_count c.sequence_index ≡ false = ground arith in
        let t3 : (c.sequence_index == s.sequence_count) ≡ true = ground arith in
        let t4 : ltb c.sequence_index s.sequence_count ≡ false = ground arith in
        let t5 : (c.token_offset == 0) ≡ true = ground arith in rw (t1, t2, t3, t4, t5)
    | inr (inr more) ↦ absurd (omega (arith, p.in_shard))
  ]

  -- In a shard without an empty sequence, `next` from a position in the shard yields the first of
  -- the examples that remain and moves the cursor to the position behind it, or reports the end
  -- where nothing remains; from any other cursor it throws `invalid_argument`.
  pub next-Yields :
      (c : TokenShardCursor)
      → (IsPosition s c
          → (r : TokenShardCursor × Option TokenExample) × (next s c ≡ ok r) × Yields s c r)
        × (¬ IsPosition s c → next s c ≡ throw invalid_argument)
  next-Yields c = (
    λ p. let (r, e, y) = next_loop-Yields _ c p (omega arith) in (r, next-next_loop c p ∙ e, y),
    λ n. elim (refusal_cases (next s c)) [
      | inl refused ↦ refused
      | inr taken ↦ absurd (n (next-IsPosition c taken))
    ],
  )

  -- In a shard without an empty sequence, a client that calls `next` from a position until it reports
  -- the end meets exactly the examples that remain, in their order, and needs one call more than there
  -- are examples.
  pub drain-remaining :
      (fuel : ℕ) (c : TokenShardCursor)
      → IsPosition s c
      → length (remaining s c) < fuel
      → drain fuel s c ≡ ok (remaining s c)
  unfolding drain
  drain-remaining zero c p f = absurd (omega arith)
  drain-remaining (suc fuel) c p f =
      let (r, e, y) = (next-Yields c).0 p in after (drain-remaining fuel) r e y
    where
      after :
          ((c' : TokenShardCursor)
            → IsPosition s c'
            → length (remaining s c') < fuel
            → drain fuel s c' ≡ ok (remaining s c'))
          → (r : TokenShardCursor × Option TokenExample) → next s c ≡ ok r
          → Yields s c r
          → drain (suc fuel) s c ≡ ok (remaining s c)
      after ih (c', none) e y = rw (e, y.0)
      after ih (c', some x) e y =
          let more : length (remaining s c) ≡ suc (length (remaining s c')) = ap length y.0 in
          let rest = ih c' y.1 (omega arith) in rw (e, rest, y.0)
