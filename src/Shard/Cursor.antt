-- ===== src/Shard/Cursor.antt =====
-- modules/token_shard.cpp, `MappedTokenShard::next`: the walk over the examples of a shard.
pub mod Order
use sparse_branch_machine.Base.{
  ℕ, zero, suc, ◌+◌, ◌-◌, Bool, not, ltb, leb, ◌==◌, if◌then◌else◌, Option, none, some, List, [],
  ◌∷◌, ◌++◌, Result, ok, throw, diverge, ◌>>=◌, ◌>>◌, throw_if, invalid_argument,
}
use sparse_branch_machine.Shard.Layout.{MappedTokenShard, offset_at, token_at}

pub record TokenShardCursor : Type 0 where
  pub shard_index : ℕ
  pub sequence_index : ℕ
  pub token_offset : ℕ

pub record TokenExample : Type 0 where
  pub input : ℕ
  pub target : ℕ

-- `end - start`; the offsets of an open shard rise, so the difference does not wrap.
abbrev pub sequence_length : MappedTokenShard → ℕ → ℕ
sequence_length s i = offset_at s (i + 1) - offset_at s i

abbrev pub example_at : MappedTokenShard → ℕ → TokenExample
example_at s position = record { input = token_at s position; target = token_at s (position + 1) }

-- The `while` of `next`, with the cursor as it leaves it; no example stands for `return false`.
unfoldable pub next_loop :
    ℕ → MappedTokenShard → TokenShardCursor → Result (TokenShardCursor × Option TokenExample)
next_loop zero s c = diverge
next_loop (suc fuel) s c =
    let i = c.sequence_index in
    let rest = next_loop fuel s (record c { sequence_index = i + 1; token_offset = 0 }) in
    let advance : Result (TokenShardCursor × Option TokenExample) =
      if ltb c.token_offset (sequence_length s i - 1)
      then ok (
        record c { token_offset = c.token_offset + 1 },
        some (example_at s (offset_at s i + c.token_offset)),
      )
      else rest in
    if ltb i s.sequence_count then advance else ok (c, none)

-- Each round moves on by a sequence, so this fuel is enough.
unfoldable pub next :
    MappedTokenShard → TokenShardCursor → Result (TokenShardCursor × Option TokenExample)
unfolding next_loop
next s c =
    let i = c.sequence_index in
    let inside : Result (TokenShardCursor × Option TokenExample) = do
      throw_if (ltb (sequence_length s i - 1) c.token_offset) invalid_argument
      next_loop (suc (s.sequence_count - i)) s c
    in let at_end : Result (TokenShardCursor × Option TokenExample) = do
      throw_if (not (c.token_offset == 0)) invalid_argument
      ok (c, none)
      in do
        throw_if (not (c.shard_index == s.shard_index)) invalid_argument
        throw_if (ltb s.sequence_count i) invalid_argument
        if i == s.sequence_count then at_end else inside

-- A client's loop: the examples until `next` returns false.
unfoldable pub drain : ℕ → MappedTokenShard → TokenShardCursor → Result (List TokenExample)
drain zero s c = diverge
drain (suc fuel) s c = do
  r ← next s c
  elim r.1 [ some e ↦ drain fuel s r.0 >>= λ es. ok (e ∷ es) | none ↦ ok [] ]
