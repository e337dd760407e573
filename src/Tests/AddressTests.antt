-- ===== src/Tests/AddressTests.antt =====
-- The theorems on address programs, at short windows.
use sparse_branch_machine.Base.{
  ℕ, ◌+◌, ◌*◌, ◌/◌, ◌-◌, ◌^◌, ◌<◌, ◌≤◌, ◌≡◌, ◌≢◌, ◌⊎◌, refl, arith, min, true, false, some, List,
  [], ◌∷◌, get_elem?, length,
}
use sparse_branch_machine.Address.{
  AddressProgram, address_program_key, tuple, delta_mod, content_match,
}
use sparse_branch_machine.Address.Key.{address_program_key_collides}
use sparse_branch_machine.Address.Match.{Nearest, find_content_match, find_content_match-Nearest}
use sparse_branch_machine.Address.Binding.{resolve_address_binding_state}
use sparse_branch_machine.Address.Binding.Resolve.{IsBound, resolve_address_binding_state-IsBound}
use sparse_branch_machine.Address.Proposals.{
  hit, single_program, pair_program, proposal_at, outer_loop, visit_lag, visit, visit_loop,
  visit_content, follow_loop,
}
use sparse_branch_machine.Address.Proposals.Listing.{proposals, proposal_at-proposals}
use sparse_branch_machine.Address.Proposals.Shape.{
  IsProposal, proposal_at-IsProposal, proposal_at-key_injective,
}
use sparse_branch_machine.Address.Signature.{symbol_bits, recent_token, token_context_signature}
use sparse_branch_machine.Address.Signature.Locality.{
  recent_symbols, token_context_signature-recent,
}
use sparse_branch_machine.Execution.{
  FloatOps, ExecutionConfig, ExecutionState, execute_address_programs,
}
use sparse_branch_machine.Execution.Frames.{
  enabled_from, frame_channels, IsCountedOn, execute_address_programs-channels,
}
use sparse_branch_machine.Tests.TopologyTests.{three_channels}

abbrev repeating : List ℕ
repeating = 4 ∷ 7 ∷ 4 ∷ 9 ∷ 4 ∷ []

abbrev match_program : AddressProgram
match_program = record { lags = 3 ∷ 0 ∷ []; arity = 1; op = content_match }

-- Numbers stand for the floating-point values.
abbrev exact : FloatOps ℕ ℕ
exact = record {
  float_of = λ n. n;
  add_float = λ x y. x + y;
  double_of = λ n. n;
  add_double = λ x y. x + y;
  widen = λ x. x;
}

proposal_at-proposals_example :
    proposal_at 5 4 2 true true false ≡ get_elem? (proposals 2 true true false 3 2) 5
proposal_at-proposals_example = proposal_at-proposals 5 4 2 true true false (omega arith)

first_proposal : proposal_at 1 4 2 true true false ≡ some (pair_program tuple 1 2)
unfolding proposal_at outer_loop visit_lag visit visit_loop visit_content follow_loop
first_proposal = refl

-- With the largest 32-bit lag the counter wraps, and the lag 0 is proposed.
wrapped_lag :
    outer_loop (2 ^ 32 - 1) 1 false false false 2 (2 ^ 32 - 1) 1 ≡ hit (single_program tuple 0)
unfolding outer_loop visit_lag visit
wrapped_lag = refl

proposal_at-IsProposal_example : IsProposal 4 2 (pair_program tuple 1 2)
proposal_at-IsProposal_example =
    proposal_at-IsProposal 4 2 true true false 1 (pair_program tuple 1 2) (omega arith)
      first_proposal

proposal_at-key_injective_example : pair_program tuple 1 2 ≡ pair_program tuple 1 2
proposal_at-key_injective_example =
    proposal_at-key_injective 4 2 true true false 1 1 (pair_program tuple 1 2)
      (pair_program tuple 1 2) (omega arith) first_proposal first_proposal refl

address_program_key_collides_example :
    (address_program_key (pair_program tuple 1 (2 + 2 ^ 20))
      ≡ address_program_key (pair_program delta_mod 1 2))
    × (pair_program tuple 1 (2 + 2 ^ 20) ≢ pair_program delta_mod 1 2)
address_program_key_collides_example =
    address_program_key_collides (pair_program tuple 1 (2 + 2 ^ 20)) (pair_program delta_mod 1 2) 1
      2 refl refl refl refl refl refl (omega arith) (omega arith)

find_content_match-Nearest_example :
    Nearest repeating 4
      (3 ∷ 0 ∷ [])
      0
      1
      (1 + min 3 4)
      (find_content_match repeating 4 3 (3 ∷ 0 ∷ []) 0)
find_content_match-Nearest_example =
    find_content_match-Nearest repeating 4 (3 ∷ 0 ∷ []) 0 3 (omega arith) (omega arith)

resolve_address_binding_state-IsBound_example :
    let s = resolve_address_binding_state repeating match_program in
    (s.matched ≡ true → IsBound repeating match_program s) × (s.matched ≡ false → s.binding_key ≡ 0)
resolve_address_binding_state-IsBound_example =
    resolve_address_binding_state-IsBound repeating match_program (omega arith)

token_context_signature-recent_example :
    (n : ℕ) × (n ≤ length repeating)
    × (n * symbol_bits 16 ≤ 64)
    × ((n ≡ length repeating) ⊎ (64 < n * symbol_bits 16 + symbol_bits 16))
    × (token_context_signature repeating 16 7 / 2 ^ (64 - n * symbol_bits 16)
        ≡ recent_symbols (recent_token repeating) (symbol_bits 16) n)
token_context_signature-recent_example =
    token_context_signature-recent repeating 16 7 (λ e. absurd (omega arith))

abbrev config : ExecutionConfig
config = record { token_alphabet = 16; seed = 7; reuse_cap = 4; total_steps = 9; learn = true }

abbrev fresh_state : ExecutionState ℕ
fresh_state = record {
  signature_buffer = 0 ∷ 0 ∷ 0 ∷ [];
  reuse = record { channels = []; reuse_observations = 0; reuse_events = 0 };
  execution_frames = 0;
  hits = 0;
  misses = 0;
  kind_frames = 0 ∷ 0 ∷ 0 ∷ 0 ∷ [];
  kind_hits = 0 ∷ 0 ∷ 0 ∷ 0 ∷ [];
  kind_distance_sum = 0 ∷ 0 ∷ 0 ∷ 0 ∷ [];
  kind_span_sum = 0 ∷ 0 ∷ 0 ∷ 0 ∷ [];
  description_total = 0;
  execution_total = 0;
}

execute_address_programs-channels_example :
    let (frames, s') = execute_address_programs exact config three_channels repeating fresh_state in
    (frame_channels exact frames ≡ enabled_from three_channels three_channels 0)
    × IsCountedOn exact fresh_state (length (enabled_from three_channels three_channels 0)) s'
execute_address_programs-channels_example =
    execute_address_programs-channels exact config three_channels repeating fresh_state
      (omega arith) (omega arith)
