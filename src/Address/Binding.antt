-- ===== src/Address/Binding.antt =====
-- modules/signature.cpp: `binding_state_key` and `resolve_address_binding_state`.
-- A program's `arity` is a `uint8_t` and at most two; a window has fewer than 2 ^ 32 tokens.
pub mod Resolve
use sparse_branch_machine.Base.{
  ℕ, zero, suc, ◌+◌, ◌-◌, ◌*◌, ◌%◌, ◌^◌, ◌≤◌, ◌<◌, ◌≡◌, Bool, true, false, ◌||◌, ◌&&◌, not, ltb,
  ◌==◌, if◌then◌else◌, min, bit_xor, Option, none, some, List, [], ◌∷◌, get_or, length,
}
use sparse_branch_machine.Mix.{mix64, rotl}
use sparse_branch_machine.Address.{
  AddressOp, AddressProgram, AddressBindingState, op_value, address_program_key,
  is_content_follow_op, content_follow_hop_count, tuple, delta_mod, content_match, content_follow,
  content_follow_multi2, content_follow_multi3,
}
use sparse_branch_machine.Address.Match.{ContentMatchResult, safe_history_index, find_content_match}

unfoldable pub binding_state_key : AddressBindingState → AddressProgram → ℕ
binding_state_key s p =
    let k0 = mix64 ((op_value p.op + 0x8CB92BA72F3D8DD7) % 2 ^ 64) in
    let k1 = bit_xor k0 (rotl (mix64 (address_program_key p)) 7) in
    let k2 = bit_xor k1 (rotl (mix64 s.current_token) 13) in
    let k3 = bit_xor k2 (rotl (mix64 s.matched_token) 23) in
    let k4 = bit_xor k3 (rotl (mix64 s.matched_successor) 31) in
    let k5 = bit_xor k4 (rotl (mix64 s.pattern_span) 43) in
    let k6 = bit_xor k5 (rotl (mix64 s.pattern_terms) 53) in
    let key = mix64 k6 in if not s.matched then 0 else (if key == 0 then 1 else key)

-- The loop over the hops: each match but the last moves the current index behind it.
unfoldable pub hop_loop :
    ℕ → List ℕ → ℕ → List ℕ → ℕ → ℕ → ContentMatchResult → Option ContentMatchResult
hop_loop zero window max_lag lags pattern_count current final = some final
hop_loop (suc rounds) window max_lag lags pattern_count current final =
    elim (find_content_match window current max_lag lags pattern_count) [
      | none ↦ none
      | some m ↦ hop_loop rounds window max_lag lags pattern_count (m.index + 1) m
    ]

-- `program.op == AddressOp::Tuple || program.op == AddressOp::DeltaMod`
abbrev pub is_positional_op : AddressOp → Bool
is_positional_op tuple = true
is_positional_op delta_mod = true
is_positional_op content_match = false
is_positional_op content_follow = false
is_positional_op content_follow_multi2 = false
is_positional_op content_follow_multi3 = false

abbrev pub last_lag : AddressProgram → ℕ
last_lag p = get_or p.lags (p.arity - 1) 0

abbrev pub pattern_terms_of : AddressProgram → ℕ
pattern_terms_of p = if is_content_follow_op p.op && ltb 1 p.arity then (p.arity - 1) % 2 ^ 8 else 0

-- The state with every field at its initial value but `pattern_terms` and `current_token`.
abbrev pub initial_binding : ℕ → ℕ → AddressBindingState
initial_binding terms current = record {
  current_token = current;
  matched_token = 0;
  matched_successor = 0;
  matched_index = 0;
  matched_distance = 0;
  pattern_span = 0;
  binding_key = 0;
  pattern_terms = terms;
  matched = false;
}

abbrev pub with_key : AddressProgram → AddressBindingState → AddressBindingState
with_key p s = record s { binding_key = binding_state_key s p }

abbrev pub positional_binding : List ℕ → AddressProgram → AddressBindingState → AddressBindingState
positional_binding window p s =
    let index = safe_history_index window (last_lag p) in
    with_key p (record s {
      matched = true;
      matched_index = index;
      matched_token = get_or window index 0;
      matched_successor = get_or window index 0;
      matched_distance = last_lag p;
      pattern_span = last_lag p;
    })

abbrev pub content_binding_at :
    List ℕ → AddressProgram → AddressBindingState → Option ContentMatchResult → AddressBindingState
content_binding_at window p s none = s
content_binding_at window p s (some m) = with_key p (record s {
  matched = true;
  matched_index = m.index;
  matched_token = get_or window m.index 0;
  matched_successor = get_or window (min (m.index + 1) (length window - 1)) 0;
  matched_distance = m.distance;
  pattern_span = last_lag p;
})

unfoldable pub resolve_address_binding_state : List ℕ → AddressProgram → AddressBindingState
resolve_address_binding_state window p =
    let terms = pattern_terms_of p in
    let current = get_or window (length window - 1) 0 in
    let s = initial_binding terms current in
    if length window == 0 || p.arity == 0
    then initial_binding terms 0
    else (if is_positional_op p.op
        then positional_binding window p s
        else content_binding_at window p s (
            hop_loop (content_follow_hop_count p.op) window (last_lag p) p.lags terms
              (length window - 1) (record { index = 0; distance = 0 })))
