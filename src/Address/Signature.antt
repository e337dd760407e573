-- ===== src/Address/Signature.antt =====
-- modules/signature.cpp: `rolling_signature`, `token_context_signature`, `lagged_token_signature` and
-- `address_program_signature`. Tokens, lags and the alphabet are `uint32_t`, the seed is 64 bits.
pub mod Locality
use sparse_branch_machine.Base.{
  ℕ, zero, suc, ◌+◌, ◌-◌, ◌*◌, ◌/◌, ◌%◌, ◌^◌, max, min, bit_and, bit_or, bit_xor, Bool, true, false,
  ◌||◌, not, ltb, leb, ◌==◌, if◌then◌else◌, List, [], ◌∷◌, ◌++◌, get_or, take, length,
}
use sparse_branch_machine.Mix.{mix64, rotl, bit_width_loop}
use sparse_branch_machine.Address.{
  AddressOp, AddressProgram, op_value, is_content_follow_op, tuple, delta_mod, content_match,
  content_follow, content_follow_multi2, content_follow_multi3,
}
use sparse_branch_machine.Address.Binding.{resolve_address_binding_state, is_positional_op}

abbrev pub u64 : ℕ
u64 = 2 ^ 64

-- `std::max(1U, std::bit_width(alphabet > 0 ? alphabet - 1U : 0U))`
unfoldable pub symbol_bits : ℕ → ℕ
unfolding bit_width_loop
symbol_bits alphabet = max 1 (bit_width_loop 64 (alphabet - 1))

-- The mixing loop over the tokens, from index `i` on.
unfoldable pub mixed_loop : List ℕ → ℕ → ℕ → ℕ
mixed_loop [] i mixed = mixed
mixed_loop (x ∷ xs) i mixed =
    mixed_loop xs (i + 1)
      (bit_xor mixed (rotl (mix64 ((x + 0x10001 * (i + 1)) % u64)) (bit_and (i * 9) 63)))

-- The packing loop: `rounds` symbols are left, from `offset` on, and `used` bits are taken. The
-- value, and the bits taken at the end.
unfoldable pub pack_loop : (ℕ → ℕ) → ℕ → ℕ → ℕ → ℕ → ℕ → ℕ × ℕ
pack_loop symbol bits zero offset used packed = (packed, used)
pack_loop symbol bits (suc rounds) offset used packed =
    if leb (used + bits) 64
    then pack_loop symbol bits rounds (offset + 1) (used + bits)
        (bit_or packed ((bit_and (symbol offset) (2 ^ bits - 1) * 2 ^ (64 - used - bits)) % u64))
    else (packed, used)

-- The last lines of both signatures: the mixed value fills the bits that are left.
abbrev pub fill : ℕ → ℕ × ℕ → ℕ
fill mixed (packed, used) =
    if used == 64 then packed else bit_or packed (bit_and mixed (2 ^ (64 - used) - 1))

-- `window[window.size() - 1U - offset]`
abbrev pub recent_token : List ℕ → ℕ → ℕ
recent_token window offset = get_or window (length window - 1 - offset) 0

unfoldable pub token_context_signature : List ℕ → ℕ → ℕ → ℕ
unfolding mixed_loop pack_loop symbol_bits
token_context_signature window alphabet seed =
    if length window == 0
    then mix64 seed
    else fill (mix64 (mixed_loop window 0 seed))
        (pack_loop (recent_token window) (symbol_bits alphabet) (length window) 0 0 0)

-- The loop over the four most recent tokens; `rounds` of them are left.
unfoldable pub recent_loop : List ℕ → ℕ → ℕ → ℕ → ℕ
recent_loop window zero k recent = recent
recent_loop window (suc rounds) k recent =
    recent_loop window rounds (k + 1)
      (bit_or recent (bit_and (recent_token window k) 0xFF * 2 ^ (56 - 8 * k)))

unfoldable pub rolling_signature : List ℕ → ℕ → ℕ
unfolding mixed_loop recent_loop
rolling_signature w seed =
    let h = mix64 (mixed_loop w 0 seed) in
    let count = min 4 (length w) in
    let bits = count * 8 in
    if bits == 0 then h else bit_or (recent_loop w count 0 0) (bit_and h (2 ^ (64 - bits) - 1))

-- `window.size() > lag ? window[window.size() - 1U - lag] : otherwise`
abbrev pub historical_token : List ℕ → ℕ → ℕ → ℕ
historical_token window lag otherwise =
    if ltb lag (length window) then recent_token window lag else otherwise

-- `~high_mask` is the mask of the low bits.
unfoldable pub lagged_token_signature : List ℕ → ℕ → ℕ → ℕ → ℕ
unfolding token_context_signature symbol_bits
lagged_token_signature window alphabet lag seed =
    let current = recent_token window 0 in
    let previous = historical_token window lag current in
    let pair_signature =
      token_context_signature (previous ∷ current ∷ []) alphabet
        (bit_xor seed (mix64 ((lag + 0xA0761D6478BD642F) % u64))) in
    let address_bits = min 64 (2 * symbol_bits alphabet) in
    let low_mask = 2 ^ (64 - address_bits) - 1 in
    let context_mix =
      token_context_signature window alphabet
        (bit_xor seed (mix64 ((lag * 0xE7037ED1A0B428DB) % u64))) in
    if length window == 0
    then mix64 (bit_xor seed lag)
    else (if address_bits == 64
        then pair_signature
        else bit_or (bit_and pair_signature (u64 - 1 - low_mask)) (bit_and context_mix low_mask))

-- The selected symbols of a positional program: at most two after the current token.
unfoldable pub positional_loop : List ℕ → ℕ → AddressOp → List ℕ → ℕ → List ℕ
positional_loop window alphabet op [] count = []
positional_loop window alphabet op (lag ∷ lags) count =
    let historical = historical_token window lag (get_or window 0 0) in
    let modulus = max 1 alphabet in
    let current = recent_token window 0 in
    let selected =
      if op_value op == 1
      then ((current + modulus + 2 ^ 32 - historical % modulus) % 2 ^ 32) % modulus
      else historical in
    if leb 3 count then [] else selected ∷ positional_loop window alphabet op lags (count + 1)

-- The pattern loop of the content programs, from `index` on.
unfoldable pub pattern_mix_loop : List ℕ → List ℕ → ℕ → ℕ → ℕ
pattern_mix_loop window [] index mixed = mixed
pattern_mix_loop window (lag ∷ lags) index mixed =
    let pattern_token = historical_token window lag (get_or window 0 0) in
    pattern_mix_loop window lags (index + 1) (
      bit_xor mixed (
        rotl (mix64 ((pattern_token + 0xD6E8 * (index + 1)) % u64))
          (bit_and ((index + 3) * 11) 63)))

unfoldable pub selected_mix_loop : List ℕ → ℕ → ℕ → ℕ
selected_mix_loop [] index mixed = mixed
selected_mix_loop (s ∷ ss) index mixed =
    selected_mix_loop ss (index + 1)
      (bit_xor mixed (rotl (mix64 ((s + 0x9E37 * (index + 1)) % u64)) (bit_and (index * 13) 63)))

-- The array that the source fills from the lags.
abbrev pub padded_lags : List ℕ → List ℕ
padded_lags [] = 0 ∷ 0 ∷ []
padded_lags (a ∷ []) = a ∷ 0 ∷ []
padded_lags (a ∷ b ∷ rest) = a ∷ b ∷ []

unfoldable pub selected_symbols : List ℕ → ℕ → List ℕ → AddressOp → List ℕ
unfolding positional_loop
selected_symbols window alphabet lags op =
    let binding =
      resolve_address_binding_state window
        (record { lags = padded_lags lags; arity = min (length lags) 2; op = op }) in
    recent_token window 0
    ∷ (if is_positional_op op
        then positional_loop window alphabet op lags 1
        else (if binding.matched then 1 else 0)
          ∷ (if binding.matched then binding.matched_successor else 0)
          ∷ [])

unfoldable pub address_program_signature : List ℕ → ℕ → List ℕ → AddressOp → ℕ → ℕ
unfolding symbol_bits pack_loop pattern_mix_loop selected_mix_loop selected_symbols
    token_context_signature
address_program_signature window alphabet lags op seed =
    let selected = selected_symbols window alphabet lags op in
    let binding =
      resolve_address_binding_state window
        (record { lags = padded_lags lags; arity = min (length lags) 2; op = op }) in
    let m1 =
      bit_xor (bit_xor seed (mix64 (length selected)))
        (mix64 ((op_value op + 0xD1B54A32D192ED03) % u64)) in
    let m2 =
      if is_positional_op op
      then m1
      else pattern_mix_loop window lags 0
          (bit_xor m1 (mix64 ((binding.matched_distance + 0xA24BAED4963EE407) % u64))) in
    let m3 = selected_mix_loop selected 0 m2 in
    let mixed = mix64 (bit_xor m3 (token_context_signature window alphabet seed)) in
    if length window == 0
    then mix64 seed
    else fill mixed (
        pack_loop (λ index. get_or selected index 0) (symbol_bits alphabet) (length selected) 0 0 0)
