-- ===== src/Topology/Lookup.antt =====
-- modules/machine_topology.cpp: the searches for a channel, and the lineage of a proposal.
pub mod Enabled
use sparse_branch_machine.Base.{
  ℕ, zero, suc, ◌+◌, ◌-◌, ◌%◌, ◌^◌, Bool, true, false, ◌||◌, ◌&&◌, not, ltb, ◌==◌, if◌then◌else◌,
  Option, none, some, List, [], ◌∷◌, get_elem?, get_or, length,
}
use sparse_branch_machine.Address.{
  AddressOp, AddressProgram, invalid_channel, is_content_follow_op, same_program,
  singleton_address_program, tuple, delta_mod, content_match, content_follow, content_follow_multi2,
  content_follow_multi3,
}
use sparse_branch_machine.Address.Binding.{is_positional_op}
use sparse_branch_machine.Topology.{ChannelState, channel_enabled}

abbrev pub is_tuple : AddressOp → Bool
is_tuple tuple = true
is_tuple delta_mod = false
is_tuple content_match = false
is_tuple content_follow = false
is_tuple content_follow_multi2 = false
is_tuple content_follow_multi3 = false

abbrev pub is_content_match : AddressOp → Bool
is_content_match content_match = true
is_content_match tuple = false
is_content_match delta_mod = false
is_content_match content_follow = false
is_content_match content_follow_multi2 = false
is_content_match content_follow_multi3 = false

-- The first `arity - 1` lags; the others of the array are 0.
abbrev pub prefix_lags : ℕ → List ℕ → List ℕ
prefix_lags arity lags =
    (if ltb 0 arity then get_or lags 0 0 else 0) ∷ (if ltb 1 arity then get_or lags 1 0 else 0) ∷ []

module _ {float double : Type 0} where
  -- `if (!channel_enabled(channel)) continue;`, then the loop's test on the program.
  abbrev pub channel_test : List (ChannelState float double) → (AddressProgram → Bool) → ℕ → Bool
  channel_test topology test channel = elim (get_elem? topology channel) [
    | none ↦ false
    | some state ↦ channel_enabled topology channel && test state.program
  ]

  -- The shape of the three search loops: the first channel that passes, as a `uint8_t`.
  unfoldable pub search_loop :
      ℕ → ℕ → List (ChannelState float double) → (AddressProgram → Bool) → ℕ
  search_loop zero channel topology test = invalid_channel
  search_loop (suc rounds) channel topology test =
      if channel_test topology test channel
      then channel % 2 ^ 8
      else search_loop rounds (channel + 1) topology test

  unfoldable pub find_channel_for_program : List (ChannelState float double) → AddressProgram → ℕ
  unfolding search_loop same_program
  find_channel_for_program topology p =
      search_loop (length topology) 0 topology (λ q. same_program q p)

  unfoldable pub find_positional_channel_for_lag : List (ChannelState float double) → ℕ → ℕ
  unfolding search_loop
  find_positional_channel_for_lag topology lag =
      let exact =
        search_loop (length topology) 0 topology
          (λ q. is_tuple q.op && q.arity == 1 && get_or q.lags 0 0 == lag) in
      if not (exact == invalid_channel)
      then exact
      else search_loop (length topology) 0 topology
          (λ q. is_positional_op q.op && not (q.arity == 0) && get_or q.lags (q.arity - 1) 0 == lag)

  unfoldable pub find_prefix_channel : List (ChannelState float double) → AddressProgram → ℕ
  unfolding find_channel_for_program find_positional_channel_for_lag
  find_prefix_channel topology p =
      let exact =
        if ltb 1 p.arity
        then find_channel_for_program topology (record {
          lags = prefix_lags (p.arity - 1) p.lags;
          arity = (p.arity - 1) % 2 ^ 8;
          op = p.op;
        })
        else invalid_channel in
      let at_lag = find_positional_channel_for_lag topology (get_or p.lags (p.arity - 1) 0) in
      let first =
        if length topology == 0 || not (channel_enabled topology 0) then invalid_channel else 0 in
      if p.arity == 0
      then invalid_channel
      else (if not (exact == invalid_channel)
          then exact
          else (if not (at_lag == invalid_channel) then at_lag else first))

  unfoldable pub resolve_channel_lineage : List (ChannelState float double) → AddressProgram → ℕ × ℕ
  unfolding find_channel_for_program find_positional_channel_for_lag find_prefix_channel
  resolve_channel_lineage topology p =
      let max_lag = get_or p.lags (p.arity - 1) 0 in
      let at_lag = find_positional_channel_for_lag topology max_lag in
      let matching =
        find_channel_for_program topology
          (record (singleton_address_program max_lag) { op = content_match }) in
      let dependency = if matching == invalid_channel then at_lag else matching in
      let parent = find_prefix_channel topology p in
      if p.arity == 0
      then (invalid_channel, invalid_channel)
      else (if is_content_match p.op
          then (at_lag, at_lag)
          else (if is_content_follow_op p.op then (dependency, dependency) else (parent, parent)))
