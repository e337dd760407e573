-- ===== src/Address.antt =====
-- include/sbm/types.hpp: address programs, their kinds, and their key.
pub mod Key
pub mod Match
pub mod Binding
pub mod Proposals
pub mod Signature
use sparse_branch_machine.Base.{
  ℕ, zero, suc, ◌+◌, ◌-◌, ◌*◌, ◌/◌, ◌%◌, ◌^◌, bit_or, bit_and, Bool, true, false, ◌||◌, ◌&&◌, ltb,
  ◌==◌, if◌then◌else◌, List, [], ◌∷◌, get_or,
}

-- `kInvalidChannel`, which is `UINT8_MAX`.
abbrev pub invalid_channel : ℕ
invalid_channel = 255

pub data AddressOp : Type 0 where
  tuple delta_mod content_match content_follow content_follow_multi2 content_follow_multi3 :
      AddressOp

pub data AddressBindingKind : Type 0 where
  no_binding positional match_binding follow_binding : AddressBindingKind

pub data AddressStateKind : Type 0 where
  no_state token_window positional_signature content_binding follow_state : AddressStateKind

pub data AddressGraphEdgeKind : Type 0 where
  no_edge prefix positional_dependency content_match_dependency content_follow_call :
      AddressGraphEdgeKind

-- The underlying values of the enumerations.
abbrev pub op_value : AddressOp → ℕ
op_value tuple = 0
op_value delta_mod = 1
op_value content_match = 2
op_value content_follow = 3
op_value content_follow_multi2 = 4
op_value content_follow_multi3 = 5

abbrev pub state_value : AddressStateKind → ℕ
state_value no_state = 0
state_value token_window = 1
state_value positional_signature = 2
state_value content_binding = 3
state_value follow_state = 4

abbrev pub edge_value : AddressGraphEdgeKind → ℕ
edge_value no_edge = 0
edge_value prefix = 1
edge_value positional_dependency = 2
edge_value content_match_dependency = 3
edge_value content_follow_call = 4

-- `lags` is an array of two; `arity` says how many of them count.
pub record AddressProgram : Type 0 where
  pub lags : List ℕ
  pub arity : ℕ
  pub op : AddressOp

pub record AddressBindingState : Type 0 where
  pub current_token : ℕ
  pub matched_token : ℕ
  pub matched_successor : ℕ
  pub matched_index : ℕ
  pub matched_distance : ℕ
  pub pattern_span : ℕ
  pub binding_key : ℕ
  pub pattern_terms : ℕ
  pub matched : Bool

-- The comparison that the source leaves to the compiler.
unfoldable pub same_program : AddressProgram → AddressProgram → Bool
same_program p q =
    get_or p.lags 0 0 == get_or q.lags 0 0
    && get_or p.lags 1 0 == get_or q.lags 1 0
    && p.arity == q.arity
    && op_value p.op == op_value q.op

abbrev pub singleton_address_program : ℕ → AddressProgram
singleton_address_program lag = record { lags = lag ∷ 0 ∷ []; arity = 1; op = tuple }

-- The loop of `address_program_key`: `rounds` are left, from `index` on.
unfoldable pub key_loop : ℕ → ℕ → List ℕ → ℕ → ℕ
key_loop zero index lags key = key
key_loop (suc rounds) index lags key =
    key_loop rounds (index + 1) lags
      (bit_or key ((bit_and (get_or lags index 0) 0x0FFFFFFF * 2 ^ (28 * index)) % 2 ^ 64))

unfoldable pub address_program_key : AddressProgram → ℕ
unfolding key_loop
address_program_key p =
    key_loop p.arity 0 p.lags (bit_or ((p.arity * 2 ^ 56) % 2 ^ 64) (op_value p.op * 2 ^ 48))

abbrev pub is_content_follow_op : AddressOp → Bool
is_content_follow_op content_follow = true
is_content_follow_op content_follow_multi2 = true
is_content_follow_op content_follow_multi3 = true
is_content_follow_op tuple = false
is_content_follow_op delta_mod = false
is_content_follow_op content_match = false

abbrev pub content_follow_hop_count : AddressOp → ℕ
content_follow_hop_count content_follow_multi2 = 2
content_follow_hop_count content_follow_multi3 = 3
content_follow_hop_count content_follow = 1
content_follow_hop_count tuple = 1
content_follow_hop_count delta_mod = 1
content_follow_hop_count content_match = 1

abbrev pub address_program_input_state : AddressProgram → AddressStateKind
address_program_input_state p = if is_content_follow_op p.op then content_binding else token_window

abbrev pub output_state_of : AddressOp → AddressStateKind
output_state_of content_match = content_binding
output_state_of content_follow = follow_state
output_state_of content_follow_multi2 = follow_state
output_state_of content_follow_multi3 = follow_state
output_state_of tuple = positional_signature
output_state_of delta_mod = positional_signature

abbrev pub address_program_output_state : AddressProgram → AddressStateKind
address_program_output_state p = output_state_of p.op

abbrev pub address_program_required_dependency_binding : AddressProgram → AddressBindingKind
address_program_required_dependency_binding p =
    if is_content_follow_op p.op then match_binding else no_binding

-- `dependency_binding == AddressBindingKind::ContentMatch`, the one kind that is ever required.
abbrev pub is_match_binding : AddressBindingKind → Bool
is_match_binding match_binding = true
is_match_binding no_binding = false
is_match_binding positional = false
is_match_binding follow_binding = false

abbrev pub address_dependency_satisfied : AddressProgram → AddressBindingKind → Bool
address_dependency_satisfied p dependency_binding =
    if is_content_follow_op p.op then is_match_binding dependency_binding else true

abbrev pub dependency_edge_of : AddressOp → ℕ → AddressGraphEdgeKind
dependency_edge_of content_match arity = content_match_dependency
dependency_edge_of content_follow arity = content_follow_call
dependency_edge_of content_follow_multi2 arity = content_follow_call
dependency_edge_of content_follow_multi3 arity = content_follow_call
dependency_edge_of tuple arity = if ltb 1 arity then prefix else positional_dependency
dependency_edge_of delta_mod arity = if ltb 1 arity then prefix else positional_dependency

abbrev pub address_dependency_edge_kind : AddressProgram → AddressGraphEdgeKind
address_dependency_edge_kind p = dependency_edge_of p.op p.arity

abbrev pub address_parent_edge_kind : AddressProgram → AddressGraphEdgeKind
address_parent_edge_kind p = if ltb 1 p.arity then prefix else address_dependency_edge_kind p

-- `binding_kind` of modules/address_interpreter.cpp.
abbrev pub binding_kind : AddressOp → AddressBindingKind
binding_kind tuple = positional
binding_kind delta_mod = positional
binding_kind content_match = match_binding
binding_kind content_follow = follow_binding
binding_kind content_follow_multi2 = follow_binding
binding_kind content_follow_multi3 = follow_binding
