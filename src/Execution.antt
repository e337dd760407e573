-- ===== src/Execution.antt =====
-- modules/address_interpreter.cpp and modules/machine_topology.cpp: one program's frame, and
-- `execute_address_programs`. The arithmetic on `float` and `double` is a parameter.
pub mod Frames
use sparse_branch_machine.Base.{
  ℕ, zero, suc, ◌+◌, ◌-◌, ◌*◌, ◌%◌, ◌^◌, min, bit_xor, Bool, true, false, ◌||◌, ◌&&◌, not, ltb, leb,
  ◌==◌, if◌then◌else◌, Option, none, some, List, [], ◌∷◌, ◌++◌, get_elem?, get_or, set, replicate,
  take, length,
}
use sparse_branch_machine.Mix.{mix64}
use sparse_branch_machine.Address.{
  AddressProgram, AddressBindingState, AddressBindingKind, AddressStateKind, no_binding, positional,
  match_binding, follow_binding, invalid_channel, address_program_key, address_program_input_state,
  address_program_output_state, address_program_required_dependency_binding,
  address_dependency_satisfied, binding_kind, content_follow_hop_count,
}
use sparse_branch_machine.Address.Binding.{
  resolve_address_binding_state, is_positional_op, last_lag,
}
use sparse_branch_machine.Address.Signature.{address_program_signature}
use sparse_branch_machine.Topology.{ChannelState, channel_enabled}
use sparse_branch_machine.Topology.Reuse.{BindingReuse, resized, next_u64, observe_binding_reuse}

-- The floating-point operations that the frames use.
pub record FloatOps (float double : Type 0) : Type 0 where
  pub float_of : ℕ → float
  pub add_float : float → float → float
  pub double_of : ℕ → double
  pub add_double : double → double → double
  pub widen : float → double

pub record AddressExecutionFrame (float : Type 0) : Type 0 where
  pub program : AddressProgram
  pub input_state : AddressStateKind
  pub output_state : AddressStateKind
  pub binding : AddressBindingKind
  pub required_dependency_binding : AddressBindingKind
  pub binding_state : AddressBindingState
  pub channel : ℕ
  pub parent_channel : ℕ
  pub dependency_channel : ℕ
  pub source_index : ℕ
  pub matched_index : ℕ
  pub successor : ℕ
  pub dependency : ℕ
  pub dependency_signature : ℕ
  pub dependency_binding_key : ℕ
  pub call_key : ℕ
  pub signature : ℕ
  pub description_cost : float
  pub execution_cost : float
  pub matched : Bool
  pub call_matched : Bool

abbrev pub binding_index : AddressBindingKind → ℕ
binding_index no_binding = 0
binding_index positional = 1
binding_index match_binding = 2
binding_index follow_binding = 3

-- What `execute_address_programs` writes besides the frames.
pub record ExecutionState (double : Type 0) : Type 0 where
  pub signature_buffer : List ℕ
  pub reuse : BindingReuse
  pub execution_frames : ℕ
  pub hits : ℕ
  pub misses : ℕ
  pub kind_frames : List ℕ
  pub kind_hits : List ℕ
  pub kind_distance_sum : List double
  pub kind_span_sum : List double
  pub description_total : double
  pub execution_total : double

-- The fields of `Config` that are read, with the step and whether the call learns.
pub record ExecutionConfig : Type 0 where
  pub token_alphabet : ℕ
  pub seed : ℕ
  pub reuse_cap : ℕ
  pub total_steps : ℕ
  pub learn : Bool

module _ {float double : Type 0} (ops : FloatOps float double) where
  -- The frame; the value that the function returns is its field `matched`.
  unfoldable pub execute_address_program :
      List ℕ → ℕ → AddressProgram → ℕ → AddressExecutionFrame float × Bool
  execute_address_program window alphabet program seed =
      let state = resolve_address_binding_state window program in
      let blank : AddressExecutionFrame float = record {
        program = program;
        input_state = address_program_input_state program;
        output_state = address_program_output_state program;
        binding = binding_kind program.op;
        required_dependency_binding = address_program_required_dependency_binding program;
        binding_state = state;
        channel = invalid_channel;
        parent_channel = invalid_channel;
        dependency_channel = invalid_channel;
        source_index = 0;
        matched_index = 0;
        successor = 0;
        dependency = 0;
        dependency_signature = 0;
        dependency_binding_key = 0;
        call_key = 0;
        signature =
            address_program_signature window alphabet (take program.arity program.lags) program.op
              seed;
        description_cost = ops.add_float (ops.float_of 1) (ops.float_of program.arity);
        execution_cost = ops.float_of 1;
        matched = false;
        call_matched = false;
      } in
      let cost =
        if is_positional_op program.op
        then program.arity
        else content_follow_hop_count program.op * min (last_lag program) (length window - 1) in
      let done : AddressExecutionFrame float = record blank {
        matched = state.matched;
        source_index = state.matched_index;
        matched_index = state.matched_index;
        successor = state.matched_successor;
        dependency = state.matched_distance;
        execution_cost = ops.add_float (ops.float_of 1) (ops.float_of cost);
      } in
      if length window == 0 || program.arity == 0 then (blank, false) else (done, state.matched)

  abbrev pub channel_frame :
      ExecutionConfig → List ℕ → ℕ → ChannelState float double → AddressExecutionFrame float
  channel_frame config window channel state =
      let seed =
        bit_xor config.seed
          (mix64 ((address_program_key state.program + 0x9E3779B97F4A7C15) % 2 ^ 64)) in
      record ((execute_address_program window config.token_alphabet state.program seed).0) {
        channel = channel % 2 ^ 8;
        parent_channel = state.parent_channel;
        dependency_channel = state.dependency_channel;
      }

  -- The first loop, over the channels: `rest` are left, from `channel` on.
  unfoldable pub frame_loop :
      ExecutionConfig
      → List (ChannelState float double)
      → List ℕ
      → List (ChannelState float double)
      → ℕ
      → List (AddressExecutionFrame float)
  unfolding execute_address_program
  frame_loop config topology window [] channel = []
  frame_loop config topology window (state ∷ rest) channel =
      if channel_enabled topology channel
      then channel_frame config window channel state
        ∷ frame_loop config topology window rest (channel + 1)
      else frame_loop config topology window rest (channel + 1)

  -- `frame_index_by_channel_`: the index of a channel's frame, for the channels below 8.
  unfoldable pub frame_index : List (AddressExecutionFrame float) → ℕ → ℕ → Option ℕ
  frame_index [] channel index = none
  frame_index (frame ∷ rest) channel index =
      if frame.channel == channel && ltb channel 8
      then some index
      else frame_index rest channel (index + 1)

  -- One frame's dependency is read and, if it can be called, mixed into the signature.
  unfoldable pub link_frame :
      AddressExecutionFrame float → AddressExecutionFrame float → AddressExecutionFrame float
  link_frame target frame =
      let read : AddressExecutionFrame float = record frame {
        dependency_signature = target.signature;
        dependency_binding_key = target.binding_state.binding_key;
      } in
      let call_key = mix64 (
        bit_xor (bit_xor frame.signature (mix64 ((target.signature + 0x517CC1B727220A95) % 2 ^ 64)))
          (mix64
            ((target.binding_state.binding_key + address_program_key frame.program) % 2 ^ 64))) in
      let called : AddressExecutionFrame float = record read {
        call_key = call_key;
        signature = mix64 (bit_xor (bit_xor frame.signature call_key) 0xA24BAED4963EE407);
        call_matched = true;
        execution_cost = ops.add_float frame.execution_cost (ops.float_of 1);
      } in
      if target.matched
        && address_dependency_satisfied frame.program target.binding
        && not (target.binding_state.binding_key == 0)
      then called
      else read

  abbrev pub linked_frame :
      List (AddressExecutionFrame float) → AddressExecutionFrame float → AddressExecutionFrame float
  linked_frame frames frame = elim (frame_index frames frame.dependency_channel 0) [
    | none ↦ frame
    | some index ↦ link_frame (get_or frames index frame) frame
  ]

  abbrev pub add_at : List double → ℕ → ℕ → List double
  add_at sums index value = elim (get_elem? sums index) [
    | none ↦ sums
    | some sum ↦ set sums index (ops.add_double sum (ops.double_of value))
  ]

  abbrev pub bump_at : List ℕ → ℕ → List ℕ
  bump_at counts index = set counts index (next_u64 (get_or counts index 0))

  -- The counters after a frame, with the number of channels.
  unfoldable pub count_frame :
      ExecutionConfig
      → ℕ
      → AddressExecutionFrame float
      → ExecutionState double
      → ExecutionState double
  count_frame config size frame s =
      let kind = binding_index frame.binding in
      let bound = frame.binding_state.matched in
      let key = frame.binding_state.binding_key in
      record {
        signature_buffer = set s.signature_buffer frame.channel frame.signature;
        reuse =
            if config.learn && not (key == 0)
            then observe_binding_reuse size config.reuse_cap config.total_steps s.reuse
                frame.channel key
            else s.reuse;
        execution_frames = next_u64 s.execution_frames;
        hits = if frame.matched then next_u64 s.hits else s.hits;
        misses = if frame.matched then s.misses else next_u64 s.misses;
        kind_frames = bump_at s.kind_frames kind;
        kind_hits = if bound then bump_at s.kind_hits kind else s.kind_hits;
        kind_distance_sum =
            if bound
            then add_at s.kind_distance_sum kind frame.binding_state.matched_distance
            else s.kind_distance_sum;
        kind_span_sum =
            if bound
            then add_at s.kind_span_sum kind frame.binding_state.pattern_span
            else s.kind_span_sum;
        description_total = ops.add_double s.description_total (ops.widen frame.description_cost);
        execution_total = ops.add_double s.execution_total (ops.widen frame.execution_cost);
      }

  -- The second loop: a frame is linked to the frames as they are by then.
  unfoldable pub link_loop :
      ExecutionConfig
      → ℕ
      → ℕ
      → ℕ
      → List (AddressExecutionFrame float)
      → ExecutionState double
      → List (AddressExecutionFrame float) × ExecutionState double
  unfolding frame_index link_frame count_frame
  link_loop config size zero index frames s = (frames, s)
  link_loop config size (suc rounds) index frames s = elim (get_elem? frames index) [
    | none ↦ (frames, s)
    | some frame ↦
        let linked = linked_frame frames frame in
        link_loop config size rounds (index + 1) (set frames index linked)
          (count_frame config size linked s)
  ]

  unfoldable pub execute_address_programs :
      ExecutionConfig
      → List (ChannelState float double)
      → List ℕ
      → ExecutionState double
      → List (AddressExecutionFrame float) × ExecutionState double
  unfolding frame_loop link_loop
  execute_address_programs config topology window s =
      let frames = frame_loop config topology window topology 0 in
      let cleared : ExecutionState double = record s {
        signature_buffer = replicate (length s.signature_buffer) 0;
        reuse = record s.reuse { channels = resized (length topology) s.reuse.channels };
      } in
      link_loop config (length topology) (length frames) 0 frames cleared

  -- The loop of the legacy mode: `rest` are left, from `channel` on.
  unfoldable pub legacy_loop :
      ExecutionConfig
      → List (ChannelState float double)
      → List ℕ
      → List (ChannelState float double)
      → ℕ
      → List ℕ
      → List ℕ
  legacy_loop config topology window [] channel buffer = buffer
  legacy_loop config topology window (state ∷ rest) channel buffer =
      let p = state.program in
      let seed =
        bit_xor config.seed (mix64 ((address_program_key p + 0x9E3779B97F4A7C15) % 2 ^ 64)) in
      let signature =
        address_program_signature window config.token_alphabet (take p.arity p.lags) p.op seed in
      legacy_loop config topology window rest (channel + 1)
        (if channel_enabled topology channel then set buffer channel signature else buffer)

  -- The signatures of the channels, in the legacy mode or by executing the programs.
  unfoldable pub make_signatures :
      Bool
      → ExecutionConfig
      → List (ChannelState float double)
      → List ℕ
      → ExecutionState double
      → List ℕ × ExecutionState double
  unfolding legacy_loop execute_address_programs
  make_signatures legacy config topology window s =
      let filled : ExecutionState double = record s {
        signature_buffer =
            legacy_loop config topology window topology 0 (replicate (length s.signature_buffer) 0);
      } in
      let executed = (execute_address_programs config topology window s).1 in
      if legacy
      then (take (length topology) filled.signature_buffer, filled)
      else (take (length topology) executed.signature_buffer, executed)
