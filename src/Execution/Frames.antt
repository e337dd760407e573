-- ===== src/Execution/Frames.antt =====
-- Which frames there are, what a frame says of its program, and how the frames are counted.
use sparse_branch_machine.Base.{
  ℕ, zero, suc, ◌+◌, ◌%◌, ◌^◌, ◌≤◌, ◌<◌, ◌≡◌, inl, inr, refl, sym, ap, ◌∙◌, arith, Bool, true,
  false, Bool-cases, ◌||◌, ◌==◌, if◌then◌else◌, some, Option-cases, List, [], ◌∷◌, get_elem?, set,
  replicate, map, length, length-set, length-map,
}
use mathlib.Core.Option.{some-injective}
use sparse_branch_machine.Address.{AddressProgram}
use sparse_branch_machine.Address.Binding.Resolve.{IsBound, resolve_address_binding_state-IsBound}
use sparse_branch_machine.Topology.{ChannelState, channel_enabled}
use sparse_branch_machine.Topology.Reuse.{resized}
use sparse_branch_machine.Execution.{
  FloatOps, AddressExecutionFrame, ExecutionState, ExecutionConfig, execute_address_program,
  frame_loop, frame_index, link_frame, linked_frame, count_frame, link_loop,
  execute_address_programs,
}

-- The enabled channels from one on, in order, as the frames store them.
pub enabled_from :
    {float double : Type 0}
    → List (ChannelState float double)
    → List (ChannelState float double)
    → ℕ
    → List ℕ
enabled_from topology [] channel = []
enabled_from topology (state ∷ rest) channel =
    if channel_enabled topology channel
    then channel % 2 ^ 8 ∷ enabled_from topology rest (channel + 1)
    else enabled_from topology rest (channel + 1)

module _ {float double : Type 0} (ops : FloatOps float double) where
  -- In a window of at most 2 ^ 32 tokens, the value returned is the frame's `matched`, and when it is
  -- true the frame's binding state is bound to the window and gives the frame's index, successor and
  -- dependency.
  pub execute_address_program-IsBound :
      (window : List ℕ) (alphabet : ℕ) (program : AddressProgram) (seed : ℕ)
      → length window ≤ 2 ^ 32
      → let (frame, result) = execute_address_program ops window alphabet program seed in
        (result ≡ frame.matched)
        × (result ≡ true
            → IsBound window program frame.binding_state
              × (frame.matched_index ≡ frame.binding_state.matched_index)
              × (frame.successor ≡ frame.binding_state.matched_successor)
              × (frame.dependency ≡ frame.binding_state.matched_distance))
  unfolding execute_address_program
  execute_address_program-IsBound window alphabet program seed h =
      elim (Bool-cases (length window == 0 || program.arity == 0)) [
        | inl nothing ↦ rw nothing (refl, λ e. absurd (cc))
        | inr something ↦ rw something (
          refl,
          λ e. ((resolve_address_binding_state-IsBound window program h).0 e, refl, refl, refl),
        )
      ]

  pub frame_channels : List (AddressExecutionFrame float) → List ℕ
  frame_channels frames = map (λ (frame : AddressExecutionFrame float). frame.channel) frames

  frame_loop-channels :
      (config : ExecutionConfig) (topology : List (ChannelState float double)) (window : List ℕ)
      (rest : List (ChannelState float double)) (channel : ℕ)
      → frame_channels (frame_loop ops config topology window rest channel)
        ≡ enabled_from topology rest channel
  unfolding frame_loop enabled_from frame_channels
  frame_loop-channels config topology window [] channel = refl
  frame_loop-channels config topology window (state ∷ rest) channel =
      elim (Bool-cases (channel_enabled topology channel)) [
        | inl on ↦ rw (on, frame_loop-channels config topology window rest (channel + 1))
        | inr off ↦ rw off (frame_loop-channels config topology window rest (channel + 1))
      ]

  linked-channel :
      (frames : List (AddressExecutionFrame float)) (frame : AddressExecutionFrame float)
      → (linked_frame ops frames frame).channel ≡ frame.channel
  unfolding link_frame
  linked-channel frames frame =
      elim (Option-cases (frame_index ops frames frame.dependency_channel 0)) [
        | inl nothing ↦ rw (linked_frame, nothing) refl
        | inr (index, e) ↦ rw (linked_frame, e) (either _ _ _ refl refl)
      ]
    where
      either :
          (b : Bool) (x y : AddressExecutionFrame float)
          → x.channel ≡ frame.channel
          → y.channel ≡ frame.channel
          → (if b then x else y).channel ≡ frame.channel
      either true x y p q = p
      either false x y p q = q

  set-channels :
      (frames : List (AddressExecutionFrame float)) (index : ℕ)
      (frame new : AddressExecutionFrame float)
      → get_elem? frames index ≡ some frame
      → new.channel ≡ frame.channel
      → frame_channels (set frames index new) ≡ frame_channels frames
  unfolding frame_channels
  set-channels [] index frame new e c = refl
  set-channels (x ∷ xs) zero frame new e c =
      let h : x ≡ frame = some-injective x frame e in rw (c, h)
  set-channels (x ∷ xs) (suc index) frame new e c = rw (set-channels xs index frame new e c)

  get_elem?-some {ℓ} :
      {A : Type ℓ} (xs : List A) (i : ℕ) → i < length xs → (a : A) × (get_elem? xs i ≡ some a)
  get_elem?-some [] i h = absurd (omega arith)
  get_elem?-some (x ∷ xs) zero h = (x, refl)
  get_elem?-some (x ∷ xs) (suc i) h = get_elem?-some xs i (omega arith)

  -- The counters of a state, moved on by a number of frames.
  abbrev pub IsCountedOn : ExecutionState double → ℕ → ExecutionState double → Type 0
  IsCountedOn s n s' =
      (s'.execution_frames ≡ s.execution_frames + n) × (s'.hits + s'.misses ≡ s.hits + s.misses + n)

  count_frame-IsCountedOn :
      (config : ExecutionConfig) (size : ℕ) (frame : AddressExecutionFrame float)
      (s : ExecutionState double)
      → s.execution_frames + 1 < 2 ^ 64
      → s.hits + s.misses + 1 < 2 ^ 64
      → IsCountedOn s 1 (count_frame ops config size frame s)
  unfolding count_frame
  count_frame-IsCountedOn config size frame s h g = elim (Bool-cases frame.matched) [
    | inl hit ↦ rw hit (omega arith, omega arith)
    | inr miss ↦ rw miss (omega arith, omega arith)
  ]

  link_loop-lem :
      (config : ExecutionConfig) (size rounds index : ℕ)
      (frames : List (AddressExecutionFrame float)) (s : ExecutionState double)
      → index + rounds ≡ length frames
      → s.execution_frames + rounds < 2 ^ 64
      → s.hits + s.misses + rounds < 2 ^ 64
      → let r = link_loop ops config size rounds index frames s in
        (frame_channels r.0 ≡ frame_channels frames) × IsCountedOn s rounds r.1
  unfolding link_loop
  link_loop-lem config size zero index frames s e h g = (refl, (omega arith, omega arith))
  link_loop-lem config size (suc rounds) index frames s e h g =
      let (frame, there) = get_elem?-some frames index (omega arith) in
      let linked = linked_frame ops frames frame in
      let counted = count_frame-IsCountedOn config size linked s (omega arith) (omega arith) in
      let rest =
        link_loop-lem config size rounds (index + 1) (set frames index linked)
          (count_frame ops config size linked s) (omega (arith, length-set frames index linked))
          (omega (arith, counted)) (omega (arith, counted)) in
      rw (link_loop, there)
        (
          rest.0 ∙ set-channels frames index frame linked there (linked-channel frames frame),
          (omega (arith, rest.1, counted), omega (arith, rest.1, counted)),
        )

  length-enabled :
      (topology rest : List (ChannelState float double)) (channel : ℕ)
      → length (enabled_from topology rest channel) ≤ length rest
  unfolding enabled_from
  length-enabled topology [] channel = omega arith
  length-enabled topology (state ∷ rest) channel =
      elim (Bool-cases (channel_enabled topology channel)) [
        | inl on ↦ rw on (omega (arith, length-enabled topology rest (channel + 1)))
        | inr off ↦ rw off (omega (arith, length-enabled topology rest (channel + 1)))
      ]

  length-frame_channels :
      (frames : List (AddressExecutionFrame float)) → length (frame_channels frames) ≡ length frames
  unfolding frame_channels
  length-frame_channels frames =
      length-map (λ (frame : AddressExecutionFrame float). frame.channel) frames

  -- Executing the programs leaves one frame to each enabled channel, in the channels' order, and, where
  -- the counters do not overflow, counts each of these frames once, as a hit or as a miss.
  pub execute_address_programs-channels :
      (config : ExecutionConfig) (topology : List (ChannelState float double)) (window : List ℕ)
      (s : ExecutionState double)
      → s.execution_frames + length topology < 2 ^ 64
      → s.hits + s.misses + length topology < 2 ^ 64
      → let (frames, s') = execute_address_programs ops config topology window s in
        (frame_channels frames ≡ enabled_from topology topology 0)
        × IsCountedOn s (length (enabled_from topology topology 0)) s'
  unfolding execute_address_programs
  execute_address_programs-channels config topology window s h g =
      let frames = frame_loop ops config topology window topology 0 in
      let named = frame_loop-channels config topology window topology 0 in
      let few = length-enabled topology topology 0 in
      let same : length frames ≡ length (enabled_from topology topology 0) =
        sym (length-frame_channels frames) ∙ ap length named in
      let cleared : ExecutionState double = record s {
        signature_buffer = replicate (length s.signature_buffer) 0;
        reuse = record s.reuse { channels = resized (length topology) s.reuse.channels };
      } in
      let r =
        link_loop-lem config (length topology) (length frames) 0 frames cleared (omega arith)
          (omega (arith, few)) (omega (arith, few)) in
      (
        r.0 ∙ named,
        (
          r.1.0 ∙ ap (λ (n : ℕ). s.execution_frames + n) same,
          r.1.1 ∙ ap (λ (n : ℕ). s.hits + s.misses + n) same,
        ),
      )
