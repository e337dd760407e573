-- ===== src/Lifecycle/Closure.antt =====
-- modules/machine_topology.cpp: `restore_dependency_closure`, the restored channels that follow one.
pub mod Restores
pub mod Ends
use sparse_branch_machine.Base.{
  ℕ, zero, suc, ◌+◌, ◌-◌, ◌*◌, Bool, true, false, ◌||◌, ◌&&◌, not, ltb, leb, ◌==◌, if◌then◌else◌,
  Option, none, some, List, [], ◌∷◌, get_elem?, get_or, set, replicate, length, Result, ok, diverge,
  ◌>>=◌, and_then,
}
use sparse_branch_machine.Lifecycle.{ValueOps, Machine, LifecycleConfig}
use sparse_branch_machine.Lifecycle.Retire.{restore_channel}
use sparse_branch_machine.Topology.{
  ChannelState, ChannelPhase, seed_phase, probe_phase, active_phase, retired_phase,
  quarantined_phase, recoverable_phase, channel_enabled,
}

-- Every phase but `Retired`.
abbrev pub is_present : ChannelPhase → Bool
is_present retired_phase = false
is_present seed_phase = true
is_present probe_phase = true
is_present active_phase = true
is_present quarantined_phase = true
is_present recoverable_phase = true

-- Enough rounds: every channel is marked once, and each marking pushes fewer than all channels.
abbrev pub close_fuel : ℕ → ℕ
close_fuel size = size * size + 1

-- What the loop holds: the machine, the stack with its top first, the marks and the count.
pub record Closure (float double : Type 0) : Type 0 where
  pub machine : Machine float double
  pub stack : List ℕ
  pub visited : List Bool
  pub restored : ℕ

module _ {float double : Type 0} where
  -- The inner loop over the channels from `candidate` on, which pushes those that depend on one.
  unfoldable pub push_dependents :
      ℕ → List Bool → ℕ → List (ChannelState float double) → List ℕ → List ℕ
  push_dependents current visited candidate [] stack = stack
  push_dependents current visited candidate (state ∷ topology) stack =
      push_dependents current visited (candidate + 1) topology (
        if not (get_or visited candidate false)
          && state.dependency_channel == current
          && is_present state.phase
        then candidate ∷ stack
        else stack)

  -- The channels after the first: `candidate` starts at 1.
  abbrev pub after_first : List (ChannelState float double) → List (ChannelState float double)
  after_first [] = []
  after_first (state ∷ topology) = topology

  module _ (ops : ValueOps float double) (config : LifecycleConfig float) where
    -- One round, after `current` was popped and found to be a channel without a mark.
    abbrev pub visit_channel : ℕ → List ℕ → Closure float double → Closure float double
    visit_channel current stack closure =
        let visited = set closure.visited current true in
        let (machine, done) = restore_channel ops config closure.machine current in
        record {
          machine = machine;
          stack =
              if not (channel_enabled machine.topology current)
              then stack
              else push_dependents current visited 1 (after_first machine.topology) stack;
          visited = visited;
          restored = if done then closure.restored + 1 else closure.restored;
        }

    unfoldable pub close_round : ℕ → List ℕ → Closure float double → Closure float double
    unfolding push_dependents restore_channel channel_enabled
    close_round current stack closure =
        if leb (length closure.machine.topology) current || get_or closure.visited current false
        then record closure { stack = stack }
        else visit_channel current stack closure

    -- `while (!stack.empty())`, with the stack that the closure has.
    unfoldable pub close_loop : ℕ → List ℕ → Closure float double → Result (Closure float double)
    unfolding close_round
    close_loop zero [] closure = ok closure
    close_loop zero (current ∷ stack) closure = diverge
    close_loop (suc fuel) [] closure = ok closure
    close_loop (suc fuel) (current ∷ stack) closure =
        let next = close_round current stack closure in close_loop fuel next.stack next

    abbrev pub start : Machine float double → ℕ → Closure float double
    start machine channel = record {
      machine = machine;
      stack = channel ∷ [];
      visited = replicate (length machine.topology) false;
      restored = 0;
    }

    -- The machine after the call, and the number of channels restored.
    unfoldable pub restore_dependency_closure :
        Machine float double → ℕ → Result (Machine float double × ℕ)
    unfolding close_loop
    restore_dependency_closure machine channel =
        if leb (length machine.topology) channel || channel == 0
        then ok (machine, 0)
        else close_loop (close_fuel (length machine.topology)) (channel ∷ [])
            (start machine channel)
          >>= λ closure. ok (closure.machine, closure.restored)
