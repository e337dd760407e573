-- ===== src/Prior.antt =====
-- modules/token_sparse_output.cpp: the counts of the branches that the tokens took in the output
-- tree, with the logits read off them. Floating-point arithmetic is a parameter.
pub mod Counts
use sparse_branch_machine.Base.{
  ℕ, ◌+◌, ◌-◌, ◌%◌, ◌^◌, Bool, true, false, ◌||◌, ◌&&◌, ◌==◌, if◌then◌else◌, Option, none, some,
  List, [], ◌∷◌, get_elem?, get_or, set, Error, out_of_range, overflow_error,
}
use sparse_branch_machine.Output.Tree.{ImplicitDecision}

-- The operations on floating-point numbers; `half` is the pseudocount.
pub record PriorOps (float double : Type 0) : Type 0 where
  pub nought : float
  pub half : double
  pub double_of : ℕ → double
  pub add : double → double → double
  pub div : double → double → double
  pub log : double → double
  pub narrow : double → float

-- The parts of the machine that `observe_global_output_path` writes.
pub record Prior (float : Type 0) : Type 0 where
  pub total : List ℕ
  pub right : List ℕ
  pub cache : List float
  pub updates : ℕ

-- `std::numeric_limits<std::uint64_t>::max()`
abbrev pub count_limit : ℕ
count_limit = 2 ^ 64 - 1

module _ {float double : Type 0} (ops : PriorOps float double) where
  -- The logit of a decision that `right` of `total` observed paths left to the right.
  unfoldable pub branch_logit : ℕ → ℕ → float
  branch_logit total right =
      let left = ops.double_of ((total + 2 ^ 64 - right) % 2 ^ 64) in
      ops.narrow
        (ops.log (ops.div (ops.add (ops.double_of right) ops.half) (ops.add left ops.half)))

  unfoldable pub global_output_logit : Prior float → ℕ → float
  global_output_logit prior decision = get_or prior.cache decision ops.nought

  -- The counters after one step of the path, with its counts before.
  unfoldable pub count_branch : ImplicitDecision → Prior float → ℕ → ℕ → Prior float
  unfolding branch_logit
  count_branch step prior total right =
      let more = if step.right then right + 1 else right in
      record prior {
        total = set prior.total step.id (total + 1);
        right = set prior.right step.id more;
        cache = set prior.cache step.id (branch_logit (total + 1) more);
      }

  -- The two calls of `at`, and the test of the counts; no error is `none`.
  abbrev pub observe_counts :
      ImplicitDecision → Prior float → Option ℕ → Option ℕ → Prior float × Option Error
  observe_counts step prior none right = (prior, some out_of_range)
  observe_counts step prior (some total) none = (prior, some out_of_range)
  observe_counts step prior (some total) (some right) =
      if total == count_limit || step.right && right == count_limit
      then (prior, some overflow_error)
      else (count_branch step prior total right, none)

  unfoldable pub observe_step : ImplicitDecision → Prior float → Prior float × Option Error
  unfolding count_branch
  observe_step step prior =
      observe_counts step prior (get_elem? prior.total step.id) (get_elem? prior.right step.id)

  -- An exception ends the loop.
  abbrev pub after_step :
      Prior float × Option Error → Prior float × Option Error → Prior float × Option Error
  after_step (next, none) rest = rest
  after_step (next, some e) rest = (next, some e)

  -- An exception leaves the counts of the steps before it.
  unfoldable pub observe_loop : List ImplicitDecision → Prior float → Prior float × Option Error
  unfolding observe_step
  observe_loop [] prior = (prior, none)
  observe_loop (step ∷ path) prior =
      let next = observe_step step prior in
      let rest = observe_loop path next.0 in after_step next rest

  abbrev pub count_update : Prior float × Option Error → Prior float × Option Error
  count_update (prior, none) = (record prior { updates = prior.updates + 1 }, none)
  count_update (prior, some e) = (prior, some e)

  -- The prior after the call, and the exception, if there is one.
  unfoldable pub observe_global_output_path :
      List ImplicitDecision → Prior float → Prior float × Option Error
  unfolding observe_loop
  observe_global_output_path path prior =
      if prior.updates == count_limit
      then (prior, some overflow_error)
      else count_update (observe_loop path prior)
