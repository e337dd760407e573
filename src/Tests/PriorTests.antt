-- ===== src/Tests/PriorTests.antt =====
-- The theorems of the global output prior at concrete inputs.
use sparse_branch_machine.Base.{
  ℕ, zero, suc, ◌+◌, ◌/◌, ◌≡◌, ◌≤◌, refl, arith, true, false, none, List, [], ◌∷◌, get_or,
}
use sparse_branch_machine.Output.Tree.{ImplicitDecision}
use sparse_branch_machine.Prior.{
  PriorOps, Prior, count_limit, branch_logit, observe_global_output_path,
}
use sparse_branch_machine.Prior.Counts.{
  IsPrior, HoldsAt, Counts, AllBelow, steps_at, observe_global_output_path-IsPrior,
  observe_global_output_path-Counts,
}

abbrev numbers : PriorOps ℕ ℕ
numbers = record {
  nought = 0;
  half = 1;
  double_of = λ n. n;
  add = ◌+◌;
  div = ◌/◌;
  log = λ n. n;
  narrow = λ n. n;
}

abbrev counted_once : Prior ℕ
counted_once = record { total = 1 ∷ 0 ∷ []; right = 1 ∷ 0 ∷ []; cache = 2 ∷ 0 ∷ []; updates = 1 }

abbrev two_steps : List ImplicitDecision
two_steps = record { id = 1; right = true } ∷ record { id = 0; right = false } ∷ []

counted_once-HoldsAt : (i : ℕ) → HoldsAt numbers i counted_once
unfolding branch_logit
counted_once-HoldsAt zero = (omega arith, λ n. refl)
counted_once-HoldsAt (suc zero) = (omega arith, λ n. absurd (n refl))
counted_once-HoldsAt (suc (suc i)) = (omega arith, λ n. absurd (n refl))

counted_once-IsPrior : IsPrior numbers counted_once
counted_once-IsPrior = record { rights = refl; caches = refl; holds = counted_once-HoldsAt }

two_steps_room : (i : ℕ) → get_or counted_once.total i 0 + steps_at i two_steps ≤ count_limit
unfolding steps_at
two_steps_room zero = ground arith
two_steps_room (suc zero) = ground arith
two_steps_room (suc (suc i)) = ground arith

two_steps_below : AllBelow 2 two_steps
unfolding AllBelow
two_steps_below = (omega arith, (omega arith, tt))

observe_global_output_path-IsPrior_example :
    IsPrior numbers (observe_global_output_path numbers two_steps counted_once).0
observe_global_output_path-IsPrior_example =
    observe_global_output_path-IsPrior numbers two_steps counted_once counted_once-IsPrior

observe_global_output_path-Counts_example :
    (new : Prior ℕ) × (observe_global_output_path numbers two_steps counted_once ≡ (new, none))
    × (new.updates ≡ 2)
    × Counts numbers two_steps counted_once new
observe_global_output_path-Counts_example =
    observe_global_output_path-Counts numbers two_steps counted_once counted_once-IsPrior
      two_steps_below two_steps_room (omega arith)
