-- ===== src/Tests/SparseTests.antt =====
-- The theorems on the sparse output entries, at a node with two of them.
use sparse_branch_machine.Base.{
  ℕ, ◌+◌, ◌*◌, ◌/◌, ◌≡◌, ◌⊎◌, max, refl, arith, true, false, ltb, ◌==◌, some, List, [], ◌∷◌,
  get_elem?, All, ok,
}
use sparse_branch_machine.Sparse.{
  ScoreOps, SparseSlot, in_probation, select_sparse_output_victim, mutable_sparse_entry,
  sparse_logit,
}
use sparse_branch_machine.Sparse.Entry.{Returns, mutable_sparse_entry-Returns}
use sparse_branch_machine.Sparse.Policy.{select_sparse_output_victim-IsEntry}
use sparse_branch_machine.Sparse.Sorted.{logit_in, sparse_logit-logit_in}
use sparse_branch_machine.Storage.{Node, SparseOutputEntry, fresh_node}
use sparse_branch_machine.Tests.StorageTests.{number_tests, settings}

abbrev scores : ScoreOps ℕ ℕ
scores = record {
  nought = 0;
  one = 1;
  max_float = max;
  float_of = λ n. n;
  add_float = λ a b. a + b;
  div_float = λ a b. a / b;
  sqrt_float = λ x. x;
  widen = λ x. x;
  double_of = λ n. n;
  tiny = 1;
  add = λ a b. a + b;
  mul = λ a b. a * b;
  sqrt = λ x. x;
  log1p = λ x. x;
  below = ltb;
  same = λ a b. a == b;
}

abbrev early : SparseOutputEntry ℕ
early = record {
  decision = 2;
  logit = 7;
  visits = 3;
  gain_ema = 1;
  last_update_step = 10;
  momentum = 0;
  variance = 0;
}

abbrev late : SparseOutputEntry ℕ
late = record early { decision = 5; logit = 9; last_update_step = 95 }

select_sparse_output_victim-IsEntry_example :
    (i : ℕ) × (victim : SparseOutputEntry ℕ) × (select_sparse_output_victim scores
        (early ∷ late ∷ [])
        100
      ≡ ok i)
    × (get_elem? (early ∷ late ∷ []) i ≡ some victim)
    × ((in_probation 100 victim ≡ false)
        ⊎ All (λ (entry : SparseOutputEntry ℕ). in_probation 100 entry ≡ true) (early ∷ late ∷ []))
select_sparse_output_victim-IsEntry_example =
    select_sparse_output_victim-IsEntry scores 100 early (late ∷ [])

abbrev full_slot : SparseSlot ℕ
full_slot = record {
  entries = early ∷ late ∷ [];
  candidates = [];
  evicted_mask = 0;
  counters = record {
    insertions = 0;
    evictions = 0;
    probable_reconstructions = 0;
    admission_rejections = 0;
    admission_promotions = 0;
  };
}

mutable_sparse_entry-Returns_example :
    Returns scores 2 100 3 full_slot (mutable_sparse_entry scores 2 100 3 true full_slot)
mutable_sparse_entry-Returns_example =
    mutable_sparse_entry-Returns scores 2 100 3 true full_slot (omega arith) (omega arith)

abbrev one_node : List (Node ℕ)
one_node =
    record (fresh_node number_tests settings 0 7 [] 0 0) { sparse_outputs = early ∷ late ∷ [] } ∷ []

sparse_logit-logit_in_example : sparse_logit 0 one_node 0 5 ≡ logit_in 0 5 (early ∷ late ∷ [])
sparse_logit-logit_in_example =
    sparse_logit-logit_in 0 one_node 0 5
      (record (fresh_node number_tests settings 0 7 [] 0 0) { sparse_outputs = early ∷ late ∷ [] })
      refl (omega arith)
