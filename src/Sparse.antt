-- ===== src/Sparse.antt =====
-- modules/sparse_output_policy.cpp and modules/token_sparse_output.cpp: the entries that a node has
-- for output decisions. Floating-point arithmetic is a parameter.
pub mod Sorted
pub mod Policy
pub mod Entry
use sparse_branch_machine.Admission.{decision_mask, admit_decision}
use sparse_branch_machine.Base.{
  ℕ, zero, suc, ◌+◌, ◌-◌, ◌*◌, ◌/◌, ◌%◌, ◌^◌, bit_and, bit_or, Bool, true, false, ◌||◌, ◌&&◌, not,
  ltb, leb, ◌==◌, if◌then◌else◌, Option, none, some, List, [], ◌∷◌, ◌++◌, get_elem?, set, length,
  Result, ok, throw, Error, invalid_argument, out_of_range, ◌>>=◌, and_then,
}
use sparse_branch_machine.Base.Elements.{erase_at, insert_at}
use sparse_branch_machine.Storage.{Node, SparseOutputEntry, SparseAdmissionCandidate}
use sparse_branch_machine.Topology.Reuse.{next_u64}

-- The floating-point operations of the scores and the rates.
pub record ScoreOps (float double : Type 0) : Type 0 where
  pub nought : float
  pub one : float
  pub max_float : float → float → float
  pub float_of : ℕ → float
  pub add_float : float → float → float
  pub div_float : float → float → float
  pub sqrt_float : float → float
  pub widen : float → double
  pub double_of : ℕ → double
  pub tiny : double
  pub add : double → double → double
  pub mul : double → double → double
  pub sqrt : double → double
  pub log1p : double → double
  pub below : double → double → Bool
  pub same : double → double → Bool

abbrev pub probation_steps : ℕ
probation_steps = 32

-- The counters that `mutable_sparse_entry` writes.
pub record SparseCounters : Type 0 where
  pub insertions : ℕ
  pub evictions : ℕ
  pub probable_reconstructions : ℕ
  pub admission_rejections : ℕ
  pub admission_promotions : ℕ

-- The parts of the arrays at one slot.
pub record SparseSlot (float : Type 0) : Type 0 where
  pub entries : List (SparseOutputEntry float)
  pub candidates : List SparseAdmissionCandidate
  pub evicted_mask : ℕ
  pub counters : SparseCounters

module _ {float : Type 0} where
  abbrev pub in_probation : ℕ → SparseOutputEntry float → Bool
  in_probation current_step entry =
      leb entry.last_update_step current_step
      && ltb (current_step - entry.last_update_step) probation_steps

  unfoldable pub has_non_probation : ℕ → List (SparseOutputEntry float) → Bool
  has_non_probation current_step [] = false
  has_non_probation current_step (entry ∷ entries) =
      not (in_probation current_step entry) || has_non_probation current_step entries

  -- `std::lower_bound` on entries that are sorted by their decisions.
  unfoldable pub lower_bound : ℕ → List (SparseOutputEntry float) → ℕ
  lower_bound decision [] = 0
  lower_bound decision (entry ∷ entries) =
      let rest = lower_bound decision entries in if ltb entry.decision decision then suc rest else 0

  abbrev pub is_decision : ℕ → Option (SparseOutputEntry float) → Bool
  is_decision decision none = false
  is_decision decision (some entry) = entry.decision == decision

  abbrev pub logit_or : float → ℕ → Option (SparseOutputEntry float) → float
  logit_or nought decision none = nought
  logit_or nought decision (some entry) = if entry.decision == decision then entry.logit else nought

  abbrev pub slot_logit : float → ℕ → Option (Node float) → float
  slot_logit nought decision none = nought
  slot_logit nought decision (some node) =
      logit_or nought decision
        (get_elem? node.sparse_outputs (lower_bound decision node.sparse_outputs))

  -- Of the nodes' slot; 0 where there is none.
  unfoldable pub sparse_logit : float → List (Node float) → ℕ → ℕ → float
  unfolding lower_bound
  sparse_logit nought nodes slot decision = slot_logit nought decision (get_elem? nodes slot)

module _ {float double : Type 0} (ops : ScoreOps float double) where
  unfoldable pub retention_score : SparseOutputEntry float → double
  retention_score entry =
      let visits = ops.double_of entry.visits in
      ops.add
        (ops.mul (ops.widen (ops.max_float entry.gain_ema ops.nought))
          (ops.sqrt (ops.add visits (ops.double_of 1))))
        (ops.mul ops.tiny (ops.log1p visits))

  unfoldable pub sparse_decision_learning_rate : SparseOutputEntry float → float → float → ℕ → float
  sparse_decision_learning_rate entry initial_rate mature_rate mature_visits =
      ops.div_float (if leb mature_visits entry.visits then mature_rate else initial_rate)
        (ops.sqrt_float (ops.add_float (ops.float_of entry.visits) ops.one))

  abbrev pub is_better_victim : SparseOutputEntry float → SparseOutputEntry float → Bool
  is_better_victim candidate current =
      let candidate_score = retention_score candidate in
      let current_score = retention_score current in
      ops.below candidate_score current_score
      || (ops.same candidate_score current_score
          && (ltb candidate.last_update_step current.last_update_step
              || (candidate.last_update_step == current.last_update_step
                  && ltb current.decision candidate.decision)))

  -- The choice so far, when an entry stands at `index` and may be chosen.
  abbrev pub choose :
      ℕ
      → SparseOutputEntry float
      → Option (ℕ × SparseOutputEntry float)
      → Option (ℕ × SparseOutputEntry float)
  choose index candidate none = some (index, candidate)
  choose index candidate (some (victim, current)) =
      if is_better_victim candidate current then some (index, candidate) else some (victim, current)

  unfoldable pub victim_loop :
      Bool
      → ℕ
      → List (SparseOutputEntry float)
      → ℕ
      → Option (ℕ × SparseOutputEntry float)
      → Option (ℕ × SparseOutputEntry float)
  unfolding retention_score
  victim_loop spare current_step [] index chosen = chosen
  victim_loop spare current_step (entry ∷ entries) index chosen =
      victim_loop spare current_step entries (index + 1)
        (if spare && in_probation current_step entry then chosen else choose index entry chosen)

  abbrev pub victim_index : Option (ℕ × SparseOutputEntry float) → ℕ
  victim_index none = 0
  victim_index (some (victim, current)) = victim

  unfoldable pub select_sparse_output_victim : List (SparseOutputEntry float) → ℕ → Result ℕ
  unfolding victim_loop has_non_probation
  select_sparse_output_victim [] current_step = throw invalid_argument
  select_sparse_output_victim (entry ∷ entries) current_step = ok (
      victim_index (
        victim_loop (has_non_probation current_step (entry ∷ entries)) current_step
          (entry ∷ entries) 0 none))

  -- `{decision, 0.0F, 0U, 0.0F, total_steps_}`
  abbrev pub fresh_entry : ℕ → ℕ → SparseOutputEntry float
  fresh_entry decision total_steps = record {
    decision = decision;
    logit = ops.nought;
    visits = 0;
    gain_ema = ops.nought;
    last_update_step = total_steps;
    momentum = ops.nought;
    variance = ops.nought;
  }

  -- The insertion, with the entry's index.
  abbrev pub insert_entry : ℕ → ℕ → SparseSlot float → SparseSlot float × ℕ
  insert_entry decision total_steps slot =
      let at = lower_bound decision slot.entries in
      (record slot { entries = insert_at slot.entries at (fresh_entry decision total_steps) }, at)

  abbrev pub placed : SparseSlot float × ℕ → SparseSlot float × Option ℕ
  placed (slot, at) = (slot, some at)

  abbrev pub evict_entry :
      SparseSlot float → ℕ → Option (SparseOutputEntry float) → SparseSlot float
  evict_entry slot at none = slot
  evict_entry slot at (some victim) = record slot {
    entries = erase_at slot.entries at;
    evicted_mask = bit_or slot.evicted_mask (decision_mask victim.decision);
    counters = record slot.counters { evictions = next_u64 slot.counters.evictions };
  }

  abbrev pub count_insertion : ℕ → SparseSlot float → SparseSlot float
  count_insertion decision slot = record slot {
    counters = record slot.counters {
      probable_reconstructions =
          if bit_and slot.evicted_mask (decision_mask decision) == 0
          then slot.counters.probable_reconstructions
          else next_u64 slot.counters.probable_reconstructions;
      insertions = next_u64 slot.counters.insertions;
    };
  }

  -- From the mask on: an entry is evicted where the slot is full, and the new one is inserted.
  unfoldable pub make_entry : ℕ → ℕ → ℕ → SparseSlot float → Result (SparseSlot float × Option ℕ)
  unfolding lower_bound select_sparse_output_victim decision_mask
  make_entry limit total_steps decision slot =
      let counted = count_insertion decision slot in
      if leb limit (length slot.entries)
      then (select_sparse_output_victim counted.entries total_steps >>= λ at. ok (
          placed (
            insert_entry decision total_steps
              (evict_entry counted at (get_elem? counted.entries at)))))
      else ok (placed (insert_entry decision total_steps counted))

  abbrev pub count_rejection : SparseSlot float → SparseSlot float
  count_rejection slot = record slot {
    counters = record slot.counters {
      admission_rejections = next_u64 slot.counters.admission_rejections;
    };
  }

  abbrev pub count_promotion : SparseSlot float → SparseSlot float
  count_promotion slot = record slot {
    counters = record slot.counters {
      admission_promotions = next_u64 slot.counters.admission_promotions;
    };
  }

  -- A decision that is not there: a full slot admits it first, unless it is forced.
  unfoldable pub admit_entry :
      ℕ → ℕ → ℕ → Bool → SparseSlot float → Result (SparseSlot float × Option ℕ)
  unfolding make_entry admit_decision
  admit_entry limit total_steps decision force slot =
      let (candidates, admitted) = admit_decision total_steps decision slot.candidates in
      let sighted = record slot { candidates = candidates } in
      if not force && leb limit (length slot.entries)
      then (if admitted
          then make_entry limit total_steps decision (count_promotion sighted)
          else ok (count_rejection sighted, none))
      else make_entry limit total_steps decision slot

  -- The slot after the call, and the index of the entry that the returned pointer is at; `none` is
  -- the null pointer.
  unfoldable pub mutable_sparse_entry :
      ℕ → ℕ → ℕ → Bool → SparseSlot float → Result (SparseSlot float × Option ℕ)
  unfolding lower_bound admit_entry
  mutable_sparse_entry limit total_steps decision force slot =
      let at = lower_bound decision slot.entries in
      if is_decision decision (get_elem? slot.entries at)
      then ok (slot, some at)
      else admit_entry limit total_steps decision force slot
