-- ===== src/Sparse/Entry.antt =====
-- modules/token_sparse_output.cpp: `mutable_sparse_entry` keeps the entries sorted and few.
use sparse_branch_machine.Base.{
  ℕ, ◌≤◌, ◌<◌, ◌≡◌, ◌≢◌, refl, arith, Bool, true, ◌&&◌, not, ltb, leb, Bool-cases, inl, inr, Option,
  none, some, List, [], ◌∷◌, get_elem?, length, length-set, length-append, Result, ok,
}
use sparse_branch_machine.Base.Elements.{insert_at, get_elem?-lt}
use sparse_branch_machine.Admission.{
  admit_decision, admit_at, sight, seen_candidate, new_candidate, find_candidate, candidate_limit,
  weakest_candidate, required_sightings,
}
use sparse_branch_machine.Sparse.{
  ScoreOps, SparseSlot, lower_bound, is_decision, fresh_entry, insert_entry, evict_entry,
  count_insertion, placed, make_entry, count_rejection, count_promotion, admit_entry,
  mutable_sparse_entry, select_sparse_output_victim,
}
use sparse_branch_machine.Sparse.Policy.{select_sparse_output_victim-IsEntry}
use sparse_branch_machine.Sparse.Sorted.{
  IsSorted, Lacks, Lacks-missing, insert-IsSorted, erase-IsSorted, inserted, All-erase_at,
  length-erase_at, length-erase_at_le, length-insert_at,
}
use sparse_branch_machine.Storage.{SparseOutputEntry, SparseAdmissionCandidate}

sight-few :
    (total_steps : ℕ) (candidates : List SparseAdmissionCandidate) (i : ℕ)
    (o : Option SparseAdmissionCandidate)
    → length candidates ≤ candidate_limit
    → length (sight total_steps candidates i o).0 ≤ candidate_limit
sight-few total_steps candidates i none h = h
sight-few total_steps candidates i (some candidate) h =
    elim (Bool-cases (ltb (seen_candidate total_steps candidate).sightings required_sightings)) [
      | inl early ↦
          rw early
            (omega (arith, length-set candidates i (seen_candidate total_steps candidate), h))
      | inr enough ↦ rw enough (omega (arith, length-erase_at_le candidates i, h))
    ]

new_candidate-few :
    (total_steps decision : ℕ) (candidates : List SparseAdmissionCandidate)
    → length candidates ≤ candidate_limit
    → length (new_candidate total_steps decision candidates) ≤ candidate_limit
new_candidate-few total_steps decision candidates h =
    elim (Bool-cases (leb candidate_limit (length candidates))) [
      | inl full ↦
          rw full (omega (arith, length-set candidates (weakest_candidate candidates) fresh, h))
      | inr room ↦
          let below : length candidates < candidate_limit = ground arith in
          rw room (omega (arith, length-append candidates (fresh ∷ [])))
    ]
  where
    fresh : SparseAdmissionCandidate
    fresh = record { decision = decision; sightings = 1; last_seen_step = total_steps }

admit_decision-few :
    (total_steps decision : ℕ) (candidates : List SparseAdmissionCandidate)
    → length candidates ≤ candidate_limit
    → length (admit_decision total_steps decision candidates).0 ≤ candidate_limit
unfolding admit_decision
admit_decision-few total_steps decision candidates h = after (find_candidate decision candidates)
  where
    after : (o : Option ℕ) → length (admit_at total_steps decision candidates o).0 ≤ candidate_limit
    after none = new_candidate-few total_steps decision candidates h
    after (some i) = sight-few total_steps candidates i (get_elem? candidates i) h

module _ {float double : Type 0} (ops : ScoreOps float double)
    (limit total_steps decision : ℕ) where
  -- Entries sorted by decision and no more than the limit, and few candidates.
  pub record IsSlot (slot : SparseSlot float) : Type 0 where
    pub sorted : IsSorted slot.entries
    pub few : length slot.entries ≤ limit
    pub candidates : length slot.candidates ≤ candidate_limit

  -- The null pointer with the entries as they were, or an entry of the decision.
  abbrev pub IsEntryOf : SparseSlot float → SparseSlot float → Option ℕ → Type 0
  IsEntryOf slot after none = (after.entries ≡ slot.entries) × (limit ≤ length slot.entries)
  IsEntryOf slot after (some i) =
      (entry : SparseOutputEntry float) × (get_elem? after.entries i ≡ some entry)
      × (entry.decision ≡ decision)

  -- What a call returns, and what holds of it.
  abbrev pub Returns : SparseSlot float → Result (SparseSlot float × Option ℕ) → Type 0
  Returns slot result =
      (after : SparseSlot float) × (o : Option ℕ) × (result ≡ ok (after, o))
      × IsSlot after
      × IsEntryOf slot after o

  insert_entry-IsSlot :
      (slot : SparseSlot float)
      → IsSorted slot.entries
      → Lacks decision slot.entries
      → length slot.entries < limit
      → length slot.candidates ≤ candidate_limit
      → (old : SparseSlot float)
      → let after = placed ops (insert_entry ops decision total_steps slot) in
        IsSlot after.0 × IsEntryOf old after.0 after.1
  insert_entry-IsSlot slot sorted lacks room few old = (
    record {
      sorted = insert-IsSorted decision slot.entries fresh refl sorted lacks;
      few =
          omega
            (arith, length-insert_at slot.entries (lower_bound decision slot.entries) fresh, room);
      candidates = few;
    },
    (fresh, inserted decision slot.entries fresh, refl),
  )
    where
      fresh : SparseOutputEntry float
      fresh = fresh_entry ops decision total_steps

  victim_exists :
      (entries : List (SparseOutputEntry float))
      → 0 < length entries
      → (i : ℕ) × (victim : SparseOutputEntry float) × (select_sparse_output_victim ops entries
            total_steps
          ≡ ok i)
        × (get_elem? entries i ≡ some victim)
  victim_exists [] h = absurd (omega arith)
  victim_exists (first ∷ rest) h =
      let (i, victim, eq, at, spared) =
        select_sparse_output_victim-IsEntry ops total_steps first rest in
      (i, victim, eq, at)

  make_entry-Returns :
      (slot old : SparseSlot float)
      → 0 < limit
      → IsSlot slot
      → Lacks decision slot.entries
      → Returns old (make_entry ops limit total_steps decision slot)
  unfolding make_entry
  make_entry-Returns slot old some_room v lacks =
      elim (Bool-cases (leb limit (length slot.entries))) [
        | inr room ↦
            let (sound, entry) =
              insert_entry-IsSlot counted v.sorted lacks (ground arith) v.candidates old in
            (
              record counted { entries = insert_at slot.entries at fresh },
              some at,
              rw room refl,
              sound,
              entry,
            )
        | inl full ↦
            let (i, victim, eq, there) = victim_exists slot.entries (ground arith) in
            let inside : i < length slot.entries = get_elem?-lt slot.entries i there in
            let evicted = evict_entry ops counted i (some victim) in
            let (sound, entry) =
              insert_entry-IsSlot evicted (erase-IsSorted slot.entries i v.sorted)
                (All-erase_at (λ (x : SparseOutputEntry float). x.decision ≢ decision) slot.entries
                  i lacks)
                (omega (arith, length-erase_at slot.entries i inside, v.few)) v.candidates old in
            (
              (insert_entry ops decision total_steps evicted).0,
              some (insert_entry ops decision total_steps evicted).1,
              rw (full, eq, there, evict_entry) refl,
              sound,
              entry,
            )
      ]
    where
      counted : SparseSlot float
      counted = count_insertion ops decision slot

      at : ℕ
      at = lower_bound decision slot.entries

      fresh : SparseOutputEntry float
      fresh = fresh_entry ops decision total_steps

  admit_entry-Returns :
      (force : Bool) (slot : SparseSlot float)
      → 0 < limit
      → IsSlot slot
      → Lacks decision slot.entries
      → Returns slot (admit_entry ops limit total_steps decision force slot)
  unfolding admit_entry
  admit_entry-Returns force slot some_room v lacks =
      elim (Bool-cases (not force && leb limit (length slot.entries))) [
        | inr free ↦ rw free (make_entry-Returns slot slot some_room v lacks)
        | inl full ↦ elim (Bool-cases (admit_decision total_steps decision slot.candidates).1) [
          | inl granted ↦
              rw (full, granted)
                (make_entry-Returns (count_promotion ops sighted) slot some_room
                  (record { sorted = v.sorted; few = v.few; candidates = few }) lacks)
          | inr refused ↦ (
            count_rejection ops sighted,
            none,
            rw (full, refused) refl,
            record { sorted = v.sorted; few = v.few; candidates = few },
            (refl, ground arith),
          )
        ]
      ]
    where
      sighted : SparseSlot float
      sighted = record slot { candidates = (admit_decision total_steps decision slot.candidates).0 }

      few : length (admit_decision total_steps decision slot.candidates).0 ≤ candidate_limit
      few = admit_decision-few total_steps decision slot.candidates v.candidates

  decision_there :
      (o : Option (SparseOutputEntry float))
      → is_decision decision o ≡ true
      → (entry : SparseOutputEntry float) × (o ≡ some entry) × (entry.decision ≡ decision)
  decision_there none e = absurd (cc)
  decision_there (some entry) e = (entry, refl, ground arith)

  -- From a slot with sorted entries, at most the limit of them, `mutable_sparse_entry` returns; the
  -- entries stay sorted and at most the limit, and the candidates at most eight. The index returned
  -- is of an entry of the decision; the null pointer is returned for a full slot only, and the
  -- entries are then as before.
  pub mutable_sparse_entry-Returns :
      (force : Bool) (slot : SparseSlot float)
      → 0 < limit
      → IsSlot slot
      → Returns slot (mutable_sparse_entry ops limit total_steps decision force slot)
  unfolding mutable_sparse_entry
  mutable_sparse_entry-Returns force slot some_room v =
      elim (Bool-cases (is_decision decision (get_elem? slot.entries at))) [
        | inl present ↦
            (slot, some at, rw present refl, v, decision_there (get_elem? slot.entries at) present)
        | inr missing ↦ rw missing (
            admit_entry-Returns force slot some_room v
              (Lacks-missing decision slot.entries v.sorted missing))
      ]
    where
      at : ℕ
      at = lower_bound decision slot.entries
