-- ===== src/Admission.antt =====
-- modules/token_sparse_output.cpp: the candidates for an entry, and which decisions are admitted.
use sparse_branch_machine.Base.{
  ℕ, suc, ◌+◌, ◌*◌, ◌/◌, ◌%◌, ◌^◌, Bool, true, false, ◌||◌, ◌&&◌, ltb, leb, ◌==◌, if◌then◌else◌,
  Option, none, some, List, [], ◌∷◌, ◌++◌, get_elem?, set, length,
}
use sparse_branch_machine.Base.Elements.{erase_at}
use sparse_branch_machine.Storage.{SparseAdmissionCandidate}

-- `1ULL << (mixed >> 58U)`
unfoldable pub decision_mask : ℕ → ℕ
decision_mask decision = 2 ^ (decision * 0x9E3779B97F4A7C15 % 2 ^ 64 / 2 ^ 58)

-- `std::find_if` on the candidates: the index of the first with the decision.
unfoldable pub find_candidate : ℕ → List SparseAdmissionCandidate → Option ℕ
find_candidate decision [] = none
find_candidate decision (candidate ∷ candidates) =
    if candidate.decision == decision
    then some 0
    else (elim (find_candidate decision candidates) [ none ↦ none | some i ↦ some (suc i) ])

abbrev pub is_weaker_candidate : SparseAdmissionCandidate → SparseAdmissionCandidate → Bool
is_weaker_candidate left right =
    ltb left.sightings right.sightings
    || (left.sightings == right.sightings && ltb left.last_seen_step right.last_seen_step)

-- `std::min_element` on the candidates; `best` stands at `at`.
unfoldable pub weakest_candidate_loop :
    List SparseAdmissionCandidate → ℕ → ℕ → SparseAdmissionCandidate → ℕ
weakest_candidate_loop [] index at best = at
weakest_candidate_loop (candidate ∷ candidates) index at best =
    let weaker = is_weaker_candidate candidate best in
    weakest_candidate_loop candidates (index + 1) (if weaker then index else at)
      (if weaker then candidate else best)

abbrev pub weakest_candidate : List SparseAdmissionCandidate → ℕ
weakest_candidate [] = 0
weakest_candidate (candidate ∷ candidates) = weakest_candidate_loop candidates 1 0 candidate

abbrev pub candidate_limit : ℕ
candidate_limit = 8

abbrev pub required_sightings : ℕ
required_sightings = 2

-- A decision without a candidate gets one: in the place of the weakest, when there are enough.
abbrev pub new_candidate : ℕ → ℕ → List SparseAdmissionCandidate → List SparseAdmissionCandidate
new_candidate total_steps decision candidates =
    let fresh : SparseAdmissionCandidate = record {
      decision = decision;
      sightings = 1;
      last_seen_step = total_steps;
    } in
    if leb candidate_limit (length candidates)
    then set candidates (weakest_candidate candidates) fresh
    else candidates ++ (fresh ∷ [])

abbrev pub seen_candidate : ℕ → SparseAdmissionCandidate → SparseAdmissionCandidate
seen_candidate total_steps candidate = record candidate {
  sightings =
      if ltb candidate.sightings required_sightings
      then candidate.sightings + 1
      else candidate.sightings;
  last_seen_step = total_steps;
}

-- The candidates after a sighting, and whether the decision is admitted.
abbrev pub sight :
    ℕ
    → List SparseAdmissionCandidate
    → ℕ
    → Option SparseAdmissionCandidate
    → List SparseAdmissionCandidate × Bool
sight total_steps candidates i none = (candidates, false)
sight total_steps candidates i (some candidate) =
    let seen = seen_candidate total_steps candidate in
    if ltb seen.sightings required_sightings
    then (set candidates i seen, false)
    else (erase_at candidates i, true)

abbrev pub admit_at :
    ℕ → ℕ → List SparseAdmissionCandidate → Option ℕ → List SparseAdmissionCandidate × Bool
admit_at total_steps decision candidates none =
    (new_candidate total_steps decision candidates, false)
admit_at total_steps decision candidates (some i) =
    sight total_steps candidates i (get_elem? candidates i)

unfoldable pub admit_decision :
    ℕ → ℕ → List SparseAdmissionCandidate → List SparseAdmissionCandidate × Bool
unfolding find_candidate weakest_candidate_loop
admit_decision total_steps decision candidates =
    admit_at total_steps decision candidates (find_candidate decision candidates)
