-- ===== src/Address/Proposals.antt =====
-- modules/machine_topology.cpp: `proposal_at`, the programs that the topology tries, by ordinal.
pub mod Listing
pub mod Shape
use sparse_branch_machine.Base.{
  ℕ, zero, suc, ◌+◌, ◌-◌, ◌%◌, ◌^◌, Bool, true, false, ltb, leb, ◌==◌, if◌then◌else◌, Option, none,
  some, List, [], ◌∷◌,
}
use sparse_branch_machine.Address.{
  AddressOp, AddressProgram, singleton_address_program, tuple, delta_mod, content_match,
  content_follow, content_follow_multi2, content_follow_multi3,
}

-- A search by ordinal: a program is returned, or the ordinal that is left.
pub data Scan : Type 0 where
  hit : AddressProgram → Scan
  miss : ℕ → Scan

abbrev pub and_then : Scan → (ℕ → Scan) → Scan
and_then (hit p) f = hit p
and_then (miss ordinal) f = f ordinal

-- `if (ordinal == 0U) return program; --ordinal;`
abbrev pub probe : AddressProgram → ℕ → Scan
probe p ordinal = if ordinal == 0 then hit p else miss (ordinal - 1)

abbrev pub pair_program : AddressOp → ℕ → ℕ → AddressProgram
pair_program op inner outer = record { lags = inner ∷ outer ∷ []; arity = 2; op = op }

abbrev pub single_program : AddressOp → ℕ → AddressProgram
single_program op outer = record (singleton_address_program outer) { op = op }

-- The loop of `visit`: `rounds` inner lags are left.
unfoldable pub visit_loop : ℕ → ℕ → ℕ → AddressOp → ℕ → Scan
visit_loop zero inner outer op ordinal = miss ordinal
visit_loop (suc rounds) inner outer op ordinal =
    and_then (probe (pair_program op inner outer) ordinal) (visit_loop rounds (inner + 1) outer op)

unfoldable pub visit : ℕ → ℕ → AddressOp → ℕ → Scan
unfolding visit_loop
visit max_arity outer op ordinal =
    and_then (probe (single_program op outer) ordinal)
      (λ o. if ltb max_arity 2 then miss o else visit_loop (outer - 1) 1 outer op o)

-- The loop over the programs that follow a match.
unfoldable pub follow_loop : Bool → ℕ → ℕ → ℕ → ℕ → Scan
follow_loop multi zero inner outer ordinal = miss ordinal
follow_loop multi (suc rounds) inner outer ordinal =
    and_then
      (and_then (probe (pair_program content_follow inner outer) ordinal) (λ o.
        if multi
        then and_then (probe (pair_program content_follow_multi2 inner outer) o)
            (probe (pair_program content_follow_multi3 inner outer))
        else miss o))
      (follow_loop multi rounds (inner + 1) outer)

unfoldable pub visit_content : ℕ → Bool → ℕ → ℕ → Scan
unfolding follow_loop
visit_content max_arity multi outer ordinal =
    and_then (probe (single_program content_match outer) ordinal)
      (λ o. if leb 2 max_arity then follow_loop multi (outer - 1) 1 outer o else miss o)

-- The body of the loop over the outer lags.
unfoldable pub visit_lag : ℕ → Bool → Bool → Bool → ℕ → ℕ → Scan
unfolding visit visit_content
visit_lag max_arity delta content multi outer ordinal =
    and_then (visit max_arity outer tuple ordinal) (λ o1.
      and_then (if delta then visit max_arity outer delta_mod o1 else miss o1)
        (λ o2. if content then visit_content max_arity multi outer o2 else miss o2))

-- The loop over the outer lags, whose 32-bit counter wraps; `rounds` bounds its rounds.
unfoldable pub outer_loop : ℕ → ℕ → Bool → Bool → Bool → ℕ → ℕ → ℕ → Scan
unfolding visit_lag
outer_loop max_lag max_arity delta content multi zero outer ordinal = miss ordinal
outer_loop max_lag max_arity delta content multi (suc rounds) outer ordinal =
    elim (leb outer max_lag) [
      | true ↦
          and_then (visit_lag max_arity delta content multi outer ordinal)
            (outer_loop max_lag max_arity delta content multi rounds ((outer + 1) % 2 ^ 32))
      | false ↦ miss ordinal
    ]

abbrev pub found_program : Scan → Option AddressProgram
found_program (hit p) = some p
found_program (miss ordinal) = none

-- Every round of the loop ends the search or counts the ordinal down.
unfoldable pub proposal_at : ℕ → ℕ → ℕ → Bool → Bool → Bool → Option AddressProgram
unfolding outer_loop
proposal_at ordinal max_lag max_arity delta content multi =
    found_program (outer_loop max_lag max_arity delta content multi (ordinal + 1) 2 ordinal)
