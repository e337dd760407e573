-- ===== src/Lifecycle/Proposing.antt =====
-- modules/machine_topology.cpp: the search for a new proposal ends, with a program not proposed yet.
use sparse_branch_machine.Base.{
  ℕ, zero, suc, ◌+◌, ◌-◌, ◌%◌, ◌^◌, ◌<◌, ◌≡◌, refl, sym, arith, ◌∙◌, false, Bool-cases,
  Option-cases, inl, inr, Option, none, some, List, [], ◌∷◌, ◌++◌, get_elem?, length, ok,
}
use sparse_branch_machine.Address.{AddressProgram, address_program_key}
use sparse_branch_machine.Address.Proposals.{proposal_at}
use sparse_branch_machine.Address.Proposals.Listing.{proposals, proposal_at-proposals}
use sparse_branch_machine.Base.Elements.{get_elem?-lt}
use sparse_branch_machine.Lifecycle.{ValueOps, LifecycleConfig}
use sparse_branch_machine.Lifecycle.Probes.{propose_loop}
use sparse_branch_machine.Storage.Buckets.{has_id}

module _ {float double : Type 0} (ops : ValueOps float double)
    (config : LifecycleConfig float) where
  abbrev pub all_proposals : List AddressProgram
  all_proposals =
      proposals config.topology_max_arity config.topology_enable_delta
        config.topology_enable_content_match config.topology_enable_content_follow_multi
        (config.topology_max_lag - 1) 2

  abbrev proposal : ℕ → Option AddressProgram
  proposal cursor =
      proposal_at cursor config.topology_max_lag config.topology_max_arity
        config.topology_enable_delta config.topology_enable_content_match
        config.topology_enable_content_follow_multi

  -- What is found: nothing, and the keys are as before; or a proposal whose key is new, and is added.
  abbrev pub IsFresh : List ℕ → List ℕ → Option AddressProgram → Type 0
  IsFresh keys keys' none = keys' ≡ keys
  IsFresh keys keys' (some program) =
      (keys' ≡ keys ++ (address_program_key program ∷ []))
      × (has_id (address_program_key program) keys ≡ false)
      × ((i : ℕ) × (get_elem? all_proposals i ≡ some program))

  -- With a largest lag below 2^32 - 1, fewer than 2^64 proposals, and at least one round and more
  -- rounds than proposals are left after the cursor, the search for a proposal returns:
  -- either there is none left, and the keys are unchanged; or it is a listed proposal whose key was
  -- not among the keys, and the key is appended.
  pub propose_loop_total :
      (fuel cursor : ℕ) (keys : List ℕ)
      → config.topology_max_lag < 2 ^ 32 - 1
      → length all_proposals < 2 ^ 64
      → 0 < fuel
      → length all_proposals < fuel + cursor
      → (cursor' : ℕ) × (keys' : List ℕ) × (found : Option AddressProgram) × (propose_loop ops
            config fuel cursor keys
          ≡ ok (cursor', keys', found))
        × IsFresh keys keys' found
  unfolding propose_loop
  propose_loop_total zero cursor keys small bounded some_fuel h = absurd (omega arith)
  propose_loop_total (suc fuel) cursor keys small bounded some_fuel h =
      elim (Option-cases (proposal cursor)) [
        | inl gone ↦ ((cursor + 1) % 2 ^ 64, keys, none, rw (gone, propose_loop) refl, refl)
        | inr (program, here) ↦
            let listed : get_elem? all_proposals cursor ≡ some program =
              sym (
                proposal_at-proposals cursor config.topology_max_lag config.topology_max_arity
                  config.topology_enable_delta config.topology_enable_content_match
                  config.topology_enable_content_follow_multi small)
              ∙ here in
            let below : cursor < length all_proposals = get_elem?-lt all_proposals cursor listed in
            elim (Bool-cases (has_id (address_program_key program) keys)) [
              | inl taken ↦
                  let (cursor', keys', found, eq, fresh) =
                    propose_loop_total fuel ((cursor + 1) % 2 ^ 64) keys small bounded (omega arith)
                      (omega arith) in
                  (cursor', keys', found, rw (here, propose_loop, taken) eq, fresh)
              | inr new ↦ (
                (cursor + 1) % 2 ^ 64,
                keys ++ (address_program_key program ∷ []),
                some program,
                rw (here, propose_loop, new) refl,
                (refl, new, (cursor, listed)),
              )
            ]
      ]
