-- ===== src/Storage/Scans.antt =====
-- modules/machine_storage.cpp: the ids that `bounded_bucket_nodes` returns are few, different and live.
use sparse_branch_machine.Base.{
  ℕ, zero, suc, ◌+◌, ◌-◌, ◌≤◌, ◌≡◌, refl, arith, min, true, false, ◌||◌, ◌==◌, Bool-cases,
  Option-cases, inl, inr, List, [], ◌∷◌, ◌++◌, length, length-append, All, All-append,
}
use sparse_branch_machine.Storage.{BucketState, StorageConfig, Storage, contains}
use sparse_branch_machine.Storage.Buckets.{
  has_id, Scan, append_id, scan_ids, scan_bucket, bounded_bucket_nodes,
}

-- No id twice.
abbrev pub Distinct : List ℕ → Type 0
Distinct [] = Unit
Distinct (x ∷ xs) = (has_id x xs ≡ false) × Distinct xs

has_id-snoc : (id x : ℕ) (xs : List ℕ) → has_id id (xs ++ (x ∷ [])) ≡ (has_id id xs || x == id)
unfolding has_id
has_id-snoc id x [] = ground arith
has_id-snoc id x (y ∷ xs) = rw (has_id-snoc id x xs) (ground arith)

Distinct-snoc :
    (xs : List ℕ) (id : ℕ) → Distinct xs → has_id id xs ≡ false → Distinct (xs ++ (id ∷ []))
unfolding has_id
Distinct-snoc [] id d h = (refl, tt)
Distinct-snoc (x ∷ xs) id d h =
    (rw (has_id-snoc x id xs) (ground arith), Distinct-snoc xs id d.1 (ground arith))

module _ {float : Type 0} (storage : Storage float) where
  -- Ids of stored nodes, no one twice.
  abbrev pub AreStored : List ℕ → Type 0
  AreStored ids = Distinct ids × All (λ (id : ℕ). contains storage id ≡ true) ids

  append_id-AreStored :
      (id : ℕ) (scan : Scan)
      → AreStored scan.found
      → AreStored (append_id storage id scan).found
        × (length (append_id storage id scan).found ≤ length scan.found + 1)
  unfolding append_id
  append_id-AreStored id scan (d, stored) = elim (Bool-cases (contains storage id)) [
    | inr stale ↦ rw stale ((d, stored), omega arith)
    | inl live ↦ elim (Bool-cases (has_id id scan.found)) [
      | inl there ↦ rw (live, there) ((d, stored), omega arith)
      | inr new ↦
          rw (live, new)
            (
              (
                Distinct-snoc scan.found id d new,
                All-append (λ (x : ℕ). contains storage x ≡ true) scan.found (id ∷ []) stored
                    (live, tt),
              ),
              omega (arith, length-append scan.found (id ∷ [])),
            )
    ]
  ]

  scan_ids-AreStored :
      (budget : ℕ) (ids : List ℕ) (scan : Scan)
      → AreStored scan.found
      → AreStored (scan_ids storage budget ids scan).found
        × (length (scan_ids storage budget ids scan).found
            ≤ length scan.found + min (length ids) budget)
  unfolding scan_ids
  scan_ids-AreStored zero ids scan h = (h, omega arith)
  scan_ids-AreStored (suc budget) [] scan h = (h, omega arith)
  scan_ids-AreStored (suc budget) (id ∷ ids) scan h =
      let (next, more) = append_id-AreStored id scan h in
      let (done, most) = scan_ids-AreStored budget ids (append_id storage id scan) next in
      (done, omega (arith, more, most))

  -- The ids that `bounded_bucket_nodes` returns are of stored nodes, no one twice, and no more than
  -- the limit that is asked for and the configured scan limit. The
  -- storage is unchanged apart from the count of stale references and the largest number of
  -- candidates inspected.
  pub bounded_bucket_nodes-AreStored :
      (config : StorageConfig) (index limit : ℕ)
      → let (after, ids) = bounded_bucket_nodes config storage index limit in
        AreStored ids
        × (length ids ≤ limit)
        × (length ids ≤ config.bucket_scan_limit)
        × (after ≡ record storage {
          stale_bucket_refs_skipped = after.stale_bucket_refs_skipped;
          max_bucket_candidates_inspected = after.max_bucket_candidates_inspected;
        })
  unfolding bounded_bucket_nodes
  bounded_bucket_nodes-AreStored config index limit =
      elim (Option-cases (storage.bucket_directory index)) [
        | inl gone ↦ rw (gone, bounded_bucket_nodes) ((tt, tt), omega arith, omega arith, refl)
        | inr (state, here) ↦ elim (Bool-cases (min limit config.bucket_scan_limit == 0)) [
          | inl nothing ↦
              rw (here, nothing, bounded_bucket_nodes) ((tt, tt), omega arith, omega arith, refl)
          | inr budget ↦
              let (stored, few) = scanned state in
              rw (here, budget, bounded_bucket_nodes)
                (stored, omega (arith, few), omega (arith, few), refl)
        ]
      ]
    where
      scanned :
          (state : BucketState)
          → AreStored (scan_bucket storage (min limit config.bucket_scan_limit) state).1
            × (length (scan_bucket storage (min limit config.bucket_scan_limit) state).1
                ≤ min limit config.bucket_scan_limit)
      scanned state =
          let bound = min limit config.bucket_scan_limit in
          let start : Scan = record { found = []; stale = storage.stale_bucket_refs_skipped } in
          let (hot, few) = scan_ids-AreStored bound state.hot start (tt, tt) in
          let (cold, all) =
            scan_ids-AreStored (min (length state.cold) (bound - min (length state.hot) bound))
              state.cold (scan_ids storage bound state.hot start) hot in
          (cold, omega (arith, few, all))
