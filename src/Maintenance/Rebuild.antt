-- ===== src/Maintenance/Rebuild.antt =====
-- modules/machine_maintenance.cpp: what `rebuild_indexes` leaves in the buckets and the edges.
use sparse_branch_machine.Base.{
  ℕ, zero, suc, ◌+◌, ◌≤◌, ◌≡◌, refl, sym, arith, ◌∙◌, true, false, ◌==◌, ltb, ==_iff, Bool-cases,
  Option-cases, inl, inr, if◌then◌else◌, Option, none, some, List, [], ◌∷◌, ◌++◌, map, get_elem?,
  length, take, All, All-map, append_assoc,
}
use mathlib.Core.List.{append-nil}
use mathlib.Core.Option
use mathlib.Core.Option.{some-injective}
use sparse_branch_machine.Base.Elements.{map-set_same, map-map_same, get_elem?-map}
use sparse_branch_machine.Maintenance.{
  dated_bucket, index_loop, reheat, reheat_loop, cool_node, live_edges, trim_edges, rebuild_indexes,
}
use sparse_branch_machine.Storage.{
  FloatTests, Edge, Node, BucketState, StorageConfig, Storage, contains, bucket_index,
  bucket_or_empty, ensure_bucket, add_resident,
}
use sparse_branch_machine.Storage.Cores.{core, SameCores, SameCores-trans, contains-SameCores}
use sparse_branch_machine.Storage.Marks.{
  Marked, Marked-trans, Marked-refl, KeptBucket-refl, mark_hot-Marked,
}

take-nil {ℓ} : {A : Type ℓ} (n : ℕ) → take {A = A} n [] ≡ []
take-nil zero = refl
take-nil (suc n) = refl

take-snoc {ℓ} :
    {A : Type ℓ} (n : ℕ) (xs : List A) (x : A)
    → take n (xs ++ (x ∷ []))
      ≡ (if ltb (length (take n xs)) n then take n xs ++ (x ∷ []) else take n xs)
take-snoc zero xs x = refl
take-snoc (suc n) [] x = rw (take-nil n) (ground arith)
take-snoc (suc n) (y ∷ xs) x = ground (arith, take-snoc n xs x)

-- A bucket with the given residents, the first of them cold and none hot.
abbrev pub IsFilled : StorageConfig → List ℕ → BucketState → Type 0
IsFilled config residents state =
    (state.residents ≡ residents)
    × (state.cold ≡ take config.bucket_scan_limit residents)
    × (state.hot ≡ [])

add_resident-IsFilled :
    (config : StorageConfig) (residents : List ℕ) (id : ℕ) (state : BucketState)
    → IsFilled config residents state
    → IsFilled config (residents ++ (id ∷ [])) (add_resident config id state)
add_resident-IsFilled config residents id state (r, c, h) =
    (rw r refl, rw (c, take-snoc config.bucket_scan_limit residents id) refl, h)

dated_bucket-IsFilled :
    (config : StorageConfig) (residents : List ℕ) (o : Option BucketState) (state : BucketState)
    (current : List ℕ)
    → IsFilled config residents state
    → IsFilled config residents (dated_bucket o state current)
dated_bucket-IsFilled config residents none state current f = f
dated_bucket-IsFilled config residents (some found) state [] f = f
dated_bucket-IsFilled config residents (some found) state (id ∷ ids) f = f

module _ {float : Type 0} where
  -- The ids of the nodes that belong to a bucket, in the order of the slots.
  unfoldable pub ids_in : StorageConfig → ℕ → List (Node float) → List ℕ
  ids_in config i [] = []
  ids_in config i (node ∷ nodes) =
      let rest = ids_in config i nodes in
      if bucket_index config node.channel node.prototype == i then node.id ∷ rest else rest

  module _ (config : StorageConfig) (previous : ℕ → Option BucketState) where
    index_loop-IsFilled :
        (i : ℕ) (nodes : List (Node float)) (directory : ℕ → Option BucketState)
        (residents : List ℕ)
        → IsFilled config residents (bucket_or_empty (directory i))
        → IsFilled config
            (residents ++ ids_in config i nodes)
            (bucket_or_empty (index_loop config previous nodes directory i))
    unfolding index_loop ids_in ensure_bucket
    index_loop-IsFilled i [] directory residents f = rw (append-nil residents) f
    index_loop-IsFilled i (node ∷ nodes) directory residents f = elim (Bool-cases (index == i)) [
      | inl here ↦
          let at : index ≡ i = (==_iff index i).0 here in
          let filled : IsFilled config residents state = rw at f in
          rw (here, ← append_assoc residents (node.id ∷ []) (ids_in config i nodes))
            (index_loop-IsFilled i nodes _ (residents ++ (node.id ∷ [])) (
              rw (lemma_here at) (
                add_resident-IsFilled config residents node.id dated (
                  dated_bucket-IsFilled config residents (previous index) state state.residents
                    filled))))
      | inr there ↦
          let away : (i == index) ≡ false = ground arith in
          rw there (index_loop-IsFilled i nodes _ residents (rw away f))
    ]
      where
        index : ℕ
        index = bucket_index config node.channel node.prototype

        state : BucketState
        state = bucket_or_empty (directory index)

        dated : BucketState
        dated = dated_bucket (previous index) state state.residents

        lemma_here : index ≡ i → (i == index) ≡ true
        lemma_here e = ground arith

  reheat-Marked :
      (floats : FloatTests float) (config : StorageConfig) (storage : Storage float) (slot : ℕ)
      (o : Option (Node float))
      → get_elem? storage.nodes slot ≡ o
      → Marked config.bucket_scan_limit storage (reheat floats config storage slot o)
  reheat-Marked floats config storage slot none e = Marked-refl config.bucket_scan_limit storage
  reheat-Marked floats config storage slot (some node) e = elim (Bool-cases node.hot_indexed) [
    | inl hot ↦ rw hot (
        Marked-trans config.bucket_scan_limit storage cooled _ cool
          (mark_hot-Marked floats config cooled node.id))
    | inr cold ↦ rw cold cool
  ]
    where
      cooled : Storage float
      cooled = cool_node storage slot node

      cool : Marked config.bucket_scan_limit storage (cool_node storage slot node)
      cool = record {
        cores = record {
          nodes =
              map-set_same core storage.nodes slot node (record node { hot_indexed = false }) e
                refl;
          table = refl;
          counter = refl;
        };
        buckets = λ i. KeptBucket-refl config.bucket_scan_limit _;
      }

  pub reheat_loop-Marked :
      (floats : FloatTests float) (config : StorageConfig) (rounds slot : ℕ)
      (storage : Storage float)
      → Marked config.bucket_scan_limit storage (reheat_loop floats config rounds slot storage)
  unfolding reheat_loop
  reheat_loop-Marked floats config zero slot storage = Marked-refl config.bucket_scan_limit storage
  reheat_loop-Marked floats config (suc rounds) slot storage =
      let next = reheat floats config storage slot (get_elem? storage.nodes slot) in
      Marked-trans config.bucket_scan_limit storage next _
        (reheat-Marked floats config storage slot (get_elem? storage.nodes slot) refl)
        (reheat_loop-Marked floats config rounds (slot + 1) next)

  live_edges-All :
      (storage : Storage float) (edges : List (Edge float))
      → All (λ (edge : Edge float). contains storage edge.dst ≡ true) (live_edges storage edges)
  unfolding live_edges
  live_edges-All storage [] = tt
  live_edges-All storage (edge ∷ edges) = elim (Bool-cases (contains storage edge.dst)) [
    | inl live ↦ rw (live, live_edges) (live, live_edges-All storage edges)
    | inr stale ↦ rw stale (live_edges-All storage edges)
  ]

  module _ (floats : FloatTests float) (config : StorageConfig) (storage : Storage float) where
    indexed : Storage float
    indexed = record storage {
      bucket_directory =
          index_loop config storage.bucket_directory storage.nodes (λ (index : ℕ). none);
    }

    heated : Storage float
    unfolding indexed
    heated = reheat_loop floats config (length storage.nodes) 0 indexed

    heating : Marked config.bucket_scan_limit indexed heated
    unfolding heated
    heating = reheat_loop-Marked floats config (length storage.nodes) 0 indexed

    trimming : SameCores heated (rebuild_indexes floats config storage)
    unfolding rebuild_indexes heated indexed
    trimming = record {
      nodes =
          map-map_same core (λ (node : Node float). trim_edges heated node) (λ a. refl)
            heated.nodes;
      table = refl;
      counter = refl;
    }

    pub rebuild_indexes-SameCores : SameCores storage (rebuild_indexes floats config storage)
    unfolding indexed
    rebuild_indexes-SameCores =
        SameCores-trans storage heated _
          (record {
            nodes = heating.cores.nodes;
            table = heating.cores.table;
            counter = heating.cores.counter;
          })
          trimming

    -- After `rebuild_indexes`, the residents of every bucket are the ids of the nodes that belong to
    -- it, in the order of the slots; its cold list is the first of them up to the scan limit, and its
    -- hot list is no longer than that limit.
    pub rebuild_indexes-buckets :
        (i : ℕ)
        → let state =
            bucket_or_empty ((rebuild_indexes floats config storage).bucket_directory i) in
          (state.residents ≡ ids_in config i storage.nodes)
          × (state.cold ≡ take config.bucket_scan_limit (ids_in config i storage.nodes))
          × (length state.hot ≤ config.bucket_scan_limit)
    unfolding rebuild_indexes heated indexed
    rebuild_indexes-buckets i =
        let (r, c, h) =
          index_loop-IsFilled config storage.bucket_directory i storage.nodes (λ (index : ℕ). none)
            [] (refl, sym (take-nil config.bucket_scan_limit), refl) in
        let (r', c', l', few) = heating.buckets i in (r' ∙ r, c' ∙ c, few (rw h (omega arith)))

    -- After `rebuild_indexes`, every edge of every node leads to a node that is stored.
    pub rebuild_indexes-live_edges :
        (j : ℕ) (node : Node float)
        → get_elem? (rebuild_indexes floats config storage).nodes j ≡ some node
        → All
            (λ (edge : Edge float).
              contains (rebuild_indexes floats config storage) edge.dst ≡ true)
            node.edges
    unfolding rebuild_indexes heated indexed
    rebuild_indexes-live_edges j node e = elim (Option-cases (get_elem? heated.nodes j)) [
      | inl gone ↦ let no : none ≡ some node = rw (at_j, gone, Option.map) at e in absurd (cc)
      | inr (before, here) ↦
          let same : some (trim_edges heated before) ≡ some node =
            rw (at_j, here, Option.map) at e in
          let trimmed : trim_edges heated before ≡ node = some-injective _ _ same in
          rw (← trimmed) (
            All-map (λ edge live. contains-SameCores heated _ trimming edge.dst ∙ live)
              (live_edges heated before.edges) (live_edges-All heated before.edges))
    ]
      where
        at_j :
            get_elem? (map (λ (n : Node float). trim_edges heated n) heated.nodes) j
            ≡ Option.map (λ (n : Node float). trim_edges heated n) (get_elem? heated.nodes j)
        at_j = get_elem?-map (λ (n : Node float). trim_edges heated n) heated.nodes j
