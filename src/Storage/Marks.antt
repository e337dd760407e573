-- ===== src/Storage/Marks.antt =====
-- modules/machine_storage.cpp: `mark_hot` changes hot lists and marks only.
use sparse_branch_machine.Base.{
  ℕ, ◌≤◌, ◌≡◌, refl, arith, ◌∙◌, Bool, true, false, ◌==◌, ltb, Bool-cases, Option-cases, inl, inr,
  Option, none, some, List, [], ◌∷◌, ◌++◌, map, get_elem?, set, length, length-append, length-set,
}
use sparse_branch_machine.Base.Elements.{map-set_same}
use sparse_branch_machine.Storage.{
  FloatTests, Node, BucketState, StorageConfig, Storage, slot_of, bucket_index, bucket_or_empty,
  put_bucket, ensure_bucket,
}
use sparse_branch_machine.Storage.Buckets.{
  flag_node, replace_victim, mark_in_bucket, mark_node, mark_hot, weaker, has_id, weakest_id_loop,
}
use sparse_branch_machine.Storage.Cores.{core, SameCores}

-- A bucket and what a marking may make of it.
abbrev pub KeptBucket : ℕ → BucketState → BucketState → Type 0
KeptBucket limit old new =
    (new.residents ≡ old.residents)
    × (new.cold ≡ old.cold)
    × (new.last_split_step ≡ old.last_split_step)
    × (length old.hot ≤ limit → length new.hot ≤ limit)

pub KeptBucket-refl : (limit : ℕ) (state : BucketState) → KeptBucket limit state state
KeptBucket-refl limit state = (refl, refl, refl, λ h. h)

put-KeptBucket :
    (limit : ℕ) (directory : ℕ → Option BucketState) (index : ℕ) (state : BucketState)
    → KeptBucket limit (bucket_or_empty (directory index)) state
    → (i : ℕ)
    → KeptBucket limit
        (bucket_or_empty (directory i))
        (bucket_or_empty (put_bucket directory index state i))
put-KeptBucket limit directory index state kept i = elim (Bool-cases (i == index)) [
  | inl here ↦ let at : i ≡ index = ground arith in rw (here, at) kept
  | inr there ↦ rw there (KeptBucket-refl limit (bucket_or_empty (directory i)))
]

module _ {float : Type 0} where
  pub record Marked (limit : ℕ) (old new : Storage float) : Type 0 where
    pub cores : SameCores old new
    pub buckets :
        (i : ℕ)
        → KeptBucket limit
            (bucket_or_empty (old.bucket_directory i))
            (bucket_or_empty (new.bucket_directory i))

  pub flag_node-core :
      (flag : Bool) (o : Option ℕ) (nodes : List (Node float))
      → map core (flag_node flag o nodes) ≡ map core nodes
  flag_node-core flag none nodes = refl
  flag_node-core flag (some slot) nodes = elim (Option-cases (get_elem? nodes slot)) [
    | inl gone ↦ rw (gone, flag_node) refl
    | inr (node, here) ↦
        rw (here, flag_node)
          (map-set_same core nodes slot node (record node { hot_indexed = flag }) here refl)
  ]

  pub Marked-trans :
      (limit : ℕ) (a b c : Storage float) → Marked limit a b → Marked limit b c → Marked limit a c
  Marked-trans limit a b c p q = record {
    cores = record {
      nodes = q.cores.nodes ∙ p.cores.nodes;
      table = q.cores.table ∙ p.cores.table;
      counter = q.cores.counter ∙ p.cores.counter;
    };
    buckets = λ i.
        let (r, k, l, h) = p.buckets i in
        let (r', k', l', h') = q.buckets i in (r' ∙ r, k' ∙ k, l' ∙ l, λ few. h' (h few));
  }

  pub Marked-refl : (limit : ℕ) (storage : Storage float) → Marked limit storage storage
  Marked-refl limit storage = record {
    cores = record { nodes = refl; table = refl; counter = refl };
    buckets = λ i. KeptBucket-refl limit _;
  }

  module _ (floats : FloatTests float) (config : StorageConfig) (id slot index : ℕ)
      (state : BucketState) where
    replace_victim-Marked :
        (storage : Storage float)
        → bucket_or_empty (storage.bucket_directory index) ≡ state
        → (hot : List ℕ)
        → Marked config.bucket_scan_limit storage
            (replace_victim floats storage id slot index state hot)
    unfolding replace_victim
    replace_victim-Marked storage there [] = Marked-refl config.bucket_scan_limit storage
    replace_victim-Marked storage there (first ∷ rest) =
        elim (Bool-cases (weaker floats storage found.1 id)) [
          | inl yields ↦ rw yields (record {
            cores = record {
              nodes =
                  flag_node-core true (some slot) _
                  ∙ flag_node-core false (slot_of storage found.1) storage.nodes;
              table = refl;
              counter = refl;
            };
            buckets =
                put-KeptBucket config.bucket_scan_limit storage.bucket_directory index
                  (record state { hot = set state.hot found.0 id })
                  (rw there (refl, refl, refl, λ few. rw (length-set state.hot found.0 id) few));
          })
          | inr stays ↦ rw stays (Marked-refl config.bucket_scan_limit storage)
        ]
      where
        found : ℕ × ℕ
        found = weakest_id_loop floats storage rest 1 0 first

    mark_in_bucket-Marked :
        (storage : Storage float)
        → bucket_or_empty (storage.bucket_directory index) ≡ state
        → Marked config.bucket_scan_limit storage
            (mark_in_bucket floats config storage id slot index state)
    unfolding mark_in_bucket
    mark_in_bucket-Marked storage there = elim (Bool-cases (has_id id state.hot)) [
      | inl hot ↦ rw hot (record {
        cores = record {
          nodes = flag_node-core true (some slot) storage.nodes;
          table = refl;
          counter = refl;
        };
        buckets = λ i. KeptBucket-refl config.bucket_scan_limit _;
      })
      | inr cold ↦ elim (Bool-cases (ltb (length state.hot) config.bucket_scan_limit)) [
        | inl room ↦
            rw (cold, room)
              (record {
                cores = record {
                  nodes = flag_node-core true (some slot) storage.nodes;
                  table = refl;
                  counter = refl;
                };
                buckets =
                    put-KeptBucket config.bucket_scan_limit storage.bucket_directory index
                      (record state { hot = state.hot ++ (id ∷ []) })
                      (rw there (
                        refl,
                        refl,
                        refl,
                        λ few. ground (arith, length-append state.hot (id ∷ [])),
                      ));
              })
        | inr full ↦ rw (cold, full) (replace_victim-Marked storage there state.hot)
      ]
    ]

  module _ (floats : FloatTests float) (config : StorageConfig) (storage : Storage float) where
    mark_node-Marked :
        (id slot : ℕ) (node : Node float)
        → Marked config.bucket_scan_limit storage (mark_node floats config storage id slot node)
    unfolding mark_node ensure_bucket
    mark_node-Marked id slot node =
        Marked-trans config.bucket_scan_limit storage ensured _
          (record {
            cores = record { nodes = refl; table = refl; counter = refl };
            buckets =
                put-KeptBucket config.bucket_scan_limit storage.bucket_directory index state
                  (KeptBucket-refl config.bucket_scan_limit state);
          })
          (mark_in_bucket-Marked floats config id slot index state ensured (ground arith))
      where
        index : ℕ
        index = bucket_index config node.channel node.prototype

        state : BucketState
        state = bucket_or_empty (storage.bucket_directory index)

        ensured : Storage float
        ensured = record storage {
          bucket_directory = put_bucket storage.bucket_directory index state;
        }

    pub mark_hot-Marked :
        (id : ℕ) → Marked config.bucket_scan_limit storage (mark_hot floats config storage id)
    unfolding mark_hot
    mark_hot-Marked id = elim (Option-cases (slot_of storage id)) [
      | inl gone ↦ rw (gone, mark_hot) (Marked-refl config.bucket_scan_limit storage)
      | inr (slot, here) ↦ elim (Option-cases (get_elem? storage.nodes slot)) [
        | inl none_there ↦
            rw (here, none_there, mark_hot) (Marked-refl config.bucket_scan_limit storage)
        | inr (node, there) ↦ rw (here, there, mark_hot) (mark_node-Marked id slot node)
      ]
    ]
