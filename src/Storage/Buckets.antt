-- ===== src/Storage/Buckets.antt =====
-- modules/machine_storage.cpp: `bounded_bucket_nodes` and `mark_hot`, and the node of an id.
use sparse_branch_machine.Base.{
  ℕ, zero, suc, ◌+◌, ◌-◌, min, max, Bool, true, false, ◌||◌, not, ltb, ◌==◌, if◌then◌else◌, Option,
  none, some, List, [], ◌∷◌, ◌++◌, get_elem?, set, length,
}
use sparse_branch_machine.Storage.{
  FloatTests, Node, BucketState, StorageConfig, Storage, slot_of, contains, bucket_index,
  ensure_bucket, put_bucket,
}
use sparse_branch_machine.Topology.Reuse.{next_u64}

-- `std::find` on a list of ids.
unfoldable pub has_id : ℕ → List ℕ → Bool
has_id id [] = false
has_id id (x ∷ xs) = x == id || has_id id xs

-- The scratch list of ids and the two counters, while a bucket is read.
pub record Scan : Type 0 where
  pub found : List ℕ
  pub stale : ℕ

module _ {float : Type 0} where
  -- The lambda `append`.
  unfoldable pub append_id : Storage float → ℕ → Scan → Scan
  unfolding contains has_id
  append_id storage id scan =
      if not (contains storage id)
      then record scan { stale = next_u64 scan.stale }
      else (if has_id id scan.found then scan else record scan { found = scan.found ++ (id ∷ []) })

  -- The first `budget` ids of a list, and how many were inspected.
  unfoldable pub scan_ids : Storage float → ℕ → List ℕ → Scan → Scan
  unfolding append_id
  scan_ids storage zero ids scan = scan
  scan_ids storage (suc budget) [] scan = scan
  scan_ids storage (suc budget) (id ∷ ids) scan =
      scan_ids storage budget ids (append_id storage id scan)

  abbrev pub scan_bucket : Storage float → ℕ → BucketState → Storage float × List ℕ
  scan_bucket storage limit state =
      let hot_inspected = min (length state.hot) limit in
      let attempts = min (length state.cold) (limit - hot_inspected) in
      let start : Scan = record { found = []; stale = storage.stale_bucket_refs_skipped } in
      let scan = scan_ids storage attempts state.cold (scan_ids storage limit state.hot start) in
      (
        record storage {
          stale_bucket_refs_skipped = scan.stale;
          max_bucket_candidates_inspected =
              max storage.max_bucket_candidates_inspected (hot_inspected + attempts);
        },
        scan.found,
      )

  unfoldable pub bounded_bucket_nodes :
      StorageConfig → Storage float → ℕ → ℕ → Storage float × List ℕ
  unfolding scan_ids
  bounded_bucket_nodes config storage index limit =
      let bound = min limit config.bucket_scan_limit in
      elim (storage.bucket_directory index) [
        | none ↦ (storage, [])
        | some state ↦ if bound == 0 then (storage, []) else scan_bucket storage bound state
      ]

  -- The node at an id's slot.
  abbrev pub node_at : List (Node float) → Option ℕ → Option (Node float)
  node_at nodes none = none
  node_at nodes (some slot) = get_elem? nodes slot

  unfoldable pub node_of : Storage float → ℕ → Option (Node float)
  unfolding slot_of
  node_of storage id = node_at storage.nodes (slot_of storage id)

  -- The lambda `weaker`, on the nodes of the two ids.
  abbrev pub is_weaker_node :
      FloatTests float → ℕ → ℕ → Option (Node float) → Option (Node float) → Bool
  is_weaker_node floats left right none other = true
  is_weaker_node floats left right (some l) none = false
  is_weaker_node floats left right (some l) (some r) =
      if floats.differ l.utility_ema r.utility_ema
      then floats.less l.utility_ema r.utility_ema
      else (if not (l.visits == r.visits) then ltb l.visits r.visits else ltb right left)

  unfoldable pub weaker : FloatTests float → Storage float → ℕ → ℕ → Bool
  unfolding node_of
  weaker floats storage left right =
      is_weaker_node floats left right (node_of storage left) (node_of storage right)

  -- `std::min_element`: the place and the id of the first of the weakest.
  unfoldable pub weakest_id_loop : FloatTests float → Storage float → List ℕ → ℕ → ℕ → ℕ → ℕ × ℕ
  unfolding weaker
  weakest_id_loop floats storage [] index at best = (at, best)
  weakest_id_loop floats storage (id ∷ ids) index at best =
      let better = weaker floats storage id best in
      weakest_id_loop floats storage ids (index + 1) (if better then index else at)
        (if better then id else best)

  -- `hot_indexed_[slot] = flag`, where there is such a slot.
  abbrev pub flag_node : Bool → Option ℕ → List (Node float) → List (Node float)
  flag_node flag none nodes = nodes
  flag_node flag (some slot) nodes = elim (get_elem? nodes slot) [
    | none ↦ nodes
    | some node ↦ set nodes slot (record node { hot_indexed = flag })
  ]

  -- The rest of `mark_hot`, when the hot list is full.
  unfoldable pub replace_victim :
      FloatTests float → Storage float → ℕ → ℕ → ℕ → BucketState → List ℕ → Storage float
  unfolding weakest_id_loop weaker slot_of
  replace_victim floats storage id slot index state [] = storage
  replace_victim floats storage id slot index state (first ∷ rest) =
      let (at, victim) = weakest_id_loop floats storage rest 1 0 first in
      if not (weaker floats storage victim id) then storage else record storage {
        nodes = flag_node true (some slot) (flag_node false (slot_of storage victim) storage.nodes);
        bucket_directory =
            put_bucket storage.bucket_directory index (record state { hot = set state.hot at id });
      }

  -- With the bucket ensured: the three cases of the hot list.
  unfoldable pub mark_in_bucket :
      FloatTests float → StorageConfig → Storage float → ℕ → ℕ → ℕ → BucketState → Storage float
  unfolding has_id replace_victim
  mark_in_bucket floats config storage id slot index state =
      let marked = flag_node true (some slot) storage.nodes in
      if has_id id state.hot
      then record storage { nodes = marked }
      else (if ltb (length state.hot) config.bucket_scan_limit
          then record storage {
            nodes = marked;
            bucket_directory =
                put_bucket storage.bucket_directory index
                  (record state { hot = state.hot ++ (id ∷ []) });
          }
          else replace_victim floats storage id slot index state state.hot)

  unfoldable pub mark_node :
      FloatTests float → StorageConfig → Storage float → ℕ → ℕ → Node float → Storage float
  unfolding mark_in_bucket bucket_index ensure_bucket
  mark_node floats config storage id slot node =
      let index = bucket_index config node.channel node.prototype in
      let state = ensure_bucket storage.bucket_directory index in
      mark_in_bucket floats config
        (record storage { bucket_directory = put_bucket storage.bucket_directory index state }) id
        slot index state

  unfoldable pub mark_hot : FloatTests float → StorageConfig → Storage float → ℕ → Storage float
  unfolding slot_of mark_node
  mark_hot floats config storage id = elim (slot_of storage id) [
    | none ↦ storage
    | some slot ↦ (elim (get_elem? storage.nodes slot) [
      | none ↦ storage
      | some node ↦ mark_node floats config storage id slot node
    ])
  ]
