-- ===== src/Storage.antt =====
-- modules/machine_storage.cpp: the nodes of the machine, the table from ids to slots, and
-- `new_node`. The arrays that run in parallel are one list of records, cut by slot.
pub mod Buckets
pub mod Table
pub mod Scans
pub mod Cores
pub mod Marks
pub mod Insert
use sparse_branch_machine.Base.{
  ℕ, zero, suc, ◌+◌, ◌-◌, ◌*◌, ◌/◌, ◌%◌, ◌^◌, Bool, true, false, ◌||◌, ◌&&◌, not, ltb, leb, ◌==◌,
  if◌then◌else◌, Option, none, some, List, [], ◌∷◌, ◌++◌, get_elem?, set, replicate, length, Result,
  ok, throw_if, overflow_error, out_of_range, ◌>>◌, and_then, throw,
}
use sparse_branch_machine.Topology.{ChannelState, channel_enabled}
use sparse_branch_machine.Topology.Reuse.{next_u64}

-- The constants and the tests on `float` that the storage uses.
pub record FloatTests (float : Type 0) : Type 0 where
  pub nought : float
  pub one : float
  pub less : float → float → Bool
  pub differ : float → float → Bool

-- `kInvalidNode`, and the mark of an absent slot in `id_to_slot`: `UINT32_MAX`.
abbrev pub invalid_node : ℕ
invalid_node = 4294967295

pub data NodePhase : Type 0 where
  cold_phase warm_phase mature_phase dormant_phase : NodePhase

pub record Edge (float : Type 0) : Type 0 where
  pub dst : ℕ
  pub weight : float
  pub eligibility : float

pub record SparseOutputEntry (float : Type 0) : Type 0 where
  pub decision : ℕ
  pub logit : float
  pub visits : ℕ
  pub gain_ema : float
  pub last_update_step : ℕ
  pub momentum : float
  pub variance : float

pub record SparseAdmissionCandidate : Type 0 where
  pub decision : ℕ
  pub sightings : ℕ
  pub last_seen_step : ℕ

-- What the parallel arrays hold at one slot; `output` is its part of `output_vectors_`.
pub record Node (float : Type 0) : Type 0 where
  pub id : ℕ
  pub prototype : ℕ
  pub visits : ℕ
  pub address_visits : ℕ
  pub utility_ema : float
  pub loss_ema : float
  pub address_loss_ema : float
  pub phase : NodePhase
  pub channel : ℕ
  pub hot_indexed : Bool
  pub parent : ℕ
  pub output : List float
  pub sparse_outputs : List (SparseOutputEntry float)
  pub sparse_admission : List SparseAdmissionCandidate
  pub evicted_mask : ℕ
  pub edges : List (Edge float)

pub record BucketState : Type 0 where
  pub residents : List ℕ
  pub hot : List ℕ
  pub cold : List ℕ
  pub last_split_step : ℕ

-- The fields of `Config` that the storage reads.
pub record StorageConfig : Type 0 where
  pub token_cross_entropy : Bool
  pub sparse_token_output : Bool
  pub bucket_bits : ℕ
  pub bucket_scan_limit : ℕ

-- The bucket directory is a map: a function from the index.
pub record Storage (float : Type 0) : Type 0 where
  pub nodes : List (Node float)
  pub id_to_slot : List ℕ
  pub next_id : ℕ
  pub bucket_directory : ℕ → Option BucketState
  pub total_created : ℕ
  pub total_pruned : ℕ
  pub stale_bucket_refs_skipped : ℕ
  pub max_bucket_candidates_inspected : ℕ

abbrev pub uses_sparse_token_output : StorageConfig → Bool
uses_sparse_token_output config = config.token_cross_entropy && config.sparse_token_output

-- `signature >> (64U - config_.bucket_bits)`, and the index of the channel's bucket.
unfoldable pub bucket : StorageConfig → ℕ → ℕ
bucket config signature = signature / 2 ^ (64 - config.bucket_bits) % 2 ^ 32

unfoldable pub bucket_index : StorageConfig → ℕ → ℕ → ℕ
unfolding bucket
bucket_index config channel signature =
    (channel * 2 ^ config.bucket_bits + bucket config signature) % 2 ^ 64

abbrev pub empty_bucket : BucketState
empty_bucket = record { residents = []; hot = []; cold = []; last_split_step = 0 }

-- The reference that `ensure_bucket` returns: the bucket there is, or an empty one.
abbrev pub bucket_or_empty : Option BucketState → BucketState
bucket_or_empty none = empty_bucket
bucket_or_empty (some state) = state

unfoldable pub ensure_bucket : (ℕ → Option BucketState) → ℕ → BucketState
ensure_bucket directory index = bucket_or_empty (directory index)

-- The directory after a write through that reference.
abbrev pub put_bucket : (ℕ → Option BucketState) → ℕ → BucketState → ℕ → Option BucketState
put_bucket directory index state other = if other == index then some state else directory other

abbrev pub add_resident : StorageConfig → ℕ → BucketState → BucketState
add_resident config id state = record state {
  residents = state.residents ++ (id ∷ []);
  cold =
      if ltb (length state.cold) config.bucket_scan_limit
      then state.cold ++ (id ∷ [])
      else state.cold;
}

-- `id_to_slot_.resize(id + 1, UINT32_MAX)`, where the table is too short.
abbrev pub grown : ℕ → List ℕ → List ℕ
grown id table =
    if leb (length table) id then table ++ replicate (id + 1 - length table) invalid_node else table

module _ {float : Type 0} where
  -- `slot == UINT32_MAX || slot >= ids_.size() || ids_[slot] != id`; `none` stands for `SIZE_MAX`.
  abbrev pub checked_slot : ℕ → ℕ → Option (Node float) → Option ℕ
  checked_slot id slot none = none
  checked_slot id slot (some node) =
      if slot == invalid_node || not (node.id == id) then none else some slot

  abbrev pub slot_entry : List (Node float) → ℕ → Option ℕ → Option ℕ
  slot_entry nodes id none = none
  slot_entry nodes id (some slot) = checked_slot id slot (get_elem? nodes slot)

  unfoldable pub slot_of : Storage float → ℕ → Option ℕ
  slot_of storage id = slot_entry storage.nodes id (get_elem? storage.id_to_slot id)

  unfoldable pub contains : Storage float → ℕ → Bool
  unfolding slot_of
  contains storage id = elim (slot_of storage id) [ none ↦ false | some slot ↦ true ]

  -- The node that `new_node` appends.
  abbrev pub fresh_node : FloatTests float → StorageConfig → ℕ → ℕ → List float → ℕ → ℕ → Node float
  fresh_node floats config id signature initial parent channel = record {
    id = id;
    prototype = signature;
    visits = 0;
    address_visits = 0;
    utility_ema = floats.nought;
    loss_ema = floats.one;
    address_loss_ema = floats.one;
    phase = cold_phase;
    channel = channel;
    hot_indexed = false;
    parent = parent;
    output = if uses_sparse_token_output config then [] else initial;
    sparse_outputs = [];
    sparse_admission = [];
    evicted_mask = 0;
    edges = [];
  }

  unfoldable pub insert_node : StorageConfig → Storage float → Node float → Storage float
  unfolding bucket_index ensure_bucket
  insert_node config storage node =
      let index = bucket_index config node.channel node.prototype in
      let slot = length storage.nodes % 2 ^ 32 in
      record storage {
        nodes = storage.nodes ++ (node ∷ []);
        id_to_slot = set (grown node.id storage.id_to_slot) node.id slot;
        next_id = (storage.next_id + 1) % 2 ^ 32;
        bucket_directory =
            put_bucket storage.bucket_directory index
              (add_resident config node.id (ensure_bucket storage.bucket_directory index));
        total_created = next_u64 storage.total_created;
      }

  -- The new storage and the id of the node.
  unfoldable pub new_node :
      {double : Type 0}
      → FloatTests float
      → StorageConfig
      → List (ChannelState float double)
      → Storage float
      → ℕ
      → List float
      → ℕ
      → ℕ
      → Result (Storage float × ℕ)
  unfolding insert_node channel_enabled
  new_node floats config topology storage signature initial parent channel =
      throw_if (storage.next_id == invalid_node) overflow_error
      >> throw_if (leb (length topology) channel || not (channel_enabled topology channel))
          out_of_range
      >> ok (
        insert_node config storage
            (fresh_node floats config storage.next_id signature initial parent channel),
        storage.next_id,
      )
