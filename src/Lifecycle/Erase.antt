-- ===== src/Lifecycle/Erase.antt =====
-- modules/machine_topology.cpp: how a channel is erased, with its nodes.
use sparse_branch_machine.Base.{
  ℕ, zero, suc, Bool, true, false, ◌||◌, leb, ◌==◌, if◌then◌else◌, Option, none, some, List, [],
  ◌∷◌, get_elem?, set, length,
}
use sparse_branch_machine.Maintenance.{erase_slot, rebuild_indexes}
use sparse_branch_machine.Storage.{Node, Storage}
use sparse_branch_machine.Storage.Buckets.{node_of}
use sparse_branch_machine.Topology.{ChannelState, ChannelPhase, retired_phase}
use sparse_branch_machine.Lifecycle.{ValueOps, Machine, LifecycleConfig}

module _ {float : Type 0} where
  abbrev pub on_channel : ℕ → Option (Node float) → Bool
  on_channel channel none = false
  on_channel channel (some node) = node.channel == channel

  -- The loop over the slots, from the last one down.
  unfoldable pub erase_channel_loop : ℕ → ℕ → Storage float → Storage float
  unfolding erase_slot
  erase_channel_loop channel zero storage = storage
  erase_channel_loop channel (suc slot) storage = erase_channel_loop channel slot (
      if on_channel channel (get_elem? storage.nodes slot)
      then erase_slot storage slot
      else storage)

  -- `slot == SIZE_MAX || channels_[slot] == channel`
  abbrev pub leaves_route : ℕ → Option (Node float) → Bool
  leaves_route channel none = true
  leaves_route channel (some node) = node.channel == channel

  abbrev pub responsibility_or : float → List float → float
  responsibility_or one [] = one
  responsibility_or one (r ∷ rs) = r

  abbrev pub rest_of : List float → List float
  rest_of [] = []
  rest_of (r ∷ rs) = rs

  -- The route and the responsibilities that stay. A missing responsibility is 1.
  unfoldable pub filter_route :
      float → ℕ → Storage float → List ℕ → List float → List ℕ × List float
  unfolding node_of
  filter_route one channel storage [] responsibilities = ([], [])
  filter_route one channel storage (id ∷ route) responsibilities =
      let (ids, kept) = filter_route one channel storage route (rest_of responsibilities) in
      if leaves_route channel (node_of storage id)
      then (ids, kept)
      else (id ∷ ids, responsibility_or one responsibilities ∷ kept)

module _ {float double : Type 0} where
  -- `topology_[channel].phase = phase`
  abbrev pub set_phase :
      List (ChannelState float double) → ℕ → ChannelPhase → List (ChannelState float double)
  set_phase topology channel phase = elim (get_elem? topology channel) [
    | none ↦ topology
    | some state ↦ set topology channel (record state { phase = phase })
  ]

  -- `if (channel >= topology_.size() || channel == 0U) return;`, then the write.
  abbrev pub guarded_phase :
      List (ChannelState float double) → ℕ → ChannelPhase → List (ChannelState float double)
  guarded_phase topology channel phase =
      if leb (length topology) channel || channel == 0
      then topology
      else set_phase topology channel phase

  abbrev pub erase_channel :
      ValueOps float double
      → LifecycleConfig float
      → Machine float double
      → ℕ
      → Machine float double
  erase_channel ops config machine channel =
      let erased = erase_channel_loop channel (length machine.storage.nodes) machine.storage in
      let (route, kept) =
        filter_route ops.tests.one channel erased machine.previous_route
          machine.previous_responsibilities in
      record machine {
        topology = set_phase machine.topology channel retired_phase;
        reuse = record machine.reuse { channels = set machine.reuse.channels channel [] };
        storage = rebuild_indexes ops.tests config.storage_config erased;
        previous_route = route;
        previous_responsibilities = kept;
        trace = [];
      }

  unfoldable pub physically_erase_channel :
      ValueOps float double
      → LifecycleConfig float
      → Machine float double
      → ℕ
      → Machine float double
  unfolding erase_channel_loop filter_route rebuild_indexes
  physically_erase_channel ops config machine channel =
      if leb (length machine.topology) channel || channel == 0
      then machine
      else erase_channel ops config machine channel
