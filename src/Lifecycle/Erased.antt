-- ===== src/Lifecycle/Erased.antt =====
-- modules/machine_topology.cpp: what `physically_erase_channel` leaves of the nodes and the route.
use mathlib.Core.Option
use sparse_branch_machine.Base.{
  ℕ, zero, suc, ◌+◌, ◌<◌, ◌≡◌, ◌≢◌, refl, sym, ap, arith, ◌∙◌, Bool, false, ◌||◌, leb, ◌==◌,
  Bool-cases, Option-cases, inl, inr, Option, none, some, List, [], ◌∷◌, get_elem?, length, All,
  All-map,
}
use sparse_branch_machine.Base.Elements.{get_elem?-set, get_elem?-lt}
use sparse_branch_machine.Lifecycle.{ValueOps, Machine, LifecycleConfig}
use sparse_branch_machine.Lifecycle.Erase.{
  on_channel, erase_channel_loop, leaves_route, rest_of, filter_route, set_phase,
  physically_erase_channel,
}
use sparse_branch_machine.Maintenance.{erase_slot}
use sparse_branch_machine.Maintenance.Erase.{erase_slot-IsIndexed}
use sparse_branch_machine.Maintenance.Filter.{
  spared, IsClean, IsFiltered, clean-IsFiltered, IsClean-erase_slot, erased-IsFiltered,
  IsClean-missed, IsClean-end,
}
use sparse_branch_machine.Maintenance.Rebuild.{rebuild_indexes-SameCores}
use sparse_branch_machine.Storage.{Node, Storage}
use sparse_branch_machine.Storage.Buckets.{node_of}
use sparse_branch_machine.Storage.Cores.{core, SameCores, node_of-SameCores, IsIndexed-SameCores}
use sparse_branch_machine.Storage.Table.{IsIndexed}
use sparse_branch_machine.Topology.{ChannelState, retired_phase}

module _ {float : Type 0} (channel : ℕ) where
  abbrev pub of_channel : Node float → Bool
  of_channel node = node.channel == channel

  erase_channel_loop-IsFiltered :
      (k : ℕ) (storage : Storage float) (pruned : ℕ)
      → IsIndexed storage
      → IsClean of_channel k storage
      → (total : ℕ) × IsFiltered of_channel storage
          (erase_channel_loop channel k storage)
          pruned
          total
  unfolding erase_channel_loop
  erase_channel_loop-IsFiltered zero storage pruned v clean =
      (pruned, clean-IsFiltered of_channel storage pruned v clean)
  erase_channel_loop-IsFiltered (suc slot) storage pruned v clean =
      elim (Option-cases (get_elem? storage.nodes slot)) [
        | inl gone ↦
            rw (gone, erase_channel_loop, on_channel)
              (erase_channel_loop-IsFiltered slot storage pruned v (
                IsClean-missed of_channel storage slot
                  (λ node at. absurd (let no : none ≡ some node = sym gone ∙ at in cc)) clean))
        | inr (node, here) ↦ elim (Bool-cases (node.channel == channel)) [
          | inl hit ↦
              let (total, rest) =
                erase_channel_loop-IsFiltered slot (erase_slot storage slot) (pruned + 1)
                  (erase_slot-IsIndexed storage v slot node here)
                  (IsClean-erase_slot of_channel storage v slot node here hit clean) in
              (
                total,
                rw (here, erase_channel_loop, on_channel, hit)
                    (erased-IsFiltered of_channel storage v slot node here hit _ pruned total rest),
              )
          | inr miss ↦
              rw (here, erase_channel_loop, on_channel, miss)
                (erase_channel_loop-IsFiltered slot storage pruned v (
                  IsClean-missed of_channel storage slot
                    (λ n at. let same : some n ≡ some node = sym at ∙ here in ground arith) clean))
        ]
      ]

  -- An id that stays on the route: its node is stored, and on another channel.
  abbrev pub Stays : Storage float → ℕ → Type 0
  Stays storage id = leaves_route channel (node_of storage id) ≡ false

  filter_route-Stays :
      (one : float) (storage : Storage float) (route : List ℕ) (responsibilities : List float)
      → let (ids, kept) = filter_route one channel storage route responsibilities in
        All (Stays storage) ids × (length kept ≡ length ids)
  unfolding filter_route
  filter_route-Stays one storage [] responsibilities = (tt, refl)
  filter_route-Stays one storage (id ∷ route) responsibilities =
      let (stay, same) = filter_route-Stays one storage route (rest_of responsibilities) in
      elim (Bool-cases (leaves_route channel (node_of storage id))) [
        | inl leaves ↦ rw leaves (stay, same)
        | inr stays ↦ rw stays ((stays, stay), ap suc same)
      ]

  leaves_route-core :
      (a b : Option (Node float))
      → Option.map core a ≡ Option.map core b
      → leaves_route channel a ≡ leaves_route channel b
  leaves_route-core none none e = refl
  leaves_route-core none (some b) e = absurd (let h : none ≡ some (core b) = e in cc)
  leaves_route-core (some a) none e = absurd (let h : some (core a) ≡ none = e in cc)
  leaves_route-core (some a) (some b) e = let h : some (core a) ≡ some (core b) = e in ground arith

  Stays-SameCores :
      (old new : Storage float) → SameCores old new → (id : ℕ) → Stays old id → Stays new id
  Stays-SameCores old new c id stays =
      leaves_route-core (node_of new id) (node_of old id) (node_of-SameCores old new c id) ∙ stays

module _ {float double : Type 0} (ops : ValueOps float double) (config : LifecycleConfig float)
    (machine : Machine float double) (channel : ℕ) where
  -- Erasing a channel other than the first retires it and takes its nodes, and no others, out of the
  -- map from ids to nodes (hot marks and edges apart); the storage stays well formed. The route keeps
  -- ids of stored nodes of other channels only, each with a responsibility.
  pub physically_erase_channel-erases :
      (state : ChannelState float double)
      → get_elem? machine.topology channel ≡ some state
      → channel ≢ 0
      → IsIndexed machine.storage
      → let after = physically_erase_channel ops config machine channel in
        (get_elem? after.topology channel ≡ some (record state { phase = retired_phase }))
        × IsIndexed after.storage
        × ((id : ℕ)
            → Option.map core (node_of after.storage id)
              ≡ Option.map core (spared (of_channel channel) (node_of machine.storage id)))
        × All (Stays channel after.storage) after.previous_route
        × (length after.previous_responsibilities ≡ length after.previous_route)
  unfolding physically_erase_channel
  physically_erase_channel-erases state here n v =
      let (total, filtered) =
        erase_channel_loop-IsFiltered channel (length machine.storage.nodes) machine.storage 0 v
          (IsClean-end (of_channel channel) machine.storage) in
      let erased = erase_channel_loop channel (length machine.storage.nodes) machine.storage in
      let cores = rebuild_indexes-SameCores ops.tests config.storage_config erased in
      let (stay, same) =
        filter_route-Stays channel ops.tests.one erased machine.previous_route
          machine.previous_responsibilities in
      rw taken (
        rw (here, set_phase)
            (rw (get_elem?-set machine.topology channel channel retired) (ground (arith, inside))),
        IsIndexed-SameCores erased _ cores filtered.indexed,
        λ id. node_of-SameCores erased _ cores id ∙ ap (Option.map core) (filtered.filtered id),
        All-map (λ id stays. Stays-SameCores channel erased _ cores id stays) _ stay,
        same,
      )
    where
      retired : ChannelState float double
      retired = record state { phase = retired_phase }

      inside : channel < length machine.topology
      inside = get_elem?-lt machine.topology channel here

      taken : (leb (length machine.topology) channel || channel == 0) ≡ false
      taken = ground (arith, inside)
