-- ===== src/Learning.antt =====
-- modules/machine_learning.cpp: the edges of a node, its phase, and the credit along the trace.
-- Floating-point arithmetic is a parameter.
pub mod Edges
use mathlib.Core.List.{reverse}
use sparse_branch_machine.Base.{
  ℕ, zero, suc, Bool, true, false, ◌||◌, ◌&&◌, not, ltb, leb, ◌==◌, if◌then◌else◌, Option, none,
  some, List, [], ◌∷◌, ◌++◌, get_elem?, set, take, length,
}
use sparse_branch_machine.Lifecycle.{TraceFrame}
use sparse_branch_machine.Storage.{
  Edge, Node, Storage, NodePhase, cold_phase, warm_phase, mature_phase, dormant_phase, slot_of,
  contains,
}

-- The operations, the tests and the constants on `float` of this file.
pub record LearnOps (float : Type 0) : Type 0 where
  pub add : float → float → float
  pub sub : float → float → float
  pub mul : float → float → float
  pub least : float → float → float
  pub clamp : float → float → float → float
  pub below : float → float → Bool
  pub at_most : float → float → Bool
  pub same : float → float → Bool
  pub nought : float
  pub one : float
  pub minus_one : float
  pub two : float
  pub four : float
  pub edge_floor : float
  pub keep_rate : float
  pub credit_rate : float
  pub global_share : float
  pub local_share : float

-- The fields of `Config` that are read.
pub record LearnConfig (float : Type 0) : Type 0 where
  pub max_edges_per_node : ℕ
  pub trace_decay : float
  pub edge_decay : float
  pub edge_learning_rate : float
  pub dormant_utility : float
  pub warm_visits : ℕ
  pub mature_visits : ℕ

module _ {float : Type 0} where
  -- The nodes after a change to the one in a slot.
  abbrev pub change_slot :
      (Node float → Node float) → Option ℕ → List (Node float) → List (Node float)
  change_slot change none nodes = nodes
  change_slot change (some slot) nodes = elim (get_elem? nodes slot) [
    | none ↦ nodes
    | some node ↦ set nodes slot (change node)
  ]

module _ {float : Type 0} (ops : LearnOps float) where
  -- The comparison that `std::sort` is given: by falling weight, then by rising destination.
  abbrev pub is_before : Edge float → Edge float → Bool
  is_before a b =
      if ops.same a.weight b.weight then ltb a.dst b.dst else ops.below b.weight a.weight

  -- `std::sort`, as an insertion sort.
  unfoldable pub insert_edge : Edge float → List (Edge float) → List (Edge float)
  insert_edge edge [] = edge ∷ []
  insert_edge edge (first ∷ edges) =
      let rest = insert_edge edge edges in
      if is_before edge first then edge ∷ first ∷ edges else first ∷ rest

  unfoldable pub sort_edges : List (Edge float) → List (Edge float)
  unfolding insert_edge
  sort_edges [] = []
  sort_edges (edge ∷ edges) = insert_edge edge (sort_edges edges)

  abbrev pub strengthened : LearnConfig float → float → Edge float → Edge float
  strengthened config delta edge =
      let eligibility = ops.add (ops.mul config.trace_decay edge.eligibility) delta in
      let target = ops.least eligibility ops.four in
      let weight =
        ops.add (ops.mul config.edge_decay edge.weight)
          (ops.mul config.edge_learning_rate (ops.sub target edge.weight)) in
      record edge { eligibility = eligibility; weight = ops.clamp weight ops.nought ops.four }

  -- The edges with the first one to the destination strengthened, if there is one.
  unfoldable pub strengthen :
      LearnConfig float → ℕ → float → List (Edge float) → Option (List (Edge float))
  strengthen config destination delta [] = none
  strengthen config destination delta (edge ∷ edges) =
      if edge.dst == destination
      then some (strengthened config delta edge ∷ edges)
      else (elim (strengthen config destination delta edges) [
        | none ↦ none
        | some rest ↦ some (edge ∷ rest)
      ])

  abbrev pub edges_or_new :
      ℕ → float → List (Edge float) → Option (List (Edge float)) → List (Edge float)
  edges_or_new destination delta edges none =
      edges
      ++ (record { dst = destination; weight = ops.least delta ops.one; eligibility = delta } ∷ [])
  edges_or_new destination delta edges (some found) = found

  -- The edges after a reinforcement: sorted, and cut at the limit.
  unfoldable pub reinforced : LearnConfig float → ℕ → float → List (Edge float) → List (Edge float)
  unfolding sort_edges strengthen
  reinforced config destination delta edges =
      let sorted =
        sort_edges
          (edges_or_new destination delta edges (strengthen config destination delta edges)) in
      if ltb config.max_edges_per_node (length sorted)
      then take config.max_edges_per_node sorted
      else sorted

  unfoldable pub reinforce_edge : LearnConfig float → Storage float → ℕ → ℕ → float → Storage float
  unfolding reinforced slot_of contains
  reinforce_edge config storage source destination delta =
      if not (contains storage destination) || ops.at_most delta ops.nought
      then storage
      else record storage {
        nodes =
            change_slot
              (λ node. record node { edges = reinforced config destination delta node.edges })
              (slot_of storage source) storage.nodes;
      }

  -- The decay of each edge, and the removal of those that are faint.
  unfoldable pub decayed : LearnConfig float → List (Edge float) → List (Edge float)
  decayed config [] = []
  decayed config (edge ∷ edges) =
      let rest = decayed config edges in
      let faded = record edge {
        weight = ops.mul edge.weight config.edge_decay;
        eligibility = ops.mul edge.eligibility config.trace_decay;
      } in
      if ops.below faded.weight ops.edge_floor && ops.below faded.eligibility ops.edge_floor
      then rest
      else faded ∷ rest

  unfoldable pub decay_edges : LearnConfig float → Storage float → ℕ → Storage float
  unfolding decayed slot_of
  decay_edges config storage source = record storage {
    nodes =
        change_slot (λ node. record node { edges = decayed config node.edges })
          (slot_of storage source) storage.nodes;
  }

  unfoldable pub update_phase : LearnConfig float → Node float → Node float
  update_phase config node = record node {
    phase =
        if ops.at_most node.utility_ema config.dormant_utility
        then dormant_phase
        else (if leb config.mature_visits node.visits
            then mature_phase
            else (if leb config.warm_visits node.visits then warm_phase else cold_phase));
  }

  abbrev pub local_credit : List float → float
  local_credit [] = ops.nought
  local_credit (c ∷ cs) = ops.clamp c ops.minus_one ops.one

  abbrev pub others : List float → List float
  others [] = []
  others (c ∷ cs) = cs

  abbrev pub credit_node : LearnConfig float → float → float → float → Node float → Node float
  credit_node config global decay local node = update_phase config (record node {
    utility_ema = ops.add (ops.mul ops.keep_rate node.utility_ema) (
        ops.mul
          (ops.mul ops.credit_rate
            (ops.add (ops.mul ops.global_share global) (ops.mul ops.local_share local)))
          decay);
  })

  -- The ids of one route with the contributions that go with them.
  unfoldable pub credit_route :
      LearnConfig float → float → float → List ℕ → List float → Storage float → Storage float
  unfolding slot_of update_phase
  credit_route config global decay [] contributions storage = storage
  credit_route config global decay (id ∷ route) contributions storage =
      credit_route config global decay route (others contributions) (record storage {
        nodes =
            change_slot (credit_node config global decay (local_credit contributions))
              (slot_of storage id) storage.nodes;
      })

  unfoldable pub credit_frames :
      LearnConfig float → float → float → List (TraceFrame float) → Storage float → Storage float
  unfolding credit_route
  credit_frames config global decay [] storage = storage
  credit_frames config global decay (frame ∷ frames) storage =
      credit_frames config global (ops.mul decay config.trace_decay) frames
        (credit_route config global decay frame.route frame.contribution storage)

  -- The trace is walked from its newest frame, which is its last.
  unfoldable pub apply_trace_credit :
      LearnConfig float → List (TraceFrame float) → float → Storage float → Storage float
  unfolding credit_frames
  apply_trace_credit config trace loss storage =
      credit_frames config (ops.sub ops.one (ops.least loss ops.two)) ops.one (reverse trace)
        storage
