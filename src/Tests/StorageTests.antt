-- ===== src/Tests/StorageTests.antt =====
-- The theorems on the storage, its maintenance and the edges, at two nodes.
use mathlib.Core.Option
use sparse_branch_machine.Base.{
  ℕ, ◌+◌, ◌*◌, ◌-◌, ◌≡◌, ◌≢◌, ◌↔◌, ◌≤◌, refl, arith, true, false, not, ltb, leb, ◌==◌,
  if◌then◌else◌, min, none, some, [], ◌∷◌, take, length, All, ok, throw, overflow_error,
  out_of_range,
}
use sparse_branch_machine.Learning.{LearnOps, LearnConfig, reinforce_edge}
use sparse_branch_machine.Learning.Edges.{OnlyEdges, HasEdges, reinforce_edge-HasEdges}
use sparse_branch_machine.Maintenance.{prune, rebuild_indexes}
use sparse_branch_machine.Maintenance.Filter.{spared}
use sparse_branch_machine.Maintenance.Prune.{prunable, prune-filters}
use sparse_branch_machine.Maintenance.Rebuild.{
  ids_in, rebuild_indexes-buckets, rebuild_indexes-live_edges,
}
use sparse_branch_machine.Storage.{
  FloatTests, Edge, Node, Storage, StorageConfig, invalid_node, insert_node, new_node, fresh_node,
  contains, bucket_or_empty, slot_of,
}
use sparse_branch_machine.Storage.Buckets.{node_of, bounded_bucket_nodes}
use sparse_branch_machine.Storage.Cores.{core}
use sparse_branch_machine.Storage.Insert.{insert_node-IsIndexed, new_node-inserts, new_node-refuses}
use sparse_branch_machine.Storage.Scans.{AreStored, bounded_bucket_nodes-AreStored}
use sparse_branch_machine.Storage.Table.{IsIndexed}
use sparse_branch_machine.Tests.TopologyTests.{three_channels}
use sparse_branch_machine.Topology.{channel_enabled}

abbrev pub number_tests : FloatTests ℕ
number_tests = record { nought = 0; one = 1; less = ltb; differ = λ a b. not (a == b) }

abbrev pub settings : StorageConfig
settings = record {
  token_cross_entropy = true;
  sparse_token_output = true;
  bucket_bits = 4;
  bucket_scan_limit = 2;
}

abbrev blank : Storage ℕ
blank = record {
  nodes = [];
  id_to_slot = [];
  next_id = 0;
  bucket_directory = λ index. none;
  total_created = 0;
  total_pruned = 0;
  stale_bucket_refs_skipped = 0;
  max_bucket_candidates_inspected = 0;
}

abbrev first_node : Node ℕ
first_node = fresh_node number_tests settings 0 7 [] invalid_node 0

abbrev second_node : Node ℕ
second_node = record (fresh_node number_tests settings 1 9 [] 0 1) { visits = 5 }

abbrev one_node : Storage ℕ
unfolding insert_node
one_node = insert_node settings blank first_node

abbrev pub two_nodes : Storage ℕ
unfolding insert_node
two_nodes = insert_node settings one_node second_node

blank-IsIndexed : IsIndexed blank
blank-IsIndexed = record {
  fresh = λ i node e. absurd (cc);
  few = omega arith;
  bounded = omega arith;
  sound = λ i node e. absurd (cc);
}

one_node-IsIndexed : IsIndexed one_node
unfolding insert_node
one_node-IsIndexed =
    insert_node-IsIndexed settings blank blank-IsIndexed first_node refl (λ e. absurd (omega arith))

pub two_nodes-IsIndexed : IsIndexed two_nodes
unfolding insert_node
two_nodes-IsIndexed =
    insert_node-IsIndexed settings one_node one_node-IsIndexed second_node refl
      (λ e. absurd (omega arith))

new_node-inserts_example :
    (next : Storage ℕ) × (new_node number_tests settings three_channels one_node 11 [] 0 0
      ≡ ok (next, 1))
    × IsIndexed next
    × (node_of one_node 1 ≡ none)
    × ((id : ℕ)
        → node_of next id ≡ (
            if id == 1
            then some (fresh_node number_tests settings 1 11 [] 0 0)
            else node_of one_node id))
unfolding insert_node channel_enabled
new_node-inserts_example =
    new_node-inserts three_channels 0 number_tests settings one_node 11 [] 0 one_node-IsIndexed
      (λ e. absurd (omega arith)) refl

new_node-refuses_example :
    ((new_node number_tests settings three_channels one_node 11 [] 0 9 ≡ throw overflow_error)
      ↔ (◌≡◌ {A = ℕ} 1 invalid_node))
    × ((new_node number_tests settings three_channels one_node 11 [] 0 9 ≡ throw out_of_range)
        ↔ ((◌≢◌ {A = ℕ} 1 invalid_node) × (channel_enabled three_channels 9 ≡ false)))
unfolding insert_node
new_node-refuses_example = new_node-refuses three_channels 9 number_tests settings one_node 11 [] 0

bounded_bucket_nodes-AreStored_example :
    AreStored two_nodes (bounded_bucket_nodes settings two_nodes 0 5).1
    × (length (bounded_bucket_nodes settings two_nodes 0 5).1 ≤ 5)
    × (length (bounded_bucket_nodes settings two_nodes 0 5).1 ≤ 2)
    × ((bounded_bucket_nodes settings two_nodes 0 5).0 ≡ record two_nodes {
      stale_bucket_refs_skipped =
          (bounded_bucket_nodes settings two_nodes 0 5).0.stale_bucket_refs_skipped;
      max_bucket_candidates_inspected =
          (bounded_bucket_nodes settings two_nodes 0 5).0.max_bucket_candidates_inspected;
    })
bounded_bucket_nodes-AreStored_example = bounded_bucket_nodes-AreStored two_nodes settings 0 5

prune-filters_example :
    IsIndexed (prune number_tests settings 3 1 two_nodes).0
    × ((id : ℕ)
        → Option.map core (node_of (prune number_tests settings 3 1 two_nodes).0 id)
          ≡ Option.map core (spared (prunable number_tests 3 1) (node_of two_nodes id)))
    × ((prune number_tests settings 3 1 two_nodes).1
          + length (prune number_tests settings 3 1 two_nodes).0.nodes
        ≡ 2)
unfolding two_nodes
prune-filters_example = prune-filters number_tests 3 1 settings two_nodes two_nodes-IsIndexed

rebuild_indexes-buckets_example :
    let state =
      bucket_or_empty ((rebuild_indexes number_tests settings two_nodes).bucket_directory 0) in
    (state.residents ≡ ids_in settings 0 two_nodes.nodes)
    × (state.cold ≡ take 2 (ids_in settings 0 two_nodes.nodes))
    × (length state.hot ≤ 2)
rebuild_indexes-buckets_example = rebuild_indexes-buckets number_tests settings two_nodes 0

-- The first node with an edge to the second and one to no node.
abbrev linked : Storage ℕ
linked = record two_nodes {
  nodes =
      record first_node {
        edges =
            record { dst = 1; weight = 3; eligibility = 1 }
            ∷ record { dst = 8; weight = 2; eligibility = 1 }
            ∷ [];
      }
      ∷ second_node
      ∷ [];
}

rebuild_indexes-live_edges_example :
    All
      (λ (edge : Edge ℕ). contains (rebuild_indexes number_tests settings linked) edge.dst ≡ true)
      (record { dst = 1; weight = 3; eligibility = 1 } ∷ [])
unfolding rebuild_indexes contains two_nodes
rebuild_indexes-live_edges_example =
    rebuild_indexes-live_edges number_tests settings linked 0
      (record first_node { edges = record { dst = 1; weight = 3; eligibility = 1 } ∷ [] }) refl

abbrev number_ops : LearnOps ℕ
number_ops = record {
  add = λ a b. a + b;
  sub = λ a b. a - b;
  mul = λ a b. a * b;
  least = min;
  clamp = λ x low high. min x high;
  below = ltb;
  at_most = leb;
  same = λ a b. a == b;
  nought = 0;
  one = 1;
  minus_one = 0;
  two = 2;
  four = 4;
  edge_floor = 1;
  keep_rate = 1;
  credit_rate = 1;
  global_share = 1;
  local_share = 1;
}

abbrev learning : LearnConfig ℕ
learning = record {
  max_edges_per_node = 1;
  trace_decay = 1;
  edge_decay = 1;
  edge_learning_rate = 1;
  dormant_utility = 0;
  warm_visits = 2;
  mature_visits = 4;
}

reinforce_edge-HasEdges_example :
    OnlyEdges two_nodes (slot_of two_nodes 0) (reinforce_edge number_ops learning two_nodes 0 1 3)
    × HasEdges 1 (reinforce_edge number_ops learning two_nodes 0 1 3)
unfolding two_nodes
reinforce_edge-HasEdges_example =
    reinforce_edge-HasEdges number_ops learning two_nodes 0 1 3 (omega arith)
