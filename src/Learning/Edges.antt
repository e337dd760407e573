-- ===== src/Learning/Edges.antt =====
-- modules/machine_learning.cpp: the edges of a node stay few, different and live.
use sparse_branch_machine.Base.{
  ℕ, zero, suc, ◌≤◌, ◌≡◌, ◌≢◌, refl, sym, ap, arith, ◌∙◌, true, false, ◌||◌, not, ltb, ◌==◌, ==_iff,
  Bool-cases, Option-cases, inl, inr, Option, none, some, List, [], ◌∷◌, ◌++◌, map, get_elem?, take,
  length, All, All-map, All-append, All-get_elem?,
}
use sparse_branch_machine.Base.Elements.{get_elem?-set, map-set_same, All-set}
use sparse_branch_machine.Learning.{
  LearnOps, LearnConfig, is_before, insert_edge, sort_edges, strengthen, edges_or_new, reinforced,
  reinforce_edge, change_slot,
}
use sparse_branch_machine.Storage.{Edge, Node, Storage, contains, slot_of}
use sparse_branch_machine.Storage.Cores.{core, SameCores, contains-SameCores}

module _ {float : Type 0} where
  abbrev pub LacksDst : ℕ → List (Edge float) → Type 0
  LacksDst destination edges = All (λ (e : Edge float). e.dst ≢ destination) edges

  abbrev pub Different : List (Edge float) → Type 0
  Different [] = Unit
  Different (e ∷ es) = LacksDst e.dst es × Different es

  -- Edges to different nodes, all of them stored.
  abbrev pub AreLive : Storage float → List (Edge float) → Type 0
  AreLive storage edges =
      Different edges × All (λ (e : Edge float). contains storage e.dst ≡ true) edges

  module _ (ops : LearnOps float) where
    insert_edge-All :
        (P : Edge float → Type 0) (edge : Edge float) (edges : List (Edge float))
        → P edge
        → All P edges
        → All P (insert_edge ops edge edges)
    unfolding insert_edge
    insert_edge-All P edge [] p h = (p, tt)
    insert_edge-All P edge (first ∷ edges) p h = elim (Bool-cases (is_before ops edge first)) [
      | inl before ↦ rw before (p, h)
      | inr behind ↦ rw behind (h.0, insert_edge-All P edge edges p h.1)
    ]

    insert_edge-Different :
        (edge : Edge float) (edges : List (Edge float))
        → LacksDst edge.dst edges
        → Different edges
        → Different (insert_edge ops edge edges)
    unfolding insert_edge
    insert_edge-Different edge [] lacks d = (tt, tt)
    insert_edge-Different edge (first ∷ edges) lacks d =
        elim (Bool-cases (is_before ops edge first)) [
          | inl before ↦ rw before (lacks, d)
          | inr behind ↦ rw behind (
            insert_edge-All (λ (e : Edge float). e.dst ≢ first.dst) edge edges
                (λ same. lacks.0 (sym same)) d.0,
            insert_edge-Different edge edges lacks.1 d.1,
          )
        ]

    sort_edges-All :
        (P : Edge float → Type 0) (edges : List (Edge float))
        → All P edges
        → All P (sort_edges ops edges)
    unfolding sort_edges
    sort_edges-All P [] h = tt
    sort_edges-All P (edge ∷ edges) h =
        insert_edge-All P edge (sort_edges ops edges) h.0 (sort_edges-All P edges h.1)

    sort_edges-Different :
        (edges : List (Edge float)) → Different edges → Different (sort_edges ops edges)
    unfolding sort_edges
    sort_edges-Different [] d = tt
    sort_edges-Different (edge ∷ edges) d =
        insert_edge-Different edge (sort_edges ops edges)
          (sort_edges-All (λ (e : Edge float). e.dst ≢ edge.dst) edges d.0)
          (sort_edges-Different edges d.1)

    module _ (storage : Storage float) where
      abbrev IsLive : Edge float → Type 0
      IsLive edge = contains storage edge.dst ≡ true

      -- What `strengthen` finds: no edge to the destination, or edges to the same nodes as before.
      abbrev Strengthened : ℕ → List (Edge float) → Option (List (Edge float)) → Type 0
      Strengthened destination edges none = LacksDst destination edges
      Strengthened destination edges (some found) =
          ((k : ℕ) → LacksDst k edges → LacksDst k found)
          × (All IsLive edges → All IsLive found)
          × (Different edges → Different found)

      strengthen-Strengthened :
          (config : LearnConfig float) (destination : ℕ) (delta : float) (edges : List (Edge float))
          → Strengthened destination edges (strengthen ops config destination delta edges)
      unfolding strengthen
      strengthen-Strengthened config destination delta [] = tt
      strengthen-Strengthened config destination delta (edge ∷ edges) =
          elim (Bool-cases (edge.dst == destination)) [
            | inl same ↦ rw same (λ k h. h, λ h. h, λ h. h)
            | inr other ↦ rw other (
                after (strengthen ops config destination delta edges)
                  (strengthen-Strengthened config destination delta edges) (ground arith))
          ]
        where
          after :
              (o : Option (List (Edge float)))
              → Strengthened destination edges o
              → edge.dst ≢ destination
              → Strengthened destination
                  (edge ∷ edges)
                  (elim o [ none ↦ none | some rest ↦ some (edge ∷ rest) ])
          after none lacks n = (n, lacks)
          after (some rest) (k, l, d) n =
              (λ x h. (h.0, k x h.1), λ h. (h.0, l h.1), λ h. (k edge.dst h.0, d h.1))

      LacksDst-append :
          (k : ℕ) (edges : List (Edge float)) (edge : Edge float)
          → LacksDst k edges
          → edge.dst ≢ k
          → LacksDst k (edges ++ (edge ∷ []))
      LacksDst-append k edges edge h n =
          All-append (λ (e : Edge float). e.dst ≢ k) edges (edge ∷ []) h (n, tt)

      Different-append :
          (edges : List (Edge float)) (edge : Edge float)
          → Different edges
          → LacksDst edge.dst edges
          → Different (edges ++ (edge ∷ []))
      Different-append [] edge d h = (tt, tt)
      Different-append (first ∷ edges) edge d h = (
        LacksDst-append first.dst edges edge d.0 (λ e. h.0 (sym e)),
        Different-append edges edge d.1 h.1,
      )

      edges_or_new-AreLive :
          (destination : ℕ) (delta : float) (edges : List (Edge float))
          (o : Option (List (Edge float)))
          → Strengthened destination edges o
          → contains storage destination ≡ true
          → AreLive storage edges
          → AreLive storage (edges_or_new ops destination delta edges o)
      edges_or_new-AreLive destination delta edges none lacks there (d, l) =
          (Different-append edges _ d lacks, All-append IsLive edges _ l (there, tt))
      edges_or_new-AreLive destination delta edges (some found) (k, live, diff) there (d, l) =
          (diff d, live l)

      take-All :
          (P : Edge float → Type 0) (n : ℕ) (edges : List (Edge float))
          → All P edges
          → All P (take n edges)
      take-All P zero edges h = tt
      take-All P (suc n) [] h = tt
      take-All P (suc n) (edge ∷ edges) h = (h.0, take-All P n edges h.1)

      take-Different :
          (n : ℕ) (edges : List (Edge float)) → Different edges → Different (take n edges)
      take-Different zero edges d = tt
      take-Different (suc n) [] d = tt
      take-Different (suc n) (edge ∷ edges) d =
          (take-All (λ (e : Edge float). e.dst ≢ edge.dst) n edges d.0, take-Different n edges d.1)

      length-take-le : (n : ℕ) (edges : List (Edge float)) → length (take n edges) ≤ n
      length-take-le zero edges = omega arith
      length-take-le (suc n) [] = omega arith
      length-take-le (suc n) (edge ∷ edges) = omega (arith, length-take-le n edges)

      reinforced-AreLive :
          (config : LearnConfig float) (destination : ℕ) (delta : float) (edges : List (Edge float))
          → contains storage destination ≡ true
          → AreLive storage edges
          → AreLive storage (reinforced ops config destination delta edges)
            × (length (reinforced ops config destination delta edges) ≤ config.max_edges_per_node)
      unfolding reinforced
      reinforced-AreLive config destination delta edges there live =
          elim (Bool-cases (ltb config.max_edges_per_node (length sorted))) [
            | inl long ↦ rw long (
              (
                take-Different config.max_edges_per_node sorted different,
                take-All IsLive config.max_edges_per_node sorted stored,
              ),
              length-take-le config.max_edges_per_node sorted,
            )
            | inr short ↦ rw short ((different, stored), ground arith)
          ]
        where
          found : Option (List (Edge float))
          found = strengthen ops config destination delta edges

          sorted : List (Edge float)
          sorted = sort_edges ops (edges_or_new ops destination delta edges found)

          before : AreLive storage (edges_or_new ops destination delta edges found)
          before =
              edges_or_new-AreLive destination delta edges found
                (strengthen-Strengthened config destination delta edges) there live

          different : Different sorted
          different = sort_edges-Different (edges_or_new ops destination delta edges found) before.0

          stored : All IsLive sorted
          stored = sort_edges-All IsLive (edges_or_new ops destination delta edges found) before.1

  module _ (change : Node float → Node float) where
    change_slot-All :
        (Q : Node float → Type 0)
        → ((node : Node float) → Q node → Q (change node))
        → (o : Option ℕ) (nodes : List (Node float)) → All Q nodes
        → All Q (change_slot change o nodes)
    change_slot-All Q keep none nodes h = h
    change_slot-All Q keep (some slot) nodes h = elim (Option-cases (get_elem? nodes slot)) [
      | inl gone ↦ rw (gone, change_slot) h
      | inr (node, here) ↦
          rw (here, change_slot)
            (All-set Q nodes slot (change node) h
              (keep node (All-get_elem? Q nodes slot node h here)))
    ]

    change_slot-map :
        (f : Node float → Node float)
        → ((node : Node float) → f (change node) ≡ f node)
        → (o : Option ℕ) (nodes : List (Node float))
        → map f (change_slot change o nodes) ≡ map f nodes
    change_slot-map f keep none nodes = refl
    change_slot-map f keep (some slot) nodes = elim (Option-cases (get_elem? nodes slot)) [
      | inl gone ↦ rw (gone, change_slot) refl
      | inr (node, here) ↦
          rw (here, change_slot) (map-set_same f nodes slot node (change node) here (keep node))
    ]

    change_slot_other :
        (o : Option ℕ) (nodes : List (Node float)) (i : ℕ)
        → o ≢ some i
        → get_elem? (change_slot change o nodes) i ≡ get_elem? nodes i
    change_slot_other none nodes i n = refl
    change_slot_other (some slot) nodes i n = elim (Option-cases (get_elem? nodes slot)) [
      | inl gone ↦ rw (gone, change_slot) refl
      | inr (node, here) ↦
          let differ : slot == i ≡ false = elim (Bool-cases (slot == i)) [
            | inl same ↦ absurd (n (ap some ((==_iff slot i).0 same)))
            | inr other ↦ other
          ] in
          rw (here, change_slot) (get_elem?-set nodes slot i (change node) ∙ rw differ refl)
    ]

  abbrev pub without_edges : Node float → Node float
  without_edges node = record node { edges = [] }

  -- Only the edges of the node at a slot differ, if there is a slot.
  pub record OnlyEdges (old : Storage float) (slot : Option ℕ) (new : Storage float) : Type 0 where
    pub rest : new ≡ record old { nodes = new.nodes }
    pub nodes : map without_edges new.nodes ≡ map without_edges old.nodes
    pub elsewhere : (i : ℕ) → slot ≢ some i → get_elem? new.nodes i ≡ get_elem? old.nodes i

  -- Every node has at most the limit of edges, to different nodes, all of them stored.
  abbrev pub HasEdges : ℕ → Storage float → Type 0
  HasEdges limit storage =
      All (λ (node : Node float). AreLive storage node.edges × (length node.edges ≤ limit))
        storage.nodes

  module _ (ops : LearnOps float) (config : LearnConfig float) (storage : Storage float) where
    HasEdges-moved :
        (after : Storage float)
        → SameCores storage after
        → All
            (λ (node : Node float).
              AreLive storage node.edges × (length node.edges ≤ config.max_edges_per_node))
            after.nodes
        → HasEdges config.max_edges_per_node after
    HasEdges-moved after c h =
        All-map
          (λ node live. (
            (
              live.0.0,
              All-map (λ (e : Edge float) there. contains-SameCores storage after c e.dst ∙ there)
                  node.edges live.0.1,
            ),
            live.1,
          ))
          after.nodes h

    -- When every node has at most the limit of edges, to different stored nodes, the same holds after
    -- `reinforce_edge`, and nothing else of the storage is changed than the edges of the source node.
    pub reinforce_edge-HasEdges :
        (source destination : ℕ) (delta : float)
        → HasEdges config.max_edges_per_node storage
        → let after = reinforce_edge ops config storage source destination delta in
          OnlyEdges storage (slot_of storage source) after
          × HasEdges config.max_edges_per_node after
    unfolding reinforce_edge
    reinforce_edge-HasEdges source destination delta h =
        elim (Bool-cases (not (contains storage destination) || ops.at_most delta ops.nought)) [
          | inl refused ↦
              rw refused (record { rest = refl; nodes = refl; elsewhere = λ i n. refl }, h)
          | inr taken ↦
              let there : contains storage destination ≡ true = ground arith in
              rw taken (
                record {
                  rest = refl;
                  nodes =
                      change_slot-map change without_edges (λ node. refl) (slot_of storage source)
                        storage.nodes;
                  elsewhere = change_slot_other change (slot_of storage source) storage.nodes;
                },
                HasEdges-moved _ cores (
                    change_slot-All change
                      (λ (node : Node float).
                        AreLive storage node.edges
                        × (length node.edges ≤ config.max_edges_per_node))
                      (λ node live.
                        reinforced-AreLive ops storage config destination delta node.edges there
                          live.0)
                      (slot_of storage source) storage.nodes h),
              )
        ]
      where
        change : Node float → Node float
        change node = record node { edges = reinforced ops config destination delta node.edges }

        cores :
            SameCores storage
              (record storage { nodes = change_slot change (slot_of storage source) storage.nodes })
        cores = record {
          nodes = change_slot-map change core (λ node. refl) (slot_of storage source) storage.nodes;
          table = refl;
          counter = refl;
        }
