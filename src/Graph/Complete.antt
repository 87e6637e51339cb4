-- ===== src/Graph/Complete.antt =====
-- The checks of initCollectorGraph (graph.go) after initNodes.
use mathlib.Core.Path.{subst}
use native.Mathlib.Decide.{ℕ_discrete}
use go_bitflow_collector.Prelude.{
  ℕ, ◌<◌, ◌≡◌, true, Option, none, some, List, [], ◌∷◌, contains, lookup, arith, Option-cases, inl,
  inr, length,
}
use go_bitflow_collector.Graph.{Collectors, CollectorGraph, new_empty_graph}
use go_bitflow_collector.Graph.Init.{
  init_nodes, first_missing, missing_dependencies, check_graph, init_collector_graph, built,
}

module _ (env : Collectors) where
  first_missing-none :
      (m : List (ℕ × ℕ)) (ds : List ℕ) (d : ℕ)
      → first_missing env m ds ≡ none
      → contains d ds ≡ true
      → (n : ℕ) × (lookup d m ≡ some n)
  unfolding first_missing contains
  first_missing-none m [] d h c = cc
  first_missing-none m (x ∷ ds) d h c = elim (Option-cases (lookup x m)) [
    | inl e ↦ absurd (ground (arith, e))
    | inr (n, e) ↦ elim (ℕ_discrete x d) [
      | yes q ↦ (n, rw (← q) e)
      | no q ↦ first_missing-none m ds d (ground (arith, e)) (ground arith)
    ]
  ]

  missing_dependencies-none :
      (g : CollectorGraph) (ns : List ℕ) (n : ℕ)
      → missing_dependencies env g ns ≡ none
      → contains n ns ≡ true
      → first_missing env g.collectors (env.depends (g.heap n).collector) ≡ none
  unfolding missing_dependencies contains
  missing_dependencies-none g [] n h c = cc
  missing_dependencies-none g (x ∷ ns) n h c =
      elim (Option-cases (first_missing env g.collectors (env.depends (g.heap x).collector))) [
        | inr (d, e) ↦ absurd (ground (arith, e))
        | inl e ↦ elim (ℕ_discrete x n) [
          | yes q ↦ rw (← q) e
          | no q ↦ missing_dependencies-none g ns n (ground (arith, e)) (ground arith)
        ]
      ]

  check_graph-built :
      (sort : CollectorGraph → Option (List ℕ)) (g0 g : CollectorGraph)
      → check_graph env sort g0 ≡ built g
      → (0 < length g.nodes)
        × (missing_dependencies env g g.nodes ≡ none)
        × ((order : List ℕ) × (sort g ≡ some order))
  unfolding check_graph
  check_graph-built sort g0 g h = elim (Option-cases (missing_dependencies env g0 g0.nodes)) [
    | inr (d, e) ↦ absurd (ground (arith, e))
    | inl e ↦ elim (Option-cases (sort g0)) [
      | inl e' ↦ absurd (ground (arith, e, e'))
      | inr (order, e') ↦
          let same : g0 ≡ g = ground (arith, e, e') in
          let some_node : 0 < length g0.nodes = ground (arith, e, e') in
          subst
            (λ (t : CollectorGraph).
              (0 < length t.nodes)
              × (missing_dependencies env t t.nodes ≡ none)
              × ((order : List ℕ) × (sort t ≡ some order)))
            same (some_node, e, (order, e'))
    ]
  ]

  init_collector_graph-eq :
      (sort : CollectorGraph → Option (List ℕ)) (fuel last_id : ℕ) (cs : List ℕ)
      (g : CollectorGraph)
      → init_collector_graph env sort fuel last_id cs ≡ some (built g)
      → (g0 : CollectorGraph) × (check_graph env sort g0 ≡ built g)
  unfolding init_collector_graph
  init_collector_graph-eq sort fuel last_id cs g h =
      elim (Option-cases (init_nodes env fuel cs (new_empty_graph last_id))) [
        | inl e ↦ absurd (ground (arith, e))
        | inr (g0, e) ↦ (g0, ground (arith, e))
      ]

  -- A graph that initCollectorGraph returns with no error has a node, topo.Sort orders it, and
  -- every dependency of its nodes has a node.
  pub init_collector_graph-built :
      (sort : CollectorGraph → Option (List ℕ)) (fuel last_id : ℕ) (cs : List ℕ)
      (g : CollectorGraph)
      → init_collector_graph env sort fuel last_id cs ≡ some (built g)
      → (0 < length g.nodes)
        × ((order : List ℕ) × (sort g ≡ some order))
        × ((n d : ℕ)
            → contains n g.nodes ≡ true
            → contains d (env.depends (g.heap n).collector) ≡ true
            → (m : ℕ) × (lookup d g.collectors ≡ some m))
  init_collector_graph-built sort fuel last_id cs g h =
      let (g0, e0) = init_collector_graph-eq sort fuel last_id cs g h in
      let (some_node, complete, ordered) = check_graph-built sort g0 g e0 in
      (
        some_node,
        ordered,
        λ n d c e.
            first_missing-none g.collectors (env.depends (g.heap n).collector) d
              (missing_dependencies-none g g.nodes n complete c) e,
      )
