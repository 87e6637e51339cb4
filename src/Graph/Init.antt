-- ===== src/Graph/Init.antt =====
-- graph.go and graph_node.go: how the graph is built from the root collectors.
use go_bitflow_collector.Prelude.{
  ℕ, zero, suc, Bool, true, false, Option, none, some, List, [], ◌∷◌, ◌==◌, if◌then◌else◌, length,
  lookup,
}
use go_bitflow_collector.Graph.{
  Collectors, CollectorNode, CollectorGraph, new_empty_graph, update_node, new_collector_node,
  collector_failed,
}

pub data InitError : Type 0 where
  all_failed : ℕ → InitError
  missing_dependency : ℕ → ℕ → InitError
  cyclic : InitError

pub data InitResult : Type 0 where
  built : CollectorGraph → InitResult
  failed : InitError → InitResult

-- collectorNode.isInitialized
unfoldable pub is_initialized : CollectorNode → Bool
is_initialized node = elim node.metrics [ none ↦ false | some _ ↦ true ]

module _ (env : Collectors) where
  -- collectorNode.init of the node `n` of the collector `c`: the children, or none for an error.
  unfoldable pub init : ℕ → CollectorGraph → Option (List ℕ) × CollectorGraph
  unfolding update_node
  init n g =
      let c = (g.heap n).collector in
      elim (env.init c) [
        | none ↦ (none, g)
        | some children ↦ (
          some children,
          update_node n (λ node. record node { metrics = some (env.metrics c) }) g,
        )
      ]

  -- initNode, up to its call of initNodes: the graph, and the children that are to be added.
  unfoldable pub add_node : ℕ → CollectorGraph → List ℕ × CollectorGraph
  unfolding init
  add_node c g =
      let new = new_collector_node c g in
      let (outcome, g') = init new.last_id new in
      elim outcome [ none ↦ ([], collector_failed new.last_id g') | some children ↦ (children, g') ]

  -- initNodes and initNode, on fuel for the depth of the calls; `none` says that it ran out.
  unfoldable pub init_nodes : ℕ → List ℕ → CollectorGraph → Option CollectorGraph
  init_nodes fuel [] g = some g
  init_nodes zero (c ∷ cs) g = none
  init_nodes (suc fuel) (c ∷ cs) g = elim (lookup c g.collectors) [
    | some _ ↦ init_nodes (suc fuel) cs g
    | none ↦
        let (children, g') = add_node c g in
        elim (init_nodes fuel children g') [ none ↦ none | some g'' ↦ init_nodes (suc fuel) cs g'' ]
  ]

  -- The first collector of the list that has no node.
  unfoldable pub first_missing : List (ℕ × ℕ) → List ℕ → Option ℕ
  first_missing collectors [] = none
  first_missing collectors (d ∷ ds) = elim (lookup d collectors) [
    | none ↦ some d
    | some _ ↦ first_missing collectors ds
  ]

  -- checkMissingDependencies, over the nodes that are left.
  unfoldable pub missing_dependencies : CollectorGraph → List ℕ → Option (ℕ × ℕ)
  missing_dependencies g [] = none
  missing_dependencies g (n ∷ ns) =
      elim (first_missing g.collectors (env.depends (g.heap n).collector)) [
        | none ↦ missing_dependencies g ns
        | some d ↦ some (n, d)
      ]

  -- The checks of initCollectorGraph after initNodes. `sort` is topo.Sort, where none is its error.
  unfoldable pub check_graph : (CollectorGraph → Option (List ℕ)) → CollectorGraph → InitResult
  check_graph sort g =
      if length g.nodes == 0
      then failed (all_failed (length g.failed))
      else elim (missing_dependencies g g.nodes) [
        | some (n, d) ↦ failed (missing_dependency n d)
        | none ↦ elim (sort g) [ none ↦ failed cyclic | some _ ↦ built g ]
      ]

  -- initCollectorGraph; none says that the fuel ran out. The number `last_id` of nodes made
  -- before goes on from graph to graph.
  unfoldable pub init_collector_graph :
      (CollectorGraph → Option (List ℕ)) → ℕ → ℕ → List ℕ → Option InitResult
  init_collector_graph sort fuel last_id collectors =
      elim (init_nodes fuel collectors (new_empty_graph last_id)) [
        | none ↦ none
        | some g ↦ some (check_graph sort g)
      ]
