-- ===== src/Source.antt =====
-- source.go: the configuration of the sample source, and how it builds and filters the graph;
-- with the filters and lists of graph.go, and the view of the graph in graph_gonum.go.
pub mod Filtered
pub mod Collect
pub mod Sampled
pub mod Conditions
pub mod Owned
pub mod Endpoints
pub mod Connected
pub mod Wired
pub mod Edges
use Prim.Native.String.{String}
use text.Mathlib.Text.{◌==◌ as str_eq}
use go_bitflow_collector.Prelude.{
  ℕ, suc, ◌+◌, Bool, true, false, Option, none, some, List, [], ◌∷◌, ◌++◌, if◌then◌else◌, length,
  contains, insert, lookup, not, ◌==◌, ℤ, pos, ltb_ℤ,
}
use go_bitflow_collector.Graph.{
  Collectors, CollectorNode, CollectorGraph, update_node, delete_collector, resolve,
  insert_collector_node, new_empty_graph,
}
use go_bitflow_collector.Graph.Init.{InitError, InitResult, built, failed, init_collector_graph}
use go_bitflow_collector.Graph.Prune.{
  Incoming, incoming_of, reverse_dependencies, prune_and_repair, sort_graph,
}
use go_bitflow_collector.Node
use go_bitflow_collector.Node.{Regex}

-- collectorGraph.applyMetricFilters, over the nodes that are left.
unfoldable pub apply_metric_filters :
    List Regex → List Regex → List ℕ → CollectorGraph → CollectorGraph
apply_metric_filters exclude include [] g = g
apply_metric_filters exclude include (n ∷ ns) g =
    apply_metric_filters exclude include ns
      (update_node n (Node.apply_metric_filters exclude include) g)

-- The loop over the names to delete, with its break.
unfoldable pub is_named : String → List String → Bool
is_named name [] = false
is_named name (delete_name ∷ names) =
    let rest = is_named name names in if str_eq delete_name name then true else rest

module _ (env : Collectors) where
  -- collectorNode.String
  abbrev pub node_string : CollectorGraph → ℕ → String
  node_string g n = env.string (g.heap n).collector

  -- collectorGraph.applyCollectorFilters, over the nodes that are left.
  unfoldable pub apply_collector_filters : List String → List ℕ → CollectorGraph → CollectorGraph
  unfolding is_named
  apply_collector_filters names [] g = g
  apply_collector_filters names (n ∷ ns) g =
      apply_collector_filters names ns
        (if is_named (node_string g n) names then delete_collector n g else g)

  -- The inner loop of applyUpdateFrequencies.
  unfoldable pub apply_update_frequency : Regex → ℕ → List ℕ → CollectorGraph → CollectorGraph
  apply_update_frequency regex freq [] g = g
  apply_update_frequency regex freq (n ∷ ns) g = apply_update_frequency regex freq ns (
      if regex (node_string g n)
      then update_node n (λ node. record node { update_frequency = freq }) g
      else g)

  unfoldable pub apply_update_frequencies : List (Regex × ℕ) → CollectorGraph → CollectorGraph
  unfolding apply_update_frequency
  apply_update_frequencies [] g = g
  apply_update_frequencies ((regex, freq) ∷ rest) g =
      apply_update_frequencies rest (apply_update_frequency regex freq g.nodes g)

  -- The loops of SampleSource.createGraph: the root collectors that are not disabled.
  unfoldable pub enabled_roots : List String → List ℕ → List ℕ
  unfolding is_named
  enabled_roots disabled [] = []
  enabled_roots disabled (root ∷ roots) =
      let rest = enabled_roots disabled roots in
      if is_named (env.string root) disabled then rest else root ∷ rest

  module _ (sort : CollectorGraph → Option (List ℕ)) where
    unfoldable pub create_graph : List String → ℕ → ℕ → List ℕ → Option InitResult
    unfolding enabled_roots
    create_graph disabled fuel last_id roots =
        init_collector_graph env sort fuel last_id (enabled_roots disabled roots)

    -- createFilteredGraph after createGraph; none is a panic.
    unfoldable pub filter_graph :
        List Regex → List Regex → List String → CollectorGraph → Option CollectorGraph
    unfolding apply_metric_filters apply_collector_filters
    filter_graph exclude include disabled g =
        let g1 = apply_metric_filters exclude include g.nodes g in
        let g2 = apply_collector_filters disabled g1.nodes g1 in prune_and_repair env sort g2

    -- createFilteredGraph. The outer none is a panic, or says that the fuel of initNodes ran out.
    unfoldable pub create_filtered_graph :
        List Regex → List Regex → List String → ℕ → ℕ → List ℕ → Option InitResult
    create_filtered_graph exclude include disabled fuel last_id roots =
        elim (create_graph disabled fuel last_id roots) [
          | none ↦ none
          | some (failed err) ↦ some (failed err)
          | some (built g) ↦ elim (filter_graph exclude include disabled g) [
            | none ↦ none
            | some g' ↦ some (built g')
          ]
        ]

    -- sortedFilteredNodes; `makeNodeList` and createCollectorSubGraph are `insert_all`.
    unfoldable pub insert_all : List ℕ → CollectorGraph → CollectorGraph
    insert_all [] g = g
    insert_all (n ∷ ns) g = insert_all ns (insert_collector_node n g)

    unfoldable pub only_filtered : List ℕ → List ℕ → List ℕ
    only_filtered filtered [] = []
    only_filtered filtered (n ∷ sorted) =
        let rest = only_filtered filtered sorted in if contains n filtered then n ∷ rest else rest

    unfoldable pub sorted_filtered_nodes : CollectorGraph → Option (List ℕ)
    unfolding insert_all only_filtered
    sorted_filtered_nodes g = elim g.filtered [
      | [] ↦ some []
      | n ∷ [] ↦ some (n ∷ [])
      | a ∷ b ∷ rest ↦
          let full =
            insert_all (g.nodes ++ (g.filtered ++ g.failed))
              (record (new_empty_graph g.last_id) { heap = g.heap }) in
          elim (sort_graph env sort full) [
            | none ↦ none
            | some sorted ↦ some (only_filtered g.filtered sorted)
          ]
    ]

  -- dependingOn: a node stands in the list once for each time that it names the collector.
  unfoldable pub count_dependency : ℕ → ℕ → List ℕ → List ℕ
  count_dependency n target [] = []
  count_dependency n target (d ∷ ds) =
      let rest = count_dependency n target ds in if d == target then n ∷ rest else rest

  unfoldable pub depending_on : CollectorGraph → ℕ → List ℕ → List ℕ
  unfolding count_dependency
  depending_on g target [] = []
  depending_on g target (n ∷ ns) =
      count_dependency n target (env.depends (g.heap n).collector) ++ depending_on g target ns

  -- getRootsAndLeafs, over the nodes that are left.
  unfoldable pub roots_of : CollectorGraph → List ℕ → List ℕ
  roots_of g [] = []
  roots_of g (n ∷ ns) =
      let rest = roots_of g ns in
      if length (env.depends (g.heap n).collector) == 0 then n ∷ rest else rest

  unfoldable pub leafs_of : Incoming → List ℕ → List ℕ
  leafs_of reverse [] = []
  leafs_of reverse (n ∷ ns) =
      let rest = leafs_of reverse ns in
      if length (incoming_of n reverse) == 0 then n ∷ rest else rest

  unfoldable pub get_roots_and_leafs : CollectorGraph → Option (List ℕ × List ℕ)
  unfolding roots_of leafs_of
  get_roots_and_leafs g = elim (reverse_dependencies env g g.nodes []) [
    | none ↦ none
    | some reverse ↦ some (roots_of g g.nodes, leafs_of reverse g.nodes)
  ]

  -- The nodes that the dependencies resolve to; none is a panic.
  unfoldable pub resolve_all : CollectorGraph → List ℕ → Option (List ℕ)
  resolve_all g [] = some []
  resolve_all g (d ∷ ds) = elim (resolve g d) [
    | none ↦ none
    | some n ↦ elim (resolve_all g ds) [ none ↦ none | some ns ↦ some (n ∷ ns) ]
  ]

  -- graph_gonum.go: From, HasEdgeFromTo and To. `from` of an unknown ID has no nodes.
  unfoldable pub from : CollectorGraph → ℕ → Option (List ℕ)
  unfolding resolve_all
  from g id =
      if contains id g.node_ids then resolve_all g (env.depends (g.heap id).collector) else some []

  unfoldable pub any_target : CollectorGraph → ℕ → List ℕ → Option Bool
  any_target g to [] = some false
  any_target g to (d ∷ ds) = elim (resolve g d) [
    | none ↦ none
    | some n ↦ let rest = any_target g to ds in if n == to then some true else rest
  ]

  unfoldable pub has_edge_from_to : CollectorGraph → ℕ → ℕ → Option Bool
  unfolding any_target
  has_edge_from_to g x y =
      if not (contains x g.node_ids)
      then some false
      else if not (contains y g.node_ids)
      then some false
      else any_target g y (env.depends (g.heap x).collector)

  unfoldable pub to : CollectorGraph → ℕ → List ℕ
  unfolding depending_on
  to g id = if contains id g.node_ids then depending_on g (g.heap id).collector g.nodes else []

-- The checks of SampleSource.Start, in the order in which the map is walked: the first interval
-- that is not positive.
unfoldable pub first_bad_interval : List (String × ℤ) → Option String
first_bad_interval [] = none
first_bad_interval ((name, val) ∷ rest) =
    let later = first_bad_interval rest in if not (ltb_ℤ (pos 0) val) then some name else later

-- The rounds of loopCheck over the list, up to the first check that stops the stopper: the nodes
-- that are checked, and whether it stops.
unfoldable pub check_round : (ℕ → Bool) → List ℕ → List ℕ × Bool
check_round stops [] = ([], false)
check_round stops (n ∷ nodes) =
    let (checked, stopped) = check_round stops nodes in
    if stops n then (n ∷ [], true) else (n ∷ checked, stopped)
