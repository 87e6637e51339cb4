-- ===== src/Source/Collect.antt =====
-- How source.go and graph.go make a sample of a graph: the metrics of all nodes that are left, and
-- the lists of metric names that are printed.
use Prim.Native.String.{String}
use go_bitflow_collector.Prelude.{ℕ, Bool, Option, none, some, List, [], ◌∷◌, ◌++◌, if◌then◌else◌}
use go_bitflow_collector.Graph.{Collectors, CollectorNode, CollectorGraph}
use go_bitflow_collector.Graph.Init.{InitError, InitResult, built, failed, init_collector_graph}
use go_bitflow_collector.Metrics.{Metric, construct_sample, print_metrics}
use go_bitflow_collector.Node.{Regex}
use go_bitflow_collector.Node.Filters.{contains_name}
use go_bitflow_collector.Source.{
  apply_metric_filters, apply_update_frequencies, create_graph, create_filtered_graph,
}

-- The names in a node's map of metrics; a nil map has none.
abbrev pub metric_names : CollectorNode → List String
metric_names node = elim node.metrics [ none ↦ [] | some names ↦ names ]

-- `reader c name` is the number of the MetricReader that collector `c` has under the name.
module _ (reader : ℕ → String → ℕ) where
  -- The inner loop of getMetrics.
  unfoldable pub metrics_of : ℕ → List String → List Metric
  metrics_of c [] = []
  metrics_of c (name ∷ names) =
      record { name = name; index = 0; reader = reader c name } ∷ metrics_of c names

  -- getMetrics, over the nodes that are left.
  unfoldable pub get_metrics : CollectorGraph → List ℕ → List Metric
  unfolding metrics_of
  get_metrics g [] = []
  get_metrics g (n ∷ ns) =
      metrics_of (g.heap n).collector (metric_names (g.heap n)) ++ get_metrics g ns

-- The inner loop of fillMetricNames.
unfoldable pub fill_names : List String → List String → List String
fill_names [] all = all
fill_names (name ∷ names) all =
    fill_names names (if contains_name name all then all else name ∷ all)

unfoldable pub fill_metric_names : CollectorGraph → List ℕ → List String → List String
unfolding fill_names
fill_metric_names g [] all = all
fill_metric_names g (n ∷ ns) all = fill_metric_names g ns (fill_names (metric_names (g.heap n)) all)

-- listMetricNames, over the nodes that are left.
unfoldable pub list_metric_names : CollectorGraph → List String
unfolding fill_metric_names
list_metric_names g = fill_metric_names g g.nodes []

-- What collect starts with: the graph, and what ConstructSample returns for its metrics.
pub data CollectResult {ℓ} (V : Type ℓ) : Type ℓ where
  collect_failed : InitError → CollectResult V
  collecting : CollectorGraph → List String × List Metric × List V → CollectResult V

module _ (env : Collectors) (sort : CollectorGraph → Option (List ℕ))
    (reader : ℕ → String → ℕ) where
  -- collect, up to the start of its goroutines; `sort_metrics` is sort.Sort. The outer none is a
  -- panic, or says that the fuel of initNodes ran out.
  unfoldable pub collect {ℓ} :
      {V : Type ℓ}
      → V
      → (List Metric → List Metric)
      → List Regex
      → List Regex
      → List String
      → List (Regex × ℕ)
      → ℕ
      → ℕ
      → List ℕ
      → Option (CollectResult V)
  unfolding get_metrics
  collect zero_value sort_metrics exclude include disabled frequencies fuel last_id roots =
      elim (create_filtered_graph env sort exclude include disabled fuel last_id roots) [
        | none ↦ none
        | some (failed err) ↦ some (collect_failed err)
        | some (built g) ↦ some (
            collecting (apply_update_frequencies env frequencies g)
              (construct_sample zero_value sort_metrics (get_metrics reader g g.nodes)))
      ]

  -- PrintMetrics: what is printed, or an error; `sort_strings` is sort.Strings.
  unfoldable pub print_all_metrics :
      (List String → List String)
      → List Regex
      → List Regex
      → ℕ
      → ℕ
      → List ℕ
      → Option (Option (List (String × Bool)))
  unfolding list_metric_names
  print_all_metrics sort_strings exclude include fuel last_id roots =
      elim (init_collector_graph env sort fuel last_id roots) [
        | none ↦ none
        | some (failed err) ↦ some none
        | some (built g) ↦ some (
            some (
              print_metrics (sort_strings (list_metric_names g)) (
                sort_strings (list_metric_names (apply_metric_filters exclude include g.nodes g)))))
      ]

  -- getGraphForPrinting
  unfoldable pub get_graph_for_printing :
      Bool → List Regex → List Regex → List String → ℕ → ℕ → List ℕ → Option InitResult
  get_graph_for_printing full_graph exclude include disabled fuel last_id roots =
      if full_graph
      then create_graph env sort disabled fuel last_id roots
      else create_filtered_graph env sort exclude include disabled fuel last_id roots
