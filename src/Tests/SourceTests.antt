-- ===== src/Tests/SourceTests.antt =====
-- The filters of source.go at a concrete graph.
use Prim.Native.String.{String}
use text.Mathlib.Text.{◌==◌ as str_eq}
use go_bitflow_collector.Graph.{
  CollectorGraph, update_node, delete_collector, new_collector_node, new_empty_graph,
  collector_failed,
}
use go_bitflow_collector.Graph.Correct.{IsSortable, Depends}
use go_bitflow_collector.Graph.Invariant.{IsWellFormed}
use go_bitflow_collector.Node
use go_bitflow_collector.Node.{Regex}
use go_bitflow_collector.Prelude.{
  ℕ, zero, get_elem?, ◌+◌, ◌≡◌, refl, true, false, some, List, [], ◌∷◌, contains, lookup, put,
  insert, delete, arith,
}
use go_bitflow_collector.Source.{
  filter_graph, node_string, is_named, apply_metric_filters, apply_collector_filters,
}
use go_bitflow_collector.Source.{create_graph, enabled_roots, apply_update_frequencies}
use go_bitflow_collector.Source.Collect.{collect, collecting, get_metrics, metric_names}
use go_bitflow_collector.Source.Sampled.{IsSorting, sample_correct}
use go_bitflow_collector.Source.Edges.{IsRegistry, edges_agree}
use go_bitflow_collector.Source.{from, to, has_edge_from_to}
use go_bitflow_collector.Source.Conditions.{Conditions, start_updates}
use go_bitflow_collector.Source.Wired.{IsStarted, start_updates_correct}
use go_bitflow_collector.Metrics.{Metric, construct_sample, update_all}
use go_bitflow_collector.Node.Filters.{Passes, contains_name}
use go_bitflow_collector.Graph.Init.{
  init_collector_graph, init_nodes, add_node, check_graph, missing_dependencies, first_missing,
}
use go_bitflow_collector.Source.Filtered.{filter_graph_correct, IsFiltered, selected}
use go_bitflow_collector.Tests.GraphTests.{
  graph_of, sample_run, sample, sample_sort, sample_graph, sample_graph-IsWellFormed,
}

abbrev is_load : Regex
is_load name = str_eq name "load"

abbrev disabled : List String
disabled = "other" ∷ []

selected-IsSortable :
    IsSortable sample sample_sort
      (selected sample (is_load ∷ []) [] disabled sample_graph)
      (3 ∷ 2 ∷ 1 ∷ [])
unfolding contains update_node lookup apply_metric_filters apply_collector_filters
    Node.apply_metric_filters delete_collector is_named
selected-IsSortable = record {
  sorts = refl;
  topological = record {
    complete = λ n c. ground arith;
    ordered = (
      λ y c. (λ e. ground arith, λ (d, l, e). ground arith),
      (
        λ y c. (λ e. ground arith, λ (d, l, e). ground arith),
        (λ y c. (λ e. ground arith, λ (d, l, e). ground arith), tt),
      ),
    );
    acyclic = λ n c (d, l, e). ground arith;
    made = λ n c. ground arith;
  };
  resolves = λ n h d c. (1, ground arith);
}

filter_graph_correct_example :
    (g : CollectorGraph) × (filter_graph sample sample_sort (is_load ∷ []) [] disabled sample_graph
      ≡ some g)
    × IsWellFormed g
    × ((n : ℕ)
        → contains n g.nodes ≡ true
        → (contains n (1 ∷ 2 ∷ 3 ∷ []) ≡ true)
          × (is_named (node_string sample sample_graph n) disabled ≡ false)
          × IsFiltered (is_load ∷ []) [] (g.heap n)
          × ((m : ℕ) → Depends sample sample_graph n m → contains m g.nodes ≡ true))
filter_graph_correct_example =
    filter_graph_correct sample sample_sort (is_load ∷ []) [] disabled sample_graph (3 ∷ 2 ∷ 1 ∷ [])
      sample_graph-IsWellFormed selected-IsSortable

-- Metrics stay in the order of the nodes, and the reader of a collector gives its number.
abbrev unsorted : List Metric → List Metric
unsorted s = s

unsorted-IsSorting : IsSorting unsorted
unsorted-IsSorting = record { only = λ s metric there. there; all = λ s metric there. there }

abbrev reader : ℕ → String → ℕ
reader c name = c

created-IsWellFormed : IsWellFormed (graph_of sample_run)
unfolding graph_of sample_run init_collector_graph init_nodes add_node new_collector_node
    new_empty_graph check_graph missing_dependencies first_missing lookup put insert contains delete
    collector_failed
created-IsWellFormed n = ground arith

created-IsSortable :
    IsSortable sample sample_sort
      (selected sample [] [] disabled (graph_of sample_run))
      (3 ∷ 2 ∷ 1 ∷ [])
unfolding graph_of sample_run init_collector_graph init_nodes add_node new_collector_node
    new_empty_graph check_graph missing_dependencies first_missing lookup put insert contains delete
    collector_failed update_node apply_metric_filters apply_collector_filters
    Node.apply_metric_filters delete_collector is_named
created-IsSortable = record {
  sorts = refl;
  topological = record {
    complete = λ n c. ground arith;
    ordered = (
      λ y c. (λ e. ground arith, λ (d, l, e). ground arith),
      (
        λ y c. (λ e. ground arith, λ (d, l, e). ground arith),
        (λ y c. (λ e. ground arith, λ (d, l, e). ground arith), tt),
      ),
    );
    acyclic = λ n c (d, l, e). ground arith;
    made = λ n c. ground arith;
  };
  resolves = λ n h d c. (1, ground arith);
}

sample_correct_example :
    (g : CollectorGraph) × (values : List ℕ) × (collect sample sample_sort reader zero unsorted []
        [] disabled [] 5 0
        (1 ∷ [])
      ≡ some (
          collecting
            (apply_update_frequencies sample [] g)
            (construct_sample zero unsorted (get_metrics reader g g.nodes))))
    × (let (fields, metrics, values0) =
          construct_sample zero unsorted (get_metrics reader g g.nodes) in
        (update_all (λ r. r + 40) metrics values0 ≡ some values)
        × ((i : ℕ) (name : String)
            → get_elem? fields i ≡ some name
            → (n : ℕ) × (contains n g.nodes ≡ true)
              × (contains_name name (metric_names (g.heap n)) ≡ true)
              × (get_elem? values i ≡ some ((g.heap n).collector + 40))
              × Passes [] [] name
              × (is_named (node_string sample (graph_of sample_run) n) disabled ≡ false))
        × ((n : ℕ) (name : String)
            → contains n g.nodes ≡ true
            → contains_name name (metric_names (g.heap n)) ≡ true
            → contains_name name fields ≡ true))
unfolding graph_of sample_run init_collector_graph init_nodes add_node new_collector_node
    new_empty_graph check_graph missing_dependencies first_missing lookup put insert contains delete
    collector_failed create_graph enabled_roots is_named
sample_correct_example =
    sample_correct reader sample sample_sort [] [] disabled (graph_of sample_run) (3 ∷ 2 ∷ 1 ∷ [])
      zero unsorted (λ r. r + 40) [] 5 0 (1 ∷ []) refl created-IsWellFormed created-IsSortable
      unsorted-IsSorting

start_updates_correct_example :
    (root_conditions leaf_conditions : List ℕ) × (s : Conditions) × (start_updates sample
        sample_graph
      ≡ some (root_conditions, leaf_conditions, s))
    × IsStarted sample sample_graph root_conditions leaf_conditions s
unfolding contains lookup
start_updates_correct_example =
    start_updates_correct sample sample_graph (refl, (refl, (refl, tt)))
      (λ n there d c. (1, ground (arith, there, c)))

sample_graph-IsRegistry : IsRegistry sample_graph
unfolding lookup contains
sample_graph-IsRegistry = record {
  own = λ d n e. ground (arith, e);
  all = λ n there. ground (arith, there);
  ids = λ n. refl;
}

edges_agree_example :
    (targets : List ℕ) × (from sample sample_graph 2 ≡ some targets)
    × (has_edge_from_to sample sample_graph 2 1 ≡ some (contains 1 targets))
    × (contains 2 (to sample sample_graph 1) ≡ contains 1 targets)
unfolding lookup contains
edges_agree_example =
    edges_agree sample sample_graph 2 1 sample_graph-IsRegistry refl refl
      (λ d c. (1, ground (arith, c)))
