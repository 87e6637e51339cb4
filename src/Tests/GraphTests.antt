-- ===== src/Tests/GraphTests.antt =====
-- A small tree of collectors: the graph of graph.go at concrete inputs.
use go_bitflow_collector.Graph.Complete.{init_collector_graph-built}
use Prim.Native.String.{String}
use go_bitflow_collector.Prelude.{
  ℕ, ◌<◌, length, ◌≡◌, refl, ◌≢◌, true, false, Option, none, some, List, [], ◌∷◌, ◌==◌,
  if◌then◌else◌, contains, delete, insert, lookup, put, arith,
}
use go_bitflow_collector.Graph.{
  Collectors, CollectorNode, CollectorGraph, new_empty_graph, new_collector_node, delete_collector,
  collector_failed, collector_filtered,
}
use go_bitflow_collector.Graph.Init.{
  init_nodes, add_node, init_collector_graph, check_graph, missing_dependencies, first_missing,
  InitResult, built, failed,
}
use go_bitflow_collector.Graph.Prune.{
  prune_and_repair, prune, repair, reverse_dependencies, any_outside, add_incoming, drop_incoming,
  incoming_of, count_metrics,
}
use go_bitflow_collector.Graph.Prune.{collector_update_failed}
use go_bitflow_collector.Graph.Invariant.{
  IsWellFormed, collector_failed-IsWellFormed, collector_filtered-IsWellFormed,
}
use go_bitflow_collector.Graph.Build.{init_nodes_total, registered, children, IsUniverse}
use go_bitflow_collector.Graph.Order.{IsTopological, Resolves}
use go_bitflow_collector.Graph.Correct.{
  IsSortable, IsRepaired, Depends, prune_and_repair_correct, collector_update_failed_correct,
}

-- Collector 1 is the root, and 2, 3 and 4 are its children. Only 2 has a metric, and 4 fails.
abbrev sample_init : ℕ → Option (List ℕ)
sample_init c = if c == 1 then some (2 ∷ 3 ∷ 4 ∷ []) else if c == 4 then none else some []

abbrev sample_depends : ℕ → List ℕ
sample_depends c = if c == 2 then 1 ∷ [] else if c == 3 then 1 ∷ [] else []

abbrev sample_metrics : ℕ → List String
sample_metrics c = if c == 2 then "load" ∷ [] else []

abbrev pub sample : Collectors
sample = record {
  init = sample_init;
  metrics = sample_metrics;
  depends = sample_depends;
  string = λ c. "collector";
}

-- The dependent nodes first.
abbrev pub sample_sort : CollectorGraph → Option (List ℕ)
sample_sort g = some (3 ∷ 2 ∷ 1 ∷ [])

abbrev sample_node : ℕ → CollectorNode
sample_node c = record {
  collector = c;
  failed_updates = 0;
  metrics = some (sample_metrics c);
  update_frequency = 0;
}

abbrev pub sample_graph : CollectorGraph
sample_graph = record {
  nodes = 1 ∷ 2 ∷ 3 ∷ [];
  node_ids = 1 ∷ 2 ∷ 3 ∷ [];
  failed = 4 ∷ [];
  failed_list = 4 ∷ [];
  filtered = [];
  collectors = (1, 1) ∷ (2, 2) ∷ (3, 3) ∷ (4, 4) ∷ [];
  heap = sample_node;
  last_id = 4;
}

pub sample_graph-IsWellFormed : IsWellFormed sample_graph
unfolding contains
sample_graph-IsWellFormed n = ground arith

sample-IsUniverse : IsUniverse sample (1 ∷ 2 ∷ 3 ∷ 4 ∷ [])
unfolding contains
sample-IsUniverse c d k h = ground arith

init_nodes_total_example :
    (g : CollectorGraph) × (init_nodes sample 5 (1 ∷ []) (new_empty_graph 0) ≡ some g)
    × ((d : ℕ) → contains d (1 ∷ []) ≡ true → registered g d ≡ true)
    × ((c d : ℕ)
        → registered g c ≡ true
        → contains d (children sample c) ≡ true
        → registered g d ≡ true)
    × IsWellFormed g
unfolding contains
init_nodes_total_example =
    init_nodes_total sample (1 ∷ 2 ∷ 3 ∷ 4 ∷ []) 5 0 (1 ∷ []) sample-IsUniverse
      (λ d h. ground arith) (omega arith)

-- The nodes that are left of the run.
nodes_of : Option CollectorGraph → List ℕ
nodes_of none = []
nodes_of (some g) = g.nodes

left_of_sample : nodes_of (prune_and_repair sample sample_sort sample_graph) ≡ 1 ∷ 2 ∷ []
unfolding nodes_of prune_and_repair prune repair reverse_dependencies any_outside add_incoming
    drop_incoming collector_filtered delete_collector lookup contains insert delete put incoming_of
    count_metrics
left_of_sample = refl

sample-Resolves :
    (n : ℕ)
    → contains n (1 ∷ 2 ∷ 3 ∷ []) ≡ true
    → Resolves sample sample_node sample_graph.collectors n
unfolding contains lookup
sample-Resolves n h d c = (1, ground arith)

sample_order : (n m : ℕ) → Depends sample sample_graph n m → (m ≡ 1) × (n ≢ 1)
unfolding contains lookup
sample_order n m (d, c, e) = (ground arith, ground arith)

sample-IsTopological :
    IsTopological sample sample_node sample_graph.collectors (1 ∷ 2 ∷ 3 ∷ []) (1 ∷ 2 ∷ 3 ∷ []) 4
unfolding contains
sample-IsTopological = record {
  complete = λ n c. c;
  ordered = (
    λ y c. (λ e. ground arith, λ d. (sample_order 1 y d).1 refl),
    (
      λ y c. (λ e. ground arith, λ d. ground (arith, sample_order 2 y d)),
      (λ y c. (λ e. ground arith, λ d. ground (arith, sample_order 3 y d)), tt),
    ),
  );
  acyclic = λ n c d. ground (arith, sample_order n n d);
  made = λ n c. ground arith;
}

sample-IsSortable : IsSortable sample sample_sort sample_graph (3 ∷ 2 ∷ 1 ∷ [])
sample-IsSortable = record {
  sorts = refl;
  topological = sample-IsTopological;
  resolves = sample-Resolves;
}

prune_and_repair_correct_example :
    (pruned : List ℕ) × (g : CollectorGraph) × (prune_and_repair sample sample_sort sample_graph
      ≡ some g)
    × IsRepaired sample sample_graph pruned g
prune_and_repair_correct_example =
    prune_and_repair_correct sample sample_sort sample_graph (3 ∷ 2 ∷ 1 ∷ [])
      sample_graph-IsWellFormed sample-IsSortable

-- Collector 1 fails: topo.Sort lists 2 and 3 before it, as the edges still lead to it.
failed-IsSortable : IsSortable sample sample_sort (collector_failed 1 sample_graph) (3 ∷ 2 ∷ 1 ∷ [])
unfolding collector_failed delete contains
failed-IsSortable = record {
  sorts = refl;
  topological = record {
    complete = λ n c. ground arith;
    ordered = sample-IsTopological.ordered;
    acyclic = sample-IsTopological.acyclic;
    made = sample-IsTopological.made;
  };
  resolves = sample-Resolves;
}

collector_update_failed_correct_example :
    (g : CollectorGraph) × (collector_update_failed sample sample_sort 1 sample_graph ≡ some g)
    × IsWellFormed g
    × (contains 1 g.nodes ≡ false)
    × ((m : ℕ) → contains m g.nodes ≡ true → ¬ Depends sample sample_graph m 1)
    × ((m : ℕ) → contains m g.nodes ≡ true → contains m (1 ∷ 2 ∷ 3 ∷ []) ≡ true)
collector_update_failed_correct_example =
    collector_update_failed_correct sample sample_sort 1 sample_graph (3 ∷ 2 ∷ 1 ∷ [])
      sample_graph-IsWellFormed (omega arith) failed-IsSortable

-- The graph of a result that has one.
unfoldable pub graph_of : Option InitResult → CollectorGraph
graph_of none = new_empty_graph 0
graph_of (some (failed _)) = new_empty_graph 0
graph_of (some (built g)) = g

unfoldable pub sample_run : Option InitResult
sample_run = init_collector_graph sample sample_sort 5 0 (1 ∷ [])

init_collector_graph-built_example :
    (0 < length (graph_of sample_run).nodes)
    × ((order : List ℕ) × (sample_sort (graph_of sample_run) ≡ some order))
    × ((n d : ℕ)
        → contains n (graph_of sample_run).nodes ≡ true
        → contains d (sample_depends ((graph_of sample_run).heap n).collector) ≡ true
        → (m : ℕ) × (lookup d (graph_of sample_run).collectors ≡ some m))
unfolding graph_of sample_run init_collector_graph init_nodes add_node new_collector_node
    new_empty_graph check_graph missing_dependencies first_missing lookup put insert contains delete
    collector_failed
init_collector_graph-built_example =
    init_collector_graph-built sample sample_sort 5 0 (1 ∷ []) (graph_of sample_run) refl

collector_failed-IsWellFormed_example : IsWellFormed (collector_failed 2 sample_graph)
collector_failed-IsWellFormed_example =
    collector_failed-IsWellFormed 2 sample_graph (omega arith) sample_graph-IsWellFormed

collector_filtered-IsWellFormed_example : IsWellFormed (collector_filtered 3 sample_graph)
collector_filtered-IsWellFormed_example =
    collector_filtered-IsWellFormed 3 sample_graph (omega arith) sample_graph-IsWellFormed
