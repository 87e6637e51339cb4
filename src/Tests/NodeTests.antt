-- ===== src/Tests/NodeTests.antt =====
-- The updates and filters of graph_node.go at concrete inputs.
use Prim.Native.Nat.{ℕ}
use Prim.Native.String.{[], ◌∷◌, String}
use text.Mathlib.Text.{◌==◌ as str_eq}
use go_bitflow_collector.Graph.{collector_failed, update_node}
use go_bitflow_collector.Node.{
  no_error, error, UpdateState, update_and_broadcast, set_failed_updates, update_loop,
  get_filtered_metrics, Regex,
}
use go_bitflow_collector.Node.Filters.{get_filtered_metrics_iff, contains_name, Passes}
use go_bitflow_collector.Node.Updates.{
  update_loop-tolerates, update_loop-second_failure, failed_twice,
}
use go_bitflow_collector.Node.Schedule.{
  Schedule, Reach, here, next, takes_root, sets_roots, take_root, set_roots, runs, start, finish,
  Reach-rounds,
}
use go_bitflow_collector.Tests.GraphTests.{
  sample, sample_sort, sample_graph, sample_graph-IsWellFormed,
}
use go_bitflow_collector.Graph.Correct.{IsSortable, Depends}
use go_bitflow_collector.Graph.Invariant.{IsWellFormed}
use go_bitflow_collector.Prelude.{
  ℕ, ◌<◌, ◌≤◌, ◌≡◌, refl, ◌↔◌, true, false, some, List, [], ◌∷◌, contains, delete, lookup,
  if◌then◌else◌, ◌==◌, arith, pos,
}

abbrev is_load : Regex
is_load name = str_eq name "load"

abbrev names : List String
names = "cpu" ∷ "load" ∷ "mem" ∷ []

get_filtered_metrics_iff_example :
    (contains_name "mem" (get_filtered_metrics (is_load ∷ []) [] names) ≡ true)
    ↔ ((contains_name "mem" names ≡ true) × Passes (is_load ∷ []) [] "mem")
get_filtered_metrics_iff_example = get_filtered_metrics_iff (is_load ∷ []) [] names "mem"

abbrev running : UpdateState
running = record { graph = sample_graph; stopped = false }

update_loop-tolerates_example :
    (s : UpdateState) × (update_loop sample sample_sort 2
        ((error, pos 10) ∷ (no_error, pos 20) ∷ (error, pos 30) ∷ [])
        (pos 0)
        running
      ≡ some (true, s, pos 0))
    × (s.stopped ≡ false)
    × (s.graph.nodes ≡ 1 ∷ 2 ∷ 3 ∷ [])
    × (s.graph.failed ≡ 4 ∷ [])
unfolding contains
update_loop-tolerates_example =
    update_loop-tolerates sample sample_sort 2
      ((error, pos 10) ∷ (no_error, pos 20) ∷ (error, pos 30) ∷ []) (pos 0) running
      (refl, (refl, tt)) (refl, refl, refl) refl

twice-IsSortable :
    IsSortable sample sample_sort
      (collector_failed 1 (failed_twice sample sample_sort 1 sample_graph))
      (3 ∷ 2 ∷ 1 ∷ [])
unfolding collector_failed delete contains update_node lookup
twice-IsSortable = record {
  sorts = refl;
  topological = record {
    complete = λ n c. ground arith;
    ordered = (
      λ y c. (λ e. ground arith, λ (d, l, e). ground arith),
      (
        λ y c. (λ e. ground arith, λ (d, l, e). ground arith),
        (λ y c. (λ e. ground arith, λ (d, l, e). ground arith), tt),
      ),
    );
    acyclic = λ n c (d, l, e). ground arith;
    made = λ n c. ground arith;
  };
  resolves = λ n h d c. (1, ground arith);
}

update_loop-second_failure_example :
    (s : UpdateState) × (update_loop sample sample_sort 1
        ((error, pos 10) ∷ (error, pos 20) ∷ [])
        (pos 0)
        running
      ≡ some (false, s, pos 0))
    × IsWellFormed s.graph
    × (contains 1 s.graph.nodes ≡ false)
    × ((m : ℕ) → contains m s.graph.nodes ≡ true → ¬ Depends sample sample_graph m 1)
    × (s.stopped ≡ false)
unfolding contains
update_loop-second_failure_example =
    update_loop-second_failure sample sample_sort 1 (pos 10) (pos 20) (pos 0) [] running
      (3 ∷ 2 ∷ 1 ∷ []) (refl, refl, refl) refl sample_graph-IsWellFormed (omega arith)
      twice-IsSortable

-- Node 2 depends on node 1, which has finished one call, with an error.
abbrev one_dependency : ℕ → List ℕ
one_dependency n = if n == 2 then 1 ∷ [] else []

abbrev failed_once : UpdateState
failed_once = record { graph = set_failed_updates 1 1 sample_graph; stopped = false }

abbrev woken : Schedule
woken =
    take_root sample sample_sort one_dependency 1 (
      set_roots sample sample_sort one_dependency (start sample sample_sort one_dependency running))

abbrev once : Schedule
once = finish sample sample_sort one_dependency 1 true failed_once (pos 0) woken

once-Reach : Reach sample sample_sort one_dependency once
unfolding contains update_and_broadcast take_root set_roots
once-Reach =
    next (next (next (here running) (sets_roots refl)) (takes_root 1 refl refl refl refl))
      (runs 1 error (pos 10) true failed_once (pos 0) refl refl refl refl refl)

Reach-rounds_example :
    (once.rounds 2 ≤ once.rounds 1) × (once.waiting 2 ≡ [] → once.rounds 2 < once.rounds 1)
unfolding contains finish update_node take_root set_roots
Reach-rounds_example =
    Reach-rounds sample sample_sort one_dependency (λ n. ground arith) once-Reach refl 1 2 refl
