-- ===== src/Graph/Prune.antt =====
-- graph.go: pruneAndRepair and what it calls. `none` is a panic.
use mathlib.Core.List.{reverse}
use go_bitflow_collector.Prelude.{
  ℕ, Bool, true, false, Option, none, some, List, [], ◌∷◌, map, ◌==◌, if◌then◌else◌, ◌&&◌, contains,
  delete, insert, lookup, put, not, length,
}
use go_bitflow_collector.Graph.{
  Collectors, CollectorNode, CollectorGraph, resolve, delete_collector, collector_failed,
  collector_filtered,
}

-- A map from a node to the set of nodes that depend on it.
abbrev pub Incoming : Type 0
Incoming = List (ℕ × List ℕ)

unfoldable pub incoming_of : ℕ → Incoming → List ℕ
incoming_of n incoming = elim (lookup n incoming) [ none ↦ [] | some set ↦ set ]

-- len(node.metrics)
unfoldable pub count_metrics : CollectorNode → ℕ
count_metrics node = elim node.metrics [ none ↦ 0 | some names ↦ length names ]

-- The loop of dependsOnFailedOrFiltered.
unfoldable pub any_outside : CollectorGraph → List ℕ → Option Bool
unfolding resolve
any_outside g [] = some false
any_outside g (d ∷ ds) = elim (resolve g d) [
  | none ↦ none
  | some n ↦ let rest = any_outside g ds in if not (contains n g.nodes) then some true else rest
]

-- The inner loop of reverseDependencies.
unfoldable pub add_incoming : CollectorGraph → ℕ → List ℕ → Incoming → Option Incoming
unfolding resolve incoming_of
add_incoming g n [] incoming = some incoming
add_incoming g n (d ∷ ds) incoming = elim (resolve g d) [
  | none ↦ none
  | some target ↦ add_incoming g n ds (put target (insert n (incoming_of target incoming)) incoming)
]

-- `delete(dependencySet, node)` for every set.
unfoldable pub drop_incoming : ℕ → Incoming → Incoming
drop_incoming n incoming = map (λ (target, set). (target, delete n set)) incoming

module _ (env : Collectors) where
  unfoldable pub depends_on_failed_or_filtered : CollectorGraph → ℕ → Option Bool
  depends_on_failed_or_filtered g n = any_outside g (env.depends (g.heap n).collector)

  -- The first loop: the graph, and the nodes of `sorted` that were not set to nil.
  unfoldable pub prune : List ℕ → CollectorGraph → Option (List ℕ × CollectorGraph)
  unfolding depends_on_failed_or_filtered
  prune [] g = some ([], g)
  prune (n ∷ sorted) g = elim (depends_on_failed_or_filtered g n) [
    | none ↦ none
    | some true ↦ prune sorted (delete_collector n g)
    | some false ↦ elim (prune sorted g) [ none ↦ none | some (kept, g') ↦ some (n ∷ kept, g') ]
  ]

  -- reverseDependencies, over the nodes that are left.
  unfoldable pub reverse_dependencies : CollectorGraph → List ℕ → Incoming → Option Incoming
  reverse_dependencies g [] incoming = some incoming
  reverse_dependencies g (n ∷ ns) incoming =
      elim (add_incoming g n (env.depends (g.heap n).collector) incoming) [
        | none ↦ none
        | some incoming' ↦ reverse_dependencies g ns incoming'
      ]

  -- The test of the second loop.
  unfoldable pub is_idle : CollectorGraph → Incoming → ℕ → Bool
  is_idle g incoming n = count_metrics (g.heap n) == 0 && length (incoming_of n incoming) == 0

  -- The second loop, over the nodes from the last to the first.
  unfoldable pub repair : List ℕ → CollectorGraph → Incoming → CollectorGraph
  unfolding is_idle
  repair [] g incoming = g
  repair (n ∷ sorted) g incoming =
      let idle = is_idle g incoming n in
      repair sorted (if idle then collector_filtered n g else g)
        (if idle then drop_incoming n incoming else incoming)

  -- `sort` is topo.Sort: its order has the dependent nodes first, and sortGraph reverses it.
  unfoldable pub sort_graph : (CollectorGraph → Option (List ℕ)) → CollectorGraph → Option (List ℕ)
  sort_graph sort g = elim (sort g) [ none ↦ none | some order ↦ some (reverse order) ]

  unfoldable pub prune_and_repair :
      (CollectorGraph → Option (List ℕ)) → CollectorGraph → Option CollectorGraph
  unfolding sort_graph
  prune_and_repair sort g = elim (sort_graph sort g) [
    | none ↦ none
    | some sorted ↦ elim (prune sorted g) [
      | none ↦ none
      | some (kept, g') ↦ elim (reverse_dependencies g' g'.nodes []) [
        | none ↦ none
        | some incoming ↦ some (repair (reverse kept) g' incoming)
      ]
    ]
  ]

  unfoldable pub collector_update_failed :
      (CollectorGraph → Option (List ℕ)) → ℕ → CollectorGraph → Option CollectorGraph
  collector_update_failed sort n g = prune_and_repair sort (collector_failed n g)
