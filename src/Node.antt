-- ===== src/Node.antt =====
-- graph_node.go: the metric filters of a node, and its updates.
pub mod Filters
pub mod Updates
pub mod Schedule
pub mod Progress
use Prim.Native.String.{String}
use go_bitflow_collector.Prelude.{
  ℕ, suc, ◌+◌, Bool, true, false, Option, none, some, List, [], ◌∷◌, if◌then◌else◌, ◌&&◌, length,
  leb, ltb, not, contains, ℤ, pos, ◌-ℤ◌, ltb_ℤ, ◌==◌,
}
use go_bitflow_collector.Graph.{Collectors, CollectorNode, CollectorGraph, update_node}
use go_bitflow_collector.Graph.Prune.{collector_update_failed}

-- regexp.MatchString of a compiled expression.
abbrev pub Regex : Type 0
Regex = String → Bool

-- The loop over `exclude`: its value of `excluded`.
unfoldable pub excluded_by : List Regex → String → Bool
excluded_by [] metric = false
excluded_by (regex ∷ exclude) metric =
    let rest = excluded_by exclude metric in if regex metric then true else rest

-- The loop over `include`, with the value that `excluded` had before.
unfoldable pub not_included : List Regex → String → Bool → Bool
not_included [] metric excluded = excluded
not_included (regex ∷ include) metric excluded =
    let rest = not_included include metric true in if not (not (regex metric)) then false else rest

unfoldable pub is_excluded : List Regex → List Regex → String → Bool
unfolding excluded_by not_included
is_excluded exclude include metric =
    let excluded = excluded_by exclude metric in
    if not excluded && ltb 0 (length include) then not_included include metric true else excluded

-- getFilteredMetrics, over the names of the node's metrics.
unfoldable pub get_filtered_metrics : List Regex → List Regex → List String → List String
unfolding is_excluded
get_filtered_metrics exclude include [] = []
get_filtered_metrics exclude include (metric ∷ metrics) =
    let rest = get_filtered_metrics exclude include metrics in
    if not (is_excluded exclude include metric) then metric ∷ rest else rest

-- collectorNode.applyMetricFilters deletes the metrics that are not in the filtered set.
unfoldable pub apply_metric_filters : List Regex → List Regex → CollectorNode → CollectorNode
unfolding get_filtered_metrics
apply_metric_filters exclude include node = record node {
  metrics = elim node.metrics [
    | none ↦ none
    | some names ↦ some (get_filtered_metrics exclude include names)
  ];
}

-- What Update() of a collector returns.
pub data Outcome : Type 0 where
  no_error metrics_changed error : Outcome

-- The graph, and whether the stopper is stopped.
pub record UpdateState : Type 0 where
  pub graph : CollectorGraph
  pub stopped : Bool

abbrev pub tolerated_update_failures : ℕ
tolerated_update_failures = 2

abbrev pub set_failed_updates : ℕ → ℕ → CollectorGraph → CollectorGraph
set_failed_updates n k g = update_node n (λ node. record node { failed_updates = k }) g

module _ (env : Collectors) (sort : CollectorGraph → Option (List ℕ)) where
  -- updateFailed; `none` is a panic of pruneAndRepair.
  unfoldable pub update_failed : ℕ → UpdateState → Option (Bool × UpdateState)
  update_failed n s =
      let count = suc (s.graph.heap n).failed_updates in
      if leb tolerated_update_failures count
      then elim (collector_update_failed env sort n (set_failed_updates n 0 s.graph)) [
        | none ↦ none
        | some g ↦ some (true, record s { graph = g })
      ]
      else some (false, record s { graph = set_failed_updates n count s.graph })

  -- collectorNode.update, where the collector's Update() returns the outcome: whether to go on.
  unfoldable pub update : ℕ → Outcome → UpdateState → Option (Bool × UpdateState)
  unfolding update_failed
  update n metrics_changed s = some (false, record s { stopped = true })
  update n error s = elim (update_failed n s) [
    | none ↦ none
    | some (failed, s') ↦ some (not failed, s')
  ]
  update n no_error s = some (true, record s { graph = set_failed_updates n 0 s.graph })

  -- The end of updateAndBroadcast, with what update returned, and the time of the last update.
  abbrev pub after_update : ℤ → Option (Bool × UpdateState) → Option (Bool × UpdateState × ℤ)
  after_update last_update none = none
  after_update last_update (some (successful_update, s)) =
      some (if successful_update then not s.stopped else false, s, last_update)

  -- updateAndBroadcast after its waiting: whether to go on, the state, and the time of the last
  -- update. The conditions that it waits for and sets are in Node.Schedule.
  unfoldable pub update_and_broadcast :
      ℕ → Outcome → ℤ → ℤ → UpdateState → Option (Bool × UpdateState × ℤ)
  unfolding update
  update_and_broadcast n outcome now last_update s =
      if s.stopped
      then some (false, s, last_update)
      else if not (contains n s.graph.nodes)
      then some (false, s, last_update)
      else let frequency = (s.graph.heap n).update_frequency in
        let due = not (ltb_ℤ (now -ℤ last_update) (pos frequency)) in
        if ltb 0 frequency
        then (if due
            then after_update now (update n outcome s)
            else after_update last_update (some (true, s)))
        else after_update last_update (update n outcome s)

  -- The loop of loopUpdate, which calls updateAndBroadcast until it says to stop: for each call
  -- what Update() would return, and the time. No other goroutine changes the state between them.
  unfoldable pub update_loop :
      ℕ → List (Outcome × ℤ) → ℤ → UpdateState → Option (Bool × UpdateState × ℤ)
  unfolding update_and_broadcast
  update_loop n [] last_update s = some (true, s, last_update)
  update_loop n ((outcome, now) ∷ calls) last_update s =
      elim (update_and_broadcast n outcome now last_update s) [
        | none ↦ none
        | some (true, s', last_update') ↦ update_loop n calls last_update' s'
        | some (false, s', last_update') ↦ some (false, s', last_update')
      ]
