-- ===== src/Source/Filtered.antt =====
-- What the filters of source.go leave of the graph.
use Prim.Native.String.{String}
use mathlib.Core.Path.{subst}
use go_bitflow_collector.Prelude.{
  lookup, ℕ, ◌≡◌, refl, ◌∙◌, sym, ap, true, false, Option, none, some, List, [], ◌∷◌, contains,
  arith, if◌then◌else◌, ◌==◌, Bool-cases, inl, inr, contains-delete,
}
use go_bitflow_collector.Graph.{
  Collectors, CollectorNode, CollectorGraph, update_node, delete_collector,
}
use go_bitflow_collector.Graph.Invariant.{
  IsWellFormed, update_node-IsWellFormed, delete_collector-IsWellFormed,
}
use go_bitflow_collector.Graph.Correct.{IsSortable, Depends, prune_and_repair_correct}
use go_bitflow_collector.Node
use go_bitflow_collector.Node.{Regex, get_filtered_metrics}
use go_bitflow_collector.Node.Filters.{contains_name, Passes, get_filtered_metrics_iff}
use go_bitflow_collector.Source.{
  apply_metric_filters, apply_collector_filters, is_named, node_string, filter_graph,
}

-- Each metric of the node passes the filters.
abbrev pub IsFiltered : List Regex → List Regex → CollectorNode → Type 0
IsFiltered exclude include node =
    (names : List String) (name : String)
    → node.metrics ≡ some names
    → contains_name name names ≡ true
    → Passes exclude include name

filter_names :
    (exclude include : List Regex) (metrics : Option (List String)) (names : List String)
    (name : String)
    → (elim metrics [ none ↦ none | some old ↦ some (get_filtered_metrics exclude include old) ])
      ≡ some names
    → contains_name name names ≡ true
    → Passes exclude include name
filter_names exclude include none names name e c = absurd (cc e)
filter_names exclude include (some old) names name e c =
    let same : get_filtered_metrics exclude include old ≡ names = cc e in
    ((get_filtered_metrics_iff exclude include old name).0 (ap (contains_name name) same ∙ c)).1

filters-IsFiltered :
    (exclude include : List Regex) (node : CollectorNode)
    → IsFiltered exclude include (Node.apply_metric_filters exclude include node)
unfolding Node.apply_metric_filters
filters-IsFiltered exclude include node names name e c =
    filter_names exclude include node.metrics names name e c

-- What stays the same when the filters run over the metrics of the nodes `ns`.
record SameGraph (g g' : CollectorGraph) : Type 0 where
  same_nodes : g'.nodes ≡ g.nodes
  same_collectors : g'.collectors ≡ g.collectors
  same_collector : (n : ℕ) → (g'.heap n).collector ≡ (g.heap n).collector
  valid : IsWellFormed g → IsWellFormed g'

apply_metric_filters-SameGraph :
    (exclude include : List Regex) (ns : List ℕ) (g : CollectorGraph)
    → SameGraph g (apply_metric_filters exclude include ns g)
unfolding apply_metric_filters update_node Node.apply_metric_filters
apply_metric_filters-SameGraph exclude include [] g = record {
  same_nodes = refl;
  same_collectors = refl;
  same_collector = λ n. refl;
  valid = λ v. v;
}
apply_metric_filters-SameGraph exclude include (m ∷ ns) g =
    let g1 = update_node m (Node.apply_metric_filters exclude include) g in
    let rest = apply_metric_filters-SameGraph exclude include ns g1 in
    record {
      same_nodes = rest.same_nodes;
      same_collectors = rest.same_collectors;
      same_collector = λ n. rest.same_collector n ∙ ground arith;
      valid = λ v.
          rest.valid (update_node-IsWellFormed m (Node.apply_metric_filters exclude include) g v);
    }

update_node-IsFiltered :
    (exclude include : List Regex) (m n : ℕ) (g : CollectorGraph)
    → IsFiltered exclude include (g.heap n)
    → IsFiltered exclude include
        ((update_node m (Node.apply_metric_filters exclude include) g).heap n)
unfolding update_node
update_node-IsFiltered exclude include m n g h = elim (Bool-cases (n == m)) [
  | inl same ↦ rw same (filters-IsFiltered exclude include (g.heap n))
  | inr other ↦ rw other h
]

keep-IsFiltered :
    (exclude include : List Regex) (ns : List ℕ) (n : ℕ) (g : CollectorGraph)
    → IsFiltered exclude include (g.heap n)
    → IsFiltered exclude include ((apply_metric_filters exclude include ns g).heap n)
unfolding apply_metric_filters
keep-IsFiltered exclude include [] n g h = h
keep-IsFiltered exclude include (m ∷ ns) n g h =
    keep-IsFiltered exclude include ns n
      (update_node m (Node.apply_metric_filters exclude include) g)
      (update_node-IsFiltered exclude include m n g h)

apply_metric_filters-IsFiltered :
    (exclude include : List Regex) (ns : List ℕ) (n : ℕ) (g : CollectorGraph)
    → contains n ns ≡ true
    → IsFiltered exclude include ((apply_metric_filters exclude include ns g).heap n)
unfolding apply_metric_filters update_node contains
apply_metric_filters-IsFiltered exclude include [] n g c = absurd (cc c)
apply_metric_filters-IsFiltered exclude include (m ∷ ns) n g c =
    let filter = Node.apply_metric_filters exclude include in
    elim (Bool-cases (n == m)) [
      | inl same ↦
          keep-IsFiltered exclude include ns n (update_node m filter g)
            (rw same (filters-IsFiltered exclude include (g.heap n)))
      | inr other ↦
          apply_metric_filters-IsFiltered exclude include ns n (update_node m filter g)
            (ground (arith, other, c))
    ]

module _ (env : Collectors) where
  -- What is left by applyCollectorFilters over the nodes `ns`.
  record Selected (disabled : List String) (ns : List ℕ) (g g' : CollectorGraph) : Type 0 where
    same_heap : g'.heap ≡ g.heap
    same_collectors : g'.collectors ≡ g.collectors
    subset : (n : ℕ) → contains n g'.nodes ≡ true → contains n g.nodes ≡ true
    enabled :
        (n : ℕ)
        → contains n ns ≡ true
        → contains n g'.nodes ≡ true
        → is_named (node_string env g n) disabled ≡ false
    valid : IsWellFormed g → IsWellFormed g'

  delete-Selected :
      (disabled : List String) (n : ℕ) (g : CollectorGraph)
      → let g' = if is_named (node_string env g n) disabled then delete_collector n g else g in
        Selected disabled (n ∷ []) g g'
  unfolding delete_collector contains
  delete-Selected disabled n g = elim (Bool-cases (is_named (node_string env g n) disabled)) [
    | inl named ↦ rw named (record {
      same_heap = refl;
      same_collectors = refl;
      subset = λ m c. ground (arith, c, contains-delete m n g.nodes);
      enabled = λ m c d. absurd (ground (arith, c, d, contains-delete m n g.nodes));
      valid = delete_collector-IsWellFormed n g;
    })
    | inr other ↦ rw other (record {
      same_heap = refl;
      same_collectors = refl;
      subset = λ m c. c;
      enabled = λ m c d. ground (arith, c, other);
      valid = λ v. v;
    })
  ]

  apply_collector_filters-Selected :
      (disabled : List String) (ns : List ℕ) (g : CollectorGraph)
      → Selected disabled ns g (apply_collector_filters env disabled ns g)
  unfolding apply_collector_filters contains
  apply_collector_filters-Selected disabled [] g = record {
    same_heap = refl;
    same_collectors = refl;
    subset = λ m c. c;
    enabled = λ m c d. absurd (cc c);
    valid = λ v. v;
  }
  apply_collector_filters-Selected disabled (n ∷ ns) g =
      let first = delete-Selected disabled n g in
      let g1 = if is_named (node_string env g n) disabled then delete_collector n g else g in
      let rest = apply_collector_filters-Selected disabled ns g1 in
      let same_name : (m : ℕ) → node_string env g1 m ≡ node_string env g m =
        λ m. ap (λ (heap : ℕ → CollectorNode). env.string (heap m).collector) first.same_heap in
      record {
        same_heap = rest.same_heap ∙ first.same_heap;
        same_collectors = rest.same_collectors ∙ first.same_collectors;
        subset = λ m c. first.subset m (rest.subset m c);
        enabled = λ m c d. elim (Bool-cases (m == n)) [
          | inl same ↦ first.enabled m (ground (arith, same)) (rest.subset m d)
          | inr other ↦
              ap (λ (name : String). is_named name disabled) (sym (same_name m))
              ∙ rest.enabled m (ground (arith, other, c)) d
        ];
        valid = λ v. rest.valid (first.valid v);
      }

  -- The graph after both filters, before it is pruned.
  abbrev pub selected : List Regex → List Regex → List String → CollectorGraph → CollectorGraph
  selected exclude include disabled g =
      let g1 = apply_metric_filters exclude include g.nodes g in
      apply_collector_filters env disabled g1.nodes g1

  -- The filters of createFilteredGraph do not panic on a well formed graph, where topo.Sort orders
  -- what they select and its dependencies have nodes. Every node that is left was a node before,
  -- its collector is not disabled, each of its metrics passes the metric filters, and each node on
  -- which it depends is left; the graph is well formed.
  pub filter_graph_correct :
      (sort : CollectorGraph → Option (List ℕ)) (exclude include : List Regex)
      → (disabled : List String) (g : CollectorGraph) (order : List ℕ) → IsWellFormed g
      → IsSortable env sort (selected exclude include disabled g) order
      → (g' : CollectorGraph) × (filter_graph env sort exclude include disabled g ≡ some g')
        × IsWellFormed g'
        × ((n : ℕ)
            → contains n g'.nodes ≡ true
            → (contains n g.nodes ≡ true)
              × (is_named (node_string env g n) disabled ≡ false)
              × IsFiltered exclude include (g'.heap n)
              × ((m : ℕ) → Depends env g n m → contains m g'.nodes ≡ true))
  unfolding filter_graph
  filter_graph_correct sort exclude include disabled g order v s =
      let g1 = apply_metric_filters exclude include g.nodes g in
      let kept = apply_metric_filters-SameGraph exclude include g.nodes g in
      let chosen = apply_collector_filters-Selected disabled g1.nodes g1 in
      let (pruned, g', e, r) =
        prune_and_repair_correct env sort (selected exclude include disabled g) order
          (chosen.valid (kept.valid v)) s in
      let before : (n : ℕ) → contains n g'.nodes ≡ true → contains n g1.nodes ≡ true =
        λ n c. chosen.subset n ((r.pruned_iff n).0 ((r.left_iff n).0 c).0).0 in
      let here : (n : ℕ) → contains n g'.nodes ≡ true → contains n g.nodes ≡ true =
        λ n c. ap (contains n) (sym kept.same_nodes) ∙ before n c in
      (
        g',
        e,
        r.valid,
        λ n c. (
          here n c,
          ap (λ (collector : ℕ). is_named (env.string collector) disabled)
                (sym (kept.same_collector n))
              ∙ chosen.enabled n (before n c) ((r.pruned_iff n).0 ((r.left_iff n).0 c).0).0,
          subst (IsFiltered exclude include)
              (ap (λ (heap : ℕ → CollectorNode). heap n) (sym (r.same_heap ∙ chosen.same_heap)))
              (apply_metric_filters-IsFiltered exclude include g.nodes n g (here n c)),
          λ m (d, listed, found). r.closed n m c (
            d,
            ap (λ (collector : ℕ). contains d (env.depends collector))
                  (ap (λ (heap : ℕ → CollectorNode). (heap n).collector) chosen.same_heap
                    ∙ kept.same_collector n)
                ∙ listed,
            ap (lookup d) (chosen.same_collectors ∙ kept.same_collectors) ∙ found,
          ),
        ),
      )
