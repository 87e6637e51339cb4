-- ===== src/Source/Sampled.antt =====
-- What the samples of source.go hold, where the graph is filtered as createFilteredGraph does.
use Prim.Native.String.{String}
use text.Mathlib.Text.{◌==◌ as str_eq}
use text.Mathlib.TextEquality.{eq_iff}
use mathlib.Core.List.{Memᴰ}
use mathlib.Core.List.Memᴰ.{head, tail, append_left, append_right, append_cases}
use go_bitflow_collector.Prelude.{
  zero, suc, ℕ, ◌≡◌, refl, ◌∙◌, sym, ap, true, false, Option, some, List, [], ◌∷◌, map, contains,
  arith, ◌==◌, Bool-cases, Option-cases, inl, inr, get_elem?,
}
use go_bitflow_collector.Graph.{Collectors, CollectorNode, CollectorGraph}
use go_bitflow_collector.Graph.Init.{built}
use go_bitflow_collector.Graph.Invariant.{IsWellFormed}
use go_bitflow_collector.Graph.Correct.{IsSortable}
use go_bitflow_collector.Node.{Regex}
use go_bitflow_collector.Node.Filters.{contains_name, Passes}
use go_bitflow_collector.Metrics.{Metric, construct_sample, update_all}
use go_bitflow_collector.Metrics.Sample.{construct_sample-update_all}
use go_bitflow_collector.Source.{
  is_named, node_string, create_graph, create_filtered_graph, apply_update_frequencies,
}
use go_bitflow_collector.Source.Collect.{metric_names, metrics_of, get_metrics, collect, collecting}
use go_bitflow_collector.Source.Filtered.{IsFiltered, selected, filter_graph_correct}

-- What sort.Sort promises: the elements of the slice stay the same.
pub record IsSorting (sort : List Metric → List Metric) : Type 0 where
  pub only : (s : List Metric) (metric : Metric) → Memᴰ metric (sort s) → Memᴰ metric s
  pub all : (s : List Metric) (metric : Metric) → Memᴰ metric s → Memᴰ metric (sort s)

contains_name-member :
    (metric : Metric) (s : List Metric)
    → Memᴰ metric s
    → contains_name metric.name (map (λ (m : Metric). m.name) s) ≡ true
unfolding contains_name
contains_name-member metric [] there = elim there [ ]
contains_name-member metric (m ∷ s) (head e) =
    ground (arith, (eq_iff m.name metric.name).1 (sym (ap (λ (x : Metric). x.name) e)))
contains_name-member metric (m ∷ s) (tail there) =
    ground (arith, contains_name-member metric s there)

member_of_index {ℓ} :
    {B : Type ℓ} (f : Metric → B) (s : List Metric) (i : ℕ) (b : B)
    → get_elem? (map f s) i ≡ some b
    → (metric : Metric) × Memᴰ metric s × (get_elem? s i ≡ some metric) × (f metric ≡ b)
member_of_index f [] i b e = absurd (cc e)
member_of_index f (m ∷ s) zero b e = (m, head refl, refl, cc e)
member_of_index f (m ∷ s) (suc i) b e =
    let (metric, there, at, same) = member_of_index f s i b e in (metric, tail there, at, same)

get_elem?-map {ℓ} :
    {B : Type ℓ} (f : Metric → B) (s : List Metric) (i : ℕ) (metric : Metric)
    → get_elem? s i ≡ some metric
    → get_elem? (map f s) i ≡ some (f metric)
get_elem?-map f [] i metric e = absurd (cc e)
get_elem?-map f (m ∷ s) zero metric e =
    let same : m ≡ metric = cc e in ap (λ (x : Metric). some (f x)) same
get_elem?-map f (m ∷ s) (suc i) metric e = get_elem?-map f s i metric e

IsFiltered-Passes :
    (exclude include : List Regex) (node : CollectorNode) (name : String)
    → IsFiltered exclude include node
    → contains_name name (metric_names node) ≡ true
    → Passes exclude include name
unfolding contains_name
IsFiltered-Passes exclude include node name filtered h = elim (Option-cases node.metrics) [
  | inl e ↦ absurd (ground (arith, e, h))
  | inr (names, e) ↦ filtered names name e (ground (arith, e, h))
]

module _ (reader : ℕ → String → ℕ) where
  -- A metric of the node.
  abbrev pub IsMetricOf : CollectorNode → Metric → Type 0
  IsMetricOf node metric =
      (contains_name metric.name (metric_names node) ≡ true)
      × (metric.reader ≡ reader node.collector metric.name)

  metrics_of-only :
      (c : ℕ) (names : List String) (metric : Metric)
      → Memᴰ metric (metrics_of reader c names)
      → (contains_name metric.name names ≡ true) × (metric.reader ≡ reader c metric.name)
  unfolding metrics_of contains_name
  metrics_of-only c [] metric there = elim there [ ]
  metrics_of-only c (name ∷ names) metric (head e) =
      let same : metric.name ≡ name = ap (λ (x : Metric). x.name) e in
      (
        ground (arith, (eq_iff name metric.name).1 (sym same)),
        ap (λ (x : Metric). x.reader) e ∙ ap (reader c) (sym same),
      )
  metrics_of-only c (name ∷ names) metric (tail there) =
      let (listed, read) = metrics_of-only c names metric there in (ground (arith, listed), read)

  metrics_of-all :
      (c : ℕ) (names : List String) (name : String)
      → contains_name name names ≡ true
      → (metric : Metric) × Memᴰ metric (metrics_of reader c names) × (metric.name ≡ name)
  unfolding metrics_of contains_name
  metrics_of-all c [] name h = absurd (cc h)
  metrics_of-all c (first ∷ names) name h = elim (Bool-cases (str_eq first name)) [
    | inl same ↦ (
      record { name = first; index = 0; reader = reader c first },
      head refl,
      (eq_iff first name).0 same,
    )
    | inr other ↦
        let (metric, there, named) = metrics_of-all c names name (ground (arith, other, h)) in
        (metric, tail there, named)
  ]

  get_metrics-only :
      (g : CollectorGraph) (ns : List ℕ) (metric : Metric)
      → Memᴰ metric (get_metrics reader g ns)
      → (n : ℕ) × (contains n ns ≡ true) × IsMetricOf (g.heap n) metric
  unfolding get_metrics contains
  get_metrics-only g [] metric there = elim there [ ]
  get_metrics-only g (n ∷ ns) metric there =
      elim (append_cases (metrics_of reader (g.heap n).collector (metric_names (g.heap n))) there) [
        | inl here ↦ (
          n,
          ground arith,
          metrics_of-only (g.heap n).collector (metric_names (g.heap n)) metric here,
        )
        | inr later ↦
            let (m, listed, found) = get_metrics-only g ns metric later in
            (m, ground (arith, listed), found)
      ]

  get_metrics-all :
      (g : CollectorGraph) (ns : List ℕ) (n : ℕ) (name : String)
      → contains n ns ≡ true
      → contains_name name (metric_names (g.heap n)) ≡ true
      → (metric : Metric) × Memᴰ metric (get_metrics reader g ns) × (metric.name ≡ name)
  unfolding get_metrics contains
  get_metrics-all g [] n name h named = absurd (cc h)
  get_metrics-all g (m ∷ ns) n name h named =
      let first = metrics_of reader (g.heap m).collector (metric_names (g.heap m)) in
      elim (Bool-cases (m == n)) [
        | inl same ↦
            let is_n : n ≡ m = ground (arith, same) in
            let (metric, there, e) =
              metrics_of-all (g.heap m).collector (metric_names (g.heap m)) name
                (ap (λ (k : ℕ). contains_name name (metric_names (g.heap k))) (sym is_n) ∙ named) in
            (metric, append_left (get_metrics reader g ns) there, e)
        | inr other ↦
            let (metric, there, e) = get_metrics-all g ns n name (ground (arith, other, h)) named in
            (metric, append_right first there, e)
      ]

  -- Where createGraph returns a well formed graph, topo.Sort orders what the filters select of it
  -- and its dependencies have nodes, and sort.Sort keeps the elements of a slice: collect does not
  -- panic, UpdateAll succeeds on the sample that it constructs, each value of the sample is the
  -- reading of a metric that has its field's name, passes the metric filters and belongs to a node
  -- that is left, whose collector is not disabled, and every metric of every node that is left has
  -- a field.
  pub sample_correct {ℓ} :
      {V : Type ℓ} (env : Collectors) (sort : CollectorGraph → Option (List ℕ))
      (exclude include : List Regex) (disabled : List String) (g : CollectorGraph) (order : List ℕ)
      (zero_value : V) (sort_metrics : List Metric → List Metric) (read : ℕ → V)
      (frequencies : List (Regex × ℕ)) (fuel last_id : ℕ) (roots : List ℕ)
      → create_graph env sort disabled fuel last_id roots ≡ some (built g)
      → IsWellFormed g
      → IsSortable env sort (selected env exclude include disabled g) order
      → IsSorting sort_metrics
      → (g' : CollectorGraph) × (values : List V) × (collect env sort reader zero_value sort_metrics
            exclude include disabled frequencies fuel last_id roots
          ≡ some (
              collecting
                (apply_update_frequencies env frequencies g')
                (construct_sample zero_value sort_metrics (get_metrics reader g' g'.nodes))))
        × (let (fields, metrics, sample) =
              construct_sample zero_value sort_metrics (get_metrics reader g' g'.nodes) in
            (update_all read metrics sample ≡ some values)
            × ((i : ℕ) (name : String)
                → get_elem? fields i ≡ some name
                → (n : ℕ) × (contains n g'.nodes ≡ true)
                  × (contains_name name (metric_names (g'.heap n)) ≡ true)
                  × (get_elem? values i ≡ some (read (reader (g'.heap n).collector name)))
                  × Passes exclude include name
                  × (is_named (node_string env g n) disabled ≡ false))
            × ((n : ℕ) (name : String)
                → contains n g'.nodes ≡ true
                → contains_name name (metric_names (g'.heap n)) ≡ true
                → contains_name name fields ≡ true))
  unfolding collect create_filtered_graph
  sample_correct env sort exclude include disabled g order zero_value sort_metrics read frequencies
        fuel last_id roots created v s sorting =
      let (g', e, valid, left) =
        filter_graph_correct env sort exclude include disabled g order v s in
      let metrics = get_metrics reader g' g'.nodes in
      let sorted = sort_metrics metrics in
      let (fields_eq, values_eq) =
        construct_sample-update_all zero_value sort_metrics read metrics in
      (
        g',
        map (λ (metric : Metric). read metric.reader) sorted,
        ground (arith, created, e),
        (
          values_eq,
          λ i name at.
              let (metric, there, here, named) =
                member_of_index (λ (m : Metric). m.name) sorted i name
                  (ap (λ (fields : List String). get_elem? fields i) (sym fields_eq) ∙ at) in
              let (n, listed, found) =
                get_metrics-only g' g'.nodes metric (sorting.only metrics metric there) in
              let has_name : contains_name name (metric_names (g'.heap n)) ≡ true =
                ap (λ (k : String). contains_name k (metric_names (g'.heap n))) (sym named)
                ∙ found.0 in
              let (before, enabled, filtered, closed) = left n listed in
              (
                n,
                listed,
                has_name,
                get_elem?-map (λ (m : Metric). read m.reader) sorted i metric here
                    ∙ ap (λ (r : ℕ). some (read r))
                        (found.1 ∙ ap (reader (g'.heap n).collector) named),
                IsFiltered-Passes exclude include (g'.heap n) name filtered has_name,
                enabled,
              ),
          λ n name listed has.
              let (metric, there, named) = get_metrics-all g' g'.nodes n name listed has in
              ap (contains_name name) fields_eq
              ∙ ap (λ (k : String). contains_name k (map (λ (m : Metric). m.name) sorted))
                  (sym named)
              ∙ contains_name-member metric sorted (sorting.all metrics metric there),
        ),
      )
