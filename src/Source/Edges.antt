-- ===== src/Source/Edges.antt =====
-- The view of the graph in graph_gonum.go: its methods From, HasEdgeFromTo and To agree.
use go_bitflow_collector.Prelude.{
  ℕ, ◌≡◌, refl, ◌∙◌, sym, ap, true, some, List, [], ◌∷◌, ◌==◌, ◌&&◌, contains, lookup, arith,
  contains-append,
}
use native.Mathlib.Decide.{ℕ_discrete}
use go_bitflow_collector.Graph.{Collectors, CollectorGraph, resolve}
use go_bitflow_collector.Source.{
  count_dependency, depending_on, resolve_all, from, any_target, has_edge_from_to, to,
}

-- The table of collectors has the nodes of the graph, and the collector of each entry's node.
pub record IsRegistry (g : CollectorGraph) : Type 0 where
  pub own : (d n : ℕ) → lookup d g.collectors ≡ some n → (g.heap n).collector ≡ d
  pub all : (n : ℕ) → contains n g.nodes ≡ true → lookup (g.heap n).collector g.collectors ≡ some n
  pub ids : (n : ℕ) → contains n g.node_ids ≡ contains n g.nodes

contains-count_dependency :
    (env : Collectors) (n target x : ℕ) (ds : List ℕ)
    → contains x (count_dependency env n target ds) ≡ ((n == x) && contains target ds)
unfolding count_dependency contains
contains-count_dependency env n target x [] = ground arith
contains-count_dependency env n target x (d ∷ ds) =
    ground (arith, contains-count_dependency env n target x ds)

module _ (env : Collectors) where
  contains-depending_on :
      (g : CollectorGraph) (target x : ℕ) (ns : List ℕ)
      → contains x (depending_on env g target ns)
        ≡ (contains x ns && contains target (env.depends (g.heap x).collector))
  unfolding depending_on contains
  contains-depending_on g target x [] = refl
  contains-depending_on g target x (n ∷ ns) =
      let here =
        contains-append x (count_dependency env n target (env.depends (g.heap n).collector))
          (depending_on env g target ns) in
      let first = contains-count_dependency env n target x (env.depends (g.heap n).collector) in
      let rest = contains-depending_on g target x ns in
      elim (ℕ_discrete n x) [
        | yes same ↦ ground (arith, here, first, rest, same)
        | no other ↦ ground (arith, here, first, rest, other)
      ]

  targets_agree :
      (g : CollectorGraph) (y : ℕ) (ds : List ℕ)
      → IsRegistry g
      → contains y g.nodes ≡ true
      → ((d : ℕ) → contains d ds ≡ true → (m : ℕ) × (lookup d g.collectors ≡ some m))
      → (targets : List ℕ) × (resolve_all env g ds ≡ some targets)
        × (any_target env g y ds ≡ some (contains y targets))
        × (contains y targets ≡ contains (g.heap y).collector ds)
  unfolding resolve_all any_target contains resolve
  targets_agree g y [] r there h = ([], refl, refl, refl)
  targets_agree g y (d ∷ ds) r there h =
      let (n, found) = h d (ground arith) in
      let (targets, e, e', same) =
        targets_agree g y ds r there (λ d' c. h d' (ground (arith, c))) in
      (
        n ∷ targets,
        ground (arith, found, e),
        ground (arith, found, e'),
        elim (ℕ_discrete n y) [
          | yes is_y ↦
              let named : (g.heap y).collector ≡ d = r.own d y (found ∙ ap some is_y) in
              ground (arith, is_y, named)
          | no other ↦ elim (ℕ_discrete d (g.heap y).collector) [
            | yes named ↦
                let both : some n ≡ some y =
                  sym found ∙ ap (λ (k : ℕ). lookup k g.collectors) named ∙ r.all y there in
                let same_node : n ≡ y = cc both in absurd (other same_node)
            | no apart ↦ ground (arith, other, apart, same)
          ]
        ],
      )

  -- Where the table of collectors belongs to the nodes of the graph and the dependencies of `x`
  -- have nodes: From does not panic at `x`, HasEdgeFromTo finds an edge from `x` to the node `y`
  -- exactly if `y` is one of the nodes that From gives, and then exactly `x` is one of those that
  -- To gives for `y`.
  pub edges_agree :
      (g : CollectorGraph) (x y : ℕ)
      → IsRegistry g
      → contains x g.nodes ≡ true
      → contains y g.nodes ≡ true
      → ((d : ℕ)
          → contains d (env.depends (g.heap x).collector) ≡ true
          → (m : ℕ) × (lookup d g.collectors ≡ some m))
      → (targets : List ℕ) × (from env g x ≡ some targets)
        × (has_edge_from_to env g x y ≡ some (contains y targets))
        × (contains x (to env g y) ≡ contains y targets)
  unfolding from has_edge_from_to to
  edges_agree g x y r is_x is_y h =
      let (targets, e, e', same) = targets_agree g y (env.depends (g.heap x).collector) r is_y h in
      (
        targets,
        ground (arith, r.ids x, is_x, e),
        ground (arith, r.ids x, r.ids y, is_x, is_y, e'),
        ground (
          arith,
          r.ids y,
          is_y,
          is_x,
          same,
          contains-depending_on g (g.heap y).collector x g.nodes,
        ),
      )
