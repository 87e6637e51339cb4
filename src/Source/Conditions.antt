-- ===== src/Source/Conditions.antt =====
-- startUpdates of source.go and the first half of loopUpdate in graph_node.go: the conditions by
-- which the goroutines of the nodes wait for one another. A *golib.BoolCondition is the number of
-- its creation.
use go_bitflow_collector.Prelude.{
  ℕ, suc, Option, none, some, List, [], ◌∷◌, ◌++◌, ◌==◌, if◌then◌else◌,
}
use go_bitflow_collector.Graph.{Collectors, CollectorGraph, resolve}
use go_bitflow_collector.Source.{get_roots_and_leafs}

-- How many conditions were made, and the preconditions and postconditions of every node.
pub record Conditions : Type 0 where
  pub made : ℕ
  pub preconditions : ℕ → List ℕ
  pub postconditions : ℕ → List ℕ

-- What a graph starts with: newCollectorNode gives a node no conditions.
abbrev pub no_conditions : Conditions
no_conditions = record { made = 0; preconditions = λ _. []; postconditions = λ _. [] }

-- NewBoolCondition gives the condition `s.made`, which goes to the preconditions of `n`.
unfoldable pub add_precondition : ℕ → Conditions → Conditions
add_precondition n s = record s {
  made = suc s.made;
  preconditions = λ k. if k == n then s.preconditions k ++ s.made ∷ [] else s.preconditions k;
}

unfoldable pub add_postcondition : ℕ → Conditions → Conditions
add_postcondition n s = record s {
  made = suc s.made;
  postconditions = λ k. if k == n then s.postconditions k ++ s.made ∷ [] else s.postconditions k;
}

-- The new condition goes to the preconditions of `n` and to the postconditions of `m`.
unfoldable pub add_both : ℕ → ℕ → Conditions → Conditions
add_both n m s = record s {
  made = suc s.made;
  preconditions = λ k. if k == n then s.preconditions k ++ s.made ∷ [] else s.preconditions k;
  postconditions = λ k. if k == m then s.postconditions k ++ s.made ∷ [] else s.postconditions k;
}

-- The loop over the roots: the root conditions.
unfoldable pub add_roots : List ℕ → Conditions → List ℕ × Conditions
unfolding add_precondition
add_roots [] s = ([], s)
add_roots (root ∷ roots) s =
    let (conditions, s') = add_roots roots (add_precondition root s) in (s.made ∷ conditions, s')

-- The loop over the leafs: the leaf conditions.
unfoldable pub add_leafs : List ℕ → Conditions → List ℕ × Conditions
unfolding add_postcondition
add_leafs [] s = ([], s)
add_leafs (leaf ∷ leafs) s =
    let (conditions, s') = add_leafs leafs (add_postcondition leaf s) in (s.made ∷ conditions, s')

-- The loop of loopUpdate over the dependencies of `n`; none is the panic of a dependency that has
-- no node.
unfoldable pub connect : CollectorGraph → ℕ → List ℕ → Conditions → Option Conditions
unfolding resolve add_both
connect g n [] s = some s
connect g n (d ∷ ds) s = elim (resolve g d) [
  | none ↦ none
  | some depends ↦ connect g n ds (add_both n depends s)
]

module _ (env : Collectors) where
  -- loopUpdate of every node, up to the start of its goroutine.
  unfoldable pub connect_all : CollectorGraph → List ℕ → Conditions → Option Conditions
  unfolding connect
  connect_all g [] s = some s
  connect_all g (n ∷ ns) s = elim (connect g n (env.depends (g.heap n).collector) s) [
    | none ↦ none
    | some s' ↦ connect_all g ns s'
  ]

  -- startUpdates, before it sets the root conditions for the first time: the root conditions, the
  -- leaf conditions for which it then waits, and the conditions of the nodes.
  unfoldable pub start_updates : CollectorGraph → Option (List ℕ × List ℕ × Conditions)
  unfolding add_roots add_leafs connect_all
  start_updates g = elim (get_roots_and_leafs env g) [
    | none ↦ none
    | some (roots, leafs) ↦
        let (root_conditions, s1) = add_roots roots no_conditions in
        let (leaf_conditions, s2) = add_leafs leafs s1 in
        elim (connect_all g g.nodes s2) [
          | none ↦ none
          | some s ↦ some (root_conditions, leaf_conditions, s)
        ]
  ]
