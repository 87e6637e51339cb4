-- ===== src/Graph/Order.antt =====
-- The order that topo.Sort promises of the nodes, and what the tests of graph.go say of a node's
-- dependencies. `heap` and `collectors` are the parts of a graph that pruneAndRepair leaves alone.
use mathlib.Core.List.{reverse, reverse-cons}
use mathlib.Core.Path.{subst}
use native.Mathlib.Decide.{ℕ_discrete}
use go_bitflow_collector.Prelude.{
  ℕ, ◌≤◌, ◌≡◌, refl, ◌∙◌, ◌≢◌, sym, true, false, some, List, [], ◌∷◌, ◌++◌, ◌⊎◌, inl, inr, contains,
  lookup, arith, Bool-cases, contains-append,
}
use go_bitflow_collector.Graph.{Collectors, CollectorNode, CollectorGraph}
use go_bitflow_collector.Graph.Prune.{any_outside}

-- Each member of the list stands in the relation to every later one.
abbrev pub Ordered : (ℕ → ℕ → Type 0) → List ℕ → Type 0
Ordered R [] = Unit
Ordered R (x ∷ xs) = ((y : ℕ) → contains y xs ≡ true → R x y) × Ordered R xs

Ordered-concat :
    (R : ℕ → ℕ → Type 0) (xs : List ℕ) (y : ℕ)
    → Ordered R xs
    → ((x : ℕ) → contains x xs ≡ true → R x y)
    → Ordered R (xs ++ y ∷ [])
unfolding contains
Ordered-concat R [] y o h = (λ z e. cc, tt)
Ordered-concat R (x ∷ xs) y o h = (
  λ z e. elim (Bool-cases (contains z xs)) [
    | inl old ↦ o.0 z old
    | inr new ↦
        let same : y ≡ z = ground (arith, contains-append z xs (y ∷ [])) in
        subst (R x) same (h x (ground arith))
  ],
  Ordered-concat R xs y o.1 (λ x' e. h x' (ground (arith, e))),
)

pub contains-reverse : (x : ℕ) (xs : List ℕ) → contains x (reverse xs) ≡ contains x xs
unfolding contains
contains-reverse x [] = refl
contains-reverse x (y ∷ xs) =
    rw (reverse-cons y xs)
      (ground (arith, contains-append x (reverse xs) (y ∷ []), contains-reverse x xs))

pub Ordered-reverse :
    (R : ℕ → ℕ → Type 0) (xs : List ℕ) → Ordered R xs → Ordered (λ a b. R b a) (reverse xs)
Ordered-reverse R [] o = tt
Ordered-reverse R (x ∷ xs) o = rw (reverse-cons x xs) (
    Ordered-concat (λ a b. R b a) (reverse xs) x (Ordered-reverse R xs o.1)
      (λ y e. o.0 y (sym (contains-reverse y xs) ∙ e)))

module _ (env : Collectors) (heap : ℕ → CollectorNode) (collectors : List (ℕ × ℕ)) where
  -- The graph has this heap and these collectors.
  pub record IsWired (g : CollectorGraph) : Type 0 where
    pub same_heap : g.heap ≡ heap
    pub same_collectors : g.collectors ≡ collectors

  abbrev pub dependencies : ℕ → List ℕ
  dependencies n = env.depends (heap n).collector

  -- An edge of the graph: the collector of `n` depends on the collector of `m`.
  abbrev pub DependsOn : ℕ → ℕ → Type 0
  DependsOn n m = (d : ℕ) × (contains d (dependencies n) ≡ true) × (lookup d collectors ≡ some m)

  -- Every dependency of the node has a node.
  abbrev pub Resolves : ℕ → Type 0
  Resolves n =
      (d : ℕ) → contains d (dependencies n) ≡ true → (m : ℕ) × (lookup d collectors ≡ some m)

  -- A node that stands before another one is another node, and does not depend on it.
  abbrev pub Precedes : ℕ → ℕ → Type 0
  Precedes n m = (n ≢ m) × (¬ DependsOn n m)

  -- What topo.Sort promises of its order, read from its end: every node stands in it, once, behind
  -- all that it depends on; and it lists only nodes that were made.
  pub record IsTopological (nodes sorted : List ℕ) (last_id : ℕ) : Type 0 where
    pub complete : (n : ℕ) → contains n nodes ≡ true → contains n sorted ≡ true
    pub ordered : Ordered Precedes sorted
    pub acyclic : (n : ℕ) → contains n sorted ≡ true → ¬ DependsOn n n
    pub made : (n : ℕ) → contains n sorted ≡ true → n ≤ last_id

  -- What the test of dependsOnFailedOrFiltered says of a list of dependencies.
  pub any_outside_lem :
      (g : CollectorGraph) (ds : List ℕ)
      → IsWired g
      → ((d : ℕ) → contains d ds ≡ true → (m : ℕ) × (lookup d collectors ≡ some m))
      → (any_outside g ds ≡ some true)
          × ((d m : ℕ) × (contains d ds ≡ true)
              × (lookup d collectors ≡ some m)
              × (contains m g.nodes ≡ false))
        ⊎ (any_outside g ds ≡ some false)
          × ((d m : ℕ)
              → contains d ds ≡ true
              → lookup d collectors ≡ some m
              → contains m g.nodes ≡ true)
  unfolding any_outside contains
  any_outside_lem g [] w h = inr (refl, λ d m c e. cc)
  any_outside_lem g (d ∷ ds) w h =
      let (m, e) = h d (ground arith) in
      let found : lookup d g.collectors ≡ some m = rw w.same_collectors e in
      elim (Bool-cases (contains m g.nodes)) [
        | inr outside ↦ inl (ground (arith, found, outside), (d, m, ground arith, e, outside))
        | inl inside ↦ elim (any_outside_lem g ds w (λ d' c. h d' (ground (arith, c)))) [
          | inl (p, q) ↦
              let (d', m', c, e', outside) = q in
              inl (ground (arith, found, inside, p), (d', m', ground (arith, c), e', outside))
          | inr (p, q) ↦ inr (
            ground (arith, found, inside, p),
            λ d' m' c e'. elim (ℕ_discrete d d') [
              | yes same ↦ ground (arith, same, e, e', inside)
              | no other ↦ q d' m' (ground (arith, c)) e'
            ],
          )
        ]
      ]
