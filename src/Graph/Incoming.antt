-- ===== src/Graph/Incoming.antt =====
-- reverseDependencies of graph.go: for every node the set of the nodes that depend on it.
use mathlib.Core.Path.{subst}
use native.Mathlib.Decide.{ℕ_discrete}
use go_bitflow_collector.Prelude.{
  ℕ, ◌≡◌, refl, sym, ap, true, false, some, List, [], ◌∷◌, ◌==◌, ◌⊎◌, inl, inr, if◌then◌else◌,
  contains, delete, insert, lookup, put, arith, contains-insert, lookup-put,
}
use go_bitflow_collector.Graph.{Collectors, CollectorNode, CollectorGraph}
use go_bitflow_collector.Graph.Prune.{
  Incoming, incoming_of, add_incoming, drop_incoming, reverse_dependencies,
}
use go_bitflow_collector.Graph.Order.{IsWired, dependencies, DependsOn, Resolves}

-- `n` has been added to the set of `target`.
contains-incoming_of-put :
    (n target m t : ℕ) (incoming : Incoming)
    → contains m (incoming_of t (put target (insert n (incoming_of target incoming)) incoming)) ≡ (
        if target == t
        then (if n == m then true else contains m (incoming_of t incoming))
        else contains m (incoming_of t incoming))
unfolding incoming_of
contains-incoming_of-put n target m t incoming = elim (ℕ_discrete target t) [
  | yes e ↦
      rw (lookup-put t target (insert n (incoming_of target incoming)) incoming, incoming_of)
        (ground (arith, e, contains-insert m n (incoming_of target incoming), incoming_of))
  | no e ↦ ground (arith, lookup-put t target (insert n (incoming_of target incoming)) incoming)
]

pub incoming_of-drop_incoming :
    (n t : ℕ) (incoming : Incoming)
    → incoming_of t (drop_incoming n incoming) ≡ delete n (incoming_of t incoming)
unfolding incoming_of drop_incoming lookup delete
incoming_of-drop_incoming n t [] = refl
incoming_of-drop_incoming n t ((k, set) ∷ incoming) =
    ground (arith, incoming_of-drop_incoming n t incoming)

contains-incoming_of-nil : (m t : ℕ) → contains m (incoming_of t []) ≡ false
unfolding incoming_of contains lookup
contains-incoming_of-nil m t = refl

module _ (env : Collectors) (heap : ℕ → CollectorNode) (collectors : List (ℕ × ℕ)) where
  -- What the loop over the dependencies `ds` of `n` has added.
  record Added (n : ℕ) (ds : List ℕ) (before after : Incoming) : Type 0 where
    sound :
        (m t : ℕ)
        → contains m (incoming_of t after) ≡ true
        → (contains m (incoming_of t before) ≡ true)
          ⊎ ((d : ℕ) × (m ≡ n) × (contains d ds ≡ true) × (lookup d collectors ≡ some t))
    keeps :
        (m t : ℕ)
        → contains m (incoming_of t before) ≡ true
        → contains m (incoming_of t after) ≡ true
    adds :
        (d t : ℕ)
        → contains d ds ≡ true
        → lookup d collectors ≡ some t
        → contains n (incoming_of t after) ≡ true

  add_incoming-Added :
      (g : CollectorGraph) (n : ℕ) (ds : List ℕ) (before : Incoming)
      → IsWired env heap collectors g
      → ((d : ℕ) → contains d ds ≡ true → (m : ℕ) × (lookup d collectors ≡ some m))
      → (after : Incoming) × (add_incoming g n ds before ≡ some after) × Added n ds before after
  unfolding add_incoming contains
  add_incoming-Added g n [] before w h =
      (before, refl, record { sound = λ m t c. inl c; keeps = λ m t c. c; adds = λ d t c e. cc })
  add_incoming-Added g n (d ∷ ds) before w h =
      let (target, e) = h d (ground arith) in
      let found : lookup d g.collectors ≡ some target = rw w.same_collectors e in
      let next = put target (insert n (incoming_of target before)) before in
      let entry = λ (m t : ℕ). contains-incoming_of-put n target m t before in
      let (after, run, a) = add_incoming-Added g n ds next w (λ d' c. h d' (ground (arith, c))) in
      (
        after,
        ground (arith, found, run),
        record {
          sound = λ m t c. elim (a.sound m t c) [
            | inr (d', q, c', e') ↦ inr (d', q, ground (arith, c'), e')
            | inl old ↦ elim (ℕ_discrete target t) [
              | no other ↦ inl (ground (arith, entry m t, old))
              | yes here ↦ elim (ℕ_discrete n m) [
                | yes same ↦ inr (d, sym same, ground arith, rw (← here) e)
                | no other ↦ inl (ground (arith, entry m t, old))
              ]
            ]
          ];
          keeps = λ m t c. a.keeps m t (ground (arith, entry m t, c));
          adds = λ d' t c e'. elim (ℕ_discrete d d') [
            | yes same ↦ a.keeps n t (ground (arith, entry n t, same, e, e'))
            | no other ↦ a.adds d' t (ground (arith, c)) e'
          ];
        },
      )

  -- The sets hold the dependent nodes among `ns`, beside what they held before.
  record Collected (ns : List ℕ) (before after : Incoming) : Type 0 where
    sound :
        (m t : ℕ)
        → contains m (incoming_of t after) ≡ true
        → (contains m (incoming_of t before) ≡ true)
          ⊎ ((contains m ns ≡ true) × DependsOn env heap collectors m t)
    keeps :
        (m t : ℕ)
        → contains m (incoming_of t before) ≡ true
        → contains m (incoming_of t after) ≡ true
    adds :
        (m t : ℕ)
        → contains m ns ≡ true
        → DependsOn env heap collectors m t
        → contains m (incoming_of t after) ≡ true

  reverse_dependencies-Collected :
      (g : CollectorGraph) (ns : List ℕ) (before : Incoming)
      → IsWired env heap collectors g
      → ((n : ℕ) → contains n ns ≡ true → Resolves env heap collectors n)
      → (after : Incoming) × (reverse_dependencies env g ns before ≡ some after)
        × Collected ns before after
  unfolding reverse_dependencies contains
  reverse_dependencies-Collected g [] before w h =
      (before, refl, record { sound = λ m t c. inl c; keeps = λ m t c. c; adds = λ m t c d. cc })
  reverse_dependencies-Collected g (n ∷ ns) before w h =
      let same : env.depends (g.heap n).collector ≡ dependencies env heap collectors n =
        ap (λ (t : ℕ → CollectorNode). env.depends (t n).collector) w.same_heap in
      let (next, e, a) =
        add_incoming-Added g n (dependencies env heap collectors n) before w (h n (ground arith)) in
      let (after, run, c) =
        reverse_dependencies-Collected g ns next w (λ m q. h m (ground (arith, q))) in
      (
        after,
        ground (arith, same, e, run),
        record {
          sound = λ m t q. elim (c.sound m t q) [
            | inr (listed, d) ↦ inr (ground (arith, listed), d)
            | inl old ↦ elim (a.sound m t old) [
              | inl older ↦ inl older
              | inr (d, is_n, q', e') ↦ inr (ground (arith, is_n), rw is_n (d, q', e'))
            ]
          ];
          keeps = λ m t q. c.keeps m t (a.keeps m t q);
          adds = λ m t q d. elim (ℕ_discrete n m) [
            | yes is_n ↦ c.keeps m t (
                subst (λ k. contains k (incoming_of t next) ≡ true) is_n
                  (let (d', q', e') = rw (← is_n) at d in a.adds d' t q' e'))
            | no other ↦ c.adds m t (ground (arith, q)) d
          ];
        },
      )

  -- The sets of `incoming` hold exactly the nodes of the graph that depend on their key.
  pub record Tracks (g : CollectorGraph) (incoming : Incoming) : Type 0 where
    pub sound :
        (m t : ℕ)
        → contains m (incoming_of t incoming) ≡ true
        → (contains m g.nodes ≡ true) × DependsOn env heap collectors m t
    pub complete :
        (m t : ℕ)
        → contains m g.nodes ≡ true
        → DependsOn env heap collectors m t
        → contains m (incoming_of t incoming) ≡ true

  -- reverseDependencies, where all dependencies have nodes.
  pub reverse_dependencies-Tracks :
      (g : CollectorGraph)
      → IsWired env heap collectors g
      → ((n : ℕ) → contains n g.nodes ≡ true → Resolves env heap collectors n)
      → (incoming : Incoming) × (reverse_dependencies env g g.nodes [] ≡ some incoming)
        × Tracks g incoming
  reverse_dependencies-Tracks g w h =
      let (incoming, e, c) = reverse_dependencies-Collected g g.nodes [] w h in
      (
        incoming,
        e,
        record {
          sound = λ m t q. elim (c.sound m t q) [
            | inl old ↦ cc (contains-incoming_of-nil m t, old)
            | inr new ↦ new
          ];
          complete = c.adds;
        },
      )
