-- ===== src/Graph/Pruned.antt =====
-- The first loop of pruneAndRepair (graph.go): deleting the nodes whose dependencies are gone.
use native.Mathlib.Decide.{ℕ_discrete}
use go_bitflow_collector.Prelude.{
  ℕ, ◌≡◌, refl, ◌∙◌, ap, true, false, some, List, [], ◌∷◌, ◌==◌, inl, inr, if◌then◌else◌, contains,
  arith, Bool-cases, contains-delete,
}
use go_bitflow_collector.Graph.{Collectors, CollectorNode, CollectorGraph, delete_collector}
use go_bitflow_collector.Graph.Prune.{any_outside, depends_on_failed_or_filtered, prune}
use go_bitflow_collector.Graph.Invariant.{IsWellFormed, delete_collector-IsWellFormed}
use go_bitflow_collector.Graph.Order.{
  Ordered, IsWired, dependencies, DependsOn, Resolves, Precedes, any_outside_lem,
}

module _ (env : Collectors) (heap : ℕ → CollectorNode) (collectors : List (ℕ × ℕ)) where
  -- What the first loop has done.
  pub record Pruned (sorted kept : List ℕ) (g g' : CollectorGraph) : Type 0 where
    pub wired : IsWired env heap collectors g'
    pub valid : IsWellFormed g → IsWellFormed g'
    pub same_last_id : g'.last_id ≡ g.last_id
    pub outside : (n : ℕ) → contains n sorted ≡ false → contains n g'.nodes ≡ contains n g.nodes
    pub subset : (n : ℕ) → contains n g'.nodes ≡ true → contains n g.nodes ≡ true
    pub closed :
        (n m : ℕ)
        → contains n sorted ≡ true
        → contains n g'.nodes ≡ true
        → DependsOn env heap collectors n m
        → contains m g'.nodes ≡ true
    pub exact :
        (n : ℕ)
        → contains n sorted ≡ true
        → contains n g.nodes ≡ true
        → ((m : ℕ) → DependsOn env heap collectors n m → contains m g'.nodes ≡ true)
        → contains n g'.nodes ≡ true
    pub listed :
        (n : ℕ) → contains n sorted ≡ true → contains n g'.nodes ≡ true → contains n kept ≡ true
    pub from_sorted : (n : ℕ) → contains n kept ≡ true → contains n sorted ≡ true
    pub ordered :
        Ordered (Precedes env heap collectors) sorted → Ordered (Precedes env heap collectors) kept

  depends-eq :
      (g : CollectorGraph) (n : ℕ)
      → IsWired env heap collectors g
      → depends_on_failed_or_filtered env g n ≡ any_outside g (dependencies env heap collectors n)
  unfolding depends_on_failed_or_filtered
  depends-eq g n w =
      ap (λ (t : ℕ → CollectorNode). any_outside g (env.depends (t n).collector)) w.same_heap

  nodes-delete_collector :
      (n m : ℕ) (g : CollectorGraph)
      → contains m (delete_collector n g).nodes ≡ (if n == m then false else contains m g.nodes)
  unfolding delete_collector
  nodes-delete_collector n m g = contains-delete m n g.nodes

  delete_collector-IsWired :
      (n : ℕ) (g : CollectorGraph)
      → IsWired env heap collectors g
      → IsWired env heap collectors (delete_collector n g)
  unfolding delete_collector
  delete_collector-IsWired n g w = record {
    same_heap = w.same_heap;
    same_collectors = w.same_collectors;
  }

  last_id-delete_collector :
      (n : ℕ) (g : CollectorGraph) → (delete_collector n g).last_id ≡ g.last_id
  unfolding delete_collector
  last_id-delete_collector n g = refl

  -- A node that is kept, and the rest of the loop.
  Pruned-keep :
      (n : ℕ) (sorted kept : List ℕ) (g g' : CollectorGraph)
      → Ordered (Precedes env heap collectors) (n ∷ sorted)
      → ((m : ℕ) → DependsOn env heap collectors n m → contains m g.nodes ≡ true)
      → ¬ DependsOn env heap collectors n n
      → Pruned sorted kept g g'
      → Pruned (n ∷ sorted) (n ∷ kept) g g'
  unfolding contains
  Pruned-keep n sorted kept g g' o inside acyclic p =
      let apart : contains n sorted ≡ false = elim (Bool-cases (contains n sorted)) [
        | inl c ↦ absurd ((o.0 n c).0 refl)
        | inr c ↦ c
      ] in
      let safe : (m : ℕ) → DependsOn env heap collectors n m → contains m g'.nodes ≡ true = λ m d.
        elim (Bool-cases (contains m sorted)) [
          | inl c ↦ absurd ((o.0 m c).1 d)
          | inr c ↦ p.outside m c ∙ inside m d
        ] in
      record {
        wired = p.wired;
        valid = p.valid;
        same_last_id = p.same_last_id;
        outside = λ m c. p.outside m (ground (arith, c));
        subset = p.subset;
        closed = λ a m c in_nodes d. elim (ℕ_discrete n a) [
          | yes e ↦ safe m (rw e d)
          | no e ↦ p.closed a m (ground (arith, c)) in_nodes d
        ];
        exact = λ a c before all. elim (ℕ_discrete n a) [
          | yes e ↦ rw (← e) (p.outside n apart ∙ rw e before)
          | no e ↦ p.exact a (ground (arith, c)) before all
        ];
        listed = λ a c in_nodes. ground (arith, p.listed a, c);
        from_sorted = λ a c. ground (arith, p.from_sorted a, c);
        ordered = λ _. (λ y c. o.0 y (p.from_sorted y c), p.ordered o.1);
      }

  -- A node that is deleted, and the rest of the loop.
  Pruned-delete :
      (n : ℕ) (sorted kept : List ℕ) (g g' : CollectorGraph)
      → Ordered (Precedes env heap collectors) (n ∷ sorted)
      → ((m : ℕ) × DependsOn env heap collectors n m × (contains m g.nodes ≡ false))
      → Pruned sorted kept (delete_collector n g) g'
      → Pruned (n ∷ sorted) kept g g'
  unfolding contains
  Pruned-delete n sorted kept g g' o gone p =
      let apart : contains n sorted ≡ false = elim (Bool-cases (contains n sorted)) [
        | inl c ↦ absurd ((o.0 n c).0 refl)
        | inr c ↦ c
      ] in
      let after = λ (m : ℕ). nodes-delete_collector n m g in
      let removed : contains n g'.nodes ≡ false = p.outside n apart ∙ ground (arith, after n) in
      record {
        wired = p.wired;
        valid = λ v. p.valid (delete_collector-IsWellFormed n g v);
        same_last_id = p.same_last_id ∙ last_id-delete_collector n g;
        outside = λ m c. p.outside m (ground (arith, c)) ∙ ground (arith, after m, c);
        subset = λ m c. ground (arith, p.subset m c, after m);
        closed = λ a m c in_nodes d. elim (ℕ_discrete n a) [
          | yes e ↦ cc (removed, e, in_nodes)
          | no e ↦ p.closed a m (ground (arith, c)) in_nodes d
        ];
        exact = λ a c before all. elim (ℕ_discrete n a) [
          | yes e ↦
              let back = all gone.0 (rw (← e) gone.1) in
              absurd (ground (arith, p.subset gone.0 back, after gone.0, gone.2))
          | no e ↦ p.exact a (ground (arith, c)) (ground (arith, after a, before)) all
        ];
        listed = λ a c in_nodes. elim (ℕ_discrete n a) [
          | yes e ↦ cc (removed, e, in_nodes)
          | no e ↦ p.listed a (ground (arith, c)) in_nodes
        ];
        from_sorted = λ a c. ground (arith, p.from_sorted a c);
        ordered = λ _. p.ordered o.1;
      }

  -- The first loop, over nodes in topological order whose dependencies all have nodes.
  pub prune_lem :
      (sorted : List ℕ) (g : CollectorGraph)
      → IsWired env heap collectors g
      → Ordered (Precedes env heap collectors) sorted
      → ((n : ℕ) → contains n sorted ≡ true → ¬ DependsOn env heap collectors n n)
      → ((n : ℕ) → contains n sorted ≡ true → Resolves env heap collectors n)
      → (kept : List ℕ) × (g' : CollectorGraph) × (prune env sorted g ≡ some (kept, g'))
        × Pruned sorted kept g g'
  unfolding prune contains
  prune_lem [] g w o acyclic h = (
    [],
    g,
    refl,
    record {
      wired = w;
      valid = λ v. v;
      same_last_id = refl;
      outside = λ n c. refl;
      subset = λ n c. c;
      closed = λ n m c in_nodes d. cc;
      exact = λ n c before all. before;
      listed = λ n c in_nodes. cc;
      from_sorted = λ n c. cc;
      ordered = λ x. x;
    },
  )
  prune_lem (n ∷ sorted) g w o acyclic h =
      let later = λ (m : ℕ) (c : contains m sorted ≡ true). h m (ground (arith, c)) in
      let test = depends-eq g n w in
      let apart = λ (m : ℕ) (c : contains m sorted ≡ true). acyclic m (ground (arith, c)) in
      elim (any_outside_lem env heap collectors g (dependencies env heap collectors n) w
        (h n (ground arith))) [
          | inl (out, (d, m, c, e, gone)) ↦
              let (kept, g', run, p) =
                prune_lem sorted (delete_collector n g) (delete_collector-IsWired n g w) o.1 apart
                  later in
              (
                kept,
                g',
                ground (arith, test, out, run),
                Pruned-delete n sorted kept g g' o (m, (d, c, e), gone) p,
              )
          | inr (inside, all) ↦
              let (kept, g', run, p) = prune_lem sorted g w o.1 apart later in
              (
                n ∷ kept,
                g',
                ground (arith, test, inside, run),
                Pruned-keep n sorted kept g g' o (λ m (d, c, e). all d m c e)
                    (acyclic n (ground arith)) p,
              )
        ]
