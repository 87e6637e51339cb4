-- ===== src/Graph/Repaired.antt =====
-- The second loop of pruneAndRepair (graph.go): filtering the nodes that nobody needs.
use native.Mathlib.Decide.{ℕ_discrete}
use go_bitflow_collector.Prelude.{
  ℕ, ◌≤◌, ◌≡◌, refl, ◌∙◌, ◌≢◌, ap, true, false, List, [], ◌∷◌, ◌==◌, ◌⊎◌, inl, inr, if◌then◌else◌,
  contains, arith, Bool-cases, contains-delete, contains-insert, List-cases,
}
use go_bitflow_collector.Graph.{Collectors, CollectorNode, CollectorGraph, collector_filtered}
use go_bitflow_collector.Graph.Prune.{
  Incoming, incoming_of, count_metrics, drop_incoming, is_idle, repair,
}
use go_bitflow_collector.Graph.Invariant.{IsWellFormed, collector_filtered-IsWellFormed}
use go_bitflow_collector.Graph.Order.{Ordered, IsWired, DependsOn, Precedes}
use go_bitflow_collector.Graph.Incoming.{Tracks, incoming_of-drop_incoming}

pub nodes-collector_filtered :
    (n m : ℕ) (g : CollectorGraph)
    → IsWellFormed g
    → contains m (collector_filtered n g).nodes ≡ (if n == m then false else contains m g.nodes)
unfolding collector_filtered
nodes-collector_filtered n m g v = ground (arith, v n, v m, contains-delete m n g.nodes)

filtered-collector_filtered :
    (n : ℕ) (g : CollectorGraph)
    → IsWellFormed g
    → contains n g.nodes ≡ true
    → contains n (collector_filtered n g).filtered ≡ true
unfolding collector_filtered
filtered-collector_filtered n g v c = ground (arith, v n, contains-insert n n g.filtered)

filtered_mono :
    (n m : ℕ) (g : CollectorGraph)
    → contains m g.filtered ≡ true
    → contains m (collector_filtered n g).filtered ≡ true
unfolding collector_filtered
filtered_mono n m g c = ground (arith, contains-insert m n g.filtered)

last_id-collector_filtered :
    (n : ℕ) (g : CollectorGraph) → (collector_filtered n g).last_id ≡ g.last_id
unfolding collector_filtered
last_id-collector_filtered n g = ground arith

module _ (env : Collectors) (heap : ℕ → CollectorNode) (collectors : List (ℕ × ℕ)) where
  abbrev DependsOn' : ℕ → ℕ → Type 0
  DependsOn' = DependsOn env heap collectors

  -- Something that is left needs the node: it has metrics, or a node depends on it.
  abbrev pub IsUseful : CollectorGraph → ℕ → Type 0
  IsUseful g n =
      (count_metrics (heap n) ≢ 0)
      ⊎ ((m : ℕ) × (contains m g.nodes ≡ true) × DependsOn env heap collectors m n)

  -- What the second loop has done over the nodes of the list.
  pub record Repaired (nodes : List ℕ) (g g' : CollectorGraph) : Type 0 where
    pub valid : IsWellFormed g'
    pub outside : (n : ℕ) → contains n nodes ≡ false → contains n g'.nodes ≡ contains n g.nodes
    pub subset : (n : ℕ) → contains n g'.nodes ≡ true → contains n g.nodes ≡ true
    pub closed :
        (n m : ℕ)
        → contains n g'.nodes ≡ true
        → DependsOn env heap collectors n m
        → contains m g.nodes ≡ true
        → contains m g'.nodes ≡ true
    pub useful : (n : ℕ) → contains n nodes ≡ true → contains n g'.nodes ≡ true → IsUseful g' n
    pub measured :
        (n : ℕ)
        → contains n g.nodes ≡ true
        → count_metrics (heap n) ≢ 0
        → contains n g'.nodes ≡ true
    pub filtered :
        (n : ℕ)
        → contains n g.nodes ≡ true
        → contains n g'.nodes ≡ false
        → contains n g'.filtered ≡ true
    pub still_filtered : (n : ℕ) → contains n g.filtered ≡ true → contains n g'.filtered ≡ true

  collector_filtered-IsWired :
      (n : ℕ) (g : CollectorGraph)
      → IsWired env heap collectors g
      → IsWired env heap collectors (collector_filtered n g)
  unfolding collector_filtered
  collector_filtered-IsWired n g w = ground (arith, w.same_heap, w.same_collectors)

  drop_incoming-Tracks :
      (n : ℕ) (g : CollectorGraph) (incoming : Incoming)
      → IsWellFormed g
      → Tracks env heap collectors g incoming
      → Tracks env heap collectors (collector_filtered n g) (drop_incoming n incoming)
  drop_incoming-Tracks n g incoming v t =
      let sets = λ (m k : ℕ). contains-delete m n (incoming_of k incoming) in
      let nodes = λ (m : ℕ). nodes-collector_filtered n m g v in
      let dropped = λ (k : ℕ). incoming_of-drop_incoming n k incoming in
      record {
        sound = λ m k c.
            let (left, d) = t.sound m k (ground (arith, dropped k, sets m k, c)) in
            (ground (arith, nodes m, dropped k, sets m k, c, left), d);
        complete = λ m k c d.
            ground (
              arith,
              nodes m,
              dropped k,
              sets m k,
              c,
              t.complete m k (ground (arith, nodes m, c)) d,
            );
      }

  same_metrics :
      (g : CollectorGraph) (n : ℕ)
      → IsWired env heap collectors g
      → count_metrics (g.heap n) ≡ count_metrics (heap n)
  same_metrics g n w = ap (λ (t : ℕ → CollectorNode). count_metrics (t n)) w.same_heap

  -- What the test of the loop says.
  is_idle-true :
      (g : CollectorGraph) (incoming : Incoming) (n : ℕ)
      → IsWired env heap collectors g
      → is_idle env g incoming n ≡ true
      → (count_metrics (heap n) ≡ 0) × (incoming_of n incoming ≡ [])
  unfolding is_idle
  is_idle-true g incoming n w h = elim (List-cases (incoming_of n incoming)) [
    | inr (m, rest, e) ↦ absurd (ground (arith, e))
    | inl e ↦ (ground (arith, same_metrics g n w), e)
  ]

  is_idle-false :
      (g : CollectorGraph) (incoming : Incoming) (n : ℕ)
      → IsWired env heap collectors g
      → is_idle env g incoming n ≡ false
      → (count_metrics (heap n) ≢ 0) ⊎ ((m : ℕ) × (contains m (incoming_of n incoming) ≡ true))
  unfolding is_idle contains
  is_idle-false g incoming n w h = elim (List-cases (incoming_of n incoming)) [
    | inr (m, rest, e) ↦ inr (m, rw e (ground arith))
    | inl e ↦ inl (λ q. ground (arith, e, q, same_metrics g n w))
  ]

  -- A node that is left alone, and the rest of the loop.
  Repaired-skip :
      (n : ℕ) (nodes : List ℕ) (g g' : CollectorGraph) (incoming : Incoming)
      → Ordered (λ a b. Precedes env heap collectors b a) (n ∷ nodes)
      → Tracks env heap collectors g incoming
      → (count_metrics (heap n) ≢ 0) ⊎ ((m : ℕ) × (contains m (incoming_of n incoming) ≡ true))
      → Repaired nodes g g'
      → Repaired (n ∷ nodes) g g'
  unfolding contains
  Repaired-skip n nodes g g' incoming o t needed r =
      let needed' : IsUseful g' n = elim needed [
        | inl metrics ↦ inl metrics
        | inr (m, c) ↦
            let (left, d) = t.sound m n c in
            elim (Bool-cases (contains m nodes)) [
              | inl later ↦ absurd ((o.0 m later).1 d)
              | inr done ↦ inr (m, r.outside m done ∙ left, d)
            ]
      ] in
      record {
        valid = r.valid;
        outside = λ m c. r.outside m (ground (arith, c));
        subset = r.subset;
        closed = r.closed;
        useful = λ m c left. elim (ℕ_discrete n m) [
          | yes e ↦ rw (← e) needed'
          | no e ↦ r.useful m (ground (arith, c)) left
        ];
        measured = r.measured;
        filtered = r.filtered;
        still_filtered = r.still_filtered;
      }

  -- A node that is filtered, and the rest of the loop.
  Repaired-filter :
      (n : ℕ) (nodes : List ℕ) (g g' : CollectorGraph) (incoming : Incoming)
      → IsWellFormed g
      → Ordered (λ a b. Precedes env heap collectors b a) (n ∷ nodes)
      → Tracks env heap collectors g incoming
      → (count_metrics (heap n) ≡ 0) × (incoming_of n incoming ≡ [])
      → Repaired nodes (collector_filtered n g) g'
      → Repaired (n ∷ nodes) g g'
  unfolding contains
  Repaired-filter n nodes g g' incoming v o t idle r =
      let nodes1 = λ (m : ℕ). nodes-collector_filtered n m g v in
      let back : (m : ℕ) → contains m g'.nodes ≡ true → contains m g.nodes ≡ true =
        λ m c. ground (arith, r.subset m c, nodes1 m) in
      let apart : contains n nodes ≡ false = elim (Bool-cases (contains n nodes)) [
        | inl c ↦ absurd ((o.0 n c).0 refl)
        | inr c ↦ c
      ] in
      let removed : contains n g'.nodes ≡ false = r.outside n apart ∙ ground (arith, nodes1 n) in
      record {
        valid = r.valid;
        outside = λ m c. r.outside m (ground (arith, c)) ∙ ground (arith, nodes1 m, c);
        subset = back;
        closed = λ a m left d before. elim (ℕ_discrete n m) [
          | yes e ↦
              let c = t.complete a n (back a left) (rw e d) in absurd (ground (arith, idle.1, c))
          | no e ↦ r.closed a m left d (ground (arith, nodes1 m, before))
        ];
        useful = λ m c left. elim (ℕ_discrete n m) [
          | yes e ↦ absurd (ground (arith, removed, e, left))
          | no e ↦ r.useful m (ground (arith, c)) left
        ];
        measured = λ m c metrics. elim (ℕ_discrete n m) [
          | yes e ↦ absurd (metrics (rw (← e) idle.0))
          | no e ↦ r.measured m (ground (arith, nodes1 m, c)) metrics
        ];
        filtered = λ m c gone. elim (ℕ_discrete n m) [
          | yes e ↦ rw (← e) (r.still_filtered n (filtered-collector_filtered n g v (rw e c)))
          | no e ↦ r.filtered m (ground (arith, nodes1 m, c)) gone
        ];
        still_filtered = λ m c. r.still_filtered m (filtered_mono n m g c);
      }

  -- The second loop, from the nodes that depend on others to those that others depend on.
  pub repair-Repaired :
      (nodes : List ℕ) (g : CollectorGraph) (incoming : Incoming)
      → IsWired env heap collectors g
      → IsWellFormed g
      → Ordered (λ a b. Precedes env heap collectors b a) nodes
      → ((n : ℕ) → contains n nodes ≡ true → n ≤ g.last_id)
      → Tracks env heap collectors g incoming
      → Repaired nodes g (repair env nodes g incoming)
  unfolding repair contains
  repair-Repaired [] g incoming w v o made t = record {
    valid = v;
    outside = λ n c. refl;
    subset = λ n c. c;
    closed = λ n m c d before. before;
    useful = λ n c left. cc;
    measured = λ n c metrics. c;
    filtered = λ n c gone. cc;
    still_filtered = λ n c. c;
  }
  repair-Repaired (n ∷ nodes) g incoming w v o made t =
      elim (Bool-cases (is_idle env g incoming n)) [
        | inr busy ↦ rw busy (
            Repaired-skip n nodes g (repair env nodes g incoming) incoming o t
              (is_idle-false g incoming n w busy)
              (repair-Repaired nodes g incoming w v o.1 (λ m c. made m (ground (arith, c))) t))
        | inl idle ↦
            let g1 = collector_filtered n g in
            let incoming1 = drop_incoming n incoming in
            rw idle (
              Repaired-filter n nodes g (repair env nodes g1 incoming1) incoming v o t
                (is_idle-true g incoming n w idle)
                (repair-Repaired nodes g1 incoming1 (collector_filtered-IsWired n g w)
                  (collector_filtered-IsWellFormed n g (made n (ground arith)) v) o.1
                  (λ m c. omega (arith, made m (ground (arith, c)), last_id-collector_filtered n g))
                  (drop_incoming-Tracks n g incoming v t)))
      ]
