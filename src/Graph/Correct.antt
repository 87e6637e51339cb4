-- ===== src/Graph/Correct.antt =====
-- pruneAndRepair of graph.go: which nodes are left.
use mathlib.Core.List.{reverse}
use go_bitflow_collector.Prelude.{
  ℕ, ◌≤◌, ◌≡◌, refl, ◌∙◌, sym, true, false, Option, some, List, [], ◌∷◌, contains, arith,
  contains-delete, ◌↔◌, inl, inr, if◌then◌else◌, ◌==◌, Bool-cases,
}
use go_bitflow_collector.Graph.{Collectors, CollectorGraph, collector_failed, collector_filtered}
use go_bitflow_collector.Graph.Prune.{
  Incoming, is_idle, drop_incoming, repair, prune_and_repair, collector_update_failed,
}
use go_bitflow_collector.Graph.Invariant.{IsWellFormed, collector_failed-IsWellFormed}
use go_bitflow_collector.Graph.Order.{
  DependsOn, Resolves, IsTopological, Ordered-reverse, contains-reverse, Precedes,
}
use go_bitflow_collector.Graph.Pruned.{prune_lem}
use go_bitflow_collector.Graph.Incoming.{reverse_dependencies-Tracks}
use go_bitflow_collector.Graph.Repaired.{IsUseful, repair-Repaired}

module _ (env : Collectors) where
  abbrev pub Depends : CollectorGraph → ℕ → ℕ → Type 0
  Depends g = DependsOn env g.heap g.collectors

  -- What topo.Sort promises of the order that it returns for the graph, and that the collectors
  -- on which its nodes depend have nodes.
  pub record IsSortable (sort : CollectorGraph → Option (List ℕ)) (g : CollectorGraph)
      (order : List ℕ) : Type 0 where
    pub sorts : sort g ≡ some order
    pub topological : IsTopological env g.heap g.collectors g.nodes (reverse order) g.last_id
    pub resolves : (n : ℕ) → contains n (reverse order) ≡ true → Resolves env g.heap g.collectors n

  -- What pruneAndRepair makes of a graph: `pruned` are the nodes after its first loop.
  pub record IsRepaired (g : CollectorGraph) (pruned : List ℕ) (g' : CollectorGraph) : Type 0 where
    pub valid : IsWellFormed g'
    pub same_heap : g'.heap ≡ g.heap
    pub pruned_iff :
        (n : ℕ)
        → (contains n pruned ≡ true)
          ↔ ((contains n g.nodes ≡ true) × ((m : ℕ) → Depends g n m → contains m pruned ≡ true))
    pub left_iff :
        (n : ℕ)
        → (contains n g'.nodes ≡ true)
          ↔ ((contains n pruned ≡ true) × IsUseful env g.heap g.collectors g' n)
    pub closed : (n m : ℕ) → contains n g'.nodes ≡ true → Depends g n m → contains m g'.nodes ≡ true
    pub filtered :
        (n : ℕ)
        → contains n pruned ≡ true
        → contains n g'.nodes ≡ false
        → contains n g'.filtered ≡ true

  heap-repair :
      (ns : List ℕ) (g : CollectorGraph) (incoming : Incoming)
      → (repair env ns g incoming).heap ≡ g.heap
  unfolding repair collector_filtered
  heap-repair [] g incoming = refl
  heap-repair (n ∷ ns) g incoming =
      let idle = is_idle env g incoming n in
      heap-repair ns (if idle then collector_filtered n g else g)
        (if idle then drop_incoming n incoming else incoming)
      ∙ ground arith

  -- On a well formed graph, in the order that topo.Sort promises and where all dependencies have
  -- nodes, pruneAndRepair does not panic; its first loop keeps exactly the nodes all of whose
  -- dependencies it keeps, and of these exactly the nodes are left that have a metric or on which
  -- a node that is left depends, while the others are filtered; no dependency of a node that is
  -- left is missing, the fields of nodes stay the same, and the graph is well formed.
  pub prune_and_repair_correct :
      (sort : CollectorGraph → Option (List ℕ)) (g : CollectorGraph) (order : List ℕ)
      → IsWellFormed g
      → IsSortable sort g order
      → (pruned : List ℕ) × (g' : CollectorGraph) × (prune_and_repair env sort g ≡ some g')
        × IsRepaired g pruned g'
  unfolding prune_and_repair
  prune_and_repair_correct sort g order v s =
      let sorted = reverse order in
      let top = s.topological in
      let (kept, g1, run, p) =
        prune_lem env g.heap g.collectors sorted g
          (record { same_heap = refl; same_collectors = refl }) top.ordered top.acyclic
          s.resolves in
      let known = λ (n : ℕ) (c : contains n g1.nodes ≡ true). top.complete n (p.subset n c) in
      let (incoming, e, t) =
        reverse_dependencies-Tracks env g.heap g.collectors g1 p.wired
          (λ n c. s.resolves n (known n c)) in
      let r =
        repair-Repaired env g.heap g.collectors (reverse kept) g1 incoming p.wired (p.valid v)
          (Ordered-reverse (Precedes env g.heap g.collectors) kept (p.ordered top.ordered))
          (λ n c. omega (
            arith,
            p.same_last_id,
            top.made n (p.from_sorted n (sym (contains-reverse n kept) ∙ c)),
          ))
          t in
      let sorts = s.sorts in
      (
        g1.nodes,
        repair env (reverse kept) g1 incoming,
        ground (arith, sorts, run, e),
        record {
          valid = r.valid;
          same_heap = heap-repair (reverse kept) g1 incoming ∙ p.wired.same_heap;
          pruned_iff = λ n. (
            λ c. (p.subset n c, λ m d. p.closed n m (known n c) c d),
            λ (c, all). p.exact n (top.complete n c) c all,
          );
          left_iff = λ n. (
            λ c.
                let before = r.subset n c in
                (
                  before,
                  r.useful n (contains-reverse n kept ∙ p.listed n (known n before) before) c,
                ),
            λ (before, useful). elim useful [
              | inl metrics ↦ r.measured n before metrics
              | inr (m, c, d) ↦ r.closed m n c d before
            ],
          );
          closed = λ n m c d.
              let before = r.subset n c in
              r.closed n m c d (p.closed n m (known n before) before d);
          filtered = r.filtered;
        },
      )

  nodes-collector_failed :
      (n m : ℕ) (g : CollectorGraph)
      → contains m (collector_failed n g).nodes ≡ (if n == m then false else contains m g.nodes)
  unfolding collector_failed
  nodes-collector_failed n m g = contains-delete m n g.nodes

  Depends-collector_failed :
      (n : ℕ) (g : CollectorGraph) (a b : ℕ) → Depends g a b → Depends (collector_failed n g) a b
  unfolding collector_failed
  Depends-collector_failed n g a b d = d

  -- collectorUpdateFailed does not panic under the conditions of pruneAndRepair; the failed node
  -- is no longer part of the graph, no node that is left depends on it, no node is added, and the
  -- graph is well formed.
  pub collector_update_failed_correct :
      (sort : CollectorGraph → Option (List ℕ)) (n : ℕ) (g : CollectorGraph) (order : List ℕ)
      → IsWellFormed g
      → n ≤ g.last_id
      → IsSortable sort (collector_failed n g) order
      → (g' : CollectorGraph) × (collector_update_failed env sort n g ≡ some g')
        × IsWellFormed g'
        × (contains n g'.nodes ≡ false)
        × ((m : ℕ) → contains m g'.nodes ≡ true → ¬ Depends g m n)
        × ((m : ℕ) → contains m g'.nodes ≡ true → contains m g.nodes ≡ true)
  unfolding collector_update_failed
  collector_update_failed_correct sort n g order v h s =
      let failed = collector_failed n g in
      let (pruned, g', e, r) =
        prune_and_repair_correct sort failed order (collector_failed-IsWellFormed n g h v) s in
      let back : (m : ℕ) → contains m g'.nodes ≡ true → contains m failed.nodes ≡ true =
        λ m c. ((r.pruned_iff m).0 ((r.left_iff m).0 c).0).0 in
      let gone : contains n g'.nodes ≡ false = elim (Bool-cases (contains n g'.nodes)) [
        | inl c ↦ absurd (ground (arith, nodes-collector_failed n n g, back n c))
        | inr c ↦ c
      ] in
      (
        g',
        e,
        r.valid,
        gone,
        λ m c d. cc (gone, r.closed m n c (Depends-collector_failed n g m n d)),
        λ m c. ground (arith, nodes-collector_failed n m g, back m c),
      )
