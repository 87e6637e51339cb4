-- ===== src/Graph/Build.antt =====
-- initNodes of graph.go ends, and adds every collector that can be reached.
use mathlib.Core.Path.{subst, sym}
use native.Mathlib.Decide.{ℕ_discrete}
use go_bitflow_collector.Prelude.{
  ℕ, zero, suc, ◌≤◌, ◌<◌, ◌≡◌, refl, Bool, true, false, none, some, List, [], ◌∷◌, ◌==◌,
  if◌then◌else◌, contains, lookup, put, arith, Option-cases, inl, inr, lookup-put, length,
}
use go_bitflow_collector.Graph.{
  Collectors, CollectorGraph, new_empty_graph, new_collector_node, collector_failed, update_node,
}
use go_bitflow_collector.Graph.Init.{add_node, init_nodes}
use go_bitflow_collector.Graph.Invariant.{
  IsWellFormed, new_empty_graph-IsWellFormed, new_collector_node-IsWellFormed,
  collector_failed-IsWellFormed, update_node-IsWellFormed,
}

-- A collector has a node.
abbrev pub registered : CollectorGraph → ℕ → Bool
registered g c = elim (lookup c g.collectors) [ none ↦ false | some _ ↦ true ]

-- How many of a list of collectors have no node.
unseen : List (ℕ × ℕ) → List ℕ → ℕ
unseen collectors [] = 0
unseen collectors (u ∷ us) = elim (lookup u collectors) [
  | none ↦ suc (unseen collectors us)
  | some _ ↦ unseen collectors us
]

abbrev Extends : List (ℕ × ℕ) → List (ℕ × ℕ) → Type 0
Extends m m' = (d n : ℕ) → lookup d m ≡ some n → lookup d m' ≡ some n

unseen_mono : (m m' : List (ℕ × ℕ)) (us : List ℕ) → Extends m m' → unseen m' us ≤ unseen m us
unfolding unseen
unseen_mono m m' [] e = omega arith
unseen_mono m m' (u ∷ us) e = elim (Option-cases (lookup u m)) [
  | inl fresh ↦ ground (arith, fresh, unseen_mono m m' us e)
  | inr (n, old) ↦ ground (arith, old, e u n old, unseen_mono m m' us e)
]

unseen-le-length : (m : List (ℕ × ℕ)) (us : List ℕ) → unseen m us ≤ length us
unfolding unseen
unseen-le-length m [] = omega arith
unseen-le-length m (u ∷ us) = ground (arith, unseen-le-length m us)

unseen-lt :
    (m m' : List (ℕ × ℕ)) (us : List ℕ) (c n : ℕ)
    → Extends m m'
    → lookup c m ≡ none
    → lookup c m' ≡ some n
    → contains c us ≡ true
    → unseen m' us < unseen m us
unfolding unseen contains
unseen-lt m m' [] c n e a b h = ground arith
unseen-lt m m' (u ∷ us) c n e a b h = elim (Option-cases (lookup u m)) [
  | inl fresh ↦ ground (arith, fresh, a, b, unseen_mono m m' us e, unseen-lt m m' us c n e a b)
  | inr (k, old) ↦ ground (arith, old, e u k old, a, b, unseen-lt m m' us c n e a b)
]

module _ (env : Collectors) where
  -- The children that a successful Init returns.
  abbrev pub children : ℕ → List ℕ
  children c = elim (env.init c) [ none ↦ [] | some cs ↦ cs ]

  collectors-add_node :
      (c : ℕ) (g : CollectorGraph)
      → (add_node env c g).1.collectors ≡ put c (suc g.last_id) g.collectors
  unfolding add_node new_collector_node collector_failed
  collectors-add_node c g = ground arith

  children-add_node : (c : ℕ) (g : CollectorGraph) → (add_node env c g).0 ≡ children c
  unfolding add_node new_collector_node
  children-add_node c g = ground arith

  last_id-add_node : (c : ℕ) (g : CollectorGraph) → (add_node env c g).1.last_id ≡ suc g.last_id
  unfolding add_node new_collector_node collector_failed
  last_id-add_node c g = ground arith

  add_node-eq :
      (c : ℕ) (g : CollectorGraph)
      → let new = new_collector_node c g in
        (add_node env c g).1 ≡ elim (env.init c) [
          | none ↦ collector_failed new.last_id new
          | some _ ↦
              update_node new.last_id (λ node. record node { metrics = some (env.metrics c) }) new
        ]
  unfolding add_node
  add_node-eq c g =
      let new = new_collector_node c g in
      let e : (new.heap new.last_id).collector ≡ c = unfold new_collector_node in ground arith in
      rw (e, add_node) (ground arith)

  add_node-IsWellFormed :
      (c : ℕ) (g : CollectorGraph) → IsWellFormed g → IsWellFormed (add_node env c g).1
  add_node-IsWellFormed c g v =
      let new = new_collector_node c g in
      let made = new_collector_node-IsWellFormed c g v in
      subst IsWellFormed (sym (add_node-eq c g)) (elim (Option-cases (env.init c)) [
        | inl e ↦ rw e (collector_failed-IsWellFormed new.last_id new (omega arith) made)
        | inr (cs, e) ↦ rw e (
            update_node-IsWellFormed new.last_id
              (λ node. record node { metrics = some (env.metrics c) }) new made)
      ])

  -- What initNodes has done.
  pub record Built (cs : List ℕ) (g g' : CollectorGraph) : Type 0 where
    pub added : (d : ℕ) → contains d cs ≡ true → registered g' d ≡ true
    pub kept : Extends g.collectors g'.collectors
    pub valid : IsWellFormed g → IsWellFormed g'
    pub closed :
        (c d : ℕ)
        → registered g c ≡ false
        → registered g' c ≡ true
        → contains d (children c) ≡ true
        → registered g' d ≡ true

  registered_mono :
      (g g' : CollectorGraph) (d : ℕ)
      → Extends g.collectors g'.collectors
      → registered g d ≡ true
      → registered g' d ≡ true
  registered_mono g g' d e h = elim (Option-cases (lookup d g.collectors)) [
    | inl none_at ↦ ground (arith, none_at)
    | inr (n, at) ↦ ground (arith, e d n at)
  ]

  lookup-add_node :
      (c d : ℕ) (g : CollectorGraph)
      → lookup d (add_node env c g).1.collectors
        ≡ (if c == d then some (suc g.last_id) else lookup d g.collectors)
  lookup-add_node c d g = rw (collectors-add_node c g) (lookup-put d c (suc g.last_id) g.collectors)

  add_node-Extends :
      (c : ℕ) (g : CollectorGraph)
      → lookup c g.collectors ≡ none
      → Extends g.collectors (add_node env c g).1.collectors
  add_node-Extends c g new d n h = elim (ℕ_discrete c d) [
    | yes e ↦ cc (new, e, h)
    | no e ↦ ground (arith, lookup-add_node c d g)
  ]

  -- initNode of a new collector, and the calls for its children and for the rest of the list.
  Built-cons :
      (c : ℕ) (cs : List ℕ) (g g' g'' : CollectorGraph)
      → lookup c g.collectors ≡ none
      → Built (children c) (add_node env c g).1 g'
      → Built cs g' g''
      → Built (c ∷ cs) g g''
  unfolding contains
  Built-cons c cs g g' g'' new first rest =
      let later = λ (d : ℕ). registered_mono g' g'' d rest.kept in
      let here =
        rest.kept c (suc g.last_id)
          (first.kept c (suc g.last_id) (ground (arith, lookup-add_node c c g))) in
      record {
        added = λ d h. ground (arith, rest.added d, here);
        kept = λ d n h. rest.kept d n (first.kept d n (add_node-Extends c g new d n h));
        valid = λ v. rest.valid (first.valid (add_node-IsWellFormed c g v));
        closed = λ a d old now child. ground (
          arith,
          later d,
          first.added d,
          first.closed a d,
          rest.closed a d,
          lookup-add_node c a g,
        );
      }

  -- A set of collectors that holds the children of each.
  abbrev pub IsUniverse : List ℕ → Type 0
  IsUniverse us =
      (c d : ℕ) → contains c us ≡ true → contains d (children c) ≡ true → contains d us ≡ true

  init_nodes_lem :
      (us : List ℕ)
      → IsUniverse us
      → (fuel : ℕ) (cs : List ℕ) (g : CollectorGraph)
      → ((d : ℕ) → contains d cs ≡ true → contains d us ≡ true)
      → unseen g.collectors us < fuel
      → (g' : CollectorGraph) × (init_nodes env fuel cs g ≡ some g') × Built cs g g'
  unfolding init_nodes contains
  init_nodes_lem us u fuel [] g h m = (
    g,
    refl,
    record { added = λ d x. cc; kept = λ d n x. x; valid = λ v. v; closed = λ c d x y z. cc },
  )
  init_nodes_lem us u zero (c ∷ cs) g h m = absurd (omega arith)
  init_nodes_lem us u (suc fuel) (c ∷ cs) g h m = elim (Option-cases (lookup c g.collectors)) [
    | inr (n, old) ↦
        let (g', e, b) = init_nodes_lem us u (suc fuel) cs g (λ d x. h d (ground (arith, x))) m in
        (
          g',
          ground (arith, old, e),
          record {
            added = λ d x. ground (arith, b.added d, b.kept c n old);
            kept = b.kept;
            valid = b.valid;
            closed = b.closed;
          },
        )
    | inl new ↦
        let known : contains c us ≡ true = h c (ground arith) in
        let here : lookup c (add_node env c g).1.collectors ≡ some (suc g.last_id) =
          ground (arith, lookup-add_node c c g) in
        let first =
          unseen-lt g.collectors (add_node env c g).1.collectors us c (suc g.last_id)
            (add_node-Extends c g new) new here known in
        let (g', e, b) =
          init_nodes_lem us u fuel (children c) (add_node env c g).1 (λ d x. u c d known x)
            (omega (arith, first)) in
        let later = unseen_mono (add_node env c g).1.collectors g'.collectors us b.kept in
        let (g'', e', b') =
          init_nodes_lem us u (suc fuel) cs g' (λ d x. h d (ground (arith, x)))
            (omega (arith, first, later)) in
        (g'', ground (arith, new, children-add_node c g, e, e'), Built-cons c cs g g' g'' new b b')
  ]

  -- initNodes on an empty graph, where the root collectors and all that Init returns for any of
  -- them lie in a finite list, ends with fuel above the length of that list; each root and each
  -- child of a registered collector is registered, and the graph is well formed.
  pub init_nodes_total :
      (us : List ℕ) (fuel last_id : ℕ) (cs : List ℕ)
      → IsUniverse us
      → ((d : ℕ) → contains d cs ≡ true → contains d us ≡ true)
      → length us < fuel
      → (g : CollectorGraph) × (init_nodes env fuel cs (new_empty_graph last_id) ≡ some g)
        × ((d : ℕ) → contains d cs ≡ true → registered g d ≡ true)
        × ((c d : ℕ)
            → registered g c ≡ true
            → contains d (children c) ≡ true
            → registered g d ≡ true)
        × IsWellFormed g
  unfolding new_empty_graph lookup
  init_nodes_total us fuel last_id cs u h m =
      let (g, e, b) =
        init_nodes_lem us u fuel cs (new_empty_graph last_id) h
          (omega (arith, unseen-le-length (new_empty_graph last_id).collectors us)) in
      (
        g,
        e,
        b.added,
        λ c d r child. b.closed c d refl r child,
        b.valid (new_empty_graph-IsWellFormed last_id),
      )
