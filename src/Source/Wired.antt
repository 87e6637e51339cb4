-- ===== src/Source/Wired.antt =====
-- Which nodes the conditions of startUpdates join.
use mathlib.Core.Path.{subst}
use native.Mathlib.Decide.{ℕ_discrete}
use go_bitflow_collector.Prelude.{
  ℕ, Bool, ◌+◌, ◌≡◌, refl, ◌∙◌, sym, ap, true, false, some, List, [], ◌∷◌, ◌==◌, ◌&&◌,
  if◌then◌else◌, length, get_elem?, contains, lookup, arith, Bool-cases, inl, inr, ◌≢◌,
}
use go_bitflow_collector.Graph.{Collectors, CollectorGraph}
use go_bitflow_collector.Source.{roots_of, leafs_of, get_roots_and_leafs}
use go_bitflow_collector.Source.Conditions.{
  Conditions, no_conditions, add_roots, add_leafs, start_updates,
}
use go_bitflow_collector.Source.Owned.{IsOwned, no_conditions-IsOwned}
use go_bitflow_collector.Graph.Prune.{Incoming, incoming_of}
use go_bitflow_collector.Graph.Incoming.{reverse_dependencies-Tracks, Tracks}
use go_bitflow_collector.Graph.Correct.{Depends}
use go_bitflow_collector.Source.Endpoints.{
  AreDistinct, add_roots-RootsAdded, add_leafs-LeafsAdded, RootsAdded, LeafsAdded,
}
use go_bitflow_collector.Source.Connected.{
  IsLinked, AllResolve, dependencies, connect_all-AllConnected, AllConnected,
}

empty_of_contains : (xs : List ℕ) → ((m : ℕ) → contains m xs ≡ false) → xs ≡ []
unfolding contains
empty_of_contains [] h = refl
empty_of_contains (x ∷ xs) h = absurd (ground (arith, h x))

singleton : (xs : List ℕ) (x : ℕ) → length xs ≡ 1 → get_elem? xs 0 ≡ some x → xs ≡ x ∷ []
singleton [] x h e = absurd (omega (arith, h))
singleton (a ∷ []) x h e = let same : a ≡ x = cc e in ap (λ (y : ℕ). y ∷ []) same
singleton (a ∷ b ∷ xs) x h e = absurd (omega (arith, h))

offset : (xs : List ℕ) (i : ℕ) → xs ≡ [] → length xs + i ≡ i
offset xs i e = ground (arith, e)

not_root : (ds : List ℕ) (b : Bool) → ds ≢ [] → (b && (length ds == 0)) ≡ false
not_root [] b other = absurd (other refl)
not_root (d ∷ ds) b other = ground arith

contains-leafs_of :
    (env : Collectors) (reverse : Incoming) (ns : List ℕ) (n : ℕ)
    → contains n ns ≡ true
    → incoming_of n reverse ≡ []
    → contains n (leafs_of env reverse ns) ≡ true
unfolding leafs_of contains
contains-leafs_of env reverse [] n h e = absurd (cc h)
contains-leafs_of env reverse (m ∷ ns) n h e = elim (ℕ_discrete m n) [
  | yes same ↦ ground (arith, same, e)
  | no other ↦ ground (arith, contains-leafs_of env reverse ns n (ground (arith, h)) e)
]

module _ (env : Collectors) where
  contains-roots_of :
      (g : CollectorGraph) (ns : List ℕ) (n : ℕ)
      → contains n (roots_of env g ns) ≡ (contains n ns && (length (dependencies env g n) == 0))
  unfolding roots_of contains
  contains-roots_of g [] n = refl
  contains-roots_of g (m ∷ ns) n = elim (ℕ_discrete m n) [
    | yes same ↦ ground (arith, same, contains-roots_of g ns n)
    | no other ↦ ground (arith, contains-roots_of g ns n)
  ]

  roots_of-AreDistinct :
      (g : CollectorGraph) (ns : List ℕ) → AreDistinct ns → AreDistinct (roots_of env g ns)
  unfolding roots_of
  roots_of-AreDistinct g [] h = tt
  roots_of-AreDistinct g (m ∷ ns) (fresh, h) =
      elim (Bool-cases (length (dependencies env g m) == 0)) [
        | inl root ↦
            subst AreDistinct
              (ap (λ b. if b then m ∷ roots_of env g ns else roots_of env g ns) (sym root))
              (ground (arith, contains-roots_of g ns m, fresh), roots_of-AreDistinct g ns h)
        | inr inner ↦
            subst AreDistinct
              (ap (λ b. if b then m ∷ roots_of env g ns else roots_of env g ns) (sym inner))
              (roots_of-AreDistinct g ns h)
      ]

  -- The conditions with which the goroutines of the nodes start.
  pub record IsStarted (g : CollectorGraph) (root_conditions leaf_conditions : List ℕ)
      (s : Conditions) : Type 0 where
    pub owned : IsOwned s
    pub root :
        (n : ℕ)
        → contains n g.nodes ≡ true
        → dependencies env g n ≡ []
        → (c : ℕ) × (s.preconditions n ≡ c ∷ []) × (contains c root_conditions ≡ true)
    pub count :
        (n : ℕ)
        → contains n g.nodes ≡ true
        → dependencies env g n ≢ []
        → length (s.preconditions n) ≡ length (dependencies env g n)
    pub linked :
        (n i d m : ℕ)
        → contains n g.nodes ≡ true
        → get_elem? (dependencies env g n) i ≡ some d
        → lookup d g.collectors ≡ some m
        → IsLinked s n i m
    pub leaf :
        (n : ℕ)
        → contains n g.nodes ≡ true
        → ((m : ℕ) → contains m g.nodes ≡ true → ¬ Depends env g m n)
        → (c : ℕ) × (contains c (s.postconditions n) ≡ true) × (contains c leaf_conditions ≡ true)

  started :
      (g : CollectorGraph) (reverse : Incoming) (root_conditions leaf_conditions : List ℕ)
      (s1 s2 s : Conditions)
      → Tracks env g.heap g.collectors g reverse
      → RootsAdded (roots_of env g g.nodes) no_conditions root_conditions s1
      → LeafsAdded (leafs_of env reverse g.nodes) s1 leaf_conditions s2
      → AllConnected env g g.nodes s2 s
      → IsStarted g root_conditions leaf_conditions s
  started g reverse root_conditions leaf_conditions s1 s2 s tracks r1 r2 r3 =
      let free : (n : ℕ) → dependencies env g n ≢ [] → s2.preconditions n ≡ [] = λ n other.
        r2.same n
        ∙ r1.other n (
            contains-roots_of g g.nodes n
            ∙ not_root (dependencies env g n) (contains n g.nodes) other) in
      record {
        owned = r3.owned (r2.owned (r1.owned no_conditions-IsOwned));
        root = λ n c e.
            let (cond, q, listed) =
              r1.root n (contains-roots_of g g.nodes n ∙ ground (arith, c, e)) in
            (
              cond,
              singleton (s.preconditions n) cond (r3.count n c ∙ ground (arith, e, r2.same n, q))
                  (r3.grows.kept n 0 cond (ap (λ (xs : List ℕ). get_elem? xs 0) (r2.same n ∙ q))),
              listed,
            );
        count = λ n c other. ground (arith, r3.count n c, free n other);
        linked = λ n i d m c at found.
            subst (λ j. IsLinked s n j m)
              (offset (s2.preconditions n) i
                (free n (λ e. cc (sym at ∙ ap (λ (ds : List ℕ). get_elem? ds i) e))))
              (r3.linked n i d m c at found);
        leaf = λ n c none_depends.
            let (cond, set, listed) = r2.leaf n (
              contains-leafs_of env reverse g.nodes n c (
                empty_of_contains (incoming_of n reverse) (λ m.
                  elim (Bool-cases (contains m (incoming_of n reverse))) [
                    | inr free_of ↦ free_of
                    | inl listed ↦
                        let (there, depends) = tracks.sound m n listed in
                        absurd (none_depends m there depends)
                  ]))) in
            (cond, r3.grows.kept_post n cond set, listed);
      }

  -- Where the graph names each of its nodes once and all their dependencies have nodes,
  -- startUpdates does not panic, and joins its nodes by conditions of which each has at most one node
  -- that waits for it and at most one that sets it: a node without dependencies waits for one root condition
  -- only; any other node waits for as many conditions as it has dependencies, the one at the place
  -- of a dependency being set by the node of that dependency; and a node on which no node depends
  -- sets a leaf condition.
  pub start_updates_correct :
      (g : CollectorGraph)
      → AreDistinct g.nodes
      → ((n : ℕ) → contains n g.nodes ≡ true → AllResolve g (dependencies env g n))
      → (root_conditions leaf_conditions : List ℕ) × (s : Conditions) × (start_updates env g
          ≡ some (root_conditions, leaf_conditions, s))
        × IsStarted g root_conditions leaf_conditions s
  unfolding start_updates get_roots_and_leafs
  start_updates_correct g distinct h =
      let (reverse, e, tracks) =
        reverse_dependencies-Tracks env g.heap g.collectors g
          (record { same_heap = refl; same_collectors = refl }) h in
      let roots = roots_of env g g.nodes in
      let (root_conditions, s1) = add_roots roots no_conditions in
      let r1 = add_roots-RootsAdded roots no_conditions (roots_of-AreDistinct g g.nodes distinct) in
      let leafs = leafs_of env reverse g.nodes in
      let (leaf_conditions, s2) = add_leafs leafs s1 in
      let r2 = add_leafs-LeafsAdded leafs s1 in
      let (s, e3, r3) = connect_all-AllConnected env g g.nodes s2 distinct h in
      (
        root_conditions,
        leaf_conditions,
        s,
        ground (arith, e, e3),
        started g reverse root_conditions leaf_conditions s1 s2 s tracks r1 r2 r3,
      )
