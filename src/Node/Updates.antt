-- ===== src/Node/Updates.antt =====
-- How many failures of a node's updates graph_node.go tolerates.
use mathlib.Core.Path.{subst, sym}
use go_bitflow_collector.Prelude.{
  ℕ, ◌≤◌, ◌≡◌, refl, Bool, true, false, Option, some, List, [], ◌∷◌, contains, arith, if◌then◌else◌,
  none, ℤ, ap, ◌∙◌,
}
use go_bitflow_collector.Graph.{Collectors, CollectorGraph, update_node, collector_failed}
use go_bitflow_collector.Graph.Invariant.{IsWellFormed, update_node-IsWellFormed}
use go_bitflow_collector.Graph.Correct.{IsSortable, Depends, collector_update_failed_correct}
use go_bitflow_collector.Graph.Prune.{collector_update_failed}
use go_bitflow_collector.Node.{
  Outcome, no_error, metrics_changed, error, UpdateState, set_failed_updates, update_loop, update,
  update_failed, after_update, update_and_broadcast,
}

-- No two updates in a row fail, the first does not if one failed just before, and no update sees
-- changed metrics.
abbrev pub IsTolerable : Bool → List (Outcome × ℤ) → Type 0
IsTolerable failed [] = Unit {0}
IsTolerable failed ((no_error, now) ∷ calls) = IsTolerable false calls
IsTolerable failed ((error, now) ∷ calls) = (failed ≡ false) × IsTolerable true calls
IsTolerable failed ((metrics_changed, now) ∷ calls) = ⊥

-- A node of the graph that updates at every call, while the stopper is not stopped.
abbrev pub IsLooping : ℕ → UpdateState → Type 0
IsLooping n s =
    (s.stopped ≡ false)
    × (contains n s.graph.nodes ≡ true)
    × ((s.graph.heap n).update_frequency ≡ 0)

module _ (env : Collectors) (sort : CollectorGraph → Option (List ℕ)) where
  call_updates :
      (n : ℕ) (outcome : Outcome) (now last_update : ℤ) (s : UpdateState)
      → IsLooping n s
      → update_and_broadcast env sort n outcome now last_update s
        ≡ after_update env sort last_update (update env sort n outcome s)
  unfolding update_and_broadcast
  call_updates n outcome now last_update s (running, inside, always) =
      rw (running, inside, always) refl

  -- The loop after its first call.
  abbrev go_on :
      ℕ → List (Outcome × ℤ) → Option (Bool × UpdateState × ℤ) → Option (Bool × UpdateState × ℤ)
  go_on n calls none = none
  go_on n calls (some (true, s, last_update)) = update_loop env sort n calls last_update s
  go_on n calls (some (false, s, last_update)) = some (false, s, last_update)

  loop_updates :
      (n : ℕ) (outcome : Outcome) (now last_update : ℤ) (calls : List (Outcome × ℤ))
      (s : UpdateState)
      → IsLooping n s
      → update_loop env sort n ((outcome, now) ∷ calls) last_update s
        ≡ go_on n calls (after_update env sort last_update (update env sort n outcome s))
  unfolding update_loop
  loop_updates n outcome now last_update calls s looping =
      ap (go_on n calls) (call_updates n outcome now last_update s looping)

  set_failed-IsLooping :
      (n k : ℕ) (s : UpdateState)
      → IsLooping n s
      → IsLooping n (record s { graph = set_failed_updates n k s.graph })
  unfolding update_node
  set_failed-IsLooping n k s (running, inside, always) = (running, inside, ground (arith, always))

  update_first_error :
      (n : ℕ) (s : UpdateState)
      → (s.graph.heap n).failed_updates ≡ 0
      → update env sort n error s ≡ some (true, record s { graph = set_failed_updates n 1 s.graph })
  unfolding update update_failed
  update_first_error n s h = ground (arith, h)

  update_second_error :
      (n : ℕ) (s : UpdateState) (g : CollectorGraph)
      → (s.graph.heap n).failed_updates ≡ 1
      → collector_update_failed env sort n (set_failed_updates n 0 s.graph) ≡ some g
      → update env sort n error s ≡ some (false, record s { graph = g })
  unfolding update update_failed
  update_second_error n s g h e = ground (arith, h, e)

  -- The loop goes on after an update that says so, while the stopper is not stopped.
  loop_next :
      (n : ℕ) (outcome : Outcome) (now last_update : ℤ) (calls : List (Outcome × ℤ))
      (s next : UpdateState)
      → IsLooping n s
      → update env sort n outcome s ≡ some (true, next)
      → next.stopped ≡ false
      → update_loop env sort n ((outcome, now) ∷ calls) last_update s
        ≡ update_loop env sort n calls last_update next
  loop_next n outcome now last_update calls s next looping e running =
      loop_updates n outcome now last_update calls s looping
      ∙ ap (λ result. go_on n calls (after_update env sort last_update result)) e
      ∙ rw running refl

  loop_no_error :
      (n : ℕ) (now last_update : ℤ) (calls : List (Outcome × ℤ)) (s : UpdateState)
      → IsLooping n s
      → update_loop env sort n ((no_error, now) ∷ calls) last_update s
        ≡ update_loop env sort n calls last_update
            (record s { graph = set_failed_updates n 0 s.graph })
  unfolding update
  loop_no_error n now last_update calls s looping =
      loop_next n no_error now last_update calls s
        (record s { graph = set_failed_updates n 0 s.graph }) looping refl looping.0

  loop_first_error :
      (n : ℕ) (now last_update : ℤ) (calls : List (Outcome × ℤ)) (s : UpdateState)
      → IsLooping n s
      → (s.graph.heap n).failed_updates ≡ 0
      → update_loop env sort n ((error, now) ∷ calls) last_update s
        ≡ update_loop env sort n calls last_update
            (record s { graph = set_failed_updates n 1 s.graph })
  loop_first_error n now last_update calls s looping h =
      loop_next n error now last_update calls s
        (record s { graph = set_failed_updates n 1 s.graph }) looping (update_first_error n s h)
        looping.0

  tolerate :
      (n : ℕ) (failed : Bool) (calls : List (Outcome × ℤ)) (last_update : ℤ) (s : UpdateState)
      → IsTolerable failed calls
      → IsLooping n s
      → (s.graph.heap n).failed_updates ≡ (if failed then 1 else 0)
      → (s' : UpdateState) × (update_loop env sort n calls last_update s
          ≡ some (true, s', last_update))
        × (s'.stopped ≡ s.stopped)
        × (s'.graph.nodes ≡ s.graph.nodes)
        × (s'.graph.failed ≡ s.graph.failed)
  unfolding update_loop update_node
  tolerate n failed [] last_update s t looping h = (s, refl, refl, refl, refl)
  tolerate n failed ((no_error, now) ∷ calls) last_update s t looping h =
      let next = record s { graph = set_failed_updates n 0 s.graph } in
      let (s', e, stopped, nodes, failed') =
        tolerate n false calls last_update next t (set_failed-IsLooping n 0 s looping)
          (ground arith) in
      (s', loop_no_error n now last_update calls s looping ∙ e, stopped, nodes, failed')
  tolerate n failed ((error, now) ∷ calls) last_update s t looping h =
      let next = record s { graph = set_failed_updates n 1 s.graph } in
      let none_before : (s.graph.heap n).failed_updates ≡ 0 = ground (arith, t.0) in
      let (s', e, stopped, nodes, failed') =
        tolerate n true calls last_update next t.1 (set_failed-IsLooping n 1 s looping)
          (ground arith) in
      (
        s',
        loop_first_error n now last_update calls s looping none_before ∙ e,
        stopped,
        nodes,
        failed',
      )
  tolerate n failed ((metrics_changed, now) ∷ calls) last_update s t looping h = absurd t

  -- While the stopper is not stopped, a node that is part of the graph, has no update frequency and
  -- a counter of 0 goes on through any updates of which no two in a row fail and none sees changed
  -- metrics, where no other goroutine changes the state meanwhile: the stopper, the nodes of the
  -- graph and the failed nodes stay the same.
  pub update_loop-tolerates :
      (n : ℕ) (calls : List (Outcome × ℤ)) (last_update : ℤ) (s : UpdateState)
      → IsTolerable false calls
      → IsLooping n s
      → (s.graph.heap n).failed_updates ≡ 0
      → (s' : UpdateState) × (update_loop env sort n calls last_update s
          ≡ some (true, s', last_update))
        × (s'.stopped ≡ s.stopped)
        × (s'.graph.nodes ≡ s.graph.nodes)
        × (s'.graph.failed ≡ s.graph.failed)
  update_loop-tolerates n calls last_update s t looping h =
      tolerate n false calls last_update s t looping h

  -- The graph after two failures in a row, before the graph is pruned.
  abbrev pub failed_twice : ℕ → CollectorGraph → CollectorGraph
  failed_twice n g = set_failed_updates n 0 (set_failed_updates n 1 g)

  collector-failed_twice :
      (n m : ℕ) (g : CollectorGraph) → ((failed_twice n g).heap m).collector ≡ (g.heap m).collector
  unfolding update_node
  collector-failed_twice n m g = ground arith

  Depends-failed_twice :
      (n : ℕ) (g : CollectorGraph) (a b : ℕ)
      → Depends env g a b
      → Depends env (failed_twice n g) a b
  unfolding update_node
  Depends-failed_twice n g a b (d, listed, found) = (
    d,
    subst (λ (c : ℕ). contains d (env.depends c) ≡ true) (sym (collector-failed_twice n a g))
        listed,
    found,
  )

  loop_second_error :
      (n : ℕ) (now last_update : ℤ) (calls : List (Outcome × ℤ)) (s : UpdateState)
      (g : CollectorGraph)
      → IsLooping n s
      → (s.graph.heap n).failed_updates ≡ 1
      → collector_update_failed env sort n (set_failed_updates n 0 s.graph) ≡ some g
      → update_loop env sort n ((error, now) ∷ calls) last_update s
        ≡ some (false, record s { graph = g }, last_update)
  loop_second_error n now last_update calls s g looping h e =
      loop_updates n error now last_update calls s looping
      ∙ ap (λ result. go_on n calls (after_update env sort last_update result))
          (update_second_error n s g h e)

  -- While the stopper is not stopped, a node that is part of the graph, has no update frequency and
  -- a counter of 0 stops at the second of two failures in a row, whatever would follow, where the
  -- graph is well formed and can be pruned, and no other goroutine changes the state meanwhile: the
  -- node is no longer part of the graph, no node that is left depends on it, and the graph is well
  -- formed.
  pub update_loop-second_failure :
      (n : ℕ) (first second last_update : ℤ) (calls : List (Outcome × ℤ)) (s : UpdateState)
      (order : List ℕ)
      → IsLooping n s
      → (s.graph.heap n).failed_updates ≡ 0
      → IsWellFormed s.graph
      → n ≤ s.graph.last_id
      → IsSortable env sort (collector_failed n (failed_twice n s.graph)) order
      → (s' : UpdateState) × (update_loop env sort n
            ((error, first) ∷ (error, second) ∷ calls)
            last_update
            s
          ≡ some (false, s', last_update))
        × IsWellFormed s'.graph
        × (contains n s'.graph.nodes ≡ false)
        × ((m : ℕ) → contains m s'.graph.nodes ≡ true → ¬ Depends env s.graph m n)
        × (s'.stopped ≡ s.stopped)
  unfolding update_node
  update_loop-second_failure n first second last_update calls s order looping h v made sortable =
      let next = record s { graph = set_failed_updates n 1 s.graph } in
      let (g, e, valid, gone, alone, _) =
        collector_update_failed_correct env sort n (failed_twice n s.graph) order
          (update_node-IsWellFormed n (λ node. record node { failed_updates = 0 })
            (set_failed_updates n 1 s.graph)
            (update_node-IsWellFormed n (λ node. record node { failed_updates = 1 }) s.graph v))
          made sortable in
      (
        record s { graph = g },
        loop_first_error n first last_update ((error, second) ∷ calls) s looping h
            ∙ loop_second_error n second last_update calls next g
                (set_failed-IsLooping n 1 s looping) (ground arith) e,
        valid,
        gone,
        λ m c d. alone m c (Depends-failed_twice n s.graph m n d),
        refl,
      )
