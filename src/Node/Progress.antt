-- ===== src/Node/Progress.antt =====
-- That the nodes of graph_node.go do not block each other, where dependencies have no cycle.
use go_bitflow_collector.Prelude.{ℕ, suc, ◌<◌, ◌≡◌, true, false, Option, some, List, contains, ℤ}
use go_bitflow_collector.Graph.{Collectors, CollectorGraph}
use go_bitflow_collector.Node.{no_error, UpdateState, update_and_broadcast}
use go_bitflow_collector.Node.Schedule.{Schedule, Step}

module _ (env : Collectors) (sort : CollectorGraph → Option (List ℕ)) (depends : ℕ → List ℕ) where
  -- Any number of steps.
  pub data Steps (s : Schedule) : Schedule → Type 0 where
    done : Steps s s
    more : {t u : Schedule} → Steps s t → Step env sort depends t u → Steps s u

  -- A node waits only for its dependencies.
  abbrev IsWaiting : Schedule → Type 0
  IsWaiting s = (n m : ℕ) → contains m (s.waiting n) ≡ true → contains m (depends n) ≡ true

  -- The stopper is not stopped, and the goroutines of the nodes have not ended.
  abbrev pub IsRunning : List ℕ → Schedule → Type 0
  IsRunning nodes s =
      (s.state.stopped ≡ false)
      × (s.state.graph.nodes ≡ nodes)
      × ((m : ℕ) → contains m nodes ≡ true → s.active m ≡ true)

  module _ (now : ℤ) where
    -- A call without an error, whether the node is due or not.
    abbrev Succeeds : ℕ → ℤ → UpdateState → Type 0
    Succeeds n last s =
        (s' : UpdateState) × (last' : ℤ) × (update_and_broadcast env sort n no_error now last s
          ≡ some (true, s', last'))
        × (s'.stopped ≡ false)
        × (s'.graph.nodes ≡ s.graph.nodes)

    module _ (rank : ℕ → ℕ) (nodes : List ℕ) where
      -- The nodes of a higher rank have neither finished a call nor waited.
      abbrev IsFramed : ℕ → Schedule → Schedule → Type 0
      IsFramed k s t =
          (j : ℕ) → k < rank j → (t.rounds j ≡ s.rounds j) × (t.waiting j ≡ s.waiting j)

      -- The steps to the end of the next call of a node.
      abbrev Updated : ℕ → Schedule → Type 0
      Updated n s =
          (t : Schedule) × Steps s t
          × (t.rounds n ≡ suc (s.rounds n))
          × ((j : ℕ) → contains n (depends j) ≡ true → t.flag n j ≡ true)
          × IsFramed (rank n) s t
          × IsWaiting t
          × IsRunning nodes t

      module _ (acyclic : (m n : ℕ) → contains m (depends n) ≡ true → rank m < rank n)
          (closed : (m n : ℕ)
            → contains n nodes ≡ true
            → contains m (depends n) ≡ true
            → contains m nodes ≡ true) where
        abbrev CanUpdate : ℕ → Type 0
        CanUpdate n =
            (s : Schedule) → contains n nodes ≡ true → IsWaiting s → IsRunning nodes s → Updated n s
