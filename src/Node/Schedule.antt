-- ===== src/Node/Schedule.antt =====
-- The order of updates in graph_node.go: every node of the graph is a goroutine that calls
-- updateAndBroadcast, which waits for its preconditions one by one, checks and updates, and sets
-- its postconditions. A condition is a flag, which BoolCondition.Broadcast sets and
-- BoolCondition.WaitAndUnset waits for and clears. What happens after the waiting is one step. A
-- node lists each of its dependencies once. A node without dependencies, a root, waits for a
-- condition that startUpdates of source.go sets at any time.
use mathlib.Core.Path.{subst, sym}
use go_bitflow_collector.Prelude.{
  ℕ, suc, ◌+◌, ◌≤◌, ◌<◌, ◌≡◌, refl, ◌∙◌, Bool, true, false, Option, some, List, [], ◌∷◌, ◌==◌, ◌&&◌,
  ℤ, pos, if◌then◌else◌, contains, arith, Bool-cases, inl, inr,
}
use go_bitflow_collector.Graph.{Collectors, CollectorGraph}
use go_bitflow_collector.Node.{Outcome, UpdateState, update_and_broadcast}

-- `flag m n`: the condition that node `m` sets and node `n` waits for. `waiting n` are the nodes
-- for which `n` still waits in this call of updateAndBroadcast, `rounds n` counts the calls that
-- have returned, `active n` says whether the goroutine has not ended, and `last_update n` is its
-- variable lastUpdate. `root_flag n` is the condition of the root `n`, and `root_waiting n` says
-- whether `n` still waits for it.
pub record Schedule : Type 0 where
  pub flag : ℕ → ℕ → Bool
  pub root_flag : ℕ → Bool
  pub root_waiting : ℕ → Bool
  pub waiting : ℕ → List ℕ
  pub rounds : ℕ → ℕ
  pub active : ℕ → Bool
  pub last_update : ℕ → ℤ
  pub state : UpdateState

abbrev set_flag : (ℕ → ℕ → Bool) → ℕ → ℕ → Bool → ℕ → ℕ → Bool
set_flag flag m n b = λ i j. if (i == m) && (j == n) then b else flag i j

module _ (env : Collectors) (sort : CollectorGraph → Option (List ℕ)) (depends : ℕ → List ℕ) where
  -- A node that waits for a condition of startUpdates.
  abbrev pub is_root : ℕ → Bool
  is_root n = elim (depends n) [ [] ↦ true | m ∷ rest ↦ false ]

  -- loopUpdate has started a goroutine for every node of the graph.
  abbrev pub start : UpdateState → Schedule
  start state = record {
    flag = λ _ _. false;
    root_flag = λ _. false;
    root_waiting = is_root;
    waiting = depends;
    rounds = λ _. 0;
    active = λ n. contains n state.graph.nodes;
    last_update = λ _. pos 0;
    state = state;
  }

  -- WaitAndUnset of the next condition.
  unfoldable pub take : ℕ → ℕ → List ℕ → Schedule → Schedule
  take m n rest s = record s {
    flag = set_flag s.flag m n false;
    waiting = λ k. if k == n then rest else s.waiting k;
  }

  -- WaitAndUnset of the condition of a root.
  unfoldable pub take_root : ℕ → Schedule → Schedule
  take_root n s = record s {
    root_flag = λ k. if k == n then false else s.root_flag k;
    root_waiting = λ k. if k == n then false else s.root_waiting k;
  }

  -- startUpdates sets the conditions of all roots; no other node reads such a flag.
  unfoldable pub set_roots : Schedule → Schedule
  set_roots s = record s { root_flag = λ _. true }

  -- What is left when updateAndBroadcast returns: its result, the state and the time of the last
  -- update, and the conditions of all nodes that depend on `n`, which are set in any case.
  unfoldable pub finish : ℕ → Bool → UpdateState → ℤ → Schedule → Schedule
  finish n go_on state last s = record {
    flag = λ i j. if (i == n) && contains n (depends j) then true else s.flag i j;
    root_flag = s.root_flag;
    root_waiting = λ k. if k == n then is_root n else s.root_waiting k;
    waiting = λ k. if k == n then depends n else s.waiting k;
    rounds = λ k. if k == n then suc (s.rounds n) else s.rounds k;
    active = λ k. if k == n then go_on else s.active k;
    last_update = λ k. if k == n then last else s.last_update k;
    state = state;
  }

  -- Another goroutine stops the stopper.
  unfoldable pub stop : Schedule → Schedule
  stop s = record s { state = record s.state { stopped = true } }

  -- startUpdates wakes up the nodes of the graph once the stopper is stopped.
  unfoldable pub wake : Schedule → Schedule
  wake s = record s {
    flag = λ i j. if contains j s.state.graph.nodes then true else s.flag i j;
    root_flag = λ k. if contains k s.state.graph.nodes then true else s.root_flag k;
  }

  pub data Step (s : Schedule) : Schedule → Type 0 where
    takes :
        {s' : Schedule} (m n : ℕ) (rest : List ℕ)
        → s.active n ≡ true
        → s.waiting n ≡ m ∷ rest
        → s.flag m n ≡ true
        → s' ≡ take m n rest s
        → Step s s'
    takes_root :
        {s' : Schedule} (n : ℕ)
        → s.active n ≡ true
        → s.root_waiting n ≡ true
        → s.root_flag n ≡ true
        → s' ≡ take_root n s
        → Step s s'
    sets_roots : {s' : Schedule} → s' ≡ set_roots s → Step s s'
    runs :
        {s' : Schedule} (n : ℕ) (outcome : Outcome) (now : ℤ) (go_on : Bool) (state : UpdateState)
        (last : ℤ)
        → s.active n ≡ true
        → s.waiting n ≡ []
        → s.root_waiting n ≡ false
        → update_and_broadcast env sort n outcome now (s.last_update n) s.state
          ≡ some (go_on, state, last)
        → s' ≡ finish n go_on state last s
        → Step s s'
    stops : {s' : Schedule} → s' ≡ stop s → Step s s'
    wakes : {s' : Schedule} → s.state.stopped ≡ true → s' ≡ wake s → Step s s'

  pub data Reach : Schedule → Type 0 where
    here : (state : UpdateState) → Reach (start state)
    next : {s s' : Schedule} → Reach s → Step s s' → Reach s'

  -- How many rounds of `m` node `n` has seen or could see: those before its finished rounds, the
  -- one that it took in this round, and the one that its flag shows.
  abbrev count_bool : Bool → ℕ
  count_bool true = 1
  count_bool false = 0

  abbrev pub seen : Schedule → ℕ → ℕ → ℕ
  seen s m n = s.rounds n + count_bool (s.flag m n) + (if contains m (s.waiting n) then 0 else 1)

  -- While the stopper is not stopped, no node has seen more rounds than there are.
  abbrev Inv : Schedule → Type 0
  Inv s =
      s.state.stopped ≡ false
      → (m n : ℕ) → contains m (depends n) ≡ true
      → (seen s m n ≤ s.rounds m)

  Inv-start : (state : UpdateState) → Inv (start state)
  Inv-start state running m n c = ground (arith, c)

  take-Inv :
      (m n : ℕ) (rest : List ℕ) (s : Schedule)
      → s.waiting n ≡ m ∷ rest
      → s.flag m n ≡ true
      → Inv s
      → Inv (take m n rest s)
  unfolding take contains
  take-Inv m n rest s e f inv running a b c = ground (arith, e, f, inv running a b c)

  when_stopped :
      (n : ℕ) (outcome : Outcome) (now last : ℤ) (s : UpdateState)
      → s.stopped ≡ true
      → update_and_broadcast env sort n outcome now last s ≡ some (false, s, last)
  unfolding update_and_broadcast
  when_stopped n outcome now last s stopped = rw stopped refl

  -- updateAndBroadcast does not undo a stop.
  stays_stopped :
      (n : ℕ) (outcome : Outcome) (now last : ℤ) (s s' : UpdateState) (go_on : Bool) (last' : ℤ)
      → update_and_broadcast env sort n outcome now last s ≡ some (go_on, s', last')
      → s'.stopped ≡ false
      → s.stopped ≡ false
  stays_stopped n outcome now last s s' go_on last' e running = elim (Bool-cases s.stopped) [
    | inl stopped ↦
        let same : ◌≡◌ {A = Option (Bool × UpdateState × ℤ)} (some (false, s, last))
            (some (go_on, s', last')) =
          sym (when_stopped n outcome now last s stopped) ∙ e in
        absurd (cc (same, stopped, running))
    | inr r ↦ r
  ]

  finish-Inv :
      (n : ℕ) (go_on : Bool) (state : UpdateState) (last : ℤ) (s : Schedule)
      → s.waiting n ≡ []
      → (state.stopped ≡ false → s.state.stopped ≡ false)
      → contains n (depends n) ≡ false
      → Inv s
      → Inv (finish n go_on state last s)
  unfolding finish contains
  finish-Inv n go_on state last s e kept loop inv running a b c =
      ground (arith, e, loop, inv (kept running) a b c)

  Step-Inv :
      {s s' : Schedule} → ((n : ℕ) → contains n (depends n) ≡ false) → Step s s' → Inv s → Inv s'
  unfolding stop wake take_root set_roots
  Step-Inv loops (takes m n rest a e f q) inv = subst Inv (sym q) (take-Inv m n rest _ e f inv)
  Step-Inv {s} loops (runs n outcome now go_on state last a e root u q) inv = subst Inv (sym q) (
      finish-Inv n go_on state last s e
        (stays_stopped n outcome now (s.last_update n) s.state state go_on last u) (loops n) inv)
  Step-Inv loops (takes_root n a e f q) inv = subst Inv (sym q) inv
  Step-Inv loops (sets_roots q) inv = subst Inv (sym q) inv
  Step-Inv loops (stops q) inv = subst Inv (sym q) (λ running. absurd (cc running))
  Step-Inv loops (wakes stopped q) inv =
      subst Inv (sym q) (λ running. absurd (cc (running, stopped)))

  Reach-Inv : ((n : ℕ) → contains n (depends n) ≡ false) → {s : Schedule} → Reach s → Inv s
  Reach-Inv loops (here state) = Inv-start state
  Reach-Inv loops (next r step) = Step-Inv loops step (Reach-Inv loops r)

  -- Whatever the order in which the nodes take their steps, where no node depends on itself, as
  -- long as the stopper is not stopped: a node has finished at most as many calls of
  -- updateAndBroadcast as each of its dependencies, whether a call updated, was not due, failed or
  -- was the last one, and when it has waited for all of its dependencies, so that it may update,
  -- each of them has finished more.
  pub Reach-rounds :
      ((n : ℕ) → contains n (depends n) ≡ false)
      → {s : Schedule} → Reach s
      → s.state.stopped ≡ false
      → (m n : ℕ) → contains m (depends n) ≡ true
      → (s.rounds n ≤ s.rounds m) × (s.waiting n ≡ [] → s.rounds n < s.rounds m)
  unfolding contains
  Reach-rounds loops {s} r running m n c =
      let inv = Reach-Inv loops r running m n c in (omega (arith, inv), λ e. ground (arith, inv, e))
