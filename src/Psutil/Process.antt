-- ===== src/Psutil/Process.antt =====
-- psutil/process.go and psutil/pids.go: which processes a ProcessCollector observes, and what its
-- sub-collectors do to them. The processInfo of a process is a parameter `Info`.
use go_bitflow_collector.Prelude.{
  ℕ, zero, suc, Bool, true, false, Option, none, some, List, [], ◌∷◌, map, if◌then◌else◌, not, ◌==◌,
  ◌&&◌, lookup, put, remove, ltb, length, ℤ, pos, ltb_ℤ,
}
use go_bitflow_collector.Pcap.{Text}

-- PidCollector.Update: the process IDs, and whether no error is returned. process.Pids returns a
-- nil slice with an error.
unfoldable pub pids_update : Option (List ℕ) → List ℕ × Bool
pids_update none = ([], false)
pids_update (some pids) = (pids, true)

-- The loop over cmdlineFilter: some expression matches.
unfoldable pub is_selected : List (Text → Bool) → Text → Bool
is_selected [] cmdline = false
is_selected (regex ∷ filter) cmdline =
    let rest = is_selected filter cmdline in if regex cmdline then true else rest

-- What is asked of the operating system: process.NewProcess, then Cmdline, of a process (`none` is
-- an error of either), and the children of a process, where an error gives none.
pub record Os : Type 0 where
  pub new_process : ℕ → Bool
  pub cmdline : ℕ → Option Text
  pub children : ℕ → List ℕ

module _ {Info : Type 0} (own_pid : ℕ) (new_info : ℕ → Info) (os : Os) where
  abbrev pub Procs : Type 0
  Procs = List (ℕ × Info)

  unfoldable pub get_proc_info : Procs → ℕ → Info
  get_proc_info procs pid = elim (lookup pid procs) [ none ↦ new_info pid | some info ↦ info ]

  unfoldable pub has_pid : ℕ → Procs → Bool
  has_pid pid procs = elim (lookup pid procs) [ none ↦ false | some _ ↦ true ]

  -- One round of the first loop of updatePids: the new processes, and how many failed.
  unfoldable pub select_pid : List (Text → Bool) → Procs → ℕ → Procs × ℕ → Procs × ℕ
  unfolding is_selected get_proc_info
  select_pid filter procs pid (new_procs, errors) =
      if pid == own_pid
      then (new_procs, errors)
      else if not (os.new_process pid)
      then (new_procs, suc errors)
      else elim (os.cmdline pid) [
        | none ↦ (new_procs, suc errors)
        | some cmdline ↦ (
          if is_selected filter cmdline
              then put pid (get_proc_info procs pid) new_procs
              else new_procs,
          errors,
        )
      ]

  unfoldable pub select_pids : List (Text → Bool) → Procs → List ℕ → Procs × ℕ → Procs × ℕ
  unfolding select_pid
  select_pids filter procs [] found = found
  select_pids filter procs (pid ∷ pids) found =
      select_pids filter procs pids (select_pid filter procs pid found)

  unfoldable pub add_child : Procs → ℕ → Procs → Procs
  unfolding has_pid get_proc_info
  add_child procs child new_procs =
      if not (has_pid child new_procs) && not (child == own_pid)
      then put child (get_proc_info procs child) new_procs
      else new_procs

  -- The loop of addChildren; the fuel bounds its depth, and none says that it ran out.
  unfoldable pub add_children : ℕ → Procs → List ℕ → Procs → Option Procs
  unfolding add_child
  add_children fuel procs [] new_procs = some new_procs
  add_children zero procs (child ∷ children) new_procs = none
  add_children (suc fuel) procs (child ∷ children) new_procs =
      elim (add_children fuel procs (os.children child) (add_child procs child new_procs)) [
        | none ↦ none
        | some new_procs' ↦ add_children (suc fuel) procs children new_procs'
      ]

  -- The loop over pidList.
  unfoldable pub add_all_children : ℕ → Procs → List ℕ → Procs → Option Procs
  add_all_children fuel procs [] new_procs = some new_procs
  add_all_children fuel procs (pid ∷ pids) new_procs =
      elim (add_children fuel procs (os.children pid) new_procs) [
        | none ↦ none
        | some new_procs' ↦ add_all_children fuel procs pids new_procs'
      ]

  pub record ProcessCollector : Type 0 where
    pub cmdline_filter : List (Text → Bool)
    pub include_children : Bool
    pub pids_updated : Bool
    pub procs : Procs

  abbrev pids_of : Procs → List ℕ
  pids_of procs = map (λ (pid, info). pid) procs

  -- updatePids; the timer that clears pidsUpdated after the interval is `expire`.
  unfoldable pub update_pids : ℕ → ℤ → List ℕ → ProcessCollector → Option ProcessCollector
  unfolding select_pids add_all_children
  update_pids fuel interval pids col =
      if col.pids_updated
      then some col
      else let (new_procs, errors) = select_pids col.cmdline_filter col.procs pids ([], 0) in
        elim (if col.include_children
          then add_all_children fuel col.procs (pids_of new_procs) new_procs
          else some new_procs) [
            | none ↦ none
            | some observed ↦
                some (record col { procs = observed; pids_updated = ltb_ℤ (pos 0) interval })
          ]

  unfoldable pub expire : ProcessCollector → ProcessCollector
  expire col = record col { pids_updated = false }

  -- processSubCollector.doUpdate: the processes after their updates, and those whose update
  -- failed. An update that fails may still have changed the processInfo.
  unfoldable pub do_update : (Info → Info × Bool) → Procs → Procs × List ℕ
  do_update update_proc [] = ([], [])
  do_update update_proc ((pid, info) ∷ procs) =
      let (info', ok) = update_proc info in
      let (procs', deleted) = do_update update_proc procs in
      ((pid, info') ∷ procs', if not ok then pid ∷ deleted else deleted)

  unfoldable pub delete_all : List ℕ → Procs → Procs
  delete_all [] procs = procs
  delete_all (pid ∷ pids) procs = delete_all pids (remove pid procs)

  unfoldable pub sub_update : (Info → Info × Bool) → ProcessCollector → ProcessCollector
  unfolding do_update delete_all
  sub_update update_proc col =
      let (procs, deleted) = do_update update_proc col.procs in
      record col { procs = if ltb 0 (length deleted) then delete_all deleted procs else procs }

  module _ {Value : Type 0} (zero_value : Value) (plus : Value → Value → Value) where
    -- sum and netIoSum, over the values that the processes give.
    unfoldable pub sum_from : Value → (Info → Value) → Procs → Value
    sum_from res get_val [] = res
    sum_from res get_val ((pid, info) ∷ procs) = sum_from (plus res (get_val info)) get_val procs

    abbrev pub sum : (Info → Value) → Procs → Value
    sum get_val procs = sum_from zero_value get_val procs

    unfoldable pub net_io_sum : (Info → Value) → Procs → Value
    net_io_sum get_val [] = zero_value
    net_io_sum get_val ((pid, info) ∷ procs) = plus zero_value (get_val info)
