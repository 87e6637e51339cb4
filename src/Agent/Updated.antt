-- ===== src/Agent/Updated.antt =====
-- The update of the collectors after a slice of the REST API was changed.
use mathlib.Core.Path.{subst}
use mathlib.Core.List.{append-nil}
use go_bitflow_collector.Prelude.{
  ◌≡◌, refl, ◌∙◌, sym, ap, Bool, true, false, Option, none, some, List, [], ◌++◌, if◌then◌else◌,
  arith, List-cases, inl, inr,
}
use go_bitflow_collector.Pcap.{Text}
use go_bitflow_collector.Psutil.{find, metrics_changed}
use go_bitflow_collector.Psutil.Multi.{MultiProcessCollector, update_processes, multi_update}
use go_bitflow_collector.Agent.{
  Regex, KeyValueStringSlice, Methods, MonitorProcessesRestApi, describe, create_collectors,
  update_collectors, update, write_status, get_slice, set_slice,
}
use go_bitflow_collector.Agent.Described.{
  same_group, find_description, or_else, find_description-describe, compiled, AllCompile,
  compile_all_lem,
}
use go_bitflow_collector.Agent.Asked.{IsTable, Monitored, monitored}

module _ (compile : Text → Option Regex) (m : Methods) (IsMade : KeyValueStringSlice → Type 0)
    (law : IsTable m IsMade) where
  -- The processes that are monitored are those of the slices.
  pub record IsInSync (api : MonitorProcessesRestApi) : Type 0 where
    pub made : (children : Bool) → IsMade (get_slice m compile children api)
    pub compiles :
        (children : Bool) → AllCompile compile (m.entries (get_slice m compile children api))
    pub in_sync :
        (children : Bool) (name : Text)
        → monitored api children name
          ≡ compiled compile (find name (m.entries (get_slice m compile children api)))

  no_others : {A : Type 0} (o : Option A) → or_else o none ≡ o
  no_others none = refl
  no_others (some a) = refl

  create_collectors_lem :
      (show_errors : Bool) (slice : KeyValueStringSlice) (children : Bool)
      → IsMade slice
      → AllCompile compile (m.entries slice)
      → (out : List (Text × List Regex)) × (create_collectors m compile show_errors slice children
          ≡ some (describe show_errors children out))
        × ((name : Text) → find name out ≡ compiled compile (find name (m.entries slice)))
  unfolding create_collectors find describe
  create_collectors_lem show_errors slice children made compiles = elim (List-cases slice.keys) [
    | inl empty ↦ (
      [],
      ground (arith, empty),
      λ name.
          ap (λ (entries : List (Text × Text)). compiled compile (find name entries))
            (sym (law.no_keys slice made empty)),
    )
    | inr (key, rest, e) ↦
        let (out, run, found) =
          compile_all_lem compile m (m.entries slice) [] (law.differ slice made) compiles
            (λ name there. refl) in
        (
          out,
          ground (arith, e, run),
          λ name. found name ∙ no_others (compiled compile (find name (m.entries slice))),
        )
  ]

  find_description-only :
      (show_errors group children : Bool) (name : Text) (out : List (Text × List Regex))
      → find_description children name (describe show_errors group out)
        ≡ (if same_group children group then find name out else none)
  unfolding find_description
  find_description-only show_errors group children name out =
      ap (find_description children name) (sym (append-nil (describe show_errors group out)))
      ∙ find_description-describe show_errors group children name out []
      ∙ ap (λ o. if same_group children group then o else none) (no_others (find name out))

  updated_in_sync :
      (show_errors children : Bool) (name : Text) (out1 out2 : List (Text × List Regex))
      → find_description children name
          (describe show_errors false out1 ++ describe show_errors true out2)
        ≡ find name (if children then out2 else out1)
  unfolding find_description
  updated_in_sync show_errors true name out1 out2 =
      find_description-describe show_errors false true name out1 (describe show_errors true out2)
      ∙ find_description-only show_errors true true name out2
  updated_in_sync show_errors false name out1 out2 =
      find_description-describe show_errors false false name out1 (describe show_errors true out2)
      ∙ ap (or_else (find name out1)) (find_description-only show_errors true false name out2)
      ∙ no_others (find name out1)

  pub get_slice_procs :
      (children : Bool) (procs : MultiProcessCollector) (api : MonitorProcessesRestApi)
      → get_slice m compile children (record api { procs = procs })
        ≡ get_slice m compile children api
  get_slice_procs true procs api = refl
  get_slice_procs false procs api = refl

  -- updateCollectors on slices whose expressions compile.
  update_lem :
      (api : MonitorProcessesRestApi)
      → ((children : Bool) → IsMade (get_slice m compile children api))
      → ((children : Bool) → AllCompile compile (m.entries (get_slice m compile children api)))
      → (api' : MonitorProcessesRestApi) × (update m compile api
          ≡ (write_status m compile api', api'))
        × ((children : Bool) → get_slice m compile children api' ≡ get_slice m compile children api)
        × (multi_update api'.procs ≡ metrics_changed)
        × ((children : Bool) (name : Text)
            → monitored api' children name
              ≡ compiled compile (find name (m.entries (get_slice m compile children api))))
  unfolding update update_collectors multi_update update_processes
  update_lem api made compiles =
      let (out1, e1, found1) =
        create_collectors_lem api.proc_show_errors api.proc_collectors false (made false)
          (compiles false) in
      let (out2, e2, found2) =
        create_collectors_lem api.proc_show_errors api.proc_children_collectors true (made true)
          (compiles true) in
      let processes =
        describe api.proc_show_errors false out1 ++ describe api.proc_show_errors true out2 in
      (
        record api { procs = update_processes (record api.procs { processes = processes }) },
        ground (arith, e1, e2),
        λ children.
            get_slice_procs children (update_processes (record api.procs { processes = processes }))
              api,
        refl,
        λ children name.
            updated_in_sync api.proc_show_errors children name out1 out2
            ∙ elim children
                as (λ k.
                  find name (if k then out2 else out1)
                  ≡ compiled compile (find name (m.entries (get_slice m compile k api)))) [
                    | true ↦ found2 name
                    | false ↦ found1 name
                  ],
      )

  -- What holds of the slice that is set and of the others holds of all.
  pub on_set :
      (P : KeyValueStringSlice → Type 0) (children : Bool) (slice : KeyValueStringSlice)
      (api : MonitorProcessesRestApi)
      → P slice
      → ((group : Bool) → P (get_slice m compile group api))
      → (group : Bool) → P (get_slice m compile group (set_slice m compile children slice api))
  on_set P true slice api h others true = h
  on_set P true slice api h others false = others false
  on_set P false slice api h others true = others true
  on_set P false slice api h others false = h

  table_set :
      (children : Bool) (slice : KeyValueStringSlice) (api : MonitorProcessesRestApi)
      → IsInSync api
      → (group : Bool) (name : Text)
      → compiled compile (
          find name
            (m.entries (get_slice m compile group (set_slice m compile children slice api))))
        ≡ (if same_group children group
            then compiled compile (find name (m.entries slice))
            else monitored api group name)
  table_set true slice api sync true name = refl
  table_set true slice api sync false name = sym (sync.in_sync false name)
  table_set false slice api sync true name = sym (sync.in_sync true name)
  table_set false slice api sync false name = refl

  -- A request that puts `slice` in the place of the group's slice and updates the collectors.
  pub changed :
      (children : Bool) (slice : KeyValueStringSlice) (api : MonitorProcessesRestApi)
      (table : Monitored)
      → IsInSync api
      → IsMade slice
      → AllCompile compile (m.entries slice)
      → ((group : Bool) (name : Text)
          → table group name ≡ (
              if same_group children group
              then compiled compile (find name (m.entries slice))
              else monitored api group name))
      → (api' : MonitorProcessesRestApi) × (update m compile
            (set_slice m compile children slice api)
          ≡ (write_status m compile api', api'))
        × IsInSync api'
        × (multi_update api'.procs ≡ metrics_changed)
        × ((group : Bool) (name : Text) → monitored api' group name ≡ table group name)
  changed children slice api table sync made compiles same =
      let api1 = set_slice m compile children slice api in
      let made1 = on_set IsMade children slice api made sync.made in
      let compiles1 =
        on_set (λ s. AllCompile compile (m.entries s)) children slice api compiles sync.compiles in
      let (api', e, slices, restarts, monitors) = update_lem api1 made1 compiles1 in
      (
        api',
        e,
        record {
          made = λ group. subst IsMade (sym (slices group)) (made1 group);
          compiles = λ group.
              subst (λ s. AllCompile compile (m.entries s)) (sym (slices group)) (compiles1 group);
          in_sync = λ group name.
              monitors group name
              ∙ ap (λ (s : KeyValueStringSlice). compiled compile (find name (m.entries s)))
                  (sym (slices group));
        },
        restarts,
        λ group name.
            monitors group name
            ∙ table_set children slice api sync group name
            ∙ sym (same group name),
      )
