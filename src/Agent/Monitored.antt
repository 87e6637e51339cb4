-- ===== src/Agent/Monitored.antt =====
-- Which processes the REST API of the agent monitors.
use mathlib.Core.Path.{subst}
use go_bitflow_collector.Prelude.{
  ◌≡◌, refl, ◌∙◌, sym, ap, Bool, true, false, Option, none, some, List, [], ◌∷◌, ◌&&◌,
  if◌then◌else◌, arith, Bool-cases, inl, inr,
}
use go_bitflow_collector.Pcap.{Text, eq_text}
use go_bitflow_collector.Psutil.{find}
use go_bitflow_collector.Agent.{
  Regex, KeyValueStringSlice, Methods, MonitorProcessesRestApi, Request, root, individual, get,
  post, put, delete, other_method, update, get_slice, set_slice, put_regex, handle, handle_all,
  handle_root_request, handle_individual_request, Response, bad_request,
}
use go_bitflow_collector.Agent.Described.{same_group, compiled, AllCompile}
use go_bitflow_collector.Agent.Asked.{
  IsTable, Monitored, monitored, ask, ask_put, ask_all, CanCompile, AllCanCompile,
}
use go_bitflow_collector.Agent.Updated.{IsInSync, changed}

module _ (compile : Text → Option Regex) (m : Methods) (IsMade : KeyValueStringSlice → Type 0)
    (law : IsTable m IsMade) where
  put_table :
      (children : Bool) (name regex : Text) (api : MonitorProcessesRestApi)
      → IsInSync compile m IsMade law api
      → (group : Bool) (k : Text)
      → (if same_group children group && eq_text name k
          then compiled compile (some regex)
          else monitored api group k)
        ≡ (if same_group children group
            then compiled compile
                (find k (m.entries (m.put name regex (get_slice m compile children api))))
            else monitored api group k)
  put_table true name regex api sync true k = ground (
    arith,
    law.find_put (get_slice m compile true api) name regex k (sync.made true),
    sync.in_sync true k,
  )
  put_table true name regex api sync false k = refl
  put_table false name regex api sync true k = refl
  put_table false name regex api sync false k = ground (
    arith,
    law.find_put (get_slice m compile false api) name regex k (sync.made false),
    sync.in_sync false k,
  )

  delete_table :
      (children : Bool) (name : Text) (api : MonitorProcessesRestApi)
      → IsInSync compile m IsMade law api
      → (group : Bool) (k : Text)
      → (if same_group children group && eq_text name k then none else monitored api group k) ≡ (
          if same_group children group
          then compiled compile
              (find k (m.entries (m.delete name (get_slice m compile children api))))
          else monitored api group k)
  delete_table true name api sync true k = ground (
    arith,
    law.find_delete (get_slice m compile true api) name k (sync.made true),
    sync.in_sync true k,
  )
  delete_table true name api sync false k = refl
  delete_table false name api sync true k = refl
  delete_table false name api sync false k = ground (
    arith,
    law.find_delete (get_slice m compile false api) name k (sync.made false),
    sync.in_sync false k,
  )

  put_compiles :
      (name regex : Text) (slice : KeyValueStringSlice)
      → IsMade slice
      → (r : Regex) × (compile regex ≡ some r)
      → AllCompile compile (m.entries slice)
      → AllCompile compile (m.entries (m.put name regex slice))
  put_compiles name regex slice made (r, e) compiles k v found =
      elim (Bool-cases (eq_text name k)) [
        | inl same ↦
            let value : regex ≡ v =
              ground (arith, same, found, law.find_put slice name regex k made) in
            (r, ap compile (sym value) ∙ e)
        | inr apart ↦
            compiles k v (ground (arith, apart, found, law.find_put slice name regex k made))
      ]

  delete_compiles :
      (name : Text) (slice : KeyValueStringSlice)
      → IsMade slice
      → AllCompile compile (m.entries slice)
      → AllCompile compile (m.entries (m.delete name slice))
  delete_compiles name slice made compiles k v found =
      compiles k v (ground (arith, found, law.find_delete slice name k made))

  -- The state after a response is in sync, and monitors what the table says.
  abbrev Answers : Response × MonitorProcessesRestApi → Monitored → Type 0
  Answers (response, api) table = IsInSync compile m IsMade law api × (monitored api ≡ table)

  if-Answers :
      (b : Bool) (p q : Response × MonitorProcessesRestApi) (t u : Monitored)
      → Answers p t
      → Answers q u
      → Answers (if b then p else q) (λ group k. if b then t group k else u group k)
  if-Answers true p q t u h h' = h
  if-Answers false p q t u h h' = h'

  changed-Answers :
      (children : Bool) (slice : KeyValueStringSlice) (api : MonitorProcessesRestApi)
      (table : Monitored)
      → IsInSync compile m IsMade law api
      → IsMade slice
      → AllCompile compile (m.entries slice)
      → ((group : Bool) (name : Text)
          → table group name ≡ (
              if same_group children group
              then compiled compile (find name (m.entries slice))
              else monitored api group name))
      → Answers (update m compile (set_slice m compile children slice api)) table
  changed-Answers children slice api table sync made compiles same =
      let (api', e, sync', restarts, monitors) =
        changed compile m IsMade law children slice api table sync made compiles same in
      subst (λ p. Answers p table) (sym e) (sync', λ i group name. monitors group name i)

  put_regex-Answers :
      (children : Bool) (name regex : Text) (api : MonitorProcessesRestApi)
      → IsInSync compile m IsMade law api
      → (r : Regex) × (compile regex ≡ some r)
      → Answers
          (put_regex m compile children name regex api)
          (ask_put compile children name regex (monitored api))
  unfolding put_regex
  put_regex-Answers children name regex api sync can =
      let slice = get_slice m compile children api in
      if-Answers (eq_text regex []) (bad_request, api)
        (update m compile (set_slice m compile children (m.put name regex slice) api))
        (monitored api)
        (λ group k.
          if same_group children group && eq_text name k
          then compiled compile (some regex)
          else monitored api group k)
        (sync, refl)
        (changed-Answers children (m.put name regex slice) api
          (λ group k.
            if same_group children group && eq_text name k
            then compiled compile (some regex)
            else monitored api group k)
          sync (law.put_made slice name regex (sync.made children))
          (put_compiles name regex slice (sync.made children) can (sync.compiles children))
          (put_table children name regex api sync))

  handle-Answers :
      (request : Request) (api : MonitorProcessesRestApi)
      → IsInSync compile m IsMade law api
      → CanCompile compile request
      → Answers (handle m compile request api) (ask compile request (monitored api))
  unfolding handle handle_root_request handle_individual_request find
  handle-Answers (root children get) api sync can = (sync, refl)
  handle-Answers (root children post) api sync can = (sync, refl)
  handle-Answers (root children put) api sync can = (sync, refl)
  handle-Answers (root children other_method) api sync can = (sync, refl)
  handle-Answers (root children delete) api sync can =
      let none_left : m.entries (record { keys = []; values = [] }) ≡ [] =
        law.no_keys (record { keys = []; values = [] }) law.clear_made refl in
      changed-Answers children (record { keys = []; values = [] }) api
        (λ group k. if same_group children group then none else monitored api group k) sync
        law.clear_made (λ k v found. absurd (cc (sym found ∙ ap (find k) none_left)))
        (λ group k. ground (arith, ap (find k) none_left))
  handle-Answers (individual children get name regex) api sync can = (sync, refl)
  handle-Answers (individual children other_method name regex) api sync can = (sync, refl)
  handle-Answers (individual children post name regex) api sync can =
      put_regex-Answers children name regex api sync can
  handle-Answers (individual children put name regex) api sync can =
      put_regex-Answers children name regex api sync can
  handle-Answers (individual children delete name regex) api sync can =
      let slice = get_slice m compile children api in
      changed-Answers children (m.delete name slice) api
        (λ group k.
          if same_group children group && eq_text name k then none else monitored api group k)
        sync (law.delete_made slice name (sync.made children))
        (delete_compiles name slice (sync.made children) (sync.compiles children))
        (delete_table children name api sync)

  -- Where Put, Delete and Map work as a table, the monitored processes are those of the slices,
  -- and every expression that is put compiles: after any requests this is still so, and what is
  -- monitored under each name of both groups is what the requests ask compile for, one after another.
  pub handle_all-ask_all :
      (requests : List Request) (api : MonitorProcessesRestApi)
      → IsInSync compile m IsMade law api
      → AllCanCompile compile requests
      → IsInSync compile m IsMade law (handle_all m compile requests api)
        × (monitored (handle_all m compile requests api) ≡ ask_all compile requests (monitored api))
  unfolding handle_all
  handle_all-ask_all [] api sync can = (sync, refl)
  handle_all-ask_all (request ∷ requests) api sync (can, later) =
      let (sync', asked) = handle-Answers request api sync can in
      let (sync'', rest) =
        handle_all-ask_all requests (handle m compile request api).1 sync' later in
      (sync'', rest ∙ ap (ask_all compile requests) asked)
