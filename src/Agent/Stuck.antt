-- ===== src/Agent/Stuck.antt =====
-- What becomes of the REST API of the agent after an expression that does not compile.
use mathlib.Core.Path.{subst}
use go_bitflow_collector.Prelude.{
  ◌≡◌, refl, ◌∙◌, sym, ap, Bool, true, false, Option, none, some, List, [], ◌∷◌, ◌&&◌,
  if◌then◌else◌, arith,
}
use go_bitflow_collector.Pcap.{Text, eq_text}
use go_bitflow_collector.Psutil.{find}
use go_bitflow_collector.Psutil.Tables.{eq_text_self}
use go_bitflow_collector.Agent.{
  Regex, KeyValueStringSlice, Methods, MonitorProcessesRestApi, Request, root, individual, get,
  post, put, delete, other_method, update, get_slice, set_slice, put_regex, handle, handle_all,
  handle_root_request, handle_individual_request, Response, bad_request, update_error,
}
use go_bitflow_collector.Agent.Described.{same_group}
use go_bitflow_collector.Agent.Asked.{IsTable}
use go_bitflow_collector.Agent.Updated.{on_set}
use go_bitflow_collector.Agent.Broken.{IsStuck, update_broken}

-- The request does not put or delete the name in the group, and does not clear the group.
abbrev pub Avoids : Bool → Text → Request → Type 0
Avoids children name (root group delete) = same_group children group ≡ false
Avoids children name (individual group delete k regex) =
    (same_group children group && eq_text k name) ≡ false
Avoids children name (individual group put k regex) =
    (same_group children group && eq_text k name) ≡ false
Avoids children name (individual group post k regex) =
    (same_group children group && eq_text k name) ≡ false
Avoids children name request = Unit {0}

abbrev pub AllAvoid : Bool → Text → List Request → Type 0
AllAvoid children name [] = Unit {0}
AllAvoid children name (request ∷ requests) =
    Avoids children name request × AllAvoid children name requests

same_group-eq : (a b : Bool) → same_group a b ≡ true → a ≡ b
same_group-eq true b e = sym e
same_group-eq false true e = absurd (cc e)
same_group-eq false false e = refl

module _ (compile : Text → Option Regex) (m : Methods) (IsMade : KeyValueStringSlice → Type 0)
    (law : IsTable m IsMade) (children : Bool) (name : Text) where
  kept_set :
      (c group : Bool) (slice : KeyValueStringSlice) (api : MonitorProcessesRestApi) (value : Text)
      → (same_group c group ≡ true → find name (m.entries slice) ≡ some value)
      → find name (m.entries (get_slice m compile c api)) ≡ some value
      → find name (m.entries (get_slice m compile c (set_slice m compile group slice api)))
        ≡ some value
  kept_set true true slice api value new old = new refl
  kept_set true false slice api value new old = old
  kept_set false true slice api value new old = old
  kept_set false false slice api value new old = new refl

  procs_set :
      (group : Bool) (slice : KeyValueStringSlice) (api : MonitorProcessesRestApi)
      → (set_slice m compile group slice api).procs ≡ api.procs
  procs_set true slice api = refl
  procs_set false slice api = refl

  get_slice_set :
      (c : Bool) (slice : KeyValueStringSlice) (api : MonitorProcessesRestApi)
      → get_slice m compile c (set_slice m compile c slice api) ≡ slice
  get_slice_set true slice api = refl
  get_slice_set false slice api = refl

  -- The processes are those of `api` still, and the API is stuck.
  abbrev Stays : MonitorProcessesRestApi → Response × MonitorProcessesRestApi → Type 0
  Stays api (response, api') =
      (api'.procs ≡ api.procs) × IsStuck compile m IsMade law children name api'

  set-Stays :
      (group : Bool) (slice : KeyValueStringSlice) (api : MonitorProcessesRestApi)
      → IsStuck compile m IsMade law children name api
      → IsMade slice
      → (same_group children group ≡ true
          → find name (m.entries slice) ≡ find name (m.entries (get_slice m compile group api)))
      → Stays api (update m compile (set_slice m compile group slice api))
  set-Stays group slice api s made same =
      let stuck : IsStuck compile m IsMade law children name (set_slice m compile group slice api) =
        record {
          made = on_set compile m IsMade law IsMade group slice api made s.made;
          value = s.value;
          kept =
              kept_set children group slice api s.value
                (λ e.
                  same e
                  ∙ ap (λ (c : Bool). find name (m.entries (get_slice m compile c api)))
                      (sym (same_group-eq children group e))
                  ∙ s.kept)
                s.kept;
          broken = s.broken;
        } in
      subst (Stays api)
        (sym (
          update_broken compile m IsMade law children name (set_slice m compile group slice api)
            stuck))
        (procs_set group slice api, stuck)

  put_regex-Stays :
      (group : Bool) (k regex : Text) (api : MonitorProcessesRestApi)
      → IsStuck compile m IsMade law children name api
      → (same_group children group && eq_text k name) ≡ false
      → Stays api (put_regex m compile group k regex api)
  unfolding put_regex
  put_regex-Stays group k regex api s avoids =
      let slice = get_slice m compile group api in
      let put_stays =
        set-Stays group (m.put k regex slice) api s (law.put_made slice k regex (s.made group))
          (λ e. law.find_put slice k regex name (s.made group) ∙ ground (arith, e, avoids)) in
      elim (eq_text regex [])
        as (λ b. Stays api (
          if b
          then (bad_request, api)
          else update m compile (set_slice m compile group (m.put k regex slice) api))) [
            | true ↦ (refl, s)
            | false ↦ put_stays
          ]

  handle-Stays :
      (request : Request) (api : MonitorProcessesRestApi)
      → IsStuck compile m IsMade law children name api
      → Avoids children name request
      → Stays api (handle m compile request api)
  unfolding handle handle_root_request handle_individual_request
  handle-Stays (root group get) api s avoids = (refl, s)
  handle-Stays (root group post) api s avoids = (refl, s)
  handle-Stays (root group put) api s avoids = (refl, s)
  handle-Stays (root group other_method) api s avoids = (refl, s)
  handle-Stays (root group delete) api s avoids =
      set-Stays group (record { keys = []; values = [] }) api s law.clear_made
        (λ e. absurd (cc (e, avoids)))
  handle-Stays (individual group get k regex) api s avoids = (refl, s)
  handle-Stays (individual group other_method k regex) api s avoids = (refl, s)
  handle-Stays (individual group post k regex) api s avoids =
      put_regex-Stays group k regex api s avoids
  handle-Stays (individual group put k regex) api s avoids =
      put_regex-Stays group k regex api s avoids
  handle-Stays (individual group delete k regex) api s avoids =
      let slice = get_slice m compile group api in
      set-Stays group (m.delete k slice) api s (law.delete_made slice k (s.made group))
        (λ e. law.find_delete slice k name (s.made group) ∙ ground (arith, e, avoids))

  procs-handle_all :
      (requests : List Request) (api : MonitorProcessesRestApi)
      → IsStuck compile m IsMade law children name api
      → AllAvoid children name requests
      → (handle_all m compile requests api).procs ≡ api.procs
  unfolding handle_all
  procs-handle_all [] api s avoid = refl
  procs-handle_all (request ∷ requests) api s (avoids, later) =
      let (same, s') = handle-Stays request api s avoids in
      procs-handle_all requests (handle m compile request api).1 s' later ∙ same

  -- Where Put, Delete and Map work as a table: a PUT of an expression that is not empty and does
  -- not compile is answered by an error, and changes nothing of the monitored processes, but
  -- neither does any later request, until one puts or deletes the same name in the same group, or
  -- deletes the whole group.
  pub handle_all-broken :
      (regex : Text) (requests : List Request) (api : MonitorProcessesRestApi)
      → ((group : Bool) → IsMade (get_slice m compile group api))
      → compile regex ≡ none
      → eq_text regex [] ≡ false
      → AllAvoid children name requests
      → ((handle m compile (individual children put name regex) api).0 ≡ update_error)
        × ((handle_all m compile (individual children put name regex ∷ requests) api).procs
            ≡ api.procs)
  unfolding handle handle_all handle_individual_request put_regex
  handle_all-broken regex requests api made broken full avoid =
      let slice = get_slice m compile children api in
      let put_slice = m.put name regex slice in
      let api1 = set_slice m compile children put_slice api in
      let stuck : IsStuck compile m IsMade law children name api1 = record {
        made =
            on_set compile m IsMade law IsMade children put_slice api
              (law.put_made slice name regex (made children)) made;
        value = regex;
        kept =
            ap (λ (t : KeyValueStringSlice). find name (m.entries t))
              (get_slice_set children put_slice api)
            ∙ law.find_put slice name regex name (made children)
            ∙ ground (arith, eq_text_self name);
        broken = broken;
      } in
      let answered : handle m compile (individual children put name regex) api
          ≡ (update_error, api1) =
        ground (arith, full, update_broken compile m IsMade law children name api1 stuck) in
      (
        ap (λ (p : Response × MonitorProcessesRestApi). p.0) answered,
        ap (λ (p : Response × MonitorProcessesRestApi). (handle_all m compile requests p.1).procs)
              answered
            ∙ procs-handle_all requests api1 stuck avoid
            ∙ procs_set children put_slice api,
      )
