-- ===== src/Agent.antt =====
-- bitflow-collector/collector_process.go: the REST API by which the agent is told what processes
-- to monitor. The methods of golib.KeyValueStringSlice and regexp.Compile are parameters; how a
-- response is written as text is left out.
pub mod Described
pub mod Asked
pub mod Updated
pub mod Monitored
pub mod Broken
pub mod Stuck
use go_bitflow_collector.Prelude.{
  Bool, true, false, Option, none, some, List, [], ◌∷◌, ◌++◌, if◌then◌else◌, length, ltb,
}
use go_bitflow_collector.Pcap.{Text, eq_text}
use go_bitflow_collector.Psutil.{find, store}
use go_bitflow_collector.Psutil.Multi.{
  ProcessCollectorDescription, MultiProcessCollector, update_processes,
}

abbrev pub Regex : Type 0
Regex = Text → Bool

-- golib.KeyValueStringSlice.
pub record KeyValueStringSlice : Type 0 where
  pub keys : List Text
  pub values : List Text

-- Its methods Put and Delete, and Map, in the order in which the map is walked.
pub record Methods : Type 0 where
  pub put : Text → Text → KeyValueStringSlice → KeyValueStringSlice
  pub delete : Text → KeyValueStringSlice → KeyValueStringSlice
  pub entries : KeyValueStringSlice → List (Text × Text)

pub record MonitorProcessesRestApi : Type 0 where
  pub procs : MultiProcessCollector
  pub proc_collectors : KeyValueStringSlice
  pub proc_children_collectors : KeyValueStringSlice
  pub proc_show_errors : Bool

-- What is written for a request: the entries of both slices, an error, or nothing for a method
-- that the API does not know.
pub data Response : Type 0 where
  status : List (Text × Text) → List (Text × Text) → Response
  update_error : Response
  bad_request : Response
  empty_response : Response

pub data Method : Type 0 where
  get post put delete : Method
  other_method : Method

-- A request for a path without a name, or with one; `true` is for the process groups.
pub data Request : Type 0 where
  root : Bool → Method → Request
  individual : Bool → Method → Text → Text → Request

-- `regexes[key] = append(regexes[key], regex)`
unfoldable pub append_regex : Text → Regex → List (Text × List Regex) → List (Text × List Regex)
unfolding find store
append_regex key regex regexes = elim (find key regexes) [
  | none ↦ store key (regex ∷ []) regexes
  | some list ↦ store key (list ++ regex ∷ []) regexes
]

-- The loop over `regexes`.
unfoldable pub describe : Bool → Bool → List (Text × List Regex) → List ProcessCollectorDescription
describe show_errors include_children [] = []
describe show_errors include_children ((key, list) ∷ regexes) =
    record {
      name = key;
      filter = list;
      print_errors = show_errors;
      include_child_processes = include_children;
    }
    ∷ describe show_errors include_children regexes

module _ (m : Methods) (compile : Text → Option Regex) where
  -- The loop over parameters.Map(); none is an error.
  unfoldable pub compile_all :
      List (Text × Text) → List (Text × List Regex) → Option (List (Text × List Regex))
  unfolding append_regex
  compile_all [] regexes = some regexes
  compile_all ((key, value) ∷ entries) regexes = elim (compile value) [
    | none ↦ none
    | some regex ↦ compile_all entries (append_regex key regex regexes)
  ]

  unfoldable pub create_collectors :
      Bool → KeyValueStringSlice → Bool → Option (List ProcessCollectorDescription)
  unfolding compile_all describe
  create_collectors show_errors parameters include_children =
      if ltb 0 (length parameters.keys)
      then elim (compile_all (m.entries parameters) []) [
        | none ↦ none
        | some regexes ↦ some (describe show_errors include_children regexes)
      ]
      else some []

  -- updateCollectors: the state, and whether no error is returned.
  unfoldable pub update_collectors : MonitorProcessesRestApi → MonitorProcessesRestApi × Bool
  unfolding create_collectors update_processes
  update_collectors api = elim (create_collectors api.proc_show_errors api.proc_collectors false) [
    | none ↦ (api, false)
    | some desc1 ↦ elim (create_collectors api.proc_show_errors api.proc_children_collectors true) [
      | none ↦ (api, false)
      | some desc2 ↦ (
        record api { procs = update_processes (record api.procs { processes = desc1 ++ desc2 }) },
        true,
      )
    ]
  ]

  unfoldable pub write_status : MonitorProcessesRestApi → Response
  write_status api = status (m.entries api.proc_collectors) (m.entries api.proc_children_collectors)

  unfoldable pub update : MonitorProcessesRestApi → Response × MonitorProcessesRestApi
  unfolding update_collectors write_status
  update api =
      let (api', ok) = update_collectors api in
      if ok then (write_status api', api') else (update_error, api')

  -- A request reads and changes the slice of processes, or of process groups with their children.
  abbrev pub get_slice : Bool → MonitorProcessesRestApi → KeyValueStringSlice
  get_slice false api = api.proc_collectors
  get_slice true api = api.proc_children_collectors

  abbrev pub set_slice :
      Bool → KeyValueStringSlice → MonitorProcessesRestApi → MonitorProcessesRestApi
  set_slice false slice api = record api { proc_collectors = slice }
  set_slice true slice api = record api { proc_children_collectors = slice }

  unfoldable pub handle_root_request :
      Bool → Method → MonitorProcessesRestApi → Response × MonitorProcessesRestApi
  unfolding update
  handle_root_request children get api = (write_status api, api)
  handle_root_request children delete api =
      update (set_slice children (record { keys = []; values = [] }) api)
  handle_root_request children post api = (empty_response, api)
  handle_root_request children put api = (empty_response, api)
  handle_root_request children other_method api = (empty_response, api)

  -- POST and PUT of handleIndividualRequest.
  unfoldable pub put_regex :
      Bool → Text → Text → MonitorProcessesRestApi → Response × MonitorProcessesRestApi
  unfolding update
  put_regex children name regex api =
      if eq_text regex []
      then (bad_request, api)
      else update (set_slice children (m.put name regex (get_slice children api)) api)

  -- `name` is the name in the path, and `regex` the form value, which is empty if it is missing.
  unfoldable pub handle_individual_request :
      Bool → Method → Text → Text → MonitorProcessesRestApi → Response × MonitorProcessesRestApi
  unfolding put_regex
  handle_individual_request children get name regex api = (write_status api, api)
  handle_individual_request children post name regex api = put_regex children name regex api
  handle_individual_request children put name regex api = put_regex children name regex api
  handle_individual_request children delete name regex api =
      update (set_slice children (m.delete name (get_slice children api)) api)
  handle_individual_request children other_method name regex api = (empty_response, api)

  -- The routes that Register makes.
  unfoldable pub handle : Request → MonitorProcessesRestApi → Response × MonitorProcessesRestApi
  unfolding handle_root_request handle_individual_request
  handle (root children method) api = handle_root_request children method api
  handle (individual children method name regex) api =
      handle_individual_request children method name regex api

  -- The requests one after another, as the lock has them handled.
  unfoldable pub handle_all : List Request → MonitorProcessesRestApi → MonitorProcessesRestApi
  unfolding handle
  handle_all [] api = api
  handle_all (request ∷ requests) api = handle_all requests (handle request api).1
