-- ===== src/Agent/Asked.antt =====
-- What the requests to the REST API of the agent ask for.
use go_bitflow_collector.Prelude.{◌≡◌, Bool, Option, none, some, List, [], ◌∷◌, ◌&&◌, if◌then◌else◌}
use go_bitflow_collector.Pcap.{Text, eq_text}
use go_bitflow_collector.Psutil.{find}
use go_bitflow_collector.Agent.{
  Regex, KeyValueStringSlice, Methods, MonitorProcessesRestApi, Request, root, individual, post,
  put, delete,
}
use go_bitflow_collector.Agent.Described.{same_group, find_description, KeysDiffer, compiled}

-- What Put, Delete and Map do to a slice that they have made: Map has each key once, none of no
-- keys, and Put and Delete change the entry of their key only.
pub record IsTable (m : Methods) (IsMade : KeyValueStringSlice → Type 0) : Type 0 where
  pub differ : (s : KeyValueStringSlice) → IsMade s → KeysDiffer (m.entries s)
  pub no_keys : (s : KeyValueStringSlice) → IsMade s → s.keys ≡ [] → m.entries s ≡ []
  pub clear_made : IsMade (record { keys = []; values = [] })
  pub put_made : (s : KeyValueStringSlice) (k v : Text) → IsMade s → IsMade (m.put k v s)
  pub delete_made : (s : KeyValueStringSlice) (k : Text) → IsMade s → IsMade (m.delete k s)
  pub find_put :
      (s : KeyValueStringSlice) (k v name : Text)
      → IsMade s
      → find name (m.entries (m.put k v s))
        ≡ (if eq_text k name then some v else find name (m.entries s))
  pub find_delete :
      (s : KeyValueStringSlice) (k name : Text)
      → IsMade s
      → find name (m.entries (m.delete k s))
        ≡ (if eq_text k name then none else find name (m.entries s))

-- What the API monitors: for each group and name the filter.
abbrev pub Monitored : Type 0
Monitored = Bool → Text → Option (List Regex)

abbrev pub monitored : MonitorProcessesRestApi → Monitored
monitored api children name = find_description children name api.procs.processes

module _ (compile : Text → Option Regex) where
  abbrev pub ask_put : Bool → Text → Text → Monitored → Monitored
  ask_put children name regex table group k =
      if eq_text regex []
      then table group k
      else if same_group children group && eq_text name k
      then compiled compile (some regex)
      else table group k

  -- What a request asks for: a new filter for a name, or none for a name or for a whole group.
  abbrev pub ask : Request → Monitored → Monitored
  ask (root children delete) table =
      λ group k. if same_group children group then none else table group k
  ask (root children method) table = table
  ask (individual children put name regex) table = ask_put children name regex table
  ask (individual children post name regex) table = ask_put children name regex table
  ask (individual children delete name regex) table =
      λ group k. if same_group children group && eq_text name k then none else table group k
  ask (individual children method name regex) table = table

  abbrev pub ask_all : List Request → Monitored → Monitored
  ask_all [] table = table
  ask_all (request ∷ requests) table = ask_all requests (ask request table)

  -- Every expression that is put compiles.
  abbrev pub CanCompile : Request → Type 0
  CanCompile (individual children put name regex) = (r : Regex) × (compile regex ≡ some r)
  CanCompile (individual children post name regex) = (r : Regex) × (compile regex ≡ some r)
  CanCompile request = Unit {0}

  abbrev pub AllCanCompile : List Request → Type 0
  AllCanCompile [] = Unit {0}
  AllCanCompile (request ∷ requests) = CanCompile request × AllCanCompile requests
