-- ===== src/Tests/AgentTests.antt =====
-- The REST API of collector_process.go at concrete requests.
use go_bitflow_collector.Prelude.{
  zero, suc, ◌≡◌, refl, ◌∙◌, sym, ap, Bool, true, false, Option, none, some, List, [], ◌∷◌,
  if◌then◌else◌, map, arith, Bool-cases, inl, inr,
}
use go_bitflow_collector.Pcap.{Text, eq_text}
use go_bitflow_collector.Psutil.{find, store, has_name}
use go_bitflow_collector.Psutil.Tables.{eq_text_sym, eq_text_eq, find-store, has_name-store}
use go_bitflow_collector.Agent.{
  Regex, KeyValueStringSlice, Methods, MonitorProcessesRestApi, Request, root, individual, put,
  delete, post, get, handle, handle_all, update_error, get_slice,
}
use go_bitflow_collector.Agent.Described.{KeysDiffer, find_description, compiled}
use go_bitflow_collector.Agent.Asked.{IsTable, monitored, ask_all}
use go_bitflow_collector.Agent.Updated.{IsInSync}
use go_bitflow_collector.Agent.Monitored.{handle_all-ask_all}
use go_bitflow_collector.Agent.Stuck.{handle_all-broken}

-- A slice whose first entry of a key counts.
unfoldable entries_of : List Text → List Text → List (Text × Text)
entries_of [] values = []
entries_of (key ∷ keys) [] = []
entries_of (key ∷ keys) (value ∷ values) = store key value (entries_of keys values)

unfoldable drop_key : Text → List (Text × Text) → List (Text × Text)
drop_key k [] = []
drop_key k ((key, value) ∷ entries) =
    let rest = drop_key k entries in if eq_text key k then rest else (key, value) ∷ rest

abbrev of_entries : List (Text × Text) → KeyValueStringSlice
of_entries entries = record {
  keys = map (λ (key, value). key) entries;
  values = map (λ (key, value). value) entries;
}

abbrev methods : Methods
methods = record {
  put = λ k v s. record { keys = k ∷ s.keys; values = v ∷ s.values };
  delete = λ k s. of_entries (drop_key k (entries_of s.keys s.values));
  entries = λ s. entries_of s.keys s.values;
}

KeysDiffer-store :
    (k v : Text) (entries : List (Text × Text))
    → KeysDiffer entries
    → KeysDiffer (store k v entries)
unfolding store has_name
KeysDiffer-store k v [] h = (refl, tt)
KeysDiffer-store k v ((key, value) ∷ entries) (new, h) =
    elim (eq_text key k)
        as (λ b.
          eq_text key k ≡ b
          → KeysDiffer (if b then (k, v) ∷ entries else (key, value) ∷ store k v entries)) [
            | true ↦ λ same.
                (ap (λ (t : Text). has_name t entries) (sym (eq_text_eq key k same)) ∙ new, h)
            | false ↦ λ apart. (
              ground (arith, has_name-store key k v entries, eq_text_sym key k, apart, new),
              KeysDiffer-store k v entries h,
            )
          ]
      refl

KeysDiffer-entries_of : (keys values : List Text) → KeysDiffer (entries_of keys values)
unfolding entries_of
KeysDiffer-entries_of [] values = tt
KeysDiffer-entries_of (key ∷ keys) [] = tt
KeysDiffer-entries_of (key ∷ keys) (value ∷ values) =
    KeysDiffer-store key value (entries_of keys values) (KeysDiffer-entries_of keys values)

find-of_entries :
    (name : Text) (entries : List (Text × Text))
    → find name (entries_of (of_entries entries).keys (of_entries entries).values)
      ≡ find name entries
unfolding entries_of find
find-of_entries name [] = refl
find-of_entries name ((key, value) ∷ entries) =
    let rest = entries_of (of_entries entries).keys (of_entries entries).values in
    find-store name key value rest
    ∙ ap (λ o. if eq_text key name then some value else o) (find-of_entries name entries)

find-drop_key :
    (name k : Text) (entries : List (Text × Text))
    → find name (drop_key k entries) ≡ (if eq_text k name then none else find name entries)
unfolding drop_key find
find-drop_key name k [] = ground arith
find-drop_key name k ((key, value) ∷ entries) =
    let rest = find-drop_key name k entries in
    elim (Bool-cases (eq_text key k)) [
      | inl same ↦
          let keys : eq_text key name ≡ eq_text k name =
            ap (λ (t : Text). eq_text t name) (eq_text_eq key k same) in
          ground (arith, same, keys, rest)
      | inr other ↦ elim (Bool-cases (eq_text k name)) [
        | inl found ↦
            let keys : eq_text key name ≡ eq_text key k =
              ap (eq_text key) (sym (eq_text_eq k name found)) in
            ground (arith, other, found, keys, rest)
        | inr apart ↦ ground (arith, other, apart, rest)
      ]
    ]

methods-IsTable : IsTable methods (λ s. Unit {0})
unfolding entries_of find
methods-IsTable = record {
  differ = λ s made. KeysDiffer-entries_of s.keys s.values;
  no_keys = λ s made e. ap (λ (keys : List Text). entries_of keys s.values) e;
  clear_made = tt;
  put_made = λ s k v made. tt;
  delete_made = λ s k made. tt;
  find_put = λ s k v name made. find-store name k v (entries_of s.keys s.values);
  find_delete = λ s k name made.
      find-of_entries name (drop_key k (entries_of s.keys s.values))
      ∙ find-drop_key name k (entries_of s.keys s.values);
}

-- The expressions are single bytes, and 0 is none that compiles.
abbrev compile : Text → Option Regex
compile [] = some (λ cmdline. true)
compile (zero ∷ bytes) = none
compile (suc b ∷ bytes) = some (λ cmdline. eq_text (suc b ∷ bytes) cmdline)

abbrev idle : MonitorProcessesRestApi
idle = record {
  procs = record { processes = []; descriptions_changed = false };
  proc_collectors = record { keys = []; values = [] };
  proc_children_collectors = record { keys = []; values = [] };
  proc_show_errors = false;
}

none_found :
    (group : Bool) (name : Text)
    → find name (methods.entries (get_slice methods compile group idle)) ≡ none
unfolding entries_of find
none_found true name = refl
none_found false name = refl

idle-IsInSync : IsInSync compile methods (λ s. Unit {0}) methods-IsTable idle
unfolding entries_of find find_description
idle-IsInSync = record {
  made = λ group. tt;
  compiles = λ group k v found. absurd (cc (sym (none_found group k) ∙ found));
  in_sync = λ group name. ap (compiled compile) (sym (none_found group name));
}

abbrev shell : Text
shell = 115 ∷ 104 ∷ []

abbrev requests : List Request
requests =
    individual true put shell (98 ∷ [])
    ∷ individual false post shell (99 ∷ [])
    ∷ individual true delete shell []
    ∷ root false get
    ∷ []

handle_all-ask_all_example :
    IsInSync compile methods
      (λ s. Unit {0})
      methods-IsTable
      (handle_all methods compile requests idle)
    × (monitored (handle_all methods compile requests idle)
        ≡ ask_all compile requests (monitored idle))
handle_all-ask_all_example =
    handle_all-ask_all compile methods (λ s. Unit {0}) methods-IsTable requests idle idle-IsInSync
      (
        (λ cmdline. eq_text (98 ∷ []) cmdline, refl),
        ((λ cmdline. eq_text (99 ∷ []) cmdline, refl), (tt, (tt, tt))),
      )

handle_all-broken_example :
    ((handle methods compile (individual true put shell (0 ∷ [])) idle).0 ≡ update_error)
    × ((handle_all methods compile
          (individual true put shell (0 ∷ [])
            ∷ individual false put shell (98 ∷ [])
            ∷ root true get
            ∷ [])
          idle).procs
        ≡ idle.procs)
unfolding eq_text
handle_all-broken_example =
    handle_all-broken compile methods (λ s. Unit {0}) methods-IsTable true shell (0 ∷ [])
      (individual false put shell (98 ∷ []) ∷ root true get ∷ []) idle (λ group. tt) refl refl
      (refl, (tt, tt))
