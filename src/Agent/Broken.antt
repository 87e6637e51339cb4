-- ===== src/Agent/Broken.antt =====
-- updateCollectors where an expression does not compile.
use go_bitflow_collector.Prelude.{
  ◌≡◌, ◌∙◌, sym, ap, Bool, true, false, Option, none, some, List, [], ◌∷◌, arith, Bool-cases,
  Option-cases, List-cases, inl, inr,
}
use go_bitflow_collector.Pcap.{Text, eq_text}
use go_bitflow_collector.Psutil.{find}
use go_bitflow_collector.Agent.{
  Regex, KeyValueStringSlice, Methods, MonitorProcessesRestApi, append_regex, compile_all,
  create_collectors, update_collectors, update, get_slice, update_error,
}
use go_bitflow_collector.Agent.Described.{}
use go_bitflow_collector.Agent.Asked.{IsTable}

module _ (compile : Text → Option Regex) (m : Methods) (IsMade : KeyValueStringSlice → Type 0)
    (law : IsTable m IsMade) (children : Bool) (name : Text) where
  -- The name has an expression that does not compile.
  pub record IsStuck (api : MonitorProcessesRestApi) : Type 0 where
    pub made : (group : Bool) → IsMade (get_slice m compile group api)
    pub value : Text
    pub kept : find name (m.entries (get_slice m compile children api)) ≡ some value
    pub broken : compile value ≡ none

  compile_all_broken :
      (entries : List (Text × Text)) (regexes : List (Text × List Regex)) (value : Text)
      → find name entries ≡ some value
      → compile value ≡ none
      → compile_all m compile entries regexes ≡ none
  unfolding compile_all find
  compile_all_broken [] regexes value found broken = absurd (cc found)
  compile_all_broken ((key, v) ∷ entries) regexes value found broken =
      elim (Option-cases (compile v)) [
        | inl failed ↦ ground (arith, failed)
        | inr (regex, e) ↦ elim (Bool-cases (eq_text key name)) [
          | inl same ↦
              let here : v ≡ value = ground (arith, same, found) in absurd (cc (e, broken, here))
          | inr apart ↦
              let rest =
                compile_all_broken entries (append_regex key regex regexes) value
                  (ground (arith, apart, found)) broken in
              ground (arith, e, rest)
        ]
      ]

  create_collectors_broken :
      (show_errors group : Bool) (slice : KeyValueStringSlice) (value : Text)
      → IsMade slice
      → find name (m.entries slice) ≡ some value
      → compile value ≡ none
      → create_collectors m compile show_errors slice group ≡ none
  unfolding create_collectors find
  create_collectors_broken show_errors group slice value made found broken =
      elim (List-cases slice.keys) [
        | inl empty ↦ absurd (cc (sym found ∙ ap (find name) (law.no_keys slice made empty)))
        | inr (key, rest, e) ↦
            ground (arith, e, compile_all_broken (m.entries slice) [] value found broken)
      ]

  update_broken_first :
      (api : MonitorProcessesRestApi)
      → create_collectors m compile api.proc_show_errors api.proc_collectors false ≡ none
      → update m compile api ≡ (update_error, api)
  unfolding update update_collectors
  update_broken_first api e = ground (arith, e)

  update_broken_second :
      (api : MonitorProcessesRestApi)
      → create_collectors m compile api.proc_show_errors api.proc_children_collectors true ≡ none
      → update m compile api ≡ (update_error, api)
  unfolding update update_collectors
  update_broken_second api e =
      elim (Option-cases
        (create_collectors m compile api.proc_show_errors api.proc_collectors false)) [
          | inl e' ↦ ground (arith, e')
          | inr (out, e') ↦ ground (arith, e, e')
        ]

  pub update_broken :
      (api : MonitorProcessesRestApi) → IsStuck api → update m compile api ≡ (update_error, api)
  update_broken api s =
      elim children
          as (λ c.
            find name (m.entries (get_slice m compile c api)) ≡ some s.value
            → update m compile api ≡ (update_error, api)) [
              | false ↦ λ kept. update_broken_first api (
                  create_collectors_broken api.proc_show_errors false api.proc_collectors s.value
                    (s.made false) kept s.broken)
              | true ↦ λ kept. update_broken_second api (
                  create_collectors_broken api.proc_show_errors true api.proc_children_collectors
                    s.value (s.made true) kept s.broken)
            ]
        s.kept
