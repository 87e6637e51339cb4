-- ===== src/Agent/Described.antt =====
-- The descriptions of process collectors that updateCollectors makes of the slices.
use go_bitflow_collector.Prelude.{
  ◌≡◌, refl, ◌∙◌, sym, ap, Bool, true, false, Option, none, some, List, [], ◌∷◌, ◌++◌, ◌&&◌,
  if◌then◌else◌, arith, Bool-cases, inl, inr,
}
use go_bitflow_collector.Pcap.{Text, eq_text}
use go_bitflow_collector.Psutil.{find, store, has_name}
use go_bitflow_collector.Psutil.Tables.{eq_text_self, eq_text_eq, find-store, find_missing}
use go_bitflow_collector.Psutil.Multi.{ProcessCollectorDescription}
use go_bitflow_collector.Agent.{Regex, Methods, append_regex, describe, compile_all}

abbrev pub same_group : Bool → Bool → Bool
same_group true b = b
same_group false true = false
same_group false false = true

-- The filter of the first description with the name in the group.
unfoldable pub find_description :
    Bool → Text → List ProcessCollectorDescription → Option (List Regex)
find_description children name [] = none
find_description children name (d ∷ ds) =
    let rest = find_description children name ds in
    if same_group children d.include_child_processes && eq_text d.name name
    then some d.filter
    else rest

abbrev pub or_else {ℓ} : {A : Type ℓ} → Option A → Option A → Option A
or_else none o = o
or_else (some a) o = some a

pub find_description-describe :
    (show_errors group children : Bool) (name : Text) (regexes : List (Text × List Regex))
    → (rest : List ProcessCollectorDescription)
    → find_description children name (describe show_errors group regexes ++ rest) ≡ (
        if same_group children group
        then or_else (find name regexes) (find_description children name rest)
        else find_description children name rest)
unfolding find_description describe find
find_description-describe show_errors group children name [] rest = ground arith
find_description-describe show_errors group children name ((key, list) ∷ regexes) rest =
    let later = find_description-describe show_errors group children name regexes rest in
    elim (Bool-cases (same_group children group)) [
      | inl same ↦ ground (arith, same, later)
      | inr other ↦ ground (arith, other, later)
    ]

abbrev pub KeysDiffer : List (Text × Text) → Type 0
KeysDiffer [] = Unit {0}
KeysDiffer ((key, value) ∷ entries) = (has_name key entries ≡ false) × KeysDiffer entries

module _ (compile : Text → Option Regex) where
  -- What a group is filtered by that has the value as its expression.
  abbrev pub compiled : Option Text → Option (List Regex)
  compiled none = none
  compiled (some value) = elim (compile value) [ none ↦ none | some regex ↦ some (regex ∷ []) ]

  abbrev pub AllCompile : List (Text × Text) → Type 0
  AllCompile entries =
      (name value : Text)
      → find name entries ≡ some value
      → (regex : Regex) × (compile value ≡ some regex)

  -- The names of the other entries are other names.
  other_name :
      (key name : Text) (entries : List (Text × Text))
      → has_name key entries ≡ false
      → has_name name entries ≡ true
      → eq_text key name ≡ false
  other_name key name entries new there = elim (Bool-cases (eq_text key name)) [
    | inr apart ↦ apart
    | inl same ↦
        absurd (cc (new, there, ap (λ (t : Text). has_name t entries) (eq_text_eq key name same)))
  ]

  AllCompile-tail :
      (key value : Text) (entries : List (Text × Text))
      → has_name key entries ≡ false
      → AllCompile ((key, value) ∷ entries)
      → AllCompile entries
  unfolding find
  AllCompile-tail key value entries new compiles name v found =
      compiles name v (elim (Bool-cases (has_name name entries)) [
        | inl there ↦ ground (arith, other_name key name entries new there, found)
        | inr missing ↦ absurd (cc (find_missing name entries missing, found))
      ])

  pub compile_all_lem :
      (m : Methods) (entries : List (Text × Text)) (regexes : List (Text × List Regex))
      → KeysDiffer entries
      → AllCompile entries
      → ((name : Text) → has_name name entries ≡ true → find name regexes ≡ none)
      → (out : List (Text × List Regex)) × (compile_all m compile entries regexes ≡ some out)
        × ((name : Text)
            → find name out ≡ or_else (compiled (find name entries)) (find name regexes))
  unfolding compile_all find has_name append_regex
  compile_all_lem m [] regexes differ compiles fresh = (regexes, refl, λ name. refl)
  compile_all_lem m ((key, value) ∷ entries) regexes (new, differ) compiles fresh =
      let (regex, e) = compiles key value (ground (arith, eq_text_self key)) in
      let absent = fresh key (ground (arith, eq_text_self key)) in
      let stored = λ (name : Text). find-store name key (regex ∷ []) regexes in
      let (out, run, found) =
        compile_all_lem m entries (store key (regex ∷ []) regexes) differ
          (AllCompile-tail key value entries new compiles)
          (λ name there.
            stored name
            ∙ ground (
              arith,
              other_name key name entries new there,
              fresh name (ground (arith, there)),
            )) in
      (
        out,
        ground (arith, e, absent, run),
        λ name. elim (Bool-cases (eq_text key name)) [
          | inl same ↦
              let gone : find name entries ≡ none =
                find_missing name entries
                  (ap (λ (t : Text). has_name t entries) (sym (eq_text_eq key name same)) ∙ new) in
              ground (arith, found name, stored name, gone, same, e)
          | inr apart ↦ ground (arith, found name, stored name, apart)
        ],
      )
