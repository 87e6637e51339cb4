-- ===== src/Node/Filters.antt =====
-- The metric filters of graph_node.go against their meaning.
use Prim.Native.String.{String}
use text.Mathlib.Text.{◌==◌ as str_eq}
use text.Mathlib.TextEquality.{eq_iff}
use go_bitflow_collector.Prelude.{
  ◌≡◌, ◌⊎◌, ◌↔◌, inl, inr, Bool, true, false, ◌||◌, List, [], ◌∷◌, arith, Bool-cases,
}
use go_bitflow_collector.Node.{Regex, excluded_by, not_included, is_excluded, get_filtered_metrics}

unfoldable pub contains_name : String → List String → Bool
contains_name name [] = false
contains_name name (x ∷ names) = str_eq x name || contains_name name names

-- Some expression of the list matches the name.
abbrev pub Matches : List Regex → String → Type 0
Matches [] name = ⊥
Matches (regex ∷ list) name = (regex name ≡ true) ⊎ Matches list name

-- A metric that passes the filters: no exclude expression matches it, and there are no include
-- expressions or one of them matches it.
abbrev pub Passes : List Regex → List Regex → String → Type 0
Passes exclude include name = (¬ Matches exclude name) × ((include ≡ []) ⊎ Matches include name)

excluded_by_iff :
    (list : List Regex) (name : String) → (excluded_by list name ≡ true) ↔ Matches list name
unfolding excluded_by
excluded_by_iff [] name = (λ e. absurd (cc), λ e. absurd e)
excluded_by_iff (regex ∷ list) name = ground (arith, excluded_by_iff list name)

not_included_iff :
    (list : List Regex) (name : String) → (not_included list name true ≡ false) ↔ Matches list name
unfolding not_included
not_included_iff [] name = (λ e. absurd (cc), λ e. absurd e)
not_included_iff (regex ∷ list) name = ground (arith, not_included_iff list name)

is_excluded_iff :
    (exclude include : List Regex) (name : String)
    → (is_excluded exclude include name ≡ false) ↔ Passes exclude include name
unfolding is_excluded
is_excluded_iff exclude [] name = ground (arith, excluded_by_iff exclude name)
is_excluded_iff exclude (regex ∷ include) name =
    let first = excluded_by_iff exclude name in
    let second = not_included_iff (regex ∷ include) name in
    elim (Bool-cases (excluded_by exclude name)) [
      | inl out ↦ (λ e. absurd (ground (arith, out)), λ (passes, _). absurd (passes (first.0 out)))
      | inr through ↦ (
        λ e. (λ m. cc (through, first.1 m), inr (second.0 (ground (arith, through)))),
        λ (_, either). elim either [
          | inl nil ↦ absurd (cc nil)
          | inr m ↦ ground (arith, through, second.1 m)
        ],
      )
    ]

-- A metric is left by the filters exactly if the node has it, no exclude expression matches it,
-- and there are no include expressions or one of them matches it.
pub get_filtered_metrics_iff :
    (exclude include : List Regex) (metrics : List String) (name : String)
    → (contains_name name (get_filtered_metrics exclude include metrics) ≡ true)
      ↔ ((contains_name name metrics ≡ true) × Passes exclude include name)
unfolding get_filtered_metrics contains_name
get_filtered_metrics_iff exclude include [] name = (λ e. cc, λ e. e.0)
get_filtered_metrics_iff exclude include (metric ∷ metrics) name =
    let rest = get_filtered_metrics_iff exclude include metrics name in
    let same = eq_iff metric name in
    let test = is_excluded_iff exclude include metric in
    elim (Bool-cases (is_excluded exclude include metric)) [
      | inl out ↦ rw out (
        λ e. (ground (arith, (rest.0 e).0), (rest.0 e).1),
        λ (e, p). elim (Bool-cases (str_eq metric name)) [
          | inl is_it ↦ cc (out, (is_excluded_iff exclude include metric).1 (rw (same.0 is_it) p))
          | inr other ↦ rest.1 (ground (arith, other, e), p)
        ],
      )
      | inr through ↦ rw through (
        λ e. elim (Bool-cases (str_eq metric name)) [
          | inl is_it ↦ (ground (arith, is_it), rw (← same.0 is_it) (test.0 through))
          | inr other ↦
              let old = rest.0 (ground (arith, other, e)) in (ground (arith, old.0), old.1)
        ],
        λ (e, p). elim (Bool-cases (str_eq metric name)) [
          | inl is_it ↦ ground (arith, is_it)
          | inr other ↦ ground (arith, rest.1 (ground (arith, other, e), p))
        ],
      )
    ]
