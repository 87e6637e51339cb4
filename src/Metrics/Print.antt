-- ===== src/Metrics/Print.antt =====
-- What PrintMetrics of source.go marks as excluded.
use Prim.Native.String.{String}
use text.Mathlib.TextPositions.{eq_refl}
use go_bitflow_collector.Prelude.{
  ◌≡◌, refl, ap, Bool, true, false, List, [], ◌∷◌, map, if◌then◌else◌, arith, Bool-cases, inl, inr,
}
use go_bitflow_collector.Metrics.{print_metrics}
use go_bitflow_collector.Node.Filters.{contains_name}

-- The names that a test keeps, in their order.
abbrev pub keep : (String → Bool) → List String → List String
keep p [] = []
keep p (x ∷ xs) = if p x then x ∷ keep p xs else keep p xs

-- No name stands twice in the list.
abbrev pub IsDistinct : List String → Type 0
IsDistinct [] = Unit {0}
IsDistinct (x ∷ xs) = (contains_name x xs ≡ false) × IsDistinct xs

contains_name-keep :
    (p : String → Bool) (x : String) (xs : List String)
    → contains_name x xs ≡ false
    → contains_name x (keep p xs) ≡ false
unfolding contains_name
contains_name-keep p x [] h = refl
contains_name-keep p x (y ∷ xs) h = ground (arith, contains_name-keep p x xs)

-- A name that is not in the list does not change what is printed for the others.
skip :
    (x : String) (all filtered : List String)
    → contains_name x filtered ≡ false
    → print_metrics (x ∷ all) filtered ≡ (x, false) ∷ print_metrics all filtered
unfolding print_metrics contains_name
skip x all [] h = refl
skip x all (y ∷ filtered) h = ground arith

step :
    (x : String) (all filtered : List String)
    → print_metrics (x ∷ all) (x ∷ filtered) ≡ (x, true) ∷ print_metrics all filtered
unfolding print_metrics
step x all filtered = rw (eq_refl x)

-- Where all are distinct names and filtered are those of them that a test keeps, in the same
-- order, PrintMetrics prints each name once and in order, as included exactly if the test keeps
-- it.
pub print_metrics-keep :
    (p : String → Bool) (all : List String)
    → IsDistinct all
    → print_metrics all (keep p all) ≡ map (λ (x : String). (x, p x)) all
print_metrics-keep p [] d = unfold print_metrics in refl
print_metrics-keep p (x ∷ all) d = elim (Bool-cases (p x)) [
  | inl kept ↦
      rw (kept, step x all (keep p all))
        (ap (λ (t : List (String × Bool)). (x, true) ∷ t) (print_metrics-keep p all d.1))
  | inr dropped ↦
      rw (dropped, skip x all (keep p all) (contains_name-keep p x all d.0))
        (ap (λ (t : List (String × Bool)). (x, false) ∷ t) (print_metrics-keep p all d.1))
]
