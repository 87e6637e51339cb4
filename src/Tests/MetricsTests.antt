-- ===== src/Tests/MetricsTests.antt =====
-- The samples and the printing of metrics at concrete inputs.
use Prim.Native.String.{String}
use go_bitflow_collector.Node.Filters.{contains_name}
use text.Mathlib.Text.{◌==◌ as str_eq}
use mathlib.Core.List.{List, reverse}
use go_bitflow_collector.Prelude.{ℕ, ◌+◌, ◌≡◌, refl, Bool, true, false, some, List, [], ◌∷◌}
use go_bitflow_collector.Metrics.{Metric, construct_sample, update_all, print_metrics}
use go_bitflow_collector.Metrics.Sample.{construct_sample-update_all}
use go_bitflow_collector.Metrics.Print.{print_metrics-keep}

abbrev two_metrics : List Metric
two_metrics =
    record { name = "b"; index = 0; reader = 7 } ∷ record { name = "a"; index = 0; reader = 5 } ∷ []

construct_sample-update_all_example :
    let (fields, metrics, sample) = construct_sample {V = ℕ} 0 reverse two_metrics in
    (fields ≡ "a" ∷ "b" ∷ []) × (update_all (λ r. r + 1) metrics sample ≡ some (6 ∷ 8 ∷ []))
construct_sample-update_all_example = construct_sample-update_all 0 reverse (λ r. r + 1) two_metrics

abbrev is_b : String → Bool
is_b name = str_eq name "b"

print_metrics-keep_example :
    print_metrics ("a" ∷ "b" ∷ []) ("b" ∷ []) ≡ ("a", false) ∷ ("b", true) ∷ []
unfolding contains_name
print_metrics-keep_example = print_metrics-keep is_b ("a" ∷ "b" ∷ []) (refl, (refl, tt))
