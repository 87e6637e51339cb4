-- ===== src/Metrics.antt =====
-- collector.go: collector names, and the metrics of a sample; and PrintMetrics of source.go.
pub mod Sample
pub mod Print
use Prim.Native.String.{String}
use text.Mathlib.Text.{◌==◌ as str_eq}
use go_bitflow_collector.Prelude.{
  ℕ, suc, ◌+◌, Bool, true, false, Option, none, some, List, [], ◌∷◌, ◌++◌, if◌then◌else◌, length,
  replicate, set, map, ltb,
}

-- AbstractCollector, a chain of parents. Texts are lists of characters here.
pub data AbstractCollector : Type 0 where
  root : List ℕ → AbstractCollector
  child : AbstractCollector → List ℕ → AbstractCollector

-- AbstractCollector.String
unfoldable pub string : AbstractCollector → List ℕ
string (root name) = name
string (child parent name) = (string parent ++ b'/' ∷ []) ++ name

-- A metric: `reader` stands for its MetricReader. Its fields sample and sampleLock are shared by
-- all metrics of a slice, so that the sample stands beside the slice.
pub record Metric : Type 0 where
  pub name : String
  pub index : ℕ
  pub reader : ℕ

-- The loop of ConstructSample over the sorted slice.
unfoldable pub number_from : ℕ → List Metric → List Metric
number_from i [] = []
number_from i (metric ∷ s) = record metric { index = i } ∷ number_from (suc i) s

module _ {ℓ} {V : Type ℓ} (zero_value : V) (sort : List Metric → List Metric) where
  -- ConstructSample: the fields, the numbered metrics, and the sample. `sort` is sort.Sort.
  unfoldable pub construct_sample : List Metric → List String × List Metric × List V
  unfolding number_from
  construct_sample s =
      let sorted = sort s in
      (
        map (λ (metric : Metric). metric.name) sorted,
        number_from 0 sorted,
        replicate (length sorted) zero_value,
      )

module _ {ℓ} {V : Type ℓ} (read : ℕ → V) where
  -- Metric.Update; none is a write out of range.
  unfoldable pub update_metric : Metric → List V → Option (List V)
  update_metric metric sample =
      if ltb metric.index (length sample)
      then some (set sample metric.index (read metric.reader))
      else none

  -- MetricSlice.UpdateAll
  unfoldable pub update_all : List Metric → List V → Option (List V)
  unfolding update_metric
  update_all [] sample = some sample
  update_all (metric ∷ s) sample = elim (update_metric metric sample) [
    | none ↦ none
    | some sample' ↦ update_all s sample'
  ]

-- The loop of PrintMetrics: each name, and whether it is printed as included.
unfoldable pub print_metrics : List String → List String → List (String × Bool)
print_metrics [] filtered = []
print_metrics (metric ∷ all) [] = (metric, false) ∷ print_metrics all []
print_metrics (metric ∷ all) (next ∷ filtered) =
    let is_included = str_eq next metric in
    (metric, is_included) ∷ print_metrics all (if is_included then filtered else next ∷ filtered)
