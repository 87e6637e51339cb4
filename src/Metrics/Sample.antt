-- ===== src/Metrics/Sample.antt =====
-- The samples that collector.go constructs: every value stands at the index of its field.
use mathlib.Core.List.{append_assoc}
use go_bitflow_collector.Prelude.{
  ℕ, suc, ◌≡◌, refl, ap, true, some, List, [], ◌∷◌, ◌++◌, length, replicate, set, map, ltb, arith,
  length-append, length-replicate,
}
use go_bitflow_collector.Metrics.{Metric, number_from, construct_sample, update_all}

module _ {ℓ} {V : Type ℓ} where
  set-append :
      (before after : List V) (x y : V)
      → set (before ++ x ∷ after) (length before) y ≡ before ++ y ∷ after
  set-append [] after x y = refl
  set-append (b ∷ before) after x y = ap (λ t. b ∷ t) (set-append before after x y)

  update_all-number_from :
      (read : ℕ → V) (s : List Metric) (before after : List V)
      → length after ≡ length s
      → update_all read (number_from (length before) s) (before ++ after)
        ≡ some (before ++ map (λ (metric : Metric). read metric.reader) s)
  unfolding update_all number_from
  update_all-number_from read [] before [] h = refl
  update_all-number_from read [] before (x ∷ after) h = absurd (omega arith)
  update_all-number_from read (metric ∷ s) before [] h = absurd (omega arith)
  update_all-number_from read (metric ∷ s) before (x ∷ after) h =
      let v = read metric.reader in
      let size : length (before ++ v ∷ []) ≡ suc (length before) =
        omega (arith, length-append before (v ∷ [])) in
      let in_range : ltb (length before) (length (before ++ x ∷ after)) ≡ true =
        ground (arith, length-append before (x ∷ after)) in
      let rest = update_all-number_from read s (before ++ v ∷ []) after (omega arith) in
      let rest' : update_all read (number_from (suc (length before)) s) (before ++ v ∷ after)
          ≡ some (before ++ v ∷ map (λ (m : Metric). read m.reader) s) =
        simp (append_assoc, size) at rest in
      ground (arith, in_range, set-append before after x v, rest')

  -- However the slice is sorted, UpdateAll succeeds on the sample that ConstructSample makes, and
  -- sets each value to what the reader of the metric with the field's name gives: the values and
  -- the fields are those of the sorted slice, in its order.
  pub construct_sample-update_all :
      (zero_value : V) (sort : List Metric → List Metric) (read : ℕ → V) (s : List Metric)
      → let (fields, metrics, sample) = construct_sample zero_value sort s in
        (fields ≡ map (λ (metric : Metric). metric.name) (sort s))
        × (update_all read metrics sample
            ≡ some (map (λ (metric : Metric). read metric.reader) (sort s)))
  unfolding construct_sample
  construct_sample-update_all zero_value sort read s = (
    refl,
    update_all-number_from read (sort s) [] (replicate (length (sort s)) zero_value)
        (length-replicate (length (sort s)) zero_value),
  )
