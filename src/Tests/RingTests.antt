-- ===== src/Tests/RingTests.antt =====
-- Rings of integers: value_ring.go at concrete inputs.
use go_bitflow_collector.Prelude.{
  ℕ, zero, suc, ◌<◌, ◌≡◌, refl, Bool, true, false, none, some, List, [], ◌∷◌, ℤ, pos, negsuc, ◌+ℤ◌,
  ◌-ℤ◌, length, arith,
}
use go_bitflow_collector.Logback.{LogbackType}
use go_bitflow_collector.Ring.{
  TimedValue, ValueRing, new_value_ring, flush_head, get, get_diff_interval, get_diff,
  diff_to_previous,
}
use go_bitflow_collector.Ring.Slots.{slots, clear}
use go_bitflow_collector.Ring.Refine.{
  IsValid, new_value_ring-IsValid, flush_head_refines, get_diff_interval_refines, get-previous,
}
use go_bitflow_collector.Ring.Overflow.{get_diff_negative}
use go_bitflow_collector.Ring.Forget.{IsEmptyAt, get_diff_forgets}

abbrev is_neg : ℤ → Bool
is_neg (pos _) = false
is_neg (negsuc _) = true

abbrev integers : LogbackType
integers = record {
  Value = ℤ;
  zero_value = pos 0;
  is_negative = is_neg;
  Logback = ℤ;
  diff_value = λ a b _. a -ℤ b;
  add_value = ◌+ℤ◌;
}

abbrev at_time : ℕ → ℕ → TimedValue integers
at_time t v = record { time = pos t; val = some (pos v) }

-- Three slots, the newest at index 1.
abbrev rising : ValueRing integers
rising = record {
  interval = pos 5;
  values = at_time 20 7 ∷ at_time 30 9 ∷ at_time 10 4 ∷ [];
  head = 2;
  aggregator = some (pos 12);
  previous_diff = pos 1;
}

-- The newest value is smaller than the others.
abbrev falling : ValueRing integers
falling = record rising { values = at_time 20 7 ∷ at_time 30 1 ∷ at_time 10 4 ∷ [] }

-- The same after one more round: the newest value stands at index 0.
abbrev wrapped : ValueRing integers
wrapped = record {
  interval = pos 5;
  values = at_time 30 1 ∷ at_time 10 4 ∷ at_time 20 7 ∷ [];
  head = 1;
  aggregator = none;
  previous_diff = pos 3;
}

rising-IsValid : IsValid integers rising
rising-IsValid = omega arith

falling-IsValid : IsValid integers falling
falling-IsValid = omega arith

wrapped-IsValid : IsValid integers wrapped
wrapped-IsValid = omega arith

slots-rising : slots integers rising ≡ at_time 30 9 ∷ at_time 20 7 ∷ at_time 10 4 ∷ []
slots-rising = refl

new_value_ring-IsValid_example :
    IsValid integers (new_value_ring integers (record { size = 3; interval = pos 5 }))
    × (length (new_value_ring integers (record { size = 3; interval = pos 5 })).values ≡ 3)
new_value_ring-IsValid_example =
    new_value_ring-IsValid integers (record { size = 3; interval = pos 5 }) (omega arith)

flush_head_refines_example :
    (after : ValueRing integers) × (flush_head integers (pos 40) rising ≡ some after)
    × IsValid integers after
    × (after.aggregator ≡ none)
    × (after.interval ≡ pos 5)
    × (slots integers after ≡ at_time 40 12 ∷ at_time 30 9 ∷ at_time 20 7 ∷ [])
flush_head_refines_example = flush_head_refines integers (pos 40) rising rising-IsValid

get-previous_example : get integers (pos 25) rising ≡ some (at_time 20 7)
get-previous_example = get-previous integers (pos 25) rising rising-IsValid

get_diff_interval_refines_example : get_diff_interval integers (pos 5) rising ≡ some (pos 2)
unfolding diff_to_previous ◌-ℤ◌
get_diff_interval_refines_example = get_diff_interval_refines integers (pos 5) rising rising-IsValid

get_diff_negative_example :
    (after : ValueRing integers) × (newest : TimedValue integers) × (older : List
      (TimedValue integers))
    × (get_diff integers falling ≡ some (pos 1, after))
    × (slots integers falling ≡ newest ∷ older)
    × (slots integers after ≡ newest ∷ (clear integers older).1)
unfolding diff_to_previous ◌-ℤ◌
get_diff_negative_example = get_diff_negative integers falling falling-IsValid (omega arith) refl

wrapped_full : (i : ℕ) → i < 3 → ¬ IsEmptyAt integers wrapped.values i
wrapped_full zero h e = cc
wrapped_full (suc zero) h e = cc
wrapped_full (suc (suc zero)) h e = cc
wrapped_full (suc (suc (suc i))) h e = omega arith

get_diff_forgets_example :
    (values : List (TimedValue integers)) × (get_diff integers wrapped
      ≡ some (pos 3, record wrapped { values = values }))
    × ((i : ℕ) → i < 3 → IsEmptyAt integers values i)
unfolding diff_to_previous ◌-ℤ◌
get_diff_forgets_example =
    get_diff_forgets integers wrapped wrapped-IsValid (omega arith) wrapped_full refl
