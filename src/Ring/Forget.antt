-- ===== src/Ring/Forget.antt =====
-- `flush` of value_ring.go on a full ring whose next write goes to index 0 or 1.
use native.Mathlib.Decide.{ℕ_discrete}
use go_bitflow_collector.Prelude.{
  ℕ, zero, suc, ◌+◌, ◌-◌, ◌≤◌, ◌<◌, ◌≡◌, refl, sym, ap, ◌∙◌, inl, inr, Bool, true, false, none,
  some, List, sub_ℕ, length, get_or, set, arith, length-set, get_elem?-eq-get_or, get_or-set_self,
  get_or-set_ne, Option-cases,
}
use go_bitflow_collector.Logback.{LogbackType}
use go_bitflow_collector.Ring
use go_bitflow_collector.Ring.{TimedValue, ValueRing, rounds_from, clear_down, flush, get_diff}
use go_bitflow_collector.Ring.Slots.{slots}
use go_bitflow_collector.Ring.Refine.{IsValid, history_diff, get_diff_interval_refines}

module _ (l : LogbackType) where
  open l use {Value, is_negative, Logback}

  abbrev blank : TimedValue l
  blank = Ring.blank l

  abbrev pub IsEmptyAt : List (TimedValue l) → ℕ → Type 0
  IsEmptyAt values i = (get_or values i blank).val ≡ none

  -- A loop over filled slots empties them all, and runs to its end.
  clear_down-full :
      (values : List (TimedValue l)) (lo n : ℕ)
      → lo + n ≤ length values
      → ((i : ℕ) → i < lo + n → ¬ IsEmptyAt values i)
      → (values' : List (TimedValue l)) × (clear_down l values lo n ≡ some (true, values'))
        × (length values' ≡ length values)
        × ((i : ℕ) → lo ≤ i → i < lo + n → IsEmptyAt values' i)
        × ((i : ℕ) → lo + n ≤ i → get_or values' i blank ≡ get_or values i blank)
  unfolding clear_down
  clear_down-full values lo zero h full =
      (values, refl, refl, λ i a b. absurd (omega arith), λ i a. refl)
  clear_down-full values lo (suc n) h full =
      let slot = get_or values (lo + n) blank in
      let slot' : TimedValue l = record slot { val = none } in
      let values1 = set values (lo + n) slot' in
      let read = get_elem?-eq-get_or values (lo + n) blank (omega arith) in
      let size1 = length-set values (lo + n) slot' in
      let here = get_or-set_self values (lo + n) slot' blank (omega arith) in
      let (values', e, size, empty, kept) =
        clear_down-full values1 lo n (omega (arith, size1)) (λ i b q. full i (omega arith) (
          ap (λ (t : TimedValue l). t.val)
            (sym (get_or-set_ne values (lo + n) i slot' blank (λ r. absurd (omega arith))))
          ∙ q)) in
      elim (Option-cases slot.val) [
        | inl none_at ↦ absurd (full (lo + n) (omega arith) none_at)
        | inr (v, some_at) ↦ (
          values',
          ground (arith, read, some_at, e),
          size ∙ size1,
          λ i a b. elim (ℕ_discrete i (lo + n)) [
            | yes q ↦ rw q (ap (λ (t : TimedValue l). t.val) (kept (lo + n) (omega arith) ∙ here))
            | no q ↦ empty i a (omega arith)
          ],
          λ i a.
              kept i (omega arith)
              ∙ get_or-set_ne values (lo + n) i slot' blank (λ r. absurd (omega arith)),
        )
      ]

  -- A loop over empty slots changes nothing.
  clear_down-empty :
      (values : List (TimedValue l)) (lo n : ℕ)
      → lo + n ≤ length values
      → ((i : ℕ) → lo ≤ i → i < lo + n → IsEmptyAt values i)
      → (ran : Bool) × (clear_down l values lo n ≡ some (ran, values))
  unfolding clear_down
  clear_down-empty values lo zero h empty = (true, refl)
  clear_down-empty values lo (suc n) h empty =
      let read = get_elem?-eq-get_or values (lo + n) blank (omega arith) in
      (false, ground (arith, read, empty (lo + n)))

  -- The loop from a filled slot on top of empty ones.
  clear_down-top :
      (values : List (TimedValue l)) (k : ℕ)
      → suc k ≤ length values
      → ¬ IsEmptyAt values k
      → ((i : ℕ) → i < k → IsEmptyAt values i)
      → (ran : Bool) × (values' : List (TimedValue l)) × (clear_down l values 0 (suc k)
          ≡ some (ran, values'))
        × ((i : ℕ) → i < suc k → IsEmptyAt values' i)
  unfolding clear_down
  clear_down-top values k h full empty =
      let slot = get_or values k blank in
      let slot' : TimedValue l = record slot { val = none } in
      let values1 = set values k slot' in
      let read = get_elem?-eq-get_or values k blank (omega arith) in
      let top : 0 + k ≡ k = omega arith in
      let here = get_or-set_self values k slot' blank (omega arith) in
      let below : (i : ℕ) → i < k → IsEmptyAt values1 i = λ i b.
        ap (λ (t : TimedValue l). t.val)
          (get_or-set_ne values k i slot' blank (λ r. absurd (omega arith)))
        ∙ empty i b in
      let (ran, e) =
        clear_down-empty values1 0 k (omega (arith, length-set values k slot'))
          (λ i a b. below i (omega arith)) in
      elim (Option-cases slot.val) [
        | inl none_at ↦ absurd (full none_at)
        | inr (v, some_at) ↦ (
          ran,
          values1,
          ground (arith, top, read, some_at, e),
          λ i b. elim (ℕ_discrete i k) [
            | yes q ↦ rw q (ap (λ (t : TimedValue l). t.val) here)
            | no q ↦ below i (omega arith)
          ],
        )
      ]

  module _ (ring : ValueRing l) (v : IsValid l ring)
      (full : (i : ℕ) → i < length ring.values → ¬ IsEmptyAt ring.values i) where
    abbrev Forgotten : Type 0
    Forgotten =
        (values : List (TimedValue l)) × (flush l (sub_ℕ ring.head 2) ring
          ≡ some (record ring { values = values }))
        × ((i : ℕ) → i < length ring.values → IsEmptyAt values i)

    flush_at_one : ring.head ≡ 1 → Forgotten
    unfolding flush rounds_from
    flush_at_one e =
        let (values1, e1, size, empty, kept) =
          clear_down-full ring.values 0 (length ring.values) (omega arith)
            (λ i b. full i (omega arith)) in
        let (ran, e2) =
          clear_down-empty values1 ring.head (length values1 - ring.head)
            (omega (arith, v.in_range)) (λ i a b. empty i (omega arith) (omega arith)) in
        (values1, ground (arith, e, e1, e2), λ i b. empty i (omega arith) (omega arith))

    flush_at_zero : ring.head ≡ 0 → Forgotten
    unfolding flush rounds_from
    flush_at_zero e =
        let k = length ring.values - 1 in
        let (values1, e1, size, empty, kept) =
          clear_down-full ring.values 0 k (omega arith) (λ i b. full i (omega arith)) in
        let (ran, values2, e2, empty2) =
          clear_down-top values1 k (omega (arith, v.in_range))
            (λ q. full k (omega (arith, v.in_range)) (rw (kept k (omega arith)) at q))
            (λ i b. empty i (omega arith) (omega arith)) in
        let all : length values1 - ring.head ≡ suc k = omega (arith, v.in_range) in
        (values2, ground (arith, e, e1, e2, all), λ i b. empty2 i (omega arith))

  -- GetDiff on a valid full ring whose difference is negative, with the index of the next write
  -- below 2, returns the difference remembered before and empties every slot, the newest too.
  pub get_diff_forgets :
      (ring : ValueRing l)
      → IsValid l ring
      → ring.head < 2
      → ((i : ℕ) → i < length ring.values → ¬ IsEmptyAt ring.values i)
      → is_negative (history_diff l ring.interval (slots l ring)) ≡ true
      → (values : List (TimedValue l)) × (get_diff l ring
          ≡ some (ring.previous_diff, record ring { values = values }))
        × ((i : ℕ) → i < length ring.values → IsEmptyAt values i)
  unfolding get_diff
  get_diff_forgets ring v h full negative =
      let (values, e, empty) : Forgotten ring v full = elim (ℕ_discrete ring.head 0) [
        | yes at_zero ↦ flush_at_zero ring v full at_zero
        | no above ↦ flush_at_one ring v full (omega arith)
      ] in
      (values, rw (get_diff_interval_refines l ring.interval ring v) (simp (negative, e)), empty)
