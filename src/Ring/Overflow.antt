-- ===== src/Ring/Overflow.antt =====
-- GetDiff of value_ring.go when the difference is negative, and the `flush` that it then makes.
use mathlib.Core.Path.{ap₂}
use go_bitflow_collector.Prelude.{
  ℕ, zero, suc, ◌+◌, ◌-◌, ◌≤◌, ◌<◌, ◌≡◌, refl, ap, ◌∙◌, ◌⊎◌, inl, inr, Bool, true, false, none,
  some, List, [], ◌∷◌, ◌++◌, ℤ, sub_ℕ, length, get_or, set, arith, length-set, get_elem?-eq-get_or,
  get_or-set_self, get_or-set_ne, Bool-cases, Option-cases,
}
use go_bitflow_collector.Logback.{LogbackType}
use go_bitflow_collector.Ring
use go_bitflow_collector.Ring.{TimedValue, ValueRing, rounds_from, clear_down, flush, get_diff}
use go_bitflow_collector.Ring.Slots.{slots_down, slots, clear, slots_down-set_outside}
use go_bitflow_collector.Ring.Refine.{IsValid, history_diff, get_diff_interval_refines}

module _ (l : LogbackType) where
  open l use {Value, is_negative, Logback}

  abbrev blank : TimedValue l
  blank = Ring.blank l

  -- What a loop of `flush` has done to the values from `lo` on, `n` of them.
  record Cleared (values : List (TimedValue l)) (lo n : ℕ) (ran : Bool)
      (values' : List (TimedValue l)) : Type 0 where
    size : length values' ≡ length values
    outside : (i : ℕ) → (i < lo) ⊎ (lo + n ≤ i) → get_or values' i blank ≡ get_or values i blank
    inside : (ran, slots_down l values' lo n) ≡ clear l (slots_down l values lo n)

  -- A round that clears a slot, and the rounds after it.
  clear_round :
      (values : List (TimedValue l)) (lo n : ℕ) (v : Logback) (ran : Bool)
      (values' : List (TimedValue l))
      → lo + suc n ≤ length values
      → (get_or values (lo + n) blank).val ≡ some v
      → Cleared
          (set values (lo + n) (record (get_or values (lo + n) blank) { val = none }))
          lo
          n
          ran
          values'
      → Cleared values lo (suc n) ran values'
  clear_round values lo n v ran values' h e c =
      let slot : TimedValue l = record (get_or values (lo + n) blank) { val = none } in
      let here : get_or values' (lo + n) blank ≡ slot =
        c.outside (lo + n) (omega arith)
        ∙ get_or-set_self values (lo + n) slot blank (omega arith) in
      let same = slots_down-set_outside l values (lo + n) slot lo n (omega arith) in
      record {
        size = c.size ∙ length-set values (lo + n) slot;
        outside = λ i o.
            c.outside i (omega arith)
            ∙ get_or-set_ne values (lo + n) i slot blank (λ q. absurd (omega arith));
        inside = ground (arith, e, here, same, c.inside);
      }

  clear_down-Cleared :
      (values : List (TimedValue l)) (lo n : ℕ)
      → lo + n ≤ length values
      → (ran : Bool) × (values' : List (TimedValue l)) × (clear_down l values lo n
          ≡ some (ran, values'))
        × Cleared values lo n ran values'
  unfolding clear_down
  clear_down-Cleared values lo zero h =
      (true, values, refl, record { size = refl; outside = λ i o. refl; inside = refl })
  clear_down-Cleared values lo (suc n) h =
      let slot = get_or values (lo + n) blank in
      let read = get_elem?-eq-get_or values (lo + n) blank (omega arith) in
      elim (Option-cases slot.val) [
        | inl e ↦ (
          false,
          values,
          ground (arith, read),
          record { size = refl; outside = λ i o. refl; inside = rw (e, clear) },
        )
        | inr (v, e) ↦
            let slot' : TimedValue l = record slot { val = none } in
            let (ran, values', e', c) =
              clear_down-Cleared (set values (lo + n) slot') lo n
                (omega (arith, length-set values (lo + n) slot')) in
            (ran, values', ground (arith, read), clear_round values lo n v ran values' h e c)
      ]

  clear-append :
      (newer older : List (TimedValue l))
      → clear l (newer ++ older) ≡ (
          let (ran, newer') = clear l newer in
          elim ran [
            | true ↦ let (ran', older') = clear l older in (ran', newer' ++ older')
            | false ↦ (false, newer' ++ older)
          ])
  clear-append [] older = refl
  clear-append (slot ∷ newer) older = elim (Option-cases slot.val) [
    | inl e ↦ ground (arith, e)
    | inr (v, e) ↦ ground (arith, e, clear-append newer older)
  ]

  -- Values that agree on a range show the same slots there.
  slots_down-same :
      (values values' : List (TimedValue l)) (lo n : ℕ)
      → ((i : ℕ) → lo ≤ i → i < lo + n → get_or values' i blank ≡ get_or values i blank)
      → slots_down l values' lo n ≡ slots_down l values lo n
  slots_down-same values values' lo zero h = refl
  slots_down-same values values' lo (suc n) h =
      ap₂ ◌∷◌ (h (lo + n) (omega arith) (omega arith))
        (slots_down-same values values' lo n (λ i a b. h i a (omega arith)))

  -- `flush` over the indices below `n`, then over those from the head on, clears their slots until
  -- the first empty one, and keeps the others.
  flush_parts :
      (ring : ValueRing l) (start : ℤ) (n : ℕ)
      → IsValid l ring
      → rounds_from l start (length ring.values) ≡ n
      → n ≤ ring.head
      → (values' : List (TimedValue l)) × (flush l start ring
          ≡ some (record ring { values = values' }))
        × (length values' ≡ length ring.values)
        × ((i : ℕ) → n ≤ i → i < ring.head → get_or values' i blank ≡ get_or ring.values i blank)
        × (slots_down l values' 0 n
              ++ slots_down l values' ring.head (length ring.values - ring.head)
            ≡ (clear l (
                slots_down l ring.values 0 n
                ++ slots_down l ring.values ring.head (length ring.values - ring.head))).1)
  unfolding flush
  flush_parts ring start n v e h =
      let m = length ring.values - ring.head in
      let (ran, values1, e1, c1) = clear_down-Cleared ring.values 0 n (omega (arith, v.in_range)) in
      let (ran', values2, e2, c2) =
        clear_down-Cleared values1 ring.head m (omega (arith, v.in_range, c1.size)) in
      let size1 : length values1 - ring.head ≡ m = omega (arith, c1.size) in
      let upper =
        slots_down-same ring.values values1 ring.head m (λ i a b. c1.outside i (omega arith)) in
      let lower = slots_down-same values1 values2 0 n (λ i a b. c2.outside i (omega arith)) in
      let split =
        clear-append (slots_down l ring.values 0 n) (slots_down l ring.values ring.head m) in
      elim (Bool-cases ran) [
        | inl t ↦ (
          values2,
          ground (arith, e, e1, e2, t, size1),
          c2.size ∙ c1.size,
          λ i a b. c2.outside i (omega arith) ∙ c1.outside i (omega arith),
          rw split (ground (arith, c1.inside, c2.inside, upper, lower, t)),
        )
        | inr f ↦ (
          values1,
          ground (arith, e, e1, f),
          c1.size,
          λ i a b. c1.outside i (omega arith),
          rw split (ground (arith, c1.inside, upper, f)),
        )
      ]

  slots_down-pos :
      (values : List (TimedValue l)) (n : ℕ)
      → 0 < n
      → slots_down l values 0 n ≡ get_or values (n - 1) blank ∷ slots_down l values 0 (n - 1)
  slots_down-pos values zero h = absurd (omega arith)
  slots_down-pos values (suc n) h =
      let e : suc n - 1 ≡ n = omega arith in let k : 0 + n ≡ n = omega arith in rw (e, k)

  rounds-head : (head size : ℕ) → 2 ≤ head → rounds_from l (sub_ℕ head 2) size ≡ head - 1
  unfolding rounds_from
  rounds-head head size h = ground arith

  -- GetDiff on a valid ring whose difference is negative, with the index of the next write at
  -- least 2, returns the difference remembered before, keeps the newest slot, and empties the
  -- older slots until the first empty one.
  pub get_diff_negative :
      (ring : ValueRing l)
      → IsValid l ring
      → 2 ≤ ring.head
      → is_negative (history_diff l ring.interval (slots l ring)) ≡ true
      → (after : ValueRing l) × (newest : TimedValue l) × (older : List (TimedValue l)) × (get_diff
            l ring
          ≡ some (ring.previous_diff, after))
        × (slots l ring ≡ newest ∷ older)
        × (slots l after ≡ newest ∷ (clear l older).1)
  unfolding get_diff
  get_diff_negative ring v h negative =
      let n = ring.head - 1 in
      let m = length ring.values - ring.head in
      let (values', e, size, kept, cleared) =
        flush_parts ring (sub_ℕ ring.head 2) n v (rounds-head ring.head _ h) (omega arith) in
      let same = kept n (omega arith) (omega arith) in
      let before = slots_down-pos ring.values ring.head (omega arith) in
      let after = slots_down-pos values' ring.head (omega arith) in
      (
        record ring { values = values' },
        get_or ring.values n blank,
        slots_down l ring.values 0 n ++ slots_down l ring.values ring.head m,
        rw (get_diff_interval_refines l ring.interval ring v) (simp (negative, e)),
        rw before,
        rw (after, size, same) (ap (λ t. get_or ring.values n blank ∷ t) cleared),
      )
