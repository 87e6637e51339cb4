-- ===== src/Ring/Slots.antt =====
-- The slots of a ring as a list, newest first, and what the loops of value_ring.go do to it.
use mathlib.Core.Path.{ap₂}
use go_bitflow_collector.Prelude.{
  ℕ, zero, suc, ◌+◌, ◌-◌, ◌≤◌, ◌<◌, ◌≡◌, refl, ap, Bool, true, false, none, some, List, [], ◌∷◌,
  ◌++◌, ℤ, ltb_ℤ, length, get_or, set, arith, get_elem?-eq-get_or, get_or-set_ne, ◌⊎◌,
}
use go_bitflow_collector.Logback.{LogbackType}
use go_bitflow_collector.Ring
use go_bitflow_collector.Ring.{TimedValue, ValueRing, walk_down}

module _ (l : LogbackType) where
  abbrev blank : TimedValue l
  blank = Ring.blank l

  -- values[lo + n - 1], …, values[lo]
  abbrev pub slots_down : List (TimedValue l) → ℕ → ℕ → List (TimedValue l)
  slots_down values lo zero = []
  slots_down values lo (suc n) = get_or values (lo + n) blank ∷ slots_down values lo n

  -- All slots, from the newest to the oldest.
  abbrev pub slots : ValueRing l → List (TimedValue l)
  slots ring =
      slots_down ring.values 0 ring.head
      ++ slots_down ring.values ring.head (length ring.values - ring.head)

  -- `previous before` of a history: the newest value before the instant, or else the oldest value
  -- that follows no empty slot. The flag says whether the walk ran through the whole history.
  abbrev pub previous : ℤ → List (TimedValue l) → TimedValue l → Bool × TimedValue l
  previous before [] result = (true, result)
  previous before (slot ∷ older) result = elim slot.val [
    | none ↦ (false, result)
    | some _ ↦ elim (ltb_ℤ slot.time before) [
      | true ↦ (false, slot)
      | false ↦ previous before older slot
    ]
  ]

  -- Clearing a history until its first empty slot. The flag says whether it ran through all of it.
  abbrev pub clear : List (TimedValue l) → Bool × List (TimedValue l)
  clear [] = (true, [])
  clear (slot ∷ older) = elim slot.val [
    | none ↦ (false, slot ∷ older)
    | some _ ↦ let (ran, cleared) = clear older in (ran, record slot { val = none } ∷ cleared)
  ]

  pub length-slots_down :
      (values : List (TimedValue l)) (lo n : ℕ) → length (slots_down values lo n) ≡ n
  length-slots_down values lo zero = refl
  length-slots_down values lo (suc n) = ap suc (length-slots_down values lo n)

  -- A write outside the range does not show in it.
  pub slots_down-set_outside :
      (values : List (TimedValue l)) (i : ℕ) (v : TimedValue l) (lo n : ℕ)
      → (i < lo) ⊎ (lo + n ≤ i)
      → slots_down (set values i v) lo n ≡ slots_down values lo n
  slots_down-set_outside values i v lo zero h = refl
  slots_down-set_outside values i v lo (suc n) h = cc (
    get_or-set_ne values i (lo + n) v blank (λ e. absurd (omega arith)),
    slots_down-set_outside values i v lo n (omega arith),
  )

  -- The oldest slot of a range stands at its end.
  pub slots_down-suc :
      (values : List (TimedValue l)) (lo n : ℕ)
      → slots_down values lo (suc n) ≡ slots_down values (suc lo) n ++ (get_or values lo blank ∷ [])
  slots_down-suc values lo zero = ap (λ k. get_or values k blank ∷ []) (omega arith)
  slots_down-suc values lo (suc n) =
      ap₂ ◌∷◌ (ap (λ k. get_or values k blank) (omega arith)) (slots_down-suc values lo n)

  pub slots_down-append :
      (values : List (TimedValue l)) (lo m n : ℕ)
      → slots_down values (lo + m) n ++ slots_down values lo m ≡ slots_down values lo (n + m)
  slots_down-append values lo m zero = ap (slots_down values lo) (omega arith)
  slots_down-append values lo m (suc n) =
      let e : lo + m + n ≡ lo + (n + m) = omega arith in
      let k : suc n + m ≡ suc (n + m) = omega arith in
      rw (k, e) (ap (λ t. get_or values (lo + (n + m)) blank ∷ t) (slots_down-append values lo m n))

  pub walk_down-previous :
      (values : List (TimedValue l)) (before : ℤ) (lo n : ℕ) (result : TimedValue l)
      → lo + n ≤ length values
      → walk_down l values before lo n result
        ≡ some (previous before (slots_down values lo n) result)
  unfolding walk_down
  walk_down-previous values before lo zero result h = refl
  walk_down-previous values before lo (suc n) result h =
      let slot = get_or values (lo + n) blank in
      ground (
        arith,
        get_elem?-eq-get_or values (lo + n) blank,
        walk_down-previous values before lo n slot,
      )

  pub previous-append :
      (before : ℤ) (newer older : List (TimedValue l)) (result : TimedValue l)
      → previous before (newer ++ older) result ≡ (
          let (ran, r) = previous before newer result in
          elim ran [ true ↦ previous before older r | false ↦ (false, r) ])
  previous-append before [] older result = refl
  previous-append before (slot ∷ newer) older result =
      ground (arith, previous-append before newer older slot)
