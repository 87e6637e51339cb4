-- ===== src/Ring/Refine.antt =====
-- The ring of value_ring.go refines a bounded history: adding a value drops the oldest, and the
-- difference is taken against the value that a search of the history finds.
use native.Mathlib.Decide.{dec_lt}
use mathlib.Core.List.{append-nil, append_assoc, head?}
use go_bitflow_collector.Prelude.{
  ℕ, zero, suc, ◌+◌, ◌-◌, ◌<◌, ◌≡◌, refl, ap, false, none, some, List, [], ◌∷◌, ◌++◌, ℤ, ◌-ℤ◌,
  length, get_or, set, take, arith, length-set, length-append, length-replicate,
  get_elem?-eq-get_or, get_or-set_self, leb, List-cases, inl, inr, get_elem?, ◌==◌, if◌then◌else◌,
}
use go_bitflow_collector.Logback.{LogbackType}
use go_bitflow_collector.Ring
use go_bitflow_collector.Ring.{
  TimedValue, ValueRing, ValueRingFactory, new_value_ring, add_to_head, flush_head, add, get_head,
  get, diff_to_previous, get_diff_interval, get_diff, increment,
}
use go_bitflow_collector.Ring.Slots.{
  slots_down, slots, previous, length-slots_down, slots_down-set_outside, slots_down-suc,
  walk_down-previous, previous-append,
}

take-append_left {ℓ} : {A : Type ℓ} (xs ys : List A) → take (length xs) (xs ++ ys) ≡ xs
take-append_left [] ys = refl
take-append_left (x ∷ xs) ys = ap (λ t. x ∷ t) (take-append_left xs ys)

-- The index of the next write.
pub next_head : ℕ → ℕ → ℕ
next_head head size = if leb size (suc head) then 0 else suc head

next_head-lt : (head size : ℕ) → suc head < size → next_head head size ≡ suc head
unfolding next_head
next_head-lt head size h = ground arith

next_head-last : (head size : ℕ) → size ≡ suc head → next_head head size ≡ 0
unfolding next_head
next_head-last head size h = ground arith

module _ (l : LogbackType) where
  open l use {Value, zero_value, is_negative, Logback, diff_value, add_value}

  abbrev blank : TimedValue l
  blank = Ring.blank l

  -- The index of the next write lies in the ring, which is not empty.
  pub record IsValid (ring : ValueRing l) : Type 0 where
    pub in_range : ring.head < length ring.values

  -- A new ring of positive length is valid, and has that many slots.
  pub new_value_ring-IsValid :
      (factory : ValueRingFactory l)
      → 0 < factory.size
      → IsValid (new_value_ring l factory)
        × (length (new_value_ring l factory).values ≡ factory.size)
  unfolding new_value_ring
  new_value_ring-IsValid factory h = omega (arith, length-replicate factory.size blank)

  -- The ring after a write of a value at an instant.
  abbrev pub flushed : ℤ → ValueRing l → ValueRing l
  flushed now ring = record ring {
    values = set ring.values ring.head (record { time = now; val = ring.aggregator });
    head = next_head ring.head (length ring.values);
    aggregator = none;
  }

  pub flush_head-eq :
      (now : ℤ) (ring : ValueRing l)
      → IsValid ring
      → flush_head l now ring ≡ some (flushed now ring)
  unfolding flush_head next_head
  flush_head-eq now ring v = ground arith

  pub flushed-IsValid : (now : ℤ) (ring : ValueRing l) → IsValid ring → IsValid (flushed now ring)
  unfolding next_head
  flushed-IsValid now ring v =
      ground
        (arith, length-set ring.values ring.head (record { time = now; val = ring.aggregator }))

  -- All slots but the oldest, which the next write replaces.
  abbrev newer : ValueRing l → List (TimedValue l)
  newer ring =
      slots_down l ring.values 0 ring.head
      ++ slots_down l ring.values (suc ring.head) (length ring.values - suc ring.head)

  take-slots :
      (ring : ValueRing l)
      → IsValid ring
      → take (length ring.values - 1) (slots l ring) ≡ newer ring
  take-slots ring v =
      let k = length ring.values - suc ring.head in
      let size : length (newer ring) ≡ length ring.values - 1 = omega (
        arith,
        length-append {0} (slots_down l ring.values 0 ring.head)
            (slots_down l ring.values (suc ring.head) k),
        length-slots_down l ring.values 0 ring.head,
        length-slots_down l ring.values (suc ring.head) k,
      ) in
      let e : length ring.values - ring.head ≡ suc k = omega arith in
      let last = get_or ring.values ring.head blank ∷ [] in
      rw (e, slots_down-suc, ← size, ← append_assoc) (take-append_left (newer ring) last)

  slots-flushed :
      (now : ℤ) (ring : ValueRing l)
      → IsValid ring
      → slots l (flushed now ring) ≡ record { time = now; val = ring.aggregator } ∷ newer ring
  slots-flushed now ring v =
      let slot : TimedValue l = record { time = now; val = ring.aggregator } in
      let values = set ring.values ring.head slot in
      let k = length ring.values - suc ring.head in
      let size = length-set ring.values ring.head slot in
      let wrote = get_or-set_self ring.values ring.head slot blank v.in_range in
      let below = slots_down-set_outside l ring.values ring.head slot 0 ring.head (omega arith) in
      let above =
        slots_down-set_outside l ring.values ring.head slot (suc ring.head) k (omega arith) in
      let top : 0 + ring.head ≡ ring.head = omega arith in
      elim (dec_lt (suc ring.head) (length ring.values)) [
        | yes more ↦
            let next = next_head-lt ring.head (length ring.values) more in
            rw (next, size, top, wrote, below, above)
        | no last ↦
            let full : length ring.values ≡ suc ring.head = omega arith in
            let next = next_head-last ring.head (length ring.values) full in
            let all : length values - 0 ≡ suc ring.head = omega (arith, size) in
            let rest : k ≡ 0 = omega arith in rw (next, all, top, wrote, below, rest, append-nil)
      ]

  -- FlushHead succeeds on a valid ring, keeps it valid, starts a new aggregate, keeps the
  -- interval, and makes the history of the ring the new value followed by all the old ones but the
  -- oldest.
  pub flush_head_refines :
      (now : ℤ) (ring : ValueRing l)
      → IsValid ring
      → (after : ValueRing l) × (flush_head l now ring ≡ some after)
        × IsValid after
        × (after.aggregator ≡ none)
        × (after.interval ≡ ring.interval)
        × (slots l after
            ≡ record { time = now; val = ring.aggregator }
              ∷ take (length ring.values - 1) (slots l ring))
  flush_head_refines now ring v = (
    flushed now ring,
    flush_head-eq now ring v,
    flushed-IsValid now ring v,
    refl,
    refl,
    rw (take-slots ring v) (slots-flushed now ring v),
  )

  pub length-slots :
      (ring : ValueRing l) → IsValid ring → length (slots l ring) ≡ length ring.values
  length-slots ring v =
      let k = length ring.values - ring.head in
      omega (
        arith,
        length-append {0} (slots_down l ring.values 0 ring.head)
            (slots_down l ring.values ring.head k),
        length-slots_down l ring.values 0 ring.head,
        length-slots_down l ring.values ring.head k,
      )

  -- The search of the ring is a search of its history.
  pub get-previous :
      (before : ℤ) (ring : ValueRing l)
      → IsValid ring
      → get l before ring ≡ some (previous l before (slots l ring) blank).1
  unfolding get
  get-previous before ring v =
      let lower = slots_down l ring.values 0 ring.head in
      let upper = slots_down l ring.values ring.head (length ring.values - ring.head) in
      let (ran, found) = previous l before lower blank in
      rw (previous-append l before lower upper blank) (
        ground (
          arith,
          walk_down-previous l ring.values before 0 ring.head blank,
          walk_down-previous l ring.values before ring.head (length ring.values - ring.head)
              (previous l before lower blank).1,
        ))

  newest-slots :
      (values : List (TimedValue l)) (head : ℕ)
      → head < length values
      → get_elem? values (if head == 0 then length values - 1 else head - 1)
        ≡ head? (slots_down l values 0 head ++ slots_down l values head (length values - head))
  newest-slots values zero h =
      let e : length values - 0 ≡ suc (length values - 1) = omega arith in
      let k : 0 + (length values - 1) ≡ length values - 1 = omega arith in
      rw (e, k) (get_elem?-eq-get_or values (length values - 1) blank (omega arith))
  newest-slots values (suc head) h =
      let e : suc head - 1 ≡ head = omega arith in
      let k : 0 + head ≡ head = omega arith in
      let n : (suc head == 0) ≡ false = ground arith in
      rw (n, e, k) (get_elem?-eq-get_or values head blank (omega arith))

  -- The head is the newest slot.
  pub get_head-slots : (ring : ValueRing l) → IsValid ring → get_head l ring ≡ head? (slots l ring)
  unfolding get_head
  get_head-slots ring v = newest-slots ring.values ring.head v.in_range

  -- The difference that a history shows over an interval.
  abbrev pub history_diff : ℤ → List (TimedValue l) → Value
  history_diff interval [] = zero_value
  history_diff interval (newest ∷ older) = elim newest.val [
    | none ↦ zero_value
    | some current ↦
        diff_to_previous l newest current
          (previous l (newest.time -ℤ interval) (newest ∷ older) blank).1
  ]

  -- On a valid ring getDiffInterval never fails, and its result is the difference that the history
  -- of the ring shows: the newest value against the newest one before the interval, or else the
  -- oldest value behind no empty slot.
  pub get_diff_interval_refines :
      (interval : ℤ) (ring : ValueRing l)
      → IsValid ring
      → get_diff_interval l interval ring ≡ some (history_diff interval (slots l ring))
  unfolding get_diff_interval
  get_diff_interval_refines interval ring v = elim (List-cases (slots l ring)) [
    | inl e ↦
        absurd (omega (arith, length-slots ring v, ap (λ (t : List (TimedValue l)). length t) e))
    | inr (newest, older, e) ↦
        rw (get_head-slots ring v, e)
          (ground (arith, e, get-previous (newest.time -ℤ interval) ring v))
  ]
