-- ===== src/Ring.antt =====
-- value_ring.go: a ring of timed values that answers with the change over an interval.
-- `none` is a run-time panic, an index out of range. The instant that time.Now returns is an
-- argument; instants and durations are integers, in nanoseconds.
pub mod Slots
pub mod Refine
pub mod Overflow
pub mod Forget
use go_bitflow_collector.Prelude.{
  ℕ, zero, suc, ◌+◌, ◌-◌, Bool, true, false, not, Option, none, some, List, ℤ, pos, is_zero, negsuc,
  ◌-ℤ◌, ltb_ℤ, sub_ℕ, ltb, leb, ◌==◌, if◌then◌else◌, length, get_elem?, set, replicate,
}
use go_bitflow_collector.Logback.{LogbackType}

infixl 5 ◌>>=◌
abbrev pub ◌>>=◌ {ℓ κ} : {A : Type ℓ} {B : Type κ} → Option A → (A → Option B) → Option B
none >>= f = none
some a >>= f = f a

module _ (l : LogbackType) where
  open l use {Value, zero_value, is_negative, Logback, diff_value, add_value}

  -- The zero value of the struct has the zero time and no value.
  pub record TimedValue : Type 0 where
    pub time : ℤ
    pub val : Option Logback

  abbrev pub blank : TimedValue
  blank = record { time = pos 0; val = none }

  pub record ValueRing : Type 0 where
    pub interval : ℤ
    pub values : List TimedValue
    pub head : ℕ
    pub aggregator : Option Logback
    pub previous_diff : Value

  pub record ValueRingFactory : Type 0 where
    pub size : ℕ
    pub interval : ℤ

  unfoldable pub new_value_ring : ValueRingFactory → ValueRing
  new_value_ring factory = record {
    interval = factory.interval;
    values = replicate factory.size blank;
    head = 0;
    aggregator = none;
    previous_diff = zero_value;
  }

  unfoldable pub add_to_head : Logback → ValueRing → ValueRing
  add_to_head v ring = record ring {
    aggregator = elim ring.aggregator [ none ↦ some v | some sum ↦ some (add_value sum v) ];
  }

  unfoldable pub flush_head : ℤ → ValueRing → Option ValueRing
  flush_head now ring =
      if ltb ring.head (length ring.values)
      then some (record ring {
        values = set ring.values ring.head (record { time = now; val = ring.aggregator });
        head = if leb (length ring.values - 1) ring.head then 0 else ring.head + 1;
        aggregator = none;
      })
      else none

  unfoldable pub add : ℤ → Logback → ValueRing → Option ValueRing
  unfolding add_to_head flush_head
  add now v ring = flush_head now (add_to_head v ring)

  unfoldable pub get_head : ValueRing → Option TimedValue
  get_head ring =
      get_elem? ring.values (if ring.head == 0 then length ring.values - 1 else ring.head - 1)

  unfoldable pub increment : ℤ → Logback → ValueRing → Option ValueRing
  unfolding get_head add
  increment now v ring = do
    cur ← get_head ring
    add now (elim cur.val [ none ↦ v | some c ↦ add_value c v ]) ring

  -- One step of the walk: whether to go on, and the result so far.
  unfoldable pub walk_ring : List TimedValue → ℤ → ℕ → TimedValue → Option (Bool × TimedValue)
  walk_ring values before i result = elim (get_elem? values i) [
    | none ↦ none
    | some slot ↦ elim slot.val [
      | none ↦ some (false, result)
      | some _ ↦ some (not (ltb_ℤ slot.time before), slot)
    ]
  ]

  -- `for i := lo + n - 1; i >= lo; i--`
  unfoldable pub walk_down : List TimedValue → ℤ → ℕ → ℕ → TimedValue → Option (Bool × TimedValue)
  unfolding walk_ring
  walk_down values before lo zero result = some (true, result)
  walk_down values before lo (suc n) result = elim (walk_ring values before (lo + n) result) [
    | none ↦ none
    | some (true, result') ↦ walk_down values before lo n result'
    | some (false, result') ↦ some (false, result')
  ]

  unfoldable pub get : ℤ → ValueRing → Option TimedValue
  get before ring = walk_down ring.values before 0 ring.head blank >>= λ (go_on, result).
      elim go_on [
        | false ↦ some result
        | true ↦
            walk_down ring.values before ring.head (length ring.values - ring.head) result
            >>= λ (_, result'). some result'
      ]

  -- The loop of `flush` over lo + n - 1 .. lo: whether it ran to its end, and the new values.
  unfoldable pub clear_down : List TimedValue → ℕ → ℕ → Option (Bool × List TimedValue)
  clear_down values lo zero = some (true, values)
  clear_down values lo (suc n) = elim (get_elem? values (lo + n)) [
    | none ↦ none
    | some slot ↦ elim slot.val [
      | none ↦ some (false, values)
      | some _ ↦ clear_down (set values (lo + n) (record slot { val = none })) lo n
    ]
  ]

  -- The number of rounds of the first loop: start + 1, after a negative start has wrapped.
  unfoldable pub rounds_from : ℤ → ℕ → ℕ
  rounds_from (pos start) size = start + 1
  rounds_from (negsuc k) size = size - k

  unfoldable pub flush : ℤ → ValueRing → Option ValueRing
  unfolding rounds_from
  flush start ring =
      clear_down ring.values 0 (rounds_from start (length ring.values)) >>= λ (go_on, values).
      elim go_on [
        | false ↦ some (record ring { values = values })
        | true ↦ clear_down values ring.head (length values - ring.head) >>= λ (_, values').
            some (record ring { values = values' })
      ]

  unfoldable pub diff_to_previous : TimedValue → Logback → TimedValue → Value
  diff_to_previous head current previous = elim previous.val [
    | none ↦ zero_value
    | some old ↦
        let interval = head.time -ℤ previous.time in
        if is_zero interval then zero_value else diff_value current old interval
  ]

  unfoldable pub get_diff_interval : ℤ → ValueRing → Option Value
  get_diff_interval before ring = get_head ring >>= λ head. elim head.val [
    | none ↦ some zero_value
    | some current ↦
        get (head.time -ℤ before) ring >>= λ previous. some (diff_to_previous head current previous)
  ]

  unfoldable pub get_diff : ValueRing → Option (Value × ValueRing)
  get_diff ring = get_diff_interval ring.interval ring >>= λ val. elim (is_negative val) [
    | true ↦ flush (sub_ℕ ring.head 2) ring >>= λ ring'. some (ring.previous_diff, ring')
    | false ↦ some (val, record ring { previous_diff = val })
  ]
