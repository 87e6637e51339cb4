-- ===== src/Logback.antt =====
-- The values that rings store: the interface LogbackValue of value_ring.go, and its implementation
-- StoredValue there. Floating-point numbers are a parameter.
use go_bitflow_collector.Prelude.{ℕ, Bool, true, false, ℤ}

-- What the code uses of float64: conversion of numbers, arithmetic, `x < 0`, `x <= y`, and the
-- `Seconds` of a duration in nanoseconds.
pub record FloatOps : Type 1 where
  pub Value : Type 0
  pub of_nat : ℕ → Value
  pub add : Value → Value → Value
  pub sub : Value → Value → Value
  pub mul : Value → Value → Value
  pub div : Value → Value → Value
  pub is_negative : Value → Bool
  pub le : Value → Value → Bool
  pub seconds : ℤ → Value

-- The interface LogbackValue, with the type of its values, and what the ring does with the
-- differences: the constant 0 and the test `val < 0`.
pub record LogbackType : Type 1 where
  pub Value : Type 0
  pub zero_value : Value
  pub is_negative : Value → Bool
  pub Logback : Type 0
  pub diff_value : Logback → Logback → ℤ → Value
  pub add_value : Logback → Logback → Logback

module _ (f : FloatOps) where
  open f use {Value, of_nat, add, sub, mul, div, is_negative, le, seconds}

  -- cpu.TimesStat, in the order of getAllBusy.
  pub record CpuTimes : Type 0 where
    pub user : Value
    pub system : Value
    pub nice : Value
    pub irq : Value
    pub softirq : Value
    pub steal : Value
    pub guest : Value
    pub guest_nice : Value
    pub idle : Value
    pub iowait : Value

  -- The types that implement LogbackValue: StoredValue, *StoredValue and *cpuTime.
  pub data LogbackValue : Type 0 where
    stored : Value → LogbackValue
    stored_ref : Value → LogbackValue
    cpu_time : CpuTimes → LogbackValue

  -- getAllBusy: all times, and the busy ones.
  unfoldable pub get_all_busy : CpuTimes → Value × Value
  get_all_busy t =
      let busy =
        add
          (add (add (add (add (add (add t.user t.system) t.nice) t.irq) t.softirq) t.steal) t.guest)
          t.guest_nice in
      (add (add busy t.idle) t.iowait, busy)

  unfoldable pub stored_diff : Value → LogbackValue → ℤ → Value
  stored_diff val (stored previous) interval = div (sub val previous) (seconds interval)
  stored_diff val (stored_ref previous) interval = div (sub val previous) (seconds interval)
  stored_diff val (cpu_time _) interval = of_nat 0

  unfoldable pub stored_add : Value → LogbackValue → LogbackValue
  stored_add val (stored other) = stored (add val other)
  stored_add val (stored_ref other) = stored (add val other)
  stored_add val (cpu_time _) = stored (of_nat 0)

  unfoldable pub cpu_diff : CpuTimes → LogbackValue → Value
  unfolding get_all_busy
  cpu_diff t (cpu_time previous) =
      let (all1, busy1) = get_all_busy previous in
      let (all2, busy2) = get_all_busy t in
      elim (le busy2 busy1) [
        | true ↦ of_nat 0
        | false ↦ elim (le all2 all1) [
          | true ↦ of_nat 1
          | false ↦ mul (div (sub busy2 busy1) (sub all2 all1)) (of_nat 100)
        ]
      ]
  cpu_diff t (stored _) = of_nat 0
  cpu_diff t (stored_ref _) = of_nat 0

  unfoldable pub cpu_add : CpuTimes → LogbackValue → LogbackValue
  cpu_add t (cpu_time o) = cpu_time (record {
    user = add t.user o.user;
    system = add t.system o.system;
    nice = add t.nice o.nice;
    irq = add t.irq o.irq;
    softirq = add t.softirq o.softirq;
    steal = add t.steal o.steal;
    guest = add t.guest o.guest;
    guest_nice = add t.guest_nice o.guest_nice;
    idle = add t.idle o.idle;
    iowait = add t.iowait o.iowait;
  })
  cpu_add t (stored _) = stored (of_nat 0)
  cpu_add t (stored_ref _) = stored (of_nat 0)

  -- Dynamic dispatch on the value's type. The methods of StoredValue serve *StoredValue too.
  unfoldable pub diff_value : LogbackValue → LogbackValue → ℤ → Value
  unfolding stored_diff cpu_diff
  diff_value (stored v) previous interval = stored_diff v previous interval
  diff_value (stored_ref v) previous interval = stored_diff v previous interval
  diff_value (cpu_time t) previous interval = cpu_diff t previous

  unfoldable pub add_value : LogbackValue → LogbackValue → LogbackValue
  unfolding stored_add cpu_add
  add_value (stored v) incoming = stored_add v incoming
  add_value (stored_ref v) incoming = stored_add v incoming
  add_value (cpu_time t) incoming = cpu_add t incoming

  abbrev pub logback : LogbackType
  logback = record {
    Value = Value;
    zero_value = of_nat 0;
    is_negative = is_negative;
    Logback = LogbackValue;
    diff_value = diff_value;
    add_value = add_value;
  }
