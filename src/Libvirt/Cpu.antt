-- ===== src/Libvirt/Cpu.antt =====
-- libvirt/vm_general.go: LogbackCpuVal, a value of the rings that counts nanoseconds in a uint64.
use go_bitflow_collector.Prelude.{ℕ, ◌+◌, ◌-◌, ◌%◌, ℤ}
use go_bitflow_collector.Logback.{FloatOps, LogbackType}
use go_bitflow_collector.Pcap.{word64}

-- LogbackCpuVal, *LogbackCpuVal, or another type that implements LogbackValue.
pub data CpuLogback : Type 0 where
  cpu_val : ℕ → CpuLogback
  cpu_val_ref : ℕ → CpuLogback
  other_value : CpuLogback

-- `nanoseconds` converts interval.Nanoseconds() to a value.
module _ (f : FloatOps) (nanoseconds : ℤ → f.Value) where
  open f use {Value, of_nat, mul, div, is_negative}

  -- val - previous on uint64.
  abbrev pub sub64 : ℕ → ℕ → ℕ
  sub64 a b = (a + word64 - b) % word64

  unfoldable pub cpu_val_diff : ℕ → CpuLogback → ℤ → Value
  cpu_val_diff val (cpu_val previous) interval =
      mul (div (of_nat (sub64 val previous)) (nanoseconds interval)) (of_nat 100)
  cpu_val_diff val (cpu_val_ref previous) interval =
      mul (div (of_nat (sub64 val previous)) (nanoseconds interval)) (of_nat 100)
  cpu_val_diff val other_value interval = of_nat 0

  unfoldable pub cpu_val_add : ℕ → CpuLogback → CpuLogback
  cpu_val_add val (cpu_val previous) = cpu_val ((val + previous) % word64)
  cpu_val_add val (cpu_val_ref previous) = cpu_val ((val + previous) % word64)
  cpu_val_add val other_value = cpu_val 0

  -- The methods serve *LogbackCpuVal too; of another type nothing is known, and its methods are
  -- never called by these rings.
  unfoldable pub value_of : CpuLogback → ℕ
  value_of (cpu_val n) = n
  value_of (cpu_val_ref n) = n
  value_of other_value = 0

  abbrev pub cpu_logback : LogbackType
  cpu_logback = record {
    Value = Value;
    zero_value = of_nat 0;
    is_negative = is_negative;
    Logback = CpuLogback;
    diff_value = λ val previous interval. cpu_val_diff (value_of val) previous interval;
    add_value = λ val previous. cpu_val_add (value_of val) previous;
  }
