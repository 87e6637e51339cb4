-- ===== src/Psutil/Host.antt =====
-- psutil/{cpu,load,memory}.go and mock/collector.go: the collectors that read a few values. What
-- gopsutil returns is an argument.
use go_bitflow_collector.Prelude.{
  ℕ, suc, Bool, true, false, Option, none, some, List, [], ◌∷◌, if◌then◌else◌, leb, ℤ,
}
use go_bitflow_collector.Logback.{FloatOps, CpuTimes, get_all_busy, cpu_time, stored, logback}
use go_bitflow_collector.Ring
use go_bitflow_collector.Ring.{ValueRingFactory, ◌>>=◌}
use go_bitflow_collector.Psutil.Net.{StatRing}

module _ (f : FloatOps) where
  open f use {Value, of_nat, mul}

  pub record CpuCollector : Type 0 where
    pub cpu_times : StatRing f
    pub cpu_jiffies : StatRing f

  unfoldable pub cpu_init : ValueRingFactory (logback f) → CpuCollector
  cpu_init factory = record {
    cpu_times = Ring.new_value_ring (logback f) factory;
    cpu_jiffies = Ring.new_value_ring (logback f) factory;
  }

  -- CpuCollector.Update: the outer none is a panic, and the flag says that no error is returned; no
  -- times are an error. `now` and `later` are the instants of the two writes.
  unfoldable pub cpu_update :
      ℤ → ℤ → Option (List (CpuTimes f)) → CpuCollector → Option (CpuCollector × Bool)
  cpu_update now later none col = some (col, false)
  cpu_update now later (some []) col = some (col, false)
  cpu_update now later (some (times ∷ [])) col = do
    cpu_times ← Ring.add (logback f) now (cpu_time times) col.cpu_times
    cpu_jiffies ← Ring.add (logback f) later (stored (get_all_busy f times).1) col.cpu_jiffies
    some (record { cpu_times = cpu_times; cpu_jiffies = cpu_jiffies }, true)
  cpu_update now later (some (first ∷ second ∷ times)) col = some (col, false)

  -- load.AvgStat
  pub record AvgStat : Type 0 where
    pub load1 : Value
    pub load5 : Value
    pub load15 : Value

  -- LoadCollector.Update: `load_avg` is none for nil, and the flag says that there is no error.
  unfoldable pub load_update : Option AvgStat → Bool → AvgStat × Bool
  load_update (some load_avg) true = (load_avg, true)
  load_update (some load_avg) false =
      (record { load1 = of_nat 0; load5 = of_nat 0; load15 = of_nat 0 }, false)
  load_update none ok = (record { load1 = of_nat 0; load5 = of_nat 0; load15 = of_nat 0 }, ok)

  -- mem.VirtualMemoryStat: what the readers use.
  pub record VirtualMemoryStat : Type 0 where
    pub available : ℕ
    pub used : ℕ
    pub used_percent : Value

  -- MemCollector.Update, likewise.
  unfoldable pub memory_update : Option VirtualMemoryStat → Bool → VirtualMemoryStat × Bool
  memory_update (some memory) true = (memory, true)
  memory_update (some memory) false =
      (record { available = 0; used = 0; used_percent = of_nat 0 }, false)
  memory_update none ok = (record { available = 0; used = 0; used_percent = of_nat 0 }, ok)

  -- Collector.Update of the mock: `val` is the value that its root has taken over.
  unfoldable pub mock_update : ℤ → Value → ℕ → StatRing f → Option (StatRing f)
  mock_update now val factor ring = Ring.add (logback f) now (stored (mul val (of_nat factor))) ring

-- One step of the goroutine that counts `externalVal` up.
abbrev max_mock_val : ℕ
max_mock_val = 200

unfoldable pub increment : ℕ → ℕ
increment external_val = let next = suc external_val in if leb max_mock_val next then 2 else next
