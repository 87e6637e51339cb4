-- ===== src/Libvirt/Rings.antt =====
-- libvirt/{vm_general,cpu,disk,net,memory}.go: the updates of the collectors of one machine that
-- put values into rings. What the driver returns is an argument; none is an error. Each Add of a
-- ring reads the clock: `clock i` is the instant of the i-th. An outer none is a panic of a ring.
use go_bitflow_collector.Prelude.{
  ℕ, ◌+◌, ◌%◌, Bool, true, false, Option, none, some, List, [], ◌∷◌, if◌then◌else◌, ◌==◌, ℤ,
}
use go_bitflow_collector.Logback.{FloatOps, LogbackType, stored, logback}
use go_bitflow_collector.Ring
use go_bitflow_collector.Ring.{ValueRing, ValueRingFactory, ◌>>=◌}
use go_bitflow_collector.Pcap.{Text, word64}
use go_bitflow_collector.Psutil.Net.{NetIoCounters, StatRing}
use go_bitflow_collector.Libvirt.{used_memory}
use go_bitflow_collector.Libvirt.Cpu.{cpu_val, cpu_logback}

pub record DomainInfo : Type 0 where
  pub cpu_time : ℕ
  pub max_mem : ℕ
  pub mem : ℕ

pub record VirDomainCpuStats : Type 0 where
  pub cpu_time : ℕ
  pub user_time : ℕ
  pub system_time : ℕ
  pub vcpu_time : ℕ

-- Counters of type int64 stand as their 64 bits, here and in the next record.
pub record VirDomainBlockStats : Type 0 where
  pub rd_req : ℕ
  pub wr_req : ℕ
  pub rd_bytes : ℕ
  pub wr_bytes : ℕ

pub record VirDomainInterfaceStats : Type 0 where
  pub rx_bytes : ℕ
  pub rx_packets : ℕ
  pub rx_errs : ℕ
  pub rx_drop : ℕ
  pub tx_bytes : ℕ
  pub tx_packets : ℕ
  pub tx_errs : ℕ
  pub tx_drop : ℕ

pub record VirDomainMemoryStat : Type 0 where
  pub available : ℕ
  pub unused : ℕ

-- `nanoseconds` converts interval.Nanoseconds() to a value, and `of_int64` the bits of an int64.
module _ (f : FloatOps) (nanoseconds : ℤ → f.Value) (of_int64 : ℕ → f.Value) where
  open f use {Value, of_nat, add, mul, div}

  abbrev cpu_values : LogbackType
  cpu_values = cpu_logback f nanoseconds

  abbrev pub CpuRing : Type 0
  CpuRing = ValueRing cpu_values

  abbrev add_cpu : ℤ → ℕ → CpuRing → Option CpuRing
  add_cpu now n ring = Ring.add cpu_values now (cpu_val n) ring

  pub record VmGeneralCollector : Type 0 where
    pub info : DomainInfo
    pub cpu : CpuRing

  -- Update: with an error, GetInfo still sets `info`, to what it returns beside the error.
  unfoldable pub general_update :
      ℤ → DomainInfo × Bool → VmGeneralCollector → Option (VmGeneralCollector × Bool)
  general_update now (info, ok) col =
      if ok
      then (do
        cpu ← add_cpu now info.cpu_time col.cpu
        some (record { info = info; cpu = cpu }, true))
      else some (record col { info = info }, false)

  pub record CpuCollector : Type 0 where
    pub cpu_total : CpuRing
    pub cpu_system : CpuRing
    pub cpu_user : CpuRing
    pub cpu_virtual : CpuRing

  unfoldable pub new_cpu_collector : ValueRingFactory cpu_values → CpuCollector
  new_cpu_collector factory = record {
    cpu_system = Ring.new_value_ring cpu_values factory;
    cpu_user = Ring.new_value_ring cpu_values factory;
    cpu_total = Ring.new_value_ring cpu_values factory;
    cpu_virtual = Ring.new_value_ring cpu_values factory;
  }

  unfoldable pub cpu_update :
      (ℕ → ℤ) → Option VirDomainCpuStats → CpuCollector → Option (CpuCollector × Bool)
  cpu_update clock none col = some (col, false)
  cpu_update clock (some stats) col = do
    total ← add_cpu (clock 0) stats.cpu_time col.cpu_total
    user ← add_cpu (clock 1) stats.user_time col.cpu_user
    system ← add_cpu (clock 2) stats.system_time col.cpu_system
    virtual ← add_cpu (clock 3) stats.vcpu_time col.cpu_virtual
    some (
      record { cpu_total = total; cpu_system = system; cpu_user = user; cpu_virtual = virtual },
      true,
    )

  -- The loops of readIo and of readIoBytes.
  unfoldable pub sum_io : (VirDomainBlockStats → ℕ) → List VirDomainBlockStats → Value → Value
  sum_io count [] result = result
  sum_io count (stats ∷ rest) result = sum_io count rest (add result (of_int64 (count stats)))

  abbrev Stored : LogbackType
  Stored = logback f

  unfoldable pub read_ring : ℤ → Value → ValueRing Stored → Option (Value × ValueRing Stored)
  read_ring now value ring = do
    ring' ← Ring.add Stored now (stored value) ring
    Ring.get_diff Stored ring'

  unfoldable pub read_io :
      ℤ → List VirDomainBlockStats → ValueRing Stored → Option (Value × ValueRing Stored)
  unfolding sum_io read_ring
  read_io now stats ring =
      read_ring now (sum_io (λ s. (s.rd_req + s.wr_req) % word64) stats (of_nat 0)) ring

  unfoldable pub read_io_bytes :
      ℤ → List VirDomainBlockStats → ValueRing Stored → Option (Value × ValueRing Stored)
  unfolding sum_io read_ring
  read_io_bytes now stats ring =
      read_ring now (sum_io (λ s. (s.rd_bytes + s.wr_bytes) % word64) stats (of_nat 0)) ring

  -- The loops of readAllocation, readCapacity and readPhysical, of the field `size`.
  unfoldable pub sum_sizes {ℓ} : {Info : Type ℓ} → (Info → ℕ) → List Info → Value → Value
  sum_sizes size [] result = result
  sum_sizes size (info ∷ rest) result = sum_sizes size rest (add result (of_nat (size info)))

  abbrev sum64 : ℕ → ℕ → Value
  sum64 a b = of_int64 ((a + b) % word64)

  -- One round of Update of the interface collector: each Add goes into a slot of its own.
  unfoldable pub add_interface :
      (ℕ → ℤ) → VirDomainInterfaceStats → NetIoCounters f → Option (NetIoCounters f)
  add_interface clock stats net =
      let push = λ (i : ℕ) (value : Value) (ring : StatRing f).
        Ring.add Stored (clock i) (stored value) ring in
      do
        bytes ← push 0 (sum64 stats.rx_bytes stats.tx_bytes) net.base.bytes
        packets ← push 1 (sum64 stats.rx_packets stats.tx_packets) net.base.packets
        rx_bytes ← push 2 (of_int64 stats.rx_bytes) net.base.rx_bytes
        rx_packets ← push 3 (of_int64 stats.rx_packets) net.base.rx_packets
        tx_bytes ← push 4 (of_int64 stats.tx_bytes) net.base.tx_bytes
        tx_packets ← push 5 (of_int64 stats.tx_packets) net.base.tx_packets
        errors ← push 6 (sum64 stats.rx_errs stats.tx_errs) net.errors
        dropped ← push 7 (sum64 stats.rx_drop stats.tx_drop) net.dropped
        some (record {
          base = record {
            bytes = bytes;
            packets = packets;
            rx_bytes = rx_bytes;
            rx_packets = rx_packets;
            tx_bytes = tx_bytes;
            tx_packets = tx_packets;
          };
          errors = errors;
          dropped = dropped;
        })

  -- Update of the interface collector; `round` is the number of the round.
  unfoldable pub interface_update :
      (ℕ → ℕ → ℤ)
      → (Text → Option VirDomainInterfaceStats)
      → ℕ
      → List Text
      → NetIoCounters f
      → Option (NetIoCounters f × Bool)
  unfolding add_interface
  interface_update clock stats_of round [] net = some (net, true)
  interface_update clock stats_of round (name ∷ interfaces) net = elim (stats_of name) [
    | none ↦ some (net, false)
    | some stats ↦ add_interface (clock round) stats net >>= λ net'.
        interface_update clock stats_of (round + 1) interfaces net'
  ]

  -- Update and readPercent of the memory collector.
  unfoldable pub memory_update :
      Option VirDomainMemoryStat → VirDomainMemoryStat → VirDomainMemoryStat × Bool
  memory_update none col = (col, false)
  memory_update (some stats) col = (stats, true)

  unfoldable pub read_percent : VirDomainMemoryStat → Value
  unfolding used_memory
  read_percent col =
      if col.available == 0
      then of_nat 0
      else mul (div (of_nat (used_memory col.available col.unused)) (of_nat col.available))
          (of_nat 100)
