-- ===== src/Psutil/ProcInfo.antt =====
-- psutil/process_infos.go and psutil/process_pcap.go: the values of one process. What gopsutil
-- returns is an argument; none is an error.
use go_bitflow_collector.Prelude.{
  ℕ, ◌+◌, ◌%◌, Bool, true, false, Option, none, some, List, [], ◌∷◌, ℤ, pos,
}
use go_bitflow_collector.Logback.{FloatOps, stored, logback}
use go_bitflow_collector.Ring
use go_bitflow_collector.Ring.{ValueRing, ValueRingFactory, ◌>>=◌}
use go_bitflow_collector.Pcap.{Text, Connection, word64}
use go_bitflow_collector.Psutil.Net
use go_bitflow_collector.Psutil.Net.{
  BaseNetIoCounters, NetIoCounters, IoCountersStat, new_base_net_io_counters, new_net_io_counters,
  StatRing,
}
use go_bitflow_collector.Psutil.ProcStatus.{proc_get_misc}

module _ (f : FloatOps) where
  open f use {Value, of_nat, sub, mul}

  pub record ProcessInfo : Type 0 where
    pub cpu : StatRing f
    pub cpu_jiffies : StatRing f
    pub io_read : StatRing f
    pub io_write : StatRing f
    pub io_total : StatRing f
    pub io_read_bytes : StatRing f
    pub io_write_bytes : StatRing f
    pub io_bytes_total : StatRing f
    pub ctx_switch_voluntary : StatRing f
    pub ctx_switch_involuntary : StatRing f
    pub net : NetIoCounters f
    pub net_pcap : BaseNetIoCounters f
    pub mem_rss : ℕ
    pub mem_vms : ℕ
    pub mem_swap : ℕ
    pub num_fds : ℤ
    pub num_threads : ℤ

  unfoldable pub new_process : ValueRingFactory (logback f) → ProcessInfo
  new_process factory =
      let ring = Ring.new_value_ring (logback f) factory in
      record {
        cpu = ring;
        cpu_jiffies = ring;
        io_read = ring;
        io_write = ring;
        io_total = ring;
        io_read_bytes = ring;
        io_write_bytes = ring;
        io_bytes_total = ring;
        ctx_switch_voluntary = ring;
        ctx_switch_involuntary = ring;
        net = new_net_io_counters f factory;
        net_pcap = new_base_net_io_counters f factory;
        mem_rss = 0;
        mem_vms = 0;
        mem_swap = 0;
        num_fds = pos 0;
        num_threads = pos 0;
      }

  abbrev pub add_value : ℤ → Value → StatRing f → Option (StatRing f)
  add_value now v ring = Ring.add (logback f) now (stored v) ring

  -- updateProc of the sub-collectors. The outer none is a panic; the flag says that no error is
  -- returned. `clock i` is the instant of the i-th write to a ring.

  -- `times` is what Times returns: Total() and Idle.
  unfoldable pub update_cpu :
      Value → (ℕ → ℤ) → Option (Value × Value) → ProcessInfo → Option (ProcessInfo × Bool)
  update_cpu cpu_factor clock none info = some (info, false)
  update_cpu cpu_factor clock (some (total, idle)) info = do
    let busy = sub total idle
    cpu ← add_value (clock 0) (mul busy cpu_factor) info.cpu
    cpu_jiffies ← add_value (clock 1) busy info.cpu_jiffies
    some (record info { cpu = cpu; cpu_jiffies = cpu_jiffies }, true)

  -- process.IOCountersStat
  pub record IoCounters : Type 0 where
    pub read_count : ℕ
    pub write_count : ℕ
    pub read_bytes : ℕ
    pub write_bytes : ℕ

  unfoldable pub update_disk :
      (ℕ → ℤ) → Option IoCounters → ProcessInfo → Option (ProcessInfo × Bool)
  update_disk clock none info = some (info, false)
  update_disk clock (some io) info = do
    io_read ← add_value (clock 0) (of_nat io.read_count) info.io_read
    io_write ← add_value (clock 1) (of_nat io.write_count) info.io_write
    io_total ←
        add_value (clock 2) (of_nat ((io.read_count + io.write_count) % word64)) info.io_total
    io_read_bytes ← add_value (clock 3) (of_nat io.read_bytes) info.io_read_bytes
    io_write_bytes ← add_value (clock 4) (of_nat io.write_bytes) info.io_write_bytes
    io_bytes_total ←
        add_value (clock 5) (of_nat ((io.read_bytes + io.write_bytes) % word64)) info.io_bytes_total
    some (
      record info {
        io_read = io_read;
        io_write = io_write;
        io_total = io_total;
        io_read_bytes = io_read_bytes;
        io_write_bytes = io_write_bytes;
        io_bytes_total = io_bytes_total;
      },
      true,
    )

  -- `mem` is RSS, VMS and Swap of MemoryInfo.
  unfoldable pub update_memory : Option (ℕ × ℕ × ℕ) → ProcessInfo → Option (ProcessInfo × Bool)
  update_memory none info = some (info, false)
  update_memory (some (rss, vms, swap)) info =
      some (record info { mem_rss = rss; mem_vms = vms; mem_swap = swap }, true)

  unfoldable pub update_net :
      (ℕ → ℤ) → Option (List IoCountersStat) → ProcessInfo → Option (ProcessInfo × Bool)
  update_net clock none info = some (info, false)
  update_net clock (some []) info = some (info, false)
  update_net clock (some (counters ∷ [])) info = do
    net ← Net.add f clock counters info.net
    some (record info { net = net }, true)
  update_net clock (some (first ∷ second ∷ counters)) info = some (info, false)

  unfoldable pub update_fd : Option ℤ → ProcessInfo → Option (ProcessInfo × Bool)
  update_fd none info = some (info, false)
  update_fd (some num) info = some (record info { num_fds = num }, true)

  -- `of_int` converts an int64 to a value.
  unfoldable pub update_misc :
      (ℤ → Value) → (ℕ → ℤ) → Option Text → ProcessInfo → Option (ProcessInfo × Bool)
  unfolding proc_get_misc
  update_misc of_int clock status info = elim (proc_get_misc status) [
    | none ↦ some (info, false)
    | some misc ↦ do
      voluntary ← add_value (clock 0) (of_int misc.voluntary) info.ctx_switch_voluntary
      involuntary ← add_value (clock 1) (of_int misc.involuntary) info.ctx_switch_involuntary
      some (
        record info {
          num_threads = misc.num_threads;
          ctx_switch_voluntary = voluntary;
          ctx_switch_involuntary = involuntary;
        },
        true,
      )
  ]

  -- The loop of processPcapCollector.updateProc over the connections of the process. `clock i` are
  -- the instants for the i-th connection.
  unfoldable pub add_connection :
      (ℕ → ℤ) → Connection → BaseNetIoCounters f → Option (BaseNetIoCounters f)
  add_connection clock con net = do
    bytes ← add_value (clock 0) (of_nat ((con.rx_bytes + con.tx_bytes) % word64)) net.bytes
    rx_bytes ← add_value (clock 1) (of_nat con.rx_bytes) net.rx_bytes
    tx_bytes ← add_value (clock 2) (of_nat con.tx_bytes) net.tx_bytes
    packets ← add_value (clock 3) (of_nat ((con.rx_packets + con.tx_packets) % word64)) net.packets
    rx_packets ← add_value (clock 4) (of_nat con.rx_packets) net.rx_packets
    tx_packets ← add_value (clock 5) (of_nat con.tx_packets) net.tx_packets
    some (record {
      bytes = bytes;
      packets = packets;
      rx_bytes = rx_bytes;
      rx_packets = rx_packets;
      tx_bytes = tx_bytes;
      tx_packets = tx_packets;
    })

  unfoldable pub add_connections :
      (ℕ → ℕ → ℤ) → ℕ → List Connection → BaseNetIoCounters f → Option (BaseNetIoCounters f)
  unfolding add_connection
  add_connections clock i [] net = some net
  add_connections clock i (con ∷ cons) net =
      add_connection (clock i) con net >>= λ net'. add_connections clock (i + 1) cons net'

  unfoldable pub update_pcap :
      (ℕ → ℕ → ℤ) → Option (List Connection) → ProcessInfo → Option (ProcessInfo × Bool)
  unfolding add_connections
  update_pcap clock none info = some (info, false)
  update_pcap clock (some cons) info = do
    net_pcap ← add_connections clock 0 cons info.net_pcap
    some (record info { net_pcap = net_pcap }, true)
