-- ===== src/Psutil/Net.antt =====
-- psutil/net_counters.go and psutil/net.go: the rings of a network interface.
use go_bitflow_collector.Prelude.{
  ℕ, ◌+◌, ◌%◌, Bool, true, false, Option, none, some, List, [], ◌∷◌, if◌then◌else◌, not, ◌==◌,
  length, ℤ,
}
use go_bitflow_collector.Logback.{FloatOps, stored, logback}
use go_bitflow_collector.Ring
use go_bitflow_collector.Ring.{ValueRing, ValueRingFactory, ◌>>=◌, new_value_ring}
use go_bitflow_collector.Pcap.{Text, word64}
use go_bitflow_collector.Psutil.{
  UpdateError, no_error, metrics_changed, error, find, has_name, store,
}

-- net.IOCountersStat of gopsutil; its counters are of type uint64.
pub record IoCountersStat : Type 0 where
  pub name : Text
  pub bytes_sent : ℕ
  pub bytes_recv : ℕ
  pub packets_sent : ℕ
  pub packets_recv : ℕ
  pub errin : ℕ
  pub errout : ℕ
  pub dropin : ℕ
  pub dropout : ℕ

module _ (f : FloatOps) where
  open f use {Value, of_nat}

  abbrev pub StatRing : Type 0
  StatRing = ValueRing (logback f)

  pub record BaseNetIoCounters : Type 0 where
    pub bytes : StatRing
    pub packets : StatRing
    pub rx_bytes : StatRing
    pub rx_packets : StatRing
    pub tx_bytes : StatRing
    pub tx_packets : StatRing

  abbrev new_ring : ValueRingFactory (logback f) → StatRing
  new_ring factory = new_value_ring (logback f) factory

  unfoldable pub new_base_net_io_counters : ValueRingFactory (logback f) → BaseNetIoCounters
  new_base_net_io_counters factory = record {
    bytes = new_ring factory;
    packets = new_ring factory;
    rx_bytes = new_ring factory;
    rx_packets = new_ring factory;
    tx_bytes = new_ring factory;
    tx_packets = new_ring factory;
  }

  -- collector.StoredValue of a uint64, and `+` on uint64.
  abbrev pub to_head : ℕ → StatRing → StatRing
  to_head n ring = Ring.add_to_head (logback f) (stored (of_nat n)) ring

  abbrev pub add64 : ℕ → ℕ → ℕ
  add64 a b = (a + b) % word64

  unfoldable pub base_add_to_head : IoCountersStat → BaseNetIoCounters → BaseNetIoCounters
  base_add_to_head stat c = record {
    bytes = to_head (add64 stat.bytes_sent stat.bytes_recv) c.bytes;
    packets = to_head (add64 stat.packets_sent stat.packets_recv) c.packets;
    rx_bytes = to_head stat.bytes_recv c.rx_bytes;
    rx_packets = to_head stat.packets_recv c.rx_packets;
    tx_bytes = to_head stat.bytes_sent c.tx_bytes;
    tx_packets = to_head stat.packets_sent c.tx_packets;
  }

  abbrev flush : ℤ → StatRing → Option StatRing
  flush now ring = Ring.flush_head (logback f) now ring

  -- `clock i` is the instant at which the i-th ring is flushed.
  unfoldable pub base_flush_head : (ℕ → ℤ) → BaseNetIoCounters → Option BaseNetIoCounters
  base_flush_head clock c = do
    bytes ← flush (clock 0) c.bytes
    packets ← flush (clock 1) c.packets
    rx_bytes ← flush (clock 2) c.rx_bytes
    rx_packets ← flush (clock 3) c.rx_packets
    tx_bytes ← flush (clock 4) c.tx_bytes
    tx_packets ← flush (clock 5) c.tx_packets
    some (record {
      bytes = bytes;
      packets = packets;
      rx_bytes = rx_bytes;
      rx_packets = rx_packets;
      tx_bytes = tx_bytes;
      tx_packets = tx_packets;
    })

  pub record NetIoCounters : Type 0 where
    pub base : BaseNetIoCounters
    pub errors : StatRing
    pub dropped : StatRing

  unfoldable pub new_net_io_counters : ValueRingFactory (logback f) → NetIoCounters
  unfolding new_base_net_io_counters
  new_net_io_counters factory = record {
    base = new_base_net_io_counters factory;
    errors = new_ring factory;
    dropped = new_ring factory;
  }

  unfoldable pub add_to_head : IoCountersStat → NetIoCounters → NetIoCounters
  unfolding base_add_to_head
  add_to_head stat c = record {
    base = base_add_to_head stat c.base;
    errors = to_head (add64 stat.errin stat.errout) c.errors;
    dropped = to_head (add64 stat.dropin stat.dropout) c.dropped;
  }

  unfoldable pub flush_head : (ℕ → ℤ) → NetIoCounters → Option NetIoCounters
  unfolding base_flush_head
  flush_head clock c = do
    base ← base_flush_head clock c.base
    errors ← flush (clock 6) c.errors
    dropped ← flush (clock 7) c.dropped
    some (record { base = base; errors = errors; dropped = dropped })

  unfoldable pub add : (ℕ → ℤ) → IoCountersStat → NetIoCounters → Option NetIoCounters
  unfolding add_to_head flush_head
  add clock stat c = flush_head clock (add_to_head stat c)

  -- The metrics of the counters; Metrics(prefix) reads the ring of each with GetDiff.
  pub data NetMetric : Type 0 where
    bytes packets rx_bytes rx_packets tx_bytes tx_packets errors dropped : NetMetric

  unfoldable pub ring_of : NetMetric → NetIoCounters → StatRing
  ring_of bytes c = c.base.bytes
  ring_of packets c = c.base.packets
  ring_of rx_bytes c = c.base.rx_bytes
  ring_of rx_packets c = c.base.rx_packets
  ring_of tx_bytes c = c.base.tx_bytes
  ring_of tx_packets c = c.base.tx_packets
  ring_of errors c = c.errors
  ring_of dropped c = c.dropped

  -- NetCollector.update: the new counters, by the names of the interfaces.
  abbrev Counters : Type 0
  Counters = List (Text × IoCountersStat)

  unfoldable pub all_known : Counters → List IoCountersStat → Bool
  all_known counters [] = true
  all_known counters (nic ∷ nics) =
      let rest = all_known counters nics in if not (has_name nic.name counters) then false else rest

  unfoldable pub store_all : List IoCountersStat → Counters → Counters
  store_all [] nics = nics
  store_all (nic ∷ list) nics = store_all list (store nic.name nic nics)

  unfoldable pub net_update :
      Bool → Option (List IoCountersStat) → Counters → Counters × UpdateError
  unfolding all_known store_all
  net_update check_change none counters = (counters, error)
  net_update check_change (some nics) counters =
      let updated : Counters × UpdateError = (store_all nics [], no_error) in
      if check_change
      then (if not (all_known counters nics)
          then (counters, metrics_changed)
          else if not (length counters == length nics)
          then (counters, metrics_changed)
          else updated)
      else updated

  -- psutilNetInterfaceCollector.Update. The outer none is a panic; the flag says that no error is
  -- returned.
  unfoldable pub add_all_to_head : Counters → NetIoCounters → NetIoCounters
  unfolding add_to_head
  add_all_to_head [] c = c
  add_all_to_head ((name, nic) ∷ nics) c = add_all_to_head nics (add_to_head nic c)

  unfoldable pub interface_update :
      Text → (ℕ → ℤ) → Counters → NetIoCounters → Option (NetIoCounters × Bool)
  unfolding add_all_to_head add flush_head
  interface_update [] clock counters c = do
    c' ← flush_head clock (add_all_to_head counters c)
    some (c', true)
  interface_update (b ∷ nic_name) clock counters c = elim (find (b ∷ nic_name) counters) [
    | none ↦ some (c, false)
    | some stat ↦ add clock stat c >>= λ c'. some (c', true)
  ]
