-- ===== src/Psutil/LastConnection.antt =====
-- What the updateProc of psutil/process_pcap.go leaves of the connections of a process.
use go_bitflow_collector.Prelude.{
  ℕ, ◌+◌, ◌-◌, length, take, ◌%◌, ◌≡◌, true, some, List, [], ◌∷◌, ◌++◌, arith, ℤ,
}
use go_bitflow_collector.Logback.{FloatOps, stored, logback}
use go_bitflow_collector.Ring
use go_bitflow_collector.Ring.{TimedValue}
use go_bitflow_collector.Ring.Slots.{slots}
use go_bitflow_collector.Pcap.{Connection, word64}
use go_bitflow_collector.Psutil.Net.{BaseNetIoCounters, StatRing}
use go_bitflow_collector.Psutil.Counted.{IsIdle, Records, record_one}
use go_bitflow_collector.Psutil.ProcInfo.{ProcessInfo, add_connection, add_connections, update_pcap}

module _ (f : FloatOps) where
  -- All rings are valid and have nothing to flush.
  pub record AreIdle (net : BaseNetIoCounters f) : Type 0 where
    pub bytes : IsIdle f net.bytes
    pub packets : IsIdle f net.packets
    pub rx_bytes : IsIdle f net.rx_bytes
    pub rx_packets : IsIdle f net.rx_packets
    pub tx_bytes : IsIdle f net.tx_bytes
    pub tx_packets : IsIdle f net.tx_packets

  -- The newest value of the ring is the number.
  abbrev pub IsNewest : ℕ → StatRing f → Type 0
  IsNewest n ring =
      (time : ℤ) × (rest : List (TimedValue (logback f))) × (slots (logback f) ring
        ≡ record { time = time; val = some (stored (f.of_nat n)) } ∷ rest)

  pub record HasNewest (con : Connection) (net : BaseNetIoCounters f) : Type 0 where
    pub bytes : IsNewest ((con.rx_bytes + con.tx_bytes) % word64) net.bytes
    pub packets : IsNewest ((con.rx_packets + con.tx_packets) % word64) net.packets
    pub rx_bytes : IsNewest con.rx_bytes net.rx_bytes
    pub rx_packets : IsNewest con.rx_packets net.rx_packets
    pub tx_bytes : IsNewest con.tx_bytes net.tx_bytes
    pub tx_packets : IsNewest con.tx_packets net.tx_packets

  newest :
      {now : ℤ} {n : ℕ} {ring after : StatRing f} → Records f now n ring after → IsNewest n after
  newest {now} {ring} r = (now, take (length ring.values - 1) (slots (logback f) ring), r.slots_eq)

  add_connection-HasNewest :
      (clock : ℕ → ℤ) (con : Connection) (net : BaseNetIoCounters f)
      → AreIdle net
      → (net' : BaseNetIoCounters f) × (add_connection f clock con net ≡ some net')
        × AreIdle net'
        × HasNewest con net'
  unfolding add_connection Ring.add
  add_connection-HasNewest clock con net idle =
      let (r0, e0, p0) =
        record_one f (clock 0) ((con.rx_bytes + con.tx_bytes) % word64) net.bytes idle.bytes in
      let (r1, e1, p1) = record_one f (clock 1) con.rx_bytes net.rx_bytes idle.rx_bytes in
      let (r2, e2, p2) = record_one f (clock 2) con.tx_bytes net.tx_bytes idle.tx_bytes in
      let (r3, e3, p3) =
        record_one f (clock 3) ((con.rx_packets + con.tx_packets) % word64) net.packets
          idle.packets in
      let (r4, e4, p4) = record_one f (clock 4) con.rx_packets net.rx_packets idle.rx_packets in
      let (r5, e5, p5) = record_one f (clock 5) con.tx_packets net.tx_packets idle.tx_packets in
      (
        record {
          bytes = r0;
          packets = r3;
          rx_bytes = r1;
          rx_packets = r4;
          tx_bytes = r2;
          tx_packets = r5;
        },
        ground (arith, e0, e1, e2, e3, e4, e5),
        record {
          bytes = p0.idle;
          packets = p3.idle;
          rx_bytes = p1.idle;
          rx_packets = p4.idle;
          tx_bytes = p2.idle;
          tx_packets = p5.idle;
        },
        record {
          bytes = newest p0;
          packets = newest p3;
          rx_bytes = newest p1;
          rx_packets = newest p4;
          tx_bytes = newest p2;
          tx_packets = newest p5;
        },
      )

  add_connections-HasNewest :
      (clock : ℕ → ℕ → ℤ) (i : ℕ) (before : List Connection) (con : Connection)
      → (net : BaseNetIoCounters f) → AreIdle net
      → (net' : BaseNetIoCounters f) × (add_connections f clock i (before ++ con ∷ []) net
          ≡ some net')
        × AreIdle net'
        × HasNewest con net'
  unfolding add_connections
  add_connections-HasNewest clock i [] con net idle =
      let (net', e, idle', newest') = add_connection-HasNewest (clock i) con net idle in
      (net', ground (arith, e), idle', newest')
  add_connections-HasNewest clock i (first ∷ before) con net idle =
      let (net1, e, idle1, _) = add_connection-HasNewest (clock i) first net idle in
      let (net', e', idle', newest') =
        add_connections-HasNewest clock (i + 1) before con net1 idle1 in
      (net', ground (arith, e, e'), idle', newest')

  -- Where the rings of the process are valid and have nothing to flush, updateProc succeeds on
  -- connections of which `con` is the last, and changes nothing but these rings: the newest value
  -- of each is that of the last connection alone, whatever connections come before it; the rings
  -- are valid again and have nothing to flush.
  pub update_pcap-HasNewest :
      (clock : ℕ → ℕ → ℤ) (before : List Connection) (con : Connection) (info : ProcessInfo f)
      → AreIdle info.net_pcap
      → (net : BaseNetIoCounters f) × (update_pcap f clock (some (before ++ con ∷ [])) info
          ≡ some (record info { net_pcap = net }, true))
        × AreIdle net
        × HasNewest con net
  unfolding update_pcap
  update_pcap-HasNewest clock before con info idle =
      let (net, e, idle', newest') =
        add_connections-HasNewest clock 0 before con info.net_pcap idle in
      (net, ground (arith, e), idle', newest')
