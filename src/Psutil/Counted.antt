-- ===== src/Psutil/Counted.antt =====
-- What NetIoCounters.Add of psutil/net_counters.go records.
use go_bitflow_collector.Prelude.{
  ℕ, ◌+◌, ◌-◌, ◌%◌, ◌≡◌, refl, arith, none, some, ◌∷◌, length, take, ℤ,
}
use go_bitflow_collector.Logback.{FloatOps, stored, logback}
use go_bitflow_collector.Ring
use go_bitflow_collector.Ring.{ValueRing, TimedValue}
use go_bitflow_collector.Ring.Slots.{slots}
use go_bitflow_collector.Ring.Refine.{IsValid, flush_head_refines}
use go_bitflow_collector.Pcap.{word64}
use go_bitflow_collector.Psutil.Net.{
  IoCountersStat, NetIoCounters, NetMetric, bytes, packets, rx_bytes, rx_packets, tx_bytes,
  tx_packets, errors, dropped, ring_of, add, add_to_head, base_add_to_head, flush_head,
  base_flush_head, StatRing, to_head,
}

module _ (f : FloatOps) where
  -- What a metric counts, and the place of its ring in the order of the writes.
  unfoldable pub amount : NetMetric f → IoCountersStat → ℕ
  amount bytes stat = (stat.bytes_sent + stat.bytes_recv) % word64
  amount packets stat = (stat.packets_sent + stat.packets_recv) % word64
  amount rx_bytes stat = stat.bytes_recv
  amount rx_packets stat = stat.packets_recv
  amount tx_bytes stat = stat.bytes_sent
  amount tx_packets stat = stat.packets_sent
  amount errors stat = (stat.errin + stat.errout) % word64
  amount dropped stat = (stat.dropin + stat.dropout) % word64

  unfoldable pub place : NetMetric f → ℕ
  place bytes = 0
  place packets = 1
  place rx_bytes = 2
  place rx_packets = 3
  place tx_bytes = 4
  place tx_packets = 5
  place errors = 6
  place dropped = 7

  -- Valid rings with nothing to flush.
  pub record IsIdle (ring : StatRing f) : Type 0 where
    pub valid : IsValid (logback f) ring
    pub empty : ring.aggregator ≡ none

  -- The ring has the amount as its newest value, before all the old ones but the oldest.
  pub record Records (now : ℤ) (n : ℕ) (ring after : StatRing f) : Type 0 where
    pub idle : IsIdle after
    pub slots_eq :
        slots (logback f) after
        ≡ record { time = now; val = some (stored (f.of_nat n)) }
          ∷ take (length ring.values - 1) (slots (logback f) ring)

  pub record_one :
      (now : ℤ) (n : ℕ) (ring : StatRing f)
      → IsIdle ring
      → (after : StatRing f) × (Ring.flush_head (logback f) now (to_head f n ring) ≡ some after)
        × Records now n ring after
  unfolding Ring.add_to_head
  record_one now n ring idle =
      let (after, run, valid, empty, _, history) =
        flush_head_refines (logback f) now (to_head f n ring)
          (record { in_range = idle.valid.in_range }) in
      (
        after,
        run,
        record {
          idle = record { valid = valid; empty = empty };
          slots_eq = ground (arith, idle.empty, history);
        },
      )

  -- Where all rings are valid and have nothing to flush, NetIoCounters.Add succeeds, and each ring
  -- of the counters records the amount of its metric at the instant of its write, as the newest
  -- value before all the old ones but the oldest; it is valid again and has nothing to flush.
  pub add-Records :
      (clock : ℕ → ℤ) (stat : IoCountersStat) (c : NetIoCounters f)
      → ((m : NetMetric f) → IsIdle (ring_of f m c))
      → (c' : NetIoCounters f) × (add f clock stat c ≡ some c')
        × ((m : NetMetric f)
            → Records (clock (place m)) (amount m stat) (ring_of f m c) (ring_of f m c'))
  unfolding add add_to_head base_add_to_head flush_head base_flush_head ring_of amount place
  add-Records clock stat c idle =
      let (r0, e0, p0) =
        record_one (clock 0) ((stat.bytes_sent + stat.bytes_recv) % word64) c.base.bytes
          (idle bytes) in
      let (r1, e1, p1) =
        record_one (clock 1) ((stat.packets_sent + stat.packets_recv) % word64) c.base.packets
          (idle packets) in
      let (r2, e2, p2) = record_one (clock 2) stat.bytes_recv c.base.rx_bytes (idle rx_bytes) in
      let (r3, e3, p3) =
        record_one (clock 3) stat.packets_recv c.base.rx_packets (idle rx_packets) in
      let (r4, e4, p4) = record_one (clock 4) stat.bytes_sent c.base.tx_bytes (idle tx_bytes) in
      let (r5, e5, p5) =
        record_one (clock 5) stat.packets_sent c.base.tx_packets (idle tx_packets) in
      let (r6, e6, p6) =
        record_one (clock 6) ((stat.errin + stat.errout) % word64) c.errors (idle errors) in
      let (r7, e7, p7) =
        record_one (clock 7) ((stat.dropin + stat.dropout) % word64) c.dropped (idle dropped) in
      let c' : NetIoCounters f = record {
        base = record {
          bytes = r0;
          packets = r1;
          rx_bytes = r2;
          rx_packets = r3;
          tx_bytes = r4;
          tx_packets = r5;
        };
        errors = r6;
        dropped = r7;
      } in
      (
        c',
        rw (e0, e1, e2, e3, e4, e5, e6, e7) refl,
        λ m.
            elim m
              as (λ (k : NetMetric f).
                Records (clock (place k)) (amount k stat) (ring_of f k c) (ring_of f k c')) [
                  | bytes ↦ p0
                  | packets ↦ p1
                  | rx_bytes ↦ p2
                  | rx_packets ↦ p3
                  | tx_bytes ↦ p4
                  | tx_packets ↦ p5
                  | errors ↦ p6
                  | dropped ↦ p7
                ],
      )
