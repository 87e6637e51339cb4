-- ===== src/Ovsdb/Recorded.antt =====
-- What the update of an interface in ovsdb/interface.go records.
use go_bitflow_collector.Prelude.{
  ℕ, ◌-◌, ◌≡◌, refl, ap, ◌∙◌, Option, none, some, List, [], ◌∷◌, length, take, ℤ, Option-cases, inl,
  inr,
}
use go_bitflow_collector.Logback.{FloatOps, LogbackValue, stored, stored_add, add_value, logback}
use go_bitflow_collector.Ring
use go_bitflow_collector.Ring.Slots.{slots}
use go_bitflow_collector.Ring.Refine.{flush_head_refines}
use go_bitflow_collector.Pcap.{Text}
use go_bitflow_collector.Psutil.{find}
use go_bitflow_collector.Psutil.Net.{
  NetIoCounters, NetMetric, bytes, packets, rx_bytes, rx_packets, tx_bytes, tx_packets, errors,
  dropped, ring_of, StatRing,
}
use go_bitflow_collector.Psutil.Counted.{IsIdle}
use go_bitflow_collector.Ovsdb.{
  Stats, add_values, fill_values, interface_update, error_names, dropped_names, bytes_names,
  packets_names, rx, tx, bytes_key, packets_key,
}

module _ (f : FloatOps) where
  abbrev cons_some : Option f.Value → List f.Value → List f.Value
  cons_some none vs = vs
  cons_some (some v) vs = v ∷ vs

  -- The statistics that are there, in the order of the names, and their sum.
  abbrev pub present : Stats f → List Text → List f.Value
  present stats [] = []
  present stats (name ∷ names) = cons_some (find name stats) (present stats names)

  abbrev pub sum_from : f.Value → List f.Value → f.Value
  sum_from s [] = s
  sum_from s (v ∷ vs) = sum_from (f.add s v) vs

  abbrev pub total : List f.Value → Option f.Value
  total [] = none
  total (v ∷ vs) = some (sum_from v vs)

  -- The statistics of a metric, and the place of its ring in the order of the writes.
  abbrev pub names_of : NetMetric f → List Text
  names_of bytes = bytes_names
  names_of packets = packets_names
  names_of rx_bytes = rx bytes_key ∷ []
  names_of rx_packets = rx packets_key ∷ []
  names_of tx_bytes = tx bytes_key ∷ []
  names_of tx_packets = tx packets_key ∷ []
  names_of errors = error_names
  names_of dropped = dropped_names

  abbrev pub place : NetMetric f → ℕ
  place errors = 0
  place dropped = 1
  place bytes = 2
  place packets = 3
  place rx_bytes = 4
  place rx_packets = 5
  place tx_bytes = 6
  place tx_packets = 7

  abbrev store_some : Option f.Value → Option (LogbackValue f)
  store_some none = none
  store_some (some v) = some (stored v)

  -- The ring has the value, if there is one, as its newest, before all the old ones but the
  -- oldest.
  pub record RecordsValue (now : ℤ) (value : Option f.Value) (ring after : StatRing f)
      : Type 0 where
    pub idle : IsIdle f after
    pub slots_eq :
        slots (logback f) after
        ≡ record { time = now; val = store_some value }
          ∷ take (length ring.values - 1) (slots (logback f) ring)

  abbrev with_sum : StatRing f → Option f.Value → StatRing f
  with_sum ring value = record ring { aggregator = store_some value }

  add_values-some :
      (stats : Stats f) (names : List Text) (ring : StatRing f) (s : f.Value)
      → add_values f stats names (with_sum ring (some s))
        ≡ with_sum ring (some (sum_from s (present stats names)))
  unfolding add_values Ring.add_to_head add_value stored_add
  add_values-some stats [] ring s = refl
  add_values-some stats (name ∷ names) ring s = elim (Option-cases (find name stats)) [
    | inl e ↦ rw e (add_values-some stats names ring s)
    | inr (v, e) ↦ rw e (add_values-some stats names ring (f.add s v))
  ]

  add_values-none :
      (stats : Stats f) (names : List Text) (ring : StatRing f)
      → add_values f stats names (with_sum ring none) ≡ with_sum ring (total (present stats names))
  unfolding add_values Ring.add_to_head
  add_values-none stats [] ring = refl
  add_values-none stats (name ∷ names) ring = elim (Option-cases (find name stats)) [
    | inl e ↦ rw e (add_values-none stats names ring)
    | inr (v, e) ↦ rw e (add_values-some stats names ring v)
  ]

  idle_none : (ring : StatRing f) → IsIdle f ring → ring ≡ with_sum ring none
  idle_none ring idle = λ i. record ring { aggregator = idle.empty i }

  fill_values-Records :
      (now : ℤ) (stats : Stats f) (names : List Text) (ring : StatRing f)
      → IsIdle f ring
      → (after : StatRing f) × (fill_values f stats names now ring ≡ some after)
        × RecordsValue now (total (present stats names)) ring after
  unfolding fill_values
  fill_values-Records now stats names ring idle =
      let filled = with_sum ring (total (present stats names)) in
      let same : add_values f stats names ring ≡ filled =
        ap (add_values f stats names) (idle_none ring idle) ∙ add_values-none stats names ring in
      let (after, run, valid, empty, _, history) =
        flush_head_refines (logback f) now filled (record { in_range = idle.valid.in_range }) in
      (
        after,
        rw same run,
        record { idle = record { valid = valid; empty = empty }; slots_eq = history },
      )

  -- An update of an interface whose rings are all valid and have nothing to flush succeeds, and
  -- each ring records, at the instant of its write, the sum of those statistics of its metric that
  -- the row has, in the order of their names, or no value if it has none of them, before all old
  -- values but the oldest; it is valid again and has nothing to flush.
  pub interface_update-Records :
      (clock : ℕ → ℤ) (stats : Stats f) (c : NetIoCounters f)
      → ((m : NetMetric f) → IsIdle f (ring_of f m c))
      → (c' : NetIoCounters f) × (interface_update f clock stats c ≡ some c')
        × ((m : NetMetric f)
            → RecordsValue
                (clock (place m))
                (total (present stats (names_of m)))
                (ring_of f m c)
                (ring_of f m c'))
  unfolding interface_update ring_of
  interface_update-Records clock stats c idle =
      let write = λ (m : NetMetric f).
        fill_values-Records (clock (place m)) stats (names_of m) (ring_of f m c) (idle m) in
      let c' : NetIoCounters f = record {
        base = record {
          bytes = (write bytes).0;
          packets = (write packets).0;
          rx_bytes = (write rx_bytes).0;
          rx_packets = (write rx_packets).0;
          tx_bytes = (write tx_bytes).0;
          tx_packets = (write tx_packets).0;
        };
        errors = (write errors).0;
        dropped = (write dropped).0;
      } in
      (
        c',
        rw
            (
              (write errors).1,
              (write dropped).1,
              (write bytes).1,
              (write packets).1,
              (write rx_bytes).1,
              (write rx_packets).1,
              (write tx_bytes).1,
              (write tx_packets).1,
            )
            refl,
        λ m.
            elim m
              as (λ (k : NetMetric f).
                RecordsValue (clock (place k)) (total (present stats (names_of k))) (ring_of f k c)
                  (ring_of f k c')) [
                    | bytes ↦ (write bytes).2
                    | packets ↦ (write packets).2
                    | rx_bytes ↦ (write rx_bytes).2
                    | rx_packets ↦ (write rx_packets).2
                    | tx_bytes ↦ (write tx_bytes).2
                    | tx_packets ↦ (write tx_packets).2
                    | errors ↦ (write errors).2
                    | dropped ↦ (write dropped).2
                  ],
      )
