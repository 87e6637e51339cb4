-- ===== src/Tests/OvsdbTests.antt =====
-- The interface table of ovsdb/ at concrete inputs.
use mathlib.Core.Path.{subst}
use go_bitflow_collector.Prelude.{
  ℕ, ◌≡◌, refl, true, false, none, some, [], ◌∷◌, ◌++◌, ℤ, pos, arith, Bool-cases, inl, inr,
}
use go_bitflow_collector.Pcap.{Text, eq_text}
use go_bitflow_collector.Psutil.{no_error, metrics_changed, find, has_name, store}
use go_bitflow_collector.Psutil.Net.{NetIoCounters, NetMetric, ring_of, bytes}
use go_bitflow_collector.Psutil.Counted.{IsIdle}
use go_bitflow_collector.Ovsdb.{
  Stats, Row, Interfaces, Collector, string, float64, atom, ovs_map, name_key, statistics_key, rx,
  bytes_key, interface_update, update_tables, update, parse_row_update,
}
use go_bitflow_collector.Ovsdb.Recorded.{
  RecordsValue, place, present, total, names_of, interface_update-Records,
}
use go_bitflow_collector.Ovsdb.Updated.{Named, AreIdle, Outcome, update_tables-known, all_named}
use go_bitflow_collector.Ovsdb.Notified.{notify_all, notify-update-changed}
use go_bitflow_collector.Tests.PsutilTests.{whole, factory, fresh, fresh-IsIdle}

abbrev eth : Text → Text
eth n = b'e' ∷ b't' ∷ b'h' ∷ n

abbrev five_bytes : Stats whole
five_bytes = (rx bytes_key, pos 5) ∷ []

abbrev clock : ℕ → ℕ → ℤ
clock round i = pos 10

interface_update-Records_example :
    (c' : NetIoCounters whole) × (interface_update whole (clock 0) five_bytes fresh ≡ some c')
    × ((m : NetMetric whole)
        → RecordsValue whole
            (clock 0 (place whole m))
            (total whole (present whole five_bytes (names_of whole m)))
            (ring_of whole m fresh)
            (ring_of whole m c'))
interface_update-Records_example =
    interface_update-Records whole (clock 0) five_bytes fresh fresh-IsIdle

-- The bytes count what is received, and nothing is recorded for what the row does not have.
five_bytes-total : total whole (present whole five_bytes (names_of whole bytes)) ≡ some (pos 5)
unfolding find eq_text
five_bytes-total = refl

abbrev row_of : Text → Row whole
row_of name =
    (name_key, atom (string name))
    ∷ (statistics_key, ovs_map ((string (rx bytes_key), float64 (pos 5)) ∷ []))
    ∷ []

abbrev one_interface : Interfaces whole
one_interface = (eth (b'0' ∷ []), fresh) ∷ []

abbrev named : Named whole
named = (eth (b'0' ∷ []), five_bytes) ∷ []

one_interface-AreIdle : AreIdle whole one_interface
unfolding find
one_interface-AreIdle k c e = elim (Bool-cases (eq_text (eth (b'0' ∷ [])) k)) [
  | inl same ↦
      let is_fresh : fresh ≡ c = ground (arith, same, e) in
      subst (λ (d : NetIoCounters whole). (m : NetMetric whole) → IsIdle whole (ring_of whole m d))
        is_fresh fresh-IsIdle
  | inr other ↦ absurd (ground (arith, other, e))
]

update_tables-known_example :
    (interfaces' : Interfaces whole) × (update_tables whole factory clock true
        (some (row_of (eth (b'0' ∷ [])) ∷ []))
        one_interface
      ≡ some (interfaces', no_error))
    × Outcome whole named one_interface interfaces'
unfolding parse_row_update find eq_text store has_name all_named
update_tables-known_example =
    update_tables-known whole factory clock true (row_of (eth (b'0' ∷ [])) ∷ []) named one_interface
      (refl, tt) (refl, tt) refl one_interface-AreIdle

abbrev connected : Collector whole factory clock
connected = record {
  has_client = true;
  last_update_error = no_error;
  interface_collectors = one_interface;
}

notify-update-changed_example :
    (told closed : Collector whole factory clock) × (notify_all whole factory clock
        (some ((row_of (eth (b'0' ∷ [])) ∷ []) ++ row_of (eth (b'1' ∷ [])) ∷ []) ∷ none ∷ [])
        connected
      ≡ some told)
    × (update whole factory clock true none told ≡ some (closed, metrics_changed))
    × (closed.has_client ≡ false)
    × Outcome whole named one_interface closed.interface_collectors
    × ((k : Text) → has_name k closed.interface_collectors ≡ has_name k one_interface)
unfolding parse_row_update find eq_text store has_name all_named
notify-update-changed_example =
    notify-update-changed whole factory clock connected (row_of (eth (b'0' ∷ [])) ∷ []) named
      (row_of (eth (b'1' ∷ []))) [] (eth (b'1' ∷ [])) five_bytes (none ∷ []) none refl (refl, tt)
      (refl, tt) refl one_interface-AreIdle refl refl
