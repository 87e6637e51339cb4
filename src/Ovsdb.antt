-- ===== src/Ovsdb.antt =====
-- ovsdb/: the collector of the interfaces of an Open vSwitch. What the client of libovsdb returns
-- is an argument. A Go map is a list of its entries, in the order in which `range` walks it.
pub mod Recorded
pub mod Updated
pub mod Notified
use go_bitflow_collector.Prelude.{
  ℕ, suc, ◌+◌, Bool, true, false, Option, none, some, List, [], ◌∷◌, if◌then◌else◌, ℤ,
}
use go_bitflow_collector.Logback.{FloatOps, stored, logback}
use go_bitflow_collector.Ring
use go_bitflow_collector.Ring.{ValueRingFactory, ◌>>=◌}
use go_bitflow_collector.Pcap.{Text}
use go_bitflow_collector.Psutil.{UpdateError, no_error, metrics_changed, error, find, store}
use go_bitflow_collector.Psutil.Net.{NetIoCounters, StatRing, new_net_io_counters}

-- The texts of the keys.
abbrev pub rx : Text → Text
rx name = b'r' ∷ b'x' ∷ b'_' ∷ name

abbrev pub tx : Text → Text
tx name = b't' ∷ b'x' ∷ b'_' ∷ name

abbrev pub bytes_key : Text
bytes_key = b'b' ∷ b'y' ∷ b't' ∷ b'e' ∷ b's' ∷ []

abbrev pub packets_key : Text
packets_key = b'p' ∷ b'a' ∷ b'c' ∷ b'k' ∷ b'e' ∷ b't' ∷ b's' ∷ []

abbrev dropped_key : Text
dropped_key = b'd' ∷ b'r' ∷ b'o' ∷ b'p' ∷ b'p' ∷ b'e' ∷ b'd' ∷ []

abbrev err_key : Text
err_key = b'e' ∷ b'r' ∷ b'r' ∷ []

abbrev errors_key : Text
errors_key = b'e' ∷ b'r' ∷ b'r' ∷ b'o' ∷ b'r' ∷ b's' ∷ []

abbrev pub error_names : List Text
error_names =
    (b'c' ∷ b'o' ∷ b'l' ∷ b'l' ∷ b'i' ∷ b's' ∷ b'i' ∷ b'o' ∷ b'n' ∷ b's' ∷ [])
    ∷ rx (b'c' ∷ b'r' ∷ b'c' ∷ b'_' ∷ err_key)
    ∷ rx errors_key
    ∷ rx (b'f' ∷ b'r' ∷ b'a' ∷ b'm' ∷ b'e' ∷ b'_' ∷ err_key)
    ∷ rx (b'o' ∷ b'v' ∷ b'e' ∷ b'r' ∷ b'_' ∷ err_key)
    ∷ tx errors_key
    ∷ []

abbrev pub dropped_names : List Text
dropped_names = rx dropped_key ∷ tx dropped_key ∷ []

abbrev pub bytes_names : List Text
bytes_names = rx bytes_key ∷ tx bytes_key ∷ []

abbrev pub packets_names : List Text
packets_names = rx packets_key ∷ tx packets_key ∷ []

abbrev pub name_key : Text
name_key = b'n' ∷ b'a' ∷ b'm' ∷ b'e' ∷ []

abbrev pub statistics_key : Text
statistics_key = b's' ∷ b't' ∷ b'a' ∷ b't' ∷ b'i' ∷ b's' ∷ b't' ∷ b'i' ∷ b'c' ∷ b's' ∷ []

module _ (f : FloatOps) where
  -- The dynamic types in a row that the code tells apart.
  pub data Atom : Type 0 where
    string : Text → Atom
    float64 : f.Value → Atom
    other : Atom

  pub data Field : Type 0 where
    atom : Atom → Field
    ovs_map : List (Atom × Atom) → Field

  abbrev pub Stats : Type 0
  Stats = List (Text × f.Value)

  abbrev pub Row : Type 0
  Row = List (Text × Field)

  -- The loop of parseRowUpdate; none is a panic, of which `recover` makes an error.
  unfoldable pub stats_of : List (Atom × Atom) → Stats → Option Stats
  stats_of [] stats = some stats
  stats_of ((string key, float64 value) ∷ entries) stats = stats_of entries (store key value stats)
  stats_of ((string key, string value) ∷ entries) stats = none
  stats_of ((string key, other) ∷ entries) stats = none
  stats_of ((float64 key, value) ∷ entries) stats = none
  stats_of ((other, value) ∷ entries) stats = none

  unfoldable pub parse_stats : Option Field → Option Stats
  unfolding stats_of
  parse_stats none = none
  parse_stats (some (atom value)) = none
  parse_stats (some (ovs_map entries)) = stats_of entries []

  -- parseRowUpdate; none is an error.
  unfoldable pub parse_row_update : Row → Option (Text × Stats)
  unfolding parse_stats
  parse_row_update row = elim (find name_key row) [
    | none ↦ none
    | some (ovs_map entries) ↦ none
    | some (atom (float64 value)) ↦ none
    | some (atom other) ↦ none
    | some (atom (string name)) ↦ elim (parse_stats (find statistics_key row)) [
      | none ↦ none
      | some stats ↦ some (name, stats)
    ]
  ]

  -- The loop of fillValues.
  unfoldable pub add_values : Stats → List Text → StatRing f → StatRing f
  add_values stats [] ring = ring
  add_values stats (name ∷ names) ring = add_values stats names (elim (find name stats) [
    | none ↦ ring
    | some value ↦ Ring.add_to_head (logback f) (stored value) ring
  ])

  -- fillValues; none is a panic of the ring.
  unfoldable pub fill_values : Stats → List Text → ℤ → StatRing f → Option (StatRing f)
  unfolding add_values
  fill_values stats names now ring = Ring.flush_head (logback f) now (add_values stats names ring)

  -- ovsdbInterfaceCollector.update; `clock i` is the instant of the i-th FlushHead.
  unfoldable pub interface_update : (ℕ → ℤ) → Stats → NetIoCounters f → Option (NetIoCounters f)
  unfolding fill_values
  interface_update clock stats c = do
    errors ← fill_values stats error_names (clock 0) c.errors
    dropped ← fill_values stats dropped_names (clock 1) c.dropped
    bytes ← fill_values stats bytes_names (clock 2) c.base.bytes
    packets ← fill_values stats packets_names (clock 3) c.base.packets
    rx_bytes ← fill_values stats (rx bytes_key ∷ []) (clock 4) c.base.rx_bytes
    rx_packets ← fill_values stats (rx packets_key ∷ []) (clock 5) c.base.rx_packets
    tx_bytes ← fill_values stats (tx bytes_key ∷ []) (clock 6) c.base.tx_bytes
    tx_packets ← fill_values stats (tx packets_key ∷ []) (clock 7) c.base.tx_packets
    some (record {
      base = record {
        bytes = bytes;
        packets = packets;
        rx_bytes = rx_bytes;
        rx_packets = rx_packets;
        tx_bytes = tx_bytes;
        tx_packets = tx_packets;
      };
      errors = errors;
      dropped = dropped;
    })

  abbrev pub Interfaces : Type 0
  Interfaces = List (Text × NetIoCounters f)

  module _ (factory : ValueRingFactory (logback f)) (clock : ℕ → ℕ → ℤ) where
    -- The loop of updateTables; none is a panic. `clock round` are the instants for the row.
    unfoldable pub update_rows :
        Bool → ℕ → List Row → Interfaces → Option (Interfaces × UpdateError)
    unfolding parse_row_update interface_update
    update_rows check_change round [] interfaces = some (interfaces, no_error)
    update_rows check_change round (row ∷ rows) interfaces = elim (parse_row_update row) [
      | none ↦ some (interfaces, error)
      | some (name, stats) ↦ elim (find name interfaces) [
        | some reader ↦ interface_update (clock round) stats reader >>= λ reader'.
            update_rows check_change (suc round) rows (store name reader' interfaces)
        | none ↦ elim check_change [
          | true ↦ some (interfaces, metrics_changed)
          | false ↦
              interface_update (clock round) stats (new_net_io_counters f factory) >>= λ reader'.
              update_rows check_change (suc round) rows (store name reader' interfaces)
        ]
      ]
    ]

    -- `table` are the rows of the table Interface, if the update has it.
    unfoldable pub update_tables :
        Bool → Option (List Row) → Interfaces → Option (Interfaces × UpdateError)
    unfolding update_rows
    update_tables check_change none interfaces = some (interfaces, error)
    update_tables check_change (some rows) interfaces = update_rows check_change 0 rows interfaces

    -- The collector: whether it has a client, lastUpdateError with no_error for nil, and the
    -- interface collectors.
    pub record Collector : Type 0 where
      pub has_client : Bool
      pub last_update_error : UpdateError
      pub interface_collectors : Interfaces

    -- ensureConnection; `opened` is openConnection, with the table of the initial update.
    unfoldable pub ensure_connection :
        Bool → Option (Option (List Row)) → Collector → Option (Collector × UpdateError)
    unfolding update_tables
    ensure_connection check_change opened col = elim col.has_client [
      | true ↦ some (col, no_error)
      | false ↦ elim opened [
        | none ↦ some (col, error)
        | some table ↦
            update_tables check_change table col.interface_collectors >>= λ (interfaces, result).
            some (record col { has_client = true; interface_collectors = interfaces }, result)
      ]
    ]

    -- Collector.update, with Close in place.
    unfoldable pub update :
        Bool → Option (Option (List Row)) → Collector → Option (Collector × UpdateError)
    unfolding ensure_connection
    update check_change opened col = elim col.last_update_error [
      | no_error ↦ ensure_connection check_change opened col
      | metrics_changed ↦ some (record col { has_client = false }, metrics_changed)
      | error ↦ some (record col { has_client = false }, error)
    ]

    -- Init: the collector, with the interface collectors that it returns if there is no error.
    unfoldable pub init : Option (Option (List Row)) → Option (Collector × UpdateError)
    unfolding update
    init opened =
        update false opened
          (record { has_client = false; last_update_error = no_error; interface_collectors = [] })

    -- ovsdbNotifier.Update and Disconnected.
    unfoldable pub notify : Option (List Row) → Collector → Option Collector
    unfolding update_tables
    notify table col = elim col.last_update_error [
      | no_error ↦ update_tables true table col.interface_collectors >>= λ (interfaces, result).
          some (record col { last_update_error = result; interface_collectors = interfaces })
      | metrics_changed ↦ some col
      | error ↦ some col
    ]

    unfoldable pub disconnected : Collector → Collector
    disconnected col = record col { has_client = false }
