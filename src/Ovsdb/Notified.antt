-- ===== src/Ovsdb/Notified.antt =====
-- What notifications of ovsdb/notification.go make of the next update of ovsdb/collector.go.
use go_bitflow_collector.Prelude.{
  ℕ, ◌≡◌, refl, ◌∙◌, arith, true, false, Option, none, some, List, [], ◌∷◌, ◌++◌, ℤ,
}
use go_bitflow_collector.Logback.{FloatOps, logback}
use go_bitflow_collector.Ring.{ValueRingFactory}
use go_bitflow_collector.Pcap.{Text}
use go_bitflow_collector.Psutil.{no_error, metrics_changed, has_name}
use go_bitflow_collector.Psutil.Tables.{find_missing}
use go_bitflow_collector.Ovsdb.{
  Stats, Row, Interfaces, parse_row_update, update_rows, update_tables, update, notify, Collector,
}
use go_bitflow_collector.Ovsdb.Recorded.{}
use go_bitflow_collector.Ovsdb.Updated.{
  Named, ParseTo, AreDistinct, all_named, AreIdle, Outcome, round_after, update_rows-append,
}

module _ (f : FloatOps) (factory : ValueRingFactory (logback f)) (clock : ℕ → ℕ → ℤ) where
  -- Notifications, one after the other; none is a panic.
  unfoldable pub notify_all :
      List (Option (List (Row f))) → Collector f factory clock → Option (Collector f factory clock)
  notify_all [] col = some col
  notify_all (table ∷ tables) col = elim (notify f factory clock table col) [
    | none ↦ none
    | some col' ↦ notify_all tables col'
  ]

  notify_all-failed :
      (tables : List (Option (List (Row f)))) (col : Collector f factory clock)
      → col.last_update_error ≡ metrics_changed
      → notify_all tables col ≡ some col
  unfolding notify_all notify
  notify_all-failed [] col h = refl
  notify_all-failed (table ∷ tables) col h = ground (arith, h, notify_all-failed tables col h)

  unknown_row :
      (round : ℕ) (row : Row f) (rest : List (Row f)) (name : Text) (stats : Stats f)
      (interfaces : Interfaces f)
      → parse_row_update f row ≡ some (name, stats)
      → has_name name interfaces ≡ false
      → update_rows f factory clock true round (row ∷ rest) interfaces
        ≡ some (interfaces, metrics_changed)
  unfolding update_rows
  unknown_row round row rest name stats interfaces p h =
      ground (arith, p, find_missing name interfaces h)

  -- Where a notification has rows of known interfaces, as for updateTables, and then one of an
  -- unknown interface, and no error is recorded yet: Update returns MetricsChanged and closes the
  -- client, whatever notifications follow and whether or not a connection could be opened; the
  -- rows before the unknown interface are recorded, all other interfaces are as before, and no
  -- interface is new.
  pub notify-update-changed :
      (col : Collector f factory clock) (rows : List (Row f)) (parsed : Named f) (row : Row f)
      (rest : List (Row f)) (name : Text) (stats : Stats f) (later : List (Option (List (Row f))))
      (opened : Option (Option (List (Row f))))
      → col.last_update_error ≡ no_error
      → ParseTo f rows parsed
      → AreDistinct f parsed
      → all_named f parsed col.interface_collectors ≡ true
      → AreIdle f col.interface_collectors
      → parse_row_update f row ≡ some (name, stats)
      → has_name name col.interface_collectors ≡ false
      → (told closed : Collector f factory clock) × (notify_all
            (some (rows ++ row ∷ rest) ∷ later)
            col
          ≡ some told)
        × (update f factory clock true opened told ≡ some (closed, metrics_changed))
        × (closed.has_client ≡ false)
        × Outcome f parsed col.interface_collectors closed.interface_collectors
        × ((k : Text)
            → has_name k closed.interface_collectors ≡ has_name k col.interface_collectors)
  unfolding notify_all notify update update_tables
  notify-update-changed col rows parsed row rest name stats later opened none_yet p d known idle q
        unknown =
      let (interfaces', runs, outcome, names) =
        update_rows-append f factory clock true 0 rows parsed col.interface_collectors p d known
          idle in
      let ran : update_rows f factory clock true 0 (rows ++ row ∷ rest) col.interface_collectors
          ≡ some (interfaces', metrics_changed) =
        runs (row ∷ rest)
        ∙ unknown_row (round_after f factory clock 0 rows) row rest name stats interfaces' q
            (names name ∙ unknown) in
      let told : Collector f factory clock = record col {
        last_update_error = metrics_changed;
        interface_collectors = interfaces';
      } in
      (
        told,
        record told { has_client = false },
        ground (arith, none_yet, ran, notify_all-failed later told refl),
        refl,
        refl,
        outcome,
        names,
      )
