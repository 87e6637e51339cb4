-- ===== src/Psutil/NetProto.antt =====
-- psutil/net_proto.go: the counters of the network protocols.
use go_bitflow_collector.Prelude.{
  ℕ, ◌+◌, Bool, true, false, Option, none, some, List, [], ◌∷◌, ◌++◌, if◌then◌else◌, not, ◌&&◌,
  ◌==◌, length, ℤ,
}
use go_bitflow_collector.Logback.{FloatOps, stored, logback}
use go_bitflow_collector.Ring
use go_bitflow_collector.Ring.{ValueRing, ValueRingFactory}
use go_bitflow_collector.Pcap.{Text}
use go_bitflow_collector.Psutil.{
  UpdateError, no_error, metrics_changed, error, find, has_name, store,
}

module _ (f : FloatOps) where
  open f use {Value, of_nat}

  -- net.ProtoCountersStat of gopsutil: the protocol and its statistics, of type int64, as values.
  abbrev pub Stats : Type 0
  Stats = List (Text × Value)

  abbrev pub Protocols : Type 0
  Protocols = List (Text × Stats)

  -- The loop of update over what psnet.ProtoCounters returned: the flag says that it ran to its
  -- end.
  unfoldable pub take_over : Bool → Protocols → Protocols → Protocols × Bool
  take_over check_change [] protocols = (protocols, true)
  take_over check_change ((protocol, stats) ∷ counters) protocols =
      let rest = take_over check_change counters (store protocol stats protocols) in
      if check_change && not (has_name protocol protocols) then (protocols, false) else rest

  -- NetProtoCollector.update
  unfoldable pub update_protocols : Bool → Option Protocols → Protocols → Protocols × UpdateError
  unfolding take_over
  update_protocols check_change none protocols = (protocols, error)
  update_protocols check_change (some counters) protocols =
      let (protocols', all_known) = take_over check_change counters protocols in
      if not all_known
      then (protocols', metrics_changed)
      else if check_change && not (length counters == length protocols')
      then (protocols', metrics_changed)
      else (protocols', no_error)

  -- The pointer `ring` is none where it is nil.
  pub record ProtoStatReader : Type 0 where
    pub protocol : Text
    pub field : Text
    pub ring : Option (ValueRing (logback f))
    pub value : Value

  -- The loops of Init. `is_absolute` is a lookup in absoluteNetProtoValues.
  unfoldable pub readers_of :
      (Text → Bool) → ValueRingFactory (logback f) → Text → Stats → List ProtoStatReader
  readers_of is_absolute factory protocol [] = []
  readers_of is_absolute factory protocol ((stat_name, val) ∷ stats) =
      record {
        protocol = protocol;
        field = stat_name;
        ring =
            if not (is_absolute stat_name)
            then some (Ring.new_value_ring (logback f) factory)
            else none;
        value = of_nat 0;
      }
      ∷ readers_of is_absolute factory protocol stats

  unfoldable pub all_readers :
      (Text → Bool) → ValueRingFactory (logback f) → Protocols → List ProtoStatReader
  unfolding readers_of
  all_readers is_absolute factory [] = []
  all_readers is_absolute factory ((protocol, stats) ∷ protocols) =
      readers_of is_absolute factory protocol stats ++ all_readers is_absolute factory protocols

  unfoldable pub init :
      (Text → Bool)
      → ValueRingFactory (logback f)
      → Option Protocols
      → Option (Protocols × List ProtoStatReader)
  unfolding update_protocols all_readers
  init is_absolute factory none = none
  init is_absolute factory (some counters) =
      let protocols = (update_protocols false (some counters) []).0 in
      some (protocols, all_readers is_absolute factory protocols)

  -- protoStatReader.update. The outer none is a panic, the inner one an error.
  unfoldable pub update_reader : ℤ → Protocols → ProtoStatReader → Option (Option ProtoStatReader)
  update_reader now protocols reader = elim (find reader.protocol protocols) [
    | none ↦ some none
    | some stats ↦ elim (find reader.field stats) [
      | none ↦ some none
      | some val ↦ elim reader.ring [
        | none ↦ some (some (record reader { value = val }))
        | some ring ↦ elim (Ring.add (logback f) now (stored val) ring) [
          | none ↦ none
          | some ring' ↦ some (some (record reader { ring = some ring' }))
        ]
      ]
    ]
  ]

  -- The loop of Update: the readers, and whether no error is returned.
  unfoldable pub update_readers :
      (ℕ → ℤ) → ℕ → Protocols → List ProtoStatReader → Option (List ProtoStatReader × Bool)
  unfolding update_reader
  update_readers clock i protocols [] = some ([], true)
  update_readers clock i protocols (reader ∷ readers) =
      elim (update_reader (clock i) protocols reader) [
        | none ↦ none
        | some none ↦ some (reader ∷ readers, false)
        | some (some reader') ↦ elim (update_readers clock (i + 1) protocols readers) [
          | none ↦ none
          | some (readers', ok) ↦ some (reader' ∷ readers', ok)
        ]
      ]

  -- protoStatReader.read: the value, and the reader after it.
  unfoldable pub read : ProtoStatReader → Option (Value × ProtoStatReader)
  read reader = elim reader.ring [
    | none ↦ some (reader.value, reader)
    | some ring ↦ elim (Ring.get_diff (logback f) ring) [
      | none ↦ none
      | some (diff, ring') ↦ some (diff, record reader { ring = some ring' })
    ]
  ]
