-- ===== src/Ovsdb/Updated.antt =====
-- Which interfaces an update of the table in ovsdb/collector.go changes.
use mathlib.Core.Path.{subst}
use mathlib.Core.List.{append-nil}
use go_bitflow_collector.Prelude.{
  ℕ, suc, ◌≡◌, refl, sym, ap, ◌∙◌, arith, Bool, true, false, none, some, List, [], ◌∷◌, ◌++◌,
  if◌then◌else◌, ℤ, Bool-cases, inl, inr,
}
use go_bitflow_collector.Logback.{FloatOps, logback}
use go_bitflow_collector.Ring.{ValueRingFactory}
use go_bitflow_collector.Pcap.{Text, eq_text}
use go_bitflow_collector.Psutil.{no_error, find, has_name, store}
use go_bitflow_collector.Psutil.Tables.{
  eq_text_eq, find-store, has_name-store, find-has_name, find_missing,
}
use go_bitflow_collector.Psutil.Net.{NetIoCounters, NetMetric, ring_of}
use go_bitflow_collector.Psutil.Counted.{IsIdle}
use go_bitflow_collector.Ovsdb.{
  Stats, Row, Interfaces, parse_row_update, interface_update, update_rows, update_tables,
}
use go_bitflow_collector.Ovsdb.Recorded.{
  place, present, total, names_of, RecordsValue, interface_update-Records,
}

module _ (f : FloatOps) where
  abbrev pub Named : Type 0
  Named = List (Text × Stats f)

  -- What the rows parse to.
  abbrev pub ParseTo : List (Row f) → Named → Type 0
  ParseTo [] [] = Unit {0}
  ParseTo [] (p ∷ parsed) = ⊥
  ParseTo (row ∷ rows) [] = ⊥
  ParseTo (row ∷ rows) (p ∷ parsed) = (parse_row_update f row ≡ some p) × ParseTo rows parsed

  abbrev pub AreDistinct : Named → Type 0
  AreDistinct [] = Unit {0}
  AreDistinct ((name, stats) ∷ parsed) = (has_name name parsed ≡ false) × AreDistinct parsed

  unfoldable pub all_named : Named → Interfaces f → Bool
  all_named [] interfaces = true
  all_named ((name, stats) ∷ parsed) interfaces =
      let rest = all_named parsed interfaces in if has_name name interfaces then rest else false

  -- All rings of all interfaces are valid and have nothing to flush.
  abbrev pub AreIdle : Interfaces f → Type 0
  AreIdle interfaces =
      (k : Text) (c : NetIoCounters f)
      → find k interfaces ≡ some c
      → (m : NetMetric f) → IsIdle f (ring_of f m c)

  -- An interface has recorded the statistics, at some instants.
  abbrev pub HasRecorded : Stats f → NetIoCounters f → NetIoCounters f → Type 0
  HasRecorded stats c c' =
      (times : NetMetric f → ℤ) × ((m : NetMetric f)
        → RecordsValue f (times m) (total f (present f stats (names_of f m))) (ring_of f m c)
            (ring_of f m c'))

  abbrev pub Outcome : Named → Interfaces f → Interfaces f → Type 0
  Outcome parsed interfaces interfaces' =
      (k : Text) (c : NetIoCounters f)
      → find k interfaces ≡ some c
      → (find k parsed ≡ none → find k interfaces' ≡ some c)
        × ((stats : Stats f)
            → find k parsed ≡ some stats
            → (c' : NetIoCounters f) × (find k interfaces' ≡ some c') × HasRecorded stats c c')

  all_named-store :
      (parsed : Named) (name : Text) (c : NetIoCounters f) (interfaces : Interfaces f)
      → all_named parsed interfaces ≡ true
      → all_named parsed (store name c interfaces) ≡ true
  unfolding all_named
  all_named-store [] name c interfaces h = refl
  all_named-store ((other, stats) ∷ parsed) name c interfaces h =
      let rest = all_named-store parsed name c interfaces in
      ground (arith, h, rest (ground (arith, h)), has_name-store other name c interfaces)

  AreIdle-store :
      (name : Text) (c : NetIoCounters f) (interfaces : Interfaces f)
      → AreIdle interfaces
      → ((m : NetMetric f) → IsIdle f (ring_of f m c))
      → AreIdle (store name c interfaces)
  AreIdle-store name c interfaces idle here k found e = elim (Bool-cases (eq_text name k)) [
    | inl same ↦
        let is_c : c ≡ found = ground (arith, same, e, find-store k name c interfaces) in
        subst (λ (d : NetIoCounters f). (m : NetMetric f) → IsIdle f (ring_of f m d)) is_c here
    | inr other ↦ idle k found (ground (arith, other, e, find-store k name c interfaces))
  ]

  module _ (factory : ValueRingFactory (logback f)) (clock : ℕ → ℕ → ℤ) where
    step_known :
        (check_change : Bool) (round : ℕ) (row : Row f) (rows : List (Row f))
        (interfaces : Interfaces f) (name : Text) (stats : Stats f)
        (reader reader' : NetIoCounters f)
        → parse_row_update f row ≡ some (name, stats)
        → find name interfaces ≡ some reader
        → interface_update f (clock round) stats reader ≡ some reader'
        → update_rows f factory clock check_change round (row ∷ rows) interfaces
          ≡ update_rows f factory clock check_change
              (suc round)
              rows
              (store name reader' interfaces)
    unfolding update_rows
    step_known check_change round row rows interfaces name stats reader reader' p e u =
        ground (arith, p, e, u)

    -- The outcome of the first row and then of the others.
    outcome_after :
        (name : Text) (stats : Stats f) (parsed : Named) (interfaces interfaces' : Interfaces f)
        (reader reader' : NetIoCounters f)
        → find name interfaces ≡ some reader
        → HasRecorded stats reader reader'
        → has_name name parsed ≡ false
        → Outcome parsed (store name reader' interfaces) interfaces'
        → Outcome ((name, stats) ∷ parsed) interfaces interfaces'
    unfolding find
    outcome_after name stats parsed interfaces interfaces' reader reader' e recorded apart rest k c
          found =
        elim (Bool-cases (eq_text name k)) [
          | inl same ↦
              let now : find k (store name reader' interfaces) ≡ some reader' =
                ground (arith, same, find-store k name reader' interfaces) in
              let last : find k parsed ≡ none =
                ap (λ (t : Text). find t parsed) (sym (eq_text_eq name k same))
                ∙ find_missing name parsed apart in
              let same_reader : reader ≡ c =
                ground (
                  arith,
                  e,
                  found,
                  ap (λ (t : Text). find t interfaces) (eq_text_eq name k same),
                ) in
              let kept : find k interfaces' ≡ some reader' = (rest k reader' now).0 last in
              (
                λ missing. absurd (ground (arith, same, missing)),
                λ stats' there.
                    let same_stats : stats ≡ stats' = ground (arith, same, there) in
                    (
                      reader',
                      kept,
                      subst (λ (d : NetIoCounters f). HasRecorded stats' d reader') same_reader
                          (subst (λ (v : Stats f). HasRecorded v reader reader') same_stats
                            recorded),
                    ),
              )
          | inr other ↦
              let now : find k (store name reader' interfaces) ≡ some c =
                ground (arith, other, found, find-store k name reader' interfaces) in
              let (kept, changed) = rest k c now in
              (
                λ missing. kept (ground (arith, other, missing)),
                λ stats' there. changed stats' (ground (arith, other, there)),
              )
        ]

    abbrev pub round_after : ℕ → List (Row f) → ℕ
    round_after round [] = round
    round_after round (row ∷ rows) = round_after (suc round) rows

    has_name-store_known :
        (k name : Text) (c : NetIoCounters f) (interfaces : Interfaces f)
        → has_name name interfaces ≡ true
        → has_name k (store name c interfaces) ≡ has_name k interfaces
    has_name-store_known k name c interfaces h = elim (Bool-cases (eq_text name k)) [
      | inl same ↦
          let known : has_name k interfaces ≡ true =
            ap (λ (t : Text). has_name t interfaces) (sym (eq_text_eq name k same)) ∙ h in
          ground (arith, same, known, has_name-store k name c interfaces)
      | inr other ↦ ground (arith, other, has_name-store k name c interfaces)
    ]

    -- Rows of known interfaces, before any others.
    pub update_rows-append :
        (check_change : Bool) (round : ℕ) (rows : List (Row f)) (parsed : Named)
        (interfaces : Interfaces f)
        → ParseTo rows parsed
        → AreDistinct parsed
        → all_named parsed interfaces ≡ true
        → AreIdle interfaces
        → (interfaces' : Interfaces f) × ((more : List (Row f))
            → update_rows f factory clock check_change round (rows ++ more) interfaces
              ≡ update_rows f factory clock check_change (round_after round rows) more interfaces')
          × Outcome parsed interfaces interfaces'
          × ((k : Text) → has_name k interfaces' ≡ has_name k interfaces)
    unfolding all_named find
    update_rows-append check_change round [] [] interfaces p d known idle = (
      interfaces,
      λ more. refl,
      λ k c found. (λ missing. found, λ stats there. absurd (ground (arith, there))),
      λ k. refl,
    )
    update_rows-append check_change round [] (q ∷ parsed) interfaces p d known idle = absurd p
    update_rows-append check_change round (row ∷ rows) [] interfaces p d known idle = absurd p
    update_rows-append check_change round (row ∷ rows) ((name, stats) ∷ parsed) interfaces (p, ps)
          (d, ds) known idle =
        let here : has_name name interfaces ≡ true = ground (arith, known) in
        let (reader, e) = find-has_name name interfaces here in
        let (reader', run, records) =
          interface_update-Records f (clock round) stats reader (idle name reader e) in
        let (interfaces', runs, rest, names) =
          update_rows-append check_change (suc round) rows parsed (store name reader' interfaces) ps
            ds (all_named-store parsed name reader' interfaces (ground (arith, known)))
            (AreIdle-store name reader' interfaces idle (λ m. (records m).idle)) in
        (
          interfaces',
          λ more.
              step_known check_change round row (rows ++ more) interfaces name stats reader reader'
                p e run
              ∙ runs more,
          outcome_after name stats parsed interfaces interfaces' reader reader' e
              (λ m. clock round (place f m), records) d rest,
          λ k. names k ∙ has_name-store_known k name reader' interfaces here,
        )

    -- Where the rows can be parsed, to statistics of distinct interfaces that are all known, and
    -- all rings of the interfaces are valid and have nothing to flush, updateTables ends without
    -- an error, whether or not it checks for changes: each interface that a row names has
    -- recorded the statistics of that row, and every other interface is as before.
    pub update_tables-known :
        (check_change : Bool) (rows : List (Row f)) (parsed : Named) (interfaces : Interfaces f)
        → ParseTo rows parsed
        → AreDistinct parsed
        → all_named parsed interfaces ≡ true
        → AreIdle interfaces
        → (interfaces' : Interfaces f) × (update_tables f factory clock check_change
              (some rows)
              interfaces
            ≡ some (interfaces', no_error))
          × Outcome parsed interfaces interfaces'
    unfolding update_tables update_rows
    update_tables-known check_change rows parsed interfaces p d known idle =
        let (interfaces', runs, outcome, _) =
          update_rows-append check_change 0 rows parsed interfaces p d known idle in
        (
          interfaces',
          ap (λ (all : List (Row f)). update_rows f factory clock check_change 0 all interfaces)
                (sym (append-nil rows))
              ∙ runs [],
          outcome,
        )
