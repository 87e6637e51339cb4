-- ===== src/Pcap/Captured.antt =====
-- When the loop of CapturePackets in pcap/capture.go panics.
use go_bitflow_collector.Prelude.{
  ℕ, suc, ◌≡◌, refl, sym, ◌∙◌, ◌↔◌, Bool, true, false, none, some, List, [], ◌∷◌, ◌==◌, ◌||◌, ◌&&◌,
  not, pos, ap, lookup, if◌then◌else◌, arith, Bool-cases, Option-cases, inl, inr,
}
use go_bitflow_collector.Pcap.{
  Text, Connection, Connections, Result, ok, err, panic, has_key, adjust, hash, reverse_hash,
  hash_connection, log_rx_packet, add_connections, update, log_unknown_connection,
  log_unless_existing, log_packet, log_existing_connection,
}
use go_bitflow_collector.Pcap.Table.{
  lookup-adjust, first_with, lookup-add_connections, existing_unknown,
}
use go_bitflow_collector.Pcap.Capture.{
  Captured, CaptureLoop, after_log, eof, capture_error, packet, connection, no_connection,
  info_error, running, finished, panicked, handle_packet, capture_packets,
}
use go_bitflow_collector.Pcap.Counted.{handle_known, has_key-logged}

has_key-adjust :
    (h k : ℕ) (f : Connection → Connection) (cons : Connections)
    → has_key k (adjust h f cons) ≡ has_key k cons
unfolding has_key
has_key-adjust h k f cons = elim (Option-cases (lookup k cons)) [
  | inl e ↦ ground (arith, e, lookup-adjust h k f cons)
  | inr (con, e) ↦ ground (arith, e, lookup-adjust h k f cons)
]

module _ (sum64 : Text → ℕ) where
  -- Whether a connection of the list has the hash.
  unfoldable pub is_read : ℕ → List Connection → Bool
  is_read k [] = false
  is_read k (con ∷ all) = hash sum64 con == k || is_read k all

  -- Whether the packets lead to a panic where the table has the keys: before the end of the file
  -- there is a packet that belongs to no connection, or one whose connection is not in the table
  -- under either hash, while reading the connections panics. Connections that are read are in the
  -- table from then on.
  unfoldable pub reaches_panic : (ℕ → Bool) → Captured → Bool
  reaches_panic has [] = false
  reaches_panic has ((eof, read) ∷ packets) = false
  reaches_panic has ((capture_error, read) ∷ packets) = reaches_panic has packets
  reaches_panic has ((packet size no_connection, read) ∷ packets) = true
  reaches_panic has ((packet size info_error, read) ∷ packets) = reaches_panic has packets
  reaches_panic has ((packet size (connection con), ok all) ∷ packets) =
      let known = has (hash sum64 con) || has (reverse_hash sum64 con) in
      reaches_panic (λ k. has k || (not known && is_read k all)) packets
  reaches_panic has ((packet size (connection con), err) ∷ packets) = reaches_panic has packets
  reaches_panic has ((packet size (connection con), panic) ∷ packets) =
      let rest = reaches_panic has packets in
      if has (hash sum64 con) || has (reverse_hash sum64 con) then rest else true

  first_with-is_read :
      (k : ℕ) (all : List Connection)
      → (elim (first_with sum64 k all) [ none ↦ false | some _ ↦ true ]) ≡ is_read k all
  unfolding first_with is_read
  first_with-is_read k [] = refl
  first_with-is_read k (con ∷ all) = ground (arith, first_with-is_read k all)

  has_key-add_connections :
      (k : ℕ) (all : List Connection) (cons : Connections)
      → has_key k (add_connections sum64 all cons) ≡ (has_key k cons || is_read k all)
  unfolding has_key
  has_key-add_connections k all cons = elim (Option-cases (lookup k cons)) [
    | inl e ↦ ground (arith, e, lookup-add_connections sum64 all cons k, first_with-is_read k all)
    | inr (con, e) ↦ ground (arith, e, lookup-add_connections sum64 all cons k)
  ]

  -- The loop goes on with the table, after any number of errors.
  abbrev GoesOn : CaptureLoop → (ℕ → Bool) → Type 0
  GoesOn state has =
      (cons : Connections) × (errors : ℕ) × (state ≡ running cons errors)
      × ((k : ℕ) → has_key k cons ≡ has k)

  -- A packet whose connection the table does not know, for each result of reading.
  log_unknown :
      (con : Connection) (size : ℕ) (read : Result (List Connection)) (cons : Connections)
      → (has_key (hash sum64 con) cons || has_key (reverse_hash sum64 con) cons) ≡ false
      → log_packet sum64 con size read cons ≡ log_unless_existing sum64 con size read (cons, false)
  unfolding log_packet
  log_unknown con size read cons h =
      rw (existing_unknown sum64 con size cons (ground (arith, h)) (ground (arith, h))) refl

  logged_default :
      (con : Connection) (size : ℕ) (all : List Connection) (cons : Connections)
      → let updated = add_connections sum64 all cons in
        let d = hash_connection sum64 con.typ [] (pos 0) [] (pos 0) in
        has_key d updated ≡ true
        → log_unless_existing sum64 con size (ok all) (cons, false)
          ≡ some (adjust d (log_rx_packet size) updated, true)
  unfolding log_unless_existing update log_unknown_connection
  logged_default con size all cons found = ground (arith, found)

  not_logged :
      (con : Connection) (size : ℕ) (all : List Connection) (cons : Connections)
      → let updated = add_connections sum64 all cons in
        has_key (hash_connection sum64 con.typ [] (pos 0) [] (pos 0)) updated ≡ false
        → log_unless_existing sum64 con size (ok all) (cons, false) ≡ some (updated, false)
  unfolding log_unless_existing update log_unknown_connection
  not_logged con size all cons missing = ground (arith, missing)

  unknown_ok :
      (con : Connection) (size : ℕ) (all : List Connection) (cons : Connections) (errors : ℕ)
      → (has_key (hash sum64 con) cons || has_key (reverse_hash sum64 con) cons) ≡ false
      → GoesOn
          (handle_packet sum64 (packet size (connection con)) (ok all) cons errors)
          (λ k. has_key k cons || is_read k all)
  unfolding handle_packet log_unless_existing update log_unknown_connection
  unknown_ok con size all cons errors h =
      let updated = add_connections sum64 all cons in
      let d = hash_connection sum64 con.typ [] (pos 0) [] (pos 0) in
      elim (Bool-cases (has_key d updated)) [
        | inl found ↦ (
          adjust d (log_rx_packet size) updated,
          errors,
          ap (after_log errors)
              (log_unknown con size (ok all) cons h ∙ logged_default con size all cons found),
          λ k. has_key-adjust d k (log_rx_packet size) updated ∙ has_key-add_connections k all cons,
        )
        | inr missing ↦ (
          updated,
          suc errors,
          ap (after_log errors)
              (log_unknown con size (ok all) cons h ∙ not_logged con size all cons missing),
          λ k. has_key-add_connections k all cons,
        )
      ]

  unknown_err :
      (con : Connection) (size : ℕ) (cons : Connections) (errors : ℕ)
      → (has_key (hash sum64 con) cons || has_key (reverse_hash sum64 con) cons) ≡ false
      → handle_packet sum64 (packet size (connection con)) err cons errors
        ≡ running cons (suc errors)
  unfolding handle_packet log_unless_existing update
  unknown_err con size cons errors h = ap (after_log errors) (log_unknown con size err cons h)

  unknown_panic :
      (con : Connection) (size : ℕ) (cons : Connections) (errors : ℕ)
      → (has_key (hash sum64 con) cons || has_key (reverse_hash sum64 con) cons) ≡ false
      → handle_packet sum64 (packet size (connection con)) panic cons errors ≡ panicked
  unfolding handle_packet log_unless_existing update
  unknown_panic con size cons errors h = ap (after_log errors) (log_unknown con size panic cons h)

  stopped_finished :
      (packets : Captured) (cons : Connections) (errors : ℕ)
      → capture_packets sum64 packets (finished cons errors) ≡ finished cons errors
  unfolding capture_packets
  stopped_finished [] cons errors = refl
  stopped_finished (p ∷ packets) cons errors = refl

  stopped_panicked : (packets : Captured) → capture_packets sum64 packets panicked ≡ panicked
  unfolding capture_packets
  stopped_panicked [] = refl
  stopped_panicked (p ∷ packets) = refl

  abbrev Panics : Captured → CaptureLoop → (ℕ → Bool) → Type 0
  Panics packets state has =
      (capture_packets sum64 packets state ≡ panicked) ↔ (reaches_panic has packets ≡ true)

  known_round :
      (con : Connection) (size : ℕ) (read : Result (List Connection)) (cons : Connections)
      (errors : ℕ)
      → (has_key (hash sum64 con) cons || has_key (reverse_hash sum64 con) cons) ≡ true
      → GoesOn
          (handle_packet sum64 (packet size (connection con)) read cons errors)
          (λ k. has_key k cons)
  known_round con size read cons errors h = (
    (log_existing_connection sum64 con size cons).0,
    errors,
    handle_known sum64 con size read cons errors h,
    λ k. has_key-logged sum64 con size cons k,
  )

  unknown_round :
      (con : Connection) (size : ℕ) (read : Result (List Connection)) (packets : Captured)
      (cons : Connections) (errors : ℕ)
      → (has_key (hash sum64 con) cons || has_key (reverse_hash sum64 con) cons) ≡ false
      → ((cons' : Connections) (errors' : ℕ) (has : ℕ → Bool)
          → ((k : ℕ) → has_key k cons' ≡ has k)
          → Panics packets (running cons' errors') has)
      → (has : ℕ → Bool) → ((k : ℕ) → has_key k cons ≡ has k)
      → Panics ((packet size (connection con), read) ∷ packets) (running cons errors) has
  unfolding capture_packets reaches_panic
  unknown_round con size (ok all) packets cons errors h rest has same =
      let (cons', errors', e, keys) = unknown_ok con size all cons errors h in
      rw e (
        rest cons' errors' _ (λ k.
          ground (arith, keys k, same k, h, same (hash sum64 con), same (reverse_hash sum64 con))))
  unknown_round con size err packets cons errors h rest has same =
      rw (unknown_err con size cons errors h) (rest cons (suc errors) has same)
  unknown_round con size panic packets cons errors h rest has same =
      rw (unknown_panic con size cons errors h) (
        λ e. ground (arith, h, same (hash sum64 con), same (reverse_hash sum64 con)),
        λ e. stopped_panicked packets,
      )

  known_rest :
      (con : Connection) (size : ℕ) (read : Result (List Connection)) (packets : Captured)
      (cons : Connections) (errors : ℕ)
      → (has_key (hash sum64 con) cons || has_key (reverse_hash sum64 con) cons) ≡ true
      → ((cons' : Connections) (errors' : ℕ) (has : ℕ → Bool)
          → ((k : ℕ) → has_key k cons' ≡ has k)
          → Panics packets (running cons' errors') has)
      → (has : ℕ → Bool) → ((k : ℕ) → has_key k cons ≡ has k)
      → Panics ((packet size (connection con), read) ∷ packets) (running cons errors) has
  unfolding capture_packets reaches_panic
  known_rest con size (ok all) packets cons errors h rest has same =
      let (cons', errors', e, keys) = known_round con size (ok all) cons errors h in
      rw e (
        rest cons' errors' _ (λ k.
          ground (arith, keys k, same k, h, same (hash sum64 con), same (reverse_hash sum64 con))))
  known_rest con size err packets cons errors h rest has same =
      let (cons', errors', e, keys) = known_round con size err cons errors h in
      rw e (rest cons' errors' has (λ k. keys k ∙ same k))
  known_rest con size panic packets cons errors h rest has same =
      let (cons', errors', e, keys) = known_round con size panic cons errors h in
      let known : (has (hash sum64 con) || has (reverse_hash sum64 con)) ≡ true =
        rw (sym (same (hash sum64 con)), sym (same (reverse_hash sum64 con))) h in
      rw (e, known) (rest cons' errors' has (λ k. keys k ∙ same k))

  Panics-iff :
      (packets : Captured) (cons : Connections) (errors : ℕ) (has : ℕ → Bool)
      → ((k : ℕ) → has_key k cons ≡ has k)
      → Panics packets (running cons errors) has
  unfolding capture_packets handle_packet reaches_panic
  Panics-iff [] cons errors has same = (λ e. ground (arith, e), λ e. ground (arith, e))
  Panics-iff ((eof, read) ∷ packets) cons errors has same =
      rw (stopped_finished packets cons _) (λ e. ground (arith, e), λ e. ground (arith, e))
  Panics-iff ((capture_error, read) ∷ packets) cons errors has same =
      Panics-iff packets cons _ has same
  Panics-iff ((packet size (connection con), read) ∷ packets) cons errors has same =
      let rest =
        λ (cons' : Connections) (errors' : ℕ) (has' : ℕ → Bool)
            (same' : (k : ℕ) → has_key k cons' ≡ has' k).
          Panics-iff packets cons' errors' has' same' in
      elim (Bool-cases (has_key (hash sum64 con) cons || has_key (reverse_hash sum64 con) cons)) [
        | inl known ↦ known_rest con size read packets cons errors known rest has same
        | inr unknown ↦ unknown_round con size read packets cons errors unknown rest has same
      ]
  Panics-iff ((packet size no_connection, read) ∷ packets) cons errors has same =
      (λ e. refl, λ e. stopped_panicked packets)
  Panics-iff ((packet size info_error, read) ∷ packets) cons errors has same =
      Panics-iff packets cons _ has same

  -- The loop panics exactly if, before the first end of file, there is a packet that belongs to no
  -- connection, which Info gives as nil without an error, or a packet whose hash and reverse hash
  -- are neither keys of the table nor hashes of connections read for an earlier unknown packet,
  -- while ReadAllConnections panics.
  pub capture_packets-panicked :
      (packets : Captured) (cons : Connections) (errors : ℕ)
      → (capture_packets sum64 packets (running cons errors) ≡ panicked)
        ↔ (reaches_panic (λ k. has_key k cons) packets ≡ true)
  capture_packets-panicked packets cons errors =
      Panics-iff packets cons errors (λ k. has_key k cons) (λ k. refl)
