-- ===== src/Pcap/Counted.antt =====
-- How the loop of CapturePackets in pcap/capture.go counts the packets of known connections.
use go_bitflow_collector.Prelude.{
  ℕ, suc, ◌+◌, ◌%◌, ◌<◌, ◌≡◌, refl, ap, ◌∙◌, Bool, true, false, none, some, List, [], ◌∷◌,
  if◌then◌else◌, ◌==◌, ◌||◌, lookup, arith, Option-cases, inl, inr,
}
use go_bitflow_collector.Pcap.{
  Text, Connection, Connections, has_key, log_tx_packet, log_rx_packet, hash, reverse_hash,
  log_existing_connection, log_unless_existing, log_packet, word64, Result,
}
use go_bitflow_collector.Pcap.Table.{map_some, log_existing_connection_lem}
use go_bitflow_collector.Pcap.Capture.{
  Captured, after_log, eof, capture_error, packet, connection, no_connection, info_error, running,
  handle_packet, capture_packets,
}

-- The errors among the packets.
unfoldable pub failures : Captured → ℕ
failures [] = 0
failures ((capture_error, read) ∷ packets) = failures packets + 1
failures ((packet size info_error, read) ∷ packets) = failures packets + 1
failures (other ∷ packets) = failures packets

pub record IsInRange (con : Connection) : Type 0 where
  pub tx_bytes : con.tx_bytes < word64
  pub tx_packets : con.tx_packets < word64
  pub rx_bytes : con.rx_bytes < word64
  pub rx_packets : con.rx_packets < word64

module _ (sum64 : Text → ℕ) where
  -- The bytes and packets that are sent under a key, and received.
  unfoldable pub sent_bytes : ℕ → Captured → ℕ
  sent_bytes k [] = 0
  sent_bytes k ((packet size (connection con), read) ∷ packets) =
      (if hash sum64 con == k then size else 0) + sent_bytes k packets
  sent_bytes k (other ∷ packets) = sent_bytes k packets

  unfoldable pub sent_packets : ℕ → Captured → ℕ
  sent_packets k [] = 0
  sent_packets k ((packet size (connection con), read) ∷ packets) =
      (if hash sum64 con == k then 1 else 0) + sent_packets k packets
  sent_packets k (other ∷ packets) = sent_packets k packets

  unfoldable pub received_bytes : ℕ → Captured → ℕ
  received_bytes k [] = 0
  received_bytes k ((packet size (connection con), read) ∷ packets) =
      (if reverse_hash sum64 con == k then size else 0) + received_bytes k packets
  received_bytes k (other ∷ packets) = received_bytes k packets

  unfoldable pub received_packets : ℕ → Captured → ℕ
  received_packets k [] = 0
  received_packets k ((packet size (connection con), read) ∷ packets) =
      (if reverse_hash sum64 con == k then 1 else 0) + received_packets k packets
  received_packets k (other ∷ packets) = received_packets k packets

  abbrev pub tally : ℕ → Captured → Connection → Connection
  tally k packets con = record con {
    tx_bytes = (con.tx_bytes + sent_bytes k packets) % word64;
    tx_packets = (con.tx_packets + sent_packets k packets) % word64;
    rx_bytes = (con.rx_bytes + received_bytes k packets) % word64;
    rx_packets = (con.rx_packets + received_packets k packets) % word64;
  }

  -- No packet ends the loop, and each has a connection that the table knows in one direction.
  abbrev pub AreKnown : Connections → Captured → Type 0
  AreKnown cons [] = Unit {0}
  AreKnown cons ((eof, read) ∷ packets) = ⊥
  AreKnown cons ((capture_error, read) ∷ packets) = AreKnown cons packets
  AreKnown cons ((packet size (connection con), read) ∷ packets) =
      ((has_key (hash sum64 con) cons || has_key (reverse_hash sum64 con) cons) ≡ true)
      × AreKnown cons packets
  AreKnown cons ((packet size no_connection, read) ∷ packets) = ⊥
  AreKnown cons ((packet size info_error, read) ∷ packets) = AreKnown cons packets

  AreKnown-same :
      (cons cons' : Connections) (packets : Captured)
      → ((k : ℕ) → has_key k cons' ≡ has_key k cons)
      → AreKnown cons packets
      → AreKnown cons' packets
  AreKnown-same cons cons' [] same h = tt
  AreKnown-same cons cons' ((eof, read) ∷ packets) same h = h
  AreKnown-same cons cons' ((capture_error, read) ∷ packets) same h =
      AreKnown-same cons cons' packets same h
  AreKnown-same cons cons' ((packet size (connection con), read) ∷ packets) same (h, hs) = (
    rw (same (hash sum64 con), same (reverse_hash sum64 con)) h,
    AreKnown-same cons cons' packets same hs,
  )
  AreKnown-same cons cons' ((packet size no_connection, read) ∷ packets) same h = h
  AreKnown-same cons cons' ((packet size info_error, read) ∷ packets) same h =
      AreKnown-same cons cons' packets same h

  -- One packet of a connection: what it makes of the connection under a key.
  abbrev counted : ℕ → Connection → ℕ → Connection → Connection
  counted size info k con =
      let sent = if hash sum64 info == k then log_tx_packet size con else con in
      if reverse_hash sum64 info == k then log_rx_packet size sent else sent

  lookup-counted :
      (info : Connection) (size : ℕ) (cons : Connections) (k : ℕ)
      → lookup k (log_existing_connection sum64 info size cons).0
        ≡ map_some (counted size info k) (lookup k cons)
  lookup-counted info size cons k =
      let law = (log_existing_connection_lem sum64 info size cons k).0 in
      elim (Option-cases (lookup k cons)) [
        | inl e ↦ ground (arith, e, law)
        | inr (con, e) ↦ ground (arith, e, law)
      ]

  pub has_key-logged :
      (info : Connection) (size : ℕ) (cons : Connections) (k : ℕ)
      → has_key k (log_existing_connection sum64 info size cons).0 ≡ has_key k cons
  unfolding has_key
  has_key-logged info size cons k = elim (Option-cases (lookup k cons)) [
    | inl e ↦ ground (arith, e, lookup-counted info size cons k)
    | inr (con, e) ↦ ground (arith, e, lookup-counted info size cons k)
  ]

  unless_logged :
      (info : Connection) (size : ℕ) (read : Result (List Connection)) (result : Connections × Bool)
      → result.1 ≡ true
      → log_unless_existing sum64 info size read result ≡ some (result.0, true)
  unfolding log_unless_existing
  unless_logged info size read (cons, true) h = refl
  unless_logged info size read (cons, false) h = cc

  log_packet_known :
      (info : Connection) (size : ℕ) (read : Result (List Connection)) (cons : Connections)
      → (has_key (hash sum64 info) cons || has_key (reverse_hash sum64 info) cons) ≡ true
      → log_packet sum64 info size read cons
        ≡ some ((log_existing_connection sum64 info size cons).0, true)
  unfolding log_packet
  log_packet_known info size read cons h =
      unless_logged info size read (log_existing_connection sum64 info size cons)
        ((log_existing_connection_lem sum64 info size cons 0).1 ∙ h)

  pub handle_known :
      (info : Connection) (size : ℕ) (read : Result (List Connection)) (cons : Connections)
      (errors : ℕ)
      → (has_key (hash sum64 info) cons || has_key (reverse_hash sum64 info) cons) ≡ true
      → handle_packet sum64 (packet size (connection info)) read cons errors
        ≡ running (log_existing_connection sum64 info size cons).0 errors
  unfolding handle_packet
  handle_known info size read cons errors h =
      ap (after_log errors) (log_packet_known info size read cons h)

  counted-IsInRange :
      (size : ℕ) (info : Connection) (k : ℕ) (con : Connection)
      → IsInRange con
      → IsInRange (counted size info k con)
  unfolding log_tx_packet log_rx_packet
  counted-IsInRange size info k con h = ground arith

  tally-counted :
      (size : ℕ) (info : Connection) (read : Result (List Connection)) (packets : Captured) (k : ℕ)
      (con : Connection)
      → tally k packets (counted size info k con)
        ≡ tally k ((packet size (connection info), read) ∷ packets) con
  unfolding log_tx_packet log_rx_packet sent_bytes sent_packets received_bytes received_packets
  tally-counted size info read packets k con = ground arith

  -- What the loop makes of the table, up to the errors.
  abbrev Counts : Captured → Connections → ℕ → Type 0
  Counts packets cons errors =
      (cons' : Connections) × (capture_packets sum64 packets (running cons errors)
        ≡ running cons' (errors + failures packets))
      × ((k : ℕ) (con : Connection)
          → lookup k cons ≡ some con
          → IsInRange con
          → lookup k cons' ≡ some (tally k packets con))
      × ((k : ℕ) → lookup k cons ≡ none → lookup k cons' ≡ none)

  failed_once :
      (packets : Captured) (cons : Connections) (errors : ℕ)
      → Counts packets cons (suc errors)
      → (cons' : Connections) × (capture_packets sum64 packets (running cons (suc errors))
          ≡ running cons' (errors + (failures packets + 1)))
        × ((k : ℕ) (con : Connection)
            → lookup k cons ≡ some con
            → IsInRange con
            → lookup k cons' ≡ some (tally k packets con))
        × ((k : ℕ) → lookup k cons ≡ none → lookup k cons' ≡ none)
  failed_once packets cons errors (cons', e, found, missing) =
      (cons', e ∙ ap (running cons') (omega arith), found, missing)

  -- Where each packet causes an error or has a connection that the table knows under its hash or
  -- its reverse hash, and there is no end of file, the loop goes on, with one more error for each
  -- of the former; each connection of the table whose counters are in range has, modulo 2 ^ 64,
  -- as sent the packets and bytes with its key as their hash more than before, and as received
  -- those with its key as their reverse hash; no key is new.
  pub capture_packets-counts :
      (packets : Captured) (cons : Connections) (errors : ℕ)
      → AreKnown cons packets
      → (cons' : Connections) × (capture_packets sum64 packets (running cons errors)
          ≡ running cons' (errors + failures packets))
        × ((k : ℕ) (con : Connection)
            → lookup k cons ≡ some con
            → IsInRange con
            → lookup k cons' ≡ some (tally k packets con))
        × ((k : ℕ) → lookup k cons ≡ none → lookup k cons' ≡ none)
  unfolding capture_packets handle_packet failures sent_bytes sent_packets received_bytes
      received_packets
  capture_packets-counts [] cons errors h =
      (cons, ap (running cons) (omega arith), λ k con e r. ground (arith, e, r), λ k e. e)
  capture_packets-counts ((eof, read) ∷ packets) cons errors h = absurd h
  capture_packets-counts ((capture_error, read) ∷ packets) cons errors h =
      failed_once packets cons errors (capture_packets-counts packets cons (suc errors) h)
  capture_packets-counts ((packet size (connection info), read) ∷ packets) cons errors (h, hs) =
      let next = (log_existing_connection sum64 info size cons).0 in
      let (cons', e, found, missing) =
        capture_packets-counts packets next errors
          (AreKnown-same cons next packets (has_key-logged info size cons) hs) in
      (
        cons',
        rw (handle_known info size read cons errors h) e,
        λ k con there r.
            found k (counted size info k con)
              (lookup-counted info size cons k ∙ ap (map_some (counted size info k)) there)
              (counted-IsInRange size info k con r)
            ∙ ap (λ (c : Connection). some c) (tally-counted size info read packets k con),
        λ k none_there.
            missing k
              (lookup-counted info size cons k ∙ ap (map_some (counted size info k)) none_there),
      )
  capture_packets-counts ((packet size no_connection, read) ∷ packets) cons errors h = absurd h
  capture_packets-counts ((packet size info_error, read) ∷ packets) cons errors h =
      failed_once packets cons errors (capture_packets-counts packets cons (suc errors) h)
