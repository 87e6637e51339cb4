-- ===== src/Tests/PcapTests.antt =====
-- The table of connections at concrete inputs.
use go_bitflow_collector.Prelude.{
  ℕ, ◌+◌, ◌*◌, ◌≡◌, ◌↔◌, refl, ◌||◌, true, false, none, some, [], ◌∷◌, lookup, pos, ◌==◌,
  if◌then◌else◌, put,
}
use go_bitflow_collector.Pcap.{
  Text, Connection, Connections, tcp, udp, tcp6, udp6, default_connection, new_connections,
  log_existing_connection, log_packet, log_tx_packet, log_rx_packet, hash, reverse_hash, has_key,
  add_connections, add_defaults, hash_connection, ok, err, panic, put_uint32, uint32_of,
}
use go_bitflow_collector.Pcap.Table.{
  map_some, or_else, first_with, log_existing_connection_lem, lookup-add_connections,
  log_packet_unknown, new_connections-default, default_hash, empty_connection,
}
use go_bitflow_collector.Pcap.Capture.{
  Captured, packet, connection, capture_error, running, panicked, capture_packets,
}
use go_bitflow_collector.Pcap.Captured.{is_read, reaches_panic, capture_packets-panicked}
use go_bitflow_collector.Pcap.Counted.{
  IsInRange, failures, tally, sent_bytes, capture_packets-counts,
}

sum_text : Text → ℕ
sum_text [] = 7
sum_text (b ∷ text) = b + 31 * sum_text text

abbrev info : Connection
info = record (default_connection tcp) {
  ip = b'1' ∷ b'.' ∷ b'2' ∷ [];
  port = pos 80;
  fip = b'3' ∷ b'.' ∷ b'4' ∷ [];
  fport = pos 1024;
}

abbrev one_connection : Connections
one_connection = (hash sum_text info, info) ∷ []

log_existing_connection_lem_example :
    let (cons', logged) = log_existing_connection sum_text info 1500 one_connection in
    let old = lookup (hash sum_text info) one_connection in
    let sent =
      if hash sum_text info == hash sum_text info then map_some (log_tx_packet 1500) old else old in
    (lookup (hash sum_text info) cons' ≡ (
      if reverse_hash sum_text info == hash sum_text info
      then map_some (log_rx_packet 1500) sent
      else sent))
    × (logged ≡ (
        has_key (hash sum_text info) one_connection
        || has_key (reverse_hash sum_text info) one_connection))
log_existing_connection_lem_example =
    log_existing_connection_lem sum_text info 1500 one_connection (hash sum_text info)

lookup-add_connections_example :
    lookup (hash sum_text info) (add_connections sum_text (info ∷ []) (new_connections sum_text))
    ≡ or_else
        (lookup (hash sum_text info) (new_connections sum_text))
        (first_with sum_text (hash sum_text info) (info ∷ []))
lookup-add_connections_example =
    lookup-add_connections sum_text (info ∷ []) (new_connections sum_text) (hash sum_text info)

log_packet_unknown_example :
    (cons' : Connections) × (log_packet sum_text info 1500
        (ok (info ∷ []))
        (new_connections sum_text)
      ≡ some (cons', true))
    × ((k : ℕ)
        → let updated =
            or_else (lookup k (new_connections sum_text)) (first_with sum_text k (info ∷ [])) in
          lookup k cons' ≡ (
            if default_hash sum_text tcp == k
            then map_some (log_rx_packet 1500) updated
            else updated))
unfolding sum_text has_key lookup add_defaults hash_connection put_uint32 uint32_of put
log_packet_unknown_example =
    log_packet_unknown sum_text info 1500 (info ∷ []) (new_connections sum_text) refl refl refl

new_connections-default_example :
    let key = λ (kind : Text). default_hash sum_text kind in
    let table = new_connections sum_text in
    (lookup (key tcp) table ≡ some (empty_connection sum_text tcp))
    × (lookup (key udp) table ≡ some (empty_connection sum_text udp))
    × (lookup (key tcp6) table ≡ some (empty_connection sum_text tcp6))
    × (lookup (key udp6) table ≡ some (empty_connection sum_text udp6))
    × ((k : ℕ)
        → (key tcp == k) ≡ false
        → (key udp == k) ≡ false
        → (key tcp6 == k) ≡ false
        → (key udp6 == k) ≡ false
        → lookup k table ≡ none)
unfolding sum_text hash_connection put_uint32 uint32_of
new_connections-default_example =
    new_connections-default sum_text (refl, refl, refl, refl, refl, refl)

abbrev two_packets : Captured
two_packets =
    (packet 1500 (connection info), err)
    ∷ (capture_error, err)
    ∷ (packet 40 (connection info), panic)
    ∷ []

capture_packets-counts_example :
    (cons' : Connections) × (capture_packets sum_text two_packets (running one_connection 0)
      ≡ running cons' (0 + failures two_packets))
    × ((k : ℕ) (con : Connection)
        → lookup k one_connection ≡ some con
        → IsInRange con
        → lookup k cons' ≡ some (tally sum_text k two_packets con))
    × ((k : ℕ) → lookup k one_connection ≡ none → lookup k cons' ≡ none)
unfolding has_key lookup sum_text hash_connection put_uint32 uint32_of
capture_packets-counts_example =
    capture_packets-counts sum_text two_packets one_connection 0 (refl, (refl, tt))

-- The bytes of both packets are counted.
two_packets-bytes : sent_bytes sum_text (hash sum_text info) two_packets ≡ 1540
unfolding sent_bytes sum_text hash_connection put_uint32 uint32_of
two_packets-bytes = refl

-- Two packets of a connection that is read at the first one, and one of another connection that
-- cannot be read.
abbrev other_info : Connection
other_info = record info { port = pos 443 }

abbrev unreadable : Captured
unreadable =
    (packet 1500 (connection info), ok (info ∷ []))
    ∷ (packet 1500 (connection info), panic)
    ∷ (packet 60 (connection other_info), panic)
    ∷ []

capture_packets-panicked_example :
    (capture_packets sum_text unreadable (running (new_connections sum_text) 0) ≡ panicked)
    ↔ (reaches_panic sum_text (λ k. has_key k (new_connections sum_text)) unreadable ≡ true)
capture_packets-panicked_example =
    capture_packets-panicked sum_text unreadable (new_connections sum_text) 0

unreadable-reaches :
    reaches_panic sum_text (λ k. has_key k (new_connections sum_text)) unreadable ≡ true
unfolding reaches_panic is_read sum_text has_key lookup add_defaults hash_connection put_uint32
    uint32_of put
unreadable-reaches = refl
