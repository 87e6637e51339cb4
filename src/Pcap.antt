-- ===== src/Pcap.antt =====
-- pcap/connection.go and pcap/connections.go: the counters of network connections, and the table
-- of connections. A Go string is the list of its bytes. The table holds each *Connection under one
-- key, so that its value stands in the table itself.
pub mod Proc
pub mod Inodes
pub mod Capture
pub mod Table
pub mod Captured
pub mod Counted
use go_bitflow_collector.Prelude.{
  ℕ, suc, ◌+◌, ◌-◌, ◌/◌, ◌%◌, ◌^◌, Bool, true, false, Option, none, some, List, [], ◌∷◌, ◌++◌, map,
  if◌then◌else◌, ltb, ◌==◌, ◌&&◌, ◌||◌, not, lookup, put, ℤ, pos, negsuc, ltb_ℤ,
}

abbrev pub Text : Type 0
Text = List ℕ

-- A result, an error, or a panic, such as an index or a slice out of range.
pub data Result (A : Type 0) : Type 0 where
  ok : A → Result A
  err : Result A
  panic : Result A

-- Go's == and < on strings.
unfoldable pub eq_text : Text → Text → Bool
eq_text [] [] = true
eq_text [] (y ∷ ys) = false
eq_text (x ∷ xs) [] = false
eq_text (x ∷ xs) (y ∷ ys) = x == y && eq_text xs ys

unfoldable pub lt_text : Text → Text → Bool
lt_text xs [] = false
lt_text [] (y ∷ ys) = true
lt_text (x ∷ xs) (y ∷ ys) = ltb x y || (x == y && lt_text xs ys)

-- Port and Fport are of type int; the counters are of type uint64.
pub record Connection : Type 0 where
  pub state : Text
  pub typ : Text
  pub inode : Text
  pub ip : Text
  pub port : ℤ
  pub fip : Text
  pub fport : ℤ
  pub rx_bytes : ℕ
  pub rx_packets : ℕ
  pub tx_bytes : ℕ
  pub tx_packets : ℕ

abbrev pub word64 : ℕ
word64 = 2 ^ 64

unfoldable pub log_tx_packet : ℕ → Connection → Connection
log_tx_packet size con = record con {
  tx_bytes = (con.tx_bytes + size) % word64;
  tx_packets = (con.tx_packets + 1) % word64;
}

unfoldable pub log_rx_packet : ℕ → Connection → Connection
log_rx_packet size con = record con {
  rx_bytes = (con.rx_bytes + size) % word64;
  rx_packets = (con.rx_packets + 1) % word64;
}

unfoldable pub has_data : Connection → Bool
has_data con = ltb 0 ((con.rx_packets + con.tx_packets) % word64)

-- uint32(port), and binary.LittleEndian.PutUint32.
unfoldable pub uint32_of : ℤ → ℕ
uint32_of (pos n) = n % 2 ^ 32
uint32_of (negsuc n) = 2 ^ 32 - 1 - n % 2 ^ 32

unfoldable pub put_uint32 : ℕ → Text
put_uint32 n = n % 256 ∷ n / 256 % 256 ∷ n / 65536 % 256 ∷ n / 16777216 % 256 ∷ []

abbrev pub tcp : Text
tcp = b't' ∷ b'c' ∷ b'p' ∷ []

abbrev pub udp : Text
udp = b'u' ∷ b'd' ∷ b'p' ∷ []

abbrev pub tcp6 : Text
tcp6 = b't' ∷ b'c' ∷ b'p' ∷ b'6' ∷ []

abbrev pub udp6 : Text
udp6 = b'u' ∷ b'd' ∷ b'p' ∷ b'6' ∷ []

abbrev pub all_connection_types : List Text
all_connection_types = tcp ∷ udp ∷ tcp6 ∷ udp6 ∷ []

abbrev pub default_connection : Text → Connection
default_connection typ = record {
  state = [];
  typ = typ;
  inode = [];
  ip = [];
  port = pos 0;
  fip = [];
  fport = pos 0;
  rx_bytes = 0;
  rx_packets = 0;
  tx_bytes = 0;
  tx_packets = 0;
}

abbrev pub Connections : Type 0
Connections = List (ℕ × Connection)

unfoldable pub has_key : ℕ → Connections → Bool
has_key k cons = elim (lookup k cons) [ none ↦ false | some _ ↦ true ]

-- A write to the connection under a key.
unfoldable pub adjust : ℕ → (Connection → Connection) → Connections → Connections
adjust k f [] = []
adjust k f ((j, con) ∷ cons) =
    if j == k then (j, f con) ∷ adjust k f cons else (j, con) ∷ adjust k f cons

-- Connections.Sorted. `sort` is sort.Sort.
unfoldable pub sorted : (List Connection → List Connection) → Connections → List Connection
sorted sort cons = sort (map (λ (k, con). con) cons)

-- ConnectionSlice.Less, its switch.
unfoldable pub less_fields : Connection → Connection → Bool
less_fields a b =
    if lt_text a.typ b.typ
    then true
    else if lt_text b.typ a.typ
    then false
    else if lt_text a.state b.state
    then true
    else if lt_text b.state a.state
    then false
    else if lt_text a.ip b.ip
    then true
    else if lt_text b.ip a.ip
    then false
    else if ltb_ℤ a.port b.port
    then true
    else if ltb_ℤ b.port a.port
    then false
    else if lt_text a.fip b.fip
    then true
    else if lt_text b.fip a.fip
    then false
    else if ltb_ℤ a.fport b.fport
    then true
    else if ltb_ℤ b.fport a.fport
    then false
    else false

unfoldable pub less : Connection → Connection → Bool
less a b =
    if eq_text a.state []
    then (if eq_text b.state [] then lt_text a.typ b.typ else true)
    else if eq_text b.state []
    then false
    else less_fields a b

-- An entry that Update adds if the key is new.
unfoldable pub add_missing : ℕ → Connection → Connections → Connections
add_missing k con cons = if not (has_key k cons) then put k con cons else cons

-- `sum64` is the hash of hash/fnv over all the bytes that are written.
module _ (sum64 : Text → ℕ) where
  unfoldable pub hash_connection : Text → Text → ℤ → Text → ℤ → ℕ
  hash_connection typ ip port fip fport =
      sum64 (typ ++ (ip ++ (fip ++ (put_uint32 (uint32_of port) ++ put_uint32 (uint32_of fport)))))

  abbrev pub hash : Connection → ℕ
  hash con = hash_connection con.typ con.ip con.port con.fip con.fport

  abbrev pub reverse_hash : Connection → ℕ
  reverse_hash con = hash_connection con.typ con.fip con.fport con.ip con.port

  -- The loop of NewConnections.
  unfoldable pub add_defaults : List Text → Connections → Connections
  add_defaults [] cons = cons
  add_defaults (typ ∷ types) cons =
      let con = default_connection typ in add_defaults types (put (hash con) con cons)

  abbrev pub new_connections : Connections
  new_connections = add_defaults all_connection_types []

  -- Whether the packet was logged stands beside the table.
  unfoldable pub log_existing_connection : Connection → ℕ → Connections → Connections × Bool
  log_existing_connection info size cons =
      let sent = has_key (hash info) cons in
      let cons1 = if sent then adjust (hash info) (log_tx_packet size) cons else cons in
      let received = has_key (reverse_hash info) cons1 in
      (
        if received then adjust (reverse_hash info) (log_rx_packet size) cons1 else cons1,
        if received then true else sent,
      )

  -- none is the error that no default connection is found.
  unfoldable pub log_unknown_connection : Text → ℕ → Connections → Option Connections
  log_unknown_connection typ size cons =
      let default_hash = hash_connection typ [] (pos 0) [] (pos 0) in
      if has_key default_hash cons
      then some (adjust default_hash (log_rx_packet size) cons)
      else none

  -- The loop of Update: `reverseHash` is con.Hash() there too.
  unfoldable pub add_connections : List Connection → Connections → Connections
  add_connections [] cons = cons
  add_connections (con ∷ all) cons =
      add_connections all (add_missing (hash con) con (add_missing (hash con) con cons))

  -- `read` is what ReadAllConnections comes to.
  unfoldable pub update : Result (List Connection) → Connections → Result Connections
  unfolding add_connections
  update err cons = err
  update panic cons = panic
  update (ok all) cons = ok (add_connections all cons)

  -- LogPacket after LogExistingConnection, with what that returned: the table, and whether no
  -- error is returned; none is a panic.
  unfoldable pub log_unless_existing :
      Connection → ℕ → Result (List Connection) → Connections × Bool → Option (Connections × Bool)
  unfolding update log_unknown_connection
  log_unless_existing info size read (cons, true) = some (cons, true)
  log_unless_existing info size read (cons, false) = elim (update read cons) [
    | err ↦ some (cons, false)
    | panic ↦ none
    | ok updated ↦ elim (log_unknown_connection info.typ size updated) [
      | none ↦ some (updated, false)
      | some cons' ↦ some (cons', true)
    ]
  ]

  unfoldable pub log_packet :
      Connection → ℕ → Result (List Connection) → Connections → Option (Connections × Bool)
  unfolding log_unless_existing log_existing_connection
  log_packet info size read cons =
      log_unless_existing info size read (log_existing_connection info size cons)
