-- ===== src/Pcap/Table.antt =====
-- The table of connections: what each operation of pcap/connections.go does to every key.
use go_bitflow_collector.Prelude.{
  ℕ, ◌≡◌, refl, ◌∙◌, true, false, Option, none, some, List, [], ◌∷◌, if◌then◌else◌, ◌==◌, ◌||◌,
  lookup, put, lookup-put, pos, arith, Bool-cases, Option-cases, inl, inr,
}
use go_bitflow_collector.Pcap.{
  Text, Connection, Connections, has_key, adjust, log_tx_packet, log_rx_packet, hash, reverse_hash,
  hash_connection, log_existing_connection, log_unknown_connection, log_unless_existing,
  add_missing, add_connections, update, log_packet, default_connection, add_defaults,
  new_connections, ok, tcp, udp, tcp6, udp6,
}

abbrev pub map_some : (Connection → Connection) → Option Connection → Option Connection
map_some f none = none
map_some f (some con) = some (f con)

pub lookup-adjust :
    (k j : ℕ) (f : Connection → Connection) (cons : Connections)
    → lookup j (adjust k f cons) ≡ (if k == j then map_some f (lookup j cons) else lookup j cons)
unfolding lookup adjust
lookup-adjust k j f [] = ground arith
lookup-adjust k j f ((i, con) ∷ cons) = ground (arith, lookup-adjust k j f cons)

-- An entry that is counted if it is there.
abbrev count_entry : ℕ → (Connection → Connection) → Connections → Connections
count_entry h f cons = if has_key h cons then adjust h f cons else cons

lookup-count_entry :
    (h k : ℕ) (f : Connection → Connection) (cons : Connections)
    → lookup k (count_entry h f cons)
      ≡ (if h == k then map_some f (lookup k cons) else lookup k cons)
unfolding has_key
lookup-count_entry h k f cons = elim (Option-cases (lookup h cons)) [
  | inl e ↦ ground (arith, e)
  | inr (con, e) ↦ ground (arith, e, lookup-adjust h k f cons)
]

has_key-count_entry :
    (h k : ℕ) (f : Connection → Connection) (cons : Connections)
    → has_key k (count_entry h f cons) ≡ has_key k cons
unfolding has_key
has_key-count_entry h k f cons = elim (Option-cases (lookup k cons)) [
  | inl e ↦ ground (arith, e, lookup-count_entry h k f cons)
  | inr (con, e) ↦ ground (arith, e, lookup-count_entry h k f cons)
]

lookup-add_missing :
    (h k : ℕ) (con : Connection) (cons : Connections)
    → lookup k (add_missing h con cons)
      ≡ (if has_key k cons then lookup k cons else if h == k then some con else none)
unfolding add_missing has_key
lookup-add_missing h k con cons = elim (Option-cases (lookup k cons)) [
  | inl e ↦ ground (arith, e, lookup-put k h con cons)
  | inr (old, e) ↦ ground (arith, e, lookup-put k h con cons)
]

has_key-put :
    (h k : ℕ) (con : Connection) (cons : Connections)
    → has_key k (put h con cons) ≡ (if h == k then true else has_key k cons)
unfolding has_key
has_key-put h k con cons = ground (arith, lookup-put k h con cons)

-- The connection under a key, or else the first in the list.
abbrev pub or_else : Option Connection → Option Connection → Option Connection
or_else none other = other
or_else (some con) other = some con

module _ (sum64 : Text → ℕ) where
  -- LogExistingConnection counts the packet as sent at the connection with the hash of its source
  -- and destination, then as received at the one with the reverse hash, and leaves every other key
  -- as it is; it says that it logged the packet exactly if the table has one of the two keys.
  pub log_existing_connection_lem :
      (info : Connection) (size : ℕ) (cons : Connections) (k : ℕ)
      → let (cons', logged) = log_existing_connection sum64 info size cons in
        let old = lookup k cons in
        let sent = if hash sum64 info == k then map_some (log_tx_packet size) old else old in
        (lookup k cons'
          ≡ (if reverse_hash sum64 info == k then map_some (log_rx_packet size) sent else sent))
        × (logged ≡ (has_key (hash sum64 info) cons || has_key (reverse_hash sum64 info) cons))
  unfolding log_existing_connection
  log_existing_connection_lem info size cons k =
      let h = hash sum64 info in
      let r = reverse_hash sum64 info in
      let cons1 = count_entry h (log_tx_packet size) cons in
      (
        lookup-count_entry r k (log_rx_packet size) cons1
            ∙ rw (lookup-count_entry h k (log_tx_packet size) cons),
        rw (has_key-count_entry h r (log_tx_packet size) cons) (elim (Bool-cases (has_key r cons)) [
          | inl e ↦ ground (arith, e)
          | inr e ↦ ground (arith, e)
        ]),
      )

  -- The first connection of the list with the hash.
  unfoldable pub first_with : ℕ → List Connection → Option Connection
  first_with k [] = none
  first_with k (con ∷ all) = if hash sum64 con == k then some con else first_with k all

  add_twice :
      (k : ℕ) (con : Connection) (cons : Connections)
      → let h = hash sum64 con in
        lookup k (add_missing h con (add_missing h con cons))
        ≡ or_else (lookup k cons) (if h == k then some con else none)
  unfolding has_key
  add_twice k con cons =
      let h = hash sum64 con in
      elim (Option-cases (lookup k cons)) [
        | inl e ↦ ground (
          arith,
          e,
          lookup-add_missing h k con cons,
          lookup-add_missing h k con (add_missing h con cons),
        )
        | inr (old, e) ↦ ground (
          arith,
          e,
          lookup-add_missing h k con cons,
          lookup-add_missing h k con (add_missing h con cons),
        )
      ]

  -- After Update has read connections, every key holds the connection that it held before, with
  -- its counters, or else the first connection that was read with that hash.
  pub lookup-add_connections :
      (all : List Connection) (cons : Connections) (k : ℕ)
      → lookup k (add_connections sum64 all cons) ≡ or_else (lookup k cons) (first_with k all)
  unfolding add_connections first_with
  lookup-add_connections [] cons k = elim (Option-cases (lookup k cons)) [
    | inl e ↦ rw e
    | inr (old, e) ↦ rw e
  ]
  lookup-add_connections (con ∷ all) cons k =
      let h = hash sum64 con in
      let rest = lookup-add_connections all (add_missing h con (add_missing h con cons)) k in
      elim (Option-cases (lookup k cons)) [
        | inl e ↦ ground (arith, e, rest, add_twice k con cons)
        | inr (old, e) ↦ ground (arith, e, rest, add_twice k con cons)
      ]

  abbrev pub default_hash : Text → ℕ
  default_hash typ = hash_connection sum64 typ [] (pos 0) [] (pos 0)

  pub existing_unknown :
      (info : Connection) (size : ℕ) (cons : Connections)
      → has_key (hash sum64 info) cons ≡ false
      → has_key (reverse_hash sum64 info) cons ≡ false
      → log_existing_connection sum64 info size cons ≡ (cons, false)
  unfolding log_existing_connection
  existing_unknown info size cons h r = rw (h, r) refl

  has_key-add_connections :
      (all : List Connection) (cons : Connections) (k : ℕ)
      → has_key k cons ≡ true
      → has_key k (add_connections sum64 all cons) ≡ true
  unfolding has_key
  has_key-add_connections all cons k h = elim (Option-cases (lookup k cons)) [
    | inl e ↦ absurd (ground (arith, e, h))
    | inr (con, e) ↦ ground (arith, e, lookup-add_connections all cons k)
  ]

  unless_unknown :
      (info : Connection) (size : ℕ) (all : List Connection) (cons : Connections)
      → has_key (default_hash info.typ) cons ≡ true
      → log_unless_existing sum64 info size (ok all) (cons, false)
        ≡ some (
          adjust (default_hash info.typ) (log_rx_packet size) (add_connections sum64 all cons),
          true,
        )
  unfolding log_unless_existing update log_unknown_connection
  unless_unknown info size all cons d =
      let known = has_key-add_connections all cons (default_hash info.typ) d in
      ground (arith, known)

  -- A packet where neither its hash nor its reverse hash is a key of the table, but the hash of
  -- the default connection of its type is, is logged without an error once the connections are
  -- read: as received at the default connection, even if its own connection was read just now;
  -- every other key holds what it held before, or else the first connection read with that hash.
  pub log_packet_unknown :
      (info : Connection) (size : ℕ) (all : List Connection) (cons : Connections)
      → has_key (hash sum64 info) cons ≡ false
      → has_key (reverse_hash sum64 info) cons ≡ false
      → has_key (default_hash info.typ) cons ≡ true
      → (cons' : Connections) × (log_packet sum64 info size (ok all) cons ≡ some (cons', true))
        × ((k : ℕ)
            → let updated = or_else (lookup k cons) (first_with k all) in
              lookup k cons' ≡ (
                if default_hash info.typ == k
                then map_some (log_rx_packet size) updated
                else updated))
  unfolding log_packet
  log_packet_unknown info size all cons h r d = (
    adjust (default_hash info.typ) (log_rx_packet size) (add_connections sum64 all cons),
    rw (existing_unknown info size cons h r) (unless_unknown info size all cons d),
    λ k.
        lookup-adjust (default_hash info.typ) k (log_rx_packet size)
          (add_connections sum64 all cons)
        ∙ rw (lookup-add_connections all cons k) refl,
  )

  -- The connection of a type with neither addresses nor packets.
  abbrev pub empty_connection : Text → Connection
  empty_connection kind = record {
    state = [];
    typ = kind;
    inode = [];
    ip = [];
    port = pos 0;
    fip = [];
    fport = pos 0;
    rx_bytes = 0;
    rx_packets = 0;
    tx_bytes = 0;
    tx_packets = 0;
  }

  lookup-new_connections :
      (k : ℕ)
      → lookup k (new_connections sum64) ≡ (
          if default_hash udp6 == k
          then some (empty_connection udp6)
          else if default_hash tcp6 == k
          then some (empty_connection tcp6)
          else if default_hash udp == k
          then some (empty_connection udp)
          else if default_hash tcp == k
          then some (empty_connection tcp)
          else none)
  unfolding add_defaults lookup
  lookup-new_connections k =
      let table = λ (typ : Text) (cons : Connections).
        lookup-put k (default_hash typ) (default_connection typ) cons in
      let t1 = put (default_hash tcp) (default_connection tcp) [] in
      let t2 = put (default_hash udp) (default_connection udp) t1 in
      let t3 = put (default_hash tcp6) (default_connection tcp6) t2 in
      rw (table udp6 t3, table tcp6 t2, table udp t1, table tcp []) refl

  -- The hashes of the default connections of the four types differ.
  abbrev pub AreApart : Type 0
  AreApart =
      ((default_hash tcp == default_hash udp) ≡ false)
      × ((default_hash tcp == default_hash tcp6) ≡ false)
      × ((default_hash tcp == default_hash udp6) ≡ false)
      × ((default_hash udp == default_hash tcp6) ≡ false)
      × ((default_hash udp == default_hash udp6) ≡ false)
      × ((default_hash tcp6 == default_hash udp6) ≡ false)

  -- Where the hashes of the four empty connections of the types tcp, udp, tcp6 and udp6 differ,
  -- the table that NewConnections makes holds each of these connections, with its type, without
  -- addresses and with all counters 0, under its hash, and has no other key.
  pub new_connections-default :
      AreApart
      → (lookup (default_hash tcp) (new_connections sum64) ≡ some (empty_connection tcp))
        × (lookup (default_hash udp) (new_connections sum64) ≡ some (empty_connection udp))
        × (lookup (default_hash tcp6) (new_connections sum64) ≡ some (empty_connection tcp6))
        × (lookup (default_hash udp6) (new_connections sum64) ≡ some (empty_connection udp6))
        × ((k : ℕ)
            → (default_hash tcp == k) ≡ false
            → (default_hash udp == k) ≡ false
            → (default_hash tcp6 == k) ≡ false
            → (default_hash udp6 == k) ≡ false
            → lookup k (new_connections sum64) ≡ none)
  new_connections-default (a, b, c, d, e, f) = (
    ground (arith, a, b, c, lookup-new_connections (default_hash tcp)),
    ground (arith, a, d, e, lookup-new_connections (default_hash udp)),
    ground (arith, b, d, f, lookup-new_connections (default_hash tcp6)),
    ground (arith, c, e, f, lookup-new_connections (default_hash udp6)),
    λ k t u t6 u6. ground (arith, t, u, t6, u6, lookup-new_connections k),
  )
