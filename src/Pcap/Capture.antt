-- ===== src/Pcap/Capture.antt =====
-- pcap/capture.go and pcap/pcap_impl/pcap.go: captured packets, the connection that a packet
-- belongs to, and the loop that logs them. What the gopacket library returns is an argument.
use go_bitflow_collector.Prelude.{
  ℕ, suc, ◌-◌, ◌%◌, Bool, true, false, Option, none, some, List, [], ◌∷◌, ◌++◌, if◌then◌else◌, not,
  ℤ, pos, negsuc,
}
use go_bitflow_collector.Pcap.{
  Text, Connection, Connections, eq_text, tcp, udp, default_connection, log_packet, word64, Result,
}

-- What Capture or Info of a packet come to: a nil *Connection is no connection, without an error.
pub data PacketInfo : Type 0 where
  connection : Connection → PacketInfo
  no_connection : PacketInfo
  info_error : PacketInfo

-- The layers of a packet, as Info reads them: the name of the layer, and its two endpoints.
pub record Layer : Type 0 where
  pub layer_type : Text
  pub source : Text
  pub destination : Text

abbrev pub tcp_layer : Text
tcp_layer = b'T' ∷ b'C' ∷ b'P' ∷ []

abbrev pub udp_layer : Text
udp_layer = b'U' ∷ b'D' ∷ b'P' ∷ []

abbrev pub ipv4_layer : Text
ipv4_layer = b'I' ∷ b'P' ∷ b'v' ∷ b'4' ∷ []

abbrev pub ipv6_layer : Text
ipv6_layer = b'I' ∷ b'P' ∷ b'v' ∷ b'6' ∷ []

-- The type of a transport layer; none is an error.
unfoldable pub transport_type : Text → Option Text
transport_type layer =
    if eq_text layer tcp_layer then some tcp else if eq_text layer udp_layer then some udp else none

-- What is appended to the type for a network layer; none is an error.
unfoldable pub network_suffix : Text → Option Text
network_suffix layer =
    if eq_text layer ipv4_layer
    then some []
    else if eq_text layer ipv6_layer
    then some (b'6' ∷ [])
    else none

-- Packet.Info; `atoi` is strconv.Atoi, with none for an error.
unfoldable pub info : (Text → Option ℤ) → Option Layer → Option Layer → PacketInfo
unfolding transport_type network_suffix
info atoi none network = no_connection
info atoi (some transport) network = elim (atoi transport.source) [
  | none ↦ info_error
  | some src_port ↦ elim (atoi transport.destination) [
    | none ↦ info_error
    | some dest_port ↦ elim network [
      | none ↦ no_connection
      | some layer ↦ elim (transport_type transport.layer_type) [
        | none ↦ info_error
        | some typ ↦ elim (network_suffix layer.layer_type) [
          | none ↦ info_error
          | some suffix ↦ connection (record (default_connection (typ ++ suffix)) {
            ip = layer.source;
            port = src_port;
            fip = layer.destination;
            fport = dest_port;
          })
        ]
      ]
    ]
  ]
]

-- What NextPacket returns: an error, which can be io.EOF, or a packet.
pub data NextPacket : Type 0 where
  end_of_file : NextPacket
  next_error : NextPacket
  next : (has_error_layer : Bool) → (size : ℤ) → (packet : PacketInfo) → NextPacket

-- What PacketSource.Capture returns; for a packet, its size and what its Info will return.
pub data CapturedPacket : Type 0 where
  eof : CapturedPacket
  capture_error : CapturedPacket
  packet : ℕ → PacketInfo → CapturedPacket

-- uint64 of an int.
unfoldable pub uint64_of : ℤ → ℕ
uint64_of (pos n) = n % word64
uint64_of (negsuc n) = word64 - 1 - n % word64

-- PacketSource.Capture; none is a panic: the branch of an error layer calls Error() of res.Err,
-- which is nil there.
unfoldable pub capture : NextPacket → Option CapturedPacket
unfolding uint64_of
capture end_of_file = some eof
capture next_error = some capture_error
capture (next true size info) = none
capture (next false size info) = some (packet (uint64_of size) info)

-- The loop over captured packets: it goes on, has ended with io.EOF, or has panicked; with the
-- table and how often errorCallback was called.
pub data CaptureLoop : Type 0 where
  running : Connections → ℕ → CaptureLoop
  finished : Connections → ℕ → CaptureLoop
  panicked : CaptureLoop

-- The loop after LogPacket: an error is passed to errorCallback.
abbrev pub after_log : ℕ → Option (Connections × Bool) → CaptureLoop
after_log errors none = panicked
after_log errors (some (cons, true)) = running cons errors
after_log errors (some (cons, false)) = running cons (suc errors)

-- The captured packets, each with what ReadAllConnections would come to then.
abbrev pub Captured : Type 0
Captured = List (CapturedPacket × Result (List Connection))

module _ (sum64 : Text → ℕ) where
  -- One round of the loop in Connections.CapturePackets; `read` is what ReadAllConnections would
  -- come to. LogPacket of a nil *Connection is a panic: hashing it reads its fields.
  unfoldable pub handle_packet :
      CapturedPacket → Result (List Connection) → Connections → ℕ → CaptureLoop
  unfolding log_packet
  handle_packet eof read cons errors = finished cons (suc errors)
  handle_packet capture_error read cons errors = running cons (suc errors)
  handle_packet (packet size (connection con)) read cons errors =
      after_log errors (log_packet sum64 con size read cons)
  handle_packet (packet size no_connection) read cons errors = panicked
  handle_packet (packet size info_error) read cons errors = running cons (suc errors)

  unfoldable pub capture_packets : Captured → CaptureLoop → CaptureLoop
  unfolding handle_packet
  capture_packets [] state = state
  capture_packets ((captured, read) ∷ packets) (running cons errors) =
      capture_packets packets (handle_packet captured read cons errors)
  capture_packets (p ∷ packets) (finished cons errors) = finished cons errors
  capture_packets (p ∷ packets) panicked = panicked

-- PhysicalInterfaces: each device with whether its addresses are global unicast ones.
unfoldable pub any_public : List Bool → Bool
any_public [] = false
any_public (is_public ∷ addresses) =
    let rest = any_public addresses in if is_public then true else rest

unfoldable pub physical_interfaces : List (Text × List Bool) → List Text
unfolding any_public
physical_interfaces [] = []
physical_interfaces ((name, addresses) ∷ nics) =
    let rest = physical_interfaces nics in if any_public addresses then name ∷ rest else rest

-- OpenSources of NICs: the NICs that are opened, or none for an error. `devices` is
-- FindAllDevs, and `opens` says which NICs can be opened.
unfoldable pub chosen_nics :
    Option (List (Text × List Bool)) → List Text → Bool → Option (List Text)
unfolding physical_interfaces
chosen_nics devices (nic ∷ nics) all_public_nics = some (nic ∷ nics)
chosen_nics none [] all_public_nics = none
chosen_nics (some devices) [] all_public_nics = elim (physical_interfaces devices) [
  | [] ↦ none
  | nic ∷ nics ↦ some (if not all_public_nics then nic ∷ [] else nic ∷ nics)
]

unfoldable pub all_open : (Text → Bool) → List Text → Bool
all_open opens [] = true
all_open opens (nic ∷ nics) = let rest = all_open opens nics in if opens nic then rest else false

unfoldable pub open_sources :
    Option (List (Text × List Bool)) → (Text → Bool) → List Text → Bool → Option (List Text)
unfolding chosen_nics all_open
open_sources devices opens nics all_public_nics = elim (chosen_nics devices nics all_public_nics) [
  | none ↦ none
  | some chosen ↦ if all_open opens chosen then some chosen else none
]
