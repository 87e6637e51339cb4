-- ===== src/Libvirt.antt =====
-- libvirt/: the collectors of virtual machines. What the libvirt driver returns is an argument;
-- none is an error. The XML of a domain and its paths are read by a library.
pub mod Cpu
pub mod Rings
use go_bitflow_collector.Prelude.{
  ℕ, ◌+◌, ◌-◌, ◌%◌, Bool, true, false, Option, none, some, List, [], ◌∷◌, if◌then◌else◌, not, ◌==◌,
  ◌&&◌, length, ◌++◌,
}
use go_bitflow_collector.Pcap.{Text, word64}
use go_bitflow_collector.Psutil.{UpdateError, no_error, metrics_changed, error, has_name, store}

-- SshUri, with fmt.Sprintf written out.
abbrev ssh_head : Text
ssh_head = b'q' ∷ b'e' ∷ b'm' ∷ b'u' ∷ b'+' ∷ b's' ∷ b's' ∷ b'h' ∷ b':' ∷ b'/' ∷ b'/' ∷ []

abbrev ssh_tail : Text
ssh_tail =
    b'/' ∷ b's' ∷ b'y' ∷ b's' ∷ b't' ∷ b'e' ∷ b'm' ∷ b'?' ∷ b'n' ∷ b'o' ∷ b'_' ∷ b'v' ∷ b'e' ∷ b'r'
    ∷ b'i' ∷ b'f' ∷ b'y' ∷ b'=' ∷ b'1' ∷ []

abbrev key_file_option : Text
key_file_option = b'&' ∷ b'k' ∷ b'e' ∷ b'y' ∷ b'f' ∷ b'i' ∷ b'l' ∷ b'e' ∷ b'=' ∷ []

unfoldable pub ssh_uri : Text → Text → Text
ssh_uri host [] = ssh_head ++ (host ++ ssh_tail)
ssh_uri host (b ∷ key_file) = ssh_head ++ (host ++ (ssh_tail ++ (key_file_option ++ b ∷ key_file)))

-- A domain is a value of `Domain`; `get_name` is its GetName.
module _ {Domain : Type 0} (get_name : Domain → Option Text) where
  -- The loop of fetchDomains: the table so far, and the result.
  unfoldable pub take_domains :
      Bool → List Domain → List (Text × Domain) → List (Text × Domain) × UpdateError
  take_domains check_change [] domains = (domains, no_error)
  take_domains check_change (domain ∷ list) domains = elim (get_name domain) [
    | none ↦ (domains, error)
    | some name ↦
        let rest = take_domains check_change list (store name domain domains) in
        if check_change && not (has_name name domains) then (domains, metrics_changed) else rest
  ]

  -- fetchDomains; `listed` is ListDomains after Connect, with none for an error of either.
  unfoldable pub fetch_domains :
      Bool → Option (List Domain) → List (Text × Domain) → List (Text × Domain) × UpdateError
  unfolding take_domains
  fetch_domains check_change none domains = (domains, error)
  fetch_domains check_change (some list) domains =
      if check_change && not (length domains == length list)
      then (domains, metrics_changed)
      else take_domains check_change list domains

  -- Init of the collector: the table, which names the collectors that it returns, or an error.
  unfoldable pub init : Option (List Domain) → Option (List (Text × Domain))
  unfolding fetch_domains
  init listed =
      let (domains, result) = fetch_domains false listed [] in
      elim result [ no_error ↦ some domains | metrics_changed ↦ none | error ↦ none ]

-- The connection of DriverImpl: its uri, and whether it has a connection.
pub record DriverImpl : Type 0 where
  pub uri : Text
  pub has_connection : Bool

unfoldable pub connect : Text → DriverImpl → DriverImpl
connect uri d = record d { uri = uri }

-- Close: the driver, and whether there is no error; `closes` is Close of the connection.
unfoldable pub close : Bool → DriverImpl → DriverImpl × Bool
close closes d = (record d { has_connection = false }, if d.has_connection then closes else true)

-- connection: the driver and whether there is a connection. `alive` says that IsAlive returns true
-- without an error, and `opens` that NewConnect returns without one.
unfoldable pub open_new : Bool → DriverImpl → DriverImpl × Bool
open_new opens d =
    if length d.uri == 0
    then (d, false)
    else if opens
    then (record d { has_connection = true }, true)
    else (d, false)

unfoldable pub connection : Bool → Bool → Bool → DriverImpl → DriverImpl × Bool
unfolding close open_new
connection alive closes opens d =
    if d.has_connection
    then (if alive
        then (d, true)
        else let (d', closed) = close closes d in if closed then open_new opens d' else (d', false))
    else open_new opens d

-- DomainImpl.CpuStats: exactly one statistic, or an error.
unfoldable pub single {ℓ} : {A : Type ℓ} → Option (List A) → Option A
single none = none
single (some []) = none
single (some (stats ∷ [])) = some stats
single (some (first ∷ second ∷ stats)) = none

pub data MemoryTag : Type 0 where
  unused available other_tag : MemoryTag

-- DomainImpl.MemoryStats: Unused and Available, of the statistics with their tags.
unfoldable pub memory_from : List (MemoryTag × ℕ) → ℕ × ℕ → ℕ × ℕ
memory_from [] res = res
memory_from ((unused, val) ∷ stats) (u, a) = memory_from stats (val, a)
memory_from ((available, val) ∷ stats) (u, a) = memory_from stats (u, val)
memory_from ((other_tag, val) ∷ stats) res = memory_from stats res

-- GetVolumeInfo: the error of the monitor command goes to a variable of the inner scope, so that
-- there is never an error. `parse` is parseVolumeInfo.
unfoldable pub get_volume_info {ℓ} : {A : Type ℓ} → (Text → List A) → Option Text → Option (List A)
get_volume_info parse none = some []
get_volume_info parse (some text) = some (parse text)

-- memoryStatCollector: readUsed, and the value that readPercent divides by `available`.
unfoldable pub used_memory : ℕ → ℕ → ℕ
used_memory memory free = (memory + word64 - free % word64) % word64

-- The loops of vmBlockIoCollector.Update and vmBlockStatsCollector.Update: the statistics of all
-- devices, or an error, where the collector keeps its old ones.
unfoldable pub block_stats {ℓ} :
    {Stats : Type ℓ} → (Text → Option Stats) → List Text → Option (List Stats)
block_stats stats_of [] = some []
block_stats stats_of (dev ∷ devices) = elim (stats_of dev) [
  | none ↦ none
  | some stats ↦ elim (block_stats stats_of devices) [
    | none ↦ none
    | some rest ↦ some (stats ∷ rest)
  ]
]

unfoldable pub update_block {ℓ} :
    {Stats : Type ℓ} → (Text → Option Stats) → List Text → List Stats → List Stats × Bool
unfolding block_stats
update_block stats_of devices old = elim (block_stats stats_of devices) [
  | none ↦ (old, false)
  | some stats ↦ (stats, true)
]
