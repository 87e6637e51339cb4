-- ===== src/Psutil/Disk.antt =====
-- psutil/disk.go: the rings of a disk, and the check whether the disks have changed.
use go_bitflow_collector.Prelude.{
  ℕ, ◌+◌, ◌%◌, Bool, true, false, Option, none, some, List, [], ◌∷◌, ◌++◌, if◌then◌else◌, not, ◌==◌,
  length, ℤ,
}
use go_bitflow_collector.Logback.{FloatOps, stored, logback}
use go_bitflow_collector.Ring
use go_bitflow_collector.Ring.{ValueRing, ValueRingFactory, ◌>>=◌}
use go_bitflow_collector.Pcap.{Text, word64}
use go_bitflow_collector.Psutil.{UpdateError, no_error, metrics_changed, error, find, has_name}

-- disk.IOCountersStat of gopsutil; its counters are of type uint64.
pub record IoCountersStat : Type 0 where
  pub read_count : ℕ
  pub write_count : ℕ
  pub read_bytes : ℕ
  pub write_bytes : ℕ
  pub read_time : ℕ
  pub write_time : ℕ
  pub io_time : ℕ

abbrev pub Disks : Type 0
Disks = List (Text × IoCountersStat)

-- The loop over col.disks.
unfoldable pub all_there : Disks → Disks → Bool
all_there [] disks = true
all_there ((k, stat) ∷ old) disks =
    let rest = all_there old disks in if not (has_name k disks) then false else rest

-- DiskIOCollector.update, with what disk.IOCounters returns: the disks, and the result.
unfoldable pub update : Bool → Option Disks → Disks → Disks × UpdateError
unfolding all_there
update check_change none old = (old, error)
update check_change (some disks) old =
    let updated : Disks × UpdateError = (disks, no_error) in
    if check_change
    then (if not (all_there old disks)
        then (old, metrics_changed)
        else if not (length old == length disks)
        then (old, metrics_changed)
        else updated)
    else updated

-- The loop of Init: the physical disks.
unfoldable pub physical_disks : (Text → Bool) → Disks → List Text
physical_disks is_physical_disk [] = []
physical_disks is_physical_disk ((name, stat) ∷ disks) =
    let rest = physical_disks is_physical_disk disks in
    if is_physical_disk name then name ∷ rest else rest

-- The names and the disks of the children that Init makes.
unfoldable pub single_children : List Text → List (Text × List Text)
single_children [] = []
single_children (name ∷ names) = (name, name ∷ []) ∷ single_children names

abbrev all_name : Text
all_name = b'a' ∷ b'l' ∷ b'l' ∷ []

unfoldable pub init : (Text → Bool) → Option Disks → Option (Disks × List (Text × List Text))
unfolding update physical_disks single_children
init is_physical_disk none = none
init is_physical_disk (some disks) =
    let all_disks = physical_disks is_physical_disk disks in
    some (disks, single_children all_disks ++ (all_name, all_disks) ∷ [])

module _ (f : FloatOps) where
  open f use {of_nat}

  abbrev pub DiskRing : Type 0
  DiskRing = ValueRing (logback f)

  pub record IoDiskCollector : Type 0 where
    pub disks : List Text
    pub read_ring : DiskRing
    pub write_ring : DiskRing
    pub io_ring : DiskRing
    pub read_bytes_ring : DiskRing
    pub write_bytes_ring : DiskRing
    pub io_bytes_ring : DiskRing
    pub read_time_ring : DiskRing
    pub write_time_ring : DiskRing
    pub io_time_ring : DiskRing

  unfoldable pub new_child : ValueRingFactory (logback f) → List Text → IoDiskCollector
  new_child factory disks =
      let ring = Ring.new_value_ring (logback f) factory in
      record {
        disks = disks;
        read_ring = ring;
        write_ring = ring;
        io_ring = ring;
        read_bytes_ring = ring;
        write_bytes_ring = ring;
        io_bytes_ring = ring;
        read_time_ring = ring;
        write_time_ring = ring;
        io_time_ring = ring;
      }

  abbrev to_head : ℕ → DiskRing → DiskRing
  to_head n ring = Ring.add_to_head (logback f) (stored (of_nat n)) ring

  -- One round of the loop of ioDiskCollector.Update.
  unfoldable pub add_disk : IoCountersStat → IoDiskCollector → IoDiskCollector
  add_disk d col = record {
    disks = col.disks;
    read_ring = to_head d.read_count col.read_ring;
    write_ring = to_head d.write_count col.write_ring;
    io_ring = to_head ((d.read_count + d.write_count) % word64) col.io_ring;
    read_bytes_ring = to_head d.read_bytes col.read_bytes_ring;
    write_bytes_ring = to_head d.write_bytes col.write_bytes_ring;
    io_bytes_ring = to_head ((d.read_bytes + d.write_bytes) % word64) col.io_bytes_ring;
    read_time_ring = to_head d.read_time col.read_time_ring;
    write_time_ring = to_head d.write_time col.write_time_ring;
    io_time_ring = to_head d.io_time col.io_time_ring;
  }

  -- The loop: the flag says that it ran to its end.
  unfoldable pub add_disks : Disks → List Text → IoDiskCollector → IoDiskCollector × Bool
  unfolding add_disk
  add_disks disks [] col = (col, true)
  add_disks disks (name ∷ names) col = elim (find name disks) [
    | none ↦ (col, false)
    | some d ↦ add_disks disks names (add_disk d col)
  ]

  abbrev flush : ℤ → DiskRing → Option DiskRing
  flush now ring = Ring.flush_head (logback f) now ring

  unfoldable pub flush_rings : (ℕ → ℤ) → IoDiskCollector → Option IoDiskCollector
  flush_rings clock col = do
    read_ring ← flush (clock 0) col.read_ring
    write_ring ← flush (clock 1) col.write_ring
    io_ring ← flush (clock 2) col.io_ring
    read_bytes_ring ← flush (clock 3) col.read_bytes_ring
    write_bytes_ring ← flush (clock 4) col.write_bytes_ring
    io_bytes_ring ← flush (clock 5) col.io_bytes_ring
    read_time_ring ← flush (clock 6) col.read_time_ring
    write_time_ring ← flush (clock 7) col.write_time_ring
    io_time_ring ← flush (clock 8) col.io_time_ring
    some (record {
      disks = col.disks;
      read_ring = read_ring;
      write_ring = write_ring;
      io_ring = io_ring;
      read_bytes_ring = read_bytes_ring;
      write_bytes_ring = write_bytes_ring;
      io_bytes_ring = io_bytes_ring;
      read_time_ring = read_time_ring;
      write_time_ring = write_time_ring;
      io_time_ring = io_time_ring;
    })

  -- ioDiskCollector.Update: none is a panic; the flag says that no error is returned.
  unfoldable pub disk_update : (ℕ → ℤ) → Disks → IoDiskCollector → Option (IoDiskCollector × Bool)
  unfolding add_disks flush_rings
  disk_update clock disks col =
      let (col', all_found) = add_disks disks col.disks col in
      elim all_found [
        | false ↦ some (col', false)
        | true ↦ flush_rings clock col' >>= λ done. some (done, true)
      ]
