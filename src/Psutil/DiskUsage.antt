-- ===== src/Psutil/DiskUsage.antt =====
-- psutil/disk_usage.go: the partitions and how full they are.
use go_bitflow_collector.Prelude.{
  ℕ, ◌+◌, ◌%◌, Bool, true, false, Option, none, some, List, [], ◌∷◌, if◌then◌else◌, not, ◌==◌,
  length,
}
use go_bitflow_collector.Logback.{FloatOps}
use go_bitflow_collector.Pcap.{Text, word64}
use go_bitflow_collector.Psutil.{UpdateError, no_error, metrics_changed, error, has_name, store}

-- disk.PartitionStat of gopsutil: the device and the mount point.
pub record PartitionStat : Type 0 where
  pub device : Text
  pub mountpoint : Text

-- The text behind the last `/`, if there is one.
unfoldable pub after_slash : Text → Option Text
after_slash [] = none
after_slash (b ∷ text) = elim (after_slash text) [
  | some rest ↦ some rest
  | none ↦ if b == b'/' then some text else none
]

unfoldable pub partition_name : PartitionStat → Text
unfolding after_slash
partition_name partition = elim (after_slash partition.device) [
  | none ↦ partition.device
  | some name ↦ name
]

-- getAllPartitions: the mount points by their names.
unfoldable pub fill_partitions : List PartitionStat → List (Text × Text) → List (Text × Text)
unfolding partition_name
fill_partitions [] result = result
fill_partitions (partition ∷ partitions) result =
    fill_partitions partitions (store (partition_name partition) partition.mountpoint result)

unfoldable pub get_all_partitions : Option (List PartitionStat) → Option (List (Text × Text))
unfolding fill_partitions
get_all_partitions none = none
get_all_partitions (some partitions) = some (fill_partitions partitions [])

module _ {Stats : Type 0} where
  -- The loop of Update: the names that were checked, or none where one is new.
  unfoldable pub check_names :
      List PartitionStat → List (Text × Stats) → List (Text × Bool) → Option (List (Text × Bool))
  unfolding partition_name
  check_names [] known checked = some checked
  check_names (partition ∷ partitions) known checked =
      let name = partition_name partition in
      let rest = check_names partitions known (store name true checked) in
      if not (has_name name known) then none else rest

  -- DiskUsageCollector.Update
  unfoldable pub update : Option (List PartitionStat) → List (Text × Stats) → UpdateError
  unfolding check_names
  update none known = error
  update (some partitions) known = elim (check_names partitions known []) [
    | none ↦ metrics_changed
    | some checked ↦ if not (length checked == length known) then metrics_changed else no_error
  ]

module _ (f : FloatOps) where
  open f use {Value, of_nat, add, mul, div}

  -- disk.UsageStat of gopsutil; its numbers of bytes are of type uint64.
  pub record UsageStat : Type 0 where
    pub total : ℕ
    pub free : ℕ
    pub used : ℕ
    pub used_percent : Value

  abbrev no_usage : UsageStat
  no_usage = record { total = 0; free = 0; used = 0; used_percent = of_nat 0 }

  -- diskUsageCollector.Update: the statistics, and whether no error is returned.
  unfoldable pub update_usage : Option UsageStat → UsageStat × Bool
  update_usage none = (no_usage, false)
  update_usage (some stats) = (stats, true)

  -- allDiskUsageCollector.readFree and readPercent.
  unfoldable pub free_from : Value → List (Text × UsageStat) → Value
  free_from res [] = res
  free_from res ((name, stats) ∷ partitions) = free_from (add res (of_nat stats.free)) partitions

  abbrev pub read_free : List (Text × UsageStat) → Value
  read_free partitions = free_from (of_nat 0) partitions

  unfoldable pub count_from : ℕ → ℕ → List (Text × UsageStat) → ℕ × ℕ
  count_from used total [] = (used, total)
  count_from used total ((name, stats) ∷ partitions) =
      count_from ((used + stats.used) % word64) ((total + stats.total) % word64) partitions

  unfoldable pub read_percent : List (Text × UsageStat) → Value
  unfolding count_from
  read_percent partitions =
      let (used, total) = count_from 0 0 partitions in
      if total == 0 then of_nat 0 else mul (div (of_nat used) (of_nat total)) (of_nat 100)
