-- ===== src/Tests/PsutilTests.antt =====
-- The network counters and the observed processes of psutil/ at concrete inputs.
use go_bitflow_collector.Prelude.{
  ℕ, ◌+◌, ◌≡◌, refl, ◌≢◌, ◌↔◌, length, ◌⊎◌, true, none, some, List, [], ◌∷◌, ◌++◌, if◌then◌else◌,
  ◌==◌, contains, ℤ, pos, ◌+ℤ◌, ◌-ℤ◌, ltb_ℤ, not, arith,
}
use go_bitflow_collector.Logback.{FloatOps, logback}
use go_bitflow_collector.Ring.{ValueRing, ValueRingFactory, new_value_ring}
use go_bitflow_collector.Pcap.{Text}
use go_bitflow_collector.Pcap.Proc.{parse_ip}
use go_bitflow_collector.Pcap.{ok}
use go_bitflow_collector.Pcap.Proc.Address.{hex_byte, decimal, parse_ip-hex_byte}
use go_bitflow_collector.Psutil.{no_error, metrics_changed}
use go_bitflow_collector.Psutil.Disk
use go_bitflow_collector.Psutil.Disk.{Disks, update}
use go_bitflow_collector.Psutil.NetProto.{Protocols, update_protocols, take_over}
use go_bitflow_collector.Pcap.{eq_text}
use go_bitflow_collector.Psutil.{has_name, store}
use go_bitflow_collector.Psutil.Changed.{update_protocols-same_names, IsCovered, update-changed}
use go_bitflow_collector.Psutil.ProcStatus.{proc_get_misc}
use go_bitflow_collector.Psutil.ProcInfo.{ProcessInfo, new_process, update_pcap}
use go_bitflow_collector.Psutil.LastConnection.{AreIdle, HasNewest, update_pcap-HasNewest}
use go_bitflow_collector.Pcap.{Connection}
use go_bitflow_collector.Psutil.Net.{BaseNetIoCounters}
use go_bitflow_collector.Psutil.Status.{
  StatusLine, field, bare, unlines, status_lines, proc_get_misc-unlines,
}
use go_bitflow_collector.Psutil.Net.{
  IoCountersStat, NetIoCounters, NetMetric, bytes, packets, rx_bytes, rx_packets, tx_bytes,
  tx_packets, errors, dropped, ring_of, add, new_net_io_counters, new_base_net_io_counters,
}
use go_bitflow_collector.Psutil.Counted.{IsIdle, Records, amount, place, add-Records}
use go_bitflow_collector.Psutil.Process.{Os, Procs, has_pid, add_children}
use go_bitflow_collector.Psutil.Observed.{DescendsFrom, add_children_complete}

parse_ip-hex_byte_example :
    parse_ip (hex_byte 1 ++ (hex_byte 0 ++ (hex_byte 0 ++ hex_byte 127)))
    ≡ ok (decimal 127 ++ b'.' ∷ decimal 0 ++ b'.' ∷ decimal 0 ++ b'.' ∷ decimal 1)
parse_ip-hex_byte_example =
    parse_ip-hex_byte 1 0 0 127 (omega arith) (omega arith) (omega arith) (omega arith)

-- Whole numbers in place of floating-point ones.
abbrev pub whole : FloatOps
whole = record {
  Value = ℤ;
  of_nat = pos;
  add = ◌+ℤ◌;
  sub = ◌-ℤ◌;
  mul = λ a b. a;
  div = λ a b. a;
  is_negative = λ a. ltb_ℤ a (pos 0);
  le = λ a b. not (ltb_ℤ b a);
  seconds = λ a. a;
}

abbrev pub factory : ValueRingFactory (logback whole)
factory = record { size = 3; interval = pos 1 }

abbrev pub fresh : NetIoCounters whole
fresh = new_net_io_counters whole factory

abbrev pub fresh_ring : ValueRing (logback whole)
fresh_ring = new_value_ring (logback whole) factory

pub fresh_ring-IsIdle : IsIdle whole fresh_ring
unfolding new_value_ring
fresh_ring-IsIdle = record { valid = record { in_range = omega arith }; empty = refl }

pub fresh-IsIdle : (m : NetMetric whole) → IsIdle whole (ring_of whole m fresh)
unfolding ring_of new_net_io_counters new_base_net_io_counters
fresh-IsIdle bytes = fresh_ring-IsIdle
fresh-IsIdle packets = fresh_ring-IsIdle
fresh-IsIdle rx_bytes = fresh_ring-IsIdle
fresh-IsIdle rx_packets = fresh_ring-IsIdle
fresh-IsIdle tx_bytes = fresh_ring-IsIdle
fresh-IsIdle tx_packets = fresh_ring-IsIdle
fresh-IsIdle errors = fresh_ring-IsIdle
fresh-IsIdle dropped = fresh_ring-IsIdle

abbrev stat : IoCountersStat
stat = record {
  name = [];
  bytes_sent = 700;
  bytes_recv = 900;
  packets_sent = 7;
  packets_recv = 9;
  errin = 1;
  errout = 2;
  dropin = 0;
  dropout = 0;
}

add-Records_example :
    (c : NetIoCounters whole) × (add whole (λ i. pos (10 + i)) stat fresh ≡ some c)
    × ((m : NetMetric whole)
        → Records whole
            (pos (10 + place whole m))
            (amount whole m stat)
            (ring_of whole m fresh)
            (ring_of whole m c))
add-Records_example = add-Records whole (λ i. pos (10 + i)) stat fresh fresh-IsIdle

-- Process 1 has the children 2 and 3, and process 2 has the child 4; process 3 is the own one.
abbrev sample_children : ℕ → List ℕ
sample_children pid = if pid == 1 then 2 ∷ 3 ∷ [] else if pid == 2 then 4 ∷ [] else []

abbrev sample_os : Os
sample_os = record { new_process = λ pid. true; cmdline = λ pid. none; children = sample_children }

abbrev depth : ℕ → ℕ
depth pid = if pid == 1 then 2 else if pid == 2 then 1 else 0

abbrev new_info : ℕ → ℕ
new_info pid = pid

abbrev selected : Procs 3 new_info sample_os
selected = (1, 1) ∷ []

add_children_complete_example :
    (out : Procs 3 new_info sample_os) × (add_children 3 new_info sample_os 2 []
        (2 ∷ 3 ∷ [])
        selected
      ≡ some out)
    × ((p : ℕ)
        → (has_pid 3 new_info sample_os p out ≡ true) ↔ (
            (has_pid 3 new_info sample_os p selected ≡ true)
            ⊎ ((p ≢ 3) × DescendsFrom 3 new_info sample_os p (2 ∷ 3 ∷ []))))
unfolding contains
add_children_complete_example =
    add_children_complete 3 new_info sample_os depth (λ c d h. ground (arith, h)) 2 [] (2 ∷ 3 ∷ [])
      selected (λ c h. ground (arith, h))

abbrev no_reads : Disk.IoCountersStat
no_reads = record {
  read_count = 0;
  write_count = 0;
  read_bytes = 0;
  write_bytes = 0;
  read_time = 0;
  write_time = 0;
  io_time = 0;
}

abbrev one_disk : Disks
one_disk = (b's' ∷ b'd' ∷ b'a' ∷ [], no_reads) ∷ []

update-changed_example :
    ((update true (some []) one_disk ≡ ([], no_error))
      ↔ (IsCovered one_disk [] × (length one_disk ≡ length {A = Text × Disk.IoCountersStat} [])))
    × ((update true (some []) one_disk ≡ (one_disk, metrics_changed)) ↔ (
        ¬ (IsCovered one_disk [] × (length one_disk ≡ length {A = Text × Disk.IoCountersStat} []))))
update-changed_example = update-changed one_disk []

-- One protocol with one statistic.
abbrev one_protocol : ℤ → Protocols whole
one_protocol n = (b't' ∷ [], (b'a' ∷ [], n) ∷ []) ∷ []

update_protocols-same_names_example :
    ((name : Text) → has_name name (one_protocol (pos 2)) ≡ has_name name (one_protocol (pos 1)))
    × (length (one_protocol (pos 2)) ≡ length (one_protocol (pos 2)))
unfolding update_protocols take_over has_name store eq_text
update_protocols-same_names_example =
    update_protocols-same_names whole (one_protocol (pos 2)) (one_protocol (pos 1))
      (one_protocol (pos 2)) refl

-- The line of the name, a line without a tab, and the end of the file.
abbrev name_line : StatusLine
name_line = field (b'N' ∷ b'a' ∷ b'm' ∷ b'e' ∷ []) (b's' ∷ b'h' ∷ [])

proc_get_misc-unlines_example :
    proc_get_misc (
      some (
        unlines (
          status_lines
            (name_line ∷ [])
            (1 ∷ 2 ∷ [])
            (bare (b'x' ∷ []) ∷ [])
            (3 ∷ 4 ∷ 5 ∷ [])
            []
            (6 ∷ [])
            ([] ∷ []))))
    ≡ some (record {
      num_threads = pos 12;
      voluntary = pos 345;
      involuntary = pos 6;
      leftover_fields = pos 0;
    })
unfolding contains eq_text
proc_get_misc-unlines_example =
    proc_get_misc-unlines (name_line ∷ []) (bare (b'x' ∷ []) ∷ []) [] (1 ∷ 2 ∷ []) (3 ∷ 4 ∷ 5 ∷ [])
      (6 ∷ []) ([] ∷ []) ((refl, refl, refl, refl, refl), tt) (refl, tt) tt
      (omega arith, (omega arith, (omega arith, tt)), omega arith)
      (omega arith, (omega arith, (omega arith, (omega arith, tt))), omega arith)
      (omega arith, (omega arith, tt), omega arith)
      (refl, (refl, (refl, (refl, (refl, (refl, tt))))))

-- A connection that has received `n` bytes in `n` packets.
abbrev received : ℕ → Connection
received n = record {
  state = [];
  typ = [];
  inode = [];
  ip = [];
  port = pos 0;
  fip = [];
  fport = pos 0;
  rx_bytes = n;
  rx_packets = n;
  tx_bytes = 0;
  tx_packets = 0;
}

abbrev fresh_process : ProcessInfo whole
fresh_process = new_process whole factory

update_pcap-HasNewest_example :
    (net : BaseNetIoCounters whole) × (update_pcap whole
        (λ i j. pos (10 + j))
        (some (received 7 ∷ received 5 ∷ []))
        fresh_process
      ≡ some (record fresh_process { net_pcap = net }, true))
    × AreIdle whole net
    × HasNewest whole (received 5) net
unfolding new_process new_base_net_io_counters
update_pcap-HasNewest_example =
    update_pcap-HasNewest whole (λ i j. pos (10 + j)) (received 7 ∷ []) (received 5) fresh_process
      (record {
        bytes = fresh_ring-IsIdle;
        packets = fresh_ring-IsIdle;
        rx_bytes = fresh_ring-IsIdle;
        rx_packets = fresh_ring-IsIdle;
        tx_bytes = fresh_ring-IsIdle;
        tx_packets = fresh_ring-IsIdle;
      })
