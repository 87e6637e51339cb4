-- ===== src/Psutil/Multi.antt =====
-- MultiProcessCollector of psutil/process.go: the process collectors that it is asked to make.
use go_bitflow_collector.Prelude.{ℕ, Bool, true, false, List, [], map, if◌then◌else◌}
use go_bitflow_collector.Pcap.{Text}
use go_bitflow_collector.Psutil.{UpdateError, no_error, metrics_changed}
use go_bitflow_collector.Psutil.Process.{Os, ProcessCollector}

pub record ProcessCollectorDescription : Type 0 where
  pub name : Text
  pub filter : List (Text → Bool)
  pub print_errors : Bool
  pub include_child_processes : Bool

pub record MultiProcessCollector : Type 0 where
  pub processes : List ProcessCollectorDescription
  pub descriptions_changed : Bool

unfoldable pub update_processes : MultiProcessCollector → MultiProcessCollector
update_processes multi = record multi { descriptions_changed = true }

-- Update, which MetricsChanged calls.
unfoldable pub multi_update : MultiProcessCollector → UpdateError
multi_update multi = if multi.descriptions_changed then metrics_changed else no_error

module _ {Info : Type 0} (own_pid : ℕ) (new_info : ℕ → Info) (os : Os) where
  -- NewProcessCollector: the name of the group and the printing of errors are left out.
  unfoldable pub new_process_collector :
      ProcessCollectorDescription → ProcessCollector own_pid new_info os
  new_process_collector params = record {
    cmdline_filter = params.filter;
    include_children = params.include_child_processes;
    pids_updated = false;
    procs = [];
  }

  -- MultiProcessCollector.Init: the collectors, and the state after it.
  unfoldable pub multi_init :
      MultiProcessCollector → List (ProcessCollector own_pid new_info os) × MultiProcessCollector
  unfolding new_process_collector
  multi_init multi =
      (map new_process_collector multi.processes, record multi { descriptions_changed = false })
