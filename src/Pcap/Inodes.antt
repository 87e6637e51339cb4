-- ===== src/Pcap/Inodes.antt =====
-- pcap/proc_pid.go: the sockets of processes, and the connections that belong to them.
use go_bitflow_collector.Prelude.{
  ℕ, ◌-◌, Bool, true, false, Option, none, some, List, [], ◌∷◌, if◌then◌else◌, ◌==◌, ◌&&◌, ◌||◌,
  length,
}
use go_bitflow_collector.Pcap.{Text, Connection, Connections, eq_text, Result, ok, err}
use go_bitflow_collector.Pcap.Proc.{◌then_do◌, slice}

abbrev socket_link_name : Text
socket_link_name = b's' ∷ b'o' ∷ b'c' ∷ b'k' ∷ b'e' ∷ b't' ∷ b':' ∷ b'[' ∷ []

-- strings.HasPrefix
unfoldable pub has_prefix : Text → Text → Bool
has_prefix text [] = true
has_prefix [] (p ∷ prefix) = false
has_prefix (b ∷ text) (p ∷ prefix) = b == p && has_prefix text prefix

-- The loop of fillInodes, over what os.Readlink gives for the files; none is an error.
unfoldable pub fill_from : List (Option Text) → List Text → Result (List Text)
unfolding has_prefix slice
fill_from [] inodes = ok inodes
fill_from (none ∷ links) inodes = err
fill_from (some link ∷ links) inodes =
    (if has_prefix link socket_link_name
      then (slice (length socket_link_name) (length link - 1) link then_do λ inode.
          ok (inode ∷ inodes))
      else ok inodes)
    then_do λ inodes'. fill_from links inodes'

unfoldable pub is_inode : Text → List Text → Bool
is_inode inode [] = false
is_inode inode (x ∷ inodes) = eq_text x inode || is_inode inode inodes

unfoldable pub with_inodes : List Text → Connections → List Connection
unfolding is_inode
with_inodes inodes [] = []
with_inodes inodes ((k, con) ∷ cons) =
    let rest = with_inodes inodes cons in if is_inode con.inode inodes then con ∷ rest else rest

-- `links` are the files of a process; none is an error of ioutil.ReadDir.
module _ (links : ℕ → Option (List (Option Text))) where
  unfoldable pub fill_inodes : ℕ → List Text → Result (List Text)
  unfolding fill_from
  fill_inodes pid inodes = elim (links pid) [ none ↦ err | some files ↦ fill_from files inodes ]

  unfoldable pub fill_all : List ℕ → List Text → Result (List Text)
  unfolding fill_inodes
  fill_all [] inodes = ok inodes
  fill_all (pid ∷ pids) inodes = fill_inodes pid inodes then_do λ inodes'. fill_all pids inodes'

  unfoldable pub filter_connections : List ℕ → Connections → Result (List Connection)
  unfolding fill_all with_inodes
  filter_connections pids cons = fill_all pids [] then_do λ inodes. ok (with_inodes inodes cons)
