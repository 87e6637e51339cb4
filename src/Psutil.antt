-- ===== src/Psutil.antt =====
-- The collectors of psutil/. What they read of the operating system, through the gopsutil library,
-- is an argument of their operations; `none` there is an error. Texts are lists of bytes, and a
-- Go map is a list of its entries.
pub mod Tables
pub mod Net
pub mod Disk
pub mod Host
pub mod Process
pub mod Multi
pub mod Observed
pub mod ProcStatus
pub mod ProcInfo
pub mod Decimal
pub mod Status
pub mod LastConnection
pub mod NetProto
pub mod DiskUsage
pub mod Counted
pub mod Changed
use go_bitflow_collector.Prelude.{
  ℕ, Bool, true, false, Option, none, some, List, [], ◌∷◌, if◌then◌else◌, ◌||◌, length, not, ◌==◌,
}
use go_bitflow_collector.Pcap.{Text, eq_text}

-- What Update() returns.
pub data UpdateError : Type 0 where
  no_error metrics_changed error : UpdateError

module _ {ℓ} {V : Type ℓ} where
  unfoldable pub find : Text → List (Text × V) → Option V
  find name [] = none
  find name ((key, v) ∷ m) = if eq_text key name then some v else find name m

  unfoldable pub has_name : Text → List (Text × V) → Bool
  has_name name [] = false
  has_name name ((key, v) ∷ m) = eq_text key name || has_name name m

  -- `m[name] = v`
  unfoldable pub store : Text → V → List (Text × V) → List (Text × V)
  store name v [] = (name, v) ∷ []
  store name v ((key, w) ∷ m) =
      let rest = store name v m in if eq_text key name then (name, v) ∷ m else (key, w) ∷ rest
