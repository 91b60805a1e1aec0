-- ===== src/Process/State.antt =====
-- src/process.rs, `ManagedProcess` and `ProcessManager`. A child process is its pid. The state of the
-- operating system stands beside the table, since the manager's methods act on both; `System`, the
-- sampler of CPU and memory, is left out.
use nylon_run.Prelude.{ℕ, Bool, Option, none, some, [], Text, Result, Action, codes, ◌++◌}
use nylon_run.Prelude.Maps.{Map}
use nylon_run.Paths.{join_path}
use nylon_run.Protocol.{ProcessConfig, ProcessStatus}
use nylon_run.Metrics.{Metrics}

pub record ManagedProcess : Type 0 where
  pub config : ProcessConfig
  pub child : Option ℕ
  pub pid : Option ℕ
  pub status : ProcessStatus
  pub started_at : Option ℕ
  pub restart_count : ℕ
  pub shutdown_tx : Bool

pub record ProcessManager (W : Type 0) : Type 0 where
  pub processes : Map ManagedProcess
  pub metrics : Option Metrics
  pub world : W

unfoldable pub new : {W : Type 0} → Option Metrics → W → ProcessManager W
new metrics w = record { processes = []; metrics = metrics; world = w }

module _ {W A : Type 0} where
  abbrev pub with_world : ProcessManager W → Result A × W → Result A × ProcessManager W
  with_world s (r, w) = (r, record s { world = w })

  -- An action on the operating system, as one of the manager.
  unfoldable pub on_world : Action W A → Action (ProcessManager W) A
  on_world m s = with_world s (m s.world)

module _ {W : Type 0} where
  unfoldable pub count : (Metrics → Metrics) → ProcessManager W → ProcessManager W
  count f s = record s { metrics = elim s.metrics [ none ↦ none | some m ↦ some (f m) ] }

-- `format!("/var/run/nyrun/apps/{name}")` and `format!("/var/run/nyrun/oci/{name}")`.
abbrev pub apps_dir : Text → Text
apps_dir name = codes "/var/run/nyrun/apps/" ++ name

abbrev pub image_dir : Text → Text
image_dir name = codes "/var/run/nyrun/oci/" ++ name

-- `logs_dir`.
abbrev pub logs_dir : Text → Text
logs_dir name = join_path (codes "/var/run/nyrun/logs") name
