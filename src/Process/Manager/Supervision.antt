-- ===== src/Process/Manager/Supervision.antt =====
-- src/process.rs, `ProcessManager::check_and_restart`: the check of the running children.
use nylon_run.Prelude.{
  ℕ, Bool, true, false, Option, none, some, List, [], ◌∷◌, Text, Result, ok, err, if◌then◌else◌,
}
use nylon_run.Prelude.Maps.{Map}
use nylon_run.Protocol.{ProcessStatus, running, stopped, errored, starting}
use nylon_run.System.{Os}
use nylon_run.Oci.Pull.{Registry}
use nylon_run.Oci.Entrypoint.{ImageConfig}
use nylon_run.Process.State.{ManagedProcess, ProcessManager}
use nylon_run.Process.Manager.{restart}

module _ {W : Type 0} (os : Os W) (registry : Registry W)
    (parse_config : Text → Option ImageConfig) where
  is_running : ProcessStatus → Bool
  is_running running = true
  is_running stopped = false
  is_running errored = false
  is_running starting = false

  -- What `try_wait` says of a running child: the entry after it, and whether it is to be restarted.
  unfoldable pub exited : Result (Option Bool) → ManagedProcess → ManagedProcess × Bool
  exited (err e) proc = (proc, false)
  exited (ok none) proc = (proc, false)
  exited (ok (some true)) proc = (record proc { status = stopped; child = none; pid = none }, false)
  exited (ok (some false)) proc = (record proc { status = errored }, true)

  unfoldable pub check_child : Option ℕ → ManagedProcess → W → ManagedProcess × Bool
  unfolding exited
  check_child none proc w = (proc, false)
  check_child (some pid) proc w = exited (os.try_wait pid w) proc

  unfoldable pub check_one : ManagedProcess → W → ManagedProcess × Bool
  unfolding is_running check_child
  check_one proc w = if is_running proc.status then check_child proc.child proc w else (proc, false)

  -- The first loop: the entries after it, and the names to restart.
  unfoldable pub check_all : Map ManagedProcess → W → Map ManagedProcess × List Text
  check_all [] w = ([], [])
  check_all ((name, proc) ∷ rest) w =
      let (rest', names) = check_all rest w in
      let (proc', again) = check_one proc w in
      ((name, proc') ∷ rest', if again then name ∷ names else names)

  unfoldable pub restart_each : List Text → ProcessManager W → ProcessManager W
  restart_each [] s = s
  restart_each (name ∷ names) s = restart_each names (restart os registry parse_config name s).1

  unfoldable pub check_and_restart : ProcessManager W → ProcessManager W
  unfolding check_all restart_each
  check_and_restart s =
      let (processes', names) = check_all s.processes s.world in
      restart_each names (record s { processes = processes' })
