-- ===== src/Process/Manager.antt =====
-- src/process.rs: the operations of `ProcessManager`. Each returns its result and the manager after
-- it. The walk over the processes goes in the order of the table.
pub mod Configs
pub mod Supervision
pub mod Invariant
pub mod Starting
pub mod Outcomes
pub mod Checking
use nylon_run.Prelude.{
  ℕ, ◌+◌, ◌-◌, ◌%◌, ◌^◌, false, not, Option, none, some, List, [], ◌∷◌, ◌++◌, Text, ok, err, Action,
  codes, unwrap_or, if◌then◌else◌,
}
use nylon_run.Prelude.Decimals.{decimal}
use nylon_run.Prelude.Maps.{Map, lookup, insert, remove, contains_key}
use nylon_run.Prelude.Actions.{on_error, ◌>>=◌, ◌>>◌}
use nylon_run.Protocol.{ProcessConfig, running, stopped, ProcessInfo}
use nylon_run.Metrics.{Metrics, pos, inc, dec, inc_by}
use nylon_run.System.{Os}
use nylon_run.Oci.Pull.{Registry}
use nylon_run.Oci.Entrypoint.{ImageConfig}
use nylon_run.Process.State.{ManagedProcess, ProcessManager, count, on_world, logs_dir}
use nylon_run.Process.Start.{start_process}

quote : Text → Text
quote name = codes "process '" ++ name ++ codes "'"

pub not_found : Text → Text
unfolding quote
not_found name = quote name ++ codes " not found"

already_exists : Text → Text
unfolding quote
already_exists name = quote name ++ codes " already exists"

pub inc_managed : Metrics → Metrics
inc_managed m = record m { managed_processes = inc m.managed_processes }

dec_managed : Metrics → Metrics
dec_managed m = record m { managed_processes = dec m.managed_processes }

module _ {W : Type 0} where
  -- The table with a new or another entry under a name.
  pub put_process : Text → ManagedProcess → ProcessManager W → ProcessManager W
  put_process name managed s = record s { processes = insert name managed s.processes }

module _ {W : Type 0} (os : Os W) where
  uptime : Option ℕ → W → Option ℕ
  uptime none w = none
  uptime (some t) w = some (os.now w - t)

  info_of : ManagedProcess → W → ProcessInfo
  unfolding uptime
  info_of p w = record {
    name = p.config.name;
    pid = p.pid;
    status = p.status;
    mode = p.config.mode;
    path = p.config.path;
    port_mapping = p.config.port_mapping;
    started_at = p.started_at;
    restart_count = p.restart_count;
    uptime_secs = uptime p.started_at w;
  }

  infos_of : Map ManagedProcess → W → List ProcessInfo
  unfolding info_of
  infos_of [] w = []
  infos_of ((name, p) ∷ rest) w = info_of p w ∷ infos_of rest w

  unfoldable pub list : ProcessManager W → List ProcessInfo
  unfolding infos_of
  list s = infos_of s.processes s.world

  kill_if : Option ℕ → W → W
  kill_if none w = w
  kill_if (some pid) w = os.kill pid w

  -- `kill_child`, on the entry and on the system.
  abbrev pub killed : ManagedProcess → ManagedProcess
  killed proc = record proc { child = none; pid = none; status = stopped; shutdown_tx = false }

  write_pid : Option Text → Option ℕ → W → W
  write_pid (some path) (some pid) w = (os.write path (decimal pid) w).1
  write_pid _ _ w = w

  remove_pid : Option Text → W → W
  remove_pid none w = w
  remove_pid (some path) w = os.remove_file path w

  delete_found : Text → Option ManagedProcess → Action (ProcessManager W) Text
  unfolding not_found quote dec_managed remove_pid kill_if
  delete_found name none s = (err (not_found name), s)
  delete_found name (some proc) s = (
    ok (quote name ++ codes " deleted"),
    count dec_managed (record s {
      world = kill_if proc.child (remove_pid proc.config.pid_file s.world);
      processes = remove name s.processes;
    }),
  )

  unfoldable pub delete : Text → Action (ProcessManager W) Text
  unfolding delete_found
  delete name s = delete_found name (lookup name s.processes) s

  kill_each : Map ManagedProcess → W → W
  unfolding kill_if
  kill_each [] w = w
  kill_each ((name, proc) ∷ rest) w = kill_each rest (kill_if proc.child w)

  unfoldable pub kill_all : ProcessManager W → Text × ProcessManager W
  unfolding kill_each
  kill_all s = (
    codes "all processes stopped",
    count (λ m. record m { managed_processes = pos 0 })
        (record s { processes = []; world = kill_each s.processes s.world }),
  )

  -- An SPA has an entry and no child.
  unfoldable pub register_spa : ProcessConfig → Action (ProcessManager W) Text
  unfolding already_exists inc_managed put_process
  register_spa config s =
      if contains_key config.name s.processes then (err (already_exists config.name), s) else (
        ok (codes "SPA '" ++ config.name ++ codes "' registered"),
        count inc_managed (
            put_process config.name
              (record {
                config = config;
                child = none;
                pid = none;
                status = running;
                started_at = some (os.now s.world);
                restart_count = 0;
                shutdown_tx = false;
              })
              s),
      )

module _ {W : Type 0} (os : Os W) (registry : Registry W)
    (parse_config : Text → Option ImageConfig) where
  enter : Text → ManagedProcess → Action (ProcessManager W) Text
  unfolding quote inc_managed put_process write_pid
  enter name managed s = (
    ok (quote name ++ codes " started (pid: " ++ decimal (unwrap_or managed.pid 0) ++ codes ")"),
    count inc_managed (
        put_process name managed
          (record s { world = write_pid os managed.config.pid_file managed.pid s.world })),
  )

  make_dirs : Text → Action (ProcessManager W) (Unit {0})
  make_dirs name =
      on_error (λ e. codes "failed to create dirs: " ++ e)
        (on_world (os.create_dir_all (logs_dir name)))

  unfoldable pub spawn_process : ProcessConfig → Action (ProcessManager W) Text
  unfolding already_exists enter make_dirs
  spawn_process config s =
      if contains_key config.name s.processes
      then (err (already_exists config.name), s)
      else (do
        make_dirs config.name
        managed ← start_process os registry parse_config config
        enter config.name managed)
          s

  -- The new entry takes the place of the old one and counts one restart more.
  reenter : Text → ℕ → ManagedProcess → Action (ProcessManager W) Text
  unfolding quote put_process write_pid
  reenter name restart_count managed s = (
    ok (
        quote name
        ++ codes " restarted (pid: "
        ++ decimal (unwrap_or managed.pid 0)
        ++ codes ", restarts: "
        ++ decimal restart_count
        ++ codes ")"),
    count (λ m. record m { process_restarts_total = inc_by name 1 m.process_restarts_total })
        (put_process name (record managed { restart_count = restart_count })
          (record s { world = write_pid os managed.config.pid_file managed.pid s.world })),
  )

  -- The child is killed first; the entry stays, stopped, if the start fails.
  restart_found : Text → Option ManagedProcess → Action (ProcessManager W) Text
  unfolding not_found kill_if put_process reenter
  restart_found name none s = (err (not_found name), s)
  restart_found name (some proc) s =
      (do
        managed ← start_process os registry parse_config proc.config
        reenter name ((proc.restart_count + 1) % 2 ^ 32) managed)
        (put_process name (killed os proc) (record s { world = kill_if os proc.child s.world }))

  unfoldable pub restart : Text → Action (ProcessManager W) Text
  unfolding restart_found
  restart name s = restart_found name (lookup name s.processes) s

  unfoldable pub reload : Text → Action (ProcessManager W) Text
  reload name = restart name

  -- A configuration that cannot be started is passed over.
  unfoldable pub restore_processes : List ProcessConfig → ProcessManager W → ProcessManager W
  restore_processes [] s = s
  restore_processes (config ∷ configs) s = restore_processes configs (spawn_process config s).1
