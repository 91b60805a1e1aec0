-- ===== src/Tests/Supervising.antt =====
-- The process manager: concrete inputs. The system is the number of the next pid; "/bin/false" cannot
-- be spawned, and every child exits with an error.
use nylon_run.Prelude.{
  ℕ, ◌+◌, refl, Bool, true, false, Option, none, some, [], ◌∷◌, Text, ok, err, Action, codes,
  text_eq, arith,
}
use nylon_run.Prelude.Maps.{lookup, contains_key}
use nylon_run.Protocol.{ProcessConfig, bin, running}
use nylon_run.Metrics.{new_registered}
use nylon_run.System.{Os}
use nylon_run.System.Trees.{file}
use nylon_run.Paths.{is_absolute, file_name}
use nylon_run.Oci.Pull.{Registry, TarEntry, extract_entry, whiteout_name}
use nylon_run.Oci.Pull.Guard.{IsExtracted, extract_entry-IsExtracted}
use nylon_run.Oci.Entrypoint.{ImageConfig}
use nylon_run.Process.State.{ManagedProcess, ProcessManager, new}
use nylon_run.Process.Manager.{spawn_process, restart}
use nylon_run.Process.Manager.Supervision.{check_and_restart}
use nylon_run.Process.Manager.Checking.{IsHandled, check_and_restart-IsHandled}
use nylon_run.Process.Manager.Outcomes.{
  IsSpawned, IsRestarted, spawn_process-IsSpawned, restart-IsRestarted,
}

abbrev start : Bool → Action ℕ ℕ
start true n = (err (codes "exec format error"), n)
start false n = (ok n, n + 1)

abbrev pub os : Os ℕ
os = record {
  exists = λ p w. false;
  is_dir = λ p w. false;
  is_file = λ p w. false;
  read_dir = λ p w. [];
  tree = λ p w. file;
  read_to_string = λ p w. err (codes "no such file");
  create_dir_all = λ p w. (ok tt, w);
  copy = λ p q w. (ok tt, w);
  write = λ p t w. (ok tt, w);
  create = λ p w. w;
  rename = λ p q w. w;
  remove_file = λ p w. w;
  remove_dir_all = λ p w. w;
  file_size = λ p w. none;
  is_executable = λ p w. false;
  spawn = λ c w. start (text_eq c.program (codes "/bin/false")) w;
  kill = λ pid w. w;
  try_wait = λ pid w. ok (some false);
  now = λ w. w;
}

abbrev pub registry : Registry ℕ
registry = record {
  parse = λ r. ok tt;
  pull_image_manifest =
      λ r w. (ok (record { layers = []; config = record { digest = []; media_type = [] } }), w);
  pull_blob = λ r l w. (ok [], w);
  tar_entries = λ t. ok [];
  gunzip = λ t. t;
  unpack_in = λ e d w. w;
}

abbrev pub no_config : Text → Option ImageConfig
no_config t = none

abbrev pub program : Text → Text → ProcessConfig
program name path = record {
  name = name;
  path = path;
  args = [];
  env_vars = [];
  env_file = none;
  mode = bin;
  port_mapping = none;
  spa = false;
  ssl = none;
  acme = none;
  deny = [];
  allow = [];
  is_oci = false;
  oci_reference = none;
  pid_file = none;
  volumes = [];
}

abbrev pub api : ProcessConfig
api = program (codes "api") (codes "/bin/api")

abbrev pub daemon : ProcessManager ℕ
daemon = new (some new_registered) 7

abbrev pub with_api : ProcessManager ℕ
with_api = (spawn_process os registry no_config api daemon).1

spawn_process-IsSpawned_example :
    IsSpawned api daemon (spawn_process os registry no_config api daemon)
spawn_process-IsSpawned_example = spawn_process-IsSpawned os registry no_config api daemon

abbrev entry_of : Text → ManagedProcess
entry_of path = record {
  config = program (codes "api") path;
  child = some 7;
  pid = some 7;
  status = running;
  started_at = some 0;
  restart_count = 0;
  shutdown_tx = true;
}

abbrev with_false : ProcessManager ℕ
with_false = record {
  processes = (codes "api", entry_of (codes "/bin/false")) ∷ [];
  metrics = some new_registered;
  world = 8;
}

restart-IsRestarted_example :
    IsRestarted os registry no_config
      (codes "api")
      (lookup (codes "api") with_false.processes)
      with_false
      (restart os registry no_config (codes "api") with_false)
restart-IsRestarted_example = restart-IsRestarted os registry no_config (codes "api") with_false

-- A marker that leaves the directory of the image.
abbrev marker : TarEntry
marker = record { path = codes "../../../../etc/.wh.passwd/"; content = [] }

extract_entry-IsExtracted_example :
    IsExtracted os registry
      (codes "/var/run/nyrun/oci/api")
      marker
      0
      (extract_entry os registry (codes "/var/run/nyrun/oci/api") marker 0)
      (whiteout_name os registry (file_name marker.path))
unfolding is_absolute
extract_entry-IsExtracted_example =
    extract_entry-IsExtracted os registry (codes "/var/run/nyrun/oci/api") marker 0
      (λ e. ground arith) refl

check_and_restart-IsHandled_example :
    IsHandled os registry no_config
      (entry_of (codes "/bin/false"))
      (lookup (codes "api") (check_and_restart os registry no_config with_false).processes)
unfolding lookup contains_key text_eq
check_and_restart-IsHandled_example =
    check_and_restart-IsHandled os registry no_config with_false (codes "api")
      (entry_of (codes "/bin/false")) 7 (refl, tt) refl refl refl refl
