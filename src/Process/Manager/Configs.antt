-- ===== src/Process/Manager/Configs.antt =====
-- src/process.rs, `ProcessManager`: reading and changing the configurations of the processes.
use nylon_run.Prelude.{true, Option, none, some, List, [], ◌∷◌, Text, ok, err, Action}
use nylon_run.Prelude.Maps.{Map, lookup}
use nylon_run.Protocol.{PortMapping, SslConfig, ProcessConfig}
use nylon_run.Process.State.{ManagedProcess, ProcessManager}
use nylon_run.Process.Manager.{not_found, put_process}

-- A field that is given replaces the old one.
abbrev pub replace {ℓ} : {A : Type ℓ} → Option A → A → A
replace none old = old
replace (some new) old = new

abbrev pub replace_some {ℓ} : {A : Type ℓ} → Option A → Option A → Option A
replace_some none old = old
replace_some (some new) old = some new

-- The fields that `update_config` may change.
pub record ConfigChange : Type 0 where
  pub port_mapping : Option PortMapping
  pub ssl : Option SslConfig
  pub acme : Option Text
  pub env_file : Option Text
  pub env_vars : Option (Map Text)
  pub args : Option (List Text)

unfoldable pub apply_change : ConfigChange → ProcessConfig → ProcessConfig
apply_change c config = record config {
  port_mapping = replace_some c.port_mapping config.port_mapping;
  ssl = replace_some c.ssl config.ssl;
  acme = replace_some c.acme config.acme;
  env_file = replace_some c.env_file config.env_file;
  env_vars = replace c.env_vars config.env_vars;
  args = replace c.args config.args;
}

abbrev pub configs_of : Map ManagedProcess → List ProcessConfig
configs_of [] = []
configs_of ((name, proc) ∷ rest) = proc.config ∷ configs_of rest

module _ {W : Type 0} where
  unfoldable pub update_found :
      Text → ConfigChange → Option ManagedProcess → Action (ProcessManager W) ProcessConfig
  unfolding not_found put_process
  update_found name c none s = (err (not_found name), s)
  update_found name c (some proc) s =
      (ok proc.config, put_process name (record proc { config = apply_change c proc.config }) s)

  -- The result is the old configuration.
  unfoldable pub update_config : Text → ConfigChange → Action (ProcessManager W) ProcessConfig
  unfolding update_found apply_change
  update_config name c s = update_found name c (lookup name s.processes) s

  unfoldable pub update_oci_found :
      Text → Text → Text → Option ManagedProcess → ProcessManager W → ProcessManager W
  unfolding put_process
  update_oci_found name oci_reference entrypoint none s = s
  update_oci_found name oci_reference entrypoint (some proc) s =
      put_process name
        (record proc {
          config = record proc.config {
            oci_reference = some oci_reference;
            path = entrypoint;
            is_oci = true;
          };
        })
        s

  unfoldable pub update_oci_config : Text → Text → Text → ProcessManager W → ProcessManager W
  unfolding update_oci_found
  update_oci_config name oci_reference entrypoint s =
      update_oci_found name oci_reference entrypoint (lookup name s.processes) s

  unfoldable pub get_configs : ProcessManager W → List ProcessConfig
  get_configs s = configs_of s.processes
