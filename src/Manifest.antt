-- ===== src/Manifest.antt =====
-- src/main.rs: the manifests that `nyrun apply` reads and `nyrun export` writes. YAML is not part of the
-- model, and shlex is a parameter, with `shlex_join` none where it refuses a list.
pub mod RoundTrip
use nylon_run.Prelude.{
  Bool, true, false, not, Option, none, some, List, [], ◌∷◌, ◌++◌, Text, Result, ok, err, Action,
  codes, map_err, ◌>>=◌, unwrap_or, join, split, split_once, strip_prefix, trim, if◌then◌else◌, ℕ,
}
use nylon_run.Prelude.Actions
use nylon_run.Prelude.Maps.{Map, insert}
use nylon_run.Protocol.{ProcessConfig, ProcessMode, PortMapping, SslConfig}
use nylon_run.System.{Os}
use nylon_run.Paths.{join_path}
use nylon_run.Ports.{parse_port_mapping, show_port_mapping}
use nylon_run.Oci.References.{is_oci_reference, normalize_reference}
use nylon_run.Daemon.EnvFile.{parse_env_file_str}

pub record ManifestSpec : Type 0 where
  pub path : Text
  pub port : Option Text
  pub args : Option Text
  pub env_file : Option Text
  pub env : Option (Map Text)
  pub spa : Bool
  pub ssl : Option (List Text)
  pub acme : Option Text
  pub deny : Option Text
  pub allow : Option Text
  pub pid_file : Option Text
  pub volumes : List Text

-- `metadata` has the name only.
pub record ProcessManifest : Type 0 where
  pub kind : Text
  pub name : Text
  pub spec : ManifestSpec

abbrev configmap_dir : Text
configmap_dir = codes "/var/run/nyrun/configmaps"

unfoldable pub parse_args_string : (Text → Option (List Text)) → Option Text → List Text
parse_args_string shlex_split none = []
parse_args_string shlex_split (some s) = unwrap_or (shlex_split s) []

abbrev trim_each : List Text → List Text
trim_each [] = []
trim_each (s ∷ ss) = trim s ∷ trim_each ss

-- `parse_deny` and `parse_allow`.
unfoldable pub parse_deny : Option Text → List Text
parse_deny none = []
parse_deny (some s) = trim_each (split b',' s)

configmap_path : Text → Option (Text × Text) → Text
configmap_path v none = v
configmap_path v (some (cm_name, dest)) = configmap_dir ++ b'/' ∷ (cm_name ++ b':' ∷ dest)

resolve_volume : Text → Option Text → Text
unfolding configmap_path
resolve_volume v none = v
resolve_volume v (some rest) = configmap_path v (split_once b':' rest)

unfoldable pub resolve_configmap_volumes : List Text → List Text
unfolding resolve_volume
resolve_configmap_volumes [] = []
resolve_configmap_volumes (v ∷ vs) =
    resolve_volume v (strip_prefix (codes "configmap:") v) ∷ resolve_configmap_volumes vs

-- `vars.extend(extra)`.
abbrev pub extend : Map Text → Map Text → Map Text
extend vars [] = vars
extend vars ((k, v) ∷ extra) = extend (insert k v vars) extra

abbrev pub extended : Map Text → Option (Map Text) → Map Text
extended vars none = vars
extended vars (some extra) = extend vars extra

-- Without an env file the map of the manifest is taken as it is.
merged : Option Text → Map Text → Option (Map Text) → Map Text
merged none vars env = unwrap_or env []
merged (some ef) vars env = extended vars env

unfoldable pub mode_of : Option PortMapping → ProcessMode
mode_of none = ProcessMode.bin
mode_of (some pm) = ProcessMode.run

-- Only a pair is taken.
ssl_config : Option (List Text) → Option SslConfig
ssl_config (some (cert ∷ key ∷ [])) = some (record { cert_path = cert; key_path = key })
ssl_config _ = none

mapped_port : Option Text → Result (Option PortMapping)
mapped_port none = ok none
mapped_port (some p) = do pm ← parse_port_mapping p; ok (some pm)

none_if_empty : Text → List Text → Option Text
none_if_empty t [] = none
none_if_empty t (x ∷ xs) = some t

some_env : Map Text → Option (Map Text)
some_env [] = none
some_env (b ∷ vars) = some (b ∷ vars)

ssl_paths : Option SslConfig → Option (List Text)
ssl_paths none = none
ssl_paths (some s) = some (s.cert_path ∷ s.key_path ∷ [])

some_port : Option PortMapping → Option Text
some_port none = none
some_port (some pm) = some (show_port_mapping pm)

unfoldable pub config_to_manifest : (List Text → Option Text) → ProcessConfig → ProcessManifest
unfolding none_if_empty some_env ssl_paths some_port
config_to_manifest shlex_join c = record {
  kind = codes "Process";
  name = c.name;
  spec = record {
    path = unwrap_or c.oci_reference c.path;
    port = some_port c.port_mapping;
    args = none_if_empty (unwrap_or (shlex_join c.args) []) c.args;
    env_file = c.env_file;
    env = some_env c.env_vars;
    spa = c.spa;
    ssl = ssl_paths c.ssl;
    acme = c.acme;
    deny = none_if_empty (join (codes ",") c.deny) c.deny;
    allow = none_if_empty (join (codes ",") c.allow) c.allow;
    pid_file = c.pid_file;
    volumes = c.volumes;
  };
}

module _ {W : Type 0} (os : Os W) (alphabetic : ℕ → Bool) (shlex_split : Text → Option (List Text))
    (settings : Option Text) where
  unfoldable pub write_configmap : Text → Map Text → Action W (Unit {0})
  write_configmap name files =
      Actions.◌>>◌
        (Actions.on_error
          (λ e.
            codes "failed to create configmap dir '"
            ++ join_path configmap_dir name
            ++ codes "': "
            ++ e)
          (os.create_dir_all (join_path configmap_dir name)))
        (write_each files)
    where
      write_each : Map Text → Action W (Unit {0})
      write_each [] = Actions.pure tt
      write_each ((filename, content) ∷ rest) =
          Actions.◌>>◌
            (Actions.on_error
              (λ e.
                codes "failed to write configmap file '"
                ++ join_path (join_path configmap_dir name) filename
                ++ codes "': "
                ++ e)
              (os.write (join_path (join_path configmap_dir name) filename) content))
            (write_each rest)

  file_vars : Option Text → W → Result (Map Text)
  file_vars none w = ok []
  file_vars (some ef) w = parse_env_file_str ef (os.read_to_string ef w)

  oci_path : Bool → Text → Text × Option Text
  oci_path true path =
      let normalized = normalize_reference settings path in (normalized, some normalized)
  oci_path false path = (path, none)

  unfoldable pub manifest_to_config : ProcessManifest → W → Result ProcessConfig
  unfolding file_vars merged oci_path mapped_port mode_of ssl_config
  manifest_to_config m w = do
    vars ← file_vars m.spec.env_file w
    port_mapping ← mapped_port m.spec.port
    ok (record {
      name = m.name;
      path = (oci_path (is_oci_reference alphabetic m.spec.path) m.spec.path).0;
      args = parse_args_string shlex_split m.spec.args;
      env_vars = merged m.spec.env_file vars m.spec.env;
      env_file = m.spec.env_file;
      mode = mode_of port_mapping;
      port_mapping = port_mapping;
      spa = m.spec.spa;
      ssl = ssl_config m.spec.ssl;
      acme = m.spec.acme;
      deny = parse_deny m.spec.deny;
      allow = parse_deny m.spec.allow;
      is_oci = is_oci_reference alphabetic m.spec.path;
      oci_reference = (oci_path (is_oci_reference alphabetic m.spec.path) m.spec.path).1;
      pid_file = m.spec.pid_file;
      volumes = resolve_configmap_volumes m.spec.volumes;
    })
