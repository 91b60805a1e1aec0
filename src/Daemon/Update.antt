-- ===== src/Daemon/Update.antt =====
-- src/server.rs, `handle_update`. The image is pulled before the lock is taken; nothing else runs in
-- between here. `idle` is whether `try_lock` succeeds for counting the pull, and `shlex_split` is
-- shlex's.
pub mod Keeps
use nylon_run.Prelude.{
  ℕ, ◌+◌, Bool, true, false, not, Option, none, some, List, [], ◌∷◌, ◌++◌, Text, Result, Action,
  codes, find, unwrap_or, text_eq, if◌then◌else◌,
}
use nylon_run.Prelude.Actions.{pure, fail, lift, gets, on_error, ◌>>=◌, ◌>>◌}
use nylon_run.Prelude.Maps.{Map}
use nylon_run.Protocol.{PortMapping, SslConfig, ProcessConfig, UpdateFields, Response}
use nylon_run.Ports.{parse_port_mapping_str}
use nylon_run.System.{Os}
use nylon_run.Tls.{Pki}
use nylon_run.Oci.Pull.{Registry, pull_and_extract}
use nylon_run.Oci.References.{is_oci_reference}
use nylon_run.Oci.Entrypoint.{ImageConfig, find_entrypoint}
use nylon_run.Process.State.{ProcessManager, count, on_world}
use nylon_run.Process.Manager.{restart}
use nylon_run.Process.Manager.Configs.{ConfigChange, update_config, update_oci_config, get_configs}
use nylon_run.Proxy.Routes.{Backend, proxy, spa}
use nylon_run.Proxy.Manager.{ProxyManager, add_route, remove_routes}
use nylon_run.Daemon.{DaemonState, Host, local_addr}
use nylon_run.Daemon.EnvFile.{parse_env_file_str}

-- `Some(f(x)?)`.
parse_field : {A : Type 0} → (Text → Result A) → Option Text → Result (Option A)
parse_field f none = Result.ok none
parse_field f (some t) = elim (f t) [
  | Result.ok a ↦ Result.ok (some a)
  | Result.err e ↦ Result.err e
]

ssl_of : List Text → SslConfig
ssl_of [] = record { cert_path = []; key_path = [] }
ssl_of (c ∷ []) = record { cert_path = c; key_path = [] }
ssl_of (c ∷ k ∷ rest) = record { cert_path = c; key_path = k }

abbrev map_some : {A B : Type 0} → (A → B) → Option A → Option B
map_some f none = none
map_some f (some a) = some (f a)

abbrev is_some : {A : Type 0} → Option A → Bool
is_some none = false
is_some (some a) = true

-- The update that brings the old configuration back.
undo_of : ProcessConfig → ConfigChange
undo_of old = record {
  port_mapping = old.port_mapping;
  ssl = old.ssl;
  acme = old.acme;
  env_file = old.env_file;
  env_vars = some old.env_vars;
  args = some old.args;
}

config_named : Text → List ProcessConfig → Option ProcessConfig
config_named name = find (λ c. text_eq c.name name)

is_spa : Option ProcessConfig → Bool
is_spa none = false
is_spa (some c) = c.spa

module _ {W X509 PKey : Type 0} (os : Os W) (registry : Registry W)
    (parse_config : Text → Option ImageConfig) (pki : Pki X509 PKey) (host : Host W)
    (alphabetic : ℕ → Bool) (shlex_split : Text → Option (List Text)) (idle : Bool) where
  count_if : (ProcessManager W → ProcessManager W) → ProcessManager W → ProcessManager W
  count_if f p = if idle then f p else p

  counted : Result Text × ProcessManager W → Result Text × ProcessManager W
  unfolding count_if
  counted (Result.ok d, p) =
      (Result.ok d, count_if (count (λ m. record m { oci_pulls_total = m.oci_pulls_total + 1 })) p)
  counted (Result.err e, p) = (
    Result.err (codes "OCI pull failed: " ++ e),
    count_if (count (λ m. record m { oci_pull_errors_total = m.oci_pull_errors_total + 1 })) p,
  )

  pull_counted : Text → Text → Action (ProcessManager W) Text
  unfolding counted
  pull_counted image name p = counted (on_world (pull_and_extract os registry image name) p)

  pull_image : Text → Text → Action (ProcessManager W) (Option (Text × Text))
  unfolding pull_counted
  pull_image image name = do
    extract_dir ← pull_counted image name
    found ← gets (λ p. find_entrypoint os parse_config extract_dir p.world)
    command ← on_error (λ e. codes "OCI entrypoint error: " ++ e) (lift found)
    pure (some (image, command.0))

  pull_update : Option Text → Text → Action (ProcessManager W) (Option (Text × Text))
  unfolding pull_image
  pull_update none name = pure none
  pull_update (some image) name =
      if is_oci_reference alphabetic image
      then pull_image image name
      else fail (codes "'" ++ image ++ codes "' is not a valid OCI image reference")

  -- What is parsed before the lock is taken: the change, and the reference and program of the image.
  prepare : Text → UpdateFields → Action (ProcessManager W) (ConfigChange × Option (Text × Text))
  unfolding pull_update parse_field ssl_of
  prepare name f = do
    oci_update ← pull_update f.image name
    port_mapping ← lift (parse_field parse_port_mapping_str f.port)
    env_vars ← gets (λ p.
        parse_field (λ path. parse_env_file_str path (os.read_to_string path p.world)) f.env_file)
    vars ← lift env_vars
    pure (
      record {
        port_mapping = port_mapping;
        ssl = map_some ssl_of f.ssl;
        acme = f.acme;
        env_file = f.env_file;
        env_vars = vars;
        args = map_some (λ a. unwrap_or (shlex_split a) []) f.args;
      },
      oci_update,
    )

  apply_image : Text → Option (Text × Text) → ProcessManager W → ProcessManager W
  apply_image name none p = p
  apply_image name (some (image, entrypoint)) p = update_oci_config name image entrypoint p

  restarted :
      Result Text × ProcessManager W → DaemonState W X509 PKey → Response × DaemonState W X509 PKey
  restarted (Result.ok msg, p) s =
      (Response.ok (codes "updated and restarted: " ++ msg), record s { process_mgr = p })
  restarted (Result.err e, p) s = (
    Response.error (codes "config updated but restart failed: " ++ e),
    record s { process_mgr = p },
  )

  restart_updated : Text → DaemonState W X509 PKey → Response × DaemonState W X509 PKey
  unfolding restarted is_spa config_named
  restart_updated name s =
      if is_spa (config_named name (get_configs s.process_mgr))
      then (Response.ok (codes "'" ++ name ++ codes "' config updated"), s)
      else restarted (restart os registry parse_config name s.process_mgr) s

  backend_of : ProcessConfig → PortMapping → W → Backend
  unfolding local_addr
  backend_of cfg pm w =
      if cfg.spa
      then spa (unwrap_or (host.canonicalize cfg.path w) cfg.path)
      else proxy (local_addr pm)

  -- A refused route takes the change back.
  rerouted :
      Text
      → ProcessConfig
      → Result (Unit {0}) × ProxyManager X509 PKey
      → DaemonState W X509 PKey
      → Response × DaemonState W X509 PKey
  unfolding restart_updated undo_of
  rerouted name old (Result.err e, m) s = (
    Response.error (codes "proxy route update failed: " ++ e),
    record s { proxy_mgr = m; process_mgr = (update_config name (undo_of old) s.process_mgr).1 },
  )
  rerouted name old (Result.ok u, m) s = restart_updated name (record s { proxy_mgr = m })

  reroute_to :
      Text
      → ProcessConfig
      → Option ProcessConfig
      → DaemonState W X509 PKey
      → Response × DaemonState W X509 PKey
  unfolding rerouted backend_of
  reroute_to name old none s = restart_updated name s
  reroute_to name old (some cfg) s = elim cfg.port_mapping [
    | none ↦ restart_updated name s
    | some pm ↦
        rerouted name old
          (add_route pki name pm.public_port pm.host (backend_of cfg pm s.process_mgr.world)
            s.proxy_mgr)
          s
  ]

  -- The app's routes are replaced if a port was given.
  reroute :
      Text
      → UpdateFields
      → ProcessConfig
      → DaemonState W X509 PKey
      → Response × DaemonState W X509 PKey
  unfolding reroute_to
  reroute name f old s =
      if is_some f.port
      then reroute_to name old (config_named name (get_configs s.process_mgr))
          (record s { proxy_mgr = remove_routes name s.proxy_mgr })
      else restart_updated name s

  updated :
      Text
      → UpdateFields
      → Option (Text × Text)
      → Result ProcessConfig × ProcessManager W
      → DaemonState W X509 PKey
      → Response × DaemonState W X509 PKey
  unfolding reroute apply_image
  updated name f oci_update (Result.err e, p) s = (Response.error e, record s { process_mgr = p })
  updated name f oci_update (Result.ok old, p) s =
      reroute name f old (record s { process_mgr = apply_image name oci_update p })

  prepared :
      Text
      → UpdateFields
      → Result (ConfigChange × Option (Text × Text)) × ProcessManager W
      → DaemonState W X509 PKey
      → Response × DaemonState W X509 PKey
  unfolding updated
  prepared name f (Result.err e, p) s = (Response.error e, record s { process_mgr = p })
  prepared name f (Result.ok (change, oci_update), p) s =
      updated name f oci_update (update_config name change p) s

  unfoldable pub handle_update :
      Text → UpdateFields → DaemonState W X509 PKey → Response × DaemonState W X509 PKey
  unfolding prepared prepare
  handle_update name f s = prepared name f (prepare name f s.process_mgr) s
