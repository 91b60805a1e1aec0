-- ===== src/Daemon.antt =====
-- src/server.rs: the handlers of the daemon that run an app and remove one. Each takes the daemon's
-- state under its lock and returns the response and the state after it. What a certificate task does
-- before it asks the issuer is part of the step that starts it.
pub mod EnvFile
pub mod Update
pub mod Outcomes
pub mod Running
pub mod Requests
pub mod Startup
pub mod Linked
use nylon_run.Prelude.{
  ℕ, ◌==◌, Bool, true, false, not, ◌&&◌, ◌||◌, Option, none, some, List, [], ◌∷◌, ◌++◌, Text,
  Result, codes, any, unwrap_or, text_eq, is_substring, if◌then◌else◌,
}
use nylon_run.Prelude.Decimals.{decimal}
use nylon_run.Prelude.Maps.{insert}
use nylon_run.Protocol.{PortMapping, SslConfig, ProcessConfig, Response}
use nylon_run.System.{Os}
use nylon_run.Tls.{Pki}
use nylon_run.Oci.Pull.{Registry}
use nylon_run.Oci.Entrypoint.{ImageConfig}
use nylon_run.Process.State.{ProcessManager}
use nylon_run.Process.Manager.{spawn_process, register_spa, delete}
use nylon_run.Proxy.Routes.{Backend, SocketAddr, proxy, spa}
use nylon_run.Proxy.Manager.{ProxyManager, add_route_with_tls, remove_routes}

pub record DaemonState (W X509 PKey : Type 0) : Type 0 where
  pub process_mgr : ProcessManager W
  pub proxy_mgr : ProxyManager X509 PKey
  pub acme_configs : List (Text × Text)

-- What the handlers ask of the host beside the processes: `canonicalize`, and the port that the system
-- gives to a listener on 127.0.0.1:0.
pub record Host (W : Type 0) : Type 0 where
  pub canonicalize : Text → W → Option Text
  pub free_port : W → Result ℕ

pub cert_paths : Option SslConfig → Option (Text × Text)
cert_paths none = none
cert_paths (some s) = some (s.cert_path, s.key_path)

-- The app port is the public one.
same_port : PortMapping → Bool
same_port pm = elim pm.app_port [ none ↦ true | some p ↦ p == pm.public_port ]

remapped : ℕ → PortMapping → ProcessConfig → PortMapping × ProcessConfig
remapped auto_port pm config =
    let pm' = record pm { app_port = some auto_port } in
    (
      pm',
      record config {
        port_mapping = some pm';
        env_vars = insert (codes "PORT") (decimal auto_port) config.env_vars;
      },
    )

auto_remapped : Result ℕ → PortMapping → ProcessConfig → Result (PortMapping × ProcessConfig)
unfolding remapped
auto_remapped (Result.err e) pm config = Result.err (codes "failed to find free port: " ++ e)
auto_remapped (Result.ok p) pm config = Result.ok (remapped p pm config)

-- An app on its public port is moved to a free one.
unfoldable pub remap : Result ℕ → PortMapping → ProcessConfig → Result (PortMapping × ProcessConfig)
unfolding same_port auto_remapped
remap port pm config = if same_port pm then auto_remapped port pm config else Result.ok (pm, config)

pub local_addr : PortMapping → SocketAddr
local_addr pm = record { ip = codes "127.0.0.1"; port = unwrap_or pm.app_port pm.public_port }

has_acme_host : Text → List (Text × Text) → Bool
has_acme_host hostname = any (λ p. text_eq p.0 hostname)

port_info : PortMapping → Text
port_info pm = elim pm.host [
  | some host ↦
      host
      ++ codes ":"
      ++ decimal pm.public_port
      ++ codes " -> "
      ++ decimal (unwrap_or pm.app_port pm.public_port)
  | none ↦
      codes ":"
      ++ decimal pm.public_port
      ++ codes " -> "
      ++ decimal (unwrap_or pm.app_port pm.public_port)
]

module _ {W X509 PKey : Type 0} where
  -- The host is registered for renewal, once.
  pub spawn_acme_issue :
      Option Text → Option Text → DaemonState W X509 PKey → DaemonState W X509 PKey
  unfolding has_acme_host
  spawn_acme_issue (some email) (some hostname) s =
      if has_acme_host hostname s.acme_configs
      then s
      else record s { acme_configs = s.acme_configs ++ (hostname, email) ∷ [] }
  spawn_acme_issue _ _ s = s

module _ {W X509 PKey : Type 0} (os : Os W) (registry : Registry W)
    (parse_config : Text → Option ImageConfig) (pki : Pki X509 PKey) (host : Host W) where
  spa_registered :
      PortMapping
      → ProcessConfig
      → Result Text × ProcessManager W
      → DaemonState W X509 PKey
      → Response × DaemonState W X509 PKey
  unfolding spawn_acme_issue
  spa_registered pm config (Result.err e, p) s = (Response.error e, record s { process_mgr = p })
  spa_registered pm config (Result.ok msg, p) s = (
    Response.ok
        (codes "SPA '" ++ config.name ++ codes "' serving on port " ++ decimal pm.public_port),
    spawn_acme_issue config.acme pm.host (record s { process_mgr = p }),
  )

  spa_routed :
      PortMapping
      → ProcessConfig
      → Result (Unit {0}) × ProxyManager X509 PKey
      → DaemonState W X509 PKey
      → Response × DaemonState W X509 PKey
  unfolding spa_registered
  spa_routed pm config (Result.err e, m) s = (Response.error e, record s { proxy_mgr = m })
  spa_routed pm config (Result.ok u, m) s =
      spa_registered pm config (register_spa os config s.process_mgr) (record s { proxy_mgr = m })

  -- The files of the directory are served; there is no process.
  run_spa :
      PortMapping → ProcessConfig → DaemonState W X509 PKey → Response × DaemonState W X509 PKey
  unfolding spa_routed cert_paths
  run_spa pm config s =
      if not (os.is_dir config.path s.process_mgr.world)
      then (Response.error (codes "'" ++ config.path ++ codes "' is not a directory"), s)
      else spa_routed pm config
          (add_route_with_tls pki config.name pm.public_port pm.host
            (spa (unwrap_or (host.canonicalize config.path s.process_mgr.world) config.path))
            (cert_paths config.ssl) s.proxy_mgr)
          s

  -- A process whose route is refused is deleted again.
  app_routed :
      PortMapping
      → ProcessConfig
      → Text
      → Result (Unit {0}) × ProxyManager X509 PKey
      → DaemonState W X509 PKey
      → Response × DaemonState W X509 PKey
  unfolding spawn_acme_issue port_info
  app_routed pm config msg (Result.err e, m) s = (
    Response.error (codes "proxy setup failed: " ++ e),
    record s { proxy_mgr = m; process_mgr = (delete os config.name s.process_mgr).1 },
  )
  app_routed pm config msg (Result.ok u, m) s = (
    Response.ok (msg ++ codes " (proxy " ++ port_info pm ++ codes ")"),
    spawn_acme_issue config.acme pm.host (record s { proxy_mgr = m }),
  )

  app_spawned :
      PortMapping
      → ProcessConfig
      → Result Text × ProcessManager W
      → DaemonState W X509 PKey
      → Response × DaemonState W X509 PKey
  unfolding app_routed local_addr cert_paths
  app_spawned pm config (Result.err e, p) s = (Response.error e, record s { process_mgr = p })
  app_spawned pm config (Result.ok msg, p) s =
      app_routed pm config msg
        (add_route_with_tls pki config.name pm.public_port pm.host (proxy (local_addr pm))
          (cert_paths config.ssl) s.proxy_mgr)
        (record s { process_mgr = p })

  is_some : Option Text → Bool
  is_some none = false
  is_some (some t) = true

  run_mapped :
      Result (PortMapping × ProcessConfig)
      → DaemonState W X509 PKey
      → Response × DaemonState W X509 PKey
  unfolding run_spa app_spawned is_some
  run_mapped (Result.err e) s = (Response.error e, s)
  run_mapped (Result.ok (pm, config)) s =
      if is_some config.acme && not (is_some pm.host)
      then (
        Response.error
            (codes "ACME requires host-based port mapping (e.g. --p domain.com:443:8000)"),
        s,
      )
      else if config.spa
      then run_spa pm config s
      else app_spawned pm config (spawn_process os registry parse_config config s.process_mgr) s

  run_on :
      Option PortMapping
      → ProcessConfig
      → DaemonState W X509 PKey
      → Response × DaemonState W X509 PKey
  unfolding run_mapped remap
  run_on none config s = (Response.error (codes "run requires --p port mapping"), s)
  run_on (some pm) config s = run_mapped (remap (host.free_port s.process_mgr.world) pm config) s

  unfoldable pub handle_run :
      ProcessConfig → DaemonState W X509 PKey → Response × DaemonState W X509 PKey
  unfolding run_on
  handle_run config s = run_on config.port_mapping config s

  -- An app without a process may have a route.
  del_response : Text → Result Text → Response
  del_response name (Result.ok msg) = Response.ok msg
  del_response name (Result.err e) =
      if is_substring (codes "not found") e
      then Response.ok (codes "'" ++ name ++ codes "' removed")
      else Response.error e

  -- `Request::Del`.
  unfoldable pub handle_del : Text → DaemonState W X509 PKey → Response × DaemonState W X509 PKey
  unfolding del_response
  handle_del name s =
      let (r, p) = delete os name s.process_mgr in
      (
        del_response name r,
        record s { proxy_mgr = remove_routes name s.proxy_mgr; process_mgr = p },
      )
