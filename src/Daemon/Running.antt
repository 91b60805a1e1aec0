-- ===== src/Daemon/Running.antt =====
-- src/server.rs: running an app and deleting one keep the process table in order.
use nylon_run.Prelude.{
  sym, subst, Option, none, some, Text, Result, unwrap_or, inl, inr, Bool-cases, not, ◌&&◌,
}
use nylon_run.Protocol.{ProcessConfig, PortMapping}
use nylon_run.System.{Os}
use nylon_run.Tls.{Pki}
use nylon_run.Oci.Pull.{Registry}
use nylon_run.Oci.Entrypoint.{ImageConfig}
use nylon_run.Process.State.{ProcessManager}
use nylon_run.Process.Manager.{spawn_process, delete, kill_all}
use nylon_run.Process.Manager
use nylon_run.Process.Manager.Invariant.{IsManaged, delete-IsManaged, register_spa-IsManaged}
use nylon_run.Process.Manager.Starting.{spawn_process-IsManaged}
use nylon_run.Proxy.Routes.{spa}
use nylon_run.Proxy.Manager.{ProxyManager, add_route_with_tls}
use nylon_run.Daemon.{
  DaemonState, Host, handle_run, handle_del, run_on, run_mapped, is_some, run_spa, spa_routed,
  spa_registered, cert_paths, app_spawned, app_routed, spawn_acme_issue,
}
use nylon_run.Daemon.Outcomes.{spawn_acme_issue-managers}

module _ {W X509 PKey : Type 0} (os : Os W) (registry : Registry W)
    (parse_config : Text → Option ImageConfig) (pki : Pki X509 PKey) (host : Host W) where
  issued-IsManaged :
      (email name : Option Text) (s : DaemonState W X509 PKey)
      → IsManaged s.process_mgr
      → IsManaged (spawn_acme_issue email name s).process_mgr
  issued-IsManaged email name s h =
      subst IsManaged (sym (spawn_acme_issue-managers email name s).0) h

  spa_routed-IsManaged :
      (pm : PortMapping) (config : ProcessConfig) (r : Result (Unit {0}) × ProxyManager X509 PKey)
      (s : DaemonState W X509 PKey)
      → IsManaged s.process_mgr
      → IsManaged (spa_routed os registry parse_config pki host pm config r s).1.process_mgr
  unfolding spa_routed spa_registered
  spa_routed-IsManaged pm config (Result.err e, m) s h = h
  spa_routed-IsManaged pm config (Result.ok u, m) s h =
      registered (Manager.register_spa os config s.process_mgr)
        (register_spa-IsManaged os config s.process_mgr h)
    where
      registered :
          (r : Result Text × ProcessManager W)
          → IsManaged r.1
          → IsManaged
              (spa_registered os registry parse_config pki host pm config r
                (record s { proxy_mgr = m })).1.process_mgr
      registered (Result.err e, p) k = k
      registered (Result.ok msg, p) k = issued-IsManaged config.acme pm.host _ k

  run_spa-IsManaged :
      (pm : PortMapping) (config : ProcessConfig) (s : DaemonState W X509 PKey)
      → IsManaged s.process_mgr
      → IsManaged (run_spa os registry parse_config pki host pm config s).1.process_mgr
  unfolding run_spa
  run_spa-IsManaged pm config s h = elim (Bool-cases (os.is_dir config.path s.process_mgr.world)) [
    | inl r ↦ rw r (
        spa_routed-IsManaged pm config
          (add_route_with_tls pki config.name pm.public_port pm.host
            (spa (unwrap_or (host.canonicalize config.path s.process_mgr.world) config.path))
            (cert_paths config.ssl) s.proxy_mgr)
          s h)
    | inr r ↦ rw r h
  ]

  app_spawned-IsManaged :
      (pm : PortMapping) (config : ProcessConfig) (r : Result Text × ProcessManager W)
      (s : DaemonState W X509 PKey)
      → IsManaged r.1
      → IsManaged (app_spawned os registry parse_config pki host pm config r s).1.process_mgr
  unfolding app_spawned app_routed
  app_spawned-IsManaged pm config (Result.err e, p) s h = h
  app_spawned-IsManaged pm config (Result.ok msg, p) s h = routed _
    where
      routed :
          (r : Result (Unit {0}) × ProxyManager X509 PKey)
          → IsManaged
              (app_routed os registry parse_config pki host pm config msg r
                (record s { process_mgr = p })).1.process_mgr
      routed (Result.err e, m) = delete-IsManaged os config.name p h
      routed (Result.ok u, m) = issued-IsManaged config.acme pm.host _ h

  run_mapped-IsManaged :
      (r : Result (PortMapping × ProcessConfig)) (s : DaemonState W X509 PKey)
      → IsManaged s.process_mgr
      → IsManaged (run_mapped os registry parse_config pki host r s).1.process_mgr
  unfolding run_mapped
  run_mapped-IsManaged (Result.err e) s h = h
  run_mapped-IsManaged (Result.ok (pm, config)) s h =
      elim (Bool-cases (
        is_some os registry parse_config pki host config.acme
        && not (is_some os registry parse_config pki host pm.host))) [
          | inl e ↦ rw e h
          | inr e ↦ rw e (elim (Bool-cases config.spa) [
            | inl q ↦ simp q (run_spa-IsManaged pm config s h)
            | inr q ↦ simp q (
                app_spawned-IsManaged pm config _ s
                  (spawn_process-IsManaged os registry parse_config config s.process_mgr h))
          ])
        ]

  pub handle_run-IsManaged :
      (config : ProcessConfig) (s : DaemonState W X509 PKey)
      → IsManaged s.process_mgr
      → IsManaged (handle_run os registry parse_config pki host config s).1.process_mgr
  unfolding handle_run run_on
  handle_run-IsManaged config s h = on config.port_mapping
    where
      on :
          (o : Option PortMapping)
          → IsManaged (run_on os registry parse_config pki host o config s).1.process_mgr
      on none = h
      on (some pm) = run_mapped-IsManaged _ s h

  pub handle_del-IsManaged :
      (name : Text) (s : DaemonState W X509 PKey)
      → IsManaged s.process_mgr
      → IsManaged (handle_del os registry parse_config pki host name s).1.process_mgr
  unfolding handle_del
  handle_del-IsManaged name s h = delete-IsManaged os name s.process_mgr h
