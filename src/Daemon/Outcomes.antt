-- ===== src/Daemon/Outcomes.antt =====
-- src/server.rs: what the handlers leave in the two managers.
use nylon_run.Prelude.{
  ℕ, ◌≡◌, refl, ap, subst, ◌∙◌, Bool, true, false, ◌&&◌, not, Option, none, some, List, ◌++◌, Text,
  Result, ok, err, arith, codes, text_eq, text_eq_refl, Bool-cases, inl, inr, if◌then◌else◌,
  is_substring, starts_with, strip_prefix,
}
use nylon_run.Prelude.Splits.{is_substring-append}
use nylon_run.Prelude.Maps.{
  insert, remove, contains_key, contains_key-insert, contains_key-remove, remove-insert,
}
use nylon_run.Protocol.{PortMapping, ProcessConfig, Response}
use nylon_run.System.{Os}
use nylon_run.Tls.{Pki}
use nylon_run.Oci.Pull.{Registry}
use nylon_run.Oci.Entrypoint.{ImageConfig}
use nylon_run.Process.State.{ProcessManager}
use nylon_run.Process.Manager.{spawn_process, delete}
use nylon_run.Process.Manager.Outcomes.{
  IsRegistered, register_spa-IsRegistered, IsSpawned, spawn_process-IsSpawned, processes-delete,
  delete-not_found,
}
use nylon_run.Process.Start.Frames.{IsResult}
use nylon_run.Proxy.Routes.{RouteTable, Backend}
use nylon_run.Proxy.Manager.{ProxyManager, add_route_with_tls, without_name}
use nylon_run.Proxy.Manager.Ports.{remove_routes_lem}
use nylon_run.Proxy.Manager.Invariant.{has_name, has_name-append, has_name-without_name}
use nylon_run.Proxy.Manager.Adding.{entry, pushed, routes-add_route_with_tls}
use nylon_run.Daemon.{
  DaemonState, Host, handle_run, run_on, run_mapped, remap, auto_remapped, remapped, same_port,
  is_some, app_spawned, app_routed, run_spa, spa_routed, spa_registered, spawn_acme_issue,
  handle_del, del_response,
}

module _ {W X509 PKey : Type 0} where
  abbrev is_known : Text → DaemonState W X509 PKey → Bool
  is_known name s = contains_key name s.process_mgr.processes

  abbrev is_routed : Text → DaemonState W X509 PKey → Bool
  is_routed name s = has_name name s.proxy_mgr.routes

  -- The name was free and is now managed and routed.
  abbrev pub IsServing : Text → DaemonState W X509 PKey → DaemonState W X509 PKey → Type 0
  IsServing name s s' =
      (is_known name s ≡ false) × (is_known name s' ≡ true) × (is_routed name s' ≡ true)

  -- The app is served, or the process table is as it was.
  abbrev pub IsRun : Text → DaemonState W X509 PKey → Response × DaemonState W X509 PKey → Type 0
  IsRun name s (Response.ok msg, s') = IsServing name s s'
  IsRun name s (Response.error e, s') = s'.process_mgr.processes ≡ s.process_mgr.processes
  IsRun name s (_, s') = ⊥

  -- Registering a certificate for renewal touches neither manager.
  pub spawn_acme_issue-managers :
      (email host : Option Text) (s : DaemonState W X509 PKey)
      → ((spawn_acme_issue email host s).process_mgr ≡ s.process_mgr)
        × ((spawn_acme_issue email host s).proxy_mgr ≡ s.proxy_mgr)
  unfolding spawn_acme_issue
  spawn_acme_issue-managers none host s = (refl, refl)
  spawn_acme_issue-managers (some email) none s = (refl, refl)
  spawn_acme_issue-managers (some email) (some host) s = ground arith

module _ {W X509 PKey : Type 0} where
  issued-IsServing :
      (name : Text) (s : DaemonState W X509 PKey) (email host : Option Text)
      (s' : DaemonState W X509 PKey)
      → is_known name s ≡ false
      → is_known name s' ≡ true
      → is_routed name s' ≡ true
      → IsServing name s (spawn_acme_issue email host s')
  issued-IsServing name s email host s' free k r =
      let (p, q) = spawn_acme_issue-managers email host s' in
      (free, ap (λ m. contains_key name m.processes) p ∙ k, ap (λ m. has_name name m.routes) q ∙ r)

has_name-pushed :
    (name : Text) (port : ℕ) (host : Option Text) (backend : Backend) (rs : RouteTable)
    → has_name name (pushed (entry name port host backend) rs) ≡ true
has_name-pushed name port host backend rs = ground (
  arith,
  has_name-append name (without_name name rs) (entry name port host backend),
  text_eq_refl name,
)

has_key_removed :
    {A : Type 0} (name : Text) (m : List (Text × A)) → contains_key name (remove name m) ≡ false
has_key_removed name m = ground (arith, contains_key-remove name name m, text_eq_refl name)

has_name-removed : (name : Text) (rs : RouteTable) → has_name name (without_name name rs) ≡ false
has_name-removed name rs = ground (arith, has_name-without_name name name rs, text_eq_refl name)

says_not_found : (t : Text) → is_substring (codes "not found") (t ++ codes " not found") ≡ true
says_not_found t =
    is_substring-append (codes "not found") t (codes " not found")
      (unfold is_substring starts_with text_eq strip_prefix in refl)

has_key_inserted :
    {A : Type 0} (name : Text) (a : A) (m : List (Text × A))
    → contains_key name (insert name a m) ≡ true
has_key_inserted name a m = ground (arith, contains_key-insert name name a m, text_eq_refl name)

remap-name :
    (r : Result ℕ) (pm : PortMapping) (config : ProcessConfig)
    → IsResult (λ p. p.1.name ≡ config.name) (remap r pm config)
unfolding remap auto_remapped remapped
remap-name r pm config = elim (Bool-cases (same_port pm)) [
  | inl e ↦ rw e (moved r)
  | inr e ↦ rw e refl
]
  where
    moved : (r : Result ℕ) → IsResult (λ p. p.1.name ≡ config.name) (auto_remapped r pm config)
    moved (err e) = tt
    moved (ok p) = refl

module _ {W X509 PKey : Type 0} (os : Os W) (registry : Registry W)
    (parse_config : Text → Option ImageConfig) (pki : Pki X509 PKey) (host : Host W) where
  added-IsRouted :
      (pm : PortMapping) (config : ProcessConfig) (backend : Backend) (ssl : Option (Text × Text))
      (s : DaemonState W X509 PKey)
      → has_name config.name
          (add_route_with_tls pki config.name pm.public_port pm.host backend ssl
            s.proxy_mgr).1.routes
        ≡ true
  added-IsRouted pm config backend ssl s =
      ap (has_name config.name)
        (routes-add_route_with_tls pki config.name pm.public_port pm.host backend ssl s.proxy_mgr)
      ∙ has_name-pushed config.name pm.public_port pm.host backend s.proxy_mgr.routes

  app_spawned-IsRun :
      (pm : PortMapping) (config : ProcessConfig) (s : DaemonState W X509 PKey)
      (r : Result Text × ProcessManager W)
      → IsSpawned config s.process_mgr r
      → IsRun config.name s (app_spawned os registry parse_config pki host pm config r s)
  unfolding app_spawned app_routed
  app_spawned-IsRun pm config s (err e, p) h = h
  app_spawned-IsRun pm config s (ok msg, p) (free, (q, st, eq)) =
      routed (add_route_with_tls pki config.name pm.public_port pm.host _ _ s.proxy_mgr)
        (added-IsRouted pm config _ _ s)
    where
      routed :
          (r : Result (Unit {0}) × ProxyManager X509 PKey)
          → has_name config.name r.1.routes ≡ true
          → IsRun config.name s (
              app_routed os registry parse_config pki host pm config msg r
                (record s { process_mgr = p }))
      routed (err e, m) k =
          processes-delete os config.name p
          ∙ ap (remove config.name) eq
          ∙ remove-insert config.name q s.process_mgr.processes free
      routed (ok u, m) k =
          issued-IsServing config.name s config.acme pm.host _ free
            (ap (contains_key config.name) eq
              ∙ has_key_inserted config.name q s.process_mgr.processes)
            k

  spa_registered-IsRun :
      (pm : PortMapping) (config : ProcessConfig) (s s' : DaemonState W X509 PKey)
      (r : Result Text × ProcessManager W)
      → IsRegistered os config s.process_mgr r
      → is_routed config.name s' ≡ true
      → IsRun config.name s (spa_registered os registry parse_config pki host pm config r s')
  unfolding spa_registered
  spa_registered-IsRun pm config s s' (err e, p) h k = h
  spa_registered-IsRun pm config s s' (ok msg, p) (free, (q, c, eq)) k =
      issued-IsServing config.name s config.acme pm.host _ free
        (ap (contains_key config.name) eq ∙ has_key_inserted config.name q s.process_mgr.processes)
        k

  spa_routed-IsRun :
      (pm : PortMapping) (config : ProcessConfig) (s : DaemonState W X509 PKey)
      (r : Result (Unit {0}) × ProxyManager X509 PKey)
      → has_name config.name r.1.routes ≡ true
      → IsRun config.name s (spa_routed os registry parse_config pki host pm config r s)
  unfolding spa_routed
  spa_routed-IsRun pm config s (err e, m) k = refl
  spa_routed-IsRun pm config s (ok u, m) k =
      spa_registered-IsRun pm config s (record s { proxy_mgr = m }) _
        (register_spa-IsRegistered os config s.process_mgr) k

  run_spa-IsRun :
      (pm : PortMapping) (config : ProcessConfig) (s : DaemonState W X509 PKey)
      → IsRun config.name s (run_spa os registry parse_config pki host pm config s)
  unfolding run_spa
  run_spa-IsRun pm config s = elim (Bool-cases (os.is_dir config.path s.process_mgr.world)) [
    | inl e ↦ rw e (spa_routed-IsRun pm config s _ (added-IsRouted pm config _ _ s))
    | inr e ↦ rw e refl
  ]

  run_mapped-IsRun :
      (name : Text) (s : DaemonState W X509 PKey) (r : Result (PortMapping × ProcessConfig))
      → IsResult (λ p. p.1.name ≡ name) r
      → IsRun name s (run_mapped os registry parse_config pki host r s)
  unfolding run_mapped
  run_mapped-IsRun name s (err e) h = refl
  run_mapped-IsRun name s (ok (pm, config)) h =
      subst (λ n. IsRun n s (run_mapped os registry parse_config pki host (ok (pm, config)) s)) h
        (chosen config.spa (
          is_some os registry parse_config pki host config.acme
          && not (is_some os registry parse_config pki host pm.host)))
    where
      chosen :
          (c b : Bool)
          → IsRun config.name s (
              if b
              then (
                Response.error
                    (codes "ACME requires host-based port mapping (e.g. --p domain.com:443:8000)"),
                s,
              )
              else if c
              then run_spa os registry parse_config pki host pm config s
              else app_spawned os registry parse_config pki host pm config
                  (spawn_process os registry parse_config config s.process_mgr)
                  s)
      chosen c true = refl
      chosen true false = run_spa-IsRun pm config s
      chosen false false =
          app_spawned-IsRun pm config s _
            (spawn_process-IsSpawned os registry parse_config config s.process_mgr)

  run_on-IsRun :
      (o : Option PortMapping) (config : ProcessConfig) (s : DaemonState W X509 PKey)
      → IsRun config.name s (run_on os registry parse_config pki host o config s)
  unfolding run_on
  run_on-IsRun none config s = refl
  run_on-IsRun (some pm) config s =
      run_mapped-IsRun config.name s _ (remap-name (host.free_port s.process_mgr.world) pm config)

  -- A request to run an app is answered in one of two ways: Ok, and the name was free, and is now in
  -- the process table and in the route table; or an error, and the process table is as it was,
  -- whatever step failed. There is no other answer.
  pub handle_run-IsRun :
      (config : ProcessConfig) (s : DaemonState W X509 PKey)
      → IsRun config.name s (handle_run os registry parse_config pki host config s)
  unfolding handle_run
  handle_run-IsRun config s = run_on-IsRun config.port_mapping config s

  -- A request to remove an app is always answered Ok; afterwards no process has the name, and no route.
  pub handle_del_lem :
      (name : Text) (s : DaemonState W X509 PKey)
      → let (r, s') = handle_del os registry parse_config pki host name s in
        ((msg : Text) × (r ≡ Response.ok msg))
        × (is_known name s' ≡ false)
        × (is_routed name s' ≡ false)
  unfolding handle_del del_response
  handle_del_lem name s = (
    answered (delete os name s.process_mgr).0 (λ e. delete-not_found os name e s.process_mgr),
    ap (contains_key name) (processes-delete os name s.process_mgr)
        ∙ has_key_removed name s.process_mgr.processes,
    ap (has_name name) (remove_routes_lem name s.proxy_mgr 0).0
        ∙ has_name-removed name s.proxy_mgr.routes,
  )
    where
      answered :
          (r : Result Text)
          → ((e : Text) → r ≡ err e → (t : Text) × (e ≡ t ++ codes " not found"))
          → (msg : Text) × (del_response os registry parse_config pki host name r ≡ Response.ok msg)
      answered (ok msg) k = (msg, refl)
      answered (err e) k =
          let (t, eq) = k e refl in
          (
            codes "'" ++ name ++ codes "' removed",
            rw (ap (is_substring (codes "not found")) eq ∙ says_not_found t) refl,
          )
