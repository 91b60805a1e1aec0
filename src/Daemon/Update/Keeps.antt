-- ===== src/Daemon/Update/Keeps.antt =====
-- src/server.rs: `handle_update`, the process table and the routes.
use nylon_run.Prelude.{
  ℕ, ◌≡◌, refl, ap, ◌∙◌, Bool, true, false, Option, none, some, List, Text, Result, ok, err,
  Bool-cases, Option-cases, inl, inr,
}
use nylon_run.Prelude.Actions.{fail}
use nylon_run.Prelude.Maps.{lookup}
use nylon_run.Protocol.{ProcessConfig, UpdateFields, Response}
use nylon_run.System.{Os}
use nylon_run.Tls.{Pki}
use nylon_run.Oci.Pull.{Registry, pull_and_extract}
use nylon_run.Oci.Entrypoint.{ImageConfig}
use nylon_run.Process.State.{ProcessManager, count, on_world}
use nylon_run.Process.Start.Frames.{IsSpared, Spares, spares_rules, Spares-on_world}
use nylon_run.Process.Start.Keeps.{gauge-count}
use nylon_run.Process.Manager.{restart}
use nylon_run.Process.Manager.Configs.{ConfigChange, get_configs}
use nylon_run.Process.Manager.Invariant.{
  IsManaged, spared-IsManaged, update_config-IsManaged, update_oci_config-IsManaged,
}
use nylon_run.Process.Manager.Starting.{restart-IsManaged}
use nylon_run.Proxy.Manager.{ProxyManager, remove_routes}
use nylon_run.Process.Manager.Outcomes.{update_config_unknown}
use nylon_run.Metrics.{Metrics}
use nylon_run.Daemon.{DaemonState, Host}
use nylon_run.Daemon.Update.{
  handle_update, prepared, prepare, updated, apply_image, reroute, reroute_to, rerouted,
  restart_updated, restarted, counted, count_if, pull_counted, pull_update, pull_image, is_spa,
  config_named, is_some, undo_of,
}

module _ {W : Type 0} where
  Spares-fail : {A : Type 0} (e : Text) → Spares {W = W} {A = A} (fail e)
  Spares-fail e = record { at = λ s. (refl, refl) }

  count-IsSpared :
      (f : Metrics → Metrics)
      → ((m : Metrics) → (f m).managed_processes ≡ m.managed_processes)
      → (s s' : ProcessManager W) → IsSpared s s'
      → IsSpared s (count f s')
  count-IsSpared f h s s' (p, q) = (unfold count in p, gauge-count f h s' ∙ q)

module _ {W X509 PKey : Type 0} where
  -- The answer is an error, and the process table and the proxy are as they were.
  abbrev pub IsRefused : DaemonState W X509 PKey → Response × DaemonState W X509 PKey → Type 0
  IsRefused s r =
      ((e : Text) × (r.0 ≡ Response.error e))
      × (r.1.process_mgr.processes ≡ s.process_mgr.processes)
      × (r.1.proxy_mgr ≡ s.proxy_mgr)

module _ {W X509 PKey : Type 0} (os : Os W) (registry : Registry W)
    (parse_config : Text → Option ImageConfig) (pki : Pki X509 PKey) (host : Host W)
    (alphabetic : ℕ → Bool) (shlex_split : Text → Option (List Text)) where
  counted-IsSpared :
      (idle : Bool) (s : ProcessManager W) (r : Result Text × ProcessManager W)
      → IsSpared s r.1
      → IsSpared s (counted os registry parse_config pki host alphabetic shlex_split idle r).1
  unfolding counted count_if
  counted-IsSpared true s (ok d, p) h = count-IsSpared _ (λ m. refl) s p h
  counted-IsSpared true s (err e, p) h = count-IsSpared _ (λ m. refl) s p h
  counted-IsSpared false s (ok d, p) h = h
  counted-IsSpared false s (err e, p) h = h

  pull_counted-Spares :
      (idle : Bool) (image name : Text)
      → Spares
          (pull_counted os registry parse_config pki host alphabetic shlex_split idle image name)
  unfolding pull_counted
  pull_counted-Spares idle image name = record {
    at = λ s.
        counted-IsSpared idle s (on_world (pull_and_extract os registry image name) s)
          ((Spares-on_world (pull_and_extract os registry image name)).at s);
  }

  pull_update-Spares :
      (idle : Bool) (o : Option Text) (name : Text)
      → Spares (pull_update os registry parse_config pki host alphabetic shlex_split idle o name)
  unfolding pull_update pull_image
  pull_update-Spares idle none name = search spares_rules
  pull_update-Spares idle (some image) name =
      search (spares_rules, Spares-fail, pull_counted-Spares) depth 12

  prepare-Spares :
      (idle : Bool) (name : Text) (f : UpdateFields)
      → Spares (prepare os registry parse_config pki host alphabetic shlex_split idle name f)
  unfolding prepare
  prepare-Spares idle name f = search (spares_rules, pull_update-Spares) depth 12

  module _ (idle : Bool) where
    restarted-IsManaged :
        (r : Result Text × ProcessManager W) (s : DaemonState W X509 PKey)
        → IsManaged r.1
        → IsManaged
            (restarted os registry parse_config pki host alphabetic shlex_split idle r
              s).1.process_mgr
    unfolding restarted
    restarted-IsManaged (ok msg, p) s h = h
    restarted-IsManaged (err e, p) s h = h

    restart_updated-IsManaged :
        (name : Text) (s : DaemonState W X509 PKey)
        → IsManaged s.process_mgr
        → IsManaged
            (restart_updated os registry parse_config pki host alphabetic shlex_split idle name
              s).1.process_mgr
    unfolding restart_updated
    restart_updated-IsManaged name s h =
        elim (Bool-cases (is_spa (config_named name (get_configs s.process_mgr)))) [
          | inl e ↦ rw e h
          | inr e ↦ rw e (
              restarted-IsManaged (restart os registry parse_config name s.process_mgr) s
                (restart-IsManaged os registry parse_config name s.process_mgr h))
        ]

    rerouted-IsManaged :
        (name : Text) (old : ProcessConfig) (r : Result (Unit {0}) × ProxyManager X509 PKey)
        (s : DaemonState W X509 PKey)
        → IsManaged s.process_mgr
        → IsManaged
            (rerouted os registry parse_config pki host alphabetic shlex_split idle name old r
              s).1.process_mgr
    unfolding rerouted
    rerouted-IsManaged name old (err e, m) s h =
        update_config-IsManaged name (undo_of old) s.process_mgr h
    rerouted-IsManaged name old (ok u, m) s h =
        restart_updated-IsManaged name (record s { proxy_mgr = m }) h

    reroute_to-IsManaged :
        (name : Text) (old : ProcessConfig) (o : Option ProcessConfig) (s : DaemonState W X509 PKey)
        → IsManaged s.process_mgr
        → IsManaged
            (reroute_to os registry parse_config pki host alphabetic shlex_split idle name old o
              s).1.process_mgr
    unfolding reroute_to
    reroute_to-IsManaged name old none s h = restart_updated-IsManaged name s h
    reroute_to-IsManaged name old (some cfg) s h = elim (Option-cases cfg.port_mapping) [
      | inl e ↦ rw e (restart_updated-IsManaged name s h)
      | inr (pm, e) ↦ rw e (rerouted-IsManaged name old _ s h)
    ]

    reroute-IsManaged :
        (name : Text) (f : UpdateFields) (old : ProcessConfig) (s : DaemonState W X509 PKey)
        → IsManaged s.process_mgr
        → IsManaged
            (reroute os registry parse_config pki host alphabetic shlex_split idle name f old
              s).1.process_mgr
    unfolding reroute
    reroute-IsManaged name f old s h = elim (Bool-cases (is_some f.port)) [
      | inl e ↦ rw e (
          reroute_to-IsManaged name old _ (record s { proxy_mgr = remove_routes name s.proxy_mgr })
            h)
      | inr e ↦ rw e (restart_updated-IsManaged name s h)
    ]

    apply_image-IsManaged :
        (name : Text) (o : Option (Text × Text)) (p : ProcessManager W)
        → IsManaged p
        → IsManaged
            (apply_image os registry parse_config pki host alphabetic shlex_split idle name o p)
    unfolding apply_image
    apply_image-IsManaged name none p h = h
    apply_image-IsManaged name (some (image, entrypoint)) p h =
        update_oci_config-IsManaged name image entrypoint p h

    updated-IsManaged :
        (name : Text) (f : UpdateFields) (o : Option (Text × Text))
        (r : Result ProcessConfig × ProcessManager W) (s : DaemonState W X509 PKey)
        → IsManaged r.1
        → IsManaged
            (updated os registry parse_config pki host alphabetic shlex_split idle name f o r
              s).1.process_mgr
    unfolding updated
    updated-IsManaged name f o (err e, p) s h = h
    updated-IsManaged name f o (ok old, p) s h =
        reroute-IsManaged name f old _ (apply_image-IsManaged name o p h)

    prepared-IsManaged :
        (name : Text) (f : UpdateFields)
        (r : Result (ConfigChange × Option (Text × Text)) × ProcessManager W)
        (s : DaemonState W X509 PKey)
        → IsManaged r.1
        → IsManaged
            (prepared os registry parse_config pki host alphabetic shlex_split idle name f r
              s).1.process_mgr
    unfolding prepared
    prepared-IsManaged name f (err e, p) s h = h
    prepared-IsManaged name f (ok (change, o), p) s h =
        updated-IsManaged name f o _ s (update_config-IsManaged name change p h)

    -- Updating an app keeps the process table in order, on every way out of the handler: each name is
    -- bound once, to an entry of that name, and the gauge is the number of the entries.
    pub handle_update-IsManaged :
        (name : Text) (f : UpdateFields) (s : DaemonState W X509 PKey)
        → IsManaged s.process_mgr
        → IsManaged
            (handle_update os registry parse_config pki host alphabetic shlex_split idle name f
              s).1.process_mgr
    unfolding handle_update
    handle_update-IsManaged name f s h =
        prepared-IsManaged name f
          (prepare os registry parse_config pki host alphabetic shlex_split idle name f
            s.process_mgr)
          s (spared-IsManaged s.process_mgr _ h ((prepare-Spares idle name f).at s.process_mgr))

    prepared_unknown :
        (name : Text) (f : UpdateFields)
        (r : Result (ConfigChange × Option (Text × Text)) × ProcessManager W)
        (s : DaemonState W X509 PKey)
        → r.1.processes ≡ s.process_mgr.processes
        → lookup name s.process_mgr.processes ≡ none
        → IsRefused s
            (prepared os registry parse_config pki host alphabetic shlex_split idle name f r s)
    unfolding prepared updated
    prepared_unknown name f (err e, p) s k h = ((e, refl), k, refl)
    prepared_unknown name f (ok (change, o), p) s k h =
        let (e, eq) = update_config_unknown name change p (ap (lookup name) k ∙ h) in
        rw eq ((e, refl), k, refl)

    -- An update of an app that is not managed is answered with an error, whatever it asks for, and the
    -- process table and everything of the proxy stay as they were.
    pub handle_update_unknown :
        (name : Text) (f : UpdateFields) (s : DaemonState W X509 PKey)
        → lookup name s.process_mgr.processes ≡ none
        → IsRefused s
            (handle_update os registry parse_config pki host alphabetic shlex_split idle name f s)
    unfolding handle_update
    handle_update_unknown name f s h =
        prepared_unknown name f
          (prepare os registry parse_config pki host alphabetic shlex_split idle name f
            s.process_mgr)
          s ((prepare-Spares idle name f).at s.process_mgr).0 h
