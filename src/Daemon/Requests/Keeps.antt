-- ===== src/Daemon/Requests/Keeps.antt =====
-- src/server.rs: what every request and every turn of the health checker keep of the daemon's state.
use nylon_run.Prelude.{
  ℕ, ◌+◌, ◌%◌, ◌==◌, refl, Bool, true, false, Option, none, some, List, Text, Result, text_eq,
  codes, length, inl, inr, Bool-cases, if◌then◌else◌,
}
use nylon_run.Prelude.Decimals.{parse_uint, max_u64}
use nylon_run.Protocol.{Request, Response}
use nylon_run.Protocol.{
  bin, run, ls, del, restart, reload, update, logs, set, export, save, link, unlink, kill,
  metrics_enable, metrics_disable,
}
use nylon_run.System.{Os}
use nylon_run.Tls.{Pki}
use nylon_run.Oci.Pull.{Registry}
use nylon_run.Oci.Entrypoint.{ImageConfig}
use nylon_run.Oci.Settings.{Json, save_default_registry}
use nylon_run.Process.State.{ProcessManager}
use nylon_run.Process.Manager.{spawn_process, delete, kill_all}
use nylon_run.Process.Manager
use nylon_run.Process.Manager.Configs.{get_configs}
use nylon_run.Process.Manager.Invariant.{IsManaged, spared-IsManaged, kill_all-IsManaged}
use nylon_run.Process.Manager.Starting.{
  spawn_process-IsManaged, restart-IsManaged, check_and_restart-IsManaged,
}
use nylon_run.Process.Logs.{rotate_logs}
use nylon_run.State.{Db, Codec}
use nylon_run.State
use nylon_run.Cloud.Config.{save_cloud_config, remove_cloud_config}
use nylon_run.Daemon.{DaemonState, Host}
use nylon_run.Daemon.Update.Keeps.{handle_update-IsManaged}
use nylon_run.Daemon.Running.{handle_run-IsManaged, handle_del-IsManaged}
use nylon_run.Daemon.Requests.{
  Server, handle_request, handle_set, set_ttl, registry_set, saved, handle_save, linked,
  handle_link, unlinked, handle_unlink, handle_kill, handle_metrics_enable, handle_metrics_disable,
  disable_held, on_daemon, on_processes, with_processes, health_tick,
}
use nylon_run.Daemon.Requests.Background.{IsSingle, stop, stop-IsSingle, start_stop-IsSingle}

module _ {W X509 PKey D : Type 0} where
  -- The process table is in order, and of each background task one runs at most, under the daemon's hand.
  pub record IsSound (s : Server W X509 PKey D) : Type 0 where
    pub managed : IsManaged s.daemon.process_mgr
    pub agent : IsSingle s.cloud
    pub metrics_server : IsSingle s.metrics

module _ {W X509 PKey D B J : Type 0} (os : Os W) (registry : Registry W)
    (parse_config : Text → Option ImageConfig) (pki : Pki X509 PKey) (host : Host W)
    (alphabetic : ℕ → Bool) (shlex_split : Text → Option (List Text)) (busy_lock : Bool)
    (db : Db D B) (codec : Codec B) (json : Json J) where
  -- `handle_request` in its environment.
  abbrev handle : Request → Server W X509 PKey D → Option Response × Server W X509 PKey D
  handle =
      handle_request os registry parse_config pki host alphabetic shlex_split busy_lock db codec
        json

  -- Another state of the managers, with the process table in order.
  daemon-IsSound :
      (d : DaemonState W X509 PKey) (s : Server W X509 PKey D)
      → IsSound s
      → IsManaged d.process_mgr
      → IsSound (record s { daemon = d })
  daemon-IsSound d s h k = record {
    managed = k;
    agent = h.agent;
    metrics_server = h.metrics_server;
  }

  handle_set-IsSound :
      (key value : Text) (s : Server W X509 PKey D)
      → IsSound s
      → IsSound
          (handle_set os registry parse_config pki host alphabetic shlex_split busy_lock db codec
            json key value s).1
  unfolding handle_set
  handle_set-IsSound key value s h = elim (Bool-cases (text_eq key (codes "cache-ttl"))) [
    | inl e ↦ rw e (ttl (parse_uint max_u64 value))
    | inr e ↦ rw e (elim (Bool-cases (text_eq key (codes "default-registry"))) [
      | inl q ↦ rw q (set_registry (save_default_registry os json value s.daemon.process_mgr.world))
      | inr q ↦ rw q h
    ])
  ]
    where
      ttl : (o : Option ℕ) → IsSound (set_ttl value o s).1
      ttl none = unfold set_ttl in h
      ttl (some n) =
          unfold set_ttl in
          record { managed = h.managed; agent = h.agent; metrics_server = h.metrics_server }

      set_registry : (r : Option (Result (Unit {0})) × W) → IsSound (registry_set value r s).1
      set_registry r =
          unfold registry_set in
          unfold with_processes in
          record {
            managed = spared-IsManaged s.daemon.process_mgr _ h.managed (refl, refl);
            agent = h.agent;
            metrics_server = h.metrics_server;
          }

  handle_link-IsSound :
      (api_key : Text) (s : Server W X509 PKey D)
      → IsSound s
      → IsSound
          (handle_link os registry parse_config pki host alphabetic shlex_split busy_lock db codec
            json api_key s).1
  unfolding handle_link
  handle_link-IsSound api_key s h = after (save_cloud_config db codec api_key s.state_store)
    where
      after :
          (r : Result (Unit {0}) × D)
          → IsSound
              (linked os registry parse_config pki host alphabetic shlex_split busy_lock db codec
                json api_key r s).1
      after (Result.err e, d) =
          unfold linked in
          record { managed = h.managed; agent = h.agent; metrics_server = h.metrics_server }
      after (Result.ok u, d) =
          unfold linked in
          record {
            managed = h.managed;
            agent = start_stop-IsSingle _ s.cloud h.agent;
            metrics_server = h.metrics_server;
          }

  handle_unlink-IsSound :
      (s : Server W X509 PKey D)
      → IsSound s
      → IsSound
          (handle_unlink os registry parse_config pki host alphabetic shlex_split busy_lock db codec
            json s).1
  unfolding handle_unlink
  handle_unlink-IsSound s h = after (remove_cloud_config db codec s.state_store)
    where
      after :
          (r : Result (Unit {0}) × D)
          → IsSound
              (unlinked os registry parse_config pki host alphabetic shlex_split busy_lock db codec
                json r
                (record s { cloud = stop s.cloud })).1
      after (Result.err e, d) =
          unfold unlinked in
          record {
            managed = h.managed;
            agent = stop-IsSingle s.cloud h.agent;
            metrics_server = h.metrics_server;
          }
      after (Result.ok u, d) =
          unfold unlinked in
          record {
            managed = h.managed;
            agent = stop-IsSingle s.cloud h.agent;
            metrics_server = h.metrics_server;
          }

  handle_save-IsSound :
      (s : Server W X509 PKey D)
      → IsSound s
      → IsSound
          (handle_save os registry parse_config pki host alphabetic shlex_split busy_lock db codec
            json s).1
  unfolding handle_save saved
  handle_save-IsSound s h =
      after (State.save db codec (get_configs s.daemon.process_mgr) s.state_store)
    where
      after :
          (r : Result (Unit {0}) × D)
          → IsSound
              (saved os registry parse_config pki host alphabetic shlex_split busy_lock db codec
                json
                (length (get_configs s.daemon.process_mgr))
                r
                s).1
      after (Result.err e, d) = record {
        managed = h.managed;
        agent = h.agent;
        metrics_server = h.metrics_server;
      }
      after (Result.ok u, d) = record {
        managed = h.managed;
        agent = h.agent;
        metrics_server = h.metrics_server;
      }

  handle_metrics_disable-IsSound :
      (s : Server W X509 PKey D) → IsSound s → IsSound (handle_metrics_disable s).1
  unfolding handle_metrics_disable
  handle_metrics_disable-IsSound s h = held s.metrics.handle
    where
      held : (o : Option ℕ) → IsSound (disable_held o s).1
      held none = unfold disable_held in h
      held (some id) =
          unfold disable_held in
          record {
            managed = h.managed;
            agent = h.agent;
            metrics_server = stop-IsSingle s.metrics h.metrics_server;
          }

  reload-IsManaged :
      (name : Text) (p : ProcessManager W)
      → IsManaged p
      → IsManaged (Manager.reload os registry parse_config name p).1
  unfolding Manager.reload
  reload-IsManaged name p h = restart-IsManaged os registry parse_config name p h

  -- Every request
  pub handle_request-IsSound :
      (r : Request) (s : Server W X509 PKey D) → IsSound s → IsSound (handle r s).1
  unfolding handle_request on_processes on_daemon with_processes
  handle_request-IsSound (bin config) s h =
      daemon-IsSound _ s h
        (spawn_process-IsManaged os registry parse_config config s.daemon.process_mgr h.managed)
  handle_request-IsSound (run config) s h =
      daemon-IsSound _ s h
        (handle_run-IsManaged os registry parse_config pki host config s.daemon h.managed)
  handle_request-IsSound ls s h = h
  handle_request-IsSound (del name) s h =
      daemon-IsSound _ s h
        (handle_del-IsManaged os registry parse_config pki host name s.daemon h.managed)
  handle_request-IsSound (restart name) s h =
      daemon-IsSound _ s h
        (restart-IsManaged os registry parse_config name s.daemon.process_mgr h.managed)
  handle_request-IsSound (reload name) s h =
      daemon-IsSound _ s h (reload-IsManaged name s.daemon.process_mgr h.managed)
  handle_request-IsSound (update name f) s h = daemon-IsSound _ s h (
      handle_update-IsManaged os registry parse_config pki host alphabetic shlex_split busy_lock
        name f s.daemon h.managed)
  handle_request-IsSound (logs name n) s h = h
  handle_request-IsSound (set key value) s h = handle_set-IsSound key value s h
  handle_request-IsSound export s h = h
  handle_request-IsSound save s h = handle_save-IsSound s h
  handle_request-IsSound (link api_key) s h = handle_link-IsSound api_key s h
  handle_request-IsSound unlink s h = handle_unlink-IsSound s h
  handle_request-IsSound kill s h =
      unfold handle_kill in
      unfold with_processes in
      record {
        managed = kill_all-IsManaged os s.daemon.process_mgr;
        agent = stop-IsSingle s.cloud h.agent;
        metrics_server = stop-IsSingle s.metrics h.metrics_server;
      }
  handle_request-IsSound (metrics_enable port) s h =
      unfold handle_metrics_enable in
      record {
        managed = h.managed;
        agent = h.agent;
        metrics_server = start_stop-IsSingle port s.metrics h.metrics_server;
      }
  handle_request-IsSound metrics_disable s h = handle_metrics_disable-IsSound s h

  rotate_logs-IsManaged : (p : ProcessManager W) → IsManaged p → IsManaged (rotate_logs os p)
  unfolding rotate_logs
  rotate_logs-IsManaged p h = spared-IsManaged p _ h (refl, refl)

  pub health_tick-IsSound :
      (tick : ℕ) (s : Server W X509 PKey D)
      → IsSound s
      → IsSound (
          health_tick os registry parse_config pki host alphabetic shlex_split busy_lock db codec
            json tick s)
  unfolding health_tick with_processes
  health_tick-IsSound tick s h = daemon-IsSound _ s h (
      rotated ((tick + 1) % 30 == 0)
        (check_and_restart-IsManaged os registry parse_config s.daemon.process_mgr h.managed))
    where
      rotated :
          (b : Bool) {p : ProcessManager W}
          → IsManaged p
          → IsManaged (if b then rotate_logs os p else p)
      rotated true {p} k = rotate_logs-IsManaged p k
      rotated false k = k
