-- ===== src/Daemon/Requests.antt =====
-- src/server.rs, `handle_request`: what the daemon does for each request, and the health checker of
-- `run_server`. Each runs under the lock of the daemon's state. Beside the two managers the state has the
-- database, and the two tasks that requests start and stop: the cloud agent and the metrics server.
pub mod Background
pub mod Keeps
pub mod Reachable
pub mod Saving
use nylon_run.Prelude.{
  ℕ, ◌+◌, ◌%◌, ◌==◌, Bool, Option, none, some, List, [], ◌∷◌, ◌++◌, Text, Result, codes, text_eq,
  length, if◌then◌else◌,
}
use nylon_run.Prelude.Decimals.{decimal, parse_uint, max_u64}
use nylon_run.Protocol.{ProcessConfig, Request, Response, UpdateFields}
use nylon_run.Protocol.{
  bin, run, ls, del, restart, reload, update, logs, set, export, save, link, unlink, kill,
  metrics_enable, metrics_disable,
}
use nylon_run.System.{Os}
use nylon_run.Tls.{Pki}
use nylon_run.Oci.Pull.{Registry}
use nylon_run.Oci.Entrypoint.{ImageConfig}
use nylon_run.Oci.Settings.{Json, save_default_registry}
use nylon_run.Process.State.{ProcessManager}
use nylon_run.Process.Manager.{spawn_process, list, kill_all}
use nylon_run.Process.Manager
use nylon_run.Process.Manager.Configs.{get_configs}
use nylon_run.Process.Manager.Supervision.{check_and_restart}
use nylon_run.Process.Logs.{get_logs, rotate_logs}
use nylon_run.Proxy.Manager.{set_cache_ttl}
use nylon_run.State.{Db, Codec}
use nylon_run.State
use nylon_run.Cloud.{CloudAgent}
use nylon_run.Cloud.Config.{save_cloud_config, remove_cloud_config, default_cloud_url}
use nylon_run.Daemon.{DaemonState, Host, handle_run, handle_del}
use nylon_run.Daemon.Update.{handle_update}
use Background.{Tasks, stop, start}

pub record Server (W X509 PKey D : Type 0) : Type 0 where
  pub daemon : DaemonState W X509 PKey
  pub state_store : D
  pub cloud : Tasks CloudAgent
  pub metrics : Tasks ℕ

abbrev respond : Result Text → Response
respond (Result.ok msg) = Response.ok msg
respond (Result.err e) = Response.error e

-- An answer, or `none` for a task that panics.
abbrev Handler : Type 0 → Type 0
Handler S = S → Option Response × S

module _ {W X509 PKey D : Type 0} where
  on_daemon :
      (DaemonState W X509 PKey → Response × DaemonState W X509 PKey)
      → Handler (Server W X509 PKey D)
  on_daemon f s = let (r, d) = f s.daemon in (some r, record s { daemon = d })

  with_processes : ProcessManager W → Server W X509 PKey D → Server W X509 PKey D
  with_processes p s = record s { daemon = record s.daemon { process_mgr = p } }

  on_processes :
      (ProcessManager W → Result Text × ProcessManager W) → Handler (Server W X509 PKey D)
  unfolding with_processes
  on_processes f s = let (r, p) = f s.daemon.process_mgr in (some (respond r), with_processes p s)

  handle_metrics_enable : ℕ → Handler (Server W X509 PKey D)
  unfolding stop start
  handle_metrics_enable port s = (
    some (Response.ok (codes "metrics server started on :" ++ decimal port)),
    record s { metrics = start port (stop s.metrics) },
  )

  disable_held : Option ℕ → Handler (Server W X509 PKey D)
  unfolding stop
  disable_held (some id) s =
      (some (Response.ok (codes "metrics server stopped")), record s { metrics = stop s.metrics })
  disable_held none s = (some (Response.ok (codes "metrics server is not running")), s)

  handle_metrics_disable : Handler (Server W X509 PKey D)
  unfolding disable_held
  handle_metrics_disable s = disable_held s.metrics.handle s

  set_ttl : Text → Option ℕ → Handler (Server W X509 PKey D)
  set_ttl value none s =
      (some (Response.error (codes "invalid value '" ++ value ++ codes "': expected seconds")), s)
  set_ttl value (some secs) s =
      let (returns, p) = set_cache_ttl secs s.daemon.proxy_mgr in
      (
        if returns
            then some (Response.ok (codes "cache-ttl set to " ++ decimal secs ++ codes "s"))
            else none,
        record s { daemon = record s.daemon { proxy_mgr = p } },
      )

  registry_set : Text → Option (Result (Unit {0})) × W → Handler (Server W X509 PKey D)
  unfolding with_processes
  registry_set value (r, w) s = (
    elim r [
      | none ↦ none
      | some r ↦ elim r [
        | Result.ok u ↦ some (Response.ok (codes "default-registry set to '" ++ value ++ codes "'"))
        | Result.err e ↦ some (Response.error (codes "failed to save default-registry: " ++ e))
      ]
    ],
    with_processes (record s.daemon.process_mgr { world = w }) s,
  )

module _ {W X509 PKey D B J : Type 0} (os : Os W) (registry : Registry W)
    (parse_config : Text → Option ImageConfig) (pki : Pki X509 PKey) (host : Host W)
    (alphabetic : ℕ → Bool) (shlex_split : Text → Option (List Text)) (idle : Bool) (db : Db D B)
    (codec : Codec B) (json : Json J) where
  handle_set : Text → Text → Handler (Server W X509 PKey D)
  unfolding set_ttl registry_set
  handle_set key value s =
      if text_eq key (codes "cache-ttl")
      then set_ttl value (parse_uint max_u64 value) s
      else if text_eq key (codes "default-registry")
      then registry_set value (save_default_registry os json value s.daemon.process_mgr.world) s
      else (
        some (
            Response.error (
              codes "unknown config key '"
              ++ key
              ++ codes "'. available: cache-ttl, default-registry")),
        s,
      )

  saved : ℕ → Result (Unit {0}) × D → Handler (Server W X509 PKey D)
  saved n (Result.ok u, d) s = (
    some (Response.ok (codes "saved " ++ decimal n ++ codes " processes")),
    record s { state_store = d },
  )
  saved n (Result.err e, d) s = (some (Response.error e), record s { state_store = d })

  handle_save : Handler (Server W X509 PKey D)
  unfolding saved
  handle_save s =
      let configs = get_configs s.daemon.process_mgr in
      saved (length configs) (State.save db codec configs s.state_store) s

  -- The agent that runs is stopped only once the new link is saved.
  linked : Text → Result (Unit {0}) × D → Handler (Server W X509 PKey D)
  unfolding stop start
  linked api_key (Result.err e, d) s = (
    some (Response.error (codes "failed to save cloud config: " ++ e)),
    record s { state_store = d },
  )
  linked api_key (Result.ok u, d) s = (
    some (Response.ok (codes "linked to cloud")),
    record s {
      state_store = d;
      cloud = start (record { api_key = api_key; server_url = default_cloud_url }) (stop s.cloud);
    },
  )

  handle_link : Text → Handler (Server W X509 PKey D)
  unfolding linked
  handle_link api_key s = linked api_key (save_cloud_config db codec api_key s.state_store) s

  -- The agent is stopped first, whether the database forgets the link or not.
  unlinked : Result (Unit {0}) × D → Handler (Server W X509 PKey D)
  unlinked (Result.err e, d) s = (
    some (Response.error (codes "failed to remove cloud config: " ++ e)),
    record s { state_store = d },
  )
  unlinked (Result.ok u, d) s =
      (some (Response.ok (codes "unlinked from cloud")), record s { state_store = d })

  handle_unlink : Handler (Server W X509 PKey D)
  unfolding unlinked stop
  handle_unlink s =
      unlinked (remove_cloud_config db codec s.state_store) (record s { cloud = stop s.cloud })

  -- The database is emptied of apps and closed; the daemon exits after the response.
  handle_kill : Handler (Server W X509 PKey D)
  unfolding stop with_processes
  handle_kill s =
      let (msg, p) = kill_all os s.daemon.process_mgr in
      (
        some (Response.ok msg),
        record (with_processes p s) {
          cloud = stop s.cloud;
          metrics = stop s.metrics;
          state_store = State.close db codec (State.save db codec [] s.state_store).1;
        },
      )

  abbrev log_response : Result Text → Response
  log_response (Result.ok t) = Response.logs t
  log_response (Result.err e) = Response.error e

  unfoldable pub handle_request : Request → Handler (Server W X509 PKey D)
  unfolding on_daemon on_processes handle_metrics_enable handle_metrics_disable handle_set
      handle_save handle_link handle_unlink handle_kill
  handle_request (bin config) s = on_processes (spawn_process os registry parse_config config) s
  handle_request (run config) s = on_daemon (handle_run os registry parse_config pki host config) s
  handle_request ls s = (some (Response.process_list (list os s.daemon.process_mgr)), s)
  handle_request (del name) s = on_daemon (handle_del os registry parse_config pki host name) s
  handle_request (restart name) s = on_processes (Manager.restart os registry parse_config name) s
  handle_request (reload name) s = on_processes (Manager.reload os registry parse_config name) s
  handle_request (update name fields) s =
      on_daemon
        (handle_update os registry parse_config pki host alphabetic shlex_split idle name fields) s
  handle_request (logs name lines) s =
      (some (log_response (get_logs os name lines s.daemon.process_mgr)), s)
  handle_request (set key value) s = handle_set key value s
  handle_request export s = (some (Response.config_list (get_configs s.daemon.process_mgr)), s)
  handle_request save s = handle_save s
  handle_request (link api_key) s = handle_link api_key s
  handle_request unlink s = handle_unlink s
  handle_request kill s = handle_kill s
  handle_request (metrics_enable port) s = handle_metrics_enable port s
  handle_request metrics_disable s = handle_metrics_disable s

  -- One turn of the health checker; logs are rotated in every thirtieth.
  unfoldable pub health_tick : ℕ → Server W X509 PKey D → Server W X509 PKey D
  unfolding with_processes
  health_tick tick s =
      let p = check_and_restart os registry parse_config s.daemon.process_mgr in
      with_processes (if (tick + 1) % 30 == 0 then rotate_logs os p else p) s
