-- ===== src/Daemon/Startup.antt =====
-- src/daemon.rs, `run_daemon`: the state that the daemon starts with. Opening the database and starting
-- the renewal of certificates are not part of it. The restored apps are spawned; no route is added.
use nylon_run.Prelude.{Option, none, some, [], Text}
use nylon_run.System.{Os}
use nylon_run.Metrics.{new_registered}
use nylon_run.Oci.Pull.{Registry}
use nylon_run.Oci.Entrypoint.{ImageConfig}
use nylon_run.Process.State.{new}
use nylon_run.Process.Manager.{restore_processes}
use nylon_run.Proxy.Manager
use nylon_run.State.{Db, Codec, load, migrate_json_to_slatedb}
use nylon_run.Cloud.{CloudAgent}
use nylon_run.Cloud.Config.{load_cloud_config}
use nylon_run.Daemon.Requests.{Server}
use nylon_run.Daemon.Requests.Background.{Tasks, start}

module _ {A : Type 0} where
  abbrev pub no_task : Tasks A
  no_task = record { unstopped = []; handle = none; spawned = 0 }

-- The agent of a link that the database remembers.
unfoldable pub restored_agent : Option (Text × Text) → Tasks CloudAgent
unfolding start
restored_agent none = no_task
restored_agent (some (api_key, url)) =
    start (record { api_key = api_key; server_url = url }) no_task

module _ {W X509 PKey D B : Type 0} (os : Os W) (registry : Registry W)
    (parse_config : Text → Option ImageConfig) (db : Db D B) (codec : Codec B) where
  unfoldable pub run_daemon : D → W → Server W X509 PKey D
  unfolding restored_agent
  run_daemon d0 w0 =
      let (d, w) = migrate_json_to_slatedb db codec os d0 w0 in
      record {
        daemon = record {
          process_mgr =
              restore_processes os registry parse_config (load db codec d)
                (new (some new_registered) w);
          proxy_mgr = Manager.new;
          acme_configs = [];
        };
        state_store = d;
        cloud = restored_agent (load_cloud_config db codec d);
        metrics = no_task;
      }
