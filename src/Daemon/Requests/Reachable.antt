-- ===== src/Daemon/Requests/Reachable.antt =====
-- src/server.rs and src/daemon.rs: the states that the daemon reaches. Requests and the turns of the
-- health checker are steps under one lock, in any order.
use nylon_run.Prelude.{ℕ, ◌+◌, Bool, Option, none, some, List, [], ◌∷◌, Text}
use nylon_run.Protocol.{ProcessConfig, Request}
use nylon_run.System.{Os}
use nylon_run.Tls.{Pki}
use nylon_run.Oci.Pull.{Registry}
use nylon_run.Oci.Entrypoint.{ImageConfig}
use nylon_run.Oci.Settings.{Json}
use nylon_run.Process.State.{ProcessManager}
use nylon_run.Process.Manager.{restore_processes}
use nylon_run.Process.Manager.Invariant.{IsManaged, new-IsManaged}
use nylon_run.Process.Manager.Starting.{spawn_process-IsManaged}
use nylon_run.State.{Db, Codec}
use nylon_run.Daemon.{Host}
use nylon_run.Daemon.Requests.{Server, handle_request, health_tick}
use nylon_run.Daemon.Requests.Background.{IsSingle, idle, busy, start}
use nylon_run.Daemon.Requests.Keeps.{IsSound, handle_request-IsSound, health_tick-IsSound}
use nylon_run.Daemon.Startup.{run_daemon, restored_agent}

module _ {W X509 PKey D B J : Type 0} (os : Os W) (registry : Registry W)
    (parse_config : Text → Option ImageConfig) (pki : Pki X509 PKey) (host : Host W)
    (alphabetic : ℕ → Bool) (shlex_split : Text → Option (List Text)) (busy_lock : Bool)
    (db : Db D B) (codec : Codec B) (json : Json J) where
  -- The number is that of the turns of the health checker.
  pub data IsReachable : ℕ → Server W X509 PKey D → Type 0 where
    started : (d : D) (w : W) → IsReachable 0 (run_daemon os registry parse_config db codec d w)
    requested :
        (r : Request) (n : ℕ) (s : Server W X509 PKey D)
        → IsReachable n s
        → IsReachable n
            (handle_request os registry parse_config pki host alphabetic shlex_split busy_lock db
              codec json r s).1
    ticked :
        (n : ℕ) (s : Server W X509 PKey D)
        → IsReachable n s
        → IsReachable (n + 1) (
            health_tick os registry parse_config pki host alphabetic shlex_split busy_lock db codec
              json n s)

  restored-IsManaged :
      (cs : List ProcessConfig) (p : ProcessManager W)
      → IsManaged p
      → IsManaged (restore_processes os registry parse_config cs p)
  unfolding restore_processes
  restored-IsManaged [] p h = h
  restored-IsManaged (c ∷ cs) p h =
      restored-IsManaged cs _ (spawn_process-IsManaged os registry parse_config c p h)

  restored_agent-IsSingle : (o : Option (Text × Text)) → IsSingle (restored_agent o)
  unfolding restored_agent start
  restored_agent-IsSingle none = idle 0
  restored_agent-IsSingle (some (api_key, url)) = busy 0 _ 1

  -- In every state that the daemon reaches, from any database and file system, by requests and turns of
  -- the health checker in any order: no name stands twice in the process table, each entry stands under
  -- the name of its configuration, and the gauge is the number of the entries; at most one cloud agent
  -- and at most one metrics server was started and not told to stop, and the daemon holds the sender that
  -- stops each.
  pub reachable-IsSound : (n : ℕ) (s : Server W X509 PKey D) → IsReachable n s → IsSound s
  reachable-IsSound _ _ (started d w) =
      unfold run_daemon in
      record {
        managed = restored-IsManaged _ _ (new-IsManaged _);
        agent = restored_agent-IsSingle _;
        metrics_server = idle 0;
      }
  reachable-IsSound _ _ (requested r n s h) =
      handle_request-IsSound os registry parse_config pki host alphabetic shlex_split busy_lock db
        codec json r s (reachable-IsSound n s h)
  reachable-IsSound _ _ (ticked n s h) =
      health_tick-IsSound os registry parse_config pki host alphabetic shlex_split busy_lock db
        codec json n s (reachable-IsSound n s h)
