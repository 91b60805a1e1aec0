-- ===== src/Daemon/Linked.antt =====
-- src/cloud.rs, src/client.rs and src/server.rs together: the cloud agent of the daemon sends its commands
-- through the daemon's own socket. `connect` is the outcome of connecting to it.
use nylon_run.Prelude.{ℕ, Bool, Option, List, Text, Result}
use nylon_run.Protocol.{Request, Response}
use nylon_run.Protocol.Wire
use nylon_run.System.{Os}
use nylon_run.Tls.{Pki}
use nylon_run.Oci.Pull.{Registry}
use nylon_run.Oci.Entrypoint.{ImageConfig}
use nylon_run.Oci.Settings.{Json}
use nylon_run.Process.Manager.{list}
use nylon_run.State.{Db, Codec}
use nylon_run.Cloud.{CloudAgent}
use nylon_run.Cloud.Agent.{Ws, Link, Attempt, run, initial_backoff}
use nylon_run.Client.{send_request_local}
use nylon_run.Daemon.{Host}
use nylon_run.Daemon.Requests.{Server, handle_request}

module _ {W X509 PKey D B J N : Type 0} (os : Os W) (registry : Registry W)
    (parse_config : Text → Option ImageConfig) (pki : Pki X509 PKey) (host : Host W)
    (alphabetic : ℕ → Bool) (shlex_split : Text → Option (List Text)) (idle : Bool) (db : Db D B)
    (codec : Codec B) (json : Json J) (requests : Wire.Json Request)
    (responses : Wire.Json Response) (ws : Ws N)
    (connect : Server W X509 PKey D → Result (Unit {0})) where
  unfoldable pub send_local :
      Request → Server W X509 PKey D → Result Response × Server W X509 PKey D
  send_local r s =
      send_request_local requests responses
        (handle_request os registry parse_config pki host alphabetic shlex_split idle db codec json)
        (connect s) r s

  -- The agent as `tokio::spawn(agent.run(state))` runs it.
  unfoldable pub run_agent :
      CloudAgent
      → List Attempt
      → Link N (Server W X509 PKey D)
      → List (Result (Unit {0}) × ℕ) × Link N (Server W X509 PKey D)
  unfolding send_local
  run_agent agent attempts l =
      run ws (λ s. list os s.daemon.process_mgr) send_local agent initial_backoff attempts l
