-- ===== src/Tests/Handling.antt =====
-- The handlers of the daemon: concrete inputs.
use nylon_run.Prelude.{ℕ, Bool, Option, List, ◌≡◌, false, some, none, [], ◌∷◌, Text, ok, codes}
use nylon_run.Prelude.Maps.{contains_key}
use nylon_run.Protocol.{ProcessConfig, Response}
use nylon_run.Proxy.Manager.Invariant.{has_name}
use nylon_run.Daemon.{DaemonState, Host, handle_run, handle_del}
use nylon_run.Daemon.Outcomes.{IsRun, handle_run-IsRun, handle_del_lem}
use nylon_run.Tests.Supervising.{os, registry, no_config, program, with_api, api, daemon}
use nylon_run.Process.Manager.Invariant.{IsManaged, new-IsManaged}
use nylon_run.Process.Manager.Starting.{spawn_process-IsManaged}
use nylon_run.Tests.Serving.{pki, serving}

-- "api" runs and has a route.
abbrev state : DaemonState ℕ Text Text
state = record { process_mgr = with_api; proxy_mgr = serving; acme_configs = [] }

abbrev pub host : Host ℕ
host = record { canonicalize = λ p w. some p; free_port = λ w. ok 40000 }

abbrev web : ProcessConfig
web = record (program (codes "web") (codes "/bin/web")) {
  port_mapping = some (record { host = some (codes "web.io"); public_port = 443; app_port = none });
  acme = some (codes "ops@web.io");
}

handle_run-IsRun_example :
    IsRun (codes "web") state (handle_run os registry no_config pki host web state)
handle_run-IsRun_example = handle_run-IsRun os registry no_config pki host web state

handle_del_lem_example :
    let (r, s') = handle_del os registry no_config pki host (codes "api") state in
    ((msg : Text) × (r ≡ Response.ok msg))
    × (contains_key (codes "api") s'.process_mgr.processes ≡ false)
    × (has_name (codes "api") s'.proxy_mgr.routes ≡ false)
handle_del_lem_example = handle_del_lem os registry no_config pki host (codes "api") state

abbrev pub no_split : Text → Option (List Text)
no_split t = some (t ∷ [])

abbrev pub ascii_only : ℕ → Bool
ascii_only c = false

pub with_api-IsManaged : IsManaged with_api
with_api-IsManaged = spawn_process-IsManaged os registry no_config api daemon (new-IsManaged 7)
