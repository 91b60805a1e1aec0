-- ===== src/Tests/Linking.antt =====
-- The daemon, its client and its cloud agent together: concrete inputs. The WebSocket counts what was sent.
use mathlib.Core.List.{Perm}
use nylon_run.Prelude.{
  ℕ, ◌+◌, ◌≡◌, refl, ap, sym, true, false, Option, some, List, [], ◌∷◌, Text, Result, ok, err,
  codes, arith, starts_with, text_eq,
}
use nylon_run.Prelude.Maps.{insert, lookup, contains_key}
use nylon_run.Protocol.{Request, Response}
use nylon_run.Protocol.{ls, save, link, metrics_enable}
use nylon_run.Protocol.Wire
use nylon_run.Oci.Settings
use nylon_run.Process.State.{new, on_world, count}
use nylon_run.Process.Start.{start_process, install_local, mount_volumes, launch}
use nylon_run.Prelude.Decimals.{decimal}
use nylon_run.Process.Manager.{spawn_process}
use nylon_run.Process.Manager.Configs.{get_configs}
use nylon_run.State.{load, prefix}
use nylon_run.State
use nylon_run.Cloud.{CloudAgent}
use nylon_run.Cloud.Agent.{
  Ws, Attempt, CloudAction, CloudMessage, command, auth_ok, text, close, status_tick, received,
  connect_and_run, run, initial_backoff,
}
use nylon_run.Cloud.Agent.Backoff.{IsPaced, run-IsPaced}
use nylon_run.Cloud.Agent.Commands.{IsConnection, connect_and_run-IsConnection}
use nylon_run.Client.{send_request_local, send_request_local_lem}
use nylon_run.Daemon.Requests.{Server, handle_request, health_tick}
use nylon_run.Daemon.Requests.Keeps.{IsSound}
use nylon_run.Daemon.Requests.Reachable.{IsReachable, requested, ticked, reachable-IsSound}
use nylon_run.Daemon.Requests.Reachable
use nylon_run.Daemon.Requests.Saving.{load-handle_request}
use nylon_run.Daemon.Startup.{run_daemon, no_task}
use nylon_run.Tests.Supervising.{os, registry, no_config, with_api}
use nylon_run.Tests.Serving.{pki, serving}
use nylon_run.Tests.Handling.{with_api-IsManaged, host, ascii_only, no_split}
use nylon_run.Tests.Storing.{db, codec, lawful, faithful, old, iterate, iterate-IsComplete, Store}

abbrev json : Settings.Json Text
json = record {
  from_str = some;
  empty_object = [];
  get_string = λ k j. some j;
  set_string = λ k v j. some v;
  to_string_pretty = λ j. j;
}

abbrev Daemon : Type 0
Daemon = Server ℕ Text Text Store

abbrev handle : Request → Daemon → Option Response × Daemon
handle = handle_request os registry no_config pki host ascii_only no_split true db codec json

abbrev fresh : Daemon
fresh = run_daemon os registry no_config db codec old 7

-- The metrics server is started twice and the daemon is linked, with a turn of the health checker between.
abbrev history :
    IsReachable os registry no_config pki host ascii_only no_split true db codec json 1
      (handle (metrics_enable 9091) (
        health_tick os registry no_config pki host ascii_only no_split true db codec json 0
          (handle (metrics_enable 9090) (handle (link (codes "k1")) fresh).1).1)).1
history = requested (metrics_enable 9091) 1 _ (
    ticked 0 _ (
      requested (metrics_enable 9090) 0 _
        (requested (link (codes "k1")) 0 fresh (Reachable.started old 7))))

reachable-IsSound_example :
    IsSound
      (handle (metrics_enable 9091) (
        health_tick os registry no_config pki host ascii_only no_split true db codec json 0
          (handle (metrics_enable 9090) (handle (link (codes "k1")) fresh).1).1)).1
reachable-IsSound_example =
    reachable-IsSound os registry no_config pki host ascii_only no_split true db codec json 1 _
      history

abbrev serving_api : Daemon
serving_api = record {
  daemon = record { process_mgr = with_api; proxy_mgr = serving; acme_configs = [] };
  state_store = old;
  cloud = no_task;
  metrics = no_task;
}

abbrev after_save : Daemon
after_save = (handle save serving_api).1

saved_ok : handle save serving_api ≡ (some (Response.ok (codes "saved 1 processes")), after_save)
unfolding handle_request State.save starts_with get_configs spawn_process insert new contains_key
    lookup decimal on_world start_process install_local mount_volumes launch text_eq count
saved_ok = refl

load-handle_request_example :
    Perm (load db codec after_save.state_store) (get_configs serving_api.daemon.process_mgr)
load-handle_request_example =
    load-handle_request os registry no_config pki host ascii_only no_split true db codec json lawful
      faithful (codes "saved 1 processes") serving_api after_save
      (iterate prefix after_save.state_store.0) with_api-IsManaged saved_ok refl
      (iterate-IsComplete prefix after_save.state_store.0)

-- The body of a request to list is one byte, that of an answer Ok is its text; no other message is sent.
abbrev request_body : Request → Result (List ℕ)
request_body ls = ok (1 ∷ [])
request_body _ = err (codes "not sent here")

request_read :
    (m : Request) (body : List ℕ)
    → request_body m ≡ ok body
    → ◌≡◌ {A = Result Request} (ok ls) (ok m)
request_read (Request.bin c) body e = ground (arith, e)
request_read (Request.run c) body e = ground (arith, e)
request_read ls body e = refl
request_read Request.export body e = ground (arith, e)
request_read Request.save body e = ground (arith, e)
request_read Request.kill body e = ground (arith, e)
request_read Request.unlink body e = ground (arith, e)
request_read Request.metrics_disable body e = ground (arith, e)
request_read (Request.del n) body e = ground (arith, e)
request_read (Request.restart n) body e = ground (arith, e)
request_read (Request.reload n) body e = ground (arith, e)
request_read (Request.update n f) body e = ground (arith, e)
request_read (Request.logs n k) body e = ground (arith, e)
request_read (Request.set k v) body e = ground (arith, e)
request_read (Request.link k) body e = ground (arith, e)
request_read (Request.metrics_enable p) body e = ground (arith, e)

abbrev requests : Wire.Json Request
requests = record {
  to_vec = request_body;
  from_slice = λ body. ok ls;
  from_slice-to_vec = request_read;
}

abbrev response_body : Response → Result (List ℕ)
response_body (Response.ok t) = ok t
response_body _ = err (codes "not sent here")

response_read :
    (m : Response) (body : List ℕ)
    → response_body m ≡ ok body
    → ◌≡◌ {A = Result Response} (ok (Response.ok body)) (ok m)
response_read (Response.ok t) body e =
    ap (λ r. elim r [ ok t ↦ ok (Response.ok t) | err e ↦ err e ]) (sym e)
response_read (Response.process_list p) body e = ground (arith, e)
response_read (Response.config_list p) body e = ground (arith, e)
response_read (Response.logs t) body e = ground (arith, e)
response_read (Response.error t) body e = ground (arith, e)

abbrev responses : Wire.Json Response
responses = record {
  to_vec = response_body;
  from_slice = λ body. ok (Response.ok body);
  from_slice-to_vec = response_read;
}

-- A daemon that counts its requests.
abbrev pong : Request → ℕ → Option Response × ℕ
pong r n = (some (Response.ok (codes "pong")), n + 1)

send_request_local_lem_example :
    send_request_local requests responses pong (ok tt) ls 3 ≡ (ok (Response.ok (codes "pong")), 4)
send_request_local_lem_example =
    send_request_local_lem requests responses pong ls (Response.ok (codes "pong")) 3 4 (1 ∷ [])
      (codes "pong") refl refl (omega arith) refl (omega arith)

abbrev cloud_message : Text → Result CloudMessage
cloud_message [] = ok auth_ok
cloud_message (c ∷ t) = ok (command (CloudAction.restart (codes "api")))

abbrev ws : Ws ℕ
ws = record {
  send = λ m n. (ok tt, n + 1);
  to_string = λ m. codes "{}";
  response_to_string = λ r. codes "{}";
  from_str = cloud_message;
  debug = λ m. [];
}

abbrev agent : CloudAgent
agent = record { api_key = codes "k1"; server_url = codes "wss://cloud" }

-- The server accepts, sends a command and closes.
abbrev session : Attempt
session = record {
  connected = some (ok tt);
  reply = some (some (ok (text [])));
  events =
      status_tick ∷ received (some (ok (text (codes "restart")))) ∷ received (some (ok close)) ∷ [];
  interrupted = false;
}

abbrev refused : Attempt
refused = record session { connected = some (err (codes "refused")) }

abbrev counted : Request → ℕ → Result Response × ℕ
counted r n = (ok (Response.ok (codes "done")), n + 1)

connect_and_run-IsConnection_example :
    IsConnection ws
      (λ n. [])
      counted
      session
      3
      (connect_and_run ws (λ n. []) counted agent session (record { network = 0; daemon = 3 }))
connect_and_run-IsConnection_example =
    connect_and_run-IsConnection ws (λ n. []) counted agent session
      (record { network = 0; daemon = 3 })

run-IsPaced_example :
    IsPaced 0
      (run ws
        (λ n. [])
        counted
        agent
        initial_backoff
        (refused ∷ refused ∷ session ∷ refused ∷ [])
        (record { network = 0; daemon = 3 })).0
run-IsPaced_example =
    run-IsPaced ws (λ n. []) counted agent (refused ∷ refused ∷ session ∷ refused ∷ [])
      (record { network = 0; daemon = 3 })
