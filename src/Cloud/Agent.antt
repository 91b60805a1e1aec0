-- ===== src/Cloud/Agent.antt =====
-- src/cloud.rs: the connection of the agent and its retries. The WebSocket is a parameter, with a state
-- `N` of its own; what it yields is a list of events in the order in which `select!` takes them. `S` is
-- what the agent sees of the daemon, through `list` and through requests on the daemon's socket. A run
-- whose events end is one that goes on, or that a shutdown drops: its result is `none`.
pub mod Backoff
pub mod Commands
use nylon_run.Prelude.{
  ℕ, ◌*◌, min, Bool, Option, none, some, List, [], ◌∷◌, ◌++◌, Text, Result, ok, err, Action, codes,
  if◌then◌else◌,
}
use nylon_run.Protocol.{ProcessInfo, UpdateFields, Request, Response}
use nylon_run.Cloud.{CloudAgent}

pub data CloudAction : Type 0 where
  restart reload del : Text → CloudAction
  update : Text → UpdateFields → CloudAction

pub data CloudMessage : Type 0 where
  auth : Text → CloudMessage
  heartbeat auth_ok : CloudMessage
  status : List ProcessInfo → CloudMessage
  logs : Text → Text → CloudMessage
  command : CloudAction → CloudMessage
  error : Text → CloudMessage

-- `tungstenite::Message`; `binary` stands for every other kind.
pub data Message : Type 0 where
  text ping pong : Text → Message
  close binary : Message

pub data Event : Type 0 where
  heartbeat_tick status_tick : Event
  received : Option (Result Message) → Event

-- What one turn of the retry loop meets: the outcome of connecting, the reply to the authentication, the
-- events of the main loop, and whether the shutdown comes while the agent waits.
pub record Attempt : Type 0 where
  pub connected : Option (Result (Unit {0}))
  pub reply : Option (Option (Result Message))
  pub events : List Event
  pub interrupted : Bool

pub record Ws (N : Type 0) : Type 0 where
  pub send : Message → Action N (Unit {0})
  pub to_string : CloudMessage → Text
  pub response_to_string : Response → Text
  pub from_str : Text → Result CloudMessage
  pub debug : Message → Text

pub record Link (N S : Type 0) : Type 0 where
  pub network : N
  pub daemon : S

abbrev pub initial_backoff : ℕ
initial_backoff = 1

abbrev pub max_backoff : ℕ
max_backoff = 300

pub request_of : CloudAction → Request
request_of (CloudAction.restart name) = Request.restart name
request_of (CloudAction.reload name) = Request.reload name
request_of (CloudAction.del name) = Request.del name
request_of (CloudAction.update name fields) = Request.update name fields

module _ {N S : Type 0} (ws : Ws N) (list : S → List ProcessInfo)
    (send_request_local : Request → S → Result Response × S) where
  answered : Result Response × S → Response × S
  answered (ok response, s) = (response, s)
  answered (err e, s) = (Response.error (codes "IPC error: " ++ e), s)

  unfoldable pub execute_cloud_command : CloudAction → S → Response × S
  unfolding answered request_of
  execute_cloud_command action s = answered (send_request_local (request_of action) s)

  -- A failed send ends the connection; else the loop goes on.
  or_fail : Text → Result (Unit {0}) × N → S → Option (Result (Unit {0})) × Link N S
  or_fail e (ok u, n) s = (none, record { network = n; daemon = s })
  or_fail e (err t, n) s = (some (err (e ++ t)), record { network = n; daemon = s })

  on_message : Result CloudMessage → Link N S → Option (Result (Unit {0})) × Link N S
  unfolding or_fail execute_cloud_command
  on_message (ok (command action)) l =
      let (response, s) = execute_cloud_command action l.daemon in
      or_fail (codes "command response send failed: ")
        (ws.send (text (ws.response_to_string response)) l.network) s
  on_message _ l = (none, l)

  step : Event → Link N S → Option (Result (Unit {0})) × Link N S
  unfolding or_fail on_message
  step heartbeat_tick l =
      or_fail (codes "heartbeat send failed: ") (ws.send (text (ws.to_string heartbeat)) l.network)
        l.daemon
  step status_tick l =
      or_fail (codes "status push failed: ")
        (ws.send (text (ws.to_string (status (list l.daemon)))) l.network) l.daemon
  step (received (some (ok (text t)))) l = on_message (ws.from_str t) l
  step (received (some (ok (ping t)))) l =
      (none, record l { network = (ws.send (pong t) l.network).1 })
  step (received (some (ok close))) l = (some (ok tt), l)
  step (received (some (ok (pong t)))) l = (none, l)
  step (received (some (ok binary))) l = (none, l)
  step (received (some (err e))) l = (some (err (codes "WebSocket error: " ++ e)), l)
  step (received none) l = (some (ok tt), l)

  next :
      (Link N S → Option (Result (Unit {0})) × Link N S)
      → Option (Result (Unit {0})) × Link N S
      → Option (Result (Unit {0})) × Link N S
  next rest (none, l) = rest l
  next rest (some r, l) = (some r, l)

  main_loop : List Event → Link N S → Option (Result (Unit {0})) × Link N S
  unfolding step next
  main_loop [] l = (none, l)
  main_loop (e ∷ es) l = next (main_loop es) (step e l)

  -- What the server says to the authentication.
  accepted : Text → Result CloudMessage → Result (Unit {0})
  accepted t (ok auth_ok) = ok tt
  accepted t (ok (error message)) = err (codes "cloud auth rejected: " ++ message)
  accepted t _ = err (codes "unexpected auth response: " ++ t)

  authenticated : Option (Result Message) → Result (Unit {0})
  unfolding accepted
  authenticated (some (ok (text t))) = accepted t (ws.from_str t)
  authenticated (some (ok m)) = err (codes "unexpected message type during auth: " ++ ws.debug m)
  authenticated (some (err e)) = err (codes "WebSocket error during auth: " ++ e)
  authenticated none = err (codes "connection closed during auth")

  begin : Result (Unit {0}) → List Event → Link N S → Option (Result (Unit {0})) × Link N S
  unfolding main_loop
  begin (ok u) events l = main_loop events l
  begin (err e) events l = (some (err e), l)

  replied :
      Option (Option (Result Message))
      → List Event
      → Link N S
      → Option (Result (Unit {0})) × Link N S
  unfolding begin authenticated
  replied none events l = (none, l)
  replied (some reply) events l = begin (authenticated reply) events l

  await_reply : Attempt → Result (Unit {0}) × N → S → Option (Result (Unit {0})) × Link N S
  unfolding replied
  await_reply a (err e, n) s =
      (some (err (codes "failed to send auth: " ++ e)), record { network = n; daemon = s })
  await_reply a (ok u, n) s = replied a.reply a.events (record { network = n; daemon = s })

  authenticate :
      CloudAgent
      → Attempt
      → Option (Result (Unit {0}))
      → Link N S
      → Option (Result (Unit {0})) × Link N S
  unfolding await_reply
  authenticate agent a none l = (none, l)
  authenticate agent a (some (err e)) l = (some (err (codes "WebSocket connect failed: " ++ e)), l)
  authenticate agent a (some (ok u)) l =
      await_reply a (ws.send (text (ws.to_string (auth agent.api_key))) l.network) l.daemon

  unfoldable pub connect_and_run :
      CloudAgent → Attempt → Link N S → Option (Result (Unit {0})) × Link N S
  unfolding authenticate
  connect_and_run agent a l = authenticate agent a a.connected l

  -- A connection that closed normally resets the wait.
  wait_after : Result (Unit {0}) → ℕ → ℕ
  wait_after (ok u) backoff = initial_backoff
  wait_after (err e) backoff = backoff

  waited :
      (ℕ → Link N S → List (Result (Unit {0}) × ℕ) × Link N S)
      → ℕ
      → Bool
      → Option (Result (Unit {0})) × Link N S
      → List (Result (Unit {0}) × ℕ) × Link N S
  unfolding wait_after
  waited rest backoff interrupted (none, l) = ([], l)
  waited rest backoff interrupted (some r, l) =
      let wait = wait_after r backoff in
      let (log, l') = rest (min (wait * 2) max_backoff) l in
      if interrupted then ([], l) else ((r, wait) ∷ log, l')

  -- The log has the result of each connection and the seconds waited after it.
  unfoldable pub run :
      CloudAgent → ℕ → List Attempt → Link N S → List (Result (Unit {0}) × ℕ) × Link N S
  unfolding waited
  run agent backoff [] l = ([], l)
  run agent backoff (a ∷ attempts) l =
      waited (λ b. run agent b attempts) backoff a.interrupted (connect_and_run agent a l)
