-- ===== src/Cloud/Agent/Commands.antt =====
-- src/cloud.rs: what the agent does to the daemon.
use nylon_run.Prelude.{
  ◌≡◌, ◌⊎◌, inl, inr, refl, ap, ◌∙◌, Option, none, some, List, [], ◌∷◌, Text, Result, ok, err, ℕ,
  suc, take,
}
use nylon_run.Protocol.{ProcessInfo, Request, Response}
use nylon_run.Cloud.{CloudAgent}
use nylon_run.Cloud.Agent.{
  Ws, Link, Event, heartbeat_tick, status_tick, received, text, ping, pong, close, binary, Message,
  Attempt, CloudAction, CloudMessage, command, auth, heartbeat, status, logs, auth_ok, error,
  execute_cloud_command, or_fail, on_message, step, next, main_loop, begin, await_reply, replied,
  authenticate, authenticated, accepted, connect_and_run,
}

module _ {N S : Type 0} (ws : Ws N) (list : S → List ProcessInfo)
    (send_request_local : Request → S → Result Response × S) where
  abbrev command_of : Result CloudMessage → Option CloudAction
  command_of (ok (command action)) = some action
  command_of _ = none

  -- The command that an event brings.
  abbrev event_command : Event → Option CloudAction
  event_command (received (some (ok (text t)))) = command_of (ws.from_str t)
  event_command _ = none

  abbrev with_command : Option CloudAction → List CloudAction → List CloudAction
  with_command none actions = actions
  with_command (some a) actions = a ∷ actions

  -- The commands among the messages that arrive, in their order.
  abbrev pub commands : List Event → List CloudAction
  commands [] = []
  commands (e ∷ es) = with_command (event_command e) (commands es)

  abbrev executed : Option CloudAction → S → S
  executed none s = s
  executed (some a) s = (execute_cloud_command ws list send_request_local a s).1

  abbrev pub execute_all : List CloudAction → S → S
  execute_all [] s = s
  execute_all (a ∷ actions) s =
      execute_all actions (execute_cloud_command ws list send_request_local a s).1

  -- The first `n` of the commands were executed, in their order and each once.
  abbrev pub HasExecuted : List CloudAction → S → S → Type 0
  HasExecuted actions s s' = (n : ℕ) × (s' ≡ execute_all (take n actions) s)

  or_fail-daemon :
      (e : Text) (r : Result (Unit {0}) × N) (s : S)
      → (or_fail ws list send_request_local e r s).1.daemon ≡ s
  unfolding or_fail
  or_fail-daemon e (ok u, n) s = refl
  or_fail-daemon e (err m, n) s = refl

  on_message-daemon :
      (m : Result CloudMessage) (l : Link N S)
      → (on_message ws list send_request_local m l).1.daemon ≡ executed (command_of m) l.daemon
  unfolding on_message
  on_message-daemon (ok (command action)) l = search or_fail-daemon
  on_message-daemon (ok (auth t)) l = refl
  on_message-daemon (ok heartbeat) l = refl
  on_message-daemon (ok auth_ok) l = refl
  on_message-daemon (ok (status ps)) l = refl
  on_message-daemon (ok (logs n t)) l = refl
  on_message-daemon (ok (error t)) l = refl
  on_message-daemon (err e) l = refl

  step-daemon :
      (e : Event) (l : Link N S)
      → (step ws list send_request_local e l).1.daemon ≡ executed (event_command e) l.daemon
  unfolding step
  step-daemon heartbeat_tick l = search or_fail-daemon
  step-daemon status_tick l = search or_fail-daemon
  step-daemon (received (some (ok (text t)))) l = on_message-daemon (ws.from_str t) l
  step-daemon (received (some (ok (ping t)))) l = refl
  step-daemon (received (some (ok close))) l = refl
  step-daemon (received (some (ok (pong t)))) l = refl
  step-daemon (received (some (ok binary))) l = refl
  step-daemon (received (some (err e))) l = refl
  step-daemon (received none) l = refl

  main_loop-HasExecuted :
      (es : List Event) (l : Link N S)
      → HasExecuted (commands es) l.daemon (main_loop ws list send_request_local es l).1.daemon
  unfolding main_loop next
  main_loop-HasExecuted [] l = (0, refl)
  main_loop-HasExecuted (e ∷ es) l =
      after (main_loop-HasExecuted es) (event_command e) (step ws list send_request_local e l)
        (step-daemon e l)
    where
      after :
          ((l : Link N S)
            → HasExecuted
                (commands es)
                l.daemon
                (main_loop ws list send_request_local es l).1.daemon)
          → (o : Option CloudAction) → (r : Option (Result (Unit {0})) × Link N S)
          → r.1.daemon ≡ executed o l.daemon
          → HasExecuted
              (with_command o (commands es))
              l.daemon
              (next ws list send_request_local (main_loop ws list send_request_local es) r).1.daemon
      after h none (none, l') e =
          let (n, q) = h l' in (n, q ∙ ap (execute_all (take n (commands es))) e)
      after h (some a) (none, l') e =
          let (n, q) = h l' in (suc n, q ∙ ap (execute_all (take n (commands es))) e)
      after h none (some r, l') e = (0, e)
      after h (some a) (some r, l') e = (1, e)

  -- The server has acknowledged the authentication.
  abbrev pub IsAccepted : Attempt → Type 0
  IsAccepted a = (t : Text) × (a.reply ≡ some (some (ok (text t)))) × (ws.from_str t ≡ ok auth_ok)

  -- A connection that failed, or was given up, before the daemon was asked for anything.
  abbrev IsUntouched : S → Option (Result (Unit {0})) × Link N S → Type 0
  IsUntouched s (none, l) = l.daemon ≡ s
  IsUntouched s (some (ok u), l) = ⊥
  IsUntouched s (some (err e), l) = l.daemon ≡ s

  abbrev pub IsConnection : Attempt → S → Option (Result (Unit {0})) × Link N S → Type 0
  IsConnection a s r =
      IsUntouched s r ⊎ (IsAccepted a × HasExecuted (commands a.events) s r.1.daemon)

  replied-IsConnection :
      (a : Attempt) (o : Option (Option (Result Message))) (l : Link N S)
      → a.reply ≡ o
      → IsConnection a l.daemon (replied ws list send_request_local o a.events l)
  unfolding replied authenticated
  replied-IsConnection a none l e = inl refl
  replied-IsConnection a (some (some (ok (text t)))) l e = checked (ws.from_str t) refl
    where
      checked :
          (m : Result CloudMessage)
          → ws.from_str t ≡ m
          → IsConnection a l.daemon (
              begin ws list send_request_local (accepted ws list send_request_local t m) a.events l)
      checked (ok auth_ok) q =
          unfold begin in unfold accepted in inr ((t, e, q), main_loop-HasExecuted a.events l)
      checked (ok (error m)) q = unfold begin in unfold accepted in inl refl
      checked (ok (auth m)) q = unfold begin in unfold accepted in inl refl
      checked (ok heartbeat) q = unfold begin in unfold accepted in inl refl
      checked (ok (status ps)) q = unfold begin in unfold accepted in inl refl
      checked (ok (logs n m)) q = unfold begin in unfold accepted in inl refl
      checked (ok (command c)) q = unfold begin in unfold accepted in inl refl
      checked (err m) q = unfold begin in unfold accepted in inl refl
  replied-IsConnection a (some (some (ok (ping t)))) l e = unfold begin in inl refl
  replied-IsConnection a (some (some (ok (pong t)))) l e = unfold begin in inl refl
  replied-IsConnection a (some (some (ok close))) l e = unfold begin in inl refl
  replied-IsConnection a (some (some (ok binary))) l e = unfold begin in inl refl
  replied-IsConnection a (some (some (err m))) l e = unfold begin in inl refl
  replied-IsConnection a (some none) l e = unfold begin in inl refl

  -- Either a connection fails, or is given up, and the daemon is as it was; or the server acknowledged the
  -- authentication, and the daemon did nothing but commands that the server sent afterwards: the first of
  -- them, in their order, each once.
  pub connect_and_run-IsConnection :
      (agent : CloudAgent) (a : Attempt) (l : Link N S)
      → IsConnection a l.daemon (connect_and_run ws list send_request_local agent a l)
  unfolding connect_and_run
  connect_and_run-IsConnection agent a l = connected a.connected
    where
      sent :
          (r : Result (Unit {0}) × N)
          → IsConnection a l.daemon (await_reply ws list send_request_local a r l.daemon)
      sent (ok u, n) =
          unfold await_reply in
          replied-IsConnection a a.reply (record { network = n; daemon = l.daemon }) refl
      sent (err e, n) = unfold await_reply in inl refl

      connected :
          (o : Option (Result (Unit {0})))
          → IsConnection a l.daemon (authenticate ws list send_request_local agent a o l)
      connected none = unfold authenticate in inl refl
      connected (some (err e)) = unfold authenticate in inl refl
      connected (some (ok u)) = unfold authenticate in sent _
