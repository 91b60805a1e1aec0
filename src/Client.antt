-- ===== src/Client.antt =====
-- src/client.rs and `handle_client` of src/server.rs: a request on its way through the daemon's socket
-- and the response on its way back. `S` is what the daemon acts on and `handle` what it does for a
-- request, where `none` is a panic of the task. `connect` is the outcome of connecting to the socket, and
-- `ensure_daemon` that of starting the daemon where none runs.
use nylon_run.Prelude.{
  ℕ, ◌≡◌, ap, ◌∙◌, ◌≤◌, Option, none, some, List, [], Result, ok, err, codes, length, ◌++◌,
  append-nil, subst,
}
use nylon_run.Protocol.{Request, Response}
use nylon_run.Protocol.Wire.{Json, write_message, read_message, max_message}
use nylon_run.Protocol.Wire.RoundTrip.{read_message-write_message}

module _ {S : Type 0} (requests : Json Request) (responses : Json Response)
    (handle : Request → S → Option Response × S) where
  -- The bytes that the client finds; the stream ends where the task wrote nothing.
  written : Result (List ℕ) → List ℕ
  written (ok bytes) = bytes
  written (err e) = []

  answer : Option Response × S → List ℕ × S
  unfolding written
  answer (none, s) = ([], s)
  answer (some r, s) = (written (write_message responses r), s)

  handle_read : Result (Request × List ℕ) → S → List ℕ × S
  unfolding answer
  handle_read (err e) s = ([], s)
  handle_read (ok (request, rest)) s = answer (handle request s)

  unfoldable pub handle_client : List ℕ → S → List ℕ × S
  unfolding handle_read
  handle_client stream s = handle_read (read_message requests stream) s

  first : Result (Response × List ℕ) → Result Response
  first (ok (response, rest)) = ok response
  first (err e) = err (codes "failed to read response: " ++ e)

  received : List ℕ × S → Result Response × S
  unfolding first
  received (stream, s) = (first (read_message responses stream), s)

  exchange : Result (List ℕ) → S → Result Response × S
  unfolding received handle_client
  exchange (err e) s = (err (codes "failed to send request: " ++ e), s)
  exchange (ok bytes) s = received (handle_client bytes s)

  unfoldable pub send_request_local : Result (Unit {0}) → Request → S → Result Response × S
  unfolding exchange
  send_request_local (err e) request s = (err (codes "failed to connect to daemon: " ++ e), s)
  send_request_local (ok u) request s = exchange (write_message requests request) s

  unfoldable pub send_request :
      Result (Unit {0}) → Result (Unit {0}) → Request → S → Result Response × S
  unfolding send_request_local
  send_request (err e) connect request s = (err e, s)
  send_request (ok u) connect request s = send_request_local connect request s

  -- Let the connection be made, and let the request, and the response that the daemon has for it, be
  -- written as JSON of at most ten megabytes. Then the client receives that response, and the daemon has
  -- done what it does for that request, once.
  pub send_request_local_lem :
      (request : Request) (response : Response) (s s' : S) (sent answered : List ℕ)
      → handle request s ≡ (some response, s')
      → requests.to_vec request ≡ ok sent
      → length sent ≤ max_message
      → responses.to_vec response ≡ ok answered
      → length answered ≤ max_message
      → send_request_local (ok tt) request s ≡ (ok response, s')
  unfolding send_request_local exchange handle_client handle_read answer written received first
  send_request_local_lem request response s s' sent answered h e fits e' fits' =
      let (frame, w, r) = read_message-write_message requests request sent [] e fits in
      let (frame', w', r') = read_message-write_message responses response answered [] e' fits' in
      ap (λ x. exchange x s) w
      ∙ ap (λ x. received (handle_read x s))
          (subst (λ f. read_message requests f ≡ ok (request, [])) (append-nil frame) r)
      ∙ ap (λ x. received (answer x)) h
      ∙ ap (λ x. received (written x, s')) w'
      ∙ ap (λ x. (first x, s'))
          (subst (λ f. read_message responses f ≡ ok (response, [])) (append-nil frame') r')
