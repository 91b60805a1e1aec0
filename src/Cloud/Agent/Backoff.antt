-- ===== src/Cloud/Agent/Backoff.antt =====
-- src/cloud.rs, `run`: how long the agent waits between its connections.
use nylon_run.Prelude.{
  ℕ, ◌+◌, ◌*◌, ◌^◌, ◌≤◌, min, ◌≡◌, refl, sym, subst, Bool, true, false, Option, none, some, List,
  [], ◌∷◌, Result, ok, err, All, arith,
}
use native.Mathlib.Nat.{pow-suc, one-le-pow}
use nylon_run.Protocol.{ProcessInfo, Request, Response}
use nylon_run.Cloud.{CloudAgent}
use nylon_run.Cloud.Agent.{
  Ws, Link, Attempt, connect_and_run, run, waited, wait_after, initial_backoff, max_backoff,
}

-- The wait with `n` doublings behind it.
abbrev pub doubled : ℕ → ℕ
doubled n = min (2 ^ n) max_backoff

-- After a connection that closed normally the wait is one second; after each one that failed it is twice
-- what it was, from the number of doublings on, and never more than five minutes.
abbrev pub IsPaced : ℕ → List (Result (Unit {0}) × ℕ) → Type 0
IsPaced n [] = Unit
IsPaced n ((ok u, wait) ∷ log) = (wait ≡ initial_backoff) × IsPaced 1 log
IsPaced n ((err e, wait) ∷ log) = (wait ≡ doubled n) × IsPaced (n + 1) log

doubled-suc : (n : ℕ) → min (doubled n * 2) max_backoff ≡ doubled (n + 1)
doubled-suc n = omega (arith, power)
  where
    power : 2 ^ (n + 1) ≡ 2 ^ n * 2
    power = subst (λ m. 2 ^ m ≡ 2 ^ n * 2) (omega arith) (pow-suc 2 n)

IsPaced-bounds :
    (n : ℕ) (log : List (Result (Unit {0}) × ℕ))
    → IsPaced n log
    → All (λ x. (1 ≤ x.1) × (x.1 ≤ max_backoff)) log
IsPaced-bounds n [] h = tt
IsPaced-bounds n ((ok u, wait) ∷ log) (e, h) =
    ((omega (arith, e), omega (arith, e)), IsPaced-bounds 1 log h)
IsPaced-bounds n ((err m, wait) ∷ log) (e, h) = (
  (omega (arith, e, one-le-pow n 2 (omega arith)), omega (arith, e)),
  IsPaced-bounds (n + 1) log h,
)

module _ {N S : Type 0} (ws : Ws N) (list : S → List ProcessInfo)
    (send_request_local : Request → S → Result Response × S) where
  paced :
      (agent : CloudAgent) (n : ℕ) (attempts : List Attempt) (l : Link N S)
      → IsPaced n (run ws list send_request_local agent (doubled n) attempts l).0
  unfolding run waited wait_after
  paced agent n [] l = tt
  paced agent n (a ∷ attempts) l =
      ended (λ n l. paced agent n attempts l) (connect_and_run ws list send_request_local agent a l)
        a.interrupted
    where
      ended :
          ((n : ℕ) (l : Link N S)
            → IsPaced n (run ws list send_request_local agent (doubled n) attempts l).0)
          → (r : Option (Result (Unit {0})) × Link N S) (b : Bool)
          → IsPaced n
              (waited ws list send_request_local
                (λ b. run ws list send_request_local agent b attempts)
                (doubled n)
                b
                r).0
      ended h (none, l) b = tt
      ended h (some r, l) true = tt
      ended h (some (ok u), l) false = (refl, h 1 l)
      ended h (some (err e), l) false = (
        refl,
        subst (λ b. IsPaced (n + 1) (run ws list send_request_local agent b attempts l).0)
            (sym (doubled-suc n)) (h (n + 1) l),
      )

  -- The agent waits one second after a connection that closed normally, and after the failures that
  -- follow it 2, 4, 8, ... seconds up to the cap of 300, that is min (2 ^ n, 300) after the n-th; before
  -- the first normal close the n-th failure is followed by a wait of min (2 ^ (n - 1), 300).
  pub run-IsPaced :
      (agent : CloudAgent) (attempts : List Attempt) (l : Link N S)
      → IsPaced 0 (run ws list send_request_local agent initial_backoff attempts l).0
  run-IsPaced agent attempts l = paced agent 0 attempts l

  -- Every wait of the agent is between one second and five minutes, however many connections fail.
  pub run-bounds :
      (agent : CloudAgent) (attempts : List Attempt) (l : Link N S)
      → All
          (λ x. (1 ≤ x.1) × (x.1 ≤ max_backoff))
          (run ws list send_request_local agent initial_backoff attempts l).0
  run-bounds agent attempts l = IsPaced-bounds 0 _ (run-IsPaced agent attempts l)
