-- ===== src/Daemon/Requests/Background.antt =====
-- src/server.rs: a background task that requests start and stop. The daemon holds the sender that stops
-- it in an `Option`; a task that was sent the message ends when it next looks at its channel, which is not
-- part of the state. `unstopped` is the tasks of the kind that were started and not sent the message.
use nylon_run.Prelude.{
  ℕ, ◌+◌, ◌==◌, ◌≡◌, not, Option, none, some, List, [], ◌∷◌, ◌++◌, arith, retain, if◌then◌else◌,
  Bool, true, false,
}

pub record Tasks (A : Type 0) : Type 0 where
  pub unstopped : List (ℕ × A)
  pub handle : Option ℕ
  pub spawned : ℕ

module _ {A : Type 0} where
  -- `handle.take()` and a message to the sender.
  unfoldable pub stop : Tasks A → Tasks A
  stop t = elim t.handle [
    | none ↦ t
    | some id ↦ record t { handle = none; unstopped = retain (λ r. not (r.0 == id)) t.unstopped }
  ]

  unfoldable pub start : A → Tasks A → Tasks A
  start a t = record {
    unstopped = t.unstopped ++ (t.spawned, a) ∷ [];
    handle = some t.spawned;
    spawned = t.spawned + 1;
  }

  -- No task is without its message to stop, or one is, and its sender is held.
  pub data IsSingle : Tasks A → Type 0 where
    idle : (n : ℕ) → IsSingle (record { unstopped = []; handle = none; spawned = n })
    busy :
        (id : ℕ) (a : A) (n : ℕ)
        → IsSingle (record { unstopped = (id, a) ∷ []; handle = some id; spawned = n })

  pub stop-IsSingle : (t : Tasks A) → IsSingle t → IsSingle (stop t)
  unfolding stop
  stop-IsSingle _ (idle n) = idle n
  stop-IsSingle _ (busy id a n) = stopped (id == id) (ground arith)
    where
      stopped :
          (b : Bool)
          → b ≡ true
          → IsSingle (record {
            unstopped = if not b then (id, a) ∷ [] else [];
            handle = none;
            spawned = n;
          })
      stopped true e = idle n
      stopped false e = ground arith

  -- A task that is started where the other was stopped is the only one.
  pub start_stop-IsSingle : (a : A) (t : Tasks A) → IsSingle t → IsSingle (start a (stop t))
  unfolding start
  start_stop-IsSingle a t h = after (stop t) (unheld t) (stop-IsSingle t h)
    where
      unheld : (t : Tasks A) → (stop t).handle ≡ none
      unheld t = unfold stop in ground arith

      after : (u : Tasks A) → u.handle ≡ none → IsSingle u → IsSingle (start a u)
      after _ e (idle n) = busy n a (n + 1)
      after _ e (busy id b n) = ground (arith, e)
