-- ===== src/Process/Start/Frames.antt =====
-- What an action on the manager leaves alone, and what it may return: one rule for each way to build
-- an action.
use nylon_run.Prelude.{
  ◌≡◌, refl, ◌∙◌, Bool, true, false, Option, none, some, Text, Result, ok, err, Action,
  if◌then◌else◌,
}
use nylon_run.Prelude.Actions.{pure, lift, gets, on_error, with_prefix, continue, ◌>>=◌}
use nylon_run.Metrics.{Metrics, ℤ}
use nylon_run.Process.State.{ProcessManager, on_world}

abbrev pub gauge : Option Metrics → Option ℤ
gauge none = none
gauge (some m) = some m.managed_processes

module _ {W : Type 0} where
  -- The table and the gauge of the processes are as before.
  abbrev pub IsSpared : ProcessManager W → ProcessManager W → Type 0
  IsSpared s s' = (s'.processes ≡ s.processes) × (gauge s'.metrics ≡ gauge s.metrics)

  IsSpared-trans : (s s' s'' : ProcessManager W) → IsSpared s s' → IsSpared s' s'' → IsSpared s s''
  IsSpared-trans s s' s'' (p, q) (p', q') = (p' ∙ p, q' ∙ q)

module _ {W A : Type 0} where
  pub record Spares (m : Action (ProcessManager W) A) : Type 0 where
    pub at : (s : ProcessManager W) → IsSpared s (m s).1

  pub Spares-pure : (a : A) → Spares (pure a)
  Spares-pure a = record { at = λ s. (refl, refl) }

  pub Spares-lift : (r : Result A) → Spares (lift r)
  Spares-lift r = record { at = λ s. (refl, refl) }

  pub Spares-gets : (f : ProcessManager W → A) → Spares (gets f)
  Spares-gets f = record { at = λ s. (refl, refl) }

  pub Spares-on_world : (m : Action W A) → Spares (on_world m)
  unfolding on_world
  Spares-on_world m = record { at = λ s. (refl, refl) }

  pub Spares-on_error :
      (f : Text → Text) (m : Action (ProcessManager W) A) → Spares m → Spares (on_error f m)
  Spares-on_error f m h = record { at = λ s. prefixed s (m s) (h.at s) }
    where
      prefixed :
          (s : ProcessManager W) (p : Result A × ProcessManager W)
          → IsSpared s p.1
          → IsSpared s (with_prefix f p).1
      prefixed s (ok a, s') k = k
      prefixed s (err e, s') k = k

  pub Spares-if :
      (b : Bool) (m n : Action (ProcessManager W) A)
      → Spares m
      → Spares n
      → Spares (if b then m else n)
  Spares-if true m n h k = h
  Spares-if false m n h k = k

module _ {W A B : Type 0} where
  Spares-continue :
      (s : ProcessManager W) (f : A → Action (ProcessManager W) B) (p : Result A × ProcessManager W)
      → ((a : A) → Spares (f a))
      → IsSpared s p.1
      → IsSpared s (continue f p).1
  Spares-continue s f (ok a, s') k h = IsSpared-trans s s' (f a s').1 h ((k a).at s')
  Spares-continue s f (err e, s') k h = h

  pub Spares-bind :
      (m : Action (ProcessManager W) A) (f : A → Action (ProcessManager W) B)
      → Spares m
      → ((a : A) → Spares (f a))
      → Spares (m >>= f)
  Spares-bind m f h k = record { at = λ s. Spares-continue s f (m s) k (h.at s) }

pub ruleset spares_rules = (
  Spares-pure, Spares-lift, Spares-gets, Spares-on_world, Spares-on_error, Spares-if, Spares-bind,
)

-- A result, if there is one, has the property.
abbrev pub IsResult : {A : Type 0} → (A → Type 0) → Result A → Type 0
IsResult Q (ok a) = Q a
IsResult Q (err e) = Unit

module _ {S A : Type 0} where
  pub record Returns (Q : A → Type 0) (m : Action S A) : Type 0 where
    pub at : (s : S) → IsResult Q (m s).0

  pub Returns-pure : (Q : A → Type 0) (a : A) → Q a → Returns Q (pure a)
  Returns-pure Q a q = record { at = λ s. q }

  pub Returns-if :
      (Q : A → Type 0) (b : Bool) (m n : Action S A)
      → Returns Q m
      → Returns Q n
      → Returns Q (if b then m else n)
  Returns-if Q true m n h k = h
  Returns-if Q false m n h k = k

module _ {W A : Type 0} where
  pub Returns-on_world : (Q : A → Type 0) (m : Action W A) → Returns Q m → Returns Q (on_world m)
  unfolding on_world
  Returns-on_world Q m h = record { at = λ s. h.at s.world }

module _ {A : Type 0} where
  pub any_result : (r : Result A) → IsResult (λ a. Unit) r
  any_result (ok a) = tt
  any_result (err e) = tt

module _ {S A B : Type 0} where
  Returns-continue :
      (P : A → Type 0) (Q : B → Type 0) (f : A → Action S B) (p : Result A × S)
      → ((a : A) → P a → Returns Q (f a))
      → IsResult P p.0
      → IsResult Q (continue f p).0
  Returns-continue P Q f (ok a, s) k h = (k a h).at s
  Returns-continue P Q f (err e, s) k h = tt

  pub Returns-bind :
      (P : A → Type 0) (Q : B → Type 0) (m : Action S A) (f : A → Action S B)
      → Returns P m
      → ((a : A) → P a → Returns Q (f a))
      → Returns Q (m >>= f)
  Returns-bind P Q m f h k = record { at = λ s. Returns-continue P Q f (m s) k (h.at s) }

  pub Returns-bind_any :
      (Q : B → Type 0) (m : Action S A) (f : A → Action S B)
      → ((a : A) → Returns Q (f a))
      → Returns Q (m >>= f)
  Returns-bind_any Q m f k = record {
    at = λ s. Returns-continue (λ a. Unit) Q f (m s) (λ a u. k a) (any_result (m s).0);
  }
