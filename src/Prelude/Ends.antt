-- ===== src/Prelude/Ends.antt =====
-- What holds of the value and the state of an action that succeeds, and its rules.
use nylon_run.Prelude.{Text, Result, ok, err}
use nylon_run.Prelude.Actions.{continue, with_prefix}

module _ {A D : Type 0} where
  -- The predicate holds of the value and the state, if the action succeeded.
  abbrev pub Ends : (A → D → Type 0) → Result A × D → Type 0
  Ends P (ok a, d) = P a d
  Ends P (err e, d) = Unit

  pub Ends-with_prefix :
      (f : Text → Text) (P : A → D → Type 0) (m : Result A × D)
      → Ends P m
      → Ends P (with_prefix f m)
  Ends-with_prefix f P (ok a, d) h = h
  Ends-with_prefix f P (err e, d) h = tt

  pub Ends-weaken :
      (Q P : A → D → Type 0) (m : Result A × D)
      → Ends Q m
      → ((a : A) (d : D) → Q a d → P a d)
      → Ends P m
  Ends-weaken Q P (ok a, d) q h = h a d q
  Ends-weaken Q P (err e, d) q h = tt

module _ {A B D : Type 0} where
  pub Ends-continue :
      (Q : A → D → Type 0) (P : B → D → Type 0) (f : A → D → Result B × D) (m : Result A × D)
      → Ends Q m
      → ((a : A) (d : D) → Q a d → Ends P (f a d))
      → Ends P (continue f m)
  Ends-continue Q P f (ok a, d) q h = h a d q
  Ends-continue Q P f (err e, d) q h = tt
