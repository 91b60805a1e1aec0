-- ===== src/Prelude/Actions.antt =====
-- Fallible actions on a state, in `do` blocks: what was written before an error stays written.
use nylon_run.Prelude.{Text, Result, ok, err, Action}

module _ {ℓ} {S A : Type ℓ} where
  abbrev pub pure : A → Action S A
  pure a s = (ok a, s)

  abbrev pub fail : Text → Action S A
  fail e s = (err e, s)

  abbrev pub lift : Result A → Action S A
  lift r s = (r, s)

  abbrev pub gets : (S → A) → Action S A
  gets f s = (ok (f s), s)

  -- `map_err(|e| format!("{prefix}{e}"))`.
  abbrev pub with_prefix : (Text → Text) → Result A × S → Result A × S
  with_prefix f (ok a, s) = (ok a, s)
  with_prefix f (err e, s) = (err (f e), s)

  abbrev pub on_error : (Text → Text) → Action S A → Action S A
  on_error f m s = with_prefix f (m s)

abbrev pub modify {ℓ} : {S : Type ℓ} → (S → S) → S → Result (Unit {ℓ}) × S
modify f s = (ok tt, f s)

module _ {ℓ} {S A B : Type ℓ} where
  abbrev pub continue : (A → Action S B) → Result A × S → Result B × S
  continue f (ok a, s) = f a s
  continue f (err e, s) = (err e, s)

  infixl 5 ◌>>=◌ ◌>>◌
  abbrev pub ◌>>=◌ : Action S A → (A → Action S B) → Action S B
  ◌>>=◌ m f s = continue f (m s)

  abbrev pub ◌>>◌ : Action S A → Action S B → Action S B
  m >> k = m >>= λ _. k
