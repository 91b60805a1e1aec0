-- ===== src/Prelude/Results.antt =====
-- `Result<A, String>`, the error type of nearly every fallible function of the program.
use mathlib.Core.Option.{Option, none, some}
use mathlib.Core.List.{◌++◌}
use nylon_run.Prelude.Texts.{Text}

pub data Result {ℓ} (A : Type ℓ) : Type ℓ where
  ok : A → Result A
  err : Text → Result A

-- `?` and `and_then`.
module _ {ℓ κ} {A : Type ℓ} {B : Type κ} where
  infixl 5 ◌>>=◌
  abbrev pub ◌>>=◌ : Result A → (A → Result B) → Result B
  ok value >>= rest = rest value
  err message >>= rest = err message

module _ {ℓ} {B : Type ℓ} where
  infixl 5 ◌>>◌
  abbrev pub ◌>>◌ : Result (Unit {0}) → Result B → Result B
  first >> second = first >>= λ done. second

-- `map_err(|e| format!("{prefix}{e}"))`.
abbrev pub map_err {ℓ} : {A : Type ℓ} → Text → Result A → Result A
map_err prefix (ok a) = ok a
map_err prefix (err e) = err (prefix ++ e)

-- `ok_or_else`.
abbrev pub ok_or {ℓ} : {A : Type ℓ} → Option A → Text → Result A
ok_or none e = err e
ok_or (some a) e = ok a

-- `unwrap_or`.
abbrev pub unwrap_or {ℓ} : {A : Type ℓ} → Option A → A → A
unwrap_or none d = d
unwrap_or (some a) d = a

-- A fallible action on a state of type `S`: what was written before an error stays written.
abbrev pub Action {ℓ} : Type ℓ → Type ℓ → Type ℓ
Action S A = S → Result A × S
