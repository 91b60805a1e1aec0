-- ===== src/Prelude/Texts.antt =====
-- Text as the list of its code points, with the operations of Rust's `str` that the program uses.
use Prim.Native.Nat.{ℕ}
use Prim.Native.Char.{code}
use Prim.Native.String.{String}
use mathlib.Core.Path.{◌≡◌, refl}
use mathlib.Core.Logic.{◌≢◌, ◌↔◌}
use mathlib.Core.Bool.{Bool, true, false, ◌&&◌, ◌||◌}
use mathlib.Core.Option.{Option, none, some}
use mathlib.Core.List.{List, [], ◌∷◌, ◌++◌, reverse}
use native.Mathlib.Omega.{arith}
use nylon_run.Prelude.Tests.{leb, ◌==◌, if◌then◌else◌}
use nylon_run.Prelude.Lists.{All}

abbrev pub Text : Type 0
Text = List ℕ

abbrev pub codes : String → Text
codes String.[] = []
codes (String.◌∷◌ c s) = code c ∷ codes s

unfoldable pub text_eq : Text → Text → Bool
text_eq [] [] = true
text_eq (a ∷ s) (b ∷ t) = a == b && text_eq s t
text_eq _ _ = false

pub text_eq_iff : (s t : Text) → (text_eq s t ≡ true) ↔ (s ≡ t)
unfolding text_eq
text_eq_iff [] [] = (λ _. refl, λ _. refl)
text_eq_iff (a ∷ s) (b ∷ t) = ground (arith, text_eq_iff s t)
text_eq_iff [] (b ∷ t) = ground arith
text_eq_iff (a ∷ s) [] = ground arith

pub text_eq_refl : (s : Text) → text_eq s s ≡ true
text_eq_refl s = (text_eq_iff s s).1 refl

-- `str::contains(char)`, `str::starts_with` and `str::strip_prefix`.
unfoldable pub contains : ℕ → Text → Bool
contains c [] = false
contains c (a ∷ s) = a == c || contains c s

unfoldable pub strip_prefix : Text → Text → Option Text
strip_prefix [] s = some s
strip_prefix (c ∷ p) [] = none
strip_prefix (c ∷ p) (a ∷ s) = if a == c then strip_prefix p s else none

unfoldable pub starts_with : Text → Text → Bool
starts_with [] s = true
starts_with (c ∷ p) [] = false
starts_with (c ∷ p) (a ∷ s) = a == c && starts_with p s

-- `str::contains(&str)`.
unfoldable pub is_substring : Text → Text → Bool
unfolding starts_with
is_substring p [] = starts_with p []
is_substring p (c ∷ s) = starts_with p (c ∷ s) || is_substring p s

abbrev pub Lacks : ℕ → Text → Type 0
Lacks b = All (λ c. c ≢ b)

pub Lacks-contains : (b : ℕ) (s : Text) → Lacks b s → contains b s ≡ false
unfolding contains
Lacks-contains b [] h = refl
Lacks-contains b (a ∷ s) h = ground (arith, Lacks-contains b s)

pub contains-Lacks : (b : ℕ) (s : Text) → contains b s ≡ false → Lacks b s
unfolding contains
contains-Lacks b [] h = tt
contains-Lacks b (a ∷ s) h = (ground arith, contains-Lacks b s (ground arith))

-- `split(sep)`: the parts between the separators, at least one.
abbrev pub push_head : ℕ → List Text → List Text
push_head c [] = (c ∷ []) ∷ []
push_head c (p ∷ ps) = (c ∷ p) ∷ ps

unfoldable pub split : ℕ → Text → List Text
split sep [] = [] ∷ []
split sep (c ∷ s) = let rest = split sep s in if c == sep then [] ∷ rest else push_head c rest

-- `split(sep).next()`: the part before the first separator.
unfoldable pub first_part : ℕ → Text → Text
first_part sep [] = []
first_part sep (c ∷ s) = if c == sep then [] else c ∷ first_part sep s

-- `split_once(sep)`; `splitn(2, sep)` has two parts just where it is `some`.
unfoldable pub split_once : ℕ → Text → Option (Text × Text)
split_once sep [] = none
split_once sep (c ∷ s) =
    if c == sep
    then some ([], s)
    else elim (split_once sep s) [ none ↦ none | some (k, v) ↦ some (c ∷ k, v) ]

-- `rsplit(sep).next()`: the part behind the last separator.
unfoldable pub last_part : ℕ → Text → Text
unfolding contains
last_part sep [] = []
last_part sep (c ∷ s) =
    let rest = last_part sep s in if contains sep s then rest else if c == sep then s else c ∷ s

-- `trim_start_matches(p)`, `trim_matches(p)`, and `trim()` at the code points of White_Space.
unfoldable pub trim_start : (ℕ → Bool) → Text → Text
trim_start p [] = []
trim_start p (c ∷ s) = let rest = trim_start p s in if p c then rest else c ∷ s

unfoldable pub trim_matches : (ℕ → Bool) → Text → Text
unfolding trim_start
trim_matches p s = reverse (trim_start p (reverse (trim_start p s)))

abbrev pub is_whitespace : ℕ → Bool
is_whitespace c =
    (leb 9 c && leb c 13)
    || (c == 0x20)
    || (c == 0x85)
    || (c == 0xa0)
    || (c == 0x1680)
    || (leb 0x2000 c && leb c 0x200a)
    || (c == 0x2028)
    || (c == 0x2029)
    || (c == 0x202f)
    || (c == 0x205f)
    || (c == 0x3000)

unfoldable pub trim : Text → Text
unfolding trim_matches
trim s = trim_matches is_whitespace s

-- `parts.join(sep)`.
unfoldable pub join : Text → List Text → Text
join sep [] = []
join sep (p ∷ []) = p
join sep (p ∷ q ∷ ps) = p ++ (sep ++ join sep (q ∷ ps))
