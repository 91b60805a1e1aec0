-- ===== src/Daemon/EnvFile.antt =====
-- `parse_env_file` of src/main.rs and its copy `parse_env_file_str` of src/server.rs.
use nylon_run.Prelude.{
  ◌==◌, ◌≡◌, refl, Bool, ◌||◌, Option, none, some, List, [], ◌∷◌, ◌++◌, Text, Result, codes,
  map_err, ◌>>=◌, ok, split, split_once, starts_with, trim, trim_matches, text_eq, if◌then◌else◌,
}
use nylon_run.Prelude.Maps.{Map, lookup, insert, lookup-insert}

-- A line without the carriage return at its end.
strip_cr : Text → Text
strip_cr [] = []
strip_cr (c ∷ s) =
    let rest = strip_cr s in elim s [ [] ↦ if c == 13 then [] else c ∷ [] | d ∷ t ↦ c ∷ rest ]

-- `str::lines`: the last line is one only if it is not empty.
lines_of : List Text → List Text
unfolding strip_cr
lines_of [] = []
lines_of (l ∷ ls) =
    let rest = lines_of ls in
    elim ls [ [] ↦ elim l [ [] ↦ [] | c ∷ s ↦ (c ∷ s) ∷ [] ] | m ∷ ms ↦ strip_cr l ∷ rest ]

unfoldable pub lines : Text → List Text
unfolding lines_of
lines content = lines_of (split 10 content)

unquoted : Text → Text
unquoted value = trim_matches (λ c. c == b'\'') (trim_matches (λ c. c == 34) (trim value))

assignment_of : Option (Text × Text) → Option (Text × Text)
unfolding unquoted
assignment_of none = none
assignment_of (some (key, value)) = some (trim key, unquoted value)

is_skipped : Text → Bool
is_skipped line = text_eq line [] || starts_with (codes "#") line

-- The variable that a line sets, if any.
pub assignment : Text → Option (Text × Text)
unfolding assignment_of is_skipped
assignment line =
    if is_skipped (trim line) then none else assignment_of (split_once b'=' (trim line))

abbrev set_var : Option (Text × Text) → Map Text → Map Text
set_var none vars = vars
set_var (some (key, value)) vars = insert key value vars

pub read_vars : List Text → Map Text → Map Text
unfolding assignment
read_vars [] vars = vars
read_vars (line ∷ rest) vars = read_vars rest (set_var (assignment line) vars)

unfoldable pub parse_env_file_str : Text → Result Text → Result (Map Text)
unfolding read_vars
parse_env_file_str path content = do
  text ← map_err (codes "failed to read env file '" ++ path ++ codes "': ") content
  ok (read_vars (lines text) [])

read_vars-append :
    (ls : List Text) (l : Text) (vars : Map Text)
    → read_vars (ls ++ l ∷ []) vars ≡ set_var (assignment l) (read_vars ls vars)
unfolding read_vars
read_vars-append [] l vars = refl
read_vars-append (m ∷ ls) l vars = read_vars-append ls l (set_var (assignment m) vars)

-- Of the lines of an env file, the last one that sets a variable decides: after one line more, the
-- variable that this line sets has its value, and any other variable the value it had, also where the
-- line is blank, a comment or has no equals sign.
pub lookup-read_vars :
    (ls : List Text) (l key : Text)
    → lookup key (read_vars (ls ++ l ∷ []) []) ≡ (elim (assignment l) [
      | none ↦ lookup key (read_vars ls [])
      | some (k, v) ↦ if text_eq k key then some v else lookup key (read_vars ls [])
    ])
lookup-read_vars ls l key = rw (read_vars-append ls l []) (by_assignment (assignment l))
  where
    by_assignment :
        (o : Option (Text × Text))
        → lookup key (set_var o (read_vars ls [])) ≡ (elim o [
          | none ↦ lookup key (read_vars ls [])
          | some (k, v) ↦ if text_eq k key then some v else lookup key (read_vars ls [])
        ])
    by_assignment none = refl
    by_assignment (some (k, v)) = lookup-insert k key v (read_vars ls [])
