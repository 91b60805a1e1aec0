-- ===== src/Paths.antt =====
-- The functions of `std::path` that the program uses, on a path as a text. Nothing here looks at a
-- file system, and `..` is a component like any other.
pub mod Laws
pub mod Parents
use nylon_run.Prelude.{
  ℕ, Bool, true, false, not, ◌&&◌, ◌||◌, Option, none, some, List, [], ◌∷◌, ◌++◌, Text, retain,
  codes, contains, split, join, text_eq, if◌then◌else◌, ◌==◌,
}

abbrev pub slash : ℕ
slash = b'/'

-- `is_absolute`, which is `has_root` on Unix.
unfoldable pub is_absolute : Text → Bool
is_absolute [] = false
is_absolute (c ∷ p) = c == slash

ends_with_slash : Text → Bool
ends_with_slash [] = false
ends_with_slash (c ∷ []) = c == slash
ends_with_slash (c ∷ d ∷ p) = ends_with_slash (d ∷ p)

is_empty : Text → Bool
is_empty [] = true
is_empty (c ∷ p) = false

-- `join`: an absolute path replaces the base.
unfoldable pub join_path : Text → Text → Text
unfolding is_absolute ends_with_slash is_empty
join_path dir p =
    if is_absolute p
    then p
    else if is_empty dir || ends_with_slash dir
    then dir ++ p
    else dir ++ slash ∷ p

is_component : Text → Bool
is_component c = not (text_eq c []) && not (text_eq c (codes "."))

-- The components of a path but for a `.` at its start: empty ones and other `.` count for nothing.
unfoldable pub names : Text → List Text
unfolding is_component
names p = retain is_component (split slash p)

leading_dot : Text → List Text
leading_dot [] = []
leading_dot (c ∷ []) = if c == b'.' then codes "." ∷ [] else []
leading_dot (c ∷ d ∷ p) = if c == b'.' && d == slash then codes "." ∷ [] else []

unfoldable pub components : Text → List Text
unfolding leading_dot names
components p = leading_dot p ++ names p

unfoldable pub is_prefix : List Text → List Text → Bool
is_prefix [] qs = true
is_prefix (p ∷ ps) [] = false
is_prefix (p ∷ ps) (q ∷ qs) = text_eq p q && is_prefix ps qs

abbrev same_root : Bool → Bool → Bool
same_root true b = b
same_root false b = not b

-- `starts_with`: component by component.
unfoldable pub path_starts_with : Text → Text → Bool
unfolding components is_prefix is_absolute
path_starts_with p dir =
    same_root (is_absolute p) (is_absolute dir) && is_prefix (components dir) (components p)

last_of : Text → List Text → Text
last_of p [] = p
last_of p (q ∷ qs) = last_of q qs

-- Neither `..` nor a `.` at the start is a name.
file_name_of : List Text → Option Text
unfolding last_of
file_name_of [] = none
file_name_of (p ∷ ps) =
    if text_eq (last_of p ps) (codes "..") || text_eq (last_of p ps) (codes ".")
    then none
    else some (last_of p ps)

-- `file_name`: the last component, if it is a name.
unfoldable pub file_name : Text → Option Text
unfolding components file_name_of
file_name p = file_name_of (components p)

abbrev without_last : List Text → List Text
without_last [] = []
without_last (p ∷ []) = []
without_last (p ∷ q ∷ qs) = p ∷ without_last (q ∷ qs)

parent_of : Text → List Text → Option Text
parent_of root [] = none
parent_of root (p ∷ ps) = some (root ++ join (codes "/") (without_last (p ∷ ps)))

-- `parent`: the path without its last component, none if there is none. It is written with one slash
-- between two components.
unfoldable pub parent : Text → Option Text
unfolding components is_absolute parent_of
parent p = parent_of (if is_absolute p then codes "/" else []) (components p)

-- The part behind the last dot.
after_dot : Text → Option Text
after_dot [] = none
after_dot (c ∷ rest) =
    let further = after_dot rest in
    if contains b'.' rest then further else if c == b'.' then some rest else none

extension_of_name : Option Text → Option Text
unfolding after_dot
extension_of_name none = none
extension_of_name (some []) = none
extension_of_name (some (c ∷ name)) = after_dot name

-- `extension`: what stands behind the last dot of the name, if something stands before it.
unfoldable pub extension : Text → Option Text
unfolding file_name extension_of_name
extension p = extension_of_name (file_name p)
