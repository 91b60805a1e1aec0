-- ===== src/Oci/References.antt =====
-- src/oci.rs: `is_oci_reference`, `normalize_reference`, `load_default_registry` and
-- `image_name_from_ref`, and `derive_name` of src/main.rs. `char::is_alphanumeric` is written out for
-- ASCII; beyond it is the parameter `alphabetic`. The default registry of the settings file is an
-- argument.
pub mod Normal
use nylon_run.Prelude.{
  ℕ, Bool, true, false, not, ◌&&◌, ◌||◌, Option, none, some, List, [], ◌∷◌, ◌++◌, Text, codes,
  contains, starts_with, split_once, first_part, last_part, text_eq, all, leb, ltb, ◌==◌, unwrap_or,
  if◌then◌else◌,
}
use nylon_run.Paths.{file_name}

module _ (alphabetic : ℕ → Bool) where
  unfoldable pub is_alphanumeric : ℕ → Bool
  is_alphanumeric c =
      if ltb c 128
      then (leb b'0' c && leb c b'9') || (leb b'a' c && leb c b'z') || (leb b'A' c && leb c b'Z')
      else alphabetic c

  -- The bare name before the colon of a short name with a tag.
  is_image_name : Text → Bool
  unfolding is_alphanumeric
  is_image_name name =
      not (text_eq name []) && all (λ c. is_alphanumeric c || (c == b'-') || (c == b'_')) name

  is_tagged_name : Option (Text × Text) → Bool
  unfolding is_image_name
  is_tagged_name none = false
  is_tagged_name (some (name, tag)) = is_image_name name

is_local_path : Text → Bool
is_local_path path =
    starts_with (codes "/") path || starts_with (codes "./") path || starts_with (codes "../") path

-- The first segment of a reference with a slash is the registry if it has a dot or a colon.
unfoldable pub has_registry : Text → Bool
has_registry path =
    contains b'/' path
    && (contains b'.' (first_part b'/' path) || contains b':' (first_part b'/' path))

module _ (alphabetic : ℕ → Bool) where
  unfoldable pub is_oci_reference : Text → Bool
  unfolding is_local_path has_registry is_tagged_name
  is_oci_reference path =
      if is_local_path path
      then false
      else if has_registry path
      then true
      else if not (contains b'/' path) && contains b':' path
      then is_tagged_name alphabetic (split_once b':' path)
      else false

abbrev pub default_registry : Text
default_registry = codes "docker.io"

-- `settings` is the registry that the settings file names, if it can be read and names one.
unfoldable pub load_default_registry : Option Text → Text
load_default_registry settings = unwrap_or settings default_registry

unfoldable pub normalize_reference : Option Text → Text → Text
unfolding has_registry load_default_registry
normalize_reference settings reference =
    if has_registry reference
    then reference
    else if text_eq (load_default_registry settings) (codes "docker.io")
    then load_default_registry settings ++ (codes "/library/" ++ reference)
    else load_default_registry settings ++ (codes "/" ++ reference)

unfoldable pub image_name_from_ref : Text → Text
image_name_from_ref reference = last_part b'/' (first_part b'@' (first_part b':' reference))

module _ (alphabetic : ℕ → Bool) where
  unfoldable pub derive_name : Text → Option Text → Text
  unfolding is_oci_reference image_name_from_ref file_name
  derive_name path (some name) = name
  derive_name path none =
      if is_oci_reference alphabetic path
      then image_name_from_ref path
      else unwrap_or (file_name path) (codes "unknown")
