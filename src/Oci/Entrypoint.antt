-- ===== src/Oci/Entrypoint.antt =====
-- src/oci.rs: `find_entrypoint` and `resolve_binary`. Reading the image's configuration as JSON
-- (serde_json) is an argument: the string items of the Entrypoint and Cmd arrays under `config`.
use nylon_run.Prelude.{
  Option, none, some, List, [], ◌∷◌, ◌++◌, Text, Result, ok, err, codes, strip_prefix,
  if◌then◌else◌, ◌&&◌,
}
use nylon_run.Paths.{join_path}
use nylon_run.System.{Os}

pub record ImageConfig : Type 0 where
  pub entrypoint : Option (List Text)
  pub cmd : Option (List Text)

module _ {W : Type 0} (os : Os W) (parse_config : Text → Option ImageConfig) where
  open os use {exists, is_file, is_executable, read_to_string, read_dir}

  relative_binary : Text → Text → W → Text
  relative_binary extract_dir bin w =
      if exists (join_path extract_dir bin) w then join_path extract_dir bin else bin

  -- A path from the root is first looked for below the extraction directory.
  unfoldable pub resolve_binary : Text → Text → W → Text
  unfolding relative_binary
  resolve_binary extract_dir bin w = elim (strip_prefix (codes "/") bin) [
    | none ↦ relative_binary extract_dir bin w
    | some relative ↦
        if exists (join_path extract_dir relative) w
        then join_path extract_dir relative
        else relative_binary extract_dir bin w
  ]

  -- The command of an array that is there and not empty.
  command_of : Option (List Text) → Text → W → Option (Text × List Text)
  command_of none extract_dir w = none
  command_of (some []) extract_dir w = none
  command_of (some (bin ∷ args)) extract_dir w = some (resolve_binary extract_dir bin w, args)

  -- The first executable file among the entries of a directory.
  first_executable : List Text → W → Option Text
  first_executable [] w = none
  first_executable (path ∷ paths) w =
      if is_file path w && is_executable path w then some path else first_executable paths w

  search_dirs : Text → List Text → W → Option Text
  unfolding first_executable
  search_dirs extract_dir [] w = none
  search_dirs extract_dir (dir ∷ dirs) w =
      elim (first_executable (read_dir (join_path extract_dir dir) w) w) [
        | some path ↦ some path
        | none ↦ search_dirs extract_dir dirs w
      ]

  bin_dirs : List Text
  bin_dirs = codes "usr/local/bin" ∷ codes "usr/bin" ∷ codes "bin" ∷ codes "app" ∷ codes "." ∷ []

  fall_back : Text → W → Result (Text × List Text)
  unfolding search_dirs bin_dirs
  fall_back extract_dir w = elim (search_dirs extract_dir bin_dirs w) [
    | some path ↦ ok (path, [])
    | none ↦ err (codes "no entrypoint found in OCI image at " ++ extract_dir)
  ]

  configured : Option ImageConfig → Text → W → Option (Text × List Text)
  unfolding command_of
  configured none extract_dir w = none
  configured (some config) extract_dir w = elim (command_of config.entrypoint extract_dir w) [
    | some command ↦ some command
    | none ↦ command_of config.cmd extract_dir w
  ]

  read_config : Result Text → Option ImageConfig
  read_config (ok text) = parse_config text
  read_config (err e) = none

  unfoldable pub find_entrypoint : Text → W → Result (Text × List Text)
  unfolding configured fall_back read_config
  find_entrypoint extract_dir w =
      elim (configured
        (read_config (read_to_string (join_path extract_dir (codes ".oci-config.json")) w))
        extract_dir w) [ some command ↦ ok command | none ↦ fall_back extract_dir w ]
