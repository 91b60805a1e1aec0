-- ===== src/Oci/Pull.antt =====
-- src/oci.rs: `pull_and_extract`, `extract_layer` and `extract_tar_entries`. The registry client
-- (oci_distribution), the gzip and tar readers and the unpacking of one entry are the parameter
-- `Registry`.
pub mod Guard
use nylon_run.Prelude.{
  ℕ, Bool, true, false, not, Option, none, some, List, [], ◌∷◌, ◌++◌, Text, Result, ok, err, Action,
  codes, strip_prefix, unwrap_or, if◌then◌else◌, is_substring,
}
use nylon_run.Prelude.Actions.{pure, fail, lift, gets, modify, on_error, ◌>>=◌, ◌>>◌}
use nylon_run.Paths.{join_path, path_starts_with, file_name, parent}
use nylon_run.System.{Os}

pub record Layer : Type 0 where
  pub digest : Text
  pub media_type : Text

-- A member of an archive, with its path.
pub record TarEntry : Type 0 where
  pub path : Text
  pub content : Text

pub record Manifest : Type 0 where
  pub config : Layer
  pub layers : List Layer

pub record Registry (W : Type 0) : Type 0 where
  pub parse : Text → Result (Unit {0})
  pub pull_image_manifest : Text → Action W Manifest
  pub pull_blob : Text → Layer → Action W Text
  pub tar_entries : Text → Result (List (Result TarEntry))
  pub gunzip : Text → Text
  pub unpack_in : TarEntry → Text → W → W

abbrev pub oci_dir : Text
oci_dir = codes "/var/run/nyrun/oci"

module _ {W : Type 0} (os : Os W) (registry : Registry W) where
  open os use {create_dir_all, write, remove_file, remove_dir_all}
  open registry use {pull_image_manifest, pull_blob, tar_entries, gunzip, unpack_in}

  -- The file that a whiteout marker names.
  pub whiteout_target : Text → Text → Text → Text
  whiteout_target dest_dir path name =
      join_path (join_path dest_dir (unwrap_or (parent path) [])) name

  plain_entry : Text → TarEntry → W → W
  plain_entry dest_dir entry w =
      if path_starts_with (join_path dest_dir entry.path) dest_dir
      then unpack_in entry dest_dir w
      else w

  marked : Option Text → Text → TarEntry → W → W
  unfolding whiteout_target plain_entry
  marked none dest_dir entry w = plain_entry dest_dir entry w
  marked (some name) dest_dir entry w =
      let target = whiteout_target dest_dir entry.path name in
      remove_dir_all target (remove_file target w)

  pub whiteout_name : Option Text → Option Text
  whiteout_name none = none
  whiteout_name (some name) = strip_prefix (codes ".wh.") name

  unfoldable pub extract_entry : Text → TarEntry → W → W
  unfolding marked whiteout_name
  extract_entry dest_dir entry w = marked (whiteout_name (file_name entry.path)) dest_dir entry w

  extract_tar_entries : List (Result TarEntry) → Text → Action W (Unit {0})
  extract_tar_entries [] dest_dir w = (ok tt, w)
  extract_tar_entries (err e ∷ entries) dest_dir w = (err (codes "tar entry error: " ++ e), w)
  extract_tar_entries (ok entry ∷ entries) dest_dir w =
      extract_tar_entries entries dest_dir (extract_entry dest_dir entry w)

  extract_archive : Text → Text → Action W (Unit {0})
  unfolding extract_tar_entries extract_entry
  extract_archive data_bytes dest_dir = do
    entries ← on_error (λ e. codes "tar entries error: " ++ e) (lift (tar_entries data_bytes))
    extract_tar_entries entries dest_dir

  unfoldable pub extract_layer : Text → Text → Text → Action W (Unit {0})
  unfolding extract_archive
  extract_layer data_bytes media_type dest_dir =
      if is_substring (codes "gzip") media_type
      then extract_archive (gunzip data_bytes) dest_dir
      else if is_substring (codes "tar") media_type
      then extract_archive data_bytes dest_dir
      else pure tt

  pull_layers : Text → List Layer → Text → Action W (Unit {0})
  unfolding extract_layer
  pull_layers reference [] dest_dir = pure tt
  pull_layers reference (layer ∷ layers) dest_dir = do
    layer_data ←
        on_error (λ e. codes "failed to pull layer " ++ layer.digest ++ codes ": " ++ e)
          (pull_blob reference layer)
    extract_layer layer_data layer.media_type dest_dir
    pull_layers reference layers dest_dir

  unfoldable pub pull_and_extract : Text → Text → Action W Text
  unfolding pull_layers
  pull_and_extract reference name = do
    let dest_dir = join_path oci_dir name
    on_error (λ e. codes "invalid OCI reference '" ++ reference ++ codes "': " ++ e)
        (lift (registry.parse reference))
    manifest ←
        on_error (λ e. codes "failed to pull manifest: " ++ e) (pull_image_manifest reference)
    on_error (λ e. codes "failed to create dir " ++ dest_dir ++ codes ": " ++ e)
        (create_dir_all dest_dir)
    config_data ←
        on_error (λ e. codes "failed to pull config: " ++ e) (pull_blob reference manifest.config)
    on_error (λ e. codes "failed to write config: " ++ e)
        (write (join_path dest_dir (codes ".oci-config.json")) config_data)
    pull_layers reference manifest.layers dest_dir
    pure dest_dir
