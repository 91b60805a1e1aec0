-- ===== src/Backup.antt =====
-- src/main.rs: `create_backup` and `restore_backup`. The zip crate, with the file that it writes, and
-- `std::fs::read` are the parameter `Zip`. Failing to list a directory of the tree is left out.
pub mod Guard
pub mod Names
pub mod Archive
use mathlib.Core.List.{reverse}
use nylon_run.Prelude.{
  Bool, true, false, ◌||◌, List, [], ◌∷◌, ◌++◌, Text, Result, ok, err, Option, none, some, Action,
  codes, unwrap_or, starts_with, if◌then◌else◌,
}
use nylon_run.Prelude.Actions.{pure, fail, lift, gets, on_error, ◌>>=◌, ◌>>◌}
use nylon_run.Paths.{join_path, path_starts_with, file_name, parent}
use nylon_run.System.{Os}
use nylon_run.System.Trees.{Tree, Entries, file, dir, nil, cons}

-- A member of an archive, as `by_index` hands it out. The content can fail to be read.
pub record Member : Type 0 where
  pub name : Text
  pub is_dir : Bool
  pub content : Result Text

pub record Zip (W : Type 0) : Type 0 where
  pub read : Text → W → Result Text
  pub create : Text → Action W (Unit {0})
  pub add_directory : Text → Action W (Unit {0})
  pub start_file : Text → Action W (Unit {0})
  pub write_all : Text → Action W (Unit {0})
  pub finish : Action W (Unit {0})
  pub open_file : Text → W → Result (Unit {0})
  pub archive : Text → W → Result (List (Result Member))

abbrev pub nyrun_dir : Text
nyrun_dir = codes "/var/run/nyrun"

ends_with : Text → Text → Bool
ends_with suffix s = starts_with (reverse suffix) (reverse s)

unfoldable pub output_path : Text → Text
unfolding ends_with
output_path output_name =
    if ends_with (codes ".zip") output_name then output_name else output_name ++ codes ".zip"

pub is_skipped : Text → Bool
unfolding ends_with
is_skipped fname = ends_with (codes ".sock") fname || ends_with (codes ".pid") fname

module _ {W : Type 0} (os : Os W) (zip : Zip W) where
  add_file : Text → Action W (Unit {0})
  add_file rel = do
    on_error (λ e. codes "zip start file error: " ++ e) (zip.start_file rel)
    content ←
        on_error (λ e. codes "read file error " ++ join_path nyrun_dir rel ++ codes ": " ++ e)
          (λ w. (zip.read (join_path nyrun_dir rel) w, w))
    on_error (λ e. codes "zip write error: " ++ e) (zip.write_all content)

  -- `rel`, the path below the directory, is carried along in place of being cut from the path.
  mutual
    unfolding is_skipped add_file

    walk_entry : Tree → Text → Action W (Unit {0})
    walk_entry file rel =
        if is_skipped (unwrap_or (file_name (join_path nyrun_dir rel)) [])
        then pure tt
        else add_file rel
    walk_entry (dir entries) rel = do
      on_error (λ e. codes "zip add dir error: " ++ e) (zip.add_directory (rel ++ codes "/"))
      walk_dir entries rel

    walk_dir : Entries → Text → Action W (Unit {0})
    walk_dir nil rel = pure tt
    walk_dir (cons name tree rest) rel = do walk_entry tree (join_path rel name); walk_dir rest rel

  walk_root : Tree → Action W (Unit {0})
  unfolding walk_dir walk_entry
  walk_root file = fail (codes "failed to read dir: Not a directory (os error 20)")
  walk_root (dir entries) = walk_dir entries []

  unfoldable pub create_backup : Text → Action W Text
  unfolding walk_root
  create_backup output_name = do
    present ← gets (os.exists nyrun_dir)
    if present
        then (do
          let path = output_path output_name
          on_error (λ e. codes "failed to create " ++ path ++ codes ": " ++ e) (zip.create path)
          tree ← gets (os.tree nyrun_dir)
          walk_root tree
          on_error (λ e. codes "zip finish error: " ++ e) zip.finish
          pure path)
        else fail (codes "nyrun directory /var/run/nyrun does not exist")

  make_dir : Text → Action W (Unit {0})
  make_dir p = on_error (λ e. codes "mkdir error: " ++ e) (os.create_dir_all p)

  make_parent : Option Text → Action W (Unit {0})
  unfolding make_dir
  make_parent none = pure tt
  make_parent (some p) = make_dir p

  -- What follows the check of the path.
  unfoldable pub write_member : Text → Member → Action W (Unit {0})
  unfolding make_dir make_parent
  write_member out_path m = if m.is_dir then make_dir out_path else (do
    make_parent (parent out_path)
    content ← on_error (λ e. codes "read zip entry error: " ++ e) (lift m.content)
    on_error (λ e. codes "write file error: " ++ e) (os.write out_path content))

  unfoldable pub restore_entry : Member → Action W (Unit {0})
  unfolding write_member
  restore_entry m =
      if path_starts_with (join_path nyrun_dir m.name) nyrun_dir
      then write_member (join_path nyrun_dir m.name) m
      else fail (codes "path traversal detected in zip: " ++ m.name)

  unfoldable pub restore_entries : List (Result Member) → Action W (Unit {0})
  unfolding restore_entry
  restore_entries [] = pure tt
  restore_entries (entry ∷ entries) = do
    m ← on_error (λ e. codes "zip entry error: " ++ e) (lift entry)
    restore_entry m
    restore_entries entries

  unfoldable pub restore_backup : Text → Action W (Unit {0})
  unfolding restore_entries
  restore_backup path = do
    on_error (λ e. codes "failed to open " ++ path ++ codes ": " ++ e)
        (λ w. (zip.open_file path w, w))
    entries ← on_error (λ e. codes "invalid zip file: " ++ e) (λ w. (zip.archive path w, w))
    on_error (λ e. codes "failed to create /var/run/nyrun: " ++ e) (os.create_dir_all nyrun_dir)
    restore_entries entries
