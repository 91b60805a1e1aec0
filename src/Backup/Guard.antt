-- ===== src/Backup/Guard.antt =====
-- src/main.rs: the guard of `restore_backup` against paths that leave the directory.
use nylon_run.Prelude.{
  ◌≡◌, refl, false, List, [], ◌∷◌, ◌++◌, Text, Result, ok, err, Action, All, codes, arith,
}
use nylon_run.Prelude.Actions.{pure, lift, on_error, continue, ◌>>=◌, ◌>>◌}
use nylon_run.Paths.{join_path, is_absolute}
use nylon_run.Paths.Laws.{path_starts_with-join_path}
use nylon_run.System.{Os}
use nylon_run.Backup.{
  Member, Zip, nyrun_dir, write_member, restore_entry, restore_entries, restore_backup,
}

-- A member that `by_index` hands out has a relative name, with any number of `..` in it.
abbrev pub IsRelative : Result Member → Type 0
IsRelative (err e) = Unit
IsRelative (ok m) = is_absolute m.name ≡ false

module _ {W : Type 0} (os : Os W) (zip : Zip W) where
  -- The members are written one after another, and no path is looked at.
  pub write_members : List (Result Member) → Action W (Unit {0})
  write_members [] = pure tt
  write_members (entry ∷ entries) = do
    m ← on_error (λ e. codes "zip entry error: " ++ e) (lift entry)
    write_member os zip (join_path nyrun_dir m.name) m
    write_members entries

  restore_entry-relative :
      (m : Member) (w : W)
      → is_absolute m.name ≡ false
      → restore_entry os zip m w ≡ write_member os zip (join_path nyrun_dir m.name) m w
  unfolding restore_entry
  restore_entry-relative m w h =
      rw (path_starts_with-join_path nyrun_dir m.name (λ e. ground arith) h) refl

  continue_ext :
      (f g : Unit {0} → Action W (Unit {0}))
      → ((u : Unit {0}) (w : W) → f u w ≡ g u w)
      → (p : Result (Unit {0}) × W) → continue f p ≡ continue g p
  continue_ext f g h (ok u, w) = h u w
  continue_ext f g h (err e, w) = refl

  restore_entries-relative :
      (ms : List (Result Member)) (w : W)
      → All IsRelative ms
      → restore_entries os zip ms w ≡ write_members ms w
  unfolding restore_entries write_members
  restore_entries-relative [] w h = refl
  restore_entries-relative (err e ∷ ms) w h = refl
  restore_entries-relative (ok m ∷ ms) w (a, h) = rw (restore_entry-relative m w a) (
      continue_ext (λ _. restore_entries os zip ms) (λ _. write_members ms)
        (λ u w'. restore_entries-relative ms w' h)
        (write_member os zip (join_path nyrun_dir m.name) m w))

  -- Let an archive be opened whose members have relative names, however many `..` are in them. If the
  -- directory can be made, a restore writes member after member to its joined path, and refuses none.
  pub restore_backup-relative :
      (path : Text) (w w1 : W) (ms : List (Result Member))
      → zip.open_file path w ≡ ok tt
      → zip.archive path w ≡ ok ms
      → os.create_dir_all nyrun_dir w ≡ (ok tt, w1)
      → All IsRelative ms
      → restore_backup os zip path w ≡ write_members ms w1
  unfolding restore_backup
  restore_backup-relative path w w1 ms o a d h = rw (o, a, d) (restore_entries-relative ms w1 h)
