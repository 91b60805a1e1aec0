-- ===== src/Tests/Restoring.antt =====
-- Backups: concrete inputs. The archive has a directory and a file whose name leaves /var/run/nyrun.
use nylon_run.Prelude.{
  ◌≡◌, refl, sym, ap, subst, true, false, none, some, ◌∙◌, ◌≢◌, List, [], ◌∷◌, ◌++◌, Text, Result,
  ok, err, codes, ℕ, arith, starts_with, split, text_eq,
}
use nylon_run.System.{Os}
use nylon_run.System.Trees.{Entries, file, dir, nil, cons}
use nylon_run.Backup.Archive.{contents_at, restore_backup-create_backup}
use nylon_run.Backup.Names.{Item, IsPlainEntries, IsArchived, IsWriter, entries_items}
use nylon_run.Paths.{is_absolute, file_name, join_path}
use nylon_run.Backup.{nyrun_dir, Member, Zip, output_path, create_backup, restore_backup}
use nylon_run.Backup.Guard.{write_members, restore_backup-relative}
use nylon_run.Tests.Supervising.{os}

abbrev members : List (Result Member)
members =
    ok (record { name = codes "apps/"; is_dir = true; content = ok [] })
    ∷ ok (record {
      name = codes "../../../etc/cron.d/job";
      is_dir = false;
      content = ok (codes "job");
    })
    ∷ []

abbrev zip : Zip ℕ
zip = record {
  read = λ p w. ok [];
  create = λ p w. (ok tt, w);
  add_directory = λ n w. (ok tt, w);
  start_file = λ n w. (ok tt, w);
  write_all = λ t w. (ok tt, w);
  finish = λ w. (ok tt, w);
  open_file = λ p w. ok tt;
  archive = λ p w. ok members;
}

restore_backup-relative_example :
    restore_backup os zip (codes "/tmp/b.zip") 0 ≡ write_members os zip members 0
unfolding is_absolute
restore_backup-relative_example =
    restore_backup-relative os zip (codes "/tmp/b.zip") 0 0 members refl refl refl
      (refl, (refl, tt))

-- A writer that keeps the path and the members; the directory has a socket and a file in a directory.
abbrev Written : Type 0
Written = Text × List Item

abbrev nyrun_entries : Entries
nyrun_entries =
    cons (codes "nyrun.sock") file (cons (codes "apps") (dir (cons (codes "api") file nil)) nil)

abbrev recording_os : Os Written
recording_os = record {
  exists = λ p w. true;
  is_dir = λ p w. false;
  is_file = λ p w. false;
  read_dir = λ p w. [];
  tree = λ p w. dir nyrun_entries;
  read_to_string = λ p w. err (codes "no such file");
  create_dir_all = λ p w. (ok tt, w);
  copy = λ p q w. (ok tt, w);
  write = λ p t w. (ok tt, w);
  create = λ p w. w;
  rename = λ p q w. w;
  remove_file = λ p w. w;
  remove_dir_all = λ p w. w;
  file_size = λ p w. none;
  is_executable = λ p w. false;
  spawn = λ c w. (err (codes "no processes"), w);
  kill = λ pid w. w;
  try_wait = λ pid w. ok none;
  now = λ w. 0;
}

abbrev member_of : Item → Member
member_of (n, none) = record { name = n; is_dir = true; content = ok [] }
member_of (n, some c) = record { name = n; is_dir = false; content = ok c }

abbrev members_of : List Item → List (Result Member)
members_of [] = []
members_of (i ∷ items) = ok (member_of i) ∷ members_of items

-- The text is put behind the content of the last file.
abbrev extended : Text → List Item → List Item
extended t [] = []
extended t ((n, none) ∷ []) = (n, none) ∷ []
extended t ((n, some c) ∷ []) = (n, some (c ++ t)) ∷ []
extended t (i ∷ j ∷ items) = i ∷ extended t (j ∷ items)

abbrev recording : Zip Written
recording = record {
  read = λ p w. ok (codes "content");
  create = λ p w. (ok tt, (p, []));
  add_directory = λ n w. (ok tt, (w.0, w.1 ++ (n, none) ∷ []));
  start_file = λ n w. (ok tt, (w.0, w.1 ++ (n, some []) ∷ []));
  write_all = λ t w. (ok tt, (w.0, extended t w.1));
  finish = λ w. (ok tt, w);
  open_file = λ p w. ok tt;
  archive = λ p w. ok (members_of w.1);
}

members_of-IsArchived : (items : List Item) → IsArchived (members_of items) items
members_of-IsArchived [] = tt
members_of-IsArchived ((n, none) ∷ items) = (refl, members_of-IsArchived items)
members_of-IsArchived ((n, some c) ∷ items) = (refl, refl, members_of-IsArchived items)

extended_last :
    (t n c : Text) (items : List Item)
    → extended t (items ++ (n, some c) ∷ []) ≡ items ++ (n, some (c ++ t)) ∷ []
extended_last t n c [] = refl
extended_last t n c (i ∷ []) = refl
extended_last t n c (i ∷ j ∷ items) = ap (λ l. i ∷ l) (extended_last t n c (j ∷ items))

recording-IsWriter : IsWriter recording (λ w. w)
recording-IsWriter = record {
  created = λ p w w' e. sym (ap (λ r. r.1) e);
  directory = λ n w w' e. (sym (ap (λ r. r.1) e), λ p ne. refl);
  started = λ n w w' e. (sym (ap (λ r. r.1) e), λ p ne. refl);
  written = λ t n c items w w' l e. (
    sym (ap (λ r. r.1) e)
        ∙ ap (λ l. (w.0, extended t l)) l
        ∙ ap (λ l. (w.0, l)) (extended_last t n c items),
    λ p ne. refl,
  );
  finished = λ w w' e. (
    refl,
    (
      members_of w'.1,
      refl,
      subst (λ r. IsArchived (members_of w'.1) r.1) (sym (ap (λ r. r.1) e))
          (members_of-IsArchived w'.1),
    ),
  );
}

nyrun_entries-IsPlainEntries : IsPlainEntries nyrun_entries
unfolding IsPlainEntries is_absolute
nyrun_entries-IsPlainEntries =
    (λ e. ground arith, refl, tt, (λ e. ground arith, refl, (λ e. ground arith, refl, tt, tt), tt))

abbrev written : Written
written = (codes "b.zip", (codes "apps/", none) ∷ (codes "apps/api", some (codes "content")) ∷ [])

created : recording.create (output_path (codes "b")) ([], []) ≡ (ok tt, (codes "b.zip", []))
unfolding output_path starts_with
created = refl

elsewhere :
    (rel : Text) → is_absolute rel ≡ false → join_path nyrun_dir rel ≢ output_path (codes "b")
unfolding join_path output_path starts_with
elsewhere rel r e = ground (arith, r, e)

backed_up :
    create_backup recording_os recording (codes "b") ([], []) ≡ (ok (codes "b.zip"), written)
unfolding create_backup starts_with file_name split join_path text_eq output_path
backed_up = refl

restore_backup-create_backup_example :
    (ms : List (Result Member)) × (recording.archive (codes "b.zip") written ≡ ok ms)
    × IsArchived ms (entries_items (contents_at recording (codes "b.zip", [])) nyrun_entries [])
    × (restore_backup recording_os recording (codes "b.zip") written
        ≡ write_members recording_os recording ms written)
restore_backup-create_backup_example =
    restore_backup-create_backup recording_os recording (λ w. w) recording-IsWriter (codes "b")
      (codes "b.zip") nyrun_entries ([], []) (codes "b.zip", []) written written created refl
      nyrun_entries-IsPlainEntries elsewhere backed_up refl
