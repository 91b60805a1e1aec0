-- ===== src/Backup/Archive.antt =====
-- src/main.rs: an archive that `create_backup` wrote is restored by `restore_backup`.
use nylon_run.Prelude.{
  ◌≡◌, ◌≢◌, refl, ap, sym, subst, ◌∙◌, false, List, append-nil, append_assoc, none, some, [], ◌∷◌,
  ◌++◌, Text, Result, ok, err, Action, codes, unwrap_or, Bool-cases, inl, inr,
}
use nylon_run.Prelude.Actions.{continue, with_prefix, on_error}
use nylon_run.Paths.{join_path, is_absolute, file_name}
use nylon_run.System.{Os}
use nylon_run.System.Trees.{Tree, Entries, file, dir, nil, cons}
use nylon_run.Backup.{
  Member, Zip, nyrun_dir, output_path, is_skipped, add_file, walk_entry, walk_dir, walk_root,
  create_backup, restore_backup,
}
use nylon_run.Backup.Guard.{write_members, restore_backup-relative}
use nylon_run.Backup.Names.{
  AfterOk, after_with_prefix, after_continue, archived-IsRelative, join-IsBelow, IsBelow,
  IsPlainTree, IsPlainEntries, IsWriter, IsArchived, Item, tree_items, entries_items,
  entries_items-IsBelow,
}

-- What a read gives.
abbrev text_or : Result Text → Text
text_or (ok t) = t
text_or (err e) = []

-- The content of each file below the directory.
abbrev pub contents_at : {W : Type 0} → Zip W → W → Text → Text
contents_at zip w rel = text_or (zip.read (join_path nyrun_dir rel) w)

module _ {W : Type 0} (os : Os W) (zip : Zip W) (pending : W → Text × List Item) (path : Text)
    (w0 : W) where
  -- The writer writes the file at `path` and has these members; no other file changed since `w0`.
  abbrev IsPending : List Item → W → Type 0
  IsPending items w =
      (pending w ≡ (path, items)) × ((p : Text) → p ≢ path → zip.read p w ≡ zip.read p w0)

  module _ (writer : IsWriter zip pending)
      (outside : (rel : Text) → IsBelow rel → join_path nyrun_dir rel ≢ path) where
    abbrev Reads : W → W → Type 0
    Reads w w' = (p : Text) → p ≢ (pending w).0 → zip.read p w' ≡ zip.read p w

    stepped :
        (items items' : List Item) (w w' : W)
        → IsPending items w
        → pending w' ≡ ((pending w).0, items')
        → Reads w w'
        → IsPending items' w'
    stepped items items' w w' (p, k) e r =
        (e ∙ ap (λ x. (x.0, items')) p, λ q ne. r q (λ z. ne (z ∙ ap (λ x. x.0) p)) ∙ k q ne)

    -- A call of the writer that adds these members if it succeeds.
    after :
        (f : Text → Text) (m : Action W (Unit {0})) (items : List Item) (w : W)
        → ((w' : W) → m w ≡ (ok tt, w') → IsPending items w')
        → AfterOk (IsPending items) (on_error f m w)
    after f m items w h = after_with_prefix (IsPending items) f (m w) (cases (m w) refl)
      where
        cases : (p : Result (Unit {0}) × W) → m w ≡ p → AfterOk (IsPending items) p
        cases (ok u, w') e = h w' e
        cases (err x, w') e = tt

    written_after :
        (f : Text → Text) (rel t : Text) (items : List Item) (w : W)
        → IsPending (items ++ (rel, some []) ∷ []) w
        → AfterOk (IsPending (items ++ (rel, some t) ∷ [])) (on_error f (zip.write_all t) w)
    written_after f rel t items w h =
        after f (zip.write_all t) (items ++ (rel, some t) ∷ []) w (λ w' e.
          let (p, r) = writer.written t rel [] items w w' (ap (λ x. x.1) h.0) e in
          stepped (items ++ (rel, some []) ∷ []) (items ++ (rel, some t) ∷ []) w w' h p r)

    add_file-IsPending :
        (rel : Text) (items : List Item) (w : W)
        → IsBelow rel
        → IsPending items w
        → AfterOk
            (IsPending (items ++ (rel, some (contents_at zip w0 rel)) ∷ []))
            (add_file os zip rel w)
    unfolding add_file
    add_file-IsPending rel items w b h =
        after_continue (IsPending (items ++ (rel, some []) ∷ [])) _ _ _
          (after _ (zip.start_file rel) (items ++ (rel, some []) ∷ []) w (λ w' e.
            let (p, r) = writer.started rel w w' e in
            stepped items (items ++ (rel, some []) ∷ []) w w' h
              (p ∙ ap (λ x. ((pending w).0, x.1 ++ (rel, some []) ∷ [])) h.0) r))
          (λ u w1 h1.
            read_and_written rel items w1 h1 (zip.read (join_path nyrun_dir rel) w1)
              (sym (h1.1 (join_path nyrun_dir rel) (outside rel b))))
      where
        read_and_written :
            (rel : Text) (items : List Item) (w1 : W)
            → IsPending (items ++ (rel, some []) ∷ []) w1
            → (r : Result Text) → zip.read (join_path nyrun_dir rel) w0 ≡ r
            → AfterOk (IsPending (items ++ (rel, some (contents_at zip w0 rel)) ∷ [])) (
                continue
                  (λ content.
                    on_error (λ e. codes "zip write error: " ++ e) (zip.write_all content))
                  (with_prefix
                    (λ e. codes "read file error " ++ join_path nyrun_dir rel ++ codes ": " ++ e)
                    (r, w1)))
        read_and_written rel items w1 h1 (err m) e = tt
        read_and_written rel items w1 h1 (ok t) e =
            subst
              (λ c.
                AfterOk (IsPending (items ++ (rel, some c) ∷ []))
                  (on_error (λ e. codes "zip write error: " ++ e) (zip.write_all t) w1))
              (sym (ap text_or e)) (written_after _ rel t items w1 h1)

    mutual
      unfolding walk_entry walk_dir IsPlainTree IsPlainEntries tree_items entries_items

      walk_entry-IsPending :
          (t : Tree) (rel : Text) (items : List Item) (w : W)
          → IsPlainTree t
          → rel ≢ []
          → IsBelow rel
          → IsPending items w
          → AfterOk
              (IsPending (items ++ tree_items (contents_at zip w0) t rel))
              (walk_entry os zip t rel w)
      walk_entry-IsPending file rel items w p ne b h =
          elim (Bool-cases (is_skipped (unwrap_or (file_name (join_path nyrun_dir rel)) []))) [
            | inl e ↦ rw (e, append-nil) h
            | inr e ↦ rw e (add_file-IsPending rel items w b h)
          ]
      walk_entry-IsPending (dir es) rel items w p ne b h =
          after_continue (IsPending (items ++ (rel ++ codes "/", none) ∷ [])) _ _ _
            (after _ (zip.add_directory (rel ++ codes "/")) (items ++ (rel ++ codes "/", none) ∷ [])
              w
              (λ w' e.
                let (q, r) = writer.directory rel w w' e in
                stepped items (items ++ (rel ++ codes "/", none) ∷ []) w w' h
                  (q ∙ ap (λ x. ((pending w).0, x.1 ++ (rel ++ codes "/", none) ∷ [])) h.0) r))
            (λ u w' h'.
              subst (λ l. AfterOk (IsPending l) (walk_dir os zip es rel w'))
                (append_assoc items ((rel ++ codes "/", none) ∷ [])
                  (entries_items (contents_at zip w0) es rel))
                (walk_dir-IsPending es rel (items ++ (rel ++ codes "/", none) ∷ []) w' p b h'))

      walk_dir-IsPending :
          (es : Entries) (rel : Text) (items : List Item) (w : W)
          → IsPlainEntries es
          → IsBelow rel
          → IsPending items w
          → AfterOk
              (IsPending (items ++ entries_items (contents_at zip w0) es rel))
              (walk_dir os zip es rel w)
      walk_dir-IsPending nil rel items w p b h = rw append-nil h
      walk_dir-IsPending (cons name t es) rel items w (ne, a, pt, p) b h =
          let (below, nonempty) = join-IsBelow rel name b ne a in
          let first = tree_items (contents_at zip w0) t (join_path rel name) in
          after_continue (IsPending (items ++ first)) _ _ _
            (walk_entry-IsPending t (join_path rel name) items w pt nonempty below h)
            (λ u w' h'.
              subst (λ l. AfterOk (IsPending l) (walk_dir os zip es rel w'))
                (append_assoc items first (entries_items (contents_at zip w0) es rel))
                (walk_dir-IsPending es rel (items ++ first) w' p b h'))

module _ {W : Type 0} (os : Os W) (zip : Zip W) (pending : W → Text × List Item) where
  abbrev IsBackedUp : List Item → Result Text × W → Type 0
  IsBackedUp items (err e, w) = Unit
  IsBackedUp items (ok path, w) =
      (zip.open_file path w ≡ ok tt)
      × ((ms : List (Result Member)) × (zip.archive path w ≡ ok ms) × IsArchived ms items)

  backed_up :
      (items : List Item) (Q : W → Type 0) (f : Unit {0} → Action W Text)
      (p : Result (Unit {0}) × W)
      → AfterOk Q p
      → ((w : W) → Q w → IsBackedUp items (f tt w))
      → IsBackedUp items (continue f p)
  backed_up items Q f (ok u, w) h k = k w h
  backed_up items Q f (err e, w) h k = tt

  module _ (writer : IsWriter zip pending) where
    finished-IsBackedUp :
        (path : Text) (items : List Item) (w0 w : W) (f : Text → Text)
        → IsPending os zip pending path w0 items w
        → IsBackedUp items (continue (λ u w'. (ok path, w')) (on_error f zip.finish w))
    finished-IsBackedUp path items w0 w f (p, h) = cases (zip.finish w) refl
      where
        cases :
            (r : Result (Unit {0}) × W)
            → zip.finish w ≡ r
            → IsBackedUp items (continue (λ u w'. (ok path, w')) (with_prefix f r))
        cases (err e, w') q = tt
        cases (ok u, w') q =
            subst
              (λ x.
                (zip.open_file x.0 w' ≡ ok tt)
                × ((ms : List (Result Member)) × (zip.archive x.0 w' ≡ ok ms) × IsArchived ms x.1))
              p (writer.finished w w' q)

    create_backup-IsBackedUp :
        (name : Text) (entries : Entries) (w w1 : W)
        → zip.create (output_path name) w ≡ (ok tt, w1)
        → os.tree nyrun_dir w1 ≡ dir entries
        → IsPlainEntries entries
        → ((rel : Text) → is_absolute rel ≡ false → join_path nyrun_dir rel ≢ output_path name)
        → IsBackedUp (entries_items (contents_at zip w1) entries []) (create_backup os zip name w)
    unfolding create_backup walk_root
    create_backup-IsBackedUp name entries w w1 c t plain outside =
        elim (Bool-cases (os.exists nyrun_dir w)) [
          | inr e ↦ rw e tt
          | inl e ↦
              rw (e, c, t)
                (backed_up _
                  (IsPending os zip pending (output_path name) w1
                    (entries_items (contents_at zip w1) entries []))
                  _ _
                  (walk_dir-IsPending os zip pending (output_path name) w1 writer outside entries []
                    [] w1 plain (unfold is_absolute in refl)
                    (writer.created (output_path name) w w1 c, λ q ne. refl))
                  (λ w2 h2. finished-IsBackedUp (output_path name) _ w1 w2 _ h2))
        ]

    -- Let the zip writer do what its documentation says. Let the file of the backup not lie below the
    -- directory, and let the directory, when that file has been made, hold `entries`, in which no name is
    -- empty or begins with a slash. If the backup succeeds, then its archive has exactly what stands in the
    -- directory, at every depth, but for sockets and pid files: each directory and, with its content, each
    -- file. A restore of it for which the directory can be made goes on to write its members one after
    -- another, each to its joined path, and refuses none.
    pub restore_backup-create_backup :
        (name path : Text) (entries : Entries) (w w1 w' w2 : W)
        → zip.create (output_path name) w ≡ (ok tt, w1)
        → os.tree nyrun_dir w1 ≡ dir entries
        → IsPlainEntries entries
        → ((rel : Text) → is_absolute rel ≡ false → join_path nyrun_dir rel ≢ output_path name)
        → create_backup os zip name w ≡ (ok path, w')
        → os.create_dir_all nyrun_dir w' ≡ (ok tt, w2)
        → (ms : List (Result Member)) × (zip.archive path w' ≡ ok ms)
          × IsArchived ms (entries_items (contents_at zip w1) entries [])
          × (restore_backup os zip path w' ≡ write_members os zip ms w2)
    restore_backup-create_backup name path entries w w1 w' w2 c t plain outside e d =
        let items = entries_items (contents_at zip w1) entries [] in
        let (o, (ms, a, r)) =
          subst (IsBackedUp items) e
            (create_backup-IsBackedUp name entries w w1 c t plain outside) in
        (
          ms,
          a,
          r,
          restore_backup-relative os zip path w' w2 ms o a d (
              archived-IsRelative ms items r (
                entries_items-IsBelow (contents_at zip w1) entries [] plain
                  (unfold is_absolute in refl))),
        )
