-- ===== src/Backup/Names.antt =====
-- src/main.rs: the names in a directory and in an archive, and what the zip crate promises of a writer.
use nylon_run.Prelude.{
  ◌≡◌, ◌≢◌, refl, ap, ◌∙◌, false, Bool-cases, inl, inr, Option, none, some, unwrap_or,
  if◌then◌else◌, List, [], ◌∷◌, ◌++◌, Text, Result, ok, err, Action, All, All-append, codes, arith,
}
use nylon_run.Prelude.Actions.{continue, with_prefix}
use nylon_run.Paths.{join_path, is_absolute, file_name}
use nylon_run.Paths.Laws.{is_absolute-join_path}
use nylon_run.System.Trees.{Tree, Entries, file, dir, nil, cons}
use nylon_run.Backup.{Member, Zip, nyrun_dir, is_skipped}
use nylon_run.Backup.Guard.{IsRelative}

-- The names in a directory are not empty and have no slash in front.
unfoldable mutual
  pub IsPlainTree : Tree → Type 0
  IsPlainTree file = Unit
  IsPlainTree (dir entries) = IsPlainEntries entries

  pub IsPlainEntries : Entries → Type 0
  IsPlainEntries nil = Unit
  IsPlainEntries (cons name tree rest) =
      (name ≢ []) × (is_absolute name ≡ false) × IsPlainTree tree × IsPlainEntries rest

abbrev pub IsBelow : Text → Type 0
IsBelow n = is_absolute n ≡ false

-- A member by its name: a directory, or a file with its content.
abbrev pub Item : Type 0
Item = Text × Option Text

-- The members of an archive have these names and, for files, contents, in their order.
abbrev pub IsArchived : List (Result Member) → List Item → Type 0
IsArchived [] [] = Unit
IsArchived (ok m ∷ ms) ((n, none) ∷ items) = (m.name ≡ n) × IsArchived ms items
IsArchived (ok m ∷ ms) ((n, some c) ∷ items) =
    (m.name ≡ n) × (m.content ≡ ok c) × IsArchived ms items
IsArchived _ _ = ⊥

-- What stands in a directory, sockets and pid files left out: each directory before what stands in it, by
-- the paths below the top.
unfoldable mutual
  pub tree_items : (Text → Text) → Tree → Text → List Item
  tree_items contents file rel =
      if is_skipped (unwrap_or (file_name (join_path nyrun_dir rel)) [])
      then []
      else (rel, some (contents rel)) ∷ []
  tree_items contents (dir entries) rel =
      (rel ++ codes "/", none) ∷ entries_items contents entries rel

  pub entries_items : (Text → Text) → Entries → Text → List Item
  entries_items contents nil rel = []
  entries_items contents (cons name tree rest) rel =
      tree_items contents tree (join_path rel name) ++ entries_items contents rest rel

-- What the zip crate says of a writer, whose path and members so far are `pending`: where its calls
-- succeed, `add_directory` adds a directory, `start_file` an empty file, `write_all` appends to the last
-- file, the finished archive has the members in their order, and no other file changes.
pub record IsWriter {W : Type 0} (zip : Zip W) (pending : W → Text × List Item) : Type 0 where
  pub created : (p : Text) (w w' : W) → zip.create p w ≡ (ok tt, w') → pending w' ≡ (p, [])
  pub directory :
      (n : Text) (w w' : W)
      → zip.add_directory (n ++ codes "/") w ≡ (ok tt, w')
      → (pending w' ≡ ((pending w).0, (pending w).1 ++ (n ++ codes "/", none) ∷ []))
        × ((p : Text) → p ≢ (pending w).0 → zip.read p w' ≡ zip.read p w)
  pub started :
      (n : Text) (w w' : W)
      → zip.start_file n w ≡ (ok tt, w')
      → (pending w' ≡ ((pending w).0, (pending w).1 ++ (n, some []) ∷ []))
        × ((p : Text) → p ≢ (pending w).0 → zip.read p w' ≡ zip.read p w)
  pub written :
      (t n c : Text) (items : List Item) (w w' : W)
      → (pending w).1 ≡ items ++ (n, some c) ∷ []
      → zip.write_all t w ≡ (ok tt, w')
      → (pending w' ≡ ((pending w).0, items ++ (n, some (c ++ t)) ∷ []))
        × ((p : Text) → p ≢ (pending w).0 → zip.read p w' ≡ zip.read p w)
  pub finished :
      (w w' : W)
      → zip.finish w ≡ (ok tt, w')
      → (zip.open_file (pending w).0 w' ≡ ok tt)
        × ((ms : List (Result Member)) × (zip.archive (pending w).0 w' ≡ ok ms)
            × IsArchived ms (pending w).1)

module _ {W A : Type 0} where
  abbrev pub AfterOk : (W → Type 0) → Result A × W → Type 0
  AfterOk Q (ok a, w) = Q w
  AfterOk Q (err e, w) = Unit

  pub after_with_prefix :
      (Q : W → Type 0) (f : Text → Text) (p : Result A × W)
      → AfterOk Q p
      → AfterOk Q (with_prefix f p)
  after_with_prefix Q f (ok a, w) h = h
  after_with_prefix Q f (err e, w) h = tt

module _ {W A B : Type 0} where
  pub after_continue :
      (Q R : W → Type 0) (f : A → Action W B) (p : Result A × W)
      → AfterOk Q p
      → ((a : A) (w : W) → Q w → AfterOk R (f a w))
      → AfterOk R (continue f p)
  after_continue Q R f (ok a, w) h k = k a w h
  after_continue Q R f (err e, w) h k = tt

pub archived-IsRelative :
    (ms : List (Result Member)) (items : List Item)
    → IsArchived ms items
    → All (λ i. IsBelow i.0) items
    → All IsRelative ms
archived-IsRelative [] [] h b = tt
archived-IsRelative (ok m ∷ ms) ((n, none) ∷ items) (e, h) (a, b) =
    (ap is_absolute e ∙ a, archived-IsRelative ms items h b)
archived-IsRelative (ok m ∷ ms) ((n, some c) ∷ items) (e, _, h) (a, b) =
    (ap is_absolute e ∙ a, archived-IsRelative ms items h b)
archived-IsRelative [] (i ∷ items) h b = elim h [ ]
archived-IsRelative (ok m ∷ ms) [] h b = elim h [ ]
archived-IsRelative (err e ∷ ms) items h b = elim h [ ]

pub join-IsBelow :
    (rel name : Text)
    → IsBelow rel
    → name ≢ []
    → IsBelow name
    → IsBelow (join_path rel name) × (join_path rel name ≢ [])
unfolding join_path
join-IsBelow [] name r ne h = rw h (h, ne)
join-IsBelow (c ∷ rel) name r ne h =
    (is_absolute-join_path (c ∷ rel) name (λ e. cc) h ∙ r, ground arith)

pub slash-IsBelow : (r : Text) → r ≢ [] → IsBelow r → IsBelow (r ++ codes "/")
unfolding is_absolute
slash-IsBelow [] ne b = absurd (ne refl)
slash-IsBelow (c ∷ r) ne b = b

-- The names are relative.
mutual
  unfolding tree_items entries_items IsPlainTree IsPlainEntries

  tree_items-IsBelow :
      (contents : Text → Text) (t : Tree) (rel : Text)
      → IsPlainTree t
      → rel ≢ []
      → IsBelow rel
      → All (λ i. IsBelow i.0) (tree_items contents t rel)
  tree_items-IsBelow contents file rel p ne b =
      elim (Bool-cases (is_skipped (unwrap_or (file_name (join_path nyrun_dir rel)) []))) [
        | inl e ↦ rw e tt
        | inr e ↦ rw e (b, tt)
      ]
  tree_items-IsBelow contents (dir es) rel p ne b =
      (slash-IsBelow rel ne b, entries_items-IsBelow contents es rel p b)

  pub entries_items-IsBelow :
      (contents : Text → Text) (es : Entries) (rel : Text)
      → IsPlainEntries es
      → IsBelow rel
      → All (λ i. IsBelow i.0) (entries_items contents es rel)
  entries_items-IsBelow contents nil rel p b = tt
  entries_items-IsBelow contents (cons name t es) rel (ne, a, pt, p) b =
      let (below, nonempty) = join-IsBelow rel name b ne a in
      All-append (λ i. IsBelow i.0) (tree_items contents t (join_path rel name))
        (entries_items contents es rel)
        (tree_items-IsBelow contents t (join_path rel name) pt nonempty below)
        (entries_items-IsBelow contents es rel p b)
