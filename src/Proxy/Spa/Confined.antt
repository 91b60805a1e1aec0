-- ===== src/Proxy/Spa/Confined.antt =====
-- src/proxy.rs: which file `serve_spa` reads.
use nylon_run.Prelude.{
  ◌≡◌, refl, ◌≢◌, true, false, Option, none, some, [], Text, codes, Bool-cases, inl, inr, ◌⊎◌,
}
use nylon_run.Paths.{join_path, path_starts_with, is_absolute}
use nylon_run.Paths.Laws.{path_starts_with-join_path}
use nylon_run.Proxy.Spa.{Files, resolve, inside, index_html}

index_relative : is_absolute (codes "index.html") ≡ false
unfolding is_absolute
index_relative = refl

module _ (fs : Files) where
  inside-confined :
      (dir : Text) (o : Option Text) → dir ≢ [] → path_starts_with (inside fs dir o) dir ≡ true
  unfolding inside
  inside-confined dir none h = path_starts_with-join_path dir (index_html fs) h index_relative
  inside-confined dir (some p) h = elim (Bool-cases (path_starts_with p dir)) [
    | inl e ↦ rw e e
    | inr e ↦ rw e (path_starts_with-join_path dir (index_html fs) h index_relative)
  ]

  resolve-prefix : (dir file : Text) → dir ≢ [] → path_starts_with (resolve fs dir file) dir ≡ true
  unfolding resolve
  resolve-prefix dir file h = elim (Bool-cases (fs.exists file)) [
    | inl e ↦ rw e (inside-confined dir (fs.canonicalize file) h)
    | inr e ↦ rw e (path_starts_with-join_path dir (index_html fs) h index_relative)
  ]

  -- The file of the request as the file system resolves it, or the index.html of the directory.
  abbrev pub IsConfined : Text → Text → Text → Type 0
  IsConfined dir file read =
      (path_starts_with read dir ≡ true)
      × ((read ≡ join_path dir (index_html fs))
          ⊎ ((fs.exists file ≡ true) × (fs.canonicalize file ≡ some read)))

  found :
      (dir file : Text) (o : Option Text)
      → fs.canonicalize file ≡ o
      → (inside fs dir o ≡ join_path dir (index_html fs))
        ⊎ (fs.canonicalize file ≡ some (inside fs dir o))
  unfolding inside
  found dir file none e = inl refl
  found dir file (some p) e = elim (Bool-cases (path_starts_with p dir)) [
    | inl s ↦ rw s (inr e)
    | inr s ↦ rw s (inl refl)
  ]

  -- Let the canonical directory of the SPA not be the empty path. Whatever file is asked for, what is read
  -- has the directory as its prefix, and it is either the canonical path of that file, which exists, or
  -- the name index.html in the directory, whatever stands there.
  pub resolve-IsConfined : (dir file : Text) → dir ≢ [] → IsConfined dir file (resolve fs dir file)
  resolve-IsConfined dir file h =
      (resolve-prefix dir file h, resolved (Bool-cases (fs.exists file)))
    where
      resolved :
          (fs.exists file ≡ true) ⊎ (fs.exists file ≡ false)
          → (resolve fs dir file ≡ join_path dir (index_html fs))
            ⊎ ((fs.exists file ≡ true) × (fs.canonicalize file ≡ some (resolve fs dir file)))
      resolved (inr e) = unfold resolve in rw e (inl refl)
      resolved (inl e) =
          unfold resolve in
          rw e (elim (found dir file (fs.canonicalize file) refl) [
            | inl i ↦ inl i
            | inr c ↦ inr (refl, c)
          ])
