-- ===== src/Oci/Pull/Guard.antt =====
-- src/oci.rs, `extract_tar_entries`: what becomes of one entry of a layer, by its path.
use nylon_run.Prelude.{
  ◌≡◌, refl, ◌≢◌, ap, subst, ◌∙◌, false, Option, none, some, List, [], ◌∷◌, ◌++◌, append_assoc,
  Text, codes, arith, strip_prefix, Lacks, unwrap_or,
}
use nylon_run.Paths.{slash, is_absolute, file_name, join_path, names, components}
use nylon_run.Paths.Laws.{path_starts_with-join_path, components-join_path}
use nylon_run.Paths.Parents.{IsParted, file_name-IsParted}
use nylon_run.System.{Os}
use nylon_run.Oci.Pull.{
  Registry, TarEntry, extract_entry, marked, plain_entry, whiteout_name, whiteout_target,
}

strip_prefix-some : (p s r : Text) → strip_prefix p s ≡ some r → s ≡ p ++ r
unfolding strip_prefix
strip_prefix-some [] s r e = ground (arith, e)
strip_prefix-some (c ∷ p) [] r e = cc
strip_prefix-some (c ∷ p) (a ∷ s) r e = ground (arith, strip_prefix-some p s r, e)

Lacks-is_absolute : (s : Text) → Lacks slash s → is_absolute s ≡ false
unfolding is_absolute
Lacks-is_absolute [] h = refl
Lacks-is_absolute (c ∷ s) (a, h) = ground (arith, a)

module _ {W : Type 0} (os : Os W) (registry : Registry W) where
  -- Without a marked name the entry is unpacked. With one, the file and the directory at a path are deleted
  -- that has the components of the image's directory, then those of the marker's directory, then that name.
  abbrev pub IsExtracted : Text → TarEntry → W → W → Option Text → Type 0
  IsExtracted dest_dir entry w w' none = w' ≡ registry.unpack_in entry dest_dir w
  IsExtracted dest_dir entry w w' (some name) =
      (target : Text) × (dirs : List Text) × (w'
        ≡ os.remove_dir_all target (os.remove_file target w))
      × (names entry.path ≡ dirs ++ (codes ".wh." ++ name) ∷ [])
      × (components target ≡ components dest_dir ++ (dirs ++ names name))

  target_components :
      (dest_dir dir name : Text)
      → dest_dir ≢ []
      → is_absolute dir ≡ false
      → Lacks slash name
      → components (join_path (join_path dest_dir dir) name)
        ≡ components dest_dir ++ (names dir ++ names name)
  target_components dest_dir dir name h r plain =
      components-join_path (join_path dest_dir dir) name (joined dest_dir h)
        (Lacks-is_absolute name plain)
      ∙ ap (λ l. l ++ names name) (components-join_path dest_dir dir h r)
      ∙ append_assoc (components dest_dir) (names dir) (names name)
    where
      joined : (d : Text) → d ≢ [] → join_path d dir ≢ []
      joined [] ne e = ne refl
      joined (c ∷ d) ne e = unfold join_path in ground (arith, r, e)

  -- Let the directory of the image not be the empty path. An entry of a layer with a relative path is never
  -- skipped, however many `..` are in it. If its file name is not that of a whiteout marker, the entry is
  -- unpacked. If it is `.wh.` and a name, then what has that name in the directory of the marker, joined to the
  -- directory of the image, is deleted, as a file and as a directory; with an empty name or `.` that is the
  -- directory of the marker itself.
  pub extract_entry-IsExtracted :
      (dest_dir : Text) (entry : TarEntry) (w : W)
      → dest_dir ≢ []
      → is_absolute entry.path ≡ false
      → IsExtracted dest_dir entry w
          (extract_entry os registry dest_dir entry w)
          (whiteout_name os registry (file_name entry.path))
  unfolding extract_entry marked plain_entry whiteout_name whiteout_target
  extract_entry-IsExtracted dest_dir entry w h r = by_name (file_name entry.path) refl
    where
      by_marker :
          (f : Text)
          → IsParted entry.path f
          → (o : Option Text) → strip_prefix (codes ".wh.") f ≡ o
          → IsExtracted dest_dir entry w (marked os registry o dest_dir entry w) o
      by_marker f p none e = rw (path_starts_with-join_path dest_dir entry.path h r) refl
      by_marker f p (some name) e =
          let f_is = strip_prefix-some (codes ".wh.") f name e in
          (
            join_path (join_path dest_dir p.dir) name,
            names p.dir,
            ap
                (λ o.
                  let target = join_path (join_path dest_dir (unwrap_or o [])) name in
                  os.remove_dir_all target (os.remove_file target w))
                p.parent_is,
            p.names_are ∙ ap (λ g. names p.dir ++ g ∷ []) f_is,
            target_components dest_dir p.dir name h p.dir_relative
                (plain_name (subst (Lacks slash) f_is p.plain_name)),
          )
        where
          plain_name : Lacks slash (codes ".wh." ++ name) → Lacks slash name
          plain_name (_, (_, (_, (_, h)))) = h

      by_name :
          (o : Option Text)
          → file_name entry.path ≡ o
          → IsExtracted dest_dir entry w
              (marked os registry (whiteout_name os registry o) dest_dir entry w)
              (whiteout_name os registry o)
      by_name none e = rw (path_starts_with-join_path dest_dir entry.path h r) refl
      by_name (some f) e =
          by_marker f (file_name-IsParted entry.path f r e) (strip_prefix (codes ".wh.") f) refl
