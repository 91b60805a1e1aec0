-- ===== src/State/Saving.antt =====
-- src/state.rs, `save` and `load`: what the database holds after a save, and what a load reads of it.
use nylon_run.Prelude.{
  ◌≡◌, refl, ap, Option, none, some, List, [], ◌∷◌, ◌++◌, Text, Result, ok, err, arith, any,
  starts_with, text_eq, text_eq_iff, if◌then◌else◌, codes, map_err,
}
use nylon_run.Prelude.Ends.{Ends, Ends-with_prefix, Ends-weaken, Ends-continue}
use nylon_run.Prelude.Actions.{continue, ◌>>◌}
use nylon_run.Prelude.Maps.{Map, lookup, contains_key}
use nylon_run.Protocol.{ProcessConfig}
use nylon_run.State.{
  Db, Codec, Iter, prefix, config_key, old_keys, explained, scanned, scan_keys, delete_all,
  write_all, save,
}
use nylon_run.State.Rows.{
  HasDistinctNames, contains_old_keys, lookup-rows_absent, other_key, row, rows, parsed,
}
use nylon_run.State.Laws.{IsLawful, IsFaithful}

module _ {D B : Type 0} (db : Db D B) (codec : Codec B) (law : IsLawful db)
    (faithful : IsFaithful codec) where
  abbrev HasDeleted : List Text → D → D → Type 0
  HasDeleted ks d d' =
      (j : Text) → law.view d' j ≡ (if any (λ k. text_eq k j) ks then none else law.view d j)

  -- What the bindings say of a key, or else what was there.
  abbrev written : Option B → Option B → Option B
  written none o = o
  written (some v) o = some v

  -- The bindings of `m` were added, and it parses to the configurations.
  abbrev HasWritten : Map B → List ProcessConfig → D → D → Type 0
  HasWritten m cs d d' =
      (parsed codec.from_slice m ≡ cs)
      × ((j : Text) → law.view d' j ≡ written (lookup j m) (law.view d j))

  -- Under the prefix stand the configurations; all else is as before.
  abbrev pub HasSaved : List ProcessConfig → D → D → Type 0
  HasSaved cs d d' =
      (parsed codec.from_slice (rows codec cs) ≡ cs)
      × ((j : Text)
          → law.view d' j
            ≡ (if starts_with prefix j then lookup j (rows codec cs) else law.view d j))

  delete_all-view :
      (ks : List Text) (d : D) → Ends (λ u. HasDeleted ks d) (delete_all db codec ks d)
  unfolding delete_all explained
  delete_all-view [] d = λ j. refl
  delete_all-view (k ∷ ks) d =
      Ends-continue
        (λ u d'. (j : Text) → law.view d' j ≡ (if text_eq k j then none else law.view d j))
        (λ u. HasDeleted (k ∷ ks) d) (λ u. delete_all db codec ks)
        (explained db codec (codes "delete error: ") (db.delete k) d)
        (Ends-with_prefix (λ t. codes "delete error: " ++ t) _ (db.delete k d)
          (law.delete-view k d))
        (λ u d1 h.
          Ends-weaken (λ u. HasDeleted ks d1) (λ u. HasDeleted (k ∷ ks) d)
            (delete_all db codec ks d1) (delete_all-view ks d1)
            (λ u d2 g j. ground (arith, h j, g j)))

  write_all-view :
      (cs : List ProcessConfig) (d : D)
      → HasDistinctNames cs
      → Ends (λ u. HasWritten (rows codec cs) cs d) (write_all db codec cs d)
  unfolding write_all explained lookup
  write_all-view [] d h = (refl, λ j. refl)
  write_all-view (c ∷ cs) d (a, h) = wrote (λ d. write_all-view cs d h) (codec.to_vec c) refl
    where
      wrote :
          ((d : D) → Ends (λ u. HasWritten (rows codec cs) cs d) (write_all db codec cs d))
          → (r : Result B) → codec.to_vec c ≡ r
          → Ends
              (λ u. HasWritten (row c.name r (rows codec cs)) (c ∷ cs) d)
              (continue
                (λ v.
                  explained db codec (codes "put error: ") (db.put (config_key c.name) v)
                  >> write_all db codec cs)
                (map_err (codes "serialize error: ") r, d))
      wrote rest (err e) q = tt
      wrote rest (ok v) q =
          Ends-continue
            (λ u d'.
              (j : Text)
              → law.view d' j ≡ (if text_eq (config_key c.name) j then some v else law.view d j))
            (λ u. HasWritten (row c.name (ok v) (rows codec cs)) (c ∷ cs) d)
            (λ u. write_all db codec cs)
            (explained db codec (codes "put error: ") (db.put (config_key c.name) v) d)
            (Ends-with_prefix (λ t. codes "put error: " ++ t) _ (db.put (config_key c.name) v d)
              (law.put-view (config_key c.name) v d))
            (λ u d1 g.
              Ends-weaken (λ u. HasWritten (rows codec cs) cs d1)
                (λ u. HasWritten (row c.name (ok v) (rows codec cs)) (c ∷ cs) d)
                (write_all db codec cs d1) (rest d1)
                (λ u d2 k. (
                  rw (faithful.from_slice-to_vec c v q) (ap (λ l. c ∷ l) k.0),
                  λ j. ground (
                    arith,
                    g j,
                    k.1 j,
                    text_eq_iff (config_key c.name) j,
                    lookup-rows_absent codec c.name cs a,
                  ),
                )))

  -- What a save does once it has the keys of a complete scan.
  rewritten :
      (cs : List ProcessConfig) (it : Iter B) (ks : List Text) (d : D)
      → HasDistinctNames cs
      → db.scan_prefix prefix d ≡ ok it
      → old_keys it ≡ ok ks
      → Ends
          (λ u. HasSaved cs d)
          ((delete_all db codec ks
              >> (write_all db codec cs >> explained db codec (codes "flush error: ") db.flush))
            d)
  unfolding explained contains_key
  rewritten cs it ks d h e q =
      Ends-continue (λ u. HasDeleted ks d) (λ u. HasSaved cs d)
        (λ u. write_all db codec cs >> explained db codec (codes "flush error: ") db.flush)
        (delete_all db codec ks d) (delete_all-view ks d)
        (λ u d1 gone.
          Ends-continue (λ u. HasWritten (rows codec cs) cs d1) (λ u. HasSaved cs d)
            (λ u. explained db codec (codes "flush error: ") db.flush) (write_all db codec cs d1)
            (write_all-view cs d1 h)
            (λ u d2 there.
              Ends-with_prefix (λ t. codes "flush error: " ++ t) (λ u. HasSaved cs d) (db.flush d2)
                (Ends-weaken (λ u d3. (j : Text) → law.view d3 j ≡ law.view d2 j)
                  (λ u. HasSaved cs d) (db.flush d2) (law.flush-view d2)
                  (λ u d3 same. (there.0, λ j. key j (same j) (there.1 j) (gone j))))))
    where
      key :
          {d1 d2 d3 : D} (j : Text)
          → law.view d3 j ≡ law.view d2 j
          → law.view d2 j ≡ written (lookup j (rows codec cs)) (law.view d1 j)
          → law.view d1 j ≡ (if any (λ k. text_eq k j) ks then none else law.view d j)
          → law.view d3 j
            ≡ (if starts_with prefix j then lookup j (rows codec cs) else law.view d j)
      key j a b c =
          let (complete, found) = contains_old_keys it ks q j in
          ground (arith, law.scan-view prefix d it e complete j, other_key codec j cs)

  -- After a save the configurations are what stands under their prefix; all else is as before.
  pub save-view :
      (cs : List ProcessConfig) (d : D)
      → HasDistinctNames cs
      → Ends (λ u. HasSaved cs d) (save db codec cs d)
  unfolding save scanned scan_keys explained
  save-view cs d h = from_scan (db.scan_prefix prefix d) refl
    where
      rest : List Text → D → Result (Unit {0}) × D
      rest ks =
          delete_all db codec ks
          >> (write_all db codec cs >> explained db codec (codes "flush error: ") db.flush)

      from_keys :
          (it : Iter B) (r : Result (List Text))
          → db.scan_prefix prefix d ≡ ok it
          → old_keys it ≡ r
          → Ends (λ u. HasSaved cs d) (continue rest (r, d))
      from_keys it (ok ks) e q = rewritten cs it ks d h e q
      from_keys it (err m) e q = tt

      from_scan :
          (r : Result (Iter B))
          → db.scan_prefix prefix d ≡ r
          → Ends
              (λ u. HasSaved cs d)
              (continue rest (scan_keys db codec (map_err (codes "scan error: ") r), d))
      from_scan (ok it) e = from_keys it (old_keys it) e refl
      from_scan (err m) e = tt
