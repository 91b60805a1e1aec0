-- ===== src/State/Loading.antt =====
-- src/state.rs: a load after a save, the keys a save leaves alone, and the old file of the migration.
use mathlib.Core.List.{Perm}
use nylon_run.Prelude.{
  ◌≡◌, refl, sym, ap, ◌∙◌, subst, false, List, [], ◌∷◌, ◌⊎◌, inl, inr, Text, Result, ok, err, arith,
  starts_with, Bool-cases,
}
use nylon_run.Prelude.MapPerms.{Perm-maps}
use nylon_run.Prelude.Ends.{Ends}
use nylon_run.Protocol.{ProcessConfig}
use nylon_run.System.{Os}
use nylon_run.State.{
  Db, Codec, Iter, prefix, json_path, collect, save, load, migrated, migrate_configs,
  migrate_json_to_slatedb,
}
use nylon_run.State.Rows.{
  HasDistinctNames, collect-entries, Perm-parsed, rows-IsDistinct, other_key, rows, parsed,
}
use nylon_run.State.Laws.{entries, IsComplete, IsLawful, IsFaithful}
use nylon_run.State.Saving.{HasSaved, save-view}

module _ {D B : Type 0} (db : Db D B) (codec : Codec B) (law : IsLawful db)
    (faithful : IsFaithful codec) where
  saved :
      (cs : List ProcessConfig) (d d' : D)
      → HasDistinctNames cs
      → save db codec cs d ≡ (ok tt, d')
      → HasSaved db codec law faithful cs d d'
  saved cs d d' h e =
      subst (Ends (λ u. HasSaved db codec law faithful cs d)) e
        (save-view db codec law faithful cs d h)

  load-scan :
      (d : D) (it : Iter B)
      → db.scan_prefix prefix d ≡ ok it
      → load db codec d ≡ collect codec.from_slice it
  unfolding load
  load-scan d it e = ap (λ r. elim r [ ok it ↦ collect codec.from_slice it | err e ↦ [] ]) e

  -- Let configurations with distinct names be saved with success, and let the scan of a later load come
  -- to its end. Then the load gives exactly the configurations that were saved, each as often as it was
  -- saved, in some order. Whatever the database held before of other apps is gone.
  pub save-load :
      (cs : List ProcessConfig) (d d' : D) (it : Iter B)
      → HasDistinctNames cs
      → save db codec cs d ≡ (ok tt, d')
      → db.scan_prefix prefix d' ≡ ok it
      → IsComplete it
      → Perm (load db codec d') cs
  save-load cs d d' it h e q complete =
      let (whole, at) = saved cs d d' h e in
      subst (λ l. Perm l cs) (sym (load-scan d' it q ∙ collect-entries codec.from_slice it))
        (subst (Perm (parsed codec.from_slice (entries it))) whole (
          Perm-parsed codec.from_slice (entries it) (rows codec cs) (
            Perm-maps (entries it) (rows codec cs) (law.scan-IsDistinct prefix d' it q)
              (rows-IsDistinct codec cs h)
              (λ j.
                ground
                  (arith, law.scan-view prefix d' it q complete j, at j, other_key codec j cs)))))

  -- A key outside the prefix is read after a save as it was before.
  pub view-save :
      (cs : List ProcessConfig) (d d' : D) (j : Text)
      → HasDistinctNames cs
      → save db codec cs d ≡ (ok tt, d')
      → starts_with prefix j ≡ false
      → law.view d' j ≡ law.view d j
  view-save cs d d' j h e q = let (whole, at) = saved cs d d' h e in ground (arith, at j)

  module _ {W : Type 0} (os : Os W) where
    -- The old file is as it was, or it is gone and every configuration in it is in the database.
    abbrev pub IsMigrated : D → W → D × W → Type 0
    IsMigrated d w (d', w') =
        (w' ≡ w)
        ⊎ ((json : Text) × (configs : List ProcessConfig) × (os.read_to_string json_path w
              ≡ ok json)
            × (codec.from_str json ≡ ok configs)
            × ((configs ≡ []) ⊎ HasSaved db codec law faithful configs d d'))

    -- Let the names in the state file be distinct, if it can be read and parsed. The old state file is left as it was, unless it was
    -- read and parsed; it is then removed only if it holds no configuration or its configurations are
    -- now what the database holds under their prefix.
    pub migrate_json_to_slatedb-IsMigrated :
        (d : D) (w : W)
        → ((json : Text) (configs : List ProcessConfig)
            → os.read_to_string json_path w ≡ ok json
            → codec.from_str json ≡ ok configs
            → HasDistinctNames configs)
        → IsMigrated d w (migrate_json_to_slatedb db codec os d w)
    unfolding migrate_json_to_slatedb migrate_configs migrated
    migrate_json_to_slatedb-IsMigrated d w distinct = elim (Bool-cases (os.exists json_path w)) [
      | inl e ↦ rw e (read (os.read_to_string json_path w) refl)
      | inr e ↦ rw e (inl refl)
    ]
      where
        held :
            (json : Text) (c : ProcessConfig) (cs : List ProcessConfig) (r : Result (Unit {0}) × D)
            → os.read_to_string json_path w ≡ ok json
            → codec.from_str json ≡ ok (c ∷ cs)
            → save db codec (c ∷ cs) d ≡ r
            → IsMigrated d w (migrated db codec os r w)
        held json c cs (ok u, d') e q s =
            inr (json, c ∷ cs, e, q, inr (saved (c ∷ cs) d d' (distinct json (c ∷ cs) e q) s))
        held json c cs (err m, d') e q s = inl refl

        parse :
            (json : Text) (r : Result (List ProcessConfig))
            → os.read_to_string json_path w ≡ ok json
            → codec.from_str json ≡ r
            → IsMigrated d w
                (elim r [ ok configs ↦ migrate_configs db codec os configs d w | err e ↦ (d, w) ])
        parse json (ok []) e q = inr (json, [], e, q, inl refl)
        parse json (ok (c ∷ cs)) e q = held json c cs (save db codec (c ∷ cs) d) e q refl
        parse json (err m) e q = inl refl

        read :
            (r : Result Text)
            → os.read_to_string json_path w ≡ r
            → IsMigrated d w (elim r [
              | ok json ↦ elim (codec.from_str json) [
                | ok configs ↦ migrate_configs db codec os configs d w
                | err e ↦ (d, w)
              ]
              | err e ↦ (d, w)
            ])
        read (ok json) e = parse json (codec.from_str json) e refl
        read (err m) e = inl refl
