-- ===== src/State/Keys.antt =====
-- src/state.rs: reading, writing and deleting one key.
use nylon_run.Prelude.{
  ◌≡◌, Option, none, some, Text, ok, err, codes, ap, ◌++◌, text_eq, ◌∙◌, if◌then◌else◌,
}
use nylon_run.State.{Db, Codec, put, get, delete, explained}
use nylon_run.State.Laws.{IsLawful, IsFaithful}
use nylon_run.Prelude.Ends.{Ends, Ends-with_prefix, Ends-weaken, Ends-continue}

module _ {D B : Type 0} (db : Db D B) (codec : Codec B) (law : IsLawful db)
    (faithful : IsFaithful codec) where
  -- A read of the database is answered.
  abbrev pub IsReadable : D → Type 0
  IsReadable d = (k : Text) → (r : Option B) × (db.get k d ≡ ok r)

  abbrev pub decoded : Option B → Option Text
  decoded none = none
  decoded (some v) = codec.from_utf8 v

  pub get-view : (k : Text) (d : D) → IsReadable d → get db codec k d ≡ decoded (law.view d k)
  unfolding get
  get-view k d h =
      let (r, e) = h k in
      ap (λ x. elim x [ ok r ↦ elim r [ none ↦ none | some v ↦ codec.from_utf8 v ] | err e ↦ none ])
        e
      ∙ same r (law.get-view k d r e)
    where
      same :
          (r : Option B)
          → r ≡ law.view d k
          → (elim r [ none ↦ none | some v ↦ codec.from_utf8 v ]) ≡ decoded (law.view d k)
      same none e = ap decoded e
      same (some v) e = ap decoded e

  pub put-Ends :
      (k v : Text) (d : D)
      → Ends
          (λ u d'.
            (j : Text)
            → law.view d' j ≡ (if text_eq k j then some (codec.as_bytes v) else law.view d j))
          (put db codec k v d)
  unfolding put explained
  put-Ends k v d =
      Ends-continue
        (λ u d'.
          (j : Text)
          → law.view d' j ≡ (if text_eq k j then some (codec.as_bytes v) else law.view d j))
        (λ u d'.
          (j : Text)
          → law.view d' j ≡ (if text_eq k j then some (codec.as_bytes v) else law.view d j))
        (λ u. explained db codec (codes "flush error: ") db.flush)
        (explained db codec (codes "put error: ") (db.put k (codec.as_bytes v)) d)
        (Ends-with_prefix (λ t. codes "put error: " ++ t) _ (db.put k (codec.as_bytes v) d)
          (law.put-view k (codec.as_bytes v) d))
        (λ u d1 h.
          Ends-with_prefix (λ t. codes "flush error: " ++ t) _ (db.flush d1)
            (Ends-weaken (λ u d2. (j : Text) → law.view d2 j ≡ law.view d1 j) _ (db.flush d1)
              (law.flush-view d1) (λ u d2 g j. g j ∙ h j)))

  pub delete-Ends :
      (k : Text) (d : D)
      → Ends
          (λ u d'. (j : Text) → law.view d' j ≡ (if text_eq k j then none else law.view d j))
          (delete db codec k d)
  unfolding delete explained
  delete-Ends k d =
      Ends-with_prefix (λ t. codes "delete error: " ++ t) _ (db.delete k d) (law.delete-view k d)
