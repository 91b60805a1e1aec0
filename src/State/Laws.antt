-- ===== src/State/Laws.antt =====
-- What src/state.rs relies on of SlateDB and serde_json: a call that succeeds does what its
-- documentation says. Nothing is said of a call that fails.
use nylon_run.Prelude.{
  ◌≡◌, Option, none, some, [], ◌∷◌, Text, ok, starts_with, text_eq, if◌then◌else◌,
}
use nylon_run.Prelude.Ends.{Ends}
use nylon_run.Prelude.Maps.{Map, lookup, IsDistinct}
use nylon_run.Protocol.{ProcessConfig}
use nylon_run.State.{Db, Codec, Iter, finished, failed, item}

module _ {B : Type 0} where
  unfoldable pub entries : Iter B → Map B
  entries finished = []
  entries (failed e) = []
  entries (item k v it) = (k, v) ∷ entries it

  -- The scan came to its end.
  abbrev pub IsComplete : Iter B → Type 0
  IsComplete finished = Unit
  IsComplete (failed e) = ⊥
  IsComplete (item k v it) = IsComplete it

pub record IsLawful {D B : Type 0} (db : Db D B) : Type 0 where
  pub view : D → Text → Option B
  pub put-view :
      (k : Text) (v : B) (d : D)
      → Ends
          (λ u d'. (j : Text) → view d' j ≡ (if text_eq k j then some v else view d j))
          (db.put k v d)
  pub delete-view :
      (k : Text) (d : D)
      → Ends
          (λ u d'. (j : Text) → view d' j ≡ (if text_eq k j then none else view d j))
          (db.delete k d)
  pub flush-view : (d : D) → Ends (λ u d'. (j : Text) → view d' j ≡ view d j) (db.flush d)
  pub get-view : (k : Text) (d : D) (r : Option B) → db.get k d ≡ ok r → r ≡ view d k
  pub scan-IsDistinct :
      (p : Text) (d : D) (it : Iter B) → db.scan_prefix p d ≡ ok it → IsDistinct (entries it)
  pub scan-view :
      (p : Text) (d : D) (it : Iter B)
      → db.scan_prefix p d ≡ ok it
      → IsComplete it
      → (j : Text) → lookup j (entries it) ≡ (if starts_with p j then view d j else none)

pub record IsFaithful {B : Type 0} (codec : Codec B) : Type 0 where
  pub from_utf8-as_bytes : (t : Text) → codec.from_utf8 (codec.as_bytes t) ≡ some t
  pub from_slice-to_vec :
      (c : ProcessConfig) (v : B) → codec.to_vec c ≡ ok v → codec.from_slice v ≡ ok c
