-- ===== src/Tests/Storing.antt =====
-- The database of the daemon's state: concrete inputs. The database is a map without two bindings of one
-- key, and no call fails. A value is a text or a configuration as it is.
use mathlib.Core.List.{Perm}
use nylon_run.Prelude.{
  ℕ, ◌+◌, ◌≡◌, refl, ap, sym, subst, true, Option, none, some, List, [], ◌∷◌, ◌⊎◌, inl, inr, Text,
  Result, ok, err, codes, arith, starts_with, text_eq, text_eq_iff, if◌then◌else◌, Bool-cases,
}
use nylon_run.Prelude.Maps.{
  Map, lookup, insert, remove, contains_key, IsDistinct, lookup-insert, lookup-remove,
  insert-IsDistinct, remove-IsDistinct,
}
use nylon_run.Protocol.{ProcessConfig}
use nylon_run.System.{Os}
use nylon_run.State.{
  Db, Codec, Iter, finished, item, prefix, save, load, put, migrate_json_to_slatedb,
}
use nylon_run.State.Laws.{IsLawful, IsFaithful, IsComplete, entries}
use nylon_run.State.Rows.{HasDistinctNames}
use nylon_run.State.Loading.{save-load, IsMigrated, migrate_json_to_slatedb-IsMigrated}
use nylon_run.Cloud.Config.{save_cloud_config, load_cloud_config, default_cloud_url}
use nylon_run.Cloud.Config.Link.{IsLinked, load_cloud_config_lem}
use nylon_run.Tests.Supervising.{os, program, api}

abbrev pub Value : Type 0
Value = Text ⊎ ProcessConfig

abbrev pub Store : Type 0
Store = (m : Map Value) × IsDistinct m

abbrev pub iterate : Text → Map Value → Iter Value
iterate p [] = finished
iterate p ((k, v) ∷ m) = let rest = iterate p m in if starts_with p k then item k v rest else rest

abbrev pub db : Db Store Value
db = record {
  scan_prefix = λ p d. ok (iterate p d.0);
  put = λ k v d. (ok tt, (insert k v d.0, insert-IsDistinct k v d.0 d.1));
  get = λ k d. ok (lookup k d.0);
  delete = λ k d. (ok tt, (remove k d.0, remove-IsDistinct k d.0 d.1));
  flush = λ d. (ok tt, d);
  close = λ d. (ok tt, d);
}

abbrev decoded : Value → Option Text
decoded (inl t) = some t
decoded (inr c) = none

abbrev deserialized : Value → Result ProcessConfig
deserialized (inl t) = err (codes "not a configuration")
deserialized (inr c) = ok c

abbrev web : ProcessConfig
web = program (codes "web") (codes "/bin/web")

abbrev pub codec : Codec Value
codec = record {
  as_bytes = inl;
  from_utf8 = decoded;
  to_vec = λ c. ok (inr c);
  from_slice = deserialized;
  from_str = λ t. ok (web ∷ api ∷ []);
}

lookup-iterate :
    (p j : Text) (m : Map Value)
    → IsDistinct m
    → lookup j (entries (iterate p m)) ≡ (if starts_with p j then lookup j m else none)
unfolding lookup entries contains_key
lookup-iterate p j [] d = ground arith
lookup-iterate p j ((k, v) ∷ m) (a, d) =
    ground (arith, lookup-iterate p j m d, text_eq_iff k j, Bool-cases (starts_with p k))

iterate-IsDistinct : (p : Text) (m : Map Value) → IsDistinct m → IsDistinct (entries (iterate p m))
unfolding entries contains_key
iterate-IsDistinct p [] d = tt
iterate-IsDistinct p ((k, v) ∷ m) (a, d) = elim (Bool-cases (starts_with p k)) [
  | inl e ↦ rw e (ground (arith, lookup-iterate p k m d), iterate-IsDistinct p m d)
  | inr e ↦ rw e (iterate-IsDistinct p m d)
]

pub iterate-IsComplete : (p : Text) (m : Map Value) → IsComplete (iterate p m)
iterate-IsComplete p [] = tt
iterate-IsComplete p ((k, v) ∷ m) = elim (Bool-cases (starts_with p k)) [
  | inl e ↦ rw e (iterate-IsComplete p m)
  | inr e ↦ rw e (iterate-IsComplete p m)
]

abbrev value_or {ℓ} : {A : Type ℓ} → A → Result A → A
value_or d (ok a) = a
value_or d (err e) = d

pub lawful : IsLawful db
lawful = record {
  view = λ d j. lookup j d.0;
  put-view = λ k v d j. lookup-insert k j v d.0;
  delete-view = λ k d j. lookup-remove k j d.0;
  flush-view = λ d j. refl;
  get-view = λ k d r e. ground (arith, e);
  scan-IsDistinct = λ p d it e.
      subst (λ i. IsDistinct (entries i)) (ap (value_or finished) e) (iterate-IsDistinct p d.0 d.1);
  scan-view = λ p d it e c j.
      subst (λ i. lookup j (entries i) ≡ (if starts_with p j then lookup j d.0 else none))
        (ap (value_or finished) e) (lookup-iterate p j d.0 d.1);
}

pub faithful : IsFaithful codec
faithful = record {
  from_utf8-as_bytes = λ t. refl;
  from_slice-to_vec = λ c v e. ap deserialized (sym (ap (value_or v) e));
}

-- A database with one old configuration and a link.
abbrev old_map : Map Value
old_map =
    (codes "config:old", inr (program (codes "old") (codes "/bin/old")))
    ∷ (codes "cloud:api_key", inl (codes "k0"))
    ∷ []

pub old_map-IsDistinct : IsDistinct old_map
unfolding contains_key lookup text_eq
old_map-IsDistinct = (refl, (refl, tt))

abbrev pub old : Store
old = (old_map, old_map-IsDistinct)

abbrev configs : List ProcessConfig
configs = web ∷ api ∷ []

configs_distinct : HasDistinctNames configs
unfolding text_eq
configs_distinct = (refl, (refl, tt))

abbrev after_save : Store
after_save = (save db codec configs old).1

save_ok : save db codec configs old ≡ (ok tt, after_save)
unfolding save starts_with
save_ok = refl

save-load_example : Perm (load db codec after_save) configs
save-load_example =
    save-load db codec lawful faithful configs old after_save (iterate prefix after_save.0)
      configs_distinct save_ok refl (iterate-IsComplete prefix after_save.0)

abbrev linked : Store
linked = (save_cloud_config db codec (codes "k1") old).1

abbrev linked_and_saved : Store
linked_and_saved = (save db codec configs linked).1

remembered : IsLinked db codec lawful faithful (some (codes "k1")) linked_and_saved
remembered =
    IsLinked.saved (some (codes "k1")) configs linked linked_and_saved configs_distinct
      (unfold save in
        unfold starts_with in
        unfold save_cloud_config in unfold put in unfold text_eq in unfold insert in refl)
      (IsLinked.linked (codes "k1") old linked (unfold save_cloud_config in unfold put in refl))

load_cloud_config_lem_example :
    load_cloud_config db codec linked_and_saved ≡ some (codes "k1", default_cloud_url)
load_cloud_config_lem_example =
    load_cloud_config_lem db codec lawful faithful (some (codes "k1")) linked_and_saved remembered
      (λ k. (lookup k linked_and_saved.0, refl))

-- The old state file is there and holds two apps.
abbrev with_json : Os ℕ
with_json = record os {
  exists = λ p w. true;
  read_to_string = λ p w. ok (codes "[...]");
  remove_file = λ p w. w + 1;
}

migrate_json_to_slatedb-IsMigrated_example :
    IsMigrated db codec lawful faithful with_json old 7
      (migrate_json_to_slatedb db codec with_json old 7)
migrate_json_to_slatedb-IsMigrated_example =
    migrate_json_to_slatedb-IsMigrated db codec lawful faithful with_json old 7
      (λ json cs r e. subst HasDistinctNames (ap (value_or []) e) configs_distinct)
