-- ===== src/State.antt =====
-- src/state.rs, `StateStore`: the key-value database of the daemon's state. SlateDB is a parameter: what
-- each of its calls returns and leaves behind, and the iterator of a scan as what its `next` will say.
-- `B` is a sequence of bytes; serde_json and UTF-8 are a parameter too.
pub mod Laws
pub mod Rows
pub mod Saving
pub mod Loading
pub mod Keys
use nylon_run.Prelude.{
  Bool, Option, none, some, List, [], ◌∷◌, ◌++◌, Text, Result, ok, err, Action, codes, map_err,
  if◌then◌else◌,
}
use nylon_run.Prelude.Actions.{lift, on_error, continue, ◌>>=◌, ◌>>◌, pure}
use nylon_run.Protocol.{ProcessConfig}
use nylon_run.System.{Os}

-- `DbIterator`: the pairs it will still yield, to the end or to an error.
pub data Iter (B : Type 0) : Type 0 where
  finished : Iter B
  failed : Text → Iter B
  item : Text → B → Iter B → Iter B

pub record Db (D B : Type 0) : Type 0 where
  pub scan_prefix : Text → D → Result (Iter B)
  pub put : Text → B → Action D (Unit {0})
  pub get : Text → D → Result (Option B)
  pub delete : Text → Action D (Unit {0})
  pub flush : Action D (Unit {0})
  pub close : Action D (Unit {0})

pub record Codec (B : Type 0) : Type 0 where
  pub as_bytes : Text → B
  pub from_utf8 : B → Option Text
  pub to_vec : ProcessConfig → Result B
  pub from_slice : B → Result ProcessConfig
  pub from_str : Text → Result (List ProcessConfig)

abbrev pub prefix : Text
prefix = codes "config:"

unfoldable pub config_key : Text → Text
config_key name = prefix ++ name

abbrev pub json_path : Text
json_path = codes "/var/run/nyrun/state.json"

abbrev pub pushed : Result ProcessConfig → List ProcessConfig → List ProcessConfig
pushed (ok c) cs = c ∷ cs
pushed (err e) cs = cs

module _ {B : Type 0} where
  -- The keys in the order of the scan.
  unfoldable pub old_keys : Iter B → Result (List Text)
  old_keys finished = ok []
  old_keys (failed e) = err (codes "iter error: " ++ e)
  old_keys (item k v it) = elim (old_keys it) [ ok ks ↦ ok (k ∷ ks) | err e ↦ err e ]

  -- A value that does not parse is skipped; an error ends the loop with what it has.
  unfoldable pub collect : (B → Result ProcessConfig) → Iter B → List ProcessConfig
  collect parse finished = []
  collect parse (failed e) = []
  collect parse (item k v it) = pushed (parse v) (collect parse it)

module _ {D B : Type 0} (db : Db D B) (codec : Codec B) where
  explained : Text → Action D (Unit {0}) → Action D (Unit {0})
  explained e m = on_error (λ t. e ++ t) m

  scanned : D → Result (Iter B)
  scanned d = map_err (codes "scan error: ") (db.scan_prefix prefix d)

  scan_keys : Result (Iter B) → Result (List Text)
  unfolding old_keys
  scan_keys (ok it) = old_keys it
  scan_keys (err e) = err e

  delete_all : List Text → Action D (Unit {0})
  unfolding explained
  delete_all [] = pure tt
  delete_all (k ∷ ks) = explained (codes "delete error: ") (db.delete k) >> delete_all ks

  write_all : List ProcessConfig → Action D (Unit {0})
  unfolding explained config_key
  write_all [] = pure tt
  write_all (c ∷ cs) = do
    value ← lift (map_err (codes "serialize error: ") (codec.to_vec c))
    explained (codes "put error: ") (db.put (config_key c.name) value)
    write_all cs

  -- The old bindings go first, so that an app which is gone is gone from the database too.
  unfoldable pub save : List ProcessConfig → Action D (Unit {0})
  unfolding scanned scan_keys delete_all write_all explained
  save configs = do
    ks ← λ d. (scan_keys (scanned d), d)
    delete_all ks
    write_all configs
    explained (codes "flush error: ") db.flush

  unfoldable pub load : D → List ProcessConfig
  unfolding collect
  load d = elim (db.scan_prefix prefix d) [ ok it ↦ collect codec.from_slice it | err e ↦ [] ]

  unfoldable pub put : Text → Text → Action D (Unit {0})
  unfolding explained
  put key value = do
    explained (codes "put error: ") (db.put key (codec.as_bytes value))
    explained (codes "flush error: ") db.flush

  unfoldable pub get : Text → D → Option Text
  get key d = elim (db.get key d) [
    | ok r ↦ elim r [ none ↦ none | some v ↦ codec.from_utf8 v ]
    | err e ↦ none
  ]

  unfoldable pub delete : Text → Action D (Unit {0})
  unfolding explained
  delete key = explained (codes "delete error: ") (db.delete key)

  -- The error of `close` is only logged.
  unfoldable pub close : D → D
  close d = (db.close d).1

  module _ {W : Type 0} (os : Os W) where
    migrated : Result (Unit {0}) × D → W → D × W
    migrated (ok u, d) w = (d, os.remove_file json_path w)
    migrated (err e, d) w = (d, w)

    migrate_configs : List ProcessConfig → D → W → D × W
    unfolding migrated save
    migrate_configs [] d w = (d, os.remove_file json_path w)
    migrate_configs (c ∷ cs) d w = migrated (save (c ∷ cs) d) w

    -- The old file is removed once its contents are saved.
    unfoldable pub migrate_json_to_slatedb : D → W → D × W
    unfolding migrate_configs
    migrate_json_to_slatedb d w =
        if os.exists json_path w
        then (elim (os.read_to_string json_path w) [
          | ok json ↦ elim (codec.from_str json) [
            | ok configs ↦ migrate_configs configs d w
            | err e ↦ (d, w)
          ]
          | err e ↦ (d, w)
        ])
        else (d, w)
