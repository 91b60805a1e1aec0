-- ===== src/Oci/Settings.antt =====
-- src/oci.rs: the settings file, which names the default registry. serde_json is a parameter: `J` is
-- a `serde_json::Value`, and setting a member is `none` where indexing panics, on a value that is neither
-- an object nor null.
use nylon_run.Prelude.{
  ◌≡◌, refl, ap, ◌∙◌, Option, none, some, Text, Result, ok, err, Action, codes, arith, unwrap_or,
  ◌++◌,
}
use nylon_run.Prelude.Actions.{on_error, with_prefix, continue, ◌>>◌}
use nylon_run.System.{Os}
use nylon_run.Oci.References.{load_default_registry}

pub record Json (J : Type 0) : Type 0 where
  pub from_str : Text → Option J
  pub empty_object : J
  pub get_string : Text → J → Option Text
  pub set_string : Text → Text → J → Option J
  pub to_string_pretty : J → Text

-- A value that was set is read back, and a printed value parses.
pub record IsJson {J : Type 0} (json : Json J) : Type 0 where
  pub get_string-set_string :
      (key value : Text) (j j' : J)
      → json.set_string key value j ≡ some j'
      → json.get_string key j' ≡ some value
  pub from_str-to_string_pretty : (j : J) → json.from_str (json.to_string_pretty j) ≡ some j

abbrev pub settings_dir : Text
settings_dir = codes "/var/run/nyrun"

abbrev pub settings_file : Text
settings_file = codes "/var/run/nyrun/settings.json"

module _ {W J : Type 0} (os : Os W) (json : Json J) where
  parsed_settings : Result Text → J
  parsed_settings (ok text) = unwrap_or (json.from_str text) json.empty_object
  parsed_settings (err e) = json.empty_object

  named_in : Option J → Option Text
  named_in none = none
  named_in (some j) = json.get_string (codes "default-registry") j

  named_by : Result Text → Option Text
  unfolding named_in
  named_by (ok text) = named_in (json.from_str text)
  named_by (err e) = none

  -- The registry that the settings file names.
  unfoldable pub named_registry : W → Option Text
  unfolding named_by
  named_registry w = named_by (os.read_to_string settings_file w)

  write_settings : J → Action W (Unit {0})
  write_settings j =
      on_error (λ e. codes "failed to create dir: " ++ e) (os.create_dir_all settings_dir)
      >> on_error (λ e. codes "failed to write settings: " ++ e)
          (os.write settings_file (json.to_string_pretty j))

  store_settings : Option J → W → Option (Result (Unit {0})) × W
  unfolding write_settings
  store_settings none w = (none, w)
  store_settings (some j) w = let (r, w') = write_settings j w in (some r, w')

  -- `none` is a panic.
  unfoldable pub save_default_registry : Text → W → Option (Result (Unit {0})) × W
  unfolding store_settings parsed_settings
  save_default_registry registry w =
      store_settings
        (json.set_string (codes "default-registry") registry
          (parsed_settings (os.read_to_string settings_file w)))
        w

  module _ (laws : IsJson json)
      (read-write : (p t : Text) (w w' : W)
        → os.write p t w ≡ (ok tt, w')
        → os.read_to_string p w' ≡ ok t) where
    write_settings-read :
        (j : J) (w w' : W)
        → write_settings j w ≡ (ok tt, w')
        → os.read_to_string settings_file w' ≡ ok (json.to_string_pretty j)
    unfolding write_settings
    write_settings-read j w w' e = made (os.create_dir_all settings_dir w) e
      where
        put :
            (v : W) (p : Result (Unit {0}) × W)
            → os.write settings_file (json.to_string_pretty j) v ≡ p
            → with_prefix (λ e. codes "failed to write settings: " ++ e) p ≡ (ok tt, w')
            → os.read_to_string settings_file w' ≡ ok (json.to_string_pretty j)
        put v (ok u, v') q e = read-write settings_file (json.to_string_pretty j) v w' (q ∙ e)
        put v (err m, v') q e = ground (arith, ap (λ p. p.0) e)

        made :
            (p : Result (Unit {0}) × W)
            → continue
                (λ u.
                  on_error
                    (λ e. codes "failed to write settings: " ++ e)
                    (os.write settings_file (json.to_string_pretty j)))
                (with_prefix (λ e. codes "failed to create dir: " ++ e) p)
              ≡ (ok tt, w')
            → os.read_to_string settings_file w' ≡ ok (json.to_string_pretty j)
        made (ok u, v) e = put v (os.write settings_file (json.to_string_pretty j) v) refl e
        made (err m, v) e = ground (arith, ap (λ p. p.0) e)

    -- Let a file that was written be read back as it was written. A default registry that was saved with
    -- success is the default registry from then on, whatever the settings file held.
    pub load_default_registry-save_default_registry :
        (registry : Text) (w w' : W)
        → save_default_registry registry w ≡ (some (ok tt), w')
        → load_default_registry (named_registry w') ≡ registry
    unfolding save_default_registry store_settings named_registry load_default_registry named_by
        named_in
    load_default_registry-save_default_registry registry w w' e =
        stored
          (json.set_string (codes "default-registry") registry
            (parsed_settings (os.read_to_string settings_file w)))
          refl e
      where
        ended :
            (p : Result (Unit {0}) × W)
            → ◌≡◌ {A = Option (Result (Unit {0})) × W} (some p.0, p.1) (some (ok tt), w')
            → p ≡ (ok tt, w')
        ended (ok u, v) e = ap (λ r. (ok tt, r.1)) e
        ended (err m, v) e = ground (arith, ap (λ p. p.0) e)

        stored :
            (o : Option J)
            → json.set_string
                (codes "default-registry")
                registry
                (parsed_settings (os.read_to_string settings_file w))
              ≡ o
            → store_settings o w ≡ (some (ok tt), w')
            → load_default_registry (named_registry w') ≡ registry
        stored none q e = ground (arith, ap (λ p. p.0) e)
        stored (some j) q e = ground (
          arith,
          write_settings-read j w w' (ended (write_settings j w) e),
          laws.from_str-to_string_pretty j,
          laws.get_string-set_string (codes "default-registry") registry
              (parsed_settings (os.read_to_string settings_file w)) j q,
        )
