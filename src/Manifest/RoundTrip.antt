-- ===== src/Manifest/RoundTrip.antt =====
-- src/main.rs: an exported manifest is applied again.
use nylon_run.Prelude.{
  ℕ, ◌≡◌, refl, sym, ap, ◌∙◌, Bool, true, false, Option, none, some, List, [], ◌∷◌, Text, ok, codes,
  ◌>>=◌, unwrap_or, join, split, strip_prefix, trim, All, Lacks,
}
use nylon_run.Prelude.Splits.{split-Lacks, split-append}
use nylon_run.Prelude.Maps.{Map}
use nylon_run.Protocol.{ProcessConfig, PortMapping, SslConfig}
use nylon_run.System.{Os}
use nylon_run.Ports.RoundTrip.{IsPortMapping, explicit, parse_port_mapping-show}
use nylon_run.Oci.References.{is_oci_reference, normalize_reference}
use nylon_run.Daemon.EnvFile.{parse_env_file_str}
use nylon_run.Manifest.{
  parse_args_string, trim_each, parse_deny, resolve_volume, resolve_configmap_volumes, extended,
  merged, mode_of, ssl_config, mapped_port, none_if_empty, some_env, ssl_paths, some_port,
  config_to_manifest, file_vars, oci_path, manifest_to_config,
}

-- A word of a list that is joined by commas.
abbrev pub IsWord : Text → Type 0
IsWord w = Lacks b',' w × (trim w ≡ w)

split-join_words :
    (w : Text) (ws : List Text)
    → All IsWord (w ∷ ws)
    → trim_each (split b',' (join (codes ",") (w ∷ ws))) ≡ w ∷ ws
unfolding join
split-join_words w [] ((a, b), _) = ap trim_each (split-Lacks b',' w a) ∙ ap (λ x. x ∷ []) b
split-join_words w (v ∷ ws) ((a, b), h) =
    ap trim_each (split-append b',' w (join (codes ",") (v ∷ ws)) a)
    ∙ ap (λ x. x ∷ trim_each (split b',' (join (codes ",") (v ∷ ws)))) b
    ∙ ap (λ l. w ∷ l) (split-join_words v ws h)

parse_deny-join :
    (ws : List Text) → All IsWord ws → parse_deny (none_if_empty (join (codes ",") ws) ws) ≡ ws
unfolding parse_deny none_if_empty
parse_deny-join [] h = refl
parse_deny-join (w ∷ ws) h = split-join_words w ws h

-- A volume that names no configmap.
abbrev pub IsPlainVolume : Text → Type 0
IsPlainVolume v = strip_prefix (codes "configmap:") v ≡ none

resolve-plain : (vs : List Text) → All IsPlainVolume vs → resolve_configmap_volumes vs ≡ vs
unfolding resolve_configmap_volumes resolve_volume
resolve-plain [] h = refl
resolve-plain (v ∷ vs) (a, h) = rw (a, resolve-plain vs h) refl

ssl_config-ssl_paths : (s : Option SslConfig) → ssl_config (ssl_paths s) ≡ s
unfolding ssl_config ssl_paths
ssl_config-ssl_paths none = refl
ssl_config-ssl_paths (some s) = refl

-- A port mapping that its print says in full.
abbrev pub IsExplicit : Option PortMapping → Type 0
IsExplicit none = Unit
IsExplicit (some pm) = IsPortMapping pm × (explicit pm ≡ pm)

mapped_port-some_port : (o : Option PortMapping) → IsExplicit o → mapped_port (some_port o) ≡ ok o
unfolding mapped_port some_port
mapped_port-some_port none h = refl
mapped_port-some_port (some pm) (v, e) =
    ap (λ r. do pm ← r; ok (some pm)) (parse_port_mapping-show pm v) ∙ ap (λ pm. ok (some pm)) e

parse_args-join :
    (shlex_split : Text → Option (List Text)) (t : Text) (args : List Text)
    → shlex_split t ≡ some args
    → parse_args_string shlex_split (none_if_empty t args) ≡ args
unfolding parse_args_string none_if_empty
parse_args-join shlex_split t [] h = refl
parse_args-join shlex_split t (a ∷ args) h = ap (λ o. unwrap_or o []) h

module _ {W : Type 0} (os : Os W) (alphabetic : ℕ → Bool) (shlex_split : Text → Option (List Text))
    (shlex_join : List Text → Option Text) (settings : Option Text) where
  -- The variables of the env file add nothing to those of the configuration.
  abbrev pub IsEnv : Option Text → Map Text → W → Type 0
  IsEnv none env w = Unit
  IsEnv (some ef) env w =
      (vars : Map Text) × (parse_env_file_str ef (os.read_to_string ef w) ≡ ok vars)
      × (extended vars (some env) ≡ env)

  -- The path is that of the image, or a path that is not taken for an image.
  abbrev pub IsPlaced : Option Text → Bool → Text → Type 0
  IsPlaced none is_oci path = (is_oci ≡ false) × (is_oci_reference alphabetic path ≡ false)
  IsPlaced (some r) is_oci path =
      (is_oci ≡ true)
      × (path ≡ r)
      × (is_oci_reference alphabetic r ≡ true)
      × (normalize_reference settings r ≡ r)

  -- What a manifest can say of a configuration.
  pub record IsExportable (c : ProcessConfig) (w : W) : Type 0 where
    pub args : (t : Text) × (shlex_join c.args ≡ some t) × (shlex_split t ≡ some c.args)
    pub env : IsEnv c.env_file c.env_vars w
    pub mode : c.mode ≡ mode_of c.port_mapping
    pub port : IsExplicit c.port_mapping
    pub placed : IsPlaced c.oci_reference c.is_oci c.path
    pub deny : All IsWord c.deny
    pub allow : All IsWord c.allow
    pub volumes : All IsPlainVolume c.volumes

  merged-env :
      (ef : Option Text) (env : Map Text) (w : W)
      → IsEnv ef env w
      → (vars : Map Text) × (file_vars os alphabetic shlex_split settings ef w ≡ ok vars)
        × (merged ef vars (some_env env) ≡ env)
  unfolding file_vars merged some_env
  merged-env none [] w h = ([], refl, refl)
  merged-env none (b ∷ env) w h = ([], refl, refl)
  merged-env (some ef) [] w (vars, e, q) = (vars, e, q)
  merged-env (some ef) (b ∷ env) w (vars, e, q) = (vars, e, q)

  oci_path-placed :
      (o : Option Text) (is_oci : Bool) (path : Text)
      → IsPlaced o is_oci path
      → (oci_path os alphabetic shlex_split settings
            (is_oci_reference alphabetic (unwrap_or o path))
            (unwrap_or o path)
          ≡ (path, o))
        × (is_oci_reference alphabetic (unwrap_or o path) ≡ is_oci)
  unfolding oci_path
  oci_path-placed none is_oci path (a, b) = rw (b, a) (refl, refl)
  oci_path-placed (some r) is_oci path (a, p, b, n) = rw (b, a, n, p) (refl, refl)

  -- Let a configuration have its mode by its port, a port mapping that is printed in full, words without
  -- commas and outer blanks to deny and allow, arguments that shlex joins and splits again, volumes without
  -- a configmap: prefix, a path that is its image's normal reference or, without an image, is not taken for
  -- one, and an env file, if any, that can be read and adds nothing to the variables. Then applying its
  -- exported manifest gives the configuration back.
  pub manifest_to_config-config_to_manifest :
      (c : ProcessConfig) (w : W)
      → IsExportable c w
      → manifest_to_config os alphabetic shlex_split settings (config_to_manifest shlex_join c) w
        ≡ ok c
  unfolding manifest_to_config config_to_manifest
  manifest_to_config-config_to_manifest c w h =
      let (t, joined, splits) = h.args in
      let (vars, file, env) = merged-env c.env_file c.env_vars w h.env in
      let (path, is_oci) = oci_path-placed c.oci_reference c.is_oci c.path h.placed in
      rw
        (
          file,
          mapped_port-some_port c.port_mapping h.port,
          path,
          is_oci,
          joined,
          parse_args-join shlex_split t c.args splits,
          env,
          sym h.mode,
          ssl_config-ssl_paths c.ssl,
          parse_deny-join c.deny h.deny,
          parse_deny-join c.allow h.allow,
          resolve-plain c.volumes h.volumes,
        )
        refl
