-- ===== src/Tests/Exporting.antt =====
-- Manifests: concrete inputs. An app with a port, a certificate, an argument, a variable, two denied
-- resources and a volume; the arguments are joined by blanks, and a text is one argument.
use nylon_run.Prelude.{
  ◌≡◌, refl, false, Option, none, some, List, [], ◌∷◌, Text, ok, codes, join, starts_with,
  strip_prefix, trim, arith,
}
use nylon_run.Protocol.{ProcessConfig, run}
use nylon_run.Oci.References.{is_oci_reference}
use nylon_run.Manifest.{mode_of, config_to_manifest, manifest_to_config}
use nylon_run.Manifest.RoundTrip.{IsExportable, manifest_to_config-config_to_manifest}
use nylon_run.Tests.Supervising.{os}

abbrev shlex_split : Text → Option (List Text)
shlex_split [] = some []
shlex_split (x ∷ t) = some ((x ∷ t) ∷ [])

abbrev shlex_join : List Text → Option Text
shlex_join args = some (join (codes " ") args)

abbrev web : ProcessConfig
web = record {
  name = codes "web";
  path = codes "/bin/web";
  args = codes "serve" ∷ [];
  env_vars = (codes "MODE", codes "prod") ∷ [];
  env_file = none;
  mode = run;
  port_mapping =
      some (record { host = some (codes "a.io"); public_port = 443; app_port = some 8000 });
  spa = false;
  ssl = some (record { cert_path = codes "/c.pem"; key_path = codes "/k.pem" });
  acme = none;
  deny = codes "net" ∷ codes "io" ∷ [];
  allow = [];
  is_oci = false;
  oci_reference = none;
  pid_file = none;
  volumes = codes "/data:/var/data" ∷ [];
}

web-IsExportable : IsExportable os (λ c. false) shlex_split shlex_join none web 0
unfolding join mode_of is_oci_reference starts_with strip_prefix trim
web-IsExportable = record {
  args = (codes "serve", refl, refl);
  env = tt;
  mode = refl;
  port = (
    record { public_range = omega arith; app_range = omega arith; plain_host = ground arith },
    refl,
  );
  placed = (refl, refl);
  deny = ((ground arith, refl), ((ground arith, refl), tt));
  allow = tt;
  volumes = (refl, tt);
}

manifest_to_config-config_to_manifest_example :
    manifest_to_config os (λ c. false) shlex_split none (config_to_manifest shlex_join web) 0
    ≡ ok web
manifest_to_config-config_to_manifest_example =
    manifest_to_config-config_to_manifest os (λ c. false) shlex_split shlex_join none web 0
      web-IsExportable
