-- ===== src/Tests/Naming.antt =====
-- Ports, image references and paths: concrete inputs.
use nylon_run.Prelude.{
  ◌≡◌, refl, true, none, some, ◌∷◌, ◌++◌, ok, codes, arith, split, contains, length,
}
use nylon_run.Prelude.Decimals.{parse_uint}
use nylon_run.Protocol.{PortMapping}
use nylon_run.Ports.{parse_port_mapping, show_port_mapping, port_mapping_of}
use nylon_run.Ports.RoundTrip.{
  IsPortMapping, explicit, parse_port_mapping-show, parse_port_mapping-show_parsed,
}
use nylon_run.Oci.References.{
  normalize_reference, image_name_from_ref, load_default_registry, has_registry,
}
use nylon_run.Oci.References.Normal.{IsRegistry, normalize_reference_idem, image_name_from_ref_port}

abbrev api_mapping : PortMapping
api_mapping = record { host = some (codes "api.io"); public_port = 80; app_port = some 8000 }

api_mapping-IsPortMapping : IsPortMapping api_mapping
api_mapping-IsPortMapping = record {
  public_range = omega arith;
  app_range = omega arith;
  plain_host = ground arith;
}

parse_port_mapping-show_example :
    parse_port_mapping (show_port_mapping api_mapping) ≡ ok (explicit api_mapping)
parse_port_mapping-show_example = parse_port_mapping-show api_mapping api_mapping-IsPortMapping

parse_api_mapping : parse_port_mapping (codes "api.io:80:8000") ≡ ok api_mapping
unfolding parse_port_mapping port_mapping_of split parse_uint
parse_api_mapping = refl

parse_port_mapping-show_parsed_example :
    (parse_port_mapping (show_port_mapping api_mapping) ≡ ok api_mapping)
    × (length (split b':' (show_port_mapping api_mapping))
        ≡ length (split b':' (codes "api.io:80:8000")))
parse_port_mapping-show_parsed_example =
    parse_port_mapping-show_parsed (codes "api.io:80:8000") api_mapping parse_api_mapping

docker_hub : IsRegistry (load_default_registry none)
unfolding load_default_registry contains
docker_hub = record { no_slash = ground arith; dot_or_port = refl }

normalize_reference_idem_example :
    (has_registry (normalize_reference none (codes "nginx")) ≡ true)
    × (normalize_reference (some (codes "ghcr.io")) (normalize_reference none (codes "nginx"))
        ≡ normalize_reference none (codes "nginx"))
normalize_reference_idem_example =
    normalize_reference_idem none (some (codes "ghcr.io")) (codes "nginx") docker_hub

image_name_from_ref_port_example :
    image_name_from_ref (codes "localhost" ++ b':' ∷ codes "5000/app") ≡ codes "localhost"
image_name_from_ref_port_example =
    image_name_from_ref_port (codes "localhost") (codes "5000/app") (ground arith) (ground arith)
      (ground arith)
