-- ===== src/Ports.antt =====
-- Port mappings as text, `PORT`, `PUBLIC:APP` or `HOST:PUBLIC:APP`: `parse_port_mapping` of
-- src/main.rs, its copy `parse_port_mapping_str` in src/server.rs, and the print of a mapping in
-- `config_to_manifest` of src/main.rs and `print_process_list` of src/client.rs.
pub mod RoundTrip
use nylon_run.Prelude.{
  unwrap_or, ℕ, Option, none, some, List, [], ◌∷◌, ◌++◌, Text, Result, ok, err, ◌>>=◌, codes, split,
}
use nylon_run.Prelude.Decimals.{decimal, parse_uint, max_u16}
use nylon_run.Protocol.{PortMapping}

-- `part.parse().map_err(…)?` at u16.
unfoldable pub parse_port : Text → Result ℕ
parse_port part = elim (parse_uint max_u16 part) [
  | none ↦ err (codes "invalid port: " ++ part)
  | some p ↦ ok p
]

unfoldable pub port_mapping_of : Text → List Text → Result PortMapping
port_mapping_of port (a ∷ []) = do
  p ← parse_port a
  ok (record { host = none; public_port = p; app_port = none })
port_mapping_of port (a ∷ b ∷ []) = do
  public ← parse_port a
  app ← parse_port b
  ok (record { host = none; public_port = public; app_port = some app })
port_mapping_of port (host ∷ a ∷ b ∷ []) = do
  public ← parse_port a
  app ← parse_port b
  ok (record { host = some host; public_port = public; app_port = some app })
port_mapping_of port _ = err (codes "invalid port mapping: " ++ port)

-- main.rs
unfoldable pub parse_port_mapping : Text → Result PortMapping
unfolding port_mapping_of parse_port
parse_port_mapping port = port_mapping_of port (split b':' port)

-- server.rs
unfoldable pub parse_port_mapping_str : Text → Result PortMapping
unfolding port_mapping_of parse_port
parse_port_mapping_str port = port_mapping_of port (split b':' port)

show_without_host : ℕ → Option ℕ → Text
show_without_host public none = decimal public
show_without_host public (some app) = decimal public ++ b':' ∷ decimal app

show_host : Option Text → ℕ → Option ℕ → Text
unfolding show_without_host
show_host none public app = show_without_host public app
show_host (some host) public app =
    host ++ b':' ∷ (decimal public ++ b':' ∷ decimal (unwrap_or app public))

-- The mapping as `nyrun export` and `nyrun ls` print it.
unfoldable pub show_port_mapping : PortMapping → Text
unfolding show_host
show_port_mapping pm = show_host pm.host pm.public_port pm.app_port
