-- ===== src/Proxy/Routes.antt =====
-- src/proxy.rs, `Backend`, `RouteEntry` and `RouteTable`.
use nylon_run.Prelude.{
  ℕ, ◌≡◌, Bool, true, false, not, Option, none, some, List, [], ◌∷◌, Text, retain, find, ◌==◌, ◌&&◌,
  text_eq, if◌then◌else◌,
}
pub mod Lookup

-- An IP address and a port.
pub record SocketAddr : Type 0 where
  pub ip : Text
  pub port : ℕ

pub data Backend : Type 0 where
  proxy : SocketAddr → Backend
  spa : Text → Backend

pub record RouteEntry : Type 0 where
  pub name : Text
  pub port : ℕ
  pub host : Option Text
  pub backend : Backend

abbrev pub RouteTable : Type 0
RouteTable = List RouteEntry

-- `r.host.as_deref() == Some(h)` and `r.host.is_none()`.
abbrev pub is_host : Text → Option Text → Bool
is_host h none = false
is_host h (some g) = text_eq g h

abbrev pub is_none : Option Text → Bool
is_none none = true
is_none (some g) = false

abbrev pub on_port : ℕ → RouteTable → RouteTable
on_port port = retain (λ r. r.port == port)

find_host : Option Text → RouteTable → Option RouteEntry
find_host none routes = none
find_host (some h) routes = find (λ r. is_host h r.host) routes

unfoldable pub find_route : ℕ → Option Text → RouteTable → Option RouteEntry
unfolding find_host
find_route port host entries = elim (find_host host (on_port port entries)) [
  | some r ↦ some r
  | none ↦ find (λ r. is_none r.host) (on_port port entries)
]
