-- ===== src/Proxy/Manager.antt =====
-- src/proxy.rs, `ProxyManager`: the routes, ports and certificates that the daemon manages. Routes,
-- dead ports and certificates are shared with the running servers; a server keeps the ports, the TLS
-- ports and the cache that it was started with, and is never stopped. A set of ports is a list. A
-- moka cache is an id, new at each `build`, and the time to live that it was built with.
pub mod Ports
pub mod Invariant
pub mod Adding
use nylon_run.Prelude.{
  ℕ, ◌+◌, ◌*◌, ◌==◌, leb, Bool, true, false, not, Option, none, some, List, [], ◌∷◌, ◌++◌, Text,
  Result, ok, err, Action, any, retain, unwrap_or, codes, text_eq, if◌then◌else◌,
}
use nylon_run.Tls
use nylon_run.Tls.{Pki, DynamicCertStore, add_cert}
use nylon_run.Proxy.Routes.{Backend, RouteEntry, RouteTable}

pub record Cache : Type 0 where
  pub id : ℕ
  pub time_to_live : ℕ

pub record Server : Type 0 where
  pub ports : List ℕ
  pub tls_ports : List ℕ
  pub cache : Cache

pub record ProxyManager (X509 PKey : Type 0) : Type 0 where
  pub routes : RouteTable
  pub cache : Cache
  pub cache_ttl_secs : ℕ
  pub ports : List ℕ
  pub tls_ports : List ℕ
  pub cert_store : DynamicCertStore X509 PKey
  pub dead_ports : List ℕ
  pub servers : List Server

abbrev pub default_cache_ttl_secs : ℕ
default_cache_ttl_secs = 3

-- moka's `build` panics for a time to live of more than 1000 years of 365 days.
abbrev pub max_time_to_live : ℕ
max_time_to_live = 1000 * 365 * 24 * 60 * 60

-- `contains`, `insert` and `remove` of a set of ports.
abbrev pub has_port : ℕ → List ℕ → Bool
has_port p ports = any (λ q. q == p) ports

abbrev pub insert_port : ℕ → List ℕ → List ℕ
insert_port p ports = if has_port p ports then ports else p ∷ ports

abbrev pub remove_port : ℕ → List ℕ → List ℕ
remove_port p ports = retain (λ q. not (q == p)) ports

abbrev pub without_name : Text → RouteTable → RouteTable
without_name name = retain (λ r. not (text_eq r.name name))

-- The ports of an app's routes; the set is a list that may repeat a port.
abbrev pub ports_of : Text → RouteTable → List ℕ
ports_of name [] = []
ports_of name (r ∷ rs) =
    let rest = ports_of name rs in if text_eq r.name name then r.port ∷ rest else rest

module _ {X509 PKey : Type 0} where
  unfoldable pub new : ProxyManager X509 PKey
  new = record {
    routes = [];
    cache = record { id = 0; time_to_live = default_cache_ttl_secs };
    cache_ttl_secs = default_cache_ttl_secs;
    ports = [];
    tls_ports = [];
    cert_store = Tls.new;
    dead_ports = [];
    servers = [];
  }

  -- Whether it returns: a time to live that `build` refuses is a panic, after it was noted.
  unfoldable pub set_cache_ttl : ℕ → ProxyManager X509 PKey → Bool × ProxyManager X509 PKey
  set_cache_ttl secs m =
      if leb secs max_time_to_live
      then (
        true,
        record m {
          cache_ttl_secs = secs;
          cache = record { id = m.cache.id + 1; time_to_live = secs };
        },
      )
      else (false, record m { cache_ttl_secs = secs })

  -- The app's entry is replaced by the new one.
  unfoldable pub push_route :
      Text → ℕ → Option Text → Backend → ProxyManager X509 PKey → ProxyManager X509 PKey
  push_route name port host backend m = record m {
    routes =
        without_name name m.routes
        ++ record { name = name; port = port; host = host; backend = backend } ∷ [];
  }

  -- `start_pingora_server` on its own thread: one listener for each port.
  pub start_server : ProxyManager X509 PKey → ProxyManager X509 PKey
  start_server m = record m {
    servers = record { ports = m.ports; tls_ports = m.tls_ports; cache = m.cache } ∷ m.servers;
  }

  -- The port is revived, and served if it was not.
  pub open_port : ℕ → ProxyManager X509 PKey → ProxyManager X509 PKey
  unfolding start_server
  open_port port m =
      let revived = record m { dead_ports = remove_port port m.dead_ports } in
      if has_port port m.ports
      then revived
      else start_server (record revived { ports = m.ports ++ port ∷ [] })

  -- One round of the loop over the removed ports: a port with no route left is marked dead.
  pub close_port : ProxyManager X509 PKey → ℕ → ProxyManager X509 PKey
  close_port m port =
      if any (λ r. r.port == port) m.routes
      then m
      else record m { ports = remove_port port m.ports; dead_ports = insert_port port m.dead_ports }

  pub close_ports : ProxyManager X509 PKey → List ℕ → ProxyManager X509 PKey
  unfolding close_port
  close_ports m [] = m
  close_ports m (port ∷ ports) = close_ports (close_port m port) ports

  unfoldable pub remove_routes : Text → ProxyManager X509 PKey → ProxyManager X509 PKey
  unfolding close_ports
  remove_routes name m =
      close_ports (record m { routes = without_name name m.routes }) (ports_of name m.routes)

  module _ (pki : Pki X509 PKey) where
    unfoldable pub install_cert :
        ℕ → Option Text → Option (Text × Text) → Action (ProxyManager X509 PKey) (Unit {0})
    install_cert port host none m = (ok tt, m)
    install_cert port host (some (cert_path, key_path)) m =
        elim (add_cert pki (unwrap_or host (codes "default")) cert_path key_path m.cert_store) [
          | err e ↦ (err e, m)
          | ok store ↦
              (ok tt, record m { cert_store = store; tls_ports = insert_port port m.tls_ports })
        ]

    unfoldable pub finish_route :
        ℕ → Result (Unit {0}) × ProxyManager X509 PKey → Result (Unit {0}) × ProxyManager X509 PKey
    unfolding open_port
    finish_route port (err e, m) = (err e, m)
    finish_route port (ok u, m) = (ok u, open_port port m)

    unfoldable pub add_route_with_tls :
        Text
        → ℕ
        → Option Text
        → Backend
        → Option (Text × Text)
        → Action (ProxyManager X509 PKey) (Unit {0})
    unfolding push_route install_cert finish_route
    add_route_with_tls name port host backend ssl m =
        finish_route port (install_cert port host ssl (push_route name port host backend m))

    unfoldable pub add_route :
        Text → ℕ → Option Text → Backend → Action (ProxyManager X509 PKey) (Unit {0})
    unfolding add_route_with_tls
    add_route name port host backend m = add_route_with_tls name port host backend none m
