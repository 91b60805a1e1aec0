-- ===== src/Tests/Serving.antt =====
-- The proxy: concrete inputs. A header is a status and its fields; a certificate is its file's bytes.
use nylon_run.Prelude.{
  ℕ, ◌==◌, ◌≡◌, refl, true, false, not, ◌&&◌, ◌||◌, Option, none, some, List, [], ◌∷◌, ◌++◌, Text,
  ok, err, codes, arith, if◌then◌else◌, text_eq, strip_prefix, first_part,
}
use nylon_run.Tls.{Pki, add_cert}
use nylon_run.Proxy.Http.{Headers, HttpRequest}
use nylon_run.Proxy.Routes.{SocketAddr, proxy, spa, RouteEntry, RouteTable, find_route}
use nylon_run.Proxy.Routes.Lookup.{Selects, find_route-Selects}
use nylon_run.Proxy.Manager.{
  ProxyManager, add_route_with_tls, remove_routes, has_port, without_name, ports_of, push_route,
  install_cert, finish_route,
}
use nylon_run.Proxy.Manager.Ports.{is_closed, remove_routes_lem}
use nylon_run.Proxy.Manager.Invariant.{IsOpen, remove_routes-IsOpen}
use nylon_run.Proxy.Manager.Adding.{
  entry, pushed, add_route_with_tls-IsOpen, add_route_with_tls_refused,
}
use nylon_run.Proxy.Spa.{Files, resolve}
use nylon_run.Proxy.Spa.Confined.{IsConfined, resolve-IsConfined}
use nylon_run.Proxy.Filter.{
  NyrunProxy, ProxyCtx, forward, respond, request_filter, upstream_peer, get_listen_port,
  extract_host, challenge, answer_challenge, route_request, to_backend, from_cache, content_bytes,
}
use nylon_run.Proxy.Filter.Forwarding.{upstream_peer-request_filter}
use nylon_run.Proxy.Filter.CacheKey.{request_filter_cross_port}
use nylon_run.Proxy.Caching.{response_filter}
use nylon_run.Proxy.Caching.Stored.{stream, stored, joined, stream-response_filter}

abbrev local_8000 : SocketAddr
local_8000 = record { ip = codes "127.0.0.1"; port = 8000 }

abbrev api_route : RouteEntry
api_route = entry (codes "api") 80 (some (codes "api.io")) (proxy local_8000)

abbrev site_route : RouteEntry
site_route = entry (codes "site") 80 none (spa (codes "/srv/site"))

abbrev two_routes : RouteTable
two_routes = api_route ∷ site_route ∷ []

find_route-Selects_example :
    Selects 80
      (some (codes "other.io"))
      two_routes
      (find_route 80 (some (codes "other.io")) two_routes)
find_route-Selects_example = find_route-Selects 80 (some (codes "other.io")) two_routes

abbrev pub Proxies : Type 0
Proxies = ProxyManager Text Text

abbrev pub pki : Pki Text Text
pki = record {
  read = ok;
  from_pem = ok;
  stack_from_pem = λ pem. ok (pem ∷ []);
  private_key_from_pem = ok;
}

abbrev pub fresh : Proxies
fresh = record {
  routes = [];
  cache = record { id = 0; time_to_live = 3 };
  cache_ttl_secs = 3;
  ports = [];
  tls_ports = [];
  cert_store = record { certs = []; default_cert = none };
  dead_ports = [];
  servers = [];
}

fresh-IsOpen : IsOpen fresh
fresh-IsOpen = record {
  routed = λ p u. ground (arith, u);
  alive = λ p u. refl;
  served = λ p u. ground (arith, u);
  unique = tt;
}

abbrev pub serving : Proxies
serving =
    (add_route_with_tls pki (codes "api") 80 (some (codes "api.io")) (proxy local_8000) none
      fresh).1

serving-IsOpen : IsOpen serving
unfolding add_route_with_tls push_route install_cert finish_route
serving-IsOpen =
    add_route_with_tls-IsOpen pki (codes "api") 80 (some (codes "api.io")) (proxy local_8000) none
      fresh fresh-IsOpen refl

add_route_with_tls-IsOpen_example :
    IsOpen
      (add_route_with_tls pki
        (codes "site")
        443
        none
        (spa (codes "/srv/site"))
        (some (codes "a.crt", codes "a.key"))
        serving).1
unfolding add_route_with_tls push_route install_cert finish_route add_cert
add_route_with_tls-IsOpen_example =
    add_route_with_tls-IsOpen pki (codes "site") 443 none (spa (codes "/srv/site"))
      (some (codes "a.crt", codes "a.key")) serving serving-IsOpen refl

remove_routes-IsOpen_example : IsOpen (remove_routes (codes "api") serving)
remove_routes-IsOpen_example = remove_routes-IsOpen (codes "api") serving serving-IsOpen

remove_routes_lem_example :
    ((remove_routes (codes "api") serving).routes ≡ without_name (codes "api") serving.routes)
    × (has_port 80 (remove_routes (codes "api") serving).ports
        ≡ has_port 80 serving.ports
          && not (
              is_closed 80
                (without_name (codes "api") serving.routes)
                (ports_of (codes "api") serving.routes)))
    × (has_port 80 (remove_routes (codes "api") serving).dead_ports
        ≡ has_port 80 serving.dead_ports
          || is_closed 80
              (without_name (codes "api") serving.routes)
              (ports_of (codes "api") serving.routes))
remove_routes_lem_example = remove_routes_lem (codes "api") serving 80

abbrev no_pki : Pki Text Text
no_pki = record pki { read = λ path. err (codes "no such file") }

add_route_with_tls_refused_example :
    let m' =
      (add_route_with_tls no_pki
        (codes "site")
        443
        none
        (spa (codes "/srv/site"))
        (some (codes "a.crt", codes "a.key"))
        serving).1 in
    (m'.routes ≡ pushed (entry (codes "site") 443 none (spa (codes "/srv/site"))) serving.routes)
    × (m'.ports ≡ serving.ports)
    × (m'.dead_ports ≡ serving.dead_ports)
    × (m'.servers ≡ serving.servers)
unfolding add_route_with_tls push_route install_cert finish_route add_cert
add_route_with_tls_refused_example =
    add_route_with_tls_refused no_pki (codes "site") 443 none (spa (codes "/srv/site"))
      (some (codes "a.crt", codes "a.key")) serving
      (codes "failed to read cert a.crt: no such file") refl

abbrev disk : Files
disk = record {
  canonicalize = λ p. some (codes "/etc/passwd");
  exists = λ p. true;
  read = λ p. some (codes "text");
}

resolve-IsConfined_example :
    IsConfined disk
      (codes "/srv/site")
      (codes "/srv/site/../../etc/passwd")
      (resolve disk (codes "/srv/site") (codes "/srv/site/../../etc/passwd"))
resolve-IsConfined_example =
    resolve-IsConfined disk (codes "/srv/site") (codes "/srv/site/../../etc/passwd")
      (λ e. ground arith)

abbrev headers : Headers (ℕ × List (Text × Text))
headers = record {
  build = λ code. (code, []);
  status = λ h. h.0;
  insert_header = λ k v h. (h.0, (k, v) ∷ h.1);
  remove_header = λ k h. h;
  status-build = λ code. refl;
  status-insert_header = λ k v h. refl;
}

abbrev get_home : HttpRequest
get_home = record {
  local_port = some 80;
  method = codes "GET";
  path = codes "/";
  query = none;
  host = some (codes "api.io");
  content_length = none;
  client_addr = none;
  is_tls = false;
}

abbrev idle : ProxyCtx (ℕ × List (Text × Text))
idle = record {
  cache_key = [];
  should_cache = false;
  response_header = none;
  response_body = [];
  request_bytes = 0;
  response_bytes = 0;
}

abbrev uncached : NyrunProxy (ℕ × List (Text × Text))
uncached = record {
  routes = two_routes;
  cache = λ key. none;
  metrics = none;
  tokens = [];
  dead_ports = 81 ∷ [];
}

forwards : (request_filter headers disk get_home idle uncached).outcome ≡ forward
unfolding request_filter challenge answer_challenge route_request to_backend from_cache
    content_bytes get_listen_port find_route text_eq strip_prefix extract_host first_part
forwards = refl

upstream_peer-request_filter_example :
    (has_port (get_listen_port get_home) uncached.dead_ports ≡ false)
    × ((addr : SocketAddr) × (upstream_peer get_home uncached ≡ ok addr))
upstream_peer-request_filter_example =
    upstream_peer-request_filter headers disk get_home idle uncached forwards

abbrev get_other_port : HttpRequest
get_other_port = record get_home { local_port = some 81 }

abbrev cached : NyrunProxy (ℕ × List (Text × Text))
cached = record {
  routes = two_routes ++ entry (codes "other") 81 (some (codes "api.io")) (proxy local_8000) ∷ [];
  cache = λ key. some ((200, []), codes "home of port 80");
  metrics = none;
  tokens = [];
  dead_ports = [];
}

request_filter_cross_port_example :
    (request_filter headers disk get_other_port idle cached).outcome
    ≡ respond
        (headers.insert_header (codes "X-Cache") (codes "HIT") (200, []))
        (codes "home of port 80")
unfolding text_eq strip_prefix get_listen_port find_route extract_host first_part
request_filter_cross_port_example =
    request_filter_cross_port headers disk get_home get_other_port idle cached (200, [])
      (codes "home of port 80")
      (entry (codes "other") 81 (some (codes "api.io")) (proxy local_8000)) local_8000 refl refl
      refl refl refl refl refl refl refl

abbrev keyed : ProxyCtx (ℕ × List (Text × Text))
keyed = record idle { cache_key = codes "api.io/" }

abbrev calls : List (Option Text)
calls = some (codes "he") ∷ none ∷ some (codes "llo") ∷ []

stream-response_filter_example :
    stream headers calls none (response_filter headers (200, []) keyed) ≡ (
      if not (text_eq keyed.cache_key []) && (headers.status (200, []) == 200)
      then stored headers keyed.cache_key (200, []) (joined calls none)
      else [])
stream-response_filter_example = stream-response_filter headers calls none (200, []) keyed refl refl
