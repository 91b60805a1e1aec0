-- ===== src/Proxy/Filter/CacheKey.antt =====
-- src/proxy.rs: the key under which responses are cached.
use nylon_run.Prelude.{
  ◌≡◌, ap, unwrap_or, ◌++◌, true, false, none, some, arith, codes, text_eq, strip_prefix,
}
use nylon_run.Proxy.Routes.{SocketAddr, proxy, RouteEntry, find_route}
use nylon_run.Proxy.Manager.{has_port}
use nylon_run.Proxy.Http.{Headers, HttpRequest, Bytes}
use nylon_run.Proxy.Spa.{Files}
use nylon_run.Proxy.Filter.{
  query_suffix, ProxyCtx, NyrunProxy, respond, get_listen_port, extract_host, cache_key_of,
  request_filter,
}

same_key :
    (first second : HttpRequest)
    → extract_host first ≡ extract_host second
    → first.path ≡ second.path
    → first.query ≡ second.query
    → cache_key_of first ≡ cache_key_of second
unfolding cache_key_of
same_key first second eh ep eq =
    λ i. unwrap_or (eh i) (codes "localhost") ++ (ep i ++ query_suffix (eq i))

module _ {H : Type 0} (headers : Headers H) (fs : Files) where
  -- A response that is cached under the key of a request `first` is the answer to a GET request `second`
  -- with the same host, path and query, the path being no ACME challenge, on any other port that is not
  -- dead and routed to an upstream, whatever that upstream is.
  pub request_filter_cross_port :
      (first second : HttpRequest) (ctx : ProxyCtx H) (p : NyrunProxy H) (header : H) (body : Bytes)
      (r : RouteEntry) (addr : SocketAddr)
      → extract_host first ≡ extract_host second
      → first.path ≡ second.path
      → first.query ≡ second.query
      → p.cache (cache_key_of first) ≡ some (header, body)
      → text_eq second.method (codes "GET") ≡ true
      → strip_prefix (codes "/.well-known/acme-challenge/") second.path ≡ none
      → has_port (get_listen_port second) p.dead_ports ≡ false
      → find_route (get_listen_port second) (extract_host second) p.routes ≡ some r
      → r.backend ≡ proxy addr
      → (request_filter headers fs second ctx p).outcome
        ≡ respond (headers.insert_header (codes "X-Cache") (codes "HIT") header) body
  unfolding request_filter
  request_filter_cross_port first second ctx p header body r addr eh ep eq hit get plain alive route
        backend =
      ground (arith, same_key first second eh ep eq, ap p.cache (same_key first second eh ep eq))
