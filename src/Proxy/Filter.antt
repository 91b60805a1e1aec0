-- ===== src/Proxy/Filter.antt =====
-- src/proxy.rs, `NyrunProxy` up to the upstream: `request_filter`, `upstream_peer` and
-- `upstream_request_filter`. The routes, dead ports and challenge tokens are the shared state at the
-- time of the request; the response cache (moka) is its `get`. Writing to the client succeeds.
pub mod Forwarding
pub mod CacheKey
use nylon_run.Prelude.{
  ℕ, Bool, true, false, Option, none, some, List, [], ◌∷◌, ◌++◌, Text, Result, ok, err, codes,
  text_eq, unwrap_or, strip_prefix, first_part, length, if◌then◌else◌, ◌>>=◌, ◌+◌,
}
use nylon_run.Prelude.Decimals.{decimal, parse_uint, max_u64}
use nylon_run.Prelude.Maps.{Map, lookup}
use nylon_run.Metrics.{Metrics, record_cache_hit, record_cache_miss, inc}
use nylon_run.Proxy.Routes.{SocketAddr, Backend, proxy, spa, RouteEntry, RouteTable, find_route}
use nylon_run.Proxy.Manager.{has_port}
use nylon_run.Proxy.Http.{Headers, HttpRequest, Bytes}
use nylon_run.Proxy.Spa
use nylon_run.Proxy.Spa.{Files, text_plain, serve_spa}

unfoldable pub get_listen_port : HttpRequest → ℕ
get_listen_port session = unwrap_or session.local_port 80

without_port : Option Text → Option Text
without_port none = none
without_port (some h) = some (first_part b':' h)

unfoldable pub extract_host : HttpRequest → Option Text
unfolding without_port
extract_host session = without_port session.host

pub record ProxyCtx (H : Type 0) : Type 0 where
  pub cache_key : Text
  pub should_cache : Bool
  pub response_header : Option H
  pub response_body : Bytes
  pub request_bytes : ℕ
  pub response_bytes : ℕ

-- The shared state that a request sees, and the counters.
pub record NyrunProxy (H : Type 0) : Type 0 where
  pub routes : RouteTable
  pub cache : Text → Option (H × Bytes)
  pub metrics : Option Metrics
  pub tokens : Map Text
  pub dead_ports : List ℕ

abbrev pub on_metrics : {H : Type 0} → (Metrics → Metrics) → NyrunProxy H → NyrunProxy H
on_metrics f p = record p { metrics = elim p.metrics [ none ↦ none | some m ↦ some (f m) ] }

unfoldable pub new_ctx : {H : Type 0} → NyrunProxy H → NyrunProxy H × ProxyCtx H
new_ctx p = (
  on_metrics (λ m. record m { active_connections = inc m.active_connections }) p,
  record {
    cache_key = [];
    should_cache = false;
    response_header = none;
    response_body = [];
    request_bytes = 0;
    response_bytes = 0;
  },
)

-- `Err`, `Ok(true)` with the response that was written, and `Ok(false)`.
pub data Filtered (H : Type 0) : Type 0 where
  refused : Text → Filtered H
  respond : H → Bytes → Filtered H
  forward : Filtered H

pub record Step (H : Type 0) : Type 0 where
  pub outcome : Filtered H
  pub ctx : ProxyCtx H
  pub after : NyrunProxy H

query_suffix : Option Text → Text
query_suffix none = []
query_suffix (some q) = b'?' ∷ q

unfoldable pub content_bytes : Option Text → ℕ
content_bytes none = 0
content_bytes (some v) = unwrap_or (parse_uint max_u64 v) 0

-- The host, the path and the query; not the port.
unfoldable pub cache_key_of : HttpRequest → Text
unfolding query_suffix extract_host
cache_key_of session =
    unwrap_or (extract_host session) (codes "localhost")
    ++ (session.path ++ query_suffix session.query)

module _ {H : Type 0} (headers : Headers H) (fs : Files) where
  open headers use {insert_header}

  plain : ℕ → Bytes → Filtered H
  plain code body =
      respond
        (insert_header (codes "content-length") (decimal (length body))
          (text_plain fs headers code))
        body

  -- The key authorization of a pending challenge that the path names.
  unfoldable pub challenge : HttpRequest → NyrunProxy H → Option Text
  challenge session p = elim (strip_prefix (codes "/.well-known/acme-challenge/") session.path) [
    | none ↦ none
    | some token ↦ lookup token p.tokens
  ]

  unfoldable pub from_cache : Option (H × Bytes) → ProxyCtx H → NyrunProxy H → Step H
  from_cache (some (header, body)) ctx p = record {
    outcome = respond (insert_header (codes "X-Cache") (codes "HIT") header) body;
    ctx = ctx;
    after = on_metrics record_cache_hit p;
  }
  from_cache none ctx p = record {
    outcome = forward;
    ctx = ctx;
    after = on_metrics record_cache_miss p;
  }

  unfoldable pub to_backend : Backend → HttpRequest → ProxyCtx H → NyrunProxy H → Step H
  unfolding from_cache
  to_backend (spa dir) session ctx p =
      let (header, body) = serve_spa fs headers session.path dir in
      record { outcome = respond header body; ctx = ctx; after = p }
  to_backend (proxy addr) session ctx p =
      let key = cache_key_of session in
      if text_eq session.method (codes "GET")
      then from_cache (p.cache key) (record ctx { cache_key = key }) p
      else record { outcome = forward; ctx = ctx; after = p }

  unfoldable pub route_request :
      Option RouteEntry → HttpRequest → ProxyCtx H → NyrunProxy H → Step H
  unfolding plain to_backend
  route_request none session ctx p = record {
    outcome = plain 404 (codes "no route found\n");
    ctx = ctx;
    after = p;
  }
  route_request (some r) session ctx p = to_backend r.backend session ctx p

  unfoldable pub answer_challenge : Option Text → HttpRequest → ProxyCtx H → NyrunProxy H → Step H
  unfolding plain route_request
  answer_challenge (some key_auth) session ctx p = record {
    outcome = plain 200 key_auth;
    ctx = ctx;
    after = p;
  }
  answer_challenge none session ctx p =
      route_request (find_route (get_listen_port session) (extract_host session) p.routes) session
        ctx p

  unfoldable pub request_filter : HttpRequest → ProxyCtx H → NyrunProxy H → Step H
  unfolding challenge answer_challenge get_listen_port content_bytes
  request_filter session ctx p =
      if has_port (get_listen_port session) p.dead_ports
      then record { outcome = refused (codes "port closed"); ctx = ctx; after = p }
      else answer_challenge (challenge session p) session
          (record ctx { request_bytes = content_bytes session.content_length }) p

-- The backend of a route, where a proxied one is asked for.
upstream_of : Option RouteEntry → Result SocketAddr
upstream_of none = err (codes "no upstream route")
upstream_of (some r) = elim r.backend [
  | proxy addr ↦ ok addr
  | spa dir ↦ err (codes "no upstream route")
]

unfoldable pub upstream_peer : {H : Type 0} → HttpRequest → NyrunProxy H → Result SocketAddr
unfolding upstream_of
upstream_peer session p =
    upstream_of (find_route (get_listen_port session) (extract_host session) p.routes)

-- The headers that the upstream is sent beside the client's own; `has_real_ip` is whether the request
-- has an X-Real-IP already.
client_headers : Option Text → Bool → List (Text × Text)
client_headers none has_real_ip = []
client_headers (some addr) has_real_ip =
    (codes "X-Forwarded-For", first_part b':' addr)
    ∷ (if has_real_ip then [] else (codes "X-Real-IP", first_part b':' addr) ∷ [])

forwarded_host : Option Text → List (Text × Text)
forwarded_host none = []
forwarded_host (some h) = (codes "X-Forwarded-Host", h) ∷ []

unfoldable pub upstream_request_filter : HttpRequest → Bool → List (Text × Text)
unfolding client_headers forwarded_host
upstream_request_filter session has_real_ip =
    client_headers session.client_addr has_real_ip
    ++ (codes "X-Forwarded-Proto", if session.is_tls then codes "https" else codes "http")
      ∷ forwarded_host session.host
