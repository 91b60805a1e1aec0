-- ===== src/Proxy/Filter/Forwarding.antt =====
-- src/proxy.rs: the two lookups of a request's route, in `request_filter` and `upstream_peer`.
use nylon_run.Prelude.{
  ◌≡◌, refl, false, Option, none, some, Text, ok, arith, Bool-cases, inl, inr, codes,
}
use nylon_run.Proxy.Routes.{SocketAddr, Backend, proxy, spa, RouteEntry, find_route}
use nylon_run.Proxy.Manager.{has_port}
use nylon_run.Proxy.Http.{Headers, HttpRequest}
use nylon_run.Proxy.Spa.{Files}
use nylon_run.Proxy.Filter.{
  ProxyCtx, NyrunProxy, Filtered, refused, forward, get_listen_port, extract_host, request_filter,
  upstream_peer, upstream_of, to_backend, route_request, answer_challenge, challenge,
}

abbrev HasUpstream : Option RouteEntry → Type 0
HasUpstream o = (addr : SocketAddr) × (upstream_of o ≡ ok addr)

module _ {H : Type 0} (headers : Headers H) (fs : Files) where
  backend_forward :
      (r : RouteEntry) (b : Backend) (session : HttpRequest) (ctx : ProxyCtx H) (p : NyrunProxy H)
      → r.backend ≡ b
      → (to_backend headers fs b session ctx p).outcome ≡ forward
      → HasUpstream (some r)
  unfolding upstream_of
  backend_forward r (proxy addr) session ctx p e h = (addr, ground arith)
  backend_forward r (spa dir) session ctx p e h = unfold to_backend in cc

  route_forward :
      (o : Option RouteEntry) (session : HttpRequest) (ctx : ProxyCtx H) (p : NyrunProxy H)
      → (route_request headers fs o session ctx p).outcome ≡ forward
      → HasUpstream o
  unfolding route_request
  route_forward none session ctx p h = cc
  route_forward (some r) session ctx p h = backend_forward r r.backend session ctx p refl h

  challenge_forward :
      (o : Option Text) (session : HttpRequest) (ctx : ProxyCtx H) (p : NyrunProxy H)
      → (answer_challenge headers fs o session ctx p).outcome ≡ forward
      → HasUpstream (find_route (get_listen_port session) (extract_host session) p.routes)
  unfolding answer_challenge
  challenge_forward none session ctx p h =
      route_forward (find_route (get_listen_port session) (extract_host session) p.routes) session
        ctx p h
  challenge_forward (some key_auth) session ctx p h = cc

  -- If the filter passes a request on, its port is not dead, and the lookup of the upstream in the same
  -- routes finds an address.
  pub upstream_peer-request_filter :
      (session : HttpRequest) (ctx : ProxyCtx H) (p : NyrunProxy H)
      → (request_filter headers fs session ctx p).outcome ≡ forward
      → (has_port (get_listen_port session) p.dead_ports ≡ false)
        × ((addr : SocketAddr) × (upstream_peer session p ≡ ok addr))
  unfolding request_filter upstream_peer
  upstream_peer-request_filter session ctx p h =
      elim (Bool-cases (has_port (get_listen_port session) p.dead_ports)) [
        | inl e ↦ absurd (closed (rw e at h))
        | inr e ↦ (e, challenge_forward (challenge headers fs session p) session _ p (rw e at h))
      ]
    where
      closed : ◌≡◌ {A = Filtered H} (refused (codes "port closed")) forward → ⊥
      closed h = cc
