-- ===== src/Proxy/Manager/Adding.antt =====
-- src/proxy.rs: `add_route_with_tls`, with a certificate that loads and with one that is refused.
use nylon_run.Prelude.{
  ℕ, ◌≡◌, refl, subst, ap, sym, ◌∙◌, ◌==◌, Bool, true, false, Option, none, some, [], ◌∷◌, ◌++◌,
  Text, Result, ok, err, arith, text_eq_refl, ◌⊎◌,
}
use nylon_run.Tls.{Pki}
use nylon_run.Proxy.Routes.{Backend, RouteEntry, RouteTable}
use nylon_run.Proxy.Routes.Lookup.{for_host, for_any_host}
use nylon_run.Proxy.Manager.{
  ProxyManager, has_port, without_name, push_route, install_cert, finish_route, open_port,
  add_route_with_tls,
}
use nylon_run.Proxy.Manager.Ports.{is_used}
use nylon_run.Proxy.Manager.Invariant.{
  IsOpen, IsUnique, has_name, is_served, open_port-IsOpen, append-IsUnique, is_used-append,
  is_used-without_name, has_name-without_name, without_name-IsUnique,
}

abbrev pub entry : Text → ℕ → Option Text → Backend → RouteEntry
entry name port host backend = record { name = name; port = port; host = host; backend = backend }

-- The table with the app's entry put in the place of its old one, at the end.
abbrev pub pushed : RouteEntry → RouteTable → RouteTable
pushed e rs = without_name e.name rs ++ e ∷ []

has_name_gone : (name : Text) (rs : RouteTable) → has_name name (without_name name rs) ≡ false
has_name_gone name rs = ground (arith, has_name-without_name name name rs, text_eq_refl name)

pushed-IsUnique : (e : RouteEntry) (rs : RouteTable) → IsUnique rs → IsUnique (pushed e rs)
pushed-IsUnique e rs h =
    append-IsUnique (without_name e.name rs) e (without_name-IsUnique e.name rs h)
      (has_name_gone e.name rs)

module _ {X509 PKey : Type 0} where
  -- What a step that touches the certificates alone leaves as it was.
  record SameRouting (m m' : ProxyManager X509 PKey) : Type 0 where
    routes : m'.routes ≡ m.routes
    ports : m'.ports ≡ m.ports
    dead_ports : m'.dead_ports ≡ m.dead_ports
    servers : m'.servers ≡ m.servers

  routes-open_port : (port : ℕ) (m : ProxyManager X509 PKey) → (open_port port m).routes ≡ m.routes
  unfolding open_port
  routes-open_port port m = ground arith

  IsOpen-pushed :
      (e : RouteEntry) (m m' : ProxyManager X509 PKey)
      → SameRouting (record m { routes = pushed e m.routes }) m'
      → IsOpen m
      → IsOpen (open_port e.port m')
  IsOpen-pushed e m m' s h =
      open_port-IsOpen e.port m' routed
        (λ p u. ground (arith, ap (has_port p) s.ports, ap (has_port p) s.dead_ports, h.alive p, u))
        (λ p u. ground (arith, ap (has_port p) s.ports, ap (is_served p) s.servers, h.served p, u))
        (subst IsUnique (sym s.routes) (pushed-IsUnique e m.routes h.unique))
    where
      routed :
          (p : ℕ)
          → is_used p m'.routes ≡ true
          → (has_port p m'.ports ≡ true) ⊎ ((e.port == p) ≡ true)
      routed p u = ground (
        arith,
        ap (is_used p) s.routes,
        ap (has_port p) s.ports,
        is_used-append p (without_name e.name m.routes) e,
        is_used-without_name p e.name m.routes,
        h.routed p,
        u,
      )

  module _ (pki : Pki X509 PKey) where
    install_cert-SameRouting :
        (port : ℕ) (host : Option Text) (ssl : Option (Text × Text)) (m : ProxyManager X509 PKey)
        → SameRouting m (install_cert pki port host ssl m).1
    unfolding install_cert
    install_cert-SameRouting port host none m = ground arith
    install_cert-SameRouting port host (some (c, k)) m = ground arith

    routes-finish_route :
        (port : ℕ) (r : Result (Unit {0}) × ProxyManager X509 PKey)
        → (finish_route pki port r).1.routes ≡ r.1.routes
    unfolding finish_route
    routes-finish_route port (err e, m) = refl
    routes-finish_route port (ok u, m) = routes-open_port port m

    -- The table gets the new entry whether or not the certificate loads.
    pub routes-add_route_with_tls :
        (name : Text) (port : ℕ) (host : Option Text) (backend : Backend)
        (ssl : Option (Text × Text)) (m : ProxyManager X509 PKey)
        → (add_route_with_tls pki name port host backend ssl m).1.routes
          ≡ pushed (entry name port host backend) m.routes
    unfolding add_route_with_tls
    routes-add_route_with_tls name port host backend ssl m =
        routes-finish_route port
          (install_cert pki port host ssl (push_route name port host backend m))
        ∙ (install_cert-SameRouting port host ssl (push_route name port host backend m)).routes
        ∙ unfold push_route in refl

    finish_route-IsOpen :
        (port : ℕ) (r : Result (Unit {0}) × ProxyManager X509 PKey)
        → ((u : Unit {0}) → IsOpen (open_port port r.1))
        → (finish_route pki port r).0 ≡ ok tt
        → IsOpen (finish_route pki port r).1
    unfolding finish_route
    finish_route-IsOpen port (err e, m) h k = cc
    finish_route-IsOpen port (ok u, m) h k = h u

    -- Adding a route with success keeps the proxy in order: the port of each route, the new one included, is
    -- listened on by a server that was started with it and is not marked dead, and no app has two routes.
    pub add_route_with_tls-IsOpen :
        (name : Text) (port : ℕ) (host : Option Text) (backend : Backend)
        (ssl : Option (Text × Text)) (m : ProxyManager X509 PKey)
        → IsOpen m
        → (add_route_with_tls pki name port host backend ssl m).0 ≡ ok tt
        → IsOpen (add_route_with_tls pki name port host backend ssl m).1
    unfolding add_route_with_tls
    add_route_with_tls-IsOpen name port host backend ssl m h =
        finish_route-IsOpen port
          (install_cert pki port host ssl (push_route name port host backend m))
          (λ u.
            IsOpen-pushed (entry name port host backend) m
              (install_cert pki port host ssl (push_route name port host backend m)).1
              (unfold push_route in
                install_cert-SameRouting port host ssl (push_route name port host backend m))
              h)

    unchanged_if_err :
        (port : ℕ) (r : Result (Unit {0}) × ProxyManager X509 PKey) (e : Text)
        → (finish_route pki port r).0 ≡ err e
        → (finish_route pki port r).1 ≡ r.1
    unfolding finish_route
    unchanged_if_err port (err e, m) e' h = refl
    unchanged_if_err port (ok u, m) e' h = cc

    -- A route whose certificate is refused stays in the table, in the place of the app's old one,
    -- although the call fails; the ports, dead ports and servers are what they were.
    pub add_route_with_tls_refused :
        (name : Text) (port : ℕ) (host : Option Text) (backend : Backend)
        (ssl : Option (Text × Text)) (m : ProxyManager X509 PKey) (e : Text)
        → (add_route_with_tls pki name port host backend ssl m).0 ≡ err e
        → let m' = (add_route_with_tls pki name port host backend ssl m).1 in
          (m'.routes ≡ pushed (entry name port host backend) m.routes)
          × (m'.ports ≡ m.ports)
          × (m'.dead_ports ≡ m.dead_ports)
          × (m'.servers ≡ m.servers)
    unfolding add_route_with_tls
    add_route_with_tls_refused name port host backend ssl m e h =
        let installed = install_cert pki port host ssl (push_route name port host backend m) in
        let same : SameRouting (push_route name port host backend m) installed.1 =
          install_cert-SameRouting port host ssl (push_route name port host backend m) in
        let kept = unchanged_if_err port installed e h in
        (
          ap (λ m. m.routes) kept ∙ same.routes ∙ unfold push_route in refl,
          ap (λ m. m.ports) kept ∙ same.ports ∙ unfold push_route in refl,
          ap (λ m. m.dead_ports) kept ∙ same.dead_ports ∙ unfold push_route in refl,
          ap (λ m. m.servers) kept ∙ same.servers ∙ unfold push_route in refl,
        )

-- The entry is for the port and for just this host, or for just any host.
abbrev pub matches : ℕ → Option Text → RouteEntry → Bool
matches port none = for_any_host port
matches port (some h) = for_host port h

abbrev or_else : Option RouteEntry → Option RouteEntry → Option RouteEntry
or_else o f = elim o [ some r ↦ some r | none ↦ f ]
