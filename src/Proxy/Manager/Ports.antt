-- ===== src/Proxy/Manager/Ports.antt =====
-- src/proxy.rs: which ports `remove_routes` closes.
use nylon_run.Prelude.{
  ℕ, ◌≡◌, refl, subst, ap, sym, ==_iff, ◌∙◌, ◌==◌, Bool, true, false, not, ◌&&◌, ◌||◌, List, [],
  ◌∷◌, ◌++◌, Text, any, arith, Bool-cases, inl, inr,
}
use nylon_run.Proxy.Routes.{RouteTable}
use nylon_run.Proxy.Manager.{
  ProxyManager, has_port, insert_port, remove_port, without_name, ports_of, close_port, close_ports,
  remove_routes,
}

pub has_port-append :
    (p q : ℕ) (ps : List ℕ) → has_port p (ps ++ q ∷ []) ≡ has_port p ps || (q == p)
has_port-append p q [] = ground arith
has_port-append p q (r ∷ ps) = ground (arith, has_port-append p q ps)

pub has_port-insert_port :
    (p q : ℕ) (ps : List ℕ) → has_port p (insert_port q ps) ≡ (q == p) || has_port p ps
has_port-insert_port p q ps = elim (Bool-cases (has_port q ps)) [
  | inl e ↦ rw e (elim (Bool-cases (q == p)) [
    | inl same ↦ ground (arith, at_same p q ps e)
    | inr other ↦ rw other
  ])
  | inr e ↦ rw e
]
  where
    at_same :
        (p q : ℕ) (ps : List ℕ) → has_port q ps ≡ true → (q == p) ≡ true → has_port p ps ≡ true
    at_same p q ps h e = subst (λ x. has_port x ps ≡ true) ((==_iff q p).0 e) h

pub has_port-remove_port :
    (p q : ℕ) (ps : List ℕ) → has_port p (remove_port q ps) ≡ not (q == p) && has_port p ps
has_port-remove_port p q [] = ground arith
has_port-remove_port p q (r ∷ ps) = ground (arith, has_port-remove_port p q ps)

-- Some route is on the port.
abbrev pub is_used : ℕ → RouteTable → Bool
is_used p = any (λ r. r.port == p)

-- The port is among the removed ones and no route is left on it.
abbrev pub is_closed : ℕ → RouteTable → List ℕ → Bool
is_closed p routes removed = has_port p removed && not (is_used p routes)

module _ {X509 PKey : Type 0} where
  pub routes-close_port : (m : ProxyManager X509 PKey) (q : ℕ) → (close_port m q).routes ≡ m.routes
  unfolding close_port
  routes-close_port m q = ground arith

  -- Both tests at once, for a port that is in question and one that is not.
  close_port_self :
      (m : ProxyManager X509 PKey) (p : ℕ)
      → (has_port p (close_port m p).ports ≡ has_port p m.ports && is_used p m.routes)
        × (has_port p (close_port m p).dead_ports
            ≡ has_port p m.dead_ports || not (is_used p m.routes))
  unfolding close_port
  close_port_self m p =
      ground (arith, has_port-remove_port p p m.ports, has_port-insert_port p p m.dead_ports)

  close_port_other :
      (m : ProxyManager X509 PKey) (p q : ℕ)
      → (q == p) ≡ false
      → (has_port p (close_port m q).ports ≡ has_port p m.ports)
        × (has_port p (close_port m q).dead_ports ≡ has_port p m.dead_ports)
  unfolding close_port
  close_port_other m p q h =
      ground (arith, has_port-remove_port p q m.ports, has_port-insert_port p q m.dead_ports)

  abbrev Closes : ProxyManager X509 PKey → List ℕ → ProxyManager X509 PKey → ℕ → Type 0
  Closes m qs m' p =
      (m'.routes ≡ m.routes)
      × (has_port p m'.ports ≡ has_port p m.ports && not (is_closed p m.routes qs))
      × (has_port p m'.dead_ports ≡ has_port p m.dead_ports || is_closed p m.routes qs)

  close_port-Closes : (m : ProxyManager X509 PKey) (p q : ℕ) → Closes m (q ∷ []) (close_port m q) p
  close_port-Closes m p q = elim (Bool-cases (q == p)) [
    | inl e ↦
        subst (λ x. Closes m (x ∷ []) (close_port m x) p) (sym ((==_iff q p).0 e))
          (ground (arith, routes-close_port m p, close_port_self m p))
    | inr e ↦ ground (arith, routes-close_port m q, close_port_other m p q e)
  ]

  Closes-trans :
      (m m₁ m' : ProxyManager X509 PKey) (p q : ℕ) (qs : List ℕ)
      → Closes m (q ∷ []) m₁ p
      → Closes m₁ qs m' p
      → Closes m (q ∷ qs) m' p
  Closes-trans m m₁ m' p q qs (r₁, o₁, d₁) (r₂, o₂, d₂) =
      let used : is_used p m₁.routes ≡ is_used p m.routes = ap (λ r. is_used p r) r₁ in
      (r₂ ∙ r₁, ground arith, ground arith)

  close_ports-Closes :
      (m : ProxyManager X509 PKey) (qs : List ℕ) (p : ℕ) → Closes m qs (close_ports m qs) p
  unfolding close_ports
  close_ports-Closes m [] p = ground arith
  close_ports-Closes m (q ∷ qs) p =
      Closes-trans m (close_port m q) (close_ports (close_port m q) qs) p q qs
        (close_port-Closes m p q) (close_ports-Closes (close_port m q) qs p)

  -- Removing an app drops its routes and no other, and closes a port exactly when the app had a route
  -- on it and no other app has: such a port is not served any more and is dead. Every other port is
  -- served, or dead, if and only if it was.
  pub remove_routes_lem :
      (name : Text) (m : ProxyManager X509 PKey) (p : ℕ)
      → ((remove_routes name m).routes ≡ without_name name m.routes)
        × (has_port p (remove_routes name m).ports
            ≡ has_port p m.ports
              && not (is_closed p (without_name name m.routes) (ports_of name m.routes)))
        × (has_port p (remove_routes name m).dead_ports
            ≡ has_port p m.dead_ports
              || is_closed p (without_name name m.routes) (ports_of name m.routes))
  remove_routes_lem name m p =
      unfold remove_routes in
      close_ports-Closes (record m { routes = without_name name m.routes }) (ports_of name m.routes)
        p

  servers-close_ports :
      (m : ProxyManager X509 PKey) (qs : List ℕ) → (close_ports m qs).servers ≡ m.servers
  unfolding close_ports
  servers-close_ports m [] = refl
  servers-close_ports m (q ∷ qs) = servers-close_ports (close_port m q) qs ∙ servers-close_port m q
    where
      servers-close_port :
          (m : ProxyManager X509 PKey) (q : ℕ) → (close_port m q).servers ≡ m.servers
      servers-close_port m q = ground arith

  pub servers-remove_routes :
      (name : Text) (m : ProxyManager X509 PKey) → (remove_routes name m).servers ≡ m.servers
  servers-remove_routes name m =
      unfold remove_routes in
      servers-close_ports (record m { routes = without_name name m.routes })
        (ports_of name m.routes)
