-- ===== src/Proxy/Manager/Invariant.antt =====
-- src/proxy.rs: the invariant of the routes, ports and servers of `ProxyManager`.
use nylon_run.Prelude.{
  ℕ, ◌≡◌, refl, subst, sym, ◌==◌, ==_iff, Bool, true, false, not, ◌&&◌, ◌||◌, List, [], ◌∷◌, ◌++◌,
  Text, any, arith, text_eq, text_eq_iff, Bool-cases, inl, inr, ◌⊎◌,
}
use nylon_run.Proxy.Routes.{RouteEntry, RouteTable}
use nylon_run.Proxy.Manager.{ProxyManager, Server, has_port, without_name, open_port, remove_routes}
use nylon_run.Proxy.Manager.Ports.{
  has_port-append, has_port-remove_port, is_used, remove_routes_lem, servers-remove_routes,
}

abbrev pub has_name : Text → RouteTable → Bool
has_name name = any (λ r. text_eq r.name name)

-- Each app has one entry at most.
abbrev pub IsUnique : RouteTable → Type 0
IsUnique [] = Unit
IsUnique (r ∷ rs) = (has_name r.name rs ≡ false) × IsUnique rs

abbrev pub is_served : ℕ → List Server → Bool
is_served p = any (λ s. has_port p s.ports)

module _ {X509 PKey : Type 0} where
  pub record IsOpen (m : ProxyManager X509 PKey) : Type 0 where
    pub routed : (p : ℕ) → is_used p m.routes ≡ true → has_port p m.ports ≡ true
    pub alive : (p : ℕ) → has_port p m.ports ≡ true → has_port p m.dead_ports ≡ false
    pub served : (p : ℕ) → has_port p m.ports ≡ true → is_served p m.servers ≡ true
    pub unique : IsUnique m.routes

pub has_name-without_name :
    (n name : Text) (rs : RouteTable)
    → has_name n (without_name name rs) ≡ has_name n rs && not (text_eq n name)
has_name-without_name n name [] = ground arith
has_name-without_name n name (r ∷ rs) = ground (
  arith,
  has_name-without_name n name rs,
  text_eq_iff r.name n,
  text_eq_iff r.name name,
  text_eq_iff n name,
)

pub without_name-IsUnique :
    (name : Text) (rs : RouteTable) → IsUnique rs → IsUnique (without_name name rs)
without_name-IsUnique name [] h = tt
without_name-IsUnique name (r ∷ rs) (h, k) =
    ground (arith, has_name-without_name r.name name rs, without_name-IsUnique name rs k)

pub has_name-append :
    (n : Text) (rs : RouteTable) (e : RouteEntry)
    → has_name n (rs ++ e ∷ []) ≡ has_name n rs || text_eq e.name n
has_name-append n [] e = ground arith
has_name-append n (r ∷ rs) e = ground (arith, has_name-append n rs e)

pub append-IsUnique :
    (rs : RouteTable) (e : RouteEntry)
    → IsUnique rs
    → has_name e.name rs ≡ false
    → IsUnique (rs ++ e ∷ [])
append-IsUnique [] e h k = (refl, tt)
append-IsUnique (r ∷ rs) e (h, hs) k = ground (
  arith,
  has_name-append r.name rs e,
  append-IsUnique rs e hs,
  text_eq_iff e.name r.name,
  text_eq_iff r.name e.name,
)

pub is_used-without_name :
    (p : ℕ) (name : Text) (rs : RouteTable)
    → is_used p (without_name name rs) ≡ true
    → is_used p rs ≡ true
is_used-without_name p name [] h = h
is_used-without_name p name (r ∷ rs) h = ground (arith, is_used-without_name p name rs)

pub is_used-append :
    (p : ℕ) (rs : RouteTable) (e : RouteEntry)
    → is_used p (rs ++ e ∷ []) ≡ is_used p rs || (e.port == p)
is_used-append p [] e = ground arith
is_used-append p (r ∷ rs) e = ground (arith, is_used-append p rs e)

has_port_same :
    (p q : ℕ) (ps : List ℕ) → has_port q ps ≡ true → (q == p) ≡ true → has_port p ps ≡ true
has_port_same p q ps h e = subst (λ x. has_port x ps ≡ true) ((==_iff q p).0 e) h

module _ {X509 PKey : Type 0} where
  -- Removing an app keeps every route that is left reachable.
  pub remove_routes-IsOpen :
      (name : Text) (m : ProxyManager X509 PKey) → IsOpen m → IsOpen (remove_routes name m)
  remove_routes-IsOpen name m h = record {
    routed = λ p u. routed p (subst (λ rs. is_used p rs ≡ true) ((remove_routes_lem name m p).0) u);
    alive = λ p u. ground (arith, remove_routes_lem name m p, h.alive p);
    served = λ p u.
        subst (λ ss. is_served p ss ≡ true) (sym (servers-remove_routes name m))
          (h.served p (ground (arith, remove_routes_lem name m p)));
    unique =
        subst IsUnique (sym ((remove_routes_lem name m 0).0))
          (without_name-IsUnique name m.routes h.unique);
  }
    where
      routed :
          (p : ℕ)
          → is_used p (without_name name m.routes) ≡ true
          → has_port p (remove_routes name m).ports ≡ true
      routed p u =
          ground
            (arith, remove_routes_lem name m p, h.routed p, is_used-without_name p name m.routes u)

  pub open_port-IsOpen :
      (port : ℕ) (m : ProxyManager X509 PKey)
      → ((p : ℕ) → is_used p m.routes ≡ true → (has_port p m.ports ≡ true) ⊎ ((port == p) ≡ true))
      → ((p : ℕ) → has_port p m.ports ≡ true → has_port p m.dead_ports ≡ false)
      → ((p : ℕ) → has_port p m.ports ≡ true → is_served p m.servers ≡ true)
      → IsUnique m.routes
      → IsOpen (open_port port m)
  unfolding open_port
  open_port-IsOpen port m routed alive served unique = elim (Bool-cases (has_port port m.ports)) [
    | inl e ↦ rw e (record {
      routed = λ p u. ground (arith, routed p u, has_port_same p port m.ports e);
      alive = λ p u. ground (arith, has_port-remove_port p port m.dead_ports, alive p u);
      served = served;
      unique = unique;
    })
    | inr e ↦ rw e (record {
      routed = λ p u. ground (arith, routed p u, has_port-append p port m.ports);
      alive = λ p u. ground (
        arith,
        has_port-append p port m.ports,
        has_port-remove_port p port m.dead_ports,
        alive p,
      );
      served = λ p u. ground (arith, u);
      unique = unique;
    })
  ]
