-- ===== src/Proxy/Routes/Lookup.antt =====
-- src/proxy.rs: which entry `RouteTable::find` gives.
use nylon_run.Prelude.{
  ℕ, ◌≡◌, refl, Bool, true, false, Option, none, some, [], ◌∷◌, Text, find, ◌==◌, ◌&&◌, arith, inl,
  inr, Bool-cases,
}
use nylon_run.Proxy.Routes.{
  RouteEntry, RouteTable, is_host, is_none, on_port, find_host, find_route,
}

-- The entry stands in the table, and before it none that passes the test.
pub data FirstThat (p : RouteEntry → Bool) (r : RouteEntry) : RouteTable → Type 0 where
  here : {rs : RouteTable} → p r ≡ true → FirstThat p r (r ∷ rs)
  there :
      {e : RouteEntry} {rs : RouteTable} → p e ≡ false → FirstThat p r rs → FirstThat p r (e ∷ rs)

pub data NoneThat (p : RouteEntry → Bool) : RouteTable → Type 0 where
  nil : NoneThat p []
  cons : {e : RouteEntry} {rs : RouteTable} → p e ≡ false → NoneThat p rs → NoneThat p (e ∷ rs)

abbrev pub for_host : ℕ → Text → RouteEntry → Bool
for_host port h r = (r.port == port) && is_host h r.host

abbrev pub for_any_host : ℕ → RouteEntry → Bool
for_any_host port r = (r.port == port) && is_none r.host

-- A search among the entries of a port is a search in the table.
pub find-on_port :
    (port : ℕ) (p : RouteEntry → Bool) (rs : RouteTable)
    → find p (on_port port rs) ≡ find (λ r. (r.port == port) && p r) rs
find-on_port port p [] = refl
find-on_port port p (r ∷ rs) = ground (arith, find-on_port port p rs)

abbrev Found : (RouteEntry → Bool) → RouteTable → Option RouteEntry → Type 0
Found p rs none = NoneThat p rs
Found p rs (some r) = FirstThat p r rs

Found-cons :
    (p : RouteEntry → Bool) (e : RouteEntry) (rs : RouteTable) (o : Option RouteEntry)
    → p e ≡ false
    → Found p rs o
    → Found p (e ∷ rs) o
Found-cons p e rs none h f = cons h f
Found-cons p e rs (some r) h f = there h f

find-Found : (p : RouteEntry → Bool) (rs : RouteTable) → Found p rs (find p rs)
find-Found p [] = nil
find-Found p (r ∷ rs) = elim (Bool-cases (p r)) [
  | inl e ↦ rw e (here e)
  | inr e ↦ rw e (Found-cons p r rs (find p rs) e (find-Found p rs))
]

abbrev pub NoExact : ℕ → Option Text → RouteTable → Type 0
NoExact port none rs = Unit
NoExact port (some h) rs = NoneThat (for_host port h) rs

-- The contract of the table: which entry a request on `port` for `host` gets.
pub data Selects (port : ℕ) (host : Option Text) (rs : RouteTable)
    : Option RouteEntry → Type 0 where
  exact :
      {h : Text} {r : RouteEntry}
      → host ≡ some h
      → FirstThat (for_host port h) r rs
      → Selects port host rs (some r)
  fallback :
      {r : RouteEntry}
      → NoExact port host rs
      → FirstThat (for_any_host port) r rs
      → Selects port host rs (some r)
  missing : NoExact port host rs → NoneThat (for_any_host port) rs → Selects port host rs none

fallback-Selects :
    (port : ℕ) (host : Option Text) (rs : RouteTable) (o : Option RouteEntry)
    → NoExact port host rs
    → Found (for_any_host port) rs o
    → Selects port host rs o
fallback-Selects port host rs none n f = missing n f
fallback-Selects port host rs (some r) n f = fallback n f

any-Found :
    (port : ℕ) (rs : RouteTable)
    → Found (for_any_host port) rs (find (λ r. is_none r.host) (on_port port rs))
any-Found port rs =
    rw (find-on_port port (λ r. is_none r.host) rs) (find-Found (for_any_host port) rs)

host-Selects :
    (port : ℕ) (h : Text) (rs : RouteTable) (o : Option RouteEntry)
    → Found (for_host port h) rs o
    → Selects port
        (some h)
        rs
        (elim o [ some r ↦ some r | none ↦ find (λ r. is_none r.host) (on_port port rs) ])
host-Selects port h rs none f = fallback-Selects port (some h) rs _ f (any-Found port rs)
host-Selects port h rs (some r) f = exact refl f

-- For any table, port and host, the lookup gives the first entry for the port and the host, where
-- there is none the first entry for the port with no host, and nothing where there is neither.
pub find_route-Selects :
    (port : ℕ) (host : Option Text) (rs : RouteTable)
    → Selects port host rs (find_route port host rs)
unfolding find_route find_host
find_route-Selects port none rs = fallback-Selects port none rs _ tt (any-Found port rs)
find_route-Selects port (some h) rs =
    host-Selects port h rs _
      (rw (find-on_port port (λ r. is_host h r.host) rs) (find-Found (for_host port h) rs))
