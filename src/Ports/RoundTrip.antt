-- ===== src/Ports/RoundTrip.antt =====
-- src/main.rs: `parse_port_mapping` and the print of a port mapping.
use nylon_run.Prelude.{
  unwrap_or, ℕ, ◌≤◌, ◌≡◌, refl, subst, ◌∙◌, ap, Option, none, some, List, [], ◌∷◌, ◌++◌, Text, All,
  Lacks, arith, Result, ok, err, ◌>>=◌, split, length,
}
use nylon_run.Prelude.Decimals.{
  decimal, max_u16, IsDigit, decimal-IsDigit, parse_uint-le, parse_uint-decimal,
}
use nylon_run.Prelude.Splits.{split-Lacks, split-append, split-All}
use nylon_run.Protocol.{PortMapping}
use nylon_run.Ports.{
  parse_port, port_mapping_of, parse_port_mapping, show_port_mapping, show_host, show_without_host,
}

abbrev pub HostLacks : Option Text → Type 0
HostLacks none = Unit
HostLacks (some host) = Lacks b':' host

abbrev pub AppInRange : Option ℕ → Type 0
AppInRange none = Unit
AppInRange (some app) = app ≤ max_u16

-- The ports are 16-bit numbers and the host holds no colon.
pub record IsPortMapping (pm : PortMapping) : Type 0 where
  pub public_range : pm.public_port ≤ max_u16
  pub app_range : AppInRange pm.app_port
  pub plain_host : HostLacks pm.host

-- With a host, an absent application port is printed as the public port.
abbrev explicit_app : Option Text → ℕ → Option ℕ → Option ℕ
explicit_app none public app = app
explicit_app (some host) public app = some (unwrap_or app public)

abbrev pub explicit : PortMapping → PortMapping
explicit pm = record pm { app_port = explicit_app pm.host pm.public_port pm.app_port }

digits-Lacks : (s : Text) → All IsDigit s → Lacks b':' s
digits-Lacks [] h = tt
digits-Lacks (c ∷ s) h = (λ e. omega (arith, e), digits-Lacks s h.1)

decimal-Lacks : (n : ℕ) → Lacks b':' (decimal n)
decimal-Lacks n = digits-Lacks (decimal n) (decimal-IsDigit n)

parse_port-decimal : (p : ℕ) → p ≤ max_u16 → parse_port (decimal p) ≡ ok p
unfolding parse_port
parse_port-decimal p h = rw (parse_uint-decimal max_u16 p h, parse_port)

split_one : (p : ℕ) → split b':' (decimal p) ≡ decimal p ∷ []
split_one p = split-Lacks b':' (decimal p) (decimal-Lacks p)

split_two : (p q : ℕ) → split b':' (decimal p ++ b':' ∷ decimal q) ≡ decimal p ∷ decimal q ∷ []
split_two p q =
    split-append b':' (decimal p) (decimal q) (decimal-Lacks p)
    ∙ ap (λ t. decimal p ∷ t) (split_one q)

split_three :
    (host : Text) (p q : ℕ)
    → Lacks b':' host
    → split b':' (host ++ b':' ∷ (decimal p ++ b':' ∷ decimal q))
      ≡ host ∷ decimal p ∷ decimal q ∷ []
split_three host p q h =
    split-append b':' host (decimal p ++ b':' ∷ decimal q) h ∙ ap (λ t. host ∷ t) (split_two p q)

parse_of_parts :
    (t : Text) {ps : List Text} → split b':' t ≡ ps → parse_port_mapping t ≡ port_mapping_of t ps
unfolding parse_port_mapping
parse_of_parts t e = ap (port_mapping_of t) e

two_ports :
    (t : Text) (p q : ℕ)
    → p ≤ max_u16
    → q ≤ max_u16
    → port_mapping_of t (decimal p ∷ decimal q ∷ [])
      ≡ ok (record { host = none; public_port = p; app_port = some q })
unfolding port_mapping_of
two_ports t p q hp hq = rw (parse_port-decimal p hp) (rw (parse_port-decimal q hq))

three_parts :
    (t host : Text) (p q : ℕ)
    → p ≤ max_u16
    → q ≤ max_u16
    → port_mapping_of t (host ∷ decimal p ∷ decimal q ∷ [])
      ≡ ok (record { host = some host; public_port = p; app_port = some q })
unfolding port_mapping_of
three_parts t host p q hp hq = rw (parse_port-decimal p hp) (rw (parse_port-decimal q hq))

one_port :
    (t : Text) (p : ℕ)
    → p ≤ max_u16
    → port_mapping_of t (decimal p ∷ [])
      ≡ ok (record { host = none; public_port = p; app_port = none })
unfolding port_mapping_of
one_port t p hp = rw (parse_port-decimal p hp)

parse-show_host :
    (host : Option Text) (p : ℕ) (app : Option ℕ)
    → p ≤ max_u16
    → AppInRange app
    → HostLacks host
    → parse_port_mapping (show_host host p app)
      ≡ ok (record { host = host; public_port = p; app_port = explicit_app host p app })
unfolding show_host show_without_host
parse-show_host none p none hp ha hh = parse_of_parts _ (split_one p) ∙ one_port _ p hp
parse-show_host none p (some q) hp ha hh = parse_of_parts _ (split_two p q) ∙ two_ports _ p q hp ha
parse-show_host (some host) p none hp ha hh =
    parse_of_parts _ (split_three host p p hh) ∙ three_parts _ host p p hp hp
parse-show_host (some host) p (some q) hp ha hh =
    parse_of_parts _ (split_three host p q hh) ∙ three_parts _ host p q hp ha

-- A mapping with 16-bit ports and no colon in the host is read back from its print, with the
-- application port written out where a host is given.
pub parse_port_mapping-show :
    (pm : PortMapping)
    → IsPortMapping pm
    → parse_port_mapping (show_port_mapping pm) ≡ ok (explicit pm)
unfolding show_port_mapping
parse_port_mapping-show pm v =
    parse-show_host pm.host pm.public_port pm.app_port v.public_range v.app_range v.plain_host

parse_port-le : (s : Text) (p : ℕ) → parse_port s ≡ ok p → p ≤ max_u16
unfolding parse_port
parse_port-le s p h = ground (arith, parse_uint-le max_u16 s p)

ok_injective {ℓ} : {A : Type ℓ} (a b : A) → Result.ok a ≡ Result.ok b → a ≡ b
ok_injective a b h = cc

-- A mapping as the parser gives it, for a text of `n` parts.
abbrev IsParsed : ℕ → PortMapping → Type 0
IsParsed n pm =
    IsPortMapping pm × (explicit pm ≡ pm) × (length (split b':' (show_port_mapping pm)) ≡ n)

single_port :
    (r : Result ℕ) (pm : PortMapping)
    → ((p : ℕ) → r ≡ ok p → p ≤ max_u16)
    → (do p ← r; ok (record { host = none; public_port = p; app_port = none })) ≡ ok pm
    → IsParsed 1 pm
unfolding show_port_mapping show_host show_without_host
single_port (ok p) pm h e = subst (IsParsed 1) (ok_injective _ _ e) (
  record { public_range = h p refl; app_range = tt; plain_host = tt },
  refl,
  ap length (split_one p),
)
single_port (err m) pm h e = cc

two_parts :
    (ra rb : Result ℕ) (pm : PortMapping)
    → ((p : ℕ) → ra ≡ ok p → p ≤ max_u16)
    → ((p : ℕ) → rb ≡ ok p → p ≤ max_u16)
    → (do p ← ra; q ← rb; ok (record { host = none; public_port = p; app_port = some q })) ≡ ok pm
    → IsParsed 2 pm
unfolding show_port_mapping show_host show_without_host
two_parts (ok p) (ok q) pm ha hb e = subst (IsParsed 2) (ok_injective _ _ e) (
  record { public_range = ha p refl; app_range = hb q refl; plain_host = tt },
  refl,
  ap length (split_two p q),
)
two_parts (err m) rb pm ha hb e = cc
two_parts (ok p) (err m) pm ha hb e = cc

with_host :
    (host : Text) (ra rb : Result ℕ) (pm : PortMapping)
    → Lacks b':' host
    → ((p : ℕ) → ra ≡ ok p → p ≤ max_u16)
    → ((p : ℕ) → rb ≡ ok p → p ≤ max_u16)
    → (do p ← ra; q ← rb; ok (record { host = some host; public_port = p; app_port = some q }))
      ≡ ok pm
    → IsParsed 3 pm
unfolding show_port_mapping show_host show_without_host
with_host host (ok p) (ok q) pm hh ha hb e = subst (IsParsed 3) (ok_injective _ _ e) (
  record { public_range = ha p refl; app_range = hb q refl; plain_host = hh },
  refl,
  ap length (split_three host p q hh),
)
with_host host (err m) rb pm hh ha hb e = cc
with_host host (ok p) (err m) pm hh ha hb e = cc

port_mapping_of-IsParsed :
    (t : Text) (parts : List Text) (pm : PortMapping)
    → All (Lacks b':') parts
    → port_mapping_of t parts ≡ ok pm
    → IsParsed (length parts) pm
unfolding port_mapping_of
port_mapping_of-IsParsed t [] pm hp h = cc
port_mapping_of-IsParsed t (a ∷ []) pm hp h = single_port (parse_port a) pm (parse_port-le a) h
port_mapping_of-IsParsed t (a ∷ b ∷ []) pm hp h =
    two_parts (parse_port a) (parse_port b) pm (parse_port-le a) (parse_port-le b) h
port_mapping_of-IsParsed t (a ∷ b ∷ c ∷ []) pm (ha, _) h =
    with_host a (parse_port b) (parse_port c) pm ha (parse_port-le b) (parse_port-le c) h
port_mapping_of-IsParsed t (a ∷ b ∷ c ∷ d ∷ ps) pm hp h = cc

-- A text that is accepted has as many parts between colons as the print of its mapping, and the print is
-- accepted again with the same mapping.
pub parse_port_mapping-show_parsed :
    (t : Text) (pm : PortMapping)
    → parse_port_mapping t ≡ ok pm
    → (parse_port_mapping (show_port_mapping pm) ≡ ok pm)
      × (length (split b':' (show_port_mapping pm)) ≡ length (split b':' t))
parse_port_mapping-show_parsed t pm h =
    let (v, e, n) =
      port_mapping_of-IsParsed t (split b':' t) pm (split-All b':' t)
        (unfold parse_port_mapping in h) in
    (parse_port_mapping-show pm v ∙ ap ok e, n)
