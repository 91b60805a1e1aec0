-- ===== src/Acme/Challenges.antt =====
-- src/acme.rs: what an issue leaves of its challenges.
use nylon_run.Prelude.{
  ◌≡◌, refl, sym, ap, subst, ◌∙◌, ◌⊎◌, inl, inr, Bool, true, false, Option, none, some, List, [],
  ◌∷◌, Text, Result, Action, ok, err, arith, any, text_eq, codes, map_err, if◌then◌else◌,
  Bool-cases,
}
use nylon_run.Prelude.Actions.{continue, lift, ◌>>=◌, ◌>>◌}
use nylon_run.Prelude.Ends.{Ends, Ends-weaken, Ends-continue}
use nylon_run.Prelude.Maps.{lookup, insert, remove, lookup-insert, lookup-remove}
use nylon_run.System.{Os}
use nylon_run.Tls.{Pki}
use nylon_run.Acme.{
  ChallengeStore, Authorization, Order, Issuer, Issuing, set_challenge, set_challenges, readied,
  with_token, remove_challenges, account, set_all, remove_all, poll_ready, fetch, request_cert,
  load_cert, current, checked, issue_cert,
}
use nylon_run.Acme.Spares.{Spares, Spares-account, Spares-fetch, Spares-load_cert, file_rules}

lookup-remove_challenges :
    (tokens : List Text) (m : ChallengeStore) (j : Text)
    → lookup j (remove_challenges tokens m)
      ≡ (if any (λ t. text_eq t j) tokens then none else lookup j m)
unfolding remove_challenges
lookup-remove_challenges [] m j = refl
lookup-remove_challenges (t ∷ ts) m j =
    ground (arith, lookup-remove_challenges ts (remove t m) j, lookup-remove t j m)

-- A challenge that is new is one of the tokens that were returned.
abbrev HasSet : ChallengeStore → List Text → ChallengeStore → Type 0
HasSet m tokens m' =
    (j : Text) → (lookup j m' ≡ lookup j m) ⊎ (any (λ t. text_eq t j) tokens ≡ true)

set_challenges-HasSet :
    (auths : List (Result Authorization)) (m : ChallengeStore)
    → Ends (HasSet m) (set_challenges auths m)
unfolding set_challenges
set_challenges-HasSet [] m = λ j. inl refl
set_challenges-HasSet (err e ∷ auths) m = tt
set_challenges-HasSet (ok auth ∷ auths) m = elim (Bool-cases auth.is_valid) [
  | inl b ↦ rw b (set_challenges-HasSet auths m)
  | inr b ↦ rw b (challenged auth.http01 (set_challenges-HasSet auths))
]
  where
    challenged :
        (o : Option (Text × Text))
        → ((m : ChallengeStore) → Ends (HasSet m) (set_challenges auths m))
        → Ends (HasSet m) (set_challenge auth (set_challenges auths) o m)
    challenged none h = unfold set_challenge in tt
    challenged (some (token, key_auth)) h = unfold set_challenge in ready auth.set_ready
      where
        tokens_kept :
            (r : Result (List Text) × ChallengeStore)
            → Ends (HasSet (insert token key_auth m)) r
            → Ends (HasSet m) (with_token token r)
        tokens_kept (err e, m') k = unfold with_token in tt
        tokens_kept (ok tokens, m') k =
            unfold with_token in (λ j. ground (arith, k j, lookup-insert token j key_auth m))

        ready :
            (r : Result (Unit {0}))
            → Ends (HasSet m) (readied token (set_challenges auths) r (insert token key_auth m))
        ready (err e) = unfold readied in tt
        ready (ok u) =
            unfold readied in tokens_kept (set_challenges auths (insert token key_auth m)) (h _)

module _ {W X509 PKey A : Type 0} (os : Os W) (pki : Pki X509 PKey) (issuer : Issuer A) where
  -- Every challenge that is there was there before, as it is now.
  abbrev pub IsClean : ChallengeStore → ChallengeStore → Type 0
  IsClean m m' = (j : Text) → (lookup j m' ≡ lookup j m) ⊎ (lookup j m' ≡ none)

  Ends-Spares :
      {B : Type 0} (m : Action (Issuing W X509 PKey) B) (s : Issuing W X509 PKey)
      → Spares m
      → Ends (λ b s'. s'.challenges ≡ s.challenges) (m s)
  Ends-Spares m s h = ended (m s) (h.at s)
    where
      ended :
          {B : Type 0} (p : Result B × Issuing W X509 PKey)
          → p.1.challenges ≡ s.challenges
          → Ends (λ b s'. s'.challenges ≡ s.challenges) p
      ended (ok b, s') e = e
      ended (err t, s') e = tt

  set_all-HasSet :
      (order : Order) (s : Issuing W X509 PKey)
      → Ends (λ tokens s'. HasSet s.challenges tokens s'.challenges) (set_all os pki issuer order s)
  unfolding set_all
  set_all-HasSet order s =
      ended (set_challenges order.authorizations s.challenges)
        (set_challenges-HasSet order.authorizations s.challenges)
    where
      ended :
          (p : Result (List Text) × ChallengeStore)
          → Ends (HasSet s.challenges) p
          → Ends
              (λ tokens s'. HasSet s.challenges tokens s'.challenges)
              (p.0, record s { challenges = p.1 })
      ended (ok tokens, m) h = h
      ended (err e, m) h = tt

  Spares-after_removal :
      (order : Order)
      → Spares {W = W} {X509 = X509} {PKey = PKey} (do
        invalid ← lift (map_err (codes "order poll_ready failed: ") order.poll_ready)
        lift (if invalid then err (codes "ACME order became invalid") else ok tt))
  Spares-after_removal order = search file_rules depth 8

  poll_ready-removes :
      (order : Order) (tokens : List Text) (s : Issuing W X509 PKey)
      → Ends
          (λ u s'. s'.challenges ≡ remove_challenges tokens s.challenges)
          (poll_ready os pki issuer order tokens s)
  unfolding poll_ready remove_all
  poll_ready-removes order tokens s =
      Ends-Spares _ (record s { challenges = remove_challenges tokens s.challenges })
        (Spares-after_removal order)

  ordered : Order → Text → Action (Issuing W X509 PKey) (Unit {0})
  ordered order hostname = do
    tokens ← set_all os pki issuer order
    poll_ready os pki issuer order tokens
    fetch os pki issuer hostname order

  ordered-IsClean :
      (order : Order) (hostname : Text) (s : Issuing W X509 PKey)
      → Ends (λ u s'. IsClean s.challenges s'.challenges) (ordered order hostname s)
  unfolding ordered
  ordered-IsClean order hostname s =
      Ends-continue (λ tokens s'. HasSet s.challenges tokens s'.challenges)
        (λ u s'. IsClean s.challenges s'.challenges)
        (λ tokens. poll_ready os pki issuer order tokens >> fetch os pki issuer hostname order)
        (set_all os pki issuer order s) (set_all-HasSet order s)
        (λ tokens s1 h.
          Ends-continue (λ u s2. s2.challenges ≡ remove_challenges tokens s1.challenges)
            (λ u s'. IsClean s.challenges s'.challenges) (λ u. fetch os pki issuer hostname order)
            (poll_ready os pki issuer order tokens s1) (poll_ready-removes order tokens s1)
            (λ u s2 e.
              Ends-weaken (λ u s3. s3.challenges ≡ s2.challenges)
                (λ u s'. IsClean s.challenges s'.challenges) (fetch os pki issuer hostname order s2)
                (Ends-Spares _ s2 (Spares-fetch os pki issuer hostname order))
                (λ u s3 e' j.
                  subst (λ m. (lookup j m ≡ lookup j s.challenges) ⊎ (lookup j m ≡ none))
                    (sym (e' ∙ e)) (removed tokens s1.challenges j (h j)))))
    where
      removed :
          (tokens : List Text) (m : ChallengeStore) (j : Text)
          → (lookup j m ≡ lookup j s.challenges) ⊎ (any (λ t. text_eq t j) tokens ≡ true)
          → (lookup j (remove_challenges tokens m) ≡ lookup j s.challenges)
            ⊎ (lookup j (remove_challenges tokens m) ≡ none)
      removed tokens m j h = ground (arith, h, lookup-remove_challenges tokens m j)

  request_cert-IsClean :
      (email hostname : Text) (s : Issuing W X509 PKey)
      → Ends
          (λ u s'. IsClean s.challenges s'.challenges)
          (request_cert os pki issuer email hostname s)
  unfolding request_cert ordered
  request_cert-IsClean email hostname s =
      Ends-continue (λ a s1. s1.challenges ≡ s.challenges)
        (λ u s'. IsClean s.challenges s'.challenges)
        (λ acc.
          lift (map_err (codes "failed to create order: ") (issuer.new_order acc hostname))
          >>= (λ order. ordered order hostname))
        (account os pki issuer email s) (Ends-Spares _ s (Spares-account os pki issuer email))
        (λ acc s1 e.
          subst
            (λ m.
              Ends (λ u s'. IsClean m s'.challenges)
                (continue (λ order. ordered order hostname)
                  (map_err (codes "failed to create order: ") (issuer.new_order acc hostname), s1)))
            e
            (from_order s1
              (map_err (codes "failed to create order: ") (issuer.new_order acc hostname))))
    where
      from_order :
          (s1 : Issuing W X509 PKey) (r : Result Order)
          → Ends
              (λ u s'. IsClean s1.challenges s'.challenges)
              (continue (λ order. ordered order hostname) (r, s1))
      from_order s1 (ok order) = ordered-IsClean order hostname s1
      from_order s1 (err e) = tt

  -- An issue that succeeds leaves no challenge behind: whatever the issuer asked for, each challenge that
  -- the proxy can answer afterwards is one that it answered the same way before.
  pub issue_cert-IsClean :
      (email hostname : Text) (s s' : Issuing W X509 PKey)
      → issue_cert os pki issuer email hostname s ≡ (ok tt, s')
      → IsClean s.challenges s'.challenges
  unfolding issue_cert
  issue_cert-IsClean email hostname s s' e =
      subst (Ends (λ u s'. IsClean s.challenges s'.challenges)) e
        (ended (current os pki issuer hostname s.world))
    where
      ended :
          (o : Option (Result Bool))
          → Ends
              (λ u s'. IsClean s.challenges s'.challenges)
              (checked os pki issuer email hostname o s)
      ended none = unfold checked in request_cert-IsClean email hostname s
      ended (some (err t)) = unfold checked in tt
      ended (some (ok true)) =
          unfold checked in
          Ends-weaken (λ u s'. s'.challenges ≡ s.challenges) _ (load_cert os pki issuer hostname s)
            (Ends-Spares _ s (Spares-load_cert os pki issuer hostname))
            (λ u s' e j. inl (ap (lookup j) e))
      ended (some (ok false)) = unfold checked in request_cert-IsClean email hostname s
