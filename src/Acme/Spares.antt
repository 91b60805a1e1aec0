-- ===== src/Acme/Spares.antt =====
-- src/acme.rs: the actions that leave the challenges alone, with one rule for each way to build one.
use nylon_run.Prelude.{
  ◌≡◌, refl, ◌∙◌, Bool, true, false, ◌++◌, Text, Result, Action, ok, err, if◌then◌else◌,
}
use nylon_run.Prelude.Actions.{continue, with_prefix, lift, ◌>>=◌, pure}
use nylon_run.System.{Os}
use nylon_run.Tls.{Pki, DynamicCertStore}
use nylon_run.Acme.{
  Order, Issuer, Issuing, stored, write_file, make_dir, load_account, create_account, account,
  store_pem, fetch, load_cert,
}

module _ {W X509 PKey B : Type 0} where
  -- An action that leaves the challenges alone, whether it succeeds or fails.
  pub record Spares (m : Action (Issuing W X509 PKey) B) : Type 0 where
    pub at : (s : Issuing W X509 PKey) → (m s).1.challenges ≡ s.challenges

  pub Spares-pure : (b : B) → Spares (pure b)
  Spares-pure b = record { at = λ s. refl }

  pub Spares-lift : (r : Result B) → Spares (lift r)
  Spares-lift r = record { at = λ s. refl }

  pub Spares-read : (f : Issuing W X509 PKey → Result B) → Spares (λ s. (f s, s))
  Spares-read f = record { at = λ s. refl }

module _ {W X509 PKey B C : Type 0} where
  pub Spares-bind :
      (m : Action (Issuing W X509 PKey) B) (f : B → Action (Issuing W X509 PKey) C)
      → Spares m
      → ((b : B) → Spares (f b))
      → Spares (m >>= f)
  Spares-bind m f h k = record { at = λ s. after s (m s) (h.at s) }
    where
      after :
          (s : Issuing W X509 PKey) (p : Result B × Issuing W X509 PKey)
          → p.1.challenges ≡ s.challenges
          → (continue f p).1.challenges ≡ s.challenges
      after s (ok b, s') e = (k b).at s' ∙ e
      after s (err t, s') e = e

module _ {W X509 PKey A : Type 0} (os : Os W) (pki : Pki X509 PKey) (issuer : Issuer A) where
  pub Spares-write_file :
      (e path contents : Text)
      → Spares (write_file {X509 = X509} {PKey = PKey} os pki issuer e path contents)
  unfolding write_file
  Spares-write_file e path contents = record { at = λ s. same s (os.write path contents s.world) }
    where
      same :
          (s : Issuing W X509 PKey) (p : Result (Unit {0}) × W)
          → (with_prefix (λ t. e ++ t) (p.0, record s { world = p.1 })).1.challenges ≡ s.challenges
      same s (ok u, w) = refl
      same s (err m, w) = refl

  pub Spares-make_dir : (e path : Text) → Spares (make_dir os pki issuer e path)
  unfolding make_dir
  Spares-make_dir e path = record { at = λ s. same s (os.create_dir_all path s.world) }
    where
      same :
          (s : Issuing W X509 PKey) (p : Result (Unit {0}) × W)
          → (with_prefix (λ t. e ++ t) (p.0, record s { world = p.1 })).1.challenges ≡ s.challenges
      same s (ok u, w) = refl
      same s (err m, w) = refl

  Spares-stored : (r : Result (DynamicCertStore X509 PKey)) → Spares (stored os pki issuer r)
  unfolding stored
  Spares-stored (ok certs) = record { at = λ s. refl }
  Spares-stored (err e) = record { at = λ s. refl }

  pub Spares-load_cert : (hostname : Text) → Spares (load_cert os pki issuer hostname)
  unfolding load_cert
  Spares-load_cert hostname = record { at = λ s. (Spares-stored _).at s }

  pub Spares-store_pem :
      (hostname chain key : Text) → Spares (store_pem os pki issuer hostname chain key)
  unfolding store_pem
  Spares-store_pem hostname chain key = record { at = λ s. (Spares-stored _).at s }

  pub ruleset file_rules = (
    Spares-pure, Spares-lift, Spares-read, Spares-bind, Spares-write_file, Spares-make_dir,
    Spares-store_pem,
  )

  Spares-load_account : Spares (load_account os pki issuer)
  unfolding load_account
  Spares-load_account = search file_rules depth 12

  Spares-create_account : (email : Text) → Spares (create_account os pki issuer email)
  unfolding create_account
  Spares-create_account email = search file_rules depth 12

  pub Spares-account : (email : Text) → Spares (account os pki issuer email)
  unfolding account
  Spares-account email = record { at = λ s. chosen s (os.exists _ s.world) }
    where
      chosen :
          (s : Issuing W X509 PKey) (b : Bool)
          → (if b
              then load_account os pki issuer s
              else create_account os pki issuer email s).1.challenges
            ≡ s.challenges
      chosen s true = Spares-load_account.at s
      chosen s false = (Spares-create_account email).at s

  pub Spares-fetch : (hostname : Text) (order : Order) → Spares (fetch os pki issuer hostname order)
  unfolding fetch
  Spares-fetch hostname order = search file_rules depth 16
