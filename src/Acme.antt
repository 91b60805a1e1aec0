-- ===== src/Acme.antt =====
-- src/acme.rs: issuing and renewing certificates over HTTP-01. instant_acme is a parameter: what the
-- issuer says in the course of an order is given with the order. PEM data and tokens are texts. The task
-- that removes the tokens of an order that was not ready is run at once here.
pub mod Spares
pub mod Challenges
use nylon_run.Prelude.{
  Bool, ◌&&◌, true, false, Option, none, some, List, [], ◌∷◌, ◌++◌, Text, Result, ok, err, Action,
  codes, map_err, ok_or, if◌then◌else◌,
}
use nylon_run.Prelude.Actions.{lift, on_error, modify, ◌>>=◌, ◌>>◌, pure, gets}
use nylon_run.Prelude.Maps.{Map, insert, remove, lookup}
use nylon_run.System.{Os}
use nylon_run.Tls.{Pki, DynamicCertStore, add_cert, add_cert_from_pem}
use nylon_run.Paths.{join_path}

-- `ChallengeStore`: the key authorization of each token.
abbrev pub ChallengeStore : Type 0
ChallengeStore = Map Text

-- The HTTP-01 challenge is a token and its key authorization.
pub record Authorization : Type 0 where
  pub is_valid : Bool
  pub http01 : Option (Text × Text)
  pub set_ready : Result (Unit {0})

-- `poll_ready` gives whether the order became invalid.
pub record Order : Type 0 where
  pub authorizations : List (Result Authorization)
  pub poll_ready : Result Bool
  pub finalize : Result Text
  pub poll_certificate : Result Text

-- `is_current` is whether a certificate of this PEM expires after the time of renewal; none if the PEM
-- does not parse. An account is loaded from its credentials or created with them.
pub record Issuer (A : Type 0) : Type 0 where
  pub is_current : Text → Option (Result Bool)
  pub load_account : Text → Result A
  pub create_account : Text → Result (A × Text)
  pub new_order : A → Text → Result Order

pub record Issuing (W X509 PKey : Type 0) : Type 0 where
  pub world : W
  pub challenges : ChallengeStore
  pub certs : DynamicCertStore X509 PKey

abbrev certs_dir : Text
certs_dir = codes "/var/run/nyrun/certs"

abbrev account_path : Text
account_path = join_path certs_dir (codes "account.json")

abbrev cert_path : Text → Text
cert_path hostname = join_path (join_path certs_dir hostname) (codes "cert.pem")

abbrev key_path : Text → Text
key_path hostname = join_path (join_path certs_dir hostname) (codes "key.pem")

with_token : Text → Result (List Text) × ChallengeStore → Result (List Text) × ChallengeStore
with_token token (ok tokens, m) = (ok (token ∷ tokens), m)
with_token token (err e, m) = (err e, m)

readied :
    Text
    → (ChallengeStore → Result (List Text) × ChallengeStore)
    → Result (Unit {0})
    → ChallengeStore
    → Result (List Text) × ChallengeStore
unfolding with_token
readied token rest (err e) m = (err (codes "failed to set challenge ready: " ++ e), m)
readied token rest (ok u) m = with_token token (rest m)

set_challenge :
    Authorization
    → (ChallengeStore → Result (List Text) × ChallengeStore)
    → Option (Text × Text)
    → ChallengeStore
    → Result (List Text) × ChallengeStore
unfolding readied
set_challenge auth rest none m = (err (codes "no HTTP-01 challenge found"), m)
set_challenge auth rest (some (token, key_auth)) m =
    readied token rest auth.set_ready (insert token key_auth m)

-- The tokens that were set, in order. An error leaves those set before it.
unfoldable pub set_challenges :
    List (Result Authorization) → ChallengeStore → Result (List Text) × ChallengeStore
unfolding set_challenge
set_challenges [] m = (ok [], m)
set_challenges (err e ∷ auths) m = (err (codes "authorization error: " ++ e), m)
set_challenges (ok auth ∷ auths) m =
    let rest = set_challenges auths in
    if auth.is_valid then rest m else set_challenge auth rest auth.http01 m

unfoldable pub remove_challenges : List Text → ChallengeStore → ChallengeStore
remove_challenges [] m = m
remove_challenges (token ∷ tokens) m = remove_challenges tokens (remove token m)

module _ {W X509 PKey A : Type 0} (os : Os W) (pki : Pki X509 PKey) (issuer : Issuer A) where
  pub write_file : Text → Text → Text → Action (Issuing W X509 PKey) (Unit {0})
  write_file e path contents s =
      let (r, w) = os.write path contents s.world in
      on_error (λ t. e ++ t) (λ s. (r, record s { world = w })) s

  pub make_dir : Text → Text → Action (Issuing W X509 PKey) (Unit {0})
  make_dir e path s =
      let (r, w) = os.create_dir_all path s.world in
      on_error (λ t. e ++ t) (λ s. (r, record s { world = w })) s

  pub load_account : Action (Issuing W X509 PKey) A
  load_account = do
    creds_json ← λ s.
        (map_err (codes "failed to read account: ") (os.read_to_string account_path s.world), s)
    lift (issuer.load_account creds_json)

  pub create_account : Text → Action (Issuing W X509 PKey) A
  unfolding write_file make_dir
  create_account email = do
    created ← lift (issuer.create_account email)
    make_dir (codes "failed to create certs dir: ") certs_dir
    write_file (codes "failed to save account: ") account_path created.1
    pure created.0

  pub account : Text → Action (Issuing W X509 PKey) A
  unfolding load_account create_account
  account email s =
      if os.exists account_path s.world then load_account s else create_account email s

  set_all : Order → Action (Issuing W X509 PKey) (List Text)
  set_all order s =
      let (r, m) = set_challenges order.authorizations s.challenges in
      (r, record s { challenges = m })

  remove_all : List Text → Action (Issuing W X509 PKey) (Unit {0})
  remove_all tokens = modify (λ s. record s { challenges = remove_challenges tokens s.challenges })

  -- The tokens go before the status is looked at, and on an error too.
  poll_ready : Order → List Text → Action (Issuing W X509 PKey) (Unit {0})
  unfolding remove_all
  poll_ready order tokens = do
    remove_all tokens
    invalid ← lift (map_err (codes "order poll_ready failed: ") order.poll_ready)
    lift (if invalid then err (codes "ACME order became invalid") else ok tt)

  pub stored : Result (DynamicCertStore X509 PKey) → Action (Issuing W X509 PKey) (Unit {0})
  stored (ok certs) s = (ok tt, record s { certs = certs })
  stored (err e) s = (err e, s)

  pub store_pem : Text → Text → Text → Action (Issuing W X509 PKey) (Unit {0})
  unfolding stored
  store_pem hostname cert_chain_pem key_pem s =
      stored (add_cert_from_pem pki hostname cert_chain_pem key_pem s.certs) s

  pub fetch : Text → Order → Action (Issuing W X509 PKey) (Unit {0})
  unfolding store_pem write_file make_dir
  fetch hostname order = do
    key_pem ← lift (map_err (codes "failed to finalize order: ") order.finalize)
    cert_chain_pem ← lift (map_err (codes "failed to get certificate: ") order.poll_certificate)
    make_dir (codes "failed to create cert dir: ") (join_path certs_dir hostname)
    write_file (codes "failed to write cert: ") (cert_path hostname) cert_chain_pem
    write_file (codes "failed to write key: ") (key_path hostname) key_pem
    store_pem hostname cert_chain_pem key_pem

  request_cert : Text → Text → Action (Issuing W X509 PKey) (Unit {0})
  unfolding account set_all poll_ready fetch
  request_cert email hostname = do
    acc ← account email
    order ← lift (map_err (codes "failed to create order: ") (issuer.new_order acc hostname))
    tokens ← set_all order
    poll_ready order tokens
    fetch hostname order

  pub load_cert : Text → Action (Issuing W X509 PKey) (Unit {0})
  unfolding stored
  load_cert hostname s =
      stored (add_cert pki hostname (cert_path hostname) (key_path hostname) s.certs) s

  -- Whether a certificate on disk is good until the time of renewal.
  current_pem : Result Text → Option (Result Bool)
  current_pem (ok pem) = issuer.is_current pem
  current_pem (err e) = none

  current : Text → W → Option (Result Bool)
  unfolding current_pem
  current hostname w =
      if os.exists (cert_path hostname) w && os.exists (key_path hostname) w
      then current_pem (pki.read (cert_path hostname))
      else none

  checked : Text → Text → Option (Result Bool) → Action (Issuing W X509 PKey) (Unit {0})
  unfolding request_cert load_cert
  checked email hostname none = request_cert email hostname
  checked email hostname (some (err e)) = lift (err (codes "time error: " ++ e))
  checked email hostname (some (ok true)) = load_cert hostname
  checked email hostname (some (ok false)) = request_cert email hostname

  unfoldable pub issue_cert : Text → Text → Action (Issuing W X509 PKey) (Unit {0})
  unfolding checked current
  issue_cert email hostname s = checked email hostname (current hostname s.world) s

  -- A round of the renewal loop: a host that fails is passed over.
  unfoldable pub renew : List (Text × Text) → Issuing W X509 PKey → Issuing W X509 PKey
  unfolding issue_cert
  renew [] s = s
  renew ((hostname, email) ∷ configs) s = renew configs (issue_cert email hostname s).1
