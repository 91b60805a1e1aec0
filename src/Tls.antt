-- ===== src/Tls.antt =====
-- src/tls.rs: the certificate store that the proxy's listeners share. Reading and parsing
-- certificates (the file system, openssl) is the parameter `Pki`.
pub mod Laws
use nylon_run.Prelude.{
  ℕ, Option, none, some, List, [], ◌∷◌, ◌++◌, Text, Result, ok, err, ◌>>=◌, map_err, unwrap_or,
  codes, text_eq, if◌then◌else◌,
}
use nylon_run.Prelude.Maps.{Map, lookup, insert, remove}

-- `std::fs::read`, `X509::from_pem`, `X509::stack_from_pem` and `PKey::private_key_from_pem`.
pub record Pki (X509 PKey : Type 0) : Type 0 where
  pub read : Text → Result (List ℕ)
  pub from_pem : List ℕ → Result X509
  pub stack_from_pem : List ℕ → Result (List X509)
  pub private_key_from_pem : List ℕ → Result PKey

pub record TlsCertificate (X509 PKey : Type 0) : Type 0 where
  pub cert : X509
  pub key : PKey
  pub chain : List X509

pub record DynamicCertStore (X509 PKey : Type 0) : Type 0 where
  pub certs : Map (TlsCertificate X509 PKey)
  pub default_cert : Option (TlsCertificate X509 PKey)

module _ {X509 : Type 0} where
  first : List X509 → Result X509
  first [] = err (codes "empty certificate chain")
  first (cert ∷ certs) = ok cert

  -- `skip(1)`.
  skip_one : List X509 → List X509
  skip_one [] = []
  skip_one (cert ∷ certs) = certs

module _ {X509 PKey : Type 0} where
  unfoldable pub new : DynamicCertStore X509 PKey
  new = record { certs = []; default_cert = none }

  -- The name "default" is the fallback, any other a host.
  unfoldable pub store_cert :
      Text → TlsCertificate X509 PKey → DynamicCertStore X509 PKey → DynamicCertStore X509 PKey
  store_cert hostname tls_cert store =
      if text_eq hostname (codes "default")
      then record store { default_cert = some tls_cert }
      else record store { certs = insert hostname tls_cert store.certs }

  unfoldable pub remove_cert : Text → DynamicCertStore X509 PKey → DynamicCertStore X509 PKey
  remove_cert hostname store =
      if text_eq hostname (codes "default")
      then record store { default_cert = none }
      else record store { certs = remove hostname store.certs }

  -- The certificate that `certificate_callback` hands to a connection with this server name.
  unfoldable pub certificate_callback :
      Option Text → DynamicCertStore X509 PKey → Option (TlsCertificate X509 PKey)
  certificate_callback servername store =
      elim (lookup (unwrap_or servername (codes "localhost")) store.certs) [
        | some cert ↦ some cert
        | none ↦ store.default_cert
      ]

  module _ (pki : Pki X509 PKey) where
    open pki use {read, from_pem, stack_from_pem, private_key_from_pem}

    unfoldable pub add_cert :
        Text → Text → Text → DynamicCertStore X509 PKey → Result (DynamicCertStore X509 PKey)
    unfolding store_cert
    add_cert hostname cert_path key_path store = do
      cert_pem ← map_err (codes "failed to read cert " ++ cert_path ++ codes ": ") (read cert_path)
      key_pem ← map_err (codes "failed to read key " ++ key_path ++ codes ": ") (read key_path)
      cert ← map_err (codes "failed to parse cert: ") (from_pem cert_pem)
      key ← map_err (codes "failed to parse key: ") (private_key_from_pem key_pem)
      ok (store_cert hostname (record { cert = cert; key = key; chain = [] }) store)

    unfoldable pub add_cert_from_pem :
        Text → List ℕ → List ℕ → DynamicCertStore X509 PKey → Result (DynamicCertStore X509 PKey)
    unfolding store_cert first skip_one
    add_cert_from_pem hostname cert_pem key_pem store = do
      certs ← map_err (codes "failed to parse cert chain: ") (stack_from_pem cert_pem)
      key ← map_err (codes "failed to parse key: ") (private_key_from_pem key_pem)
      cert ← first certs
      ok (store_cert hostname (record { cert = cert; key = key; chain = skip_one certs }) store)
