-- ===== src/Tls/Laws.antt =====
-- src/tls.rs: what the certificate store serves after a certificate was added or removed.
use nylon_run.Prelude.{
  ℕ, ◌≡◌, false, Option, none, some, List, [], ◌∷◌, Text, ok, arith, unwrap_or, codes, text_eq,
  if◌then◌else◌,
}
use nylon_run.Prelude.Maps.{lookup, lookup-insert, lookup-remove}
use nylon_run.Tls.{
  Pki, TlsCertificate, DynamicCertStore, store_cert, remove_cert, certificate_callback, add_cert,
  add_cert_from_pem,
}

module _ {X509 PKey : Type 0} where
  -- The certificate for a server name after `tls_cert` was stored for `hostname`.
  abbrev pub serves_after :
      Text
      → TlsCertificate X509 PKey
      → Option Text
      → DynamicCertStore X509 PKey
      → Option (TlsCertificate X509 PKey)
  serves_after hostname tls_cert servername store =
      if text_eq hostname (codes "default")
      then elim (lookup (unwrap_or servername (codes "localhost")) store.certs) [
        | some cert ↦ some cert
        | none ↦ some tls_cert
      ]
      else if text_eq hostname (unwrap_or servername (codes "localhost"))
      then some tls_cert
      else certificate_callback servername store

  certificate_callback-store_cert :
      (hostname : Text) (tls_cert : TlsCertificate X509 PKey) (servername : Option Text)
      (store : DynamicCertStore X509 PKey)
      → certificate_callback servername (store_cert hostname tls_cert store)
        ≡ serves_after hostname tls_cert servername store
  unfolding certificate_callback store_cert
  certificate_callback-store_cert hostname tls_cert servername store = ground (
    arith,
    lookup-insert hostname (unwrap_or servername (codes "localhost")) tls_cert store.certs,
  )

  -- After the certificate of a host other than "default" was removed, that host is served the
  -- fallback, and any other host what it was served before.
  pub certificate_callback-remove_cert :
      (hostname : Text) (servername : Option Text) (store : DynamicCertStore X509 PKey)
      → text_eq hostname (codes "default") ≡ false
      → certificate_callback servername (remove_cert hostname store) ≡ (
          if text_eq hostname (unwrap_or servername (codes "localhost"))
          then store.default_cert
          else certificate_callback servername store)
  unfolding certificate_callback remove_cert
  certificate_callback-remove_cert hostname servername store h =
      ground (arith, lookup-remove hostname (unwrap_or servername (codes "localhost")) store.certs)

module _ {X509 PKey : Type 0} (pki : Pki X509 PKey) where
  -- Files that can be read and parsed are stored: the host of the certificate is served it from then
  -- on, alone and without intermediate certificates, and other hosts are served what they were. Under
  -- the name "default" it is served to the hosts that have none of their own.
  pub add_cert-serves :
      (hostname cert_path key_path : Text) (store : DynamicCertStore X509 PKey)
      (cert_pem key_pem : List ℕ) (cert : X509) (key : PKey)
      → pki.read cert_path ≡ ok cert_pem
      → pki.read key_path ≡ ok key_pem
      → pki.from_pem cert_pem ≡ ok cert
      → pki.private_key_from_pem key_pem ≡ ok key
      → (store' : DynamicCertStore X509 PKey) × (add_cert pki hostname cert_path key_path store
          ≡ ok store')
        × ((servername : Option Text)
            → certificate_callback servername store'
              ≡ serves_after hostname
                  (record { cert = cert; key = key; chain = [] })
                  servername
                  store)
  add_cert-serves hostname cert_path key_path store cert_pem key_pem cert key r s p q = (
    store_cert hostname tls_cert store,
    unfold add_cert in rw (r, s, p, q),
    λ servername. certificate_callback-store_cert hostname tls_cert servername store,
  )
    where
      tls_cert : TlsCertificate X509 PKey
      tls_cert = record { cert = cert; key = key; chain = [] }

  -- Certificates and a key that can be parsed are stored: the host is served the first of them from then
  -- on, with the others as its chain, and other hosts are served what they were. Under the name "default"
  -- it is served to the hosts that have none of their own.
  pub add_cert_from_pem-serves :
      (hostname : Text) (store : DynamicCertStore X509 PKey) (cert_pem key_pem : List ℕ)
      (cert : X509) (chain : List X509) (key : PKey)
      → pki.stack_from_pem cert_pem ≡ ok (cert ∷ chain)
      → pki.private_key_from_pem key_pem ≡ ok key
      → (store' : DynamicCertStore X509 PKey) × (add_cert_from_pem pki hostname cert_pem key_pem
            store
          ≡ ok store')
        × ((servername : Option Text)
            → certificate_callback servername store'
              ≡ serves_after hostname
                  (record { cert = cert; key = key; chain = chain })
                  servername
                  store)
  add_cert_from_pem-serves hostname store cert_pem key_pem cert chain key r s = (
    store_cert hostname tls_cert store,
    unfold add_cert_from_pem in rw (r, s),
    λ servername. certificate_callback-store_cert hostname tls_cert servername store,
  )
    where
      tls_cert : TlsCertificate X509 PKey
      tls_cert = record { cert = cert; key = key; chain = chain }
