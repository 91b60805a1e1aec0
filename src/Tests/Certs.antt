-- ===== src/Tests/Certs.antt =====
-- Certificates: concrete inputs. A certificate and a key are the bytes of their file.
use nylon_run.Prelude.{◌≡◌, refl, Option, none, [], ◌∷◌, Text, ok, codes}
use nylon_run.Tls.{Pki, DynamicCertStore, add_cert, certificate_callback}
use nylon_run.Tls.Laws.{serves_after, add_cert-serves}

abbrev pki : Pki Text Text
pki = record {
  read = ok;
  from_pem = ok;
  stack_from_pem = λ pem. ok (pem ∷ codes "issuer" ∷ []);
  private_key_from_pem = ok;
}

abbrev empty : DynamicCertStore Text Text
empty = record { certs = []; default_cert = none }

add_cert-serves_example :
    (store' : DynamicCertStore Text Text) × (add_cert pki
        (codes "a.io")
        (codes "a.crt")
        (codes "a.key")
        empty
      ≡ ok store')
    × ((servername : Option Text)
        → certificate_callback servername store'
          ≡ serves_after
              (codes "a.io")
              (record { cert = codes "a.crt"; key = codes "a.key"; chain = [] })
              servername
              empty)
add_cert-serves_example =
    add_cert-serves pki (codes "a.io") (codes "a.crt") (codes "a.key") empty (codes "a.crt")
      (codes "a.key") (codes "a.crt") (codes "a.key") refl refl refl refl
