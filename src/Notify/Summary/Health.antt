-- ===== src/Notify/Summary/Health.antt =====
-- The health and the level of a domain, as the mail means them.
use auto_cert.Base.{
  ◌≡◌, refl, ap, ◌∙◌, Bool, true, false, Option, none, some, List, [], ◌∷◌, list_eq, nat_eq, arith,
  any, if◌then◌else◌, ◌==◌,
}
use auto_cert.Base.Text.{Text, to_lower}
use auto_cert.Base.Dict.{lookup}
use auto_cert.Base.Dict.Fill.{last_with, lookup-fill_nil}
use auto_cert.Model.{Domain, CertInfo, Alert, Error}
use auto_cert.Notify.Summary.{Bucket, classify, bucket_of, level_of, cert_errors, cert_bucket}

-- The health by the last certificate: it is there and was read.
abbrev by_cert : Option Error → Bucket
by_cert (some none) = Bucket.healthy
by_cert (some (some e)) = Bucket.nocert
by_cert none = Bucket.nocert

-- The health of a domain: it has an alert, whatever its case, or else its last certificate decides.
abbrev pub health_of : List CertInfo → List Alert → Domain → Bucket
health_of certs alerts d =
    let last =
      last_with (λ (c : CertInfo). to_lower c.domain) (λ (c : CertInfo). c.err) (to_lower d.name)
        certs in
    if any (λ (a : Alert). to_lower a.domain == to_lower d.name) alerts
    then Bucket.alerted
    else by_cert last

-- A domain stands on the first level if it is its own registrable domain, whatever its case.
abbrev pub is_registrable : (Text → Option Text) → Domain → Bool
is_registrable etld_plus_one d = elim (etld_plus_one (to_lower d.name)) [
  | none ↦ false
  | some e ↦ to_lower e == to_lower (to_lower d.name)
]

pub level_of-is_registrable :
    (etld_plus_one : Text → Option Text) (d : Domain)
    → level_of etld_plus_one d ≡ is_registrable etld_plus_one d
level_of-is_registrable etld_plus_one d = refl

alerted-any :
    (name : Text) (alerts : List Alert)
    → last_with (λ (a : Alert). to_lower a.domain) (λ a. true) name alerts
      ≡ (if any (λ (a : Alert). to_lower a.domain == name) alerts then some true else none)
alerted-any name [] = refl
alerted-any name (a ∷ alerts) = ground (arith, alerted-any name alerts)

by_cert-cert_bucket : (o : Option Error) → cert_bucket o ≡ by_cert o
by_cert-cert_bucket none = refl
by_cert-cert_bucket (some none) = refl
by_cert-cert_bucket (some (some e)) = refl

-- The choice of `classify`, by what the two maps answer.
abbrev decided : Option Bool → Option Error → Bucket
decided alerted last =
    if elim alerted [ none ↦ false | some b ↦ b ] then Bucket.alerted else cert_bucket last

decided-by_cert :
    (b : Bool) (last : Option Error)
    → decided (if b then some true else none) last ≡ (if b then Bucket.alerted else by_cert last)
decided-by_cert true last = refl
decided-by_cert false last = by_cert-cert_bucket last

pub bucket_of-health_of :
    (certs : List CertInfo) (alerts : List Alert) (d : Domain)
    → bucket_of certs alerts d ≡ health_of certs alerts d
unfolding classify
bucket_of-health_of certs alerts d =
    let name = to_lower d.name in
    let alerted = any (λ (a : Alert). to_lower a.domain == name) alerts in
    let last =
      last_with (λ (c : CertInfo). to_lower c.domain) (λ (c : CertInfo). c.err) name certs in
    ap (λ o. decided o (lookup name (cert_errors certs)))
      (lookup-fill_nil (λ (a : Alert). to_lower a.domain) (λ a. true) name alerts
        ∙ alerted-any name alerts)
    ∙ ap (decided (if alerted then some true else none))
        (lookup-fill_nil (λ (c : CertInfo). to_lower c.domain) (λ (c : CertInfo). c.err) name certs)
    ∙ decided-by_cert alerted last
