-- ===== src/Alert.antt =====
-- internal/alert/engine.go: `Evaluate` turns certificates and registrations into alerts.
pub mod Days
pub mod Due
pub mod Triggers
use mathlib.Core.List.{map}
use auto_cert.Base.{
  ℕ, Bool, true, false, Option, none, some, List, [], ◌∷◌, ◌++◌, ◌||◌, not, is_some, list_eq,
  nat_eq, if◌then◌else◌,
}
use auto_cert.Base.Int.{ℤ, pos, lt_ℤ, le_ℤ}
use auto_cert.Base.Text.{Text, to_lower}
use auto_cert.Base.Dict.{Dict, lookup}
use auto_cert.Base.Dict.Fill.{fill}
use auto_cert.Base.Sort.{sort_slice}
use auto_cert.Base.Members.{collect}
use auto_cert.Model.{
  Domain, CertInfo, DomainInfo, Alert, AlertKind, cert_expiring, cert_expired, domain_expiring,
  domain_expired, domain_mismatch,
}
use auto_cert.Time.{Time, zero_time, is_zero, before, utc_midnight, sub, whole_days}

-- `daysBetween`
unfoldable pub days_between : Time → Time → ℤ
days_between now future = whole_days (sub (utc_midnight future) (utc_midnight now))

-- The literal `model.Alert{…}`: what it leaves out is zero.
abbrev pub new_alert : Text → AlertKind → Time → ℤ → ℤ → Alert
new_alert domain kind expires_at days_left threshold = record {
  domain = domain;
  source = [];
  kind = kind;
  expires_at = expires_at;
  days_left = days_left;
  threshold = threshold;
  issuer = [];
  fallback_expected = zero_time;
}

-- The loop of `evalOne` over the thresholds.
expiring_alerts : Text → Time → AlertKind → ℤ → List ℤ → List Alert
expiring_alerts domain expires_at expiring days [] = []
expiring_alerts domain expires_at expiring days (t ∷ ts) =
    let rest = expiring_alerts domain expires_at expiring days ts in
    if le_ℤ days t then new_alert domain expiring expires_at days t ∷ rest else rest

-- `evalOne`
pub eval_one : Time → Text → Time → AlertKind → AlertKind → List ℤ → List Alert
unfolding expiring_alerts
eval_one now domain expires_at expiring expired thresholds =
    if is_zero expires_at
    then []
    else if before expires_at now
    then new_alert domain expired expires_at (days_between now expires_at) (pos 0) ∷ []
    else expiring_alerts domain expires_at expiring (days_between now expires_at) thresholds

-- `sourceByName`: a later domain of the same name overwrites an earlier one.
pub source_by_name : List Domain → Dict Text Text
unfolding fill
source_by_name = fill (λ d. to_lower d.name) (λ d. d.source) []

-- `certAlerts[i].Issuer = c.Issuer`
abbrev with_issuer : Text → Alert → Alert
with_issuer issuer a = record a { issuer = issuer }

-- One round of the loop over the certificates.
pub cert_alerts : Time → List ℤ → CertInfo → List Alert
unfolding eval_one
cert_alerts now thr c =
    if is_some c.err
    then []
    else map (with_issuer c.issuer)
        (eval_one now c.domain c.not_after cert_expiring cert_expired thr)

mismatch_alerts : DomainInfo → List Alert
mismatch_alerts i =
    if is_zero i.fallback_expected
    then []
    else record (new_alert i.domain domain_mismatch i.expires_at
        (days_between i.expires_at i.fallback_expected) (pos 0)) {
          fallback_expected = i.fallback_expected;
        }
      ∷ []

-- One round of the loop over the registrations.
pub info_alerts : Time → List ℤ → DomainInfo → List Alert
unfolding eval_one mismatch_alerts
info_alerts now thr i =
    if is_some i.err || not i.is_apex
    then []
    else eval_one now i.domain i.expires_at domain_expiring domain_expired thr ++ mismatch_alerts i

-- `m[k]`, the empty string where the key is missing.
abbrev pub text_at : Text → Dict Text Text → Text
text_at k m = elim (lookup k m) [ none ↦ [] | some v ↦ v ]

pub attach_source : Dict Text Text → Alert → Alert
attach_source sources a = record a { source = text_at (to_lower a.domain) sources }

-- `Evaluate`
unfoldable pub evaluate : Time → List Domain → List CertInfo → List DomainInfo → List ℤ → List Alert
unfolding cert_alerts info_alerts attach_source source_by_name sort_slice lookup to_lower
evaluate now domains certs infos thresholds =
    let thr = sort_slice lt_ℤ thresholds in
    map (attach_source (source_by_name domains))
      (collect (cert_alerts now thr) certs ++ collect (info_alerts now thr) infos)
