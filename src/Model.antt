-- ===== src/Model.antt =====
-- internal/model/types.go: what the stages of the pipeline hand on.
use auto_cert.Base.{Bool, Option, List}
use auto_cert.Base.Int.{ℤ}
use auto_cert.Base.Text.{Text, codes}
use auto_cert.Time.{Time}

-- An `error` that may be nil, by its message.
abbrev pub Error : Type 0
Error = Option Text

pub record Domain : Type 0 where
  pub name : Text
  pub port : ℤ
  pub source : Text
  pub expiry_fallback : Option Time

pub record CertInfo : Type 0 where
  pub domain : Text
  pub port : ℤ
  pub not_after : Time
  pub issuer : Text
  pub subject : Text
  pub dns_names : List Text
  pub checked_at : Time
  pub err : Error

pub record DomainInfo : Type 0 where
  pub domain : Text
  pub expires_at : Time
  pub source : Text
  pub checked_at : Time
  pub err : Error
  pub is_apex : Bool
  pub fallback_expected : Time

-- `type AlertKind string`
abbrev pub AlertKind : Type 0
AlertKind = Text

abbrev pub cert_expiring : AlertKind
cert_expiring = codes "cert_expiring"

abbrev pub cert_expired : AlertKind
cert_expired = codes "cert_expired"

abbrev pub domain_expiring : AlertKind
domain_expiring = codes "domain_expiring"

abbrev pub domain_expired : AlertKind
domain_expired = codes "domain_expired"

abbrev pub domain_mismatch : AlertKind
domain_mismatch = codes "domain_mismatch"

pub record Alert : Type 0 where
  pub domain : Text
  pub source : Text
  pub kind : AlertKind
  pub expires_at : Time
  pub days_left : ℤ
  pub threshold : ℤ
  pub issuer : Text
  pub fallback_expected : Time
