-- ===== src/Inventory.antt =====
-- internal/inventory/inventory.go: the snapshot of every domain.
pub mod Entries
pub mod Workbook
pub mod FileSink
use mathlib.Core.List.{map}
use auto_cert.Base.{
  ℕ, Bool, true, false, Option, none, some, List, [], ◌∷◌, list_eq, nat_eq, ◌==◌, length, keep,
}
use auto_cert.Base.Int.{ℤ}
use auto_cert.Base.Text.{Text}
use auto_cert.Base.Dict.{Dict, lookup}
use auto_cert.Base.Dict.Fill.{fill}
use auto_cert.Base.Sort.{sort_slice}
use auto_cert.Base.Sort.Order.{lt_text, on}
use auto_cert.Model.{Domain, CertInfo, DomainInfo, Alert, AlertKind, Error}
use auto_cert.Time.{Time, utc}

pub record CertSection : Type 0 where
  pub not_after : Time
  pub issuer : Text
  pub subject : Text
  pub dns_names : List Text
  pub checked_at : Time
  pub error : Text

pub record DomainSection : Type 0 where
  pub expires_at : Time
  pub source : Text
  pub checked_at : Time
  pub error : Text

pub record AlertEntry : Type 0 where
  pub kind : AlertKind
  pub threshold : ℤ
  pub days_left : ℤ
  pub expires_at : Time

pub record Entry : Type 0 where
  pub name : Text
  pub port : ℤ
  pub source : Text
  pub expiry_fallback : Option Time
  pub cert : Option CertSection
  pub domain : Option DomainSection
  pub alerts : List AlertEntry

pub record Snapshot : Type 0 where
  pub generated_at : Time
  pub total : ℕ
  pub entries : List Entry

-- `errStr`
abbrev pub err_str : Error → Text
err_str none = []
err_str (some e) = e

abbrev pub cert_section : CertInfo → CertSection
cert_section c = record {
  not_after = c.not_after;
  issuer = c.issuer;
  subject = c.subject;
  dns_names = c.dns_names;
  checked_at = c.checked_at;
  error = err_str c.err;
}

abbrev pub domain_section : DomainInfo → DomainSection
domain_section i = record {
  expires_at = i.expires_at;
  source = i.source;
  checked_at = i.checked_at;
  error = err_str i.err;
}

abbrev pub alert_entry : Alert → AlertEntry
alert_entry a = record {
  kind = a.kind;
  threshold = a.threshold;
  days_left = a.days_left;
  expires_at = a.expires_at;
}

abbrev pub section_of : {A B : Type 0} → (A → B) → Option A → Option B
section_of f none = none
section_of f (some a) = some (f a)

-- One round of the loop over the domains; the alerts under a name are those with the name, in
-- their order.
abbrev pub entry_of : Dict Text DomainInfo → Dict Text CertInfo → List Alert → Domain → Entry
entry_of info_by_name cert_by_name alerts d = record {
  name = d.name;
  port = d.port;
  source = d.source;
  expiry_fallback = d.expiry_fallback;
  cert = section_of cert_section (lookup d.name cert_by_name);
  domain = section_of domain_section (lookup d.name info_by_name);
  alerts = map alert_entry (keep (λ (a : Alert). a.domain == d.name) alerts);
}

abbrev pub infos_by_name : List DomainInfo → Dict Text DomainInfo
infos_by_name infos = fill (λ (i : DomainInfo). i.domain) (λ i. i) [] infos

abbrev pub certs_by_name : List CertInfo → Dict Text CertInfo
certs_by_name certs = fill (λ (c : CertInfo). c.domain) (λ c. c) [] certs

-- `Build`
unfoldable pub build : Time → List Domain → List DomainInfo → List CertInfo → List Alert → Snapshot
unfolding fill lookup sort_slice
build now domains infos certs alerts =
    let entries = map (entry_of (infos_by_name infos) (certs_by_name certs) alerts) domains in
    record {
      generated_at = utc now;
      total = length entries;
      entries = sort_slice (on (λ (e : Entry). e.name) lt_text) entries;
    }
