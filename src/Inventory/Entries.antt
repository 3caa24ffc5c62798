-- ===== src/Inventory/Entries.antt =====
-- The entries of a snapshot, against what the entry of a domain shows.
use mathlib.Core.List.{map, Perm}
use auto_cert.Base.{
  ◌≡◌, refl, sym, ap, keep, Bool-cases, inl, inr, ◌∙◌, subst, Option, none, some, List, [], ◌∷◌,
  list_eq, nat_eq, length, length-map, ◌==◌, if◌then◌else◌,
}
use auto_cert.Base.Text.{Text}
use auto_cert.Base.Dict.{lookup}
use auto_cert.Base.Dict.Fill.{last_with, lookup-fill_nil, last_with-last_of, map_some}
use auto_cert.Base.Sort.Laws.{sort_slice-perm, sort_slice-IsSorted, IsSorted}
use auto_cert.Base.Sort.Order.{lt_text, on, on-IsWeakOrder, lt_text-IsTotalOrder}
use auto_cert.Model.{Domain, CertInfo, DomainInfo, Alert, Error}
use auto_cert.Time.{Time, utc}
use auto_cert.Inventory.{
  Entry, CertSection, DomainSection, AlertEntry, entry_of, build, infos_by_name, certs_by_name,
  section_of, err_str, cert_section, domain_section, alert_entry,
}

-- The words of an error, or none.
abbrev words : Error → Text
words none = []
words (some e) = e

-- What is shown of a certificate, and of a registration.
abbrev pub shown_section : CertInfo → CertSection
shown_section c = record {
  not_after = c.not_after;
  issuer = c.issuer;
  subject = c.subject;
  dns_names = c.dns_names;
  checked_at = c.checked_at;
  error = words c.err;
}

abbrev pub shown_registration : DomainInfo → DomainSection
shown_registration i = record {
  expires_at = i.expires_at;
  source = i.source;
  checked_at = i.checked_at;
  error = words i.err;
}

-- The alerts on a name, in their order.
abbrev pub shown_alerts : Text → List Alert → List AlertEntry
shown_alerts name [] = []
shown_alerts name (a ∷ alerts) =
    let rest = shown_alerts name alerts in
    if a.domain == name
    then record {
      kind = a.kind;
      threshold = a.threshold;
      days_left = a.days_left;
      expires_at = a.expires_at;
    }
      ∷ rest
    else rest

module _ (infos : List DomainInfo) (certs : List CertInfo) (alerts : List Alert) where
  -- What the snapshot shows of a domain: the last certificate and the last registration that are
  -- filed under its name, and the alerts on its name.
  abbrev pub shown_entry : Domain → Entry
  shown_entry d = record {
    name = d.name;
    port = d.port;
    source = d.source;
    expiry_fallback = d.expiry_fallback;
    cert = last_with (λ (c : CertInfo). c.domain) shown_section d.name certs;
    domain = last_with (λ (i : DomainInfo). i.domain) shown_registration d.name infos;
    alerts = shown_alerts d.name alerts;
  }

err_str-words : (e : Error) → err_str e ≡ words e
err_str-words none = refl
err_str-words (some e) = refl

section_of-cert : (o : Option CertInfo) → section_of cert_section o ≡ map_some shown_section o
section_of-cert none = refl
section_of-cert (some c) =
    ap (λ e. some (record (shown_section c) { error = e })) (err_str-words c.err)

section_of-registration :
    (o : Option DomainInfo) → section_of domain_section o ≡ map_some shown_registration o
section_of-registration none = refl
section_of-registration (some i) =
    ap (λ e. some (record (shown_registration i) { error = e })) (err_str-words i.err)

shown_alerts-keep :
    (name : Text) (alerts : List Alert)
    → map alert_entry (keep (λ (a : Alert). a.domain == name) alerts) ≡ shown_alerts name alerts
shown_alerts-keep name [] = refl
shown_alerts-keep name (a ∷ alerts) = elim (Bool-cases (a.domain == name)) [
  | inl h ↦ rw h (ap (λ l. alert_entry a ∷ l) (shown_alerts-keep name alerts))
  | inr h ↦ rw h (shown_alerts-keep name alerts)
]

module _ (infos : List DomainInfo) (certs : List CertInfo) (alerts : List Alert) where
  cert-shown :
      (name : Text)
      → section_of cert_section (lookup name (certs_by_name certs))
        ≡ last_with (λ (c : CertInfo). c.domain) shown_section name certs
  cert-shown name =
      section_of-cert (lookup name (certs_by_name certs))
      ∙ ap (map_some shown_section)
          (lookup-fill_nil (λ (c : CertInfo). c.domain) (λ c. c) name certs)
      ∙ sym (last_with-last_of (λ (c : CertInfo). c.domain) shown_section name certs)

  registration-shown :
      (name : Text)
      → section_of domain_section (lookup name (infos_by_name infos))
        ≡ last_with (λ (i : DomainInfo). i.domain) shown_registration name infos
  registration-shown name =
      section_of-registration (lookup name (infos_by_name infos))
      ∙ ap (map_some shown_registration)
          (lookup-fill_nil (λ (i : DomainInfo). i.domain) (λ i. i) name infos)
      ∙ sym (last_with-last_of (λ (i : DomainInfo). i.domain) shown_registration name infos)

  entry_of-shown :
      (d : Domain)
      → entry_of (infos_by_name infos) (certs_by_name certs) alerts d
        ≡ shown_entry infos certs alerts d
  entry_of-shown d = λ i. record {
    name = d.name;
    port = d.port;
    source = d.source;
    expiry_fallback = d.expiry_fallback;
    cert = cert-shown d.name i;
    domain = registration-shown d.name i;
    alerts = shown_alerts-keep d.name alerts i;
  }

  entries-shown :
      (domains : List Domain)
      → map (entry_of (infos_by_name infos) (certs_by_name certs) alerts) domains
        ≡ map (shown_entry infos certs alerts) domains
  entries-shown [] = refl
  entries-shown (d ∷ domains) = λ i. entry_of-shown d i ∷ entries-shown domains i

-- The snapshot is dated with the time of the run in UTC, counts the domains, and has one entry for
-- each of them, sorted by name: the domain itself, the last certificate and the last registration
-- that were found for exactly its name, with the words of their errors, and the alerts on exactly
-- its name, in their order.
pub build_entries :
    (now : Time) (domains : List Domain) (infos : List DomainInfo) (certs : List CertInfo)
    (alerts : List Alert)
    → let s = build now domains infos certs alerts in
      Perm s.entries (map (shown_entry infos certs alerts) domains)
      × (s.total ≡ length domains)
      × IsSorted (on (λ (e : Entry). e.name) lt_text) s.entries
      × (s.generated_at ≡ utc now)
unfolding build
build_entries now domains infos certs alerts =
    let entries = map (entry_of (infos_by_name infos) (certs_by_name certs) alerts) domains in
    (
      subst (Perm (build now domains infos certs alerts).entries)
          (entries-shown infos certs alerts domains)
          (sort_slice-perm (on (λ (e : Entry). e.name) lt_text) entries),
      length-map (entry_of (infos_by_name infos) (certs_by_name certs) alerts) domains,
      sort_slice-IsSorted (on (λ (e : Entry). e.name) lt_text)
          (on-IsWeakOrder (λ (e : Entry). e.name) lt_text-IsTotalOrder.weak) entries,
      refl,
    )
