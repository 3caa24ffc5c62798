-- ===== src/Notify/Summary.antt =====
-- internal/notify/summary.go: the counts at the head of the mail.
pub mod Counts
pub mod Health
pub mod Totals
use auto_cert.Base.{
  ℕ, suc, Bool, true, false, Option, none, some, List, [], ◌∷◌, list_eq, nat_eq, if◌then◌else◌,
  ◌==◌, length, ltb,
}
use auto_cert.Base.Text.{Text, to_lower, equal_fold}
use auto_cert.Base.Dict.{Dict, lookup, insert, values}
use auto_cert.Base.Dict.Fill.{fill}
use auto_cert.Base.Sort.{sort_slice}
use auto_cert.Base.Sort.Order.{lt_text, lex, flip}
use auto_cert.Model.{Domain, CertInfo, Alert, Error}
use auto_cert.Time.{Time}

-- The counters that `Summary` and `SourceStat` have in common.
pub record Tally : Type 0 where
  pub apex : ℕ
  pub subdomain : ℕ
  pub healthy : ℕ
  pub alerted : ℕ
  pub no_cert_data : ℕ

pub record SourceStat : Type 0 where
  pub source : Text
  pub total : ℕ
  pub tally : Tally

pub record Summary : Type 0 where
  pub generated_at : Time
  pub total : ℕ
  pub tally : Tally
  pub by_source : List SourceStat

abbrev pub zero_tally : Tally
zero_tally = record { apex = 0; subdomain = 0; healthy = 0; alerted = 0; no_cert_data = 0 }

-- The strings that `classify` answers.
pub data Bucket : Type 0 where
  healthy : Bucket
  alerted : Bucket
  nocert : Bucket

abbrev has : Dict Text Bool → Text → Bool
has m name = elim (lookup name m) [ none ↦ false | some b ↦ b ]

abbrev pub cert_bucket : Option Error → Bucket
cert_bucket none = nocert
cert_bucket (some none) = healthy
cert_bucket (some (some e)) = nocert

-- `classify`, of which the certificates matter by their errors
unfoldable pub classify : Text → Dict Text Error → Dict Text Bool → Bucket
unfolding lookup
classify name certs alerted_set =
    if has alerted_set name then alerted else cert_bucket (lookup name certs)

-- `isApex`, over `publicsuffix.EffectiveTLDPlusOne` (none is its error)
abbrev pub is_apex : (Text → Option Text) → Text → Bool
is_apex etld_plus_one name = elim (etld_plus_one name) [ none ↦ false | some e ↦ equal_fold e name ]

-- `Apex++` or `Subdomain++`
abbrev pub count_level : Bool → Tally → Tally
count_level true t = record t { apex = suc t.apex }
count_level false t = record t { subdomain = suc t.subdomain }

-- `Healthy++`, `Alerted++` or `NoCertData++`
abbrev pub count_bucket : Bucket → Tally → Tally
count_bucket healthy t = record t { healthy = suc t.healthy }
count_bucket alerted t = record t { alerted = suc t.alerted }
count_bucket nocert t = record t { no_cert_data = suc t.no_cert_data }

module _ (level : Domain → Bool) (bucket : Domain → Bucket) where
  abbrev pub count_domain : Domain → Tally → Tally
  count_domain d t = count_bucket (bucket d) (count_level (level d) t)

  abbrev pub stat_of : Text → Option SourceStat → SourceStat
  stat_of source none = record { source = source; total = 0; tally = zero_tally }
  stat_of source (some ss) = ss

  -- One round over `bySource`.
  abbrev pub count_source : Domain → Dict Text SourceStat → Dict Text SourceStat
  count_source d by_source =
      let ss = stat_of d.source (lookup d.source by_source) in
      insert d.source
        (record { source = ss.source; total = suc ss.total; tally = count_domain d ss.tally })
        by_source

  -- The loop over the domains.
  abbrev pub count_all : List Domain → Tally → Tally
  count_all [] t = t
  count_all (d ∷ ds) t = count_all ds (count_domain d t)

  abbrev pub count_sources : List Domain → Dict Text SourceStat → Dict Text SourceStat
  count_sources [] m = m
  count_sources (d ∷ ds) m = count_sources ds (count_source d m)

-- The comparison of the sources: the larger first, then the alphabet.
abbrev pub less_source : SourceStat → SourceStat → Bool
less_source a b = lex (flip ltb) lt_text (a.total, a.source) (b.total, b.source)

abbrev pub alerted_names : List Alert → Dict Text Bool
alerted_names alerts = fill (λ (a : Alert). to_lower a.domain) (λ a. true) [] alerts

abbrev pub cert_errors : List CertInfo → Dict Text Error
cert_errors certs = fill (λ (c : CertInfo). to_lower c.domain) (λ (c : CertInfo). c.err) [] certs

abbrev pub bucket_of : List CertInfo → List Alert → Domain → Bucket
bucket_of certs alerts d = classify (to_lower d.name) (cert_errors certs) (alerted_names alerts)

abbrev pub level_of : (Text → Option Text) → Domain → Bool
level_of etld_plus_one d = is_apex etld_plus_one (to_lower d.name)

-- `BuildSummary`
unfoldable pub build_summary :
    (Text → Option Text) → Time → List Domain → List CertInfo → List Alert → Summary
unfolding classify fill sort_slice to_lower
build_summary etld_plus_one now domains certs alerts =
    let level = level_of etld_plus_one in
    let bucket = bucket_of certs alerts in
    record {
      generated_at = now;
      total = length domains;
      tally = count_all level bucket domains zero_tally;
      by_source = sort_slice less_source (values (count_sources level bucket domains []));
    }
