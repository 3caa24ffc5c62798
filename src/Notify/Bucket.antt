-- ===== src/Notify/Bucket.antt =====
-- internal/notify/html.go: `bucketAndDedup`, which sorts the alerts of the mail into three buckets.
pub mod Shown
use auto_cert.Base.{
  Bool, true, false, Option, none, some, List, [], ◌∷◌, ◌++◌, ◌||◌, ◌&&◌, not, list_eq, nat_eq,
  pair_eq, if◌then◌else◌, ◌==◌,
}
use auto_cert.Base.Int.{ℤ, lt_ℤ, int_eq}
use auto_cert.Base.Text.{Text}
use auto_cert.Base.Dict.{Dict, lookup, insert, values}
use auto_cert.Base.Sort.{sort_slice}
use auto_cert.Base.Sort.Order.{lt_text, lex, on}
use auto_cert.Model.{Alert, AlertKind, cert_expired, domain_expired, domain_mismatch}

pub record Buckets : Type 0 where
  pub expired : List Alert
  pub expiring : List Alert
  pub mismatch : List Alert

-- The key of `byKey`.
abbrev pub KindKey : Type 0
KindKey = Text × AlertKind

abbrev pub kind_key : Alert → KindKey
kind_key a = (a.domain, a.kind)

-- The variables of the loop.
pub record Sorted : Type 0 where
  pub expired : List Alert
  pub mismatch : List Alert
  pub by_key : Dict KindKey Alert

abbrev pub is_expired : Alert → Bool
is_expired a = a.kind == cert_expired || a.kind == domain_expired

abbrev pub is_mismatch : Alert → Bool
is_mismatch a = a.kind == domain_mismatch

-- `!ok || a.Threshold < cur.Threshold`
abbrev pub is_nearer : Alert → Option Alert → Bool
is_nearer a none = true
is_nearer a (some cur) = lt_ℤ a.threshold cur.threshold

-- The default case of the switch.
unfoldable pub put_nearest : Alert → Dict KindKey Alert → Dict KindKey Alert
put_nearest a m = if is_nearer a (lookup (kind_key a) m) then insert (kind_key a) a m else m

-- A round of the loop over the alerts.
unfoldable pub sort_alert : Alert → Sorted → Sorted
sort_alert a s =
    if is_expired a
    then record s { expired = s.expired ++ a ∷ [] }
    else if is_mismatch a
    then record s { mismatch = s.mismatch ++ a ∷ [] }
    else record s { by_key = put_nearest a s.by_key }

unfoldable pub sort_alerts : List Alert → Sorted → Sorted
sort_alerts [] s = s
sort_alerts (a ∷ alerts) s = sort_alerts alerts (sort_alert a s)

-- By the days that are left, then by the domain.
abbrev pub less_days : Alert → Alert → Bool
less_days a b = lex lt_ℤ lt_text (a.days_left, a.domain) (b.days_left, b.domain)

abbrev pub less_domain_name : Alert → Alert → Bool
less_domain_name = on (λ (a : Alert). a.domain) lt_text

abbrev pub nothing_sorted : Sorted
nothing_sorted = record { expired = []; mismatch = []; by_key = [] }

-- `bucketAndDedup`
unfoldable pub bucket_and_dedup : List Alert → Buckets
bucket_and_dedup alerts =
    let s = sort_alerts alerts nothing_sorted in
    record {
      expired = sort_slice less_days s.expired;
      expiring = sort_slice less_days (values s.by_key);
      mismatch = sort_slice less_domain_name s.mismatch;
    }
