-- ===== src/Discovery/Route53.antt =====
-- internal/discovery/route53.go: the domains registered at AWS and the records of its zones.
pub mod Laws
pub mod Results
use auto_cert.Base.{
  Bool, true, false, Option, none, some, List, [], ◌∷◌, ◌++◌, ◌&&◌, ◌||◌, not, list_eq, nat_eq,
  if◌then◌else◌, ◌==◌, is_some,
}
use auto_cert.Base.Text.{Text, codes}
use auto_cert.Base.Result.{Result, ok, err}
use auto_cert.Model.{Domain, Error}
use auto_cert.Discovery.Hosts.{normalize_host, is_excluded, is_monitorable_host}
use auto_cert.Discovery.Collector.{Found, start, add_host}

-- What a paginator of the AWS SDK answers: pages of items, and then the end or an error.
pub data Pages (A : Type 0) : Type 0 where
  finished : Pages A
  broken : Text → Pages A
  page : List A → Pages A → Pages A

pub record RecordSet : Type 0 where
  pub kind : Text
  pub name : Option Text

pub record HostedZone : Type 0 where
  pub id : Option Text
  pub name : Option Text
  pub private_zone : Bool

-- The listings: the registered domains, the zones, and the records of a zone by its id.
pub record Aws : Type 0 where
  pub list_domains : Pages (Option Text)
  pub list_zones : Pages HostedZone
  pub list_records : Text → Pages RecordSet

module _ {A S : Type 0} (step : A → S → S) where
  abbrev pub each_item : List A → S → S
  each_item [] s = s
  each_item (x ∷ xs) s = each_item xs (step x s)

  -- `for p.HasMorePages() { page, err := p.NextPage(ctx); if err != nil { return err }; … }`
  abbrev pub each : Pages A → S → S × Error
  each finished s = (s, none)
  each (broken e) s = (s, some e)
  each (page items rest) s = each rest (each_item items s)

-- `add` in `Route53.Discover`, with the zones to exclude
abbrev pub add : List Text → Text → Found → Found
add zones = add_host (λ n. not (is_excluded zones n)) (codes "route53")

abbrev add_registered : List Text → Option Text → Found → Found
add_registered zones none f = f
add_registered zones (some name) f = add zones name f

-- `collectRegisteredDomains`
unfoldable pub collect_registered_domains : List Text → Aws → Found → Found × Error
unfolding add_host is_excluded
collect_registered_domains zones aws f = each (add_registered zones) aws.list_domains f

abbrev pub has_host : RecordSet → Bool
has_host rec = rec.kind == codes "A" || rec.kind == codes "AAAA" || rec.kind == codes "CNAME"

abbrev add_named : List Text → Option Text → Found → Found
add_named zones none f = f
add_named zones (some name) f = if is_monitorable_host name then add zones name f else f

abbrev add_record : List Text → RecordSet → Found → Found
add_record zones rec f = if has_host rec then add_named zones rec.name f else f

-- `enumerateRecords`
unfoldable pub enumerate_records : List Text → Aws → Text → Found → Found × Error
unfolding add_host is_excluded is_monitorable_host
enumerate_records zones aws id f = each (add_record zones) (aws.list_records id) f

abbrev pub zone_name : HostedZone → Text
zone_name z = elim z.name [ none ↦ [] | some name ↦ name ]

-- The first error is kept.
abbrev first_error : Error → Error → Error
first_error (some e) later = some e
first_error none later = later

abbrev add_records : List Text → Aws → Option Text → Found → Error → Found × Error
add_records zones aws none f first = (f, first)
add_records zones aws (some id) f first =
    let after = enumerate_records zones aws id f in (after.0, first_error first after.1)

-- One round over a hosted zone: the state is what is found and `firstErr`.
abbrev pub add_zone : List Text → Aws → HostedZone → Found × Error → Found × Error
add_zone zones aws z (f, first) =
    if z.private_zone
    then (f, first)
    else if is_excluded zones (zone_name z)
    then (f, first)
    else add_records zones aws z.id (add zones (zone_name z) f) first

-- `collectHostedZones`
unfoldable pub collect_hosted_zones : List Text → Aws → Found → Found × Error
unfolding add_host is_excluded enumerate_records
collect_hosted_zones zones aws f =
    let after = each (add_zone zones aws) aws.list_zones (f, none) in
    (after.0.0, elim after.1 [ none ↦ after.0.1 | some e ↦ some e ])

abbrev both_failed : Error → Error → List Domain → Bool
both_failed domain_error zone_error [] = is_some domain_error && is_some zone_error
both_failed domain_error zone_error (d ∷ out) = false

abbrev message : Error → Text
message none = codes "<nil>"
message (some e) = e

-- The end of `Discover`.
abbrev pub report : Error → Error → List Domain → Result (List Domain)
report domain_error zone_error out =
    if both_failed domain_error zone_error out
    then err (
        codes "route53 both APIs failed: ListDomains="
        ++ message domain_error
        ++ codes "; ListHostedZones="
        ++ message zone_error)
    else ok out

-- `Route53.Discover` behind the AWS configuration
unfoldable pub discover : List Text → Aws → Result (List Domain)
unfolding collect_registered_domains collect_hosted_zones
discover zones aws =
    let registered = collect_registered_domains zones aws start in
    let hosted = collect_hosted_zones zones aws registered.0 in
    report registered.1 hosted.1 hosted.0.out
