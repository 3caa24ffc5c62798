-- ===== src/Tests/Discoverers.antt =====
-- internal/discovery at concrete inputs.
use mathlib.Core.List.{Mem, Nodup, map, mem-cons, mem-cons_self, not-mem-nil}
use mathlib.Core.List.Perm
use mathlib.Core.Logic.Or
use mathlib.Core.Logic.{◌∨₁◌, ∨₁_prop}
use native.Mathlib.Decide.{ℕ_discrete}
use auto_cert.Base.{
  true, ◌≡◌, ◌≢◌, refl, sym, ap, ◌∙◌, ◌↔◌, false, none, some, List, [], ◌∷◌, list_eq, nat_eq, inl,
}
use auto_cert.Base.Int.{pos}
use auto_cert.Base.Text.{Text, codes}
use auto_cert.Base.Dict.{Dict, lookup}
use auto_cert.Base.Result.{ok}
use auto_cert.Model.{Domain}
use auto_cert.Discovery.{Finished, dedup, dedup_key, candidates, aggregate}
use auto_cert.Discovery.Select.{select}
use auto_cert.Discovery.Kept.{mem-dedup}
use auto_cert.Discovery.Priority.{Origin, dedup-Origin}
use auto_cert.Discovery.Order.{aggregate_order}
use auto_cert.Discovery.Hosts.{normalize_host, is_excluded, is_monitorable_host}
use auto_cert.Discovery.Hosts.Zones.{IsWithin, is_excluded-IsWithin}
use auto_cert.Discovery.Route53 as Route53
use auto_cert.Discovery.Route53.{Aws, Pages, RecordSet, HostedZone, zone_name}
use auto_cert.Discovery.Route53.Results.{route53_clean, route53_record}
use auto_cert.Time.{Time}
use auto_cert.Tests.Samples.{day, example_domain}

-- The example's name in capitals, as a DNS provider has it.
abbrev hosted_domain : Domain
hosted_domain = record {
  name = codes "Example.com";
  port = pos 0;
  source = codes "route53";
  expiry_fallback = some (day (pos 400));
}

abbrev both_found : Dict Text (List Domain)
both_found = (codes "route53", hosted_domain ∷ []) ∷ (codes "static", example_domain ∷ []) ∷ []

-- The static entry, with the date of the other.
abbrev kept_domain : Domain
kept_domain = record example_domain { expiry_fallback = some (day (pos 400)) }

dedup_test : dedup both_found (pos 443) ≡ kept_domain ∷ []
unfolding dedup
dedup_test = refl

mem-dedup_example :
    Mem kept_domain (dedup both_found (pos 443))
    ↔ (select (dedup_key kept_domain) (candidates (pos 443) both_found) ≡ some kept_domain)
mem-dedup_example = mem-dedup both_found (pos 443) kept_domain

kept_found : Mem kept_domain (dedup both_found (pos 443))
unfolding dedup
kept_found = mem-cons_self

dedup-Origin_example : Origin both_found (pos 443) kept_domain
dedup-Origin_example = dedup-Origin both_found (pos 443) kept_domain kept_found

abbrev static_finished : Finished
static_finished = record { name = codes "static"; answer = ok (example_domain ∷ []) }

abbrev route53_finished : Finished
route53_finished = record { name = codes "route53"; answer = ok (hosted_domain ∷ []) }

Time-discrete : Discrete Time
Time-discrete = hlevel ℕ_discrete

Finished-set : IsSet Finished
Finished-set = hlevel

static-ne-route53 : codes "static" ≢ codes "route53"
static-ne-route53 e = cc

two-cases :
    {a : Finished}
    → Mem a (static_finished ∷ route53_finished ∷ [])
    → (a ≡ static_finished) ∨₁ (a ≡ route53_finished)
two-cases m = Or.elim ∨₁_prop (mem-cons.0 m) Or.inl (λ later.
    Or.elim ∨₁_prop (mem-cons.0 later) Or.inr (λ none_left. absurd (not-mem-nil none_left)))

names-apart :
    (a b : Finished)
    → Mem a (static_finished ∷ route53_finished ∷ [])
    → Mem b (static_finished ∷ route53_finished ∷ [])
    → a.name ≡ b.name
    → a ≡ b
names-apart a b ma mb same =
    Or.elim (Finished-set a b) (two-cases ma)
      (λ ea.
        Or.elim (Finished-set a b) (two-cases mb) (λ eb. ea ∙ sym eb)
          (λ eb.
            absurd (static-ne-route53 (sym (ap (λ f. f.name) ea) ∙ same ∙ ap (λ f. f.name) eb))))
      (λ ea.
        Or.elim (Finished-set a b) (two-cases mb)
          (λ eb.
            absurd (static-ne-route53 (sym (ap (λ f. f.name) eb) ∙ sym same ∙ ap (λ f. f.name) ea)))
          (λ eb. ea ∙ sym eb))

aggregate_order_example :
    ((aggregate (pos 443) (static_finished ∷ route53_finished ∷ [])).domains
      ≡ (aggregate (pos 443) (route53_finished ∷ static_finished ∷ [])).domains)
    × ((name : Text)
        → lookup name (aggregate (pos 443) (static_finished ∷ route53_finished ∷ [])).errors
          ≡ lookup name (aggregate (pos 443) (route53_finished ∷ static_finished ∷ [])).errors)
aggregate_order_example =
    aggregate_order (pos 443) (static_finished ∷ route53_finished ∷ [])
      (route53_finished ∷ static_finished ∷ []) names-apart
      (Perm.swap route53_finished static_finished [])

abbrev sample_zone : HostedZone
sample_zone = record {
  id = some (codes "Z1");
  name = some (codes "example.com.");
  private_zone = false;
}

abbrev sample_record : RecordSet
sample_record = record { kind = codes "CNAME"; name = some (codes "www.example.com.") }

-- The zones come to an end; the list of registered domains breaks off after its first page.
abbrev sample_aws : Aws
sample_aws = record {
  list_domains = Pages.page (some (codes "Example.org") ∷ []) (Pages.broken (codes "throttled"));
  list_zones = Pages.page (sample_zone ∷ []) Pages.finished;
  list_records = λ id. Pages.page (sample_record ∷ []) Pages.finished;
}

abbrev excluded : List Text
excluded = codes "dev.example.com" ∷ []

abbrev host_of : Text → Domain
host_of n = record { name = n; port = pos 0; source = codes "route53"; expiry_fallback = none }

abbrev found_hosts : List Domain
found_hosts =
    host_of (codes "example.org")
    ∷ host_of (codes "example.com")
    ∷ host_of (codes "www.example.com")
    ∷ []

route53_test : Route53.discover excluded sample_aws ≡ ok found_hosts
unfolding Route53.discover
route53_test = refl

route53_clean_example :
    Nodup (map (λ (d : Domain). d.name) found_hosts)
    × ((n : Text)
        → Mem n (map (λ (d : Domain). d.name) found_hosts)
        → (n ≢ []) × (is_excluded excluded n ≡ false))
route53_clean_example = route53_clean excluded sample_aws {out = found_hosts} route53_test

not_nil : codes "example.org" ≢ []
not_nil e = cc

www_not_nil : codes "www.example.com" ≢ []
www_not_nil e = cc

route53_record_example :
    (out : List Domain) × (Route53.discover excluded sample_aws ≡ ok out)
    × Mem (normalize_host (codes "www.example.com.")) (map (λ (d : Domain). d.name) out)
unfolding normalize_host is_excluded is_monitorable_host
route53_record_example =
    route53_record excluded sample_aws sample_zone sample_record {id = codes "Z1"}
      {raw = codes "www.example.com."} (inl mem-cons_self) refl refl refl (inl mem-cons_self) refl
      refl refl www_not_nil refl

is_excluded-IsWithin_example :
    (is_excluded excluded (codes "api.dev.example.com.") ≡ true)
    ↔ ∥ (
        (ex : Text) × Mem ex excluded
        × (normalize_host ex ≢ [])
        × IsWithin (normalize_host (codes "api.dev.example.com.")) (normalize_host ex)) ∥₁
is_excluded-IsWithin_example = is_excluded-IsWithin excluded (codes "api.dev.example.com.")
