-- ===== src/Discovery/Route53/Results.antt =====
-- What `Route53.Discover` returns, whatever listing breaks off.
use mathlib.Core.List.{Mem, Mem-prop, Nodup, not-mem-nil, map}
use auto_cert.Base.{
  ◌≡◌, ◌≢◌, refl, sym, ◌∙◌, subst, Bool, true, false, not, none, some, List, [], ◌∷◌, ◌++◌, ◌⊎◌,
  inl, inr,
}
use auto_cert.Base.Text.{Text, codes}
use auto_cert.Base.Result.{ok, err, ok-injective, ok-ne-err}
use auto_cert.Model.{Domain, Error}
use auto_cert.Discovery.Hosts.{normalize_host, is_excluded, is_monitorable_host}
use auto_cert.Discovery.Collector.{Found, start, names}
use auto_cert.Discovery.Collector.Laws.{
  IsClean, start-IsClean, add_host-IsClean, add_host-keeps, add_host-finds,
}
use auto_cert.Discovery.Route53.{
  report, RecordSet, HostedZone, Aws, add, add_registered, add_record, add_zone, has_host,
  zone_name, collect_registered_domains, enumerate_records, collect_hosted_zones, discover,
  add_named, add_records,
}
use auto_cert.Discovery.Route53.Laws.{
  InPages, each-reaches, add_registered-keeps, add_record-keeps, add_zone-keeps,
  collect_registered_domains-keeps, collect_hosted_zones-keeps,
}

not-true : (b : Bool) → not b ≡ true → b ≡ false
not-true true h = cc
not-true false h = refl

report-cases :
    (domain_error zone_error : Error) (out : List Domain)
    → (report domain_error zone_error out ≡ ok out)
      ⊎ ((e : Text) × (report domain_error zone_error out ≡ err e) × (out ≡ []))
report-cases none zone_error [] = inl refl
report-cases (some e) none [] = inl refl
report-cases (some e) (some g) [] = inr (
  codes "route53 both APIs failed: ListDomains=" ++ e ++ codes "; ListHostedZones=" ++ g,
  refl,
  refl,
)
report-cases domain_error zone_error (d ∷ out) = inl refl

module _ (zones : List Text) (aws : Aws) where
  abbrev wanted : Text → Bool
  wanted n = not (is_excluded zones n)

  abbrev IsFound : Found → Type 0
  IsFound = IsClean wanted (codes "route53")

  -- What both listings together find.
  abbrev all_found : Found
  all_found = (collect_hosted_zones zones aws (collect_registered_domains zones aws start).0).0

  all_found-IsClean : IsFound all_found
  all_found-IsClean =
      let k = add_host-IsClean wanted (codes "route53") in
      collect_hosted_zones-keeps zones aws IsFound k (collect_registered_domains zones aws start).0
        (collect_registered_domains-keeps zones aws IsFound k start
          (start-IsClean wanted (codes "route53")))

  discover-cases :
      (discover zones aws ≡ ok all_found.out)
      ⊎ ((e : Text) × (discover zones aws ≡ err e) × (all_found.out ≡ []))
  unfolding discover
  discover-cases =
      let registered = collect_registered_domains zones aws start in
      let hosted = collect_hosted_zones zones aws registered.0 in
      report-cases registered.1 hosted.1 hosted.0.out

  abbrev Clean : List Domain → Type 0
  Clean out =
      Nodup (map (λ d. d.name) out)
      × ((n : Text) → Mem n (map (λ d. d.name) out) → (n ≢ []) × (is_excluded zones n ≡ false))

  -- What is found is returned.
  found-returned :
      (n : Text)
      → Mem n (names all_found)
      → (out : List Domain) × (discover zones aws ≡ ok out) × Mem n (map (λ d. d.name) out)
  found-returned n m = elim discover-cases [
    | inl found ↦ (all_found.out, found, m)
    | inr (e, failed, empty) ↦
        absurd (not-mem-nil (subst (λ out. Mem n (map (λ d. d.name) out)) empty m))
  ]

  add-finds :
      (raw : Text) (f : Found)
      → normalize_host raw ≢ []
      → is_excluded zones (normalize_host raw) ≡ false
      → IsFound f
      → Mem (normalize_host raw) (names (add zones raw f))
  add-finds raw f full apart c =
      add_host-finds wanted (codes "route53") raw f c full (rw apart refl)

  -- Where `Discover` returns domains, no two have one name, none is empty, and none is in an
  -- excluded zone.
  pub route53_clean :
      {out : List Domain}
      → discover zones aws ≡ ok out
      → Nodup (map (λ d. d.name) out)
        × ((n : Text) → Mem n (map (λ d. d.name) out) → (n ≢ []) × (is_excluded zones n ≡ false))
  route53_clean {out} h = elim discover-cases [
    | inr (e, failed, _) ↦ absurd (ok-ne-err (sym h ∙ failed))
    | inl found ↦
        let same : all_found.out ≡ out = ok-injective (sym found ∙ h) in
        let c = all_found-IsClean in
        subst Clean same
          (c.apart, λ n m. (c.not_empty n m, not-true (is_excluded zones n) (c.accepted n m)))
  ]

  registered-found :
      (raw : Text)
      → InPages (some raw) aws.list_domains
      → normalize_host raw ≢ []
      → is_excluded zones (normalize_host raw) ≡ false
      → Mem (normalize_host raw) (names (collect_registered_domains zones aws start).0)
  unfolding collect_registered_domains
  registered-found raw m full apart =
      each-reaches (add_registered zones) IsFound (λ f. Mem (normalize_host raw) (names f))
        (add_registered-keeps zones aws IsFound (add_host-IsClean wanted (codes "route53")))
        (add_registered-keeps zones aws (λ f. Mem (normalize_host raw) (names f))
          (λ other f. add_host-keeps wanted (codes "route53") other f))
        (λ f. Mem-prop) (some raw) (λ f c. add-finds raw f full apart c) aws.list_domains start m
        (start-IsClean wanted (codes "route53"))

  -- A registered domain outside the excluded zones on a page that the listing comes to is
  -- returned, even if both listings break off after it.
  pub route53_registered :
      (raw : Text)
      → InPages (some raw) aws.list_domains
      → normalize_host raw ≢ []
      → is_excluded zones (normalize_host raw) ≡ false
      → (out : List Domain) × (discover zones aws ≡ ok out)
        × Mem (normalize_host raw) (map (λ d. d.name) out)
  route53_registered raw m full apart = found-returned (normalize_host raw) (
      collect_hosted_zones-keeps zones aws (λ f. Mem (normalize_host raw) (names f))
        (λ other f. add_host-keeps wanted (codes "route53") other f)
        (collect_registered_domains zones aws start).0 (registered-found raw m full apart))

  module _ (rec : RecordSet) {raw : Text} (host : has_host rec ≡ true) (named : rec.name ≡ some raw)
      (fit : is_monitorable_host raw ≡ true) (full : normalize_host raw ≢ [])
      (apart : is_excluded zones (normalize_host raw) ≡ false) where
    abbrev Has : Found → Type 0
    Has f = Mem (normalize_host raw) (names f)

    Has-kept : (other : Text) (f : Found) → Has f → Has (add zones other f)
    Has-kept other f = add_host-keeps wanted (codes "route53") other f

    record-finds : (f : Found) → IsFound f → Has (add_record zones rec f)
    record-finds f c =
        rw host (
          subst (λ n. Has (add_named zones n f)) (sym named)
            (rw fit (add-finds raw f full apart c)))

    enumerate-finds :
        (id : Text) (f : Found)
        → InPages rec (aws.list_records id)
        → IsFound f
        → Has (enumerate_records zones aws id f).0
    unfolding enumerate_records
    enumerate-finds id f m c =
        each-reaches (add_record zones) IsFound Has
          (add_record-keeps zones aws IsFound (add_host-IsClean wanted (codes "route53")))
          (add_record-keeps zones aws Has Has-kept) (λ g. Mem-prop) rec record-finds
          (aws.list_records id) f m c

    module _ (z : HostedZone) {id : Text} (public : z.private_zone ≡ false)
        (apart_zone : is_excluded zones (zone_name z) ≡ false) (at : z.id ≡ some id)
        (m : InPages rec (aws.list_records id)) where
      zone-finds : (s : Found × Error) → IsFound s.0 → Has (add_zone zones aws z s).0
      zone-finds (f, first) c = rw public (
          rw apart_zone (
            subst (λ i. Has (add_records zones aws i (add zones (zone_name z) f) first).0) (sym at)
              (enumerate-finds id (add zones (zone_name z) f) m
                (add_host-IsClean wanted (codes "route53") (zone_name z) f c))))

      hosted-found :
          (f : Found)
          → InPages z aws.list_zones
          → IsFound f
          → Has (collect_hosted_zones zones aws f).0
      unfolding collect_hosted_zones
      hosted-found f mz c =
          each-reaches (add_zone zones aws) (λ s. IsFound s.0) (λ s. Has s.0)
            (add_zone-keeps zones aws IsFound (add_host-IsClean wanted (codes "route53")))
            (add_zone-keeps zones aws Has Has-kept) (λ s. Mem-prop) z zone-finds aws.list_zones
            (f, none) mz c

  -- So is a record's host, in a public zone outside the excluded ones, if it is monitorable.
  pub route53_record :
      (z : HostedZone) (rec : RecordSet) {id raw : Text}
      → InPages z aws.list_zones
      → z.private_zone ≡ false
      → is_excluded zones (zone_name z) ≡ false
      → z.id ≡ some id
      → InPages rec (aws.list_records id)
      → has_host rec ≡ true
      → rec.name ≡ some raw
      → is_monitorable_host raw ≡ true
      → normalize_host raw ≢ []
      → is_excluded zones (normalize_host raw) ≡ false
      → (out : List Domain) × (discover zones aws ≡ ok out)
        × Mem (normalize_host raw) (map (λ d. d.name) out)
  route53_record z rec {id} {raw} mz public apart_zone at m host named fit full apart =
      found-returned (normalize_host raw) (
        hosted-found rec host named fit full apart z public apart_zone at m
          (collect_registered_domains zones aws start).0 mz
          (collect_registered_domains-keeps zones aws IsFound
            (add_host-IsClean wanted (codes "route53")) start
            (start-IsClean wanted (codes "route53"))))
