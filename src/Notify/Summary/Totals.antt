-- ===== src/Notify/Summary/Totals.antt =====
-- The summary of the mail: what each of its counters counts, in all and by source.
use mathlib.Core.List.{map, Mem, Perm, Nodup}
use mathlib.Core.List.Perm
use auto_cert.Base.{
  ◌≡◌, refl, sym, ap, ◌∙◌, subst, ◌+◌, ◌≤◌, Bool, true, false, not, Option, List, [], ◌∷◌, list_eq,
  nat_eq, arith, length, keep, count, ltb, ◌==◌, if◌then◌else◌,
}
use auto_cert.Base.Text.{Text}
use auto_cert.Base.Dict.{Dict, values, keys}
use auto_cert.Base.Dict.Fill.{IsKeyed, mem-values, lookup-IsKeyed}
use auto_cert.Base.Dict.Keys.{keys-Nodup}
use auto_cert.Base.Sort.{sort_slice}
use auto_cert.Base.Sort.Laws.{sort_slice-perm, sort_slice-IsSorted, IsSorted}
use auto_cert.Base.Sort.Order.{
  IsWeakOrder, lt_text, lex, flip, on, on-IsWeakOrder, lex-IsTotalOrder, flip-IsTotalOrder,
  ltb-IsTotalOrder, lt_text-IsTotalOrder,
}
use auto_cert.Model.{Domain, CertInfo, Alert}
use auto_cert.Time.{Time}
use auto_cert.Notify.Summary.{
  Tally, SourceStat, Summary, Bucket, zero_tally, count_level, count_bucket, count_domain,
  count_all, count_sources, less_source, build_summary, level_of, bucket_of,
}
use auto_cert.Notify.Summary.Counts.{
  IsPartition, tally-IsPartition, mem-IsStat, lookup-source, count_sources-IsWellFormed,
}
use auto_cert.Notify.Summary.Health.{health_of, is_registrable, bucket_of-health_of}

-- The three kinds of health.
abbrev pub is_healthy : Bucket → Bool
is_healthy Bucket.healthy = true
is_healthy Bucket.alerted = false
is_healthy Bucket.nocert = false

abbrev pub is_alerted : Bucket → Bool
is_alerted Bucket.healthy = false
is_alerted Bucket.alerted = true
is_alerted Bucket.nocert = false

abbrev pub is_unread : Bucket → Bool
is_unread Bucket.healthy = false
is_unread Bucket.alerted = false
is_unread Bucket.nocert = true

-- What one round adds to the counters.
record Steps (l : Bool) (b : Bucket) (t : Tally) : Type 0 where
  pub apex : (count_bucket b (count_level l t)).apex ≡ (if l then 1 else 0) + t.apex
  pub subdomain :
      (count_bucket b (count_level l t)).subdomain ≡ (if not l then 1 else 0) + t.subdomain
  pub healthy :
      (count_bucket b (count_level l t)).healthy ≡ (if is_healthy b then 1 else 0) + t.healthy
  pub alerted :
      (count_bucket b (count_level l t)).alerted ≡ (if is_alerted b then 1 else 0) + t.alerted
  pub no_cert_data :
      (count_bucket b (count_level l t)).no_cert_data
      ≡ (if is_unread b then 1 else 0) + t.no_cert_data

counted-Steps : (l : Bool) (b : Bucket) (t : Tally) → Steps l b t
counted-Steps true Bucket.healthy t = ground arith
counted-Steps true Bucket.alerted t = ground arith
counted-Steps true Bucket.nocert t = ground arith
counted-Steps false Bucket.healthy t = ground arith
counted-Steps false Bucket.alerted t = ground arith
counted-Steps false Bucket.nocert t = ground arith

-- The sources with more domains first, then the alphabet.
abbrev pub larger_first : SourceStat → SourceStat → Bool
larger_first = on (λ (ss : SourceStat). (ss.total, ss.source)) (lex (flip ltb) lt_text)

larger_first-IsWeakOrder : IsWeakOrder larger_first
larger_first-IsWeakOrder =
    on-IsWeakOrder (λ (ss : SourceStat). (ss.total, ss.source))
      (lex-IsTotalOrder (flip-IsTotalOrder ltb-IsTotalOrder) lt_text-IsTotalOrder).weak

module _ (level : Domain → Bool) (health : Domain → Bucket) where
  -- Each counter counts the domains of its kind.
  pub record IsTally (ds : List Domain) (t : Tally) : Type 0 where
    pub apex : t.apex ≡ count level ds
    pub subdomain : t.subdomain ≡ count (λ (d : Domain). not (level d)) ds
    pub healthy : t.healthy ≡ count (λ (d : Domain). is_healthy (health d)) ds
    pub alerted : t.alerted ≡ count (λ (d : Domain). is_alerted (health d)) ds
    pub no_cert_data : t.no_cert_data ≡ count (λ (d : Domain). is_unread (health d)) ds

  -- The domains of a source.
  abbrev pub of_source : Text → List Domain → List Domain
  of_source s = keep (λ (d : Domain). d.source == s)

  -- A stat counts the domains of its source, of which there is one, each once by health and once by
  -- level.
  pub record IsSourceStat (ds : List Domain) (ss : SourceStat) : Type 0 where
    pub not_empty : 1 ≤ ss.total
    pub total : ss.total ≡ length (of_source ss.source ds)
    pub tally : IsTally (of_source ss.source ds) ss.tally
    pub partition : IsPartition ss.total ss.tally

  -- The summary counts the domains, each once by health and once by level; there is one stat for
  -- each source of a domain, and no other.
  pub record IsCounted (ds : List Domain) (s : Summary) : Type 0 where
    pub total : s.total ≡ length ds
    pub tally : IsTally ds s.tally
    pub partition : IsPartition s.total s.tally
    pub each_stat : (ss : SourceStat) → Mem ss s.by_source → IsSourceStat ds ss
    pub every_source :
        (d : Domain) → Mem d ds → (ss : SourceStat) × Mem ss s.by_source × (ss.source ≡ d.source)
    pub sorted : IsSorted larger_first s.by_source
    pub once : Nodup (map (λ (ss : SourceStat). ss.source) s.by_source)

  -- The counters after a loop, from those before it.
  record Grows (ds : List Domain) (t r : Tally) : Type 0 where
    pub apex : r.apex ≡ count level ds + t.apex
    pub subdomain : r.subdomain ≡ count (λ (d : Domain). not (level d)) ds + t.subdomain
    pub healthy : r.healthy ≡ count (λ (d : Domain). is_healthy (health d)) ds + t.healthy
    pub alerted : r.alerted ≡ count (λ (d : Domain). is_alerted (health d)) ds + t.alerted
    pub no_cert_data :
        r.no_cert_data ≡ count (λ (d : Domain). is_unread (health d)) ds + t.no_cert_data

  count_all-Grows : (ds : List Domain) (t : Tally) → Grows ds t (count_all level health ds t)
  count_all-Grows [] t = ground arith
  count_all-Grows (d ∷ ds) t =
      let later = count_all-Grows ds (count_domain level health d t) in
      let now = counted-Steps (level d) (health d) t in
      record {
        apex = omega (arith, later.apex, now.apex);
        subdomain = omega (arith, later.subdomain, now.subdomain);
        healthy = omega (arith, later.healthy, now.healthy);
        alerted = omega (arith, later.alerted, now.alerted);
        no_cert_data = omega (arith, later.no_cert_data, now.no_cert_data);
      }

  count_all-IsTally : (ds : List Domain) → IsTally ds (count_all level health ds zero_tally)
  count_all-IsTally ds =
      let g = count_all-Grows ds zero_tally in
      record {
        apex = omega (arith, g.apex);
        subdomain = omega (arith, g.subdomain);
        healthy = omega (arith, g.healthy);
        alerted = omega (arith, g.alerted);
        no_cert_data = omega (arith, g.no_cert_data);
      }

  by_source-IsSourceStat :
      (ds : List Domain) (ss : SourceStat)
      → Mem ss (values (count_sources level health ds []))
      → IsSourceStat ds ss
  by_source-IsSourceStat ds ss m =
      let (some_there, rest) = mem-IsStat level health ds ss m in
      let (total, tally) = rest in
      record {
        not_empty = omega (arith, some_there, total);
        total = total;
        tally =
            subst (IsTally (of_source ss.source ds)) (sym tally)
              (count_all-IsTally (of_source ss.source ds));
        partition = rw (total, tally) (tally-IsPartition level health (of_source ss.source ds));
      }

  sources-keys :
      (m : Dict Text SourceStat)
      → IsKeyed (λ (ss : SourceStat). ss.source) m
      → map (λ (ss : SourceStat). ss.source) (values m) ≡ keys m
  sources-keys [] h = refl
  sources-keys ((k, ss) ∷ m) h = ap (◌∷◌ ss.source) (sources-keys m h.1) ∙ ap (λ t. t ∷ keys m) h.0

  summary-IsCounted :
      (ds : List Domain) (now : Time) (by_source : List SourceStat)
      → Perm by_source (values (count_sources level health ds []))
      → IsSorted larger_first by_source
      → IsCounted ds (record {
        generated_at = now;
        total = length ds;
        tally = count_all level health ds zero_tally;
        by_source = by_source;
      })
  summary-IsCounted ds now by_source p order =
      let m = count_sources level health ds [] in
      let w = count_sources-IsWellFormed level health ds [] (record { keyed = tt; nodup = tt }) in
      record {
        total = refl;
        tally = count_all-IsTally ds;
        partition = tally-IsPartition level health ds;
        each_stat = λ ss at. by_source-IsSourceStat ds ss (Perm.subset p ss at);
        every_source = λ d at.
            let (ss, found) = lookup-source level health d.source d ds at refl in
            (
              ss,
              Perm.subset (Perm.symm p) ss
                  (mem-values (λ (ss : SourceStat). ss.source) d.source m found),
              lookup-IsKeyed (λ (ss : SourceStat). ss.source) d.source m w.keyed found,
            );
        sorted = order;
        once =
            Perm.nodup (Perm.map (λ (ss : SourceStat). ss.source) (Perm.symm p))
              (subst Nodup (sym (sources-keys m w.keyed)) (keys-Nodup m w.nodup));
      }

-- The summary counts the domains: its total is their number, and each counter is the number of those
-- of its kind, where a domain is alerted if an alert is on its name, else without certificate if the
-- last check of its name failed or is missing, else healthy, and on the first level if it is its own
-- registrable domain. Each domain is counted once by health and once by level. There is one stat for
-- each source of a domain, and no other, and it counts the domains of its source in the
-- same way; the stats with more domains come first, then those that the alphabet has first.
pub summary_counts :
    (etld_plus_one : Text → Option Text) (now : Time) (domains : List Domain)
    (certs : List CertInfo) (alerts : List Alert)
    → IsCounted
        (is_registrable etld_plus_one)
        (health_of certs alerts)
        domains
        (build_summary etld_plus_one now domains certs alerts)
unfolding build_summary
summary_counts etld_plus_one now domains certs alerts =
    let level = level_of etld_plus_one in
    let bucket = bucket_of certs alerts in
    let same : bucket ≡ health_of certs alerts = λ i d. bucket_of-health_of certs alerts d i in
    subst
      (λ h.
        IsCounted (is_registrable etld_plus_one) h domains
          (build_summary etld_plus_one now domains certs alerts))
      same
      (summary-IsCounted level bucket domains now
        (sort_slice less_source (values (count_sources level bucket domains [])))
        (sort_slice-perm less_source (values (count_sources level bucket domains [])))
        (sort_slice-IsSorted less_source larger_first-IsWeakOrder
          (values (count_sources level bucket domains []))))
