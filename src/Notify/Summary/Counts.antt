-- ===== src/Notify/Summary/Counts.antt =====
-- Every domain is counted once, in its health bucket, its level and its source.
use auto_cert.Base.Members.{keep-mem}
use mathlib.Core.List.{Mem, not-mem-nil}
use mathlib.Core.Logic.{∥∥₁_elim}
use mathlib.Core.HLevel.{×_prop}
use mathlib.Core.Option.{some-injective}
use native.Mathlib.Bridge.{le_prop}
use native.Mathlib.Decide.{ℕ_discrete}
use auto_cert.Base.{
  ◌≡◌, refl, sym, ap, ◌∙◌, subst, ℕ, suc, ◌+◌, ◌≤◌, same_refl, Bool, true, false, Option, none,
  some, List, [], ◌∷◌, arith, inl, inr, ◌==◌, length, keep, list_eq, nat_eq, same_cases,
  Option-cases,
}
use auto_cert.Base.Text.{Text}
use auto_cert.Base.Dict.{
  Dict, lookup, lookup-nil, insert, lookup-insert_self, lookup-insert_ne, values, NodupKeys,
  insert-NodupKeys,
}
use auto_cert.Base.Dict.Fill.{IsKeyed, insert-IsKeyed, lookup-IsKeyed, lookup-values}
use auto_cert.Model.{Domain}
use auto_cert.Notify.Summary.{
  Tally, SourceStat, Bucket, zero_tally, count_level, count_bucket, count_domain, stat_of,
  count_source, count_all, count_sources,
}

ℕ-set : IsSet ℕ
ℕ-set = hlevel ℕ_discrete

Tally-set : IsSet Tally
Tally-set = hlevel ℕ_discrete

-- Every entry is in one health bucket and on one level.
abbrev pub IsPartition : ℕ → Tally → Type 0
IsPartition n t = (t.healthy + t.alerted + t.no_cert_data ≡ n) × (t.apex + t.subdomain ≡ n)

count_bucket-sum :
    (b : Bucket) (t : Tally)
    → ((count_bucket b t).healthy + (count_bucket b t).alerted + (count_bucket b t).no_cert_data
        ≡ suc (t.healthy + t.alerted + t.no_cert_data))
      × ((count_bucket b t).apex + (count_bucket b t).subdomain ≡ t.apex + t.subdomain)
count_bucket-sum Bucket.healthy t = (omega arith, refl)
count_bucket-sum Bucket.alerted t = (omega arith, refl)
count_bucket-sum Bucket.nocert t = (omega arith, refl)

count_level-sum :
    (l : Bool) (t : Tally)
    → ((count_level l t).healthy + (count_level l t).alerted + (count_level l t).no_cert_data
        ≡ t.healthy + t.alerted + t.no_cert_data)
      × ((count_level l t).apex + (count_level l t).subdomain ≡ suc (t.apex + t.subdomain))
count_level-sum true t = (refl, omega arith)
count_level-sum false t = (refl, omega arith)

nonempty :
    (ds : List Domain) {d : Domain}
    → Mem d ds
    → (e : Domain) × (rest : List Domain) × (ds ≡ e ∷ rest)
nonempty [] m = absurd (not-mem-nil m)
nonempty (e ∷ rest) m = (e, rest, refl)

module _ (level : Domain → Bool) (bucket : Domain → Bucket) where
  count_domain-IsPartition :
      (n : ℕ) (d : Domain) (t : Tally)
      → IsPartition n t
      → IsPartition (suc n) (count_domain level bucket d t)
  count_domain-IsPartition n d t h =
      let (a, b) = count_level-sum (level d) t in
      let (c, e) = count_bucket-sum (bucket d) (count_level (level d) t) in
      (c ∙ ap suc (a ∙ h.0), e ∙ b ∙ ap suc h.1)

  count_all-IsPartition :
      (ds : List Domain) (n k : ℕ) (t : Tally)
      → k ≡ length ds + n
      → IsPartition n t
      → IsPartition k (count_all level bucket ds t)
  count_all-IsPartition [] n k t e h = subst (λ m. IsPartition m t) (omega arith) h
  count_all-IsPartition (d ∷ ds) n k t e h =
      count_all-IsPartition ds (suc n) k (count_domain level bucket d t) (omega arith)
        (count_domain-IsPartition n d t h)

  pub tally-IsPartition :
      (ds : List Domain) → IsPartition (length ds) (count_all level bucket ds zero_tally)
  tally-IsPartition ds =
      count_all-IsPartition ds 0 (length ds) zero_tally (omega arith) (refl, refl)

  -- The domains of a source.
  abbrev pub from_source : Text → List Domain → List Domain
  from_source s = keep (λ (d : Domain). d.source == s)

  -- What the loop makes of the stat of one source.
  abbrev grown : Domain → SourceStat → SourceStat
  grown d ss = record {
    source = ss.source;
    total = suc ss.total;
    tally = count_domain level bucket d ss.tally;
  }

  abbrev grow_all : List Domain → SourceStat → SourceStat
  grow_all [] ss = ss
  grow_all (d ∷ ds) ss = grow_all ds (grown d ss)

  abbrev grow : Text → Option SourceStat → List Domain → Option SourceStat
  grow s o [] = o
  grow s o (d ∷ ds) = some (grow_all ds (grown d (stat_of level bucket s o)))

  grow-some :
      (s : Text) (ss : SourceStat) (ds : List Domain) → grow s (some ss) ds ≡ some (grow_all ds ss)
  grow-some s ss [] = refl
  grow-some s ss (d ∷ ds) = refl

  grow-cons :
      (s : Text) (o : Option SourceStat) (d : Domain) (ds : List Domain)
      → grow s (some (grown d (stat_of level bucket s o))) ds ≡ grow s o (d ∷ ds)
  grow-cons s o d ds = grow-some s (grown d (stat_of level bucket s o)) ds

  lookup-count_source :
      (s : Text) (d : Domain) (m : Dict Text SourceStat)
      → d.source ≡ s
      → lookup s (count_source level bucket d m)
        ≡ some (grown d (stat_of level bucket s (lookup s m)))
  lookup-count_source s d m same =
      subst
        (λ k.
          lookup k (count_source level bucket d m)
          ≡ some (grown d (stat_of level bucket k (lookup k m))))
        same
        (lookup-insert_self d.source (grown d (stat_of level bucket d.source (lookup d.source m)))
          m)

  lookup-count_sources :
      (s : Text) (ds : List Domain) (m : Dict Text SourceStat)
      → lookup s (count_sources level bucket ds m) ≡ grow s (lookup s m) (from_source s ds)
  lookup-count_sources s [] m = refl
  lookup-count_sources s (d ∷ ds) m = elim (same_cases d.source s) [
    | inl (h, same) ↦
        lookup-count_sources s ds (count_source level bucket d m)
        ∙ ap (λ o. grow s o (from_source s ds)) (lookup-count_source s d m same)
        ∙ grow-cons s (lookup s m) d (from_source s ds)
        ∙ rw h refl
    | inr (h, other) ↦
        lookup-count_sources s ds (count_source level bucket d m)
        ∙ ap (λ o. grow s o (from_source s ds))
            (lookup-insert_ne (grown d (stat_of level bucket d.source (lookup d.source m))) m
              (λ e. other (sym e)))
        ∙ rw h refl
  ]

  grow_all-counts :
      (ds : List Domain) (ss : SourceStat) (k : ℕ)
      → k ≡ length ds + ss.total
      → grow_all ds ss
        ≡ record { source = ss.source; total = k; tally = count_all level bucket ds ss.tally }
  grow_all-counts [] ss k e =
      ap (λ n. record { source = ss.source; total = n; tally = ss.tally }) (omega arith)
  grow_all-counts (d ∷ ds) ss k e = grow_all-counts ds (grown d ss) k (omega arith)

  -- The stat of a source counts exactly its domains, of which there is one.
  abbrev pub IsStat : List Domain → SourceStat → Type 0
  IsStat ds ss =
      (1 ≤ length (from_source ss.source ds))
      × ((ss.total ≡ length (from_source ss.source ds))
          × (ss.tally ≡ count_all level bucket (from_source ss.source ds) zero_tally))

  abbrev counted : Text → List Domain → SourceStat
  counted s ds = record {
    source = s;
    total = length ds;
    tally = count_all level bucket ds zero_tally;
  }

  grow-counted :
      (s : Text) (ds : List Domain) {ss : SourceStat} → grow s none ds ≡ some ss → ss ≡ counted s ds
  grow-counted s [] h = cc
  grow-counted s (d ∷ ds) {ss} h = some-injective ss _ (
      sym h
      ∙ ap some (
          grow_all-counts ds (grown d (stat_of level bucket s none)) (suc (length ds))
            (omega arith)))

  grow-nonempty :
      (s : Text) (ds : List Domain) {ss : SourceStat} → grow s none ds ≡ some ss → 1 ≤ length ds
  grow-nonempty s [] h = cc
  grow-nonempty s (d ∷ ds) h = omega arith

  -- A source of a domain has a stat.
  pub lookup-source :
      (s : Text) (d : Domain) (ds : List Domain)
      → Mem d ds
      → d.source ≡ s
      → (ss : SourceStat) × (lookup s (count_sources level bucket ds []) ≡ some ss)
  lookup-source s d ds m at =
      let (e, rest, cons) =
        nonempty (from_source s ds)
          (keep-mem (λ (d : Domain). d.source == s) ds m (rw at (same_refl s))) in
      (
        grow_all rest (grown e (stat_of level bucket s none)),
        lookup-count_sources s ds []
            ∙ ap (λ o. grow s o (from_source s ds)) (lookup-nil s)
            ∙ ap (grow s none) cons,
      )

  pub record IsWellFormed (m : Dict Text SourceStat) : Type 0 where
    pub keyed : IsKeyed (λ (ss : SourceStat). ss.source) m
    pub nodup : NodupKeys m

  stat_of-source :
      (s : Text) (m : Dict Text SourceStat)
      → IsWellFormed m
      → (stat_of level bucket s (lookup s m)).source ≡ s
  stat_of-source s m w = elim (Option-cases (lookup s m)) [
    | inl h ↦ ap (λ o. (stat_of level bucket s o).source) h
    | inr (ss, h) ↦
        ap (λ o. (stat_of level bucket s o).source) h
        ∙ lookup-IsKeyed (λ (ss : SourceStat). ss.source) s m w.keyed h
  ]

  pub count_sources-IsWellFormed :
      (ds : List Domain) (m : Dict Text SourceStat)
      → IsWellFormed m
      → IsWellFormed (count_sources level bucket ds m)
  count_sources-IsWellFormed [] m w = w
  count_sources-IsWellFormed (d ∷ ds) m w =
      let ss = grown d (stat_of level bucket d.source (lookup d.source m)) in
      count_sources-IsWellFormed ds (count_source level bucket d m) (
        subst (λ k. IsWellFormed (insert k ss m)) (stat_of-source d.source m w)
          (record {
            keyed = insert-IsKeyed (λ (ss : SourceStat). ss.source) ss m w.keyed;
            nodup = insert-NodupKeys ss.source ss m w.nodup;
          }))

  pub mem-IsStat :
      (ds : List Domain) (ss : SourceStat)
      → Mem ss (values (count_sources level bucket ds []))
      → IsStat ds ss
  mem-IsStat ds ss m =
      let w = count_sources-IsWellFormed ds [] (record { keyed = tt; nodup = tt }) in
      ∥∥₁_elim
        (lookup-values (λ (ss : SourceStat). ss.source) ss.source (count_sources level bucket ds [])
          w.keyed w.nodup refl m)
        IsStat-prop
        (λ h.
          let found =
            ap (λ o. grow ss.source o (from_source ss.source ds)) (sym (lookup-nil ss.source))
            ∙ sym (lookup-count_sources ss.source ds [])
            ∙ h in
          let same = grow-counted ss.source (from_source ss.source ds) found in
          (
            grow-nonempty ss.source (from_source ss.source ds) found,
            (ap (λ c. c.total) same, ap (λ c. c.tally) same),
          ))
    where
      IsStat-prop : IsProp (IsStat ds ss)
      IsStat-prop = ×_prop le_prop (
          ×_prop (ℕ-set ss.total (length (from_source ss.source ds)))
            (Tally-set ss.tally (count_all level bucket (from_source ss.source ds) zero_tally)))
