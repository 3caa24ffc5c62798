-- ===== src/Alert/Triggers.antt =====
-- `Evaluate` against a specification that knows no loops: which alerts a run raises.
use mathlib.Core.Path.{fun_ext}
use mathlib.Core.Logic.Or
use mathlib.Core.Logic.{∥∥₁_elim, ∥∥₁_map, ∥∥₁_prop}
use mathlib.Core.List.{
  map, Mem, Mem-prop, mem-cons, mem-cons_self, not-mem-nil, mem-append, mem-append_left,
  mem-append_right, mem-cast, mem-map_of_mem, exists_of_mem-map, Perm,
}
use mathlib.Core.List.Perm
use auto_cert.Base.{
  ◌≡◌, sym, ap, subst, ◌↔◌, ◌⊎◌, inl, inr, true, false, Option, none, some, List, [], ◌∷◌, ◌++◌,
  arith, is_some, not, ◌||◌, Bool-cases, Option-cases, list_eq, nat_eq,
}
use auto_cert.Base.Int.{ℤ, pos, lt_ℤ}
use auto_cert.Base.Text.{Text, to_lower}
use auto_cert.Base.Sort.{sort_slice}
use auto_cert.Base.Sort.Laws.{sort_slice-perm, sort_slice-eq_of_perm}
use auto_cert.Base.Sort.Order.{lt_ℤ-IsTotalOrder}
use auto_cert.Base.Members.{collect, mem-collect, collect-mem}
use auto_cert.Model.{
  Domain, CertInfo, DomainInfo, Alert, AlertKind, cert_expiring, cert_expired, domain_expiring,
  domain_expired, domain_mismatch,
}
use auto_cert.Time.{Time, is_zero}
use auto_cert.Alert.{
  days_between, new_alert, eval_one, cert_alerts, info_alerts, mismatch_alerts, with_issuer,
  evaluate, attach_source, source_by_name,
}
use auto_cert.Alert.Due.{Due, eval_one_sound, eval_one-complete}
use auto_cert.Base.Dict.Fill.{last_with, lookup-fill_nil}

-- The mismatch alert of a registration.
abbrev pub mismatch_of : DomainInfo → Alert
mismatch_of i =
    record (new_alert i.domain domain_mismatch i.expires_at
      (days_between i.expires_at i.fallback_expected) (pos 0)) {
        fallback_expected = i.fallback_expected;
      }

-- The alerts that are due, before they are attributed to a discoverer.
pub data Triggers (now : Time) (certs : List CertInfo) (infos : List DomainInfo)
    (thresholds : List ℤ) (a : Alert) : Type 0 where
  -- A certificate that was read, with what its date calls for.
  of_cert :
      (c : CertInfo) (b : Alert)
      → Mem c certs
      → c.err ≡ none
      → Due now c.domain c.not_after cert_expiring cert_expired thresholds b
      → a ≡ with_issuer c.issuer b
      → Triggers now certs infos thresholds a
  -- A registration that was looked up, once for the apex.
  of_registration :
      (i : DomainInfo)
      → Mem i infos
      → i.err ≡ none
      → i.is_apex ≡ true
      → Due now i.domain i.expires_at domain_expiring domain_expired thresholds a
      → Triggers now certs infos thresholds a
  -- A registration whose date is not the one that was expected.
  of_mismatch :
      (i : DomainInfo)
      → Mem i infos
      → i.err ≡ none
      → i.is_apex ≡ true
      → is_zero i.fallback_expected ≡ false
      → a ≡ mismatch_of i
      → Triggers now certs infos thresholds a

-- The alert attributed to the last domain of its name, and to no source where there is none.
abbrev pub attributed : List Domain → Alert → Alert
attributed domains a = record a {
  source =
      elim (last_with (λ (d : Domain). to_lower d.name) (λ d. d.source) (to_lower a.domain)
        domains) [ none ↦ [] | some s ↦ s ];
}

module _ (now : Time) (thr : List ℤ) where
  cert_alerts-read :
      (c : CertInfo)
      → c.err ≡ none
      → cert_alerts now thr c
        ≡ map
            (with_issuer c.issuer)
            (eval_one now c.domain c.not_after cert_expiring cert_expired thr)
  unfolding cert_alerts
  cert_alerts-read c e = rw e

  cert_alerts-failed : (c : CertInfo) {m : Text} → c.err ≡ some m → cert_alerts now thr c ≡ []
  unfolding cert_alerts
  cert_alerts-failed c e = rw e

  info_alerts-apex :
      (i : DomainInfo)
      → i.err ≡ none
      → i.is_apex ≡ true
      → info_alerts now thr i
        ≡ eval_one now i.domain i.expires_at domain_expiring domain_expired thr ++ mismatch_alerts i
  unfolding info_alerts
  info_alerts-apex i e x = rw (e, x)

  info_alerts-skipped :
      (i : DomainInfo) → (is_some i.err || not i.is_apex) ≡ true → info_alerts now thr i ≡ []
  unfolding info_alerts
  info_alerts-skipped i e = rw e

  mismatch_alerts-agreed :
      (i : DomainInfo) → is_zero i.fallback_expected ≡ true → mismatch_alerts i ≡ []
  unfolding mismatch_alerts
  mismatch_alerts-agreed i z = rw z

  mismatch_alerts-differs :
      (i : DomainInfo)
      → is_zero i.fallback_expected ≡ false
      → mismatch_alerts i ≡ mismatch_of i ∷ []
  unfolding mismatch_alerts
  mismatch_alerts-differs i z = rw z

  info_cases :
      (i : DomainInfo)
      → ((is_some i.err || not i.is_apex) ≡ true) ⊎ ((i.err ≡ none) × (i.is_apex ≡ true))
  info_cases i = ground arith

  module _ (certs : List CertInfo) (infos : List DomainInfo) where
    cert_sound :
        (c : CertInfo) {a : Alert}
        → Mem c certs
        → Mem a (cert_alerts now thr c)
        → ∥ Triggers now certs infos thr a ∥₁
    cert_sound c {a} at m = elim (Option-cases c.err) [
      | inl e ↦
          ∥∥₁_elim (exists_of_mem-map (subst (Mem a) (cert_alerts-read c e) m)) ∥∥₁_prop
            (λ (b, mb, eb).
              ∥∥₁_map (eval_one_sound now c.domain c.not_after cert_expiring cert_expired thr mb)
                (λ due. of_cert c b at e due (sym eb)))
      | inr (msg, e) ↦ absurd (not-mem-nil (subst (Mem a) (cert_alerts-failed c e) m))
    ]

    mismatch_sound :
        (i : DomainInfo) {a : Alert}
        → Mem i infos
        → i.err ≡ none
        → i.is_apex ≡ true
        → Mem a (mismatch_alerts i)
        → ∥ Triggers now certs infos thr a ∥₁
    mismatch_sound i {a} at e x m = elim (Bool-cases (is_zero i.fallback_expected)) [
      | inl z ↦ absurd (not-mem-nil (subst (Mem a) (mismatch_alerts-agreed i z) m))
      | inr z ↦
          Or.elim ∥∥₁_prop (mem-cons.0 (subst (Mem a) (mismatch_alerts-differs i z) m))
            (λ same. ∣ of_mismatch i at e x z same ∣₁) (λ rest. absurd (not-mem-nil rest))
    ]

    info_sound :
        (i : DomainInfo) {a : Alert}
        → Mem i infos
        → Mem a (info_alerts now thr i)
        → ∥ Triggers now certs infos thr a ∥₁
    info_sound i {a} at m = elim (info_cases i) [
      | inl skipped ↦ absurd (not-mem-nil (subst (Mem a) (info_alerts-skipped i skipped) m))
      | inr (e, x) ↦
          Or.elim ∥∥₁_prop (mem-append.0 (subst (Mem a) (info_alerts-apex i e x) m))
            (λ one.
              ∥∥₁_map
                (eval_one_sound now i.domain i.expires_at domain_expiring domain_expired thr one)
                (λ due. of_registration i at e x due))
            (mismatch_sound i at e x)
    ]

    raised : List Alert
    raised = collect (cert_alerts now thr) certs ++ collect (info_alerts now thr) infos

    raised_sound : {a : Alert} → Mem a raised → ∥ Triggers now certs infos thr a ∥₁
    unfolding raised
    raised_sound m =
        Or.elim ∥∥₁_prop (mem-append.0 m)
          (λ l.
            ∥∥₁_elim (mem-collect (cert_alerts now thr) certs l) ∥∥₁_prop
              (λ (c, at, found). cert_sound c at found))
          (λ r.
            ∥∥₁_elim (mem-collect (info_alerts now thr) infos r) ∥∥₁_prop
              (λ (i, at, found). info_sound i at found))

    from_info :
        {i : DomainInfo} {a : Alert} → Mem i infos → Mem a (info_alerts now thr i) → Mem a raised
    unfolding raised
    from_info at m = mem-append_right _ (collect-mem (info_alerts now thr) infos at m)

    raised-complete : {a : Alert} → Triggers now certs infos thr a → Mem a raised
    unfolding raised
    raised-complete (of_cert c b at e due same) = mem-append_left _ (
        collect-mem (cert_alerts now thr) certs at (
          rw (cert_alerts-read c e) (
            mem-cast same (
              mem-map_of_mem (with_issuer c.issuer)
                (eval_one-complete now c.domain c.not_after cert_expiring cert_expired thr due)))))
    raised-complete (of_registration i at e x due) = from_info at (
        rw (info_alerts-apex i e x) (
          mem-append_left _
            (eval_one-complete now i.domain i.expires_at domain_expiring domain_expired thr due)))
    raised-complete (of_mismatch i at e x z same) = from_info at (
        rw (info_alerts-apex i e x) (
          mem-append_right _ {t = mismatch_alerts i}
            (rw (mismatch_alerts-differs i z) (mem-cast same mem-cons_self))))

module _ {ts us : List ℤ} (into : (t : ℤ) → Mem t ts → Mem t us) where
  Due-thresholds :
      {now : Time} {domain : Text} {expires_at : Time} {expiring expired : AlertKind} {a : Alert}
      → Due now domain expires_at expiring expired ts a
      → Due now domain expires_at expiring expired us a
  Due-thresholds (Due.over z b e) = Due.over z b e
  Due-thresholds (Due.near t z b m h e) = Due.near t z b (into t m) h e

  Triggers-thresholds :
      {now : Time} {certs : List CertInfo} {infos : List DomainInfo} {a : Alert}
      → Triggers now certs infos ts a
      → Triggers now certs infos us a
  Triggers-thresholds (of_cert c b at e due same) = of_cert c b at e (Due-thresholds due) same
  Triggers-thresholds (of_registration i at e x due) = of_registration i at e x (Due-thresholds due)
  Triggers-thresholds (of_mismatch i at e x z same) = of_mismatch i at e x z same

attach_source-attributed :
    (domains : List Domain) (a : Alert)
    → attach_source (source_by_name domains) a ≡ attributed domains a
unfolding attach_source source_by_name
attach_source-attributed domains a =
    ap (λ (o : Option Text). record a { source = elim o [ none ↦ [] | some s ↦ s ] })
      (lookup-fill_nil (λ d. to_lower d.name) (λ d. d.source) (to_lower a.domain) domains)

module _ (now : Time) (domains : List Domain) (certs : List CertInfo) (infos : List DomainInfo)
    (thresholds : List ℤ) where
  evaluate-raised :
      evaluate now domains certs infos thresholds
      ≡ map (attributed domains) (raised now (sort_slice lt_ℤ thresholds) certs infos)
  unfolding evaluate raised
  evaluate-raised = rw (fun_ext (attach_source-attributed domains))

  -- `Evaluate` raises an alert exactly if it is due, for a certificate that was read, a
  -- registration of an apex or a date that differs, attributed to the last domain of its name.
  pub evaluate-Triggers :
      (a : Alert)
      → Mem a (evaluate now domains certs infos thresholds)
        ↔ ∥ ((b : Alert) × Triggers now certs infos thresholds b × (attributed domains b ≡ a)) ∥₁
  evaluate-Triggers a = (sound, complete)
    where
      thr : List ℤ
      thr = sort_slice lt_ℤ thresholds

      sound :
          Mem a (evaluate now domains certs infos thresholds)
          → ∥ ((b : Alert) × Triggers now certs infos thresholds b × (attributed domains b ≡ a)) ∥₁
      sound m =
          ∥∥₁_elim (exists_of_mem-map (subst (Mem a) evaluate-raised m)) ∥∥₁_prop (λ (b, mb, e).
            ∥∥₁_map (raised_sound now thr certs infos mb) (λ due.
              (b, Triggers-thresholds (Perm.subset (sort_slice-perm lt_ℤ thresholds)) due, e)))

      complete :
          ∥ ((b : Alert) × Triggers now certs infos thresholds b × (attributed domains b ≡ a)) ∥₁
          → Mem a (evaluate now domains certs infos thresholds)
      complete t = ∥∥₁_elim t Mem-prop (λ (b, due, e). rw evaluate-raised (
          mem-cast (sym e) (
            mem-map_of_mem (attributed domains) (
              raised-complete now thr certs infos (
                Triggers-thresholds (Perm.subset (Perm.symm (sort_slice-perm lt_ℤ thresholds)))
                  due)))))

-- The order in which the thresholds are configured does not matter, not even to the order of the
-- alerts.
pub evaluate_thresholds_order :
    (now : Time) (domains : List Domain) (certs : List CertInfo) (infos : List DomainInfo)
    (ts us : List ℤ)
    → Perm ts us
    → evaluate now domains certs infos ts ≡ evaluate now domains certs infos us
unfolding evaluate
evaluate_thresholds_order now domains certs infos ts us p = rw (
    sort_slice-eq_of_perm lt_ℤ lt_ℤ-IsTotalOrder.weak ts us
      (λ a b _ _. lt_ℤ-IsTotalOrder.connected a b) p)
