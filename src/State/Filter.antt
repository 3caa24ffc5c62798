-- ===== src/State/Filter.antt =====
-- `filterAgainst`: which alerts are news.
use mathlib.Core.List.{Mem, mem-cons_self, mem-cons_of_mem, not-mem-nil}
use auto_cert.Base.{
  ◌≡◌, refl, sym, ◌∙◌, ap, subst, ◌↔◌, ◌≢◌, Bool, true, false, not, none, some, List, [], ◌∷◌,
  arith, keep, list_eq, nat_eq, Option-cases, inl, inr, Bool-cases, eq_of_same,
}
use auto_cert.Base.Members.{mem-keep, keep-mem}
use auto_cert.Base.Dict.{lookup}
use auto_cert.Base.Int.{int_eq}
use mathlib.Core.Bool.{false≢true}
use mathlib.Core.Option.{some-injective}
use auto_cert.Model.{Alert}
use auto_cert.Time.{equal}
use auto_cert.State.{Known, Record, is_known, filter_against, alert_key}

pub filter_against-keep :
    (m : Known) (alerts : List Alert)
    → filter_against m alerts ≡ keep (λ a. not (is_known m a)) alerts
unfolding filter_against
filter_against-keep m [] = refl
filter_against-keep m (a ∷ alerts) = ground (arith, filter_against-keep m alerts)

not-true : (b : Bool) → not b ≡ true → b ≡ false
not-true true h = cc
not-true false h = refl

-- An alert passes exactly if it was raised and the store has no record of it with its date.
pub mem-filter_against :
    (m : Known) (alerts : List Alert) (a : Alert)
    → Mem a (filter_against m alerts) ↔ (Mem a alerts × (is_known m a ≡ false))
mem-filter_against m alerts a = (
  λ h.
      let (at, fresh) =
        mem-keep (λ b. not (is_known m b)) alerts
          (subst (Mem a) (filter_against-keep m alerts) h) in
      (at, not-true (is_known m a) fresh),
  λ (at, fresh).
      rw (filter_against-keep m alerts)
        (keep-mem (λ b. not (is_known m b)) alerts at (ap not fresh)),
)

pub filter_against-nil :
    (m : Known) (alerts : List Alert)
    → ((a : Alert) → Mem a alerts → is_known m a ≡ true)
    → filter_against m alerts ≡ []
unfolding filter_against
filter_against-nil m [] h = refl
filter_against-nil m (a ∷ alerts) h =
    rw (h a mem-cons_self, filter_against-nil m alerts (λ b at. h b (mem-cons_of_mem a at)))

pub is_known-absent : (m : Known) (a : Alert) → lookup (alert_key a) m ≡ none → is_known m a ≡ false
is_known-absent m a h = rw (h, is_known)

pub is_known-found :
    (m : Known) (a : Alert) (r : Record)
    → lookup (alert_key a) m ≡ some r
    → is_known m a ≡ equal r.expires_at a.expires_at
is_known-found m a r h = rw (h, is_known)

not_quiet :
    (m : Known) (alerts : List Alert) (a : Alert)
    → Mem a alerts
    → is_known m a ≡ false
    → filter_against m alerts ≢ []
not_quiet m alerts a at fresh quiet =
    not-mem-nil (subst (Mem a) quiet ((mem-filter_against m alerts a).1 (at, fresh)))

known_date :
    (m : Known) (a : Alert)
    → is_known m a ≡ true
    → (r : Record) × (lookup (alert_key a) m ≡ some r)
      × (r.expires_at.instant ≡ a.expires_at.instant)
known_date m a p = elim (Option-cases (lookup (alert_key a) m)) [
  | inl absent ↦ absurd (false≢true (sym (is_known-absent m a absent) ∙ p))
  | inr (r, found) ↦ (
    r,
    found,
    eq_of_same r.expires_at.instant a.expires_at.instant (sym (is_known-found m a r found) ∙ p),
  )
]

-- One record cannot match two dates.
known_both :
    (m : Known) (a b : Alert)
    → alert_key a ≡ alert_key b
    → is_known m a ≡ true
    → is_known m b ≡ true
    → a.expires_at.instant ≡ b.expires_at.instant
known_both m a b same p q =
    let (r, found_r, date_r) = known_date m a p in
    let (s, found_s, date_s) = known_date m b q in
    let one : r ≡ s =
      some-injective r s (sym found_r ∙ subst (λ k. lookup k m ≡ some s) (sym same) found_s) in
    sym date_r ∙ ap (λ (x : Record). x.expires_at.instant) one ∙ date_s

-- No store, whatever was sent before, silences two alerts of one key with different dates: in every
-- run one of them is news again.
pub filter_against-conflict :
    (m : Known) (alerts : List Alert) (a b : Alert)
    → Mem a alerts
    → Mem b alerts
    → alert_key a ≡ alert_key b
    → equal a.expires_at b.expires_at ≡ false
    → filter_against m alerts ≢ []
filter_against-conflict m alerts a b at bt same differ quiet = elim (Bool-cases (is_known m a)) [
  | inr fresh ↦ not_quiet m alerts a at fresh quiet
  | inl p ↦ elim (Bool-cases (is_known m b)) [
    | inr fresh ↦ not_quiet m alerts b bt fresh quiet
    | inl q ↦ false≢true (
        sym differ
        ∙ (int_eq.agree_iff a.expires_at.instant b.expires_at.instant).1
            (known_both m a b same p q))
  ]
]
