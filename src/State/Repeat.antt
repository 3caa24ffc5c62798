-- ===== src/State/Repeat.antt =====
-- Two runs in a row: what the second one holds back.
use mathlib.Core.List.{Mem}
use auto_cert.Base.{
  ◌≡◌, refl, ◌∙◌, ap, true, false, Option, none, some, List, [], list_eq, nat_eq, Option-cases, inl,
  inr, Bool-cases,
}
use auto_cert.Base.Int.{int_eq}
use auto_cert.Base.Text.{Text}
use auto_cert.Base.Dict.{lookup}
use auto_cert.Base.Dict.Fill.{
  or_else, last_of, lookup-fill, last_of-key, last_of-none, map_some, last_with-last_of,
}
use auto_cert.Model.{Alert}
use auto_cert.Time.{Time, equal}
use auto_cert.State.{Known, Record, is_known, filter_against, alert_key, record_of, upsert, index}
use auto_cert.State.Filter.{mem-filter_against, filter_against-nil, is_known-found}
use auto_cert.State.Save.{IsWellFormed, lookup-index-upsert}

-- Alerts of one key have one date.
abbrev pub DatesAgree : List Alert → Type 0
DatesAgree alerts =
    (a b : Alert)
    → Mem a alerts
    → Mem b alerts
    → alert_key a ≡ alert_key b
    → equal a.expires_at b.expires_at ≡ true

-- What the store answers of a key after `sent` was saved and read again.
pub lookup-saved :
    (now : Time) (m : Known) (sent : List Alert)
    → IsWellFormed m
    → (k : Text)
    → lookup k (index (upsert now m sent))
      ≡ or_else (map_some (record_of now) (last_of alert_key k sent)) (lookup k m)
lookup-saved now m sent w k =
    lookup-index-upsert now m sent w k
    ∙ lookup-fill alert_key (record_of now) k sent m
    ∙ ap (λ o. or_else o (lookup k m)) (last_with-last_of alert_key (record_of now) k sent)

module _ (now : Time) (m : Known) (sent : List Alert) (w : IsWellFormed m) where
  -- A key that was sent is known with the date that was sent last.
  is_known-sent :
      (a b : Alert)
      → last_of alert_key (alert_key a) sent ≡ some b
      → is_known (index (upsert now m sent)) a ≡ equal b.expires_at a.expires_at
  is_known-sent a b found = is_known-found (index (upsert now m sent)) a (record_of now b) (
      lookup-saved now m sent w (alert_key a)
      ∙ ap (λ o. or_else (map_some (record_of now) o) (lookup (alert_key a) m)) found)

  -- A key that was not sent is known as before.
  is_known-unsent :
      (a : Alert)
      → last_of alert_key (alert_key a) sent ≡ none
      → is_known (index (upsert now m sent)) a ≡ is_known m a
  is_known-unsent a absent =
      ap (λ (o : Option Record). elim o [ none ↦ false | some r ↦ equal r.expires_at a.expires_at ])
        (lookup-saved now m sent w (alert_key a)
          ∙ ap (λ o. or_else (map_some (record_of now) o) (lookup (alert_key a) m)) absent)

  -- An alert whose date has changed since it was sent is news again, whatever the store knew before.
  pub renewal_rearms :
      (a b : Alert)
      → last_of alert_key (alert_key a) sent ≡ some b
      → equal b.expires_at a.expires_at ≡ false
      → is_known (index (upsert now m sent)) a ≡ false
  renewal_rearms a b found differ = is_known-sent a b found ∙ differ

module _ (now : Time) (m : Known) (alerts : List Alert) (w : IsWellFormed m)
    (agree : DatesAgree alerts) where
  abbrev fresh : List Alert
  fresh = filter_against m alerts

  known_after : (a : Alert) → Mem a alerts → is_known (index (upsert now m fresh)) a ≡ true
  known_after a at = elim (Option-cases (last_of alert_key (alert_key a) fresh)) [
    | inr (b, found) ↦
        let (bt, same) = last_of-key alert_key (alert_key a) fresh found in
        is_known-sent now m fresh w a b found
        ∙ agree b a ((mem-filter_against m alerts b).0 bt).0 at same
    | inl absent ↦ is_known-unsent now m fresh w a absent ∙ elim (Bool-cases (is_known m a)) [
      | inl known ↦ known
      | inr news ↦ absurd (
          last_of-none alert_key (alert_key a) fresh absent
            ((mem-filter_against m alerts a).1 (at, news)) refl)
    ]
  ]

  -- Once the news of a run are saved, the same alerts are no news: a second run sends nothing.
  pub filter_against-saved : filter_against (index (upsert now m fresh)) alerts ≡ []
  filter_against-saved = filter_against-nil (index (upsert now m fresh)) alerts known_after
