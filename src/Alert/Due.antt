-- ===== src/Alert/Due.antt =====
-- `evalOne`: when an expiry date calls for an alert, stated apart from the loop, and that the loop
-- raises exactly those.
use mathlib.Core.Logic.Or
use mathlib.Core.Logic.{∥∥₁_map, ∥∥₁_prop}
use mathlib.Core.List.{
  map, Mem, mem-cons, mem-cons_self, not-mem-nil, mem-cast, mem-map_of_mem, exists_of_mem-map,
}
use auto_cert.Base.{
  ◌≡◌, refl, sym, subst, inl, inr, true, false, List, [], ◌∷◌, arith, keep, Bool-cases,
}
use auto_cert.Base.Int.{ℤ, pos, le_ℤ}
use auto_cert.Base.Text.{Text}
use auto_cert.Base.Members.{mem-keep, keep-mem}
use auto_cert.Model.{Alert, AlertKind}
use auto_cert.Time.{Time, is_zero, before}
use auto_cert.Alert.{days_between, new_alert, expiring_alerts, eval_one}

-- What `evalOne` has to say of one expiry date.
pub data Due (now : Time) (domain : Text) (expires_at : Time) (expiring expired : AlertKind)
    (thresholds : List ℤ) (a : Alert) : Type 0 where
  -- The date is over.
  over :
      is_zero expires_at ≡ false
      → before expires_at now ≡ true
      → a ≡ new_alert domain expired expires_at (days_between now expires_at) (pos 0)
      → Due now domain expires_at expiring expired thresholds a
  -- The date is near by one of the thresholds.
  near :
      (t : ℤ)
      → is_zero expires_at ≡ false
      → before expires_at now ≡ false
      → Mem t thresholds
      → le_ℤ (days_between now expires_at) t ≡ true
      → a ≡ new_alert domain expiring expires_at (days_between now expires_at) t
      → Due now domain expires_at expiring expired thresholds a

module _ (domain : Text) (expires_at : Time) (expiring : AlertKind) (days : ℤ) where
  expiring_alerts-map :
      (ts : List ℤ)
      → expiring_alerts domain expires_at expiring days ts
        ≡ map (new_alert domain expiring expires_at days) (keep (le_ℤ days) ts)
  unfolding expiring_alerts
  expiring_alerts-map [] = refl
  expiring_alerts-map (t ∷ ts) = ground (arith, expiring_alerts-map ts)

  expiring_sound :
      (ts : List ℤ) {a : Alert}
      → Mem a (expiring_alerts domain expires_at expiring days ts)
      → ∥ (
          (t : ℤ) × Mem t (keep (le_ℤ days) ts)
          × (new_alert domain expiring expires_at days t ≡ a)) ∥₁
  expiring_sound ts {a} m = exists_of_mem-map (subst (Mem a) (expiring_alerts-map ts) m)

  expiring-complete :
      (ts : List ℤ) {t : ℤ}
      → Mem t ts
      → le_ℤ days t ≡ true
      → Mem
          (new_alert domain expiring expires_at days t)
          (expiring_alerts domain expires_at expiring days ts)
  expiring-complete ts {t} m h =
      rw (expiring_alerts-map ts) (mem-map_of_mem _ (keep-mem (le_ℤ days) ts m h))

module _ (now : Time) (domain : Text) (expires_at : Time) (expiring expired : AlertKind)
    (ts : List ℤ) where
  eval_one-zero :
      is_zero expires_at ≡ true → eval_one now domain expires_at expiring expired ts ≡ []
  unfolding eval_one
  eval_one-zero z = rw z

  eval_one-over :
      is_zero expires_at ≡ false
      → before expires_at now ≡ true
      → eval_one now domain expires_at expiring expired ts
        ≡ new_alert domain expired expires_at (days_between now expires_at) (pos 0) ∷ []
  unfolding eval_one
  eval_one-over z b = rw (z, b)

  eval_one-near :
      is_zero expires_at ≡ false
      → before expires_at now ≡ false
      → eval_one now domain expires_at expiring expired ts
        ≡ expiring_alerts domain expires_at expiring (days_between now expires_at) ts
  unfolding eval_one
  eval_one-near z b = rw (z, b)

  pub eval_one_sound :
      {a : Alert}
      → Mem a (eval_one now domain expires_at expiring expired ts)
      → ∥ Due now domain expires_at expiring expired ts a ∥₁
  eval_one_sound {a} m = elim (Bool-cases (is_zero expires_at)) [
    | inl z ↦ absurd (not-mem-nil (subst (Mem a) (eval_one-zero z) m))
    | inr z ↦ elim (Bool-cases (before expires_at now)) [
      | inl b ↦
          Or.elim ∥∥₁_prop (mem-cons.0 (subst (Mem a) (eval_one-over z b) m)) (λ e. ∣ over z b e ∣₁)
            (λ none. absurd (not-mem-nil none))
      | inr b ↦
          ∥∥₁_map
            (expiring_sound domain expires_at expiring (days_between now expires_at) ts
              (subst (Mem a) (eval_one-near z b) m))
            (λ (t, at, e).
              let (listed, h) = mem-keep (le_ℤ (days_between now expires_at)) ts at in
              near t z b listed h (sym e))
    ]
  ]

  pub eval_one-complete :
      {a : Alert}
      → Due now domain expires_at expiring expired ts a
      → Mem a (eval_one now domain expires_at expiring expired ts)
  eval_one-complete {a} (over z b e) = rw (eval_one-over z b) (mem-cast e mem-cons_self)
  eval_one-complete {a} (near t z b m h e) = rw (eval_one-near z b) (
      mem-cast e
        (expiring-complete domain expires_at expiring (days_between now expires_at) ts m h))
