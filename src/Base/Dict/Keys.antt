-- ===== src/Base/Dict/Keys.antt =====
-- Maps that answer every question alike have the same keys.
use mathlib.Core.Path.{◌≡◌, refl, sym, ◌∙◌}
use mathlib.Core.Logic.{◌≢◌, inl, inr}
use mathlib.Core.Logic.Or
use mathlib.Core.HLevel.{⊥_prop}
use mathlib.Core.Option.{none, none-ne-some}
use mathlib.Core.List.{
  [], ◌∷◌, Mem, Nodup, Nodup-cons, Nodup-nil, Perm, mem-cons, mem-cons_of_mem, not-mem-nil,
  perm_ext_iff_of_Nodup,
}
use auto_cert.Base.Equality.{Eq, same_cases}
use auto_cert.Base.Dict.{Dict, keys, lookup, NodupKeys}

module _ {ℓ κ} {K : Type ℓ} {V : Type κ} ⦃e : Eq K⦄ where
  lookup-key : (k : K) (d : Dict K V) → Mem k (keys d) → lookup k d ≢ none
  unfolding lookup
  lookup-key k [] m h = not-mem-nil m
  lookup-key k ((j, v) ∷ d) m h = elim (same_cases j k) [
    | inl (at, same) ↦ none-ne-some v (sym h ∙ rw at)
    | inr (at, other) ↦
        Or.elim ⊥_prop (mem-cons.0 m) (λ here. other (sym here))
          (λ later. lookup-key k d later (sym (rw at) ∙ h))
  ]

  key-lookup : (k : K) (d : Dict K V) → lookup k d ≢ none → Mem k (keys d)
  unfolding lookup
  key-lookup k [] h = absurd (h refl)
  key-lookup k ((j, v) ∷ d) h = elim (same_cases j k) [
    | inl (at, same) ↦ mem-cons.1 (Or.inl (sym same))
    | inr (at, other) ↦ mem-cons_of_mem j (key-lookup k d (λ g. h (rw at g)))
  ]

  pub keys-Nodup : (d : Dict K V) → NodupKeys d → Nodup (keys d)
  keys-Nodup [] u = Nodup-nil
  keys-Nodup ((k, v) ∷ d) u = Nodup-cons.1 (λ m. lookup-key k d m u.0, keys-Nodup d u.1)

  pub keys-perm :
      (d d' : Dict K V)
      → NodupKeys d
      → NodupKeys d'
      → ((k : K) → lookup k d ≡ lookup k d')
      → Perm (keys d) (keys d')
  keys-perm d d' u u' same = (perm_ext_iff_of_Nodup (keys-Nodup d u) (keys-Nodup d' u')).1 (λ k. (
    λ m. key-lookup k d' (λ h. lookup-key k d m (same k ∙ h)),
    λ m. key-lookup k d (λ h. lookup-key k d' m (sym (same k) ∙ h)),
  ))
