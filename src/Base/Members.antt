-- ===== src/Base/Members.antt =====
-- Membership in the lists that the program builds: appended rounds, kept elements.
use mathlib.Core.Path.{◌≡◌, sym, ap, subst, ◌∙◌}
use mathlib.Core.HLevel.{×_prop}
use auto_cert.Base.Sort.Laws.{Bool-eq_prop}
use mathlib.Core.Logic.{inl, inr, ∥∥₁_map, ∥∥₁_prop}
use mathlib.Core.Logic.Or
use mathlib.Core.Bool.{Bool, true, false, false≢true}
use mathlib.Core.List.{
  List, [], ◌∷◌, ◌++◌, Mem, Mem-prop, mem-cons, mem-cons_self, mem-cons_of_mem, not-mem-nil,
  mem-append, mem-append_left, mem-append_right, mem-cast,
}
use auto_cert.Base.Tests.{Bool-cases}
use auto_cert.Base.Lists.{keep}

-- A loop that appends what each round yields.
abbrev pub collect {ℓ κ} : {A : Type ℓ} {B : Type κ} → (A → List B) → List A → List B
collect f [] = []
collect f (x ∷ xs) = f x ++ collect f xs

module _ {ℓ κ} {A : Type ℓ} {B : Type κ} (f : A → List B) where
  pub mem-collect :
      (xs : List A) {y : B} → Mem y (collect f xs) → ∥ ((x : A) × Mem x xs × Mem y (f x)) ∥₁
  mem-collect [] m = absurd (not-mem-nil m)
  mem-collect (x ∷ xs) m =
      Or.elim ∥∥₁_prop (mem-append.0 m) (λ here. ∣ (x, mem-cons_self, here) ∣₁)
        (λ later.
          ∥∥₁_map (mem-collect xs later) (λ (z, at, found). (z, mem-cons_of_mem x at, found)))

  pub collect-mem : (xs : List A) {x : A} {y : B} → Mem x xs → Mem y (f x) → Mem y (collect f xs)
  collect-mem [] m h = absurd (not-mem-nil m)
  collect-mem (z ∷ xs) {y} m h =
      Or.elim Mem-prop (mem-cons.0 m) (λ e. mem-append_left (collect f xs) (rw e at h))
        (λ later. mem-append_right (f z) (collect-mem xs later h))

module _ {ℓ} {A : Type ℓ} (p : A → Bool) where
  keep-cons_true : (y : A) (xs : List A) → p y ≡ true → keep p (y ∷ xs) ≡ y ∷ keep p xs
  keep-cons_true y xs e = rw e

  keep-cons_false : (y : A) (xs : List A) → p y ≡ false → keep p (y ∷ xs) ≡ keep p xs
  keep-cons_false y xs e = rw e

  pub mem-keep : (xs : List A) {x : A} → Mem x (keep p xs) → Mem x xs × (p x ≡ true)
  mem-keep [] m = absurd (not-mem-nil m)
  mem-keep (y ∷ xs) {x} m = elim (Bool-cases (p y)) [
    | inl e ↦
        Or.elim (×_prop Mem-prop Bool-eq_prop)
          (mem-cons.0 (subst (Mem x) (keep-cons_true y xs e) m))
          (λ same. (mem-cast same mem-cons_self, rw same e))
          (λ later. (mem-cons_of_mem y (mem-keep xs later).0, (mem-keep xs later).1))
    | inr e ↦
        let (at, h) = mem-keep xs (subst (Mem x) (keep-cons_false y xs e) m) in
        (mem-cons_of_mem y at, h)
  ]

  pub keep-mem : (xs : List A) {x : A} → Mem x xs → p x ≡ true → Mem x (keep p xs)
  keep-mem [] m h = absurd (not-mem-nil m)
  keep-mem (y ∷ xs) {x} m h = elim (Bool-cases (p y)) [
    | inl e ↦ subst (Mem x) (sym (keep-cons_true y xs e)) (
        Or.elim Mem-prop (mem-cons.0 m) (λ same. mem-cast same mem-cons_self)
          (λ later. mem-cons_of_mem y (keep-mem xs later h)))
    | inr e ↦ subst (Mem x) (sym (keep-cons_false y xs e)) (
        Or.elim Mem-prop (mem-cons.0 m) (λ same. absurd (false≢true (sym e ∙ ap p (sym same) ∙ h)))
          (λ later. keep-mem xs later h))
  ]
