-- ===== src/Base/Equality.antt =====
-- `==` for every type whose equality the program tests, by instances.
use Prim.Native.Nat.{ℕ}
use mathlib.Core.Path.{◌≡◌, refl}
use mathlib.Core.Logic.{◌↔◌, ◌⊎◌, ◌≢◌}
use mathlib.Core.Bool.{Bool, true, false, ◌&&◌}
use mathlib.Core.List.{List, [], ◌∷◌}
use native.Mathlib.Omega.{arith}
use auto_cert.Base.Tests.{eqb, eqb_iff}

pub record Eq {ℓ} (A : Type ℓ) : Type ℓ where
  pub agree : A → A → Bool
  pub agree_iff : (a b : A) → (agree a b ≡ true) ↔ (a ≡ b)

infix 50 ◌==◌
abbrev pub ◌==◌ {ℓ} : {A : Type ℓ} ⦃e : Eq A⦄ → A → A → Bool
◌==◌ ⦃e⦄ = e.agree

instance abbrev pub nat_eq : Eq ℕ
nat_eq = record { agree = eqb; agree_iff = eqb_iff }

module _ {ℓ} {A : Type ℓ} ⦃e : Eq A⦄ where
  pub same_refl : (a : A) → (a == a) ≡ true
  same_refl a = (e.agree_iff a a).1 refl

  pub same_false : (a b : A) → a ≢ b → (a == b) ≡ false
  same_false a b h = ground (arith, e.agree_iff a b)

  pub eq_of_same : (a b : A) → (a == b) ≡ true → a ≡ b
  eq_of_same a b = (e.agree_iff a b).0

  pub same_cases : (a b : A) → ((a == b) ≡ true) × (a ≡ b) ⊎ ((a == b) ≡ false) × (a ≢ b)
  same_cases a b = ground (arith, e.agree_iff a b)

  abbrev pub same_list : List A → List A → Bool
  same_list [] [] = true
  same_list [] (y ∷ ys) = false
  same_list (x ∷ xs) [] = false
  same_list (x ∷ xs) (y ∷ ys) = e.agree x y && same_list xs ys

  pub same_list_iff : (xs ys : List A) → (same_list xs ys ≡ true) ↔ (xs ≡ ys)
  same_list_iff [] [] = ground arith
  same_list_iff [] (y ∷ ys) = ground arith
  same_list_iff (x ∷ xs) [] = ground arith
  same_list_iff (x ∷ xs) (y ∷ ys) = ground (arith, e.agree_iff x y, same_list_iff xs ys)

  instance abbrev pub list_eq : Eq (List A)
  list_eq = record { agree = same_list; agree_iff = same_list_iff }

module _ {ℓ κ} {A : Type ℓ} {B : Type κ} ⦃e : Eq A⦄ ⦃f : Eq B⦄ where
  abbrev pub same_pair : A × B → A × B → Bool
  same_pair (a, b) (c, d) = e.agree a c && f.agree b d

  pub same_pair_iff : (p q : A × B) → (same_pair p q ≡ true) ↔ (p ≡ q)
  same_pair_iff (a, b) (c, d) = ground (arith, e.agree_iff a c, f.agree_iff b d)

  instance abbrev pub pair_eq : Eq (A × B)
  pair_eq = record { agree = same_pair; agree_iff = same_pair_iff }
