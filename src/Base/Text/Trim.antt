-- ===== src/Base/Text/Trim.antt =====
-- Trimming twice is trimming once.
use auto_cert.Base.Equality.{nat_eq, list_eq}
use auto_cert.Base.Tests.{Bool-cases}
use auto_cert.Base.Lists.{length}
use auto_cert.Base.Text.{Text, contains, is_space, trim_left, trim_right, trim_space}
use Prim.Native.Nat.{ℕ, ◌≤◌}
use mathlib.Core.Path.{◌≡◌, refl, ap, ◌∙◌}
use mathlib.Core.Logic.{inl, inr}
use mathlib.Core.Bool.{false}
use mathlib.Core.List.{[], ◌∷◌}
use native.Mathlib.Omega.{arith}

trim_left_idem : (s : Text) → trim_left (trim_left s) ≡ trim_left s
unfolding trim_left
trim_left_idem [] = refl
trim_left_idem (c ∷ s) = elim (Bool-cases (is_space c)) [
  | inl h ↦ rw h (trim_left_idem s)
  | inr h ↦ rw h (rw h refl)
]

trim_right_idem : (s : Text) → trim_right (trim_right s) ≡ trim_right s
unfolding trim_right
trim_right_idem [] = refl
trim_right_idem (c ∷ s) = ground (arith, trim_right_idem s)

length-trim_left_le : (s : Text) → length (trim_left s) ≤ length s
unfolding trim_left
length-trim_left_le [] = omega arith
length-trim_left_le (c ∷ s) = ground (arith, length-trim_left_le s)

-- A text without leading white space keeps none when its end is trimmed.
trim_left-trim_right : (s : Text) → trim_left s ≡ s → trim_left (trim_right s) ≡ trim_right s
unfolding trim_left trim_right
trim_left-trim_right [] h = refl
trim_left-trim_right (c ∷ s) h = elim (Bool-cases (is_space c)) [
  | inl k ↦ absurd (omega (arith, length-trim_left_le s, ap length (rw (k, trim_left) at h)))
  | inr k ↦ ground arith
]

pub trim_space_idem : (s : Text) → trim_space (trim_space s) ≡ trim_space s
unfolding trim_space
trim_space_idem s =
    ap trim_right (trim_left-trim_right (trim_left s) (trim_left_idem s))
    ∙ trim_right_idem (trim_left s)

module _ (e : ℕ) where
  contains-trim_left : (s : Text) → contains s e ≡ false → contains (trim_left s) e ≡ false
  unfolding trim_left
  contains-trim_left [] h = h
  contains-trim_left (c ∷ s) h = ground (arith, contains-trim_left s)

  contains-trim_right : (s : Text) → contains s e ≡ false → contains (trim_right s) e ≡ false
  unfolding trim_right
  contains-trim_right [] h = h
  contains-trim_right (c ∷ s) h = ground (arith, contains-trim_right s)

  pub contains-trim_space : (s : Text) → contains s e ≡ false → contains (trim_space s) e ≡ false
  unfolding trim_space
  contains-trim_space s h = contains-trim_right (trim_left s) (contains-trim_left s h)
