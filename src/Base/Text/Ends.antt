-- ===== src/Base/Text/Ends.antt =====
-- The last character of a text, which tells file names apart.
use auto_cert.Base.Equality.{nat_eq, list_eq, same_cases}
use auto_cert.Base.Text.{Text, has_suffix, lower, to_lower}
use Prim.Native.Nat.{ℕ}
use mathlib.Core.Path.{◌≡◌, refl, ap, sym, ◌∙◌}
use mathlib.Core.Logic.{inl, inr}
use mathlib.Core.Bool.{true}
use mathlib.Core.List.{[], ◌∷◌, ◌++◌}

-- The last character, or the given one.
abbrev pub last_or : ℕ → Text → ℕ
last_or d [] = d
last_or d (c ∷ s) = last_or c s

pub last_or-append : (d : ℕ) (s t : Text) → last_or d (s ++ t) ≡ last_or (last_or d s) t
last_or-append d [] t = refl
last_or-append d (c ∷ s) t = last_or-append c s t

pub last_or-to_lower : (d : ℕ) (s : Text) → last_or (lower d) (to_lower s) ≡ lower (last_or d s)
unfolding to_lower
last_or-to_lower d [] = refl
last_or-to_lower d (c ∷ s) = last_or-to_lower c s

-- A text with a suffix ends like it.
pub last_or-suffix :
    (d : ℕ) (s : Text) (c : ℕ) (t : Text) → has_suffix s (c ∷ t) ≡ true → last_or d s ≡ last_or c t
unfolding has_suffix
last_or-suffix d [] c t h = cc
last_or-suffix d (x ∷ s) c t h = elim (same_cases (c ∷ t) (x ∷ s)) [
  | inl (_, e) ↦ ap (last_or d) (sym e)
  | inr (other, _) ↦ last_or-suffix x s c t (sym (rw other) ∙ h)
]
