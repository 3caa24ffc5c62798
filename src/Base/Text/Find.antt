-- ===== src/Base/Text/Find.antt =====
-- Cutting a text at the first place where another stands.
use auto_cert.Base.Equality.{nat_eq, list_eq, ◌==◌}
use auto_cert.Base.Tests.{if◌then◌else◌}
use auto_cert.Base.Lists.{length, length-append}
use auto_cert.Base.Text.{Text, has_prefix, drop_prefix}
use Prim.Native.Nat.{ℕ, ◌≤◌}
use mathlib.Core.Path.{◌≡◌, refl, ap, ◌∙◌}
use mathlib.Core.Bool.{Bool, true, false, not, ◌&&◌}
use mathlib.Core.Option.{Option, none, some}
use mathlib.Core.List.{[], ◌∷◌, ◌++◌}
use native.Mathlib.Omega.{arith}

-- A character in front of what is before the place.
abbrev in_front : ℕ → Option (Text × Text) → Option (Text × Text)
in_front c none = none
in_front c (some (before, rest)) = some (c ∷ before, rest)

-- What is before the first place, and what is behind it.
unfoldable pub cut_at : Text → Text → Option (Text × Text)
unfolding has_prefix drop_prefix
cut_at [] d = none
cut_at (c ∷ s) d =
    let later = cut_at s d in
    if has_prefix (c ∷ s) d then some ([], drop_prefix (c ∷ s) d) else in_front c later

-- No place begins in a text that is followed by the separator.
unfoldable pub is_clear : Text → Text → Bool
unfolding has_prefix
is_clear d [] = true
is_clear d (c ∷ s) = not (has_prefix (c ∷ s ++ d) d) && is_clear d s

has_prefix-append : (d s : Text) → has_prefix (d ++ s) d ≡ true
unfolding has_prefix
has_prefix-append [] s = refl
has_prefix-append (c ∷ d) s = ground (arith, has_prefix-append d s)

drop_prefix-append : (d s : Text) → drop_prefix (d ++ s) d ≡ s
unfolding drop_prefix
drop_prefix-append [] s = refl
drop_prefix-append (c ∷ d) s = drop_prefix-append d s

-- What stands behind a text that is long enough does not matter.
has_prefix-longer : (x s d : Text) → length d ≤ length x → has_prefix (x ++ s) d ≡ has_prefix x d
unfolding has_prefix
has_prefix-longer x s [] h = refl
has_prefix-longer [] s (p ∷ d) h = absurd (omega arith)
has_prefix-longer (c ∷ x) s (p ∷ d) h =
    ap (λ b. (c == p) && b) (has_prefix-longer x s d (omega arith))

module _ (e : ℕ) (d : Text) where
  clear_step :
      (c : ℕ) (p : Text)
      → is_clear (e ∷ d) (c ∷ p) ≡ true
      → (has_prefix ((c ∷ p) ++ e ∷ d) (e ∷ d) ≡ false) × (is_clear (e ∷ d) p ≡ true)
  unfolding is_clear
  clear_step c p h = (ground arith, ground arith)

  -- A clear text is what is before the first place.
  pub cut_at-append :
      (p s : Text) → is_clear (e ∷ d) p ≡ true → cut_at (p ++ e ∷ d ++ s) (e ∷ d) ≡ some (p, s)
  unfolding cut_at is_clear
  cut_at-append [] s h = rw (has_prefix-append (e ∷ d) s, drop_prefix-append (e ∷ d) s)
  cut_at-append (c ∷ p) s h =
      let (shut, later) = clear_step c p h in
      let missed =
        has_prefix-longer ((c ∷ p) ++ e ∷ d) s (e ∷ d)
          (omega (arith, length-append (c ∷ p) (e ∷ d)))
        ∙ shut in
      rw (missed, cut_at-append p s later)
