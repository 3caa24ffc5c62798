-- ===== src/Base/Text/Split.antt =====
-- `split` and `join` at a separator of one character.
use auto_cert.Base.Equality.{nat_eq, list_eq, ◌==◌}
use auto_cert.Base.Tests.{Bool-cases}
use auto_cert.Base.Lists.{All}
use auto_cert.Base.Text.{Text, contains, split, split_step, join}
use Prim.Native.Nat.{ℕ}
use mathlib.Core.Path.{◌≡◌, refl, ap, sym, ◌∙◌}
use mathlib.Core.Logic.{inl, inr}
use mathlib.Core.Bool.{false}
use mathlib.Core.List.{List, [], ◌∷◌}
use native.Mathlib.Omega.{arith}

module _ (sep : ℕ) where
  abbrev pub Lacks : Text → Type 0
  Lacks w = contains w sep ≡ false

  pub split-nonempty : (s : Text) → (w : Text) × (ws : List Text) × (split s sep ≡ w ∷ ws)
  unfolding split
  split-nonempty [] = ([], [], refl)
  split-nonempty (c ∷ s) =
      let (w, ws, e) = split-nonempty s in
      elim (Bool-cases (c == sep)) [
        | inl h ↦ ([], w ∷ ws, rw e (rw h))
        | inr h ↦ (c ∷ w, ws, rw e (rw h))
      ]

  split_step-Lacks : (c : ℕ) (ws : List Text) → All Lacks ws → All Lacks (split_step sep c ws)
  split_step-Lacks c [] h = tt
  split_step-Lacks c (w ∷ ws) h = ground arith

  -- No part holds the separator.
  pub split-Lacks : (s : Text) → All Lacks (split s sep)
  unfolding split
  split-Lacks [] = (refl, tt)
  split-Lacks (c ∷ s) = split_step-Lacks c (split s sep) (split-Lacks s)

  join-step :
      (c : ℕ) (w : Text) (ws : List Text)
      → join (split_step sep c (w ∷ ws)) (sep ∷ []) ≡ c ∷ join (w ∷ ws) (sep ∷ [])
  unfolding join
  join-step c w [] = ground (arith, nat_eq.agree_iff c sep)
  join-step c w (v ∷ ws) = ground (arith, nat_eq.agree_iff c sep)

  join-nil : join ([] ∷ []) (sep ∷ []) ≡ []
  unfolding join
  join-nil = refl

  -- Joining the parts gives the text back.
  pub join-split : (s : Text) → join (split s sep) (sep ∷ []) ≡ s
  unfolding split
  join-split [] = join-nil
  join-split (c ∷ s) =
      let (w, ws, e) = split-nonempty s in
      ap (λ l. join (split_step sep c l) (sep ∷ [])) e
      ∙ join-step c w ws
      ∙ ap (◌∷◌ c) (ap (λ l. join l (sep ∷ [])) (sym e) ∙ join-split s)
