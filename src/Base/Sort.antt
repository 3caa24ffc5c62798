-- ===== src/Base/Sort.antt =====
-- `sort.Slice` and `sort.Ints`. The model is a stable insertion sort; Go leaves the order of ties
-- open, so theorems say what holds for every order of ties: a permutation, sorted, and the same
-- list whatever order the input had where the comparison tells all elements apart.
pub mod Order
pub mod Laws
use mathlib.Core.Bool.{Bool}
use mathlib.Core.List.{List, [], ◌∷◌}
use auto_cert.Base.Tests.{if◌then◌else◌}

module _ {ℓ} {A : Type ℓ} (less : A → A → Bool) where
  abbrev pub sort_insert : A → List A → List A
  sort_insert x [] = x ∷ []
  sort_insert x (y ∷ ys) = if less y x then y ∷ sort_insert x ys else x ∷ y ∷ ys

  unfoldable pub sort_slice : List A → List A
  sort_slice [] = []
  sort_slice (x ∷ xs) = sort_insert x (sort_slice xs)
