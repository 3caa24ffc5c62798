-- ===== src/Base/Dict/Fill.antt =====
-- A map that a loop fills: `for _, x := range xs { m[key(x)] = value(x) }`.
use mathlib.Core.Path.{◌≡◌, refl, sym, ap, subst, ◌∙◌}
use mathlib.Core.Logic.{◌≢◌, inl, inr}
use mathlib.Core.Logic.Or
use mathlib.Core.HLevel.{⊥_prop}
use mathlib.Core.Logic.{∥∥₁_elim, ∥∥₁_map, ∥∥₁_prop}
use mathlib.Core.Option.{Option, none, some, some-injective}
use mathlib.Core.List.{
  List, [], ◌∷◌, Mem, mem-cons, mem-cons_self, mem-cons_of_mem, not-mem-nil, mem-cast, Perm,
}
use mathlib.Core.List.Perm
use native.Mathlib.Omega.{arith}
use auto_cert.Base.Tests.{if◌then◌else◌, Option-cases, Bool-cases}
use auto_cert.Base.Equality.{Eq, ◌==◌}
use auto_cert.Base.Dict.{
  Dict, values, lookup, insert, lookup-insert, lookup-nil, insert-NodupKeys, NodupKeys,
}

-- The second option where the first is missing.
abbrev pub or_else {ℓ} : {A : Type ℓ} → Option A → Option A → Option A
or_else (some a) b = some a
or_else none b = b

pub or_else-none {ℓ} : {A : Type ℓ} (o : Option A) → or_else o none ≡ o
or_else-none none = refl
or_else-none (some v) = refl

pub or_else_assoc {ℓ} :
    {A : Type ℓ} (a b c : Option A) → or_else (or_else a b) c ≡ or_else a (or_else b c)
or_else_assoc none b c = refl
or_else_assoc (some v) b c = refl

module _ {ℓ κ μ} {A : Type ℓ} {K : Type κ} {V : Type μ} ⦃e : Eq K⦄ (key : A → K)
    (value : A → V) where
  unfoldable pub fill : Dict K V → List A → Dict K V
  fill m [] = m
  fill m (x ∷ xs) = fill (insert (key x) (value x) m) xs

  -- The value of the last element with the key.
  abbrev pub last_with : K → List A → Option V
  last_with k [] = none
  last_with k (x ∷ xs) = elim (last_with k xs) [
    | none ↦ if key x == k then some (value x) else none
    | some v ↦ some v
  ]

  -- A key ends up with the last value that was written to it.
  pub lookup-fill :
      (k : K) (xs : List A) (m : Dict K V)
      → lookup k (fill m xs) ≡ or_else (last_with k xs) (lookup k m)
  unfolding fill
  lookup-fill k [] m = refl
  lookup-fill k (x ∷ xs) m =
      lookup-fill k xs (insert (key x) (value x) m)
      ∙ rw (lookup-insert k (key x) (value x) m) (ground arith)

  pub lookup-fill_nil : (k : K) (xs : List A) → lookup k (fill [] xs) ≡ last_with k xs
  lookup-fill_nil k xs = lookup-fill k xs [] ∙ rw (lookup-nil k) (or_else-none (last_with k xs))

  pub fill-NodupKeys : (xs : List A) (m : Dict K V) → NodupKeys m → NodupKeys (fill m xs)
  unfolding fill
  fill-NodupKeys [] m u = u
  fill-NodupKeys (x ∷ xs) m u =
      fill-NodupKeys xs (insert (key x) (value x) m) (insert-NodupKeys (key x) (value x) m u)

module _ {ℓ κ} {A : Type ℓ} {K : Type κ} ⦃e : Eq K⦄ (key : A → K) where
  -- `for _, x := range xs { m[key(x)] = x }`
  abbrev pub last_of : K → List A → Option A
  last_of = last_with key (λ x. x)

  last_of-cons_absent :
      (k : K) (y : A) (xs : List A) {x : A}
      → last_of k xs ≡ none
      → last_of k (y ∷ xs) ≡ some x
      → (x ≡ y) × (key y ≡ k)
  last_of-cons_absent k y xs absent h = ground (arith, e.agree_iff (key y) k)

  last_of-cons_found :
      (k : K) (y : A) (xs : List A) {x z : A}
      → last_of k xs ≡ some z
      → last_of k (y ∷ xs) ≡ some x
      → z ≡ x
  last_of-cons_found k y xs found h = ground arith

  -- What is found is an element with the key.
  pub last_of-key : (k : K) (xs : List A) {x : A} → last_of k xs ≡ some x → Mem x xs × (key x ≡ k)
  last_of-key k [] h = cc
  last_of-key k (y ∷ xs) {x} h = elim (Option-cases (last_of k xs)) [
    | inl absent ↦
        let (same, at) = last_of-cons_absent k y xs absent h in
        (mem-cast same mem-cons_self, ap key same ∙ at)
    | inr (z, found) ↦
        let same = last_of-cons_found k y xs found h in
        let (m, at) = last_of-key k xs (found ∙ ap some same) in (mem-cons_of_mem y m, at)
  ]

  last_of-none-head :
      (k : K) (y : A) (xs : List A)
      → last_of k (y ∷ xs) ≡ none
      → (key y ≢ k) × (last_of k xs ≡ none)
  last_of-none-head k y xs h = ground (arith, e.agree_iff (key y) k)

  -- Nothing is found only if no element has the key.
  pub last_of-none : (k : K) (xs : List A) → last_of k xs ≡ none → {x : A} → Mem x xs → key x ≢ k
  last_of-none k [] h m at = absurd (not-mem-nil m)
  last_of-none k (y ∷ xs) h m at =
      let (other, rest) = last_of-none-head k y xs h in
      Or.elim ⊥_prop (mem-cons.0 m) (λ same. other (ap key (sym same) ∙ at))
        (λ later. last_of-none k xs rest later at)

  pub last_of_mem : (xs : List A) {x : A} → Mem x xs → (y : A) × (last_of (key x) xs ≡ some y)
  last_of_mem xs {x} m = elim (Option-cases (last_of (key x) xs)) [
    | inl absent ↦ absurd (last_of-none (key x) xs absent m refl)
    | inr found ↦ found
  ]

  -- Elements with one key are one element.
  abbrev pub KeysApart : List A → Type (ℓ ⊔ κ)
  KeysApart xs = (x y : A) → Mem x xs → Mem y xs → key x ≡ key y → x ≡ y

  -- With one element to a key, it is found by its key.
  pub last_of_self : (xs : List A) → KeysApart xs → {x : A} → Mem x xs → last_of (key x) xs ≡ some x
  last_of_self xs apart {x} m =
      let (y, found) = last_of_mem xs m in
      let (at, same) = last_of-key (key x) xs found in found ∙ ap some (apart y x at m same)

  -- Then it does not matter in which order the map was filled.
  pub last_of-perm :
      (k : K) (xs ys : List A) → KeysApart xs → Perm xs ys → last_of k xs ≡ last_of k ys
  last_of-perm k xs ys apart p = elim (Option-cases (last_of k ys)) [
    | inl absent ↦ elim (Option-cases (last_of k xs)) [
      | inl neither ↦ neither ∙ sym absent
      | inr (x, found) ↦
          let (m, at) = last_of-key k xs found in
          absurd (last_of-none k ys absent (Perm.subset p x m) at)
    ]
    | inr (y, found) ↦
        let (m, at) = last_of-key k ys found in
        subst (λ j. last_of j xs ≡ some y) at
          (last_of_self xs apart (Perm.subset (Perm.symm p) y m))
        ∙ sym found
  ]

  -- Every value stands under its own key.
  abbrev pub IsKeyed : Dict K A → Type κ
  IsKeyed [] = Unit
  IsKeyed ((k, v) ∷ d) = (key v ≡ k) × IsKeyed d

  pub insert-IsKeyed : (x : A) (d : Dict K A) → IsKeyed d → IsKeyed (insert (key x) x d)
  unfolding insert
  insert-IsKeyed x [] h = (refl, tt)
  insert-IsKeyed x ((j, v) ∷ d) h = ground (arith, e.agree_iff j (key x), insert-IsKeyed x d h.1)

  pub fill-IsKeyed : (xs : List A) (d : Dict K A) → IsKeyed d → IsKeyed (fill key (λ x. x) d xs)
  unfolding fill
  fill-IsKeyed [] d h = h
  fill-IsKeyed (x ∷ xs) d h = fill-IsKeyed xs (insert (key x) x d) (insert-IsKeyed x d h)

  pub lookup-IsKeyed : (k : K) (d : Dict K A) {v : A} → IsKeyed d → lookup k d ≡ some v → key v ≡ k
  unfolding lookup
  lookup-IsKeyed k [] u h = cc
  lookup-IsKeyed k ((j, w) ∷ d) {v} u h = elim (Bool-cases (j == k)) [
    | inl at ↦ ap key (some-injective v w (sym h ∙ rw at)) ∙ u.0 ∙ (e.agree_iff j k).0 at
    | inr at ↦ lookup-IsKeyed k d u.1 (sym (rw at) ∙ h)
  ]

  lookup-cons_of_none :
      (k j : K) (v w : A) (d : Dict K A)
      → lookup j d ≡ none
      → lookup k d ≡ some w
      → lookup k ((j, v) ∷ d) ≡ some w
  unfolding lookup
  lookup-cons_of_none k j v w d fresh h = ground (arith, e.agree_iff j k)

  lookup-cons_self : (j k : K) (v : A) (d : Dict K A) → k ≡ j → lookup k ((j, v) ∷ d) ≡ some v
  unfolding lookup
  lookup-cons_self j k v d h = ground (arith, e.agree_iff j k)

  pub mem-values : (k : K) (d : Dict K A) {v : A} → lookup k d ≡ some v → Mem v (values d)
  unfolding lookup
  mem-values k [] h = cc
  mem-values k ((j, w) ∷ d) {v} h = elim (Bool-cases (j == k)) [
    | inl e ↦ mem-cast (some-injective v w (sym h ∙ rw e)) mem-cons_self
    | inr e ↦ mem-cons_of_mem w (mem-values k d (sym (rw e) ∙ h))
  ]

  pub lookup-values :
      (k : K) (d : Dict K A) {v : A}
      → IsKeyed d
      → NodupKeys d
      → key v ≡ k
      → Mem v (values d)
      → ∥ lookup k d ≡ some v ∥₁
  lookup-values k [] h u at m = absurd (not-mem-nil m)
  lookup-values k ((j, w) ∷ d) {v} h u at m =
      Or.elim ∥∥₁_prop (mem-cons.0 m)
        (λ same. ∣ lookup-cons_self j k w d (sym at ∙ ap key same ∙ h.0) ∙ ap some (sym same) ∣₁)
        (λ later.
          ∥∥₁_map (lookup-values k d h.1 u.1 at later)
            (λ found. lookup-cons_of_none k j w v d u.0 found))

  -- What a well-keyed map holds under a key is what a walk of its values finds with the key.
  pub last_of-values :
      (k : K) (d : Dict K A) → IsKeyed d → NodupKeys d → last_of k (values d) ≡ lookup k d
  unfolding lookup
  last_of-values k [] h u = refl
  last_of-values k ((j, v) ∷ d) h u =
      ground (arith, last_of-values k d h.1 u.1, e.agree_iff (key v) k, e.agree_iff j k)

  pub values-KeysApart : IsSet A → (d : Dict K A) → IsKeyed d → NodupKeys d → KeysApart (values d)
  values-KeysApart s d h u x y m n same =
      ∥∥₁_elim (lookup-values (key y) d h u same m) (s x y) (λ p.
        ∥∥₁_elim (lookup-values (key y) d h u refl n) (s x y) (λ q. some-injective x y (sym p ∙ q)))

abbrev pub map_some {ℓ κ} : {A : Type ℓ} {B : Type κ} → (A → B) → Option A → Option B
map_some f none = none
map_some f (some a) = some (f a)

-- The last value with a key is the value of the last element with it.
pub last_with-last_of {ℓ κ μ} :
    {A : Type ℓ} {K : Type κ} {V : Type μ} ⦃e : Eq K⦄ (key : A → K) (f : A → V) (k : K)
    (xs : List A)
    → last_with key f k xs ≡ map_some f (last_of key k xs)
last_with-last_of key f k [] = refl
last_with-last_of key f k (x ∷ xs) = ground (arith, last_with-last_of key f k xs)
