-- ===== src/Base/Sort/Laws.antt =====
-- What a sort guarantees.
use mathlib.Core.Path.{◌≡◌, sym, ap₂, subst}
use mathlib.Core.HLevel.{hedberg}
use mathlib.Core.Logic.Or
use mathlib.Core.Logic.{inl, inr}
use mathlib.Core.Bool.{Bool, false, Bool-discrete}
use mathlib.Core.List.{
  List, [], ◌∷◌, Perm, Pairwise, Mem, mem-cons, mem-cons_self, not-mem-nil, mem-cons_of_mem,
  Pairwise-cons,
}
use mathlib.Core.List.Perm
use auto_cert.Base.Tests.{Bool-cases}
use auto_cert.Base.Sort.{sort_insert, sort_slice}
use auto_cert.Base.Sort.Order.{IsWeakOrder, irrefl}

pub Bool-eq_prop : {a b : Bool} → IsProp (a ≡ b)
Bool-eq_prop {a} {b} = hedberg Bool-discrete a b

module _ {ℓ} {A : Type ℓ} (less : A → A → Bool) where
  -- No element stands before a smaller one.
  abbrev pub IsSorted : List A → Type ℓ
  IsSorted = Pairwise (λ a b. less b a ≡ false)

  abbrev IsBelow : A → List A → Type ℓ
  IsBelow x l = (a : A) → Mem a l → less a x ≡ false

  IsBelow-cons : (x y : A) (l : List A) → less y x ≡ false → IsBelow x l → IsBelow x (y ∷ l)
  IsBelow-cons x y l h k a m = Or.elim Bool-eq_prop (mem-cons.0 m) (λ e. rw e h) (k a)

  pub sort_insert-perm : (x : A) (l : List A) → Perm (sort_insert less x l) (x ∷ l)
  sort_insert-perm x [] = Perm.rfl
  sort_insert-perm x (y ∷ ys) = elim (Bool-cases (less y x)) [
    | inl h ↦
        rw (h, sort_insert) (Perm.trans (Perm.cons y (sort_insert-perm x ys)) (Perm.swap x y ys))
    | inr h ↦ rw (h, sort_insert) Perm.rfl
  ]

  -- `sort.Slice` loses and invents nothing.
  pub sort_slice-perm : (l : List A) → Perm (sort_slice less l) l
  unfolding sort_slice
  sort_slice-perm [] = Perm.rfl
  sort_slice-perm (x ∷ xs) =
      Perm.trans (sort_insert-perm x (sort_slice less xs)) (Perm.cons x (sort_slice-perm xs))

  module _ (w : IsWeakOrder less) where
    sort_insert-IsSorted : (x : A) {l : List A} → IsSorted l → IsSorted (sort_insert less x l)
    sort_insert-IsSorted x Pairwise.nil = Pairwise.cons (λ a m. absurd (not-mem-nil m)) Pairwise.nil
    sort_insert-IsSorted x (Pairwise.cons {a = y} {l = ys} below s) = elim (Bool-cases (less y x)) [
      | inl h ↦
          rw (h, sort_insert)
            (Pairwise.cons
              (λ a m.
                IsBelow-cons y x ys (w.asymm y x h) below a
                  (Perm.subset (sort_insert-perm x ys) a m))
              (sort_insert-IsSorted x s))
      | inr h ↦
          rw (h, sort_insert)
            (Pairwise.cons (IsBelow-cons x y ys h (λ a m. w.cotrans a y x (below a m) h))
              (Pairwise.cons below s))
    ]

    -- `sort.Slice` puts no element before a smaller one.
    pub sort_slice-IsSorted : (l : List A) → IsSorted (sort_slice less l)
    unfolding sort_slice
    sort_slice-IsSorted [] = Pairwise.nil
    sort_slice-IsSorted (x ∷ xs) = sort_insert-IsSorted x (sort_slice-IsSorted xs)

    first_least : (x : A) (l : List A) → IsSorted (x ∷ l) → IsBelow x (x ∷ l)
    first_least x l s = IsBelow-cons x x l (irrefl w x) (Pairwise-cons.0 s).0

    -- Where elements of the list that are not apart are equal, a list has one sorted order.
    pub IsSorted-eq_of_perm :
        (xs ys : List A)
        → ((a b : A) → Mem a xs → Mem b xs → less a b ≡ false → less b a ≡ false → a ≡ b)
        → Perm xs ys
        → IsSorted xs
        → IsSorted ys
        → xs ≡ ys
    IsSorted-eq_of_perm [] ys apart p s t = sym (Perm.eq-nil (Perm.symm p))
    IsSorted-eq_of_perm (x ∷ xs) [] apart p s t = Perm.eq-nil p
    IsSorted-eq_of_perm (x ∷ xs) (y ∷ ys) apart p s t =
        let back = Perm.subset (Perm.symm p) in
        let e : x ≡ y =
          apart x y mem-cons_self (back y mem-cons_self)
            (first_least y ys t x (Perm.subset p x mem-cons_self))
            (first_least x xs s y (back y mem-cons_self)) in
        ap₂ ◌∷◌ e (
          IsSorted-eq_of_perm xs ys
            (λ a b m n. apart a b (mem-cons_of_mem x m) (mem-cons_of_mem x n))
            (Perm.cons_inv (subst (λ z. Perm (x ∷ xs) (z ∷ ys)) (sym e) p)) (Pairwise-cons.0 s).1
            (Pairwise-cons.0 t).1)

    -- So the sorted list does not depend on the order in which the elements came.
    pub sort_slice-eq_of_perm :
        (xs ys : List A)
        → ((a b : A) → Mem a xs → Mem b xs → less a b ≡ false → less b a ≡ false → a ≡ b)
        → Perm xs ys
        → sort_slice less xs ≡ sort_slice less ys
    sort_slice-eq_of_perm xs ys apart p =
        IsSorted-eq_of_perm (sort_slice less xs) (sort_slice less ys)
          (λ a b m n.
            apart a b (Perm.subset (sort_slice-perm xs) a m) (Perm.subset (sort_slice-perm xs) b n))
          (Perm.trans (sort_slice-perm xs) (Perm.trans p (Perm.symm (sort_slice-perm ys))))
          (sort_slice-IsSorted xs) (sort_slice-IsSorted ys)
