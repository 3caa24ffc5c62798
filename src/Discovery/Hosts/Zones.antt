-- ===== src/Discovery/Hosts/Zones.antt =====
-- Which hosts `isExcluded` excludes.
use mathlib.Core.List.{Mem, mem-cons, mem-cons_self, mem-cons_of_mem, not-mem-nil}
use mathlib.Core.Logic.{∥∥₁_elim}
use mathlib.Core.Logic.Or
use mathlib.Core.Bool.{false≢true}
use auto_cert.Base.Sort.Laws.{Bool-eq_prop}
use auto_cert.Base.{
  ◌≡◌, ◌≢◌, refl, sym, ap, ◌∙◌, ◌↔◌, ◌⊎◌, inl, inr, subst, Bool, true, List, [], ◌∷◌, ◌++◌, list_eq,
  nat_eq, ◌==◌, any, same_refl, eq_of_same, same_cases, Bool-cases,
}
use auto_cert.Base.Text.{Text, has_suffix}
use auto_cert.Discovery.Hosts.{normalize_host, matches_zone, is_excluded}

-- The host is the zone, or ends with a dot and the zone.
abbrev pub IsWithin : Text → Text → Type 0
IsWithin h e = (h ≡ e) ⊎ ((front : Text) × (h ≡ front ++ b'.' ∷ e))

suffix-split : (s t : Text) → has_suffix s t ≡ true → (front : Text) × (s ≡ front ++ t)
unfolding has_suffix
suffix-split [] t h = ([], sym (eq_of_same t [] h))
suffix-split (c ∷ s) t h = elim (same_cases t (c ∷ s)) [
  | inl (_, same) ↦ ([], sym same)
  | inr (other, _) ↦
      let (front, e) = suffix-split s t (sym (rw other refl) ∙ h) in (c ∷ front, ap (λ r. c ∷ r) e)
]

has_suffix_self : (t : Text) → has_suffix t t ≡ true
unfolding has_suffix
has_suffix_self [] = refl
has_suffix_self (c ∷ t) = rw (same_refl (c ∷ t)) refl

split-suffix : (front t : Text) → has_suffix (front ++ t) t ≡ true
unfolding has_suffix
split-suffix [] t = has_suffix_self t
split-suffix (c ∷ front) t = elim (Bool-cases (t == c ∷ (front ++ t))) [
  | inl same ↦ rw same refl
  | inr other ↦ rw other (split-suffix front t)
]

within-suffix : (h e : Text) → h ≢ e → IsWithin h e → has_suffix h (b'.' ∷ e) ≡ true
within-suffix h e apart (inl here) = absurd (apart here)
within-suffix h e apart (inr (front, same)) =
    subst (λ s. has_suffix s (b'.' ∷ e) ≡ true) (sym same) (split-suffix front (b'.' ∷ e))

matches_zone-IsWithin : (h e : Text) → (matches_zone h e ≡ true) ↔ ((e ≢ []) × IsWithin h e)
matches_zone-IsWithin h e = elim (same_cases e []) [
  | inl (at, empty) ↦
      (λ m. absurd (false≢true (sym (rw at refl) ∙ m)), λ (full, _). absurd (full empty))
  | inr (at, full) ↦ elim (same_cases h e) [
    | inl (same, here) ↦ (λ _. (full, inl here), λ _. rw at (rw same refl))
    | inr (other, apart) ↦ (
      λ m. (full, inr (suffix-split h (b'.' ∷ e) (sym (rw at (rw other refl)) ∙ m))),
      λ (_, w). rw at (rw other (within-suffix h e apart w)),
    )
  ]
]

module _ {A : Type 0} (p : A → Bool) where
  any-mem : (xs : List A) {x : A} → Mem x xs → p x ≡ true → any p xs ≡ true
  any-mem [] m h = absurd (not-mem-nil m)
  any-mem (y ∷ xs) m h = elim (Bool-cases (p y)) [
    | inl at ↦ rw at refl
    | inr at ↦ rw at (
        Or.elim Bool-eq_prop (mem-cons.0 m) (λ e. absurd (false≢true (sym at ∙ ap p (sym e) ∙ h)))
          (λ later. any-mem xs later h))
  ]

  mem-any : (xs : List A) → any p xs ≡ true → (x : A) × Mem x xs × (p x ≡ true)
  mem-any [] h = cc
  mem-any (y ∷ xs) h = elim (Bool-cases (p y)) [
    | inl at ↦ (y, mem-cons_self, at)
    | inr at ↦ let (x, m, q) = mem-any xs (sym (rw at refl) ∙ h) in (x, mem-cons_of_mem y m, q)
  ]

is_excluded-any :
    (zones : List Text) (host : Text)
    → is_excluded zones host
      ≡ any (λ ex. matches_zone (normalize_host host) (normalize_host ex)) zones
unfolding is_excluded
is_excluded-any [] host = refl
is_excluded-any (z ∷ zones) host = refl

-- A host is excluded exactly if, both normalized, it is one of the zones or ends with a dot and
-- one of them, for zones that are not empty.
pub is_excluded-IsWithin :
    (zones : List Text) (host : Text)
    → (is_excluded zones host ≡ true)
      ↔ ∥ (
          (ex : Text) × Mem ex zones
          × (normalize_host ex ≢ [])
          × IsWithin (normalize_host host) (normalize_host ex)) ∥₁
is_excluded-IsWithin zones host =
    let test = λ (ex : Text). matches_zone (normalize_host host) (normalize_host ex) in
    (
      λ h.
          let (ex, m, q) = mem-any test zones (sym (is_excluded-any zones host) ∙ h) in
          let (full, w) = (matches_zone-IsWithin (normalize_host host) (normalize_host ex)).0 q in
          ∣ (ex, m, full, w) ∣₁,
      λ t. ∥∥₁_elim t Bool-eq_prop (λ (ex, m, full, w).
          is_excluded-any zones host
          ∙ any-mem test zones m
              ((matches_zone-IsWithin (normalize_host host) (normalize_host ex)).1 (full, w))),
    )
