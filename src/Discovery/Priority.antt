-- ===== src/Discovery/Priority.antt =====
-- Which discoverer's entry `dedup` keeps.
use auto_cert.Base.{
  ◌≡◌, refl, sym, ap, ◌∙◌, none, some, List, [], ◌∷◌, ◌++◌, list_eq, nat_eq, pair_eq, inl, inr,
  subst, Option-cases, same_cases, arith, ◌≤◌, false, ◌==◌, Bool-cases,
}
use mathlib.Core.List.{
  Mem, Pairwise, Pairwise-cons, map, mem-cons, mem-cons_self, mem-cons_of_mem, not-mem-nil,
  mem-cast, map-append,
}
use mathlib.Core.Option.{some-injective, none-ne-some}
use mathlib.Core.Logic.{◌≢◌}
use mathlib.Core.Logic.Or
use mathlib.Core.List.Perm
use mathlib.Core.HLevel.{⊥_prop}
use auto_cert.Base.Int.{ℤ, int_eq}
use auto_cert.Base.Text.{Text}
use auto_cert.Base.Dict.{Dict, keys}
use auto_cert.Base.Members.{collect}
use auto_cert.Base.Sort.{sort_slice}
use auto_cert.Base.Sort.Laws.{sort_slice-perm, sort_slice-IsSorted, Bool-eq_prop}
use auto_cert.Base.Sort.Order.{
  IsWeakOrder, lex-IsTotalOrder, lt_text-IsTotalOrder, ltb-IsTotalOrder, on-IsWeakOrder, irrefl,
}
use auto_cert.Model.{Domain}
use auto_cert.Discovery.{
  Key, dedup_key, with_port, found_by, rank, less_name, discoverer_priority, candidates, dedup,
}
use auto_cert.Discovery.Select.{first_with, first_fallback, attach, select}
use auto_cert.Discovery.Kept.{mem-dedup}

first_with-found :
    (k : Key) (ds : List Domain) {d : Domain}
    → first_with k ds ≡ some d
    → Mem d ds × (dedup_key d ≡ k)
first_with-found k [] h = cc
first_with-found k (x ∷ ds) {d} h = elim (same_cases (dedup_key x) k) [
  | inl (at, same) ↦
      let here : x ≡ d = some-injective x d (sym (rw at) ∙ h) in
      (mem-cast (sym here) mem-cons_self, ap dedup_key (sym here) ∙ same)
  | inr (at, other) ↦
      let (m, same) = first_with-found k ds (sym (rw at) ∙ h) in (mem-cons_of_mem x m, same)
]

first_with-none :
    (k : Key) (ds : List Domain)
    → first_with k ds ≡ none
    → {d : Domain} → Mem d ds
    → dedup_key d ≢ k
first_with-none k [] h m same = not-mem-nil m
first_with-none k (x ∷ ds) h {d} m same = elim (same_cases (dedup_key x) k) [
  | inl (at, _) ↦ none-ne-some x (sym h ∙ rw at)
  | inr (at, other) ↦
      Or.elim ⊥_prop (mem-cons.0 m) (λ e. other (ap dedup_key (sym e) ∙ same))
        (λ later. first_with-none k ds (sym (rw at) ∙ h) later same)
]

first_with-append_none :
    (k : Key) (xs ys : List Domain)
    → first_with k xs ≡ none
    → first_with k (xs ++ ys) ≡ first_with k ys
first_with-append_none k [] ys h = refl
first_with-append_none k (x ∷ xs) ys h = elim (Bool-cases (dedup_key x == k)) [
  | inl at ↦ absurd (none-ne-some x (sym h ∙ rw at))
  | inr at ↦ rw at (first_with-append_none k xs ys (sym (rw at) ∙ h))
]

first_with-append_some :
    (k : Key) (xs ys : List Domain) {d : Domain}
    → first_with k xs ≡ some d
    → first_with k (xs ++ ys) ≡ some d
first_with-append_some k [] ys h = cc
first_with-append_some k (x ∷ xs) ys h = elim (Bool-cases (dedup_key x == k)) [
  | inl at ↦ rw at (sym (rw at) ∙ h)
  | inr at ↦ rw at (first_with-append_some k xs ys (sym (rw at) ∙ h))
]

select-some :
    (k : Key) (ds : List Domain) {d : Domain}
    → select k ds ≡ some d
    → (x : Domain) × (first_with k ds ≡ some x)
      × (record x { expiry_fallback = d.expiry_fallback } ≡ d)
select-some k ds {d} h = elim (Option-cases (first_with k ds)) [
  | inl absent ↦ absurd (none-ne-some d (sym (ap (λ o. attach o (first_fallback k ds)) absent) ∙ h))
  | inr (x, found) ↦
      let same =
        some-injective (record x { expiry_fallback = first_fallback k ds }) d
          (sym (ap (λ o. attach o (first_fallback k ds)) found) ∙ h) in
      (x, found, ap (λ u. record x { expiry_fallback = u.expiry_fallback }) (sym same) ∙ same)
]

less_name-IsWeakOrder : IsWeakOrder less_name
less_name-IsWeakOrder =
    on-IsWeakOrder rank (lex-IsTotalOrder ltb-IsTotalOrder lt_text-IsTotalOrder).weak

not_below-rank :
    (a b : Text) → less_name a b ≡ false → discoverer_priority b ≤ discoverer_priority a
not_below-rank a b h = ground arith

module _ (per : Dict Text (List Domain)) (default_port : ℤ) where
  -- The entries of one discoverer.
  abbrev pub entries_of : Text → List Domain
  entries_of n = map (with_port default_port) (found_by per n)

  -- A discoverer whose entry is the first of those with the key, among some discoverers.
  pub record Winner (k : Key) (d : Domain) (ns : List Text) : Type 0 where
    pub name : Text
    pub listed : Mem name ns
    pub found : first_with k (entries_of name) ≡ some d
    pub least :
        (other : Text) (e : Domain)
        → Mem other ns
        → Mem e (entries_of other)
        → dedup_key e ≡ k
        → less_name other name ≡ false

  abbrev entries_of_all : List Text → List Domain
  entries_of_all ns = map (with_port default_port) (collect (found_by per) ns)

  entries_of_all-cons :
      (k : Key) (n : Text) (ns : List Text)
      → first_with k (entries_of_all (n ∷ ns)) ≡ first_with k (entries_of n ++ entries_of_all ns)
  entries_of_all-cons k n ns =
      ap (first_with k)
        (map-append (with_port default_port) (found_by per n) (collect (found_by per) ns))

  Winner-first :
      (k : Key) (n : Text) (ns : List Text) {d : Domain}
      → Pairwise (λ a b. less_name b a ≡ false) (n ∷ ns)
      → first_with k (entries_of n) ≡ some d
      → Winner k d (n ∷ ns)
  Winner-first k n ns s found = record {
    name = n;
    listed = mem-cons_self;
    found = found;
    least = λ other e m at same.
        Or.elim Bool-eq_prop (mem-cons.0 m) (λ here. rw here (irrefl less_name-IsWeakOrder n))
          (λ later. (Pairwise-cons.0 s).0 other later);
  }

  winner :
      (k : Key) (d : Domain) (ns : List Text)
      → Pairwise (λ a b. less_name b a ≡ false) ns
      → first_with k (entries_of_all ns) ≡ some d
      → Winner k d ns
  winner k d [] s h = cc
  winner k d (n ∷ ns) s h = elim (Option-cases (first_with k (entries_of n))) [
    | inl absent ↦
        let w = winner k d ns (Pairwise-cons.0 s).1 (
          sym (first_with-append_none k (entries_of n) (entries_of_all ns) absent)
          ∙ sym (entries_of_all-cons k n ns)
          ∙ h) in
        record {
          name = w.name;
          listed = mem-cons_of_mem n w.listed;
          found = w.found;
          least = λ other e m at same.
              Or.elim Bool-eq_prop (mem-cons.0 m)
                (λ here. absurd (
                  first_with-none k (entries_of n) absent
                    (subst (λ i. Mem e (entries_of i)) here at) same))
                (λ later. w.least other e later at same);
        }
    | inr (e, found) ↦ Winner-first k n ns s (
        found
        ∙ sym (first_with-append_some k (entries_of n) (entries_of_all ns) found)
        ∙ sym (entries_of_all-cons k n ns)
        ∙ h)
  ]

  -- The discoverer that an entry of the result is taken from.
  pub record Origin (d : Domain) : Type 0 where
    pub name : Text
    pub entry : Domain
    pub listed : Mem name (keys per)
    pub found : Mem entry (entries_of name)
    pub same_key : dedup_key entry ≡ dedup_key d
    pub same_name : entry.name ≡ d.name
    pub same_source : entry.source ≡ d.source
    pub first_choice :
        (other : Text) (e : Domain)
        → Mem other (keys per)
        → Mem e (entries_of other)
        → dedup_key e ≡ dedup_key d
        → discoverer_priority name ≤ discoverer_priority other

  -- Each entry of the result has the name and source that a discoverer gave it, and no discoverer
  -- of a higher priority has an entry with its name, the case of letters aside, and its port.
  pub dedup-Origin : (d : Domain) → Mem d (dedup per default_port) → Origin d
  unfolding candidates
  dedup-Origin d m =
      let (x, first, same) =
        select-some (dedup_key d) (candidates default_port per)
          ((mem-dedup per default_port d).0 m) in
      let p = sort_slice-perm less_name (keys per) in
      let w =
        winner (dedup_key d) x (sort_slice less_name (keys per))
          (sort_slice-IsSorted less_name less_name-IsWeakOrder (keys per)) first in
      let (at, key_of) = first_with-found (dedup_key d) (entries_of w.name) w.found in
      record {
        name = w.name;
        entry = x;
        listed = Perm.subset p w.name w.listed;
        found = at;
        same_key = key_of;
        same_name = ap (λ e. e.name) same;
        same_source = ap (λ e. e.source) same;
        first_choice = λ other e n found e_key.
            not_below-rank other w.name
              (w.least other e (Perm.subset (Perm.symm p) other n) found e_key);
      }
