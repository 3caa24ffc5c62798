-- ===== src/Discovery/Select.antt =====
-- What `dedup` keeps of the entries with one name and port: the first of them, with the first
-- expiry date that any of them brings.
use auto_cert.Base.{
  ◌≡◌, ◌⊎◌, refl, sym, ap, ◌∙◌, Option, none, some, List, [], ◌∷◌, list_eq, nat_eq, pair_eq,
  if◌then◌else◌, ◌==◌, arith, same_cases, same_refl, inl, inr, subst, false, Option-cases,
}
use auto_cert.Base.Int.{int_eq}
use auto_cert.Base.Dict.{lookup, insert, lookup-insert}
use auto_cert.Base.Dict.Fill.{or_else, or_else-none, or_else_assoc}
use auto_cert.Model.{Domain}
use auto_cert.Time.{Time}
use auto_cert.Discovery.{Key, Seen, add, add_all, dedup_key}

-- The first entry with a key.
abbrev pub first_with : Key → List Domain → Option Domain
first_with k [] = none
first_with k (d ∷ ds) = if dedup_key d == k then some d else first_with k ds

-- The first expiry date of the entries with a key.
abbrev pub first_fallback : Key → List Domain → Option Time
first_fallback k [] = none
first_fallback k (d ∷ ds) =
    let rest = first_fallback k ds in
    if dedup_key d == k then or_else d.expiry_fallback rest else rest

abbrev pub attach : Option Domain → Option Time → Option Domain
attach none t = none
attach (some d) t = some (record d { expiry_fallback = t })

-- What is kept of the entries with a key.
abbrev pub select : Key → List Domain → Option Domain
select k ds = attach (first_with k ds) (first_fallback k ds)

abbrev fallback_of : Option Domain → Option Time
fallback_of none = none
fallback_of (some d) = d.expiry_fallback

-- The entry that stands in the map after a round.
abbrev merged : Option Domain → Domain → Domain
merged none d = d
merged (some e) d = record e { expiry_fallback = or_else e.expiry_fallback d.expiry_fallback }

attach_own : (o : Option Domain) → o ≡ attach (or_else o none) (or_else (fallback_of o) none)
attach_own none = refl
attach_own (some d) =
    ap (λ t. some (record d { expiry_fallback = t })) (sym (or_else-none d.expiry_fallback))

attach-merged :
    (o p : Option Domain) (d : Domain) (t : Option Time)
    → attach (or_else (some (merged o d)) p) (or_else (merged o d).expiry_fallback t)
      ≡ attach (or_else o (some d)) (or_else (fallback_of o) (or_else d.expiry_fallback t))
attach-merged none p d t = refl
attach-merged (some e) p d t =
    ap (λ u. some (record e { expiry_fallback = u }))
      (or_else_assoc e.expiry_fallback d.expiry_fallback t)

pub add-new :
    (seen : Seen) (d : Domain)
    → lookup (dedup_key d) seen ≡ none
    → add seen d ≡ insert (dedup_key d) d seen
unfolding add
add-new seen d h = rw (h, add)

merged-none : (e d : Domain) → d.expiry_fallback ≡ none → merged (some e) d ≡ e
merged-none e d h =
    ap (λ u. record e { expiry_fallback = u })
      (ap (or_else e.expiry_fallback) h ∙ or_else-none e.expiry_fallback)

merged-some : (e d : Domain) {t : Time} → e.expiry_fallback ≡ some t → merged (some e) d ≡ e
merged-some e d {t} h =
    ap (λ u. record e { expiry_fallback = u }) (ap (λ u. or_else u d.expiry_fallback) h ∙ sym h)

merged-filled :
    (e d : Domain)
    → e.expiry_fallback ≡ none
    → merged (some e) d ≡ record e { expiry_fallback = d.expiry_fallback }
merged-filled e d h =
    ap (λ u. record e { expiry_fallback = u }) (ap (λ u. or_else u d.expiry_fallback) h)

lookup-kept :
    (j k : Key) (seen : Seen) {e : Domain}
    → lookup k seen ≡ some e
    → lookup j seen ≡ (if k == j then some e else lookup j seen)
lookup-kept j k seen {e} h = elim (same_cases k j) [
  | inl (at, same) ↦ subst (λ i. lookup i seen ≡ some e) same h ∙ rw at
  | inr (at, other) ↦ rw at
]

module _ (seen : Seen) (d e : Domain) (h : lookup (dedup_key d) seen ≡ some e) where
  add-filled :
      {t : Time}
      → e.expiry_fallback ≡ none
      → d.expiry_fallback ≡ some t
      → add seen d ≡ insert (dedup_key d) (record e { expiry_fallback = d.expiry_fallback }) seen
  unfolding add
  add-filled g i = ground arith

  add-full : {t : Time} → e.expiry_fallback ≡ some t → add seen d ≡ seen
  unfolding add
  add-full g = ground arith

  add-bare : d.expiry_fallback ≡ none → add seen d ≡ seen
  unfolding add
  add-bare g = ground arith

  -- A known key keeps its entry, or the entry takes the new one's date.
  pub add-known-cases :
      (add seen d ≡ seen)
      ⊎ (add seen d ≡ insert (dedup_key d) (record e { expiry_fallback = d.expiry_fallback }) seen)
  add-known-cases = elim (Option-cases d.expiry_fallback) [
    | inl i ↦ inl (add-bare i)
    | inr (u, i) ↦ elim (Option-cases e.expiry_fallback) [
      | inl g ↦ inr (add-filled g i)
      | inr (t, g) ↦ inl (add-full g)
    ]
  ]

  -- A key that another entry came with before is bound to what the two merge to.
  lookup-add-known :
      (j : Key)
      → lookup j (add seen d)
        ≡ (if dedup_key d == j then some (merged (some e) d) else lookup j seen)
  lookup-add-known j = elim (Option-cases d.expiry_fallback) [
    | inl i ↦
        ap (lookup j) (add-bare i)
        ∙ lookup-kept j (dedup_key d) seen (h ∙ ap some (sym (merged-none e d i)))
    | inr (u, i) ↦ elim (Option-cases e.expiry_fallback) [
      | inl g ↦
          ap (lookup j) (add-filled g i)
          ∙ lookup-insert j (dedup_key d) (record e { expiry_fallback = d.expiry_fallback }) seen
          ∙ ap (λ x. if dedup_key d == j then some x else lookup j seen) (sym (merged-filled e d g))
      | inr (t, g) ↦
          ap (lookup j) (add-full g)
          ∙ lookup-kept j (dedup_key d) seen (h ∙ ap some (sym (merged-some e d g)))
    ]
  ]

lookup-add :
    (j : Key) (seen : Seen) (d : Domain)
    → lookup j (add seen d)
      ≡ (if dedup_key d == j then some (merged (lookup (dedup_key d) seen) d) else lookup j seen)
lookup-add j seen d = elim (Option-cases (lookup (dedup_key d) seen)) [
  | inl h ↦ ap (lookup j) (add-new seen d h) ∙ lookup-insert j (dedup_key d) d seen ∙ rw (h, merged)
  | inr (e, h) ↦ lookup-add-known seen d e h j ∙ rw h
]

lookup-add_self :
    (k : Key) (seen : Seen) (d : Domain)
    → dedup_key d ≡ k
    → lookup k (add seen d) ≡ some (merged (lookup k seen) d)
lookup-add_self k seen d same =
    subst (λ i. lookup i (add seen d) ≡ some (merged (lookup i seen) d)) same
      (lookup-add (dedup_key d) seen d ∙ rw (same_refl (dedup_key d)))

lookup-add_other :
    (k : Key) (seen : Seen) (d : Domain)
    → (dedup_key d == k) ≡ false
    → lookup k (add seen d) ≡ lookup k seen
lookup-add_other k seen d h = lookup-add k seen d ∙ rw h

abbrev kept_of : Option Domain → Key → List Domain → Option Domain
kept_of o k ds =
    attach (or_else o (first_with k ds)) (or_else (fallback_of o) (first_fallback k ds))

pub lookup-add_all :
    (k : Key) (ds : List Domain) (seen : Seen)
    → lookup k (add_all seen ds) ≡ kept_of (lookup k seen) k ds
lookup-add_all k [] seen = attach_own (lookup k seen)
lookup-add_all k (d ∷ ds) seen = elim (same_cases (dedup_key d) k) [
  | inl (h, same) ↦
      lookup-add_all k ds (add seen d)
      ∙ ap (λ o. kept_of o k ds) (lookup-add_self k seen d same)
      ∙ attach-merged (lookup k seen) (first_with k ds) d (first_fallback k ds)
      ∙ rw h refl
  | inr (h, other) ↦
      lookup-add_all k ds (add seen d)
      ∙ ap (λ o. kept_of o k ds) (lookup-add_other k seen d h)
      ∙ rw h refl
]
