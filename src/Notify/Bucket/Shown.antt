-- ===== src/Notify/Bucket/Shown.antt =====
-- Every alert is shown: in its bucket, or by the alert of its domain and kind with the least threshold.
use native.Mathlib.Bridge.{le_prop}
use mathlib.Core.List.{
  Mem-prop, Mem, mem-cons, mem-cons_self, mem-cons_of_mem, mem-cast, not-mem-nil, Perm,
  append_assoc, append-nil,
}
use mathlib.Core.List.Perm
use mathlib.Core.Logic.{∥∥₁_elim, ∥∥₁_map}
use mathlib.Core.Logic.Or
use mathlib.Core.HLevel.{⊥_prop, ×_prop}
use mathlib.Core.Option.{some-injective}
use native.Mathlib.Decide.{ℕ_discrete}
use auto_cert.Base.{
  ◌↔◌, eq_of_same, ◌≡◌, ◌≢◌, refl, sym, ap, ◌∙◌, subst, Bool, true, false, Option, none, some, List,
  [], ◌∷◌, ◌++◌, ◌||◌, ◌&&◌, not, list_eq, nat_eq, pair_eq, if◌then◌else◌, ◌==◌, arith, inl, inr,
  ◌⊎◌, Bool-cases, Option-cases, keep, same_cases,
}
use auto_cert.Base.Int.{int_eq, ◌≤ℤ◌}
use auto_cert.Base.Dict.{
  lookup-nil, Dict, lookup, values, NodupKeys, insert-NodupKeys, lookup-insert,
}
use auto_cert.Base.Dict.Fill.{
  values-KeysApart, IsKeyed, insert-IsKeyed, lookup-IsKeyed, lookup-values, mem-values,
}
use auto_cert.Base.Sort.Laws.{sort_slice-perm, Bool-eq_prop}
use auto_cert.Model.{domain_mismatch, Alert}
use auto_cert.Time.{Time}
use auto_cert.Notify.Bucket.{
  KindKey, kind_key, Sorted, is_expired, is_mismatch, is_nearer, put_nearest, sort_alert,
  sort_alerts, less_days, less_domain_name, nothing_sorted, bucket_and_dedup,
}

abbrev pub is_expiring : Alert → Bool
is_expiring a = not (is_expired a || is_mismatch a)

-- What the map holds for a key after a round, by what it held.
better : KindKey → Option Alert → Alert → Option Alert
better k o a = if is_expiring a && kind_key a == k then (if is_nearer a o then some a else o) else o

nearest : KindKey → Option Alert → List Alert → Option Alert
nearest k o [] = o
nearest k o (a ∷ rest) = nearest k (better k o a) rest

lookup-put_nearest :
    (k : KindKey) (a : Alert) (m : Dict KindKey Alert)
    → lookup k (put_nearest a m) ≡ (
        if kind_key a == k
        then (if is_nearer a (lookup k m) then some a else lookup k m)
        else lookup k m)
unfolding put_nearest
lookup-put_nearest k a m = elim (same_cases (kind_key a) k) [
  | inr (other, _) ↦ ground (arith, other, lookup-insert k (kind_key a) a m)
  | inl (at, same) ↦ ground (arith, at, lookup-insert k (kind_key a) a m, ap (λ j. lookup j m) same)
]

by_key-sort_alert :
    (k : KindKey) (a : Alert) (s : Sorted)
    → lookup k (sort_alert a s).by_key ≡ better k (lookup k s.by_key) a
unfolding sort_alert better
by_key-sort_alert k a s = ground (arith, lookup-put_nearest k a s.by_key)

by_key-sort_alerts :
    (k : KindKey) (alerts : List Alert) (s : Sorted)
    → lookup k (sort_alerts alerts s).by_key ≡ nearest k (lookup k s.by_key) alerts
unfolding sort_alerts nearest
by_key-sort_alerts k [] s = refl
by_key-sort_alerts k (a ∷ alerts) s =
    by_key-sort_alerts k alerts (sort_alert a s)
    ∙ ap (λ o. nearest k o alerts) (by_key-sort_alert k a s)

expired-sort_alert :
    (a : Alert) (s : Sorted)
    → (sort_alert a s).expired ≡ s.expired ++ (if is_expired a then a ∷ [] else [])
unfolding sort_alert
expired-sort_alert a s = ground (arith, append-nil s.expired)

mismatch_not_expired : (a : Alert) → is_mismatch a ≡ true → is_expired a ≡ false
mismatch_not_expired a h = rw (eq_of_same a.kind domain_mismatch h) refl

mismatch-sort_alert :
    (a : Alert) (s : Sorted)
    → (sort_alert a s).mismatch ≡ s.mismatch ++ (if is_mismatch a then a ∷ [] else [])
unfolding sort_alert
mismatch-sort_alert a s = ground (arith, append-nil s.mismatch, mismatch_not_expired a)

keep-cons :
    (p : Alert → Bool) (a : Alert) (xs : List Alert)
    → keep p (a ∷ xs) ≡ (if p a then a ∷ [] else []) ++ keep p xs
keep-cons p a xs = elim (Bool-cases (p a)) [ inl h ↦ rw h | inr h ↦ rw h ]

expired-sort_alerts :
    (alerts : List Alert) (s : Sorted)
    → (sort_alerts alerts s).expired ≡ s.expired ++ keep is_expired alerts
unfolding sort_alerts
expired-sort_alerts [] s = sym (append-nil s.expired)
expired-sort_alerts (a ∷ alerts) s =
    expired-sort_alerts alerts (sort_alert a s)
    ∙ ap (λ l. l ++ keep is_expired alerts) (expired-sort_alert a s)
    ∙ append_assoc s.expired (if is_expired a then a ∷ [] else []) (keep is_expired alerts)
    ∙ ap (λ l. s.expired ++ l) (sym (keep-cons is_expired a alerts))

mismatch-sort_alerts :
    (alerts : List Alert) (s : Sorted)
    → (sort_alerts alerts s).mismatch ≡ s.mismatch ++ keep is_mismatch alerts
unfolding sort_alerts
mismatch-sort_alerts [] s = sym (append-nil s.mismatch)
mismatch-sort_alerts (a ∷ alerts) s =
    mismatch-sort_alerts alerts (sort_alert a s)
    ∙ ap (λ l. l ++ keep is_mismatch alerts) (mismatch-sort_alert a s)
    ∙ append_assoc s.mismatch (if is_mismatch a then a ∷ [] else []) (keep is_mismatch alerts)
    ∙ ap (λ l. s.mismatch ++ l) (sym (keep-cons is_mismatch a alerts))

-- The map holds every alert under its key, and once.
record IsKept (m : Dict KindKey Alert) : Type 0 where
  pub keyed : IsKeyed kind_key m
  pub nodup : NodupKeys m

put_nearest-IsKept : (a : Alert) (m : Dict KindKey Alert) → IsKept m → IsKept (put_nearest a m)
unfolding put_nearest
put_nearest-IsKept a m w = elim (Bool-cases (is_nearer a (lookup (kind_key a) m))) [
  | inr h ↦ rw h w
  | inl h ↦ rw h (record {
    keyed = insert-IsKeyed kind_key a m w.keyed;
    nodup = insert-NodupKeys (kind_key a) a m w.nodup;
  })
]

sort_alert-IsKept : (a : Alert) (s : Sorted) → IsKept s.by_key → IsKept (sort_alert a s).by_key
unfolding sort_alert
sort_alert-IsKept a s w = elim (Bool-cases (is_expired a)) [
  | inl h ↦ rw h w
  | inr h ↦ elim (Bool-cases (is_mismatch a)) [
    | inl k ↦ rw (h, k) w
    | inr k ↦ rw (h, k) (put_nearest-IsKept a s.by_key w)
  ]
]

sort_alerts-IsKept :
    (alerts : List Alert) (s : Sorted) → IsKept s.by_key → IsKept (sort_alerts alerts s).by_key
unfolding sort_alerts
sort_alerts-IsKept [] s w = w
sort_alerts-IsKept (a ∷ alerts) s w =
    sort_alerts-IsKept alerts (sort_alert a s) (sort_alert-IsKept a s w)

key_iff : (j k : KindKey) → ((j == k) ≡ true) ↔ (j ≡ k)
key_iff = pair_eq.agree_iff

-- What a round says of the alert that is kept.
better-some :
    (k : KindKey) (o : Option Alert) (a : Alert) {x : Alert}
    → better k o a ≡ some x
    → ((o ≡ some x) ⊎ ((a ≡ x) × (is_expiring a ≡ true) × (kind_key a ≡ k)))
      × ((c : Alert) → o ≡ some c → x.threshold ≤ℤ c.threshold)
      × (is_expiring a ≡ true → kind_key a ≡ k → x.threshold ≤ℤ a.threshold)
unfolding better
better-some k none a h = (
  ground (arith, key_iff (kind_key a) k),
  λ c e. cc,
  λ e same. ground (arith, key_iff (kind_key a) k),
)
better-some k (some o) a {x} h = (
  ground (arith, key_iff (kind_key a) k),
  λ c e. ground (arith, key_iff (kind_key a) k),
  λ e same. ground (arith, key_iff (kind_key a) k),
)

better-none :
    (k : KindKey) (o : Option Alert) (a : Alert)
    → better k o a ≡ none
    → (o ≡ none) × (is_expiring a ≡ true → kind_key a ≢ k)
unfolding better
better-none k none a h = (refl, λ e same. ground (arith, key_iff (kind_key a) k))
better-none k (some o) a h = ground arith

nearest-origin :
    (k : KindKey) (o : Option Alert) (alerts : List Alert) {x : Alert}
    → nearest k o alerts ≡ some x
    → (o ≡ some x) ⊎ (Mem x alerts × (is_expiring x ≡ true) × (kind_key x ≡ k))
unfolding nearest
nearest-origin k o [] h = inl h
nearest-origin k o (a ∷ alerts) h = elim (nearest-origin k (better k o a) alerts h) [
  | inr (m, e, at) ↦ inr (mem-cons_of_mem a m, e, at)
  | inl from ↦ elim (better-some k o a from).0 [
    | inl before ↦ inl before
    | inr (same, e, at) ↦ inr (
      mem-cast (sym same) mem-cons_self,
      ap is_expiring (sym same) ∙ e,
      ap kind_key (sym same) ∙ at,
    )
  ]
]

-- Nothing that was kept, and nothing that follows, has a smaller threshold.
nearest-le :
    (k : KindKey) (o : Option Alert) (alerts : List Alert) {x c : Alert}
    → nearest k o alerts ≡ some x
    → o ≡ some c
    → x.threshold ≤ℤ c.threshold
unfolding nearest
nearest-le k o [] {x} {c} h e =
    subst (λ (y : Alert). y.threshold ≤ℤ c.threshold) (some-injective c x (sym e ∙ h)) (omega arith)
nearest-le k o (a ∷ alerts) {x} {c} h e = elim (Option-cases (better k o a)) [
  | inl gone ↦ let absent = (better-none k o a gone).0 in cc
  | inr (b, kept) ↦ omega (
    arith,
    nearest-le k (better k o a) alerts {x = x} {c = b} h kept,
    (better-some k o a kept).1 c e,
  )
]

nearest-least :
    (k : KindKey) (o : Option Alert) (alerts : List Alert) {x c : Alert}
    → nearest k o alerts ≡ some x
    → Mem c alerts
    → is_expiring c ≡ true
    → kind_key c ≡ k
    → x.threshold ≤ℤ c.threshold
unfolding nearest
nearest-least k o [] h m e at = absurd (not-mem-nil m)
nearest-least k o (a ∷ alerts) {x} {c} h m e at =
    Or.elim le_prop (mem-cons.0 m)
      (λ same. elim (Option-cases (better k o a)) [
        | inl gone ↦ absurd (
            (better-none k o a gone).1 (ap is_expiring (sym same) ∙ e)
              (ap kind_key (sym same) ∙ at))
        | inr (b, kept) ↦
            subst (λ y. x.threshold ≤ℤ y.threshold) (sym same)
              (omega (
                arith,
                nearest-le k (better k o a) alerts {x = x} {c = b} h kept,
                (better-some k o a kept).2 (ap is_expiring (sym same) ∙ e)
                    (ap kind_key (sym same) ∙ at),
              ))
      ])
      (λ later. nearest-least k (better k o a) alerts h later e at)

nearest-none :
    (k : KindKey) (o : Option Alert) (alerts : List Alert) {c : Alert}
    → nearest k o alerts ≡ none
    → (o ≡ none) × (Mem c alerts → is_expiring c ≡ true → kind_key c ≢ k)
unfolding nearest
nearest-none k o [] h = (h, λ m e at. absurd (not-mem-nil m))
nearest-none k o (a ∷ alerts) {c} h =
    let (gone, rest) = nearest-none k (better k o a) alerts {c = c} h in
    let (absent, apart) = better-none k o a gone in
    (
      absent,
      λ m e at.
          Or.elim ⊥_prop (mem-cons.0 m)
            (λ same. apart (ap is_expiring (sym same) ∙ e) (ap kind_key (sym same) ∙ at))
            (λ later. rest later e at),
    )

Time-discrete : Discrete Time
Time-discrete = hlevel ℕ_discrete

Alert-set : IsSet Alert
Alert-set = hlevel

-- The bucket of the alerts that are not over: one for each domain and kind, with the least
-- threshold.
pub record IsNearest (alerts shown : List Alert) : Type 0 where
  pub from : (a : Alert) → Mem a shown → Mem a alerts × (is_expiring a ≡ true)
  pub least :
      (a c : Alert)
      → Mem a shown
      → Mem c alerts
      → is_expiring c ≡ true
      → kind_key c ≡ kind_key a
      → a.threshold ≤ℤ c.threshold
  pub present :
      (c : Alert)
      → Mem c alerts
      → is_expiring c ≡ true
      → (a : Alert) × Mem a shown × (kind_key a ≡ kind_key c)
  pub once : (a b : Alert) → Mem a shown → Mem b shown → kind_key a ≡ kind_key b → a ≡ b

module _ (alerts : List Alert) where
  abbrev kept : Dict KindKey Alert
  kept = (sort_alerts alerts nothing_sorted).by_key

  kept-IsKept : IsKept kept
  kept-IsKept = sort_alerts-IsKept alerts nothing_sorted (record { keyed = tt; nodup = tt })

  kept-nearest : (k : KindKey) → lookup k kept ≡ nearest k none alerts
  kept-nearest k =
      by_key-sort_alerts k alerts nothing_sorted ∙ ap (λ o. nearest k o alerts) (lookup-nil k)

  found : {a : Alert} → Mem a (values kept) → ∥ nearest (kind_key a) none alerts ≡ some a ∥₁
  found {a} m =
      ∥∥₁_map (lookup-values kind_key (kind_key a) kept kept-IsKept.keyed kept-IsKept.nodup refl m)
        (λ p. sym (kept-nearest (kind_key a)) ∙ p)

  none-ne : {a : Alert} → ◌≡◌ {A = Option Alert} none (some a) → ⊥
  none-ne h = cc

  origin :
      {a : Alert}
      → nearest (kind_key a) none alerts ≡ some a
      → Mem a alerts × (is_expiring a ≡ true)
  origin {a} p = elim (nearest-origin (kind_key a) none alerts p) [
    | inl h ↦ absurd (none-ne h)
    | inr (n, e, _) ↦ (n, e)
  ]

  present :
      (c : Alert)
      → Mem c alerts
      → is_expiring c ≡ true
      → (a : Alert) × Mem a (values kept) × (kind_key a ≡ kind_key c)
  present c m e = elim (Option-cases (lookup (kind_key c) kept)) [
    | inl h ↦ absurd (
        (nearest-none (kind_key c) none alerts {c = c} (sym (kept-nearest (kind_key c)) ∙ h)).1 m e
          refl)
    | inr (a, h) ↦ (
      a,
      mem-values kind_key (kind_key c) kept h,
      lookup-IsKeyed kind_key (kind_key c) kept kept-IsKept.keyed h,
    )
  ]

  kept-IsNearest : IsNearest alerts (values kept)
  kept-IsNearest = record {
    from = λ a m. ∥∥₁_elim (found m) (×_prop Mem-prop Bool-eq_prop) (λ p. origin p);
    least = λ a c m n e at.
        ∥∥₁_elim (found m) le_prop (λ p. nearest-least (kind_key a) none alerts p n e at);
    present = present;
    once = values-KeysApart kind_key Alert-set kept kept-IsKept.keyed kept-IsKept.nodup;
  }

  IsNearest-perm : (xs ys : List Alert) → Perm ys xs → IsNearest alerts xs → IsNearest alerts ys
  IsNearest-perm xs ys p n = record {
    from = λ a m. n.from a (Perm.subset p a m);
    least = λ a c m. n.least a c (Perm.subset p a m);
    present =
        λ c m e. let (a, shown, at) = n.present c m e in (a, Perm.subset (Perm.symm p) a shown, at);
    once = λ a b ma mb. n.once a b (Perm.subset p a ma) (Perm.subset p b mb);
  }

  -- The three buckets of the mail: the alerts on dates that are over and the alerts on dates that
  -- differ are all there, and of the others there is, for each domain and kind, exactly one, with the
  -- least threshold.
  pub bucket_and_dedup_shown :
      Perm (bucket_and_dedup alerts).expired (keep is_expired alerts)
      × Perm (bucket_and_dedup alerts).mismatch (keep is_mismatch alerts)
      × IsNearest alerts (bucket_and_dedup alerts).expiring
  unfolding bucket_and_dedup
  bucket_and_dedup_shown = (
    subst (Perm (bucket_and_dedup alerts).expired) (expired-sort_alerts alerts nothing_sorted)
        (sort_slice-perm less_days (sort_alerts alerts nothing_sorted).expired),
    subst (Perm (bucket_and_dedup alerts).mismatch) (mismatch-sort_alerts alerts nothing_sorted)
        (sort_slice-perm less_domain_name (sort_alerts alerts nothing_sorted).mismatch),
    IsNearest-perm (values kept) (bucket_and_dedup alerts).expiring
        (sort_slice-perm less_days (values kept)) kept-IsNearest,
  )
