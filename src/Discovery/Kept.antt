-- ===== src/Discovery/Kept.antt =====
-- The list that `dedup` returns, entry by entry.
use auto_cert.Base.{
  ◌≡◌, refl, sym, ap, ◌∙◌, Option, some, List, [], ◌∷◌, list_eq, nat_eq, pair_eq, inl, inr, ◌↔◌,
  subst, Option-cases,
}
use mathlib.Core.Option.{some-injective}
use mathlib.Core.List.{Mem, Perm}
use mathlib.Core.List.Perm
use mathlib.Core.Logic.{∥∥₁_elim}
use native.Mathlib.Decide.{ℕ_discrete}
use auto_cert.Base.Int.{ℤ, int_eq, lt_ℤ}
use auto_cert.Base.Text.{Text, to_lower}
use auto_cert.Base.Dict.{Dict, lookup, lookup-nil, insert, NodupKeys, insert-NodupKeys, values}
use auto_cert.Base.Dict.Fill.{
  IsKeyed, insert-IsKeyed, lookup-IsKeyed, lookup-values, mem-values, values-KeysApart,
}
use auto_cert.Base.Sort.{sort_slice}
use auto_cert.Base.Sort.Laws.{sort_slice-perm, sort_slice-IsSorted, sort_slice-eq_of_perm, IsSorted}
use auto_cert.Base.Sort.Order.{
  IsTotalOrder, lex, lt_text, lex-IsTotalOrder, lt_text-IsTotalOrder, lt_ℤ-IsTotalOrder,
  on-IsWeakOrder,
}
use auto_cert.Model.{Domain}
use auto_cert.Time.{Time}
use auto_cert.Discovery.{Key, Seen, add, add_all, dedup_key, candidates, dedup, less_domain, place}
use auto_cert.Discovery.Select.{select, lookup-add_all, add-new, add-known-cases}

record IsWellFormed (m : Seen) : Type 0 where
  pub keyed : IsKeyed dedup_key m
  pub nodup : NodupKeys m

insert-IsWellFormed :
    (d : Domain) (m : Seen) → IsWellFormed m → IsWellFormed (insert (dedup_key d) d m)
insert-IsWellFormed d m w = record {
  keyed = insert-IsKeyed dedup_key d m w.keyed;
  nodup = insert-NodupKeys (dedup_key d) d m w.nodup;
}

add-IsWellFormed : (m : Seen) (d : Domain) → IsWellFormed m → IsWellFormed (add m d)
add-IsWellFormed m d w = elim (Option-cases (lookup (dedup_key d) m)) [
  | inl h ↦ subst IsWellFormed (sym (add-new m d h)) (insert-IsWellFormed d m w)
  | inr (e, h) ↦ elim (add-known-cases m d e h) [
    | inl same ↦ subst IsWellFormed (sym same) w
    | inr filled ↦ subst IsWellFormed (sym filled) (
        subst (λ k. IsWellFormed (insert k (record e { expiry_fallback = d.expiry_fallback }) m))
          (lookup-IsKeyed dedup_key (dedup_key d) m w.keyed h)
          (insert-IsWellFormed (record e { expiry_fallback = d.expiry_fallback }) m w))
  ]
]

add_all-IsWellFormed : (ds : List Domain) (m : Seen) → IsWellFormed m → IsWellFormed (add_all m ds)
add_all-IsWellFormed [] m w = w
add_all-IsWellFormed (d ∷ ds) m w = add_all-IsWellFormed ds (add m d) (add-IsWellFormed m d w)

start-IsWellFormed : IsWellFormed []
start-IsWellFormed = record { keyed = tt; nodup = tt }

Time-discrete : Discrete Time
Time-discrete = hlevel ℕ_discrete

Domain-set : IsSet Domain
Domain-set = hlevel

Found-set : IsSet (Option Domain)
Found-set = hlevel

lookup-seen : (k : Key) (ds : List Domain) → lookup k (add_all [] ds) ≡ select k ds
lookup-seen k ds = lookup-add_all k ds [] ∙ rw (lookup-nil k) refl

module _ (per : Dict Text (List Domain)) (default_port : ℤ) where
  abbrev entries : List Domain
  entries = candidates default_port per

  abbrev seen : Seen
  seen = add_all [] entries

  seen-IsWellFormed : IsWellFormed seen
  seen-IsWellFormed = add_all-IsWellFormed entries [] start-IsWellFormed

  -- An entry is in the result exactly if it is what is kept of the entries with its name and port:
  -- the first of them in the order of the discoverers' priority, with the first date any has.
  pub mem-dedup :
      (d : Domain) → Mem d (dedup per default_port) ↔ (select (dedup_key d) entries ≡ some d)
  unfolding dedup
  mem-dedup d =
      let w = seen-IsWellFormed in
      let p = sort_slice-perm less_domain (values seen) in
      (
        λ m.
            ∥∥₁_elim
              (lookup-values dedup_key (dedup_key d) seen w.keyed w.nodup refl (Perm.subset p d m))
              (Found-set (select (dedup_key d) entries) (some d))
              (λ h. sym (lookup-seen (dedup_key d) entries) ∙ h),
        λ h.
            Perm.subset (Perm.symm p) d
              (mem-values dedup_key (dedup_key d) seen (lookup-seen (dedup_key d) entries ∙ h)),
      )

  -- No two entries of the result have one name, the case of letters aside, and one port.
  pub dedup_unique :
      (a b : Domain)
      → Mem a (dedup per default_port)
      → Mem b (dedup per default_port)
      → dedup_key a ≡ dedup_key b
      → a ≡ b
  dedup_unique a b m n same =
      some-injective a b
        (sym ((mem-dedup a).0 m) ∙ ap (λ k. select k entries) same ∙ (mem-dedup b).0 n)

less_place-IsTotalOrder : IsTotalOrder (lex lt_text lt_ℤ)
less_place-IsTotalOrder = lex-IsTotalOrder lt_text-IsTotalOrder lt_ℤ-IsTotalOrder

-- The result is sorted by name, then port.
pub dedup-IsSorted :
    (per : Dict Text (List Domain)) (default_port : ℤ)
    → IsSorted less_domain (dedup per default_port)
unfolding dedup
dedup-IsSorted per default_port =
    sort_slice-IsSorted less_domain (on-IsWeakOrder place less_place-IsTotalOrder.weak)
      (values (add_all [] (candidates default_port per)))

-- The order in which Go walks the map does not show: every walk is sorted into one list.
pub dedup_walk :
    (per : Dict Text (List Domain)) (default_port : ℤ) (walk : List Domain)
    → Perm walk (values (add_all [] (candidates default_port per)))
    → sort_slice less_domain walk ≡ dedup per default_port
unfolding dedup
dedup_walk per default_port walk p =
    let d = add_all [] (candidates default_port per) in
    let w = seen-IsWellFormed per default_port in
    sort_slice-eq_of_perm less_domain (on-IsWeakOrder place less_place-IsTotalOrder.weak) walk
      (values d)
      (λ a b ma mb h k.
        values-KeysApart dedup_key Domain-set d w.keyed w.nodup a b (Perm.subset p a ma)
          (Perm.subset p b mb)
          (ap (λ (t : Text × ℤ). (to_lower t.0, t.1))
            (less_place-IsTotalOrder.connected (place a) (place b) h k)))
      p
