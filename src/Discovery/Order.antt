-- ===== src/Discovery/Order.antt =====
-- The discoverers run in parallel: the order in which they finish does not show in the result.
use mathlib.Core.List.{Perm, map, filter_map, mem-filter_map}
use mathlib.Core.List.Perm
use mathlib.Core.Option.{some-injective}
use mathlib.Core.Logic.{∥∥₁_elim}
use native.Mathlib.Decide.{ℕ_discrete}
use auto_cert.Base.{
  ◌≡◌, refl, sym, ap, ◌∙◌, Option, none, some, List, [], ◌∷◌, list_eq, nat_eq, arith,
}
use auto_cert.Base.Int.{ℤ}
use auto_cert.Base.Text.{Text}
use auto_cert.Base.Dict.{Dict, lookup, keys}
use auto_cert.Base.Dict.Keys.{keys-perm}
use auto_cert.Base.Dict.Fill.{
  fill, lookup-fill_nil, fill-NodupKeys, last_of-perm, last_with-last_of, map_some, KeysApart,
}
use auto_cert.Base.Members.{collect}
use auto_cert.Base.Sort.{sort_slice}
use auto_cert.Base.Sort.Laws.{sort_slice-eq_of_perm}
use auto_cert.Base.Sort.Order.{
  lex-IsTotalOrder, lt_text-IsTotalOrder, ltb-IsTotalOrder, on-IsWeakOrder,
}
use auto_cert.Model.{Domain}
use auto_cert.Time.{Time}
use auto_cert.Discovery.{
  Finished, success, failure, aggregate, dedup, candidates, found_by, rank, less_name, with_port,
}

module _ {ℓ} {V : Type ℓ} where
  -- The map that a loop makes of pairs.
  abbrev filled : List (Text × V) → Dict Text V
  filled = fill (λ p. p.0) (λ p. p.1) []

  lookup-filled_perm :
      (k : Text) (xs ys : List (Text × V))
      → KeysApart (λ p. p.0) xs
      → Perm xs ys
      → lookup k (filled xs) ≡ lookup k (filled ys)
  lookup-filled_perm k xs ys apart p =
      lookup-fill_nil (λ p. p.0) (λ p. p.1) k xs
      ∙ last_with-last_of (λ p. p.0) (λ p. p.1) k xs
      ∙ ap (map_some (λ p. p.1)) (last_of-perm (λ p. p.0) k xs ys apart p)
      ∙ sym (last_with-last_of (λ p. p.0) (λ p. p.1) k ys)
      ∙ sym (lookup-fill_nil (λ p. p.0) (λ p. p.1) k ys)

  keys-filled_perm :
      (xs ys : List (Text × V))
      → KeysApart (λ p. p.0) xs
      → Perm xs ys
      → Perm (keys (filled xs)) (keys (filled ys))
  keys-filled_perm xs ys apart p =
      keys-perm (filled xs) (filled ys) (fill-NodupKeys (λ p. p.0) (λ p. p.1) xs [] tt)
        (fill-NodupKeys (λ p. p.0) (λ p. p.1) ys [] tt) (λ k. lookup-filled_perm k xs ys apart p)

  -- Answers by discoverers with different names have different names.
  filter_map-KeysApart :
      IsSet V
      → (f : Finished → Option (Text × V))
      → ((a : Finished) (p : Text × V) → f a ≡ some p → a.name ≡ p.0)
      → (finished : List Finished) → KeysApart (λ a. a.name) finished
      → KeysApart (λ p. p.0) (filter_map f finished)
  filter_map-KeysApart s f named finished apart p q mp mq same =
      let pair_set : IsSet (Text × V) = hlevel in
      ∥∥₁_elim ((mem-filter_map f finished).0 mp) (pair_set p q) (λ (a, ma, ha).
        ∥∥₁_elim ((mem-filter_map f finished).0 mq) (pair_set p q) (λ (b, mb, hb).
          some-injective p q
            (sym ha ∙ ap f (apart a b ma mb (named a p ha ∙ same ∙ sym (named b q hb))) ∙ hb)))

Time-discrete : Discrete Time
Time-discrete = hlevel ℕ_discrete

Domains-set : IsSet (List Domain)
Domains-set = hlevel

Text-set : IsSet Text
Text-set = hlevel ℕ_discrete

success-name : (a : Finished) (p : Text × List Domain) → success a ≡ some p → a.name ≡ p.0
success-name a p h = ground arith

failure-name : (a : Finished) (p : Text × Text) → failure a ≡ some p → a.name ≡ p.0
failure-name a p h = ground arith

collect_ext :
    {A B : Type 0} (f g : A → List B)
    → ((x : A) → f x ≡ g x)
    → (xs : List A) → collect f xs ≡ collect g xs
collect_ext f g h [] = refl
collect_ext f g h (x ∷ xs) = rw (h x, collect_ext f g h xs)

candidates-perm :
    (default_port : ℤ) (per per' : Dict Text (List Domain))
    → ((k : Text) → lookup k per ≡ lookup k per')
    → Perm (keys per) (keys per')
    → candidates default_port per ≡ candidates default_port per'
unfolding candidates
candidates-perm default_port per per' same p =
    let t = lex-IsTotalOrder ltb-IsTotalOrder lt_text-IsTotalOrder in
    ap (map (with_port default_port)) (
      ap (collect (found_by per)) (
        sort_slice-eq_of_perm less_name (on-IsWeakOrder rank t.weak) (keys per) (keys per')
          (λ a b ma mb h k. ap (λ r. r.1) (t.connected (rank a) (rank b) h k)) p)
      ∙ collect_ext (found_by per) (found_by per')
          (λ k. ap (λ o. elim o [ none ↦ [] | some ds ↦ ds ]) (same k))
          (sort_slice less_name (keys per')))

dedup-perm :
    (default_port : ℤ) (per per' : Dict Text (List Domain))
    → ((k : Text) → lookup k per ≡ lookup k per')
    → Perm (keys per) (keys per')
    → dedup per default_port ≡ dedup per' default_port
unfolding dedup
dedup-perm default_port per per' same p = rw (candidates-perm default_port per per' same p)

-- Where the discoverers have different names, the domains and the error of each discoverer are the
-- same in whatever order the discoverers finish.
pub aggregate_order :
    (default_port : ℤ) (finished finished' : List Finished)
    → KeysApart (λ f. f.name) finished
    → Perm finished finished'
    → ((aggregate default_port finished).domains ≡ (aggregate default_port finished').domains)
      × ((name : Text)
          → lookup name (aggregate default_port finished).errors
            ≡ lookup name (aggregate default_port finished').errors)
unfolding aggregate
aggregate_order default_port finished finished' apart p =
    let good = filter_map-KeysApart Domains-set success success-name finished apart in
    let bad = filter_map-KeysApart Text-set failure failure-name finished apart in
    let xs = filter_map success finished in
    let ys = filter_map success finished' in
    (
      dedup-perm default_port (filled xs) (filled ys)
          (λ k. lookup-filled_perm k xs ys good (Perm.filter_map success p))
          (keys-filled_perm xs ys good (Perm.filter_map success p)),
      λ name.
          lookup-filled_perm name (filter_map failure finished) (filter_map failure finished') bad
            (Perm.filter_map failure p),
    )
