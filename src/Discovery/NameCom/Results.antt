-- ===== src/Discovery/NameCom/Results.antt =====
-- What `NameCom.Discover` returns, whatever listing of records fails.
use mathlib.Core.List.{Mem, Mem-prop, Nodup, mem-cons, not-mem-nil, map}
use mathlib.Core.Logic.Or
use mathlib.Core.Option.{some-injective, none-ne-some}
use auto_cert.Base.{
  ◌≡◌, ◌≢◌, refl, sym, ◌∙◌, subst, ℕ, ◌+◌, true, false, none, some, List, [], ◌∷◌, arith, list_eq,
  nat_eq, Option-cases, Bool-cases, inl, inr, ◌==◌, ◌||◌,
}
use auto_cert.Base.Text.{Text, codes}
use auto_cert.Base.Result.{Result, ok, err, ok-ne-err, ok-injective}
use auto_cert.Model.{Domain}
use auto_cert.Discovery.Hosts.{normalize_host, is_monitorable_host}
use auto_cert.Discovery.Collector.{Found, start, names}
use auto_cert.Discovery.Collector.Laws.{
  IsClean, start-IsClean, add_host-IsClean, add_host-keeps, add_host-finds,
}
use auto_cert.Discovery.NameCom.{
  Client, fetch_domains, fetch_records, list_domains, list_records, add, add_each, add_listed,
  add_domains, discover_listed, discover,
}
use auto_cert.Discovery.NameCom.Paging.{IsBounded, pages_from_ends}

-- No listing of the account names a page beyond the last.
pub record IsBoundedAccount (c : Client) (last : ℕ) : Type 0 where
  pub domains : IsBounded (fetch_domains c) last
  pub records : (domain : Text) → IsBounded (fetch_records c domain) last

add_domains-ends :
    (c : Client) (last : ℕ) (ds : List Text) (f : Found)
    → IsBoundedAccount c last
    → (g : Found) × (add_domains c (last + 1) ds f ≡ some g)
add_domains-ends c last [] f b = (f, refl)
add_domains-ends c last (d ∷ ds) f b =
    let (listed, h) =
      pages_from_ends (fetch_records c d) last (last + 1) [] 1 (b.records d) (omega arith)
        (omega arith) in
    let (g, ends) = add_domains-ends c last ds (add_listed listed (add d f)) b in
    (g, rw (h, add_domains) ends)

discover_listed-ends :
    (c : Client) (last : ℕ) (listed : Result (List Text))
    → IsBoundedAccount c last
    → (r : Result (List Domain)) × (discover_listed c (last + 1) listed ≡ some r)
discover_listed-ends c last (err e) b = (_, refl)
discover_listed-ends c last (ok ds) b =
    let (g, ends) = add_domains-ends c last ds start b in (ok g.out, rw (ends, discover_listed))

-- Where no listing names a page beyond the last, one round more than that is enough for each loop,
-- and `Discover` ends.
pub namecom_ends :
    (username token : Text) (c : Client) (last : ℕ)
    → IsBoundedAccount c last
    → (r : Result (List Domain)) × (discover username token c (last + 1) ≡ some r)
unfolding discover
namecom_ends username token c last b = elim (Bool-cases (username == [] || token == [])) [
  | inl missing ↦ (err (codes "namecom: missing username or token"), rw missing)
  | inr there ↦
      let (listed, h) =
        pages_from_ends (fetch_domains c) last (last + 1) [] 1 b.domains (omega arith)
          (omega arith) in
      let (r, ends) = discover_listed-ends c last listed b in
      (r, rw there (rw (h, list_domains) ends))
]

abbrev IsFound : Found → Type 0
IsFound = IsClean is_monitorable_host (codes "namecom")

module _ (P : Found → Type 0) (k : (raw : Text) (f : Found) → P f → P (add raw f)) where
  add_each-keeps : (rs : List Text) (f : Found) → P f → P (add_each rs f)
  add_each-keeps [] f h = h
  add_each-keeps (r ∷ rs) f h = add_each-keeps rs (add r f) (k r f h)

  add_listed-keeps : (listed : Result (List Text)) (f : Found) → P f → P (add_listed listed f)
  add_listed-keeps (err e) f h = h
  add_listed-keeps (ok rs) f h = add_each-keeps rs f h

  add_domains-keeps :
      (c : Client) (fuel : ℕ) (ds : List Text) (f : Found) {g : Found}
      → add_domains c fuel ds f ≡ some g
      → P f
      → P g
  add_domains-keeps c fuel [] f {g} h p = subst P (some-injective f g h) p
  add_domains-keeps c fuel (d ∷ ds) f {g} h p = elim (Option-cases (list_records c fuel d)) [
    | inl out ↦ absurd (none-ne-some g (sym (rw (out, add_domains)) ∙ h))
    | inr (listed, at) ↦
        add_domains-keeps c fuel ds (add_listed listed (add d f)) (sym (rw (at, add_domains)) ∙ h)
          (add_listed-keeps listed (add d f) (k d f p))
  ]

module _ (c : Client) (fuel : ℕ) where
  module _ (username token : Text) where
    discover-missing :
        (username == [] || token == []) ≡ true
        → discover username token c fuel ≡ some (err (codes "namecom: missing username or token"))
    unfolding discover
    discover-missing missing = rw missing

    discover-out_of_fuel :
        (username == [] || token == []) ≡ false
        → list_domains c fuel ≡ none
        → discover username token c fuel ≡ none
    unfolding discover
    discover-out_of_fuel there h = rw there (rw (h, list_domains))

    discover-step :
        {listed : Result (List Text)}
        → (username == [] || token == []) ≡ false
        → list_domains c fuel ≡ some listed
        → discover username token c fuel ≡ discover_listed c fuel listed
    unfolding discover
    discover-step there h = rw there (rw (h, list_domains))

  -- What a run that returned domains went through.
  record Run (out : List Domain) : Type 0 where
    pub listed : List Text
    pub found : Found
    pub listing : list_domains c fuel ≡ some (ok listed)
    pub collecting : add_domains c fuel listed start ≡ some found
    pub result : found.out ≡ out

  discover_listed-ok :
      (ds : List Text) {out : List Domain}
      → discover_listed c fuel (ok ds) ≡ some (ok out)
      → (g : Found) × (add_domains c fuel ds start ≡ some g) × (g.out ≡ out)
  discover_listed-ok ds {out} h = elim (Option-cases (add_domains c fuel ds start)) [
    | inl none_left ↦ absurd (none-ne-some (ok out) (sym (rw (none_left, discover_listed)) ∙ h))
    | inr (g, at) ↦ (
      g,
      at,
      ok-injective (some-injective (ok g.out) (ok out) (sym (rw (at, discover_listed)) ∙ h)),
    )
  ]

  discover-listed_cases :
      (listed : Result (List Text)) {out : List Domain}
      → list_domains c fuel ≡ some listed
      → discover_listed c fuel listed ≡ some (ok out)
      → Run out
  discover-listed_cases (err e) at h = cc
  discover-listed_cases (ok ds) at h =
      let (g, collecting, result) = discover_listed-ok ds h in
      record { listed = ds; found = g; listing = at; collecting = collecting; result = result }

  discover-inv :
      (username token : Text) {out : List Domain}
      → discover username token c fuel ≡ some (ok out)
      → Run out
  discover-inv username token {out} h = elim (Bool-cases (username == [] || token == [])) [
    | inl missing ↦ absurd (
        ok-ne-err (
          some-injective (ok out) (err (codes "namecom: missing username or token"))
            (sym h ∙ discover-missing username token missing)))
    | inr there ↦ elim (Option-cases (list_domains c fuel)) [
      | inl none_left ↦
          absurd
            (none-ne-some (ok out) (sym (discover-out_of_fuel username token there none_left) ∙ h))
      | inr (listed, at) ↦
          discover-listed_cases listed at (sym (discover-step username token there at) ∙ h)
    ]
  ]

  -- Where `Discover` returns domains, no two have one name, and each has a name that is not empty
  -- and monitorable.
  pub namecom_clean :
      (username token : Text) {out : List Domain}
      → discover username token c fuel ≡ some (ok out)
      → Nodup (map (λ d. d.name) out)
        × ((n : Text) → Mem n (map (λ d. d.name) out) → (n ≢ []) × (is_monitorable_host n ≡ true))
  namecom_clean username token h =
      let r = discover-inv username token h in
      let clean =
        add_domains-keeps IsFound (add_host-IsClean is_monitorable_host (codes "namecom")) c fuel
          r.listed start r.collecting (start-IsClean is_monitorable_host (codes "namecom")) in
      subst
        (λ out.
          Nodup (map (λ d. d.name) out)
          × ((n : Text)
              → Mem n (map (λ d. d.name) out)
              → (n ≢ []) × (is_monitorable_host n ≡ true)))
        r.result (clean.apart, λ n m. (clean.not_empty n m, clean.accepted n m))

  module _ (raw : Text) (full : normalize_host raw ≢ [])
      (fit : is_monitorable_host (normalize_host raw) ≡ true) where
    abbrev Has : Found → Type 0
    Has f = Mem (normalize_host raw) (names f)

    Has-kept : (other : Text) (f : Found) → Has f → Has (add other f)
    Has-kept other f = add_host-keeps is_monitorable_host (codes "namecom") other f

    add_domains-finds :
        (ds : List Text) (f : Found) {g : Found}
        → Mem raw ds
        → IsFound f
        → add_domains c fuel ds f ≡ some g
        → Has g
    add_domains-finds [] f m clean h = absurd (not-mem-nil m)
    add_domains-finds (d ∷ ds) f {g} m clean h = elim (Option-cases (list_records c fuel d)) [
      | inl out ↦ absurd (none-ne-some g (sym (rw (out, add_domains)) ∙ h))
      | inr (listed, at) ↦
          let rest = sym (rw (at, add_domains)) ∙ h in
          let k = add_host-IsClean is_monitorable_host (codes "namecom") in
          Or.elim Mem-prop (mem-cons.0 m)
            (λ here. add_domains-keeps Has Has-kept c fuel ds (add_listed listed (add d f)) rest (
              add_listed-keeps Has Has-kept listed (add d f) (
                subst (λ e. Has (add e f)) here
                  (add_host-finds is_monitorable_host (codes "namecom") raw f clean full fit))))
            (λ later.
              add_domains-finds ds (add_listed listed (add d f)) later
                (add_listed-keeps IsFound k listed (add d f) (k d f clean)) rest)
    ]

    -- A listed domain with a monitorable name is returned, even if listing its records fails.
    pub namecom_listed :
        (username token : Text) {ds : List Text} {out : List Domain}
        → discover username token c fuel ≡ some (ok out)
        → list_domains c fuel ≡ some (ok ds)
        → Mem raw ds
        → Mem (normalize_host raw) (map (λ d. d.name) out)
    namecom_listed username token {ds} h listed m =
        let r = discover-inv username token h in
        let one : ds ≡ r.listed =
          ok-injective (some-injective (ok ds) (ok r.listed) (sym listed ∙ r.listing)) in
        subst (λ out. Mem (normalize_host raw) (map (λ d. d.name) out)) r.result
          (add_domains-finds r.listed start (subst (Mem raw) one m)
            (start-IsClean is_monitorable_host (codes "namecom")) r.collecting)
