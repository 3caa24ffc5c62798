-- ===== src/Rdap/Enrich/Results.antt =====
-- What `Enrich` returns: each name has its registrable domain's expiry, and one name of each
-- registrable domain stands for it.
use mathlib.Core.List.{Mem, Perm}
use mathlib.Core.List.Perm
use mathlib.Core.Logic.{∥∥₁_elim}
use mathlib.Core.Option.{some-injective}
use mathlib.Core.Bool.{false≢true}
use native.Mathlib.Decide.{ℕ_discrete}
use auto_cert.Base.{
  ◌≡◌, refl, sym, ap, ◌∙◌, subst, ℕ, suc, ◌<◌, Bool, true, Option, some, List, [], ◌∷◌, inl, inr,
  length, get_elem?, replicate, length-replicate, get_elem?-lt, lt-get_elem?, get_elem?-ext,
  Option-cases, list_eq, nat_eq, ◌==◌, same_refl, eq_of_same,
}
use auto_cert.Base.Int.{ℤ}
use auto_cert.Base.Text.{Text, equal_fold}
use auto_cert.Base.Dict.{lookup, insert, values, NodupKeys, insert-NodupKeys}
use auto_cert.Base.Dict.Fill.{IsKeyed, insert-IsKeyed, lookup-IsKeyed, lookup-values, mem-values}
use auto_cert.Base.Sort.Laws.{sort_slice-perm}
use auto_cert.Base.Sort.Order.{lt_text, on}
use auto_cert.Model.{Domain, DomainInfo}
use auto_cert.Time.{Time}
use auto_cert.Rdap.Enrich.{
  ApexGroup, ByApex, group_of, join_group, add_members, group_by_apex, member_info, process_all,
  blank_info, enrich, stands_for,
}
use auto_cert.Rdap.Enrich.Groups.{holds, apex_of, apex_is, group-Fits, IsGroup, Fits, members-join}
use auto_cert.Rdap.Enrich.Writes.{run-owner, length-run}

Time-discrete : Discrete Time
Time-discrete = hlevel ℕ_discrete

ApexGroup-set : IsSet ApexGroup
ApexGroup-set = hlevel

module _ (etld_plus_one : Text → Option Text) where
  pub record IsWellFormed (m : ByApex) : Type 0 where
    pub keyed : IsKeyed (λ (g : ApexGroup). g.apex) m
    pub nodup : NodupKeys m

  group_of-apex : (a : Text) (m : ByApex) → IsWellFormed m → (group_of a (lookup a m)).apex ≡ a
  group_of-apex a m w = elim (Option-cases (lookup a m)) [
    | inl h ↦ ap (λ o. (group_of a o).apex) h
    | inr (g, h) ↦
        ap (λ o. (group_of a o).apex) h ∙ lookup-IsKeyed (λ (g : ApexGroup). g.apex) a m w.keyed h
  ]

  add_members-IsWellFormed :
      (i : ℕ) (m : ByApex) (ds : List Domain)
      → IsWellFormed m
      → IsWellFormed (add_members etld_plus_one i m ds)
  add_members-IsWellFormed i m [] w = w
  add_members-IsWellFormed i m (d ∷ ds) w =
      let a = apex_of etld_plus_one d in
      let g = join_group i d (equal_fold d.name a) (group_of a (lookup a m)) in
      let same : g.apex ≡ a =
        (members-join etld_plus_one (group_of a (lookup a m)) i d (equal_fold d.name a)).1
        ∙ group_of-apex a m w in
      add_members-IsWellFormed (suc i) (insert a g m) ds (
        subst (λ k. IsWellFormed (insert k g m)) same
          (record {
            keyed = insert-IsKeyed (λ (g : ApexGroup). g.apex) g m w.keyed;
            nodup = insert-NodupKeys g.apex g m w.nodup;
          }))

  module _ (domains : List Domain) where
    abbrev pub by_apex : ByApex
    by_apex = add_members etld_plus_one 0 [] domains

    pub by_apex-IsWellFormed : IsWellFormed by_apex
    by_apex-IsWellFormed = add_members-IsWellFormed 0 [] domains (record { keyed = tt; nodup = tt })

    -- The names with a registrable domain.
    abbrev pub shares : Text → ℕ → Bool
    shares a j = apex_is etld_plus_one a (get_elem? domains j)

    shares_self :
        (j : ℕ) (d : Domain)
        → get_elem? domains j ≡ some d
        → shares (apex_of etld_plus_one d) j ≡ true
    shares_self j d named =
        ap (apex_is etld_plus_one (apex_of etld_plus_one d)) named
        ∙ same_refl (apex_of etld_plus_one d)

    fits :
        (a : Text) {o : Option ApexGroup} → lookup a by_apex ≡ o → Fits etld_plus_one a (shares a) o
    fits a h = subst (Fits etld_plus_one a (shares a)) h (group-Fits etld_plus_one a domains)

    -- The group of a name that is there.
    pub own-IsGroup :
        (j : ℕ) (d : Domain)
        → get_elem? domains j ≡ some d
        → (g : ApexGroup) × (lookup (apex_of etld_plus_one d) by_apex ≡ some g)
          × IsGroup etld_plus_one (apex_of etld_plus_one d) (shares (apex_of etld_plus_one d)) g
    own-IsGroup j d named = elim (Option-cases (lookup (apex_of etld_plus_one d) by_apex)) [
      | inl h ↦
          absurd (false≢true (sym (fits (apex_of etld_plus_one d) h j) ∙ shares_self j d named))
      | inr (g, h) ↦ (g, h, fits (apex_of etld_plus_one d) h)
    ]

    pub perm-groups : Perm (group_by_apex etld_plus_one domains) (values by_apex)
    unfolding group_by_apex
    perm-groups = sort_slice-perm (on (λ (g : ApexGroup). g.apex) lt_text) (values by_apex)

    only-group :
        (j : ℕ) (d : Domain) (g : ApexGroup)
        → get_elem? domains j ≡ some d
        → lookup (apex_of etld_plus_one d) by_apex ≡ some g
        → (h : ApexGroup) → Mem h (values by_apex)
        → holds h.members j ≡ true
        → h ≡ g
    only-group j d g named found h m own =
        let w = by_apex-IsWellFormed in
        ∥∥₁_elim (lookup-values (λ (g : ApexGroup). g.apex) h.apex by_apex w.keyed w.nodup refl m)
          (ApexGroup-set h g)
          (λ p.
            let listed : (apex_of etld_plus_one d == h.apex) ≡ true =
              ap (apex_is etld_plus_one h.apex) (sym named)
              ∙ sym ((fits h.apex p).members_are j)
              ∙ own in
            let same = eq_of_same (apex_of etld_plus_one d) h.apex listed in
            some-injective h g (sym p ∙ ap (λ a. lookup a by_apex) (sym same) ∙ found))

    module _ (look_up : Text → DomainInfo) (clock : Text → Time) (tolerance : ℤ) where
      -- The result, for the order in which the groups are done.
      abbrev pub done_in : List ApexGroup → List DomainInfo
      done_in order =
          process_all look_up clock tolerance domains order (replicate (length domains) blank_info)

      length-done_in : (order : List ApexGroup) → length (done_in order) ≡ length domains
      length-done_in order =
          length-run look_up clock tolerance domains order (replicate (length domains) blank_info)
          ∙ length-replicate (length domains) blank_info

      pub done_in-entry :
          (order : List ApexGroup) (j : ℕ) (d : Domain) (g : ApexGroup)
          → Perm order (group_by_apex etld_plus_one domains)
          → get_elem? domains j ≡ some d
          → lookup (apex_of etld_plus_one d) by_apex ≡ some g
          → get_elem? (done_in order) j
            ≡ some (member_info look_up clock tolerance domains g j d.name)
      done_in-entry order j d g p named found =
          let all = Perm.trans p perm-groups in
          let f = fits (apex_of etld_plus_one d) found in
          run-owner look_up clock tolerance domains j d named g order
            (replicate (length domains) blank_info) (f.members_are j ∙ shares_self j d named)
            (λ h m. only-group j d g named found h (Perm.subset all h m))
            (rw (length-replicate (length domains) blank_info) (get_elem?-lt domains j named))
            (Perm.subset (Perm.symm all) g
              (mem-values (λ (g : ApexGroup). g.apex) (apex_of etld_plus_one d) by_apex found))

      -- The result has one entry for each name, whatever is in the list.
      pub length-enrich :
          length (enrich etld_plus_one look_up clock tolerance domains) ≡ length domains
      unfolding enrich
      length-enrich = length-done_in (group_by_apex etld_plus_one domains)

      -- The order in which the workers finish the groups does not show in the result.
      pub enrich_order :
          (order : List ApexGroup)
          → Perm order (group_by_apex etld_plus_one domains)
          → done_in order ≡ enrich etld_plus_one look_up clock tolerance domains
      unfolding enrich
      enrich_order order p =
          get_elem?-ext (done_in order) (done_in (group_by_apex etld_plus_one domains))
            (length-done_in order ∙ sym (length-done_in (group_by_apex etld_plus_one domains)))
            (λ i within.
              let (d, named) =
                lt-get_elem? domains i (subst (λ n. i < n) (length-done_in order) within) in
              let (g, found, _) = own-IsGroup i d named in
              done_in-entry order i d g p named found
              ∙ sym
                  (done_in-entry (group_by_apex etld_plus_one domains) i d g Perm.rfl named found))

      -- The entry of a name: it has the name, and the expiry, the source and the error that its
      -- registrable domain was resolved to; one name stands for all that share the registrable
      -- domain, and it alone is marked as the apex and may carry a date that was expected.
      pub record Shared (a : Text) : Type 0 where
        pub group : ApexGroup
        pub chosen : ℕ
        pub chosen_in : shares a chosen ≡ true
        pub group_apex : group.apex ≡ a
        pub entries :
            (j : ℕ) (d : Domain)
            → get_elem? domains j ≡ some d
            → apex_of etld_plus_one d ≡ a
            → get_elem? (enrich etld_plus_one look_up clock tolerance domains) j
              ≡ some (member_info look_up clock tolerance domains group j d.name)
        pub one_apex : (j : ℕ) → stands_for group j ≡ (j == chosen)
