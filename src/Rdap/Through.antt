-- ===== src/Rdap/Through.antt =====
-- internal/rdap/enrich.go over a looker with a state: what the lookups leave behind does not show in
-- the result, so `Enrich` is the function of the answers that `Rdap/Enrich` states.
use mathlib.Core.List.{
  map, Mem, mem-cons, mem-cons_self, mem-cons_of_mem, not-mem-nil, Nodup, Nodup-cons, Perm,
}
use mathlib.Core.List.Perm
use mathlib.Core.Logic.Or
use mathlib.Core.Option.{some-injective}
use native.Mathlib.Decide.{ℕ_discrete}
use auto_cert.Base.{
  ◌≡◌, refl, sym, ap, ◌∙◌, subst, ℕ, suc, Option, none, some, List, [], ◌∷◌, list_eq, nat_eq, All,
  length, replicate, Bool, true, false, Bool-cases, inl, inr, ◌==◌, if◌then◌else◌, Option-cases,
}
use auto_cert.Base.Int.{ℤ}
use auto_cert.Base.Text.{Text, codes, to_lower, equal_fold, trim_suffix, trim_space}
use auto_cert.Base.Text.Laws.{to_lower_idem}
use auto_cert.Base.Dict.{lookup, insert, values, keys}
use auto_cert.Base.Dict.Fill.{IsKeyed}
use auto_cert.Base.Dict.Keys.{keys-Nodup}
use auto_cert.Model.{Domain, DomainInfo}
use auto_cert.Time.{Time}
use auto_cert.Rdap.Looker.{Looker, IsSteady}
use auto_cert.Rdap.Enrich.{
  ApexGroup, ByApex, group_of, join_group, add_members, group_by_apex, process_group, process_all,
  write_members, member_info, blank_info, enrich, registrable_domain,
}
use auto_cert.Rdap.Enrich.Groups.{members-join}
use auto_cert.Rdap.Enrich.Results.{enrich_order, by_apex, by_apex-IsWellFormed, perm-groups}

abbrev apex_field : ApexGroup → Text
apex_field g = g.apex

module _ (l : Looker) (clock : Text → Time) (tolerance : ℤ) (domains : List Domain) where
  -- The workers, by the groups in the order in which they are done, with the state of the looker.
  unfoldable pub process_through :
      List ApexGroup → List DomainInfo → l.State → List DomainInfo × l.State
  unfolding process_group
  process_through [] out s = (out, s)
  process_through (g ∷ gs) out s =
      let (info, s') = l.look g.apex s in
      process_through gs (process_group (λ _. info) clock tolerance domains g out) s'

module _ (f f' : Text → DomainInfo) (clock : Text → Time) (tolerance : ℤ)
    (domains : List Domain) where
  member_info-agree :
      (g : ApexGroup) (idx : ℕ) (name : Text)
      → f g.apex ≡ f' g.apex
      → member_info f clock tolerance domains g idx name
        ≡ member_info f' clock tolerance domains g idx name
  member_info-agree g idx name h =
      ap (λ i. member_info (λ _. i) clock tolerance domains g idx name) h

  write_members-agree :
      (g : ApexGroup) (is : List ℕ) (out : List DomainInfo)
      → f g.apex ≡ f' g.apex
      → write_members f clock tolerance domains g is out
        ≡ write_members f' clock tolerance domains g is out
  write_members-agree g is out h =
      ap (λ i. write_members (λ _. i) clock tolerance domains g is out) h

  process_all-agree :
      (gs : List ApexGroup) (out : List DomainInfo)
      → All (λ (g : ApexGroup). f g.apex ≡ f' g.apex) gs
      → process_all f clock tolerance domains gs out ≡ process_all f' clock tolerance domains gs out
  unfolding process_group
  process_all-agree [] out h = refl
  process_all-agree (g ∷ gs) out h =
      process_all-agree gs (write_members f clock tolerance domains g g.members out) h.1
      ∙ ap (process_all f' clock tolerance domains gs) (write_members-agree g g.members out h.0)

-- Groups whose apexes are in lower case and differ.
abbrev IsLow : ApexGroup → Type 0
IsLow g = to_lower g.apex ≡ g.apex

IsLow-prop : (g : ApexGroup) → IsProp (IsLow g)
IsLow-prop g = hlevel ℕ_discrete

module _ (l : Looker) (clock : Text → Time) (tolerance : ℤ) (domains : List Domain)
    (steady : IsSteady l) where
  answers_after :
      (g : ApexGroup) (gs : List ApexGroup) (s : l.State)
      → Nodup (map apex_field (g ∷ gs))
      → All IsLow (g ∷ gs)
      → All (λ (h : ApexGroup). (l.look h.apex (l.look g.apex s).1).0 ≡ (l.look h.apex s).0) gs
  answers_after g [] s u low = tt
  answers_after g (h ∷ gs) s u low =
      let (apart, rest) = Nodup-cons.0 u in
      (
        steady.steady h.apex g.apex s low.1.0 low.0 (λ e. apart (mem-cons.1 (Or.inl (sym e)))),
        answers_after g gs s
            (Nodup-cons.1 (λ m. apart (mem-cons_of_mem h.apex m), (Nodup-cons.0 rest).1))
            (low.0, low.1.1),
      )

  -- The state that the lookups leave behind does not show.
  process_through_pure :
      (gs : List ApexGroup) (out : List DomainInfo) (s : l.State)
      → Nodup (map apex_field gs)
      → All IsLow gs
      → (process_through l clock tolerance domains gs out s).0
        ≡ process_all (λ a. (l.look a s).0) clock tolerance domains gs out
  unfolding process_through process_group
  process_through_pure [] out s u low = refl
  process_through_pure (g ∷ gs) out s u low =
      let out' = write_members (λ a. (l.look a s).0) clock tolerance domains g g.members out in
      process_through_pure gs out' (l.look g.apex s).1 (Nodup-cons.0 u).1 low.1
      ∙ process_all-agree (λ a. (l.look a (l.look g.apex s).1).0) (λ a. (l.look a s).0) clock
          tolerance domains gs out' (answers_after g gs s u low)

to_lower-nil : to_lower [] ≡ []
unfolding to_lower
to_lower-nil = refl

chosen_low :
    (b : Bool) (x : Text) (o : Option Text)
    → to_lower (if b then [] else elim o [ none ↦ to_lower x | some e ↦ to_lower e ])
      ≡ (if b then [] else elim o [ none ↦ to_lower x | some e ↦ to_lower e ])
chosen_low true x o = to_lower-nil
chosen_low false x none = to_lower_idem x
chosen_low false x (some e) = to_lower_idem e

module _ (etld_plus_one : Text → Option Text) where
  registrable_domain_low :
      (name : Text)
      → to_lower (registrable_domain etld_plus_one name) ≡ registrable_domain etld_plus_one name
  unfolding registrable_domain
  registrable_domain_low name =
      let n = trim_suffix (trim_space name) (codes ".") in
      chosen_low (to_lower n == []) n (etld_plus_one (to_lower n))

  insert-IsLow :
      (a : Text) (g : ApexGroup) (m : ByApex)
      → IsLow g
      → All IsLow (values m)
      → All IsLow (values (insert a g m))
  unfolding insert
  insert-IsLow a g [] h low = (h, tt)
  insert-IsLow a g ((b, k) ∷ m) h low = elim (Bool-cases (b == a)) [
    | inl e ↦ rw e (h, low.1)
    | inr e ↦ rw e (low.0, insert-IsLow a g m h low.1)
  ]

  lookup-IsLow :
      (a : Text) (m : ByApex) {g : ApexGroup} → All IsLow (values m) → lookup a m ≡ some g → IsLow g
  unfolding lookup
  lookup-IsLow a [] low h = cc
  lookup-IsLow a ((b, k) ∷ m) low h = elim (Bool-cases (b == a)) [
    | inl e ↦ subst IsLow (some-injective k _ (sym (rw e) ∙ h)) low.0
    | inr e ↦ lookup-IsLow a m low.1 (sym (rw e) ∙ h)
  ]

  group_of-IsLow :
      (a : Text) (m : ByApex)
      → to_lower a ≡ a
      → All IsLow (values m)
      → IsLow (group_of a (lookup a m))
  group_of-IsLow a m h low = elim (Option-cases (lookup a m)) [
    | inl e ↦ subst (λ o. IsLow (group_of a o)) (sym e) h
    | inr (g, e) ↦ subst (λ o. IsLow (group_of a o)) (sym e) (lookup-IsLow a m low e)
  ]

  add_members-IsLow :
      (i : ℕ) (m : ByApex) (ds : List Domain)
      → All IsLow (values m)
      → All IsLow (values (add_members etld_plus_one i m ds))
  add_members-IsLow i m [] low = low
  add_members-IsLow i m (d ∷ ds) low =
      let a = registrable_domain etld_plus_one d.name in
      let g = group_of a (lookup a m) in
      let joined = join_group i d (equal_fold d.name a) g in
      add_members-IsLow (suc i) (insert a joined m) ds (
        insert-IsLow a joined m
          (subst (λ t. to_lower t ≡ t)
            (sym (members-join etld_plus_one g i d (equal_fold d.name a)).1)
            (group_of-IsLow a m (registrable_domain_low d.name) low))
          low)

All-mem : {g : ApexGroup} (gs : List ApexGroup) → All IsLow gs → Mem g gs → IsLow g
All-mem [] h m = absurd (not-mem-nil m)
All-mem {g} (k ∷ gs) h m =
    Or.elim (IsLow-prop g) (mem-cons.0 m) (λ e. subst IsLow (sym e) h.0) (All-mem gs h.1)

All-of_mem : (gs : List ApexGroup) → ((g : ApexGroup) → Mem g gs → IsLow g) → All IsLow gs
All-of_mem [] h = tt
All-of_mem (k ∷ gs) h = (h k mem-cons_self, All-of_mem gs (λ g m. h g (mem-cons_of_mem k m)))

map-apex : (m : ByApex) → IsKeyed apex_field m → map apex_field (values m) ≡ keys m
map-apex [] h = refl
map-apex ((a, g) ∷ m) h = ap (◌∷◌ g.apex) (map-apex m h.1) ∙ ap (λ t. t ∷ keys m) h.0

module _ (etld_plus_one : Text → Option Text) (domains : List Domain) where
  groups-Nodup : Nodup (map apex_field (values (by_apex etld_plus_one domains)))
  groups-Nodup =
      let w = by_apex-IsWellFormed etld_plus_one domains in
      subst Nodup (sym (map-apex (by_apex etld_plus_one domains) w.keyed))
        (keys-Nodup (by_apex etld_plus_one domains) w.nodup)

  module _ (l : Looker) (clock : Text → Time) (tolerance : ℤ) (steady : IsSteady l)
      (s : l.State) where
    -- Lookups that keep a state, such as a bootstrap or a cache, done in any order of the groups,
    -- leave the result that `Enrich` has over the answers that each apex gets in the state before,
    -- if the looker is steady.
    pub enrich_through :
        (order : List ApexGroup)
        → Perm order (group_by_apex etld_plus_one domains)
        → (process_through l clock tolerance domains order
            (replicate (length domains) blank_info)
            s).0
          ≡ enrich etld_plus_one (λ a. (l.look a s).0) clock tolerance domains
    enrich_through order p =
        let all = Perm.trans p (perm-groups etld_plus_one domains) in
        process_through_pure l clock tolerance domains steady order
          (replicate (length domains) blank_info) s
          (Perm.nodup (Perm.map apex_field (Perm.symm all)) groups-Nodup)
          (All-of_mem order (λ g m.
            All-mem (values (by_apex etld_plus_one domains))
              (add_members-IsLow etld_plus_one 0 [] domains tt) (Perm.subset all g m)))
        ∙ enrich_order etld_plus_one domains (λ a. (l.look a s).0) clock tolerance order p
