-- ===== src/Rdap/Enrich.antt =====
-- internal/rdap/enrich.go: one lookup for each registrable domain, shared by the names below it.
pub mod Groups
pub mod Writes
pub mod Results
use auto_cert.Base.{
  ℕ, zero, suc, ◌+◌, Bool, true, false, Option, none, some, List, [], ◌∷◌, ◌++◌, ◌&&◌, ◌||◌,
  list_eq, nat_eq, if◌then◌else◌, ◌==◌, is_none, is_some, length, get_elem?, set, replicate,
}
use auto_cert.Base.Int.{ℤ, pos, abs, lt_ℤ}
use auto_cert.Base.Text.{Text, codes, trim_space, trim_suffix, to_lower, equal_fold}
use auto_cert.Base.Dict.{Dict, lookup, insert, values}
use auto_cert.Base.Sort.{sort_slice}
use auto_cert.Base.Sort.Order.{lt_text, on}
use auto_cert.Model.{Domain, DomainInfo}
use auto_cert.Time.{Time, zero_time, utc, utc_midnight, sub, whole_days}

-- `registrableDomain`, over `publicsuffix.EffectiveTLDPlusOne` (none is its error)
unfoldable pub registrable_domain : (Text → Option Text) → Text → Text
unfolding to_lower trim_suffix trim_space
registrable_domain etld_plus_one name =
    let n = to_lower (trim_suffix (trim_space name) (codes ".")) in
    if n == [] then [] else elim (etld_plus_one n) [ none ↦ n | some e ↦ to_lower e ]

-- `apexGroup`; the index of the apex's own entry is none where the source has -1.
pub record ApexGroup : Type 0 where
  pub apex : Text
  pub members : List ℕ
  pub fallback : Option Time
  pub apex_member : Option ℕ

abbrev pub ByApex : Type 0
ByApex = Dict Text ApexGroup

-- `&apexGroup{apex: apex, apexMemberIdx: -1}`, or the group that is there.
abbrev pub group_of : Text → Option ApexGroup → ApexGroup
group_of apex none = record { apex = apex; members = []; fallback = none; apex_member = none }
group_of apex (some g) = g

-- The first option, or the second where it is nil.
abbrev prefer : Option Time → Option Time → Option Time
prefer none t = t
prefer (some s) t = some s

-- What a round of the loop of `groupByApex` makes of the group.
abbrev pub join_group : ℕ → Domain → Bool → ApexGroup → ApexGroup
join_group i d is_apex g =
    if is_apex
    then record {
      apex = g.apex;
      members = g.members ++ i ∷ [];
      fallback = prefer d.expiry_fallback g.fallback;
      apex_member = some i;
    }
    else record {
      apex = g.apex;
      members = g.members ++ i ∷ [];
      fallback = prefer g.fallback d.expiry_fallback;
      apex_member = g.apex_member;
    }

module _ (etld_plus_one : Text → Option Text) where
  -- The loop of `groupByApex`, from an index on.
  abbrev pub add_members : ℕ → ByApex → List Domain → ByApex
  add_members i by_apex [] = by_apex
  add_members i by_apex (d ∷ ds) =
      let apex = registrable_domain etld_plus_one d.name in
      add_members (suc i)
        (insert apex (join_group i d (equal_fold d.name apex) (group_of apex (lookup apex by_apex)))
          by_apex)
        ds

  -- `groupByApex`
  unfoldable pub group_by_apex : List Domain → List ApexGroup
  unfolding registrable_domain insert lookup sort_slice to_lower
  group_by_apex domains =
      sort_slice (on (λ (g : ApexGroup). g.apex) lt_text) (values (add_members 0 [] domains))

-- `dayDiff`
unfoldable pub day_diff : Time → Time → ℤ
day_diff a b = whole_days (sub (utc_midnight (utc b)) (utc_midnight (utc a)))

-- `absDayDiff`
abbrev pub abs_day_diff : Time → Time → ℤ
abs_day_diff a b = abs (day_diff a b)

-- What `processGroup` goes on with: the answer, or the fallback where the lookup failed, with the
-- time at that point.
abbrev pub resolved : Time → ApexGroup → DomainInfo → DomainInfo
resolved now g answer = elim answer.err [
  | none ↦ answer
  | some e ↦ elim g.fallback [
    | none ↦ answer
    | some t ↦ record {
      domain = g.apex;
      expires_at = t;
      source = codes "fallback";
      checked_at = utc now;
      err = none;
      is_apex = false;
      fallback_expected = zero_time;
    }
  ]
]

-- The date that the fallback disagrees with, or none: `mismatch`.
abbrev pub mismatched : ℤ → ApexGroup → DomainInfo → Option Time
mismatched tolerance g info = elim info.err [
  | some e ↦ none
  | none ↦ elim g.fallback [
    | none ↦ none
    | some t ↦ if lt_ℤ tolerance (abs_day_diff info.expires_at t) then some t else none
  ]
]

-- The index of the entry that stands for the group.
abbrev pub pick : Option ℕ → List ℕ → Option ℕ
pick (some i) members = some i
pick none [] = none
pick none (i ∷ is) = some i

abbrev pub representative : ApexGroup → Option ℕ
representative g = pick g.apex_member g.members

abbrev pub stands_for : ApexGroup → ℕ → Bool
stands_for g idx = elim (representative g) [ none ↦ false | some i ↦ idx == i ]

abbrev expected : Bool → Option Time → Time
expected false t = zero_time
expected true none = zero_time
expected true (some t) = t

-- The lookup by the apex, and the clock, as it is read for the group of an apex.
module _ (look_up : Text → DomainInfo) (clock : Text → Time) (tolerance : ℤ)
    (domains : List Domain) where
  -- The info of a member of a group.
  abbrev pub member_info : ApexGroup → ℕ → Text → DomainInfo
  member_info g idx name =
      let info = resolved (clock g.apex) g (look_up g.apex) in
      record info {
        domain = name;
        is_apex = stands_for g idx;
        fallback_expected = expected (stands_for g idx) (mismatched tolerance g info);
      }

  -- `out[idx] = info`
  abbrev pub write_member : ApexGroup → List DomainInfo → ℕ → List DomainInfo
  write_member g out idx = elim (get_elem? domains idx) [
    | none ↦ out
    | some d ↦ set out idx (member_info g idx d.name)
  ]

  abbrev pub write_members : ApexGroup → List ℕ → List DomainInfo → List DomainInfo
  write_members g [] out = out
  write_members g (idx ∷ is) out = write_members g is (write_member g out idx)

  -- `processGroup`
  unfoldable pub process_group : ApexGroup → List DomainInfo → List DomainInfo
  unfolding day_diff
  process_group g out = write_members g g.members out

  -- The workers, by the groups in the order in which they are done.
  abbrev pub process_all : List ApexGroup → List DomainInfo → List DomainInfo
  process_all [] out = out
  process_all (g ∷ gs) out = process_all gs (process_group g out)

-- `model.DomainInfo{}`
abbrev pub blank_info : DomainInfo
blank_info = record {
  domain = [];
  expires_at = zero_time;
  source = [];
  checked_at = zero_time;
  err = none;
  is_apex = false;
  fallback_expected = zero_time;
}

-- `Enrich`, where the context is not cancelled
unfoldable pub enrich :
    (Text → Option Text) → (Text → DomainInfo) → (Text → Time) → ℤ → List Domain → List DomainInfo
unfolding group_by_apex process_group
enrich etld_plus_one look_up clock tolerance domains =
    process_all look_up clock tolerance domains (group_by_apex etld_plus_one domains)
      (replicate (length domains) blank_info)
