-- ===== src/Rdap/Enrich/Writes.antt =====
-- What the workers leave in the result of `Enrich`.
use mathlib.Core.List.{Mem, Mem-prop, mem-cons, mem-cons_self, mem-cons_of_mem, not-mem-nil}
use mathlib.Core.Logic.Or
use mathlib.Core.Bool.{false≢true}
use auto_cert.Base.{
  ◌≡◌, ◌≢◌, refl, sym, ap, ◌∙◌, subst, ℕ, ◌<◌, true, false, some, List, [], ◌∷◌, arith, inl, inr,
  length, get_elem?, length-set, get_elem?-set_same, get_elem?-set_other, Option-cases, Bool-cases,
  nat_eq,
}
use auto_cert.Base.Int.{ℤ}
use auto_cert.Base.Text.{Text}
use auto_cert.Model.{Domain, DomainInfo}
use auto_cert.Time.{Time}
use auto_cert.Rdap.Enrich.{
  ApexGroup, member_info, write_member, write_members, process_group, process_all,
}
use auto_cert.Rdap.Enrich.Groups.{holds}

module _ (look_up : Text → DomainInfo) (clock : Text → Time) (tolerance : ℤ)
    (domains : List Domain) where
  abbrev write : ApexGroup → List DomainInfo → ℕ → List DomainInfo
  write = write_member look_up clock tolerance domains

  abbrev writes : ApexGroup → List ℕ → List DomainInfo → List DomainInfo
  writes = write_members look_up clock tolerance domains

  abbrev info : ApexGroup → ℕ → Text → DomainInfo
  info = member_info look_up clock tolerance domains

  length-write :
      (g : ApexGroup) (out : List DomainInfo) (i : ℕ) → length (write g out i) ≡ length out
  length-write g out i = elim (Option-cases (get_elem? domains i)) [
    | inl h ↦ rw (h, write_member) refl
    | inr (d, h) ↦ rw (h, write_member) (length-set out i (info g i d.name))
  ]

  length-writes :
      (g : ApexGroup) (is : List ℕ) (out : List DomainInfo) → length (writes g is out) ≡ length out
  length-writes g [] out = refl
  length-writes g (i ∷ is) out = length-writes g is (write g out i) ∙ length-write g out i

  write-other :
      (g : ApexGroup) (out : List DomainInfo) (i j : ℕ)
      → i ≢ j
      → get_elem? (write g out i) j ≡ get_elem? out j
  write-other g out i j h = elim (Option-cases (get_elem? domains i)) [
    | inl e ↦ rw (e, write_member) refl
    | inr (d, e) ↦ rw (e, write_member) (get_elem?-set_other out i j (info g i d.name) h)
  ]

  writes-other :
      (g : ApexGroup) (is : List ℕ) (out : List DomainInfo) (j : ℕ)
      → holds is j ≡ false
      → get_elem? (writes g is out) j ≡ get_elem? out j
  writes-other g [] out j h = refl
  writes-other g (i ∷ is) out j h =
      writes-other g is (write g out i) j (ground arith) ∙ write-other g out i j (λ e. ground arith)

  module _ (j : ℕ) (d : Domain) (named : get_elem? domains j ≡ some d) where
    write_self :
        (g : ApexGroup) (out : List DomainInfo)
        → j < length out
        → get_elem? (write g out j) j ≡ some (info g j d.name)
    write_self g out h = rw (named, write_member) (get_elem?-set_same out j (info g j d.name) h)

    writes_self :
        (g : ApexGroup) (is : List ℕ) (out : List DomainInfo)
        → j < length out
        → holds is j ≡ true
        → get_elem? (writes g is out) j ≡ some (info g j d.name)
    writes_self g [] out l h = cc
    writes_self g (i ∷ is) out l h = elim (Bool-cases (holds is j)) [
      | inl later ↦ writes_self g is (write g out i) (rw (length-write g out i) l) later
      | inr here ↦
          let same : i ≡ j = ground arith in
          writes-other g is (write g out i) j here
          ∙ subst (λ k. get_elem? (write g out k) j ≡ some (info g j d.name)) (sym same)
              (write_self g out l)
    ]

    abbrev run : List ApexGroup → List DomainInfo → List DomainInfo
    run = process_all look_up clock tolerance domains

    module _ (g : ApexGroup) where
      -- No other group of the list lists the entry.
      abbrev Only : List ApexGroup → Type 0
      Only gs = (h : ApexGroup) → Mem h gs → holds h.members j ≡ true → h ≡ g

      process-owner :
          (h : ApexGroup) (out : List DomainInfo)
          → h ≡ g
          → holds h.members j ≡ true
          → j < length out
          → get_elem? (process_group look_up clock tolerance domains h out) j
            ≡ some (info g j d.name)
      unfolding process_group
      process-owner h out same own l =
          writes_self h h.members out l own ∙ ap (λ k. some (info k j d.name)) same

      length-process :
          (h : ApexGroup) (out : List DomainInfo)
          → length (process_group look_up clock tolerance domains h out) ≡ length out
      unfolding process_group
      length-process h out = length-writes h h.members out

      process-other :
          (h : ApexGroup) (out : List DomainInfo)
          → holds h.members j ≡ false
          → get_elem? (process_group look_up clock tolerance domains h out) j ≡ get_elem? out j
      unfolding process_group
      process-other h out other = writes-other h h.members out j other

      run-kept :
          (gs : List ApexGroup) (out : List DomainInfo)
          → Only gs
          → j < length out
          → get_elem? out j ≡ some (info g j d.name)
          → get_elem? (run gs out) j ≡ some (info g j d.name)
      run-kept [] out only l e = e
      run-kept (h ∷ gs) out only l e =
          let next = process_group look_up clock tolerance domains h out in
          run-kept gs next (λ k m. only k (mem-cons_of_mem h m)) (rw (length-process h out) l)
            (elim (Bool-cases (holds h.members j)) [
              | inl own ↦ process-owner h out (only h mem-cons_self own) own l
              | inr other ↦ process-other h out other ∙ e
            ])

      -- An entry that one group lists is written by that group, whenever the group is done.
      pub run-owner :
          (gs : List ApexGroup) (out : List DomainInfo)
          → holds g.members j ≡ true
          → Only gs
          → j < length out
          → Mem g gs
          → get_elem? (run gs out) j ≡ some (info g j d.name)
      run-owner [] out own only l m = absurd (not-mem-nil m)
      run-owner (h ∷ gs) out own only l m =
          let next = process_group look_up clock tolerance domains h out in
          let rest = λ (k : ApexGroup) (at : Mem k gs). only k (mem-cons_of_mem h at) in
          let l' : j < length next = rw (length-process h out) l in
          elim (Bool-cases (holds h.members j)) [
            | inl here ↦
                run-kept gs next rest l' (process-owner h out (only h mem-cons_self here) here l)
            | inr other ↦ run-owner gs next own rest l' (
                Or.elim Mem-prop (mem-cons.0 m)
                  (λ same.
                    absurd
                      (false≢true (sym other ∙ subst (λ k. holds k.members j ≡ true) same own)))
                  (λ later. later))
          ]

  pub length-run :
      (gs : List ApexGroup) (out : List DomainInfo)
      → length (process_all look_up clock tolerance domains gs out) ≡ length out
  unfolding process_group
  length-run [] out = refl
  length-run (g ∷ gs) out = length-run gs (writes g g.members out) ∙ length-writes g g.members out
