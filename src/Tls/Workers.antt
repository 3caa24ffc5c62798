-- ===== src/Tls/Workers.antt =====
-- The workers of `CheckAll` finish in any order; the result follows the domains.
use mathlib.Core.List.{map, Mem, Mem-prop, Perm, mem-cons, mem-cons_of_mem, not-mem-nil}
use mathlib.Core.List.Perm
use mathlib.Core.Logic.Or
use mathlib.Core.Option.{some-injective}
use native.Mathlib.Decide.{ℕ_discrete}
use auto_cert.Base.{
  ◌≡◌, refl, sym, ap, ◌∙◌, subst, ℕ, zero, suc, ◌+◌, ◌<◌, Option, some, List, [], ◌∷◌, arith, inl,
  inr, length, get_elem?, set, replicate, length-replicate, length-map, length-set,
  get_elem?-set_same, get_elem?-set_other, get_elem?-lt, lt-get_elem?, ltb, false, get_elem?-ext,
  get_elem?-map, same_cases, nat_eq,
}
use auto_cert.Base.Sort.Laws.{Bool-eq_prop}
use auto_cert.Model.{Domain, CertInfo}
use auto_cert.Time.{Time}
use auto_cert.Tls.{Network, Job, jobs_from, work, check, check_all, blank_cert}

Time-discrete : Discrete Time
Time-discrete = hlevel ℕ_discrete

Domain-set : IsSet Domain
Domain-set = hlevel

Found-set : IsSet (Option Domain)
Found-set = hlevel

job-low :
    (k : ℕ) (ds : List Domain) {i : ℕ} {e : Domain} → Mem (i, e) (jobs_from k ds) → ltb i k ≡ false
job-low k [] m = absurd (not-mem-nil m)
job-low k (d ∷ ds) {i} m =
    Or.elim Bool-eq_prop (mem-cons.0 m)
      (λ here. let same : i ≡ k = ap (λ p. p.0) here in ground (arith, same))
      (λ later. let low = job-low (suc k) ds later in ground (arith, low))

job-entry :
    (k : ℕ) (ds : List Domain) {i : ℕ} {e : Domain} (m : ℕ)
    → Mem (i, e) (jobs_from k ds)
    → i ≡ k + m
    → get_elem? ds m ≡ some e
job-entry k [] m at h = absurd (not-mem-nil at)
job-entry k (d ∷ ds) {i} {e} zero at h =
    Or.elim (Found-set (some d) (some e)) (mem-cons.0 at) (λ here. ap (λ p. some p.1) (sym here))
      (λ later. let low = job-low (suc k) ds later in absurd (ground (arith, low)))
job-entry k (d ∷ ds) {i} {e} (suc m) at h =
    Or.elim (Found-set (get_elem? ds m) (some e)) (mem-cons.0 at)
      (λ here. let same : i ≡ k = ap (λ p. p.0) here in absurd (omega (arith, same)))
      (λ later. job-entry (suc k) ds m later (omega arith))

entry-job :
    (k : ℕ) (ds : List Domain) (m i : ℕ) {d : Domain}
    → i ≡ k + m
    → get_elem? ds m ≡ some d
    → Mem (i, d) (jobs_from k ds)
entry-job k [] m i e h = cc
entry-job k (c ∷ ds) zero i {d} e h =
    let at : i ≡ k = omega arith in
    mem-cons.1 (Or.inl (ap (λ n. (n, d)) at ∙ ap (λ x. (k, x)) (sym (some-injective c d h))))
entry-job k (c ∷ ds) (suc m) i e h =
    mem-cons_of_mem (k, c) (entry-job (suc k) ds m i (omega arith) h)

module _ (run : ℕ → Domain → CertInfo) where
  length-work : (order : List Job) (out : List CertInfo) → length (work run order out) ≡ length out
  length-work [] out = refl
  length-work ((i, d) ∷ order) out =
      length-work order (set out i (run i d)) ∙ length-set out i (run i d)

  module _ (j : ℕ) (d : Domain) where
    -- Every job at the index is for the domain.
    abbrev Only : List Job → Type 0
    Only order = (e : Domain) → Mem (j, e) order → e ≡ d

    work-kept :
        (order : List Job) (out : List CertInfo)
        → Only order
        → j < length out
        → get_elem? out j ≡ some (run j d)
        → get_elem? (work run order out) j ≡ some (run j d)
    work-kept [] out only l h = h
    work-kept ((i, e) ∷ order) out only l h =
        work-kept order (set out i (run i e)) (λ x m. only x (mem-cons_of_mem (i, e) m))
          (rw (length-set out i (run i e)) l)
          (elim (same_cases i j) [
            | inl (_, same) ↦
                subst (λ k. get_elem? (set out k (run k e)) j ≡ some (run j d)) (sym same)
                  (get_elem?-set_same out j (run j e) l
                    ∙ ap (λ x. some (run j x))
                        (only e (mem-cons.1 (Or.inl (ap (λ k. (k, e)) (sym same))))))
            | inr (_, other) ↦ get_elem?-set_other out i j (run i e) other ∙ h
          ])

    work-owner :
        (order : List Job) (out : List CertInfo)
        → Only order
        → j < length out
        → Mem (j, d) order
        → get_elem? (work run order out) j ≡ some (run j d)
    work-owner [] out only l m = absurd (not-mem-nil m)
    work-owner ((i, e) ∷ order) out only l m =
        let rest = λ (x : Domain) (at : Mem (j, x) order). only x (mem-cons_of_mem (i, e) at) in
        let l' : j < length (set out i (run i e)) = rw (length-set out i (run i e)) l in
        elim (same_cases i j) [
          | inl (_, same) ↦ work-kept order (set out i (run i e)) rest l' (
              subst (λ k. get_elem? (set out k (run k e)) j ≡ some (run j d)) (sym same)
                (get_elem?-set_same out j (run j e) l
                  ∙ ap (λ x. some (run j x))
                      (only e (mem-cons.1 (Or.inl (ap (λ k. (k, e)) (sym same)))))))
          | inr (_, other) ↦ work-owner order (set out i (run i e)) rest l' (
              Or.elim Mem-prop (mem-cons.0 m) (λ here. absurd (other (sym (ap (λ p. p.0) here))))
                (λ later. later))
        ]

length-jobs_from : (k : ℕ) (ds : List Domain) → length (jobs_from k ds) ≡ length ds
length-jobs_from k [] = refl
length-jobs_from k (d ∷ ds) = ap suc (length-jobs_from (suc k) ds)

get_elem?-jobs_from :
    (k : ℕ) (ds : List Domain) (m i : ℕ) {d : Domain}
    → i ≡ k + m
    → get_elem? ds m ≡ some d
    → get_elem? (jobs_from k ds) m ≡ some (i, d)
get_elem?-jobs_from k [] m i e h = cc
get_elem?-jobs_from k (c ∷ ds) zero i {d} e h =
    let at : k ≡ i = omega arith in
    ap (λ n. some (n, c)) at ∙ ap (λ x. some (i, x)) (some-injective c d h)
get_elem?-jobs_from k (c ∷ ds) (suc m) i e h = get_elem?-jobs_from (suc k) ds m i (omega arith) h

-- In whatever order the jobs are done, each domain's certificate, with the time at which it was
-- checked, stands at the domain's place.
pub check_all_order :
    (net : Network) (clock : ℕ → Time) (domains : List Domain) (order : List Job)
    → Perm order (jobs_from 0 domains)
    → check_all net clock domains order
      ≡ map (λ (j : Job). check net (clock j.0) j.1.name j.1.port) (jobs_from 0 domains)
unfolding check_all
check_all_order net clock domains order p =
    let run = λ (i : ℕ) (d : Domain). check net (clock i) d.name d.port in
    let run_job = λ (j : Job). run j.0 j.1 in
    let jobs = jobs_from 0 domains in
    let out = replicate (length domains) blank_cert in
    let same : length (work run order out) ≡ length domains =
      length-work run order out ∙ length-replicate (length domains) blank_cert in
    get_elem?-ext (work run order out) (map run_job jobs)
      (same ∙ sym (length-map run_job jobs ∙ length-jobs_from 0 domains))
      (λ i within.
        let (d, named) = lt-get_elem? domains i (subst (λ n. i < n) same within) in
        work-owner run i d order out
          (λ e m.
            some-injective e d
              (sym (job-entry 0 domains i (Perm.subset p (i, e) m) (omega arith)) ∙ named))
          (rw (length-replicate (length domains) blank_cert) (get_elem?-lt domains i named))
          (Perm.subset (Perm.symm p) (i, d) (entry-job 0 domains i i (omega arith) named))
        ∙ sym
            (get_elem?-map run_job jobs i (get_elem?-jobs_from 0 domains i i (omega arith) named)))
