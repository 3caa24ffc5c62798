-- ===== src/Discovery/Collector/Laws.antt =====
-- What the closures `add` collect: each name once, accepted, and none that was accepted is lost.
use mathlib.Core.List.{
  map-append, Mem, Nodup, Nodup-nil, Nodup-cons, Nodup-append, mem-append, mem-append_left,
  mem-append_right, mem-cons, mem-cons_self, not-mem-nil, mem-cast,
}
use mathlib.Core.Logic.Or
use mathlib.Core.Bool.{false≢true}
use native.Mathlib.Decide.{ℕ_discrete}
use mathlib.Core.HLevel.{¬_prop}
use auto_cert.Base.Sort.Laws.{Bool-eq_prop}
use auto_cert.Base.{
  ◌≡◌, ◌≢◌, sym, ◌∙◌, subst, Bool, true, false, List, [], ◌∷◌, ◌++◌, list_eq, nat_eq, inl, inr,
  Bool-cases, same_list_iff, same_false, same_cases, arith, ◌⊎◌,
}
use auto_cert.Base.Text.{Text}
use auto_cert.Discovery.Hosts.{normalize_host}
use auto_cert.Discovery.Collector.{
  Found, start, mentions, add_host, add_name, append_host, host_domain, names,
}

mentions_later :
    (n m : Text) (seen : List Text) → mentions seen m ≡ true → mentions (n ∷ seen) m ≡ true
mentions_later n m seen h = ground arith

mentions_first : (n m : Text) (seen : List Text) → n ≡ m → mentions (n ∷ seen) m ≡ true
mentions_first n m seen h = ground (arith, same_list_iff n m)

mentions_cons :
    (n m : Text) (seen : List Text)
    → mentions (n ∷ seen) m ≡ true
    → (n ≡ m) ⊎ (mentions seen m ≡ true)
mentions_cons n m seen h = ground (arith, same_list_iff n m)

Text-set : IsSet Text
Text-set = hlevel ℕ_discrete

Text-set-prop : {a b : Text} → IsProp (a ≡ b)
Text-set-prop {a} {b} = Text-set a b

module _ (accept : Text → Bool) (source : Text) where
  -- The names that are out are apart, accepted and not empty, and `seen` mentions exactly them.
  pub record IsClean (f : Found) : Type 0 where
    pub apart : Nodup (names f)
    pub accepted : (n : Text) → Mem n (names f) → accept n ≡ true
    pub not_empty : (n : Text) → Mem n (names f) → n ≢ []
    pub listed : (n : Text) → Mem n (names f) → mentions f.seen n ≡ true
    pub out_of_seen : (n : Text) → mentions f.seen n ≡ true → Mem n (names f)

  pub start-IsClean : IsClean start
  start-IsClean = record {
    apart = Nodup-nil;
    accepted = λ n m. absurd (not-mem-nil m);
    not_empty = λ n m. absurd (not-mem-nil m);
    listed = λ n m. absurd (not-mem-nil m);
    out_of_seen = λ n h. cc;
  }

  names-append : (n : Text) (f : Found) → names (append_host source n f) ≡ names f ++ n ∷ []
  names-append n f = map-append (λ d. d.name) f.out (host_domain source n ∷ [])

  mem-names-append :
      (n : Text) (f : Found) {m : Text}
      → Mem m (names (append_host source n f))
      → Mem m (names f ++ n ∷ [])
  mem-names-append n f {m} = subst (Mem m) (names-append n f)

  append-IsClean :
      (n : Text) (f : Found)
      → n ≢ []
      → accept n ≡ true
      → mentions f.seen n ≡ false
      → IsClean f
      → IsClean (append_host source n f)
  append-IsClean n f g a h c = record {
    apart = subst Nodup (sym (names-append n f)) (
        Nodup-append.1 (
          c.apart,
          Nodup-cons.1 (not-mem-nil, Nodup-nil),
          λ m at one. absurd (
              false≢true
                (sym h ∙ subst (λ i. mentions f.seen i ≡ true) (only one) (c.listed m at))),
        ));
    accepted = λ m at.
        Or.elim Bool-eq_prop (mem-append.0 (mem-names-append n f at)) (c.accepted m)
          (λ one. rw (only one) a);
    not_empty = λ m at.
        Or.elim ¬_prop (mem-append.0 (mem-names-append n f at)) (c.not_empty m)
          (λ one e. g (sym (only one) ∙ e));
    listed = λ m at.
        Or.elim Bool-eq_prop (mem-append.0 (mem-names-append n f at))
          (λ before. mentions_later n m f.seen (c.listed m before))
          (λ one. mentions_first n m f.seen (sym (only one)));
    out_of_seen = λ m at.
        subst (Mem m) (sym (names-append n f)) (elim (mentions_cons n m f.seen at) [
          | inl same ↦ mem-append_right (names f) (mem-cast (sym same) mem-cons_self)
          | inr later ↦ mem-append_left (n ∷ []) (c.out_of_seen m later)
        ]);
  }
    where
      only : {m : Text} → Mem m (n ∷ []) → m ≡ n
      only m = Or.elim Text-set-prop (mem-cons.0 m) (λ e. e) (λ none. absurd (not-mem-nil none))

  -- A name is skipped, or it is new and appended.
  add_name-cases :
      (n : Text) (f : Found)
      → (add_name accept source n f ≡ f)
        ⊎ ((n ≢ [])
            × (accept n ≡ true)
            × (mentions f.seen n ≡ false)
            × (add_name accept source n f ≡ append_host source n f))
  unfolding add_name
  add_name-cases n f = elim (same_cases n []) [
    | inl (at, _) ↦ inl (rw at)
    | inr (at, full) ↦ elim (Bool-cases (accept n)) [
      | inr out ↦ inl (rw at (rw out))
      | inl fits ↦ elim (Bool-cases (mentions f.seen n)) [
        | inl known ↦ inl (rw at (rw fits (rw known)))
        | inr new ↦ inr (full, fits, new, rw at (rw fits (rw new)))
      ]
    ]
  ]

  pub add_host-IsClean :
      (raw : Text) (f : Found) → IsClean f → IsClean (add_host accept source raw f)
  unfolding add_host
  add_host-IsClean raw f c = elim (add_name-cases (normalize_host raw) f) [
    | inl same ↦ subst IsClean (sym same) c
    | inr (full, fits, new, same) ↦
        subst IsClean (sym same) (append-IsClean (normalize_host raw) f full fits new c)
  ]

  -- What was found stays found.
  pub add_host-keeps :
      (raw : Text) (f : Found) {m : Text}
      → Mem m (names f)
      → Mem m (names (add_host accept source raw f))
  unfolding add_host
  add_host-keeps raw f {m} at = elim (add_name-cases (normalize_host raw) f) [
    | inl same ↦ subst (λ g. Mem m (names g)) (sym same) at
    | inr (_, _, _, same) ↦
        subst (λ g. Mem m (names g)) (sym same)
          (subst (Mem m) (sym (names-append (normalize_host raw) f))
            (mem-append_left (normalize_host raw ∷ []) at))
  ]

  -- An accepted name is found.
  pub add_host-finds :
      (raw : Text) (f : Found)
      → IsClean f
      → normalize_host raw ≢ []
      → accept (normalize_host raw) ≡ true
      → Mem (normalize_host raw) (names (add_host accept source raw f))
  unfolding add_host add_name
  add_host-finds raw f c full fits = elim (Bool-cases (mentions f.seen (normalize_host raw))) [
    | inl known ↦
        rw (same_false (normalize_host raw) [] full)
          (rw fits (rw known (c.out_of_seen (normalize_host raw) known)))
    | inr new ↦ rw (same_false (normalize_host raw) [] full) (
        rw fits (
          rw new (
            subst (Mem (normalize_host raw)) (sym (names-append (normalize_host raw) f))
              (mem-append_right (names f) mem-cons_self))))
  ]
