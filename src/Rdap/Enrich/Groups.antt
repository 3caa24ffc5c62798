-- ===== src/Rdap/Enrich/Groups.antt =====
-- The groups of `groupByApex`: the members of each, and which member stands for it.
use auto_cert.Base.{
  ◌≡◌, refl, sym, ap, ◌∙◌, subst, ℕ, zero, suc, ◌+◌, Bool, true, false, Option, none, some, List,
  [], ◌∷◌, ◌++◌, ◌||◌, ◌&&◌, list_eq, nat_eq, if◌then◌else◌, ◌==◌, get_elem?, arith, Bool-cases,
  same_cases, inl, inr, ◌⊎◌, ◌<◌, eqb,
}
use auto_cert.Base.Text.{Text, equal_fold}
use auto_cert.Base.Dict.{lookup, lookup-nil, insert, lookup-insert_self, lookup-insert_ne}
use auto_cert.Model.{Domain}
use auto_cert.Rdap.Enrich.{
  ApexGroup, ByApex, registrable_domain, group_of, join_group, add_members, pick, representative,
}

-- The index is one of the list.
abbrev pub holds : List ℕ → ℕ → Bool
holds [] j = false
holds (i ∷ is) j = eqb i j || holds is j

holds-append : (is : List ℕ) (i j : ℕ) → holds (is ++ i ∷ []) j ≡ (holds is j || eqb i j)
holds-append [] i j = ground arith
holds-append (k ∷ is) i j = ground (arith, holds-append is i j)

module _ (etld_plus_one : Text → Option Text) where
  abbrev pub apex_of : Domain → Text
  apex_of d = registrable_domain etld_plus_one d.name

  -- The name at the index, counted from a start, has the registrable domain.
  abbrev pub at : Text → ℕ → List Domain → ℕ → Bool
  at a i [] j = false
  at a i (d ∷ ds) j = (eqb i j && apex_of d == a) || at a (suc i) ds j

  abbrev pub apex_is : Text → Option Domain → Bool
  apex_is a none = false
  apex_is a (some d) = apex_of d == a

  at-before : (a : Text) (i : ℕ) (ds : List Domain) (k : ℕ) → k < i → at a i ds k ≡ false
  at-before a i [] k h = refl
  at-before a i (d ∷ ds) k h = ground (arith, at-before a (suc i) ds k (omega arith))

  at-get_elem :
      (a : Text) (i : ℕ) (ds : List Domain) (j k : ℕ)
      → k ≡ i + j
      → at a i ds k ≡ apex_is a (get_elem? ds j)
  at-get_elem a i [] j k h = refl
  at-get_elem a i (d ∷ ds) zero k h = ground (arith, at-before a (suc i) ds k (omega arith))
  at-get_elem a i (d ∷ ds) (suc j) k h = ground (arith, at-get_elem a (suc i) ds j k (omega arith))

  -- The group of one registrable domain, as the loop fills it.
  abbrev extend : Text → ℕ → Option ApexGroup → List Domain → Option ApexGroup
  extend a i o [] = o
  extend a i o (d ∷ ds) =
      extend a (suc i)
        (if apex_of d == a then some (join_group i d (equal_fold d.name a) (group_of a o)) else o)
        ds

  abbrev joined : Text → ℕ → Domain → ByApex → ApexGroup
  joined b i d m = join_group i d (equal_fold d.name b) (group_of b (lookup b m))

  lookup-insert_at :
      (a b : Text)
      → b ≡ a
      → (i : ℕ) (d : Domain) (m : ByApex)
      → lookup a (insert b (joined b i d m) m) ≡ some (joined a i d m)
  lookup-insert_at a b same i d m =
      subst (λ c. lookup c (insert b (joined b i d m) m) ≡ some (joined c i d m)) same
        (lookup-insert_self b (joined b i d m) m)

  lookup-add_members :
      (a : Text) (i : ℕ) (m : ByApex) (ds : List Domain)
      → lookup a (add_members etld_plus_one i m ds) ≡ extend a i (lookup a m) ds
  lookup-add_members a i m [] = refl
  lookup-add_members a i m (d ∷ ds) = elim (same_cases (apex_of d) a) [
    | inl (h, same) ↦
        lookup-add_members a (suc i) _ ds
        ∙ ap (λ o. extend a (suc i) o ds) (lookup-insert_at a (apex_of d) same i d m ∙ rw h refl)
    | inr (h, other) ↦
        lookup-add_members a (suc i) _ ds
        ∙ ap (λ o. extend a (suc i) o ds)
            (lookup-insert_ne (joined (apex_of d) i d m) m (λ e. other (sym e)) ∙ rw h refl)
  ]

  -- What a group says about the entries with its registrable domain.
  pub record IsGroup (a : Text) (p : ℕ → Bool) (g : ApexGroup) : Type 0 where
    pub apex_is : g.apex ≡ a
    pub members_are : (j : ℕ) → holds g.members j ≡ p j
    pub chosen : ℕ
    pub stands : representative g ≡ some chosen
    pub chosen_in : p chosen ≡ true

  abbrev pub Fits : Text → (ℕ → Bool) → Option ApexGroup → Type 0
  Fits a p none = (j : ℕ) → p j ≡ false
  Fits a p (some g) = IsGroup a p g

  pick-append :
      (m : Option ℕ) (is : List ℕ) (i : ℕ) {r : ℕ}
      → pick m is ≡ some r
      → pick m (is ++ i ∷ []) ≡ some r
  pick-append (some k) is i h = h
  pick-append none [] i h = cc
  pick-append none (k ∷ is) i h = h

  rep-join :
      (g : ApexGroup) (i : ℕ) (d : Domain) (b : Bool) {r : ℕ}
      → representative g ≡ some r
      → (representative (join_group i d b g) ≡ some i)
        ⊎ (representative (join_group i d b g) ≡ some r)
  rep-join g i d true h = inl refl
  rep-join g i d false h = inr (pick-append g.apex_member g.members i h)

  -- Either half of a `join_group` lists the same members.
  pub members-join :
      (g : ApexGroup) (i : ℕ) (d : Domain) (b : Bool)
      → ((join_group i d b g).members ≡ g.members ++ i ∷ []) × ((join_group i d b g).apex ≡ g.apex)
  members-join g i d true = (refl, refl)
  members-join g i d false = (refl, refl)

  rep-new :
      (a : Text) (i : ℕ) (d : Domain) (b : Bool)
      → representative (join_group i d b (group_of a none)) ≡ some i
  rep-new a i d true = refl
  rep-new a i d false = refl

  join-Fits :
      (a : Text) (p q : ℕ → Bool) (o : Option ApexGroup) (i : ℕ) (d : Domain) (b : Bool)
      → ((j : ℕ) → q j ≡ (p j || eqb i j))
      → Fits a p o
      → IsGroup a q (join_group i d b (group_of a o))
  join-Fits a p q none i d b e f =
      let (same, apex_same) = members-join (group_of a none) i d b in
      record {
        apex_is = apex_same;
        members_are = λ j. ap (λ is. holds is j) same ∙ ground (arith, e j, f j);
        chosen = i;
        stands = rep-new a i d b;
        chosen_in = ground (arith, e i);
      }
  join-Fits a p q (some g) i d b e f =
      let (same, apex_same) = members-join g i d b in
      let members = λ (j : ℕ).
        ap (λ is. holds is j) same
        ∙ holds-append g.members i j
        ∙ ap (λ c. c || eqb i j) (f.members_are j)
        ∙ sym (e j) in
      elim (rep-join g i d b f.stands) [
        | inl new ↦ record {
          apex_is = apex_same ∙ f.apex_is;
          members_are = members;
          chosen = i;
          stands = new;
          chosen_in = ground (arith, e i);
        }
        | inr old ↦ record {
          apex_is = apex_same ∙ f.apex_is;
          members_are = members;
          chosen = f.chosen;
          stands = old;
          chosen_in = e f.chosen ∙ rw f.chosen_in;
        }
      ]

  Fits-ext :
      (a : Text) (p q : ℕ → Bool) (o : Option ApexGroup)
      → ((j : ℕ) → q j ≡ p j)
      → Fits a p o
      → Fits a q o
  Fits-ext a p q none e f = λ j. e j ∙ f j
  Fits-ext a p q (some g) e f = record {
    apex_is = f.apex_is;
    members_are = λ j. f.members_are j ∙ sym (e j);
    chosen = f.chosen;
    stands = f.stands;
    chosen_in = e f.chosen ∙ f.chosen_in;
  }

  extend-Fits :
      (a : Text) (i : ℕ) (ds : List Domain) (p q : ℕ → Bool) (o : Option ApexGroup)
      → ((j : ℕ) → q j ≡ (p j || at a i ds j))
      → Fits a p o
      → Fits a q (extend a i o ds)
  extend-Fits a i [] p q o e f = Fits-ext a p q o (λ j. ground (arith, e j)) f
  extend-Fits a i (d ∷ ds) p q o e f = elim (Bool-cases (apex_of d == a)) [
    | inl h ↦ rw h (
        extend-Fits a (suc i) ds (λ j. p j || eqb i j) q
          (some (join_group i d (equal_fold d.name a) (group_of a o))) (λ j. ground (arith, e j))
          (join-Fits a p (λ j. p j || eqb i j) o i d (equal_fold d.name a) (λ j. refl) f))
    | inr h ↦ rw h (extend-Fits a (suc i) ds p q o (λ j. ground (arith, e j)) f)
  ]

  -- What the map of `groupByApex` holds under a registrable domain: nothing if no name has it, else
  -- a group whose members are the names that have it, of which one stands for the group.
  pub group-Fits :
      (a : Text) (domains : List Domain)
      → Fits a
          (λ j. apex_is a (get_elem? domains j))
          (lookup a (add_members etld_plus_one 0 [] domains))
  group-Fits a domains =
      subst (Fits a (λ j. apex_is a (get_elem? domains j)))
        (sym (lookup-add_members a 0 [] domains))
        (extend-Fits a 0 domains (λ j. false) (λ j. apex_is a (get_elem? domains j)) (lookup a [])
          (λ j. sym (at-get_elem a 0 domains j j (omega arith)))
          (subst (Fits a (λ j. false)) (sym (lookup-nil a)) (λ j. refl)))
