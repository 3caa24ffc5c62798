-- ===== src/Rdap/Client/Endpoint.antt =====
-- `endpointFor`: the endpoint is that of the longest suffix that has one.
use mathlib.Core.List.{append_assoc}
use auto_cert.Base.{
  ◌≡◌, ◌≢◌, refl, sym, ap, ◌∙◌, subst, ◌<◌, ◌≤◌, Option, none, some, List, [], ◌∷◌, ◌++◌, list_eq,
  nat_eq, arith, ◌⊎◌, inl, inr, Option-cases, All, length, length-append, same_cases, same_false,
}
use auto_cert.Base.Text.{Text, codes, split, join}
use auto_cert.Base.Text.Split.{Lacks, split-Lacks, split-nonempty, join-split}
use auto_cert.Base.Dict.{lookup}
use auto_cert.Base.Result.{Result, ok, err}
use auto_cert.Rdap.Client.{Endpoints, find_suffix, bare, endpoint_for, or_no_endpoint}

-- A suffix that begins with a label: the whole, or what follows a dot.
abbrev pub IsSuffixAt : Text → Text → Type 0
IsSuffixAt d s = (d ≡ s) ⊎ ((p : Text) × (d ≡ p ++ b'.' ∷ s))

-- The endpoint of the longest suffix that has one.
pub record LongestMatch (m : Endpoints) (d ep : Text) : Type 0 where
  pub suffix : Text
  pub at : IsSuffixAt d suffix
  pub found : lookup suffix m ≡ some ep
  pub longest : (s : Text) → IsSuffixAt d s → length suffix < length s → lookup s m ≡ none

abbrev pub NoMatch : Endpoints → Text → Type 0
NoMatch m d = (s : Text) → IsSuffixAt d s → lookup s m ≡ none

first_dot : (l p r s : Text) → Lacks b'.' l → l ++ b'.' ∷ r ≡ p ++ b'.' ∷ s → IsSuffixAt r s
first_dot [] [] r s h e = inl cc
first_dot [] (y ∷ p) r s h e = inr (p, cc)
first_dot (x ∷ l) [] r s h e = absurd (ground arith)
first_dot (x ∷ l) (y ∷ p) r s h e = first_dot l p r s (ground arith) cc

-- A text with no dot has no other suffix than itself.
one_label : (l p s : Text) → Lacks b'.' l → l ≢ p ++ b'.' ∷ s
one_label [] [] s h e = cc
one_label [] (y ∷ p) s h e = cc
one_label (x ∷ l) [] s h e = ground arith
one_label (x ∷ l) (y ∷ p) s h e = one_label l p s (ground arith) cc

suffix-le : (d s : Text) → IsSuffixAt d s → length s ≤ length d
suffix-le d s (inl e) = omega (arith, ap length e)
suffix-le d s (inr (p, e)) = omega (arith, ap length e, length-append p (b'.' ∷ s))

abbrev dotted : List Text → Text
dotted ls = join ls (codes ".")

dotted-cons : (l k : Text) (ls : List Text) → dotted (l ∷ k ∷ ls) ≡ l ++ b'.' ∷ dotted (k ∷ ls)
unfolding join
dotted-cons l k ls = append_assoc l (codes ".") (dotted (k ∷ ls))

dotted-one : (l : Text) → dotted (l ∷ []) ≡ l
unfolding join
dotted-one l = refl

-- A suffix of several labels is the whole, or a suffix without the first.
suffix-cons :
    (l k : Text) (ls : List Text) (s : Text)
    → Lacks b'.' l
    → IsSuffixAt (dotted (l ∷ k ∷ ls)) s
    → (dotted (l ∷ k ∷ ls) ≡ s) ⊎ IsSuffixAt (dotted (k ∷ ls)) s
suffix-cons l k ls s h (inl e) = inl e
suffix-cons l k ls s h (inr (p, e)) =
    inr (first_dot l p (dotted (k ∷ ls)) s h (sym (dotted-cons l k ls) ∙ e))

drop_label : (l d s : Text) → IsSuffixAt d s → IsSuffixAt (l ++ b'.' ∷ d) s
drop_label l d s (inl e) = inr (l, ap (λ t. l ++ b'.' ∷ t) e)
drop_label l d s (inr (p, e)) =
    inr (l ++ b'.' ∷ p, ap (λ t. l ++ b'.' ∷ t) e ∙ sym (append_assoc l (b'.' ∷ p) (b'.' ∷ s)))

module _ (m : Endpoints) where
  abbrev Found : Text → Option Text → Type 0
  Found d none = NoMatch m d
  Found d (some ep) = LongestMatch m d ep

  whole_match : (d ep : Text) → lookup d m ≡ some ep → LongestMatch m d ep
  whole_match d ep h = record {
    suffix = d;
    at = inl refl;
    found = h;
    longest = λ s at lt. absurd (omega (arith, suffix-le d s at));
  }

  later_found :
      (l k : Text) (ls : List Text) (o : Option Text)
      → Lacks b'.' l
      → lookup (dotted (l ∷ k ∷ ls)) m ≡ none
      → Found (dotted (k ∷ ls)) o
      → Found (dotted (l ∷ k ∷ ls)) o
  later_found l k ls none h absent f = λ s at. elim (suffix-cons l k ls s h at) [
    | inl e ↦ subst (λ t. lookup t m ≡ none) e absent
    | inr later ↦ f s later
  ]
  later_found l k ls (some ep) h absent f = record {
    suffix = f.suffix;
    at =
        subst (λ t. IsSuffixAt t f.suffix) (sym (dotted-cons l k ls))
          (drop_label l (dotted (k ∷ ls)) f.suffix f.at);
    found = f.found;
    longest = λ s at lt. elim (suffix-cons l k ls s h at) [
      | inl e ↦ subst (λ t. lookup t m ≡ none) e absent
      | inr later ↦ f.longest s later lt
    ];
  }

  find_suffix-hit :
      (l : Text) (ls : List Text) {ep : Text}
      → lookup (dotted (l ∷ ls)) m ≡ some ep
      → find_suffix m (l ∷ ls) ≡ some ep
  find_suffix-hit l ls h = rw (h, find_suffix)

  find_suffix-miss :
      (l : Text) (ls : List Text)
      → lookup (dotted (l ∷ ls)) m ≡ none
      → find_suffix m (l ∷ ls) ≡ find_suffix m ls
  find_suffix-miss l ls h = rw (h, find_suffix)

  none_found :
      (l s : Text)
      → Lacks b'.' l
      → lookup (dotted (l ∷ [])) m ≡ none
      → IsSuffixAt (dotted (l ∷ [])) s
      → lookup s m ≡ none
  none_found l s h absent (inl e) = subst (λ t. lookup t m ≡ none) e absent
  none_found l s h absent (inr (p, e)) = absurd (one_label l p s h (sym (dotted-one l) ∙ e))

  find_suffix-Found :
      (l : Text) (ls : List Text)
      → All (Lacks b'.') (l ∷ ls)
      → Found (dotted (l ∷ ls)) (find_suffix m (l ∷ ls))
  find_suffix-Found l [] h = elim (Option-cases (lookup (dotted (l ∷ [])) m)) [
    | inr (ep, e) ↦
        subst (Found (dotted (l ∷ []))) (sym (find_suffix-hit l [] e))
          (whole_match (dotted (l ∷ [])) ep e)
    | inl e ↦
        subst (Found (dotted (l ∷ []))) (sym (find_suffix-miss l [] e))
          (λ s at. none_found l s h.0 e at)
  ]
  find_suffix-Found l (k ∷ ls) h = elim (Option-cases (lookup (dotted (l ∷ k ∷ ls)) m)) [
    | inr (ep, e) ↦
        subst (Found (dotted (l ∷ k ∷ ls))) (sym (find_suffix-hit l (k ∷ ls) e))
          (whole_match (dotted (l ∷ k ∷ ls)) ep e)
    | inl e ↦
        subst (Found (dotted (l ∷ k ∷ ls))) (sym (find_suffix-miss l (k ∷ ls) e))
          (later_found l k ls (find_suffix m (k ∷ ls)) h.0 e (find_suffix-Found k ls h.1))
  ]

  split-Found : (d : Text) → Found d (find_suffix m (split d b'.'))
  split-Found d =
      let (l, ls, e) = split-nonempty b'.' d in
      subst (λ t. Found t (find_suffix m (split d b'.'))) (join-split b'.' d)
        (subst (λ parts. Found (dotted parts) (find_suffix m parts)) (sym e)
          (find_suffix-Found l ls (subst (All (Lacks b'.')) e (split-Lacks b'.' d))))

  -- The domain is empty, or nothing is known of it, or the endpoint is that of its longest suffix
  -- that has one.
  abbrev pub Resolved : Text → Result Text → Type 0
  Resolved domain (ok ep) = (bare domain ≢ []) × LongestMatch m (bare domain) ep
  Resolved domain (err e) = (bare domain ≡ []) ⊎ NoMatch m (bare domain)

  or_no_endpoint-Resolved :
      (domain : Text) (o : Option Text)
      → bare domain ≢ []
      → Found (bare domain) o
      → Resolved domain (or_no_endpoint domain o)
  or_no_endpoint-Resolved domain none h f = inr f
  or_no_endpoint-Resolved domain (some ep) h f = (h, f)

  endpoint_for-empty :
      (domain : Text) → bare domain ≡ [] → endpoint_for m domain ≡ err (codes "empty domain")
  unfolding endpoint_for
  endpoint_for-empty domain h = ground (arith, list_eq.agree_iff (bare domain) [])

  endpoint_for-split :
      (domain : Text)
      → bare domain ≢ []
      → endpoint_for m domain ≡ or_no_endpoint domain (find_suffix m (split (bare domain) b'.'))
  unfolding endpoint_for
  endpoint_for-split domain h = rw (same_false (bare domain) [] h)

  -- If `endpointFor` answers, the endpoint is that of the longest suffix of the domain, cut at its
  -- dots, that has one; if it fails, the domain is empty or none of its suffixes has an endpoint.
  pub endpoint_for_longest : (domain : Text) → Resolved domain (endpoint_for m domain)
  endpoint_for_longest domain = elim (same_cases (bare domain) []) [
    | inl (_, h) ↦ subst (Resolved domain) (sym (endpoint_for-empty domain h)) (inl h)
    | inr (_, h) ↦ subst (Resolved domain) (sym (endpoint_for-split domain h)) (
        or_no_endpoint-Resolved domain (find_suffix m (split (bare domain) b'.')) h
          (split-Found (bare domain)))
  ]
