-- ===== src/Tests/Codecs.antt =====
-- A codec that knows one list: a concrete stand-in for encoding/json.
use mathlib.Core.List.{map}
use auto_cert.Base.{
  ◌≡◌, refl, sym, ap, ◌∙◌, ◌≢◌, Bool, true, false, List, [], ◌∷◌, ◌==◌, Eq, list_eq, eq_of_same,
  Bool-cases, inl, inr, if◌then◌else◌, nat_eq,
}
use auto_cert.Base.Text.{Text, codes}
use auto_cert.Base.Codec.{Codec, IsFaithful}
use auto_cert.Base.Result.{ok, err, ok-injective, ok-ne-err}

module _ {A P : Type 0} ⦃e : Eq P⦄ (parts : A → P) (of_parts : P → A)
    (inverse : (a : A) → of_parts (parts a) ≡ a) (known : List A) where
  of_parts-parts : (rs : List A) → map of_parts (map parts rs) ≡ rs
  of_parts-parts [] = refl
  of_parts-parts (r ∷ rs) =
      ap (λ a. a ∷ map of_parts (map parts rs)) (inverse r) ∙ ap (λ l. r ∷ l) (of_parts-parts rs)

  abbrev same_items : List A → Bool
  same_items rs = map parts rs == map parts known

  abbrev pub one_list : Codec (List A)
  one_list = record {
    marshal = λ rs. if same_items rs then ok (codes "[...]") else err (codes "unknown");
    unmarshal = λ t. ok known;
  }

  same_items-eq : (rs : List A) → same_items rs ≡ true → known ≡ rs
  same_items-eq rs h =
      sym (of_parts-parts known)
      ∙ ap (map of_parts) (sym (eq_of_same (map parts rs) (map parts known) h))
      ∙ of_parts-parts rs

  unknown : (rs : List A) → same_items rs ≡ false → one_list.marshal rs ≡ err (codes "unknown")
  unknown rs h = rw h

  one_list-marshal :
      (rs : List A) (t : Text)
      → one_list.marshal rs ≡ ok t
      → (same_items rs ≡ true) × (codes "[...]" ≡ t)
  one_list-marshal rs t h = elim (Bool-cases (same_items rs)) [
    | inl same ↦ (same, ok-injective (sym (rw same) ∙ h))
    | inr other ↦ absurd (ok-ne-err (sym h ∙ unknown rs other))
  ]

  pub one_list-IsFaithful : IsFaithful one_list
  one_list-IsFaithful = record {
    unmarshal-marshal = λ rs t h. ap ok (same_items-eq rs (one_list-marshal rs t h).0);
    not_empty = λ rs t h e. nil≢text (sym ((one_list-marshal rs t h).1 ∙ e));
  }
    where
      nil≢text : [] ≢ codes "[...]"
      nil≢text e = cc
