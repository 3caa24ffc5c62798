-- ===== src/Notify/Mime/Reading.antt =====
-- A reader of multipart messages, and what it finds in those of `BuildMIME`.
use auto_cert.Base.{
  ◌≡◌, refl, ap, ◌∙◌, ℕ, zero, suc, ◌+◌, ◌≤◌, true, Option, none, some, List, [], ◌∷◌, ◌++◌,
  list_eq, nat_eq, if◌then◌else◌, arith, length, take, drop, take-drop, length-take_le,
  length-drop_le, All,
}
use auto_cert.Base.Text.{Text, codes, has_prefix}
use auto_cert.Base.Text.Find.{cut_at, is_clear, cut_at-append}
use auto_cert.Base.Members.{collect}
use auto_cert.Notify.Mime.{crlf, delimiter, behind, multipart, wrap_lines}

-- A part in front of the later ones.
abbrev put_first : Text → Option (List Text) → Option (List Text)
put_first p none = none
put_first p (some ps) = some (p ∷ ps)

-- The parts behind a delimiter, up to the mark of the end, in a number of rounds.
unfoldable pub read_behind : ℕ → Text → Text → Option (List Text)
unfolding cut_at has_prefix
read_behind zero boundary s = none
read_behind (suc n) boundary s =
    if has_prefix s (codes "--")
    then some []
    else if has_prefix s crlf
    then elim (cut_at (drop 2 s) (delimiter boundary)) [
      | none ↦ none
      | some (p, rest) ↦ put_first p (read_behind n boundary rest)
    ]
    else none

-- The parts of a multipart text, behind its first delimiter.
unfoldable pub read_parts : ℕ → Text → Text → Option (List Text)
unfolding read_behind cut_at
read_parts n boundary s = elim (cut_at (crlf ++ s) (delimiter boundary)) [
  | none ↦ none
  | some (preamble, rest) ↦ read_behind n boundary rest
]

-- The delimiter does not begin in a part.
abbrev pub IsClear : Text → Text → Type 0
IsClear boundary p = is_clear (delimiter boundary) p ≡ true

module _ (boundary : Text) where
  read_behind-behind :
      (n : ℕ) (parts : List Text)
      → length parts + 1 ≤ n
      → All (IsClear boundary) parts
      → read_behind n boundary (behind boundary parts) ≡ some parts
  unfolding read_behind has_prefix
  read_behind-behind zero parts h clear = absurd (omega arith)
  read_behind-behind (suc n) [] h clear = refl
  read_behind-behind (suc n) (p ∷ parts) h clear = rw (
    cut_at-append 13 (10 ∷ b'-' ∷ b'-' ∷ boundary) p (behind boundary parts) clear.0,
    read_behind-behind n parts (omega arith) clear.1,
  )

  -- A reader with enough rounds finds the parts that were written.
  pub read_parts-multipart :
      (n : ℕ) (parts : List Text)
      → length parts + 1 ≤ n
      → All (IsClear boundary) parts
      → read_parts n boundary (multipart boundary parts) ≡ some parts
  unfolding read_parts is_clear
  read_parts-multipart n parts h clear = rw (
    cut_at-append 13 (10 ∷ b'-' ∷ b'-' ∷ boundary) [] (behind boundary parts) refl,
    read_behind-behind n parts h clear,
  )

-- The lines hold the text, each of at most 76 characters.
pub wrap_lines-all :
    (n : ℕ) (s : Text) → length s ≤ n → collect (λ (l : Text). l) (wrap_lines n s) ≡ s
wrap_lines-all zero [] h = refl
wrap_lines-all zero (c ∷ s) h = absurd (omega arith)
wrap_lines-all (suc n) [] h = refl
wrap_lines-all (suc n) (c ∷ s) h =
    ap (λ l. take 76 (c ∷ s) ++ l)
      (wrap_lines-all n (drop 76 (c ∷ s)) (omega (arith, length-drop_le 75 s)))
    ∙ take-drop 76 (c ∷ s)

pub wrap_lines-short : (n : ℕ) (s : Text) → All (λ (l : Text). length l ≤ 76) (wrap_lines n s)
wrap_lines-short zero s = tt
wrap_lines-short (suc n) [] = tt
wrap_lines-short (suc n) (c ∷ s) = (length-take_le 76 (c ∷ s), wrap_lines-short n (drop 76 (c ∷ s)))
