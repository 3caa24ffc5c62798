-- ===== src/Base/Text/Laws.antt =====
-- Laws of the text functions: joining by a separator, and printing numbers.
use auto_cert.Base.Equality.{nat_eq, list_eq}
use auto_cert.Base.Int.{ℤ, pos, negsuc}
use auto_cert.Base.Text.{Text, contains, digits, format_nat, format_int, lower, to_lower}
use Prim.Native.Nat.{ℕ, zero, suc, ◌+◌, ◌-◌, ◌*◌, ◌/◌, ◌%◌, ◌<◌}
use mathlib.Core.Path.{◌≡◌, refl, ap, ap₂, sym, ◌∙◌}
use mathlib.Core.Bool.{true, false, ◌||◌}
use mathlib.Core.List.{[], ◌∷◌, ◌++◌}
use native.Mathlib.Omega.{arith}

pub contains-append : (s t : Text) (c : ℕ) → contains (s ++ t) c ≡ (contains s c || contains t c)
contains-append [] t c = refl
contains-append (x ∷ s) t c = ground (arith, contains-append s t c)

pub contains-middle : (s t : Text) (c : ℕ) → contains (s ++ c ∷ t) c ≡ true
contains-middle [] t c = ground arith
contains-middle (x ∷ s) t c = ground (arith, contains-middle s t c)

-- A text splits in one way at the last separator.
pub split_last_inj :
    (s s' t t' : Text) (c : ℕ)
    → contains t c ≡ false
    → contains t' c ≡ false
    → s ++ c ∷ t ≡ s' ++ c ∷ t'
    → (s ≡ s') × (t ≡ t')
split_last_inj [] [] t t' c h h' e = (refl, cc)
split_last_inj [] (y ∷ s') t t' c h h' e = absurd (ground (arith, contains-middle s' t' c))
split_last_inj (x ∷ s) [] t t' c h h' e = absurd (ground (arith, contains-middle s t c))
split_last_inj (x ∷ s) (y ∷ s') t t' c h h' e = ground (arith, split_last_inj s s' t t' c h h')

-- The number that decimal digits stand for.
value : ℕ → Text → ℕ
value acc [] = acc
value acc (d ∷ s) = value (acc * 10 + (d - b'0')) s

value-append : (acc : ℕ) (s t : Text) → value acc (s ++ t) ≡ value (value acc s) t
unfolding value
value-append acc [] t = refl
value-append acc (d ∷ s) t = value-append (acc * 10 + (d - b'0')) s t

value-digits : (f n : ℕ) → n < f → value 0 (digits f n) ≡ n
unfolding digits value
value-digits zero n h = elim h [ ]
value-digits (suc f) n h =
    ground
      (arith, value-append 0 (digits f (n / 10)) ((b'0' + n % 10) ∷ []), value-digits f (n / 10))

-- Digits are neither a sign nor a separator.
contains-digits : (f n c : ℕ) → c < b'0' → contains (digits f n) c ≡ false
unfolding digits
contains-digits zero n c h = refl
contains-digits (suc f) n c h = ground (
  arith,
  contains-digits f (n / 10) c,
  contains-append (digits f (n / 10)) ((b'0' + n % 10) ∷ []) c,
)

contains-digits_high : (f n c : ℕ) → b'9' < c → contains (digits f n) c ≡ false
unfolding digits
contains-digits_high zero n c h = refl
contains-digits_high (suc f) n c h = ground (
  arith,
  contains-digits_high f (n / 10) c,
  contains-append (digits f (n / 10)) ((b'0' + n % 10) ∷ []) c,
)

-- No character behind the digits stands in a printed number.
pub contains-format_nat_high : (n c : ℕ) → b'9' < c → contains (format_nat n) c ≡ false
unfolding format_nat
contains-format_nat_high n c h = contains-digits_high (suc n) n c h

format_nat-inj : (m n : ℕ) → format_nat m ≡ format_nat n → m ≡ n
unfolding format_nat
format_nat-inj m n e =
    sym (value-digits (suc m) m (omega arith))
    ∙ ap (value 0) e
    ∙ value-digits (suc n) n (omega arith)

-- No two integers print alike.
pub format_int-inj : (a b : ℤ) → format_int a ≡ format_int b → a ≡ b
unfolding format_int format_nat
format_int-inj (pos m) (pos n) e = ap pos (format_nat-inj m n e)
format_int-inj (pos m) (negsuc n) e =
    ground (arith, contains-digits (suc m) m b'-', ap (λ s. contains s b'-') e)
format_int-inj (negsuc m) (pos n) e =
    ground (arith, contains-digits (suc n) n b'-', ap (λ s. contains s b'-') e)
format_int-inj (negsuc m) (negsuc n) e = ground (arith, format_nat-inj (suc m) (suc n))

pub contains-format_int : (a : ℤ) → contains (format_int a) b'|' ≡ false
unfolding format_int format_nat
contains-format_int (pos n) = contains-digits_high (suc n) n b'|' (omega arith)
contains-format_int (negsuc n) = contains-digits_high (suc (suc n)) (suc n) b'|' (omega arith)

lower_idem : (c : ℕ) → lower (lower c) ≡ lower c
lower_idem c = ground arith

pub to_lower_idem : (s : Text) → to_lower (to_lower s) ≡ to_lower s
unfolding to_lower
to_lower_idem [] = refl
to_lower_idem (c ∷ s) = ap₂ ◌∷◌ (lower_idem c) (to_lower_idem s)
