-- ===== src/Base/Sort/Order.antt =====
-- Comparison functions: what `sort.Slice` asks of `less`, and the comparisons the program writes.
use Prim.Native.Nat.{ℕ}
use mathlib.Core.Path.{◌≡◌, refl}
use mathlib.Core.Bool.{Bool, true, false}
use mathlib.Core.List.{List, [], ◌∷◌}
use native.Mathlib.Omega.{arith}
use auto_cert.Base.Tests.{ltb, if◌then◌else◌}
use auto_cert.Base.Equality.{Eq, ◌==◌, nat_eq}
use auto_cert.Base.Int.{ℤ, lt_ℤ, int_eq}

-- A strict weak order.
pub record IsWeakOrder {ℓ} {A : Type ℓ} (less : A → A → Bool) : Type ℓ where
  pub asymm : (a b : A) → less a b ≡ true → less b a ≡ false
  pub cotrans : (a b c : A) → less a b ≡ false → less b c ≡ false → less a c ≡ false

-- A strict total order: what is not apart is equal.
pub record IsTotalOrder {ℓ} {A : Type ℓ} (less : A → A → Bool) : Type ℓ where
  pub weak : IsWeakOrder less
  pub connected : (a b : A) → less a b ≡ false → less b a ≡ false → a ≡ b

pub ltb-IsTotalOrder : IsTotalOrder ltb
ltb-IsTotalOrder = record {
  weak = record { asymm = λ a b h. ground arith; cotrans = λ a b c h k. ground arith };
  connected = λ a b h k. ground arith;
}

lt_ℤ-connected : (a b : ℤ) → lt_ℤ a b ≡ false → lt_ℤ b a ≡ false → a ≡ b
lt_ℤ-connected a b h k = ground arith

pub lt_ℤ-IsTotalOrder : IsTotalOrder lt_ℤ
lt_ℤ-IsTotalOrder = record {
  weak = record { asymm = λ a b h. ground arith; cotrans = λ a b c h k. ground arith };
  connected = lt_ℤ-connected;
}

-- Go's `<` on strings: the first byte that differs decides.
abbrev pub lt_text : List ℕ → List ℕ → Bool
lt_text [] [] = false
lt_text [] (y ∷ ys) = true
lt_text (x ∷ xs) [] = false
lt_text (x ∷ xs) (y ∷ ys) =
    let rest = lt_text xs ys in if ltb x y then true else if ltb y x then false else rest

lt_text-asymm : (a b : List ℕ) → lt_text a b ≡ true → lt_text b a ≡ false
lt_text-asymm [] [] h = refl
lt_text-asymm [] (y ∷ ys) h = refl
lt_text-asymm (x ∷ xs) [] h = cc
lt_text-asymm (x ∷ xs) (y ∷ ys) h = ground (arith, lt_text-asymm xs ys)

lt_text-cotrans : (a b c : List ℕ) → lt_text a b ≡ false → lt_text b c ≡ false → lt_text a c ≡ false
lt_text-cotrans [] [] [] h k = refl
lt_text-cotrans [] [] (z ∷ zs) h k = cc
lt_text-cotrans [] (y ∷ ys) c h k = cc
lt_text-cotrans (x ∷ xs) [] [] h k = refl
lt_text-cotrans (x ∷ xs) [] (z ∷ zs) h k = cc
lt_text-cotrans (x ∷ xs) (y ∷ ys) [] h k = refl
lt_text-cotrans (x ∷ xs) (y ∷ ys) (z ∷ zs) h k = ground (arith, lt_text-cotrans xs ys zs)

lt_text-connected : (a b : List ℕ) → lt_text a b ≡ false → lt_text b a ≡ false → a ≡ b
lt_text-connected [] [] h k = refl
lt_text-connected [] (y ∷ ys) h k = cc
lt_text-connected (x ∷ xs) [] h k = cc
lt_text-connected (x ∷ xs) (y ∷ ys) h k = ground (arith, lt_text-connected xs ys)

pub lt_text-IsTotalOrder : IsTotalOrder lt_text
lt_text-IsTotalOrder = record {
  weak = record { asymm = lt_text-asymm; cotrans = lt_text-cotrans };
  connected = lt_text-connected;
}

module _ {ℓ κ} {A : Type ℓ} {B : Type κ} where
  -- `if a.k != b.k { return a.k < b.k }; return …`
  abbrev pub lex : ⦃e : Eq A⦄ → (A → A → Bool) → (B → B → Bool) → A × B → A × B → Bool
  lex less_a less_b (a, b) (c, d) = if a == c then less_b b d else less_a a c

  -- A comparison of a part.
  abbrev pub on : (A → B) → (B → B → Bool) → A → A → Bool
  on f less a b = less (f a) (f b)

  pub on-IsWeakOrder :
      (f : A → B) {less : B → B → Bool} → IsWeakOrder less → IsWeakOrder (on f less)
  on-IsWeakOrder f w = record {
    asymm = λ a b. w.asymm (f a) (f b);
    cotrans = λ a b c. w.cotrans (f a) (f b) (f c);
  }

-- The reversed comparison, for a descending sort.
abbrev pub flip {ℓ} : {A : Type ℓ} → (A → A → Bool) → A → A → Bool
flip l a b = l b a

module _ {ℓ} {A : Type ℓ} {less : A → A → Bool} where
  pub flip-IsTotalOrder : IsTotalOrder less → IsTotalOrder (flip less)
  flip-IsTotalOrder t = record {
    weak = record {
      asymm = λ a b. t.weak.asymm b a;
      cotrans = λ a b c h k. t.weak.cotrans c b a k h;
    };
    connected = λ a b h k. t.connected a b k h;
  }

  pub irrefl : IsWeakOrder less → (a : A) → less a a ≡ false
  irrefl w a = ground (arith, w.asymm a a)

module _ {ℓ κ} {A : Type ℓ} {B : Type κ} ⦃e : Eq A⦄ {less_a : A → A → Bool} {less_b : B → B → Bool}
    (t : IsTotalOrder less_a) (u : IsTotalOrder less_b) where
  lex-asymm : (p q : A × B) → lex less_a less_b p q ≡ true → lex less_a less_b q p ≡ false
  lex-asymm (a, b) (c, d) h =
      ground (arith, e.agree_iff a c, e.agree_iff c a, t.weak.asymm a c, u.weak.asymm b d)

  lex-cotrans :
      (p q r : A × B)
      → lex less_a less_b p q ≡ false
      → lex less_a less_b q r ≡ false
      → lex less_a less_b p r ≡ false
  lex-cotrans (a, b) (c, d) (x, y) h k = ground (
    arith,
    e.agree_iff a c,
    e.agree_iff c x,
    e.agree_iff a x,
    t.weak.cotrans a c x,
    u.weak.cotrans b d y,
    t.connected a c,
    t.weak.asymm a c,
    t.weak.cotrans c x c,
    t.weak.cotrans c a c,
    irrefl t.weak a,
    irrefl t.weak c,
  )

  lex-connected :
      (p q : A × B) → lex less_a less_b p q ≡ false → lex less_a less_b q p ≡ false → p ≡ q
  lex-connected (a, b) (c, d) h k =
      ground (arith, e.agree_iff a c, e.agree_iff c a, t.connected a c, u.connected b d)

  pub lex-IsTotalOrder : IsTotalOrder (lex less_a less_b)
  lex-IsTotalOrder = record {
    weak = record { asymm = lex-asymm; cotrans = lex-cotrans };
    connected = lex-connected;
  }
