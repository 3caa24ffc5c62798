-- ===== src/Base/Result.antt =====
-- A result `(T, error)`: a value, or an error by its message.
use mathlib.Core.Path.{◌≡◌, refl}
use mathlib.Core.Logic.{◌≢◌, ◌⊎◌, inl, inr}
use auto_cert.Base.Text.{Text}

pub data Result {ℓ} (A : Type ℓ) : Type ℓ where
  ok : A → Result A
  err : Text → Result A

infixl 5 ◌>>=◌
abbrev pub ◌>>=◌ {ℓ κ} : {A : Type ℓ} {B : Type κ} → Result A → (A → Result B) → Result B
ok a >>= f = f a
err e >>= f = err e

-- `fmt.Errorf("…: %w", err)`
abbrev pub wrap {ℓ} : {A : Type ℓ} → (Text → Text) → Result A → Result A
wrap f (ok a) = ok a
wrap f (err e) = err (f e)

-- A chain that ends well went well at its first step, and then from there.
pub bind_inv {ℓ κ} :
    {X : Type ℓ} {Y : Type κ} {y : Y} (next : X → Result Y) (first : Result X)
    → (first >>= next) ≡ ok y
    → (x : X) × (next x ≡ ok y) × (first ≡ ok x)
bind_inv next (ok x) went = (x, went, refl)
bind_inv next (err message) went = cc

pub Result-cases {ℓ} :
    {A : Type ℓ} (r : Result A) → ((a : A) × (r ≡ ok a)) ⊎ ((e : Text) × (r ≡ err e))
Result-cases (ok a) = inl (a, refl)
Result-cases (err e) = inr (e, refl)

pub ok-injective {ℓ} : {A : Type ℓ} {a b : A} → ok a ≡ ok b → a ≡ b
ok-injective h = cc

pub ok-ne-err {ℓ} : {A : Type ℓ} {a : A} {e : Text} → ok a ≢ err e
ok-ne-err h = cc

pub wrap-ok {ℓ} : {A : Type ℓ} (f : Text → Text) (r : Result A) {a : A} → wrap f r ≡ ok a → r ≡ ok a
wrap-ok f (ok a) h = h
wrap-ok f (err e) h = cc
