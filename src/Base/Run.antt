-- ===== src/Base/Run.antt =====
-- Results of code that may not return: a panic, undefined behaviour (a write or read outside of what
-- is allocated, a dereference of null), or a loop that used up the fuel of the model.
use mathlib.Core.Path.{◌≡◌, refl, ap}

pub data Run {ℓ} (A : Type ℓ) : Type ℓ where
  ok : A → Run A
  panic : Run A
  fault : Run A
  out_of_fuel : Run A

infixl 5 ◌>>=◌
abbrev pub ◌>>=◌ {ℓ κ} : {A : Type ℓ} {B : Type κ} → Run A → (A → Run B) → Run B
ok a >>= f = f a
panic >>= f = panic
fault >>= f = fault
out_of_fuel >>= f = out_of_fuel

value_or {ℓ} : {A : Type ℓ} → A → Run A → A
value_or a (ok b) = b
value_or a panic = a
value_or a fault = a
value_or a out_of_fuel = a

pub ok_inj {ℓ} : {A : Type ℓ} (a b : A) → ◌≡◌ {A = Run A} (ok a) (ok b) → a ≡ b
unfolding value_or
ok_inj a b e = ap (value_or a) e

-- What returns has parts that return.
pub bind-ok {ℓ} :
    {A B : Type ℓ} (m : Run A) (f : A → Run B) (b : B)
    → m >>= f ≡ ok b
    → (a : A) × (m ≡ ok a) × (f a ≡ ok b)
bind-ok (ok a) f b e = (a, refl, e)
bind-ok panic f b e = absurd (cc)
bind-ok fault f b e = absurd (cc)
bind-ok out_of_fuel f b e = absurd (cc)
