-- ===== src/Common/Chains.antt =====
-- Chains of calls that can stop the machine.
use mathlib.Core.Path.{◌≡◌, refl}
use mathlib.Core.Option.{Option, none, some}

infixl 5 ◌>>=◌
abbrev pub ◌>>=◌ {ℓ κ} : {A : Type ℓ} {B : Type κ} → Option A → (A → Option B) → Option B
none >>= f = none
some a >>= f = f a

-- A chain that ends in a value has one on the way.
pub bind_some {ℓ κ} :
    {A : Type ℓ} {B : Type κ} {m : Option A} {f : A → Option B} (y : B)
    → (m >>= f) ≡ some y
    → (x : A) × (m ≡ some x) × (f x ≡ some y)
bind_some {m = none} y e = absurd (no_value e)
  where
    no_value : none ≡ some y → ⊥
    no_value q = cc
bind_some {m = some x} y e = (x, refl, e)
