-- ===== src/Common/Pigeonhole.antt =====
-- There is no injection from n + 1 indices into n.
use Prim.Native.Nat.{ℕ, zero, suc, ◌-◌, ◌<◌}
use mathlib.Core.Path.{◌≡◌}
use native.Mathlib.Omega.{arith}
use capaz_os_kernel.Common.Tests.{ltb, if◌then◌else◌}

-- f maps the indices below n into those below m, and no two to one.
pub record Injects (f : ℕ → ℕ) (n m : ℕ) : Type 0 where
  pub into : (k : ℕ) → k < n → f k < m
  pub inj : (j k : ℕ) → j < n → k < n → f j ≡ f k → j ≡ k

-- A value that is not taken is closed over.
abbrev squeeze : ℕ → (ℕ → ℕ) → ℕ → ℕ
squeeze v f k = if ltb v (f k) then f k - 1 else f k

pub squeeze-Injects :
    (f : ℕ → ℕ) (n m v : ℕ)
    → Injects f n (suc m)
    → v < suc m
    → ((k : ℕ) → k < n → f k ≡ v → ⊥)
    → Injects (squeeze v f) n m
squeeze-Injects f n m v i h miss = record {
  into = λ k hk. ground (arith, i.into k hk, miss k hk);
  inj = λ j k hj hk. ground (arith, i.inj j k hj hk, miss j hj, miss k hk);
}

-- n + 1 indices do not fit.
pub no_injection : (n : ℕ) (f : ℕ → ℕ) → Injects f (suc n) n → ⊥
no_injection zero f i = absurd (omega (arith, i.into 0 (omega arith)))
no_injection (suc n) f i = no_injection n (squeeze (f (suc n)) f) (
    squeeze-Injects f (suc n) n (f (suc n)) below (i.into (suc n) (omega arith))
      (λ k hk e. omega (arith, i.inj k (suc n) (omega arith) (omega arith) e)))
  where
    below : Injects f (suc n) (suc n)
    below = record {
      into = λ k hk. i.into k (omega arith);
      inj = λ j k hj hk. i.inj j k (omega arith) (omega arith);
    }

-- Nor do n indices that all miss one of n values.
pub missed_injection :
    (n v : ℕ) (f : ℕ → ℕ) → Injects f n n → v < n → ((k : ℕ) → k < n → f k ≡ v → ⊥) → ⊥
missed_injection zero v f i h miss = absurd (omega arith)
missed_injection (suc n) v f i h miss =
    no_injection n (squeeze v f) (squeeze-Injects f (suc n) n v i h miss)
