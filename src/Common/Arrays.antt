-- ===== src/Common/Arrays.antt =====
-- A C array is a function of its index, and so is a store of objects a function of their address.
-- `slice a i n` is the list of the n elements from index i on.
use Prim.Native.Nat.{ℕ, zero, suc, ◌+◌, ◌≤◌, ◌<◌}
use mathlib.Core.Path.{◌≡◌, refl, ap, ap₂, ◌∙◌}
use mathlib.Core.List.{List, [], ◌∷◌, ◌++◌}
use native.Mathlib.Omega.{arith}
use capaz_os_kernel.Common.Tests.{◌==◌, if◌then◌else◌}

module _ {ℓ} {A : Type ℓ} where
  abbrev pub update : (ℕ → A) → ℕ → A → ℕ → A
  update f i v j = if i == j then v else f j

  abbrev pub length : List A → ℕ
  length [] = 0
  length (x ∷ xs) = suc (length xs)

  abbrev pub slice : (ℕ → A) → ℕ → ℕ → List A
  slice a i zero = []
  slice a i (suc n) = a i ∷ slice a (suc i) n

  pub length-slice : (a : ℕ → A) (i n : ℕ) → length (slice a i n) ≡ n
  length-slice a i zero = refl
  length-slice a i (suc n) = ap suc (length-slice a (suc i) n)

  pub length-append : (xs ys : List A) → length (xs ++ ys) ≡ length xs + length ys
  length-append [] ys = omega arith
  length-append (x ∷ xs) ys = omega (arith, length-append xs ys)

  -- The element behind the last one of a slice.
  pub slice-suc : (a : ℕ → A) (i n : ℕ) → slice a i (suc n) ≡ slice a i n ++ a (i + n) ∷ []
  slice-suc a i zero = ap (λ k. a k ∷ []) (omega arith)
  slice-suc a i (suc n) =
      ap (◌∷◌ (a i))
        (rw (slice-suc a (suc i) n) (ap (λ k. slice a (suc i) n ++ a k ∷ []) (omega arith)))

  -- A write outside a slice leaves it.
  pub slice-update_outside :
      (a : ℕ → A) (i n j : ℕ) (v : A) → (j < i) → slice (update a j v) i n ≡ slice a i n
  slice-update_outside a i zero j v h = refl
  slice-update_outside a i (suc n) j v h =
      ap₂ ◌∷◌ (ground arith) (slice-update_outside a (suc i) n j v (omega arith))

  pub slice-update_above :
      (a : ℕ → A) (i n j : ℕ) (v : A) → (i + n ≤ j) → slice (update a j v) i n ≡ slice a i n
  slice-update_above a i zero j v h = refl
  slice-update_above a i (suc n) j v h =
      ap₂ ◌∷◌ (ground arith) (slice-update_above a (suc i) n j v (omega arith))

  -- A write just behind a slice extends it.
  pub slice-push :
      (a : ℕ → A) (n : ℕ) (v : A) → slice (update a n v) 0 (n + 1) ≡ slice a 0 n ++ v ∷ []
  slice-push a n v =
      ap (slice (update a n v) 0) {y = suc n} (omega arith)
      ∙ slice-suc (update a n v) 0 n
      ∙ ap₂ (λ xs x. xs ++ x ∷ []) (slice-update_above a 0 n n v (omega arith))
          (ap (update a n v) {y = n} (omega arith) ∙ ground arith)
