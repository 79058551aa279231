-- ===== src/Memory/Compares.antt =====
-- What the comparing helpers of mm/mem.c return.
use capaz_os_kernel.Common.{
  ℕ, zero, suc, ◌+◌, ◌≤◌, ◌<◌, ◌≡◌, ◌≢◌, ◌↔◌, inl, inr, refl, arith, false, Bool-cases, some, ◌==◌,
}
use capaz_os_kernel.Memory.{compare_from, memcmp, length_from, strlen}

-- The n bytes at a and those at b are bytes.
abbrev pub BytesAt : (ℕ → ℕ) → Type 0
BytesAt m = (a : ℕ) → m a < 256

compare-zero :
    (m : ℕ → ℕ) (a b n i : ℕ)
    → BytesAt m
    → compare_from m a b n i ≡ 0
    → (j : ℕ) → i ≤ j
    → j < i + n
    → m (a + j) ≡ m (b + j)
unfolding compare_from
compare-zero m a b zero i h e j ge lt = absurd (omega arith)
compare-zero m a b (suc n) i h e j ge lt = elim (Bool-cases (m (a + i) == m (b + i))) [
  | inr differ ↦ absurd (ground (arith, h (a + i), h (b + i)))
  | inl same ↦ elim (Bool-cases (i == j)) [
    | inl first ↦ ground arith
    | inr later ↦ compare-zero m a b n (suc i) h (ground arith) j (ground arith) (omega arith)
  ]
]

compare-same :
    (m : ℕ → ℕ) (a b n i : ℕ)
    → ((j : ℕ) → i ≤ j → j < i + n → m (a + j) ≡ m (b + j))
    → compare_from m a b n i ≡ 0
unfolding compare_from
compare-same m a b zero i h = refl
compare-same m a b (suc n) i h =
    let rest = compare-same m a b n (suc i) (λ j ge lt. h j (omega arith) (omega arith)) in
    let first = h i (omega arith) (omega arith) in ground arith

-- `memcmp` returns 0 just if the two blocks hold the same bytes.
pub memcmp-zero :
    (m : ℕ → ℕ) (a b n : ℕ)
    → BytesAt m
    → (memcmp m a b n ≡ 0) ↔ ((j : ℕ) → j < n → m (a + j) ≡ m (b + j))
unfolding memcmp
memcmp-zero m a b n h = (
  (λ e j lt. compare-zero m a b n 0 h e j (omega arith) (omega arith)),
  λ same. compare-same m a b n 0 (λ j ge lt. same j (omega arith)),
)

pub length_from_lem :
    (fuel : ℕ) (m : ℕ → ℕ) (s n k : ℕ)
    → n ≤ k
    → k < n + fuel
    → m (s + k) ≡ 0
    → ((j : ℕ) → n ≤ j → j < k → m (s + j) ≢ 0)
    → length_from m s fuel n ≡ some k
unfolding length_from
length_from_lem zero m s n k le lt end before = absurd (omega arith)
length_from_lem (suc fuel) m s n k le lt end before = elim (Bool-cases (n == k)) [
  | inl here ↦ ground arith
  | inr later ↦
      let go : (m (s + n) == 0) ≡ false = ground (arith, before n) in
      let rest =
        length_from_lem fuel m s (suc n) k (ground arith) (omega arith) end
          (λ j ge l. before j (omega arith) l) in
      rw go rest
]

-- `strlen` stops at the first zero byte and returns its distance, given fuel for the bytes up to it.
pub strlen_lem :
    (fuel : ℕ) (m : ℕ → ℕ) (s k : ℕ)
    → s ≢ 0
    → k < fuel
    → m (s + k) ≡ 0
    → ((j : ℕ) → j < k → m (s + j) ≢ 0)
    → strlen fuel m s ≡ some k
unfolding strlen
strlen_lem fuel m s k ne lt end before =
    let some_string : (s == 0) ≡ false = ground arith in
    rw some_string
      (length_from_lem fuel m s 0 k (omega arith) (omega arith) end (λ j ge l. before j l))
