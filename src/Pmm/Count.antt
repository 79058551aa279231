-- ===== src/Pmm/Count.antt =====
-- The count of the free pages of mm/pmm.c, by the bits of its bitmap.
use capaz_os_kernel.Common.{
  ℕ, zero, suc, ◌+◌, ◌≤◌, ◌<◌, ◌≡◌, refl, ◌∙◌, inl, inr, arith, Bool, true, false, ◌&&◌, Bool-cases,
  ltb, leb, ◌==◌, if◌then◌else◌,
}
use capaz_os_kernel.Pmm.{bit_set, bit_test, set_run, run_free}
use capaz_os_kernel.Pmm.Bitmap.{Bytes, bit_set_lem, bit_set-Bytes}

-- The zero bits among the first n.
unfoldable pub free_below : (ℕ → Bool) → ℕ → ℕ
free_below f zero = 0
free_below f (suc n) = (if f n then 0 else 1) + free_below f n

pub free_below-same :
    (f g : ℕ → Bool) (n : ℕ) → ((i : ℕ) → i < n → f i ≡ g i) → free_below f n ≡ free_below g n
unfolding free_below
free_below-same f g zero h = refl
free_below-same f g (suc n) h =
    let rest = free_below-same f g n (λ i lt. h i (omega arith)) in
    rw (h n (omega arith), rest) refl

pub free_below-le : (f : ℕ → Bool) (n : ℕ) → free_below f n ≤ n
unfolding free_below
free_below-le f zero = omega arith
free_below-le f (suc n) = ground (arith, free_below-le f n)

pub free_below-none : (f : ℕ → Bool) (n : ℕ) → ((i : ℕ) → i < n → f i ≡ true) → free_below f n ≡ 0
unfolding free_below
free_below-none f zero h = refl
free_below-none f (suc n) h =
    let rest = free_below-none f n (λ i lt. h i (omega arith)) in rw (h n (omega arith), rest) refl

-- A zero bit among the first n counts.
pub free_below-pos : (f : ℕ → Bool) (n i : ℕ) → i < n → f i ≡ false → 0 < free_below f n
unfolding free_below
free_below-pos f zero i lt e = absurd (omega arith)
free_below-pos f (suc n) i lt e = elim (Bool-cases (i == n)) [
  | inl last ↦ ground arith
  | inr other ↦ ground (arith, free_below-pos f n i)
]

-- There is a zero bit when the count is not zero.
pub free_below-find :
    (f : ℕ → Bool) (n : ℕ) → 0 < free_below f n → (i : ℕ) × (i < n) × (f i ≡ false)
unfolding free_below
free_below-find f zero h = absurd (omega arith)
free_below-find f (suc n) h = elim (Bool-cases (f n)) [
  | inr zero_bit ↦ (n, omega arith, zero_bit)
  | inl one ↦ let (i, lt, e) = free_below-find f n (ground arith) in (i, omega arith, e)
]

-- The count falls by one when a zero bit among the first n becomes one.
pub free_below-set :
    (f g : ℕ → Bool) (n i : ℕ)
    → i < n
    → f i ≡ false
    → ((j : ℕ) → g j ≡ (if i == j then true else f j))
    → free_below f n ≡ 1 + free_below g n
unfolding free_below
free_below-set f g zero i lt e h = absurd (omega arith)
free_below-set f g (suc n) i lt e h = elim (Bool-cases (i == n)) [
  | inl last ↦
      let same : free_below f n ≡ free_below g n =
        free_below-same f g n (λ j lt'. ground (arith, h j)) in
      ground (arith, h n)
  | inr other ↦ ground (arith, h n, free_below-set f g n i)
]

-- What the bits are when those of the run of n pages from i on become one.
abbrev pub with_run : (ℕ → Bool) → ℕ → ℕ → ℕ → Bool
with_run f i n j = if leb i j && ltb j (i + n) then true else f j

pub set_run-Bytes : (bm : ℕ → ℕ) (n i : ℕ) → Bytes bm → Bytes (set_run bm n i)
unfolding set_run
set_run-Bytes bm zero i h = h
set_run-Bytes bm (suc n) i h = set_run-Bytes (bit_set bm i) n (suc i) (bit_set-Bytes bm i h)

pub set_run_lem :
    (bm : ℕ → ℕ) (n i j : ℕ) → Bytes bm → bit_test (set_run bm n i) j ≡ with_run (bit_test bm) i n j
unfolding set_run
set_run_lem bm zero i j h = ground arith
set_run_lem bm (suc n) i j h =
    let step = bit_set_lem bm i j h in
    set_run_lem (bit_set bm i) n (suc i) j (bit_set-Bytes bm i h) ∙ ground arith

-- The pages of a free run are free.
pub run_free-bits :
    (bm : ℕ → ℕ) (n i : ℕ)
    → run_free bm n i ≡ true
    → (j : ℕ) → i ≤ j
    → j < i + n
    → bit_test bm j ≡ false
unfolding run_free
run_free-bits bm zero i h j ge lt = absurd (omega arith)
run_free-bits bm (suc n) i h j ge lt = elim (Bool-cases (i == j)) [
  | inl first ↦ ground arith
  | inr later ↦ run_free-bits bm n (suc i) (ground arith) j (ground arith) (omega arith)
]

-- A run whose pages are free is a free run.
pub run_free-intro :
    (bm : ℕ → ℕ) (n i : ℕ)
    → ((j : ℕ) → i ≤ j → j < i + n → bit_test bm j ≡ false)
    → run_free bm n i ≡ true
unfolding run_free
run_free-intro bm zero i h = refl
run_free-intro bm (suc n) i h =
    let first = h i (omega arith) (omega arith) in
    let rest = run_free-intro bm n (suc i) (λ j ge lt. h j (omega arith) (omega arith)) in
    rw (first, rest) refl

-- Marking a free run of n pages takes n pages off the count.
pub set_run-count :
    (bm : ℕ → ℕ) (n i total : ℕ)
    → Bytes bm
    → run_free bm n i ≡ true
    → i + n ≤ total
    → free_below (bit_test bm) total ≡ n + free_below (bit_test (set_run bm n i)) total
unfolding set_run
set_run-count bm zero i total h r fit = omega arith
set_run-count bm (suc n) i total h r fit =
    let bits = run_free-bits bm (suc n) i r in
    let first =
      free_below-set (bit_test bm) (bit_test (bit_set bm i)) total i (omega arith)
        (bits i (omega arith) (omega arith)) (λ j. bit_set_lem bm i j h) in
    let rest =
      run_free-intro (bit_set bm i) n (suc i)
        (λ j ge lt. bit_set_lem bm i j h ∙ ground (arith, bits j)) in
    let tail =
      set_run-count (bit_set bm i) n (suc i) total (bit_set-Bytes bm i h) rest (omega arith) in
    omega arith
