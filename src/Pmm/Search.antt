-- ===== src/Pmm/Search.antt =====
-- The search for a free run in mm/pmm.c: what it finds, and what it misses.
use capaz_os_kernel.Common.{
  ℕ, zero, suc, ◌+◌, ◌-◌, ◌≤◌, ◌<◌, ◌≡◌, refl, ◌⊎◌, inl, inr, arith, true, false, Bool-cases,
  Option, none, some, ltb, leb, ◌==◌, if◌then◌else◌,
}
use capaz_os_kernel.Pmm.{Pmm, run_free, find_run, search_pass, choose}

find_run-some :
    (bm : ℕ → ℕ) (count n i k : ℕ)
    → find_run bm count n i ≡ some k
    → (i ≤ k) × (k < i + n) × (run_free bm count k ≡ true)
unfolding find_run
find_run-some bm count zero i k q = ground arith
find_run-some bm count (suc n) i k q = elim (Bool-cases (run_free bm count i)) [
  | inl here ↦ ground arith
  | inr later ↦
      let (a, b, c) = find_run-some bm count n (suc i) k (ground arith) in
      (omega arith, omega arith, c)
]

find_run-none :
    (bm : ℕ → ℕ) (count n i k : ℕ)
    → find_run bm count n i ≡ none
    → i ≤ k
    → k < i + n
    → run_free bm count k ≡ false
unfolding find_run
find_run-none bm count zero i k q ge lt = absurd (omega arith)
find_run-none bm count (suc n) i k q ge lt = elim (Bool-cases (run_free bm count i)) [
  | inl here ↦ ground arith
  | inr later ↦ elim (Bool-cases (i == k)) [
    | inl first ↦ ground arith
    | inr other ↦ find_run-none bm count n (suc i) k (ground arith) (ground arith) (omega arith)
  ]
]

-- A run that a pass finds lies in the pass's range.
pub search_pass-some :
    (bm : ℕ → ℕ) (count i0 i1 k : ℕ)
    → search_pass bm count i0 i1 ≡ some k
    → (i0 ≤ k) × (k + count ≤ i1) × (run_free bm count k ≡ true)
unfolding search_pass
search_pass-some bm count i0 i1 k q = elim (Bool-cases (ltb i1 count)) [
  | inl short ↦ ground arith
  | inr fits ↦
      let (a, b, c) = find_run-some bm count (i1 + 1 - count - i0) i0 k (ground arith) in
      (a, ground arith, c)
]

-- A pass that finds nothing has no free run in its range.
pub search_pass-none :
    (bm : ℕ → ℕ) (count i0 i1 k : ℕ)
    → search_pass bm count i0 i1 ≡ none
    → i0 ≤ k
    → k + count ≤ i1
    → run_free bm count k ≡ false
unfolding search_pass
search_pass-none bm count i0 i1 k q ge fit = elim (Bool-cases (ltb i1 count)) [
  | inl short ↦ absurd (ground arith)
  | inr fits ↦ find_run-none bm count (i1 + 1 - count - i0) i0 k (ground arith) ge (ground arith)
]

-- The page that the first pass starts from.
abbrev pub first_page : Pmm → ℕ
first_page st = if leb st.total_pages st.next_hint then 0 else st.next_hint

-- The second pass runs when the first finds nothing.
abbrev either_pass : Option ℕ → Option ℕ → Option ℕ
either_pass o p = elim o [ some i ↦ some i | none ↦ p ]

either_pass-some : (o p : Option ℕ) (k : ℕ) → either_pass o p ≡ some k → (o ≡ some k) ⊎ (p ≡ some k)
either_pass-some none p k q = inr q
either_pass-some (some i) p k q = inl q

either_pass-none : (o p : Option ℕ) → either_pass o p ≡ none → (o ≡ none) × (p ≡ none)
either_pass-none none p q = (refl, q)
either_pass-none (some i) p q = ground arith

pub choose-some :
    (st : Pmm) (count k : ℕ)
    → choose st count ≡ some k
    → (k + count ≤ st.total_pages) × (run_free st.bitmap count k ≡ true)
unfolding choose
choose-some st count k q = elim (either_pass-some _ _ k q) [
  | inl e ↦
      let (a, b, c) = search_pass-some st.bitmap count (first_page st) st.total_pages k e in (b, c)
  | inr e ↦
      let (a, b, c) = search_pass-some st.bitmap count 0 (first_page st) k e in (ground arith, c)
]

-- When neither pass finds a run, no run that lies on one side of the start page is free.
pub choose-none :
    (st : Pmm) (count k : ℕ)
    → choose st count ≡ none
    → (first_page st ≤ k) ⊎ (k + count ≤ first_page st)
    → k + count ≤ st.total_pages
    → run_free st.bitmap count k ≡ false
unfolding choose
choose-none st count k q side fit =
    let (e, e') = either_pass-none _ _ q in
    elim side [
      | inl after ↦ search_pass-none st.bitmap count (first_page st) st.total_pages k e after fit
      | inr before ↦ search_pass-none st.bitmap count 0 (first_page st) k e' (omega arith) before
    ]
