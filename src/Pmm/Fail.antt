-- ===== src/Pmm/Fail.antt =====
-- When `pmm_alloc_pages` of mm/pmm.c fails.
use capaz_os_kernel.Common.{
  ℕ, ◌+◌, ◌≤◌, ◌<◌, ◌≡◌, ap, sym, ◌∙◌, ◌⊎◌, inl, inr, arith, true, false, Bool-cases, none, some,
  Option-cases, leb,
}
use capaz_os_kernel.Pmm.{
  Pmm, bit_test, run_free, commit, count_call, pmm_alloc_pages, pmm_alloc_page,
}
use capaz_os_kernel.Pmm.Count.{free_below-le, free_below-find, run_free-intro}
use capaz_os_kernel.Pmm.Search.{first_page, choose-none}
use capaz_os_kernel.Pmm.Alloc.{IsValid, refused, missed, found, outcome}

-- No run of `count` free pages lies on one side of the page that the search starts from.
abbrev pub NoRun : Pmm → ℕ → Type 0
NoRun st count =
    (k : ℕ)
    → (first_page st ≤ k) ⊎ (k + count ≤ first_page st)
    → k + count ≤ st.total_pages
    → run_free st.bitmap count k ≡ false

-- A call that fails leaves the pages alone. It fails for no pages, or if fewer than `count` are free,
-- or if no run of `count` free pages lies on one side of the page that the search starts from.
pub alloc-fails :
    (st : Pmm) (count : ℕ) (st' : Pmm)
    → pmm_alloc_pages st count ≡ (none, st')
    → (st' ≡ count_call st count)
      × ((count ≡ 0) ⊎ ((st.free_pages < count) ⊎ ((st.total_pages < count) ⊎ NoRun st count)))
unfolding count_call commit
alloc-fails st count st' q = elim (outcome st count) [
  | refused (inl z) e ↦ (ap (λ r. r.1) (sym q ∙ e), inl z)
  | refused (inr (inl l)) e ↦ (ap (λ r. r.1) (sym q ∙ e), inr (inl l))
  | refused (inr (inr l)) e ↦ (ap (λ r. r.1) (sym q ∙ e), inr (inr (inl l)))
  | missed e e' ↦ (
    ap (λ r. r.1) (sym q ∙ e'),
    inr (inr (inr (λ k. choose-none (count_call st count) count k e))),
  )
  | found i e e' ↦ absurd (some_none (ap (λ r. r.0) (sym e' ∙ q)))
]
  where
    some_none : {p : ℕ} → some p ≡ none → ⊥
    some_none e = ground arith

-- A page is found whenever one is free: `pmm_alloc_page` fails only when no page is left.
pub page_found :
    (st : Pmm)
    → IsValid st
    → 0 < st.free_pages
    → (pa : ℕ) × (st' : Pmm) × (pmm_alloc_page st ≡ (some pa, st'))
unfolding pmm_alloc_page
page_found st v pos = elim (Option-cases (pmm_alloc_pages st 1).0) [
  | inr (pa, e) ↦ (pa, (pmm_alloc_pages st 1).1, ap (λ o. (o, (pmm_alloc_pages st 1).1)) e)
  | inl e ↦ absurd (
      not_failed
        (alloc-fails st 1 (pmm_alloc_pages st 1).1 (ap (λ o. (o, (pmm_alloc_pages st 1).1)) e)).1)
]
  where
    free_page : (i : ℕ) × (i < st.total_pages) × (bit_test st.bitmap i ≡ false)
    free_page = free_below-find (bit_test st.bitmap) st.total_pages (omega (arith, v.counted))

    single : (i : ℕ) → bit_test st.bitmap i ≡ false → run_free st.bitmap 1 i ≡ true
    single i e = run_free-intro st.bitmap 1 i (λ j ge lt. ground (arith, e))

    not_failed : ◌≡◌ {A = ℕ} 1 0 ⊎ ((st.free_pages < 1) ⊎ ((st.total_pages < 1) ⊎ NoRun st 1)) → ⊥
    not_failed (inl z) = omega arith
    not_failed (inr (inl l)) = omega arith
    not_failed (inr (inr (inl l))) =
        omega (arith, v.counted, free_below-le (bit_test st.bitmap) st.total_pages)
    not_failed (inr (inr (inr f))) =
        let (i, lt, e) = free_page in
        let at_i = single i e in
        elim (Bool-cases (leb (first_page st) i)) [
          | inl le ↦ ground (arith, f i (inl (ground arith)) (omega arith))
          | inr gt ↦ ground (arith, f i (inr (ground arith)) (omega arith))
        ]
