-- ===== src/Pmm/Alloc.antt =====
-- What `pmm_alloc_pages` of mm/pmm.c does to the pages, and when it fails.
use capaz_os_kernel.Common.{
  ℕ, ◌+◌, ◌*◌, ◌%◌, ◌≤◌, ◌<◌, ◌≡◌, refl, ap, sym, subst, ◌∙◌, ◌⊎◌, inl, inr, arith, true, false,
  ◌||◌, Bool-cases, none, some, Option-cases, ltb, ◌==◌, u64_mod,
}
use capaz_os_kernel.Board.{page_size}
use capaz_os_kernel.Pmm.{
  Pmm, bit_test, pmm_update_pressure, run_free, choose, commit, count_call, pmm_alloc_pages,
}
use capaz_os_kernel.Pmm.Bitmap.{Bytes}
use capaz_os_kernel.Pmm.Count.{
  free_below, free_below-le, with_run, set_run-Bytes, set_run_lem, set_run-count, run_free-bits,
}
use capaz_os_kernel.Pmm.Search.{choose-some}

-- The address of a page.
abbrev pub page_pa : Pmm → ℕ → ℕ
page_pa st i = st.base_pa + i * page_size

-- The bitmap is one of bytes and its free pages are counted; the window is a whole number of aligned
-- pages, which end below 2^64; the hint is in reach; the allocator's own pages are never free.
pub record IsValid (st : Pmm) : Type 0 where
  pub bytes : Bytes st.bitmap
  pub counted : st.free_pages ≡ free_below (bit_test st.bitmap) st.total_pages
  pub window : page_pa st st.total_pages ≡ st.limit_pa
  pub aligned : st.base_pa % page_size ≡ 0
  pub fits : st.limit_pa < u64_mod
  pub meta_fits : st.meta_base_pa + st.meta_pages * page_size < u64_mod
  pub hint : st.next_hint ≤ st.total_pages
  pub kept :
      (i : ℕ)
      → i < st.total_pages
      → st.meta_base_pa ≤ page_pa st i
      → page_pa st i < st.meta_base_pa + st.meta_pages * page_size
      → bit_test st.bitmap i ≡ true

-- The window and the allocator's own pages are those of another state.
pub record SamePlace (st st' : Pmm) : Type 0 where
  pub base_pa : st'.base_pa ≡ st.base_pa
  pub limit_pa : st'.limit_pa ≡ st.limit_pa
  pub total_pages : st'.total_pages ≡ st.total_pages
  pub meta_base_pa : st'.meta_base_pa ≡ st.meta_base_pa
  pub meta_pages : st'.meta_pages ≡ st.meta_pages

-- `st'` is `st` with the `count` free pages from page i on taken, no other page touched.
pub record Taken (st st' : Pmm) (i count : ℕ) : Type 0 where
  pub inside : i + count ≤ st.total_pages
  pub was_free : (j : ℕ) → i ≤ j → j < i + count → bit_test st.bitmap j ≡ false
  pub now : (j : ℕ) → bit_test st'.bitmap j ≡ with_run (bit_test st.bitmap) i count j
  pub left : st'.free_pages + count ≡ st.free_pages
  pub place : SamePlace st st'
  pub valid : IsValid st'

-- The page number that a state's free pages end at is one of 2^52.
total_small : (st : Pmm) → IsValid st → st.total_pages * page_size < u64_mod
total_small st v = omega (arith, v.window, v.fits)

pub count_call-IsValid : (st : Pmm) (count : ℕ) → IsValid st → IsValid (count_call st count)
unfolding count_call
count_call-IsValid st count v = record {
  bytes = v.bytes;
  counted = v.counted;
  window = v.window;
  aligned = v.aligned;
  fits = v.fits;
  meta_fits = v.meta_fits;
  hint = v.hint;
  kept = v.kept;
}

pub commit-Taken :
    (st : Pmm) (count i : ℕ)
    → IsValid st
    → i + count ≤ st.total_pages
    → run_free st.bitmap count i ≡ true
    → ((commit st count i).0 ≡ some (page_pa st i)) × Taken st (commit st count i).1 i count
unfolding commit pmm_update_pressure
commit-Taken st count i v fit r =
    let small = total_small st v in
    let taken = set_run-count st.bitmap count i st.total_pages v.bytes r fit in
    let some_left = free_below-le (bit_test st.bitmap) st.total_pages in
    (
      ap some (ground (arith, v.window, v.fits)),
      record {
        inside = fit;
        was_free = run_free-bits st.bitmap count i r;
        now = λ j. set_run_lem st.bitmap count i j v.bytes;
        left = ground (arith, v.counted, taken, small, some_left);
        place = record {
          base_pa = refl;
          limit_pa = refl;
          total_pages = refl;
          meta_base_pa = refl;
          meta_pages = refl;
        };
        valid = record {
          bytes = set_run-Bytes st.bitmap count i v.bytes;
          counted = ground (arith, v.counted, taken, small, some_left);
          window = v.window;
          aligned = v.aligned;
          fits = v.fits;
          meta_fits = v.meta_fits;
          hint = ground (arith, small, fit);
          kept = λ j lt ge lt'. set_run_lem st.bitmap count i j v.bytes ∙ ground (arith, v.kept j);
        };
      },
    )

-- The three ways that a call goes: the guards refuse it, no run is found, or a run is taken.
pub data Outcome (st : Pmm) (count : ℕ) : Type 0 where
  refused :
      (count ≡ 0) ⊎ ((st.free_pages < count) ⊎ (st.total_pages < count))
      → pmm_alloc_pages st count ≡ (none, count_call st count)
      → Outcome st count
  missed :
      choose (count_call st count) count ≡ none
      → pmm_alloc_pages st count ≡ (none, count_call st count)
      → Outcome st count
  found :
      (i : ℕ)
      → choose (count_call st count) count ≡ some i
      → pmm_alloc_pages st count ≡ commit (count_call st count) count i
      → Outcome st count

pub outcome : (st : Pmm) (count : ℕ) → Outcome st count
unfolding pmm_alloc_pages count_call
outcome st count =
    elim (Bool-cases (count == 0 || (ltb st.free_pages count || ltb st.total_pages count))) [
      | inl bad ↦ refused (why bad) (rw bad refl)
      | inr good ↦ elim (Option-cases (choose (count_call st count) count)) [
        | inl e ↦ missed e (rw (good, e) refl)
        | inr (i, e) ↦ found i e (rw (good, e) refl)
      ]
    ]
  where
    why :
        (count == 0 || (ltb st.free_pages count || ltb st.total_pages count)) ≡ true
        → (count ≡ 0) ⊎ ((st.free_pages < count) ⊎ (st.total_pages < count))
    why bad = elim (Bool-cases (count == 0)) [
      | inl e ↦ inl (ground arith)
      | inr ne ↦ elim (Bool-cases (ltb st.free_pages count)) [
        | inl lt ↦ inr (inl (ground arith))
        | inr ge ↦ inr (inr (ground arith))
      ]
    ]

-- A call that succeeds gives the address of the first of `count` consecutive pages of the window
-- that were free, and takes these pages and no other; the state stays valid.
pub alloc_lem :
    (st : Pmm) (count pa : ℕ) (st' : Pmm)
    → IsValid st
    → pmm_alloc_pages st count ≡ (some pa, st')
    → (i : ℕ) × (pa ≡ page_pa st i) × Taken st st' i count
unfolding count_call
alloc_lem st count pa st' v q = elim (outcome st count) [
  | refused _ e ↦ absurd (none_some (ap (λ r. r.0) (sym e ∙ q)))
  | missed _ e ↦ absurd (none_some (ap (λ r. r.0) (sym e ∙ q)))
  | found i e e' ↦
      let (fit, r) = choose-some (count_call st count) count i e in
      let (a, t) =
        commit-Taken (count_call st count) count i (count_call-IsValid st count v) fit r in
      let w = sym e' ∙ q in
      (
        i,
        some_inj (sym (ap (λ r. r.0) w) ∙ a),
        subst (λ s. Taken st s i count) (ap (λ r. r.1) w) (base t),
      )
]
  where
    none_some : {p : ℕ} → none ≡ some p → ⊥
    none_some e = ground arith

    some_inj : {p p' : ℕ} → some p ≡ some p' → p ≡ p'
    some_inj e = ground arith

    base : {s : Pmm} {i : ℕ} → Taken (count_call st count) s i count → Taken st s i count
    base t = record {
      inside = t.inside;
      was_free = t.was_free;
      now = t.now;
      left = t.left;
      place = record {
        base_pa = t.place.base_pa;
        limit_pa = t.place.limit_pa;
        total_pages = t.place.total_pages;
        meta_base_pa = t.place.meta_base_pa;
        meta_pages = t.place.meta_pages;
      };
      valid = t.valid;
    }
