-- ===== src/Pmm.antt =====
-- The physical page allocator, mm/pmm.c: a bitmap of pages, where 1 is reserved or allocated. The state
-- is the one that g_pmm points to once `pmm_init` has run; its counters stand in it too. A panic is
-- `none`. The logging of the summary is left out.
pub mod Bitmap
pub mod Count
pub mod Search
pub mod Alloc
pub mod Fail
pub mod Free
pub mod History
pub mod Init
pub mod Marks
pub mod Boot
pub mod Ready
pub mod Safe
pub mod Tree
use Prim.Native.Nat.{bit_and, bit_or}
use capaz_os_kernel.Common.{
  ℕ, zero, suc, ◌+◌, ◌-◌, ◌*◌, ◌/◌, ◌%◌, ◌^◌, Bool, true, false, not, ◌&&◌, ◌||◌, Option, none,
  some, ltb, leb, ◌==◌, if◌then◌else◌, update, add_u64, sub_u64, mul_u64, u64_mod,
}
use capaz_os_kernel.Board.{Board, align_down_4k, align_up_4k, page_size, phys_to_hh_virt}

pub record Pmm : Type 0 where
  pub base_pa : ℕ
  pub limit_pa : ℕ
  pub total_pages : ℕ
  pub free_pages : ℕ
  pub bitmap : ℕ → ℕ
  pub next_hint : ℕ
  pub meta_base_pa : ℕ
  pub meta_pages : ℕ
  pub alloc_calls : ℕ
  pub free_calls : ℕ
  pub alloc_pages_calls : ℕ
  pub alloc_contig_calls : ℕ
  pub peak_used_pages : ℕ
  pub low_free_pages : ℕ

unfoldable pub pmm_update_pressure : Pmm → Pmm
pmm_update_pressure st =
    let used = sub_u64 st.total_pages st.free_pages in
    record st {
      peak_used_pages = if ltb st.peak_used_pages used then used else st.peak_used_pages;
      low_free_pages =
          if ltb st.free_pages st.low_free_pages then st.free_pages else st.low_free_pages;
    }

unfoldable pub bit_set : (ℕ → ℕ) → ℕ → ℕ → ℕ
bit_set bm idx = update bm (idx / 8) (bit_or (bm (idx / 8)) (2 ^ (idx % 8)))

unfoldable pub bit_clear : (ℕ → ℕ) → ℕ → ℕ → ℕ
bit_clear bm idx = update bm (idx / 8) (bit_and (bm (idx / 8)) (255 - 2 ^ (idx % 8)))

unfoldable pub bit_test : (ℕ → ℕ) → ℕ → Bool
bit_test bm idx = not ((bm (idx / 8) / 2 ^ (idx % 8)) % 2 == 0)

-- The loop of `bitmap_mark_range_free`, with n pages left from i on.
unfoldable pub free_bits : ℕ → ℕ → Pmm → Pmm
free_bits zero i st = st
free_bits (suc n) i st = free_bits n (suc i) (
    if bit_test st.bitmap i
    then record st { bitmap = bit_clear st.bitmap i; free_pages = add_u64 st.free_pages 1 }
    else st)

-- The loop of `bitmap_mark_range_reserved`.
unfoldable pub reserve_bits : ℕ → ℕ → Pmm → Pmm
reserve_bits zero i st = st
reserve_bits (suc n) i st = reserve_bits n (suc i) (
    if not (bit_test st.bitmap i)
    then record st {
      bitmap = bit_set st.bitmap i;
      free_pages = if not (st.free_pages == 0) then st.free_pages - 1 else st.free_pages;
    }
    else st)

-- The pages of the span [s, e), cut to the managed window, for one of the loops.
unfoldable pub mark_span : (ℕ → ℕ → Pmm → Pmm) → Pmm → ℕ → ℕ → Pmm
mark_span loop st s e =
    let s' = if ltb s st.base_pa then st.base_pa else s in
    let e' = if ltb st.limit_pa e then st.limit_pa else e in
    let first = (s' - st.base_pa) / page_size in
    let last = (e' - st.base_pa) / page_size in
    if leb e s || leb e' s' then st else loop (last - first) first st

unfoldable pub bitmap_mark_range_free : Pmm → ℕ → ℕ → Pmm
bitmap_mark_range_free st start end = mark_span free_bits st (align_up_4k start) (align_down_4k end)

unfoldable pub bitmap_mark_range_reserved : Pmm → ℕ → ℕ → Pmm
bitmap_mark_range_reserved st start end =
    mark_span reserve_bits st (align_down_4k start) (align_up_4k end)

-- Whether the `count` pages from i on are free.
unfoldable pub run_free : (ℕ → ℕ) → ℕ → ℕ → Bool
run_free bm zero i = true
run_free bm (suc count) i = not (bit_test bm i) && run_free bm count (suc i)

-- One pass of the search, for the run's first page from i on, with n rounds left.
unfoldable pub find_run : (ℕ → ℕ) → ℕ → ℕ → ℕ → Option ℕ
find_run bm count zero i = none
find_run bm count (suc n) i =
    let rest = find_run bm count n (suc i) in if run_free bm count i then some i else rest

-- A pass from i0 up to i1: the rounds with i + count ≤ i1.
unfoldable pub search_pass : (ℕ → ℕ) → ℕ → ℕ → ℕ → Option ℕ
search_pass bm count i0 i1 =
    if ltb i1 count then none else find_run bm count (i1 + 1 - count - i0) i0

unfoldable pub set_run : (ℕ → ℕ) → ℕ → ℕ → ℕ → ℕ
set_run bm zero i = bm
set_run bm (suc count) i = set_run (bit_set bm i) count (suc i)

-- The pages are marked, and the address of the first one is the result.
unfoldable pub commit : Pmm → ℕ → ℕ → Option ℕ × Pmm
commit st count i =
    let st' = pmm_update_pressure (record st {
      bitmap = set_run st.bitmap count i;
      free_pages = sub_u64 st.free_pages count;
    }) in
    (some (add_u64 st.base_pa (mul_u64 i page_size)), record st' { next_hint = add_u64 i count })

unfoldable pub choose : Pmm → ℕ → Option ℕ
choose st count =
    let n = st.total_pages in
    let start = if leb n st.next_hint then 0 else st.next_hint in
    elim (search_pass st.bitmap count start n) [
      | some i ↦ some i
      | none ↦ search_pass st.bitmap count 0 start
    ]

unfoldable pub count_call : Pmm → ℕ → Pmm
count_call st count = record st {
  alloc_pages_calls = add_u64 st.alloc_pages_calls 1;
  alloc_contig_calls =
      if ltb 1 count then add_u64 st.alloc_contig_calls 1 else st.alloc_contig_calls;
}

-- The address, `none` for false.
unfoldable pub pmm_alloc_pages : Pmm → ℕ → Option ℕ × Pmm
pmm_alloc_pages st0 count =
    let st = count_call st0 count in
    if count == 0 || (ltb st.free_pages count || ltb st.total_pages count)
    then (none, st)
    else elim (choose st count) [ some i ↦ commit st count i | none ↦ (none, st) ]

unfoldable pub pmm_alloc_page : Pmm → Option ℕ × Pmm
pmm_alloc_page st = pmm_alloc_pages st 1

-- The page's virtual address and its physical one.
unfoldable pub pmm_alloc_page_va : Board → Pmm → Option (ℕ × ℕ) × Pmm
pmm_alloc_page_va b st =
    let (pa, st') = pmm_alloc_page (record st { alloc_calls = add_u64 st.alloc_calls 1 }) in
    elim pa [ none ↦ (none, st') | some p ↦ (some (phys_to_hh_virt b p, p), st') ]

-- The guards of `pmm_free_page`: the address is that of a page that it may free.
unfoldable pub freeable : Pmm → ℕ → Bool
freeable st pa =
    not (ltb pa st.base_pa || leb st.limit_pa pa)
    && (pa % page_size == 0
        && (ltb ((pa - st.base_pa) / page_size) st.total_pages
            && not (
                leb st.meta_base_pa pa
                && ltb pa (add_u64 st.meta_base_pa (mul_u64 st.meta_pages page_size)))))

unfoldable pub release : Pmm → ℕ → Pmm
release st idx =
    let st' =
      pmm_update_pressure
        (record st { bitmap = bit_clear st.bitmap idx; free_pages = add_u64 st.free_pages 1 }) in
    if ltb idx st'.next_hint then record st' { next_hint = idx } else st'

unfoldable pub pmm_free_page : Pmm → ℕ → Pmm
pmm_free_page st0 pa =
    let st = record st0 { free_calls = add_u64 st0.free_calls 1 } in
    let idx = (pa - st.base_pa) / page_size in
    if not (freeable st pa) then st else if bit_test st.bitmap idx then release st idx else st
