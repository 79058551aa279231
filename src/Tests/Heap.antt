-- ===== src/Tests/Heap.antt =====
-- The heap on concrete inputs.
use capaz_os_kernel.Common.{ℕ, ◌≡◌, ◌<◌, ◌+◌, ◌*◌, refl, arith, some, List}
use capaz_os_kernel.Common.Links.{Links}
use capaz_os_kernel.Board.{virt, page_size, phys_to_hh_virt}
use capaz_os_kernel.Pmm.{
  Pmm, bit_test, run_free, find_run, search_pass, commit, choose, count_call, pmm_alloc_pages,
}
use capaz_os_kernel.Pmm.Count.{free_below}
use capaz_os_kernel.Pmm.Alloc.{IsValid}
use capaz_os_kernel.Heap.{
  Heap, unknown, kmalloc, kfree, bucket_for_size, bucket_from, bucket_size, carve_page, take_big,
  put_header, pages_for, kheap_alloc_pages, push_blocks,
}
use capaz_os_kernel.Heap.Refill.{Stack, carve_page_lem}
use capaz_os_kernel.Heap.Return.{malloc-free}

-- Four free pages of RAM.
abbrev pages : Pmm
pages = record {
  base_pa = 0x40030000;
  limit_pa = 0x40034000;
  total_pages = 4;
  free_pages = 4;
  bitmap = λ i. 0;
  next_hint = 0;
  meta_base_pa = 0x40020000;
  meta_pages = 16;
  alloc_calls = 0;
  free_calls = 0;
  alloc_pages_calls = 0;
  alloc_contig_calls = 0;
  peak_used_pages = 0;
  low_free_pages = 4;
}

pages-IsValid : IsValid pages
unfolding free_below bit_test
pages-IsValid = record {
  bytes = λ i. omega arith;
  counted = refl;
  window = refl;
  aligned = refl;
  fits = omega arith;
  meta_fits = omega arith;
  hint = omega arith;
  kept = λ i lt ge lt'. absurd (omega arith);
}

abbrev heap : Heap
heap = record {
  pmm = pages;
  freelist = λ b. 0;
  next = λ a. 0;
  header = λ a. unknown;
  cur_bytes = 0;
  peak_bytes = 0;
  small_allocs = λ b. 0;
  small_frees = λ b. 0;
  big_alloc_calls = 0;
  big_free_calls = 0;
  fail_calls = 0;
  kmalloc_calls = 0;
  kfree_calls = 0;
  bucket_refills = λ b. 0;
}

abbrev after : Heap
after = (kmalloc virt heap 5000).1

two_pages : kmalloc virt heap 5000 ≡ (some 0xFFFF800040030008, after)
unfolding kmalloc bucket_for_size bucket_from take_big put_header pages_for kheap_alloc_pages
    pmm_alloc_pages count_call choose search_pass find_run run_free bit_test commit phys_to_hh_virt
two_pages = refl

malloc-free_example :
    ((j : ℕ)
      → bit_test (kfree virt after 0xFFFF800040030008).pmm.bitmap j ≡ bit_test heap.pmm.bitmap j)
    × IsValid (kfree virt after 0xFFFF800040030008).pmm
malloc-free_example =
    malloc-free virt heap 5000 0xFFFF800040030008 after pages-IsValid (omega arith, omega arith)
      (omega arith) (omega arith) two_pages

carve_page_lem_example :
    (ys : List ℕ) × Links
      (carve_page 7 0x40030000 heap).next
      ((carve_page 7 0x40030000 heap).freelist 7)
      ys
      0
    × Stack (0x40030000 + 8) (bucket_size 7) (0x40030000 + page_size) ys
    × (0x40030000 + page_size < (carve_page 7 0x40030000 heap).freelist 7 + 2 * bucket_size 7)
carve_page_lem_example = carve_page_lem 7 0x40030000 heap (omega arith) refl (omega arith) refl

-- A page of the largest bucket holds one block.
one_block : (carve_page 7 0x40030000 heap).freelist 7 ≡ 0x40030800
unfolding carve_page push_blocks
one_block = refl

-- The length of nearly 2^64 bytes wraps, and one page is handed out.
wrapped : (kmalloc virt heap 0xFFFFFFFFFFFFFFFC).0 ≡ some 0xFFFF800040030008
unfolding kmalloc bucket_for_size bucket_from take_big put_header pages_for kheap_alloc_pages
    pmm_alloc_pages count_call choose search_pass find_run run_free bit_test commit phys_to_hh_virt
wrapped = refl

-- Past 2^44 bytes the number of pages wraps, and one page is handed out.
truncated : (kmalloc virt heap 0x100000000000).0 ≡ some 0xFFFF800040030008
unfolding kmalloc bucket_for_size bucket_from take_big put_header pages_for kheap_alloc_pages
    pmm_alloc_pages count_call choose search_pass find_run run_free bit_test commit phys_to_hh_virt
truncated = refl
