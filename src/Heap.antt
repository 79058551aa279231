-- ===== src/Heap.antt =====
-- The kernel heap, kheap.c: eight buckets of small blocks, and whole pages for what is larger. The
-- header in the first word of a page and the link in the first word of a free block are stores by
-- address; what else the pages hold, the poison that `kfree` writes included, is left out, but for the
-- headers that the poison wipes. `kfree` is for blocks that `kmalloc` returned.
pub mod Buckets
pub mod Refill
pub mod Big
pub mod Return
use capaz_os_kernel.Common.{
  ℕ, zero, suc, ◌+◌, ◌-◌, ◌*◌, ◌/◌, ◌%◌, ◌^◌, Bool, true, false, not, ◌&&◌, ◌||◌, Option, none,
  some, ltb, leb, ◌==◌, if◌then◌else◌, update, add_u64, mul_u64, sub_u64, u32_mod,
}
use capaz_os_kernel.Board.{
  Board, page_size, align_down_4k, align_up_4k, phys_to_hh_virt, hh_virt_to_phys,
}
use capaz_os_kernel.Pmm.{Pmm, pmm_alloc_pages, pmm_alloc_page_va, pmm_free_page}

-- The header of a page: that of a bucket's page with its index and block size, that of a large block
-- with its number of pages, or neither magic number.
pub data Header : Type 0 where
  slab : ℕ → ℕ → Header
  big : ℕ → Header
  unknown : Header

pub record Heap : Type 0 where
  pub pmm : Pmm
  pub freelist : ℕ → ℕ
  pub next : ℕ → ℕ
  pub header : ℕ → Header
  pub cur_bytes : ℕ
  pub peak_bytes : ℕ
  pub small_allocs : ℕ → ℕ
  pub small_frees : ℕ → ℕ
  pub big_alloc_calls : ℕ
  pub big_free_calls : ℕ
  pub fail_calls : ℕ
  pub kmalloc_calls : ℕ
  pub kfree_calls : ℕ
  pub bucket_refills : ℕ → ℕ

abbrev pub num_buckets : ℕ
num_buckets = 8

-- The table of block sizes, 16 to 2048.
abbrev pub bucket_size : ℕ → ℕ
bucket_size i = 16 * 2 ^ i

unfoldable pub kheap_account_alloc : Heap → ℕ → Heap
kheap_account_alloc h bytes =
    let cur = add_u64 h.cur_bytes bytes in
    record h { cur_bytes = cur; peak_bytes = if ltb h.peak_bytes cur then cur else h.peak_bytes }

unfoldable pub kheap_account_free : Heap → ℕ → Heap
kheap_account_free h bytes = record h {
  cur_bytes = if leb bytes h.cur_bytes then h.cur_bytes - bytes else 0;
}

-- The loop of `bucket_for_size`, with n buckets left from i on; `none` is -1.
unfoldable pub bucket_from : ℕ → ℕ → ℕ → Option ℕ
bucket_from zero i size = none
bucket_from (suc n) i size =
    let rest = bucket_from n (suc i) size in if leb size (bucket_size i) then some i else rest

unfoldable pub bucket_for_size : ℕ → Option ℕ
bucket_for_size size = bucket_from num_buckets 0 size

-- The loop that puts the blocks from p up to `end` on the free list.
unfoldable pub push_blocks : ℕ → ℕ → ℕ → ℕ → ℕ → Heap → Heap
push_blocks zero b bs end p h = h
push_blocks (suc fuel) b bs end p h =
    let rest =
      push_blocks fuel b bs end (add_u64 p bs)
        (record h { next = update h.next p (h.freelist b); freelist = update h.freelist b p }) in
    if leb (add_u64 p bs) end then rest else h

-- The page at base becomes one of bucket b. The fuel is the number of the smallest blocks in a page.
unfoldable pub carve_page : ℕ → ℕ → Heap → Heap
carve_page b base h =
    let bs = bucket_size b in
    let start = add_u64 (add_u64 base 8) (bs - 1) / bs * bs in
    push_blocks 256 b bs (add_u64 base page_size) start
      (record h { header = update h.header base (slab b bs) })

unfoldable pub refill_bucket : Board → ℕ → Heap → Heap
refill_bucket board b h0 =
    let h = record h0 {
      bucket_refills =
          if ltb b num_buckets
          then update h0.bucket_refills b (add_u64 (h0.bucket_refills b) 1)
          else h0.bucket_refills;
    } in
    let (va, p) = pmm_alloc_page_va board h.pmm in
    elim va [
      | none ↦ record h { pmm = p }
      | some (base, _) ↦ carve_page b base (record h { pmm = p })
    ]

unfoldable pub kheap_init : Heap → Heap
kheap_init h = record h { freelist = λ i. if ltb i num_buckets then 0 else h.freelist i }

-- The address of the first page.
unfoldable pub kheap_alloc_pages : Board → Heap → ℕ → Option ℕ × Heap
kheap_alloc_pages board h pages =
    let (pa, p) = pmm_alloc_pages h.pmm pages in
    if pages == 0 then (none, h) else elim pa [
      | none ↦ (none, record h { pmm = p; fail_calls = add_u64 h.fail_calls 1 })
      | some a ↦ (some (phys_to_hh_virt board a), record h { pmm = p })
    ]

-- The loop that frees n pages from the address on.
unfoldable pub free_pages_from : ℕ → ℕ → Pmm → Pmm
free_pages_from zero pa p = p
free_pages_from (suc n) pa p = free_pages_from n (add_u64 pa page_size) (pmm_free_page p pa)

unfoldable pub kheap_free_pages : Board → Heap → ℕ → ℕ → Heap
kheap_free_pages board h va pages =
    if va == 0 || pages == 0
    then h
    else record h { pmm = free_pages_from pages (align_down_4k (hh_virt_to_phys board va)) h.pmm }

-- A block of bucket b.
unfoldable pub take_small : Board → Heap → ℕ → Option ℕ × Heap
take_small board h0 b =
    let filled = refill_bucket board b h0 in
    let h = if h0.freelist b == 0 then filled else h0 in
    let n = h.freelist b in
    if n == 0 then (none, h) else (
      some n,
      kheap_account_alloc
          (record h {
            freelist = update h.freelist b (h.next n);
            small_allocs = update h.small_allocs b (add_u64 (h.small_allocs b) 1);
          })
          (bucket_size b),
    )

-- The number of pages that a block of `size` bytes takes with its header, as a word of 32 bits.
unfoldable pub pages_for : ℕ → ℕ
pages_for size = align_up_4k (add_u64 size 8) / page_size % u32_mod

-- The header goes in front of the block, if there are pages for it.
unfoldable pub put_header : ℕ → Option ℕ × Heap → Option ℕ × Heap
put_header pages (none, h) = (none, h)
put_header pages (some base, h) = (
  some (add_u64 base 8),
  kheap_account_alloc
      (record h {
        header = update h.header base (big pages);
        big_alloc_calls = add_u64 h.big_alloc_calls 1;
      })
      (mul_u64 pages page_size),
)

-- Whole pages.
unfoldable pub take_big : Board → Heap → ℕ → Option ℕ × Heap
take_big board h size = put_header (pages_for size) (kheap_alloc_pages board h (pages_for size))

unfoldable pub kmalloc : Board → Heap → ℕ → Option ℕ × Heap
kmalloc board h0 size =
    let h = record h0 { kmalloc_calls = add_u64 h0.kmalloc_calls 1 } in
    if size == 0 then (none, h) else elim (bucket_for_size size) [
      | some b ↦ take_small board h b
      | none ↦ take_big board h size
    ]

-- The block goes back to its bucket.
unfoldable pub free_small : Heap → ℕ → ℕ → ℕ → Heap
free_small h ptr b block_size =
    kheap_account_free
      (record h {
        next = update h.next ptr (h.freelist b);
        freelist = update h.freelist b ptr;
        small_frees = update h.small_frees b (add_u64 (h.small_frees b) 1);
      })
      block_size

-- The pages go back to the page allocator.
unfoldable pub free_big : Board → Heap → ℕ → ℕ → Heap
free_big board h page_va pages =
    kheap_free_pages board
      (kheap_account_free
        (record h {
          header = λ a.
              if leb page_va a && ltb a (page_va + pages * page_size) then unknown else h.header a;
          big_free_calls = add_u64 h.big_free_calls 1;
        })
        (mul_u64 pages page_size))
      page_va pages

-- What the header of the block's page says.
unfoldable pub free_at : Board → Heap → ℕ → Header → Heap
free_at board h ptr (slab b block_size) =
    if leb num_buckets b then h else free_small h ptr b block_size
free_at board h ptr (big pages) =
    if pages == 0 then h else free_big board h (align_down_4k ptr) pages
free_at board h ptr unknown = h

unfoldable pub kfree : Board → Heap → ℕ → Heap
kfree board h0 ptr =
    let h = record h0 { kfree_calls = add_u64 h0.kfree_calls 1 } in
    if ptr == 0 then h else free_at board h ptr (h.header (align_down_4k ptr))

pub record KheapStats : Type 0 where
  pub cur_bytes : ℕ
  pub peak_bytes : ℕ
  pub kmalloc_calls : ℕ
  pub kfree_calls : ℕ
  pub big_alloc_calls : ℕ
  pub big_free_calls : ℕ
  pub fail_calls : ℕ
  pub bucket_refill_calls : ℕ → ℕ

unfoldable pub kheap_get_stats : Heap → KheapStats
kheap_get_stats h = record {
  cur_bytes = h.cur_bytes;
  peak_bytes = h.peak_bytes;
  kmalloc_calls = h.kmalloc_calls;
  kfree_calls = h.kfree_calls;
  big_alloc_calls = h.big_alloc_calls;
  big_free_calls = h.big_free_calls;
  fail_calls = h.fail_calls;
  bucket_refill_calls = h.bucket_refills;
}
