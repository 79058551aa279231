-- ===== src/Heap/Big.antt =====
-- Large blocks of kheap.c: whole pages.
use capaz_os_kernel.Common.{
  ℕ, ◌+◌, ◌*◌, ◌≤◌, ◌<◌, ◌≡◌, inl, inr, refl, ap, sym, subst, ◌∙◌, arith, true, false, Option, none,
  some, Option-cases, ◌==◌, update, add_u64, mul_u64, u64_mod, u32_mod,
}
use capaz_os_kernel.Board.{
  Board, virt, rpi3, ram_base, win_end, hh_base, page_size, phys_to_hh_virt, hh_virt_to_phys,
}
use capaz_os_kernel.Pmm.{Pmm, pmm_alloc_pages}
use capaz_os_kernel.Pmm.Alloc.{IsValid, Taken, page_pa, alloc_lem}
use capaz_os_kernel.Heap.{
  Heap, big, bucket_for_size, pages_for, kheap_account_alloc, kheap_alloc_pages, take_big,
  put_header, kmalloc,
}
use capaz_os_kernel.Heap.Buckets.{bucket_lem}
use capaz_os_kernel.Heap.Refill.{first_block}

-- A size above the largest block falls in no bucket.
no_bucket-large : (size : ℕ) → 2048 < size → bucket_for_size size ≡ none
no_bucket-large size lt = elim (Option-cases (bucket_for_size size)) [
  | inl e ↦ e
  | inr (i, e) ↦
      let (small, fits, _) = bucket_lem size i e in
      let (_, _, most) = first_block i 0 (omega arith) (omega arith) (omega arith) in
      absurd (omega arith)
]

-- The window of the page allocator lies in the mapped RAM.
abbrev pub InRam : Board → Pmm → Type 0
InRam b st = (ram_base b ≤ st.base_pa) × (st.limit_pa ≤ win_end b)

-- In the mapped RAM the two translations of addresses are inverse, and keep pages.
pub there_and_back :
    (b : Board) (pa : ℕ)
    → ram_base b ≤ pa
    → pa < win_end b
    → (phys_to_hh_virt b pa ≡ hh_base + pa) × (hh_virt_to_phys b (hh_base + pa) ≡ pa)
unfolding phys_to_hh_virt hh_virt_to_phys
there_and_back virt pa ge lt = (omega arith, ground arith)
there_and_back rpi3 pa ge lt = (omega arith, ground arith)

-- What `kmalloc` leaves for a large block: `count` pages from page i on are taken, and the header of the
-- first tells their number.
pub record BigBlock (b : Board) (h h' : Heap) (size ptr i count : ℕ) : Type 0 where
  pub taken : Taken h.pmm h'.pmm i count
  pub address : ptr ≡ phys_to_hh_virt b (page_pa h.pmm i) + 8
  pub room : size + 8 ≤ count * page_size
  pub tight : count * page_size < size + 8 + page_size
  pub header : h'.header (phys_to_hh_virt b (page_pa h.pmm i)) ≡ big count
  pub bytes : h'.cur_bytes ≡ add_u64 h.cur_bytes (count * page_size)

pages_for_lem :
    (size : ℕ)
    → size + 4104 < u32_mod * page_size
    → (size + 8 ≤ pages_for size * page_size) × (pages_for size * page_size < size + 8 + page_size)
unfolding pages_for
pages_for_lem size fit = (omega arith, omega arith)

-- The heap once the pages at pa are those of a large block.
abbrev filled : Board → Heap → ℕ → ℕ → Heap
filled b h size pa =
    kheap_account_alloc
      (record h {
        pmm = (pmm_alloc_pages h.pmm (pages_for size)).1;
        header = update h.header (phys_to_hh_virt b pa) (big (pages_for size));
        big_alloc_calls = add_u64 h.big_alloc_calls 1;
      })
      (mul_u64 (pages_for size) page_size)

pages-some :
    (b : Board) (h : Heap) (n pa : ℕ)
    → (n == 0) ≡ false
    → (pmm_alloc_pages h.pmm n).0 ≡ some pa
    → kheap_alloc_pages b h n
      ≡ (some (phys_to_hh_virt b pa), record h { pmm = (pmm_alloc_pages h.pmm n).1 })
unfolding kheap_alloc_pages
pages-some b h n pa z e = rw (z, e, kheap_alloc_pages) refl

pages-none :
    (b : Board) (h : Heap) (n : ℕ)
    → (n == 0) ≡ false
    → (pmm_alloc_pages h.pmm n).0 ≡ none
    → (kheap_alloc_pages b h n).0 ≡ none
unfolding kheap_alloc_pages
pages-none b h n z e = rw (z, e, kheap_alloc_pages) refl

take_big-some :
    (b : Board) (h : Heap) (size pa : ℕ)
    → (pages_for size == 0) ≡ false
    → (pmm_alloc_pages h.pmm (pages_for size)).0 ≡ some pa
    → take_big b h size ≡ (some (add_u64 (phys_to_hh_virt b pa) 8), filled b h size pa)
unfolding take_big put_header
take_big-some b h size pa z e =
    ap (put_header (pages_for size)) (pages-some b h (pages_for size) pa z e)

take_big-none :
    (b : Board) (h : Heap) (size : ℕ)
    → (pages_for size == 0) ≡ false
    → (pmm_alloc_pages h.pmm (pages_for size)).0 ≡ none
    → (take_big b h size).0 ≡ none
unfolding take_big put_header
take_big-none b h size z e =
    failed (kheap_alloc_pages b h (pages_for size)) (pages-none b h (pages_for size) z e)
  where
    failed : (r : Option ℕ × Heap) → r.0 ≡ none → (put_header (pages_for size) r).0 ≡ none
    failed (none, h') e' = refl
    failed (some x, h') e' = absurd (ground arith)

filled-BigBlock :
    (b : Board) (h : Heap) (size pa i : ℕ)
    → IsValid h.pmm
    → InRam b h.pmm
    → size + 4104 < u32_mod * page_size
    → pa ≡ page_pa h.pmm i
    → Taken h.pmm (pmm_alloc_pages h.pmm (pages_for size)).1 i (pages_for size)
    → BigBlock b h (filled b h size pa) size (add_u64 (phys_to_hh_virt b pa) 8) i (pages_for size)
unfolding kheap_account_alloc
filled-BigBlock b h size pa i v ram fit e t =
    let (room, tight) = pages_for_lem size fit in
    let inside : pa < win_end b = omega (arith, v.window, t.inside, ram.1) in
    let there = (there_and_back b pa (omega (arith, ram.0)) inside).0 in
    let self : (phys_to_hh_virt b pa == phys_to_hh_virt b pa) ≡ true = ground arith in
    let len : mul_u64 (pages_for size) page_size ≡ pages_for size * page_size =
      omega (arith, tight) in
    record {
      taken = t;
      address =
          ap (λ x. add_u64 x 8) (ap (phys_to_hh_virt b) e)
          ∙ small_address (ap (phys_to_hh_virt b) (sym e) ∙ there) inside;
      room = room;
      tight = tight;
      header = rw (sym e) (rw self refl);
      bytes = ap (λ n. add_u64 h.cur_bytes n) len;
    }
  where
    small_address : {x : ℕ} → x ≡ hh_base + pa → pa < win_end b → add_u64 x 8 ≡ x + 8
    small_address e lt = omega (arith, e, lt, bound b)
      where
        bound : (b : Board) → win_end b + hh_base + 16 < u64_mod
        bound virt = omega arith
        bound rpi3 = omega arith

taken_big :
    (b : Board) (h : Heap) (size ptr : ℕ) (h' : Heap)
    → IsValid h.pmm
    → InRam b h.pmm
    → size + 4104 < u32_mod * page_size
    → take_big b h size ≡ (some ptr, h')
    → (i : ℕ) × BigBlock b h h' size ptr i (pages_for size)
taken_big b h size ptr h' v ram fit q =
    let (room, tight) = pages_for_lem size fit in
    let some_pages : (pages_for size == 0) ≡ false = ground arith in
    elim (Option-cases (pmm_alloc_pages h.pmm (pages_for size)).0) [
      | inl e ↦ absurd (no_value (sym (take_big-none b h size some_pages e) ∙ ap (λ r. r.0) q))
      | inr (pa, e) ↦
          let (i, at_i, t) =
            alloc_lem h.pmm (pages_for size) pa (pmm_alloc_pages h.pmm (pages_for size)).1 v
              (ap (λ o. (o, (pmm_alloc_pages h.pmm (pages_for size)).1)) e) in
          let w = sym (take_big-some b h size pa some_pages e) ∙ q in
          (
            i,
            subst (λ k. BigBlock b h k size ptr i (pages_for size)) (ap (λ r. r.1) w)
                (subst (λ p. BigBlock b h (filled b h size pa) size p i (pages_for size))
                  (some_inj (ap (λ r. r.0) w)) (filled-BigBlock b h size pa i v ram fit at_i t)),
          )
    ]
  where
    no_value : none ≡ some ptr → ⊥
    no_value e = ground arith

    some_inj : {p p' : ℕ} → some p ≡ some p' → p ≡ p'
    some_inj e = ground arith

-- A request above 2048 bytes and below 2^44, when it succeeds, gets as many pages as it needs with its
-- header and no more. They were free, no other page changes, and the block begins behind the header.
pub kmalloc_big :
    (b : Board) (h : Heap) (size ptr : ℕ) (h' : Heap)
    → IsValid h.pmm
    → InRam b h.pmm
    → 2048 < size
    → size + 4104 < u32_mod * page_size
    → kmalloc b h size ≡ (some ptr, h')
    → (i : ℕ) × BigBlock b h h' size ptr i (pages_for size)
unfolding kmalloc
kmalloc_big b h size ptr h' v ram large fit q =
    let nonzero : (size == 0) ≡ false = ground arith in
    let h0 = record h { kmalloc_calls = add_u64 h.kmalloc_calls 1 } in
    let step : take_big b h0 size ≡ (some ptr, h') =
      sym (rw (nonzero, no_bucket-large size large) refl) ∙ q in
    let (i, k) = taken_big b h0 size ptr h' v ram fit step in
    (
      i,
      record {
        taken = k.taken;
        address = k.address;
        room = k.room;
        tight = k.tight;
        header = k.header;
        bytes = k.bytes;
      },
    )
