-- ===== src/Heap/Return.antt =====
-- A large block of kheap.c that is freed.
use capaz_os_kernel.Common.{
  ℕ, zero, suc, ◌+◌, ◌-◌, ◌*◌, ◌/◌, ◌%◌, ◌≤◌, ◌<◌, ◌≡◌, ◌≢◌, inl, inr, refl, ap, sym, subst, ◌∙◌,
  arith, true, false, ◌&&◌, Bool-cases, some, ltb, leb, ◌==◌, add_u64, u32_mod,
}
use capaz_os_kernel.Board.{
  Board, ram_base, win_end, page_size, align_down_4k, phys_to_hh_virt, hh_virt_to_phys,
}
use capaz_os_kernel.Pmm.{Pmm, bit_test, freeable, pmm_free_page}
use capaz_os_kernel.Pmm.Alloc.{IsValid, SamePlace, page_pa}
use capaz_os_kernel.Pmm.Free.{Own, free-Freed, freeable-page, page-index, without}
use capaz_os_kernel.Pmm.History.{SamePlace-trans, same_place}
use capaz_os_kernel.Pmm.Marks.{with_value}
use capaz_os_kernel.Heap.{
  Heap, big, pages_for, kheap_account_free, kheap_free_pages, free_pages_from, free_big, free_at,
  kmalloc, kfree,
}
use capaz_os_kernel.Heap.Big.{InRam, there_and_back, BigBlock, kmalloc_big}

-- `p'` is `p` with the n pages from page i on free.
record Returned (p p' : Pmm) (i n : ℕ) : Type 0 where
  now : (j : ℕ) → bit_test p'.bitmap j ≡ with_value (bit_test p.bitmap) false i n j
  place : SamePlace p p'
  valid : IsValid p'

free_pages_from_lem :
    (n i : ℕ) (p : Pmm)
    → IsValid p
    → i + n ≤ p.total_pages
    → ((j : ℕ) → i ≤ j → j < i + n → Own p j → ⊥)
    → Returned p (free_pages_from n (page_pa p i) p) i n
unfolding free_pages_from
free_pages_from_lem zero i p v fit other = record {
  now = λ j. ground arith;
  place = same_place p;
  valid = v;
}
free_pages_from_lem (suc n) i p v fit other =
    let f = free-Freed p (page_pa p i) v in
    let good : freeable p (page_pa p i) ≡ true =
      freeable-page p i v (omega arith) (other i (omega arith) (omega arith)) in
    let at_i : (page_pa p i - p.base_pa) / page_size ≡ i = page-index p i in
    let p1 = pmm_free_page p (page_pa p i) in
    let following : add_u64 (page_pa p i) page_size ≡ page_pa p1 (suc i) =
      omega (arith, f.place.base_pa, v.window, v.fits, fit) in
    let rest =
      free_pages_from_lem n (suc i) p1 f.valid (omega (arith, f.place.total_pages))
        (λ j ge lt own. other j (omega arith) (omega arith) (own_before j f.place own)) in
    record {
      now = λ j.
          ap (λ a. bit_test (free_pages_from n a p1).bitmap j) following
          ∙ rest.now j
          ∙ step j (f.now j ∙ rw (good, at_i) refl);
      place = rw following (SamePlace-trans f.place rest.place);
      valid = rw following rest.valid;
    }
  where
    own_before :
        (j : ℕ)
        → SamePlace p (pmm_free_page p (page_pa p i))
        → Own (pmm_free_page p (page_pa p i)) j
        → Own p j
    own_before j s (a, b) = (
      omega (arith, s.base_pa, s.meta_base_pa),
      omega (arith, s.base_pa, s.meta_base_pa, ap (λ x. x * page_size) s.meta_pages),
    )

    step :
        (j : ℕ)
        → bit_test (pmm_free_page p (page_pa p i)).bitmap j ≡ without (bit_test p.bitmap) true i j
        → with_value (bit_test (pmm_free_page p (page_pa p i)).bitmap) false (suc i) n j
          ≡ with_value (bit_test p.bitmap) false i (suc n) j
    step j e = rw e (ground arith)

-- The pages of a large block go back to the page allocator.
free_at-pages :
    (b : Board) (h : Heap) (ptr pa n : ℕ)
    → pa % page_size ≡ 0
    → hh_virt_to_phys b (align_down_4k ptr) ≡ pa
    → align_down_4k ptr ≢ 0
    → n ≢ 0
    → (free_at b h ptr (big n)).pmm ≡ free_pages_from n pa h.pmm
unfolding free_at free_big kheap_free_pages kheap_account_free
free_at-pages b h ptr pa n pg e nz ne =
    let z : (n == 0) ≡ false = ground arith in
    let z' : (align_down_4k ptr == 0) ≡ false = ground arith in
    let down : align_down_4k (hh_virt_to_phys b (align_down_4k ptr)) ≡ pa = omega (arith, e, pg) in
    rw (z, z') (ap (λ a. free_pages_from n a h.pmm) down)

kfree-pages :
    (b : Board) (h : Heap) (pa n : ℕ)
    → pa % page_size ≡ 0
    → ram_base b ≤ pa
    → pa < win_end b
    → h.header (phys_to_hh_virt b pa) ≡ big n
    → n ≢ 0
    → (kfree b h (phys_to_hh_virt b pa + 8)).pmm ≡ free_pages_from n pa h.pmm
unfolding kfree
kfree-pages b h pa n pg ge lt e ne =
    let (va, back) = there_and_back b pa ge lt in
    let nz : (phys_to_hh_virt b pa + 8 == 0) ≡ false = ground arith in
    let page : align_down_4k (phys_to_hh_virt b pa + 8) ≡ phys_to_hh_virt b pa =
      omega (arith, va, pg) in
    let head : h.header (align_down_4k (phys_to_hh_virt b pa + 8)) ≡ big n = ap h.header page ∙ e in
    rw (nz, head)
      (free_at-pages b (record h { kfree_calls = add_u64 h.kfree_calls 1 })
        (phys_to_hh_virt b pa + 8) pa n pg (ap (hh_virt_to_phys b) (page ∙ va) ∙ back)
        (omega (arith, va, page)) ne)

-- A large block that is allocated and freed leaves the pages as they were, and the page allocator's
-- state valid.
pub malloc-free :
    (b : Board) (h : Heap) (size ptr : ℕ) (h' : Heap)
    → IsValid h.pmm
    → InRam b h.pmm
    → 2048 < size
    → size + 4104 < u32_mod * page_size
    → kmalloc b h size ≡ (some ptr, h')
    → ((j : ℕ) → bit_test (kfree b h' ptr).pmm.bitmap j ≡ bit_test h.pmm.bitmap j)
      × IsValid (kfree b h' ptr).pmm
malloc-free b h size ptr h' v ram large fit q =
    let (i, k) = kmalloc_big b h size ptr h' v ram large fit q in
    let n = pages_for size in
    let base : h'.pmm.base_pa ≡ h.pmm.base_pa = k.taken.place.base_pa in
    let freed : (kfree b h' ptr).pmm ≡ free_pages_from n (page_pa h'.pmm i) h'.pmm =
      ap (λ x. (kfree b h' x).pmm) k.address
      ∙ kfree-pages b h' (page_pa h.pmm i) n (omega (arith, v.aligned)) (omega (arith, ram.0))
          (omega (arith, v.window, k.taken.inside, ram.1, k.room)) k.header
          (λ z. omega (arith, z, k.room))
      ∙ ap (λ x. free_pages_from n (x + i * page_size) h'.pmm) (sym base) in
    let r =
      free_pages_from_lem n i h'.pmm k.taken.valid
        (omega (arith, k.taken.inside, k.taken.place.total_pages))
        (λ j ge lt own. not_own i k j ge lt own) in
    (
      (λ j. ap (λ p. bit_test p.bitmap j) freed ∙ r.now j ∙ restored i k j),
      subst IsValid (sym freed) r.valid,
    )
  where
    not_own :
        (i : ℕ)
        → BigBlock b h h' size ptr i (pages_for size)
        → (j : ℕ) → i ≤ j
        → j < i + pages_for size
        → Own h'.pmm j
        → ⊥
    not_own i k j ge lt (a, c) =
        let s = k.taken.place in
        let was : bit_test h.pmm.bitmap j ≡ false = k.taken.was_free j ge lt in
        let own : bit_test h.pmm.bitmap j ≡ true =
          v.kept j (omega (arith, k.taken.inside)) (omega (arith, s.base_pa, s.meta_base_pa))
            (omega (arith, s.base_pa, s.meta_base_pa, ap (λ x. x * page_size) s.meta_pages)) in
        ground arith

    restored :
        (i : ℕ)
        → BigBlock b h h' size ptr i (pages_for size)
        → (j : ℕ)
        → with_value (bit_test h'.pmm.bitmap) false i (pages_for size) j ≡ bit_test h.pmm.bitmap j
    restored i k j = elim (Bool-cases (leb i j && ltb j (i + pages_for size))) [
      | inr out ↦ rw out (k.taken.now j ∙ rw out refl)
      | inl within ↦ rw within (sym (k.taken.was_free j (ground arith) (ground arith)))
    ]
