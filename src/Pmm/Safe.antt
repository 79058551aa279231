-- ===== src/Pmm/Safe.antt =====
-- Where the pages lie that mm/pmm.c hands out after boot.
use capaz_os_kernel.Common.{
  ℕ, ◌+◌, ◌-◌, ◌*◌, ◌/◌, ◌%◌, ◌≤◌, ◌<◌, ◌≡◌, ap, sym, subst, ◌∙◌, inl, inr, arith, true, false,
  Bool-cases, some, List, [], ◌∷◌, ◌==◌, ==_iff, u64_mod,
}
use capaz_os_kernel.Board.{Board, page_size, hh_virt_to_phys}
use capaz_os_kernel.Platform.{DtbRange, BootInfo, Machine, metadata_pages, dtb_span}
use capaz_os_kernel.Platform.Cover.{Covers, Apart, range_end-exact}
use capaz_os_kernel.Platform.Align.{InWindow, Physical}
use capaz_os_kernel.Platform.Usable.{usable-Clean, win_end_lt_pages}
use capaz_os_kernel.Platform.Handout.{metadata_end, InBlob, usable_lem}
use capaz_os_kernel.Pmm.{Pmm, bit_test, pmm_alloc_pages, pmm_free_page}
use capaz_os_kernel.Pmm.Bitmap.{Bytes}
use capaz_os_kernel.Pmm.Alloc.{IsValid, SamePlace, page_pa, alloc_lem}
use capaz_os_kernel.Pmm.Free.{free-Freed}
use capaz_os_kernel.Pmm.History.{
  Call, alloc, free, step, run, SamePlace-trans, same_place, alloc-Held,
}
use capaz_os_kernel.Pmm.Init.{pmm_init}
use capaz_os_kernel.Pmm.Boot.{PageIn}
use capaz_os_kernel.Pmm.Ready.{init-Ready}

Apart-Physical :
    (b : Board) (rs : List DtbRange)
    → Apart rs
    → ((x : ℕ) → Covers rs x → InWindow b x)
    → Physical rs
Apart-Physical b [] a h = tt
Apart-Physical b (r ∷ rs) a h =
    let last = h (r.base + r.size - 1) (inl (omega (arith, a.0))) in
    (omega (arith, a.0, last.1, win_end_lt_pages b), Apart-Physical b rs a.2 (λ x c. h x (inr c)))

-- Every address of a page that lies in the ranges is covered.
page-Covers :
    (rs : List DtbRange) (p x : ℕ)
    → Physical rs
    → p % page_size ≡ 0
    → PageIn rs p
    → p ≤ x
    → x < p + page_size
    → Covers rs x
page-Covers [] p x ph pa c ge lt = absurd c
page-Covers (r ∷ rs) p x ph pa (inr c) ge lt = inr (page-Covers rs p x ph.1 pa c ge lt)
page-Covers (r ∷ rs) p x ph pa (inl w) ge lt =
    let e = range_end-exact r (omega (arith, ph.0)) in
    inl (omega (arith, ph.0, w.0), omega (arith, ph.0, w.1, e))

-- Every call of `pmm_free_page` is for a page that was free in the first state.
abbrev pub OnlyReturns : Pmm → List Call → Type 0
OnlyReturns st [] = Unit
OnlyReturns st (alloc n ∷ cs) = OnlyReturns st cs
OnlyReturns st (free q ∷ cs) =
    (bit_test st.bitmap ((q - st.base_pa) / page_size) ≡ false) × OnlyReturns st cs

-- `st'` is a valid state of the same window, and each page that is free in it was free in `st`.
record Within (st st' : Pmm) : Type 0 where
  place : SamePlace st st'
  valid : IsValid st'
  free : (j : ℕ) → bit_test st'.bitmap j ≡ false → bit_test st.bitmap j ≡ false

alloc-Within : (st st' : Pmm) (n : ℕ) → Within st st' → Within st (pmm_alloc_pages st' n).1
alloc-Within st st' n w =
    let h = λ (j : ℕ). alloc-Held st' n j 1 w.valid in
    record {
      place = SamePlace-trans w.place (h 0).place;
      valid = (h 0).valid;
      free = λ j e. elim (Bool-cases (bit_test st'.bitmap j)) [
        | inr was ↦ w.free j was
        | inl taken ↦ absurd (
            contradiction (
              sym (
                (h j).taken
                  (λ i ge lt. subst (λ k. bit_test st'.bitmap k ≡ true) (omega arith) taken) j
                  (omega arith) (omega arith))
              ∙ e))
      ];
    }
  where
    contradiction : true ≡ false → ⊥
    contradiction e = ground arith

free-Within :
    (st st' : Pmm) (q : ℕ)
    → Within st st'
    → bit_test st.bitmap ((q - st.base_pa) / page_size) ≡ false
    → Within st (pmm_free_page st' q)
free-Within st st' q w was =
    let f = free-Freed st' q w.valid in
    record {
      place = SamePlace-trans w.place f.place;
      valid = f.valid;
      free = λ j e. elim (Bool-cases ((q - st'.base_pa) / page_size == j)) [
        | inr other ↦ w.free j (ground (arith, f.now j))
        | inl at_j ↦
            let k = (==_iff ((q - st'.base_pa) / page_size) j).0 at_j in
            ap (λ i. bit_test st.bitmap i) (sym k ∙ ap (λ b. (q - b) / page_size) w.place.base_pa)
            ∙ was
      ];
    }

run-Within :
    (st st' : Pmm) (cs : List Call) → Within st st' → OnlyReturns st cs → Within st (run st' cs)
unfolding run step
run-Within st st' [] w o = w
run-Within st st' (alloc n ∷ cs) w o =
    run-Within st (pmm_alloc_pages st' n).1 cs (alloc-Within st st' n w) o
run-Within st st' (free q ∷ cs) w (was, o) =
    run-Within st (pmm_free_page st' q) cs (free-Within st st' q w was) o

-- What holds of an address of memory that may be handed out: it is in RAM and in the mapped window, in
-- no range that the device tree reserves, behind the kernel and the allocator's own pages, and not in
-- the device tree's blob.
abbrev pub Usable : Board → Machine → BootInfo → ℕ → Type 0
Usable b mc bi x =
    Covers mc.memory x
    × InWindow b x
    × (Covers mc.reserved x → ⊥)
    × (metadata_end b mc ≤ x)
    × (InBlob b mc bi x → ⊥)

-- Let `pmm_init` succeed, and let any allocations and frees follow, each free of a page that was free at
-- first. Every address of a block that is then handed out is in RAM and in the mapped window, in no range
-- that the device tree reserves, behind the kernel and the allocator's own pages, and not in the device
-- tree's blob. The addresses that the hardware and the boot loader give are not within a page of 2^64,
-- the first of the allocator's pages is not within 32 pages of it, and the memory holds bytes.
pub safe_pages :
    (b : Board) (mc : Machine) (bi : BootInfo) (memory : ℕ → ℕ) (st : Pmm) (cs : List Call)
    (count pa : ℕ) (st' : Pmm)
    → Bytes memory
    → Physical mc.memory
    → Physical mc.reserved
    → bi.kernel_phys_base + page_size ≤ u64_mod
    → metadata_end b mc + metadata_pages * page_size ≤ u64_mod
    → hh_virt_to_phys b bi.dtb_ptr + dtb_span bi mc.totalsize + page_size ≤ u64_mod
    → pmm_init b mc (some bi) memory ≡ some st
    → OnlyReturns st cs
    → pmm_alloc_pages (run st cs) count ≡ (some pa, st')
    → (x : ℕ) → pa ≤ x
    → x < pa + count * page_size
    → Usable b mc bi x
safe_pages b mc bi memory st cs count pa st' bytes pm pr fk fm fd q o qa x ge lt =
    let (usable, eu, (v, from)) = init-Ready b mc bi memory st bytes (omega arith) q in
    let w = run-Within st st cs (record { place = same_place st; valid = v; free = λ j e. e }) o in
    let (i, e, t) = alloc_lem (run st cs) count pa st' w.valid qa in
    let clean = usable-Clean b mc (some bi) 64 usable pm eu in
    let j = (x - st.base_pa) / page_size in
    let base : (run st cs).base_pa ≡ st.base_pa = w.place.base_pa in
    let was = w.free j (t.was_free j (omega (arith, e, base)) (omega (arith, e, base))) in
    let there = from j (omega (arith, e, base, t.inside, w.place.total_pages)) was in
    usable_lem b mc bi 64 usable pm pr fk fm fd eu x (
      page-Covers usable (page_pa st j) x
        (Apart-Physical b usable clean.apart (λ y c. (clean.memory y c).1))
        (omega (arith, v.aligned)) there (omega (arith, e, base)) (omega (arith, e, base)))
