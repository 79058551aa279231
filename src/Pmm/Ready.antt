-- ===== src/Pmm/Ready.antt =====
-- What holds when `pmm_init` of mm/pmm.c returns, and of the pages that are handed out after it.
use capaz_os_kernel.Common.{
  ℕ, ◌+◌, ◌-◌, ◌*◌, ◌/◌, ◌%◌, ◌≤◌, ◌<◌, ◌≡◌, refl, sym, subst, ◌∙◌, inl, inr, arith, true, false,
  ◌||◌, Bool-cases, some, bind_some, List, ltb, add_u64, u64_mod,
}
use capaz_os_kernel.Board.{
  Board, ram_base, win_end, page_size, align_down_4k, align_up_4k, hh_virt_to_phys,
}
use capaz_os_kernel.Platform.{
  DtbRange, BootInfo, Machine, metadata_pages, platform_get_usable_ranges,
}
use capaz_os_kernel.Platform.Align.{win_end_lt}
use capaz_os_kernel.Pmm.{Pmm, bit_test, pmm_update_pressure, bitmap_mark_range_reserved}
use capaz_os_kernel.Pmm.Bitmap.{Bytes}
use capaz_os_kernel.Pmm.Alloc.{IsValid, page_pa}
use capaz_os_kernel.Pmm.Marks.{Good}
use capaz_os_kernel.Pmm.Marks.Spans.{with_span, mark_reserved_lem}
use capaz_os_kernel.Pmm.Init.{
  managed_window, bitmap_mark_all_reserved, mark_usable, reserve_boot, reserve_blob, mark_pages,
  placed, build, pmm_init, state_bytes,
}
use capaz_os_kernel.Pmm.Boot.{
  PageIn, Frees, usable-Frees, then_boot, then_blob, then_reserved, all_reserved-Good,
}

-- The window is one of whole pages, not empty, and ends in the mapped RAM.
window_lem :
    (b : Board) (usable : List DtbRange) (base limit : ℕ)
    → managed_window b usable ≡ some (base, limit)
    → (base % page_size ≡ 0) × (limit % page_size ≡ 0) × (base < limit) × (limit ≤ win_end b)
unfolding managed_window
window_lem b usable base limit q = ground arith

-- The pages behind the kernel that the allocator keeps.
abbrev pub meta_start : Board → Machine → ℕ
meta_start b mc = align_up_4k (hh_virt_to_phys b mc.runtime_end)

-- The passes before the last, which reserves the allocator's own pages.
abbrev before_last : Board → Machine → BootInfo → List DtbRange → ℕ → Pmm → Pmm
before_last b mc bi usable n st = reserve_blob b mc bi (
    bitmap_mark_range_reserved
      (reserve_boot b mc bi (mark_usable (bitmap_mark_all_reserved st n) usable))
      bi.kernel_phys_base (meta_start b mc))

before_last-Frees :
    (b : Board) (mc : Machine) (bi : BootInfo) (usable : List DtbRange) (n : ℕ) (st : Pmm)
    → Good (bitmap_mark_all_reserved st n)
    → Frees (bitmap_mark_all_reserved st n) (before_last b mc bi usable n st) usable
before_last-Frees b mc bi usable n st g =
    then_blob b mc bi (then_reserved _ _ (then_boot b mc bi (usable-Frees _ usable g)))

-- The state that the passes leave is valid, and its free pages lie in the usable ranges.
abbrev pub Ready : Pmm → List DtbRange → Type 0
Ready st usable =
    IsValid st
    × ((j : ℕ) → j < st.total_pages → bit_test st.bitmap j ≡ false → PageIn usable (page_pa st j))

pressure-Ready :
    (st : Pmm) (usable : List DtbRange) → Ready st usable → Ready (pmm_update_pressure st) usable
unfolding pmm_update_pressure
pressure-Ready st usable (v, f) = (
  record {
    bytes = v.bytes;
    counted = v.counted;
    window = v.window;
    aligned = v.aligned;
    fits = v.fits;
    meta_fits = v.meta_fits;
    hint = v.hint;
    kept = v.kept;
  },
  f,
)

marked-Ready :
    (b : Board) (mc : Machine) (bi : BootInfo) (usable : List DtbRange) (n : ℕ) (st : Pmm)
    → Bytes st.bitmap
    → page_pa st st.total_pages ≡ st.limit_pa
    → st.base_pa % page_size ≡ 0
    → st.limit_pa < u64_mod
    → st.total_pages ≤ 8 * n
    → st.next_hint ≡ 0
    → st.meta_base_pa ≡ meta_start b mc
    → st.meta_pages ≡ metadata_pages
    → meta_start b mc + metadata_pages * page_size + page_size < u64_mod
    → Ready (mark_pages b mc bi usable n st) usable
unfolding mark_pages bitmap_mark_all_reserved
marked-Ready b mc bi usable n st bytes window aligned fits room hint mb mp fit =
    let (g, full) = all_reserved-Good st n bytes window aligned fits room in
    let f = before_last-Frees b mc bi usable n st g in
    let m =
      mark_reserved_lem (before_last b mc bi usable n st) (meta_start b mc)
        (add_u64 (meta_start b mc) (metadata_pages * page_size)) f.good in
    let last =
      then_reserved (meta_start b mc) (add_u64 (meta_start b mc) (metadata_pages * page_size)) f in
    (
      record {
        bytes = last.good.bytes;
        counted = last.good.counted;
        window = last.good.window;
        aligned = last.good.aligned;
        fits = last.good.fits;
        meta_fits = omega (arith, last.place.meta_base_pa, last.place.meta_pages);
        hint = omega (arith, last.hint);
        kept = λ j lt ge lt'.
            m.now j
            ∙ own j (before_last b mc bi usable n st)
                (omega (arith, last.place.total_pages, f.place.total_pages))
                (omega (arith, last.place.base_pa, f.place.base_pa, last.place.meta_base_pa))
                (omega (
                  arith, last.place.base_pa, f.place.base_pa, last.place.meta_base_pa,
                  last.place.meta_pages,
                ));
      },
      λ j lt e. elim (last.from j (omega (arith, last.place.total_pages)) e) [
        | inl free ↦
            absurd (contradiction (sym (full j (omega (arith, last.place.total_pages))) ∙ free))
        | inr there ↦ subst (λ p. PageIn usable (p + j * page_size)) (sym last.place.base_pa) there
      ],
    )
  where
    contradiction : true ≡ false → ⊥
    contradiction e = ground arith

    own :
        (j : ℕ) (s : Pmm)
        → j < s.total_pages
        → meta_start b mc ≤ page_pa s j
        → page_pa s j < meta_start b mc + metadata_pages * page_size
        → with_span s true
            (align_down_4k (meta_start b mc))
            (align_up_4k (add_u64 (meta_start b mc) (metadata_pages * page_size)))
            j
          ≡ true
    own j s lt ge lt' = ground (arith, fit)

build-Ready :
    (b : Board) (mc : Machine) (bi : BootInfo) (usable : List DtbRange) (memory : ℕ → ℕ)
    (base limit : ℕ) (st : Pmm)
    → Bytes memory
    → managed_window b usable ≡ some (base, limit)
    → meta_start b mc + metadata_pages * page_size + page_size < u64_mod
    → build b mc bi usable memory (base, limit) ≡ some st
    → Ready st usable
unfolding build placed
build-Ready b mc bi usable memory base limit st bytes w fit q =
    let (ba, la, lt, le) = window_lem b usable base limit w in
    let ready = pressure-Ready _ usable (
      marked-Ready b mc bi usable (((limit - base) / page_size + 7) / 8)
        (placed (base, limit) (meta_start b mc) memory) bytes (omega arith) ba
        (omega (arith, win_end_lt b)) (omega arith) refl refl refl fit) in
    elim (Bool-cases (
      (ltb (meta_start b mc) (ram_base b)
        || ltb (win_end b) (add_u64 (meta_start b mc) (metadata_pages * page_size)))
      || ltb (metadata_pages * page_size) (state_bytes + ((limit - base) / page_size + 7) / 8))) [
        | inl bad ↦ absurd (ground arith)
        | inr good ↦ subst (λ s. Ready s usable) (some_inj (sym (rw good refl) ∙ q)) ready
      ]
  where
    some_inj : {s s' : Pmm} → some s ≡ some s' → s ≡ s'
    some_inj e = ground arith

-- When `pmm_init` returns, the state is valid and each page that is free lies in a usable range. The
-- pages behind the kernel end before 2^64, and `memory` holds bytes.
pub init-Ready :
    (b : Board) (mc : Machine) (bi : BootInfo) (memory : ℕ → ℕ) (st : Pmm)
    → Bytes memory
    → meta_start b mc + metadata_pages * page_size + page_size < u64_mod
    → pmm_init b mc (some bi) memory ≡ some st
    → (usable : List DtbRange) × (platform_get_usable_ranges b mc (some bi) 64 ≡ some usable)
      × Ready st usable
unfolding pmm_init
init-Ready b mc bi memory st bytes fit q =
    let (usable, e, more) = bind_some st q in
    let ((base, limit), w, built) = bind_some st more in
    (usable, e, build-Ready b mc bi usable memory base limit st bytes w fit built)
