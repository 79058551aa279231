-- ===== src/Pmm/Init.antt =====
-- `pmm_init` and the statistics of mm/pmm.c. A panic is `none`. `g_pmm` is set at the end; it is null
-- before, and the statistics are refused.
use capaz_os_kernel.Common.{
  ℕ, ◌+◌, ◌-◌, ◌*◌, ◌/◌, ◌||◌, Option, none, some, List, [], ◌∷◌, ltb, leb, ◌==◌, if◌then◌else◌,
  add_u64, u64_mod, ◌>>=◌,
}
use capaz_os_kernel.Board.{
  Board, ram_base, win_end, align_down_4k, align_up_4k, page_size, hh_virt_to_phys,
}
use capaz_os_kernel.Platform.{
  DtbRange, range_end, BootInfo, Machine, metadata_pages, dtb_span, platform_get_usable_ranges,
}
use capaz_os_kernel.Pmm.{
  Pmm, pmm_update_pressure, bitmap_mark_range_free, bitmap_mark_range_reserved,
}

-- The loop over the usable ranges that finds the window; 0 says that no base is known yet.
unfoldable pub window_of : List DtbRange → ℕ × ℕ → ℕ × ℕ
window_of [] w = w
window_of (r ∷ rs) (base_pa, limit_pa) =
    let start = align_up_4k r.base in
    let end = align_down_4k (range_end r) in
    window_of rs (
      if leb end start then (base_pa, limit_pa) else (
        (if base_pa == 0 || ltb start base_pa then start else base_pa),
        if ltb limit_pa end then end else limit_pa,
      ))

-- The window cut to the mapped RAM and to whole pages; `none` when nothing is left.
unfoldable pub managed_window : Board → List DtbRange → Option (ℕ × ℕ)
managed_window b usable =
    let (base_pa, limit_pa) = window_of usable (0, 0) in
    let base = align_up_4k (if ltb base_pa (ram_base b) then ram_base b else base_pa) in
    let limit = align_down_4k (if ltb (win_end b) limit_pa then win_end b else limit_pa) in
    if base_pa == 0 || (leb limit_pa base_pa || leb limit base) then none else some (base, limit)

-- sizeof(pmm_state_t), nine words.
abbrev pub state_bytes : ℕ
state_bytes = 72

unfoldable pub bitmap_mark_all_reserved : Pmm → ℕ → Pmm
bitmap_mark_all_reserved st bitmap_bytes = record st {
  bitmap = λ i. if ltb i bitmap_bytes then 255 else st.bitmap i;
  free_pages = 0;
}

-- The loop that frees the usable ranges.
unfoldable pub mark_usable : Pmm → List DtbRange → Pmm
mark_usable st [] = st
mark_usable st (r ∷ rs) = mark_usable (bitmap_mark_range_free st r.base (range_end r)) rs

-- The lowest whole page of RAM in the window, from `lowest` on down.
unfoldable pub lowest_page : Board → List DtbRange → ℕ → ℕ
lowest_page b [] lowest = lowest
lowest_page b (r ∷ rs) lowest =
    let end = range_end r in
    let start = if ltb r.base (ram_base b) then ram_base b else r.base in
    let s = align_up_4k start in
    let e = align_down_4k (if ltb (win_end b) end then win_end b else end) in
    lowest_page b rs (
      if leb end (ram_base b) || (leb (win_end b) start || leb e s)
      then lowest
      else if ltb s lowest
      then s
      else lowest)

unfoldable pub reserve_boot : Board → Machine → BootInfo → Pmm → Pmm
reserve_boot b mc bi st =
    let found = lowest_page b mc.memory (win_end b) in
    let lowest = if found == win_end b then ram_base b else found in
    bitmap_mark_range_reserved st lowest bi.kernel_phys_base

unfoldable pub reserve_blob : Board → Machine → BootInfo → Pmm → Pmm
reserve_blob b mc bi st =
    let phys = hh_virt_to_phys b bi.dtb_ptr in
    let size = dtb_span bi mc.totalsize in
    if bi.dtb_ptr == 0 || size == 0
    then st
    else bitmap_mark_range_reserved st (align_down_4k phys) (align_up_4k (add_u64 phys size))

-- All passes over the bitmap.
unfoldable pub mark_pages : Board → Machine → BootInfo → List DtbRange → ℕ → Pmm → Pmm
mark_pages b mc bi usable bitmap_bytes st =
    let end = align_up_4k (hh_virt_to_phys b mc.runtime_end) in
    let st1 = mark_usable (bitmap_mark_all_reserved st bitmap_bytes) usable in
    let st2 = reserve_boot b mc bi st1 in
    let st3 = bitmap_mark_range_reserved st2 bi.kernel_phys_base end in
    let st4 = reserve_blob b mc bi st3 in
    bitmap_mark_range_reserved st4 end (add_u64 end (metadata_pages * page_size))

-- The state as it is placed in the metadata pages, where `memory` is what the bitmap's bytes hold then.
unfoldable pub placed : ℕ × ℕ → ℕ → (ℕ → ℕ) → Pmm
placed (base, limit) meta memory = record {
  base_pa = base;
  limit_pa = limit;
  total_pages = (limit - base) / page_size;
  free_pages = 0;
  bitmap = memory;
  next_hint = 0;
  meta_base_pa = meta;
  meta_pages = metadata_pages;
  alloc_calls = 0;
  free_calls = 0;
  alloc_pages_calls = 0;
  alloc_contig_calls = 0;
  peak_used_pages = 0;
  low_free_pages = u64_mod - 1;
}

-- The state over the window that the usable ranges give.
unfoldable pub build : Board → Machine → BootInfo → List DtbRange → (ℕ → ℕ) → ℕ × ℕ → Option Pmm
build b mc bi usable memory window =
    let meta = align_up_4k (hh_virt_to_phys b mc.runtime_end) in
    let meta_bytes = metadata_pages * page_size in
    let st = placed window meta memory in
    let bitmap_bytes = (st.total_pages + 7) / 8 in
    if (ltb meta (ram_base b) || ltb (win_end b) (add_u64 meta meta_bytes))
      || ltb meta_bytes (state_bytes + bitmap_bytes)
    then none
    else some (pmm_update_pressure (mark_pages b mc bi usable bitmap_bytes st))

-- The first call, at boot: the counters still hold their first values.
unfoldable pub pmm_init : Board → Machine → Option BootInfo → (ℕ → ℕ) → Option Pmm
pmm_init b mc none memory = none
pmm_init b mc (some bi) memory = do
  usable ← platform_get_usable_ranges b mc (some bi) 64
  window ← managed_window b usable
  build b mc bi usable memory window

unfoldable pub pmm_get_stats : Option Pmm → Option (ℕ × ℕ)
pmm_get_stats none = none
pmm_get_stats (some st) = some (st.free_pages, st.total_pages)

pub record PmmStatsEx : Type 0 where
  pub free_pages : ℕ
  pub total_pages : ℕ
  pub low_free_pages_seen : ℕ
  pub peak_used_pages_seen : ℕ
  pub alloc_pages_calls : ℕ
  pub alloc_contig_calls : ℕ
  pub free_page_calls : ℕ

unfoldable pub pmm_get_stats_ex : Option Pmm → Option PmmStatsEx
pmm_get_stats_ex none = none
pmm_get_stats_ex (some st) = some (record {
  free_pages = st.free_pages;
  total_pages = st.total_pages;
  low_free_pages_seen =
      if st.low_free_pages == u64_mod - 1 then st.free_pages else st.low_free_pages;
  peak_used_pages_seen = st.peak_used_pages;
  alloc_pages_calls = st.alloc_pages_calls;
  alloc_contig_calls = st.alloc_contig_calls;
  free_page_calls = st.free_calls;
})
