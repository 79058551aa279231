-- ===== src/Tests/Platform.antt =====
-- The platform's memory map on concrete inputs.
use capaz_os_kernel.Common.{ℕ, ◌≡◌, ◌↔◌, refl, arith, some, List, [], ◌∷◌}
use capaz_os_kernel.Board.{virt, hh_virt_to_phys}
use capaz_os_kernel.Platform.{
  DtbRange, Machine, BootInfo, sort_ranges, normalize_merge, subtract_reserved, subtract_from,
  carve, skip_below, emit, merge_into, range_end, find_min, exchange, select_min, sort_rounds,
  clamp, clamp_inner, clamp_outer, boot_region, kernel_image, metadata, dtb_blob, all_reserved,
  memory_ranges, reserved_ranges, platform_get_usable_ranges,
}
use capaz_os_kernel.Platform.Cover.{Covers, Fits, Solid}
use capaz_os_kernel.Platform.Merge.{Merged, merge_lem}
use capaz_os_kernel.Platform.Subtract.{subtract_lem}

abbrev range : ℕ → ℕ → DtbRange
range b n = record { base = b; size = n }

abbrev touching : List DtbRange
touching = range 0 8192 ∷ range 8192 4096 ∷ range 20480 4096 ∷ []

merge_lem_example : Merged touching (normalize_merge touching)
merge_lem_example =
    merge_lem touching (omega arith, (omega arith, (omega arith, tt)))
      ((omega arith, (omega arith, tt)), ((omega arith, tt), (tt, tt)))

merged : normalize_merge touching ≡ range 0 12288 ∷ range 20480 4096 ∷ []
unfolding normalize_merge merge_into range_end
merged = refl

abbrev block : List DtbRange
block = range 0 40960 ∷ []

abbrev hole_pages : List DtbRange
hole_pages = range 8192 4096 ∷ []

abbrev around : List DtbRange
around = range 0 8192 ∷ range 12288 28672 ∷ []

subtracted : subtract_reserved block hole_pages 64 ≡ some around
unfolding subtract_reserved subtract_from carve skip_below emit range_end
subtracted = refl

subtract_lem_example :
    Fits around
    × Solid around
    × ((x : ℕ) → Covers around x ↔ (Covers block x × (Covers hole_pages x → ⊥)))
subtract_lem_example =
    subtract_lem 64 block hole_pages around (omega arith, tt) ((λ e. omega arith), tt, tt)
      (omega arith, tt) ((λ e. omega arith), tt, tt) subtracted

-- 52 pages of RAM; the kernel takes pages 16 to 31, the allocator 32 to 47, the device tree page 50.
abbrev pub machine : Machine
machine = record {
  memory = range 0x40000000 0x34000 ∷ [];
  reserved = range 0x40032000 0x800 ∷ [];
  totalsize = 259;
  runtime_end = 0xFFFF800040020000;
}

abbrev pub boot : BootInfo
boot = record {
  kernel_phys_base = 0x40010000;
  kernel_size = 0x10000;
  kernel_entry_offset = 0;
  dtb_ptr = 0;
  dtb_size = 0;
}

abbrev pub left : List DtbRange
left = range 0x40030000 0x2000 ∷ range 0x40033000 0x1000 ∷ []

pub left_over : platform_get_usable_ranges virt machine (some boot) 64 ≡ some left
unfolding platform_get_usable_ranges memory_ranges reserved_ranges all_reserved boot_region
    kernel_image metadata dtb_blob clamp clamp_inner clamp_outer sort_ranges sort_rounds select_min
    exchange find_min normalize_merge merge_into subtract_reserved subtract_from carve skip_below
    emit range_end hh_virt_to_phys
left_over = refl

-- Three ranges out of order.
sorted :
    sort_ranges (range 9 1 ∷ range 5 1 ∷ range 7 1 ∷ []) ≡ range 5 1 ∷ range 7 1 ∷ range 9 1 ∷ []
unfolding sort_ranges sort_rounds select_min exchange find_min
sorted = refl
