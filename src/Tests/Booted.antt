-- ===== src/Tests/Booted.antt =====
-- The page allocator as it stands after boot, on the machine of the platform's inputs.
use capaz_os_kernel.Common.{ℕ, ◌≡◌, refl, ap, ◌∙◌, arith, some, none, Option, List, [], ◌∷◌, ◌>>=◌}
use capaz_os_kernel.Board.{virt, hh_virt_to_phys}
use capaz_os_kernel.Platform.{dtb_span, range_end}
use capaz_os_kernel.Pmm.{
  Pmm, bit_test, bit_set, bit_clear, pmm_update_pressure, run_free, find_run, search_pass, set_run,
  commit, choose, count_call, freeable, release, free_bits, reserve_bits, mark_span,
  bitmap_mark_range_free, bitmap_mark_range_reserved, pmm_alloc_pages, pmm_free_page,
}
use capaz_os_kernel.Pmm.Init.{
  pmm_init, build, placed, mark_pages, mark_usable, reserve_boot, reserve_blob,
  bitmap_mark_all_reserved, lowest_page, managed_window, window_of,
}
use capaz_os_kernel.Pmm.History.{Call, alloc, free, step, run}
use capaz_os_kernel.Pmm.Safe.{Usable, safe_pages}
use capaz_os_kernel.Tests.Platform.{machine, boot, left, left_over}

abbrev pub blank : ℕ → ℕ
blank i = 0

abbrev state_of : Option Pmm → Pmm
state_of none = placed (0, 0) 0 blank
state_of (some st) = st

-- What is built over the four pages of the window.
abbrev built : Option Pmm
built = build virt machine boot left blank (0x40030000, 0x40034000)

abbrev pub booted : Pmm
booted = state_of built

build_result : built ≡ some booted
unfolding build placed mark_pages mark_usable reserve_boot reserve_blob bitmap_mark_all_reserved
    hh_virt_to_phys
build_result = refl

window : managed_window virt left ≡ some (0x40030000, 0x40034000)
unfolding managed_window window_of range_end
window = refl

pub init_some : pmm_init virt machine (some boot) blank ≡ some booted
unfolding pmm_init
init_some =
    ap
      (λ u.
        u >>= λ usable. managed_window virt usable >>= λ w. build virt machine boot usable blank w)
      left_over
    ∙ (ap (λ w. w >>= λ w'. build virt machine boot left blank w') window ∙ build_result)

abbrev pub calls : List Call
calls = alloc 1 ∷ alloc 1 ∷ free 0x40031000 ∷ []

abbrev pub later : Pmm
later = run booted calls

pub page : pmm_alloc_pages later 1 ≡ (some 0x40031000, (pmm_alloc_pages later 1).1)
unfolding run step pmm_alloc_pages pmm_free_page freeable release pmm_update_pressure count_call
    choose search_pass find_run run_free set_run bit_set bit_clear bit_test commit build placed
    mark_pages mark_usable reserve_boot reserve_blob bitmap_mark_all_reserved bitmap_mark_range_free
    bitmap_mark_range_reserved mark_span free_bits reserve_bits lowest_page range_end
    hh_virt_to_phys dtb_span
page = refl

safe_pages_example : Usable virt machine boot 0x40031008
unfolding hh_virt_to_phys dtb_span bit_test build placed mark_pages mark_usable reserve_boot
    reserve_blob bitmap_mark_all_reserved bitmap_mark_range_free bitmap_mark_range_reserved
    mark_span free_bits reserve_bits lowest_page range_end pmm_update_pressure bit_set bit_clear
safe_pages_example =
    safe_pages virt machine boot blank booted calls 1 0x40031000 (pmm_alloc_pages later 1).1
      (λ i. omega arith) (omega arith, tt) (omega arith, tt) (omega arith) (omega arith)
      (omega arith) init_some (refl, tt) page 0x40031008 (omega arith) (omega arith)
