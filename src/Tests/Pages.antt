-- ===== src/Tests/Pages.antt =====
-- The page allocator on concrete inputs.
use capaz_os_kernel.Common.{
  ℕ, ◌≡◌, ◌⊎◌, ◌≤◌, ◌<◌, ◌+◌, ◌*◌, refl, arith, false, some, none, inr, List, [], ◌∷◌,
}
use capaz_os_kernel.Board.{page_size}
use capaz_os_kernel.Pmm.{
  Pmm, bit_test, bit_set, bit_clear, pmm_update_pressure, run_free, find_run, search_pass, set_run,
  commit, choose, count_call, freeable, release, pmm_alloc_pages, pmm_alloc_page, pmm_free_page,
}
use capaz_os_kernel.Pmm.Count.{free_below}
use capaz_os_kernel.Pmm.Alloc.{IsValid, Taken, page_pa, alloc_lem}
use capaz_os_kernel.Pmm.Fail.{NoRun, alloc-fails, page_found}
use capaz_os_kernel.Pmm.Free.{FreesPage, FreesNone, free_lem}
use capaz_os_kernel.Pmm.History.{Call, alloc, free, step, run, exclusive}

-- Four pages from 4096 on, all free; the allocator's own page is not among them.
abbrev four : Pmm
four = record {
  base_pa = 4096;
  limit_pa = 20480;
  total_pages = 4;
  free_pages = 4;
  bitmap = λ i. 0;
  next_hint = 0;
  meta_base_pa = 65536;
  meta_pages = 1;
  alloc_calls = 0;
  free_calls = 0;
  alloc_pages_calls = 0;
  alloc_contig_calls = 0;
  peak_used_pages = 0;
  low_free_pages = 4;
}

four-IsValid : IsValid four
unfolding free_below bit_test
four-IsValid = record {
  bytes = λ i. omega arith;
  counted = refl;
  window = refl;
  aligned = refl;
  fits = omega arith;
  meta_fits = omega arith;
  hint = omega arith;
  kept = λ i lt ge lt'. absurd (omega arith);
}

abbrev after_two : Pmm
after_two = (pmm_alloc_pages four 2).1

two_pages : pmm_alloc_pages four 2 ≡ (some 4096, after_two)
unfolding pmm_alloc_pages count_call choose search_pass find_run run_free bit_test commit
two_pages = refl

alloc_lem_example : (i : ℕ) × (◌≡◌ {A = ℕ} 4096 (page_pa four i)) × Taken four after_two i 2
alloc_lem_example = alloc_lem four 2 4096 after_two four-IsValid two_pages

five_pages : pmm_alloc_pages four 5 ≡ (none, count_call four 5)
unfolding pmm_alloc_pages count_call
five_pages = refl

alloc-fails_example :
    (count_call four 5 ≡ count_call four 5)
    × ((◌≡◌ {A = ℕ} 5 0) ⊎ ((four.free_pages < 5) ⊎ ((four.total_pages < 5) ⊎ NoRun four 5)))
alloc-fails_example = alloc-fails four 5 (count_call four 5) five_pages

page_found_example : (pa : ℕ) × (st' : Pmm) × (pmm_alloc_page four ≡ (some pa, st'))
page_found_example = page_found four four-IsValid (omega arith)

free_lem_example : FreesPage four 4096 ⊎ FreesNone four 4096
free_lem_example = free_lem four 4096 four-IsValid

abbrev calls : List Call
calls = alloc 1 ∷ free 12288 ∷ []

abbrev later : Pmm
later = run after_two calls

one_more : pmm_alloc_pages later 1 ≡ (some 12288, (pmm_alloc_pages later 1).1)
unfolding run step pmm_alloc_pages pmm_free_page freeable release pmm_update_pressure count_call
    choose search_pass find_run run_free set_run bit_set bit_clear bit_test commit
one_more = refl

exclusive_example : (4096 + 2 * page_size ≤ 12288) ⊎ (12288 + 1 * page_size ≤ 4096)
exclusive_example =
    exclusive four 2 4096 after_two calls 1 12288 (pmm_alloc_pages later 1).1 four-IsValid two_pages
      (inr (omega arith), tt) one_more

one_page : pmm_alloc_page four ≡ (some 4096, (pmm_alloc_page four).1)
unfolding pmm_alloc_page pmm_alloc_pages count_call choose search_pass find_run run_free bit_test
    commit
one_page = refl

abbrev six : Pmm
six = record four { limit_pa = 28672; total_pages = 6; free_pages = 6 }

-- Six pages: three are taken one by one, the first is returned, two are taken and the second returned.
abbrev scattered : Pmm
scattered = run six (alloc 1 ∷ alloc 1 ∷ alloc 1 ∷ free 4096 ∷ alloc 2 ∷ free 8192 ∷ [])

-- Pages 0 and 1 are free and page 1 is the hint; both passes miss the two.
straddled :
    (bit_test scattered.bitmap 0 ≡ false)
    × (bit_test scattered.bitmap 1 ≡ false)
    × ((pmm_alloc_pages scattered 2).0 ≡ none)
unfolding run step pmm_alloc_pages pmm_free_page freeable release pmm_update_pressure count_call
    choose search_pass find_run run_free set_run bit_set bit_clear bit_test commit
straddled = (refl, refl, refl)
