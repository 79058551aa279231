-- ===== src/Platform.antt =====
-- The memory map of platform/platform.c. An array of ranges with its count is a list. The loops that
-- compact an array in place write no further than they have read, so they are recursions on what is
-- left to read; what they have written is the result. What dtb.c returns, and the end of the kernel
-- that the linker sets, are arguments.
pub mod Cover
pub mod Sort
pub mod Merge
pub mod Adds
pub mod Carve
pub mod Subtract
pub mod Align
pub mod Usable
pub mod Handout
use capaz_os_kernel.Common.{
  ℕ, zero, suc, ◌+◌, ◌-◌, ◌*◌, Bool, true, false, not, ◌&&◌, Option, none, some, List, [], ◌∷◌,
  ◌++◌, length, ltb, leb, ◌==◌, if◌then◌else◌, add_u64, sub_u64, u64_mod, ◌>>=◌,
}
use capaz_os_kernel.Board.{
  Board, ram_base, win_end, align_down_4k, align_up_4k, hh_virt_to_phys, page_size,
}

-- `dtb_range_t`.
pub record DtbRange : Type 0 where
  pub base : ℕ
  pub size : ℕ

abbrev pub max_ranges : ℕ
max_ranges = 64

unfoldable pub range_end : DtbRange → ℕ
range_end r = add_u64 r.base r.size

-- The inner loop of `sort_ranges` from index j on: the index of the least base, `min` with base `low`
-- so far.
unfoldable pub find_min : List DtbRange → ℕ → ℕ → ℕ → ℕ
find_min [] j min low = min
find_min (r ∷ rs) j min low =
    if ltb r.base low then find_min rs (suc j) j r.base else find_min rs (suc j) min low

-- The exchange of x with element k of the ranges behind it.
unfoldable pub exchange : DtbRange → List DtbRange → ℕ → DtbRange × List DtbRange
exchange x [] k = (x, [])
exchange x (r ∷ rs) zero = (r, x ∷ rs)
exchange x (r ∷ rs) (suc k) = let (m, rs') = exchange x rs k in (m, r ∷ rs')

-- One round: the range that stands first then, and those behind it. Index 0 is x itself.
unfoldable pub select_min : DtbRange → List DtbRange → DtbRange × List DtbRange
select_min x rs = elim (find_min rs 1 0 x.base) [ zero ↦ (x, rs) | suc k ↦ exchange x rs k ]

-- The outer loop, with n rounds left.
unfoldable pub sort_rounds : ℕ → List DtbRange → List DtbRange
sort_rounds zero rs = rs
sort_rounds (suc n) [] = []
sort_rounds (suc n) (x ∷ rs) = let (m, rest) = select_min x rs in m ∷ sort_rounds n rest

unfoldable pub sort_ranges : List DtbRange → List DtbRange
sort_ranges rs = sort_rounds (length rs) rs

-- The loop of `normalize_merge` once `prev` is the last range written.
unfoldable pub merge_into : DtbRange → List DtbRange → List DtbRange
merge_into prev [] = prev ∷ []
merge_into prev (r ∷ rs) =
    let skip = merge_into prev rs in
    let grown = merge_into (record prev { size = sub_u64 (range_end r) prev.base }) rs in
    let apart = merge_into r rs in
    if r.size == 0
    then skip
    else if leb r.base (range_end prev)
    then (if ltb (range_end prev) (range_end r) then grown else skip)
    else prev ∷ apart

unfoldable pub normalize_merge : List DtbRange → List DtbRange
normalize_merge [] = []
normalize_merge (r ∷ rs) = if r.size == 0 then normalize_merge rs else merge_into r rs

-- `out[out_n++] = (dtb_range_t){cur, end - cur}` behind its check of the capacity.
unfoldable pub emit : ℕ → List DtbRange → ℕ → ℕ → Option (List DtbRange)
emit capacity out cur end =
    if leb capacity (length out)
    then none
    else some (out ++ record { base = cur; size = end - cur } ∷ [])

-- The while loop: reserved ranges that end at or before m_start are passed over.
unfoldable pub skip_below : ℕ → List DtbRange → List DtbRange
skip_below m_start [] = []
skip_below m_start (r ∷ rs) = if leb (range_end r) m_start then skip_below m_start rs else r ∷ rs

-- The loop over the reserved ranges from k on, and what follows it, for memory up to m_end.
unfoldable pub carve : ℕ → List DtbRange → ℕ → ℕ → List DtbRange → Option (List DtbRange)
carve capacity out cur m_end [] = if ltb cur m_end then emit capacity out cur m_end else some out
carve capacity out cur m_end (r ∷ rs) =
    let last = if ltb cur m_end then emit capacity out cur m_end else some out in
    let seg_end = if ltb r.base m_end then r.base else m_end in
    let next = if ltb cur (range_end r) then range_end r else cur in
    let rest = λ (out' : List DtbRange). carve capacity out' next m_end rs in
    if ltb r.base m_end
    then (if ltb cur r.base && ltb cur seg_end then emit capacity out cur seg_end else some out)
      >>= (λ out'. if leb m_end next then some out' else rest out')
    else last

-- The loop over the memory ranges.
unfoldable pub subtract_from :
    ℕ → List DtbRange → List DtbRange → List DtbRange → Option (List DtbRange)
subtract_from capacity out [] rsv = some out
subtract_from capacity out (m ∷ ms) rsv =
    let skip = subtract_from capacity out ms rsv in
    let rsv' = skip_below m.base rsv in
    if m.size == 0
    then skip
    else carve capacity out m.base (range_end m) rsv'
      >>= (λ out'. subtract_from capacity out' ms rsv')

unfoldable pub subtract_reserved : List DtbRange → List DtbRange → ℕ → Option (List DtbRange)
subtract_reserved mem rsv capacity = subtract_from capacity [] mem rsv

-- The span [start, end) cut to the window, if anything is left.
unfoldable pub clamp : Board → ℕ → ℕ → List DtbRange
clamp b start end =
    let s = if ltb start (ram_base b) then ram_base b else start in
    let e = if ltb (win_end b) end then win_end b else end in
    if leb e s then [] else record { base = s; size = e - s } ∷ []

-- Ranges of RAM, and of the result: the whole pages within.
unfoldable pub clamp_inner : Board → List DtbRange → List DtbRange
clamp_inner b [] = []
clamp_inner b (r ∷ rs) =
    clamp b (align_up_4k r.base) (align_down_4k (range_end r)) ++ clamp_inner b rs

-- Reserved ranges: all pages that they touch.
unfoldable pub clamp_outer : Board → List DtbRange → List DtbRange
clamp_outer b [] = []
clamp_outer b (r ∷ rs) =
    if r.size == 0
    then clamp_outer b rs
    else clamp b (align_down_4k r.base) (align_up_4k (range_end r)) ++ clamp_outer b rs

-- `boot_info_t`.
pub record BootInfo : Type 0 where
  pub kernel_phys_base : ℕ
  pub kernel_size : ℕ
  pub kernel_entry_offset : ℕ
  pub dtb_ptr : ℕ
  pub dtb_size : ℕ

abbrev pub metadata_pages : ℕ
metadata_pages = 16

-- What the device tree and the linker say: the ranges of memory and the reserved ones, the size that
-- the header of the tree gives, and the address behind the kernel.
pub record Machine : Type 0 where
  pub memory : List DtbRange
  pub reserved : List DtbRange
  pub totalsize : ℕ
  pub runtime_end : ℕ

abbrev pub lowest : Board → List DtbRange → ℕ
lowest b [] = ram_base b
lowest b (r ∷ rs) = r.base

-- The memory below the kernel.
unfoldable pub boot_region : Board → BootInfo → ℕ → List DtbRange
boot_region b bi mem_min_base =
    if not (mem_min_base == u64_mod - 1) && ltb mem_min_base bi.kernel_phys_base
    then clamp b (align_down_4k mem_min_base) (align_up_4k bi.kernel_phys_base)
    else []

unfoldable pub kernel_image : Board → BootInfo → ℕ → List DtbRange
kernel_image b bi runtime_end =
    clamp b (align_down_4k bi.kernel_phys_base) (align_up_4k (hh_virt_to_phys b runtime_end))

-- The pages of the page allocator's own data, which are not cut at the start of the window.
unfoldable pub metadata : Board → ℕ → List DtbRange
metadata b runtime_end =
    let start = align_up_4k (hh_virt_to_phys b runtime_end) in
    let end = add_u64 start (metadata_pages * page_size) in
    let e = if ltb (win_end b) end then win_end b else end in
    if ltb start (win_end b) && ltb start e
    then record { base = start; size = e - start } ∷ []
    else []

-- The size of the tree that counts: the header's, at most the boot loader's if that is known.
unfoldable pub dtb_span : BootInfo → ℕ → ℕ
dtb_span bi totalsize =
    let sz = if totalsize == 0 then bi.dtb_size else totalsize in
    if not (bi.dtb_size == 0) && ltb bi.dtb_size sz then bi.dtb_size else sz

unfoldable pub dtb_blob : Board → BootInfo → ℕ → List DtbRange
dtb_blob b bi totalsize =
    let phys = hh_virt_to_phys b bi.dtb_ptr in
    if bi.dtb_ptr == 0
    then []
    else clamp b (align_down_4k phys) (align_up_4k (add_u64 phys (dtb_span bi totalsize)))

-- All reserved ranges. The array has room for 128; the device tree gives 64 at most, and four follow.
unfoldable pub all_reserved : Board → Machine → Option BootInfo → List DtbRange → List DtbRange
all_reserved b mc none mem = clamp_outer b mc.reserved
all_reserved b mc (some bi) mem =
    clamp_outer b mc.reserved
    ++ (boot_region b bi (lowest b mem)
        ++ (kernel_image b bi mc.runtime_end
            ++ (metadata b mc.runtime_end ++ dtb_blob b bi mc.totalsize)))

unfoldable pub memory_ranges : Board → Machine → List DtbRange
memory_ranges b mc = normalize_merge (sort_ranges (clamp_inner b mc.memory))

unfoldable pub reserved_ranges : Board → Machine → Option BootInfo → List DtbRange
reserved_ranges b mc bi = normalize_merge (sort_ranges (all_reserved b mc bi (memory_ranges b mc)))

-- `none` when the device tree gives no memory, or when the output array is too small.
unfoldable pub platform_get_usable_ranges :
    Board → Machine → Option BootInfo → ℕ → Option (List DtbRange)
platform_get_usable_ranges b mc bi capacity = do
  out ←
      if length mc.memory == 0
      then none
      else subtract_reserved (memory_ranges b mc) (reserved_ranges b mc bi) capacity
  some (normalize_merge (sort_ranges (clamp_inner b out)))
