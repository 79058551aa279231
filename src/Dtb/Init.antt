-- ===== src/Dtb/Init.antt =====
-- The calls of platform/dtb.c that set the parser up, and those that return its ranges. The blob is not at
-- address 0, so no cached pointer is null, and a getter is called after `dtb_init`, so it parses nothing.
use capaz_os_kernel.Common.{
  ℕ, zero, suc, ◌+◌, ◌%◌, Bool, true, not, ◌&&◌, ◌||◌, Option, none, some, List, [], ◌∷◌, length,
  ltb, leb, ◌==◌, if◌then◌else◌, add_u32, u32_mod, ◌>>=◌,
}
use capaz_os_kernel.Platform.{DtbRange}
use capaz_os_kernel.Dtb.{
  be32, be64, append_range, max_reserved, NodeCtx, memory, reserved, Walk, Walked, collected, fault,
  starved, outside, walk,
}

-- The cached header and the parsed ranges.
pub record Dtb : Type 0 where
  pub fdt : ℕ
  pub totalsize : ℕ
  pub struct_at : ℕ
  pub strings_at : ℕ
  pub rsvmap_at : ℕ
  pub struct_size : ℕ
  pub strings_size : ℕ
  pub mem_ranges : List DtbRange
  pub rsv_ranges : List DtbRange

abbrev pub fdt_magic : ℕ
fdt_magic = 0xD00DFEED

-- The loop of `collect_memreserve_ranges`, with n rounds left from p on.
unfoldable pub memreserve_from : (ℕ → ℕ) → ℕ → ℕ → List DtbRange → List DtbRange
memreserve_from m zero p arr = arr
memreserve_from m (suc n) p arr =
    let rest =
      memreserve_from m n (p + 16) (append_range max_reserved arr (be64 m p) (be64 m (p + 8))) in
    if be64 m p == 0 && be64 m (p + 8) == 0 then arr else rest

unfoldable pub collect_memreserve_ranges : (ℕ → ℕ) → ℕ → List DtbRange → List DtbRange
collect_memreserve_ranges m rsvmap arr = memreserve_from m 128 rsvmap arr

-- The stack of a walk is not set at its start.
abbrev pub fresh_walk : (ℕ → NodeCtx) → List DtbRange → Walk
fresh_walk stack arr = record { stack = stack; depth = outside 0; in_reserved = none; ranges = arr }

unfoldable pub collect_memory_ranges : ℕ → (ℕ → NodeCtx) → (ℕ → ℕ) → Dtb → Walked
collect_memory_ranges fuel stack m t =
    walk memory m t.strings_at fuel t.struct_at (fresh_walk stack t.mem_ranges)

unfoldable pub collect_reserved_memory_ranges : ℕ → (ℕ → NodeCtx) → (ℕ → ℕ) → Dtb → Walked
collect_reserved_memory_ranges fuel stack m t =
    walk reserved m t.strings_at fuel t.struct_at (fresh_walk stack t.rsv_ranges)

-- The ranges of a walk that ended; `none` is a fault, or that the fuel ran out.
abbrev pub ranges_of : Walked → Option (List DtbRange)
ranges_of (collected rs) = some rs
ranges_of fault = none
ranges_of starved = none

unfoldable pub ensure_parsed : ℕ → (ℕ → NodeCtx) → (ℕ → ℕ) → Dtb → Option Dtb
ensure_parsed fuel stack m t0 =
    let t = record t0 {
      mem_ranges = [];
      rsv_ranges = collect_memreserve_ranges m t0.rsvmap_at [];
    } in
    ranges_of (collect_reserved_memory_ranges fuel stack m t) >>= (λ rsv.
      ranges_of (collect_memory_ranges fuel stack m t)
      >>= (λ mem. some (record t { rsv_ranges = rsv; mem_ranges = mem })))

-- The tests of the header: no test for false.
unfoldable pub header_ok : (ℕ → ℕ) → ℕ → ℕ → Bool
header_ok m fdt fdt_size =
    let total = be32 m (fdt + 4) in
    let off_struct = be32 m (fdt + 8) in
    let off_strings = be32 m (fdt + 12) in
    let off_rsvmap = be32 m (fdt + 16) in
    let size_strings = be32 m (fdt + 32) in
    let size_struct = be32 m (fdt + 36) in
    (be32 m fdt == fdt_magic && not (total == 0))
    && (not (not (fdt_size == 0) && ltb (fdt_size % u32_mod) total)
        && ((ltb off_struct total && (ltb off_strings total && ltb off_rsvmap total))
            && (not (size_struct == 0 || size_strings == 0)
                && (leb (add_u32 off_struct size_struct) total
                    && leb (add_u32 off_strings size_strings) total))))

unfoldable pub header_of : (ℕ → ℕ) → ℕ → Dtb
header_of m fdt = record {
  fdt = fdt;
  totalsize = be32 m (fdt + 4);
  struct_at = fdt + be32 m (fdt + 8);
  strings_at = fdt + be32 m (fdt + 12);
  rsvmap_at = fdt + be32 m (fdt + 16);
  struct_size = be32 m (fdt + 36);
  strings_size = be32 m (fdt + 32);
  mem_ranges = [];
  rsv_ranges = [];
}

-- `none` for false, for a fault, or when the fuel runs out. What a call that fails leaves in the cache is
-- left out.
unfoldable pub dtb_init : ℕ → (ℕ → NodeCtx) → (ℕ → ℕ) → ℕ → ℕ → Option Dtb
dtb_init fuel stack m fdt fdt_size =
    if fdt == 0 || not (header_ok m fdt fdt_size)
    then none
    else ensure_parsed fuel stack m (header_of m fdt)

-- The first n of the ranges.
abbrev pub first_ranges : ℕ → List DtbRange → List DtbRange
first_ranges zero rs = []
first_ranges (suc n) [] = []
first_ranges (suc n) (r ∷ rs) = r ∷ first_ranges n rs

-- The ranges that are written, and whether there are any.
unfoldable pub dtb_get_memory_ranges : Dtb → ℕ → Bool × List DtbRange
dtb_get_memory_ranges t cap = (not (length t.mem_ranges == 0), first_ranges cap t.mem_ranges)

unfoldable pub dtb_get_reserved_ranges : Dtb → ℕ → Bool × List DtbRange
dtb_get_reserved_ranges t cap = (true, first_ranges cap t.rsv_ranges)

unfoldable pub dtb_get_totalsize : Dtb → ℕ
dtb_get_totalsize t = t.totalsize

abbrev pub head_of : List DtbRange → Option DtbRange
head_of [] = none
head_of (r ∷ rs) = some r

unfoldable pub dtb_first_memory_range : Dtb → Option DtbRange
dtb_first_memory_range t =
    let (found, rs) = dtb_get_memory_ranges t 1 in if found then head_of rs else none
