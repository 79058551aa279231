-- ===== src/Tests/Trees.antt =====
-- The parser of the device tree on a small blob.
use capaz_os_kernel.Common.{
  ℕ, zero, suc, ◌+◌, ◌%◌, ◌^◌, ◌-◌, ◌≤◌, ◌<◌, ◌≡◌, ◌≢◌, refl, arith, Bool, true, false, not, ◌&&◌,
  some, List, [], ◌∷◌, ◌++◌, ltb, ◌==◌, ◌⊎◌, inr,
}
use capaz_os_kernel.Platform.{DtbRange}
use capaz_os_kernel.Dtb.{memory, reserved, be32, be64, NodeCtx}
use capaz_os_kernel.Dtb.Init.{
  Dtb, header_ok, header_of, dtb_init, dtb_get_memory_ranges, dtb_get_reserved_ranges,
  dtb_get_totalsize,
}
use capaz_os_kernel.Dtb.Layout.{BytesAt, TextAt, Clear, done, nop, prop, child, regs}
use capaz_os_kernel.Dtb.Collected.{described, Root, TreeAt, HeaderAt, dtb_init_lem}
use capaz_os_kernel.Board.{virt, hh_virt_to_phys}
use capaz_os_kernel.Platform.{dtb_span, range_end}
use capaz_os_kernel.Platform.Cover.{Covers}
use capaz_os_kernel.Pmm.{
  bit_test, bit_set, bit_clear, pmm_update_pressure, free_bits, reserve_bits, mark_span,
  bitmap_mark_range_free, bitmap_mark_range_reserved, pmm_alloc_pages,
}
use capaz_os_kernel.Pmm.Init.{
  build, placed, mark_pages, mark_usable, reserve_boot, reserve_blob, bitmap_mark_all_reserved,
  lowest_page,
}
use capaz_os_kernel.Pmm.Tree.{machine_of, safe_tree_pages}
use capaz_os_kernel.Tests.Platform.{boot}
use capaz_os_kernel.Tests.Booted.{blank, booted, calls, later, init_some, page}
use capaz_os_kernel.Dtb.Arrays.{FitsArray}
use capaz_os_kernel.Dtb.Bounds.{dtb_init-FitsArray, dtb_init-inside}

abbrev byte_of : List ℕ → ℕ → ℕ
byte_of [] i = 0
byte_of (b ∷ bs) zero = b
byte_of (b ∷ bs) (suc i) = byte_of bs i

abbrev bytes_only : List ℕ → Bool
bytes_only [] = true
bytes_only (b ∷ bs) = ltb b 256 && bytes_only bs

byte_of-lt : (bs : List ℕ) (i : ℕ) → bytes_only bs ≡ true → byte_of bs i < 256
byte_of-lt [] i e = omega arith
byte_of-lt (b ∷ bs) zero e = ground (arith, e)
byte_of-lt (b ∷ bs) (suc i) e = byte_of-lt bs i (ground (arith, e))

abbrev text_here : (ℕ → ℕ) → ℕ → List ℕ → Bool
text_here m p [] = m p == 0
text_here m p (c ∷ cs) = (m p == c && not (c == 0)) && text_here m (p + 1) cs

text-at : (m : ℕ → ℕ) (p : ℕ) (name : List ℕ) → text_here m p name ≡ true → TextAt m p name
text-at m p [] e = ground (arith, e)
text-at m p (c ∷ cs) e =
    (ground (arith, e), ground (arith, e), text-at m (p + 1) cs (ground (arith, e)))

abbrev size_given : ℕ
size_given = 259

-- A header, one reservation, and a root with the nodes /memory and /reserved-memory/fw.
abbrev bytes : List ℕ
bytes =
    208 ∷ 13 ∷ 254 ∷ 237 ∷ 0 ∷ 0 ∷ 1 ∷ 3 ∷ 0 ∷ 0 ∷ 0 ∷ 72 ∷ 0 ∷ 0 ∷ 0 ∷ 228 ∷ 0 ∷ 0 ∷ 0 ∷ 40 ∷ 0 ∷ 0
    ∷ 0 ∷ 17 ∷ 0 ∷ 0 ∷ 0 ∷ 16 ∷ 0 ∷ 0 ∷ 0 ∷ 0 ∷ 0 ∷ 0 ∷ 0 ∷ 31 ∷ 0 ∷ 0 ∷ 0 ∷ 156 ∷ 0 ∷ 0 ∷ 0 ∷ 0
    ∷ 67 ∷ 0 ∷ 0 ∷ 0 ∷ 0 ∷ 0 ∷ 0 ∷ 0 ∷ 0 ∷ 0 ∷ 0 ∷ 0 ∷ 0 ∷ 0 ∷ 0 ∷ 0 ∷ 0 ∷ 0 ∷ 0 ∷ 0 ∷ 0 ∷ 0 ∷ 0 ∷ 0
    ∷ 0 ∷ 0 ∷ 0 ∷ 0 ∷ 0 ∷ 0 ∷ 0 ∷ 1 ∷ 0 ∷ 0 ∷ 0 ∷ 0 ∷ 0 ∷ 0 ∷ 0 ∷ 3 ∷ 0 ∷ 0 ∷ 0 ∷ 4 ∷ 0 ∷ 0 ∷ 0 ∷ 0
    ∷ 0 ∷ 0 ∷ 0 ∷ 1 ∷ 0 ∷ 0 ∷ 0 ∷ 3 ∷ 0 ∷ 0 ∷ 0 ∷ 4 ∷ 0 ∷ 0 ∷ 0 ∷ 15 ∷ 0 ∷ 0 ∷ 0 ∷ 1 ∷ 0 ∷ 0 ∷ 0 ∷ 1
    ∷ 109 ∷ 101 ∷ 109 ∷ 111 ∷ 114 ∷ 121 ∷ 64 ∷ 48 ∷ 0 ∷ 0 ∷ 0 ∷ 0 ∷ 0 ∷ 0 ∷ 0 ∷ 3 ∷ 0 ∷ 0 ∷ 0 ∷ 8
    ∷ 0 ∷ 0 ∷ 0 ∷ 27 ∷ 64 ∷ 0 ∷ 0 ∷ 0 ∷ 0 ∷ 3 ∷ 64 ∷ 0 ∷ 0 ∷ 0 ∷ 0 ∷ 2 ∷ 0 ∷ 0 ∷ 0 ∷ 4 ∷ 0 ∷ 0 ∷ 0
    ∷ 1 ∷ 114 ∷ 101 ∷ 115 ∷ 101 ∷ 114 ∷ 118 ∷ 101 ∷ 100 ∷ 45 ∷ 109 ∷ 101 ∷ 109 ∷ 111 ∷ 114 ∷ 121 ∷ 0
    ∷ 0 ∷ 0 ∷ 0 ∷ 1 ∷ 102 ∷ 119 ∷ 0 ∷ 0 ∷ 0 ∷ 0 ∷ 0 ∷ 3 ∷ 0 ∷ 0 ∷ 0 ∷ 16 ∷ 0 ∷ 0 ∷ 0 ∷ 27 ∷ 64 ∷ 3
    ∷ 32 ∷ 0 ∷ 0 ∷ 0 ∷ 8 ∷ 0 ∷ 66 ∷ 0 ∷ 0 ∷ 0 ∷ 0 ∷ 0 ∷ 0 ∷ 0 ∷ 0 ∷ 0 ∷ 0 ∷ 2 ∷ 0 ∷ 0 ∷ 0 ∷ 2 ∷ 0
    ∷ 0 ∷ 0 ∷ 2 ∷ 0 ∷ 0 ∷ 0 ∷ 9 ∷ 35 ∷ 97 ∷ 100 ∷ 100 ∷ 114 ∷ 101 ∷ 115 ∷ 115 ∷ 45 ∷ 99 ∷ 101 ∷ 108
    ∷ 108 ∷ 115 ∷ 0 ∷ 35 ∷ 115 ∷ 105 ∷ 122 ∷ 101 ∷ 45 ∷ 99 ∷ 101 ∷ 108 ∷ 108 ∷ 115 ∷ 0 ∷ 114 ∷ 101
    ∷ 103 ∷ 0 ∷ []

abbrev blob : ℕ → ℕ
blob p = byte_of bytes (p - 4096)

abbrev content : ℕ → ℕ → ℕ
content p i = blob (p + i)

content-at : (p : ℕ) {n : ℕ} → BytesAt blob p (content p) n
content-at p = ((λ i lt. refl), λ i. byte_of-lt bytes (p + i - 4096) refl)

abbrev memory_at : List ℕ
memory_at = b'm' ∷ b'e' ∷ b'm' ∷ b'o' ∷ b'r' ∷ b'y' ∷ b'@' ∷ b'0' ∷ []

abbrev reserved_memory : List ℕ
reserved_memory =
    b'r' ∷ b'e' ∷ b's' ∷ b'e' ∷ b'r' ∷ b'v' ∷ b'e' ∷ b'd' ∷ b'-' ∷ b'm' ∷ b'e' ∷ b'm' ∷ b'o' ∷ b'r'
    ∷ b'y' ∷ []

abbrev fw : List ℕ
fw = b'f' ∷ b'w' ∷ []

abbrev address_name : List ℕ
address_name =
    b'#' ∷ b'a' ∷ b'd' ∷ b'd' ∷ b'r' ∷ b'e' ∷ b's' ∷ b's' ∷ b'-' ∷ b'c' ∷ b'e' ∷ b'l' ∷ b'l' ∷ b's'
    ∷ []

abbrev size_name : List ℕ
size_name = b'#' ∷ b's' ∷ b'i' ∷ b'z' ∷ b'e' ∷ b'-' ∷ b'c' ∷ b'e' ∷ b'l' ∷ b'l' ∷ b's' ∷ []

abbrev reg_name : List ℕ
reg_name = b'r' ∷ b'e' ∷ b'g' ∷ []

abbrev tree : Root
tree = record {
  name = [];
  content = prop address_name (content 4188) 4 (
      prop size_name (content 4204) 4 (
        child memory_at (prop reg_name (content 4236) 8 done) (
          nop
            (child reserved_memory (child fw (prop reg_name (content 4292) 16 done) done) done))));
}

reg-at : TextAt blob (4324 + 27) reg_name
reg-at = text-at blob (4324 + 27) reg_name refl

tree-at : TreeAt blob 4324 4168 tree
tree-at = (
  refl,
  refl,
  4316,
  (
    refl,
    refl,
    omega arith,
    text-at blob 4324 address_name refl,
    (content-at 4188),
    (
      refl,
      refl,
      omega arith,
      text-at blob (4324 + 15) size_name refl,
      (content-at 4204),
      (
        refl,
        text-at blob 4212 memory_at refl,
        4244,
        (refl, refl, omega arith, reg-at, (content-at 4236), refl),
        refl,
        (
          refl,
          (
            refl,
            text-at blob 4256 reserved_memory refl,
            4312,
            (
              refl,
              text-at blob 4276 fw refl,
              4308,
              (refl, refl, omega arith, reg-at, (content-at 4292), refl),
              refl,
              refl,
            ),
            refl,
            refl,
          ),
        ),
      ),
    ),
  ),
  refl,
  refl,
)

tree-Clear : Clear tree.content
tree-Clear = (
  refl,
  refl,
  refl,
  (refl, refl, refl, ((refl, refl, refl, tt), (((refl, refl, refl, tt), tt), tt))),
)

blob-HeaderAt : HeaderAt blob 4096 size_given
blob-HeaderAt = record {
  magic = refl;
  low = omega arith;
  sized = inr (omega arith);
  structure = omega arith;
  strings = omega arith;
  some_structure = omega arith;
  some_strings = omega arith;
  reservations = omega arith;
}

abbrev no_stack : ℕ → NodeCtx
no_stack i = record {
  parent_addr_cells = 0;
  parent_size_cells = 0;
  addr_cells = 0;
  size_cells = 0;
  is_memory = false;
}

abbrev range : ℕ → ℕ → DtbRange
range b n = record { base = b; size = n }

abbrev kept : Dtb
kept = record {
  fdt = 4096;
  totalsize = 259;
  struct_at = 4168;
  strings_at = 4324;
  rsvmap_at = 4136;
  struct_size = 156;
  strings_size = 31;
  mem_ranges = range 0x40000000 0x34000 ∷ [];
  rsv_ranges = range 0x40032000 0x800 ∷ [];
}

dtb_init_lem_example : dtb_init 128 no_stack blob 4096 size_given ≡ some kept
unfolding header_of header_ok be32 be64 regs
dtb_init_lem_example =
    dtb_init_lem 128 no_stack blob 4096 size_given tree (range 0x43000000 0 ∷ [])
      (λ e. omega (arith, e)) blob-HeaderAt tree-at tree-Clear
      (omega arith, tt, (omega arith, (omega arith, tt, tt), tt)) (refl, refl, refl, (refl, refl))
      (omega arith) (omega arith)

dtb_init-FitsArray_example : FitsArray 16 kept.mem_ranges × FitsArray 64 kept.rsv_ranges
dtb_init-FitsArray_example =
    dtb_init-FitsArray 128 no_stack blob 4096 size_given kept dtb_init_lem_example

dtb_init-inside_example :
    (kept.fdt ≢ 0)
    × (kept.struct_at + kept.struct_size ≤ 4096 + kept.totalsize)
    × (kept.strings_at + kept.strings_size ≤ 4096 + kept.totalsize)
    × (kept.rsvmap_at < 4096 + kept.totalsize)
    × ((size_given ≡ 0) ⊎ (kept.totalsize ≤ size_given % 2 ^ 32))
unfolding be32
dtb_init-inside_example =
    dtb_init-inside 128 no_stack blob 4096 size_given kept dtb_init_lem_example (omega arith)
      (omega arith)

safe_tree_pages_example :
    Covers (described memory tree) 0x40031008
    × (Covers ((range 0x43000000 0 ∷ []) ++ described reserved tree) 0x40031008 → ⊥)
unfolding hh_virt_to_phys dtb_span bit_test build placed mark_pages mark_usable reserve_boot
    reserve_blob bitmap_mark_all_reserved bitmap_mark_range_free bitmap_mark_range_reserved
    mark_span free_bits reserve_bits lowest_page range_end pmm_update_pressure bit_set bit_clear
    machine_of dtb_get_memory_ranges dtb_get_reserved_ranges dtb_get_totalsize header_of header_ok
    be32 be64 regs
safe_tree_pages_example =
    safe_tree_pages 128 no_stack blob 4096 size_given tree (range 0x43000000 0 ∷ []) kept
      0xFFFF800040020000 virt boot blank booted calls 1 0x40031000 (pmm_alloc_pages later 1).1
      (λ e. omega (arith, e)) blob-HeaderAt tree-at tree-Clear
      (omega arith, tt, (omega arith, (omega arith, tt, tt), tt)) (refl, refl, refl, (refl, refl))
      (omega arith) (omega arith) (omega arith) dtb_init_lem_example (λ i. omega arith)
      (omega arith, tt) (omega arith, tt) (omega arith) (omega arith) (omega arith) init_some
      (refl, tt) page 0x40031008 (omega arith) (omega arith)
