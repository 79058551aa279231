-- ===== src/Platform/Usable.antt =====
-- `platform_get_usable_ranges` of platform/platform.c hands out RAM that nothing else uses.
use capaz_os_kernel.Common.{
  length, ℕ, ◌+◌, ◌-◌, ◌*◌, ◌<◌, ◌≡◌, inl, inr, ◌↔◌, subst, arith, List, [], ◌∷◌, ltb, ◌==◌, not,
  ◌&&◌, Bool-cases, if◌then◌else◌, u64_mod, add_u64, Option, none, some, bind_some,
}
use capaz_os_kernel.Board.{Board, virt, rpi3, win_end, align_up_4k, page_size, hh_virt_to_phys}
use capaz_os_kernel.Platform.{
  DtbRange, clamp_inner, clamp_outer, sort_ranges, normalize_merge, subtract_reserved,
  platform_get_usable_ranges, memory_ranges, reserved_ranges, all_reserved, boot_region,
  kernel_image, metadata, metadata_pages, dtb_blob, BootInfo, Machine, lowest,
}
use capaz_os_kernel.Platform.Cover.{Covers, Fits, Apart, Solid, Fits-append}
use capaz_os_kernel.Platform.Sort.{sort_lem, sort_ranges-Fits, sort_ranges-SameCover}
use capaz_os_kernel.Platform.Merge.{merge_lem}
use capaz_os_kernel.Platform.Subtract.{subtract_lem}
use capaz_os_kernel.Platform.Align.{
  InWindow, Physical, win_end_lt, clamp-Fits, inner_sound, inner-Fits, outer-Fits,
}

-- Sorting and merging make a list in order with the same addresses.
pub record Normal (before after : List DtbRange) : Type 0 where
  pub same : (x : ℕ) → Covers before x ↔ Covers after x
  pub fits : Fits after
  pub apart : Apart after

normal_lem : (rs : List DtbRange) → Fits rs → Normal rs (normalize_merge (sort_ranges rs))
normal_lem rs f =
    let s = sort_ranges-SameCover rs in
    let m = merge_lem (sort_ranges rs) (sort_ranges-Fits rs f) (sort_lem rs).0 in
    record {
      same = λ x. ((λ c. m.complete x ((s x).0 c)), λ c. (s x).1 (m.sound x c));
      fits = m.fits;
      apart = m.apart;
    }

pub memory_ranges-Normal :
    (b : Board) (mc : Machine) → Normal (clamp_inner b mc.memory) (memory_ranges b mc)
unfolding memory_ranges
memory_ranges-Normal b mc = normal_lem (clamp_inner b mc.memory) (inner-Fits b mc.memory)

boot_region-Fits : (b : Board) (bi : BootInfo) (n : ℕ) → Fits (boot_region b bi n)
unfolding boot_region
boot_region-Fits b bi n = elim (Bool-cases (not (n == u64_mod - 1) && ltb n bi.kernel_phys_base)) [
  | inl y ↦ rw y (clamp-Fits b _ _)
  | inr z ↦ rw z tt
]

dtb_blob-Fits : (b : Board) (bi : BootInfo) (n : ℕ) → Fits (dtb_blob b bi n)
unfolding dtb_blob
dtb_blob-Fits b bi n = elim (Bool-cases (bi.dtb_ptr == 0)) [
  | inl y ↦ rw y tt
  | inr z ↦ rw z (clamp-Fits b _ _)
]

-- The end of the allocator's own pages, cut to the window.
abbrev metadata_cut : Board → ℕ → ℕ
metadata_cut b start =
    let end = add_u64 start (metadata_pages * page_size) in
    if ltb (win_end b) end then win_end b else end

metadata-Fits : (b : Board) (n : ℕ) → Fits (metadata b n)
unfolding metadata
metadata-Fits b n =
    let start = align_up_4k (hh_virt_to_phys b n) in
    let w = win_end_lt b in
    elim (Bool-cases (ltb start (win_end b) && ltb start (metadata_cut b start))) [
      | inl y ↦ rw y (ground arith, tt)
      | inr z ↦ rw z tt
    ]

kernel_image-Fits : (b : Board) (bi : BootInfo) (n : ℕ) → Fits (kernel_image b bi n)
unfolding kernel_image
kernel_image-Fits b bi n = clamp-Fits b _ _

all_reserved-Fits :
    (b : Board) (mc : Machine) (bi : Option BootInfo) (mem : List DtbRange)
    → Fits (all_reserved b mc bi mem)
unfolding all_reserved
all_reserved-Fits b mc none mem = outer-Fits b mc.reserved
all_reserved-Fits b mc (some bi) mem =
    Fits-append (clamp_outer b mc.reserved) _ (outer-Fits b mc.reserved) (
      Fits-append (boot_region b bi (lowest b mem)) _ (boot_region-Fits b bi (lowest b mem)) (
        Fits-append (kernel_image b bi mc.runtime_end) _ (kernel_image-Fits b bi mc.runtime_end) (
          Fits-append (metadata b mc.runtime_end) _ (metadata-Fits b mc.runtime_end)
            (dtb_blob-Fits b bi mc.totalsize))))

reserved_ranges-Normal :
    (b : Board) (mc : Machine) (bi : Option BootInfo)
    → Normal (all_reserved b mc bi (memory_ranges b mc)) (reserved_ranges b mc bi)
unfolding reserved_ranges
reserved_ranges-Normal b mc bi = normal_lem _ (all_reserved-Fits b mc bi (memory_ranges b mc))

-- What is handed out is memory, and none of it is reserved.
pub record Clean (b : Board) (mc : Machine) (bi : Option BootInfo) (out : List DtbRange)
    : Type 0 where
  pub apart : Apart out
  pub memory : (x : ℕ) → Covers out x → Covers (memory_ranges b mc) x × InWindow b x
  pub free : (x : ℕ) → Covers out x → Covers (all_reserved b mc bi (memory_ranges b mc)) x → ⊥

pub win_end_lt_pages : (b : Board) → win_end b + page_size < u64_mod
win_end_lt_pages virt = omega arith
win_end_lt_pages rpi3 = omega arith

-- Ranges whose addresses lie in the window end there.
pub window-Physical :
    (b : Board) (rs : List DtbRange)
    → Solid rs
    → Fits rs
    → ((x : ℕ) → Covers rs x → InWindow b x)
    → Physical rs
window-Physical b [] s f h = tt
window-Physical b (r ∷ rs) s f h =
    let last = h (r.base + r.size - 1) (inl (omega arith)) in
    (omega (arith, last, win_end_lt_pages b), window-Physical b rs s.1 f.1 (λ x c. h x (inr c)))

usable_steps :
    (b : Board) (mc : Machine) (bi : Option BootInfo) (capacity : ℕ) (out : List DtbRange)
    → platform_get_usable_ranges b mc bi capacity ≡ some out
    → (raw : List DtbRange) × (subtract_reserved
          (memory_ranges b mc)
          (reserved_ranges b mc bi)
          capacity
        ≡ some raw)
      × (normalize_merge (sort_ranges (clamp_inner b raw)) ≡ out)
unfolding platform_get_usable_ranges
usable_steps b mc bi capacity out q =
    let (raw, e, more) =
      bind_some
        {m = if length mc.memory == 0
          then none
          else subtract_reserved (memory_ranges b mc) (reserved_ranges b mc bi) capacity}
        out q in
    (raw, ground (arith, e), ground arith)

pub usable-Clean :
    (b : Board) (mc : Machine) (bi : Option BootInfo) (capacity : ℕ) (out : List DtbRange)
    → Physical mc.memory
    → platform_get_usable_ranges b mc bi capacity ≡ some out
    → Clean b mc bi out
usable-Clean b mc bi capacity out pm q =
    let (raw, e, last) = usable_steps b mc bi capacity out q in
    let mem = memory_ranges-Normal b mc in
    let rsv = reserved_ranges-Normal b mc bi in
    let (fits, solid, exact) =
      subtract_lem capacity (memory_ranges b mc) (reserved_ranges b mc bi) raw mem.fits mem.apart
        rsv.fits rsv.apart e in
    let in_window = λ (x : ℕ).
      λ (c : Covers (memory_ranges b mc) x). (inner_sound b mc.memory x pm ((mem.same x).1 c)).1 in
    let physical = window-Physical b raw solid fits (λ x c. in_window x ((exact x).0 c).0) in
    let final = normal_lem (clamp_inner b raw) (inner-Fits b raw) in
    let down = λ (x : ℕ). λ (c : Covers (normalize_merge (sort_ranges (clamp_inner b raw))) x).
      (exact x).0 (inner_sound b raw x physical ((final.same x).1 c)).0 in
    subst (Clean b mc bi) last (record {
      apart = final.apart;
      memory = λ x c. ((down x c).0, in_window x (down x c).0);
      free = λ x c d. (down x c).1 ((rsv.same x).0 d);
    })
