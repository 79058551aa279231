-- ===== src/Platform/Handout.antt =====
-- Where the ranges that `platform_get_usable_ranges` of platform/platform.c hands out lie.
use capaz_os_kernel.Common.{
  ℕ, ◌+◌, ◌-◌, ◌*◌, ◌≤◌, ◌<◌, ◌≡◌, ◌≢◌, inl, inr, arith, List, [], ◌∷◌, ltb, ◌==◌, not, ◌&&◌,
  Bool-cases, true, false, u64_mod, some,
}
use capaz_os_kernel.Board.{Board, align_up_4k, page_size, hh_virt_to_phys}
use capaz_os_kernel.Platform.{
  DtbRange, clamp_outer, platform_get_usable_ranges, memory_ranges, all_reserved, boot_region,
  kernel_image, metadata, metadata_pages, dtb_blob, dtb_span, BootInfo, Machine, lowest,
}
use capaz_os_kernel.Platform.Cover.{Covers, Apart, Covers-append, Covers-AllGe}
use capaz_os_kernel.Platform.Align.{InWindow, Physical, clamp-Covers, inner_sound, outer-complete}
use capaz_os_kernel.Platform.Usable.{usable-Clean, memory_ranges-Normal}

module _ (b : Board) (mc : Machine) (bi : BootInfo) (mem : List DtbRange) (x : ℕ) where
  in_reserved : Covers (clamp_outer b mc.reserved) x → Covers (all_reserved b mc (some bi) mem) x
  unfolding all_reserved
  in_reserved c = (Covers-append (clamp_outer b mc.reserved) _ x).1 (inl c)

  in_boot : Covers (boot_region b bi (lowest b mem)) x → Covers (all_reserved b mc (some bi) mem) x
  unfolding all_reserved
  in_boot c =
      (Covers-append (clamp_outer b mc.reserved) _ x).1
        (inr ((Covers-append (boot_region b bi (lowest b mem)) _ x).1 (inl c)))

  in_kernel :
      Covers (kernel_image b bi mc.runtime_end) x → Covers (all_reserved b mc (some bi) mem) x
  unfolding all_reserved
  in_kernel c = (Covers-append (clamp_outer b mc.reserved) _ x).1 (
      inr (
        (Covers-append (boot_region b bi (lowest b mem)) _ x).1
          (inr ((Covers-append (kernel_image b bi mc.runtime_end) _ x).1 (inl c)))))

  in_metadata : Covers (metadata b mc.runtime_end) x → Covers (all_reserved b mc (some bi) mem) x
  unfolding all_reserved
  in_metadata c = (Covers-append (clamp_outer b mc.reserved) _ x).1 (
      inr (
        (Covers-append (boot_region b bi (lowest b mem)) _ x).1 (
          inr (
            (Covers-append (kernel_image b bi mc.runtime_end) _ x).1
              (inr ((Covers-append (metadata b mc.runtime_end) _ x).1 (inl c)))))))

  in_blob : Covers (dtb_blob b bi mc.totalsize) x → Covers (all_reserved b mc (some bi) mem) x
  unfolding all_reserved
  in_blob c = (Covers-append (clamp_outer b mc.reserved) _ x).1 (
      inr (
        (Covers-append (boot_region b bi (lowest b mem)) _ x).1 (
          inr (
            (Covers-append (kernel_image b bi mc.runtime_end) _ x).1
              (inr ((Covers-append (metadata b mc.runtime_end) _ x).1 (inr c)))))))

boot-Covers :
    (b : Board) (bi : BootInfo) (n x : ℕ)
    → bi.kernel_phys_base + page_size ≤ u64_mod
    → n ≤ x
    → x < bi.kernel_phys_base
    → InWindow b x
    → Covers (boot_region b bi n) x
unfolding boot_region
boot-Covers b bi n x fit le lt w =
    let below : not (n == u64_mod - 1) && ltb n bi.kernel_phys_base ≡ true = ground arith in
    rw below ((clamp-Covers b _ _ x).1 (omega arith, omega arith, w))

kernel-Covers :
    (b : Board) (bi : BootInfo) (n x : ℕ)
    → bi.kernel_phys_base ≤ x
    → x < align_up_4k (hh_virt_to_phys b n)
    → InWindow b x
    → Covers (kernel_image b bi n) x
unfolding kernel_image
kernel-Covers b bi n x ge lt w = (clamp-Covers b _ _ x).1 (omega arith, lt, w)

metadata-Covers :
    (b : Board) (n x : ℕ)
    → align_up_4k (hh_virt_to_phys b n) + 2 * (metadata_pages * page_size) ≤ u64_mod
    → align_up_4k (hh_virt_to_phys b n) ≤ x
    → x < align_up_4k (hh_virt_to_phys b n) + metadata_pages * page_size
    → InWindow b x
    → Covers (metadata b n) x
unfolding metadata
metadata-Covers b n x fit ge lt w = ground arith

blob-Covers :
    (b : Board) (bi : BootInfo) (n x : ℕ)
    → bi.dtb_ptr ≢ 0
    → hh_virt_to_phys b bi.dtb_ptr + dtb_span bi n + page_size ≤ u64_mod
    → hh_virt_to_phys b bi.dtb_ptr ≤ x
    → x < hh_virt_to_phys b bi.dtb_ptr + dtb_span bi n
    → InWindow b x
    → Covers (dtb_blob b bi n) x
unfolding dtb_blob
blob-Covers b bi n x ne fit ge lt w =
    let some_blob : (bi.dtb_ptr == 0) ≡ false = ground arith in
    rw some_blob ((clamp-Covers b _ _ x).1 (omega arith, omega arith, w))

-- The first range in order begins at or before every address that is covered.
lowest-le : (b : Board) (rs : List DtbRange) (x : ℕ) → Apart rs → Covers rs x → lowest b rs ≤ x
lowest-le b [] x a c = absurd c
lowest-le b (r ∷ rs) x a (inl w) = w.0
lowest-le b (r ∷ rs) x a (inr c) = omega (arith, Covers-AllGe (r.base + r.size + 1) rs x a.1 c)

-- The end of the pages that the allocator keeps for itself behind the kernel.
abbrev pub metadata_end : Board → Machine → ℕ
metadata_end b mc = align_up_4k (hh_virt_to_phys b mc.runtime_end) + metadata_pages * page_size

-- The address lies in the blob of the device tree that the boot loader left.
abbrev pub InBlob : Board → Machine → BootInfo → ℕ → Type 0
InBlob b mc bi x =
    (bi.dtb_ptr ≢ 0)
    × (hh_virt_to_phys b bi.dtb_ptr ≤ x)
    × (x < hh_virt_to_phys b bi.dtb_ptr + dtb_span bi mc.totalsize)

-- Every address that is handed out is in RAM and in the window, in no range that the device tree
-- reserves, behind the kernel and the allocator's own pages, and not in the device tree's blob. The
-- addresses that the hardware and the boot loader give are not within a page of 2^64.
pub usable_lem :
    (b : Board) (mc : Machine) (bi : BootInfo) (capacity : ℕ) (out : List DtbRange)
    → Physical mc.memory
    → Physical mc.reserved
    → bi.kernel_phys_base + page_size ≤ u64_mod
    → metadata_end b mc + metadata_pages * page_size ≤ u64_mod
    → hh_virt_to_phys b bi.dtb_ptr + dtb_span bi mc.totalsize + page_size ≤ u64_mod
    → platform_get_usable_ranges b mc (some bi) capacity ≡ some out
    → (x : ℕ) → Covers out x
    → Covers mc.memory x
      × InWindow b x
      × (Covers mc.reserved x → ⊥)
      × (metadata_end b mc ≤ x)
      × (InBlob b mc bi x → ⊥)
usable_lem b mc bi capacity out pm pr fk fmeta fd q x c =
    let clean = usable-Clean b mc (some bi) capacity out pm q in
    let mem = memory_ranges b mc in
    let normal = memory_ranges-Normal b mc in
    let (inside, win) = clean.memory x c in
    let free = clean.free x c in
    (
      (inner_sound b mc.memory x pm ((normal.same x).1 inside)).0,
      win,
      (λ d. free (in_reserved b mc bi mem x (outer-complete b mc.reserved x pr win d))),
      behind inside win free normal.apart,
      λ (ne, ge, lt).
          free (in_blob b mc bi mem x (blob-Covers b bi mc.totalsize x ne fd ge lt win)),
    )
  where
    behind :
        Covers (memory_ranges b mc) x
        → InWindow b x
        → (Covers (all_reserved b mc (some bi) (memory_ranges b mc)) x → ⊥)
        → Apart (memory_ranges b mc)
        → metadata_end b mc ≤ x
    behind inside win free apart =
        let mem = memory_ranges b mc in
        elim (Bool-cases (ltb x (metadata_end b mc))) [
          | inr past ↦ ground arith
          | inl lt ↦ elim (Bool-cases (ltb x bi.kernel_phys_base)) [
            | inl below ↦ absurd (
                free (
                  in_boot b mc bi mem x (
                    boot-Covers b bi (lowest b mem) x fk (lowest-le b mem x apart inside)
                      (ground arith) win)))
            | inr above ↦
                elim (Bool-cases (ltb x (align_up_4k (hh_virt_to_phys b mc.runtime_end)))) [
                  | inl image ↦ absurd (
                      free (
                        in_kernel b mc bi mem x
                          (kernel-Covers b bi mc.runtime_end x (ground arith) (ground arith) win)))
                  | inr data_pages ↦ absurd (
                      free (
                        in_metadata b mc bi mem x (
                          metadata-Covers b mc.runtime_end x (omega arith) (ground arith)
                            (ground arith) win)))
                ]
          ]
        ]
