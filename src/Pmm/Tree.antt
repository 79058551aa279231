-- ===== src/Pmm/Tree.antt =====
-- From the blob of the device tree to the pages that mm/pmm.c hands out.
use capaz_os_kernel.Common.{
  ℕ, zero, suc, ◌+◌, ◌*◌, ◌≤◌, ◌<◌, ◌≡◌, ◌≢◌, refl, ap, sym, subst, ◌∙◌, inl, inr, arith, true,
  Bool-cases, some, List, [], ◌∷◌, ◌++◌, length, ◌==◌, u64_mod,
}
use capaz_os_kernel.Board.{Board, page_size, hh_virt_to_phys}
use capaz_os_kernel.Platform.{DtbRange, BootInfo, Machine, metadata_pages, dtb_span}
use capaz_os_kernel.Platform.Cover.{Covers}
use capaz_os_kernel.Platform.Align.{Physical}
use capaz_os_kernel.Platform.Handout.{metadata_end}
use capaz_os_kernel.Dtb.{NodeCtx, memory, reserved}
use capaz_os_kernel.Dtb.Init.{
  Dtb, first_ranges, dtb_init, dtb_get_memory_ranges, dtb_get_reserved_ranges, dtb_get_totalsize,
}
use capaz_os_kernel.Dtb.Layout.{Clear, word, Shallow, solid}
use capaz_os_kernel.Dtb.Collected.{
  Root, TreeAt, ReservesAt, tree_size, described, HeaderAt, dtb_init_lem,
}
use capaz_os_kernel.Pmm.{Pmm, pmm_alloc_pages}
use capaz_os_kernel.Pmm.Bitmap.{Bytes}
use capaz_os_kernel.Pmm.Init.{pmm_init}
use capaz_os_kernel.Pmm.History.{Call, run}
use capaz_os_kernel.Pmm.Safe.{OnlyReturns, safe_pages}

-- What the memory map reads of the parsed tree, into arrays of 64 ranges.
unfoldable pub machine_of : Dtb → ℕ → Machine
machine_of t runtime_end = record {
  memory = (dtb_get_memory_ranges t 64).1;
  reserved = (dtb_get_reserved_ranges t 64).1;
  totalsize = dtb_get_totalsize t;
  runtime_end = runtime_end;
}

first-Covers : (n : ℕ) (rs : List DtbRange) (x : ℕ) → Covers (first_ranges n rs) x → Covers rs x
first-Covers zero rs x c = absurd c
first-Covers (suc n) [] x c = absurd c
first-Covers (suc n) (r ∷ rs) x (inl here) = inl here
first-Covers (suc n) (r ∷ rs) x (inr there) = inr (first-Covers n rs x there)

Covers-first :
    (n : ℕ) (rs : List DtbRange) (x : ℕ)
    → length rs ≤ n
    → Covers rs x
    → Covers (first_ranges n rs) x
Covers-first zero [] x fit c = absurd c
Covers-first zero (r ∷ rs) x fit c = absurd (omega (arith, fit))
Covers-first (suc n) [] x fit c = absurd c
Covers-first (suc n) (r ∷ rs) x fit (inl here) = inl here
Covers-first (suc n) (r ∷ rs) x fit (inr there) =
    inr (Covers-first n rs x (omega (arith, fit)) there)

first-length : (n : ℕ) (rs : List DtbRange) → length (first_ranges n rs) ≤ n
first-length zero rs = omega arith
first-length (suc n) [] = omega arith
first-length (suc n) (r ∷ rs) = omega (arith, first-length n rs)

one-more :
    (r : DtbRange) (rs ss : List DtbRange) (x : ℕ)
    → (Covers rs x → Covers ss x)
    → Covers (r ∷ rs) x
    → Covers (r ∷ ss) x
one-more r rs ss x more (inl here) = inl here
one-more r rs ss x more (inr there) = inr (more there)

none-here :
    (r : DtbRange) (rs : List DtbRange) (x : ℕ)
    → (r.size == 0) ≡ true
    → Covers (r ∷ rs) x
    → Covers rs x
none-here r rs x empty (inl here) = absurd (ground (arith, here, empty))
none-here r rs x empty (inr there) = there

solid-Covers : (rs : List DtbRange) (x : ℕ) → Covers (solid rs) x → Covers rs x
solid-Covers [] x c = absurd c
solid-Covers (r ∷ rs) x c = elim (Bool-cases (r.size == 0)) [
  | inl empty ↦ inr (solid-Covers rs x (subst (λ ss. Covers ss x) (rw empty refl) c))
  | inr full ↦
      let here : solid (r ∷ rs) ≡ r ∷ solid rs = rw full refl in
      one-more r (solid rs) rs x (λ d. solid-Covers rs x d) (subst (λ ss. Covers ss x) here c)
]

Covers-solid : (rs : List DtbRange) (x : ℕ) → Covers rs x → Covers (solid rs) x
Covers-solid [] x c = absurd c
Covers-solid (r ∷ rs) x c = elim (Bool-cases (r.size == 0)) [
  | inl empty ↦ rw empty (Covers-solid rs x (none-here r rs x empty c))
  | inr full ↦ rw full (one-more r rs (solid rs) x (λ d. Covers-solid rs x d) c)
]

-- Let the blob of a well-formed device tree be parsed, with at most 64 reservations and reserved ranges
-- that are not empty, let `pmm_init` succeed on what the parser found, and let any allocations and frees
-- follow, each free of a page that was free at first. Every address of a block that is then handed out
-- is in a range of memory that the tree describes, and in none that the tree reserves. Fuel is given for
-- the tokens of the tree, the names of its nodes and the bytes of its properties, each less than 2^32 - 16,
-- and it is less than 65 levels deep. No property but #address-cells begins with "#a", none but
-- #size-cells with "#s", and none but reg with "reg". No range that the parser found, and no address of
-- the boot loader, is within a page of 2^64, the first of the allocator's pages is not within 32 pages of
-- it, and the memory holds bytes.
pub safe_tree_pages :
    (fuel : ℕ) (stack : ℕ → NodeCtx) (m : ℕ → ℕ) (fdt fdt_size : ℕ) (root : Root)
    (entries : List DtbRange) (t : Dtb) (runtime_end : ℕ) (b : Board) (bi : BootInfo)
    (memory_bytes : ℕ → ℕ) (st : Pmm) (cs : List Call) (count pa : ℕ) (st' : Pmm)
    → fdt ≢ 0
    → HeaderAt m fdt fdt_size
    → TreeAt m (fdt + word m (fdt + 12)) (fdt + word m (fdt + 8)) root
    → Clear root.content
    → Shallow root.content 1
    → ReservesAt m (fdt + word m (fdt + 16)) entries
    → length entries ≤ 128
    → tree_size root ≤ fuel
    → length (solid (entries ++ described reserved root)) ≤ 64
    → dtb_init fuel stack m fdt fdt_size ≡ some t
    → Bytes memory_bytes
    → Physical (machine_of t runtime_end).memory
    → Physical (machine_of t runtime_end).reserved
    → bi.kernel_phys_base + page_size ≤ u64_mod
    → metadata_end b (machine_of t runtime_end) + metadata_pages * page_size ≤ u64_mod
    → hh_virt_to_phys b bi.dtb_ptr + dtb_span bi (machine_of t runtime_end).totalsize + page_size
      ≤ u64_mod
    → pmm_init b (machine_of t runtime_end) (some bi) memory_bytes ≡ some st
    → OnlyReturns st cs
    → pmm_alloc_pages (run st cs) count ≡ (some pa, st')
    → (x : ℕ) → pa ≤ x
    → x < pa + count * page_size
    → Covers (described memory root) x × (Covers (entries ++ described reserved root) x → ⊥)
unfolding machine_of dtb_get_memory_ranges dtb_get_reserved_ranges
safe_tree_pages fuel stack m fdt fdt_size root entries t runtime_end b bi memory_bytes st cs count
      pa st' some_blob header tree clear deep at fit enough few init bytes pm pr fk fm fd q o qa x
      ge lt =
    let (covered, window, free_of, behind, outside) =
      safe_pages b (machine_of t runtime_end) bi memory_bytes st cs count pa st' bytes pm pr fk fm
        fd q o qa x ge lt in
    let found = inj (
      sym init
      ∙ dtb_init_lem fuel stack m fdt fdt_size root entries some_blob header tree clear deep at fit
          enough) in
    let all = entries ++ described reserved root in
    (
      solid-Covers (described memory root) x (
          first-Covers 16 _ x (
            subst (λ rs. Covers rs x) (ap (λ (t : Dtb). t.mem_ranges) found)
              (first-Covers 64 _ x covered))),
      λ c. free_of (
          subst (λ rs. Covers (first_ranges 64 rs) x) (sym (ap (λ (t : Dtb). t.rsv_ranges) found))
            (Covers-first 64 _ x (first-length 64 _)
              (Covers-first 64 _ x few (Covers-solid all x c)))),
    )
  where
    inj : {t' : Dtb} → some t ≡ some t' → t ≡ t'
    inj e = cc
