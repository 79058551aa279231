-- ===== src/Pmm/Boot.antt =====
-- The state that `pmm_init` of mm/pmm.c leaves.
use capaz_os_kernel.Common.{
  ℕ, ◌+◌, ◌*◌, ◌%◌, ◌≤◌, ◌<◌, ◌≡◌, ◌⊎◌, refl, sym, subst, ◌∙◌, inl, inr, arith, true, false, ◌&&◌,
  ◌||◌, Bool-cases, List, [], ◌∷◌, ltb, leb, ◌==◌, if◌then◌else◌, u64_mod,
}
use capaz_os_kernel.Board.{Board, page_size, align_down_4k, align_up_4k}
use capaz_os_kernel.Platform.{DtbRange, range_end, BootInfo, Machine, dtb_span}
use capaz_os_kernel.Pmm.{Pmm, bit_test, bitmap_mark_range_free, bitmap_mark_range_reserved}
use capaz_os_kernel.Pmm.Bitmap.{Bytes, full_byte}
use capaz_os_kernel.Pmm.Count.{free_below-none}
use capaz_os_kernel.Pmm.Alloc.{SamePlace, page_pa}
use capaz_os_kernel.Pmm.Marks.{Good}
use capaz_os_kernel.Pmm.Marks.Spans.{with_span, mark_free_lem, mark_reserved_lem}
use capaz_os_kernel.Pmm.Init.{bitmap_mark_all_reserved, mark_usable, reserve_boot, reserve_blob}

-- The page at p lies in one of the ranges.
abbrev pub PageIn : List DtbRange → ℕ → Type 0
PageIn [] p = ⊥
PageIn (r ∷ rs) p = ((align_up_4k r.base ≤ p) × (p < align_down_4k (range_end r))) ⊎ PageIn rs p

-- `st'` is a good state of the same window; a page that is free in it was free in `st` or is in `rs`.
pub record Frees (st st' : Pmm) (rs : List DtbRange) : Type 0 where
  pub place : SamePlace st st'
  pub hint : st'.next_hint ≡ st.next_hint
  pub good : Good st'
  pub from :
      (j : ℕ)
      → j < st.total_pages
      → bit_test st'.bitmap j ≡ false
      → (bit_test st.bitmap j ≡ false) ⊎ PageIn rs (page_pa st j)

Frees-refl : (st : Pmm) → Good st → Frees st st []
Frees-refl st g = record {
  place = record {
    base_pa = refl;
    limit_pa = refl;
    total_pages = refl;
    meta_base_pa = refl;
    meta_pages = refl;
  };
  hint = refl;
  good = g;
  from = λ j lt e. inl e;
}

pub usable-Frees : (st : Pmm) (rs : List DtbRange) → Good st → Frees st (mark_usable st rs) rs
unfolding mark_usable
usable-Frees st [] g = Frees-refl st g
usable-Frees st (r ∷ rs) g =
    let m = mark_free_lem st r.base (range_end r) g in
    let f = usable-Frees (bitmap_mark_range_free st r.base (range_end r)) rs m.good in
    record {
      place = record {
        base_pa = f.place.base_pa ∙ m.place.base_pa;
        limit_pa = f.place.limit_pa ∙ m.place.limit_pa;
        total_pages = f.place.total_pages ∙ m.place.total_pages;
        meta_base_pa = f.place.meta_base_pa ∙ m.place.meta_base_pa;
        meta_pages = f.place.meta_pages ∙ m.place.meta_pages;
      };
      hint = f.hint ∙ m.hint;
      good = f.good;
      from = λ j lt e. elim (f.from j (omega (arith, m.place.total_pages)) e) [
        | inr there ↦ inr (inr (subst (λ b. PageIn rs (b + j * page_size)) m.place.base_pa there))
        | inl before ↦ here m.now j before
      ];
    }
  where
    here :
        ((j : ℕ)
          → bit_test (bitmap_mark_range_free st r.base (range_end r)).bitmap j
            ≡ with_span st false (align_up_4k r.base) (align_down_4k (range_end r)) j)
        → (j : ℕ) → bit_test (bitmap_mark_range_free st r.base (range_end r)).bitmap j ≡ false
        → (bit_test st.bitmap j ≡ false) ⊎ PageIn (r ∷ rs) (page_pa st j)
    here now j e =
        elim (Bool-cases (
          (leb (align_up_4k r.base) (page_pa st j)
            && ltb (page_pa st j) (align_down_4k (range_end r)))
          && ltb j st.total_pages)) [
            | inl page_in ↦ inr (inl (ground arith, ground arith))
            | inr out ↦ inl (ground (arith, now j))
          ]

-- Reserving frees nothing.
pub then_reserved :
    {st st' : Pmm} {rs : List DtbRange} (s e : ℕ)
    → Frees st st' rs
    → Frees st (bitmap_mark_range_reserved st' s e) rs
then_reserved {st} {st'} s e f =
    let m = mark_reserved_lem st' s e f.good in
    record {
      place = record {
        base_pa = m.place.base_pa ∙ f.place.base_pa;
        limit_pa = m.place.limit_pa ∙ f.place.limit_pa;
        total_pages = m.place.total_pages ∙ f.place.total_pages;
        meta_base_pa = m.place.meta_base_pa ∙ f.place.meta_base_pa;
        meta_pages = m.place.meta_pages ∙ f.place.meta_pages;
      };
      hint = m.hint ∙ f.hint;
      good = m.good;
      from = λ j lt z. f.from j lt (ground (arith, m.now j));
    }

pub then_boot :
    (b : Board) (mc : Machine) (bi : BootInfo) {st st' : Pmm} {rs : List DtbRange}
    → Frees st st' rs
    → Frees st (reserve_boot b mc bi st') rs
unfolding reserve_boot
then_boot b mc bi f = then_reserved _ _ f

pub then_blob :
    (b : Board) (mc : Machine) (bi : BootInfo) {st st' : Pmm} {rs : List DtbRange}
    → Frees st st' rs
    → Frees st (reserve_blob b mc bi st') rs
unfolding reserve_blob
then_blob b mc bi {st} {st'} {rs} f =
    elim (Bool-cases (bi.dtb_ptr == 0 || dtb_span bi mc.totalsize == 0)) [
      | inl absent ↦ rw absent f
      | inr present ↦ rw present (then_reserved _ _ f)
    ]

-- Everything is reserved first.
pub all_reserved-Good :
    (st : Pmm) (n : ℕ)
    → Bytes st.bitmap
    → page_pa st st.total_pages ≡ st.limit_pa
    → st.base_pa % page_size ≡ 0
    → st.limit_pa < u64_mod
    → st.total_pages ≤ 8 * n
    → Good (bitmap_mark_all_reserved st n)
      × ((j : ℕ) → j < st.total_pages → bit_test (bitmap_mark_all_reserved st n).bitmap j ≡ true)
unfolding bitmap_mark_all_reserved
all_reserved-Good st n bytes window aligned fits room = (
  record {
    bytes = λ i. ground (arith, bytes i);
    counted = sym (free_below-none _ st.total_pages full);
    window = window;
    aligned = aligned;
    fits = fits;
  },
  full,
)
  where
    full :
        (j : ℕ) → j < st.total_pages → bit_test (λ i. if ltb i n then 255 else st.bitmap i) j ≡ true
    full j lt = full_byte (λ i. if ltb i n then 255 else st.bitmap i) j (ground arith)
