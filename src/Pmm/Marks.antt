-- ===== src/Pmm/Marks.antt =====
-- What one step of the marking loops of mm/pmm.c does to the bitmap.
pub mod Spans
use capaz_os_kernel.Common.{
  ℕ, zero, suc, ◌+◌, ◌-◌, ◌*◌, ◌/◌, ◌%◌, ◌≤◌, ◌<◌, ◌≡◌, refl, ap, sym, ◌∙◌, inl, inr, arith, Bool,
  true, false, not, ◌&&◌, ◌||◌, Bool-cases, ltb, leb, ◌==◌, ==_iff, if◌then◌else◌, add_u64, u64_mod,
}
use capaz_os_kernel.Board.{page_size, align_down_4k, align_up_4k}
use capaz_os_kernel.Pmm.{
  Pmm, bit_test, bit_set, bit_clear, free_bits, reserve_bits, mark_span, bitmap_mark_range_free,
  bitmap_mark_range_reserved,
}
use capaz_os_kernel.Pmm.Bitmap.{Bytes, bit_set_lem, bit_set-Bytes, bit_clear_lem, bit_clear-Bytes}
use capaz_os_kernel.Pmm.Count.{free_below, free_below-set, free_below-le}
use capaz_os_kernel.Pmm.Alloc.{SamePlace, page_pa}

-- What of a valid state holds before the allocator's own pages are marked.
pub record Good (st : Pmm) : Type 0 where
  pub bytes : Bytes st.bitmap
  pub counted : st.free_pages ≡ free_below (bit_test st.bitmap) st.total_pages
  pub window : page_pa st st.total_pages ≡ st.limit_pa
  pub aligned : st.base_pa % page_size ≡ 0
  pub fits : st.limit_pa < u64_mod

-- `st'` is `st` with the bits f.
pub record Marked (st st' : Pmm) (f : ℕ → Bool) : Type 0 where
  pub place : SamePlace st st'
  pub hint : st'.next_hint ≡ st.next_hint
  pub good : Good st'
  pub now : (j : ℕ) → bit_test st'.bitmap j ≡ f j

-- The bits f with those of the n pages from i on set to b.
abbrev pub with_value : (ℕ → Bool) → Bool → ℕ → ℕ → ℕ → Bool
with_value f b i n j = if leb i j && ltb j (i + n) then b else f j

pub unmarked : (st : Pmm) → Good st → Marked st st (bit_test st.bitmap)
unmarked st g = record {
  place = record {
    base_pa = refl;
    limit_pa = refl;
    total_pages = refl;
    meta_base_pa = refl;
    meta_pages = refl;
  };
  hint = refl;
  good = g;
  now = λ j. refl;
}

pub Marked-then :
    {a b c : Pmm} {f g : ℕ → Bool} (h : ℕ → Bool)
    → Marked a b f
    → Marked b c g
    → ((j : ℕ) → g j ≡ h j)
    → Marked a c h
Marked-then h p q e = record {
  place = record {
    base_pa = q.place.base_pa ∙ p.place.base_pa;
    limit_pa = q.place.limit_pa ∙ p.place.limit_pa;
    total_pages = q.place.total_pages ∙ p.place.total_pages;
    meta_base_pa = q.place.meta_base_pa ∙ p.place.meta_base_pa;
    meta_pages = q.place.meta_pages ∙ p.place.meta_pages;
  };
  hint = q.hint ∙ p.hint;
  good = q.good;
  now = λ j. q.now j ∙ e j;
}

-- Writing a bit's own value changes nothing.
unchanged : (f : ℕ → Bool) (b : Bool) (i : ℕ) → f i ≡ b → (j : ℕ) → f j ≡ with_value f b i 1 j
unchanged f b i e j = elim (Bool-cases (i == j)) [
  | inl at_i ↦ ap f (sym ((==_iff i j).0 at_i)) ∙ e ∙ ground arith
  | inr other ↦ ground arith
]

abbrev free_step : Pmm → ℕ → Pmm
free_step st i =
    if bit_test st.bitmap i
    then record st { bitmap = bit_clear st.bitmap i; free_pages = add_u64 st.free_pages 1 }
    else st

free_step-Marked :
    (st : Pmm) (i : ℕ)
    → Good st
    → i < st.total_pages
    → Marked st (free_step st i) (with_value (bit_test st.bitmap) false i 1)
free_step-Marked st i g lt = elim (Bool-cases (bit_test st.bitmap i)) [
  | inr free ↦ rw free (Marked-then _ (unmarked st g) (unmarked st g) (same_bits free))
  | inl taken ↦ rw taken (record {
    place = record {
      base_pa = refl;
      limit_pa = refl;
      total_pages = refl;
      meta_base_pa = refl;
      meta_pages = refl;
    };
    hint = refl;
    good = record {
      bytes = bit_clear-Bytes st.bitmap i g.bytes;
      counted = count taken;
      window = g.window;
      aligned = g.aligned;
      fits = g.fits;
    };
    now = λ j. bits j ∙ ground arith;
  })
]
  where
    bits :
        (j : ℕ)
        → bit_test (bit_clear st.bitmap i) j ≡ (if i == j then false else bit_test st.bitmap j)
    bits j = bit_clear_lem st.bitmap i j g.bytes

    same_bits :
        bit_test st.bitmap i ≡ false
        → (j : ℕ) → bit_test st.bitmap j ≡ with_value (bit_test st.bitmap) false i 1 j
    same_bits free = unchanged (bit_test st.bitmap) false i free

    count :
        bit_test st.bitmap i ≡ true
        → add_u64 st.free_pages 1 ≡ free_below (bit_test (bit_clear st.bitmap i)) st.total_pages
    count taken =
        let back : (j : ℕ)
            → bit_test st.bitmap j ≡ (if i == j then true else bit_test (bit_clear st.bitmap i) j) =
          λ j. ground (arith, bits j) in
        let n =
          free_below-set (bit_test (bit_clear st.bitmap i)) (bit_test st.bitmap) st.total_pages i lt
            (ground (arith, bits i)) back in
        omega (
          arith,
          n,
          g.counted,
          g.window,
          g.fits,
          free_below-le (bit_test (bit_clear st.bitmap i)) st.total_pages,
        )

abbrev reserve_step : Pmm → ℕ → Pmm
reserve_step st i =
    if not (bit_test st.bitmap i)
    then record st {
      bitmap = bit_set st.bitmap i;
      free_pages = if not (st.free_pages == 0) then st.free_pages - 1 else st.free_pages;
    }
    else st

reserve_step-Marked :
    (st : Pmm) (i : ℕ)
    → Good st
    → i < st.total_pages
    → Marked st (reserve_step st i) (with_value (bit_test st.bitmap) true i 1)
reserve_step-Marked st i g lt = elim (Bool-cases (bit_test st.bitmap i)) [
  | inl taken ↦
      rw taken (
        Marked-then _ (unmarked st g) (unmarked st g) (unchanged (bit_test st.bitmap) true i taken))
  | inr free ↦ rw free (record {
    place = record {
      base_pa = refl;
      limit_pa = refl;
      total_pages = refl;
      meta_base_pa = refl;
      meta_pages = refl;
    };
    hint = refl;
    good = record {
      bytes = bit_set-Bytes st.bitmap i g.bytes;
      counted = count free;
      window = g.window;
      aligned = g.aligned;
      fits = g.fits;
    };
    now = λ j. bit_set_lem st.bitmap i j g.bytes ∙ ground arith;
  })
]
  where
    count :
        bit_test st.bitmap i ≡ false
        → (if not (st.free_pages == 0) then st.free_pages - 1 else st.free_pages)
          ≡ free_below (bit_test (bit_set st.bitmap i)) st.total_pages
    count free =
        let n =
          free_below-set (bit_test st.bitmap) (bit_test (bit_set st.bitmap i)) st.total_pages i lt
            free (λ j. bit_set_lem st.bitmap i j g.bytes) in
        ground (arith, n, g.counted)
