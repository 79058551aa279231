-- ===== src/Pmm/Marks/Spans.antt =====
-- What the marking loops of mm/pmm.c do to the pages of a span.
use capaz_os_kernel.Common.{
  ℕ, zero, suc, ◌+◌, ◌-◌, ◌*◌, ◌/◌, ◌%◌, ◌≤◌, ◌<◌, ◌≡◌, refl, ◌∙◌, inl, inr, arith, Bool, true,
  false, ◌&&◌, ◌||◌, Bool-cases, ltb, leb, if◌then◌else◌,
}
use capaz_os_kernel.Board.{page_size, align_down_4k, align_up_4k}
use capaz_os_kernel.Pmm.{
  Pmm, bit_test, free_bits, reserve_bits, mark_span, bitmap_mark_range_free,
  bitmap_mark_range_reserved,
}
use capaz_os_kernel.Pmm.Alloc.{page_pa}
use capaz_os_kernel.Pmm.Marks.{
  Good, Marked, Marked-then, unmarked, with_value, free_step, free_step-Marked, reserve_step,
  reserve_step-Marked,
}

-- Setting one bit and then the n that follow.
with_value-step :
    (f : ℕ → Bool) (b : Bool) (i n j : ℕ)
    → with_value (with_value f b i 1) b (suc i) n j ≡ with_value f b i (suc n) j
with_value-step f b i n j = ground arith

abbrev LoopLaw : (ℕ → ℕ → Pmm → Pmm) → Bool → Type 0
LoopLaw loop b =
    (n i : ℕ) (st : Pmm)
    → Good st
    → i + n ≤ st.total_pages
    → Marked st (loop n i st) (with_value (bit_test st.bitmap) b i n)

free_bits_lem : LoopLaw free_bits false
unfolding free_bits
free_bits_lem zero i st g fit = Marked-then _ (unmarked st g) (unmarked st g) (λ j. ground arith)
free_bits_lem (suc n) i st g fit =
    let first = free_step-Marked st i g (omega arith) in
    let rest =
      free_bits_lem n (suc i) (free_step st i) first.good
        (omega (arith, first.place.total_pages)) in
    Marked-then _ first rest (λ j. again first j ∙ with_value-step (bit_test st.bitmap) false i n j)
  where
    again :
        Marked st (free_step st i) (with_value (bit_test st.bitmap) false i 1)
        → (j : ℕ)
        → with_value (bit_test (free_step st i).bitmap) false (suc i) n j
          ≡ with_value (with_value (bit_test st.bitmap) false i 1) false (suc i) n j
    again first j = rw (first.now j) refl

reserve_bits_lem : LoopLaw reserve_bits true
unfolding reserve_bits
reserve_bits_lem zero i st g fit = Marked-then _ (unmarked st g) (unmarked st g) (λ j. ground arith)
reserve_bits_lem (suc n) i st g fit =
    let first = reserve_step-Marked st i g (omega arith) in
    let rest =
      reserve_bits_lem n (suc i) (reserve_step st i) first.good
        (omega (arith, first.place.total_pages)) in
    Marked-then _ first rest (λ j. again first j ∙ with_value-step (bit_test st.bitmap) true i n j)
  where
    again :
        Marked st (reserve_step st i) (with_value (bit_test st.bitmap) true i 1)
        → (j : ℕ)
        → with_value (bit_test (reserve_step st i).bitmap) true (suc i) n j
          ≡ with_value (with_value (bit_test st.bitmap) true i 1) true (suc i) n j
    again first j = rw (first.now j) refl

-- The bits f with those of the pages of [s, e) set to b.
abbrev pub with_span : Pmm → Bool → ℕ → ℕ → ℕ → Bool
with_span st b s e j =
    if (leb s (page_pa st j) && ltb (page_pa st j) e) && ltb j st.total_pages
    then b
    else bit_test st.bitmap j

abbrev low : Pmm → ℕ → ℕ
low st s = if ltb s st.base_pa then st.base_pa else s

abbrev high : Pmm → ℕ → ℕ
high st e = if ltb st.limit_pa e then st.limit_pa else e

low-aligned : (st : Pmm) (s : ℕ) → Good st → s % page_size ≡ 0 → low st s % page_size ≡ 0
low-aligned st s g sa = ground (arith, g.aligned)

high-aligned : (st : Pmm) (e : ℕ) → Good st → e % page_size ≡ 0 → high st e % page_size ≡ 0
high-aligned st e g ea = ground (arith, g.window, g.aligned)

first-le :
    (base x j : ℕ)
    → base % page_size ≡ 0
    → x % page_size ≡ 0
    → base ≤ x
    → leb ((x - base) / page_size) j ≡ leb x (base + j * page_size)
first-le base x j ba xa le = ground arith

lt-last :
    (base x j : ℕ)
    → base % page_size ≡ 0
    → x % page_size ≡ 0
    → base ≤ x
    → ltb j ((x - base) / page_size) ≡ ltb (base + j * page_size) x
lt-last base x j ba xa le = ground arith

-- A loop over the pages of a span of whole pages sets the bits of those that lie in the window.
span-Marked :
    (loop : ℕ → ℕ → Pmm → Pmm) (b : Bool) (st : Pmm) (s e : ℕ)
    → LoopLaw loop b
    → Good st
    → s % page_size ≡ 0
    → e % page_size ≡ 0
    → Marked st (mark_span loop st s e) (with_span st b s e)
unfolding mark_span
span-Marked loop b st s e law g sa ea = elim (Bool-cases (leb e s || leb (high st e) (low st s))) [
  | inl empty ↦
      rw empty (Marked-then _ (unmarked st g) (unmarked st g) (λ j. ground (arith, g.window)))
  | inr some_pages ↦
      let la = low-aligned st s g sa in
      let ha = high-aligned st e g ea in
      let lt : low st s < high st e = ground arith in
      let ge : st.base_pa ≤ low st s = ground arith in
      let le : high st e ≤ st.limit_pa = ground arith in
      let n = (high st e - st.base_pa) / page_size in
      let i = (low st s - st.base_pa) / page_size in
      rw some_pages (
        Marked-then _ (unmarked st g) (law (n - i) i st g (omega (arith, g.window))) (λ j.
          pages j (first-le st.base_pa (low st s) j g.aligned la ge)
            (lt-last st.base_pa (high st e) j g.aligned ha (omega arith)) (omega arith)))
]
  where
    pages :
        (j : ℕ)
        → leb ((low st s - st.base_pa) / page_size) j ≡ leb (low st s) (page_pa st j)
        → ltb j ((high st e - st.base_pa) / page_size) ≡ ltb (page_pa st j) (high st e)
        → (low st s - st.base_pa) / page_size ≤ (high st e - st.base_pa) / page_size
        → with_value
            (bit_test st.bitmap)
            b
            ((low st s - st.base_pa) / page_size)
            ((high st e - st.base_pa) / page_size - (low st s - st.base_pa) / page_size)
            j
          ≡ with_span st b s e j
    pages j p q le =
        let there : (low st s - st.base_pa) / page_size
              + ((high st e - st.base_pa) / page_size - (low st s - st.base_pa) / page_size)
            ≡ (high st e - st.base_pa) / page_size =
          omega arith in
        rw (there, p, q) (ground (arith, g.window))

-- The two operations on ranges: `bitmap_mark_range_free` frees the whole pages of the range that are
-- in the window, `bitmap_mark_range_reserved` takes every page of the window that it touches.
pub mark_free_lem :
    (st : Pmm) (s e : ℕ)
    → Good st
    → Marked st
        (bitmap_mark_range_free st s e)
        (with_span st false (align_up_4k s) (align_down_4k e))
unfolding bitmap_mark_range_free
mark_free_lem st s e g =
    span-Marked free_bits false st _ _ free_bits_lem g (omega arith) (omega arith)

pub mark_reserved_lem :
    (st : Pmm) (s e : ℕ)
    → Good st
    → Marked st
        (bitmap_mark_range_reserved st s e)
        (with_span st true (align_down_4k s) (align_up_4k e))
unfolding bitmap_mark_range_reserved
mark_reserved_lem st s e g =
    span-Marked reserve_bits true st _ _ reserve_bits_lem g (omega arith) (omega arith)
