-- ===== src/Pmm/Free.antt =====
-- What `pmm_free_page` of mm/pmm.c does to the pages, and sequences of calls.
use capaz_os_kernel.Common.{
  ℕ, ◌+◌, ◌-◌, ◌*◌, ◌/◌, ◌≤◌, ◌<◌, ◌≡◌, refl, ap, ◌∙◌, inl, inr, arith, ◌⊎◌, subst, sym, Bool, true,
  false, ◌&&◌, Bool-cases, ltb, ◌==◌, ==_iff, if◌then◌else◌, add_u64,
}
use capaz_os_kernel.Board.{page_size}
use capaz_os_kernel.Pmm.{
  Pmm, bit_test, bit_clear, pmm_update_pressure, freeable, release, pmm_free_page,
}
use capaz_os_kernel.Pmm.Bitmap.{bit_clear_lem, bit_clear-Bytes}
use capaz_os_kernel.Pmm.Count.{free_below-set, free_below-le}
use capaz_os_kernel.Pmm.Alloc.{IsValid, SamePlace, page_pa}

-- A page that the allocator keeps for itself.
abbrev pub Own : Pmm → ℕ → Type 0
Own st i =
    (st.meta_base_pa ≤ page_pa st i) × (page_pa st i < st.meta_base_pa + st.meta_pages * page_size)

-- The address of a page may be freed just if the page is in the window and not the allocator's own.
pub freeable-page :
    (st : Pmm) (i : ℕ)
    → IsValid st
    → i < st.total_pages
    → (Own st i → ⊥)
    → freeable st (page_pa st i) ≡ true
unfolding freeable
freeable-page st i v lt other = ground (arith, v.window, v.fits, v.meta_fits, v.aligned)

pub page-index : (st : Pmm) (i : ℕ) → (page_pa st i - st.base_pa) / page_size ≡ i
page-index st i = omega arith

-- An address that may be freed is a page's.
pub freeable-address :
    (st : Pmm) (pa : ℕ)
    → IsValid st
    → freeable st pa ≡ true
    → (i : ℕ) × (pa ≡ page_pa st i) × (i < st.total_pages) × (Own st i → ⊥)
unfolding freeable
freeable-address st pa v h =
    let at_page : pa ≡ page_pa st ((pa - st.base_pa) / page_size) = ground (arith, v.aligned) in
    ((pa - st.base_pa) / page_size, at_page, ground arith, λ own. ground (arith, v.meta_fits))

-- A page whose address is refused is the allocator's own.
refused-Own :
    (st : Pmm) (i : ℕ)
    → IsValid st
    → i < st.total_pages
    → freeable st (page_pa st i) ≡ false
    → Own st i
unfolding freeable
refused-Own st i v lt bad = ground (arith, v.window, v.fits, v.meta_fits, v.aligned)

-- The bits when bit i is cleared if the test holds.
abbrev pub without : (ℕ → Bool) → Bool → ℕ → ℕ → Bool
without f b i j = if b && (i == j) then false else f j

-- `st'` is `st` with page i free, if the test holds.
pub record Freed (st st' : Pmm) (b : Bool) (i : ℕ) : Type 0 where
  pub now : (j : ℕ) → bit_test st'.bitmap j ≡ without (bit_test st.bitmap) b i j
  pub place : SamePlace st st'
  pub valid : IsValid st'

release-bitmap : (st : Pmm) (i : ℕ) → (release st i).bitmap ≡ bit_clear st.bitmap i
unfolding release pmm_update_pressure
release-bitmap st i = elim (Bool-cases (ltb i st.next_hint)) [
  | inl lower ↦ rw lower refl
  | inr higher ↦ rw higher refl
]

release-Freed :
    (st : Pmm) (i : ℕ)
    → IsValid st
    → i < st.total_pages
    → (Own st i → ⊥)
    → bit_test st.bitmap i ≡ true
    → Freed st (release st i) true i
unfolding release pmm_update_pressure
release-Freed st i v lt other e =
    let bits : (j : ℕ)
        → bit_test (bit_clear st.bitmap i) j ≡ (if i == j then false else bit_test st.bitmap j) =
      λ j. bit_clear_lem st.bitmap i j v.bytes in
    let back : (j : ℕ)
        → bit_test st.bitmap j ≡ (if i == j then true else bit_test (bit_clear st.bitmap i) j) =
      λ j. ground (arith, bits j) in
    let count =
      free_below-set (bit_test (bit_clear st.bitmap i)) (bit_test st.bitmap) st.total_pages i lt
        (ground (arith, bits i)) back in
    let small = free_below-le (bit_test (bit_clear st.bitmap i)) st.total_pages in
    record {
      now = λ j. ap (λ bm. bit_test bm j) (release-bitmap st i) ∙ bits j;
      place = record {
        base_pa = ground arith;
        limit_pa = ground arith;
        total_pages = ground arith;
        meta_base_pa = ground arith;
        meta_pages = ground arith;
      };
      valid = record {
        bytes = rw (release-bitmap st i) (bit_clear-Bytes st.bitmap i v.bytes);
        counted =
            rw (release-bitmap st i) (ground (arith, v.counted, count, small, v.window, v.fits));
        window = ground (arith, v.window);
        aligned = ground (arith, v.aligned);
        fits = ground (arith, v.fits);
        meta_fits = ground (arith, v.meta_fits);
        hint = ground (arith, v.hint);
        kept = λ j lt' ge lt''. rw (release-bitmap st i) (ground (arith, bits j, v.kept j));
      };
    }

abbrev count_free : Pmm → Pmm
count_free st = record st { free_calls = add_u64 st.free_calls 1 }

abbrev index : Pmm → ℕ → ℕ
index st pa = (pa - st.base_pa) / page_size

count_free-IsValid : (st : Pmm) → IsValid st → IsValid (count_free st)
count_free-IsValid st v = record {
  bytes = v.bytes;
  counted = v.counted;
  window = v.window;
  aligned = v.aligned;
  fits = v.fits;
  meta_fits = v.meta_fits;
  hint = v.hint;
  kept = v.kept;
}

-- A page that is free already stays as it is.
count_free-Freed :
    (st : Pmm) (b : Bool) (i : ℕ)
    → IsValid st
    → (b && bit_test st.bitmap i) ≡ false
    → Freed st (count_free st) b i
count_free-Freed st b i v e = record {
  now = λ j. untouched j;
  place = record {
    base_pa = refl;
    limit_pa = refl;
    total_pages = refl;
    meta_base_pa = refl;
    meta_pages = refl;
  };
  valid = count_free-IsValid st v;
}
  where
    untouched : (j : ℕ) → bit_test st.bitmap j ≡ without (bit_test st.bitmap) b i j
    untouched j = elim (Bool-cases (i == j)) [
      | inr other ↦ ground arith
      | inl at_i ↦ ground (arith, ap (λ k. bit_test st.bitmap k) ((==_iff i j).0 at_i))
    ]

released :
    (st : Pmm) (pa : ℕ)
    → freeable st pa ≡ true
    → bit_test st.bitmap (index st pa) ≡ true
    → pmm_free_page st pa ≡ release (count_free st) (index st pa)
unfolding pmm_free_page freeable
released st pa good taken = rw (good, taken) refl

ignored :
    (st : Pmm) (pa : ℕ)
    → (freeable st pa && bit_test st.bitmap (index st pa)) ≡ false
    → pmm_free_page st pa ≡ count_free st
unfolding pmm_free_page freeable
ignored st pa e = elim (Bool-cases (freeable st pa)) [
  | inr bad ↦ rw bad refl
  | inl good ↦
      let free : bit_test st.bitmap (index st pa) ≡ false = ground arith in rw (good, free) refl
]

-- The effect of a call by what the code's own test of the address says.
pub free-Freed :
    (st : Pmm) (pa : ℕ)
    → IsValid st
    → Freed st (pmm_free_page st pa) (freeable st pa) ((pa - st.base_pa) / page_size)
free-Freed st pa v = elim (Bool-cases (freeable st pa && bit_test st.bitmap (index st pa))) [
  | inr e ↦ rw (ignored st pa e) (count_free-Freed st (freeable st pa) (index st pa) v e)
  | inl e ↦
      let good : freeable st pa ≡ true = ground arith in
      let taken : bit_test st.bitmap (index st pa) ≡ true = ground arith in
      rw (released st pa good taken, good) (freed good taken)
]
  where
    freed :
        freeable st pa ≡ true
        → bit_test st.bitmap (index st pa) ≡ true
        → Freed st (release (count_free st) (index st pa)) true (index st pa)
    freed good taken =
        let (i, e, lt, other) = freeable-address st pa v good in
        let at_i : index st pa ≡ i = ap (index st) e ∙ page-index st i in
        let f =
          release-Freed (count_free st) (index st pa) (count_free-IsValid st v) (rw at_i lt)
            (rw at_i other) taken in
        record {
          now = f.now;
          place = record {
            base_pa = f.place.base_pa;
            limit_pa = f.place.limit_pa;
            total_pages = f.place.total_pages;
            meta_base_pa = f.place.meta_base_pa;
            meta_pages = f.place.meta_pages;
          };
          valid = f.valid;
        }

-- The address is that of page i of the window, which is not one of the allocator's own, and the call
-- frees that page.
abbrev pub FreesPage : Pmm → ℕ → Type 0
FreesPage st pa =
    (i : ℕ) × (pa ≡ page_pa st i)
    × (i < st.total_pages)
    × (Own st i → ⊥)
    × Freed st (pmm_free_page st pa) true i

-- The address is that of no page of the window but the allocator's own, and the call changes no page.
abbrev pub FreesNone : Pmm → ℕ → Type 0
FreesNone st pa =
    ((i : ℕ) → pa ≡ page_pa st i → i < st.total_pages → Own st i)
    × Freed st (pmm_free_page st pa) false 0

-- A call of `pmm_free_page` on a valid state keeps it valid. If the address is exactly that of a page
-- of the window that is not the allocator's own, that page is free afterwards and no other page
-- changes; for every other address no page changes at all.
pub free_lem : (st : Pmm) (pa : ℕ) → IsValid st → FreesPage st pa ⊎ FreesNone st pa
free_lem st pa v = elim (Bool-cases (freeable st pa)) [
  | inl good ↦
      let (i, e, lt, other) = freeable-address st pa v good in
      inl (i, e, lt, other, at_page good i (ap (index st) e ∙ page-index st i))
  | inr bad ↦ inr (λ i e lt. refused-Own st i v lt (rw (sym e) bad), none_changed bad)
]
  where
    at_page :
        freeable st pa ≡ true → (i : ℕ) → index st pa ≡ i → Freed st (pmm_free_page st pa) true i
    at_page good i e =
        subst (λ k. Freed st (pmm_free_page st pa) true k) e
          (subst (λ b. Freed st (pmm_free_page st pa) b (index st pa)) good (free-Freed st pa v))

    none_changed : freeable st pa ≡ false → Freed st (pmm_free_page st pa) false 0
    none_changed bad =
        let f =
          subst (λ b. Freed st (pmm_free_page st pa) b (index st pa)) bad (free-Freed st pa v) in
        record { now = f.now; place = f.place; valid = f.valid }
