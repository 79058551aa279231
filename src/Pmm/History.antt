-- ===== src/Pmm/History.antt =====
-- Sequences of calls of mm/pmm.c.
use capaz_os_kernel.Common.{
  ℕ, zero, suc, ◌+◌, ◌-◌, ◌*◌, ◌/◌, ◌≤◌, ◌<◌, ◌≡◌, refl, ap, sym, subst, ◌∙◌, ◌⊎◌, inl, inr, arith,
  true, false, ◌&&◌, Bool-cases, none, some, leb, ◌==◌, ==_iff, List, [], ◌∷◌,
}
use capaz_os_kernel.Board.{page_size}
use capaz_os_kernel.Pmm.{
  Pmm, bit_test, freeable, count_call, pmm_alloc_pages, pmm_alloc_page, pmm_free_page,
}
use capaz_os_kernel.Pmm.Count.{free_below, free_below-same}
use capaz_os_kernel.Pmm.Search.{choose-some}
use capaz_os_kernel.Pmm.Alloc.{
  IsValid, SamePlace, Taken, page_pa, alloc_lem, outcome, refused, missed, found, commit-Taken,
  count_call-IsValid,
}
use capaz_os_kernel.Pmm.Free.{Own, free-Freed, freeable-page, page-index, freeable-address, without}

pub data Call : Type 0 where
  alloc free : ℕ → Call

unfoldable pub step : Pmm → Call → Pmm
step st (alloc count) = (pmm_alloc_pages st count).1
step st (free pa) = pmm_free_page st pa

unfoldable pub run : Pmm → List Call → Pmm
run st [] = st
run st (c ∷ cs) = run (step st c) cs

-- No call frees one of the `count` pages from the address on.
abbrev pub NotFreed : ℕ → ℕ → List Call → Type 0
NotFreed pa count [] = Unit
NotFreed pa count (alloc n ∷ cs) = NotFreed pa count cs
NotFreed pa count (free q ∷ cs) = ((q < pa) ⊎ (pa + count * page_size ≤ q)) × NotFreed pa count cs

-- `st'` is a valid state of the same window, in which the pages i to i + count - 1 are still taken if
-- they were in `st`.
pub record Held (st st' : Pmm) (i count : ℕ) : Type 0 where
  pub place : SamePlace st st'
  pub valid : IsValid st'
  pub taken :
      ((j : ℕ) → i ≤ j → j < i + count → bit_test st.bitmap j ≡ true)
      → (j : ℕ) → i ≤ j
      → j < i + count
      → bit_test st'.bitmap j ≡ true

pub SamePlace-trans : {a b c : Pmm} → SamePlace a b → SamePlace b c → SamePlace a c
SamePlace-trans p q = record {
  base_pa = q.base_pa ∙ p.base_pa;
  limit_pa = q.limit_pa ∙ p.limit_pa;
  total_pages = q.total_pages ∙ p.total_pages;
  meta_base_pa = q.meta_base_pa ∙ p.meta_base_pa;
  meta_pages = q.meta_pages ∙ p.meta_pages;
}

pub same_place : (st : Pmm) → SamePlace st st
same_place st = record {
  base_pa = refl;
  limit_pa = refl;
  total_pages = refl;
  meta_base_pa = refl;
  meta_pages = refl;
}

count_call-Held : (st : Pmm) (n i count : ℕ) → IsValid st → Held st (count_call st n) i count
unfolding count_call
count_call-Held st n i count v = record {
  place = record {
    base_pa = refl;
    limit_pa = refl;
    total_pages = refl;
    meta_base_pa = refl;
    meta_pages = refl;
  };
  valid = count_call-IsValid st n v;
  taken = λ h. h;
}

Held-trans : {a b c : Pmm} {i count : ℕ} → Held a b i count → Held b c i count → Held a c i count
Held-trans p q = record {
  place = SamePlace-trans p.place q.place;
  valid = q.valid;
  taken = λ h. q.taken (p.taken h);
}

Taken-Held : {st st' : Pmm} {k n : ℕ} (i count : ℕ) → Taken st st' k n → Held st st' i count
Taken-Held i count t = record {
  place = t.place;
  valid = t.valid;
  taken = λ h j ge lt. t.now j ∙ ground (arith, h j ge lt);
}

-- An allocation, whether it succeeds or not, releases no page.
pub alloc-Held : (st : Pmm) (n i count : ℕ) → IsValid st → Held st (pmm_alloc_pages st n).1 i count
alloc-Held st n i count v = elim (outcome st n) [
  | refused _ e ↦ rw e (count_call-Held st n i count v)
  | missed _ e ↦ rw e (count_call-Held st n i count v)
  | found k e e' ↦
      let w = count_call-IsValid st n v in
      let (fit, r) = choose-some (count_call st n) n k e in
      let (a, t) = commit-Taken (count_call st n) n k w fit r in
      rw e' (Held-trans (count_call-Held st n i count v) (Taken-Held i count t))
]

free-Held :
    (st : Pmm) (q i count : ℕ)
    → IsValid st
    → (q < page_pa st i) ⊎ (page_pa st i + count * page_size ≤ q)
    → Held st (pmm_free_page st q) i count
free-Held st q i count v apart =
    let f = free-Freed st q v in
    record { place = f.place; valid = f.valid; taken = λ h j ge lt. f.now j ∙ stays h j ge lt }
  where
    stays :
        ((j : ℕ) → i ≤ j → j < i + count → bit_test st.bitmap j ≡ true)
        → (j : ℕ) → i ≤ j
        → j < i + count
        → without (bit_test st.bitmap) (freeable st q) ((q - st.base_pa) / page_size) j ≡ true
    stays h j ge lt = elim (Bool-cases (freeable st q && ((q - st.base_pa) / page_size == j))) [
      | inr other ↦ rw other (h j ge lt)
      | inl at_j ↦
          let (k, e, lt', other) = freeable-address st q v (ground arith) in
          let same : (q - st.base_pa) / page_size ≡ j = (==_iff _ _).0 (ground arith) in
          absurd (missing k e same)
    ]
      where
        missing : (k : ℕ) → q ≡ page_pa st k → (q - st.base_pa) / page_size ≡ j → ⊥
        missing k e same = elim apart [ inl l ↦ omega arith | inr l ↦ omega arith ]

held :
    (st : Pmm) (cs : List Call) (i count : ℕ)
    → IsValid st
    → NotFreed (page_pa st i) count cs
    → Held st (run st cs) i count
unfolding run step
held st [] i count v nf = record { place = same_place st; valid = v; taken = λ h. h }
held st (alloc n ∷ cs) i count v nf =
    let first = alloc-Held st n i count v in
    Held-trans first
      (held (pmm_alloc_pages st n).1 cs i count first.valid (rw first.place.base_pa nf))
held st (free q ∷ cs) i count v (apart, nf) =
    let first = free-Held st q i count v apart in
    Held-trans first (held (pmm_free_page st q) cs i count first.valid (rw first.place.base_pa nf))

-- An allocation that succeeds is one of some pages.
some_pages :
    (st : Pmm) (count pa : ℕ) (st' : Pmm) → pmm_alloc_pages st count ≡ (some pa, st') → 0 < count
unfolding pmm_alloc_pages
some_pages st zero pa st' q = absurd (none_some (ap (λ r. r.0) q))
  where
    none_some : {p : ℕ} → none ≡ some p → ⊥
    none_some e = ground arith
some_pages st (suc n) pa st' q = omega arith

-- Two blocks of pages do not overlap when no page is in both.
apart_blocks :
    (i n k m : ℕ)
    → 0 < n
    → 0 < m
    → ((j : ℕ) → i ≤ j → j < i + n → k ≤ j → j < k + m → ⊥)
    → (i + n ≤ k) ⊎ (k + m ≤ i)
apart_blocks i n k m pos pos' none_in_both = elim (Bool-cases (leb (i + n) k)) [
  | inl le ↦ inl (ground arith)
  | inr gt ↦ elim (Bool-cases (leb (k + m) i)) [
    | inl le ↦ inr (ground arith)
    | inr gt' ↦ elim (Bool-cases (leb i k)) [
      | inl le ↦ absurd (none_in_both k (ground arith) (ground arith) (omega arith) (omega arith))
      | inr lt ↦ absurd (none_in_both i (omega arith) (omega arith) (ground arith) (ground arith))
    ]
  ]
]

-- No page is handed out twice. Let an allocation succeed in a valid state, and let any allocations and
-- frees follow, none of them a free of one of its pages. An allocation that succeeds after that gives
-- a block of pages that does not overlap the first one.
pub exclusive :
    (st : Pmm) (count pa : ℕ) (st1 : Pmm) (cs : List Call) (count' pa' : ℕ) (st2 : Pmm)
    → IsValid st
    → pmm_alloc_pages st count ≡ (some pa, st1)
    → NotFreed pa count cs
    → pmm_alloc_pages (run st1 cs) count' ≡ (some pa', st2)
    → (pa + count * page_size ≤ pa') ⊎ (pa' + count' * page_size ≤ pa)
exclusive st count pa st1 cs count' pa' st2 v q nf q' =
    let (i, e, t) = alloc_lem st count pa st1 v q in
    let start : pa ≡ page_pa st1 i = e ∙ rw t.place.base_pa refl in
    let h = held st1 cs i count t.valid (subst (λ p. NotFreed p count cs) start nf) in
    let (k, e', t') = alloc_lem (run st1 cs) count' pa' st2 h.valid q' in
    let same_base : (run st1 cs).base_pa ≡ st1.base_pa = h.place.base_pa in
    elim (apart_blocks i count k count' (some_pages st count pa st1 q)
      (some_pages (run st1 cs) count' pa' st2 q')
      (λ j ge lt ge' lt'.
        true_false
          (sym (h.taken (λ x gx lx. t.now x ∙ ground arith) j ge lt) ∙ t'.was_free j ge' lt'))) [
            | inl l ↦ inl (omega (arith, start, e', same_base, l))
            | inr l ↦ inr (omega (arith, start, e', same_base, l))
          ]
  where
    true_false : true ≡ false → ⊥
    true_false e = ground arith

-- A page that has just been allocated may be freed.
Taken-freeable :
    (st st' : Pmm) (i : ℕ) → IsValid st → Taken st st' i 1 → freeable st' (page_pa st' i) ≡ true
Taken-freeable st st' i v t =
    freeable-page st' i t.valid (omega (arith, t.inside, t.place.total_pages)) other
  where
    other : Own st' i → ⊥
    other (ge, lt) =
        let was : bit_test st.bitmap i ≡ false = t.was_free i (omega arith) (omega arith) in
        let own : bit_test st.bitmap i ≡ true =
          v.kept i (omega (arith, t.inside)) (omega (arith, t.place.base_pa, t.place.meta_base_pa))
            (omega (
              arith,
              t.place.base_pa,
              t.place.meta_base_pa,
              ap (λ n. n * page_size) t.place.meta_pages,
            )) in
        ground arith

-- A page that is allocated and freed at once leaves the pages and their count as they were.
pub alloc-free :
    (st : Pmm) (pa : ℕ) (st' : Pmm)
    → IsValid st
    → pmm_alloc_page st ≡ (some pa, st')
    → ((j : ℕ) → bit_test (pmm_free_page st' pa).bitmap j ≡ bit_test st.bitmap j)
      × ((pmm_free_page st' pa).free_pages ≡ st.free_pages)
unfolding pmm_alloc_page
alloc-free st pa st' v q =
    let (i, e, t) = alloc_lem st 1 pa st' v q in
    let f = free-Freed st' pa t.valid in
    let start : pa ≡ page_pa st' i = omega (arith, e, t.place.base_pa) in
    let good : freeable st' pa ≡ true = rw start (Taken-freeable st st' i v t) in
    let at_i : (pa - st'.base_pa) / page_size ≡ i = rw start (page-index st' i) in
    let same : (j : ℕ) → bit_test (pmm_free_page st' pa).bitmap j ≡ bit_test st.bitmap j =
      λ j. f.now j ∙ rw (good, at_i) (back i t j) in
    let total : (pmm_free_page st' pa).total_pages ≡ st.total_pages =
      f.place.total_pages ∙ t.place.total_pages in
    (
      same,
      f.valid.counted
          ∙ free_below-same _ _ _ (λ j lt. same j)
          ∙ ap (λ n. free_below (bit_test st.bitmap) n) total
          ∙ sym v.counted,
    )
  where
    back :
        (i : ℕ)
        → Taken st st' i 1
        → (j : ℕ) → without (bit_test st'.bitmap) true i j ≡ bit_test st.bitmap j
    back i t j = elim (Bool-cases (i == j)) [
      | inl at_j ↦ let was = t.was_free j (ground arith) (ground arith) in rw (at_j, was) refl
      | inr other ↦ rw other (t.now j ∙ ground arith)
    ]
