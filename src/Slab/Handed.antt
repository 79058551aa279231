-- ===== src/Slab/Handed.antt =====
-- The free objects of a cache of alloc/slab_cache.c, and what handing one out and taking it back do.
use capaz_os_kernel.Common.{
  ℕ, ◌≡◌, ◌≢◌, inl, inr, refl, ap, sym, subst, ◌∙◌, arith, true, false, Bool-cases, ==_iff, ◌==◌,
  update, add_u64, List, [], ◌∷◌, some,
}
use capaz_os_kernel.Common.Links.{Links, NotIn, Distinct, Links-update}
use capaz_os_kernel.Board.{Board, align_down_4k}
use capaz_os_kernel.Slab.{Slab, take_object, find_free, slab_alloc, slab_free, put_object, member}

-- The free lists of the pages, which name no object twice, and whose objects lie in their page.
pub record Lists (s : Slab) (free : ℕ → List ℕ) : Type 0 where
  pub chain : (p : ℕ) → member p s.pages ≡ true → Links s.link (s.freelist p) (free p) 0
  pub once : (p : ℕ) → member p s.pages ≡ true → Distinct (free p)
  pub inside :
      (p o : ℕ)
      → member p s.pages ≡ true
      → member o (free p) ≡ true
      → (align_down_4k o ≡ p) × (o ≢ 0)

-- The object stands in no free list.
abbrev pub Out : Slab → (ℕ → List ℕ) → ℕ → Type 0
Out s free o = (p : ℕ) → member p s.pages ≡ true → NotIn o (free p)

NotIn-member : (x : ℕ) (ys : List ℕ) → NotIn x ys → member x ys ≡ false
NotIn-member x [] n = refl
NotIn-member x (y ∷ ys) (ne, n) =
    let rest = NotIn-member x ys n in
    let other : (x == y) ≡ false = ground (arith, ne) in rw other rest

member-NotIn : (x : ℕ) (ys : List ℕ) → member x ys ≡ false → NotIn x ys
member-NotIn x [] e = tt
member-NotIn x (y ∷ ys) e = (ground (arith, e), member-NotIn x ys (ground (arith, e)))

-- A page with a free object hands out the first of its list.
taken :
    (s : Slab) (sp : ℕ) (ys : List ℕ)
    → (s.freelist sp == 0) ≡ false
    → Links s.link (s.freelist sp) ys 0
    → (rest : List ℕ) × (ys ≡ s.freelist sp ∷ rest) × Links s.link (s.link (s.freelist sp)) rest 0
taken s sp [] some_free l = absurd (ground (arith, some_free, l))
taken s sp (y ∷ ys) some_free (e, l) =
    (ys, ap (λ x. x ∷ ys) (sym e), subst (λ x. Links s.link (s.link x) ys 0) (sym e) l)

member-more : (x o : ℕ) (ys : List ℕ) → member x ys ≡ true → member x (o ∷ ys) ≡ true
member-more x o ys e = ground (arith, e)

member-first : (o : ℕ) (ys : List ℕ) → member o (o ∷ ys) ≡ true
member-first o ys = let self : (o == o) ≡ true = ground arith in rw self refl

-- An object of a page stands in no other page's list.
apart :
    (s : Slab) (free : ℕ → List ℕ) (sp p o : ℕ)
    → Lists s free
    → align_down_4k o ≡ sp
    → (sp == p) ≡ false
    → member p s.pages ≡ true
    → NotIn o (free p)
apart s free sp p o v home other at = elim (Bool-cases (member o (free p))) [
  | inl found ↦ absurd (ground (arith, other, home, (v.inside p o at found).0))
  | inr absent ↦ member-NotIn o (free p) absent
]

chosen-page :
    (A : ℕ → List ℕ → Type 0) (free : ℕ → List ℕ) (sp p : ℕ) (v : List ℕ)
    → A sp v
    → ((sp == p) ≡ false → A p (free p))
    → A p (update free sp v p)
chosen-page A free sp p v here there = elim (Bool-cases (sp == p)) [
  | inl same ↦ rw same (subst (λ q. A q v) ((==_iff sp p).0 same) here)
  | inr other ↦ rw other (there other)
]

pub take-Lists :
    (s : Slab) (free : ℕ → List ℕ) (sp : ℕ)
    → Lists s free
    → member sp s.pages ≡ true
    → (s.freelist sp == 0) ≡ false
    → (rest : List ℕ) × (free sp ≡ s.freelist sp ∷ rest)
      × Lists (take_object s sp).1 (update free sp rest)
      × Out (take_object s sp).1 (update free sp rest) (s.freelist sp)
unfolding take_object
take-Lists s free sp v at some_free =
    let (rest, split, l) = taken s sp (free sp) some_free (v.chain sp at) in
    let o = s.freelist sp in
    let unique = subst Distinct split (v.once sp at) in
    let obj_at : member o (free sp) ≡ true = rw split (member-first o rest) in
    (
      rest,
      split,
      record {
        chain = λ p h. elim (Bool-cases (sp == p)) [
          | inl same ↦ rw same l
          | inr other ↦ rw other (v.chain p h)
        ];
        once =
            λ p h. chosen-page (λ p ys. Distinct ys) free sp p rest unique.1 (λ other. v.once p h);
        inside = λ p x h k.
            chosen-page (λ p ys. (x : ℕ) → member x ys ≡ true → (align_down_4k x ≡ p) × (x ≢ 0))
              free sp p rest (λ x k. v.inside sp x at (rw split (member-more x o rest k)))
              (λ other x k. v.inside p x h k) x k;
      },
      λ p h.
          chosen-page (λ p ys. NotIn o ys) free sp p rest unique.0
            (λ other. apart s free sp p o v (v.inside sp o at obj_at).0 other h),
    )

put-Lists :
    (s : Slab) (free : ℕ → List ℕ) (sp o : ℕ)
    → Lists s free
    → member sp s.pages ≡ true
    → align_down_4k o ≡ sp
    → o ≢ 0
    → Out s free o
    → Lists (put_object s sp o) (update free sp (o ∷ free sp))
put-Lists s free sp o v at home ne out =
    let self : (o == o) ≡ true = ground arith in
    record {
      chain = λ p h. elim (Bool-cases (sp == p)) [
        | inl same ↦ rw same (
          refl,
          rw self (
              Links-update s.link (s.freelist sp) (free sp) 0 o (s.freelist sp) (out sp at)
                (v.chain sp at)),
        )
        | inr other ↦ rw other (
            Links-update s.link (s.freelist p) (free p) 0 o (s.freelist sp) (out p h) (v.chain p h))
      ];
      once = λ p h.
          chosen-page (λ p ys. Distinct ys) free sp p (o ∷ free sp) (out sp at, v.once sp at)
            (λ other. v.once p h);
      inside = λ p x h k.
          chosen-page (λ p ys. (x : ℕ) → member x ys ≡ true → (align_down_4k x ≡ p) × (x ≢ 0)) free
            sp p (o ∷ free sp)
            (λ x k. elim (Bool-cases (x == o)) [
              | inl same ↦
                  subst (λ y. (align_down_4k y ≡ sp) × (y ≢ 0)) (sym ((==_iff x o).0 same))
                    (home, ne)
              | inr other ↦ v.inside sp x at (ground (arith, k, other))
            ])
            (λ other x k. v.inside p x h k) x k;
    }

-- An object that no free list names, of a page of the cache that counts objects in use, is taken back
-- without a panic. It is free again then, and the other lists stay as they were.
pub free-Lists :
    (s : Slab) (free : ℕ → List ℕ) (o : ℕ)
    → Lists s free
    → o ≢ 0
    → Out s free o
    → member (align_down_4k o) s.pages ≡ true
    → s.inuse (align_down_4k o) ≢ 0
    → s.inuse_objects ≢ 0
    → (s' : Slab) × (slab_free s o ≡ some s')
      × Lists s' (update free (align_down_4k o) (o ∷ free (align_down_4k o)))
unfolding slab_free
free-Lists s free o v ne out at used some_used =
    let t = record s { free_calls = add_u64 s.free_calls 1 } in
    let sp = align_down_4k o in
    let there : (o == 0) ≡ false = ground (arith, ne) in
    let page_used : (s.inuse sp == 0) ≡ false = ground (arith, used) in
    let cache_used : (s.inuse_objects == 0) ≡ false = ground (arith, some_used) in
    let w : Lists t free = record { chain = v.chain; once = v.once; inside = v.inside } in
    (
      put_object t sp o,
      rw (there, at, page_used, cache_used) refl,
      put-Lists t free sp o w at refl ne out,
    )

find_free-some :
    (freelist : ℕ → ℕ) (pages : List ℕ) (p : ℕ)
    → member p pages ≡ true
    → freelist p ≢ 0
    → (sp : ℕ) × (find_free freelist pages ≡ some sp)
      × (member sp pages ≡ true)
      × ((freelist sp == 0) ≡ false)
unfolding find_free
find_free-some freelist [] p at full = absurd (ground (arith, at))
find_free-some freelist (sp ∷ pages) p at full = elim (Bool-cases (freelist sp == 0)) [
  | inr here ↦ (sp, rw here refl, member-first sp pages, here)
  | inl empty ↦
      let other : (p == sp) ≡ false = elim (Bool-cases (p == sp)) [
        | inl same ↦
            absurd (full (ap freelist ((==_iff p sp).0 same) ∙ (==_iff (freelist sp) 0).0 empty))
        | inr differs ↦ differs
      ] in
      let (q, found, there, has) =
        find_free-some freelist pages p (ground (arith, at, other)) full in
      (q, rw empty found, member-more q sp pages there, has)
]

-- If a page of the cache has a free object, `slab_alloc` hands out one that no free list names any more:
-- the first one of a page's list, which loses it, and no other list changes.
pub alloc-Lists :
    (b : Board) (s : Slab) (free : ℕ → List ℕ) (p : ℕ)
    → Lists s free
    → member p s.pages ≡ true
    → s.freelist p ≢ 0
    → (o : ℕ) × (s' : Slab) × (slab_alloc b s ≡ some (some o, s'))
      × (sp : ℕ) × (rest : List ℕ) × (free sp ≡ o ∷ rest)
      × Lists s' (update free sp rest)
      × Out s' (update free sp rest) o
unfolding slab_alloc take_object
alloc-Lists b s free p v at full =
    let t = record s { alloc_calls = add_u64 s.alloc_calls 1 } in
    let w : Lists t free = record { chain = v.chain; once = v.once; inside = v.inside } in
    let (sp, found, there, has) = find_free-some s.freelist s.pages p at full in
    let (rest, split, lists, out) = take-Lists t free sp w there has in
    (s.freelist sp, (take_object t sp).1, rw (found, slab_alloc) refl, sp, rest, split, lists, out)
