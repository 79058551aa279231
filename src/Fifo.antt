-- ===== src/Fifo.antt =====
-- A singly linked list with a head and a tail, as work/work_queue.c and ipc/endpoint.c keep it: the
-- head leads through the links to the tail, whose link is 0.
use capaz_os_kernel.Common.{
  ℕ, ◌≡◌, ◌≢◌, ◌⊎◌, refl, sym, subst, ◌∙◌, inl, inr, false, arith, List, [], ◌∷◌, ◌++◌, update,
  ◌==◌, if◌then◌else◌,
}
use capaz_os_kernel.Common.Links.{
  Links, NotIn, Distinct, Links-update, Links-snoc, NotIn-append, NotIn-split, Distinct-append,
}

abbrev pub Line : (ℕ → ℕ) → ℕ → ℕ → List ℕ → Type 0
Line next head tail xs =
    ((head ≡ 0) × (tail ≡ 0) × (xs ≡ []))
    ⊎ ((ys : List ℕ) × (tail ≢ 0)
        × (xs ≡ ys ++ tail ∷ [])
        × Links next head ys tail
        × (next tail ≡ 0)
        × NotIn 0 ys
        × NotIn tail ys
        × Distinct ys)

-- The links and the head after t was put at the end.
abbrev pub end_link : (ℕ → ℕ) → ℕ → ℕ → ℕ → ℕ
end_link next tail t = if tail == 0 then update next t 0 else update (update next t 0) tail t

abbrev pub end_head : ℕ → ℕ → ℕ → ℕ
end_head head tail t = if tail == 0 then t else head

pub push-Line :
    (next : ℕ → ℕ) (head tail : ℕ) (xs : List ℕ) (t : ℕ)
    → Line next head tail xs
    → NotIn t xs
    → t ≢ 0
    → Line (end_link next tail t) (end_head head tail t) t (xs ++ t ∷ [])
push-Line next head tail xs t (inl (h, e, nil)) n ne =
    rw (e, nil) (inr ([], ne, refl, refl, ground arith, tt, tt, tt))
push-Line next head tail xs t (inr (ys, tne, e, l, z, nz, nt, d)) n ne =
    let apart = NotIn-split t ys tail (rw e at n) in
    let some_tail : (tail == 0) ≡ false = ground arith in
    let other : (tail == t) ≡ false = ground (arith, apart.1) in
    rw some_tail (
      inr (
        xs,
        ne,
        refl,
        subst (λ zs. Links (update (update next t 0) tail t) head zs t) (sym e)
            (Links-snoc (update (update next t 0) tail t) head ys tail t
              (Links-update (update next t 0) head ys tail tail t nt
                (Links-update next head ys tail t 0 apart.0 l))
              (ground arith)),
        ground arith,
        rw e (NotIn-append 0 ys tail nz (λ q. tne (sym q))),
        n,
        rw e (Distinct-append ys tail d nt),
      ))

-- A write to the link of an element outside a list leaves the list.
pub Line-update :
    (next : ℕ → ℕ) (head tail : ℕ) (xs : List ℕ) (x v : ℕ)
    → NotIn x xs
    → Line next head tail xs
    → Line (update next x v) head tail xs
Line-update next head tail xs x v n (inl q) = inl q
Line-update next head tail xs x v n (inr (ys, tne, e, l, z, nz, nt, d)) =
    let apart = NotIn-split x ys tail (rw e at n) in
    inr
      (ys, tne, e, Links-update next head ys tail x v apart.0 l, ground (arith, apart.1), nz, nt, d)

-- The tail after the head was taken out.
abbrev pub rest_tail : (ℕ → ℕ) → ℕ → ℕ → ℕ
rest_tail next head tail = if next head == 0 then 0 else tail

-- A list that is not empty loses its head x, whose link is 0 then.
abbrev pub HeadTaken : (ℕ → ℕ) → ℕ → ℕ → ℕ → List ℕ → Type 0
HeadTaken next head tail x xs =
    (head ≡ x) × (x ≢ 0) × Line (update next x 0) (next x) (rest_tail next x tail) xs × NotIn x xs

head_nonzero :
    (next : ℕ → ℕ) (p : ℕ) (ys : List ℕ) (z : ℕ)
    → Links next p ys z
    → z ≢ 0
    → NotIn 0 ys
    → (p == 0) ≡ false
head_nonzero next p [] z l ne n = ground arith
head_nonzero next p (y ∷ ys) z l ne n = ground (arith, n.0)

take_cons :
    (next : ℕ → ℕ) (head tail : ℕ) (ys : List ℕ)
    → tail ≢ 0
    → Links next head ys tail
    → next tail ≡ 0
    → NotIn 0 ys
    → NotIn tail ys
    → Distinct ys
    → (x : ℕ) × (xs : List ℕ) × (ys ++ tail ∷ [] ≡ x ∷ xs) × HeadTaken next head tail x xs
take_cons next head tail [] ne l z nz nt d =
    (tail, [], refl, (l, ne, inl (z, ground arith, refl), tt))
take_cons next head tail (y ∷ ys) ne l z nz nt d =
    let more = head_nonzero next (next y) ys tail l.1 ne nz.1 in
    let other : (y == tail) ≡ false = ground (arith, nt.0) in
    (
      y,
      ys ++ tail ∷ [],
      refl,
      (
        l.0,
        (λ q. nz.0 (sym q)),
        rw more (
            inr (
              ys,
              ne,
              refl,
              Links-update next (next y) ys tail y 0 d.0 l.1,
              ground arith,
              nz.1,
              nt.1,
              d.1,
            )),
        NotIn-append y ys tail d.0 (λ q. nt.0 (sym q)),
      ),
    )

pub pop-Line :
    (next : ℕ → ℕ) (head tail x : ℕ) (xs : List ℕ)
    → Line next head tail (x ∷ xs)
    → HeadTaken next head tail x xs
pop-Line next head tail x xs (inl (h, e, nil)) = absurd (cons_not_nil nil)
  where
    cons_not_nil : x ∷ xs ≡ [] → ⊥
    cons_not_nil q = cc
pop-Line next head tail x xs (inr (ys, ne, e, l, z, nz, nt, d)) =
    let (y, zs, e', taken) = take_cons next head tail ys ne l z nz nt d in
    let same : (x ≡ y) × (xs ≡ zs) = both (e ∙ e') in rw (same.0, same.1) taken
  where
    both : {y : ℕ} {zs : List ℕ} → x ∷ xs ≡ y ∷ zs → (x ≡ y) × (xs ≡ zs)
    both q = (cc, cc)

-- An empty list has no head.
pub empty_head : (next : ℕ → ℕ) (head tail : ℕ) → Line next head tail [] → (head ≡ 0) × (tail ≡ 0)
empty_head next head tail (inl (h, e, nil)) = (h, e)
empty_head next head tail (inr (ys, ne, e, l, z, nz, nt, d)) = absurd (no ys e)
  where
    no : (ys : List ℕ) → [] ≡ ys ++ tail ∷ [] → ⊥
    no [] q = cc
    no (y ∷ ys) q = cc
