-- ===== src/Sched/Ring.antt =====
-- A circular list in a store of links, known by its last element: `tail` is 0 if it is empty, and
-- otherwise the link of `tail` leads to the first element.
use capaz_os_kernel.Common.{
  ℕ, ◌≡◌, ◌≢◌, ◌⊎◌, refl, sym, ap, subst, cases-if, ◌∙◌, inl, inr, true, false, arith, List, [],
  ◌∷◌, ◌++◌, update, ◌==◌, if◌then◌else◌,
}
use capaz_os_kernel.Common.Links.{
  Links, NotIn, Distinct, Links-update, Links-snoc, NotIn-split, Distinct-append,
}

abbrev pub Queue : (ℕ → ℕ) → ℕ → List ℕ → Type 0
Queue next tail xs =
    ((tail ≡ 0) × (xs ≡ []))
    ⊎ ((ys : List ℕ) × (tail ≢ 0)
        × (xs ≡ ys ++ tail ∷ [])
        × Links next (next tail) ys tail
        × NotIn tail ys
        × Distinct ys)

-- The links after the code has put t behind `tail`.
abbrev pub push_link : (ℕ → ℕ) → ℕ → ℕ → ℕ → ℕ
push_link next tail t =
    if tail == 0 then update next t t else update (update next t (next tail)) tail t

-- The tail and the links after the code has taken out the first element.
abbrev pub pop_tail : (ℕ → ℕ) → ℕ → ℕ
pop_tail next tail = if next tail == tail then 0 else tail

abbrev pub pop_link : (ℕ → ℕ) → ℕ → ℕ → ℕ
pop_link next tail =
    if next tail == tail
    then update next (next tail) 0
    else update (update next tail (next (next tail))) (next tail) 0

abbrev both : (ℕ → ℕ) → ℕ → ℕ → ℕ → ℕ
both next tail t = update (update next t (next tail)) tail t

both_at : (next : ℕ → ℕ) (tail t : ℕ) → (tail == t) ≡ false → both next tail t t ≡ next tail
both_at next tail t other = ground arith

-- Putting t behind the tail appends it.
pub push-Queue :
    (next : ℕ → ℕ) (tail : ℕ) (xs : List ℕ) (t : ℕ)
    → Queue next tail xs
    → NotIn t xs
    → t ≢ 0
    → Queue (push_link next tail t) t (xs ++ t ∷ [])
push-Queue next tail xs t (inl (e, nil)) n ne =
    rw (e, nil) (inr ([], ne, refl, ground arith, tt, tt))
push-Queue next tail xs t (inr (ys, tne, e, l, nt, d)) n ne =
    let apart = NotIn-split t ys tail (rw e at n) in
    let some_tail : (tail == 0) ≡ false = ground arith in
    let other : (tail == t) ≡ false = ground (arith, apart.1) in
    rw some_tail (
      inr (
        xs,
        ne,
        refl,
        subst (λ zs. Links (both next tail t) (both next tail t t) zs t) (sym e)
            (subst (λ p. Links (both next tail t) p (ys ++ tail ∷ []) t)
              (sym (both_at next tail t other))
              (Links-snoc (both next tail t) (next tail) ys tail t
                (Links-update (update next t (next tail)) (next tail) ys tail tail t nt
                  (Links-update next (next tail) ys tail t (next tail) apart.0 l))
                (ground arith))),
        n,
        rw e (Distinct-append ys tail d nt),
      ))

-- A write to the link of an element outside a queue leaves the queue.
pub Queue-update :
    (next : ℕ → ℕ) (tail : ℕ) (zs : List ℕ) (x v : ℕ)
    → NotIn x zs
    → Queue next tail zs
    → Queue (update next x v) tail zs
Queue-update next tail zs x v n (inl q) = inl q
Queue-update next tail zs x v n (inr (ys, tne, e, l, nt, d)) =
    let apart = NotIn-split x ys tail (rw e at n) in
    let other : (x == tail) ≡ false = ground (arith, apart.1) in
    inr (ys, tne, e, rw other (Links-update next (next tail) ys tail x v apart.0 l), nt, d)

-- Putting t behind a tail leaves the queues that hold neither.
pub push-frame :
    (next : ℕ → ℕ) (tail t other : ℕ) (zs : List ℕ)
    → NotIn t zs
    → NotIn tail zs
    → Queue next other zs
    → Queue (push_link next tail t) other zs
push-frame next tail t other zs nt ntail q =
    cases-if (λ f. Queue f other zs) (tail == 0) (Queue-update next other zs t t nt q)
      (Queue-update (update next t (next tail)) other zs tail t ntail
        (Queue-update next other zs t (next tail) nt q))

-- Taking out the head of a queue that is not empty leaves the rest, and clears the head's link.
abbrev pub Popped : (ℕ → ℕ) → ℕ → ℕ → List ℕ → Type 0
Popped next tail x xs =
    (next tail ≡ x)
    × Queue (pop_link next tail) (pop_tail next tail) xs
    × (pop_link next tail x ≡ 0)

abbrev skipped : (ℕ → ℕ) → ℕ → ℕ → ℕ
skipped next tail = update (update next tail (next (next tail))) (next tail) 0

skipped_at :
    (next : ℕ → ℕ) (tail : ℕ)
    → (next tail == tail) ≡ false
    → skipped next tail tail ≡ next (next tail)
skipped_at next tail more = ground arith

pop_ring :
    (next : ℕ → ℕ) (tail x : ℕ) (xs ys : List ℕ)
    → tail ≢ 0
    → x ∷ xs ≡ ys ++ tail ∷ []
    → Links next (next tail) ys tail
    → NotIn tail ys
    → Distinct ys
    → Popped next tail x xs
pop_ring next tail x xs [] tne e l nt d =
    let alone : (next tail == tail) ≡ true = ground arith in
    let first : x ≡ tail = cc in rw alone (ground arith, inl (refl, cc), ground arith)
pop_ring next tail x xs (y ∷ ys) tne e l nt d =
    let more : (next tail == tail) ≡ false = ground (arith, nt.0) in
    let first : x ≡ y = cc in
    let rest =
      Links-update (update next tail (next (next tail))) (next y) ys tail (next tail) 0
        (subst (λ h. NotIn h ys) (sym l.0) d.0)
        (Links-update next (next y) ys tail tail (next (next tail)) nt.1 l.1) in
    rw more (
      ground arith,
      inr (
        ys,
        tne,
        cc,
        subst (λ p. Links (skipped next tail) p ys tail)
            (sym (skipped_at next tail more ∙ ap next l.0)) rest,
        nt.1,
        d.1,
      ),
      ground arith,
    )

pub pop-Queue :
    (next : ℕ → ℕ) (tail x : ℕ) (xs : List ℕ) → Queue next tail (x ∷ xs) → Popped next tail x xs
pop-Queue next tail x xs (inl (e, nil)) = cc
pop-Queue next tail x xs (inr (ys, tne, e, l, nt, d)) = pop_ring next tail x xs ys tne e l nt d

-- It leaves the queues that hold neither the head nor the tail.
pub pop-frame :
    (next : ℕ → ℕ) (tail other : ℕ) (zs : List ℕ)
    → NotIn (next tail) zs
    → NotIn tail zs
    → Queue next other zs
    → Queue (pop_link next tail) other zs
pop-frame next tail other zs nh nt q =
    cases-if (λ f. Queue f other zs) (next tail == tail)
      (Queue-update next other zs (next tail) 0 nh q)
      (Queue-update (update next tail (next (next tail))) other zs (next tail) 0 nh
        (Queue-update next other zs tail (next (next tail)) nt q))
