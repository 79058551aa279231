-- ===== src/Sched/RunQueue/Lists.antt =====
-- The ready queues as lists: they are circular lists in one store of links, no thread is in two of
-- them, an insertion appends to one list and a pop takes the front of one.
use capaz_os_kernel.Common.{
  ℕ, ◌≡◌, ◌≢◌, ◌⊎◌, refl, sym, subst, inl, inr, false, Bool-cases, arith, List, [], ◌∷◌, ◌++◌,
  update, ◌==◌, ==_iff,
}
use capaz_os_kernel.Common.Links.{NotIn, NotIn-append}
use capaz_os_kernel.Sched.Ring.{
  Queue, push_link, pop_link, pop_tail, push-Queue, push-frame, pop-Queue, pop-frame, Queue-update,
}

abbrev pub In : ℕ → List ℕ → Type 0
In x [] = ⊥
In x (y ∷ ys) = (x ≡ y) ⊎ In x ys

fresh : (x : ℕ) (ys : List ℕ) → (In x ys → ⊥) → NotIn x ys
fresh x [] h = tt
fresh x (y ∷ ys) h = ((λ e. h (inl e)), fresh x ys (λ m. h (inr m)))

pub not_both : (x : ℕ) (ys : List ℕ) → In x ys → NotIn x ys → ⊥
not_both x [] m n = m
not_both x (y ∷ ys) (inl e) n = n.0 e
not_both x (y ∷ ys) (inr m) n = not_both x ys m n.1

In-last : (ys : List ℕ) (z : ℕ) → In z (ys ++ z ∷ [])
In-last [] z = inl refl
In-last (y ∷ ys) z = inr (In-last ys z)

pub In-append : (x : ℕ) (ys : List ℕ) (z : ℕ) → In x (ys ++ z ∷ []) → In x ys ⊎ (x ≡ z)
In-append x [] z (inl e) = inr e
In-append x [] z (inr m) = inl m
In-append x (y ∷ ys) z (inl e) = inl (inl e)
In-append x (y ∷ ys) z (inr m) = elim (In-append x ys z m) [ inl a ↦ inl (inr a) | inr b ↦ inr b ]

-- The ready queues, as links and tails, hold the lists qs, one for each index.
pub record Holds (next tails : ℕ → ℕ) (qs : ℕ → List ℕ) : Type 0 where
  pub queue : (i : ℕ) → Queue next (tails i) (qs i)
  pub apart : (i j x : ℕ) → i ≢ j → In x (qs i) → NotIn x (qs j)

module _ {next tails : ℕ → ℕ} {qs : ℕ → List ℕ} (h : Holds next tails qs) where
  -- The tail of a queue that is not empty is in no other queue.
  tail_apart : (i j : ℕ) → i ≢ j → tails i ≢ 0 → NotIn (tails i) (qs j)
  tail_apart i j ne some_tail = elim (h.queue i) [
    | inl (e, nil) ↦ absurd (some_tail e)
    | inr (ys, tne, e, l, nt, d) ↦
        h.apart i j (tails i) ne (subst (In (tails i)) (sym e) (In-last ys (tails i)))
  ]

  push_other :
      (i j t : ℕ) → i ≢ j → NotIn t (qs j) → Queue (push_link next (tails i) t) (tails j) (qs j)
  push_other i j t ne n = elim (Bool-cases (tails i == 0)) [
    | inl e ↦ rw e (Queue-update next (tails j) (qs j) t t n (h.queue j))
    | inr some_tail ↦
        push-frame next (tails i) t (tails j) (qs j) n (tail_apart i j ne (ground arith))
          (h.queue j)
  ]

  -- Putting a thread that is in no queue behind the tail of queue i appends it to list i.
  pub push-Holds :
      (i t : ℕ)
      → ((j : ℕ) → NotIn t (qs j))
      → t ≢ 0
      → Holds (push_link next (tails i) t) (update tails i t) (update qs i (qs i ++ t ∷ []))
  push-Holds i t n ne = record {
    queue = λ j. elim (Bool-cases (i == j)) [
      | inl y ↦ rw y (push-Queue next (tails i) (qs i) t (h.queue i) (n i) ne)
      | inr o ↦ rw o (push_other i j t (ground arith) (n j))
    ];
    apart = λ j k x jk m. elim (Bool-cases (i == k)) [
      | inl y ↦
          let e : i ≡ k = (==_iff i k).0 y in
          let ij : (i == j) ≡ false = ground arith in
          let m' : In x (qs j) = rw ij at m in
          rw y (
            NotIn-append x (qs i) t (h.apart j i x (ground arith) m')
              (λ xt. not_both t (qs j) (subst (λ z. In z (qs j)) xt m') (n j)))
      | inr o ↦ rw o (pushed_apart i j k t x n jk (ground arith) m)
    ];
  }
    where
      pushed_apart :
          (i j k t x : ℕ)
          → ((j : ℕ) → NotIn t (qs j))
          → j ≢ k
          → i ≢ k
          → In x (update qs i (qs i ++ t ∷ []) j)
          → NotIn x (qs k)
      pushed_apart i j k t x n jk ik m = elim (Bool-cases (i == j)) [
        | inl y ↦ elim (In-append x (qs i) t (rw y at m)) [
          | inl old ↦ h.apart i k x ik old
          | inr e ↦ subst (λ z. NotIn z (qs k)) (sym e) (n k)
        ]
        | inr o ↦ h.apart j k x jk (rw o at m)
      ]

  pub nonempty_tail : (i x : ℕ) (xs : List ℕ) → qs i ≡ x ∷ xs → tails i ≢ 0
  nonempty_tail i x xs e z = elim (h.queue i) [
    | inl (t0, nil) ↦ cc
    | inr (ys, tne, e', l, nt, d) ↦ absurd (tne z)
  ]

  -- Taking the head out of queue i takes the front off list i.
  pub pop-Holds :
      (i x : ℕ) (xs : List ℕ)
      → qs i ≡ x ∷ xs
      → (next (tails i) ≡ x)
        × Holds
            (pop_link next (tails i))
            (update tails i (pop_tail next (tails i)))
            (update qs i xs)
        × (pop_link next (tails i) x ≡ 0)
  pop-Holds i x xs e =
      let p = pop-Queue next (tails i) x xs (subst (Queue next (tails i)) e (h.queue i)) in
      let front : In x (qs i) = subst (In x) (sym e) (inl refl) in
      (
        p.0,
        record {
          queue = λ j. elim (Bool-cases (i == j)) [
            | inl y ↦ rw y p.1
            | inr o ↦ rw o (
                pop-frame next (tails i) (tails j) (qs j)
                  (subst (λ z. NotIn z (qs j)) (sym p.0) (h.apart i j x (ground arith) front))
                  (tail_apart i j (ground arith) (nonempty_tail i x xs e)) (h.queue j))
          ];
          apart = λ j k z jk m. popped_apart i j k z x xs e jk m;
        },
        p.2,
      )
    where
      still_in : (i j z x : ℕ) (xs : List ℕ) → qs i ≡ x ∷ xs → In z (update qs i xs j) → In z (qs j)
      still_in i j z x xs e m = elim (Bool-cases (i == j)) [
        | inl y ↦
            subst (λ k. In z (qs k)) ((==_iff i j).0 y) (subst (In z) (sym e) (inr (rw y at m)))
        | inr o ↦ rw o at m
      ]

      popped_apart :
          (i j k z x : ℕ) (xs : List ℕ)
          → qs i ≡ x ∷ xs
          → j ≢ k
          → In z (update qs i xs j)
          → NotIn z (update qs i xs k)
      popped_apart i j k z x xs e jk m = elim (Bool-cases (i == k)) [
        | inl y ↦
            rw y (subst (NotIn z) e (h.apart j i z (ground arith) (still_in i j z x xs e m))).1
        | inr o ↦ rw o (h.apart j k z jk (still_in i j z x xs e m))
      ]
