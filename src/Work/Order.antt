-- ===== src/Work/Order.antt =====
-- The deferred work queue of work/work_queue.c is first in, first out.
use capaz_os_kernel.Common.{
  ℕ, zero, suc, true, update, ◌≡◌, ◌≢◌, refl, ap, subst, sym, ◌∙◌, fun_ext, arith, List, [], ◌∷◌,
  ◌++◌, length,
}
use capaz_os_kernel.Common.Links.{NotIn, Distinct, NotIn-append}
use capaz_os_kernel.Fifo.{Line, end_link, end_head, rest_tail, push-Line, pop-Line}
use capaz_os_kernel.Work.{Workq, link, workq_enqueue_from_irq, workq_dequeue}

-- The queue holds the items xs, in this order.
abbrev pub InQueue : Workq → List ℕ → Type 0
InQueue q xs = Line (link q) q.head q.tail xs

-- The callback and the argument of every item are the same.
abbrev pub SameWork : Workq → Workq → Type 0
SameWork q q' = (x : ℕ) → ((q'.items x).fn ≡ (q.items x).fn) × ((q'.items x).arg ≡ (q.items x).arg)

enqueue_fields :
    (q : Workq) (t : ℕ)
    → t ≢ 0
    → (q.items t).fn ≢ 0
    → let (b, q') = workq_enqueue_from_irq q t in
      (b ≡ true)
      × (q'.head ≡ end_head q.head q.tail t)
      × (q'.tail ≡ t)
      × ((x : ℕ) → link q' x ≡ end_link (link q) q.tail t x)
      × SameWork q q'
unfolding workq_enqueue_from_irq
enqueue_fields q t ne f =
    (ground arith, ground arith, ground arith, (λ x. ground arith), λ x. ground arith)

-- An item with a callback that is in no place of the queue is accepted and stands at the end; no
-- callback or argument changes.
pub enqueue_lem :
    (q : Workq) (xs : List ℕ) (t : ℕ)
    → InQueue q xs
    → NotIn t xs
    → t ≢ 0
    → (q.items t).fn ≢ 0
    → let (b, q') = workq_enqueue_from_irq q t in
      (b ≡ true) × InQueue q' (xs ++ t ∷ []) × SameWork q q'
enqueue_lem q xs t h n ne f =
    let (b, eh, et, el, same) = enqueue_fields q t ne f in
    (b, rw (eh, et, fun_ext el) (push-Line (link q) q.head q.tail xs t h n ne), same)

dequeue_fields :
    (q : Workq)
    → q.head ≢ 0
    → let (x, q') = workq_dequeue q in
      (x ≡ q.head)
      × (q'.head ≡ link q q.head)
      × (q'.tail ≡ rest_tail (link q) q.head q.tail)
      × ((y : ℕ) → link q' y ≡ update (link q) q.head 0 y)
      × SameWork q q'
unfolding workq_dequeue
dequeue_fields q ne =
    (ground arith, ground arith, ground arith, (λ y. ground arith), λ x. ground arith)

-- A dequeue takes out the first item and leaves the rest in order; the link of the item is NULL.
pub dequeue_lem :
    (q : Workq) (x : ℕ) (xs : List ℕ)
    → InQueue q (x ∷ xs)
    → let (y, q') = workq_dequeue q in (y ≡ x) × InQueue q' xs × SameWork q q'
dequeue_lem q x xs h =
    let (eh, ne, line, out) = pop-Line (link q) q.head q.tail x xs h in
    let (a, b, c, d, same) = dequeue_fields q (λ z. ne (sym eh ∙ z)) in
    (
      a ∙ eh,
      rw (b, c, fun_ext d)
          (subst (λ p. Line (update (link q) p 0) (link q p) (rest_tail (link q) p q.tail) xs)
            (sym eh) line),
      same,
    )

-- Interrupts post the items ts; the thread takes out n items.
pub post_all : Workq → List ℕ → Workq
post_all q [] = q
post_all q (t ∷ ts) = post_all (workq_enqueue_from_irq q t).1 ts

pub take_all : ℕ → Workq → List ℕ
take_all zero q = []
take_all (suc n) q = let (x, q') = workq_dequeue q in x ∷ take_all n q'

-- Items that can be posted: not NULL, with a callback.
abbrev pub Postable : Workq → List ℕ → Type 0
Postable q [] = Unit
Postable q (t ∷ ts) = (t ≢ 0) × ((q.items t).fn ≢ 0) × Postable q ts

Postable-SameWork : (q q' : Workq) (ts : List ℕ) → SameWork q q' → Postable q ts → Postable q' ts
Postable-SameWork q q' [] s p = tt
Postable-SameWork q q' (t ∷ ts) s p =
    (p.0, (λ z. p.1 (sym (s t).0 ∙ z)), Postable-SameWork q q' ts s p.2)

abbrev pub Apart : List ℕ → List ℕ → Type 0
Apart xs [] = Unit
Apart xs (t ∷ ts) = NotIn t xs × Apart xs ts

Apart-append : (xs ts : List ℕ) (t : ℕ) → Apart xs ts → NotIn t ts → Apart (xs ++ t ∷ []) ts
Apart-append xs [] t a n = tt
Apart-append xs (u ∷ ts) t a n =
    (NotIn-append u xs t a.0 (λ e. n.0 (sym e)), Apart-append xs ts t a.1 n.1)

append_assoc : (xs ys : List ℕ) (t : ℕ) → (xs ++ t ∷ []) ++ ys ≡ xs ++ t ∷ ys
append_assoc [] ys t = refl
append_assoc (x ∷ xs) ys t = ap (λ zs. x ∷ zs) (append_assoc xs ys t)

append_nil : (xs : List ℕ) → xs ++ [] ≡ xs
append_nil [] = refl
append_nil (x ∷ xs) = ap (λ zs. x ∷ zs) (append_nil xs)

posted :
    (q : Workq) (xs ts : List ℕ)
    → InQueue q xs
    → Apart xs ts
    → Distinct ts
    → Postable q ts
    → InQueue (post_all q ts) (xs ++ ts)
unfolding post_all
posted q xs [] h a d p = rw (append_nil xs) h
posted q xs (t ∷ ts) h a d p =
    let (b, h', same) = enqueue_lem q xs t h a.0 p.0 p.1 in
    subst (InQueue (post_all (workq_enqueue_from_irq q t).1 ts)) (append_assoc xs ts t) (
      posted (workq_enqueue_from_irq q t).1 (xs ++ t ∷ []) ts h' (Apart-append xs ts t a.1 d.0) d.1
        (Postable-SameWork q (workq_enqueue_from_irq q t).1 ts same p.2))

taken : (q : Workq) (xs : List ℕ) → InQueue q xs → take_all (length xs) q ≡ xs
unfolding take_all
taken q [] h = refl
taken q (x ∷ xs) h =
    let (e, h', same) = dequeue_lem q x xs h in
    ap (λ z. z ∷ take_all (length xs) (workq_dequeue q).1) e
    ∙ ap (λ zs. x ∷ zs) (taken (workq_dequeue q).1 xs h')

-- Items posted to a queue that holds xs, all of them different, come out behind xs in the order in
-- which they were posted.
pub fifo_order :
    (q : Workq) (xs ts : List ℕ)
    → InQueue q xs
    → Apart xs ts
    → Distinct ts
    → Postable q ts
    → take_all (length (xs ++ ts)) (post_all q ts) ≡ xs ++ ts
fifo_order q xs ts h a d p = taken (post_all q ts) (xs ++ ts) (posted q xs ts h a d p)
