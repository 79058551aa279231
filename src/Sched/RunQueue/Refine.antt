-- ===== src/Sched/RunQueue/Refine.antt =====
-- The code of the ready queues against four FIFO lists.
use capaz_os_kernel.Common.{
  ℕ, ◌≡◌, ◌≢◌, sym, subst, ap, fun_ext, ◌∙◌, inl, inr, arith, List, [], ◌∷◌, ◌++◌, update, some,
}
use capaz_os_kernel.Sched.Intent.{Intent, intent_index}
use capaz_os_kernel.Common.Links.{NotIn}
use capaz_os_kernel.Sched.Ring.{push_link, pop_link, pop_tail}
use capaz_os_kernel.Sched.Thread.{Sched, next_of}
use capaz_os_kernel.Sched.RunQueue.{
  link_tail, rq_insert_tail_locked, rq_pop_head_intent_locked, intent_of,
}
use capaz_os_kernel.Sched.RunQueue.Lists.{Holds, push-Holds, pop-Holds, nonempty_tail}

-- The ready queues of s hold the lists qs.
abbrev pub Queues : Sched → (ℕ → List ℕ) → Type 0
Queues s qs = Holds (next_of s) s.ready_tail qs

links-link_tail :
    (s : Sched) (t : ℕ) (i : Intent)
    → next_of (link_tail s t i) ≡ push_link (next_of s) (s.ready_tail (intent_index i)) t
unfolding link_tail
links-link_tail s t i = fun_ext λ x. ground arith

tails-link_tail :
    (s : Sched) (t : ℕ) (i : Intent)
    → (link_tail s t i).ready_tail ≡ update s.ready_tail (intent_index i) t
unfolding link_tail
tails-link_tail s t i = ground arith

link_tail-Queues :
    (s : Sched) (qs : ℕ → List ℕ) (t : ℕ) (i : Intent)
    → Queues s qs
    → ((j : ℕ) → NotIn t (qs j))
    → t ≢ 0
    → Queues (link_tail s t i) (update qs (intent_index i) (qs (intent_index i) ++ t ∷ []))
link_tail-Queues s qs t i h n ne =
    rw (links-link_tail s t i, tails-link_tail s t i) (push-Holds h (intent_index i) t n ne)

-- A thread in no queue that `rq_insert_tail_locked` accepts is appended to the list of its intent,
-- and the other lists stay.
pub insert_tail_lem :
    (s s' : Sched) (qs : ℕ → List ℕ) (t : ℕ)
    → Queues s qs
    → ((j : ℕ) → NotIn t (qs j))
    → t ≢ 0
    → rq_insert_tail_locked s t ≡ some s'
    → let i = intent_index (intent_of s t) in Queues s' (update qs i (qs i ++ t ∷ []))
unfolding rq_insert_tail_locked
insert_tail_lem s s' qs t h n ne e =
    let same : link_tail s t (intent_of s t) ≡ s' = ground arith in
    let i = intent_index (intent_of s t) in
    subst (λ r. Queues r (update qs i (qs i ++ t ∷ []))) same
      (link_tail-Queues s qs t (intent_of s t) h n ne)

links-pop :
    (s : Sched) (i : Intent)
    → s.ready_tail (intent_index i) ≢ 0
    → next_of (rq_pop_head_intent_locked s i).1
      ≡ pop_link (next_of s) (s.ready_tail (intent_index i))
unfolding rq_pop_head_intent_locked
links-pop s i ne = fun_ext λ x. ground arith

tails-pop :
    (s : Sched) (i : Intent)
    → s.ready_tail (intent_index i) ≢ 0
    → (rq_pop_head_intent_locked s i).1.ready_tail
      ≡ update s.ready_tail (intent_index i) (pop_tail (next_of s) (s.ready_tail (intent_index i)))
unfolding rq_pop_head_intent_locked
tails-pop s i ne = fun_ext λ x. ground arith

head-pop :
    (s : Sched) (i : Intent)
    → s.ready_tail (intent_index i) ≢ 0
    → (rq_pop_head_intent_locked s i).0 ≡ next_of s (s.ready_tail (intent_index i))
unfolding rq_pop_head_intent_locked
head-pop s i ne = ground arith

-- A pop from a queue that is not empty returns the front of its list and leaves the rest, with the
-- other lists as they were; the link of the thread taken out is NULL again.
pub pop_head_lem :
    (s : Sched) (qs : ℕ → List ℕ) (i : Intent) (x : ℕ) (xs : List ℕ)
    → Queues s qs
    → qs (intent_index i) ≡ x ∷ xs
    → let (t, s') = rq_pop_head_intent_locked s i in
      (t ≡ x) × Queues s' (update qs (intent_index i) xs) × (next_of s' x ≡ 0)
pop_head_lem s qs i x xs h e =
    let p = pop-Holds h (intent_index i) x xs e in
    let ne = nonempty_tail h (intent_index i) x xs e in
    (
      head-pop s i ne ∙ p.0,
      rw (links-pop s i ne, tails-pop s i ne) p.1,
      ap (λ f. f x) (links-pop s i ne) ∙ p.2,
    )

-- A pop from an empty queue returns NULL and changes nothing.
pub pop_head_empty :
    (s : Sched) (qs : ℕ → List ℕ) (i : Intent)
    → Queues s qs
    → qs (intent_index i) ≡ []
    → rq_pop_head_intent_locked s i ≡ (0, s)
unfolding rq_pop_head_intent_locked
pop_head_empty s qs i h e = elim (h.queue (intent_index i)) [
  | inl (z, nil) ↦ ground arith
  | inr (ys, tne, e', l, nt, d) ↦
      absurd (snoc_not_nil ys (s.ready_tail (intent_index i)) (sym e' ∙ e))
]
  where
    snoc_not_nil : (ys : List ℕ) (z : ℕ) → ys ++ z ∷ [] ≡ [] → ⊥
    snoc_not_nil [] z p = cc
    snoc_not_nil (y ∷ ys) z p = cc
