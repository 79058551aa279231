-- ===== src/Sched/Invariant.antt =====
-- The state that the entry points of sched/sched.c keep: the ready queues are lists of ready threads,
-- and one running thread is current.
use capaz_os_kernel.Common.{
  ℕ, ◌==◌, ==_iff, update, ◌≡◌, ◌≢◌, ◌<◌, ◌⊎◌, inl, inr, refl, subst, sym, ◌∙◌, fun_ext, arith,
  List, [], ◌∷◌, ◌++◌, some, Bool-cases,
}
use capaz_os_kernel.Common.Links.{NotIn, Distinct, Distinct-append}
use capaz_os_kernel.Sched.Intent.{Intent, intent_index}
use capaz_os_kernel.Sched.Ring.{Queue}
use capaz_os_kernel.Sched.Thread.{ready, Sched, set_state}
use capaz_os_kernel.Sched.RunQueue.{rq_insert_tail_locked, rq_pop_head_intent_locked, intent_of}
use capaz_os_kernel.Sched.RunQueue.Lists.{Holds, In, not_both, In-append}
use capaz_os_kernel.Sched.RunQueue.Refine.{Queues, insert_tail_lem, pop_head_lem}
use capaz_os_kernel.Sched.Pick.{pattern_len}
use capaz_os_kernel.Sched.States.{state_of, pop-state, insert-state, pop-cursor, state-links}

-- The ready queues of s are the lists qs, of ready threads.
pub record Ordered (s : Sched) (qs : ℕ → List ℕ) : Type 0 where
  pub queues : Queues s qs
  pub cursor : s.pick_cursor < pattern_len
  pub ready_in : (i x : ℕ) → In x (qs i) → (state_of s x ≡ ready) × (x ≢ 0)

-- A thread that is not ready is in no queue.
pub not_queued :
    {s : Sched} {qs : ℕ → List ℕ}
    → Ordered s qs
    → (t : ℕ) → state_of s t ≢ ready
    → (i : ℕ) → In t (qs i)
    → ⊥
not_queued o t ne i m = ne (o.ready_in i t m).0

out : (t : ℕ) (xs : List ℕ) → (In t xs → ⊥) → NotIn t xs
out t [] h = tt
out t (x ∷ xs) h = ((λ e. h (inl e)), out t xs (λ m. h (inr m)))

pub In-push :
    (qs : ℕ → List ℕ) (i t j x : ℕ) → In x (update qs i (qs i ++ t ∷ []) j) → In x (qs j) ⊎ (x ≡ t)
In-push qs i t j x m = elim (Bool-cases (i == j)) [
  | inl same ↦
      let e = (==_iff i j).0 same in
      subst (λ z. In x (qs z) ⊎ (x ≡ t)) e (In-append x (qs i) t (rw same at m))
  | inr other ↦ inl (rw other at m)
]

In-pop :
    (qs : ℕ → List ℕ) (i x : ℕ) (xs : List ℕ) (j y : ℕ)
    → qs i ≡ x ∷ xs
    → In y (update qs i xs j)
    → In y (qs j)
In-pop qs i x xs j y e m = elim (Bool-cases (i == j)) [
  | inl same ↦
      subst (λ z. In y (qs z)) ((==_iff i j).0 same) (subst (In y) (sym e) (inr (rw same at m)))
  | inr other ↦ rw other at m
]

made_ready :
    (s s' : Sched) (t x : ℕ)
    → state_of s' x ≡ state_of (set_state s t ready) x
    → (state_of s x ≡ ready) ⊎ (x ≡ t)
    → state_of s' x ≡ ready
made_ready s s' t x e (inl r) = e ∙ ground (arith, r)
made_ready s s' t x e (inr same) = e ∙ ground (arith, same)

-- A thread that is in no queue and has become ready joins the queue of its intent.
pub insert-Ordered :
    (s s' : Sched) (qs : ℕ → List ℕ) (t : ℕ)
    → Ordered s qs
    → t ≢ 0
    → ((i : ℕ) → In t (qs i) → ⊥)
    → rq_insert_tail_locked (set_state s t ready) t ≡ some s'
    → let i = intent_index (intent_of (set_state s t ready) t) in
      Ordered s' (update qs i (qs i ++ t ∷ [])) × (s'.current ≡ s.current)
insert-Ordered s s' qs t o ne free q =
    let s1 = set_state s t ready in
    let i = intent_index (intent_of s1 t) in
    let h : Queues s1 qs =
      subst (λ f. Holds f s.ready_tail qs) (sym (fun_ext (state-links s t ready))) o.queues in
    (
      record {
        queues = insert_tail_lem s1 s' qs t h (λ j. out t (qs j) (free j)) ne q;
        cursor = ground (arith, (insert-state s1 s' t t q).2, o.cursor);
        ready_in = λ j x m. elim (In-push qs i t j x m) [
          | inl old ↦ (
            made_ready s s' t x (insert-state s1 s' t x q).0 (inl (o.ready_in j x old).0),
            (o.ready_in j x old).1,
          )
          | inr new ↦
              (made_ready s s' t x (insert-state s1 s' t x q).0 (inr new), λ z. ne (sym new ∙ z))
        ];
      },
      (insert-state s1 s' t t q).1,
    )

-- The front of a list that a queue holds is named nowhere else.
front_once :
    {next : ℕ → ℕ} {tail : ℕ} {xs : List ℕ}
    → Queue next tail xs
    → (y : ℕ) (ys : List ℕ) → xs ≡ y ∷ ys
    → NotIn y ys
front_once (inl (z, nil)) y ys e = absurd (clash (sym nil ∙ e))
  where
    clash : [] ≡ y ∷ ys → ⊥
    clash q = cc
front_once {xs = xs} (inr (zs, ne, e', l, nt, d)) y ys e =
    (subst Distinct (sym e' ∙ e) (Distinct-append zs _ d nt)).0

-- A pop from queue i, whose list is x ∷ xs: x is returned, it was ready, and it is in no queue then.
pub record Popped (qs : ℕ → List ℕ) (i x : ℕ) (xs : List ℕ) (r : ℕ × Sched) : Type 0 where
  pub front : qs i ≡ x ∷ xs
  pub returned : r.0 ≡ x
  pub nonzero : x ≢ 0
  pub left : Ordered r.1 (update qs i xs)
  pub gone : (j : ℕ) → In x (update qs i xs j) → ⊥

pub pop-Ordered :
    (s : Sched) (qs : ℕ → List ℕ) (i : Intent) (x : ℕ) (xs : List ℕ)
    → Ordered s qs
    → qs (intent_index i) ≡ x ∷ xs
    → Popped qs (intent_index i) x xs (rq_pop_head_intent_locked s i)
pop-Ordered s qs i x xs o e =
    let k = intent_index i in
    let (back, h, link) = pop_head_lem s qs i x xs o.queues e in
    record {
      front = e;
      returned = back;
      nonzero = (o.ready_in k x (subst (In x) (sym e) (inl refl))).1;
      left = record {
        queues = h;
        cursor = rw (pop-cursor s i) o.cursor;
        ready_in = λ j y m.
            let old = o.ready_in j y (In-pop qs k x xs j y e m) in
            ((pop-state s i y).0 ∙ old.0, old.1);
      };
      gone = λ j m. elim (Bool-cases (k == j)) [
        | inl same ↦ not_both x xs (rw same at m) (front_once (o.queues.queue k) x xs e)
        | inr other ↦
            not_both x (qs j) (rw other at m)
              (o.queues.apart k j x (ground arith) (subst (In x) (sym e) (inl refl)))
      ];
    }
