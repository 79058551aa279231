-- ===== src/Sched/Picked.antt =====
-- The thread that `sched_pick_next_locked` of sched/sched.c picks, and the queues that it leaves.
use capaz_os_kernel.Common.{
  ℕ, update, ◌≡◌, ◌≢◌, ◌⊎◌, inl, inr, refl, subst, sym, ◌∙◌, arith, List, [], ◌∷◌,
}
use capaz_os_kernel.Sched.Intent.{
  Intent, interactive, latency, throughput, background, intent_index,
}
use capaz_os_kernel.Sched.Ring.{Queue}
use capaz_os_kernel.Sched.Thread.{Sched}
use capaz_os_kernel.Sched.RunQueue.{rq_pop_head_intent_locked}
use capaz_os_kernel.Sched.RunQueue.Lists.{In}
use capaz_os_kernel.Sched.RunQueue.Refine.{pop_head_empty}
use capaz_os_kernel.Sched.Pick.{pick_intent, rq_pop_best_locked, sched_pick_intent_locked}
use capaz_os_kernel.Sched.Pick.Fair.{pick_ready}
use capaz_os_kernel.Sched.Switch.{sched_pick_next_locked}
use capaz_os_kernel.Sched.States.{cursor_lt}
use capaz_os_kernel.Sched.Invariant.{Ordered, Popped, pop-Ordered}

-- A queue is empty, or it has a front and a tail.
front_cases :
    {next : ℕ → ℕ} {tail : ℕ} {xs : List ℕ}
    → Queue next tail xs
    → ((tail ≡ 0) × (xs ≡ [])) ⊎ ((tail ≢ 0) × (x : ℕ) × (ys : List ℕ) × (xs ≡ x ∷ ys))
front_cases (inl e) = inl e
front_cases (inr ([], ne, e, l, n, d)) = inr (ne, _, [], e)
front_cases (inr (y ∷ ys, ne, e, l, n, d)) = inr (ne, y, _, e)

abbrev pub AllEmpty : (ℕ → List ℕ) → Type 0
AllEmpty qs = (i : Intent) → qs (intent_index i) ≡ []

all_of : (qs : ℕ → List ℕ) → qs 0 ≡ [] → qs 1 ≡ [] → qs 2 ≡ [] → qs 3 ≡ [] → AllEmpty qs
all_of qs a b c d interactive = a
all_of qs a b c d latency = b
all_of qs a b c d throughput = c
all_of qs a b c d background = d

-- Some queue is ready, or all are empty.
some_ready :
    {s : Sched} {qs : ℕ → List ℕ}
    → Ordered s qs
    → AllEmpty qs ⊎ ((i : Intent) × (s.ready_tail (intent_index i) ≢ 0))
some_ready {qs = qs} o = elim (front_cases (o.queues.queue 0)) [
  | inr r ↦ inr (interactive, r.0)
  | inl a ↦ elim (front_cases (o.queues.queue 1)) [
    | inr r ↦ inr (latency, r.0)
    | inl b ↦ elim (front_cases (o.queues.queue 2)) [
      | inr r ↦ inr (throughput, r.0)
      | inl c ↦ elim (front_cases (o.queues.queue 3)) [
        | inr r ↦ inr (background, r.0)
        | inl d ↦ inl (all_of qs a.1 b.1 c.1 d.1)
      ]
    ]
  ]
]

abbrev moved : Sched → Sched
moved s = record s { pick_cursor = (pick_intent s.ready_tail s.pick_cursor).1 }

moved-Ordered : (s : Sched) (qs : ℕ → List ℕ) → Ordered s qs → Ordered (moved s) qs
moved-Ordered s qs o = record {
  queues = o.queues;
  cursor = cursor_lt s.ready_tail s.pick_cursor o.cursor;
  ready_in = o.ready_in;
}

best_lem :
    (s : Sched)
    → rq_pop_best_locked s
      ≡ rq_pop_head_intent_locked (moved s) (pick_intent s.ready_tail s.pick_cursor).0
unfolding rq_pop_best_locked sched_pick_intent_locked
best_lem s = refl

best_cases :
    (s : Sched) (qs : ℕ → List ℕ)
    → Ordered s qs
    → (AllEmpty qs × (rq_pop_best_locked s ≡ (0, moved s)))
      ⊎ ((i x : ℕ) × (xs : List ℕ) × Popped qs i x xs (rq_pop_best_locked s))
best_cases s qs o =
    let i = (pick_intent s.ready_tail s.pick_cursor).0 in
    elim (some_ready o) [
      | inl empty ↦ inl (empty, best_lem s ∙ pop_head_empty (moved s) qs i o.queues (empty i))
      | inr (k, busy) ↦ elim (front_cases (o.queues.queue (intent_index i))) [
        | inl (z, nil) ↦ absurd ((pick_ready k s.ready_tail s.pick_cursor o.cursor busy).0 z)
        | inr (ne, x, xs, e) ↦ inr (
          intent_index i,
          x,
          xs,
          subst (Popped qs (intent_index i) x xs) (sym (best_lem s))
              (pop-Ordered (moved s) qs i x xs (moved-Ordered s qs o) e),
        )
      ]
    ]

-- The thread that is to run next, and the queues that are left.
pub record Picked (s : Sched) (qs : ℕ → List ℕ) (r : ℕ × Sched) : Type 0 where
  pub left : ℕ → List ℕ
  pub ordered : Ordered r.1 left
  pub nonzero : r.0 ≢ 0
  pub gone : (j : ℕ) → In r.0 (left j) → ⊥
  pub from : (r.0 ≡ s.current) ⊎ ((i : ℕ) × In r.0 (qs i))

pick_empty :
    (s : Sched)
    → rq_pop_best_locked s ≡ (0, moved s)
    → sched_pick_next_locked s ≡ (s.current, moved s)
unfolding sched_pick_next_locked
pick_empty s e = rw e refl

pick_some :
    (s : Sched) → (rq_pop_best_locked s).0 ≢ 0 → sched_pick_next_locked s ≡ rq_pop_best_locked s
unfolding sched_pick_next_locked
pick_some s ne = ground arith

pub pick-Picked :
    (s : Sched) (qs : ℕ → List ℕ)
    → Ordered s qs
    → s.current ≢ 0
    → (AllEmpty qs → (j : ℕ) → In s.current (qs j) → ⊥)
    → Picked s qs (sched_pick_next_locked s)
pick-Picked s qs o ne idle = elim (best_cases s qs o) [
  | inl (empty, e) ↦ subst (Picked s qs) (sym (pick_empty s e)) (record {
    left = qs;
    ordered = moved-Ordered s qs o;
    nonzero = ne;
    gone = idle empty;
    from = inl refl;
  })
  | inr (i, x, xs, p) ↦
      subst (Picked s qs) (sym (pick_some s (λ z. p.nonzero (sym p.returned ∙ z)))) (record {
        left = update qs i xs;
        ordered = p.left;
        nonzero = λ z. p.nonzero (sym p.returned ∙ z);
        gone = λ j m. p.gone j (subst (λ y. In y (update qs i xs j)) p.returned m);
        from =
            inr (
              i,
              subst (λ y. In y (qs i)) (sym p.returned) (subst (In x) (sym p.front) (inl refl)),
            );
      })
]
