-- ===== src/Sched/Steps.antt =====
-- `yield` of sched/sched.c keeps the scheduler's invariant.
use capaz_os_kernel.Common.{
  ℕ, true, false, ◌==◌, ==_iff, update, ◌≡◌, ◌≢◌, ◌<◌, ◌⊎◌, inl, inr, refl, ap, subst, sym, ◌∙◌,
  fun_ext, arith, List, [], ◌∷◌, ◌++◌, some, Option-cases, Bool-cases, add_u64,
}
use capaz_os_kernel.Sched.Intent.{intent_index}
use capaz_os_kernel.Sched.Thread.{ready, running, Sched, next_of, set_state, bootstrap_thread}
use capaz_os_kernel.Sched.RunQueue.{rq_insert_tail_locked, intent_of}
use capaz_os_kernel.Sched.RunQueue.Lists.{Holds, In}
use capaz_os_kernel.Sched.Pick.{pattern_len}
use capaz_os_kernel.Sched.Switch.{
  sched_pick_next_locked, switch_to, yield_call, yield_to, requeue, sched_prepare_running_locked,
}
use capaz_os_kernel.Sched.States.{
  state_of, pick-state, state-links, switch-links, switch-running, switch-state,
}
use capaz_os_kernel.Sched.Invariant.{Ordered, insert-Ordered, not_queued, In-push}
use capaz_os_kernel.Sched.Picked.{AllEmpty, pick-Picked}

-- The invariant: the queues are in order, and the current thread runs.
pub record Sound (s : Sched) (qs : ℕ → List ℕ) : Type 0 where
  pub order : Ordered s qs
  pub current_nonzero : s.current ≢ 0
  pub current_running : state_of s s.current ≡ running

pub running_free : {s : Sched} {qs : ℕ → List ℕ} → Sound s qs → (j : ℕ) → In s.current (qs j) → ⊥
running_free {s} h = not_queued h.order s.current (λ e. not_ready (sym h.current_running ∙ e))
  where
    not_ready : running ≡ ready → ⊥
    not_ready q = cc

-- A step that changes the state of one thread, which is in no queue, leaves the queues in order.
pub same-Ordered :
    (s s' : Sched) (qs : ℕ → List ℕ) (t : ℕ)
    → Ordered s qs
    → ((j : ℕ) → In t (qs j) → ⊥)
    → ((x : ℕ) → next_of s' x ≡ next_of s x)
    → s'.ready_tail ≡ s.ready_tail
    → s'.pick_cursor ≡ s.pick_cursor
    → ((x : ℕ) → t ≢ x → state_of s' x ≡ state_of s x)
    → Ordered s' qs
same-Ordered s s' qs t o free links tails cur states = record {
  queues =
      subst (λ f. Holds f s'.ready_tail qs) (sym (fun_ext links))
        (subst (λ f. Holds (next_of s) f qs) (sym tails) o.queues);
  cursor = subst (λ c. c < pattern_len) (sym cur) o.cursor;
  ready_in = λ j x m.
      let old = o.ready_in j x m in
      (states x (λ e. free j (subst (λ y. In y (qs j)) (sym e) m)) ∙ old.0, old.1);
}

pub switch-Sound :
    (s : Sched) (qs : ℕ → List ℕ) (t : ℕ)
    → Ordered s qs
    → t ≢ 0
    → ((j : ℕ) → In t (qs j) → ⊥)
    → Sound (switch_to s t) qs
switch-Sound s qs t o ne free =
    let (run, cur) = switch-running s t ne in
    record {
      order =
          same-Ordered s (switch_to s t) qs t o free (λ x. (switch-links s t x).0)
            (switch-links s t t).1 (switch-links s t t).2 (λ x d. (switch-state s t x ne d).0);
      current_nonzero = λ z. ne (sym cur ∙ z);
      current_running = subst (λ x. state_of (switch_to s t) x ≡ running) (sym cur) run;
    }

pub stay-Sound :
    (s : Sched) (qs : ℕ → List ℕ)
    → Ordered s qs
    → s.current ≢ 0
    → ((j : ℕ) → In s.current (qs j) → ⊥)
    → Sound (sched_prepare_running_locked s s.current) qs
unfolding sched_prepare_running_locked
stay-Sound s qs o ne free = record {
  order =
      same-Ordered s (sched_prepare_running_locked s s.current) qs s.current o free
        (λ x. ground arith) (ground arith) (ground arith) (λ x d. ground arith);
  current_nonzero = ground arith;
  current_running = ground arith;
}

pub restore-Sound :
    (s : Sched) (qs : ℕ → List ℕ)
    → Ordered s qs
    → s.current ≢ 0
    → ((j : ℕ) → In s.current (qs j) → ⊥)
    → Sound (set_state s s.current running) qs
restore-Sound s qs o ne free = record {
  order =
      same-Ordered s (set_state s s.current running) qs s.current o free
        (state-links s s.current running) refl refl (λ x d. ground arith);
  current_nonzero = ne;
  current_running = ground arith;
}

-- What the round of a call leaves: the invariant, with a current thread that was current or ready.
pub record Kept (s : Sched) (qs : ℕ → List ℕ) (s' : Sched) : Type 0 where
  pub queued : ℕ → List ℕ
  pub sound : Sound s' queued
  pub from : (s'.current ≡ s.current) ⊎ ((i : ℕ) × In s'.current (qs i))

-- The queues behind `requeue` of the current thread.
pub record Requeued (s : Sched) (qs : ℕ → List ℕ) (s1 : Sched) : Type 0 where
  pub queued : ℕ → List ℕ
  pub ordered : Ordered s1 queued
  pub current_same : s1.current ≡ s.current
  pub idle : AllEmpty queued → (j : ℕ) → In s.current (queued j) → ⊥
  pub from : (i x : ℕ) → In x (queued i) → In x (qs i) ⊎ (x ≡ s.current)

snoc_not_nil : (ys : List ℕ) (z : ℕ) → ys ++ z ∷ [] ≡ [] → ⊥
snoc_not_nil [] z p = cc
snoc_not_nil (y ∷ ys) z p = cc

update_self : (qs : ℕ → List ℕ) (i : ℕ) (xs : List ℕ) → update qs i xs i ≡ xs
update_self qs i xs = ground arith

requeue_boot :
    (s s1 : Sched) (qs : ℕ → List ℕ)
    → Sound s qs
    → (s.current == bootstrap_thread) ≡ true
    → requeue s s.current ≡ some s1
    → s ≡ s1
unfolding requeue
requeue_boot s s1 qs h boot q = ground arith

requeue_thread :
    (s s1 : Sched) (qs : ℕ → List ℕ)
    → Sound s qs
    → (s.current == bootstrap_thread) ≡ false
    → requeue s s.current ≡ some s1
    → rq_insert_tail_locked (set_state s s.current ready) s.current ≡ some s1
unfolding requeue
requeue_thread s s1 qs h thread q = ground (arith, h.current_running)

pub requeue-Requeued :
    (s s1 : Sched) (qs : ℕ → List ℕ) → Sound s qs → requeue s s.current ≡ some s1 → Requeued s qs s1
requeue-Requeued s s1 qs h q = elim (Bool-cases (s.current == bootstrap_thread)) [
  | inl boot ↦ subst (Requeued s qs) (requeue_boot s s1 qs h boot q) (record {
    queued = qs;
    ordered = h.order;
    current_same = refl;
    idle = λ e. running_free h;
    from = λ i x m. inl m;
  })
  | inr other ↦
      let inserted = requeue_thread s s1 qs h other q in
      let i = intent_of (set_state s s.current ready) s.current in
      let k = intent_index i in
      let (ord, cur) =
        insert-Ordered s s1 qs s.current h.order h.current_nonzero (running_free h) inserted in
      record {
        queued = update qs k (qs k ++ s.current ∷ []);
        ordered = ord;
        current_same = cur;
        idle = λ e.
            absurd (
              snoc_not_nil (qs k) s.current
                (sym (update_self qs k (qs k ++ s.current ∷ [])) ∙ e i));
        from = In-push qs k s.current;
      }
]

pub stay_current : (s : Sched) → (sched_prepare_running_locked s s.current).current ≡ s.current
unfolding sched_prepare_running_locked
stay_current s = ground arith

yield_to_lem :
    (s : Sched) (qs : ℕ → List ℕ) (next : ℕ)
    → Ordered s qs
    → next ≢ 0
    → ((j : ℕ) → In next (qs j) → ⊥)
    → Sound (yield_to s.current (next, s)) qs × ((yield_to s.current (next, s)).current ≡ next)
unfolding yield_to
yield_to_lem s qs next o ne free =
    let some_next : (next == 0) ≡ false = ground arith in
    elim (Bool-cases (next == s.current)) [
      | inl same ↦
          let e = (==_iff next s.current).0 same in
          rw (some_next, same)
            (
              stay-Sound s qs o (λ z. ne (e ∙ z))
                  (λ j m. free j (subst (λ y. In y (qs j)) (sym e) m)),
              stay_current s ∙ sym e,
            )
      | inr other ↦
          rw (some_next, other) (switch-Sound s qs next o ne free, (switch-running s next ne).1)
    ]

-- The state that `yield` requeues in.
abbrev pub yielding : Sched → Sched
yielding s = record s {
  stats = record (s.stats) { yield_calls = add_u64 s.stats.yield_calls 1 };
  need_resched = false;
}

yield_steps :
    (s s' : Sched)
    → yield_call s ≡ some s'
    → (s1 : Sched) × (requeue (yielding s) s.current ≡ some s1)
      × (yield_to s.current (sched_pick_next_locked s1) ≡ s')
unfolding yield_call
yield_steps s s' q = elim (Option-cases (requeue (yielding s) s.current)) [
  | inl stop ↦ absurd (ground arith)
  | inr (s1, go) ↦ (s1, go, ground arith)
]

yielding-Sound : (s : Sched) (qs : ℕ → List ℕ) → Sound s qs → Sound (yielding s) qs
yielding-Sound s qs h = record {
  order = record { queues = h.order.queues; cursor = h.order.cursor; ready_in = h.order.ready_in };
  current_nonzero = h.current_nonzero;
  current_running = h.current_running;
}

-- A yield that returns keeps the invariant, and the thread that runs then is the one that yielded or
-- one that was ready before.
pub yield-Kept :
    (s s' : Sched) (qs : ℕ → List ℕ) → Sound s qs → yield_call s ≡ some s' → Kept s qs s'
yield-Kept s s' qs h q =
    let (s1, go, e) = yield_steps s s' q in
    let r = requeue-Requeued (yielding s) s1 qs (yielding-Sound s qs h) go in
    let free : AllEmpty r.queued → (j : ℕ) → In s1.current (r.queued j) → ⊥ =
      subst (λ c. AllEmpty r.queued → (j : ℕ) → In c (r.queued j) → ⊥) (sym r.current_same)
        r.idle in
    let p =
      pick-Picked s1 r.queued r.ordered (λ z. h.current_nonzero (sym r.current_same ∙ z)) free in
    let (next, s2) = sched_pick_next_locked s1 in
    let cur : s2.current ≡ s.current = (pick-state s1 0).1 ∙ r.current_same in
    let (sound, to) = yield_to_lem s2 p.left next p.ordered p.nonzero p.gone in
    subst (Kept s qs) (ap (λ c. yield_to c (next, s2)) cur ∙ e) (record {
      queued = p.left;
      sound = sound;
      from = elim p.from [
        | inl same ↦ inl (to ∙ same ∙ r.current_same)
        | inr (i, m) ↦ elim (r.from i next m) [
          | inl old ↦ inr (i, subst (λ y. In y (qs i)) (sym to) old)
          | inr back ↦ inl (to ∙ back)
        ]
      ];
    })
