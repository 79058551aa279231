-- ===== src/Sched/Exit.antt =====
-- `sched_irq_exit` of sched/sched.c keeps the scheduler's invariant.
use capaz_os_kernel.Common.{
  ℕ, true, false, not, ◌||◌, ◌==◌, ==_iff, ◌≡◌, ◌≢◌, ◌⊎◌, inl, inr, refl, arith, List, ◌∙◌, subst,
  sym, some, Option-cases, Bool-cases,
}
use capaz_os_kernel.Sched.Thread.{Sched, set_thread, set_state, running, bootstrap_thread}
use capaz_os_kernel.Sched.RunQueue.Lists.{In}
use capaz_os_kernel.Sched.Switch.{
  requeue, switch_to, sched_pick_next_locked, sched_prepare_running_locked,
}
use capaz_os_kernel.Sched.Preempt.{
  sched_irq_exit, requeue_interrupted, preempt_to, exit_to, preempt_clear_need_resched, preemptible,
}
use capaz_os_kernel.Sched.States.{state_of, pick-state, switch-running}
use capaz_os_kernel.Sched.Invariant.{Ordered}
use capaz_os_kernel.Sched.Picked.{AllEmpty, pick-Picked}
use capaz_os_kernel.Sched.Steps.{
  Sound, Kept, Requeued, switch-Sound, stay-Sound, restore-Sound, requeue-Requeued, stay_current,
}
use capaz_os_kernel.Sched.Tick.{Same, Same-Sound}

-- What the exit writes to the interrupted thread before it picks.
trap-Same : (s : Sched) (t n : ℕ) → Same s (set_thread s t (record (s.threads t) { last_trap = n }))
trap-Same s t n = record {
  links = λ x. ground arith;
  states = λ x. ground arith;
  tails = refl;
  cursor = refl;
  current = refl;
}

frame-Same : (s : Sched) (t n : ℕ) → Same s (set_thread s t (record (s.threads t) { irq_sp = n }))
frame-Same s t n = record {
  links = λ x. ground arith;
  states = λ x. ground arith;
  tails = refl;
  cursor = refl;
  current = refl;
}

clear-Same : (s : Sched) → Same s (preempt_clear_need_resched s)
unfolding preempt_clear_need_resched
clear-Same s = record {
  links = λ x. refl;
  states = λ x. refl;
  tails = refl;
  cursor = refl;
  current = refl;
}

preempt-Same : (s : Sched) (cur next : ℕ) → Same (switch_to s next) (preempt_to s cur next).1
unfolding preempt_to
preempt-Same s cur next = record {
  links = λ x. ground arith;
  states = λ x. ground arith;
  tails = ground arith;
  cursor = ground arith;
  current = ground arith;
}

boot_requeue : (s : Sched) → (s.current == bootstrap_thread) ≡ true → requeue s s.current ≡ some s
unfolding requeue
boot_requeue s b = ground arith

boot_frame :
    (s s1 : Sched) (tf : ℕ)
    → (s.current == bootstrap_thread) ≡ true
    → requeue_interrupted s s.current tf ≡ some s1
    → s ≡ s1
unfolding requeue_interrupted
boot_frame s s1 tf b q = ground arith

thread_frame :
    (s s1 : Sched) (tf : ℕ)
    → (s.current == bootstrap_thread) ≡ false
    → state_of s s.current ≡ running
    → requeue_interrupted s s.current tf ≡ some s1
    → requeue (set_thread s s.current (record (s.threads s.current) { irq_sp = tf })) s.current
      ≡ some s1
unfolding requeue_interrupted
thread_frame s s1 tf b r q = ground (arith, r)

Requeued-Same :
    (s s0 s1 : Sched) (qs : ℕ → List ℕ)
    → s0.current ≡ s.current
    → Requeued s0 qs s1
    → Requeued s qs s1
Requeued-Same s s0 s1 qs e r = record {
  queued = r.queued;
  ordered = r.ordered;
  current_same = r.current_same ∙ e;
  idle = subst (λ c. AllEmpty r.queued → (j : ℕ) → In c (r.queued j) → ⊥) e r.idle;
  from = λ i x m. elim (r.from i x m) [ inl old ↦ inl old | inr back ↦ inr (back ∙ e) ];
}

interrupted-Requeued :
    (s s1 : Sched) (qs : ℕ → List ℕ) (tf : ℕ)
    → Sound s qs
    → requeue_interrupted s s.current tf ≡ some s1
    → Requeued s qs s1
interrupted-Requeued s s1 qs tf h q = elim (Bool-cases (s.current == bootstrap_thread)) [
  | inl boot ↦
      subst (Requeued s qs) (boot_frame s s1 tf boot q)
        (requeue-Requeued s s qs h (boot_requeue s boot))
  | inr thread ↦
      let s0 = set_thread s s.current (record (s.threads s.current) { irq_sp = tf }) in
      Requeued-Same s s0 s1 qs refl (
        requeue-Requeued s0 s1 qs (Same-Sound s s0 qs h (frame-Same s s.current tf))
          (thread_frame s s1 tf thread h.current_running q))
]

-- The interrupted thread is prepared to run on.
resume_lem :
    (s : Sched) (qs : ℕ → List ℕ)
    → Ordered s qs
    → s.current ≢ 0
    → ((j : ℕ) → In s.current (qs j) → ⊥)
    → Sound (sched_prepare_running_locked (set_state s s.current running) s.current) qs
resume_lem s qs o ne free =
    let s0 = set_state s s.current running in
    stay-Sound s0 qs (restore-Sound s qs o ne free).order ne free

exit_stays :
    (s s' : Sched) (next tf f : ℕ)
    → (next == s.current) ≡ true
    → exit_to tf s.current (next, s) ≡ some (f, s')
    → sched_prepare_running_locked (set_state s s.current running) s.current ≡ s'
unfolding exit_to
exit_stays s s' next tf f e q = ground arith

exit_goes :
    (s s' : Sched) (next tf f : ℕ)
    → next ≢ 0
    → (next == s.current) ≡ false
    → exit_to tf s.current (next, s) ≡ some (f, s')
    → (preempt_to s s.current next).1 ≡ s'
unfolding exit_to
exit_goes s s' next tf f ne e q = ground arith

exit_to_lem :
    (s s' : Sched) (qs : ℕ → List ℕ) (next tf f : ℕ)
    → Ordered s qs
    → next ≢ 0
    → ((j : ℕ) → In next (qs j) → ⊥)
    → exit_to tf s.current (next, s) ≡ some (f, s')
    → Sound s' qs × (s'.current ≡ next)
exit_to_lem s s' qs next tf f o ne free q = elim (Bool-cases (next == s.current)) [
  | inl same ↦
      let e = (==_iff next s.current).0 same in
      subst (λ r. Sound r qs × (r.current ≡ next)) (exit_stays s s' next tf f same q)
        (
          resume_lem s qs o (λ z. ne (e ∙ z)) (λ j m. free j (subst (λ y. In y (qs j)) (sym e) m)),
          stay_current (set_state s s.current running) ∙ sym e,
        )
  | inr other ↦
      let to = preempt-Same s s.current next in
      subst (λ r. Sound r qs × (r.current ≡ next)) (exit_goes s s' next tf f ne other q)
        (
          Same-Sound (switch_to s next) (preempt_to s s.current next).1 qs
              (switch-Sound s qs next o ne free) to,
          to.current ∙ (switch-running s next ne).1,
        )
]

abbrev trapped : Sched → ℕ → Sched
trapped s tf = set_thread s s.current (record (s.threads s.current) { last_trap = tf })

irq_steps :
    (s s' : Sched) (tf f : ℕ)
    → s.current ≢ 0
    → sched_irq_exit s tf ≡ some (f, s')
    → (trapped s tf ≡ s')
      ⊎ ((s1 : Sched) × (requeue_interrupted
              (preempt_clear_need_resched (trapped s tf))
              s.current
              tf
            ≡ some s1)
          × (exit_to tf s.current (sched_pick_next_locked s1) ≡ some (f, s')))
unfolding sched_irq_exit
irq_steps s s' tf f ne q = elim (Bool-cases (not s.need_resched || not (preemptible s))) [
  | inl early ↦ inl (ground arith)
  | inr late ↦
      elim (Option-cases
        (requeue_interrupted (preempt_clear_need_resched (trapped s tf)) s.current tf)) [
          | inl stop ↦ absurd (ground arith)
          | inr (s1, go) ↦ inr (s1, go, ground arith)
        ]
]

-- The way out of an interrupt, when it returns, keeps the invariant, and the thread that it returns to
-- is the interrupted one or one that was ready.
pub irq_exit-Kept :
    (s s' : Sched) (qs : ℕ → List ℕ) (tf f : ℕ)
    → Sound s qs
    → sched_irq_exit s tf ≡ some (f, s')
    → Kept s qs s'
irq_exit-Kept s s' qs tf f h q = elim (irq_steps s s' tf f h.current_nonzero q) [
  | inl early ↦ subst (Kept s qs) early (record {
    queued = qs;
    sound = Same-Sound s (trapped s tf) qs h (trap-Same s s.current tf);
    from = inl refl;
  })
  | inr (s1, go, e) ↦
      let s0 = preempt_clear_need_resched (trapped s tf) in
      let clear = clear-Same (trapped s tf) in
      let h0 =
        Same-Sound (trapped s tf) s0 qs
          (Same-Sound s (trapped s tf) qs h (trap-Same s s.current tf)) clear in
      let r =
        interrupted-Requeued s0 s1 qs tf h0
          (subst (λ c. requeue_interrupted s0 c tf ≡ some s1) (sym clear.current) go) in
      picked s1 r e (r.current_same ∙ clear.current)
]
  where
    picked :
        (s1 : Sched)
        → Requeued (preempt_clear_need_resched (trapped s tf)) qs s1
        → exit_to tf s.current (sched_pick_next_locked s1) ≡ some (f, s')
        → s1.current ≡ s.current
        → Kept s qs s'
    picked s1 r e cur1 =
        let (next, s2) = sched_pick_next_locked s1 in
        let free : AllEmpty r.queued → (j : ℕ) → In s1.current (r.queued j) → ⊥ =
          subst (λ c. AllEmpty r.queued → (j : ℕ) → In c (r.queued j) → ⊥) (sym r.current_same)
            r.idle in
        let p = pick-Picked s1 r.queued r.ordered (λ z. h.current_nonzero (sym cur1 ∙ z)) free in
        let cur : s2.current ≡ s.current = (pick-state s1 0).1 ∙ cur1 in
        let (sound, to) =
          exit_to_lem s2 s' p.left next tf f p.ordered p.nonzero p.gone
            (subst (λ c. exit_to tf c (next, s2) ≡ some (f, s')) (sym cur) e) in
        let clear = clear-Same (trapped s tf) in
        record {
          queued = p.left;
          sound = sound;
          from = elim p.from [
            | inl same ↦ inl (to ∙ same ∙ cur1)
            | inr (i, m) ↦ elim (r.from i next m) [
              | inl old ↦ inr (i, subst (λ y. In y (qs i)) (sym to) old)
              | inr back ↦ inl (to ∙ back ∙ clear.current)
            ]
          ];
        }
