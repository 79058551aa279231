-- ===== src/Sched/Sleep.antt =====
-- `sched_block_current` and `sched_wake` of sched/sched.c keep the scheduler's invariant.
use capaz_os_kernel.Common.{
  ℕ, false, ◌==◌, ==_iff, update, ◌≡◌, ◌≢◌, inl, inr, refl, ap, subst, sym, ◌∙◌, arith, List, [],
  ◌∷◌, ◌++◌, some, Bool-cases,
}
use capaz_os_kernel.Sched.Intent.{intent_index}
use capaz_os_kernel.Sched.Thread.{ready, running, blocked, Sched, set_state}
use capaz_os_kernel.Sched.RunQueue.{rq_insert_tail_locked, intent_of}
use capaz_os_kernel.Sched.RunQueue.Lists.{In}
use capaz_os_kernel.Sched.Switch.{sched_pick_next_locked, sched_block_current, block_to, sched_wake}
use capaz_os_kernel.Sched.States.{state_of, pick-state, insert-state, state-links, switch-running}
use capaz_os_kernel.Sched.Invariant.{Ordered, insert-Ordered, not_queued}
use capaz_os_kernel.Sched.Picked.{pick-Picked}
use capaz_os_kernel.Sched.Steps.{
  Sound, Kept, running_free, same-Ordered, switch-Sound, restore-Sound,
}

block_to_lem :
    (s : Sched) (qs : ℕ → List ℕ) (next : ℕ)
    → Ordered s qs
    → next ≢ 0
    → ((j : ℕ) → In next (qs j) → ⊥)
    → Sound (block_to s.current (next, s)) qs × ((block_to s.current (next, s)).current ≡ next)
unfolding block_to
block_to_lem s qs next o ne free =
    let some_next : (next == 0) ≡ false = ground arith in
    elim (Bool-cases (next == s.current)) [
      | inl same ↦
          let e = (==_iff next s.current).0 same in
          rw (some_next, same)
            (
              restore-Sound s qs o (λ z. ne (e ∙ z))
                  (λ j m. free j (subst (λ y. In y (qs j)) (sym e) m)),
              sym e,
            )
      | inr other ↦
          rw (some_next, other) (switch-Sound s qs next o ne free, (switch-running s next ne).1)
    ]

block_steps :
    (s s' : Sched)
    → sched_block_current s ≡ some s'
    → block_to s.current (sched_pick_next_locked (set_state s s.current blocked)) ≡ s'
unfolding sched_block_current
block_steps s s' q = ground arith

-- A block that returns keeps the invariant, and the thread that runs then is the one that called it,
-- which then runs on, or one that was ready.
pub block-Kept :
    (s s' : Sched) (qs : ℕ → List ℕ) → Sound s qs → sched_block_current s ≡ some s' → Kept s qs s'
block-Kept s s' qs h q =
    let s0 = set_state s s.current blocked in
    let free = running_free h in
    let o : Ordered s0 qs =
      same-Ordered s s0 qs s.current h.order free (state-links s s.current blocked) refl refl
        (λ x d. ground arith) in
    let p = pick-Picked s0 qs o h.current_nonzero (λ e. free) in
    let (next, s2) = sched_pick_next_locked s0 in
    let cur : s2.current ≡ s.current = (pick-state s0 0).1 in
    let (sound, to) = block_to_lem s2 p.left next p.ordered p.nonzero p.gone in
    subst (Kept s qs) (ap (λ c. block_to c (next, s2)) cur ∙ block_steps s s' q) (record {
      queued = p.left;
      sound = sound;
      from = elim p.from [
        | inl same ↦ inl (to ∙ same)
        | inr (i, m) ↦ inr (i, subst (λ y. In y (qs i)) (sym to) m)
      ];
    })

wake_steps :
    (s s' : Sched) (t : ℕ)
    → sched_wake s t ≡ some s'
    → state_of s t ≡ blocked
    → t ≢ 0
    → rq_insert_tail_locked (set_state s t ready) t ≡ some s'
unfolding sched_wake
wake_steps s s' t q b ne = ground (arith, b)

-- A wake-up of a blocked thread keeps the invariant: the thread joins the queue of its intent behind
-- those that wait there, it is ready, and the current thread goes on.
pub wake_lem :
    (s s' : Sched) (qs : ℕ → List ℕ) (t : ℕ)
    → Sound s qs
    → state_of s t ≡ blocked
    → t ≢ 0
    → sched_wake s t ≡ some s'
    → let i = intent_index (intent_of (set_state s t ready) t) in
      Sound s' (update qs i (qs i ++ t ∷ [])) × (s'.current ≡ s.current) × (state_of s' t ≡ ready)
wake_lem s s' qs t h b ne q =
    let inserted = wake_steps s s' t q b ne in
    let (ord, cur) =
      insert-Ordered s s' qs t h.order ne (not_queued h.order t (λ e. not_ready (sym b ∙ e)))
        inserted in
    let keeps = λ (x : ℕ). (insert-state (set_state s t ready) s' t x inserted).0 in
    (
      record {
        order = ord;
        current_nonzero = λ z. h.current_nonzero (sym cur ∙ z);
        current_running =
            subst (λ x. state_of s' x ≡ running) (sym cur)
              (keeps s.current ∙ ground (arith, h.current_running, b));
      },
      cur,
      keeps t ∙ ground arith,
    )
  where
    not_ready : blocked ≡ ready → ⊥
    not_ready e = cc
