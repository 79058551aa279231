-- ===== src/Tests/Running.antt =====
-- The entry points of the scheduler on concrete inputs: thread 3 sleeps, is woken, and runs when
-- thread 2 yields or blocks.
use capaz_os_kernel.Common.{
  ℕ, ◌≡◌, ◌==◌, if◌then◌else◌, refl, arith, some, List, [], ◌∷◌, ◌++◌, update, inl, add_u64, true,
  false,
}
use capaz_os_kernel.Sched.Intent.{interactive, sched_intent_sanitize}
use capaz_os_kernel.Sched.Thread.{Sched, ready, running, blocked, set_state}
use capaz_os_kernel.Sched.RunQueue.{rq_insert_tail_locked, link_tail, irq_sp_valid}
use capaz_os_kernel.Sched.Switch.{
  sched_wake, yield_call, yield_to, requeue, sched_block_current, block_to, sched_pick_next_locked,
}
use capaz_os_kernel.Sched.Preempt.{
  sched_irq_exit, requeue_interrupted, exit_to, preempt_to, preemptible, preempt_clear_need_resched,
}
use capaz_os_kernel.Sched.Switch.{switch_to, sched_prepare_running_locked}
use capaz_os_kernel.Sched.Exit.{irq_exit-Kept}
use capaz_os_kernel.Sched.Pick.{
  rq_pop_best_locked, sched_pick_intent_locked, pick_intent, scan_pattern, pick_pattern,
}
use capaz_os_kernel.Sched.RunQueue.{rq_pop_head_intent_locked}
use capaz_os_kernel.Sched.States.{state_of}
use capaz_os_kernel.Sched.Steps.{Sound, Kept, yield-Kept}
use capaz_os_kernel.Sched.Sleep.{block-Kept, wake_lem}
use capaz_os_kernel.Tests.Machine.{machine, worker}

abbrev asleep : Sched
asleep = machine (λ t. if t == 2 then worker running 0 else worker blocked 0) (λ _. 0)

abbrev none_ready : ℕ → List ℕ
none_ready _ = []

asleep-Sound : Sound asleep none_ready
asleep-Sound = record {
  order = record {
    queues = record { queue = λ i. inl (refl, refl); apart = λ i j x ne m. absurd m };
    cursor = omega arith;
    ready_in = λ i x m. absurd m;
  };
  current_nonzero = omega arith;
  current_running = refl;
}

abbrev woken : Sched
woken = link_tail (set_state asleep 3 ready) 3 interactive

wakes : sched_wake asleep 3 ≡ some woken
unfolding sched_wake rq_insert_tail_locked irq_sp_valid sched_intent_sanitize
wakes = refl

abbrev three_ready : ℕ → List ℕ
three_ready = update none_ready 0 ([] ++ 3 ∷ [])

wake_lem_example : Sound woken three_ready × (woken.current ≡ 2) × (state_of woken 3 ≡ ready)
unfolding sched_intent_sanitize link_tail
wake_lem_example = wake_lem asleep woken none_ready 3 asleep-Sound refl (omega arith) wakes

woken-Sound : Sound woken three_ready
unfolding sched_intent_sanitize
woken-Sound = (wake_lem asleep woken none_ready 3 asleep-Sound refl (omega arith) wakes).0

abbrev yielded : Sched
yielded = yield_to 2 (
    sched_pick_next_locked (
      link_tail
        (set_state
          (record (woken) {
            stats = record (woken.stats) { yield_calls = add_u64 woken.stats.yield_calls 1 };
            need_resched = false;
          })
          2 ready)
        2 interactive))

yields : yield_call woken ≡ some yielded
unfolding yield_call requeue rq_insert_tail_locked irq_sp_valid sched_intent_sanitize link_tail
yields = refl

yield-Kept_example : Kept woken three_ready yielded
yield-Kept_example = yield-Kept woken yielded three_ready woken-Sound yields

abbrev slept : Sched
slept = block_to 2 (sched_pick_next_locked (set_state woken 2 blocked))

sleeps : sched_block_current woken ≡ some slept
unfolding sched_block_current link_tail
sleeps = refl

block-Kept_example : Kept woken three_ready slept
block-Kept_example = block-Kept woken slept three_ready woken-Sound sleeps

-- An interrupt finds that thread 2 has used its slice.
abbrev pressed : Sched
pressed = record (woken) { need_resched = true }

pressed-Sound : Sound pressed three_ready
pressed-Sound = record {
  order = record {
    queues = woken-Sound.order.queues;
    cursor = woken-Sound.order.cursor;
    ready_in = woken-Sound.order.ready_in;
  };
  current_nonzero = woken-Sound.current_nonzero;
  current_running = woken-Sound.current_running;
}

-- Thread 2 at its way out with frame 80000.
abbrev trapped : Sched
trapped = record (pressed) {
  threads = update pressed.threads 2 (record (pressed.threads 2) { last_trap = 80000 });
  need_resched = false;
}

abbrev framed : Sched
framed = record (trapped) {
  threads = update trapped.threads 2 (record (trapped.threads 2) { irq_sp = 80000 });
}

abbrev preempted : Sched
preempted =
    (preempt_to (sched_pick_next_locked (link_tail (set_state framed 2 ready) 2 interactive)).1 2
      3).1

exits : sched_irq_exit pressed 80000 ≡ some (80000, preempted)
unfolding sched_irq_exit requeue_interrupted requeue exit_to preempt_to preemptible
    preempt_clear_need_resched rq_insert_tail_locked irq_sp_valid sched_intent_sanitize link_tail
    sched_pick_next_locked rq_pop_best_locked sched_pick_intent_locked pick_intent scan_pattern
    pick_pattern rq_pop_head_intent_locked switch_to sched_prepare_running_locked
exits = refl

irq_exit-Kept_example : Kept pressed three_ready preempted
irq_exit-Kept_example = irq_exit-Kept pressed preempted three_ready 80000 80000 pressed-Sound exits
