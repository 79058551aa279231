-- ===== src/Sched/Preempt.antt =====
-- The preemption bookkeeping of sched/preempt.c, the way out of an interrupt (`sched_irq_exit` of
-- sched/sched.c), and the scheduler's start. A failed assertion or a panic is `none`; the check that
-- interrupts are masked reads the hardware, and `rq_validate` only asserts.
use capaz_os_kernel.Common.{
  ℕ, ◌-◌, Bool, true, false, not, ◌&&◌, ◌||◌, Option, none, some, ◌==◌, if◌then◌else◌, update,
  add_u64, add_u32, ◌>>=◌,
}
use capaz_os_kernel.Sched.Thread.{
  Thread, running, Sched, SchedStats, bootstrap_thread, next_of, set_thread, set_state,
}
use capaz_os_kernel.Sched.Switch.{
  is_running, sched_pick_next_locked, sched_prepare_running_locked, requeue, switch_to,
}

unfoldable pub preempt_disable : Sched → Sched
preempt_disable s = record s { preempt_count = add_u32 s.preempt_count 1 }

unfoldable pub preempt_enable : Sched → Option Sched
preempt_enable s =
    if s.preempt_count == 0 then none else some (record s { preempt_count = s.preempt_count - 1 })

unfoldable pub preemptible : Sched → Bool
preemptible s = s.preempt_count == 0

unfoldable pub preempt_set_need_resched : Sched → Sched
preempt_set_need_resched s = record s { need_resched = true }

unfoldable pub preempt_clear_need_resched : Sched → Sched
preempt_clear_need_resched s = record s { need_resched = false }

-- The interrupted thread keeps its frame and goes back to the ready queues.
unfoldable pub requeue_interrupted : Sched → ℕ → ℕ → Option Sched
requeue_interrupted s cur tf =
    if not (cur == bootstrap_thread) && is_running (s.threads cur).state
    then requeue (set_thread s cur (record (s.threads cur) { irq_sp = tf })) cur
    else some s

-- `next` becomes the current thread, and its frame the one to return to.
unfoldable pub preempt_to : Sched → ℕ → ℕ → ℕ × Sched
preempt_to s cur next =
    let s' = switch_to s next in
    let th = s'.threads cur in
    let s'' =
      if not (cur == bootstrap_thread)
      then set_thread s' cur (record th { preemptions = add_u64 th.preemptions 1 })
      else s' in
    (
      (s.threads next).irq_sp,
      record s'' {
        stats = record (s''.stats) { preempt_switches = add_u64 s''.stats.preempt_switches 1 };
      },
    )

unfoldable pub exit_to : ℕ → ℕ → ℕ × Sched → Option (ℕ × Sched)
exit_to tf cur (next, s) =
    if next == 0 || next == cur
    then some (tf, sched_prepare_running_locked (set_state s cur running) cur)
    else if (s.threads next).irq_sp == 0
    then none
    else some (preempt_to s cur next)

-- The frame to return to, and the state. `tf` is not NULL.
unfoldable pub sched_irq_exit : Sched → ℕ → Option (ℕ × Sched)
sched_irq_exit s tf =
    if s.current == 0
    then some (tf, s)
    else if not (next_of s s.current == 0)
    then none
    else let s' = set_thread s s.current (record (s.threads s.current) { last_trap = tf }) in
      if not s.need_resched || not (preemptible s) then some (tf, s') else do
        s'' ← requeue_interrupted (preempt_clear_need_resched s') s.current tf
        exit_to tf s.current (sched_pick_next_locked s'')

abbrev pub no_stats : SchedStats
no_stats = record {
  context_switches = 0;
  yield_calls = 0;
  preempt_switches = 0;
  intent_runs_interactive = 0;
  intent_runs_latency = 0;
  intent_runs_throughput = 0;
  intent_runs_background = 0;
}

-- The bootstrap thread as `sched_init_bootstrap` leaves it.
unfoldable pub boot_thread : Thread
boot_thread = record {
  ctx_sp = 0;
  tid = 0;
  task = 0;
  kstack_base = 0;
  kstack_size = 0;
  kstack_top = 0;
  rq_next = 0;
  last_trap = 0;
  irq_sp = 0;
  sched_intent = 0;
  slice_ticks_budget = 0;
  slice_ticks_used = 0;
  runtime_ticks_total = 0;
  preemptions = 0;
  state = running;
}

unfoldable pub sched_init_bootstrap : Sched → Sched
sched_init_bootstrap s = record s {
  threads = update s.threads bootstrap_thread boot_thread;
  ready_tail = λ i. 0;
  current = bootstrap_thread;
  ticks = 0;
  stats = no_stats;
  pick_cursor = 0;
}

-- The counters, with the tick of now.
unfoldable pub sched_get_stats : Sched → SchedStats × ℕ
sched_get_stats s = (s.stats, s.ticks)
