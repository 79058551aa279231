-- ===== src/Sched/Charge.antt =====
-- What the timer tick of sched/sched.c charges to the current thread and its task.
use capaz_os_kernel.Common.{
  ℕ, ◌≤◌, ◌<◌, ◌≡◌, ◌≢◌, ◌⊎◌, ◌==◌, ◌||◌, if◌then◌else◌, true, false, arith, add_u64,
}
use capaz_os_kernel.Sched.Thread.{Sched, bootstrap_thread}
use capaz_os_kernel.Task.{Task, task_roll_window, task_account_cpu_tick}
use capaz_os_kernel.Sched.Switch.{sched_on_timer_tick, charge_tick, check_ceiling, use_slice}

-- The task of a thread after it was charged for the tick that comes.
abbrev pub charged : Sched → ℕ → Task
charged s t = task_account_cpu_tick (s.tasks (s.threads t).task) (add_u64 s.ticks 1)

-- The tick that comes takes the task of the current thread over its limit of CPU ticks for the window.
abbrev pub OverLimit : Sched → Type 0
OverLimit s =
    (s.current ≢ bootstrap_thread)
    × ((s.threads s.current).task ≢ 0)
    × ((s.tasks (s.threads s.current).task).cpu_ticks_limit ≢ 0)
    × ((s.tasks (s.threads s.current).task).cpu_ticks_limit
        < (charged s s.current).cpu_ticks_window)

-- A reschedule is due after the tick that comes: it was requested before, the slice is used up, or the
-- task is over its limit.
abbrev pub Due : Sched → Type 0
Due s =
    (s.need_resched ≡ true)
    ⊎ (((s.threads s.current).slice_ticks_budget ≤ add_u64 (s.threads s.current).slice_ticks_used 1)
        ⊎ OverLimit s)

-- `s'` is `s` after a tick: the clock and the slice of the current thread are one further, a reschedule
-- is requested just if it is due, the thread is demoted to the intent 3 just if its task is over the
-- limit, and the task's window is charged unless there is none.
pub record Ticked (s s' : Sched) : Type 0 where
  pub clock : s'.ticks ≡ add_u64 s.ticks 1
  pub used :
      (s'.threads s.current).slice_ticks_used ≡ add_u64 (s.threads s.current).slice_ticks_used 1
  pub resched : (Due s × (s'.need_resched ≡ true)) ⊎ ((Due s → ⊥) × (s'.need_resched ≡ false))
  pub demoted :
      (OverLimit s × ((s'.threads s.current).sched_intent ≡ 3))
      ⊎ ((OverLimit s → ⊥)
          × ((s'.threads s.current).sched_intent ≡ (s.threads s.current).sched_intent))
  pub window : (s'.tasks (s.threads s.current).task).cpu_ticks_window ≡ (
      if s.current == bootstrap_thread || (s.threads s.current).task == 0
      then (s.tasks (s.threads s.current).task).cpu_ticks_window
      else (charged s s.current).cpu_ticks_window)

charged_limit :
    (t : Task) (now : ℕ) → (task_account_cpu_tick t now).cpu_ticks_limit ≡ t.cpu_ticks_limit
unfolding task_account_cpu_tick task_roll_window
charged_limit t now = ground arith

module _ (s : Sched) (nonzero : s.current ≢ 0) where
  limit_kept :
      (charged s s.current).cpu_ticks_limit ≡ (s.tasks (s.threads s.current).task).cpu_ticks_limit
  limit_kept = charged_limit (s.tasks (s.threads s.current).task) (add_u64 s.ticks 1)

  tick_clock : (sched_on_timer_tick s).ticks ≡ add_u64 s.ticks 1
  unfolding sched_on_timer_tick charge_tick check_ceiling use_slice
  tick_clock = ground arith

  tick_used :
      ((sched_on_timer_tick s).threads s.current).slice_ticks_used
      ≡ add_u64 (s.threads s.current).slice_ticks_used 1
  unfolding sched_on_timer_tick charge_tick check_ceiling use_slice
  tick_used = ground (arith, nonzero)

  tick_resched :
      (Due s × ((sched_on_timer_tick s).need_resched ≡ true))
      ⊎ ((Due s → ⊥) × ((sched_on_timer_tick s).need_resched ≡ false))
  unfolding sched_on_timer_tick charge_tick check_ceiling use_slice
  tick_resched = ground (arith, nonzero, limit_kept)

  tick_demoted :
      (OverLimit s × (((sched_on_timer_tick s).threads s.current).sched_intent ≡ 3))
      ⊎ ((OverLimit s → ⊥)
          × (((sched_on_timer_tick s).threads s.current).sched_intent
              ≡ (s.threads s.current).sched_intent))
  unfolding sched_on_timer_tick charge_tick check_ceiling use_slice
  tick_demoted = ground (arith, nonzero, limit_kept)

  tick_window : ((sched_on_timer_tick s).tasks (s.threads s.current).task).cpu_ticks_window ≡ (
      if s.current == bootstrap_thread || (s.threads s.current).task == 0
      then (s.tasks (s.threads s.current).task).cpu_ticks_window
      else (charged s s.current).cpu_ticks_window)
  unfolding sched_on_timer_tick charge_tick check_ceiling use_slice
  tick_window = ground (arith, nonzero)

  pub tick-Ticked : Ticked s (sched_on_timer_tick s)
  tick-Ticked = record {
    clock = tick_clock;
    used = tick_used;
    resched = tick_resched;
    demoted = tick_demoted;
    window = tick_window;
  }
