-- ===== src/Sched/Switch.antt =====
-- The scheduler's entry points, sched/sched.c, with the options of config.h at their defaults
-- (preemptive, CONFIG_SCHED_INTENT, CONFIG_RES_CEILINGS). A failed assertion or a panic is `none`.
-- The masking of interrupts round each body keeps it in one piece; `ctx_switch` saves and loads
-- registers, and what runs after it is the thread that is then `current`.
use capaz_os_kernel.Common.{
  ℕ, Bool, true, false, not, ◌&&◌, ◌||◌, Option, none, some, leb, ltb, ◌==◌, if◌then◌else◌, update,
  add_u64, ◌>>=◌,
}
use capaz_os_kernel.Sched.Intent.{Intent, interactive, latency, throughput, background}
use capaz_os_kernel.Task.{task_account_cpu_tick}
use capaz_os_kernel.Sched.Thread.{
  Thread, ThreadState, ready, running, blocked, dead, Sched, SchedStats, bootstrap_thread, next_of,
  set_thread, set_state,
}
use capaz_os_kernel.Sched.RunQueue.{rq_insert_tail_locked, intent_of}
use capaz_os_kernel.Sched.Pick.{rq_pop_best_locked}

unfoldable pub sched_slice_for_intent : Intent → ℕ
sched_slice_for_intent interactive = 2
sched_slice_for_intent latency = 3
sched_slice_for_intent throughput = 5
sched_slice_for_intent background = 8

unfoldable pub sched_note_run_intent : SchedStats → Intent → SchedStats
sched_note_run_intent st interactive = record st {
  intent_runs_interactive = add_u64 st.intent_runs_interactive 1;
}
sched_note_run_intent st latency = record st {
  intent_runs_latency = add_u64 st.intent_runs_latency 1;
}
sched_note_run_intent st throughput = record st {
  intent_runs_throughput = add_u64 st.intent_runs_throughput 1;
}
sched_note_run_intent st background = record st {
  intent_runs_background = add_u64 st.intent_runs_background 1;
}

-- The thread that `sched_prepare_running_locked` leaves.
abbrev pub started : Thread → Intent → Thread
started th i = record th {
  state = running;
  slice_ticks_budget = sched_slice_for_intent i;
  slice_ticks_used = 0;
}

unfoldable pub sched_prepare_running_locked : Sched → ℕ → Sched
sched_prepare_running_locked s t = if t == 0 then s else record s {
  threads = update s.threads t (started (s.threads t) (intent_of s t));
  stats = sched_note_run_intent s.stats (intent_of s t);
}

abbrev pub is_running : ThreadState → Bool
is_running running = true
is_running ready = false
is_running blocked = false
is_running dead = false

abbrev pub is_blocked : ThreadState → Bool
is_blocked blocked = true
is_blocked ready = false
is_blocked running = false
is_blocked dead = false

abbrev pub is_dead : ThreadState → Bool
is_dead dead = true
is_dead ready = false
is_dead running = false
is_dead blocked = false

unfoldable pub sched_enqueue : Sched → ℕ → Option Sched
sched_enqueue s t =
    if t == 0 || is_dead (s.threads t).state
    then some s
    else rq_insert_tail_locked (set_state s t ready) t

unfoldable pub sched_pick_next_locked : Sched → ℕ × Sched
sched_pick_next_locked s =
    let (next, s') = rq_pop_best_locked s in if next == 0 then (s'.current, s') else (next, s')

-- A running thread other than the bootstrap thread goes back to the ready queues.
unfoldable pub requeue : Sched → ℕ → Option Sched
requeue s t =
    if not (t == bootstrap_thread) && is_running (s.threads t).state
    then rq_insert_tail_locked (set_state s t ready) t
    else some s

-- `next` becomes the current thread.
unfoldable pub switch_to : Sched → ℕ → Sched
switch_to s next =
    let s' = sched_prepare_running_locked s next in
    record s' {
      current = next;
      stats = record (s'.stats) { context_switches = add_u64 s'.stats.context_switches 1 };
    }

unfoldable pub yield_to : ℕ → ℕ × Sched → Sched
yield_to prev (next, s) =
    if next == 0
    then s
    else if next == prev
    then sched_prepare_running_locked s prev
    else switch_to s next

unfoldable pub yield_call : Sched → Option Sched
yield_call s = if s.current == 0 || not (next_of s s.current == 0) then none else do
  s' ←
      requeue
        (record s {
          stats = record (s.stats) { yield_calls = add_u64 s.stats.yield_calls 1 };
          need_resched = false;
        })
        s.current
  some (yield_to s.current (sched_pick_next_locked s'))

unfoldable pub block_to : ℕ → ℕ × Sched → Sched
block_to prev (next, s) =
    if next == 0 || next == prev then set_state s prev running else switch_to s next

unfoldable pub sched_block_current : Sched → Option Sched
sched_block_current s =
    if s.current == 0 || (not (next_of s s.current == 0) || s.current == bootstrap_thread)
    then none
    else some (block_to s.current (sched_pick_next_locked (set_state s s.current blocked)))

unfoldable pub sched_wake : Sched → ℕ → Option Sched
sched_wake s t =
    if t == 0
    then some s
    else if is_blocked (s.threads t).state
    then rq_insert_tail_locked (set_state s t ready) t
    else some s

-- The ceiling on CPU time: a task past its limit is counted once for the window, and its thread is
-- demoted.
unfoldable pub check_ceiling : Sched → ℕ → ℕ → Sched
check_ceiling s cur task =
    let tk = s.tasks task in
    if not (tk.cpu_ticks_limit == 0) && ltb tk.cpu_ticks_limit tk.cpu_ticks_window
    then record s {
      tasks = update s.tasks task (
          if tk.cpu_ticks_window == add_u64 tk.cpu_ticks_limit 1
          then record tk { cpu_throttle_events = add_u64 tk.cpu_throttle_events 1 }
          else tk);
      threads = update s.threads cur (record (s.threads cur) { sched_intent = 3 });
      need_resched = true;
    }
    else s

unfoldable pub charge_tick : Sched → ℕ → Sched
charge_tick s cur =
    let th = s.threads cur in
    let s' =
      set_thread s cur (record th { runtime_ticks_total = add_u64 th.runtime_ticks_total 1 }) in
    if th.task == 0
    then s'
    else check_ceiling
        (record s' {
          tasks = update s'.tasks th.task (task_account_cpu_tick (s'.tasks th.task) s'.ticks);
        })
        cur th.task

unfoldable pub use_slice : Sched → ℕ → Sched
use_slice s cur =
    let th = s.threads cur in
    let used = add_u64 th.slice_ticks_used 1 in
    record (set_thread s cur (record th { slice_ticks_used = used })) {
      need_resched =
          s.need_resched || (th.slice_ticks_budget == 0 || leb th.slice_ticks_budget used);
    }

unfoldable pub sched_on_timer_tick : Sched → Sched
sched_on_timer_tick s =
    let s' = record s { ticks = add_u64 s.ticks 1 } in
    if s.current == 0
    then record s' { need_resched = true }
    else if s.current == bootstrap_thread
    then use_slice s' s.current
    else use_slice (charge_tick s' s.current) s.current
