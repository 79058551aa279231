-- ===== src/Tests/Machine.antt =====
-- A small machine: thread 2 runs, thread 3 is ready and alone in the interactive queue.
use capaz_os_kernel.Common.{ℕ, ◌==◌, if◌then◌else◌, false}
use capaz_os_kernel.Task.{task_init}
use capaz_os_kernel.Sched.Thread.{Thread, ThreadState, ready, running, Sched}
use capaz_os_kernel.Sched.Preempt.{no_stats}

-- A thread with its stack at 65536.
abbrev pub worker : ThreadState → ℕ → Thread
worker st next = record {
  ctx_sp = 0;
  tid = 7;
  task = 0;
  kstack_base = 65536;
  kstack_size = 16384;
  kstack_top = 81920;
  rq_next = next;
  last_trap = 0;
  irq_sp = 80000;
  sched_intent = 0;
  slice_ticks_budget = 2;
  slice_ticks_used = 0;
  runtime_ticks_total = 0;
  preemptions = 0;
  state = st;
}

abbrev pub machine : (ℕ → Thread) → (ℕ → ℕ) → Sched
machine threads tails = record {
  threads = threads;
  ready_tail = tails;
  current = 2;
  ticks = 0;
  stats = no_stats;
  pick_cursor = 0;
  need_resched = false;
  preempt_count = 0;
  tasks = λ _. task_init 0;
}

-- Thread 3 is not in a queue yet.
abbrev pub before : Sched
before = machine (λ t. if t == 2 then worker running 0 else worker ready 0) (λ _. 0)

abbrev pub start : Sched
start =
    machine
      (λ t. if t == 2 then worker running 0 else if t == 3 then worker ready 3 else worker ready 0)
      (λ i. if i == 0 then 3 else 0)
