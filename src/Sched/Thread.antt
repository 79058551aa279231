-- ===== src/Sched/Thread.antt =====
-- Threads and the scheduler's state: sched/thread.h and the statics of sched/sched.c. Threads are a
-- store by address; 0 is NULL. Of a context only the stack pointer is kept, which the scheduler reads.
use capaz_os_kernel.Common.{ℕ, Bool, update}
use capaz_os_kernel.Sched.Intent.{Intent, intent_index}
use capaz_os_kernel.Task.{Task}

pub data ThreadState : Type 0 where
  ready running blocked dead : ThreadState

pub record Thread : Type 0 where
  pub ctx_sp : ℕ
  pub tid : ℕ
  pub task : ℕ
  pub kstack_base : ℕ
  pub kstack_size : ℕ
  pub kstack_top : ℕ
  pub rq_next : ℕ
  pub last_trap : ℕ
  pub irq_sp : ℕ
  pub sched_intent : ℕ
  pub slice_ticks_budget : ℕ
  pub slice_ticks_used : ℕ
  pub runtime_ticks_total : ℕ
  pub preemptions : ℕ
  pub state : ThreadState

pub record SchedStats : Type 0 where
  pub context_switches : ℕ
  pub yield_calls : ℕ
  pub preempt_switches : ℕ
  pub intent_runs_interactive : ℕ
  pub intent_runs_latency : ℕ
  pub intent_runs_throughput : ℕ
  pub intent_runs_background : ℕ

-- `need_resched` and `preempt_count` are the CPU's, of preempt.c.
pub record Sched : Type 0 where
  pub threads : ℕ → Thread
  pub ready_tail : ℕ → ℕ
  pub current : ℕ
  pub ticks : ℕ
  pub stats : SchedStats
  pub pick_cursor : ℕ
  pub need_resched : Bool
  pub preempt_count : ℕ
  pub tasks : ℕ → Task

-- The address of the static bootstrap thread. Nothing depends on which address it is.
abbrev pub bootstrap_thread : ℕ
bootstrap_thread = 1

abbrev pub next_of : Sched → ℕ → ℕ
next_of s t = (s.threads t).rq_next

abbrev pub with_next : Thread → ℕ → Thread
with_next t p = record t { rq_next = p }

abbrev pub with_state : Thread → ThreadState → Thread
with_state t st = record t { state = st }

abbrev pub set_thread : Sched → ℕ → Thread → Sched
set_thread s t th = record s { threads = update s.threads t th }

abbrev pub set_next : Sched → ℕ → ℕ → Sched
set_next s t p = set_thread s t (with_next (s.threads t) p)

abbrev pub set_state : Sched → ℕ → ThreadState → Sched
set_state s t st = set_thread s t (with_state (s.threads t) st)

abbrev pub set_tail : Sched → Intent → ℕ → Sched
set_tail s i p = record s { ready_tail = update s.ready_tail (intent_index i) p }
