-- ===== src/Sched/Returns.antt =====
-- `yield` of sched/sched.c returns, when the current thread's links and stack pointers are in order.
use capaz_os_kernel.Common.{ℕ, ◌≡◌, ◌≢◌, ◌⊎◌, ◌+◌, ◌≤◌, ◌<◌, ◌%◌, u64_mod}
use capaz_os_kernel.Sched.Thread.{Sched, Thread, bootstrap_thread, next_of}
use capaz_os_kernel.Sched.RunQueue.{trap_frame_bytes}

-- The saved frame of a thread lies on a 16-byte boundary within its kernel stack.
pub record InStack (th : Thread) : Type 0 where
  pub based : th.kstack_base ≢ 0
  pub sized : th.kstack_size ≢ 0
  pub above : th.kstack_base ≤ th.irq_sp
  pub below : th.irq_sp + trap_frame_bytes ≤ th.kstack_top
  pub top : th.kstack_top < u64_mod
  pub even : th.irq_sp % 16 ≡ 0

-- The thread is on no list, its saved frame is in its stack, unless it is the bootstrap thread, which
-- has none, and its saved stack pointer is a multiple of 16.
pub record Insertable (s : Sched) (t : ℕ) : Type 0 where
  pub unlinked : next_of s t ≡ 0
  pub stack : (t ≡ bootstrap_thread) ⊎ InStack (s.threads t)
  pub aligned : (s.threads t).ctx_sp % 16 ≡ 0
