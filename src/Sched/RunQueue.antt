-- ===== src/Sched/RunQueue.antt =====
-- The ready queues of sched/sched.c: one circular list for each intent, known by its tail. A panic is
-- `none`.
pub mod Lists
pub mod Refine
use capaz_os_kernel.Common.{
  ℕ, ◌+◌, ◌%◌, Bool, true, false, not, ◌&&◌, ◌||◌, Option, none, some, leb, ltb, ◌==◌,
  if◌then◌else◌, update, add_u64,
}
use capaz_os_kernel.Sched.Intent.{Intent, intent_index, sched_intent_sanitize}
use capaz_os_kernel.Sched.Thread.{
  Thread, ThreadState, ready, running, blocked, dead, Sched, bootstrap_thread, next_of, set_next,
  set_tail,
}

-- `sizeof(trap_frame_t)`.
abbrev pub trap_frame_bytes : ℕ
trap_frame_bytes = 304

abbrev pub is_ready : ThreadState → Bool
is_ready ready = true
is_ready running = false
is_ready blocked = false
is_ready dead = false

-- The assertions of `sched_validate_irq_sp`.
unfoldable pub irq_sp_valid : ℕ → Thread → Bool
irq_sp_valid t th =
    t == 0
    || (t == bootstrap_thread
        || (not (th.kstack_base == 0)
            && (not (th.kstack_top == 0)
                && (not (th.kstack_size == 0)
                    && (not (th.irq_sp == 0)
                        && (th.irq_sp % 16 == 0
                            && (leb th.kstack_base th.irq_sp
                                && leb (add_u64 th.irq_sp trap_frame_bytes) th.kstack_top)))))))

abbrev pub rq_empty_intent : Sched → Intent → Bool
rq_empty_intent s i = s.ready_tail (intent_index i) == 0

abbrev pub intent_of : Sched → ℕ → Intent
intent_of s t = sched_intent_sanitize (s.threads t).sched_intent

-- The writes of `rq_insert_tail_locked`, behind its checks.
unfoldable pub link_tail : Sched → ℕ → Intent → Sched
link_tail s t i =
    let tail = s.ready_tail (intent_index i) in
    if tail == 0
    then set_tail (set_next s t t) i t
    else set_tail (set_next (set_next s t (next_of s tail)) tail t) i t

unfoldable pub rq_insert_tail_locked : Sched → ℕ → Option Sched
rq_insert_tail_locked s t =
    if t == 0
    then some s
    else if not (next_of s t == 0)
        || (not (is_ready (s.threads t).state)
            || (not (irq_sp_valid t (s.threads t))
                || (not ((s.threads t).ctx_sp == 0) && not ((s.threads t).ctx_sp % 16 == 0))))
    then none
    else some (link_tail s t (intent_of s t))

-- The thread taken out, 0 if the queue is empty.
unfoldable pub rq_pop_head_intent_locked : Sched → Intent → ℕ × Sched
rq_pop_head_intent_locked s i =
    let tail = s.ready_tail (intent_index i) in
    let head = next_of s tail in
    if tail == 0
    then (0, s)
    else if head == tail
    then (head, set_next (set_tail s i 0) head 0)
    else (head, set_next (set_next s tail (next_of s head)) head 0)
