-- ===== src/Task/Counters.antt =====
-- The counters of a task over any history of calls.
use capaz_os_kernel.Common.{
  ℕ, ◌+◌, ◌%◌, ◌≤◌, ◌≡◌, Bool, true, false, arith, List, [], ◌∷◌, u64_mod, add_u64,
}
use capaz_os_kernel.Sched.Intent.{Intent, interactive, sched_intent_sanitize}
use capaz_os_kernel.Task.{
  Task, TaskContract, task_init, task_roll_window, task_set_contract, task_account_cpu_tick,
  task_allow_io, task_account_io, task_allow_mem_alloc, task_account_mem_alloc,
  task_account_mem_free, count_op, count_bytes,
}

pub data TaskCall : Type 0 where
  set_contract : TaskContract → ℕ → TaskCall
  cpu_tick : ℕ → TaskCall
  allow_io account_io : ℕ → Bool → ℕ → ℕ → TaskCall
  allow_mem alloc_mem free_mem : ℕ → TaskCall

pub call : TaskCall → Task → Task
call (set_contract c now) t = task_set_contract t c now
call (cpu_tick now) t = task_account_cpu_tick t now
call (allow_io bytes w intent now) t = (task_allow_io t bytes w now).1
call (account_io bytes w intent now) t = task_account_io t bytes w intent now
call (allow_mem bytes) t = (task_allow_mem_alloc t bytes).1
call (alloc_mem bytes) t = task_account_mem_alloc t bytes
call (free_mem bytes) t = task_account_mem_free t bytes

pub calls : List TaskCall → Task → Task
calls [] t = t
calls (c ∷ cs) t = calls cs (call c t)

-- The operations counted by intent add up to the operations counted in all, as 64-bit words, and
-- the peak of memory use covers the present use.
pub record Consistent (t : Task) : Type 0 where
  pub ops :
      t.io_ops_total
      ≡ (t.io_ops_interactive + t.io_ops_latency + t.io_ops_throughput + t.io_ops_background)
        % u64_mod
  pub peak : t.mem_bytes_current ≤ t.mem_bytes_peak

roll-Consistent : (t : Task) (now : ℕ) → Consistent t → Consistent (task_roll_window t now)
unfolding task_roll_window
roll-Consistent t now h = ground arith

bytes-Consistent : (t : Task) (n : ℕ) (w : Bool) → Consistent t → Consistent (count_bytes t n w)
bytes-Consistent t n true h = ground arith
bytes-Consistent t n false h = ground arith

op-Consistent :
    (t : Task) (i : Intent)
    → Consistent t
    → Consistent (count_op (record t { io_ops_total = add_u64 t.io_ops_total 1 }) i)
op-Consistent t interactive h = ground arith
op-Consistent t _ h = ground arith

call-Consistent : (c : TaskCall) (t : Task) → Consistent t → Consistent (call c t)
unfolding call task_set_contract task_account_cpu_tick task_account_io task_allow_io
    task_allow_mem_alloc task_account_mem_alloc task_account_mem_free
call-Consistent (set_contract c now) t h = ground arith
call-Consistent (cpu_tick now) t h = ground (arith, roll-Consistent t now h)
call-Consistent (allow_io bytes true intent now) t h = ground (arith, roll-Consistent t now h)
call-Consistent (allow_io bytes false intent now) t h = ground (arith, roll-Consistent t now h)
call-Consistent (account_io bytes w intent now) t h =
    op-Consistent (count_bytes (task_roll_window t now) bytes w) (sched_intent_sanitize intent)
      (bytes-Consistent (task_roll_window t now) bytes w (roll-Consistent t now h))
call-Consistent (allow_mem bytes) t h = ground arith
call-Consistent (alloc_mem bytes) t h = ground arith
call-Consistent (free_mem bytes) t h = ground arith

-- After any calls on a fresh task the operations counted by intent add up to those counted in all,
-- as 64-bit words, and the peak of memory use covers the present use.
pub calls-Consistent : (caps : ℕ) (cs : List TaskCall) → Consistent (calls cs (task_init caps))
unfolding calls task_init
calls-Consistent caps cs = go cs (task_init caps) (omega arith)
  where
    go : (cs : List TaskCall) (t : Task) → Consistent t → Consistent (calls cs t)
    go [] t h = h
    go (c ∷ cs) t h = go cs (call c t) (call-Consistent c t h)
