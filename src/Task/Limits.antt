-- ===== src/Task/Limits.antt =====
-- What a task's limits guarantee, and the counters.
use capaz_os_kernel.Common.{
  ℕ, ◌+◌, ◌-◌, ◌≤◌, ◌<◌, ◌≡◌, ◌≢◌, refl, Bool, true, false, ◌==◌, if◌then◌else◌, arith, u64_mod,
}
use capaz_os_kernel.Sched.Intent.{Intent, intent_index, sched_intent_sanitize}
use capaz_os_kernel.Task.{
  Task, TaskContract, task_roll_window, task_set_contract, task_get_contract, task_allow_io,
  task_allow_mem_alloc, task_account_mem_alloc, task_account_mem_free,
}

-- The bytes of the window, and their limit, for one direction.
abbrev pub window_bytes : Task → Bool → ℕ
window_bytes t true = t.io_write_bytes_window
window_bytes t false = t.io_read_bytes_window

abbrev pub bytes_limit : Task → Bool → ℕ
bytes_limit t true = t.io_write_bytes_limit
bytes_limit t false = t.io_read_bytes_limit

-- What the roll leaves alone.
roll_keeps :
    (t : Task) (now : ℕ) (w : Bool) → bytes_limit (task_roll_window t now) w ≡ bytes_limit t w
unfolding task_roll_window
roll_keeps t now true = ground arith
roll_keeps t now false = ground arith

module _ (t : Task) (bytes now : ℕ) where
  abbrev rolled : Task
  rolled = task_roll_window t now

-- The test of `task_allow_io` can wrap: a request of `2 ^ 64 - k` bytes passes, whatever the limit,
-- once the window holds at least k bytes and no more than k above the limit.
pub io_limit_wraps :
    (t : Task) (k : ℕ) (is_write : Bool) (now : ℕ)
    → let used = window_bytes (task_roll_window t now) is_write in
      0 < k
      → k ≤ used
      → used < u64_mod
      → used - k ≤ bytes_limit t is_write
      → (task_allow_io t (u64_mod - k) is_write now).0 ≡ true
unfolding task_allow_io
io_limit_wraps t k true now p q r s = ground (arith, roll_keeps t now true)
io_limit_wraps t k false now p q r s = ground (arith, roll_keeps t now false)

-- A memory request that is allowed and then accounted stays within the limit, if there is one, and
-- the peak covers the current use.
pub mem_within_limit :
    (t : Task) (bytes : ℕ)
    → t.mem_bytes_limit ≢ 0
    → (task_allow_mem_alloc t bytes).0 ≡ true
    → let t' = task_account_mem_alloc (task_allow_mem_alloc t bytes).1 bytes in
      (t'.mem_bytes_current ≤ t.mem_bytes_limit) × (t'.mem_bytes_current ≤ t'.mem_bytes_peak)
unfolding task_allow_mem_alloc task_account_mem_alloc
mem_within_limit t bytes limited allowed = ground arith

-- Accounting an allocation and then its release gives the use that was there, if the sum did not
-- wrap, a release of as much as is in use or more leaves 0, and the peak does not fall.
pub mem_alloc_free :
    (t : Task) (bytes more : ℕ)
    → t.mem_bytes_current + bytes < u64_mod
    → t.mem_bytes_current + bytes ≤ more
    → let used = task_account_mem_alloc t bytes in
      ((task_account_mem_free used bytes).mem_bytes_current ≡ t.mem_bytes_current)
      × ((task_account_mem_free used more).mem_bytes_current ≡ 0)
      × (t.mem_bytes_peak ≤ (task_account_mem_free used bytes).mem_bytes_peak)
unfolding task_account_mem_alloc task_account_mem_free
mem_alloc_free t bytes more h g = ground arith

-- What a contract sets, `task_get_contract` reads back, with the intent made valid, the flags
-- cleared and a window of 0 ticks read as 100.
pub contract_roundtrip :
    (t : Task) (c : TaskContract) (now : ℕ)
    → task_get_contract (task_set_contract t c now) ≡ record c {
      intent = intent_index (sched_intent_sanitize c.intent);
      contract_flags = 0;
      window_ticks = if c.window_ticks == 0 then 100 else c.window_ticks;
    }
unfolding task_get_contract task_set_contract
contract_roundtrip t c now = refl
