-- ===== src/Task.antt =====
-- task/task.c and task.h: a task's contract, and the accounting of what it uses against its limits.
-- The functions stand behind the source's NULL checks, which return at once (and allow).
pub mod Window
pub mod Limits
pub mod Counters
use capaz_os_kernel.Common.{
  ℕ, ◌+◌, ◌-◌, ◌/◌, Bool, true, false, not, ◌&&◌, ltb, ◌==◌, if◌then◌else◌, add_u64, mul_u64,
}
use capaz_os_kernel.Sched.Intent.{
  Intent, interactive, latency, throughput, background, intent_index, sched_intent_sanitize,
}

pub record Task : Type 0 where
  pub id : ℕ
  pub caps : ℕ
  pub self_cap : ℕ
  pub console_ep_cap : ℕ
  pub uart_cmd_ep_cap : ℕ
  pub uart_evt_ep_cap : ℕ
  pub kernel_log_send_cap : ℕ
  pub kernel_log_recv_cap : ℕ
  pub default_intent : Intent
  pub limit_window_ticks : ℕ
  pub cpu_ticks_limit : ℕ
  pub io_read_bytes_limit : ℕ
  pub io_write_bytes_limit : ℕ
  pub mem_bytes_limit : ℕ
  pub window_start_tick : ℕ
  pub cpu_ticks_window : ℕ
  pub io_read_bytes_window : ℕ
  pub io_write_bytes_window : ℕ
  pub cpu_ticks_total : ℕ
  pub io_read_bytes_total : ℕ
  pub io_write_bytes_total : ℕ
  pub mem_bytes_current : ℕ
  pub mem_bytes_peak : ℕ
  pub io_ops_total : ℕ
  pub io_ops_background : ℕ
  pub io_ops_latency : ℕ
  pub io_ops_throughput : ℕ
  pub io_ops_interactive : ℕ
  pub cpu_throttle_events : ℕ
  pub io_throttle_events : ℕ
  pub mem_throttle_events : ℕ

pub record TaskContract : Type 0 where
  pub intent : ℕ
  pub contract_flags : ℕ
  pub window_ticks : ℕ
  pub cpu_limit : ℕ
  pub io_read_limit : ℕ
  pub io_write_limit : ℕ
  pub mem_limit : ℕ

unfoldable pub saturating_sub_u64 : ℕ → ℕ → ℕ
saturating_sub_u64 a b = if ltb b a then a - b else 0

-- `window` of `task_roll_window`.
abbrev pub window_length : Task → ℕ
window_length t = if t.limit_window_ticks == 0 then 1 else t.limit_window_ticks

abbrev pub restart_window : Task → ℕ → Task
restart_window t start = record t {
  window_start_tick = start;
  cpu_ticks_window = 0;
  io_read_bytes_window = 0;
  io_write_bytes_window = 0;
}

-- The number of whole windows that have passed, which the source keeps from being 0.
abbrev pub spans_passed : Task → ℕ → ℕ
spans_passed t now_tick =
    let spans = (now_tick - t.window_start_tick) / window_length t in
    if spans == 0 then 1 else spans

unfoldable pub task_roll_window : Task → ℕ → Task
task_roll_window t now_tick =
    if ltb now_tick t.window_start_tick
    then restart_window t now_tick
    else if ltb (now_tick - t.window_start_tick) (window_length t)
    then t
    else restart_window t
        (add_u64 t.window_start_tick (mul_u64 (spans_passed t now_tick) (window_length t)))

unfoldable pub task_init : ℕ → Task
task_init caps = record {
  id = 0;
  caps = caps;
  self_cap = 0;
  console_ep_cap = 0;
  uart_cmd_ep_cap = 0;
  uart_evt_ep_cap = 0;
  kernel_log_send_cap = 0;
  kernel_log_recv_cap = 0;
  default_intent = interactive;
  limit_window_ticks = 100;
  cpu_ticks_limit = 0;
  io_read_bytes_limit = 0;
  io_write_bytes_limit = 0;
  mem_bytes_limit = 0;
  window_start_tick = 0;
  cpu_ticks_window = 0;
  io_read_bytes_window = 0;
  io_write_bytes_window = 0;
  cpu_ticks_total = 0;
  io_read_bytes_total = 0;
  io_write_bytes_total = 0;
  mem_bytes_current = 0;
  mem_bytes_peak = 0;
  io_ops_total = 0;
  io_ops_background = 0;
  io_ops_latency = 0;
  io_ops_throughput = 0;
  io_ops_interactive = 0;
  cpu_throttle_events = 0;
  io_throttle_events = 0;
  mem_throttle_events = 0;
}

unfoldable pub task_set_contract : Task → TaskContract → ℕ → Task
task_set_contract t contract now_tick = record t {
  default_intent = sched_intent_sanitize contract.intent;
  limit_window_ticks = if contract.window_ticks == 0 then 100 else contract.window_ticks;
  cpu_ticks_limit = contract.cpu_limit;
  io_read_bytes_limit = contract.io_read_limit;
  io_write_bytes_limit = contract.io_write_limit;
  mem_bytes_limit = contract.mem_limit;
  window_start_tick = now_tick;
  cpu_ticks_window = 0;
  io_read_bytes_window = 0;
  io_write_bytes_window = 0;
}

unfoldable pub task_get_contract : Task → TaskContract
task_get_contract t = record {
  intent = intent_index t.default_intent;
  contract_flags = 0;
  window_ticks = t.limit_window_ticks;
  cpu_limit = t.cpu_ticks_limit;
  io_read_limit = t.io_read_bytes_limit;
  io_write_limit = t.io_write_bytes_limit;
  mem_limit = t.mem_bytes_limit;
}

unfoldable pub task_account_cpu_tick : Task → ℕ → Task
task_account_cpu_tick t now_tick =
    let r = task_roll_window t now_tick in
    record r {
      cpu_ticks_total = add_u64 r.cpu_ticks_total 1;
      cpu_ticks_window = add_u64 r.cpu_ticks_window 1;
    }

abbrev pub exceeds : ℕ → ℕ → ℕ → Bool
exceeds limit used bytes = not (limit == 0) && ltb limit (add_u64 used bytes)

unfoldable pub task_allow_io : Task → ℕ → Bool → ℕ → Bool × Task
task_allow_io t bytes is_write now_tick =
    let r = task_roll_window t now_tick in
    let throttled = record r { io_throttle_events = add_u64 r.io_throttle_events 1 } in
    if is_write
    then (if exceeds r.io_write_bytes_limit r.io_write_bytes_window bytes
        then (false, throttled)
        else (true, r))
    else (if exceeds r.io_read_bytes_limit r.io_read_bytes_window bytes
        then (false, throttled)
        else (true, r))

abbrev pub count_bytes : Task → ℕ → Bool → Task
count_bytes t bytes true = record t {
  io_write_bytes_total = add_u64 t.io_write_bytes_total bytes;
  io_write_bytes_window = add_u64 t.io_write_bytes_window bytes;
}
count_bytes t bytes false = record t {
  io_read_bytes_total = add_u64 t.io_read_bytes_total bytes;
  io_read_bytes_window = add_u64 t.io_read_bytes_window bytes;
}

abbrev pub count_op : Task → Intent → Task
count_op t interactive = record t { io_ops_interactive = add_u64 t.io_ops_interactive 1 }
count_op t latency = record t { io_ops_latency = add_u64 t.io_ops_latency 1 }
count_op t throughput = record t { io_ops_throughput = add_u64 t.io_ops_throughput 1 }
count_op t background = record t { io_ops_background = add_u64 t.io_ops_background 1 }

unfoldable pub task_account_io : Task → ℕ → Bool → ℕ → ℕ → Task
task_account_io t bytes is_write intent now_tick =
    let r = count_bytes (task_roll_window t now_tick) bytes is_write in
    count_op (record r { io_ops_total = add_u64 r.io_ops_total 1 }) (sched_intent_sanitize intent)

unfoldable pub task_allow_mem_alloc : Task → ℕ → Bool × Task
task_allow_mem_alloc t bytes =
    if t.mem_bytes_limit == 0
    then (true, t)
    else if ltb t.mem_bytes_limit (add_u64 t.mem_bytes_current bytes)
    then (false, record t { mem_throttle_events = add_u64 t.mem_throttle_events 1 })
    else (true, t)

unfoldable pub task_account_mem_alloc : Task → ℕ → Task
task_account_mem_alloc t bytes =
    let r = record t { mem_bytes_current = add_u64 t.mem_bytes_current bytes } in
    if ltb r.mem_bytes_peak r.mem_bytes_current
    then record r { mem_bytes_peak = r.mem_bytes_current }
    else r

unfoldable pub task_account_mem_free : Task → ℕ → Task
unfolding saturating_sub_u64
task_account_mem_free t bytes = record t {
  mem_bytes_current = saturating_sub_u64 t.mem_bytes_current bytes;
}
