-- ===== src/Tests/Tasks.antt =====
-- Task accounting on concrete inputs.
use capaz_os_kernel.Common.{◌≡◌, ◌-◌, refl, true, arith, u64_mod}
use capaz_os_kernel.Task.{Task, TaskContract, task_init, task_roll_window, task_allow_io}
use capaz_os_kernel.Task.Limits.{io_limit_wraps}

-- A task with 50 bytes written of 100 in the window that started at tick 200.
abbrev writer : Task
unfolding task_init
writer = record (task_init 1) {
  io_write_bytes_limit = 100;
  io_write_bytes_window = 50;
  mem_bytes_limit = 64;
  mem_bytes_current = 32;
  mem_bytes_peak = 40;
  window_start_tick = 200;
}

rolled_far : (task_roll_window writer 777).window_start_tick ≡ 700
unfolding task_roll_window writer
rolled_far = refl

io_limit_wraps_example : (task_allow_io writer (u64_mod - 10) true 250).0 ≡ true
unfolding task_init task_roll_window
io_limit_wraps_example =
    io_limit_wraps writer 10 true 250 (omega arith) (omega arith) (omega arith) (omega arith)

abbrev asked : TaskContract
asked = record {
  intent = 77;
  contract_flags = 5;
  window_ticks = 0;
  cpu_limit = 10;
  io_read_limit = 0;
  io_write_limit = 512;
  mem_limit = 4096;
}
