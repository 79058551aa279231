-- ===== src/Sched.antt =====
-- The scheduler and its tools, Kern/Kernel/sched.
pub mod DeadlineQueue
pub mod Intent
pub mod Ring
pub mod Thread
pub mod RunQueue
pub mod Pick
pub mod Switch
pub mod Preempt
pub mod Remove
pub mod States
pub mod Invariant
pub mod Picked
pub mod Steps
pub mod Sleep
pub mod Tick
pub mod Charge
pub mod Exit
pub mod Returns
