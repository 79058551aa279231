-- ===== src/Cap.antt =====
-- The capability system, Kern/Kernel/cap: handles, tables of entries and the operations on them.
pub mod Types
pub mod Table
pub mod Ops
