-- ===== src/Tests.antt =====
-- The components on concrete inputs.
mod Caps
mod Deadlines
mod Tasks
mod Machine
mod Queues
mod Running
mod Work
mod Ipc
mod Platform
mod Pages
mod Booted
mod Memory
mod Heap
mod Irq
mod Trees
mod Objects
