-- ===== src/Lib.antt =====
-- A model of the CapazOS kernel (Kern/Kernel), with the theorems that make its components correct.
--
-- The kernel runs on one CPU. Threads are scheduled from four ready queues, one for each intent; a
-- thread belongs to a task, which has limits. Objects are reached through capabilities, which stand in
-- a table of each task; an endpoint is such an object, and a message sent to it wakes the thread that
-- waits there. Interrupt handlers post work items, which a thread takes out. So the parts use each
-- other in this order: capabilities and tasks stand alone, the scheduler charges tasks, endpoints use
-- capabilities and the scheduler. Below them the platform layer computes which ranges of RAM are free,
-- from the device tree, the page allocator hands out their pages, and the heap cuts these into blocks.
--
--   Common          numbers, tests, arrays, fixed-width arithmetic, lists and paths of links
--   Cap             Kern/Kernel/cap: Types (cap_types.h, cap_rights.h, cap_entry.h, cap_status_ks.c),
--                   Table (cap_table.c), Ops (cap_ops.c)
--   Task            Kern/Kernel/task/task.c
--   Sched           Kern/Kernel/sched: Intent (intent.h), Thread (thread.h and the statics of sched.c),
--                   RunQueue, Pick, Switch, Remove (sched.c), Preempt (preempt.c, and of sched.c
--                   sched_irq_exit, sched_init_bootstrap and sched_get_stats), DeadlineQueue
--                   (deadline_queue.c)
--   Work            Kern/Kernel/work/work_queue.c
--   Ipc             Kern/Kernel/ipc/endpoint.c and ipc_message.c
--   Board           Kern/Board/virt/board_config.h, Kern/Platform/platform_config.h,
--                   Kern/Arch/aarch64/arch_config.h
--   Slab            Kern/Kernel/alloc/slab_cache.c
--   Dtb             Kern/Kernel/platform/dtb.c: the parser of the device tree, whose two walks over the
--                   structure block are one definition with a mode; what it keeps for the memory map
--                   are the ranges of the record Machine
--   Platform        Kern/Kernel/platform/platform.c
--   Pmm             Kern/Kernel/mm/pmm.c: the bitmap and its calls; Init has pmm_init and the statistics
--   Memory          Kern/Kernel/mm/mem.c
--   Heap            Kern/Kernel/kheap.c
--   Irq             Kern/Kernel/irg/irq.c, with the handlers and the controller as arguments
--   Sched/Ring, Fifo  the circular and the straight lists of links that the queues above are
--   Tests           concrete inputs
--
-- Each function of the source is a definition of the same name; a part of a function that is one of
-- its own here has a comment. State is passed: a function takes the state and returns the new one. An
-- object behind a pointer stands in a store, a function from addresses, and 0 is NULL. An array is a
-- function from indices, `update` writes to it. A function that only guards its pointers by NULL
-- checks stands behind them where its comment says so. A panic or a failed assertion is `none`.
-- Masking interrupts makes the code between in one step. Counters of 64 and 32 bits wrap (add_u64,
-- add_u32, sub_u64, mul_u64); a subtraction that is guarded in the source is the one that stops at 0.
--
-- What comes from outside is an argument: `mem` is whether cap_entry_alloc had memory, and the address
-- that slab_alloc returned stands where an endpoint, a message or a work item is made. Registers that
-- ctx_switch and the trap frames save are not modelled; a thread's stack pointers are, since the
-- scheduler checks them. The options are the defaults of Kern/Kernel/config.h. SCHED_DEBUG's
-- rq_validate only asserts and is left out.
--
-- Bounds: a capability table has 256 slots and a deadline queue 64 items, and loops over them are
-- recursion on what is left of them. The pick pattern has 13 places. The walk round a queue in
-- rq_remove_locked takes fuel, and so does the search for the end of a string in strlen. The array of usable
-- ranges has 64 places, the reserved ranges 128, of which the code uses 68 at most. The 256 rounds
-- that fill a bucket are the number of the smallest blocks in a page.
-- The 512 rounds that fill a page of a slab cache are the number of the smallest objects in a page.
-- The fuel of a walk over the device tree bounds its tokens, the search for the end of a node's name and
-- the loop over the tuples of a property: one for each token, each letter of a node's name and each byte
-- of a property is enough.
--
-- Not modelled: the drivers under Kern/HAL and Kern/Kernel/dev, the page tables (mmu.c), the boot code
-- and the loader, which work on registers and assembly; the searches of dtb.c for a node by its path,
-- for the console and for the virtio transports, and its dumps; the Core in Swift, which
-- is policy above the kernel.
pub mod Common
pub mod Cap
pub mod Sched
pub mod Task
pub mod Work
pub mod Fifo
pub mod Ipc
pub mod Board
pub mod Platform
pub mod Pmm
pub mod Memory
pub mod Heap
pub mod Irq
pub mod Dtb
pub mod Slab
mod Tests
