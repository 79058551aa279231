-- ===== src/Work.antt =====
-- The deferred work queue, work/work_queue.c. Items are a store by address, 0 is NULL. What
-- `slab_alloc` returns is an argument, with 0 for no memory. The context is asserted in thread or
-- interrupt code and each body runs with interrupts masked, so a call is one step.
pub mod Order
use capaz_os_kernel.Common.{
  ℕ, Bool, true, false, ◌||◌, ◌==◌, if◌then◌else◌, update, ◌≡◌, ◌≢◌, refl, ap, subst, sym, ◌∙◌,
  fun_ext, arith, List, [], ◌∷◌, ◌++◌,
}
use capaz_os_kernel.Common.Links.{NotIn}
use capaz_os_kernel.Fifo.{Line, end_link, end_head, push-Line, pop-Line, empty_head}

pub record WorkItem : Type 0 where
  pub fn : ℕ
  pub arg : ℕ
  pub next : ℕ

-- A queue with the store of items.
pub record Workq : Type 0 where
  pub items : ℕ → WorkItem
  pub head : ℕ
  pub tail : ℕ

abbrev pub link : Workq → ℕ → ℕ
link q p = (q.items p).next

abbrev pub set_link : Workq → ℕ → ℕ → Workq
set_link q p v = record q { items = update q.items p (record (q.items p) { next = v }) }

-- `it` is what `slab_alloc` returned.
unfoldable pub work_item_alloc : Workq → ℕ → ℕ → ℕ → ℕ × Workq
work_item_alloc q it fn arg =
    if it == 0
    then (0, q)
    else (it, record q { items = update q.items it (record { fn = fn; arg = arg; next = 0 }) })

unfoldable pub workq_init : Workq → Workq
workq_init q = record q { head = 0; tail = 0 }

unfoldable pub workq_enqueue_from_irq : Workq → ℕ → Bool × Workq
workq_enqueue_from_irq q item =
    if item == 0 || (q.items item).fn == 0
    then (false, q)
    else let q' = set_link q item 0 in
      if q'.tail == 0
      then (true, record q' { head = item; tail = item })
      else (true, record (set_link q' q'.tail item) { tail = item })

-- The item taken out, 0 if there is none.
unfoldable pub workq_dequeue : Workq → ℕ × Workq
workq_dequeue q =
    let it = q.head in
    if it == 0
    then (0, q)
    else let rest = link q it in
      let q' = record q { head = rest; tail = if rest == 0 then 0 else q.tail } in
      (it, set_link q' it 0)
