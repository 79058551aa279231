-- ===== src/Sched/DeadlineQueue.antt =====
-- deadline_queue.c: a bounded queue of deadlines in an array, searched for its least. The functions
-- stand behind the source's NULL checks; an item that goes through `out` is an option, `none`
-- where the source returns false.
pub mod Min
pub mod Laws
pub mod Drain
use capaz_os_kernel.Common.{
  ℕ, zero, suc, ◌+◌, ◌-◌, Bool, true, false, not, Option, none, some, List, [], ◌∷◌, ltb, leb, ◌==◌,
  if◌then◌else◌, update, slice,
}

abbrev pub dlq_max_items : ℕ
dlq_max_items = 64

pub record DlqItem : Type 0 where
  pub deadline : ℕ
  pub cookie : ℕ

pub record DeadlineQueue : Type 0 where
  pub items : ℕ → DlqItem
  pub count : ℕ

-- The loop of `dlq_find_min_index`, with `n` rounds left.
unfoldable pub scan : (ℕ → DlqItem) → ℕ → ℕ → ℕ → ℕ → ℕ
scan items zero i best best_deadline = best
scan items (suc n) i best best_deadline =
    let here = scan items n (suc i) i (items i).deadline in
    let on = scan items n (suc i) best best_deadline in
    if ltb (items i).deadline best_deadline then here else on

-- `none` is the -1 of the source.
unfoldable pub dlq_find_min_index : DeadlineQueue → Option ℕ
dlq_find_min_index q =
    if q.count == 0 then none else some (scan q.items (q.count - 1) 1 0 (q.items 0).deadline)

unfoldable pub dlq_init : DeadlineQueue → DeadlineQueue
dlq_init q = record q { count = 0 }

unfoldable pub dlq_push : DeadlineQueue → ℕ → ℕ → Bool × DeadlineQueue
dlq_push q deadline cookie = if leb dlq_max_items q.count then (false, q) else (
  true,
  record {
    items = update q.items q.count (record { deadline = deadline; cookie = cookie });
    count = q.count + 1;
  },
)

unfoldable pub dlq_peek_next : DeadlineQueue → Option DlqItem
dlq_peek_next q = elim (dlq_find_min_index q) [ none ↦ none | some idx ↦ some (q.items idx) ]

-- The last item takes the place of the one removed.
unfoldable pub remove_at : DeadlineQueue → ℕ → DeadlineQueue
remove_at q idx =
    if not (idx == q.count - 1)
    then record { items = update q.items idx (q.items (q.count - 1)); count = q.count - 1 }
    else record q { count = q.count - 1 }

unfoldable pub dlq_pop_next : DeadlineQueue → Option (DlqItem × DeadlineQueue)
dlq_pop_next q = elim (dlq_find_min_index q) [
  | none ↦ none
  | some idx ↦ some (q.items idx, remove_at q idx)
]

-- What the queue holds.
abbrev pub contents : DeadlineQueue → List DlqItem
contents q = slice q.items 0 q.count
