-- ===== src/Sched/Pick.antt =====
-- Which ready queue runs next: `sched_pick_intent_locked` of sched/sched.c, with CONFIG_SCHED_INTENT
-- at its default of 1.
pub mod Fair
use capaz_os_kernel.Common.{
  ℕ, zero, suc, ◌+◌, ◌%◌, not, Option, none, some, ltb, ◌==◌, if◌then◌else◌,
}
use capaz_os_kernel.Sched.Intent.{
  Intent, interactive, latency, throughput, background, intent_index, sched_intent_sanitize,
}
use capaz_os_kernel.Sched.Thread.{Sched}
use capaz_os_kernel.Sched.RunQueue.{rq_pop_head_intent_locked}

abbrev pub pattern_len : ℕ
pattern_len = 13

-- `k_pick_pattern`.
unfoldable pub pick_pattern : ℕ → Intent
pick_pattern k =
    if ltb k 6
    then interactive
    else if ltb k 10
    then latency
    else if ltb k 12
    then throughput
    else background

-- The first loop, from offset i on with n rounds left: the index of the pattern that it stops at.
-- `tails` are the tails of the ready queues.
unfoldable pub scan_pattern : (ℕ → ℕ) → ℕ → ℕ → ℕ → Option ℕ
scan_pattern tails cursor zero i = none
scan_pattern tails cursor (suc n) i =
    let rest = scan_pattern tails cursor n (suc i) in
    let idx = (cursor + i) % pattern_len in
    if not (tails (intent_index (pick_pattern idx)) == 0) then some idx else rest

-- The second loop, and the last line.
unfoldable pub scan_queues : (ℕ → ℕ) → ℕ → ℕ → Intent
scan_queues tails zero i = background
scan_queues tails (suc n) i =
    let rest = scan_queues tails n (suc i) in
    if not (tails i == 0) then sched_intent_sanitize i else rest

-- The intent picked, and the new cursor.
unfoldable pub pick_intent : (ℕ → ℕ) → ℕ → Intent × ℕ
pick_intent tails cursor = elim (scan_pattern tails cursor pattern_len 0) [
  | some idx ↦ (pick_pattern idx, (idx + 1) % pattern_len)
  | none ↦ (scan_queues tails 4 0, cursor)
]

unfoldable pub sched_pick_intent_locked : Sched → Intent × Sched
sched_pick_intent_locked s =
    let (i, cursor) = pick_intent s.ready_tail s.pick_cursor in
    (i, record s { pick_cursor = cursor })

unfoldable pub rq_pop_best_locked : Sched → ℕ × Sched
rq_pop_best_locked s = let (i, s') = sched_pick_intent_locked s in rq_pop_head_intent_locked s' i
