-- ===== src/Sched/Remove.antt =====
-- Taking a thread out of the middle of a ready queue, and changing a thread's intent: `rq_remove_locked`
-- and `sched_set_thread_intent` of sched/sched.c. The walk round a circle has fuel, and is `none`
-- without it; a panic is `none` as well.
use capaz_os_kernel.Common.{
  ℕ, zero, suc, Bool, true, false, not, ◌&&◌, ◌||◌, Option, none, some, ◌==◌, if◌then◌else◌, update,
  ◌>>=◌,
}
use capaz_os_kernel.Sched.Intent.{intent_index, sched_intent_sanitize}
use capaz_os_kernel.Sched.Thread.{Sched, next_of, set_next, set_thread}
use capaz_os_kernel.Sched.RunQueue.{rq_insert_tail_locked, is_ready}

abbrev pub set_tail_at : Sched → ℕ → ℕ → Sched
set_tail_at s i p = record s { ready_tail = update s.ready_tail i p }

-- `cur` is taken out behind `prev`.
unfoldable pub unlink : Sched → ℕ → ℕ → ℕ → Sched
unlink s i prev cur =
    if cur == prev
    then set_next (set_tail_at s i 0) cur 0
    else let s' = set_next s prev (next_of s cur) in
      set_next (if s.ready_tail i == cur then set_tail_at s' i prev else s') cur 0

-- The do loop over queue i.
unfoldable pub remove_walk : ℕ → Sched → ℕ → ℕ → ℕ → ℕ → ℕ → Option (Bool × Sched)
remove_walk zero s i t tail prev cur = none
remove_walk (suc fuel) s i t tail prev cur =
    let rest = remove_walk fuel s i t tail cur (next_of s cur) in
    if cur == t
    then some (true, unlink s i prev cur)
    else if cur == tail
    then some (false, s)
    else rest

-- The queues from i on, with n left.
unfoldable pub remove_from : ℕ → Sched → ℕ → ℕ → ℕ → Option (Bool × Sched)
remove_from fuel s t zero i = some (false, s)
remove_from fuel s t (suc n) i =
    let rest = remove_from fuel s t n (suc i) in
    let tail = s.ready_tail i in
    if tail == 0 then rest else elim (remove_walk fuel s i t tail tail (next_of s tail)) [
      | none ↦ none
      | some (true, s') ↦ some (true, s')
      | some (false, s') ↦ rest
    ]

unfoldable pub rq_remove_locked : ℕ → Sched → ℕ → Option (Bool × Sched)
rq_remove_locked fuel s t = if t == 0 then some (false, s) else remove_from fuel s t 4 0

unfoldable pub sched_set_thread_intent : ℕ → Sched → ℕ → ℕ → Option Sched
sched_set_thread_intent fuel s t raw =
    let next_intent = intent_index (sched_intent_sanitize raw) in
    let was_ready = is_ready (s.threads t).state && not (next_of s t == 0) in
    if t == 0 || (s.threads t).sched_intent == next_intent then some s else do
      s' ← if was_ready then rq_remove_locked fuel s t >>= (λ r. some r.1) else some s
      (let s'' = set_thread s' t (record (s'.threads t) { sched_intent = next_intent }) in
          if was_ready then rq_insert_tail_locked s'' t else some s'')
