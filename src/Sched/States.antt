-- ===== src/Sched/States.antt =====
-- Which states of threads, and which current thread, the steps of sched/sched.c leave.
use capaz_os_kernel.Common.{
  ℕ, ◌||◌, ◌==◌, ◌≡◌, ◌≢◌, ◌<◌, inl, inr, subst, sym, ◌∙◌, arith, some, Option-cases, Bool-cases,
}
use capaz_os_kernel.Sched.Intent.{Intent}
use capaz_os_kernel.Sched.Thread.{ThreadState, running, blocked, Sched, set_state, next_of}
use capaz_os_kernel.Sched.RunQueue.{rq_pop_head_intent_locked, rq_insert_tail_locked, link_tail}
use capaz_os_kernel.Sched.Pick.{
  pick_intent, rq_pop_best_locked, sched_pick_intent_locked, scan_pattern, pattern_len,
}
use capaz_os_kernel.Sched.Switch.{
  sched_block_current, sched_pick_next_locked, block_to, switch_to, sched_prepare_running_locked,
}

abbrev pub state_of : Sched → ℕ → ThreadState
state_of s t = (s.threads t).state

-- Taking the next thread out of the ready queues changes the state of no thread.
pub pop-state :
    (s : Sched) (i : Intent) (x : ℕ)
    → (state_of (rq_pop_head_intent_locked s i).1 x ≡ state_of s x)
      × ((rq_pop_head_intent_locked s i).1.current ≡ s.current)
unfolding rq_pop_head_intent_locked
pop-state s i x = (ground arith, ground arith)

pub best-state :
    (s : Sched) (x : ℕ)
    → (state_of (rq_pop_best_locked s).1 x ≡ state_of s x)
      × ((rq_pop_best_locked s).1.current ≡ s.current)
unfolding rq_pop_best_locked sched_pick_intent_locked
best-state s x =
    let (i, cursor) = pick_intent s.ready_tail s.pick_cursor in
    pop-state (record s { pick_cursor = cursor }) i x

pub pick-state :
    (s : Sched) (x : ℕ)
    → (state_of (sched_pick_next_locked s).1 x ≡ state_of s x)
      × ((sched_pick_next_locked s).1.current ≡ s.current)
unfolding sched_pick_next_locked
pick-state s x = let (a, b) = best-state s x in (ground (arith, a), ground (arith, b))

pub switch-state :
    (s : Sched) (next x : ℕ)
    → next ≢ 0
    → next ≢ x
    → (state_of (switch_to s next) x ≡ state_of s x) × ((switch_to s next).current ≡ next)
unfolding switch_to sched_prepare_running_locked
switch-state s next x nz ne = (ground arith, ground arith)

pub block_to_state :
    (s : Sched) (next prev : ℕ)
    → s.current ≡ prev
    → (block_to prev (next, s)).current ≢ prev
    → state_of (block_to prev (next, s)) prev ≡ state_of s prev
unfolding block_to
block_to_state s next prev c ne = elim (Bool-cases (next == 0 || next == prev)) [
  | inl stays ↦ absurd (ne (rw stays c))
  | inr goes ↦ rw goes (switch-state s next prev (ground arith) (ground arith)).0
]

-- A thread that blocks, so that another one is the current thread, is blocked.
pub blocked_lem :
    (c c' : Sched)
    → sched_block_current c ≡ some c'
    → c'.current ≢ c.current
    → state_of c' c.current ≡ blocked
unfolding sched_block_current
blocked_lem c c' q ne =
    let s1 = set_state c c.current blocked in
    let (st, cu) = pick-state s1 c.current in
    let same : block_to c.current (sched_pick_next_locked s1) ≡ c' = ground arith in
    subst (λ z. state_of z c.current ≡ blocked) same
      (block_to_state (sched_pick_next_locked s1).1 (sched_pick_next_locked s1).0 c.current cu
          (subst (λ z. z.current ≢ c.current) (sym same) ne)
        ∙ st
        ∙ ground arith)

-- An insertion changes links and a tail only.
pub insert-state :
    (s s' : Sched) (t x : ℕ)
    → rq_insert_tail_locked s t ≡ some s'
    → (state_of s' x ≡ state_of s x) × (s'.current ≡ s.current) × (s'.pick_cursor ≡ s.pick_cursor)
unfolding rq_insert_tail_locked link_tail
insert-state s s' t x q = (ground arith, ground arith, ground arith)

-- The cursor stays in the pattern.
pub cursor_lt :
    (tails : ℕ → ℕ) (cursor : ℕ) → cursor < pattern_len → (pick_intent tails cursor).1 < pattern_len
unfolding pick_intent
cursor_lt tails cursor lt = elim (Option-cases (scan_pattern tails cursor pattern_len 0)) [
  | inl idle ↦ rw (idle, pick_intent) lt
  | inr (idx, found) ↦ rw (found, pick_intent) (omega arith)
]

pub pop-cursor :
    (s : Sched) (i : Intent) → (rq_pop_head_intent_locked s i).1.pick_cursor ≡ s.pick_cursor
unfolding rq_pop_head_intent_locked
pop-cursor s i = ground arith

pub state-links :
    (s : Sched) (t : ℕ) (st : ThreadState) (x : ℕ) → next_of (set_state s t st) x ≡ next_of s x
state-links s t st x = ground arith

pub switch-links :
    (s : Sched) (t x : ℕ)
    → (next_of (switch_to s t) x ≡ next_of s x)
      × ((switch_to s t).ready_tail ≡ s.ready_tail)
      × ((switch_to s t).pick_cursor ≡ s.pick_cursor)
unfolding switch_to sched_prepare_running_locked
switch-links s t x = (ground arith, ground arith, ground arith)

pub switch-running :
    (s : Sched) (t : ℕ)
    → t ≢ 0
    → (state_of (switch_to s t) t ≡ running) × ((switch_to s t).current ≡ t)
unfolding switch_to sched_prepare_running_locked
switch-running s t ne = (ground arith, ground arith)
