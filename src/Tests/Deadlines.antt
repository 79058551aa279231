-- ===== src/Tests/Deadlines.antt =====
-- The deadline queue on concrete inputs.
use mathlib.Core.List.{Perm}
use capaz_os_kernel.Common.{ℕ, ◌≡◌, refl, [], ◌∷◌, if◌then◌else◌, ◌==◌}
use capaz_os_kernel.Sched.DeadlineQueue.{
  DlqItem, DeadlineQueue, dlq_pop_next, dlq_find_min_index, scan, remove_at, contents,
}
use capaz_os_kernel.Sched.DeadlineQueue.Drain.{drain, drain_lem, Ascending}

abbrev item : ℕ → DlqItem
item d = record { deadline = d; cookie = 0 }

-- Deadlines 5, 3, 9.
abbrev three : DeadlineQueue
three = record { items = λ i. item (if i == 0 then 5 else if i == 1 then 3 else 9); count = 3 }

drained : drain 3 three ≡ item 3 ∷ item 5 ∷ item 9 ∷ []
unfolding drain dlq_pop_next dlq_find_min_index scan remove_at
drained = refl

drain_lem_example : Perm (contents three) (drain 3 three) × Ascending (drain 3 three)
drain_lem_example = drain_lem 3 three refl
