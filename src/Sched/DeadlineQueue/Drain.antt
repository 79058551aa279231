-- ===== src/Sched/DeadlineQueue/Drain.antt =====
-- Popping a queue empty sorts it.
use mathlib.Core.List.{Perm}
use mathlib.Core.List.Perm
use capaz_os_kernel.Common.{
  ℕ, zero, suc, ◌-◌, ◌≤◌, ◌<◌, ◌≡◌, inl, inr, Bool-cases, ◌==◌, none, some, arith, List, [], ◌∷◌,
  slice, subst,
}
use capaz_os_kernel.Sched.DeadlineQueue.{
  DlqItem, DeadlineQueue, dlq_find_min_index, dlq_pop_next, remove_at, contents,
}
use capaz_os_kernel.Sched.DeadlineQueue.Min.{find_min_lem}
use capaz_os_kernel.Sched.DeadlineQueue.Laws.{remove_at-perm, count-remove_at}

-- Popping until nothing is left, at most n times.
unfoldable pub drain : ℕ → DeadlineQueue → List DlqItem
drain zero q = []
drain (suc n) q = elim (dlq_pop_next q) [ none ↦ [] | some (x, q') ↦ x ∷ drain n q' ]

abbrev pub AllFrom : ℕ → List DlqItem → Type 0
AllFrom d [] = Unit
AllFrom d (x ∷ xs) = (d ≤ x.deadline) × AllFrom d xs

abbrev pub Ascending : List DlqItem → Type 0
Ascending [] = Unit
Ascending (x ∷ xs) = AllFrom x.deadline xs × Ascending xs

remove_at_from :
    (q : DeadlineQueue) (idx d : ℕ)
    → idx < q.count
    → ((j : ℕ) → j < q.count → d ≤ (q.items j).deadline)
    → (j : ℕ) → j < (remove_at q idx).count
    → d ≤ ((remove_at q idx).items j).deadline
unfolding remove_at
remove_at_from q idx d hi low j hj = elim (Bool-cases (idx == q.count - 1)) [
  | inl last ↦ ground (arith, low j)
  | inr inner ↦ ground (arith, low j, low (q.count - 1))
]

find_empty : (q : DeadlineQueue) → q.count ≡ 0 → dlq_find_min_index q ≡ none
unfolding dlq_find_min_index
find_empty q e = ground arith

drain_from :
    (n : ℕ) (q : DeadlineQueue) (d : ℕ)
    → ((j : ℕ) → j < q.count → d ≤ (q.items j).deadline)
    → AllFrom d (drain n q)
unfolding drain dlq_pop_next
drain_from zero q d low = tt
drain_from (suc n) q d low = elim (Bool-cases (q.count == 0)) [
  | inl e ↦ rw (find_empty q (ground arith), drain) tt
  | inr e ↦
      let (idx, found, min) = find_min_lem q (ground arith) in
      rw (found, drain)
        (low idx min.below, drain_from n (remove_at q idx) d (remove_at_from q idx d min.below low))
]

drain_step :
    (n : ℕ) (q : DeadlineQueue) (idx : ℕ)
    → dlq_find_min_index q ≡ some idx
    → drain (suc n) q ≡ q.items idx ∷ drain n (remove_at q idx)
unfolding drain dlq_pop_next
drain_step n q idx found = rw (found, drain)

-- Popping until the queue is empty returns all its items, in ascending order of deadline.
pub drain_lem :
    (n : ℕ) (q : DeadlineQueue)
    → n ≡ q.count
    → Perm (contents q) (drain n q) × Ascending (drain n q)
unfolding drain
drain_lem zero q e = (subst (λ k. Perm (slice q.items 0 k) []) e (Perm.refl []), tt)
drain_lem (suc n) q e =
    let (idx, found, min) = find_min_lem q (omega arith) in
    let rest = drain_lem n (remove_at q idx) (omega (arith, count-remove_at q idx (omega arith))) in
    rw (drain_step n q idx found) (
      Perm.trans (remove_at-perm q idx min.below) (Perm.cons (q.items idx) rest.0),
      (
        drain_from n (remove_at q idx) (q.items idx).deadline
            (remove_at_from q idx _ min.below min.least),
        rest.1,
      ),
    )
