-- ===== src/Sched/DeadlineQueue/Min.antt =====
-- The search for the least deadline.
use capaz_os_kernel.Common.{
  ℕ, zero, suc, ◌+◌, ◌-◌, ◌≤◌, ◌<◌, ◌≡◌, ◌≢◌, inl, inr, subst, true, false, Bool-cases, ltb, ◌==◌,
  some, arith,
}
use capaz_os_kernel.Sched.DeadlineQueue.{DlqItem, DeadlineQueue, scan, dlq_find_min_index}

-- best is the first index of the least deadline among those below n.
pub record IsFirstMin (items : ℕ → DlqItem) (n best : ℕ) : Type 0 where
  pub below : best < n
  pub least : (j : ℕ) → j < n → (items best).deadline ≤ (items j).deadline
  pub first : (j : ℕ) → j < best → (items best).deadline < (items j).deadline

scan-IsFirstMin :
    (items : ℕ → DlqItem) (n m i best : ℕ)
    → i + n ≡ m
    → IsFirstMin items i best
    → IsFirstMin items m (scan items n i best (items best).deadline)
unfolding scan
scan-IsFirstMin items zero m i best e h = subst (λ k. IsFirstMin items k best) (omega arith) h
scan-IsFirstMin items (suc n) m i best e h =
    elim (Bool-cases (ltb (items i).deadline (items best).deadline)) [
      | inl lt ↦ rw lt (
          scan-IsFirstMin items n m (suc i) i (omega arith) (record {
            below = omega arith;
            least = λ j hj. before i j lt h.least hj;
            first = λ j hj. ground (arith, h.least j hj);
          }))
      | inr ge ↦ rw ge (
          scan-IsFirstMin items n m (suc i) best (omega arith) (record {
            below = omega (arith, h.below);
            least = λ j hj. after i j ge h.least hj;
            first = h.first;
          }))
    ]
  where
    before :
        (i j : ℕ)
        → ltb (items i).deadline (items best).deadline ≡ true
        → ((j : ℕ) → j < i → (items best).deadline ≤ (items j).deadline)
        → j < suc i
        → (items i).deadline ≤ (items j).deadline
    before i j lt least hj = elim (Bool-cases (j == i)) [
      | inl y ↦ ground arith
      | inr n ↦ ground (arith, least j)
    ]

    after :
        (i j : ℕ)
        → ltb (items i).deadline (items best).deadline ≡ false
        → ((j : ℕ) → j < i → (items best).deadline ≤ (items j).deadline)
        → j < suc i
        → (items best).deadline ≤ (items j).deadline
    after i j ge least hj = elim (Bool-cases (j == i)) [
      | inl y ↦ ground arith
      | inr n ↦ ground (arith, least j)
    ]

-- On a queue that is not empty the search finds the first of the least deadlines.
pub find_min_lem :
    (q : DeadlineQueue)
    → q.count ≢ 0
    → (idx : ℕ) × (dlq_find_min_index q ≡ some idx) × IsFirstMin q.items q.count idx
unfolding dlq_find_min_index
find_min_lem q ne = (
  scan q.items (q.count - 1) 1 0 (q.items 0).deadline,
  ground arith,
  scan-IsFirstMin q.items (q.count - 1) q.count 1 0 (omega arith)
      (record { below = omega arith; least = λ j hj. ground arith; first = λ j hj. omega arith }),
)
