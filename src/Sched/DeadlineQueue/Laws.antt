-- ===== src/Sched/DeadlineQueue/Laws.antt =====
-- The queue against its contract: a bag of at most 64 items that gives up one of least deadline.
use mathlib.Core.List.{Perm, perm_append_singleton}
use mathlib.Core.List.Perm
use capaz_os_kernel.Common.{
  ℕ, zero, suc, ◌+◌, ◌-◌, ◌≤◌, ◌<◌, ◌≡◌, ◌≢◌, ◌⊎◌, refl, inl, inr, subst, ap, true, false,
  Bool-cases, leb, ◌==◌, some, arith, [], ◌∷◌, ◌++◌, slice, slice-suc, slice-push,
  slice-update_outside, update, ==_iff, ◌∙◌,
}
use capaz_os_kernel.Sched.DeadlineQueue.{
  DlqItem, DeadlineQueue, dlq_max_items, dlq_push, dlq_peek_next, dlq_pop_next, remove_at, contents,
}
use capaz_os_kernel.Sched.DeadlineQueue.Min.{find_min_lem}

==_comm : (i j : ℕ) → (i == j) ≡ (j == i)
==_comm i j = ground arith

-- Writing w over one element of a slice gives that element up for w.
slice-update-perm {ℓ} :
    {A : Type ℓ} (a : ℕ → A) (k n i : ℕ) (w : A)
    → k ≤ i
    → i < k + n
    → Perm (w ∷ slice a k n) (a i ∷ slice (update a i w) k n)
slice-update-perm a k zero i w h g = absurd (omega arith)
slice-update-perm a k (suc n) i w h g = elim (Bool-cases (k == i)) [
  | inl same ↦
      subst (λ j. Perm (w ∷ slice a k (suc n)) (a j ∷ slice (update a j w) k (suc n)))
        ((==_iff k i).0 same)
        (rw ((==_iff k k).1 refl, slice-update_outside a (suc k) n k w (omega arith))
          (Perm.swap (a k) w (slice a (suc k) n)))
  | inr other ↦
      rw (==_comm i k, other)
        (Perm.trans (Perm.swap (a k) w (slice a (suc k) n)) (
          Perm.trans
            (Perm.cons (a k) (slice-update-perm a (suc k) n i w (ground arith) (omega arith)))
            (Perm.swap (a i) (a k) (slice (update a i w) (suc k) n))))
]

-- Removing an item leaves the others, in some order.
pub remove_at-perm :
    (q : DeadlineQueue) (idx : ℕ)
    → idx < q.count
    → Perm (contents q) (q.items idx ∷ contents (remove_at q idx))
unfolding remove_at
remove_at-perm q idx h = elim (Bool-cases (idx == q.count - 1)) [
  | inl last ↦
      let e : idx ≡ q.count - 1 = (==_iff idx (q.count - 1)).0 last in
      rw (last, split)
        (rw e (perm_append_singleton (q.items (q.count - 1)) (slice q.items 0 (q.count - 1))))
  | inr inner ↦
      rw (inner, split)
        (Perm.trans (perm_append_singleton (q.items (q.count - 1)) (slice q.items 0 (q.count - 1)))
          (slice-update-perm q.items 0 (q.count - 1) idx (q.items (q.count - 1)) (omega arith)
            (ground arith)))
]
  where
    split : contents q ≡ slice q.items 0 (q.count - 1) ++ q.items (q.count - 1) ∷ []
    split =
        ap (slice q.items 0) {y = suc (q.count - 1)} (omega arith)
        ∙ slice-suc q.items 0 (q.count - 1)
        ∙ ap (λ k. slice q.items 0 (q.count - 1) ++ q.items k ∷ []) {y = q.count - 1} (omega arith)

pub count-remove_at :
    (q : DeadlineQueue) (idx : ℕ) → q.count ≢ 0 → (remove_at q idx).count + 1 ≡ q.count
unfolding remove_at
count-remove_at q idx ne = ground arith

-- A pop from a queue that is not empty takes out one item of least deadline and leaves the others;
-- a peek shows the same item.
pub pop_lem :
    (q : DeadlineQueue)
    → q.count ≢ 0
    → (x : DlqItem) × (q' : DeadlineQueue) × (dlq_pop_next q ≡ some (x, q'))
      × (dlq_peek_next q ≡ some x)
      × (q'.count + 1 ≡ q.count)
      × Perm (contents q) (x ∷ contents q')
      × ((j : ℕ) → j < q.count → x.deadline ≤ (q.items j).deadline)
unfolding dlq_pop_next dlq_peek_next
pop_lem q ne =
    let (idx, found, min) = find_min_lem q ne in
    (
      q.items idx,
      remove_at q idx,
      ground arith,
      ground arith,
      count-remove_at q idx ne,
      remove_at-perm q idx min.below,
      min.least,
    )

-- A push appends its item while there is room, and refuses at 64 items.
pub push_lem :
    (q : DeadlineQueue) (deadline cookie : ℕ)
    → ((q.count < dlq_max_items)
        × ((dlq_push q deadline cookie).0 ≡ true)
        × (contents (dlq_push q deadline cookie).1
            ≡ contents q ++ record { deadline = deadline; cookie = cookie } ∷ []))
      ⊎ ((dlq_max_items ≤ q.count) × (dlq_push q deadline cookie ≡ (false, q)))
unfolding dlq_push
push_lem q deadline cookie = elim (Bool-cases (leb dlq_max_items q.count)) [
  | inl full ↦ inr (ground arith, rw full)
  | inr room ↦ inl (ground arith, rw room, rw room (slice-push q.items q.count _))
]
