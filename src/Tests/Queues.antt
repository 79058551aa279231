-- ===== src/Tests/Queues.antt =====
-- The ready queues on concrete inputs.
use capaz_os_kernel.Common.{
  ℕ, zero, suc, ◌≡◌, ◌≤◌, refl, arith, some, List, [], ◌∷◌, ◌++◌, update, length, inl,
}
use capaz_os_kernel.Sched.Intent.{interactive, background, sched_intent_sanitize}
use capaz_os_kernel.Sched.Thread.{Sched}
use capaz_os_kernel.Sched.RunQueue.{rq_insert_tail_locked, link_tail, irq_sp_valid}
use capaz_os_kernel.Sched.RunQueue.Refine.{Queues, insert_tail_lem}
use capaz_os_kernel.Sched.Pick.Fair.{no_starvation, picks, Among, AlwaysReady}
use capaz_os_kernel.Tests.Machine.{before}

abbrev busy : ℕ → ℕ
busy _ = 1

-- Every queue is ready, n times.
abbrev all_busy : ℕ → List (ℕ → ℕ)
all_busy zero = []
all_busy (suc n) = (λ _. 1) ∷ all_busy n

busy-AlwaysReady : (n : ℕ) → AlwaysReady background (all_busy n)
busy-AlwaysReady zero = tt
busy-AlwaysReady (suc n) = (omega arith, busy-AlwaysReady n)

busy_length : (n : ℕ) → n ≤ length (all_busy n)
busy_length zero = omega arith
busy_length (suc n) = omega (arith, busy_length n)

no_starvation_example : Among background (picks (all_busy 13) 0)
no_starvation_example =
    no_starvation background (all_busy 13) 0 (omega arith) (busy-AlwaysReady 13) (busy_length 13)

abbrev no_threads : ℕ → List ℕ
no_threads _ = []

before-Queues : Queues before no_threads
before-Queues = record { queue = λ i. inl (refl, refl); apart = λ i j x ne m. absurd m }

abbrev after : Sched
after = link_tail before 3 interactive

inserted : rq_insert_tail_locked before 3 ≡ some after
unfolding rq_insert_tail_locked irq_sp_valid sched_intent_sanitize
inserted = refl

insert_tail_lem_example : Queues after (update no_threads 0 ([] ++ 3 ∷ []))
unfolding sched_intent_sanitize
insert_tail_lem_example =
    insert_tail_lem before after no_threads 3 before-Queues (λ j. tt) (omega arith) inserted

after-Queues : Queues after (update no_threads 0 ([] ++ 3 ∷ []))
unfolding sched_intent_sanitize
after-Queues =
    insert_tail_lem before after no_threads 3 before-Queues (λ j. tt) (omega arith) inserted
