-- ===== src/Sched/Tick.antt =====
-- The timer tick and the start of sched/sched.c keep the scheduler's invariant.
use capaz_os_kernel.Common.{ℕ, ◌≡◌, inl, refl, arith, List, [], ◌∙◌, subst, sym}
use capaz_os_kernel.Sched.Thread.{Sched, next_of, running}
use capaz_os_kernel.Task.{Task}
use capaz_os_kernel.Sched.Preempt.{sched_init_bootstrap, boot_thread}
use capaz_os_kernel.Sched.States.{state_of}
use capaz_os_kernel.Sched.Steps.{Sound, running_free, same-Ordered}

-- Neither the links, the states and the tails nor who is current differ.
pub record Same (s s' : Sched) : Type 0 where
  pub links : (x : ℕ) → next_of s' x ≡ next_of s x
  pub states : (x : ℕ) → state_of s' x ≡ state_of s x
  pub tails : s'.ready_tail ≡ s.ready_tail
  pub cursor : s'.pick_cursor ≡ s.pick_cursor
  pub current : s'.current ≡ s.current

pub Same-Sound : (s s' : Sched) (qs : ℕ → List ℕ) → Sound s qs → Same s s' → Sound s' qs
Same-Sound s s' qs h same = record {
  order =
      same-Ordered s s' qs s.current h.order (running_free h) same.links same.tails same.cursor
        (λ x d. same.states x);
  current_nonzero = λ z. h.current_nonzero (sym same.current ∙ z);
  current_running =
      subst (λ x. state_of s' x ≡ running) (sym same.current)
        (same.states s.current ∙ h.current_running);
}

-- The start, whatever the machine held before, makes the invariant hold, with empty queues.
pub init-Sound : (s : Sched) → Sound (sched_init_bootstrap s) (λ _. [])
unfolding sched_init_bootstrap boot_thread
init-Sound s = record {
  order = record {
    queues = record { queue = λ i. inl (refl, refl); apart = λ i j x ne m. absurd m };
    cursor = omega arith;
    ready_in = λ i x m. absurd m;
  };
  current_nonzero = omega arith;
  current_running = refl;
}
