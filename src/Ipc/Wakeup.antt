-- ===== src/Ipc/Wakeup.antt =====
-- A receiver of ipc/endpoint.c that has put itself down as waiting and has not blocked yet, when a
-- message arrives: `ipc_recv_cap` lets interrupts in between the two.
use capaz_os_kernel.Common.{
  ℕ, false, ◌≡◌, ◌≢◌, inl, inr, ap, subst, sym, ◌∙◌, arith, List, [], ◌∷◌, ◌++◌, some, Option-cases,
}
use capaz_os_kernel.Common.Links.{NotIn}
use capaz_os_kernel.Fifo.{Line}
use capaz_os_kernel.Sched.Thread.{blocked}
use capaz_os_kernel.Sched.Switch.{sched_wake, sched_block_current, is_blocked}
use capaz_os_kernel.Sched.States.{state_of, blocked_lem}
use capaz_os_kernel.Ipc.{Ipc, q_push_tail}
use capaz_os_kernel.Ipc.Queue.{Pending, push_fields}
use capaz_os_kernel.Ipc.Delivery.{deliver-Pending}
use capaz_os_kernel.Ipc.Messages.{wake_receiver, deliver, recv_block}

wake_lost :
    (s s' : Ipc) (e : ℕ)
    → is_blocked (state_of s.sched (s.endpoints e).waiting_recv) ≡ false
    → wake_receiver s e ≡ some s'
    → (s'.sched ≡ s.sched) × ((s'.endpoints e).waiting_recv ≡ 0)
unfolding wake_receiver sched_wake
wake_lost s s' e b q = (ground arith, ground arith)

-- The end of a round that waits changes only the scheduler's state.
block_fields :
    (s2 s3 : Ipc)
    → recv_block s2 ≡ some s3
    → (sched_block_current s2.sched ≡ some s3.sched)
      × (s3.endpoints ≡ s2.endpoints)
      × (s3.msgs ≡ s2.msgs)
unfolding recv_block
block_fields s2 s3 q = elim (Option-cases (sched_block_current s2.sched)) [
  | inl stop ↦ absurd (ground arith)
  | inr (c, go) ↦ (ground arith, ground arith, ground arith)
]

-- The wake-up is lost. A receiver r is down as waiting at e but does not block before a message is
-- delivered there; then the delivery wakes nobody. Once r goes on, with the messages and endpoints
-- as the delivery left them, and gives the CPU to another thread, r is blocked while its message
-- waits, and no later send knows of a receiver to wake.
pub lost_wakeup :
    (s s' s2 s3 : Ipc) (e m r : ℕ) (xs : List ℕ)
    → (s.endpoints e).waiting_recv ≡ r
    → is_blocked (state_of s.sched r) ≡ false
    → Pending s e xs
    → NotIn m xs
    → m ≢ 0
    → deliver s e m ≡ some s'
    → (s2.endpoints ≡ s'.endpoints) × (s2.msgs ≡ s'.msgs)
    → s2.sched.current ≡ r
    → recv_block s2 ≡ some s3
    → s3.sched.current ≢ r
    → (s'.sched ≡ s.sched)
      × (state_of s3.sched r ≡ blocked)
      × ((s3.endpoints e).waiting_recv ≡ 0)
      × Pending s3 e (xs ++ m ∷ [])
unfolding deliver
lost_wakeup s s' s2 s3 e m r xs w b p n ne q same cur blk gone =
    let (fh, ft, fl, bodies, caps, sched, wait) = push_fields s e m in
    let lost = wake_lost (q_push_tail s e m) s' e (rw (sched, wait, w) b) q in
    let (go, eps, msgs) = block_fields s2 s3 blk in
    let after = (deliver-Pending s s' e m xs q p n ne).0 in
    (
      lost.0 ∙ sched,
      subst (λ x. state_of s3.sched x ≡ blocked) cur
          (blocked_lem s2.sched s3.sched go (λ x. gone (x ∙ cur))),
      ap (λ f. (f e).waiting_recv) (eps ∙ same.0) ∙ lost.1,
      subst (λ f. Line (λ x. (s3.msgs x).next) (f e).q_head (f e).q_tail (xs ++ m ∷ []))
          (sym (eps ∙ same.0))
          (subst
            (λ f.
              Line (λ x. (f x).next) (s'.endpoints e).q_head (s'.endpoints e).q_tail (xs ++ m ∷ []))
            (sym (msgs ∙ same.1)) after),
    )
