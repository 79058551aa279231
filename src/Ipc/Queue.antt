-- ===== src/Ipc/Queue.antt =====
-- The messages of an endpoint wait in the order in which they were sent: `q_push_tail`, `q_pop_head`
-- and the calls of ipc/endpoint.c that use them.
use capaz_os_kernel.Common.{
  ℕ, update, ◌≡◌, ◌≢◌, ◌<◌, inl, inr, subst, sym, ◌∙◌, fun_ext, arith, List, [], ◌∷◌, ◌++◌, some,
  Option-cases,
}
use capaz_os_kernel.Common.Links.{NotIn}
use capaz_os_kernel.Fifo.{Line, end_link, end_head, rest_tail, push-Line, pop-Line}
use capaz_os_kernel.Sched.Switch.{sched_wake}
use capaz_os_kernel.Ipc.{Ipc, KsIpcMsg, q_push_tail, q_pop_head}
use capaz_os_kernel.Ipc.Messages.{put_message, wake_receiver}

abbrev pub msg_link : Ipc → ℕ → ℕ
msg_link s m = (s.msgs m).next

-- The messages xs wait at endpoint e, the oldest first.
abbrev pub Pending : Ipc → ℕ → List ℕ → Type 0
Pending s e xs = Line (msg_link s) (s.endpoints e).q_head (s.endpoints e).q_tail xs

abbrev pub SameBodies : Ipc → Ipc → Type 0
SameBodies s s' = (x : ℕ) → (s'.msgs x).body ≡ (s.msgs x).body

pub push_fields :
    (s : Ipc) (e m : ℕ)
    → let s' = q_push_tail s e m in
      ((s'.endpoints e).q_head ≡ end_head (s.endpoints e).q_head (s.endpoints e).q_tail m)
      × ((s'.endpoints e).q_tail ≡ m)
      × ((x : ℕ) → msg_link s' x ≡ end_link (msg_link s) (s.endpoints e).q_tail m x)
      × SameBodies s s'
      × (s'.caps ≡ s.caps)
      × (s'.sched ≡ s.sched)
      × ((s'.endpoints e).waiting_recv ≡ (s.endpoints e).waiting_recv)
unfolding q_push_tail
push_fields s e m = (
  ground arith,
  ground arith,
  (λ x. ground arith),
  (λ x. ground arith),
  ground arith,
  ground arith,
  ground arith,
)

pub push-Pending :
    (s : Ipc) (e m : ℕ) (xs : List ℕ)
    → Pending s e xs
    → NotIn m xs
    → m ≢ 0
    → Pending (q_push_tail s e m) e (xs ++ m ∷ [])
push-Pending s e m xs h n ne =
    let (eh, et, el, same, caps, sched, w) = push_fields s e m in
    rw (eh, et, fun_ext el)
      (push-Line (msg_link s) (s.endpoints e).q_head (s.endpoints e).q_tail xs m h n ne)

pop_fields :
    (s : Ipc) (e : ℕ)
    → (s.endpoints e).q_head ≢ 0
    → let (m, s') = q_pop_head s e in
      (m ≡ (s.endpoints e).q_head)
      × ((s'.endpoints e).q_head ≡ msg_link s (s.endpoints e).q_head)
      × ((s'.endpoints e).q_tail
          ≡ rest_tail (msg_link s) (s.endpoints e).q_head (s.endpoints e).q_tail)
      × ((x : ℕ) → msg_link s' x ≡ update (msg_link s) (s.endpoints e).q_head 0 x)
      × SameBodies s s'
unfolding q_pop_head
pop_fields s e ne =
    (ground arith, ground arith, ground arith, (λ x. ground arith), λ x. ground arith)

pub pop-Pending :
    (s : Ipc) (e x : ℕ) (xs : List ℕ)
    → Pending s e (x ∷ xs)
    → let (m, s') = q_pop_head s e in (m ≡ x) × (x ≢ 0) × Pending s' e xs × SameBodies s s'
pop-Pending s e x xs h =
    let ep = s.endpoints e in
    let (eh, ne, line, out) = pop-Line (msg_link s) ep.q_head ep.q_tail x xs h in
    let (a, b, c, d, same) = pop_fields s e (λ z. ne (sym eh ∙ z)) in
    (
      a ∙ eh,
      ne,
      rw (b, c, fun_ext d)
          (subst
            (λ p.
              Line (update (msg_link s) p 0) (msg_link s p) (rest_tail (msg_link s) p ep.q_tail) xs)
            (sym eh) line),
      same,
    )

-- A wake-up leaves the messages and the queue.
pub wake_fields :
    (s s' : Ipc) (e : ℕ)
    → wake_receiver s e ≡ some s'
    → (s'.msgs ≡ s.msgs)
      × ((s'.endpoints e).q_head ≡ (s.endpoints e).q_head)
      × ((s'.endpoints e).q_tail ≡ (s.endpoints e).q_tail)
      × (s'.caps ≡ s.caps)
unfolding wake_receiver
wake_fields s s' e h = elim (Option-cases (sched_wake s.sched (s.endpoints e).waiting_recv)) [
  | inl stop ↦ (ground arith, ground arith, ground arith, ground arith)
  | inr (sched, go) ↦ (ground arith, ground arith, ground arith, ground arith)
]

-- What `ipc_msg_alloc` and the copy leave in message m.
abbrev pub Stores : KsIpcMsg → KsIpcMsg → Type 0
Stores msg stored =
    (stored.tag ≡ msg.tag)
    × (stored.len ≡ msg.len)
    × ((i : ℕ) → i < msg.len → stored.data_at i ≡ msg.data_at i)

pub put_fields :
    (s s' : Ipc) (m : ℕ) (msg : KsIpcMsg)
    → put_message s m msg ≡ some s'
    → (m ≢ 0)
      × Stores msg (s'.msgs m).body
      × ((x : ℕ) → x ≢ m → (s'.msgs x).body ≡ (s.msgs x).body)
      × ((x : ℕ) → msg_link s' x ≡ update (msg_link s) m 0 x)
      × (s'.endpoints ≡ s.endpoints)
      × (s'.caps ≡ s.caps)
unfolding put_message
put_fields s s' m msg h = (
  ground arith,
  (ground arith, ground arith, λ i lt. ground arith),
  (λ x ne. ground arith),
  (λ x. ground arith),
  ground arith,
  ground arith,
)
