-- ===== src/Ipc/Delivery.antt =====
-- What `ipc_send_cap`, `ipc_recv_cap` and `ipc_try_recv_cap` of ipc/endpoint.c deliver.
use capaz_os_kernel.Common.{
  ℕ, false, ◌==◌, ◌≡◌, ◌≢◌, ◌≤◌, ◌<◌, inl, inr, refl, ap, subst, sym, ◌∙◌, fun_ext, arith, List, [],
  ◌∷◌, ◌++◌, some, Option-cases,
}
use capaz_os_kernel.Common.Links.{NotIn}
use capaz_os_kernel.Fifo.{Line, Line-update}
use capaz_os_kernel.Cap.Types.{right_send, right_recv}
use capaz_os_kernel.Cap.Ops.{Tables}
use capaz_os_kernel.Ipc.{Ipc, KsIpcMsg, ipc_ok, msg_max, endpoint_from_handle, q_push_tail}
use capaz_os_kernel.Ipc.Queue.{
  Pending, SameBodies, Stores, push-Pending, pop-Pending, wake_fields, put_fields, msg_link,
  push_fields,
}
use capaz_os_kernel.Ipc.Messages.{
  put_message, deliver, ipc_send_cap, take_message, ipc_try_recv_cap,
}

-- Handle h of table t opens endpoint e for `need`.
abbrev pub Opens : Tables → ℕ → ℕ → ℕ → ℕ → Type 0
Opens caps t h need e = (endpoint_from_handle caps t h need ≡ (ipc_ok, e)) × (e ≢ 0)

send_steps :
    (s s' : Ipc) (t h e m : ℕ) (msg : KsIpcMsg)
    → Opens s.caps t h right_send e
    → ipc_send_cap s t h msg m ≡ some (ipc_ok, s')
    → (s1 : Ipc) × (put_message s m msg ≡ some s1)
      × (deliver s1 e m ≡ some s')
      × (msg.len ≤ msg_max)
unfolding ipc_send_cap
send_steps s s' t h e m msg o q =
    let (same, ne) = o in
    elim (Option-cases (put_message s m msg)) [
      | inl stop ↦ absurd (ground (arith, same))
      | inr (s1, go) ↦ elim (Option-cases (deliver s1 e m)) [
        | inl stop ↦ absurd (ground (arith, same))
        | inr (s2, go2) ↦ (s1, go, ground (arith, same), ground (arith, same))
      ]
    ]

put-Pending :
    (s s1 : Ipc) (e m : ℕ) (msg : KsIpcMsg) (xs : List ℕ)
    → put_message s m msg ≡ some s1
    → Pending s e xs
    → NotIn m xs
    → Pending s1 e xs
put-Pending s s1 e m msg xs q p n =
    let (ne, st, other, links, eps, caps) = put_fields s s1 m msg q in
    subst (λ f. Line (msg_link s1) (f e).q_head (f e).q_tail xs) (sym eps)
      (subst (λ f. Line f (s.endpoints e).q_head (s.endpoints e).q_tail xs) (sym (fun_ext links))
        (Line-update (msg_link s) (s.endpoints e).q_head (s.endpoints e).q_tail xs m 0 n p))

-- The message stands in the queue after the call, whoever was woken.
pub deliver-Pending :
    (s s' : Ipc) (e m : ℕ) (xs : List ℕ)
    → deliver s e m ≡ some s'
    → Pending s e xs
    → NotIn m xs
    → m ≢ 0
    → Pending s' e (xs ++ m ∷ []) × SameBodies s s' × (s'.caps ≡ s.caps)
unfolding deliver
deliver-Pending s s' e m xs q p n ne =
    let (msgs, eh, et, caps) = wake_fields (q_push_tail s e m) s' e q in
    let (fh, ft, fl, same, caps', sched, w) = push_fields s e m in
    (
      rw (msgs, eh, et) (push-Pending s e m xs p n ne),
      (λ x. ap (λ f. (f x).body) msgs ∙ same x),
      caps ∙ caps',
    )

-- A message that was sent waits behind those that waited before, as it was given to the call, and the
-- others are what they were, and so are the capabilities.
pub send_lem :
    (s s' : Ipc) (t h e m : ℕ) (msg : KsIpcMsg) (xs : List ℕ)
    → Opens s.caps t h right_send e
    → Pending s e xs
    → NotIn m xs
    → ipc_send_cap s t h msg m ≡ some (ipc_ok, s')
    → Pending s' e (xs ++ m ∷ [])
      × Stores msg (s'.msgs m).body
      × ((x : ℕ) → x ≢ m → (s'.msgs x).body ≡ (s.msgs x).body)
      × (msg.len ≤ msg_max)
      × (s'.caps ≡ s.caps)
send_lem s s' t h e m msg xs o p n q =
    let (s1, put, del, small) = send_steps s s' t h e m msg o q in
    let (ne, st, other, links, eps, caps) = put_fields s s1 m msg put in
    let (p', same, tables) =
      deliver-Pending s1 s' e m xs del (put-Pending s s1 e m msg xs put p n) n ne in
    (p', subst (Stores msg) (sym (same m)) st, (λ x d. same x ∙ other x d), small, tables ∙ caps)

-- What the receiver's buffer holds after a message that fits.
abbrev pub Delivered : KsIpcMsg → KsIpcMsg → KsIpcMsg → Type 0
Delivered msg before after =
    (after.tag ≡ msg.tag)
    × (after.len ≡ msg.len)
    × ((i : ℕ) → i < msg.len → after.data_at i ≡ msg.data_at i)
    × ((i : ℕ) → msg.len ≤ i → after.data_at i ≡ before.data_at i)

take-Delivered :
    (msg stored out : KsIpcMsg)
    → Stores msg stored
    → msg.len ≤ msg_max
    → Delivered msg out (take_message out stored)
unfolding take_message
take-Delivered msg stored out (tag, len, bytes) small = (
  tag,
  ground (arith, len),
  (λ i lt. ground (arith, len, bytes i lt)),
  λ i ge. ground (arith, len),
)

-- A receive without waiting takes out the message that has waited longest and copies it into the
-- buffer, byte for byte, and nothing behind its length.
pub try_recv_lem :
    (s : Ipc) (t h e x : ℕ) (msg out : KsIpcMsg) (xs : List ℕ)
    → Opens s.caps t h right_recv e
    → Pending s e (x ∷ xs)
    → Stores msg (s.msgs x).body
    → msg.len ≤ msg_max
    → let (st, out', s') = ipc_try_recv_cap s t h out in
      (st ≡ ipc_ok) × Delivered msg out out' × Pending s' e xs × SameBodies s s'
unfolding ipc_try_recv_cap
try_recv_lem s t h e x msg out xs o p st small =
    let (em, ne, p', same) = pop-Pending s e x xs p in
    let some_msg : (x == 0) ≡ false = ground (arith, ne) in
    let some_ep : (e == 0) ≡ false = ground (arith, o.1) in
    rw (o.0, some_ep, em, some_msg)
      (refl, take-Delivered msg (s.msgs x).body out st small, p', same)

-- A message that is sent to an endpoint where none waits is the one that the next receive through any
-- handle with the right to receive returns, and then none waits.
pub send_recv :
    (s s' : Ipc) (t h t2 h2 e m : ℕ) (msg out : KsIpcMsg)
    → Opens s.caps t h right_send e
    → Opens s.caps t2 h2 right_recv e
    → Pending s e []
    → ipc_send_cap s t h msg m ≡ some (ipc_ok, s')
    → let (st, out', s'') = ipc_try_recv_cap s' t2 h2 out in
      (st ≡ ipc_ok) × Delivered msg out out' × Pending s'' e []
send_recv s s' t h t2 h2 e m msg out o o2 p q =
    let (p', st, others, small, caps) = send_lem s s' t h e m msg [] o p tt q in
    let (ok, got, p'', same) =
      try_recv_lem s' t2 h2 e m msg out [] (subst (λ c. Opens c t2 h2 right_recv e) (sym caps) o2)
        p' st small in
    (ok, got, p'')
