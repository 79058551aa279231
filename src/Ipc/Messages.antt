-- ===== src/Ipc/Messages.antt =====
-- Sending and receiving, ipc/endpoint.c. A receive that finds no message leaves the CPU; each round of
-- its loop is one step, and what runs before the next round is for the scheduler to say.
use capaz_os_kernel.Common.{ℕ, Option, none, some, ltb, ◌==◌, not, ◌&&◌, if◌then◌else◌, ◌>>=◌}
use capaz_os_kernel.Cap.Types.{right_send, right_recv}
use capaz_os_kernel.Sched.Switch.{sched_wake, sched_block_current}
use capaz_os_kernel.Ipc.{
  Ipc, IpcStatus, KsIpcMsg, ipc_ok, ipc_invalid, ipc_rights, ipc_closed, ipc_empty, msg_max, copy,
  set_msg, set_endpoint, endpoint_from_handle, q_push_tail, q_pop_head,
}

-- `ipc_msg_alloc` and the copy of the payload; `m` is what `slab_alloc` returned.
unfoldable pub put_message : Ipc → ℕ → KsIpcMsg → Option Ipc
put_message s m msg =
    if m == 0
    then none
    else some (
        set_msg s m (record {
          next = 0;
          prev = 0;
          body = record {
            tag = msg.tag;
            len = msg.len;
            data_at = copy (λ i. 0) msg.data_at msg.len;
          };
        }))

unfoldable pub wake_receiver : Ipc → ℕ → Option Ipc
wake_receiver s e =
    let ep = s.endpoints e in
    if ep.waiting_recv == 0 then some s else do
      sched ← sched_wake s.sched ep.waiting_recv
      some (record (set_endpoint s e (record ep { waiting_recv = 0 })) { sched = sched })

-- The part under the interrupt mask.
unfoldable pub deliver : Ipc → ℕ → ℕ → Option Ipc
deliver s e m = wake_receiver (q_push_tail s e m) e

unfoldable pub ipc_send_cap : Ipc → ℕ → ℕ → KsIpcMsg → ℕ → Option (IpcStatus × Ipc)
ipc_send_cap s t h msg m =
    let (status, e) = endpoint_from_handle s.caps t h right_send in
    if ltb msg_max msg.len
    then some (ipc_invalid, s)
    else if e == 0
    then some (status, s)
    else if (s.endpoints e).closed
    then some (ipc_closed, s)
    else do s' ← put_message s m msg; s'' ← deliver s' e m; some (ipc_ok, s'')

-- The copy out of a message into the receiver's buffer.
unfoldable pub take_message : KsIpcMsg → KsIpcMsg → KsIpcMsg
take_message out m =
    let len = if ltb msg_max m.len then msg_max else m.len in
    record { tag = m.tag; len = len; data_at = copy out.data_at m.data_at len }

-- The outcome of a receive: a result, or a wait as the endpoint's receiver.
pub data Recv : Type 0 where
  done : IpcStatus → KsIpcMsg → Ipc → Recv
  waits : Ipc → Recv

-- The part of a round under the interrupt mask. The message that is taken out is freed.
unfoldable pub recv_round : Ipc → ℕ → KsIpcMsg → Recv
recv_round s e out =
    let (m, s') = q_pop_head s e in
    let ep = s.endpoints e in
    let cur = s.sched.current in
    if not (m == 0)
    then done ipc_ok (take_message out (s.msgs m).body) s'
    else if ep.closed
    then done ipc_closed out s
    else if cur == 0
    then done ipc_invalid out s
    else if not (ep.waiting_recv == 0) && not (ep.waiting_recv == cur)
    then done ipc_rights out s
    else waits (set_endpoint s e (record ep { waiting_recv = cur }))

-- The end of a round that waits.
unfoldable pub recv_block : Ipc → Option Ipc
recv_block s = do sched ← sched_block_current s.sched; some (record s { sched = sched })

unfoldable pub ipc_recv_cap : Ipc → ℕ → ℕ → KsIpcMsg → Recv
ipc_recv_cap s t h out =
    let (status, e) = endpoint_from_handle s.caps t h right_recv in
    if e == 0 then done status out s else recv_round s e out

unfoldable pub ipc_try_recv_cap : Ipc → ℕ → ℕ → KsIpcMsg → IpcStatus × KsIpcMsg × Ipc
ipc_try_recv_cap s t h out =
    let (status, e) = endpoint_from_handle s.caps t h right_recv in
    let (m, s') = q_pop_head s e in
    if e == 0
    then (status, out, s)
    else if m == 0
    then (if (s.endpoints e).closed then ipc_closed else ipc_empty, out, s)
    else (ipc_ok, take_message out (s.msgs m).body, s')
