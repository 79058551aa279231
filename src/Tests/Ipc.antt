-- ===== src/Tests/Ipc.antt =====
-- Endpoints on concrete inputs.
use capaz_os_kernel.Common.{
  ℕ, ◌≡◌, ◌≢◌, refl, arith, false, none, some, [], ◌∷◌, ◌++◌, update, inl, inr,
}
use capaz_os_kernel.Cap.Types.{CapEntry, endpoint, right_send, right_recv}
use capaz_os_kernel.Cap.Table.{table_init, lookup_ex, check_entry}
use capaz_os_kernel.Cap.Ops.{Tables, cap_lookup}
use capaz_os_kernel.Sched.Thread.{blocked, set_state}
use capaz_os_kernel.Ipc.{Ipc, KsIpcMsg, no_msg, ipc_ok, endpoint_from_handle, copy, q_push_tail}
use capaz_os_kernel.Ipc.Queue.{Pending}
use capaz_os_kernel.Ipc.Delivery.{Opens, Delivered, send_recv}
use capaz_os_kernel.Ipc.Messages.{
  ipc_send_cap, ipc_try_recv_cap, deliver, put_message, wake_receiver, recv_block,
}
use capaz_os_kernel.Ipc.Wakeup.{lost_wakeup}
use capaz_os_kernel.Sched.Switch.{
  sched_wake, sched_block_current, block_to, switch_to, sched_pick_next_locked,
  sched_prepare_running_locked,
}
use capaz_os_kernel.Sched.Pick.{
  rq_pop_best_locked, sched_pick_intent_locked, pick_intent, scan_pattern, pick_pattern,
}
use capaz_os_kernel.Sched.RunQueue.{rq_pop_head_intent_locked}
use capaz_os_kernel.Tests.Machine.{start}

-- Slot 255 of table 1 holds endpoint 7 with the rights to send and to receive.
abbrev entry : CapEntry
entry = record { type = endpoint; rights = 12288; obj = 7; gen = 1; flags = 1 }

abbrev caps : Tables
unfolding table_init
caps =
    update (λ _. table_init) 1 (record (table_init) { slots = update (λ _. none) 255 (some entry) })

abbrev handle : ℕ
handle = 4294967551

abbrev quiet : Ipc
quiet = record {
  endpoints = λ i. record { id = i; q_head = 0; q_tail = 0; waiting_recv = 0; closed = false };
  msgs = λ _. record { next = 0; prev = 0; body = no_msg };
  caps = caps;
  sched = start;
  next_endpoint_id = 1;
}

abbrev hello : KsIpcMsg
hello = record { tag = 3; len = 2; data_at = λ i. 104 }

Opens-send : Opens caps 1 handle right_send 7
unfolding endpoint_from_handle cap_lookup lookup_ex check_entry table_init
Opens-send = (refl, omega arith)

Opens-recv : Opens caps 1 handle right_recv 7
unfolding endpoint_from_handle cap_lookup lookup_ex check_entry table_init
Opens-recv = (refl, omega arith)

quiet-Pending : Pending quiet 7 []
quiet-Pending = inl (refl, refl, refl)

-- The state after hello was sent with message object 11.
abbrev sent : Ipc
sent = record (quiet) {
  endpoints =
      update quiet.endpoints 7
        (record { id = 7; q_head = 11; q_tail = 11; waiting_recv = 0; closed = false });
  msgs =
      update
        (update quiet.msgs 11 (record {
          next = 0;
          prev = 0;
          body = record { tag = 3; len = 2; data_at = copy (λ i. 0) (λ i. 104) 2 };
        }))
        11
        (record {
          next = 0;
          prev = 0;
          body = record { tag = 3; len = 2; data_at = copy (λ i. 0) (λ i. 104) 2 };
        });
}

send_runs : ipc_send_cap quiet 1 handle hello 11 ≡ some (ipc_ok, sent)
unfolding ipc_send_cap endpoint_from_handle cap_lookup lookup_ex check_entry table_init put_message
    deliver wake_receiver q_push_tail
send_runs = refl

sent-Pending : Pending sent 7 (11 ∷ [])
sent-Pending = inr ([], omega arith, refl, refl, refl, tt, tt, tt)

send_recv_example :
    ((ipc_try_recv_cap sent 1 handle no_msg).0 ≡ ipc_ok)
    × Delivered hello no_msg (ipc_try_recv_cap sent 1 handle no_msg).1
    × Pending (ipc_try_recv_cap sent 1 handle no_msg).2 7 []
send_recv_example =
    send_recv quiet sent 1 handle 1 handle 7 11 hello no_msg Opens-send Opens-recv quiet-Pending
      send_runs

-- Thread 2, which runs, is down as waiting at endpoint 7.
abbrev waiting : Ipc
waiting = record (quiet) {
  endpoints = λ i. record { id = i; q_head = 0; q_tail = 0; waiting_recv = 2; closed = false };
}

-- The state after message 11 was delivered.
abbrev delivered : Ipc
delivered = record (waiting) {
  endpoints =
      update
        (update waiting.endpoints 7
          (record { id = 7; q_head = 11; q_tail = 11; waiting_recv = 2; closed = false }))
        7 (record { id = 7; q_head = 11; q_tail = 11; waiting_recv = 0; closed = false });
  msgs = update quiet.msgs 11 (record { next = 0; prev = 0; body = no_msg });
}

delivers : deliver waiting 7 11 ≡ some delivered
unfolding deliver wake_receiver q_push_tail sched_wake
delivers = refl

-- The state after thread 2 blocked.
abbrev stuck : Ipc
stuck = record (delivered) {
  sched = block_to 2 (sched_pick_next_locked (set_state start 2 blocked));
}

blocks : recv_block delivered ≡ some stuck
unfolding recv_block sched_block_current
blocks = refl

stuck_current : stuck.sched.current ≢ 2
unfolding block_to switch_to sched_prepare_running_locked sched_pick_next_locked rq_pop_best_locked
    sched_pick_intent_locked pick_intent scan_pattern pick_pattern rq_pop_head_intent_locked
stuck_current = omega arith

lost_wakeup_example :
    (delivered.sched ≡ waiting.sched)
    × ((stuck.sched.threads 2).state ≡ blocked)
    × ((stuck.endpoints 7).waiting_recv ≡ 0)
    × Pending stuck 7 ([] ++ 11 ∷ [])
lost_wakeup_example =
    lost_wakeup waiting delivered delivered stuck 7 11 2 [] refl refl (inl (refl, refl, refl)) tt
      (omega arith) delivers (refl, refl) refl blocks stuck_current
