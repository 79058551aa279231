-- ===== src/Ipc.antt =====
-- Endpoints and their messages, ipc/endpoint.c and ipc/ipc_message.c. Endpoints, messages, tables
-- and threads are stores by address, 0 is NULL. What `slab_alloc` returns is an argument, with 0 for
-- no memory; a panic is `none`. The caches are initialised, and the functions stand behind the NULL
-- checks of the message pointers.
pub mod Queue
pub mod Delivery
pub mod Wakeup
pub mod Messages
use capaz_os_kernel.Common.{
  ℕ, Bool, true, false, Option, none, some, ltb, ◌==◌, ◌||◌, not, ◌&&◌, if◌then◌else◌, update,
  add_u64, ◌>>=◌,
}
use Prim.Native.Nat.{bit_or}
use capaz_os_kernel.Cap.Types.{
  CapType, CapStatus, CapEntry, type_invalid, task, thread, vmo, vmap, endpoint, ok, invalid,
  no_slots, denied, no_mem, right_drop, right_send, right_recv,
}
use capaz_os_kernel.Cap.Ops.{Tables, Made, cap_lookup, cap_create}
use capaz_os_kernel.Sched.Thread.{Sched}
use capaz_os_kernel.Sched.Switch.{sched_wake, sched_block_current}

pub data IpcStatus : Type 0 where
  ipc_ok ipc_invalid ipc_rights ipc_no_mem ipc_closed ipc_empty : IpcStatus

-- `ks_ipc_msg_t`, and the message with its links.
pub record KsIpcMsg : Type 0 where
  pub tag : ℕ
  pub len : ℕ
  pub data_at : ℕ → ℕ

pub record IpcMsg : Type 0 where
  pub next : ℕ
  pub prev : ℕ
  pub body : KsIpcMsg

pub record Endpoint : Type 0 where
  pub id : ℕ
  pub q_head : ℕ
  pub q_tail : ℕ
  pub waiting_recv : ℕ
  pub closed : Bool

pub record Ipc : Type 0 where
  pub endpoints : ℕ → Endpoint
  pub msgs : ℕ → IpcMsg
  pub caps : Tables
  pub sched : Sched
  pub next_endpoint_id : ℕ

abbrev pub msg_max : ℕ
msg_max = 128

-- `memcpy` of n bytes over an array.
abbrev pub copy : (ℕ → ℕ) → (ℕ → ℕ) → ℕ → ℕ → ℕ
copy dst src n = λ i. if ltb i n then src i else dst i

abbrev pub no_msg : KsIpcMsg
no_msg = record { tag = 0; len = 0; data_at = λ i. 0 }

abbrev pub set_msg : Ipc → ℕ → IpcMsg → Ipc
set_msg s m v = record s { msgs = update s.msgs m v }

abbrev pub set_endpoint : Ipc → ℕ → Endpoint → Ipc
set_endpoint s e v = record s { endpoints = update s.endpoints e v }

-- `e` is what `slab_alloc` returned.
unfoldable pub endpoint_alloc : Ipc → ℕ → Option Ipc
endpoint_alloc s e =
    if e == 0
    then none
    else some
        (record (set_endpoint s e (record {
          id = s.next_endpoint_id;
          q_head = 0;
          q_tail = 0;
          waiting_recv = 0;
          closed = false;
        })) { next_endpoint_id = add_u64 s.next_endpoint_id 1 })

abbrev pub ipc_error_of : CapStatus → IpcStatus
ipc_error_of no_mem = ipc_no_mem
ipc_error_of ok = ipc_invalid
ipc_error_of invalid = ipc_invalid
ipc_error_of no_slots = ipc_invalid
ipc_error_of denied = ipc_invalid

unfoldable pub finish_create : Ipc → Made → IpcStatus × Option ℕ × Ipc
finish_create s (st, h, caps) = elim st [
  | ok ↦ (ipc_ok, h, record s { caps = caps })
  | other ↦ (ipc_error_of other, none, record s { caps = caps })
]

unfoldable pub endpoint_create_cap :
    Ipc → ℕ → ℕ → ℕ → ℕ → Bool → Option (IpcStatus × Option ℕ × Ipc)
endpoint_create_cap s t rights out e mem =
    if t == 0 || out == 0 then some (ipc_invalid, none, s) else do
      s' ← endpoint_alloc s e
      some (finish_create s' (cap_create s'.caps t endpoint (bit_or rights right_drop) e out mem))

abbrev pub is_endpoint : CapType → Bool
is_endpoint endpoint = true
is_endpoint type_invalid = false
is_endpoint task = false
is_endpoint thread = false
is_endpoint vmo = false
is_endpoint vmap = false

-- The endpoint, 0 with an error.
unfoldable pub endpoint_from_handle : Tables → ℕ → ℕ → ℕ → IpcStatus × ℕ
endpoint_from_handle caps t h need =
    if t == 0 then (ipc_invalid, 0) else elim (cap_lookup caps t h need) [
      | none ↦ (ipc_rights, 0)
      | some ent ↦
          if not (is_endpoint ent.type) || ent.obj == 0 then (ipc_invalid, 0) else (ipc_ok, ent.obj)
    ]

unfoldable pub q_push_tail : Ipc → ℕ → ℕ → Ipc
q_push_tail s e m =
    let ep = s.endpoints e in
    let s' = set_msg s m (record (s.msgs m) { next = 0; prev = ep.q_tail }) in
    if ep.q_tail == 0
    then set_endpoint s' e (record ep { q_head = m; q_tail = m })
    else set_endpoint (set_msg s' ep.q_tail (record (s'.msgs ep.q_tail) { next = m })) e
        (record ep { q_tail = m })

-- The message taken out, 0 if there is none.
unfoldable pub q_pop_head : Ipc → ℕ → ℕ × Ipc
q_pop_head s e =
    let ep = s.endpoints e in
    let m = ep.q_head in
    let n = (s.msgs m).next in
    if m == 0
    then (0, s)
    else let s' =
        if n == 0
        then set_endpoint s e (record ep { q_head = n; q_tail = 0 })
        else set_msg (set_endpoint s e (record ep { q_head = n })) n
            (record (s.msgs n) { prev = 0 }) in
      (m, set_msg s' m (record (s'.msgs m) { next = 0; prev = 0 }))
