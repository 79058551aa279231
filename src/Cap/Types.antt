-- ===== src/Cap/Types.antt =====
-- cap_types.h, cap_rights.h, cap_entry.h, cap_status_ks.c and the handles of cap_table.h.
use Prim.Native.Nat.{bit_and}
use capaz_os_kernel.Common.{ℕ, ◌+◌, ◌*◌, ◌/◌, ◌%◌, Bool, ◌==◌, u32_mod}

pub data CapType : Type 0 where
  type_invalid task thread vmo vmap endpoint : CapType

-- CAP_ERR_NO_ENTRY and CAP_ERR_STALE are other names of CAP_ERR_INVALID.
pub data CapStatus : Type 0 where
  ok invalid no_slots denied no_mem : CapStatus

pub data KsCapStatus : Type 0 where
  ks_ok ks_invalid ks_no_rights ks_no_slots ks_oom : KsCapStatus

unfoldable pub cap_status_to_ks_status : CapStatus → KsCapStatus
cap_status_to_ks_status ok = ks_ok
cap_status_to_ks_status invalid = ks_invalid
cap_status_to_ks_status denied = ks_no_rights
cap_status_to_ks_status no_slots = ks_no_slots
cap_status_to_ks_status no_mem = ks_oom

abbrev pub right_dup : ℕ
right_dup = 8

abbrev pub right_transfer : ℕ
right_transfer = 16

abbrev pub right_drop : ℕ
right_drop = 32

abbrev pub right_send : ℕ
right_send = 4096

abbrev pub right_recv : ℕ
right_recv = 8192

abbrev pub cap_rights_has : ℕ → ℕ → Bool
cap_rights_has rights needed = bit_and rights needed == needed

abbrev pub flag_valid : ℕ
flag_valid = 1

pub record CapEntry : Type 0 where
  pub type : CapType
  pub rights : ℕ
  pub obj : ℕ
  pub gen : ℕ
  pub flags : ℕ

-- `h & 0xFFFFFFFF`, `h >> 32` and `gen << 32 | idx`, for a 64-bit handle and 32-bit parts.
abbrev pub cap_handle_index : ℕ → ℕ
cap_handle_index h = h % u32_mod

abbrev pub cap_handle_gen : ℕ → ℕ
cap_handle_gen h = (h / u32_mod) % u32_mod

abbrev pub cap_handle_make : ℕ → ℕ → ℕ
cap_handle_make gen idx = gen * u32_mod + idx
