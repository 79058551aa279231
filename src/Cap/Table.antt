-- ===== src/Cap/Table.antt =====
-- cap_table.c: a fixed table of slots, each with a generation, and a stack of the free indices.
-- The functions here are those of the source behind the null checks of their table pointers,
-- which stand in Ops. A slot holds its entry itself: the code gives each entry to one slot, and
-- frees it when it clears the slot. `mem` says whether `cap_entry_alloc` returned an entry.
pub mod Inv
pub mod Handles
pub mod Lifecycle
pub mod History
use Prim.Native.Nat.{bit_and}
use capaz_os_kernel.Common.{
  ℕ, zero, suc, ◌+◌, ◌-◌, Bool, not, ◌||◌, Option, none, some, ltb, ◌==◌, if◌then◌else◌, update,
  add_u32,
}
use capaz_os_kernel.Cap.Types.{
  CapType, CapStatus, ok, invalid, no_slots, denied, no_mem, CapEntry, flag_valid, cap_rights_has,
  cap_handle_index, cap_handle_gen, cap_handle_make,
}

abbrev pub slot_count : ℕ
slot_count = 256

pub record CapTable : Type 0 where
  pub slots : ℕ → Option CapEntry
  pub gens : ℕ → ℕ
  pub free_stack : ℕ → ℕ
  pub free_top : ℕ

abbrev pub cap_slot_valid_index : ℕ → Bool
cap_slot_valid_index idx = ltb idx slot_count

-- The index on top of the free stack.
abbrev pub top_index : CapTable → ℕ
top_index t = t.free_stack (t.free_top - 1)

unfoldable pub alloc_slot : CapTable → CapStatus × ℕ × CapTable
alloc_slot t =
    if t.free_top == 0
    then (no_slots, 0, t)
    else if cap_slot_valid_index (top_index t)
    then (ok, top_index t, record t { free_top = t.free_top - 1 })
    else (invalid, 0, record t { free_top = t.free_top - 1 })

unfoldable pub free_slot : CapTable → ℕ → CapTable
free_slot t idx =
    if not (cap_slot_valid_index idx)
    then t
    else if ltb t.free_top slot_count
    then record t { free_stack = update t.free_stack t.free_top idx; free_top = t.free_top + 1 }
    else t

-- The checks of `cap_lookup_ex` on an entry that it found in its slot.
unfoldable pub check_entry : CapTable → ℕ → ℕ → Option CapEntry → CapStatus × Option CapEntry
check_entry t h need none = (invalid, none)
check_entry t h need (some e) =
    if bit_and e.flags flag_valid == 0
    then (invalid, none)
    else if cap_handle_gen h == 0
        || (not (cap_handle_gen h == t.gens (cap_handle_index h))
            || not (cap_handle_gen h == e.gen))
    then (invalid, none)
    else if not (cap_rights_has e.rights need)
    then (denied, none)
    else (ok, some e)

unfoldable pub lookup_ex : CapTable → ℕ → ℕ → CapStatus × Option CapEntry
unfolding check_entry
lookup_ex t h need =
    if not (cap_slot_valid_index (cap_handle_index h))
    then (invalid, none)
    else check_entry t h need (t.slots (cap_handle_index h))

unfoldable pub cap_bump_gen : ℕ → ℕ
cap_bump_gen gen = if add_u32 gen 1 == 0 then 1 else add_u32 gen 1

unfoldable pub table_init : CapTable
table_init = record { slots = λ _. none; gens = λ _. 1; free_stack = λ i. i; free_top = slot_count }

-- The entry's slot is filled and the handle made; `idx` was popped from the free stack.
unfoldable pub fill_slot : CapTable → ℕ → CapType → ℕ → ℕ → CapTable
fill_slot t idx type rights obj = record t { slots = update t.slots idx (some entry) }
  where
    entry : CapEntry
    entry = record { type = type; rights = rights; obj = obj; gen = t.gens idx; flags = flag_valid }

-- The status, what is written through `out`, and the table.
unfoldable pub table_insert : CapTable → CapType → ℕ → ℕ → Bool → CapStatus × Option ℕ × CapTable
table_insert t type rights obj mem =
    let (st, idx, t') = alloc_slot t in
    elim st [
      | ok ↦
          if mem
          then (ok, some (cap_handle_make (t.gens idx) idx), fill_slot t' idx type rights obj)
          else (no_mem, none, free_slot t' idx)
      | other ↦ (other, none, t')
    ]

-- Clear a slot, free its entry, bump its generation and give the index back.
unfoldable pub clear_slot : CapTable → ℕ → CapTable
clear_slot t idx =
    free_slot
      (record t {
        slots = update t.slots idx none;
        gens = update t.gens idx (cap_bump_gen (t.gens idx));
      })
      idx

unfoldable pub table_remove : CapTable → ℕ → CapStatus × CapTable
table_remove t h =
    let (st, found) = lookup_ex t h 0 in
    elim found [
      | none ↦ (st, t)
      | some e ↦
          if not (cap_slot_valid_index (cap_handle_index h))
          then (invalid, t)
          else (ok, clear_slot t (cap_handle_index h))
    ]

-- One round of `cap_table_invalidate_object`.
unfoldable pub invalidate_slot : ℕ → ℕ → CapTable → CapTable
invalidate_slot obj i t = elim (t.slots i) [
  | none ↦ t
  | some e ↦
      if bit_and e.flags flag_valid == 0
      then t
      else if not (e.obj == obj)
      then t
      else clear_slot t i
]

-- The rounds from index `i` on, `n` of them.
unfoldable pub invalidate_from : ℕ → ℕ → ℕ → CapTable → CapTable
invalidate_from zero i obj t = t
invalidate_from (suc n) i obj t = invalidate_from n (suc i) obj (invalidate_slot obj i t)

unfoldable pub table_invalidate_object : CapTable → ℕ → CapTable
table_invalidate_object t obj = if obj == 0 then t else invalidate_from slot_count 0 obj t
