-- ===== src/Cap/Ops.antt =====
-- cap_ops.c, and the entry points of cap_table.c with their null checks. The tables are a store by
-- address, so that the source and the destination of a call may be one table; address 0 is NULL.
-- `out` is the address that a new handle is written to, and the option among a call's results is
-- what was written there.
pub mod Laws
pub mod Transfer
use Prim.Native.Nat.{bit_and}
use capaz_os_kernel.Common.{ℕ, Bool, ◌||◌, Option, none, some, ◌==◌, if◌then◌else◌, update}
use capaz_os_kernel.Cap.Types.{
  CapType, CapStatus, ok, invalid, denied, CapEntry, right_dup, right_transfer,
}
use capaz_os_kernel.Cap.Table.{
  CapTable, lookup_ex, table_insert, table_remove, table_invalidate_object,
}

abbrev pub Tables : Type 0
Tables = ℕ → CapTable

-- What an operation that makes a handle returns.
abbrev pub Made : Type 0
Made = CapStatus × Option ℕ × Tables

unfoldable pub cap_lookup : Tables → ℕ → ℕ → ℕ → Option CapEntry
cap_lookup ts t h need = if t == 0 then none else (lookup_ex (ts t) h need).1

unfoldable pub cap_table_insert : Tables → ℕ → CapType → ℕ → ℕ → ℕ → Bool → Made
cap_table_insert ts t type rights obj out mem =
    if t == 0 || out == 0
    then (invalid, none, ts)
    else let (st, written, t') = table_insert (ts t) type rights obj mem in
      (st, written, update ts t t')

unfoldable pub cap_table_remove : Tables → ℕ → ℕ → CapStatus × Tables
cap_table_remove ts t h =
    if t == 0 then (invalid, ts) else let (st, t') = table_remove (ts t) h in (st, update ts t t')

unfoldable pub cap_table_invalidate : Tables → ℕ → ℕ → CapStatus × Tables
cap_table_invalidate ts t h = cap_table_remove ts t h

unfoldable pub cap_table_invalidate_object : Tables → ℕ → ℕ → Tables
cap_table_invalidate_object ts t obj =
    if t == 0 || obj == 0 then ts else update ts t (table_invalidate_object (ts t) obj)

unfoldable pub cap_create : Tables → ℕ → CapType → ℕ → ℕ → ℕ → Bool → Made
cap_create ts t type rights obj out mem =
    if t == 0 || out == 0
    then (invalid, none, ts)
    else cap_table_insert ts t type rights obj out mem

unfoldable pub cap_dup : Tables → ℕ → ℕ → ℕ → ℕ → ℕ → Bool → Made
cap_dup ts src h dst mask out mem =
    if src == 0 || (dst == 0 || out == 0)
    then (invalid, none, ts)
    else elim (cap_lookup ts src h right_dup) [
      | none ↦ (denied, none, ts)
      | some e ↦ cap_table_insert ts dst e.type (bit_and e.rights mask) e.obj out mem
    ]

-- The second half of `cap_transfer`: the handle was inserted, and the source's is dropped; if that
-- fails, the insertion is rolled back.
unfoldable pub finish_transfer : ℕ → ℕ → ℕ → Made → Made
finish_transfer src h dst (ok, some written, ts) =
    let (st, ts') = cap_table_remove ts src h in
    elim st [
      | ok ↦ (ok, some written, ts')
      | other ↦ (other, some written, (cap_table_remove ts' dst written).1)
    ]
finish_transfer src h dst other = other

unfoldable pub cap_transfer : Tables → ℕ → ℕ → ℕ → ℕ → ℕ → Bool → Made
cap_transfer ts src h dst mask out mem =
    if src == 0 || (dst == 0 || out == 0)
    then (invalid, none, ts)
    else elim (cap_lookup ts src h right_transfer) [
      | none ↦ (denied, none, ts)
      | some e ↦
          finish_transfer src h dst
            (cap_table_insert ts dst e.type (bit_and e.rights mask) e.obj out mem)
    ]

unfoldable pub cap_drop : Tables → ℕ → ℕ → CapStatus × Tables
cap_drop ts t h = if t == 0 then (invalid, ts) else cap_table_remove ts t h

unfoldable pub cap_invalidate : Tables → ℕ → ℕ → CapStatus × Tables
cap_invalidate ts t h = if t == 0 then (invalid, ts) else cap_table_invalidate ts t h
