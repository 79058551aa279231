-- ===== src/Tests/Caps.antt =====
-- Capability tables on concrete inputs.
use Prim.Native.Nat.{bit_and}
use capaz_os_kernel.Common.{
  ℕ, ◌<◌, ◌≡◌, ◌≢◌, refl, ap, subst, update, true, false, none, some, arith, List, [], ◌∷◌,
  if◌then◌else◌,
}
use capaz_os_kernel.Cap.Types.{CapEntry, endpoint, vmo, ok, invalid, denied, cap_rights_has}
use capaz_os_kernel.Cap.Table.{
  CapTable, table_init, table_insert, table_remove, table_invalidate_object, lookup_ex, alloc_slot,
  free_slot, fill_slot, clear_slot, cap_bump_gen,
}
use capaz_os_kernel.Cap.Table.Inv.{IsValid, init-IsValid, insert-IsValid}
use capaz_os_kernel.Cap.Table.Handles.{new_entry, new_handle}
use capaz_os_kernel.Cap.Table.Lifecycle.{insert_lem, invalidate_object_lem, without}
use capaz_os_kernel.Cap.Table.History.{
  TableOp, insert, remove, revoke, apply_all, apply_all-init-IsValid, removed_stays_dead,
}
use capaz_os_kernel.Cap.Ops.{
  Tables, cap_dup, cap_transfer, finish_transfer, cap_lookup, cap_table_insert,
}
use capaz_os_kernel.Cap.Ops.Laws.{Attenuates, dup_lem}
use capaz_os_kernel.Cap.Ops.Transfer.{transfer_lem, transfer_clean}

-- A table with one endpoint, at address 4096, that may be duplicated and transferred.
abbrev entry : CapEntry
entry = record { type = endpoint; rights = 25; obj = 4096; gen = 1; flags = 1 }

abbrev one_cap : CapTable
one_cap = record {
  slots = update (λ _. none) 255 (some entry);
  gens = λ _. 1;
  free_stack = λ i. i;
  free_top = 255;
}

-- The handle of slot 255 and generation 1.
abbrev handle : ℕ
handle = 4294967551

one_cap-insert : (table_insert table_init endpoint 25 4096 true) ≡ (ok, some handle, one_cap)
unfolding table_insert alloc_slot fill_slot table_init
one_cap-insert = refl

one_cap-IsValid : IsValid one_cap
one_cap-IsValid =
    subst IsValid (ap (λ r. r.2) one_cap-insert) (insert-IsValid init-IsValid endpoint 25 4096 true)

finds : (need : ℕ) → (bit_and 25 need ≡ need) → lookup_ex one_cap handle need ≡ (ok, some entry)
unfolding lookup_ex
finds need h = ground arith

removed_is_stale : (table_remove (table_remove one_cap handle).1 handle).0 ≡ invalid
unfolding table_remove lookup_ex clear_slot free_slot cap_bump_gen
removed_is_stale = refl

insert_lem_example :
    let (st, out, t') = table_insert one_cap vmo 9 512 true in
    (st ≡ ok)
    × (out ≡ some (new_handle one_cap))
    × ((need : ℕ)
        → lookup_ex t' (new_handle one_cap) need ≡ (
            if cap_rights_has 9 need
            then (ok, some (new_entry one_cap vmo 9 512))
            else (denied, none)))
    × ((h need : ℕ) (e : CapEntry)
        → (lookup_ex one_cap h need).1 ≡ some e
        → lookup_ex t' h need ≡ (ok, some e))
insert_lem_example = insert_lem vmo 9 512 one_cap-IsValid (omega arith)

invalidate_object_lem_example :
    (lookup_ex (table_invalidate_object one_cap 4096) handle 8).1
    ≡ without 4096 (lookup_ex one_cap handle 8).1
invalidate_object_lem_example =
    invalidate_object_lem 4096 one_cap handle 8 one_cap-IsValid (omega arith)

abbrev history : List TableOp
history = insert vmo 9 512 true ∷ remove handle ∷ revoke 512 ∷ []

apply_all-init-IsValid_example : IsValid (apply_all history table_init)
apply_all-init-IsValid_example = apply_all-init-IsValid history

removed_stays_dead_example :
    lookup_ex (apply_all history (table_remove one_cap handle).1) handle 8 ≡ (invalid, none)
removed_stays_dead_example =
    removed_stays_dead handle 8 entry history one_cap-IsValid (ap (λ r. r.1) (finds 0 refl))
      (omega arith)

-- Two tables: at 1 the one above, at 2 an empty one.
abbrev tables : Tables
tables = update (λ _. table_init) 1 one_cap

opens : (need : ℕ) → (bit_and 25 need ≡ need) → cap_lookup tables 1 handle need ≡ some entry
unfolding cap_lookup
opens need h = ap (λ r. r.1) (finds need h)

init_room : 0 < table_init.free_top
unfolding table_init
init_room = omega arith

dup_lem_example :
    let (st, written, ts') = cap_dup tables 1 handle 2 1 64 true in
    (st ≡ ok)
    × (written ≡ some (new_handle table_init))
    × ((need : ℕ)
        → cap_rights_has (bit_and 25 1) need ≡ true
        → cap_lookup ts' 2 (new_handle table_init) need
          ≡ some (new_entry table_init endpoint (bit_and 25 1) 4096))
    × ((need : ℕ) (e' : CapEntry)
        → cap_lookup ts' 2 (new_handle table_init) need ≡ some e'
        → Attenuates entry 1 e' need)
    × ((need : ℕ) (e' : CapEntry)
        → cap_lookup tables 1 handle need ≡ some e'
        → cap_lookup ts' 1 handle need ≡ some e')
dup_lem_example =
    dup_lem tables 1 handle 2 1 64 entry (omega arith) (omega arith) (omega arith) init-IsValid
      init_room (opens 8 refl)

-- A transfer within one table.
transfer_lem_example :
    let (st, written, ts') = cap_transfer tables 1 handle 1 9 64 true in
    (st ≡ ok)
    × (written ≡ some (new_handle one_cap))
    × ((need : ℕ)
        → cap_rights_has (bit_and 25 9) need ≡ true
        → cap_lookup ts' 1 (new_handle one_cap) need
          ≡ some (new_entry one_cap endpoint (bit_and 25 9) 4096))
    × ((need : ℕ) (e' : CapEntry)
        → cap_lookup ts' 1 (new_handle one_cap) need ≡ some e'
        → Attenuates entry 9 e' need)
    × ((need : ℕ) → cap_lookup ts' 1 handle need ≡ none)
transfer_lem_example =
    transfer_lem tables 1 handle 1 9 64 entry (omega arith) (omega arith) (omega arith)
      one_cap-IsValid one_cap-IsValid (omega arith) (opens 16 refl)

-- No memory for the new entry.
no_memory : (cap_dup tables 1 handle 2 1 64 false).0 ≢ ok
unfolding cap_dup cap_table_insert cap_lookup lookup_ex table_insert alloc_slot table_init
no_memory e = cc

transfer_no_memory : (cap_transfer tables 1 handle 2 1 64 false).0 ≢ ok
unfolding cap_transfer finish_transfer cap_table_insert cap_lookup lookup_ex table_insert alloc_slot
    table_init
transfer_no_memory e = cc

transfer_clean_example : (cap_transfer tables 1 handle 2 1 64 false).2 1 ≡ tables 1
transfer_clean_example =
    transfer_clean tables 1 handle 2 1 64 false 1 one_cap-IsValid init-IsValid transfer_no_memory
