-- ===== src/Cap/Table/Handles.antt =====
-- What the handles of a table do: a handle is good from its insertion to its removal.
use capaz_os_kernel.Common.{ℕ, ◌-◌, ◌<◌, ◌≡◌, ◌≢◌, none, some, arith, u32_mod, if◌then◌else◌}
use capaz_os_kernel.Cap.Types.{
  CapType, CapEntry, ok, invalid, denied, flag_valid, cap_handle_make, cap_handle_index,
  cap_handle_gen, cap_rights_has,
}
use capaz_os_kernel.Cap.Table.{
  CapTable, top_index, fill_slot, clear_slot, free_slot, table_remove, lookup_ex,
}
use capaz_os_kernel.Cap.Table.Inv.{IsValid, popped, lookup_sound}

-- A handle gives back the two parts it was made of.
pub handle_parts :
    (gen idx : ℕ)
    → gen < u32_mod
    → idx < u32_mod
    → (cap_handle_index (cap_handle_make gen idx) ≡ idx)
      × (cap_handle_gen (cap_handle_make gen idx) ≡ gen)
handle_parts gen idx hg hi = omega arith

-- The entry that an insertion makes.
abbrev pub new_entry : CapTable → CapType → ℕ → ℕ → CapEntry
new_entry t type rights obj = record {
  type = type;
  rights = rights;
  obj = obj;
  gen = t.gens (top_index t);
  flags = flag_valid;
}

abbrev pub new_handle : CapTable → ℕ
new_handle t = cap_handle_make (t.gens (top_index t)) (top_index t)

module _ {t : CapTable} (v : IsValid t) (type : CapType) (rights obj : ℕ)
    (pos : 0 < t.free_top) where
  pub new_parts :
      (cap_handle_index (new_handle t) ≡ top_index t)
      × (cap_handle_gen (new_handle t) ≡ t.gens (top_index t))
  new_parts =
      handle_parts (t.gens (top_index t)) (top_index t) (v.gens_ok _ (popped v pos).0).1
        (omega (arith, popped v pos))

  abbrev pub filled : CapTable
  filled = fill_slot (record t { free_top = t.free_top - 1 }) (top_index t) type rights obj

  -- A new handle opens the new entry with every right that the entry has, and with no other.
  pub lookup-fill :
      (need : ℕ)
      → lookup_ex filled (new_handle t) need ≡ (
          if cap_rights_has rights need
          then (ok, some (new_entry t type rights obj))
          else (denied, none))
  unfolding lookup_ex fill_slot
  lookup-fill need =
      ground (arith, new_parts, popped v pos, v.gens_ok (top_index t) (popped v pos).0)

  pub lookup-fill_old :
      (h need : ℕ) (e : CapEntry)
      → (lookup_ex t h need).1 ≡ some e
      → lookup_ex filled h need ≡ (ok, some e)
  unfolding lookup_ex fill_slot
  lookup-fill_old h need e p = ground (arith, popped v pos)

module _ {t : CapTable} (h : ℕ) (e : CapEntry) (v : IsValid t)
    (found : (lookup_ex t h 0).1 ≡ some e) where
  pub remove_ok : table_remove t h ≡ (ok, clear_slot t (cap_handle_index h))
  unfolding table_remove
  remove_ok = ground (arith, lookup_sound v h 0 e found)

  pub lookup-clear :
      (need : ℕ) → lookup_ex (clear_slot t (cap_handle_index h)) h need ≡ (invalid, none)
  unfolding lookup_ex clear_slot free_slot
  lookup-clear need = ground arith

  pub lookup-clear_ne :
      (h' need : ℕ)
      → cap_handle_index h' ≢ cap_handle_index h
      → lookup_ex (clear_slot t (cap_handle_index h)) h' need ≡ lookup_ex t h' need
  unfolding lookup_ex clear_slot free_slot
  lookup-clear_ne h' need ne = ground arith
