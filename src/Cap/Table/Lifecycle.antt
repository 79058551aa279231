-- ===== src/Cap/Table/Lifecycle.antt =====
-- The life of a handle: what insertion, removal and revocation do to every handle of a table, and
-- how long a removed handle stays dead.
use capaz_os_kernel.Common.{
  ℕ, zero, suc, ◌+◌, ◌≤◌, ◌<◌, ◌≡◌, ◌≢◌, ◌⊎◌, refl, inl, inr, true, Option, none, some, arith, ltb,
  leb, ◌&&◌, Bool-cases, Option-cases, ltb→lt, ◌==◌, if◌then◌else◌,
}
use capaz_os_kernel.Cap.Types.{
  CapType, CapEntry, ok, invalid, denied, cap_handle_index, cap_rights_has,
}
use capaz_os_kernel.Cap.Table.{
  CapTable, slot_count, clear_slot, free_slot, cap_bump_gen, table_insert, table_remove,
  invalidate_slot, invalidate_from, table_invalidate_object, lookup_ex,
}
use capaz_os_kernel.Cap.Table.Inv.{
  IsValid, insert_ok, invalidate_object-IsValid, invalidate_from-IsValid,
}
use capaz_os_kernel.Cap.Table.Handles.{
  new_entry, new_handle, lookup-fill, lookup-fill_old, remove_ok, lookup-clear, lookup-clear_ne,
}

-- In a valid table with a free slot, and given memory, an insertion succeeds and returns a handle
-- that opens the new entry for exactly the rights it was given; what the other handles opened
-- they still open.
pub insert_lem :
    {t : CapTable} (type : CapType) (rights obj : ℕ)
    → IsValid t
    → 0 < t.free_top
    → let (st, out, t') = table_insert t type rights obj true in
      (st ≡ ok)
      × (out ≡ some (new_handle t))
      × ((need : ℕ)
          → lookup_ex t' (new_handle t) need ≡ (
              if cap_rights_has rights need
              then (ok, some (new_entry t type rights obj))
              else (denied, none)))
      × ((h need : ℕ) (e : CapEntry)
          → (lookup_ex t h need).1 ≡ some e
          → lookup_ex t' h need ≡ (ok, some e))
insert_lem type rights obj v pos =
    rw (insert_ok v type rights obj pos)
      (refl, refl, lookup-fill v type rights obj pos, lookup-fill_old v type rights obj pos)

-- Removing a handle that opens an entry succeeds; from then on the handle opens nothing, a second
-- removal is refused and changes nothing, and handles of other slots are looked up as before.
pub remove_lem :
    {t : CapTable} (h : ℕ) (e : CapEntry)
    → IsValid t
    → (lookup_ex t h 0).1 ≡ some e
    → let (st, t') = table_remove t h in
      (st ≡ ok)
      × ((need : ℕ) → lookup_ex t' h need ≡ (invalid, none))
      × (table_remove t' h ≡ (invalid, t'))
      × ((h' need : ℕ)
          → cap_handle_index h' ≢ cap_handle_index h
          → lookup_ex t' h' need ≡ lookup_ex t h' need)
unfolding table_remove
remove_lem {t} h e v found = rw (remove_ok h e v found) (
  refl,
  lookup-clear h e v found,
  ground (arith, lookup-clear h e v found 0),
  lookup-clear_ne h e v found,
)

-- What is left of a slot when an object is revoked.
abbrev pub without : ℕ → Option CapEntry → Option CapEntry
without obj none = none
without obj (some e) = if e.obj == obj then none else some e

module _ (obj : ℕ) where
  invalidate_slot_gens :
      (i j : ℕ) (t : CapTable)
      → i < slot_count
      → ((invalidate_slot obj i t).gens j ≡ t.gens j)
        ⊎ ((i ≡ j) × ((invalidate_slot obj i t).gens j ≡ cap_bump_gen (t.gens j)))
  unfolding invalidate_slot clear_slot free_slot
  invalidate_slot_gens i j t hi = ground arith

  -- The slot is empty afterwards if it held the object, and is left alone otherwise.
  invalidate_slot_slots :
      (i j : ℕ) (t : CapTable)
      → i < slot_count
      → IsValid t
      → (invalidate_slot obj i t).slots j ≡ (if i == j then without obj (t.slots j) else t.slots j)
  unfolding invalidate_slot clear_slot free_slot
  invalidate_slot_slots i j t hi v = elim (Option-cases (t.slots i)) [
    | inl p ↦ ground arith
    | inr (e, p) ↦ ground (arith, v.slot_ok i e p)
  ]

  invalidate_slot-IsValid :
      (i : ℕ) (t : CapTable) → i < slot_count → IsValid t → IsValid (invalidate_slot obj i t)
  unfolding invalidate_from
  invalidate_slot-IsValid i t hi v = invalidate_from-IsValid 1 i obj (omega arith) v

  invalidate_from_slots :
      (n i j : ℕ) (t : CapTable)
      → i + n ≤ slot_count
      → IsValid t
      → (invalidate_from n i obj t).slots j
        ≡ (if leb i j && ltb j (i + n) then without obj (t.slots j) else t.slots j)
  unfolding invalidate_from
  invalidate_from_slots zero i j t h v = ground arith
  invalidate_from_slots (suc n) i j t h v = ground (
    arith,
    invalidate_from_slots n (suc i) j (invalidate_slot obj i t) (omega arith)
        (invalidate_slot-IsValid i t (omega arith) v),
    invalidate_slot_slots i j t (omega arith) v,
  )

  pub invalidate_from_gens :
      (n i j : ℕ) (t : CapTable)
      → i + n ≤ slot_count
      → ((invalidate_from n i obj t).gens j ≡ t.gens j)
        ⊎ ((i ≤ j) × ((invalidate_from n i obj t).gens j ≡ cap_bump_gen (t.gens j)))
  unfolding invalidate_from
  invalidate_from_gens zero i j t h = inl refl
  invalidate_from_gens (suc n) i j t h = ground (
    arith,
    invalidate_from_gens n (suc i) j (invalidate_slot obj i t) (omega arith),
    invalidate_slot_gens i j t (omega arith),
  )

  invalidate_slots :
      (j : ℕ) (t : CapTable)
      → obj ≢ 0
      → j < slot_count
      → IsValid t
      → (table_invalidate_object t obj).slots j ≡ without obj (t.slots j)
  unfolding table_invalidate_object
  invalidate_slots j t ne hj v =
      ground (arith, invalidate_from_slots slot_count 0 j t (omega arith) v)

  -- Revoking an object closes every handle that opened it, and no other: each lookup finds what it
  -- found before, unless that was an entry of the object.
  pub invalidate_object_lem :
      (t : CapTable) (h need : ℕ)
      → IsValid t
      → obj ≢ 0
      → (lookup_ex (table_invalidate_object t obj) h need).1 ≡ without obj (lookup_ex t h need).1
  unfolding lookup_ex
  invalidate_object_lem t h need v ne = elim (Bool-cases (ltb i slot_count)) [
    | inl hi ↦
        let slot = invalidate_slots i t ne (ltb→lt i slot_count hi) v in
        elim (Option-cases (t.slots i)) [
          | inl p ↦ ground (arith, slot)
          | inr (e, p) ↦
              ground (arith, slot, v.slot_ok i e p, (invalidate_object-IsValid obj v).slot_ok i e)
        ]
    | inr hi ↦ ground arith
  ]
    where
      i : ℕ
      i = cap_handle_index h
