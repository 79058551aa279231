-- ===== src/Cap/Ops/Transfer.antt =====
-- A transfer moves a capability, also within one table, and its rollback is never needed.
use Prim.Native.Nat.{bit_and}
use capaz_os_kernel.Common.{
  ℕ, ◌<◌, ◌≡◌, ◌≢◌, refl, ap, inl, inr, Bool, true, none, some, arith, ◌==◌, update, Option-cases,
  Bool-cases,
}
use capaz_os_kernel.Cap.Types.{
  CapType, ok, CapEntry, right_transfer, cap_rights_has, cap_handle_index,
}
use capaz_os_kernel.Cap.Table.{CapTable, lookup_ex, table_insert, table_remove}
use capaz_os_kernel.Cap.Table.Inv.{
  IsValid, insert_full, insert_no_mem, insert-IsValid, lookup_sound, popped,
}
use capaz_os_kernel.Cap.Table.Handles.{new_entry, new_handle, new_parts}
use capaz_os_kernel.Cap.Table.Lifecycle.{insert_lem, remove_lem}
use capaz_os_kernel.Cap.Ops.{
  Tables, cap_lookup, cap_table_insert, cap_table_remove, cap_transfer, finish_transfer,
}
use capaz_os_kernel.Cap.Ops.Laws.{
  Attenuates, with_copy, copy-Attenuates, lookup_weaken, insert_clean,
}

module _ (ts : Tables) (src h dst mask : ℕ) (e : CapEntry) (vsrc : IsValid (ts src))
    (vdst : IsValid (ts dst)) (pos : 0 < (ts dst).free_top)
    (found : (lookup_ex (ts src) h right_transfer).1 ≡ some e) where
  -- The tables between the insertion and the removal.
  abbrev mid : Tables
  mid = update ts dst (with_copy e mask vdst pos)

  mid_found : (lookup_ex (mid src) h 0).1 ≡ some e
  mid_found =
      let made = insert_lem e.type (bit_and e.rights mask) e.obj vdst pos in
      ground (arith, lookup_weaken (ts src) h right_transfer e found, made.3 h 0 e)

  mid-IsValid : IsValid (mid src)
  mid-IsValid = elim (Bool-cases (dst == src)) [
    | inl y ↦ rw y (insert-IsValid vdst e.type (bit_and e.rights mask) e.obj true)
    | inr n ↦ rw n vsrc
  ]

  -- The new handle does not name the slot of the old one, where both are of one table.
  fresh_slot : dst ≡ src → cap_handle_index (new_handle (ts dst)) ≢ cap_handle_index h
  fresh_slot same clash = cc (
    (popped vdst pos).1,
    (lookup_sound vsrc h right_transfer e found).2,
    (new_parts vdst e.type (bit_and e.rights mask) e.obj pos).0,
    ap (λ s. (ts s).slots (cap_handle_index h)) same,
  )

  abbrev after : Tables
  after = update mid src (table_remove (mid src) h).1

  -- What the new handle opens after the transfer it opened between the two halves.
  new_after :
      (need : ℕ)
      → (lookup_ex (after dst) (new_handle (ts dst)) need).1
        ≡ (lookup_ex (mid dst) (new_handle (ts dst)) need).1
  new_after need = elim (Bool-cases (src == dst)) [
    | inl y ↦ ground (
      arith,
      (remove_lem h e mid-IsValid mid_found).3 (new_handle (ts dst)) need
          (fresh_slot (ground arith)),
    )
    | inr n ↦ ground arith
  ]

  old_after : (need : ℕ) → (lookup_ex (after src) h need).1 ≡ none
  old_after need = ground (arith, (remove_lem h e mid-IsValid mid_found).1 need)

  transfer_steps :
      (out : ℕ)
      → src ≢ 0
      → dst ≢ 0
      → out ≢ 0
      → cap_transfer ts src h dst mask out true ≡ (ok, some (new_handle (ts dst)), after)
  unfolding cap_transfer finish_transfer cap_table_insert cap_table_remove cap_lookup
  transfer_steps out nsrc ndst nout =
      let made = insert_lem e.type (bit_and e.rights mask) e.obj vdst pos in
      ground (arith, made.0, made.1, (remove_lem h e mid-IsValid mid_found).0)

-- A capability with the transfer right can be moved into a table with a free slot: the new handle
-- opens the same object for the rights that the masked ones cover, and only for rights that both
-- the original and the mask cover, and the old handle opens nothing any more. The source and the
-- destination may be one table.
pub transfer_lem :
    (ts : Tables) (src h dst mask out : ℕ) (e : CapEntry)
    → src ≢ 0
    → dst ≢ 0
    → out ≢ 0
    → IsValid (ts src)
    → IsValid (ts dst)
    → 0 < (ts dst).free_top
    → cap_lookup ts src h right_transfer ≡ some e
    → let (st, written, ts') = cap_transfer ts src h dst mask out true in
      (st ≡ ok)
      × (written ≡ some (new_handle (ts dst)))
      × ((need : ℕ)
          → cap_rights_has (bit_and e.rights mask) need ≡ true
          → cap_lookup ts' dst (new_handle (ts dst)) need
            ≡ some (new_entry (ts dst) e.type (bit_and e.rights mask) e.obj))
      × ((need : ℕ) (e' : CapEntry)
          → cap_lookup ts' dst (new_handle (ts dst)) need ≡ some e'
          → Attenuates e mask e' need)
      × ((need : ℕ) → cap_lookup ts' src h need ≡ none)
unfolding cap_lookup
transfer_lem ts src h dst mask out e nsrc ndst nout vsrc vdst pos found =
    let opened : (lookup_ex (ts src) h right_transfer).1 ≡ some e = ground arith in
    let made = insert_lem e.type (bit_and e.rights mask) e.obj vdst pos in
    rw (transfer_steps ts src h dst mask e vsrc vdst pos opened out nsrc ndst nout) (
      refl,
      refl,
      (λ need y.
          ground (arith, new_after ts src h dst mask e vsrc vdst pos opened need, made.2 need)),
      (λ need e' p.
          copy-Attenuates e mask vdst pos need e'
            (ground (arith, new_after ts src h dst mask e vsrc vdst pos opened need))),
      (λ need. ground (arith, old_after ts src h dst mask e vsrc vdst pos opened need)),
    )

insert_needs :
    {t : CapTable} (type : CapType) (rights obj : ℕ) (mem : Bool)
    → IsValid t
    → (table_insert t type rights obj mem).0 ≡ ok
    → (0 < t.free_top) × (mem ≡ true)
insert_needs {t} type rights obj mem v st = elim (Bool-cases (t.free_top == 0)) [
  | inl e ↦ ground (arith, insert_full v type rights obj mem)
  | inr e ↦ elim (Bool-cases mem) [
    | inl m ↦ (ground arith, m)
    | inr m ↦ ground (arith, insert_no_mem v type rights obj)
  ]
]

insert_guards :
    (ts : Tables) (t : ℕ) (type : CapType) (rights obj out : ℕ) (mem : Bool)
    → (cap_table_insert ts t type rights obj out mem).0 ≡ ok
    → (t ≢ 0) × (out ≢ 0) × ((table_insert (ts t) type rights obj mem).0 ≡ ok)
unfolding cap_table_insert
insert_guards ts t type rights obj out mem st = ground arith

-- If the insertion succeeds so does the transfer: the rollback branch is never taken.
transfer_ok :
    (ts : Tables) (src h dst mask out : ℕ) (mem : Bool) (e : CapEntry)
    → IsValid (ts src)
    → IsValid (ts dst)
    → src ≢ 0
    → cap_lookup ts src h right_transfer ≡ some e
    → (cap_table_insert ts dst e.type (bit_and e.rights mask) e.obj out mem).0 ≡ ok
    → (cap_transfer ts src h dst mask out mem).0 ≡ ok
unfolding cap_lookup
transfer_ok ts src h dst mask out mem e vsrc vdst nsrc found st =
    let g = insert_guards ts dst e.type (bit_and e.rights mask) e.obj out mem st in
    let need = insert_needs e.type (bit_and e.rights mask) e.obj mem vdst g.2 in
    let opened : (lookup_ex (ts src) h right_transfer).1 ≡ some e = ground arith in
    rw need.1
      (ground (arith, transfer_steps ts src h dst mask e vsrc vdst need.0 opened out nsrc g.0 g.1))

-- A transfer that fails, for whatever reason, leaves every table as it was.
pub transfer_clean :
    (ts : Tables) (src h dst mask out : ℕ) (mem : Bool) (s : ℕ)
    → IsValid (ts src)
    → IsValid (ts dst)
    → (cap_transfer ts src h dst mask out mem).0 ≢ ok
    → (cap_transfer ts src h dst mask out mem).2 s ≡ ts s
unfolding cap_transfer finish_transfer
transfer_clean ts src h dst mask out mem s vsrc vdst bad =
    elim (Option-cases (cap_lookup ts src h right_transfer)) [
      | inl p ↦ ground arith
      | inr (e, p) ↦ ground (
        arith,
        insert_clean ts dst e.type (bit_and e.rights mask) e.obj out mem s vdst,
        transfer_ok ts src h dst mask out mem e vsrc vdst,
      )
    ]
