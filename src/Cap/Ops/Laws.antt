-- ===== src/Cap/Ops/Laws.antt =====
-- Duplication and transfer: rights only shrink, a failed call changes no table, and a transfer
-- moves the capability, also within one table.
use Prim.Native.Nat.{bit_and}
use capaz_os_kernel.Common.{
  ℕ, ◌<◌, ◌≡◌, ◌≢◌, inl, inr, Bool, true, some, arith, ◌==◌, Option-cases, Bool-cases, ==_iff,
}
use capaz_os_kernel.Common.Bits.{submask, bit_and-zero}
use capaz_os_kernel.Cap.Types.{CapType, ok, CapEntry, right_dup, cap_rights_has}
use capaz_os_kernel.Cap.Table.{CapTable, lookup_ex, table_insert}
use capaz_os_kernel.Cap.Table.Inv.{IsValid, insert_full, insert_no_mem, insert_ok}
use capaz_os_kernel.Cap.Table.Handles.{new_entry, new_handle}
use capaz_os_kernel.Cap.Table.Lifecycle.{insert_lem}
use capaz_os_kernel.Cap.Ops.{Tables, cap_lookup, cap_table_insert, cap_dup}

-- An insertion that fails leaves its table.
insert_atomic :
    {t : CapTable} (type : CapType) (rights obj : ℕ) (mem : Bool)
    → IsValid t
    → ((table_insert t type rights obj mem).0 ≢ ok)
    → (table_insert t type rights obj mem).2 ≡ t
insert_atomic {t} type rights obj mem v bad = elim (Bool-cases (t.free_top == 0)) [
  | inl e ↦ ground (arith, insert_full v type rights obj mem)
  | inr e ↦ elim (Bool-cases mem) [
    | inl m ↦ ground (arith, insert_ok v type rights obj)
    | inr m ↦ ground (arith, insert_no_mem v type rights obj)
  ]
]

pub insert_clean :
    (ts : Tables) (t : ℕ) (type : CapType) (rights obj out : ℕ) (mem : Bool) (s : ℕ)
    → IsValid (ts t)
    → (cap_table_insert ts t type rights obj out mem).0 ≢ ok
    → (cap_table_insert ts t type rights obj out mem).2 s ≡ ts s
unfolding cap_table_insert
insert_clean ts t type rights obj out mem s v bad =
    ground (arith, insert_atomic type rights obj mem v)

-- A duplication that fails, for whatever reason, leaves every table as it was.
pub dup_clean :
    (ts : Tables) (src h dst mask out : ℕ) (mem : Bool) (s : ℕ)
    → IsValid (ts dst)
    → (cap_dup ts src h dst mask out mem).0 ≢ ok
    → (cap_dup ts src h dst mask out mem).2 s ≡ ts s
unfolding cap_dup
dup_clean ts src h dst mask out mem s v bad = elim (Option-cases (cap_lookup ts src h right_dup)) [
  | inl p ↦ ground arith
  | inr (e, p) ↦
      ground (arith, insert_clean ts dst e.type (bit_and e.rights mask) e.obj out mem s v)
]

pub lookup_weaken :
    (t : CapTable) (h need : ℕ) (e : CapEntry)
    → (lookup_ex t h need).1 ≡ some e
    → (lookup_ex t h 0).1 ≡ some e
unfolding lookup_ex
lookup_weaken t h need e p = ground (arith, bit_and-zero e.rights)

-- e' is e with rights that both e and the mask cover.
pub record Attenuates (e : CapEntry) (mask : ℕ) (e' : CapEntry) (need : ℕ) : Type 0 where
  pub same_type : e'.type ≡ e.type
  pub same_obj : e'.obj ≡ e.obj
  pub had : cap_rights_has e.rights need ≡ true
  pub allowed : cap_rights_has mask need ≡ true

module _ {t : CapTable} (e : CapEntry) (mask : ℕ) (v : IsValid t) (pos : 0 < t.free_top) where
  abbrev pub with_copy : CapTable
  with_copy = (table_insert t e.type (bit_and e.rights mask) e.obj true).2

  pub copy-Attenuates :
      (need : ℕ) (e' : CapEntry)
      → (lookup_ex with_copy (new_handle t) need).1 ≡ some e'
      → Attenuates e mask e' need
  copy-Attenuates need e' p =
      let made = insert_lem e.type (bit_and e.rights mask) e.obj v pos in
      elim (Bool-cases (cap_rights_has (bit_and e.rights mask) need)) [
        | inl y ↦ ground (arith, made.2 need, submask e.rights mask need ((==_iff _ _).0 y))
        | inr n ↦ ground (arith, made.2 need)
      ]

-- A capability with the duplication right can be copied into a table with a free slot: the new
-- handle opens the same object for the rights that the masked ones cover, and only for rights that
-- both the original and the mask cover; whatever the original handle opened it still opens, also
-- in the same table.
pub dup_lem :
    (ts : Tables) (src h dst mask out : ℕ) (e : CapEntry)
    → src ≢ 0
    → dst ≢ 0
    → out ≢ 0
    → IsValid (ts dst)
    → 0 < (ts dst).free_top
    → cap_lookup ts src h right_dup ≡ some e
    → let (st, written, ts') = cap_dup ts src h dst mask out true in
      (st ≡ ok)
      × (written ≡ some (new_handle (ts dst)))
      × ((need : ℕ)
          → cap_rights_has (bit_and e.rights mask) need ≡ true
          → cap_lookup ts' dst (new_handle (ts dst)) need
            ≡ some (new_entry (ts dst) e.type (bit_and e.rights mask) e.obj))
      × ((need : ℕ) (e' : CapEntry)
          → cap_lookup ts' dst (new_handle (ts dst)) need ≡ some e'
          → Attenuates e mask e' need)
      × ((need : ℕ) (e' : CapEntry)
          → cap_lookup ts src h need ≡ some e'
          → cap_lookup ts' src h need ≡ some e')
unfolding cap_dup cap_table_insert cap_lookup
dup_lem ts src h dst mask out e nsrc ndst nout v pos found =
    let made = insert_lem e.type (bit_and e.rights mask) e.obj v pos in
    (
      ground (arith, made.0),
      ground (arith, made.1),
      (λ need y. ground (arith, made.2 need)),
      (λ need e' p. copy-Attenuates e mask v pos need e' (ground arith)),
      (λ need e' p. ground (arith, made.3 h need e')),
    )
