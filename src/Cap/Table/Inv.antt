-- ===== src/Cap/Table/Inv.antt =====
-- The invariant of a capability table: the free stack lists exactly the empty slots, each once, and
-- every entry carries the generation of its slot.
use Prim.Native.Nat.{bit_and}
use capaz_os_kernel.Common.{
  not, cases-if, ℕ, zero, suc, ◌+◌, ◌-◌, ◌≤◌, ◌<◌, ◌≡◌, refl, inl, inr, Bool, true, false, none,
  some, arith, ltb, Bool-cases, Option-cases, lt→ltb, fun_ext, u32_mod, update, ◌==◌,
}
use capaz_os_kernel.Common.Pigeonhole.{missed_injection}
use capaz_os_kernel.Cap.Types.{
  CapType, CapEntry, ok, no_mem, no_slots, flag_valid, cap_handle_make, cap_handle_index,
  cap_handle_gen, cap_rights_has,
}
use capaz_os_kernel.Cap.Table.{
  CapTable, slot_count, top_index, alloc_slot, free_slot, fill_slot, clear_slot, cap_bump_gen,
  table_init, table_insert, table_remove, invalidate_slot, invalidate_from, table_invalidate_object,
  lookup_ex,
}

pub record IsValid (t : CapTable) : Type 0 where
  pub top_le : t.free_top ≤ slot_count
  pub gens_ok : (i : ℕ) → i < slot_count → (0 < t.gens i) × (t.gens i < u32_mod)
  pub slot_ok :
      (i : ℕ) (e : CapEntry) → t.slots i ≡ some e → (e.gen ≡ t.gens i) × (e.flags ≡ flag_valid)
  pub free_in :
      (k : ℕ) → k < t.free_top → (t.free_stack k < slot_count) × (t.slots (t.free_stack k) ≡ none)
  pub free_inj :
      (j k : ℕ) → j < t.free_top → k < t.free_top → t.free_stack j ≡ t.free_stack k → j ≡ k
  pub free_all :
      (i : ℕ)
      → i < slot_count
      → t.slots i ≡ none
      → (k : ℕ) × (k < t.free_top) × (t.free_stack k ≡ i)

-- A fresh table is valid.
pub init-IsValid : IsValid table_init
unfolding table_init
init-IsValid = record {
  top_le = omega arith;
  gens_ok = λ i h. omega arith;
  slot_ok = λ i e h. cc;
  free_in = λ k h. (h, refl);
  free_inj = λ j k hj hk e. e;
  free_all = λ i h e. (i, h, refl);
}

-- An occupied slot leaves room on the free stack.
pub free_top-lt :
    {t : CapTable} (i : ℕ) (e : CapEntry)
    → IsValid t
    → i < slot_count
    → t.slots i ≡ some e
    → t.free_top < slot_count
free_top-lt {t} i e v hi he = elim (Bool-cases (ltb t.free_top slot_count)) [
  | inl lt ↦ ground arith
  | inr ge ↦
      let full : t.free_top ≡ slot_count = ground (arith, v.top_le) in
      absurd (
        missed_injection slot_count i t.free_stack
          (record {
            into = λ k hk. (v.free_in k (omega arith)).0;
            inj = λ j k hj hk. v.free_inj j k (omega arith) (omega arith);
          })
          hi (λ k hk p. ground (arith, v.free_in k (omega arith))))
]

pub bump_lem : (g : ℕ) → g < u32_mod → (0 < cap_bump_gen g) × (cap_bump_gen g < u32_mod)
unfolding cap_bump_gen
bump_lem g h = ground arith

module _ {t : CapTable} (v : IsValid t) where
  -- What is popped is an empty slot.
  pub popped :
      0 < t.free_top
      → (t.free_stack (t.free_top - 1) < slot_count)
        × (t.slots (t.free_stack (t.free_top - 1)) ≡ none)
  popped h = v.free_in (t.free_top - 1) (omega arith)

  pub fill-IsValid :
      (type : CapType) (rights obj : ℕ)
      → 0 < t.free_top
      → IsValid (
          fill_slot
            (record t { free_top = t.free_top - 1 })
            (t.free_stack (t.free_top - 1))
            type
            rights
            obj)
  unfolding fill_slot
  fill-IsValid type rights obj h = record {
    top_le = omega (arith, v.top_le);
    gens_ok = v.gens_ok;
    slot_ok = λ i e p. ground (arith, v.slot_ok i e);
    free_in = λ k hk. ground (
      arith,
      v.free_in k (omega arith),
      v.free_inj k (t.free_top - 1) (omega arith) (omega arith),
    );
    free_inj = λ j k hj hk. v.free_inj j k (omega arith) (omega arith);
    free_all = λ i hi p.
        let old = v.free_all i hi (ground arith) in (old.0, ground (arith, old.1, old.2), old.2);
  }

  pub clear-IsValid :
      (i : ℕ) (e : CapEntry) → i < slot_count → t.slots i ≡ some e → IsValid (clear_slot t i)
  unfolding clear_slot free_slot
  clear-IsValid i e hi he =
      rw (lt→ltb i slot_count hi, lt→ltb t.free_top slot_count (free_top-lt i e v hi he))
        record {
          top_le = omega (arith, free_top-lt i e v hi he);
          gens_ok = λ j hj. ground (arith, v.gens_ok j hj, bump_lem (t.gens i));
          slot_ok = λ j d p. ground (arith, v.slot_ok j d);
          free_in = λ k hk. ground (arith, v.free_in k);
          free_inj = λ j k hj hk. ground (arith, v.free_inj j k, v.free_in j, v.free_in k);
          free_all = λ j hj p. elim (Bool-cases (i == j)) [
            | inl same ↦ (t.free_top, omega arith, ground arith)
            | inr other ↦
                let old = v.free_all j hj (ground arith) in
                (old.0, omega (arith, old.1), ground (arith, old.1, old.2))
          ];
        }

  -- Giving back the index that was just popped restores the table.
  pub pop_push_back :
      0 < t.free_top
      → free_slot (record t { free_top = t.free_top - 1 }) (t.free_stack (t.free_top - 1)) ≡ t
  unfolding free_slot
  pop_push_back h =
      rw
        (
          lt→ltb (t.free_stack (t.free_top - 1)) slot_count (popped h).0,
          lt→ltb (t.free_top - 1) slot_count (omega (arith, v.top_le)),
        )
        (λ i. record t { free_stack = stack i; free_top = top i })
    where
      top : t.free_top - 1 + 1 ≡ t.free_top
      top = omega arith

      stack : update t.free_stack (t.free_top - 1) (t.free_stack (t.free_top - 1)) ≡ t.free_stack
      stack = fun_ext λ k. ground arith

  alloc_full : t.free_top ≡ 0 → alloc_slot t ≡ (no_slots, 0, t)
  unfolding alloc_slot
  alloc_full e = ground arith

  alloc_ok :
      0 < t.free_top → alloc_slot t ≡ (ok, top_index t, record t { free_top = t.free_top - 1 })
  unfolding alloc_slot
  alloc_ok pos = ground (arith, popped pos)

  -- The three ways in which an insertion ends.
  pub insert_full :
      (type : CapType) (rights obj : ℕ) (mem : Bool)
      → t.free_top ≡ 0
      → table_insert t type rights obj mem ≡ (no_slots, none, t)
  unfolding table_insert
  insert_full type rights obj mem e = ground (arith, alloc_full e)

  pub insert_no_mem :
      (type : CapType) (rights obj : ℕ)
      → 0 < t.free_top
      → table_insert t type rights obj false ≡ (no_mem, none, t)
  unfolding table_insert
  insert_no_mem type rights obj pos = ground (arith, alloc_ok pos, pop_push_back pos)

  pub insert_ok :
      (type : CapType) (rights obj : ℕ)
      → 0 < t.free_top
      → table_insert t type rights obj true ≡ (
        ok,
        some (cap_handle_make (t.gens (top_index t)) (top_index t)),
        fill_slot (record t { free_top = t.free_top - 1 }) (top_index t) type rights obj,
      )
  unfolding table_insert
  insert_ok type rights obj pos = ground (arith, alloc_ok pos)

  insert_pos-IsValid :
      (type : CapType) (rights obj : ℕ) (mem : Bool)
      → 0 < t.free_top
      → IsValid (table_insert t type rights obj mem).2
  insert_pos-IsValid type rights obj true pos =
      rw (insert_ok type rights obj pos) (fill-IsValid type rights obj pos)
  insert_pos-IsValid type rights obj false pos = rw (insert_no_mem type rights obj pos) v

  -- An insertion keeps the invariant, whether it succeeds, finds no free slot or no memory.
  pub insert-IsValid :
      (type : CapType) (rights obj : ℕ) (mem : Bool)
      → IsValid (table_insert t type rights obj mem).2
  insert-IsValid type rights obj mem = elim (Bool-cases (t.free_top == 0)) [
    | inl e ↦ rw (insert_full type rights obj mem (ground arith)) v
    | inr e ↦ insert_pos-IsValid type rights obj mem (ground arith)
  ]

  -- What `lookup_ex` hands out is the entry of its slot, with a positive generation that is the
  -- handle's and the slot's, and with the rights that were asked for.
  pub lookup_sound :
      (h need : ℕ) (e : CapEntry)
      → (lookup_ex t h need).1 ≡ some e
      → ((lookup_ex t h need).0 ≡ ok)
        × (cap_handle_index h < slot_count)
        × (t.slots (cap_handle_index h) ≡ some e)
        × (cap_handle_gen h ≡ t.gens (cap_handle_index h))
        × (cap_rights_has e.rights need ≡ true)
  unfolding lookup_ex
  lookup_sound h need e p = ground arith

-- Removing by a handle keeps the invariant.
pub remove-IsValid : {t : CapTable} (h : ℕ) → IsValid t → IsValid (table_remove t h).1
unfolding table_remove
remove-IsValid {t} h v = elim (Option-cases (lookup_ex t h 0).1) [
  | inl e ↦ rw (e, table_remove) v
  | inr (e, p) ↦
      let found = lookup_sound v h 0 e p in
      rw (p, lt→ltb (cap_handle_index h) slot_count found.1, table_remove)
        (clear-IsValid v (cap_handle_index h) e found.1 found.2)
]

invalidate_slot-IsValid :
    {t : CapTable} (obj i : ℕ) → i < slot_count → IsValid t → IsValid (invalidate_slot obj i t)
unfolding invalidate_slot
invalidate_slot-IsValid {t} obj i hi v = elim (Option-cases (t.slots i)) [
  | inl p ↦ rw (p, invalidate_slot) v
  | inr (e, p) ↦
      rw (p, invalidate_slot)
        (cases-if (λ s. IsValid s) (bit_and e.flags flag_valid == 0) v
          (cases-if (λ s. IsValid s) (not (e.obj == obj)) v (clear-IsValid v i e hi p)))
]

pub invalidate_from-IsValid :
    (n i obj : ℕ) {t : CapTable}
    → i + n ≤ slot_count
    → IsValid t
    → IsValid (invalidate_from n i obj t)
unfolding invalidate_from
invalidate_from-IsValid zero i obj h v = v
invalidate_from-IsValid (suc n) i obj h v =
    invalidate_from-IsValid n (suc i) obj (omega arith)
      (invalidate_slot-IsValid obj i (omega arith) v)

-- Revoking an object keeps the invariant.
pub invalidate_object-IsValid :
    {t : CapTable} (obj : ℕ) → IsValid t → IsValid (table_invalidate_object t obj)
unfolding table_invalidate_object
invalidate_object-IsValid obj v =
    cases-if (λ s. IsValid s) (obj == 0) v
      (invalidate_from-IsValid slot_count 0 obj (omega arith) v)
