-- ===== src/Cap/Table/History.antt =====
-- A table over any history of operations: it stays valid, and a handle once removed stays dead.
use capaz_os_kernel.Common.{
  ℕ, ◌+◌, ◌≤◌, ◌<◌, ◌≡◌, ◌⊎◌, inl, inr, Bool, none, some, arith, List, [], ◌∷◌, length, u32_mod,
  ◌==◌, if◌then◌else◌, Option-cases,
}
use capaz_os_kernel.Cap.Types.{CapType, CapEntry, invalid, cap_handle_index, cap_handle_gen}
use capaz_os_kernel.Cap.Table.{
  CapTable, slot_count, clear_slot, free_slot, fill_slot, alloc_slot, cap_bump_gen, table_insert,
  table_remove, table_init, table_invalidate_object, lookup_ex,
}
use capaz_os_kernel.Cap.Table.Inv.{
  IsValid, init-IsValid, insert-IsValid, remove-IsValid, invalidate_object-IsValid, lookup_sound,
}
use capaz_os_kernel.Cap.Table.Handles.{remove_ok}
use capaz_os_kernel.Cap.Table.Lifecycle.{invalidate_from_gens}

-- The operations on one table, from whatever caller.
pub data TableOp : Type 0 where
  insert : CapType → ℕ → ℕ → Bool → TableOp
  remove : ℕ → TableOp
  revoke : ℕ → TableOp

pub apply : TableOp → CapTable → CapTable
apply (insert type rights obj mem) t = (table_insert t type rights obj mem).2
apply (remove h) t = (table_remove t h).1
apply (revoke obj) t = table_invalidate_object t obj

pub apply_all : List TableOp → CapTable → CapTable
apply_all [] t = t
apply_all (op ∷ ops) t = apply_all ops (apply op t)

pub apply-IsValid : (op : TableOp) {t : CapTable} → IsValid t → IsValid (apply op t)
unfolding apply
apply-IsValid (insert type rights obj mem) v = insert-IsValid v type rights obj mem
apply-IsValid (remove h) v = remove-IsValid h v
apply-IsValid (revoke obj) v = invalidate_object-IsValid obj v

-- Whatever is done to a table that `cap_table_init` set up, it stays valid: the free stack lists
-- exactly the empty slots, each once, all generations are nonzero 32-bit words, and each entry
-- has the generation of its slot.
pub apply_all-init-IsValid : (ops : List TableOp) → IsValid (apply_all ops table_init)
unfolding apply_all
apply_all-init-IsValid ops = go ops init-IsValid
  where
    go : (ops : List TableOp) {t : CapTable} → IsValid t → IsValid (apply_all ops t)
    go [] v = v
    go (op ∷ ops) v = go ops (apply-IsValid op v)

insert_gens :
    (type : CapType) (rights obj : ℕ) (mem : Bool) (j : ℕ) (t : CapTable)
    → (table_insert t type rights obj mem).2.gens j ≡ t.gens j
unfolding table_insert alloc_slot free_slot fill_slot
insert_gens type rights obj mem j t = ground arith

clear_gens :
    (i j : ℕ) (t : CapTable)
    → (clear_slot t i).gens j ≡ (if i == j then cap_bump_gen (t.gens j) else t.gens j)
unfolding clear_slot free_slot
clear_gens i j t = ground arith

bump_small : (g : ℕ) → g + 1 < u32_mod → cap_bump_gen g ≡ g + 1
unfolding cap_bump_gen
bump_small g h = ground arith

remove_gens :
    (h j : ℕ) (t : CapTable)
    → ((table_remove t h).1.gens j ≡ t.gens j)
      ⊎ ((table_remove t h).1.gens j ≡ cap_bump_gen (t.gens j))
unfolding table_remove
remove_gens h j t = ground (arith, clear_gens (cap_handle_index h) j t)

revoke_gens :
    (obj j : ℕ) (t : CapTable)
    → ((table_invalidate_object t obj).gens j ≡ t.gens j)
      ⊎ ((table_invalidate_object t obj).gens j ≡ cap_bump_gen (t.gens j))
unfolding table_invalidate_object
revoke_gens obj j t = ground (arith, invalidate_from_gens obj slot_count 0 j t (omega arith))

-- An operation leaves the generation of a slot, or bumps it once.
apply_gens :
    (op : TableOp) (j : ℕ) (t : CapTable)
    → IsValid t
    → ((apply op t).gens j ≡ t.gens j) ⊎ ((apply op t).gens j ≡ cap_bump_gen (t.gens j))
unfolding apply
apply_gens (insert type rights obj mem) j t v = inl (insert_gens type rights obj mem j t)
apply_gens (remove h) j t v = remove_gens h j t
apply_gens (revoke obj) j t v = revoke_gens obj j t

apply_gens_bound :
    (op : TableOp) (j : ℕ) (t : CapTable)
    → IsValid t
    → t.gens j + 1 < u32_mod
    → (t.gens j ≤ (apply op t).gens j) × ((apply op t).gens j ≤ t.gens j + 1)
apply_gens_bound op j t v h = ground (arith, apply_gens op j t v, bump_small (t.gens j))

-- A handle whose slot has moved on to a later generation opens nothing.
dead_of_gen :
    (h need : ℕ) (t : CapTable)
    → cap_handle_gen h < t.gens (cap_handle_index h)
    → lookup_ex t h need ≡ (invalid, none)
unfolding lookup_ex
dead_of_gen h need t later = elim (Option-cases (t.slots (cap_handle_index h))) [
  | inl p ↦ ground arith
  | inr (e, p) ↦ ground arith
]

removed_gen :
    {t : CapTable} (h : ℕ) (e : CapEntry)
    → IsValid t
    → (lookup_ex t h 0).1 ≡ some e
    → cap_handle_gen h + 1 < u32_mod
    → (table_remove t h).1.gens (cap_handle_index h) ≡ cap_handle_gen h + 1
removed_gen {t} h e v found room = rw (remove_ok h e v found) (
    ground (
      arith,
      clear_gens (cap_handle_index h) (cap_handle_index h) t,
      lookup_sound v h 0 e found,
      bump_small (cap_handle_gen h),
    ))

-- While the generation of a slot has room to grow, n operations move it by at most n, and never back.
apply_all_gens :
    (ops : List TableOp) (j : ℕ) {t : CapTable}
    → IsValid t
    → t.gens j + length ops < u32_mod
    → (t.gens j ≤ (apply_all ops t).gens j) × ((apply_all ops t).gens j ≤ t.gens j + length ops)
unfolding apply_all
apply_all_gens [] j v h = omega arith
apply_all_gens (op ∷ ops) j {t} v h =
    let step = apply_gens_bound op j t v (omega arith) in
    omega (arith, step, apply_all_gens ops j (apply-IsValid op v) (omega (arith, step)))

-- A handle that was removed stays dead: whatever n operations follow, it opens nothing, so long as
-- its generation is more than n + 1 below 2^32, where the generations of a slot start again.
pub removed_stays_dead :
    {t : CapTable} (h need : ℕ) (e : CapEntry) (ops : List TableOp)
    → IsValid t
    → (lookup_ex t h 0).1 ≡ some e
    → cap_handle_gen h + 1 + length ops < u32_mod
    → lookup_ex (apply_all ops (table_remove t h).1) h need ≡ (invalid, none)
removed_stays_dead {t} h need e ops v found room =
    dead_of_gen h need (apply_all ops t')
      (omega (arith, gen_now, apply_all_gens ops i (remove-IsValid h v) (omega (arith, gen_now))))
  where
    t' : CapTable
    t' = (table_remove t h).1

    i : ℕ
    i = cap_handle_index h

    gen_now : t'.gens i ≡ cap_handle_gen h + 1
    gen_now = removed_gen h e v found (omega arith)
