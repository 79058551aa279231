-- ===== src/Dtb/Bounds.antt =====
-- What holds of the arrays and the cached header of platform/dtb.c, whatever the blob holds.
use capaz_os_kernel.Common.{
  ℕ, ◌+◌, ◌%◌, ◌^◌, ◌≤◌, ◌<◌, ◌≡◌, ◌≢◌, refl, sym, subst, ◌∙◌, inl, inr, ◌⊎◌, arith, true, false,
  not, ◌||◌, Bool-cases, none, some, List, [], bind_some, ◌==◌,
}
use capaz_os_kernel.Platform.{DtbRange}
use capaz_os_kernel.Dtb.{be32, NodeCtx, memory, reserved, Walked, collected, fault, starved}
use capaz_os_kernel.Dtb.Init.{
  Dtb, collect_memreserve_ranges, collect_memory_ranges, collect_reserved_memory_ranges,
  ensure_parsed, header_ok, header_of, dtb_init, ranges_of,
}
use capaz_os_kernel.Dtb.Arrays.{FitsArray, FitsWalked, walk-FitsArray, memreserve_from-FitsArray}

ranges_of-FitsArray :
    (max : ℕ) (r : Walked) (rs : List DtbRange)
    → FitsWalked max r
    → ranges_of r ≡ some rs
    → FitsArray max rs
ranges_of-FitsArray max (collected xs) rs h e = subst (FitsArray max) (inj e) h
  where
    inj : some xs ≡ some rs → xs ≡ rs
    inj q = cc
ranges_of-FitsArray max fault rs h e = absurd (no_value e)
  where
    no_value : none ≡ some rs → ⊥
    no_value q = cc
ranges_of-FitsArray max starved rs h e = absurd (no_value e)
  where
    no_value : none ≡ some rs → ⊥
    no_value q = cc

ensure_parsed-parts :
    (fuel : ℕ) (stack : ℕ → NodeCtx) (m : ℕ → ℕ) (t0 t : Dtb)
    → ensure_parsed fuel stack m t0 ≡ some t
    → FitsArray 16 t.mem_ranges
      × FitsArray 64 t.rsv_ranges
      × (record t0 { mem_ranges = t.mem_ranges; rsv_ranges = t.rsv_ranges } ≡ t)
unfolding ensure_parsed collect_memory_ranges collect_reserved_memory_ranges
    collect_memreserve_ranges
ensure_parsed-parts fuel stack m t0 t e =
    let early = memreserve_from-FitsArray m 128 t0.rsvmap_at [] (omega arith, tt) in
    let (rsv, er, e') = bind_some t e in
    let (mem, em, e'') = bind_some t e' in
    let rsv_fit =
      ranges_of-FitsArray 64 _ rsv
        (walk-FitsArray reserved m t0.strings_at fuel t0.struct_at _ early) er in
    let mem_fit =
      ranges_of-FitsArray 16 _ mem
        (walk-FitsArray memory m t0.strings_at fuel t0.struct_at _ (omega arith, tt)) em in
    subst
      (λ (t : Dtb).
        FitsArray 16 t.mem_ranges
        × FitsArray 64 t.rsv_ranges
        × (record t0 { mem_ranges = t.mem_ranges; rsv_ranges = t.rsv_ranges } ≡ t))
      (inj e'') (mem_fit, rsv_fit, refl)
  where
    inj : {t' : Dtb} → some t' ≡ some t → t' ≡ t
    inj q = cc

accepted :
    (fuel : ℕ) (stack : ℕ → NodeCtx) (m : ℕ → ℕ) (fdt fdt_size : ℕ) (t : Dtb)
    → dtb_init fuel stack m fdt fdt_size ≡ some t
    → ((fdt == 0 || not (header_ok m fdt fdt_size)) ≡ false)
      × (ensure_parsed fuel stack m (header_of m fdt) ≡ some t)
unfolding dtb_init
accepted fuel stack m fdt fdt_size t e =
    elim (Bool-cases (fdt == 0 || not (header_ok m fdt fdt_size))) [
      | inl bad ↦ absurd (no_value (sym (rw bad refl) ∙ e))
      | inr good ↦ (good, sym (rw good refl) ∙ e)
    ]
  where
    no_value : none ≡ some t → ⊥
    no_value q = cc

-- Whatever bytes `dtb_init` accepts, it keeps at most 16 memory ranges and at most 64 reserved ones, the
-- sizes of the arrays that it writes them to, and no range of no bytes.
pub dtb_init-FitsArray :
    (fuel : ℕ) (stack : ℕ → NodeCtx) (m : ℕ → ℕ) (fdt fdt_size : ℕ) (t : Dtb)
    → dtb_init fuel stack m fdt fdt_size ≡ some t
    → FitsArray 16 t.mem_ranges × FitsArray 64 t.rsv_ranges
dtb_init-FitsArray fuel stack m fdt fdt_size t e =
    let (mem, rsv, same) =
      ensure_parsed-parts fuel stack m (header_of m fdt) t
        (accepted fuel stack m fdt fdt_size t e).1 in
    (mem, rsv)

header-inside :
    (m : ℕ → ℕ) (fdt fdt_size : ℕ)
    → header_ok m fdt fdt_size ≡ true
    → be32 m (fdt + 8) + be32 m (fdt + 36) < 2 ^ 32
    → be32 m (fdt + 12) + be32 m (fdt + 32) < 2 ^ 32
    → (be32 m (fdt + 8) + be32 m (fdt + 36) ≤ be32 m (fdt + 4))
      × (be32 m (fdt + 12) + be32 m (fdt + 32) ≤ be32 m (fdt + 4))
      × (be32 m (fdt + 16) < be32 m (fdt + 4))
      × ((fdt_size ≡ 0) ⊎ (be32 m (fdt + 4) ≤ fdt_size % 2 ^ 32))
unfolding header_ok
header-inside m fdt fdt_size ok low_struct low_strings = ground (arith, ok, low_struct, low_strings)

-- If no block's end reaches 2^32 behind the start of the blob, a blob that `dtb_init` accepts is not at
-- address 0 and contains its structure and string blocks and the start of its reservations. Its size is
-- at most the low word of the size that the caller gives, unless that size is 0.
pub dtb_init-inside :
    (fuel : ℕ) (stack : ℕ → NodeCtx) (m : ℕ → ℕ) (fdt fdt_size : ℕ) (t : Dtb)
    → dtb_init fuel stack m fdt fdt_size ≡ some t
    → be32 m (fdt + 8) + be32 m (fdt + 36) < 2 ^ 32
    → be32 m (fdt + 12) + be32 m (fdt + 32) < 2 ^ 32
    → (fdt ≢ 0)
      × (t.struct_at + t.struct_size ≤ fdt + t.totalsize)
      × (t.strings_at + t.strings_size ≤ fdt + t.totalsize)
      × (t.rsvmap_at < fdt + t.totalsize)
      × ((fdt_size ≡ 0) ⊎ (t.totalsize ≤ fdt_size % 2 ^ 32))
unfolding header_of
dtb_init-inside fuel stack m fdt fdt_size t e low_struct low_strings =
    let (ok, e') = accepted fuel stack m fdt fdt_size t e in
    let (mem, rsv, h) = ensure_parsed-parts fuel stack m (header_of m fdt) t e' in
    let (a, b, c, d) = header-inside m fdt fdt_size (ground (arith, ok)) low_struct low_strings in
    subst
      (λ (t : Dtb).
        (fdt ≢ 0)
        × (t.struct_at + t.struct_size ≤ fdt + t.totalsize)
        × (t.strings_at + t.strings_size ≤ fdt + t.totalsize)
        × (t.rsvmap_at < fdt + t.totalsize)
        × ((fdt_size ≡ 0) ⊎ (t.totalsize ≤ fdt_size % 2 ^ 32)))
      h (ground (arith, ok), omega (arith, a), omega (arith, b), omega (arith, c), d)
