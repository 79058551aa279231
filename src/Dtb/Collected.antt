-- ===== src/Dtb/Collected.antt =====
-- What platform/dtb.c collects from a well-formed blob.
use capaz_os_kernel.Common.{
  ◌⊎◌, ◌%◌, ◌<◌, ◌^◌, ℕ, zero, suc, ◌+◌, ◌≤◌, ◌≡◌, ◌≢◌, refl, sym, ◌∙◌, inl, inr, arith, Bool, true,
  false, ◌&&◌, Bool-cases, none, some, List, [], ◌∷◌, ◌++◌, length, ◌==◌,
}
use capaz_os_kernel.Platform.{DtbRange}
use capaz_os_kernel.Dtb.{
  be32, append_range, NodeCtx, Mode, memory, reserved, outside, Walk, collected, stop, walk, max_of,
  max_reserved, clear_reserved, mark_reserved, reserved_name,
}
use capaz_os_kernel.Dtb.Init.{
  Dtb, fresh_walk, memreserve_from, collect_memreserve_ranges, collect_memory_ranges,
  collect_reserved_memory_ranges, ensure_parsed, header_ok, header_of, dtb_init, first_ranges,
}
use capaz_os_kernel.Dtb.Layout.{
  TextAt, Clear, word, value, aligned, is_memory_node, is_reserved_node, Items, Laid, size, Shallow,
  out, region_of, ranges_in, solid,
}
use capaz_os_kernel.Dtb.Regs.{
  append_all, append_all-append, append_all-first_ranges, be32-word, be64-value,
}
use capaz_os_kernel.Dtb.Names.{memory_name-standard, reserved_name-standard}
use capaz_os_kernel.Dtb.Steps.{walk_in, walk-step, step-end}
use capaz_os_kernel.Dtb.Walks.{items-Passed, node-Passed, child-ctx}
use capaz_os_kernel.Dtb.Contents.{ctx_of, Marked}

-- The root node of a tree.
pub record Root : Type 0 where
  pub name : List ℕ
  pub content : Items

-- The structure block at p holds the node, and the token of the end.
abbrev pub TreeAt : (ℕ → ℕ) → ℕ → ℕ → Root → Type 0
TreeAt m strings p root =
    (word m p ≡ 1)
    × TextAt m (p + 4) root.name
    × (q : ℕ) × Laid m strings root.content (aligned (p + 4 + length root.name + 1)) q
    × (word m q ≡ 2)
    × (word m (q + 4) ≡ 9)

-- The tokens of the tree, with the letters of its names and the bytes of its properties.
abbrev pub tree_size : Root → ℕ
tree_size root = 3 + length root.name + size root.content

-- The ranges that a tree describes.
abbrev pub described : Mode → Root → List DtbRange
described mode root =
    ranges_in mode (region_of mode (is_memory_node root.name) (is_reserved_node root.name) out) 2 2
      2 2 root.content

-- The header at fdt: the magic number, and blocks inside the blob, which is not larger than the size
-- given with it, unless that is 0.
pub record HeaderAt (m : ℕ → ℕ) (fdt fdt_size : ℕ) : Type 0 where
  pub magic : word m fdt ≡ 0xD00DFEED
  pub low : word m (fdt + 4) < 2 ^ 32
  pub sized : (fdt_size ≡ 0) ⊎ (word m (fdt + 4) ≤ fdt_size % 2 ^ 32)
  pub structure : word m (fdt + 8) + word m (fdt + 36) ≤ word m (fdt + 4)
  pub strings : word m (fdt + 12) + word m (fdt + 32) ≤ word m (fdt + 4)
  pub some_structure : 1 ≤ word m (fdt + 36)
  pub some_strings : 1 ≤ word m (fdt + 32)
  pub reservations : word m (fdt + 16) < word m (fdt + 4)

-- What the parser keeps of a blob, with the ranges.
abbrev pub parsed_blob : (ℕ → ℕ) → ℕ → List DtbRange → List DtbRange → Dtb
parsed_blob m fdt mem rsv = record {
  fdt = fdt;
  totalsize = word m (fdt + 4);
  struct_at = fdt + word m (fdt + 8);
  strings_at = fdt + word m (fdt + 12);
  rsvmap_at = fdt + word m (fdt + 16);
  struct_size = word m (fdt + 36);
  strings_size = word m (fdt + 32);
  mem_ranges = mem;
  rsv_ranges = rsv;
}

Marked-root :
    (mode : Mode) (m : ℕ → ℕ) (name : ℕ) (mem rsv : Bool)
    → reserved_name m name ≡ rsv
    → Marked mode (region_of mode mem rsv out) 0 (mark_reserved mode m name 0 none)
unfolding mark_reserved
Marked-root memory m name mem rsv e = refl
Marked-root reserved m name mem true e = rw e refl
Marked-root reserved m name mem false e = rw e refl

cleared-root :
    (mode : Mode) (m : ℕ → ℕ) (name : ℕ)
    → clear_reserved (mark_reserved mode m name 0 none) 0 ≡ none
unfolding mark_reserved
cleared-root memory m name = refl
cleared-root reserved m name = elim (Bool-cases (reserved_name m name)) [
  | inl is ↦ rw is refl
  | inr other ↦ rw other refl
]

ended :
    (mode : Mode) (m : ℕ → ℕ) (strings fuel p : ℕ) (w : Walk)
    → 1 ≤ fuel
    → be32 m p ≡ 9
    → walk mode m strings fuel p w ≡ collected w.ranges
ended mode m strings zero p w some_fuel e = absurd (omega (arith, some_fuel))
ended mode m strings (suc fuel) p w some_fuel e =
    walk-step mode m strings fuel p w (stop (collected w.ranges))
      (step-end mode m strings fuel p w e)

-- A walk over a tree collects what the tree describes.
walk-tree :
    (mode : Mode) (m : ℕ → ℕ) (strings fuel p : ℕ) (root : Root) (stack : ℕ → NodeCtx)
    (rs : List DtbRange)
    → TreeAt m strings p root
    → Clear root.content
    → Shallow root.content 1
    → tree_size root ≤ fuel
    → walk mode m strings fuel p (fresh_walk stack rs)
      ≡ collected (append_all (max_of mode) rs (described mode root))
walk-tree mode m strings fuel p root stack rs (e1, text, q, within, e2, e9) clear deep enough =
    let at = p + 4 in
    let mem = is_memory_node root.name in
    let rsv = is_reserved_node root.name in
    let em = memory_name-standard m at root.name text in
    let er = reserved_name-standard m at root.name text in
    let g = region_of mode mem rsv out in
    let (f, t, le, run, keep) =
      node-Passed mode m strings (size root.content) fuel p q 0 root.name (ctx_of mode g 2 2 2 2)
        stack none rs (described mode root) (be32-word m p ∙ e1) text (be32-word m q ∙ e2)
        (omega arith) (child-ctx mode m at mem rsv out 2 2 em) (cleared-root mode m at)
        (omega (arith, enough))
        (λ f t en et.
          items-Passed mode m strings root.content f (aligned (at + length root.name + 1)) q 0 2 2 2
            2 g t (mark_reserved mode m at 0 none) rs within clear deep en et
            (Marked-root mode m at mem rsv er)) in
    let w = walk_in t (outside 0) none (append_all (max_of mode) rs (described mode root)) in
    run ∙ ended mode m strings f (q + 4) w (omega (arith, enough, le)) (be32-word m (q + 4) ∙ e9)

-- The entries of the reservation block at p, and the end of it.
abbrev pub ReservesAt : (ℕ → ℕ) → ℕ → List DtbRange → Type 0
ReservesAt m p [] = (value m p 8 ≡ 0) × (value m (p + 8) 8 ≡ 0)
ReservesAt m p (r ∷ rs) =
    (value m p 8 ≡ r.base)
    × (value m (p + 8) 8 ≡ r.size)
    × ((r.base == 0 && r.size == 0) ≡ false)
    × ReservesAt m (p + 16) rs

reserves-read :
    (m : ℕ → ℕ) (n p : ℕ) (arr entries : List DtbRange)
    → ReservesAt m p entries
    → length entries ≤ n
    → memreserve_from m n p arr ≡ append_all max_reserved arr entries
unfolding memreserve_from
reserves-read m zero p arr [] at fit = refl
reserves-read m zero p arr (r ∷ rs) at fit = absurd (omega (arith, fit))
reserves-read m (suc n) p arr [] (e0, e8) fit =
    rw (be64-value m p ∙ e0, be64-value m (p + 8) ∙ e8) refl
reserves-read m (suc n) p arr (r ∷ rs) (e0, e8, some_entry, at) fit =
    rw (be64-value m p ∙ e0, be64-value m (p + 8) ∙ e8, some_entry)
      (reserves-read m n (p + 16) (append_range max_reserved arr r.base r.size) rs at
        (omega (arith, fit)))

parsed :
    (fuel : ℕ) (stack : ℕ → NodeCtx) (m : ℕ → ℕ) (t : Dtb) (root : Root) (entries : List DtbRange)
    → TreeAt m t.strings_at t.struct_at root
    → Clear root.content
    → Shallow root.content 1
    → ReservesAt m t.rsvmap_at entries
    → length entries ≤ 128
    → tree_size root ≤ fuel
    → ensure_parsed fuel stack m t
      ≡ some (record t {
        mem_ranges = first_ranges 16 (solid (described memory root));
        rsv_ranges = first_ranges 64 (solid (entries ++ described reserved root));
      })
unfolding ensure_parsed collect_memory_ranges collect_reserved_memory_ranges
    collect_memreserve_ranges
parsed fuel stack m t root entries tree clear deep at fit enough =
    let rsv = reserves-read m 128 t.rsvmap_at [] entries at fit in
    let first = append_all 64 [] entries in
    let all =
      sym (append_all-append 64 [] entries (described reserved root))
      ∙ append_all-first_ranges 64 (entries ++ described reserved root) in
    rw
      (
        rsv,
        walk-tree reserved m t.strings_at fuel t.struct_at root stack first tree clear deep enough,
        walk-tree memory m t.strings_at fuel t.struct_at root stack [] tree clear deep enough,
        all,
        append_all-first_ranges 16 (described memory root),
      )
      refl

header-tests :
    (m : ℕ → ℕ) (fdt fdt_size : ℕ)
    → be32 m fdt ≡ 0xD00DFEED
    → be32 m (fdt + 4) < 2 ^ 32
    → (fdt_size ≡ 0) ⊎ (be32 m (fdt + 4) ≤ fdt_size % 2 ^ 32)
    → be32 m (fdt + 8) + be32 m (fdt + 36) ≤ be32 m (fdt + 4)
    → be32 m (fdt + 12) + be32 m (fdt + 32) ≤ be32 m (fdt + 4)
    → 1 ≤ be32 m (fdt + 36)
    → 1 ≤ be32 m (fdt + 32)
    → be32 m (fdt + 16) < be32 m (fdt + 4)
    → header_ok m fdt fdt_size ≡ true
unfolding header_ok
header-tests m fdt fdt_size magic low sized structure strings some_structure some_strings rsv =
    ground (arith, magic, low, sized, structure, strings, some_structure, some_strings, rsv)

header-ok :
    (m : ℕ → ℕ) (fdt fdt_size : ℕ) → HeaderAt m fdt fdt_size → header_ok m fdt fdt_size ≡ true
header-ok m fdt fdt_size h =
    let total = be32-word m (fdt + 4) in
    header-tests m fdt fdt_size (be32-word m fdt ∙ h.magic) (rw total h.low) (rw total h.sized)
      (rw (total, be32-word m (fdt + 8), be32-word m (fdt + 36)) h.structure)
      (rw (total, be32-word m (fdt + 12), be32-word m (fdt + 32)) h.strings)
      (rw (be32-word m (fdt + 36)) h.some_structure) (rw (be32-word m (fdt + 32)) h.some_strings)
      (rw (total, be32-word m (fdt + 16)) h.reservations)

header_of-parsed_blob : (m : ℕ → ℕ) (fdt : ℕ) → header_of m fdt ≡ parsed_blob m fdt [] []
unfolding header_of
header_of-parsed_blob m fdt =
    rw
      (
        be32-word m (fdt + 4),
        be32-word m (fdt + 8),
        be32-word m (fdt + 12),
        be32-word m (fdt + 16),
        be32-word m (fdt + 32),
        be32-word m (fdt + 36),
      )
      refl

-- `dtb_init` accepts a blob whose header describes blocks inside it and which holds a tree less than 65
-- levels deep and at most 128 reservations, given fuel for its tokens, the names of its nodes and the
-- bytes of its properties. What it keeps are the first 16 of the memory ranges that the tree describes,
-- and the first 64 of the reservations and of the ranges of the nodes below /reserved-memory, in the
-- order of the blob and without those of no bytes. A property is less than 2^32 - 16 bytes long, and no
-- name but #address-cells begins with "#a", none but #size-cells with "#s", and none but reg with "reg".
pub dtb_init_lem :
    (fuel : ℕ) (stack : ℕ → NodeCtx) (m : ℕ → ℕ) (fdt fdt_size : ℕ) (root : Root)
    (entries : List DtbRange)
    → fdt ≢ 0
    → HeaderAt m fdt fdt_size
    → TreeAt m (fdt + word m (fdt + 12)) (fdt + word m (fdt + 8)) root
    → Clear root.content
    → Shallow root.content 1
    → ReservesAt m (fdt + word m (fdt + 16)) entries
    → length entries ≤ 128
    → tree_size root ≤ fuel
    → dtb_init fuel stack m fdt fdt_size
      ≡ some (
          parsed_blob m fdt
            (first_ranges 16 (solid (described memory root)))
            (first_ranges 64 (solid (entries ++ described reserved root))))
unfolding dtb_init
dtb_init_lem fuel stack m fdt fdt_size root entries some_blob header tree clear deep at fit enough =
    let there : (fdt == 0) ≡ false = ground (arith, some_blob) in
    rw (there, header-ok m fdt fdt_size header, header_of-parsed_blob m fdt)
      (parsed fuel stack m (parsed_blob m fdt [] []) root entries tree clear deep at fit enough)
