-- ===== src/Dtb/Contents.antt =====
-- What platform/dtb.c keeps of a node, and what a property does to it.
use capaz_os_kernel.Common.{
  ℕ, suc, ◌+◌, ◌^◌, ◌≤◌, ◌<◌, ◌≡◌, refl, ap, ◌∙◌, inl, inr, arith, Bool, true, false, Bool-cases,
  Option, none, some, List, [], leb, if◌then◌else◌, update,
}
use capaz_os_kernel.Platform.{DtbRange}
use capaz_os_kernel.Dtb.{
  NodeCtx, Mode, memory, reserved, level, Walk, Kind, address_cells, size_cells, reg, other,
  property, clear_reserved, reserved_name, mark_reserved, wanted,
}
use capaz_os_kernel.Dtb.Layout.{
  BytesAt, Region, out, here, inside, is_inside, region_of, regs, a_after, s_after, new_of, word,
}
use capaz_os_kernel.Dtb.Regs.{append_all, parse_reg_all-regs, be32-at, be32-word}
use capaz_os_kernel.Dtb.Steps.{walk_in}

-- What the stack holds of a node.
abbrev pub ctx_of : Mode → Region → ℕ → ℕ → ℕ → ℕ → NodeCtx
ctx_of mode g pa ps a s = record {
  parent_addr_cells = pa;
  parent_size_cells = ps;
  addr_cells = a;
  size_cells = s;
  is_memory = elim mode [ memory ↦ is_inside g | reserved ↦ false ];
}

-- The mark of a walk in a node at level d.
abbrev pub Marked : Mode → Region → ℕ → Option ℕ → Type 0
Marked memory g d r = r ≡ none
Marked reserved out d r = r ≡ none
Marked reserved here d r = r ≡ some d
Marked reserved inside d r = (d' : ℕ) × (d' < d) × (r ≡ some d')

wanted-inside :
    (mode : Mode) (g : Region) (d pa ps a s : ℕ) (stack : ℕ → NodeCtx) (r : Option ℕ)
    (rs : List DtbRange)
    → stack d ≡ ctx_of mode g pa ps a s
    → Marked mode g d r
    → wanted mode (walk_in stack (level d) r rs) d ≡ is_inside g
unfolding wanted
wanted-inside memory g d pa ps a s stack r rs e h = ap (λ c. c.is_memory) e
wanted-inside reserved out d pa ps a s stack r rs e h = rw h refl
wanted-inside reserved here d pa ps a s stack r rs e h = rw h (ground arith)
wanted-inside reserved inside d pa ps a s stack r rs e (d', lt, h) = rw h (ground (arith, lt))

pub Marked-child :
    (mode : Mode) (m : ℕ → ℕ) (name : ℕ) (mem rsv : Bool) (g : Region) (d : ℕ) (r : Option ℕ)
    → reserved_name m name ≡ rsv
    → Marked mode g d r
    → Marked mode (region_of mode mem rsv g) (suc d) (mark_reserved mode m name (suc d) r)
unfolding mark_reserved
Marked-child memory m name mem rsv g d r e h = h
Marked-child reserved m name mem true out d r e h = rw (h, e) refl
Marked-child reserved m name mem false out d r e h = rw (h, e) refl
Marked-child reserved m name mem rsv here d r e h = (d, omega arith, rw h refl)
Marked-child reserved m name mem rsv inside d r e (d', lt, h) = (d', omega (arith, lt), rw h refl)

pub cleared-child :
    (mode : Mode) (m : ℕ → ℕ) (name : ℕ) (mem rsv : Bool) (g : Region) (d : ℕ) (r : Option ℕ)
    → reserved_name m name ≡ rsv
    → Marked mode g d r
    → clear_reserved (mark_reserved mode m name (suc d) r) (suc d) ≡ r
unfolding mark_reserved
cleared-child memory m name mem rsv g d r e h = rw h refl
cleared-child reserved m name mem true out d r e h = rw (h, e) (ground arith)
cleared-child reserved m name mem false out d r e h = rw (h, e) refl
cleared-child reserved m name mem rsv here d r e h = rw h (ground arith)
cleared-child reserved m name mem rsv inside d r e (d', lt, h) = rw h (ground (arith, lt))

-- What a property leaves of a walk at level d.
abbrev pub Kept :
    Mode → (ℕ → NodeCtx) → ℕ → Option ℕ → List DtbRange → NodeCtx → Option Walk → Type 0
Kept mode stack d r rs c w =
    (stack' : ℕ → NodeCtx) × (w ≡ some (walk_in stack' (level d) r rs))
    × (stack' d ≡ c)
    × ((i : ℕ) → i < d → stack' i ≡ stack i)

pub update-here : (stack : ℕ → NodeCtx) (d : ℕ) (c : NodeCtx) → update stack d c d ≡ c
update-here stack d c = ground arith

reg-kept :
    (mode : Mode) (m b : ℕ → ℕ) (collect : Bool) (fuel max p len d pa ps : ℕ) (stack : ℕ → NodeCtx)
    (r : Option ℕ) (rs : List DtbRange)
    → BytesAt m p b len
    → len + 16 < 2 ^ 32
    → len ≤ fuel
    → (stack d).parent_addr_cells ≡ pa
    → (stack d).parent_size_cells ≡ ps
    → wanted mode (walk_in stack (level d) r rs) d ≡ collect
    → property mode m fuel max p len d reg (walk_in stack (level d) r rs)
      ≡ some
          (walk_in stack (level d) r (append_all max rs (if collect then regs b len pa ps else [])))
unfolding property
reg-kept mode m b true fuel max p len d pa ps stack r rs bytes small enough ea es w =
    rw (w, ea, es, parse_reg_all-regs m b fuel p len pa ps max rs bytes small enough) refl
reg-kept mode m b false fuel max p len d pa ps stack r rs bytes small enough ea es w = rw w refl

pub property-Kept :
    (mode : Mode) (m b : ℕ → ℕ) (k : Kind) (g : Region) (fuel max p len d pa ps a s : ℕ)
    (stack : ℕ → NodeCtx) (r : Option ℕ) (rs : List DtbRange)
    → BytesAt m p b len
    → len + 16 < 2 ^ 32
    → len ≤ fuel
    → stack d ≡ ctx_of mode g pa ps a s
    → Marked mode g d r
    → Kept mode stack d r
        (append_all max rs (new_of k b len g pa ps))
        (ctx_of mode g pa ps (a_after k b len a) (s_after k b len s))
        (property mode m fuel max p len d k (walk_in stack (level d) r rs))
unfolding property
property-Kept mode m b address_cells g fuel max p len d pa ps a s stack r rs bytes small enough e
      h =
    elim (Bool-cases (leb 4 len)) [
      | inl long ↦
          let n =
            be32-at m b p p 0 len bytes (omega arith) (ground (arith, long)) ∙ be32-word b 0 in
          let put : NodeCtx → NodeCtx = λ c. record c { addr_cells = word b 0 } in
          (
            update stack d (put (stack d)),
            rw (long, n) refl,
            update-here stack d (put (stack d)) ∙ (ap put e ∙ rw long refl),
            λ i lt. ground (arith, lt),
          )
      | inr short ↦ (stack, rw short refl, rw short e, λ i lt. refl)
    ]
property-Kept mode m b size_cells g fuel max p len d pa ps a s stack r rs bytes small enough e h =
    elim (Bool-cases (leb 4 len)) [
      | inl long ↦
          let n =
            be32-at m b p p 0 len bytes (omega arith) (ground (arith, long)) ∙ be32-word b 0 in
          let put : NodeCtx → NodeCtx = λ c. record c { size_cells = word b 0 } in
          (
            update stack d (put (stack d)),
            rw (long, n) refl,
            update-here stack d (put (stack d)) ∙ (ap put e ∙ rw long refl),
            λ i lt. ground (arith, lt),
          )
      | inr short ↦ (stack, rw short refl, rw short e, λ i lt. refl)
    ]
property-Kept mode m b reg g fuel max p len d pa ps a s stack r rs bytes small enough e h =
    let w = wanted-inside mode g d pa ps a s stack r rs e h in
    let new =
      reg-kept mode m b (is_inside g) fuel max p len d pa ps stack r rs bytes small enough
        (ap (λ c. c.parent_addr_cells) e) (ap (λ c. c.parent_size_cells) e) w in
    (stack, new, e, λ i lt. refl)
property-Kept mode m b other g fuel max p len d pa ps a s stack r rs bytes small enough e h =
    (stack, refl, e, λ i lt. refl)
