-- ===== src/Dtb.antt =====
-- The device tree parser, platform/dtb.c: its readers, and the walk over the structure block that
-- collects the ranges of memory. The blob is memory of bytes, a pointer is an address, and the blob does
-- not wrap round the address space.
pub mod Init
pub mod Layout
pub mod Names
pub mod Regs
pub mod Steps
pub mod Contents
pub mod Walks
pub mod Collected
pub mod Arrays
pub mod Bounds
use capaz_os_kernel.Common.{
  ℕ, zero, suc, ◌+◌, ◌*◌, ◌/◌, ◌%◌, ◌^◌, Bool, true, false, not, ◌&&◌, ◌||◌, Option, none, some,
  List, [], ◌∷◌, ◌++◌, length, ltb, leb, ◌==◌, if◌then◌else◌, update, u64_mod, add_u32,
}
use capaz_os_kernel.Memory.{length_from}
use capaz_os_kernel.Platform.{DtbRange}

-- The bytes are disjoint, so that their or is a sum.
unfoldable pub be32 : (ℕ → ℕ) → ℕ → ℕ
be32 m p = m p * 2 ^ 24 + m (p + 1) * 2 ^ 16 + m (p + 2) * 2 ^ 8 + m (p + 3)

unfoldable pub be64 : (ℕ → ℕ) → ℕ → ℕ
be64 m p = be32 m p * 2 ^ 32 + be32 m (p + 4)

abbrev pub align4 : ℕ → ℕ
align4 p = (p + 3) / 4 * 4

-- DTB_MAX_MEMORY_RANGES and DTB_MAX_RESERVED_RANGES.
abbrev pub max_memory : ℕ
max_memory = 16

abbrev pub max_reserved : ℕ
max_reserved = 64

unfoldable pub append_range : ℕ → List DtbRange → ℕ → ℕ → List DtbRange
append_range max arr base size =
    if size == 0 || leb max (length arr)
    then arr
    else arr ++ record { base = base; size = size } ∷ []

-- The loop that reads a number of n cells behind `value`.
unfoldable pub read_cells : (ℕ → ℕ) → ℕ → ℕ → ℕ → ℕ
read_cells m zero p value = value
read_cells m (suc n) p value = read_cells m n (p + 4) (value * 2 ^ 32 % u64_mod + be32 m p)

-- The loop over the tuples, from the offset on, which has 32 bits; `none` is that the fuel runs out.
unfoldable pub parse_tuples :
    (ℕ → ℕ) → ℕ → ℕ → ℕ → ℕ → ℕ → ℕ → ℕ → List DtbRange → Option (List DtbRange)
parse_tuples m zero p off len addr_cells size_cells max out = none
parse_tuples m (suc fuel) p off len addr_cells size_cells max out =
    let next = add_u32 off (4 * (addr_cells + size_cells)) in
    let rest = parse_tuples m fuel p next len addr_cells size_cells max (
      append_range max out (read_cells m addr_cells (p + off) 0)
        (read_cells m size_cells (p + off + 4 * addr_cells) 0)) in
    if leb next len then rest else some out

abbrev pub bad_cells : ℕ → ℕ → Bool
bad_cells a s = (a == 0 || s == 0) || (ltb 2 a || ltb 2 s)

unfoldable pub parse_reg_all :
    (ℕ → ℕ) → ℕ → ℕ → ℕ → ℕ → ℕ → ℕ → List DtbRange → Option (List DtbRange)
parse_reg_all m fuel p len addr_cells size_cells max out =
    if len == 0 || bad_cells addr_cells size_cells
    then some out
    else parse_tuples m fuel p 0 len addr_cells size_cells max out

pub record NodeCtx : Type 0 where
  pub parent_addr_cells : ℕ
  pub parent_size_cells : ℕ
  pub addr_cells : ℕ
  pub size_cells : ℕ
  pub is_memory : Bool

-- The depth of the walk: n levels above the root's, where -1 is `outside 0`, or the level of a node.
pub data Depth : Type 0 where
  outside : ℕ → Depth
  level : ℕ → Depth

-- What the walk is for: `collect_memory_ranges`, or `collect_reserved_memory_ranges`.
pub data Mode : Type 0 where
  memory reserved : Mode

-- The variables of a walk. `in_reserved` is `reserved_depth` when the flag of the source is set.
pub record Walk : Type 0 where
  pub stack : ℕ → NodeCtx
  pub depth : Depth
  pub in_reserved : Option ℕ
  pub ranges : List DtbRange

-- A walk ends with the ranges; `fault` is an access outside the stack, and `starved` that the fuel ran
-- out.
pub data Walked : Type 0 where
  collected : List DtbRange → Walked
  fault starved : Walked

abbrev pub is_text : (ℕ → ℕ) → ℕ → List ℕ → Bool
is_text m p [] = true
is_text m p (c ∷ cs) = m p == c && is_text m (p + 1) cs

-- "memory", with NUL or @ behind it.
unfoldable pub memory_name : (ℕ → ℕ) → ℕ → Bool
memory_name m name =
    is_text m name (b'm' ∷ b'e' ∷ b'm' ∷ b'o' ∷ b'r' ∷ b'y' ∷ [])
    && (m (name + 6) == 0 || m (name + 6) == b'@')

-- "reserved-memory", with NUL behind it.
unfoldable pub reserved_name : (ℕ → ℕ) → ℕ → Bool
reserved_name m name = is_text m name (
    b'r' ∷ b'e' ∷ b's' ∷ b'e' ∷ b'r' ∷ b'v' ∷ b'e' ∷ b'd' ∷ b'-' ∷ b'm' ∷ b'e' ∷ b'm' ∷ b'o' ∷ b'r'
    ∷ b'y' ∷ 0 ∷ [])

-- The property that a name stands for, by its first letters: "#a", "#s" and "reg".
pub data Kind : Type 0 where
  address_cells size_cells reg other : Kind

unfoldable pub kind_of : (ℕ → ℕ) → ℕ → Kind
kind_of m name =
    if is_text m name (b'#' ∷ b'a' ∷ [])
    then address_cells
    else if is_text m name (b'#' ∷ b's' ∷ [])
    then size_cells
    else if is_text m name (b'r' ∷ b'e' ∷ b'g' ∷ [])
    then reg
    else other

-- The cells of a node's parent, 2 and 2 for the root.
abbrev pub parent_cells : (ℕ → NodeCtx) → ℕ → ℕ × ℕ
parent_cells stack zero = (2, 2)
parent_cells stack (suc d) = ((stack d).addr_cells, (stack d).size_cells)

unfoldable pub new_ctx : Mode → (ℕ → ℕ) → ℕ → ℕ × ℕ → NodeCtx
new_ctx mode m name (a, s) = record {
  parent_addr_cells = a;
  parent_size_cells = s;
  addr_cells = a;
  size_cells = s;
  is_memory = elim mode [ memory ↦ memory_name m name | reserved ↦ false ];
}

unfoldable pub mark_reserved : Mode → (ℕ → ℕ) → ℕ → ℕ → Option ℕ → Option ℕ
mark_reserved memory m name d r = r
mark_reserved reserved m name d (some d') = some d'
mark_reserved reserved m name d none = if reserved_name m name then some d else none

-- The node at depth d begins; its name stands at `name`.
unfoldable pub enter : Mode → (ℕ → ℕ) → ℕ → ℕ → Walk → Walk
enter mode m name d w = record w {
  depth = level d;
  stack = update w.stack d (new_ctx mode m name (parent_cells w.stack d));
  in_reserved = mark_reserved mode m name d w.in_reserved;
}

-- The mark of /reserved-memory goes with its node.
abbrev pub clear_reserved : Option ℕ → ℕ → Option ℕ
clear_reserved none d = none
clear_reserved (some d') d = if d == d' then none else some d'

abbrev pub parent_level : ℕ → Depth
parent_level zero = outside 0
parent_level (suc d) = level d

unfoldable pub leave : Walk → Walk
leave w = elim w.depth [
  | outside n ↦ record w { depth = outside (suc n) }
  | level d ↦ record w { depth = parent_level d; in_reserved = clear_reserved w.in_reserved d }
]

-- Whether the registers of the node at depth d are collected.
unfoldable pub wanted : Mode → Walk → ℕ → Bool
wanted memory w d = (w.stack d).is_memory
wanted reserved w d = elim w.in_reserved [ none ↦ false | some d' ↦ ltb d' d ]

abbrev pub with_ranges : Walk → Option (List DtbRange) → Option Walk
with_ranges w none = none
with_ranges w (some rs) = some (record w { ranges = rs })

-- The property of the node at depth d, with its content of `len` bytes at p; `none` is that the fuel of
-- the loop over its tuples runs out.
unfoldable pub property : Mode → (ℕ → ℕ) → ℕ → ℕ → ℕ → ℕ → ℕ → Kind → Walk → Option Walk
property mode m fuel max p len d kind w = elim kind [
  | address_cells ↦
      if leb 4 len
      then some
          (record w { stack = update w.stack d (record (w.stack d) { addr_cells = be32 m p }) })
      else some w
  | size_cells ↦
      if leb 4 len
      then some
          (record w { stack = update w.stack d (record (w.stack d) { size_cells = be32 m p }) })
      else some w
  | reg ↦
      if wanted mode w d
      then with_ranges w (
          parse_reg_all m fuel p len (w.stack d).parent_addr_cells (w.stack d).parent_size_cells max
            w.ranges)
      else some w
  | other ↦ some w
]

-- The level that a node has that begins at a depth; `none` is an index below 0.
abbrev pub next_level : Depth → Option ℕ
next_level (outside zero) = some 0
next_level (outside (suc n)) = none
next_level (level d) = some (suc d)

-- What one token does: the walk goes on at an address, or it stops.
pub data Next : Type 0 where
  go : ℕ → Walk → Next
  stop : Walked → Next

abbrev pub max_depth : ℕ
max_depth = 64

abbrev pub max_of : Mode → ℕ
max_of memory = max_memory
max_of reserved = max_reserved

-- The node begins at the given level, and the walk goes on at p. A node that is too deep ends the walk.
abbrev pub begin_at : Mode → (ℕ → ℕ) → ℕ → ℕ → Walk → Option ℕ → Next
begin_at mode m name p w none = stop fault
begin_at mode m name p w (some d) =
    if leb max_depth d then stop (collected w.ranges) else go p (enter mode m name d w)

-- FDT_BEGIN_NODE, with the name at `name`, of n bytes if its end was found.
unfoldable pub begin_node : Mode → (ℕ → ℕ) → ℕ → Option ℕ → Walk → Next
begin_node mode m name none w = stop starved
begin_node mode m name (some n) w =
    begin_at mode m name (align4 (name + n + 1)) w (next_level w.depth)

abbrev pub resume : ℕ → Option Walk → Next
resume p none = stop starved
resume p (some w) = go p w

-- FDT_PROP, with its length at p.
unfoldable pub on_property : Mode → (ℕ → ℕ) → ℕ → ℕ → ℕ → Walk → Next
on_property mode m strings fuel p w =
    let len = be32 m p in
    let kind = kind_of m (strings + be32 m (p + 4)) in
    resume (align4 (p + 8 + len)) (elim w.depth [
      | outside n ↦ some w
      | level d ↦ property mode m fuel (max_of mode) (p + 8) len d kind w
    ])

unfoldable pub token_step : Mode → (ℕ → ℕ) → ℕ → ℕ → ℕ → Walk → Next
token_step mode m strings fuel p w =
    let token = be32 m p in
    if token == 9
    then stop (collected w.ranges)
    else if token == 1
    then begin_node mode m (p + 4) (length_from m (p + 4) fuel 0) w
    else if token == 2
    then go (p + 4) (leave w)
    else if token == 4
    then go (p + 4) w
    else if token == 3
    then on_property mode m strings fuel (p + 4) w
    else stop (collected w.ranges)

-- The loop of the walk; the fuel bounds the tokens, the search for the end of a name and the loop over
-- the tuples of a property.
unfoldable pub walk : Mode → (ℕ → ℕ) → ℕ → ℕ → ℕ → Walk → Walked
walk mode m strings zero p w = starved
walk mode m strings (suc fuel) p w = elim (token_step mode m strings fuel p w) [
  | stop r ↦ r
  | go p' w' ↦ walk mode m strings fuel p' w'
]
