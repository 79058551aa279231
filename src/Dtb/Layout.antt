-- ===== src/Dtb/Layout.antt =====
-- What stands in a structure block that platform/dtb.c walks, and which ranges it describes, by the
-- standard names and the standard encoding.
use capaz_os_kernel.Common.{
  ℕ, zero, suc, ◌+◌, ◌*◌, ◌/◌, ◌^◌, ◌<◌, ◌≡◌, ◌≢◌, Bool, true, false, List, [], ◌∷◌, ◌++◌, length,
  leb, ◌==◌, ◌||◌, ◌&&◌, if◌then◌else◌,
}
use capaz_os_kernel.Platform.{DtbRange}
use capaz_os_kernel.Dtb.{Mode, memory, reserved, Kind, address_cells, size_cells, reg, other}

-- The content of a node: properties, with their name, their content as bytes from 0 on and its length,
-- and nodes with their name.
pub data Items : Type 0 where
  done : Items
  nop : Items → Items
  prop : List ℕ → (ℕ → ℕ) → ℕ → Items → Items
  child : List ℕ → Items → Items → Items

abbrev pub same_text : List ℕ → List ℕ → Bool
same_text [] [] = true
same_text [] (d ∷ ds) = false
same_text (c ∷ cs) [] = false
same_text (c ∷ cs) (d ∷ ds) = c == d && same_text cs ds

-- Whether the second text begins with the first.
abbrev pub begins : List ℕ → List ℕ → Bool
begins [] ds = true
begins (c ∷ cs) [] = false
begins (c ∷ cs) (d ∷ ds) = c == d && begins cs ds

-- The name of a node without its unit address.
abbrev pub base_name : List ℕ → List ℕ
base_name [] = []
base_name (c ∷ cs) = if c == b'@' then [] else c ∷ base_name cs

abbrev pub is_memory_node : List ℕ → Bool
is_memory_node name = same_text (base_name name) (b'm' ∷ b'e' ∷ b'm' ∷ b'o' ∷ b'r' ∷ b'y' ∷ [])

abbrev pub is_reserved_node : List ℕ → Bool
is_reserved_node name = same_text name (
    b'r' ∷ b'e' ∷ b's' ∷ b'e' ∷ b'r' ∷ b'v' ∷ b'e' ∷ b'd' ∷ b'-' ∷ b'm' ∷ b'e' ∷ b'm' ∷ b'o' ∷ b'r'
    ∷ b'y' ∷ [])

abbrev pub is_address_cells : List ℕ → Bool
is_address_cells name = same_text name (
    b'#' ∷ b'a' ∷ b'd' ∷ b'd' ∷ b'r' ∷ b'e' ∷ b's' ∷ b's' ∷ b'-' ∷ b'c' ∷ b'e' ∷ b'l' ∷ b'l' ∷ b's'
    ∷ [])

abbrev pub is_size_cells : List ℕ → Bool
is_size_cells name =
    same_text name (b'#' ∷ b's' ∷ b'i' ∷ b'z' ∷ b'e' ∷ b'-' ∷ b'c' ∷ b'e' ∷ b'l' ∷ b'l' ∷ b's' ∷ [])

abbrev pub is_reg : List ℕ → Bool
is_reg name = same_text name (b'r' ∷ b'e' ∷ b'g' ∷ [])

-- The property that has the name.
abbrev pub standard_kind : List ℕ → Kind
standard_kind name =
    if is_address_cells name
    then address_cells
    else if is_size_cells name
    then size_cells
    else if is_reg name
    then reg
    else other

-- No property but #address-cells begins with "#a", none but #size-cells with "#s", and none but reg with
-- "reg".
abbrev pub Clear : Items → Type 0
Clear done = Unit
Clear (nop r) = Clear r
Clear (prop name d len r) =
    (begins (b'#' ∷ b'a' ∷ []) name ≡ is_address_cells name)
    × (begins (b'#' ∷ b's' ∷ []) name ≡ is_size_cells name)
    × (begins (b'r' ∷ b'e' ∷ b'g' ∷ []) name ≡ is_reg name)
    × Clear r
Clear (child name body rest) = Clear body × Clear rest

-- The n bytes at p are those of d from 0 on.
abbrev pub BytesAt : (ℕ → ℕ) → ℕ → (ℕ → ℕ) → ℕ → Type 0
BytesAt m p d n = ((i : ℕ) → i < n → m (p + i) ≡ d i) × ((i : ℕ) → d i < 256)

-- The text stands at p, with NUL behind it and none in it.
abbrev pub TextAt : (ℕ → ℕ) → ℕ → List ℕ → Type 0
TextAt m p [] = m p ≡ 0
TextAt m p (c ∷ cs) = (m p ≡ c) × (c ≢ 0) × TextAt m (p + 1) cs

-- A number of n bytes, the most significant first.
abbrev pub value : (ℕ → ℕ) → ℕ → ℕ → ℕ
value d p zero = 0
value d p (suc n) = d p * 256 ^ n + value d (p + 1) n

abbrev pub word : (ℕ → ℕ) → ℕ → ℕ
word d p = value d p 4

-- The next multiple of 4.
abbrev pub aligned : ℕ → ℕ
aligned p = (p + 3) / 4 * 4

-- The items stand in the memory from p to q, in the encoding of the device tree. No property is so long
-- that the loop over its tuples wraps.
abbrev pub Laid : (ℕ → ℕ) → ℕ → Items → ℕ → ℕ → Type 0
Laid m strings done p q = p ≡ q
Laid m strings (nop r) p q = (word m p ≡ 4) × Laid m strings r (p + 4) q
Laid m strings (prop name d len r) p q =
    (word m p ≡ 3)
    × (word m (p + 4) ≡ len)
    × (len + 16 < 2 ^ 32)
    × TextAt m (strings + word m (p + 4 + 4)) name
    × BytesAt m (p + 4 + 8) d len
    × Laid m strings r (aligned (p + 4 + 8 + len)) q
Laid m strings (child name body rest) p q =
    (word m p ≡ 1)
    × TextAt m (p + 4) name
    × (p' : ℕ) × Laid m strings body (aligned (p + 4 + length name + 1)) p'
    × (word m p' ≡ 2)
    × Laid m strings rest (p' + 4) q

-- The tokens, with the letters of the names of nodes and the bytes of the properties.
abbrev pub size : Items → ℕ
size done = 0
size (nop r) = 1 + size r
size (prop name d len r) = 1 + len + size r
size (child name body rest) = 2 + length name + size body + size rest

-- No node stands at level 64 or deeper, if the items are those of a node whose children have level d.
abbrev pub Shallow : Items → ℕ → Type 0
Shallow done d = Unit
Shallow (nop r) d = Shallow r d
Shallow (prop name b len r) d = Shallow r d
Shallow (child name body rest) d = (d < 64) × Shallow body (suc d) × Shallow rest d

-- Where a node stands: outside of what is collected, at the node of /reserved-memory, or inside.
pub data Region : Type 0 where
  out here inside : Region

abbrev pub is_inside : Region → Bool
is_inside out = false
is_inside here = false
is_inside inside = true

-- Of a node whose parent stands there. A node of memory does not pass it on to its children; below
-- /reserved-memory every node is inside.
abbrev pub region_of : Mode → Bool → Bool → Region → Region
region_of memory mem rsv r = if mem then inside else out
region_of reserved mem rsv out = if rsv then here else out
region_of reserved mem rsv here = inside
region_of reserved mem rsv inside = inside

-- A number of so many cells.
abbrev pub number : (ℕ → ℕ) → ℕ → ℕ → ℕ
number d cells p = value d p (4 * cells)

abbrev pub tuples : (ℕ → ℕ) → ℕ → ℕ → ℕ → ℕ → List DtbRange
tuples d zero p a s = []
tuples d (suc n) p a s =
    record { base = number d a p; size = number d s (p + 4 * a) } ∷ tuples d n (p + 4 * (a + s)) a s

abbrev pub one_or_two : ℕ → Bool
one_or_two n = n == 1 || n == 2

-- The ranges of a property's content, if the numbers of cells are 1 or 2: as many as fit.
unfoldable pub regs : (ℕ → ℕ) → ℕ → ℕ → ℕ → List DtbRange
regs d len a s = if one_or_two a && one_or_two s then tuples d (len / (4 * (a + s))) 0 a s else []

abbrev pub cells_in : (ℕ → ℕ) → ℕ → ℕ → ℕ
cells_in d len old = if leb 4 len then word d 0 else old

-- The cells that a node gives to its children, after a property.
abbrev pub a_after : Kind → (ℕ → ℕ) → ℕ → ℕ → ℕ
a_after address_cells b len a = cells_in b len a
a_after size_cells b len a = a
a_after reg b len a = a
a_after other b len a = a

abbrev pub s_after : Kind → (ℕ → ℕ) → ℕ → ℕ → ℕ
s_after address_cells b len s = s
s_after size_cells b len s = cells_in b len s
s_after reg b len s = s
s_after other b len s = s

-- The ranges of a property of a node that stands in a region, where the parent gives pa and ps cells.
abbrev pub new_of : Kind → (ℕ → ℕ) → ℕ → Region → ℕ → ℕ → List DtbRange
new_of address_cells b len g pa ps = []
new_of size_cells b len g pa ps = []
new_of reg b len g pa ps = if is_inside g then regs b len pa ps else []
new_of other b len g pa ps = []

-- The ranges that the items of a node describe, where the parent gives pa and ps cells to a range, and
-- the node a and s cells to those of its children.
abbrev pub ranges_in : Mode → Region → ℕ → ℕ → ℕ → ℕ → Items → List DtbRange
ranges_in mode g pa ps a s done = []
ranges_in mode g pa ps a s (nop r) = ranges_in mode g pa ps a s r
ranges_in mode g pa ps a s (prop name d len r) =
    let k = standard_kind name in
    new_of k d len g pa ps ++ ranges_in mode g pa ps (a_after k d len a) (s_after k d len s) r
ranges_in mode g pa ps a s (child name body rest) =
    ranges_in mode (region_of mode (is_memory_node name) (is_reserved_node name) g) a s a s body
    ++ ranges_in mode g pa ps a s rest

-- The ranges that are not empty.
abbrev pub solid : List DtbRange → List DtbRange
solid [] = []
solid (r ∷ rs) = if r.size == 0 then solid rs else r ∷ solid rs
