-- ===== src/Slab.antt =====
-- The caches of objects of one size, alloc/slab_cache.c. The memory of the pages is their headers by
-- address and the link in the first word of each free object; the list of a cache's pages is a list, the
-- newest first. The poison that `slab_free` writes, the name of a cache and the test of the thread
-- context are left out; an object that is freed is one that `slab_alloc` returned.
pub mod Sizes
pub mod Fresh
pub mod Handed
use capaz_os_kernel.Common.{
  ℕ, zero, suc, ◌+◌, ◌-◌, ◌*◌, ◌/◌, ◌%◌, ◌^◌, Bool, true, false, not, ◌&&◌, ◌||◌, Option, none,
  some, List, [], ◌∷◌, ltb, leb, ◌==◌, if◌then◌else◌, update, add_u64, u32_mod, ◌>>=◌,
}
use Prim.Native.Nat.{bit_and}
use capaz_os_kernel.Board.{Board, page_size, align_down_4k, phys_to_hh_virt}
use capaz_os_kernel.Pmm.{Pmm, pmm_alloc_pages}

pub record Slab : Type 0 where
  pub pmm : Pmm
  pub obj_size : ℕ
  pub obj_align : ℕ
  pub pages : List ℕ
  pub freelist : ℕ → ℕ
  pub obj_count : ℕ → ℕ
  pub inuse : ℕ → ℕ
  pub link : ℕ → ℕ
  pub alloc_calls : ℕ
  pub free_calls : ℕ
  pub inuse_objects : ℕ
  pub peak_inuse_objects : ℕ
  pub slab_pages_allocated : ℕ
  pub alloc_failures : ℕ

abbrev pub u32_max : ℕ → ℕ → ℕ
u32_max a b = if ltb b a then a else b

-- The alignment is a power of two, so that the mask is a division.
unfoldable pub align_up : ℕ → ℕ → ℕ
align_up v a = if a == 0 then v else add_u64 v (a - 1) / a * a

-- sizeof(slab_page_t).
abbrev pub header_size : ℕ
header_size = 24

-- The variables of `slab_page_build_freelist`.
pub record Built : Type 0 where
  pub links : ℕ → ℕ
  pub head : ℕ
  pub count : ℕ

-- The loop that pushes the objects from the cursor up to `end`.
unfoldable pub push_objects : ℕ → ℕ → ℕ → ℕ → Built → Built
push_objects zero size end cursor f = f
push_objects (suc fuel) size end cursor f =
    let rest = push_objects fuel size end (add_u64 cursor size) (record {
      links = update f.links cursor f.head;
      head = cursor;
      count = (f.count + 1) % 2 ^ 16;
    }) in
    if leb (add_u64 cursor size) end then rest else f

abbrev pub with_list : Slab → ℕ → Built → Slab
with_list s base f = record s {
  link = f.links;
  freelist = update s.freelist base f.head;
  obj_count = update s.obj_count base f.count;
  inuse = update s.inuse base 0;
}

-- The fuel is the number of the smallest objects in a page. `none` is the panic.
unfoldable pub slab_page_build_freelist : Slab → ℕ → Option Slab
slab_page_build_freelist s base =
    let f =
      push_objects 512 s.obj_size (add_u64 base page_size)
        (align_up (add_u64 base header_size) s.obj_align)
        (record { links = s.link; head = 0; count = 0 }) in
    if f.count == 0 then none else some (with_list s base f)

abbrev pub built_at : ℕ → Option Slab → Option (Option ℕ × Slab)
built_at base none = none
built_at base (some s) = some (some base, s)

-- `none` is the panic, and a page that is `none` is NULL.
unfoldable pub slab_page_alloc : Board → Slab → Option (Option ℕ × Slab)
slab_page_alloc b s =
    let (pa, p) = pmm_alloc_pages s.pmm 1 in
    elim pa [
      | none ↦ some (none, record s { pmm = p })
      | some a ↦
          built_at (phys_to_hh_virt b a)
            (slab_page_build_freelist (record s { pmm = p }) (phys_to_hh_virt b a))
    ]

-- The size of an object, a multiple of the alignment.
abbrev pub rounded_size : ℕ → ℕ → ℕ
rounded_size obj_size want_align =
    let sz = align_up (obj_size % u32_mod) want_align % u32_mod in if ltb sz 8 then 8 else sz

abbrev pub empty_cache : Slab → ℕ → ℕ → Slab
empty_cache s size align = record s {
  obj_size = size;
  obj_align = align;
  pages = [];
  alloc_calls = 0;
  free_calls = 0;
  inuse_objects = 0;
  peak_inuse_objects = 0;
  slab_pages_allocated = 0;
  alloc_failures = 0;
}

-- The cache of the memory and the page allocator as they stand; `none` is a panic.
unfoldable pub slab_cache_init : Slab → ℕ → ℕ → Option Slab
slab_cache_init s obj_size align =
    let want_align = u32_max (align % u32_mod) 8 in
    let sz = rounded_size obj_size want_align in
    if (obj_size == 0 || not (bit_and want_align (want_align - 1) == 0))
      || ltb page_size (align_up header_size want_align + sz)
    then none
    else some (empty_cache s sz want_align)

-- The first free object of a page is handed out.
unfoldable pub take_object : Slab → ℕ → ℕ × Slab
take_object s sp =
    let obj = s.freelist sp in
    let used = add_u64 s.inuse_objects 1 in
    (
      obj,
      record s {
        freelist = update s.freelist sp (s.link obj);
        inuse = update s.inuse sp ((s.inuse sp + 1) % 2 ^ 16);
        inuse_objects = used;
        peak_inuse_objects = if ltb s.peak_inuse_objects used then used else s.peak_inuse_objects;
      },
    )

-- The first page with a free object.
unfoldable pub find_free : (ℕ → ℕ) → List ℕ → Option ℕ
find_free freelist [] = none
find_free freelist (sp ∷ pages) =
    let rest = find_free freelist pages in if freelist sp == 0 then rest else some sp

-- The object of a page, as a pointer that is not NULL.
abbrev pub given : ℕ × Slab → Option ℕ × Slab
given (obj, s) = (some obj, s)

-- The new page is the first of the cache.
unfoldable pub add_page : Option ℕ × Slab → Option ℕ × Slab
add_page (none, s) = (none, record s { alloc_failures = add_u64 s.alloc_failures 1 })
add_page (some sp, s) = given (
    take_object
      (record s { slab_pages_allocated = add_u64 s.slab_pages_allocated 1; pages = sp ∷ s.pages })
      sp)

-- An object that is `none` is NULL; `none` is a panic.
unfoldable pub slab_alloc : Board → Slab → Option (Option ℕ × Slab)
slab_alloc b s0 =
    let s = record s0 { alloc_calls = add_u64 s0.alloc_calls 1 } in
    elim (find_free s.freelist s.pages) [
      | some sp ↦ some (given (take_object s sp))
      | none ↦ slab_page_alloc b s >>= (λ r. some (add_page r))
    ]

abbrev pub member : ℕ → List ℕ → Bool
member x [] = false
member x (y ∷ ys) = x == y || member x ys

-- The object is the first free one of its page.
abbrev pub put_object : Slab → ℕ → ℕ → Slab
put_object s sp p = record s {
  link = update s.link p (s.freelist sp);
  freelist = update s.freelist sp p;
  inuse = update s.inuse sp (s.inuse sp - 1);
  inuse_objects = s.inuse_objects - 1;
}

-- `none` is a panic.
unfoldable pub slab_free : Slab → ℕ → Option Slab
slab_free s0 p =
    let s = record s0 { free_calls = add_u64 s0.free_calls 1 } in
    let sp = align_down_4k p in
    if p == 0
    then some s0
    else if not (member sp s.pages) || (s.inuse sp == 0 || s.inuse_objects == 0)
    then none
    else some (put_object s sp p)
