-- ===== src/Tests/Objects.antt =====
-- A cache of objects on a concrete page.
use capaz_os_kernel.Board.{virt}
use capaz_os_kernel.Common.{
  ℕ, ◌≡◌, ◌≤◌, refl, arith, some, List, [], ◌∷◌, if◌then◌else◌, ◌==◌, update,
}
use capaz_os_kernel.Slab.{
  Slab, align_up, empty_cache, slab_cache_init, slab_page_build_freelist, slab_alloc, slab_free,
}
use capaz_os_kernel.Slab.Handed.{Lists, Out, alloc-Lists, free-Lists}
use capaz_os_kernel.Slab.Fresh.{Fresh, init-build}
use capaz_os_kernel.Tests.Booted.{booted}

abbrev unset : Slab
unset = record {
  pmm = booted;
  obj_size = 0;
  obj_align = 0;
  pages = [];
  freelist = λ p. 0;
  obj_count = λ p. 0;
  inuse = λ p. 0;
  link = λ p. 0;
  alloc_calls = 0;
  free_calls = 0;
  inuse_objects = 0;
  peak_inuse_objects = 0;
  slab_pages_allocated = 0;
  alloc_failures = 0;
}

-- Objects of 1000 bytes at multiples of 16.
abbrev cache : Slab
cache = empty_cache unset 1008 16

cache_init : slab_cache_init unset 1000 16 ≡ some cache
unfolding slab_cache_init align_up
cache_init = refl

init-build_example :
    (s : Slab) × (slab_page_build_freelist cache 0x40031000 ≡ some s)
    × (1000 ≤ cache.obj_size)
    × (ys : List ℕ) × Fresh cache s 0x40031000 ys
init-build_example =
    init-build unset cache 1000 16 0x40031000 (omega arith) cache_init (omega arith) (omega arith)

-- A page with two free objects.
abbrev two_free : Slab
two_free = record cache {
  pages = 0x40031000 ∷ [];
  freelist = λ p. 0x40031100;
  link = λ o. if o == 0x40031100 then 0x40031500 else 0;
}

abbrev both : ℕ → List ℕ
both p = 0x40031100 ∷ 0x40031500 ∷ []

both-Lists : Lists two_free both
both-Lists = record {
  chain = λ p h. (refl, (refl, refl));
  once = λ p h. (((λ e. omega (arith, e)), tt), (tt, tt));
  inside = λ p o h k. ground (arith, h, k);
}

alloc-Lists_example :
    (o : ℕ) × (s : Slab) × (slab_alloc virt two_free ≡ some (some o, s))
    × (sp : ℕ) × (rest : List ℕ) × (both sp ≡ o ∷ rest)
    × Lists s (update both sp rest)
    × Out s (update both sp rest) o
alloc-Lists_example =
    alloc-Lists virt two_free both 0x40031000 both-Lists refl (λ e. omega (arith, e))

-- The same page with the first of them in use.
abbrev one_free : Slab
one_free = record two_free { freelist = λ p. 0x40031500; inuse = λ p. 1; inuse_objects = 1 }

abbrev second : ℕ → List ℕ
second p = 0x40031500 ∷ []

second-Lists : Lists one_free second
second-Lists = record {
  chain = λ p h. (refl, refl);
  once = λ p h. (tt, tt);
  inside = λ p o h k. ground (arith, h, k);
}

free-Lists_example :
    (s : Slab) × (slab_free one_free 0x40031100 ≡ some s)
    × Lists s (update second 0x40031000 (0x40031100 ∷ 0x40031500 ∷ []))
free-Lists_example =
    free-Lists one_free second 0x40031100 second-Lists (λ e. omega (arith, e))
      (λ p h. ((λ e. omega (arith, e)), tt)) refl (λ e. omega (arith, e)) (λ e. omega (arith, e))
