-- ===== src/Slab/Fresh.antt =====
-- What a new page of a cache of alloc/slab_cache.c holds.
use capaz_os_kernel.Common.{
  ℕ, zero, suc, ◌+◌, ◌-◌, ◌*◌, ◌/◌, ◌%◌, ◌^◌, ◌≤◌, ◌<◌, ◌≡◌, ◌⊎◌, inl, inr, refl, ap, arith, true,
  Bool-cases, leb, ◌==◌, update, add_u64, u64_mod, List, [], ◌∷◌, length, some, false,
}
use native.Mathlib.Nat.{add-mul-div_right}
use capaz_os_kernel.Common.Links.{Links, Links-update}
use capaz_os_kernel.Heap.Refill.{Stack, Stack-weaken, Stack-NotIn}
use capaz_os_kernel.Board.{page_size}
use capaz_os_kernel.Slab.{
  with_list, header_size, align_up, Slab, Built, push_objects, slab_page_build_freelist,
  slab_cache_init,
}
use capaz_os_kernel.Slab.Sizes.{Fitting, rounded, init-Fitting}

-- Objects at multiples of the alignment.
abbrev pub Aligned : ℕ → List ℕ → Type 0
Aligned a [] = Unit
Aligned a (y ∷ ys) = ((q : ℕ) × (q * a ≡ y)) × Aligned a ys

-- What the loop leaves: a chain of objects that end at or below `end`, do not overlap, begin at or above
-- `low` and are aligned, with their number.
pub record Chain (f : Built) (size a low end : ℕ) (ys : List ℕ) : Type 0 where
  pub links : Links f.links f.head ys 0
  pub stack : Stack low size end ys
  pub aligned : Aligned a ys
  pub count : f.count ≡ length ys

-- One object more.
push-one :
    (size a cursor low q : ℕ) (f : Built) (xs : List ℕ)
    → q * a ≡ cursor
    → 8 ≤ size
    → low ≤ cursor
    → length xs + 1 < 2 ^ 16
    → Chain f size a low cursor xs
    → Chain
        (record {
          links = update f.links cursor f.head;
          head = cursor;
          count = (f.count + 1) % 2 ^ 16;
        })
        size
        a
        low
        (cursor + size)
        (cursor ∷ xs)
push-one size a cursor low q f xs at big lo few c =
    let self : (cursor == cursor) ≡ true = ground arith in
    let apart = Stack-NotIn low size cursor cursor xs (omega (arith, big)) (omega arith) c.stack in
    record {
      links = (refl, rw self (Links-update f.links f.head xs 0 cursor f.head apart c.links));
      stack = (omega arith, lo, c.stack);
      aligned = ((q, at), c.aligned);
      count = omega (arith, few, c.count);
    }

widened :
    (f : Built) (size a low top end : ℕ) (ys : List ℕ)
    → top ≤ end
    → Chain f size a low top ys
    → Chain f size a low end ys
widened f size a low top end ys le c = record {
  links = c.links;
  stack = Stack-weaken low size top end ys le c.stack;
  aligned = c.aligned;
  count = c.count;
}

push_objects-Chain :
    (fuel size a end cursor low q qs : ℕ) (f : Built) (xs : List ℕ)
    → q * a ≡ cursor
    → qs * a ≡ size
    → 8 ≤ size
    → end + size < u64_mod
    → low ≤ cursor
    → cursor ≤ end
    → length xs + fuel < 2 ^ 16
    → end < cursor + fuel * 8 + size
    → Chain f size a low cursor xs
    → (ys : List ℕ) × Chain (push_objects fuel size end cursor f) size a low end ys
      × (length xs ≤ length ys)
      × ((end < cursor + size) ⊎ (length xs < length ys))
unfolding push_objects
push_objects-Chain zero size a end cursor low q qs f xs at sz big fit lo le few enough c =
    (xs, widened f size a low cursor end xs le c, omega arith, inl (omega (arith, enough)))
push_objects-Chain (suc fuel) size a end cursor low q qs f xs at sz big fit lo le few enough c =
    let step : add_u64 cursor size ≡ cursor + size = omega (arith, fit, le) in
    elim (Bool-cases (leb (add_u64 cursor size) end)) [
      | inl room ↦
          let more = push-one size a cursor low q f xs at big lo (omega (arith, few)) c in
          let next : (q + qs) * a ≡ cursor + size = omega (arith, at, sz) in
          let inside : cursor + size ≤ end = ground (arith, room, step) in
          let (ys, chain, longer, last) =
            push_objects-Chain fuel size a end (cursor + size) low (q + qs) qs _ (cursor ∷ xs) next
              sz big fit (omega (arith, lo)) inside (omega (arith, few)) (omega (arith, enough))
              more in
          rw room (rw step (ys, chain, omega (arith, longer), inr (omega (arith, longer))))
      | inr over ↦
          let beyond : end < cursor + size = ground (arith, over, step) in
          rw over (xs, widened f size a low cursor end xs le c, omega arith, inl beyond)
    ]

-- A page that is new to a cache: a chain of at least one object.
pub record Fresh (s s' : Slab) (base : ℕ) (ys : List ℕ) : Type 0 where
  pub chain : Links s'.link (s'.freelist base) ys 0
  pub stack : Stack (base + header_size) s.obj_size (base + page_size) ys
  pub aligned : Aligned s.obj_align ys
  pub count : s'.obj_count base ≡ length ys
  pub some_object : 1 ≤ length ys

start-exact :
    (base v a n : ℕ)
    → 1 ≤ a
    → base + v + a < u64_mod
    → n * a ≡ base
    → align_up (add_u64 base v) a ≡ base + align_up v a
unfolding align_up
start-exact base v a n pos low e =
    let some_step : (a == 0) ≡ false = ground (arith, pos) in
    let exact : add_u64 base v ≡ base + v = omega (arith, low) in
    let far : add_u64 (base + v) (a - 1) ≡ v + (a - 1) + n * a = omega (arith, low, pos, e) in
    let near : add_u64 v (a - 1) ≡ v + (a - 1) = omega (arith, low, pos) in
    let split = add-mul-div_right (v + (a - 1)) n {z = a} pos in
    rw (some_step, exact, far, near, split) (omega (arith, e))

start-Chain :
    (s : Slab) (a low top : ℕ)
    → Chain (record { links = s.link; head = 0; count = 0 }) s.obj_size a low top []
start-Chain s a low top = record { links = refl; stack = tt; aligned = tt; count = refl }

build-Fresh :
    (s : Slab) (base : ℕ)
    → Fitting s
    → base % page_size ≡ 0
    → base + 3 * page_size < u64_mod
    → (s' : Slab) × (slab_page_build_freelist s base ≡ some s') × (ys : List ℕ) × Fresh s s' base ys
unfolding slab_page_build_freelist
build-Fresh s base fit page low =
    let a = s.obj_align in
    let (k, whole) = fit.align_fits in
    let (qs, size_at) = fit.size_fits in
    let (q, first_at, reach, below) =
      rounded header_size a (omega (arith, fit.at_least.0)) (omega (arith, fit.align_low)) in
    let at_base : base / page_size * k * a ≡ base =
      omega (arith, ap (λ x. base / page_size * x) whole, page) in
    let start =
      start-exact base header_size a (base / page_size * k) (omega (arith, fit.at_least.0))
        (omega (arith, low, fit.align_low)) at_base in
    let end : add_u64 base page_size ≡ base + page_size = omega (arith, low) in
    let f0 : Built = record { links = s.link; head = 0; count = 0 } in
    let (ys, c, longer, last) =
      push_objects-Chain 512 s.obj_size a (base + page_size) (base + align_up header_size a)
        (base + header_size) (base / page_size * k + q) qs f0 [] (omega (arith, at_base, first_at))
        size_at fit.at_least.1 (omega (arith, low, fit.room)) (omega (arith, reach))
        (omega (arith, fit.room)) (omega arith) (omega arith)
        (start-Chain s a (base + header_size) (base + align_up header_size a)) in
    let some_object : 1 ≤ length ys = elim last [
      | inl over ↦ absurd (omega (arith, over, fit.room))
      | inr more ↦ omega (arith, more)
    ] in
    let f : Built =
      push_objects 512 s.obj_size (base + page_size) (base + align_up header_size a) f0 in
    let some_count : (f.count == 0) ≡ false = ground (arith, c.count, some_object) in
    let self : (base == base) ≡ true = ground arith in
    (
      with_list s base f,
      rw (end, start, some_count) refl,
      ys,
      record {
        chain = rw self c.links;
        stack = c.stack;
        aligned = c.aligned;
        count = rw self c.count;
        some_object = some_object;
      },
    )

-- A cache that `slab_cache_init` accepts, for objects below 2^31 bytes, can use any page whose end is two
-- pages or more below 2^64. `slab_page_build_freelist` does not panic there and leaves a free list of one
-- object or more, as many as it counts. They lie in the page behind its header, do not overlap, and have
-- the size that was asked for, or more, and addresses that are multiples of the cache's alignment.
pub init-build :
    (s s' : Slab) (obj_size align base : ℕ)
    → obj_size < 2 ^ 31
    → slab_cache_init s obj_size align ≡ some s'
    → base % page_size ≡ 0
    → base + 3 * page_size < u64_mod
    → (s'' : Slab) × (slab_page_build_freelist s' base ≡ some s'')
      × (obj_size ≤ s'.obj_size)
      × (ys : List ℕ) × Fresh s' s'' base ys
init-build s s' obj_size align base small e page low =
    let (fit, enough) = init-Fitting s s' obj_size align small e in
    let (s'', built, ys, fresh) = build-Fresh s' base fit page low in
    (s'', built, enough, ys, fresh)
