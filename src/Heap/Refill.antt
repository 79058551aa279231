-- ===== src/Heap/Refill.antt =====
-- What filling a bucket of kheap.c puts on its free list.
use capaz_os_kernel.Common.{
  ℕ, zero, suc, ◌+◌, ◌-◌, ◌*◌, ◌/◌, ◌%◌, ◌≤◌, ◌<◌, ◌≡◌, ◌⊎◌, inl, inr, refl, arith, true,
  Bool-cases, leb, ◌==◌, update, add_u64, u64_mod, List, [], ◌∷◌,
}
use capaz_os_kernel.Common.Links.{Links, NotIn, Links-update}
use capaz_os_kernel.Board.{page_size}
use capaz_os_kernel.Heap.{Heap, slab, bucket_size, push_blocks, carve_page}

-- Blocks of bs bytes, in falling order, that end at or below `top`, do not overlap and begin at or above
-- `low`.
abbrev pub Stack : ℕ → ℕ → ℕ → List ℕ → Type 0
Stack low bs top [] = Unit
Stack low bs top (y ∷ ys) = (y + bs ≤ top) × (low ≤ y) × Stack low bs y ys

pub Stack-weaken :
    (low bs top top' : ℕ) (ys : List ℕ) → top ≤ top' → Stack low bs top ys → Stack low bs top' ys
Stack-weaken low bs top top' [] le s = tt
Stack-weaken low bs top top' (y ∷ ys) le (a, b, c) = (omega arith, b, c)

pub Stack-NotIn :
    (low bs top x : ℕ) (ys : List ℕ) → 0 < bs → top ≤ x → Stack low bs top ys → NotIn x ys
Stack-NotIn low bs top x [] pos le s = tt
Stack-NotIn low bs top x (y ∷ ys) pos le (a, b, c) =
    (omega arith, Stack-NotIn low bs y x ys pos (omega arith) c)

-- The free list of bucket b holds the blocks `ys`, and between the first of them and `end` there is no
-- room for another.
record Filled (h : Heap) (b bs low end : ℕ) (ys : List ℕ) : Type 0 where
  links : Links h.next (h.freelist b) ys 0
  stack : Stack low bs end ys
  full : end < h.freelist b + 2 * bs

push_lem :
    (fuel b bs end p low : ℕ) (h : Heap) (xs : List ℕ)
    → 16 ≤ bs
    → end + bs < u64_mod
    → low ≤ p
    → p ≤ end
    → end < p + fuel * 16
    → (h.freelist b + bs ≡ p) ⊎ (p + bs ≤ end)
    → Links h.next (h.freelist b) xs 0
    → Stack low bs p xs
    → (ys : List ℕ) × Filled (push_blocks fuel b bs end p h) b bs low end ys
unfolding push_blocks
push_lem zero b bs end p low h xs big fit lo le fuel near l s = absurd (omega arith)
push_lem (suc fuel) b bs end p low h xs big fit lo le enough near l s =
    elim (Bool-cases (leb (add_u64 p bs) end)) [
      | inr done ↦ rw done (
        xs,
        record {
          links = l;
          stack = Stack-weaken low bs p end xs le s;
          full = elim near [ inl e ↦ ground arith | inr e ↦ absurd (ground arith) ];
        },
      )
      | inl room ↦
          let step : add_u64 p bs ≡ p + bs = omega arith in
          let same : (b == b) ≡ true = ground arith in
          let self : (p == p) ≡ true = ground arith in
          rw room (
            rw step (
              push_lem fuel b bs end (p + bs) low
                (record h {
                  next = update h.next p (h.freelist b);
                  freelist = update h.freelist b p;
                })
                (p ∷ xs) big fit (omega arith) (ground arith) (omega arith) (inl (rw same refl))
                (rw same (
                  refl,
                  rw self (
                      Links-update h.next (h.freelist b) xs 0 p (h.freelist b)
                        (Stack-NotIn low bs p p xs (omega arith) (omega arith) s) l),
                ))
                (omega arith, lo, s)))
    ]

-- The block sizes are powers of two between 16 and 2048, so that the first block of a page begins one
-- block behind its start.
pub first_block :
    (b base : ℕ)
    → b < 8
    → base % page_size ≡ 0
    → base + 8192 < u64_mod
    → (add_u64 (add_u64 base 8) (bucket_size b - 1) / bucket_size b * bucket_size b
        ≡ base + bucket_size b)
      × (16 ≤ bucket_size b)
      × (bucket_size b ≤ 2048)
first_block zero base lt a fit = (omega arith, omega arith, omega arith)
first_block (suc zero) base lt a fit = (omega arith, omega arith, omega arith)
first_block (suc (suc zero)) base lt a fit = (omega arith, omega arith, omega arith)
first_block (suc (suc (suc zero))) base lt a fit = (omega arith, omega arith, omega arith)
first_block (suc (suc (suc (suc zero)))) base lt a fit = (omega arith, omega arith, omega arith)
first_block (suc (suc (suc (suc (suc zero))))) base lt a fit =
    (omega arith, omega arith, omega arith)
first_block (suc (suc (suc (suc (suc (suc zero)))))) base lt a fit =
    (omega arith, omega arith, omega arith)
first_block (suc (suc (suc (suc (suc (suc (suc zero))))))) base lt a fit =
    (omega arith, omega arith, omega arith)
first_block (suc (suc (suc (suc (suc (suc (suc (suc b)))))))) base lt a fit = absurd (omega arith)

-- A page that is made one of an empty bucket fills its free list with blocks of the bucket's size, which
-- lie in the page behind its header and do not overlap, until there is no room for another.
pub carve_page_lem :
    (b base : ℕ) (h : Heap)
    → b < 8
    → base % page_size ≡ 0
    → base + 8192 < u64_mod
    → h.freelist b ≡ 0
    → (ys : List ℕ) × Links (carve_page b base h).next ((carve_page b base h).freelist b) ys 0
      × Stack (base + 8) (bucket_size b) (base + page_size) ys
      × (base + page_size < (carve_page b base h).freelist b + 2 * bucket_size b)
unfolding carve_page
carve_page_lem b base h lt a fit e =
    let (start, small, large) = first_block b base lt a fit in
    let end : add_u64 base page_size ≡ base + page_size = omega arith in
    let (ys, f) =
      push_lem 256 b (bucket_size b) (base + page_size) (base + bucket_size b) (base + 8)
        (record h { header = update h.header base (slab b (bucket_size b)) }) [] small (omega arith)
        (omega arith) (omega arith) (omega arith) (inr (omega arith)) e tt in
    rw (start, end) (ys, f.links, f.stack, f.full)
