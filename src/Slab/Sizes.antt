-- ===== src/Slab/Sizes.antt =====
-- The sizes that a cache of alloc/slab_cache.c accepts.
use capaz_os_kernel.Common.{
  ℕ, zero, suc, ◌+◌, ◌-◌, ◌*◌, ◌/◌, ◌%◌, ◌^◌, ◌≤◌, ◌<◌, ◌≡◌, inl, inr, refl, ap, sym, subst, ◌∙◌,
  ==_iff, arith, not, ◌||◌, Bool-cases, ltb, ◌==◌, add_u64, u64_mod, some, none, false, u32_mod,
}
use Prim.Native.Nat.{bit_and}
use native.Mathlib.Nat.{two-pow-succ, lt-div-mul-add, div-mul-le_self}
use capaz_os_kernel.Common.Bits.{bit_and-halves, bit_and_self}
use capaz_os_kernel.Board.{page_size}
use capaz_os_kernel.Slab.{
  empty_cache, header_size, u32_max, rounded_size, align_up, Slab, slab_cache_init,
}

even-half : (a : ℕ) → 1 ≤ a → a % 2 ≡ 0 → bit_and a (a - 1) ≡ 0 → bit_and (a / 2) (a / 2 - 1) ≡ 0
even-half a pos even e =
    let below : (a - 1) / 2 ≡ a / 2 - 1 = omega (arith, pos, even) in
    rw (sym below) (omega (arith, e, bit_and-halves a (a - 1)))

odd-one : (a : ℕ) → a % 2 ≡ 1 → bit_and a (a - 1) ≡ 0 → a ≡ 1
odd-one a odd e =
    let below : (a - 1) / 2 ≡ a / 2 = omega (arith, odd) in
    let halves : bit_and (a / 2) ((a - 1) / 2) ≡ 0 = omega (arith, e, bit_and-halves a (a - 1)) in
    let same : a / 2 ≡ 0 =
      sym (bit_and_self (a / 2)) ∙ (ap (bit_and (a / 2)) (sym below) ∙ halves) in
    omega (arith, same, odd)

-- A number with no bit in common with the one below it divides the power of two that it does not exceed.
power-divides : (k a : ℕ) → 1 ≤ a → a ≤ 2 ^ k → bit_and a (a - 1) ≡ 0 → (q : ℕ) × (q * a ≡ 2 ^ k)
power-divides zero a pos le e = (1, omega (arith, pos, le))
power-divides (suc k) a pos le e = elim (Bool-cases (a % 2 == 0)) [
  | inl even ↦
      let halved : a % 2 ≡ 0 = (==_iff (a % 2) 0).0 even in
      let (q, below) =
        power-divides k (a / 2) (omega (arith, pos, halved))
          (omega (arith, le, two-pow-succ k, halved)) (even-half a pos halved e) in
      (
        q,
        ap (λ x. q * x) {y = a / 2 * 2} (omega (arith, halved))
            ∙ omega (arith, below, two-pow-succ k),
      )
  | inr odd ↦ let one = odd-one a (ground (arith, odd)) e in (2 ^ suc k, rw one (omega arith))
]

-- What `slab_cache_init` makes sure of.
pub record Fitting (s : Slab) : Type 0 where
  pub align_fits : (q : ℕ) × (q * s.obj_align ≡ page_size)
  pub size_fits : (q : ℕ) × (q * s.obj_align ≡ s.obj_size)
  pub at_least : (8 ≤ s.obj_align) × (8 ≤ s.obj_size)
  pub align_low : s.obj_align ≤ page_size
  pub room : align_up header_size s.obj_align + s.obj_size ≤ page_size

-- Rounding up reaches the number, and stays below one step behind it.
pub rounded :
    (v a : ℕ)
    → 1 ≤ a
    → v + a < u64_mod
    → (q : ℕ) × (q * a ≡ align_up v a) × (v ≤ align_up v a) × (align_up v a < v + a)
unfolding align_up
rounded v a pos fit =
    let some_step : (a == 0) ≡ false = ground (arith, pos) in
    let exact : add_u64 v (a - 1) ≡ v + (a - 1) = omega (arith, fit, pos) in
    let above = lt-div-mul-add {a = v + (a - 1)} {b = a} pos in
    let below = div-mul-le_self (v + (a - 1)) a in
    rw (some_step, exact)
      ((v + (a - 1)) / a, refl, omega (arith, above, pos), omega (arith, below, pos))

a_step : (q a v : ℕ) → 1 ≤ v → v ≤ q * a → a ≤ q * a
a_step zero a v pos le = absurd (omega (arith, pos, le))
a_step (suc q) a v pos le = omega arith

aligned-size :
    (obj_size a : ℕ)
    → 1 ≤ obj_size
    → obj_size < 2 ^ 31
    → 8 ≤ a
    → a ≤ page_size
    → ((q : ℕ) × (q * a ≡ rounded_size obj_size a))
      × (8 ≤ rounded_size obj_size a)
      × (obj_size ≤ rounded_size obj_size a)
aligned-size obj_size a some_size small big low =
    let same : obj_size % u32_mod ≡ obj_size = omega (arith, small) in
    let (q, e, reach, below) =
      rounded obj_size a (omega (arith, big)) (omega (arith, small, low)) in
    let word : align_up obj_size a % u32_mod ≡ align_up obj_size a =
      omega (arith, below, small, low) in
    let wide = a_step q a obj_size some_size (omega (arith, reach, e)) in
    let full : ltb (align_up obj_size a) 8 ≡ false = ground (arith, wide, e, big) in
    rw (same, word, full) ((q, e), omega (arith, wide, e, big), reach)

empty-Fitting :
    (s : Slab) (obj_size a : ℕ)
    → 1 ≤ obj_size
    → obj_size < 2 ^ 31
    → 8 ≤ a
    → a < 2 ^ 32
    → bit_and a (a - 1) ≡ 0
    → align_up header_size a + rounded_size obj_size a ≤ page_size
    → Fitting (empty_cache s (rounded_size obj_size a) a) × (obj_size ≤ rounded_size obj_size a)
empty-Fitting s obj_size a some_size small big word power room =
    let (q, e, reach, below) = rounded header_size a (omega (arith, big)) (omega (arith, word)) in
    let wide = a_step q a header_size (omega arith) (omega (arith, reach, e)) in
    let low : a ≤ page_size = omega (arith, wide, e, room) in
    let (multiple, least, reaches) = aligned-size obj_size a some_size small big low in
    (
      record {
        align_fits = power-divides 12 a (omega (arith, big)) low power;
        size_fits = multiple;
        at_least = (big, least);
        align_low = low;
        room = room;
      },
      reaches,
    )

accepted :
    (obj_size a sz : ℕ)
    → ((obj_size == 0 || not (bit_and a (a - 1) == 0))
        || ltb page_size (align_up header_size a + sz))
      ≡ false
    → (1 ≤ obj_size) × (bit_and a (a - 1) ≡ 0) × (align_up header_size a + sz ≤ page_size)
accepted obj_size a sz good = ground (arith, good)

pub init-Fitting :
    (s s' : Slab) (obj_size align : ℕ)
    → obj_size < 2 ^ 31
    → slab_cache_init s obj_size align ≡ some s'
    → Fitting s' × (obj_size ≤ s'.obj_size)
unfolding slab_cache_init
init-Fitting s s' obj_size align small e =
    let a = u32_max (align % u32_mod) 8 in
    let sz = rounded_size obj_size a in
    elim (Bool-cases (
      (obj_size == 0 || not (bit_and a (a - 1) == 0))
      || ltb page_size (align_up header_size a + sz))) [
        | inl bad ↦ absurd (no_value (sym (rw bad refl) ∙ e))
        | inr good ↦
            let same : empty_cache s sz a ≡ s' = inj (sym (rw good refl) ∙ e) in
            let (some_size, power, room) = accepted obj_size a sz good in
            subst (λ (s : Slab). Fitting s × (obj_size ≤ s.obj_size)) same
              (empty-Fitting s obj_size a some_size small (least (align % u32_mod))
                (word (align % u32_mod) (omega arith)) power room)
      ]
  where
    no_value : none ≡ some s' → ⊥
    no_value q = cc

    inj : {t : Slab} → some t ≡ some s' → t ≡ s'
    inj q = cc

    least : (w : ℕ) → 8 ≤ u32_max w 8
    least w = ground arith

    word : (w : ℕ) → w < 2 ^ 32 → u32_max w 8 < 2 ^ 32
    word w lt = ground (arith, lt)
