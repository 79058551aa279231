-- ===== src/Common/Bits.antt =====
-- `bit_and` at variables: its recursion on halves, and what a mask lets through.
use Prim.Native.Nat.{
  bit_and, bit_and-bitwise, digits, min, zero, suc, ℕ, ◌+◌, ◌*◌, ◌/◌, ◌%◌, ◌<◌, ◌≤◌,
}
use mathlib.Core.Path.{refl, ap, ◌≡◌, ◌∙◌}
use mathlib.Core.Logic.{inl, inr}
use native.Mathlib.Omega.{arith}
use capaz_os_kernel.Common.Tests.{◌==◌, Bool-cases, ==_iff}

-- The common bits of two words, at most `rounds` of them.
abbrev common : ℕ → ℕ → ℕ → ℕ
common rounds x y = digits (λ _. 0) min rounds x y

-- As many rounds as x are enough: one more changes nothing ...
one_round_more : (rounds x y : ℕ) → x ≤ rounds → common (suc rounds) x y ≡ common rounds x y
one_round_more zero zero y le = refl
one_round_more zero (suc x) y le = absurd (omega arith)
one_round_more (suc rounds) zero y le = refl
one_round_more (suc rounds) (suc x) y le =
    omega (arith, one_round_more rounds (suc x / 2) (y / 2) (omega arith))

-- ... and so do more.
rounds_more :
    (more rounds x y : ℕ) → x ≤ rounds → rounds ≤ more → common more x y ≡ common rounds x y
rounds_more zero rounds x y enough le = ap (λ r. common r x y) {x = 0} (omega arith)
rounds_more (suc more) rounds x y enough le = elim (Bool-cases (rounds == suc more)) [
  | inl same ↦
      ap (λ r. common r x y) {x = suc more} (omega (arith, (==_iff rounds (suc more)).0 same))
  | inr fewer ↦
      let below : rounds < suc more = ground arith in
      one_round_more more x y (omega arith) ∙ rounds_more more rounds x y enough (omega arith)
]

-- The last bits meet, and so do the halves.
pub bit_and-halves : (x y : ℕ) → bit_and x y ≡ bit_and (x / 2) (y / 2) * 2 + min (x % 2) (y % 2)
bit_and-halves zero y = omega (arith, bit_and-bitwise zero y, bit_and-bitwise zero (y / 2))
bit_and-halves (suc x) y =
    let whole = bit_and-bitwise (suc x) y in
    let half = bit_and-bitwise (suc x / 2) (y / 2) in
    omega (
      arith,
      whole,
      half,
      rounds_more x (suc x / 2) (suc x / 2) (y / 2) (omega arith) (omega arith),
    )

-- No bit is common with 0.
none_common : (rounds x : ℕ) → common rounds x 0 ≡ 0
none_common zero zero = refl
none_common zero (suc x) = refl
none_common (suc rounds) zero = refl
none_common (suc rounds) (suc x) = omega (arith, none_common rounds (suc x / 2))

pub bit_and-zero : (x : ℕ) → bit_and x 0 ≡ 0
bit_and-zero x = bit_and-bitwise x 0 ∙ none_common x x

self_fuel : (f x : ℕ) → x ≤ f → bit_and x x ≡ x
self_fuel zero x le = ap (λ y. bit_and y y) {y = 0} (omega (arith, le)) ∙ omega (arith, le)
self_fuel (suc f) x le = elim (Bool-cases (x == 0)) [
  | inl none ↦
      let nought = (==_iff x 0).0 none in
      ap (λ y. bit_and y y) {y = 0} nought ∙ omega (arith, nought)
  | inr some ↦
      let halves = self_fuel f (x / 2) (ground (arith, some, le)) in
      omega (arith, halves, bit_and-halves x x)
]

pub bit_and_self : (x : ℕ) → bit_and x x ≡ x
bit_and_self x = self_fuel x x (omega arith)

-- `Covers r n` says that every bit of n is one of r.
abbrev pub Covers : ℕ → ℕ → Type 0
Covers r n = bit_and r n ≡ n

-- A cover splits into a cover of the halves and one of the last bits.
cover_halves : (r n : ℕ) → Covers r n → Covers (r / 2) (n / 2) × (min (r % 2) (n % 2) ≡ n % 2)
cover_halves r n h = omega (arith, bit_and-halves r n)

cover_of_halves : (r n : ℕ) → Covers (r / 2) (n / 2) → min (r % 2) (n % 2) ≡ n % 2 → Covers r n
cover_of_halves r n h k = omega (arith, bit_and-halves r n)

bit_and_half : (r m : ℕ) → bit_and r m / 2 ≡ bit_and (r / 2) (m / 2)
bit_and_half r m = omega (arith, bit_and-halves r m)

bit_and_last : (r m : ℕ) → bit_and r m % 2 ≡ min (r % 2) (m % 2)
bit_and_last r m = omega (arith, bit_and-halves r m)

submask_fuel : (f r m n : ℕ) → n ≤ f → Covers (bit_and r m) n → Covers r n × Covers m n
submask_fuel f r m zero le h = (bit_and-zero r, bit_and-zero m)
submask_fuel zero r m (suc n) le h = absurd (omega arith)
submask_fuel (suc f) r m (suc n) le h =
    let halves = cover_halves (bit_and r m) (suc n) h in
    let below =
      submask_fuel f (r / 2) (m / 2) (suc n / 2) (omega arith) (rw (← bit_and_half r m) halves.0) in
    (
      cover_of_halves r (suc n) below.0 (omega (arith, halves.1, bit_and_last r m)),
      cover_of_halves m (suc n) below.1 (omega (arith, halves.1, bit_and_last r m)),
    )

-- Whatever `bit_and r m` covers, both `r` and `m` cover.
pub submask : (r m n : ℕ) → Covers (bit_and r m) n → Covers r n × Covers m n
submask r m n = submask_fuel n r m n (omega arith)
