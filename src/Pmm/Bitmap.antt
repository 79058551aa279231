-- ===== src/Pmm/Bitmap.antt =====
-- The bit operations of mm/pmm.c on a bitmap of bytes.
use Prim.Native.Nat.{bit_and, bit_or}
use capaz_os_kernel.Common.{
  ℕ, zero, suc, ◌-◌, ◌/◌, ◌%◌, ◌^◌, ◌<◌, ◌≡◌, refl, ap, sym, ◌∙◌, inl, inr, arith, Bool, true,
  false, not, ◌&&◌, Bool-cases, ◌==◌, ==_iff, ltb, ltb→lt, if◌then◌else◌, update,
}
use capaz_os_kernel.Pmm.{bit_set, bit_clear, bit_test}

-- The test accepts all numbers under a bound: how a fact about bytes is computed.
accepts : (ℕ → Bool) → ℕ → Bool
accepts ok zero = true
accepts ok (suc bound) = if ok bound then accepts ok bound else false

accepted : (ok : ℕ → Bool) (k bound : ℕ) → k < bound → accepts ok bound ≡ true → ok k ≡ true
unfolding accepts
accepted ok k zero under h = absurd (omega arith)
accepted ok k (suc bound) under h = elim (Bool-cases (k == bound)) [
  | inr lower ↦ accepted ok k bound (ground arith) (ground arith)
  | inl top ↦ ground arith
]

abbrev digit : ℕ → ℕ → Bool
digit v k = not ((v / 2 ^ k) % 2 == 0)

abbrev same : Bool → Bool → Bool
same true b = b
same false b = not b

same_eq : (a b : Bool) → same a b ≡ true → a ≡ b
same_eq true b h = sym h
same_eq false b h = ground arith

-- What setting and clearing bit k of the byte v do to bit j.
set_check : ℕ → ℕ → ℕ → Bool
set_check v k j =
    ltb (bit_or v (2 ^ k)) 256
    && same (digit (bit_or v (2 ^ k)) j) (if k == j then true else digit v j)

clear_check : ℕ → ℕ → ℕ → Bool
clear_check v k j =
    ltb (bit_and v (255 - 2 ^ k)) 256
    && same (digit (bit_and v (255 - 2 ^ k)) j) (if k == j then false else digit v j)

set_table : accepts (λ v. accepts (λ k. accepts (set_check v k) 8) 8) 256 ≡ true
unfolding accepts set_check
set_table = refl

clear_table : accepts (λ v. accepts (λ k. accepts (clear_check v k) 8) 8) 256 ≡ true
unfolding accepts clear_check
clear_table = refl

-- Every bit of a full byte is set.
full_table : accepts (digit 255) 8 ≡ true
unfolding accepts
full_table = refl

pub full_byte : (bm : ℕ → ℕ) (j : ℕ) → bm (j / 8) ≡ 255 → bit_test bm j ≡ true
unfolding bit_test
full_byte bm j e =
    ap (λ v. digit v (j % 8)) e ∙ accepted (digit 255) (j % 8) 8 (omega arith) full_table

byte_fact :
    (check : ℕ → ℕ → ℕ → Bool)
    → accepts (λ v. accepts (λ k. accepts (check v k) 8) 8) 256 ≡ true
    → (v k j : ℕ) → v < 256
    → k < 8
    → j < 8
    → check v k j ≡ true
byte_fact check table v k j hv hk hj = accepted (check v k) j 8 hj (
    accepted (λ k'. accepts (check v k') 8) k 8 hk
      (accepted (λ v'. accepts (λ k'. accepts (check v' k') 8) 8) v 256 hv table))

and_true : (a b : Bool) → (a && b) ≡ true → (a ≡ true) × (b ≡ true)
and_true a b h = (ground arith, ground arith)

set_byte :
    (v k j : ℕ)
    → v < 256
    → k < 8
    → j < 8
    → (bit_or v (2 ^ k) < 256) × (digit (bit_or v (2 ^ k)) j ≡ (if k == j then true else digit v j))
unfolding set_check
set_byte v k j hv hk hj =
    let (a, b) = and_true _ _ (byte_fact set_check set_table v k j hv hk hj) in
    (ltb→lt _ _ a, same_eq _ _ b)

clear_byte :
    (v k j : ℕ)
    → v < 256
    → k < 8
    → j < 8
    → (bit_and v (255 - 2 ^ k) < 256)
      × (digit (bit_and v (255 - 2 ^ k)) j ≡ (if k == j then false else digit v j))
unfolding clear_check
clear_byte v k j hv hk hj =
    let (a, b) = and_true _ _ (byte_fact clear_check clear_table v k j hv hk hj) in
    (ltb→lt _ _ a, same_eq _ _ b)

abbrev pub Bytes : (ℕ → ℕ) → Type 0
Bytes bm = (i : ℕ) → bm i < 256

same_bit : (i j : ℕ) → i / 8 ≡ j / 8 → (i % 8 == j % 8) ≡ (i == j)
same_bit i j e = elim (Bool-cases (i == j)) [
  | inl y ↦ rw y ((==_iff _ _).1 (ap (λ x. x % 8) ((==_iff i j).0 y)))
  | inr n ↦ rw n (ground arith)
]

-- A write that changes one bit of the byte at i / 8 changes bit i of the bitmap only.
update_bit :
    (bm : ℕ → ℕ) (i j w : ℕ) (b : Bool)
    → digit w (j % 8) ≡ (if i % 8 == j % 8 then b else digit (bm (i / 8)) (j % 8))
    → digit (update bm (i / 8) w (j / 8)) (j % 8)
      ≡ (if i == j then b else digit (bm (j / 8)) (j % 8))
update_bit bm i j w b h = elim (Bool-cases (i / 8 == j / 8)) [
  | inr other ↦ let apart : (i == j) ≡ false = ground arith in rw (other, apart) refl
  | inl byte ↦
      let e = (==_iff (i / 8) (j / 8)).0 byte in
      let bits : (i % 8 == j % 8) ≡ (i == j) = same_bit i j e in rw byte (h ∙ rw (bits, e) refl)
]

-- Setting a bit sets that bit and leaves the others.
pub bit_set_lem :
    (bm : ℕ → ℕ) (i j : ℕ)
    → Bytes bm
    → bit_test (bit_set bm i) j ≡ (if i == j then true else bit_test bm j)
unfolding bit_set bit_test
bit_set_lem bm i j h =
    update_bit bm i j _ true
      (set_byte (bm (i / 8)) (i % 8) (j % 8) (h (i / 8)) (omega arith) (omega arith)).1

pub bit_clear_lem :
    (bm : ℕ → ℕ) (i j : ℕ)
    → Bytes bm
    → bit_test (bit_clear bm i) j ≡ (if i == j then false else bit_test bm j)
unfolding bit_clear bit_test
bit_clear_lem bm i j h =
    update_bit bm i j _ false
      (clear_byte (bm (i / 8)) (i % 8) (j % 8) (h (i / 8)) (omega arith) (omega arith)).1

update-Bytes : (bm : ℕ → ℕ) (i w : ℕ) → Bytes bm → w < 256 → Bytes (update bm i w)
update-Bytes bm i w h lt k = ground (arith, h k)

pub bit_set-Bytes : (bm : ℕ → ℕ) (i : ℕ) → Bytes bm → Bytes (bit_set bm i)
unfolding bit_set
bit_set-Bytes bm i h =
    update-Bytes bm (i / 8) _ h
      (set_byte (bm (i / 8)) (i % 8) 0 (h (i / 8)) (omega arith) (omega arith)).0

pub bit_clear-Bytes : (bm : ℕ → ℕ) (i : ℕ) → Bytes bm → Bytes (bit_clear bm i)
unfolding bit_clear
bit_clear-Bytes bm i h =
    update-Bytes bm (i / 8) _ h
      (clear_byte (bm (i / 8)) (i % 8) 0 (h (i / 8)) (omega arith) (omega arith)).0
