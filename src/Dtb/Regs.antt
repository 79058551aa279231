-- ===== src/Dtb/Regs.antt =====
-- What `parse_reg_all` and `append_range` of platform/dtb.c add to an array of ranges.
use capaz_os_kernel.Common.{
  ◌/◌, ◌-◌, leb, ℕ, zero, suc, ◌+◌, ◌*◌, ◌^◌, ◌≤◌, ◌<◌, ◌≡◌, refl, ap, sym, subst, ◌∙◌, inl, inr,
  ◌⊎◌, arith, true, false, ◌&&◌, add_u32, some, Bool-cases, List, [], ◌∷◌, ◌++◌, length,
  length-append, ◌==◌,
}
use native.Mathlib.Nat.{div-mul-le_self, lt-div-mul-add}
use capaz_os_kernel.Platform.{DtbRange}
use capaz_os_kernel.Dtb.{
  be32, be64, append_range, read_cells, parse_tuples, parse_reg_all, bad_cells,
}
use capaz_os_kernel.Dtb.Layout.{BytesAt, word, value, number, one_or_two, tuples, regs, solid}
use capaz_os_kernel.Dtb.Init.{first_ranges}

-- One range after the other is appended.
abbrev pub append_all : ℕ → List DtbRange → List DtbRange → List DtbRange
append_all max arr [] = arr
append_all max arr (r ∷ rs) = append_all max (append_range max arr r.base r.size) rs

pub append_all-append :
    (max : ℕ) (arr rs ss : List DtbRange)
    → append_all max arr (rs ++ ss) ≡ append_all max (append_all max arr rs) ss
append_all-append max arr [] ss = refl
append_all-append max arr (r ∷ rs) ss =
    append_all-append max (append_range max arr r.base r.size) rs ss

pub be32-word : (m : ℕ → ℕ) (p : ℕ) → be32 m p ≡ word m p
unfolding be32
be32-word m p =
    let e2 : m (p + 1 + 1) ≡ m (p + 2) = ap m (omega arith) in
    let e3 : m (p + 1 + 1 + 1) ≡ m (p + 3) = ap m (omega arith) in omega (arith, e2, e3)

-- The reader of 64 bits reads the number of its 8 bytes.
pub be64-value : (m : ℕ → ℕ) (p : ℕ) → be64 m p ≡ value m p 8
unfolding be64 be32
be64-value m p =
    let e2 : m (p + 1 + 1) ≡ m (p + 2) = ap m (omega arith) in
    let e3 : m (p + 1 + 1 + 1) ≡ m (p + 3) = ap m (omega arith) in
    let e4 : m (p + 1 + 1 + 1 + 1) ≡ m (p + 4) = ap m (omega arith) in
    let e5 : m (p + 1 + 1 + 1 + 1 + 1) ≡ m (p + 4 + 1) = ap m (omega arith) in
    let e6 : m (p + 1 + 1 + 1 + 1 + 1 + 1) ≡ m (p + 4 + 2) = ap m (omega arith) in
    let e7 : m (p + 1 + 1 + 1 + 1 + 1 + 1 + 1) ≡ m (p + 4 + 3) = ap m (omega arith) in
    omega (arith, e2, e3, e4, e5, e6, e7)

-- A number that stands at p is the number of its bytes.
pub be32-at :
    (m d : ℕ → ℕ) (p q k n : ℕ) → BytesAt m p d n → q ≡ p + k → k + 4 ≤ n → be32 m q ≡ be32 d k
unfolding be32
be32-at m d p q k n (h, b) e fit =
    let e0 : m q ≡ d k = ap m e ∙ h k (omega arith) in
    let e1 : m (q + 1) ≡ d (k + 1) = ap m (omega (arith, e)) ∙ h (k + 1) (omega arith) in
    let e2 : m (q + 2) ≡ d (k + 2) = ap m (omega (arith, e)) ∙ h (k + 2) (omega arith) in
    let e3 : m (q + 3) ≡ d (k + 3) = ap m (omega (arith, e)) ∙ h (k + 3) (omega arith) in
    rw (e0, e1, e2, e3)

be32-lt : (d : ℕ → ℕ) (k : ℕ) → ((i : ℕ) → d i < 256) → be32 d k < 2 ^ 32
unfolding be32
be32-lt d k b = omega (arith, b k, b (k + 1), b (k + 2), b (k + 3))

read-one :
    (m d : ℕ → ℕ) (p q k n : ℕ)
    → BytesAt m p d n
    → q ≡ p + k
    → k + 4 ≤ n
    → read_cells m 1 q 0 ≡ be32 d k
unfolding read_cells
read-one m d p q k n h e fit = let one = be32-at m d p q k n h e fit in omega (arith, one)

read-two :
    (m d : ℕ → ℕ) (p q k n : ℕ)
    → BytesAt m p d n
    → q ≡ p + k
    → k + 8 ≤ n
    → read_cells m 2 q 0 ≡ be64 d k
unfolding read_cells be64
read-two m d p q k n h e fit =
    let high = be32-at m d p q k n h e (omega arith) in
    let low = be32-at m d p (q + 4) (k + 4) n h (omega (arith, e)) (omega arith) in
    let bytes = h.1 in ground (arith, high, low, be32-lt d k bytes)

-- Where a property has so many cells.
read-number :
    (m d : ℕ → ℕ) (p q k n c : ℕ)
    → BytesAt m p d n
    → q ≡ p + k
    → (c ≡ 1) ⊎ (c ≡ 2)
    → k + 4 * c ≤ n
    → read_cells m c q 0 ≡ number d c k
read-number m d p q k n c h e (inl one) fit =
    subst (λ c. k + 4 * c ≤ n → read_cells m c q 0 ≡ number d c k) (sym one)
      (λ fit. read-one m d p q k n h e fit ∙ be32-word d k) fit
read-number m d p q k n c h e (inr two) fit =
    subst (λ c. k + 4 * c ≤ n → read_cells m c q 0 ≡ number d c k) (sym two)
      (λ fit. read-two m d p q k n h e fit ∙ be64-value d k) fit

tuples-read :
    (m d : ℕ → ℕ) (fuel p k n a s count max : ℕ) (out : List DtbRange)
    → BytesAt m p d n
    → (a ≡ 1) ⊎ (a ≡ 2)
    → (s ≡ 1) ⊎ (s ≡ 2)
    → n + 16 < 2 ^ 32
    → k + count * (4 * (a + s)) ≤ n
    → n < k + count * (4 * (a + s)) + 4 * (a + s)
    → count < fuel
    → parse_tuples m fuel p k n a s max out ≡ some (append_all max out (tuples d count k a s))
unfolding parse_tuples
tuples-read m d zero p k n a s count max out h ha hs small fit last enough =
    absurd (omega (arith, enough))
tuples-read m d (suc fuel) p k n a s zero max out h ha hs small fit last enough =
    let wide : 4 * (a + s) ≤ 16 = ground (arith, ha, hs) in
    let next : add_u32 k (4 * (a + s)) ≡ k + 4 * (a + s) = omega (arith, small, fit, wide) in
    let over : leb (k + 4 * (a + s)) n ≡ false = ground (arith, last) in rw (next, over) refl
tuples-read m d (suc fuel) p k n a s (suc count) max out h ha hs small fit last enough =
    let wide : 4 * (a + s) ≤ 16 = ground (arith, ha, hs) in
    let next : add_u32 k (4 * (a + s)) ≡ k + 4 * (a + s) = omega (arith, small, fit, wide) in
    let room : leb (k + 4 * (a + s)) n ≡ true = ground (arith, fit) in
    let addr = read-number m d p (p + k) k n a h refl ha (omega (arith, fit)) in
    let len =
      read-number m d p (p + k + 4 * a) (k + 4 * a) n s h (omega arith) hs (omega (arith, fit)) in
    let rest =
      tuples-read m d fuel p (k + 4 * (a + s)) n a s count max
        (append_range max out (number d a k) (number d s (k + 4 * a))) h ha hs small
        (omega (arith, fit)) (omega (arith, last)) (omega (arith, enough)) in
    rw (next, room, addr, len) rest

cells-good :
    (a s : ℕ)
    → bad_cells a s ≡ false
    → ((a ≡ 1) ⊎ (a ≡ 2)) × ((s ≡ 1) ⊎ (s ≡ 2)) × ((one_or_two a && one_or_two s) ≡ true)
cells-good a s ok = ground (arith, ok)

cells-bad : (a s : ℕ) → bad_cells a s ≡ true → (one_or_two a && one_or_two s) ≡ false
cells-bad a s bad = ground (arith, bad)

at_least_eight : (c t n : ℕ) → 8 ≤ t → c * t ≤ n → c * 8 ≤ n
at_least_eight zero t n wide fit = omega arith
at_least_eight (suc c) t n wide fit =
    let rest = at_least_eight c t (n - t) wide (omega (arith, fit)) in
    omega (arith, rest, wide, fit)

-- A register's ranges are appended one after the other.
pub parse_reg_all-regs :
    (m d : ℕ → ℕ) (fuel p n a s max : ℕ) (out : List DtbRange)
    → BytesAt m p d n
    → n + 16 < 2 ^ 32
    → n ≤ fuel
    → parse_reg_all m fuel p n a s max out ≡ some (append_all max out (regs d n a s))
unfolding parse_reg_all regs
parse_reg_all-regs m d fuel p n a s max out h small enough = elim (Bool-cases (bad_cells a s)) [
  | inl bad ↦ elim (Bool-cases (n == 0)) [
    | inl empty ↦ rw (empty, cells-bad a s bad) refl
    | inr full ↦ rw (full, bad, cells-bad a s bad) refl
  ]
  | inr good ↦
      let (ha, hs, fine) = cells-good a s good in
      let wide : 8 ≤ 4 * (a + s) = ground (arith, ha, hs) in
      let whole = div-mul-le_self n (4 * (a + s)) in
      let few = at_least_eight (n / (4 * (a + s))) (4 * (a + s)) n wide whole in
      elim (Bool-cases (n == 0)) [
        | inl empty ↦
            let none_fit : n / (4 * (a + s)) ≡ 0 = ground (arith, few, empty) in
            rw (empty, fine, none_fit) refl
        | inr full ↦
            rw (full, good, fine)
              (tuples-read m d fuel p 0 n a s (n / (4 * (a + s))) max out h ha hs small
                (omega (arith, whole))
                (let above = lt-div-mul-add {a = n} {b = 4 * (a + s)} (omega (arith, wide)) in
                  omega (arith, above))
                (ground (arith, few, full, enough)))
      ]
]

append-one : (rs ss : List DtbRange) (r : DtbRange) → (rs ++ r ∷ []) ++ ss ≡ rs ++ r ∷ ss
append-one [] ss r = refl
append-one (x ∷ xs) ss r = ap (λ zs. x ∷ zs) (append-one xs ss r)

append-none : (rs : List DtbRange) → rs ++ [] ≡ rs
append-none [] = refl
append-none (x ∷ xs) = ap (λ zs. x ∷ zs) (append-none xs)

append-full : (max : ℕ) (arr rs : List DtbRange) → max ≤ length arr → append_all max arr rs ≡ arr
unfolding append_range
append-full max arr [] full = refl
append-full max arr (r ∷ rs) full =
    let here : append_range max arr r.base r.size ≡ arr = ground (arith, full) in
    rw here (append-full max arr rs full)

range-empty :
    (max base size : ℕ) (arr : List DtbRange)
    → (size == 0) ≡ true
    → append_range max arr base size ≡ arr
unfolding append_range
range-empty max base size arr empty = ground (arith, empty)

range-room :
    (max base size : ℕ) (arr : List DtbRange)
    → (size == 0) ≡ false
    → length arr < max
    → append_range max arr base size ≡ arr ++ record { base = base; size = size } ∷ []
unfolding append_range
range-room max base size arr full room = ground (arith, full, room)

append-room :
    (max k : ℕ) (arr rs : List DtbRange)
    → max ≡ length arr + k
    → append_all max arr rs ≡ arr ++ first_ranges k (solid rs)
append-room max zero arr rs room =
    append-full max arr rs (omega (arith, room)) ∙ sym (append-none arr)
append-room max (suc k) arr [] room = sym (append-none arr)
append-room max (suc k) arr (r ∷ rs) room = elim (Bool-cases (r.size == 0)) [
  | inl empty ↦
      rw (empty, range-empty max r.base r.size arr empty) (append-room max (suc k) arr rs room)
  | inr full ↦
      let more = length-append arr (r ∷ []) in
      rw (full, range-room max r.base r.size arr full (omega (arith, room)))
        (append-room max k (arr ++ r ∷ []) rs (omega (arith, room, more))
          ∙ append-one arr (first_ranges k (solid rs)) r)
]

-- Of the ranges, those that are not empty are kept, up to the end of the array.
pub append_all-first_ranges :
    (max : ℕ) (rs : List DtbRange) → append_all max [] rs ≡ first_ranges max (solid rs)
append_all-first_ranges max rs = append-room max max [] rs (omega arith)
