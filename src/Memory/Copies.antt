-- ===== src/Memory/Copies.antt =====
-- What the copying helpers of mm/mem.c leave in memory.
use capaz_os_kernel.Common.{
  ℕ, zero, suc, ◌+◌, ◌-◌, ◌%◌, ◌≤◌, ◌≡◌, ◌⊎◌, inl, inr, refl, ap, sym, ◌∙◌, arith, true, false,
  ◌&&◌, ◌||◌, Bool-cases, ltb, leb, ◌==◌, if◌then◌else◌, update,
}
use capaz_os_kernel.Memory.{set_from, memset, copy_up, copy_down, memcpy, memmove}

-- The memory with the n bytes at d replaced, all at once, by the n bytes at s.
abbrev pub copied : (ℕ → ℕ) → ℕ → ℕ → ℕ → ℕ → ℕ
copied m d s n a = if leb d a && ltb a (d + n) then m (s + (a - d)) else m a

set_from_lem :
    (m : ℕ → ℕ) (p v n i a : ℕ)
    → set_from m p v n i a ≡ (if leb (p + i) a && ltb a (p + i + n) then v else m a)
unfolding set_from
set_from_lem m p v zero i a = ground arith
set_from_lem m p v (suc n) i a = set_from_lem (update m (p + i) v) p v n (suc i) a ∙ ground arith

-- `memset` writes the low byte of c to the n bytes at dst and to no other.
pub memset_lem :
    (m : ℕ → ℕ) (dst c n a : ℕ)
    → memset m dst c n a ≡ (if leb dst a && ltb a (dst + n) then c % 256 else m a)
unfolding memset
memset_lem m dst c n a = set_from_lem m dst (c % 256) n 0 a ∙ ground arith

-- The bytes that are left when the first i have been copied upwards.
abbrev upper : (ℕ → ℕ) → ℕ → ℕ → ℕ → ℕ → ℕ → ℕ
upper m d s n i a = if leb (d + i) a && ltb a (d + i + n) then m (s + (a - d)) else m a

copy_up_lem :
    (m : ℕ → ℕ) (d s n i a : ℕ)
    → (d ≤ s) ⊎ (s + i + n ≤ d)
    → copy_up m d s n i a ≡ upper m d s n i a
unfolding copy_up
copy_up_lem m d s zero i a h = ground arith
copy_up_lem m d s (suc n) i a h =
    copy_up_lem (update m (d + i) (m (s + i))) d s n (suc i) a
      (elim h [ inl l ↦ inl l | inr r ↦ inr (omega arith) ])
    ∙ step h
  where
    step :
        (d ≤ s) ⊎ (s + i + suc n ≤ d)
        → upper (update m (d + i) (m (s + i))) d s n (suc i) a ≡ upper m d s (suc n) i a
    step h = elim (Bool-cases (d + i == a)) [
      | inl first ↦ let e : s + i ≡ s + (a - d) = ground arith in ground (arith, ap m e)
      | inr other ↦ elim (Bool-cases (leb (d + suc i) a && ltb a (d + suc i + n))) [
        | inr out ↦
            let out' : leb (d + i) a && ltb a (d + i + suc n) ≡ false = ground arith in
            rw (out, out', other) refl
        | inl within ↦
            let within' : leb (d + i) a && ltb a (d + i + suc n) ≡ true = ground arith in
            let apart : (d + i == s + (a - d)) ≡ false = elim h [
              | inl l ↦ ground arith
              | inr r ↦ ground arith
            ] in
            rw (within, within', apart) refl
      ]
    ]

copy_down_lem : (m : ℕ → ℕ) (d s n a : ℕ) → s ≤ d → copy_down m d s n a ≡ copied m d s n a
unfolding copy_down
copy_down_lem m d s zero a h = ground arith
copy_down_lem m d s (suc n) a h = copy_down_lem (update m (d + n) (m (s + n))) d s n a h ∙ step
  where
    step : copied (update m (d + n) (m (s + n))) d s n a ≡ copied m d s (suc n) a
    step = elim (Bool-cases (d + n == a)) [
      | inl last ↦ let e : s + n ≡ s + (a - d) = ground arith in ground (arith, ap m e)
      | inr other ↦ elim (Bool-cases (leb d a && ltb a (d + n))) [
        | inr out ↦
            let out' : leb d a && ltb a (d + suc n) ≡ false = ground arith in
            rw (out, out', other) refl
        | inl within ↦
            let within' : leb d a && ltb a (d + suc n) ≡ true = ground arith in
            let apart : (d + n == s + (a - d)) ≡ false = ground arith in
            rw (within, within', apart) refl
      ]
    ]

-- `memmove` leaves the memory with the n bytes at dst replaced, all at once, by those that were at src,
-- also when the two blocks overlap.
pub memmove_lem : (m : ℕ → ℕ) (dst src n a : ℕ) → memmove m dst src n a ≡ copied m dst src n a
unfolding memmove
memmove_lem m dst src n a = elim (Bool-cases (dst == src || n == 0)) [
  | inl nothing ↦ rw nothing (same nothing)
  | inr something ↦ rw something (elim (Bool-cases (ltb dst src)) [
    | inl up ↦ rw up (copy_up_lem m dst src n 0 a (inl (ground arith)) ∙ ground arith)
    | inr down ↦ rw down (copy_down_lem m dst src n a (ground arith))
  ])
]
  where
    same : (dst == src || n == 0) ≡ true → m a ≡ copied m dst src n a
    same nothing = elim (Bool-cases (leb dst a && ltb a (dst + n))) [
      | inr out ↦ rw out refl
      | inl within ↦ let e : a ≡ src + (a - dst) = ground arith in rw within (ap m e)
    ]

-- `memcpy` does what `memmove` does for blocks that do not overlap, or of which the destination begins
-- first.
pub memcpy-memmove :
    (m : ℕ → ℕ) (dst src n a : ℕ)
    → (dst ≤ src) ⊎ (src + n ≤ dst)
    → memcpy m dst src n a ≡ memmove m dst src n a
unfolding memcpy
memcpy-memmove m dst src n a h =
    copy_up_lem m dst src n 0 a (elim h [ inl l ↦ inl l | inr r ↦ inr (omega arith) ])
    ∙ (ground arith ∙ sym (memmove_lem m dst src n a))
