-- ===== src/Platform/Align.antt =====
-- Cutting ranges to whole pages and to the window of RAM, as platform/platform.c does it.
use capaz_os_kernel.Common.{
  ℕ, ◌+◌, ◌≤◌, ◌<◌, inl, inr, ◌↔◌, arith, List, [], ◌∷◌, ltb, leb, ◌==◌, Bool-cases, if◌then◌else◌,
  u64_mod,
}
use capaz_os_kernel.Board.{
  Board, virt, rpi3, ram_base, win_end, align_down_4k, align_up_4k, page_size,
}
use capaz_os_kernel.Platform.{DtbRange, range_end, clamp, clamp_inner, clamp_outer}
use capaz_os_kernel.Platform.Cover.{Covers, Fits, range_end-exact, Covers-append, Fits-append}

-- Addresses that the window maps.
abbrev pub InWindow : Board → ℕ → Type 0
InWindow b x = (ram_base b ≤ x) × (x < win_end b)

pub win_end_lt : (b : Board) → win_end b < u64_mod
win_end_lt virt = omega arith
win_end_lt rpi3 = omega arith

-- Ranges of physical addresses: the page behind each is still below 2^64.
abbrev pub Physical : List DtbRange → Type 0
Physical [] = Unit
Physical (r ∷ rs) = (r.base + r.size + page_size ≤ u64_mod) × Physical rs

abbrev low : Board → ℕ → ℕ
low b s = if ltb s (ram_base b) then ram_base b else s

abbrev high : Board → ℕ → ℕ
high b e = if ltb (win_end b) e then win_end b else e

-- The span cut to the window covers the addresses of the span that lie in the window.
pub clamp-Covers :
    (b : Board) (s e x : ℕ) → Covers (clamp b s e) x ↔ ((s ≤ x) × (x < e) × InWindow b x)
unfolding clamp
clamp-Covers b s e x = elim (Bool-cases (leb (high b e) (low b s))) [
  | inl empty ↦ rw empty ((λ c. absurd c), λ p. absurd (ground arith))
  | inr rest ↦
      rw rest ((λ c. elim c [ inl w ↦ ground arith | inr z ↦ absurd z ]), λ p. inl (ground arith))
]

pub clamp-Fits : (b : Board) (s e : ℕ) → Fits (clamp b s e)
unfolding clamp
clamp-Fits b s e =
    let w = win_end_lt b in
    elim (Bool-cases (leb (high b e) (low b s))) [
      | inl empty ↦ rw empty tt
      | inr rest ↦ rw rest (ground arith, tt)
    ]

-- What is kept of ranges of RAM lies in them.
pub inner_sound :
    (b : Board) (rs : List DtbRange) (x : ℕ)
    → Physical rs
    → Covers (clamp_inner b rs) x
    → Covers rs x × InWindow b x
unfolding clamp_inner
inner_sound b [] x p c = absurd c
inner_sound b (r ∷ rs) x p c =
    let s = align_up_4k r.base in
    let e = align_down_4k (range_end r) in
    let exact = range_end-exact r (omega arith) in
    elim ((Covers-append (clamp b s e) (clamp_inner b rs) x).0 c) [
      | inl h ↦ let (ge, lt, win) = (clamp-Covers b s e x).0 h in (inl (omega (arith, exact)), win)
      | inr t ↦ let (c', win) = inner_sound b rs x p.1 t in (inr c', win)
    ]

pub inner-Fits : (b : Board) (rs : List DtbRange) → Fits (clamp_inner b rs)
unfolding clamp_inner
inner-Fits b [] = tt
inner-Fits b (r ∷ rs) =
    Fits-append (clamp b _ _) (clamp_inner b rs) (clamp-Fits b _ _) (inner-Fits b rs)

-- Every address of the window that a reserved range covers stays covered.
pub outer-complete :
    (b : Board) (rs : List DtbRange) (x : ℕ)
    → Physical rs
    → InWindow b x
    → Covers rs x
    → Covers (clamp_outer b rs) x
unfolding clamp_outer
outer-complete b [] x p w c = c
outer-complete b (r ∷ rs) x p w c =
    let s = align_down_4k r.base in
    let e = align_up_4k (range_end r) in
    let exact = range_end-exact r (omega arith) in
    elim (Bool-cases (r.size == 0)) [
      | inl empty ↦
          rw empty
            (outer-complete b rs x p.1 w (elim c [ inl h ↦ absurd (ground arith) | inr t ↦ t ]))
      | inr rest ↦ rw rest (
          (Covers-append (clamp b s e) (clamp_outer b rs) x).1 (elim c [
            | inl h ↦ inl ((clamp-Covers b s e x).1 (omega (arith, exact), omega (arith, exact), w))
            | inr t ↦ inr (outer-complete b rs x p.1 w t)
          ]))
    ]

pub outer-Fits : (b : Board) (rs : List DtbRange) → Fits (clamp_outer b rs)
unfolding clamp_outer
outer-Fits b [] = tt
outer-Fits b (r ∷ rs) = elim (Bool-cases (r.size == 0)) [
  | inl empty ↦ rw empty (outer-Fits b rs)
  | inr rest ↦
      rw rest (Fits-append (clamp b _ _) (clamp_outer b rs) (clamp-Fits b _ _) (outer-Fits b rs))
]
