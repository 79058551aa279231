-- ===== src/Platform/Cover.antt =====
-- Lists of ranges as sets of addresses.
use capaz_os_kernel.Common.{
  ℕ, ◌+◌, ◌≤◌, ◌<◌, ◌≡◌, ◌≢◌, ◌⊎◌, inl, inr, ◌↔◌, arith, List, [], ◌∷◌, ◌++◌, u64_mod,
}
use capaz_os_kernel.Platform.{DtbRange, range_end}

abbrev pub Within : ℕ → DtbRange → Type 0
Within x r = (r.base ≤ x) × (x < r.base + r.size)

abbrev pub Covers : List DtbRange → ℕ → Type 0
Covers [] x = ⊥
Covers (r ∷ rs) x = Within x r ⊎ Covers rs x

-- No end wraps.
abbrev pub Fits : List DtbRange → Type 0
Fits [] = Unit
Fits (r ∷ rs) = (r.base + r.size < u64_mod) × Fits rs

abbrev pub Solid : List DtbRange → Type 0
Solid [] = Unit
Solid (r ∷ rs) = (r.size ≢ 0) × Solid rs

abbrev pub AllGe : ℕ → List DtbRange → Type 0
AllGe v [] = Unit
AllGe v (r ∷ rs) = (v ≤ r.base) × AllGe v rs

-- Ordered by base.
abbrev pub Ascending : List DtbRange → Type 0
Ascending [] = Unit
Ascending (r ∷ rs) = AllGe r.base rs × Ascending rs

-- Ordered, none empty, and a gap between any two.
abbrev pub Apart : List DtbRange → Type 0
Apart [] = Unit
Apart (r ∷ rs) = (r.size ≢ 0) × AllGe (r.base + r.size + 1) rs × Apart rs

pub range_end-exact : (r : DtbRange) → r.base + r.size < u64_mod → range_end r ≡ r.base + r.size
unfolding range_end
range_end-exact r h = omega arith

pub AllGe-weaken : (v w : ℕ) (rs : List DtbRange) → v ≤ w → AllGe w rs → AllGe v rs
AllGe-weaken v w [] le a = tt
AllGe-weaken v w (r ∷ rs) le a = (omega arith, AllGe-weaken v w rs le a.1)

pub Apart-Ascending : (rs : List DtbRange) → Apart rs → Ascending rs
Apart-Ascending [] a = tt
Apart-Ascending (r ∷ rs) (ne, gap, a) =
    (AllGe-weaken r.base (r.base + r.size + 1) rs (omega arith) gap, Apart-Ascending rs a)

-- Nothing below its first base is covered by an ordered list.
pub Covers-AllGe : (v : ℕ) (rs : List DtbRange) (x : ℕ) → AllGe v rs → Covers rs x → v ≤ x
Covers-AllGe v [] x a c = absurd c
Covers-AllGe v (r ∷ rs) x a (inl w) = omega arith
Covers-AllGe v (r ∷ rs) x a (inr c) = Covers-AllGe v rs x a.1 c

pub Covers-append :
    (rs ss : List DtbRange) (x : ℕ) → Covers (rs ++ ss) x ↔ (Covers rs x ⊎ Covers ss x)
Covers-append [] ss x = ((λ c. inr c), λ c. elim c [ inl z ↦ absurd z | inr c' ↦ c' ])
Covers-append (r ∷ rs) ss x =
    let (to, back) = Covers-append rs ss x in
    (
      (λ c. elim c [
        | inl w ↦ inl (inl w)
        | inr c' ↦ elim (to c') [ inl a ↦ inl (inr a) | inr b ↦ inr b ]
      ]),
      λ c. elim c [
        | inl (inl w) ↦ inl w
        | inl (inr a) ↦ inr (back (inl a))
        | inr b ↦ inr (back (inr b))
      ],
    )

pub Fits-append : (rs ss : List DtbRange) → Fits rs → Fits ss → Fits (rs ++ ss)
Fits-append [] ss f g = g
Fits-append (r ∷ rs) ss f g = (f.0, Fits-append rs ss f.1 g)

pub Solid-append : (rs ss : List DtbRange) → Solid rs → Solid ss → Solid (rs ++ ss)
Solid-append [] ss f g = g
Solid-append (r ∷ rs) ss f g = (f.0, Solid-append rs ss f.1 g)
