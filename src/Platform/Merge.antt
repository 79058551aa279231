-- ===== src/Platform/Merge.antt =====
-- `normalize_merge` of platform/platform.c keeps the addresses and leaves gaps between its ranges.
use capaz_os_kernel.Common.{
  ℕ, ◌+◌, ◌≤◌, ◌<◌, ◌≡◌, ◌≢◌, ◌⊎◌, inl, inr, refl, subst, sym, arith, List, [], ◌∷◌, ltb, leb, ◌==◌,
  Bool-cases, sub_u64, u64_mod,
}
use capaz_os_kernel.Platform.{DtbRange, range_end, merge_into, normalize_merge}
use capaz_os_kernel.Platform.Cover.{
  AllGe, AllGe-weaken, Ascending, Covers, Fits, Within, Apart, range_end-exact,
}

-- What merging makes of the ranges `before`.
pub record Merged (before after : List DtbRange) : Type 0 where
  pub sound : (x : ℕ) → Covers after x → Covers before x
  pub complete : (x : ℕ) → Covers before x → Covers after x
  pub apart : Apart after
  pub fits : Fits after
  pub above : (v : ℕ) → AllGe v before → AllGe v after

-- A range that is empty adds nothing.
drop_empty :
    {prev r : DtbRange} {rs out : List DtbRange}
    → r.size ≡ 0
    → Merged (prev ∷ rs) out
    → Merged (prev ∷ r ∷ rs) out
drop_empty e m = record {
  sound = λ x c. elim (m.sound x c) [ inl w ↦ inl w | inr c' ↦ inr (inr c') ];
  complete = λ x c. elim c [
    | inl w ↦ m.complete x (inl w)
    | inr (inl w) ↦ absurd (omega arith)
    | inr (inr c') ↦ m.complete x (inr c')
  ];
  apart = m.apart;
  fits = m.fits;
  above = λ v a. m.above v (a.0, a.1.1);
}

-- A range that begins within prev or just behind it joins it: g ends where the later one ends.
join :
    {prev r g : DtbRange} {rs out : List DtbRange}
    → prev.base ≤ r.base
    → r.base ≤ prev.base + prev.size
    → g.base ≡ prev.base
    → ((g.size ≡ prev.size) × (r.base + r.size ≤ prev.base + prev.size))
      ⊎ ((g.base + g.size ≡ r.base + r.size) × (prev.base + prev.size < r.base + r.size))
    → Merged (g ∷ rs) out
    → Merged (prev ∷ r ∷ rs) out
join {prev} {r} {g} {rs} le touch b size m = record {
  sound = λ x c. elim (m.sound x c) [ inl w ↦ split x w size | inr c' ↦ inr (inr c') ];
  complete = λ x c. elim c [
    | inl w ↦ m.complete x (inl (elim size [ inl e ↦ omega arith | inr e ↦ omega arith ]))
    | inr (inl w) ↦ m.complete x (inl (elim size [ inl e ↦ omega arith | inr e ↦ omega arith ]))
    | inr (inr c') ↦ m.complete x (inr c')
  ];
  apart = m.apart;
  fits = m.fits;
  above = λ v a. m.above v (omega arith, a.1.1);
}
  where
    split :
        (x : ℕ)
        → Within x g
        → ((g.size ≡ prev.size) × (r.base + r.size ≤ prev.base + prev.size))
          ⊎ ((g.base + g.size ≡ r.base + r.size) × (prev.base + prev.size < r.base + r.size))
        → Within x prev ⊎ (Within x r ⊎ Covers rs x)
    split x w (inl e) = inl (omega arith)
    split x w (inr e) = elim (Bool-cases (ltb x (prev.base + prev.size))) [
      | inl in_prev ↦ inl (ground arith)
      | inr past ↦ inr (inl (ground arith))
    ]

-- A range behind a gap begins a new one.
separate :
    {prev r : DtbRange} {rs out : List DtbRange}
    → prev.size ≢ 0
    → prev.base + prev.size < u64_mod
    → prev.base + prev.size < r.base
    → AllGe r.base rs
    → Merged (r ∷ rs) out
    → Merged (prev ∷ r ∷ rs) (prev ∷ out)
separate {prev} {r} {rs} ne fit gap up m = record {
  sound = λ x c. elim c [ inl w ↦ inl w | inr c' ↦ inr (m.sound x c') ];
  complete = λ x c. elim c [ inl w ↦ inl w | inr c' ↦ inr (m.complete x c') ];
  apart = (
    ne,
    m.above (prev.base + prev.size + 1)
        (omega arith, AllGe-weaken (prev.base + prev.size + 1) r.base rs (omega arith) up),
    m.apart,
  );
  fits = (fit, m.fits);
  above = λ v a. (a.0, m.above v a.1);
}

grow : DtbRange → DtbRange → DtbRange
grow prev r = record prev { size = sub_u64 (range_end r) prev.base }

grow_end :
    (prev r : DtbRange)
    → r.base + r.size < u64_mod
    → prev.base ≤ r.base + r.size
    → ((grow prev r).base ≡ prev.base) × ((grow prev r).base + (grow prev r).size ≡ r.base + r.size)
unfolding grow
grow_end prev r fit le = (refl, omega (arith, range_end-exact r fit))

merge_into-Merged :
    (prev : DtbRange) (rs : List DtbRange)
    → prev.size ≢ 0
    → Fits (prev ∷ rs)
    → Ascending (prev ∷ rs)
    → Merged (prev ∷ rs) (merge_into prev rs)
unfolding merge_into grow
merge_into-Merged prev [] ne f a = record {
  sound = λ x c. c;
  complete = λ x c. c;
  apart = (ne, tt, tt);
  fits = f;
  above = λ v b. b;
}
merge_into-Merged prev (r ∷ rs) ne f a =
    let here = range_end-exact prev f.0 in
    let there = range_end-exact r f.1.0 in
    let skip = merge_into-Merged prev rs ne (f.0, f.1.1) (a.0.1, a.1.1) in
    elim (Bool-cases (r.size == 0)) [
      | inl empty ↦ rw empty (drop_empty (ground arith) skip)
      | inr some_size ↦ elim (Bool-cases (leb r.base (range_end prev))) [
        | inr gap ↦
            rw (some_size, gap)
              (separate ne f.0 (ground (arith, here)) a.1.0
                (merge_into-Merged r rs (ground arith) f.1 a.1))
        | inl touch ↦ elim (Bool-cases (ltb (range_end prev) (range_end r))) [
          | inr inside ↦
              rw (some_size, touch, inside)
                (join a.0.0 (ground (arith, here)) refl (inl (refl, ground (arith, here, there)))
                  skip)
          | inl longer ↦
              let (gb, ge) = grow_end prev r f.1.0 (omega arith) in
              rw (some_size, touch, longer)
                (join a.0.0 (ground (arith, here)) gb (inr (ge, ground (arith, here, there))) (
                  merge_into-Merged (grow prev r) rs (ground (arith, ge, gb, here, there, ne))
                    (omega (arith, ge, f.1.0), f.1.1)
                    (subst (λ v. AllGe v rs) (sym gb) a.0.1, a.1.1)))
        ]
      ]
    ]

-- Merging ranges that are in order keeps exactly their addresses, and leaves ranges in order of which
-- none is empty and no two touch.
pub merge_lem : (rs : List DtbRange) → Fits rs → Ascending rs → Merged rs (normalize_merge rs)
unfolding normalize_merge
merge_lem [] f a = record {
  sound = λ x c. c;
  complete = λ x c. c;
  apart = tt;
  fits = tt;
  above = λ v b. b;
}
merge_lem (r ∷ rs) f a = elim (Bool-cases (r.size == 0)) [
  | inl empty ↦
      let m = merge_lem rs f.1 a.1 in
      rw empty (record {
        sound = λ x c. inr (m.sound x c);
        complete = λ x c. elim c [ inl w ↦ absurd (ground arith) | inr c' ↦ m.complete x c' ];
        apart = m.apart;
        fits = m.fits;
        above = λ v b. m.above v b.1;
      })
  | inr some_size ↦ rw some_size (merge_into-Merged r rs (ground arith) f a)
]
