-- ===== src/Platform/Subtract.antt =====
-- `subtract_reserved` of platform/platform.c leaves exactly the memory that is not reserved.
use capaz_os_kernel.Common.{
  ℕ, ◌+◌, ◌≤◌, ◌≡◌, ◌≢◌, inl, inr, ◌↔◌, subst, sym, ◌∙◌, arith, List, [], ◌∷◌, leb, ◌==◌,
  Bool-cases, false, some, bind_some, ◌>>=◌,
}
use capaz_os_kernel.Platform.{
  DtbRange, range_end, skip_below, carve, subtract_from, subtract_reserved,
}
use capaz_os_kernel.Platform.Cover.{Covers, Fits, Solid, Apart, range_end-exact, Covers-AllGe}
use capaz_os_kernel.Platform.Adds.{Adds, Free, restate, Adds-trans}
use capaz_os_kernel.Platform.Carve.{carve-Adds}

-- The reserved ranges that are passed over end before `start`.
skip-complete :
    (start : ℕ) (rsv : List DtbRange) (x : ℕ)
    → Fits rsv
    → start ≤ x
    → Covers rsv x
    → Covers (skip_below start rsv) x
unfolding skip_below
skip-complete start [] x f le c = c
skip-complete start (r ∷ rs) x f le c =
    let e = range_end-exact r f.0 in
    elim (Bool-cases (leb (range_end r) start)) [
      | inr keep ↦ rw keep c
      | inl over ↦ rw over (
          skip-complete start rs x f.1 le
            (elim c [ inl w ↦ absurd (ground (arith, e)) | inr c' ↦ c' ]))
    ]

skip-sound :
    (start : ℕ) (rsv : List DtbRange) (x : ℕ) → Covers (skip_below start rsv) x → Covers rsv x
unfolding skip_below
skip-sound start [] x c = c
skip-sound start (r ∷ rs) x c = elim (Bool-cases (leb (range_end r) start)) [
  | inr keep ↦ rw keep at c
  | inl over ↦ inr (skip-sound start rs x (rw over at c))
]

skip-order :
    (start : ℕ) (rsv : List DtbRange)
    → Fits rsv
    → Apart rsv
    → Fits (skip_below start rsv) × Apart (skip_below start rsv)
unfolding skip_below
skip-order start [] f a = (tt, tt)
skip-order start (r ∷ rs) f a = elim (Bool-cases (leb (range_end r) start)) [
  | inr keep ↦ rw keep (f, a)
  | inl over ↦ rw over (skip-order start rs f.1 a.2)
]

-- Memory that is not reserved.
abbrev pub Usable : List DtbRange → List DtbRange → ℕ → Type 0
Usable mem rsv x = Covers mem x × Free rsv x

subtract_step :
    (capacity : ℕ) (out : List DtbRange) (m : DtbRange) (ms rsv : List DtbRange)
    → m.size ≢ 0
    → subtract_from capacity out (m ∷ ms) rsv ≡ (
        carve capacity out m.base (range_end m) (skip_below m.base rsv)
        >>= (λ out1. subtract_from capacity out1 ms (skip_below m.base rsv)))
unfolding subtract_from
subtract_step capacity out m ms rsv ne =
    let some_size : (m.size == 0) ≡ false = ground arith in rw some_size

subtract-Adds :
    (capacity : ℕ) (out out' mem rsv : List DtbRange)
    → Fits mem
    → Apart mem
    → Fits rsv
    → Apart rsv
    → subtract_from capacity out mem rsv ≡ some out'
    → Adds (Usable mem rsv) out out'
unfolding subtract_from
subtract-Adds capacity out out' [] rsv fm am fr ar q =
    let same : out ≡ out' = ground arith in
    subst (Adds (Usable [] rsv) out) same (record {
      sound = λ x c. inl c;
      complete = λ x c. elim c [ inl o ↦ o | inr p ↦ absurd p.0 ];
      fits = λ f. f;
      solid = λ f. f;
    })
subtract-Adds capacity out out' (m ∷ ms) rsv fm am fr ar q =
    let rsv' = skip_below m.base rsv in
    let (fr', ar') = skip-order m.base rsv fr ar in
    let e = range_end-exact m fm.0 in
    let (out1, here, more) = bind_some out' (sym (subtract_step capacity out m ms rsv am.0) ∙ q) in
    let s =
      carve-Adds capacity m.base (range_end m) out out1 rsv' (omega (arith, e)) fr' ar' here in
    let t = subtract-Adds capacity out1 out' ms rsv' fm.1 am.2 fr' ar' more in
    restate
      (λ x p. elim p [
        | inl (span, free) ↦
            (inl (omega (arith, e)), λ c. free (skip-complete m.base rsv x fr (omega arith) c))
        | inr (c, free) ↦ (
          inr c,
          λ d. free (
              skip-complete m.base rsv x fr
                (omega (arith, Covers-AllGe (m.base + m.size + 1) ms x am.1 c)) d),
        )
      ])
      (λ x p. elim p.0 [
        | inl w ↦ inl (omega (arith, e), λ d. p.1 (skip-sound m.base rsv x d))
        | inr c ↦ inr (c, λ d. p.1 (skip-sound m.base rsv x d))
      ])
      (Adds-trans s t)

-- If memory and the reserved ranges are each in ascending order, with a gap between any two ranges,
-- none empty and none whose end wraps, as the sorting and merging leaves them, and the result has room
-- in its array, it covers exactly the addresses of memory that no reserved range covers, with no range
-- that is empty or wraps.
pub subtract_lem :
    (capacity : ℕ) (mem rsv out : List DtbRange)
    → Fits mem
    → Apart mem
    → Fits rsv
    → Apart rsv
    → subtract_reserved mem rsv capacity ≡ some out
    → Fits out × Solid out × ((x : ℕ) → Covers out x ↔ (Covers mem x × (Covers rsv x → ⊥)))
unfolding subtract_reserved
subtract_lem capacity mem rsv out fm am fr ar q =
    let s = subtract-Adds capacity [] out mem rsv fm am fr ar q in
    (
      s.fits tt,
      s.solid tt,
      λ x. ((λ c. elim (s.sound x c) [ inl z ↦ absurd z | inr p ↦ p ]), λ p. s.complete x (inr p)),
    )
