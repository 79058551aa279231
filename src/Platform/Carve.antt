-- ===== src/Platform/Carve.antt =====
-- The inner loop of `subtract_reserved` of platform/platform.c, which cuts the reserved ranges out of
-- one range of memory.
use capaz_os_kernel.Common.{
  ℕ, ◌+◌, ◌-◌, ◌≤◌, ◌<◌, ◌≡◌, inl, inr, refl, subst, sym, ◌∙◌, arith, List, [], ◌∷◌, ◌++◌, ltb, leb,
  Bool, ◌&&◌, Bool-cases, true, false, if◌then◌else◌, Option, some, bind_some, u64_mod, ◌>>=◌,
}
use capaz_os_kernel.Platform.{DtbRange, range_end, emit, carve}
use capaz_os_kernel.Platform.Cover.{
  AllGe, AllGe-weaken, Fits, Within, Apart, range_end-exact, Covers-AllGe, Covers-append,
  Fits-append, Solid-append,
}
use capaz_os_kernel.Platform.Adds.{Adds, Span, Free, restate, Adds-trans}

emit_result :
    (capacity cur end : ℕ) (out out' : List DtbRange)
    → emit capacity out cur end ≡ some out'
    → out ++ record { base = cur; size = end - cur } ∷ [] ≡ out'
unfolding emit
emit_result capacity cur end out out' e = ground arith

emit-Adds :
    (capacity cur end : ℕ) (out out' : List DtbRange)
    → cur < end
    → end < u64_mod
    → emit capacity out cur end ≡ some out'
    → Adds (Span cur end) out out'
emit-Adds capacity cur end out out' le fit e =
    let seg : List DtbRange = record { base = cur; size = end - cur } ∷ [] in
    subst (Adds (Span cur end) out) (emit_result capacity cur end out out' e) (record {
      sound = λ x c. elim ((Covers-append out seg x).0 c) [
        | inl o ↦ inl o
        | inr (inl w) ↦ inr (omega arith)
        | inr (inr z) ↦ absurd z
      ];
      complete = λ x c.
          (Covers-append out seg x).1 (elim c [ inl o ↦ inl o | inr p ↦ inr (inl (omega arith)) ]);
      fits = λ f. Fits-append out seg f (omega arith, tt);
      solid = λ f. Solid-append out seg f (omega arith, tt);
    })

-- A segment is written if it is not empty.
emit_if-Adds :
    (b : Bool) (capacity cur end : ℕ) (out out' : List DtbRange)
    → end < u64_mod
    → (b ≡ true → cur < end)
    → (b ≡ false → end ≤ cur)
    → (if b then emit capacity out cur end else some out) ≡ some out'
    → Adds (Span cur end) out out'
emit_if-Adds true capacity cur end out out' fit lt ge e =
    emit-Adds capacity cur end out out' (lt refl) fit e
emit_if-Adds false capacity cur end out out' fit lt ge e =
    let le = ge refl in
    let same : out ≡ out' = ground arith in
    subst (Adds (Span cur end) out) same (record {
      sound = λ x c. inl c;
      complete = λ x c. elim c [ inl o ↦ o | inr p ↦ absurd (omega arith) ];
      fits = λ f. f;
      solid = λ f. f;
    })

-- What is left of memory between cur and m_end.
abbrev pub Left : ℕ → ℕ → List DtbRange → ℕ → Type 0
Left cur m_end rsv x = Span cur m_end x × Free rsv x

-- No reserved range begins below m_end.
last-Left :
    (cur m_end : ℕ) (rsv : List DtbRange) {out out' : List DtbRange}
    → AllGe m_end rsv
    → Adds (Span cur m_end) out out'
    → Adds (Left cur m_end rsv) out out'
last-Left cur m_end rsv a s =
    restate (λ x p. (p, λ c. absurd (omega (arith, Covers-AllGe m_end rsv x a c)))) (λ x p. p.0) s

abbrev segment : ℕ → List DtbRange → ℕ → DtbRange → Option (List DtbRange)
segment capacity out cur r =
    if ltb cur r.base && ltb cur r.base then emit capacity out cur r.base else some out

abbrev past : ℕ → DtbRange → ℕ
past cur r = if ltb cur (range_end r) then range_end r else cur

carve_stop :
    (capacity cur m_end : ℕ) (out : List DtbRange) (r : DtbRange) (rs : List DtbRange)
    → ltb r.base m_end ≡ false
    → carve capacity out cur m_end (r ∷ rs)
      ≡ (if ltb cur m_end then emit capacity out cur m_end else some out)
unfolding carve
carve_stop capacity cur m_end out r rs t = rw t

carve_go :
    (capacity cur m_end : ℕ) (out : List DtbRange) (r : DtbRange) (rs : List DtbRange)
    → ltb r.base m_end ≡ true
    → carve capacity out cur m_end (r ∷ rs) ≡ (
        segment capacity out cur r >>= (λ out1.
          if leb m_end (past cur r) then some out1 else carve capacity out1 (past cur r) m_end rs))
unfolding carve
carve_go capacity cur m_end out r rs t = rw t

segment-Adds :
    (capacity cur m_end : ℕ) (out out1 : List DtbRange) (r : DtbRange)
    → m_end < u64_mod
    → ltb r.base m_end ≡ true
    → segment capacity out cur r ≡ some out1
    → Adds (Span cur r.base) out out1
segment-Adds capacity cur m_end out out1 r fit t e =
    emit_if-Adds (ltb cur r.base && ltb cur r.base) capacity cur r.base out out1 (ground arith)
      (λ h. ground arith) (λ h. ground arith) e

module _ (cur m_end : ℕ) (r : DtbRange) (rs : List DtbRange) (fit : r.base + r.size < u64_mod)
    (gap : AllGe (r.base + r.size + 1) rs) where
  -- Memory up to m_end is used up by r.
  used-Left :
      {out out1 : List DtbRange}
      → r.base < m_end
      → m_end ≤ past cur r
      → Adds (Span cur r.base) out out1
      → Adds (Left cur m_end (r ∷ rs)) out out1
  used-Left lt end s =
      let e = range_end-exact r fit in
      restate
        (λ x p. (
          omega arith,
          λ c. elim c [
            | inl w ↦ absurd (omega arith)
            | inr c' ↦ absurd (omega (arith, Covers-AllGe (r.base + r.size + 1) rs x gap c'))
          ],
        ))
        (λ x p. elim (Bool-cases (ltb x r.base)) [
          | inl before ↦ ground arith
          | inr after ↦ absurd (p.1 (inl (ground (arith, e))))
        ])
        s

  -- What r leaves is what lies before it and what the rest leaves behind it.
  rest-Left :
      {out out1 out' : List DtbRange}
      → r.base < m_end
      → Adds (Span cur r.base) out out1
      → Adds (Left (past cur r) m_end rs) out1 out'
      → Adds (Left cur m_end (r ∷ rs)) out out'
  rest-Left lt s t =
      let e = range_end-exact r fit in
      restate
        (λ x p. elim p [
          | inl b ↦ (
            omega arith,
            λ c. elim c [
              | inl w ↦ absurd (omega arith)
              | inr c' ↦ absurd (omega (arith, Covers-AllGe (r.base + r.size + 1) rs x gap c'))
            ],
          )
          | inr (span, free) ↦ (
            ground (arith, e),
            λ c. elim c [ inl w ↦ absurd (ground (arith, e)) | inr c' ↦ free c' ],
          )
        ])
        (λ x p. elim (Bool-cases (ltb x r.base)) [
          | inl before ↦ inl (ground arith)
          | inr after ↦ inr (outside x (ground arith) p.0 (λ w. p.1 (inl w)) e, λ c. p.1 (inr c))
        ])
        (Adds-trans s t)
    where
      outside :
          (x : ℕ)
          → r.base ≤ x
          → Span cur m_end x
          → (Within x r → ⊥)
          → range_end r ≡ r.base + r.size
          → Span (past cur r) m_end x
      outside x ge span free e = elim (Bool-cases (ltb x (r.base + r.size))) [
        | inl inside ↦ absurd (free (ground arith))
        | inr behind ↦ ground (arith, e)
      ]

pub carve-Adds :
    (capacity cur m_end : ℕ) (out out' rsv : List DtbRange)
    → m_end < u64_mod
    → Fits rsv
    → Apart rsv
    → carve capacity out cur m_end rsv ≡ some out'
    → Adds (Left cur m_end rsv) out out'
unfolding carve
carve-Adds capacity cur m_end out out' [] fit f a q = last-Left cur m_end [] tt (
    emit_if-Adds (ltb cur m_end) capacity cur m_end out out' fit (λ h. ground arith)
      (λ h. ground arith) q)
carve-Adds capacity cur m_end out out' (r ∷ rs) fit f a q = elim (Bool-cases (ltb r.base m_end)) [
  | inr t ↦
      last-Left cur m_end (r ∷ rs)
        (ground arith, AllGe-weaken m_end (r.base + r.size + 1) rs (ground arith) a.1)
        (emit_if-Adds (ltb cur m_end) capacity cur m_end out out' fit (λ h. ground arith)
          (λ h. ground arith) (sym (carve_stop capacity cur m_end out r rs t) ∙ q))
  | inl t ↦
      let (out1, seg, more) = bind_some out' (sym (carve_go capacity cur m_end out r rs t) ∙ q) in
      let s = segment-Adds capacity cur m_end out out1 r fit t seg in
      elim (Bool-cases (leb m_end (past cur r))) [
        | inl end ↦
            let same : out1 ≡ out' = ground arith in
            subst (Adds (Left cur m_end (r ∷ rs)) out) same
              (used-Left cur m_end r rs f.0 a.1 (ground arith) (ground arith) s)
        | inr on ↦
            let go : carve capacity out1 (past cur r) m_end rs ≡ some out' = ground arith in
            rest-Left cur m_end r rs f.0 a.1 (ground arith) s
              (carve-Adds capacity (past cur r) m_end out1 out' rs fit f.1 a.2 go)
      ]
]
