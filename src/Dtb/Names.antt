-- ===== src/Dtb/Names.antt =====
-- The tests of names in platform/dtb.c: they agree with the standard names where these are clear.
use capaz_os_kernel.Common.{
  ℕ, ◌+◌, ◌≡◌, ◌≢◌, refl, ap, ◌∙◌, inl, inr, arith, Bool, true, false, ◌&&◌, ◌||◌, Bool-cases, List,
  [], ◌∷◌, ◌++◌, length, ◌==◌, if◌then◌else◌,
}
use capaz_os_kernel.Dtb.{is_text, memory_name, reserved_name, kind_of}
use capaz_os_kernel.Dtb.Layout.{
  same_text, begins, base_name, TextAt, is_memory_node, is_reserved_node, is_address_cells,
  is_size_cells, is_reg, standard_kind,
}

-- No letter of the text is NUL or @.
abbrev Plain : List ℕ → Type 0
Plain [] = Unit
Plain (c ∷ cs) = (c ≢ 0) × (c ≢ b'@') × Plain cs

abbrev is_plain : List ℕ → Bool
is_plain [] = true
is_plain (c ∷ cs) = (if c == 0 || c == b'@' then false else true) && is_plain cs

plain : (cs : List ℕ) → is_plain cs ≡ true → Plain cs
plain [] e = tt
plain (c ∷ cs) e = (ground (arith, e), ground (arith, e), plain cs (ground (arith, e)))

is_text-begins :
    (m : ℕ → ℕ) (p : ℕ) (pre name : List ℕ)
    → Plain pre
    → TextAt m p name
    → is_text m p pre ≡ begins pre name
is_text-begins m p [] name plain at = refl
is_text-begins m p (x ∷ xs) [] (ne, no_at, others) at =
    let differs : (m p == x) ≡ false = ground (arith, ne, at) in rw differs refl
is_text-begins m p (x ∷ xs) (c ∷ cs) (ne, no_at, others) (e, some_letter, at) =
    let first : (m p == x) ≡ (x == c) = ground (arith, e) in
    rw (first, is_text-begins m (p + 1) xs cs others at) refl

-- The whole text, with NUL behind it.
is_text-same :
    (m : ℕ → ℕ) (p : ℕ) (pre name : List ℕ)
    → Plain pre
    → TextAt m p name
    → is_text m p (pre ++ 0 ∷ []) ≡ same_text name pre
is_text-same m p [] [] plain at = ground (arith, at)
is_text-same m p [] (c ∷ cs) plain (e, some_letter, at) = ground (arith, e, some_letter)
is_text-same m p (x ∷ xs) [] (ne, no_at, others) at =
    let differs : (m p == x) ≡ false = ground (arith, ne, at) in rw differs refl
is_text-same m p (x ∷ xs) (c ∷ cs) (ne, no_at, others) (e, some_letter, at) =
    let first : (m p == x) ≡ (c == x) = ground (arith, e) in
    rw (first, is_text-same m (p + 1) xs cs others at) refl

-- The text up to a unit address.
is_text-base :
    (m : ℕ → ℕ) (p q : ℕ) (pre name : List ℕ)
    → Plain pre
    → q ≡ p + length pre
    → TextAt m p name
    → (is_text m p pre && (m q == 0 || m q == b'@')) ≡ same_text (base_name name) pre
is_text-base m p q [] [] plain e at =
    let here : m q ≡ m p = ap m (omega (arith, e)) in ground (arith, here, at)
is_text-base m p q [] (c ∷ cs) plain e (ec, some_letter, at) =
    let here : m q ≡ m p = ap m (omega (arith, e)) in ground (arith, here, ec, some_letter)
is_text-base m p q (x ∷ xs) [] (ne, no_at, others) e at =
    let differs : (m p == x) ≡ false = ground (arith, ne, at) in rw differs refl
is_text-base m p q (x ∷ xs) (c ∷ cs) (ne, no_at, others) e (ec, some_letter, at) =
    let first : (m p == x) ≡ (c == x) = ground (arith, ec) in
    let rest = is_text-base m (p + 1) q xs cs others (omega (arith, e)) at in
    elim (Bool-cases (c == b'@')) [
      | inl unit_address ↦
          let differs : (c == x) ≡ false = ground (arith, no_at, unit_address) in
          rw (unit_address, first, differs) refl
      | inr letter ↦
          rw (letter, first)
            (elim (Bool-cases (c == x)) [ inl same ↦ rw same rest | inr differs ↦ rw differs refl ])
    ]

pub memory_name-standard :
    (m : ℕ → ℕ) (p : ℕ) (name : List ℕ) → TextAt m p name → memory_name m p ≡ is_memory_node name
unfolding memory_name
memory_name-standard m p name at =
    is_text-base m p (p + 6) (b'm' ∷ b'e' ∷ b'm' ∷ b'o' ∷ b'r' ∷ b'y' ∷ []) name
      (plain (b'm' ∷ b'e' ∷ b'm' ∷ b'o' ∷ b'r' ∷ b'y' ∷ []) refl) refl at

pub reserved_name-standard :
    (m : ℕ → ℕ) (p : ℕ) (name : List ℕ)
    → TextAt m p name
    → reserved_name m p ≡ is_reserved_node name
unfolding reserved_name
reserved_name-standard m p name at =
    is_text-same m p
      (b'r' ∷ b'e' ∷ b's' ∷ b'e' ∷ b'r' ∷ b'v' ∷ b'e' ∷ b'd' ∷ b'-' ∷ b'm' ∷ b'e' ∷ b'm' ∷ b'o'
        ∷ b'r' ∷ b'y' ∷ [])
      name
      (plain
        (b'r' ∷ b'e' ∷ b's' ∷ b'e' ∷ b'r' ∷ b'v' ∷ b'e' ∷ b'd' ∷ b'-' ∷ b'm' ∷ b'e' ∷ b'm' ∷ b'o'
          ∷ b'r' ∷ b'y' ∷ [])
        refl)
      at

pub kind_of-standard :
    (m : ℕ → ℕ) (p : ℕ) (name : List ℕ)
    → TextAt m p name
    → begins (b'#' ∷ b'a' ∷ []) name ≡ is_address_cells name
    → begins (b'#' ∷ b's' ∷ []) name ≡ is_size_cells name
    → begins (b'r' ∷ b'e' ∷ b'g' ∷ []) name ≡ is_reg name
    → kind_of m p ≡ standard_kind name
unfolding kind_of
kind_of-standard m p name at ea es er =
    rw
      (
        is_text-begins m p (b'#' ∷ b'a' ∷ []) name (plain (b'#' ∷ b'a' ∷ []) refl) at ∙ ea,
        is_text-begins m p (b'#' ∷ b's' ∷ []) name (plain (b'#' ∷ b's' ∷ []) refl) at ∙ es,
        is_text-begins m p (b'r' ∷ b'e' ∷ b'g' ∷ []) name (plain (b'r' ∷ b'e' ∷ b'g' ∷ []) refl) at
            ∙ er,
      )
      refl
