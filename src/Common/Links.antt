-- ===== src/Common/Links.antt =====
-- Paths in a store of links, and lists that name an element at most once.
use capaz_os_kernel.Common.{ℕ, ◌≡◌, ◌≢◌, sym, ◌==◌, arith, false, List, [], ◌∷◌, ◌++◌, update}

-- From p the links lead through ys to z.
abbrev pub Links : (ℕ → ℕ) → ℕ → List ℕ → ℕ → Type 0
Links next p [] z = p ≡ z
Links next p (y ∷ ys) z = (p ≡ y) × Links next (next y) ys z

abbrev pub NotIn : ℕ → List ℕ → Type 0
NotIn x [] = Unit
NotIn x (y ∷ ys) = (x ≢ y) × NotIn x ys

abbrev pub Distinct : List ℕ → Type 0
Distinct [] = Unit
Distinct (y ∷ ys) = NotIn y ys × Distinct ys

-- A write to the link of an element that a path does not pass leaves the path.
pub Links-update :
    (next : ℕ → ℕ) (p : ℕ) (ys : List ℕ) (z x v : ℕ)
    → NotIn x ys
    → Links next p ys z
    → Links (update next x v) p ys z
Links-update next p [] z x v n l = l
Links-update next p (y ∷ ys) z x v n l =
    let other : (x == y) ≡ false = ground (arith, n.0) in
    (l.0, rw other (Links-update next (next y) ys z x v n.1 l.1))

pub Links-snoc :
    (next : ℕ → ℕ) (p : ℕ) (ys : List ℕ) (z w : ℕ)
    → Links next p ys z
    → next z ≡ w
    → Links next p (ys ++ z ∷ []) w
Links-snoc next p [] z w l e = (l, e)
Links-snoc next p (y ∷ ys) z w l e = (l.0, Links-snoc next (next y) ys z w l.1 e)

pub NotIn-append : (x : ℕ) (ys : List ℕ) (z : ℕ) → NotIn x ys → x ≢ z → NotIn x (ys ++ z ∷ [])
NotIn-append x [] z n e = (e, tt)
NotIn-append x (y ∷ ys) z n e = (n.0, NotIn-append x ys z n.1 e)

pub NotIn-split : (x : ℕ) (ys : List ℕ) (z : ℕ) → NotIn x (ys ++ z ∷ []) → NotIn x ys × (x ≢ z)
NotIn-split x [] z n = (tt, n.0)
NotIn-split x (y ∷ ys) z n = let r = NotIn-split x ys z n.1 in ((n.0, r.0), r.1)

pub Distinct-append : (ys : List ℕ) (z : ℕ) → Distinct ys → NotIn z ys → Distinct (ys ++ z ∷ [])
Distinct-append [] z d n = (tt, tt)
Distinct-append (y ∷ ys) z d n =
    (NotIn-append y ys z d.0 (λ e. n.0 (sym e)), Distinct-append ys z d.1 n.1)
