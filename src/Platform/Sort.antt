-- ===== src/Platform/Sort.antt =====
-- `sort_ranges` of platform/platform.c orders the ranges by base and keeps each.
use mathlib.Core.List.{Perm}
use mathlib.Core.List.Perm
use capaz_os_kernel.Common.{
  ℕ, zero, suc, ◌+◌, ◌≤◌, ◌<◌, ◌≡◌, ◌⊎◌, inl, inr, refl, ap, subst, sym, ◌∙◌, arith, List, [], ◌∷◌,
  length, ltb, Bool-cases, ◌↔◌,
}
use capaz_os_kernel.Platform.{DtbRange, find_min, exchange, select_min, sort_rounds, sort_ranges}
use capaz_os_kernel.Platform.Cover.{AllGe, Ascending, Covers, Fits}

abbrev base_at : List DtbRange → ℕ → ℕ
base_at [] i = 0
base_at (r ∷ rs) zero = r.base
base_at (r ∷ rs) (suc i) = base_at rs i

-- The index found is the first of a base that is least, `min` if none is below `low`.
find_min_lem :
    (rs : List DtbRange) (j min low : ℕ)
    → ((find_min rs j min low ≡ min) × AllGe low rs)
      ⊎ ((i : ℕ) × (find_min rs j min low ≡ j + i)
          × (i < length rs)
          × (base_at rs i < low)
          × AllGe (base_at rs i) rs)
unfolding find_min
find_min_lem [] j min low = inl (refl, tt)
find_min_lem (r ∷ rs) j min low = elim (Bool-cases (ltb r.base low)) [
  | inl less ↦ rw less (elim (find_min_lem rs (suc j) j r.base) [
    | inl (e, ge) ↦ inr (0, e ∙ omega arith, omega arith, ground arith, (omega arith, ge))
    | inr (i, e, lt, below, ge) ↦
        inr (suc i, e ∙ omega arith, omega arith, ground arith, (omega arith, ge))
  ])
  | inr more ↦ rw more (elim (find_min_lem rs (suc j) min low) [
    | inl (e, ge) ↦ inl (e, (ground arith, ge))
    | inr (i, e, lt, below, ge) ↦
        inr (suc i, e ∙ omega arith, omega arith, below, (ground arith, ge))
  ])
]

exchange-perm :
    (x : DtbRange) (rs : List DtbRange) (k : ℕ)
    → let (m, rest) = exchange x rs k in Perm (x ∷ rs) (m ∷ rest)
unfolding exchange
exchange-perm x [] k = Perm.refl (x ∷ [])
exchange-perm x (r ∷ rs) zero = Perm.swap r x rs
exchange-perm x (r ∷ rs) (suc k) =
    let (m, rest) = exchange x rs k in
    Perm.trans (Perm.swap r x rs)
      (Perm.trans (Perm.cons r (exchange-perm x rs k)) (Perm.swap m r rest))

exchange_base :
    (x : DtbRange) (rs : List DtbRange) (k : ℕ)
    → k < length rs
    → (exchange x rs k).0.base ≡ base_at rs k
unfolding exchange
exchange_base x [] k h = absurd (omega arith)
exchange_base x (r ∷ rs) zero h = refl
exchange_base x (r ∷ rs) (suc k) h = exchange_base x rs k (omega arith)

exchange-AllGe :
    (v : ℕ) (x : DtbRange) (rs : List DtbRange) (k : ℕ)
    → AllGe v (x ∷ rs)
    → let (m, rest) = exchange x rs k in AllGe v (m ∷ rest)
unfolding exchange
exchange-AllGe v x [] k a = a
exchange-AllGe v x (r ∷ rs) zero a = (a.1.0, (a.0, a.1.1))
exchange-AllGe v x (r ∷ rs) (suc k) a =
    let b = exchange-AllGe v x rs k (a.0, a.1.1) in (b.0, (a.1.0, b.1))

exchange-Fits :
    (x : DtbRange) (rs : List DtbRange) (k : ℕ)
    → Fits (x ∷ rs)
    → let (m, rest) = exchange x rs k in Fits (m ∷ rest)
unfolding exchange
exchange-Fits x [] k a = a
exchange-Fits x (r ∷ rs) zero a = (a.1.0, (a.0, a.1.1))
exchange-Fits x (r ∷ rs) (suc k) a =
    let b = exchange-Fits x rs k (a.0, a.1.1) in (b.0, (a.1.0, b.1))

-- The same addresses, in another order.
abbrev pub SameCover : List DtbRange → List DtbRange → Type 0
SameCover rs ss = (x : ℕ) → Covers rs x ↔ Covers ss x

swap-SameCover : (a b : DtbRange) (rs : List DtbRange) → SameCover (a ∷ b ∷ rs) (b ∷ a ∷ rs)
swap-SameCover a b rs x = (turn, turn)
  where
    turn : {P Q R : Type 0} → P ⊎ (Q ⊎ R) → Q ⊎ (P ⊎ R)
    turn (inl p) = inr (inl p)
    turn (inr (inl q)) = inl q
    turn (inr (inr r)) = inr (inr r)

cons-SameCover :
    (a : DtbRange) (rs ss : List DtbRange) → SameCover rs ss → SameCover (a ∷ rs) (a ∷ ss)
cons-SameCover a rs ss h x = (
  (λ c. elim c [ inl w ↦ inl w | inr c' ↦ inr ((h x).0 c') ]),
  λ c. elim c [ inl w ↦ inl w | inr c' ↦ inr ((h x).1 c') ],
)

SameCover-trans : (rs ss ts : List DtbRange) → SameCover rs ss → SameCover ss ts → SameCover rs ts
SameCover-trans rs ss ts h k x = ((λ c. (k x).0 ((h x).0 c)), λ c. (h x).1 ((k x).1 c))

exchange-SameCover :
    (x : DtbRange) (rs : List DtbRange) (k : ℕ)
    → let (m, rest) = exchange x rs k in SameCover (x ∷ rs) (m ∷ rest)
unfolding exchange
exchange-SameCover x [] k y = ((λ c. c), λ c. c)
exchange-SameCover x (r ∷ rs) zero y = swap-SameCover x r rs y
exchange-SameCover x (r ∷ rs) (suc k) y =
    let (m, rest) = exchange x rs k in
    SameCover-trans (x ∷ r ∷ rs) (r ∷ x ∷ rs) (m ∷ r ∷ rest) (swap-SameCover x r rs)
      (SameCover-trans (r ∷ x ∷ rs) (r ∷ m ∷ rest) (m ∷ r ∷ rest)
        (cons-SameCover r (x ∷ rs) (m ∷ rest) (exchange-SameCover x rs k))
        (swap-SameCover r m rest))
      y

length-exchange :
    (x : DtbRange) (rs : List DtbRange) (k : ℕ) → length (exchange x rs k).1 ≡ length rs
unfolding exchange
length-exchange x [] k = refl
length-exchange x (r ∷ rs) zero = refl
length-exchange x (r ∷ rs) (suc k) = ap suc (length-exchange x rs k)

-- What one round does.
record Selected (x : DtbRange) (rs : List DtbRange) (r : DtbRange × List DtbRange) : Type 0 where
  perm : Perm (x ∷ rs) (r.0 ∷ r.1)
  least : AllGe r.0.base r.1
  keeps : (v : ℕ) → AllGe v (x ∷ rs) → AllGe v (r.0 ∷ r.1)
  fits : Fits (x ∷ rs) → Fits (r.0 ∷ r.1)
  cover : SameCover (x ∷ rs) (r.0 ∷ r.1)
  same_length : length r.1 ≡ length rs

select_zero :
    (x : DtbRange) (rs : List DtbRange) → find_min rs 1 0 x.base ≡ 0 → select_min x rs ≡ (x, rs)
unfolding select_min
select_zero x rs e = rw (e, select_min)

select_suc :
    (x : DtbRange) (rs : List DtbRange) (i : ℕ)
    → find_min rs 1 0 x.base ≡ suc i
    → select_min x rs ≡ exchange x rs i
unfolding select_min
select_suc x rs i e = rw (e, select_min)

select_min-Selected : (x : DtbRange) (rs : List DtbRange) → Selected x rs (select_min x rs)
select_min-Selected x rs = elim (find_min_lem rs 1 0 x.base) [
  | inl (e, ge) ↦ subst (Selected x rs) (sym (select_zero x rs e)) (record {
    perm = Perm.refl (x ∷ rs);
    least = ge;
    keeps = λ v a. a;
    fits = λ f. f;
    cover = λ y. ((λ c. c), λ c. c);
    same_length = refl;
  })
  | inr (i, e, lt, below, ge) ↦
      subst (Selected x rs) (sym (select_suc x rs i (e ∙ omega arith))) (record {
        perm = exchange-perm x rs i;
        least =
            (exchange-AllGe (exchange x rs i).0.base x rs i
              (subst (λ v. AllGe v (x ∷ rs)) (sym (exchange_base x rs i lt)) (omega arith, ge))).1;
        keeps = λ v. exchange-AllGe v x rs i;
        fits = exchange-Fits x rs i;
        cover = exchange-SameCover x rs i;
        same_length = length-exchange x rs i;
      })
]

-- The sorted list is a rearrangement of the ranges.
pub sort_rounds-perm : (n : ℕ) (rs : List DtbRange) → Perm rs (sort_rounds n rs)
unfolding sort_rounds
sort_rounds-perm zero rs = Perm.refl rs
sort_rounds-perm (suc n) [] = Perm.refl []
sort_rounds-perm (suc n) (x ∷ rs) =
    let (m, rest) = select_min x rs in
    Perm.trans (select_min-Selected x rs).perm (Perm.cons m (sort_rounds-perm n rest))

sort_rounds-AllGe : (n v : ℕ) (rs : List DtbRange) → AllGe v rs → AllGe v (sort_rounds n rs)
unfolding sort_rounds
sort_rounds-AllGe zero v rs a = a
sort_rounds-AllGe (suc n) v [] a = tt
sort_rounds-AllGe (suc n) v (x ∷ rs) a =
    let b = (select_min-Selected x rs).keeps v a in
    (b.0, sort_rounds-AllGe n v (select_min x rs).1 b.1)

sort_rounds-Fits : (n : ℕ) (rs : List DtbRange) → Fits rs → Fits (sort_rounds n rs)
unfolding sort_rounds
sort_rounds-Fits zero rs a = a
sort_rounds-Fits (suc n) [] a = tt
sort_rounds-Fits (suc n) (x ∷ rs) a =
    let b = (select_min-Selected x rs).fits a in (b.0, sort_rounds-Fits n (select_min x rs).1 b.1)

sort_rounds-Ascending : (n : ℕ) (rs : List DtbRange) → length rs ≤ n → Ascending (sort_rounds n rs)
unfolding sort_rounds
sort_rounds-Ascending zero [] h = tt
sort_rounds-Ascending zero (x ∷ rs) h = absurd (omega arith)
sort_rounds-Ascending (suc n) [] h = tt
sort_rounds-Ascending (suc n) (x ∷ rs) h =
    let s = select_min-Selected x rs in
    let (m, rest) = select_min x rs in
    (
      sort_rounds-AllGe n m.base rest s.least,
      sort_rounds-Ascending n rest (omega (arith, s.same_length)),
    )

-- Sorting orders the ranges by base and keeps every one of them, as often as it was there.
pub sort_lem : (rs : List DtbRange) → Ascending (sort_ranges rs) × Perm rs (sort_ranges rs)
unfolding sort_ranges
sort_lem rs = (sort_rounds-Ascending (length rs) rs (omega arith), sort_rounds-perm (length rs) rs)

pub sort_ranges-Fits : (rs : List DtbRange) → Fits rs → Fits (sort_ranges rs)
unfolding sort_ranges
sort_ranges-Fits rs = sort_rounds-Fits (length rs) rs

sort_rounds-SameCover : (n : ℕ) (rs : List DtbRange) → SameCover rs (sort_rounds n rs)
unfolding sort_rounds
sort_rounds-SameCover zero rs x = ((λ c. c), λ c. c)
sort_rounds-SameCover (suc n) [] x = ((λ c. c), λ c. c)
sort_rounds-SameCover (suc n) (x ∷ rs) y =
    let (m, rest) = select_min x rs in
    SameCover-trans (x ∷ rs) (m ∷ rest) (m ∷ sort_rounds n rest) (select_min-Selected x rs).cover
      (cons-SameCover m rest (sort_rounds n rest) (sort_rounds-SameCover n rest)) y

pub sort_ranges-SameCover : (rs : List DtbRange) → SameCover rs (sort_ranges rs)
unfolding sort_ranges
sort_ranges-SameCover rs = sort_rounds-SameCover (length rs) rs
