-- ===== src/Platform/Adds.antt =====
-- Lists of ranges that grow by a set of addresses.
use capaz_os_kernel.Common.{ℕ, ◌≤◌, ◌<◌, ◌⊎◌, inl, inr, List}
use capaz_os_kernel.Platform.{DtbRange}
use capaz_os_kernel.Platform.Cover.{Covers, Fits, Solid}

-- The addresses of `after` are those of `before` and those of P.
pub record Adds (P : ℕ → Type 0) (before after : List DtbRange) : Type 0 where
  pub sound : (x : ℕ) → Covers after x → Covers before x ⊎ P x
  pub complete : (x : ℕ) → Covers before x ⊎ P x → Covers after x
  pub fits : Fits before → Fits after
  pub solid : Solid before → Solid after

abbrev pub Span : ℕ → ℕ → ℕ → Type 0
Span from end x = (from ≤ x) × (x < end)

abbrev pub Free : List DtbRange → ℕ → Type 0
Free rsv x = Covers rsv x → ⊥

-- The same set by another description.
pub restate :
    {P Q : ℕ → Type 0} {a b : List DtbRange}
    → ((x : ℕ) → P x → Q x)
    → ((x : ℕ) → Q x → P x)
    → Adds P a b
    → Adds Q a b
restate to back s = record {
  sound = λ x c. elim (s.sound x c) [ inl o ↦ inl o | inr p ↦ inr (to x p) ];
  complete = λ x c. s.complete x (elim c [ inl o ↦ inl o | inr p ↦ inr (back x p) ]);
  fits = s.fits;
  solid = s.solid;
}

pub Adds-trans :
    {P Q : ℕ → Type 0} {a b c : List DtbRange} → Adds P a b → Adds Q b c → Adds (λ x. P x ⊎ Q x) a c
Adds-trans s t = record {
  sound = λ x h. elim (t.sound x h) [
    | inr q ↦ inr (inr q)
    | inl h' ↦ elim (s.sound x h') [ inl o ↦ inl o | inr p ↦ inr (inl p) ]
  ];
  complete = λ x h. elim h [
    | inl o ↦ t.complete x (inl (s.complete x (inl o)))
    | inr (inl p) ↦ t.complete x (inl (s.complete x (inr p)))
    | inr (inr q) ↦ t.complete x (inr q)
  ];
  fits = λ f. t.fits (s.fits f);
  solid = λ f. t.solid (s.solid f);
}
