-- ===== src/Dtb/Arrays.antt =====
-- No walk of platform/dtb.c writes behind the end of an array, whatever the blob holds.
use capaz_os_kernel.Common.{
  add_u32, ℕ, zero, suc, ◌+◌, ◌*◌, ◌≤◌, ◌≢◌, inl, inr, arith, Bool, true, false, ◌||◌, Bool-cases,
  Option, none, some, List, [], ◌∷◌, ◌++◌, length, length-append, leb, ◌==◌, if◌then◌else◌,
}
use capaz_os_kernel.Platform.{DtbRange}
use capaz_os_kernel.Dtb.{
  with_ranges, resume, be32, be64, align4, append_range, parse_tuples, parse_reg_all, Mode, outside,
  level, Walk, Walked, collected, fault, starved, Kind, address_cells, size_cells, reg, other, Next,
  go, stop, next_level, begin_at, begin_node, on_property, property, enter, leave, token_step, walk,
  max_of, kind_of, clear_reserved, parent_level, max_reserved,
}
use capaz_os_kernel.Dtb.Init.{memreserve_from}

-- No range of the list is empty.
abbrev pub Full : List DtbRange → Type 0
Full [] = Unit
Full (r ∷ rs) = (r.size ≢ 0) × Full rs

-- The ranges fit an array of `max` elements, and none is empty.
abbrev pub FitsArray : ℕ → List DtbRange → Type 0
FitsArray max rs = (length rs ≤ max) × Full rs

chosen : {A : Type 0} (P : A → Type 0) (b : Bool) (x y : A) → P x → P y → P (if b then x else y)
chosen P true x y hx hy = hx
chosen P false x y hx hy = hy

Full-append :
    (rs : List DtbRange) (base size : ℕ)
    → Full rs
    → size ≢ 0
    → Full (rs ++ record { base = base; size = size } ∷ [])
Full-append [] base size full some_size = (some_size, tt)
Full-append (r ∷ rs) base size (here, full) some_size =
    (here, Full-append rs base size full some_size)

append_range-FitsArray :
    (max : ℕ) (arr : List DtbRange) (base size : ℕ)
    → FitsArray max arr
    → FitsArray max (append_range max arr base size)
unfolding append_range
append_range-FitsArray max arr base size (fit, full) =
    elim (Bool-cases (size == 0 || leb max (length arr))) [
      | inl as_is ↦ rw as_is (fit, full)
      | inr more ↦
          let both = length-append arr (record { base = base; size = size } ∷ []) in
          rw more
            (ground (arith, both, more), Full-append arr base size full (ground (arith, more)))
    ]

-- So do the ranges of a result that may be missing.
FitsOption : ℕ → Option (List DtbRange) → Type 0
FitsOption max none = Unit
FitsOption max (some rs) = FitsArray max rs

some-FitsOption : (max : ℕ) (rs : List DtbRange) → FitsArray max rs → FitsOption max (some rs)
unfolding FitsOption
some-FitsOption max rs h = h

none-FitsOption : (max : ℕ) → FitsOption max none
unfolding FitsOption
none-FitsOption max = tt

parse_tuples-FitsOption :
    (m : ℕ → ℕ) (fuel p off len a s max : ℕ) (out : List DtbRange)
    → FitsArray max out
    → FitsOption max (parse_tuples m fuel p off len a s max out)
unfolding parse_tuples
parse_tuples-FitsOption m zero p off len a s max out h = none-FitsOption max
parse_tuples-FitsOption m (suc fuel) p off len a s max out h =
    chosen (FitsOption max) _ _ _
      (parse_tuples-FitsOption m fuel p (add_u32 off (4 * (a + s))) len a s max _
        (append_range-FitsArray max out _ _ h))
      (some-FitsOption max out h)

parse_reg_all-FitsOption :
    (m : ℕ → ℕ) (fuel p len a s max : ℕ) (out : List DtbRange)
    → FitsArray max out
    → FitsOption max (parse_reg_all m fuel p len a s max out)
unfolding parse_reg_all
parse_reg_all-FitsOption m fuel p len a s max out h =
    chosen (FitsOption max) _ _ _ (some-FitsOption max out h)
      (parse_tuples-FitsOption m fuel p 0 len a s max out h)

pub memreserve_from-FitsArray :
    (m : ℕ → ℕ) (n p : ℕ) (arr : List DtbRange)
    → FitsArray max_reserved arr
    → FitsArray max_reserved (memreserve_from m n p arr)
unfolding memreserve_from
memreserve_from-FitsArray m zero p arr h = h
memreserve_from-FitsArray m (suc n) p arr h =
    let rest =
      memreserve_from-FitsArray m n (p + 16) _
        (append_range-FitsArray max_reserved arr (be64 m p) (be64 m (p + 8)) h) in
    chosen (FitsArray max_reserved) _ _ _ h rest

-- The ranges of a walk, and of what it ends with, fit.
abbrev pub FitsWalked : ℕ → Walked → Type 0
FitsWalked max (collected rs) = FitsArray max rs
FitsWalked max fault = Unit
FitsWalked max starved = Unit

FitsNext : ℕ → Next → Type 0
FitsNext max (go p w) = FitsArray max w.ranges
FitsNext max (stop r) = FitsWalked max r

go-FitsArray : (max p : ℕ) (w : Walk) → FitsArray max w.ranges → FitsNext max (go p w)
unfolding FitsNext
go-FitsArray max p w h = h

stop-FitsArray : (max : ℕ) (r : Walked) → FitsWalked max r → FitsNext max (stop r)
unfolding FitsNext
stop-FitsArray max r h = h

leave-FitsArray : (max p : ℕ) (w : Walk) → FitsArray max w.ranges → FitsNext max (go p (leave w))
unfolding leave
leave-FitsArray max p w h =
    elim w.depth
      as (λ d. FitsNext max (
        go p (elim d [
          | outside n ↦ record w { depth = outside (suc n) }
          | level d ↦ record w {
            depth = parent_level d;
            in_reserved = clear_reserved w.in_reserved d;
          }
        ]))) [ outside n ↦ go-FitsArray max p _ h | level d ↦ go-FitsArray max p _ h ]

FitsResult : ℕ → Option Walk → Type 0
FitsResult max none = Unit
FitsResult max (some w) = FitsArray max w.ranges

some-FitsResult : (max : ℕ) (w : Walk) → FitsArray max w.ranges → FitsResult max (some w)
unfolding FitsResult
some-FitsResult max w h = h

with_ranges-FitsResult :
    (max : ℕ) (w : Walk) (r : Option (List DtbRange))
    → FitsOption max r
    → FitsResult max (with_ranges w r)
unfolding FitsResult FitsOption
with_ranges-FitsResult max w none h = tt
with_ranges-FitsResult max w (some rs) h = h

resume-FitsNext : (max p : ℕ) (r : Option Walk) → FitsResult max r → FitsNext max (resume p r)
unfolding FitsResult FitsNext
resume-FitsNext max p none h = tt
resume-FitsNext max p (some w) h = h

property-FitsResult :
    (mode : Mode) (m : ℕ → ℕ) (fuel max p len d : ℕ) (k : Kind) (w : Walk)
    → FitsArray max w.ranges
    → FitsResult max (property mode m fuel max p len d k w)
unfolding property
property-FitsResult mode m fuel max p len d address_cells w h =
    chosen (FitsResult max) _ _ _ (some-FitsResult max _ h) (some-FitsResult max w h)
property-FitsResult mode m fuel max p len d size_cells w h =
    chosen (FitsResult max) _ _ _ (some-FitsResult max _ h) (some-FitsResult max w h)
property-FitsResult mode m fuel max p len d reg w h =
    chosen (FitsResult max) _ _ _
      (with_ranges-FitsResult max w _ (parse_reg_all-FitsOption m fuel p len _ _ max w.ranges h))
      (some-FitsResult max w h)
property-FitsResult mode m fuel max p len d other w h = some-FitsResult max w h

on_property-FitsArray :
    (mode : Mode) (m : ℕ → ℕ) (strings fuel p : ℕ) (w : Walk)
    → FitsArray (max_of mode) w.ranges
    → FitsNext (max_of mode) (on_property mode m strings fuel p w)
unfolding on_property
on_property-FitsArray mode m strings fuel p w h =
    let len = be32 m p in
    let kind = kind_of m (strings + be32 m (p + 4)) in
    resume-FitsNext (max_of mode) (align4 (p + 8 + len)) _
      (elim w.depth
        as (λ d. FitsResult (max_of mode) (elim d [
          | outside n ↦ some w
          | level d ↦ property mode m fuel (max_of mode) (p + 8) len d kind w
        ])) [
          | outside n ↦ some-FitsResult (max_of mode) w h
          | level d ↦ property-FitsResult mode m fuel (max_of mode) (p + 8) len d kind w h
        ])

begin_at-FitsArray :
    (mode : Mode) (m : ℕ → ℕ) (max name p : ℕ) (w : Walk) (l : Option ℕ)
    → FitsArray max w.ranges
    → FitsNext max (begin_at mode m name p w l)
unfolding enter
begin_at-FitsArray mode m max name p w none h = stop-FitsArray max fault tt
begin_at-FitsArray mode m max name p w (some d) h =
    chosen (FitsNext max) _ _ _ (stop-FitsArray max (collected w.ranges) h)
      (go-FitsArray max p (enter mode m name d w) h)

begin_node-FitsArray :
    (mode : Mode) (m : ℕ → ℕ) (max name : ℕ) (n : Option ℕ) (w : Walk)
    → FitsArray max w.ranges
    → FitsNext max (begin_node mode m name n w)
unfolding begin_node
begin_node-FitsArray mode m max name none w h = stop-FitsArray max starved tt
begin_node-FitsArray mode m max name (some n) w h =
    begin_at-FitsArray mode m max name _ w (next_level w.depth) h

token_step-FitsArray :
    (mode : Mode) (m : ℕ → ℕ) (strings fuel p : ℕ) (w : Walk)
    → FitsArray (max_of mode) w.ranges
    → FitsNext (max_of mode) (token_step mode m strings fuel p w)
unfolding token_step
token_step-FitsArray mode m strings fuel p w h =
    let max = max_of mode in
    let over = stop-FitsArray max (collected w.ranges) h in
    chosen (FitsNext max) _ _ _ over (
      chosen (FitsNext max) _ _ _ (begin_node-FitsArray mode m max (p + 4) _ w h) (
        chosen (FitsNext max) _ _ _ (leave-FitsArray max (p + 4) w h) (
          chosen (FitsNext max) _ _ _ (go-FitsArray max (p + 4) w h) (
            chosen (FitsNext max) _ _ _ (on_property-FitsArray mode m strings fuel (p + 4) w h)
              over))))

pub walk-FitsArray :
    (mode : Mode) (m : ℕ → ℕ) (strings fuel p : ℕ) (w : Walk)
    → FitsArray (max_of mode) w.ranges
    → FitsWalked (max_of mode) (walk mode m strings fuel p w)
unfolding walk FitsNext
walk-FitsArray mode m strings zero p w h = tt
walk-FitsArray mode m strings (suc fuel) p w h =
    let go_on : (next : Next)
        → FitsNext (max_of mode) next
        → FitsWalked (max_of mode)
            (elim next [ stop r ↦ r | go p' w' ↦ walk mode m strings fuel p' w' ]) =
      λ next.
        elim next
          as (λ k.
            FitsNext (max_of mode) k
            → FitsWalked (max_of mode)
                (elim k [ stop r ↦ r | go p' w' ↦ walk mode m strings fuel p' w' ])) [
                  | stop r ↦ (λ h. h)
                  | go p' w' ↦ (λ h. walk-FitsArray mode m strings fuel p' w' h)
                ] in
    go_on (token_step mode m strings fuel p w) (token_step-FitsArray mode m strings fuel p w h)
