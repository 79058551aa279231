-- ===== src/Dtb/Steps.antt =====
-- What one token does to a walk of platform/dtb.c that stands in a node.
use capaz_os_kernel.Common.{
  ℕ, zero, suc, ◌≢◌, sym, ◌∙◌, [], ◌∷◌, length, ◌+◌, ◌<◌, ◌≡◌, refl, ap, arith, false, Option, some,
  List, leb,
}
use capaz_os_kernel.Platform.{DtbRange}
use capaz_os_kernel.Memory.Compares.{length_from_lem}
use capaz_os_kernel.Dtb.{
  be32, align4, NodeCtx, Mode, Depth, level, Walk, Walked, collected, kind_of, Kind, next_level,
  Next, go, stop, enter, leave, property, begin_node, on_property, token_step, walk, max_of,
}
use capaz_os_kernel.Dtb.Layout.{TextAt}

-- A walk with its variables.
abbrev pub walk_in : (ℕ → NodeCtx) → Depth → Option ℕ → List DtbRange → Walk
walk_in stack depth r rs = record { stack = stack; depth = depth; in_reserved = r; ranges = rs }

-- The rest of a walk after one step.
abbrev pub rest_of : Mode → (ℕ → ℕ) → ℕ → ℕ → Next → Walked
rest_of mode m strings fuel (stop r) = r
rest_of mode m strings fuel (go p w) = walk mode m strings fuel p w

pub walk-step :
    (mode : Mode) (m : ℕ → ℕ) (strings fuel p : ℕ) (w : Walk) (next : Next)
    → token_step mode m strings fuel p w ≡ next
    → walk mode m strings (suc fuel) p w ≡ rest_of mode m strings fuel next
unfolding walk
walk-step mode m strings fuel p w next e = ap (rest_of mode m strings fuel) e

pub step-end :
    (mode : Mode) (m : ℕ → ℕ) (strings fuel p : ℕ) (w : Walk)
    → be32 m p ≡ 9
    → token_step mode m strings fuel p w ≡ stop (collected w.ranges)
unfolding token_step
step-end mode m strings fuel p w e = rw e refl

pub step-nop :
    (mode : Mode) (m : ℕ → ℕ) (strings fuel p : ℕ) (w : Walk)
    → be32 m p ≡ 4
    → token_step mode m strings fuel p w ≡ go (p + 4) w
unfolding token_step
step-nop mode m strings fuel p w e = rw e refl

pub step-leave :
    (mode : Mode) (m : ℕ → ℕ) (strings fuel p : ℕ) (w : Walk)
    → be32 m p ≡ 2
    → token_step mode m strings fuel p w ≡ go (p + 4) (leave w)
unfolding token_step
step-leave mode m strings fuel p w e = rw e refl

pub step-prop :
    (mode : Mode) (m : ℕ → ℕ) (strings fuel p len d : ℕ) (k : Kind) (stack : ℕ → NodeCtx)
    (r : Option ℕ) (rs : List DtbRange) (w : Walk)
    → be32 m p ≡ 3
    → be32 m (p + 4) ≡ len
    → kind_of m (strings + be32 m (p + 4 + 4)) ≡ k
    → property mode m fuel (max_of mode) (p + 4 + 8) len d k (walk_in stack (level d) r rs) ≡ some w
    → token_step mode m strings fuel p (walk_in stack (level d) r rs)
      ≡ go (align4 (p + 4 + 8 + len)) w
unfolding token_step on_property
step-prop mode m strings fuel p len d k stack r rs w e el ek done = rw (e, el, ek, done) refl

text-ends :
    (m : ℕ → ℕ) (p : ℕ) (name : List ℕ)
    → TextAt m p name
    → ((i : ℕ) → i < length name → m (p + i) ≢ 0) × (m (p + length name) ≡ 0)
text-ends m p [] e = ((λ i lt. absurd (omega (arith, lt))), ap m {y = p} (omega arith) ∙ e)
text-ends m p (c ∷ cs) (ec, some_letter, at) =
    let (text, end) = text-ends m (p + 1) cs at in
    ((λ i lt. letter text i lt), ap m {y = p + 1 + length cs} (omega arith) ∙ end)
  where
    letter :
        ((i : ℕ) → i < length cs → m (p + 1 + i) ≢ 0)
        → (i : ℕ) → i < suc (length cs)
        → m (p + i) ≢ 0
    letter text zero lt e = some_letter (sym ec ∙ (ap m {y = p + 0} (omega arith) ∙ e))
    letter text (suc i) lt e = text i (omega (arith, lt)) (ap m {y = p + suc i} (omega arith) ∙ e)

pub step-begin :
    (mode : Mode) (m : ℕ → ℕ) (strings fuel p d : ℕ) (letters : List ℕ) (w : Walk)
    → be32 m p ≡ 1
    → TextAt m (p + 4) letters
    → length letters < fuel
    → next_level w.depth ≡ some d
    → d < 64
    → token_step mode m strings fuel p w
      ≡ go (align4 (p + 4 + length letters + 1)) (enter mode m (p + 4) d w)
unfolding token_step begin_node
step-begin mode m strings fuel p d letters w e at lt en low =
    let (text, end) = text-ends m (p + 4) letters at in
    let name =
      length_from_lem fuel m (p + 4) 0 (length letters) (omega arith) (omega (arith, lt)) end
        (λ j ge l. text j l) in
    let shallow : leb 64 d ≡ false = ground (arith, low) in rw (e, name, en, shallow) refl
