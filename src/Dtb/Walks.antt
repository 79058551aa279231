-- ===== src/Dtb/Walks.antt =====
-- The walk of platform/dtb.c over the content of a node, and over a node.
use capaz_os_kernel.Common.{
  ℕ, zero, suc, ◌+◌, ◌≤◌, ◌<◌, ◌≡◌, refl, ap, sym, subst, length, ◌∙◌, arith, Bool, true, false,
  Option, some, List, [], ◌++◌, update,
}
use capaz_os_kernel.Platform.{DtbRange}
use capaz_os_kernel.Dtb.{
  be32, align4, NodeCtx, Mode, memory, reserved, Depth, level, next_level, go, enter, leave, walk,
  max_of, clear_reserved, parent_level, memory_name, mark_reserved, parent_cells, new_ctx,
}
use capaz_os_kernel.Dtb.Layout.{
  TextAt, Clear, aligned, new_of, a_after, s_after, standard_kind, is_memory_node, is_reserved_node,
  Items, done, nop, prop, child, Laid, size, Shallow, Region, region_of, ranges_in,
}
use capaz_os_kernel.Dtb.Regs.{append_all, append_all-append, be32-word}
use capaz_os_kernel.Dtb.Names.{memory_name-standard, reserved_name-standard, kind_of-standard}
use capaz_os_kernel.Dtb.Steps.{walk_in, walk-step, step-nop, step-leave, step-prop, step-begin}
use capaz_os_kernel.Dtb.Contents.{
  ctx_of, Marked, Marked-child, cleared-child, property-Kept, update-here,
}

-- A walk comes from p to q, with the depth and the mark it had, and adds the ranges. Neither does it
-- change the stack below d, nor take more fuel than `cost`.
abbrev pub Passed :
    Mode
    → (ℕ → ℕ)
    → ℕ
    → ℕ
    → ℕ
    → ℕ
    → ℕ
    → ℕ
    → Depth
    → (ℕ → NodeCtx)
    → Option ℕ
    → List DtbRange
    → List DtbRange
    → Type 0
Passed mode m strings cost fuel p q d depth stack r rs new =
    (fuel' : ℕ) × (stack' : ℕ → NodeCtx) × (fuel ≤ fuel' + cost)
    × (walk mode m strings fuel p (walk_in stack depth r rs)
        ≡ walk mode m strings fuel' q (walk_in stack' depth r (append_all (max_of mode) rs new)))
    × ((i : ℕ) → i < d → stack' i ≡ stack i)

-- A part of a walk, then the rest.
join-Passed :
    (mode : Mode) (m : ℕ → ℕ) (strings cost rest fuel fuel' p p' q d : ℕ) (depth : Depth)
    (stack stack' : ℕ → NodeCtx) (r : Option ℕ) (rs old new all : List DtbRange)
    → walk mode m strings fuel p (walk_in stack depth r rs)
      ≡ walk mode m strings fuel' p' (walk_in stack' depth r (append_all (max_of mode) rs old))
    → fuel ≤ fuel' + cost
    → ((i : ℕ) → i < d → stack' i ≡ stack i)
    → all ≡ old ++ new
    → Passed mode m strings rest fuel' p' q d depth stack' r (append_all (max_of mode) rs old) new
    → Passed mode m strings (cost + rest) fuel p q d depth stack r rs all
join-Passed mode m strings cost rest fuel fuel' p p' q d depth stack stack' r rs old new all first c
      below e (f, t, le, run, keep) =
    let both = append_all-append (max_of mode) rs old new in
    let result = sym both ∙ ap (append_all (max_of mode) rs) (sym e) in
    (
      f,
      t,
      omega (arith, le, c),
      first ∙ (run ∙ ap (λ xs. walk mode m strings f q (walk_in t depth r xs)) result),
      λ i lt. keep i lt ∙ below i lt,
    )

left-node :
    (mode : Mode) (m : ℕ → ℕ) (strings fuel p d : ℕ) (stack : ℕ → NodeCtx) (r : Option ℕ)
    (rs : List DtbRange)
    → 1 ≤ fuel
    → be32 m p ≡ 2
    → (fuel' : ℕ) × (fuel ≡ suc fuel')
      × (walk mode m strings fuel p (walk_in stack (level d) r rs)
          ≡ walk mode m strings fuel'
              (p + 4)
              (walk_in stack (parent_level d) (clear_reserved r d) rs))
unfolding leave
left-node mode m strings zero p d stack r rs some_fuel e = absurd (omega (arith, some_fuel))
left-node mode m strings (suc fuel) p d stack r rs some_fuel e =
    let w = walk_in stack (level d) r rs in
    (
      fuel,
      refl,
      walk-step mode m strings fuel p w (go (p + 4) (leave w))
          (step-leave mode m strings fuel p w e),
    )

next-parent : (d : ℕ) → next_level (parent_level d) ≡ some d
next-parent zero = refl
next-parent (suc d) = refl

pub node-Passed :
    (mode : Mode) (m : ℕ → ℕ) (strings cost fuel p p' d : ℕ) (letters : List ℕ) (c : NodeCtx)
    (stack : ℕ → NodeCtx) (r : Option ℕ) (rs new : List DtbRange)
    → be32 m p ≡ 1
    → TextAt m (p + 4) letters
    → be32 m p' ≡ 2
    → d < 64
    → new_ctx mode m (p + 4) (parent_cells stack d) ≡ c
    → clear_reserved (mark_reserved mode m (p + 4) d r) d ≡ r
    → 2 + length letters + cost ≤ fuel
    → ((f : ℕ) (t : ℕ → NodeCtx)
        → cost ≤ f
        → t d ≡ c
        → Passed mode m strings cost f
            (align4 (p + 4 + length letters + 1))
            p'
            d
            (level d)
            t
            (mark_reserved mode m (p + 4) d r)
            rs
            new)
    → Passed mode m strings
        (2 + length letters + cost)
        fuel
        p
        (p' + 4)
        d
        (parent_level d)
        stack
        r
        rs
        new
unfolding enter
node-Passed mode m strings cost zero p p' d letters c stack r rs new e1 text e2 low ec er enough
      body =
    absurd (omega (arith, enough))
node-Passed mode m strings cost (suc fuel) p p' d letters c stack r rs new e1 text e2 low ec er
      enough body =
    let w = walk_in stack (parent_level d) r rs in
    let q = align4 (p + 4 + length letters + 1) in
    let r' = mark_reserved mode m (p + 4) d r in
    let begun = walk-step mode m strings fuel p w (go q (enter mode m (p + 4) d w)) (
      step-begin mode m strings fuel p d letters w e1 text (omega (arith, enough)) (next-parent d)
        low) in
    let inner = new_ctx mode m (p + 4) (parent_cells stack d) in
    let (f, t, le, run, keep) =
      body fuel (update stack d inner) (omega (arith, enough)) (update-here stack d inner ∙ ec) in
    let (f', ef, ended) =
      left-node mode m strings f p' d t r' (append_all (max_of mode) rs new)
        (omega (arith, le, enough)) e2 in
    (
      f',
      t,
      omega (arith, le, ef),
      begun
          ∙ (run
              ∙ (ended
                  ∙ ap
                      (λ r.
                        walk mode m strings f' (p' + 4)
                          (walk_in t (parent_level d) r (append_all (max_of mode) rs new)))
                      er)),
      λ i lt. keep i lt ∙ ground (arith, lt),
    )

pub child-ctx :
    (mode : Mode) (m : ℕ → ℕ) (name : ℕ) (mem rsv : Bool) (g : Region) (a s : ℕ)
    → memory_name m name ≡ mem
    → new_ctx mode m name (a, s) ≡ ctx_of mode (region_of mode mem rsv g) a s a s
unfolding new_ctx
child-ctx memory m name true rsv g a s e = rw e refl
child-ctx memory m name false rsv g a s e = rw e refl
child-ctx reserved m name mem rsv g a s e = refl

-- A walk over the items of a node at level d.
pub items-Passed :
    (mode : Mode) (m : ℕ → ℕ) (strings : ℕ) (items : Items) (fuel p q d pa ps a s : ℕ) (g : Region)
    (stack : ℕ → NodeCtx) (r : Option ℕ) (rs : List DtbRange)
    → Laid m strings items p q
    → Clear items
    → Shallow items (suc d)
    → size items ≤ fuel
    → stack d ≡ ctx_of mode g pa ps a s
    → Marked mode g d r
    → Passed mode m strings
        (size items)
        fuel
        p
        q
        d
        (level d)
        stack
        r
        rs
        (ranges_in mode g pa ps a s items)
items-Passed mode m strings done fuel p q d pa ps a s g stack r rs at clear low enough e h = (
  fuel,
  stack,
  omega arith,
  ap (λ q. walk mode m strings fuel q (walk_in stack (level d) r rs)) at,
  λ i lt. refl,
)
items-Passed mode m strings (nop rest) zero p q d pa ps a s g stack r rs at clear low enough e h =
    absurd (omega (arith, enough))
items-Passed mode m strings (nop rest) (suc fuel) p q d pa ps a s g stack r rs (e4, at) clear low
      enough e h =
    let w = walk_in stack (level d) r rs in
    let step =
      walk-step mode m strings fuel p w (go (p + 4) w)
        (step-nop mode m strings fuel p w (be32-word m p ∙ e4)) in
    let more =
      items-Passed mode m strings rest fuel (p + 4) q d pa ps a s g stack r rs at clear low
        (omega (arith, enough)) e h in
    join-Passed mode m strings 1 (size rest) (suc fuel) fuel p (p + 4) q d (level d) stack stack r
      rs [] (ranges_in mode g pa ps a s rest) (ranges_in mode g pa ps a s rest) step (omega arith)
      (λ i lt. refl) refl more
items-Passed mode m strings (prop name b len rest) zero p q d pa ps a s g stack r rs at clear low
      enough e h =
    absurd (omega (arith, enough))
items-Passed mode m strings (prop name b len rest) (suc fuel) p q d pa ps a s g stack r rs
      (e3, el, small, text, bytes, at) (ca, cs, cr, clear) low enough e h =
    let k = standard_kind name in
    let w = walk_in stack (level d) r rs in
    let p' = aligned (p + 4 + 8 + len) in
    let old = new_of k b len g pa ps in
    let rest_in = ranges_in mode g pa ps (a_after k b len a) (s_after k b len s) rest in
    let text_at : TextAt m (strings + be32 m (p + 4 + 4)) name =
      subst (λ o. TextAt m (strings + o) name) (sym (be32-word m (p + 4 + 4))) text in
    let (t, run, et, keep) =
      property-Kept mode m b k g fuel (max_of mode) (p + 4 + 8) len d pa ps a s stack r rs bytes
        small (omega (arith, enough)) e h in
    let w' = walk_in t (level d) r (append_all (max_of mode) rs old) in
    let step = walk-step mode m strings fuel p w (go p' w') (
      step-prop mode m strings fuel p len d k stack r rs w' (be32-word m p ∙ e3)
        (be32-word m (p + 4) ∙ el)
        (kind_of-standard m (strings + be32 m (p + 4 + 4)) name text_at ca cs cr) run) in
    let more =
      items-Passed mode m strings rest fuel p' q d pa ps (a_after k b len a) (s_after k b len s) g t
        r (append_all (max_of mode) rs old) at clear low (omega (arith, enough)) et h in
    join-Passed mode m strings (1 + len) (size rest) (suc fuel) fuel p p' q d (level d) stack t r rs
      old rest_in (old ++ rest_in) step (omega arith) keep refl more
items-Passed mode m strings (child name body rest) fuel p q d pa ps a s g stack r rs
      (e1, text, p', within, e2, at) (clear_in, clear) (low, deep, wide) enough e h =
    let mem = is_memory_node name in
    let rsv = is_reserved_node name in
    let em = memory_name-standard m (p + 4) name text in
    let er = reserved_name-standard m (p + 4) name text in
    let g' = region_of mode mem rsv g in
    let mark = Marked-child mode m (p + 4) mem rsv g d r er h in
    let old = ranges_in mode g' a s a s body in
    let cells : parent_cells stack (suc d) ≡ (a, s) = ap (λ c. (c.addr_cells, c.size_cells)) e in
    let (f, t, le, run, keep) =
      node-Passed mode m strings (size body) fuel p p' (suc d) name (ctx_of mode g' a s a s) stack r
        rs old (be32-word m p ∙ e1) text (be32-word m p' ∙ e2) low
        (ap (new_ctx mode m (p + 4)) cells ∙ child-ctx mode m (p + 4) mem rsv g a s em)
        (cleared-child mode m (p + 4) mem rsv g d r er h) (omega (arith, enough))
        (λ f t en et.
          items-Passed mode m strings body f (aligned (p + 4 + length name + 1)) p' (suc d) a s a s
            g' t (mark_reserved mode m (p + 4) (suc d) r) rs within clear_in deep en et mark) in
    let more =
      items-Passed mode m strings rest f (p' + 4) q d pa ps a s g t r
        (append_all (max_of mode) rs old) at clear wide (omega (arith, enough, le))
        (keep d (omega arith) ∙ e) h in
    join-Passed mode m strings (2 + length name + size body) (size rest) fuel f p (p' + 4) q d
      (level d) stack t r rs old (ranges_in mode g pa ps a s rest)
      (ranges_in mode g pa ps a s (child name body rest)) run le
      (λ i lt. keep i (omega (arith, lt))) refl more
