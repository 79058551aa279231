-- ===== src/Irq/Dispatch.antt =====
-- What a dispatch of irg/irq.c does.
use capaz_os_kernel.Common.{
  ℕ, ◌+◌, ◌-◌, ◌%◌, ◌<◌, ◌≡◌, ◌≢◌, refl, ap, ◌∙◌, arith, true, false, ◌||◌, some, leb, ◌==◌,
  if◌then◌else◌, update, add_u32, u32_mod, ◌>>=◌,
}
use capaz_os_kernel.Irq.{
  Irq, Devices, irq_max, irq_enter, irq_exit, irq_register, gic_irqid, handle, irq_dispatch,
}

-- An entry and an exit leave the state as it was.
enter-exit : (s : Irq) → s.depth + 1 < u32_mod → irq_exit (irq_enter s) ≡ some s
unfolding irq_exit irq_enter
enter-exit s fit =
    let deep : (add_u32 s.depth 1 == 0) ≡ false = ground arith in
    let back : add_u32 s.depth 1 - 1 ≡ s.depth = omega arith in rw (deep, back) refl

-- Every dispatch returns with the depth and the table as they were. It ends the interrupt that it
-- acknowledged, after the call of the handler unless the number is spurious or has none.
pub dispatch_lem :
    {W : Type 0} (dev : Devices W) (s : Irq) (w : W)
    → s.depth + 1 < u32_mod
    → irq_dispatch dev s w
      ≡ some (
        s,
        dev.finish (dev.acknowledge w).0 (
            if leb 1020 ((dev.acknowledge w).0 % 1024)
            then (dev.acknowledge w).1
            else handle dev s ((dev.acknowledge w).0 % 1024) (dev.acknowledge w).1),
      )
unfolding irq_dispatch gic_irqid handle irq_enter
dispatch_lem dev s w fit =
    let id = (dev.acknowledge w).0 % 1024 in
    let iar = (dev.acknowledge w).0 in
    let w1 = (dev.acknowledge w).1 in
    let skip : (leb 1020 id || leb irq_max id) ≡ leb 1020 id = ground arith in
    ap
      (λ o. o >>= λ s'. some (
        s',
        dev.finish iar
            (if leb 1020 id || leb irq_max id then w1 else handle dev (irq_enter s) id w1),
      ))
      (enter-exit s fit)
    ∙ ap (λ c. some (s, dev.finish iar (if c then w1 else handle dev s id w1))) skip

-- A handler that is registered for a number below 1020 is called with its context when the controller
-- acknowledges that number, and the interrupt is ended after it.
pub register-dispatch :
    {W : Type 0} (dev : Devices W) (s : Irq) (irq handler ctx iar : ℕ) (w w1 : W)
    → s.depth + 1 < u32_mod
    → irq < 1020
    → handler ≢ 0
    → dev.acknowledge w ≡ (iar, w1)
    → iar % 1024 ≡ irq
    → irq_dispatch dev (irq_register s irq handler ctx).1 w
      ≡ some ((irq_register s irq handler ctx).1, dev.finish iar (dev.call handler irq ctx w1))
unfolding irq_register handle
register-dispatch dev s irq handler ctx iar w w1 fit lt ne e id =
    let s' = record s { handlers = update s.handlers irq handler; ctx = update s.ctx irq ctx } in
    let fresh : leb irq_max irq ≡ false = ground arith in
    let low : leb 1020 irq ≡ false = ground arith in
    let self : (irq == irq) ≡ true = ground arith in
    let real : (handler == 0) ≡ false = ground arith in
    rw fresh (
      dispatch_lem dev s' w fit
      ∙ ap
          (λ a. some (
            s',
            dev.finish a.0 (if leb 1020 (a.0 % 1024) then a.1 else handle dev s' (a.0 % 1024) a.1),
          ))
          e
      ∙ ap (λ i. some (s', dev.finish iar (if leb 1020 i then w1 else handle dev s' i w1))) id
      ∙ rw (low, self, real) refl)
