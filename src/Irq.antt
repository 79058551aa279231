-- ===== src/Irq.antt =====
-- The interrupt table and the interrupt mask of irg/irq.c. The handlers and the interrupt controller are
-- arguments; they act on a world W. A handler is an address, and 0 is NULL. The
-- trap frame that the source passes on to a handler is left out of its arguments, and a handler acts on
-- the world only, so it does not change the interrupt table.
pub mod Dispatch
pub mod Mask
use capaz_os_kernel.Common.{
  ℕ, ◌+◌, ◌-◌, ◌/◌, ◌%◌, Bool, true, false, not, ◌||◌, Option, none, some, ltb, leb, ◌==◌,
  if◌then◌else◌, update, add_u32, ◌>>=◌,
}

pub record Irq : Type 0 where
  pub depth : ℕ
  pub handlers : ℕ → ℕ
  pub ctx : ℕ → ℕ

abbrev pub irq_max : ℕ
irq_max = 1024

unfoldable pub in_irq : Irq → Bool
in_irq s = not (s.depth == 0)

unfoldable pub irq_enter : Irq → Irq
irq_enter s = record s { depth = add_u32 s.depth 1 }

-- An exit without an entry panics.
unfoldable pub irq_exit : Irq → Option Irq
irq_exit s = if s.depth == 0 then none else some (record s { depth = s.depth - 1 })

unfoldable pub irq_register : Irq → ℕ → ℕ → ℕ → Bool × Irq
irq_register s irq handler ctx =
    if leb irq_max irq
    then (false, s)
    else (true, record s { handlers = update s.handlers irq handler; ctx = update s.ctx irq ctx })

-- `iar & 0x3FF`.
unfoldable pub gic_irqid : ℕ → ℕ
gic_irqid iar = iar % 1024

-- The controller: what it acknowledges, and the end of an interrupt; and the call of a handler with the
-- interrupt's number and its context.
pub record Devices (W : Type 0) : Type 0 where
  pub acknowledge : W → ℕ × W
  pub finish : ℕ → W → W
  pub call : ℕ → ℕ → ℕ → W → W

-- The handler of interrupt id, if there is one.
unfoldable pub handle : {W : Type 0} → Devices W → Irq → ℕ → W → W
handle dev s id w = if s.handlers id == 0 then w else dev.call (s.handlers id) id (s.ctx id) w

unfoldable pub irq_dispatch : {W : Type 0} → Devices W → Irq → W → Option (Irq × W)
irq_dispatch dev s0 w0 =
    let s = irq_enter s0 in
    let (iar, w) = dev.acknowledge w0 in
    let id = gic_irqid iar in
    let w' = if leb 1020 id || leb irq_max id then w else handle dev s id w in
    irq_exit s >>= (λ s'. some (s', dev.finish iar w'))

-- The register DAIF, whose bit 7 masks interrupts.
unfoldable pub irq_irqs_disabled : ℕ → Bool
irq_irqs_disabled daif = not (daif / 128 % 2 == 0)

unfoldable pub irq_global_enable : ℕ → ℕ
irq_global_enable daif = if irq_irqs_disabled daif then daif - 128 else daif

unfoldable pub irq_global_disable : ℕ → ℕ
irq_global_disable daif = if irq_irqs_disabled daif then daif else daif + 128

-- The old value, and the register after it.
unfoldable pub irq_save : ℕ → ℕ × ℕ
irq_save daif = (daif, irq_global_disable daif)

unfoldable pub irq_restore : ℕ → ℕ → ℕ
irq_restore daif prev_daif =
    if irq_irqs_disabled prev_daif then irq_global_disable daif else irq_global_enable daif
