-- ===== src/Irq/Mask.antt =====
-- The interrupt mask of irg/irq.c over nested sections.
use capaz_os_kernel.Common.{ℕ, ◌≡◌, arith, true}
use capaz_os_kernel.Irq.{
  irq_irqs_disabled, irq_global_enable, irq_global_disable, irq_save, irq_restore,
}

-- A section from `irq_save` to `irq_restore` runs with interrupts masked, and leaves the mask as it was
-- before it, whatever the register holds at its end.
pub section_lem :
    (daif later : ℕ)
    → (irq_irqs_disabled (irq_save daif).1 ≡ true)
      × (irq_irqs_disabled (irq_restore later (irq_save daif).0) ≡ irq_irqs_disabled daif)
unfolding irq_save irq_restore irq_global_disable irq_global_enable irq_irqs_disabled
section_lem daif later = (ground arith, ground arith)
