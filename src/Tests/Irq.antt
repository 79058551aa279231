-- ===== src/Tests/Irq.antt =====
-- Interrupts on concrete inputs.
use capaz_os_kernel.Common.{ℕ, ◌≡◌, ◌+◌, ◌*◌, refl, arith, some}
use capaz_os_kernel.Irq.{Irq, Devices, irq_register, irq_dispatch}
use capaz_os_kernel.Irq.Dispatch.{register-dispatch}

-- The world is a number; the timer's interrupt is 30, raised by CPU 1.
abbrev devices : Devices ℕ
devices = record {
  acknowledge = λ w. (1054, w + 1);
  finish = λ iar w. w * 10;
  call = λ h id ctx w. w + ctx;
}

abbrev quiet : Irq
quiet = record { depth = 0; handlers = λ i. 0; ctx = λ i. 0 }

register-dispatch_example :
    irq_dispatch devices (irq_register quiet 30 9000 7).1 5
    ≡ some ((irq_register quiet 30 9000 7).1, 130)
register-dispatch_example =
    register-dispatch devices quiet 30 9000 7 1054 5 6 (omega arith) (omega arith)
      (λ e. omega arith) refl refl
