-- ===== src/Tests/Work.antt =====
-- The work queue on concrete inputs.
use capaz_os_kernel.Common.{ℕ, ◌≡◌, refl, arith, [], ◌∷◌, ◌++◌, length, inr}
use capaz_os_kernel.Work.{Workq}
use capaz_os_kernel.Work.Order.{InQueue, fifo_order, post_all, take_all}

-- Every item has callback 9.
abbrev idle : Workq
idle = record { items = λ i. record { fn = 9; arg = i; next = 0 }; head = 0; tail = 0 }

abbrev one : Workq
one = record { items = λ i. record { fn = 9; arg = i; next = 0 }; head = 5; tail = 5 }

one-InQueue : InQueue one (5 ∷ [])
one-InQueue = inr ([], omega arith, refl, refl, refl, tt, tt, tt)

fifo_order_example :
    take_all (length {A = ℕ} ((5 ∷ []) ++ 6 ∷ 4 ∷ [])) (post_all one (6 ∷ 4 ∷ []))
    ≡ (5 ∷ []) ++ 6 ∷ 4 ∷ []
fifo_order_example =
    fifo_order one (5 ∷ []) (6 ∷ 4 ∷ []) one-InQueue ((omega arith, tt), ((omega arith, tt), tt))
      ((omega arith, tt), (tt, tt)) (omega arith, omega arith, (omega arith, omega arith, tt))
