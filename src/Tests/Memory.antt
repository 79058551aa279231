-- ===== src/Tests/Memory.antt =====
-- The memory helpers on concrete inputs.
use capaz_os_kernel.Common.{ℕ, ◌≡◌, ◌<◌, ◌%◌, refl, arith}
use capaz_os_kernel.Memory.{memmove, copy_down}
use capaz_os_kernel.Memory.Copies.{copied, memmove_lem}

-- Byte a holds a modulo 4.
abbrev digits : ℕ → ℕ
digits a = a % 4

digits_byte : (a : ℕ) → digits a < 256
digits_byte a = omega arith

-- An overlapping move upwards.
memmove_lem_example : memmove digits 2 1 3 4 ≡ copied digits 2 1 3 4
memmove_lem_example = memmove_lem digits 2 1 3 4

moved_three : memmove digits 2 1 3 4 ≡ 3
unfolding memmove copy_down
moved_three = refl
