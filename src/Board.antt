-- ===== src/Board.antt =====
-- The boards (Kern/Board, Kern/Platform/platform_config.h): their window of RAM, which is mapped at
-- the high half, and the helpers on addresses that platform.c, pmm.c and pmm.h each define.
use capaz_os_kernel.Common.{ℕ, ◌+◌, ◌-◌, ◌*◌, ◌/◌, leb, if◌then◌else◌, add_u64, sub_u64}

pub data Board : Type 0 where
  virt rpi3 : Board

abbrev pub ram_base : Board → ℕ
ram_base virt = 0x40000000
ram_base rpi3 = 0

abbrev pub ram_directmap_size : Board → ℕ
ram_directmap_size virt = 0x40000000
ram_directmap_size rpi3 = 0x40000000

-- CAPAZ_RAM_WINDOW_END, which the functions call `win_end`.
abbrev pub win_end : Board → ℕ
win_end b = ram_base b + ram_directmap_size b

abbrev pub hh_base : ℕ
hh_base = 0xFFFF800000000000

abbrev pub hh_ram_base : Board → ℕ
hh_ram_base b = hh_base + ram_base b

abbrev pub page_size : ℕ
page_size = 4096

-- `x & ~0xFFF` and `(x + 0xFFF) & ~0xFFF`.
abbrev pub align_down_4k : ℕ → ℕ
align_down_4k x = x / page_size * page_size

abbrev pub align_up_4k : ℕ → ℕ
align_up_4k x = align_down_4k (add_u64 x (page_size - 1))

unfoldable pub hh_virt_to_phys : Board → ℕ → ℕ
hh_virt_to_phys b va = if leb (hh_ram_base b) va then va - hh_ram_base b + ram_base b else va

unfoldable pub phys_to_hh_virt : Board → ℕ → ℕ
phys_to_hh_virt b pa = add_u64 (hh_ram_base b) (sub_u64 pa (ram_base b))
