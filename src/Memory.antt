-- ===== src/Memory.antt =====
-- The helpers of mm/mem.c on bytes. The memory is a function from addresses; a block does not wrap
-- round the address space. What each helper returns besides is its first argument.
pub mod Copies
pub mod Compares
use capaz_os_kernel.Common.{
  ℕ, zero, suc, ◌+◌, ◌-◌, ◌%◌, ◌^◌, Bool, true, false, not, ◌&&◌, ◌||◌, Option, none, some, ltb,
  leb, ◌==◌, if◌then◌else◌, update,
}

-- The loop of `memset`, with n bytes left from p + i on.
unfoldable pub set_from : (ℕ → ℕ) → ℕ → ℕ → ℕ → ℕ → ℕ → ℕ
set_from m p v zero i = m
set_from m p v (suc n) i = set_from (update m (p + i) v) p v n (suc i)

unfoldable pub memset : (ℕ → ℕ) → ℕ → ℕ → ℕ → ℕ → ℕ
memset m dst c n = set_from m dst (c % 256) n 0

-- The loop that copies upwards, with n bytes left from i on.
unfoldable pub copy_up : (ℕ → ℕ) → ℕ → ℕ → ℕ → ℕ → ℕ → ℕ
copy_up m d s zero i = m
copy_up m d s (suc n) i = copy_up (update m (d + i) (m (s + i))) d s n (suc i)

-- The loop that copies downwards, from byte n - 1 on.
unfoldable pub copy_down : (ℕ → ℕ) → ℕ → ℕ → ℕ → ℕ → ℕ
copy_down m d s zero = m
copy_down m d s (suc n) = copy_down (update m (d + n) (m (s + n))) d s n

unfoldable pub memcpy : (ℕ → ℕ) → ℕ → ℕ → ℕ → ℕ → ℕ
memcpy m dst src n = copy_up m dst src n 0

unfoldable pub memmove : (ℕ → ℕ) → ℕ → ℕ → ℕ → ℕ → ℕ
memmove m dst src n =
    if dst == src || n == 0
    then m
    else if ltb dst src
    then copy_up m dst src n 0
    else copy_down m dst src n

-- The loop of `memcmp`, with n bytes left from i on. An int is its word of 32 bits.
unfoldable pub compare_from : (ℕ → ℕ) → ℕ → ℕ → ℕ → ℕ → ℕ
compare_from m a b zero i = 0
compare_from m a b (suc n) i =
    let rest = compare_from m a b n (suc i) in
    if m (a + i) == m (b + i) then rest else (m (a + i) + 2 ^ 32 - m (b + i)) % 2 ^ 32

unfoldable pub memcmp : (ℕ → ℕ) → ℕ → ℕ → ℕ → ℕ
memcmp m a b n = compare_from m a b n 0

-- The loop of `strlen` from n on; the fuel bounds the search for the end.
unfoldable pub length_from : (ℕ → ℕ) → ℕ → ℕ → ℕ → Option ℕ
length_from m s zero n = none
length_from m s (suc fuel) n =
    let rest = length_from m s fuel (suc n) in if m (s + n) == 0 then some n else rest

unfoldable pub strlen : ℕ → (ℕ → ℕ) → ℕ → Option ℕ
strlen fuel m s = if s == 0 then some 0 else length_from m s fuel 0
