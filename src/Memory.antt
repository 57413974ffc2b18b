-- ===== src/Memory.antt =====
-- src/kernel/memory.c: the byte loops of the kernel over an addressed memory.
-- A memory gives the byte at each address. Each function returns the memory after the loop; the
-- pointer that the C function returns is its first argument and is left out. Addresses do not wrap:
-- a buffer lies below the end of the address space.
pub mod Laws
mod Tests
use blackmount.Common.{ℕ, zero, suc, ◌+◌, ◌%◌, Bool, ltb, ◌==◌, if◌then◌else◌}

abbrev pub Mem : Type 0
Mem = ℕ → ℕ

-- `*p = v`
abbrev pub write : Mem → ℕ → ℕ → Mem
write m p v q = if p == q then v else m q

-- `for (i = 0; i < num; i++) dst[i] = src[i]`, from `i` on with `n` rounds left.
pub memcpy_from : Mem → ℕ → ℕ → ℕ → ℕ → Mem
memcpy_from m dst src i zero = m
memcpy_from m dst src i (suc n) = memcpy_from (write m (dst + i) (m (src + i))) dst src (i + 1) n

unfoldable pub memcpy : Mem → ℕ → ℕ → ℕ → Mem
unfolding memcpy_from
memcpy m dst src num = memcpy_from m dst src 0 num

pub memset_from : Mem → ℕ → ℕ → ℕ → ℕ → Mem
memset_from m ptr value i zero = m
memset_from m ptr value i (suc n) =
    memset_from (write m (ptr + i) (value % 256)) ptr value (i + 1) n

unfoldable pub memset : Mem → ℕ → ℕ → ℕ → Mem
unfolding memset_from
memset m ptr value num = memset_from m ptr value 0 num

pub memcmp_from : Mem → ℕ → ℕ → ℕ → ℕ → ℕ
memcmp_from m p1 p2 i zero = 0
memcmp_from m p1 p2 i (suc n) =
    let rest = memcmp_from m p1 p2 (i + 1) n in if m (p1 + i) == m (p2 + i) then rest else 1

unfoldable pub memcmp : Mem → ℕ → ℕ → ℕ → ℕ
unfolding memcmp_from
memcmp m p1 p2 num = memcmp_from m p1 p2 0 num

-- `while (num--) *d++ = *s++`
pub move_up : Mem → ℕ → ℕ → ℕ → Mem
move_up m d s zero = m
move_up m d s (suc n) = move_up (write m d (m s)) (d + 1) (s + 1) n

-- `while (num--) *--d = *--s`, where `d` and `s` already stand behind the buffers.
pub move_down : Mem → ℕ → ℕ → ℕ → Mem
move_down m d s zero = m
move_down m d s (suc n) = move_down (write m (d + n) (m (s + n))) d s n

unfoldable pub memmove : Mem → ℕ → ℕ → ℕ → Mem
unfolding move_up move_down
memmove m dst src num = if ltb dst src then move_up m dst src num else move_down m dst src num
