-- ===== src/Memory/Tests.antt =====
-- Runs of memory.c, and its theorems at an input.
use blackmount.Common.{◌≡◌, refl, ◌↔◌, inl, if◌then◌else◌, arith}
use blackmount.Memory.{Mem, memcpy, memset, memcmp, memmove}
use blackmount.Memory.Laws.{
  within, SameBytes, memset_lem, memmove_lem, memcpy-eq-memmove, memcmp_iff,
}

-- Each address holds itself.
abbrev ramp : Mem
ramp a = a

memmove_overlap : memmove ramp 12 10 5 16 ≡ 14
unfolding memmove
memmove_overlap = refl

-- An overlapping `memcpy` upwards repeats the first two bytes.
memcpy_overlap : memcpy ramp 12 10 5 16 ≡ 10
unfolding memcpy
memcpy_overlap = refl

memcmp_differs : memcmp ramp 10 12 3 ≡ 1
unfolding memcmp
memcmp_differs = refl

memset_lem_example : memset ramp 8 300 4 9 ≡ (if within 8 4 9 then 44 else 9)
memset_lem_example = memset_lem ramp 8 300 4 9

memmove_lem_example : memmove ramp 12 10 5 16 ≡ 14
memmove_lem_example = memmove_lem ramp 12 10 5 16

memcpy-eq-memmove_example : memcpy ramp 10 12 5 13 ≡ memmove ramp 10 12 5 13
memcpy-eq-memmove_example = memcpy-eq-memmove ramp 10 12 5 13 (inl (omega arith))

memcmp_iff_example : (memcmp ramp 10 12 3 ≡ 0) ↔ SameBytes ramp 10 12 3
memcmp_iff_example = memcmp_iff ramp 10 12 3
