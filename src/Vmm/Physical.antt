-- ===== src/Vmm/Physical.antt =====
-- What `vmm_get_physical` of vmm.c answers, against the walk of the processor.
use blackmount.Common.{
  ℕ, zero, suc, ◌+◌, ◌*◌, ◌/◌, ◌%◌, ◌^◌, ◌<◌, Option, none, some, if◌then◌else◌,
}
use blackmount.Vmm.{Vmm, is_present}
use blackmount.Vmm.Tables.{bind}

-- The physical address of an entry: its bits 12 to 51.
abbrev pub frame_of : ℕ → ℕ
frame_of entry = entry / 2 ^ 12 % 2 ^ 40 * 2 ^ 12

abbrev pub present_entry : Vmm → ℕ → ℕ → Option ℕ
present_entry s t i = if is_present (s.entries t i) then some (s.entries t i) else none

-- The last entry that the processor comes to for an address, from a table `level` levels above the
-- last one on.
abbrev pub mmu_entry : Vmm → ℕ → ℕ → ℕ → Option ℕ
mmu_entry s t v zero = present_entry s t (v / 2 ^ 12 % 512)
mmu_entry s t v (suc level) =
    bind (present_entry s t (v / 2 ^ (12 + 9 * suc level) % 512))
      (λ entry. mmu_entry s (frame_of entry) v level)

-- The entries above the last one on this way have no bits from 52 on.
abbrev pub PlainTables : Vmm → ℕ → ℕ → ℕ → Type 0
PlainTables s t v zero = Unit
PlainTables s t v (suc level) =
    (s.entries t (v / 2 ^ (12 + 9 * suc level) % 512) < 2 ^ 52)
    × PlainTables s (frame_of (s.entries t (v / 2 ^ (12 + 9 * suc level) % 512))) v level

-- Null, or the physical address with bits 52 to 63 of the entry on top.
abbrev pub answer : ℕ → Option ℕ → ℕ
answer v none = 0
answer v (some entry) = frame_of entry + v % 2 ^ 12 + entry / 2 ^ 52 * 2 ^ 52
