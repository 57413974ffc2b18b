-- ===== src/Vmm.antt =====
-- src/kernel/mem/vmm.c: the page tables of x86-64. A table is named by its physical address
-- (PHYS_TO_VIRT is a fixed offset), as is the structure of an address space; a null pointer is 0.
-- Only the words of tables are kept of the frames' bytes; the flushes of the TLB are left out.
pub mod Spaces
pub mod Tables
pub mod Grow
pub mod Hang
pub mod Step
pub mod Walk
pub mod Write
pub mod Map
pub mod Range
pub mod Physical
mod Tests
use blackmount.Common.{
  ℕ, zero, suc, ◌+◌, ◌-◌, ◌*◌, ◌/◌, ◌%◌, ◌^◌, Bool, true, false, List, [], ◌∷◌, Option, none, some,
  bit_or, bit_and, ltb, leb, ◌==◌, ◌&&◌, ◌||◌, not, if◌then◌else◌,
}
use blackmount.Pmm.{Pmm, page_size, u64_mod, pmm_alloc, pmm_alloc_pages, pmm_free, pmm_free_pages}

abbrev pub page_present : ℕ
page_present = 1

abbrev pub page_write : ℕ
page_write = 2

abbrev pub page_user : ℕ
page_user = 4

-- The words of each table, and the top table that each structure of an address space names.
pub record Vmm : Type 0 where
  pub pmm : Pmm
  pub entries : ℕ → ℕ → ℕ
  pub spaces : ℕ → ℕ
  pub kernel_pml4 : ℕ
  pub cr3 : ℕ

-- A pointer to an address space: null, the static one of the kernel, or one that was created.
pub data Space : Type 0 where
  no_space kernel_space : Space
  made_space : ℕ → Space

-- `entry & PAGE_MASK`
abbrev pub page_of : ℕ → ℕ
page_of entry = entry / page_size * page_size

abbrev pub is_present : ℕ → Bool
is_present entry = entry % 2 == 1

-- `PTE_CREATE`
abbrev pub pte_create : ℕ → ℕ → ℕ
pte_create addr flags = bit_or (page_of addr) flags

abbrev pub pml4_index : ℕ → ℕ
pml4_index addr = addr / 2 ^ 39 % 512

abbrev pub pdpt_index : ℕ → ℕ
pdpt_index addr = addr / 2 ^ 30 % 512

abbrev pub pd_index : ℕ → ℕ
pd_index addr = addr / 2 ^ 21 % 512

abbrev pub pt_index : ℕ → ℕ
pt_index addr = addr / 2 ^ 12 % 512

abbrev pub put_entry : Vmm → ℕ → ℕ → ℕ → Vmm
put_entry s table index entry = record s {
  entries = λ t i. if t == table && i == index then entry else s.entries t i;
}

-- `memset(table, 0, PAGE_SIZE)`
abbrev pub clear_table : Vmm → ℕ → Vmm
clear_table s table = record s { entries = λ t i. if t == table then 0 else s.entries t i }

-- The part of `vmm_get_next_level` from the allocation on.
unfoldable pub new_table : Vmm → ℕ → ℕ → ℕ → ℕ × Pmm → Option ℕ × Vmm
new_table s current index flags (phys, pmm') =
    if phys == 0 then (none, record s { pmm = pmm' }) else (
      some phys,
      put_entry (clear_table (record s { pmm = pmm' }) phys) current index
          (pte_create phys (bit_or flags page_present)),
    )

unfoldable pub vmm_get_next_level : Vmm → ℕ → ℕ → Bool → ℕ → Option ℕ × Vmm
unfolding new_table
vmm_get_next_level s current index create flags =
    let entry : ℕ = s.entries current index in
    if is_present entry
    then (
      some (page_of entry),
      put_entry s current index (bit_or entry (bit_and flags (bit_or page_user page_write))),
    )
    else if not create
    then (none, s)
    else new_table s current index flags (pmm_alloc s.pmm)

-- The next step of a walk, where there is a table to take it in.
abbrev pub and_then : Option ℕ × Vmm → (ℕ → Vmm → Option ℕ × Vmm) → Option ℕ × Vmm
and_then (none, s) f = (none, s)
and_then (some table, s) f = f table s

-- The walk from the top table to the last one.
unfoldable pub walk : Vmm → ℕ → ℕ → Bool → ℕ → Option ℕ × Vmm
unfolding vmm_get_next_level
walk s pml4 addr create flags =
    and_then (vmm_get_next_level s pml4 (pml4_index addr) create flags) (λ pdpt s1.
      and_then (vmm_get_next_level s1 pdpt (pdpt_index addr) create flags)
        (λ pd s2. vmm_get_next_level s2 pd (pd_index addr) create flags))

-- The top table of an address space; null stands for the kernel's.
abbrev pub pml4_of : Vmm → Space → ℕ
pml4_of s no_space = s.kernel_pml4
pml4_of s kernel_space = s.kernel_pml4
pml4_of s (made_space a) = s.spaces a

-- The end of `vmm_map`, where the walk found the last table or did not.
abbrev pub set_page : ℕ → ℕ → ℕ → Option ℕ × Vmm → Bool × Vmm
set_page addr phys flags (none, s) = (false, s)
set_page addr phys flags (some pt, s) =
    (true, put_entry s pt (pt_index addr) (pte_create (page_of phys) (bit_or flags page_present)))

unfoldable pub vmm_map : Vmm → Space → ℕ → ℕ → ℕ → Bool × Vmm
unfolding walk
vmm_map s space virt phys flags =
    set_page (page_of virt) phys flags
      (walk s (pml4_of s space) (page_of virt) true (bit_or page_write page_user))

abbrev pub clear_page : ℕ → Option ℕ × Vmm → Vmm
clear_page addr (none, s) = s
clear_page addr (some pt, s) = put_entry s pt (pt_index addr) 0

unfoldable pub vmm_unmap : Vmm → Space → ℕ → Vmm
unfolding walk
vmm_unmap s space virt = clear_page (page_of virt) (walk s (pml4_of s space) (page_of virt) false 0)

-- The end of `vmm_get_physical`.
abbrev pub read_page : ℕ → Option ℕ × Vmm → ℕ × Vmm
read_page virt (none, s) = (0, s)
read_page virt (some pt, s) =
    let entry : ℕ = s.entries pt (pt_index virt) in
    if not (is_present entry) then (0, s) else (bit_or (page_of entry) (virt % page_size), s)

unfoldable pub vmm_get_physical : Vmm → Space → ℕ → ℕ × Vmm
unfolding walk
vmm_get_physical s space virt = read_page virt (walk s (pml4_of s space) virt false 0)

unfoldable pub vmm_is_mapped : Vmm → Space → ℕ → Bool × Vmm
unfolding vmm_get_physical
vmm_is_mapped s space virt = let r = vmm_get_physical s space virt in (not (r.0 == 0), r.1)

abbrev pub page_at : ℕ → ℕ → ℕ
page_at addr i = (addr + i * page_size) % u64_mod

-- Unmaps `n` pages from the page `i` of a range on.
unfoldable pub unmap_from : Vmm → Space → ℕ → ℕ → ℕ → Vmm
unmap_from s space virt i zero = s
unmap_from s space virt i (suc n) =
    unmap_from (vmm_unmap s space (page_at virt i)) space virt (i + 1) n

unfoldable pub vmm_unmap_range : Vmm → Space → ℕ → ℕ → Vmm
unfolding unmap_from
vmm_unmap_range s space virt pages = unmap_from s space virt 0 pages

-- The loop of `vmm_map_range` from the page `i` on, with `n` rounds left.
unfoldable pub map_from : Vmm → Space → ℕ → ℕ → ℕ → ℕ → ℕ → Bool × Vmm
unfolding unmap_from
map_from s space virt phys flags i zero = (true, s)
map_from s space virt phys flags i (suc n) =
    let r = vmm_map s space (page_at virt i) (page_at phys i) flags in
    let rest = map_from r.1 space virt phys flags (i + 1) n in
    if r.0 then rest else (false, unmap_from r.1 space virt 0 i)

unfoldable pub vmm_map_range : Vmm → Space → ℕ → ℕ → ℕ → ℕ → Bool × Vmm
unfolding map_from
vmm_map_range s space virt phys pages flags = map_from s space virt phys flags 0 pages
