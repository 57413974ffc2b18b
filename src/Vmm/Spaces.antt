-- ===== src/Vmm/Spaces.antt =====
-- The functions of vmm.c that take pages from the physical allocator, and those that make and destroy
-- address spaces.
use blackmount.Common.{
  ℕ, zero, suc, ◌+◌, Option, none, some, bit_or, ltb, leb, ◌==◌, ◌&&◌, ◌||◌, not, if◌then◌else◌,
}
use blackmount.Pmm.{Pmm, page_size, pmm_alloc, pmm_alloc_pages, pmm_free, pmm_free_pages}
use blackmount.Vmm.{
  Vmm, Space, no_space, kernel_space, made_space, page_of, is_present, page_present, page_write,
  page_user, clear_table, page_at, vmm_map, vmm_unmap, vmm_get_physical, vmm_map_range,
}

abbrev pub set_pmm : Vmm → Pmm → Vmm
set_pmm s pmm' = record s { pmm = pmm' }

-- `pmm_free` and `pmm_free_pages` at the allocator of the state.
abbrev pub free_frame : Vmm → ℕ → Vmm
free_frame s phys = set_pmm s (pmm_free s.pmm phys)

abbrev pub free_frames : Vmm → ℕ → ℕ → Vmm
free_frames s phys count = set_pmm s (pmm_free_pages s.pmm phys count)

unfoldable pub vmm_alloc_page : Vmm → Space → ℕ → ℕ → ℕ × Vmm
vmm_alloc_page s space virt flags =
    let (phys, pmm') = pmm_alloc s.pmm in
    if phys == 0
    then (0, set_pmm s pmm')
    else let r = vmm_map (set_pmm s pmm') space virt phys flags in
      if not r.0 then (0, free_frame r.1 phys) else (virt, r.1)

unfoldable pub vmm_alloc_pages : Vmm → Space → ℕ → ℕ → ℕ → ℕ × Vmm
vmm_alloc_pages s space virt count flags =
    let (phys, pmm') = pmm_alloc_pages s.pmm count in
    if phys == 0
    then (0, set_pmm s pmm')
    else let r = vmm_map_range (set_pmm s pmm') space virt phys count flags in
      if not r.0 then (0, free_frames r.1 phys count) else (virt, r.1)

unfoldable pub vmm_map_contiguous : Vmm → Space → ℕ → ℕ → ℕ → ℕ × Vmm
unfolding vmm_alloc_pages
vmm_map_contiguous s space virt count flags =
    if count == 0 || virt == 0 then (0, s) else vmm_alloc_pages s space virt count flags

unfoldable pub vmm_free_page : Vmm → Space → ℕ → Vmm
vmm_free_page s space virt =
    let (phys, s') = vmm_get_physical s space virt in
    if phys == 0 then s' else free_frame (vmm_unmap s' space virt) phys

-- The loop of `vmm_free_pages` from the page `i` on, with `n` rounds left.
unfoldable pub free_pages_from : Vmm → Space → ℕ → ℕ → ℕ → Vmm
unfolding vmm_free_page
free_pages_from s space virt i zero = s
free_pages_from s space virt i (suc n) =
    free_pages_from (vmm_free_page s space (page_at virt i)) space virt (i + 1) n

unfoldable pub vmm_free_pages : Vmm → Space → ℕ → ℕ → Vmm
unfolding free_pages_from
vmm_free_pages s space virt count = free_pages_from s space virt 0 count

-- The current value of CR3 is the top table that the boot loader has set up.
unfoldable pub vmm_init : Vmm → Vmm
vmm_init s = record s { kernel_pml4 = page_of s.cr3 }

unfoldable pub vmm_switch_space : Vmm → Space → Vmm
vmm_switch_space s no_space = s
vmm_switch_space s kernel_space = record s { cr3 = s.kernel_pml4 }
vmm_switch_space s (made_space a) = record s { cr3 = s.spaces a }

-- The loop of `setup_user_space` with `n` rounds left, which stops when no frame is left; the result
-- of the mapping is not looked at.
unfoldable pub user_pages : Vmm → ℕ → ℕ → Vmm
user_pages s vaddr zero = s
user_pages s vaddr (suc n) =
    let (phys, pmm') = pmm_alloc s.pmm in
    let mapped =
      vmm_map (set_pmm s pmm') kernel_space vaddr phys
        (bit_or page_present (bit_or page_write page_user)) in
    let rest = user_pages mapped.1 (vaddr + page_size) n in
    if phys == 0 then set_pmm s pmm' else rest

unfoldable pub setup_user_space : Vmm → Vmm
unfolding user_pages
setup_user_space s = user_pages s 0x400000 1024

-- The new top table: nothing below, the kernel's entries above.
abbrev pub copy_kernel_half : Vmm → ℕ → Vmm
copy_kernel_half s pml4 = record s {
  entries = λ t i.
      if t == pml4 && leb 256 i && ltb i 512 then s.entries s.kernel_pml4 i else s.entries t i;
}

-- The first of the two results of `pmm_alloc` is not seen to be null, as PHYS_TO_VIRT has moved it.
unfoldable pub vmm_create_address_space : Vmm → Option ℕ × Vmm
vmm_create_address_space s =
    let (space, pmm1) = pmm_alloc s.pmm in
    let (pml4, pmm2) = pmm_alloc pmm1 in
    if pml4 == 0
    then (none, free_frame (set_pmm s pmm2) space)
    else let named : Vmm = record s {
      pmm = pmm2;
      spaces = λ a. if a == space then pml4 else s.spaces a;
    } in
      (some space, copy_kernel_half (clear_table named pml4) pml4)

-- The loops of `vmm_destroy_address_space`, innermost first, from an entry on with `n` rounds left.
-- What the tables say does not change on the way.
unfoldable pub free_tables : Vmm → ℕ → ℕ → ℕ → Vmm
free_tables s pd pde zero = s
free_tables s pd pde (suc n) =
    let entry : ℕ = s.entries pd pde in
    free_tables (if not (is_present entry) then s else free_frame s (page_of entry)) pd (pde + 1) n

unfoldable pub free_directories : Vmm → ℕ → ℕ → ℕ → Vmm
unfolding free_tables
free_directories s pdpt pdpte zero = s
free_directories s pdpt pdpte (suc n) =
    let entry : ℕ = s.entries pdpt pdpte in
    free_directories
      (if not (is_present entry)
        then s
        else free_frame (free_tables s (page_of entry) 0 512) (page_of entry))
      pdpt (pdpte + 1) n

unfoldable pub free_user_half : Vmm → ℕ → ℕ → ℕ → Vmm
unfolding free_directories
free_user_half s pml4 pml4e zero = s
free_user_half s pml4 pml4e (suc n) =
    let entry : ℕ = s.entries pml4 pml4e in
    free_user_half
      (if not (is_present entry)
        then s
        else free_frame (free_directories s (page_of entry) 0 512) (page_of entry))
      pml4 (pml4e + 1) n

unfoldable pub vmm_destroy_address_space : Vmm → Space → Vmm
unfolding free_user_half
vmm_destroy_address_space s no_space = s
vmm_destroy_address_space s kernel_space = s
vmm_destroy_address_space s (made_space a) =
    let freed = free_user_half s (s.spaces a) 0 256 in
    free_frame (free_frame freed (freed.spaces a)) a
