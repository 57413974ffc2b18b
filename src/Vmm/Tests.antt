-- ===== src/Vmm/Tests.antt =====
-- Runs of vmm.c, and its theorems at an input.
use blackmount.Common.{
  ℕ, ◌/◌, ◌≡◌, refl, ◌∙◌, ap, true, [], ◌∷◌, Option, none, some, ◌==◌, if◌then◌else◌, arith,
}
use blackmount.Common.Bytes.{bit_set, bit_test}
use blackmount.Pmm.{Pmm, bitmap_test, pmm_alloc, find_free, take_page, bitmap_set}
use blackmount.Pmm.Count.{count}
use blackmount.Pmm.IsValid.{IsValid, is_used}
use blackmount.Vmm.{
  Vmm, kernel_space, pml4_of, vmm_map, vmm_unmap, vmm_get_physical, vmm_map_range,
  vmm_get_next_level, walk, new_table,
}
use blackmount.Vmm.Tables.{child, Place}
use blackmount.Vmm.Map.{Maps, with_page, mapped_or, vmm_map_lem, vmm_unmap_lem}
use blackmount.Vmm.Range.{RangeMapped, vmm_map_range_lem}

-- Sixteen pages, of which 0 and 2 are used; page 2 is an empty top table.
abbrev small_pmm : Pmm
small_pmm = record {
  bitmap = 5 ∷ 0 ∷ [];
  bitmap_size = 2;
  total_pages = 16;
  used_pages = 2;
  highest_addr = 0x10000;
  mem = λ a. 0;
}

small_pmm-IsValid : IsValid small_pmm
unfolding count bitmap_test bit_test
small_pmm-IsValid = record {
  bytes = (omega arith, (omega arith, tt));
  room = omega arith;
  addressable = omega arith;
  counted = refl;
}

abbrev empty_space : Vmm
empty_space = record {
  pmm = small_pmm;
  entries = λ t i. 0;
  spaces = λ a. 0;
  kernel_pml4 = 0x2000;
  cr3 = 0x2000;
}

abbrev nothing : ℕ → Option ℕ
nothing v = none

abbrev only_top : ℕ → Option Place
only_top t = if t == 0x2000 then some (4, 0) else none

no_child : (t i : ℕ) → child empty_space t i ≡ none
unfolding child
no_child t i = refl

only_top_at : (t : ℕ) (at : Place) → only_top t ≡ some at → t ≡ 0x2000
only_top_at t at e = ground (arith, e)

busy_top : is_used small_pmm 2 ≡ true
unfolding bitmap_test bit_test
busy_top = refl

empty_space-Maps : Maps empty_space 0x2000 nothing
unfolding child
empty_space-Maps = record {
  place = only_top;
  tree = record {
    top = refl;
    below = λ t l p i u at near e. absurd (ground (arith, e, no_child t i));
    used = λ t at e.
        let same : t ≡ 0x2000 = only_top_at t at e in
        let page : t / 4096 ≡ 2 = omega (arith, same) in
        (omega (arith, same), ap (is_used small_pmm) page ∙ busy_top);
    pages = small_pmm-IsValid;
  };
  is_mapping = λ v. refl;
}

vmm_map_lem_example :
    let (ok, s') = vmm_map empty_space kernel_space 0x401234 0x7000 6 in
    Maps s' (pml4_of s' kernel_space) (mapped_or ok 0x401234 0x7000 nothing)
vmm_map_lem_example =
    vmm_map_lem empty_space kernel_space 0x401234 0x7000 6 nothing empty_space-Maps (omega arith)

abbrev one_mapped : Vmm
one_mapped = (vmm_map empty_space kernel_space 0x401234 0x7000 6).1

-- The offset in the page is kept.
one_physical : (vmm_get_physical one_mapped kernel_space 0x401567).0 ≡ 0x7567
unfolding vmm_map vmm_get_physical walk vmm_get_next_level new_table pmm_alloc find_free take_page
    bitmap_test bit_test bitmap_set bit_set
one_physical = refl

vmm_unmap_lem_example :
    let s' = vmm_unmap empty_space kernel_space 0x401234 in
    Maps s' (pml4_of s' kernel_space) (with_page 0x401234 none nothing)
vmm_unmap_lem_example = vmm_unmap_lem empty_space kernel_space 0x401234 nothing empty_space-Maps

-- Tables at 0x2000 to 0x5000, of which the last has the page 0x7000 with `PAGE_NX`.
abbrev no_execute : Vmm
no_execute = record empty_space {
  entries = λ t i.
      if t == 0x2000
      then 0x3003
      else if t == 0x3000
      then 0x4003
      else if t == 0x4000
      then 0x5003
      else if t == 0x5000
      then 0x8000000000007003
      else 0;
}

vmm_map_range_lem_example :
    RangeMapped kernel_space 0x400000 0x7000 3 nothing
      (vmm_map_range empty_space kernel_space 0x400000 0x7000 3 6)
vmm_map_range_lem_example =
    vmm_map_range_lem empty_space kernel_space 0x400000 0x7000 3 6 nothing (omega arith)
      empty_space-Maps
