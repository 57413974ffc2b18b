-- ===== src/Pmm/Init.antt =====
-- `pmm_init` of pmm.c: from the boot loader's memory map to the first bitmap. `memmap` is `none` for
-- a null response; the bytes of the bitmap are kept apart from the memory that they lie in.
pub mod Regions
pub mod Marks
pub mod Boot
use blackmount.Common.{
  ℕ, zero, suc, ◌+◌, ◌-◌, ◌/◌, ◌%◌, Bool, true, false, List, [], ◌∷◌, Option, none, some, replicate,
  ltb, leb, ◌==◌, ◌&&◌, ◌||◌, not, if◌then◌else◌,
}
use blackmount.Pmm.{Pmm, page_size, u64_mod, bitmap_test, take_page, drop_page}

-- `struct limine_memmap_entry`
pub record Entry : Type 0 where
  pub base : ℕ
  pub length : ℕ
  pub kind : ℕ

-- LIMINE_MEMMAP_USABLE, _BOOTLOADER_RECLAIMABLE, _EXECUTABLE_AND_MODULES
abbrev pub usable : ℕ
usable = 0

abbrev pub bootloader_reclaimable : ℕ
bootloader_reclaimable = 5

abbrev pub executable_and_modules : ℕ
executable_and_modules = 6

abbrev pub is_usable : Entry → Bool
is_usable e = e.kind == usable

abbrev pub is_reserved : Entry → Bool
is_reserved e = e.kind == executable_and_modules || e.kind == bootloader_reclaimable

abbrev pub div_up : ℕ → ℕ
div_up n = (n + page_size - 1) % u64_mod / page_size

unfoldable pub find_highest : List Entry → ℕ → ℕ
find_highest [] highest = highest
find_highest (e ∷ es) highest =
    let top = (e.base + e.length) % u64_mod in
    find_highest es (if ltb highest top then top else highest)

-- The base of the first usable region that can hold the bitmap.
unfoldable pub find_bitmap : List Entry → ℕ → Option ℕ
find_bitmap [] size = none
find_bitmap (e ∷ es) size =
    if is_usable e && leb size e.length then some e.base else find_bitmap es size

-- `if (page < total_pages) { bitmap_clear(page); used_pages--; }` for `n` pages from `page` on.
pub free_region : Pmm → ℕ → ℕ → Pmm
free_region p page zero = p
free_region p page (suc n) =
    free_region (if ltb page p.total_pages then drop_page p page else p) (page + 1) n

pub free_usable : Pmm → List Entry → Pmm
free_usable p [] = p
free_usable p (e ∷ es) =
    free_usable
      (if is_usable e then free_region p (e.base / page_size) (e.length / page_size) else p) es

-- `if (page < total_pages && !bitmap_test(page)) { bitmap_set(page); used_pages++; }`, likewise.
pub mark_region : Pmm → ℕ → ℕ → Pmm
mark_region p page zero = p
mark_region p page (suc n) =
    mark_region
      (if ltb page p.total_pages && not (bitmap_test p.bitmap page) then take_page p page else p)
      (page + 1) n

pub mark_reserved : Pmm → List Entry → Pmm
mark_reserved p [] = p
mark_reserved p (e ∷ es) =
    mark_reserved
      (if is_reserved e then mark_region p (e.base / page_size) (div_up e.length) else p) es

-- After the `memset` of the bitmap: every page is marked used.
pub all_used : Pmm → Pmm
all_used p = record p { bitmap = replicate p.bitmap_size 255; used_pages = p.total_pages }

unfoldable pub sized : Pmm → List Entry → Pmm
sized p es =
    let highest = find_highest es p.highest_addr in
    let total = highest / page_size in
    record p { highest_addr = highest; total_pages = total; bitmap_size = (total + 7) / 8 }

-- The pages that hold the `size` bytes of the bitmap.
pub mark_bitmap : Pmm → ℕ → ℕ → Pmm
mark_bitmap p base size = mark_region p (base / page_size) (div_up size)

pub pmm_init : Option (List Entry) → Pmm → Pmm
pmm_init none p = p
pmm_init (some es) p =
    let q = sized p es in
    elim (find_bitmap es q.bitmap_size) [
      | none ↦ record q { bitmap = [] }
      | some base ↦ mark_reserved (mark_bitmap (free_usable (all_used q) es) base q.bitmap_size) es
    ]
