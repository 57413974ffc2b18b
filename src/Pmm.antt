-- ===== src/Pmm.antt =====
-- src/kernel/mem/pmm.c: the physical page allocator over a bitmap, one bit to a page, set while the
-- page is used. The bitmap is the list of its bytes, and physical memory the byte at each physical
-- address (PHYS_TO_VIRT is a fixed offset). Each function returns its result beside the new state;
-- a null pointer is 0.
pub mod Init
pub mod Bitmap
pub mod Count
pub mod IsValid
pub mod Alloc
pub mod Free
mod Tests
use blackmount.Common.{
  ℕ, zero, suc, ◌+◌, ◌-◌, ◌*◌, ◌/◌, ◌%◌, ◌^◌, Bool, true, false, List, Option, none, some, get_or,
  set, ltb, leb, ◌==◌, ◌||◌, not, if◌then◌else◌,
}
use blackmount.Common.Bytes.{bit_set, bit_clear, bit_test}
use blackmount.Memory.{Mem, memset}

abbrev pub page_size : ℕ
page_size = 4096

abbrev pub u64_mod : ℕ
u64_mod = 2 ^ 64

-- The static variables of the allocator, and the memory that it hands out.
pub record Pmm : Type 0 where
  pub bitmap : List ℕ
  pub bitmap_size : ℕ
  pub total_pages : ℕ
  pub used_pages : ℕ
  pub highest_addr : ℕ
  pub mem : Mem

unfoldable pub bitmap_set : List ℕ → ℕ → List ℕ
bitmap_set bm page = set bm (page / 8) (bit_set (get_or bm (page / 8) 0) (page % 8))

unfoldable pub bitmap_clear : List ℕ → ℕ → List ℕ
bitmap_clear bm page = set bm (page / 8) (bit_clear (get_or bm (page / 8) 0) (page % 8))

unfoldable pub bitmap_test : List ℕ → ℕ → Bool
bitmap_test bm page = bit_test (get_or bm (page / 8) 0) (page % 8)

-- `used_pages++` and `used_pages--` on a `uint64_t`.
abbrev pub inc64 : ℕ → ℕ
inc64 n = (n + 1) % u64_mod

abbrev pub dec64 : ℕ → ℕ
dec64 n = (n + u64_mod - 1) % u64_mod

-- The loop of `pmm_alloc`: the first free page from `i` on, with `n` pages left to look at.
unfoldable pub find_free : List ℕ → ℕ → ℕ → Option ℕ
find_free bm i zero = none
find_free bm i (suc n) =
    let rest = find_free bm (i + 1) n in if not (bitmap_test bm i) then some i else rest

-- `bitmap_set(page); used_pages++;`
unfoldable pub take_page : Pmm → ℕ → Pmm
take_page p page = record p { bitmap = bitmap_set p.bitmap page; used_pages = inc64 p.used_pages }

-- `bitmap_clear(page); used_pages--;`
unfoldable pub drop_page : Pmm → ℕ → Pmm
drop_page p page = record p { bitmap = bitmap_clear p.bitmap page; used_pages = dec64 p.used_pages }

-- `memset(PHYS_TO_VIRT(page), 0, bytes)`
abbrev pub clear_memory : Pmm → ℕ → ℕ → Pmm
clear_memory p addr bytes = record p { mem = memset p.mem addr 0 bytes }

unfoldable pub pmm_alloc : Pmm → ℕ × Pmm
pmm_alloc p = elim (find_free p.bitmap 0 p.total_pages) [
  | none ↦ (0, p)
  | some i ↦ (i * page_size, clear_memory (take_page p i) (i * page_size) page_size)
]

-- The search loop of `pmm_alloc_pages`: the start of the run of `count` free pages, where `found`
-- free pages from `start` on lie just before `i`.
pub find_run : List ℕ → ℕ → ℕ → ℕ → ℕ → ℕ → Option ℕ
find_run bm count found start i zero = none
find_run bm count found start i (suc n) =
    let start' = if found == 0 then i else start in
    elim (bitmap_test bm i) [
      | true ↦ find_run bm count 0 start (i + 1) n
      | false ↦ elim (found + 1 == count) [
        | true ↦ some start'
        | false ↦ find_run bm count (found + 1) start' (i + 1) n
      ]
    ]

-- `for (j = 0; j < count; j++) { bitmap_set(start_page + j); used_pages++; }`, with `n` rounds left.
pub take_pages : Pmm → ℕ → ℕ → Pmm
take_pages p page zero = p
take_pages p page (suc n) = take_pages (take_page p page) (page + 1) n

pub alloc_run : Pmm → ℕ → ℕ × Pmm
alloc_run p count = elim (find_run p.bitmap count 0 0 0 p.total_pages) [
  | none ↦ (0, p)
  | some start ↦ (
    start * page_size,
    clear_memory (take_pages p start count) (start * page_size) (count * page_size),
  )
]

pub pmm_alloc_pages : Pmm → ℕ → ℕ × Pmm
pmm_alloc_pages p count =
    if count == 0 then (0, p) else if count == 1 then pmm_alloc p else alloc_run p count

-- What `pmm_free` and each round of `pmm_free_pages` do with a page number.
unfoldable pub free_page : Pmm → ℕ → Pmm
free_page p page =
    if leb p.total_pages page
    then p
    else if not (bitmap_test p.bitmap page)
    then p
    else drop_page p page

unfoldable pub pmm_free : Pmm → ℕ → Pmm
pmm_free p addr = if addr == 0 then p else free_page p (addr / page_size)

pub free_from : Pmm → ℕ → ℕ → Pmm
free_from p page zero = p
free_from p page (suc n) = free_from (free_page p page) (page + 1) n

pub pmm_free_pages : Pmm → ℕ → ℕ → Pmm
pmm_free_pages p addr count =
    if addr == 0 || count == 0 then p else free_from p (addr / page_size) count

pub pmm_get_total_memory : Pmm → ℕ
pmm_get_total_memory p = p.total_pages * page_size % u64_mod

pub pmm_get_used_memory : Pmm → ℕ
pmm_get_used_memory p = p.used_pages * page_size % u64_mod

pub pmm_get_free_memory : Pmm → ℕ
pmm_get_free_memory p = (p.total_pages + u64_mod - p.used_pages) % u64_mod * page_size % u64_mod
