-- ===== src/Pmm/Tests.antt =====
-- Runs of pmm.c, and its theorems at an input.
use blackmount.Common.{
  ℕ, ◌/◌, ◌<◌, ◌≡◌, ◌≢◌, refl, ◌⊎◌, ◌||◌, not, true, List, [], ◌∷◌, some, arith,
}
use blackmount.Common.Bytes.{bit_test}
use blackmount.Memory.Laws.{within}
use blackmount.Pmm.{
  Pmm, page_size, bitmap_test, find_run, alloc_run, pmm_alloc, pmm_alloc_pages, pmm_free,
  pmm_free_pages,
}
use blackmount.Pmm.Count.{count}
use blackmount.Pmm.IsValid.{IsValid, is_used}
use blackmount.Pmm.Alloc.{Grants, Refuses, pmm_alloc_pages_lem}
use blackmount.Pmm.Free.{
  Drops, asked, pmm_free-Drops, pmm_free_pages-Drops, pmm_free_pages-pmm_alloc_pages,
  pmm_alloc_page_zero,
}
use blackmount.Pmm.Init.{Entry, div_up, find_highest, find_bitmap, sized, pmm_init}
use blackmount.Pmm.Init.Regions.{in_usable, IsApart}
use blackmount.Pmm.Init.Marks.{in_reserved}
use blackmount.Pmm.Init.Boot.{blank, pmm_init_lem}

-- Six pages, of which 0 and 2 are used.
abbrev six_pages : Pmm
six_pages = record {
  bitmap = 5 ∷ [];
  bitmap_size = 1;
  total_pages = 6;
  used_pages = 2;
  highest_addr = 0x6000;
  mem = λ a. 7;
}

abbrev all_free : Pmm
all_free = record six_pages { bitmap = 0 ∷ []; used_pages = 0 }

six_pages-IsValid : IsValid six_pages
unfolding count bitmap_test bit_test
six_pages-IsValid = record {
  bytes = (omega arith, tt);
  room = omega arith;
  addressable = omega arith;
  counted = refl;
}

all_free-IsValid : IsValid all_free
unfolding count bitmap_test bit_test
all_free-IsValid = record {
  bytes = (omega arith, tt);
  room = omega arith;
  addressable = omega arith;
  counted = refl;
}

-- Page 1 is free but stands alone.
two_pages : (pmm_alloc_pages six_pages 2).0 ≡ 0x3000
unfolding pmm_alloc_pages alloc_run find_run bitmap_test bit_test
two_pages = refl

four_pages : pmm_alloc_pages six_pages 4 ≡ (0, six_pages)
unfolding pmm_alloc_pages alloc_run find_run bitmap_test bit_test
four_pages = refl

pmm_alloc_pages_lem_example :
    ((start : ℕ) × Grants six_pages start 2 (pmm_alloc_pages six_pages 2))
    ⊎ Refuses six_pages 2 (pmm_alloc_pages six_pages 2)
pmm_alloc_pages_lem_example = pmm_alloc_pages_lem six_pages six_pages-IsValid 2 (omega arith)

pmm_free-Drops_example : Drops six_pages (asked 0x2000 1) (pmm_free six_pages 0x2000)
pmm_free-Drops_example = pmm_free-Drops six_pages 0x2000 six_pages-IsValid

pmm_free_pages-Drops_example : Drops six_pages (asked 0x1000 9) (pmm_free_pages six_pages 0x1000 9)
pmm_free_pages-Drops_example = pmm_free_pages-Drops six_pages 0x1000 six_pages-IsValid 9

two_pages_ok : (pmm_alloc_pages six_pages 2).0 ≢ 0
two_pages_ok e = omega (arith, two_pages)

pmm_free_pages-pmm_alloc_pages_example :
    let (addr, p') = pmm_alloc_pages six_pages 2 in
    ((q : ℕ) → is_used (pmm_free_pages p' addr 2) q ≡ is_used six_pages q)
    × ((pmm_free_pages p' addr 2).used_pages ≡ six_pages.used_pages)
pmm_free_pages-pmm_alloc_pages_example =
    pmm_free_pages-pmm_alloc_pages six_pages 2 six_pages-IsValid (omega arith) two_pages_ok

pmm_alloc_page_zero_example :
    ((pmm_alloc all_free).0 ≡ 0) × (is_used (pmm_alloc all_free).1 0 ≡ true)
unfolding bitmap_test bit_test
pmm_alloc_page_zero_example = pmm_alloc_page_zero all_free all_free-IsValid (omega arith) refl

-- Two usable regions with a reserved page between them, and the kernel behind.
abbrev small_map : List Entry
small_map =
    record { base = 0x1000; length = 0x2000; kind = 0 }
    ∷ record { base = 0x3000; length = 0x1000; kind = 1 }
    ∷ record { base = 0x4000; length = 0x3000; kind = 0 }
    ∷ record { base = 0x7000; length = 0x0800; kind = 6 }
    ∷ []

small_map-IsApart : IsApart small_map
small_map-IsApart = (
  (λ q u w. ground arith),
  ((λ q u w. ground arith), ((λ q u w. ground arith), ((λ q u w. ground arith), tt))),
)

pmm_init_lem_example :
    let p = pmm_init (some small_map) (blank (λ a. 0)) in
    let size = (sized (blank (λ a. 0)) small_map).bitmap_size in
    IsValid p
    × (p.total_pages ≡ (sized (blank (λ a. 0)) small_map).total_pages)
    × ((q : ℕ)
        → q < p.total_pages
        → is_used p q ≡ (
            not (in_usable small_map q)
            || within (0x1000 / page_size) (div_up size) q
            || in_reserved small_map q))
unfolding find_bitmap sized find_highest
pmm_init_lem_example = pmm_init_lem (λ a. 0) small_map 0x1000 small_map-IsApart refl
