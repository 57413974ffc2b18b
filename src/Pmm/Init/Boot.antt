-- ===== src/Pmm/Init/Boot.antt =====
-- What `pmm_init` leaves behind when it finds room for the bitmap.
use blackmount.Common.{
  ℕ, ◌*◌, ◌/◌, ◌%◌, ◌≤◌, ◌<◌, ◌≡◌, ◌∙◌, ◌||◌, not, true, List, [], ◌∷◌, some, length-replicate,
  get_or-replicate, All-replicate, arith,
}
use blackmount.Common.Bytes.{bit_test_full}
use blackmount.Memory.{Mem}
use blackmount.Memory.Laws.{within}
use blackmount.Pmm.{Pmm, page_size, u64_mod, bitmap_test}
use blackmount.Pmm.Count.{count_all}
use blackmount.Pmm.IsValid.{IsValid, is_used}
use blackmount.Pmm.Init.{
  Entry, div_up, find_highest, find_bitmap, free_usable, sized, all_used, mark_bitmap, pmm_init,
}
use blackmount.Pmm.Init.Regions.{in_usable, IsApart, free_usable-Drops}
use blackmount.Pmm.Init.Marks.{in_reserved, mark_region-Marks, mark_reserved-Marks}

-- The static variables before `pmm_init`.
abbrev pub blank : Mem → Pmm
blank m = record {
  bitmap = [];
  bitmap_size = 0;
  total_pages = 0;
  used_pages = 0;
  highest_addr = 0;
  mem = m;
}

find_highest-lt : (es : List Entry) (h : ℕ) → h < u64_mod → find_highest es h < u64_mod
unfolding find_highest
find_highest-lt [] h lt = lt
find_highest-lt (e ∷ es) h lt = find_highest-lt es _ (ground arith)

is_used-all_used : (p : Pmm) (q : ℕ) → q < 8 * p.bitmap_size → is_used (all_used p) q ≡ true
unfolding all_used bitmap_test
is_used-all_used p q h = ground (
  arith,
  get_or-replicate {A = ℕ} p.bitmap_size (q / 8) 255 0 (omega arith),
  bit_test_full (q % 8) (omega arith),
)

all_used-IsValid :
    (p : Pmm)
    → p.total_pages ≤ 8 * p.bitmap_size
    → p.total_pages * page_size ≤ u64_mod
    → IsValid (all_used p)
unfolding all_used
all_used-IsValid p room fits = record {
  bytes = All-replicate (λ b. b < 256) p.bitmap_size 255 (omega arith);
  room = omega (arith, length-replicate {A = ℕ} p.bitmap_size 255);
  addressable = fits;
  counted =
      let c =
        count_all (is_used (all_used p)) p.total_pages
          (λ q h. is_used-all_used p q (omega arith)) in
      ground arith;
}

module _ (m : Mem) (es : List Entry) where
  sized-IsValid : IsValid (all_used (sized (blank m) es))
  unfolding sized
  sized-IsValid =
      let lt = find_highest-lt es 0 (omega arith) in
      all_used-IsValid (sized (blank m) es) (omega arith) (omega arith)

  -- If no page lies in two usable regions of the memory map and some usable region can hold the
  -- bitmap, then after `pmm_init` the allocator is valid, and the pages that are free are those of
  -- the usable regions, less those of the bitmap itself and those of the kernel, its modules and
  -- the boot loader.
  pub pmm_init_lem :
      (base : ℕ)
      → IsApart es
      → find_bitmap es (sized (blank m) es).bitmap_size ≡ some base
      → let p = pmm_init (some es) (blank m) in
        let size = (sized (blank m) es).bitmap_size in
        IsValid p
        × (p.total_pages ≡ (sized (blank m) es).total_pages)
        × ((q : ℕ)
            → q < p.total_pages
            → is_used p q ≡ (
                not (in_usable es q)
                || within (base / page_size) (div_up size) q
                || in_reserved es q))
  unfolding pmm_init mark_bitmap all_used
  pmm_init_lem base apart found =
      let s = sized (blank m) es in
      let u = all_used s in
      let used : (q : ℕ) → q < u.total_pages → is_used u q ≡ true =
        λ q h. is_used-all_used s q (unfold sized all_used in omega arith) in
      let d = free_usable-Drops es u sized-IsValid apart (λ q h k. used q k) in
      let f = free_usable u es in
      let b = mark_region-Marks (div_up s.bitmap_size) f (base / page_size) d.valid in
      let r = mark_reserved-Marks es (mark_bitmap f base s.bitmap_size) b.valid in
      rw (found, pmm_init)
        (
          r.valid,
          r.same_total ∙ b.same_total ∙ d.same_total,
          λ q h.
              let lt : q < u.total_pages =
                omega (arith, r.same_total, b.same_total, d.same_total) in
              ground (
                arith,
                lt,
                used q,
                r.used_after q,
                b.used_after q,
                d.used_after q,
                r.same_total,
                b.same_total,
                d.same_total,
              ),
        )
