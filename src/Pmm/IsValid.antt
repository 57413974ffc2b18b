-- ===== src/Pmm/IsValid.antt =====
-- The representation invariant of the allocator, and that one page taken or given back keeps it.
use blackmount.Common.{
  ℕ, ◌*◌, ◌/◌, ◌≤◌, ◌<◌, ◌≡◌, Bool, true, false, length, length-set, ◌==◌, if◌then◌else◌, arith,
}
use blackmount.Pmm.{
  Pmm, page_size, u64_mod, bitmap_set, bitmap_clear, bitmap_test, take_page, drop_page,
}
use blackmount.Pmm.Bitmap.{
  IsBytes, bitmap_set-IsBytes, bitmap_clear-IsBytes, bitmap_test-bitmap_set,
  bitmap_test-bitmap_clear,
}
use blackmount.Pmm.Count.{count, count-le, count_add}

-- The set of used pages, which is all that a client sees of the bitmap.
abbrev pub is_used : Pmm → ℕ → Bool
is_used p page = bitmap_test p.bitmap page

-- The bitmap has a bit for each page, and `used_pages` counts the bits that are set.
pub record IsValid (p : Pmm) : Type 0 where
  pub bytes : IsBytes p.bitmap
  pub room : p.total_pages ≤ 8 * length p.bitmap
  pub addressable : p.total_pages * page_size ≤ u64_mod
  pub counted : p.used_pages ≡ count (is_used p) p.total_pages

module _ (p : Pmm) (page : ℕ) (v : IsValid p) (inside : page < p.total_pages) where
  byte-inside : page / 8 < length p.bitmap
  byte-inside = let r = v.room in omega arith

  pub is_used-take_page :
      (q : ℕ) → is_used (take_page p page) q ≡ (if page == q then true else is_used p q)
  unfolding take_page
  is_used-take_page q = bitmap_test-bitmap_set p.bitmap page v.bytes byte-inside q

  pub is_used-drop_page :
      (q : ℕ) → is_used (drop_page p page) q ≡ (if page == q then false else is_used p q)
  unfolding drop_page
  is_used-drop_page q = bitmap_test-bitmap_clear p.bitmap page v.bytes byte-inside q

  pub take_page-IsValid : is_used p page ≡ false → IsValid (take_page p page)
  unfolding take_page bitmap_set
  take_page-IsValid free = record {
    bytes = bitmap_set-IsBytes p.bitmap page v.bytes;
    room = let r = v.room in omega (arith, length-set {0} p.bitmap (page / 8));
    addressable = v.addressable;
    counted =
        let c = v.counted in
        let a = v.addressable in
        ground (
          arith,
          count_add (is_used p) (is_used (take_page p page)) page p.total_pages is_used-take_page
              free,
          count-le (is_used (take_page p page)) p.total_pages,
        );
  }

  pub drop_page-IsValid : is_used p page ≡ true → IsValid (drop_page p page)
  unfolding drop_page bitmap_clear
  drop_page-IsValid used = record {
    bytes = bitmap_clear-IsBytes p.bitmap page v.bytes;
    room = let r = v.room in omega (arith, length-set {0} p.bitmap (page / 8));
    addressable = v.addressable;
    counted =
        let c = v.counted in
        let a = v.addressable in
        ground (
          arith,
          count_add (is_used (drop_page p page)) (is_used p) page p.total_pages back gone,
          count-le (is_used p) p.total_pages,
        );
  }
    where
      back : (q : ℕ) → is_used p q ≡ (if page == q then true else is_used (drop_page p page) q)
      back q = ground (arith, is_used-drop_page q)

      gone : is_used (drop_page p page) page ≡ false
      gone = ground (arith, is_used-drop_page page)
