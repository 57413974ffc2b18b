-- ===== src/Pmm/Bitmap.antt =====
-- The bitmap of pmm.c as a set of pages.
use blackmount.Common.{
  ℕ, ◌/◌, ◌%◌, ◌<◌, ◌≡◌, true, false, List, All, All-get_or, All-set, length, get_or,
  get_or-set_self, get_or-set_ne, ◌==◌, if◌then◌else◌, arith,
}
use blackmount.Common.Bytes.{
  bit_set, bit_clear, bit_test-bit_set, bit_test-bit_clear, bit_set-lt, bit_clear-lt,
}
use blackmount.Pmm.{bitmap_set, bitmap_clear, bitmap_test}

abbrev pub IsBytes : List ℕ → Type 0
IsBytes = All (λ b. b < 256)

module _ (bm : List ℕ) (page : ℕ) (bytes : IsBytes bm) where
  byte-lt : get_or bm (page / 8) 0 < 256
  byte-lt = All-get_or (λ b. b < 256) bm (page / 8) 0 bytes (omega arith)

  pub bitmap_set-IsBytes : IsBytes (bitmap_set bm page)
  unfolding bitmap_set
  bitmap_set-IsBytes =
      All-set (λ b. b < 256) bm (page / 8) _ bytes (bit_set-lt byte-lt (omega arith))

  pub bitmap_clear-IsBytes : IsBytes (bitmap_clear bm page)
  unfolding bitmap_clear
  bitmap_clear-IsBytes =
      All-set (λ b. b < 256) bm (page / 8) _ bytes (bit_clear-lt byte-lt (omega arith))

  module _ (inside : page / 8 < length bm) (q : ℕ) where
    pub bitmap_test-bitmap_set :
        bitmap_test (bitmap_set bm page) q ≡ (if page == q then true else bitmap_test bm q)
    unfolding bitmap_test bitmap_set
    bitmap_test-bitmap_set =
        let b : ℕ = bit_set (get_or bm (page / 8) 0) (page % 8) in
        ground (
          arith,
          get_or-set_self bm (page / 8) b 0 inside,
          get_or-set_ne bm (page / 8) (q / 8) b 0,
          bit_test-bit_set {k = page % 8} byte-lt (omega arith) (q % 8) (omega arith),
        )

    pub bitmap_test-bitmap_clear :
        bitmap_test (bitmap_clear bm page) q ≡ (if page == q then false else bitmap_test bm q)
    unfolding bitmap_test bitmap_clear
    bitmap_test-bitmap_clear =
        let b : ℕ = bit_clear (get_or bm (page / 8) 0) (page % 8) in
        ground (
          arith,
          get_or-set_self bm (page / 8) b 0 inside,
          get_or-set_ne bm (page / 8) (q / 8) b 0,
          bit_test-bit_clear {k = page % 8} byte-lt (omega arith) (q % 8) (omega arith),
        )
