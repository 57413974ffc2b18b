-- ===== src/Common/Bytes.antt =====
-- Single bits of a byte: `b & (1 << k)`, `b | (1 << k)` and `b & ~(1 << k)`, checked over all bytes.
use Prim.Native.Nat.{ℕ, zero, suc, ◌-◌, ◌^◌, ◌<◌, bit_and, bit_or}
use mathlib.Core.Path.{◌≡◌, refl}
use mathlib.Core.Bool.{Bool, true, false, ◌&&◌, not}
use native.Mathlib.Omega.{arith}
use blackmount.Common.Tests.{ltb, ◌==◌, if◌then◌else◌}

unfoldable pub bit_set : ℕ → ℕ → ℕ
bit_set b k = bit_or b (2 ^ k)

-- On a byte `~(1 << k)` keeps the other seven bits.
unfoldable pub bit_clear : ℕ → ℕ → ℕ
bit_clear b k = bit_and b (255 - 2 ^ k)

unfoldable pub bit_test : ℕ → ℕ → Bool
bit_test b k = not (bit_and b (2 ^ k) == 0)

-- Does the test hold of each number under the bound?
holds_under : (ℕ → Bool) → ℕ → Bool
holds_under test zero = true
holds_under test (suc bound) = if test bound then holds_under test bound else false

holds_under_at :
    (test : ℕ → Bool) (bound : ℕ)
    → holds_under test bound ≡ true
    → (v : ℕ) → v < bound
    → test v ≡ true
unfolding holds_under
holds_under_at test zero all v lt = elim lt [ ]
holds_under_at test (suc bound) all v lt =
    ground (arith, holds_under_at test bound (ground arith) v)

abbrev same : Bool → Bool → Bool
same true b = b
same false b = not b

same-eq : (a b : Bool) → same a b ≡ true → a ≡ b
same-eq a b h = ground arith

-- What a byte, a written bit and a read bit must satisfy.
set_ok : ℕ → ℕ → ℕ → Bool
set_ok b k j = same (bit_test (bit_set b k) j) (if k == j then true else bit_test b j)

clear_ok : ℕ → ℕ → ℕ → Bool
clear_ok b k j = same (bit_test (bit_clear b k) j) (if k == j then false else bit_test b j)

range_ok : ℕ → ℕ → Bool
range_ok b k = ltb (bit_set b k) 256 && ltb (bit_clear b k) 256

set_table : holds_under (λ b. holds_under (λ k. holds_under (λ j. set_ok b k j) 8) 8) 256 ≡ true
unfolding holds_under set_ok bit_test bit_set
set_table = refl

clear_table : holds_under (λ b. holds_under (λ k. holds_under (λ j. clear_ok b k j) 8) 8) 256 ≡ true
unfolding holds_under clear_ok bit_test bit_clear
clear_table = refl

range_table : holds_under (λ b. holds_under (λ k. range_ok b k) 8) 256 ≡ true
unfolding holds_under range_ok bit_set bit_clear
range_table = refl

full_table : holds_under (λ k. bit_test 255 k) 8 ≡ true
unfolding holds_under bit_test
full_table = refl

pub bit_test_full : (k : ℕ) → k < 8 → bit_test 255 k ≡ true
bit_test_full k h = holds_under_at _ 8 full_table k h

module _ {b k : ℕ} (hb : b < 256) (hk : k < 8) where
  pub bit_test-bit_set :
      (j : ℕ) → j < 8 → bit_test (bit_set b k) j ≡ (if k == j then true else bit_test b j)
  unfolding set_ok
  bit_test-bit_set j hj =
      same-eq _ _
        (holds_under_at _ 8 (holds_under_at _ 8 (holds_under_at _ 256 set_table b hb) k hk) j hj)

  pub bit_test-bit_clear :
      (j : ℕ) → j < 8 → bit_test (bit_clear b k) j ≡ (if k == j then false else bit_test b j)
  unfolding clear_ok
  bit_test-bit_clear j hj =
      same-eq _ _
        (holds_under_at _ 8 (holds_under_at _ 8 (holds_under_at _ 256 clear_table b hb) k hk) j hj)

  range_ok_at : range_ok b k ≡ true
  range_ok_at = holds_under_at _ 8 (holds_under_at _ 256 range_table b hb) k hk

  pub bit_set-lt : bit_set b k < 256
  unfolding range_ok
  bit_set-lt = let r = range_ok_at in ground arith

  pub bit_clear-lt : bit_clear b k < 256
  unfolding range_ok
  bit_clear-lt = let r = range_ok_at in ground arith
