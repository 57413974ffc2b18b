-- ===== src/Common/Bits.antt =====
-- `a | b` and `a & b` digit by digit: what a page's address and its flags keep of each other.
use Prim.Native.Nat.{
  ℕ, zero, suc, ◌+◌, ◌*◌, ◌/◌, ◌%◌, ◌≤◌, ◌<◌, max, bit_or, bit_or-bitwise, digits,
}
use mathlib.Core.Path.{◌≡◌, refl, ap}
use native.Mathlib.Omega.{arith}

-- Fuel past the number changes nothing.
digits_fuel :
    (z : ℕ → ℕ) (f : ℕ → ℕ → ℕ) (n m a b : ℕ) → a ≤ n → a ≤ m → digits z f n a b ≡ digits z f m a b
digits_fuel z f zero zero a b hn hm = refl
digits_fuel z f zero (suc m) zero b hn hm = refl
digits_fuel z f zero (suc m) (suc a) b hn hm = absurd (omega (arith, hn))
digits_fuel z f (suc n) zero zero b hn hm = refl
digits_fuel z f (suc n) zero (suc a) b hn hm = absurd (omega (arith, hm))
digits_fuel z f (suc n) (suc m) zero b hn hm = refl
digits_fuel z f (suc n) (suc m) (suc a) b hn hm =
    ap (λ r. r * 2 + f (suc a % 2) (b % 2))
      (digits_fuel z f n m (suc a / 2) (b / 2) (omega (arith, hn)) (omega (arith, hm)))

bit_or-digits : (a b : ℕ) → bit_or a b ≡ digits (λ b. b) max a a b
bit_or-digits a b = λ i. bit_or-bitwise a b i

digits-step :
    (a b : ℕ)
    → digits (λ b. b) max a a b
      ≡ digits (λ b. b) max (a / 2) (a / 2) (b / 2) * 2 + max (a % 2) (b % 2)
digits-step zero b = omega arith
digits-step (suc a) b =
    ap (λ r. r * 2 + max (suc a % 2) (b % 2))
      (digits_fuel (λ b. b) max a (suc a / 2) (suc a / 2) (b / 2) (omega arith) (omega arith))

-- The last digit, and the others.
bit_or-step : (a b : ℕ) → bit_or a b ≡ bit_or (a / 2) (b / 2) * 2 + max (a % 2) (b % 2)
bit_or-step a b = omega (arith, bit_or-digits a b, bit_or-digits (a / 2) (b / 2), digits-step a b)

pub bit_or-mod : (a b : ℕ) → bit_or a b % 2 ≡ max (a % 2) (b % 2)
bit_or-mod a b = omega (arith, bit_or-step a b)

bit_or_zero : (n a : ℕ) → a ≤ n → bit_or a 0 ≡ a
bit_or_zero zero a h =
    let none_left : a ≡ 0 = omega (arith, h) in
    omega (arith, bit_or-digits a 0, ap (λ x. digits (λ b. b) max x x 0) none_left)
bit_or_zero (suc n) a h = omega (arith, bit_or-step a 0, bit_or_zero n (a / 2) (omega arith))

pub bit_or-zero : (a : ℕ) → bit_or a 0 ≡ a
bit_or-zero a = bit_or_zero a a (omega arith)

-- All but the last `k` digits, and `k` digits more.
abbrev halved : ℕ → ℕ → ℕ
halved zero a = a
halved (suc k) a = halved k (a / 2)

abbrev doubled : ℕ → ℕ → ℕ
doubled zero a = a
doubled (suc k) a = doubled k a * 2

bit_or-half : (a b : ℕ) → bit_or a b / 2 ≡ bit_or (a / 2) (b / 2)
bit_or-half a b = omega (arith, bit_or-step a b)

bit_or-halved : (k a b : ℕ) → halved k b ≡ 0 → halved k (bit_or a b) ≡ halved k a
bit_or-halved zero a b h = rw h (bit_or-zero a)
bit_or-halved (suc k) a b h = rw (bit_or-half a b) (bit_or-halved k (a / 2) (b / 2) h)

bit_or-doubled : (k a b : ℕ) → halved k b ≡ 0 → bit_or (doubled k a) b ≡ doubled k a + b
bit_or-doubled zero a b h = omega (arith, h, ap (bit_or a) h, bit_or-zero a)
bit_or-doubled (suc k) a b h =
    let half : doubled k a * 2 / 2 ≡ doubled k a = omega arith in
    omega (
      arith,
      bit_or-step (doubled k a * 2) b,
      ap (λ x. bit_or x (b / 2)) half,
      bit_or-doubled k a (b / 2) h,
    )

-- For pages of 4096 bytes: flags below a page's size do not change the page, and an offset adds up.
pub bit_or-page : (a flags : ℕ) → flags < 4096 → bit_or a flags / 4096 ≡ a / 4096
bit_or-page a flags small =
    let none_left : halved 12 flags ≡ 0 = omega (arith, small) in
    omega (arith, bit_or-halved 12 a flags none_left)

pub bit_or-offset : (a offset : ℕ) → offset < 4096 → bit_or (a * 4096) offset ≡ a * 4096 + offset
bit_or-offset a offset small =
    let none_left : halved 12 offset ≡ 0 = omega (arith, small) in
    let same : doubled 12 a ≡ a * 4096 = omega arith in
    rw same at (bit_or-doubled 12 a offset none_left)
