-- ===== src/Users/Hex.antt =====
-- Bytes as hexadecimal digits in user.c: `hexc`, `hex_byte` and the loops that use them.
use blackmount.Common.{
  ℕ, zero, suc, ◌+◌, ◌-◌, ◌*◌, ◌/◌, ◌%◌, ◌<◌, ◌≡◌, refl, ap₂, bit_or, Bool, true, List, [], ◌∷◌,
  ◌++◌, length, get_or, All, leb, ◌==◌, ◌&&◌, if◌then◌else◌, inl, inr, Bool-cases, arith,
}

-- "0123456789abcdef"
abbrev pub hexc : List ℕ
hexc = 48 ∷ 49 ∷ 50 ∷ 51 ∷ 52 ∷ 53 ∷ 54 ∷ 55 ∷ 56 ∷ 57 ∷ 97 ∷ 98 ∷ 99 ∷ 100 ∷ 101 ∷ 102 ∷ []

-- `hexc[b >> 4]` and `hexc[b & 0xf]` for each byte.
unfoldable pub to_hex : List ℕ → List ℕ
to_hex [] = []
to_hex (b ∷ bs) = get_or hexc (b / 16) 0 ∷ get_or hexc (b % 16) 0 ∷ to_hex bs

-- The digit that a character stands for; another character adds nothing.
unfoldable pub hex_digit : ℕ → ℕ
hex_digit c =
    if leb 48 c && leb c 57
    then c - 48
    else if leb 97 c && leb c 102
    then c - 97 + 10
    else if leb 65 c && leb c 70
    then c - 65 + 10
    else 0

unfoldable pub hex_byte : ℕ → ℕ → ℕ
unfolding hex_digit
hex_byte c d = let v = bit_or 0 (hex_digit c) in bit_or (v * 16 % 256) (hex_digit d)

-- The bytes that `n` pairs of characters stand for.
unfoldable pub from_hex : ℕ → List ℕ → List ℕ
unfolding hex_byte hex_digit
from_hex zero s = []
from_hex (suc n) [] = hex_byte 0 0 ∷ from_hex n []
from_hex (suc n) (c ∷ []) = hex_byte c 0 ∷ from_hex n []
from_hex (suc n) (c ∷ d ∷ s) = hex_byte c d ∷ from_hex n s

same_byte : ℕ → Bool
unfolding hex_byte hex_digit
same_byte b = hex_byte (get_or hexc (b / 16) 0) (get_or hexc (b % 16) 0) == b

same_below : ℕ → Bool
same_below zero = true
same_below (suc n) = same_byte n && same_below n

same_below_at : (n b : ℕ) → same_below n ≡ true → b < n → same_byte b ≡ true
unfolding same_below
same_below_at zero b e lt = absurd (omega arith)
same_below_at (suc n) b e lt = elim (Bool-cases (b == n)) [
  | inl here ↦ let same : b ≡ n = ground (arith, here) in rw same (ground (arith, e))
  | inr below ↦ same_below_at n b (ground (arith, e)) (ground (arith, below, lt))
]

all_bytes : same_below 256 ≡ true
unfolding same_below same_byte hex_byte hex_digit
all_bytes = refl

hex_byte-to_hex : (b : ℕ) → b < 256 → hex_byte (get_or hexc (b / 16) 0) (get_or hexc (b % 16) 0) ≡ b
unfolding same_byte
hex_byte-to_hex b small = let h = same_below_at 256 b all_bytes small in ground (arith, h)

abbrev pub IsByte : ℕ → Type 0
IsByte b = b < 256

-- Bytes come back from their digits, whatever follows these.
pub from_hex-to_hex : (bs s : List ℕ) → All IsByte bs → from_hex (length bs) (to_hex bs ++ s) ≡ bs
unfolding from_hex to_hex
from_hex-to_hex [] s h = refl
from_hex-to_hex (b ∷ bs) s h = ap₂ ◌∷◌ (hex_byte-to_hex b h.0) (from_hex-to_hex bs s h.1)

pub length-to_hex : (bs : List ℕ) → length (to_hex bs) ≡ length bs + length bs
unfolding to_hex
length-to_hex [] = refl
length-to_hex (b ∷ bs) = omega (arith, length-to_hex bs)
