-- ===== src/Common/Int.antt =====
-- The C type `int`: identifiers and results, of which -1 is the usual error.
use Prim.Native.Nat.{ℕ}
use mathlib.Core.Path.{◌≡◌, ap}
use mathlib.Core.Bool.{Bool, true, false}

-- `negsuc n` is -(n + 1).
pub data ℤ : Type 0 where
  pos : ℕ → ℤ
  negsuc : ℕ → ℤ

abbrev pub minus_one : ℤ
minus_one = negsuc 0

abbrev pub is_negative : ℤ → Bool
is_negative (pos n) = false
is_negative (negsuc n) = true

-- The number behind `pos`; it does not matter what a negative one gives.
abbrev number_of : ℤ → ℕ
number_of (pos n) = n
number_of (negsuc n) = n

pub pos_inj : (a b : ℕ) → pos a ≡ pos b → a ≡ b
pos_inj a b e = ap number_of e
