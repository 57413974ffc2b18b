-- ===== src/Pmm/Count.antt =====
-- How many pages below a bound are used.
use blackmount.Common.{
  ℕ, zero, suc, ◌+◌, ◌≤◌, ◌<◌, ◌≡◌, refl, Bool, true, false, ltb, ◌==◌, if◌then◌else◌, arith,
}

unfoldable pub count : (ℕ → Bool) → ℕ → ℕ
count f zero = 0
count f (suc n) = (if f n then 1 else 0) + count f n

pub count-le : (f : ℕ → Bool) (n : ℕ) → count f n ≤ n
unfolding count
count-le f zero = omega arith
count-le f (suc n) = ground (arith, count-le f n)

pub count-congr : (f g : ℕ → Bool) (n : ℕ) → ((i : ℕ) → i < n → f i ≡ g i) → count f n ≡ count g n
unfolding count
count-congr f g zero h = refl
count-congr f g (suc n) h =
    ground (arith, h n (omega arith), count-congr f g n (λ i hi. h i (omega arith)))

-- `g` is `f` with `k` added.
pub count_add :
    (f g : ℕ → Bool) (k n : ℕ)
    → ((i : ℕ) → g i ≡ (if k == i then true else f i))
    → f k ≡ false
    → count g n ≡ count f n + (if ltb k n then 1 else 0)
unfolding count
count_add f g k zero h hk = ground arith
count_add f g k (suc n) h hk = ground (arith, h n, count_add f g k n h hk)

pub count_none : (f : ℕ → Bool) (n : ℕ) → ((i : ℕ) → i < n → f i ≡ false) → count f n ≡ 0
unfolding count
count_none f zero h = refl
count_none f (suc n) h =
    ground (arith, h n (omega arith), count_none f n (λ i hi. h i (omega arith)))

pub count_all : (f : ℕ → Bool) (n : ℕ) → ((i : ℕ) → i < n → f i ≡ true) → count f n ≡ n
unfolding count
count_all f zero h = refl
count_all f (suc n) h = ground (arith, h n (omega arith), count_all f n (λ i hi. h i (omega arith)))
