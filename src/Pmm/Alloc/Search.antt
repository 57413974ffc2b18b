-- ===== src/Pmm/Alloc/Search.antt =====
-- The search loops of `pmm_alloc` and `pmm_alloc_pages`.
use blackmount.Common.{
  ℕ, zero, suc, ◌+◌, ◌≤◌, ◌<◌, ◌≡◌, refl, sym, subst, ◌⊎◌, inl, inr, Bool, true, false, List,
  Option, none, some, ◌==◌, ==_iff, if◌then◌else◌, Bool-cases, arith,
}
use blackmount.Pmm.{bitmap_test, find_free, find_run}

-- The `count` pages from `s` on are all free.
abbrev pub IsRun : (ℕ → Bool) → ℕ → ℕ → Type 0
IsRun used s count = (q : ℕ) → s ≤ q → q < s + count → used q ≡ false

-- A search for `count` pages below `total` returns the lowest run, or `none` if there is none.
abbrev pub Found : (ℕ → Bool) → ℕ → ℕ → Option ℕ → Type 0
Found used count total none = (s : ℕ) → s + count ≤ total → ¬ IsRun used s count
Found used count total (some s) =
    (s + count ≤ total) × IsRun used s count × ((t : ℕ) → t < s → ¬ IsRun used t count)

find_free_from-Found :
    (n : ℕ) (bm : List ℕ) (i total : ℕ)
    → i + n ≡ total
    → ((t : ℕ) → t < i → ¬ IsRun (bitmap_test bm) t 1)
    → Found (bitmap_test bm) 1 total (find_free bm i n)
unfolding find_free
find_free_from-Found zero bm i total e below = λ s h. below s (omega arith)
find_free_from-Found (suc n) bm i total e below = elim (Bool-cases (bitmap_test bm i)) [
  | inl used ↦ rw used (
      find_free_from-Found n bm (i + 1) total (omega arith)
        (λ t h run. ground (arith, below t, run i)))
  | inr free ↦ rw free (omega arith, (λ q lo hi. ground (arith, free)), below)
]

pub find_free-Found :
    (bm : List ℕ) (total : ℕ) → Found (bitmap_test bm) 1 total (find_free bm 0 total)
find_free-Found bm total =
    find_free_from-Found total bm 0 total (omega arith) (λ t h. absurd (omega arith))

-- The three ways of one round of the loop.
module _ (bm : List ℕ) (count found start i n : ℕ) where
  find_run_used :
      bitmap_test bm i ≡ true
      → find_run bm count found start i (suc n) ≡ find_run bm count 0 start (i + 1) n
  unfolding find_run
  find_run_used h = rw (h, find_run)

  find_run_last :
      bitmap_test bm i ≡ false
      → found + 1 ≡ count
      → find_run bm count found start i (suc n) ≡ some (if found == 0 then i else start)
  unfolding find_run
  find_run_last h e = rw (h, (==_iff (found + 1) count).1 e, find_run)

  find_run_more :
      bitmap_test bm i ≡ false
      → ((found + 1 == count) ≡ false)
      → find_run bm count found start i (suc n)
        ≡ find_run bm count (found + 1) (if found == 0 then i else start) (i + 1) n
  unfolding find_run
  find_run_more h e = rw (h, e, find_run)

-- `found` free pages from `b` on lie before `i`, and no run starts before `b`.
find_run_from-Found :
    (n : ℕ) (bm : List ℕ) (count found start i b total : ℕ)
    → i + n ≡ total
    → b + found ≡ i
    → found < count
    → (found ≡ 0) ⊎ (start ≡ b)
    → IsRun (bitmap_test bm) b found
    → ((t : ℕ) → t < b → ¬ IsRun (bitmap_test bm) t count)
    → Found (bitmap_test bm) count total (find_run bm count found start i n)
unfolding find_run
find_run_from-Found zero bm count found start i b total e eb few st run below =
    λ s h. below s (omega arith)
find_run_from-Found (suc n) bm count found start i b total e eb few st run below =
    elim (Bool-cases (bitmap_test bm i)) [
      | inl used ↦
          subst (Found (bitmap_test bm) count total)
            (sym (find_run_used bm count found start i n used))
            (find_run_from-Found n bm count 0 start (i + 1) (i + 1) total (omega arith)
              (omega arith) (omega arith) (inl refl) (λ q lo hi. absurd (omega arith))
              (λ t h r. ground (arith, below t, r i)))
      | inr free ↦ elim (Bool-cases (found + 1 == count)) [
        | inl last ↦
            let lastly : found + 1 ≡ count = (==_iff (found + 1) count).0 last in
            let at_b : (if found == 0 then i else start) ≡ b = ground arith in
            subst (Found (bitmap_test bm) count total)
              (sym (find_run_last bm count found start i n free lastly))
              (rw at_b (omega arith, (λ q lo hi. ground (arith, run q)), below))
        | inr more ↦
            subst (Found (bitmap_test bm) count total)
              (sym (find_run_more bm count found start i n free more))
              (find_run_from-Found n bm count (found + 1) (if found == 0 then i else start) (i + 1)
                b total (omega arith) (omega arith) (ground arith) (inr (ground arith))
                (λ q lo hi. ground (arith, run q)) below)
      ]
    ]

pub find_run-Found :
    (bm : List ℕ) (count total : ℕ)
    → 0 < count
    → Found (bitmap_test bm) count total (find_run bm count 0 0 0 total)
find_run-Found bm count total h =
    find_run_from-Found total bm count 0 0 0 0 total (omega arith) (omega arith) h (inl refl)
      (λ q lo hi. absurd (omega arith)) (λ t k. absurd (omega arith))
