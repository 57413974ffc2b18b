-- ===== src/Heap/Walk.antt =====
-- The loops along the chain end, and what they find.
use blackmount.Common.{
  ℕ, zero, suc, ◌+◌, ◌≤◌, ◌<◌, ◌≡◌, refl, ◌∙◌, inl, inr, true, false, List, [], ◌∷◌, Option, some,
  length, leb, ◌==◌, ◌&&◌, Bool-cases, arith,
}
use blackmount.Heap.{Store, block_magic, block_header, malloc_walk, carve, find_previous}
use blackmount.Heap.Chain.{Chain, On}

-- The first free block with at least `n` bytes, if there is one.
abbrev pub Fits : Store → ℕ → ℕ → Type 0
Fits s n x = ((s x).is_free ≡ true) × (n ≤ (s x).size)

pub data Search (s : Store) (n a : ℕ) (bs : List ℕ) (r : Option (ℕ × Store)) : Type 0 where
  found :
      (x : ℕ)
      → On x a bs
      → Fits s n x
      → r ≡ some (x + block_header, carve s x n)
      → Search s n a bs r
  missing : ((x : ℕ) → On x a bs → ¬ Fits s n x) → r ≡ some (0, s) → Search s n a bs r

==-eq-false : (a : ℕ) → 0 < a → (a == 0) ≡ false
==-eq-false a pos = ground arith

-- A block that does not fit is passed over.
malloc_walk_next :
    (fuel : ℕ) (s : Store) (a b n : ℕ)
    → 0 < a
    → (s a).magic ≡ block_magic
    → (s a).next ≡ b
    → ((s a).is_free && leb n (s a).size) ≡ false
    → malloc_walk (suc fuel) s a n ≡ malloc_walk fuel s b n
unfolding malloc_walk
malloc_walk_next fuel s a b n pos magic next no_fit = rw (==-eq-false a pos, magic, no_fit, next)

-- With more fuel than blocks the loop of `kmalloc` ends, and fails only if no block fits.
pub malloc_walk-Search :
    (fuel : ℕ) (s : Store) (fin a n : ℕ) (bs : List ℕ)
    → Chain s fin a bs
    → length bs + 2 ≤ fuel
    → Search s n a bs (malloc_walk fuel s a n)
unfolding malloc_walk
malloc_walk-Search zero s fin a n bs c enough = absurd (omega arith)
malloc_walk-Search (suc zero) s fin a n bs c enough = absurd (omega arith)
malloc_walk-Search (suc (suc fuel)) s fin a n [] c enough =
    elim (Bool-cases ((s a).is_free && leb n (s a).size)) [
      | inl fits ↦ found a refl (ground arith, ground arith) (ground arith)
      | inr no_fit ↦ missing (λ x o f. ground arith) (ground arith)
    ]
malloc_walk-Search (suc (suc fuel)) s fin a n (b ∷ bs) c enough =
    elim (Bool-cases ((s a).is_free && leb n (s a).size)) [
      | inl fits ↦ found a (inl refl) (ground arith, ground arith) (ground arith)
      | inr no_fit ↦ elim (malloc_walk-Search (suc fuel) s fin b n bs c.4 (omega arith)) [
        | found x o f e ↦
            found x (inr o) f (malloc_walk_next (suc fuel) s a b n c.0 c.1 c.2 no_fit ∙ e)
        | missing none_fit e ↦
            missing (λ x o f. elim o [ inl first ↦ ground arith | inr later ↦ none_fit x later f ])
              (malloc_walk_next (suc fuel) s a b n c.0 c.1 c.2 no_fit ∙ e)
      ]
    ]

-- The last block before `x`, or null if `x` is the first one.
pub data Previous (s : Store) (a : ℕ) (bs : List ℕ) (x : ℕ) (r : Option ℕ) : Type 0 where
  first : r ≡ some 0 → Previous s a bs x r
  before : (y : ℕ) → On y a bs → (s y).next ≡ x → r ≡ some y → Previous s a bs x r

find_previous_next :
    (fuel : ℕ) (s : Store) (a b x : ℕ)
    → 0 < a
    → (s a).next ≡ b
    → ((s a).next == x) ≡ false
    → find_previous (suc fuel) s a x ≡ find_previous fuel s b x
unfolding find_previous
find_previous_next fuel s a b x pos next miss = rw (==-eq-false a pos, miss, next)

pub find_previous-Previous :
    (fuel : ℕ) (s : Store) (fin a x : ℕ) (bs : List ℕ)
    → Chain s fin a bs
    → length bs + 2 ≤ fuel
    → Previous s a bs x (find_previous fuel s a x)
unfolding find_previous
find_previous-Previous zero s fin a x bs c enough = absurd (omega arith)
find_previous-Previous (suc zero) s fin a x bs c enough = absurd (omega arith)
find_previous-Previous (suc (suc fuel)) s fin a x [] c enough =
    elim (Bool-cases ((s a).next == x)) [
      | inl hit ↦ before a refl (ground arith) (ground arith)
      | inr miss ↦ first (ground arith)
    ]
find_previous-Previous (suc (suc fuel)) s fin a x (b ∷ bs) c enough =
    elim (Bool-cases ((s a).next == x)) [
      | inl hit ↦ before a (inl refl) (ground arith) (ground arith)
      | inr miss ↦ elim (find_previous-Previous (suc fuel) s fin b x bs c.4 (omega arith)) [
        | first e ↦ first (find_previous_next (suc fuel) s a b x c.0 c.2 miss ∙ e)
        | before y o n e ↦
            before y (inr o) n (find_previous_next (suc fuel) s a b x c.0 c.2 miss ∙ e)
      ]
    ]
