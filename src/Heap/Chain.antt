-- ===== src/Heap/Chain.antt =====
-- The chain of blocks: its addresses, that it fills the heap without gaps, and the allocations that
-- it holds.
use blackmount.Common.{
  ℕ, ◌+◌, ◌*◌, ◌≤◌, ◌<◌, ◌≡◌, refl, ◌⊎◌, inl, inr, false, List, [], ◌∷◌, Option, none, some, length,
  ◌==◌, ◌&&◌, not, if◌then◌else◌, Bool-cases, arith,
}
use blackmount.Heap.{Store, block_magic, block_header}

-- From the block at `a` on, with those at `bs` behind it, each block ends where the next one starts,
-- and the last one ends at `fin`.
abbrev pub Chain : Store → ℕ → ℕ → List ℕ → Type 0
Chain s fin a [] =
    (0 < a) × ((s a).magic ≡ block_magic) × ((s a).next ≡ 0) × (a + block_header + (s a).size ≡ fin)
Chain s fin a (b ∷ bs) =
    (0 < a)
    × ((s a).magic ≡ block_magic)
    × ((s a).next ≡ b)
    × (a + block_header + (s a).size ≡ b)
    × Chain s fin b bs

-- `x` is one of the blocks.
abbrev pub On : ℕ → ℕ → List ℕ → Type 0
On x a [] = x ≡ a
On x a (b ∷ bs) = (x ≡ a) ⊎ On x b bs

-- The size of the allocation that a pointer stands for, if it is one.
abbrev pub holds : Store → ℕ → ℕ → Option ℕ
holds s a p = if (p == a + block_header) && not (s a).is_free then some (s a).size else none

unfoldable pub allocation : Store → ℕ → List ℕ → ℕ → Option ℕ
allocation s a [] p = holds s a p
allocation s a (b ∷ bs) p =
    if (p == a + block_header) && not (s a).is_free then some (s a).size else allocation s b bs p

pub Chain-head :
    (s : Store) (fin a : ℕ) (bs : List ℕ) → Chain s fin a bs → a + block_header + (s a).size ≤ fin
Chain-head s fin a [] c = omega arith
Chain-head s fin a (b ∷ bs) c = omega (arith, Chain-head s fin b bs c.4)

pub On-bounds :
    (s : Store) (fin a x : ℕ) (bs : List ℕ)
    → Chain s fin a bs
    → On x a bs
    → (a ≤ x) × (x + block_header + (s x).size ≤ fin) × (0 < x) × ((s x).magic ≡ block_magic)
On-bounds s fin a x [] c o = rw o (omega arith, omega arith, c.0, c.1)
On-bounds s fin a x (b ∷ bs) c (inl e) = rw e (omega arith, Chain-head s fin a (b ∷ bs) c, c.0, c.1)
On-bounds s fin a x (b ∷ bs) c (inr o) =
    let r = On-bounds s fin b x bs c.4 o in (omega arith, r.1, r.2, r.3)

-- Every block takes at least its header, so the size of the heap bounds their number.
pub Chain-length :
    (s : Store) (fin a : ℕ) (bs : List ℕ)
    → Chain s fin a bs
    → a + block_header * (length bs + 1) ≤ fin
Chain-length s fin a [] c = omega arith
Chain-length s fin a (b ∷ bs) c = omega (arith, Chain-length s fin b bs c.4)

-- The chain from `a` on reads no header below `a`.
pub Chain-congr :
    (s t : Store) (fin a : ℕ) (bs : List ℕ)
    → ((q : ℕ) → a ≤ q → t q ≡ s q)
    → Chain s fin a bs
    → Chain t fin a bs
Chain-congr s t fin a [] same c = rw (same a (omega arith)) c
Chain-congr s t fin a (b ∷ bs) same c =
    rw (same a (omega arith))
      (c.0, c.1, c.2, c.3, Chain-congr s t fin b bs (λ q h. same q (omega arith)) c.4)

pub allocation-congr :
    (s t : Store) (fin a : ℕ) (bs : List ℕ)
    → ((q : ℕ) → a ≤ q → t q ≡ s q)
    → Chain s fin a bs
    → (p : ℕ) → allocation t a bs p ≡ allocation s a bs p
unfolding allocation
allocation-congr s t fin a [] same c p = rw (same a (omega arith))
allocation-congr s t fin a (b ∷ bs) same c p =
    rw (same a (omega arith), allocation-congr s t fin b bs (λ q h. same q (omega arith)) c.4 p)

-- A pointer below the first payload stands for nothing.
pub allocation-below :
    (s : Store) (fin a : ℕ) (bs : List ℕ)
    → Chain s fin a bs
    → (p : ℕ) → p < a + block_header
    → allocation s a bs p ≡ none
unfolding allocation
allocation-below s fin a [] c p h = ground arith
allocation-below s fin a (b ∷ bs) c p h =
    ground (arith, allocation-below s fin b bs c.4 p (omega arith))

-- A pointer that stands for an allocation lies behind the header of a block in use.
pub allocation-On :
    (s : Store) (a : ℕ) (bs : List ℕ) (p n : ℕ)
    → allocation s a bs p ≡ some n
    → (x : ℕ) × On x a bs × (p ≡ x + block_header) × ((s x).is_free ≡ false) × ((s x).size ≡ n)
unfolding allocation
allocation-On s a [] p n e = (a, refl, ground arith, ground arith, ground arith)
allocation-On s a (b ∷ bs) p n e =
    elim (Bool-cases ((p == a + block_header) && not (s a).is_free)) [
      | inl hit ↦ (a, inl refl, ground arith, ground arith, ground arith)
      | inr miss ↦ let r = allocation-On s b bs p n (rw miss at e) in (r.0, inr r.1, r.2, r.3, r.4)
    ]
