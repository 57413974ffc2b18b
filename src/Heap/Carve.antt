-- ===== src/Heap/Carve.antt =====
-- What marking, splitting and carving a block do to the chain and to the allocations.
use blackmount.Common.{
  ℕ, ◌+◌, ◌%◌, ◌≤◌, ◌<◌, ◌≡◌, refl, sym, subst, ◌⊎◌, inl, inr, Bool, true, false, List, [], ◌∷◌,
  none, some, leb, ◌==◌, if◌then◌else◌, Bool-cases, arith,
}
use blackmount.Heap.{Store, block_header, u64_mod, set_free, split, carve}
use blackmount.Heap.Chain.{
  Chain, On, allocation, On-bounds, Chain-congr, allocation-congr, allocation-below,
}

-- Marks do not move blocks.
pub Chain-set_free :
    (s : Store) (x : ℕ) (free : Bool) (fin a : ℕ) (bs : List ℕ)
    → Chain s fin a bs
    → Chain (set_free s x free) fin a bs
unfolding set_free
Chain-set_free s x free fin a [] c = ground arith
Chain-set_free s x free fin a (b ∷ bs) c =
    (c.0, ground arith, ground arith, ground arith, Chain-set_free s x free fin b bs c.4)

set_free_ne : (s : Store) (x : ℕ) (free : Bool) (q : ℕ) → x < q → set_free s x free q ≡ s q
unfolding set_free
set_free_ne s x free q h = ground arith

-- Marking a block changes the meaning of the pointer to its payload, and of no other pointer.
pub allocation-set_free :
    (s : Store) (x : ℕ) (free : Bool) (fin a : ℕ) (bs : List ℕ)
    → Chain s fin a bs
    → On x a bs
    → (p : ℕ)
    → allocation (set_free s x free) a bs p ≡ (
        if p == x + block_header
        then (if free then none else some (s x).size)
        else allocation s a bs p)
unfolding allocation set_free
allocation-set_free s x free fin a [] c o p = ground arith
allocation-set_free s x free fin a (b ∷ bs) c (inl e) p =
    let t : Store = set_free s x free in
    let same : (q : ℕ) → b ≤ q → t q ≡ s q = λ q h. set_free_ne s x free q (omega arith) in
    ground (arith, allocation-congr s t fin b bs same c.4 p, allocation-below s fin b bs c.4 p)
allocation-set_free s x free fin a (b ∷ bs) c (inr o) p =
    ground (arith, allocation-set_free s x free fin b bs c.4 o p, On-bounds s fin b x bs c.4 o)

-- A chain that the new headers leave in order, with the same allocations.
abbrev pub Keeps : Store → Store → ℕ → ℕ → List ℕ → ℕ → Type 0
Keeps s t fin a bs x =
    (cs : List ℕ) × Chain t fin a cs
    × On x a cs
    × ((p : ℕ) → allocation t a cs p ≡ allocation s a bs p)

split_ne : (s : Store) (x n q : ℕ) → (q < x) ⊎ (x + block_header + n < q) → split s x n q ≡ s q
unfolding split
split_ne s x n q h = ground arith

module _ (s : Store) (n fin : ℕ) where
  split_head_last :
      (a : ℕ)
      → Chain s fin a []
      → n + block_header ≤ (s a).size
      → (s a).is_free ≡ true
      → Keeps s (split s a n) fin a [] a
  unfolding split allocation
  split_head_last a c fits free = (
    (a + block_header + n) ∷ [],
    (ground arith, ground arith, ground arith, ground arith, ground arith),
    inl refl,
    λ p. ground arith,
  )

  split_head :
      (a b : ℕ) (bs : List ℕ)
      → Chain s fin a (b ∷ bs)
      → n + block_header ≤ (s a).size
      → (s a).is_free ≡ true
      → Keeps s (split s a n) fin a (b ∷ bs) a
  unfolding split allocation
  split_head a b bs c fits free =
      let t : Store = split s a n in
      let same : (q : ℕ) → b ≤ q → t q ≡ s q = λ q h. split_ne s a n q (inr (omega arith)) in
      (
        (a + block_header + n) ∷ b ∷ bs,
        (
          c.0,
          ground arith,
          ground arith,
          ground arith,
          (
            ground arith,
            ground arith,
            ground arith,
            ground arith,
            Chain-congr s t fin b bs same c.4,
          ),
        ),
        inl refl,
        λ p. ground (arith, allocation-congr s t fin b bs same c.4 p),
      )

  -- Splitting a free block keeps the chain in order and the allocations as they are.
  pub split-Keeps :
      (x a : ℕ) (bs : List ℕ)
      → Chain s fin a bs
      → On x a bs
      → n + block_header ≤ (s x).size
      → (s x).is_free ≡ true
      → Keeps s (split s x n) fin a bs x
  unfolding allocation
  split-Keeps x a [] c e fits free =
      subst (λ y. Keeps s (split s y n) fin a [] y) (sym e)
        (split_head_last a c (rw e at fits) (rw e at free))
  split-Keeps x a (b ∷ bs) c (inl e) fits free =
      subst (λ y. Keeps s (split s y n) fin a (b ∷ bs) y) (sym e)
        (split_head a b bs c (rw e at fits) (rw e at free))
  split-Keeps x a (b ∷ bs) c (inr o) fits free =
      let (cs, k, on, same) = split-Keeps x b bs c.4 o fits free in
      let here : split s x n a ≡ s a =
        split_ne s x n a (inl (omega (arith, On-bounds s fin b x bs c.4 o))) in
      (b ∷ cs, rw here (c.0, c.1, c.2, c.3, k), inr on, λ p. rw (here, same p))

size-set_free : (s : Store) (x : ℕ) (free : Bool) → (set_free s x free x).size ≡ (s x).size
unfolding set_free
size-set_free s x free = ground arith

-- The block at `x` is in use, with at least `n` bytes, and its payload is the only new allocation.
pub record Took (s t : Store) (fin a : ℕ) (bs : List ℕ) (x n : ℕ) : Type 0 where
  pub blocks : List ℕ
  pub chain : Chain t fin a blocks
  pub on : On x a blocks
  pub fits : n ≤ (t x).size
  pub used : (t x).is_free ≡ false
  pub allocated :
      (p : ℕ)
      → allocation t a blocks p
        ≡ (if p == x + block_header then some (t x).size else allocation s a bs p)

use_block :
    (s : Store) (n fin x a : ℕ) (bs : List ℕ) (t : Store)
    → Keeps s t fin a bs x
    → n ≤ (t x).size
    → Took s (set_free t x false) fin a bs x n
use_block s n fin x a bs t (cs, c, o, same) fits = record {
  blocks = cs;
  chain = Chain-set_free t x false fin a cs c;
  on = o;
  fits = rw (size-set_free t x false) fits;
  used = unfold set_free in ground arith;
  allocated = λ p.
      ground (arith, allocation-set_free t x false fin a cs c o p, size-set_free t x false, same p);
}

-- `kmalloc` takes `n` bytes of the free block at `x`, the rest of which stays free if it can hold a
-- block.
pub carve_lem :
    (s : Store) (n fin x a : ℕ) (bs : List ℕ)
    → fin ≤ u64_mod
    → 64 ≤ a
    → Chain s fin a bs
    → On x a bs
    → n ≤ (s x).size
    → (s x).is_free ≡ true
    → Took s (carve s x n) fin a bs x n
unfolding carve
carve_lem s n fin x a bs small high c o fits free =
    elim (Bool-cases (leb ((n + block_header + 16) % u64_mod) (s x).size)) [
      | inr tight ↦ rw tight (use_block s n fin x a bs s (bs, c, o, λ p. refl) fits)
      | inl room ↦ rw room (
          use_block s n fin x a bs (split s x n)
            (split-Keeps s n fin x a bs c o (ground (arith, On-bounds s fin a x bs c o)) free)
            (unfold split in ground arith))
    ]
