-- ===== src/Heap/Malloc.antt =====
-- `kmalloc` on a valid heap.
use blackmount.Common.{
  ℕ, ◌+◌, ◌*◌, ◌≤◌, ◌<◌, ◌≡◌, ◌≢◌, refl, ap, ◌∙◌, inl, inr, Bool, true, false, List, [], Option,
  none, some, length, Option-cases, arith,
}
use blackmount.Heap.{
  Store, Heap, block_header, u64_mod, default_heap_size, align, init_heap, malloc_walk, with_store,
  carve, kmalloc,
}
use blackmount.Heap.Chain.{Chain, On, allocation, On-bounds, Chain-length, allocation-On}
use blackmount.Heap.Carve.{carve_lem}
use blackmount.Heap.Walk.{Fits, found, missing, malloc_walk-Search}

-- The blocks at `heap_start` and at `bs` fill the heap, which ends inside the address space.
pub record IsValid (h : Heap) (bs : List ℕ) : Type 0 where
  pub started : h.heap_initialized ≡ true
  pub first : h.free_list ≡ h.heap_start
  pub small : h.heap_start + h.heap_size < u64_mod
  pub high : 64 ≤ h.heap_start
  pub chain : Chain h.store (h.heap_start + h.heap_size) h.heap_start bs

abbrev pub allocated : Heap → List ℕ → ℕ → Option ℕ
allocated h bs = allocation h.store h.heap_start bs

-- One unit for each block that the heap has room for, and one for the end of the chain.
abbrev pub EnoughFuel : ℕ → Heap → Type 0
EnoughFuel fuel h = h.heap_size + block_header ≤ block_header * fuel

pub enough_for_chain :
    {h : Heap} {bs : List ℕ} (fuel : ℕ) → IsValid h bs → EnoughFuel fuel h → length bs + 2 ≤ fuel
enough_for_chain {h} {bs} fuel v enough =
    omega (arith, Chain-length h.store (h.heap_start + h.heap_size) h.heap_start bs v.chain)

-- The new pointer stands for at least `size` bytes, stood for nothing before, and every other
-- pointer stands for what it stood for.
pub record Allocates (h : Heap) (bs : List ℕ) (size p : ℕ) (h' : Heap) : Type 0 where
  pub blocks : List ℕ
  pub valid : IsValid h' blocks
  pub not_null : p ≢ 0
  pub bytes : ℕ
  pub large : size ≤ bytes
  pub gained : allocated h' blocks p ≡ some bytes
  pub was_none : allocated h bs p ≡ none
  pub others : (q : ℕ) → q ≢ p → allocated h' blocks q ≡ allocated h bs q

pub data Outcome (h : Heap) (bs : List ℕ) (size n : ℕ) (r : Option (ℕ × Heap)) : Type 0 where
  success :
      (p : ℕ) (h' : Heap) → r ≡ some (p, h') → Allocates h bs size p h' → Outcome h bs size n r
  failure :
      r ≡ some (0, h)
      → ((x : ℕ) → On x h.heap_start bs → ¬ Fits h.store n x)
      → Outcome h bs size n r

free_holds_nothing :
    (s : Store) (a x : ℕ) (bs : List ℕ)
    → On x a bs
    → (s x).is_free ≡ true
    → allocation s a bs (x + block_header) ≡ none
free_holds_nothing s a x bs o free = elim (Option-cases (allocation s a bs (x + block_header))) [
  | inl e ↦ e
  | inr (n, e) ↦
      let (y, on, at, used, size) = allocation-On s a bs (x + block_header) n e in
      let same : y ≡ x = omega arith in absurd (ground arith)
]

-- No allocation comes near the size of the address space.
bytes-lt :
    (h : Heap) (bs : List ℕ)
    → IsValid h bs
    → (p n size : ℕ) → allocated h bs p ≡ some n
    → u64_mod ≤ size + 15
    → n < size
bytes-lt h bs v p n size e big =
    let (x, o, at, used, same) = allocation-On h.store h.heap_start bs p n e in
    omega (
      arith,
      On-bounds h.store (h.heap_start + h.heap_size) h.heap_start x bs v.chain o,
      v.small,
      v.high,
    )

with_store-some :
    (h : Heap) (p : ℕ) (s : Store) → with_store h (some (p, s)) ≡ some (p, record h { store = s })
unfolding with_store
with_store-some h p s = refl

module _ (h : Heap) (bs : List ℕ) (v : IsValid h bs) (fuel : ℕ) (enough : EnoughFuel fuel h) where
  kmalloc_walk :
      (mapped : Bool) (size : ℕ)
      → 0 < size
      → kmalloc fuel mapped h size
        ≡ with_store h (malloc_walk fuel h.store h.heap_start (align size))
  unfolding kmalloc
  kmalloc_walk mapped size pos = ground (arith, v.started, v.first)

  -- The block that the search found is carved.
  success_at :
      (size n x : ℕ)
      → size ≤ n
      → On x h.heap_start bs
      → Fits h.store n x
      → Allocates h bs size (x + block_header) (record h { store = carve h.store x n })
  success_at size n x large o (free, fits) =
      let fin : ℕ = h.heap_start + h.heap_size in
      let t =
        carve_lem h.store n fin x h.heap_start bs (omega (arith, v.small)) v.high v.chain o fits
          free in
      record {
        blocks = t.blocks;
        valid = record {
          started = v.started;
          first = v.first;
          small = v.small;
          high = v.high;
          chain = t.chain;
        };
        not_null = omega arith;
        bytes = (carve h.store x n x).size;
        large = omega (arith, t.fits);
        gained = ground (arith, t.allocated (x + block_header));
        was_none = free_holds_nothing h.store h.heap_start x bs o free;
        others = λ q ne. ground (arith, t.allocated q);
      }

  outcome :
      (mapped : Bool) (size : ℕ)
      → 0 < size
      → (least : ℕ) → least ≤ align size
      → Outcome h bs least (align size) (kmalloc fuel mapped h size)
  outcome mapped size pos least large =
      elim (malloc_walk-Search fuel h.store (h.heap_start + h.heap_size) h.heap_start (align size)
        bs v.chain (enough_for_chain fuel v enough)) [
          | found x o f e ↦
              success (x + block_header) (record h { store = carve h.store x (align size) })
                (kmalloc_walk mapped size pos
                  ∙ ap (with_store h) e
                  ∙ with_store-some h (x + block_header) (carve h.store x (align size)))
                (success_at least (align size) x large o f)
          | missing none_fit e ↦
              failure
                (kmalloc_walk mapped size pos ∙ ap (with_store h) e ∙ with_store-some h 0 h.store)
                none_fit
        ]

  -- `kmalloc` of a positive `size`, whose rounding up to 16 does not wrap, ends; it either returns
  -- a new pointer to at least `size` bytes on a valid heap, where every other pointer stands for the
  -- bytes that it stood for, or it returns null on the same heap, because every free block is
  -- smaller than the rounded size.
  pub kmalloc_lem :
      (mapped : Bool) (size : ℕ)
      → 0 < size
      → size + 15 < u64_mod
      → Outcome h bs size (align size) (kmalloc fuel mapped h size)
  kmalloc_lem mapped size pos no_wrap = outcome mapped size pos size (unfold align in omega arith)

  -- A `size` within 15 of 2^64 is rounded up to 0: while some block is free, `kmalloc` then returns
  -- a pointer to fewer bytes than it was asked for.
  pub kmalloc_wraps :
      (mapped : Bool) (size x : ℕ)
      → size < u64_mod
      → u64_mod ≤ size + 15
      → On x h.heap_start bs
      → (h.store x).is_free ≡ true
      → (p : ℕ) × (h' : Heap) × (a : Allocates h bs 0 p h') × (kmalloc fuel mapped h size
          ≡ some (p, h'))
        × (a.bytes < size)
  kmalloc_wraps mapped size x lt wraps o free =
      elim (outcome mapped size (omega arith) 0 (omega arith)) [
        | success p h' e a ↦
            (p, h', a, e, bytes-lt h' a.blocks a.valid p a.bytes size a.gained wraps)
        | failure e none_fit ↦ absurd (none_fit x o (free, unfold align in omega arith))
      ]

-- The heap that `init_heap` sets up is valid, with one block, and without allocations, when its pages
-- could be mapped and the heap was not set up before.
pub init_heap-IsValid :
    (h : Heap)
    → h.heap_initialized ≡ false
    → IsValid (init_heap true h) []
      × ((p : ℕ) → allocated (init_heap true h) [] p ≡ none)
      × ((init_heap true h).heap_size ≡ default_heap_size)
unfolding init_heap allocation
init_heap-IsValid h fresh = rw fresh (
  record {
    started = refl;
    first = refl;
    small = omega arith;
    high = omega arith;
    chain = (omega arith, ground arith, ground arith, ground arith);
  },
  (λ p. ground arith),
  refl,
)
