-- ===== src/Heap/Free.antt =====
-- `kfree` on a valid heap.
use blackmount.Common.{
  ℕ, ◌+◌, ◌-◌, ◌≤◌, ◌<◌, ◌≡◌, ◌≢◌, refl, ◌∙◌, inl, inr, Bool, true, false, List, none, some, length,
  ◌==◌, if◌then◌else◌, Bool-cases, arith,
}
use blackmount.Heap.{
  Store, Heap, block_magic, block_header, u64_mod, set_free, absorb, next_is_free, find_previous,
  join_previous, release, replace_store, kfree,
}
use blackmount.Heap.Chain.{Chain, On, allocation, On-bounds, allocation-On}
use blackmount.Heap.Carve.{Chain-set_free, allocation-set_free}
use blackmount.Heap.Absorb.{absorb-Joins}
use blackmount.Heap.Walk.{first, before, find_previous-Previous}
use blackmount.Heap.Malloc.{IsValid, allocated, EnoughFuel, enough_for_chain}

-- A chain in order that holds the same allocations as that of `s`.
pub record Same (s t : Store) (fin a : ℕ) (bs : List ℕ) : Type 0 where
  pub blocks : List ℕ
  pub chain : Chain t fin a blocks
  pub shorter : length blocks ≤ length bs
  pub same : (p : ℕ) → allocation t a blocks p ≡ allocation s a bs p
  -- No block changes its mark or its magic number, on the chain or left behind.
  pub marks : (q : ℕ) → (t q).is_free ≡ (s q).is_free
  pub magics : (q : ℕ) → (t q).magic ≡ (s q).magic

Same-refl : (s : Store) (fin a : ℕ) (bs : List ℕ) → Chain s fin a bs → Same s s fin a bs
Same-refl s fin a bs c = record {
  blocks = bs;
  chain = c;
  shorter = omega arith;
  same = λ p. refl;
  marks = λ q. refl;
  magics = λ q. refl;
}

pub is_free-absorb : (s : Store) (x q : ℕ) → (absorb s x q).is_free ≡ (s q).is_free
unfolding absorb
is_free-absorb s x q = ground arith

magic-absorb : (s : Store) (x q : ℕ) → (absorb s x q).magic ≡ (s q).magic
unfolding absorb
magic-absorb s x q = ground arith

module _ (s : Store) (fin : ℕ) (small : fin ≤ u64_mod) (a : ℕ) (bs : List ℕ)
    (c : Chain s fin a bs) where
  absorb-Same :
      (x : ℕ)
      → On x a bs
      → (s x).is_free ≡ true
      → next_is_free s x ≡ true
      → Same s (absorb s x) fin a bs
  absorb-Same x o free next =
      let j = absorb-Joins s fin small x a bs c o free next in
      record {
        blocks = j.0;
        chain = j.1;
        shorter = omega (arith, j.3);
        same = j.4;
        marks = is_free-absorb s x;
        magics = magic-absorb s x;
      }

  -- The block is joined with the one behind it, if that is free.
  join_next :
      (x : ℕ)
      → On x a bs
      → (s x).is_free ≡ true
      → let t = if next_is_free s x then absorb s x else s in Same s t fin a bs
  join_next x o free = elim (Bool-cases (next_is_free s x)) [
    | inl yes' ↦ rw yes' (absorb-Same x o free yes')
    | inr no' ↦ rw no' (Same-refl s fin a bs c)
  ]

  -- The block before is joined with the block at `x`, if both are free.
  join_before :
      (fuel x : ℕ)
      → length bs + 2 ≤ fuel
      → 0 < x
      → (s x).is_free ≡ true
      → (t : Store) × (join_previous s (find_previous fuel s a x) ≡ some t) × Same s t fin a bs
  unfolding join_previous
  join_before fuel x enough pos free = elim (find_previous-Previous fuel s fin a x bs c enough) [
    | first e ↦ (s, rw (e, join_previous), Same-refl s fin a bs c)
    | before y o next e ↦ elim (Bool-cases ((s y).is_free)) [
      | inl yes' ↦ (
        absorb s y,
        rw e (ground (arith, On-bounds s fin a y bs c o)),
        absorb-Same y o yes' (ground arith),
      )
      | inr no' ↦ (s, rw e (ground arith), Same-refl s fin a bs c)
    ]
  ]

is_free-set_free : (s : Store) (x : ℕ) (free : Bool) → (set_free s x free x).is_free ≡ free
unfolding set_free
is_free-set_free s x free = ground arith

magic-set_free :
    (s : Store) (x : ℕ) (free : Bool) (q : ℕ) → (set_free s x free q).magic ≡ (s q).magic
unfolding set_free
magic-set_free s x free q = ground arith

-- The block at `x` is released: its mark is set, and its pointer stands for nothing.
record Released (s t : Store) (fin a : ℕ) (bs : List ℕ) (x : ℕ) : Type 0 where
  blocks : List ℕ
  chain : Chain t fin a blocks
  free : (t x).is_free ≡ true
  magic : (t x).magic ≡ (s x).magic
  allocation' :
      (p : ℕ)
      → allocation t a blocks p ≡ (if p == x + block_header then none else allocation s a bs p)

release-Released :
    (s : Store) (fin a : ℕ) (bs : List ℕ) (fuel x : ℕ)
    → fin ≤ u64_mod
    → Chain s fin a bs
    → length bs + 2 ≤ fuel
    → On x a bs
    → (t : Store) × (release fuel s a x ≡ some t) × Released s t fin a bs x
unfolding release
release-Released s fin a bs fuel x small c enough o =
    let f : Store = set_free s x true in
    let cf = Chain-set_free s x true fin a bs c in
    let mark = is_free-set_free s x true in
    let j : Store = if next_is_free f x then absorb f x else f in
    let n = join_next f fin small a bs cf x o mark in
    let (t, e, b) =
      join_before j fin small a n.blocks n.chain fuel x (omega (arith, n.shorter))
        (omega (arith, On-bounds s fin a x bs c o)) (n.marks x ∙ mark) in
    (
      t,
      e,
      record {
        blocks = b.blocks;
        chain = b.chain;
        free = b.marks x ∙ n.marks x ∙ mark;
        magic = b.magics x ∙ n.magics x ∙ magic-set_free s x true x;
        allocation' = λ p. b.same p ∙ n.same p ∙ allocation-set_free s x true fin a bs c o p;
      },
    )

-- The pointer stands for nothing any more, and every other one for what it stood for.
pub record Frees (h : Heap) (bs : List ℕ) (p : ℕ) (h' : Heap) : Type 0 where
  pub blocks : List ℕ
  pub valid : IsValid h' blocks
  pub same_size : h'.heap_size ≡ h.heap_size
  pub gone : allocated h' blocks p ≡ none
  pub others : (q : ℕ) → q ≢ p → allocated h' blocks q ≡ allocated h bs q
  -- The header that `kfree` looks at for `p` says that the block is free.
  pub marked : (h'.store (p - block_header)).is_free ≡ true
  pub magic : (h'.store (p - block_header)).magic ≡ block_magic

module _ (h : Heap) (bs : List ℕ) (v : IsValid h bs) (fuel : ℕ) (enough : EnoughFuel fuel h) where
  kfree-release :
      (x : ℕ)
      → On x h.heap_start bs
      → (h.store x).is_free ≡ false
      → 0 < (h.store x).size
      → kfree fuel h (x + block_header) ≡ replace_store h (release fuel h.store h.heap_start x)
  unfolding kfree
  kfree-release x o used pos =
      let b = On-bounds h.store (h.heap_start + h.heap_size) h.heap_start x bs v.chain o in
      let back : x + block_header - block_header ≡ x = omega arith in
      rw back (ground (arith, b, v.started, v.first, v.small))

  -- `kfree` of a pointer that stands for some bytes ends; the heap stays valid, the pointer stands
  -- for nothing, and every other pointer stands for the bytes that it stood for.
  pub kfree_lem :
      (p n : ℕ)
      → allocated h bs p ≡ some n
      → 0 < n
      → (h' : Heap) × (kfree fuel h p ≡ some h') × Frees h bs p h'
  unfolding replace_store
  kfree_lem p n e pos =
      let fin : ℕ = h.heap_start + h.heap_size in
      let (x, o, at, used, size) = allocation-On h.store h.heap_start bs p n e in
      let (t, done, r) =
        release-Released h.store fin h.heap_start bs fuel x (omega (arith, v.small)) v.chain
          (enough_for_chain fuel v enough) o in
      let b = On-bounds h.store fin h.heap_start x bs v.chain o in
      let back : p - block_header ≡ x = omega arith in
      (
        record h { store = t },
        rw (at, kfree-release x o used (omega arith), done),
        record {
          blocks = r.blocks;
          valid = record {
            started = v.started;
            first = v.first;
            small = v.small;
            high = v.high;
            chain = r.chain;
          };
          same_size = refl;
          gone = ground (arith, r.allocation' p);
          others = λ q ne. ground (arith, r.allocation' q);
          marked = rw back r.free;
          magic = rw back (r.magic ∙ b.3);
        },
      )

-- A second `kfree` of the same pointer changes nothing, with any fuel.
pub kfree_twice :
    (h : Heap) (bs : List ℕ) (p n : ℕ) (fuel later : ℕ)
    → IsValid h bs
    → EnoughFuel fuel h
    → allocated h bs p ≡ some n
    → 0 < n
    → (h' : Heap) × (kfree fuel h p ≡ some h') × (kfree later h' p ≡ some h')
unfolding kfree
kfree_twice h bs p n fuel later v enough e pos =
    let (h', done, f) = kfree_lem h bs v fuel enough p n e pos in
    (h', done, ground (arith, f.marked, f.magic))
