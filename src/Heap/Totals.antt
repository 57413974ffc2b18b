-- ===== src/Heap/Totals.antt =====
-- `get_heap_stats` on a valid heap.
use blackmount.Common.{
  Bool, not, if◌then◌else◌, ℕ, zero, suc, ◌+◌, ◌*◌, ◌≤◌, ◌<◌, ◌≡◌, refl, ◌∙◌, List, [], ◌∷◌, some,
  length, arith,
}
use blackmount.Heap.{
  Block, Store, Heap, HeapStats, block_header, u64_mod, count_block, stats_walk, get_heap_stats,
}
use blackmount.Heap.Chain.{Chain, Chain-head}
use blackmount.Heap.Malloc.{IsValid, EnoughFuel, enough_for_chain}

-- The bytes of the blocks that pass a test, and the number of these blocks.
abbrev pub bytes_of : (Block → Bool) → Store → ℕ → List ℕ → ℕ
bytes_of test s a [] = if test (s a) then (s a).size else 0
bytes_of test s a (b ∷ bs) = (if test (s a) then (s a).size else 0) + bytes_of test s b bs

abbrev pub number_of : (Block → Bool) → Store → ℕ → List ℕ → ℕ
number_of test s a [] = if test (s a) then 1 else 0
number_of test s a (b ∷ bs) = (if test (s a) then 1 else 0) + number_of test s b bs

abbrev pub free_block : Block → Bool
free_block b = b.is_free

abbrev pub used_block : Block → Bool
used_block b = not b.is_free

-- The counts of the blocks from `a` on, added to `t`.
record Adds (t u : HeapStats) (s : Store) (fin a : ℕ) (bs : List ℕ) : Type 0 where
  same_total : u.total_size ≡ t.total_size
  blocks : u.num_blocks ≡ t.num_blocks + length bs + 1
  used : u.used_size ≡ t.used_size + bytes_of used_block s a bs
  free : u.free_size ≡ t.free_size + bytes_of free_block s a bs
  free_blocks : u.num_free_blocks ≡ t.num_free_blocks + number_of free_block s a bs
  bytes :
      u.used_size + u.free_size + block_header * (length bs + 1) + a
      ≡ t.used_size + t.free_size + fin

stats_walk_next :
    (fuel : ℕ) (s : Store) (a b : ℕ) (t : HeapStats)
    → 0 < a
    → (s a).next ≡ b
    → stats_walk (suc fuel) s a t ≡ stats_walk fuel s b (count_block t (s a))
unfolding stats_walk
stats_walk_next fuel s a b t pos next = ground arith

stats_walk_null : (fuel : ℕ) (s : Store) (t : HeapStats) → stats_walk (suc fuel) s 0 t ≡ some t
unfolding stats_walk
stats_walk_null fuel s t = refl

stats_walk-Adds :
    (fuel : ℕ) (s : Store) (fin a : ℕ) (bs : List ℕ) (t : HeapStats)
    → fin < u64_mod
    → Chain s fin a bs
    → t.used_size + t.free_size ≤ a
    → length bs + 2 ≤ fuel
    → (u : HeapStats) × (stats_walk fuel s a t ≡ some u) × Adds t u s fin a bs
unfolding count_block
stats_walk-Adds zero s fin a bs t small c le enough = absurd (omega arith)
stats_walk-Adds (suc zero) s fin a bs t small c le enough = absurd (omega arith)
stats_walk-Adds (suc (suc fuel)) s fin a [] t small c le enough = (
  count_block t (s a),
  stats_walk_next (suc fuel) s a 0 t c.0 c.2 ∙ stats_walk_null fuel s (count_block t (s a)),
  ground arith,
)
stats_walk-Adds (suc (suc fuel)) s fin a (b ∷ bs) t small c le enough =
    let end = Chain-head s fin b bs c.4 in
    let (u, e, r) =
      stats_walk-Adds (suc fuel) s fin b bs (count_block t (s a)) small c.4 (ground arith)
        (omega arith) in
    (u, stats_walk_next (suc fuel) s a b t c.0 c.2 ∙ e, ground (arith, r, end))

-- What the call reports of a heap with its first block at `a` and the others at `bs`.
pub record Reports (h : Heap) (a : ℕ) (bs : List ℕ) (u : HeapStats) : Type 0 where
  pub total : u.total_size ≡ h.heap_size
  pub blocks : u.num_blocks ≡ length bs + 1
  pub used : u.used_size ≡ bytes_of used_block h.store a bs
  pub free : u.free_size ≡ bytes_of free_block h.store a bs
  pub free_blocks : u.num_free_blocks ≡ number_of free_block h.store a bs
  pub whole : u.used_size + u.free_size + block_header * u.num_blocks ≡ u.total_size

-- On a valid heap `get_heap_stats` ends, and reports the size of the heap, the number of blocks, the
-- bytes of the blocks in use, the bytes of the free blocks and the number of these. The two sums and a
-- header for each block make up the whole heap.
pub get_heap_stats_lem :
    (h : Heap) (bs : List ℕ) (fuel : ℕ) (t : HeapStats)
    → IsValid h bs
    → EnoughFuel fuel h
    → (u : HeapStats) × (get_heap_stats fuel h t ≡ some u) × Reports h h.heap_start bs u
unfolding get_heap_stats
get_heap_stats_lem h bs fuel t v enough =
    let start : HeapStats = record {
      total_size = h.heap_size;
      used_size = 0;
      free_size = 0;
      num_blocks = 0;
      num_free_blocks = 0;
    } in
    let (u, e, r) =
      stats_walk-Adds fuel h.store (h.heap_start + h.heap_size) h.heap_start bs start v.small
        v.chain (omega arith) (enough_for_chain fuel v enough) in
    (
      u,
      rw (v.started, v.first) e,
      record {
        total = r.same_total;
        blocks = omega (arith, r.blocks);
        used = omega (arith, r.used);
        free = omega (arith, r.free);
        free_blocks = omega (arith, r.free_blocks);
        whole = omega (arith, r.bytes, r.blocks, r.same_total);
      },
    )
