-- ===== src/Heap/Defrag.antt =====
-- `defrag_heap` on a valid heap.
use blackmount.Common.{
  ℕ, zero, suc, ◌+◌, ◌≤◌, ◌<◌, ◌≡◌, refl, ◌∙◌, inl, inr, true, false, List, [], ◌∷◌, some, length,
  ◌&&◌, Bool-cases, arith,
}
use blackmount.Heap.{
  Store, Heap, u64_mod, absorb, next_is_free, defrag_walk, replace_store, defrag_heap,
}
use blackmount.Heap.Chain.{Chain, allocation}
use blackmount.Heap.Absorb.{absorb-Joins, absorb_ne}
use blackmount.Heap.Free.{is_free-absorb}
use blackmount.Heap.Malloc.{IsValid, allocated, EnoughFuel, enough_for_chain}

-- No two neighbours of the chain are free.
abbrev pub IsMerged : Store → ℕ → List ℕ → Type 0
IsMerged s a [] = Unit {0}
IsMerged s a (b ∷ bs) = (((s a).is_free && (s b).is_free) ≡ false) × IsMerged s b bs

record Merged (s t : Store) (fin a : ℕ) (bs : List ℕ) : Type 0 where
  blocks : List ℕ
  chain : Chain t fin a blocks
  merged : IsMerged t a blocks
  same : (p : ℕ) → allocation t a blocks p ≡ allocation s a bs p
  marks : (q : ℕ) → (t q).is_free ≡ (s q).is_free
  below : (q : ℕ) → q < a → t q ≡ s q

defrag_walk_merge :
    (fuel : ℕ) (s : Store) (a : ℕ)
    → 0 < a
    → (s a).is_free ≡ true
    → next_is_free s a ≡ true
    → defrag_walk (suc fuel) s a ≡ defrag_walk fuel (absorb s a) a
unfolding defrag_walk
defrag_walk_merge fuel s a pos free next = ground arith

defrag_walk_pass :
    (fuel : ℕ) (s : Store) (a : ℕ)
    → 0 < a
    → ((s a).is_free && next_is_free s a) ≡ false
    → defrag_walk (suc fuel) s a ≡ defrag_walk fuel s (s a).next
unfolding defrag_walk
defrag_walk_pass fuel s a pos pass = ground arith

defrag_walk_null : (fuel : ℕ) (s : Store) → defrag_walk (suc fuel) s 0 ≡ some s
unfolding defrag_walk
defrag_walk_null fuel s = refl

module _ (fin : ℕ) (small : fin ≤ u64_mod) where
  defrag_walk-Merged :
      (fuel : ℕ) (s : Store) (a : ℕ) (bs : List ℕ)
      → Chain s fin a bs
      → length bs + 2 ≤ fuel
      → (t : Store) × (defrag_walk fuel s a ≡ some t) × Merged s t fin a bs
  unfolding allocation
  defrag_walk-Merged zero s a bs c enough = absurd (omega arith)
  defrag_walk-Merged (suc zero) s a bs c enough = absurd (omega arith)
  defrag_walk-Merged (suc (suc fuel)) s a [] c enough = (
    s,
    defrag_walk_pass (suc fuel) s a c.0 (ground arith) ∙ (rw c.2 (defrag_walk_null fuel s)),
    record {
      blocks = [];
      chain = c;
      merged = tt;
      same = λ p. refl;
      marks = λ q. refl;
      below = λ q h. refl;
    },
  )
  defrag_walk-Merged (suc (suc fuel)) s a (b ∷ bs) c enough =
      elim (Bool-cases ((s a).is_free && next_is_free s a)) [
        | inl both ↦
            let j =
              absorb-Joins s fin small a a (b ∷ bs) c (inl refl) (ground arith) (ground arith) in
            let (t, e, m) =
              defrag_walk-Merged (suc fuel) (absorb s a) a j.0 j.1 (omega (arith, j.3)) in
            (
              t,
              defrag_walk_merge (suc fuel) s a c.0 (ground arith) (ground arith) ∙ e,
              record {
                blocks = m.blocks;
                chain = m.chain;
                merged = m.merged;
                same = λ p. m.same p ∙ j.4 p;
                marks = λ q. m.marks q ∙ is_free-absorb s a q;
                below = λ q h. m.below q h ∙ absorb_ne s a q (omega arith);
              },
            )
        | inr pass ↦
            let (t, e, m) = defrag_walk-Merged (suc fuel) s b bs c.4 (omega arith) in
            let here : t a ≡ s a = m.below a (omega arith) in
            (
              t,
              defrag_walk_pass (suc fuel) s a c.0 pass ∙ (rw c.2 e),
              record {
                blocks = b ∷ m.blocks;
                chain = rw here (c.0, c.1, c.2, c.3, m.chain);
                merged = (ground (arith, here, m.marks b), m.merged);
                same = λ p. rw (here, m.same p);
                marks = m.marks;
                below = λ q h. m.below q (omega arith);
              },
            )
      ]

-- `defrag_heap` ends and leaves a valid heap of the same allocations on which no two neighbouring
-- blocks are free.
pub defrag_heap_lem :
    (h : Heap) (bs : List ℕ) (fuel : ℕ)
    → IsValid h bs
    → EnoughFuel fuel h
    → (h' : Heap) × (cs : List ℕ) × (defrag_heap fuel h ≡ some h')
      × IsValid h' cs
      × IsMerged h'.store h'.heap_start cs
      × ((p : ℕ) → allocated h' cs p ≡ allocated h bs p)
unfolding defrag_heap replace_store
defrag_heap_lem h bs fuel v enough =
    let (t, e, m) =
      defrag_walk-Merged (h.heap_start + h.heap_size) (omega (arith, v.small)) fuel h.store
        h.heap_start bs v.chain (enough_for_chain fuel v enough) in
    (
      record h { store = t },
      m.blocks,
      rw (v.started, v.first, e),
      record {
        started = v.started;
        first = v.first;
        small = v.small;
        high = v.high;
        chain = m.chain;
      },
      m.merged,
      m.same,
    )
