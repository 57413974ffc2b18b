-- ===== src/Heap/Absorb.antt =====
-- Joining a free block with the free block behind it.
use blackmount.Common.{
  ℕ, ◌+◌, ◌≤◌, ◌≡◌, ◌≢◌, refl, sym, subst, inl, inr, true, List, [], ◌∷◌, length, arith,
}
use blackmount.Heap.{Store, u64_mod, absorb, next_is_free}
use blackmount.Heap.Chain.{
  Chain, On, allocation, On-bounds, Chain-head, Chain-congr, allocation-congr,
}

pub absorb_ne : (s : Store) (x q : ℕ) → x ≢ q → absorb s x q ≡ s q
unfolding absorb
absorb_ne s x q h = ground arith

-- The chain is one block shorter, in order, and holds the same allocations.
abbrev pub Joins : Store → Store → ℕ → ℕ → List ℕ → ℕ → Type 0
Joins s t fin a bs x =
    (cs : List ℕ) × Chain t fin a cs
    × On x a cs
    × (length cs + 1 ≡ length bs)
    × ((p : ℕ) → allocation t a cs p ≡ allocation s a bs p)

module _ (s : Store) (fin : ℕ) (small : fin ≤ u64_mod) where
  absorb_head_last :
      (a b : ℕ)
      → Chain s fin a (b ∷ [])
      → (s a).is_free ≡ true
      → (s b).is_free ≡ true
      → Joins s (absorb s a) fin a (b ∷ []) a
  unfolding absorb allocation
  absorb_head_last a b c free next =
      ([], (c.0, ground arith, ground arith, ground arith), refl, refl, λ p. ground arith)

  absorb_head :
      (a b d : ℕ) (bs : List ℕ)
      → Chain s fin a (b ∷ d ∷ bs)
      → (s a).is_free ≡ true
      → (s b).is_free ≡ true
      → Joins s (absorb s a) fin a (b ∷ d ∷ bs) a
  unfolding absorb allocation
  absorb_head a b d bs c free next =
      let t : Store = absorb s a in
      let end = Chain-head s fin d bs c.4.4 in
      let same : (q : ℕ) → d ≤ q → t q ≡ s q = λ q h. absorb_ne s a q (omega arith) in
      (
        d ∷ bs,
        (c.0, ground arith, ground arith, ground arith, Chain-congr s t fin d bs same c.4.4),
        inl refl,
        omega arith,
        λ p. ground (arith, allocation-congr s t fin d bs same c.4.4 p),
      )

  pub absorb-Joins :
      (x a : ℕ) (bs : List ℕ)
      → Chain s fin a bs
      → On x a bs
      → (s x).is_free ≡ true
      → next_is_free s x ≡ true
      → Joins s (absorb s x) fin a bs x
  unfolding allocation
  absorb-Joins x a [] c e free next = absurd (ground arith)
  absorb-Joins x a (b ∷ []) c (inl e) free next =
      subst (λ y. Joins s (absorb s y) fin a (b ∷ []) y) (sym e)
        (absorb_head_last a b c (rw e at free) (ground arith))
  absorb-Joins x a (b ∷ d ∷ bs) c (inl e) free next =
      subst (λ y. Joins s (absorb s y) fin a (b ∷ d ∷ bs) y) (sym e)
        (absorb_head a b d bs c (rw e at free) (ground arith))
  absorb-Joins x a (b ∷ bs) c (inr o) free next =
      let (cs, k, on, len, same) = absorb-Joins x b bs c.4 o free next in
      let here : absorb s x a ≡ s a =
        absorb_ne s x a (omega (arith, On-bounds s fin b x bs c.4 o)) in
      (b ∷ cs, rw here (c.0, c.1, c.2, c.3, k), inr on, omega arith, λ p. rw (here, same p))
