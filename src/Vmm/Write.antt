-- ===== src/Vmm/Write.antt =====
-- What the write of an entry of a last table in vmm.c does to the tree and to the mapping.
use blackmount.Common.{
  ℕ, zero, suc, ◌+◌, ◌*◌, ◌<◌, ◌≡◌, ◌≢◌, refl, sym, ap, ◌∙◌, false, List, [], ◌∷◌, Option, some,
  length, ◌==◌, ◌&&◌, if◌then◌else◌, inl, inr, Bool-cases, Option-cases, All, arith,
}
use blackmount.Vmm.{Vmm, put_entry, pml4_index, pdpt_index, pd_index, pt_index}
use blackmount.Vmm.Tables.{
  child, bind, find, find-append, Place, path, path-indices, IsTree, upper, indices, mapping,
  page_number,
}
use blackmount.Vmm.Grow.{read_entry, child-put_entry_self, child-put_entry_ne}

-- Addresses in one page have the same indices.
pub same_indices : (w v : ℕ) → page_number w ≡ page_number v → indices w ≡ indices v
same_indices w v e =
    let a : pml4_index w ≡ pml4_index v = omega (arith, e) in
    let b : pdpt_index w ≡ pdpt_index v = omega (arith, e) in
    let c : pd_index w ≡ pd_index v = omega (arith, e) in
    let d : pt_index w ≡ pt_index v = omega (arith, e) in rw (a, b, c, d) refl

pub small_indices : (v : ℕ) → All (λ i. i < 512) (indices v)
small_indices v = (omega arith, (omega arith, (omega arith, (omega arith, tt))))

pub small_upper : (v : ℕ) → All (λ i. i < 512) (upper v)
small_upper v = (omega arith, (omega arith, (omega arith, tt)))

-- An entry of a last table is written.
module _ (s : Vmm) (root pt q i e : ℕ) (place : ℕ → Option Place) (h : IsTree s root place)
    (at : place pt ≡ some (1, q)) where
  higher : (x l p : ℕ) → place x ≡ some (suc (suc l), p) → x ≢ pt
  higher x l p ex same = ground (arith, ex, at, ap place same)

  same_number : (x p : ℕ) → place x ≡ some (1, p) → x ≡ pt → p ≡ q
  same_number x p ex same = ground (arith, ex, at, ap place same)

  same_above :
      (x l p j : ℕ) → place x ≡ some (suc (suc l), p) → child (put_entry s pt i e) x j ≡ child s x j
  same_above x l p j ex = child-put_entry_ne s pt i e x j (ground (arith, higher x l p ex))

  pub written-IsTree : IsTree (put_entry s pt i e) root place
  written-IsTree = record {
    top = h.top;
    below = λ x l p j u ex near c. h.below x l p j u ex near (sym (same_above x l p j ex) ∙ c);
    used = h.used;
    pages = h.pages;
  }

  -- The way to the last tables stays.
  written-upper :
      (x l p : ℕ) (is : List ℕ)
      → place x ≡ some (l, p)
      → length is < l
      → All (λ i. i < 512) is
      → find (put_entry s pt i e) x is ≡ find s x is
  written-upper x l p [] ex len small = refl
  written-upper x zero p (j ∷ is) ex len small = absurd (omega (arith, len))
  written-upper x (suc zero) p (j ∷ is) ex len small = absurd (omega (arith, len))
  written-upper x (suc (suc l)) p (j ∷ is) ex len small =
      rw (same_above x l p j ex) (elim (Option-cases (child s x j)) [
        | inl none_there ↦ rw none_there refl
        | inr (y, ey) ↦ rw ey (
            written-upper y (suc l) (p * 512 + j) is (h.below x l p j y ex small.0 ey)
              (omega (arith, len)) small.1)
      ])

  -- Other pages stay.
  written-found :
      (x l p : ℕ) (is : List ℕ)
      → place x ≡ some (l, p)
      → length is ≡ l
      → All (λ i. i < 512) is
      → path p is ≢ q * 512 + i
      → find (put_entry s pt i e) x is ≡ find s x is
  written-found x l p [] ex len small other = refl
  written-found x zero p (j ∷ is) ex len small other = absurd (omega (arith, len))
  written-found x (suc zero) p (j ∷ []) ex len small other =
      let there : (x == pt && j == i) ≡ false = ground (arith, other, same_number x p ex) in
      rw (child-put_entry_ne s pt i e x j there) refl
  written-found x (suc zero) p (j ∷ k ∷ is) ex len small other = absurd (omega (arith, len))
  written-found x (suc (suc l)) p (j ∷ is) ex len small other =
      rw (same_above x l p j ex) (elim (Option-cases (child s x j)) [
        | inl none_there ↦ rw none_there refl
        | inr (y, ey) ↦ rw ey (
            written-found y (suc l) (p * 512 + j) is (h.below x l p j y ex small.0 ey)
              (omega (arith, len)) small.1 other)
      ])

  -- The mapping after the write, for the page of `v`.
  pub written-mapping :
      (v w : ℕ)
      → find s root (upper v) ≡ some pt
      → q ≡ path 0 (upper v)
      → i ≡ pt_index v
      → mapping (put_entry s pt i e) root w
        ≡ (if page_number w == page_number v then read_entry e else mapping s root w)
  written-mapping v w found eq ei = elim (Bool-cases (page_number w == page_number v)) [
    | inl same ↦
        let s' = put_entry s pt i e in
        let there : find s' root (upper v) ≡ some pt =
          written-upper root 4 0 (upper v) h.top (omega arith) (small_upper v) ∙ found in
        rw same (
          ap (find s' root) (same_indices w v (ground (arith, same)))
          ∙ find-append s' root (pt_index v) (upper v)
          ∙ ap (λ o. bind o (λ u. child s' u (pt_index v))) there
          ∙ ap (child s' pt) (sym ei)
          ∙ child-put_entry_self s pt i e)
    | inr other ↦
        let number : q * 512 + i ≡ page_number v = omega (arith, eq, ei, path-indices v) in
        rw other (
          written-found root 4 0 (indices w) h.top refl (small_indices w)
            (λ same. ground (arith, other, same, number, path-indices w)))
  ]
