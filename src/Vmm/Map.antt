-- ===== src/Vmm/Map.antt =====
-- `vmm_map` and `vmm_unmap` of vmm.c, on the function from addresses to pages
-- that the tables stand for.
use blackmount.Common.{
  ℕ, zero, suc, ◌+◌, ◌*◌, ◌<◌, ◌≡◌, refl, sym, ap, ap₂, subst, ◌∙◌, Bool, true, false, List, [],
  ◌∷◌, Option, none, some, length, bit_or, ◌==◌, if◌then◌else◌, inl, inr, Bool-cases, Option-cases,
  All, arith,
}
use blackmount.Pmm.{page_size}
use blackmount.Vmm.{
  Vmm, Space, no_space, kernel_space, made_space, page_of, pte_create, pml4_of, pt_index, walk,
  set_page, clear_page, vmm_map, vmm_unmap,
}
use blackmount.Vmm.Tables.{
  child, bind, find, find-append, Place, path, IsTree, upper, indices, mapping, page_number,
  walk_lookup,
}
use blackmount.Vmm.Grow.{read_entry, read_entry-pte_create, Grows}
use blackmount.Vmm.Write.{same_indices, small_indices, small_upper, written-IsTree, written-mapping}
use blackmount.Vmm.Walk.{Walked, walk_lem}

pml4_of-Grows :
    (s s' : Vmm) (place place' : ℕ → Option Place) (space : Space)
    → Grows s s' place place'
    → pml4_of s' space ≡ pml4_of s space
pml4_of-Grows s s' place place' no_space g = g.same_kernel
pml4_of-Grows s s' place place' kernel_space g = g.same_kernel
pml4_of-Grows s s' place place' (made_space a) g = ap (λ (f : ℕ → ℕ). f a) g.same_spaces

-- The tables form a tree, and stand for the mapping `m`.
pub record Maps (s : Vmm) (root : ℕ) (m : ℕ → Option ℕ) : Type 0 where
  pub place : ℕ → Option Place
  pub tree : IsTree s root place
  pub is_mapping : (v : ℕ) → mapping s root v ≡ m v

-- The mapping with another page for an address.
abbrev pub with_page : ℕ → Option ℕ → (ℕ → Option ℕ) → ℕ → Option ℕ
with_page virt page m v = if page_number v == page_number virt then page else m v

abbrev pub mapped_or : Bool → ℕ → ℕ → (ℕ → Option ℕ) → ℕ → Option ℕ
mapped_or ok virt phys m = if ok then with_page virt (some (page_of phys)) m else m

-- What the walk leaves of the mapping.
Walked-mapping :
    (s : Vmm) (root virt : ℕ) (m : ℕ → Option ℕ) (place : ℕ → Option Place) (r : Option ℕ × Vmm)
    → ((v : ℕ) → mapping s root v ≡ m v)
    → IsTree s root place
    → Walked s root place root 1 0 (upper virt) r
    → (v : ℕ) → mapping r.1 root v ≡ m v
Walked-mapping s root virt m place r is_m h w v =
    w.grows.found root 4 0 (indices v) h.top refl (small_indices v) ∙ is_m v

set_page-Maps :
    (s : Vmm) (root virt phys flags : ℕ) (m : ℕ → Option ℕ) (place : ℕ → Option Place)
    (r : Option ℕ × Vmm)
    → ((v : ℕ) → mapping s root v ≡ m v)
    → flags < 4096
    → IsTree s root place
    → Walked s root place root 1 0 (upper virt) r
    → Maps
        (set_page virt phys flags r).1
        root
        (mapped_or (set_page virt phys flags r).0 virt phys m)
set_page-Maps s root virt phys flags m place (o, s1) is_m small h w = elim w.ends [
  | inl e ↦ rw e (record {
    place = w.place';
    tree = w.tree;
    is_mapping = Walked-mapping s root virt m place (o, s1) is_m h w;
  })
  | inr (pt, e, found, at) ↦
      let entry = pte_create (page_of phys) (bit_or flags 1) in
      let page : read_entry entry ≡ some (page_of phys) =
        read_entry-pte_create (page_of phys) flags small ∙ ap some (omega arith) in
      rw e (record {
        place = w.place';
        tree =
            written-IsTree s1 root pt (path 0 (upper virt)) (pt_index virt) entry w.place' w.tree
              at;
        is_mapping = λ v.
            written-mapping s1 root pt (path 0 (upper virt)) (pt_index virt) entry w.place' w.tree
              at virt v found refl refl
            ∙ ap₂ (λ a b. if page_number v == page_number virt then a else b) page
                (Walked-mapping s root virt m place (o, s1) is_m h w v);
      })
]

with_page-page_of :
    (virt : ℕ) (page : Option ℕ) (m : ℕ → Option ℕ)
    → with_page (page_of virt) page m ≡ with_page virt page m
with_page-page_of virt page m =
    let same : page_number (page_of virt) ≡ page_number virt = omega arith in
    ap (λ n. λ v. if page_number v == n then page else m v) same

set_page-pml4_of :
    (space : Space) (virt phys flags : ℕ) (r : Option ℕ × Vmm)
    → pml4_of (set_page virt phys flags r).1 space ≡ pml4_of r.1 space
set_page-pml4_of no_space virt phys flags (none, s) = refl
set_page-pml4_of no_space virt phys flags (some pt, s) = refl
set_page-pml4_of kernel_space virt phys flags (none, s) = refl
set_page-pml4_of kernel_space virt phys flags (some pt, s) = refl
set_page-pml4_of (made_space a) virt phys flags (none, s) = refl
set_page-pml4_of (made_space a) virt phys flags (some pt, s) = refl

-- Where the tables of an address space form a tree that stands for a mapping, `vmm_map` with flags
-- below the size of a page leaves a tree that stands for the mapping with the new page for the
-- address if it succeeds, and for the same mapping if it fails.
pub vmm_map_lem :
    (s : Vmm) (space : Space) (virt phys flags : ℕ) (m : ℕ → Option ℕ)
    → Maps s (pml4_of s space) m
    → flags < page_size
    → let (ok, s') = vmm_map s space virt phys flags in
      Maps s' (pml4_of s' space) (mapped_or ok virt phys m)
unfolding vmm_map
vmm_map_lem s space virt phys flags m h small =
    let root = pml4_of s space in
    let w = walk_lem s root (page_of virt) h.place h.tree in
    let r = walk s root (page_of virt) true 6 in
    let same_root : pml4_of (set_page (page_of virt) phys flags r).1 space ≡ root =
      set_page-pml4_of space (page_of virt) phys flags r
      ∙ pml4_of-Grows s r.1 h.place w.place' space w.grows in
    let same_page : mapped_or (set_page (page_of virt) phys flags r).0 (page_of virt) phys m
        ≡ mapped_or (set_page (page_of virt) phys flags r).0 virt phys m =
      ap (λ n. if (set_page (page_of virt) phys flags r).0 then n else m)
        (with_page-page_of virt (some (page_of phys)) m) in
    subst
      (λ q.
        Maps (set_page (page_of virt) phys flags r).1 q
          (mapped_or (set_page (page_of virt) phys flags r).0 virt phys m))
      (sym same_root)
      (subst (Maps (set_page (page_of virt) phys flags r).1 root) same_page
        (set_page-Maps s root (page_of virt) phys flags m h.place r h.is_mapping small h.tree w))

-- The table that indices lead to has its place.
find-place :
    (s : Vmm) (root : ℕ) (place : ℕ → Option Place) (h : IsTree s root place) (x l p : ℕ)
    (is : List ℕ) (y : ℕ)
    → place x ≡ some (l, p)
    → l ≡ length is + 1
    → All (λ i. i < 512) is
    → find s x is ≡ some y
    → place y ≡ some (1, path p is)
find-place s root place h x l p [] y ex len small e =
    let same : x ≡ y = ground (arith, e) in ap place (sym same) ∙ ex ∙ ap (λ k. some (k, p)) len
find-place s root place h x zero p (j ∷ is) y ex len small e = absurd (omega (arith, len))
find-place s root place h x (suc zero) p (j ∷ is) y ex len small e = absurd (omega (arith, len))
find-place s root place h x (suc (suc l)) p (j ∷ is) y ex len small e =
    elim (Option-cases (child s x j)) [
      | inl none_there ↦ absurd (ground (arith, e, ap (λ o. bind o (λ u. find s u is)) none_there))
      | inr (z, ez) ↦
          find-place s root place h z (suc l) (p * 512 + j) is y (h.below x l p j z ex small.0 ez)
            (omega (arith, len)) small.1 (sym (ap (λ o. bind o (λ u. find s u is)) ez) ∙ e)
    ]

module _ (s : Vmm) (root virt : ℕ) (m : ℕ → Option ℕ) (h : Maps s root m) where
  -- Without a last table there is no page.
  unmapped-mapping :
      find s root (upper virt) ≡ none → (v : ℕ) → mapping s root v ≡ with_page virt none m v
  unmapped-mapping e v = elim (Bool-cases (page_number v == page_number virt)) [
    | inl same ↦ rw same (
        ap (find s root) (same_indices v virt (ground (arith, same)))
        ∙ find-append s root (pt_index virt) (upper virt)
        ∙ ap (λ o. bind o (λ u. child s u (pt_index virt))) e)
    | inr other ↦ rw other (h.is_mapping v)
  ]

  clear_page-Maps :
      (o : Option ℕ)
      → find s root (upper virt) ≡ o
      → Maps (clear_page virt (o, s)) root (with_page virt none m)
  clear_page-Maps none e = record {
    place = h.place;
    tree = h.tree;
    is_mapping = unmapped-mapping e;
  }
  clear_page-Maps (some pt) e =
      let at =
        find-place s root h.place h.tree root 4 0 (upper virt) pt h.tree.top (omega arith)
          (small_upper virt) e in
      record {
        place = h.place;
        tree = written-IsTree s root pt (path 0 (upper virt)) (pt_index virt) 0 h.place h.tree at;
        is_mapping = λ v.
            written-mapping s root pt (path 0 (upper virt)) (pt_index virt) 0 h.place h.tree at virt
              v e refl refl
            ∙ ap (λ b. if page_number v == page_number virt then none else b) (h.is_mapping v);
      }

clear_page-pml4_of :
    (space : Space) (virt : ℕ) (r : Option ℕ × Vmm)
    → pml4_of (clear_page virt r) space ≡ pml4_of r.1 space
clear_page-pml4_of no_space virt (none, s) = refl
clear_page-pml4_of no_space virt (some pt, s) = refl
clear_page-pml4_of kernel_space virt (none, s) = refl
clear_page-pml4_of kernel_space virt (some pt, s) = refl
clear_page-pml4_of (made_space a) virt (none, s) = refl
clear_page-pml4_of (made_space a) virt (some pt, s) = refl

-- Where the tables of an address space form a tree that stands for a mapping, `vmm_unmap` leaves a
-- tree that stands for the mapping without the page of the address.
pub vmm_unmap_lem :
    (s : Vmm) (space : Space) (virt : ℕ) (m : ℕ → Option ℕ)
    → Maps s (pml4_of s space) m
    → let s' = vmm_unmap s space virt in Maps s' (pml4_of s' space) (with_page virt none m)
unfolding vmm_unmap
vmm_unmap_lem s space virt m h =
    let root = pml4_of s space in
    let v = page_of virt in
    let o = find s root (upper v) in
    let run : clear_page v (walk s root v false 0) ≡ clear_page v (o, s) =
      ap (clear_page v) (walk_lookup s root v) in
    let same_root : pml4_of (clear_page v (o, s)) space ≡ root =
      clear_page-pml4_of space v (o, s) in
    rw run (
      subst (λ q. Maps (clear_page v (o, s)) q (with_page virt none m)) (sym same_root)
        (subst (Maps (clear_page v (o, s)) root) (with_page-page_of virt none m)
          (clear_page-Maps s root v m h o refl)))
