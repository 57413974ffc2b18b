-- ===== src/Vmm/Range.antt =====
-- `vmm_map_range` and `vmm_unmap_range` of vmm.c, with the rollback of the first.
use blackmount.Common.{
  ℕ, zero, suc, ◌+◌, ◌≤◌, ◌<◌, ◌≡◌, refl, subst, ◌∙◌, Bool, true, false, Option, none, some, ◌==◌,
  ◌||◌, if◌then◌else◌, ◌⊎◌, inl, inr, Bool-cases, arith,
}
use blackmount.Pmm.{page_size}
use blackmount.Vmm.{
  Vmm, Space, page_of, pml4_of, page_at, vmm_map, vmm_unmap, unmap_from, vmm_unmap_range, map_from,
  vmm_map_range,
}
use blackmount.Vmm.Tables.{page_number}
use blackmount.Vmm.Map.{Maps, with_page, mapped_or, vmm_map_lem, vmm_unmap_lem}

-- Is the address in one of `n` pages of a range, from the page `i` on?
pub covers : ℕ → ℕ → ℕ → ℕ → Bool
covers virt i zero v = false
covers virt i (suc n) v = page_number v == page_number (page_at virt i) || covers virt (i + 1) n v

-- The mapping without these pages.
abbrev pub without_pages : ℕ → ℕ → ℕ → (ℕ → Option ℕ) → ℕ → Option ℕ
without_pages virt i n m v = if covers virt i n v then none else m v

-- The mapping with the first `n` pages of a range, set one after the other.
pub with_pages : ℕ → ℕ → ℕ → (ℕ → Option ℕ) → ℕ → Option ℕ
with_pages virt phys zero m = m
with_pages virt phys (suc n) m =
    with_page (page_at virt n) (some (page_of (page_at phys n))) (with_pages virt phys n m)

Maps-congr :
    (s : Vmm) (root : ℕ) (m m' : ℕ → Option ℕ)
    → Maps s root m
    → ((v : ℕ) → m v ≡ m' v)
    → Maps s root m'
Maps-congr s root m m' h same = record {
  place = h.place;
  tree = h.tree;
  is_mapping = λ v. h.is_mapping v ∙ same v;
}

unmap_from_lem :
    (n i virt : ℕ) (s : Vmm) (space : Space) (m : ℕ → Option ℕ)
    → Maps s (pml4_of s space) m
    → Maps
        (unmap_from s space virt i n)
        (pml4_of (unmap_from s space virt i n) space)
        (without_pages virt i n m)
unfolding unmap_from covers
unmap_from_lem zero i virt s space m h = h
unmap_from_lem (suc n) i virt s space m h =
    let s' = vmm_unmap s space (page_at virt i) in
    let m' = with_page (page_at virt i) none m in
    let rest = unmap_from s' space virt (i + 1) n in
    Maps-congr rest (pml4_of rest space) (without_pages virt (i + 1) n m')
      (without_pages virt i (suc n) m)
      (unmap_from_lem n (i + 1) virt s' space m' (vmm_unmap_lem s space (page_at virt i) m h))
      (λ v. ground arith)

-- The pages of a range do not change what is outside it.
with_pages-outside :
    (n virt phys v : ℕ) (m : ℕ → Option ℕ)
    → ((j : ℕ) → j < n → (page_number v == page_number (page_at virt j)) ≡ false)
    → with_pages virt phys n m v ≡ m v
unfolding with_pages
with_pages-outside zero virt phys v m none_of = refl
with_pages-outside (suc n) virt phys v m none_of =
    rw (none_of n (omega arith))
      (with_pages-outside n virt phys v m (λ j near. none_of j (omega (arith, near))))

covers-none :
    (n i virt v : ℕ)
    → covers virt i n v ≡ false
    → (j : ℕ) → i ≤ j
    → j < i + n
    → (page_number v == page_number (page_at virt j)) ≡ false
unfolding covers
covers-none zero i virt v e j low high = absurd (omega (arith, low, high))
covers-none (suc n) i virt v e j low high = elim (Bool-cases (i == j)) [
  | inl same ↦
      let here : i ≡ j = ground (arith, same) in
      subst (λ k. (page_number v == page_number (page_at virt k)) ≡ false) here (ground (arith, e))
  | inr other ↦
      covers-none n (i + 1) virt v (ground (arith, e)) j (ground (arith, other, low))
        (omega (arith, high))
]

-- The pages set and then dropped.
without-with :
    (virt phys n : ℕ) (m : ℕ → Option ℕ) (v : ℕ)
    → without_pages virt 0 n (with_pages virt phys n m) v ≡ without_pages virt 0 n m v
without-with virt phys n m v = elim (Bool-cases (covers virt 0 n v)) [
  | inl inside ↦ rw inside refl
  | inr outside ↦ rw outside (
      with_pages-outside n virt phys v m
        (λ j near. covers-none n 0 virt v outside j (omega arith) (omega (arith, near))))
]

-- The two ends of `vmm_map_range`.
abbrev pub RangeMapped : Space → ℕ → ℕ → ℕ → (ℕ → Option ℕ) → Bool × Vmm → Type 0
RangeMapped space virt phys pages m (ok, s) =
    ((ok ≡ true) × Maps s (pml4_of s space) (with_pages virt phys pages m))
    ⊎ ((ok ≡ false) × (k : ℕ) × (k < pages) × Maps s (pml4_of s space) (without_pages virt 0 k m))

map_from_more :
    (s : Vmm) (space : Space) (virt phys flags i n : ℕ)
    → (vmm_map s space (page_at virt i) (page_at phys i) flags).0 ≡ true
    → map_from s space virt phys flags i (suc n)
      ≡ map_from
          (vmm_map s space (page_at virt i) (page_at phys i) flags).1
          space
          virt
          phys
          flags
          (i + 1)
          n
unfolding map_from
map_from_more s space virt phys flags i n e = rw e refl

map_from_undo :
    (s : Vmm) (space : Space) (virt phys flags i n : ℕ)
    → (vmm_map s space (page_at virt i) (page_at phys i) flags).0 ≡ false
    → map_from s space virt phys flags i (suc n) ≡ (
      false,
      unmap_from (vmm_map s space (page_at virt i) (page_at phys i) flags).1 space virt 0 i,
    )
unfolding map_from
map_from_undo s space virt phys flags i n e = rw e refl

map_from_lem :
    (n i virt phys flags : ℕ) (s : Vmm) (space : Space) (m : ℕ → Option ℕ)
    → flags < page_size
    → Maps s (pml4_of s space) (with_pages virt phys i m)
    → RangeMapped space virt phys (i + n) m (map_from s space virt phys flags i n)
unfolding with_pages map_from
map_from_lem zero i virt phys flags s space m small h =
    let all : i + 0 ≡ i = omega arith in rw all (inl (refl, h))
map_from_lem (suc n) i virt phys flags s space m small h =
    let r = vmm_map s space (page_at virt i) (page_at phys i) flags in
    let step =
      vmm_map_lem s space (page_at virt i) (page_at phys i) flags (with_pages virt phys i m) h
        small in
    elim (Bool-cases r.0) [
      | inl ok ↦
          let now : Maps r.1 (pml4_of r.1 space) (with_pages virt phys (suc i) m) =
            subst
              (λ b.
                Maps r.1 (pml4_of r.1 space)
                  (mapped_or b (page_at virt i) (page_at phys i) (with_pages virt phys i m)))
              ok step in
          let next : suc i ≡ i + 1 = omega arith in
          let total : i + 1 + n ≡ i + suc n = omega arith in
          rw (map_from_more s space virt phys flags i n ok) (
            subst
              (λ k. RangeMapped space virt phys k m (map_from r.1 space virt phys flags (i + 1) n))
              total
              (map_from_lem n (i + 1) virt phys flags r.1 space m small
                (subst (λ k. Maps r.1 (pml4_of r.1 space) (with_pages virt phys k m)) next now)))
      | inr failed ↦
          let same : Maps r.1 (pml4_of r.1 space) (with_pages virt phys i m) =
            subst
              (λ b.
                Maps r.1 (pml4_of r.1 space)
                  (mapped_or b (page_at virt i) (page_at phys i) (with_pages virt phys i m)))
              failed step in
          let undone = unmap_from r.1 space virt 0 i in
          rw (map_from_undo s space virt phys flags i n failed) (
            inr (
              refl,
              i,
              omega arith,
              Maps-congr undone (pml4_of undone space)
                  (without_pages virt 0 i (with_pages virt phys i m)) (without_pages virt 0 i m)
                  (unmap_from_lem i 0 virt r.1 space (with_pages virt phys i m) same)
                  (without-with virt phys i m),
            ))
    ]

-- Where the tables stand for a mapping, `vmm_map_range` with flags below the size of a page either
-- succeeds and leaves the mapping with all pages of the range, or fails at some page of the range, and
-- then the pages of the range before it are unmapped, whatever they were before, and all other
-- addresses have what they had.
pub vmm_map_range_lem :
    (s : Vmm) (space : Space) (virt phys pages flags : ℕ) (m : ℕ → Option ℕ)
    → flags < page_size
    → Maps s (pml4_of s space) m
    → RangeMapped space virt phys pages m (vmm_map_range s space virt phys pages flags)
unfolding vmm_map_range with_pages
vmm_map_range_lem s space virt phys pages flags m small h =
    let total : 0 + pages ≡ pages = omega arith in
    subst (λ k. RangeMapped space virt phys k m (map_from s space virt phys flags 0 pages)) total
      (map_from_lem pages 0 virt phys flags s space m small h)

-- `vmm_unmap_range` leaves the mapping without the pages of the range.
pub vmm_unmap_range_lem :
    (s : Vmm) (space : Space) (virt pages : ℕ) (m : ℕ → Option ℕ)
    → Maps s (pml4_of s space) m
    → let s' = vmm_unmap_range s space virt pages in
      Maps s' (pml4_of s' space) (without_pages virt 0 pages m)
unfolding vmm_unmap_range
vmm_unmap_range_lem s space virt pages m h = unmap_from_lem pages 0 virt s space m h
