-- ===== src/Vmm/Step.antt =====
-- The steps of `vmm_get_next_level` in vmm.c that may create a table.
use blackmount.Common.{
  ℕ, suc, ◌+◌, ◌*◌, ◌/◌, ◌<◌, ◌≡◌, ◌≢◌, refl, sym, ap, ◌∙◌, true, false, Option, none, some, bit_or,
  ◌==◌, ◌&&◌, if◌then◌else◌, ◌⊎◌, inl, inr, Bool-cases, Option-cases, arith,
}
use blackmount.Memory.Laws.{within}
use blackmount.Pmm.{Pmm, page_size, pmm_alloc}
use blackmount.Pmm.IsValid.{IsValid, is_used}
use blackmount.Pmm.Alloc.{Grants, Refuses, pmm_alloc_lem}
use blackmount.Vmm.{
  Vmm, page_of, is_present, pte_create, put_entry, clear_table, new_table, vmm_get_next_level,
}
use blackmount.Vmm.Tables.{child, Place, IsTree}
use blackmount.Vmm.Grow.{
  read_entry-pte_create, child-put_entry_self, child-put_entry_ne, child-flags, find-congr,
  flags-IsTree, flags-Grows, Grows,
}
use blackmount.Vmm.Hang.{hung_place, hung_place_u, hang-Grows, hang-IsTree}

-- A step of a walk that may create tables keeps the tree, and ends at the table below.
pub record Stepped (s : Vmm) (root : ℕ) (place : ℕ → Option Place) (t l p i : ℕ)
    (r : Option ℕ × Vmm) : Type 0 where
  pub place' : ℕ → Option Place
  pub tree : IsTree r.1 root place'
  pub grows : Grows s r.1 place place'
  pub ends :
      (r.0 ≡ none)
      ⊎ ((u : ℕ) × (r.0 ≡ some u) × (child r.1 t i ≡ some u) × (place' u ≡ some (l, p * 512 + i)))

next_level_found :
    (s : Vmm) (t i : ℕ)
    → is_present (s.entries t i) ≡ true
    → vmm_get_next_level s t i true 6
      ≡ (some (page_of (s.entries t i)), put_entry s t i (bit_or (s.entries t i) 6))
unfolding vmm_get_next_level
next_level_found s t i there = rw there refl

next_level_new :
    (s : Vmm) (t i : ℕ)
    → is_present (s.entries t i) ≡ false
    → vmm_get_next_level s t i true 6 ≡ new_table s t i 6 (pmm_alloc s.pmm)
unfolding vmm_get_next_level
next_level_new s t i absent = rw absent refl

found-Stepped :
    (s : Vmm) (root t l p i : ℕ) (place : ℕ → Option Place)
    → IsTree s root place
    → place t ≡ some (suc (suc l), p)
    → i < 512
    → is_present (s.entries t i) ≡ true
    → Stepped s root place t (suc l) p i (vmm_get_next_level s t i true 6)
found-Stepped s root t l p i place h at near there =
    let here : child s t i ≡ some (page_of (s.entries t i)) = unfold child in (rw there refl) in
    rw (next_level_found s t i there) (record {
      place' = place;
      tree = flags-IsTree s root t i place h;
      grows = flags-Grows s t i place;
      ends = inr (
        page_of (s.entries t i),
        refl,
        child-flags s t i t i ∙ here,
        h.below t l p i (page_of (s.entries t i)) at near here,
      );
    })

-- A step that only takes a page from the allocator.
set_pmm-IsTree :
    (s : Vmm) (root : ℕ) (place : ℕ → Option Place) (pmm' : Pmm)
    → IsTree s root place
    → ((q : ℕ) → is_used s.pmm q ≡ true → is_used pmm' q ≡ true)
    → IsValid pmm'
    → IsTree (record s { pmm = pmm' }) root place
unfolding child
set_pmm-IsTree s root place pmm' h still valid = record {
  top = h.top;
  below = h.below;
  used = λ x at e. let (page, busy) = h.used x at e in (page, still (x / page_size) busy);
  pages = valid;
}

set_pmm-Grows :
    (s : Vmm) (place : ℕ → Option Place) (pmm' : Pmm)
    → Grows s (record s { pmm = pmm' }) place place
set_pmm-Grows s place pmm' =
    let s' : Vmm = record s { pmm = pmm' } in
    let same : (x j : ℕ) → child s' x j ≡ child s x j = λ x j. unfold child in refl in
    record {
      kept = λ x at e. e;
      found = λ x l p is e len small. find-congr s s' same x is;
      child_kept = λ x at j u e is. same x j ∙ is;
      same_spaces = refl;
      same_kernel = refl;
    }

new_table-null :
    (s : Vmm) (t i : ℕ) (r : ℕ × Pmm)
    → (r.0 == 0) ≡ true
    → new_table s t i 6 r ≡ (none, record s { pmm = r.1 })
unfolding new_table
new_table-null s t i (phys, pmm') e = rw e refl

abbrev hung_state : Vmm → ℕ → ℕ → ℕ × Pmm → Vmm
hung_state s t i r =
    put_entry (clear_table (record s { pmm = r.1 }) r.0) t i (pte_create r.0 (bit_or 6 1))

new_table-some :
    (s : Vmm) (t i : ℕ) (r : ℕ × Pmm)
    → (r.0 == 0) ≡ false
    → new_table s t i 6 r ≡ (some r.0, hung_state s t i r)
unfolding new_table
new_table-some s t i (phys, pmm') e = rw e refl

child-clear_table :
    (s : Vmm) (u x j : ℕ) → child (clear_table s u) x j ≡ (if x == u then none else child s x j)
unfolding child
child-clear_table s u x j = elim (Bool-cases (x == u)) [ inl e ↦ rw e refl | inr e ↦ rw e refl ]

-- A page that the allocator had free is no table.
free_page-fresh :
    (s : Vmm) (root start : ℕ) (place : ℕ → Option Place)
    → IsTree s root place
    → is_used s.pmm start ≡ false
    → place (start * page_size) ≡ none
free_page-fresh s root start place h free = elim (Option-cases (place (start * page_size))) [
  | inl e ↦ e
  | inr (at, e) ↦
      let same : start * page_size / page_size ≡ start = omega arith in
      absurd (ground (arith, free, (h.used (start * page_size) at e).1, ap (is_used s.pmm) same))
]

granted-used :
    (p : Pmm) (start : ℕ) (r : ℕ × Pmm)
    → Grants p start 1 r
    → (q : ℕ) → is_used p q ≡ true
    → is_used r.1 q ≡ true
granted-used p start r g q e = elim (Bool-cases (within start 1 q)) [
  | inl e1 ↦ g.now_used q ∙ rw e1 refl
  | inr e1 ↦ g.now_used q ∙ rw e1 e
]

-- The step that takes a page for a new table.
module _ (s : Vmm) (root t l p i start : ℕ) (place : ℕ → Option Place) (h : IsTree s root place)
    (at : place t ≡ some (suc (suc l), p)) (near : i < 512)
    (absent : is_present (s.entries t i) ≡ false) (g : Grants s.pmm start 1 (pmm_alloc s.pmm)) where
  fresh_table : place (pmm_alloc s.pmm).0 ≡ none
  fresh_table =
      ap place g.address
      ∙ free_page-fresh s root start place h (g.were_free start (omega arith) (omega arith))

  no_child : child s t i ≡ none
  unfolding child
  no_child = rw absent refl

  whole_page : (pmm_alloc s.pmm).0 ≡ page_of (pmm_alloc s.pmm).0
  whole_page = omega (arith, g.address)

  hung_child : child (hung_state s t i (pmm_alloc s.pmm)) t i ≡ some (pmm_alloc s.pmm).0
  hung_child =
      child-put_entry_self
        (clear_table (record s { pmm = (pmm_alloc s.pmm).1 }) (pmm_alloc s.pmm).0) t i
        (pte_create (pmm_alloc s.pmm).0 (bit_or 6 1))
      ∙ read_entry-pte_create (pmm_alloc s.pmm).0 6 (omega arith)
      ∙ ap some (sym whole_page)

  hung_elsewhere :
      (x j : ℕ)
      → (x == t && j == i) ≡ false
      → child (hung_state s t i (pmm_alloc s.pmm)) x j
        ≡ (if x == (pmm_alloc s.pmm).0 then none else child s x j)
  hung_elsewhere x j there =
      let taken : Vmm = record s { pmm = (pmm_alloc s.pmm).1 } in
      child-put_entry_ne (clear_table taken (pmm_alloc s.pmm).0) t i
        (pte_create (pmm_alloc s.pmm).0 (bit_or 6 1)) x j there
      ∙ child-clear_table taken (pmm_alloc s.pmm).0 x j
      ∙ unfold child in refl

  hung_empty : (j : ℕ) → child (hung_state s t i (pmm_alloc s.pmm)) (pmm_alloc s.pmm).0 j ≡ none
  hung_empty j =
      let there : ((pmm_alloc s.pmm).0 == t && j == i) ≡ false =
        ground (arith, fresh_table, at, ap place) in
      let itself : ((pmm_alloc s.pmm).0 == (pmm_alloc s.pmm).0) ≡ true = ground arith in
      hung_elsewhere (pmm_alloc s.pmm).0 j there ∙ rw itself refl

  hung_others :
      (x j : ℕ)
      → x ≢ (pmm_alloc s.pmm).0
      → (x == t && j == i) ≡ false
      → child (hung_state s t i (pmm_alloc s.pmm)) x j ≡ child s x j
  hung_others x j other there =
      let differs : (x == (pmm_alloc s.pmm).0) ≡ false = ground (arith, other) in
      hung_elsewhere x j there ∙ rw differs refl

  hung-Stepped :
      ((pmm_alloc s.pmm).0 == 0) ≡ false
      → Stepped s root place t (suc l) p i (vmm_get_next_level s t i true 6)
  hung-Stepped real =
      let u = (pmm_alloc s.pmm).0 in
      let s' = hung_state s t i (pmm_alloc s.pmm) in
      let place' =
        hung_place s s' root t i u l p place h at fresh_table no_child hung_child hung_empty
          hung_others in
      let inside : within start 1 start ≡ true = ground arith in
      let page : u / page_size ≡ start = omega (arith, g.address) in
      let busy : is_used (pmm_alloc s.pmm).1 start ≡ true = g.now_used start ∙ rw inside refl in
      rw (next_level_new s t i absent, new_table-some s t i (pmm_alloc s.pmm) real)
        (record {
          place' = place';
          tree =
              hang-IsTree s s' root t i u l p place h at fresh_table no_child hung_child hung_empty
                hung_others (granted-used s.pmm start (pmm_alloc s.pmm) g) whole_page
                (ap (is_used (pmm_alloc s.pmm).1) page ∙ busy) g.valid;
          grows =
              hang-Grows s s' root t i u l p place h at fresh_table no_child hung_child hung_empty
                hung_others refl refl;
          ends = inr (
            u,
            refl,
            hung_child,
            hung_place_u s s' root t i u l p place h at fresh_table no_child hung_child hung_empty
                hung_others,
          );
        })

  taken-Stepped :
      ((pmm_alloc s.pmm).0 == 0) ≡ true
      → Stepped s root place t (suc l) p i (vmm_get_next_level s t i true 6)
  taken-Stepped null =
      rw (next_level_new s t i absent, new_table-null s t i (pmm_alloc s.pmm) null)
        (record {
          place' = place;
          tree =
              set_pmm-IsTree s root place (pmm_alloc s.pmm).1 h
                (granted-used s.pmm start (pmm_alloc s.pmm) g) g.valid;
          grows = set_pmm-Grows s place (pmm_alloc s.pmm).1;
          ends = inl refl;
        })

refused-Stepped :
    (s : Vmm) (root t l p i : ℕ) (place : ℕ → Option Place)
    → IsTree s root place
    → is_present (s.entries t i) ≡ false
    → Refuses s.pmm 1 (pmm_alloc s.pmm)
    → Stepped s root place t (suc l) p i (vmm_get_next_level s t i true 6)
refused-Stepped s root t l p i place h absent g =
    let null : new_table s t i 6 (pmm_alloc s.pmm) ≡ (none, s) =
      ap (new_table s t i 6) g.null ∙ new_table-null s t i (0, s.pmm) refl in
    rw (next_level_new s t i absent, null)
      (record { place' = place; tree = h; grows = set_pmm-Grows s place s.pmm; ends = inl refl })

pub next_level_lem :
    (s : Vmm) (root t l p i : ℕ) (place : ℕ → Option Place)
    → IsTree s root place
    → place t ≡ some (suc (suc l), p)
    → i < 512
    → Stepped s root place t (suc l) p i (vmm_get_next_level s t i true 6)
next_level_lem s root t l p i place h at near = elim (Bool-cases (is_present (s.entries t i))) [
  | inl there ↦ found-Stepped s root t l p i place h at near there
  | inr absent ↦ elim (pmm_alloc_lem s.pmm h.pages) [
    | inr refuses ↦ refused-Stepped s root t l p i place h absent refuses
    | inl (start, g) ↦ elim (Bool-cases ((pmm_alloc s.pmm).0 == 0)) [
      | inl null ↦ taken-Stepped s root t l p i start place h at near absent g null
      | inr real ↦ hung-Stepped s root t l p i start place h at near absent g real
    ]
  ]
]
