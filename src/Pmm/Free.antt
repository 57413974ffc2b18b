-- ===== src/Pmm/Free.antt =====
-- `pmm_free` and `pmm_free_pages`: which pages become free, and that they undo an allocation.
use blackmount.Common.{
  ℕ, zero, suc, ◌+◌, ◌/◌, ◌<◌, ◌≡◌, ◌≢◌, refl, ap, ◌∙◌, inl, inr, ◌&&◌, not, Bool, true, false, ltb,
  leb, ◌==◌, if◌then◌else◌, Bool-cases, arith,
}
use blackmount.Memory.Laws.{within}
use blackmount.Pmm.{
  Pmm, page_size, bitmap_test, drop_page, free_page, free_from, pmm_free, pmm_free_pages, pmm_alloc,
  pmm_alloc_pages,
}
use blackmount.Pmm.IsValid.{IsValid, is_used, is_used-drop_page, drop_page-IsValid}
use blackmount.Pmm.Count.{count-congr}
use blackmount.Pmm.Alloc.{pmm_alloc_lem, pmm_alloc_pages_lem}

-- The pages named by `drops` went from used to free, and no other page changed.
pub record Drops (p : Pmm) (drops : ℕ → Bool) (p' : Pmm) : Type 0 where
  pub used_after :
      (q : ℕ) → is_used p' q ≡ (if drops q && ltb q p.total_pages then false else is_used p q)
  pub same_total : p'.total_pages ≡ p.total_pages
  pub same_mem : p'.mem ≡ p.mem
  pub valid : IsValid p'

-- No page is dropped where the state does not change.
pub Drops-none :
    (p : Pmm) (drops : ℕ → Bool)
    → IsValid p
    → ((q : ℕ) → q < p.total_pages → drops q ≡ true → is_used p q ≡ false)
    → Drops p drops p
Drops-none p drops v none_used = record {
  used_after = λ q. ground (arith, none_used q);
  same_total = refl;
  same_mem = refl;
  valid = v;
}

pub Drops-congr :
    (p : Pmm) {d e : ℕ → Bool} (p' : Pmm) → ((q : ℕ) → e q ≡ d q) → Drops p d p' → Drops p e p'
Drops-congr p p' same h = record {
  used_after = λ q. ground (arith, same q, h.used_after q);
  same_total = h.same_total;
  same_mem = h.same_mem;
  valid = h.valid;
}

free_page-Drops : (p : Pmm) (page : ℕ) → IsValid p → Drops p (λ q. page == q) (free_page p page)
unfolding free_page
free_page-Drops p page v = elim (Bool-cases (leb p.total_pages page)) [
  | inl past ↦ rw past (Drops-none p _ v (λ q h e. absurd (ground arith)))
  | inr inside ↦ elim (Bool-cases (bitmap_test p.bitmap page)) [
    | inr free ↦ rw (inside, free) (Drops-none p _ v (λ q h e. ground arith))
    | inl used ↦
        let within : page < p.total_pages = ground arith in
        rw (inside, used)
          (record {
            used_after = λ q. ground (arith, is_used-drop_page p page v within q);
            same_total = unfold drop_page in refl;
            same_mem = unfold drop_page in refl;
            valid = drop_page-IsValid p page v within used;
          })
  ]
]

free_from-Drops :
    (n : ℕ) (p : Pmm) (page : ℕ) → IsValid p → Drops p (within page n) (free_from p page n)
unfolding free_from
free_from-Drops zero p page v = record {
  used_after = λ q. ground arith;
  same_total = refl;
  same_mem = refl;
  valid = v;
}
free_from-Drops (suc n) p page v =
    let one = free_page-Drops p page v in
    let rest = free_from-Drops n (free_page p page) (page + 1) one.valid in
    record {
      used_after = λ q. ground (arith, rest.used_after q, one.used_after q, one.same_total);
      same_total = rest.same_total ∙ one.same_total;
      same_mem = rest.same_mem ∙ one.same_mem;
      valid = rest.valid;
    }

-- The pages that `pmm_free_pages` is asked to free: none for a null pointer.
abbrev pub asked : ℕ → ℕ → ℕ → Bool
asked addr count q = not (addr == 0) && within (addr / page_size) count q

module _ (p : Pmm) (addr : ℕ) (v : IsValid p) where
  -- `pmm_free` of a page's address frees that page if it exists and is used, and changes no other
  -- page, no memory and no page when the pointer is null; the allocator stays valid.
  pub pmm_free-Drops : Drops p (asked addr 1) (pmm_free p addr)
  unfolding pmm_free
  pmm_free-Drops = elim (Bool-cases (addr == 0)) [
    | inl null ↦ rw null (Drops-none p _ v (λ q h e. ground arith))
    | inr some_addr ↦
        rw some_addr (Drops-congr p _ (λ q. ground arith) (free_page-Drops p (addr / page_size) v))
  ]

  -- `pmm_free_pages` of `count` pages from an address frees each of these pages that exists and is
  -- used, and changes no other page, no memory and, for a null pointer, no page at all; the allocator
  -- stays valid.
  pub pmm_free_pages-Drops : (count : ℕ) → Drops p (asked addr count) (pmm_free_pages p addr count)
  unfolding pmm_free_pages
  pmm_free_pages-Drops count = elim (Bool-cases (addr == 0)) [
    | inl null ↦ rw null (Drops-none p _ v (λ q h e. ground arith))
    | inr some_addr ↦ elim (Bool-cases (count == 0)) [
      | inl nothing ↦ rw (some_addr, nothing) (Drops-none p _ v (λ q h e. absurd (ground arith)))
      | inr more ↦
          rw (some_addr, more)
            (Drops-congr p _ (λ q. ground arith) (free_from-Drops count p (addr / page_size) v))
    ]
  ]

module _ (p : Pmm) (count : ℕ) (v : IsValid p) (pos : 0 < count) where
  -- Freeing the pages that `pmm_alloc_pages` returned leaves the set of used pages and their number
  -- as they were before, if the allocation succeeded.
  pub pmm_free_pages-pmm_alloc_pages :
      (pmm_alloc_pages p count).0 ≢ 0
      → let (addr, p') = pmm_alloc_pages p count in
        ((q : ℕ) → is_used (pmm_free_pages p' addr count) q ≡ is_used p q)
        × ((pmm_free_pages p' addr count).used_pages ≡ p.used_pages)
  pmm_free_pages-pmm_alloc_pages ok = elim (pmm_alloc_pages_lem p v count pos) [
    | inr r ↦ absurd (ok (ap (λ t. t.0) r.null))
    | inl (start, g) ↦
        let (addr, p') = pmm_alloc_pages p count in
        let d = pmm_free_pages-Drops p' addr g.valid count in
        let same : (q : ℕ) → is_used (pmm_free_pages p' addr count) q ≡ is_used p q = λ q.
          ground
            (arith, d.used_after q, g.now_used q, g.were_free q, g.address, g.same_total, g.fits) in
        (
          same,
          ground (
            arith,
            g.same_total,
            v.counted,
            d.valid.counted,
            d.same_total,
            count-congr (is_used (pmm_free_pages p' addr count)) (is_used p) p.total_pages
                (λ i _. same i),
          ),
        )
  ]

-- While page 0 is free, `pmm_alloc` returns null as if memory had run out, and marks page 0 used.
pub pmm_alloc_page_zero :
    (p : Pmm)
    → IsValid p
    → 0 < p.total_pages
    → is_used p 0 ≡ false
    → ((pmm_alloc p).0 ≡ 0) × (is_used (pmm_alloc p).1 0 ≡ true)
pmm_alloc_page_zero p v some_page free = elim (pmm_alloc_lem p v) [
  | inl (start, g) ↦
      let first : start ≡ 0 = elim (Bool-cases (start == 0)) [
        | inl z ↦ ground arith
        | inr nz ↦ absurd (g.lowest 0 (ground arith) (λ q lo hi. ground arith))
      ] in
      (omega (arith, g.address), ground (arith, g.now_used 0))
  | inr r ↦ absurd (r.no_run 0 (omega arith) (λ q lo hi. ground arith))
]
