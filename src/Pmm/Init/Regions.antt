-- ===== src/Pmm/Init/Regions.antt =====
-- The loops of `pmm_init` that free and mark regions of pages.
use blackmount.Common.{
  ℕ, zero, suc, ◌+◌, ◌/◌, ◌<◌, ◌≡◌, refl, ◌∙◌, inl, inr, ◌&&◌, ◌||◌, Bool, true, false, List, [],
  ◌∷◌, ltb, ◌==◌, if◌then◌else◌, Bool-cases, arith,
}
use blackmount.Memory.Laws.{within}
use blackmount.Pmm.{Pmm, page_size, drop_page}
use blackmount.Pmm.IsValid.{IsValid, is_used, is_used-drop_page, drop_page-IsValid}
use blackmount.Pmm.Free.{Drops, Drops-none, Drops-congr}
use blackmount.Pmm.Init.{Entry, is_usable, free_region, free_usable}

-- Is the page in a usable region, by the loop that frees these?
abbrev pub in_usable : List Entry → ℕ → Bool
in_usable [] q = false
in_usable (e ∷ es) q =
    (is_usable e && within (e.base / page_size) (e.length / page_size) q) || in_usable es q

-- No page lies in two usable regions, as the boot loader's protocol promises.
abbrev pub IsApart : List Entry → Type 0
IsApart [] = Unit {0}
IsApart (e ∷ es) =
    ((q : ℕ)
      → is_usable e ≡ true
      → within (e.base / page_size) (e.length / page_size) q ≡ true
      → in_usable es q ≡ false)
    × IsApart es

Drops-trans :
    (p : Pmm) {d e : ℕ → Bool} (p' p'' : Pmm)
    → Drops p d p'
    → Drops p' e p''
    → Drops p (λ q. d q || e q) p''
Drops-trans p p' p'' h k = record {
  used_after = λ q. ground (arith, k.used_after q, h.used_after q, h.same_total);
  same_total = k.same_total ∙ h.same_total;
  same_mem = k.same_mem ∙ h.same_mem;
  valid = k.valid;
}

drop_page-Drops :
    (p : Pmm) (page : ℕ)
    → IsValid p
    → (page < p.total_pages → is_used p page ≡ true)
    → Drops p (λ q. page == q) (if ltb page p.total_pages then drop_page p page else p)
drop_page-Drops p page v used = elim (Bool-cases (ltb page p.total_pages)) [
  | inr past ↦ rw past (Drops-none p _ v (λ q h e. absurd (ground arith)))
  | inl inside ↦
      let lt : page < p.total_pages = ground arith in
      rw inside (record {
        used_after = λ q. ground (arith, is_used-drop_page p page v lt q);
        same_total = unfold drop_page in refl;
        same_mem = unfold drop_page in refl;
        valid = drop_page-IsValid p page v lt (used lt);
      })
]

free_region-Drops :
    (n : ℕ) (p : Pmm) (page : ℕ)
    → IsValid p
    → ((q : ℕ) → within page n q ≡ true → q < p.total_pages → is_used p q ≡ true)
    → Drops p (within page n) (free_region p page n)
unfolding free_region
free_region-Drops zero p page v used = Drops-none p _ v (λ q h e. absurd (ground arith))
free_region-Drops (suc n) p page v used =
    let one = drop_page-Drops p page v (used page (ground arith)) in
    Drops-congr p _ (λ q. ground arith)
      (Drops-trans p _ _ one (
        free_region-Drops n (if ltb page p.total_pages then drop_page p page else p) (page + 1)
          one.valid (λ q h k. ground (arith, one.used_after q, one.same_total, used q))))

pub free_usable-Drops :
    (es : List Entry) (p : Pmm)
    → IsValid p
    → IsApart es
    → ((q : ℕ) → in_usable es q ≡ true → q < p.total_pages → is_used p q ≡ true)
    → Drops p (in_usable es) (free_usable p es)
unfolding free_usable
free_usable-Drops [] p v apart used = Drops-none p _ v (λ q h e. cc)
free_usable-Drops (e ∷ es) p v apart used = elim (Bool-cases (is_usable e)) [
  | inr other ↦ rw other (
      Drops-congr p _ (λ q. ground arith)
        (free_usable-Drops es p v apart.1 (λ q h k. used q (ground arith) k)))
  | inl here ↦
      let base : ℕ = e.base / page_size in
      let pages : ℕ = e.length / page_size in
      let one = free_region-Drops pages p base v (λ q h k. used q (ground arith) k) in
      rw here (
        Drops-congr p _ (λ q. ground arith)
          (Drops-trans p _ _ one (
            free_usable-Drops es (free_region p base pages) one.valid apart.1
              (λ q h k. ground (arith, one.used_after q, one.same_total, used q, apart.0 q here)))))
]
