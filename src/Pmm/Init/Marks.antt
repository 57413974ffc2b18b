-- ===== src/Pmm/Init/Marks.antt =====
-- The loops of `pmm_init` that mark regions of pages as used.
use blackmount.Common.{
  ℕ, zero, suc, ◌+◌, ◌/◌, ◌<◌, ◌≡◌, refl, ◌∙◌, inl, inr, ◌&&◌, ◌||◌, not, Bool, true, false, List,
  [], ◌∷◌, ltb, ◌==◌, if◌then◌else◌, Bool-cases, arith,
}
use blackmount.Memory.Laws.{within}
use blackmount.Pmm.{Pmm, page_size, bitmap_test, take_page}
use blackmount.Pmm.IsValid.{IsValid, is_used, is_used-take_page, take_page-IsValid}
use blackmount.Pmm.Init.{Entry, is_reserved, div_up, mark_region, mark_reserved}

abbrev pub in_reserved : List Entry → ℕ → Bool
in_reserved [] q = false
in_reserved (e ∷ es) q =
    (is_reserved e && within (e.base / page_size) (div_up e.length) q) || in_reserved es q

-- The pages named by `marks` are used afterwards, and no other page changed.
pub record Marks (p : Pmm) (marks : ℕ → Bool) (p' : Pmm) : Type 0 where
  pub used_after :
      (q : ℕ) → is_used p' q ≡ (if marks q && ltb q p.total_pages then true else is_used p q)
  pub same_total : p'.total_pages ≡ p.total_pages
  pub same_mem : p'.mem ≡ p.mem
  pub valid : IsValid p'

Marks-none :
    (p : Pmm) (marks : ℕ → Bool)
    → IsValid p
    → ((q : ℕ) → marks q ≡ true → q < p.total_pages → is_used p q ≡ true)
    → Marks p marks p
Marks-none p marks v used = record {
  used_after = λ q. ground (arith, used q);
  same_total = refl;
  same_mem = refl;
  valid = v;
}

Marks-congr :
    (p : Pmm) {d e : ℕ → Bool} (p' : Pmm) → ((q : ℕ) → e q ≡ d q) → Marks p d p' → Marks p e p'
Marks-congr p p' same h = record {
  used_after = λ q. ground (arith, same q, h.used_after q);
  same_total = h.same_total;
  same_mem = h.same_mem;
  valid = h.valid;
}

Marks-trans :
    (p : Pmm) {d e : ℕ → Bool} (p' p'' : Pmm)
    → Marks p d p'
    → Marks p' e p''
    → Marks p (λ q. d q || e q) p''
Marks-trans p p' p'' h k = record {
  used_after = λ q. ground (arith, k.used_after q, h.used_after q, h.same_total);
  same_total = k.same_total ∙ h.same_total;
  same_mem = k.same_mem ∙ h.same_mem;
  valid = k.valid;
}

mark_page-Marks :
    (p : Pmm) (page : ℕ)
    → IsValid p
    → Marks p
        (λ q. page == q)
        (if ltb page p.total_pages && not (bitmap_test p.bitmap page) then take_page p page else p)
mark_page-Marks p page v =
    elim (Bool-cases (ltb page p.total_pages && not (bitmap_test p.bitmap page))) [
      | inr skip ↦ rw skip (Marks-none p _ v (λ q h k. ground arith))
      | inl free ↦
          let lt : page < p.total_pages = ground arith in
          rw free (record {
            used_after = λ q. ground (arith, is_used-take_page p page v lt q);
            same_total = unfold take_page in refl;
            same_mem = unfold take_page in refl;
            valid = take_page-IsValid p page v lt (ground arith);
          })
    ]

pub mark_region-Marks :
    (n : ℕ) (p : Pmm) (page : ℕ) → IsValid p → Marks p (within page n) (mark_region p page n)
unfolding mark_region
mark_region-Marks zero p page v = Marks-none p _ v (λ q h k. absurd (ground arith))
mark_region-Marks (suc n) p page v =
    let one = mark_page-Marks p page v in
    Marks-congr p _ (λ q. ground arith)
      (Marks-trans p _ _ one (mark_region-Marks n _ (page + 1) one.valid))

pub mark_reserved-Marks :
    (es : List Entry) (p : Pmm) → IsValid p → Marks p (in_reserved es) (mark_reserved p es)
unfolding mark_reserved
mark_reserved-Marks [] p v = Marks-none p _ v (λ q h k. absurd (cc))
mark_reserved-Marks (e ∷ es) p v = elim (Bool-cases (is_reserved e)) [
  | inr other ↦ rw other (Marks-congr p _ (λ q. ground arith) (mark_reserved-Marks es p v))
  | inl here ↦
      let one = mark_region-Marks (div_up e.length) p (e.base / page_size) v in
      rw here (
        Marks-congr p _ (λ q. ground arith)
          (Marks-trans p _ _ one (
            mark_reserved-Marks es (mark_region p (e.base / page_size) (div_up e.length))
              one.valid)))
]
