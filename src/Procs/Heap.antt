-- ===== src/Procs/Heap.antt =====
-- What `proc_brk` of proc.c does to the heap of a process and to its pages.
use blackmount.Common.{
  ℕ, zero, suc, ◌+◌, ◌-◌, ◌*◌, ◌/◌, ◌^◌, ◌≤◌, ◌<◌, ◌≡◌, refl, ap, ap₂, sym, ◌∙◌, Bool, true, false,
  List, [], ltb, ◌==◌, ◌||◌, if◌then◌else◌, ◌⊎◌, inl, inr, Bool-cases, arith,
}
use blackmount.Procs.{Pcb}
use blackmount.Procs.Create.{page_size, page_up}
use blackmount.Procs.Break.{
  minus_one_64, heap_limit, Pages, no_pages, pages_from, map_pages, grown, brk,
}

-- The heap lies between its start and the stack, or the end of the user code for a process without one.
pub record IsHeap (p : Pcb) : Type 0 where
  pub from : p.heap_start ≤ p.heap_end
  pub to : p.heap_end ≤ heap_limit p
  pub word : heap_limit p + page_size < 2 ^ 64

-- The pages from the first one that starts at `a` or behind it to the last one that starts before `b`.
abbrev pub page_range : ℕ → ℕ → List ℕ
page_range a b = pages_from ((a + 4095) / 4096 * 4096) ((b + 4095) / 4096 - (a + 4095) / 4096)

-- The page with number `k` from the end of the heap on.
abbrev pub page_behind : Pcb → ℕ → ℕ
page_behind p k = ((p.heap_end + 4095) / 4096 + k) * 4096

-- The mapping of pages stops at the first one that fails, the pages before it being mapped.
map_pages_lem :
    (maps : ℕ → Bool) (va n : ℕ)
    → (map_pages maps va n ≡ (true, pages_from va n))
      ⊎ ((k : ℕ) × (k < n)
          × (maps (va + k * page_size) ≡ false)
          × (map_pages maps va n ≡ (false, pages_from va k)))
unfolding map_pages
map_pages_lem maps va zero = inl refl
map_pages_lem maps va (suc n) = elim (Bool-cases (maps va)) [
  | inr lost ↦
      let here : va + 0 * page_size ≡ va = omega arith in
      inr (0, omega arith, ap maps here ∙ lost, rw lost refl)
  | inl fine ↦ elim (map_pages_lem maps (va + page_size) n) [
    | inl all ↦ inl (rw (fine, all) refl)
    | inr (k, near, lost, e) ↦
        let there : va + suc k * page_size ≡ va + page_size + k * page_size = omega arith in
        inr (suc k, omega (arith, near), ap maps there ∙ lost, rw (fine, e) refl)
  ]
]

-- The three ends of `brk` with a break other than 0.
abbrev pub Out : Pcb → ℕ → ℕ × Pcb × Pages → Type 0
Out p b r = ((b < p.heap_start) ⊎ (heap_limit p < b)) × (r ≡ (minus_one_64, p, no_pages))

abbrev pub Stopped : (ℕ → Bool) → Pcb → ℕ → ℕ × Pcb × Pages → Type 0
Stopped maps p b r =
    (k : ℕ) × (page_behind p k < b)
    × (p.heap_start ≤ b)
    × (b ≤ heap_limit p)
    × (maps (page_behind p k) ≡ false)
    × (r ≡ (minus_one_64, p, record { mapped = pages_from (page_behind p 0) k; unmapped = [] }))

abbrev pub Set : Pcb → ℕ → ℕ × Pcb × Pages → Type 0
Set p b r =
    (p.heap_start ≤ b)
    × (b ≤ heap_limit p)
    × (r ≡ (
      p.heap_end,
      record p { heap_end = b },
      record { mapped = page_range p.heap_end b; unmapped = page_range b p.heap_end },
    ))

plain_up : (a : ℕ) → a + page_size < 2 ^ 64 → page_up a ≡ (a + 4095) / 4096 * 4096
plain_up a small = omega (arith, small)

no_range : (a b : ℕ) → b ≤ a → page_range a b ≡ []
no_range a b le =
    let none_there : (b + 4095) / 4096 - (a + 4095) / 4096 ≡ 0 = omega (arith, le) in
    ap (pages_from ((a + 4095) / 4096 * 4096)) none_there

range_number :
    (a b : ℕ)
    → a + page_size < 2 ^ 64
    → b + page_size < 2 ^ 64
    → (page_up b - page_up a) / page_size ≡ (b + 4095) / 4096 - (a + 4095) / 4096
range_number a b small_a small_b = omega (arith, small_a, small_b)

plain_range :
    (a b : ℕ)
    → a + page_size < 2 ^ 64
    → b + page_size < 2 ^ 64
    → pages_from (page_up a) ((page_up b - page_up a) / page_size) ≡ page_range a b
plain_range a b small_a small_b =
    ap₂ pages_from (plain_up a small_a) (range_number a b small_a small_b)

-- The pages that a heap which does not grow gives up.
given_up :
    (p : Pcb) (b : ℕ)
    → b ≤ p.heap_end
    → p.heap_end + page_size < 2 ^ 64
    → (if ltb b p.heap_end
        then pages_from (page_up b) ((page_up p.heap_end - page_up b) / page_size)
        else [])
      ≡ page_range b p.heap_end
given_up p b le small = elim (Bool-cases (ltb b p.heap_end)) [
  | inl less ↦ rw less (plain_range b p.heap_end (omega (arith, le, small)) small)
  | inr same ↦ rw same (sym (no_range b p.heap_end (ground (arith, same))))
]

brk_grows :
    (maps : ℕ → Bool) (p : Pcb) (b n va : ℕ)
    → IsHeap p
    → p.heap_end < b
    → p.heap_start ≤ b
    → b ≤ heap_limit p
    → va ≡ (p.heap_end + 4095) / 4096 * 4096
    → n ≡ (b + 4095) / 4096 - (p.heap_end + 4095) / 4096
    → Stopped maps p b (grown p b (map_pages maps va n)) ⊎ Set p b (grown p b (map_pages maps va n))
brk_grows maps p b n va h more low high at many = elim (map_pages_lem maps va n) [
  | inl all ↦ rw all (
      inr (
        low,
        high,
        ap₂
            (λ (m u : List ℕ).
              (p.heap_end, record p { heap_end = b }, record { mapped = m; unmapped = u }))
            (ap₂ pages_from at many) (sym (no_range b p.heap_end (omega (arith, more)))),
      ))
  | inr (k, near, lost, e) ↦
      let there : va + k * page_size ≡ page_behind p k = omega (arith, at) in
      let first : va ≡ page_behind p 0 = omega (arith, at) in
      rw e (
        inl (
          k,
          omega (arith, near, many),
          low,
          high,
          ap maps (sym there) ∙ lost,
          ap (λ (v : ℕ). (minus_one_64, p, record { mapped = pages_from v k; unmapped = [] }))
              first,
        ))
]

pub brk_lem :
    (maps : ℕ → Bool) (p : Pcb) (b : ℕ)
    → IsHeap p
    → 0 < b
    → Out p b (brk maps p b) ⊎ (Stopped maps p b (brk maps p b) ⊎ Set p b (brk maps p b))
unfolding brk
brk_lem maps p b h positive =
    let nonzero : (b == 0) ≡ false = ground (arith, positive) in
    elim (Bool-cases (ltb b p.heap_start || ltb (heap_limit p) b)) [
      | inl outside ↦ inl (ground (arith, outside), rw (nonzero, outside) refl)
      | inr inside ↦ elim (Bool-cases (ltb p.heap_end b)) [
        | inl more ↦
            rw (nonzero, inside, more)
              (inr (
                brk_grows maps p b _ _ h (ground (arith, more)) (ground (arith, inside))
                  (ground (arith, inside)) (plain_up p.heap_end (omega (arith, h.to, h.word)))
                  (range_number p.heap_end b (omega (arith, h.to, h.word))
                    (ground (arith, inside, h.word)))))
        | inr less ↦ inr (
            inr (
              ground (arith, inside),
              ground (arith, inside),
              rw (nonzero, inside, less)
                  (ap₂
                    (λ (m u : List ℕ).
                      (p.heap_end, record p { heap_end = b }, record { mapped = m; unmapped = u }))
                    (sym (no_range p.heap_end b (ground (arith, less))))
                    (given_up p b (ground (arith, less)) (omega (arith, h.to, h.word)))),
            ))
      ]
    ]
