-- ===== src/Procs/Break.antt =====
-- The heap of a process in proc.c: `proc_brk`, `proc_sbrk` and `proc_is_valid_demand_addr`. Whether
-- a page can be mapped is an argument; the pages that a call maps and unmaps are results of it. A number of 64 bits is
-- returned as it is, with 2^64 - 1 for -1.
use blackmount.Common.{
  true, List, [], ◌∷◌, ℕ, zero, suc, ◌+◌, ◌-◌, ◌/◌, ◌%◌, ◌^◌, Bool, false, Option, none, some, ltb,
  leb, ◌==◌, ◌&&◌, ◌||◌, if◌then◌else◌,
}
use blackmount.Common.Int.{ℤ, pos, negsuc}
use blackmount.Procs.{Pcb, Procs, pcb_at, put_pcb}
use blackmount.Procs.Create.{page_size, u64_mod, user_code_limit, page_up}

abbrev pub minus_one_64 : ℕ
minus_one_64 = 2 ^ 64 - 1

-- `proc_is_valid_demand_addr` for the process in a slot.
unfoldable pub demand_addr_at : Pcb → ℕ → Bool
demand_addr_at p vaddr =
    (leb p.stack_vaddr_base vaddr && ltb vaddr p.stack_vaddr_top)
    || (leb p.code_vaddr_start vaddr && ltb vaddr (page_up p.code_vaddr_end))
    || (leb p.heap_start vaddr && ltb vaddr p.heap_end)

unfoldable pub of_current_pcb {ℓ} : {A : Type ℓ} → (Pcb → A) → A → Procs → ℤ → A
of_current_pcb act failed procs (negsuc n) = failed
of_current_pcb act failed procs (pos c) = act (pcb_at procs c)

unfoldable pub proc_is_valid_demand_addr : Procs → ℕ → Bool
proc_is_valid_demand_addr procs vaddr =
    of_current_pcb (λ p. demand_addr_at p vaddr) false procs procs.current_proc

abbrev pub heap_limit : Pcb → ℕ
heap_limit p = if p.stack_vaddr_base == 0 then user_code_limit else p.stack_vaddr_base

-- The pages that a call maps, and those that it unmaps, in its order.
pub record Pages : Type 0 where
  pub mapped : List ℕ
  pub unmapped : List ℕ

abbrev pub no_pages : Pages
no_pages = record { mapped = []; unmapped = [] }

-- The `n` pages from `va` on.
abbrev pub pages_from : ℕ → ℕ → List ℕ
pages_from va zero = []
pages_from va (suc n) = va ∷ pages_from (va + page_size) n

-- Maps `n` pages from `va` on, up to the first that cannot be mapped; the others stay mapped.
unfoldable pub map_pages : (ℕ → Bool) → ℕ → ℕ → Bool × List ℕ
map_pages maps va zero = (true, [])
map_pages maps va (suc n) =
    let rest : Bool × List ℕ = map_pages maps (va + page_size) n in
    if maps va then (rest.0, va ∷ rest.1) else (false, [])

-- The end of `proc_brk` where the heap grows.
abbrev pub grown : Pcb → ℕ → Bool × List ℕ → ℕ × Pcb × Pages
grown p new_brk (false, mapped) = (minus_one_64, p, record { mapped = mapped; unmapped = [] })
grown p new_brk (true, mapped) =
    (p.heap_end, record p { heap_end = new_brk }, record { mapped = mapped; unmapped = [] })

-- `proc_brk` of one process: what it returns, the process after it, and the pages.
unfoldable pub brk : (ℕ → Bool) → Pcb → ℕ → ℕ × Pcb × Pages
unfolding map_pages
brk maps p new_brk =
    if new_brk == 0
    then (p.heap_end, p, no_pages)
    else if ltb new_brk p.heap_start || ltb (heap_limit p) new_brk
    then (minus_one_64, p, no_pages)
    else if ltb p.heap_end new_brk
    then grown p new_brk
        (map_pages maps (page_up p.heap_end) ((page_up new_brk - page_up p.heap_end) / page_size))
    else (
      p.heap_end,
      record p { heap_end = new_brk },
      record {
        mapped = [];
        unmapped =
            if ltb new_brk p.heap_end
            then pages_from (page_up new_brk) ((page_up p.heap_end - page_up new_brk) / page_size)
            else [];
      },
    )

-- The break that an increment asks for.
unfoldable pub moved_break : Pcb → ℤ → Option ℕ
moved_break p (pos n) = if leb u64_mod (p.heap_end + n) then none else some (p.heap_end + n)
moved_break p (negsuc n) =
    if ltb ((p.heap_end + u64_mod - p.heap_start) % u64_mod) (n + 1)
    then none
    else some ((p.heap_end + u64_mod - (n + 1)) % u64_mod)

abbrev pub is_zero : ℤ → Bool
is_zero (pos n) = n == 0
is_zero (negsuc n) = false

-- What `proc_sbrk` makes of the result of `proc_brk`.
abbrev pub old_break : ℕ → ℕ × Pcb × Pages → ℕ × Pcb × Pages
old_break old_brk (r, q, pages) = ((if r == minus_one_64 then minus_one_64 else old_brk), q, pages)

-- `proc_sbrk` of one process.
unfoldable pub sbrk : (ℕ → Bool) → Pcb → ℤ → ℕ × Pcb × Pages
unfolding brk moved_break
sbrk maps p increment =
    if is_zero increment then (p.heap_end, p, no_pages) else elim (moved_break p increment) [
      | none ↦ (minus_one_64, p, no_pages)
      | some new_brk ↦ old_break p.heap_end (brk maps p new_brk)
    ]

abbrev pub put_back : Procs → ℕ → ℕ × Pcb × Pages → ℕ × Procs × Pages
put_back procs c (r, p, pages) = (r, put_pcb procs c p, pages)

unfoldable pub on_heap : (Pcb → ℕ × Pcb × Pages) → Procs → ℤ → ℕ × Procs × Pages
on_heap act procs (negsuc n) = (minus_one_64, procs, no_pages)
on_heap act procs (pos c) = put_back procs c (act (pcb_at procs c))

unfoldable pub proc_brk : (ℕ → Bool) → Procs → ℕ → ℕ × Procs × Pages
proc_brk maps procs new_brk = on_heap (λ p. brk maps p new_brk) procs procs.current_proc

unfoldable pub proc_sbrk : (ℕ → Bool) → Procs → ℤ → ℕ × Procs × Pages
proc_sbrk maps procs increment = on_heap (λ p. sbrk maps p increment) procs procs.current_proc
