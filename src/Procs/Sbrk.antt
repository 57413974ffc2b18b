-- ===== src/Procs/Sbrk.antt =====
-- What `proc_sbrk` of proc.c does to the heap of a process and to its pages.
use blackmount.Common.{
  ℕ, suc, ◌+◌, ◌≤◌, ◌<◌, ◌≡◌, refl, ap, Bool, false, List, [], none, some, length, get_or-set_self,
  ◌==◌, ◌⊎◌, inl, inr, Option-cases, arith,
}
use blackmount.Common.Int.{ℤ, pos, negsuc}
use blackmount.Procs.{Pcb, Procs, unused_pcb, pcb_at, put_pcb}
use blackmount.Procs.Break.{
  minus_one_64, heap_limit, Pages, no_pages, pages_from, brk, moved_break, is_zero, old_break, sbrk,
  put_back, on_heap, proc_sbrk,
}
use blackmount.Procs.Heap.{IsHeap, page_range, page_behind, Out, Stopped, Set, brk_lem}

-- The new end of the heap, for an increment.
abbrev pub Moved : ℤ → ℕ → ℕ → Type 0
Moved (pos n) old new = new ≡ old + n
Moved (negsuc n) old new = new + suc n ≡ old

-- The end that the increment asks for is past the limit, or before the start of the heap.
abbrev pub Outside : ℤ → Pcb → Type 0
Outside (pos n) p = heap_limit p < p.heap_end + n
Outside (negsuc n) p = p.heap_end < p.heap_start + suc n

-- Only a growing heap stops at a page: the one with number `k`, with the pages before it mapped.
abbrev pub Halted : (ℕ → Bool) → ℤ → Pcb → List ℕ → Type 0
Halted maps (negsuc n) p mapped = ⊥
Halted maps (pos n) p mapped =
    (k : ℕ) × (page_behind p k < p.heap_end + n)
    × (maps (page_behind p k) ≡ false)
    × (mapped ≡ pages_from (page_behind p 0) k)

abbrev pub Grew : ℤ → Pcb → ℕ × Pcb × Pages → Type 0
Grew increment p (r, q, pages) =
    (r ≡ p.heap_end)
    × Moved increment p.heap_end q.heap_end
    × (q ≡ record p { heap_end = q.heap_end })
    × IsHeap q
    × (pages.mapped ≡ page_range p.heap_end q.heap_end)
    × (pages.unmapped ≡ page_range q.heap_end p.heap_end)

abbrev pub Refused : (ℕ → Bool) → ℤ → Pcb → ℕ × Pcb × Pages → Type 0
Refused maps increment p (r, q, pages) =
    (r ≡ minus_one_64)
    × (q ≡ p)
    × (pages.unmapped ≡ [])
    × ((Outside increment p × (pages.mapped ≡ [])) ⊎ Halted maps increment p pages.mapped)

abbrev pub Ends : (ℕ → Bool) → ℤ → Pcb → ℕ × Pcb × Pages → Type 0
Ends maps increment p r = Grew increment p r ⊎ Refused maps increment p r

sbrk_to :
    (maps : ℕ → Bool) (p : Pcb) (increment : ℤ) (b : ℕ)
    → is_zero increment ≡ false
    → moved_break p increment ≡ some b
    → sbrk maps p increment ≡ old_break p.heap_end (brk maps p b)
unfolding sbrk
sbrk_to maps p increment b nonzero e = rw (nonzero, e) refl

sbrk_nowhere :
    (maps : ℕ → Bool) (p : Pcb) (increment : ℤ)
    → is_zero increment ≡ false
    → moved_break p increment ≡ none
    → sbrk maps p increment ≡ (minus_one_64, p, no_pages)
unfolding sbrk
sbrk_nowhere maps p increment nonzero e = rw (nonzero, e) refl

moved_break_lem :
    (p : Pcb) (increment : ℤ) (b : ℕ)
    → IsHeap p
    → moved_break p increment ≡ some b
    → Moved increment p.heap_end b × (p.heap_start ≤ b)
unfolding moved_break
moved_break_lem p (pos n) b h e = (ground (arith, e), ground (arith, e, h.from))
moved_break_lem p (negsuc n) b h e =
    (ground (arith, e, h.from, h.to, h.word), ground (arith, e, h.from, h.to, h.word))

moved_break-none :
    (p : Pcb) (increment : ℤ) → IsHeap p → moved_break p increment ≡ none → Outside increment p
unfolding moved_break
moved_break-none p (pos n) h e = ground (arith, e, h.word)
moved_break-none p (negsuc n) h e = ground (arith, e, h.from, h.to, h.word)

-- What the ends of `brk` are for the increment that asks for the break.
out_Outside :
    (p : Pcb) (increment : ℤ) (b : ℕ)
    → IsHeap p
    → Moved increment p.heap_end b
    → p.heap_start ≤ b
    → (b < p.heap_start) ⊎ (heap_limit p < b)
    → Outside increment p
out_Outside p (pos n) b h moved low (inl below) = absurd (omega (arith, low, below))
out_Outside p (pos n) b h moved low (inr above) = omega (arith, moved, above)
out_Outside p (negsuc n) b h moved low (inl below) = absurd (omega (arith, low, below))
out_Outside p (negsuc n) b h moved low (inr above) = absurd (omega (arith, moved, above, h.to))

halted :
    (maps : ℕ → Bool) (p : Pcb) (increment : ℤ) (b k : ℕ)
    → Moved increment p.heap_end b
    → page_behind p k < b
    → maps (page_behind p k) ≡ false
    → Halted maps increment p (pages_from (page_behind p 0) k)
halted maps p (pos n) b k moved near lost = (k, omega (arith, moved, near), lost, refl)
halted maps p (negsuc n) b k moved near lost = absurd (omega (arith, moved, near))

old_break-Ends :
    (maps : ℕ → Bool) (p : Pcb) (increment : ℤ) (b : ℕ) (r : ℕ × Pcb × Pages)
    → IsHeap p
    → Moved increment p.heap_end b
    → p.heap_start ≤ b
    → Out p b r ⊎ (Stopped maps p b r ⊎ Set p b r)
    → Ends maps increment p (old_break p.heap_end r)
old_break-Ends maps p increment b r h moved low (inl (out, e)) =
    rw e (inr (refl, refl, refl, inl (out_Outside p increment b h moved low out, refl)))
old_break-Ends maps p increment b r h moved low (inr (inl (k, near, from, to, lost, e))) =
    rw e (inr (refl, refl, refl, inr (halted maps p increment b k moved near lost)))
old_break-Ends maps p increment b r h moved low (inr (inr (from, to, e))) =
    let differs : (p.heap_end == minus_one_64) ≡ false = ground (arith, h.to, h.word) in
    rw (e, differs)
      (inl (refl, moved, refl, record { from = from; to = to; word = h.word }, refl, refl))

sbrk_lem :
    (maps : ℕ → Bool) (p : Pcb) (increment : ℤ)
    → IsHeap p
    → 0 < p.heap_start
    → is_zero increment ≡ false
    → Ends maps increment p (sbrk maps p increment)
sbrk_lem maps p increment h positive nonzero = elim (Option-cases (moved_break p increment)) [
  | inl nowhere ↦
      rw (sbrk_nowhere maps p increment nonzero nowhere)
        (inr (refl, refl, refl, inl (moved_break-none p increment h nowhere, refl)))
  | inr (b, there) ↦
      let (moved, low) = moved_break_lem p increment b h there in
      rw (sbrk_to maps p increment b nonzero there) (
        old_break-Ends maps p increment b (brk maps p b) h moved low
          (brk_lem maps p b h (omega (arith, low, positive))))
]

-- A call of sbrk, with an increment other than 0, by a process whose heap lies between its start and
-- the stack. Either it returns the old end of the heap, moves the end by the increment and changes
-- nothing else of the process; the end is within the bounds, and the pages between the old end and
-- the new one are mapped, or unmapped. Or it returns -1 and the process stays as it was. Then no page
-- is unmapped, and the new end would be out of bounds and no page is mapped, or a page before the new
-- end cannot be mapped, and all the pages before that one stay mapped behind the end of the heap.
pub proc_sbrk_lem :
    (maps : ℕ → Bool) (procs : Procs) (c : ℕ) (increment : ℤ)
    → procs.current_proc ≡ pos c
    → c < length procs.proc_table
    → IsHeap (pcb_at procs c)
    → 0 < (pcb_at procs c).heap_start
    → is_zero increment ≡ false
    → let (r, procs', pages) = proc_sbrk maps procs increment in
      Ends maps increment (pcb_at procs c) (r, pcb_at procs' c, pages)
unfolding proc_sbrk on_heap
proc_sbrk_lem maps procs c increment current near h positive nonzero =
    let p : Pcb = pcb_at procs c in
    let r = sbrk maps p increment in
    let now : pcb_at (put_pcb procs c r.1) c ≡ r.1 =
      get_or-set_self procs.proc_table c r.1 unused_pcb near in
    let run : proc_sbrk maps procs increment ≡ put_back procs c r =
      ap (on_heap (λ q. sbrk maps q increment) procs) current in
    rw (run, now) (sbrk_lem maps p increment h positive nonzero)
