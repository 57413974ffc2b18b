-- ===== src/Procs/Young.antt =====
-- `proc_fork` of proc.c keeps the table in the order that the end of processes relies on.
use blackmount.Common.{
  ℕ, suc, ◌+◌, ◌^◌, ◌<◌, ◌≡◌, sym, ap, subst, ◌∙◌, true, List, [], ◌∷◌, some, length, length-set,
  get_or, get_or-set_self, get_or-set_ne, ◌==◌, ◌⊎◌, inl, inr, Bool-cases, arith,
}
use blackmount.Common.Int.{ℤ, pos, minus_one}
use blackmount.Procs.{Pcb, Procs, Registers, unused_pcb, is_unused, pcb_at}
use blackmount.Procs.Create.{find_unused, pcb_alloc_slot, add_proc}
use blackmount.Procs.Fork.{Copied}
use blackmount.Procs.Copy.{IsCopy, NoSlot, HasSpace, NoCopy, NewIn}
use blackmount.Procs.Exit.{is_live}
use blackmount.Procs.Kill.{IsOrdered, live_at}

-- The slot that is found is unused, and stands in the table.
find_unused_lem :
    (ps : List Pcb) (i k : ℕ)
    → find_unused ps i ≡ some k
    → (j : ℕ) × (k ≡ i + j) × (j < length ps) × (is_unused (get_or ps j unused_pcb).state ≡ true)
unfolding find_unused
find_unused_lem [] i k e = absurd (ground (arith, e))
find_unused_lem (p ∷ ps) i k e = elim (Bool-cases (is_unused p.state)) [
  | inl unused ↦ (0, ground (arith, e, unused), omega arith, unused)
  | inr busy ↦
      let (j, at, near, unused) = find_unused_lem ps (i + 1) k (ground (arith, e, busy)) in
      (suc j, omega (arith, at), omega (arith, near), unused)
]

pub pcb_alloc_slot_lem :
    (procs : Procs) (slot : ℕ)
    → pcb_alloc_slot procs ≡ some slot
    → (slot < length procs.proc_table) × (is_unused (pcb_at procs slot).state ≡ true)
unfolding pcb_alloc_slot
pcb_alloc_slot_lem procs slot e =
    let (j, at, near, unused) = find_unused_lem procs.proc_table 0 slot e in
    let same : j ≡ slot = omega (arith, at) in
    (omega (arith, same, near), subst (λ k. is_unused (pcb_at procs k).state ≡ true) same unused)

-- What stands in the slots after a process is added.
added-at :
    (procs : Procs) (slot : ℕ) (p : Pcb) (i : ℕ)
    → slot < length procs.proc_table
    → (pcb_at (add_proc procs slot p) i ≡ p) ⊎ (pcb_at (add_proc procs slot p) i ≡ pcb_at procs i)
added-at procs slot p i near = elim (Bool-cases (slot == i)) [
  | inl same ↦
      let here : slot ≡ i = ground (arith, same) in
      inl (
        subst (λ k. pcb_at (add_proc procs slot p) k ≡ p) here
          (get_or-set_self procs.proc_table slot p unused_pcb near))
  | inr other ↦
      inr (get_or-set_ne procs.proc_table slot i p unused_pcb (λ same. ground (arith, other, same)))
]

abbrev Young : ℕ → Pcb → Type 0
Young bound p = (p.proc.ppid < p.proc.pid) × (p.proc.pid < bound)

-- A process younger than all others is added.
pub add_proc-IsOrdered :
    (procs : Procs) (slot : ℕ) (p : Pcb)
    → IsOrdered procs.next_pid procs
    → slot < length procs.proc_table
    → procs.next_pid + 1 < 2 ^ 32
    → p.proc.pid ≡ procs.next_pid
    → p.proc.ppid < procs.next_pid
    → IsOrdered (add_proc procs slot p).next_pid (add_proc procs slot p)
add_proc-IsOrdered procs slot p h near room pid ppid = record {
  slots = length-set procs.proc_table slot p ∙ h.slots;
  older = λ i live. (young i live).0;
  bounded = λ i live. (young i live).1;
}
  where
    after : Procs
    after = add_proc procs slot p

    young : (i : ℕ) → live_at after i ≡ true → Young after.next_pid (pcb_at after i)
    young i live = elim (added-at procs slot p i near) [
      | inl new ↦
          subst (Young after.next_pid) (sym new)
            (omega (arith, pid, ppid), omega (arith, pid, room))
      | inr old ↦
          let was : live_at procs i ≡ true = ap (λ (q : Pcb). is_live q.state) (sym old) ∙ live in
          subst (Young after.next_pid) (sym old)
            (h.older i was, omega (arith, h.bounded i was, room))
    ]

-- The two ends of a fork.
abbrev pub Forked : Procs → ℕ → Copied → Registers → ℤ × Procs → Type 0
Forked procs c made frame (r, procs') =
    ((r ≡ minus_one)
      × (procs'.proc_table ≡ procs.proc_table)
      × (NoSlot procs ⊎ NoCopy (pcb_at procs c).address_space made))
    ⊎ ((r ≡ pos procs.next_pid)
        × (slot : ℕ) × (space : ℕ) × (child : Pcb) × HasSpace (pcb_at procs c).address_space made
            space
        × NewIn procs procs' slot child
        × IsCopy (pcb_at procs c) frame procs.next_pid space child)

abbrev pub Kept : Procs → ℕ → Copied → Registers → ℤ × Procs → Type 0
Kept procs c made frame r = IsOrdered r.1.next_pid r.1 × Forked procs c made frame r
