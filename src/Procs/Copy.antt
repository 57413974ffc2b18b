-- ===== src/Procs/Copy.antt =====
-- What a fork of proc.c puts into a slot of the table, and when it can: the parts of its result.
use blackmount.Common.{
  ℕ, zero, suc, ◌+◌, ◌-◌, ◌^◌, ◌<◌, ◌≡◌, ◌≢◌, refl, sym, subst, ◌∙◌, true, false, List, [], ◌∷◌,
  none, length, get_or-set_self, get_or-set_ne, ◌==◌, if◌then◌else◌, ◌⊎◌, inl, inr, Bool-cases, All,
  arith,
}
use blackmount.Common.Int.{minus_one}
use blackmount.Procs.{proc_ready, Pcb, Procs, Registers, unused_pcb, is_unused, pcb_at}
use blackmount.Procs.Create.{find_unused, add_proc}
use blackmount.Procs.Fork.{Copied, no_space, cut_short, copied, copy_space, child_of}

-- The copy of a process that a fork makes: what is new, and what is the parent's.
pub record IsCopy (parent : Pcb) (frame : Registers) (pid space : ℕ) (child : Pcb) : Type 0 where
  pub ready : child.state ≡ proc_ready
  pub number : child.proc.pid ≡ pid
  pub parent_number : child.proc.ppid ≡ parent.proc.pid
  pub own_space : child.address_space ≡ space
  pub result : child.context.rax ≡ 0
  pub registers :
      (child.context.rip ≡ frame.rip)
      × (child.context.rsp ≡ frame.rsp)
      × (child.context.cs ≡ frame.cs)
      × (child.context.ss ≡ frame.ss)
      × (child.context.rflags ≡ frame.rflags)
      × (child.context.others ≡ frame.others)
  pub no_history :
      (child.proc.cpu_time ≡ 0)
      × (child.proc.exit_code ≡ 0)
      × (child.proc.waiting_for ≡ 2 ^ 32 - 1)
      × (child.vfork_parent ≡ minus_one)
  pub kind : (child.proc.kind ≡ parent.proc.kind) × (child.proc.priority ≡ parent.proc.priority)
  pub user :
      (child.proc.owner ≡ parent.proc.owner)
      × (child.proc.euid ≡ parent.proc.euid)
      × (child.proc.saved_uid ≡ parent.proc.saved_uid)
  pub groups :
      (child.proc.group ≡ parent.proc.group)
      × (child.proc.egroup ≡ parent.proc.egroup)
      × (child.proc.saved_gid ≡ parent.proc.saved_gid)
  pub layout :
      (child.code_vaddr_start ≡ parent.code_vaddr_start)
      × (child.code_vaddr_end ≡ parent.code_vaddr_end)
      × (child.stack_vaddr_base ≡ parent.stack_vaddr_base)
      × (child.stack_vaddr_top ≡ parent.stack_vaddr_top)
      × (child.heap_start ≡ parent.heap_start)
      × (child.heap_end ≡ parent.heap_end)
  pub directory : child.cwd ≡ parent.cwd

-- Every slot of the table is in use.
abbrev pub NoSlot : Procs → Type 0
NoSlot procs = All (λ p. is_unused p.state ≡ false) procs.proc_table

-- The copy of the parent's address space: none is needed for a parent without one.
abbrev pub HasSpace : ℕ → Copied → ℕ → Type 0
HasSpace old made space = ((old ≡ 0) × (space ≡ 0)) ⊎ ((old ≢ 0) × (made ≡ copied space))

abbrev pub NoCopy : ℕ → Copied → Type 0
NoCopy old made = (old ≢ 0) × ((made ≡ no_space) ⊎ ((space : ℕ) × (made ≡ cut_short space)))

-- The table with the process in one slot changed.
pub record NewIn (procs procs' : Procs) (slot : ℕ) (child : Pcb) : Type 0 where
  pub was_unused : is_unused (pcb_at procs slot).state ≡ true
  pub table : (i : ℕ) → pcb_at procs' i ≡ (if slot == i then child else pcb_at procs i)
  pub still_current : procs'.current_proc ≡ procs.current_proc
  pub next_number : procs'.next_pid ≡ procs.next_pid + 1

-- A search without result has met no unused slot.
pub find_unused-none :
    (ps : List Pcb) (i : ℕ) → find_unused ps i ≡ none → All (λ p. is_unused p.state ≡ false) ps
unfolding find_unused
find_unused-none [] i e = tt
find_unused-none (p ∷ ps) i e = elim (Bool-cases (is_unused p.state)) [
  | inl unused ↦ absurd (ground (arith, e, unused))
  | inr busy ↦ (busy, find_unused-none ps (i + 1) (ground (arith, e, busy)))
]

pub child_of-IsCopy :
    (procs : Procs) (parent : Pcb) (space : ℕ) (frame : Registers)
    → IsCopy parent frame procs.next_pid space (child_of procs parent space frame)
child_of-IsCopy procs parent space frame = record {
  ready = refl;
  number = refl;
  parent_number = refl;
  own_space = refl;
  result = refl;
  registers = (refl, refl, refl, refl, refl, refl);
  no_history = (refl, refl, refl, refl);
  kind = (refl, refl);
  user = (refl, refl, refl);
  groups = (refl, refl, refl);
  layout = (refl, refl, refl, refl, refl, refl);
  directory = refl;
}

pub add_proc-NewIn :
    (procs : Procs) (slot : ℕ) (p : Pcb)
    → slot < length procs.proc_table
    → is_unused (pcb_at procs slot).state ≡ true
    → procs.next_pid + 1 < 2 ^ 32
    → NewIn procs (add_proc procs slot p) slot p
add_proc-NewIn procs slot p near unused room = record {
  was_unused = unused;
  table = λ i. elim (Bool-cases (slot == i)) [
    | inl same ↦
        let here : slot ≡ i = ground (arith, same) in
        rw same (
          subst (λ k. pcb_at (add_proc procs slot p) k ≡ p) here
            (get_or-set_self procs.proc_table slot p unused_pcb near))
    | inr other ↦
        rw other
          (get_or-set_ne procs.proc_table slot i p unused_pcb (λ same. ground (arith, other, same)))
  ];
  still_current = refl;
  next_number = omega (arith, room);
}

copy_space_own : (old : ℕ) (made : Copied) → copy_space (suc old) made ≡ made
copy_space_own old made =
    let some_space : (suc old == 0) ≡ false = ground arith in rw some_space refl

pub copy_space-none : (old : ℕ) (made : Copied) → copy_space old made ≡ no_space → NoCopy old made
copy_space-none zero made e = absurd (ground (arith, e))
copy_space-none (suc old) made e =
    (λ null. ground (arith, null), inl (sym (copy_space_own old made) ∙ e))

pub copy_space-cut_short :
    (old : ℕ) (made : Copied) (space : ℕ) → copy_space old made ≡ cut_short space → NoCopy old made
copy_space-cut_short zero made space e = absurd (ground (arith, e))
copy_space-cut_short (suc old) made space e =
    (λ null. ground (arith, null), inr (space, sym (copy_space_own old made) ∙ e))

pub copy_space-copied :
    (old : ℕ) (made : Copied) (space : ℕ)
    → copy_space old made ≡ copied space
    → HasSpace old made space
copy_space-copied zero made space e = inl (refl, ground (arith, e))
copy_space-copied (suc old) made space e =
    inr (λ null. ground (arith, null), sym (copy_space_own old made) ∙ e)
