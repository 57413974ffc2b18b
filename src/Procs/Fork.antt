-- ===== src/Procs/Fork.antt =====
-- `proc_fork`, `proc_vfork` and `proc_clone` of proc.c. Whether the copy of the address space could
-- be made is an argument.
use blackmount.Common.{ℕ, ◌∷◌, none, some, bit_and, ◌==◌, ◌||◌, not, if◌then◌else◌}
use blackmount.Common.Int.{ℤ, pos, negsuc, minus_one}
use blackmount.Procs.{
  Pcb, Procs, Registers, proc_ready, proc_blocked, pcb_at, put_pcb, proc_find_index,
}
use blackmount.Procs.Create.{no_pid, add_proc, pcb_alloc_slot}

-- `pcb_init_child` with `pcb_copy_layout`.
abbrev pub child_of : Procs → Pcb → ℕ → Registers → Pcb
child_of procs parent space frame = record parent {
  proc = record parent.proc {
    pid = procs.next_pid;
    ppid = parent.proc.pid;
    waiting_for = no_pid;
    cpu_time = 0;
    exit_code = 0;
  };
  state = proc_ready;
  address_space = space;
  vfork_parent = minus_one;
  context = record frame { rax = 0 };
}

-- What the kernel could make of the parent's address space: no new one, one that could not be filled,
-- or a copy.
pub data Copied : Type 0 where
  no_space : Copied
  cut_short copied : ℕ → Copied

-- The child's address space, or why there is none; a parent without one has nothing to copy.
abbrev pub copy_space : ℕ → Copied → Copied
copy_space space made = if space == 0 then copied 0 else made

-- A fork into an unused slot.
abbrev pub fork_into : Procs → ℕ → ℕ → Registers → Copied → ℤ × Procs
fork_into procs c slot frame no_space = (minus_one, procs)
fork_into procs c slot frame (cut_short space) =
    (minus_one, record procs { destroyed = space ∷ procs.destroyed })
fork_into procs c slot frame (copied space) =
    (pos procs.next_pid, add_proc procs slot (child_of procs (pcb_at procs c) space frame))

unfoldable pub fork_at : Procs → ℕ → Copied → Registers → ℤ × Procs
fork_at procs c made frame = elim (pcb_alloc_slot procs) [
  | none ↦ (minus_one, procs)
  | some slot ↦ fork_into procs c slot frame (copy_space (pcb_at procs c).address_space made)
]

-- A call works on the current process, and fails without one.
abbrev pub by_current : (ℕ → ℤ × Procs) → Procs → ℤ → ℤ × Procs
by_current act procs (negsuc n) = (minus_one, procs)
by_current act procs (pos c) = act c

unfoldable pub proc_fork : Procs → Copied → Registers → ℤ × Procs
proc_fork procs made frame = by_current (λ c. fork_at procs c made frame) procs procs.current_proc

-- The parent waits, with the registers that it goes on with.
abbrev pub suspend_parent : Procs → ℕ → ℕ → Registers → Procs
suspend_parent procs c child_pid frame = put_pcb procs c (record (pcb_at procs c) {
  context = record frame { rax = child_pid };
  state = proc_blocked;
  proc = record (pcb_at procs c).proc { waiting_for = child_pid };
})

unfoldable pub vfork_at : Procs → ℕ → Registers → ℤ × Procs
vfork_at procs c frame = elim (pcb_alloc_slot procs) [
  | none ↦ (minus_one, procs)
  | some slot ↦
      let child : Pcb =
        record (child_of procs (pcb_at procs c) (pcb_at procs c).address_space frame) {
          vfork_parent = pos (pcb_at procs c).proc.pid;
        } in
      (pos procs.next_pid, suspend_parent (add_proc procs slot child) c procs.next_pid frame)
]

unfoldable pub proc_vfork : Procs → Registers → ℤ × Procs
proc_vfork procs frame = by_current (λ c. vfork_at procs c frame) procs procs.current_proc

-- `if (pid > 0 && child_stack) { ... proc_table[idx].context.rsp = child_stack; }`
unfoldable pub set_child_stack : ℕ → ℤ × Procs → ℤ × Procs
set_child_stack child_stack (negsuc n, procs) = (negsuc n, procs)
set_child_stack child_stack (pos pid, procs) =
    if pid == 0 || child_stack == 0 then (pos pid, procs) else elim (proc_find_index procs pid) [
      | none ↦ (pos pid, procs)
      | some i ↦ (
        pos pid,
        put_pcb procs i (record (pcb_at procs i) {
          context = record (pcb_at procs i).context { rsp = child_stack };
        }),
      )
    ]

-- A thread in the parent's address space.
unfoldable pub thread_at : Procs → ℕ → ℕ → Registers → ℤ × Procs
thread_at procs c child_stack frame = elim (pcb_alloc_slot procs) [
  | none ↦ (minus_one, procs)
  | some slot ↦
      let child : Pcb = child_of procs (pcb_at procs c) (pcb_at procs c).address_space frame in
      (
        pos procs.next_pid,
        add_proc procs slot (
            if child_stack == 0
            then child
            else record child { context = record child.context { rsp = child_stack } }),
      )
]

unfoldable pub proc_clone : Procs → Copied → Registers → ℕ → ℕ → ℤ × Procs
unfolding proc_vfork proc_fork set_child_stack
proc_clone procs made frame flags child_stack =
    if not (bit_and flags 0x4000 == 0)
    then set_child_stack child_stack (proc_vfork procs frame)
    else if not (bit_and flags 0x100 == 0)
    then by_current (λ c. thread_at procs c child_stack frame) procs procs.current_proc
    else set_child_stack child_stack (proc_fork procs made frame)
