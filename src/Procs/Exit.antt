-- ===== src/Procs/Exit.antt =====
-- The functions of proc.c that end processes, and that wait for them.
use blackmount.Common.{
  ℕ, zero, suc, ◌+◌, ◌%◌, ◌^◌, Bool, true, false, ◌∷◌, Option, none, some, ◌==◌, ◌&&◌, ◌||◌, not,
  if◌then◌else◌,
}
use blackmount.Common.Int.{ℤ, pos, negsuc, minus_one}
use blackmount.Procs.{
  Pcb, Procs, Registers, State, proc_unused, proc_ready, proc_running, proc_zombie, proc_blocked,
  zero_proc, zero_registers, max_processes, is_unused, is_blocked, pcb_at, put_pcb, put_state,
  proc_find_index, proc_unblock, find_next,
}
use blackmount.Procs.Create.{no_pid}

abbrev pub is_zombie : State → Bool
is_zombie proc_zombie = true
is_zombie _ = false

-- `vmm_destroy_address_space` of a process's address space, if it has one.
abbrev pub destroy_space : Procs → ℕ → Procs
destroy_space procs space =
    if space == 0 then procs else record procs { destroyed = space ∷ procs.destroyed }

-- `memset(pcb, 0, offsetof(PCB, kernel_stack))`: what stands behind the kernel stack stays.
abbrev pub clear_pcb : Pcb → Pcb
clear_pcb p = record p {
  proc = zero_proc;
  state = proc_unused;
  context = zero_registers;
  address_space = 0;
}

-- The address space of the process in a slot is given up and the slot is free.
abbrev pub clear_slot : Procs → ℕ → Procs
clear_slot procs i =
    put_pcb (destroy_space procs (pcb_at procs i).address_space) i (clear_pcb (pcb_at procs i))

-- Is the process in a slot alive, and a child of `parent_pid`?
abbrev pub is_live : State → Bool
is_live s = not (is_unused s || is_zombie s)

abbrev pub is_child : Procs → ℕ → ℕ → Bool
is_child procs parent_pid i =
    is_live (pcb_at procs i).state && (pcb_at procs i).proc.ppid == parent_pid

-- The loop of `proc_kill_children` from the slot `i` on, with `n` rounds left; `kill` is the call
-- that it makes of itself.
unfoldable pub kill_slots : (Procs → ℕ → Option Procs) → ℕ → ℕ → Procs → ℕ → Option Procs
kill_slots kill zero i procs parent_pid = some procs
kill_slots kill (suc n) i procs parent_pid = elim (is_child procs parent_pid i) [
  | false ↦ kill_slots kill n (i + 1) procs parent_pid
  | true ↦ elim (kill procs (pcb_at procs i).proc.pid) [
    | none ↦ none
    | some rest ↦ kill_slots kill n (i + 1) (clear_slot rest i) parent_pid
  ]
]

-- The calls nest at most as deep as the fuel.
unfoldable pub proc_kill_children : ℕ → Procs → ℕ → Option Procs
unfolding kill_slots
proc_kill_children zero procs parent_pid = none
proc_kill_children (suc fuel) procs parent_pid =
    kill_slots (proc_kill_children fuel) max_processes 0 procs parent_pid

-- The parent of a `vfork` goes on, and keeps the address space that it shared.
unfoldable pub wake_vfork_parent : Procs → ℕ → ℤ → Procs
wake_vfork_parent procs i (negsuc n) = procs
wake_vfork_parent procs i (pos zero) = procs
wake_vfork_parent procs i (pos (suc n)) =
    let woken : Procs = elim (proc_find_index procs (suc n)) [
      | none ↦ procs
      | some v ↦
          if is_blocked (pcb_at procs v).state
          then put_pcb procs v (record (pcb_at procs v) {
            state = proc_ready;
            proc = record (pcb_at procs v).proc { waiting_for = no_pid };
          })
          else procs
    ] in
    put_pcb woken i (record (pcb_at woken i) { address_space = 0; vfork_parent = minus_one })

-- A parent that waits for the process `pid` goes on.
unfoldable pub wake_parent : Procs → ℕ → ℕ → Procs
wake_parent procs ppid pid = elim (proc_find_index procs ppid) [
  | none ↦ procs
  | some j ↦
      if (pcb_at procs j).proc.waiting_for == pid
      then proc_unblock
          (put_pcb procs j (record (pcb_at procs j) {
            proc = record (pcb_at procs j).proc { waiting_for = no_pid };
          }))
          (pcb_at procs j).proc.pid
      else procs
]

-- The process in a slot becomes a zombie with its exit code.
abbrev pub mark_zombie : Procs → ℕ → ℕ → Procs
mark_zombie procs i exit_code = put_pcb procs i (record (pcb_at procs i) {
  state = proc_zombie;
  proc = record (pcb_at procs i).proc { exit_code = exit_code % 2 ^ 32 };
})

-- The rest of `proc_terminate` once the children are gone.
abbrev pub tell_parents : Procs → ℕ → ℕ → Procs
tell_parents procs i pid =
    let woken = wake_vfork_parent procs i (pcb_at procs i).vfork_parent in
    wake_parent woken (pcb_at woken i).proc.ppid pid

unfoldable pub proc_terminate : ℕ → Procs → ℕ → ℕ → Option Procs
unfolding proc_kill_children wake_vfork_parent wake_parent
proc_terminate fuel procs i exit_code =
    let pid : ℕ = (pcb_at procs i).proc.pid in
    elim (proc_kill_children fuel (mark_zombie procs i exit_code) pid) [
      | none ↦ none
      | some rest ↦ some (tell_parents rest i pid)
    ]

unfoldable pub proc_reap : Procs → ℕ → Procs
proc_reap procs i = clear_slot procs i

-- A wait fails, returns an exit code, or blocks in `proc_yield`.
pub data Waited : Type 0 where
  fails : Waited
  exited : ℕ → Procs → Waited
  waits : Procs → Waited

abbrev pub collect : Procs → ℕ → Waited
collect procs i = exited (pcb_at procs i).proc.exit_code (proc_reap procs i)

-- The current process's slot, found by its number.
unfoldable pub current_index : Procs → ℤ → Option ℕ
current_index procs (negsuc n) = proc_find_index procs no_pid
current_index procs (pos c) = proc_find_index procs (pcb_at procs c).proc.pid

unfoldable pub proc_wait_pid : Procs → ℕ → Waited
unfolding proc_reap current_index
proc_wait_pid procs pid = elim (proc_find_index procs (pid % 2 ^ 32)) [
  | none ↦ fails
  | some i ↦
      if is_zombie (pcb_at procs i).state
      then collect procs i
      else elim (current_index procs procs.current_proc) [
        | none ↦ fails
        | some j ↦ waits (
            put_pcb procs j (record (pcb_at procs j) {
              state = proc_blocked;
              proc = record (pcb_at procs j).proc { waiting_for = pid % 2 ^ 32 };
            }))
      ]
]

-- After the wait: the state of the child is not looked at again.
unfoldable pub wait_resumed : Procs → ℕ → Waited
wait_resumed procs pid = elim (proc_find_index procs (pid % 2 ^ 32)) [
  | none ↦ fails
  | some i ↦ collect procs i
]

-- An exit goes on with another process, or halts.
pub data Exited : Type 0 where
  resumes : Registers → Procs → Exited
  halts : Procs → Exited

unfoldable pub leave_to : Procs → ℕ → Exited
leave_to procs c = elim (find_next procs) [
  | none ↦
      halts
        (record (destroy_space procs (pcb_at procs c).address_space) { current_proc = minus_one })
  | some next ↦
      let space = (pcb_at procs c).address_space in
      let chosen : Procs = record (put_state procs next proc_running) { current_proc = pos next } in
      resumes (pcb_at procs next).context
        (if space == (pcb_at procs next).address_space then chosen else destroy_space chosen space)
]

unfoldable pub exit_at : ℕ → Procs → ℕ → ℤ → Option Exited
exit_at fuel procs exit_code (negsuc n) = some (halts (record procs { current_proc = minus_one }))
exit_at fuel procs exit_code (pos c) = elim (proc_terminate fuel procs c exit_code) [
  | none ↦ none
  | some rest ↦ some (leave_to rest c)
]

unfoldable pub proc_exit : ℕ → Procs → ℕ → Option Exited
proc_exit fuel procs exit_code = exit_at fuel procs exit_code procs.current_proc
