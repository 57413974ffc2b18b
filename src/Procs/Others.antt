-- ===== src/Procs/Others.antt =====
-- The functions of proc.c by which users act on processes, the start of scheduling, and the loading of
-- flat code, for entries that are not null. The next address for user code stands beside the table.
use blackmount.Common.{
  ℕ, ◌+◌, ◌-◌, ◌*◌, ◌/◌, ◌%◌, ◌^◌, Bool, true, false, List, [], ◌∷◌, Option, none, some, replicate,
  ltb, leb, ◌==◌, ◌&&◌, ◌||◌, not, if◌then◌else◌,
}
use blackmount.Common.Int.{ℤ, pos, negsuc, minus_one}
use blackmount.Users.{Accounts, user_exists, user_get_perm_level}
use blackmount.Procs.{
  Pcb, Procs, ProcType, proc_type_kernel, proc_type_user, proc_running, max_processes, unused_pcb,
  is_ready, pcb_at, put_pcb, put_state, proc_find_index, proc_block, proc_unblock,
}
use blackmount.Procs.Identity.{same_id}
use blackmount.Procs.Create.{
  page_size, user_code_base, user_code_limit, page_up, pages_map, user_map_stack,
  proc_create_internal, proc_create_kernel,
}
use blackmount.Procs.Exit.{proc_terminate, Waited, fails, proc_wait_pid}

unfoldable pub proc_can_act : Accounts → Procs → ℤ → ℕ → Bool
proc_can_act acc procs actor pid =
    if not (user_exists acc actor) then false else elim (proc_find_index procs pid) [
      | none ↦ false
      | some i ↦
          let owner : ℤ = (pcb_at procs i).proc.owner in
          same_id actor owner || ltb (user_get_perm_level acc actor) (user_get_perm_level acc owner)
    ]

unfoldable pub proc_get_owner : Procs → ℕ → ℤ
proc_get_owner procs pid = elim (proc_find_index procs pid) [
  | none ↦ minus_one
  | some i ↦ (pcb_at procs i).proc.owner
]

unfoldable pub proc_set_owner : Accounts → Procs → ℕ → ℤ → ℤ × Procs
proc_set_owner acc procs pid new_owner =
    if not (user_exists acc new_owner)
    then (minus_one, procs)
    else elim (proc_find_index procs pid) [
      | none ↦ (minus_one, procs)
      | some i ↦ (
        pos 0,
        put_pcb procs i
            (record (pcb_at procs i) { proc = record (pcb_at procs i).proc { owner = new_owner } }),
      )
    ]

-- With the fuel for `proc_terminate`.
unfoldable pub proc_kill_as : ℕ → Accounts → Procs → ℤ → ℕ → Option (ℤ × Procs)
proc_kill_as fuel acc procs actor pid =
    if not (proc_can_act acc procs actor pid)
    then some (minus_one, procs)
    else elim (proc_find_index procs pid) [
      | none ↦ some (minus_one, procs)
      | some i ↦ elim (proc_terminate fuel procs i 1) [
        | none ↦ none
        | some rest ↦ some (pos 0, rest)
      ]
    ]

unfoldable pub proc_block_as : Accounts → Procs → ℤ → ℕ → ℤ × Procs
proc_block_as acc procs actor pid =
    if not (proc_can_act acc procs actor pid)
    then (minus_one, procs)
    else (pos 0, proc_block procs pid)

unfoldable pub proc_unblock_as : Accounts → Procs → ℤ → ℕ → ℤ × Procs
proc_unblock_as acc procs actor pid =
    if not (proc_can_act acc procs actor pid)
    then (minus_one, procs)
    else (pos 0, proc_unblock procs pid)

unfoldable pub proc_wait_pid_as : Accounts → Procs → ℤ → ℕ → Waited
proc_wait_pid_as acc procs actor pid =
    if not (proc_can_act acc procs actor (pid % 2 ^ 32)) then fails else proc_wait_pid procs pid

abbrev pub is_user : ProcType → Bool
is_user proc_type_user = true
is_user proc_type_kernel = false

-- `proc_enter_syscall` and `proc_exit_syscall` are called in a process.
abbrev pub set_kind : ProcType → Procs → ℤ → Procs
set_kind kind procs (negsuc n) = procs
set_kind kind procs (pos c) =
    put_pcb procs c
      (record (pcb_at procs c) { proc = record (pcb_at procs c).proc { kind = kind } })

unfoldable pub proc_enter_syscall : Procs → Procs
proc_enter_syscall procs = set_kind proc_type_kernel procs procs.current_proc

unfoldable pub proc_exit_syscall : Procs → Procs
proc_exit_syscall procs = set_kind proc_type_user procs procs.current_proc

-- `idle` is the address of the idle loop; with the next address for user code.
unfoldable pub proc_init : (ℕ → ℕ) → Accounts → ℕ → Procs → Procs × ℕ
proc_init kstack acc idle procs =
    let empty : Procs = record procs {
      proc_table = replicate max_processes unused_pcb;
      current_proc = minus_one;
      next_pid = 1;
      scheduling_enabled = false;
    } in
    ((proc_create_kernel kstack acc empty idle 0 0).1, user_code_base)

-- The first process that passes a test, for entries that stand from `i` on.
unfoldable pub find_pcb : (Pcb → Bool) → List Pcb → ℕ → Option ℕ
find_pcb test [] i = none
find_pcb test (p ∷ ps) i = if test p then some i else find_pcb test ps (i + 1)

abbrev pub runs_at : Procs → ℕ → Procs
runs_at procs i = record (put_state procs i proc_running) { current_proc = pos i }

-- The instruction and stack pointers that user mode is entered with, if there is a user process.
unfoldable pub proc_start_scheduling : Procs → Option (ℕ × ℕ) × Procs
unfolding find_pcb
proc_start_scheduling procs =
    let on : Procs = record procs { scheduling_enabled = true } in
    elim (find_pcb (λ p. is_ready p.state && is_user p.proc.kind) on.proc_table 0) [
      | some i ↦ (some ((pcb_at on i).context.rip, (pcb_at on i).context.rsp), runs_at on i)
      | none ↦ elim (find_pcb (λ p. is_ready p.state) on.proc_table 0) [
        | some i ↦ (none, runs_at on i)
        | none ↦ (none, on)
      ]
    ]

-- The next address for user code moves on only if a process was made.
abbrev pub flat_result : ℕ → ℕ → ℤ × Procs → ℤ × ℕ × Procs
flat_result old next (pos pid, procs) = (pos pid, next, procs)
flat_result old next (negsuc n, procs) = (minus_one, old, procs)

-- The common part of the two functions that load flat code of `code_size` bytes into the kernel's
-- address space; `base` is the next address for user code.
unfoldable pub load_flat :
    (ℕ → ℕ) → Accounts → (ℕ → Bool) → Procs → ℕ → ℤ → ℕ → ℕ → ℕ → ℤ × ℕ × Procs
load_flat kstack acc maps procs base owner code_size priority parent =
    if code_size == 0 || ltb (user_code_limit - user_code_base) code_size
    then (minus_one, base, procs)
    else if leb user_code_limit (base + page_up code_size)
    then (minus_one, base, procs)
    else if not (pages_map maps base (page_up code_size / page_size))
    then (minus_one, base, procs)
    else elim (user_map_stack maps procs) [
      | none ↦ (minus_one, base, procs)
      | some (stack_base, stack_top) ↦ flat_result base (base + page_up code_size) (
          proc_create_internal kstack acc procs (record {
            entry = base;
            priority = priority;
            parent = parent;
            kind = proc_type_user;
            code_start = base;
            code_end = base + code_size;
            stack_base = stack_base;
            stack_top = stack_top;
            initial_rsp = (stack_top - 16) / 16 * 16;
            address_space = 0;
            owner = owner;
          }))
    ]

unfoldable pub proc_create_user :
    (ℕ → ℕ) → Accounts → (ℕ → Bool) → Procs → ℕ → ℕ → ℕ → ℕ → ℤ × ℕ × Procs
unfolding load_flat
proc_create_user kstack acc maps procs base = load_flat kstack acc maps procs base (pos 0)

unfoldable pub proc_create_user_as :
    (ℕ → ℕ) → Accounts → (ℕ → Bool) → Procs → ℕ → ℤ → ℕ → ℕ → ℕ → ℤ × ℕ × Procs
unfolding load_flat
proc_create_user_as kstack acc maps procs base owner code_size priority parent =
    if not (user_exists acc owner)
    then (minus_one, base, procs)
    else load_flat kstack acc maps procs base owner code_size priority parent
