-- ===== src/Procs.antt =====
-- src/kernel/proc/proc.c: the process table and the scheduler. An address space is the number of its
-- structure, 0 for the null pointer; the calls of vmm_destroy_address_space are recorded, newest
-- first. Log calls and the switches of the address space and of the kernel stack are left out.
pub mod Identity
pub mod Create
pub mod Fork
pub mod Exit
pub mod Kill
pub mod Reap
pub mod Stack
pub mod Copy
pub mod Young
pub mod Others
pub mod Rights
pub mod Break
pub mod Heap
pub mod Sbrk
pub mod Schedule
pub mod Privilege
pub mod Calls
pub mod Directory
mod Tests
use blackmount.Common.{
  ℕ, zero, suc, ◌+◌, ◌-◌, ◌%◌, ◌^◌, Bool, true, false, List, [], ◌∷◌, Option, none, some, length,
  get_or, set, ltb, leb, ◌==◌, ◌&&◌, ◌||◌, not, if◌then◌else◌,
}
use blackmount.Common.Int.{ℤ, pos, negsuc, minus_one, is_negative}

abbrev pub max_processes : ℕ
max_processes = 64

-- `ProcState`
pub data State : Type 0 where
  proc_unused proc_ready proc_running proc_zombie proc_blocked : State

abbrev pub is_unused : State → Bool
is_unused proc_unused = true
is_unused _ = false

abbrev pub is_ready : State → Bool
is_ready proc_ready = true
is_ready _ = false

abbrev pub is_running : State → Bool
is_running proc_running = true
is_running _ = false

abbrev pub is_blocked : State → Bool
is_blocked proc_blocked = true
is_blocked _ = false

pub data ProcType : Type 0 where
  proc_type_kernel proc_type_user : ProcType

-- `Proc_t`
pub record Proc : Type 0 where
  pub pid : ℕ
  pub ppid : ℕ
  pub priority : ℕ
  pub cpu_time : ℕ
  pub waiting_for : ℕ
  pub exit_code : ℕ
  pub kind : ProcType
  pub owner : ℤ
  pub euid : ℤ
  pub saved_uid : ℤ
  pub group : ℤ
  pub egroup : ℤ
  pub saved_gid : ℤ

-- `Registers`; the ones that this code only copies are one number.
pub record Registers : Type 0 where
  pub rip : ℕ
  pub rsp : ℕ
  pub rax : ℕ
  pub cs : ℕ
  pub ss : ℕ
  pub rflags : ℕ
  pub others : ℕ

-- `PCB`; the kernel stack lies at an address that the slot determines, and is left out.
pub record Pcb : Type 0 where
  pub proc : Proc
  pub state : State
  pub context : Registers
  pub address_space : ℕ
  pub code_vaddr_start : ℕ
  pub code_vaddr_end : ℕ
  pub stack_vaddr_base : ℕ
  pub stack_vaddr_top : ℕ
  pub heap_start : ℕ
  pub heap_end : ℕ
  pub vfork_parent : ℤ
  -- The bytes from the start of the array of 256 on; those behind it are of the next fields.
  pub cwd : ℕ → ℕ

pub record Procs : Type 0 where
  pub proc_table : List Pcb
  pub current_proc : ℤ
  pub next_pid : ℕ
  pub scheduling_enabled : Bool
  pub destroyed : List ℕ

abbrev pub zero_proc : Proc
zero_proc = record {
  pid = 0;
  ppid = 0;
  priority = 0;
  cpu_time = 0;
  waiting_for = 0;
  exit_code = 0;
  kind = proc_type_kernel;
  owner = pos 0;
  euid = pos 0;
  saved_uid = pos 0;
  group = pos 0;
  egroup = pos 0;
  saved_gid = pos 0;
}

abbrev pub zero_registers : Registers
zero_registers = record { rip = 0; rsp = 0; rax = 0; cs = 0; ss = 0; rflags = 0; others = 0 }

abbrev pub unused_pcb : Pcb
unused_pcb = record {
  proc = zero_proc;
  state = proc_unused;
  context = zero_registers;
  address_space = 0;
  code_vaddr_start = 0;
  code_vaddr_end = 0;
  stack_vaddr_base = 0;
  stack_vaddr_top = 0;
  heap_start = 0;
  heap_end = 0;
  vfork_parent = pos 0;
  cwd = λ i. 0;
}

abbrev pub pcb_at : Procs → ℕ → Pcb
pcb_at procs i = get_or procs.proc_table i unused_pcb

abbrev pub put_pcb : Procs → ℕ → Pcb → Procs
put_pcb procs i pcb = record procs { proc_table = set procs.proc_table i pcb }

abbrev pub put_state : Procs → ℕ → State → Procs
put_state procs i s = put_pcb procs i (record (pcb_at procs i) { state = s })

-- The first entry with a process number, for entries that stand from `i` on.
pub find_pid : List Pcb → ℕ → ℕ → Option ℕ
find_pid [] pid i = none
find_pid (p ∷ ps) pid i = if p.proc.pid == pid then some i else find_pid ps pid (i + 1)

pub proc_find_index : Procs → ℕ → Option ℕ
proc_find_index procs pid = find_pid procs.proc_table pid 0

pub proc_is_blocked : Procs → ℕ → Bool
proc_is_blocked procs pid = elim (proc_find_index procs pid) [
  | none ↦ false
  | some i ↦ is_blocked (pcb_at procs i).state
]

pub proc_block : Procs → ℕ → Procs
proc_block procs pid = elim (proc_find_index procs pid) [
  | none ↦ procs
  | some i ↦ put_state procs i proc_blocked
]

pub proc_unblock : Procs → ℕ → Procs
proc_unblock procs pid = elim (proc_find_index procs pid) [
  | none ↦ procs
  | some i ↦ put_state procs i proc_ready
]

-- `(start + i) % MAX_PROCESSES`; with no current process, `start` is -1.
abbrev pub slot_after : ℤ → ℕ → ℕ
slot_after (pos c) i = (c + i) % max_processes
slot_after (negsuc n) i = (i - 1) % max_processes

-- The loop of `find_next`, with `n` rounds left.
pub find_ready : ℕ → Procs → ℕ → Option ℕ
find_ready zero procs i = none
find_ready (suc n) procs i =
    let idx = slot_after procs.current_proc i in
    if is_ready (pcb_at procs idx).state then some idx else find_ready n procs (i + 1)

pub find_next : Procs → Option ℕ
find_next procs = find_ready max_processes procs 1

-- The current process, if there is one, is stopped: its registers are kept, and it is ready if it
-- was running.
pub stop_current : Procs → Registers → ℤ → Procs
stop_current procs frame (negsuc n) = procs
stop_current procs frame (pos old) =
    if is_unused (pcb_at procs old).state
    then procs
    else put_pcb procs old (record (pcb_at procs old) {
      context = frame;
      state = if is_running (pcb_at procs old).state then proc_ready else (pcb_at procs old).state;
    })

-- The registers to go on with, and the table.
pub switch_next : Registers → Procs → Registers × Procs
switch_next frame procs = elim (find_next procs) [
  | none ↦ (frame, procs)
  | some next ↦ (
    (pcb_at procs next).context,
    record (put_state procs next proc_running) { current_proc = pos next },
  )
]

pub proc_schedule_interrupt : Procs → Registers → Registers × Procs
proc_schedule_interrupt procs frame =
    if not procs.scheduling_enabled
    then (frame, procs)
    else switch_next frame (stop_current procs frame procs.current_proc)

-- `proc_table[current_proc].proc.CPUTime += ticks`
pub add_time : Procs → ℕ → ℤ → Procs
add_time procs ticks (negsuc n) = procs
add_time procs ticks (pos c) =
    let p = pcb_at procs c in
    put_pcb procs c
      (record p { proc = record p.proc { cpu_time = (p.proc.cpu_time + ticks) % 2 ^ 64 } })

pub proc_update_time : Procs → ℕ → Procs
proc_update_time procs ticks = add_time procs ticks procs.current_proc
