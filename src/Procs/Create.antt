-- ===== src/Procs/Create.antt =====
-- The functions of proc.c that create processes. Whether an address space or a page could be had is
-- an argument, as is the top of the kernel stack of a slot; the bytes of programs are left out.
use blackmount.Common.{
  ℕ, zero, suc, ◌+◌, ◌-◌, ◌*◌, ◌/◌, ◌%◌, ◌^◌, Bool, true, List, [], ◌∷◌, Option, none, some, length,
  ltb, leb, ◌==◌, ◌&&◌, ◌||◌, not, if◌then◌else◌,
}
use blackmount.Common.Int.{ℤ, pos, negsuc, minus_one}
use blackmount.Users.{Accounts, user_get_gid, user_exists}
use blackmount.Procs.{
  Proc, Pcb, Procs, Registers, ProcType, proc_type_kernel, proc_type_user, proc_ready,
  zero_registers, unused_pcb, is_unused, put_pcb,
}

abbrev pub page_size : ℕ
page_size = 4096

abbrev pub u64_mod : ℕ
u64_mod = 2 ^ 64

abbrev pub no_pid : ℕ
no_pid = 2 ^ 32 - 1

abbrev pub user_code_base : ℕ
user_code_base = 0x00100000

abbrev pub user_code_limit : ℕ
user_code_limit = 0x20000000

abbrev pub user_stack_arena : ℕ
user_stack_arena = 0x20000000

abbrev pub user_stack_vsize : ℕ
user_stack_vsize = 0x01000000

abbrev pub user_space_end : ℕ
user_space_end = 0x0000800000000000

-- `(x + PAGE_SIZE - 1) & ~(PAGE_SIZE - 1)`
abbrev pub page_up : ℕ → ℕ
page_up x = (x + page_size - 1) % u64_mod / page_size * page_size

-- The first unused slot, for entries that stand from `i` on.
unfoldable pub find_unused : List Pcb → ℕ → Option ℕ
find_unused [] i = none
find_unused (p ∷ ps) i = if is_unused p.state then some i else find_unused ps (i + 1)

unfoldable pub pcb_alloc_slot : Procs → Option ℕ
pcb_alloc_slot procs = find_unused procs.proc_table 0

-- The arguments of `proc_create_internal`.
pub record NewProc : Type 0 where
  pub entry : ℕ
  pub priority : ℕ
  pub parent : ℕ
  pub kind : ProcType
  pub code_start : ℕ
  pub code_end : ℕ
  pub stack_base : ℕ
  pub stack_top : ℕ
  pub initial_rsp : ℕ
  pub address_space : ℕ
  pub owner : ℤ

abbrev pub new_proc : Accounts → Procs → NewProc → Proc
new_proc acc procs a = record {
  pid = procs.next_pid;
  ppid = a.parent;
  priority = a.priority;
  cpu_time = 0;
  waiting_for = no_pid;
  exit_code = 0;
  kind = a.kind;
  owner = a.owner;
  euid = a.owner;
  saved_uid = a.owner;
  group = user_get_gid acc a.owner;
  egroup = user_get_gid acc a.owner;
  saved_gid = user_get_gid acc a.owner;
}

abbrev pub new_registers : ℕ → NewProc → Registers
new_registers kstack_top a = elim a.kind [
  | proc_type_kernel ↦ record zero_registers {
    rip = a.entry;
    rflags = 0x202;
    cs = 0x08;
    ss = 0x10;
    rsp = kstack_top;
  }
  | proc_type_user ↦ record zero_registers {
    rip = a.entry;
    rflags = 0x202;
    cs = 0x23;
    ss = 0x1b;
    rsp = a.initial_rsp;
  }
]

-- "/" in an array of zeros.
abbrev pub root_dir : ℕ → ℕ
root_dir i = if i == 0 then 47 else 0

abbrev pub new_pcb : (ℕ → ℕ) → Accounts → Procs → ℕ → NewProc → Pcb
new_pcb kstack acc procs slot a =
    let p : Pcb = record unused_pcb {
      proc = new_proc acc procs a;
      state = proc_ready;
      context = new_registers (kstack slot) a;
      address_space = a.address_space;
      vfork_parent = minus_one;
      cwd = root_dir;
    } in
    elim a.kind [
      | proc_type_kernel ↦ p
      | proc_type_user ↦ record p {
        code_vaddr_start = a.code_start;
        code_vaddr_end = a.code_end;
        stack_vaddr_base = a.stack_base;
        stack_vaddr_top = a.stack_top;
        heap_start = page_up a.code_end;
        heap_end = page_up a.code_end;
      }
    ]

-- `next_pid++`, with a process put into a slot.
abbrev pub add_proc : Procs → ℕ → Pcb → Procs
add_proc procs slot p = record (put_pcb procs slot p) { next_pid = (procs.next_pid + 1) % 2 ^ 32 }

unfoldable pub proc_create_internal : (ℕ → ℕ) → Accounts → Procs → NewProc → ℤ × Procs
unfolding pcb_alloc_slot find_unused
proc_create_internal kstack acc procs a = elim (pcb_alloc_slot procs) [
  | none ↦ (minus_one, procs)
  | some slot ↦ (pos procs.next_pid, add_proc procs slot (new_pcb kstack acc procs slot a))
]

unfoldable pub proc_create_kernel : (ℕ → ℕ) → Accounts → Procs → ℕ → ℕ → ℕ → ℤ × Procs
proc_create_kernel kstack acc procs entry priority parent =
    proc_create_internal kstack acc procs (record {
      entry = entry;
      priority = priority;
      parent = parent;
      kind = proc_type_kernel;
      code_start = 0;
      code_end = 0;
      stack_base = 0;
      stack_top = 0;
      initial_rsp = 0;
      address_space = 0;
      owner = pos 0;
    })

unfoldable pub proc_create_kernel_as : (ℕ → ℕ) → Accounts → Procs → ℤ → ℕ → ℕ → ℕ → ℤ × Procs
proc_create_kernel_as kstack acc procs owner entry priority parent =
    if not (user_exists acc owner)
    then (minus_one, procs)
    else proc_create_internal kstack acc procs (record {
      entry = entry;
      priority = priority;
      parent = parent;
      kind = proc_type_kernel;
      code_start = 0;
      code_end = 0;
      stack_base = 0;
      stack_top = 0;
      initial_rsp = 0;
      address_space = 0;
      owner = owner;
    })

-- Are `n` pages from `va` on mapped?
unfoldable pub pages_map : (ℕ → Bool) → ℕ → ℕ → Bool
pages_map maps va zero = true
pages_map maps va (suc n) = maps va && pages_map maps (va + page_size) n

-- The range of the stack of the first unused slot, if its first eight pages are mapped.
unfoldable pub user_map_stack : (ℕ → Bool) → Procs → Option (ℕ × ℕ)
user_map_stack maps procs = elim (pcb_alloc_slot procs) [
  | none ↦ none
  | some slot ↦
      let top = user_stack_arena + (slot + 1) * user_stack_vsize in
      if ltb user_space_end top
      then none
      else if not (pages_map maps ((top - 8 * page_size) / page_size * page_size) 8)
      then none
      else some (top - user_stack_vsize, top)
]

-- `x & ~0xF`
abbrev pub align_16 : ℕ → ℕ
align_16 x = x / 16 * 16

-- The stack pointer after the sixteen random bytes, the name and ten words.
unfoldable pub setup_user_stack_minimal : ℕ → ℕ
setup_user_stack_minimal stack_top = align_16 (align_16 (stack_top - 16) - 16 - 5) - 10 * 8

-- Strings are pushed with their nulls, the last one first.
unfoldable pub push_strings : ℕ → List (List ℕ) → ℕ
push_strings sp [] = sp
push_strings sp (s ∷ ss) = push_strings sp ss - (length s + 1)

-- The stack pointer for arguments and an environment; `granted` is whether both arrays of pointers
-- could be allocated.
unfoldable pub setup_user_stack_argv : Bool → ℕ → List (List ℕ) → List (List ℕ) → ℕ
unfolding push_strings
setup_user_stack_argv granted stack_top argv envp =
    let sp = align_16 (stack_top - 16) - 16 in
    if not granted
    then sp
    else align_16 (push_strings (push_strings sp envp) argv)
      - 6 * 8
      - 8
      - length envp * 8
      - 8
      - length argv * 8
      - 8

-- `if (pid < 0) { vmm_destroy_address_space(proc_space); return -1; }`
abbrev pub or_destroy : ℕ → ℤ × Procs → ℤ × Procs
or_destroy space (pos pid, procs) = (pos pid, procs)
or_destroy space (negsuc n, procs) =
    (minus_one, record procs { destroyed = space ∷ procs.destroyed })

-- The common part of the three functions that load a program image: the checks, the mappings, the
-- stack and the process. `space` is the new address space, 0 if there is none.
unfoldable pub load_image :
    (ℕ → ℕ) → Accounts → (ℕ → Bool) → ℕ → (ℕ → ℕ) → Procs → ℤ → ℕ → ℕ → ℕ → ℕ → ℕ → ℤ × Procs
unfolding proc_create_internal user_map_stack pages_map
load_image kstack acc maps space stack_pointer procs owner image_size load_vaddr entry_vaddr
      priority parent =
    if image_size == 0
    then (minus_one, procs)
    else if ltb load_vaddr user_code_base || leb user_code_limit load_vaddr
    then (minus_one, procs)
    else if ltb entry_vaddr load_vaddr || leb ((load_vaddr + image_size) % u64_mod) entry_vaddr
    then (minus_one, procs)
    else if ltb user_code_limit ((load_vaddr + page_up image_size) % u64_mod)
    then (minus_one, procs)
    else if space == 0
    then (minus_one, procs)
    else if not (pages_map maps load_vaddr (page_up image_size / page_size))
    then (minus_one, record procs { destroyed = space ∷ procs.destroyed })
    else elim (user_map_stack maps procs) [
      | none ↦ (minus_one, record procs { destroyed = space ∷ procs.destroyed })
      | some (base, top) ↦ or_destroy space (
          proc_create_internal kstack acc procs (record {
            entry = entry_vaddr;
            priority = priority;
            parent = parent;
            kind = proc_type_user;
            code_start = load_vaddr;
            code_end = (load_vaddr + image_size) % u64_mod;
            stack_base = base;
            stack_top = top;
            initial_rsp = stack_pointer top;
            address_space = space;
            owner = owner;
          }))
    ]

unfoldable pub proc_create_user_image :
    (ℕ → ℕ) → Accounts → (ℕ → Bool) → ℕ → Procs → ℕ → ℕ → ℕ → ℕ → ℕ → ℤ × Procs
proc_create_user_image kstack acc maps space procs =
    load_image kstack acc maps space setup_user_stack_minimal procs (pos 0)

unfoldable pub proc_create_user_image_argv :
    (ℕ → ℕ)
    → Accounts
    → (ℕ → Bool)
    → ℕ
    → Bool
    → List (List ℕ)
    → List (List ℕ)
    → Procs
    → ℕ
    → ℕ
    → ℕ
    → ℕ
    → ℕ
    → ℤ × Procs
proc_create_user_image_argv kstack acc maps space granted argv envp procs =
    load_image kstack acc maps space (λ top. setup_user_stack_argv granted top argv envp) procs
      (pos 0)

unfoldable pub proc_create_user_image_as :
    (ℕ → ℕ) → Accounts → (ℕ → Bool) → ℕ → Procs → ℤ → ℕ → ℕ → ℕ → ℕ → ℕ → ℤ × Procs
proc_create_user_image_as kstack acc maps space procs owner size load entry priority parent =
    if not (user_exists acc owner)
    then (minus_one, procs)
    else load_image kstack acc maps space setup_user_stack_minimal procs owner size load entry
        priority parent
