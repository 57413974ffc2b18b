-- ===== src/Procs/Tests.antt =====
-- Runs of proc.c, and its theorems at an input.
use blackmount.Procs.Others.{proc_can_act, proc_block_as}
use blackmount.Procs.Rights.{MayAct, Denied, acting_lem}
use blackmount.Common.{
  ltb, some, ℕ, zero, suc, ◌%◌, ◌<◌, ◌≡◌, ◌≢◌, ◌⊎◌, refl, true, false, List, [], ◌∷◌,
  length-replicate, replicate, All-replicate, All-get_or, ap, arith,
}
use blackmount.Common.Int.{pos, minus_one}
use blackmount.Users.{Accounts, no_user, no_group, user_exists, user_is_root}
use blackmount.Users.Permissions.{user_is_root-no_users}
use blackmount.Procs.Directory.{ReadsBack, proc_chdir, proc_getcwd-proc_chdir}
use blackmount.Procs.{
  proc_find_index, find_pid, Procs, Pcb, Registers, zero_proc, zero_registers, unused_pcb,
  proc_ready, proc_running, max_processes, is_ready, is_running, pcb_at, find_next, find_ready,
  stop_current, switch_next, proc_schedule_interrupt,
}
use blackmount.Procs.Exit.{is_live, proc_kill_children, proc_reap, leave_to, resumes}
use blackmount.Procs.Kill.{IsOrdered, Killed}
use blackmount.Procs.Kill.Sweep.{proc_kill_children-Killed}
use blackmount.Procs.Break.{proc_sbrk, on_heap, sbrk, brk, moved_break, map_pages}
use blackmount.Procs.Heap.{IsHeap}
use blackmount.Procs.Sbrk.{Ends, proc_sbrk_lem}
use blackmount.Procs.Reap.{proc_reap-leave_to}
use blackmount.Procs.Stack.{string_bytes, setup_user_stack_argv_lem}
use blackmount.Procs.Create.{pcb_alloc_slot, find_unused, setup_user_stack_argv}
use blackmount.Procs.Fork.{no_space, fork_at, proc_fork}
use blackmount.Procs.Schedule.{IsValid, IsTurn, proc_schedule_interrupt_lem}
use blackmount.Procs.Calls.{
  Request, asks_uid, asks_reuid, asks_gid, serve_all, OwnUid, OwnGid, serve_all_lem,
}

-- One process runs, and another waits for its turn.
abbrev runner : Pcb
runner = record unused_pcb {
  proc = record zero_proc { pid = 1; owner = pos 5; euid = pos 6; saved_uid = pos 5 };
  state = proc_running;
}

abbrev waiter : Pcb
waiter = record unused_pcb {
  proc = record zero_proc { pid = 2 };
  state = proc_ready;
  context = record zero_registers { rip = 44 };
}

abbrev two : Procs
two = record {
  proc_table = runner ∷ waiter ∷ replicate 62 unused_pcb;
  current_proc = pos 0;
  next_pid = 3;
  scheduling_enabled = true;
  destroyed = [];
}

two_switches : (proc_schedule_interrupt two zero_registers).0.rip ≡ 44
unfolding proc_schedule_interrupt switch_next find_next find_ready stop_current
two_switches = refl

abbrev Idle : Pcb → Type 0
Idle p = is_running p.state ≡ false

two_only : (i : ℕ) → i ≢ 0 → is_running (pcb_at two i).state ≡ false
two_only zero ne = absurd (ne refl)
two_only (suc i) ne =
    All-get_or Idle (waiter ∷ replicate 62 unused_pcb) i unused_pcb
      (refl, All-replicate Idle 62 unused_pcb refl) refl

two-IsValid : IsValid two 0
two-IsValid = record {
  slots = ap (λ (n : ℕ). suc (suc n)) (length-replicate {A = Pcb} 62 unused_pcb);
  current = refl;
  near = omega arith;
  only = two_only;
}

proc_schedule_interrupt_lem_example :
    (let stopped = stop_current two zero_registers (pos 0) in
      let (frame', procs') = proc_schedule_interrupt two zero_registers in
      (((i : ℕ) → i < max_processes → is_ready (pcb_at procs' i).state ≡ false)
        × (frame' ≡ zero_registers)
        × IsValid procs' 0)
      ⊎ ((next : ℕ) × IsTurn stopped 1 max_processes next
          × (frame' ≡ (pcb_at stopped next).context)
          × ((pcb_at procs' next).state ≡ proc_running)
          × IsValid procs' next))
proc_schedule_interrupt_lem_example =
    proc_schedule_interrupt_lem two zero_registers 0 two-IsValid refl

abbrev no_accounts : Accounts
no_accounts = record { groups = []; users = []; salt_state = 1 }

plain : (u : ℕ) → user_is_root no_accounts (pos u) ≡ false
plain u = user_is_root-no_users no_accounts u refl

abbrev asked : List Request
asked = asks_uid (pos 0) ∷ asks_reuid (pos 6) (pos 0) ∷ asks_gid (pos 3) ∷ []

serve_all_lem_example :
    (let p = (pcb_at two 0).proc in
      let q = (pcb_at (serve_all no_accounts asked two) 0).proc in
      (OwnUid p q.owner × OwnUid p q.euid × OwnUid p q.saved_uid)
      × (OwnGid p q.group × OwnGid p q.egroup × OwnGid p q.saved_gid))
serve_all_lem_example =
    serve_all_lem no_accounts asked two 0 refl (omega arith) (plain 5) (plain 6) (plain 5)

-- "/a" into a buffer of 16 bytes.
proc_getcwd-proc_chdir_example :
    ReadsBack two 0 (47 ∷ 97 ∷ []) (λ k. 255) 16 1 (proc_chdir two (some (47 ∷ 97 ∷ [])))
proc_getcwd-proc_chdir_example =
    proc_getcwd-proc_chdir two 0 16 1 (47 ∷ 97 ∷ []) (λ k. 255) refl (omega arith)
      (refl, (refl, tt))

-- Three generations.
abbrev generation : ℕ → Pcb
generation n = record unused_pcb {
  proc = record zero_proc { pid = suc n; ppid = n };
  state = proc_ready;
}

abbrev family : Procs
family = record two {
  proc_table = generation 0 ∷ generation 1 ∷ generation 2 ∷ replicate 61 unused_pcb;
  next_pid = 4;
}

abbrev IsYounger : Pcb → Type 0
IsYounger p = is_live p.state ≡ true → (p.proc.ppid < p.proc.pid) × (p.proc.pid < 4)

unused_pcb-IsYounger : IsYounger unused_pcb
unused_pcb-IsYounger e = absurd (ground (arith, e))

all-IsYounger : (i : ℕ) → IsYounger (pcb_at family i)
all-IsYounger i =
    All-get_or IsYounger family.proc_table i unused_pcb
      (
        λ e. (omega arith, omega arith),
        (
          λ e. (omega arith, omega arith),
          (
            λ e. (omega arith, omega arith),
            All-replicate IsYounger 61 unused_pcb unused_pcb-IsYounger,
          ),
        ),
      )
      unused_pcb-IsYounger

family-IsOrdered : IsOrdered 4 family
family-IsOrdered = record {
  slots = ap (λ (n : ℕ). suc (suc (suc n))) (length-replicate {A = Pcb} 61 unused_pcb);
  older = λ i live. (all-IsYounger i live).0;
  bounded = λ i live. (all-IsYounger i live).1;
}

proc_kill_children-Killed_example :
    (b : Procs) × (proc_kill_children 3 family 1 ≡ some b) × Killed family b 1
proc_kill_children-Killed_example =
    proc_kill_children-Killed 3 4 family 1 family-IsOrdered (omega arith) (omega arith)

-- A process with a heap of one page.
abbrev heap_user : Pcb
heap_user = record runner { heap_start = 0x200000; heap_end = 0x201000 }

abbrev one_heap : Procs
one_heap = record two { proc_table = heap_user ∷ [] }

heap_user-IsHeap : IsHeap heap_user
heap_user-IsHeap = record { from = omega arith; to = omega arith; word = omega arith }

-- Three more pages, of which the third cannot be mapped.
proc_sbrk_lem_example :
    let (r, procs', pages) = proc_sbrk (λ va. ltb va 0x203000) one_heap (pos 0x3000) in
    Ends (λ va. ltb va 0x203000) (pos 0x3000) heap_user (r, pcb_at procs' 0, pages)
proc_sbrk_lem_example =
    proc_sbrk_lem (λ va. ltb va 0x203000) one_heap 0 (pos 0x3000) refl (omega arith)
      heap_user-IsHeap (omega arith) refl

-- The first two of these stay mapped.
two_left :
    (proc_sbrk (λ va. ltb va 0x203000) one_heap (pos 0x3000)).2.mapped ≡ 0x201000 ∷ 0x202000 ∷ []
unfolding proc_sbrk on_heap sbrk brk moved_break map_pages
two_left = refl

-- The first process has an address space of its own.
abbrev own_space : Procs
own_space = record two {
  proc_table = record runner { address_space = 0x5000 } ∷ waiter ∷ replicate 62 unused_pcb;
}

own_space_next : find_next own_space ≡ some 1
unfolding find_next find_ready
own_space_next = refl

proc_reap-leave_to_example :
    (frame : Registers) × (procs' : Procs) × (leave_to own_space 0 ≡ resumes frame procs')
    × ((proc_reap procs' 0).destroyed ≡ 0x5000 ∷ 0x5000 ∷ [])
proc_reap-leave_to_example =
    proc_reap-leave_to own_space 0 1 own_space_next (λ e. omega (arith, e)) (λ e. omega (arith, e))
      (λ e. omega (arith, e))

-- One argument and one variable.
setup_user_stack_argv_lem_example :
    setup_user_stack_argv true 0x21000000 ((112 ∷ []) ∷ []) ((65 ∷ []) ∷ []) % 16 ≡ 8
unfolding string_bytes
setup_user_stack_argv_lem_example =
    setup_user_stack_argv_lem 0x21000000 ((112 ∷ []) ∷ []) ((65 ∷ []) ∷ []) (omega arith)

abbrev running_family : Procs
running_family = record family { current_proc = pos 2 }

-- The parent has no address space of its own, so that the fork succeeds.
fork_works : (proc_fork running_family no_space zero_registers).0 ≡ pos 4
unfolding proc_fork fork_at pcb_alloc_slot find_unused
fork_works = refl

-- Root, and no other user.
abbrev root_only : Accounts
root_only = record {
  groups = record no_group { exists = true } ∷ [];
  users = record no_user { exists = true } ∷ [];
  salt_state = 1;
}

acting_lem_example : MayAct root_only two (pos 0) 2 ⊎ Denied root_only two (pos 0) 2
acting_lem_example = acting_lem root_only two (pos 0) 2 (omega arith)

-- User 5 has no account.
stranger_denied : proc_block_as root_only two (pos 5) 2 ≡ (minus_one, two)
unfolding proc_block_as proc_can_act user_exists
stranger_denied = refl

root_acts : proc_can_act root_only two (pos 0) 2 ≡ true
unfolding proc_can_act user_exists proc_find_index find_pid
root_acts = refl
