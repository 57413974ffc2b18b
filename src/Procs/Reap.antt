-- ===== src/Procs/Reap.antt =====
-- What becomes of the address space of a process that exits and is waited for, in proc.c.
use blackmount.Common.{
  ℕ, ◌≡◌, ◌≢◌, refl, sym, ap, ◌∙◌, Bool, false, ◌∷◌, some, get_or-set_ne, ◌==◌, if◌then◌else◌,
  arith,
}
use blackmount.Common.Int.{pos}
use blackmount.Procs.{Pcb, Procs, Registers, unused_pcb, proc_running, pcb_at, put_state, find_next}
use blackmount.Procs.Exit.{destroy_space, proc_reap, resumes, leave_to}

-- What the next process goes on with.
abbrev pub switched : Procs → ℕ → Procs
switched procs next = record (put_state procs next proc_running) { current_proc = pos next }

leave_to-next :
    (procs : Procs) (c next : ℕ)
    → find_next procs ≡ some next
    → ((pcb_at procs c).address_space == (pcb_at procs next).address_space) ≡ false
    → leave_to procs c
      ≡ resumes
          (pcb_at procs next).context
          (destroy_space (switched procs next) (pcb_at procs c).address_space)
unfolding leave_to
leave_to-next procs c next found differ = rw (found, leave_to, differ) refl

proc_reap-destroyed :
    (procs : Procs) (c space : ℕ)
    → (pcb_at procs c).address_space ≡ space
    → space ≢ 0
    → (proc_reap procs c).destroyed ≡ space ∷ procs.destroyed
unfolding proc_reap
proc_reap-destroyed procs c space e own =
    let some_space : ((pcb_at procs c).address_space == 0) ≡ false = ground (arith, e, own) in
    rw (some_space, e) refl

-- A process that has an address space of its own and leaves to another process, and is then reaped,
-- has its address space destroyed two times: once when it exits, and once more when it is waited for.
pub proc_reap-leave_to :
    (procs : Procs) (c next : ℕ)
    → find_next procs ≡ some next
    → c ≢ next
    → (pcb_at procs c).address_space ≢ 0
    → (pcb_at procs c).address_space ≢ (pcb_at procs next).address_space
    → (frame : Registers) × (procs' : Procs) × (leave_to procs c ≡ resumes frame procs')
      × ((proc_reap procs' c).destroyed
          ≡ (pcb_at procs c).address_space ∷ (pcb_at procs c).address_space ∷ procs.destroyed)
proc_reap-leave_to procs c next found other own differ =
    let space : ℕ = (pcb_at procs c).address_space in
    let real : (space == 0) ≡ false = ground (arith, own) in
    let left : Procs = record (switched procs next) { destroyed = space ∷ procs.destroyed } in
    let same : pcb_at left c ≡ pcb_at procs c =
      get_or-set_ne procs.proc_table next c _ unused_pcb (λ e. other (sym e)) in
    let gone : destroy_space (switched procs next) space ≡ left =
      ap (λ (b : Bool). if b then switched procs next else left) real in
    (
      (pcb_at procs next).context,
      left,
      leave_to-next procs c next found (ground (arith, differ))
          ∙ ap (resumes (pcb_at procs next).context) gone,
      proc_reap-destroyed left c space (ap (λ (p : Pcb). p.address_space) same) own,
    )
