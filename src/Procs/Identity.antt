-- ===== src/Procs/Identity.antt =====
-- The user and group numbers of a process in proc.c, and its working directory. `uid_t` and `gid_t`
-- are `int`; each call works on the current process.
use blackmount.Common.{Bool, false, ◌==◌, ◌&&◌, ◌||◌, not, if◌then◌else◌}
use blackmount.Common.Int.{ℤ, pos, negsuc, minus_one}
use blackmount.Users.{Accounts, user_is_root}
use blackmount.Procs.{Proc, Procs, pcb_at, put_pcb}

-- `a == b`
abbrev pub same_id : ℤ → ℤ → Bool
same_id (pos a) (pos b) = a == b
same_id (pos a) (negsuc b) = false
same_id (negsuc a) (pos b) = false
same_id (negsuc a) (negsuc b) = a == b

-- `a != (uid_t)-1`
abbrev pub given : ℤ → Bool
given id = not (same_id id minus_one)

unfoldable pub setuid : Accounts → ℤ → Proc → ℤ × Proc
setuid acc uid p =
    if user_is_root acc p.euid
    then (pos 0, record p { owner = uid; euid = uid; saved_uid = uid })
    else if same_id uid p.owner || same_id uid p.saved_uid
    then (pos 0, record p { euid = uid })
    else (minus_one, p)

unfoldable pub seteuid : Accounts → ℤ → Proc → ℤ × Proc
seteuid acc uid p =
    if user_is_root acc p.euid
    then (pos 0, record p { euid = uid })
    else if same_id uid p.owner || same_id uid p.saved_uid
    then (pos 0, record p { euid = uid })
    else (minus_one, p)

-- The second half of `setreuid`; `p` may have a new owner already.
unfoldable pub set_effective : Bool → ℤ → ℤ → ℤ → Proc → ℤ × Proc
set_effective root old_r ruid euid p =
    if given euid
      && not root
      && not (same_id euid old_r)
      && not (same_id euid p.euid)
      && not (same_id euid p.saved_uid)
    then (minus_one, p)
    else let q : Proc = if given euid then record p { euid = euid } else p in
      (
        pos 0,
        if given ruid || (given euid && not (same_id euid old_r))
            then record q { saved_uid = q.euid }
            else q,
      )

unfoldable pub setreuid : Accounts → ℤ → ℤ → Proc → ℤ × Proc
setreuid acc ruid euid p =
    let root : Bool = user_is_root acc p.euid in
    if given ruid && not root && not (same_id ruid p.owner) && not (same_id ruid p.euid)
    then (minus_one, p)
    else set_effective root p.owner ruid euid (if given ruid then record p { owner = ruid } else p)

unfoldable pub setgid : Accounts → ℤ → Proc → ℤ × Proc
setgid acc gid p =
    if user_is_root acc p.euid
    then (pos 0, record p { group = gid; egroup = gid; saved_gid = gid })
    else if same_id gid p.group || same_id gid p.saved_gid
    then (pos 0, record p { egroup = gid })
    else (minus_one, p)

unfoldable pub setegid : Accounts → ℤ → Proc → ℤ × Proc
setegid acc gid p =
    if user_is_root acc p.euid
    then (pos 0, record p { egroup = gid })
    else if same_id gid p.group || same_id gid p.saved_gid
    then (pos 0, record p { egroup = gid })
    else (minus_one, p)

-- The second half of `setregid`.
unfoldable pub set_effective_group : Bool → ℤ → ℤ → ℤ → Proc → ℤ × Proc
set_effective_group root old_r rgid egid p =
    if given egid
      && not root
      && not (same_id egid old_r)
      && not (same_id egid p.egroup)
      && not (same_id egid p.saved_gid)
    then (minus_one, p)
    else let q : Proc = if given egid then record p { egroup = egid } else p in
      (
        pos 0,
        if given rgid || (given egid && not (same_id egid old_r))
            then record q { saved_gid = q.egroup }
            else q,
      )

unfoldable pub setregid : Accounts → ℤ → ℤ → Proc → ℤ × Proc
setregid acc rgid egid p =
    let root : Bool = user_is_root acc p.euid in
    if given rgid && not root && not (same_id rgid p.group) && not (same_id rgid p.egroup)
    then (minus_one, p)
    else set_effective_group root p.group rgid egid
        (if given rgid then record p { group = rgid } else p)

-- `id != -1 && id != r && id != e && id != s`
abbrev pub foreign_gid : ℤ → Proc → Bool
foreign_gid id p =
    given id
    && not (same_id id p.group)
    && not (same_id id p.egroup)
    && not (same_id id p.saved_gid)

unfoldable pub setresgid : Accounts → ℤ → ℤ → ℤ → Proc → ℤ × Proc
setresgid acc rgid egid sgid p =
    if not (user_is_root acc p.euid)
      && (foreign_gid rgid p || foreign_gid egid p || foreign_gid sgid p)
    then (minus_one, p)
    else (
      pos 0,
      record p {
        group = if given rgid then rgid else p.group;
        egroup = if given egid then egid else p.egroup;
        saved_gid = if given sgid then sgid else p.saved_gid;
      },
    )

-- A call works on the current process, and fails without one.
abbrev pub on_current : (Proc → ℤ × Proc) → Procs → ℤ → ℤ × Procs
on_current change procs (negsuc n) = (minus_one, procs)
on_current change procs (pos c) =
    let r = change (pcb_at procs c).proc in
    (r.0, put_pcb procs c (record (pcb_at procs c) { proc = r.1 }))

unfoldable pub proc_setuid : Accounts → Procs → ℤ → ℤ × Procs
proc_setuid acc procs uid = on_current (setuid acc uid) procs procs.current_proc

unfoldable pub proc_seteuid : Accounts → Procs → ℤ → ℤ × Procs
proc_seteuid acc procs uid = on_current (seteuid acc uid) procs procs.current_proc

unfoldable pub proc_setreuid : Accounts → Procs → ℤ → ℤ → ℤ × Procs
proc_setreuid acc procs ruid euid = on_current (setreuid acc ruid euid) procs procs.current_proc

unfoldable pub proc_setgid : Accounts → Procs → ℤ → ℤ × Procs
proc_setgid acc procs gid = on_current (setgid acc gid) procs procs.current_proc

unfoldable pub proc_setegid : Accounts → Procs → ℤ → ℤ × Procs
proc_setegid acc procs gid = on_current (setegid acc gid) procs procs.current_proc

unfoldable pub proc_setregid : Accounts → Procs → ℤ → ℤ → ℤ × Procs
proc_setregid acc procs rgid egid = on_current (setregid acc rgid egid) procs procs.current_proc

unfoldable pub proc_setresgid : Accounts → Procs → ℤ → ℤ → ℤ → ℤ × Procs
proc_setresgid acc procs rgid egid sgid =
    on_current (setresgid acc rgid egid sgid) procs procs.current_proc

-- `(uid_t)-1` without a current process.
abbrev pub of_current : (Proc → ℤ) → Procs → ℤ → ℤ
of_current field procs (negsuc n) = minus_one
of_current field procs (pos c) = field (pcb_at procs c).proc

pub proc_get_current_pid : Procs → ℤ
proc_get_current_pid procs = of_current (λ p. pos p.pid) procs procs.current_proc

pub proc_getppid : Procs → ℤ
proc_getppid procs = of_current (λ p. pos p.ppid) procs procs.current_proc

pub proc_getuid : Procs → ℤ
proc_getuid procs = of_current (λ p. p.owner) procs procs.current_proc

pub proc_geteuid : Procs → ℤ
proc_geteuid procs = of_current (λ p. p.euid) procs procs.current_proc

pub proc_getgid : Procs → ℤ
proc_getgid procs = of_current (λ p. p.group) procs procs.current_proc

pub proc_getegid : Procs → ℤ
proc_getegid procs = of_current (λ p. p.egroup) procs procs.current_proc
