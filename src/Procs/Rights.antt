-- ===== src/Procs/Rights.antt =====
-- What the calls of proc.c by which users act on processes let them do.
use blackmount.Common.{
  ℕ, ◌%◌, ◌^◌, ◌<◌, ◌≡◌, refl, sym, ◌∙◌, Bool, true, false, none, some, ltb, ◌||◌, ◌⊎◌, inl, inr,
  Bool-cases, Option-cases, arith,
}
use blackmount.Common.Int.{ℤ, minus_one}
use blackmount.Users.{Accounts, user_exists, user_get_perm_level}
use blackmount.Procs.{Procs, pcb_at, proc_find_index}
use blackmount.Procs.Identity.{same_id}
use blackmount.Procs.Exit.{fails}
use blackmount.Procs.Others.{
  proc_can_act, proc_kill_as, proc_block_as, proc_unblock_as, proc_wait_pid_as,
}

-- The actor is a user who owns the process or stands above its owner.
pub record MayAct (acc : Accounts) (procs : Procs) (actor : ℤ) (pid : ℕ) : Type 0 where
  pub slot : ℕ
  pub found : proc_find_index procs pid ≡ some slot
  pub exists : user_exists acc actor ≡ true
  pub over :
      (same_id actor (pcb_at procs slot).proc.owner ≡ true)
      ⊎ (user_get_perm_level acc actor < user_get_perm_level acc (pcb_at procs slot).proc.owner)

-- All calls fail and change nothing.
pub record Denied (acc : Accounts) (procs : Procs) (actor : ℤ) (pid : ℕ) : Type 0 where
  pub on_kill : (fuel : ℕ) → proc_kill_as fuel acc procs actor pid ≡ some (minus_one, procs)
  pub on_block : proc_block_as acc procs actor pid ≡ (minus_one, procs)
  pub on_unblock : proc_unblock_as acc procs actor pid ≡ (minus_one, procs)
  pub on_wait : proc_wait_pid_as acc procs actor pid ≡ fails

no_user :
    (acc : Accounts) (procs : Procs) (actor : ℤ) (pid : ℕ)
    → user_exists acc actor ≡ false
    → proc_can_act acc procs actor pid ≡ false
unfolding proc_can_act
no_user acc procs actor pid unknown = rw (unknown, proc_can_act) refl

no_right :
    (acc : Accounts) (procs : Procs) (actor : ℤ) (pid : ℕ)
    → user_exists acc actor ≡ true
    → proc_find_index procs pid ≡ none
    → proc_can_act acc procs actor pid ≡ false
unfolding proc_can_act
no_right acc procs actor pid known gone = rw (known, gone, proc_can_act) refl

right_over :
    (acc : Accounts) (procs : Procs) (actor : ℤ) (pid i : ℕ)
    → user_exists acc actor ≡ true
    → proc_find_index procs pid ≡ some i
    → proc_can_act acc procs actor pid ≡ (
        same_id actor (pcb_at procs i).proc.owner
        || ltb
            (user_get_perm_level acc actor)
            (user_get_perm_level acc (pcb_at procs i).proc.owner))
unfolding proc_can_act
right_over acc procs actor pid i known here = rw (known, here, proc_can_act) refl

own_or_less : (own : Bool) (m n : ℕ) → (own || ltb m n) ≡ true → (own ≡ true) ⊎ (m < n)
own_or_less true m n e = inl refl
own_or_less false m n e = inr (ground (arith, e))

can_act-MayAct :
    (acc : Accounts) (procs : Procs) (actor : ℤ) (pid : ℕ)
    → proc_can_act acc procs actor pid ≡ true
    → MayAct acc procs actor pid
can_act-MayAct acc procs actor pid can = elim (Bool-cases (user_exists acc actor)) [
  | inr unknown ↦
      let refused = no_user acc procs actor pid unknown in absurd (ground (arith, can, refused))
  | inl known ↦ elim (Option-cases (proc_find_index procs pid)) [
    | inl gone ↦
        let refused = no_right acc procs actor pid known gone in
        absurd (ground (arith, can, refused))
    | inr (i, here) ↦
        let owner = (pcb_at procs i).proc.owner in
        record {
          slot = i;
          found = here;
          exists = known;
          over =
              own_or_less (same_id actor owner) (user_get_perm_level acc actor)
                (user_get_perm_level acc owner)
                (sym (right_over acc procs actor pid i known here) ∙ can);
        }
  ]
]

denied :
    (acc : Accounts) (procs : Procs) (actor : ℤ) (pid : ℕ)
    → pid < 2 ^ 32
    → proc_can_act acc procs actor pid ≡ false
    → Denied acc procs actor pid
unfolding proc_kill_as proc_block_as proc_unblock_as proc_wait_pid_as
denied acc procs actor pid word cannot = record {
  on_kill = λ fuel. rw cannot refl;
  on_block = rw cannot refl;
  on_unblock = rw cannot refl;
  on_wait = let same : pid % 2 ^ 32 ≡ pid = omega (arith, word) in rw (same, cannot) refl;
}

-- For a 32-bit pid, a user can end, block, wake or wait for a process by the calls for users only if the user exists and owns the
-- process or has a lower level number than its owner: otherwise each call fails and changes nothing.
pub acting_lem :
    (acc : Accounts) (procs : Procs) (actor : ℤ) (pid : ℕ)
    → pid < 2 ^ 32
    → MayAct acc procs actor pid ⊎ Denied acc procs actor pid
acting_lem acc procs actor pid word = elim (Bool-cases (proc_can_act acc procs actor pid)) [
  | inl can ↦ inl (can_act-MayAct acc procs actor pid can)
  | inr cannot ↦ inr (denied acc procs actor pid word cannot)
]
