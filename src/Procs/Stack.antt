-- ===== src/Procs/Stack.antt =====
-- How the stack pointer of a new process in proc.c is aligned.
use blackmount.Common.{ℕ, ◌+◌, ◌-◌, ◌*◌, ◌%◌, ◌≤◌, ◌≡◌, true, List, [], ◌∷◌, length, arith}
use blackmount.Procs.Create.{align_16, push_strings, setup_user_stack_argv}

-- The bytes of strings with their nulls.
unfoldable pub string_bytes : List (List ℕ) → ℕ
string_bytes [] = 0
string_bytes (s ∷ ss) = length s + 1 + string_bytes ss

push_strings_lem : (sp : ℕ) (ss : List (List ℕ)) → push_strings sp ss ≡ sp - string_bytes ss
unfolding push_strings string_bytes
push_strings_lem sp [] = omega arith
push_strings_lem sp (s ∷ ss) = omega (arith, push_strings_lem sp ss)

-- With arguments and an environment that leave room on the stack, the stack pointer is aligned to 16
-- bytes if the number of both together is odd, and is off by 8 if it is even.
pub setup_user_stack_argv_lem :
    (stack_top : ℕ) (argv envp : List (List ℕ))
    → string_bytes argv + string_bytes envp + 8 * (length argv + length envp) + 256 ≤ stack_top
    → setup_user_stack_argv true stack_top argv envp % 16
      ≡ 8 * ((1 + length argv + length envp) % 2)
unfolding setup_user_stack_argv
setup_user_stack_argv_lem stack_top argv envp room =
    let e = push_strings_lem (align_16 (stack_top - 16) - 16) envp in
    let a = push_strings_lem (push_strings (align_16 (stack_top - 16) - 16) envp) argv in
    omega (arith, e, a, room)
