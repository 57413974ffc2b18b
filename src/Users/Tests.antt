-- ===== src/Users/Tests.antt =====
-- Runs of user.c, and its theorems at an input.
use blackmount.Common.{
  false, ℕ, ◌%◌, ◌≡◌, ◌≢◌, refl, true, List, [], ◌∷◌, ◌++◌, some, length, replicate,
  length-replicate, All-replicate, arith,
}
use blackmount.Common.Int.{pos, negsuc}
use blackmount.Users.{
  Accounts, no_user, user_exists, user_is_root, group_exists, user_check_perms, compare_groups,
  user_find_by_name, find_entry, str_eq,
}
use blackmount.Users.Hex.{IsByte}
use blackmount.Users.Passwords.{user_set_password, user_authenticate}
use blackmount.Users.Login.{IsHash, drawn_salt, user_authenticate-user_set_password}
use blackmount.Users.Permissions.{user_check_perms-user_is_root}

-- The groups root and users; the users "a" of root, and "b" and "c" of users.
abbrev accounts : Accounts
accounts = record {
  groups =
      record { groupname = 114 ∷ []; gid = pos 0; perms = 0; exists = true }
      ∷ record { groupname = 117 ∷ []; gid = pos 1; perms = 2; exists = true }
      ∷ [];
  users =
      record no_user { uid = pos 0; group = pos 0; username = 97 ∷ []; exists = true }
      ∷ record no_user { uid = pos 1; group = pos 1; username = 98 ∷ []; exists = true }
      ∷ record no_user { uid = pos 2; group = pos 1; username = 99 ∷ []; exists = true }
      ∷ [];
  salt_state = 1;
}

-- The second group's level is 2, the first one's 0.
users_refused : user_check_perms accounts (pos 1) (pos 0) ≡ some false
unfolding user_check_perms compare_groups
users_refused = refl

root_is_root : user_is_root accounts (pos 0) ≡ true
unfolding user_is_root user_exists group_exists
root_is_root = refl

second_exists : user_exists accounts (pos 1) ≡ true
unfolding user_exists
second_exists = refl

user_check_perms-user_is_root_example : user_check_perms accounts (pos 0) (pos 1) ≡ some true
user_check_perms-user_is_root_example =
    user_check_perms-user_is_root accounts 0 1 1 root_is_root second_exists refl (omega arith)

-- 32 copies of the length.
toy_hash : List ℕ → List ℕ
toy_hash input = replicate 32 (length input % 256)

toy_hash-IsHash : IsHash toy_hash
unfolding toy_hash
toy_hash-IsHash = record {
  length_32 = λ input. length-replicate {A = ℕ} 32 (length input % 256);
  in_bytes = λ input. All-replicate IsByte 32 (length input % 256) (omega arith);
}

second_found : user_find_by_name accounts (98 ∷ []) ≡ pos 1
unfolding user_find_by_name find_entry str_eq
second_found = refl

user_authenticate-user_set_password_example :
    (let salt = drawn_salt accounts in
      let (code, acc') = user_set_password toy_hash true accounts (pos 1) (some (120 ∷ [])) in
      (code ≡ pos 0)
      × ((toy_hash (salt ++ 121 ∷ []) ≡ toy_hash (salt ++ 120 ∷ []))
          → user_authenticate toy_hash true acc' (some (98 ∷ [])) (some (121 ∷ [])) ≡ pos 1)
      × ((toy_hash (salt ++ 121 ∷ []) ≢ toy_hash (salt ++ 120 ∷ []))
          → user_authenticate toy_hash true acc' (some (98 ∷ [])) (some (121 ∷ [])) ≡ negsuc 5))
user_authenticate-user_set_password_example =
    user_authenticate-user_set_password toy_hash accounts 1 (98 ∷ []) (120 ∷ []) (121 ∷ [])
      toy_hash-IsHash (omega arith) second_exists second_found
