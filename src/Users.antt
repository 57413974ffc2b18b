-- ===== src/Users.antt =====
-- src/kernel/user/user.c: the tables of users and groups, their permissions, and passwords. A name
-- is the list of its characters before the null; `password_hash` is the whole array of characters.
-- The hash function and whether `kmalloc` grants a buffer are arguments; log calls are left out.
pub mod Hex
pub mod Passwords
pub mod Compare
pub mod Login
pub mod Permissions
mod Tests
use blackmount.Common.{
  ℕ, zero, suc, ◌+◌, ◌-◌, ◌*◌, ◌/◌, ◌%◌, ◌^◌, bit_or, bit_xor, Bool, true, false, List, [], ◌∷◌,
  ◌++◌, Option, none, some, length, get_or, set, take, drop, replicate, ltb, leb, ◌==◌, ◌&&◌, ◌||◌,
  not, if◌then◌else◌,
}
use blackmount.Common.Int.{ℤ, pos, negsuc, minus_one}

abbrev pub max_groups : ℕ
max_groups = 124

abbrev pub max_users : ℕ
max_users = 124

abbrev pub shadow_hash_len : ℕ
shadow_hash_len = 128

abbrev pub user_home_len : ℕ
user_home_len = 128

abbrev pub user_shell_len : ℕ
user_shell_len = 64

-- `group_t`; the permission levels are ROOT = 0, SUDO = 1, USER = 2, and what a file says.
pub record Group : Type 0 where
  pub groupname : List ℕ
  pub gid : ℤ
  pub perms : ℕ
  pub exists : Bool

-- `user_t`
pub record User : Type 0 where
  pub uid : ℤ
  pub group : ℤ
  pub username : List ℕ
  pub password_hash : List ℕ
  pub home : List ℕ
  pub shell : List ℕ
  pub exists : Bool

pub record Accounts : Type 0 where
  pub groups : List Group
  pub users : List User
  pub salt_state : ℕ

abbrev pub no_group : Group
no_group = record { groupname = []; gid = pos 0; perms = 0; exists = false }

abbrev pub no_user : User
no_user = record {
  uid = pos 0;
  group = pos 0;
  username = [];
  password_hash = replicate shadow_hash_len 0;
  home = [];
  shell = [];
  exists = false;
}

abbrev pub group_at : Accounts → ℕ → Group
group_at acc g = get_or acc.groups g no_group

abbrev pub user_at : Accounts → ℕ → User
user_at acc u = get_or acc.users u no_user

-- `s[0]` and `s + 1`
abbrev pub first : List ℕ → ℕ
first [] = 0
first (c ∷ s) = c

abbrev pub rest : List ℕ → List ℕ
rest [] = []
rest (c ∷ s) = s

-- `a - b` of two characters.
abbrev pub difference : ℕ → ℕ → ℤ
difference a b = if ltb a b then negsuc (b - a - 1) else pos (a - b)

pub u_strncmp : List ℕ → List ℕ → ℕ → ℤ
u_strncmp a b zero = pos 0
u_strncmp a b (suc n) =
    let next = u_strncmp (rest a) (rest b) n in
    if not (first a == first b)
    then difference (first a) (first b)
    else if first a == 0
    then pos 0
    else next

-- `strcmp(a, b) == 0`
unfoldable pub str_eq : List ℕ → List ℕ → Bool
str_eq [] [] = true
str_eq [] (y ∷ ys) = false
str_eq (x ∷ xs) [] = false
str_eq (x ∷ xs) (y ∷ ys) = x == y && str_eq xs ys

-- The index of the first entry that passes a test, for entries that stand from `i` on.
pub find_entry {ℓ} : {A : Type ℓ} → (A → Bool) → List A → ℕ → Option ℕ
find_entry test [] i = none
find_entry test (x ∷ xs) i = if test x then some i else find_entry test xs (i + 1)

pub user_create_group : Accounts → List ℕ → ℕ → ℤ × Accounts
user_create_group acc name perms = elim (find_entry (λ (g : Group). not g.exists) acc.groups 0) [
  | none ↦ (minus_one, acc)
  | some i ↦ (
    pos i,
    record acc {
      groups =
          set acc.groups i (record { groupname = name; gid = pos i; perms = perms; exists = true });
    },
  )
]

-- `gid >= MAX_GROUPS`
abbrev pub gid_too_large : ℤ → Bool
gid_too_large (pos g) = leb max_groups g
gid_too_large (negsuc n) = false

-- "/bin/mountshell"
abbrev pub default_shell : List ℕ
default_shell =
    47 ∷ 98 ∷ 105 ∷ 110 ∷ 47 ∷ 109 ∷ 111 ∷ 117 ∷ 110 ∷ 116 ∷ 115 ∷ 104 ∷ 101 ∷ 108 ∷ 108 ∷ []

-- `text ? text : default`
abbrev pub or_default : Option (List ℕ) → List ℕ → List ℕ
or_default none text = text
or_default (some s) text = s

-- `u_strlcpy` of a string into an array of `size` characters that holds a string.
abbrev pub u_strlcpy : List ℕ → ℕ → List ℕ
u_strlcpy src size = take (size - 1) src

pub user_create_user_full : Accounts → List ℕ → ℤ → Option (List ℕ) → Option (List ℕ) → ℤ × Accounts
user_create_user_full acc name gid home shell =
    if gid_too_large gid
    then (minus_one, acc)
    else elim (find_entry (λ (u : User). not u.exists) acc.users 0) [
      | none ↦ (minus_one, acc)
      | some i ↦ (
        pos i,
        record acc {
          users = set acc.users i (record {
            uid = pos i;
            group = gid;
            username = name;
            password_hash = set (user_at acc i).password_hash 0 0;
            home = u_strlcpy (or_default home (47 ∷ [])) user_home_len;
            shell = u_strlcpy (or_default shell default_shell) user_shell_len;
            exists = true;
          });
        },
      )
    ]

unfoldable pub user_exists : Accounts → ℤ → Bool
user_exists acc (negsuc n) = false
user_exists acc (pos u) = if leb max_users u then false else (user_at acc u).exists

-- The entry of a user that exists.
abbrev pub entry : Accounts → ℤ → User
entry acc (negsuc n) = no_user
entry acc (pos u) = user_at acc u

pub user_get_gid : Accounts → ℤ → ℤ
user_get_gid acc uid = if user_exists acc uid then (entry acc uid).group else minus_one

-- `gid < 0 || gid >= MAX_GROUPS || !groups[gid].exists`, the other way round.
pub group_exists : Accounts → ℤ → Bool
group_exists acc (negsuc n) = false
group_exists acc (pos g) = if leb max_groups g then false else (group_at acc g).exists

abbrev pub perms_of : Accounts → ℤ → ℕ
perms_of acc (negsuc n) = 0
perms_of acc (pos g) = (group_at acc g).perms

pub user_is_root : Accounts → ℤ → Bool
user_is_root acc uid =
    if not (user_exists acc uid)
    then false
    else if not (group_exists acc (entry acc uid).group)
    then false
    else perms_of acc (entry acc uid).group == 0

pub user_get_perm_level : Accounts → ℤ → ℕ
user_get_perm_level acc uid =
    if not (user_exists acc uid)
    then 2
    else if not (group_exists acc (entry acc uid).group)
    then 2
    else perms_of acc (entry acc uid).group

pub user_find_by_name : Accounts → List ℕ → ℤ
user_find_by_name acc name =
    elim (find_entry (λ (u : User). u.exists && str_eq u.username name) acc.users 0) [
      | none ↦ minus_one
      | some i ↦ pos i
    ]

pub group_find_by_name : Accounts → List ℕ → ℤ
group_find_by_name acc name =
    elim (find_entry (λ (g : Group). g.exists && str_eq g.groupname name) acc.groups 0) [
      | none ↦ minus_one
      | some i ↦ pos i
    ]

-- The last comparison of `user_check_perms`, with its guard.
pub compare_groups : Accounts → ℤ → ℤ → Option Bool
compare_groups acc (negsuc r) (negsuc c) = none
compare_groups acc (negsuc r) (pos c) = if leb max_groups c then some false else none
compare_groups acc (pos r) (negsuc c) = if leb max_groups r then some false else none
compare_groups acc (pos r) (pos c) =
    if leb max_groups r || leb max_groups c
    then some false
    else some (leb (group_at acc r).perms (group_at acc c).perms)

-- `user_check_perms`; `none` is a read outside the two tables, which a negative number leads to.
pub user_check_perms : Accounts → ℤ → ℤ → Option Bool
user_check_perms acc (negsuc r) (negsuc c) = if r == c then some true else none
user_check_perms acc (negsuc r) (pos c) = if leb max_users c then some false else none
user_check_perms acc (pos r) (negsuc c) =
    if leb max_users r then some false else if not (user_at acc r).exists then some false else none
user_check_perms acc (pos r) (pos c) =
    if r == c
    then some true
    else if leb max_users r || leb max_users c
    then some false
    else if not (user_at acc r).exists || not (user_at acc c).exists
    then some false
    else compare_groups acc (user_at acc r).group (user_at acc c).group
