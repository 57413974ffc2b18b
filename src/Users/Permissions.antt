-- ===== src/Users/Permissions.antt =====
-- What `user_check_perms` of user.c allows.
use blackmount.Common.{
  List, [], get_or, false, ℕ, ◌≤◌, ◌<◌, ◌≡◌, refl, sym, ap, ◌∙◌, true, some, arith,
}
use blackmount.Common.Int.{ℤ, pos, negsuc}
use blackmount.Users.{
  User, no_user, Accounts, max_users, max_groups, user_at, group_at, user_exists, group_exists,
  perms_of, user_is_root, user_check_perms, compare_groups,
}

compare_groups_holds :
    (acc : Accounts) (g h : ℕ)
    → g < max_groups
    → h < max_groups
    → (group_at acc g).perms ≤ (group_at acc h).perms
    → compare_groups acc (pos g) (pos h) ≡ some true
unfolding compare_groups
compare_groups_holds acc g h near_g near_h le = ground (arith, near_g, near_h, le)

-- Two different users of the table whose groups compare.
record Compared (acc : Accounts) (a b : ℕ) : Type 0 where
  near_a : a < max_users
  near_b : b < max_users
  used_a : (user_at acc a).exists ≡ true
  used_b : (user_at acc b).exists ≡ true
  groups : compare_groups acc (user_at acc a).group (user_at acc b).group ≡ some true

user_check_perms_holds :
    (acc : Accounts) (a b : ℕ) → Compared acc a b → user_check_perms acc (pos a) (pos b) ≡ some true
unfolding user_check_perms
user_check_perms_holds acc a b c = ground (arith, c.near_a, c.near_b, c.used_a, c.used_b, c.groups)

-- Two users of the table that exist, with groups of the table, the first group's level being no
-- larger than the second's.
pub record Outranks (acc : Accounts) (a b : ℤ) : Type 0 where
  pub actor : ℕ
  pub other : ℕ
  pub actor_group : ℕ
  pub other_group : ℕ
  pub is_actor : a ≡ pos actor
  pub is_other : b ≡ pos other
  pub near_actor : actor < max_users
  pub near_other : other < max_users
  pub actor_exists : (user_at acc actor).exists ≡ true
  pub other_exists : (user_at acc other).exists ≡ true
  pub actor_member : (user_at acc actor).group ≡ pos actor_group
  pub other_member : (user_at acc other).group ≡ pos other_group
  pub near_actor_group : actor_group < max_groups
  pub near_other_group : other_group < max_groups
  pub level : (group_at acc actor_group).perms ≤ (group_at acc other_group).perms

group_exists-pos :
    (acc : Accounts) (gr : ℤ)
    → group_exists acc gr ≡ true
    → (g : ℕ) × (gr ≡ pos g) × (g < max_groups)
unfolding group_exists
group_exists-pos acc (pos g) e = (g, refl, ground (arith, e))
group_exists-pos acc (negsuc g) e = absurd (ground (arith, e))

-- What `user_is_root` looked at.
record RootUser (acc : Accounts) (a : ℕ) : Type 0 where
  near : a < max_users
  used : (user_at acc a).exists ≡ true
  group : group_exists acc (user_at acc a).group ≡ true
  level : perms_of acc (user_at acc a).group ≡ 0

user_is_root-pos : (acc : Accounts) (a : ℕ) → user_is_root acc (pos a) ≡ true → RootUser acc a
unfolding user_is_root user_exists
user_is_root-pos acc a e = record {
  near = ground (arith, e);
  used = ground (arith, e);
  group = ground (arith, e);
  level = ground (arith, e);
}

-- A root user may act on every existing user whose group is a number of the table.
pub user_check_perms-user_is_root :
    (acc : Accounts) (a b g : ℕ)
    → user_is_root acc (pos a) ≡ true
    → user_exists acc (pos b) ≡ true
    → (user_at acc b).group ≡ pos g
    → g < max_groups
    → user_check_perms acc (pos a) (pos b) ≡ some true
unfolding user_exists
user_check_perms-user_is_root acc a b g root exists member near =
    let r = user_is_root-pos acc a root in
    let (h, root_member, h_near) = group_exists-pos acc (user_at acc a).group r.group in
    let level : (group_at acc h).perms ≡ 0 = ap (perms_of acc) (sym root_member) ∙ r.level in
    user_check_perms_holds acc a b (record {
      near_a = r.near;
      near_b = ground (arith, exists);
      used_a = r.used;
      used_b = ground (arith, exists);
      groups =
          rw (root_member, member)
            (compare_groups_holds acc h g h_near near (omega (arith, level)));
    })

-- An empty table has no root user.
pub user_is_root-no_users :
    (acc : Accounts) (u : ℕ) → acc.users ≡ [] → user_is_root acc (pos u) ≡ false
unfolding user_is_root user_exists
user_is_root-no_users acc u e =
    let none_there : (user_at acc u).exists ≡ false =
      ap (λ (us : List User). (get_or us u no_user).exists) e in
    ground (arith, none_there)
